-- ===== src/Types.antt =====
-- The data of package context that several parts share: access types, GMM states, PLMNs, tracking
-- areas and slices (context/amf_ue.go, and the models types that the code reads field by field).
use amf_cdac.Base.{
  ℕ, String, ◌≡◌, ◌↔◌, Bool, true, false, ◌&&◌, Option, List, arith, Eq, ◌==◌, nat_eq, string_eq,
  option_eq, option_beq_iff,
}
use text.Mathlib.TextEquality.{eq_iff}
use amf_cdac.Base.Tests.{nat_beq_iff}

-- A slice of bytes, or a string that the code walks byte by byte.
abbrev pub Bytes : Type 0
Bytes = List ℕ

-- models.AccessType: the two constants, and the empty string of a variable never set.
pub data AccessType : Type 0 where
  access_3gpp access_non_3gpp access_empty : AccessType

abbrev pub AccessType_beq : AccessType → AccessType → Bool
AccessType_beq access_3gpp access_3gpp = true
AccessType_beq access_non_3gpp access_non_3gpp = true
AccessType_beq access_empty access_empty = true
AccessType_beq _ _ = false

pub AccessType_beq_iff : (a b : AccessType) → (AccessType_beq a b ≡ true) ↔ (a ≡ b)
AccessType_beq_iff a b = ground arith

instance abbrev pub access_type_eq : Eq AccessType
access_type_eq = record { beq = AccessType_beq; beq_iff = AccessType_beq_iff }

-- The states of the GMM state machine.
pub data GmmState : Type 0 where
  deregistered deregistration_initiated authentication security_mode context_setup registered :
      GmmState

pub record PlmnId : Type 0 where
  pub mcc : String
  pub mnc : String

-- models.Tai: the PLMN is a pointer.
pub record Tai : Type 0 where
  pub plmn_id : Option PlmnId
  pub tac : String

-- models.Snssai
pub record Snssai : Type 0 where
  pub sst : ℕ
  pub sd : String

-- models.SubscribedSnssai: a slice of the subscription, and whether it is a default one.
pub record SubscribedSnssai : Type 0 where
  pub subscribed_snssai : Snssai
  pub default_indication : Bool

-- ngapType.Cause, by its group and value, or one that the AMF gives.
pub data Cause : Type 0 where
  received : ℕ → ℕ → Cause
  unknown_local_ue_ngap_id ngran_generated_reason ho_failure_in_target : Cause
  successful_handover unspecified : Cause

-- context.RelAction
pub data RelAction : Type 0 where
  n2_normal_release release_handover release_ue_context release_nw_initiated : RelAction

-- models.Area: the tracking area codes of one area.
pub record Area : Type 0 where
  pub tacs : List String

abbrev pub PlmnId_beq : PlmnId → PlmnId → Bool
PlmnId_beq a b = a.mcc == b.mcc && a.mnc == b.mnc

pub PlmnId_beq_iff : (a b : PlmnId) → (PlmnId_beq a b ≡ true) ↔ (a ≡ b)
PlmnId_beq_iff a b = ground (arith, eq_iff a.mcc b.mcc, eq_iff a.mnc b.mnc)

instance abbrev pub plmn_id_eq : Eq PlmnId
plmn_id_eq = record { beq = PlmnId_beq; beq_iff = PlmnId_beq_iff }

-- reflect.DeepEqual of two models.Tai
abbrev pub Tai_beq : Tai → Tai → Bool
Tai_beq a b = a.plmn_id == b.plmn_id && a.tac == b.tac

pub Tai_beq_iff : (a b : Tai) → (Tai_beq a b ≡ true) ↔ (a ≡ b)
Tai_beq_iff a b = ground (arith, option_beq_iff a.plmn_id b.plmn_id, eq_iff a.tac b.tac)

instance abbrev pub tai_eq : Eq Tai
tai_eq = record { beq = Tai_beq; beq_iff = Tai_beq_iff }

-- reflect.DeepEqual of two models.Snssai
abbrev pub Snssai_beq : Snssai → Snssai → Bool
Snssai_beq a b = a.sst == b.sst && a.sd == b.sd

pub Snssai_beq_iff : (a b : Snssai) → (Snssai_beq a b ≡ true) ↔ (a ≡ b)
Snssai_beq_iff a b = ground (arith, nat_beq_iff a.sst b.sst, eq_iff a.sd b.sd)

instance abbrev pub snssai_eq : Eq Snssai
snssai_eq = record { beq = Snssai_beq; beq_iff = Snssai_beq_iff }

-- The security.AlgIntegrity128NIAx and AlgCiphering128NEAx constants, and any other uint8.
pub data IntegrityAlg : Type 0 where
  nia0 nia1 nia2 nia3 : IntegrityAlg
  other_nia : ℕ → IntegrityAlg

pub data CipheringAlg : Type 0 where
  nea0 nea1 nea2 nea3 : CipheringAlg
  other_nea : ℕ → CipheringAlg
