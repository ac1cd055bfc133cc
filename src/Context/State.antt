-- ===== src/Context/State.antt =====
-- The objects of package context and the AMF's state (context/context.go, amf_ran.go, ran_ue.go).
use amf_cdac.Base.{
  ℕ, String, ◌≡◌, ◌↔◌, Bool, true, false, Option, List, Map, arith, Eq, ◌==◌, nat_eq, string_eq,
  nat_beq, nat_beq_iff, if◌then◌else◌,
}
use text.Mathlib.TextEquality.{eq_iff}
use amf_cdac.Types.{Bytes, AccessType, Tai, Snssai, RelAction}
use amf_cdac.Ue.{AmfUe}

-- context/ran_ue.go: the UE as the RAN sees it.
pub record RanUe : Type 0 where
  pub ran_ue_ngap_id : ℕ
  pub amf_ue_ngap_id : ℕ
  pub source_ue : Option ℕ
  pub target_ue : Option ℕ
  pub amf_ue : Option ℕ
  pub ran : Option ℕ
  pub rrc_establishment_cause : String
  pub tai : Tai
  pub ue_context_request : Bool
  pub recvd_initial_context_setup_response : Bool
  pub sent_initial_context_setup_request : Bool
  pub release_action : RelAction
  pub success_pdu_session_id : List ℕ

-- context/amf_ran.go: a base station and its UEs.
pub record AmfRan : Type 0 where
  pub ran_present : ℕ
  pub an_type : AccessType
  pub gnb_ip : String
  pub gnb_id : String
  pub conn : Option ℕ
  pub ran_ue_list : List ℕ

-- The keys of AmfRanPool, which the code stores as interface values: a connection or a string.
pub data RanKey : Type 0 where
  by_conn : ℕ → RanKey
  by_id : String → RanKey

abbrev pub RanKey_beq : RanKey → RanKey → Bool
RanKey_beq (by_conn c) (by_conn d) = c == d
RanKey_beq (by_id s) (by_id t) = s == t
RanKey_beq _ _ = false

pub RanKey_beq_iff : (a b : RanKey) → (RanKey_beq a b ≡ true) ↔ (a ≡ b)
RanKey_beq_iff (by_conn c) (by_conn d) = ground (arith, nat_beq_iff c d)
RanKey_beq_iff (by_conn c) (by_id t) = ground arith
RanKey_beq_iff (by_id s) (by_conn d) = ground arith
RanKey_beq_iff (by_id s) (by_id t) = ground (arith, eq_iff s t)

instance abbrev pub ran_key_eq : Eq RanKey
ran_key_eq = record { beq = RanKey_beq; beq_iff = RanKey_beq_iff }

-- What an identifier generator was asked for, the newest call first.
pub data IdCall : Type 0 where
  allocated : ℕ → IdCall
  freed : ℕ → IdCall
  -- FreeID of the negative number -(n + 1)
  freed_below : ℕ → IdCall

-- models.Guami, as far as a GUTI is made of it; the strings are lists of bytes.
pub record Guami : Type 0 where
  pub mcc : Bytes
  pub mnc : Bytes
  pub amf_id : Bytes

-- The heap and the AMF context. An object stands at its address, and the next object of a kind
-- comes at the address that is counted.
pub record World : Type 0 where
  pub ran_ues : ℕ → RanUe
  pub rans : ℕ → AmfRan
  pub ues : ℕ → AmfUe
  pub next_ran_ue : ℕ
  pub next_ran : ℕ
  pub next_ue : ℕ
  -- the pools
  pub ran_ue_pool : Map ℕ ℕ
  pub ue_pool : Map String ℕ
  pub amf_ran_pool : Map RanKey ℕ
  -- the identifier generators, by their histories
  pub ngap_ids : List IdCall
  pub tmsi_ids : List IdCall
  pub drsm_ids : List IdCall
  -- the "quit" events sent to the UEs' event channels
  pub quits : List ℕ
  -- configuration
  pub enable_db_store : Bool
  pub enable_sctp_lb : Bool
  pub served_guami_list : List Guami
  pub support_tai_lists : List Tai
  -- the slices of each PLMN
  pub plmn_support_list : List (List Snssai)

-- The object at one address is replaced.
abbrev pub update {ℓ} : {A : Type ℓ} → (ℕ → A) → ℕ → A → ℕ → A
update heap p a q = if nat_beq p q then a else heap q

-- What a call that may fail leaves: a world, a returned error, or a nil pointer dereferenced.
pub data Outcome : Type 0 where
  done : World → Outcome
  error : Outcome
  panics : Outcome
