-- ===== src/Ue.antt =====
-- The UE context (context/amf_ue.go): the fields of AmfUe that the modelled operations read or
-- write. A pointer to a RanUe or an AmfRan is an address of the heap in `Context`; a pointer of which
-- only nil or not matters is an Option. security.Count is a number that only the library's functions
-- read (`Nas.Library`).
pub mod Algorithms
mod Examples
pub mod Slices
use amf_cdac.Base.{ℕ, ℤ, pos, String, Bool, false, Option, none, List, [], Map}
use amf_cdac.Timer.{Timer}
use amf_cdac.Types.{
  Cause, Bytes, AccessType, GmmState, PlmnId, Tai, Snssai, SubscribedSnssai, IntegrityAlg, nia0,
  CipheringAlg, nea0,
}

-- OnGoingProcedure
pub data OnGoingProcedure : Type 0 where
  nothing paging n2_handover registration_procedure abort_procedure : OnGoingProcedure

-- OnGoingProcedureWithPrio
pub record OnGoing : Type 0 where
  pub procedure : OnGoingProcedure
  pub ppi : ℕ

-- nasType.UESecurityCapability: what its GetIAx_5G and GetEAx_5G return, 1 for a supported one.
pub record SecurityCapability : Type 0 where
  pub ia0 : ℕ
  pub ia1_128 : ℕ
  pub ia2_128 : ℕ
  pub ia3_128 : ℕ
  pub ea0 : ℕ
  pub ea1_128 : ℕ
  pub ea2_128 : ℕ
  pub ea3_128 : ℕ

-- The data of an authentication vector: of 5G-AKA, those of EAP, or what does not decode.
pub data AuthData : Type 0 where
  av_5g_aka : Bytes → Bytes → AuthData
  eap_payload : String → AuthData
  undecodable : AuthData

-- models.AuthType
pub data AuthType : Type 0 where
  auth_5g_aka eap_aka_prime auth_other : AuthType

-- models.UeAuthenticationCtx, which only the UE points to.
pub record AuthenticationCtx : Type 0 where
  pub auth_type : AuthType
  pub var_5g_auth_data : AuthData
  pub links : Map String String

-- The access types of NAS, as util.AnTypeToNas gives them, or any other uint8.
pub data NasAccess : Type 0 where
  nas_3gpp nas_non_3gpp nas_both : NasAccess
  nas_other : ℕ → NasAccess

-- The part of a SmContext that the handlers read.
pub record SmContext : Type 0 where
  pub access_type : AccessType
  pub snssai : Snssai
  pub dnn : String
  pub pdu_session_inactive_val : Bool

pub record AmfUe : Type 0 where
  -- GMM state and registration
  pub state : Map AccessType GmmState
  pub registration_request : Option ℕ
  pub registration_type_5gs : ℕ
  pub identity_type_used_for_registration : ℕ
  pub serving_amf_changed : Bool
  pub registration_accept_for_non_3gpp_access : Option Bytes
  pub retransmission_of_initial_nas_msg : Bool
  pub on_going : Map AccessType OnGoing
  -- identity
  pub suci : String
  pub plmn_id : PlmnId
  pub supi : String
  pub unauthenticated_supi : Bool
  pub pei : String
  pub tmsi : ℤ
  pub guti : Bytes
  pub policy_association_id : String
  -- location, subscription, slices
  pub tai : Tai
  pub location_changed : Bool
  -- a deleted cause leaves a nil entry
  pub release_cause : Map AccessType (Option Cause)
  pub registration_area : Map AccessType (List Tai)
  pub subscription_data_valid : Bool
  pub subscribed_nssai : List SubscribedSnssai
  pub allowed_nssai : Map AccessType (List Snssai)
  -- the slices refused, which have all the same cause
  pub rejected_nssai : Map AccessType (List Snssai)
  -- related contexts
  pub ran_ue : Map AccessType ℕ
  -- authentication and security
  pub authentication_ctx : Option AuthenticationCtx
  pub ausf_id : String
  pub ausf_uri : String
  pub abba : Bytes
  pub kseaf : String
  pub auth_failure_cause_synch_failure_times : ℕ
  pub security_context_available : Bool
  pub ue_security_capability : SecurityCapability
  pub ng_ksi : ℕ
  pub ng_ksi_native : Bool
  pub mac_failed : Bool
  pub knas_int : Bytes
  pub knas_enc : Bytes
  pub nh : Bytes
  pub ncc : ℕ
  pub ul_count : ℕ
  pub dl_count : ℕ
  pub event_channel : Bool
  pub ciphering_alg : CipheringAlg
  pub integrity_alg : IntegrityAlg
  -- timers
  pub t3550 : Option Timer
  pub t3560 : Option Timer
  pub t3522 : Option Timer
  pub t3513 : Option Timer
  pub t3565 : Option Timer
  -- sessions, policy and deregistration
  pub sm_context_list : Map ℕ SmContext
  pub am_policy_association : Bool
  pub deregistration_target_access_type : NasAccess

-- AmfUe{}: every field has its zero value. The zero algorithm is the null algorithm.
abbrev pub zero_ue : AmfUe
zero_ue = record {
  state = [];
  registration_request = none;
  registration_type_5gs = 0;
  identity_type_used_for_registration = 0;
  serving_amf_changed = false;
  registration_accept_for_non_3gpp_access = none;
  retransmission_of_initial_nas_msg = false;
  on_going = [];
  suci = "";
  plmn_id = record { mcc = ""; mnc = "" };
  supi = "";
  unauthenticated_supi = false;
  pei = "";
  tmsi = pos 0;
  guti = [];
  policy_association_id = "";
  tai = record { plmn_id = none; tac = "" };
  location_changed = false;
  release_cause = [];
  registration_area = [];
  subscription_data_valid = false;
  subscribed_nssai = [];
  allowed_nssai = [];
  rejected_nssai = [];
  ran_ue = [];
  authentication_ctx = none;
  ausf_id = "";
  ausf_uri = "";
  abba = [];
  kseaf = "";
  auth_failure_cause_synch_failure_times = 0;
  security_context_available = false;
  ue_security_capability = record {
    ia0 = 0;
    ia1_128 = 0;
    ia2_128 = 0;
    ia3_128 = 0;
    ea0 = 0;
    ea1_128 = 0;
    ea2_128 = 0;
    ea3_128 = 0;
  };
  ng_ksi = 0;
  ng_ksi_native = false;
  mac_failed = false;
  knas_int = [];
  knas_enc = [];
  nh = [];
  ncc = 0;
  ul_count = 0;
  dl_count = 0;
  event_channel = false;
  ciphering_alg = nea0;
  integrity_alg = nia0;
  t3550 = none;
  t3560 = none;
  t3522 = none;
  t3513 = none;
  t3565 = none;
  sm_context_list = [];
  am_policy_association = false;
  deregistration_target_access_type = nas_other 0;
}
