-- ===== src/Ngap.antt =====
-- The messages of NGAP (package ngap): what comes from a station, and what the handlers send and
-- call. A message comes decoded, as ngap-cdac decodes it.
pub mod Reading
pub mod Finding
pub mod Releasing
pub mod Completing
pub mod Resetting
pub mod Calling
pub mod Lookups
pub mod Called
pub mod Uplink
pub mod Handing
pub mod Admitting
pub mod Fetching
pub mod Dispatching
pub mod Closing
pub mod Forgetting
pub mod Untouched
pub mod Doomed
pub mod Alike
pub mod Linking
pub mod Moving
pub mod Procedures
pub mod Gone
pub mod Released
pub mod Straying
pub mod Deactivating
pub mod Answering
pub mod Examples
pub use amf_cdac.Types.{
  Cause, received, unknown_local_ue_ngap_id, ngran_generated_reason, ho_failure_in_target,
  successful_handover, unspecified,
}
use amf_cdac.Base.{
  ℕ, ℤ, String, Bool, true, false, Option, none, some, List, [], ◌∷◌, ◌++◌, if◌then◌else◌,
}
use amf_cdac.Types.{Bytes, Tai, RelAction, AccessType}
use amf_cdac.Ue.{AmfUe}
use amf_cdac.Context.State.{World}
use amf_cdac.Context.Ids.{Generators}
use amf_cdac.Context.Ues.{Database}
use amf_cdac.Nas.Message.{GmmMessage, Library}
use amf_cdac.Nas.Identity.{Identities}

-- An UEAssociatedLogicalNGConnectionItem: both identifiers are optional.
pub record Connection : Type 0 where
  pub amf_id : Option ℕ
  pub ran_id : Option ℕ

-- ngapType.ResetType
pub data ResetType : Type 0 where
  ng_interface : ResetType
  part_of_ng_interface : Option (List Connection) → ResetType
  other_reset : ResetType

-- ngapType.UserLocationInformation: the tracking area of the cell, with its code in hexadecimal; one
-- of a N3IWF has none.
pub data UserLocation : Type 0 where
  eutra nr : Tai → UserLocation
  n3iwf no_location : UserLocation

-- ngapType.FiveGSTMSI
pub record FiveGstmsi : Type 0 where
  pub amf_set_id : ℕ
  pub amf_pointer : ℕ
  pub tmsi : Bytes

-- The protocol IEs that the handlers read, each by the pointer in its value; any other one.
pub data Ie : Type 0 where
  amf_ue_ngap_id ran_ue_ngap_id source_amf_ue_ngap_id : Option ℕ → Ie
  five_g_s_tmsi : Option FiveGstmsi → Ie
  cause : Option Cause → Ie
  reset_type : Option ResetType → Ie
  user_location : Option UserLocation → Ie
  nas_pdu : Option Bytes → Ie
  pdu_sessions : Option (List ℕ) → Ie
  admitted_sessions failed_sessions : Option (List ℕ) → Ie
  target_to_source : Option Bytes → Ie
  other_ie : Ie

-- The procedures of the three choices of a PDU.
pub data Initiating : Type 0 where
  ng_setup initial_ue_message uplink_nas_transport ng_reset handover_cancel : Initiating
  ue_context_release_request nas_non_delivery_indication : Initiating
  location_reporting_failure_indication error_indication : Initiating
  ue_radio_capability_info_indication handover_notification handover_preparation : Initiating
  ran_configuration_update rrc_inactive_transition_report pdu_session_resource_notify : Initiating
  path_switch_request location_report uplink_ue_associated_nrppa_transport : Initiating
  uplink_ran_configuration_transfer pdu_session_resource_modify_indication : Initiating
  cell_traffic_trace uplink_ran_status_transfer : Initiating
  uplink_non_ue_associated_nrppa_transport other_initiating : Initiating

pub data Successful : Type 0 where
  reset_acknowledged ue_context_released pdu_session_resource_released : Successful
  ue_radio_capability_checked amf_configuration_updated initial_context_set_up : Successful
  ue_context_modified pdu_session_resource_set_up pdu_session_resource_modified : Successful
  handover_resource_allocated other_successful : Successful

pub data Unsuccessful : Type 0 where
  amf_configuration_update_failed initial_context_setup_failed : Unsuccessful
  ue_context_modification_failed handover_resource_allocation_failed : Unsuccessful
  other_unsuccessful : Unsuccessful

-- A message of a procedure; a nil body is `none`.
pub record Message (P : Type 0) : Type 0 where
  pub procedure : P
  pub ies : Option (List Ie)

-- ngapType.NGAPPDU: the choice that is present, whose pointer may be nil.
pub data Pdu : Type 0 where
  initiating_message : Option (Message Initiating) → Pdu
  successful_outcome : Option (Message Successful) → Pdu
  unsuccessful_outcome : Option (Message Unsuccessful) → Pdu
  other_choice : Pdu

-- What leaves a handler, by the address of the station, the RanUe or the UE: a NGAP message, a call
-- to the SMF by package consumer for a session, the NAS message that HandleNAS puts in a UE's event
-- channel, the notice of a UE's context, and the context in the database.
pub data Effect : Type 0 where
  error_indication : ℕ → Cause → Effect
  missing_ie_indication : ℕ → Effect
  ng_reset_acknowledge : ℕ → Option (List Connection) → Effect
  ue_context_release_command : ℕ → RelAction → Cause → Effect
  handover_preparation_failure : ℕ → Cause → Effect
  handover_command : ℕ → List ℕ → List ℕ → Bytes → Effect
  handover_cancel_acknowledge : ℕ → Effect
  queues_nas : ℕ → AccessType → Bytes → ℤ → Effect
  deactivates releases prepares_handover completes_handover cancels_handover : ℕ → ℕ → Effect
  publishes_ue_context stores_context deletes_context : ℕ → Effect
  -- a message of a station is queued for a UE, or its sender is redirected to another AMF
  submits : ℕ → ℕ → Pdu → Effect
  redirects : ℕ → Effect
  -- a handler of package ngap that is not in this model
  handles_initiating : Initiating → ℕ → Effect
  handles_successful : Successful → ℕ → Effect
  handles_unsuccessful : Unsuccessful → ℕ → Effect

-- The SMF's answer to a handover that is prepared: data for the handover command, data for a release,
-- both or neither.
pub record Prepared : Type 0 where
  pub hands_over : Bool
  pub is_released : Bool

-- What the code takes from elsewhere: the database, the identifier generators, the encoder of
-- ngap-cdac (whether a message can be encoded), its AMF identifier of a 5G-S-TMSI in a region,
-- the configuration, the SMF's answers, and the first supported tracking area as UpdateLocation
-- formats it.
pub record Peers : Type 0 where
  pub fetch_by_ran_ue_ngap_id : World → ℕ → ℕ → Option ℕ × World
  pub fetch_by_amf_ue_ngap_id : World → ℕ → Option ℕ × World
  pub database : Database
  pub generators : Generators
  pub encodes : Effect → Bool
  pub amf_id_of : Bytes → FiveGstmsi → Bytes
  pub is_configured : Bool
  pub prepares : ℕ → ℕ → World → Prepared
  pub hex_tac : String → String
  -- what HandleNAS calls: nas-cdac, drsm on whether a UE belongs to another instance, and what the
  -- state machine of GMM leaves of the world when it takes a GmmMessageEvent, or that it panics
  pub nas : Library
  pub identities : Identities
  pub elsewhere : AmfUe → Bool
  pub machine : World → ℕ → AccessType → GmmMessage → ℤ → Option World
  -- drsm: whether this instance owns an identifier, if the owner is known
  pub owns : ℕ → Option Bool

-- The world, and what has left the handler so far, the oldest first.
pub record Turn : Type 0 where
  pub world : World
  pub effects : List Effect

abbrev pub start : World → Turn
start w = record { world = w; effects = [] }

abbrev pub emit : Turn → Effect → Turn
emit t e = record t { effects = t.effects ++ e ∷ [] }

abbrev pub in_world : Turn → World → Turn
in_world t w = record t { world = w }

-- A message goes out if it can be encoded.
abbrev pub send : Peers → Turn → Effect → Turn
send peers t e = if peers.encodes e then emit t e else t

-- A step that may dereference a nil pointer, which is `none`.
infixl 5 ◌>>=◌
abbrev pub ◌>>=◌ : {A B : Type 0} → Option A → (A → Option B) → Option B
none >>= f = none
some a >>= f = f a
