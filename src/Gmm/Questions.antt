-- ===== src/Gmm/Questions.antt =====
-- What the handlers of gmm/handler.go and the senders of gmm/message/send.go ask of other parts, and
-- what they are told: messages built and sent, and the services of other network functions.
use amf_cdac.Base.{ℕ, String, Bool, Option, List, Map}
use amf_cdac.Types.{Bytes, AccessType, RelAction}
use amf_cdac.Ue.{AuthenticationCtx, NasAccess}

-- The messages of gmm/message/build.go, by what the senders put into them.
pub data NasMessage : Type 0 where
  identity_request : ℕ → NasMessage
  authentication_request : NasMessage
  authentication_reject : String → NasMessage
  authentication_result : Bool → String → NasMessage
  security_mode_command : Bool → String → NasMessage
  registration_reject : ℕ → String → NasMessage
  service_reject : ℕ → NasMessage
  deregistration_request : NasAccess → Bool → ℕ → NasMessage
  deregistration_accept : NasMessage
  status_5gmm : ℕ → NasMessage
  dl_nas_transport : ℕ → Bytes → ℕ → Option ℕ → Option ℕ → ℕ → NasMessage
  service_accept : Option (List Bool) → Option (List Bool) → Bytes → Bytes → NasMessage
  configuration_update_command : AccessType → Option ℕ → NasMessage
  registration_accept :
      AccessType → Option (List Bool) → Option (List Bool) → Bytes → Bytes → NasMessage

-- The causes given with a context.RelAction, and the cause of an SM context's release.
pub data NasCause : Type 0 where
  normal_release deregister : NasCause

pub data ReleaseCause : Type 0 where
  pdu_session_status_mismatch : ReleaseCause

-- A response, problem details, or an error of the client.
pub data Answer (A : Type 0) : Type 0 where
  granted : A → Answer A
  problem failed : Answer A

-- models.AuthResult
pub data AuthResult : Type 0 where
  auth_success auth_failure auth_ongoing auth_unknown : AuthResult

-- The confirmation of 5G-AKA and of EAP: the result, Kseaf, the SUPI, and for EAP also the payload
-- and the links.
pub record Confirmation : Type 0 where
  pub auth_result : AuthResult
  pub kseaf : String
  pub supi : String
  pub eap_payload : String
  pub links : Map String String

pub data Question : Type 0 where
  -- a message for a UE is built, with its protection; a message is sent to a RanUe
  builds : ℕ → NasMessage → Question
  downlink_nas_transport : ℕ → NasMessage → Question
  -- the NAS message goes to the UE's RanUe of the access in an initial context setup request
  initial_context_setup_request : ℕ → AccessType → NasMessage → Question
  ue_context_release_command : Option ℕ → RelAction → NasCause → Question
  -- key derivation of context/amf_ue.go
  derives_kamf : ℕ → Question
  updates_security_context : ℕ → AccessType → Question
  -- the AUSFs that the NRF knows: their identifiers and the URIs of the registered service
  searches_ausf : Question
  authenticates : ℕ → Option Bytes → Question
  confirms_5g_aka : ℕ → Bytes → Question
  confirms_eap : ℕ → String → Question
  -- the old AMF is found, its UE context is transferred, and copied into the UE
  searches_amf : ℕ → Question
  transfers_ue_context : ℕ → AccessType → Question
  copies_ue_context : ℕ → Question
  releases_sm_context : ℕ → ℕ → Option ReleaseCause → Question
  deletes_am_policy : ℕ → Question

abbrev pub Reply : Question → Type 0
Reply (builds u m) = Bool
Reply (downlink_nas_transport p m) = Unit
Reply (initial_context_setup_request u a m) = Unit
Reply (ue_context_release_command p action cause) = Unit
Reply (derives_kamf u) = Unit
Reply (updates_security_context u a) = Unit
Reply searches_ausf = Option (List (String × String))
Reply (authenticates u auts) = Answer AuthenticationCtx
Reply (confirms_5g_aka u res_star) = Answer Confirmation
Reply (confirms_eap u message) = Answer Confirmation
Reply (searches_amf u) = Bool
Reply (transfers_ue_context u a) = Answer Unit
Reply (copies_ue_context u) = Unit
Reply (releases_sm_context u session cause) = Answer Unit
Reply (deletes_am_policy u) = Answer Unit
