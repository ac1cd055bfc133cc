-- ===== src/Gmm/Proc.antt =====
-- What a callback of the state machine does (gmm/sm.go), as a tree of the events it sends, and what
-- it calls: the functions of gmm/handler.go, gmm/message and context that are not in this model.
use amf_cdac.Base.{ℕ, ℤ, String, Bool, Option, List}
use amf_cdac.Types.{AccessType, IntegrityAlg, CipheringAlg}
use amf_cdac.Nas.Message.{GmmMessage}
use amf_cdac.Context.State.{World}
use amf_cdac.Gmm.Transitions.{Event}
use amf_cdac.Gmm.Questions.{Question, Reply}

-- args[ArgNASMessage]: a pointer to a GmmMessage, a RegistrationRequest or a ServiceRequest.
pub data NasArg : Type 0 where
  gmm_pointer : Option GmmMessage → NasArg
  registration_pointer : Option ℕ → NasArg
  service_pointer : ℕ → NasArg

-- fsm.ArgsType: `none` is a key that is not there.
pub record Args : Type 0 where
  pub amf_ue : Option ℕ
  pub access_type : Option AccessType
  pub procedure_code : Option ℤ
  pub nas_message : Option NasArg
  pub eap_success : Option Bool
  pub eap_message : Option String

-- A result and the world, a nil pointer or a failed assertion, a send on a full channel, an event
-- that is sent in a world, or a question to another part in a world, and how the code goes on when
-- it knows whether the event was an error, or the reply. `sends` is to the state of the access type
-- in the arguments, `sends_to` to that of another one.
pub data Proc (A : Type 0) : Type 0 where
  returns : A → World → Proc A
  panics hangs : Proc A
  sends : Event → Args → World → (Bool → World → Proc A) → Proc A
  sends_to : AccessType → Event → Args → World → (Bool → World → Proc A) → Proc A
  asks : (q : Question) → World → (Reply q → World → Proc A) → Proc A

unfoldable pub bind : {A B : Type 0} → Proc A → (A → World → Proc B) → Proc B
bind (returns a w) k = k a w
bind panics k = panics
bind hangs k = hangs
bind (sends e args w next) k = sends e args w (λ failed w'. bind (next failed w') k)
bind (sends_to s e args w next) k = sends_to s e args w (λ failed w'. bind (next failed w') k)
bind (asks q w next) k = asks q w (λ r w'. bind (next r w') k)

-- The calls, named for the functions called.
pub data Call : Type 0 where
  handle_registration_request : ℕ → AccessType → ℤ → NasArg → Call
  handle_service_request : ℕ → AccessType → NasArg → Call
  handle_ul_nas_transport : ℕ → AccessType → NasArg → Call
  handle_configuration_update_complete : ℕ → NasArg → Call
  handle_notification_response : ℕ → NasArg → Call
  handle_status_5gmm : ℕ → AccessType → NasArg → Call
  handle_identity_response : ℕ → NasArg → Call
  handle_authentication_response : ℕ → AccessType → NasArg → Call
  handle_authentication_failure : ℕ → AccessType → NasArg → Call
  handle_authentication_error : ℕ → AccessType → Call
  handle_security_mode_complete : ℕ → AccessType → ℤ → NasArg → Call
  handle_security_mode_reject : ℕ → AccessType → NasArg → Call
  handle_initial_registration : ℕ → AccessType → Call
  handle_mobility_and_periodic_registration_updating : ℕ → AccessType → Call
  handle_registration_complete : ℕ → AccessType → NasArg → Call
  handle_deregistration_request : ℕ → AccessType → NasArg → Call
  handle_deregistration_accept : ℕ → AccessType → NasArg → Call
  network_initiated_deregistration_procedure : ℕ → AccessType → Call
  store_context_in_db : ℕ → Call
  derivate_alg_key : ℕ → Call
  send_security_mode_command : Option ℕ → Bool → String → Call

-- What a callback needs from elsewhere: each call's error (for one without an error, false), the
-- pass and the error of AuthenticationProcedure, constants of nas-cdac, and the configured orders.
pub record Services : Type 1 where
  pub call : Call → World → Proc Bool
  pub authentication_procedure : ℕ → AccessType → World → Proc (Bool × Bool)
  pub no_key_is_available : ℕ
  pub initial_registration : ℕ
  pub mobility_registration_updating : ℕ
  pub periodic_registration_updating : ℕ
  pub integrity_order : List IntegrityAlg
  pub ciphering_order : List CipheringAlg

-- Every event that the tree sends, whatever the answers, has the property.
unfoldable pub Sends : (Event → Type 0) → {A : Type 0} → Proc A → Type 0
Sends P (returns a w) = Unit
Sends P panics = Unit
Sends P hangs = Unit
Sends P (sends e args w next) = P e × ((failed : Bool) (w' : World) → Sends P (next failed w'))
Sends P (sends_to s e args w next) = P e × ((failed : Bool) (w' : World) → Sends P (next failed w'))
Sends P (asks q w next) = (r : Reply q) (w' : World) → Sends P (next r w')
