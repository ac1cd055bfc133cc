-- ===== src/Gmm/Callbacks/Listed.antt =====
-- Which events the callbacks send, and which functions they call (gmm/init.go, gmm/sm.go).
pub mod Early
pub mod Late
pub mod Every
use amf_cdac.Base.{
  ℕ, ℤ, ◌≡◌, refl, ◌⊎◌, inl, inr, Bool, true, false, Option, none, some, arith, Option-cases,
  Bool-cases,
}
use amf_cdac.Types.{
  AccessType, access_3gpp, access_non_3gpp, access_empty, GmmState, deregistered,
  deregistration_initiated, authentication, security_mode, context_setup, registered,
}
use amf_cdac.Timer.{Stopped, stopped, stop, hangs as stop_hangs, panics as stop_panics}
use amf_cdac.Context.Registration.{clear_registration_request_data}
use amf_cdac.Gmm.Transitions.{target}
use amf_cdac.Gmm.Proc.{Sends}
use amf_cdac.Gmm.Callbacks.Early.{
  report, start, deregistered_message, on_deregistered, passed, restart, authentication_message,
  on_authentication, command, enter_security_mode, security_mode_message, on_security_mode,
}
use amf_cdac.Gmm.Callbacks.Late.{
  registered_message, on_registered, by_registration_type, enter_context_setup, failing,
  context_setup_message, on_context_setup, asserted, asserted_message, enter_deregistration,
  deregistration_message, on_deregistration_initiated,
}
use amf_cdac.Nas.Message.{
  MessageType, registration_request, registration_complete, deregistration_request_ue_originating,
  deregistration_accept_ue_terminated, service_request, identity_response, authentication_response,
  authentication_failure, security_mode_complete, security_mode_reject,
  configuration_update_complete, notification_response, ul_nas_transport, status_5gmm, GmmMessage,
}
use amf_cdac.Gmm.Transitions.{
  Event, gmm_message, start_auth, auth_success, auth_restart, auth_fail, auth_error,
  security_mode_success, security_mode_fail, security_skip, security_mode_abort,
  context_setup_success, context_setup_fail, init_deregistration, nw_initiated_deregistration,
  deregistration_accept, entry_event, exit_event,
}
use amf_cdac.Gmm.Proc.{
  NasArg, gmm_pointer, registration_pointer, service_pointer, Args, Proc, returns, panics, hangs,
  sends, bind, Call, handle_registration_request, handle_service_request, handle_ul_nas_transport,
  handle_configuration_update_complete, handle_notification_response, handle_status_5gmm,
  handle_identity_response, handle_authentication_response, handle_authentication_failure,
  handle_authentication_error, handle_security_mode_complete, handle_security_mode_reject,
  handle_initial_registration, handle_mobility_and_periodic_registration_updating,
  handle_registration_complete, handle_deregistration_request, handle_deregistration_accept,
  network_initiated_deregistration_procedure, store_context_in_db, derivate_alg_key,
  send_security_mode_command, Services,
}
use amf_cdac.Gmm.Callbacks.Sending.{
  Sends-bind, Sends-wider, with_ue-Sends, with_access-Sends, message_of-Sends, with_message-Sends,
  with_code-Sends, clearing-Sends, stop_t3560-Sends, stop_t3550-Sends, set_state-Sends,
  set_deregistered_state-Sends,
}
use amf_cdac.Gmm.Callbacks.{
  of_ue, message_of, done, tell, with_ue, with_access, with_message, with_code, put, clearing,
  stop_t3560, stop_t3550, set_state, set_deregistered_state, is_nia0, is_nea0,
}
use amf_cdac.Context.State.{World, update}
use amf_cdac.Ue.{AmfUe}

-- The map `callbacks`.
unfoldable pub callback : Services → GmmState → World → Args → Event → Proc Unit
callback sv deregistered = on_deregistered sv
callback sv authentication = on_authentication sv
callback sv security_mode = on_security_mode sv
callback sv context_setup = on_context_setup sv
callback sv registered = on_registered sv
callback sv deregistration_initiated = on_deregistration_initiated sv

-- The functions that may run in a state.
abbrev pub Allowed : GmmState → Call → Type 0
Allowed deregistered (handle_registration_request u a c m) = Unit
Allowed deregistered (handle_service_request u a m) = Unit
Allowed deregistered (network_initiated_deregistration_procedure u a) = Unit
Allowed authentication (handle_identity_response u m) = Unit
Allowed authentication (handle_authentication_response u a m) = Unit
Allowed authentication (handle_authentication_failure u a m) = Unit
Allowed authentication (handle_authentication_error u a) = Unit
Allowed authentication (handle_status_5gmm u a m) = Unit
Allowed authentication (network_initiated_deregistration_procedure u a) = Unit
Allowed security_mode (handle_security_mode_complete u a c m) = Unit
Allowed security_mode (handle_security_mode_reject u a m) = Unit
Allowed security_mode (handle_status_5gmm u a m) = Unit
Allowed security_mode (derivate_alg_key u) = Unit
Allowed security_mode (send_security_mode_command p b s) = Unit
Allowed security_mode (network_initiated_deregistration_procedure u a) = Unit
Allowed context_setup (handle_initial_registration u a) = Unit
Allowed context_setup (handle_mobility_and_periodic_registration_updating u a) = Unit
Allowed context_setup (handle_service_request u a m) = Unit
Allowed context_setup (handle_identity_response u m) = Unit
Allowed context_setup (handle_registration_complete u a m) = Unit
Allowed context_setup (handle_status_5gmm u a m) = Unit
Allowed context_setup (network_initiated_deregistration_procedure u a) = Unit
Allowed registered (handle_registration_request u a c m) = Unit
Allowed registered (handle_ul_nas_transport u a m) = Unit
Allowed registered (handle_configuration_update_complete u m) = Unit
Allowed registered (handle_service_request u a m) = Unit
Allowed registered (handle_notification_response u m) = Unit
Allowed registered (handle_status_5gmm u a m) = Unit
Allowed registered (store_context_in_db u) = Unit
Allowed registered (network_initiated_deregistration_procedure u a) = Unit
Allowed deregistration_initiated (handle_deregistration_request u a m) = Unit
Allowed deregistration_initiated (handle_deregistration_accept u a m) = Unit
Allowed _ _ = ⊥

-- The event has a transition from the state, or it is one of the others.
abbrev pub Listed : GmmState → (Event → Type 0) → Event → Type 0
Listed s Others e = ((t : GmmState) × (target s e ≡ some t)) ⊎ Others e

-- The functions that may run in the state send these events only, whatever the world.
abbrev pub Quiet : Services → (Event → Type 0) → GmmState → Type 0
Quiet sv Others s =
    ((c : Call) (w : World) → Allowed s c → Sends Others (sv.call c w))
    × ((u : ℕ) (a : AccessType) (w : World)
        → s ≡ authentication
        → Sends Others (sv.authentication_procedure u a w))

module _ (sv : Services) (Others : Event → Type 0) where
  pub call-Listed :
      (s : GmmState)
      → Quiet sv Others s
      → (c : Call) (w : World) (k : Bool → World → Proc Unit) → Allowed s c
      → ((failed : Bool) (w' : World) → Sends (Listed s Others) (k failed w'))
      → Sends (Listed s Others) (bind (sv.call c w) k)
  call-Listed s q c w k a g =
      Sends-bind (Listed s Others) (sv.call c w) k
        (Sends-wider Others (Listed s Others) (sv.call c w) (λ e h. inr h) (q.0 c w a)) g

  pub report-Listed :
      (s : GmmState)
      → Quiet sv Others s
      → (c : Call) (w : World) → Allowed s c
      → Sends (Listed s Others) (report sv c w)
  unfolding Sends
  report-Listed s q c w a = call-Listed s q c w (λ failed w'. returns tt w') a (λ failed w'. tt)

  pub start-Listed :
      (s : GmmState)
      → Quiet sv Others s
      → (w : World) (u : ℕ) (a : AccessType) (code : ℤ) (m : NasArg)
      → Allowed s (handle_registration_request u a code m)
      → target s start_auth ≡ some authentication
      → Sends (Listed s Others) (start sv w u a code m)
  unfolding start Sends
  start-Listed s q w u a code m ok listed =
      call-Listed s q (handle_registration_request u a code m) w _ ok (λ failed w'.
        elim (Bool-cases failed) [
          | inl e ↦ rw e tt
          | inr e ↦ rw e (inl (authentication, listed), λ f w2. tt)
        ])
