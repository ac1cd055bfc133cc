-- ===== src/Gmm/Callbacks/Listed/Early.antt =====
-- The events sent in Deregistered, Authentication and SecurityMode (gmm/sm.go).
use amf_cdac.Base.{
  ℕ, ℤ, refl, String, load, ◌&&◌, inl, inr, Bool, true, false, some, Option-cases, Bool-cases,
}
use amf_cdac.Ue.Algorithms.{security_context_is_valid}
use amf_cdac.Types.{
  access_type_eq, AccessType, deregistered, authentication, security_mode, context_setup,
}
use amf_cdac.Gmm.Transitions.{target}
use amf_cdac.Gmm.Proc.{Sends}
use amf_cdac.Gmm.Callbacks.Early.{
  deregistered_message, on_deregistered, passed, restart, authentication_message, on_authentication,
  command, enter_security_mode, security_mode_message, on_security_mode,
}
use amf_cdac.Nas.Message.{
  MessageType, registration_request, service_request, identity_response, authentication_response,
  authentication_failure, security_mode_complete, security_mode_reject, status_5gmm,
}
use amf_cdac.Gmm.Transitions.{
  Event, gmm_message, auth_restart, auth_error, security_mode_abort, nw_initiated_deregistration,
  entry_event, exit_event,
}
use amf_cdac.Gmm.Proc.{
  NasArg, gmm_pointer, Args, handle_service_request, handle_status_5gmm, handle_identity_response,
  handle_authentication_response, handle_authentication_failure, handle_authentication_error,
  handle_security_mode_complete, handle_security_mode_reject,
  network_initiated_deregistration_procedure, derivate_alg_key, send_security_mode_command,
  Services,
}
use amf_cdac.Gmm.Callbacks.Listed.{Listed, Quiet, call-Listed, report-Listed, start-Listed}
use amf_cdac.Gmm.Callbacks.Sending.{
  Sends-bind, Sends-wider, with_ue-Sends, with_access-Sends, with_message-Sends, with_code-Sends,
  clearing-Sends, stop_t3560-Sends,
}
use amf_cdac.Gmm.Callbacks.{done, put, is_nia0, is_nea0}
use amf_cdac.Context.State.{World}

module _ (sv : Services) (Others : Event → Type 0) where
  pub deregistered-Listed :
      (w : World) (args : Args) (e : Event)
      → Quiet sv Others deregistered
      → Sends (Listed deregistered Others) (on_deregistered sv w args e)
  unfolding on_deregistered deregistered_message Sends target
  deregistered-Listed w args entry_event q =
      with_access-Sends (Listed deregistered Others) args _
        (λ u a. clearing-Sends (Listed deregistered Others) w u a done (λ w'. tt))
  deregistered-Listed w args gmm_message q =
      with_code-Sends (Listed deregistered Others) args _
        (λ u a c g. message g.message_type u a c (gmm_pointer (some g)))
    where
      message :
          (t : MessageType) (u : ℕ) (a : AccessType) (c : ℤ) (m : NasArg)
          → Sends (Listed deregistered Others) (deregistered_message sv t w u a c m)
      message registration_request u a c m = start-Listed sv Others deregistered q w u a c m tt refl
      message service_request u a c m =
          report-Listed sv Others deregistered q (handle_service_request u a m) w tt
      message _ u a c m = tt
  deregistered-Listed w args nw_initiated_deregistration q =
      with_access-Sends (Listed deregistered Others) args _ (λ u a.
        report-Listed sv Others deregistered q (network_initiated_deregistration_procedure u a) w
          tt)
  deregistered-Listed w args _ q = tt

  passed-Listed :
      (w : World) (u : ℕ) (a : AccessType) (b : Bool)
      → Sends (Listed authentication Others) (passed sv w u a b)
  unfolding passed Sends target
  passed-Listed w u a true = (inl (security_mode, refl), λ f w'. tt)
  passed-Listed w u a false = tt

  restart-Listed :
      (w : World) (u : ℕ) (a : AccessType)
      → Quiet sv Others authentication
      → Sends (Listed authentication Others) (restart sv w u a)
  unfolding restart Sends target
  restart-Listed w u a q =
      Sends-bind (Listed authentication Others) (sv.authentication_procedure u a w) _
        (Sends-wider Others (Listed authentication Others) (sv.authentication_procedure u a w)
          (λ e h. inr h) (q.1 u a w refl))
        (λ r w1. elim (Bool-cases r.1) [
          | inl e ↦ rw e (inl (deregistered, refl), λ f w2. passed-Listed w2 u a r.0)
          | inr e ↦ rw e (passed-Listed w1 u a r.0)
        ])

  message-Listed :
      (t : MessageType) (w : World) (u : ℕ) (a : AccessType) (m : NasArg)
      → Quiet sv Others authentication
      → Sends (Listed authentication Others) (authentication_message sv t w u a m)
  unfolding authentication_message Sends target
  message-Listed identity_response w u a m q =
      call-Listed sv Others authentication q (handle_identity_response u m) w _ tt
        (λ f w'. (inl (authentication, refl), λ g w2. tt))
  message-Listed authentication_response w u a m q =
      report-Listed sv Others authentication q (handle_authentication_response u a m) w tt
  message-Listed authentication_failure w u a m q =
      report-Listed sv Others authentication q (handle_authentication_failure u a m) w tt
  message-Listed status_5gmm w u a m q =
      report-Listed sv Others authentication q (handle_status_5gmm u a m) w tt
  message-Listed _ w u a m q = (inl (deregistered, refl), λ g w2. tt)

  pub authentication-Listed :
      (w : World) (args : Args) (e : Event)
      → Quiet sv Others authentication
      → Sends (Listed authentication Others) (on_authentication sv w args e)
  unfolding on_authentication Sends
  authentication-Listed w args entry_event q =
      with_access-Sends (Listed authentication Others) args _ (λ u a. restart-Listed w u a q)
  authentication-Listed w args auth_restart q =
      with_access-Sends (Listed authentication Others) args _ (λ u a. restart-Listed w u a q)
  authentication-Listed w args gmm_message q =
      with_message-Sends (Listed authentication Others) args _
        (λ u a g. message-Listed g.message_type w u a (gmm_pointer (some g)) q)
  authentication-Listed w args auth_error q =
      with_access-Sends (Listed authentication Others) args _
        (λ u a. report-Listed sv Others authentication q (handle_authentication_error u a) w tt)
  authentication-Listed w args nw_initiated_deregistration q =
      with_access-Sends (Listed authentication Others) args _ (λ u a.
        report-Listed sv Others authentication q (network_initiated_deregistration_procedure u a) w
          tt)
  authentication-Listed w args exit_event q =
      with_ue-Sends (Listed authentication Others) args _ (λ u. tt)
  authentication-Listed w args _ q = tt

  command-Listed :
      (w : World) (u : ℕ) (a : AccessType) (success : Bool) (text : String)
      → Quiet sv Others security_mode
      → Sends (Listed security_mode Others) (command sv w u a success text)
  unfolding command Sends target
  command-Listed w u a success text q =
      call-Listed sv Others security_mode q (derivate_alg_key u) _ _ tt (λ f w'.
        elim (Bool-cases (is_nea0 (w'.ues u).ciphering_alg && is_nia0 (w'.ues u).integrity_alg)) [
          | inl e ↦ rw e (inl (context_setup, refl), λ g w2. tt)
          | inr e ↦ rw e (
              report-Listed sv Others security_mode q
                (send_security_mode_command (load (w'.ues u).ran_ue a) success text) w' tt)
        ])

  enter-Listed :
      (w : World) (args : Args) (u : ℕ) (a : AccessType)
      → Quiet sv Others security_mode
      → Sends (Listed security_mode Others) (enter_security_mode sv w args u a)
  unfolding enter_security_mode Sends target
  enter-Listed w args u a q =
      elim (Bool-cases (security_context_is_valid sv.no_key_is_available (w.ues u))) [
        | inl e ↦ rw e (inl (context_setup, refl), λ g w2. tt)
        | inr e ↦ elim (Option-cases args.eap_success) [
          | inl f ↦ rw (e, f) tt
          | inr (x, f) ↦ elim (Option-cases args.eap_message) [
            | inl g ↦ rw (e, f, g) tt
            | inr (y, g) ↦ rw (e, f, g) (command-Listed w u a x y q)
          ]
        ]
      ]

  mode_message-Listed :
      (t : MessageType) (w : World) (u : ℕ) (a : AccessType) (c : ℤ) (m : NasArg)
      → Quiet sv Others security_mode
      → Sends (Listed security_mode Others) (security_mode_message sv t w u a c m)
  unfolding security_mode_message Sends target
  mode_message-Listed security_mode_complete w u a c m q =
      report-Listed sv Others security_mode q (handle_security_mode_complete u a c m) w tt
  mode_message-Listed security_mode_reject w u a c m q =
      call-Listed sv Others security_mode q (handle_security_mode_reject u a m) w _ tt
        (λ f w'. (inl (deregistered, refl), λ g w2. tt))
  mode_message-Listed registration_request w u a c m q =
      (inl (deregistered, refl), λ f w'. (inl (security_mode, refl), λ g w2. tt))
  mode_message-Listed status_5gmm w u a c m q =
      report-Listed sv Others security_mode q (handle_status_5gmm u a m) w tt
  mode_message-Listed _ w u a c m q = (inl (deregistered, refl), λ g w2. tt)

  pub security_mode-Listed :
      (w : World) (args : Args) (e : Event)
      → Quiet sv Others security_mode
      → Sends (Listed security_mode Others) (on_security_mode sv w args e)
  unfolding on_security_mode Sends
  security_mode-Listed w args entry_event q =
      with_access-Sends (Listed security_mode Others) args _ (λ u a. enter-Listed w args u a q)
  security_mode-Listed w args gmm_message q =
      with_code-Sends (Listed security_mode Others) args _
        (λ u a c g. mode_message-Listed g.message_type w u a c (gmm_pointer (some g)) q)
  security_mode-Listed w args security_mode_abort q =
      with_ue-Sends (Listed security_mode Others) args _ (λ u.
        stop_t3560-Sends (Listed security_mode Others)
          (put w u (record (w.ues u) { security_context_available = false })) u done (λ w'. tt))
  security_mode-Listed w args nw_initiated_deregistration q =
      with_access-Sends (Listed security_mode Others) args _ (λ u a.
        stop_t3560-Sends (Listed security_mode Others) w u _ (λ w'.
          report-Listed sv Others security_mode q (network_initiated_deregistration_procedure u a)
            w' tt))
  security_mode-Listed w args _ q = tt
