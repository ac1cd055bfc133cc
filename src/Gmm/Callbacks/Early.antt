-- ===== src/Gmm/Callbacks/Early.antt =====
-- The callbacks DeRegistered, Authentication and SecurityMode (gmm/sm.go).
use amf_cdac.Base.{ℕ, ℤ, String, Bool, false, ◌&&◌, none, some, if◌then◌else◌, load}
use amf_cdac.Types.{AccessType, access_type_eq}
use amf_cdac.Ue.Algorithms.{select_security_alg, security_context_is_valid}
use amf_cdac.Nas.Message.{
  MessageType, registration_request, service_request, identity_response, authentication_response,
  authentication_failure, security_mode_complete, security_mode_reject, status_5gmm,
}
use amf_cdac.Gmm.Transitions.{
  Event, gmm_message, start_auth, auth_success, auth_restart, auth_fail, auth_error,
  security_mode_success, security_mode_fail, security_skip, security_mode_abort,
  nw_initiated_deregistration, entry_event, exit_event,
}
use amf_cdac.Gmm.Proc.{
  NasArg, gmm_pointer, registration_pointer, Args, Proc, returns, panics, sends, bind, Call,
  handle_registration_request, handle_service_request, handle_status_5gmm, handle_identity_response,
  handle_authentication_response, handle_authentication_failure, handle_authentication_error,
  handle_security_mode_complete, handle_security_mode_reject,
  network_initiated_deregistration_procedure, derivate_alg_key, send_security_mode_command,
  Services,
}
use amf_cdac.Gmm.Callbacks.{
  of_ue, done, tell, with_ue, with_access, with_message, with_code, put, clearing, stop_t3560,
  is_nia0, is_nea0,
}
use amf_cdac.Context.State.{World}

module _ (sv : Services) where
  -- A call whose error is logged only.
  abbrev pub report : Call → World → Proc Unit
  report c w = bind (sv.call c w) (λ failed w'. returns tt w')

  -- A registration request that starts authentication, in Deregistered and in Registered.
  unfoldable pub start : World → ℕ → AccessType → ℤ → NasArg → Proc Unit
  start w u a code m = bind (sv.call (handle_registration_request u a code m) w) (λ failed w'.
      if failed
      then done w'
      else tell start_auth (record (of_ue u a) { procedure_code = some code }) w')

  unfoldable pub deregistered_message :
      MessageType → World → ℕ → AccessType → ℤ → NasArg → Proc Unit
  unfolding start
  deregistered_message registration_request w u a code m = start w u a code m
  deregistered_message service_request w u a code m = report (handle_service_request u a m) w
  deregistered_message _ w u a code m = done w

  -- DeRegistered(state, event, args)
  unfoldable pub on_deregistered : World → Args → Event → Proc Unit
  unfolding deregistered_message clearing
  on_deregistered w args entry_event = with_access args (λ u a. clearing w u a done)
  on_deregistered w args gmm_message =
      with_code args
        (λ u a code g. deregistered_message g.message_type w u a code (gmm_pointer (some g)))
  on_deregistered w args nw_initiated_deregistration =
      with_access args (λ u a. report (network_initiated_deregistration_procedure u a) w)
  on_deregistered w args _ = done w

  -- The end of AuthRestartEvent: an error sends its event, and then a pass sends its own.
  unfoldable pub passed : World → ℕ → AccessType → Bool → Proc Unit
  passed w u a pass = if pass then tell auth_success (of_ue u a) w else done w

  unfoldable pub restart : World → ℕ → AccessType → Proc Unit
  unfolding passed
  restart w u a = bind (sv.authentication_procedure u a w) (λ (r : Bool × Bool) w1.
      if r.1
      then sends auth_error (of_ue u a) w1 (λ failed w2. passed w2 u a r.0)
      else passed w1 u a r.0)

  unfoldable pub authentication_message : MessageType → World → ℕ → AccessType → NasArg → Proc Unit
  authentication_message identity_response w u a m =
      bind (sv.call (handle_identity_response u m) w)
        (λ failed w'. tell auth_restart (of_ue u a) w')
  authentication_message authentication_response w u a m =
      report (handle_authentication_response u a m) w
  authentication_message authentication_failure w u a m =
      report (handle_authentication_failure u a m) w
  authentication_message status_5gmm w u a m = report (handle_status_5gmm u a m) w
  authentication_message _ w u a m = tell auth_fail (of_ue u a) w

  -- Authentication(state, event, args)
  unfoldable pub on_authentication : World → Args → Event → Proc Unit
  unfolding restart authentication_message
  on_authentication w args entry_event = with_access args (restart w)
  on_authentication w args auth_restart = with_access args (restart w)
  on_authentication w args gmm_message =
      with_message args
        (λ u a g. authentication_message g.message_type w u a (gmm_pointer (some g)))
  on_authentication w args auth_error =
      with_access args (λ u a. report (handle_authentication_error u a) w)
  on_authentication w args nw_initiated_deregistration =
      with_access args (λ u a. report (network_initiated_deregistration_procedure u a) w)
  on_authentication w args exit_event = with_ue args (λ u. done (
      put w u (record (w.ues u) {
        authentication_ctx = none;
        auth_failure_cause_synch_failure_times = 0;
      })))
  on_authentication w args _ = done w

  -- The start of security mode for a UE without a valid security context: the algorithms are
  -- chosen, and if they are the null algorithms, security is skipped.
  unfoldable pub command : World → ℕ → AccessType → Bool → String → Proc Unit
  command w u a eap_success eap_message =
      let ue = select_security_alg (w.ues u) sv.integrity_order sv.ciphering_order in
      bind (sv.call (derivate_alg_key u) (put w u ue)) (λ failed w'.
        if is_nea0 (w'.ues u).ciphering_alg && is_nia0 (w'.ues u).integrity_alg
        then tell security_skip
            (record (of_ue u a) {
              nas_message = some (registration_pointer (w'.ues u).registration_request);
            })
            w'
        else report (send_security_mode_command (load (w'.ues u).ran_ue a) eap_success eap_message)
            w')

  unfoldable pub enter_security_mode : World → Args → ℕ → AccessType → Proc Unit
  unfolding command
  enter_security_mode w args u a =
      if security_context_is_valid sv.no_key_is_available (w.ues u)
      then tell security_mode_success
          (record (of_ue u a) {
            nas_message = some (registration_pointer (w.ues u).registration_request);
          })
          w
      else elim args.eap_success [
        | none ↦ panics
        | some success ↦ elim args.eap_message [
          | none ↦ panics
          | some message ↦ command w u a success message
        ]
      ]

  unfoldable pub security_mode_message :
      MessageType → World → ℕ → AccessType → ℤ → NasArg → Proc Unit
  security_mode_message security_mode_complete w u a code m =
      report (handle_security_mode_complete u a code m) w
  security_mode_message security_mode_reject w u a code m =
      bind (sv.call (handle_security_mode_reject u a m) w)
        (λ failed w'. tell security_mode_fail (of_ue u a) w')
  security_mode_message registration_request w u a code m =
      sends security_mode_abort (of_ue u a) w (λ failed w'.
        tell gmm_message (record (of_ue u a) { nas_message = some m; procedure_code = some code })
          w')
  security_mode_message status_5gmm w u a code m = report (handle_status_5gmm u a m) w
  security_mode_message _ w u a code m = tell security_mode_fail (of_ue u a) w

  -- SecurityMode(state, event, args)
  unfoldable pub on_security_mode : World → Args → Event → Proc Unit
  unfolding enter_security_mode security_mode_message stop_t3560
  on_security_mode w args entry_event = with_access args (enter_security_mode w args)
  on_security_mode w args gmm_message =
      with_code args
        (λ u a code g. security_mode_message g.message_type w u a code (gmm_pointer (some g)))
  on_security_mode w args security_mode_abort =
      with_ue args
        (λ u. stop_t3560 (put w u (record (w.ues u) { security_context_available = false })) u done)
  on_security_mode w args nw_initiated_deregistration =
      with_access args
        (λ u a. stop_t3560 w u (report (network_initiated_deregistration_procedure u a)))
  on_security_mode w args _ = done w
