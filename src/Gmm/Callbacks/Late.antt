-- ===== src/Gmm/Callbacks/Late.antt =====
-- The callbacks Registered, ContextSetup and DeregisteredInitiated (gmm/sm.go).
use amf_cdac.Base.{ℕ, ℤ, Bool, Option, none, some, if◌then◌else◌, nat_beq, ◌||◌}
use amf_cdac.Types.{AccessType, registered}
use amf_cdac.Gmm.Callbacks.Early.{report, start}
use amf_cdac.Nas.Message.{
  MessageType, registration_request, registration_complete, deregistration_request_ue_originating,
  deregistration_accept_ue_terminated, service_request, identity_response,
  configuration_update_complete, notification_response, ul_nas_transport, status_5gmm, GmmMessage,
}
use amf_cdac.Gmm.Transitions.{
  Event, gmm_message, context_setup_fail, init_deregistration, nw_initiated_deregistration,
  deregistration_accept, entry_event,
}
use amf_cdac.Gmm.Proc.{
  NasArg, gmm_pointer, registration_pointer, service_pointer, Args, Proc, panics, bind,
  handle_service_request, handle_ul_nas_transport, handle_configuration_update_complete,
  handle_notification_response, handle_status_5gmm, handle_identity_response,
  handle_initial_registration, handle_mobility_and_periodic_registration_updating,
  handle_registration_complete, handle_deregistration_request, handle_deregistration_accept,
  network_initiated_deregistration_procedure, store_context_in_db, Services,
}
use amf_cdac.Gmm.Callbacks.{
  of_ue, done, tell, with_ue, with_access, with_message, with_code, put, clearing, stop_t3550,
  set_state, set_deregistered_state,
}
use amf_cdac.Context.State.{World}

module _ (sv : Services) where
  unfoldable pub registered_message : MessageType → World → ℕ → AccessType → ℤ → NasArg → Proc Unit
  registered_message registration_request w u a code m = start sv w u a code m
  registered_message ul_nas_transport w u a code m = report sv (handle_ul_nas_transport u a m) w
  registered_message configuration_update_complete w u a code m =
      report sv (handle_configuration_update_complete u m) w
  registered_message service_request w u a code m = report sv (handle_service_request u a m) w
  registered_message notification_response w u a code m =
      report sv (handle_notification_response u m) w
  registered_message deregistration_request_ue_originating w u a code m =
      tell init_deregistration (record (of_ue u a) { nas_message = some m }) w
  registered_message status_5gmm w u a code m = report sv (handle_status_5gmm u a m) w
  registered_message _ w u a code m = done w

  -- Registered(state, event, args)
  unfoldable pub on_registered : World → Args → Event → Proc Unit
  unfolding registered_message
  on_registered w args entry_event =
      with_access args (λ u a. clearing w u a (report sv (store_context_in_db u)))
  on_registered w args gmm_message =
      with_code args
        (λ u a code g. registered_message g.message_type w u a code (gmm_pointer (some g)))
  on_registered w args nw_initiated_deregistration =
      with_access args (λ u a. report sv (network_initiated_deregistration_procedure u a) w)
  on_registered w args _ = done w

  abbrev pub updating : ℕ → Bool
  updating t =
      nat_beq t sv.mobility_registration_updating || nat_beq t sv.periodic_registration_updating

  -- The switch on the registration type, with what follows its error.
  unfoldable pub by_registration_type :
      World → ℕ → AccessType → (Bool → World → Proc Unit) → Proc Unit
  by_registration_type w u a k =
      let t = (w.ues u).registration_type_5gs in
      if nat_beq t sv.initial_registration
      then bind (sv.call (handle_initial_registration u a) w) k
      else if updating t
      then bind (sv.call (handle_mobility_and_periodic_registration_updating u a) w) k
      else done w

  unfoldable pub enter_context_setup : Option NasArg → World → ℕ → AccessType → Proc Unit
  unfolding by_registration_type
  enter_context_setup (some (registration_pointer p)) w u a =
      by_registration_type (put w u (record (w.ues u) { registration_request = p })) u a
        (λ failed w'. done w')
  enter_context_setup (some (service_pointer p)) w u a =
      report sv (handle_service_request u a (service_pointer p)) w
  enter_context_setup _ w u a = done w

  -- A failed registration ends context setup.
  unfoldable pub failing : ℕ → AccessType → Bool → World → Proc Unit
  failing u a failed w = if failed then tell context_setup_fail (of_ue u a) w else done w

  unfoldable pub context_setup_message : MessageType → World → ℕ → AccessType → NasArg → Proc Unit
  unfolding by_registration_type failing
  context_setup_message identity_response w u a m =
      bind (sv.call (handle_identity_response u m) w)
        (λ failed w'. by_registration_type w' u a (failing u a))
  context_setup_message registration_complete w u a m =
      report sv (handle_registration_complete u a m) w
  context_setup_message status_5gmm w u a m = report sv (handle_status_5gmm u a m) w
  context_setup_message registration_request w u a m = tell context_setup_fail (of_ue u a) w
  context_setup_message _ w u a m = done w

  -- ContextSetup checks its assertions: without the arguments it returns. `asserted` is the check
  -- of the UE and the access type.
  abbrev pub asserted : World → Args → (ℕ → AccessType → Proc Unit) → Proc Unit
  asserted w args k = elim args.amf_ue [
    | none ↦ done w
    | some u ↦ elim args.access_type [ none ↦ done w | some a ↦ k u a ]
  ]

  abbrev pub asserted_message : World → Option NasArg → (GmmMessage → Proc Unit) → Proc Unit
  asserted_message w (some (gmm_pointer (some g))) k = k g
  asserted_message w (some (gmm_pointer none)) k = panics
  asserted_message w _ k = done w

  -- ContextSetup(state, event, args)
  unfoldable pub on_context_setup : World → Args → Event → Proc Unit
  unfolding enter_context_setup context_setup_message
  on_context_setup w args entry_event = asserted w args (enter_context_setup args.nas_message w)
  on_context_setup w args gmm_message = asserted w args (λ u a.
      asserted_message w args.nas_message
        (λ g. context_setup_message g.message_type w u a (gmm_pointer (some g))))
  on_context_setup w args nw_initiated_deregistration = asserted w args (λ u a.
      stop_t3550 w u (λ w1.
        set_state w1 u a registered (report sv (network_initiated_deregistration_procedure u a))))
  on_context_setup w args _ = done w

  unfoldable pub enter_deregistration : Option NasArg → World → Args → Proc Unit
  enter_deregistration (some (gmm_pointer (some g))) w args =
      with_access args
        (λ u a. report sv (handle_deregistration_request u a (gmm_pointer (some g))) w)
  enter_deregistration (some (gmm_pointer none)) w args = with_ue args (λ u. done w)
  enter_deregistration none w args = with_ue args (λ u. done w)
  enter_deregistration _ w args = panics

  unfoldable pub deregistration_message : MessageType → World → ℕ → AccessType → NasArg → Proc Unit
  deregistration_message deregistration_accept_ue_terminated w u a m =
      report sv (handle_deregistration_accept u a m) w
  deregistration_message _ w u a m = tell deregistration_accept (of_ue u a) w

  -- DeregisteredInitiated(state, event, args)
  unfoldable pub on_deregistration_initiated : World → Args → Event → Proc Unit
  unfolding enter_deregistration deregistration_message
  on_deregistration_initiated w args entry_event = enter_deregistration args.nas_message w args
  on_deregistration_initiated w args gmm_message =
      with_message args
        (λ u a g. deregistration_message g.message_type w u a (gmm_pointer (some g)))
  on_deregistration_initiated w args deregistration_accept =
      with_access args (set_deregistered_state w)
  on_deregistration_initiated w args _ = done w
