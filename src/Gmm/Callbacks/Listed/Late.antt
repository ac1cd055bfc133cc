-- ===== src/Gmm/Callbacks/Listed/Late.antt =====
-- The events sent in ContextSetup, Registered and DeregistrationInitiated (gmm/sm.go).
use amf_cdac.Base.{
  ℕ, ℤ, refl, nat_beq, inl, inr, Bool, true, false, Option, none, some, Option-cases, Bool-cases,
}
use amf_cdac.Types.{
  access_type_eq, AccessType, deregistered, deregistration_initiated, context_setup, registered,
}
use amf_cdac.Gmm.Transitions.{target}
use amf_cdac.Gmm.Proc.{Sends}
use amf_cdac.Gmm.Callbacks.Late.{
  registered_message, on_registered, by_registration_type, updating, enter_context_setup, failing,
  context_setup_message, on_context_setup, asserted, asserted_message, enter_deregistration,
  deregistration_message, on_deregistration_initiated,
}
use amf_cdac.Nas.Message.{
  MessageType, registration_request, registration_complete, deregistration_request_ue_originating,
  deregistration_accept_ue_terminated, service_request, identity_response,
  configuration_update_complete, notification_response, ul_nas_transport, status_5gmm, GmmMessage,
}
use amf_cdac.Gmm.Transitions.{
  Event, gmm_message, nw_initiated_deregistration, deregistration_accept, entry_event,
}
use amf_cdac.Gmm.Proc.{
  NasArg, gmm_pointer, registration_pointer, service_pointer, Args, Proc, handle_service_request,
  handle_ul_nas_transport, handle_configuration_update_complete, handle_notification_response,
  handle_status_5gmm, handle_identity_response, handle_initial_registration,
  handle_mobility_and_periodic_registration_updating, handle_registration_complete,
  handle_deregistration_request, handle_deregistration_accept,
  network_initiated_deregistration_procedure, store_context_in_db, Services,
}
use amf_cdac.Gmm.Callbacks.Listed.{Listed, Quiet, call-Listed, report-Listed, start-Listed}
use amf_cdac.Gmm.Callbacks.Sending.{
  with_ue-Sends, with_access-Sends, with_message-Sends, with_code-Sends, clearing-Sends,
  stop_t3550-Sends, set_state-Sends, set_deregistered_state-Sends,
}
use amf_cdac.Gmm.Callbacks.{done, put}
use amf_cdac.Context.State.{World}

module _ (sv : Services) (Others : Event → Type 0) where
  message-Listed :
      (t : MessageType) (w : World) (u : ℕ) (a : AccessType) (c : ℤ) (m : NasArg)
      → Quiet sv Others registered
      → Sends (Listed registered Others) (registered_message sv t w u a c m)
  unfolding registered_message Sends target
  message-Listed registration_request w u a c m q =
      start-Listed sv Others registered q w u a c m tt refl
  message-Listed ul_nas_transport w u a c m q =
      report-Listed sv Others registered q (handle_ul_nas_transport u a m) w tt
  message-Listed configuration_update_complete w u a c m q =
      report-Listed sv Others registered q (handle_configuration_update_complete u m) w tt
  message-Listed service_request w u a c m q =
      report-Listed sv Others registered q (handle_service_request u a m) w tt
  message-Listed notification_response w u a c m q =
      report-Listed sv Others registered q (handle_notification_response u m) w tt
  message-Listed deregistration_request_ue_originating w u a c m q =
      (inl (deregistration_initiated, refl), λ f w'. tt)
  message-Listed status_5gmm w u a c m q =
      report-Listed sv Others registered q (handle_status_5gmm u a m) w tt
  message-Listed _ w u a c m q = tt

  pub registered-Listed :
      (w : World) (args : Args) (e : Event)
      → Quiet sv Others registered
      → Sends (Listed registered Others) (on_registered sv w args e)
  unfolding on_registered Sends
  registered-Listed w args entry_event q =
      with_access-Sends (Listed registered Others) args _ (λ u a.
        clearing-Sends (Listed registered Others) w u a _
          (λ w'. report-Listed sv Others registered q (store_context_in_db u) w' tt))
  registered-Listed w args gmm_message q =
      with_code-Sends (Listed registered Others) args _
        (λ u a c g. message-Listed g.message_type w u a c (gmm_pointer (some g)) q)
  registered-Listed w args nw_initiated_deregistration q =
      with_access-Sends (Listed registered Others) args _ (λ u a.
        report-Listed sv Others registered q (network_initiated_deregistration_procedure u a) w tt)
  registered-Listed w args _ q = tt

  failing-Listed :
      (u : ℕ) (a : AccessType) (failed : Bool) (w : World)
      → Sends (Listed context_setup Others) (failing sv u a failed w)
  unfolding failing Sends target
  failing-Listed u a true w = (inl (deregistered, refl), λ f w'. tt)
  failing-Listed u a false w = tt

  by_type-Listed :
      (w : World) (u : ℕ) (a : AccessType) (k : Bool → World → Proc Unit)
      → Quiet sv Others context_setup
      → ((f : Bool) (w' : World) → Sends (Listed context_setup Others) (k f w'))
      → Sends (Listed context_setup Others) (by_registration_type sv w u a k)
  unfolding by_registration_type Sends
  by_type-Listed w u a k q h =
      elim (Bool-cases (nat_beq (w.ues u).registration_type_5gs sv.initial_registration)) [
        | inl e ↦
            rw e (call-Listed sv Others context_setup q (handle_initial_registration u a) w k tt h)
        | inr e ↦ elim (Bool-cases (updating sv (w.ues u).registration_type_5gs)) [
          | inl f ↦
              rw (e, f)
                (call-Listed sv Others context_setup q
                  (handle_mobility_and_periodic_registration_updating u a) w k tt h)
          | inr f ↦ rw (e, f) tt
        ]
      ]

  enter-Listed :
      (m : Option NasArg) (w : World) (u : ℕ) (a : AccessType)
      → Quiet sv Others context_setup
      → Sends (Listed context_setup Others) (enter_context_setup sv m w u a)
  unfolding enter_context_setup Sends
  enter-Listed (some (registration_pointer p)) w u a q =
      by_type-Listed (put w u (record (w.ues u) { registration_request = p })) u a
        (λ failed w'. done w') q (λ f w'. tt)
  enter-Listed (some (service_pointer p)) w u a q =
      report-Listed sv Others context_setup q (handle_service_request u a (service_pointer p)) w tt
  enter-Listed _ w u a q = tt

  setup_message-Listed :
      (t : MessageType) (w : World) (u : ℕ) (a : AccessType) (m : NasArg)
      → Quiet sv Others context_setup
      → Sends (Listed context_setup Others) (context_setup_message sv t w u a m)
  unfolding context_setup_message Sends target
  setup_message-Listed identity_response w u a m q =
      call-Listed sv Others context_setup q (handle_identity_response u m) w _ tt
        (λ f w'. by_type-Listed w' u a (failing sv u a) q (failing-Listed u a))
  setup_message-Listed registration_complete w u a m q =
      report-Listed sv Others context_setup q (handle_registration_complete u a m) w tt
  setup_message-Listed status_5gmm w u a m q =
      report-Listed sv Others context_setup q (handle_status_5gmm u a m) w tt
  setup_message-Listed registration_request w u a m q = (inl (deregistered, refl), λ f w'. tt)
  setup_message-Listed _ w u a m q = tt

  asserted-Listed :
      (w : World) (args : Args) (k : ℕ → AccessType → Proc Unit)
      → ((u : ℕ) (a : AccessType) → Sends (Listed context_setup Others) (k u a))
      → Sends (Listed context_setup Others) (asserted sv w args k)
  unfolding Sends
  asserted-Listed w args k h = elim (Option-cases args.amf_ue) [
    | inl e ↦ rw e tt
    | inr (u, e) ↦ elim (Option-cases args.access_type) [
      | inl f ↦ rw (e, f) tt
      | inr (a, f) ↦ rw (e, f) (h u a)
    ]
  ]

  asserted_message-Listed :
      (w : World) (m : Option NasArg) (k : GmmMessage → Proc Unit)
      → ((g : GmmMessage) → Sends (Listed context_setup Others) (k g))
      → Sends (Listed context_setup Others) (asserted_message sv w m k)
  unfolding Sends
  asserted_message-Listed w (some (gmm_pointer (some g))) k h = h g
  asserted_message-Listed w (some (gmm_pointer none)) k h = tt
  asserted_message-Listed w _ k h = tt

  pub context_setup-Listed :
      (w : World) (args : Args) (e : Event)
      → Quiet sv Others context_setup
      → Sends (Listed context_setup Others) (on_context_setup sv w args e)
  unfolding on_context_setup Sends
  context_setup-Listed w args entry_event q =
      asserted-Listed w args _ (λ u a. enter-Listed args.nas_message w u a q)
  context_setup-Listed w args gmm_message q = asserted-Listed w args _ (λ u a.
      asserted_message-Listed w args.nas_message _
        (λ g. setup_message-Listed g.message_type w u a (gmm_pointer (some g)) q))
  context_setup-Listed w args nw_initiated_deregistration q = asserted-Listed w args _ (λ u a.
      stop_t3550-Sends (Listed context_setup Others) w u _ (λ w1.
        set_state-Sends (Listed context_setup Others) w1 u a registered _ (λ w2.
          report-Listed sv Others context_setup q (network_initiated_deregistration_procedure u a)
            w2 tt)))
  context_setup-Listed w args _ q = tt

  enter_deregistration-Listed :
      (m : Option NasArg) (w : World) (args : Args)
      → Quiet sv Others deregistration_initiated
      → Sends (Listed deregistration_initiated Others) (enter_deregistration sv m w args)
  unfolding enter_deregistration Sends
  enter_deregistration-Listed (some (gmm_pointer (some g))) w args q =
      with_access-Sends (Listed deregistration_initiated Others) args _ (λ u a.
        report-Listed sv Others deregistration_initiated q
          (handle_deregistration_request u a (gmm_pointer (some g))) w tt)
  enter_deregistration-Listed (some (gmm_pointer none)) w args q =
      with_ue-Sends (Listed deregistration_initiated Others) args _ (λ u. tt)
  enter_deregistration-Listed none w args q =
      with_ue-Sends (Listed deregistration_initiated Others) args _ (λ u. tt)
  enter_deregistration-Listed _ w args q = tt

  accept-Listed :
      (t : MessageType) (w : World) (u : ℕ) (a : AccessType) (m : NasArg)
      → Quiet sv Others deregistration_initiated
      → Sends (Listed deregistration_initiated Others) (deregistration_message sv t w u a m)
  unfolding deregistration_message Sends target
  accept-Listed deregistration_accept_ue_terminated w u a m q =
      report-Listed sv Others deregistration_initiated q (handle_deregistration_accept u a m) w tt
  accept-Listed _ w u a m q = (inl (deregistered, refl), λ f w'. tt)

  pub deregistration-Listed :
      (w : World) (args : Args) (e : Event)
      → Quiet sv Others deregistration_initiated
      → Sends (Listed deregistration_initiated Others) (on_deregistration_initiated sv w args e)
  unfolding on_deregistration_initiated Sends
  deregistration-Listed w args entry_event q = enter_deregistration-Listed args.nas_message w args q
  deregistration-Listed w args gmm_message q =
      with_message-Sends (Listed deregistration_initiated Others) args _
        (λ u a g. accept-Listed g.message_type w u a (gmm_pointer (some g)) q)
  deregistration-Listed w args deregistration_accept q =
      with_access-Sends (Listed deregistration_initiated Others) args _
        (λ u a. set_deregistered_state-Sends (Listed deregistration_initiated Others) w u a)
  deregistration-Listed w args _ q = tt
