-- ===== src/Gmm/Senders/Accepting.antt =====
-- The senders of the registration accept, the service accept, the configuration update, the transport
-- and the notification (gmm/message/send.go). The list of mobility restrictions, and the sessions to
-- set up, which are only handed on, are left out.
use amf_cdac.Base.{ℕ, Bool, Option, none, some, List, if◌then◌else◌, nat_beq, load}
use amf_cdac.Timer.{new_timer}
use amf_cdac.Types.{Bytes, AccessType, access_type_eq, access_3gpp}
use amf_cdac.Context.State.{World}
use amf_cdac.Gmm.Questions.{
  NasMessage, dl_nas_transport, service_accept, configuration_update_command, registration_accept,
  builds, downlink_nas_transport, initial_context_setup_request,
}
use amf_cdac.Gmm.Proc.{Proc, asks}
use amf_cdac.Gmm.Callbacks.{done, put}
use amf_cdac.Gmm.Senders.{Timers, send_plainly, with_amf_ue}

-- SendDLNASTransport; the cause 0 is none.
unfoldable pub send_dl_nas_transport :
    Option ℕ → ℕ → Bytes → ℕ → ℕ → Option ℕ → ℕ → World → Proc Unit
send_dl_nas_transport r payload_type nas_pdu session cause back_off_unit back_off w =
    let cause_ptr = if nat_beq cause 0 then none else some cause in
    send_plainly (dl_nas_transport payload_type nas_pdu session cause_ptr back_off_unit back_off) r
      w

unfoldable pub send_service_accept :
    Option ℕ → Option (List Bool) → Option (List Bool) → Bytes → Bytes → World → Proc Unit
send_service_accept r status result sessions causes w =
    send_plainly (service_accept status result sessions causes) r w

-- SendNotification: the message goes out when the timer that is started here expires.
unfoldable pub send_notification : Timers → Option ℕ → World → Proc Unit
send_notification cfg r w = with_amf_ue w r (λ p u. elim cfg.t3565_cfg [
  | none ↦ done w
  | some n ↦ done (put w u (record (w.ues u) { t3565 = some (new_timer n) }))
])

-- SendDownlinkNasTransport to the UE's RanUe of the access; a nil one is only logged.
abbrev pub hand_down : AccessType → ℕ → NasMessage → World → (World → Proc Unit) → Proc Unit
hand_down a u m w k = elim (load (w.ues u).ran_ue a) [
  | none ↦ k w
  | some p ↦ asks (downlink_nas_transport p m) w (λ sent w'. k w')
]

unfoldable pub send_configuration_update_command : ℕ → AccessType → Option ℕ → World → Proc Unit
send_configuration_update_command u a indication w =
    let m = configuration_update_command a indication in
    asks (builds u m) w (λ built w1. if built then hand_down a u m w1 done else done w1)

abbrev pub start_t3550 : Timers → ℕ → World → Proc Unit
start_t3550 cfg u w = elim cfg.t3550_cfg [
  | none ↦ done w
  | some n ↦ done (put w u (record (w.ues u) { t3550 = some (new_timer n) }))
]

-- SendRegistrationAccept: a RanUe without a context gets an initial context setup, and else the
-- message goes down over 3GPP.
unfoldable pub send_registration_accept :
    Timers
    → ℕ
    → AccessType
    → Option (List Bool)
    → Option (List Bool)
    → Bytes
    → Bytes
    → World
    → Proc Unit
send_registration_accept cfg u a status result sessions causes w =
    let m = registration_accept a status result sessions causes in
    asks (builds u m) w (λ built w1.
      if built
      then elim (load (w1.ues u).ran_ue a) [
        | none ↦ done w1
        | some p ↦
            if (w1.ran_ues p).ue_context_request
            then asks (initial_context_setup_request u a m) w1 (λ sent w2. start_t3550 cfg u w2)
            else hand_down access_3gpp u m w1 (start_t3550 cfg u)
      ]
      else done w1)
