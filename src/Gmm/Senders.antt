-- ===== src/Gmm/Senders.antt =====
-- The senders of NAS messages (gmm/message/send.go): the message is built, goes to the RAN in a
-- downlink NAS transport, and some start the timer that sends it again.
pub mod Accepting
pub mod Handing
mod Examples
use amf_cdac.Base.{ℕ, String, Bool, Option, none, some, if◌then◌else◌}
use amf_cdac.Timer.{new_timer}
use amf_cdac.Ue.{NasAccess}
use amf_cdac.Context.State.{World}
use amf_cdac.Gmm.Questions.{
  NasMessage, identity_request, authentication_request, authentication_reject,
  authentication_result, security_mode_command, registration_reject, service_reject,
  deregistration_request, deregistration_accept, status_5gmm, builds, downlink_nas_transport,
}
use amf_cdac.Gmm.Proc.{Proc, panics, asks}
use amf_cdac.Gmm.Callbacks.{done, put}

-- The configured timers: the number of retries of an enabled one.
pub record Timers : Type 0 where
  pub t3560_cfg : Option ℕ
  pub t3522_cfg : Option ℕ
  pub t3550_cfg : Option ℕ
  pub t3565_cfg : Option ℕ

-- A message that is built is sent; `k` is what follows, and an error ends the sender.
abbrev pub build_and_send : NasMessage → ℕ → ℕ → World → (World → Proc Unit) → Proc Unit
build_and_send m p u w k =
    asks (builds u m) w (λ built w1.
      if built then asks (downlink_nas_transport p m) w1 (λ sent w2. k w2) else done w1)

-- The RanUe and its AmfUe, of which the sender logs first: a nil pointer is dereferenced.
abbrev pub with_amf_ue : World → Option ℕ → (ℕ → ℕ → Proc Unit) → Proc Unit
with_amf_ue w none k = panics
with_amf_ue w (some p) k = elim (w.ran_ues p).amf_ue [ none ↦ panics | some u ↦ k p u ]

-- The senders that test for nil first and then return.
abbrev pub checked_amf_ue : World → Option ℕ → (ℕ → ℕ → Proc Unit) → Proc Unit
checked_amf_ue w none k = done w
checked_amf_ue w (some p) k = elim (w.ran_ues p).amf_ue [ none ↦ done w | some u ↦ k p u ]

abbrev pub send_plainly : NasMessage → Option ℕ → World → Proc Unit
send_plainly m r w = with_amf_ue w r (λ p u. build_and_send m p u w done)

unfoldable pub send_identity_request : Option ℕ → ℕ → World → Proc Unit
send_identity_request r type_of_identity w = send_plainly (identity_request type_of_identity) r w

unfoldable pub send_authentication_reject : Option ℕ → String → World → Proc Unit
send_authentication_reject r eap w = send_plainly (authentication_reject eap) r w

-- SendAuthenticationResult tests the AmfUe, not the RanUe.
unfoldable pub send_authentication_result : Option ℕ → Bool → String → World → Proc Unit
send_authentication_result none success eap w = panics
send_authentication_result (some p) success eap w = elim (w.ran_ues p).amf_ue [
  | none ↦ done w
  | some u ↦ build_and_send (authentication_result success eap) p u w done
]

unfoldable pub send_service_reject : Option ℕ → ℕ → World → Proc Unit
send_service_reject r cause w = send_plainly (service_reject cause) r w

unfoldable pub send_registration_reject : Option ℕ → ℕ → String → World → Proc Unit
send_registration_reject r cause eap w = send_plainly (registration_reject cause eap) r w

unfoldable pub send_deregistration_accept : Option ℕ → World → Proc Unit
send_deregistration_accept r w = send_plainly deregistration_accept r w

unfoldable pub send_status_5gmm : Option ℕ → ℕ → World → Proc Unit
send_status_5gmm r cause w = send_plainly (status_5gmm cause) r w

-- An enabled timer is started.
abbrev pub start_t3560 : Timers → ℕ → World → Proc Unit
start_t3560 cfg u w = elim cfg.t3560_cfg [
  | none ↦ done w
  | some n ↦ done (put w u (record (w.ues u) { t3560 = some (new_timer n) }))
]

abbrev pub start_t3522 : Timers → ℕ → World → Proc Unit
start_t3522 cfg u w = elim cfg.t3522_cfg [
  | none ↦ done w
  | some n ↦ done (put w u (record (w.ues u) { t3522 = some (new_timer n) }))
]

-- SendAuthenticationRequest: without an authentication context nothing is sent.
unfoldable pub send_authentication_request : Timers → Option ℕ → World → Proc Unit
send_authentication_request cfg r w = checked_amf_ue w r (λ p u. elim (w.ues u).authentication_ctx [
  | none ↦ done w
  | some ctx ↦ build_and_send authentication_request p u w (start_t3560 cfg u)
])

unfoldable pub send_security_mode_command : Timers → Option ℕ → Bool → String → World → Proc Unit
send_security_mode_command cfg r success eap w =
    checked_amf_ue w r
      (λ p u. build_and_send (security_mode_command success eap) p u w (start_t3560 cfg u))

-- SendDeregistrationRequest notes the access type before it builds the message.
unfoldable pub send_deregistration_request :
    Timers → Option ℕ → NasAccess → Bool → ℕ → World → Proc Unit
send_deregistration_request cfg r access again cause w = with_amf_ue w r (λ p u.
    build_and_send (deregistration_request access again cause) p u
      (put w u (record (w.ues u) { deregistration_target_access_type = access }))
      (start_t3522 cfg u))
