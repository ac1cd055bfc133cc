-- ===== src/Gmm/Senders/Handing.antt =====
-- The order of the sending of a message and the start of its timer (gmm/message/send.go).
use amf_cdac.Base.{
  ℕ, String, ◌≡◌, ◌⊎◌, refl, inl, inr, Bool, true, false, Option, none, some, List, load, nat_beq,
  nat_beq_iff, Bool-cases, Option-cases,
}
use amf_cdac.Timer.{Timer}
use amf_cdac.Types.{Bytes, access_3gpp, access_type_eq}
use amf_cdac.Ue.{AmfUe, NasAccess}
use amf_cdac.Context.State.{World}
use amf_cdac.Gmm.Questions.{
  Question, Reply, NasMessage, downlink_nas_transport, initial_context_setup_request,
}
use amf_cdac.Gmm.Proc.{Proc, returns, panics, hangs, sends, sends_to, asks}
use amf_cdac.Gmm.Callbacks.{put}
use amf_cdac.Gmm.Senders.{
  Timers, build_and_send, send_authentication_request, send_security_mode_command,
  send_deregistration_request,
}
use amf_cdac.Gmm.Senders.Accepting.{send_registration_accept}

-- The questions that hand a message to a station.
abbrev pub is_handing : Question → Bool
is_handing (downlink_nas_transport p m) = true
is_handing (initial_context_setup_request u a m) = true
is_handing _ = false

-- Until a message is handed on, the sender leaves the timer of the UE as the last world has it.
unfoldable pub HandsFirst : (AmfUe → Option Timer) → ℕ → World → Proc Unit → Type 0
HandsFirst t v w (returns r w') = t (w'.ues v) ≡ t (w.ues v)
HandsFirst t v w panics = Unit
HandsFirst t v w hangs = Unit
HandsFirst t v w (sends e args w' next) = false ≡ true
HandsFirst t v w (sends_to s e args w' next) = false ≡ true
HandsFirst t v w (asks q w' next) =
    (t (w'.ues v) ≡ t (w.ues v))
    × ((is_handing q ≡ true) ⊎ ((r : Reply q) (w2 : World) → HandsFirst t v w2 (next r w2)))

build_and_send-HandsFirst :
    (t : AmfUe → Option Timer) (v : ℕ) (m : NasMessage) (p u : ℕ) (w0 w : World)
    (k : World → Proc Unit)
    → t (w.ues v) ≡ t (w0.ues v)
    → HandsFirst t v w0 (build_and_send m p u w k)
unfolding HandsFirst
build_and_send-HandsFirst t v m p u w0 w k e = (
  e,
  inr (λ built w2. elim (Bool-cases built) [ inl b ↦ rw b (refl, inl refl) | inr b ↦ rw b refl ]),
)

put-timer :
    (w : World) (u v : ℕ) (access : NasAccess)
    → ((put w u (record (w.ues u) { deregistration_target_access_type = access })).ues v).t3522
      ≡ (w.ues v).t3522
put-timer w u v access = elim (Bool-cases (nat_beq u v)) [
  | inl e ↦ rw ((nat_beq_iff u v).0 e) (rw ((nat_beq_iff v v).1 refl) refl)
  | inr e ↦ rw e refl
]

module _ (cfg : Timers) (v : ℕ) (w : World) where
  authentication_request-HandsFirst :
      (r : Option ℕ) → HandsFirst (λ ue. ue.t3560) v w (send_authentication_request cfg r w)
  unfolding send_authentication_request HandsFirst
  authentication_request-HandsFirst none = refl
  authentication_request-HandsFirst (some p) = elim (Option-cases (w.ran_ues p).amf_ue) [
    | inl e ↦ rw (HandsFirst, e) refl
    | inr (u, e) ↦ elim (Option-cases (w.ues u).authentication_ctx) [
      | inl f ↦ rw (HandsFirst, e, f) refl
      | inr (c, f) ↦
          rw (HandsFirst, e, f) (build_and_send-HandsFirst (λ ue. ue.t3560) v _ p u w w _ refl)
    ]
  ]

  security_mode_command-HandsFirst :
      (r : Option ℕ) (success : Bool) (eap : String)
      → HandsFirst (λ ue. ue.t3560) v w (send_security_mode_command cfg r success eap w)
  unfolding send_security_mode_command HandsFirst
  security_mode_command-HandsFirst none success eap = refl
  security_mode_command-HandsFirst (some p) success eap = elim (Option-cases (w.ran_ues p).amf_ue) [
    | inl e ↦ rw (HandsFirst, e) refl
    | inr (u, e) ↦
        rw (HandsFirst, e) (build_and_send-HandsFirst (λ ue. ue.t3560) v _ p u w w _ refl)
  ]

  deregistration_request-HandsFirst :
      (r : Option ℕ) (access : NasAccess) (again : Bool) (cause : ℕ)
      → HandsFirst (λ ue. ue.t3522) v w (send_deregistration_request cfg r access again cause w)
  unfolding send_deregistration_request HandsFirst
  deregistration_request-HandsFirst none access again cause = tt
  deregistration_request-HandsFirst (some p) access again cause =
      elim (Option-cases (w.ran_ues p).amf_ue) [
        | inl e ↦ rw (HandsFirst, e) tt
        | inr (u, e) ↦
            let told = put w u (record (w.ues u) { deregistration_target_access_type = access }) in
            rw (HandsFirst, e)
              (build_and_send-HandsFirst (λ ue. ue.t3522) v _ p u w told _ (put-timer w u v access))
      ]

  registration_accept-HandsFirst :
      (u : ℕ) (status result : Option (List Bool)) (sessions causes : Bytes)
      → HandsFirst
          (λ ue. ue.t3550)
          v
          w
          (send_registration_accept cfg u access_3gpp status result sessions causes w)
  unfolding send_registration_accept HandsFirst
  registration_accept-HandsFirst u status result sessions causes = (
    refl,
    inr (λ built w1. elim (Bool-cases built) [
      | inr b ↦ rw b refl
      | inl b ↦ rw b (elim (Option-cases (load (w1.ues u).ran_ue access_3gpp)) [
        | inl e ↦ rw (HandsFirst, e) refl
        | inr (p, e) ↦ elim (Bool-cases (w1.ran_ues p).ue_context_request) [
          | inl c ↦ rw (HandsFirst, e, c) (refl, inl refl)
          | inr c ↦ rw (HandsFirst, e, c) (rw (HandsFirst, e) (refl, inl refl))
        ]
      ])
    ]),
  )

-- The senders of an authentication request, a security mode command, a deregistration request and,
-- over 3GPP access, a registration accept start the timer of the message only after they have handed
-- it to a station: up to then every UE keeps that timer as the other parts leave it, and so it
-- stays when the message cannot be built.
pub senders-HandsFirst :
    (cfg : Timers) (v : ℕ) (w : World) (r : Option ℕ)
    → HandsFirst (λ ue. ue.t3560) v w (send_authentication_request cfg r w)
      × ((success : Bool) (eap : String)
          → HandsFirst (λ ue. ue.t3560) v w (send_security_mode_command cfg r success eap w))
      × ((access : NasAccess) (again : Bool) (cause : ℕ)
          → HandsFirst
              (λ ue. ue.t3522)
              v
              w
              (send_deregistration_request cfg r access again cause w))
      × ((u : ℕ) (status result : Option (List Bool)) (sessions causes : Bytes)
          → HandsFirst
              (λ ue. ue.t3550)
              v
              w
              (send_registration_accept cfg u access_3gpp status result sessions causes w))
senders-HandsFirst cfg v w r = (
  authentication_request-HandsFirst cfg v w r,
  security_mode_command-HandsFirst cfg v w r,
  deregistration_request-HandsFirst cfg v w r,
  registration_accept-HandsFirst cfg v w,
)
