-- ===== src/Gmm/Handlers/Checking.antt =====
-- What must come before an event that lets a UE pass its authentication (gmm/handler.go), for the
-- senders and the parts of a handler.
use amf_cdac.Base.{
  ℕ, ◌≡◌, inl, inr, ◌⊎◌, ◌||◌, String, Bool, true, false, Option, none, some, list_eq, nat_eq,
  Bool-cases, Option-cases,
}
use amf_cdac.Types.{Bytes}
use amf_cdac.Context.State.{World}
use amf_cdac.Gmm.Transitions.{Event, auth_success, security_mode_success}
use amf_cdac.Gmm.Questions.{
  NasMessage, Question, Reply, Answer, granted, AuthResult, auth_success as result_success,
  Confirmation, confirms_5g_aka, confirms_eap, derives_kamf, authentication_result,
  authentication_request,
}
use amf_cdac.Gmm.Proc.{Args, Proc, returns, panics, hangs, sends, sends_to, asks, bind}
use amf_cdac.Gmm.Callbacks.{done}
use amf_cdac.Gmm.Senders.{
  Timers, build_and_send, with_amf_ue, checked_amf_ue, send_plainly, start_t3560,
  send_authentication_request, send_authentication_result,
}
use amf_cdac.Gmm.Handlers.{
  finish, after, Stopping, is_off, stopping_hangs, stopping_panics, when_stopped,
}

-- The events that let a UE pass its authentication.
abbrev pub IsPass : Event → Type 0
IsPass e = (e ≡ auth_success) ⊎ (e ≡ security_mode_success)

abbrev pub is_success : AuthResult → Bool
is_success result_success = true
is_success _ = false

abbrev pub is_confirmed : Answer Confirmation → Bool
is_confirmed (granted c) = is_success c.auth_result
is_confirmed _ = false

-- Whether the AUSF has confirmed a UE, before a question and after its reply.
abbrev pub confirmed_after : (q : Question) → Reply q → Bool → Bool
confirmed_after (confirms_5g_aka u t) r seen = is_confirmed r || seen
confirmed_after (confirms_eap u m) r seen = is_confirmed r || seen
confirmed_after _ r seen = seen

-- What a question needs: the AUSF is asked about a RES* that may be sent to it, and Kamf is derived
-- for a UE that it has confirmed.
abbrev pub Condition : (Bytes → Type 0) → Bool → Question → Type 0
Condition Sendable seen (confirms_5g_aka u t) = Sendable t
Condition Sendable seen (derives_kamf u) = seen ≡ true
Condition Sendable seen _ = Unit

-- Along every path of the tree the questions are asked under their conditions, and an event that
-- lets a UE pass is sent after the AUSF has confirmed one.
unfoldable pub Checked : (Bytes → Type 0) → {A : Type 0} → Bool → Proc A → Type 0
Checked S seen (returns a w) = Unit
Checked S seen panics = Unit
Checked S seen hangs = Unit
Checked S seen (sends e args w next) =
    (IsPass e → seen ≡ true) × ((failed : Bool) (w' : World) → Checked S seen (next failed w'))
Checked S seen (sends_to a e args w next) =
    (IsPass e → seen ≡ true) × ((failed : Bool) (w' : World) → Checked S seen (next failed w'))
Checked S seen (asks q w next) =
    Condition S seen q
    × ((r : Reply q) (w' : World) → Checked S (confirmed_after q r seen) (next r w'))

module _ (S : Bytes → Type 0) where
  Checked-bind :
      {A B : Type 0} (seen : Bool) (p : Proc A) (k : A → World → Proc B)
      → Checked S seen p
      → ((s : Bool) (a : A) (w : World) → Checked S s (k a w))
      → Checked S seen (bind p k)
  unfolding bind Checked
  Checked-bind seen (returns a w) k h g = g seen a w
  Checked-bind seen panics k h g = tt
  Checked-bind seen hangs k h g = tt
  Checked-bind seen (sends e args w next) k h g =
      (h.0, λ failed w'. Checked-bind seen (next failed w') k (h.1 failed w') g)
  Checked-bind seen (sends_to a e args w next) k h g =
      (h.0, λ failed w'. Checked-bind seen (next failed w') k (h.1 failed w') g)
  Checked-bind seen (asks q w next) k h g =
      (h.0, λ r w'. Checked-bind (confirmed_after q r seen) (next r w') k (h.1 r w') g)

  pub after-Checked :
      (seen : Bool) (p : Proc Unit) (k : World → Proc Bool)
      → Checked S seen p
      → ((s : Bool) (w : World) → Checked S s (k w))
      → Checked S seen (after p k)
  after-Checked seen p k h g = Checked-bind seen p (λ sent w. k w) h (λ s sent w. g s w)

  build_and_send-Checked :
      (seen : Bool) (m : NasMessage) (p u : ℕ) (w : World) (k : World → Proc Unit)
      → ((w' : World) → Checked S seen (k w'))
      → Checked S seen (build_and_send m p u w k)
  unfolding Checked
  build_and_send-Checked seen m p u w k g = (
    tt,
    λ built w1. elim (Bool-cases built) [
      | inl e ↦ rw (Checked, e) (tt, λ sent w2. g w2)
      | inr e ↦ rw (Checked, e) tt
    ],
  )

  with_amf_ue-Checked :
      (seen : Bool) (w : World) (r : Option ℕ) (k : ℕ → ℕ → Proc Unit)
      → ((p u : ℕ) → Checked S seen (k p u))
      → Checked S seen (with_amf_ue w r k)
  unfolding Checked
  with_amf_ue-Checked seen w none k h = tt
  with_amf_ue-Checked seen w (some p) k h = elim (Option-cases (w.ran_ues p).amf_ue) [
    | inl e ↦ rw (Checked, e) tt
    | inr (u, e) ↦ rw (Checked, e) (h p u)
  ]

  checked_amf_ue-Checked :
      (seen : Bool) (w : World) (r : Option ℕ) (k : ℕ → ℕ → Proc Unit)
      → ((p u : ℕ) → Checked S seen (k p u))
      → Checked S seen (checked_amf_ue w r k)
  unfolding Checked
  checked_amf_ue-Checked seen w none k h = tt
  checked_amf_ue-Checked seen w (some p) k h = elim (Option-cases (w.ran_ues p).amf_ue) [
    | inl e ↦ rw (Checked, e) tt
    | inr (u, e) ↦ rw (Checked, e) (h p u)
  ]

  pub plainly-Checked :
      (seen : Bool) (m : NasMessage) (r : Option ℕ) (w : World)
      → Checked S seen (send_plainly m r w)
  unfolding Checked
  plainly-Checked seen m r w =
      with_amf_ue-Checked seen w r _ (λ p u. build_and_send-Checked seen m p u w _ (λ w'. tt))

  pub result-Checked :
      (seen : Bool) (r : Option ℕ) (success : Bool) (eap : String) (w : World)
      → Checked S seen (send_authentication_result r success eap w)
  unfolding send_authentication_result Checked
  result-Checked seen none success eap w = tt
  result-Checked seen (some p) success eap w = elim (Option-cases (w.ran_ues p).amf_ue) [
    | inl e ↦ rw (Checked, e) tt
    | inr (u, e) ↦
        rw (Checked, e)
          (build_and_send-Checked seen (authentication_result success eap) p u w done (λ w'. tt))
  ]

  start_t3560-Checked :
      (seen : Bool) (cfg : Timers) (u : ℕ) (w : World) → Checked S seen (start_t3560 cfg u w)
  unfolding Checked
  start_t3560-Checked seen cfg u w = elim (Option-cases cfg.t3560_cfg) [
    | inl e ↦ rw (Checked, e) tt
    | inr (n, e) ↦ rw (Checked, e) tt
  ]

  pub request-Checked :
      (seen : Bool) (cfg : Timers) (r : Option ℕ) (w : World)
      → Checked S seen (send_authentication_request cfg r w)
  unfolding send_authentication_request Checked
  request-Checked seen cfg r w = checked_amf_ue-Checked seen w r _ (λ p u.
      elim (Option-cases (w.ues u).authentication_ctx) [
        | inl e ↦ rw (Checked, e) tt
        | inr (ctx, e) ↦
            rw (Checked, e)
              (build_and_send-Checked seen authentication_request p u w (start_t3560 cfg u)
                (start_t3560-Checked seen cfg u))
      ])

  pub finish-Checked :
      (seen : Bool) (e : Event) (args : Args) (w : World)
      → (IsPass e → seen ≡ true)
      → Checked S seen (finish e args w)
  unfolding Checked
  finish-Checked seen e args w h = (h, λ failed w'. tt)

  pub when_stopped-Checked :
      (seen : Bool) (s : Stopping) (p : Proc Bool)
      → Checked S seen p
      → Checked S seen (when_stopped s p)
  unfolding Checked
  when_stopped-Checked seen is_off p h = h
  when_stopped-Checked seen stopping_hangs p h = tt
  when_stopped-Checked seen stopping_panics p h = tt
