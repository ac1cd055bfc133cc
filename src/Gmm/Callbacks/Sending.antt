-- ===== src/Gmm/Callbacks/Sending.antt =====
-- The events that a piece of a callback sends (gmm/sm.go).
use amf_cdac.Base.{ℕ, ℤ, ◌≡◌, refl, ◌⊎◌, inl, inr, false, Option, none, some, Option-cases, load}
use amf_cdac.Types.{
  AccessType, access_3gpp, access_non_3gpp, access_empty, access_type_eq, GmmState, deregistered,
}
use amf_cdac.Timer.{Timer, Stopped, stopped, stop, hangs as stop_hangs, panics as stop_panics}
use amf_cdac.Context.Registration.{clear_registration_request_data}
use amf_cdac.Gmm.Proc.{Sends}
use amf_cdac.Nas.Message.{GmmMessage}
use amf_cdac.Gmm.Transitions.{Event}
use amf_cdac.Gmm.Proc.{
  NasArg, gmm_pointer, Args, Proc, returns, panics, hangs, sends, sends_to, asks, bind,
}
use amf_cdac.Gmm.Callbacks.{
  message_of, done, with_ue, with_access, with_message, with_code, put, clearing, stop_t3560,
  stop_t3550, set_state, set_deregistered_state,
}
use amf_cdac.Context.State.{World}

pub Sends-bind :
    (P : Event → Type 0) {A B : Type 0} (p : Proc A) (k : A → World → Proc B)
    → Sends P p
    → ((a : A) (w : World) → Sends P (k a w))
    → Sends P (bind p k)
unfolding bind Sends
Sends-bind P (returns a w) k h g = g a w
Sends-bind P panics k h g = tt
Sends-bind P hangs k h g = tt
Sends-bind P (sends e args w next) k h g =
    (h.0, λ failed w'. Sends-bind P (next failed w') k (h.1 failed w') g)
Sends-bind P (sends_to s e args w next) k h g =
    (h.0, λ failed w'. Sends-bind P (next failed w') k (h.1 failed w') g)
Sends-bind P (asks q w next) k h g = λ r w'. Sends-bind P (next r w') k (h r w') g

pub Sends-wider :
    (P Q : Event → Type 0) {A : Type 0} (p : Proc A)
    → ((e : Event) → P e → Q e)
    → Sends P p
    → Sends Q p
unfolding Sends
Sends-wider P Q (returns a w) f h = tt
Sends-wider P Q panics f h = tt
Sends-wider P Q hangs f h = tt
Sends-wider P Q (sends e args w next) f h =
    (f e h.0, λ failed w'. Sends-wider P Q (next failed w') f (h.1 failed w'))
Sends-wider P Q (sends_to s e args w next) f h =
    (f e h.0, λ failed w'. Sends-wider P Q (next failed w') f (h.1 failed w'))
Sends-wider P Q (asks q w next) f h = λ r w'. Sends-wider P Q (next r w') f (h r w')

Stopped-cases :
    (r : Stopped) → ((t : Timer) × (r ≡ stopped t)) ⊎ (r ≡ stop_hangs) ⊎ (r ≡ stop_panics)
Stopped-cases (stopped t) = inl (t, refl)
Stopped-cases stop_hangs = inr (inl refl)
Stopped-cases stop_panics = inr (inr refl)

module _ (P : Event → Type 0) where
  pub with_ue-Sends :
      (args : Args) (k : ℕ → Proc Unit) → ((u : ℕ) → Sends P (k u)) → Sends P (with_ue args k)
  unfolding Sends
  with_ue-Sends args k g = elim (Option-cases args.amf_ue) [
    | inl e ↦ rw e tt
    | inr (u, e) ↦ rw e (g u)
  ]

  pub with_access-Sends :
      (args : Args) (k : ℕ → AccessType → Proc Unit)
      → ((u : ℕ) (a : AccessType) → Sends P (k u a))
      → Sends P (with_access args k)
  unfolding Sends
  with_access-Sends args k g =
      with_ue-Sends args (λ u. elim args.access_type [ none ↦ panics | some a ↦ k u a ])
        (λ u. elim (Option-cases args.access_type) [ inl e ↦ rw e tt | inr (a, e) ↦ rw e (g u a) ])

  pub message_of-Sends :
      (m : Option NasArg) (k : GmmMessage → Proc Unit)
      → ((g : GmmMessage) → Sends P (k g))
      → Sends P (message_of m k)
  unfolding Sends
  message_of-Sends (some (gmm_pointer (some g))) k h = h g
  message_of-Sends _ k h = tt

  pub with_message-Sends :
      (args : Args) (k : ℕ → AccessType → GmmMessage → Proc Unit)
      → ((u : ℕ) (a : AccessType) (g : GmmMessage) → Sends P (k u a g))
      → Sends P (with_message args k)
  with_message-Sends args k h =
      with_access-Sends args (λ u a. message_of args.nas_message (k u a))
        (λ u a. message_of-Sends args.nas_message (k u a) (h u a))

  pub with_code-Sends :
      (args : Args) (k : ℕ → AccessType → ℤ → GmmMessage → Proc Unit)
      → ((u : ℕ) (a : AccessType) (c : ℤ) (g : GmmMessage) → Sends P (k u a c g))
      → Sends P (with_code args k)
  unfolding Sends
  with_code-Sends args k h =
      with_message-Sends args
        (λ u a g. elim args.procedure_code [ none ↦ panics | some c ↦ k u a c g ])
        (λ u a g. elim (Option-cases args.procedure_code) [
          | inl e ↦ rw e tt
          | inr (c, e) ↦ rw e (h u a c g)
        ])

  pub clearing-Sends :
      (w : World) (u : ℕ) (a : AccessType) (k : World → Proc Unit)
      → ((w' : World) → Sends P (k w'))
      → Sends P (clearing w u a k)
  unfolding Sends clearing
  clearing-Sends w u a k h = elim (Option-cases (clear_registration_request_data w u a)) [
    | inl e ↦ rw (e, clearing) tt
    | inr (w', e) ↦ rw (e, clearing) (h w')
  ]

  pub stop_t3560-Sends :
      (w : World) (u : ℕ) (k : World → Proc Unit)
      → ((w' : World) → Sends P (k w'))
      → Sends P (stop_t3560 w u k)
  unfolding Sends stop_t3560
  stop_t3560-Sends w u k h = elim (Stopped-cases (stop (w.ues u).t3560)) [
    | inl (t, e) ↦ rw (e, stop_t3560) (h _)
    | inr (inl e) ↦ rw (e, stop_t3560) tt
    | inr (inr e) ↦ rw (e, stop_t3560) tt
  ]

  pub stop_t3550-Sends :
      (w : World) (u : ℕ) (k : World → Proc Unit)
      → ((w' : World) → Sends P (k w'))
      → Sends P (stop_t3550 w u k)
  unfolding Sends stop_t3550
  stop_t3550-Sends w u k h = elim (Stopped-cases (stop (w.ues u).t3550)) [
    | inl (t, e) ↦ rw (e, stop_t3550) (h _)
    | inr (inl e) ↦ rw (e, stop_t3550) tt
    | inr (inr e) ↦ rw (e, stop_t3550) tt
  ]

  pub set_state-Sends :
      (w : World) (u : ℕ) (a : AccessType) (t : GmmState) (k : World → Proc Unit)
      → ((w' : World) → Sends P (k w'))
      → Sends P (set_state w u a t k)
  unfolding Sends set_state
  set_state-Sends w u a t k h = elim (Option-cases (load (w.ues u).state a)) [
    | inl e ↦ rw (e, set_state) tt
    | inr (old, e) ↦ rw (e, set_state) (h _)
  ]

  pub set_deregistered_state-Sends :
      (w : World) (u : ℕ) (a : AccessType) → Sends P (set_deregistered_state w u a)
  unfolding Sends set_deregistered_state
  set_deregistered_state-Sends w u access_3gpp =
      set_state-Sends (put w u (record (w.ues u) { subscription_data_valid = false })) u access_3gpp
        deregistered done (λ w'. tt)
  set_deregistered_state-Sends w u access_non_3gpp =
      set_state-Sends (put w u (record (w.ues u) { subscription_data_valid = false })) u
        access_non_3gpp deregistered done (λ w'. tt)
  set_deregistered_state-Sends w u access_empty =
      set_state-Sends (put w u (record (w.ues u) { subscription_data_valid = false })) u access_3gpp
        deregistered (λ w2. set_state w2 u access_non_3gpp deregistered done)
        (λ w'. set_state-Sends w' u access_non_3gpp deregistered done (λ w2. tt))
