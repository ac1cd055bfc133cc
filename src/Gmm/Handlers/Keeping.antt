-- ===== src/Gmm/Handlers/Keeping.antt =====
-- Properties of the world that the handlers keep, whatever the other parts do that keep them too
-- (gmm/handler.go).
use amf_cdac.Base.{
  ℕ, inl, inr, Bool, Option, none, some, string_eq, Bool-cases, Option-cases, nat_beq,
}
use amf_cdac.Ue.{AmfUe}
use amf_cdac.Context.State.{World}
use amf_cdac.Gmm.Transitions.{Event}
use amf_cdac.Gmm.Questions.{NasMessage, Reply}
use amf_cdac.Gmm.Proc.{Args, Proc, returns, panics, hangs, sends, sends_to, asks, bind}
use amf_cdac.Gmm.Callbacks.{put}
use amf_cdac.Gmm.Senders.{send_plainly, build_and_send, with_amf_ue, checked_amf_ue}
use amf_cdac.Gmm.Handlers.{
  finish, after, Stopping, is_off, stopping_hangs, stopping_panics, when_stopped,
}

-- The world has the property whenever the tree returns or lets another part run, if it has it again
-- when that part comes back.
unfoldable pub Keeps : (World → Type 0) → {A : Type 0} → Proc A → Type 0
Keeps P (returns a w) = P w
Keeps P panics = Unit
Keeps P hangs = Unit
Keeps P (sends e args w next) =
    P w × ((failed : Bool) (w' : World) → P w' → Keeps P (next failed w'))
Keeps P (sends_to s e args w next) =
    P w × ((failed : Bool) (w' : World) → P w' → Keeps P (next failed w'))
Keeps P (asks q w next) = P w × ((r : Reply q) (w' : World) → P w' → Keeps P (next r w'))

pub Keeps-bind :
    (P : World → Type 0) {A B : Type 0} (p : Proc A) (k : A → World → Proc B)
    → Keeps P p
    → ((a : A) (w : World) → P w → Keeps P (k a w))
    → Keeps P (bind p k)
unfolding bind Keeps
Keeps-bind P (returns a w) k h g = g a w h
Keeps-bind P panics k h g = tt
Keeps-bind P hangs k h g = tt
Keeps-bind P (sends e args w next) k h g =
    (h.0, λ failed w' p. Keeps-bind P (next failed w') k (h.1 failed w' p) g)
Keeps-bind P (sends_to s e args w next) k h g =
    (h.0, λ failed w' p. Keeps-bind P (next failed w') k (h.1 failed w' p) g)
Keeps-bind P (asks q w next) k h g = (h.0, λ r w' p. Keeps-bind P (next r w') k (h.1 r w' p) g)

-- A property of all UEs, and that it does not read the fields that the lemmas below write.
abbrev pub EveryUe : (AmfUe → Type 0) → World → Type 0
EveryUe Q w = (u : ℕ) → Q (w.ues u)

pub put-EveryUe :
    (Q : AmfUe → Type 0) (w : World) (u : ℕ) (ue : AmfUe)
    → EveryUe Q w
    → Q ue
    → EveryUe Q (put w u ue)
put-EveryUe Q w u ue h q v = elim (Bool-cases (nat_beq u v)) [ inl e ↦ rw e q | inr e ↦ rw e (h v) ]

pub build_and_send-Keeps :
    (P : World → Type 0) (m : NasMessage) (p u : ℕ) (w : World) (k : World → Proc Unit)
    → P w
    → ((w' : World) → P w' → Keeps P (k w'))
    → Keeps P (build_and_send m p u w k)
unfolding Keeps
build_and_send-Keeps P m p u w k h g = (
  h,
  λ built w1 h1. elim (Bool-cases built) [
    | inl e ↦ rw e (h1, λ sent w2 h2. g w2 h2)
    | inr e ↦ rw e h1
  ],
)

with_amf_ue-Keeps :
    (P : World → Type 0) (w : World) (r : Option ℕ) (k : ℕ → ℕ → Proc Unit)
    → ((p u : ℕ) → Keeps P (k p u))
    → Keeps P (with_amf_ue w r k)
unfolding Keeps
with_amf_ue-Keeps P w none k h = tt
with_amf_ue-Keeps P w (some p) k h = elim (Option-cases (w.ran_ues p).amf_ue) [
  | inl e ↦ rw (Keeps, e) tt
  | inr (u, e) ↦ rw (Keeps, e) (h p u)
]

pub checked_amf_ue-Keeps :
    (P : World → Type 0) (w : World) (r : Option ℕ) (k : ℕ → ℕ → Proc Unit)
    → P w
    → ((p u : ℕ) → Keeps P (k p u))
    → Keeps P (checked_amf_ue w r k)
unfolding Keeps
checked_amf_ue-Keeps P w none k hw h = hw
checked_amf_ue-Keeps P w (some p) k hw h = elim (Option-cases (w.ran_ues p).amf_ue) [
  | inl e ↦ rw (Keeps, e) hw
  | inr (u, e) ↦ rw (Keeps, e) (h p u)
]

pub send_plainly-Keeps :
    (P : World → Type 0) (m : NasMessage) (r : Option ℕ) (w : World)
    → P w
    → Keeps P (send_plainly m r w)
unfolding Keeps
send_plainly-Keeps P m r w h =
    with_amf_ue-Keeps P w r _ (λ p u. build_and_send-Keeps P m p u w _ h (λ w' h'. h'))

pub after-Keeps :
    (P : World → Type 0) (p : Proc Unit) (k : World → Proc Bool)
    → Keeps P p
    → ((w : World) → P w → Keeps P (k w))
    → Keeps P (after p k)
after-Keeps P p k h g = Keeps-bind P p (λ sent w. k w) h (λ sent w. g w)

pub when_stopped-Keeps :
    (P : World → Type 0) (s : Stopping) (p : Proc Bool) → Keeps P p → Keeps P (when_stopped s p)
unfolding Keeps
when_stopped-Keeps P is_off p h = h
when_stopped-Keeps P stopping_hangs p h = tt
when_stopped-Keeps P stopping_panics p h = tt

pub finish-Keeps :
    (P : World → Type 0) (e : Event) (args : Args) (w : World) → P w → Keeps P (finish e args w)
unfolding Keeps
finish-Keeps P e args w h = (h, λ failed w' h'. h')
