-- ===== src/Gmm/Handlers/Ensuring.antt =====
-- What holds when a handler returns without an error (gmm/handler.go).
use amf_cdac.Base.{
  ℕ, ◌≡◌, refl, inl, inr, sym, subst, Bool, true, false, nat_beq, arith, Bool-cases,
}
use amf_cdac.Types.{access_type_eq}
use amf_cdac.Ue.{AmfUe}
use amf_cdac.Context.State.{World}
use amf_cdac.Gmm.Questions.{Question, Reply, copies_ue_context}
use amf_cdac.Gmm.Proc.{Proc, returns, panics, hangs, sends, sends_to, asks, bind}
use amf_cdac.Gmm.Callbacks.{put}
use amf_cdac.Gmm.Handlers.{
  fail, after, Stopping, is_off, stopping_hangs, stopping_panics, when_stopped,
}

-- Another part keeps a property of the world; the copy of a context from another AMF need not.
abbrev pub Rely : (World → Type 0) → Question → World → World → Type 0
Rely P (copies_ue_context v) w w' = false ≡ true
Rely P _ w w' = P w → P w'

-- The property holds where the tree returns without an error, if the other parts keep it and no
-- context is copied.
unfoldable pub Ensures : (World → Type 0) → Proc Bool → Type 0
Ensures P (returns false w) = P w
Ensures P (returns true w) = Unit
Ensures P panics = Unit
Ensures P hangs = Unit
Ensures P (sends e args w next) = (failed : Bool) (w' : World) → Ensures P (next failed w')
Ensures P (sends_to s e args w next) = (failed : Bool) (w' : World) → Ensures P (next failed w')
Ensures P (asks q w next) = (r : Reply q) (w' : World) → Rely P q w w' → Ensures P (next r w')

pub fails-Ensures : (P : World → Type 0) (p : Proc Unit) → Ensures P (after p fail)
unfolding Ensures bind
fails-Ensures P (returns a w) = tt
fails-Ensures P panics = tt
fails-Ensures P hangs = tt
fails-Ensures P (sends e args w next) = λ f w'. fails-Ensures P (next f w')
fails-Ensures P (sends_to s e args w next) = λ f w'. fails-Ensures P (next f w')
fails-Ensures P (asks q w next) = λ r w' rely. fails-Ensures P (next r w')

pub stopped-Ensures :
    (P : World → Type 0) (s : Stopping) (p : Proc Bool) → Ensures P p → Ensures P (when_stopped s p)
unfolding Ensures
stopped-Ensures P is_off p h = h
stopped-Ensures P stopping_hangs p h = tt
stopped-Ensures P stopping_panics p h = tt

-- A UE whose message failed its integrity check has no security context.
abbrev pub IsDistrusted : AmfUe → Type 0
IsDistrusted ue = ue.mac_failed ≡ true → ue.security_context_available ≡ false

put_self : (w : World) (u : ℕ) (ue : AmfUe) → (put w u ue).ues u ≡ ue
put_self w u ue = elim (Bool-cases (nat_beq u u)) [
  | inl e ↦ rw e refl
  | inr e ↦ absurd (ground arith)
]

pub put-At : (Q : AmfUe → Type 0) (w : World) (u : ℕ) (ue : AmfUe) → Q ue → Q ((put w u ue).ues u)
put-At Q w u ue q = subst Q (sym (put_self w u ue)) q
