-- ===== src/Gmm/Transitions/Paths.antt =====
-- The sequences of events that the table of transitions allows (gmm/init.go).
use amf_cdac.Base.{◌≡◌, refl, ◌⊎◌, inl, inr, some, List, [], ◌∷◌, ◌++◌, arith}
use amf_cdac.Types.{
  GmmState, deregistered, deregistration_initiated, authentication, security_mode, context_setup,
  registered,
}
use amf_cdac.Gmm.Transitions.{
  Event, gmm_message, start_auth, auth_success, auth_fail, security_mode_success,
  security_mode_fail, security_skip, context_setup_success, context_setup_fail, init_deregistration,
  nw_initiated_deregistration, deregistration_accept, target,
}

-- A change of a UE's state: by an event, or without one, where the code sets the state: to
-- Deregistered (an initial context that fails, ngap/handler.go, SetDeregisteredState, gmm/sm.go, and
-- the last expiry of T3522, gmm/message/send.go), or to Registered (the last expiry of T3550,
-- gmm/message/send.go, and the deregistration by the network in ContextSetup, gmm/sm.go).
pub data Change : Type 0 where
  by : Event → Change
  is_dropped is_promoted : Change

-- The changes that lead from Deregistered to a state, the newest first.
pub data Trail : List Change → GmmState → Type 0 where
  begin : Trail [] deregistered
  next :
      {es : List Change} {s t : GmmState} (e : Event)
      → Trail es s
      → target s e ≡ some t
      → Trail (by e ∷ es) t
  drop : {es : List Change} {s : GmmState} → Trail es s → Trail (is_dropped ∷ es) deregistered
  promote : {es : List Change} {s : GmmState} → Trail es s → Trail (is_promoted ∷ es) registered

-- The first list is a part of the second one, in its order.
pub data Sub : List Change → List Change → Type 0 where
  none_left : {ys : List Change} → Sub [] ys
  skip : {xs ys : List Change} {y : Change} → Sub xs ys → Sub xs (y ∷ ys)
  keep : {xs ys : List Change} {x : Change} → Sub xs ys → Sub (x ∷ xs) (x ∷ ys)

-- Authentication was started and succeeded, security mode was completed or skipped, and then came
-- the events of `later`.
abbrev pub Secured : List Change → List Change → Type 0
Secured later es =
    Sub (later ++ by security_mode_success ∷ by auth_success ∷ by start_auth ∷ []) es
    ⊎ Sub (later ++ by security_skip ∷ by auth_success ∷ by start_auth ∷ []) es

-- What has happened, in this order, before a state.
abbrev pub Passed : GmmState → List Change → Type 0
Passed deregistered es = Unit
Passed authentication es = Sub (by start_auth ∷ []) es
Passed security_mode es = Sub (by auth_success ∷ by start_auth ∷ []) es
Passed context_setup es = Secured [] es
Passed registered es = Secured (by context_setup_success ∷ []) es
Passed deregistration_initiated es = Secured (by context_setup_success ∷ []) es

skip_either :
    {xs ys es : List Change} {e : Change}
    → Sub xs es ⊎ Sub ys es
    → Sub xs (e ∷ es) ⊎ Sub ys (e ∷ es)
skip_either (inl s) = inl (skip s)
skip_either (inr s) = inr (skip s)

keep_either :
    {xs ys es : List Change} {e : Change}
    → Sub xs es ⊎ Sub ys es
    → Sub (e ∷ xs) (e ∷ es) ⊎ Sub (e ∷ ys) (e ∷ es)
keep_either (inl s) = inl (keep s)
keep_either (inr s) = inr (keep s)

-- The state that a row leads to, for the rows of each state.
step-Passed :
    (s t : GmmState) (e : Event) (es : List Change)
    → target s e ≡ some t
    → Passed s es
    → Passed t (by e ∷ es)
unfolding target
step-Passed s deregistered e es h p = tt
step-Passed deregistered authentication start_auth es h p = keep none_left
step-Passed registered authentication start_auth es h p = keep none_left
step-Passed authentication authentication e es h p = skip p
step-Passed authentication security_mode auth_success es h p = keep p
step-Passed security_mode security_mode e es h p = skip p
step-Passed security_mode context_setup security_mode_success es h p = inl (keep p)
step-Passed security_mode context_setup security_skip es h p = inr (keep p)
step-Passed context_setup context_setup e es h p = skip_either p
step-Passed context_setup registered context_setup_success es h p = keep_either p
step-Passed registered registered e es h p = skip_either p
step-Passed registered deregistration_initiated e es h p = skip_either p
step-Passed deregistration_initiated deregistration_initiated e es h p = skip_either p
step-Passed _ _ _ es h p = absurd (ground arith)

-- In whatever order events and set states come, a UE that started in Deregistered is in a state only
-- after the events that earn it, in their order: in Registered, after authentication was started
-- and succeeded, security mode was completed or skipped, and context setup succeeded. The one
-- exception is a UE that was once set to Registered without an event, by the last expiry of T3550
-- or by a deregistration by the network in ContextSetup.
pub Trail-Passed :
    (es : List Change) (s : GmmState) → Trail es s → Passed s es ⊎ Sub (is_promoted ∷ []) es
Trail-Passed _ _ begin = inl tt
Trail-Passed _ _ (next {es = es} {s = s} {t = t} e p h) = elim (Trail-Passed es s p) [
  | inl q ↦ inl (step-Passed s t e es h q)
  | inr q ↦ inr (skip q)
]
Trail-Passed _ _ (drop p) = inl tt
Trail-Passed _ _ (promote p) = inr (keep none_left)

-- No state is a dead end: from every state at most two events of the table lead to Deregistered.
pub target-returns :
    (s : GmmState)
    → (e : Event) × (t : GmmState) × (target s e ≡ some t)
      × ((t ≡ deregistered) ⊎ ((f : Event) × (target t f ≡ some deregistered)))
unfolding target
target-returns deregistered = (gmm_message, deregistered, refl, inl refl)
target-returns authentication = (auth_fail, deregistered, refl, inl refl)
target-returns security_mode = (security_mode_fail, deregistered, refl, inl refl)
target-returns context_setup = (context_setup_fail, deregistered, refl, inl refl)
target-returns registered =
    (init_deregistration, deregistration_initiated, refl, inr (deregistration_accept, refl))
target-returns deregistration_initiated = (deregistration_accept, deregistered, refl, inl refl)

-- Deregistration by the network is a transition of the state Registered only, and it leads to
-- DeregistrationInitiated.
pub target-nw_initiated :
    (s t : GmmState)
    → target s nw_initiated_deregistration ≡ some t
    → (s ≡ registered) × (t ≡ deregistration_initiated)
unfolding target
target-nw_initiated registered t h = (refl, cc)
target-nw_initiated _ t h = cc
