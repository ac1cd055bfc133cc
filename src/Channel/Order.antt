-- ===== src/Channel/Order.antt =====
-- The order in which the messages of a UE are handled (context/transaction.go).
use amf_cdac.Base.{
  ℕ, ◌≤◌, ◌≡◌, refl, sym, subst, ap, ◌∙◌, inl, inr, String, List, [], ◌∷◌, ◌++◌, ◌==◌, string_eq,
  length, arith, Bool-cases, Option-cases,
}
use amf_cdac.Channel.{
  Message, nas_msg, ngap_msg, sbi_msg, config_msg, other_msg, Call, EventChannel, Move,
  submit_message, Outcome, moved, waits, panics, logged, call, handle, handle_first, take_first,
}

-- The messages that have a handler's type, in their order.
abbrev pub known : List Message → List Message
known [] = []
known (other_msg n ∷ ms) = known ms
known (m ∷ ms) = m ∷ known ms

abbrev pub handled : List Call → List Message
handled [] = []
handled (c ∷ cs) = c.message ∷ handled cs

-- The message that a move submits.
abbrev pub submitted : Move → List Message
submitted (submit_message m) = m ∷ []
submitted _ = []

pub append_assoc : {A : Type 0} (xs ys zs : List A) → (xs ++ ys) ++ zs ≡ xs ++ (ys ++ zs)
append_assoc [] ys zs = refl
append_assoc (x ∷ xs) ys zs = ap (◌∷◌ x) (append_assoc xs ys zs)

pub known-append : (xs ys : List Message) → known (xs ++ ys) ≡ known xs ++ known ys
known-append [] ys = refl
known-append (nas_msg a b c ∷ xs) ys = ap (◌∷◌ (nas_msg a b c)) (known-append xs ys)
known-append (ngap_msg p ∷ xs) ys = ap (◌∷◌ (ngap_msg p)) (known-append xs ys)
known-append (sbi_msg i u m r ∷ xs) ys = ap (◌∷◌ (sbi_msg i u m r)) (known-append xs ys)
known-append (config_msg s t d m ∷ xs) ys = ap (◌∷◌ (config_msg s t d m)) (known-append xs ys)
known-append (other_msg n ∷ xs) ys = known-append xs ys

handled-append : (cs ds : List Call) → handled (cs ++ ds) ≡ handled cs ++ handled ds
handled-append [] ds = refl
handled-append (c ∷ cs) ds = ap (◌∷◌ c.message) (handled-append cs ds)

-- What was handled and what is waiting, in this order.
abbrev pub all_of : EventChannel → List Message
all_of tx = handled tx.calls ++ known tx.messages

-- The channel after a move that is made has the property.
abbrev pub After : (EventChannel → Type 0) → Outcome → Type 0
After P (moved tx) = P tx
After P waits = Unit
After P panics = Unit

-- The channel after the first message was taken from those waiting and handled.
abbrev Handled : EventChannel → Message → EventChannel → Type 0
Handled tx m t =
    (all_of t ≡ handled tx.calls ++ known (m ∷ tx.messages))
    × (t.messages ≡ tx.messages)
    × (t.events ≡ tx.events)

-- The call of a handler is noted last.
called_last :
    (cs : List Call) (c : Call) (waiting : List Message)
    → handled (cs ++ c ∷ []) ++ waiting ≡ handled cs ++ (c.message ∷ waiting)
called_last cs c waiting =
    ap (λ ms. ms ++ waiting) (handled-append cs (c ∷ []))
    ∙ append_assoc (handled cs) (c.message ∷ []) waiting

abbrev noted : EventChannel → ℕ → Message → Call
noted tx h m = record { handler = h; ue = tx.amf_ue; message = m }

module _ (sbi_result : ℕ → Message → ℕ) where
  handle-Handled : (tx : EventChannel) (m : Message) → After (Handled tx m) (handle sbi_result tx m)
  unfolding handle
  handle-Handled tx (nas_msg a b c) = elim (Option-cases tx.nas_handler) [
    | inl e ↦ rw (call, e) tt
    | inr (h, e) ↦
        rw (call, e)
          (called_last tx.calls (noted tx h (nas_msg a b c)) (known tx.messages), refl, refl)
  ]
  handle-Handled tx (ngap_msg p) = elim (Option-cases tx.ngap_handler) [
    | inl e ↦ rw (call, e) tt
    | inr (h, e) ↦
        rw (call, e)
          (called_last tx.calls (noted tx h (ngap_msg p)) (known tx.messages), refl, refl)
  ]
  handle-Handled tx (sbi_msg i u m r) = elim (Option-cases tx.sbi_handler) [
    | inl e ↦ rw (call, e) tt
    | inr (h, e) ↦
        rw (call, e)
          (called_last tx.calls (noted tx h (sbi_msg i u m r)) (known tx.messages), refl, refl)
  ]
  handle-Handled tx (config_msg s t d m) = elim (Option-cases tx.config_handler) [
    | inl e ↦ rw (call, e) tt
    | inr (h, e) ↦
        rw (call, e)
          (called_last tx.calls (noted tx h (config_msg s t d m)) (known tx.messages), refl, refl)
  ]
  handle-Handled tx (other_msg n) = (refl, refl, refl)

  -- After these messages were submitted: those handled and those waiting are the known ones of
  -- them, in their order, and neither channel holds more than ten.
  abbrev pub IsOrdered : List Message → EventChannel → Type 0
  IsOrdered ms tx = (all_of tx ≡ known ms) × (length tx.messages ≤ 10) × (length tx.events ≤ 10)

  After-wider :
      (P Q : EventChannel → Type 0) (o : Outcome)
      → ((t : EventChannel) → P t → Q t)
      → After P o
      → After Q o
  After-wider P Q (moved t) f h = f t h
  After-wider P Q waits f h = tt
  After-wider P Q panics f h = tt

  pub logged-After :
      (P : EventChannel → Type 0) (tx next : EventChannel) → P next → After P (logged tx next)
  logged-After P tx next h = elim (Option-cases tx.amf_ue) [
    | inl e ↦ rw (logged, e) tt
    | inr (u, e) ↦ rw (logged, e) h
  ]

  pub first-IsOrdered :
      (ms : List Message) (tx : EventChannel) (waiting : List Message)
      → tx.messages ≡ waiting
      → IsOrdered ms tx
      → After (IsOrdered ms) (handle_first sbi_result tx waiting)
  first-IsOrdered ms tx [] e h = tt
  first-IsOrdered ms tx (m ∷ rest) e h =
      let tx' = record tx { messages = rest } in
      let ordered = subst (λ x. handled tx.calls ++ known x ≡ known ms) e h.0 in
      let short = subst (λ x. length x ≤ 10) e h.1 in
      After-wider (Handled tx' m) (IsOrdered ms) (handle sbi_result tx' m)
        (λ t (all, same, events). (
          all ∙ ordered,
          subst (λ x. length x ≤ 10) (sym same) (omega (arith, short)),
          subst (λ x. length x ≤ 10) (sym events) h.2,
        ))
        (handle-Handled tx' m)

  pub event-IsOrdered :
      (ms : List Message) (tx : EventChannel) (waiting : List String)
      → tx.events ≡ waiting
      → IsOrdered ms tx
      → After (IsOrdered ms) (take_first sbi_result tx waiting)
  event-IsOrdered ms tx [] e h = tt
  event-IsOrdered ms tx (x ∷ rest) e h =
      let short = subst (λ y. length y ≤ 10) e h.2 in
      elim (Bool-cases (x == "quit")) [
        | inl f ↦ rw (take_first, f) (h.0, h.1, omega (arith, short))
        | inr f ↦ rw (take_first, f) (h.0, h.1, omega (arith, short))
      ]
