-- ===== src/Channel/History.antt =====
-- Runs of the event channel (context/transaction.go).
use amf_cdac.Base.{
  ℕ, String, ◌≡◌, refl, sym, subst, ap, ◌∙◌, inl, inr, Bool, true, false, List, [], ◌∷◌, ◌++◌,
  string_eq, if◌then◌else◌, length, length-append, ltb, arith, Bool-cases, Option-cases,
}
use text.Mathlib.TextEquality.{eq_iff}
use amf_cdac.Channel.{
  Message, EventChannel, new_event_channel, Move, submit_message, send_event, update_nas_handler,
  update_ngap_handler, update_sbi_handler, update_config_handler, take_message, take_event, Outcome,
  moved, waits, step,
}
use amf_cdac.Channel.Order.{
  known, handled, submitted, append_assoc, known-append, After, IsOrdered, logged-After,
  first-IsOrdered, event-IsOrdered,
}

append-nil : {A : Type 0} (xs : List A) → xs ++ [] ≡ xs
append-nil [] = refl
append-nil (x ∷ xs) = ap (◌∷◌ x) (append-nil xs)

when-After :
    (P : EventChannel → Type 0) (b : Bool) (o : Outcome)
    → After P o
    → After P (if b then o else waits)
when-After P true o h = h
when-After P false o h = tt

unless-After :
    (P : EventChannel → Type 0) (b : Bool) (o : Outcome)
    → b ≡ false
    → After P (if b then o else waits)
unless-After P true o h = absurd (cc)
unless-After P false o h = tt

module _ (sbi_result : ℕ → Message → ℕ) where
  -- What moves that are made lead to, with the messages submitted by them.
  pub data Reach (start : EventChannel) : List Message → EventChannel → Type 0 where
    begins : Reach start [] start
    goes :
        {ms : List Message} {tx t : EventChannel} (mv : Move)
        → Reach start ms tx
        → step sbi_result tx mv ≡ moved t
        → Reach start (ms ++ submitted mv) t

  abbrev J : List Message → EventChannel → Type 0
  J = IsOrdered sbi_result

  quietly : (ms : List Message) (o : Outcome) → After (J ms) o → After (J (ms ++ [])) o
  quietly ms o h = subst (λ x. After (J x) o) (sym (append-nil ms)) h

  submit-IsOrdered :
      (ms : List Message) (tx : EventChannel) (m : Message)
      → J ms tx
      → After (J (ms ++ m ∷ [])) (step sbi_result tx (submit_message m))
  unfolding step
  submit-IsOrdered ms tx m h = elim (Bool-cases (ltb (length tx.messages) 10)) [
    | inl e ↦
        rw (After, step, e)
          (
            ap (λ x. handled tx.calls ++ x) (known-append tx.messages (m ∷ []))
                ∙ (sym (append_assoc (handled tx.calls) (known tx.messages) (known (m ∷ [])))
                    ∙ (ap (λ x. x ++ known (m ∷ [])) h.0 ∙ sym (known-append ms (m ∷ [])))),
            ground (arith, length-append tx.messages (m ∷ [])),
            h.2,
          )
    | inr e ↦ rw (After, step, e) tt
  ]

  step-IsOrdered :
      (ms : List Message) (tx : EventChannel) (mv : Move)
      → J ms tx
      → After (J (ms ++ submitted mv)) (step sbi_result tx mv)
  unfolding step
  step-IsOrdered ms tx (submit_message m) h = submit-IsOrdered ms tx m h
  step-IsOrdered ms tx (send_event e) h =
      quietly ms _ (elim (Bool-cases (ltb (length tx.events) 10)) [
        | inl f ↦ rw (After, f) (h.0, h.1, ground (arith, length-append tx.events (e ∷ [])))
        | inr f ↦ rw (After, f) tt
      ])
  step-IsOrdered ms tx (update_nas_handler k) h =
      quietly ms _ (logged-After sbi_result (J ms) tx _ h)
  step-IsOrdered ms tx (update_ngap_handler k) h =
      quietly ms _ (logged-After sbi_result (J ms) tx _ h)
  step-IsOrdered ms tx (update_config_handler k) h =
      quietly ms _ (logged-After sbi_result (J ms) tx _ h)
  step-IsOrdered ms tx (update_sbi_handler k) h =
      quietly ms _
        (elim (Option-cases tx.amf_ue) [ inl e ↦ rw (After, e) h | inr (u, e) ↦ rw (After, e) h ])
  step-IsOrdered ms tx take_message h =
      quietly ms _
        (when-After (J ms) tx.running _ (first-IsOrdered sbi_result ms tx tx.messages refl h))
  step-IsOrdered ms tx take_event h =
      quietly ms _
        (when-After (J ms) tx.running _ (event-IsOrdered sbi_result ms tx tx.events refl h))

  -- In every run of a new event channel, the messages handled so far, followed by those that wait,
  -- are the messages submitted, less those of no known type, in the order in which they were
  -- submitted; and no more than ten messages and ten events wait.
  pub Reach-IsOrdered :
      (u : ℕ) (ms : List Message) (tx : EventChannel)
      → Reach (new_event_channel u) ms tx
      → IsOrdered sbi_result ms tx
  unfolding new_event_channel
  Reach-IsOrdered u [] tx begins = (refl, omega arith, omega arith)
  Reach-IsOrdered u _ t (goes {ms} {tx} mv reach e) =
      subst (After (J (ms ++ submitted mv))) e
        (step-IsOrdered ms tx mv (Reach-IsOrdered u ms tx reach))

  step-silent :
      (tx : EventChannel) (mv : Move)
      → tx.running ≡ false
      → After
          (λ t. (t.running ≡ false) × (t.calls ≡ tx.calls) × (t.results ≡ tx.results))
          (step sbi_result tx mv)
  unfolding step
  step-silent tx (submit_message m) h =
      when-After _ (ltb (length tx.messages) 10) (moved _) (h, refl, refl)
  step-silent tx (send_event e) h =
      when-After _ (ltb (length tx.events) 10) (moved _) (h, refl, refl)
  step-silent tx (update_nas_handler k) h = logged-After sbi_result _ tx _ (h, refl, refl)
  step-silent tx (update_ngap_handler k) h = logged-After sbi_result _ tx _ (h, refl, refl)
  step-silent tx (update_config_handler k) h = logged-After sbi_result _ tx _ (h, refl, refl)
  step-silent tx (update_sbi_handler k) h = elim (Option-cases tx.amf_ue) [
    | inl e ↦ rw (After, e) (h, refl, refl)
    | inr (u, e) ↦ rw (After, e) (h, refl, refl)
  ]
  step-silent tx take_message h = unless-After _ tx.running _ h
  step-silent tx take_event h = unless-After _ tx.running _ h

  run-silent :
      (tx t : EventChannel) (ms : List Message)
      → tx.running ≡ false
      → Reach tx ms t
      → (t.running ≡ false) × (t.calls ≡ tx.calls) × (t.results ≡ tx.results)
  run-silent tx _ _ h begins = (h, refl, refl)
  run-silent tx t _ h (goes {tx = mid} mv reach e) =
      let before = run-silent tx mid _ h reach in
      let after =
        subst (After (λ x. (x.running ≡ false) × (x.calls ≡ mid.calls) × (x.results ≡ mid.results)))
          e (step-silent mid mv before.0) in
      (after.0, after.1 ∙ before.1, after.2 ∙ before.2)

  quit-stops :
      (tx t : EventChannel) (rest : List String)
      → tx.events ≡ "quit" ∷ rest
      → step sbi_result tx take_event ≡ moved t
      → (t.running ≡ false) × (t.calls ≡ tx.calls) × (t.results ≡ tx.results)
  unfolding step
  quit-stops tx t rest q e = ground (arith, eq_iff "quit" "quit")

  -- When the goroutine takes "quit" from its channel it returns: from then on, whatever moves are
  -- made and whatever messages are submitted, it takes no message, calls no handler and sends no
  -- result any more.
  pub quit-silent :
      (tx t t' : EventChannel) (rest : List String) (ms : List Message)
      → tx.events ≡ "quit" ∷ rest
      → step sbi_result tx take_event ≡ moved t
      → Reach t ms t'
      → (t'.running ≡ false) × (t'.calls ≡ tx.calls) × (t'.results ≡ tx.results)
  quit-silent tx t t' rest ms q e reach =
      let quit = quit-stops tx t rest q e in
      let later = run-silent t t' ms quit.0 reach in (later.0, later.1 ∙ quit.1, later.2 ∙ quit.2)
