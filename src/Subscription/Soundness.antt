-- ===== src/Subscription/Soundness.antt =====
-- Storing and deleting status subscriptions keeps the state sound (context/context.go).
use amf_cdac.Base.{
  ℕ, ◌≡◌, ◌≢◌, inl, inr, refl, sym, subst, ap, ◌∙◌, some, ◌∷◌, arith, ◌<◌, ◌^◌, ◌==◌, Bool-cases,
  load, delete, load-store, load-delete, list_eq, nat_eq, list_beq_iff, itoa, nat_beq, nat_beq_iff,
  pos,
}
use amf_cdac.Types.{Bytes}
use amf_cdac.Context.State.{allocated, freed}
use amf_cdac.Subscription.{served_guami_eq, SubscriptionData, Stored, by_value, Subscriptions}
use amf_cdac.Subscription.Store.{calls, Inserted, inserted}
use amf_cdac.Subscription.Promise.{Kept, IsSound}

Kept-allocated :
    (s t : Subscriptions) (i : ℕ) (k : Bytes) (st : Stored)
    → calls t ≡ allocated i ∷ calls s
    → Kept s k st
    → Kept t k st
Kept-allocated s t i k st called (value, j, e, h, used) = (value, j, e, h, rw called (ground arith))

Kept-freed :
    (s t : Subscriptions) (i : ℕ) (k : Bytes) (st : Stored)
    → calls t ≡ freed i ∷ calls s
    → i < 2 ^ 31
    → itoa (pos i) ≢ k
    → Kept s k st
    → Kept t k st
Kept-freed s t i k st called hi other (value, j, e, h, used) = (
  value,
  j,
  e,
  h,
  rw called (elim (Bool-cases (nat_beq j i)) [
    | inl same ↦ absurd (other (ap (λ n. itoa (pos n)) (sym ((nat_beq_iff j i).0 same)) ∙ sym e))
    | inr differ ↦ rw (differ, used) refl
  ]),
)

pub Inserted-IsSound :
    (s t : Subscriptions) (i : ℕ) (d : SubscriptionData)
    → IsSound s
    → i < 2 ^ 31
    → Inserted s (itoa (pos i)) i d t
    → IsSound t
Inserted-IsSound s t i d sound h (inserted stored called served) k st l =
    let l' = subst (λ m. load m k ≡ some st) stored l in
    let l2 = sym (load-store s.amf_status_subscriptions (itoa (pos i)) k (by_value d)) ∙ l' in
    elim (Bool-cases (itoa (pos i) == k)) [
      | inl e ↦
          let l3 = rw e at l2 in
          (
            (d, ground arith),
            i,
            sym ((list_beq_iff (itoa (pos i)) k).0 e),
            h,
            rw called (ground arith),
          )
      | inr e ↦ Kept-allocated s t i k st called (sound k st (rw e at l2))
    ]

pub deleted-IsSound :
    (s t : Subscriptions) (i : ℕ)
    → IsSound s
    → i < 2 ^ 31
    → t.amf_status_subscriptions ≡ delete s.amf_status_subscriptions (itoa (pos i))
    → calls t ≡ freed i ∷ calls s
    → IsSound t
deleted-IsSound s t i sound h stored called k st l =
    let l' = subst (λ m. load m k ≡ some st) stored l in
    let l2 = sym (load-delete s.amf_status_subscriptions (itoa (pos i)) k) ∙ l' in
    elim (Bool-cases (itoa (pos i) == k)) [
      | inl e ↦ absurd (let l3 = rw e at l2 in ground arith)
      | inr e ↦
          Kept-freed s t i k st called h
            (λ same. absurd (let e2 = (list_beq_iff (itoa (pos i)) k).1 same in ground arith))
            (sound k st (rw e at l2))
    ]
