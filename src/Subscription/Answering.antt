-- ===== src/Subscription/Answering.antt =====
-- The answers to single requests on status subscriptions (producer/subscription.go).
use amf_cdac.Base.{
  ℕ, ◌≡◌, ◌≢◌, inl, inr, refl, subst, ap, ◌∙◌, false, Option, none, some, [], ◌∷◌, ◌++◌, arith, ◌<◌,
  ◌^◌, ◌==◌, Bool-cases, Option-cases, List-cases, load, delete, load-store, load-delete, list_eq,
  nat_eq, itoa, pos,
}
use amf_cdac.Types.{Bytes}
use amf_cdac.Context.Ids.{in_use}
use amf_cdac.Subscription.{
  served_guami_eq, SubscriptionData, Stored, by_value, Subscriptions, StatusIds, missing, found,
  asserted, find_amf_status_subscription, delete_amf_status_subscription,
  new_amf_status_subscription,
}
use amf_cdac.Subscription.Store.{
  calls, next_id, Inserted, inserted, new-Inserted, itoa-injective, to_int32-small,
}
use amf_cdac.Subscription.Status.{
  Response, created, no_content, problem, Answer, answers, granted, subscribe, subscribed,
  unsubscribe,
}
use amf_cdac.Subscription.Promise.{
  Request, subscribing, data_of, view, Replaced, Promised, refuses, grants, leaves_unnamed, IsSound,
  IsSupplied,
}
use amf_cdac.Subscription.Soundness.{Inserted-IsSound}

-- The answer to a request keeps the promise from a state that is sound, and leaves such a state.
abbrev pub KeepsPromise : Subscriptions → Request → Answer → Type 0
KeepsPromise s q a =
    (r : Response) × (t : Subscriptions) × (a ≡ answers r t)
    × IsSound t
    × (t.served_guami_list ≡ s.served_guami_list)
    × Promised s.served_guami_list (view s) q r (view t)

view-Inserted :
    (s t : Subscriptions) (k : Bytes) (i : ℕ) (d : SubscriptionData)
    → Inserted s k i d t
    → Replaced (view s) k (some d) (view t)
view-Inserted s t k i d (inserted stored called served) j =
    ap data_of (ap (λ m. load m j) stored ∙ load-store s.amf_status_subscriptions k j (by_value d))
    ∙ (elim (Bool-cases (k == j)) [ inl e ↦ rw e refl | inr e ↦ rw e refl ])

keeps_served :
    (s t : Subscriptions) (k : Bytes) (i : ℕ) (d : SubscriptionData)
    → Inserted s k i d t
    → t.served_guami_list ≡ s.served_guami_list
keeps_served s t k i d (inserted stored called served) = served

pub view-deleted :
    (s t : Subscriptions) (k : Bytes)
    → t.amf_status_subscriptions ≡ delete s.amf_status_subscriptions k
    → Replaced (view s) k none (view t)
view-deleted s t k stored j =
    ap data_of (ap (λ m. load m j) stored ∙ load-delete s.amf_status_subscriptions k j)
    ∙ (elim (Bool-cases (k == j)) [ inl e ↦ rw e refl | inr e ↦ rw e refl ])

-- An identifier that is not in use names no subscription.
unnamed :
    (s : Subscriptions) (i : ℕ)
    → IsSound s
    → i < 2 ^ 31
    → in_use i (calls s) ≡ false
    → view s (itoa (pos i)) ≡ none
unnamed s i sound h free = elim (Option-cases (load s.amf_status_subscriptions (itoa (pos i)))) [
  | inl e ↦ ap data_of e
  | inr (st, e) ↦
      let (value, j, same, hj, used) = sound (itoa (pos i)) st e in
      absurd (let eq = itoa-injective i j h hj same in ground arith)
]

new-none :
    (gen : StatusIds) (s : Subscriptions) (d : SubscriptionData)
    → next_id gen s ≡ none
    → new_amf_status_subscription gen s d ≡ ([], s)
unfolding new_amf_status_subscription
new-none gen s d h = elim (Bool-cases s.enable_db_store) [
  | inl e ↦ let k = rw e at h in ground arith
  | inr e ↦ let k = rw e at h in ground arith
]

subscribe-refuses :
    (gen : StatusIds) (s : Subscriptions) (d : SubscriptionData)
    → granted d.guami_list s.served_guami_list ≡ []
    → subscribe gen s d ≡ answers (problem 403 "UNSPECIFIED") s
unfolding subscribe
subscribe-refuses gen s d e = rw e refl

pub subscribe-created :
    (gen : StatusIds) (s t : Subscriptions) (d : SubscriptionData) (k : Bytes)
    → granted d.guami_list s.served_guami_list ≢ []
    → new_amf_status_subscription gen s d ≡ (k, t)
    → subscribe gen s d
      ≡ answers
          (created
            (d.amf_status_uri ++ (47 ∷ k))
            (record { guami_list = granted d.guami_list s.served_guami_list; amf_status_uri = [] }))
          t
unfolding subscribe subscribed
subscribe-created gen s t d k some_granted new =
    elim (List-cases (granted d.guami_list s.served_guami_list)) [
      | inl e ↦ absurd (some_granted e)
      | inr (g, gs, e) ↦ rw (e, new) refl
    ]

pub subscribe-KeepsPromise :
    (gen : StatusIds) (s : Subscriptions) (d : SubscriptionData)
    → IsSupplied gen
    → IsSound s
    → KeepsPromise s (subscribing d) (subscribe gen s d)
subscribe-KeepsPromise gen s d supplied sound =
    elim (List-cases (granted d.guami_list s.served_guami_list)) [
      | inl e ↦ (_, s, subscribe-refuses gen s d e, sound, refl, refuses e (λ k. refl))
      | inr (g, gs, e) ↦
          let ne : granted d.guami_list s.served_guami_list ≢ [] = λ e0. ground arith in
          elim (Option-cases (next_id gen s)) [
            | inl out ↦ (
              _,
              s,
              subscribe-created gen s s d [] ne (new-none gen s d out),
              sound,
              refl,
              leaves_unnamed ne (λ k. refl),
            )
            | inr (i, next) ↦
                let h = supplied.is_int32 s i next in
                let (t, new, ins) = new-Inserted gen s d i next in
                let ins' = subst (λ z. Inserted s (itoa z) i d t) (to_int32-small i h) ins in
                let new' =
                  subst (λ z. new_amf_status_subscription gen s d ≡ (itoa z, t))
                    (to_int32-small i h) new in
                (
                  _,
                  t,
                  subscribe-created gen s t d (itoa (pos i)) ne new',
                  Inserted-IsSound s t i d sound h ins',
                  keeps_served s t (itoa (pos i)) i d ins',
                  grants (itoa (pos i)) ne (unnamed s i sound h (supplied.is_fresh s i next))
                      (view-Inserted s t (itoa (pos i)) i d ins'),
                )
          ]
    ]

-- The answers to the end of a subscription, by what is found, and what is found when it is not a
-- pointer.
pub unsubscribe-missing :
    (s : Subscriptions) (k : Bytes)
    → find_amf_status_subscription s k ≡ missing
    → unsubscribe s k ≡ answers (problem 404 "SUBSCRIPTION_NOT_FOUND") s
unfolding unsubscribe
unsubscribe-missing s k e = rw (unsubscribe, e) refl

pub unsubscribe-found :
    (s : Subscriptions) (k : Bytes) (d : SubscriptionData)
    → find_amf_status_subscription s k ≡ found d
    → unsubscribe s k ≡ answers no_content (delete_amf_status_subscription s k)
unfolding unsubscribe
unsubscribe-found s k d e = rw (unsubscribe, e) refl

pub find-load :
    (s : Subscriptions) (k : Bytes) (o : Option Stored)
    → load s.amf_status_subscriptions k ≡ o
    → find_amf_status_subscription s k ≡ asserted o
unfolding find_amf_status_subscription
find-load s k o e = rw e refl
