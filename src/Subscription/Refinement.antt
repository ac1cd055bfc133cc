-- ===== src/Subscription/Refinement.antt =====
-- The requests on status subscriptions implement the abstract store (producer/subscription.go).
use amf_cdac.Base.{
  ◌≡◌, inl, inr, refl, subst, ap, ◌∙◌, none, some, List, [], ◌∷◌, Option-cases, load, list_eq,
  nat_eq, itoa, pos,
}
use amf_cdac.Subscription.{
  ServedGuami, served_guami_eq, by_value, Subscriptions, StatusIds, delete_amf_status_subscription,
}
use amf_cdac.Subscription.Store.{delete-frees}
use amf_cdac.Subscription.Status.{Response, no_content, problem, answers}
use amf_cdac.Subscription.Promise.{
  Request, subscribing, unsubscribing, serve, View, data_of, view, Promised, knows_not, ends,
  IsSound, IsSupplied,
}
use amf_cdac.Subscription.Soundness.{deleted-IsSound}
use amf_cdac.Subscription.Answering.{
  KeepsPromise, view-deleted, subscribe-KeepsPromise, unsubscribe-missing, unsubscribe-found,
  find-load,
}

-- Each request is answered as the abstract store promises.
pub serve-KeepsPromise :
    (gen : StatusIds) (s : Subscriptions) (q : Request)
    → IsSupplied gen
    → IsSound s
    → KeepsPromise s q (serve gen s q)
unfolding serve
serve-KeepsPromise gen s (subscribing d) supplied sound =
    subscribe-KeepsPromise gen s d supplied sound
serve-KeepsPromise gen s (unsubscribing k) supplied sound =
    elim (Option-cases (load s.amf_status_subscriptions k)) [
      | inl e ↦ (
        problem 404 "SUBSCRIPTION_NOT_FOUND",
        s,
        unsubscribe-missing s k (find-load s k none e),
        sound,
        refl,
        knows_not (ap data_of e) (λ j. refl),
      )
      | inr (st, e) ↦
          let ((d, value), i, name, h, used) = sound k st e in
          let e2 = e ∙ ap (λ x. some x) value in
          let (stored, called, same) = delete-frees s i h in
          (
            no_content,
            delete_amf_status_subscription s k,
            unsubscribe-found s k d (find-load s k (some (by_value d)) e2),
            rw name (
                deleted-IsSound s (delete_amf_status_subscription s (itoa (pos i))) i sound h stored
                  called),
            rw name same,
            ends d (ap data_of e2) (
                rw name (
                  view-deleted s (delete_amf_status_subscription s (itoa (pos i))) (itoa (pos i))
                    stored)),
          )
    ]

-- A list of requests is served one after the other, and each is answered.
pub data Runs (gen : StatusIds)
    : Subscriptions → List Request → List Response → Subscriptions → Type 0 where
  idle : {s : Subscriptions} → Runs gen s [] [] s
  then_serves :
      {s t u : Subscriptions} {q : Request} {r : Response} {qs : List Request} {rs : List Response}
      → serve gen s q ≡ answers r t
      → Runs gen t qs rs u
      → Runs gen s (q ∷ qs) (r ∷ rs) u

-- The abstract store may answer the requests so.
pub data Promises (served : List ServedGuami)
    : View → List Request → List Response → View → Type 0 where
  at_rest : {v : View} → Promises served v [] [] v
  then_promised :
      {v w x : View} {q : Request} {r : Response} {qs : List Request} {rs : List Response}
      → Promised served v q r w
      → Promises served w qs rs x
      → Promises served v (q ∷ qs) (r ∷ rs) x

-- Refinement: from a sound state every list of subscribe and unsubscribe requests is answered to
-- the end, without a failed assertion, and the abstract store promises those answers, from what the
-- clients see before to what they see after. It takes a generator whose identifiers are not in use
-- and are int32 numbers; it may run out.
pub serve-Promises :
    (gen : StatusIds) (s : Subscriptions) (qs : List Request)
    → IsSupplied gen
    → IsSound s
    → (rs : List Response) × (t : Subscriptions) × Runs gen s qs rs t
      × Promises s.served_guami_list (view s) qs rs (view t)
serve-Promises gen s [] supplied sound = ([], s, idle, at_rest)
serve-Promises gen s (q ∷ qs) supplied sound =
    let (r, t, answered, sound', same, promised) = serve-KeepsPromise gen s q supplied sound in
    let (rs, u, runs, promises) = serve-Promises gen t qs supplied sound' in
    (
      r ∷ rs,
      u,
      then_serves answered runs,
      then_promised promised
          (subst (λ served. Promises served (view t) qs rs (view u)) same promises),
    )
