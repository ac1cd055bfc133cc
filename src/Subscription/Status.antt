-- ===== src/Subscription/Status.antt =====
-- The requests on status subscriptions (producer/subscription.go).
use amf_cdac.Base.{ℕ, String, List, [], ◌∷◌, ◌++◌, ◌==◌, if◌then◌else◌, store}
use amf_cdac.Types.{Bytes}
use amf_cdac.Base.{list_eq, nat_eq}
use amf_cdac.Subscription.{
  ServedGuami, served_guami_eq, SubscriptionData, by_pointer, Subscriptions, StatusIds, missing,
  found, panics as find_panics, new_amf_status_subscription, find_amf_status_subscription,
  delete_amf_status_subscription,
}

-- The responses of the handlers.
pub data Response : Type 0 where
  created : Bytes → SubscriptionData → Response
  accepted : SubscriptionData → Response
  no_content : Response
  -- ProblemDetails with its status and cause
  problem : ℕ → String → Response

-- The status code of the response.
abbrev pub status : Response → ℕ
status (created location d) = 201
status (accepted d) = 202
status no_content = 204
status (problem code cause) = code

-- A response and the state after it, or a failed type assertion.
pub data Answer : Type 0 where
  answers : Response → Subscriptions → Answer
  panics : Answer

-- The inner loop: the GUAMI is listed once for every equal one that is served.
unfoldable pub listed : ServedGuami → List ServedGuami → List ServedGuami
listed g [] = []
listed g (h ∷ served) = let rest = listed g served in if g == h then g ∷ rest else rest

-- The outer loop.
unfoldable pub granted : List ServedGuami → List ServedGuami → List ServedGuami
unfolding listed
granted [] served = []
granted (g ∷ gs) served = listed g served ++ granted gs served

-- The answer when some GUAMI is served.
unfoldable pub subscribed : StatusIds → Subscriptions → SubscriptionData → List ServedGuami → Answer
subscribed gen s d gs =
    let r = new_amf_status_subscription gen s d in
    answers
      (created (d.amf_status_uri ++ (47 ∷ r.0)) (record { guami_list = gs; amf_status_uri = [] }))
      r.1

abbrev pub grant_or_refuse :
    StatusIds → Subscriptions → SubscriptionData → List ServedGuami → Answer
grant_or_refuse gen s d [] = answers (problem 403 "UNSPECIFIED") s
grant_or_refuse gen s d (g ∷ gs) = subscribed gen s d (g ∷ gs)

-- AMFStatusChangeSubscribeProcedure with its handler
unfoldable pub subscribe : StatusIds → Subscriptions → SubscriptionData → Answer
unfolding granted subscribed
subscribe gen s d = grant_or_refuse gen s d (granted d.guami_list s.served_guami_list)

-- AMFStatusChangeUnSubscribeProcedure with its handler
unfoldable pub unsubscribe : Subscriptions → Bytes → Answer
unsubscribe s k = elim (find_amf_status_subscription s k) [
  | missing ↦ answers (problem 404 "SUBSCRIPTION_NOT_FOUND") s
  | found d ↦ answers no_content (delete_amf_status_subscription s k)
  | find_panics ↦ panics
]

-- AMFStatusChangeSubscribeModifyProcedure with its handler
unfoldable pub modify : Subscriptions → Bytes → SubscriptionData → Answer
modify s k d = elim (find_amf_status_subscription s k) [
  | missing ↦ answers (problem 403 "Forbidden") s
  | found current ↦
      let changed = record current {
        guami_list = d.guami_list;
        amf_status_uri = d.amf_status_uri;
      } in
      answers (accepted changed) (record s {
        amf_status_subscriptions = store s.amf_status_subscriptions k (by_pointer changed);
      })
  | find_panics ↦ panics
]
