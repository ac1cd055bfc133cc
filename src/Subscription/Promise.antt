-- ===== src/Subscription/Promise.antt =====
-- The status subscriptions as an abstract store (producer/subscription.go), and the states of the
-- AMF context that stand for one.
use amf_cdac.Base.{
  ℕ, ◌≡◌, ◌≢◌, true, false, Option, none, some, List, [], ◌∷◌, ◌++◌, ◌<◌, ◌^◌, ◌==◌, if◌then◌else◌,
  load, list_eq, nat_eq, itoa, pos,
}
use amf_cdac.Types.{Bytes}
use amf_cdac.Context.Ids.{in_use}
use amf_cdac.Subscription.{
  ServedGuami, served_guami_eq, SubscriptionData, Stored, by_value, by_pointer, Subscriptions,
  StatusIds,
}
use amf_cdac.Subscription.Store.{calls, next_id}
use amf_cdac.Subscription.Status.{
  Response, created, no_content, problem, Answer, granted, subscribe, unsubscribe,
}

-- The requests that the abstract store knows.
pub data Request : Type 0 where
  subscribing : SubscriptionData → Request
  unsubscribing : Bytes → Request

unfoldable pub serve : StatusIds → Subscriptions → Request → Answer
unfolding subscribe unsubscribe
serve gen s (subscribing d) = subscribe gen s d
serve gen s (unsubscribing k) = unsubscribe s k

-- What the clients see: the data of each subscription.
abbrev pub View : Type 0
View = Bytes → Option SubscriptionData

abbrev pub data_of : Option Stored → Option SubscriptionData
data_of none = none
data_of (some (by_value d)) = some d
data_of (some (by_pointer d)) = some d

abbrev pub view : Subscriptions → View
view s k = data_of (load s.amf_status_subscriptions k)

-- The views agree at every identifier, or at every identifier but one.
abbrev pub Same : View → View → Type 0
Same v v' = (k : Bytes) → v' k ≡ v k

abbrev pub Replaced : View → Bytes → Option SubscriptionData → View → Type 0
Replaced v k o v' = (j : Bytes) → v' j ≡ (if k == j then o else v j)

-- What the store promises: a subscription is refused when none of its GUAMIs is served, and else
-- gets an identifier that no subscription has, of which the response tells the location; when no
-- identifier is left, the response is the same without one, and there is no subscription. The end of
-- a subscription takes away that one only.
pub data Promised (served : List ServedGuami) (v : View) : Request → Response → View → Type 0 where
  refuses :
      {d : SubscriptionData} {v' : View}
      → granted d.guami_list served ≡ []
      → Same v v'
      → Promised served v (subscribing d) (problem 403 "UNSPECIFIED") v'
  grants :
      {d : SubscriptionData} {v' : View} (k : Bytes)
      → granted d.guami_list served ≢ []
      → v k ≡ none
      → Replaced v k (some d) v'
      → Promised served v
          (subscribing d)
          (created
            (d.amf_status_uri ++ (47 ∷ k))
            (record { guami_list = granted d.guami_list served; amf_status_uri = [] }))
          v'
  leaves_unnamed :
      {d : SubscriptionData} {v' : View}
      → granted d.guami_list served ≢ []
      → Same v v'
      → Promised served v
          (subscribing d)
          (created
            (d.amf_status_uri ++ (47 ∷ []))
            (record { guami_list = granted d.guami_list served; amf_status_uri = [] }))
          v'
  knows_not :
      {k : Bytes} {v' : View}
      → v k ≡ none
      → Same v v'
      → Promised served v (unsubscribing k) (problem 404 "SUBSCRIPTION_NOT_FOUND") v'
  ends :
      {k : Bytes} {v' : View} (d : SubscriptionData)
      → v k ≡ some d
      → Replaced v k none v'
      → Promised served v (unsubscribing k) no_content v'

-- What a stored entry must be: a value, under the text of an identifier in use.
abbrev pub Kept : Subscriptions → Bytes → Stored → Type 0
Kept s k st =
    ((d : SubscriptionData) × (st ≡ by_value d))
    × (i : ℕ) × (k ≡ itoa (pos i))
    × (i < 2 ^ 31)
    × (in_use i (calls s) ≡ true)

abbrev pub IsSound : Subscriptions → Type 0
IsSound s = (k : Bytes) (st : Stored) → load s.amf_status_subscriptions k ≡ some st → Kept s k st

-- The next identifier is not in use, and is an int32.
pub record IsSupplied (gen : StatusIds) : Type 0 where
  pub is_fresh : (s : Subscriptions) (i : ℕ) → next_id gen s ≡ some i → in_use i (calls s) ≡ false
  pub is_int32 : (s : Subscriptions) (i : ℕ) → next_id gen s ≡ some i → i < 2 ^ 31
