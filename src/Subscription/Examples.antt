-- ===== src/Subscription/Examples.antt =====
-- Status subscriptions at concrete requests (producer/subscription.go).
use amf_cdac.Base.{
  ℕ, ◌≡◌, refl, inl, inr, false, Option, none, some, List, [], ◌∷◌, arith, ltb, if◌then◌else◌, load,
  store, itoa, digits, ◌<◌, ◌^◌, Bool-cases,
}
use amf_cdac.Context.State.{IdCall, allocated}
use amf_cdac.Context.Ids.{in_use}
use amf_cdac.Context.Samples.{above, next_above, next_above-IsFresh}
use amf_cdac.Subscription.{
  find_amf_status_subscription, new_amf_status_subscription, ServedGuami, SubscriptionData,
  by_value, Subscriptions, StatusIds,
}
use amf_cdac.Subscription.Store.{next_id, calls}
use amf_cdac.Subscription.Status.{
  Response, accepted, answers, modify, panics, unsubscribe, subscribe, created,
}
use amf_cdac.Subscription.Promise.{Request, subscribing, unsubscribing, view, IsSound, IsSupplied}
use amf_cdac.Subscription.Refinement.{Runs, Promises, serve-Promises}
use amf_cdac.Subscription.Modifying.{modify-panics}

abbrev guami : ServedGuami
guami = record { plmn_id = some (record { mcc = "208"; mnc = "93" }); amf_id = "cafe00" }

abbrev data_ : SubscriptionData
data_ = record { guami_list = guami ∷ []; amf_status_uri = 104 ∷ [] }

abbrev fresh : Subscriptions
fresh = record {
  served_guami_list = guami ∷ [];
  enable_db_store = false;
  amf_status_subscriptions = [];
  event_subscriptions = [];
  status_ids = [];
  event_ids = [];
  drsm_ids = [];
}

-- The generator of the samples, as long as it is an int32.
abbrev bounded : List IdCall → Option ℕ
bounded history = if ltb (above history) (2 ^ 31) then next_above history else none

abbrev ids : StatusIds
ids = record { allocate = bounded; allocate_int32 = bounded }

bounded-next :
    (history : List IdCall) (i : ℕ)
    → bounded history ≡ some i
    → (in_use i history ≡ false) × (i < 2 ^ 31)
bounded-next history i h = elim (Bool-cases (ltb (above history) (2 ^ 31))) [
  | inl e ↦ let k = rw e at h in (next_above-IsFresh history i k, ground arith)
  | inr e ↦ absurd (let k = rw e at h in ground arith)
]

next-bounded :
    (s : Subscriptions) (i : ℕ)
    → next_id ids s ≡ some i
    → (in_use i (calls s) ≡ false) × (i < 2 ^ 31)
next-bounded s i h = elim (Bool-cases s.enable_db_store) [
  | inl e ↦ let k = rw e at h in rw e (bounded-next s.drsm_ids i k)
  | inr e ↦ let k = rw e at h in rw e (bounded-next s.status_ids i k)
]

ids-IsSupplied : IsSupplied ids
ids-IsSupplied = record {
  is_fresh = λ s i h. (next-bounded s i h).0;
  is_int32 = λ s i h. (next-bounded s i h).1;
}

fresh-IsSound : IsSound fresh
unfolding load
fresh-IsSound k st h = absurd (ground arith)

abbrev requests : List Request
requests = subscribing data_ ∷ unsubscribing (49 ∷ []) ∷ unsubscribing (49 ∷ []) ∷ []

serve-Promises_example :
    (rs : List Response) × (t : Subscriptions) × Runs ids fresh requests rs t
    × Promises (guami ∷ []) (view fresh) requests rs (view t)
serve-Promises_example = serve-Promises ids fresh requests ids-IsSupplied fresh-IsSound

abbrev subscribed : Subscriptions
subscribed = record fresh { amf_status_subscriptions = ((49 ∷ []), by_value data_) ∷ [] }

modify-panics_example :
    (t : Subscriptions) × (modify subscribed (49 ∷ []) data_ ≡ answers (accepted data_) t)
    × (unsubscribe t (49 ∷ []) ≡ panics)
    × ((later : SubscriptionData) → modify t (49 ∷ []) later ≡ panics)
unfolding find_amf_status_subscription load
modify-panics_example = modify-panics subscribed (49 ∷ []) data_ data_ refl

-- The first subscription has the identifier 1, and its location ends in it.
first_location :
    subscribe ids fresh data_
    ≡ answers
        (created (104 ∷ 47 ∷ 49 ∷ []) (record { guami_list = guami ∷ []; amf_status_uri = [] }))
        (record fresh {
          status_ids = allocated 1 ∷ [];
          amf_status_subscriptions = ((49 ∷ []), by_value data_) ∷ [];
        })
unfolding subscribe new_amf_status_subscription itoa store digits
first_location = refl
