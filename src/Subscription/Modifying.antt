-- ===== src/Subscription/Modifying.antt =====
-- What a modified subscription does to later requests, and which GUAMIs a subscription is granted
-- (producer/subscription.go).
use amf_cdac.Base.{
  ◌≡◌, refl, sym, subst, ◌∙◌, some, List, [], ◌∷◌, arith, ◌↔◌, store, load-store, list_eq, nat_eq,
  ==_refl,
}
use amf_cdac.Types.{Bytes}
use amf_cdac.Subscription.{
  ServedGuami, served_guami_eq, ServedGuami_beq_iff, panics as find_panics, SubscriptionData,
  by_pointer, Subscriptions, found, find_amf_status_subscription,
}
use amf_cdac.Subscription.Status.{answers, granted, unsubscribe}
use amf_cdac.Base.{Among, Among-append}
use amf_cdac.Subscription.Answering.{find-load}
use amf_cdac.Subscription.Status.{accepted, modify, panics, listed}

-- The state after a successful modification.
abbrev modified : Subscriptions → Bytes → SubscriptionData → Subscriptions
modified s k d = record s {
  amf_status_subscriptions = store s.amf_status_subscriptions k (by_pointer d);
}

find-modified :
    (s : Subscriptions) (k : Bytes) (d : SubscriptionData)
    → find_amf_status_subscription (modified s k d) k ≡ find_panics
find-modified s k d =
    find-load (modified s k d) k (some (by_pointer d))
      (load-store s.amf_status_subscriptions k k (by_pointer d) ∙ (rw (==_refl k) refl))

unsubscribe-pointer :
    (s : Subscriptions) (k : Bytes) (d : SubscriptionData) → unsubscribe (modified s k d) k ≡ panics
unfolding unsubscribe
unsubscribe-pointer s k d = rw (unsubscribe, find-modified s k d) refl

modify-pointer :
    (s : Subscriptions) (k : Bytes) (d later : SubscriptionData)
    → modify (modified s k d) k later ≡ panics
unfolding modify
modify-pointer s k d later = rw (modify, find-modified s k d) refl

-- After a subscription has been modified, with the answer 202, the next request to modify it and
-- the next request to end it both fail the type assertion: the handler panics, whatever the data.
pub modify-panics :
    (s : Subscriptions) (k : Bytes) (current d : SubscriptionData)
    → find_amf_status_subscription s k ≡ found current
    → (t : Subscriptions) × (modify s k d ≡ answers (accepted d) t)
      × (unsubscribe t k ≡ panics)
      × ((later : SubscriptionData) → modify t k later ≡ panics)
unfolding modify
modify-panics s k current d h =
    (modified s k d, rw (modify, h) refl, unsubscribe-pointer s k d, modify-pointer s k d)

listed_iff :
    (a g : ServedGuami) (served : List ServedGuami)
    → Among a (listed g served) ↔ ((a ≡ g) × Among g served)
unfolding listed
listed_iff a g [] = ground arith
listed_iff a g (h ∷ served) = ground (arith, ServedGuami_beq_iff g h, listed_iff a g served)

-- A GUAMI is in the response to a subscription exactly when the request lists it and the AMF serves
-- it.
pub granted_iff :
    (a : ServedGuami) (gs served : List ServedGuami)
    → Among a (granted gs served) ↔ (Among a gs × Among a served)
unfolding granted
granted_iff a [] served = ground arith
granted_iff a (g ∷ gs) served =
    let moved = λ (e : a ≡ g). subst (λ x. Among x served) e in
    let back = λ (e : a ≡ g). subst (λ x. Among x served) (sym e) in
    ground (
      arith,
      Among-append a (listed g served) (granted gs served),
      listed_iff a g served,
      granted_iff a gs served,
      moved,
      back,
    )
