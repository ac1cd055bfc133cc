-- ===== src/Subscription/Store.antt =====
-- Lookups of status subscriptions after the operations on them (context/context.go).
use amf_cdac.Base.{
  ℕ, ◌≡◌, refl, sym, ap, ◌∙◌, Option, some, List, inl, inr, arith, ◌<◌, ◌^◌, ◌∷◌, if◌then◌else◌,
  Bool-cases, store, delete, list_eq, nat_eq, itoa, pos, to_int32, parse_int, wrap_int32,
  parse_int-itoa,
}
use amf_cdac.Types.{Bytes}
use amf_cdac.Context.State.{IdCall, allocated, freed}
use amf_cdac.Subscription.{
  SubscriptionData, by_value, Subscriptions, StatusIds, new_amf_status_subscription, free_call,
  delete_amf_status_subscription, release_status,
}

-- The calls of the generator that is configured, and its next answer.
abbrev pub calls : Subscriptions → List IdCall
calls s = if s.enable_db_store then s.drsm_ids else s.status_ids

abbrev pub next_id : StatusIds → Subscriptions → Option ℕ
next_id gen s =
    if s.enable_db_store then gen.allocate_int32 s.drsm_ids else gen.allocate s.status_ids

-- What allocating an identifier and storing the data leave.
pub data Inserted (s : Subscriptions) (k : Bytes) (i : ℕ) (d : SubscriptionData)
    : Subscriptions → Type 0 where
  inserted :
      {t : Subscriptions}
      → t.amf_status_subscriptions ≡ store s.amf_status_subscriptions k (by_value d)
      → calls t ≡ allocated i ∷ calls s
      → t.served_guami_list ≡ s.served_guami_list
      → Inserted s k i d t

pub new-Inserted :
    (gen : StatusIds) (s : Subscriptions) (d : SubscriptionData) (i : ℕ)
    → next_id gen s ≡ some i
    → (t : Subscriptions) × (new_amf_status_subscription gen s d ≡ (itoa (to_int32 i), t))
      × Inserted s (itoa (to_int32 i)) i d t
unfolding new_amf_status_subscription
new-Inserted gen s d i h = elim (Bool-cases s.enable_db_store) [
  | inl e ↦ let k = rw e at h in rw (e, k) (_, refl, inserted refl (rw e refl) refl)
  | inr e ↦ let k = rw e at h in rw (e, k) (_, refl, inserted refl (rw e refl) refl)
]

pub to_int32-small : (i : ℕ) → i < 2 ^ 31 → to_int32 i ≡ pos i
to_int32-small i h = ground arith

free_call-small : (i : ℕ) → i < 2 ^ 31 → free_call (wrap_int32 (pos i)) ≡ freed i
free_call-small i h = rw (to_int32-small i h) refl

-- The release of a parsed identifier is one call of the generator, and touches nothing else.
release-frees :
    (s : Subscriptions) (i : ℕ)
    → i < 2 ^ 31
    → let t = release_status (some (pos i)) s in
      (t.amf_status_subscriptions ≡ s.amf_status_subscriptions)
      × (calls t ≡ freed i ∷ calls s)
      × (t.served_guami_list ≡ s.served_guami_list)
release-frees s i h = elim (Bool-cases s.enable_db_store) [
  | inl e ↦ rw e (refl, ap (λ c. c ∷ s.drsm_ids) (free_call-small i h), refl)
  | inr e ↦ rw e (refl, refl, refl)
]

pub delete-frees :
    (s : Subscriptions) (i : ℕ)
    → i < 2 ^ 31
    → let t = delete_amf_status_subscription s (itoa (pos i)) in
      (t.amf_status_subscriptions ≡ delete s.amf_status_subscriptions (itoa (pos i)))
      × (calls t ≡ freed i ∷ calls s)
      × (t.served_guami_list ≡ s.served_guami_list)
unfolding delete_amf_status_subscription
delete-frees s i h = rw (parse_int-itoa 64 i h (omega arith)) (
    release-frees
      (record s { amf_status_subscriptions = delete s.amf_status_subscriptions (itoa (pos i)) }) i
      h)

-- Different identifiers have different texts.
pub itoa-injective : (i j : ℕ) → i < 2 ^ 31 → j < 2 ^ 31 → itoa (pos i) ≡ itoa (pos j) → i ≡ j
itoa-injective i j h k e =
    let a = parse_int-itoa 64 i h (omega arith) in
    let b = parse_int-itoa 64 j k (omega arith) in
    let c = sym a ∙ (ap (parse_int 64) e ∙ b) in ground arith
