-- ===== src/Subscription.antt =====
-- The subscriptions of the AMF context: to the AMF's status (context/context.go and
-- producer/subscription.go) and to events (context/context.go).
pub mod Store
pub mod Status
pub mod Promise
pub mod Soundness
pub mod Answering
pub mod Refinement
pub mod Modifying
mod Examples
use amf_cdac.Base.{
  ℕ, ℤ, pos, negsuc, String, ◌≡◌, Bool, true, false, ◌&&◌, ◌↔◌, Option, none, some, List, [], ◌∷◌,
  ◌++◌, Map, arith, Eq, ◌==◌, string_eq, option_eq, list_eq, nat_eq, option_beq_iff, if◌then◌else◌,
  load, store, delete, itoa, parse_int, wrap_int32, to_int32,
}
use text.Mathlib.TextEquality.{eq_iff}
use amf_cdac.Types.{Bytes, PlmnId, plmn_id_eq}
use amf_cdac.Context.State.{IdCall, allocated, freed, freed_below}

-- models.Guami, as reflect.DeepEqual compares it.
pub record ServedGuami : Type 0 where
  pub plmn_id : Option PlmnId
  pub amf_id : String

abbrev pub ServedGuami_beq : ServedGuami → ServedGuami → Bool
ServedGuami_beq a b = a.plmn_id == b.plmn_id && a.amf_id == b.amf_id

pub ServedGuami_beq_iff : (a b : ServedGuami) → (ServedGuami_beq a b ≡ true) ↔ (a ≡ b)
ServedGuami_beq_iff a b =
    ground (arith, option_beq_iff a.plmn_id b.plmn_id, eq_iff a.amf_id b.amf_id)

instance abbrev pub served_guami_eq : Eq ServedGuami
served_guami_eq = record { beq = ServedGuami_beq; beq_iff = ServedGuami_beq_iff }

-- models.SubscriptionData
pub record SubscriptionData : Type 0 where
  pub guami_list : List ServedGuami
  pub amf_status_uri : Bytes

-- What AMFStatusSubscriptions holds, as interface values: New stores the data, Modify a pointer to
-- them. Nobody else has the pointer's object when it is stored.
pub data Stored : Type 0 where
  by_value : SubscriptionData → Stored
  by_pointer : SubscriptionData → Stored

-- The part of the AMF context that the operations touch.
pub record Subscriptions : Type 0 where
  pub served_guami_list : List ServedGuami
  pub enable_db_store : Bool
  pub amf_status_subscriptions : Map Bytes Stored
  pub event_subscriptions : Map Bytes ℕ
  -- the calls of amfStatusSubscriptionIDGenerator, of EventSubscriptionIDGenerator and of Drsm
  pub status_ids : List IdCall
  pub event_ids : List IdCall
  pub drsm_ids : List IdCall

-- Allocate and AllocateInt32ID; `none` is an error.
pub record StatusIds : Type 0 where
  pub allocate : List IdCall → Option ℕ
  pub allocate_int32 : List IdCall → Option ℕ

abbrev pub free_call : ℤ → IdCall
free_call (pos n) = freed n
free_call (negsuc n) = freed_below n

-- NewAMFStatusSubscription; the empty text when no identifier is left.
unfoldable pub new_amf_status_subscription :
    StatusIds → Subscriptions → SubscriptionData → Bytes × Subscriptions
new_amf_status_subscription gen s d =
    if s.enable_db_store
    then elim (gen.allocate_int32 s.drsm_ids) [
      | none ↦ ([], s)
      | some i ↦ (
        itoa (to_int32 i),
        record s {
          drsm_ids = allocated i ∷ s.drsm_ids;
          amf_status_subscriptions =
              store s.amf_status_subscriptions (itoa (to_int32 i)) (by_value d);
        },
      )
    ]
    else elim (gen.allocate s.status_ids) [
      | none ↦ ([], s)
      | some i ↦ (
        itoa (to_int32 i),
        record s {
          status_ids = allocated i ∷ s.status_ids;
          amf_status_subscriptions =
              store s.amf_status_subscriptions (itoa (to_int32 i)) (by_value d);
        },
      )
    ]

-- FindAMFStatusSubscription: nothing, the data, or a failed type assertion.
pub data Found : Type 0 where
  missing : Found
  found : SubscriptionData → Found
  panics : Found

abbrev pub asserted : Option Stored → Found
asserted none = missing
asserted (some (by_value d)) = found d
asserted (some (by_pointer d)) = panics

unfoldable pub find_amf_status_subscription : Subscriptions → Bytes → Found
find_amf_status_subscription s k = asserted (load s.amf_status_subscriptions k)

-- The release of a parsed identifier of a status subscription.
abbrev pub release_status : Option ℤ → Subscriptions → Subscriptions
release_status none s = s
release_status (some i) s =
    if s.enable_db_store
    then record s { drsm_ids = free_call (wrap_int32 i) ∷ s.drsm_ids }
    else record s { status_ids = free_call i ∷ s.status_ids }

-- DeleteAMFStatusSubscription
unfoldable pub delete_amf_status_subscription : Subscriptions → Bytes → Subscriptions
delete_amf_status_subscription s k =
    release_status (parse_int 64 k)
      (record s { amf_status_subscriptions = delete s.amf_status_subscriptions k })

-- NewEventSubscription
unfoldable pub new_event_subscription : Subscriptions → Bytes → ℕ → Subscriptions
new_event_subscription s k p = record s { event_subscriptions = store s.event_subscriptions k p }

-- FindEventSubscription
unfoldable pub find_event_subscription : Subscriptions → Bytes → Option ℕ
find_event_subscription s k = load s.event_subscriptions k

abbrev pub release_event : Option ℤ → Subscriptions → Subscriptions
release_event none s = s
release_event (some i) s = record s { event_ids = free_call i ∷ s.event_ids }

-- DeleteEventSubscription
unfoldable pub delete_event_subscription : Subscriptions → Bytes → Subscriptions
delete_event_subscription s k =
    release_event (parse_int 32 k)
      (record s { event_subscriptions = delete s.event_subscriptions k })
