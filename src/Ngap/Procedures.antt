-- ===== src/Ngap/Procedures.antt =====
-- The links between stations, RanUes and the pool under whole procedures of NGAP (ngap/handler.go,
-- ngap/dispatcher.go).
use amf_cdac.Base.{ℕ, ◌≡◌, sym, subst, false, Option, none, some, List}
use amf_cdac.Context.State.{World}
use amf_cdac.Context.Ran.Links.{Linked}
use amf_cdac.Ngap.{
  Ie, Initiating, ng_reset, handover_notification, handover_cancel, error_indication,
  unknown_local_ue_ngap_id, initiating_message, start, Peers, Turn, in_world, send, ◌>>=◌,
}
use amf_cdac.Ngap.Reading.{Reading, Ies, no_ies, read_ies}
use amf_cdac.Ngap.Finding.{ran_ue_find_by_ran_ue_ngap_id, update_location_if}
use amf_cdac.Ngap.Resetting.{reset_by, handle_ng_reset, reset_reading}
use amf_cdac.Ngap.Handing.{
  notify_reading, cancel_reading, notify_target, notify_found, handle_handover_notify,
  cancel_source, cancel_found, handle_handover_cancel,
}
use amf_cdac.Ngap.Dispatching.{with_body, dispatch_initiating, dispatch_ngap_msg}
use amf_cdac.Ngap.Untouched.{Ends, bind-Ends, send-world}
use amf_cdac.Ngap.Alike.{Alike, Alike-Linked, location-Alike}
use amf_cdac.Ngap.Moving.{notify-Alike, cancel-Alike}
use amf_cdac.Ngap.Linking.{IsLinked, found-Linked, reset_by-Linked}

-- A handler reads the IEs, and then does `k`.
read-Ends :
    (reads : Ie → Reading) (list : List Ie) (t : Turn) (k : Ies → Option Turn)
    → IsLinked t
    → ((ies : Ies) → Ends IsLinked (k ies))
    → Ends IsLinked (elim (read_ies reads list no_ies) [ none ↦ some t | some ies ↦ k ies ])
read-Ends reads list t k h f = by_cases (read_ies reads list no_ies)
  where
    by_cases : (o : Option Ies) → Ends IsLinked (elim o [ none ↦ some t | some ies ↦ k ies ])
    by_cases none = h
    by_cases (some ies) = f ies

-- A step on a value that may be missing.
pub given-Ends :
    {A : Type 0} (o : Option A) (k : A → Option Turn)
    → ((a : A) → Ends IsLinked (k a))
    → Ends IsLinked (o >>= k)
given-Ends none k f = tt
given-Ends (some a) k f = f a

module _ (peers : Peers) (r : ℕ) (t : Turn) (off : t.world.enable_db_store ≡ false)
    (h : IsLinked t) where
  reset-Linked : (list : List Ie) → Ends IsLinked (handle_ng_reset peers r list t)
  unfolding handle_ng_reset
  reset-Linked list =
      read-Ends reset_reading list t
        (λ ies. ies.reason >>= λ c. ies.reset >>= λ reset. some (reset_by peers r reset t)) h
        (λ ies.
          given-Ends ies.reason (λ c. ies.reset >>= λ reset. some (reset_by peers r reset t))
            (λ c.
              given-Ends ies.reset (λ reset. some (reset_by peers r reset t))
                (λ reset. reset_by-Linked peers r reset t off h)))

  -- A handler that looks its RanUe up by the station's identifier.
  pub by_ran_id-Linked :
      (reads : Ie → Reading) (list : List Ie) (k : Ies → Turn → Option ℕ × World → Option Turn)
      → ((ies : Ies) → Ends IsLinked (k ies t (none, t.world)))
      → ((ies : Ies) (p : ℕ)
          → (t.world.ran_ues p).ran ≡ some r
          → Ends IsLinked (k ies t (some p, t.world)))
      → Ends IsLinked (elim (read_ies reads list no_ies) [
        | none ↦ some t
        | some ies ↦ ies.ran_id >>= λ id. k ies t (ran_ue_find_by_ran_ue_ngap_id peers t.world r id)
      ])
  by_ran_id-Linked reads list k f g =
      read-Ends reads list t
        (λ ies. ies.ran_id >>= λ id. k ies t (ran_ue_find_by_ran_ue_ngap_id peers t.world r id)) h
        (λ ies.
          given-Ends ies.ran_id (λ id. k ies t (ran_ue_find_by_ran_ue_ngap_id peers t.world r id))
            (λ id. found-Linked peers r t.world id (k ies t) off (g ies) (f ies) h))

  refused-Linked : IsLinked (send peers t (error_indication r unknown_local_ue_ngap_id))
  refused-Linked =
      subst Linked (sym (send-world peers t (error_indication r unknown_local_ue_ngap_id))) h

  notify-Linked : (list : List Ie) → Ends IsLinked (handle_handover_notify peers r list t)
  unfolding handle_handover_notify
  notify-Linked list =
      by_ran_id-Linked notify_reading list (notify_found peers r)
        (λ ies.
          given-Ends ies.amf_id
            (λ amf. some (send peers t (error_indication r unknown_local_ue_ngap_id)))
            (λ amf. refused-Linked))
        (λ ies p own.
          bind-Ends (Alike t.world) IsLinked (update_location_if peers t.world p ies.location)
            (λ w. notify_target peers r p (in_world t w))
            (location-Alike peers t.world p ies.location)
            (λ w a.
              moved w (notify_target peers r p (in_world t w)) (Alike-Linked t.world w a h)
                (notify-Alike peers r p (in_world t w))))
    where
      moved :
          (w : World) (o : Option Turn)
          → Linked w
          → Ends (λ t'. Alike w t'.world) o
          → Ends IsLinked o
      moved w none k e = tt
      moved w (some t') k e = Alike-Linked w t'.world e k

  cancel-Linked : (list : List Ie) → Ends IsLinked (handle_handover_cancel peers r list t)
  unfolding handle_handover_cancel
  cancel-Linked list =
      by_ran_id-Linked cancel_reading list (cancel_found peers r) (λ ies. refused-Linked)
        (λ ies p own.
          given-Ends ies.amf_id (λ amf. some (cancel_source peers r p ies t))
            (λ amf.
              Alike-Linked t.world (cancel_source peers r p ies t).world
                (cancel-Alike peers r p ies t) h))

  pub body-Linked :
      (body : Option (List Ie)) (handle : List Ie → Turn → Option Turn)
      → ((list : List Ie) → Ends IsLinked (handle list t))
      → Ends IsLinked (with_body body handle t)
  body-Linked none handle f = h
  body-Linked (some list) handle f = f list

-- The procedures whose handlers leave a RanUe at its station.
pub data KeepsStation : Initiating → Type 0 where
  resetting : KeepsStation ng_reset
  notified : KeepsStation handover_notification
  cancelled : KeepsStation handover_cancel

body-Ends :
    (peers : Peers) (r : ℕ) (procedure : Initiating) (body : Option (List Ie)) (t : Turn)
    → KeepsStation procedure
    → t.world.enable_db_store ≡ false
    → IsLinked t
    → Ends IsLinked (dispatch_initiating peers r procedure body t)
unfolding dispatch_initiating
body-Ends peers r _ body t resetting off h =
    body-Linked peers r t off h body (handle_ng_reset peers r) (reset-Linked peers r t off h)
body-Ends peers r _ body t notified off h =
    body-Linked peers r t off h body (handle_handover_notify peers r)
      (notify-Linked peers r t off h)
body-Ends peers r _ body t cancelled off h =
    body-Linked peers r t off h body (handle_handover_cancel peers r)
      (cancel-Linked peers r t off h)

-- A NG reset, a handover notify or a handover cancel keeps the links between stations, RanUes and
-- the pool, whatever its IEs are, when the handler returns and the database is not used.
pub dispatch-Linked :
    (peers : Peers) (r : ℕ) (procedure : Initiating) (body : Option (List Ie)) (w : World)
    (t' : Turn)
    → KeepsStation procedure
    → w.enable_db_store ≡ false
    → Linked w
    → dispatch_ngap_msg peers r
        (initiating_message (some (record { procedure = procedure; ies = body })))
        (start w)
      ≡ some t'
    → Linked t'.world
unfolding dispatch_ngap_msg
dispatch-Linked peers r procedure body w t' keeps off h e =
    subst (Ends IsLinked) e (body-Ends peers r procedure body (start w) keeps off h)
