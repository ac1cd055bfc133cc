-- ===== src/Ngap/Released.antt =====
-- The end of a release (ngap/handler.go, HandleUEContextReleaseComplete): the pool and the stations'
-- lists.
use amf_cdac.Base.{
  ℕ, ◌≡◌, refl, inl, inr, sym, subst, ap, ◌∙◌, false, Option, none, some, List, Map, load, arith,
  Bool-cases, Option-cases, nat_eq, nat_beq_iff,
}
use amf_cdac.Types.{
  access_type_eq, RelAction, n2_normal_release, release_ue_context, release_nw_initiated,
  release_handover,
}
use amf_cdac.Context.State.{RanUe, World, Outcome, done, error, panics}
use amf_cdac.Context.Ran.{remove_ran_ue, attach_ran_ue}
use amf_cdac.Context.Handover.{detach_source_target}
use amf_cdac.Ngap.{Ie, Peers, Turn, start, in_world}
use amf_cdac.Ngap.Reading.{Ies, no_ies, read_ies}
use amf_cdac.Ngap.Finding.{ran_ue_find_by_amf_ue_ngap_id, update_location_if}
use amf_cdac.Ngap.Releasing.{set_ran, release_reading}
use amf_cdac.Context.Ran.Links.{Linked}
use amf_cdac.Ngap.Gone.{IsGone, remove-IsGone, remove_amf_ue-IsGone, detach-same, detach-id}
use amf_cdac.Ngap.Doomed.{set_ran-at, find-pooled}
use amf_cdac.Ngap.Completing.{
  settle, removed, attached, hand_over, stationed, forget_cause, by_action, release_of, complete_id,
  release_found, complete_by, handle_ue_context_release_complete,
}
use amf_cdac.Ngap.Untouched.{Ends, bind-Ends, Leaves, settle-Leaves}
use amf_cdac.Ngap.Alike.{Alike, location-Alike, attached-Alike}

-- The RanUe is at the station, and has the identifier.
pub record Holds (w : World) (p r id : ℕ) : Type 0 where
  at_station : (w.ran_ues p).ran ≡ some r
  identified : (w.ran_ues p).amf_ue_ngap_id ≡ id

pub lookup-pooled :
    (peers : Peers) (w : World) (id : ℕ)
    → w.enable_db_store ≡ false
    → ran_ue_find_by_amf_ue_ngap_id peers w id ≡ (load w.ran_ue_pool id, w)
unfolding ran_ue_find_by_amf_ue_ngap_id
lookup-pooled peers w id off = ground (arith)

module _ (peers : Peers) (r p id : ℕ) where
  removed-IsGone : (w : World) → Holds w p r id → IsGone id (remove_ran_ue w p).1
  removed-IsGone w h =
      subst (λ i. IsGone i (remove_ran_ue w p).1) h.identified (remove-IsGone w p r h.at_station)

  set_ran-Holds : (w : World) (q : ℕ) → Holds w p r id → Holds (set_ran w q r) p r id
  set_ran-Holds w q h = record {
    at_station = ground (arith, h.at_station, nat_beq_iff q p);
    identified = ground (arith, h.identified, nat_beq_iff q p);
  }

  detach-Holds :
      (w : World) (o : Option ℕ) → Holds w p r id → Holds (detach_source_target w o) p r id
  detach-Holds w o h = record {
    at_station = detach-same w o p ∙ h.at_station;
    identified = detach-id w o p ∙ h.identified;
  }

  attached-IsGone :
      (w : World) (u q : ℕ) (t : Turn)
      → IsGone id w
      → Ends (λ t'. IsGone id t'.world) (attached peers r (attach_ran_ue w u q) u t)
  attached-IsGone w u q t h = by_outcome (attach_ran_ue w u q) (λ w' e. attached-Alike w w' u q e)
    where
      by_outcome :
          (o : Outcome)
          → ((w' : World) → o ≡ done w' → Alike w w')
          → Ends (λ t'. IsGone id t'.world) (attached peers r o u t)
      by_outcome (done w') k = ap (λ (m : Map ℕ ℕ). load m id) (k w' refl).same_pool ∙ h
      by_outcome error k = tt
      by_outcome panics k = tt

  stationed-Holds : (w : World) (q : ℕ) → Holds w p r id → Holds (stationed peers r w q) p r id
  stationed-Holds w q h = elim (Option-cases (w.ran_ues q).ran) [
    | inl e ↦ rw (stationed, e) (set_ran-Holds w q h)
    | inr (s, e) ↦ rw (stationed, e) h
  ]

  hand_over-IsGone :
      (o : Option ℕ) (w : World) (u : ℕ) (t : Turn)
      → Holds w p r id
      → Ends (λ t'. IsGone id t'.world) (hand_over peers r (o, w) p u t)
  unfolding hand_over
  hand_over-IsGone none w u t h = tt
  hand_over-IsGone (some q) w u t h =
      let w1 = stationed peers r w q in
      let w2 = detach_source_target w1 (some p) in
      let t' = removed peers r p (in_world t w2) in
      attached-IsGone t'.world u q t'
        (removed-IsGone w2 (detach-Holds w1 (some p) (stationed-Holds w q h)))

  by_action-IsGone :
      (a : RelAction) (u : ℕ) (t : Turn)
      → t.world.enable_db_store ≡ false
      → Holds t.world p r id
      → Ends (λ t'. IsGone id t'.world) (by_action peers r a p u t)
  unfolding by_action
  by_action-IsGone n2_normal_release u t off h = removed-IsGone t.world h
  by_action-IsGone release_ue_context u t off h =
      let t1 = removed peers r p t in
      let gone = removed-IsGone t.world h in
      elim (Bool-cases (t1.world.ues u).security_context_available) [
        | inl e ↦ rw (Ends, e) gone
        | inr e ↦ rw (Ends, e) (remove_amf_ue-IsGone t1.world u id gone)
      ]
  by_action-IsGone release_nw_initiated u t off h =
      remove_amf_ue-IsGone (remove_ran_ue t.world p).1 u id (removed-IsGone t.world h)
  by_action-IsGone release_handover u t off h = elim (Option-cases (t.world.ran_ues p).target_ue) [
    | inl e ↦ rw (Ends, e) tt
    | inr (q, e) ↦
        let q_id = (t.world.ran_ues q).amf_ue_ngap_id in
        rw (Ends, e)
          (subst (λ x. Ends (λ t'. IsGone id t'.world) (hand_over peers r x p u t))
            (sym (lookup-pooled peers t.world q_id off))
            (hand_over-IsGone (load t.world.ran_ue_pool q_id) t.world u t h))
  ]

  release_of-IsGone :
      (o : Option ℕ) (ies : Ies) (t : Turn)
      → t.world.enable_db_store ≡ false
      → Holds t.world p r id
      → Ends (λ t'. IsGone id t'.world) (release_of peers r o p ies t)
  unfolding release_of
  release_of-IsGone none ies t off h = removed-IsGone t.world h
  release_of-IsGone (some u) ies t off h =
      bind-Ends (Leaves t) (λ t'. IsGone id t'.world) (settle peers r u ies t)
        (λ t1.
          let t2 = forget_cause peers r u t1 in
          by_action peers r (t2.world.ran_ues p).release_action p u t2)
        (settle-Leaves peers r u ies t)
        (λ t1 k.
          let t2 = forget_cause peers r u t1 in
          let same = ap (λ (f : ℕ → RanUe). f p) k.same_ran_ues in
          by_action-IsGone (t2.world.ran_ues p).release_action u t2 (k.same_flag ∙ off) (record {
            at_station = ap (λ (x : RanUe). x.ran) same ∙ h.at_station;
            identified = ap (λ (x : RanUe). x.amf_ue_ngap_id) same ∙ h.identified;
          }))

  found-IsGone :
      (ies : Ies) (t : Turn)
      → t.world.enable_db_store ≡ false
      → (t.world.ran_ues p).amf_ue_ngap_id ≡ id
      → Ends (λ t'. IsGone id t'.world) (release_found peers r p ies t)
  unfolding release_found
  found-IsGone ies t off same =
      let t1 = in_world t (set_ran t.world p r) in
      let at_p = set_ran-at t.world p r in
      release_of-IsGone (t1.world.ran_ues p).amf_ue ies t1 off (record {
        at_station = ap (λ (x : RanUe). x.ran) at_p;
        identified = ap (λ (x : RanUe). x.amf_ue_ngap_id) at_p ∙ same;
      })

  complete_by-IsGone :
      (ies : Ies) (w : World)
      → w.enable_db_store ≡ false
      → (w.ran_ues p).amf_ue_ngap_id ≡ id
      → Ends (λ t'. IsGone id t'.world) (complete_by peers r (some p, w) ies (start w))
  unfolding complete_by
  complete_by-IsGone ies w off same =
      bind-Ends (Alike w) (λ t'. IsGone id t'.world) (update_location_if peers w p ies.location)
        (λ v. release_found peers r p ies (in_world (start w) v))
        (location-Alike peers w p ies.location)
        (λ v a. found-IsGone ies (in_world (start w) v) (a.same_flag ∙ off) (a.same_id p ∙ same))

pub complete-read :
    (peers : Peers) (r : ℕ) (list : List Ie) (ies : Ies) (t : Turn)
    → read_ies release_reading list no_ies ≡ some ies
    → handle_ue_context_release_complete peers r list t ≡ complete_id peers r ies.amf_id ies t
unfolding handle_ue_context_release_complete
complete-read peers r list ies t read = rw (handle_ue_context_release_complete, read) refl

pub complete-id :
    (peers : Peers) (r id p : ℕ) (ies : Ies) (w : World)
    → load w.ran_ue_pool id ≡ some p
    → complete_id peers r (some id) ies (start w) ≡ complete_by peers r (some p, w) ies (start w)
unfolding complete_id
complete-id peers r id p ies w found =
    ap (λ (x : Option ℕ × World). complete_by peers r x ies (start w))
      (find-pooled peers r w id p found)

-- A release complete that is handled to its end has taken the RanUe out of the pool, whatever the
-- action of the release, the procedure that is going on and the other IEs are. The message gives
-- the AMF's identifier, under which the pool holds the RanUe; the links between stations, RanUes
-- and the pool hold before, and the database is not used.
pub complete-frees :
    (peers : Peers) (r id p : ℕ) (list : List Ie) (ies : Ies) (w : World) (t' : Turn)
    → w.enable_db_store ≡ false
    → Linked w
    → load w.ran_ue_pool id ≡ some p
    → read_ies release_reading list no_ies ≡ some ies
    → ies.amf_id ≡ some id
    → handle_ue_context_release_complete peers r list (start w) ≡ some t'
    → load t'.world.ran_ue_pool id ≡ none
complete-frees peers r id p list ies w t' off h found read given e =
    let by = complete_by-IsGone peers r p id ies w off (h.pooled id p found) in
    let same =
      complete-read peers r list ies (start w) read
      ∙ ap (λ (o : Option ℕ). complete_id peers r o ies (start w)) given
      ∙ complete-id peers r id p ies w found in
    subst (Ends (λ (x : Turn). IsGone id x.world)) (sym same ∙ e) by
