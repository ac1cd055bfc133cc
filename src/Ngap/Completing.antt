-- ===== src/Ngap/Completing.antt =====
-- The end of a release (ngap/handler.go, HandleUEContextReleaseComplete). Cells that the station
-- recommends for paging are only stored for later, and are left out.
use amf_cdac.Base.{ℕ, not, Option, none, some, List, string_eq, load, nat_eq, if◌then◌else◌}
use amf_cdac.Types.{
  access_type_eq, RelAction, n2_normal_release, release_handover, release_ue_context,
  release_nw_initiated,
}
use amf_cdac.Ue.{OnGoingProcedure, n2_handover}
use amf_cdac.Context.State.{World, Outcome, done, error, panics}
use amf_cdac.Context.Handover.{detach_source_target}
use amf_cdac.Context.Ran.{remove_ran_ue, attach_ran_ue}
use amf_cdac.Context.Ues.{get_an_type, remove_amf_ue}
use amf_cdac.Ngap.{
  unknown_local_ue_ngap_id, Ie, error_indication, publishes_ue_context, stores_context,
  deletes_context, Peers, Turn, emit, in_world, send, ◌>>=◌,
}
use amf_cdac.Ngap.Reading.{Ies, no_ies, read_ies}
use amf_cdac.Ngap.Finding.{
  ran_ue_find_by_amf_ue_ngap_id, update_location_if, end_on_going, set_release_cause,
}
use amf_cdac.Ngap.Releasing.{
  release_reading, set_ran, deactivate_listed, deactivate_each, is_registered,
}

module _ (peers : Peers) (r : ℕ) where
  -- The sessions of a registered UE: those that the station names, or all; for all of them a log
  -- line dereferences the UE's RanUe.
  unfoldable pub settle_sessions : ℕ → Ies → Turn → Option Turn
  unfolding deactivate_listed deactivate_each
  settle_sessions u ies t = elim ies.sessions [
    | some sessions ↦ deactivate_listed u (t.world.rans r).an_type sessions t
    | none ↦ elim (load (t.world.ues u).ran_ue (t.world.rans r).an_type) [
      | none ↦ none
      | some q ↦ some (deactivate_each u (t.world.ues u).sm_context_list t)
    ]
  ]

  -- A N2 handover ends here, and the SMF is told nothing.
  unfoldable pub settle_by : OnGoingProcedure → ℕ → Ies → Turn → Option Turn
  unfolding settle_sessions end_on_going
  settle_by n2_handover u ies t =
      end_on_going t.world u (get_an_type (t.world.ues u)) >>= λ w. some (in_world t w)
  settle_by _ u ies t = elim (load (t.world.ues u).state (t.world.rans r).an_type) [
    | none ↦ some t
    | some s ↦ if is_registered s then settle_sessions u ies t else some t
  ]

  -- The SM contexts when a release is complete, by the procedure that is going on.
  unfoldable pub settle : ℕ → Ies → Turn → Option Turn
  unfolding settle_by
  settle u ies t = elim (load (t.world.ues u).on_going (get_an_type (t.world.ues u))) [
    | none ↦ none
    | some on_going ↦ settle_by on_going.procedure u ies t
  ]

  abbrev pub forget_cause : ℕ → Turn → Turn
  forget_cause u t = in_world t (set_release_cause t.world u (t.world.rans r).an_type none)

  -- The RanUe is removed; an error of Remove is logged.
  abbrev pub removed : ℕ → Turn → Turn
  removed p t = in_world t (remove_ran_ue t.world p).1

  -- The UE's context goes as well, from memory and from the database.
  abbrev pub drop_ue : ℕ → Turn → Turn
  drop_ue u t =
      let told = emit t (publishes_ue_context u) in
      emit (in_world told (remove_amf_ue told.world u)) (deletes_context u)

  abbrev pub keep_ue : ℕ → Turn → Turn
  keep_ue u t = emit (emit t (publishes_ue_context u)) (stores_context u)

  abbrev pub attached : Outcome → ℕ → Turn → Option Turn
  attached (done w) u t = some (emit (in_world t w) (publishes_ue_context u))
  attached error u t = none
  attached panics u t = none

  abbrev pub stationed : World → ℕ → World
  stationed w q = elim (w.ran_ues q).ran [ none ↦ set_ran w q r | some s ↦ w ]

  -- The target of a handover, found by its identifier, takes the place of the source `p`.
  unfoldable pub hand_over : Option ℕ × World → ℕ → ℕ → Turn → Option Turn
  hand_over (none, w) p u t = none
  hand_over (some q, w) p u t =
      let t' = removed p (in_world t (detach_source_target (stationed w q) (some p))) in
      attached (attach_ran_ue t'.world u q) u t'

  unfoldable pub by_action : RelAction → ℕ → ℕ → Turn → Option Turn
  unfolding hand_over
  by_action n2_normal_release p u t = some (keep_ue u (removed p t))
  by_action release_ue_context p u t =
      let t' = removed p t in
      if not (t'.world.ues u).security_context_available
      then some (drop_ue u t')
      else some (keep_ue u t')
  by_action release_nw_initiated p u t = some (drop_ue u (removed p t))
  by_action release_handover p u t = elim (t.world.ran_ues p).target_ue [
    | none ↦ none
    | some q ↦
        let id = (t.world.ran_ues q).amf_ue_ngap_id in
        hand_over (ran_ue_find_by_amf_ue_ngap_id peers t.world id) p u t
  ]

  unfoldable pub release_of : Option ℕ → ℕ → Ies → Turn → Option Turn
  unfolding settle by_action
  release_of none p ies t = some (removed p t)
  release_of (some u) p ies t = settle u ies t >>= λ t1.
      let t2 = forget_cause u t1 in by_action (t2.world.ran_ues p).release_action p u t2

  -- From the station's assignment to the RanUe on.
  unfoldable pub release_found : ℕ → Ies → Turn → Option Turn
  unfolding release_of
  release_found p ies t =
      let t1 = in_world t (set_ran t.world p r) in release_of (t1.world.ran_ues p).amf_ue p ies t1

  unfoldable pub complete_by : Option ℕ × World → Ies → Turn → Option Turn
  unfolding release_found
  complete_by (none, w) ies t =
      some (send peers (in_world t w) (error_indication r unknown_local_ue_ngap_id))
  complete_by (some p, w) ies t =
      update_location_if peers w p ies.location >>= λ w'. release_found p ies (in_world t w')

  unfoldable pub complete_id : Option ℕ → Ies → Turn → Option Turn
  unfolding complete_by
  complete_id none ies t = none
  complete_id (some id) ies t = complete_by (ran_ue_find_by_amf_ue_ngap_id peers t.world id) ies t

  -- HandleUEContextReleaseComplete
  unfoldable pub handle_ue_context_release_complete : List Ie → Turn → Option Turn
  unfolding complete_id
  handle_ue_context_release_complete list t = elim (read_ies release_reading list no_ies) [
    | none ↦ some t
    | some ies ↦ complete_id ies.amf_id ies t
  ]
