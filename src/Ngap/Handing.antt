-- ===== src/Ngap/Handing.antt =====
-- The messages of a N2 handover (ngap/handler.go: HandleHandoverNotify,
-- HandleHandoverRequestAcknowledge, HandleHandoverFailure and HandleHandoverCancel).
use amf_cdac.Base.{ℕ, true, Option, none, some, List, [], ◌∷◌, Map, load, nat_eq}
use amf_cdac.Types.{release_handover}
use amf_cdac.Ue.{SmContext}
use amf_cdac.Context.State.{World, Outcome, done, error, panics}
use amf_cdac.Context.Handover.{with_ran_ue}
use amf_cdac.Context.Ran.{attach_ran_ue}
use amf_cdac.Ngap.{
  Cause, unknown_local_ue_ngap_id, ho_failure_in_target, successful_handover, Ie, amf_ue_ngap_id,
  ran_ue_ngap_id, cause, user_location, error_indication, handover_cancel_acknowledge,
  completes_handover, cancels_handover, stores_context, Peers, Turn, emit, in_world, send, ◌>>=◌,
}
use amf_cdac.Ngap.Reading.{Reading, ignores, keeps, checks, Ies, no_ies, read_ies}
use amf_cdac.Ngap.Finding.{
  ran_ue_find_by_ran_ue_ngap_id, ran_ue_find_by_amf_ue_ngap_id, update_location_if,
  send_ue_context_release_command, send_handover_preparation_failure,
}
use amf_cdac.Ngap.Releasing.{set_ran}

abbrev pub notify_reading : Ie → Reading
notify_reading (amf_ue_ngap_id v) = checks
notify_reading (ran_ue_ngap_id v) = checks
notify_reading (user_location v) = checks
notify_reading _ = ignores

abbrev pub cancel_reading : Ie → Reading
cancel_reading (amf_ue_ngap_id v) = checks
cancel_reading (ran_ue_ngap_id v) = checks
cancel_reading (cause v) = checks
cancel_reading _ = ignores

abbrev pub outcome_reading : Ie → Reading
outcome_reading _ = keeps

-- The SMF is told of each session that was handed over; the consumer dereferences the SM context,
-- which is nil for an unknown session.
unfoldable pub complete_each : ℕ → List ℕ → Turn → Option Turn
complete_each u [] t = some t
complete_each u (psi ∷ sessions) t = elim (load (t.world.ues u).sm_context_list psi) [
  | none ↦ none
  | some sm ↦ complete_each u sessions (emit t (completes_handover u psi))
]

-- The SMF is told of each session whose handover is given up.
unfoldable pub cancel_each : ℕ → Map ℕ SmContext → Turn → Turn
cancel_each u [] t = t
cancel_each u ((psi, sm) ∷ rest) t = cancel_each u rest (emit t (cancels_handover u psi))

abbrev pub cancel_of : Option ℕ → Turn → Turn
cancel_of none t = t
cancel_of (some u) t = cancel_each u (t.world.ues u).sm_context_list t

abbrev pub attach_or_panic : Outcome → Option World
attach_or_panic (done w) = some w
attach_or_panic error = none
attach_or_panic panics = none

abbrev pub or_else : Option Cause → Cause → Cause
or_else none c = c
or_else (some c) d = c

module _ (peers : Peers) (r : ℕ) where
  abbrev pub mark_set_up : ℕ → Turn → Turn
  mark_set_up p t = in_world t (
      with_ran_ue t.world p
        (record (t.world.ran_ues p) { sent_initial_context_setup_request = true }))

  -- The UE moves to the target, and the context at the source is released.
  unfoldable pub notify_source : ℕ → ℕ → ℕ → Turn → Option Turn
  unfolding complete_each
  notify_source p u s t = complete_each u (t.world.ran_ues p).success_pdu_session_id t >>= λ t1.
      attach_or_panic (attach_ran_ue t1.world u p) >>= λ w. some (
        send_ue_context_release_command peers (emit (in_world t1 w) (stores_context u)) s
          release_handover successful_handover)

  unfoldable pub notify_target : ℕ → Turn → Option Turn
  unfolding notify_source
  notify_target p t = elim (t.world.ran_ues p).amf_ue [
    | none ↦ some t
    | some u ↦ elim (t.world.ran_ues p).source_ue [
      | none ↦ some (mark_set_up p t)
      | some s ↦ notify_source p u s t >>= λ t'. some (mark_set_up p t')
    ]
  ]

  abbrev pub notify_found : Ies → Turn → Option ℕ × World → Option Turn
  notify_found ies t (none, w) = ies.amf_id >>= λ amf.
      some (send peers (in_world t w) (error_indication r unknown_local_ue_ngap_id))
  notify_found ies t (some p, w) =
      update_location_if peers w p ies.location >>= λ w'. notify_target p (in_world t w')

  -- HandleHandoverNotify; the AMF's identifier is dereferenced for the log of an unknown RanUe.
  unfoldable pub handle_handover_notify : List Ie → Turn → Option Turn
  unfolding notify_target
  handle_handover_notify list t = elim (read_ies notify_reading list no_ies) [
    | none ↦ some t
    | some ies ↦
        ies.ran_id >>= λ id. notify_found ies t (ran_ue_find_by_ran_ue_ngap_id peers t.world r id)
  ]

  -- The failure at the target is told to the source; its cause is dereferenced there.
  unfoldable pub fail_target : ℕ → Ies → Turn → Option Turn
  unfolding cancel_each
  fail_target p ies t =
      let t1 = in_world t (set_ran t.world p r) in
      let given = or_else ies.reason ho_failure_in_target in
      let release =
        λ (t' : Turn). some (send_ue_context_release_command peers t' p release_handover given) in
      elim (t1.world.ran_ues p).source_ue [
        | none ↦ release t1
        | some s ↦ ies.reason >>= λ c.
            send_handover_preparation_failure peers (cancel_of (t1.world.ran_ues p).amf_ue t1) s c
            >>= release
      ]

  abbrev pub fail_by : Option ℕ × World → Ies → Turn → Option Turn
  fail_by (none, w) ies t =
      some (send peers (in_world t w) (error_indication r unknown_local_ue_ngap_id))
  fail_by (some p, w) ies t = fail_target p ies (in_world t w)

  -- HandleHandoverFailure
  unfoldable pub handle_handover_failure : List Ie → Turn → Option Turn
  unfolding fail_target
  handle_handover_failure list t = elim (read_ies outcome_reading list no_ies) [
    | none ↦ some t
    | some ies ↦ ies.amf_id >>= λ id. fail_by (ran_ue_find_by_amf_ue_ngap_id peers t.world id) ies t
  ]

  -- The target of a handover that the source cancels is released.
  unfoldable pub cancel_source : ℕ → Ies → Turn → Turn
  unfolding cancel_each
  cancel_source p ies t = elim (t.world.ran_ues p).target_ue [
    | none ↦ t
    | some q ↦
        let t' = cancel_of (t.world.ran_ues p).amf_ue t in
        send peers
          (send_ue_context_release_command peers t' q release_handover
            (or_else ies.reason ho_failure_in_target))
          (handover_cancel_acknowledge p)
  ]

  abbrev pub cancel_found : Ies → Turn → Option ℕ × World → Option Turn
  cancel_found ies t (none, w) =
      some (send peers (in_world t w) (error_indication r unknown_local_ue_ngap_id))
  cancel_found ies t (some p, w) = ies.amf_id >>= λ amf. some (cancel_source p ies (in_world t w))

  -- HandleHandoverCancel; the AMF's identifier is compared for the log.
  unfoldable pub handle_handover_cancel : List Ie → Turn → Option Turn
  unfolding cancel_source
  handle_handover_cancel list t = elim (read_ies cancel_reading list no_ies) [
    | none ↦ some t
    | some ies ↦
        ies.ran_id >>= λ id. cancel_found ies t (ran_ue_find_by_ran_ue_ngap_id peers t.world r id)
  ]
