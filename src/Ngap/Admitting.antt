-- ===== src/Ngap/Admitting.antt =====
-- The answer of a handover's target (ngap/handler.go, HandleHandoverRequestAcknowledge).
use amf_cdac.Base.{
  ℕ, Option, none, some, List, [], ◌∷◌, ◌++◌, load, nat_eq, if◌then◌else◌, length, ltb,
}
use amf_cdac.Types.{Bytes}
use amf_cdac.Context.State.{World}
use amf_cdac.Context.Handover.{with_ran_ue}
use amf_cdac.Ngap.{
  ho_failure_in_target, Ie, missing_ie_indication, handover_command, prepares_handover, Peers, Turn,
  emit, in_world, send, ◌>>=◌,
}
use amf_cdac.Ngap.Reading.{Ies, no_ies, read_ies}
use amf_cdac.Ngap.Finding.{ran_ue_find_by_amf_ue_ngap_id, send_handover_preparation_failure}
use amf_cdac.Ngap.Releasing.{set_ran}
use amf_cdac.Ngap.Handing.{outcome_reading}

-- The sessions for the handover command and those for a release.
pub record Admission : Type 0 where
  pub handed : List ℕ
  pub refused : List ℕ
  pub turn : Turn

-- targetUe.SuccessPduSessionId grows by a session.
abbrev pub note_success : ℕ → ℕ → Turn → Turn
note_success p psi t =
    let ue = t.world.ran_ues p in
    in_world t (
      with_ran_ue t.world p
        (record ue { success_pdu_session_id = ue.success_pdu_session_id ++ psi ∷ [] }))

module _ (peers : Peers) where
  -- One admitted session that the UE has.
  unfoldable pub admit_session : ℕ → ℕ → ℕ → Admission → Admission
  admit_session p u psi a =
      let answer = peers.prepares u psi a.turn.world in
      let asked = emit a.turn (prepares_handover u psi) in
      let refused = if answer.is_released then a.refused ++ psi ∷ [] else a.refused in
      if answer.hands_over
      then record {
        handed = a.handed ++ psi ∷ [];
        refused = refused;
        turn = note_success p psi asked;
      }
      else record { handed = a.handed; refused = refused; turn = asked }

  unfoldable pub admit_all : ℕ → ℕ → List ℕ → Admission → Admission
  unfolding admit_session
  admit_all p u [] a = a
  admit_all p u (psi ∷ sessions) a =
      admit_all p u sessions (elim (load (a.turn.world.ues u).sm_context_list psi) [
        | none ↦ a
        | some sm ↦ admit_session p u psi a
      ])

  unfoldable pub fail_all : ℕ → List ℕ → Turn → Turn
  fail_all u [] t = t
  fail_all u (psi ∷ sessions) t =
      fail_all u sessions (elim (load (t.world.ues u).sm_context_list psi) [
        | none ↦ t
        | some sm ↦ emit t (prepares_handover u psi)
      ])

  abbrev pub listed : Option (List ℕ) → List ℕ
  listed none = []
  listed (some sessions) = sessions

  -- SendHandoverCommand: neither list may have more than MaxNumOfPDUSessions, 256, entries.
  unfoldable pub send_handover_command : ℕ → List ℕ → List ℕ → Bytes → Turn → Turn
  send_handover_command s handed refused container t =
      if ltb 256 (length handed)
      then t
      else if ltb 256 (length refused)
      then t
      else send peers t (handover_command s handed refused container)

  -- The source gets the command, or the failure when no session is handed over; the container is
  -- dereferenced for the command.
  unfoldable pub answer_source : ℕ → Ies → Admission → Option Turn
  unfolding send_handover_command
  answer_source s ies a = elim a.handed [
    | [] ↦ send_handover_preparation_failure peers a.turn s ho_failure_in_target
    | psi ∷ rest ↦ ies.container >>= λ container.
        some (send_handover_command s (psi ∷ rest) a.refused container a.turn)
  ]

  unfoldable pub admit_for : ℕ → ℕ → Ies → Turn → Option Turn
  unfolding admit_all fail_all answer_source
  admit_for p u ies t =
      let a =
        admit_all p u (listed ies.admitted) (record { handed = []; refused = []; turn = t }) in
      let t' = fail_all u (listed ies.failed) a.turn in
      elim (t'.world.ran_ues p).source_ue [
        | none ↦ some t'
        | some s ↦ answer_source s ies (record a { turn = t' })
      ]

  abbrev pub take_ran_id : World → ℕ → Option ℕ → World
  take_ran_id w p none = w
  take_ran_id w p (some id) = with_ran_ue w p (record (w.ran_ues p) { ran_ue_ngap_id = id })

  -- HandleHandoverRequestAcknowledge: a missing container is reported, and the handler goes on.
  unfoldable pub handle_handover_request_acknowledge : ℕ → List Ie → Turn → Option Turn
  unfolding admit_for
  handle_handover_request_acknowledge r list t = elim (read_ies outcome_reading list no_ies) [
    | none ↦ some t
    | some ies ↦
        let t1 : Turn = elim ies.container [
          | none ↦ send peers t (missing_ie_indication r)
          | some c ↦ t
        ] in
        ies.amf_id >>= λ id.
        let found = ran_ue_find_by_amf_ue_ngap_id peers t1.world id in
        elim found.0 [
          | none ↦ some (in_world t1 found.1)
          | some p ↦
              let t2 = in_world t1 (set_ran (take_ran_id found.1 p ies.ran_id) p r) in
              elim (t2.world.ran_ues p).amf_ue [ none ↦ some t2 | some u ↦ admit_for p u ies t2 ]
        ]
  ]
