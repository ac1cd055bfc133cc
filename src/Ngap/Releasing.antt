-- ===== src/Ngap/Releasing.antt =====
-- The release of a UE's context at a station (ngap/handler.go, HandleUEContextReleaseRequest).
-- The cause of a release is handed on to the SMF, and is left out there.
use amf_cdac.Base.{
  ℕ, Bool, true, false, Option, none, some, List, [], ◌∷◌, ◌==◌, string_eq, Map, load, nat_eq,
  if◌then◌else◌,
}
use amf_cdac.Types.{
  AccessType, access_type_eq, registered, GmmState, n2_normal_release, release_ue_context,
}
use amf_cdac.Ue.{SmContext}
use amf_cdac.Context.State.{World}
use amf_cdac.Context.Handover.{with_ran_ue}
use amf_cdac.Ngap.{
  Cause, unknown_local_ue_ngap_id, ngran_generated_reason, unspecified, Ie, amf_ue_ngap_id,
  ran_ue_ngap_id, error_indication, deactivates, releases, Peers, Turn, emit, in_world, send, ◌>>=◌,
}
use amf_cdac.Ngap.Reading.{Reading, keeps, checks, Ies, no_ies, read_ies}
use amf_cdac.Ngap.Finding.{
  ran_ue_find_by_ran_ue_ngap_id, ran_ue_find_by_amf_ue_ngap_id, send_ue_context_release_command,
}

-- Of the identifiers a nil pointer is an error, of the other IEs it is none.
abbrev pub release_reading : Ie → Reading
release_reading (amf_ue_ngap_id v) = checks
release_reading (ran_ue_ngap_id v) = checks
release_reading _ = keeps

-- ranUe.Ran = ran
abbrev pub set_ran : World → ℕ → ℕ → World
set_ran w p r = with_ran_ue w p (record (w.ran_ues p) { ran = some r })

-- The SMF is told to deactivate a session; a log line before it dereferences the UE's RanUe of the
-- station's access type.
abbrev pub deactivate : ℕ → ℕ → AccessType → Turn → Option Turn
deactivate u psi a t = elim (load (t.world.ues u).ran_ue a) [
  | none ↦ none
  | some p ↦ some (emit t (deactivates u psi))
]

-- The sessions that the station names; an unknown one is skipped.
unfoldable pub deactivate_listed : ℕ → AccessType → List ℕ → Turn → Option Turn
deactivate_listed u a [] t = some t
deactivate_listed u a (psi ∷ sessions) t = elim (load (t.world.ues u).sm_context_list psi) [
  | none ↦ deactivate_listed u a sessions t
  | some sm ↦ deactivate u psi a t >>= deactivate_listed u a sessions
]

-- The sessions that the UE has, up to the first inactive one.
unfoldable pub deactivate_active : ℕ → AccessType → Map ℕ SmContext → Turn → Option Turn
deactivate_active u a [] t = some t
deactivate_active u a ((psi, sm) ∷ rest) t =
    let next = deactivate u psi a t >>= deactivate_active u a rest in
    if sm.pdu_session_inactive_val then some t else next

unfoldable pub release_each : ℕ → Map ℕ SmContext → Turn → Turn
release_each u [] t = t
release_each u ((psi, sm) ∷ rest) t = release_each u rest (emit t (releases u psi))

unfoldable pub deactivate_each : ℕ → Map ℕ SmContext → Turn → Turn
deactivate_each u [] t = t
deactivate_each u ((psi, sm) ∷ rest) t = deactivate_each u rest (emit t (deactivates u psi))

abbrev pub is_registered : GmmState → Bool
is_registered registered = true
is_registered _ = false

abbrev pub or_unspecified : Option Cause → Cause
or_unspecified none = unspecified
or_unspecified (some c) = c

module _ (peers : Peers) (r : ℕ) where
  -- The end of a release request for a RanUe with an AmfUe.
  unfoldable pub request_of : ℕ → ℕ → Ies → Cause → Turn → Option Turn
  unfolding deactivate_listed deactivate_active release_each
  request_of p u ies cause t =
      let a = (t.world.rans r).an_type in
      let finish =
        λ (t' : Turn). some (send_ue_context_release_command peers t' p n2_normal_release cause) in
      elim (load (t.world.ues u).state a) [
        | none ↦ finish t
        | some s ↦
            if is_registered s
            then (elim ies.sessions [
              | some sessions ↦ deactivate_listed u a sessions t
              | none ↦ deactivate_active u a (t.world.ues u).sm_context_list t
            ])
              >>= finish
            else some (
                send_ue_context_release_command peers
                  (release_each u (t.world.ues u).sm_context_list t) p release_ue_context cause)
      ]

  unfoldable pub accept_of : Option ℕ → ℕ → Ies → Cause → Turn → Option Turn
  unfolding request_of
  accept_of none p ies cause t =
      some (send_ue_context_release_command peers t p n2_normal_release cause)
  accept_of (some u) p ies cause t = request_of p u ies cause t

  unfoldable pub accept_request : ℕ → Ies → Turn → Option Turn
  unfolding accept_of
  accept_request p ies t =
      let t' = in_world t (set_ran t.world p r) in
      accept_of (t'.world.ran_ues p).amf_ue p ies (or_unspecified ies.reason) t'

  abbrev pub refuse : Cause → Turn → Option Turn
  refuse cause t = some (send peers t (error_indication r cause))

  -- The station has to have an identifier, which is that of the RanUe's station if this has one.
  unfoldable pub check_gnb : ℕ → Ies → Turn → Option Turn
  unfolding accept_request
  check_gnb p ies t =
      if (t.world.rans r).gnb_id == ""
      then refuse ngran_generated_reason t
      else elim (t.world.ran_ues p).ran [
        | none ↦ accept_request p ies t
        | some q ↦
            if (t.world.rans q).gnb_id == (t.world.rans r).gnb_id
            then accept_request p ies t
            else refuse unknown_local_ue_ngap_id t
      ]

  unfoldable pub found_or_refused : Option ℕ × World → Ies → Turn → Option Turn
  unfolding check_gnb
  found_or_refused (none, w) ies t = refuse unknown_local_ue_ngap_id (in_world t w)
  found_or_refused (some p, w) ies t = check_gnb p ies (in_world t w)

  -- The RanUe by the identifier of the AMF, and else by that of the station.
  unfoldable pub request_by : Option ℕ × World → Ies → Turn → Option Turn
  unfolding found_or_refused
  request_by (some p, w) ies t = found_or_refused (some p, w) ies t
  request_by (none, w) ies t = elim ies.ran_id [
    | none ↦ none
    | some id ↦ found_or_refused (ran_ue_find_by_ran_ue_ngap_id peers w r id) ies t
  ]

  unfoldable pub request_id : Option ℕ → Ies → Turn → Option Turn
  unfolding request_by
  request_id none ies t = none
  request_id (some id) ies t = request_by (ran_ue_find_by_amf_ue_ngap_id peers t.world id) ies t

  -- HandleUEContextReleaseRequest
  unfoldable pub handle_ue_context_release_request : List Ie → Turn → Option Turn
  unfolding request_id
  handle_ue_context_release_request list t = elim (read_ies release_reading list no_ies) [
    | none ↦ some t
    | some ies ↦ request_id ies.amf_id ies t
  ]
