-- ===== src/Ngap/Fetching.antt =====
-- The RanUe that a message is about (ngap/handler.go, FetchRanUeContext).
use amf_cdac.Base.{ℕ, Option, none, some, List, [], ◌∷◌, ◌++◌, ◌==◌, string_eq, if◌then◌else◌}
use amf_cdac.Types.{Bytes}
use amf_cdac.Nas.Identity.{encode_to_string}
use amf_cdac.Context.State.{World, done, error, panics, Guami}
use amf_cdac.Context.Ran.{new_ran_ue, attach_ran_ue}
use amf_cdac.Context.Ues.{amf_ue_find_by_guti}
use amf_cdac.Ngap.{
  FiveGstmsi, Ie, amf_ue_ngap_id, ran_ue_ngap_id, source_amf_ue_ngap_id, five_g_s_tmsi, Initiating,
  initial_ue_message, uplink_nas_transport, handover_cancel, ue_context_release_request,
  nas_non_delivery_indication, ue_radio_capability_info_indication, handover_notification,
  handover_preparation, pdu_session_resource_notify, path_switch_request,
  pdu_session_resource_modify_indication, Successful, ue_context_released,
  pdu_session_resource_released, initial_context_set_up, ue_context_modified,
  pdu_session_resource_set_up, pdu_session_resource_modified, handover_resource_allocated,
  Unsuccessful, initial_context_setup_failed, ue_context_modification_failed,
  handover_resource_allocation_failed, Pdu, initiating_message, successful_outcome,
  unsuccessful_outcome, other_choice, Peers, ◌>>=◌,
}
use amf_cdac.Ngap.Reading.{Reading, ignores, keeps, checks, Ies, no_ies, read_ies}
use amf_cdac.Ngap.Finding.{ran_ue_find_by_ran_ue_ngap_id, ran_ue_find_by_amf_ue_ngap_id}
use amf_cdac.Ngap.Releasing.{set_ran}

-- By which identifier a procedure is looked up: `by_ran_id` and `by_amf_id` dereference a nil body.
pub data Way : Type 0 where
  nowhere initially by_checked_ran_id by_ran_id by_amf_id by_source by_either : Way

unfoldable pub initiating_way : Initiating → Way
initiating_way initial_ue_message = initially
initiating_way uplink_nas_transport = by_checked_ran_id
initiating_way handover_cancel = by_ran_id
initiating_way ue_context_release_request = by_either
initiating_way nas_non_delivery_indication = by_ran_id
initiating_way ue_radio_capability_info_indication = by_ran_id
initiating_way handover_notification = by_ran_id
initiating_way handover_preparation = by_ran_id
initiating_way pdu_session_resource_notify = by_ran_id
initiating_way path_switch_request = by_source
initiating_way pdu_session_resource_modify_indication = by_amf_id
initiating_way _ = nowhere

unfoldable pub successful_way : Successful → Way
successful_way ue_context_released = by_amf_id
successful_way pdu_session_resource_released = by_ran_id
successful_way initial_context_set_up = by_ran_id
successful_way ue_context_modified = by_ran_id
successful_way pdu_session_resource_set_up = by_ran_id
successful_way pdu_session_resource_modified = by_ran_id
successful_way handover_resource_allocated = by_amf_id
successful_way _ = nowhere

unfoldable pub unsuccessful_way : Unsuccessful → Way
unsuccessful_way initial_context_setup_failed = by_ran_id
unsuccessful_way ue_context_modification_failed = by_ran_id
unsuccessful_way handover_resource_allocation_failed = by_amf_id
unsuccessful_way _ = nowhere

abbrev pub initial_reading : Ie → Reading
initial_reading (ran_ue_ngap_id v) = checks
initial_reading (five_g_s_tmsi v) = keeps
initial_reading _ = ignores

abbrev pub ran_id_reading : Ie → Reading
ran_id_reading (ran_ue_ngap_id v) = checks
ran_id_reading (amf_ue_ngap_id v) = keeps
ran_id_reading _ = ignores

abbrev pub amf_id_reading : Ie → Reading
amf_id_reading (amf_ue_ngap_id v) = checks
amf_id_reading _ = ignores

abbrev pub source_reading : Ie → Reading
source_reading (source_amf_ue_ngap_id v) = checks
source_reading _ = ignores

abbrev pub either_reading : Ie → Reading
either_reading (amf_ue_ngap_id v) = checks
either_reading (ran_ue_ngap_id v) = checks
either_reading _ = ignores

-- The RanUe, the AMF's identifier, and the world.
pub record Fetched : Type 0 where
  pub ran_ue : Option ℕ
  pub amf_id : Option ℕ
  pub world : World

abbrev pub nothing_at : World → Option Fetched
nothing_at w = some (record { ran_ue = none; amf_id = none; world = w })

abbrev pub fetched : Option ℕ → Option ℕ × World → Option Fetched
fetched amf_id found = some (record { ran_ue = found.0; amf_id = amf_id; world = found.1 })

module _ (peers : Peers) (r : ℕ) where
  -- A new RanUe for a known UE; the error of NewRanUe leaves a nil pointer that is dereferenced.
  unfoldable pub new_for : ℕ → Option ℕ × World → Option Fetched
  new_for u (none, w) = none
  new_for u (some p, w) = elim (attach_ran_ue w u p) [
    | done w' ↦ some (record { ran_ue = some p; amf_id = none; world = w' })
    | error ↦ none
    | panics ↦ none
  ]

  abbrev pub guti_text : Guami → FiveGstmsi → Bytes
  guti_text served s =
      served.mcc ++ (served.mnc ++ (peers.amf_id_of served.amf_id s ++ encode_to_string s.tmsi))

  -- An initial message of a UE that is not at the station: by its GUTI, if it gives one.
  unfoldable pub fetch_by_tmsi : ℕ → Option FiveGstmsi → World → Option Fetched
  unfolding new_for
  fetch_by_tmsi id none w = nothing_at w
  fetch_by_tmsi id (some s) w = elim w.served_guami_list [
    | [] ↦ none
    | served ∷ rest ↦
        let found = amf_ue_find_by_guti peers.database w (guti_text served s) in
        elim found.0 [
          | none ↦ nothing_at found.1
          | some u ↦ new_for u (new_ran_ue peers.generators found.1 r id)
        ]
  ]

  unfoldable pub fetch_initial : Ies → World → Option Fetched
  unfolding fetch_by_tmsi
  fetch_initial ies w = ies.ran_id >>= λ id.
      let found = ran_ue_find_by_ran_ue_ngap_id peers w r id in
      elim found.0 [ some p ↦ fetched none found | none ↦ fetch_by_tmsi id ies.tmsi found.1 ]

  unfoldable pub fetch_by_ran_id : Ies → World → Option Fetched
  fetch_by_ran_id ies w =
      ies.ran_id >>= λ id. fetched ies.amf_id (ran_ue_find_by_ran_ue_ngap_id peers w r id)

  unfoldable pub fetch_by_amf_id : Ies → World → Option Fetched
  fetch_by_amf_id ies w =
      ies.amf_id >>= λ id. fetched ies.amf_id (ran_ue_find_by_amf_ue_ngap_id peers w id)

  -- The station of the RanUe becomes this one if it has none or one of the same identifier.
  abbrev pub adopt : World → ℕ → World
  adopt w p = elim (w.ran_ues p).ran [
    | none ↦ set_ran w p r
    | some q ↦ if (w.rans q).gnb_id == (w.rans r).gnb_id then set_ran w p r else w
  ]

  unfoldable pub fetch_by_either : Ies → World → Option Fetched
  unfolding fetch_by_ran_id
  fetch_by_either ies w = ies.amf_id >>= λ id.
      let found = ran_ue_find_by_amf_ue_ngap_id peers w id in
      elim found.0 [
        | some p ↦ fetched ies.amf_id (some p, adopt found.1 p)
        | none ↦ fetch_by_ran_id ies found.1
      ]

  -- The IEs are read, and a nil pointer among those that are checked ends the lookup.
  abbrev pub reading :
      (Ie → Reading) → List Ie → World → (Ies → World → Option Fetched) → Option Fetched
  reading reads list w k = elim (read_ies reads list no_ies) [
    | none ↦ nothing_at w
    | some ies ↦ k ies w
  ]

  unfoldable pub fetch : Way → Option (List Ie) → World → Option Fetched
  unfolding fetch_initial fetch_by_ran_id fetch_by_amf_id fetch_by_either
  fetch nowhere body w = nothing_at w
  fetch initially none w = nothing_at w
  fetch initially (some list) w = reading initial_reading list w fetch_initial
  fetch by_checked_ran_id none w = nothing_at w
  fetch by_checked_ran_id (some list) w = reading ran_id_reading list w fetch_by_ran_id
  fetch by_ran_id none w = none
  fetch by_ran_id (some list) w = reading ran_id_reading list w fetch_by_ran_id
  fetch by_amf_id none w = none
  fetch by_amf_id (some list) w = reading amf_id_reading list w fetch_by_amf_id
  fetch by_source none w = none
  fetch by_source (some list) w = reading source_reading list w fetch_by_amf_id
  fetch by_either none w = none
  fetch by_either (some list) w = reading either_reading list w fetch_by_either

  -- FetchRanUeContext; `none` is a nil pointer dereferenced.
  unfoldable pub fetch_pdu : Pdu → World → Option Fetched
  unfolding fetch initiating_way successful_way unsuccessful_way
  fetch_pdu (initiating_message (some m)) w = fetch (initiating_way m.procedure) m.ies w
  fetch_pdu (successful_outcome (some m)) w = fetch (successful_way m.procedure) m.ies w
  fetch_pdu (unsuccessful_outcome (some m)) w = fetch (unsuccessful_way m.procedure) m.ies w
  fetch_pdu (initiating_message none) w = nothing_at w
  fetch_pdu (successful_outcome none) w = nothing_at w
  fetch_pdu (unsuccessful_outcome none) w = nothing_at w
  fetch_pdu other_choice w = nothing_at w

  unfoldable pub fetch_ran_ue_context : Pdu → World → Option Fetched
  unfolding fetch_pdu
  fetch_ran_ue_context pdu w = if peers.is_configured then fetch_pdu pdu w else nothing_at w
