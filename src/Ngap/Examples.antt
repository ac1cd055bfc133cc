-- ===== src/Ngap/Examples.antt =====
-- The theorems on the handlers of NGAP at concrete worlds.
use amf_cdac.Base.{
  String, ◌≡◌, ◌≢◌, refl, true, false, Option, none, some, List, [], ◌∷◌, load, store, nat_eq,
}
use amf_cdac.Types.{registered, access_3gpp, access_type_eq}
use amf_cdac.Ue.{AmfUe, zero_ue, nothing, n2_handover}
use amf_cdac.Context.State.{World}
use amf_cdac.Context.Samples.{world, world-Linked, generators, blank_ran_ue, station}
use amf_cdac.Context.Ran.{new_ran_ue, attach_ran_ue}
use amf_cdac.Context.Ran.Links.{Linked, new-Linked}
use amf_cdac.Context.Ues.{get_an_type}
use amf_cdac.Nas.Samples.{toy}
use amf_cdac.Nas.Identity.Samples.{identities}
use amf_cdac.Ngap.{
  received, Ie, amf_ue_ngap_id, ran_ue_ngap_id, cause, reset_type, part_of_ng_interface, ng_reset,
  initiating_message, Peers, Turn, start,
}
use amf_cdac.Ngap.Reading.{no_ies, read_ies}
use amf_cdac.Ngap.Finding.{
  with_ue, send_handover_preparation_failure, end_on_going, ran_ue_find_by_amf_ue_ngap_id,
}
use amf_cdac.Ngap.Resetting.{handle_ng_reset}
use amf_cdac.Ngap.Releasing.{handle_ue_context_release_request}
use amf_cdac.Ngap.Completing.{handle_ue_context_release_complete}
use amf_cdac.Ngap.Handing.{attach_or_panic, handle_handover_failure}
use amf_cdac.Ngap.Dispatching.{dispatch_ngap_msg, dispatch_initiating}
use amf_cdac.Ngap.Alike.{Alike, Alike-Linked, with_ue-Alike, attach-Alike}
use amf_cdac.Context.Stations.{new_amf_ran_id, amf_ran_find_by_gnb_id}
use amf_cdac.Ngap.Closing.{handle_sctp_notification_lb}
use amf_cdac.Ngap.Forgetting.{notification-forgets}
use amf_cdac.Ngap.Untouched.{Ends}
use amf_cdac.Ngap.Doomed.{failure-panics}
use amf_cdac.Ngap.Procedures.{resetting, dispatch-Linked}
use amf_cdac.Ngap.Released.{complete-frees}
use amf_cdac.Ngap.Straying.{release-strays}
use amf_cdac.Ngap.Answering.{answers, request-answers}

-- Every message is encoded, and nothing is in the database.
abbrev pub peers : Peers
peers = record {
  fetch_by_ran_ue_ngap_id = λ w id r. (none, w);
  fetch_by_amf_ue_ngap_id = λ w id. (none, w);
  database = record {
    db_fetch_ue_by_supi = λ w supi. (none, w);
    db_fetch_ue_by_guti = λ w guti. (none, w);
  };
  generators = generators;
  encodes = λ e. true;
  amf_id_of = λ region s. [];
  is_configured = true;
  prepares = λ u psi w. record { hands_over = true; is_released = false };
  hex_tac = λ tac. tac;
  nas = toy;
  identities = identities;
  elsewhere = λ ue. false;
  machine = λ w u an_type gmm code. some w;
  owns = λ id. none;
}

-- A UE whose handover is going on.
abbrev moving_ue : AmfUe
moving_ue = record zero_ue {
  on_going = (access_3gpp, record { procedure = n2_handover; ppi = 0 }) ∷ [];
  ran_ue = (access_3gpp, 1) ∷ [];
}

-- The RanUe 0 is the target of a handover from the RanUe 1, both of the UE 0.
abbrev handing : World
handing = record (world []) {
  ran_ues = λ p. record blank_ran_ue { amf_ue_ngap_id = 9; source_ue = some 1 };
  ues = λ u. moving_ue;
  ran_ue_pool = (9, 0) ∷ [];
}

abbrev pub or_start : Option Turn → Turn
or_start none = start (world [])
or_start (some t) = t

abbrev failure : List Ie
failure = amf_ue_ngap_id (some 9) ∷ cause (some (received 1 2)) ∷ []

failed : Turn
failed = or_start (handle_handover_failure peers 1 failure (start handing))

failed-eq : handle_handover_failure peers 1 failure (start handing) ≡ some failed
unfolding failed handle_handover_failure read_ies ran_ue_find_by_amf_ue_ngap_id load
    send_handover_preparation_failure end_on_going
failed-eq = refl

failure-panics_example :
    handle_ue_context_release_complete peers 0 (amf_ue_ngap_id (some 9) ∷ []) (start failed.world)
    ≡ none
failure-panics_example =
    failure-panics peers 1 0 9 0 0 (received 1 2) handing failed (λ e. refl)
      (record { found = unfold load in refl; held = refl; targetless = refl }) failed-eq

-- A world with a UE that is at the station 0 by the RanUe 3, which has the AMF's identifier 1.
abbrev still_ue : AmfUe
still_ue = record zero_ue { on_going = (access_3gpp, record { procedure = nothing; ppi = 0 }) ∷ [] }

abbrev joined : World
joined = (new_ran_ue generators (with_ue (world []) 0 still_ue) 0 7).1

abbrev world_of : Option World → World
world_of none = world []
world_of (some w) = w

abbrev pub settled : World
settled = world_of (attach_or_panic (attach_ran_ue joined 0 3))

pub settled-Linked : Linked settled
settled-Linked =
    let joined-Linked = new-Linked generators (with_ue (world []) 0 still_ue) 0 7 (
      Alike-Linked (world []) (with_ue (world []) 0 still_ue) (with_ue-Alike (world []) 0 still_ue)
        world-Linked) in
    by (attach_or_panic (attach_ran_ue joined 0 3)) (attach-Alike joined 0 3) joined-Linked
  where
    by : (o : Option World) → Ends (Alike joined) o → Linked joined → Linked (world_of o)
    by none h k = world-Linked
    by (some w) h k = Alike-Linked joined w h k

abbrev partial_reset : List Ie
partial_reset =
    cause (some (received 1 2))
    ∷ reset_type
        (some (part_of_ng_interface (some (record { amf_id = some 1; ran_id = none } ∷ []))))
    ∷ []

was_reset : Turn
was_reset = or_start (handle_ng_reset peers 0 partial_reset (start settled))

reset-eq :
    dispatch_ngap_msg peers 0
      (initiating_message (some (record { procedure = ng_reset; ies = some partial_reset })))
      (start settled)
    ≡ some was_reset
unfolding was_reset dispatch_ngap_msg dispatch_initiating handle_ng_reset read_ies
reset-eq = refl

dispatch-Linked_example : Linked was_reset.world
dispatch-Linked_example =
    dispatch-Linked peers 0 ng_reset (some partial_reset) settled was_reset resetting
      (unfold new_ran_ue in unfold attach_ran_ue in refl) settled-Linked reset-eq

released : Turn
released =
    or_start
      (handle_ue_context_release_complete peers 0 (amf_ue_ngap_id (some 1) ∷ []) (start settled))

released-eq :
    handle_ue_context_release_complete peers 0 (amf_ue_ngap_id (some 1) ∷ []) (start settled)
    ≡ some released
unfolding released handle_ue_context_release_complete read_ies ran_ue_find_by_amf_ue_ngap_id load
    attach_ran_ue new_ran_ue store get_an_type
released-eq = refl

complete-frees_example : load released.world.ran_ue_pool 1 ≡ none
unfolding store
complete-frees_example =
    complete-frees peers 0 1 3 (amf_ue_ngap_id (some 1) ∷ []) (record no_ies { amf_id = some 1 })
      settled released (unfold new_ran_ue in unfold attach_ran_ue in refl) settled-Linked
      (unfold new_ran_ue in unfold attach_ran_ue in unfold load in refl) (unfold read_ies in refl)
      refl released-eq

-- The same complete from the station 1.
strayed : Turn
strayed =
    or_start
      (handle_ue_context_release_complete peers 1 (amf_ue_ngap_id (some 1) ∷ []) (start settled))

strayed-eq :
    handle_ue_context_release_complete peers 1 (amf_ue_ngap_id (some 1) ∷ []) (start settled)
    ≡ some strayed
unfolding strayed handle_ue_context_release_complete read_ies ran_ue_find_by_amf_ue_ngap_id load
    attach_ran_ue new_ran_ue store get_an_type
strayed-eq = refl

release-strays_example : ¬ Linked strayed.world
unfolding store
release-strays_example =
    release-strays peers 1 0 1 3 settled strayed (λ e. absurd (cc))
      (unfold new_ran_ue in unfold attach_ran_ue in unfold load in refl)
      (unfold new_ran_ue in unfold attach_ran_ue in refl)
      (unfold new_ran_ue in unfold attach_ran_ue in refl) strayed-eq

-- A station with an identifier, and a UE that is registered over it.
abbrev served_ue : AmfUe
served_ue = record moving_ue { state = (access_3gpp, registered) ∷ [] }

abbrev serving : World
serving = record handing {
  rans = λ r. record (station []) { gnb_id = "gnb" };
  ues = λ u. served_ue;
}

abbrev request : List Ie
request = amf_ue_ngap_id (some 9) ∷ ran_ue_ngap_id (some 4) ∷ []

request-answers_example :
    answers (handle_ue_context_release_request peers 0 request (start serving)) ≡ true
request-answers_example =
    request-answers peers 0 9 4 request (record no_ies { amf_id = some 9; ran_id = some 4 }) serving
      (λ e. refl) refl (unfold read_ies in refl) refl refl
      (λ p u e none_there. absurd (unfold load in cc))

-- A station behind a load balancer.
abbrev balanced : World
balanced = new_amf_ran_id (record (world []) { enable_sctp_lb = true }) "gnb"

notification-forgets_example :
    let w' = handle_sctp_notification_lb "gnb" balanced in
    (amf_ran_find_by_gnb_id w' "gnb" ≡ none)
    × ((other : String)
        → other ≢ "gnb"
        → amf_ran_find_by_gnb_id w' other ≡ amf_ran_find_by_gnb_id balanced other)
notification-forgets_example =
    notification-forgets "gnb" balanced 1 (unfold new_amf_ran_id in refl) (λ e. absurd (cc))
      (unfold new_amf_ran_id in
        unfold amf_ran_find_by_gnb_id in unfold store in unfold load in refl)
      (unfold new_amf_ran_id in refl)
