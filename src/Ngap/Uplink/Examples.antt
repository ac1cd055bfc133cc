-- ===== src/Ngap/Uplink/Examples.antt =====
-- The theorem on the uplink messages of NAS at a registration request of a UE.
use amf_cdac.Base.{◌≡◌, refl, some, List, [], ◌∷◌, true, load, nat_eq}
use amf_cdac.Types.{registered, access_3gpp, access_type_eq}
use amf_cdac.Context.State.{World}
use amf_cdac.Context.Ran.{new_ran_ue, attach_ran_ue, find_by_ran_ue_ngap_id}
use amf_cdac.Nas.Handler.{handle_nas, dispatch_msg}
use amf_cdac.Nas.Decode.{decode}
use amf_cdac.Ngap.{Ie, amf_ue_ngap_id, ran_ue_ngap_id, nas_pdu, Peers, Turn, start}
use amf_cdac.Ngap.Reading.{read_ies}
use amf_cdac.Ngap.Finding.{with_ue, ran_ue_find_by_ran_ue_ngap_id}
use amf_cdac.Ngap.Resetting.{handle_uplink_nas_transport}
use amf_cdac.Ngap.Examples.{peers, settled, or_start}

-- The UE is registered; the state machine notes the message in its context.
abbrev at_work : World
at_work = with_ue settled 0 (record (settled.ues 0) { state = (access_3gpp, registered) ∷ [] })

abbrev noting : Peers
noting = record peers {
  machine = λ w u an_type gmm code.
      some (with_ue w u (record (w.ues u) { retransmission_of_initial_nas_msg = true }));
}

abbrev request : List Ie
request =
    amf_ue_ngap_id (some 1) ∷ ran_ue_ngap_id (some 7) ∷ nas_pdu (some (126 ∷ 0 ∷ 65 ∷ [])) ∷ []

answered : Turn
answered = or_start (handle_uplink_nas_transport noting 0 request (start at_work))

-- The message has reached the state machine.
answered-noted : (answered.world.ues 0).retransmission_of_initial_nas_msg ≡ true
unfolding answered handle_uplink_nas_transport read_ies ran_ue_find_by_ran_ue_ngap_id
    find_by_ran_ue_ngap_id attach_ran_ue new_ran_ue handle_nas dispatch_msg decode load
answered-noted = refl
