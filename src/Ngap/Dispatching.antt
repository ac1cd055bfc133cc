-- ===== src/Ngap/Dispatching.antt =====
-- The entry of NGAP messages (ngap/dispatcher.go): Dispatch and DispatchLb find the station and the
-- UE, whose channel takes the message, and DispatchNgapMsg calls the handler. What is sent to a
-- load balancer by the channel of a station is not followed further; the goroutine of a message without
-- a UE is run at once.
use amf_cdac.Base.{
  ℕ, suc, String, true, false, Option, none, some, List, ◌==◌, string_eq, if◌then◌else◌,
}
use amf_cdac.Context.State.{World, update}
use amf_cdac.Context.Ran.{remove_ran_ue}
use amf_cdac.Context.Ues.{remove_amf_ue}
use amf_cdac.Context.Stations.{
  zero_ran, new_amf_ran, new_amf_ran_id, amf_ran_find_by_conn, amf_ran_find_by_gnb_id,
  remove_amf_ran,
}
use amf_cdac.Ngap.{
  Ie, Initiating, initial_ue_message, uplink_nas_transport, ng_reset, handover_cancel,
  ue_context_release_request, nas_non_delivery_indication, handover_notification, Successful,
  ue_context_released, handover_resource_allocated, Unsuccessful,
  handover_resource_allocation_failed, Pdu, initiating_message, successful_outcome,
  unsuccessful_outcome, other_choice, submits, redirects, handles_initiating, handles_successful,
  handles_unsuccessful, other_initiating, other_successful, other_unsuccessful, Peers, Turn, emit,
  in_world, ◌>>=◌,
}
use amf_cdac.Ngap.Releasing.{handle_ue_context_release_request}
use amf_cdac.Ngap.Completing.{handle_ue_context_release_complete}
use amf_cdac.Ngap.Resetting.{
  handle_ng_reset, handle_uplink_nas_transport, handle_nas_non_delivery_indication,
}
use amf_cdac.Ngap.Handing.{handle_handover_notify, handle_handover_failure, handle_handover_cancel}
use amf_cdac.Ngap.Admitting.{handle_handover_request_acknowledge}
use amf_cdac.Ngap.Fetching.{Fetched, fetch_ran_ue_context}

-- What a station sent: nothing, what does not decode, or a PDU.
pub data Packet : Type 0 where
  empty undecodable : Packet
  decoded : Pdu → Packet

-- A handler returns at once when the body of its message is nil.
abbrev pub with_body : Option (List Ie) → (List Ie → Turn → Option Turn) → Turn → Option Turn
with_body none handle t = some t
with_body (some list) handle t = handle list t

module _ (peers : Peers) where
  unfoldable pub dispatch_initiating : ℕ → Initiating → Option (List Ie) → Turn → Option Turn
  dispatch_initiating r ng_reset body t = with_body body (handle_ng_reset peers r) t
  dispatch_initiating r uplink_nas_transport body t =
      with_body body (handle_uplink_nas_transport peers r) t
  dispatch_initiating r handover_cancel body t = with_body body (handle_handover_cancel peers r) t
  dispatch_initiating r ue_context_release_request body t =
      with_body body (handle_ue_context_release_request peers r) t
  dispatch_initiating r nas_non_delivery_indication body t =
      with_body body (handle_nas_non_delivery_indication peers r) t
  dispatch_initiating r handover_notification body t =
      with_body body (handle_handover_notify peers r) t
  dispatch_initiating r other_initiating body t = some t
  dispatch_initiating r procedure body t = some (emit t (handles_initiating procedure r))

  unfoldable pub dispatch_successful : ℕ → Successful → Option (List Ie) → Turn → Option Turn
  dispatch_successful r ue_context_released body t =
      with_body body (handle_ue_context_release_complete peers r) t
  dispatch_successful r handover_resource_allocated body t =
      with_body body (handle_handover_request_acknowledge peers r) t
  dispatch_successful r other_successful body t = some t
  dispatch_successful r procedure body t = some (emit t (handles_successful procedure r))

  unfoldable pub dispatch_unsuccessful : ℕ → Unsuccessful → Option (List Ie) → Turn → Option Turn
  dispatch_unsuccessful r handover_resource_allocation_failed body t =
      with_body body (handle_handover_failure peers r) t
  dispatch_unsuccessful r other_unsuccessful body t = some t
  dispatch_unsuccessful r procedure body t = some (emit t (handles_unsuccessful procedure r))

  -- DispatchNgapMsg
  unfoldable pub dispatch_ngap_msg : ℕ → Pdu → Turn → Option Turn
  unfolding dispatch_initiating dispatch_successful dispatch_unsuccessful
  dispatch_ngap_msg r (initiating_message (some m)) t = dispatch_initiating r m.procedure m.ies t
  dispatch_ngap_msg r (successful_outcome (some m)) t = dispatch_successful r m.procedure m.ies t
  dispatch_ngap_msg r (unsuccessful_outcome (some m)) t =
      dispatch_unsuccessful r m.procedure m.ies t
  dispatch_ngap_msg r _ t = some t

  -- SetEventChannel
  abbrev pub open_channel : World → ℕ → World
  open_channel w u = record w { ues = update w.ues u (record (w.ues u) { event_channel = true }) }

  -- The connection of the RanUe's station becomes this one when both have one identifier.
  abbrev pub renew_conn : ℕ → ℕ → ℕ → World → World
  renew_conn conn r p w = elim (w.ran_ues p).ran [
    | none ↦ w
    | some q ↦
        if (w.rans q).gnb_id == (w.rans r).gnb_id
        then record w { rans = update w.rans q (record (w.rans q) { conn = some conn }) }
        else w
  ]

  -- The UE of the RanUe takes the message into its channel, and else it is handled at once; the
  -- world is changed first when there is a channel.
  unfoldable pub queue_or_handle : (ℕ → World → World) → ℕ → Pdu → Fetched → Turn → Option Turn
  unfolding dispatch_ngap_msg
  queue_or_handle renew r pdu f t = elim f.ran_ue [
    | none ↦ dispatch_ngap_msg r pdu (in_world t f.world)
    | some p ↦ elim (f.world.ran_ues p).amf_ue [
      | none ↦ dispatch_ngap_msg r pdu (in_world t f.world)
      | some u ↦ some (emit (in_world t (renew p (open_channel f.world u))) (submits u r pdu))
    ]
  ]

  unfoldable pub dispatch_packet : ℕ → ℕ → Packet → Turn → Option Turn
  unfolding queue_or_handle
  dispatch_packet conn r empty t = some (in_world t (remove_amf_ran t.world r))
  dispatch_packet conn r undecodable t = some t
  dispatch_packet conn r (decoded pdu) t = fetch_ran_ue_context peers r pdu t.world >>= λ f.
      queue_or_handle (renew_conn conn r) r pdu f t

  -- Dispatch(conn, msg), where `address` is conn.RemoteAddr().String().
  unfoldable pub dispatch : ℕ → String → Packet → Turn → Option Turn
  unfolding dispatch_packet
  dispatch conn address packet t = elim (amf_ran_find_by_conn t.world conn) [
    | some r ↦ dispatch_packet conn r packet t
    | none ↦
        dispatch_packet conn t.world.next_ran packet (in_world t (new_amf_ran t.world conn address))
  ]

  -- The UE and the RanUe of a message that goes to another AMF are removed.
  unfoldable pub redirect : ℕ → Fetched → Turn → Turn
  redirect r f t =
      let t' = emit (in_world t f.world) (redirects r) in
      elim f.ran_ue [
        | none ↦ t'
        | some p ↦
            let w : World = elim (f.world.ran_ues p).amf_ue [
              | none ↦ f.world
              | some u ↦ remove_amf_ue f.world u
            ] in
            in_world t' (remove_ran_ue w p).1
      ]

  unfoldable pub redirect_or_queue : ℕ → Pdu → Fetched → Turn → Option Turn
  unfolding redirect queue_or_handle
  redirect_or_queue r pdu f t =
      let here = queue_or_handle (λ p w. w) r pdu f t in
      elim f.amf_id [
        | none ↦ here
        | some id ↦
            if f.world.enable_db_store
            then elim (peers.owns id) [ some false ↦ some (redirect r f t) | _ ↦ here ]
            else here
      ]

  unfoldable pub dispatch_lb_packet : ℕ → Packet → Turn → Option Turn
  unfolding redirect_or_queue
  dispatch_lb_packet r empty t = some (in_world t (remove_amf_ran t.world r))
  dispatch_lb_packet r undecodable t = some t
  dispatch_lb_packet r (decoded pdu) t =
      fetch_ran_ue_context peers r pdu t.world >>= λ f. redirect_or_queue r pdu f t

  -- A station that only the address is known of; it is not in the pool.
  abbrev pub unpooled_ran : World → String → World
  unpooled_ran w ip = record w {
    rans = update w.rans w.next_ran (record zero_ran { gnb_ip = ip });
    next_ran = suc w.next_ran;
  }

  -- DispatchNgapMsg of a station that is a nil pointer: the handlers return, but for the one of an
  -- initial message, and the logs of what has no handler dereference it.
  unfoldable pub nil_initiating : Initiating → Turn → Option Turn
  nil_initiating initial_ue_message t = if peers.is_configured then none else some t
  nil_initiating other_initiating t = none
  nil_initiating procedure t = some t

  unfoldable pub dispatch_nil : Pdu → Turn → Option Turn
  unfolding nil_initiating
  dispatch_nil (initiating_message (some m)) t = nil_initiating m.procedure t
  dispatch_nil (successful_outcome (some m)) t = elim m.procedure [
    | other_successful ↦ none
    | _ ↦ some t
  ]
  dispatch_nil (unsuccessful_outcome (some m)) t = elim m.procedure [
    | other_unsuccessful ↦ none
    | _ ↦ some t
  ]
  dispatch_nil other_choice t = some t
  dispatch_nil _ t = none

  -- An empty or undecodable packet dereferences the nil station for its log.
  abbrev pub dispatch_nil_packet : Packet → Turn → Option Turn
  dispatch_nil_packet (decoded pdu) t = dispatch_nil pdu t
  dispatch_nil_packet _ t = none

  -- DispatchLb(sctplbMsg): with neither an identifier nor an address the station is a nil pointer.
  unfoldable pub dispatch_lb : String → String → Packet → Turn → Option Turn
  unfolding dispatch_lb_packet dispatch_nil
  dispatch_lb gnb_id gnb_ip packet t =
      if gnb_id == ""
      then if gnb_ip == ""
        then dispatch_nil_packet packet t
        else dispatch_lb_packet t.world.next_ran packet (in_world t (unpooled_ran t.world gnb_ip))
      else elim (amf_ran_find_by_gnb_id t.world gnb_id) [
        | some r ↦ dispatch_lb_packet r packet t
        | none ↦
            dispatch_lb_packet t.world.next_ran packet (in_world t (new_amf_ran_id t.world gnb_id))
      ]
