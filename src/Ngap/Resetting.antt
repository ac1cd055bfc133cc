-- ===== src/Ngap/Resetting.antt =====
-- The reset of a station's connections (ngap/handler.go, HandleNGReset), and the uplink messages of
-- NAS (HandleUplinkNasTransport, HandleNasNonDeliveryIndication).
use amf_cdac.Base.{ℕ, ℤ, pos, Option, none, some, List, [], ◌∷◌, nat_eq, nat_beq, if◌then◌else◌}
use amf_cdac.Context.State.{World}
use amf_cdac.Context.Ran.{remove_ran_ue, remove_all_ue_in_ran}
use amf_cdac.Ngap.{
  Connection, ResetType, ng_interface, part_of_ng_interface, other_reset, Ie, amf_ue_ngap_id,
  ran_ue_ngap_id, cause, reset_type, user_location, nas_pdu, ng_reset_acknowledge, Peers, Turn,
  in_world, send, ◌>>=◌,
}
use amf_cdac.Ngap.Reading.{Reading, ignores, checks, Ies, no_ies, read_ies}
use amf_cdac.Ngap.Finding.{ran_ue_find_by_ran_ue_ngap_id, update_location_if}
use amf_cdac.Ngap.Releasing.{set_ran}
use amf_cdac.Ngap.Calling.{call_nas}

abbrev pub reset_reading : Ie → Reading
reset_reading (cause v) = checks
reset_reading (reset_type v) = checks
reset_reading _ = ignores

-- The first RanUe of the list that has the identifier of the AMF.
unfoldable pub listed_by_amf_id : World → List ℕ → ℕ → Option ℕ
listed_by_amf_id w [] id = none
listed_by_amf_id w (p ∷ ps) id =
    if nat_beq (w.ran_ues p).amf_ue_ngap_id id then some p else listed_by_amf_id w ps id

-- The variable ranUe of the loop, which keeps its value when no RanUe has the AMF's identifier, or
-- when an item has no identifier.
unfoldable pub reset_target : Peers → ℕ → Connection → Option ℕ → World → Option ℕ × World
unfolding listed_by_amf_id
reset_target peers r item current w = elim item.amf_id [
  | some id ↦ elim (listed_by_amf_id w (w.rans r).ran_ue_list id) [
    | some p ↦ (some p, w)
    | none ↦ (current, w)
  ]
  | none ↦ elim item.ran_id [
    | some id ↦ ran_ue_find_by_ran_ue_ngap_id peers w r id
    | none ↦ (current, w)
  ]
]

-- ranUe.Remove(), which is an error for nil
abbrev pub remove_if : Option ℕ × World → World
remove_if (none, w) = w
remove_if (some p, w) = (remove_ran_ue w p).1

unfoldable pub reset_items : Peers → ℕ → List Connection → Option ℕ → World → World
unfolding reset_target
reset_items peers r [] current w = w
reset_items peers r (item ∷ items) current w =
    let found = reset_target peers r item current w in
    reset_items peers r items found.0 (remove_if found)

-- SendNGResetAcknowledge, which sends no empty list
abbrev pub acknowledge : Peers → ℕ → Option (List Connection) → Turn → Turn
acknowledge peers r (some []) t = t
acknowledge peers r items t = send peers t (ng_reset_acknowledge r items)

unfoldable pub reset_by : Peers → ℕ → ResetType → Turn → Turn
unfolding reset_items
reset_by peers r ng_interface t =
    acknowledge peers r none (in_world t (remove_all_ue_in_ran t.world r))
reset_by peers r (part_of_ng_interface none) t = t
reset_by peers r (part_of_ng_interface (some items)) t =
    acknowledge peers r (some items) (in_world t (reset_items peers r items none t.world))
reset_by peers r other_reset t = t

-- HandleNGReset; the cause and the reset type are dereferenced.
unfoldable pub handle_ng_reset : Peers → ℕ → List Ie → Turn → Option Turn
unfolding reset_by
handle_ng_reset peers r list t = elim (read_ies reset_reading list no_ies) [
  | none ↦ some t
  | some ies ↦ ies.reason >>= λ c. ies.reset >>= λ reset. some (reset_by peers r reset t)
]

abbrev pub uplink_reading : Ie → Reading
uplink_reading (amf_ue_ngap_id v) = checks
uplink_reading (ran_ue_ngap_id v) = checks
uplink_reading (nas_pdu v) = checks
uplink_reading (user_location v) = checks
uplink_reading _ = ignores

-- ngapType.ProcedureCodeUplinkNASTransport, and ProcedureCodeNASNonDeliveryIndication
abbrev pub uplink_nas_transport_code : ℤ
uplink_nas_transport_code = pos 46

abbrev pub nas_non_delivery_indication_code : ℤ
nas_non_delivery_indication_code = pos 19

-- The message of a RanUe goes to HandleNAS; a RanUe without AmfUe is removed, and the AMF's
-- identifier is then dereferenced for the log.
unfoldable pub uplink_by : Peers → ℕ → ℕ → Option ℕ → Ies → Turn → Option Turn
unfolding call_nas
uplink_by peers r p none ies t = ies.amf_id >>= λ id. some (in_world t (remove_ran_ue t.world p).1)
uplink_by peers r p (some u) ies t = update_location_if peers t.world p ies.location >>= λ w.
    ies.pdu >>= λ pdu. call_nas peers r p uplink_nas_transport_code pdu (in_world t w)

unfoldable pub uplink_of : Peers → ℕ → ℕ → Ies → Turn → Option Turn
unfolding uplink_by
uplink_of peers r p ies t =
    let w = set_ran t.world p r in uplink_by peers r p (w.ran_ues p).amf_ue ies (in_world t w)

abbrev pub uplink_found : Peers → ℕ → Ies → Turn → Option ℕ × World → Option Turn
uplink_found peers r ies t (none, w) = some (in_world t w)
uplink_found peers r ies t (some p, w) = uplink_of peers r p ies (in_world t w)

-- HandleUplinkNasTransport
unfoldable pub handle_uplink_nas_transport : Peers → ℕ → List Ie → Turn → Option Turn
unfolding uplink_of
handle_uplink_nas_transport peers r list t = elim (read_ies uplink_reading list no_ies) [
  | none ↦ some t
  | some ies ↦ ies.ran_id >>= λ id.
      uplink_found peers r ies t (ran_ue_find_by_ran_ue_ngap_id peers t.world r id)
]

abbrev pub non_delivery_reading : Ie → Reading
non_delivery_reading (amf_ue_ngap_id v) = checks
non_delivery_reading (ran_ue_ngap_id v) = checks
non_delivery_reading (nas_pdu v) = checks
non_delivery_reading (cause v) = checks
non_delivery_reading _ = ignores

unfoldable pub undelivered : Peers → ℕ → Ies → Turn → Option ℕ × World → Option Turn
unfolding call_nas
undelivered peers r ies t (none, w) = some (in_world t w)
undelivered peers r ies t (some p, w) = ies.reason >>= λ c.
    ies.pdu >>= λ pdu. call_nas peers r p nas_non_delivery_indication_code pdu (in_world t w)

-- HandleNasNonDeliveryIndication; the cause and the message are dereferenced.
unfoldable pub handle_nas_non_delivery_indication : Peers → ℕ → List Ie → Turn → Option Turn
unfolding undelivered
handle_nas_non_delivery_indication peers r list t =
    elim (read_ies non_delivery_reading list no_ies) [
      | none ↦ some t
      | some ies ↦ ies.ran_id >>= λ id.
          undelivered peers r ies t (ran_ue_find_by_ran_ue_ngap_id peers t.world r id)
    ]
