-- ===== src/Ngap/Finding.antt =====
-- The lookup of a RanUe by the identifiers of NGAP (context/amf_ran.go, context.go), its location
-- (ran_ue.go), and the senders that change it (ngap/message/send.go).
use amf_cdac.Base.{
  ℕ, Bool, true, false, Option, none, some, [], ◌∷◌, ◌++◌, if◌then◌else◌, load, store, nat_eq,
}
use amf_cdac.Types.{Tai, RelAction}
use amf_cdac.Ue.{AmfUe, nothing}
use amf_cdac.Types.{AccessType, access_type_eq}
use amf_cdac.Context.State.{World, update}
use amf_cdac.Context.Handover.{with_ran_ue}
use amf_cdac.Context.Ran.{find_by_ran_ue_ngap_id}
use amf_cdac.Ngap.{
  Cause, UserLocation, eutra, nr, n3iwf, no_location, ue_context_release_command, Peers,
  handover_preparation_failure, Turn, emit, in_world, send, ◌>>=◌,
}

-- The RanUe that the database gives joins the station.
unfoldable pub join : Option ℕ × World → ℕ → Option ℕ × World
join (none, w) r = (none, w)
join (some p, w) r = (
  some p,
  record w {
    ran_ues = update w.ran_ues p (record (w.ran_ues p) { ran = some r });
    rans = update w.rans r (record (w.rans r) { ran_ue_list = (w.rans r).ran_ue_list ++ p ∷ [] });
  },
)

-- ran.RanUeFindByRanUeNgapID(id)
unfoldable pub ran_ue_find_by_ran_ue_ngap_id : Peers → World → ℕ → ℕ → Option ℕ × World
unfolding join
ran_ue_find_by_ran_ue_ngap_id peers w r id =
    elim (find_by_ran_ue_ngap_id w (w.rans r).ran_ue_list id) [
      | some p ↦ (some p, w)
      | none ↦
          if w.enable_db_store then join (peers.fetch_by_ran_ue_ngap_id w id r) r else (none, w)
    ]

-- The RanUe that the database gives is stored under its own identifier.
unfoldable pub pool : Option ℕ × World → Option ℕ × World
pool (none, w) = (none, w)
pool (some p, w) =
    (some p, record w { ran_ue_pool = store w.ran_ue_pool (w.ran_ues p).amf_ue_ngap_id p })

-- context.RanUeFindByAmfUeNgapID(id)
unfoldable pub ran_ue_find_by_amf_ue_ngap_id : Peers → World → ℕ → Option ℕ × World
unfolding pool
ran_ue_find_by_amf_ue_ngap_id peers w id = elim (load w.ran_ue_pool id) [
  | some p ↦ (some p, w)
  | none ↦ if w.enable_db_store then pool (peers.fetch_by_amf_ue_ngap_id w id) else (none, w)
]

abbrev pub with_ue : World → ℕ → AmfUe → World
with_ue w u ue = record w { ues = update w.ues u ue }

-- The tracking area of an AmfUe. A TAI is compared by the pointer to its PLMN, which is new, so the
-- location counts as changed.
abbrev pub set_ue_tai : World → Option ℕ → Tai → Bool → World
set_ue_tai w none tai compares = w
set_ue_tai w (some u) tai compares = with_ue w u (record (w.ues u) {
  tai = tai;
  location_changed = if compares then true else (w.ues u).location_changed;
})

-- The tracking area of a RanUe and its AmfUe.
abbrev pub set_tai : World → ℕ → Tai → Bool → World
set_tai w p tai compares =
    set_ue_tai (with_ran_ue w p (record (w.ran_ues p) { tai = tai })) (w.ran_ues p).amf_ue tai
      compares

-- ranUe.UpdateLocation of a location that is not nil; the first supported tracking area is read
-- for a N3IWF.
unfoldable pub update_location : Peers → World → ℕ → UserLocation → Option World
update_location peers w p (eutra tai) = some (set_tai w p tai true)
update_location peers w p (nr tai) = some (set_tai w p tai true)
update_location peers w p n3iwf = elim w.support_tai_lists [
  | [] ↦ none
  | tai ∷ rest ↦ some (set_tai w p (record tai { tac = peers.hex_tac tai.tac }) false)
]
update_location peers w p no_location = some w

abbrev pub update_location_if : Peers → World → ℕ → Option UserLocation → Option World
update_location_if peers w p none = some w
update_location_if peers w p (some location) = update_location peers w p location

-- ue.ReleaseCause[anType] = cause
abbrev pub set_release_cause : World → ℕ → AccessType → Option Cause → World
set_release_cause w u a cause =
    with_ue w u (record (w.ues u) { release_cause = store (w.ues u).release_cause a cause })

-- The cause is noted for a RanUe that has an AmfUe and a station.
abbrev pub note_cause : World → Option ℕ → Option ℕ → Cause → World
note_cause w (some u) (some r) cause = set_release_cause w u (w.rans r).an_type (some cause)
note_cause w _ _ cause = w

unfoldable pub note_release : World → ℕ → RelAction → Cause → World
note_release w p action cause =
    note_cause (with_ran_ue w p (record (w.ran_ues p) { release_action = action }))
      (w.ran_ues p).amf_ue (w.ran_ues p).ran cause

-- SendUEContextReleaseCommand to a RanUe: both are noted when the message could be encoded.
unfoldable pub send_ue_context_release_command : Peers → Turn → ℕ → RelAction → Cause → Turn
unfolding note_release
send_ue_context_release_command peers t p action cause =
    let message = ue_context_release_command p action cause in
    if peers.encodes message
    then emit (in_world t (note_release t.world p action cause)) message
    else t

-- ue.SetOnGoing(anType, nothing); the old entry is dereferenced.
unfoldable pub end_on_going : World → ℕ → AccessType → Option World
end_on_going w u a = elim (load (w.ues u).on_going a) [
  | none ↦ none
  | some old ↦ some (
      with_ue w u (record (w.ues u) {
        on_going = store (w.ues u).on_going a (record { procedure = nothing; ppi = 0 });
      }))
]

-- SendHandoverPreparationFailure: without an AmfUe nothing is sent, and without a station the nil
-- pointer is dereferenced.
unfoldable pub send_handover_preparation_failure : Peers → Turn → ℕ → Cause → Option Turn
send_handover_preparation_failure peers t s cause = elim (t.world.ran_ues s).amf_ue [
  | none ↦ some t
  | some u ↦ elim (t.world.ran_ues s).ran [
    | none ↦ none
    | some r ↦ end_on_going t.world u (t.world.rans r).an_type >>= λ w.
        some (send peers (in_world t w) (handover_preparation_failure s cause))
  ]
]
