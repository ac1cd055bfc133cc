-- ===== src/Context/Ues.antt =====
-- The UE contexts and their pool (context/context.go, amf_ue.go): creation, lookups and removal.
mod Examples
pub mod Keyed
pub mod Removal
use amf_cdac.Base.{
  ℕ, suc, String, Bool, true, false, Option, none, some, List, [], ◌∷◌, Map, load, store, delete,
  range_find, ◌==◌, string_eq, list_eq, nat_eq, if◌then◌else◌,
}
use amf_cdac.Types.{
  Bytes, AccessType, access_3gpp, access_non_3gpp, access_empty, access_type_eq, deregistered,
}
use amf_cdac.Ue.{AmfUe, zero_ue, OnGoing, nothing}
use amf_cdac.Context.State.{World, update}
use amf_cdac.Context.Ids.{Generators}
use amf_cdac.Context.Ran.{remove_ran_ue}
use amf_cdac.Context.Guti.{allocate_guti_to_ue, free_tmsi}

abbrev idle : OnGoing
idle = record { procedure = nothing; ppi = 0 }

-- AmfUe{} after init()
abbrev pub init_ue : AmfUe
init_ue = record zero_ue {
  state = (access_3gpp, deregistered) ∷ (access_non_3gpp, deregistered) ∷ [];
  unauthenticated_supi = true;
  on_going = (access_non_3gpp, idle) ∷ (access_3gpp, idle) ∷ [];
}

-- context.AddAmfUeToUePool(ue, supi); the error of an empty SUPI is logged only.
unfoldable pub add_amf_ue_to_ue_pool : World → ℕ → String → World
add_amf_ue_to_ue_pool w u supi = record w {
  ues = update w.ues u (record (w.ues u) { supi = supi });
  ue_pool = store w.ue_pool supi u;
}

-- The new UE, before it has a GUTI.
abbrev pub with_new_ue : World → World
with_new_ue w = record w { ues = update w.ues w.next_ue init_ue; next_ue = suc w.next_ue }

unfoldable pub insert_ue : World → String → World
unfolding add_amf_ue_to_ue_pool
insert_ue w supi =
    if supi == "" then with_new_ue w else add_amf_ue_to_ue_pool (with_new_ue w) w.next_ue supi

-- context.NewAmfUe(supi), whose UE comes at the next address.
unfoldable pub new_amf_ue : Generators → World → String → Option World
unfolding insert_ue
new_amf_ue gen w supi = allocate_guti_to_ue gen (insert_ue w supi) w.next_ue

-- The lookups that range over the pool; they find a UE or return false.
unfoldable pub amf_ue_find_by_pei : World → String → Option ℕ
amf_ue_find_by_pei w pei = range_find (λ u. (w.ues u).pei == pei) w.ue_pool

unfoldable pub amf_ue_find_by_suci : World → String → Option ℕ
amf_ue_find_by_suci w suci = range_find (λ u. (w.ues u).suci == suci) w.ue_pool

unfoldable pub amf_ue_find_by_guti_local : World → Bytes → Option ℕ
amf_ue_find_by_guti_local w guti = range_find (λ u. (w.ues u).guti == guti) w.ue_pool

unfoldable pub amf_ue_find_by_supi_local : World → String → Option ℕ
amf_ue_find_by_supi_local w supi = range_find (λ u. (w.ues u).supi == supi) w.ue_pool

unfoldable pub amf_ue_find_by_policy_association_id : World → String → Option ℕ
amf_ue_find_by_policy_association_id w id =
    range_find (λ u. (w.ues u).policy_association_id == id) w.ue_pool

-- What the database answers to the fetch of a UE, with the world that it leaves (context/db.go).
pub record Database : Type 0 where
  pub db_fetch_ue_by_supi : World → String → Option ℕ × World
  pub db_fetch_ue_by_guti : World → Bytes → Option ℕ × World

-- A UE that was fetched is stored under its SUPI.
unfoldable pub keep_fetched : Option ℕ × World → Option ℕ × World
keep_fetched (none, w) = (none, w)
keep_fetched (some u, w) = (some u, record w { ue_pool = store w.ue_pool (w.ues u).supi u })

-- context.AmfUeFindBySupi(supi)
unfoldable pub amf_ue_find_by_supi : Database → World → String → Option ℕ × World
unfolding keep_fetched
amf_ue_find_by_supi db w supi = elim (load w.ue_pool supi) [
  | some u ↦ (some u, w)
  | none ↦ if w.enable_db_store then keep_fetched (db.db_fetch_ue_by_supi w supi) else (none, w)
]

-- context.AmfUeFindByGuti(guti)
unfoldable pub amf_ue_find_by_guti : Database → World → Bytes → Option ℕ × World
unfolding keep_fetched amf_ue_find_by_guti_local
amf_ue_find_by_guti db w guti = elim (amf_ue_find_by_guti_local w guti) [
  | some u ↦ (some u, w)
  | none ↦ if w.enable_db_store then keep_fetched (db.db_fetch_ue_by_guti w guti) else (none, w)
]

unfoldable pub remove_present : World → Option ℕ → World
unfolding remove_ran_ue
remove_present w none = w
remove_present w (some p) = (remove_ran_ue w p).1

-- The range over ue.RanUe in Remove: an entry that an earlier round has deleted is not visited.
-- Go's order of the entries is that of the list here.
unfoldable pub remove_ran_ues : Map AccessType ℕ → World → ℕ → World
unfolding remove_present
remove_ran_ues [] w u = w
remove_ran_ues ((a, q) ∷ entries) w u =
    remove_ran_ues entries (remove_present w (load (w.ues u).ran_ue a)) u

-- ue.Remove(). The event channel takes the "quit".
unfoldable pub remove_amf_ue : World → ℕ → World
unfolding remove_ran_ues free_tmsi
remove_amf_ue w u =
    let w1 = remove_ran_ues (w.ues u).ran_ue w u in
    let w2 = free_tmsi w1 (w1.ues u).tmsi in
    let ue = w2.ues u in
    let w3 = if ue.supi == "" then w2 else record w2 { ue_pool = delete w2.ue_pool ue.supi } in
    if ue.event_channel then record w3 { quits = u ∷ w3.quits } else w3

-- context.AmfUeDeleteBySuci(suci); true when a UE was found.
unfoldable pub amf_ue_delete_by_suci : World → String → Bool × World
unfolding amf_ue_find_by_suci remove_amf_ue
amf_ue_delete_by_suci w suci = elim (amf_ue_find_by_suci w suci) [
  | none ↦ (false, w)
  | some u ↦ (true, remove_amf_ue (record w { ue_pool = delete w.ue_pool (w.ues u).supi }) u)
]

-- ue.CmConnect(anType), and ue.GetAnType().
unfoldable pub cm_connect : AmfUe → AccessType → Bool
cm_connect ue an_type = elim (load ue.ran_ue an_type) [ none ↦ false | some p ↦ true ]

unfoldable pub get_an_type : AmfUe → AccessType
unfolding cm_connect
get_an_type ue =
    if cm_connect ue access_3gpp
    then access_3gpp
    else if cm_connect ue access_non_3gpp
    then access_non_3gpp
    else access_empty
