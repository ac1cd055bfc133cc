-- ===== src/Context/Stations/Lookup.antt =====
-- What the lookups of stations find (context/context.go, amf_ran.go).
use amf_cdac.Base.{
  ℕ, zero, suc, String, ◌≡◌, ◌≢◌, refl, ◌∙◌, Option, none, some, List, [], length, load, load-store,
  load-delete, ◌==◌, string_eq, if◌then◌else◌, arith, nat_beq_iff, Option-cases, option_eq, inl,
  inr,
}
use text.Mathlib.TextEquality.{eq_iff}
use amf_cdac.Context.State.{AmfRan, RanKey, by_conn, by_id, ran_key_eq, World}
use amf_cdac.Context.Ran.{remove_ran_ue, remove_entry, visit, shifted, nth, remove_all_ue_in_ran}
use amf_cdac.Context.Stations.{
  new_amf_ran_id, amf_ran_find_by_conn, amf_ran_find_by_gnb_id, delete_amf_ran, delete_amf_ran_id,
  forget_ran, remove_amf_ran,
}

-- NewAmfRanId makes a station that AmfRanFindByGnbId then finds under its identifier and that lists
-- no RanUe; every other identifier and every connection finds the station that it found before.
pub find-new_amf_ran_id :
    (w : World) (gnb_id : String)
    → let w' = new_amf_ran_id w gnb_id in
      (amf_ran_find_by_gnb_id w' gnb_id ≡ some w.next_ran)
      × ((w'.rans w.next_ran).ran_ue_list ≡ [])
      × ((other : String)
          → other ≢ gnb_id
          → amf_ran_find_by_gnb_id w' other ≡ amf_ran_find_by_gnb_id w other)
      × ((conn : ℕ) → amf_ran_find_by_conn w' conn ≡ amf_ran_find_by_conn w conn)
unfolding new_amf_ran_id amf_ran_find_by_gnb_id amf_ran_find_by_conn
find-new_amf_ran_id w gnb_id = (
  ground (
    arith,
    load-store w.amf_ran_pool (by_id gnb_id) (by_id gnb_id) w.next_ran,
    eq_iff gnb_id gnb_id,
  ),
  ground (arith, nat_beq_iff w.next_ran w.next_ran),
  λ other n. ground (
    arith,
    load-store w.amf_ran_pool (by_id gnb_id) (by_id other) w.next_ran,
    eq_iff gnb_id other,
  ),
  λ conn. load-store w.amf_ran_pool (by_id gnb_id) (by_conn conn) w.next_ran,
)

-- The stations' names and the pool of stations, and the mode of the AMF, stay.
pub record SameStations (w w' : World) : Type 0 where
  pub ids : (r : ℕ) → (w'.rans r).gnb_id ≡ (w.rans r).gnb_id
  pub conns : (r : ℕ) → (w'.rans r).conn ≡ (w.rans r).conn
  pub pool : w'.amf_ran_pool ≡ w.amf_ran_pool
  pub mode : w'.enable_sctp_lb ≡ w.enable_sctp_lb

remove_ran_ue-SameStations : (w : World) (p : ℕ) → SameStations w (remove_ran_ue w p).1
unfolding remove_ran_ue
remove_ran_ue-SameStations w p = record {
  ids = λ r. ground arith;
  conns = λ r. ground arith;
  pool = ground arith;
  mode = ground arith;
}

pub SameStations-trans : (w v x : World) → SameStations w v → SameStations v x → SameStations w x
SameStations-trans w v x a b = record {
  ids = λ r. b.ids r ∙ a.ids r;
  conns = λ r. b.conns r ∙ a.conns r;
  pool = b.pool ∙ a.pool;
  mode = b.mode ∙ a.mode;
}

pub SameStations-refl : (w : World) → SameStations w w
SameStations-refl w = record { ids = λ r. refl; conns = λ r. refl; pool = refl; mode = refl }

entry-SameStations : (w : World) (o : Option ℕ) → SameStations w (remove_entry w o)
unfolding remove_entry
entry-SameStations w none = SameStations-refl w
entry-SameStations w (some p) = remove_ran_ue-SameStations w p

visit-SameStations :
    (n i : ℕ) (array : List ℕ) (w : World) (r : ℕ) → SameStations w (visit n i array w r)
unfolding visit
visit-SameStations zero i array w r = SameStations-refl w
visit-SameStations (suc n) i array w r =
    let w' = remove_entry w (nth array i) in
    let rest = shifted (w'.rans r).ran_ue_list array in
    SameStations-trans w w' (visit n (suc i) rest w' r) (entry-SameStations w (nth array i))
      (visit-SameStations n (suc i) rest w' r)

pub sweep-SameStations : (w : World) (r : ℕ) → SameStations w (remove_all_ue_in_ran w r)
unfolding remove_all_ue_in_ran
sweep-SameStations w r =
    visit-SameStations (length (w.rans r).ran_ue_list) 0 (w.rans r).ran_ue_list w r

-- The key under which a station is to be found: behind an SCTP load balancer its identifier, if it
-- has one, and otherwise its connection.
abbrev pub own_key : World → AmfRan → Option RanKey
own_key w ran =
    if w.enable_sctp_lb
    then (if ran.gnb_id == "" then none else some (by_id ran.gnb_id))
    else elim ran.conn [ none ↦ none | some conn ↦ some (by_conn conn) ]

forget-load :
    (w : World) (ran : AmfRan) (key : RanKey)
    → load (forget_ran w ran).amf_ran_pool key
      ≡ (if own_key w ran == some key then none else load w.amf_ran_pool key)
unfolding forget_ran delete_amf_ran delete_amf_ran_id
forget-load w ran key = elim (Option-cases ran.conn) [
  | inl e ↦ ground (arith, load-delete w.amf_ran_pool (by_id ran.gnb_id) key)
  | inr (conn, e) ↦ ground (
    arith,
    load-delete w.amf_ran_pool (by_id ran.gnb_id) key,
    load-delete w.amf_ran_pool (by_conn conn) key,
  )
]

-- Remove of a station takes exactly the station's own entry out of the pool: nothing is left under
-- the key under which it is to be found, which is its identifier behind an SCTP load balancer (if
-- it has one) and otherwise its connection, and every other key leads where it led.
pub remove_amf_ran-load :
    (w : World) (r : ℕ) (key : RanKey)
    → load (remove_amf_ran w r).amf_ran_pool key
      ≡ (if own_key w (w.rans r) == some key then none else load w.amf_ran_pool key)
unfolding remove_amf_ran
remove_amf_ran-load w r key =
    let w1 = remove_all_ue_in_ran w r in
    let same = sweep-SameStations w r in
    forget-load w1 (w1.rans r) key ∙ rw (same.ids r, same.conns r, same.pool, same.mode) refl
