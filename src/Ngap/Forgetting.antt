-- ===== src/Ngap/Forgetting.antt =====
-- The stations that a closed connection leaves (ngap/dispatcher.go, HandleSCTPNotificationLb).
use amf_cdac.Base.{
  ℕ, String, ◌≡◌, ◌≢◌, refl, inl, inr, ◌∙◌, true, none, some, [], ◌∷◌, ◌==◌, string_eq, option_eq,
  Map, load, arith, Bool-cases, if◌then◌else◌,
}
use text.Mathlib.TextEquality.{eq_iff}
use amf_cdac.Context.State.{World, AmfRan, RanKey, by_id, ran_key_eq}
use amf_cdac.Context.Ran.{remove_all_ue_in_ran}
use amf_cdac.Context.Stations.{
  amf_ran_find_by_gnb_id, forget_ran, remove_amf_ran, delete_amf_ran, delete_amf_ran_id,
}
use amf_cdac.Context.Stations.Lookup.{sweep-SameStations, remove_amf_ran-load}
use amf_cdac.Ngap.Closing.{remove_named, handle_sctp_notification_lb}

-- The stations have their identifiers, in the mode of a load balancer.
record IsNamed (w w' : World) : Type 0 where
  names : (q : ℕ) → (w'.rans q).gnb_id ≡ (w.rans q).gnb_id
  balanced : w'.enable_sctp_lb ≡ w.enable_sctp_lb

forget-IsNamed : (w : World) (ran : AmfRan) → IsNamed w (forget_ran w ran)
unfolding forget_ran delete_amf_ran delete_amf_ran_id
forget-IsNamed w ran = record { names = λ q. ground (arith); balanced = ground (arith) }

remove-IsNamed : (w : World) (r : ℕ) → IsNamed w (remove_amf_ran w r)
unfolding remove_amf_ran
remove-IsNamed w r =
    let w1 = remove_all_ue_in_ran w r in
    let same = sweep-SameStations w r in
    let later = forget-IsNamed w1 (w1.rans r) in
    record { names = λ q. later.names q ∙ same.ids q; balanced = later.balanced ∙ same.mode }

-- Behind a load balancer, the removal of a station with an identifier takes its entry.
remove-entry :
    (w : World) (r : ℕ) (gnb_id other : String)
    → w.enable_sctp_lb ≡ true
    → gnb_id ≢ ""
    → (w.rans r).gnb_id ≡ gnb_id
    → load (remove_amf_ran w r).amf_ran_pool (by_id other)
      ≡ (if gnb_id == other then none else load w.amf_ran_pool (by_id other))
remove-entry w r gnb_id other lb named own =
    remove_amf_ran-load w r (by_id other) ∙ ground (arith, eq_iff gnb_id "")

record Keeps (gnb_id : String) (w w' : World) : Type 0 where
  renames : IsNamed w w'
  others :
      (other : String)
      → other ≢ gnb_id
      → load w'.amf_ran_pool (by_id other) ≡ load w.amf_ran_pool (by_id other)

Keeps-refl : (gnb_id : String) (w : World) → Keeps gnb_id w w
Keeps-refl gnb_id w = record {
  renames = record { names = λ q. refl; balanced = refl };
  others = λ other n. refl;
}

Keeps-trans :
    (gnb_id : String) (w v x : World) → Keeps gnb_id w v → Keeps gnb_id v x → Keeps gnb_id w x
Keeps-trans gnb_id w v x a b = record {
  renames = record {
    names = λ q. b.renames.names q ∙ a.renames.names q;
    balanced = b.renames.balanced ∙ a.renames.balanced;
  };
  others = λ other n. b.others other n ∙ a.others other n;
}

remove-Keeps :
    (gnb_id : String) (w : World) (r : ℕ)
    → w.enable_sctp_lb ≡ true
    → gnb_id ≢ ""
    → (w.rans r).gnb_id ≡ gnb_id
    → Keeps gnb_id w (remove_amf_ran w r)
remove-Keeps gnb_id w r lb named own = record {
  renames = remove-IsNamed w r;
  others =
      λ other n. remove-entry w r gnb_id other lb named own ∙ ground (arith, eq_iff gnb_id other);
}

remove_named-Keeps :
    (gnb_id : String) (m : Map RanKey ℕ) (w : World)
    → w.enable_sctp_lb ≡ true
    → gnb_id ≢ ""
    → Keeps gnb_id w (remove_named gnb_id m w)
unfolding remove_named
remove_named-Keeps gnb_id [] w lb named = Keeps-refl gnb_id w
remove_named-Keeps gnb_id ((key, r) ∷ rest) w lb named =
    elim (Bool-cases ((w.rans r).gnb_id == gnb_id)) [
      | inr e ↦ rw e (remove_named-Keeps gnb_id rest w lb named)
      | inl e ↦
          let w' = remove_amf_ran w r in
          let k = remove-Keeps gnb_id w r lb named ((eq_iff (w.rans r).gnb_id gnb_id).0 e) in
          rw e (
            Keeps-trans gnb_id w w' (remove_named gnb_id rest w') k
              (remove_named-Keeps gnb_id rest w' (k.renames.balanced ∙ lb) named))
    ]

-- Behind a load balancer, when the connection of a station ends, the station that is stored under
-- the identifier is no longer found, and every other identifier finds the station that it found
-- before. The stored station has the identifier, which is not empty.
pub notification-forgets :
    (gnb_id : String) (w : World) (r : ℕ)
    → w.enable_sctp_lb ≡ true
    → gnb_id ≢ ""
    → amf_ran_find_by_gnb_id w gnb_id ≡ some r
    → (w.rans r).gnb_id ≡ gnb_id
    → let w' = handle_sctp_notification_lb gnb_id w in
      (amf_ran_find_by_gnb_id w' gnb_id ≡ none)
      × ((other : String)
          → other ≢ gnb_id
          → amf_ran_find_by_gnb_id w' other ≡ amf_ran_find_by_gnb_id w other)
unfolding handle_sctp_notification_lb amf_ran_find_by_gnb_id
notification-forgets gnb_id w r lb named found own =
    let w1 = remove_named gnb_id w.amf_ran_pool w in
    let k = remove_named-Keeps gnb_id w.amf_ran_pool w lb named in
    let lb1 = k.renames.balanced ∙ lb in
    let own1 = k.renames.names r ∙ own in
    let all =
      Keeps-trans gnb_id w w1 (remove_amf_ran w1 r) k (remove-Keeps gnb_id w1 r lb1 named own1) in
    rw (handle_sctp_notification_lb, found)
      (
        remove-entry w1 r gnb_id gnb_id lb1 named own1 ∙ ground (arith, eq_iff gnb_id gnb_id),
        all.others,
      )
