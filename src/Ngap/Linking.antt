-- ===== src/Ngap/Linking.antt =====
-- The links between stations, RanUes and the pool under the steps of the handlers of NGAP
-- (ngap/handler.go).
use amf_cdac.Base.{
  ℕ, ◌≡◌, refl, inl, inr, sym, subst, ap, ◌∙◌, true, false, Option, none, some, List, [], ◌∷◌,
  arith, Option-cases, nat_eq, nat_beq_iff, elem,
}
use amf_cdac.Context.State.{World}
use amf_cdac.Context.Ran.{remove_ran_ue, remove_all_ue_in_ran, find_by_ran_ue_ngap_id}
use amf_cdac.Context.Ran.Links.{Linked, remove-Linked}
use amf_cdac.Context.Ran.History.{sweep-Linked}
use amf_cdac.Ngap.{
  Connection, ResetType, ng_interface, part_of_ng_interface, other_reset, ng_reset_acknowledge,
  Peers, Turn, in_world,
}
use amf_cdac.Ngap.Finding.{ran_ue_find_by_ran_ue_ngap_id}
use amf_cdac.Ngap.Resetting.{
  reset_items, reset_by, acknowledge, remove_if, reset_target, listed_by_amf_id,
}
use amf_cdac.Ngap.Untouched.{Ends, send-world}

abbrev pub IsLinked : Turn → Type 0
IsLinked t = Linked t.world

found-listed :
    (w : World) (ps : List ℕ) (id p : ℕ)
    → find_by_ran_ue_ngap_id w ps id ≡ some p
    → elem p ps ≡ true
unfolding find_by_ran_ue_ngap_id
found-listed w [] id p e = absurd (cc)
found-listed w (q ∷ ps) id p e =
    ground (arith, found-listed w ps id p, nat_beq_iff p q, nat_beq_iff q p)

remove-flag : (w : World) (p : ℕ) → (remove_ran_ue w p).1.enable_db_store ≡ w.enable_db_store
unfolding remove_ran_ue
remove-flag w p = ground (arith)

remove_if-flag : (o : Option ℕ) (w : World) → (remove_if (o, w)).enable_db_store ≡ w.enable_db_store
remove_if-flag none w = refl
remove_if-flag (some p) w = remove-flag w p

remove_if-Linked : (o : Option ℕ) (w : World) → Linked w → Linked (remove_if (o, w))
remove_if-Linked none w h = h
remove_if-Linked (some p) w h = remove-Linked w p h

module _ (peers : Peers) (r : ℕ) where
  -- Without the database the lookup changes nothing, and gives a RanUe of the station's list.
  pub lookup-local :
      (w : World) (id : ℕ)
      → w.enable_db_store ≡ false
      → ran_ue_find_by_ran_ue_ngap_id peers w r id
        ≡ (find_by_ran_ue_ngap_id w (w.rans r).ran_ue_list id, w)
  unfolding ran_ue_find_by_ran_ue_ngap_id
  lookup-local w id off = ground (arith)

  target-world :
      (amf_id ran_id current : Option ℕ) (w : World)
      → w.enable_db_store ≡ false
      → (reset_target peers r (record { amf_id = amf_id; ran_id = ran_id }) current w).1 ≡ w
  unfolding reset_target
  target-world (some id) ran_id current w off =
      elim (Option-cases (listed_by_amf_id w (w.rans r).ran_ue_list id)) [
        | inl e ↦ rw (reset_target, e) refl
        | inr (p, e) ↦ rw (reset_target, e) refl
      ]
  target-world none (some id) current w off =
      ap (λ (x : Option ℕ × World). x.1) (lookup-local w id off)
  target-world none none current w off = refl

  reset_items-Linked :
      (items : List Connection) (current : Option ℕ) (w : World)
      → w.enable_db_store ≡ false
      → Linked w
      → Linked (reset_items peers r items current w)
  unfolding reset_items
  reset_items-Linked [] current w off h = h
  reset_items-Linked (item ∷ items) current w off h =
      let found = reset_target peers r item current w in
      let w' = remove_if found in
      let same = target-world item.amf_id item.ran_id current w off in
      reset_items-Linked items found.0 w'
        (remove_if-flag found.0 found.1 ∙ ap (λ (v : World). v.enable_db_store) same ∙ off)
        (remove_if-Linked found.0 found.1 (subst Linked (sym same) h))

  acknowledge-Linked :
      (items : Option (List Connection)) (t : Turn)
      → IsLinked t
      → IsLinked (acknowledge peers r items t)
  acknowledge-Linked (some []) t h = h
  acknowledge-Linked (some (item ∷ items)) t h =
      subst Linked (sym (send-world peers t (ng_reset_acknowledge r (some (item ∷ items))))) h
  acknowledge-Linked none t h =
      subst Linked (sym (send-world peers t (ng_reset_acknowledge r none))) h

  pub reset_by-Linked :
      (reset : ResetType) (t : Turn)
      → t.world.enable_db_store ≡ false
      → IsLinked t
      → IsLinked (reset_by peers r reset t)
  unfolding reset_by
  reset_by-Linked ng_interface t off h =
      acknowledge-Linked none (in_world t (remove_all_ue_in_ran t.world r))
        (sweep-Linked t.world r h)
  reset_by-Linked (part_of_ng_interface none) t off h = h
  reset_by-Linked (part_of_ng_interface (some items)) t off h =
      acknowledge-Linked (some items) (in_world t (reset_items peers r items none t.world))
        (reset_items-Linked items none t.world off h)
  reset_by-Linked other_reset t off h = h

  -- A handler that finds its RanUe by the station's identifier.
  pub found-Linked :
      (w : World) (id : ℕ) (k : Option ℕ × World → Option Turn)
      → w.enable_db_store ≡ false
      → ((p : ℕ) → (w.ran_ues p).ran ≡ some r → Ends IsLinked (k (some p, w)))
      → Ends IsLinked (k (none, w))
      → Linked w
      → Ends IsLinked (k (ran_ue_find_by_ran_ue_ngap_id peers w r id))
  found-Linked w id k off f g h =
      subst (λ x. Ends IsLinked (k x)) (sym (lookup-local w id off))
        (by_cases (find_by_ran_ue_ngap_id w (w.rans r).ran_ue_list id)
          (λ p e. h.listed r p (found-listed w (w.rans r).ran_ue_list id p e)))
    where
      by_cases :
          (o : Option ℕ)
          → ((p : ℕ) → o ≡ some p → (w.ran_ues p).ran ≡ some r)
          → Ends IsLinked (k (o, w))
      by_cases none own = g
      by_cases (some p) own = f p (own p refl)
