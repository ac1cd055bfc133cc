-- ===== src/Context/Ran/History.antt =====
-- Everything that can happen to the RanUes of the stations, in any order (context/amf_ran.go,
-- ran_ue.go, amf_ue.go).
use mathlib.Core.Path.{subst₂}
use amf_cdac.Base.{
  ap, ℕ, zero, suc, ◌<◌, ◌≡◌, Option, none, some, List, [], ◌∷◌, elem, load, nat_eq, true, false,
  length, Option-cases, inl, inr, arith, load-store, elem-append,
}
use amf_cdac.Context.State.{World, done}
use amf_cdac.Context.Ids.{Generators, IsFresh, ngap_id_in_use, allocate_amf_ue_ngap_id}
use amf_cdac.Context.Ran.{
  insert_ran_ue, attach_ran_ue, detach_old_ran_ue, new_ran_ue, remove_ran_ue, switch_to_ran,
  remove_entry, visit, remove_all_ue_in_ran, shifted, nth,
}
use amf_cdac.Context.Ran.Links.{
  Linked, new-Linked, remove-Linked, switch-Linked, attach-Linked, detach_old-Linked,
}

visit-Linked :
    (n i : ℕ) (array : List ℕ) (w : World) (r : ℕ) → Linked w → Linked (visit n i array w r)
unfolding visit
visit-Linked zero i array w r h = h
visit-Linked (suc n) i array w r h =
    let w' = remove_entry w (nth array i) in
    visit-Linked n (suc i) (shifted (w'.rans r).ran_ue_list array) w' r (entry (nth array i))
  where
    entry : (o : Option ℕ) → Linked (remove_entry w o)
    entry none = unfold remove_entry in h
    entry (some p) = unfold remove_entry in remove-Linked w p h

pub sweep-Linked : (w : World) (r : ℕ) → Linked w → Linked (remove_all_ue_in_ran w r)
unfolding remove_all_ue_in_ran
sweep-Linked w r h = visit-Linked (length (w.rans r).ran_ue_list) 0 (w.rans r).ran_ue_list w r h

-- One operation of the package on a RanUe. A RanUe that is moved exists.
pub data Step (gen : Generators) : World → World → Type 0 where
  creates : (w : World) (r id : ℕ) → Step gen w (new_ran_ue gen w r id).1
  removes : (w : World) (p : ℕ) → Step gen w (remove_ran_ue w p).1
  moves :
      {w w' : World} (p new id : ℕ)
      → p < w.next_ran_ue
      → switch_to_ran w (some p) (some new) id ≡ done w'
      → Step gen w w'
  attaches : {w w' : World} (u p : ℕ) → attach_ran_ue w u p ≡ done w' → Step gen w w'
  detaches_old : (w : World) (old : Option ℕ) (p : ℕ) → Step gen w (detach_old_ran_ue w old p)
  sweeps : (w : World) (r : ℕ) → Step gen w (remove_all_ue_in_ran w r)

pub data Reach (gen : Generators) (w : World) : World → Type 0 where
  here : Reach gen w w
  next : {v u : World} → Reach gen w v → Step gen v u → Reach gen w u

Step-Linked : {gen : Generators} {w w' : World} → Step gen w w' → Linked w → Linked w'
Step-Linked {gen} (creates w r id) h = new-Linked gen w r id h
Step-Linked (removes w p) h = remove-Linked w p h
Step-Linked (moves {w = w} {w' = w'} p new id old e) h = switch-Linked w w' p new id h old e
Step-Linked (attaches {w = w} {w' = w'} u p e) h = attach-Linked w w' u p h e
Step-Linked (detaches_old w old p) h = detach_old-Linked w old p h
Step-Linked (sweeps w r) h = sweep-Linked w r h

-- From a linked world, whatever sequence of operations is carried out, every world that is reached
-- is linked: stations list UEs of their own, each once; the pool holds a RanUe under its own
-- identifier, and that identifier is allocated.
pub Reach-Linked : (gen : Generators) (w w' : World) → Linked w → Reach gen w w' → Linked w'
Reach-Linked gen w _ h here = h
Reach-Linked gen w w' h (next {v = v} r s) = Step-Linked s (Reach-Linked gen w v h r)

allocate-unused :
    (gen : Generators) (w : World) (i : ℕ)
    → IsFresh gen.allocate_ngap
    → IsFresh gen.allocate_drsm
    → (allocate_amf_ue_ngap_id gen w).0 ≡ some i
    → ngap_id_in_use i w ≡ false
unfolding allocate_amf_ue_ngap_id
allocate-unused gen w i f g e = ground (arith, f w.ngap_ids i, g w.drsm_ids i)

unused-unpooled :
    (w : World) (i : ℕ) → Linked w → ngap_id_in_use i w ≡ false → load w.ran_ue_pool i ≡ none
unused-unpooled w i h free = elim (Option-cases (load w.ran_ue_pool i)) [
  | inl e ↦ e
  | inr (p, e) ↦ absurd (let used = h.pooled_in_use i p e in ground arith)
]

insert-shows :
    (w : World) (r id i : ℕ)
    → let w' = insert_ran_ue w r id i in
      ((w'.ran_ues w.next_ran_ue).amf_ue_ngap_id ≡ i)
      × (load w'.ran_ue_pool i ≡ some w.next_ran_ue)
      × (elem w.next_ran_ue (w'.rans r).ran_ue_list ≡ true)
      × ((w'.ran_ues w.next_ran_ue).ran_ue_ngap_id ≡ id)
unfolding insert_ran_ue
insert-shows w r id i = (
  ground arith,
  ground (arith, load-store w.ran_ue_pool i i w.next_ran_ue),
  ground (arith, elem-append w.next_ran_ue (w.rans r).ran_ue_list (w.next_ran_ue ∷ [])),
  ground arith,
)

-- A RanUe that is created takes no other's place: where the generators hand out no identifier in
-- use, its identifier led nowhere before, it leads to the new RanUe after, and its station lists it.
pub new-fresh :
    (gen : Generators) (w w' : World) (r id p : ℕ)
    → IsFresh gen.allocate_ngap
    → IsFresh gen.allocate_drsm
    → Linked w
    → new_ran_ue gen w r id ≡ (some p, w')
    → let i = (w'.ran_ues p).amf_ue_ngap_id in
      (load w.ran_ue_pool i ≡ none)
      × (load w'.ran_ue_pool i ≡ some p)
      × (elem p (w'.rans r).ran_ue_list ≡ true)
      × ((w'.ran_ues p).ran_ue_ngap_id ≡ id)
unfolding new_ran_ue
new-fresh gen w w' r id p f g h e =
    let (found, w1) = allocate_amf_ue_ngap_id gen w in
    elim (Option-cases found) [
      | inl none_left ↦ absurd (let opened = rw (none_left, new_ran_ue) at e in ground arith)
      | inr (i, got) ↦
          let opened = rw (got, new_ran_ue) at e in
          let unpooled = unused-unpooled w i h (allocate-unused gen w i f g got) in
          let (own, pooled, listed, named) = insert-shows w1 r id i in
          let new : w1.next_ran_ue ≡ p = ground arith in
          let result : insert_ran_ue w1 r id i ≡ w' = ap (λ (x : Option ℕ × World). x.1) opened in
          subst₂
            (λ q v.
              (load w.ran_ue_pool (v.ran_ues q).amf_ue_ngap_id ≡ none)
              × (load v.ran_ue_pool (v.ran_ues q).amf_ue_ngap_id ≡ some q)
              × (elem q (v.rans r).ran_ue_list ≡ true)
              × ((v.ran_ues q).ran_ue_ngap_id ≡ id))
            new result (rw own (unpooled, pooled, listed, named))
    ]
