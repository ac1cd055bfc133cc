-- ===== src/Context/Ran/Links.antt =====
-- The links between stations, RanUes and the pool of RanUes, and that every operation keeps them
-- (context/amf_ran.go, ran_ue.go, amf_ue.go).
use amf_cdac.Base.{
  ℕ, ◌<◌, ◌≡◌, inl, inr, true, Option, some, [], ◌∷◌, arith, nat_beq_iff, nat_eq, elem,
  remove_first, Unique, elem-append, elem-remove_first, remove_first-Unique, append-Unique, load,
  load-store, load-delete, Option-cases,
}
use amf_cdac.Types.{access_type_eq}
use amf_cdac.Context.State.{World, done}
use amf_cdac.Context.Ids.{Generators, ngap_id_in_use, allocate_amf_ue_ngap_id}
use amf_cdac.Context.Ran.{
  insert_ran_ue, attach_ran_ue, detach_old_ran_ue, new_ran_ue, remove_ran_ue, switch_to_ran,
}

pub record Linked (w : World) : Type 0 where
  -- a station lists UEs of its own only, each once, and no address not yet in use
  pub listed : (r p : ℕ) → elem p (w.rans r).ran_ue_list ≡ true → (w.ran_ues p).ran ≡ some r
  pub listed_once : (r : ℕ) → Unique (w.rans r).ran_ue_list
  pub listed_old : (r p : ℕ) → elem p (w.rans r).ran_ue_list ≡ true → p < w.next_ran_ue
  -- the pool holds a RanUe under its own identifier, which is allocated
  pub pooled : (i p : ℕ) → load w.ran_ue_pool i ≡ some p → (w.ran_ues p).amf_ue_ngap_id ≡ i
  pub pooled_old : (i p : ℕ) → load w.ran_ue_pool i ≡ some p → p < w.next_ran_ue
  pub pooled_in_use : (i p : ℕ) → load w.ran_ue_pool i ≡ some p → ngap_id_in_use i w ≡ true

pub remove-Linked : (w : World) (p : ℕ) → Linked w → Linked (remove_ran_ue w p).1
unfolding remove_ran_ue
remove-Linked w p h = record {
  listed = λ r q e.
      ground (arith, h.listed r q, elem-remove_first p q (w.rans r).ran_ue_list (h.listed_once r));
  listed_once = λ r.
      ground
        (arith, h.listed_once r, remove_first-Unique p (w.rans r).ran_ue_list (h.listed_once r));
  listed_old = λ r q e.
      ground
        (arith, h.listed_old r q, elem-remove_first p q (w.rans r).ran_ue_list (h.listed_once r));
  pooled = λ i q e. ground (
    arith,
    h.pooled i q,
    load-delete w.ran_ue_pool (w.ran_ues p).amf_ue_ngap_id i,
    nat_beq_iff (w.ran_ues p).amf_ue_ngap_id i,
  );
  pooled_old = λ i q e. ground (
    arith,
    h.pooled_old i q,
    load-delete w.ran_ue_pool (w.ran_ues p).amf_ue_ngap_id i,
    nat_beq_iff (w.ran_ues p).amf_ue_ngap_id i,
  );
  pooled_in_use = λ i q e. ground (
    arith,
    h.pooled_in_use i q,
    load-delete w.ran_ue_pool (w.ran_ues p).amf_ue_ngap_id i,
    nat_beq_iff (w.ran_ues p).amf_ue_ngap_id i,
  );
}

pub insert-Linked :
    (w : World) (r id i : ℕ)
    → Linked w
    → ngap_id_in_use i w ≡ true
    → Linked (insert_ran_ue w r id i)
unfolding insert_ran_ue
insert-Linked w r id i h used = record {
  listed = λ s q e. ground (
    arith,
    h.listed s q,
    h.listed_old s q,
    elem-append q (w.rans s).ran_ue_list (w.next_ran_ue ∷ []),
  );
  listed_once = λ s. ground (
    arith,
    h.listed_once s,
    h.listed_old s w.next_ran_ue,
    append-Unique w.next_ran_ue (w.rans s).ran_ue_list (h.listed_once s),
  );
  listed_old = λ s q e.
      ground (arith, h.listed_old s q, elem-append q (w.rans s).ran_ue_list (w.next_ran_ue ∷ []));
  pooled = λ j q e. ground (
    arith,
    h.pooled j q,
    h.pooled_old j q,
    load-store w.ran_ue_pool i j w.next_ran_ue,
    nat_beq_iff i j,
  );
  pooled_old =
      λ j q e. ground (arith, h.pooled_old j q, load-store w.ran_ue_pool i j w.next_ran_ue);
  pooled_in_use = λ j q e. ground (
    arith,
    used,
    h.pooled_in_use j q,
    load-store w.ran_ue_pool i j w.next_ran_ue,
    nat_beq_iff i j,
  );
}

-- An allocation changes the history of one generator only, and its identifier is then in use.
record Allocation (w : World) (id : Option ℕ) (w' : World) : Type 0 where
  frame : w' ≡ record w { ngap_ids = w'.ngap_ids; drsm_ids = w'.drsm_ids }
  used : (i : ℕ) → id ≡ some i → ngap_id_in_use i w' ≡ true
  kept : (i : ℕ) → ngap_id_in_use i w ≡ true → ngap_id_in_use i w' ≡ true

allocate-Allocation :
    (gen : Generators) (w : World)
    → let (id, w') = allocate_amf_ue_ngap_id gen w in Allocation w id w'
unfolding allocate_amf_ue_ngap_id
allocate-Allocation gen w = record {
  frame = ground arith;
  used = λ i e. ground arith;
  kept = λ i e. ground arith;
}

Allocation-Linked : (w w' : World) (id : Option ℕ) → Allocation w id w' → Linked w → Linked w'
Allocation-Linked w w' id a h = record {
  listed = λ r q e. rw a.frame (h.listed r q (rw a.frame at e));
  listed_once = λ r. rw a.frame (h.listed_once r);
  listed_old = λ r q e. rw a.frame (h.listed_old r q (rw a.frame at e));
  pooled = λ i q e. rw a.frame (h.pooled i q (rw a.frame at e));
  pooled_old = λ i q e. rw a.frame (h.pooled_old i q (rw a.frame at e));
  pooled_in_use = λ i q e. a.kept i (h.pooled_in_use i q (rw a.frame at e));
}

pub new-Linked :
    (gen : Generators) (w : World) (r id : ℕ) → Linked w → Linked (new_ran_ue gen w r id).1
unfolding new_ran_ue
new-Linked gen w r id h =
    let (found, w') = allocate_amf_ue_ngap_id gen w in
    let a = allocate-Allocation gen w in
    let h' = Allocation-Linked w w' found a h in
    elim (Option-cases found) [
      | inl e ↦ rw (e, new_ran_ue) h'
      | inr (i, e) ↦ rw (e, new_ran_ue) (insert-Linked w' r id i h' (a.used i e))
    ]

pub switch-Linked :
    (w w' : World) (p new id : ℕ)
    → Linked w
    → p < w.next_ran_ue
    → switch_to_ran w (some p) (some new) id ≡ done w'
    → Linked w'
unfolding switch_to_ran
switch-Linked w w' p new id h old e = record {
  listed = λ s q k. ground (
    arith,
    h.listed s q,
    h.listed s p,
    elem-append q (w.rans s).ran_ue_list (p ∷ []),
    elem-append q (remove_first p (w.rans s).ran_ue_list) (p ∷ []),
    elem-remove_first p q (w.rans s).ran_ue_list (h.listed_once s),
  );
  listed_once = λ s. ground (
    arith,
    h.listed_once s,
    h.listed s p,
    remove_first-Unique p (w.rans s).ran_ue_list (h.listed_once s),
    elem-remove_first p p (w.rans s).ran_ue_list (h.listed_once s),
    append-Unique p (w.rans s).ran_ue_list (h.listed_once s),
    append-Unique p (remove_first p (w.rans s).ran_ue_list),
  );
  listed_old = λ s q k. ground (
    arith,
    old,
    h.listed_old s q,
    elem-append q (w.rans s).ran_ue_list (p ∷ []),
    elem-append q (remove_first p (w.rans s).ran_ue_list) (p ∷ []),
    elem-remove_first p q (w.rans s).ran_ue_list (h.listed_once s),
  );
  pooled = λ i q k. ground (arith, h.pooled i q);
  pooled_old = λ i q k. ground (arith, h.pooled_old i q);
  pooled_in_use = λ i q k. ground (arith, h.pooled_in_use i q);
}

pub attach-Linked : (w w' : World) (u p : ℕ) → Linked w → attach_ran_ue w u p ≡ done w' → Linked w'
unfolding attach_ran_ue
attach-Linked w w' u p h e = record {
  listed = λ r q k. ground (arith, h.listed r q);
  listed_once = λ r. ground (arith, h.listed_once r);
  listed_old = λ r q k. ground (arith, h.listed_old r q);
  pooled = λ i q k. ground (arith, h.pooled i q);
  pooled_old = λ i q k. ground (arith, h.pooled_old i q);
  pooled_in_use = λ i q k. ground (arith, h.pooled_in_use i q);
}

pub detach_old-Linked :
    (w : World) (old : Option ℕ) (p : ℕ) → Linked w → Linked (detach_old_ran_ue w old p)
unfolding detach_old_ran_ue
detach_old-Linked w old p h = record {
  listed = λ r q k. ground (arith, h.listed r q);
  listed_once = λ r. ground (arith, h.listed_once r);
  listed_old = λ r q k. ground (arith, h.listed_old r q);
  pooled = λ i q k. ground (arith, h.pooled i q);
  pooled_old = λ i q k. ground (arith, h.pooled_old i q);
  pooled_in_use = λ i q k. ground (arith, h.pooled_in_use i q);
}
