-- ===== src/Context/Ran/Sweep.antt =====
-- What RemoveAllUeInRan leaves behind (context/amf_ran.go).
use amf_cdac.Base.{
  ℕ, zero, suc, ◌≡◌, ◌≢◌, refl, sym, ◌∙◌, ap, subst, inl, inr, Option, none, some, List, [], ◌∷◌,
  ◌++◌, arith, nat_beq, nat_beq_iff, All, All-append, All-drop, All-remove_first, remove_first,
  length, drop, Bool-cases,
}
use amf_cdac.Context.State.{World}
use amf_cdac.Context.Ran.{remove_ran_ue, shifted, nth, visit, remove_entry, remove_all_ue_in_ran}

-- Removing a UE of the station takes it off the station's list, and leaves the stations of the UEs.
remove_ran_ue-list :
    (w : World) (p r : ℕ)
    → (w.ran_ues p).ran ≡ some r
    → (((remove_ran_ue w p).1.rans r).ran_ue_list ≡ remove_first p (w.rans r).ran_ue_list)
unfolding remove_ran_ue
remove_ran_ue-list w p r h = ground arith

remove_ran_ue-ran :
    (w : World) (p q : ℕ) → ((remove_ran_ue w p).1.ran_ues q).ran ≡ (w.ran_ues q).ran
unfolding remove_ran_ue
remove_ran_ue-ran w p q = ground arith

-- The entry is a UE of the station `r`, and another one than `b`.
abbrev Other : World → ℕ → ℕ → ℕ → Type 0
Other w r b p = (p ≢ b) × ((w.ran_ues p).ran ≡ some r)

Other-kept :
    (w w' : World) (r b : ℕ) (xs : List ℕ)
    → ((p : ℕ) → (w'.ran_ues p).ran ≡ (w.ran_ues p).ran)
    → All (Other w r b) xs
    → All (Other w' r b) xs
Other-kept w w' r b [] same h = tt
Other-kept w w' r b (x ∷ xs) same h = ((h.0.0, same x ∙ h.0.1), Other-kept w w' r b xs same h.1)

nth-All : (P : ℕ → Type 0) (xs : List ℕ) (i : ℕ) (p : ℕ) → All P xs → nth xs i ≡ some p → P p
unfolding nth
nth-All P [] zero p h e = absurd (cc)
nth-All P [] (suc i) p h e = absurd (cc)
nth-All P (x ∷ xs) zero p h e = let same : x ≡ p = cc in subst P same h.0
nth-All P (x ∷ xs) (suc i) p h e = nth-All P xs i p h.1 e

remove_entry-ran :
    (w : World) (o : Option ℕ) (q : ℕ) → ((remove_entry w o).ran_ues q).ran ≡ (w.ran_ues q).ran
unfolding remove_entry
remove_entry-ran w none q = refl
remove_entry-ran w (some p) q = remove_ran_ue-ran w p q

remove_first-other :
    (p b : ℕ) (ys : List ℕ) → p ≢ b → remove_first p (b ∷ ys) ≡ b ∷ remove_first p ys
remove_first-other p b ys n = elim (Bool-cases (nat_beq p b)) [
  | inl e ↦ absurd (n ((nat_beq_iff p b).0 e))
  | inr e ↦ rw e
]

entry-spares :
    (w : World) (r b : ℕ) (ys : List ℕ) (o : Option ℕ)
    → (w.rans r).ran_ue_list ≡ b ∷ ys
    → All (Other w r b) ys
    → ((p : ℕ) → o ≡ some p → Other w r b p)
    → (rest : List ℕ) × (((remove_entry w o).rans r).ran_ue_list ≡ b ∷ rest)
      × All (Other w r b) rest
unfolding remove_entry
entry-spares w r b ys none live h k = (ys, live, h)
entry-spares w r b ys (some p) live h k =
    let (other, ran) = k p refl in
    (
      remove_first p ys,
      remove_ran_ue-list w p r ran ∙ ap (remove_first p) live ∙ remove_first-other p b ys other,
      All-remove_first (Other w r b) p ys h,
    )

-- Once `b` heads both the list and the array, the loop never meets it.
visit-spares :
    (n i r b : ℕ) (ys zs : List ℕ) (w : World)
    → (w.rans r).ran_ue_list ≡ b ∷ ys
    → All (Other w r b) ys
    → All (Other w r b) zs
    → (rest : List ℕ) × (((visit n (suc i) (b ∷ zs) w r).rans r).ran_ue_list ≡ b ∷ rest)
unfolding visit nth shifted
visit-spares zero i r b ys zs w live h k = (ys, live)
visit-spares (suc n) i r b ys zs w live h k =
    let o = nth zs i in
    let w' = remove_entry w o in
    let (ys', live', h') =
      entry-spares w r b ys o live h (λ p e. nth-All (Other w r b) zs i p k e) in
    let zs' = ys' ++ drop (length ys') zs in
    let keep =
      λ (xs : List ℕ) (g : All (Other w r b) xs). Other-kept w w' r b xs (remove_entry-ran w o) g in
    let k' = keep zs' (
      All-append (Other w r b) ys' (drop (length ys') zs) h'
        (All-drop (Other w r b) (length ys') zs k)) in
    subst
      (λ l.
        (rest : List ℕ) × (((visit n (suc (suc i)) (shifted l (b ∷ zs)) w' r).rans r).ran_ue_list
          ≡ b ∷ rest))
      (sym live') (visit-spares n (suc i) r b ys' zs' w' live' (keep ys' h') k')

remove_first-head : (a : ℕ) (xs : List ℕ) → remove_first a (a ∷ xs) ≡ xs
remove_first-head a xs = rw ((nat_beq_iff a a).1 refl)

others :
    (w : World) (r b : ℕ) (xs : List ℕ)
    → All (λ p. (w.ran_ues p).ran ≡ some r) xs
    → All (λ p. p ≢ b) xs
    → All (Other w r b) xs
others w r b [] h k = tt
others w r b (x ∷ xs) h k = ((k.0, h.0), others w r b xs h.1 k.1)

-- RemoveAllUeInRan does not remove all UEs of a station: of three or more UEs, all of this station
-- and no two of them the same, the second one is still in the station's list when it returns.
pub sweep_spares_second :
    (w : World) (r a b c : ℕ) (rest : List ℕ)
    → (w.rans r).ran_ue_list ≡ a ∷ b ∷ c ∷ rest
    → All (λ p. (w.ran_ues p).ran ≡ some r) (a ∷ b ∷ c ∷ rest)
    → a ≢ b
    → All (λ p. p ≢ b) (c ∷ rest)
    → (left : List ℕ) × (((remove_all_ue_in_ran w r).rans r).ran_ue_list ≡ b ∷ left)
unfolding remove_all_ue_in_ran remove_entry nth shifted visit
sweep_spares_second w r a b c rest live here ne apart =
    let w' = (remove_ran_ue w a).1 in
    let tail : List ℕ = c ∷ rest in
    let live' : (w'.rans r).ran_ue_list ≡ b ∷ tail =
      remove_ran_ue-list w a r here.0 ∙ ap (remove_first a) live ∙ remove_first-head a (b ∷ tail) in
    let kept : All (Other w' r b) tail =
      Other-kept w w' r b tail (λ q. remove_ran_ue-ran w a q) (others w r b tail here.1.1 apart) in
    let zs = tail ++ drop (length tail) (b ∷ tail) in
    let stale : All (Other w' r b) (drop (length tail) (b ∷ tail)) =
      All-drop (Other w' r b) (length rest) tail kept in
    subst (λ l. (left : List ℕ) × (((visit (length l) 0 l w r).rans r).ran_ue_list ≡ b ∷ left))
      (sym live)
      (subst
        (λ l.
          (left : List ℕ) × (((visit (length (b ∷ tail)) 1 (shifted l (a ∷ b ∷ tail)) w' r).rans
              r).ran_ue_list
            ≡ b ∷ left))
        (sym live')
        (visit-spares (length (b ∷ tail)) 0 r b tail zs w' live' kept
          (All-append (Other w' r b) tail (drop (length tail) (b ∷ tail)) kept stale)))
