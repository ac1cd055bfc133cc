-- ===== src/Context/Ues/Keyed.antt =====
-- The pool holds each UE under its own SUPI (context/context.go, amf_ue.go).
use amf_cdac.Base.{
  ℕ, suc, ◌<◌, ◌≡◌, refl, inl, inr, String, some, [], ◌∷◌, Map, load, store, delete, range_find,
  ◌==◌, string_eq, All, arith, Bool-cases, nat_beq_iff, List-cases, ℤ, subst, sym, ◌∙◌,
}
use text.Mathlib.TextEquality.{eq_iff}
use amf_cdac.Context.State.{World, Guami}
use amf_cdac.Context.Ids.{Generators}
use amf_cdac.Context.Guti.{allocate_guti_to_ue, tmsi_allocate, set_guti}
use amf_cdac.Context.Ues.{
  add_amf_ue_to_ue_pool, with_new_ue, insert_ue, new_amf_ue, amf_ue_find_by_supi_local,
}

-- Each entry of the pool is an old UE, under its SUPI.
abbrev pub Entry : World → String × ℕ → Type 0
Entry w (key, u) = ((w.ues u).supi ≡ key) × (u < w.next_ue)

abbrev pub IsKeyed : World → Type 0
IsKeyed w = All (Entry w) w.ue_pool

range_find-load :
    (w : World) (m : Map String ℕ) (supi : String)
    → All (Entry w) m
    → range_find (λ u. (w.ues u).supi == supi) m ≡ load m supi
unfolding range_find load
range_find-load w [] supi h = refl
range_find-load w ((k, u) ∷ m) supi h =
    let same : (w.ues u).supi ≡ k = h.0.0 in
    let rest = range_find-load w m supi h.1 in rw (same, rest) refl

-- Where the pool holds each UE under its own SUPI, the search of the pool for a SUPI finds what the
-- pool has under this key, so AmfUeFindBySupiLocal and the first lookup of AmfUeFindBySupi agree.
pub find_by_supi-load :
    (w : World) (supi : String) → IsKeyed w → amf_ue_find_by_supi_local w supi ≡ load w.ue_pool supi
unfolding amf_ue_find_by_supi_local
find_by_supi-load w supi h = range_find-load w w.ue_pool supi h

pub delete-Entry :
    (w : World) (m : Map String ℕ) (k : String) → All (Entry w) m → All (Entry w) (delete m k)
unfolding delete
delete-Entry w [] k h = tt
delete-Entry w ((j, u) ∷ m) k h = elim (Bool-cases (j == k)) [
  | inl e ↦ rw e (delete-Entry w m k h.1)
  | inr e ↦ rw e (h.0, delete-Entry w m k h.1)
]

-- The worlds agree on the old UEs of the first one.
abbrev Extends : World → World → Type 0
Extends w w' =
    (w.next_ue < suc w'.next_ue) × ((u : ℕ) → u < w.next_ue → (w'.ues u).supi ≡ (w.ues u).supi)

Entry-kept : (w w' : World) (m : Map String ℕ) → Extends w w' → All (Entry w) m → All (Entry w') m
Entry-kept w w' [] x h = tt
Entry-kept w w' ((k, u) ∷ m) x h =
    ((x.1 u h.0.1 ∙ h.0.0, (let a = x.0 in let b = h.0.1 in omega arith)), Entry-kept w w' m x h.1)

insert-IsKeyed : (w : World) (supi : String) → IsKeyed w → IsKeyed (insert_ue w supi)
unfolding insert_ue store
insert-IsKeyed w supi h = elim (Bool-cases (supi == "")) [
  | inl e ↦ rw e (Entry-kept w (with_new_ue w) w.ue_pool (omega arith, λ u b. ground arith) h)
  | inr e ↦ rw e (
    (ground (arith, nat_beq_iff w.next_ue w.next_ue), omega arith),
    Entry-kept w (add_amf_ue_to_ue_pool (with_new_ue w) w.next_ue supi) (delete w.ue_pool supi)
        (unfold add_amf_ue_to_ue_pool in
          (omega arith, λ u b. ground (arith, nat_beq_iff w.next_ue u)))
        (delete-Entry w w.ue_pool supi h),
  )
]

-- The pool, the number of UEs and the SUPIs are those of the first world.
pub record SamePool (w w' : World) : Type 0 where
  pub pool : w'.ue_pool ≡ w.ue_pool
  pub count : w'.next_ue ≡ w.next_ue
  pub supis : (u : ℕ) → (w'.ues u).supi ≡ (w.ues u).supi

pub SamePool-IsKeyed : (w w' : World) → SamePool w w' → IsKeyed w → IsKeyed w'
SamePool-IsKeyed w w' s h =
    subst (λ m. All (Entry w') m) (sym s.pool)
      (Entry-kept w w' w.ue_pool (omega (arith, s.count), λ u b. s.supis u) h)

set_guti-SamePool : (w : World) (u : ℕ) (g : Guami) (t : ℤ) → SamePool w (set_guti w u g t)
unfolding set_guti
set_guti-SamePool w u g t = record {
  pool = refl;
  count = refl;
  supis = λ v. ground (arith, nat_beq_iff u v);
}

tmsi_allocate-SamePool : (gen : Generators) (w : World) → SamePool w (tmsi_allocate gen w).1
unfolding tmsi_allocate
tmsi_allocate-SamePool gen w = record {
  pool = ground arith;
  count = ground arith;
  supis = λ v. ground arith;
}

-- NewAmfUe keeps the pool so.
pub new_amf_ue-IsKeyed :
    (gen : Generators) (w w' : World) (supi : String)
    → IsKeyed w
    → new_amf_ue gen w supi ≡ some w'
    → IsKeyed w'
unfolding new_amf_ue allocate_guti_to_ue
new_amf_ue-IsKeyed gen w w' supi h e = elim (List-cases (insert_ue w supi).served_guami_list) [
  | inl n ↦ absurd (let opened = rw (n, allocate_guti_to_ue) at e in cc)
  | inr (g, gs, n) ↦
      let (t, w1) = tmsi_allocate gen (insert_ue w supi) in
      let opened = rw (n, allocate_guti_to_ue) at e in
      let result : set_guti w1 w.next_ue g t ≡ w' = cc in
      subst IsKeyed result (
        SamePool-IsKeyed w1 (set_guti w1 w.next_ue g t) (set_guti-SamePool w1 w.next_ue g t) (
          SamePool-IsKeyed (insert_ue w supi) w1 (tmsi_allocate-SamePool gen (insert_ue w supi))
            (insert-IsKeyed w supi h)))
]

pub load-Keyed :
    (w : World) (m : Map String ℕ) (k : String) (u : ℕ)
    → All (Entry w) m
    → load m k ≡ some u
    → (w.ues u).supi ≡ k
unfolding load
load-Keyed w [] k u h e = absurd (cc)
load-Keyed w ((j, v) ∷ m) k u h e = elim (Bool-cases (j == k)) [
  | inl s ↦
      let opened = rw s at e in
      let same : v ≡ u = cc in subst (λ x. (w.ues x).supi ≡ k) same (h.0.0 ∙ (eq_iff j k).0 s)
  | inr s ↦ load-Keyed w m k u h.1 (rw s at e)
]
