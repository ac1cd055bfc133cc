-- ===== src/Context/Guti/Tmsi.antt =====
-- The TMSI that a UE is given (context/context.go).
use amf_cdac.Base.{
  ℕ, ◌^◌, ◌<◌, ◌≡◌, refl, ◌⊎◌, inl, inr, ℤ, pos, negsuc, Bool, true, false, Option, some, List, ◌∷◌,
  arith, ap, Option-cases, Bool-cases, if◌then◌else◌, subst, ◌∙◌, nat_beq_iff,
}
use amf_cdac.Context.State.{World, IdCall, Guami}
use amf_cdac.Context.Ids.{Generators, IsFresh, in_use}
use amf_cdac.Context.Guti.{tmsi_allocate, set_guti, allocate_guti_to_ue, guti_text}
use amf_cdac.Context.Guti.Text.{number, tmsi_part, guti-number}

-- A generator hands out identifiers that an int32 holds.
abbrev pub IsInt32 : (List IdCall → Option ℕ) → Type 0
IsInt32 allocate = (calls : List IdCall) (i : ℕ) → allocate calls ≡ some i → i < 2 ^ 31

abbrev pub tmsi_in_use : ℕ → World → Bool
tmsi_in_use i w = if w.enable_db_store then in_use i w.drsm_ids else in_use i w.tmsi_ids

tmsi_allocate-cases :
    (gen : Generators) (w : World)
    → IsFresh gen.allocate_tmsi
    → IsFresh gen.allocate_drsm
    → IsInt32 gen.allocate_tmsi
    → IsInt32 gen.allocate_drsm
    → let (t, w') = tmsi_allocate gen w in
      (t ≡ negsuc 0)
      ⊎ ((i : ℕ) × (t ≡ pos i)
          × (i < 2 ^ 31)
          × (tmsi_in_use i w ≡ false)
          × (tmsi_in_use i w' ≡ true))
unfolding tmsi_allocate
tmsi_allocate-cases gen w f g b c = elim (Bool-cases w.enable_db_store) [
  | inl e ↦ elim (Option-cases (gen.allocate_drsm w.drsm_ids)) [
    | inl n ↦ rw (e, n) (inl refl)
    | inr (i, n) ↦
        rw (e, n)
          (inr (
            i,
            refl,
            c w.drsm_ids i n,
            ground (arith, g w.drsm_ids i n),
            ground (arith, nat_beq_iff i i),
          ))
  ]
  | inr e ↦ elim (Option-cases (gen.allocate_tmsi w.tmsi_ids)) [
    | inl n ↦ rw (e, n) (inl refl)
    | inr (i, n) ↦
        let small = b w.tmsi_ids i n in
        rw (e, n)
          (inr (
            i,
            ground arith,
            small,
            ground (arith, f w.tmsi_ids i n),
            ground (arith, nat_beq_iff i i),
          ))
  ]
]

tmsi-set_guti : (w : World) (u : ℕ) (g : Guami) (t : ℤ) → ((set_guti w u g t).ues u).tmsi ≡ t
unfolding set_guti
tmsi-set_guti w u g t = ground (arith, nat_beq_iff u u)

guti-set_guti :
    (w : World) (u : ℕ) (g : Guami) (t : ℤ) → ((set_guti w u g t).ues u).guti ≡ guti_text g t
unfolding set_guti
guti-set_guti w u g t = ground (arith, nat_beq_iff u u)

-- The TMSI in a UE's GUTI is its own: where the generators hand out numbers of an int32 that are
-- not in use, AllocateGutiToUe gives the UE either the TMSI -1, when no number is left, or a TMSI
-- that was not allocated before and is after, and the GUTI then ends with the digits of this TMSI.
pub allocate-tells_tmsi :
    (gen : Generators) (w w' : World) (u : ℕ) (g : Guami) (gs : List Guami)
    → IsFresh gen.allocate_tmsi
    → IsFresh gen.allocate_drsm
    → IsInt32 gen.allocate_tmsi
    → IsInt32 gen.allocate_drsm
    → w.served_guami_list ≡ g ∷ gs
    → allocate_guti_to_ue gen w u ≡ some w'
    → ((w'.ues u).tmsi ≡ negsuc 0)
      ⊎ ((i : ℕ) × ((w'.ues u).tmsi ≡ pos i)
          × (tmsi_in_use i w ≡ false)
          × (tmsi_in_use i w' ≡ true)
          × (number 0 (tmsi_part g (w'.ues u).guti) ≡ i))
unfolding allocate_guti_to_ue set_guti
allocate-tells_tmsi gen w w' u g gs f f' b b' served h =
    let (t, w1) = tmsi_allocate gen w in
    let opened : set_guti w1 u g t ≡ w' =
      option_injective (rw (served, allocate_guti_to_ue) at h) in
    subst
      (λ v.
        ((v.ues u).tmsi ≡ negsuc 0)
        ⊎ ((i : ℕ) × ((v.ues u).tmsi ≡ pos i)
            × (tmsi_in_use i w ≡ false)
            × (tmsi_in_use i v ≡ true)
            × (number 0 (tmsi_part g (v.ues u).guti) ≡ i)))
      opened
      (elim (tmsi_allocate-cases gen w f f' b b') [
        | inl e ↦ inl (tmsi-set_guti w1 u g t ∙ e)
        | inr (i, e, small, before, after) ↦ inr (
          i,
          tmsi-set_guti w1 u g t ∙ e,
          before,
          after,
          ap (λ x. number 0 (tmsi_part g x)) (guti-set_guti w1 u g t ∙ ap (guti_text g) e)
              ∙ guti-number g i (omega (arith, small)),
        )
      ])
  where
    option_injective : {x y : World} → some x ≡ some y → x ≡ y
    option_injective e = cc
