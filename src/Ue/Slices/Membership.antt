-- ===== src/Ue/Slices/Membership.antt =====
-- What the tests on slices and tracking areas decide (context/amf_ue.go, common_function.go).
use amf_cdac.Base.{
  ◌≡◌, ◌≢◌, refl, ◌⊎◌, ◌↔◌, inl, inr, Bool, true, false, ◌&&◌, none, List, [], ◌∷◌, All, Among,
  arith, Bool-cases, Option-cases, ◌==◌, nat_eq, string_eq, option_eq, nat_beq_iff,
}
use text.Mathlib.TextEquality.{eq_iff}
use amf_cdac.Types.{AccessType, plmn_id_eq, Tai, tai_eq, Tai_beq_iff, Snssai}
use amf_cdac.Ue.{AmfUe}
use amf_cdac.Ue.Slices.{
  in_tai_list, area_of, tai_list_in_registration_area, is_tai_equal, in_subscribed_nssai,
}

in_tai_list-Among : (tai : Tai) (tais : List Tai) → (in_tai_list tai tais ≡ true) ↔ Among tai tais
unfolding in_tai_list
in_tai_list-Among tai [] = (λ h. absurd (cc), λ h. absurd (cc))
in_tai_list-Among tai (t ∷ tais) = ground (arith, Tai_beq_iff t tai, in_tai_list-Among tai tais)

-- The list passes exactly when every tracking area in it stands in the UE's registration area of
-- the access type; the empty list passes.
pub in_registration_area_iff :
    (ue : AmfUe) (tais : List Tai) (access_type : AccessType)
    → (tai_list_in_registration_area ue tais access_type ≡ true)
      ↔ All (λ tai. Among tai (area_of ue access_type)) tais
unfolding tai_list_in_registration_area
in_registration_area_iff ue [] access_type = (λ h. tt, λ h. refl)
in_registration_area_iff ue (tai ∷ tais) access_type = ground (
  arith,
  in_tai_list-Among tai (area_of ue access_type),
  in_registration_area_iff ue tais access_type,
)

-- IsTaiEqual holds exactly of two equal tracking areas that have a PLMN and a TAC.
pub is_tai_equal_iff :
    (a b : Tai) → (is_tai_equal a b ≡ true) ↔ ((a ≡ b) × (a.plmn_id ≢ none) × (a.tac ≢ ""))
unfolding is_tai_equal
is_tai_equal_iff a b = elim (Option-cases a.plmn_id) [
  | inl e ↦ (λ h. absurd (ground arith), λ h. absurd (h.1 e))
  | inr (p, e) ↦ elim (Option-cases b.plmn_id) [
    | inl f ↦ (λ h. absurd (ground arith), λ h. absurd (ground arith))
    | inr (q, f) ↦ (
      λ h. (
        ground (
          arith,
          eq_iff p.mcc q.mcc,
          eq_iff p.mnc q.mnc,
          eq_iff a.tac b.tac,
          eq_iff a.tac "",
          eq_iff b.tac "",
        ),
        ground arith,
        ground (arith, eq_iff a.tac ""),
      ),
      λ h. ground (
        arith,
        eq_iff p.mcc q.mcc,
        eq_iff p.mnc q.mnc,
        eq_iff a.tac b.tac,
        eq_iff a.tac "",
        eq_iff b.tac "",
      ),
    )
  ]
]

-- The slice matches the target: the same SST, and the same SD or a target without one.
abbrev pub Matches : Snssai → Snssai → Type 0
Matches target s = (s.sst ≡ target.sst) × ((s.sd ≡ target.sd) ⊎ (target.sd ≡ ""))

abbrev pub Selected : Snssai → List Snssai → Bool × Snssai → Type 0
Selected target subscribed (true, target') = Among target' subscribed × Matches target target'
Selected target subscribed (false, target') =
    (target' ≡ target) × All (λ s. ¬ Matches target s) subscribed

Selected-later :
    (s target : Snssai) (subscribed : List Snssai) (r : Bool × Snssai)
    → ¬ Matches target s
    → Selected target subscribed r
    → Selected target (s ∷ subscribed) r
Selected-later s target subscribed (true, t) lacks (found, matched) = (inr found, matched)
Selected-later s target subscribed (false, t) lacks (same, others) = (same, (lacks, others))

-- InSubscribedNssai succeeds exactly when a subscribed slice matches the target. It then leaves a
-- subscribed slice in the target, with the SST that was asked for and, if one was given, the SD;
-- otherwise it leaves the target as it was.
pub in_subscribed-Selected :
    (subscribed : List Snssai) (target : Snssai)
    → Selected target subscribed (in_subscribed_nssai subscribed target)
unfolding in_subscribed_nssai
in_subscribed-Selected [] target = (refl, tt)
in_subscribed-Selected (s ∷ subscribed) target =
    elim (Bool-cases (s.sst == target.sst && s.sd == target.sd)) [
      | inl same ↦ rw same (
        inl (
            ground
              (arith, eq_iff s.sd target.sd, eq_iff target.sd "", nat_beq_iff s.sst target.sst)),
        (refl, inl refl),
      )
      | inr differs ↦ elim (Bool-cases (s.sst == target.sst && target.sd == "")) [
        | inl open_ ↦
            rw (differs, open_)
              (
                inl (
                    ground (
                      arith,
                      eq_iff s.sd target.sd,
                      eq_iff target.sd "",
                      nat_beq_iff s.sst target.sst,
                    )),
                (
                  refl,
                  inr (
                      ground (
                        arith,
                        eq_iff s.sd target.sd,
                        eq_iff target.sd "",
                        nat_beq_iff s.sst target.sst,
                      )),
                ),
              )
        | inr closed ↦
            rw (differs, closed)
              (Selected-later s target subscribed (in_subscribed_nssai subscribed target)
                (λ m.
                  ground (
                    arith,
                    eq_iff s.sd target.sd,
                    eq_iff target.sd "",
                    nat_beq_iff s.sst target.sst,
                  ))
                (in_subscribed-Selected subscribed target))
      ]
    ]
