-- ===== src/Ue/Slices.antt =====
-- The slices and tracking areas of a UE (context/amf_ue.go, common_function.go, context.go): the
-- tests of membership and the registration area.
pub mod Membership
use amf_cdac.Base.{
  ℕ, ◌≡◌, ◌≢◌, refl, ◌⊎◌, ◌↔◌, inl, inr, Bool, true, false, not, ◌&&◌, ◌||◌, Option, none, some,
  List, [], ◌∷◌, ◌++◌, All, any, arith, if◌then◌else◌, Bool-cases, ◌==◌, nat_eq, string_eq,
  option_eq, nat_beq_iff, Map, load, String,
}
use mathlib.Core.List.{Memᴰ}
use text.Mathlib.TextEquality.{eq_iff}
use amf_cdac.Types.{
  AccessType, access_type_eq, PlmnId, plmn_id_eq, Tai, tai_eq, Tai_beq_iff, Snssai, snssai_eq, Area,
}
use amf_cdac.Ue.{AmfUe}

-- InTaiList(servedTai, taiList)
unfoldable pub in_tai_list : Tai → List Tai → Bool
in_tai_list served_tai = any (λ tai. tai == served_tai)

-- ue.RegistrationArea[accessType], which is nil for a missing key.
abbrev pub area_of : AmfUe → AccessType → List Tai
area_of ue access_type = elim (load ue.registration_area access_type) [
  | none ↦ []
  | some area ↦ area
]

-- ue.TaiListInRegistrationArea(taiList, accessType)
unfoldable pub tai_list_in_registration_area : AmfUe → List Tai → AccessType → Bool
unfolding in_tai_list
tai_list_in_registration_area ue [] access_type = true
tai_list_in_registration_area ue (tai ∷ tais) access_type =
    let rest = tai_list_in_registration_area ue tais access_type in
    if not (in_tai_list tai (area_of ue access_type)) then false else rest

-- IsTaiEqual(servedTai, targetTai): a nil PLMN or an empty TAC is equal to nothing.
unfoldable pub is_tai_equal : Tai → Tai → Bool
is_tai_equal served target = elim served.plmn_id [
  | none ↦ false
  | some p ↦ if served.tac == "" then false else elim target.plmn_id [
    | none ↦ false
    | some q ↦
        if target.tac == ""
        then false
        else p.mcc == q.mcc && p.mnc == q.mnc && served.tac == target.tac
  ]
]

-- TacInAreas(targetTac, areas)
unfoldable pub tac_in_areas : String → List Area → Bool
tac_in_areas target_tac = any (λ area. any (λ tac. target_tac == tac) area.tacs)

-- InPlmnSupportList(snssai): the slices of each supported PLMN.
unfoldable pub in_plmn_support_list : List (List Snssai) → Snssai → Bool
in_plmn_support_list plmn_support_list snssai =
    any (any (λ support. support == snssai)) plmn_support_list

-- ue.InAllowedNssai(targetSNssai, anType)
unfoldable pub in_allowed_nssai : AmfUe → Snssai → AccessType → Bool
in_allowed_nssai ue target an_type = elim (load ue.allowed_nssai an_type) [
  | none ↦ false
  | some allowed ↦ any (λ s. s == target) allowed
]

-- ue.InSubscribedNssai(targetSNssai): the loop over the subscribed slices, with the target as it is
-- left behind its pointer. A target without SD takes that of the first slice with its SST.
unfoldable pub in_subscribed_nssai : List Snssai → Snssai → Bool × Snssai
in_subscribed_nssai [] target = (false, target)
in_subscribed_nssai (s ∷ subscribed) target =
    let rest = in_subscribed_nssai subscribed target in
    if s.sst == target.sst && s.sd == target.sd
    then (true, target)
    else if s.sst == target.sst && target.sd == ""
    then (true, record target { sd = s.sd })
    else rest
