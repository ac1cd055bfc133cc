-- ===== src/Ue/Algorithms.antt =====
-- The choice of the NAS algorithms (context/amf_ue.go, SelectSecurityAlg and SecurityContextIsValid).
use amf_cdac.Base.{
  ℕ, ◌≡◌, ◌≢◌, refl, ◌⊎◌, inl, inr, Bool, not, ◌&&◌, List, [], ◌∷◌, ◌++◌, All, ap, ◌↔◌, arith,
  nat_beq, if◌then◌else◌, Bool-cases,
}
use amf_cdac.Types.{
  IntegrityAlg, nia0, nia1, nia2, nia3, other_nia, CipheringAlg, nea0, nea1, nea2, nea3, other_nea,
}
use amf_cdac.Ue.{AmfUe, SecurityCapability}

-- The switch of the first loop: an algorithm that it does not name leaves `ueSupported` as it was.
abbrev pub integrity_supported : SecurityCapability → IntegrityAlg → ℕ → ℕ
integrity_supported cap nia0 ue_supported = cap.ia0
integrity_supported cap nia1 ue_supported = cap.ia1_128
integrity_supported cap nia2 ue_supported = cap.ia2_128
integrity_supported cap nia3 ue_supported = cap.ia3_128
integrity_supported cap (other_nia n) ue_supported = ue_supported

abbrev pub ciphering_supported : SecurityCapability → CipheringAlg → ℕ → ℕ
ciphering_supported cap nea0 ue_supported = cap.ea0
ciphering_supported cap nea1 ue_supported = cap.ea1_128
ciphering_supported cap nea2 ue_supported = cap.ea2_128
ciphering_supported cap nea3 ue_supported = cap.ea3_128
ciphering_supported cap (other_nea n) ue_supported = ue_supported

-- The loop over an order of preference: `current` is the algorithm field, `supported` the switch.
pub choose {ℓ} : {Alg : Type ℓ} → (Alg → ℕ → ℕ) → ℕ → Alg → List Alg → Alg
choose supported ue_supported current [] = current
choose supported ue_supported current (alg ∷ algs) =
    let ue_supported' = supported alg ue_supported in
    if nat_beq ue_supported' 1 then alg else choose supported ue_supported' current algs

-- ue.SelectSecurityAlg(intOrder, encOrder)
unfoldable pub select_security_alg : AmfUe → List IntegrityAlg → List CipheringAlg → AmfUe
unfolding choose
select_security_alg ue int_order enc_order = record ue {
  integrity_alg = choose (integrity_supported ue.ue_security_capability) 0 nia0 int_order;
  ciphering_alg = choose (ciphering_supported ue.ue_security_capability) 0 nea0 enc_order;
}

-- The UE has said that it supports the algorithm; one that the code does not name it cannot have.
abbrev pub HasIntegrity : SecurityCapability → IntegrityAlg → Type 0
HasIntegrity cap alg = integrity_supported cap alg 0 ≡ 1

abbrev pub HasCiphering : SecurityCapability → CipheringAlg → Type 0
HasCiphering cap alg = ciphering_supported cap alg 0 ≡ 1

-- The first of a list that has a property, or `none` of them has it and it is `fallback`.
abbrev pub IsFirst {ℓ κ} : {A : Type ℓ} → (A → Type κ) → A → List A → A → Type (ℓ ⊔ κ)
IsFirst {A = A} Has fallback order chosen =
    ((before : List A) × (after : List A) × (order ≡ before ++ chosen ∷ after)
      × Has chosen
      × All (λ a. ¬ Has a) before)
    ⊎ ((chosen ≡ fallback) × All (λ a. ¬ Has a) order)

-- The switch depends on the old value of `ueSupported` only where it keeps it.
abbrev IsSwitch {ℓ} : {Alg : Type ℓ} → (Alg → ℕ → ℕ) → Type ℓ
IsSwitch {Alg = Alg} supported =
    (alg : Alg) (n : ℕ) → n ≢ 1 → (supported alg n ≡ 1) ↔ (supported alg 0 ≡ 1)

IsFirst-later {ℓ} :
    {Alg : Type ℓ} (Has : Alg → Type 0) (fallback alg chosen : Alg) (algs : List Alg)
    → ¬ Has alg
    → IsFirst Has fallback algs chosen
    → IsFirst Has fallback (alg ∷ algs) chosen
IsFirst-later Has fallback alg chosen algs lacks (inl (before, after, at, has, none_before)) =
    inl (alg ∷ before, after, ap (◌∷◌ alg) at, has, (lacks, none_before))
IsFirst-later Has fallback alg chosen algs lacks (inr (at, none_of)) = inr (at, (lacks, none_of))

choose-IsFirst {ℓ} :
    {Alg : Type ℓ} (supported : Alg → ℕ → ℕ) (n : ℕ) (fallback : Alg) (order : List Alg)
    → IsSwitch supported
    → n ≢ 1
    → IsFirst (λ alg. supported alg 0 ≡ 1) fallback order (choose supported n fallback order)
unfolding choose
choose-IsFirst supported n fallback [] s h = inr (refl, tt)
choose-IsFirst supported n fallback (alg ∷ algs) s h =
    elim (Bool-cases (nat_beq (supported alg n) 1)) [
      | inl e ↦ rw e (inl ([], algs, refl, (s alg n h).0 (ground arith), tt))
      | inr e ↦
          let lacks : supported alg n ≢ 1 = λ q. ground arith in
          rw e (
            IsFirst-later (λ a. supported a 0 ≡ 1) fallback alg
              (choose supported (supported alg n) fallback algs) algs (λ q. lacks ((s alg n h).1 q))
              (choose-IsFirst supported (supported alg n) fallback algs s lacks))
    ]

integrity-IsSwitch : (cap : SecurityCapability) → IsSwitch (integrity_supported cap)
integrity-IsSwitch cap nia0 n h = ground arith
integrity-IsSwitch cap _ n h = ground arith

ciphering-IsSwitch : (cap : SecurityCapability) → IsSwitch (ciphering_supported cap)
ciphering-IsSwitch cap nea0 n h = ground arith
ciphering-IsSwitch cap _ n h = ground arith

-- SelectSecurityAlg takes, of each order of preference, the first algorithm that the UE has said it
-- supports, and the null algorithm if it supports none of them; it changes nothing else of the UE.
pub select-IsFirst :
    (ue : AmfUe) (int_order : List IntegrityAlg) (enc_order : List CipheringAlg)
    → let ue' = select_security_alg ue int_order enc_order in
      let cap = ue.ue_security_capability in
      IsFirst (HasIntegrity cap) nia0 int_order ue'.integrity_alg
      × IsFirst (HasCiphering cap) nea0 enc_order ue'.ciphering_alg
      × (ue' ≡ record ue { integrity_alg = ue'.integrity_alg; ciphering_alg = ue'.ciphering_alg })
unfolding select_security_alg
select-IsFirst ue int_order enc_order =
    let cap = ue.ue_security_capability in
    (
      choose-IsFirst (integrity_supported cap) 0 nia0 int_order (integrity-IsSwitch cap)
          (omega arith),
      choose-IsFirst (ciphering_supported cap) 0 nea0 enc_order (ciphering-IsSwitch cap)
          (omega arith),
      refl,
    )

-- SecurityContextIsValid(); `no_key` is nasMessage.NasKeySetIdentifierNoKeyIsAvailable.
unfoldable pub security_context_is_valid : ℕ → AmfUe → Bool
security_context_is_valid no_key ue =
    ue.security_context_available && not (nat_beq ue.ng_ksi no_key) && not ue.mac_failed
