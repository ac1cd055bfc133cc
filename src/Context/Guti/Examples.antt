-- ===== src/Context/Guti/Examples.antt =====
-- The theorems on GUTIs at a served GUAMI and a generator.
use amf_cdac.Base.{
  ℕ, ◌≡◌, refl, inl, inr, pos, some, none, Option, List, [], ◌∷◌, arith, if◌then◌else◌, Bool-cases,
}
use amf_cdac.Context.State.{World, Guami, IdCall}
use amf_cdac.Context.Ids.{Generators, IsFresh, in_use}
use amf_cdac.Context.Samples.{world}
use amf_cdac.Context.Guti.{set_guti, tmsi_allocate}
use amf_cdac.Context.Guti.Tmsi.{IsInt32}

-- The PLMN 208 93 and the AMF identifier cafe00.
abbrev guami : Guami
guami = record {
  mcc = 50 ∷ 48 ∷ 56 ∷ [];
  mnc = 57 ∷ 51 ∷ [];
  amf_id = 99 ∷ 97 ∷ 102 ∷ 101 ∷ 48 ∷ 48 ∷ [];
}

-- A generator with the one identifier 7.
abbrev single : List IdCall → Option ℕ
single calls = if in_use 7 calls then none else some 7

single-IsFresh : IsFresh single
single-IsFresh calls i e = elim (Bool-cases (in_use 7 calls)) [
  | inl used ↦ absurd (let opened = rw used at e in cc)
  | inr free ↦ let opened = rw free at e in let same : 7 ≡ i = cc in rw (← same, free) refl
]

single-IsInt32 : IsInt32 single
single-IsInt32 calls i e = elim (Bool-cases (in_use 7 calls)) [
  | inl used ↦ absurd (let opened = rw used at e in cc)
  | inr free ↦ let opened = rw free at e in let same : 7 ≡ i = cc in omega arith
]

abbrev singles : Generators
singles = record { allocate_ngap = single; allocate_tmsi = single; allocate_drsm = single }

abbrev serving : World
serving = record (world []) { served_guami_list = guami ∷ [] }

abbrev after : World
after = set_guti (tmsi_allocate singles serving).1 0 guami (pos 7)
