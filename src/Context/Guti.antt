-- ===== src/Context/Guti.antt =====
-- TMSIs and GUTIs (context/context.go): the number of a UE, and the text that is made of it.
mod Examples
pub mod Text
pub mod Tmsi
use amf_cdac.Base.{
  ℕ, suc, zero, ◌+◌, ◌/◌, ◌%◌, ◌^◌, ℤ, pos, negsuc, to_int32, ltb, if◌then◌else◌, Option, none,
  some, List, [], ◌∷◌, ◌++◌,
}
use amf_cdac.Types.{Bytes}
use amf_cdac.Context.State.{World, Guami, IdCall, allocated, freed, freed_below, update}
use amf_cdac.Context.Ids.{Generators}

-- A hexadecimal digit as strconv writes it, and the last `k` digits of a number.
abbrev pub hex_char : ℕ → ℕ
hex_char d = if ltb d 10 then 48 + d else 87 + d

unfoldable pub hex_digits : ℕ → ℕ → Bytes
hex_digits zero n = []
hex_digits (suc k) n = hex_digits k (n / 16) ++ hex_char (n % 16) ∷ []

-- fmt.Sprintf("%08x", tmsi) of an int32: the sign counts for the width.
unfoldable pub format_08x : ℤ → Bytes
unfolding hex_digits
format_08x (pos n) = hex_digits 8 n
format_08x (negsuc n) =
    45 ∷ (if ltb (suc n) (16 ^ 7) then hex_digits 7 (suc n) else hex_digits 8 (suc n))

-- The GUTI: the PLMN, the AMF identifier and the TMSI.
unfoldable pub guti_text : Guami → ℤ → Bytes
unfolding format_08x
guti_text g tmsi = g.mcc ++ (g.mnc ++ (g.amf_id ++ format_08x tmsi))

-- context.TmsiAllocate(): -1 is its error.
unfoldable pub tmsi_allocate : Generators → World → ℤ × World
tmsi_allocate gen w =
    if w.enable_db_store
    then elim (gen.allocate_drsm w.drsm_ids) [
      | none ↦ (negsuc 0, w)
      | some i ↦ (pos i, record w { drsm_ids = allocated i ∷ w.drsm_ids })
    ]
    else elim (gen.allocate_tmsi w.tmsi_ids) [
      | none ↦ (negsuc 0, w)
      | some i ↦ (to_int32 i, record w { tmsi_ids = allocated i ∷ w.tmsi_ids })
    ]

-- The release of a TMSI; the error of drsm is logged only.
abbrev pub release : ℤ → IdCall
release (pos i) = freed i
release (negsuc n) = freed_below n

unfoldable pub free_tmsi : World → ℤ → World
free_tmsi w tmsi =
    if w.enable_db_store
    then record w { drsm_ids = release tmsi ∷ w.drsm_ids }
    else record w { tmsi_ids = release tmsi ∷ w.tmsi_ids }

-- A UE takes the TMSI, and the GUTI made of it.
unfoldable pub set_guti : World → ℕ → Guami → ℤ → World
unfolding guti_text
set_guti w u g tmsi = record w {
  ues = update w.ues u (record (w.ues u) { tmsi = tmsi; guti = guti_text g tmsi });
}

-- context.AllocateGutiToUe(ue): without a served GUAMI the index is out of range.
unfoldable pub allocate_guti_to_ue : Generators → World → ℕ → Option World
unfolding tmsi_allocate set_guti
allocate_guti_to_ue gen w u = elim w.served_guami_list [
  | [] ↦ none
  | g ∷ gs ↦ let (tmsi, w') = tmsi_allocate gen w in some (set_guti w' u g tmsi)
]

-- context.ReAllocateGutiToUe(ue)
unfoldable pub reallocate_guti_to_ue : Generators → World → ℕ → Option World
unfolding tmsi_allocate set_guti free_tmsi
reallocate_guti_to_ue gen w u = elim w.served_guami_list [
  | [] ↦ none
  | g ∷ gs ↦
      let (tmsi, w') = tmsi_allocate gen (free_tmsi w (w.ues u).tmsi) in some (set_guti w' u g tmsi)
]
