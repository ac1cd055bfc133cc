-- ===== src/Context/Guti/Text.antt =====
-- A GUTI tells the TMSI (context/context.go).
use amf_cdac.Base.{
  ℕ, suc, zero, ◌+◌, ◌*◌, ◌-◌, ◌/◌, ◌%◌, ◌^◌, ◌<◌, ◌≡◌, refl, ℤ, pos, ltb, if◌then◌else◌, [], ◌∷◌,
  ◌++◌, arith, ap, length, drop, drop-append_length, ◌∙◌,
}
use native.Mathlib.Numerals.{unary_clauses}
use amf_cdac.Types.{Bytes}
use amf_cdac.Context.State.{Guami}
use amf_cdac.Context.Guti.{hex_char, hex_digits, format_08x, guti_text}

-- The number that digits stand for, from `acc` on.
pub digit_value : ℕ → ℕ
digit_value c = if ltb c 58 then c - 48 else c - 87

pub number : ℕ → Bytes → ℕ
number acc [] = acc
number acc (c ∷ cs) = number (acc * 16 + digit_value c) cs

number-append :
    (acc : ℕ) (xs : Bytes) (c : ℕ) → number acc (xs ++ c ∷ []) ≡ number acc xs * 16 + digit_value c
unfolding number
number-append acc [] c = refl
number-append acc (x ∷ xs) c = number-append (acc * 16 + digit_value x) xs c

digit_value-hex_char : (d : ℕ) → d < 16 → digit_value (hex_char d) ≡ d
unfolding digit_value
digit_value-hex_char d h = ground arith

number-hex_digits : (k n : ℕ) → n < 16 ^ k → number 0 (hex_digits k n) ≡ n
unfolding number hex_digits
number-hex_digits zero n h = omega arith
number-hex_digits (suc k) n h =
    let bound = simp unary_clauses at h in
    let small : n / 16 < 16 ^ k = omega arith in
    number-append 0 (hex_digits k (n / 16)) (hex_char (n % 16))
    ∙ rw (number-hex_digits k (n / 16) small, digit_value-hex_char (n % 16) (omega arith))
        (omega arith)

-- What follows the PLMN and the AMF identifier in a GUTI.
pub tmsi_part : Guami → Bytes → Bytes
tmsi_part g guti = drop (length g.amf_id) (drop (length g.mnc) (drop (length g.mcc) guti))

tmsi_part-guti_text : (g : Guami) (t : ℤ) → tmsi_part g (guti_text g t) ≡ format_08x t
unfolding tmsi_part guti_text
tmsi_part-guti_text g t =
    let rest = format_08x t in
    ap (λ (x : Bytes). drop (length g.amf_id) (drop (length g.mnc) x))
      (drop-append_length g.mcc (g.mnc ++ (g.amf_id ++ rest)))
    ∙ ap (drop (length g.amf_id)) (drop-append_length g.mnc (g.amf_id ++ rest))
    ∙ drop-append_length g.amf_id rest

-- A GUTI tells its TMSI: the digits behind the PLMN and the AMF identifier, read as a hexadecimal
-- number, are the TMSI that the GUTI was made of, of any value from 0 to 2^32 - 1.
pub guti-number :
    (g : Guami) (n : ℕ) → n < 2 ^ 32 → number 0 (tmsi_part g (guti_text g (pos n))) ≡ n
guti-number g n h =
    ap (number 0) (tmsi_part-guti_text g (pos n))
    ∙ (unfold format_08x in number-hex_digits 8 n (omega (arith, h)))
