-- ===== src/Nas/Identity/Stmsi.antt =====
-- The S-TMSI of a service request names the GUTI of its UE (nas/nas_security/security.go).
use amf_cdac.Base.{
  ℕ, ◌+◌, ◌*◌, ◌/◌, ◌%◌, ◌<◌, ◌≡◌, refl, sym, ap, pos, List, [], ◌∷◌, ◌++◌, some, false, arith,
  length, take, take-append_length, ltb, length-append, subst,
}
use amf_cdac.Types.{Bytes}
use amf_cdac.Context.State.{Guami}
use amf_cdac.Context.Guti.{hex_digits, format_08x, guti_text}
use amf_cdac.Nas.Identity.{encode_to_string, stmsi_to_guti}

-- The number that four octets stand for.
abbrev pub word : ℕ → ℕ → ℕ → ℕ → ℕ
word a b c d = ((a * 256 + b) * 256 + c) * 256 + d

word-digits :
    (a b c d : ℕ)
    → a < 256
    → b < 256
    → c < 256
    → d < 256
    → encode_to_string (a ∷ b ∷ c ∷ d ∷ []) ≡ format_08x (pos (word a b c d))
unfolding encode_to_string format_08x hex_digits
word-digits a b c d ha hb hc hd =
    let e0 : a / 16 % 16 ≡ word a b c d / 16 / 16 / 16 / 16 / 16 / 16 / 16 % 16 = omega arith in
    let e1 : a % 16 ≡ word a b c d / 16 / 16 / 16 / 16 / 16 / 16 % 16 = omega arith in
    let e2 : b / 16 % 16 ≡ word a b c d / 16 / 16 / 16 / 16 / 16 % 16 = omega arith in
    let e3 : b % 16 ≡ word a b c d / 16 / 16 / 16 / 16 % 16 = omega arith in
    let e4 : c / 16 % 16 ≡ word a b c d / 16 / 16 / 16 % 16 = omega arith in
    let e5 : c % 16 ≡ word a b c d / 16 / 16 % 16 = omega arith in
    let e6 : d / 16 % 16 ≡ word a b c d / 16 % 16 = omega arith in
    let e7 : d % 16 ≡ word a b c d % 16 = omega arith in cc

-- The served GUAMI's identifier in text: the region, and the two octets of set and pointer.
abbrev pub IsAmfId : Guami → Bytes → ℕ → ℕ → Type 0
IsAmfId g region x y = (length region ≡ 2) × (g.amf_id ≡ region ++ encode_to_string (x ∷ y ∷ []))

-- StmsiToGuti undoes what a UE does to its GUTI to get its S-TMSI: for a served GUAMI whose AMF
-- identifier is the two digits of its region and the digits of the octets `x` and `y`, an S-TMSI
-- with these octets and the four octets of a TMSI stands for the GUTI that the AMF makes of this
-- GUAMI and TMSI.
pub stmsi_to_guti-guti_text :
    (g : Guami) (gs : List Guami) (region : Bytes) (t x y a b c d : ℕ)
    → IsAmfId g region x y
    → a < 256
    → b < 256
    → c < 256
    → d < 256
    → stmsi_to_guti (g ∷ gs) (t ∷ x ∷ y ∷ a ∷ b ∷ c ∷ d ∷ [])
      ≡ some (guti_text g (pos (word a b c d)))
unfolding stmsi_to_guti guti_text
stmsi_to_guti-guti_text g gs region t x y a b c d (two, id) ha hb hc hd =
    let short : ltb (length g.amf_id) 2 ≡ false =
      rw (id, length-append region (encode_to_string (x ∷ y ∷ []))) (ground arith) in
    let first : take 2 g.amf_id ≡ region =
      subst (λ k. take k g.amf_id ≡ region) two
        (rw id (take-append_length region (encode_to_string (x ∷ y ∷ [])))) in
    let same : take 2 g.amf_id
          ++ (encode_to_string (x ∷ y ∷ []) ++ encode_to_string (a ∷ b ∷ c ∷ d ∷ []))
        ≡ g.amf_id ++ format_08x (pos (word a b c d)) =
      rw (first, id, word-digits a b c d ha hb hc hd)
        (sym (
          append-assoc region (encode_to_string (x ∷ y ∷ [])) (format_08x (pos (word a b c d))))) in
    rw short (ap (λ (r : Bytes). some (g.mcc ++ (g.mnc ++ r))) same)
  where
    append-assoc : (p q r : Bytes) → (p ++ q) ++ r ≡ p ++ (q ++ r)
    append-assoc [] q r = refl
    append-assoc (z ∷ p) q r = ap (◌∷◌ z) (append-assoc p q r)
