-- ===== src/Base/Decimal.antt =====
-- strconv.Itoa and strconv.ParseInt(s, 10, bits) on strings as lists of bytes.
use Prim.Native.Nat.{ℕ, zero, suc, ◌+◌, ◌-◌, ◌*◌, ◌/◌, ◌%◌, ◌^◌, ◌<◌, ◌≤◌}
use mathlib.Core.Path.{◌≡◌, refl, subst, ◌∙◌}
use mathlib.Core.Bool.{◌&&◌}
use mathlib.Core.Option.{Option, none, some}
use mathlib.Core.List.{List, [], ◌∷◌, ◌++◌}
use mathlib.Core.Logic.{inl, inr}
use native.Mathlib.Omega.{arith}
use amf_cdac.Base.Tests.{ltb, leb, if◌then◌else◌, nat_beq, Bool-cases}
use amf_cdac.Base.Numbers.{ℤ, pos, negsuc, to_int32}

-- The decimal digits of a number that has at most `fuel` of them.
unfoldable pub digits : ℕ → ℕ → List ℕ
digits zero n = []
digits (suc fuel) n =
    let rest = digits fuel (n / 10) in
    if ltb n 10 then (48 + n) ∷ [] else rest ++ (48 + n % 10) ∷ []

-- strconv.Itoa of an int32: ten digits are enough, and there may be a sign.
unfoldable pub itoa : ℤ → List ℕ
itoa (pos n) = digits 10 n
itoa (negsuc n) = 45 ∷ digits 10 (suc n)

-- int32(n) of an int64.
abbrev pub wrap_int32 : ℤ → ℤ
wrap_int32 (pos n) = to_int32 n
wrap_int32 (negsuc n) = to_int32 (2 ^ 32 - suc (n % 2 ^ 32))

-- The loop of strconv.ParseUint in base 10.
unfoldable pub parse_digits : List ℕ → ℕ → Option ℕ
parse_digits [] acc = some acc
parse_digits (b ∷ bs) acc =
    let rest = parse_digits bs (acc * 10 + (b - 48)) in if leb 48 b && leb b 57 then rest else none

abbrev pub parse_uint : List ℕ → Option ℕ
parse_uint [] = none
parse_uint (b ∷ bs) = parse_digits (b ∷ bs) 0

abbrev pub positive : ℕ → Option ℕ → Option ℤ
positive bits none = none
positive bits (some n) = if ltb n (2 ^ (bits - 1)) then some (pos n) else none

abbrev pub negated : ℕ → Option ℕ → Option ℤ
negated bits none = none
negated bits (some zero) = some (pos 0)
negated bits (some (suc n)) = if ltb n (2 ^ (bits - 1)) then some (negsuc n) else none

-- A sign, 43 or 45, is taken off first; the magnitude must fit into the bits.
unfoldable pub parse_int : ℕ → List ℕ → Option ℤ
parse_int bits [] = none
parse_int bits (b ∷ bs) =
    if nat_beq b 43
    then positive bits (parse_uint bs)
    else if nat_beq b 45
    then negated bits (parse_uint bs)
    else positive bits (parse_uint (b ∷ bs))

pub parse_digits-append :
    (ds : List ℕ) (a n b : ℕ)
    → parse_digits ds a ≡ some n
    → 48 ≤ b
    → b ≤ 57
    → parse_digits (ds ++ b ∷ []) a ≡ some (n * 10 + (b - 48))
unfolding parse_digits
parse_digits-append [] a n b h lo hi = ground arith
parse_digits-append (d ∷ ds) a n b h lo hi =
    ground (arith, parse_digits-append ds (a * 10 + (d - 48)) n b)

parse_digit : (n : ℕ) → n < 10 → parse_digits ((48 + n) ∷ []) 0 ≡ some n
unfolding parse_digits
parse_digit n h = ground arith

digits-step : (f n : ℕ) → 10 ≤ n → digits (suc f) n ≡ digits f (n / 10) ++ (48 + n % 10) ∷ []
unfolding digits
digits-step f n h = ground arith

digits-last : (f n : ℕ) → n < 10 → digits (suc f) n ≡ (48 + n) ∷ []
unfolding digits
digits-last f n h = ground arith

-- With enough fuel the digits of a number are read as the number.
pub parse_digits-digits : (f n : ℕ) → n < 10 ^ suc f → parse_digits (digits (suc f) n) 0 ≡ some n
parse_digits-digits zero n h = rw (digits-last 0 n (ground arith)) (parse_digit n (ground arith))
parse_digits-digits (suc f) n h = elim (Bool-cases (ltb n 10)) [
  | inl e ↦ rw (digits-last (suc f) n (ground arith)) (parse_digit n (ground arith))
  | inr e ↦
      let shorter = parse_digits-digits f (n / 10) (ground arith) in
      rw (digits-step (suc f) n (ground arith)) (
        parse_digits-append (digits (suc f) (n / 10)) 0 (n / 10) (48 + n % 10) shorter
          (ground arith) (ground arith)
        ∙ ground arith)
]

-- The text starts with a digit.
abbrev StartsByDigit : List ℕ → Type 0
StartsByDigit bs = (d : ℕ) × (ds : List ℕ) × (bs ≡ d ∷ ds) × (48 ≤ d) × (d ≤ 57)

digits-StartsByDigit : (f n : ℕ) → n < 10 ^ suc f → StartsByDigit (digits (suc f) n)
digits-StartsByDigit zero n h =
    (48 + n, [], digits-last 0 n (ground arith), ground arith, ground arith)
digits-StartsByDigit (suc f) n h = elim (Bool-cases (ltb n 10)) [
  | inl e ↦ (48 + n, [], digits-last (suc f) n (ground arith), ground arith, ground arith)
  | inr e ↦
      let (d, ds, first, lo, hi) = digits-StartsByDigit f (n / 10) (ground arith) in
      (d, ds ++ (48 + n % 10) ∷ [], digits-step (suc f) n (ground arith) ∙ (rw first refl), lo, hi)
]

parse_int-StartsByDigit :
    (bits n : ℕ) (bs : List ℕ)
    → StartsByDigit bs
    → parse_digits bs 0 ≡ some n
    → n < 2 ^ (bits - 1)
    → parse_int bits bs ≡ some (pos n)
unfolding parse_int
parse_int-StartsByDigit bits n bs (d, ds, first, lo, hi) e h =
    rw first (let e' = subst (λ x. parse_digits x 0 ≡ some n) first e in ground arith)

-- A non-negative int32 is read back from its text, by a parser for at least as many bits.
pub parse_int-itoa :
    (bits n : ℕ) → n < 2 ^ 31 → n < 2 ^ (bits - 1) → parse_int bits (itoa (pos n)) ≡ some (pos n)
unfolding itoa
parse_int-itoa bits n h k =
    parse_int-StartsByDigit bits n (digits 10 n) (digits-StartsByDigit 9 n (ground arith))
      (parse_digits-digits 9 n (ground arith)) k
