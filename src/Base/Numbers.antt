-- ===== src/Base/Numbers.antt =====
-- Lists of addresses: membership, removal of one item, and no item twice. Go's signed integers.
use Prim.Native.Nat.{ℕ, suc, ◌-◌, ◌%◌, ◌^◌}
use mathlib.Core.Path.{◌≡◌, refl}
use mathlib.Core.Bool.{Bool, false, ◌||◌}
use mathlib.Core.List.{List, [], ◌∷◌, ◌++◌}
use native.Mathlib.Omega.{arith}
use mathlib.Core.Logic.{inl, inr}
use amf_cdac.Base.Tests.{if◌then◌else◌, nat_beq, ltb, Bool-cases}
use amf_cdac.Base.Lists.{All}

-- A signed integer: `negsuc n` is -(n + 1).
pub data ℤ : Type 0 where
  pos : ℕ → ℤ
  negsuc : ℕ → ℤ

-- int32(n) of a non-negative integer: the upper half of the residues is negative.
abbrev pub to_int32 : ℕ → ℤ
to_int32 n = let r = n % 2 ^ 32 in if ltb r (2 ^ 31) then pos r else negsuc (2 ^ 32 - suc r)

-- Whether an address stands in the list.
abbrev pub elem : ℕ → List ℕ → Bool
elem p [] = false
elem p (x ∷ xs) = nat_beq p x || elem p xs

-- append(xs[:i], xs[i+1:]...) at the first index i where p stands; xs if it stands nowhere.
abbrev pub remove_first : ℕ → List ℕ → List ℕ
remove_first p [] = []
remove_first p (x ∷ xs) = if nat_beq p x then xs else x ∷ remove_first p xs

-- No address stands in the list twice.
abbrev pub Unique : List ℕ → Type 0
Unique [] = Unit
Unique (x ∷ xs) = (elem x xs ≡ false) × Unique xs

pub elem-append : (p : ℕ) (xs ys : List ℕ) → elem p (xs ++ ys) ≡ (elem p xs || elem p ys)
elem-append p [] ys = refl
elem-append p (x ∷ xs) ys = ground (arith, elem-append p xs ys)

pub elem-remove_first :
    (p q : ℕ) (xs : List ℕ)
    → Unique xs
    → elem q (remove_first p xs) ≡ (if nat_beq p q then false else elem q xs)
elem-remove_first p q [] u = ground arith
elem-remove_first p q (x ∷ xs) u = ground (arith, elem-remove_first p q xs u.1, u.0)

pub remove_first-Unique : (p : ℕ) (xs : List ℕ) → Unique xs → Unique (remove_first p xs)
remove_first-Unique p [] u = tt
remove_first-Unique p (x ∷ xs) u =
    ground (arith, remove_first-Unique p xs u.1, elem-remove_first p x xs u.1)

pub append-Unique : (p : ℕ) (xs : List ℕ) → Unique xs → elem p xs ≡ false → Unique (xs ++ p ∷ [])
append-Unique p [] u h = (refl, tt)
append-Unique p (x ∷ xs) u h = ground (arith, append-Unique p xs u.1, elem-append x xs (p ∷ []))

pub All-remove_first {κ} :
    (P : ℕ → Type κ) (p : ℕ) (xs : List ℕ) → All P xs → All P (remove_first p xs)
All-remove_first P p [] h = tt
All-remove_first P p (x ∷ xs) h = elim (Bool-cases (nat_beq p x)) [
  | inl e ↦ rw e h.1
  | inr e ↦ rw e (h.0, All-remove_first P p xs h.1)
]
