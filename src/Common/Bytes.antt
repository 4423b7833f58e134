-- ===== src/Common/Bytes.antt =====
-- Fixed-width integers as little-endian bytes: `to_le_bytes` and `from_le_bytes` of the standard
-- library's unsigned integers, the width a parameter.
use Prim.Native.Nat.{ℕ, zero, suc, ◌+◌, ◌*◌, ◌/◌, ◌%◌, ◌^◌, ◌<◌}
use mathlib.Core.List.{[], List, ◌∷◌}
use mathlib.Core.Bool.{Bool, true, false, ◌&&◌}
use mathlib.Core.Path.{◌≡◌, refl}
use native.Mathlib.Nat.{pow-suc}
use native.Mathlib.Omega.{arith}
use eventfold_db.Common.Lists.{length, All}
use eventfold_db.Common.Tests.{◌==◌}

-- The value modulo 256 ^ width, lowest byte first.
unfoldable pub to_le_bytes : ℕ → ℕ → List ℕ
to_le_bytes zero n = []
to_le_bytes (suc width) n = (n % 256) ∷ to_le_bytes width (n / 256)

unfoldable pub from_le_bytes : List ℕ → ℕ
from_le_bytes [] = 0
from_le_bytes (b ∷ bs) = b + 256 * from_le_bytes bs

pub length-to_le_bytes : (width n : ℕ) → length (to_le_bytes width n) ≡ width
unfolding to_le_bytes
length-to_le_bytes zero n = refl
length-to_le_bytes (suc width) n = omega (arith, length-to_le_bytes width (n / 256))

pub from_le_bytes-to_le_bytes :
    (width n : ℕ) → n < 256 ^ width → from_le_bytes (to_le_bytes width n) ≡ n
unfolding to_le_bytes from_le_bytes
from_le_bytes-to_le_bytes zero n h = omega arith
from_le_bytes-to_le_bytes (suc width) n h = omega (
  arith,
  pow-suc 256 width,
  from_le_bytes-to_le_bytes width (n / 256) (omega (arith, pow-suc 256 width)),
)

abbrev pub IsByte : ℕ → Type 0
IsByte b = b < 256

pub to_le_bytes-All : (width n : ℕ) → All IsByte (to_le_bytes width n)
unfolding to_le_bytes
to_le_bytes-All zero n = tt
to_le_bytes-All (suc width) n = (omega arith, to_le_bytes-All width (n / 256))

pub from_le_bytes-lt : (bs : List ℕ) → All IsByte bs → from_le_bytes bs < 256 ^ length bs
unfolding from_le_bytes
from_le_bytes-lt [] h = omega arith
from_le_bytes-lt (b ∷ bs) h = omega (arith, h.0, pow-suc 256 (length bs), from_le_bytes-lt bs h.1)

-- Equality of byte slices.
abbrev pub bytes_eq : List ℕ → List ℕ → Bool
bytes_eq [] [] = true
bytes_eq [] (y ∷ ys) = false
bytes_eq (x ∷ xs) [] = false
bytes_eq (x ∷ xs) (y ∷ ys) = (x == y) && bytes_eq xs ys

pub bytes_eq_refl : (xs : List ℕ) → bytes_eq xs xs ≡ true
bytes_eq_refl [] = refl
bytes_eq_refl (x ∷ xs) = ground (arith, bytes_eq_refl xs)

pub eq_of_bytes_eq : (xs ys : List ℕ) → bytes_eq xs ys ≡ true → xs ≡ ys
eq_of_bytes_eq [] [] h = refl
eq_of_bytes_eq [] (y ∷ ys) h = cc
eq_of_bytes_eq (x ∷ xs) [] h = cc
eq_of_bytes_eq (x ∷ xs) (y ∷ ys) h = ground (arith, eq_of_bytes_eq xs ys)
