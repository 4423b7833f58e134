-- ===== src/Crates.antt =====
-- What the program takes from crates that are not in the repository, as interfaces: the checksum
-- of crc32fast, and the identifiers of the uuid crate. A `Uuid` is a number below 2 ^ 128, opaque
-- but for these operations.
use eventfold_db.Common.{ℕ, ◌^◌, ◌<◌, ◌≡◌, List, ◌++◌, Option, some, length, All, IsByte}

-- crc32fast: `hash`, and the streaming `Hasher`.
pub record Crc32 : Type 1 where
  pub Hasher : Type 0
  pub new : Hasher
  pub update : Hasher → List ℕ → Hasher
  pub finalize : Hasher → ℕ
  pub hash : List ℕ → ℕ
  -- A checksum is a `u32`.
  pub hash-lt : (bs : List ℕ) → hash bs < 256 ^ 4
  -- Two updates hash the concatenation.
  pub finalize-update : (xs ys : List ℕ) → finalize (update (update new xs) ys) ≡ hash (xs ++ ys)

abbrev pub Uuid : Type 0
Uuid = ℕ

-- uuid: the sixteen bytes, and the hyphenated lowercase text.
pub record UuidCrate : Type 0 where
  pub as_bytes : Uuid → List ℕ
  pub from_bytes : List ℕ → Uuid
  pub to_string : Uuid → List ℕ
  pub parse : List ℕ → Option Uuid
  pub length-as_bytes : (u : Uuid) → length (as_bytes u) ≡ 16
  pub from_bytes-as_bytes : (u : Uuid) → u < 2 ^ 128 → from_bytes (as_bytes u) ≡ u
  pub from_bytes-lt : (bs : List ℕ) → length bs ≡ 16 → All IsByte bs → from_bytes bs < 2 ^ 128
  pub parse-to_string : (u : Uuid) → u < 2 ^ 128 → parse (to_string u) ≡ some u
