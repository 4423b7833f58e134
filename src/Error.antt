-- ===== src/Error.antt =====
-- src/error.rs: the error type of every fallible operation. A formatted message is the format
-- string, as a constructor, with the values that it shows.
use eventfold_db.Common.{ℕ, Option, none, some}
use eventfold_db.Crates.{Uuid}

-- The text of an expected or an actual version: `NoStream`, or a number.
pub data VersionText : Type 0 where
  no_stream : VersionText
  number : ℕ → VersionText

-- The details of a corrupt record.
pub data Detail : Type 0 where
  body_too_short : Detail
  crc_mismatch : ℕ → ℕ → Detail
  unexpected_end : Detail
  invalid_utf8 : Detail
  wrong_header_magic : Detail
  wrong_footer_magic : Detail
  mid_file_corruption : Detail

-- The details of an invalid file header.
pub data HeaderFault : Type 0 where
  wrong_magic : HeaderFault
  unsupported_version : ℕ → HeaderFault
  file_too_short : ℕ → HeaderFault

-- The details of an invalid argument.
pub data ArgumentFault : Type 0 where
  empty_event_type : ArgumentFault
  event_type_too_long : ℕ → ℕ → ArgumentFault
  writer_task_closed : ArgumentFault
  duplicate_event_id : Uuid → ArgumentFault
  subscription_lagged : ArgumentFault

pub data Error : Type 0 where
  wrong_expected_version : VersionText → VersionText → Error
  stream_not_found : Uuid → Error
  -- The operating system's error code.
  io : ℕ → Error
  corrupt_record : ℕ → Detail → Error
  invalid_header : HeaderFault → Error
  event_too_large : ℕ → ℕ → Error
  invalid_argument : ArgumentFault → Error

-- `Result<A, Error>`, and the operator `?`.
pub data Result {ℓ} (A : Type ℓ) : Type ℓ where
  ok : A → Result A
  err : Error → Result A

infixl 5 ◌>>◌ ◌>>=◌
abbrev pub ◌>>=◌ {ℓ κ} : {T : Type ℓ} {U : Type κ} → Result T → (T → Result U) → Result U
err fault >>= next = err fault
ok value >>= next = next value

abbrev pub ◌>>◌ {κ} : {U : Type κ} → Result (Unit {0}) → Result U → Result U
step >> rest = step >>= (λ done. rest)

-- A call of the operating system: `none` succeeds, `some code` fails.
abbrev pub attempt : Option ℕ → Result (Unit {0})
attempt none = ok tt
attempt (some code) = err (io code)
