-- ===== src/Store/Recovery.antt =====
-- src/store.rs: the recovery loop of `Store::open`. An offset into the file is kept beside the
-- bytes from there on, `remaining`; inside a batch, offsets count from the start of the batch.
pub mod Local
pub mod Batch
pub mod Loop
pub mod Extend
use eventfold_db.Common.{
  [], ℕ, zero, suc, ◌+◌, ◌-◌, Bool, true, false, ◌||◌, List, ◌∷◌, Option, none, some, length, take,
  drop, ◌==◌, if◌then◌else◌,
}
use eventfold_db.Crates.{Crc32, UuidCrate}
use eventfold_db.Error.{Error, Result, ok, err, corrupt_record, mid_file_corruption}
use eventfold_db.Types.{RecordedEvent}
use eventfold_db.Codec.{
  DecodeOutcome, complete, incomplete, decode_batch_header, decode_batch_footer, decode_record,
  batch_footer_size,
}
use eventfold_db.EventLog.{EventLog, commit_all}

-- The `match` on a decoder's result: complete, incomplete, corrupt, another error.
abbrev pub on_outcome {ℓ κ} :
    {A : Type ℓ} {B : Type κ} → Result (DecodeOutcome A) → (A → ℕ → B) → B → B → (Error → B) → B
on_outcome (ok (complete value consumed)) f i c g = f value consumed
on_outcome (ok incomplete) f i c g = i
on_outcome (err (corrupt_record position detail)) f i c g = c
on_outcome (err e) f i c g = g e

abbrev pub is_complete {ℓ} : {A : Type ℓ} → Result (DecodeOutcome A) → Bool
is_complete (ok (complete value consumed)) = true
is_complete _ = false

-- A batch header decodes at some position of the bytes.
unfoldable pub has_batch_header : List ℕ → Bool
has_batch_header [] = false
has_batch_header (b ∷ bs) = is_complete (decode_batch_header (b ∷ bs)) || has_batch_header bs

-- The probes run from the byte after `start` to the end of the file.
unfoldable pub has_valid_batch_after : List ℕ → ℕ → Bool
has_valid_batch_after buf start = has_batch_header (drop (start + 1) buf)

-- Step 2 of the loop: the records that the header counts, and the bytes that they take.
pub data Records : Type 0 where
  records : List RecordedEvent → ℕ → Records
  cut : Records
  broken : Error → Records

abbrev pub cons_record : RecordedEvent → ℕ → Records → Records
cons_record event consumed (records events n) = records (event ∷ events) (consumed + n)
cons_record event consumed cut = cut
cons_record event consumed (broken e) = broken e

-- How one round of the loop ends. `torn` truncates the file at the start of the batch; so does
-- `damaged`, a wrong header magic, unless a batch header follows.
pub data Round : Type 0 where
  batch : List RecordedEvent → ℕ → Round
  torn : Round
  damaged : Round
  failed : Error → Round

-- How the loop ends: at the end of the file, with a truncation at an offset, or with an error.
pub data Exit : Type 0 where
  clean : EventLog → Exit
  truncated : ℕ → EventLog → Exit
  refused : Error → Exit

-- A batch goes on with the loop; any other round ends it.
abbrev pub on_round : Round → (List RecordedEvent → ℕ → Option Exit) → Exit → Exit → Option Exit
on_round (batch events consumed) next if_torn if_damaged = next events consumed
on_round torn next if_torn if_damaged = some if_torn
on_round damaged next if_torn if_damaged = some if_damaged
on_round (failed e) next if_torn if_damaged = some (refused e)

module _ ⦃crc : Crc32⦄ ⦃uuid : UuidCrate⦄ where
  unfoldable pub read_records : ℕ → List ℕ → Records
  read_records zero buf = records [] 0
  read_records (suc n) buf =
      on_outcome (decode_record buf)
        (λ event consumed. cons_record event consumed (read_records n (drop consumed buf))) cut cut
        broken

  -- Steps 3 and 4: the footer, and the checksum over header and records.
  unfoldable pub read_footer : List ℕ → ℕ → Records → Round
  read_footer remaining consumed cut = torn
  read_footer remaining consumed (broken e) = failed e
  read_footer remaining consumed (records events n) =
      on_outcome (decode_batch_footer (drop (consumed + n) remaining))
        (λ footer k.
          if footer.batch_crc == crc.hash (take (consumed + n + k - batch_footer_size) remaining)
          then batch events (consumed + n + k)
          else torn)
        torn torn failed

  unfoldable pub read_batch : List ℕ → Round
  read_batch remaining =
      on_outcome (decode_batch_header remaining)
        (λ header consumed.
          read_footer remaining consumed
            (read_records header.record_count (drop consumed remaining)))
        torn damaged failed

  -- A wrong header magic at `offset`.
  unfoldable pub if_damaged : ℕ → List ℕ → ℕ → EventLog → Exit
  if_damaged b bs offset log =
      if has_valid_batch_after (b ∷ bs) 0
      then refused (corrupt_record (length log.events) mid_file_corruption)
      else truncated offset log

  -- The loop. `none` is reached only if the fuel, one unit for each round, runs out.
  unfoldable pub scan : ℕ → List ℕ → ℕ → EventLog → Option Exit
  scan zero remaining offset log = none
  scan (suc fuel) [] offset log = some (clean log)
  scan (suc fuel) (b ∷ bs) offset log =
      on_round (read_batch (b ∷ bs))
        (λ events consumed.
          scan fuel (drop consumed (b ∷ bs)) (offset + consumed) (commit_all log events))
        (truncated offset log) (if_damaged b bs offset log)
