-- ===== src/Tests/StoreRuns.antt =====
-- Runs of src/store.rs.
use eventfold_db.Common.{
  ◌++◌, ◌^◌, ◌↔◌, [], ℕ, ◌<◌, ◌≤◌, ◌≡◌, refl, List, ◌∷◌, All, none, some, arith, length, take, drop,
  to_le_bytes, from_le_bytes, is_utf8,
}
use eventfold_db.Error.{Result, ok}
use eventfold_db.Types.{RecordedEvent, ExpectedVersion, ProposedEvent}
use eventfold_db.Codec.{
  encode_header, encode_record, encode_body, body_len, encode_batch_header, encode_batch_footer,
  decode_header, decode_batch_header, decode_batch_footer, decode_record, decode_body,
  decode_fields, read_bytes, read_utf8,
}
use eventfold_db.EventLog.{
  positions_of, empty, get, or_default, push, commit, commit_all, index_batch,
}
use eventfold_db.Store.Recovery.{
  has_batch_header, has_valid_batch_after, read_records, read_footer, read_batch, if_damaged, scan,
}
use eventfold_db.Store.Numbered.{IsSmall}
use eventfold_db.Store.Invariant.{
  append-events, gained, Admits, append-IsWellFormed, validate_accepts,
}
use eventfold_db.EventLog.WellFormed.{IsWellFormed, empty-IsWellFormed}
use eventfold_db.Store.Durable.{IsDurable, open_store-IsDurable, open_store_total, reopen}
use eventfold_db.Store.Recorded.{IsRecorded, append-IsRecorded}
use eventfold_db.Store.Crash.{Fits, append-durable, append-atomic, assigned}
use eventfold_db.Store.{
  Store, no_faults, open_store, check_header, create, recover, open_existing, finish,
  truncate_and_return, check_version, check_event, build, encode_records, encode_batch, validate,
  write_batch, append, done, write_failed, sync_failed,
}
use eventfold_db.EventLog.Index.{commit_all-index_batch}
use eventfold_db.Tests.Data.{
  paid, repaid, sum_crc, plain_uuid, pay, refund, pay-IsTypedProposal, refund-IsTypedProposal,
}

unfoldable pub program : Unit {0}
unfolding to_le_bytes from_le_bytes take drop is_utf8 encode_header decode_header encode_record
    encode_body body_len encode_batch_header encode_batch_footer decode_batch_header
    decode_batch_footer decode_record decode_body decode_fields read_bytes read_utf8 get or_default
    push commit commit_all index_batch has_batch_header has_valid_batch_after read_records
    read_footer read_batch if_damaged scan open_store check_header create recover open_existing
    finish truncate_and_return check_version check_event build encode_records encode_batch validate
    write_batch append
program = tt

abbrev pub fresh : Store
fresh = record { file = encode_header; log = empty }

fresh_opened : open_store no_faults none ≡ some (ok fresh)
unfolding program
fresh_opened = refl

pub fresh-IsDurable : IsDurable fresh
fresh-IsDurable = open_store-IsDurable no_faults none fresh fresh_opened

abbrev pub two : List ProposedEvent
two = pay ∷ refund ∷ []

two-Fits : Fits fresh 42 1000 two
unfolding program
two-Fits = record {
  id_typed = omega arith;
  at_typed = omega arith;
  proposals = (pay-IsTypedProposal, (refund-IsTypedProposal, tt));
  count = omega arith;
  positions = omega arith;
  versions = omega arith;
}

pub two_valid :
    validate fresh 42 ExpectedVersion.no_stream 1000 two
    ≡ ok (assigned fresh 42 ExpectedVersion.no_stream 1000 two)
unfolding program
two_valid = refl

pub two_appended :
    (append done fresh 42 ExpectedVersion.no_stream 1000 two).0
    ≡ ok (assigned fresh 42 ExpectedVersion.no_stream 1000 two)
unfolding program
two_appended = refl

open_store_total_example : (r : Result Store) × (open_store no_faults (some (1 ∷ [])) ≡ some r)
open_store_total_example = open_store_total no_faults (some (1 ∷ []))

reopen_example : open_store no_faults (some fresh.file) ≡ some (ok fresh)
reopen_example = reopen no_faults none fresh fresh_opened

append-IsRecorded_example :
    IsRecorded empty 42 1000 two (assigned fresh 42 ExpectedVersion.no_stream 1000 two)
append-IsRecorded_example =
    append-IsRecorded done fresh 42 ExpectedVersion.no_stream 1000 two
      (assigned fresh 42 ExpectedVersion.no_stream 1000 two) empty-IsWellFormed two_appended

append-durable_example :
    open_store no_faults (some (append done fresh 42 ExpectedVersion.no_stream 1000 two).1.file)
    ≡ some (ok (append done fresh 42 ExpectedVersion.no_stream 1000 two).1)
append-durable_example =
    append-durable fresh 42 ExpectedVersion.no_stream 1000 two
      (assigned fresh 42 ExpectedVersion.no_stream 1000 two) fresh-IsDurable two-Fits (omega arith)
      two_appended

abbrev two_bytes : List ℕ
two_bytes = encode_batch (assigned fresh 42 ExpectedVersion.no_stream 1000 two) 0

append-atomic_example :
    (100 < length two_bytes
      → open_store no_faults
          (some (append (write_failed 5 100) fresh 42 ExpectedVersion.no_stream 1000 two).1.file)
        ≡ some (ok fresh))
    × (length two_bytes ≤ 100
        → open_store no_faults
            (some (append (write_failed 5 100) fresh 42 ExpectedVersion.no_stream 1000 two).1.file)
          ≡ some (ok (append done fresh 42 ExpectedVersion.no_stream 1000 two).1))
append-atomic_example =
    append-atomic fresh 42 ExpectedVersion.no_stream 1000 two
      (assigned fresh 42 ExpectedVersion.no_stream 1000 two) 5 100 fresh-IsDurable two-Fits
      (omega arith) two_valid

-- The second store, opened again, by evaluation.
reopened_by_running :
    open_store no_faults (some (append done fresh 42 ExpectedVersion.no_stream 1000 two).1.file)
    ≡ some (ok (append done fresh 42 ExpectedVersion.no_stream 1000 two).1)
unfolding program
reopened_by_running = refl

append-IsWellFormed_example :
    IsWellFormed (append done fresh 42 ExpectedVersion.no_stream 1000 two).1.log
append-IsWellFormed_example =
    append-IsWellFormed fresh 42 ExpectedVersion.no_stream 1000 two done empty-IsWellFormed
      (omega arith)

no_streams : length (positions_of (get 42 fresh.log.streams)) < 2 ^ 64
unfolding program
no_streams = omega arith

validate_accepts_example :
    ((es : List RecordedEvent) × (validate fresh 42 (ExpectedVersion.exact 3) 1000 two ≡ ok es)) ↔ (
      Admits (ExpectedVersion.exact 3) (get 42 fresh.log.streams)
      × All IsSmall (assigned fresh 42 (ExpectedVersion.exact 3) 1000 two))
validate_accepts_example =
    validate_accepts fresh 42 (ExpectedVersion.exact 3) 1000 two empty-IsWellFormed no_streams

commit_all-index_batch_example :
    commit_all empty (paid ∷ repaid ∷ []) ≡ index_batch empty 42 (paid ∷ repaid ∷ [])
commit_all-index_batch_example =
    commit_all-index_batch empty 42 paid (repaid ∷ []) (refl, (refl, tt))

append-events_example :
    (append (sync_failed 5) fresh 42 ExpectedVersion.no_stream 1000 two).1.log.events
    ≡ fresh.log.events
      ++ gained (append (sync_failed 5) fresh 42 ExpectedVersion.no_stream 1000 two).0
append-events_example = append-events (sync_failed 5) fresh 42 ExpectedVersion.no_stream 1000 two
