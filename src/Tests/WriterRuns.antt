-- ===== src/Tests/WriterRuns.antt =====
-- Runs of src/dedup.rs and src/writer.rs.
use eventfold_db.Common.{ℕ, ◌≤◌, ◌≡◌, ◌≢◌, ◌↔◌, refl, List, [], ◌∷◌, ◌++◌, All, some, arith, length}
use eventfold_db.Error.{ok}
use eventfold_db.Types.{ExpectedVersion, RecordedEvent}
use eventfold_db.Store.{AppendIo, done, sync_failed}
use eventfold_db.Store.Crash.{assigned}
use eventfold_db.Dedup.{
  DedupIndex, new, find, without, check, put_each, record_batch, seed_each, seed_from_log,
}
use eventfold_db.Dedup.Recent.{check-record_batch, check-seed_from_log}
use eventfold_db.Writer.{
  AppendRequest, Writer, conclude, deduplicate, process_unique, process, run_writer, spawn_writer,
  seen_before, check_unique, validate_batch_unique_ids, count_append,
}
use eventfold_db.Writer.Unique.{Distinct, validate_batch_unique_ids-Distinct}
use eventfold_db.Writer.Retry.{to_request, process_retry}
use eventfold_db.Writer.Publish.{run_writer_published}
use eventfold_db.Tests.Data.{sum_crc, plain_uuid, list_lru, paid, repaid, pay, refund}
use eventfold_db.Tests.StoreRuns.{fresh, two, program}

abbrev index : DedupIndex
index = new 16

room : 2 ≤ list_lru.capacity index.cache
unfolding new
room = omega arith

check-record_batch_example :
    (check (record_batch index (paid ∷ repaid ∷ [])) (refund ∷ [])).0 ≡ some (paid ∷ repaid ∷ [])
check-record_batch_example = check-record_batch index (paid ∷ []) [] repaid refund [] room refl

room_for_two : 2 ≤ list_lru.capacity index.cache
unfolding new
room_for_two = omega arith

other_id : All (λ (f : RecordedEvent). f.event_id ≢ paid.event_id) (repaid ∷ [])
other_id = (omega arith, tt)

check-seed_from_log_example :
    (check (seed_from_log index (paid ∷ repaid ∷ [])) (pay ∷ refund ∷ [])).0 ≡ some (paid ∷ [])
check-seed_from_log_example =
    check-seed_from_log index [] (repaid ∷ []) paid pay (refund ∷ []) room_for_two other_id refl

validate_batch_unique_ids-Distinct_example :
    (validate_batch_unique_ids (pay ∷ refund ∷ pay ∷ []) ≡ ok tt)
    ↔ Distinct (pay ∷ refund ∷ pay ∷ [])
validate_batch_unique_ids-Distinct_example =
    validate_batch_unique_ids-Distinct (pay ∷ refund ∷ pay ∷ [])

abbrev idle : Writer
idle = spawn_writer fresh 16

abbrev request : AppendRequest
request = to_request 42 ExpectedVersion.no_stream pay (refund ∷ [])

answered_once :
    (process done 1000 idle request).0 ≡ ok (assigned fresh 42 ExpectedVersion.no_stream 1000 two)
unfolding program process process_unique deduplicate conclude spawn_writer seen_before check_unique
    validate_batch_unique_ids count_append new find without check put_each record_batch seed_each
    seed_from_log
answered_once = refl

room_in_writer : length two ≤ list_lru.capacity idle.dedup.cache
unfolding spawn_writer new seed_from_log seed_each
room_in_writer = omega arith

process_retry_example : process (sync_failed 5) 2000 (process done 1000 idle request).1 request ≡ (
  ok (assigned fresh 42 ExpectedVersion.no_stream 1000 two),
  record (process done 1000 idle request).1 {
    dedup = (check (process done 1000 idle request).1.dedup two).1;
  },
)
process_retry_example =
    process_retry done (sync_failed 5) 1000 2000 idle 42 ExpectedVersion.no_stream pay (refund ∷ [])
      (assigned fresh 42 ExpectedVersion.no_stream 1000 two) room_in_writer answered_once

abbrev drains : List (ℕ × List (AppendRequest × AppendIo))
drains = (1000, (request, sync_failed 5) ∷ (request, done) ∷ []) ∷ (2000, (request, done) ∷ []) ∷ []

run_writer_published_example :
    (run_writer (spawn_writer fresh 16) drains).store.log.events
    ≡ fresh.log.events ++ (run_writer (spawn_writer fresh 16) drains).sent
run_writer_published_example = run_writer_published fresh 16 drains
