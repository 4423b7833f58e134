-- ===== src/Tests/LiveRuns.antt =====
-- A run of src/writer.rs with a subscription of src/service.rs.
use eventfold_db.Common.{
  ℕ, ◌+◌, ◌≤◌, take, [], ◌≡◌, refl, List, ◌∷◌, ◌++◌, map, some, arith, length, drop,
}
use eventfold_db.Types.{ExpectedVersion, RecordedEvent}
use eventfold_db.EventLog.WellFormed.{empty-IsWellFormed}
use eventfold_db.Store.{done}
use eventfold_db.Dedup.{find, without, check, put_each, record_batch, seed_each, seed_from_log, new}
use eventfold_db.Writer.{
  AppendRequest, Writer, seen_before, check_unique, validate_batch_unique_ids, count_append,
  conclude, deduplicate, process_unique, process, process_all, run_writer, spawn_writer,
}
use eventfold_db.Writer.Growth.{Drains}
use eventfold_db.Broker.{publish}
use eventfold_db.Service.Subscribe.{event_response, caught_up_response, subscribe_all_rpc}
use eventfold_db.Service.Beside.{Act, act, act_all, begun, Fits}
use eventfold_db.Service.Beside.Schedule.{act_all_delivered}
use eventfold_db.Broker.Machine.Delivery.{Shows, received_to}
use eventfold_db.Service.Live.{seen, subscribe_all_rpc-run_writer}
use eventfold_db.Tests.Data.{sum_crc, plain_uuid, list_lru, pay, refund}
use eventfold_db.Tests.StoreRuns.{fresh, program}

abbrev paying : AppendRequest
paying = record {
  stream_id = 42;
  expected_version = ExpectedVersion.no_stream;
  events = pay ∷ refund ∷ [];
}

abbrev more_paying : AppendRequest
more_paying = record {
  stream_id = 43;
  expected_version = ExpectedVersion.any;
  events = record pay { event_id = 9 } ∷ [];
}

-- A batch, and behind the registration its retry and another batch.
abbrev early : Drains
early = (1000, (paying, done) ∷ []) ∷ []

abbrev late : Drains
late = (2000, (paying, done) ∷ (more_paying, done) ∷ []) ∷ []

abbrev registered : Writer
registered = run_writer (spawn_writer fresh 16) early

unfoldable run : Unit {0}
unfolding program process_all process process_unique deduplicate conclude run_writer spawn_writer
    seen_before check_unique validate_batch_unique_ids count_append new find without check put_each
    record_batch seed_each seed_from_log
run = tt

two_held : length registered.store.log.events ≡ 2
unfolding run
two_held = refl

three_in_the_end : length (seen registered late).events ≡ 3
unfolding run
three_in_the_end = refl

subscribe_all_rpc-run_writer_example :
    (caught live : List RecordedEvent) × (caught ++ live ≡ drop 1 (seen registered late).events)
    × (subscribe_all_rpc 1
          (map (seen registered) ([] ∷ late ∷ []))
          (publish (drop (length registered.sent) (run_writer registered late).sent))
        ≡ some (map event_response caught ++ caught_up_response ∷ map event_response live))
subscribe_all_rpc-run_writer_example =
    subscribe_all_rpc-run_writer fresh 16 early late ([] ∷ late ∷ []) 1 empty-IsWellFormed
      ((omega arith, tt), tt) ((omega arith, (omega arith, tt)), tt)
      ((late, refl), (([], refl), tt)) (omega (arith, three_in_the_end)) (omega (arith, two_held))
      (omega (arith, three_in_the_end))

-- The catch-up reads, the writer appends, and the stream goes live and receives.
abbrev schedule : List Act
schedule =
    Act.poll
    ∷ Act.write 2000 ((paying, done) ∷ (more_paying, done) ∷ [])
    ∷ Act.poll
    ∷ Act.receive
    ∷ []

schedule-Fits : Fits 0 (begun registered 1) schedule
unfolding act run_writer
schedule-Fits = (
  tt,
  omega (arith, two_held),
  (
    (omega arith, (omega arith, tt)),
    omega (arith, three_in_the_end),
    (tt, omega (arith, three_in_the_end), (tt, omega (arith, three_in_the_end), tt)),
  ),
)

act_all_delivered_example :
    (let s = act_all 0 (begun registered 1) schedule in
      (caught live : List RecordedEvent) × ((k : ℕ) × (Shows s.phase s.out caught live
          × (caught ++ live ≡ take k (drop 1 s.writer.store.log.events))
          × (received_to s.phase ≤ 1 + k))))
act_all_delivered_example =
    act_all_delivered fresh 16 early 1 schedule empty-IsWellFormed ((omega arith, tt), tt)
      (omega (arith, two_held)) (omega (arith, two_held)) schedule-Fits
