-- ===== src/Writer.antt =====
-- src/writer.rs: the single writer task. A request's answer, which the source sends through a
-- oneshot channel, is returned; `sent` is what the broker has been given, in order. The clock and
-- the file system are arguments.
pub mod Unique
pub mod Retry
pub mod Publish
pub mod Growth
use eventfold_db.Common.{
  [], ℕ, ◌+◌, Bool, false, ◌||◌, List, ◌∷◌, ◌++◌, Option, none, some, length, leb, ◌==◌,
  if◌then◌else◌,
}
use mathlib.Core.List.{get_last?}
use mathlib.Core.Option
use eventfold_db.Crates.{Crc32, UuidCrate, Uuid}
use eventfold_db.Error.{Result, ok, err, invalid_argument, duplicate_event_id, writer_task_closed}
use eventfold_db.Types.{ExpectedVersion, ProposedEvent, RecordedEvent}
use eventfold_db.Store
use eventfold_db.Store.{Store, AppendIo}
use eventfold_db.Dedup
use eventfold_db.Dedup.{LruCrate, DedupIndex}

pub record AppendRequest : Type 0 where
  pub stream_id : Uuid
  pub expected_version : ExpectedVersion
  pub events : List ProposedEvent

-- `HashSet::contains`
unfoldable pub seen_before : Uuid → List Uuid → Bool
seen_before id [] = false
seen_before id (s ∷ seen) = s == id || seen_before id seen

unfoldable pub check_unique : List Uuid → List ProposedEvent → Result (Unit {0})
check_unique seen [] = ok tt
check_unique seen (e ∷ es) =
    let rest = check_unique (e.event_id ∷ seen) es in
    if seen_before e.event_id seen
    then err (invalid_argument (duplicate_event_id e.event_id))
    else rest

unfoldable pub validate_batch_unique_ids : List ProposedEvent → Result (Unit {0})
validate_batch_unique_ids events = if leb (length events) 1 then ok tt else check_unique [] events

-- The counters and gauges that the writer sets.
pub record Metrics : Type 0 where
  pub appends_total : ℕ
  pub events_total : ℕ
  pub streams_total : ℕ
  pub log_bytes : ℕ
  pub global_position : ℕ

unfoldable pub count_append : Metrics → Store → List RecordedEvent → Metrics
count_append m s recorded = record {
  appends_total = m.appends_total + 1;
  events_total = m.events_total + length recorded;
  streams_total = length s.log.streams;
  log_bytes = length s.file;
  global_position =
      Option.get_or (Option.map (λ last. last.global_position + 1) (get_last? recorded))
        m.global_position;
}

module _ ⦃crc : Crc32⦄ ⦃uuid : UuidCrate⦄ ⦃lru : LruCrate⦄ where
  pub record Writer : Type 0 where
    pub store : Store
    pub dedup : DedupIndex
    pub sent : List RecordedEvent
    pub metrics : Metrics

  -- What follows `store.append`.
  unfoldable pub conclude :
      Writer → Result (List RecordedEvent) × Store → Result (List RecordedEvent) × Writer
  conclude w (err e, store) = (err e, record w { store = store })
  conclude w (ok recorded, store) = (
    ok recorded,
    record {
      store = store;
      dedup = Dedup.record_batch w.dedup recorded;
      sent = w.sent ++ recorded;
      metrics = count_append w.metrics store recorded;
    },
  )

  -- Steps 1 and 2 of a request: the deduplication, and the append if it misses.
  unfoldable pub deduplicate :
      AppendIo
      → ℕ
      → Writer
      → AppendRequest
      → Option (List RecordedEvent) × DedupIndex
      → Result (List RecordedEvent) × Writer
  deduplicate os recorded_at w req (some cached, dedup) = (ok cached, record w { dedup = dedup })
  deduplicate os recorded_at w req (none, dedup) =
      conclude (record w { dedup = dedup })
        (Store.append os w.store req.stream_id req.expected_version recorded_at req.events)

  unfoldable pub process_unique :
      AppendIo
      → ℕ
      → Writer
      → AppendRequest
      → Result (Unit {0})
      → Result (List RecordedEvent) × Writer
  process_unique os recorded_at w req (err e) = (err e, w)
  process_unique os recorded_at w req (ok _) =
      deduplicate os recorded_at w req (Dedup.check w.dedup req.events)

  -- One request: the body of the inner loop of `run_writer`.
  unfoldable pub process :
      AppendIo → ℕ → Writer → AppendRequest → Result (List RecordedEvent) × Writer
  process os recorded_at w req =
      process_unique os recorded_at w req (validate_batch_unique_ids req.events)

  -- The inner loop: the requests drained together share a timestamp. Each comes with what the
  -- file system will answer.
  unfoldable pub process_all :
      ℕ → Writer → List (AppendRequest × AppendIo) → List (Result (List RecordedEvent)) × Writer
  process_all recorded_at w [] = ([], w)
  process_all recorded_at w ((req, os) ∷ reqs) =
      let (answer, w') = process os recorded_at w req in
      let (answers, w'') = process_all recorded_at w' reqs in (answer ∷ answers, w'')

  -- The outer loop, until the channel closes: each time the clock and the requests drained.
  unfoldable pub run_writer : Writer → List (ℕ × List (AppendRequest × AppendIo)) → Writer
  run_writer w [] = w
  run_writer w ((recorded_at, reqs) ∷ drains) = run_writer (process_all recorded_at w reqs).1 drains

  -- The state that `spawn_writer` hands to the task: the index seeded from the recovered log.
  unfoldable pub spawn_writer : Store → ℕ → Writer
  spawn_writer store dedup_capacity = record {
    store = store;
    dedup = Dedup.seed_from_log (Dedup.new dedup_capacity) store.log.events;
    sent = [];
    metrics = record {
      appends_total = 0;
      events_total = 0;
      streams_total = 0;
      log_bytes = 0;
      global_position = 0;
    };
  }

-- `WriterHandle::append`, by what the channels give back: `none` is a channel that is closed, or a
-- oneshot that was dropped.
unfoldable pub await_response : Option (Result (List RecordedEvent)) → Result (List RecordedEvent)
await_response none = err (invalid_argument writer_task_closed)
await_response (some r) = r
