-- ===== src/Writer/Publish.antt =====
-- src/writer.rs: what the broker is given, and what the log gains.
use eventfold_db.Common.{
  [], ℕ, ◌≡◌, sym, List, ◌∷◌, ◌++◌, Option, none, some, append_assoc, append-nil, ◌<◌, length, All,
}
use eventfold_db.Crates.{Crc32, UuidCrate}
use eventfold_db.Error.{Result, ok, err}
use eventfold_db.Types.{RecordedEvent}
use eventfold_db.EventLog.WellFormed.{IsWellFormed}
use eventfold_db.Store.{Store, AppendIo}
use eventfold_db.Store.Invariant.{gained, append-events, append-IsWellFormed}
use eventfold_db.Dedup.{LruCrate, DedupIndex, check}
use eventfold_db.Writer.{
  AppendRequest, Writer, conclude, deduplicate, process_unique, process, process_all, run_writer,
  spawn_writer, validate_batch_unique_ids,
}

module _ ⦃crc : Crc32⦄ ⦃uuid : UuidCrate⦄ ⦃lru : LruCrate⦄ where
  -- What was sent is what the log has beyond `base`.
  abbrev pub IsPublished : List RecordedEvent → Writer → Type 0
  IsPublished base w = w.store.log.events ≡ base ++ w.sent

  conclude-IsPublished :
      (base : List RecordedEvent) (w : Writer) (r : Result (List RecordedEvent) × Store)
      → r.1.log.events ≡ w.store.log.events ++ gained r.0
      → IsPublished base w
      → IsPublished base (conclude w r).1
  unfolding conclude
  conclude-IsPublished base w (err e, s) grown h = rw (grown, append-nil w.store.log.events) h
  conclude-IsPublished base w (ok es, s) grown h = rw (grown, h) (append_assoc base w.sent es)

  deduplicate-IsPublished :
      (os : AppendIo) (at : ℕ) (base : List RecordedEvent) (w : Writer) (req : AppendRequest)
      (found : Option (List RecordedEvent) × DedupIndex)
      → IsPublished base w
      → IsPublished base (deduplicate os at w req found).1
  unfolding deduplicate
  deduplicate-IsPublished os at base w req (some x, d) h = h
  deduplicate-IsPublished os at base w req (none, d) h =
      conclude-IsPublished base (record w { dedup = d }) _
        (append-events os w.store req.stream_id req.expected_version at req.events) h

  process_unique-IsPublished :
      (os : AppendIo) (at : ℕ) (base : List RecordedEvent) (w : Writer) (req : AppendRequest)
      (r : Result (Unit {0}))
      → IsPublished base w
      → IsPublished base (process_unique os at w req r).1
  unfolding process_unique
  process_unique-IsPublished os at base w req (err e) h = h
  process_unique-IsPublished os at base w req (ok u) h =
      deduplicate-IsPublished os at base w req (check w.dedup req.events) h

  process-IsPublished :
      (os : AppendIo) (at : ℕ) (base : List RecordedEvent) (w : Writer) (req : AppendRequest)
      → IsPublished base w
      → IsPublished base (process os at w req).1
  unfolding process
  process-IsPublished os at base w req h =
      process_unique-IsPublished os at base w req (validate_batch_unique_ids req.events) h

  pub process_all-IsPublished :
      (at : ℕ) (base : List RecordedEvent) (w : Writer) (reqs : List (AppendRequest × AppendIo))
      → IsPublished base w
      → IsPublished base (process_all at w reqs).1
  unfolding process_all
  process_all-IsPublished at base w [] h = h
  process_all-IsPublished at base w ((req, os) ∷ reqs) h =
      process_all-IsPublished at base (process os at w req).1 reqs
        (process-IsPublished os at base w req h)

  pub run_writer-IsPublished :
      (base : List RecordedEvent) (w : Writer) (drains : List (ℕ × List (AppendRequest × AppendIo)))
      → IsPublished base w
      → IsPublished base (run_writer w drains)
  unfolding run_writer
  run_writer-IsPublished base w [] h = h
  run_writer-IsPublished base w ((at, reqs) ∷ drains) h =
      run_writer-IsPublished base (process_all at w reqs).1 drains
        (process_all-IsPublished at base w reqs h)

  -- Whatever requests arrive, however they are drained and whatever the file system answers, the
  -- log of the running writer is the log that it was started on followed by exactly the events
  -- that were sent to the broker, in the order sent.
  pub run_writer_published :
      (store : Store) (capacity : ℕ) (drains : List (ℕ × List (AppendRequest × AppendIo)))
      → (run_writer (spawn_writer store capacity) drains).store.log.events
        ≡ store.log.events ++ (run_writer (spawn_writer store capacity) drains).sent
  unfolding spawn_writer
  run_writer_published store capacity drains =
      run_writer-IsPublished store.log.events (spawn_writer store capacity) drains
        (sym (append-nil store.log.events))

  conclude-IsWellFormed :
      (w : Writer) (r : Result (List RecordedEvent) × Store)
      → IsWellFormed r.1.log
      → IsWellFormed (conclude w r).1.store.log
  unfolding conclude
  conclude-IsWellFormed w (ok es, s) h = h
  conclude-IsWellFormed w (err e, s) h = h

  deduplicate-IsWellFormed :
      (os : AppendIo) (at : ℕ) (w : Writer) (req : AppendRequest)
      (found : Option (List RecordedEvent) × DedupIndex)
      → 0 < length req.events
      → IsWellFormed w.store.log
      → IsWellFormed (deduplicate os at w req found).1.store.log
  unfolding deduplicate
  deduplicate-IsWellFormed os at w req (some x, d) some_events h = h
  deduplicate-IsWellFormed os at w req (none, d) some_events h =
      conclude-IsWellFormed (record w { dedup = d }) _
        (append-IsWellFormed w.store req.stream_id req.expected_version at req.events os h
          some_events)

  process-IsWellFormed :
      (os : AppendIo) (at : ℕ) (w : Writer) (req : AppendRequest)
      → 0 < length req.events
      → IsWellFormed w.store.log
      → IsWellFormed (process os at w req).1.store.log
  unfolding process process_unique
  process-IsWellFormed os at w req some_events h =
      elim (validate_batch_unique_ids req.events)
        as (λ r. IsWellFormed (process_unique os at w req r).1.store.log) [
          | ok u ↦ deduplicate-IsWellFormed os at w req (check w.dedup req.events) some_events h
          | err e ↦ h
        ]

  -- Every request has an event, as the service makes sure.
  abbrev pub HaveEvents : List (AppendRequest × AppendIo) → Type 0
  HaveEvents reqs = All (λ r. 0 < length r.0.events) reqs

  pub process_all-IsWellFormed :
      (at : ℕ) (w : Writer) (reqs : List (AppendRequest × AppendIo))
      → HaveEvents reqs
      → IsWellFormed w.store.log
      → IsWellFormed (process_all at w reqs).1.store.log
  unfolding process_all
  process_all-IsWellFormed at w [] some_events h = h
  process_all-IsWellFormed at w ((req, os) ∷ reqs) some_events h =
      process_all-IsWellFormed at (process os at w req).1 reqs some_events.1
        (process-IsWellFormed os at w req some_events.0 h)

  -- The writer's log stays well formed while every request that it receives has an event,
  -- whatever the file system answers.
  pub run_writer-IsWellFormed :
      (w : Writer) (drains : List (ℕ × List (AppendRequest × AppendIo)))
      → All (λ d. HaveEvents d.1) drains
      → IsWellFormed w.store.log
      → IsWellFormed (run_writer w drains).store.log
  unfolding run_writer
  run_writer-IsWellFormed w [] some_events h = h
  run_writer-IsWellFormed w ((at, reqs) ∷ drains) some_events h =
      run_writer-IsWellFormed (process_all at w reqs).1 drains some_events.1
        (process_all-IsWellFormed at w reqs some_events.0 h)
