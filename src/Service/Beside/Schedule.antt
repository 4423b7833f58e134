-- ===== src/Service/Beside/Schedule.antt =====
-- src/writer.rs, src/broker.rs: what the subscriber is given, whatever the order of the acts.
use eventfold_db.Common.{
  [], ℕ, ◌+◌, ◌≤◌, ◌<◌, ◌≡◌, refl, ap, List, ◌∷◌, ◌++◌, All, arith, length, take, drop, ◌⊎◌, inl,
  length-append,
}
use eventfold_db.Crates.{Crc32, UuidCrate}
use eventfold_db.Types.{RecordedEvent}
use eventfold_db.EventLog.WellFormed.{IsWellFormed}
use eventfold_db.Reader.{max_u64}
use eventfold_db.Store.{Store}
use eventfold_db.Dedup.{LruCrate}
use eventfold_db.Writer.{Writer, process_all, run_writer, spawn_writer}
use eventfold_db.Writer.Publish.{
  IsPublished, HaveEvents, process_all-IsPublished, process_all-IsWellFormed, run_writer_published,
  run_writer-IsWellFormed,
}
use eventfold_db.Writer.Growth.{Drains, run_writer-gains}
use eventfold_db.Service.Live.{spawned-IsWellFormed}
use eventfold_db.Broker.Machine.Delivery.{
  Shows, received_to, subscribed-IsOnCourse, subscribed_delivered,
}
use eventfold_db.Broker.Machine.Progress.{IsOnCourse}
use eventfold_db.Broker.Machine.Course.{Reach-IsOnCourse}
use eventfold_db.Broker.Machine.Completion.{Reach-Reach}
use eventfold_db.Broker.Machine.{System, Step, Reach, subscribed}
use eventfold_db.Service.Beside.{Act, Beside, act, act_all, begun, ActFits, Fits}
use eventfold_db.Service.Beside.Steps.{system, write-Reach, receive_next-Reach, lag-Reach}

module _ ⦃crc : Crc32⦄ ⦃uuid : UuidCrate⦄ ⦃lru : LruCrate⦄ where
  module _ (base : List RecordedEvent) where
    -- What holds of the writer along the way.
    abbrev Keeps : Writer → Type 0
    Keeps w = IsPublished base w × IsWellFormed w.store.log

    act-Keeps :
        (s : Beside) (a : Act) → ActFits a → Keeps s.writer → Keeps (act (length base) s a).writer
    unfolding act
    act-Keeps s (Act.write at_time reqs) some_events (published, formed) = (
      process_all-IsPublished at_time base s.writer reqs published,
      process_all-IsWellFormed at_time s.writer reqs some_events formed,
    )
    act-Keeps s Act.poll fits h = h
    act-Keeps s Act.receive fits h = h
    act-Keeps s (Act.lag n) fits h = h

    act-Reach :
        (s : Beside) (a : Act) (from registered known : ℕ)
        → ActFits a
        → length (act (length base) s a).writer.store.log.events ≤ max_u64
        → Keeps s.writer
        → length base ≤ registered
        → IsOnCourse from registered known (system s.writer s.phase s.out)
        → (let t = act (length base) s a in
            Reach (system s.writer s.phase s.out) (system t.writer t.phase t.out))
    unfolding act run_writer
    act-Reach s (Act.write at_time reqs) from registered known fits typed keeps behind course =
        let after = (process_all at_time s.writer reqs).1 in
        let (more, grows, sent) = run_writer-gains base s.writer ((at_time, reqs) ∷ []) keeps.0 in
        write-Reach s.writer after more s.phase s.out grows
          (process_all-IsWellFormed at_time s.writer reqs fits keeps.1).positioned typed
    act-Reach s Act.poll from registered known fits typed keeps behind course =
        Reach.and_then Reach.here (Step.poll refl)
    act-Reach s Act.receive from registered known fits typed keeps behind course =
        receive_next-Reach base s.writer s.phase s.out from registered known keeps.0 behind course
    act-Reach s (Act.lag n) from registered known fits typed keeps behind course =
        lag-Reach base s.writer n s.phase s.out

    act_all-Reach :
        (start : System) (s : Beside) (acts : List Act) (from registered known : ℕ)
        → registered ≤ known
        → (from ≤ registered) ⊎ (from < known)
        → length base ≤ registered
        → IsOnCourse from registered known start
        → Fits (length base) s acts
        → Keeps s.writer
        → Reach start (system s.writer s.phase s.out)
        → (let t = act_all (length base) s acts in Reach start (system t.writer t.phase t.out))
    unfolding act_all
    act_all-Reach start s [] from registered known order begins behind course fits keeps run = run
    act_all-Reach start s (a ∷ as') from registered known order begins behind course
          (fits, typed, later) keeps run =
        let here = Reach-IsOnCourse from registered known order begins start _ course run in
        act_all-Reach start (act (length base) s a) as' from registered known order begins behind
          course later (act-Keeps s a fits keeps)
          (Reach-Reach run (act-Reach s a from registered known fits typed keeps behind here))

  -- A `subscribe_all` that is made beside a running writer, from a position of the log or its end,
  -- when the writer runs on a well-formed store and its requests have events: in whatever order the
  -- rounds of the writer, the polls, the receptions and the lags come from then on, as long as the
  -- log has fewer than 2 ^ 64 events, the events yielded before and after the marker are together
  -- the events of the log from the position on, each once, in order and without a gap, as far as
  -- the receiver has been read; the marker stands between them from the end of the catch-up on, and
  -- an error only at the end.
  pub act_all_delivered :
      (store : Store) (capacity : ℕ) (early : Drains) (from : ℕ) (acts : List Act)
      → IsWellFormed store.log
      → All (λ d. HaveEvents d.1) early
      → length (run_writer (spawn_writer store capacity) early).store.log.events ≤ max_u64
      → from ≤ length (run_writer (spawn_writer store capacity) early).store.log.events
      → Fits
          (length store.log.events)
          (begun (run_writer (spawn_writer store capacity) early) from)
          acts
      → (let s =
            act_all
              (length store.log.events)
              (begun (run_writer (spawn_writer store capacity) early) from)
              acts in
          (caught live : List RecordedEvent) × ((k : ℕ) × (Shows s.phase s.out caught live
              × (caught ++ live ≡ take k (drop from s.writer.store.log.events))
              × (received_to s.phase ≤ from + k))))
  act_all_delivered store capacity early from acts formed some_events typed inside fits =
      let w = run_writer (spawn_writer store capacity) early in
      let base = store.log.events in
      let len = length w.store.log.events in
      let published : IsPublished base w = run_writer_published store capacity early in
      let well =
        run_writer-IsWellFormed (spawn_writer store capacity) early some_events
          (spawned-IsWellFormed store capacity formed) in
      let behind : length base ≤ len =
        omega (arith, ap (length {A = RecordedEvent}) published, length-append base w.sent) in
      let course = subscribed-IsOnCourse w.store.log len from well.positioned typed (omega arith) in
      let s = act_all (length base) (begun w from) acts in
      subscribed_delivered w.store.log len from (system s.writer s.phase s.out) well.positioned
        typed (omega arith) (inl inside)
        (act_all-Reach base (subscribed w.store.log len from) (begun w from) acts from len len
          (omega arith) (inl inside) behind course fits (published, well) Reach.here)
