-- ===== src/Service/Live.antt =====
-- src/service.rs, src/writer.rs, src/broker.rs: a subscription while the writer runs.
use eventfold_db.Common.{
  ℕ, ◌-◌, ◌*◌, ◌≤◌, ◌<◌, ◌≡◌, ◌∙◌, refl, sym, ap, List, ◌∷◌, ◌++◌, map, some, All, All-map,
  length-map, arith, length, drop, length-append, drop-append,
}
use eventfold_db.Crates.{Crc32, UuidCrate}
use eventfold_db.Types.{RecordedEvent}
use eventfold_db.EventLog.{EventLog}
use eventfold_db.EventLog.WellFormed.{IsWellFormed}
use eventfold_db.Reader.{max_u64}
use eventfold_db.Store.{Store}
use eventfold_db.Dedup.{LruCrate}
use eventfold_db.Writer.{Writer, run_writer, spawn_writer}
use eventfold_db.Writer.Publish.{
  IsPublished, run_writer-IsPublished, run_writer_published, run_writer-IsWellFormed, HaveEvents,
}
use eventfold_db.Writer.Growth.{Drains, run_writer-append, run_writer-gains}
use eventfold_db.Broker.{publish, catchup_batch_size}
use eventfold_db.Broker.Subscription.{Precedes}
use eventfold_db.Service.Subscribe.{
  event_response, caught_up_response, subscribe_all_rpc, subscribe_all_rpc_once,
}

module _ ⦃crc : Crc32⦄ ⦃uuid : UuidCrate⦄ ⦃lru : LruCrate⦄ where
  module _ (store : Store) (w : Writer) (after : Drains)
      (published : IsPublished store.log.events w) where
    abbrev end : Writer
    end = run_writer w after

    -- A writer along the way: the end's log is its log and more, and its log is the first one's
    -- and more.
    along :
        (ds rest : Drains)
        → after ≡ ds ++ rest
        → Precedes end.store.log.events (run_writer w ds).store.log
          × (length w.store.log.events ≤ length (run_writer w ds).store.log.events)
    along ds rest split =
        let (first, to_here, _) = run_writer-gains store.log.events w ds published in
        let (second, to_end, _) =
          run_writer-gains store.log.events (run_writer w ds) rest
            (run_writer-IsPublished store.log.events w ds published) in
        let same : end ≡ run_writer (run_writer w ds) rest =
          ap (run_writer w) split ∙ run_writer-append w ds rest in
        (
          (second, ap (λ v. v.store.log.events) same ∙ to_end),
          omega (
            arith,
            ap (length {A = RecordedEvent}) to_here,
            length-append w.store.log.events first,
          ),
        )

    -- What the receiver is given is what the log gains.
    received : drop (length w.sent) end.sent ≡ drop (length w.store.log.events) end.store.log.events
    received =
        let (more, log, sent) = run_writer-gains store.log.events w after published in
        rw (log, sent)
          (drop-append _ w.sent more refl ∙ sym (drop-append _ w.store.log.events more refl))

  pub spawned-IsWellFormed :
      (store : Store) (capacity : ℕ)
      → IsWellFormed store.log
      → IsWellFormed (spawn_writer store capacity).store.log
  unfolding spawn_writer
  spawned-IsWellFormed store capacity formed = formed

  -- The log that a read sees which comes after those rounds.
  abbrev pub seen : Writer → Drains → EventLog
  seen w ds = (run_writer w ds).store.log

  -- A subscription to a running server: the writer has been started on a well-formed log, every
  -- request has an event, and the receiver is registered between two of its rounds, `before` and
  -- `after`, whatever the file system answers. If the position was in the log then, the log stays
  -- below 2 ^ 64 events, and the reads, each after some of the later rounds, are enough in number,
  -- then the responses to what the writer has sent since are an event for each event that the log
  -- has in the end from that position on, once and in order, with one caught-up marker among them.
  pub subscribe_all_rpc-run_writer :
      (store : Store) (capacity : ℕ) (before after : Drains) (reads : List Drains) (from : ℕ)
      → IsWellFormed store.log
      → All (λ d. HaveEvents d.1) before
      → All (λ d. HaveEvents d.1) after
      → All (λ ds. (rest : Drains) × (after ≡ ds ++ rest)) reads
      → length (seen (run_writer (spawn_writer store capacity) before) after).events ≤ max_u64
      → from < length (seen (spawn_writer store capacity) before).events
      → length (seen (run_writer (spawn_writer store capacity) before) after).events - from
        < catchup_batch_size * length reads
      → (caught live : List RecordedEvent) × (caught ++ live
          ≡ drop from (seen (run_writer (spawn_writer store capacity) before) after).events)
        × (subscribe_all_rpc from
              (map (seen (run_writer (spawn_writer store capacity) before)) reads)
              (publish (
                drop
                  (length (run_writer (spawn_writer store capacity) before).sent)
                  (run_writer (run_writer (spawn_writer store capacity) before) after).sent))
            ≡ some (map event_response caught ++ caught_up_response ∷ map event_response live))
  subscribe_all_rpc-run_writer store capacity before after reads from formed some_before some_after
        later small inside enough =
      let start = spawn_writer store capacity in
      let w = run_writer start before in
      let published : IsPublished store.log.events w = run_writer_published store capacity before in
      let all = (seen w after).events in
      let Later : Drains → Type 0 = λ ds. (rest : Drains) × (after ≡ ds ++ rest) in
      let formed_end : IsWellFormed (seen w after) = run_writer-IsWellFormed w after some_after (
        run_writer-IsWellFormed start before some_before
          (spawned-IsWellFormed store capacity formed)) in
      rw (received store w after published) (
        subscribe_all_rpc_once all (map (seen w) reads) from (length w.store.log.events)
          formed_end.positioned small inside
          (All-map Later (Precedes all) (seen w) reads
            (λ ds h. (along store w after published ds h.0 h.1).0) later)
          (All-map Later (λ log. length w.store.log.events ≤ length log.events) (seen w) reads
            (λ ds h. (along store w after published ds h.0 h.1).1) later)
          (omega (arith, enough, length-map (seen w) reads)))
