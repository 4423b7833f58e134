-- ===== src/Spec/Refinement.antt =====
-- src/store.rs, src/reader.rs: the store against the abstract event store, restarts included.
use eventfold_db.Common.{
  [], ℕ, zero, suc, ◌+◌, ◌^◌, ◌≤◌, ◌<◌, ◌≡◌, ◌≢◌, refl, ap, List, ◌∷◌, ◌++◌, Option, none, some,
  All, arith, length, length-append,
}
use mathlib.Core.Option
use eventfold_db.Crates.{Crc32, UuidCrate, Uuid}
use eventfold_db.Error.{Error}
use eventfold_db.Types.{ExpectedVersion, ProposedEvent, RecordedEvent, IsTypedProposal}
use eventfold_db.EventLog.{get, positions_of}
use eventfold_db.EventLog.WellFormed.{IsWellFormed, of_stream}
use eventfold_db.Store
use eventfold_db.Store.{Store, last_index, next_version, validate}
use eventfold_db.Store.Numbered.{numbered, length-numbered}
use eventfold_db.Store.Durable.{IsDurable, IsDurable-open_store, open_store-IsDurable}
use eventfold_db.Store.Crash.{Fits, append-durable}
use eventfold_db.Store.Invariant.{
  append-IsWellFormed, append_refused, append_accepted, append-events,
}
use eventfold_db.Reader
use eventfold_db.Reader.{max_u64}
use eventfold_db.Reader.Reads.{read_all_lem, read_stream_lem, length-of_stream-le}
use eventfold_db.Spec.{
  Command, append, read_all, read_stream, stream_version, global_position, restart, Answer,
  version_fault, or_else, first_fault, commit_unless, latest, specify, specify_all, on_append,
  perform, perform_all,
}
use eventfold_db.Spec.Append.{unless, indexed_size, validate_lem}

-- What Rust's types and the service give of a command: typed values, and a batch that is not empty
-- and is counted by a `u32`.
abbrev pub IsRequest : Command → Type 0
IsRequest (append id expected at ps) =
    (id < 2 ^ 128)
    × (at < 256 ^ 8)
    × All IsTypedProposal ps
    × (0 < length ps)
    × (length ps < 256 ^ 4)
IsRequest _ = Unit

-- The events that a command may add.
abbrev pub size : Command → ℕ
size (append id expected at ps) = length ps
size _ = 0

abbrev pub total_size : List Command → ℕ
total_size [] = 0
total_size (c ∷ cs) = size c + total_size cs

module _ ⦃crc : Crc32⦄ ⦃uuid : UuidCrate⦄ where
  -- The index is in order, and the file holds what the index holds.
  pub record IsGood (s : Store) : Type 0 where
    pub formed : IsWellFormed s.log
    pub durable : IsDurable s

  -- A step of the store that the abstract one makes too.
  abbrev Agrees : Store → Option (Answer × Store) → Answer × List RecordedEvent → Type 0
  Agrees s step (a, log) = (s' : Store) × (step ≡ some (a, s')) × (s'.log.events ≡ log) × IsGood s'

  module _ (s : Store) (good : IsGood s) where
    module _ (id : Uuid) (expected : ExpectedVersion) (at : ℕ) (ps : List ProposedEvent)
        (request : IsRequest (append id expected at ps))
        (room : length s.log.events + length ps ≤ max_u64) where
      fits : Fits s id at ps
      fits =
          let n : next_version (get id s.log.streams) ≤ length s.log.events =
            versions (get id s.log.streams) (indexed_size s.log id good.formed) in
          record {
            id_typed = request.0;
            at_typed = request.1;
            proposals = request.2;
            count = request.4;
            positions = omega arith;
            versions = omega arith;
          }
        where
          versions :
              (o : Option (List ℕ))
              → length (positions_of o) ≡ length (of_stream id s.log.events)
              → next_version o ≤ length s.log.events
          versions none h = omega arith
          versions (some ps) h = omega (arith, length-of_stream-le id s.log.events)

      append-Agrees :
          (fault : Option Error) (batch : List RecordedEvent)
          → validate s id expected at ps ≡ unless fault batch
          → Agrees s
              (on_append (Store.append Store.done s id expected at ps))
              (commit_unless fault s.log.events batch)
      append-Agrees (some e) batch h =
          (s, rw (append_refused s id expected at ps Store.done e h) refl, refl, good)
      append-Agrees none batch h =
          let accepted = append_accepted s id expected at ps batch h in
          let s' = (Store.append Store.done s id expected at ps).1 in
          let grown : s'.log.events ≡ s.log.events ++ batch =
            rw accepted at (append-events Store.done s id expected at ps) in
          (
            s',
            ap {B = Option (Answer × Store)} (λ r. some (Answer.appended r, s')) accepted,
            grown,
            record {
              formed = append-IsWellFormed s id expected at ps Store.done good.formed request.3;
              durable =
                  open_store-IsDurable Store.no_faults (some s'.file) s'
                    (append-durable s id expected at ps batch good.durable fits request.3 accepted);
            },
          )

    stream_version_agrees :
        (o : Option (List ℕ)) (n : ℕ)
        → o ≢ some []
        → length (positions_of o) ≡ n
        → n < 2 ^ 64
        → Option.map (λ positions. last_index (length positions)) o ≡ latest n
    stream_version_agrees none zero ne h l = refl
    stream_version_agrees none (suc n) ne h l = absurd (omega arith)
    stream_version_agrees (some []) n ne h l = absurd (ne refl)
    stream_version_agrees (some (p ∷ ps)) zero ne h l = absurd (omega arith)
    stream_version_agrees (some (p ∷ ps)) (suc n) ne h l = ap {B = Option ℕ} some (omega arith)

    -- One command.
    perform-Agrees :
        (c : Command)
        → IsRequest c
        → length s.log.events + size c ≤ max_u64
        → Agrees s (perform s c) (specify s.log.events c)
    unfolding Reader.stream_version Reader.global_position
    perform-Agrees (append id expected at ps) request room =
        let n = length (of_stream id s.log.events) in
        append-Agrees id expected at ps request room
          (or_else (version_fault expected n)
            (first_fault (numbered id at (length s.log.events) n ps)))
          (numbered id at (length s.log.events) n ps)
          (validate_lem s id expected at ps n good.formed refl
            (omega (arith, length-of_stream-le id s.log.events)))
    perform-Agrees (read_all from count) request room =
        (s, rw (read_all_lem s.log from count (omega arith)) refl, refl, good)
    perform-Agrees (read_stream id from count) request room =
        (s, rw (read_stream_lem s.log id from count good.formed (omega arith)) refl, refl, good)
    perform-Agrees (stream_version id) request room =
        let n = length (of_stream id s.log.events) in
        let same =
          stream_version_agrees (get id s.log.streams) n (good.formed.no_empty id)
            (indexed_size s.log id good.formed)
            (omega (arith, length-of_stream-le id s.log.events)) in
        (s, ap {B = Option (Answer × Store)} (λ v. some (Answer.version v, s)) same, refl, good)
    perform-Agrees global_position request room = (s, refl, refl, good)
    perform-Agrees restart request room =
        (s, rw (IsDurable-open_store s good.durable) refl, refl, good)

  commit_unless_size :
      (fault : Option Error) (log batch : List RecordedEvent)
      → length (commit_unless fault log batch).1 ≤ length log + length batch
  commit_unless_size (some e) log batch = omega arith
  commit_unless_size none log batch = omega (arith, length-append log batch)

  specify_size :
      (log : List RecordedEvent) (c : Command) → length (specify log c).1 ≤ length log + size c
  specify_size log (append id expected at ps) =
      let n = length (of_stream id log) in
      let batch = numbered id at (length log) n ps in
      omega (
        arith,
        commit_unless_size (or_else (version_fault expected n) (first_fault batch)) log batch,
        length-numbered id at (length log) n ps,
      )
  specify_size log (read_all from count) = omega arith
  specify_size log (read_stream id from count) = omega arith
  specify_size log (stream_version id) = omega arith
  specify_size log global_position = omega arith
  specify_size log restart = omega arith

  -- On a store in order, over any sequence of typed commands whose batches are not empty and leave
  -- fewer than 2 ^ 64 events, restarts included: the store panics nowhere and restarts each time,
  -- it gives the answers of the abstract store, errors included, and its log ends as the abstract
  -- list.
  pub perform_all_refines :
      (s : Store) (cs : List Command)
      → IsGood s
      → All IsRequest cs
      → length s.log.events + total_size cs ≤ max_u64
      → (s' : Store) × (perform_all s cs ≡ some ((specify_all s.log.events cs).0, s'))
        × (s'.log.events ≡ (specify_all s.log.events cs).1)
        × IsGood s'
  unfolding perform_all specify_all
  perform_all_refines s [] good requests room = (s, refl, refl, good)
  perform_all_refines s (c ∷ cs) good (request, requests) room =
      let (s1, step, same, good1) = perform-Agrees s good c request (omega arith) in
      let (s2, steps, ends, good2) =
        perform_all_refines s1 cs good1 requests
          (omega (arith, specify_size s.log.events c, ap (length {A = RecordedEvent}) same)) in
      (s2, rw (step, steps, same) refl, rw (← same) ends, good2)
