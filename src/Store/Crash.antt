-- ===== src/Store/Crash.antt =====
-- src/store.rs: `append` and the file. A batch that was written is there after the next `open`;
-- one that was torn is gone, and nothing else is.
use eventfold_db.Common.{
  [], ℕ, zero, suc, ◌+◌, ◌^◌, ◌≤◌, ◌<◌, ◌≡◌, ◌∙◌, refl, List, ◌∷◌, ◌++◌, some, All, arith, length,
  take, drop, length-append, length-take, length-drop, take-append, take-append_le, drop-append_le,
  append-nil, drop-append, take_of_length-le,
}
use eventfold_db.Crates.{Crc32, UuidCrate, Uuid}
use eventfold_db.Error.{Result, ok, err, ◌>>=◌}
use eventfold_db.Types.{ExpectedVersion, ProposedEvent, RecordedEvent, IsTypedProposal}
use eventfold_db.EventLog.{EventLog, empty, get, commit_all, index_batch}
use eventfold_db.EventLog.Index.{commit_all-index_batch}
use eventfold_db.Store.Recovery.{Exit, clean, truncated}
use eventfold_db.Store.Recovery.Loop.{EndsIn, EndsIn-empty, EndsIn-round, EndsIn-torn}
use eventfold_db.Store.Recovery.Extend.{EndsIn-append}
use eventfold_db.Store.Written.{IsStorable, read_batch-encode_batch, read_batch-take}
use eventfold_db.Store.Numbered.{
  IsSmall, numbered, build-numbered, numbered-IsStorable, numbered-stream_id, length-numbered,
}
use eventfold_db.Store.Durable.{
  IsDurable, check_header-same, check_header-long, IsDurable-open_store,
}
use eventfold_db.Store.{
  header_size, Store, no_faults, check_header, open_existing, recover, finish, truncate_and_return,
  open_store, next_version, encode_batch, validate, append, append_validated, write_batch, AppendIo,
  done,
}

-- The request is typed, and the numbers that it would assign fit their fields.
pub record Fits (s : Store) (id recorded_at : ℕ) (ps : List ProposedEvent) : Type 0 where
  pub id_typed : id < 2 ^ 128
  pub at_typed : recorded_at < 256 ^ 8
  pub proposals : All IsTypedProposal ps
  pub count : length ps < 256 ^ 4
  pub positions : length s.log.events + length ps ≤ 256 ^ 8
  pub versions : next_version (get id s.log.streams) + length ps ≤ 256 ^ 8

module _ ⦃crc : Crc32⦄ ⦃uuid : UuidCrate⦄ where
  -- Bytes at the end of a durable file are all that the loop has still to read.
  longer :
      (s : Store) (bytes : List ℕ) (exit : Exit) (d : IsDurable s)
      → EndsIn bytes (length s.file) s.log exit
      → (check_header (s.file ++ bytes) ≡ ok d.version)
        × EndsIn (drop header_size (s.file ++ bytes)) header_size empty exit
  longer s bytes exit d h =
      let long = check_header-long s.file d.version d.header in
      let at_end : header_size + length (drop header_size s.file) ≡ length s.file =
        omega (arith, length-drop header_size s.file) in
      (
        check_header-same s.file (s.file ++ bytes) long (omega (arith, length-append s.file bytes))
              (take-append_le header_size s.file bytes long)
            ∙ d.header,
        rw (drop-append_le header_size s.file bytes long) (
            EndsIn-append (suc (length (drop header_size s.file))) (drop header_size s.file) bytes
              header_size empty s.log exit (omega arith) d.loop (rw at_end h)),
      )

  open_truncated :
      (file : List ℕ) (version at : ℕ) (log : EventLog)
      → check_header file ≡ ok version
      → EndsIn (drop header_size file) header_size empty (truncated at log)
      → open_store no_faults (some file) ≡ some (ok (record { file = take at file; log = log }))
  unfolding open_store open_existing recover finish truncate_and_return
  open_truncated file version at log header loop =
      rw (header, loop (suc (length file)) (omega (arith, length-drop header_size file)))

  module _ (s : Store) (d : IsDurable s) (es : List RecordedEvent) (first : ℕ)
      (storable : All IsStorable es) (count : length es < 256 ^ 4) (pos : first < 256 ^ 8) where
    written :
        IsDurable (record { file = s.file ++ encode_batch es first; log = commit_all s.log es })
    written =
        let bytes = encode_batch es first in
        let nothing : drop (length bytes) bytes ≡ [] =
          rw append-nil at (drop-append (length bytes) bytes [] refl) in
        let (header, loop) = longer s bytes (clean (commit_all s.log es)) d (
          EndsIn-round bytes (length s.file) s.log es (length bytes)
            (read_batch-encode_batch es first storable count pos)
            (rw nothing (EndsIn-empty _ _))) in
        record { version = d.version; header = header; loop = loop }

    torn_write :
        (k : ℕ)
        → k < length (encode_batch es first)
        → open_store no_faults (some (s.file ++ take k (encode_batch es first))) ≡ some (ok s)
    unfolding take
    torn_write zero l = rw (append-nil s.file) (IsDurable-open_store s d)
    torn_write (suc k) l =
        let bytes = take (suc k) (encode_batch es first) in
        let size : length bytes ≡ suc k =
          length-take (suc k) (encode_batch es first) (omega arith) in
        let (header, loop) = longer s bytes (truncated (length s.file) s.log) d (
          EndsIn-torn bytes (length s.file) s.log (omega arith)
            (read_batch-take es first storable count pos (suc k) l)) in
        rw (take-append (length s.file) s.file bytes refl) at
          (open_truncated (s.file ++ bytes) d.version (length s.file) s.log header loop)

  grown :
      (log : EventLog) (id at position version : ℕ) (ps : List ProposedEvent)
      → 0 < length ps
      → commit_all log (numbered id at position version ps)
        ≡ index_batch log id (numbered id at position version ps)
  grown log id at position version [] h = absurd (omega arith)
  grown log id at position version (p ∷ ps) h =
      commit_all-index_batch log id _ _ (numbered-stream_id id at position version (p ∷ ps))

  validated :
      (os : AppendIo) (s : Store) (id : Uuid) (r : Result (List RecordedEvent))
      (es : List RecordedEvent)
      → (append_validated os s id r).0 ≡ ok es
      → r ≡ ok es
  unfolding append_validated write_batch
  validated done s id (ok es') es h = h
  validated (AppendIo.seek_failed code) s id (ok es') es h = cc
  validated (AppendIo.write_failed code n) s id (ok es') es h = cc
  validated (AppendIo.sync_failed code) s id (ok es') es h = cc
  validated os s id (err e) es h = cc

  built :
      (r : Result (Unit {0})) (b : Result (List RecordedEvent)) (es : List RecordedEvent)
      → (r >>= λ _. b) ≡ ok es
      → b ≡ ok es
  built (ok u) b es h = h
  built (err e) b es h = cc

  module _ (s : Store) (id : Uuid) (expected : ExpectedVersion) (at : ℕ)
      (ps : List ProposedEvent) where
    -- The events that a successful append records.
    abbrev pub assigned : List RecordedEvent
    assigned = numbered id at (length s.log.events) (next_version (get id s.log.streams)) ps

    pub validate-assigned :
        (es : List RecordedEvent)
        → validate s id expected at ps ≡ ok es
        → (es ≡ assigned) × All IsSmall assigned
    unfolding validate
    validate-assigned es h = build-numbered id at _ _ ps es (built _ _ es h)

    -- A successful append returns the proposals, numbered from the end of the log and of the stream.
    pub append-assigned :
        (os : AppendIo) (es : List RecordedEvent)
        → (append os s id expected at ps).0 ≡ ok es
        → (es ≡ assigned) × All IsSmall assigned
    unfolding append
    append-assigned os es h = validate-assigned es (validated os s id _ es h)

    first-Fits : Fits s id at ps → 0 < length ps → length s.log.events < 256 ^ 8
    first-Fits f some_events = omega (arith, f.positions)

    assigned-IsStorable : Fits s id at ps → All IsSmall assigned → All IsStorable assigned
    assigned-IsStorable f small =
        numbered-IsStorable id at _ _ ps f.id_typed f.at_typed f.positions f.versions f.proposals
          small

    count-Fits : Fits s id at ps → length assigned < 256 ^ 4
    count-Fits f = omega (
      arith,
      f.count,
      length-numbered id at (length s.log.events) (next_version (get id s.log.streams)) ps,
    )

    -- The store that a successful append leaves is what opening its file gives.
    appended :
        IsDurable s
        → Fits s id at ps
        → 0 < length ps
        → All IsSmall assigned
        → open_store no_faults (some (s.file ++ encode_batch assigned (length s.log.events)))
          ≡ some (
              ok (record {
                file = s.file ++ encode_batch assigned (length s.log.events);
                log = index_batch s.log id assigned;
              }))
    appended d f some_events small =
        rw
          (← grown s.log id at (length s.log.events) (next_version (get id s.log.streams)) ps
            some_events)
          (IsDurable-open_store _ (
            written s d assigned (length s.log.events) (assigned-IsStorable f small) (count-Fits f)
              (first-Fits f some_events)))

    -- On a durable store, after a successful append of at least one event, whose request is typed
    -- and whose numbers fit their fields, opening the file again gives the store that the append
    -- left.
    pub append-durable :
        (es : List RecordedEvent)
        → IsDurable s
        → Fits s id at ps
        → 0 < length ps
        → (append done s id expected at ps).0 ≡ ok es
        → open_store no_faults (some (append done s id expected at ps).1.file)
          ≡ some (ok (append done s id expected at ps).1)
    unfolding append append_validated write_batch
    append-durable es d f some_events h =
        let valid = validated done s id _ es h in
        let (same, small) = append-assigned done es h in
        rw (valid, same) (appended d f some_events small)

    -- On a durable store, a write that stops after `k` bytes of a valid batch of at least one event,
    -- whose request is typed and whose numbers fit their fields: opening the file gives the store
    -- before the append if some bytes are missing, and the store after it if none is.
    pub append-atomic :
        (es : List RecordedEvent) (code k : ℕ)
        → IsDurable s
        → Fits s id at ps
        → 0 < length ps
        → validate s id expected at ps ≡ ok es
        → (k < length (encode_batch es (length s.log.events))
            → open_store no_faults
                (some (append (AppendIo.write_failed code k) s id expected at ps).1.file)
              ≡ some (ok s))
          × (length (encode_batch es (length s.log.events)) ≤ k
              → open_store no_faults
                  (some (append (AppendIo.write_failed code k) s id expected at ps).1.file)
                ≡ some (ok (append done s id expected at ps).1))
    unfolding append append_validated write_batch
    append-atomic es code k d f some_events h =
        let (same, small) = validate-assigned es h in
        let bytes = encode_batch assigned (length s.log.events) in
        rw (h, same)
          (
            torn_write s d assigned (length s.log.events) (assigned-IsStorable f small)
                (count-Fits f) (first-Fits f some_events) k,
            λ l. rw (take_of_length-le k bytes l) (appended d f some_events small),
          )
