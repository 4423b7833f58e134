-- ===== src/Store/Recorded.antt =====
-- src/store.rs: the events that `append` records, described by what their fields hold.
use eventfold_db.Common.{
  ℕ, ◌+◌, ◌≡◌, ◌∙◌, refl, sym, ap, List, [], ◌∷◌, map, All, length, none, some, Option,
}
use eventfold_db.Crates.{Crc32, UuidCrate, Uuid}
use eventfold_db.Error.{ok}
use eventfold_db.Types.{ExpectedVersion, ProposedEvent, RecordedEvent}
use eventfold_db.EventLog.{EventLog, get, positions_of}
use eventfold_db.EventLog.WellFormed.{
  IsWellFormed, Positioned, Versioned, of_stream, length-positions,
}
use eventfold_db.Store.Numbered.{IsSmall, numbered, numbered-stream_id}
use eventfold_db.Store.Invariant.{numbered-Positioned, numbered-Versioned}
use eventfold_db.Store.Crash.{append-assigned}
use eventfold_db.Store.{Store, AppendIo, append, next_version}

-- The proposal that an event holds.
abbrev pub proposal_of : RecordedEvent → ProposedEvent
proposal_of e = record {
  event_id = e.event_id;
  event_type = e.event_type;
  metadata = e.metadata;
  payload = e.payload;
}

module _ ⦃crc : Crc32⦄ ⦃uuid : UuidCrate⦄ where
  -- Events that hold the proposals, in their order, for the stream and the time, each within the
  -- limits, positioned from the end of the log on and with versions from the stream's length on.
  pub record IsRecorded (log : EventLog) (id : Uuid) (recorded_at : ℕ) (ps : List ProposedEvent)
      (es : List RecordedEvent) : Type 0 where
    pub proposals : map proposal_of es ≡ ps
    pub stream_ids : All (λ e. e.stream_id ≡ id) es
    pub times : All (λ e. e.recorded_at ≡ recorded_at) es
    pub positioned : Positioned (length log.events) es
    pub versioned : Versioned (length (of_stream id log.events)) es
    pub small : All IsSmall es

  numbered-proposal_of :
      (id at position version : ℕ) (ps : List ProposedEvent)
      → map proposal_of (numbered id at position version ps) ≡ ps
  numbered-proposal_of id at position version [] = refl
  numbered-proposal_of id at position version (p ∷ ps) =
      ap (λ rest. p ∷ rest) (numbered-proposal_of id at (position + 1) (version + 1) ps)

  numbered-recorded_at :
      (id at position version : ℕ) (ps : List ProposedEvent)
      → All (λ e. e.recorded_at ≡ at) (numbered id at position version ps)
  numbered-recorded_at id at position version [] = tt
  numbered-recorded_at id at position version (p ∷ ps) =
      (refl, numbered-recorded_at id at (position + 1) (version + 1) ps)

  length-next_version : (o : Option (List ℕ)) → next_version o ≡ length (positions_of o)
  length-next_version none = refl
  length-next_version (some ps) = refl

  -- The version that a stream continues with is the number of its events.
  next_version_lem :
      (log : EventLog) (id : Uuid)
      → IsWellFormed log
      → next_version (get id log.streams) ≡ length (of_stream id log.events)
  next_version_lem log id w =
      length-next_version (get id log.streams)
      ∙ ap (length {A = ℕ}) (w.indexed id)
      ∙ length-positions (of_stream id log.events)

  -- On a well-formed log, whatever the file system answers, a successful append returns events that
  -- hold the proposals in their order, each with the stream and the time of the append and within
  -- the limits of size, at the positions from the length of the log on and with the versions from
  -- the number of the stream's events on.
  pub append-IsRecorded :
      (os : AppendIo) (s : Store) (id : Uuid) (expected : ExpectedVersion) (at : ℕ)
      (ps : List ProposedEvent) (es : List RecordedEvent)
      → IsWellFormed s.log
      → (append os s id expected at ps).0 ≡ ok es
      → IsRecorded s.log id at ps es
  append-IsRecorded os s id expected at ps es w h =
      let (same, small) = append-assigned s id expected at ps os es h in
      let first = length s.log.events in
      let version = next_version (get id s.log.streams) in
      rw same record {
        proposals = numbered-proposal_of id at first version ps;
        stream_ids = numbered-stream_id id at first version ps;
        times = numbered-recorded_at id at first version ps;
        positioned = numbered-Positioned id at first version ps;
        versioned =
            rw (sym (next_version_lem s.log id w)) (numbered-Versioned id at first version ps);
        small = small;
      }
