-- ===== src/Spec.antt =====
-- The abstract event store: a list of events and nothing else. What `src/store.rs` and
-- `src/reader.rs` promise their clients is stated over it, with no file, no index, no encoding; a
-- stream is the events of the list that carry its identifier.
pub mod Append
pub mod Refinement
pub mod Progress
use eventfold_db.Common.{
  [], ℕ, zero, suc, ◌+◌, List, ◌∷◌, ◌++◌, Option, none, some, length, take, drop, ltb, ◌==◌,
  if◌then◌else◌,
}
use eventfold_db.Crates.{Crc32, UuidCrate, Uuid}
use eventfold_db.Error.{
  Error, Result, ok, err, no_stream, number, wrong_expected_version, event_too_large,
  invalid_argument, empty_event_type, event_type_too_long,
}
use eventfold_db.Types.{
  ExpectedVersion, ProposedEvent, RecordedEvent, max_event_size, max_event_type_len,
}
use eventfold_db.EventLog.WellFormed.{of_stream}
use eventfold_db.Reader
use eventfold_db.Reader.Reads.{stream_answer}
use eventfold_db.Store
use eventfold_db.Store.{Store}
use eventfold_db.Store.Numbered.{numbered}

-- What a client can ask for, and the restart of the process.
pub data Command : Type 0 where
  append : Uuid → ExpectedVersion → ℕ → List ProposedEvent → Command
  read_all : ℕ → ℕ → Command
  read_stream : Uuid → ℕ → ℕ → Command
  stream_version : Uuid → Command
  global_position : Command
  restart : Command

pub data Answer : Type 0 where
  appended : Result (List RecordedEvent) → Answer
  events : Result (List RecordedEvent) → Answer
  version : Option ℕ → Answer
  position : ℕ → Answer
  restarted : Answer

-- Whether a stream of `n` events is as the caller expects it.
abbrev pub version_fault : ExpectedVersion → ℕ → Option Error
version_fault ExpectedVersion.any n = none
version_fault ExpectedVersion.no_stream zero = none
version_fault ExpectedVersion.no_stream (suc n) = some (wrong_expected_version no_stream (number n))
version_fault (ExpectedVersion.exact v) zero = some (wrong_expected_version (number v) no_stream)
version_fault (ExpectedVersion.exact v) (suc n) =
    if n == v then none else some (wrong_expected_version (number v) (number n))

-- The bytes that an event takes in the file: fifty-six bytes of numbers and identifiers, three lengths
-- of ten bytes together, a length and a checksum of four bytes each, and the contents.
abbrev pub record_size : RecordedEvent → ℕ
record_size e = 74 + length e.event_type + length e.metadata + length e.payload

-- What is wrong with an event, if anything is.
abbrev pub event_fault : RecordedEvent → Option Error
event_fault e =
    if length e.event_type == 0
    then some (invalid_argument empty_event_type)
    else if ltb max_event_type_len (length e.event_type)
    then some (invalid_argument (event_type_too_long max_event_type_len (length e.event_type)))
    else if ltb max_event_size (record_size e)
    then some (event_too_large (record_size e) max_event_size)
    else none

abbrev pub or_else : Option Error → Option Error → Option Error
or_else (some e) later = some e
or_else none later = later

abbrev pub first_fault : List RecordedEvent → Option Error
first_fault [] = none
first_fault (e ∷ es) = or_else (event_fault e) (first_fault es)

-- A batch is appended whole or not at all.
abbrev pub commit_unless :
    Option Error → List RecordedEvent → List RecordedEvent → Answer × List RecordedEvent
commit_unless (some e) log batch = (appended (err e), log)
commit_unless none log batch = (appended (ok batch), log ++ batch)

-- The latest version of a stream of `n` events.
abbrev pub latest : ℕ → Option ℕ
latest zero = none
latest (suc n) = some n

-- What a command does to the list, and what it answers.
abbrev pub specify : List RecordedEvent → Command → Answer × List RecordedEvent
specify log (append id expected at ps) =
    let n = length (of_stream id log) in
    let batch = numbered id at (length log) n ps in
    commit_unless (or_else (version_fault expected n) (first_fault batch)) log batch
specify log (read_all from count) = (events (ok (take count (drop from log))), log)
specify log (read_stream id from count) =
    (events (stream_answer id from count (of_stream id log)), log)
specify log (stream_version id) = (version (latest (length (of_stream id log))), log)
specify log global_position = (position (length log), log)
specify log restart = (restarted, log)

abbrev pub then_specify :
    Answer × List RecordedEvent
    → (List RecordedEvent → List Answer × List RecordedEvent)
    → List Answer × List RecordedEvent
then_specify (a, log) rest = let (as', log') = rest log in (a ∷ as', log')

pub specify_all : List RecordedEvent → List Command → List Answer × List RecordedEvent
specify_all log [] = ([], log)
specify_all log (c ∷ cs) = then_specify (specify log c) (λ log. specify_all log cs)

module _ ⦃crc : Crc32⦄ ⦃uuid : UuidCrate⦄ where
  abbrev pub on_append : Result (List RecordedEvent) × Store → Option (Answer × Store)
  on_append (r, s) = some (appended r, s)

  abbrev pub on_events : Store → Option (Result (List RecordedEvent)) → Option (Answer × Store)
  on_events s none = none
  on_events s (some r) = some (events r, s)

  abbrev pub on_restart : Option (Result Store) → Option (Answer × Store)
  on_restart (some (ok s)) = some (restarted, s)
  on_restart _ = none

  -- The same on the store of the source, whose calls of the file system succeed. `none` is a
  -- panic, or a restart that fails.
  abbrev pub perform : Store → Command → Option (Answer × Store)
  perform s (append id expected at ps) = on_append (Store.append Store.done s id expected at ps)
  perform s (read_all from count) = some (events (ok (Reader.read_all s.log from count)), s)
  perform s (read_stream id from count) = on_events s (Reader.read_stream s.log id from count)
  perform s (stream_version id) = some (version (Reader.stream_version s.log id), s)
  perform s global_position = some (position (Reader.global_position s.log), s)
  perform s restart = on_restart (Store.open_store Store.no_faults (some s.file))

  abbrev pub then_perform :
      Option (Answer × Store)
      → (Store → Option (List Answer × Store))
      → Option (List Answer × Store)
  then_perform none rest = none
  then_perform (some (a, s)) rest = elim (rest s) [
    | none ↦ none
    | some (as', s') ↦ some (a ∷ as', s')
  ]

  pub perform_all : Store → List Command → Option (List Answer × Store)
  perform_all s [] = some ([], s)
  perform_all s (c ∷ cs) = then_perform (perform s c) (λ s. perform_all s cs)
