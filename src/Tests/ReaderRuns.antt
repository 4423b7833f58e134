-- ===== src/Tests/ReaderRuns.antt =====
-- Runs of src/reader.rs and src/broker.rs.
use eventfold_db.Common.{List, All, ◌<◌, ◌^◌, ◌↔◌, ◌≤◌, ◌≡◌, refl, [], ◌∷◌, some, arith, length}
use eventfold_db.Types.{ExpectedVersion, StreamInfo}
use eventfold_db.EventLog.{EventLog, empty}
use eventfold_db.EventLog.WellFormed.{IsWellFormed, Versioned, of_stream, empty-IsWellFormed}
use eventfold_db.Store.{append, done}
use eventfold_db.Store.Invariant.{append-IsWellFormed}
use eventfold_db.Reader.Streams.{Lists, list_streams-Lists}
use eventfold_db.EventLog.Keys.{HasDistinctKeys}
use eventfold_db.Reader.{list_streams, max_u64, read_stream}
use eventfold_db.Reader.Reads.{stream_answer, read_stream_lem}
use eventfold_db.Tests.Data.{sum_crc, plain_uuid, paid}
use eventfold_db.Store.Keys.{append-HasDistinctKeys, IsDurable-HasDistinctKeys}
use eventfold_db.Tests.StoreRuns.{fresh-IsDurable, fresh, two, program}

abbrev pub held : EventLog
held = (append done fresh 42 ExpectedVersion.no_stream 1000 two).1.log

pub held-IsWellFormed : IsWellFormed held
held-IsWellFormed =
    append-IsWellFormed fresh 42 ExpectedVersion.no_stream 1000 two done empty-IsWellFormed
      (omega arith)

held_typed : length held.events ≤ max_u64
unfolding program
held_typed = omega arith

read_stream_lem_example :
    read_stream held 42 1 5 ≡ some (stream_answer 42 1 5 (of_stream 42 held.events))
read_stream_lem_example = read_stream_lem held 42 1 5 held-IsWellFormed held_typed

held_ids : All (λ e. e.stream_id < 2 ^ 128) held.events
unfolding program
held_ids = (omega arith, (omega arith, tt))

held-HasDistinctKeys : HasDistinctKeys held.streams
held-HasDistinctKeys =
    append-HasDistinctKeys done fresh 42 ExpectedVersion.no_stream 1000 two
      (IsDurable-HasDistinctKeys fresh fresh-IsDurable)

-- The one stream, with two events.
abbrev held_infos : List StreamInfo
held_infos = record { stream_id = 42; event_count = 2; latest_version = 1 } ∷ []

list_streams-Lists_example : (held_infos ≡ list_streams held) ↔ Lists held held_infos
list_streams-Lists_example =
    list_streams-Lists held held_infos held-IsWellFormed held_typed held-HasDistinctKeys held_ids

abbrev pub first_log : EventLog
first_log = record empty { events = paid ∷ [] }

pub held_versions : Versioned 0 (of_stream 42 held.events)
unfolding program of_stream
held_versions = (refl, (refl, tt))
