-- ===== src/EventLog.antt =====
-- src/store.rs: the in-memory index `EventLog`. A `HashMap<Uuid, Vec<u64>>` is an association
-- list: a key that is new goes to the end.
pub mod Index
pub mod WellFormed
pub mod Keys
use eventfold_db.Common.{[], ℕ, List, ◌∷◌, ◌++◌, map, Option, none, some, ◌==◌, if◌then◌else◌}
use eventfold_db.Crates.{Uuid}
use eventfold_db.Types.{RecordedEvent}

abbrev pub Streams : Type 0
Streams = List (Uuid × List ℕ)

-- `streams.get(id)`
unfoldable pub get : Uuid → Streams → Option (List ℕ)
get id [] = none
get id ((j, positions) ∷ streams) = if j == id then some positions else get id streams

-- The positions of a stream, none if it does not exist.
abbrev pub positions_of : Option (List ℕ) → List ℕ
positions_of none = []
positions_of (some positions) = positions

-- `streams.entry(id).or_default()`
unfoldable pub or_default : Uuid → Streams → Streams
or_default id [] = (id, []) ∷ []
or_default id ((j, positions) ∷ streams) =
    if j == id then (j, positions) ∷ streams else (j, positions) ∷ or_default id streams

-- `streams.entry(id).or_default().push(position)`
unfoldable pub push : Uuid → ℕ → Streams → Streams
push id position [] = (id, position ∷ []) ∷ []
push id position ((j, positions) ∷ streams) =
    if j == id
    then (j, positions ++ position ∷ []) ∷ streams
    else (j, positions) ∷ push id position streams

pub record EventLog : Type 0 where
  pub events : List RecordedEvent
  pub streams : Streams

abbrev pub empty : EventLog
empty = record { events = []; streams = [] }

-- One event of a batch that recovery has verified: step 5 of `Store::open`.
unfoldable pub commit : EventLog → RecordedEvent → EventLog
commit log event = record {
  events = log.events ++ event ∷ [];
  streams = push event.stream_id event.global_position log.streams;
}

unfoldable pub commit_all : EventLog → List RecordedEvent → EventLog
commit_all log [] = log
commit_all log (event ∷ events) = commit_all (commit log event) events

-- `for position in positions { entry.push(position) }`
abbrev pub push_all : Uuid → List ℕ → Streams → Streams
push_all id [] streams = streams
push_all id (position ∷ positions) streams = push_all id positions (push id position streams)

-- Step 5 of `append`: the positions join the stream's entry, the events join the log.
unfoldable pub index_batch : EventLog → Uuid → List RecordedEvent → EventLog
index_batch log stream_id recorded = record {
  events = log.events ++ recorded;
  streams =
      push_all stream_id (map (λ e. e.global_position) recorded) (or_default stream_id log.streams);
}
