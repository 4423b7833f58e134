-- ===== src/Store/Reads.antt =====
-- src/store.rs: the reads of `Store` itself, over its own index; each holds the lock for one call.
-- `none` stands for a panic, an index out of range.
use eventfold_db.Common.{ℕ, ◌≡◌, refl, List, Option, none, some, length}
use mathlib.Core.Option
use eventfold_db.Crates.{Uuid}
use eventfold_db.Error.{Result, ok, err, stream_not_found}
use eventfold_db.Types.{RecordedEvent}
use eventfold_db.EventLog.{get}
use eventfold_db.Store.{Store, last_index}
use eventfold_db.Reader
use eventfold_db.Reader.{saturating_add, min_u64, slice, fetch}

unfoldable pub stream_version : Store → Uuid → Option ℕ
stream_version self stream_id =
    Option.map (λ positions. last_index (length positions)) (get stream_id self.log.streams)

unfoldable pub global_position : Store → ℕ
global_position self = length self.log.events

unfoldable pub read_all : Store → ℕ → ℕ → List RecordedEvent
read_all self from_position max_count =
    let len = length self.log.events in
    let start = min_u64 from_position len in
    let end = min_u64 (saturating_add from_position max_count) len in
    slice start end self.log.events

abbrev pub stream_slice :
    Store → Uuid → ℕ → ℕ → Option (List ℕ) → Option (Result (List RecordedEvent))
stream_slice self stream_id from_version max_count none = some (err (stream_not_found stream_id))
stream_slice self stream_id from_version max_count (some positions) =
    let stream_len = length positions in
    let start = min_u64 from_version stream_len in
    let end = min_u64 (saturating_add from_version max_count) stream_len in
    Option.map ok (fetch self.log (slice start end positions))

unfoldable pub read_stream : Store → Uuid → ℕ → ℕ → Option (Result (List RecordedEvent))
read_stream self stream_id from_version max_count =
    stream_slice self stream_id from_version max_count (get stream_id self.log.streams)

-- A handle of the reader over the store's index gives the same.
pub read_all-read_all :
    (self : Store) (from_position max_count : ℕ)
    → read_all self from_position max_count ≡ Reader.read_all self.log from_position max_count
unfolding read_all Reader.read_all
read_all-read_all self from_position max_count = refl

pub read_stream-read_stream :
    (self : Store) (id : Uuid) (from_version max_count : ℕ)
    → read_stream self id from_version max_count
      ≡ Reader.read_stream self.log id from_version max_count
unfolding read_stream Reader.read_stream Reader.read_positions
read_stream-read_stream self id from_version max_count = same (get id self.log.streams)
  where
    same :
        (o : Option (List ℕ))
        → stream_slice self id from_version max_count o
          ≡ Reader.read_positions self.log id from_version max_count o
    same none = refl
    same (some positions) = refl
