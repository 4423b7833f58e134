-- ===== src/Reader.antt =====
-- src/reader.rs: `ReadIndex`, the read-only handle. Its lock is held for one call, so a call sees
-- one `EventLog`. `none` stands for a panic, an index out of range. `Store` has the same four
-- reads over the same index.
pub mod Reads
pub mod Order
pub mod Streams
use eventfold_db.Common.{
  [], ℕ, ◌+◌, ◌-◌, ◌^◌, Bool, true, false, ◌&&◌, ◌||◌, List, ◌∷◌, map, Option, none, some, length,
  get_elem?, take, drop, ltb, ◌==◌, if◌then◌else◌,
}
use mathlib.Core.Option
use eventfold_db.Crates.{UuidCrate, Uuid}
use eventfold_db.Error.{Result, ok, err, stream_not_found}
use eventfold_db.Types.{RecordedEvent, StreamInfo}
use eventfold_db.EventLog.{get, EventLog}
use eventfold_db.Store.{last_index}

abbrev pub max_u64 : ℕ
max_u64 = 2 ^ 64 - 1

-- `u64::saturating_add` and `u64::min`
abbrev pub saturating_add : ℕ → ℕ → ℕ
saturating_add a b = if ltb max_u64 (a + b) then max_u64 else a + b

abbrev pub min_u64 : ℕ → ℕ → ℕ
min_u64 a b = if ltb b a then b else a

-- `xs[start..end]`
abbrev pub slice {ℓ} : {A : Type ℓ} → ℕ → ℕ → List A → List A
slice start end xs = take (end - start) (drop start xs)

unfoldable pub stream_version : EventLog → Uuid → Option ℕ
stream_version log id = Option.map (λ positions. last_index (length positions)) (get id log.streams)

unfoldable pub global_position : EventLog → ℕ
global_position log = length log.events

unfoldable pub read_all : EventLog → ℕ → ℕ → List RecordedEvent
read_all log from_position max_count =
    let len = length log.events in
    let start = min_u64 from_position len in
    let end = min_u64 (saturating_add from_position max_count) len in slice start end log.events

abbrev pub add_event :
    Option RecordedEvent → Option (List RecordedEvent) → Option (List RecordedEvent)
add_event (some e) (some es) = some (e ∷ es)
add_event _ _ = none

-- The events at the given positions.
unfoldable pub fetch : EventLog → List ℕ → Option (List RecordedEvent)
fetch log [] = some []
fetch log (p ∷ ps) = add_event (get_elem? log.events p) (fetch log ps)

unfoldable pub read_positions :
    EventLog → Uuid → ℕ → ℕ → Option (List ℕ) → Option (Result (List RecordedEvent))
read_positions log id from_version max_count none = some (err (stream_not_found id))
read_positions log id from_version max_count (some positions) =
    let stream_len = length positions in
    let start = min_u64 from_version stream_len in
    let end = min_u64 (saturating_add from_version max_count) stream_len in
    Option.map ok (fetch log (slice start end positions))

unfoldable pub read_stream : EventLog → Uuid → ℕ → ℕ → Option (Result (List RecordedEvent))
read_stream log id from_version max_count =
    read_positions log id from_version max_count (get id log.streams)

-- The order of strings: by bytes, a proper prefix first.
unfoldable pub str_le : List ℕ → List ℕ → Bool
str_le [] ys = true
str_le (x ∷ xs) [] = false
str_le (x ∷ xs) (y ∷ ys) = ltb x y || (x == y) && str_le xs ys

abbrev pub stream_info : Uuid × List ℕ → StreamInfo
stream_info (id, positions) = record {
  stream_id = id;
  event_count = length positions;
  latest_version = last_index (length positions);
}

module _ ⦃uuid : UuidCrate⦄ where
  -- The stable `sort_by` on the texts of the identifiers.
  unfoldable pub insert_info : StreamInfo → List StreamInfo → List StreamInfo
  insert_info a [] = a ∷ []
  insert_info a (b ∷ bs) =
      if str_le (uuid.to_string a.stream_id) (uuid.to_string b.stream_id)
      then a ∷ b ∷ bs
      else b ∷ insert_info a bs

  unfoldable pub sort_infos : List StreamInfo → List StreamInfo
  sort_infos [] = []
  sort_infos (a ∷ as') = insert_info a (sort_infos as')

  unfoldable pub list_streams : EventLog → List StreamInfo
  list_streams log = sort_infos (map stream_info log.streams)
