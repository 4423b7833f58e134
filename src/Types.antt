-- ===== src/Types.antt =====
-- src/types.rs: proposed and recorded events, expected versions, size limits.
-- A `String` is its UTF-8 bytes, `Bytes` is a list of bytes, a `u64` is a number.
use eventfold_db.Common.{ℕ, ◌*◌, ◌^◌, ◌<◌, ◌≡◌, true, List, is_utf8}
use eventfold_db.Crates.{Uuid}

abbrev pub max_event_size : ℕ
max_event_size = 64 * 1024

abbrev pub max_event_type_len : ℕ
max_event_type_len = 256

pub record ProposedEvent : Type 0 where
  pub event_id : Uuid
  pub event_type : List ℕ
  pub metadata : List ℕ
  pub payload : List ℕ

pub record RecordedEvent : Type 0 where
  pub event_id : Uuid
  pub stream_id : Uuid
  pub stream_version : ℕ
  pub global_position : ℕ
  pub recorded_at : ℕ
  pub event_type : List ℕ
  pub metadata : List ℕ
  pub payload : List ℕ

pub data ExpectedVersion : Type 0 where
  any : ExpectedVersion
  no_stream : ExpectedVersion
  exact : ℕ → ExpectedVersion

pub data SubscriptionMessage : Type 0 where
  event : RecordedEvent → SubscriptionMessage
  caught_up : SubscriptionMessage

pub record StreamInfo : Type 0 where
  pub stream_id : Uuid
  pub event_count : ℕ
  pub latest_version : ℕ

-- The ranges that Rust's types give a recorded event: `u64` numbers, a `String` that is UTF-8.
pub record IsTyped (e : RecordedEvent) : Type 0 where
  pub event_id : e.event_id < 2 ^ 128
  pub stream_id : e.stream_id < 2 ^ 128
  pub stream_version : e.stream_version < 256 ^ 8
  pub global_position : e.global_position < 256 ^ 8
  pub recorded_at : e.recorded_at < 256 ^ 8
  pub event_type : is_utf8 e.event_type ≡ true

-- Those of a proposed event.
pub record IsTypedProposal (p : ProposedEvent) : Type 0 where
  pub event_id : p.event_id < 2 ^ 128
  pub event_type : is_utf8 p.event_type ≡ true
