-- ===== src/Service/Messages.antt =====
-- proto/eventfold.proto: the messages, as the generated structs hold them. A string is its UTF-8
-- bytes; a message field and a `oneof` may be absent.
use eventfold_db.Common.{ℕ, List, Option}

pub record ProposedMessage : Type 0 where
  pub event_id : List ℕ
  pub event_type : List ℕ
  pub metadata : List ℕ
  pub payload : List ℕ

pub record RecordedMessage : Type 0 where
  pub event_id : List ℕ
  pub stream_id : List ℕ
  pub stream_version : ℕ
  pub global_position : ℕ
  pub event_type : List ℕ
  pub metadata : List ℕ
  pub payload : List ℕ
  pub recorded_at : ℕ

pub data VersionKind : Type 0 where
  any : VersionKind
  no_stream : VersionKind
  exact : ℕ → VersionKind

pub record VersionMessage : Type 0 where
  pub kind : Option VersionKind

pub record AppendMessage : Type 0 where
  pub stream_id : List ℕ
  pub expected_version : Option VersionMessage
  pub events : List ProposedMessage

pub record AppendReply : Type 0 where
  pub first_stream_version : ℕ
  pub last_stream_version : ℕ
  pub first_global_position : ℕ
  pub last_global_position : ℕ

pub record ReadStreamMessage : Type 0 where
  pub stream_id : List ℕ
  pub from_version : ℕ
  pub max_count : ℕ

pub record StreamInfoMessage : Type 0 where
  pub stream_id : List ℕ
  pub event_count : ℕ
  pub latest_version : ℕ

-- The content of a `SubscribeResponse`.
pub data Content : Type 0 where
  event : RecordedMessage → Content
  caught_up : Content

pub record SubscribeMessage : Type 0 where
  pub content : Option Content

pub record SubscribeStreamMessage : Type 0 where
  pub stream_id : List ℕ
  pub from_version : ℕ
