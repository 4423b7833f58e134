-- ===== src/Service.antt =====
-- src/service.rs: the unary handlers of the gRPC service, and the conversions between messages and the types of the domain. `none` is a panic of a handler.
pub mod Messages
pub mod Append
pub mod Subscribe
pub mod Live
pub mod Beside
use eventfold_db.Common.{ℕ, List, [], ◌∷◌, map, Option, none, some}
use mathlib.Core.List.{get_last?}
use mathlib.Core.Option
use eventfold_db.Crates.{UuidCrate, Uuid}
use eventfold_db.Error.{
  Error, Result, ok, err, wrong_expected_version, stream_not_found, io, corrupt_record,
  invalid_header, event_too_large, invalid_argument,
}
use eventfold_db.Types.{ExpectedVersion, ProposedEvent, RecordedEvent, StreamInfo}
use eventfold_db.EventLog.{EventLog}
use eventfold_db.Reader
use eventfold_db.Writer.{AppendRequest}
use Messages.{
  ProposedMessage, RecordedMessage, VersionKind, VersionMessage, AppendMessage, AppendReply,
  ReadStreamMessage, StreamInfoMessage,
}

pub data Code : Type 0 where
  failed_precondition : Code
  not_found : Code
  internal : Code
  data_loss : Code
  invalid : Code

-- The message of a status: an error's text, or one of the service's own.
pub data StatusText : Type 0 where
  of_error : Error → StatusText
  invalid_stream_id : StatusText
  invalid_event_id : StatusText
  expected_version_required : StatusText
  kind_required : StatusText
  events_empty : StatusText

pub record Status : Type 0 where
  pub code : Code
  pub message : StatusText

abbrev pub invalid_status : StatusText → Status
invalid_status message = record { code = invalid; message = message }

-- `Result<A, tonic::Status>`
pub data Reply {ℓ} (A : Type ℓ) : Type ℓ where
  reply : A → Reply A
  refuse : Status → Reply A

infixl 5 ◌>>=◌
abbrev pub ◌>>=◌ {ℓ κ} : {A : Type ℓ} {B : Type κ} → Reply A → (A → Reply B) → Reply B
refuse s >>= next = refuse s
reply a >>= next = next a

unfoldable pub code_of : Error → Code
code_of (wrong_expected_version expected actual) = failed_precondition
code_of (stream_not_found id) = not_found
code_of (io code) = internal
code_of (corrupt_record position detail) = data_loss
code_of (invalid_header fault) = data_loss
code_of (event_too_large size max) = invalid
code_of (invalid_argument fault) = invalid

unfoldable pub error_to_status : Error → Status
error_to_status e = record { code = code_of e; message = of_error e }

abbrev pub or_refuse {ℓ} : {A : Type ℓ} → StatusText → Option A → Reply A
or_refuse text none = refuse (invalid_status text)
or_refuse text (some a) = reply a

unfoldable pub proto_to_expected_version : Option VersionMessage → Reply ExpectedVersion
proto_to_expected_version none = refuse (invalid_status expected_version_required)
proto_to_expected_version (some ev) = elim ev.kind [
  | none ↦ refuse (invalid_status kind_required)
  | some VersionKind.any ↦ reply ExpectedVersion.any
  | some VersionKind.no_stream ↦ reply ExpectedVersion.no_stream
  | some (VersionKind.exact v) ↦ reply (ExpectedVersion.exact v)
]

module _ ⦃uuid : UuidCrate⦄ where
  unfoldable pub parse_uuid : List ℕ → StatusText → Reply Uuid
  parse_uuid s field = or_refuse field (uuid.parse s)

  unfoldable pub recorded_to_proto : RecordedEvent → RecordedMessage
  recorded_to_proto e = record {
    event_id = uuid.to_string e.event_id;
    stream_id = uuid.to_string e.stream_id;
    stream_version = e.stream_version;
    global_position = e.global_position;
    event_type = e.event_type;
    metadata = e.metadata;
    payload = e.payload;
    recorded_at = e.recorded_at;
  }

  unfoldable pub stream_info_to_proto : StreamInfo → StreamInfoMessage
  stream_info_to_proto s = record {
    stream_id = uuid.to_string s.stream_id;
    event_count = s.event_count;
    latest_version = s.latest_version;
  }

  unfoldable pub proto_to_proposed_event : ProposedMessage → Reply ProposedEvent
  proto_to_proposed_event p = do
    event_id ← parse_uuid p.event_id invalid_event_id
    reply (record {
      event_id = event_id;
      event_type = p.event_type;
      metadata = p.metadata;
      payload = p.payload;
    })

  -- `collect` into a `Result` stops at the first error.
  unfoldable pub to_proposed_events : List ProposedMessage → Reply (List ProposedEvent)
  to_proposed_events [] = reply []
  to_proposed_events (p ∷ ps) = do
    e ← proto_to_proposed_event p
    es ← to_proposed_events ps
    reply (e ∷ es)

  abbrev pub require_events : List ProposedMessage → Reply (List ProposedMessage)
  require_events [] = refuse (invalid_status events_empty)
  require_events (p ∷ ps) = reply (p ∷ ps)

  -- What `append` hands to the writer.
  unfoldable pub to_append_request : AppendMessage → Reply AppendRequest
  to_append_request req = do
    stream_id ← parse_uuid req.stream_id invalid_stream_id
    expected ← proto_to_expected_version req.expected_version
    messages ← require_events req.events
    events ← to_proposed_events messages
    reply (record { stream_id = stream_id; expected_version = expected; events = events })

  -- The response from the first and the last recorded event.
  unfoldable pub respond : Result (List RecordedEvent) → Option (Reply AppendReply)
  respond (err e) = some (refuse (error_to_status e))
  respond (ok []) = none
  respond (ok (first ∷ rest)) =
      let last = Option.get_or (get_last? (first ∷ rest)) first in
      some (
        reply (record {
          first_stream_version = first.stream_version;
          last_stream_version = last.stream_version;
          first_global_position = first.global_position;
          last_global_position = last.global_position;
        }))

  unfoldable pub on_request :
      (AppendRequest → Result (List RecordedEvent))
      → Reply AppendRequest
      → Option (Reply AppendReply)
  on_request writer (refuse s) = some (refuse s)
  on_request writer (reply req) = respond (writer req)

  -- `append`, over the answer that the writer's handle gives.
  unfoldable pub append_rpc :
      (AppendRequest → Result (List RecordedEvent)) → AppendMessage → Option (Reply AppendReply)
  append_rpc writer req = on_request writer (to_append_request req)

  abbrev pub to_messages : Result (List RecordedEvent) → Reply (List RecordedMessage)
  to_messages (ok events) = reply (map recorded_to_proto events)
  to_messages (err e) = refuse (error_to_status e)

  unfoldable pub on_stream_id :
      EventLog → ReadStreamMessage → Reply Uuid → Option (Reply (List RecordedMessage))
  on_stream_id log req (refuse s) = some (refuse s)
  on_stream_id log req (reply id) =
      Option.map to_messages (Reader.read_stream log id req.from_version req.max_count)

  unfoldable pub read_stream_rpc :
      EventLog → ReadStreamMessage → Option (Reply (List RecordedMessage))
  read_stream_rpc log req = on_stream_id log req (parse_uuid req.stream_id invalid_stream_id)

  unfoldable pub read_all_rpc : EventLog → ℕ → ℕ → List RecordedMessage
  read_all_rpc log from_position max_count =
      map recorded_to_proto (Reader.read_all log from_position max_count)

  unfoldable pub list_streams_rpc : EventLog → List StreamInfoMessage
  list_streams_rpc log = map stream_info_to_proto (Reader.list_streams log)
