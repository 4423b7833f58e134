-- ===== src/Console/Client.antt =====
-- eventfold-console/src/client.rs: what the client makes of the service's answers, and the task that
-- passes a subscription on to the render loop.
use eventfold_db.Common.{[], ℕ, zero, suc, List, ◌∷◌, map, Option, none, some, ◌==◌, if◌then◌else◌}
use eventfold_db.Service.Messages.{RecordedMessage, StreamInfoMessage, Content, SubscribeMessage}
use eventfold_db.Service.{Reply, reply, refuse, Status}
use eventfold_db.Console.App.{EventRecord, StreamInfo}

unfoldable pub proto_to_event_record : RecordedMessage → EventRecord
proto_to_event_record p = record {
  event_id = p.event_id;
  stream_id = p.stream_id;
  stream_version = p.stream_version;
  global_position = p.global_position;
  recorded_at = p.recorded_at;
  event_type = p.event_type;
  metadata = p.metadata;
  payload = p.payload;
}

abbrev pub to_stream_info : StreamInfoMessage → StreamInfo
to_stream_info s = record {
  stream_id = s.stream_id;
  event_count = s.event_count;
  latest_version = s.latest_version;
}

-- The calls that the client makes, as the service answers them at that moment.
pub record Answers : Type 0 where
  pub on_read_all : ℕ → ℕ → Reply (List RecordedMessage)
  pub on_read_stream : List ℕ → ℕ → ℕ → Reply (List RecordedMessage)
  pub on_list_streams : Reply (List StreamInfoMessage)

abbrev pub map_reply {ℓ κ} : {A : Type ℓ} {B : Type κ} → (A → B) → Reply (List A) → Reply (List B)
map_reply f (reply xs) = reply (map f xs)
map_reply f (refuse s) = refuse s

unfoldable pub read_all : Answers → ℕ → ℕ → Reply (List EventRecord)
read_all answers from_position max_count =
    map_reply proto_to_event_record (answers.on_read_all from_position max_count)

unfoldable pub read_stream : Answers → List ℕ → ℕ → ℕ → Reply (List EventRecord)
read_stream answers stream_id from_version max_count =
    map_reply proto_to_event_record (answers.on_read_stream stream_id from_version max_count)

unfoldable pub list_streams : Answers → Reply (List StreamInfo)
list_streams answers = map_reply to_stream_info answers.on_list_streams

pub data SubscriptionMsg : Type 0 where
  event : EventRecord → SubscriptionMsg
  caught_up : SubscriptionMsg
  error : Status → SubscriptionMsg

-- The message for a response; one without content is skipped.
abbrev pub message_of : Option Content → Option SubscriptionMsg
message_of none = none
message_of (some (Content.event proto_event)) =
    some (SubscriptionMsg.event (proto_to_event_record proto_event))
message_of (some Content.caught_up) = some SubscriptionMsg.caught_up

-- tokio: what a `blocking_send` from a task of the runtime delivers, `none` when it panics.
module _ (blocking_send : SubscriptionMsg → Option SubscriptionMsg) where
  abbrev reported : Option SubscriptionMsg → List SubscriptionMsg
  reported none = []
  reported (some msg) = msg ∷ []

  -- The loop, over what the stream yields, with a channel that takes that many more messages before
  -- the render loop closes it.
  unfoldable pub pass_on : ℕ → List (Reply SubscribeMessage) → List SubscriptionMsg
  pass_on sends [] = []
  pass_on sends (refuse e ∷ responses) = reported (blocking_send (SubscriptionMsg.error e))
  pass_on sends (reply resp ∷ responses) = elim (message_of resp.content) [
    | none ↦ pass_on sends responses
    | some msg ↦ elim sends [ zero ↦ [] | suc left ↦ msg ∷ pass_on left responses ]
  ]

  -- `spawn_subscription`: the messages that reach the channel.
  unfoldable pub spawn_subscription :
      ℕ → Reply (List (Reply SubscribeMessage)) → List SubscriptionMsg
  spawn_subscription sends (refuse e) = if sends == 0 then [] else SubscriptionMsg.error e ∷ []
  spawn_subscription sends (reply stream) = pass_on sends stream
