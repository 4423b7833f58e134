-- ===== src/Service/Subscribe.antt =====
-- src/service.rs: the two subscription handlers, which map what the broker's streams yield.
use eventfold_db.Common.{
  ◌^◌, take, [], ℕ, ◌-◌, ◌*◌, ◌≤◌, ◌<◌, ◌≡◌, ◌∙◌, refl, ap, List, ◌∷◌, ◌++◌, map, Option, some, All,
  length, drop,
}
use mathlib.Core.Option
use eventfold_db.Crates.{UuidCrate, Uuid}
use eventfold_db.Error.{ok, err}
use eventfold_db.Types.{RecordedEvent, SubscriptionMessage}
use eventfold_db.EventLog.{EventLog}
use eventfold_db.EventLog.WellFormed.{Positioned, Versioned, of_stream, IsWellFormed}
use eventfold_db.Reader.{max_u64}
use eventfold_db.Broker
use eventfold_db.Broker.{Recv, Message, to_message, publish, catchup_batch_size}
use eventfold_db.Broker.Subscription.{Precedes, subscribe_all_once, subscribe_stream_once}
use eventfold_db.Service.Messages.{Content, SubscribeMessage, SubscribeStreamMessage}
use eventfold_db.Service.{
  Reply, reply, refuse, StatusText, error_to_status, parse_uuid, recorded_to_proto,
}

module _ ⦃uuid : UuidCrate⦄ where
  abbrev pub event_response : RecordedEvent → Reply SubscribeMessage
  event_response e = reply (record { content = some (Content.event (recorded_to_proto e)) })

  abbrev pub caught_up_response : Reply SubscribeMessage
  caught_up_response = reply (record { content = some Content.caught_up })

  -- The loop of a handler: an error ends the stream.
  unfoldable pub forward : List Message → List (Reply SubscribeMessage)
  forward [] = []
  forward (ok (SubscriptionMessage.event e) ∷ items) = event_response e ∷ forward items
  forward (ok SubscriptionMessage.caught_up ∷ items) = caught_up_response ∷ forward items
  forward (err e ∷ items) = refuse (error_to_status e) ∷ []

  -- `subscribe_all`, over the logs that its reads see and what its receiver gives.
  unfoldable pub subscribe_all_rpc :
      ℕ → List EventLog → List Recv → Option (List (Reply SubscribeMessage))
  subscribe_all_rpc from_position logs recvs =
      Option.map forward (Broker.subscribe_all from_position logs recvs)

  unfoldable pub on_stream :
      ℕ → List EventLog → List Recv → Reply Uuid → Option (Reply (List (Reply SubscribeMessage)))
  on_stream from_version logs recvs (refuse s) = some (refuse s)
  on_stream from_version logs recvs (reply id) =
      Option.map (λ items. reply (forward items))
        (Broker.subscribe_stream id from_version logs recvs)

  -- `subscribe_stream`: a bad identifier is refused before there is a stream.
  unfoldable pub subscribe_stream_rpc :
      SubscribeStreamMessage
      → List EventLog
      → List Recv
      → Option (Reply (List (Reply SubscribeMessage)))
  subscribe_stream_rpc req logs recvs =
      on_stream req.from_version logs recvs (parse_uuid req.stream_id StatusText.invalid_stream_id)

  forward-events :
      (es : List RecordedEvent) (rest : List Message)
      → forward (map to_message es ++ rest) ≡ map event_response es ++ forward rest
  unfolding forward
  forward-events [] rest = refl
  forward-events (e ∷ es) rest = ap (◌∷◌ (event_response e)) (forward-events es rest)

  forward-all : (es : List RecordedEvent) → forward (map to_message es) ≡ map event_response es
  unfolding forward
  forward-all [] = refl
  forward-all (e ∷ es) = ap (◌∷◌ (event_response e)) (forward-all es)

  -- What the broker yields around the marker, as responses.
  forward-phases :
      (caught live : List RecordedEvent)
      → forward (map to_message caught ++ ok SubscriptionMessage.caught_up ∷ map to_message live)
        ≡ map event_response caught ++ caught_up_response ∷ map event_response live
  forward-phases caught live =
      forward-events caught (ok SubscriptionMessage.caught_up ∷ map to_message live)
      ∙ unfold forward in
        ap (λ rest. map event_response caught ++ caught_up_response ∷ rest) (forward-all live)

  -- `SubscribeAll` over a growing log, where `all` is the log in the end, numbered from 0 and of
  -- fewer than 2 ^ 64 events, from a position that it had when the receiver was registered: if the
  -- reads see states of the log from then on and are enough in number, and what the log gains after
  -- the registration is received, the responses are an event for each event from that position on,
  -- once and in order, with one caught-up marker among them, and no error.
  pub subscribe_all_rpc_once :
      (all : List RecordedEvent) (logs : List EventLog) (from registered : ℕ)
      → Positioned 0 all
      → length all ≤ max_u64
      → from < registered
      → All (Precedes all) logs
      → All (λ log. registered ≤ length log.events) logs
      → length all - from < catchup_batch_size * length logs
      → (caught live : List RecordedEvent) × (caught ++ live ≡ drop from all)
        × (subscribe_all_rpc from logs (publish (drop registered all))
            ≡ some (map event_response caught ++ caught_up_response ∷ map event_response live))
  unfolding subscribe_all_rpc
  subscribe_all_rpc_once all logs from registered positioned typed inside precede know enough =
      let (caught, live, whole, run) =
        subscribe_all_once all logs from registered positioned typed inside precede know enough in
      (caught, live, whole, rw run (ap some (forward-phases caught live)))

  parsed :
      (id : Uuid)
      → id < 2 ^ 128
      → parse_uuid (uuid.to_string id) StatusText.invalid_stream_id ≡ reply id
  unfolding parse_uuid
  parsed id typed = rw (uuid.parse-to_string id typed) refl

  -- `SubscribeStream` with the text of a stream's identifier, over a growing log, where `all` is the
  -- log in the end, of fewer than 2 ^ 64 events, the stream's numbered from 0, from a version that
  -- the stream had when the receiver was registered: if the reads see well-formed states of the log
  -- from then on and are enough in number, and what the log gains after the registration is
  -- received, the responses are an event for each event of the stream from that version on, once
  -- and in order, with one caught-up marker among them, and no other event and no error.
  pub subscribe_stream_rpc_once :
      (id : Uuid) (all : List RecordedEvent) (logs : List EventLog) (from registered : ℕ)
      → id < 2 ^ 128
      → Versioned 0 (of_stream id all)
      → length all ≤ max_u64
      → from < length (of_stream id (take registered all))
      → All (λ log. IsWellFormed log × Precedes all log × (registered ≤ length log.events)) logs
      → length (of_stream id all) - from < catchup_batch_size * length logs
      → (caught live : List RecordedEvent) × (caught ++ live ≡ drop from (of_stream id all))
        × (subscribe_stream_rpc
              (record { stream_id = uuid.to_string id; from_version = from })
              logs
              (publish (drop registered all))
            ≡ some
                (reply (map event_response caught ++ caught_up_response ∷ map event_response live)))
  unfolding subscribe_stream_rpc on_stream
  subscribe_stream_rpc_once id all logs from registered typed versioned small inside states enough =
      let (caught, live, whole, run) =
        subscribe_stream_once id all logs from registered versioned small inside states enough in
      (
        caught,
        live,
        whole,
        rw (parsed id typed, run) (ap (λ items. some (reply items)) (forward-phases caught live)),
      )
