-- ===== src/Broker.antt =====
-- src/broker.rs: the subscriptions. A subscription is a function of what happens around it: the
-- log at each read of the catch-up phase, which grows meanwhile, and what its receiver of the
-- broadcast channel, registered before the first read, gives in the live phase. The result is the
-- messages that the stream yields until it ends or waits; `none` stands for a catch-up that
-- needs more reads than are given, or a panic of a read.
pub mod Batches
pub mod CatchUp
pub mod Live
pub mod Subscription
pub mod Machine
use eventfold_db.Common.{
  [], ℕ, ◌+◌, Bool, false, List, ◌∷◌, ◌++◌, map, Option, none, some, length, leb, ltb, ◌==◌,
  if◌then◌else◌,
}
use mathlib.Core.List.{get_last?}
use mathlib.Core.Option
use eventfold_db.Crates.{Uuid}
use eventfold_db.Error.{
  Error, Result, ok, err, stream_not_found, invalid_argument, subscription_lagged,
}
use eventfold_db.Types.{RecordedEvent, SubscriptionMessage}
use eventfold_db.EventLog.{EventLog}
use eventfold_db.Reader.{read_all, read_stream}

abbrev pub catchup_batch_size : ℕ
catchup_batch_size = 500

-- What `recv` gives.
pub data Recv : Type 0 where
  received : RecordedEvent → Recv
  lagged : ℕ → Recv
  closed : Recv

abbrev pub Message : Type 0
Message = Result SubscriptionMessage

abbrev pub to_message : RecordedEvent → Message
to_message e = ok (SubscriptionMessage.event e)

-- `publish`: each event is sent on its own, in order.
unfoldable pub publish : List RecordedEvent → List Recv
publish events = map received events

-- The catch-up: the events that it yields, in order, or the error that ends the stream.
abbrev pub Caught : Type 0
Caught = List RecordedEvent × Option Error

abbrev pub before : List RecordedEvent → Option Caught → Option Caught
before batch rest = Option.map (λ (later, e). (batch ++ later, e)) rest

-- The cursor moves behind the last event of the batch.
abbrev pub advance : (RecordedEvent → ℕ) → ℕ → List RecordedEvent → ℕ
advance key cursor batch = Option.get_or (Option.map (λ e. key e + 1) (get_last? batch)) cursor

-- The catch-up of `subscribe_all`, over the logs that its reads see.
unfoldable pub catch_up_all : ℕ → List EventLog → Option Caught
catch_up_all cursor [] = none
catch_up_all cursor (log ∷ logs) =
    let batch = read_all log cursor catchup_batch_size in
    let rest = catch_up_all (advance (λ e. e.global_position) cursor batch) logs in
    if ltb (length batch) catchup_batch_size then some (batch, none) else before batch rest

-- What `subscribe_stream` does with a read; the rest of the catch-up is given.
unfoldable pub on_read : Option (Result (List RecordedEvent)) → Option Caught → Option Caught
on_read none rest = none
on_read (some (ok batch)) rest =
    if ltb (length batch) catchup_batch_size then some (batch, none) else before batch rest
on_read (some (err (stream_not_found id))) rest = some ([], none)
on_read (some (err e)) rest = some ([], some e)

abbrev pub events_of : Option (Result (List RecordedEvent)) → List RecordedEvent
events_of (some (ok batch)) = batch
events_of _ = []

-- The catch-up of `subscribe_stream`.
unfoldable pub catch_up_stream : Uuid → ℕ → List EventLog → Option Caught
catch_up_stream id cursor [] = none
catch_up_stream id cursor (log ∷ logs) =
    let answer = read_stream log id cursor catchup_batch_size in
    on_read answer
      (catch_up_stream id (advance (λ e. e.stream_version) cursor (events_of answer)) logs)

-- `if let Some(last) = last_catchup && key <= last { continue }`
abbrev pub is_duplicate : ℕ → Option ℕ → Bool
is_duplicate key none = false
is_duplicate key (some last) = leb key last

-- The live phase of `subscribe_all`.
unfoldable pub live_all : Option ℕ → List Recv → List Message
live_all last [] = []
live_all last (received e ∷ recvs) =
    let rest = live_all last recvs in
    if is_duplicate e.global_position last then rest else to_message e ∷ rest
live_all last (lagged n ∷ recvs) = err (invalid_argument subscription_lagged) ∷ []
live_all last (closed ∷ recvs) = []

-- The live phase of `subscribe_stream`.
unfoldable pub live_stream : Uuid → Option ℕ → List Recv → List Message
live_stream id last [] = []
live_stream id last (received e ∷ recvs) =
    let rest = live_stream id last recvs in
    if e.stream_id == id
    then if is_duplicate e.stream_version last then rest else to_message e ∷ rest
    else rest
live_stream id last (lagged n ∷ recvs) = err (invalid_argument subscription_lagged) ∷ []
live_stream id last (closed ∷ recvs) = []

-- The marker and the live phase follow a catch-up without an error.
unfoldable pub subscription :
    (RecordedEvent → ℕ) → (Option ℕ → List Message) → Caught → List Message
subscription key live (events, some e) = map to_message events ++ err e ∷ []
subscription key live (events, none) =
    map to_message events
    ++ ok SubscriptionMessage.caught_up ∷ live (Option.map key (get_last? events))

unfoldable pub subscribe_all : ℕ → List EventLog → List Recv → Option (List Message)
subscribe_all from_position logs recvs =
    Option.map (subscription (λ e. e.global_position) (λ last. live_all last recvs))
      (catch_up_all from_position logs)

unfoldable pub subscribe_stream : Uuid → ℕ → List EventLog → List Recv → Option (List Message)
subscribe_stream id from_version logs recvs =
    Option.map (subscription (λ e. e.stream_version) (λ last. live_stream id last recvs))
      (catch_up_stream id from_version logs)
