-- ===== src/Broker/Machine.antt =====
-- src/broker.rs: `subscribe_all` as a machine that runs beside the writer. A poll makes one step of
-- the catch-up, a received message one round of the live loop; the writer appends to the index and
-- publishes behind it whenever it likes.
pub mod Slices
pub mod Progress
pub mod Rounds
pub mod Course
pub mod Completion
pub mod Delivery
use eventfold_db.Common.{
  [], ℕ, ◌+◌, ◌≤◌, ◌<◌, ◌≡◌, Bool, true, false, List, ◌∷◌, ◌++◌, Option, none, some, length,
  get_elem?, ltb, if◌then◌else◌,
}
use eventfold_db.Error.{ok, err, invalid_argument, subscription_lagged}
use eventfold_db.Types.{RecordedEvent, SubscriptionMessage}
use eventfold_db.EventLog.{EventLog}
use eventfold_db.EventLog.WellFormed.{Positioned}
use eventfold_db.Reader.{max_u64, read_all}
use eventfold_db.Broker.{
  Recv, received, lagged, closed, Message, to_message, is_duplicate, catchup_batch_size,
}

-- Where the stream stands, with the cursor, the last position of the catch-up and the number of the
-- next message of its receiver: before a read; among the events of a batch, which is short or full;
-- in the live loop; behind its end.
pub data Phase : Type 0 where
  reading : ℕ → Option ℕ → ℕ → Phase
  yielding : List RecordedEvent → Bool → ℕ → Option ℕ → ℕ → Phase
  live : Option ℕ → ℕ → Phase
  ended : Phase

-- The index, how many of its events have been published, and the stream with what it has yielded.
pub record System : Type 0 where
  pub index : EventLog
  pub sent : ℕ
  pub phase : Phase
  pub out : List Message

-- The receiver is registered when the stream is made, before any read.
abbrev pub subscribed : EventLog → ℕ → ℕ → System
subscribed index sent from_position = record {
  index = index;
  sent = sent;
  phase = reading from_position none sent;
  out = [];
}

abbrev pub marker : Message
marker = ok SubscriptionMessage.caught_up

abbrev pub lag_error : Message
lag_error = err (invalid_argument subscription_lagged)

-- One step of the catch-up.
unfoldable pub poll_phase : EventLog → Phase → List Message → Phase × List Message
poll_phase index (reading cursor last next) out =
    let batch = read_all index cursor catchup_batch_size in
    (yielding batch (ltb (length batch) catchup_batch_size) cursor last next, out)
poll_phase index (yielding (e ∷ batch) short cursor last next) out = (
  yielding batch short (e.global_position + 1) (some e.global_position) next,
  out ++ to_message e ∷ [],
)
poll_phase index (yielding [] false cursor last next) out = (reading cursor last next, out)
poll_phase index (yielding [] true cursor last next) out = (live last next, out ++ marker ∷ [])
poll_phase index (live last next) out = (live last next, out)
poll_phase index ended out = (ended, out)

-- One round of the live loop, for what the receiver gives.
unfoldable pub on_recv : Recv → Phase → List Message → Phase × List Message
on_recv (received e) (live last next) out =
    if is_duplicate e.global_position last
    then (live last (next + 1), out)
    else (live last (next + 1), out ++ to_message e ∷ [])
on_recv (lagged n) (live last next) out = (ended, out ++ lag_error ∷ [])
on_recv closed (live last next) out = (ended, out)
on_recv r phase out = (phase, out)

abbrev pub at_phase : System → Phase × List Message → System
at_phase s (phase, out) = record s { phase = phase; out = out }

-- What can happen next. The receiver gives the published events in their order, one by one, unless
-- it lags or the channel is closed.
pub data Step (s t : System) : Type 0 where
  append :
      (index : EventLog) (es : List RecordedEvent)
      → index.events ≡ s.index.events ++ es
      → Positioned (length s.index.events) es
      → length index.events ≤ max_u64
      → t ≡ record s { index = index }
      → Step s t
  publish : s.sent < length s.index.events → t ≡ record s { sent = s.sent + 1 } → Step s t
  poll : t ≡ at_phase s (poll_phase s.index s.phase s.out) → Step s t
  receive :
      (last : Option ℕ) (next : ℕ) (e : RecordedEvent)
      → s.phase ≡ live last next
      → next < s.sent
      → get_elem? s.index.events next ≡ some e
      → t ≡ at_phase s (on_recv (received e) s.phase s.out)
      → Step s t
  lag :
      (last : Option ℕ) (next missed : ℕ)
      → s.phase ≡ live last next
      → t ≡ at_phase s (on_recv (lagged missed) s.phase s.out)
      → Step s t
  close :
      (last : Option ℕ) (next : ℕ)
      → s.phase ≡ live last next
      → t ≡ at_phase s (on_recv closed s.phase s.out)
      → Step s t

pub data Reach (s : System) : System → Type 0 where
  here : Reach s s
  and_then : {t u : System} → Reach s t → Step t u → Reach s u
