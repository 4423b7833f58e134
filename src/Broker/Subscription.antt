-- ===== src/Broker/Subscription.antt =====
-- src/broker.rs: what the two phases of each subscription yield together.
use eventfold_db.Common.{
  [], ℕ, ◌-◌, ◌*◌, ◌≤◌, ◌<◌, ◌≡◌, ◌∙◌, refl, sym, ap, List, ◌∷◌, ◌++◌, map, some, All, arith,
  length, take, drop, length-append, take-append_le, take-append-drop, drop-append,
}
use eventfold_db.Crates.{Uuid}
use eventfold_db.Error.{ok}
use eventfold_db.Types.{RecordedEvent, SubscriptionMessage}
use eventfold_db.EventLog.{EventLog}
use eventfold_db.EventLog.WellFormed.{
  Positioned, Versioned, of_stream, of_stream-append, IsWellFormed,
}
use eventfold_db.Reader.{max_u64}
use eventfold_db.Broker.Batches.{PrefixOf}
use eventfold_db.Broker.CatchUp.{catch_up_all-catch_up, catch_up_stream-catch_up}
use eventfold_db.Broker.Live.{live_all-publish, live_stream-publish, once}
use eventfold_db.Broker.{
  catchup_batch_size, to_message, publish, subscription, subscribe_all, subscribe_stream,
}

-- A log that is an earlier state of the one with the events `all`.
abbrev pub Precedes : List RecordedEvent → EventLog → Type 0
Precedes all log = PrefixOf all log.events

-- The list of one value for each log.
module _ (f : EventLog → List RecordedEvent) where
  abbrev views : List EventLog → List (List RecordedEvent)
  views logs = map f logs

  length-views : (logs : List EventLog) → length (views logs) ≡ length logs
  length-views [] = refl
  length-views (log ∷ logs) = omega (arith, length-views logs)

  All-views :
      (P : EventLog → Type 0) (Q : List RecordedEvent → Type 0) (logs : List EventLog)
      → ((log : EventLog) → P log → Q (f log))
      → All P logs
      → All Q (views logs)
  All-views P Q [] imp h = tt
  All-views P Q (log ∷ logs) imp (h, hs) = (imp log h, All-views P Q logs imp hs)

All-imp :
    (P Q : EventLog → Type 0) (logs : List EventLog)
    → ((log : EventLog) → P log → Q log)
    → All P logs
    → All Q logs
All-imp P Q [] imp h = tt
All-imp P Q (log ∷ logs) imp (h, hs) = (imp log h, All-imp P Q logs imp hs)

shorter :
    (all : List RecordedEvent) (log : EventLog) → Precedes all log → length log.events ≤ length all
shorter all log (more, split) =
    omega (arith, ap (length {A = RecordedEvent}) split, length-append log.events more)

-- A subscription from a position that the log had when the receiver was registered, where `all` is
-- the log in the end, numbered from 0 and of fewer than 2 ^ 64 events, and what it gains after the
-- registration is received: if the reads see states of the log from then on and are enough in
-- number, the events before and after the one marker are together all events from that position
-- on, each once and in order.
pub subscribe_all_once :
    (all : List RecordedEvent) (logs : List EventLog) (from registered : ℕ)
    → Positioned 0 all
    → length all ≤ max_u64
    → from < registered
    → All (Precedes all) logs
    → All (λ log. registered ≤ length log.events) logs
    → length all - from < catchup_batch_size * length logs
    → (caught live : List RecordedEvent) × (caught ++ live ≡ drop from all)
      × (subscribe_all from logs (publish (drop registered all))
          ≡ some (map to_message caught ++ ok SubscriptionMessage.caught_up ∷ map to_message live))
unfolding subscribe_all subscription
subscribe_all_once all logs from registered positioned typed inside precede know enough =
    let key : RecordedEvent → ℕ = λ e. e.global_position in
    let events : EventLog → List RecordedEvent = λ log. log.events in
    let count = length-views events logs in
    let (caught, live, whole, done, rest) =
      once key all (views events logs) from registered positioned inside
        (All-views events (Precedes all) (PrefixOf all) logs (λ log h. h) precede)
        (All-views events (λ log. registered ≤ length log.events) (λ xs. registered ≤ length xs)
          logs (λ log h. h) know)
        (omega arith) in
    let fits =
      All-imp (Precedes all) (λ log. length log.events ≤ max_u64) logs
        (λ log h. omega (arith, shorter all log h)) precede in
    (
      caught,
      live,
      whole,
      rw (catch_up_all-catch_up logs from fits, done, live_all-publish, rest) refl,
    )

-- The events of a stream, at the moment of the registration and behind it.
registered_split :
    (id : Uuid) (all : List RecordedEvent) (registered : ℕ)
    → drop (length (of_stream id (take registered all))) (of_stream id all)
      ≡ of_stream id (drop registered all)
registered_split id all registered =
    let parts : of_stream id all
        ≡ of_stream id (take registered all) ++ of_stream id (drop registered all) =
      ap (of_stream id) (sym (take-append-drop registered all))
      ∙ of_stream-append id (take registered all) (drop registered all) in
    rw parts (drop-append _ (of_stream id (take registered all)) _ refl)

stream_prefix :
    (id : Uuid) (all : List RecordedEvent) (log : EventLog)
    → Precedes all log
    → PrefixOf (of_stream id all) (of_stream id log.events)
stream_prefix id all log (more, split) =
    (of_stream id more, ap (of_stream id) split ∙ of_stream-append id log.events more)

known_in :
    (id : Uuid) (all : List RecordedEvent) (registered : ℕ) (log : EventLog)
    → Precedes all log × (registered ≤ length log.events)
    → length (of_stream id (take registered all)) ≤ length (of_stream id log.events)
known_in id all registered log ((more, split), inside) =
    let parts : of_stream id log.events
        ≡ of_stream id (take registered log.events) ++ of_stream id (drop registered log.events) =
      ap (of_stream id) (sym (take-append-drop registered log.events))
      ∙ of_stream-append id (take registered log.events) (drop registered log.events) in
    let same : take registered all ≡ take registered log.events =
      ap (take registered) split ∙ take-append_le registered log.events more inside in
    rw same (
      omega (
        arith,
        ap (length {A = RecordedEvent}) parts,
        length-append (of_stream id (take registered log.events))
            (of_stream id (drop registered log.events)),
      ))

-- A subscription to a stream from a version that the stream had when the receiver was registered,
-- where `all` is the log in the end, of fewer than 2 ^ 64 events, the stream's numbered from 0, and
-- what it gains after the registration is received: if the reads see well-formed states of the log
-- from then on and are enough in number, the events before and after the one marker are together
-- all events of the stream from that version on, each once and in order, and no others.
pub subscribe_stream_once :
    (id : Uuid) (all : List RecordedEvent) (logs : List EventLog) (from registered : ℕ)
    → Versioned 0 (of_stream id all)
    → length all ≤ max_u64
    → from < length (of_stream id (take registered all))
    → All (λ log. IsWellFormed log × Precedes all log × (registered ≤ length log.events)) logs
    → length (of_stream id all) - from < catchup_batch_size * length logs
    → (caught live : List RecordedEvent) × (caught ++ live ≡ drop from (of_stream id all))
      × (subscribe_stream id from logs (publish (drop registered all))
          ≡ some (map to_message caught ++ ok SubscriptionMessage.caught_up ∷ map to_message live))
unfolding subscribe_stream subscription
subscribe_stream_once id all logs from registered versioned typed inside states enough =
    let view : EventLog → List RecordedEvent = λ log. of_stream id log.events in
    let State : EventLog → Type 0 =
      λ log. IsWellFormed log × Precedes all log × (registered ≤ length log.events) in
    let known = length (of_stream id (take registered all)) in
    let count = length-views view logs in
    let (caught, live, whole, done, rest) =
      once (λ e. e.stream_version) (of_stream id all) (views view logs) from known versioned inside
        (All-views view State (PrefixOf (of_stream id all)) logs
          (λ log h. stream_prefix id all log h.1) states)
        (All-views view State (λ xs. known ≤ length xs) logs
          (λ log h. known_in id all registered log (h.1, h.2)) states)
        (omega arith) in
    let fits =
      All-imp State (λ log. IsWellFormed log × (length log.events ≤ max_u64)) logs
        (λ log h. (h.0, omega (arith, shorter all log h.1))) states in
    (
      caught,
      live,
      whole,
      rw
          (
            catch_up_stream-catch_up id logs from fits,
            done,
            live_stream-publish,
            ← registered_split id all registered,
            rest,
          )
          refl,
    )
