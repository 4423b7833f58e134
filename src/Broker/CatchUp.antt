-- ===== src/Broker/CatchUp.antt =====
-- src/broker.rs: the catch-up of both subscriptions reads everything from its cursor on, without a
-- gap.
use eventfold_db.Common.{
  [], ℕ, zero, suc, ◌+◌, ◌-◌, ◌*◌, ◌≤◌, ◌<◌, ◌≡◌, ◌∙◌, refl, ap, List, ◌∷◌, ◌++◌, map, Option, none,
  some, All, arith, length, take, drop, ltb, ltb_of_lt, ltb_of_le, if◌then◌else◌, length-append,
}
use native.Mathlib.Decide.{dec_lt}
use eventfold_db.Crates.{Uuid}
use eventfold_db.Types.{RecordedEvent}
use eventfold_db.EventLog.{EventLog}
use eventfold_db.EventLog.WellFormed.{Counted, of_stream, IsWellFormed}
use eventfold_db.Reader.{max_u64}
use eventfold_db.Reader.Reads.{read_all_lem, stream_answer, read_stream_lem}
use eventfold_db.Broker.Batches.{
  PrefixOf, Reaches, taken-Counted, advance_lem, last_read, full_read, Reaches-next,
}
use eventfold_db.Broker.{
  catchup_batch_size, Caught, before, advance, catch_up_all, on_read, events_of, catch_up_stream,
}

-- A catch-up over the lists of events that its reads see.
pub catch_up : (RecordedEvent → ℕ) → ℕ → List (List RecordedEvent) → Option Caught
catch_up key cursor [] = none
catch_up key cursor (xs ∷ xss) =
    let batch = take catchup_batch_size (drop cursor xs) in
    let rest = catch_up key (advance key cursor batch) xss in
    if ltb (length batch) catchup_batch_size then some (batch, none) else before batch rest

pub catch_up_all-catch_up :
    (logs : List EventLog) (cursor : ℕ)
    → All (λ log. length log.events ≤ max_u64) logs
    → catch_up_all cursor logs
      ≡ catch_up (λ e. e.global_position) cursor (map (λ log. log.events) logs)
unfolding catch_up_all catch_up
catch_up_all-catch_up [] cursor typed = refl
catch_up_all-catch_up (log ∷ logs) cursor (fits, typed) =
    rw
      (
        read_all_lem log cursor catchup_batch_size fits,
        catch_up_all-catch_up logs
            (advance (λ e. e.global_position) cursor
              (take catchup_batch_size (drop cursor log.events)))
            typed,
      )
      refl

none_left {ℓ} : {A : Type ℓ} → (k cursor : ℕ) → take {A = A} k (drop cursor []) ≡ []
unfolding take drop
none_left zero cursor = refl
none_left (suc k) zero = refl
none_left (suc k) (suc cursor) = refl

-- What `subscribe_stream` does with the answer of a read, an answer that there is no such stream
-- included.
on_read-stream_answer :
    (id : Uuid) (cursor : ℕ) (xs : List RecordedEvent) (f : List RecordedEvent → Option Caught)
    → on_read
        (some (stream_answer id cursor catchup_batch_size xs))
        (f (events_of (some (stream_answer id cursor catchup_batch_size xs))))
      ≡ (if ltb (length (take catchup_batch_size (drop cursor xs))) catchup_batch_size
          then some (take catchup_batch_size (drop cursor xs), none)
          else before
              (take catchup_batch_size (drop cursor xs))
              (f (take catchup_batch_size (drop cursor xs))))
unfolding on_read
on_read-stream_answer id cursor [] f =
    rw (none_left {A = RecordedEvent} catchup_batch_size cursor) refl
on_read-stream_answer id cursor (x ∷ xs) f = refl

pub catch_up_stream-catch_up :
    (id : Uuid) (logs : List EventLog) (cursor : ℕ)
    → All (λ log. IsWellFormed log × (length log.events ≤ max_u64)) logs
    → catch_up_stream id cursor logs
      ≡ catch_up (λ e. e.stream_version) cursor (map (λ log. of_stream id log.events) logs)
unfolding catch_up_stream catch_up
catch_up_stream-catch_up id [] cursor h = refl
catch_up_stream-catch_up id (log ∷ logs) cursor ((formed, fits), h) =
    rw
      (
        read_stream_lem log id cursor catchup_batch_size formed fits,
        ← catch_up_stream-catch_up id logs
            (advance (λ e. e.stream_version) cursor
              (take catchup_batch_size (drop cursor (of_stream id log.events))))
            h,
      )
      (on_read-stream_answer id cursor (of_stream id log.events)
        (λ batch. catch_up_stream id (advance (λ e. e.stream_version) cursor batch) logs))

module _ (key : RecordedEvent → ℕ) where
  -- A full read, and the reads after it.
  catch_up-full :
      (xs more : List RecordedEvent) (xss : List (List RecordedEvent)) (cursor : ℕ)
      (es : List RecordedEvent)
      → Counted key 0 (xs ++ more)
      → catchup_batch_size ≤ length (take catchup_batch_size (drop cursor xs))
      → catch_up key (cursor + catchup_batch_size) xss ≡ some (es, none)
      → catch_up key cursor (xs ∷ xss)
        ≡ some (take catchup_batch_size (drop cursor (xs ++ more)) ++ es, none)
  unfolding catch_up
  catch_up-full xs more xss cursor es counted full later =
      let batch = take catchup_batch_size (drop cursor xs) in
      let (same, size, inside) = full_read cursor catchup_batch_size xs more (omega arith) full in
      let next : advance key cursor batch ≡ cursor + catchup_batch_size =
        advance_lem key cursor batch
          (taken-Counted key (xs ++ more) batch cursor catchup_batch_size counted same)
        ∙ ap (λ n. cursor + n) size in
      rw (ltb_of_le (length batch) catchup_batch_size full, next, later, same) refl

  catch_up-short :
      (xs : List RecordedEvent) (xss : List (List RecordedEvent)) (cursor : ℕ)
      → length (take catchup_batch_size (drop cursor xs)) < catchup_batch_size
      → catch_up key cursor (xs ∷ xss) ≡ some (take catchup_batch_size (drop cursor xs), none)
  unfolding catch_up
  catch_up-short xs xss cursor short =
      rw (ltb_of_lt (length (take catchup_batch_size (drop cursor xs))) catchup_batch_size short)
        refl

  then_full :
      (all xs more : List RecordedEvent) (xss : List (List RecordedEvent)) (cursor : ℕ)
      (es : List RecordedEvent)
      → all ≡ xs ++ more
      → Counted key 0 all
      → catchup_batch_size ≤ length (take catchup_batch_size (drop cursor xs))
      → catch_up key (cursor + catchup_batch_size) xss ≡ some (es, none)
      → catch_up key cursor (xs ∷ xss)
        ≡ some (take catchup_batch_size (drop cursor all) ++ es, none)
  then_full all xs more xss cursor es split counted full later =
      rw split (catch_up-full xs more xss cursor es (rw split at counted) full later)

  -- The catch-up reads all events from the cursor on, if it is given enough reads.
  pub catch_up_lem :
      (all : List RecordedEvent) (known : ℕ) (xss : List (List RecordedEvent)) (cursor : ℕ)
      → Counted key 0 all
      → All (PrefixOf all) xss
      → All (λ xs. known ≤ length xs) xss
      → length all - cursor < catchup_batch_size * length xss
      → (es : List RecordedEvent) × (catch_up key cursor xss ≡ some (es, none))
        × Reaches all known cursor es
  catch_up_lem all known [] cursor counted prefixes knows enough = absurd (omega arith)
  catch_up_lem all known (xs ∷ xss) cursor counted ((more, split), prefixes) (knows, know) enough =
      let whole : length all ≡ length xs + length more =
        ap (length {A = RecordedEvent}) split ∙ length-append xs more in
      let batch = take catchup_batch_size (drop cursor xs) in
      elim (dec_lt (length batch) catchup_batch_size) [
        | yes short ↦
            let (exact, reached) = last_read cursor catchup_batch_size xs more short in
            (batch, catch_up-short xs xss cursor short, (rw split exact, omega arith))
        | no full ↦
            let (same, size, inside) =
              full_read cursor catchup_batch_size xs more (omega arith) (omega arith) in
            let (es, later, reaches) =
              catch_up_lem all known xss (cursor + catchup_batch_size) counted prefixes know
                (omega arith) in
            (
              take catchup_batch_size (drop cursor all) ++ es,
              then_full all xs more xss cursor es split counted (omega arith) later,
              Reaches-next all known cursor catchup_batch_size es (omega arith) reaches,
            )
      ]
