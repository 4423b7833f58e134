-- ===== src/Broker/Machine/Completion.antt =====
-- src/broker.rs: the machine reaches the end of the log when the writer rests.
use eventfold_db.Common.{
  at_index, [], ℕ, zero, suc, ◌+◌, ◌-◌, ◌*◌, ◌≤◌, ◌<◌, ◌≡◌, refl, Bool, true, false, List, ◌∷◌,
  ◌++◌, Option, arith, length, take, drop, ltb, ◌⊎◌, inl, inr, Bool-cases, le_of_ltb, length-drop,
}
use native.Mathlib.Decide.{dec_lt}
use eventfold_db.Types.{RecordedEvent}
use eventfold_db.EventLog.{EventLog}
use eventfold_db.Reader.{max_u64}
use eventfold_db.Reader.Reads.{read_all_lem}
use eventfold_db.Broker.{Message, to_message, is_duplicate, catchup_batch_size}
use eventfold_db.Broker.Machine.{Phase, System, marker, poll_phase, on_recv, Step, Reach}
use eventfold_db.Broker.Batches.{taken-Counted}
use eventfold_db.Broker.Machine.Slices.{length-take-shorter}
use eventfold_db.Broker.Machine.Progress.{IsOnCourse}
use eventfold_db.Broker.Machine.Course.{Step-IsOnCourse}

abbrev pub at : EventLog → ℕ → Phase → List Message → System
at index sent phase out = record { index = index; sent = sent; phase = phase; out = out }

pub Reach-Reach : {s t u : System} → Reach s t → Reach t u → Reach s u
Reach-Reach run Reach.here = run
Reach-Reach run (Reach.and_then later step) = Reach.and_then (Reach-Reach run later) step

-- The polls that the catch-up needs at most, in a log of that length.
abbrev weight : ℕ → Phase → ℕ
weight len (Phase.reading cursor l next) = 2 * (len - cursor) + 2
weight len (Phase.yielding batch true cursor l next) = length batch + 1
weight len (Phase.yielding batch false cursor l next) =
    2 * (len - cursor - length batch) + 3 + length batch
weight len (Phase.live l next) = 0
weight len Phase.ended = 0

read-weight :
    (index : EventLog) (cursor : ℕ) (l : Option ℕ) (next : ℕ) (out : List Message)
    → length index.events ≤ max_u64
    → weight (length index.events) (poll_phase index (Phase.reading cursor l next) out).0
      < weight (length index.events) (Phase.reading cursor l next)
unfolding poll_phase
read-weight index cursor l next out typed =
    let batch = take catchup_batch_size (drop cursor index.events) in
    let at_most = length-take-shorter catchup_batch_size (drop cursor index.events) in
    let left = length-drop cursor index.events in
    elim (Bool-cases (ltb (length batch) catchup_batch_size)) [
      | inl short ↦ rw (read_all_lem index cursor catchup_batch_size typed, short) (omega arith)
      | inr full ↦
          rw (read_all_lem index cursor catchup_batch_size typed, full)
            (omega (arith, le_of_ltb _ catchup_batch_size full))
    ]

abbrev pub IsOpen : Phase → Type 0
IsOpen Phase.ended = ⊥
IsOpen _ = Unit

module _ (from registered known : ℕ) (order : registered ≤ known)
    (start : (from ≤ registered) ⊎ (from < known)) where
  abbrev OnCourse : EventLog → ℕ → Phase → List Message → Type 0
  OnCourse index sent phase out = IsOnCourse from registered known (at index sent phase out)

  -- Where a live loop can be reached.
  abbrev GoesLive : EventLog → ℕ → Phase → List Message → Type 0
  GoesLive index sent phase out =
      (l : Option ℕ) × ((next : ℕ) × ((later : List Message) × Reach (at index sent phase out)
            (at index sent (Phase.live l next) later)))

  poll_once :
      (index : EventLog) (sent : ℕ) (phase : Phase) (out : List Message)
      → OnCourse index sent phase out
      → (let (after, later) = poll_phase index phase out in
          OnCourse index sent after later
          × (GoesLive index sent after later → GoesLive index sent phase out))
  poll_once index sent phase out w =
      let (after, later) = poll_phase index phase out in
      let step : Step (at index sent phase out) (at index sent after later) = Step.poll refl in
      (
        Step-IsOnCourse from registered known order start (at index sent phase out)
            (at index sent after later) step w,
        λ (l, (next, (last_out, run))).
            (l, (next, (last_out, Reach-Reach (Reach.and_then Reach.here step) run))),
      )

  first_at :
      (index : EventLog) (sent : ℕ) (e : RecordedEvent) (batch : List RecordedEvent) (short : Bool)
      (cursor : ℕ) (l : Option ℕ) (next : ℕ) (out : List Message)
      → OnCourse index sent (Phase.yielding (e ∷ batch) short cursor l next) out
      → e.global_position ≡ cursor
  first_at index sent e batch short cursor l next out w =
      let (at_cursor, lasts, same, shown, rest, reached) = w.progress in
      (taken-Counted (λ e. e.global_position) index.events (e ∷ batch) cursor (suc (length batch))
        w.positioned rest).0

  catch_up :
      (n : ℕ) (index : EventLog) (sent : ℕ) (phase : Phase) (out : List Message)
      → weight (length index.events) phase ≤ n
      → OnCourse index sent phase out
      → IsOpen phase
      → GoesLive index sent phase out
  unfolding poll_phase
  catch_up n index sent (Phase.live l next) out few w open_phase = (l, (next, (out, Reach.here)))
  catch_up n index sent Phase.ended out few w open_phase = absurd open_phase
  catch_up zero index sent (Phase.reading cursor l next) out few w open_phase = absurd (omega arith)
  catch_up zero index sent (Phase.yielding batch true cursor l next) out few w open_phase =
      absurd (omega arith)
  catch_up zero index sent (Phase.yielding batch false cursor l next) out few w open_phase =
      absurd (omega arith)
  catch_up (suc n) index sent (Phase.reading cursor l next) out few w open_phase =
      let (good, back) = poll_once index sent (Phase.reading cursor l next) out w in
      back (
        catch_up n index sent _ out (omega (arith, read-weight index cursor l next out w.typed))
          good tt)
  catch_up (suc n) index sent (Phase.yielding [] true cursor l next) out few w open_phase =
      let (good, back) = poll_once index sent (Phase.yielding [] true cursor l next) out w in
      back (l, (next, (out ++ marker ∷ [], Reach.here)))
  catch_up (suc n) index sent (Phase.yielding [] false cursor l next) out few w open_phase =
      let (good, back) = poll_once index sent (Phase.yielding [] false cursor l next) out w in
      back (catch_up n index sent (Phase.reading cursor l next) out (omega arith) good tt)
  catch_up (suc n) index sent (Phase.yielding (e ∷ batch) true cursor l next) out few w open_phase =
      let (good, back) =
        poll_once index sent (Phase.yielding (e ∷ batch) true cursor l next) out w in
      back (catch_up n index sent _ _ (omega arith) good tt)
  catch_up (suc n) index sent (Phase.yielding (e ∷ batch) false cursor l next) out few w
        open_phase =
      let (good, back) =
        poll_once index sent (Phase.yielding (e ∷ batch) false cursor l next) out w in
      let here = first_at index sent e batch false cursor l next out w in
      back (catch_up n index sent _ _ (omega (arith, here)) good tt)

-- The writer publishes the rest.
pub publish_all :
    (n : ℕ) (index : EventLog) (sent : ℕ) (phase : Phase) (out : List Message)
    → length index.events - sent ≤ n
    → sent ≤ length index.events
    → (all : ℕ) × (all ≡ length index.events)
      × Reach (at index sent phase out) (at index all phase out)
publish_all zero index sent phase out few inside = (sent, omega arith, Reach.here)
publish_all (suc n) index sent phase out few inside = elim (dec_lt sent (length index.events)) [
  | no done ↦ (sent, omega arith, Reach.here)
  | yes more ↦
      let (all, whole, run) =
        publish_all n index (sent + 1) phase out (omega arith) (omega arith) in
      (all, whole, Reach-Reach (Reach.and_then Reach.here (Step.publish more refl)) run)
]

receive_once :
    (index : EventLog) (sent : ℕ) (l : Option ℕ) (next : ℕ) (out : List Message)
    → next < sent
    → sent ≡ length index.events
    → (later : List Message) × Step
        (at index sent (Phase.live l next) out)
        (at index sent (Phase.live l (next + 1)) later)
unfolding on_recv
receive_once index sent l next out more all =
    let (e, found) = at_index next index.events (omega arith) in
    elim (Bool-cases (is_duplicate e.global_position l)) [
      | inl old ↦ (out, Step.receive l next e refl more found (rw old refl))
      | inr new ↦ (out ++ to_message e ∷ [], Step.receive l next e refl more found (rw new refl))
    ]

-- The stream receives the rest.
receive_all :
    (n : ℕ) (index : EventLog) (sent : ℕ) (l : Option ℕ) (next : ℕ) (out : List Message)
    → length index.events - next ≤ n
    → sent ≡ length index.events
    → (last_next : ℕ) × ((later : List Message) × (length index.events ≤ last_next)
        × Reach
            (at index sent (Phase.live l next) out)
            (at index sent (Phase.live l last_next) later))
receive_all zero index sent l next out few all = (next, (out, omega arith, Reach.here))
receive_all (suc n) index sent l next out few all = elim (dec_lt next (length index.events)) [
  | no done ↦ (next, (out, omega arith, Reach.here))
  | yes more ↦
      let (later, step) = receive_once index sent l next out (omega arith) all in
      let (last_next, (last_out, whole, run)) =
        receive_all n index sent l (next + 1) later (omega arith) all in
      (last_next, (last_out, whole, Reach-Reach (Reach.and_then Reach.here step) run))
]

-- A stream that has not ended can be brought to the end of the log.
pub IsOpen-completes :
    (from registered known : ℕ)
    → registered ≤ known
    → (from ≤ registered) ⊎ (from < known)
    → (s : System) → IsOnCourse from registered known s
    → IsOpen s.phase
    → (l : Option ℕ) × ((next sent : ℕ) × ((out : List Message) × (length s.index.events ≤ next)
          × Reach s (at s.index sent (Phase.live l next) out)))
IsOpen-completes from registered known order start s w open_phase =
    let (l, (next, (out, caught))) =
      catch_up from registered known order start (weight (length s.index.events) s.phase) s.index
        s.sent s.phase s.out (omega arith) w open_phase in
    let (sent, all, published) =
      publish_all (length s.index.events) s.index s.sent (Phase.live l next) out (omega arith)
        w.inside in
    let (last_next, (last_out, whole, given)) =
      receive_all (length s.index.events) s.index sent l next out (omega arith) all in
    (l, (last_next, sent, (last_out, whole, Reach-Reach (Reach-Reach caught published) given)))
