-- ===== src/Broker/Machine/Delivery.antt =====
-- src/broker.rs: what a subscriber of the machine has been given in any reachable state.
use eventfold_db.Common.{
  length-drop, take_of_length-le, [], ℕ, ◌+◌, ◌-◌, ◌≤◌, ◌<◌, ◌≡◌, ◌∙◌, refl, sym, ap, List, ◌∷◌,
  ◌++◌, map, arith, length, take, drop, ◌⊎◌, inl, inr, append-nil,
}
use native.Mathlib.Decide.{dec_lt}
use eventfold_db.Types.{RecordedEvent}
use eventfold_db.EventLog.{EventLog}
use eventfold_db.EventLog.WellFormed.{Positioned}
use eventfold_db.Reader.{max_u64}
use eventfold_db.Broker.{Message, to_message}
use eventfold_db.Broker.Machine.{Phase, System, marker, lag_error, Reach, subscribed}
use eventfold_db.Broker.Machine.Slices.{between, between-join}
use eventfold_db.Broker.Machine.Progress.{Progress, IsOnCourse, none_to, yielded}
use eventfold_db.Broker.Machine.Course.{Reach-IsOnCourse}
use eventfold_db.Broker.Machine.Completion.{Reach-Reach, at, IsOpen, IsOpen-completes}

-- The number of the next message, once the stream is live.
abbrev pub received_to : Phase → ℕ
received_to (Phase.live last_position next) = next
received_to _ = 0

-- What is yielded, by the phase, of the events before and after the marker.
abbrev pub Shows : Phase → List Message → List RecordedEvent → List RecordedEvent → Type 0
Shows (Phase.reading cursor last_position next) out caught live =
    (out ≡ map to_message caught) × (live ≡ [])
Shows (Phase.yielding batch short cursor last_position next) out caught live =
    (out ≡ map to_message caught) × (live ≡ [])
Shows (Phase.live last_position next) out caught live =
    out ≡ map to_message caught ++ marker ∷ map to_message live
Shows Phase.ended out caught live =
    (out ≡ map to_message caught ++ marker ∷ map to_message live)
    ⊎ (out ≡ (map to_message caught ++ marker ∷ map to_message live) ++ lag_error ∷ [])

none_between :
    (cursor next : ℕ) (es : List RecordedEvent) → next ≤ cursor → between cursor next es ≡ []
unfolding take
none_between cursor next es h = let nothing : next - cursor ≡ 0 = omega arith in rw nothing refl

-- The events before and after the marker are one part of the log.
whole :
    (from cursor next : ℕ) (es : List RecordedEvent)
    → from ≤ cursor
    → (k : ℕ) × (between from cursor es ++ between cursor next es ≡ take k (drop from es))
      × (next ≤ from + k)
whole from cursor next es h = elim (dec_lt next cursor) [
  | yes before ↦ (
    cursor - from,
    ap (λ xs. between from cursor es ++ xs) (none_between cursor next es (omega arith))
        ∙ append-nil _,
    omega arith,
  )
  | no after ↦ (next - from, sym (between-join from cursor next es h (omega arith)), omega arith)
]

given :
    (from registered known sent : ℕ) (es : List RecordedEvent) (phase : Phase) (out : List Message)
    → Progress from registered known es sent phase out
    → (caught live : List RecordedEvent) × ((k : ℕ) × (Shows phase out caught live
          × (caught ++ live ≡ take k (drop from es))
          × (received_to phase ≤ from + k)))
given from registered known sent es (Phase.reading cursor l next) out
      (at_cursor, lasts, same, shown) =
    (between from cursor es, [], (cursor - from, ((shown, refl), append-nil _, omega arith)))
given from registered known sent es (Phase.yielding batch short cursor l next) out
      (at_cursor, lasts, same, shown, rest, reached) =
    (between from cursor es, [], (cursor - from, ((shown, refl), append-nil _, omega arith)))
given from registered known sent es (Phase.live l next) out
      (cursor, ((low, high), lasts, grown, behind, published, shown)) =
    let (k, joined, far) = whole from cursor next es low in
    (between from cursor es, between cursor next es, (k, (shown, joined, far)))
given from registered known sent es Phase.ended out
      (cursor, next, (tail, ((low, high), published, form, shown))) =
    let (k, joined, far) = whole from cursor next es low in
    (
      between from cursor es,
      between cursor next es,
      (
        k,
        (
          elim form [
            | inl quiet ↦
                inl (shown ∙ ap (λ xs. yielded from cursor next es ++ xs) quiet ∙ append-nil _)
            | inr error ↦ inr (shown ∙ ap (λ xs. yielded from cursor next es ++ xs) error)
          ],
          joined,
          omega arith,
        ),
      ),
    )

pub subscribed-IsOnCourse :
    (index : EventLog) (sent from : ℕ)
    → Positioned 0 index.events
    → length index.events ≤ max_u64
    → sent ≤ length index.events
    → IsOnCourse from sent (length index.events) (subscribed index sent from)
subscribed-IsOnCourse index sent from positioned typed inside = record {
  positioned = positioned;
  typed = typed;
  inside = inside;
  grown = omega arith;
  behind = omega arith;
  progress =
      ((omega arith, omega arith), refl, refl, sym (none_to from from index.events (omega arith)));
}

-- However the appends, the publications and the steps of a `subscribe_all` from a position interleave
-- after its receiver is registered, where the position is not beyond the first event that the
-- receiver gets, or not beyond the log at the registration, and the log is numbered from 0 and keeps
-- fewer than 2 ^ 64 events: the events yielded before and after the marker are together the events of
-- the log from the position on, each once, in order and without a gap, as far as the receiver has
-- been read; the marker stands between them from the end of the catch-up on, and an error only at
-- the end.
pub subscribed_delivered :
    (index : EventLog) (sent from : ℕ) (s : System)
    → Positioned 0 index.events
    → length index.events ≤ max_u64
    → sent ≤ length index.events
    → (from ≤ sent) ⊎ (from < length index.events)
    → Reach (subscribed index sent from) s
    → (caught live : List RecordedEvent) × ((k : ℕ) × (Shows s.phase s.out caught live
          × (caught ++ live ≡ take k (drop from s.index.events))
          × (received_to s.phase ≤ from + k)))
subscribed_delivered index sent from s positioned typed inside start run =
    given from sent (length index.events) s.sent s.index.events s.phase s.out
      (Reach-IsOnCourse from sent (length index.events) inside start (subscribed index sent from) s
        (subscribed-IsOnCourse index sent from positioned typed inside) run).progress

-- A `subscribe_all` from a position that is not beyond the first event that its receiver gets, or
-- not beyond the log at the registration, where that log is numbered from 0 and has fewer than
-- 2 ^ 64 events: from every state that is reached by appends, publications and steps, in which the
-- stream has not ended, there is a run that leaves the log as it is and after which the events
-- yielded before and after the one marker are together all events of the log from the position on,
-- each once and in order.
pub subscribed_completes :
    (index : EventLog) (sent from : ℕ) (s : System)
    → Positioned 0 index.events
    → length index.events ≤ max_u64
    → sent ≤ length index.events
    → (from ≤ sent) ⊎ (from < length index.events)
    → Reach (subscribed index sent from) s
    → IsOpen s.phase
    → (t : System) × (Reach s t
        × (t.index ≡ s.index)
        × ((caught live : List RecordedEvent) × (t.out
              ≡ map to_message caught ++ marker ∷ map to_message live)
            × (caught ++ live ≡ drop from s.index.events)))
subscribed_completes index sent from s positioned typed inside start run open_phase =
    let known = length index.events in
    let begun = subscribed index sent from in
    let at_start = subscribed-IsOnCourse index sent from positioned typed inside in
    let course = Reach-IsOnCourse from sent known inside start begun s at_start run in
    let (l, (next, published, (out, whole, later))) =
      IsOpen-completes from sent known inside start s course open_phase in
    let after =
      Reach-IsOnCourse from sent known inside start begun _ at_start (Reach-Reach run later) in
    let (caught, live, (k, (shown, joined, far))) =
      given from sent known published s.index.events (Phase.live l next) out after.progress in
    let reached : length (drop from s.index.events) ≤ k =
      omega (arith, length-drop from s.index.events) in
    (
      at s.index published (Phase.live l next) out,
      (
        later,
        refl,
        (caught, live, shown, joined ∙ take_of_length-le k (drop from s.index.events) reached),
      ),
    )
