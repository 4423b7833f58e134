-- ===== src/Broker/Machine/Progress.antt =====
-- src/broker.rs: how far the machine has come in every reachable state, by its phase.
use eventfold_db.Common.{
  [], ℕ, suc, ◌+◌, ◌-◌, ◌≤◌, ◌<◌, ◌≡◌, ◌∙◌, refl, sym, ap, Bool, true, List, ◌∷◌, ◌++◌, map, Option,
  none, some, arith, length, take, drop, lt_of_ltb, ◌⊎◌, drop-drop, length-drop,
}
use mathlib.Core.List.{map-append}
use eventfold_db.Types.{RecordedEvent}
use eventfold_db.EventLog.{EventLog}
use eventfold_db.EventLog.WellFormed.{Positioned}
use eventfold_db.Reader.{max_u64}
use eventfold_db.Reader.Reads.{read_all_lem}
use eventfold_db.Broker.{Message, to_message, catchup_batch_size}
use eventfold_db.Broker.Batches.{taken-Counted, last_read}
use eventfold_db.Broker.Machine.{Phase, System, marker, lag_error, poll_phase}
use eventfold_db.Broker.Machine.Slices.{between, take-length-take, uncons, between-join}

-- The last position of the catch-up stands before the cursor.
abbrev pub LastIs : ℕ → ℕ → Option ℕ → Type 0
LastIs from cursor none = cursor ≡ from
LastIs from cursor (some l) = l + 1 ≡ cursor

abbrev pub CursorAt : ℕ → List RecordedEvent → ℕ → Type 0
CursorAt from es cursor = (from ≤ cursor) × (cursor - from ≤ length es - from)

-- The messages of the catch-up up to `cursor`, and of the live loop up to `next`.
abbrev pub caught_to : ℕ → ℕ → List RecordedEvent → List Message
caught_to from cursor es = map to_message (between from cursor es)

abbrev pub yielded : ℕ → ℕ → ℕ → List RecordedEvent → List Message
yielded from cursor next es = caught_to from cursor es ++ marker ∷ caught_to cursor next es

abbrev pub Tail : List Message → Type 0
Tail tail = (tail ≡ []) ⊎ (tail ≡ lag_error ∷ [])

abbrev pub Progress : ℕ → ℕ → ℕ → List RecordedEvent → ℕ → Phase → List Message → Type 0
Progress from registered known es sent (Phase.reading cursor last_position next) out =
    CursorAt from es cursor
    × LastIs from cursor last_position
    × (next ≡ registered)
    × (out ≡ caught_to from cursor es)
Progress from registered known es sent (Phase.yielding batch short cursor last_position next) out =
    CursorAt from es cursor
    × LastIs from cursor last_position
    × (next ≡ registered)
    × (out ≡ caught_to from cursor es)
    × (batch ≡ take (length batch) (drop cursor es))
    × (short ≡ true → known ≤ cursor + length batch)
Progress from registered known es sent (Phase.live last_position next) out =
    (cursor : ℕ) × (CursorAt from es cursor
      × LastIs from cursor last_position
      × (known ≤ cursor)
      × (registered ≤ next)
      × (next ≤ sent)
      × (out ≡ yielded from cursor next es))
Progress from registered known es sent Phase.ended out =
    (cursor next : ℕ) × ((tail : List Message) × (CursorAt from es cursor
        × (next ≤ sent)
        × Tail tail
        × (out ≡ yielded from cursor next es ++ tail)))

pub record IsOnCourse (from registered known : ℕ) (s : System) : Type 0 where
  pub positioned : Positioned 0 s.index.events
  pub typed : length s.index.events ≤ max_u64
  pub inside : s.sent ≤ length s.index.events
  pub grown : known ≤ length s.index.events
  pub behind : registered ≤ s.sent
  pub progress : Progress from registered known s.index.events s.sent s.phase s.out

-- One more event.
pub caught_to-next :
    (from cursor : ℕ) (e : RecordedEvent) (es : List RecordedEvent)
    → from ≤ cursor
    → take 1 (drop cursor es) ≡ e ∷ []
    → caught_to from (cursor + 1) es ≡ caught_to from cursor es ++ to_message e ∷ []
caught_to-next from cursor e es h one =
    let step : cursor + 1 - cursor ≡ 1 = omega arith in
    let parts : between from (cursor + 1) es ≡ between from cursor es ++ e ∷ [] =
      between-join from cursor (cursor + 1) es h (omega arith)
      ∙ ap (λ xs. between from cursor es ++ xs) (rw step one) in
    ap (map to_message) parts ∙ map-append to_message (between from cursor es) (e ∷ [])

pub none_to :
    (cursor next : ℕ) (es : List RecordedEvent) → next ≤ cursor → caught_to cursor next es ≡ []
unfolding take
none_to cursor next es h = let nothing : next - cursor ≡ 0 = omega arith in rw nothing refl

module _ (from registered known : ℕ) (order : registered ≤ known)
    (start : (from ≤ registered) ⊎ (from < known)) where
  -- A read.
  pub read-Progress :
      (log : EventLog) (sent cursor : ℕ) (last_position : Option ℕ) (next : ℕ) (out : List Message)
      → length log.events ≤ max_u64
      → known ≤ length log.events
      → Progress from registered known log.events sent (Phase.reading cursor last_position next) out
      → (let (phase, out) = poll_phase log (Phase.reading cursor last_position next) out in
          Progress from registered known log.events sent phase out)
  unfolding poll_phase
  read-Progress log sent cursor last_position next out typed grown (at_cursor, lasts, same, shown) =
      let batch = take catchup_batch_size (drop cursor log.events) in
      let read = read_all_lem log cursor catchup_batch_size typed in
      rw read (
        at_cursor,
        lasts,
        same,
        shown,
        sym (take-length-take catchup_batch_size (drop cursor log.events)),
        λ short. omega (
          arith,
          (last_read cursor catchup_batch_size log.events []
              (lt_of_ltb _ catchup_batch_size short)).1,
        ),
      )

  -- An event of the batch is yielded.
  pub event-Progress :
      (es : List RecordedEvent) (sent : ℕ) (e : RecordedEvent) (batch : List RecordedEvent)
      (short : Bool) (cursor : ℕ) (last_position : Option ℕ) (next : ℕ) (out : List Message)
      → Positioned 0 es
      → Progress from registered known es sent
          (Phase.yielding (e ∷ batch) short cursor last_position next)
          out
      → Progress from registered known es sent
          (Phase.yielding batch short (e.global_position + 1) (some e.global_position) next)
          (out ++ to_message e ∷ [])
  event-Progress es sent e batch short cursor last_position next out positioned
        ((low, high), lasts, same, shown, rest, reached) =
      let (one, others, more) = uncons (length batch) e batch (drop cursor es) rest in
      let here : e.global_position ≡ cursor =
        (taken-Counted (λ e. e.global_position) es (e ∷ batch) cursor (suc (length batch))
          positioned rest).0 in
      simp here (
        (omega arith, omega (arith, length-drop cursor es)),
        refl,
        same,
        ap (λ xs. xs ++ to_message e ∷ []) shown ∙ sym (caught_to-next from cursor e es low one),
        others ∙ ap (take (length batch)) (drop-drop cursor 1 es),
        λ h. omega (arith, reached h),
      )

  -- The marker.
  pub marker-Progress :
      (es : List RecordedEvent) (sent cursor : ℕ) (last_position : Option ℕ) (next : ℕ)
      (out : List Message)
      → registered ≤ sent
      → Progress from registered known es sent
          (Phase.yielding [] true cursor last_position next)
          out
      → Progress from registered known es sent (Phase.live last_position next) (out ++ marker ∷ [])
  marker-Progress es sent cursor last_position next out behind
        (at_cursor, lasts, same, shown, rest, reached) =
      let grown = reached refl in
      (
        cursor,
        (
          at_cursor,
          lasts,
          omega arith,
          omega arith,
          omega arith,
          ap (λ xs. xs ++ marker ∷ []) shown
              ∙ ap (λ xs. caught_to from cursor es ++ marker ∷ xs)
                  (sym (none_to cursor next es (omega arith))),
        ),
      )
