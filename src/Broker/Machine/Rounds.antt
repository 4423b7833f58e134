-- ===== src/Broker/Machine/Rounds.antt =====
-- src/broker.rs: the live loop of the machine, and the log that grows beside it.
use eventfold_db.Common.{
  [], ℕ, ◌+◌, ◌-◌, ◌≤◌, ◌<◌, ◌≡◌, ◌∙◌, refl, sym, ap, List, ◌∷◌, ◌++◌, map, Option, none, some,
  arith, length, get_elem?, take, drop, ltb, lt_of_ltb, le_of_ltb, ◌⊎◌, inl, inr, Bool-cases,
  length-append, append_assoc, length-drop, take-append_le, drop-append_le,
}
use eventfold_db.Types.{RecordedEvent}
use eventfold_db.EventLog.WellFormed.{Positioned}
use eventfold_db.Broker.{received, Message, to_message, is_duplicate}
use eventfold_db.Broker.Machine.{Phase, marker, on_recv}
use eventfold_db.Broker.Machine.Slices.{length-take-shorter, take_one, between-append, key_at}
use eventfold_db.Broker.Machine.Progress.{
  LastIs, caught_to, yielded, Tail, Progress, caught_to-next, none_to,
}

taken-append :
    (cursor : ℕ) (es more batch : List RecordedEvent)
    → batch ≡ take (length batch) (drop cursor es)
    → batch ≡ take (length batch) (drop cursor (es ++ more))
unfolding take
taken-append cursor es more [] h = refl
taken-append cursor es more (e ∷ batch) h =
    let n = length (e ∷ batch) in
    let some_left : n ≤ length (drop cursor es) =
      omega (arith, ap (length {A = RecordedEvent}) h, length-take-shorter n (drop cursor es)) in
    let inside : cursor ≤ length es = omega (arith, length-drop cursor es) in
    h
    ∙ sym (take-append_le n (drop cursor es) more some_left)
    ∙ ap (take n) (sym (drop-append_le cursor es more inside))

module _ (from registered known : ℕ) (order : registered ≤ known)
    (start : (from ≤ registered) ⊎ (from < known)) where
  -- A received event that was not caught before, and one that was.
  fresh-Progress :
      (es : List RecordedEvent) (sent cursor next : ℕ) (e : RecordedEvent) (out : List Message)
      → get_elem? es next ≡ some e
      → cursor ≤ next
      → out ≡ yielded from cursor next es
      → out ++ to_message e ∷ [] ≡ yielded from cursor (next + 1) es
  fresh-Progress es sent cursor next e out found fresh shown =
      ap (λ xs. xs ++ to_message e ∷ []) shown
      ∙ append_assoc (caught_to from cursor es) (marker ∷ caught_to cursor next es)
          (to_message e ∷ [])
      ∙ ap (λ xs. caught_to from cursor es ++ marker ∷ xs)
          (sym (caught_to-next cursor next e es fresh (take_one next e es found)))

  -- An event is a duplicate exactly if its position stands before the cursor.
  is_duplicate-cursor :
      (cursor next : ℕ) (last_position : Option ℕ)
      → LastIs from cursor last_position
      → known ≤ cursor
      → registered ≤ next
      → is_duplicate next last_position ≡ ltb next cursor
  is_duplicate-cursor cursor next none lasts grown behind = elim start [
    | inl h ↦ ground arith
    | inr h ↦ ground arith
  ]
  is_duplicate-cursor cursor next (some l) lasts grown behind = ground arith

  pub receive-Progress :
      (es : List RecordedEvent) (sent : ℕ) (last_position : Option ℕ) (next : ℕ) (e : RecordedEvent)
      (out : List Message)
      → Positioned 0 es
      → next < sent
      → get_elem? es next ≡ some e
      → Progress from registered known es sent (Phase.live last_position next) out
      → (let (phase, out) = on_recv (received e) (Phase.live last_position next) out in
          Progress from registered known es sent phase out)
  unfolding on_recv
  receive-Progress es sent last_position next e out positioned more found
        (cursor, (at_cursor, lasts, grown, behind, inside, shown)) =
      let here = key_at (λ e. e.global_position) 0 next e es positioned found in
      let position : e.global_position ≡ next = omega arith in
      let duplicate : is_duplicate e.global_position last_position ≡ ltb next cursor =
        ap (λ p. is_duplicate p last_position) position
        ∙ is_duplicate-cursor cursor next last_position lasts grown behind in
      elim (Bool-cases (ltb next cursor)) [
        | inl old ↦
            let before = lt_of_ltb next cursor old in
            let same : caught_to cursor next es ≡ caught_to cursor (next + 1) es =
              none_to cursor next es (omega arith)
              ∙ sym (none_to cursor (next + 1) es (omega arith)) in
            rw (duplicate, old)
              (
                cursor,
                (
                  at_cursor,
                  lasts,
                  grown,
                  omega arith,
                  omega arith,
                  shown ∙ ap (λ xs. caught_to from cursor es ++ marker ∷ xs) same,
                ),
              )
        | inr new ↦
            let fresh = le_of_ltb next cursor new in
            rw (duplicate, new)
              (
                cursor,
                (
                  at_cursor,
                  lasts,
                  grown,
                  omega arith,
                  omega arith,
                  fresh-Progress es sent cursor next e out found fresh shown,
                ),
              )
      ]

  -- The end.
  pub ended-Progress :
      (es : List RecordedEvent) (sent : ℕ) (last_position : Option ℕ) (next : ℕ)
      (out tail : List Message)
      → Tail tail
      → Progress from registered known es sent (Phase.live last_position next) out
      → Progress from registered known es sent Phase.ended (out ++ tail)
  ended-Progress es sent last_position next out tail form
        (cursor, (at_cursor, lasts, grown, behind, inside, shown)) =
      (cursor, next, (tail, (at_cursor, inside, form, ap (λ xs. xs ++ tail) shown)))

  -- The writer goes on.
  caught_to-append :
      (cursor next : ℕ) (es more : List RecordedEvent)
      → next - cursor ≤ length es - cursor
      → caught_to cursor next es ≡ caught_to cursor next (es ++ more)
  caught_to-append cursor next es more h =
      ap (map to_message) (sym (between-append cursor next es more h))

  yielded-append :
      (cursor next : ℕ) (es more : List RecordedEvent)
      → cursor - from ≤ length es - from
      → next ≤ length es
      → yielded from cursor next es ≡ yielded from cursor next (es ++ more)
  yielded-append cursor next es more h inside =
      ap (λ xs. xs ++ marker ∷ caught_to cursor next es) (caught_to-append from cursor es more h)
      ∙ ap (λ xs. caught_to from cursor (es ++ more) ++ marker ∷ xs)
          (caught_to-append cursor next es more (omega arith))

  pub append-Progress :
      (es more : List RecordedEvent) (sent : ℕ) (phase : Phase) (out : List Message)
      → sent ≤ length es
      → Progress from registered known es sent phase out
      → Progress from registered known (es ++ more) sent phase out
  append-Progress es more sent (Phase.reading cursor last_position next) out inside
        ((low, high), lasts, same, shown) =
      (
        (low, omega (arith, length-append es more)),
        lasts,
        same,
        shown ∙ caught_to-append from cursor es more high,
      )
  append-Progress es more sent (Phase.yielding batch short cursor last_position next) out inside
        ((low, high), lasts, same, shown, rest, reached) =
      (
        (low, omega (arith, length-append es more)),
        lasts,
        same,
        shown ∙ caught_to-append from cursor es more high,
        taken-append cursor es more batch rest,
        reached,
      )
  append-Progress es more sent (Phase.live last_position next) out inside
        (cursor, ((low, high), lasts, grown, behind, published, shown)) =
      (
        cursor,
        (
          (low, omega (arith, length-append es more)),
          lasts,
          grown,
          behind,
          published,
          shown ∙ yielded-append cursor next es more high (omega arith),
        ),
      )
  append-Progress es more sent Phase.ended out inside
        (cursor, next, (tail, ((low, high), published, form, shown))) =
      (
        cursor,
        next,
        (
          tail,
          (
            (low, omega (arith, length-append es more)),
            published,
            form,
            shown ∙ ap (λ xs. xs ++ tail) (yielded-append cursor next es more high (omega arith)),
          ),
        ),
      )
