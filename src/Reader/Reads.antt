-- ===== src/Reader/Reads.antt =====
-- src/reader.rs: what the reads return from a well-formed index.
use eventfold_db.Common.{
  All-take, All-drop, [], ℕ, zero, suc, ◌+◌, ◌-◌, ◌≤◌, ◌≡◌, ◌≢◌, ◌∙◌, refl, sym, ap, List, ◌∷◌,
  ◌++◌, Option, none, some, All, arith, length, get_elem?, take, drop, length-drop,
  take_of_length-le, Bool-cases, ◌==◌, length-append, inl, inr, append_assoc,
}
use native.Mathlib.Decide.{dec_lt}
use eventfold_db.Crates.{Uuid}
use eventfold_db.Error.{Result, ok, err, stream_not_found}
use eventfold_db.Types.{RecordedEvent}
use eventfold_db.EventLog.{get, positions_of, EventLog}
use eventfold_db.EventLog.WellFormed.{
  positions, length-positions, of_stream, Positioned, IsWellFormed,
}
use eventfold_db.Reader.{
  max_u64, saturating_add, min_u64, slice, read_all, fetch, read_positions, read_stream,
}

module _ {ℓ} {A : Type ℓ} where
  drop_beyond : (n : ℕ) (xs : List A) → length xs ≤ n → drop n xs ≡ []
  unfolding drop
  drop_beyond zero [] h = refl
  drop_beyond zero (x ∷ xs) h = absurd (omega arith)
  drop_beyond (suc n) [] h = refl
  drop_beyond (suc n) (x ∷ xs) h = drop_beyond n xs (omega arith)

  take-nil : (n : ℕ) → take {A = A} n [] ≡ []
  unfolding take
  take-nil zero = refl
  take-nil (suc n) = refl

  -- Taking at least what there is.
  take_enough : (m n : ℕ) (xs : List A) → length xs ≤ m → length xs ≤ n → take m xs ≡ take n xs
  take_enough m n xs h k = take_of_length-le m xs h ∙ sym (take_of_length-le n xs k)

  -- The slice between the clamped bounds is `count` elements from `from` on.
  pub slice_lem :
      (from count : ℕ) (xs : List A)
      → length xs ≤ max_u64
      → slice (min_u64 from (length xs)) (min_u64 (saturating_add from count) (length xs)) xs
        ≡ take count (drop from xs)
  slice_lem from count xs h = elim (dec_lt from (length xs)) [
    | yes inside ↦
        let start : min_u64 from (length xs) ≡ from = ground arith in
        elim (dec_lt (from + count) (length xs)) [
          | yes short ↦
              let size : min_u64 (saturating_add from count) (length xs) - from ≡ count =
                ground arith in
              rw (start, size)
          | no long ↦
              let size : min_u64 (saturating_add from count) (length xs) ≡ length xs =
                ground arith in
              rw (start, size)
                (take_enough (length xs - from) count (drop from xs)
                  (omega (arith, length-drop from xs)) (omega (arith, length-drop from xs)))
        ]
    | no beyond ↦
        let start : min_u64 from (length xs) ≡ length xs = ground arith in
        rw
          (
            start,
            drop_beyond (length xs) xs (omega arith),
            drop_beyond from xs (omega arith),
            take-nil count,
          )
          (take-nil (min_u64 (saturating_add from count) (length xs) - length xs))
  ]

-- On a log of fewer than 2 ^ 64 events, reading from a position gives the events from there on, at
-- most as many as asked for.
pub read_all_lem :
    (log : EventLog) (from count : ℕ)
    → length log.events ≤ max_u64
    → read_all log from count ≡ take count (drop from log.events)
unfolding read_all
read_all_lem log from count h = slice_lem from count log.events h

-- An event at its own position in the log.
abbrev At : EventLog → RecordedEvent → Type 0
At log e = get_elem? log.events e.global_position ≡ some e

fetch-positions :
    (log : EventLog) (es : List RecordedEvent)
    → All (At log) es
    → fetch log (positions es) ≡ some es
unfolding fetch
fetch-positions log [] h = refl
fetch-positions log (e ∷ es) h = rw (h.0, fetch-positions log es h.1)

get_elem?-append :
    (front : List RecordedEvent) (e : RecordedEvent) (back : List RecordedEvent)
    → get_elem? (front ++ (e ∷ back)) (length front) ≡ some e
get_elem?-append [] e back = refl
get_elem?-append (x ∷ front) e back = get_elem?-append front e back

-- Each event of a stream stands in the log at its own position.
stream_at :
    (id : Uuid) (all front es : List RecordedEvent)
    → all ≡ front ++ es
    → Positioned (length front) es
    → All (λ e. get_elem? all e.global_position ≡ some e) (of_stream id es)
unfolding of_stream
stream_at id all front [] h p = tt
stream_at id all front (e ∷ es) h p =
    let at_end : length front + 1 ≡ length (front ++ (e ∷ [])) =
      omega (arith, length-append front (e ∷ [])) in
    let rest =
      stream_at id all (front ++ (e ∷ [])) es (h ∙ sym (append_assoc front (e ∷ []) es))
        (rw at_end at p.1) in
    elim (Bool-cases (e.stream_id == id)) [
      | inl t ↦ rw t (ap (get_elem? all) p.0 ∙ rw h (get_elem?-append front e es), rest)
      | inr f ↦ rw f rest
    ]

pub length-of_stream-le :
    (id : Uuid) (es : List RecordedEvent) → length (of_stream id es) ≤ length es
unfolding of_stream
length-of_stream-le id [] = omega arith
length-of_stream-le id (e ∷ es) = ground (arith, length-of_stream-le id es)

take-map : (n : ℕ) (es : List RecordedEvent) → take n (positions es) ≡ positions (take n es)
unfolding take
take-map zero es = refl
take-map (suc n) [] = refl
take-map (suc n) (e ∷ es) = ap (◌∷◌ e.global_position) (take-map n es)

drop-map : (n : ℕ) (es : List RecordedEvent) → drop n (positions es) ≡ positions (drop n es)
unfolding drop
drop-map zero es = refl
drop-map (suc n) [] = refl
drop-map (suc n) (e ∷ es) = drop-map n es

-- The answer that a read of a stream should give: its events from a version on, or its absence.
abbrev pub stream_answer : Uuid → ℕ → ℕ → List RecordedEvent → Result (List RecordedEvent)
stream_answer id from count [] = err (stream_not_found id)
stream_answer id from count (e ∷ es) = ok (take count (drop from (e ∷ es)))

answer :
    (log : EventLog) (id : Uuid) (from count : ℕ) (o : Option (List ℕ)) (es : List RecordedEvent)
    → positions_of o ≡ positions es
    → o ≢ some []
    → All (At log) es
    → length es ≤ max_u64
    → read_positions log id from count o ≡ some (stream_answer id from count es)
unfolding read_positions
answer log id from count none [] h ne at l = refl
answer log id from count none (e ∷ es) h ne at l = absurd (omega (arith, ap (length {A = ℕ}) h))
answer log id from count (some []) es h ne at l = absurd (ne refl)
answer log id from count (some (p ∷ ps)) [] h ne at l =
    absurd (omega (arith, ap (length {A = ℕ}) h))
answer log id from count (some (p ∷ ps)) (e ∷ es) h ne at l =
    let sliced : slice (min_u64 from (length (p ∷ ps)))
          (min_u64 (saturating_add from count) (length (p ∷ ps))) (p ∷ ps)
        ≡ positions (take count (drop from (e ∷ es))) =
      slice_lem from count (p ∷ ps)
        (omega (arith, ap (length {A = ℕ}) h, length-positions (e ∷ es)))
      ∙ rw (h, drop-map from (e ∷ es)) (take-map count (drop from (e ∷ es))) in
    rw (
      sliced,
      fetch-positions log (take count (drop from (e ∷ es)))
          (All-take (At log) count (drop from (e ∷ es)) (All-drop (At log) from (e ∷ es) at)),
    )

-- On a well-formed log of fewer than 2 ^ 64 events, reading a stream never panics, and gives the
-- events of the log that belong to the stream, from the version on, at most as many as asked for;
-- it fails exactly if the log has no event of the stream.
pub read_stream_lem :
    (log : EventLog) (id : Uuid) (from count : ℕ)
    → IsWellFormed log
    → length log.events ≤ max_u64
    → read_stream log id from count ≡ some (stream_answer id from count (of_stream id log.events))
unfolding read_stream
read_stream_lem log id from count w h =
    answer log id from count (get id log.streams) (of_stream id log.events) (w.indexed id)
      (w.no_empty id) (stream_at id log.events [] log.events refl w.positioned)
      (omega (arith, length-of_stream-le id log.events))
