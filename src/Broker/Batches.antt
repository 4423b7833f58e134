-- ===== src/Broker/Batches.antt =====
-- src/broker.rs: the batches of a catch-up, over events that a key numbers without a gap: what a
-- read gives, how far the cursor moves, and what the batches are together.
use eventfold_db.Common.{
  [], ℕ, zero, suc, ◌+◌, ◌-◌, ◌≤◌, ◌<◌, ◌≡◌, ◌∙◌, refl, sym, ap, List, ◌∷◌, ◌++◌, some, arith,
  length, take, drop, length-append, length-take, length-take-le, length-drop, take_of_length-le,
  take-append, take-append_le, take-split, drop-drop, drop-append_le,
}
use mathlib.Core.List.{get_last?}
use mathlib.Core.Option
use native.Mathlib.Decide.{dec_lt}
use eventfold_db.Types.{RecordedEvent}
use eventfold_db.EventLog.WellFormed.{Counted}
use eventfold_db.Broker.{advance}

pub Counted-drop :
    (key : RecordedEvent → ℕ) (n c : ℕ) (es : List RecordedEvent)
    → Counted key n es
    → Counted key (n + c) (drop c es)
unfolding drop
Counted-drop key n zero es h = let e : n + 0 ≡ n = omega arith in rw e h
Counted-drop key n (suc c) [] h = tt
Counted-drop key n (suc c) (e ∷ es) h =
    let all : n + 1 + c ≡ n + suc c = omega arith in rw all at (Counted-drop key (n + 1) c es h.1)

Counted-take :
    (key : RecordedEvent → ℕ) (n k : ℕ) (es : List RecordedEvent)
    → Counted key n es
    → Counted key n (take k es)
unfolding take
Counted-take key n zero es h = tt
Counted-take key n (suc k) [] h = tt
Counted-take key n (suc k) (e ∷ es) h = (h.0, Counted-take key (n + 1) k es h.1)

pub taken-Counted :
    (key : RecordedEvent → ℕ) (all es : List RecordedEvent) (n k : ℕ)
    → Counted key 0 all
    → es ≡ take k (drop n all)
    → Counted key n es
taken-Counted key all es n k counted h =
    let start : 0 + n ≡ n = omega arith in
    rw h (Counted-take key n k (drop n all) (rw start at (Counted-drop key 0 n all counted)))

pub last_key :
    (key : RecordedEvent → ℕ) (n : ℕ) (e : RecordedEvent) (es : List RecordedEvent)
    → Counted key n (e ∷ es)
    → Option.map key (get_last? (e ∷ es)) ≡ some (n + length es)
last_key key n e [] h = let s : n + 0 ≡ n = omega arith in rw (s, h.0) refl
last_key key n e (f ∷ es) h =
    let s : n + 1 + length es ≡ n + length (f ∷ es) = omega arith in
    last_key key (n + 1) f es h.1 ∙ rw s refl

-- The cursor moves by the length of the batch.
pub advance_lem :
    (key : RecordedEvent → ℕ) (n : ℕ) (es : List RecordedEvent)
    → Counted key n es
    → advance key n es ≡ n + length es
advance_lem key n [] h = omega arith
advance_lem key n (e ∷ es) h = ground (arith, last_key key n e es h)

-- The first part of `all`.
abbrev pub PrefixOf : List RecordedEvent → List RecordedEvent → Type 0
PrefixOf all xs = (more : List RecordedEvent) × (all ≡ xs ++ more)

-- What a catch-up from `cursor` has yielded: all events from there on, without a gap, at least up
-- to position `known`.
abbrev pub Reaches : List RecordedEvent → ℕ → ℕ → List RecordedEvent → Type 0
Reaches all known cursor es =
    (es ≡ take (length es) (drop cursor all)) × (known ≤ cursor + length es)

nothing : (xs ys : List RecordedEvent) → length xs ≡ 0 → xs ≡ take (length xs) ys
unfolding take
nothing [] ys h = refl
nothing (x ∷ xs) ys h = absurd (omega arith)

-- A read that reaches the end of the log.
pub last_read :
    (cursor k : ℕ) (xs more : List RecordedEvent)
    → length (take k (drop cursor xs)) < k
    → Reaches (xs ++ more) (length xs) cursor (take k (drop cursor xs))
last_read cursor k xs more h = elim (dec_lt (length (drop cursor xs)) k) [
  | no long ↦ absurd (omega (arith, length-take k (drop cursor xs)))
  | yes short ↦
      let size = length-drop cursor xs in
      rw (take_of_length-le k (drop cursor xs) (omega arith)) (inside, omega arith)
]
  where
    inside : drop cursor xs ≡ take (length (drop cursor xs)) (drop cursor (xs ++ more))
    inside = elim (dec_lt (length xs) cursor) [
      | no within ↦
          rw (drop-append_le cursor xs more (omega arith))
            (sym (take-append (length (drop cursor xs)) (drop cursor xs) more refl))
      | yes beyond ↦
          nothing (drop cursor xs) (drop cursor (xs ++ more)) (omega (arith, length-drop cursor xs))
    ]

-- A read that is full.
pub full_read :
    (cursor k : ℕ) (xs more : List RecordedEvent)
    → 0 < k
    → k ≤ length (take k (drop cursor xs))
    → (take k (drop cursor xs) ≡ take k (drop cursor (xs ++ more)))
      × (length (take k (drop cursor xs)) ≡ k)
      × (cursor + k ≤ length xs)
full_read cursor k xs more some_events h =
    let size = length-drop cursor xs in
    let full = length-take-le k (drop cursor xs) in
    let inside : k ≤ length (drop cursor xs) = elim (dec_lt (length (drop cursor xs)) k) [
      | yes short ↦ absurd (
          omega (
            arith,
            ap (length {A = RecordedEvent}) (take_of_length-le k (drop cursor xs) (omega arith)),
          ))
      | no long ↦ omega arith
    ] in
    (
      rw (drop-append_le cursor xs more (omega arith))
          (sym (take-append_le k (drop cursor xs) more inside)),
      omega arith,
      omega arith,
    )

-- A full read and what follows it.
pub Reaches-next :
    (all : List RecordedEvent) (known cursor k : ℕ) (es : List RecordedEvent)
    → cursor + k ≤ length all
    → Reaches all known (cursor + k) es
    → Reaches all known cursor (take k (drop cursor all) ++ es)
Reaches-next all known cursor k es inside (h, reached) =
    let size = length-drop cursor all in
    let first : length (take k (drop cursor all)) ≡ k =
      length-take k (drop cursor all) (omega arith) in
    let total : length (take k (drop cursor all) ++ es) ≡ k + length es =
      length-append (take k (drop cursor all)) es ∙ ap (λ n. n + length es) first in
    let left : k + length es - k ≡ length es = omega arith in
    (
      rw
          (
            total,
            take-split k (k + length es) (drop cursor all) (omega arith),
            left,
            drop-drop cursor k all,
          )
          (ap (λ rest. take k (drop cursor all) ++ rest) h),
      omega arith,
    )
