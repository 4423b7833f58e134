-- ===== src/Broker/Machine/Slices.antt =====
-- src/broker.rs: the parts of the log that the machine has yielded.
use eventfold_db.Common.{
  [], ℕ, zero, suc, ◌+◌, ◌-◌, ◌≤◌, ◌<◌, ◌≡◌, ◌∙◌, refl, sym, ap, List, ◌∷◌, ◌++◌, some, arith,
  length, get_elem?, take, drop, take-append_le, drop-append_le, take-split, drop-drop, length-drop,
  take_of_length-le,
}
use native.Mathlib.Decide.{dec_lt}
use eventfold_db.Types.{RecordedEvent}
use eventfold_db.EventLog.WellFormed.{Counted}

-- The events of the log from one position to before another.
abbrev pub between : ℕ → ℕ → List RecordedEvent → List RecordedEvent
between from to es = take (to - from) (drop from es)

module _ {ℓ} {A : Type ℓ} where
  pub take-length-take : (k : ℕ) (xs : List A) → take (length (take k xs)) xs ≡ take k xs
  unfolding take
  take-length-take zero xs = refl
  take-length-take (suc k) [] = refl
  take-length-take (suc k) (x ∷ xs) = ap (◌∷◌ x) (take-length-take k xs)

  pub length-take-shorter : (k : ℕ) (xs : List A) → length (take k xs) ≤ length xs
  unfolding take
  length-take-shorter zero xs = omega arith
  length-take-shorter (suc k) [] = omega arith
  length-take-shorter (suc k) (x ∷ xs) = omega (arith, length-take-shorter k xs)

  pub uncons :
      (k : ℕ) (x : A) (xs ys : List A)
      → x ∷ xs ≡ take (suc k) ys
      → (take 1 ys ≡ x ∷ []) × (xs ≡ take k (drop 1 ys)) × (0 < length ys)
  unfolding take drop
  uncons k x xs [] h = cc
  uncons k x xs (y ∷ ys) h =
      let same : x ≡ y = cc in
      let rest : xs ≡ take k ys = cc in (ap (λ z. z ∷ []) (sym same), rest, omega arith)

  pub take_one :
      (n : ℕ) (x : A) (xs : List A) → get_elem? xs n ≡ some x → take 1 (drop n xs) ≡ x ∷ []
  unfolding take drop
  take_one n x [] h = cc
  take_one zero x (y ∷ ys) h = let same : y ≡ x = cc in ap (λ z. z ∷ []) same
  take_one (suc n) x (y ∷ ys) h = take_one n x ys h

-- What stands in the log already does not change when it grows.
pub between-append :
    (from to : ℕ) (es more : List RecordedEvent)
    → to - from ≤ length es - from
    → between from to (es ++ more) ≡ between from to es
unfolding take
between-append from to es more h = elim (dec_lt (length es) from) [
  | yes beyond ↦ let none_left : to - from ≡ 0 = omega arith in rw none_left refl
  | no inside ↦
      rw (drop-append_le from es more (omega arith))
        (take-append_le (to - from) (drop from es) more (omega (arith, length-drop from es)))
]

-- Two neighbouring parts.
pub between-join :
    (a b c : ℕ) (es : List RecordedEvent)
    → a ≤ b
    → b ≤ c
    → between a c es ≡ between a b es ++ between b c es
between-join a b c es h k =
    let rest : c - a - (b - a) ≡ c - b = omega arith in
    let there : a + (b - a) ≡ b = omega arith in
    take-split (b - a) (c - a) (drop a es) (omega arith)
    ∙ ap (λ xs. between a b es ++ xs) (rw (drop-drop a (b - a) es, there, rest) refl)

-- A part that ends where the log ends.
pub between-length :
    (from to : ℕ) (es : List RecordedEvent) → length es ≤ to → between from to es ≡ drop from es
between-length from to es h =
    take_of_length-le (to - from) (drop from es) (omega (arith, length-drop from es))

pub key_at :
    (key : RecordedEvent → ℕ) (base n : ℕ) (e : RecordedEvent) (es : List RecordedEvent)
    → Counted key base es
    → get_elem? es n ≡ some e
    → key e ≡ base + n
key_at key base n e [] counted h = cc
key_at key base zero e (x ∷ es) counted h =
    let same : x ≡ e = cc in omega (arith, ap key same, counted.0)
key_at key base (suc n) e (x ∷ es) counted h =
    omega (arith, key_at key (base + 1) n e es counted.1 h)
