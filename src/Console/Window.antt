-- ===== src/Console/Window.antt =====
-- eventfold-console/src/views: the window of the live tail, and the width of a shortened text.
use eventfold_db.Common.{
  [], ℕ, zero, suc, ◌+◌, ◌-◌, ◌≤◌, ◌<◌, ◌≡◌, ◌∙◌, refl, ap, true, false, Bool-cases, inl, inr, List,
  ◌∷◌, ◌++◌, some, arith, length, take, drop, get_elem?, leb, length-append, length-take,
  length-take-le, ◌⊎◌,
}
use eventfold_db.Console.App.{AppState, EventRecord, min, is_empty}
use eventfold_db.Console.Views.{
  truncate, display_cursor, visible_height, window_start, window_end, rows_between, visible_events,
}

-- A shortened text: as it is if it fits, and else an ellipsis behind its first characters, as wide
-- as allowed, for a width of at least three.
pub truncate_lem :
    (s : List ℕ) (w : ℕ)
    → 3 ≤ w
    → (length (truncate s w) ≤ w)
      × (length s ≤ w → truncate s w ≡ s)
      × (w < length s
          → (length (truncate s w) ≡ w)
            × (truncate s w ≡ take (w - 3) s ++ b'.' ∷ b'.' ∷ b'.' ∷ []))
unfolding truncate
truncate_lem s w wide = elim (Bool-cases (leb (length s) w)) [
  | inl short ↦
      let fits : length s ≤ w = ground arith in
      rw short (fits, λ h. refl, λ h. absurd (omega arith))
  | inr long ↦
      let over : w < length s = ground arith in
      let width : length (take (w - 3) s ++ b'.' ∷ b'.' ∷ b'.' ∷ []) ≡ w = omega (
        arith,
        length-append (take (w - 3) s) (b'.' ∷ b'.' ∷ b'.' ∷ []),
        length-take (w - 3) s (omega arith),
      ) in
      rw long (omega (arith, width), λ h. absurd (omega arith), λ h. (width, refl))
]

module _ {ℓ} {A : Type ℓ} where
  get_elem?-take : (n i : ℕ) (xs : List A) → i < n → get_elem? (take n xs) i ≡ get_elem? xs i
  unfolding take
  get_elem?-take zero i xs h = absurd (omega arith)
  get_elem?-take (suc n) i [] h = refl
  get_elem?-take (suc n) zero (x ∷ xs) h = refl
  get_elem?-take (suc n) (suc i) (x ∷ xs) h = get_elem?-take n i xs (omega arith)

  get_elem?-drop : (n i : ℕ) (xs : List A) → get_elem? (drop n xs) i ≡ get_elem? xs (n + i)
  unfolding drop
  get_elem?-drop zero i xs = let same : 0 + i ≡ i = omega arith in rw same
  get_elem?-drop (suc n) i [] = refl
  get_elem?-drop (suc n) i (x ∷ xs) =
      let same : suc n + i ≡ suc (n + i) = omega arith in rw same (get_elem?-drop n i xs)

  rows_between_lem :
      (xs : List A) (start end : ℕ)
      → start ≤ end
      → end ≤ length xs
      → rows_between xs start end ≡ some (take (end - start) (drop start xs))
  rows_between_lem xs start end h l =
      let below : leb start end ≡ true = ground arith in
      let inside : leb end (length xs) ≡ true = ground arith in rw (below, inside) refl

-- The numbers of a window of `v` rows that ends at row `c` or later, of `len`.
fits :
    (len c v : ℕ)
    → c ≤ len - 1
    → 0 < len
    → (c - (v - 1) ≤ min len (c - (v - 1) + v))
      × (min len (c - (v - 1) + v) ≤ len)
      × (min len (c - (v - 1) + v) - (c - (v - 1)) ≤ v)
      × (0 < v → (c - (v - 1) ≤ c) × (c < min len (c - (v - 1) + v)))
fits len c v inside some_row =
    (ground arith, ground arith, ground arith, λ wide. (omega arith, ground arith))

pub display_cursor-le :
    (s : AppState)
    → s.live_cursor ≤ length s.live_events - 1
    → display_cursor s ≤ length s.live_events - 1
display_cursor-le s h = elim (Bool-cases s.live_paused) [
  | inl t ↦ rw t h
  | inr f ↦ rw f (omega arith)
]

-- The bounds of the window around the row that the view follows.
window_bounds :
    (h : ℕ) (s : AppState)
    → s.live_cursor ≤ length s.live_events - 1
    → 0 < length s.live_events
    → (window_start h s ≤ window_end h s)
      × (window_end h s ≤ length s.live_events)
      × (window_end h s - window_start h s ≤ h - 4)
      × (4 < h → (window_start h s ≤ display_cursor s) × (display_cursor s < window_end h s))
window_bounds h s inside some_event =
    let (ordered, within, few, follows) =
      fits (length s.live_events) (display_cursor s) (visible_height h) (display_cursor-le s inside)
        some_event in
    (ordered, within, few, λ wide. follows (omega arith))

is_empty-cases :
    (s : AppState)
    → ((s.live_events ≡ []) × (is_empty s.live_events ≡ true))
      ⊎ ((0 < length s.live_events) × (is_empty s.live_events ≡ false))
is_empty-cases s = go s.live_events
  where
    go :
        (es : List EventRecord)
        → ((es ≡ []) × (is_empty es ≡ true)) ⊎ ((0 < length es) × (is_empty es ≡ false))
    go [] = inl (refl, refl)
    go (e ∷ es) = inr (omega arith, refl)

-- The table of the live tail never slices out of range, whatever its height: with the cursor
-- inside the list, it shows at most as many events as it has rows, and with a row at all the
-- event that the view follows is among them, at its place in the window.
pub visible_events_lem :
    (h : ℕ) (s : AppState)
    → s.live_cursor ≤ length s.live_events - 1
    → (shown : List EventRecord) × (visible_events h s ≡ some shown)
      × (length shown ≤ h - 4)
      × (4 < h
          → get_elem? shown (display_cursor s - window_start h s)
            ≡ get_elem? s.live_events (display_cursor s))
unfolding visible_events
visible_events_lem h s inside = elim (is_empty-cases s) [
  | inl (none_held, empty) ↦ ([], rw empty refl, omega arith, λ wide. rw none_held refl)
  | inr (some_event, full) ↦
      let (ordered, within, few, follows) = window_bounds h s inside some_event in
      let start = window_start h s in
      let end = window_end h s in
      (
        take (end - start) (drop start s.live_events),
        rw full (rows_between_lem s.live_events start end ordered within),
        omega (arith, few, length-take-le (end - start) (drop start s.live_events)),
        λ wide.
            let (from, below) = follows wide in
            let place : start + (display_cursor s - start) ≡ display_cursor s =
              omega (arith, from) in
            get_elem?-take (end - start) (display_cursor s - start) (drop start s.live_events)
              (omega (arith, from, below))
            ∙ get_elem?-drop start (display_cursor s - start) s.live_events
            ∙ ap (get_elem? s.live_events) place,
      )
]
