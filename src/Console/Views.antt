-- ===== src/Console/Views.antt =====
-- eventfold-console/src/views: the texts of the views, and the rows of the live tail. A text is the
-- list of its characters.
use eventfold_db.Common.{
  [], ℕ, ◌+◌, ◌-◌, List, ◌∷◌, ◌++◌, Option, none, some, length, take, drop, leb, if◌then◌else◌,
}
use eventfold_db.Console.App.{AppState, EventRecord, min, is_empty}

unfoldable pub truncate : List ℕ → ℕ → List ℕ
truncate s max_width =
    if leb (length s) max_width then s else take (max_width - 3) s ++ b'.' ∷ b'.' ∷ b'.' ∷ []

-- `render_events_table` of the live tail: the row that the view follows, for that many events.
abbrev pub display_cursor : AppState → ℕ
display_cursor state = if state.live_paused then state.live_cursor else length state.live_events - 1

abbrev pub visible_height : ℕ → ℕ
visible_height area_height = area_height - 4

abbrev pub window_start : ℕ → AppState → ℕ
window_start area_height state = display_cursor state - (visible_height area_height - 1)

abbrev pub window_end : ℕ → AppState → ℕ
window_end area_height state =
    min (length state.live_events) (window_start area_height state + visible_height area_height)

-- `xs[start..end]`, which panics on a start behind the end or an end behind the list's.
abbrev pub rows_between {ℓ} : {A : Type ℓ} → List A → ℕ → ℕ → Option (List A)
rows_between xs start end =
    if leb start end
    then if leb end (length xs) then some (take (end - start) (drop start xs)) else none
    else none

-- The events of the table.
unfoldable pub visible_events : ℕ → AppState → Option (List EventRecord)
visible_events area_height state =
    if is_empty state.live_events
    then some []
    else rows_between state.live_events (window_start area_height state)
        (window_end area_height state)
