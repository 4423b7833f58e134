-- ===== src/Console/Highlight.antt =====
-- eventfold-console/src/views: the highlighted row of a table and the text of its panel are about
-- the same event, the one under the cursor.
use eventfold_db.Common.{
  at_index, [], ℕ, zero, suc, ◌+◌, ◌-◌, ◌≤◌, ◌<◌, ◌≡◌, ◌∙◌, refl, ap, Bool, true, false, List, ◌∷◌,
  Option, none, some, arith, length, get_elem?, ◌==◌, ==_refl,
}
use mathlib.Core.Option
use eventfold_db.Console.App.{EventRecord, AppState}
use eventfold_db.Console.Views.{display_cursor, window_start}
use eventfold_db.Console.Texts.{JsonCrate}
use eventfold_db.Console.Tables.{
  Row, Table, rows_from, rows_or, detail_cells, log_cells, live_rows, detail_table, global_table,
  live_table, event_text, panel, detail_panel, global_panel, live_panel,
}
use eventfold_db.Console.Cursors.{InRange}
use eventfold_db.Console.Window.{visible_events_lem, display_cursor-le}

module _ {ℓ} {A : Type ℓ} where
  get_elem?-rows_from :
      (cells : A → List (List ℕ)) (cursor i k : ℕ) (xs : List A)
      → get_elem? (rows_from cells cursor i xs) k
        ≡ Option.map
            (λ x. record { cells = cells x; highlighted = (i + k) == cursor })
            (get_elem? xs k)
  unfolding rows_from
  get_elem?-rows_from cells cursor i k [] = refl
  get_elem?-rows_from cells cursor i zero (x ∷ xs) =
      let here : i + 0 ≡ i = omega arith in rw here refl
  get_elem?-rows_from cells cursor i (suc k) (x ∷ xs) =
      let there : i + suc k ≡ i + 1 + k = omega arith in
      rw there (get_elem?-rows_from cells cursor (i + 1) k xs)

  rows_or-rows :
      (busy empty : List Row) (rows : List A → List Row) (xs : List A)
      → 0 < length xs
      → rows_or false busy empty rows xs ≡ rows xs
  unfolding rows_or
  rows_or-rows busy empty rows [] h = absurd (omega arith)
  rows_or-rows busy empty rows (x ∷ xs) h = refl

module _ ⦃json : JsonCrate⦄ where
  -- The row of the event under the cursor is highlighted, no other one is, and the panel's text is
  -- about this event; the first row stands for number `start`.
  abbrev pub Shows :
      (EventRecord → List (List ℕ)) → Bool → List EventRecord → ℕ → ℕ → List Row → List ℕ → Type 0
  Shows cells format_json es start cursor rows text =
      (e : EventRecord) × (get_elem? es cursor ≡ some e)
      × (get_elem? rows (cursor - start) ≡ some (record { cells = cells e; highlighted = true }))
      × (text ≡ event_text format_json e)
      × ((k : ℕ)
          → Option.map (λ r. r.highlighted) (get_elem? rows k)
            ≡ Option.map (λ r. (start + k) == cursor) (get_elem? rows k))

  marks :
      (cells : EventRecord → List (List ℕ)) (n cursor : ℕ) (o : Option EventRecord)
      → (let row : Option Row =
            Option.map (λ x. record { cells = cells x; highlighted = n == cursor }) o in
          Option.map (λ r. r.highlighted) row ≡ Option.map (λ r. n == cursor) row)
  marks cells n cursor none = refl
  marks cells n cursor (some e) = refl

  Shows-rows_from :
      (cells : EventRecord → List (List ℕ)) (format_json : Bool) (es shown : List EventRecord)
      (start cursor : ℕ) (empty : List ℕ)
      → cursor < length es
      → start ≤ cursor
      → get_elem? shown (cursor - start) ≡ get_elem? es cursor
      → Shows cells format_json es start cursor
          (rows_from cells cursor start shown)
          (panel empty format_json (get_elem? es cursor))
  Shows-rows_from cells format_json es shown start cursor empty inside from same =
      let (e, found) = at_index cursor es inside in
      let place : start + (cursor - start) ≡ cursor = omega arith in
      (
        e,
        found,
        get_elem?-rows_from cells cursor start (cursor - start) shown
            ∙ rw (same, found, place, ==_refl cursor) refl,
        rw found refl,
        λ k.
            rw (get_elem?-rows_from cells cursor start k shown)
              (marks cells (start + k) cursor (get_elem? shown k)),
      )

  loaded-Shows :
      (cells : EventRecord → List (List ℕ)) (format_json loading : Bool) (es : List EventRecord)
      (cursor : ℕ) (busy none_held : List Row) (empty : List ℕ)
      → loading ≡ false
      → 0 < length es
      → cursor ≤ length es - 1
      → Shows cells format_json es 0 cursor
          (rows_or loading busy none_held (rows_from cells cursor 0) es)
          (panel empty format_json (get_elem? es cursor))
  loaded-Shows cells format_json loading es cursor busy none_held empty loaded some_event inside =
      let all : cursor - 0 ≡ cursor = omega arith in
      rw (loaded, rows_or-rows busy none_held (rows_from cells cursor 0) es some_event)
        (Shows-rows_from cells format_json es es 0 cursor empty (omega arith) (omega arith)
          (ap (get_elem? es) all))

  -- Once the lists are loaded and not empty, with the cursors inside them and a live tail of at least
  -- one row: in each of the three tabs of events the row of the event under the cursor is
  -- highlighted, no other row is, and the detail panel is about this event; the table of the live
  -- tail is drawn, from its window's first event on.
  pub highlighted_lem :
      (h : ℕ) (s : AppState)
      → InRange s
      → s.detail_loading ≡ false
      → s.global_loading ≡ false
      → 0 < length s.detail_events
      → 0 < length s.global_events
      → 0 < length s.live_events
      → 4 < h
      → Shows detail_cells s.format_json s.detail_events 0 s.detail_cursor
          (detail_table s).rows
          (detail_panel s)
        × Shows log_cells s.format_json s.global_events 0 s.global_cursor
            (global_table s).rows
            (global_panel s)
        × ((table : Table) × (live_table h s ≡ some table)
            × Shows log_cells s.format_json s.live_events
                (window_start h s)
                (display_cursor s)
                table.rows
                (live_panel s))
  unfolding detail_table detail_panel global_table global_panel live_table live_panel
  highlighted_lem h s (a, b, c, d) detail_loaded global_loaded detail global live wide =
      let (shown, drawn, few, follows) = visible_events_lem h s d in
      let at_cursor = display_cursor-le s d in
      let rows : live_rows h s shown
          ≡ rows_from log_cells (display_cursor s) (window_start h s) shown =
        rows_or-rows [] _ (λ all. rows_from log_cells (display_cursor s) (window_start h s) shown)
          s.live_events live in
      (
        loaded-Shows detail_cells s.format_json s.detail_loading s.detail_events s.detail_cursor _ _
            _ detail_loaded detail b,
        loaded-Shows log_cells s.format_json s.global_loading s.global_events s.global_cursor _ _ _
            global_loaded global c,
        (
          _,
          ap (Option.map _) drawn,
          rw rows (
              Shows-rows_from log_cells s.format_json s.live_events shown (window_start h s)
                (display_cursor s) _ (omega arith) (omega arith) (follows wide)),
        ),
      )
