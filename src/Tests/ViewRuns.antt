-- ===== src/Tests/ViewRuns.antt =====
-- Runs of the views of eventfold-console/src.
use eventfold_db.Common.{◌≡◌, [], refl, true, ◌∷◌, none, some, arith, get_elem?, is_utf8, take}
use eventfold_db.Console.App.{AppState, new}
use eventfold_db.Console.Client
use eventfold_db.Console.Loop.{run_event_loop}
use eventfold_db.Console.Cursors.{InRange}
use eventfold_db.Console.Views.{display_cursor, window_start, truncate}
use eventfold_db.Console.Texts.{
  JsonCrate, codes, chars, chars_from, to_string, digits, join, hex_dump, format_bytes,
}
use eventfold_db.Console.Tables.{
  Table, detail_cells, log_cells, label, detail_table, detail_panel, global_table, global_panel,
  live_table, live_panel,
}
use eventfold_db.Console.Highlight.{Shows, highlighted_lem}
use eventfold_db.Console.Screen.{Screen, render, run_event_loop-render}
use eventfold_db.Tests.ConsoleRuns.{paused, press_down, paused-InRange}

-- Nothing is JSON.
instance abbrev no_json : JsonCrate
no_json = record { Value = Unit {0}; from_slice = λ bytes. none; to_string_pretty = λ value. [] }

-- The same two events in all lists.
abbrev loaded : AppState
loaded = record paused {
  detail_events = paused.live_events;
  detail_cursor = 1;
  global_events = paused.live_events;
}

loaded-InRange : InRange loaded
unfolding new
loaded-InRange = (omega arith, omega arith, omega arith, omega arith)

highlighted_lem_example :
    Shows detail_cells loaded.format_json loaded.detail_events 0 1
      (detail_table loaded).rows
      (detail_panel loaded)
    × Shows log_cells loaded.format_json loaded.global_events 0 0
        (global_table loaded).rows
        (global_panel loaded)
    × ((table : Table) × (live_table 6 loaded ≡ some table)
        × Shows log_cells loaded.format_json loaded.live_events
            (window_start 6 loaded)
            (display_cursor loaded)
            table.rows
            (live_panel loaded))
unfolding new
highlighted_lem_example =
    highlighted_lem 6 loaded loaded-InRange refl refl (omega arith) (omega arith) (omega arith)
      (omega arith)

run_event_loop-render_example :
    (screen : Screen) × (render 5 (run_event_loop paused (press_down ∷ [])) ≡ some screen)
    × (let (titles, selected) = screen.tabs in
        get_elem? titles selected
        ≡ some (label (run_event_loop paused (press_down ∷ [])).active_tab, true))
unfolding new Client.list_streams Client.read_stream Client.read_all
run_event_loop-render_example =
    run_event_loop-render 5 paused (press_down ∷ []) paused-InRange ((tt, tt, tt), tt)

-- "é" is one character of two bytes.
accented : chars (0xc3 ∷ 0xa9 ∷ b'x' ∷ []) ≡ 0xe9 ∷ b'x' ∷ []
unfolding chars_from
accented = refl

printed : to_string 1207 ≡ codes "1207"
unfolding digits
printed = refl

not_text : format_bytes (0xff ∷ 0x0a ∷ []) true ≡ codes "ff 0a"
unfolding format_bytes hex_dump join is_utf8 take
not_text = refl

shortened : truncate (codes "account") 6 ≡ codes "acc..."
unfolding truncate take
shortened = refl
