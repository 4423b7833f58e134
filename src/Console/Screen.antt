-- ===== src/Console/Screen.antt =====
-- eventfold-console/src/tui.rs: the whole screen: the tab bar, the content of the active tab and the
-- status bar, without colours and layout.
use eventfold_db.Common.{
  [], ℕ, ◌+◌, ◌≤◌, ◌-◌, ◌≡◌, refl, ap, Bool, true, List, ◌∷◌, ◌++◌, map, Option, none, some, length,
  get_elem?, ◌==◌, if◌then◌else◌,
}
use mathlib.Core.Option
use eventfold_db.Console.App.{Tab, AppState}
use eventfold_db.Console.Texts.{codes, chars, to_string, JsonCrate}
use eventfold_db.Console.Tables.{
  Table, label, streams_table, detail_table, global_table, live_table, detail_panel, global_panel,
  live_panel,
}
use eventfold_db.Console.Loop.{Tick, run_event_loop}
use eventfold_db.Console.Cursors.{InRange, Growing, run_event_loop-InRange}
use eventfold_db.Console.Window.{visible_events_lem}

abbrev pub tab_order : List Tab
tab_order = Tab.streams ∷ Tab.stream_detail ∷ Tab.global_log ∷ Tab.live_tail ∷ []

abbrev tab_number : Tab → ℕ
tab_number Tab.streams = 0
tab_number Tab.stream_detail = 1
tab_number Tab.global_log = 2
tab_number Tab.live_tail = 3

abbrev pub is_tab : Tab → Tab → Bool
is_tab t u = tab_number t == tab_number u

abbrev pub position_from : ℕ → Tab → List Tab → Option ℕ
position_from i active [] = none
position_from i active (t ∷ ts) =
    let rest = position_from (i + 1) active ts in if is_tab t active then some i else rest

-- `render_tabs`: the titles, each with whether it is styled as active, and the selected one.
unfoldable pub render_tabs : AppState → List (List ℕ × Bool) × ℕ
render_tabs state = (
  map (λ t. (label t, is_tab t state.active_tab)) tab_order,
  Option.get_or (position_from 0 state.active_tab tab_order) 0,
)

-- `render_status_bar`
unfoldable pub render_status_bar : AppState → List ℕ
render_status_bar state =
    codes " Connected: "
    ++ chars state.server_addr
    ++ codes " | "
    ++ to_string (length state.streams)
    ++ codes " streams | "
    ++ (if state.format_json then codes "JSON:on" else codes "JSON:off")
    ++ codes " | 1-4:tab  j/k:scroll  Enter:select  r:refresh  f:format  p:pause  q:quit"

pub record Screen : Type 0 where
  pub tabs : List (List ℕ × Bool) × ℕ
  pub table : Table
  pub detail : Option (List ℕ)
  pub status_bar : List ℕ

module _ ⦃json : JsonCrate⦄ where
  -- `render_content`, with a table of that height; `none` stands for a panic.
  abbrev pub content_on : ℕ → Tab → AppState → Option (Table × Option (List ℕ))
  content_on height Tab.streams state = some (streams_table state, none)
  content_on height Tab.stream_detail state = some (detail_table state, some (detail_panel state))
  content_on height Tab.global_log state = some (global_table state, some (global_panel state))
  content_on height Tab.live_tail state =
      Option.map (λ table. (table, some (live_panel state))) (live_table height state)

  unfoldable pub render_content : ℕ → AppState → Option (Table × Option (List ℕ))
  render_content height state = content_on height state.active_tab state

  unfoldable pub render : ℕ → AppState → Option Screen
  render height state =
      Option.map
        (λ (table, detail). record {
          tabs = render_tabs state;
          table = table;
          detail = detail;
          status_bar = render_status_bar state;
        })
        (render_content height state)

  content_on-some :
      (height : ℕ) (t : Tab) (s : AppState)
      → s.live_cursor ≤ length s.live_events - 1
      → (c : Table × Option (List ℕ)) × (content_on height t s ≡ some c)
  unfolding live_table
  content_on-some height Tab.streams s h = (_, refl)
  content_on-some height Tab.stream_detail s h = (_, refl)
  content_on-some height Tab.global_log s h = (_, refl)
  content_on-some height Tab.live_tail s h =
      let (shown, drawn, few, follows) = visible_events_lem height s h in
      (_, ap (Option.map _) (ap (Option.map _) drawn))

  tabs_lem :
      (t : Tab)
      → get_elem? {A = List ℕ × Bool}
          (map (λ u. (label u, is_tab u t)) tab_order)
          (Option.get_or (position_from 0 t tab_order) 0)
        ≡ some (label t, true)
  tabs_lem Tab.streams = refl
  tabs_lem Tab.stream_detail = refl
  tabs_lem Tab.global_log = refl
  tabs_lem Tab.live_tail = refl

  render_lem :
      (height : ℕ) (s : AppState)
      → s.live_cursor ≤ length s.live_events - 1
      → (screen : Screen) × (render height s ≡ some screen)
        × (let (titles, selected) = screen.tabs in
            get_elem? titles selected ≡ some (label s.active_tab, true))
  unfolding render render_content render_tabs
  render_lem height s h =
      let (c, drawn) = content_on-some height s.active_tab s h in
      (_, ap (Option.map _) drawn, tabs_lem s.active_tab)

  -- If the lists that the service answers with do not shrink, the screen can be drawn after any run
  -- of the event loop, for any keys and messages and at every height of the table, and the tab that
  -- is selected in the bar is the active one.
  pub run_event_loop-render :
      (height : ℕ) (s : AppState) (ts : List Tick)
      → InRange s
      → Growing s ts
      → (screen : Screen) × (render height (run_event_loop s ts) ≡ some screen)
        × (let (titles, selected) = screen.tabs in
            get_elem? titles selected ≡ some (label (run_event_loop s ts).active_tab, true))
  run_event_loop-render height s ts h grow =
      let (a, b, c, d) = run_event_loop-InRange s ts h grow in
      render_lem height (run_event_loop s ts) d
