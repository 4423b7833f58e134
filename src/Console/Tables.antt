-- ===== src/Console/Tables.antt =====
-- eventfold-console/src/views: what the four tabs show, without their colours and widths: a table,
-- its rows with the one that is highlighted, and under it the text of the detail panel.
use eventfold_db.Common.{
  [], ℕ, ◌+◌, Bool, true, false, List, ◌∷◌, ◌++◌, Option, none, some, length, get_elem?, ◌==◌,
  if◌then◌else◌,
}
use mathlib.Core.Option
use eventfold_db.Console.App.{Tab, StreamInfo, EventRecord, AppState}
use eventfold_db.Console.Views.{truncate, display_cursor, window_start, visible_events}
use eventfold_db.Console.Texts.{codes, chars, to_string, JsonCrate, format_bytes}

pub record Row : Type 0 where
  pub cells : List (List ℕ)
  pub highlighted : Bool

pub record Table : Type 0 where
  pub title : List ℕ
  pub header : List (List ℕ)
  pub rows : List Row

-- A message in place of the rows.
abbrev pub only : List (List ℕ) → List Row
only cells = record { cells = cells; highlighted = false } ∷ []

-- `iter().enumerate().map(...)`, from number `i` on: the row of the cursor is highlighted.
unfoldable pub rows_from {ℓ} : {A : Type ℓ} → (A → List (List ℕ)) → ℕ → ℕ → List A → List Row
rows_from cells cursor i [] = []
rows_from cells cursor i (x ∷ xs) =
    record { cells = cells x; highlighted = i == cursor } ∷ rows_from cells cursor (i + 1) xs

unfoldable pub rows_or {ℓ} :
    {A : Type ℓ} → Bool → List Row → List Row → (List A → List Row) → List A → List Row
rows_or true busy empty rows xs = busy
rows_or false busy empty rows [] = empty
rows_or false busy empty rows (x ∷ xs) = rows (x ∷ xs)

-- `Tab::label`
unfoldable pub label : Tab → List ℕ
label Tab.streams = codes "Streams"
label Tab.stream_detail = codes "Stream Events"
label Tab.global_log = codes "Global Log"
label Tab.live_tail = codes "Live Tail"

abbrev pub stream_cells : StreamInfo → List (List ℕ)
stream_cells s = chars s.stream_id ∷ to_string s.event_count ∷ to_string s.latest_version ∷ []

-- views/streams.rs
unfoldable pub streams_table : AppState → Table
streams_table state = record {
  title = codes " Streams ";
  header = codes "Stream ID" ∷ codes "Events" ∷ codes "Latest Version" ∷ [];
  rows =
      rows_or state.streams_loading (only (codes "Loading..." ∷ [] ∷ [] ∷ []))
        (only (codes "No streams found" ∷ [] ∷ [] ∷ []))
        (rows_from stream_cells state.streams_cursor 0) state.streams;
}

abbrev pub detail_title : Option (List ℕ) → List ℕ
detail_title none = codes " No stream selected "
detail_title (some id) = codes " Stream: " ++ truncate (chars id) 36 ++ codes " "

abbrev pub log_header : List (List ℕ)
log_header =
    codes "Global Pos" ∷ codes "Stream ID" ∷ codes "Version" ∷ codes "Type" ∷ codes "Preview" ∷ []

abbrev pub live_status : AppState → List ℕ
live_status state =
    if state.live_paused
    then codes "Paused"
    else if state.live_caught_up
    then codes "Live"
    else codes "Catching up..."

abbrev pub new_line : List ℕ
new_line = 10 ∷ []

module _ ⦃json : JsonCrate⦄ where
  abbrev pub detail_cells : EventRecord → List (List ℕ)
  detail_cells e =
      to_string e.global_position
      ∷ to_string e.stream_version
      ∷ chars e.event_type
      ∷ truncate (format_bytes e.payload false) 40
      ∷ []

  -- views/stream_detail.rs
  unfoldable pub detail_table : AppState → Table
  detail_table state = record {
    title = detail_title state.detail_stream_id;
    header = codes "Global Pos" ∷ codes "Version" ∷ codes "Type" ∷ codes "Payload Preview" ∷ [];
    rows =
        rows_or state.detail_loading (only (codes "Loading..." ∷ [] ∷ [] ∷ [] ∷ []))
          (only (codes "No events" ∷ [] ∷ [] ∷ [] ∷ []))
          (rows_from detail_cells state.detail_cursor 0) state.detail_events;
  }

  abbrev pub log_cells : EventRecord → List (List ℕ)
  log_cells e =
      to_string e.global_position
      ∷ truncate (chars e.stream_id) 12
      ∷ to_string e.stream_version
      ∷ chars e.event_type
      ∷ truncate (format_bytes e.payload false) 30
      ∷ []

  -- views/global_log.rs
  unfoldable pub global_table : AppState → Table
  global_table state = record {
    title = codes " Global Log ";
    header = log_header;
    rows =
        rows_or state.global_loading (only (codes "Loading..." ∷ [] ∷ [] ∷ [] ∷ [] ∷ []))
          (only (codes "No events" ∷ [] ∷ [] ∷ [] ∷ [] ∷ []))
          (rows_from log_cells state.global_cursor 0) state.global_events;
  }

  abbrev pub live_rows : ℕ → AppState → List EventRecord → List Row
  live_rows area_height state shown =
      rows_or false [] (only (codes "Waiting for events..." ∷ [] ∷ [] ∷ [] ∷ [] ∷ []))
        (λ all. rows_from log_cells (display_cursor state) (window_start area_height state) shown)
        state.live_events

  -- views/live_tail.rs, in an area of that height; `none` stands for a slice out of range.
  unfoldable pub live_table : ℕ → AppState → Option Table
  live_table area_height state =
      Option.map
        (λ shown. record {
          title =
              codes " Live Tail ["
              ++ live_status state
              ++ codes "] ("
              ++ to_string (length state.live_events)
              ++ codes " events) ";
          header = log_header;
          rows = live_rows area_height state shown;
        })
        (visible_events area_height state)

  -- The text that the three detail panels share.
  unfoldable pub event_text : Bool → EventRecord → List ℕ
  event_text format_json e =
      codes "Event ID:  "
      ++ chars e.event_id
      ++ new_line
      ++ codes "Stream:    "
      ++ chars e.stream_id
      ++ new_line
      ++ codes "Version:   "
      ++ to_string e.stream_version
      ++ new_line
      ++ codes "Global:    "
      ++ to_string e.global_position
      ++ new_line
      ++ codes "Type:      "
      ++ chars e.event_type
      ++ new_line
      ++ new_line
      ++ codes "--- Payload ---"
      ++ new_line
      ++ format_bytes e.payload format_json
      ++ new_line
      ++ new_line
      ++ codes "--- Metadata ---"
      ++ new_line
      ++ format_bytes e.metadata format_json

  abbrev pub panel : List ℕ → Bool → Option EventRecord → List ℕ
  panel empty format_json none = empty
  panel empty format_json (some e) = event_text format_json e

  unfoldable pub detail_panel : AppState → List ℕ
  detail_panel state =
      panel (codes "Select an event to view details") state.format_json
        (get_elem? state.detail_events state.detail_cursor)

  unfoldable pub global_panel : AppState → List ℕ
  global_panel state =
      panel (codes "Select an event to view details") state.format_json
        (get_elem? state.global_events state.global_cursor)

  unfoldable pub live_panel : AppState → List ℕ
  live_panel state =
      panel (codes "Waiting for events...") state.format_json
        (get_elem? state.live_events (display_cursor state))
