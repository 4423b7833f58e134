-- ===== src/Console/App.antt =====
-- eventfold-console/src/app.rs: the state of the terminal application, its actions and its keys.
-- A string is its UTF-8 bytes.
use eventfold_db.Common.{
  [], ℕ, ◌+◌, ◌-◌, Bool, true, false, not, ◌&&◌, List, ◌∷◌, ◌++◌, Option, none, some, length,
  get_elem?, drop, ltb, leb, if◌then◌else◌,
}

abbrev pub live_tail_capacity : ℕ
live_tail_capacity = 10000

pub data Tab : Type 0 where
  streams : Tab
  stream_detail : Tab
  global_log : Tab
  live_tail : Tab

-- The tab behind and the tab before in `TAB_ORDER`, which goes around.
unfoldable pub next : Tab → Tab
next Tab.streams = Tab.stream_detail
next Tab.stream_detail = Tab.global_log
next Tab.global_log = Tab.live_tail
next Tab.live_tail = Tab.streams

unfoldable pub prev : Tab → Tab
prev Tab.streams = Tab.live_tail
prev Tab.stream_detail = Tab.streams
prev Tab.global_log = Tab.stream_detail
prev Tab.live_tail = Tab.global_log

pub record StreamInfo : Type 0 where
  pub stream_id : List ℕ
  pub event_count : ℕ
  pub latest_version : ℕ

pub record EventRecord : Type 0 where
  pub event_id : List ℕ
  pub stream_id : List ℕ
  pub stream_version : ℕ
  pub global_position : ℕ
  pub recorded_at : ℕ
  pub event_type : List ℕ
  pub metadata : List ℕ
  pub payload : List ℕ

pub data Action : Type 0 where
  quit : Action
  switch_tab : Tab → Action
  cursor_up : Action
  cursor_down : Action
  select : Action
  refresh : Action
  toggle_format : Action
  toggle_pause : Action

pub record AppState : Type 0 where
  pub active_tab : Tab
  pub should_quit : Bool
  pub server_addr : List ℕ
  pub format_json : Bool
  pub streams : List StreamInfo
  pub streams_cursor : ℕ
  pub streams_loading : Bool
  pub detail_stream_id : Option (List ℕ)
  pub detail_events : List EventRecord
  pub detail_cursor : ℕ
  pub detail_loading : Bool
  pub global_events : List EventRecord
  pub global_cursor : ℕ
  pub global_loading : Bool
  pub live_events : List EventRecord
  pub live_caught_up : Bool
  pub live_paused : Bool
  pub live_cursor : ℕ

unfoldable pub new : List ℕ → AppState
new server_addr = record {
  active_tab = Tab.streams;
  should_quit = false;
  server_addr = server_addr;
  format_json = true;
  streams = [];
  streams_cursor = 0;
  streams_loading = false;
  detail_stream_id = none;
  detail_events = [];
  detail_cursor = 0;
  detail_loading = false;
  global_events = [];
  global_cursor = 0;
  global_loading = false;
  live_events = [];
  live_caught_up = false;
  live_paused = false;
  live_cursor = 0;
}

-- The buffer, its oldest event dropped when it is full, and the event.
unfoldable pub pushed : List EventRecord → EventRecord → List EventRecord
pushed events event =
    (if leb live_tail_capacity (length events) then drop 1 events else events) ++ event ∷ []

unfoldable pub push_live_event : AppState → EventRecord → AppState
push_live_event self event = record self { live_events = pushed self.live_events event }

abbrev pub is_empty {ℓ} : {A : Type ℓ} → List A → Bool
is_empty [] = true
is_empty (x ∷ xs) = false

abbrev pub list_len_on : Tab → AppState → ℕ
list_len_on Tab.streams self = length self.streams
list_len_on Tab.stream_detail self = length self.detail_events
list_len_on Tab.global_log self = length self.global_events
list_len_on Tab.live_tail self = length self.live_events

unfoldable pub current_list_len : AppState → ℕ
current_list_len self = list_len_on self.active_tab self

-- `current_cursor_mut`, and a write through it.
abbrev pub on_cursor : Tab → (ℕ → ℕ) → AppState → AppState
on_cursor Tab.streams f self = record self { streams_cursor = f self.streams_cursor }
on_cursor Tab.stream_detail f self = record self { detail_cursor = f self.detail_cursor }
on_cursor Tab.global_log f self = record self { global_cursor = f self.global_cursor }
on_cursor Tab.live_tail f self = record self { live_cursor = f self.live_cursor }

unfoldable pub current_cursor_mut : (ℕ → ℕ) → AppState → AppState
current_cursor_mut f self = on_cursor self.active_tab f self

abbrev pub min : ℕ → ℕ → ℕ
min a b = if ltb a b then a else b

-- A step down a list of that length, which an empty list ignores.
abbrev pub down : ℕ → ℕ → ℕ
down len cursor = if ltb 0 len then min (cursor + 1) (len - 1) else cursor

abbrev pub load_on : Tab → AppState → AppState
load_on Tab.streams self =
    if is_empty self.streams && not self.streams_loading
    then record self { streams_loading = true }
    else self
load_on Tab.stream_detail self = self
load_on Tab.global_log self =
    if is_empty self.global_events && not self.global_loading
    then record self { global_loading = true }
    else self
load_on Tab.live_tail self = self

abbrev pub show_stream : Option StreamInfo → AppState → AppState
show_stream none self = self
show_stream (some stream) self = record self {
  detail_stream_id = some stream.stream_id;
  detail_events = [];
  detail_cursor = 0;
  detail_loading = true;
  active_tab = Tab.stream_detail;
}

abbrev pub select_on : Tab → AppState → AppState
select_on Tab.streams self = show_stream (get_elem? self.streams self.streams_cursor) self
select_on Tab.stream_detail self = self
select_on Tab.global_log self = self
select_on Tab.live_tail self = self

abbrev pub refresh_on : Tab → AppState → AppState
refresh_on Tab.streams self = record self { streams_loading = true }
refresh_on Tab.stream_detail self = record self { detail_loading = true }
refresh_on Tab.global_log self = record self { global_loading = true }
refresh_on Tab.live_tail self = self

abbrev pub pause_on : Tab → AppState → AppState
pause_on Tab.streams self = self
pause_on Tab.stream_detail self = self
pause_on Tab.global_log self = self
pause_on Tab.live_tail self = record self { live_paused = not self.live_paused }

unfoldable pub apply_action : AppState → Action → AppState
apply_action self Action.quit = record self { should_quit = true }
apply_action self (Action.switch_tab tab) = load_on tab (record self { active_tab = tab })
apply_action self Action.cursor_up = current_cursor_mut (λ cursor. cursor - 1) self
apply_action self Action.cursor_down = current_cursor_mut (down (current_list_len self)) self
apply_action self Action.select = select_on self.active_tab self
apply_action self Action.refresh = refresh_on self.active_tab self
apply_action self Action.toggle_format = record self { format_json = not self.format_json }
apply_action self Action.toggle_pause = pause_on self.active_tab self
