-- ===== src/Console/Keys.antt =====
-- eventfold-console/src/app.rs: the keys and their actions.
use eventfold_db.Common.{ℕ, Bool, ◌&&◌, Option, none, some, ◌==◌, if◌then◌else◌}
use eventfold_db.Console.App.{Tab, Action, next, prev}

-- crossterm's codes, `other` for the ones that no action has.
pub data KeyCode : Type 0 where
  char : ℕ → KeyCode
  esc : KeyCode
  tab : KeyCode
  back_tab : KeyCode
  arrow_down : KeyCode
  arrow_up : KeyCode
  enter : KeyCode
  other : KeyCode

pub record KeyEvent : Type 0 where
  pub code : KeyCode
  pub control : Bool

abbrev pub char_action : Bool → ℕ → Option Action
char_action control c =
    if c == b'q'
    then some Action.quit
    else if c == b'1'
    then some (Action.switch_tab Tab.streams)
    else if c == b'2'
    then some (Action.switch_tab Tab.stream_detail)
    else if c == b'3'
    then some (Action.switch_tab Tab.global_log)
    else if c == b'4'
    then some (Action.switch_tab Tab.live_tail)
    else if c == b'j'
    then some Action.cursor_down
    else if c == b'k'
    then some Action.cursor_up
    else if c == b'r'
    then some Action.refresh
    else if c == b'f'
    then some Action.toggle_format
    else if c == b'p'
    then some Action.toggle_pause
    else if (c == b'c') && control
    then some Action.quit
    else none

abbrev pub code_action : KeyCode → Bool → Tab → Option Action
code_action (char c) control current = char_action control c
code_action esc control current = some Action.quit
code_action tab control current = some (Action.switch_tab (next current))
code_action back_tab control current = some (Action.switch_tab (prev current))
code_action arrow_down control current = some Action.cursor_down
code_action arrow_up control current = some Action.cursor_up
code_action enter control current = some Action.select
code_action other control current = none

unfoldable pub handle_key_event : KeyEvent → Tab → Option Action
handle_key_event key current = code_action key.code key.control current
