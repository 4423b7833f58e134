-- ===== src/Console/Loop.antt =====
-- eventfold-console/src/main.rs: the event loop, without the terminal's own input and output. A tick
-- holds what the service answers, the messages of the subscription, and the key that was pressed.
use eventfold_db.Common.{[], ℕ, true, false, List, ◌∷◌, Option, none, some, if◌then◌else◌}
use eventfold_db.Service.{Reply, reply, refuse}
use eventfold_db.Console.App.{AppState, EventRecord, Action, push_live_event, apply_action}
use eventfold_db.Console.Keys.{KeyEvent, handle_key_event}
use eventfold_db.Console.Client
use eventfold_db.Console.Client.{Answers, SubscriptionMsg}

abbrev pub read_page_size : ℕ
read_page_size = 1000

-- The list that an answer gives, or the one held before an error.
abbrev pub or_keep {ℓ} : {A : Type ℓ} → List A → Reply (List A) → List A
or_keep held (reply xs) = xs
or_keep held (refuse e) = held

abbrev pub detail_of : Answers → Option (List ℕ) → List EventRecord → List EventRecord
detail_of answers none held = held
detail_of answers (some stream_id) held =
    or_keep held (Client.read_stream answers stream_id 0 read_page_size)

abbrev pub fetch_streams : Answers → AppState → AppState
fetch_streams answers state =
    if state.streams_loading
    then record state {
      streams = or_keep state.streams (Client.list_streams answers);
      streams_loading = false;
    }
    else state

abbrev pub fetch_detail : Answers → AppState → AppState
fetch_detail answers state =
    if state.detail_loading
    then record state {
      detail_events = detail_of answers state.detail_stream_id state.detail_events;
      detail_loading = false;
    }
    else state

abbrev pub fetch_global : Answers → AppState → AppState
fetch_global answers state =
    if state.global_loading
    then record state {
      global_events = or_keep state.global_events (Client.read_all answers 0 read_page_size);
      global_loading = false;
    }
    else state

unfoldable pub handle_data_fetches : Answers → AppState → AppState
handle_data_fetches answers state =
    fetch_global answers (fetch_detail answers (fetch_streams answers state))

abbrev pub receive : AppState → SubscriptionMsg → AppState
receive state (SubscriptionMsg.event event) = push_live_event state event
receive state SubscriptionMsg.caught_up = record state { live_caught_up = true }
receive state (SubscriptionMsg.error e) = state

-- The drained channel.
unfoldable pub drain : AppState → List SubscriptionMsg → AppState
drain state [] = state
drain state (msg ∷ msgs) = drain (receive state msg) msgs

pub record Tick : Type 0 where
  pub answers : Answers
  pub received : List SubscriptionMsg
  pub key : Option KeyEvent

abbrev pub act : AppState → Option Action → AppState
act state none = state
act state (some action) = apply_action state action

abbrev pub press : AppState → Option KeyEvent → AppState
press state none = state
press state (some key) = act state (handle_key_event key state.active_tab)

abbrev pub tick : AppState → Tick → AppState
tick state t = press (drain (handle_data_fetches t.answers state) t.received) t.key

unfoldable pub run_event_loop : AppState → List Tick → AppState
run_event_loop state [] = state
run_event_loop state (t ∷ ts) =
    let now = tick state t in
    let rest = run_event_loop now ts in if now.should_quit then now else rest
