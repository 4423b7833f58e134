-- ===== src/Tests/ConsoleRuns.antt =====
-- Runs of eventfold-console/src, of a subscription of two events.
use eventfold_db.Common.{
  ◌-◌, ◌≤◌, ◌<◌, ◌≡◌, [], ℕ, refl, false, true, List, ◌∷◌, map, Option, none, some, arith, length,
  drop, get_elem?,
}
use eventfold_db.Broker.{publish}
use eventfold_db.Service.{Reply, reply, refuse, invalid_status, StatusText}
use eventfold_db.Service.Messages.{SubscribeMessage}
use eventfold_db.Service.Subscribe.{subscribe_all_rpc}
use eventfold_db.Console.App.{AppState, EventRecord, Tab, new, live_tail_capacity}
use eventfold_db.Console.Keys.{KeyCode}
use eventfold_db.Console.Client
use eventfold_db.Console.Client.{Answers, SubscriptionMsg, spawn_subscription}
use eventfold_db.Console.Loop.{Tick, drain, run_event_loop}
use eventfold_db.Console.Buffer.{suffix}
use eventfold_db.Console.Tail.{shown, spawn_subscription_lem}
use eventfold_db.Console.Cursors.{InRange, run_event_loop-InRange}
use eventfold_db.Console.Views.{display_cursor, window_start, visible_events}
use eventfold_db.Console.Tls.{Cli}
use eventfold_db.Console.Window.{visible_events_lem}
use eventfold_db.Tests.Data.{plain_uuid, paid, repaid}
use eventfold_db.Tests.ReaderRuns.{first_log}

abbrev panics : SubscriptionMsg → Option SubscriptionMsg
panics msg = none

spawn_subscription_lem_example :
    (rs : List (Reply SubscribeMessage)) × (subscribe_all_rpc 0
        (first_log ∷ [])
        (publish (drop 1 (paid ∷ repaid ∷ [])))
      ≡ some rs)
    × ((drain (new []) (spawn_subscription panics 3 (reply rs))).live_events
        ≡ suffix live_tail_capacity (map shown (paid ∷ repaid ∷ [])))
    × ((drain (new []) (spawn_subscription panics 3 (reply rs))).live_caught_up ≡ true)
spawn_subscription_lem_example =
    spawn_subscription_lem panics [] 3 (paid ∷ repaid ∷ []) (first_log ∷ []) 1 (refl, (refl, tt))
      (omega arith) (omega arith) ((repaid ∷ [], refl), tt) (omega arith, tt) (omega arith)
      (omega arith)

-- A state with the two events in the live tail, paused on the second one.
abbrev pub paused : AppState
paused = record (new []) {
  active_tab = Tab.live_tail;
  live_events = shown paid ∷ shown repaid ∷ [];
  live_paused = true;
  live_cursor = 1;
}

abbrev pub refused : Answers
refused = record {
  on_read_all = λ from count. refuse (invalid_status StatusText.events_empty);
  on_read_stream = λ id from count. refuse (invalid_status StatusText.events_empty);
  on_list_streams = refuse (invalid_status StatusText.events_empty);
}

abbrev pub press_down : Tick
press_down = record {
  answers = refused;
  received = SubscriptionMsg.event (shown repaid) ∷ [];
  key = some (record { code = KeyCode.arrow_down; control = false });
}

pub paused-InRange : InRange paused
unfolding new
paused-InRange = (omega arith, omega arith, omega arith, omega arith)

run_event_loop-InRange_example : InRange (run_event_loop paused (press_down ∷ []))
unfolding new Client.list_streams Client.read_stream Client.read_all
run_event_loop-InRange_example =
    run_event_loop-InRange paused (press_down ∷ []) paused-InRange ((tt, tt, tt), tt)

visible_events_lem_example :
    (rows : List EventRecord) × (visible_events 5 paused ≡ some rows)
    × (length rows ≤ 5 - 4)
    × (4 < 5
        → get_elem? rows (display_cursor paused - window_start 5 paused)
          ≡ get_elem? paused.live_events (display_cursor paused))
visible_events_lem_example = visible_events_lem 5 paused (omega arith)

-- A file holds its path.
abbrev own_path : List ℕ → Option (List ℕ)
own_path path = some path

abbrev mutual_tls : Cli
mutual_tls = record {
  addr = [];
  tls = false;
  tls_ca = none;
  tls_client_cert = some (b'c' ∷ []);
  tls_client_key = some (b'k' ∷ []);
}
