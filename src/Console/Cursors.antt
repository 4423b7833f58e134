-- ===== src/Console/Cursors.antt =====
-- eventfold-console/src/app.rs, src/main.rs: the cursors and their lists, along a run of the event loop.
use eventfold_db.Common.{
  [], ℕ, ◌-◌, ◌≤◌, Bool, true, false, Bool-cases, inl, inr, List, ◌∷◌, Option, none, some, arith,
  length, drop, leb, if◌then◌else◌, length-append, length-drop,
}
use eventfold_db.Service.{Reply, reply, refuse}
use eventfold_db.Console.App.{
  Tab, Action, AppState, EventRecord, StreamInfo, pushed, push_live_event, live_tail_capacity,
  list_len_on, current_list_len, on_cursor, current_cursor_mut, down, load_on, show_stream,
  select_on, refresh_on, pause_on, apply_action,
}
use eventfold_db.Console.Keys.{KeyEvent, handle_key_event}
use eventfold_db.Console.Client
use eventfold_db.Console.Client.{Answers, SubscriptionMsg}
use eventfold_db.Console.Loop.{
  read_page_size, or_keep, detail_of, fetch_streams, fetch_detail, fetch_global,
  handle_data_fetches, drain, Tick, act, press, tick, run_event_loop,
}

-- Each cursor is an index of its list, or 0 when the list is empty.
abbrev pub InRange : AppState → Type 0
InRange s =
    (s.streams_cursor ≤ length s.streams - 1)
    × (s.detail_cursor ≤ length s.detail_events - 1)
    × (s.global_cursor ≤ length s.global_events - 1)
    × (s.live_cursor ≤ length s.live_events - 1)

either : (P : AppState → Type 0) (b : Bool) (s t : AppState) → P s → P t → P (if b then s else t)
either P true s t hs ht = hs
either P false s t hs ht = ht

down-le : (len cursor : ℕ) → cursor ≤ len - 1 → down len cursor ≤ len - 1
down-le len cursor h = ground arith

-- A write through the cursor of a tab that keeps it inside the tab's list.
on_cursor-InRange :
    (t : Tab) (f : ℕ → ℕ) (s : AppState)
    → ((c : ℕ) → c ≤ list_len_on t s - 1 → f c ≤ list_len_on t s - 1)
    → InRange s
    → InRange (on_cursor t f s)
on_cursor-InRange Tab.streams f s keep (a, b, c, d) = (keep s.streams_cursor a, b, c, d)
on_cursor-InRange Tab.stream_detail f s keep (a, b, c, d) = (a, keep s.detail_cursor b, c, d)
on_cursor-InRange Tab.global_log f s keep (a, b, c, d) = (a, b, keep s.global_cursor c, d)
on_cursor-InRange Tab.live_tail f s keep (a, b, c, d) = (a, b, c, keep s.live_cursor d)

load_on-InRange : (t : Tab) (s : AppState) → InRange s → InRange (load_on t s)
load_on-InRange Tab.streams s h = either InRange _ _ _ h h
load_on-InRange Tab.stream_detail s h = h
load_on-InRange Tab.global_log s h = either InRange _ _ _ h h
load_on-InRange Tab.live_tail s h = h

show_stream-InRange : (o : Option StreamInfo) (s : AppState) → InRange s → InRange (show_stream o s)
show_stream-InRange none s h = h
show_stream-InRange (some stream) s (a, b, c, d) = (a, omega arith, c, d)

select_on-InRange : (t : Tab) (s : AppState) → InRange s → InRange (select_on t s)
select_on-InRange Tab.streams s h = show_stream-InRange _ s h
select_on-InRange Tab.stream_detail s h = h
select_on-InRange Tab.global_log s h = h
select_on-InRange Tab.live_tail s h = h

refresh_on-InRange : (t : Tab) (s : AppState) → InRange s → InRange (refresh_on t s)
refresh_on-InRange Tab.streams s h = h
refresh_on-InRange Tab.stream_detail s h = h
refresh_on-InRange Tab.global_log s h = h
refresh_on-InRange Tab.live_tail s h = h

pause_on-InRange : (t : Tab) (s : AppState) → InRange s → InRange (pause_on t s)
pause_on-InRange Tab.streams s h = h
pause_on-InRange Tab.stream_detail s h = h
pause_on-InRange Tab.global_log s h = h
pause_on-InRange Tab.live_tail s h = h

pub apply_action-InRange : (s : AppState) (a : Action) → InRange s → InRange (apply_action s a)
unfolding apply_action current_cursor_mut current_list_len
apply_action-InRange s Action.quit h = h
apply_action-InRange s (Action.switch_tab tab) h =
    load_on-InRange tab (record s { active_tab = tab }) h
apply_action-InRange s Action.cursor_up h =
    on_cursor-InRange s.active_tab (λ c. c - 1) s (λ c le. omega arith) h
apply_action-InRange s Action.cursor_down h =
    on_cursor-InRange s.active_tab (down (list_len_on s.active_tab s)) s
      (down-le (list_len_on s.active_tab s)) h
apply_action-InRange s Action.select h = select_on-InRange s.active_tab s h
apply_action-InRange s Action.refresh h = refresh_on-InRange s.active_tab s h
apply_action-InRange s Action.toggle_format h = h
apply_action-InRange s Action.toggle_pause h = pause_on-InRange s.active_tab s h

-- The buffer never gets shorter.
length-pushed : (es : List EventRecord) (e : EventRecord) → length es ≤ length (pushed es e)
unfolding pushed
length-pushed es e = elim (Bool-cases (leb live_tail_capacity (length es))) [
  | inl full ↦
      let some_event : live_tail_capacity ≤ length es = ground arith in
      rw full (omega (arith, some_event, length-append (drop 1 es) (e ∷ []), length-drop 1 es))
  | inr room ↦ rw room (omega (arith, length-append es (e ∷ [])))
]

drain-InRange : (s : AppState) (msgs : List SubscriptionMsg) → InRange s → InRange (drain s msgs)
unfolding drain push_live_event
drain-InRange s [] h = h
drain-InRange s (SubscriptionMsg.event e ∷ msgs) (a, b, c, d) =
    drain-InRange (push_live_event s e) msgs
      (a, b, c, omega (arith, d, length-pushed s.live_events e))
drain-InRange s (SubscriptionMsg.caught_up ∷ msgs) h =
    drain-InRange (record s { live_caught_up = true }) msgs h
drain-InRange s (SubscriptionMsg.error e ∷ msgs) h = drain-InRange s msgs h

-- What an answer gives is no shorter than what is held.
abbrev pub NoShorter {ℓ} : {A : Type ℓ} → List A → Reply (List A) → Type 0
NoShorter held (reply xs) = length held ≤ length xs
NoShorter held (refuse e) = Unit

abbrev pub DetailNoShorter : Answers → Option (List ℕ) → List EventRecord → Type 0
DetailNoShorter answers none held = Unit
DetailNoShorter answers (some stream_id) held =
    NoShorter held (Client.read_stream answers stream_id 0 read_page_size)

-- The lists that a tick's answers give have not shrunk.
abbrev pub Keeps : Answers → AppState → Type 0
Keeps answers s =
    NoShorter s.streams (Client.list_streams answers)
    × DetailNoShorter answers s.detail_stream_id s.detail_events
    × NoShorter s.global_events (Client.read_all answers 0 read_page_size)

or_keep-ge {ℓ} :
    {A : Type ℓ} (held : List A) (r : Reply (List A))
    → NoShorter held r
    → length held ≤ length (or_keep held r)
or_keep-ge held (reply xs) h = h
or_keep-ge held (refuse e) h = omega arith

detail_of-ge :
    (answers : Answers) (o : Option (List ℕ)) (held : List EventRecord)
    → DetailNoShorter answers o held
    → length held ≤ length (detail_of answers o held)
detail_of-ge answers none held h = omega arith
detail_of-ge answers (some stream_id) held h = or_keep-ge held _ h

fetch_global-InRange :
    (answers : Answers) (s : AppState)
    → InRange s × NoShorter s.global_events (Client.read_all answers 0 read_page_size)
    → InRange (fetch_global answers s)
fetch_global-InRange answers s ((a, b, c, d), keep) =
    either InRange _ _ _ (a, b, omega (arith, or_keep-ge s.global_events _ keep), d) (a, b, c, d)

fetch_detail-Late :
    (answers : Answers) (s : AppState)
    → DetailNoShorter answers s.detail_stream_id s.detail_events
      × (InRange s × NoShorter s.global_events (Client.read_all answers 0 read_page_size))
    → InRange (fetch_detail answers s)
      × NoShorter (fetch_detail answers s).global_events (Client.read_all answers 0 read_page_size)
fetch_detail-Late answers s (keep, ((a, b, c, d), keep_global)) =
    either (λ t. InRange t × NoShorter t.global_events (Client.read_all answers 0 read_page_size)) _
      _ _
      (
        (a, omega (arith, detail_of-ge answers s.detail_stream_id s.detail_events keep), c, d),
        keep_global,
      )
      ((a, b, c, d), keep_global)

fetches-InRange :
    (answers : Answers) (s : AppState)
    → Keeps answers s
    → InRange s
    → InRange (handle_data_fetches answers s)
unfolding handle_data_fetches
fetches-InRange answers s (keep_streams, keep_detail, keep_global) (a, b, c, d) =
    let Late : AppState → Type 0 =
      λ t. InRange t × NoShorter t.global_events (Client.read_all answers 0 read_page_size) in
    let Later : AppState → Type 0 =
      λ t. DetailNoShorter answers t.detail_stream_id t.detail_events × Late t in
    let one : Later (fetch_streams answers s) =
      either Later _ _ _
        (keep_detail, ((omega (arith, or_keep-ge s.streams _ keep_streams), b, c, d), keep_global))
        (keep_detail, ((a, b, c, d), keep_global)) in
    let two = fetch_detail-Late answers (fetch_streams answers s) one in
    fetch_global-InRange answers (fetch_detail answers (fetch_streams answers s)) two

-- Along the ticks of a run, the service's lists do not shrink.
abbrev pub Growing : AppState → List Tick → Type 0
Growing s [] = Unit
Growing s (t ∷ ts) = Keeps t.answers s × Growing (tick s t) ts

act-InRange : (s : AppState) (o : Option Action) → InRange s → InRange (act s o)
act-InRange s none h = h
act-InRange s (some a) h = apply_action-InRange s a h

press-InRange : (s : AppState) (o : Option KeyEvent) → InRange s → InRange (press s o)
press-InRange s none h = h
press-InRange s (some key) h = act-InRange s (handle_key_event key s.active_tab) h

-- If the lists that the service answers with do not shrink while the application runs, the event
-- loop keeps each cursor inside its list (at 0 when that is empty), whatever keys are pressed and
-- whatever the subscription sends.
pub run_event_loop-InRange :
    (s : AppState) (ts : List Tick) → InRange s → Growing s ts → InRange (run_event_loop s ts)
unfolding run_event_loop
run_event_loop-InRange s [] h grow = h
run_event_loop-InRange s (t ∷ ts) h (keep, grow) =
    let now : InRange (tick s t) =
      press-InRange _ t.key (drain-InRange _ t.received (fetches-InRange t.answers s keep h)) in
    either InRange _ _ _ now (run_event_loop-InRange (tick s t) ts now grow)
