-- ===== src/Console/Tail.antt =====
-- eventfold-console/src/main.rs, src/app.rs: what the live tail holds of a subscription.
use eventfold_db.Common.{
  [], ℕ, zero, suc, ◌+◌, ◌-◌, ◌*◌, ◌≤◌, ◌<◌, ◌≡◌, ◌∙◌, refl, sym, ap, true, List, ◌∷◌, ◌++◌, map,
  Option, some, All, arith, length, drop, length-append,
}
use mathlib.Core.List.{map-append}
use eventfold_db.Crates.{UuidCrate}
use eventfold_db.Types.{RecordedEvent}
use eventfold_db.EventLog.{EventLog}
use eventfold_db.EventLog.WellFormed.{Positioned}
use eventfold_db.Reader.{max_u64}
use eventfold_db.Broker.{publish, catchup_batch_size}
use eventfold_db.Broker.Subscription.{Precedes}
use eventfold_db.Service.{Reply, reply, recorded_to_proto}
use eventfold_db.Service.Messages.{SubscribeMessage}
use eventfold_db.Service.Subscribe.{
  event_response, caught_up_response, subscribe_all_rpc, subscribe_all_rpc_once,
}
use eventfold_db.Console.App.{EventRecord, new, live_tail_capacity}
use eventfold_db.Console.Client.{
  SubscriptionMsg, proto_to_event_record, pass_on, spawn_subscription,
}
use eventfold_db.Console.Loop.{drain}
use eventfold_db.Console.Buffer.{
  suffix, received_events, has_caught_up, drain-suffix, drain-caught_up, new-suffix, new-caught_up,
}

drop_none {ℓ} : {A : Type ℓ} (xs : List A) → drop 0 xs ≡ xs
unfolding drop
drop_none xs = refl

module _ ⦃uuid : UuidCrate⦄ where
  -- An event of the log, as the application shows it.
  abbrev pub shown : RecordedEvent → EventRecord
  shown e = proto_to_event_record (recorded_to_proto e)

  abbrev to_msg : RecordedEvent → SubscriptionMsg
  to_msg e = SubscriptionMsg.event (shown e)

  received-events :
      (es : List RecordedEvent) (msgs : List SubscriptionMsg)
      → received_events (map to_msg es ++ msgs) ≡ map shown es ++ received_events msgs
  received-events [] msgs = refl
  received-events (e ∷ es) msgs = ap (◌∷◌ (shown e)) (received-events es msgs)

  received-all : (es : List RecordedEvent) → received_events (map to_msg es) ≡ map shown es
  received-all [] = refl
  received-all (e ∷ es) = ap (◌∷◌ (shown e)) (received-all es)

  received-phases :
      (caught live all : List RecordedEvent)
      → caught ++ live ≡ all
      → received_events (map to_msg caught ++ SubscriptionMsg.caught_up ∷ map to_msg live)
        ≡ map shown all
  received-phases caught live all whole =
      received-events caught (SubscriptionMsg.caught_up ∷ map to_msg live)
      ∙ ap (λ es. map shown caught ++ es) (received-all live)
      ∙ sym (map-append shown caught live)
      ∙ ap (map shown) whole

  caught_up-events :
      (es : List RecordedEvent) (msgs : List SubscriptionMsg)
      → has_caught_up (map to_msg es ++ SubscriptionMsg.caught_up ∷ msgs) ≡ true
  caught_up-events [] msgs = refl
  caught_up-events (e ∷ es) msgs = caught_up-events es msgs

  module _ (blocking_send : SubscriptionMsg → Option SubscriptionMsg) where
    pass_on-events :
        (sends : ℕ) (es : List RecordedEvent) (rest : List (Reply SubscribeMessage))
        → length es ≤ sends
        → pass_on blocking_send sends (map event_response es ++ rest)
          ≡ map to_msg es ++ pass_on blocking_send (sends - length es) rest
    unfolding pass_on
    pass_on-events sends [] rest h = let same : sends - 0 ≡ sends = omega arith in rw same
    pass_on-events zero (e ∷ es) rest h = absurd (omega arith)
    pass_on-events (suc left) (e ∷ es) rest h =
        let same : suc left - suc (length es) ≡ left - length es = omega arith in
        rw same (ap (◌∷◌ (to_msg e)) (pass_on-events left es rest (omega arith)))

    pass_on-caught_up :
        (sends : ℕ) (rest : List (Reply SubscribeMessage))
        → 0 < sends
        → pass_on blocking_send sends (caught_up_response ∷ rest)
          ≡ SubscriptionMsg.caught_up ∷ pass_on blocking_send (sends - 1) rest
    unfolding pass_on
    pass_on-caught_up zero rest h = absurd (omega arith)
    pass_on-caught_up (suc left) rest h = let same : suc left - 1 ≡ left = omega arith in rw same

    pass_on-all :
        (sends : ℕ) (es : List RecordedEvent)
        → length es ≤ sends
        → pass_on blocking_send sends (map event_response es) ≡ map to_msg es
    unfolding pass_on
    pass_on-all sends [] h = refl
    pass_on-all zero (e ∷ es) h = absurd (omega arith)
    pass_on-all (suc left) (e ∷ es) h = ap (◌∷◌ (to_msg e)) (pass_on-all left es (omega arith))

    pass_on-phases :
        (sends : ℕ) (caught live : List RecordedEvent)
        → length caught + length live < sends
        → pass_on blocking_send sends
            (map event_response caught ++ caught_up_response ∷ map event_response live)
          ≡ map to_msg caught ++ SubscriptionMsg.caught_up ∷ map to_msg live
    pass_on-phases sends caught live h =
        pass_on-events sends caught (caught_up_response ∷ map event_response live) (omega arith)
        ∙ ap (λ msgs. map to_msg caught ++ msgs)
            (pass_on-caught_up (sends - length caught) (map event_response live) (omega arith)
              ∙ ap (◌∷◌ SubscriptionMsg.caught_up)
                  (pass_on-all (sends - length caught - 1) live (omega arith)))

    -- The live tail of an application that subscribes from position 0, where `all` is the log in the
    -- end, numbered from 0 and of fewer than 2 ^ 64 events, not empty when the receiver was
    -- registered, and what it gains after that is received: if the reads see states of the log from
    -- then on and are enough in number, and the channel takes a message more than there are events,
    -- then the state that has drained all messages holds the last 10,000 events of the log, in
    -- order, and has caught up.
    pub spawn_subscription_lem :
        (addr : List ℕ) (sends : ℕ) (all : List RecordedEvent) (logs : List EventLog)
        (registered : ℕ)
        → Positioned 0 all
        → length all ≤ max_u64
        → 0 < registered
        → All (Precedes all) logs
        → All (λ log. registered ≤ length log.events) logs
        → length all < catchup_batch_size * length logs
        → length all < sends
        → (rs : List (Reply SubscribeMessage)) × (subscribe_all_rpc 0 logs
              (publish (drop registered all))
            ≡ some rs)
          × ((drain (new addr) (spawn_subscription blocking_send sends (reply rs))).live_events
              ≡ suffix live_tail_capacity (map shown all))
          × ((drain (new addr) (spawn_subscription blocking_send sends (reply rs))).live_caught_up
              ≡ true)
    unfolding spawn_subscription
    spawn_subscription_lem addr sends all logs registered positioned typed some_event precede know
          enough room =
        let (caught, live, whole, run) =
          subscribe_all_rpc_once all logs 0 registered positioned typed some_event precede know
            (omega arith) in
        let same : caught ++ live ≡ all = whole ∙ drop_none all in
        let count : length caught + length live ≡ length all =
          omega (arith, ap (length {A = RecordedEvent}) same, length-append caught live) in
        let passed = pass_on-phases sends caught live (omega arith) in
        (
          map event_response caught ++ caught_up_response ∷ map event_response live,
          run,
          rw passed (
              drain-suffix (new addr) [] _ (new-suffix addr)
              ∙ ap (suffix live_tail_capacity) (received-phases caught live all same)),
          rw passed (
              drain-caught_up (new addr) _
              ∙ new-caught_up addr _ (caught_up-events caught (map to_msg live))),
        )
