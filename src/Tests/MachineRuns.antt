-- ===== src/Tests/MachineRuns.antt =====
-- A run of the machine of src/broker.rs beside a writer.
use eventfold_db.Common.{
  map, [], ℕ, ◌+◌, ◌≤◌, ◌≡◌, refl, List, ◌∷◌, ◌++◌, some, arith, take, drop, inl,
}
use eventfold_db.Types.{RecordedEvent}
use eventfold_db.EventLog.{EventLog}
use eventfold_db.Reader.{read_all}
use eventfold_db.Broker.{to_message, received, lagged}
use eventfold_db.Broker.Machine.{
  System, subscribed, poll_phase, on_recv, at_phase, Step, Reach, marker,
}
use eventfold_db.Broker.Machine.Delivery.{
  Shows, received_to, subscribed_delivered, subscribed_completes,
}
use eventfold_db.Tests.Data.{paid, repaid}

abbrev log_of : List RecordedEvent → EventLog
log_of es = record { events = es; streams = [] }

abbrev polled : System → System
polled s = at_phase s (poll_phase s.index s.phase s.out)

-- The catch-up has read one event when the writer appends another one, published behind the marker.
abbrev waiting : System
waiting = polled (subscribed (log_of (paid ∷ [])) 1 0)

abbrev grown : System
grown = record waiting { index = log_of (paid ∷ repaid ∷ []) }

abbrev marked : System
marked = polled (polled grown)

abbrev published : System
published = record marked { sent = 2 }

abbrev given : System
given = at_phase published (on_recv (received repaid) published.phase published.out)

abbrev lost : System
lost = at_phase given (on_recv (lagged 3) given.phase given.out)

abbrev begun : System
begun = subscribed (log_of (paid ∷ [])) 1 0

run_grown : Reach begun grown
unfolding poll_phase read_all take drop
run_grown =
    Reach.and_then (Reach.and_then Reach.here (Step.poll refl))
      (Step.append (log_of (paid ∷ repaid ∷ [])) (repaid ∷ []) refl (refl, tt) (omega arith) refl)

run : Reach begun lost
unfolding poll_phase on_recv read_all take drop
run =
    Reach.and_then
      (Reach.and_then
        (Reach.and_then
          (Reach.and_then (Reach.and_then run_grown (Step.poll refl)) (Step.poll refl))
          (Step.publish (omega arith) refl))
        (Step.receive (some 0) 1 repaid refl (omega arith) refl refl))
      (Step.lag (some 0) 2 3 refl refl)

subscribed_delivered_example :
    (caught live : List RecordedEvent) × ((k : ℕ) × (Shows lost.phase lost.out caught live
        × (caught ++ live ≡ take k (drop 0 lost.index.events))
        × (received_to lost.phase ≤ 0 + k)))
subscribed_delivered_example =
    subscribed_delivered (log_of (paid ∷ [])) 1 0 lost (refl, tt) (omega arith) (omega arith)
      (inl (omega arith)) run

subscribed_completes_example :
    (t : System) × (Reach grown t
      × (t.index ≡ grown.index)
      × ((caught live : List RecordedEvent) × (t.out
            ≡ map to_message caught ++ marker ∷ map to_message live)
          × (caught ++ live ≡ drop 0 grown.index.events)))
unfolding poll_phase
subscribed_completes_example =
    subscribed_completes (log_of (paid ∷ [])) 1 0 grown (refl, tt) (omega arith) (omega arith)
      (inl (omega arith)) run_grown tt
