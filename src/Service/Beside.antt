-- ===== src/Service/Beside.antt =====
-- src/writer.rs and src/broker.rs side by side: the writer's rounds and the steps of one
-- `subscribe_all`, in any order.
pub mod Steps
pub mod Schedule
use eventfold_db.Common.{
  [], ℕ, zero, suc, ◌+◌, ◌-◌, ◌≤◌, ◌<◌, ◌≡◌, ◌∙◌, refl, sym, ap, List, ◌∷◌, ◌++◌, Option, none,
  some, All, arith, length, get_elem?, take, drop, ◌⊎◌, inl, inr, length-append, Option-cases,
  drop-append,
}
use mathlib.Core.Path.{subst}
use eventfold_db.Crates.{Crc32, UuidCrate}
use eventfold_db.Types.{RecordedEvent}
use eventfold_db.EventLog.{EventLog}
use eventfold_db.EventLog.WellFormed.{IsWellFormed, Positioned}
use eventfold_db.Reader.{max_u64}
use eventfold_db.Store.{Store, AppendIo}
use eventfold_db.Dedup.{LruCrate}
use eventfold_db.Writer.{AppendRequest, Writer, process_all, run_writer, spawn_writer}
use eventfold_db.Writer.Publish.{
  IsPublished, HaveEvents, process_all-IsPublished, process_all-IsWellFormed, run_writer_published,
  run_writer-IsWellFormed,
}
use eventfold_db.Writer.Growth.{Drains, run_writer-gains}
use eventfold_db.Service.Live.{spawned-IsWellFormed}
use eventfold_db.Broker.Machine.Delivery.{
  Shows, received_to, subscribed-IsOnCourse, subscribed_delivered,
}
use eventfold_db.Broker.{received, lagged, Message}
use eventfold_db.Broker.Batches.{Counted-drop}
use eventfold_db.Broker.Machine.Progress.{IsOnCourse}
use eventfold_db.Broker.Machine.Course.{Reach-IsOnCourse}
use eventfold_db.Broker.Machine.Completion.{at, publish_all, Reach-Reach}
use eventfold_db.Broker.Machine.{
  Phase, System, poll_phase, on_recv, Step, Reach, subscribed, at_phase,
}

-- A round of the writer, a poll of the catch-up, a wait for the receiver, or its lag.
pub data Act : Type 0 where
  write : ℕ → List (AppendRequest × AppendIo) → Act
  poll : Act
  receive : Act
  lag : ℕ → Act

module _ ⦃crc : Crc32⦄ ⦃uuid : UuidCrate⦄ ⦃lru : LruCrate⦄ where
  pub record Beside : Type 0 where
    pub writer : Writer
    pub phase : Phase
    pub out : List Message

  -- What the receiver gives next, if there is something; `before` events were in the log before
  -- the first one that the writer sent.
  abbrev pub on_next : Option RecordedEvent → Phase → List Message → Phase × List Message
  on_next none phase out = (phase, out)
  on_next (some e) phase out = on_recv (received e) phase out

  abbrev pub receive_next : ℕ → Writer → Phase → List Message → Phase × List Message
  receive_next before w (Phase.live l next) out =
      on_next (get_elem? w.sent (next - before)) (Phase.live l next) out
  receive_next before w phase out = (phase, out)

  abbrev pub with_phase : Beside → Phase × List Message → Beside
  with_phase s (phase, out) = record s { phase = phase; out = out }

  unfoldable pub act : ℕ → Beside → Act → Beside
  act before s (Act.write at reqs) = record s { writer = (process_all at s.writer reqs).1 }
  act before s Act.poll = with_phase s (poll_phase s.writer.store.log s.phase s.out)
  act before s Act.receive = with_phase s (receive_next before s.writer s.phase s.out)
  act before s (Act.lag n) = with_phase s (on_recv (lagged n) s.phase s.out)

  unfoldable pub act_all : ℕ → Beside → List Act → Beside
  act_all before s [] = s
  act_all before s (a ∷ as') = act_all before (act before s a) as'

  -- The subscription is made when the writer has come so far.
  abbrev pub begun : Writer → ℕ → Beside
  begun w from_position = record {
    writer = w;
    phase = Phase.reading from_position none (length w.store.log.events);
    out = [];
  }

  -- The requests have events, and the log stays below 2 ^ 64 of them.
  abbrev pub ActFits : Act → Type 0
  ActFits (Act.write at reqs) = HaveEvents reqs
  ActFits _ = Unit

  abbrev pub Fits : ℕ → Beside → List Act → Type 0
  Fits before s [] = Unit
  Fits before s (a ∷ as') =
      ActFits a
      × (length (act before s a).writer.store.log.events ≤ max_u64)
      × Fits before (act before s a) as'
