-- ===== src/Service/Beside/Steps.antt =====
-- src/writer.rs, src/broker.rs: each act is a run of the machine of Broker/Machine.
use eventfold_db.Common.{
  [], ℕ, zero, suc, ◌+◌, ◌-◌, ◌≤◌, ◌<◌, ◌≡◌, ◌∙◌, refl, ap, List, ◌∷◌, ◌++◌, Option, none, some,
  arith, length, get_elem?, drop, length-append, drop-append,
}
use mathlib.Core.Path.{subst}
use eventfold_db.Crates.{Crc32, UuidCrate}
use eventfold_db.Types.{RecordedEvent}
use eventfold_db.EventLog.WellFormed.{Positioned}
use eventfold_db.Reader.{max_u64}
use eventfold_db.Dedup.{LruCrate}
use eventfold_db.Writer.{Writer}
use eventfold_db.Writer.Publish.{IsPublished}
use eventfold_db.Broker.{lagged, Message}
use eventfold_db.Broker.Batches.{Counted-drop}
use eventfold_db.Broker.Machine.Progress.{IsOnCourse}
use eventfold_db.Broker.Machine.Completion.{at, publish_all, Reach-Reach}
use eventfold_db.Broker.Machine.{Phase, System, on_recv, Step, Reach}
use eventfold_db.Service.Beside.{on_next, receive_next}

module _ {ℓ} {A : Type ℓ} where
  get_elem?-behind :
      (xs ys : List A) (n : ℕ)
      → length xs ≤ n
      → get_elem? (xs ++ ys) n ≡ get_elem? ys (n - length xs)
  get_elem?-behind [] ys n h = let same : n - 0 ≡ n = omega arith in rw same refl
  get_elem?-behind (x ∷ xs) ys zero h = absurd (omega arith)
  get_elem?-behind (x ∷ xs) ys (suc n) h =
      let same : suc n - length (x ∷ xs) ≡ n - length xs = omega arith in
      rw same (get_elem?-behind xs ys n (omega arith))

  get_elem?-lt : (xs : List A) (n : ℕ) (x : A) → get_elem? xs n ≡ some x → n < length xs
  get_elem?-lt [] n x h = cc
  get_elem?-lt (y ∷ xs) zero x h = omega arith
  get_elem?-lt (y ∷ xs) (suc n) x h = omega (arith, get_elem?-lt xs n x h)

module _ ⦃crc : Crc32⦄ ⦃uuid : UuidCrate⦄ ⦃lru : LruCrate⦄ where
  abbrev pub system : Writer → Phase → List Message → System
  system w phase out = at w.store.log (length w.store.log.events) phase out

  -- A round of the writer is an append and its publications.
  pub write-Reach :
      (w after : Writer) (more : List RecordedEvent) (phase : Phase) (out : List Message)
      → after.store.log.events ≡ w.store.log.events ++ more
      → Positioned 0 after.store.log.events
      → length after.store.log.events ≤ max_u64
      → Reach (system w phase out) (system after phase out)
  write-Reach w after more phase out grows positioned typed =
      let before = length w.store.log.events in
      let log = after.store.log in
      let none_before : 0 + before ≡ before = omega arith in
      let behind : Positioned before more =
        subst (Positioned before) (ap (drop before) grows ∙ drop-append before _ more refl) (
          rw none_before at
            (Counted-drop (λ e. e.global_position) 0 before log.events positioned)) in
      let longer : before ≤ length log.events =
        omega
          (arith, ap (length {A = RecordedEvent}) grows, length-append w.store.log.events more) in
      let (all, whole, run) =
        publish_all (length log.events) log before phase out (omega arith) longer in
      Reach-Reach (Reach.and_then Reach.here (Step.append log more grows behind typed refl))
        (subst (λ n. Reach (at log before phase out) (at log n phase out)) whole run)

  module _ (base : List RecordedEvent) where
    on_next-Reach :
        (w : Writer) (l : Option ℕ) (next : ℕ) (out : List Message) (o : Option RecordedEvent)
        → IsPublished base w
        → length base ≤ next
        → get_elem? w.sent (next - length base) ≡ o
        → (let (phase, later) = on_next o (Phase.live l next) out in
            Reach (system w (Phase.live l next) out) (system w phase later))
    on_next-Reach w l next out none published behind found = Reach.here
    on_next-Reach w l next out (some e) published behind found =
        let here : get_elem? w.store.log.events next ≡ some e =
          ap (λ xs. get_elem? xs next) published
          ∙ get_elem?-behind base w.sent next behind
          ∙ found in
        Reach.and_then Reach.here
          (Step.receive l next e refl (get_elem?-lt w.store.log.events next e here) here refl)

    pub receive_next-Reach :
        (w : Writer) (phase : Phase) (out : List Message) (from registered known : ℕ)
        → IsPublished base w
        → length base ≤ registered
        → IsOnCourse from registered known (system w phase out)
        → (let (after, later) = receive_next (length base) w phase out in
            Reach (system w phase out) (system w after later))
    receive_next-Reach w (Phase.live l next) out from registered known published behind course =
        let (cursor, (at_cursor, lasts, grown, not_before, sent, shown)) = course.progress in
        on_next-Reach w l next out (get_elem? w.sent (next - length base)) published (omega arith)
          refl
    receive_next-Reach w (Phase.reading c l next) out from registered known published behind
          course =
        Reach.here
    receive_next-Reach w (Phase.yielding b t c l next) out from registered known published behind
          course =
        Reach.here
    receive_next-Reach w Phase.ended out from registered known published behind course = Reach.here

    pub lag-Reach :
        (w : Writer) (n : ℕ) (phase : Phase) (out : List Message)
        → (let (after, later) = on_recv (lagged n) phase out in
            Reach (system w phase out) (system w after later))
    unfolding on_recv
    lag-Reach w n (Phase.live l next) out = Reach.and_then Reach.here (Step.lag l next n refl refl)
    lag-Reach w n (Phase.reading c l next) out = Reach.here
    lag-Reach w n (Phase.yielding b t c l next) out = Reach.here
    lag-Reach w n Phase.ended out = Reach.here
