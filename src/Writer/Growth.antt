-- ===== src/Writer/Growth.antt =====
-- src/writer.rs: how what was sent, and the log, grow along a run.
use eventfold_db.Common.{
  [], ℕ, ◌≡◌, ◌∙◌, refl, sym, ap, List, ◌∷◌, ◌++◌, Option, none, some, append_assoc, append-nil,
}
use eventfold_db.Crates.{Crc32, UuidCrate}
use eventfold_db.Error.{Result, ok, err}
use eventfold_db.Types.{RecordedEvent}
use eventfold_db.Store.{Store, AppendIo}
use eventfold_db.Dedup.{LruCrate, DedupIndex, check}
use eventfold_db.Writer.{
  AppendRequest, Writer, conclude, deduplicate, process_unique, process, process_all, run_writer,
  validate_batch_unique_ids,
}
use eventfold_db.Writer.Publish.{IsPublished, run_writer-IsPublished}

abbrev pub Drains : Type 0
Drains = List (ℕ × List (AppendRequest × AppendIo))

module _ ⦃crc : Crc32⦄ ⦃uuid : UuidCrate⦄ ⦃lru : LruCrate⦄ where
  -- A later writer has sent what the earlier one had, and more.
  abbrev pub Extends : Writer → Writer → Type 0
  Extends w w' = (more : List RecordedEvent) × (w'.sent ≡ w.sent ++ more)

  Extends-trans : (a b c : Writer) → Extends a b → Extends b c → Extends a c
  Extends-trans a b c (m, h) (n, k) = (m ++ n, k ∙ ap (λ xs. xs ++ n) h ∙ append_assoc a.sent m n)

  conclude-Extends :
      (w : Writer) (r : Result (List RecordedEvent) × Store) → Extends w (conclude w r).1
  unfolding conclude
  conclude-Extends w (err e, s) = ([], sym (append-nil w.sent))
  conclude-Extends w (ok es, s) = (es, refl)

  deduplicate-Extends :
      (os : AppendIo) (at : ℕ) (w : Writer) (req : AppendRequest)
      (found : Option (List RecordedEvent) × DedupIndex)
      → Extends w (deduplicate os at w req found).1
  unfolding deduplicate
  deduplicate-Extends os at w req (some x, d) = ([], sym (append-nil w.sent))
  deduplicate-Extends os at w req (none, d) = conclude-Extends (record w { dedup = d }) _

  process_unique-Extends :
      (os : AppendIo) (at : ℕ) (w : Writer) (req : AppendRequest) (r : Result (Unit {0}))
      → Extends w (process_unique os at w req r).1
  unfolding process_unique
  process_unique-Extends os at w req (err e) = ([], sym (append-nil w.sent))
  process_unique-Extends os at w req (ok u) =
      deduplicate-Extends os at w req (check w.dedup req.events)

  process_all-Extends :
      (at : ℕ) (w : Writer) (reqs : List (AppendRequest × AppendIo))
      → Extends w (process_all at w reqs).1
  unfolding process_all process
  process_all-Extends at w [] = ([], sym (append-nil w.sent))
  process_all-Extends at w ((req, os) ∷ reqs) =
      Extends-trans w (process os at w req).1 (process_all at (process os at w req).1 reqs).1
        (process_unique-Extends os at w req (validate_batch_unique_ids req.events))
        (process_all-Extends at (process os at w req).1 reqs)

  run_writer-Extends : (w : Writer) (drains : Drains) → Extends w (run_writer w drains)
  unfolding run_writer
  run_writer-Extends w [] = ([], sym (append-nil w.sent))
  run_writer-Extends w ((at, reqs) ∷ drains) =
      Extends-trans w (process_all at w reqs).1 (run_writer (process_all at w reqs).1 drains)
        (process_all-Extends at w reqs) (run_writer-Extends (process_all at w reqs).1 drains)

  pub run_writer-append :
      (w : Writer) (first second : Drains)
      → run_writer w (first ++ second) ≡ run_writer (run_writer w first) second
  unfolding run_writer
  run_writer-append w [] second = refl
  run_writer-append w ((at, reqs) ∷ first) second =
      run_writer-append (process_all at w reqs).1 first second

  -- What the log gains along a run is what is sent along it.
  pub run_writer-gains :
      (base : List RecordedEvent) (w : Writer) (drains : Drains)
      → IsPublished base w
      → (more : List RecordedEvent) × ((run_writer w drains).store.log.events
          ≡ w.store.log.events ++ more)
        × ((run_writer w drains).sent ≡ w.sent ++ more)
  run_writer-gains base w drains h =
      let (more, sent) = run_writer-Extends w drains in
      (
        more,
        run_writer-IsPublished base w drains h
            ∙ ap (λ xs. base ++ xs) sent
            ∙ sym (append_assoc base w.sent more)
            ∙ ap (λ xs. xs ++ more) (sym h),
        sent,
      )
