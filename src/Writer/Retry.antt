-- ===== src/Writer/Retry.antt =====
-- src/writer.rs, src/dedup.rs: a request that was answered is answered the same when it is sent
-- again, and nothing is written.
use eventfold_db.Common.{
  [], ℕ, ◌+◌, ◌≤◌, ◌≡◌, ◌∙◌, inl, inr, refl, sym, ap, List, ◌∷◌, Option, none, some, arith, length,
  Option-cases,
}
use eventfold_db.Crates.{Crc32, UuidCrate, Uuid}
use eventfold_db.Error.{Result, ok, err}
use eventfold_db.Types.{ExpectedVersion, ProposedEvent, RecordedEvent}
use eventfold_db.EventLog.{get}
use eventfold_db.Store
use eventfold_db.Store.{Store, AppendIo}
use eventfold_db.Store.Numbered.{numbered, length-numbered}
use eventfold_db.Store.Crash.{append-assigned}
use eventfold_db.Dedup.{LruCrate, DedupIndex, find, check, record_batch}
use eventfold_db.Dedup.Recent.{check-record_batch}
use eventfold_db.Writer.{
  AppendRequest, Writer, conclude, deduplicate, process_unique, process, validate_batch_unique_ids,
}

module _ ⦃crc : Crc32⦄ ⦃uuid : UuidCrate⦄ ⦃lru : LruCrate⦄ where
  -- A hit stays a hit.
  check-check :
      (d : DedupIndex) (p : ProposedEvent) (ps : List ProposedEvent) (b : List RecordedEvent)
      → (check d (p ∷ ps)).0 ≡ some b
      → (check (check d (p ∷ ps)).1 (p ∷ ps)).0 ≡ some b
  unfolding check find
  check-check d p ps b h =
      let found : find p.event_id (lru.entries d.cache) ≡ some b =
        sym (lru.get-found p.event_id d.cache) ∙ h in
      lru.get-found p.event_id (lru.get p.event_id d.cache).1
      ∙ rw (lru.entries-get p.event_id d.cache, found) (ground arith)

  check-capacity :
      (d : DedupIndex) (p : ProposedEvent) (ps : List ProposedEvent)
      → lru.capacity (check d (p ∷ ps)).1.cache ≡ lru.capacity d.cache
  unfolding check
  check-capacity d p ps = lru.capacity-get p.event_id d.cache

  conclude-ok :
      (w : Writer) (r : Result (List RecordedEvent) × Store) (es : List RecordedEvent)
      → (conclude w r).0 ≡ ok es
      → (r.0 ≡ ok es) × ((conclude w r).1.dedup ≡ record_batch w.dedup es)
  unfolding conclude
  conclude-ok w (ok x, store) es h = let same : x ≡ es = cc in (h, ap (record_batch w.dedup) same)
  conclude-ok w (err e, store) es h = cc

  abbrev pub to_request :
      Uuid → ExpectedVersion → ProposedEvent → List ProposedEvent → AppendRequest
  to_request id expected p ps = record {
    stream_id = id;
    expected_version = expected;
    events = p ∷ ps;
  }

  module _ (os : AppendIo) (at : ℕ) (w : Writer) (id : Uuid) (expected : ExpectedVersion)
      (p : ProposedEvent) (ps : List ProposedEvent) where
    hit :
        (o : Option (List RecordedEvent)) (d : DedupIndex) (b : List RecordedEvent)
        → o ≡ some b
        → deduplicate os at w (to_request id expected p ps) (o, d) ≡ (ok b, record w { dedup = d })
    unfolding deduplicate
    hit none d b h = cc
    hit (some x) d b h =
        let same : x ≡ b = cc in
        ap {B = Result (List RecordedEvent) × Writer} (λ x. (ok x, record w { dedup = d })) same

    miss :
        (o : Option (List RecordedEvent)) (d : DedupIndex)
        → o ≡ none
        → deduplicate os at w (to_request id expected p ps) (o, d)
          ≡ conclude (record w { dedup = d }) (Store.append os w.store id expected at (p ∷ ps))
    unfolding deduplicate
    miss none d h = refl
    miss (some x) d h = cc

    passed :
        (r : Result (Unit {0})) (es : List RecordedEvent)
        → (process_unique os at w (to_request id expected p ps) r).0 ≡ ok es
        → r ≡ ok tt
    unfolding process_unique
    passed (ok u) es h = refl
    passed (err e) es h = cc

    abbrev found : Option (List RecordedEvent) × DedupIndex
    found = check w.dedup (p ∷ ps)

    -- The events of a batch of the stream's, behind the first.
    recorded_found :
        (s : Store) (d : DedupIndex) (es : List RecordedEvent)
        → length (p ∷ ps) ≤ lru.capacity d.cache
        → (Store.append os s id expected at (p ∷ ps)).0 ≡ ok es
        → (check (record_batch d es) (p ∷ ps)).0 ≡ some es
    recorded_found s d es room h =
        let position = length s.log.events in
        let version = Store.next_version (get id s.log.streams) in
        let first = Store.to_recorded id at position version p in
        let back = numbered id at (position + 1) (version + 1) ps in
        let same : es ≡ first ∷ back = (append-assigned s id expected at (p ∷ ps) os es h).0 in
        let size = length-numbered id at (position + 1) (version + 1) ps in
        rw same (check-record_batch d [] back first p ps (omega arith) refl)

    found_again :
        (x es : List RecordedEvent)
        → found.0 ≡ some x
        → ◌≡◌ {A = Result (List RecordedEvent)} (ok x) (ok es)
        → (check found.1 (p ∷ ps)).0 ≡ some es
    found_again x es t h =
        let same : x ≡ es = cc in
        check-check w.dedup p ps x t ∙ ap {B = Option (List RecordedEvent)} some same

    -- The index after the request finds the answer.
    answered :
        (es : List RecordedEvent)
        → length (p ∷ ps) ≤ lru.capacity w.dedup.cache
        → (deduplicate os at w (to_request id expected p ps) found).0 ≡ ok es
        → (check (deduplicate os at w (to_request id expected p ps) found).1.dedup (p ∷ ps)).0
          ≡ some es
    answered es room h =
        elim (Option-cases found.0)
          as (λ _.
            (check (deduplicate os at w (to_request id expected p ps) found).1.dedup (p ∷ ps)).0
            ≡ some es) [
              | inl t ↦
                  let step = miss found.0 found.1 t in
                  let (fine, dedup) = conclude-ok _ _ es (rw step at h) in
                  rw (step, dedup)
                    (recorded_found w.store found.1 es (rw (check-capacity w.dedup p ps) room) fine)
              | inr (x, t) ↦
                  let step = hit found.0 found.1 x t in rw step (found_again x es t (rw step at h))
            ]

    process_found :
        (r : Result (Unit {0}))
        → r ≡ ok tt
        → process_unique os at w (to_request id expected p ps) r
          ≡ deduplicate os at w (to_request id expected p ps) found
    unfolding process_unique
    process_found (ok u) h = refl
    process_found (err e) h = cc

    processed :
        validate_batch_unique_ids (p ∷ ps) ≡ ok tt
        → process os at w (to_request id expected p ps)
          ≡ deduplicate os at w (to_request id expected p ps) found
    unfolding process
    processed h = process_found (validate_batch_unique_ids (p ∷ ps)) h

    unique :
        (es : List RecordedEvent)
        → (process os at w (to_request id expected p ps)).0 ≡ ok es
        → validate_batch_unique_ids (p ∷ ps) ≡ ok tt
    unfolding process
    unique es h = passed (validate_batch_unique_ids (p ∷ ps)) es h

  -- A request of at least one event that was answered with events, and whose batch fits the
  -- index, is answered with the same events when the writer receives it again next, whatever the
  -- clock and the file system say then; only the index changes, by the key that is looked up.
  pub process_retry :
      (os os' : AppendIo) (at at' : ℕ) (w : Writer) (id : Uuid) (expected : ExpectedVersion)
      (p : ProposedEvent) (ps : List ProposedEvent) (es : List RecordedEvent)
      → length (p ∷ ps) ≤ lru.capacity w.dedup.cache
      → (process os at w (to_request id expected p ps)).0 ≡ ok es
      → process os' at'
          (process os at w (to_request id expected p ps)).1
          (to_request id expected p ps)
        ≡ (
          ok es,
          record (process os at w (to_request id expected p ps)).1 {
            dedup = (check (process os at w (to_request id expected p ps)).1.dedup (p ∷ ps)).1;
          },
        )
  process_retry os os' at at' w id expected p ps es room h =
      let valid = unique os at w id expected p ps es h in
      let first = processed os at w id expected p ps valid in
      let w' = (process os at w (to_request id expected p ps)).1 in
      let again : (check w'.dedup (p ∷ ps)).0 ≡ some es =
        rw first (answered os at w id expected p ps es room (rw first at h)) in
      processed os' at' w' id expected p ps valid
      ∙ hit os' at' w' id expected p ps (check w'.dedup (p ∷ ps)).0 (check w'.dedup (p ∷ ps)).1 es
          again
