-- ===== src/Spec/Append.antt =====
-- src/store.rs: `append` decides as the abstract store does.
use eventfold_db.Common.{
  [], ℕ, zero, suc, ◌+◌, ◌^◌, ◌<◌, ◌≡◌, ◌≢◌, ◌∙◌, refl, ap, List, ◌∷◌, Option, none, some, arith,
  length,
}
use eventfold_db.Crates.{Crc32, UuidCrate, Uuid}
use eventfold_db.Error.{Error, Result, ok, err, ◌>>=◌}
use eventfold_db.Types.{ExpectedVersion, ProposedEvent, RecordedEvent}
use eventfold_db.Codec.{body_len, encode_record}
use eventfold_db.Codec.Record.{length-encode_record}
use eventfold_db.EventLog.{EventLog, get, positions_of}
use eventfold_db.EventLog.WellFormed.{IsWellFormed, of_stream, length-positions}
use eventfold_db.Store.{
  Store, check_version, check_event, build, validate, next_version, last_index, to_recorded,
}
use eventfold_db.Store.Numbered.{numbered}
use eventfold_db.Spec.{version_fault, record_size, event_fault, or_else, first_fault}

-- A verdict, and the value if it is none.
abbrev pub unless {ℓ} : {A : Type ℓ} → Option Error → A → Result A
unless (some e) a = err e
unless none a = ok a

-- An entry of the index that holds `n` positions, none if there is no entry.
check_version_lem :
    (expected : ExpectedVersion) (o : Option (List ℕ)) (n : ℕ)
    → o ≢ some []
    → length (positions_of o) ≡ n
    → n < 2 ^ 64
    → check_version expected o ≡ unless (version_fault expected n) tt
unfolding check_version
check_version_lem ExpectedVersion.any o n ne size fits = refl
check_version_lem ExpectedVersion.no_stream none zero ne size fits = refl
check_version_lem ExpectedVersion.no_stream none (suc n) ne size fits = absurd (omega arith)
check_version_lem ExpectedVersion.no_stream (some []) zero ne size fits = absurd (ne refl)
check_version_lem ExpectedVersion.no_stream (some (p ∷ ps)) zero ne size fits = absurd (omega arith)
check_version_lem ExpectedVersion.no_stream (some ps) (suc n) ne size fits =
    let latest : last_index (length ps) ≡ n = omega arith in rw latest refl
check_version_lem (ExpectedVersion.exact v) none zero ne size fits = refl
check_version_lem (ExpectedVersion.exact v) none (suc n) ne size fits = absurd (omega arith)
check_version_lem (ExpectedVersion.exact v) (some []) zero ne size fits = absurd (ne refl)
check_version_lem (ExpectedVersion.exact v) (some (p ∷ ps)) zero ne size fits = absurd (omega arith)
check_version_lem (ExpectedVersion.exact v) (some ps) (suc n) ne size fits =
    let latest : last_index (length ps) ≡ n = omega arith in rw latest (ground arith)

next_version_lem : (o : Option (List ℕ)) (n : ℕ) → length (positions_of o) ≡ n → next_version o ≡ n
next_version_lem none n h = h
next_version_lem (some ps) n h = h

pub indexed_size :
    (log : EventLog) (id : Uuid)
    → IsWellFormed log
    → length (positions_of (get id log.streams)) ≡ length (of_stream id log.events)
indexed_size log id w =
    ap (length {A = ℕ}) (w.indexed id) ∙ length-positions (of_stream id log.events)

module _ ⦃crc : Crc32⦄ ⦃uuid : UuidCrate⦄ where
  encoded_size : (e : RecordedEvent) → length (encode_record e) ≡ record_size e
  unfolding body_len
  encoded_size e = omega (arith, length-encode_record e)

  check_event_lem :
      (p : ProposedEvent) (e : RecordedEvent)
      → p.event_type ≡ e.event_type
      → check_event p e ≡ unless (event_fault e) e
  unfolding check_event
  check_event_lem p e same = rw (same, encoded_size e) (ground arith)

  -- The verdict of the loop is the first fault.
  joined :
      (f g : Option Error) (e : RecordedEvent) (es : List RecordedEvent)
      → (unless f e >>= λ e. unless g es >>= λ es. ok (e ∷ es)) ≡ unless (or_else f g) (e ∷ es)
  joined (some x) g e es = refl
  joined none (some y) e es = refl
  joined none none e es = refl

  build_lem :
      (id at position version : ℕ) (ps : List ProposedEvent)
      → build id at position version ps
        ≡ unless
            (first_fault (numbered id at position version ps))
            (numbered id at position version ps)
  unfolding build
  build_lem id at position version [] = refl
  build_lem id at position version (p ∷ ps) =
      let e = to_recorded id at position version p in
      rw (check_event_lem p e refl, build_lem id at (position + 1) (version + 1) ps)
        (joined (event_fault e) (first_fault (numbered id at (position + 1) (version + 1) ps)) e
          (numbered id at (position + 1) (version + 1) ps))

  sequenced :
      (f g : Option Error) (es : List RecordedEvent)
      → (unless {A = Unit {0}} f tt >>= λ _. unless g es) ≡ unless (or_else f g) es
  sequenced (some x) g es = refl
  sequenced none g es = refl

  -- The checks of `append` on a store with a well-formed index: the first fault of the version and
  -- of the events, or the events numbered from the ends of the log and of the stream.
  pub validate_lem :
      (s : Store) (id : Uuid) (expected : ExpectedVersion) (at : ℕ) (ps : List ProposedEvent)
      (n : ℕ)
      → IsWellFormed s.log
      → length (of_stream id s.log.events) ≡ n
      → n < 2 ^ 64
      → validate s id expected at ps
        ≡ unless
            (or_else
              (version_fault expected n)
              (first_fault (numbered id at (length s.log.events) n ps)))
            (numbered id at (length s.log.events) n ps)
  unfolding validate
  validate_lem s id expected at ps n w size fits =
      let entry = get id s.log.streams in
      let indexed = indexed_size s.log id w ∙ size in
      rw
        (
          check_version_lem expected entry n (w.no_empty id) indexed fits,
          next_version_lem entry n indexed,
          build_lem id at (length s.log.events) n ps,
        )
        (sequenced (version_fault expected n)
          (first_fault (numbered id at (length s.log.events) n ps))
          (numbered id at (length s.log.events) n ps))
