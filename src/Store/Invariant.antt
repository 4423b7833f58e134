-- ===== src/Store/Invariant.antt =====
-- src/store.rs: `append` keeps the index well formed, accepts exactly what the expected version
-- and the limits allow, and changes nothing when it refuses.
use eventfold_db.Common.{
  [], ℕ, ◌+◌, ◌^◌, ◌<◌, ◌≡◌, ◌≢◌, ◌↔◌, refl, sym, List, ◌∷◌, ◌++◌, Option, none, some, All, arith,
  length, append-nil,
}
use mathlib.Core.Path.{subst}
use eventfold_db.Crates.{Crc32, UuidCrate, Uuid}
use eventfold_db.Error.{Error, Result, ok, err, ◌>>=◌}
use eventfold_db.Types.{ExpectedVersion, ProposedEvent, RecordedEvent}
use eventfold_db.EventLog.{EventLog, get, positions_of, index_batch}
use eventfold_db.EventLog.WellFormed.{IsWellFormed, Positioned, Versioned, index_batch-IsWellFormed}
use eventfold_db.Store.Numbered.{IsSmall, numbered, numbered-stream_id, build_accepts}
use eventfold_db.Store.Crash.{assigned, validate-assigned}
use eventfold_db.Store.{
  Store, AppendIo, done, seek_failed, write_failed, sync_failed, check_version, next_version,
  last_index, validate, append, append_validated, write_batch,
}

pub numbered-Positioned :
    (id at position version : ℕ) (ps : List ProposedEvent)
    → Positioned position (numbered id at position version ps)
numbered-Positioned id at position version [] = tt
numbered-Positioned id at position version (p ∷ ps) =
    (refl, numbered-Positioned id at (position + 1) (version + 1) ps)

pub numbered-Versioned :
    (id at position version : ℕ) (ps : List ProposedEvent)
    → Versioned version (numbered id at position version ps)
numbered-Versioned id at position version [] = tt
numbered-Versioned id at position version (p ∷ ps) =
    (refl, numbered-Versioned id at (position + 1) (version + 1) ps)

next_version_lem : (o : Option (List ℕ)) → next_version o ≡ length (positions_of o)
next_version_lem none = refl
next_version_lem (some ps) = refl

numbered-IsWellFormed :
    (log : EventLog) (id at version : ℕ) (ps : List ProposedEvent)
    → IsWellFormed log
    → 0 < length ps
    → version ≡ length (positions_of (get id log.streams))
    → IsWellFormed (index_batch log id (numbered id at (length log.events) version ps))
numbered-IsWellFormed log id at version [] w h e = absurd (omega arith)
numbered-IsWellFormed log id at version (p ∷ ps) w h e =
    index_batch-IsWellFormed log id _ _ w (numbered-stream_id id at _ version (p ∷ ps))
      (numbered-Positioned id at _ version (p ∷ ps))
      (subst (λ n. Versioned n (numbered id at (length log.events) version (p ∷ ps))) e
        (numbered-Versioned id at (length log.events) version (p ∷ ps)))

-- What a caller demands of the stream.
abbrev pub Admits : ExpectedVersion → Option (List ℕ) → Type 0
Admits ExpectedVersion.any o = Unit
Admits ExpectedVersion.no_stream o = o ≡ none
Admits (ExpectedVersion.exact n) o = length (positions_of o) ≡ n + 1

check_version-Admits :
    (expected : ExpectedVersion) (o : Option (List ℕ))
    → o ≢ some []
    → length (positions_of o) < 2 ^ 64
    → (check_version expected o ≡ ok tt) ↔ Admits expected o
unfolding check_version
check_version-Admits ExpectedVersion.any o ne l = (λ h. tt, λ h. refl)
check_version-Admits ExpectedVersion.no_stream none ne l = (λ h. refl, λ h. refl)
check_version-Admits ExpectedVersion.no_stream (some ps) ne l = (λ h. cc, λ h. cc)
check_version-Admits (ExpectedVersion.exact n) none ne l = (λ h. cc, λ h. absurd (omega arith))
check_version-Admits (ExpectedVersion.exact n) (some []) ne l = absurd (ne refl)
check_version-Admits (ExpectedVersion.exact n) (some (p ∷ ps)) ne l =
    let size : last_index (length (p ∷ ps)) ≡ length ps = omega arith in
    rw size (λ h. ground arith, λ h. ground arith)

module _ ⦃crc : Crc32⦄ ⦃uuid : UuidCrate⦄ where
  module _ (s : Store) (id : Uuid) (expected : ExpectedVersion) (at : ℕ)
      (ps : List ProposedEvent) where
    append_validated-IsWellFormed :
        (os : AppendIo) (r : Result (List RecordedEvent))
        → IsWellFormed s.log
        → ((es : List RecordedEvent) → r ≡ ok es → IsWellFormed (index_batch s.log id es))
        → IsWellFormed (append_validated os s id r).1.log
    unfolding append_validated write_batch
    append_validated-IsWellFormed done (ok es) w h = h es refl
    append_validated-IsWellFormed (seek_failed code) (ok es) w h = w
    append_validated-IsWellFormed (write_failed code n) (ok es) w h = w
    append_validated-IsWellFormed (sync_failed code) (ok es) w h = w
    append_validated-IsWellFormed os (err e) w h = w

    -- An append of at least one event keeps the index well formed, whatever the file system
    -- answers and whether or not the request is refused.
    pub append-IsWellFormed :
        (os : AppendIo)
        → IsWellFormed s.log
        → 0 < length ps
        → IsWellFormed (append os s id expected at ps).1.log
    unfolding append
    append-IsWellFormed os w some_events =
        append_validated-IsWellFormed os (validate s id expected at ps) w (λ es h.
          rw (validate-assigned s id expected at ps es h).0 (
            numbered-IsWellFormed s.log id at _ ps w some_events
              (next_version_lem (get id s.log.streams))))

    refused :
        (os : AppendIo) (r : Result (List RecordedEvent)) (e : Error)
        → r ≡ err e
        → append_validated os s id r ≡ (err e, s)
    unfolding append_validated
    refused os r e h = rw h

    versions_match :
        (r : Result (List RecordedEvent)) (c : Result (Unit {0})) (es : List RecordedEvent)
        → (c >>= λ _. r) ≡ ok es
        → c ≡ ok tt
    versions_match r (ok u) es h = refl
    versions_match r (err e) es h = cc

    -- On a well-formed log whose stream has fewer than 2 ^ 64 events, the validation accepts a
    -- request exactly if the stream is as the caller expects it and every event is within the
    -- limits.
    pub validate_accepts :
        IsWellFormed s.log
        → length (positions_of (get id s.log.streams)) < 2 ^ 64
        → ((es : List RecordedEvent) × (validate s id expected at ps ≡ ok es))
          ↔ (Admits expected (get id s.log.streams) × All IsSmall (assigned s id expected at ps))
    unfolding validate
    validate_accepts w l = (
      λ (es, h). (
        (check_version-Admits expected _ (w.no_empty id) l).0 (versions_match _ _ es h),
        (validate-assigned s id expected at ps es h).1,
      ),
      λ (admits, small). (
        assigned s id expected at ps,
        rw (
          (check_version-Admits expected _ (w.no_empty id) l).1 admits,
          build_accepts id at _ _ ps small,
        ),
      ),
    )

    -- A refused request changes neither the file nor the index.
    pub append_refused :
        (os : AppendIo) (e : Error)
        → validate s id expected at ps ≡ err e
        → append os s id expected at ps ≡ (err e, s)
    unfolding append
    append_refused os e h = refused os _ e h

  -- What an answer says the log gained.
  abbrev pub gained : Result (List RecordedEvent) → List RecordedEvent
  gained (ok es) = es
  gained (err e) = []

  append_validated-events :
      (os : AppendIo) (s : Store) (id : Uuid) (r : Result (List RecordedEvent))
      → (append_validated os s id r).1.log.events
        ≡ s.log.events ++ gained (append_validated os s id r).0
  unfolding append_validated write_batch index_batch
  append_validated-events done s id (ok es) = refl
  append_validated-events (seek_failed code) s id (ok es) = sym (append-nil _)
  append_validated-events (write_failed code n) s id (ok es) = sym (append-nil _)
  append_validated-events (sync_failed code) s id (ok es) = sym (append-nil _)
  append_validated-events os s id (err e) = sym (append-nil _)

  -- The log gains what the answer holds, and nothing on an error.
  pub append-events :
      (os : AppendIo) (s : Store) (id : Uuid) (expected : ExpectedVersion) (at : ℕ)
      (ps : List ProposedEvent)
      → (append os s id expected at ps).1.log.events
        ≡ s.log.events ++ gained (append os s id expected at ps).0
  unfolding append
  append-events os s id expected at ps =
      append_validated-events os s id (validate s id expected at ps)

  -- A request that validation accepts is answered with its events, if the calls succeed.
  pub append_accepted :
      (s : Store) (id : Uuid) (expected : ExpectedVersion) (at : ℕ) (ps : List ProposedEvent)
      (es : List RecordedEvent)
      → validate s id expected at ps ≡ ok es
      → (append done s id expected at ps).0 ≡ ok es
  unfolding append append_validated write_batch
  append_accepted s id expected at ps es h = rw h refl
