-- ===== src/Spec/Progress.antt =====
-- src/store.rs, src/reader.rs: a client that reads a stream's version and appends with it.
use eventfold_db.Common.{
  [], ℕ, ◌^◌, ◌<◌, ◌≡◌, ◌≢◌, ◌∙◌, refl, ap, List, ◌∷◌, Option, none, some, All, arith, length,
}
use mathlib.Core.Option
use eventfold_db.Crates.{Crc32, UuidCrate, Uuid}
use eventfold_db.Error.{ok}
use eventfold_db.Types.{ExpectedVersion, ProposedEvent}
use eventfold_db.EventLog.{get, positions_of}
use eventfold_db.EventLog.WellFormed.{IsWellFormed}
use eventfold_db.Store.{Store, append, done, last_index}
use eventfold_db.Store.Numbered.{IsSmall}
use eventfold_db.Store.Crash.{assigned, validate-assigned}
use eventfold_db.Store.Invariant.{Admits, append_accepted, validate_accepts}
use eventfold_db.Reader.{stream_version}

-- The version that a client demands which has seen the stream at its latest version, or not at all.
abbrev pub demanded : Option ℕ → ExpectedVersion
demanded none = ExpectedVersion.no_stream
demanded (some version) = ExpectedVersion.exact version

demanded-Admits :
    (o : Option (List ℕ))
    → o ≢ some []
    → length (positions_of o) < 2 ^ 64
    → Admits (demanded (Option.map (λ positions. last_index (length positions)) o)) o
demanded-Admits none ne l = refl
demanded-Admits (some []) ne l = absurd (ne refl)
demanded-Admits (some (p ∷ ps)) ne l = omega arith

module _ ⦃crc : Crc32⦄ ⦃uuid : UuidCrate⦄ where
  -- On a well-formed log whose stream has fewer than 2 ^ 64 events, an append of events within the
  -- limits which demands the version that a read has just shown (no stream, if it showed none)
  -- succeeds, if the file system does, and answers with the events as they are numbered.
  pub append-stream_version :
      (s : Store) (id : Uuid) (at : ℕ) (ps : List ProposedEvent)
      → IsWellFormed s.log
      → length (positions_of (get id s.log.streams)) < 2 ^ 64
      → All IsSmall (assigned s id (demanded (stream_version s.log id)) at ps)
      → (append done s id (demanded (stream_version s.log id)) at ps).0
        ≡ ok (assigned s id (demanded (stream_version s.log id)) at ps)
  unfolding stream_version
  append-stream_version s id at ps formed few small =
      let expected = demanded (stream_version s.log id) in
      let (es, valid) =
        (validate_accepts s id expected at ps formed few).1
          (demanded-Admits (get id s.log.streams) (formed.no_empty id) few, small) in
      append_accepted s id expected at ps es valid
      ∙ ap {B = _} ok (validate-assigned s id expected at ps es valid).0
