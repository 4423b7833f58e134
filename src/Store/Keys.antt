-- ===== src/Store/Keys.antt =====
-- src/store.rs: the keys of the index, in `open` and `append`.
use eventfold_db.Common.{
  [], ℕ, zero, suc, ◌+◌, ◌≡◌, ◌≢◌, inl, inr, Bool-cases, List, ◌∷◌, Option, some, drop, length,
  arith,
}
use eventfold_db.Crates.{Crc32, UuidCrate, Uuid}
use eventfold_db.Error.{Result, ok, err}
use eventfold_db.Types.{ExpectedVersion, ProposedEvent, RecordedEvent}
use eventfold_db.EventLog.{EventLog, empty, commit_all}
use eventfold_db.EventLog.Keys.{
  HasDistinctKeys, commit_all-HasDistinctKeys, index_batch-HasDistinctKeys,
}
use eventfold_db.Store.Recovery.{
  Round, batch, torn, damaged, failed, Exit, clean, truncated, on_round, if_damaged, read_batch,
  scan, has_valid_batch_after,
}
use eventfold_db.Store.Durable.{IsDurable}
use eventfold_db.Store.{
  Store, header_size, append, append_validated, write_batch, validate, AppendIo, done, seek_failed,
  write_failed, sync_failed,
}

module _ ⦃crc : Crc32⦄ ⦃uuid : UuidCrate⦄ where
  module _ (b : ℕ) (bs : List ℕ) (offset : ℕ) (log log' : EventLog)
      (next : List RecordedEvent → ℕ → Option Exit) where
    never_clean : if_damaged b bs offset log ≢ clean log'
    unfolding if_damaged
    never_clean h = elim (Bool-cases (has_valid_batch_after (b ∷ bs) 0)) [
      | inl t ↦ cc (rw t at h)
      | inr f ↦ cc (rw f at h)
    ]

    on_round-clean :
        (round : Round)
        → on_round round next (truncated offset log) (if_damaged b bs offset log)
          ≡ some (clean log')
        → (events : List RecordedEvent) × (c : ℕ) × (next events c ≡ some (clean log'))
    on_round-clean (batch events c) h = (events, c, h)
    on_round-clean torn h = cc
    on_round-clean damaged h = absurd (never_clean (cc))
    on_round-clean (failed e) h = cc

  scan-HasDistinctKeys :
      (fuel : ℕ) (r : List ℕ) (offset : ℕ) (log log' : EventLog)
      → HasDistinctKeys log.streams
      → scan fuel r offset log ≡ some (clean log')
      → HasDistinctKeys log'.streams
  unfolding scan
  scan-HasDistinctKeys zero r offset log log' keys h = cc
  scan-HasDistinctKeys (suc fuel) [] offset log log' keys h =
      let same : log ≡ log' = cc in rw same at keys
  scan-HasDistinctKeys (suc fuel) (b ∷ bs) offset log log' keys h =
      let (events, c, rest) = on_round-clean b bs offset log log' _ (read_batch (b ∷ bs)) h in
      scan-HasDistinctKeys fuel (drop c (b ∷ bs)) (offset + c) (commit_all log events) log'
        (commit_all-HasDistinctKeys log events keys) rest

  -- The index that recovery builds.
  pub IsDurable-HasDistinctKeys : (s : Store) → IsDurable s → HasDistinctKeys s.log.streams
  IsDurable-HasDistinctKeys s d =
      scan-HasDistinctKeys (suc (length (drop header_size s.file))) (drop header_size s.file)
        header_size empty s.log tt (d.loop _ (omega arith))

  append_validated-HasDistinctKeys :
      (os : AppendIo) (s : Store) (id : Uuid) (r : Result (List RecordedEvent))
      → HasDistinctKeys s.log.streams
      → HasDistinctKeys (append_validated os s id r).1.log.streams
  unfolding append_validated write_batch
  append_validated-HasDistinctKeys done s id (ok es) h = index_batch-HasDistinctKeys s.log id es h
  append_validated-HasDistinctKeys (seek_failed code) s id (ok es) h = h
  append_validated-HasDistinctKeys (write_failed code n) s id (ok es) h = h
  append_validated-HasDistinctKeys (sync_failed code) s id (ok es) h = h
  append_validated-HasDistinctKeys os s id (err e) h = h

  -- An append, whatever comes of it.
  pub append-HasDistinctKeys :
      (os : AppendIo) (s : Store) (id : Uuid) (expected : ExpectedVersion) (at : ℕ)
      (ps : List ProposedEvent)
      → HasDistinctKeys s.log.streams
      → HasDistinctKeys (append os s id expected at ps).1.log.streams
  unfolding append
  append-HasDistinctKeys os s id expected at ps h =
      append_validated-HasDistinctKeys os s id (validate s id expected at ps) h
