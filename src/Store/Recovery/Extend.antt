-- ===== src/Store/Recovery/Extend.antt =====
-- src/store.rs: recovery of a file with more bytes at its end, and of a truncated file.
use eventfold_db.Common.{
  [], ℕ, zero, suc, ◌+◌, ◌-◌, ◌≤◌, ◌<◌, ◌≡◌, ◌∙◌, sym, inl, inr, List, ◌∷◌, ◌++◌, arith, length,
  take, drop, length-drop, take-append-drop, take-split, drop-append, drop-append_le, length-take,
  append_assoc,
}
use eventfold_db.Crates.{Crc32, UuidCrate}
use eventfold_db.Types.{RecordedEvent}
use eventfold_db.EventLog.{EventLog, commit_all}
use eventfold_db.Store.Recovery.{Exit, batch, clean, truncated, read_batch}
use eventfold_db.Store.Recovery.Batch.{read_batch-local}
use eventfold_db.Store.Recovery.Loop.{
  EndsIn, EndsIn-empty, EndsIn-round, EndsIn-unique, EndsIn-inversion,
}

module _ ⦃crc : Crc32⦄ ⦃uuid : UuidCrate⦄ where
  -- A batch is read the same with more bytes behind the file.
  read_batch-append :
      (r rest : List ℕ) (events : List RecordedEvent) (c : ℕ)
      → read_batch r ≡ batch events c
      → (read_batch (r ++ rest) ≡ batch events c) × (drop c (r ++ rest) ≡ drop c r ++ rest)
  read_batch-append r rest events c h =
      let (fits, _, again) = read_batch-local r events c h in
      let whole : take c r ++ (drop c r ++ rest) ≡ r ++ rest =
        sym (append_assoc (take c r) (drop c r) rest) ∙ (rw (take-append-drop c r)) in
      (rw whole at (again (drop c r ++ rest)), drop-append_le c r rest fits)

  pub EndsIn-append :
      (bound : ℕ) (r rest : List ℕ) (offset : ℕ) (log log' : EventLog) (exit : Exit)
      → length r < bound
      → EndsIn r offset log (clean log')
      → EndsIn rest (offset + length r) log' exit
      → EndsIn (r ++ rest) offset log exit
  EndsIn-append zero r rest offset log log' exit l h k = absurd (omega arith)
  EndsIn-append (suc bound) [] rest offset log log' exit l h k =
      let same : log' ≡ log = cc (EndsIn-unique [] offset log _ _ h (EndsIn-empty offset log)) in
      let at_start : offset + 0 ≡ offset = omega arith in rw same at (rw at_start at k)
  EndsIn-append (suc bound) (b ∷ bs) rest offset log log' exit l h k =
      elim (EndsIn-inversion b bs offset log _ h) [
        | inl a ↦
            let c = a.consumed in
            let (again, remaining) = read_batch-append (b ∷ bs) rest a.events c a.read in
            let (fits, some_bytes, _) = read_batch-local (b ∷ bs) a.events c a.read in
            let ends : offset + c + length (drop c (b ∷ bs)) ≡ offset + length (b ∷ bs) =
              omega (arith, length-drop c (b ∷ bs)) in
            EndsIn-round (b ∷ bs ++ rest) offset log a.events c again (
              rw remaining (
                EndsIn-append bound (drop c (b ∷ bs)) rest (offset + c) (commit_all log a.events)
                  log' exit (omega (arith, length-drop c (b ∷ bs))) a.rest (rw ends k)))
        | inr (inl e) ↦ cc
        | inr (inr (x, e)) ↦ cc
      ]

  -- What the loop truncates the file to.
  pub record Kept (r : List ℕ) (offset : ℕ) (log : EventLog) (at : ℕ) (log' : EventLog)
      : Type 0 where
    pub size : ℕ
    pub offset_eq : at ≡ offset + size
    pub within : size ≤ length r
    pub reopened : EndsIn (take size r) offset log (clean log')

  Kept-nothing :
      (r : List ℕ) (offset : ℕ) (log : EventLog) (at : ℕ) (log' : EventLog)
      → at ≡ offset
      → log' ≡ log
      → Kept r offset log at log'
  unfolding take
  Kept-nothing r offset log at log' e same = record {
    size = 0;
    offset_eq = omega arith;
    within = omega arith;
    reopened = rw same (EndsIn-empty offset log);
  }

  pub EndsIn-truncated :
      (bound : ℕ) (r : List ℕ) (offset : ℕ) (log : EventLog) (at : ℕ) (log' : EventLog)
      → length r < bound
      → EndsIn r offset log (truncated at log')
      → Kept r offset log at log'
  EndsIn-truncated zero r offset log at log' l h = absurd (omega arith)
  EndsIn-truncated (suc bound) [] offset log at log' l h =
      cc (EndsIn-unique [] offset log _ _ h (EndsIn-empty offset log))
  EndsIn-truncated (suc bound) (b ∷ bs) offset log at log' l h =
      elim (EndsIn-inversion b bs offset log _ h) [
        | inl a ↦
            let c = a.consumed in
            let (fits, some_bytes, again) = read_batch-local (b ∷ bs) a.events c a.read in
            let kept =
              EndsIn-truncated bound (drop c (b ∷ bs)) (offset + c) (commit_all log a.events) at
                log' (omega (arith, length-drop c (b ∷ bs))) a.rest in
            let tail = take kept.size (drop c (b ∷ bs)) in
            let whole : take (c + kept.size) (b ∷ bs) ≡ take c (b ∷ bs) ++ tail =
              let e : c + kept.size - c ≡ kept.size = omega arith in
              rw e at (take-split c (c + kept.size) (b ∷ bs) (omega arith)) in
            record {
              size = c + kept.size;
              offset_eq = omega (arith, kept.offset_eq);
              within = omega (arith, kept.within, length-drop c (b ∷ bs));
              reopened = rw whole (
                  EndsIn-round (take c (b ∷ bs) ++ tail) offset log a.events c (again tail) (
                    rw (drop-append c (take c (b ∷ bs)) tail (length-take c (b ∷ bs) fits))
                      kept.reopened));
            }
        | inr (inl e) ↦ Kept-nothing (b ∷ bs) offset log at log' (ground arith) (cc)
        | inr (inr (x, e)) ↦ cc
      ]
