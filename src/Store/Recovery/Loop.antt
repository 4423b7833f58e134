-- ===== src/Store/Recovery/Loop.antt =====
-- src/store.rs: the recovery loop ends, and what it makes of longer and of shorter files.
use eventfold_db.Common.{
  [], ℕ, zero, suc, ◌+◌, ◌≤◌, ◌<◌, ◌≡◌, refl, Bool, true, false, if◌then◌else◌, ◌⊎◌, inl, inr, List,
  ◌∷◌, Option, some, arith, length, drop, length-drop,
}
use eventfold_db.Error.{Error}
use eventfold_db.Crates.{Crc32, UuidCrate}
use eventfold_db.Types.{RecordedEvent}
use eventfold_db.EventLog.{EventLog, commit_all}
use eventfold_db.Store.Recovery.{
  Round, batch, torn, damaged, failed, Exit, clean, truncated, refused, on_round, if_damaged,
  read_batch, scan,
}
use eventfold_db.Store.Recovery.Batch.{read_batch-local}

module _ ⦃crc : Crc32⦄ ⦃uuid : UuidCrate⦄ where
  shorter :
      (b : ℕ) (bs : List ℕ) (events : List RecordedEvent) (c : ℕ)
      → read_batch (b ∷ bs) ≡ batch events c
      → (length (drop c (b ∷ bs)) < length (b ∷ bs)) × (c ≤ length (b ∷ bs))
  shorter b bs events c h =
      let (fits, some_bytes, _) = read_batch-local (b ∷ bs) events c h in
      (omega (arith, length-drop c (b ∷ bs)), fits)

  -- The loop on `r` ends in `exit`, whatever the fuel, if it exceeds the bytes that are left.
  abbrev pub EndsIn : List ℕ → ℕ → EventLog → Exit → Type 0
  EndsIn r offset log exit = (fuel : ℕ) → length r < fuel → scan fuel r offset log ≡ some exit

  pub EndsIn-empty : (offset : ℕ) (log : EventLog) → EndsIn [] offset log (clean log)
  unfolding scan
  EndsIn-empty offset log zero l = absurd (omega arith)
  EndsIn-empty offset log (suc fuel) l = refl

  module _ (b : ℕ) (bs : List ℕ) (offset : ℕ) (log : EventLog) where
    EndsIn-batch :
        (events : List RecordedEvent) (c : ℕ) {exit : Exit}
        → read_batch (b ∷ bs) ≡ batch events c
        → EndsIn (drop c (b ∷ bs)) (offset + c) (commit_all log events) exit
        → EndsIn (b ∷ bs) offset log exit
    unfolding scan
    EndsIn-batch events c h rest zero l = absurd (omega arith)
    EndsIn-batch events c h rest (suc fuel) l =
        rw h (rest fuel (omega (arith, (shorter b bs events c h).0)))

    EndsIn-other :
        (round : Round) (exit : Exit)
        → read_batch (b ∷ bs) ≡ round
        → ((next : List RecordedEvent → ℕ → Option Exit)
            → on_round round next (truncated offset log) (if_damaged b bs offset log) ≡ some exit)
        → EndsIn (b ∷ bs) offset log exit
    unfolding scan if_damaged
    EndsIn-other round exit h e zero l = absurd (omega arith)
    EndsIn-other round exit h e (suc fuel) l = rw h (e _)

    round_ends :
        (round : Round)
        → read_batch (b ∷ bs) ≡ round
        → ((events : List RecordedEvent) (c : ℕ)
            → read_batch (b ∷ bs) ≡ batch events c
            → (exit : Exit) × EndsIn (drop c (b ∷ bs)) (offset + c) (commit_all log events) exit)
        → (exit : Exit) × EndsIn (b ∷ bs) offset log exit
    round_ends (batch events c) h later =
        let (exit, rest) = later events c h in (exit, EndsIn-batch events c h rest)
    round_ends torn h later = (truncated offset log, EndsIn-other torn _ h (λ next. refl))
    round_ends damaged h later =
        (if_damaged b bs offset log, EndsIn-other damaged _ h (λ next. refl))
    round_ends (failed e) h later = (refused e, EndsIn-other (failed e) _ h (λ next. refl))

  -- With more fuel than bytes the loop ends, and how does not depend on the fuel.
  pub scan_total :
      (bound : ℕ) (r : List ℕ) (offset : ℕ) (log : EventLog)
      → length r < bound
      → (exit : Exit) × EndsIn r offset log exit
  scan_total zero r offset log h = absurd (omega arith)
  scan_total (suc bound) [] offset log h = (clean log, EndsIn-empty offset log)
  scan_total (suc bound) (b ∷ bs) offset log h =
      round_ends b bs offset log (read_batch (b ∷ bs)) refl (λ events c e.
        scan_total bound (drop c (b ∷ bs)) (offset + c) (commit_all log events)
          (omega (arith, (shorter b bs events c e).0)))

  pub EndsIn-unique :
      (r : List ℕ) (offset : ℕ) (log : EventLog) (exit exit' : Exit)
      → EndsIn r offset log exit
      → EndsIn r offset log exit'
      → exit ≡ exit'
  EndsIn-unique r offset log exit exit' h h' =
      cc (h (suc (length r)) (omega arith), h' (suc (length r)) (omega arith))

  -- A round that accepts a batch.
  pub EndsIn-round :
      (r : List ℕ) (offset : ℕ) (log : EventLog) (events : List RecordedEvent) (c : ℕ) {exit : Exit}
      → read_batch r ≡ batch events c
      → EndsIn (drop c r) (offset + c) (commit_all log events) exit
      → EndsIn r offset log exit
  EndsIn-round [] offset log events c h rest =
      let (fits, some_bytes, _) = read_batch-local [] events c h in absurd (omega arith)
  EndsIn-round (b ∷ bs) offset log events c h rest = EndsIn-batch b bs offset log events c h rest

  -- The first round accepted a batch and the loop went on to the same end.
  pub record Accepted (r : List ℕ) (offset : ℕ) (log : EventLog) (exit : Exit) : Type 0 where
    pub events : List RecordedEvent
    pub consumed : ℕ
    pub read : read_batch r ≡ batch events consumed
    pub rest : EndsIn (drop consumed r) (offset + consumed) (commit_all log events) exit

  module _ (b : ℕ) (bs : List ℕ) (offset : ℕ) (log : EventLog) (exit : Exit) where
    -- The loop ended in its first round.
    abbrev Stopped : Type 0
    Stopped = (exit ≡ truncated offset log) ⊎ ((e : Error) × (exit ≡ refused e))

    stopped_if :
        (test : Bool) (e : Error)
        → exit ≡ (if test then refused e else truncated offset log)
        → Stopped
    stopped_if true e h = inr (e, h)
    stopped_if false e h = inl h

    damaged_stops : EndsIn (b ∷ bs) offset log exit → read_batch (b ∷ bs) ≡ damaged → Stopped
    unfolding if_damaged
    damaged_stops h e = stopped_if _ _ (
        EndsIn-unique (b ∷ bs) offset log _ _ h
          (EndsIn-other b bs offset log damaged _ e (λ next. refl)))

    round_inversion :
        (round : Round)
        → read_batch (b ∷ bs) ≡ round
        → EndsIn (b ∷ bs) offset log exit
        → Accepted (b ∷ bs) offset log exit ⊎ Stopped
    round_inversion (batch events c) e h =
        let (exit', rest) =
          scan_total (suc (length (drop c (b ∷ bs)))) (drop c (b ∷ bs)) (offset + c)
            (commit_all log events) (omega arith) in
        let same : exit' ≡ exit =
          EndsIn-unique (b ∷ bs) offset log _ _ (EndsIn-batch b bs offset log events c e rest) h in
        inl (record { events = events; consumed = c; read = e; rest = rw same at rest })
    round_inversion torn e h = inr (
        inl (
          EndsIn-unique (b ∷ bs) offset log _ _ h
            (EndsIn-other b bs offset log torn _ e (λ next. refl))))
    round_inversion damaged e h = inr (damaged_stops h e)
    round_inversion (failed x) e h = inr (
        inr (
          x,
          EndsIn-unique (b ∷ bs) offset log _ _ h
              (EndsIn-other b bs offset log (failed x) _ e (λ next. refl)),
        ))

    pub EndsIn-inversion :
        EndsIn (b ∷ bs) offset log exit → Accepted (b ∷ bs) offset log exit ⊎ Stopped
    EndsIn-inversion = round_inversion (read_batch (b ∷ bs)) refl

  -- A torn batch ends the loop where the batch starts.
  pub EndsIn-torn :
      (r : List ℕ) (offset : ℕ) (log : EventLog)
      → 0 < length r
      → read_batch r ≡ torn
      → EndsIn r offset log (truncated offset log)
  EndsIn-torn [] offset log some_bytes h = absurd (omega arith)
  EndsIn-torn (b ∷ bs) offset log some_bytes h =
      EndsIn-other b bs offset log torn _ h (λ next. refl)
