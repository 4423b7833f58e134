-- ===== src/Dedup/Recent.antt =====
-- src/dedup.rs: which batches the index still finds.
use eventfold_db.Common.{
  [], ℕ, zero, suc, ◌+◌, ◌≤◌, ◌≡◌, ◌≢◌, ◌∙◌, inl, inr, refl, List, ◌∷◌, ◌++◌, some, All, arith,
  length, take, ◌==◌, Bool-cases, eq_of_==, ne_of_==, take-take, length-append,
}
use eventfold_db.Crates.{Uuid}
use eventfold_db.Types.{ProposedEvent, RecordedEvent}
use eventfold_db.Dedup.{
  Batch, Entries, find, without, LruCrate, DedupIndex, check, put_each, record_batch, seed_each,
  seed_from_log,
}

-- The key is found among the `n` most recent entries.
abbrev pub Within : ℕ → Uuid → Batch → Entries → Type 0
Within n id b es = find id (take n es) ≡ some b

Within-weaken :
    (n m : ℕ) (id : Uuid) (b : Batch) (es : Entries) → n ≤ m → Within n id b es → Within m id b es
unfolding take find
Within-weaken zero m id b es h w = cc
Within-weaken (suc n) m id b [] h w = cc
Within-weaken (suc n) zero id b (e ∷ es) h w = absurd (omega arith)
Within-weaken (suc n) (suc m) id b ((j, x) ∷ es) h w = ground (arith, Within-weaken n m id b es)

Within-find :
    (n : ℕ) (id : Uuid) (b : Batch) (es : Entries) → Within n id b es → find id es ≡ some b
unfolding take find
Within-find zero id b es w = cc
Within-find (suc n) id b [] w = cc
Within-find (suc n) id b ((j, x) ∷ es) w = ground (arith, Within-find n id b es)

-- Removing another key brings an entry no further back.
Within-without :
    (n : ℕ) (id k : Uuid) (b : Batch) (es : Entries)
    → k ≢ id
    → Within n id b es
    → Within n id b (without k es)
unfolding take find without
Within-without zero id k b es ne w = cc
Within-without (suc n) id k b [] ne w = cc
Within-without (suc n) id k b ((j, x) ∷ es) ne w = elim (Bool-cases (j == k)) [
  | inl t ↦
      let later : Within n id b es = ground arith in
      rw t (
        Within-weaken n (suc n) id b (without k es) (omega arith)
          (Within-without n id k b es ne later))
  | inr f ↦ rw f (ground (arith, Within-without n id k b es ne))
]

Within-take :
    (n m : ℕ) (id : Uuid) (b : Batch) (es : Entries)
    → n ≤ m
    → Within n id b es
    → Within n id b (take m es)
Within-take n m id b es h w = rw (take-take n m es h) w

module _ ⦃lru : LruCrate⦄ where
  Within-put_self :
      (n : ℕ) (id : Uuid) (b : Batch) (c : lru.Cache)
      → suc n ≤ lru.capacity c
      → Within (suc n) id b (lru.entries (lru.put id b c))
  Within-put_self n id b c room =
      rw
        (
          lru.entries-put id b c,
          take-take (suc n) (lru.capacity c) ((id, b) ∷ without id (lru.entries c)) room,
        )
        (front n)
    where
      front : (n : ℕ) → Within (suc n) id b ((id, b) ∷ without id (lru.entries c))
      front n = unfold take find in ground arith

  Within-put_other :
      (n : ℕ) (id k : Uuid) (b x : Batch) (c : lru.Cache)
      → k ≢ id
      → suc n ≤ lru.capacity c
      → Within n id b (lru.entries c)
      → Within (suc n) id b (lru.entries (lru.put k x c))
  unfolding take find
  Within-put_other n id k b x c ne room w =
      rw
        (
          lru.entries-put k x c,
          take-take (suc n) (lru.capacity c) ((k, x) ∷ without k (lru.entries c)) room,
        )
        (ground (arith, Within-without n id k b (lru.entries c) ne w))

  capacity-put_each :
      (shared : Batch) (es : List RecordedEvent) (c : lru.Cache)
      → lru.capacity (put_each shared es c) ≡ lru.capacity c
  unfolding put_each
  capacity-put_each shared [] c = refl
  capacity-put_each shared (e ∷ es) c =
      capacity-put_each shared es (lru.put e.event_id shared c)
      ∙ lru.capacity-put e.event_id shared c

  -- What was recent stays recent while the rest of the batch is recorded.
  put_each-keeps :
      (shared : Batch) (es : List RecordedEvent) (c : lru.Cache) (n : ℕ) (id : Uuid)
      → n + length es ≤ lru.capacity c
      → Within n id shared (lru.entries c)
      → Within (n + length es) id shared (lru.entries (put_each shared es c))
  unfolding put_each
  put_each-keeps shared [] c n id room w = Within-weaken n (n + 0) id shared _ (omega arith) w
  put_each-keeps shared (e ∷ es) c n id room w =
      let c' = lru.put e.event_id shared c in
      let next : Within (suc n) id shared (lru.entries c') = elim (Bool-cases (e.event_id == id)) [
        | inl t ↦ rw (eq_of_== e.event_id id t) (Within-put_self n id shared c (omega arith))
        | inr f ↦
            Within-put_other n id e.event_id shared shared c (ne_of_== e.event_id id f)
              (omega arith) w
      ] in
      let all : suc n + length es ≡ n + suc (length es) = omega arith in
      rw all at (
        put_each-keeps shared es c' (suc n) id (omega (arith, lru.capacity-put e.event_id shared c))
          next)

  put_each-append :
      (shared : Batch) (xs ys : List RecordedEvent) (c : lru.Cache)
      → put_each shared (xs ++ ys) c ≡ put_each shared ys (put_each shared xs c)
  unfolding put_each
  put_each-append shared [] ys c = refl
  put_each-append shared (x ∷ xs) ys c = put_each-append shared xs ys (lru.put x.event_id shared c)

  check-Within :
      (n : ℕ) (b : Batch) (d : DedupIndex) (p : ProposedEvent) (ps : List ProposedEvent)
      → Within n p.event_id b (lru.entries d.cache)
      → (check d (p ∷ ps)).0 ≡ some b
  unfolding check
  check-Within n b d p ps w =
      lru.get-found p.event_id d.cache ∙ Within-find n p.event_id b (lru.entries d.cache) w

  put_each_last :
      (all : Batch) (back : List RecordedEvent) (e : RecordedEvent) (c : lru.Cache)
      → Within 1 e.event_id all (lru.entries (lru.put e.event_id all c))
      → 1 + length back ≤ lru.capacity (lru.put e.event_id all c)
      → Within (1 + length back) e.event_id all (lru.entries (put_each all (e ∷ back) c))
  unfolding put_each
  put_each_last all back e c placed room =
      put_each-keeps all back (lru.put e.event_id all c) 1 e.event_id room placed

  -- A batch that fits the index is found under each of its identifiers once it is recorded.
  pub check-record_batch :
      (d : DedupIndex) (front back : List RecordedEvent) (e : RecordedEvent) (p : ProposedEvent)
      (ps : List ProposedEvent)
      → length (front ++ (e ∷ back)) ≤ lru.capacity d.cache
      → p.event_id ≡ e.event_id
      → (check (record_batch d (front ++ (e ∷ back))) (p ∷ ps)).0 ≡ some (front ++ (e ∷ back))
  unfolding record_batch
  check-record_batch d front back e p ps room same =
      let all = front ++ (e ∷ back) in
      let c = put_each all front d.cache in
      let size : length all ≡ length front + suc (length back) = length-append front (e ∷ back) in
      let kept : lru.capacity c ≡ lru.capacity d.cache = capacity-put_each all front d.cache in
      let placed : Within 1 e.event_id all (lru.entries (lru.put e.event_id all c)) =
        Within-put_self 0 e.event_id all c (omega arith) in
      check-Within (1 + length back) all _ p ps (
        rw (same, put_each-append all front (e ∷ back) d.cache)
          (put_each_last all back e c placed (omega (arith, lru.capacity-put e.event_id all c))))

  seed_each-keeps :
      (es : List RecordedEvent) (c : lru.Cache) (n : ℕ) (id : Uuid) (b : Batch)
      → n + length es ≤ lru.capacity c
      → All (λ e. e.event_id ≢ id) es
      → Within n id b (lru.entries c)
      → Within (n + length es) id b (lru.entries (seed_each es c))
  unfolding seed_each
  seed_each-keeps [] c n id b room other w = Within-weaken n (n + 0) id b _ (omega arith) w
  seed_each-keeps (e ∷ es) c n id b room other w =
      let all : suc n + length es ≡ n + suc (length es) = omega arith in
      rw all at (
        seed_each-keeps es (lru.put e.event_id (e ∷ []) c) (suc n) id b
          (omega (arith, lru.capacity-put e.event_id (e ∷ []) c)) other.1
          (Within-put_other n id e.event_id b (e ∷ []) c other.0 (omega arith) w))

  capacity-seed_each :
      (es : List RecordedEvent) (c : lru.Cache) → lru.capacity (seed_each es c) ≡ lru.capacity c
  unfolding seed_each
  capacity-seed_each [] c = refl
  capacity-seed_each (e ∷ es) c =
      capacity-seed_each es (lru.put e.event_id (e ∷ []) c) ∙ lru.capacity-put e.event_id (e ∷ []) c

  seed_each-append :
      (xs ys : List RecordedEvent) (c : lru.Cache)
      → seed_each (xs ++ ys) c ≡ seed_each ys (seed_each xs c)
  unfolding seed_each
  seed_each-append [] ys c = refl
  seed_each-append (x ∷ xs) ys c = seed_each-append xs ys (lru.put x.event_id (x ∷ []) c)

  seeded_last :
      (back : List RecordedEvent) (e : RecordedEvent) (c : lru.Cache)
      → suc (length back) ≤ lru.capacity c
      → All (λ f. f.event_id ≢ e.event_id) back
      → Within (1 + length back) e.event_id (e ∷ []) (lru.entries (seed_each (e ∷ back) c))
  unfolding seed_each
  seeded_last back e c room other =
      seed_each-keeps back (lru.put e.event_id (e ∷ []) c) 1 e.event_id (e ∷ [])
        (omega (arith, lru.capacity-put e.event_id (e ∷ []) c)) other
        (Within-put_self 0 e.event_id (e ∷ []) c (omega arith))

  -- After seeding, an event whose identifier is not written again behind it, and that is among
  -- the last `capacity` ones, is found as a batch of its own, alone, whatever batch it came in.
  pub check-seed_from_log :
      (d : DedupIndex) (front back : List RecordedEvent) (e : RecordedEvent) (p : ProposedEvent)
      (ps : List ProposedEvent)
      → suc (length back) ≤ lru.capacity d.cache
      → All (λ f. f.event_id ≢ e.event_id) back
      → p.event_id ≡ e.event_id
      → (check (seed_from_log d (front ++ (e ∷ back))) (p ∷ ps)).0 ≡ some (e ∷ [])
  unfolding seed_from_log
  check-seed_from_log d front back e p ps room other same =
      let c = seed_each front d.cache in
      let kept : lru.capacity c ≡ lru.capacity d.cache = capacity-seed_each front d.cache in
      check-Within (1 + length back) (e ∷ []) _ p ps (
        rw (same, seed_each-append front (e ∷ back) d.cache)
          (seeded_last back e c (omega arith) other))
