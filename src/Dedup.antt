-- ===== src/Dedup.antt =====
-- src/dedup.rs: the deduplication index over the `lru` crate's bounded cache. The crate enters as
-- an interface whose laws give its documented behaviour over a list of entries, the most recently
-- used first. An `Arc` of a batch is the batch.
pub mod Recent
use eventfold_db.Common.{[], ℕ, ◌≡◌, List, ◌∷◌, Option, none, some, take, ◌==◌, if◌then◌else◌}
use eventfold_db.Crates.{Uuid}
use eventfold_db.Types.{ProposedEvent, RecordedEvent}

abbrev pub Batch : Type 0
Batch = List RecordedEvent

abbrev pub Entries : Type 0
Entries = List (Uuid × Batch)

unfoldable pub find : Uuid → Entries → Option Batch
find id [] = none
find id ((j, b) ∷ es) = if j == id then some b else find id es

unfoldable pub without : Uuid → Entries → Entries
without id [] = []
without id ((j, b) ∷ es) = let rest = without id es in if j == id then rest else (j, b) ∷ rest

-- A key that is found moves to the front.
abbrev pub promote : Uuid → Option Batch → Entries → Entries
promote id none es = es
promote id (some b) es = (id, b) ∷ without id es

pub record LruCrate : Type 1 where
  pub Cache : Type 0
  pub new : ℕ → Cache
  pub get : Uuid → Cache → Option Batch × Cache
  pub put : Uuid → Batch → Cache → Cache
  pub entries : Cache → Entries
  pub capacity : Cache → ℕ
  pub capacity-new : (n : ℕ) → capacity (new n) ≡ n
  pub entries-new : (n : ℕ) → entries (new n) ≡ []
  pub get-found : (id : Uuid) (c : Cache) → (get id c).0 ≡ find id (entries c)
  pub entries-get :
      (id : Uuid) (c : Cache) → entries (get id c).1 ≡ promote id (find id (entries c)) (entries c)
  pub capacity-get : (id : Uuid) (c : Cache) → capacity (get id c).1 ≡ capacity c
  -- The new entry is the most recent; what exceeds the capacity falls off the other end.
  pub entries-put :
      (id : Uuid) (b : Batch) (c : Cache)
      → entries (put id b c) ≡ take (capacity c) ((id, b) ∷ without id (entries c))
  pub capacity-put : (id : Uuid) (b : Batch) (c : Cache) → capacity (put id b c) ≡ capacity c

module _ ⦃lru : LruCrate⦄ where
  pub record DedupIndex : Type 0 where
    pub cache : lru.Cache

  unfoldable pub new : ℕ → DedupIndex
  new capacity = record { cache = lru.new capacity }

  -- `check`: the batch of the first proposal's identifier, and the index with the key promoted.
  unfoldable pub check : DedupIndex → List ProposedEvent → Option Batch × DedupIndex
  check d [] = (none, d)
  check d (first ∷ ps) =
      let (found, cache) = lru.get first.event_id d.cache in (found, record { cache = cache })

  -- The loop of `record`: every identifier maps to the whole batch.
  unfoldable pub put_each : Batch → List RecordedEvent → lru.Cache → lru.Cache
  put_each shared [] cache = cache
  put_each shared (e ∷ es) cache = put_each shared es (lru.put e.event_id shared cache)

  -- `record`
  unfoldable pub record_batch : DedupIndex → Batch → DedupIndex
  record_batch d recorded = record { cache = put_each recorded recorded d.cache }

  unfoldable pub seed_each : List RecordedEvent → lru.Cache → lru.Cache
  seed_each [] cache = cache
  seed_each (e ∷ es) cache = seed_each es (lru.put e.event_id (e ∷ []) cache)

  -- `seed_from_log`: every event is a batch of its own.
  unfoldable pub seed_from_log : DedupIndex → List RecordedEvent → DedupIndex
  seed_from_log d events = record { cache = seed_each events d.cache }
