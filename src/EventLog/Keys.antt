-- ===== src/EventLog/Keys.antt =====
-- src/store.rs: the keys of the index, whose association list stands for a `HashMap`.
use eventfold_db.Common.{
  false, [], ℕ, ◌≡◌, refl, map, List, ◌∷◌, none, arith, ◌==◌, inl, inr, Bool-cases,
}
use eventfold_db.Crates.{Uuid}
use eventfold_db.Types.{RecordedEvent}
use eventfold_db.EventLog.{
  or_default, Streams, get, push, EventLog, commit, commit_all, push_all, index_batch,
}
use eventfold_db.EventLog.Index.{get-push}

abbrev pub HasDistinctKeys : Streams → Type 0
HasDistinctKeys [] = Unit
HasDistinctKeys ((id, positions) ∷ streams) = (get id streams ≡ none) × HasDistinctKeys streams

push-HasDistinctKeys :
    (id position : ℕ) (streams : Streams)
    → HasDistinctKeys streams
    → HasDistinctKeys (push id position streams)
unfolding push get
push-HasDistinctKeys id position [] h = (refl, tt)
push-HasDistinctKeys id position ((j, positions) ∷ streams) (new, h) = elim (Bool-cases (j == id)) [
  | inl t ↦ rw t (new, h)
  | inr f ↦ rw f (
    rw (get-push id j position streams) (ground (arith, new)),
    push-HasDistinctKeys id position streams h,
  )
]

push_all-HasDistinctKeys :
    (id : ℕ) (positions : List ℕ) (streams : Streams)
    → HasDistinctKeys streams
    → HasDistinctKeys (push_all id positions streams)
push_all-HasDistinctKeys id [] streams h = h
push_all-HasDistinctKeys id (p ∷ ps) streams h =
    push_all-HasDistinctKeys id ps (push id p streams) (push-HasDistinctKeys id p streams h)

get-or_default :
    (id j : ℕ) (streams : Streams)
    → (id == j) ≡ false
    → get j (or_default id streams) ≡ get j streams
unfolding get or_default
get-or_default id j [] h = ground arith
get-or_default id j ((i, positions) ∷ streams) h = ground (arith, get-or_default id j streams h)

or_default-HasDistinctKeys :
    (id : ℕ) (streams : Streams) → HasDistinctKeys streams → HasDistinctKeys (or_default id streams)
unfolding or_default get
or_default-HasDistinctKeys id [] h = (refl, tt)
or_default-HasDistinctKeys id ((j, positions) ∷ streams) (new, h) = elim (Bool-cases (j == id)) [
  | inl t ↦ rw t (new, h)
  | inr f ↦
      let other : (id == j) ≡ false = ground arith in
      rw f (rw (get-or_default id j streams other) new, or_default-HasDistinctKeys id streams h)
]

pub commit_all-HasDistinctKeys :
    (log : EventLog) (es : List RecordedEvent)
    → HasDistinctKeys log.streams
    → HasDistinctKeys (commit_all log es).streams
unfolding commit_all commit
commit_all-HasDistinctKeys log [] h = h
commit_all-HasDistinctKeys log (e ∷ es) h =
    commit_all-HasDistinctKeys (commit log e) es
      (push-HasDistinctKeys e.stream_id e.global_position log.streams h)

pub index_batch-HasDistinctKeys :
    (log : EventLog) (id : Uuid) (es : List RecordedEvent)
    → HasDistinctKeys log.streams
    → HasDistinctKeys (index_batch log id es).streams
unfolding index_batch
index_batch-HasDistinctKeys log id es h =
    push_all-HasDistinctKeys id (map (λ e. e.global_position) es) (or_default id log.streams)
      (or_default-HasDistinctKeys id log.streams h)
