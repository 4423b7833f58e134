-- ===== src/EventLog/WellFormed.antt =====
-- src/store.rs: what the two structures of `EventLog` promise, "index `i` = event at global
-- position `i`" and "index `j` = event at stream version `j`".
use eventfold_db.Common.{
  [], ℕ, suc, ◌+◌, ◌≡◌, ◌≢◌, ◌∙◌, refl, sym, ap, List, ◌∷◌, ◌++◌, map, some, All, arith, length,
  ◌==◌, eq_of_==, if◌then◌else◌, length-append, append-nil, append_assoc, Bool-cases, inl, inr,
}
use mathlib.Core.List.{map-append}
use eventfold_db.Crates.{Uuid}
use eventfold_db.Types.{RecordedEvent}
use eventfold_db.EventLog.{
  Streams, get, positions_of, or_default, push, EventLog, empty, push_all, index_batch,
}
use eventfold_db.EventLog.Index.{get-push, push-or_default}

-- The positions of a list of events.
abbrev pub positions : List RecordedEvent → List ℕ
positions = map (λ e. e.global_position)

pub length-positions : (es : List RecordedEvent) → length (positions es) ≡ length es
length-positions [] = refl
length-positions (e ∷ es) = ap suc (length-positions es)

-- The events of a stream, in the order of the log.
unfoldable pub of_stream : Uuid → List RecordedEvent → List RecordedEvent
of_stream id [] = []
of_stream id (e ∷ es) = if e.stream_id == id then e ∷ of_stream id es else of_stream id es

-- The numbers that `key` gives are counted up from `n`.
abbrev pub Counted : (RecordedEvent → ℕ) → ℕ → List RecordedEvent → Type 0
Counted key n [] = Unit
Counted key n (e ∷ es) = (key e ≡ n) × Counted key (n + 1) es

abbrev pub Positioned : ℕ → List RecordedEvent → Type 0
Positioned = Counted (λ e. e.global_position)

abbrev pub Versioned : ℕ → List RecordedEvent → Type 0
Versioned = Counted (λ e. e.stream_version)

pub record IsWellFormed (log : EventLog) : Type 0 where
  pub positioned : Positioned 0 log.events
  pub versioned : (id : Uuid) → Versioned 0 (of_stream id log.events)
  pub indexed :
      (id : Uuid) → positions_of (get id log.streams) ≡ positions (of_stream id log.events)
  pub no_empty : (id : Uuid) → get id log.streams ≢ some []

pub empty-IsWellFormed : IsWellFormed empty
unfolding of_stream get
empty-IsWellFormed = record {
  positioned = tt;
  versioned = λ id. tt;
  indexed = λ id. refl;
  no_empty = λ id h. cc;
}

pub Counted-append :
    (key : RecordedEvent → ℕ) (n : ℕ) (xs ys : List RecordedEvent)
    → Counted key n xs
    → Counted key (n + length xs) ys
    → Counted key n (xs ++ ys)
Counted-append key n [] ys hx hy = let e : n + 0 ≡ n = omega arith in rw e at hy
Counted-append key n (x ∷ xs) ys hx hy =
    let e : n + suc (length xs) ≡ n + 1 + length xs = omega arith in
    (hx.0, Counted-append key (n + 1) xs ys hx.1 (rw e at hy))

pub of_stream-append :
    (id : Uuid) (xs ys : List RecordedEvent)
    → of_stream id (xs ++ ys) ≡ of_stream id xs ++ of_stream id ys
unfolding of_stream
of_stream-append id [] ys = refl
of_stream-append id (x ∷ xs) ys = ground (arith, of_stream-append id xs ys)

-- A batch of one stream.
pub of_stream-batch :
    (id j : Uuid) (es : List RecordedEvent)
    → All (λ e. e.stream_id ≡ id) es
    → of_stream j es ≡ (if id == j then es else [])
unfolding of_stream
of_stream-batch id j [] h = ground arith
of_stream-batch id j (e ∷ es) h = ground (arith, of_stream-batch id j es h.1, h.0)

-- An entry after a batch of positions.
get-push_all :
    (id j : Uuid) (ps : List ℕ) (streams : Streams)
    → positions_of (get j (push_all id ps streams))
      ≡ positions_of (get j streams) ++ (if id == j then ps else [])
get-push_all id j [] streams = elim (Bool-cases (id == j)) [
  | inl t ↦ rw t (sym (append-nil _))
  | inr f ↦ rw f (sym (append-nil _))
]
get-push_all id j (p ∷ ps) streams =
    get-push_all id j ps (push id p streams) ∙ elim (Bool-cases (id == j)) [
      | inl t ↦ rw (get-push id j p streams, t) (append_assoc _ (p ∷ []) ps)
      | inr f ↦ rw (get-push id j p streams, f)
    ]

push-no_empty :
    (id k p : ℕ) (streams : Streams) → get k streams ≢ some [] → get k (push id p streams) ≢ some []
push-no_empty id k p streams h q = elim (Bool-cases (id == k)) [
  | inl t ↦
      let pushed : some (positions_of (get k streams) ++ p ∷ []) ≡ some [] =
        rw (get-push id k p streams, t) at q in
      absurd (
        omega (
          arith,
          ap (λ o. length (positions_of o)) pushed,
          length-append (positions_of (get k streams)) (p ∷ []),
        ))
  | inr f ↦ h (rw (get-push id k p streams, f) at q)
]

push_all-no_empty :
    (id : Uuid) (ps : List ℕ) (streams : Streams)
    → ((j : Uuid) → get j streams ≢ some [])
    → (j : Uuid) → get j (push_all id ps streams) ≢ some []
push_all-no_empty id [] streams h j = h j
push_all-no_empty id (p ∷ ps) streams h j =
    push_all-no_empty id ps (push id p streams) (λ k. push-no_empty id k p streams (h k)) j

-- A batch of one stream, not empty, numbered from the ends of the log and of the stream.
module _ (log : EventLog) (id : Uuid) (e : RecordedEvent) (es : List RecordedEvent)
    (w : IsWellFormed log) (same : All (λ e. e.stream_id ≡ id) (e ∷ es)) where
  entries :
      push_all id (positions (e ∷ es)) (or_default id log.streams)
      ≡ push_all id (positions (e ∷ es)) log.streams
  entries = ap (push_all id (positions es)) (push-or_default id e.global_position log.streams)

  batch-Versioned :
      (j : Uuid)
      → Versioned (length (positions_of (get id log.streams))) (e ∷ es)
      → Versioned 0 (of_stream j (log.events ++ (e ∷ es)))
  batch-Versioned j versions =
      rw (of_stream-append j log.events (e ∷ es), of_stream-batch id j (e ∷ es) same)
        (Counted-append (λ e. e.stream_version) 0 (of_stream j log.events) _ (w.versioned j)
          (elim (Bool-cases (id == j)) [
            | inl t ↦
                let number : length (positions_of (get id log.streams))
                    ≡ 0 + length (of_stream j log.events) =
                  rw (eq_of_== id j t) (
                    omega (
                      arith,
                      length-positions (of_stream j log.events),
                      ap (length {A = ℕ}) (w.indexed j),
                    )) in
                rw t (rw number at versions)
            | inr f ↦ rw f tt
          ]))

  batch_indexed :
      (j : Uuid)
      → positions_of (get j (push_all id (positions (e ∷ es)) (or_default id log.streams)))
        ≡ positions (of_stream j (log.events ++ (e ∷ es)))
  batch_indexed j =
      rw
        (
          entries,
          get-push_all id j (positions (e ∷ es)) log.streams,
          of_stream-append j log.events (e ∷ es),
          of_stream-batch id j (e ∷ es) same,
          map-append,
          w.indexed j,
        )
        (elim (Bool-cases (id == j)) [ inl t ↦ rw t | inr f ↦ rw f ])

  pub index_batch-IsWellFormed :
      Positioned (length log.events) (e ∷ es)
      → Versioned (length (positions_of (get id log.streams))) (e ∷ es)
      → IsWellFormed (index_batch log id (e ∷ es))
  unfolding index_batch
  index_batch-IsWellFormed at versions = record {
    positioned =
        Counted-append (λ e. e.global_position) 0 log.events (e ∷ es) w.positioned
          (let z : 0 + length log.events ≡ length log.events = omega arith in rw z at);
    versioned = λ j. batch-Versioned j versions;
    indexed = batch_indexed;
    no_empty = λ j. rw entries (push_all-no_empty id (positions (e ∷ es)) log.streams w.no_empty j);
  }
