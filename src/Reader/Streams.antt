-- ===== src/Reader/Streams.antt =====
-- src/reader.rs: what `list_streams` gives, by the events of each stream.
use eventfold_db.Common.{
  ℕ, suc, ◌+◌, ◌^◌, ◌<◌, ◌≤◌, ◌≡◌, ◌≢◌, ◌∙◌, ◌==◌, refl, sym, ap, true, inl, inr, List, [], ◌∷◌,
  map, All, Option, none, some, arith, Bool-cases, eq_of_==, length, ◌↔◌, if◌then◌else◌,
}
use eventfold_db.Crates.{UuidCrate, Uuid}
use eventfold_db.Types.{RecordedEvent, StreamInfo}
use eventfold_db.EventLog.{Streams, EventLog, get, positions_of}
use eventfold_db.EventLog.WellFormed.{
  IsWellFormed, Versioned, of_stream, positions, length-positions,
}
use eventfold_db.EventLog.Keys.{HasDistinctKeys}
use eventfold_db.Reader.Order.{
  str_le_refl, str_le_total, items, Sorted, AllTyped, AllTyped-items, Sorted-unique,
}
use eventfold_db.Reader.{str_le, stream_info, insert_info, sort_infos, list_streams, max_u64}
use eventfold_db.Store.{last_index}

-- The version of the last event.
abbrev pub latest_of : RecordedEvent → List RecordedEvent → ℕ
latest_of e [] = e.stream_version
latest_of e (f ∷ fs) = latest_of f fs

-- What is listed for a stream that has these events: their number and the version of the last.
abbrev pub listing : Uuid → List RecordedEvent → List StreamInfo
listing id [] = []
listing id (e ∷ es) =
    record { stream_id = id; event_count = length (e ∷ es); latest_version = latest_of e es } ∷ []

latest_of-Versioned :
    (n : ℕ) (e : RecordedEvent) (es : List RecordedEvent)
    → Versioned n (e ∷ es)
    → latest_of e es ≡ n + length es
latest_of-Versioned n e [] h = omega (arith, h.0)
latest_of-Versioned n e (f ∷ es) h =
    let rest = latest_of-Versioned (n + 1) f es h.1 in omega (arith, rest)

-- What is listed for an entry of the index.
abbrev entry : Uuid → Option (List ℕ) → List StreamInfo
entry id none = []
entry id (some ps) = stream_info (id, ps) ∷ []

items-stream_info :
    (id : Uuid) (streams : Streams)
    → HasDistinctKeys streams
    → items id (map stream_info streams) ≡ entry id (get id streams)
unfolding get
items-stream_info id [] h = refl
items-stream_info id ((j, ps) ∷ streams) (new, h) =
    let rest = items-stream_info id streams h in
    elim (Bool-cases (j == id)) [
      | inl t ↦
          let same = eq_of_== j id t in
          let none_left : get id streams ≡ none = rw same at new in rw (t, rest, none_left, same)
      | inr f ↦ rw f rest
    ]

length-of_stream-le : (id : Uuid) (es : List RecordedEvent) → length (of_stream id es) ≤ length es
unfolding of_stream
length-of_stream-le id [] = omega arith
length-of_stream-le id (e ∷ es) = ground (arith, length-of_stream-le id es)

entry-listing :
    (id : Uuid) (o : Option (List ℕ)) (es : List RecordedEvent)
    → positions_of o ≡ positions es
    → o ≢ some []
    → Versioned 0 es
    → length es ≤ max_u64
    → entry id o ≡ listing id es
entry-listing id none [] same new versions typed = refl
entry-listing id none (e ∷ es) same new versions typed = cc
entry-listing id (some ps) [] same new versions typed = absurd (new (ap some same))
entry-listing id (some ps) (e ∷ es) same new versions typed =
    let size : length ps ≡ suc (length es) =
      ap (length {A = ℕ}) same ∙ ap suc (length-positions es) in
    let latest = latest_of-Versioned 0 e es versions in
    let version : last_index (length ps) ≡ latest_of e es = omega (arith, size, latest, typed) in
    cc (size, version)

of_stream-typed :
    (id : Uuid) (es : List RecordedEvent)
    → All (λ e. e.stream_id < 2 ^ 128) es
    → of_stream id es ≢ []
    → id < 2 ^ 128
unfolding of_stream
of_stream-typed id [] typed h = absurd (h refl)
of_stream-typed id (e ∷ es) typed h = elim (Bool-cases (e.stream_id == id)) [
  | inl t ↦ rw (eq_of_== e.stream_id id t) at typed.0
  | inr f ↦ of_stream-typed id es typed.1 (rw f at h)
]

module _ ⦃uuid : UuidCrate⦄ where
  insert_info-Sorted :
      (a : StreamInfo) (bs : List StreamInfo) → Sorted bs → Sorted (insert_info a bs)
  unfolding insert_info
  insert_info-Sorted a [] h = tt
  insert_info-Sorted a (b ∷ []) h =
      elim (Bool-cases (str_le (uuid.to_string a.stream_id) (uuid.to_string b.stream_id))) [
        | inl t ↦ rw t (t, tt)
        | inr f ↦ rw f (str_le_total _ _ f, tt)
      ]
  insert_info-Sorted a (b ∷ c ∷ cs) h =
      elim (Bool-cases (str_le (uuid.to_string a.stream_id) (uuid.to_string b.stream_id))) [
        | inl t ↦ rw t (t, h)
        | inr f ↦
            let rest = insert_info-Sorted a (c ∷ cs) h.1 in
            let below = str_le_total _ _ f in
            elim (Bool-cases (str_le (uuid.to_string a.stream_id) (uuid.to_string c.stream_id))) [
              | inl u ↦ rw (f, u) (below, rw u at rest)
              | inr v ↦ rw (f, v) (h.0, rw v at rest)
            ]
      ]

  sort_infos-Sorted : (as' : List StreamInfo) → Sorted (sort_infos as')
  unfolding sort_infos
  sort_infos-Sorted [] = tt
  sort_infos-Sorted (a ∷ as') = insert_info-Sorted a (sort_infos as') (sort_infos-Sorted as')

  -- Entries for one stream never change places.
  items-insert_info :
      (id : Uuid) (a : StreamInfo) (bs : List StreamInfo)
      → items id (insert_info a bs) ≡ items id (a ∷ bs)
  unfolding insert_info
  items-insert_info id a [] = refl
  items-insert_info id a (b ∷ bs) =
      elim (Bool-cases (str_le (uuid.to_string a.stream_id) (uuid.to_string b.stream_id))) [
        | inl t ↦ rw t refl
        | inr f ↦
            let rest = items-insert_info id a bs in
            elim (Bool-cases (a.stream_id == id)) [
              | inl t ↦ elim (Bool-cases (b.stream_id == id)) [
                | inl u ↦
                    let q : a.stream_id ≡ b.stream_id =
                      eq_of_== a.stream_id id t ∙ sym (eq_of_== b.stream_id id u) in
                    let le : str_le (uuid.to_string a.stream_id) (uuid.to_string b.stream_id)
                        ≡ true =
                      rw q (str_le_refl (uuid.to_string b.stream_id)) in
                    cc (f, le)
                | inr v ↦ rw (f, v, rest, t)
              ]
              | inr w ↦ elim (Bool-cases (b.stream_id == id)) [
                | inl u ↦ rw (f, u, rest, w)
                | inr v ↦ rw (f, v, rest, w)
              ]
            ]
      ]

  items-sort_infos : (id : Uuid) (as' : List StreamInfo) → items id (sort_infos as') ≡ items id as'
  unfolding sort_infos
  items-sort_infos id [] = refl
  items-sort_infos id (a ∷ as') =
      items-insert_info id a (sort_infos as')
      ∙ ap (λ rest. if a.stream_id == id then a ∷ rest else rest) (items-sort_infos id as')

  -- A listing of the log: in the order of the texts, and with one entry for each stream that has
  -- events, none for any other.
  abbrev pub Lists : EventLog → List StreamInfo → Type 0
  Lists log infos =
      Sorted infos × ((id : Uuid) → items id infos ≡ listing id (of_stream id log.events))

  list_streams-items :
      (log : EventLog) (id : Uuid)
      → IsWellFormed log
      → length log.events ≤ max_u64
      → HasDistinctKeys log.streams
      → items id (list_streams log) ≡ listing id (of_stream id log.events)
  unfolding list_streams
  list_streams-items log id w typed keys =
      items-sort_infos id (map stream_info log.streams)
      ∙ items-stream_info id log.streams keys
      ∙ entry-listing id (get id log.streams) (of_stream id log.events) (w.indexed id)
          (w.no_empty id) (w.versioned id) (omega (arith, typed, length-of_stream-le id log.events))

  list_streams-Sorted : (log : EventLog) → Sorted (list_streams log)
  unfolding list_streams
  list_streams-Sorted log = sort_infos-Sorted (map stream_info log.streams)

  listing_typed :
      (log : EventLog) (id : Uuid) (x : StreamInfo) (xs : List StreamInfo)
      → All (λ e. e.stream_id < 2 ^ 128) log.events
      → listing id (of_stream id log.events) ≡ x ∷ xs
      → id < 2 ^ 128
  listing_typed log id x xs ids h =
      of_stream-typed id log.events ids (λ none_left. cc (ap (listing id) none_left, h))

  list_streams-AllTyped :
      (log : EventLog)
      → IsWellFormed log
      → length log.events ≤ max_u64
      → HasDistinctKeys log.streams
      → All (λ e. e.stream_id < 2 ^ 128) log.events
      → AllTyped (list_streams log)
  list_streams-AllTyped log w typed keys ids = AllTyped-items (list_streams log) (λ id x xs h.
      listing_typed log id x xs ids (sym (list_streams-items log id w typed keys) ∙ h))

  -- For a well-formed log of at most 2 ^ 64 - 1 events, whose index has each stream once and whose
  -- streams have 128-bit identifiers, `list_streams` gives the one list that is in the order of the
  -- identifiers' texts and that has, for each stream with events, exactly one entry, with the
  -- number of its events and the version of the last of them, and none for any other stream.
  pub list_streams-Lists :
      (log : EventLog) (infos : List StreamInfo)
      → IsWellFormed log
      → length log.events ≤ max_u64
      → HasDistinctKeys log.streams
      → All (λ e. e.stream_id < 2 ^ 128) log.events
      → (infos ≡ list_streams log) ↔ Lists log infos
  list_streams-Lists log infos w typed keys ids = (
    λ h. rw h (list_streams-Sorted log, λ id. list_streams-items log id w typed keys),
    λ (sorted, all).
        Sorted-unique infos (list_streams log) (list_streams-AllTyped log w typed keys ids) sorted
          (list_streams-Sorted log) (λ id. all id ∙ sym (list_streams-items log id w typed keys)),
  )
