-- ===== src/Store/Numbered.antt =====
-- src/store.rs: what the loop of `append` builds when it accepts every proposal.
use eventfold_db.Common.{
  [], ℕ, suc, ◌+◌, ◌^◌, ◌≤◌, ◌<◌, ◌≡◌, refl, ap, List, ◌∷◌, All, arith, length,
}
use eventfold_db.Crates.{Crc32, UuidCrate, Uuid}
use eventfold_db.Error.{Result, ok, err, ◌>>=◌}
use eventfold_db.Types.{
  ProposedEvent, RecordedEvent, IsTypedProposal, max_event_size, max_event_type_len,
}
use eventfold_db.Codec.{FitsFormat, encode_record}
use eventfold_db.Codec.Record.{length-encode_record}
use eventfold_db.Store.{to_recorded, check_event, build}
use eventfold_db.Store.Written.{IsStorable}

-- The proposals as events of a stream, the positions and versions counted up from a start.
abbrev pub numbered : Uuid → ℕ → ℕ → ℕ → List ProposedEvent → List RecordedEvent
numbered stream_id recorded_at position version [] = []
numbered stream_id recorded_at position version (p ∷ ps) =
    to_recorded stream_id recorded_at position version p
    ∷ numbered stream_id recorded_at (position + 1) (version + 1) ps

module _ ⦃crc : Crc32⦄ ⦃uuid : UuidCrate⦄ where
  -- The size limits of an append.
  pub record IsSmall (e : RecordedEvent) : Type 0 where
    pub some_type : 0 < length e.event_type
    pub event_type : length e.event_type ≤ max_event_type_len
    pub encoded : length (encode_record e) ≤ max_event_size

  check_event-IsSmall :
      (p : ProposedEvent) (e e' : RecordedEvent)
      → p.event_type ≡ e.event_type
      → check_event p e ≡ ok e'
      → (e' ≡ e)
        × (0 < length p.event_type)
        × (length p.event_type ≤ max_event_type_len)
        × (length (encode_record e) ≤ max_event_size)
  unfolding check_event
  check_event-IsSmall p e e' same h = ground arith

  IsSmall-check_event :
      (p : ProposedEvent) (e : RecordedEvent)
      → p.event_type ≡ e.event_type
      → IsSmall e
      → check_event p e ≡ ok e
  unfolding check_event
  IsSmall-check_event p e same small = ground (arith, ap (length {A = ℕ}) same)

  pub IsSmall-FitsFormat : (e : RecordedEvent) → IsSmall e → FitsFormat e
  IsSmall-FitsFormat e small = record {
    event_type = omega (arith, small.event_type);
    body = omega (arith, small.encoded, length-encode_record e);
  }

  more_built :
      (e : RecordedEvent) (r : Result (List RecordedEvent)) (es : List RecordedEvent)
      → (r >>= λ later. ok (e ∷ later)) ≡ ok es
      → (later : List RecordedEvent) × (r ≡ ok later) × (es ≡ e ∷ later)
  more_built e (ok later) es h = (later, refl, cc)
  more_built e (err x) es h = cc

  first_built :
      (r : Result RecordedEvent) (f : RecordedEvent → Result (List RecordedEvent))
      (es : List RecordedEvent)
      → (r >>= f) ≡ ok es
      → (e : RecordedEvent) × (r ≡ ok e) × (f e ≡ ok es)
  first_built (ok e) f es h = (e, refl, h)
  first_built (err x) f es h = cc

  -- What the loop accepts is within the limits, and is numbered.
  pub build-numbered :
      (id at position version : ℕ) (ps : List ProposedEvent) (es : List RecordedEvent)
      → build id at position version ps ≡ ok es
      → (es ≡ numbered id at position version ps) × All IsSmall (numbered id at position version ps)
  unfolding build
  build-numbered id at position version [] es h = (cc, tt)
  build-numbered id at position version (p ∷ ps) es h =
      let e = to_recorded id at position version p in
      let (e', checked, more) = first_built (check_event p e) _ es h in
      let (same, some_type, event_type, encoded) = check_event-IsSmall p e e' refl checked in
      let (later, built, all) = more_built e' _ es more in
      let (numbers, small) = build-numbered id at (position + 1) (version + 1) ps later built in
      (
        cc (all, same, numbers),
        (record { some_type = some_type; event_type = event_type; encoded = encoded }, small),
      )

  -- The loop accepts every list of proposals within the limits.
  pub build_accepts :
      (id at position version : ℕ) (ps : List ProposedEvent)
      → All IsSmall (numbered id at position version ps)
      → build id at position version ps ≡ ok (numbered id at position version ps)
  unfolding build
  build_accepts id at position version [] h = refl
  build_accepts id at position version (p ∷ ps) h = rw (
    IsSmall-check_event p (to_recorded id at position version p) refl h.0,
    build_accepts id at (position + 1) (version + 1) ps h.1,
  )

  pub numbered-IsStorable :
      (id at position version : ℕ) (ps : List ProposedEvent)
      → id < 2 ^ 128
      → at < 256 ^ 8
      → position + length ps ≤ 256 ^ 8
      → version + length ps ≤ 256 ^ 8
      → All IsTypedProposal ps
      → All IsSmall (numbered id at position version ps)
      → All IsStorable (numbered id at position version ps)
  numbered-IsStorable id at position version [] hi ha hp hv t small = tt
  numbered-IsStorable id at position version (p ∷ ps) hi ha hp hv t small = (
    record {
      typed = record {
        event_id = t.0.event_id;
        stream_id = hi;
        stream_version = omega arith;
        global_position = omega arith;
        recorded_at = ha;
        event_type = t.0.event_type;
      };
      fits = IsSmall-FitsFormat (to_recorded id at position version p) small.0;
    },
    numbered-IsStorable id at (position + 1) (version + 1) ps hi ha (omega arith) (omega arith) t.1
        small.1,
  )

pub numbered-stream_id :
    (id at position version : ℕ) (ps : List ProposedEvent)
    → All (λ e. e.stream_id ≡ id) (numbered id at position version ps)
numbered-stream_id id at position version [] = tt
numbered-stream_id id at position version (p ∷ ps) =
    (refl, numbered-stream_id id at (position + 1) (version + 1) ps)

pub length-numbered :
    (id at position version : ℕ) (ps : List ProposedEvent)
    → length (numbered id at position version ps) ≡ length ps
length-numbered id at position version [] = refl
length-numbered id at position version (p ∷ ps) =
    ap suc (length-numbered id at (position + 1) (version + 1) ps)
