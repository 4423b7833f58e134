-- ===== src/Codec/Typed.antt =====
-- src/codec.rs: what `decode_record` gives is a value of Rust's types, taken from the buffer.
use eventfold_db.Common.{
  ℕ, ◌+◌, ◌-◌, ◌^◌, ◌≤◌, ◌<◌, ◌≡◌, refl, sym, true, List, All, arith, length, take, drop, ltb, ◌==◌,
  Bool-cases, inl, inr, IsByte, is_utf8, from_le_bytes, from_le_bytes-lt, All-take, All-drop,
  length-take, le_of_ltb,
}
use eventfold_db.Crates.{Crc32, UuidCrate}
use eventfold_db.Error.{Result, ok, err, ◌>>=◌}
use eventfold_db.Types.{RecordedEvent, IsTyped}
use eventfold_db.Codec.{
  DecodeOutcome, complete, read_bytes, read_utf8, decode_fields, decode_body, decode_record,
  length_prefix_size,
}

-- What a read takes, and leaves, of bytes.
taken :
    (n : ℕ) (bs : List ℕ) (p : List ℕ × List ℕ)
    → All IsByte bs
    → read_bytes n bs ≡ ok p
    → (length p.0 ≡ n) × All IsByte p.0 × All IsByte p.1
unfolding read_bytes
taken n bs p bytes h = elim (Bool-cases (ltb (length bs) n)) [
  | inl short ↦ cc (rw short at h)
  | inr enough ↦
      let same : (take n bs, drop n bs) ≡ p = cc (rw enough at h) in
      rw (← same) (
        length-take n bs (le_of_ltb _ _ enough),
        All-take IsByte n bs bytes,
        All-drop IsByte n bs bytes,
      )
]

is_text : (bs text : List ℕ) → read_utf8 bs ≡ ok text → is_utf8 text ≡ true
unfolding read_utf8
is_text bs text h = elim (Bool-cases (is_utf8 bs)) [
  | inl valid ↦ let same : bs ≡ text = cc (rw valid at h) in rw (← same) valid
  | inr invalid ↦ cc (rw invalid at h)
]

-- What follows a read that succeeds, with what the read took.
after_read {ℓ κ} :
    {B : Type ℓ} {C : Type κ} (n : ℕ) (bs : List ℕ) (next : List ℕ × List ℕ → Result B) (b : B)
    → All IsByte bs
    → (read_bytes n bs >>= next) ≡ ok b
    → ((p : List ℕ × List ℕ) → length p.0 ≡ n → All IsByte p.0 → All IsByte p.1 → next p ≡ ok b → C)
    → C
after_read {C = C} n bs next b bytes h later = go (read_bytes n bs) refl h
  where
    go : (r : Result (List ℕ × List ℕ)) → read_bytes n bs ≡ r → (r >>= next) ≡ ok b → C
    go (ok p) same h = let (len, front, back) = taken n bs p bytes same in later p len front back h
    go (err e) same h = cc

after_text {ℓ κ} :
    {B : Type ℓ} {C : Type κ} (bs : List ℕ) (next : List ℕ → Result B) (b : B)
    → (read_utf8 bs >>= next) ≡ ok b
    → ((text : List ℕ) → is_utf8 text ≡ true → next text ≡ ok b → C)
    → C
after_text {C = C} bs next b h later = go (read_utf8 bs) refl h
  where
    go : (r : Result (List ℕ)) → read_utf8 bs ≡ r → (r >>= next) ≡ ok b → C
    go (ok text) same h = later text (is_text bs text same) h
    go (err e) same h = cc

number_of :
    (width : ℕ) (bs : List ℕ) → length bs ≡ width → All IsByte bs → from_le_bytes bs < 256 ^ width
number_of width bs len bytes = rw len at (from_le_bytes-lt bs bytes)

finish :
    (e : RecordedEvent) (n : ℕ) (built : RecordedEvent) (total : ℕ)
    → Path (Result (DecodeOutcome RecordedEvent)) (ok (complete built total)) (ok (complete e n))
    → IsTyped built
    → IsTyped e × (n ≡ total)
finish e n built total h typed =
    let same : built ≡ e = cc in let count : total ≡ n = cc in (rw (← same) typed, sym count)

module _ ⦃crc : Crc32⦄ ⦃uuid : UuidCrate⦄ where
  decode_fields-IsTyped :
      (protected : List ℕ) (total : ℕ) (e : RecordedEvent) (n : ℕ)
      → All IsByte protected
      → decode_fields protected total ≡ ok (complete e n)
      → IsTyped e × (n ≡ total)
  unfolding decode_fields
  decode_fields-IsTyped protected total e n bytes h =
      after_read 8 protected _ _ bytes h (λ gp gp_len gp_bytes bytes h.
        after_read 8 gp.1 _ _ bytes h (λ ra ra_len ra_bytes bytes h.
          after_read 16 ra.1 _ _ bytes h (λ sid sid_len sid_bytes bytes h.
            after_read 8 sid.1 _ _ bytes h (λ sv sv_len sv_bytes bytes h.
              after_read 16 sv.1 _ _ bytes h (λ eid eid_len eid_bytes bytes h.
                after_read 2 eid.1 _ _ bytes h (λ etl _ _ bytes h.
                  after_read (from_le_bytes etl.0) etl.1 _ _ bytes h (λ et _ _ bytes h.
                    after_text et.0 _ _ h (λ event_type valid h.
                      after_read 4 et.1 _ _ bytes h (λ ml _ _ bytes h.
                        after_read (from_le_bytes ml.0) ml.1 _ _ bytes h (λ meta _ _ bytes h.
                          after_read 4 meta.1 _ _ bytes h (λ pl _ _ bytes h.
                            after_read (from_le_bytes pl.0) pl.1 _ _ bytes h (λ pay _ _ bytes h.
                              finish e n _ total h (record {
                                event_id = uuid.from_bytes-lt eid.0 eid_len eid_bytes;
                                stream_id = uuid.from_bytes-lt sid.0 sid_len sid_bytes;
                                stream_version = number_of 8 sv.0 sv_len sv_bytes;
                                global_position = number_of 8 gp.0 gp_len gp_bytes;
                                recorded_at = number_of 8 ra.0 ra_len ra_bytes;
                                event_type = valid;
                              })))))))))))))

  decode_body-IsTyped :
      (body : List ℕ) (total : ℕ) (e : RecordedEvent) (n : ℕ)
      → All IsByte body
      → decode_body body total ≡ ok (complete e n)
      → IsTyped e × (n ≡ total)
  unfolding decode_body
  decode_body-IsTyped body total e n bytes h =
      let offset = length body - 4 in
      let stored = from_le_bytes (drop offset body) in
      let computed = crc.hash (take offset body) in
      elim (Bool-cases (ltb (length body) 4)) [
        | inl short ↦ cc (rw short at h)
        | inr long ↦ elim (Bool-cases (stored == computed)) [
          | inl match ↦
              decode_fields-IsTyped (take offset body) total e n (All-take IsByte offset body bytes)
                (rw (long, match) at h)
          | inr differ ↦ cc (rw (long, differ) at h)
        ]
      ]

  -- Whatever bytes a record is decoded from: if it is complete, the event is a value of Rust's
  -- types (its numbers and identifiers are in range and its type is UTF-8), and the bytes consumed
  -- are no more than there are, with at least the length prefix among them.
  pub decode_record-IsTyped :
      (buf : List ℕ) (e : RecordedEvent) (n : ℕ)
      → All IsByte buf
      → decode_record buf ≡ ok (complete e n)
      → IsTyped e × (length_prefix_size ≤ n) × (n ≤ length buf)
  unfolding decode_record
  decode_record-IsTyped buf e n bytes h =
      let record_length = from_le_bytes (take 4 buf) in
      let total = length_prefix_size + record_length in
      elim (Bool-cases (ltb (length buf) length_prefix_size)) [
        | inl short ↦ cc (rw short at h)
        | inr long ↦ elim (Bool-cases (ltb (length buf) total)) [
          | inl cut ↦ cc (rw (long, cut) at h)
          | inr whole ↦
              let body = take record_length (drop length_prefix_size buf) in
              let (typed, same) =
                decode_body-IsTyped body total e n
                  (All-take IsByte record_length (drop length_prefix_size buf)
                    (All-drop IsByte length_prefix_size buf bytes))
                  (rw (long, whole) at h) in
              (typed, omega (arith, same), omega (arith, same, le_of_ltb _ _ whole))
        ]
      ]
