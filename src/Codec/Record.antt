-- ===== src/Codec/Record.antt =====
-- src/codec.rs: `decode_record` on encoded, cut and damaged records.
use eventfold_db.Common.{
  [], ℕ, ◌+◌, ◌-◌, ◌%◌, ◌^◌, ◌<◌, ◌≡◌, ◌≢◌, refl, List, ◌++◌, arith, length, take, ltb_of_le,
  ltb_of_lt, ◌==◌, if◌then◌else◌, ==_refl, ==_of_ne, to_le_bytes, from_le_bytes, length-to_le_bytes,
  from_le_bytes-to_le_bytes, take-append, drop-append, length-append, length-take, length-take-le,
  take-append_ge, append-nil, append_assoc, is_utf8, true,
}
use native.Mathlib.Decide.{dec_lt}
use native.Mathlib.Nat.{mod-eq_of_lt}
use eventfold_db.Crates.{Crc32, UuidCrate, Uuid}
use eventfold_db.Error.{ok, err, corrupt_record, crc_mismatch}
use eventfold_db.Types.{RecordedEvent, IsTyped}
use eventfold_db.Codec.{
  read_bytes, read_utf8, body_len, encode_body, encode_record, decode_fields, decode_body,
  decode_record, FitsFormat, complete, incomplete,
}

read_bytes-append :
    (n : ℕ) (xs rest : List ℕ) → length xs ≡ n → read_bytes n (xs ++ rest) ≡ ok (xs, rest)
unfolding read_bytes
read_bytes-append n xs rest h = rw (
  ltb_of_le (length (xs ++ rest)) n (omega (arith, length-append xs rest)),
  take-append n xs rest h,
  drop-append n xs rest h,
)

read_bytes-to_le_bytes :
    (width n : ℕ) (rest : List ℕ)
    → read_bytes width (to_le_bytes width n ++ rest) ≡ ok (to_le_bytes width n, rest)
read_bytes-to_le_bytes width n rest = read_bytes-append width _ rest (length-to_le_bytes width n)

read_bytes-length : (xs rest : List ℕ) → read_bytes (length xs) (xs ++ rest) ≡ ok (xs, rest)
read_bytes-length xs rest = read_bytes-append _ xs rest refl

read_bytes-all : (xs : List ℕ) → read_bytes (length xs) xs ≡ ok (xs, [])
read_bytes-all xs = rw append-nil at (read_bytes-length xs [])

-- A length that is stored modulo 2 ^ 16 or 2 ^ 32, read back.
stored :
    (width n m : ℕ)
    → n < 256 ^ width
    → m ≡ 256 ^ width
    → from_le_bytes (to_le_bytes width (n % m)) ≡ n
stored width n m h e =
    rw (let fits : n < m = rw e h in mod-eq_of_lt fits) (from_le_bytes-to_le_bytes width n h)

read_utf8_lem : (bs : List ℕ) → is_utf8 bs ≡ true → read_utf8 bs ≡ ok bs
unfolding read_utf8
read_utf8_lem bs h = rw h

take_prefix :
    (width n : ℕ) (rest : List ℕ) → take width (to_le_bytes width n ++ rest) ≡ to_le_bytes width n
take_prefix width n rest = take-append width _ rest (length-to_le_bytes width n)

module _ ⦃crc : Crc32⦄ ⦃uuid : UuidCrate⦄ where
  read_bytes-as_bytes :
      (u : Uuid) (rest : List ℕ)
      → read_bytes 16 (uuid.as_bytes u ++ rest) ≡ ok (uuid.as_bytes u, rest)
  read_bytes-as_bytes u rest = read_bytes-append 16 _ rest (uuid.length-as_bytes u)

  decode_fields-encode_body :
      (e : RecordedEvent) (total : ℕ)
      → IsTyped e
      → FitsFormat e
      → decode_fields (encode_body e) total ≡ ok (complete e total)
  unfolding decode_fields encode_body body_len
  decode_fields-encode_body e total t f = simp (
    read_bytes-to_le_bytes,
    read_bytes-as_bytes,
    stored 2 (length e.event_type) (2 ^ 16) f.event_type refl,
    read_bytes-length,
    read_utf8_lem e.event_type t.event_type,
    stored 4 (length e.metadata) (2 ^ 32) (omega (arith, f.body)) refl,
    stored 4 (length e.payload) (2 ^ 32) (omega (arith, f.body)) refl,
    read_bytes-all,
    uuid.from_bytes-as_bytes e.event_id t.event_id,
    uuid.from_bytes-as_bytes e.stream_id t.stream_id,
    from_le_bytes-to_le_bytes 8 e.stream_version t.stream_version,
    from_le_bytes-to_le_bytes 8 e.global_position t.global_position,
    from_le_bytes-to_le_bytes 8 e.recorded_at t.recorded_at,
  )

  encode_record_lem :
      (e : RecordedEvent)
      → encode_record e
        ≡ to_le_bytes 4 (body_len e % 2 ^ 32)
          ++ (encode_body e ++ to_le_bytes 4 (crc.hash (encode_body e)))
  unfolding encode_record
  encode_record_lem e =
      rw
        (drop-append 4 (to_le_bytes 4 (body_len e % 2 ^ 32)) (encode_body e)
          (length-to_le_bytes 4 (body_len e % 2 ^ 32)))
        (append_assoc _ (encode_body e) _)

  length-encode_body : (e : RecordedEvent) → length (encode_body e) + 4 ≡ body_len e
  unfolding encode_body body_len
  length-encode_body e = simp length-append (
      omega (
        arith,
        length-to_le_bytes,
        uuid.length-as_bytes e.event_id,
        uuid.length-as_bytes e.stream_id,
      ))

  pub length-encode_record : (e : RecordedEvent) → length (encode_record e) ≡ 4 + body_len e
  length-encode_record e = rw encode_record_lem (
      omega (
        arith,
        length-append (to_le_bytes 4 (body_len e % 2 ^ 32))
            (encode_body e ++ to_le_bytes 4 (crc.hash (encode_body e))),
        length-append (encode_body e) (to_le_bytes 4 (crc.hash (encode_body e))),
        length-to_le_bytes,
        length-encode_body e,
      ))

  -- A frame: a length, and that many bytes.
  decode_record-frame :
      (n : ℕ) (body rest : List ℕ)
      → length body ≡ n
      → n < 256 ^ 4
      → decode_record (to_le_bytes 4 n ++ (body ++ rest)) ≡ decode_body body (4 + n)
  unfolding decode_record
  decode_record-frame n body rest h fits = rw (
    take_prefix 4 n (body ++ rest),
    from_le_bytes-to_le_bytes 4 n fits,
    ltb_of_le (length (to_le_bytes 4 n ++ (body ++ rest))) 4 (omega (arith, len)),
    ltb_of_le (length (to_le_bytes 4 n ++ (body ++ rest))) (4 + n) (omega (arith, len)),
    drop-append 4 (to_le_bytes 4 n) (body ++ rest) (length-to_le_bytes 4 n),
    take-append n body rest h,
  )
    where
      len : length (to_le_bytes 4 n ++ (body ++ rest)) ≡ 4 + (length body + length rest)
      len = omega (
        arith,
        length-append (to_le_bytes 4 n) (body ++ rest),
        length-append body rest,
        length-to_le_bytes 4 n,
      )

  decode_record-few : (buf : List ℕ) → length buf < 4 → decode_record buf ≡ ok incomplete
  unfolding decode_record
  decode_record-few buf h = rw (ltb_of_lt (length buf) 4 h)

  decode_record-short :
      (n : ℕ) (body : List ℕ)
      → n < 256 ^ 4
      → length body < n
      → decode_record (to_le_bytes 4 n ++ body) ≡ ok incomplete
  unfolding decode_record
  decode_record-short n body fits h = rw (
    take_prefix 4 n body,
    from_le_bytes-to_le_bytes 4 n fits,
    ltb_of_le (length (to_le_bytes 4 n ++ body)) 4 (omega (arith, len)),
    ltb_of_lt (length (to_le_bytes 4 n ++ body)) (4 + n) (omega (arith, len)),
  )
    where
      len : length (to_le_bytes 4 n ++ body) ≡ 4 + length body
      len = omega (arith, length-append (to_le_bytes 4 n) body, length-to_le_bytes 4 n)

  -- A frame that is cut anywhere.
  decode_record-cut :
      (n k : ℕ) (body : List ℕ)
      → length body ≡ n
      → n < 256 ^ 4
      → k < 4 + n
      → decode_record (take k (to_le_bytes 4 n ++ body)) ≡ ok incomplete
  decode_record-cut n k body h fits cut = elim (dec_lt k 4) [
    | yes few ↦ decode_record-few _ (omega (arith, length-take-le k (to_le_bytes 4 n ++ body)))
    | no many ↦
        let tail : length (take (k - 4) body) ≡ k - 4 = length-take (k - 4) body (omega arith) in
        rw (take-append_ge k (to_le_bytes 4 n) body (omega (arith, length-to_le_bytes 4 n))) (
          rw (length-to_le_bytes 4 n)
            (decode_record-short n (take (k - 4) body) fits (omega arith)))
  ]

  decode_body-sealed :
      (body : List ℕ) (sum total : ℕ)
      → sum < 256 ^ 4
      → decode_body (body ++ to_le_bytes 4 sum) total ≡ (
          if sum == crc.hash body
          then decode_fields body total
          else err (corrupt_record 0 (crc_mismatch sum (crc.hash body))))
  unfolding decode_body
  decode_body-sealed body sum total fits = rw (
    offset,
    drop-append (length body) body (to_le_bytes 4 sum) refl,
    take-append (length body) body (to_le_bytes 4 sum) refl,
    from_le_bytes-to_le_bytes 4 sum fits,
    ltb_of_le (length (body ++ to_le_bytes 4 sum)) 4
        (omega (arith, length-append body (to_le_bytes 4 sum), length-to_le_bytes 4 sum)),
  )
    where
      offset : length (body ++ to_le_bytes 4 sum) - 4 ≡ length body
      offset = omega (arith, length-append body (to_le_bytes 4 sum), length-to_le_bytes 4 sum)

  sealed_length :
      (e : RecordedEvent) (sum : ℕ) → length (encode_body e ++ to_le_bytes 4 sum) ≡ body_len e
  sealed_length e sum = omega (
    arith,
    length-append (encode_body e) (to_le_bytes 4 sum),
    length-to_le_bytes 4 sum,
    length-encode_body e,
  )

  -- A typed event whose lengths fit the format, encoded, whatever follows it, decodes to the
  -- event and to its own length.
  pub decode_record-encode_record :
      (e : RecordedEvent) (rest : List ℕ)
      → IsTyped e
      → FitsFormat e
      → decode_record (encode_record e ++ rest) ≡ ok (complete e (length (encode_record e)))
  decode_record-encode_record e rest t f =
      rw
        (
          length-encode_record e,
          encode_record_lem e,
          mod-eq_of_lt f.body,
          append_assoc _ _ rest,
          decode_record-frame (body_len e)
              (encode_body e ++ to_le_bytes 4 (crc.hash (encode_body e))) rest (sealed_length e _)
              f.body,
          decode_body-sealed (encode_body e) (crc.hash (encode_body e)) (4 + body_len e)
              (crc.hash-lt (encode_body e)),
          ==_refl (crc.hash (encode_body e)),
        )
        (decode_fields-encode_body e (4 + body_len e) t f)

  -- The record of an event whose lengths fit the format, cut short anywhere, is incomplete,
  -- never corrupt.
  pub decode_record-take :
      (e : RecordedEvent) (k : ℕ)
      → FitsFormat e
      → k < length (encode_record e)
      → decode_record (take k (encode_record e)) ≡ ok incomplete
  decode_record-take e k f h =
      rw (encode_record_lem e, mod-eq_of_lt f.body)
        (decode_record-cut (body_len e) k _ (sealed_length e _) f.body
          (omega (arith, length-encode_record e)))

  -- A record whose lengths fit the format and whose body was changed, its length kept, is
  -- refused, unless the checksums collide.
  pub decode_record-damaged :
      (e : RecordedEvent) (body rest : List ℕ)
      → FitsFormat e
      → length body ≡ length (encode_body e)
      → crc.hash (encode_body e) ≢ crc.hash body
      → decode_record (
          to_le_bytes 4 (body_len e)
          ++ ((body ++ to_le_bytes 4 (crc.hash (encode_body e))) ++ rest))
        ≡ err (corrupt_record 0 (crc_mismatch (crc.hash (encode_body e)) (crc.hash body)))
  decode_record-damaged e body rest f h differ = rw (
    decode_record-frame (body_len e) (body ++ to_le_bytes 4 (crc.hash (encode_body e))) rest
        (omega (
          arith,
          length-append body (to_le_bytes 4 (crc.hash (encode_body e))),
          length-to_le_bytes 4 (crc.hash (encode_body e)),
          length-encode_body e,
        ))
        f.body,
    decode_body-sealed body (crc.hash (encode_body e)) (4 + body_len e)
        (crc.hash-lt (encode_body e)),
    ==_of_ne (crc.hash (encode_body e)) (crc.hash body) differ,
  )
