-- ===== src/Codec/Envelope.antt =====
-- src/codec.rs: what decoding makes of an encoded file header, batch header and batch footer.
use eventfold_db.Common.{
  ℕ, append_assoc, ◌^◌, ◌≤◌, ◌<◌, ◌≡◌, refl, List, ◌++◌, arith, length, take, drop, ltb_of_le,
  ltb_of_lt, to_le_bytes, from_le_bytes, length-to_le_bytes, from_le_bytes-to_le_bytes,
  take-drop-append, length-append,
}
use eventfold_db.Error.{ok}
use eventfold_db.Codec.{
  encode_header, decode_header, encode_batch_header, decode_batch_header, encode_batch_footer,
  decode_batch_footer, batch_header_magic, batch_footer_magic, complete, incomplete,
  batch_header_size, batch_footer_size, format_version,
}

pub decode_header-encode_header : decode_header encode_header ≡ ok format_version
unfolding decode_header encode_header to_le_bytes from_le_bytes take drop
decode_header-encode_header = refl

pub length-encode_header : length encode_header ≡ 8
unfolding encode_header to_le_bytes
length-encode_header = refl

pub length-encode_batch_header :
    (count pos : ℕ) → length (encode_batch_header count pos) ≡ batch_header_size
unfolding encode_batch_header
length-encode_batch_header count pos = omega (
  arith,
  length-append (to_le_bytes 4 count) (to_le_bytes 8 pos),
  length-to_le_bytes 4 count,
  length-to_le_bytes 8 pos,
)

pub length-encode_batch_footer : (sum : ℕ) → length (encode_batch_footer sum) ≡ batch_footer_size
unfolding encode_batch_footer
length-encode_batch_footer sum = omega (arith, length-to_le_bytes 4 sum)

pub decode_batch_header-short :
    (buf : List ℕ) → length buf < batch_header_size → decode_batch_header buf ≡ ok incomplete
unfolding decode_batch_header
decode_batch_header-short buf h = rw (ltb_of_lt _ _ h)

pub decode_batch_footer-short :
    (buf : List ℕ) → length buf < batch_footer_size → decode_batch_footer buf ≡ ok incomplete
unfolding decode_batch_footer
decode_batch_footer-short buf h = rw (ltb_of_lt _ _ h)

module _ (count pos : ℕ) (rest : List ℕ) where
  header_magic : take 4 (encode_batch_header count pos ++ rest) ≡ batch_header_magic
  unfolding encode_batch_header take
  header_magic = refl

  header_count : take 4 (drop 4 (encode_batch_header count pos ++ rest)) ≡ to_le_bytes 4 count
  unfolding encode_batch_header
  header_count =
      let e : encode_batch_header count pos ++ rest
          ≡ batch_header_magic ++ (to_le_bytes 4 count ++ (to_le_bytes 8 pos ++ rest)) =
        simp append_assoc in
      rw e (take-drop-append 4 4 batch_header_magic _ _ refl (length-to_le_bytes 4 count))

  header_pos : take 8 (drop 8 (encode_batch_header count pos ++ rest)) ≡ to_le_bytes 8 pos
  unfolding encode_batch_header
  header_pos =
      let e : encode_batch_header count pos ++ rest
          ≡ (batch_header_magic ++ to_le_bytes 4 count) ++ (to_le_bytes 8 pos ++ rest) =
        simp append_assoc in
      rw e (
        take-drop-append 8 8 (batch_header_magic ++ to_le_bytes 4 count) _ _
          (omega (arith, length-to_le_bytes 4 count)) (length-to_le_bytes 8 pos))

  -- An encoded batch header, whatever follows it, decodes to its count and first position, if these
  -- fit their fields, and takes its sixteen bytes.
  pub decode_batch_header-encode_batch_header :
      count < 256 ^ 4
      → pos < 256 ^ 8
      → decode_batch_header (encode_batch_header count pos ++ rest)
        ≡ ok (complete (record { record_count = count; first_global_pos = pos }) batch_header_size)
  unfolding decode_batch_header
  decode_batch_header-encode_batch_header hc hp = rw (
    ltb_of_le (length (encode_batch_header count pos ++ rest)) batch_header_size long,
    header_magic,
    header_count,
    header_pos,
    from_le_bytes-to_le_bytes 4 count hc,
    from_le_bytes-to_le_bytes 8 pos hp,
  )
    where
      long : batch_header_size ≤ length (encode_batch_header count pos ++ rest)
      long = omega (
        arith,
        length-append (encode_batch_header count pos) rest,
        length-encode_batch_header count pos,
      )

module _ (sum : ℕ) (rest : List ℕ) where
  footer_magic : take 4 (encode_batch_footer sum ++ rest) ≡ batch_footer_magic
  unfolding encode_batch_footer take
  footer_magic = refl

  footer_crc : take 4 (drop 4 (encode_batch_footer sum ++ rest)) ≡ to_le_bytes 4 sum
  unfolding encode_batch_footer
  footer_crc = take-drop-append 4 4 batch_footer_magic _ rest refl (length-to_le_bytes 4 sum)

  -- An encoded batch footer, whatever follows it, decodes to its checksum, if that fits its field,
  -- and takes its eight bytes.
  pub decode_batch_footer-encode_batch_footer :
      sum < 256 ^ 4
      → decode_batch_footer (encode_batch_footer sum ++ rest)
        ≡ ok (complete (record { batch_crc = sum }) batch_footer_size)
  unfolding decode_batch_footer
  decode_batch_footer-encode_batch_footer h = rw (
    ltb_of_le (length (encode_batch_footer sum ++ rest)) batch_footer_size long,
    footer_magic,
    footer_crc,
    from_le_bytes-to_le_bytes 4 sum h,
  )
    where
      long : batch_footer_size ≤ length (encode_batch_footer sum ++ rest)
      long =
          omega
            (arith, length-append (encode_batch_footer sum) rest, length-encode_batch_footer sum)
