-- ===== src/Codec.antt =====
-- src/codec.rs: the file header, the batch header and footer, and the records, as byte lists.
-- The cursor of `decode_record` is kept as the bytes that are still unread.
pub mod Envelope
pub mod Typed
pub mod Record
use eventfold_db.Common.{
  [], ℕ, ◌+◌, ◌-◌, ◌%◌, ◌^◌, ◌<◌, List, ◌∷◌, ◌++◌, length, take, drop, ltb, ◌==◌, if◌then◌else◌,
  to_le_bytes, from_le_bytes, bytes_eq, is_utf8,
}
use eventfold_db.Crates.{Crc32, UuidCrate}
use eventfold_db.Error.{
  ◌>>=◌, Result, ok, err, corrupt_record, invalid_header, wrong_magic, unsupported_version,
  body_too_short, crc_mismatch, unexpected_end, invalid_utf8, wrong_header_magic,
  wrong_footer_magic,
}
use eventfold_db.Types.{RecordedEvent}

-- "EFDB"
abbrev pub magic : List ℕ
magic = 0x45 ∷ 0x46 ∷ 0x44 ∷ 0x42 ∷ []

abbrev pub format_version : ℕ
format_version = 3

-- "EFBB"
abbrev pub batch_header_magic : List ℕ
batch_header_magic = 0x45 ∷ 0x46 ∷ 0x42 ∷ 0x42 ∷ []

-- "EFBF"
abbrev pub batch_footer_magic : List ℕ
batch_footer_magic = 0x45 ∷ 0x46 ∷ 0x42 ∷ 0x46 ∷ []

abbrev pub fixed_body_size : ℕ
fixed_body_size = 8 + 8 + 16 + 8 + 16 + 2 + 4 + 4 + 4

abbrev pub length_prefix_size : ℕ
length_prefix_size = 4

abbrev pub batch_header_size : ℕ
batch_header_size = 16

abbrev pub batch_footer_size : ℕ
batch_footer_size = 8

-- The value, and how many bytes it took.
pub data DecodeOutcome {ℓ} (A : Type ℓ) : Type ℓ where
  complete : A → ℕ → DecodeOutcome A
  incomplete : DecodeOutcome A

pub record BatchHeader : Type 0 where
  pub record_count : ℕ
  pub first_global_pos : ℕ

pub record BatchFooter : Type 0 where
  pub batch_crc : ℕ

unfoldable pub encode_header : List ℕ
encode_header = magic ++ to_le_bytes 4 format_version

unfoldable pub decode_header : List ℕ → Result ℕ
decode_header buf =
    let version = from_le_bytes (take 4 (drop 4 buf)) in
    if bytes_eq (take 4 buf) magic
    then (if version == format_version
        then ok version
        else err (invalid_header (unsupported_version version)))
    else err (invalid_header wrong_magic)

unfoldable pub encode_batch_header : ℕ → ℕ → List ℕ
encode_batch_header record_count first_global_pos =
    batch_header_magic ++ (to_le_bytes 4 record_count ++ to_le_bytes 8 first_global_pos)

unfoldable pub decode_batch_header : List ℕ → Result (DecodeOutcome BatchHeader)
decode_batch_header buf =
    if ltb (length buf) batch_header_size
    then ok incomplete
    else if bytes_eq (take 4 buf) batch_header_magic
    then ok (
        complete
          (record {
            record_count = from_le_bytes (take 4 (drop 4 buf));
            first_global_pos = from_le_bytes (take 8 (drop 8 buf));
          })
          batch_header_size)
    else err (corrupt_record 0 wrong_header_magic)

unfoldable pub encode_batch_footer : ℕ → List ℕ
encode_batch_footer batch_crc = batch_footer_magic ++ to_le_bytes 4 batch_crc

unfoldable pub decode_batch_footer : List ℕ → Result (DecodeOutcome BatchFooter)
decode_batch_footer buf =
    if ltb (length buf) batch_footer_size
    then ok incomplete
    else if bytes_eq (take 4 buf) batch_footer_magic
    then ok
        (complete (record { batch_crc = from_le_bytes (take 4 (drop 4 buf)) }) batch_footer_size)
    else err (corrupt_record 0 wrong_footer_magic)

-- The macro `read_bytes!`: the next `n` bytes, and what is unread after them.
unfoldable pub read_bytes : ℕ → List ℕ → Result (List ℕ × List ℕ)
read_bytes n unread =
    if ltb (length unread) n
    then err (corrupt_record 0 unexpected_end)
    else ok (take n unread, drop n unread)

-- `str::from_utf8` with its error mapped.
unfoldable pub read_utf8 : List ℕ → Result (List ℕ)
read_utf8 bytes = if is_utf8 bytes then ok bytes else err (corrupt_record 0 invalid_utf8)

-- The number of bytes from the global position through the checksum.
unfoldable pub body_len : RecordedEvent → ℕ
body_len e = fixed_body_size + length e.event_type + length e.metadata + length e.payload

-- The lengths fit the fields that the record format stores them in.
pub record FitsFormat (e : RecordedEvent) : Type 0 where
  pub event_type : length e.event_type < 256 ^ 2
  pub body : body_len e < 256 ^ 4

module _ ⦃crc : Crc32⦄ ⦃uuid : UuidCrate⦄ where
  -- What the checksum covers.
  unfoldable pub encode_body : RecordedEvent → List ℕ
  encode_body e =
      to_le_bytes 8 e.global_position
      ++ (to_le_bytes 8 e.recorded_at
          ++ (uuid.as_bytes e.stream_id
              ++ (to_le_bytes 8 e.stream_version
                  ++ (uuid.as_bytes e.event_id
                      ++ (to_le_bytes 2 (length e.event_type % 2 ^ 16)
                          ++ (e.event_type
                              ++ (to_le_bytes 4 (length e.metadata % 2 ^ 32)
                                  ++ (e.metadata
                                      ++ (to_le_bytes 4 (length e.payload % 2 ^ 32)
                                          ++ e.payload)))))))))

  unfoldable pub encode_record : RecordedEvent → List ℕ
  encode_record e =
      let buf = to_le_bytes 4 (body_len e % 2 ^ 32) ++ encode_body e in
      buf ++ to_le_bytes 4 (crc.hash (drop length_prefix_size buf))

  -- The fields of the checked region, in order; bytes after the payload are not looked at.
  unfoldable pub decode_fields : List ℕ → ℕ → Result (DecodeOutcome RecordedEvent)
  decode_fields protected total = do
    (gp_bytes, unread) ← read_bytes 8 protected
    (ra_bytes, unread) ← read_bytes 8 unread
    (sid_bytes, unread) ← read_bytes 16 unread
    (sv_bytes, unread) ← read_bytes 8 unread
    (eid_bytes, unread) ← read_bytes 16 unread
    (etl_bytes, unread) ← read_bytes 2 unread
    (et_bytes, unread) ← read_bytes (from_le_bytes etl_bytes) unread
    event_type ← read_utf8 et_bytes
    (ml_bytes, unread) ← read_bytes 4 unread
    (meta_bytes, unread) ← read_bytes (from_le_bytes ml_bytes) unread
    (pl_bytes, unread) ← read_bytes 4 unread
    (pay_bytes, _) ← read_bytes (from_le_bytes pl_bytes) unread
    ok (
        complete
          (record {
            event_id = uuid.from_bytes eid_bytes;
            stream_id = uuid.from_bytes sid_bytes;
            stream_version = from_le_bytes sv_bytes;
            global_position = from_le_bytes gp_bytes;
            recorded_at = from_le_bytes ra_bytes;
            event_type = event_type;
            metadata = meta_bytes;
            payload = pay_bytes;
          })
          total)

  -- The body, checksum included: the checksum is compared before any field is read.
  unfoldable pub decode_body : List ℕ → ℕ → Result (DecodeOutcome RecordedEvent)
  decode_body body total =
      let crc_offset = length body - 4 in
      let stored_crc = from_le_bytes (drop crc_offset body) in
      let computed_crc = crc.hash (take crc_offset body) in
      if ltb (length body) 4
      then err (corrupt_record 0 body_too_short)
      else if stored_crc == computed_crc
      then decode_fields (take crc_offset body) total
      else err (corrupt_record 0 (crc_mismatch stored_crc computed_crc))

  unfoldable pub decode_record : List ℕ → Result (DecodeOutcome RecordedEvent)
  decode_record buf =
      let record_length = from_le_bytes (take 4 buf) in
      let total = length_prefix_size + record_length in
      if ltb (length buf) length_prefix_size
      then ok incomplete
      else if ltb (length buf) total
      then ok incomplete
      else decode_body (take record_length (drop length_prefix_size buf)) total
