-- ===== src/Store/Written.antt =====
-- src/store.rs: what recovery reads from a batch that `append` has written, whole or torn.
use eventfold_db.Common.{
  [], ℕ, ◌+◌, ◌-◌, ◌%◌, ◌^◌, ◌<◌, ◌≡◌, refl, sym, true, List, ◌∷◌, ◌++◌, All, arith, length, take,
  drop, ◌==◌, ==_refl, length-append, length-take-le, take-append, drop-append, take-append_le,
  take-append_ge, append_assoc, append-nil,
}
use native.Mathlib.Decide.{dec_lt}
use native.Mathlib.Nat.{mod-eq_of_lt}
use eventfold_db.Crates.{Crc32, UuidCrate}
use eventfold_db.Error.{ok}
use eventfold_db.Types.{RecordedEvent, IsTyped}
use eventfold_db.Codec.{
  complete, FitsFormat, encode_record, encode_batch_header, decode_batch_header,
  encode_batch_footer, decode_batch_footer, batch_header_size, batch_footer_size,
}
use eventfold_db.Codec.Envelope.{
  length-encode_batch_header, length-encode_batch_footer, decode_batch_header-short,
  decode_batch_footer-short, decode_batch_header-encode_batch_header,
  decode_batch_footer-encode_batch_footer,
}
use eventfold_db.Codec.Record.{decode_record-encode_record, decode_record-take}
use eventfold_db.Store.{encode_records, encode_batch}
use eventfold_db.Store.Recovery.{records, cut, read_records, read_footer, read_batch, batch, torn}

-- What Rust's types and the size limits give of an event that is written.
pub record IsStorable (e : RecordedEvent) : Type 0 where
  pub typed : IsTyped e
  pub fits : FitsFormat e

module _ ⦃crc : Crc32⦄ ⦃uuid : UuidCrate⦄ where
  read_records-encode_records :
      (es : List RecordedEvent) (rest : List ℕ)
      → All IsStorable es
      → read_records (length es) (encode_records es ++ rest)
        ≡ records es (length (encode_records es))
  unfolding read_records encode_records
  read_records-encode_records [] rest h = refl
  read_records-encode_records (e ∷ es) rest h = rw (
    append_assoc (encode_record e) (encode_records es) rest,
    decode_record-encode_record e (encode_records es ++ rest) h.0.typed h.0.fits,
    drop-append (length (encode_record e)) (encode_record e) (encode_records es ++ rest) refl,
    read_records-encode_records es rest h.1,
    length-append (encode_record e) (encode_records es),
  )

  read_records-cut :
      (es : List RecordedEvent) (rest : List ℕ) (k : ℕ)
      → All IsStorable es
      → k < length (encode_records es)
      → read_records (length es) (take k (encode_records es ++ rest)) ≡ cut
  unfolding read_records encode_records
  read_records-cut [] rest k h l = absurd (omega arith)
  read_records-cut (e ∷ es) rest k h l = elim (dec_lt k (length (encode_record e))) [
    | yes few ↦ rw (
      append_assoc (encode_record e) (encode_records es) rest,
      take-append_le k (encode_record e) (encode_records es ++ rest) (omega arith),
      decode_record-take e k h.0.fits few,
    )
    | no many ↦
        let n = length (encode_record e) in
        let later = take (k - n) (encode_records es ++ rest) in
        rw (
          append_assoc (encode_record e) (encode_records es) rest,
          take-append_ge k (encode_record e) (encode_records es ++ rest) (omega arith),
          decode_record-encode_record e later h.0.typed h.0.fits,
          drop-append n (encode_record e) later refl,
          read_records-cut es rest (k - n) h.1
              (omega (arith, length-append (encode_record e) (encode_records es))),
        )
  ]

  module _ (es : List RecordedEvent) (first : ℕ) (storable : All IsStorable es)
      (count : length es < 256 ^ 4) (pos : first < 256 ^ 8) where
    header : List ℕ
    header = encode_batch_header (length es % 2 ^ 32) first

    sum : ℕ
    sum = crc.hash (header ++ encode_records es)

    encode_batch_lem :
        encode_batch es first ≡ header ++ (encode_records es ++ encode_batch_footer sum)
    unfolding encode_batch header sum
    encode_batch_lem = rw crc.finalize-update

    header_read :
        (rest : List ℕ)
        → decode_batch_header (header ++ rest)
          ≡ ok (
              complete
                (record { record_count = length es; first_global_pos = first })
                batch_header_size)
    unfolding header
    header_read rest =
        rw (mod-eq_of_lt count)
          (decode_batch_header-encode_batch_header (length es) first rest count pos)

    length-header : length header ≡ batch_header_size
    unfolding header
    length-header = length-encode_batch_header (length es % 2 ^ 32) first

    footer_start :
        drop
          (batch_header_size + length (encode_records es))
          (header ++ (encode_records es ++ encode_batch_footer sum))
        ≡ encode_batch_footer sum
    footer_start = rw (sym (append_assoc header (encode_records es) (encode_batch_footer sum))) (
        drop-append _ (header ++ encode_records es) (encode_batch_footer sum)
          (omega (arith, length-header, length-append header (encode_records es))))

    checked :
        take
          (batch_header_size + length (encode_records es) + batch_footer_size - batch_footer_size)
          (header ++ (encode_records es ++ encode_batch_footer sum))
        ≡ header ++ encode_records es
    checked = rw (sym (append_assoc header (encode_records es) (encode_batch_footer sum))) (
        take-append _ (header ++ encode_records es) (encode_batch_footer sum)
          (omega (arith, length-header, length-append header (encode_records es))))

    sum-lt : sum < 256 ^ 4
    unfolding sum
    sum-lt = crc.hash-lt (header ++ encode_records es)

    footer_read :
        decode_batch_footer (encode_batch_footer sum)
        ≡ ok (complete (record { batch_crc = sum }) batch_footer_size)
    footer_read = rw append-nil at (decode_batch_footer-encode_batch_footer sum [] sum-lt)

    seal : (sum == crc.hash (header ++ encode_records es)) ≡ true
    unfolding sum
    seal = ==_refl (crc.hash (header ++ encode_records es))

    length-encode_batch :
        length (encode_batch es first)
        ≡ batch_header_size + length (encode_records es) + batch_footer_size
    length-encode_batch = rw encode_batch_lem (
        omega (
          arith,
          length-header,
          length-append header (encode_records es ++ encode_batch_footer sum),
          length-append (encode_records es) (encode_batch_footer sum),
          length-encode_batch_footer sum,
        ))

    -- The loop accepts the batch, and takes all its bytes.
    pub read_batch-encode_batch :
        read_batch (encode_batch es first) ≡ batch es (length (encode_batch es first))
    unfolding read_batch read_footer
    read_batch-encode_batch = rw (
      length-encode_batch,
      encode_batch_lem,
      header_read (encode_records es ++ encode_batch_footer sum),
      drop-append batch_header_size header (encode_records es ++ encode_batch_footer sum)
          length-header,
      read_records-encode_records es (encode_batch_footer sum) storable,
      footer_start,
      footer_read,
      checked,
      seal,
    )

    module _ (j : ℕ) where
      -- Cut inside the records.
      cut_records :
          j < length (encode_records es)
          → read_batch (header ++ take j (encode_records es ++ encode_batch_footer sum)) ≡ torn
      unfolding read_batch read_footer
      cut_records l = rw (
        header_read (take j (encode_records es ++ encode_batch_footer sum)),
        drop-append batch_header_size header (take j (encode_records es ++ encode_batch_footer sum))
            length-header,
        read_records-cut es (encode_batch_footer sum) j storable l,
      )

      -- Cut inside the footer.
      cut_footer :
          j < batch_footer_size
          → read_batch (header ++ (encode_records es ++ take j (encode_batch_footer sum))) ≡ torn
      unfolding read_batch read_footer
      cut_footer l = rw (
        header_read (encode_records es ++ take j (encode_batch_footer sum)),
        drop-append batch_header_size header (encode_records es ++ take j (encode_batch_footer sum))
            length-header,
        read_records-encode_records es (take j (encode_batch_footer sum)) storable,
        sym (append_assoc header (encode_records es) (take j (encode_batch_footer sum))),
        drop-append (batch_header_size + length (encode_records es)) (header ++ encode_records es)
            (take j (encode_batch_footer sum))
            (omega (arith, length-header, length-append header (encode_records es))),
        decode_batch_footer-short (take j (encode_batch_footer sum))
            (omega (arith, length-take-le j (encode_batch_footer sum))),
      )

    cut_header : (buf : List ℕ) → length buf < batch_header_size → read_batch buf ≡ torn
    unfolding read_batch
    cut_header buf l = rw (decode_batch_header-short buf l)

    -- The loop takes a batch that is cut short anywhere for a torn one.
    pub read_batch-take :
        (k : ℕ)
        → k < length (encode_batch es first)
        → read_batch (take k (encode_batch es first)) ≡ torn
    read_batch-take k l = elim (dec_lt k batch_header_size) [
      | yes few ↦ cut_header _ (omega (arith, length-take-le k (encode_batch es first)))
      | no many ↦
          rw
            (
              encode_batch_lem,
              take-append_ge k header (encode_records es ++ encode_batch_footer sum)
                  (omega (arith, length-header)),
              length-header,
            )
            (elim (dec_lt (k - batch_header_size) (length (encode_records es))) [
              | yes inside ↦ cut_records (k - batch_header_size) inside
              | no outside ↦
                  rw
                    (take-append_ge (k - batch_header_size) (encode_records es)
                      (encode_batch_footer sum) (omega arith))
                    (cut_footer (k - batch_header_size - length (encode_records es))
                      (omega (arith, length-encode_batch)))
            ])
    ]
