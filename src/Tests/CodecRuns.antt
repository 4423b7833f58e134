-- ===== src/Tests/CodecRuns.antt =====
-- Runs of src/codec.rs.
use eventfold_db.Common.{
  [], ℕ, ◌≤◌, ◌≡◌, ◌≢◌, refl, Bool, true, ◌&&◌, ltb, lt_of_ltb, Bool-cases, inl, inr, All, IsByte,
  List, ◌∷◌, ◌++◌, arith, length, drop, to_le_bytes,
}
use eventfold_db.Error.{ok, err, corrupt_record, crc_mismatch}
use eventfold_db.Types.{IsTyped}
use eventfold_db.Codec.Typed.{decode_record-IsTyped}
use eventfold_db.Codec.{
  length_prefix_size, body_len, encode_body, encode_record, decode_record, complete, FitsFormat,
}
use eventfold_db.Codec.Record.{decode_record-encode_record, decode_record-damaged}
use eventfold_db.Tests.Data.{sum_crc, plain_uuid, paid, paid-IsTyped}

paid-FitsFormat : FitsFormat paid
unfolding body_len
paid-FitsFormat = record { event_type = omega arith; body = omega arith }

decode_record-encode_record_example :
    decode_record (encode_record paid ++ 9 ∷ []) ≡ ok (complete paid (length (encode_record paid)))
decode_record-encode_record_example =
    decode_record-encode_record paid (9 ∷ []) paid-IsTyped paid-FitsFormat

-- The body with a one for the lowest byte of the global position.
damaged_body : List ℕ
damaged_body = 1 ∷ drop 1 (encode_body paid)

same_length : length damaged_body ≡ length (encode_body paid)
unfolding damaged_body encode_body to_le_bytes drop
same_length = refl

other_sum : sum_crc.hash (encode_body paid) ≢ sum_crc.hash damaged_body
unfolding damaged_body encode_body to_le_bytes drop
other_sum = omega arith

decode_record-damaged_example :
    decode_record (
      to_le_bytes 4 (body_len paid)
      ++ ((damaged_body ++ to_le_bytes 4 (sum_crc.hash (encode_body paid))) ++ []))
    ≡ err (
        corrupt_record 0
          (crc_mismatch (sum_crc.hash (encode_body paid)) (sum_crc.hash damaged_body)))
decode_record-damaged_example =
    decode_record-damaged paid damaged_body [] paid-FitsFormat same_length other_sum

abbrev are_bytes : List ℕ → Bool
are_bytes [] = true
are_bytes (b ∷ bs) = ltb b 256 && are_bytes bs

are_bytes-All : (bs : List ℕ) → are_bytes bs ≡ true → All IsByte bs
are_bytes-All [] h = tt
are_bytes-All (b ∷ bs) h = elim (Bool-cases (ltb b 256)) [
  | inl small ↦ (lt_of_ltb b 256 small, are_bytes-All bs (rw small at h))
  | inr large ↦ cc (rw large at h)
]

paid_bytes : are_bytes (encode_record paid ++ []) ≡ true
unfolding encode_record encode_body body_len to_le_bytes drop
paid_bytes = refl

decode_record-IsTyped_example :
    IsTyped paid
    × (length_prefix_size ≤ length (encode_record paid))
    × (length (encode_record paid) ≤ length (encode_record paid ++ []))
decode_record-IsTyped_example =
    decode_record-IsTyped (encode_record paid ++ []) paid (length (encode_record paid))
      (are_bytes-All (encode_record paid ++ []) paid_bytes)
      (decode_record-encode_record paid [] paid-IsTyped paid-FitsFormat)
