-- ===== src/Store/Recovery/Local.antt =====
-- src/store.rs, src/codec.rs: what decodes completely does not depend on the bytes behind it.
use eventfold_db.Common.{
  ℕ, zero, suc, ◌+◌, ◌-◌, ◌≤◌, ◌≡◌, ◌∙◌, refl, List, ◌∷◌, ◌++◌, arith, length, take, drop,
  take-drop-local, drop-local, length-append, length-take, length-drop, ltb_of_le, from_le_bytes,
}
use eventfold_db.Crates.{Crc32, UuidCrate}
use eventfold_db.Error.{Result, ok, err, corrupt_record}
use eventfold_db.Types.{RecordedEvent}
use eventfold_db.Store.Recovery.{
  on_outcome, Records, records, cut, broken, cons_record, read_records,
}
use eventfold_db.Codec.{
  DecodeOutcome, complete, incomplete, BatchHeader, BatchFooter, decode_batch_header,
  decode_batch_footer, decode_record, decode_body, decode_fields, batch_header_size,
  batch_footer_size,
}

-- A decoder read only the `c` bytes that it reports.
pub record IsLocal {ℓ} {A : Type ℓ} (decode : List ℕ → Result (DecodeOutcome A)) (buf : List ℕ)
    (v : A) (c : ℕ) : Type ℓ where
  pub within : c ≤ length buf
  pub same : (rest : List ℕ) → decode (take c buf ++ rest) ≡ ok (complete v c)

length-take-append : (c : ℕ) (xs ys : List ℕ) → c ≤ length xs → c ≤ length (take c xs ++ ys)
length-take-append c xs ys h = omega (arith, length-append (take c xs) ys, length-take c xs h)

-- A field at the front.
pub take-local :
    (n c : ℕ) (xs ys : List ℕ) → n ≤ c → c ≤ length xs → take n (take c xs ++ ys) ≡ take n xs
unfolding drop
take-local n c xs ys h l = take-drop-local 0 n c xs ys (omega arith) l

pub header_within :
    (buf : List ℕ) (v : BatchHeader) (c : ℕ)
    → decode_batch_header buf ≡ ok (complete v c)
    → (batch_header_size ≤ length buf) × (c ≡ batch_header_size)
unfolding decode_batch_header
header_within buf v c h = ground arith

pub decode_batch_header-local :
    (c : ℕ) (buf rest : List ℕ)
    → batch_header_size ≤ c
    → c ≤ length buf
    → decode_batch_header (take c buf ++ rest) ≡ decode_batch_header buf
unfolding decode_batch_header
decode_batch_header-local c buf rest small h = rw (
  ltb_of_le (length buf) batch_header_size (omega arith),
  ltb_of_le (length (take c buf ++ rest)) batch_header_size
      (omega (arith, length-take-append c buf rest h)),
  take-local 4 c buf rest (omega arith) h,
  take-drop-local 4 4 c buf rest (omega arith) h,
  take-drop-local 8 8 c buf rest (omega arith) h,
)

pub footer_within :
    (buf : List ℕ) (v : BatchFooter) (c : ℕ)
    → decode_batch_footer buf ≡ ok (complete v c)
    → (batch_footer_size ≤ length buf) × (c ≡ batch_footer_size)
unfolding decode_batch_footer
footer_within buf v c h = ground arith

pub decode_batch_footer-local :
    (c : ℕ) (buf rest : List ℕ)
    → batch_footer_size ≤ c
    → c ≤ length buf
    → decode_batch_footer (take c buf ++ rest) ≡ decode_batch_footer buf
unfolding decode_batch_footer
decode_batch_footer-local c buf rest small h = rw (
  ltb_of_le (length buf) batch_footer_size (omega arith),
  ltb_of_le (length (take c buf ++ rest)) batch_footer_size
      (omega (arith, length-take-append c buf rest h)),
  take-local 4 c buf rest (omega arith) h,
  take-drop-local 4 4 c buf rest (omega arith) h,
)

pub decode_batch_header-IsLocal :
    (buf : List ℕ) (v : BatchHeader) (c : ℕ)
    → decode_batch_header buf ≡ ok (complete v c)
    → IsLocal decode_batch_header buf v c
decode_batch_header-IsLocal buf v c h =
    let (long, size) = header_within buf v c h in
    record {
      within = omega arith;
      same = λ rest. decode_batch_header-local c buf rest (omega arith) (omega arith) ∙ h;
    }

pub decode_batch_footer-IsLocal :
    (buf : List ℕ) (v : BatchFooter) (c : ℕ)
    → decode_batch_footer buf ≡ ok (complete v c)
    → IsLocal decode_batch_footer buf v c
decode_batch_footer-IsLocal buf v c h =
    let (long, size) = footer_within buf v c h in
    record {
      within = omega arith;
      same = λ rest. decode_batch_footer-local c buf rest (omega arith) (omega arith) ∙ h;
    }

module _ ⦃crc : Crc32⦄ ⦃uuid : UuidCrate⦄ where
  decode_fields-total :
      (protected : List ℕ) (total : ℕ) (v : RecordedEvent) (c : ℕ)
      → decode_fields protected total ≡ ok (complete v c)
      → c ≡ total
  unfolding decode_fields
  decode_fields-total protected total v c h = ground arith

  decode_body-total :
      (body : List ℕ) (total : ℕ) (v : RecordedEvent) (c : ℕ)
      → decode_body body total ≡ ok (complete v c)
      → c ≡ total
  unfolding decode_body
  decode_body-total body total v c h = grind (arith, decode_fields-total)

  record_within :
      (buf : List ℕ) (v : RecordedEvent) (c : ℕ)
      → decode_record buf ≡ ok (complete v c)
      → (4 ≤ length buf) × (c ≡ 4 + from_le_bytes (take 4 buf)) × (c ≤ length buf)
  unfolding decode_record
  record_within buf v c h =
      let n = from_le_bytes (take 4 buf) in
      ground (arith, decode_body-total (take n (drop 4 buf)) (4 + n) v c)

  pub decode_record-local :
      (c : ℕ) (buf rest : List ℕ)
      → 4 + from_le_bytes (take 4 buf) ≤ c
      → c ≤ length buf
      → decode_record (take c buf ++ rest) ≡ decode_record buf
  unfolding decode_record
  decode_record-local c buf rest fits h = rw (
    ltb_of_le (length buf) 4 (omega arith),
    ltb_of_le (length (take c buf ++ rest)) 4 (omega (arith, length-take-append c buf rest h)),
    take-local 4 c buf rest (omega arith) h,
    ltb_of_le (length buf) (4 + from_le_bytes (take 4 buf)) (omega arith),
    ltb_of_le (length (take c buf ++ rest)) (4 + from_le_bytes (take 4 buf))
        (omega (arith, length-take-append c buf rest h)),
    take-drop-local 4 (from_le_bytes (take 4 buf)) c buf rest (omega arith) h,
  )

  pub decode_record-IsLocal :
      (buf : List ℕ) (v : RecordedEvent) (c : ℕ)
      → decode_record buf ≡ ok (complete v c)
      → IsLocal decode_record buf v c
  decode_record-IsLocal buf v c h =
      let (long, size, fits) = record_within buf v c h in
      record { within = fits; same = λ rest. decode_record-local c buf rest (omega arith) fits ∙ h }

  on_outcome-records :
      (o : Result (DecodeOutcome RecordedEvent)) (f : RecordedEvent → ℕ → Records)
      {events : List RecordedEvent} {c : ℕ}
      → on_outcome o f cut cut broken ≡ records events c
      → (v : RecordedEvent) × (k : ℕ) × (o ≡ ok (complete v k)) × (f v k ≡ records events c)
  on_outcome-records (ok (complete v k)) f h = (v, k, refl, h)
  on_outcome-records (ok incomplete) f h = cc
  on_outcome-records (err (corrupt_record p d)) f h = cc
  on_outcome-records (err _) f h = cc

  cons_record-records :
      (v : RecordedEvent) (k : ℕ) (r : Records) {events : List RecordedEvent} {c : ℕ}
      → cons_record v k r ≡ records events c
      → (later : List RecordedEvent) × (m : ℕ) × (r ≡ records later m)
        × (events ≡ v ∷ later)
        × (c ≡ k + m)
  cons_record-records v k (records later m) h = (later, m, refl, cc, ground arith)
  cons_record-records v k cut h = cc
  cons_record-records v k (broken e) h = cc

  -- A run of records reads only the bytes that it reports.
  pub read_records-local :
      (n : ℕ) (buf : List ℕ) (events : List RecordedEvent) (c : ℕ)
      → read_records n buf ≡ records events c
      → (c ≤ length buf)
        × ((d : ℕ) (rest : List ℕ)
            → c ≤ d
            → d ≤ length buf
            → read_records n (take d buf ++ rest) ≡ records events c)
  unfolding read_records
  read_records-local zero buf events c h = (ground arith, λ d rest le fits. h)
  read_records-local (suc n) buf events c h =
      let (v, k, decoded, more) = on_outcome-records (decode_record buf) _ h in
      let (later, m, read, all, size) = cons_record-records v k _ more in
      let (_, prefix, within) = record_within buf v k decoded in
      let (fits, again) = read_records-local n (drop k buf) later m read in
      (
        omega (arith, length-drop k buf),
        λ d rest le l.
            rw
              (
                decode_record-local d buf rest (omega arith) l,
                decoded,
                drop-local k d buf rest (omega arith) l,
                again (d - k) rest (omega arith) (omega (arith, length-drop k buf)),
              )
              (cc),
      )
