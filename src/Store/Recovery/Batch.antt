-- ===== src/Store/Recovery/Batch.antt =====
-- src/store.rs: a batch that recovery accepts is read from its own bytes alone.
use eventfold_db.Common.{
  ℕ, ◌+◌, ◌-◌, ◌≤◌, ◌≡◌, ◌∙◌, ◌≢◌, refl, List, ◌++◌, Bool, true, false, arith, length, take, drop,
  ◌==◌, if◌then◌else◌, drop-local, length-drop,
}
use eventfold_db.Crates.{Crc32, UuidCrate}
use eventfold_db.Error.{Result, ok, err, corrupt_record}
use eventfold_db.Types.{RecordedEvent}
use eventfold_db.Codec.{
  DecodeOutcome, complete, incomplete, BatchHeader, BatchFooter, decode_batch_header,
  decode_batch_footer, batch_header_size, batch_footer_size,
}
use eventfold_db.Store.Recovery.{
  on_outcome, Records, records, cut, broken, read_records, read_footer, read_batch, Round, batch,
  torn, damaged, failed,
}
use eventfold_db.Store.Recovery.Local.{
  take-local, header_within, decode_batch_header-local, footer_within, decode_batch_footer-local,
  read_records-local,
}

on_outcome-batch :
    {A : Type 0} (o : Result (DecodeOutcome A)) (f : A → ℕ → Round) (x : Round)
    {events : List RecordedEvent} {c : ℕ}
    → x ≢ batch events c
    → on_outcome o f torn x failed ≡ batch events c
    → (v : A) × (k : ℕ) × (o ≡ ok (complete v k)) × (f v k ≡ batch events c)
on_outcome-batch (ok (complete v k)) f x other h = (v, k, refl, h)
on_outcome-batch (ok incomplete) f x other h = cc
on_outcome-batch (err (corrupt_record p d)) f x other h = absurd (other h)
on_outcome-batch (err _) f x other h = cc

accepted :
    (test : Bool) (es events : List RecordedEvent) (k c : ℕ)
    → (if test then batch es k else torn) ≡ batch events c
    → (test ≡ true) × (events ≡ es) × (c ≡ k)
accepted true es events k c h = (refl, cc, ground arith)
accepted false es events k c h = cc

module _ ⦃crc : Crc32⦄ ⦃uuid : UuidCrate⦄ where
  -- The parts of an accepted batch.
  pub record Parts (buf : List ℕ) (events : List RecordedEvent) (c : ℕ) : Type 0 where
    pub header : BatchHeader
    pub footer : BatchFooter
    pub body : ℕ
    pub header_read : decode_batch_header buf ≡ ok (complete header batch_header_size)
    pub records_read :
        read_records header.record_count (drop batch_header_size buf) ≡ records events body
    pub footer_read :
        decode_batch_footer (drop (batch_header_size + body) buf)
        ≡ ok (complete footer batch_footer_size)
    pub sealed :
        (footer.batch_crc
          == crc.hash (take (batch_header_size + body + batch_footer_size - batch_footer_size) buf))
        ≡ true
    pub size : c ≡ batch_header_size + body + batch_footer_size

  sealed-Parts :
      (buf : List ℕ) (events : List RecordedEvent) (c : ℕ) (header : BatchHeader) (r : Records)
      → decode_batch_header buf ≡ ok (complete header batch_header_size)
      → read_records header.record_count (drop batch_header_size buf) ≡ r
      → read_footer buf batch_header_size r ≡ batch events c
      → Parts buf events c
  unfolding read_footer
  sealed-Parts buf events c header cut hh hr h = cc
  sealed-Parts buf events c header (broken e) hh hr h = cc
  sealed-Parts buf events c header (records es n) hh hr h =
      let (footer, k, decoded, more) =
        on_outcome-batch (decode_batch_footer (drop (batch_header_size + n) buf)) _ torn (cc) h in
      let (_, size) = footer_within _ footer k decoded in
      let (seal, all, total) = accepted _ es events _ c more in
      record {
        header = header;
        footer = footer;
        body = n;
        header_read = hh;
        records_read = cc (hr, all);
        footer_read = rw size at decoded;
        sealed = rw size at seal;
        size = rw size at total;
      }

  read_batch-Parts :
      (buf : List ℕ) (events : List RecordedEvent) (c : ℕ)
      → read_batch buf ≡ batch events c
      → Parts buf events c
  unfolding read_batch
  read_batch-Parts buf events c h =
      let (header, k, decoded, more) =
        on_outcome-batch (decode_batch_header buf) _ damaged (cc) h in
      let (_, size) = header_within buf header k decoded in
      sealed-Parts buf events c header _ (rw size at decoded) refl (rw size at more)

  Parts-read_batch :
      (buf : List ℕ) (events : List RecordedEvent) (c : ℕ)
      → Parts buf events c
      → read_batch buf ≡ batch events c
  unfolding read_batch read_footer
  Parts-read_batch buf events c p =
      rw (p.header_read, p.records_read, p.footer_read, p.sealed, p.size)

  module _ (buf : List ℕ) (events : List RecordedEvent) (c : ℕ) (p : Parts buf events c) where
    Parts-within : c ≤ length buf
    Parts-within = omega (
      arith,
      (footer_within _ p.footer batch_footer_size p.footer_read).0,
      p.size,
      length-drop (batch_header_size + p.body) buf,
    )

    Parts-local : (rest : List ℕ) → Parts (take c buf ++ rest) events c
    Parts-local rest = record {
      header = p.header;
      footer = p.footer;
      body = p.body;
      header_read =
          decode_batch_header-local c buf rest (omega (arith, p.size)) Parts-within ∙ p.header_read;
      records_read =
          let (_, again) =
            read_records-local p.header.record_count _ events p.body p.records_read in
          rw (drop-local batch_header_size c buf rest (omega (arith, p.size)) Parts-within) (
            again (c - batch_header_size) rest (omega (arith, p.size))
              (omega (arith, Parts-within, length-drop batch_header_size buf)));
      footer_read =
          let start = batch_header_size + p.body in
          rw (drop-local start c buf rest (omega (arith, p.size)) Parts-within) (
            decode_batch_footer-local (c - start) (drop start buf) rest (omega (arith, p.size))
              (omega (arith, Parts-within, length-drop start buf))
            ∙ p.footer_read);
      sealed =
          rw
            (take-local (batch_header_size + p.body + batch_footer_size - batch_footer_size) c buf
              rest (omega (arith, p.size)) Parts-within)
            p.sealed;
      size = p.size;
    }

  -- A batch that is accepted is accepted whatever stands behind it.
  pub read_batch-local :
      (buf : List ℕ) (events : List RecordedEvent) (c : ℕ)
      → read_batch buf ≡ batch events c
      → (c ≤ length buf)
        × (batch_header_size ≤ c)
        × ((rest : List ℕ) → read_batch (take c buf ++ rest) ≡ batch events c)
  read_batch-local buf events c h =
      let p = read_batch-Parts buf events c h in
      (
        Parts-within buf events c p,
        omega (arith, p.size),
        λ rest. Parts-read_batch (take c buf ++ rest) events c (Parts-local buf events c p rest),
      )
