-- ===== src/Store/Durable.antt =====
-- src/store.rs: what is on disk is what is in memory. A store is durable if recovery reads its
-- index from its file.
use eventfold_db.Common.{
  [], ℕ, suc, ◌-◌, ◌≤◌, ◌≡◌, ◌∙◌, refl, sym, List, Option, none, some, arith, length, take, drop,
  ltb_of_le, length-take, take-take, drop-take, length-drop, drop-append, append-nil,
  take_of_length-le,
}
use eventfold_db.Crates.{Crc32, UuidCrate}
use eventfold_db.Error.{Result, ok, err, attempt}
use eventfold_db.Codec.{encode_header, format_version}
use eventfold_db.Codec.Envelope.{decode_header-encode_header, length-encode_header}
use eventfold_db.EventLog.{EventLog, empty}
use eventfold_db.Store.Recovery.{Exit, clean, truncated, refused}
use eventfold_db.Store.Recovery.Loop.{EndsIn, EndsIn-empty, scan_total}
use eventfold_db.Store.Recovery.Extend.{EndsIn-truncated}
use eventfold_db.Store.{
  header_size, Store, OpenIo, no_faults, truncate_and_return, finish, check_header, create, recover,
  open_existing, open_store,
}

-- The header check reads the first eight bytes alone.
pub check_header-same :
    (file file' : List ℕ)
    → header_size ≤ length file
    → header_size ≤ length file'
    → take header_size file' ≡ take header_size file
    → check_header file' ≡ check_header file
unfolding check_header
check_header-same file file' h h' same =
    rw (ltb_of_le (length file) header_size h, ltb_of_le (length file') header_size h', same)

pub check_header-long :
    (file : List ℕ) (version : ℕ) → check_header file ≡ ok version → header_size ≤ length file
unfolding check_header
check_header-long file version h = ground arith

module _ ⦃crc : Crc32⦄ ⦃uuid : UuidCrate⦄ where
  pub record IsDurable (s : Store) : Type 0 where
    pub version : ℕ
    pub header : check_header s.file ≡ ok version
    pub loop : EndsIn (drop header_size s.file) header_size empty (clean s.log)

  -- A durable store is what `open` returns for its file.
  pub IsDurable-open_store :
      (s : Store) → IsDurable s → open_store no_faults (some s.file) ≡ some (ok s)
  unfolding open_store open_existing recover finish
  IsDurable-open_store s d =
      rw (d.header, d.loop (suc (length s.file)) (omega (arith, length-drop header_size s.file)))

  new-IsDurable : IsDurable (record { file = encode_header; log = empty })
  unfolding check_header
  new-IsDurable = record {
    version = format_version;
    header =
        rw
          (
            ltb_of_le (length encode_header) header_size (omega (arith, length-encode_header)),
            take_of_length-le header_size encode_header (omega (arith, length-encode_header)),
          )
          decode_header-encode_header;
    loop =
        let nothing : drop header_size encode_header ≡ [] =
          rw append-nil at (drop-append header_size encode_header [] length-encode_header) in
        rw nothing (EndsIn-empty header_size empty);
  }

  create-new :
      (os : OpenIo) (s : Store)
      → create os ≡ ok s
      → s ≡ record { file = encode_header; log = empty }
  unfolding create
  create-new os s h = ground arith

  -- What is left of a truncated file.
  truncated-IsDurable :
      (file : List ℕ) (version at : ℕ) (log : EventLog)
      → check_header file ≡ ok version
      → EndsIn (drop header_size file) header_size empty (truncated at log)
      → IsDurable (record { file = take at file; log = log })
  truncated-IsDurable file version at log header loop =
      let long = check_header-long file version header in
      let kept =
        EndsIn-truncated (suc (length (drop header_size file))) _ header_size empty at log
          (omega arith) loop in
      let fits : at ≤ length file =
        omega (arith, kept.offset_eq, kept.within, length-drop header_size file) in
      let size : at - header_size ≡ kept.size = omega (arith, kept.offset_eq) in
      record {
        version = version;
        header =
            check_header-same file (take at file) long
              (omega (arith, length-take at file fits, kept.offset_eq))
              (take-take header_size at file (omega (arith, kept.offset_eq)))
            ∙ header;
        loop =
            rw (drop-take header_size at file (omega (arith, kept.offset_eq)) fits, size)
              kept.reopened;
      }

  finish-clean :
      (os : OpenIo) (file : List ℕ) (log : EventLog) (s : Store)
      → finish os file (some (clean log)) ≡ some (ok s)
      → s ≡ record { file = file; log = log }
  unfolding finish
  finish-clean os file log s h = ground arith

  finish-truncated :
      (os : OpenIo) (file : List ℕ) (at : ℕ) (log : EventLog) (s : Store)
      → finish os file (some (truncated at log)) ≡ some (ok s)
      → s ≡ record { file = take at file; log = log }
  unfolding finish truncate_and_return
  finish-truncated os file at log s h = ground arith

  finish-IsDurable :
      (os : OpenIo) (file : List ℕ) (version : ℕ) (exit : Exit) (s : Store)
      → check_header file ≡ ok version
      → EndsIn (drop header_size file) header_size empty exit
      → finish os file (some exit) ≡ some (ok s)
      → IsDurable s
  unfolding finish
  finish-IsDurable os file version (clean log) s header loop h =
      rw (finish-clean os file log s h) (record { version = version; header = header; loop = loop })
  finish-IsDurable os file version (truncated at log) s header loop h =
      rw (finish-truncated os file at log s h) (truncated-IsDurable file version at log header loop)
  finish-IsDurable os file version (refused e) s header loop h = cc

  finish_total :
      (os : OpenIo) (file : List ℕ) (exit : Exit)
      → (r : Result Store) × (finish os file (some exit) ≡ some r)
  unfolding finish
  finish_total os file (clean log) = (_, refl)
  finish_total os file (truncated at log) = (_, refl)
  finish_total os file (refused e) = (_, refl)

  -- The end of the loop on a file.
  recovered :
      (file : List ℕ)
      → (exit : Exit) × EndsIn (drop header_size file) header_size empty exit
        × ((os : OpenIo) → recover os file ≡ finish os file (some exit))
  unfolding recover
  recovered file =
      let (exit, loop) =
        scan_total (suc (length file)) (drop header_size file) header_size empty
          (omega (arith, length-drop header_size file)) in
      (
        exit,
        loop,
        λ os. rw (loop (suc (length file)) (omega (arith, length-drop header_size file))),
      )

  open_existing_total :
      (os : OpenIo) (file : List ℕ) (read : Result (Unit {0})) (header : Result ℕ)
      → (r : Result Store) × (open_existing os file read header ≡ some r)
  unfolding open_existing
  open_existing_total os file (err e) header = (err e, refl)
  open_existing_total os file (ok u) (err e) = (err e, refl)
  open_existing_total os file (ok u) (ok version) =
      let (exit, loop, same) = recovered file in
      let (r, finished) = finish_total os file exit in (r, same os ∙ finished)

  -- Opening a file ends, whatever the file holds and whatever the calls answer.
  pub open_store_total :
      (os : OpenIo) (path : Option (List ℕ)) → (r : Result Store) × (open_store os path ≡ some r)
  unfolding open_store
  open_store_total os none = (create os, refl)
  open_store_total os (some file) =
      open_existing_total os file (attempt os.read) (check_header file)

  open_existing-IsDurable :
      (os : OpenIo) (file : List ℕ) (read : Result (Unit {0})) (header : Result ℕ) (s : Store)
      → check_header file ≡ header
      → open_existing os file read header ≡ some (ok s)
      → IsDurable s
  unfolding open_existing
  open_existing-IsDurable os file (err e) header s same h = cc
  open_existing-IsDurable os file (ok u) (err e) s same h = cc
  open_existing-IsDurable os file (ok u) (ok version) s same h =
      let (exit, loop, ends) = recovered file in
      finish-IsDurable os file version exit s same loop (sym (ends os) ∙ h)

  -- Every store that `open` returns is durable.
  pub open_store-IsDurable :
      (os : OpenIo) (path : Option (List ℕ)) (s : Store)
      → open_store os path ≡ some (ok s)
      → IsDurable s
  unfolding open_store
  open_store-IsDurable os none s h = rw (create-new os s (cc)) new-IsDurable
  open_store-IsDurable os (some file) s h =
      open_existing-IsDurable os file (attempt os.read) (check_header file) s refl h

  -- A store that `open` has returned, from whatever file, is what opening its file again returns.
  pub reopen :
      (os : OpenIo) (path : Option (List ℕ)) (s : Store)
      → open_store os path ≡ some (ok s)
      → open_store no_faults (some s.file) ≡ some (ok s)
  reopen os path s h = IsDurable-open_store s (open_store-IsDurable os path s h)
