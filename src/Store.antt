-- ===== src/Store.antt =====
-- src/store.rs: the storage engine. The log file is the list of its bytes. What the operating
-- system answers to each call is an argument, `OpenIo` or `AppendIo`.
pub mod Recovery
pub mod Written
pub mod Numbered
pub mod Durable
pub mod Crash
pub mod Recorded
pub mod Keys
pub mod Invariant
pub mod Reads
use eventfold_db.Common.{
  [], ℕ, suc, ◌+◌, ◌-◌, ◌%◌, ◌^◌, List, ◌∷◌, ◌++◌, Option, none, some, length, take, drop, ltb,
  ◌==◌, if◌then◌else◌,
}
use eventfold_db.Crates.{Crc32, UuidCrate, Uuid}
use eventfold_db.Error.{
  ◌>>=◌, ◌>>◌, Result, ok, err, attempt, no_stream, number, wrong_expected_version, io,
  invalid_header, file_too_short, event_too_large, invalid_argument, empty_event_type,
  event_type_too_long,
}
use eventfold_db.Types.{
  ExpectedVersion, ProposedEvent, RecordedEvent, max_event_size, max_event_type_len,
}
use eventfold_db.Codec.{
  encode_header, decode_header, encode_record, encode_batch_header, encode_batch_footer,
}
use eventfold_db.EventLog.{get, EventLog, empty, index_batch}
use Recovery.{Exit, clean, truncated, refused, scan}

abbrev pub header_size : ℕ
header_size = 8

-- The bytes of the file behind the handle, and the index behind the lock.
pub record Store : Type 0 where
  pub file : List ℕ
  pub log : EventLog

-- The answers to the calls that `open` makes, in order: five to create a file, one to read it,
-- three to open it again and to truncate it.
pub record OpenIo : Type 0 where
  pub create : Option ℕ
  pub write_header : Option ℕ
  pub sync_header : Option ℕ
  pub open_parent : Option ℕ
  pub sync_parent : Option ℕ
  pub read : Option ℕ
  pub reopen : Option ℕ
  pub set_len : Option ℕ
  pub sync_len : Option ℕ

abbrev pub no_faults : OpenIo
no_faults = record {
  create = none;
  write_header = none;
  sync_header = none;
  open_parent = none;
  sync_parent = none;
  read = none;
  reopen = none;
  set_len = none;
  sync_len = none;
}

unfoldable pub truncate_and_return : OpenIo → List ℕ → ℕ → EventLog → Result Store
truncate_and_return os file truncate_to log = do
  attempt os.reopen
  attempt os.set_len
  attempt os.sync_len
  ok (record { file = take truncate_to file; log = log })

-- What `open` does when the recovery loop has ended; `none` stands for a loop that has not.
unfoldable pub finish : OpenIo → List ℕ → Option Exit → Option (Result Store)
finish os file none = none
finish os file (some (clean log)) =
    some (do attempt os.reopen; ok (record { file = file; log = log }))
finish os file (some (truncated at log)) = some (truncate_and_return os file at log)
finish os file (some (refused e)) = some (err e)

-- The checks of the file header, before the loop.
unfoldable pub check_header : List ℕ → Result ℕ
check_header file =
    if ltb (length file) header_size
    then err (invalid_header (file_too_short (length file)))
    else decode_header (take header_size file)

-- A new file: `none` is a path where nothing exists.
unfoldable pub create : OpenIo → Result Store
create os = do
  attempt os.create
  attempt os.write_header
  attempt os.sync_header
  attempt os.open_parent
  attempt os.sync_parent
  ok (record { file = encode_header; log = empty })

module _ ⦃crc : Crc32⦄ ⦃uuid : UuidCrate⦄ where
  -- One unit of fuel for each byte, and one more.
  unfoldable pub recover : OpenIo → List ℕ → Option (Result Store)
  recover os file =
      finish os file (scan (suc (length file)) (drop header_size file) header_size empty)

  unfoldable pub open_existing :
      OpenIo → List ℕ → Result (Unit {0}) → Result ℕ → Option (Result Store)
  open_existing os file (err e) header = some (err e)
  open_existing os file (ok _) (err e) = some (err e)
  open_existing os file (ok _) (ok version) = recover os file

  unfoldable pub open_store : OpenIo → Option (List ℕ) → Option (Result Store)
  open_store os none = some (create os)
  open_store os (some file) = open_existing os file (attempt os.read) (check_header file)

-- `len as u64 - 1`; the release profile wraps.
abbrev pub last_index : ℕ → ℕ
last_index len = (len + 2 ^ 64 - 1) % 2 ^ 64

-- Step 1 of `append`: the optimistic concurrency check.
unfoldable pub check_version : ExpectedVersion → Option (List ℕ) → Result (Unit {0})
check_version ExpectedVersion.any positions = ok tt
check_version ExpectedVersion.no_stream none = ok tt
check_version ExpectedVersion.no_stream (some positions) =
    err (wrong_expected_version no_stream (number (last_index (length positions))))
check_version (ExpectedVersion.exact n) none = err (wrong_expected_version (number n) no_stream)
check_version (ExpectedVersion.exact n) (some positions) =
    if last_index (length positions) == n
    then ok tt
    else err (wrong_expected_version (number n) (number (last_index (length positions))))

abbrev pub next_version : Option (List ℕ) → ℕ
next_version none = 0
next_version (some positions) = length positions

-- The event that a proposal becomes.
abbrev pub to_recorded : Uuid → ℕ → ℕ → ℕ → ProposedEvent → RecordedEvent
to_recorded stream_id recorded_at position version p = record {
  event_id = p.event_id;
  stream_id = stream_id;
  stream_version = version;
  global_position = position;
  recorded_at = recorded_at;
  event_type = p.event_type;
  metadata = p.metadata;
  payload = p.payload;
}

-- What the file system answers to the three calls of `append`. A write that fails has written
-- some of the bytes.
pub data AppendIo : Type 0 where
  done : AppendIo
  seek_failed : ℕ → AppendIo
  write_failed : ℕ → ℕ → AppendIo
  sync_failed : ℕ → AppendIo

module _ ⦃crc : Crc32⦄ ⦃uuid : UuidCrate⦄ where
  unfoldable pub check_event : ProposedEvent → RecordedEvent → Result RecordedEvent
  check_event p e =
      if length p.event_type == 0
      then err (invalid_argument empty_event_type)
      else if ltb max_event_type_len (length p.event_type)
      then err (invalid_argument (event_type_too_long max_event_type_len (length p.event_type)))
      else if ltb max_event_size (length (encode_record e))
      then err (event_too_large (length (encode_record e)) max_event_size)
      else ok e

  -- Step 2, the loop: the recorded events, their positions and versions counted up.
  unfoldable pub build : Uuid → ℕ → ℕ → ℕ → List ProposedEvent → Result (List RecordedEvent)
  build stream_id recorded_at position version [] = ok []
  build stream_id recorded_at position version (p ∷ ps) = do
    e ← check_event p (to_recorded stream_id recorded_at position version p)
    es ← build stream_id recorded_at (position + 1) (version + 1) ps
    ok (e ∷ es)

  unfoldable pub encode_records : List RecordedEvent → List ℕ
  encode_records [] = []
  encode_records (e ∷ es) = encode_record e ++ encode_records es

  -- Step 3: header, records and footer, the checksum over the first two.
  unfoldable pub encode_batch : List RecordedEvent → ℕ → List ℕ
  encode_batch recorded first_global_pos =
      let header = encode_batch_header (length recorded % 2 ^ 32) first_global_pos in
      let records = encode_records recorded in
      let batch_crc = crc.finalize (crc.update (crc.update crc.new header) records) in
      header ++ (records ++ encode_batch_footer batch_crc)

-- Steps 4 and 5, by what the file system answers.
unfoldable pub write_batch :
    AppendIo → Store → Uuid → List RecordedEvent → List ℕ → Result (List RecordedEvent) × Store
write_batch done s stream_id recorded bytes =
    (ok recorded, record { file = s.file ++ bytes; log = index_batch s.log stream_id recorded })
write_batch (seek_failed code) s stream_id recorded bytes = (err (io code), s)
write_batch (write_failed code n) s stream_id recorded bytes =
    (err (io code), record s { file = s.file ++ take n bytes })
write_batch (sync_failed code) s stream_id recorded bytes =
    (err (io code), record s { file = s.file ++ bytes })

module _ ⦃crc : Crc32⦄ ⦃uuid : UuidCrate⦄ where
  -- Steps 1 and 2: what would be recorded, or the error.
  unfoldable pub validate :
      Store → Uuid → ExpectedVersion → ℕ → List ProposedEvent → Result (List RecordedEvent)
  validate s stream_id expected recorded_at proposed =
      let positions = get stream_id s.log.streams in
      do
        check_version expected positions
        build stream_id recorded_at (length s.log.events) (next_version positions) proposed

  append_validated :
      AppendIo → Store → Uuid → Result (List RecordedEvent) → Result (List RecordedEvent) × Store
  append_validated os s stream_id (err e) = (err e, s)
  append_validated os s stream_id (ok recorded) =
      write_batch os s stream_id recorded (encode_batch recorded (length s.log.events))

  unfoldable pub append :
      AppendIo
      → Store
      → Uuid
      → ExpectedVersion
      → ℕ
      → List ProposedEvent
      → Result (List RecordedEvent) × Store
  unfolding append_validated
  append os s stream_id expected recorded_at proposed =
      append_validated os s stream_id (validate s stream_id expected recorded_at proposed)
