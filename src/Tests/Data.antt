-- ===== src/Tests/Data.antt =====
-- Stand-ins for the two crates, and the events that the runs use. The checksum is the sum of the
-- bytes; an identifier is written in sixteen bytes, and its text is those bytes.
use eventfold_db.Common.{
  [], ℕ, ◌+◌, ◌%◌, ◌^◌, ◌<◌, ◌≡◌, refl, ap, List, ◌∷◌, ◌++◌, Option, some, All, IsByte, arith,
  length, take, to_le_bytes, from_le_bytes, length-to_le_bytes, from_le_bytes-to_le_bytes,
  from_le_bytes-lt, is_utf8,
}
use eventfold_db.Crates.{Crc32, UuidCrate, Uuid}
use eventfold_db.Dedup.{Entries, find, without, promote, LruCrate}
use eventfold_db.Types.{ProposedEvent, RecordedEvent, IsTyped, IsTypedProposal}

abbrev pub sum : List ℕ → ℕ
sum [] = 0
sum (b ∷ bs) = b + sum bs

abbrev pub checksum : List ℕ → ℕ
checksum bs = sum bs % 256 ^ 4

pub checksum-lt : (bs : List ℕ) → checksum bs < 256 ^ 4
checksum-lt bs = omega arith

instance abbrev pub sum_crc : Crc32
sum_crc = record {
  Hasher = List ℕ;
  new = [];
  update = λ h bs. h ++ bs;
  finalize = checksum;
  hash = checksum;
  hash-lt = checksum-lt;
  finalize-update = λ xs ys. refl;
}

pub bytes_round_trip : (u : Uuid) → u < 2 ^ 128 → from_le_bytes (to_le_bytes 16 u) ≡ u
bytes_round_trip u h = from_le_bytes-to_le_bytes 16 u h

pub from_bytes_bound : (bs : List ℕ) → length bs ≡ 16 → All IsByte bs → from_le_bytes bs < 2 ^ 128
from_bytes_bound bs h all = rw h at (from_le_bytes-lt bs all)

pub text_round_trip : (u : Uuid) → u < 2 ^ 128 → some (from_le_bytes (to_le_bytes 16 u)) ≡ some u
text_round_trip u h = ap {B = Option ℕ} some (bytes_round_trip u h)

instance abbrev pub plain_uuid : UuidCrate
plain_uuid = record {
  as_bytes = to_le_bytes 16;
  from_bytes = from_le_bytes;
  to_string = to_le_bytes 16;
  parse = λ bs. some (from_le_bytes bs);
  length-as_bytes = length-to_le_bytes 16;
  from_bytes-as_bytes = bytes_round_trip;
  from_bytes-lt = from_bytes_bound;
  parse-to_string = text_round_trip;
}

-- "Paid", with metadata and a payload.
abbrev pub paid : RecordedEvent
paid = record {
  event_id = 7;
  stream_id = 42;
  stream_version = 0;
  global_position = 0;
  recorded_at = 1000;
  event_type = 80 ∷ 97 ∷ 105 ∷ 100 ∷ [];
  metadata = 1 ∷ 2 ∷ [];
  payload = 123 ∷ 125 ∷ [];
}

pub paid-IsTyped : IsTyped paid
unfolding is_utf8
paid-IsTyped = record {
  event_id = omega arith;
  stream_id = omega arith;
  stream_version = omega arith;
  global_position = omega arith;
  recorded_at = omega arith;
  event_type = refl;
}

abbrev pub pay : ProposedEvent
pay = record {
  event_id = 7;
  event_type = paid.event_type;
  metadata = paid.metadata;
  payload = paid.payload;
}

abbrev pub refund : ProposedEvent
refund = record pay { event_id = 8 }

pub pay-IsTypedProposal : IsTypedProposal pay
unfolding is_utf8
pay-IsTypedProposal = record { event_id = omega arith; event_type = refl }

pub refund-IsTypedProposal : IsTypedProposal refund
unfolding is_utf8
refund-IsTypedProposal = record { event_id = omega arith; event_type = refl }

-- The second event of the stream.
abbrev pub repaid : RecordedEvent
repaid = record paid { event_id = 8; stream_version = 1; global_position = 1 }

-- The cache as its list of entries.
instance abbrev pub list_lru : LruCrate
list_lru = record {
  Cache = ℕ × Entries;
  new = λ n. (n, []);
  get = λ id (n, es). (find id es, (n, promote id (find id es) es));
  put = λ id b (n, es). (n, take n ((id, b) ∷ without id es));
  entries = λ (n, es). es;
  capacity = λ (n, es). n;
  capacity-new = λ n. refl;
  entries-new = λ n. refl;
  get-found = λ id c. refl;
  entries-get = λ id c. refl;
  capacity-get = λ id c. refl;
  entries-put = λ id b c. refl;
  capacity-put = λ id b c. refl;
}
