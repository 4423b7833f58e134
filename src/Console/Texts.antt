-- ===== src/Console/Texts.antt =====
-- eventfold-console/src/views/mod.rs: the bytes of an event as a text. A text is the list of its
-- characters' code points; a `String` of the state is its bytes.
use Prim.Native.Char.{code}
use Prim.Native.String.{String}
use eventfold_db.Common.{
  [], ℕ, zero, suc, ◌+◌, ◌-◌, ◌*◌, ◌/◌, ◌%◌, Bool, true, false, List, ◌∷◌, ◌++◌, map, Option, none,
  some, length, take, ltb, if◌then◌else◌, is_utf8,
}

abbrev pub codes : String → List ℕ
codes String.[] = []
codes (String.◌∷◌ c s) = code c ∷ codes s

-- What a first byte holds of the code point, and how many bytes follow.
abbrev pub lead : ℕ → ℕ × ℕ
lead b =
    if ltb b 0x80
    then (0, 0)
    else if ltb b 0xe0
    then (b % 0x20, 1)
    else if ltb b 0xf0
    then (b % 0x10, 2)
    else (b % 0x08, 3)

-- `str::chars`, on UTF-8: the code point so far, and the number of bytes that it still needs.
unfoldable pub chars_from : ℕ → ℕ → List ℕ → List ℕ
chars_from value due [] = []
chars_from value zero (b ∷ bs) =
    let (start, needs) = lead b in
    let rest = chars_from start needs bs in if ltb b 0x80 then b ∷ rest else rest
chars_from value (suc zero) (b ∷ bs) = (value * 0x40 + b % 0x40) ∷ chars_from 0 0 bs
chars_from value (suc (suc due)) (b ∷ bs) = chars_from (value * 0x40 + b % 0x40) (suc due) bs

abbrev pub chars : List ℕ → List ℕ
chars = chars_from 0 0

-- The decimal digits of a number below 10 ^ 20, from the last one on.
unfoldable pub digits : ℕ → ℕ → List ℕ → List ℕ
digits zero n text = text
digits (suc fuel) n text =
    let rest = digits fuel (n / 10) ((b'0' + n % 10) ∷ text) in
    if ltb n 10 then (b'0' + n) ∷ text else rest

-- `u64::to_string`, of at most twenty digits.
abbrev pub to_string : ℕ → List ℕ
to_string n = digits 20 n []

-- serde_json
pub record JsonCrate : Type 1 where
  pub Value : Type 0
  pub from_slice : List ℕ → Option Value
  pub to_string_pretty : Value → List ℕ

abbrev pub hex_digit : ℕ → ℕ
hex_digit n = if ltb n 10 then b'0' + n else b'a' + (n - 10)

-- `{b:02x}`
abbrev pub hex_byte : ℕ → List ℕ
hex_byte b = hex_digit (b / 16) ∷ hex_digit (b % 16) ∷ []

-- `join`, of a blank.
unfoldable pub join : List (List ℕ) → List ℕ
join [] = []
join (x ∷ []) = x
join (x ∷ y ∷ xs) = x ++ b' ' ∷ join (y ∷ xs)

-- The first 128 bytes.
unfoldable pub hex_dump : List ℕ → List ℕ
hex_dump bytes =
    let hex = join (map hex_byte (take 128 bytes)) in
    if ltb 128 (length bytes) then hex ++ codes " ..." else hex

abbrev pub plain_text : List ℕ → List ℕ
plain_text bytes = if is_utf8 bytes then chars bytes else hex_dump bytes

module _ ⦃json : JsonCrate⦄ where
  abbrev pub pretty_or : List ℕ → Option json.Value → List ℕ
  pretty_or bytes none = plain_text bytes
  pretty_or bytes (some value) = json.to_string_pretty value

  unfoldable pub format_bytes : List ℕ → Bool → List ℕ
  format_bytes bytes false = plain_text bytes
  format_bytes bytes true = pretty_or bytes (json.from_slice bytes)
