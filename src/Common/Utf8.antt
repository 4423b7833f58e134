-- ===== src/Common/Utf8.antt =====
-- Which byte strings are UTF-8: the table of well-formed sequences that `std::str::from_utf8`
-- accepts. A Rust `String` is modelled by its bytes.
use Prim.Native.Nat.{ℕ}
use mathlib.Core.Bool.{Bool, true, false, ◌&&◌}
use mathlib.Core.List.{[], List, ◌∷◌}
use mathlib.Core.Option.{Option, none, some}
use eventfold_db.Common.Tests.{leb, if◌then◌else◌}

abbrev between : ℕ → ℕ → ℕ → Bool
between lo hi b = leb lo b && leb b hi

-- The ranges that the bytes after a first byte must lie in; `none` is no first byte.
utf8_tail : ℕ → Option (List (ℕ × ℕ))
utf8_tail b =
    if between 0 0x7f b
    then some []
    else if between 0xc2 0xdf b
    then some ((0x80, 0xbf) ∷ [])
    else if between 0xe0 0xe0 b
    then some ((0xa0, 0xbf) ∷ (0x80, 0xbf) ∷ [])
    else if between 0xed 0xed b
    then some ((0x80, 0x9f) ∷ (0x80, 0xbf) ∷ [])
    else if between 0xe1 0xef b
    then some ((0x80, 0xbf) ∷ (0x80, 0xbf) ∷ [])
    else if between 0xf0 0xf0 b
    then some ((0x90, 0xbf) ∷ (0x80, 0xbf) ∷ (0x80, 0xbf) ∷ [])
    else if between 0xf1 0xf3 b
    then some ((0x80, 0xbf) ∷ (0x80, 0xbf) ∷ (0x80, 0xbf) ∷ [])
    else if between 0xf4 0xf4 b
    then some ((0x80, 0x8f) ∷ (0x80, 0xbf) ∷ (0x80, 0xbf) ∷ [])
    else none

-- The first argument is what is still due of the sequence that has begun.
utf8_run : List (ℕ × ℕ) → List ℕ → Bool
utf8_run [] [] = true
utf8_run ((lo, hi) ∷ due) [] = false
utf8_run [] (b ∷ bs) = elim (utf8_tail b) [ none ↦ false | some due ↦ utf8_run due bs ]
utf8_run ((lo, hi) ∷ due) (b ∷ bs) = between lo hi b && utf8_run due bs

unfoldable pub is_utf8 : List ℕ → Bool
unfolding utf8_run utf8_tail
is_utf8 bs = utf8_run [] bs
