-- ===== src/Server/Config/Numbers.antt =====
-- src/main.rs: which texts are read as a `usize`, and as which number.
use eventfold_db.Common.{
  [], ℕ, ◌+◌, ◌-◌, ◌*◌, ◌≤◌, ◌≡◌, ◌↔◌, ap, true, false, List, ◌∷◌, ◌⊎◌, All, arith, ltb, ◌==◌,
  Bool-cases, inl, inr, le_of_ltb, ltb_of_le, eq_of_==, ne_of_==,
}
use eventfold_db.Reader.{max_u64}
use eventfold_db.Server.Config.{ready, is_digit, parse_digits, parse_usize}

-- The number that digits denote, read on from `n`.
pub value : ℕ → List ℕ → ℕ
value n [] = n
value n (b ∷ bs) = value (n * 10 + (b - b'0')) bs

value-ge : (n : ℕ) (bs : List ℕ) → n ≤ value n bs
unfolding value
value-ge n [] = omega arith
value-ge n (b ∷ bs) = omega (arith, value-ge (n * 10 + (b - b'0')) bs)

-- The digits of a number that a `usize` holds.
abbrev pub IsNumeral : ℕ → List ℕ → ℕ → Type 0
IsNumeral n bs m = All (λ b. is_digit b ≡ true) bs × (value n bs ≡ m) × (m ≤ max_u64)

digits-IsNumeral :
    (n : ℕ) (bs : List ℕ) (m : ℕ) → n ≤ max_u64 → parse_digits n bs ≡ ready m → IsNumeral n bs m
unfolding parse_digits value
digits-IsNumeral n [] m fits h = let same : n ≡ m = cc in (tt, same, omega arith)
digits-IsNumeral n (b ∷ bs) m fits h = elim (Bool-cases (is_digit b)) [
  | inr bad ↦ cc (rw bad at h)
  | inl good ↦ elim (Bool-cases (ltb max_u64 (n * 10 + (b - b'0')))) [
    | inl over ↦ cc (rw (good, over) at h)
    | inr within ↦
        let (all, same, small) =
          digits-IsNumeral (n * 10 + (b - b'0')) bs m (le_of_ltb _ _ within)
            (rw (good, within) at h) in
        ((good, all), same, small)
  ]
]

IsNumeral-digits : (n : ℕ) (bs : List ℕ) (m : ℕ) → IsNumeral n bs m → parse_digits n bs ≡ ready m
unfolding parse_digits value
IsNumeral-digits n [] m (all, same, small) = ap ready same
IsNumeral-digits n (b ∷ bs) m ((good, all), same, small) =
    let next = n * 10 + (b - b'0') in
    let within : ltb max_u64 next ≡ false =
      ltb_of_le max_u64 next (omega (arith, value-ge next bs)) in
    rw (good, within) (IsNumeral-digits next bs m (all, same, small))

-- A number in decimal digits, at least one, perhaps with a plus sign before them.
abbrev pub Denotes : List ℕ → ℕ → Type 0
Denotes [] m = ⊥
Denotes (b ∷ []) m = IsNumeral 0 (b ∷ []) m
Denotes (b ∷ c ∷ bs) m = ((b ≡ b'+') × IsNumeral 0 (c ∷ bs) m) ⊎ IsNumeral 0 (b ∷ c ∷ bs) m

plus_no_digit : (b : ℕ) → b ≡ b'+' → is_digit b ≡ true → ⊥
plus_no_digit b plus digit = ground arith

-- A text is read as a `usize` exactly if it denotes one.
pub parse_usize-Denotes : (text : List ℕ) (m : ℕ) → (parse_usize text ≡ ready m) ↔ Denotes text m
unfolding parse_usize
parse_usize-Denotes [] m = (λ h. cc, λ h. absurd h)
parse_usize-Denotes (b ∷ []) m =
    (λ h. digits-IsNumeral 0 (b ∷ []) m (omega arith) h, λ d. IsNumeral-digits 0 (b ∷ []) m d)
parse_usize-Denotes (b ∷ c ∷ bs) m = elim (Bool-cases (b == b'+')) [
  | inl plus ↦ rw plus (
    λ h. inl (eq_of_== b b'+' plus, digits-IsNumeral 0 (c ∷ bs) m (omega arith) h),
    λ d. elim d [
      | inl (same, numeral) ↦ IsNumeral-digits 0 (c ∷ bs) m numeral
      | inr numeral ↦ absurd (plus_no_digit b (eq_of_== b b'+' plus) numeral.0.0)
    ],
  )
  | inr other ↦ rw other (
    λ h. inr (digits-IsNumeral 0 (b ∷ c ∷ bs) m (omega arith) h),
    λ d. elim d [
      | inl (same, numeral) ↦ absurd (ne_of_== b b'+' other same)
      | inr numeral ↦ IsNumeral-digits 0 (b ∷ c ∷ bs) m numeral
    ],
  )
]
