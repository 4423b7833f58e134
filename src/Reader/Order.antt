-- ===== src/Reader/Order.antt =====
-- src/reader.rs: the order of `list_streams`, by the texts of the identifiers.
use eventfold_db.Common.{
  ℕ, ◌^◌, ◌<◌, ◌≡◌, ◌∙◌, ◌==◌, refl, sym, true, false, inl, inr, List, [], ◌∷◌, arith, All,
  Bool-cases, some, ap, eq_of_==, if◌then◌else◌,
}
use eventfold_db.Crates.{UuidCrate, Uuid}
use eventfold_db.Types.{StreamInfo}
use eventfold_db.Reader.{str_le}

pub str_le_refl : (xs : List ℕ) → str_le xs xs ≡ true
unfolding str_le
str_le_refl [] = refl
str_le_refl (x ∷ xs) = ground (arith, str_le_refl xs)

-- The order is total.
pub str_le_total : (xs ys : List ℕ) → str_le xs ys ≡ false → str_le ys xs ≡ true
unfolding str_le
str_le_total [] ys h = cc
str_le_total (x ∷ xs) [] h = refl
str_le_total (x ∷ xs) (y ∷ ys) h = ground (arith, str_le_total xs ys)

str_le_trans : (xs ys zs : List ℕ) → str_le xs ys ≡ true → str_le ys zs ≡ true → str_le xs zs ≡ true
unfolding str_le
str_le_trans [] ys zs h k = refl
str_le_trans (x ∷ xs) [] zs h k = cc
str_le_trans (x ∷ xs) (y ∷ ys) [] h k = cc
str_le_trans (x ∷ xs) (y ∷ ys) (z ∷ zs) h k = ground (arith, str_le_trans xs ys zs)

str_le_antisymm : (xs ys : List ℕ) → str_le xs ys ≡ true → str_le ys xs ≡ true → xs ≡ ys
unfolding str_le
str_le_antisymm [] [] h k = refl
str_le_antisymm [] (y ∷ ys) h k = cc
str_le_antisymm (x ∷ xs) [] h k = cc
str_le_antisymm (x ∷ xs) (y ∷ ys) h k =
    let tails : (x ≡ y) × (str_le xs ys ≡ true) × (str_le ys xs ≡ true) = ground arith in
    let rest = str_le_antisymm xs ys tails.1 tails.2 in cc (tails.0, rest)

-- The entries for a stream.
abbrev pub items : Uuid → List StreamInfo → List StreamInfo
items id [] = []
items id (a ∷ as') = if a.stream_id == id then a ∷ items id as' else items id as'

head_item :
    (b : StreamInfo) (bs : List StreamInfo) → items b.stream_id (b ∷ bs) ≡ b ∷ items b.stream_id bs
head_item b bs = ground arith

module _ ⦃uuid : UuidCrate⦄ where
  -- Each text is at most the next.
  abbrev pub Sorted : List StreamInfo → Type 0
  Sorted [] = Unit
  Sorted (a ∷ []) = Unit
  Sorted (a ∷ b ∷ bs) =
      (str_le (uuid.to_string a.stream_id) (uuid.to_string b.stream_id) ≡ true) × Sorted (b ∷ bs)

  -- The streams of the list have 128-bit identifiers.
  abbrev pub AllTyped : List StreamInfo → Type 0
  AllTyped = All (λ a. a.stream_id < 2 ^ 128)

  to_string_injective :
      (i j : Uuid) → i < 2 ^ 128 → j < 2 ^ 128 → uuid.to_string i ≡ uuid.to_string j → i ≡ j
  to_string_injective i j hi hj h =
      let both : some i ≡ some j =
        sym (uuid.parse-to_string i hi) ∙ ap uuid.parse h ∙ uuid.parse-to_string j hj in
      cc both

  Sorted-tail : (a : StreamInfo) (bs : List StreamInfo) → Sorted (a ∷ bs) → Sorted bs
  Sorted-tail a [] h = tt
  Sorted-tail a (b ∷ bs) h = h.1

  -- The head is at most every entry.
  Sorted-below :
      (text : List ℕ) (b : StreamInfo) (bs : List StreamInfo) (id : Uuid) (x : StreamInfo)
      (xs : List StreamInfo)
      → str_le text (uuid.to_string b.stream_id) ≡ true
      → Sorted (b ∷ bs)
      → items id (b ∷ bs) ≡ x ∷ xs
      → str_le text (uuid.to_string id) ≡ true
  Sorted-below text b [] id x xs le sorted h = elim (Bool-cases (b.stream_id == id)) [
    | inl t ↦ rw (eq_of_== b.stream_id id t) at le
    | inr f ↦ cc (rw f at h)
  ]
  Sorted-below text b (c ∷ cs) id x xs le sorted h = elim (Bool-cases (b.stream_id == id)) [
    | inl t ↦ rw (eq_of_== b.stream_id id t) at le
    | inr f ↦
        Sorted-below text c cs id x xs (str_le_trans text _ _ le sorted.0) sorted.1 (rw f at h)
  ]

  items-AllTyped :
      (bs : List StreamInfo) (id : Uuid) (x : StreamInfo) (xs : List StreamInfo)
      → AllTyped bs
      → items id bs ≡ x ∷ xs
      → id < 2 ^ 128
  items-AllTyped [] id x xs typed h = cc
  items-AllTyped (b ∷ bs) id x xs typed h = elim (Bool-cases (b.stream_id == id)) [
    | inl t ↦ rw (eq_of_== b.stream_id id t) at typed.0
    | inr f ↦ items-AllTyped bs id x xs typed.1 (rw f at h)
  ]

  pub AllTyped-items :
      (bs : List StreamInfo)
      → ((id : Uuid) (x : StreamInfo) (xs : List StreamInfo) → items id bs ≡ x ∷ xs → id < 2 ^ 128)
      → AllTyped bs
  AllTyped-items [] h = tt
  AllTyped-items (b ∷ bs) h = (
    h b.stream_id b (items b.stream_id bs) (head_item b bs),
    AllTyped-items bs (λ id x xs is. elim (Bool-cases (b.stream_id == id)) [
      | inl t ↦ h id b (x ∷ xs) (rw (t, is) refl)
      | inr f ↦ h id x xs (rw (f, is) refl)
    ]),
  )

  -- The same entries without the heads.
  items-tail :
      (a b : StreamInfo) (as' bs : List StreamInfo) (id : Uuid)
      → a.stream_id ≡ b.stream_id
      → items id (a ∷ as') ≡ items id (b ∷ bs)
      → items id as' ≡ items id bs
  items-tail a b as' bs id ids h = elim (Bool-cases (a.stream_id == id)) [
    | inl t ↦
        let u : (b.stream_id == id) ≡ true = ground (arith, t, ids) in
        let both : a ∷ items id as' ≡ b ∷ items id bs = rw (t, u) at h in cc both
    | inr f ↦ let u : (b.stream_id == id) ≡ false = ground (arith, f, ids) in rw (f, u) at h
  ]

  -- Two lists in the order with the same entries for each stream are the same.
  pub Sorted-unique :
      (as' bs : List StreamInfo)
      → AllTyped bs
      → Sorted as'
      → Sorted bs
      → ((id : Uuid) → items id as' ≡ items id bs)
      → as' ≡ bs
  Sorted-unique [] [] typed sa sb h = refl
  Sorted-unique [] (b ∷ bs) typed sa sb h = cc (h b.stream_id, head_item b bs)
  Sorted-unique (a ∷ as') [] typed sa sb h = cc (h a.stream_id, head_item a as')
  Sorted-unique (a ∷ as') (b ∷ bs) typed sa sb h =
      let in_bs : items a.stream_id (b ∷ bs) ≡ a ∷ items a.stream_id as' =
        sym (h a.stream_id) ∙ head_item a as' in
      let in_as : items b.stream_id (a ∷ as') ≡ b ∷ items b.stream_id bs =
        h b.stream_id ∙ head_item b bs in
      let texts =
        str_le_antisymm _ _
          (Sorted-below (uuid.to_string a.stream_id) a as' b.stream_id b _ (str_le_refl _) sa in_as)
          (Sorted-below (uuid.to_string b.stream_id) b bs a.stream_id a _ (str_le_refl _) sb
            in_bs) in
      let ids : a.stream_id ≡ b.stream_id =
        to_string_injective _ _ (items-AllTyped (b ∷ bs) a.stream_id a _ typed in_bs) typed.0
          texts in
      let here : (b.stream_id == a.stream_id) ≡ true = ground (arith, ids) in
      let heads : a ≡ b = cc (rw here at in_bs) in
      let rest =
        Sorted-unique as' bs typed.1 (Sorted-tail a as' sa) (Sorted-tail b bs sb)
          (λ id. items-tail a b as' bs id ids (h id)) in
      cc (heads, rest)
