-- ===== src/Common/Lists.antt =====
-- Lists measured by the native numbers, as the slices of the source are.
use Prim.Native.Nat.{ℕ, zero, suc, ◌+◌, ◌-◌, ◌≤◌, ◌<◌}
use mathlib.Core.List.{[], List, ◌∷◌, ◌++◌, map}
use mathlib.Core.Option.{Option, none, some}
use mathlib.Core.Path.{◌≡◌, refl, ap}
use native.Mathlib.Omega.{arith}

module _ {ℓ} {A : Type ℓ} where
  abbrev pub length : List A → ℕ
  length [] = 0
  length (x ∷ xs) = suc (length xs)

  abbrev pub get_elem? : List A → ℕ → Option A
  get_elem? [] i = none
  get_elem? (x ∷ xs) zero = some x
  get_elem? (x ∷ xs) (suc i) = get_elem? xs i

  unfoldable pub take : ℕ → List A → List A
  take zero xs = []
  take (suc n) [] = []
  take (suc n) (x ∷ xs) = x ∷ take n xs

  unfoldable pub drop : ℕ → List A → List A
  drop zero xs = xs
  drop (suc n) [] = []
  drop (suc n) (x ∷ xs) = drop n xs

  pub length-append : (xs ys : List A) → length (xs ++ ys) ≡ length xs + length ys
  length-append [] ys = omega arith
  length-append (x ∷ xs) ys = omega (arith, length-append xs ys)

  pub length-take : (n : ℕ) (xs : List A) → n ≤ length xs → length (take n xs) ≡ n
  unfolding take
  length-take zero xs h = refl
  length-take (suc n) [] h = absurd (omega arith)
  length-take (suc n) (x ∷ xs) h = omega (arith, length-take n xs)

  pub length-take-le : (n : ℕ) (xs : List A) → length (take n xs) ≤ n
  unfolding take
  length-take-le zero xs = omega arith
  length-take-le (suc n) [] = omega arith
  length-take-le (suc n) (x ∷ xs) = omega (arith, length-take-le n xs)

  pub length-drop : (n : ℕ) (xs : List A) → length (drop n xs) ≡ length xs - n
  unfolding drop
  length-drop zero xs = omega arith
  length-drop (suc n) [] = omega arith
  length-drop (suc n) (x ∷ xs) = omega (arith, length-drop n xs)

  pub take-append : (n : ℕ) (xs ys : List A) → length xs ≡ n → take n (xs ++ ys) ≡ xs
  unfolding take
  take-append zero [] ys h = refl
  take-append zero (x ∷ xs) ys h = absurd (omega arith)
  take-append (suc n) [] ys h = absurd (omega arith)
  take-append (suc n) (x ∷ xs) ys h = ap (◌∷◌ x) (take-append n xs ys (omega arith))

  pub drop-append : (n : ℕ) (xs ys : List A) → length xs ≡ n → drop n (xs ++ ys) ≡ ys
  unfolding drop
  drop-append zero [] ys h = refl
  drop-append zero (x ∷ xs) ys h = absurd (omega arith)
  drop-append (suc n) [] ys h = absurd (omega arith)
  drop-append (suc n) (x ∷ xs) ys h = drop-append n xs ys (omega arith)

  -- A field of `n` bytes behind `k` bytes.
  pub take-drop-append :
      (k n : ℕ) (front xs back : List A)
      → length front ≡ k
      → length xs ≡ n
      → take n (drop k (front ++ (xs ++ back))) ≡ xs
  take-drop-append k n front xs back hk hn =
      rw (drop-append k front (xs ++ back) hk) (take-append n xs back hn)

  pub take-append_le : (n : ℕ) (xs ys : List A) → n ≤ length xs → take n (xs ++ ys) ≡ take n xs
  unfolding take
  take-append_le zero xs ys h = refl
  take-append_le (suc n) [] ys h = absurd (omega arith)
  take-append_le (suc n) (x ∷ xs) ys h = ap (◌∷◌ x) (take-append_le n xs ys (omega arith))

  pub take-append_ge :
      (n : ℕ) (xs ys : List A) → length xs ≤ n → take n (xs ++ ys) ≡ xs ++ take (n - length xs) ys
  unfolding take
  take-append_ge n [] ys h = let e : n - 0 ≡ n = omega arith in rw e
  take-append_ge zero (x ∷ xs) ys h = absurd (omega arith)
  take-append_ge (suc n) (x ∷ xs) ys h =
      let e : suc n - suc (length xs) ≡ n - length xs = omega arith in
      rw e (ap (◌∷◌ x) (take-append_ge n xs ys (omega arith)))

  pub take_of_length-le :
      (count : ℕ) (whole : List A) → length whole ≤ count → take count whole ≡ whole
  unfolding take
  take_of_length-le (suc k) (y ∷ ys) enough =
      let rest = take_of_length-le k ys (omega arith) in ap (◌∷◌ y) rest
  take_of_length-le zero (y ∷ ys) enough = absurd (omega (arith, enough))
  take_of_length-le (suc k) [] enough = refl
  take_of_length-le zero [] enough = refl

  -- What is read below position `c` does not depend on what stands from there on.
  pub take-drop-local :
      (k n c : ℕ) (xs ys : List A)
      → k + n ≤ c
      → c ≤ length xs
      → take n (drop k (take c xs ++ ys)) ≡ take n (drop k xs)
  unfolding take drop
  take-drop-local zero zero c xs ys h l = refl
  take-drop-local zero (suc n) zero xs ys h l = absurd (omega arith)
  take-drop-local zero (suc n) (suc c) [] ys h l = absurd (omega arith)
  take-drop-local zero (suc n) (suc c) (x ∷ xs) ys h l =
      ap (◌∷◌ x) (take-drop-local zero n c xs ys (omega arith) (omega arith))
  take-drop-local (suc k) n zero xs ys h l = absurd (omega arith)
  take-drop-local (suc k) n (suc c) [] ys h l = absurd (omega arith)
  take-drop-local (suc k) n (suc c) (x ∷ xs) ys h l =
      take-drop-local k n c xs ys (omega arith) (omega arith)

  -- The same from position `k` to the end.
  pub drop-local :
      (k c : ℕ) (xs ys : List A)
      → k ≤ c
      → c ≤ length xs
      → drop k (take c xs ++ ys) ≡ take (c - k) (drop k xs) ++ ys
  unfolding take drop
  drop-local zero c xs ys h l = let e : c - 0 ≡ c = omega arith in rw e
  drop-local (suc k) zero xs ys h l = absurd (omega arith)
  drop-local (suc k) (suc c) [] ys h l = absurd (omega arith)
  drop-local (suc k) (suc c) (x ∷ xs) ys h l =
      let e : suc c - suc k ≡ c - k = omega arith in
      rw e (drop-local k c xs ys (omega arith) (omega arith))

  pub drop-drop : (m n : ℕ) (xs : List A) → drop n (drop m xs) ≡ drop (m + n) xs
  unfolding drop
  drop-drop zero n xs = let e : 0 + n ≡ n = omega arith in rw e
  drop-drop (suc m) zero [] = let e : suc m + 0 ≡ suc m = omega arith in rw e
  drop-drop (suc m) (suc n) [] = let e : suc m + suc n ≡ suc (m + suc n) = omega arith in rw e
  drop-drop (suc m) n (x ∷ xs) =
      let e : suc m + n ≡ suc (m + n) = omega arith in rw e (drop-drop m n xs)

  pub take-append-drop : (n : ℕ) (xs : List A) → take n xs ++ drop n xs ≡ xs
  unfolding take drop
  take-append-drop zero xs = refl
  take-append-drop (suc n) [] = refl
  take-append-drop (suc n) (x ∷ xs) = ap (◌∷◌ x) (take-append-drop n xs)

abbrev pub All {ℓ κ} : {A : Type ℓ} → (A → Type κ) → List A → Type κ
All P [] = Unit
All P (x ∷ xs) = P x × All P xs

module _ {ℓ} {A : Type ℓ} where
  pub take-split :
      (m n : ℕ) (xs : List A) → m ≤ n → take n xs ≡ take m xs ++ take (n - m) (drop m xs)
  unfolding take drop
  take-split zero n xs h = let e : n - 0 ≡ n = omega arith in rw e
  take-split (suc m) zero xs h = absurd (omega arith)
  take-split (suc m) (suc n) [] h = lemma (suc n - suc m)
    where
      lemma : (k : ℕ) → [] ≡ take {A = A} k []
      lemma zero = refl
      lemma (suc k) = refl
  take-split (suc m) (suc n) (x ∷ xs) h =
      let e : suc n - suc m ≡ n - m = omega arith in
      rw e (ap (◌∷◌ x) (take-split m n xs (omega arith)))

  pub drop-append_le :
      (n : ℕ) (xs ys : List A) → n ≤ length xs → drop n (xs ++ ys) ≡ drop n xs ++ ys
  unfolding drop
  drop-append_le zero xs ys h = refl
  drop-append_le (suc n) [] ys h = absurd (omega arith)
  drop-append_le (suc n) (x ∷ xs) ys h = drop-append_le n xs ys (omega arith)

  pub take-take : (m n : ℕ) (xs : List A) → m ≤ n → take m (take n xs) ≡ take m xs
  unfolding take
  take-take zero n xs h = refl
  take-take (suc m) zero xs h = absurd (omega arith)
  take-take (suc m) (suc n) [] h = refl
  take-take (suc m) (suc n) (x ∷ xs) h = ap (◌∷◌ x) (take-take m n xs (omega arith))

  pub drop-take :
      (m n : ℕ) (xs : List A)
      → m ≤ n
      → n ≤ length xs
      → drop m (take n xs) ≡ take (n - m) (drop m xs)
  unfolding take drop
  drop-take zero n xs h l = let e : n - 0 ≡ n = omega arith in rw e
  drop-take (suc m) zero xs h l = absurd (omega arith)
  drop-take (suc m) (suc n) [] h l = absurd (omega arith)
  drop-take (suc m) (suc n) (x ∷ xs) h l =
      let e : suc n - suc m ≡ n - m = omega arith in
      rw e (drop-take m n xs (omega arith) (omega arith))

pub All-take {ℓ κ} :
    {A : Type ℓ} (P : A → Type κ) (n : ℕ) (xs : List A) → All P xs → All P (take n xs)
unfolding take
All-take P zero xs h = tt
All-take P (suc n) [] h = tt
All-take P (suc n) (x ∷ xs) h = (h.0, All-take P n xs h.1)

pub All-drop {ℓ κ} :
    {A : Type ℓ} (P : A → Type κ) (n : ℕ) (xs : List A) → All P xs → All P (drop n xs)
unfolding drop
All-drop P zero xs h = h
All-drop P (suc n) [] h = tt
All-drop P (suc n) (x ∷ xs) h = All-drop P n xs h.1

pub All-map {ℓ κ ι μ} :
    {A : Type ℓ} {B : Type κ} (P : A → Type ι) (Q : B → Type μ) (f : A → B) (xs : List A)
    → ((x : A) → P x → Q (f x))
    → All P xs
    → All Q (map f xs)
All-map P Q f [] imp h = tt
All-map P Q f (x ∷ xs) imp (h, hs) = (imp x h, All-map P Q f xs imp hs)

pub length-map {ℓ κ} :
    {A : Type ℓ} {B : Type κ} (f : A → B) (xs : List A) → length (map f xs) ≡ length xs
length-map f [] = refl
length-map f (x ∷ xs) = omega (arith, length-map f xs)

pub All-append {ℓ κ} :
    {A : Type ℓ} (P : A → Type κ) (xs ys : List A) → All P xs → All P ys → All P (xs ++ ys)
All-append P [] ys h k = k
All-append P (x ∷ xs) ys (h, hs) k = (h, All-append P xs ys hs k)

pub at_index {ℓ} :
    {A : Type ℓ} (n : ℕ) (xs : List A) → n < length xs → (x : A) × (get_elem? xs n ≡ some x)
at_index n [] h = absurd (omega arith)
at_index zero (x ∷ xs) h = (x, refl)
at_index (suc n) (x ∷ xs) h = at_index n xs (omega arith)
