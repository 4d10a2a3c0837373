-- ===== src/Prelude/Search.antt =====
-- Filtering, sorting by a key and searching, as the `WHERE`, `ORDER BY` and `LIMIT` of a query use
-- them.
pub mod Found
use cbsa_rust.Prelude.{
  ℕ, zero, suc, ◌≡◌, ◌≢◌, refl, sym, Bool, true, false, Option, none, some, List, [], ◌∷◌, arith,
  if◌then◌else◌, Bool-cases, inl, inr, All, take, length, ◌++◌, ap, ◌∙◌,
}
use cbsa_rust.Prelude.Int.{ℤ, leb_ℤ, ltb_ℤ, ◌≤ℤ◌}

module _ {ℓ} {A : Type ℓ} (p : A → Bool) where
  abbrev pub find_by : List A → Option A
  find_by [] = none
  find_by (x ∷ xs) = if p x then some x else find_by xs

  abbrev pub keep_by : List A → List A
  keep_by [] = []
  keep_by (x ∷ xs) = let rest = keep_by xs in if p x then x ∷ rest else rest

  abbrev pub drop_by : List A → List A
  drop_by [] = []
  drop_by (x ∷ xs) = let rest = drop_by xs in if p x then rest else x ∷ rest

module _ {ℓ} {A : Type ℓ} (key : A → ℤ) where
  -- The place of a row in rows that are in order, before the rows with the same key.
  unfoldable pub insert_by : A → List A → List A
  insert_by a [] = a ∷ []
  insert_by a (x ∷ xs) = if leb_ℤ (key a) (key x) then a ∷ x ∷ xs else x ∷ insert_by a xs

  unfoldable pub sort_by : List A → List A
  sort_by [] = []
  sort_by (x ∷ xs) = insert_by x (sort_by xs)

  -- The later of two rows in the order.
  abbrev pub later : A → Option A → A
  later a none = a
  later a (some b) = if ltb_ℤ (key a) (key b) then b else a

module _ {A : Type 0} (p : A → Bool) (key : A → ℤ) where
  -- The first row of the reverse order.
  unfoldable pub last_by : List A → Option A
  last_by [] = none
  last_by (x ∷ xs) = let rest = last_by xs in if p x then some (later key x rest) else rest

  -- What `last_by` returns: no row where none passes, or a row that passes with the largest key.
  abbrev pub IsLast : List A → Option A → Type 0
  IsLast xs none = All (λ x. p x ≡ false) xs
  IsLast xs (some a) = (p a ≡ true) × All (λ x. p x ≡ true → key x ≤ℤ key a) xs

module _ {ℓ κ} {A : Type ℓ} where
  pub All_take : (P : A → Type κ) (n : ℕ) (xs : List A) → All P xs → All P (take n xs)
  All_take P zero xs h = tt
  All_take P (suc n) [] h = tt
  All_take P (suc n) (x ∷ xs) (h, hs) = (h, All_take P n xs hs)

  pub All_insert_by :
      (P : A → Type κ) (key : A → ℤ) (a : A) (xs : List A)
      → P a
      → All P xs
      → All P (insert_by key a xs)
  unfolding insert_by
  All_insert_by P key a [] h hs = (h, tt)
  All_insert_by P key a (x ∷ xs) h (k, ks) = elim (Bool-cases (leb_ℤ (key a) (key x))) [
    | inl e ↦ rw e (h, (k, ks))
    | inr e ↦ rw e (k, All_insert_by P key a xs h ks)
  ]

  pub All_sort_by : (P : A → Type κ) (key : A → ℤ) (xs : List A) → All P xs → All P (sort_by key xs)
  unfolding sort_by
  All_sort_by P key [] h = tt
  All_sort_by P key (x ∷ xs) (h, hs) =
      All_insert_by P key x (sort_by key xs) h (All_sort_by P key xs hs)

  -- What is kept passes the test, and keeps what held of it.
  pub All_keep_by :
      (P : A → Type κ) (p : A → Bool) (xs : List A)
      → All P xs
      → All (λ x. (p x ≡ true) × P x) (keep_by p xs)
  All_keep_by P p [] h = tt
  All_keep_by P p (x ∷ xs) (h, hs) = elim (Bool-cases (p x)) [
    | inl e ↦ rw e ((e, h), All_keep_by P p xs hs)
    | inr e ↦ rw e (All_keep_by P p xs hs)
  ]

module _ {ℓ} {A : Type ℓ} where
  pub All_mono {κ μ} :
      {P : A → Type κ} {Q : A → Type μ} (xs : List A) → ((x : A) → P x → Q x) → All P xs → All Q xs
  All_mono [] f h = tt
  All_mono (x ∷ xs) f (h, hs) = (f x h, All_mono xs f hs)

module _ {A : Type 0} (p : A → Bool) (key : A → ℤ) where
  above :
      (b : A) (xs : List A) (a : A)
      → key b ≤ℤ key a
      → All (λ x. p x ≡ true → key x ≤ℤ key b) xs
      → All (λ x. p x ≡ true → key x ≤ℤ key a) xs
  above b xs a h hs = All_mono xs (λ x k passes. omega (arith, k passes)) hs

  refused :
      (xs : List A) (a : A) → All (λ x. p x ≡ false) xs → All (λ x. p x ≡ true → key x ≤ℤ key a) xs
  refused xs a hs = All_mono xs (λ x k passes. absurd (ground arith)) hs

  IsLast-cons :
      (x : A) (xs : List A) (rest : Option A)
      → p x ≡ true
      → IsLast p key xs rest
      → IsLast p key (x ∷ xs) (some (later key x rest))
  IsLast-cons x xs none e h = (e, ((λ _. omega arith), refused xs x h))
  IsLast-cons x xs (some b) e (k, h) = go (ltb_ℤ (key x) (key b)) refl
    where
      go :
          (less : Bool)
          → ltb_ℤ (key x) (key b) ≡ less
          → IsLast p key (x ∷ xs) (some (if less then b else x))
      go true less = (k, ((λ _. ground arith), h))
      go false more = (e, ((λ _. omega arith), above b xs x (ground arith) h))

  IsLast-skip :
      (x : A) (xs : List A) (rest : Option A)
      → p x ≡ false
      → IsLast p key xs rest
      → IsLast p key (x ∷ xs) rest
  IsLast-skip x xs none e h = (e, h)
  IsLast-skip x xs (some b) e (k, h) = (k, ((λ passes. absurd (ground arith)), h))

  pub last_by-IsLast : (xs : List A) → IsLast p key xs (last_by p key xs)
  unfolding last_by
  last_by-IsLast [] = tt
  last_by-IsLast (x ∷ xs) = elim (Bool-cases (p x)) [
    | inl e ↦ rw e (IsLast-cons x xs (last_by p key xs) e (last_by-IsLast xs))
    | inr e ↦ rw e (IsLast-skip x xs (last_by p key xs) e (last_by-IsLast xs))
  ]

module _ {A : Type 0} (key : A → ℤ) where
  -- No two elements have the same key.
  abbrev pub IsDistinct : List A → Type 0
  IsDistinct [] = Unit
  IsDistinct (x ∷ xs) = All (λ y. key y ≢ key x) xs × IsDistinct xs

  insert_by-IsDistinct :
      (a : A) (xs : List A)
      → All (λ y. key y ≢ key a) xs
      → IsDistinct xs
      → IsDistinct (insert_by key a xs)
  unfolding insert_by
  insert_by-IsDistinct a [] h d = (tt, tt)
  insert_by-IsDistinct a (x ∷ xs) (h, hs) (d, ds) = elim (Bool-cases (leb_ℤ (key a) (key x))) [
    | inl e ↦ rw e ((h, hs), (d, ds))
    | inr e ↦ rw e (
      All_insert_by (λ y. key y ≢ key x) key a xs (λ p. h (sym p)) d,
      insert_by-IsDistinct a xs hs ds,
    )
  ]

  pub sort_by-IsDistinct : (xs : List A) → IsDistinct xs → IsDistinct (sort_by key xs)
  unfolding sort_by
  sort_by-IsDistinct [] d = tt
  sort_by-IsDistinct (x ∷ xs) (d, ds) =
      insert_by-IsDistinct x (sort_by key xs) (All_sort_by (λ y. key y ≢ key x) key xs d)
        (sort_by-IsDistinct xs ds)

  pub take-IsDistinct : (n : ℕ) (xs : List A) → IsDistinct xs → IsDistinct (take n xs)
  take-IsDistinct zero xs d = tt
  take-IsDistinct (suc n) [] d = tt
  take-IsDistinct (suc n) (x ∷ xs) (d, ds) = (All_take _ n xs d, take-IsDistinct n xs ds)

module _ {A : Type 0} where
  length-insert_by :
      (key : A → ℤ) (a : A) (xs : List A) → length (insert_by key a xs) ≡ suc (length xs)
  unfolding insert_by
  length-insert_by key a [] = refl
  length-insert_by key a (x ∷ xs) = elim (Bool-cases (leb_ℤ (key a) (key x))) [
    | inl e ↦ rw e refl
    | inr e ↦ rw e (ap suc (length-insert_by key a xs))
  ]

  pub length-sort_by : (key : A → ℤ) (xs : List A) → length (sort_by key xs) ≡ length xs
  unfolding sort_by
  length-sort_by key [] = refl
  length-sort_by key (x ∷ xs) =
      length-insert_by key x (sort_by key xs) ∙ ap suc (length-sort_by key xs)

  -- A row at the end that passes is one more.
  pub length-keep_by :
      (p : A → Bool) (xs : List A) (a : A)
      → p a ≡ true
      → length (keep_by p (xs ++ (a ∷ []))) ≡ suc (length (keep_by p xs))
  length-keep_by p [] a e = rw e refl
  length-keep_by p (x ∷ xs) a e = elim (Bool-cases (p x)) [
    | inl passes ↦ rw passes (ap suc (length-keep_by p xs a e))
    | inr fails ↦ rw fails (length-keep_by p xs a e)
  ]
