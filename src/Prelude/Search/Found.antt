-- ===== src/Prelude/Search/Found.antt =====
-- What the searches return, said without the functions that search.
use mathlib.Core.List.{Mem, Perm, mem-cons_self, mem-cons_of_mem}
use mathlib.Core.List.Perm
use cbsa_rust.Prelude.{
  ℕ, ◌≡◌, refl, Bool, true, false, Option, none, some, List, [], ◌∷◌, ◌++◌, All, take, arith,
  if◌then◌else◌, Bool-cases, inl, inr, ◌⊎◌,
}
use cbsa_rust.Prelude.Int.{ℤ, ltb_ℤ, leb_ℤ, ◌≤ℤ◌}
use cbsa_rust.Prelude.Search.{
  find_by, keep_by, drop_by, insert_by, sort_by, later, last_by, All_mono, All_insert_by,
  All_sort_by,
}

module _ {A : Type 0} (P : A → Type 0) where
  -- One of the rows with the property, or none where no row has it.
  abbrev pub IsFound : List A → Option A → Type 0
  IsFound rows none = All (λ row. ¬ P row) rows
  IsFound rows (some row) = P row × Mem row rows

  -- One of the rows with the property that has the greatest key of these.
  abbrev pub IsLastFound : (A → ℤ) → List A → Option A → Type 0
  IsLastFound key rows none = All (λ row. ¬ P row) rows
  IsLastFound key rows (some row) =
      P row × Mem row rows × All (λ other. (¬ P other) ⊎ (key other ≤ℤ key row)) rows

module _ {A : Type 0} (key : A → ℤ) where
  abbrev pub IsOrdered : List A → Type 0
  IsOrdered [] = Unit
  IsOrdered (row ∷ rows) = All (λ other. key row ≤ℤ key other) rows × IsOrdered rows

-- The first `limit` of the rows with the property, in the order of the key: the rows are those with
-- the property, in order, and the others.
pub record IsListing {A : Type 0} (P : A → Type 0) (key : A → ℤ) (limit : ℕ) (rows listed : List A)
    : Type 0 where
  pub held : List A
  pub others : List A
  pub all : Perm (held ++ others) rows
  pub held_all : All P held
  pub others_all : All (λ row. ¬ P row) others
  pub ordered : IsOrdered key held
  pub first : listed ≡ take limit held

-- A test that decides a property.
pub record IsTest {A : Type 0} (P : A → Type 0) (p : A → Bool) : Type 0 where
  pub passes : (row : A) → p row ≡ true → P row
  pub fails : (row : A) → p row ≡ false → ¬ P row

module _ {A : Type 0} {P : A → Type 0} (p : A → Bool) (test : IsTest P p) where
  IsFound-cons :
      (x : A) (xs : List A) (o : Option A) → ¬ P x → IsFound P xs o → IsFound P (x ∷ xs) o
  IsFound-cons x xs none n h = (n, h)
  IsFound-cons x xs (some a) n (h, m) = (h, mem-cons_of_mem x m)

  pub find_by-IsFound : (rows : List A) → IsFound P rows (find_by p rows)
  find_by-IsFound [] = tt
  find_by-IsFound (x ∷ xs) = elim (Bool-cases (p x)) [
    | inl e ↦ rw e (test.passes x e, mem-cons_self)
    | inr e ↦ rw e (IsFound-cons x xs (find_by p xs) (test.fails x e) (find_by-IsFound xs))
  ]

  keep_by_all : (xs : List A) → All P (keep_by p xs)
  keep_by_all [] = tt
  keep_by_all (x ∷ xs) = elim (Bool-cases (p x)) [
    | inl e ↦ rw e (test.passes x e, keep_by_all xs)
    | inr e ↦ rw e (keep_by_all xs)
  ]

  drop_by_all : (xs : List A) → All (λ x. ¬ P x) (drop_by p xs)
  drop_by_all [] = tt
  drop_by_all (x ∷ xs) = elim (Bool-cases (p x)) [
    | inl e ↦ rw e (drop_by_all xs)
    | inr e ↦ rw e (test.fails x e, drop_by_all xs)
  ]

module _ {A : Type 0} where
  to_front : (x : A) (ys zs : List A) → Perm (ys ++ (x ∷ zs)) (x ∷ (ys ++ zs))
  to_front x [] zs = Perm.refl (x ∷ zs)
  to_front x (y ∷ ys) zs = Perm.trans (Perm.cons y (to_front x ys zs)) (Perm.swap x y (ys ++ zs))

module _ {A : Type 0} (p : A → Bool) where
  keep_by-Perm : (xs : List A) → Perm (keep_by p xs ++ drop_by p xs) xs
  keep_by-Perm [] = Perm.refl []
  keep_by-Perm (x ∷ xs) = elim (Bool-cases (p x)) [
    | inl e ↦ rw e (Perm.cons x (keep_by-Perm xs))
    | inr e ↦
        rw e (Perm.trans (to_front x (keep_by p xs) (drop_by p xs)) (Perm.cons x (keep_by-Perm xs)))
  ]

module _ {A : Type 0} (key : A → ℤ) where
  insert_by-Perm : (a : A) (xs : List A) → Perm (insert_by key a xs) (a ∷ xs)
  unfolding insert_by
  insert_by-Perm a [] = Perm.refl (a ∷ [])
  insert_by-Perm a (x ∷ xs) = elim (Bool-cases (leb_ℤ (key a) (key x))) [
    | inl e ↦ rw e (Perm.refl (a ∷ x ∷ xs))
    | inr e ↦ rw e (Perm.trans (Perm.cons x (insert_by-Perm a xs)) (Perm.swap a x xs))
  ]

  sort_by-Perm : (xs : List A) → Perm (sort_by key xs) xs
  unfolding sort_by
  sort_by-Perm [] = Perm.refl []
  sort_by-Perm (x ∷ xs) =
      Perm.trans (insert_by-Perm x (sort_by key xs)) (Perm.cons x (sort_by-Perm xs))

  insert_by-IsOrdered :
      (a : A) (xs : List A) → IsOrdered key xs → IsOrdered key (insert_by key a xs)
  unfolding insert_by
  insert_by-IsOrdered a [] h = (tt, tt)
  insert_by-IsOrdered a (x ∷ xs) (h, hs) = elim (Bool-cases (leb_ℤ (key a) (key x))) [
    | inl e ↦
        let le : key a ≤ℤ key x = ground arith in
        rw e ((le, All_mono xs (λ other k. omega (arith, k, le)) h), (h, hs))
    | inr e ↦ rw e (
      All_insert_by (λ other. key x ≤ℤ key other) key a xs (ground arith) h,
      insert_by-IsOrdered a xs hs,
    )
  ]

  sort_by-IsOrdered : (xs : List A) → IsOrdered key (sort_by key xs)
  unfolding sort_by
  sort_by-IsOrdered [] = tt
  sort_by-IsOrdered (x ∷ xs) = insert_by-IsOrdered x (sort_by key xs) (sort_by-IsOrdered xs)

module _ {A : Type 0} {P : A → Type 0} (p : A → Bool) (test : IsTest P p) (key : A → ℤ) where
  IsLastFound-skip :
      (x : A) (xs : List A) (o : Option A)
      → ¬ P x
      → IsLastFound P key xs o
      → IsLastFound P key (x ∷ xs) o
  IsLastFound-skip x xs none n h = (n, h)
  IsLastFound-skip x xs (some a) n (h, m, hs) = (h, mem-cons_of_mem x m, (inl n, hs))

  below :
      (x a other : A)
      → key a ≤ℤ key x
      → (¬ P other) ⊎ (key other ≤ℤ key a)
      → (¬ P other) ⊎ (key other ≤ℤ key x)
  below x a other le (inl n) = inl n
  below x a other le (inr h) = inr (omega (arith, h, le))

  IsLastFound-cons :
      (x : A) (xs : List A) (o : Option A)
      → P x
      → IsLastFound P key xs o
      → IsLastFound P key (x ∷ xs) (some (later key x o))
  IsLastFound-cons x xs none h hs =
      (h, mem-cons_self, (inr (omega arith), All_mono xs (λ other n. inl n) hs))
  IsLastFound-cons x xs (some a) h (k, m, hs) = go (ltb_ℤ (key x) (key a)) refl
    where
      go :
          (less : Bool)
          → ltb_ℤ (key x) (key a) ≡ less
          → IsLastFound P key (x ∷ xs) (some (if less then a else x))
      go true less = (k, mem-cons_of_mem x m, (inr (ground arith), hs))
      go false more = (
        h,
        mem-cons_self,
        (inr (omega arith), All_mono xs (λ other n. below x a other (ground arith) n) hs),
      )

  pub last_by-IsLastFound : (rows : List A) → IsLastFound P key rows (last_by p key rows)
  unfolding last_by
  last_by-IsLastFound [] = tt
  last_by-IsLastFound (x ∷ xs) = elim (Bool-cases (p x)) [
    | inl e ↦
        rw e (IsLastFound-cons x xs (last_by p key xs) (test.passes x e) (last_by-IsLastFound xs))
    | inr e ↦
        rw e (IsLastFound-skip x xs (last_by p key xs) (test.fails x e) (last_by-IsLastFound xs))
  ]

  pub take-IsListing :
      (limit : ℕ) (rows : List A)
      → IsListing P key limit rows (take limit (sort_by key (keep_by p rows)))
  take-IsListing limit rows = record {
    held = sort_by key (keep_by p rows);
    others = drop_by p rows;
    all =
        Perm.trans (Perm.append_right (drop_by p rows) (sort_by-Perm key (keep_by p rows)))
          (keep_by-Perm p rows);
    held_all = All_sort_by P key (keep_by p rows) (keep_by_all p test rows);
    others_all = drop_by_all p test rows;
    ordered = sort_by-IsOrdered key (keep_by p rows);
    first = refl;
  }
