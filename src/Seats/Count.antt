-- ===== src/Seats/Count.antt =====
-- Counting rows of owners: what a changed list of ids, or a saved row, does to a count.
use codecov_api.Base.{
  All, Bool, Bool-cases, List, Option, [], arith, false, if◌then◌else◌, inl, inr, length, mem, none,
  refl, select, some, subst, true, ℕ, ◌+◌, ◌==◌, ◌||◌, ◌∷◌, ◌≡◌, ◌≤◌,
}
use codecov_api.Owner.{Owner}
use codecov_api.Store.{put_owner}

module _ {ℓ} {A : Type ℓ} where
  -- A count under a weaker test is at most the sum of the counts of its two cases.
  pub length-select-or :
      (p q r : A → Bool)
      → ((a : A) → p a ≡ true → (q a || r a) ≡ true)
      → (xs : List A) → length (select p xs) ≤ length (select q xs) + length (select r xs)
  length-select-or p q r h [] = omega arith
  length-select-or p q r h (x ∷ xs) = ground (arith, h x, length-select-or p q r h xs)

  pub length-select_mono :
      (p q : A → Bool)
      → ((a : A) → p a ≡ true → q a ≡ true)
      → (xs : List A) → length (select p xs) ≤ length (select q xs)
  length-select_mono p q h [] = omega arith
  length-select_mono p q h (x ∷ xs) = ground (arith, h x, length-select_mono p q h xs)

-- No two rows have one primary key.
abbrev pub Absent : ℕ → List ℕ → Type 0
Absent i ids = mem i ids ≡ false

abbrev pub IsUnique : List ℕ → Type 0
IsUnique [] = Unit
IsUnique (i ∷ ids) = Absent i ids × IsUnique ids

abbrev pub keys : List Owner → List ℕ
keys [] = []
keys (o ∷ rows) = o.ownerid ∷ keys rows

Absent-none : (i : ℕ) (ids : List ℕ) → Absent i ids → length (select (λ j. j == i) ids) ≡ 0
Absent-none i [] h = refl
Absent-none i (j ∷ ids) h = ground (arith, Absent-none i ids)

-- A key is found in at most one row.
pub length-select-key :
    (i : ℕ) (ids : List ℕ) → IsUnique ids → length (select (λ j. j == i) ids) ≤ 1
length-select-key i [] h = omega arith
length-select-key i (j ∷ ids) h =
    ground (arith, Absent-none i ids, length-select-key i ids h.1, h.0)

-- Counting keys is counting rows.
pub length-select-keys :
    (i : ℕ) (rows : List Owner)
    → length (select (λ (o : Owner). o.ownerid == i) rows)
      ≡ length (select (λ j. j == i) (keys rows))
length-select-keys i [] = refl
length-select-keys i (o ∷ rows) = ground (arith, length-select-keys i rows)

-- The row with a given key.
abbrev pub row_of : ℕ → List Owner → Option Owner
row_of i [] = none
row_of i (o ∷ rows) = if o.ownerid == i then some o else row_of i rows

-- Saving a row that passes the test exactly when the stored one does keeps the count.
pub length-select-put_owner :
    (p : Owner → Bool) (o r : Owner) (rows : List Owner)
    → row_of o.ownerid rows ≡ some r
    → p o ≡ p r
    → length (select p (put_owner o rows)) ≡ length (select p rows)
unfolding put_owner
length-select-put_owner p o r [] h e = cc
length-select-put_owner p o r (x ∷ rows) h e = ground (arith, length-select-put_owner p o r rows)

pub row_of-put_owner :
    (o : Owner) (rows : List Owner) → row_of o.ownerid (put_owner o rows) ≡ some o
unfolding put_owner
row_of-put_owner o [] = ground arith
row_of-put_owner o (x ∷ rows) = ground (arith, row_of-put_owner o rows)

module _ {ℓ} {A : Type ℓ} where
  pub length-select_mono_All :
      (p q : A → Bool) (xs : List A)
      → All (λ a. p a ≡ true → q a ≡ true) xs
      → length (select p xs) ≤ length (select q xs)
  length-select_mono_All p q [] h = omega arith
  length-select_mono_All p q (x ∷ xs) h = ground (arith, h.0, length-select_mono_All p q xs h.1)

-- With unique keys, what the found row satisfies holds of every row of that key.
module _ {ℓ} (P : Owner → Type ℓ) (i : ℕ) where
  Absent-All :
      (rows : List Owner) → Absent i (keys rows) → All (λ o. (o.ownerid == i) ≡ true → P o) rows
  Absent-All [] h = tt
  Absent-All (o ∷ rows) h = (λ e. absurd (ground arith), Absent-All rows (ground arith))

  pub row_of-All :
      (rows : List Owner) (r : Owner)
      → IsUnique (keys rows)
      → row_of i rows ≡ some r
      → P r
      → All (λ o. (o.ownerid == i) ≡ true → P o) rows
  row_of-All [] r u f h = cc
  row_of-All (o ∷ rows) r u f h = elim (Bool-cases (o.ownerid == i)) [
    | inl e ↦ (λ _. subst P (ground arith) h, Absent-All rows (ground (arith, u.0)))
    | inr e ↦ (λ e'. absurd (ground arith), row_of-All rows r u.1 (ground arith) h)
  ]
