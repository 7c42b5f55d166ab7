-- ===== src/Store/Memory.antt =====
-- A table held in memory, which has the behaviour that the interface asks for.
use elchi_backend.Prelude.{
  ℕ, suc, ◌<◌, ◌≡◌, refl, inl, inr, Bool, true, false, Option, none, some, List, [], ◌∷◌, ◌++◌, max,
  arith, any, map_if, Occurs, if◌then◌else◌, Bool-cases,
}
use elchi_backend.Store.{Table}
use elchi_backend.Store.Sorting.{sorted, sorted-Occurs, Occurs-sorted, sorted-IsAscending}

module _ {Row : Type 0} where
  abbrev pub first : List Row → (Row → Bool) → Option Row
  first [] q = none
  first (x ∷ xs) q = if q x then some x else first xs q

  pub first-Occurs : (xs : List Row) (q : Row → Bool) (r : Row) → first xs q ≡ some r → Occurs r xs
  first-Occurs [] q r h = cc
  first-Occurs (x ∷ xs) q r h = elim (Bool-cases (q x)) [
    | inl t ↦ let e : some x ≡ some r = rw t at h in inl (cc)
    | inr t ↦ inr (first-Occurs xs q r (rw t at h))
  ]

  pub first-meets : (xs : List Row) (q : Row → Bool) (r : Row) → first xs q ≡ some r → q r ≡ true
  first-meets [] q r h = cc
  first-meets (x ∷ xs) q r h = elim (Bool-cases (q x)) [
    | inl t ↦ let e : some x ≡ some r = rw t at h in cc
    | inr t ↦ first-meets xs q r (rw t at h)
  ]

  pub first-none : (xs : List Row) (q : Row → Bool) → first xs q ≡ none → any q xs ≡ false
  first-none [] q h = refl
  first-none (x ∷ xs) q h = elim (Bool-cases (q x)) [
    | inl t ↦ let e : some x ≡ none = rw t at h in cc
    | inr t ↦ rw t (first-none xs q (rw t at h))
  ]

  module _ (key : Row → ℕ) where
    abbrev pub above : List Row → ℕ
    above [] = 1
    above (x ∷ xs) = max (suc (key x)) (above xs)

    pub lt-above : (xs : List Row) (r : Row) → Occurs r xs → key r < above xs
    lt-above [] r h = elim h [ ]
    lt-above (x ∷ xs) r (inl e) = rw e (omega arith)
    lt-above (x ∷ xs) r (inr o) = omega (arith, lt-above xs r o)

-- Rows in the order of insertion.
abbrev pub memory : (Row : Type 0) (key : Row → ℕ) → Table Row key
memory Row key = record {
  State = List Row;
  rows = λ s. s;
  find_one = first;
  find_by = λ s q column. sorted column s q;
  next_key = above key;
  insert = λ s r. s ++ r ∷ [];
  update = λ s q f. map_if q f s;
  find_one-Occurs = first-Occurs;
  find_one-meets = first-meets;
  find_one-none = first-none;
  find_by-Occurs = λ s q column. sorted-Occurs column s q;
  find_by-all = λ s q column. Occurs-sorted column s q;
  find_by-IsAscending = λ s q column. sorted-IsAscending column s q;
  next_key-lt = lt-above key;
  rows-insert = λ s r. refl;
  rows-update = λ s q f. refl;
}
