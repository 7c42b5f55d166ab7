-- ===== src/Store/Sorting.antt =====
-- Rows sorted by insertion: the ordered query of the table that is held in memory.
use elchi_backend.Prelude.{
  ℕ, ◌≤◌, ◌≡◌, refl, ◌⊎◌, inl, inr, Bool, true, List, [], ◌∷◌, arith, leb, leb→le, All, Occurs,
  if◌then◌else◌, Bool-cases,
}
use elchi_backend.Store.{IsAscending}

module _ {Row : Type 0} where
  -- The rows that meet a test, sorted by insertion.
  abbrev pub place : (Row → ℕ) → Row → List Row → List Row
  place column r [] = r ∷ []
  place column r (x ∷ xs) = if leb (column r) (column x) then r ∷ x ∷ xs else x ∷ place column r xs

  abbrev pub sorted : (Row → ℕ) → List Row → (Row → Bool) → List Row
  sorted column [] q = []
  sorted column (x ∷ xs) q =
      let rest = sorted column xs q in if q x then place column x rest else rest

  place-Occurs :
      (column : Row → ℕ) (r : Row) (xs : List Row) (y : Row)
      → Occurs y (place column r xs)
      → (y ≡ r) ⊎ Occurs y xs
  place-Occurs column r [] y h = h
  place-Occurs column r (x ∷ xs) y h = elim (Bool-cases (leb (column r) (column x))) [
    | inl t ↦ rw t at h
    | inr t ↦
        let h' : (y ≡ x) ⊎ Occurs y (place column r xs) = rw t at h in
        elim h' [
          | inl e ↦ inr (inl e)
          | inr o ↦ elim (place-Occurs column r xs y o) [ inl e ↦ inl e | inr o' ↦ inr (inr o') ]
        ]
  ]

  Occurs-place_self : (column : Row → ℕ) (r : Row) (xs : List Row) → Occurs r (place column r xs)
  Occurs-place_self column r [] = inl refl
  Occurs-place_self column r (x ∷ xs) = elim (Bool-cases (leb (column r) (column x))) [
    | inl t ↦ rw t (inl refl)
    | inr t ↦ rw t (inr (Occurs-place_self column r xs))
  ]

  Occurs-place :
      (column : Row → ℕ) (r : Row) (xs : List Row) (y : Row)
      → Occurs y xs
      → Occurs y (place column r xs)
  Occurs-place column r [] y h = elim h [ ]
  Occurs-place column r (x ∷ xs) y (inl e) = elim (Bool-cases (leb (column r) (column x))) [
    | inl t ↦ rw t (inr (inl e))
    | inr t ↦ rw t (inl e)
  ]
  Occurs-place column r (x ∷ xs) y (inr o) = elim (Bool-cases (leb (column r) (column x))) [
    | inl t ↦ rw t (inr (inr o))
    | inr t ↦ rw t (inr (Occurs-place column r xs y o))
  ]

  pub sorted-Occurs :
      (column : Row → ℕ) (xs : List Row) (q : Row → Bool) (y : Row)
      → Occurs y (sorted column xs q)
      → Occurs y xs × (q y ≡ true)
  sorted-Occurs column [] q y h = elim h [ ]
  sorted-Occurs column (x ∷ xs) q y h = elim (Bool-cases (q x)) [
    | inl t ↦ elim (place-Occurs column x (sorted column xs q) y (rw t at h)) [
      | inl e ↦ (inl e, rw e t)
      | inr o ↦ let (o', t') = sorted-Occurs column xs q y o in (inr o', t')
    ]
    | inr t ↦ let (o', t') = sorted-Occurs column xs q y (rw t at h) in (inr o', t')
  ]

  pub Occurs-sorted :
      (column : Row → ℕ) (xs : List Row) (q : Row → Bool) (y : Row)
      → Occurs y xs
      → q y ≡ true
      → Occurs y (sorted column xs q)
  Occurs-sorted column [] q y h t = elim h [ ]
  Occurs-sorted column (x ∷ xs) q y (inl e) t =
      rw (← e, t) (Occurs-place_self column y (sorted column xs q))
  Occurs-sorted column (x ∷ xs) q y (inr o) t = elim (Bool-cases (q x)) [
    | inl s ↦ rw s (Occurs-place column x (sorted column xs q) y (Occurs-sorted column xs q y o t))
    | inr s ↦ rw s (Occurs-sorted column xs q y o t)
  ]

  All-le_trans :
      (column : Row → ℕ) (a b : ℕ) (xs : List Row)
      → a ≤ b
      → All (λ y. b ≤ column y) xs
      → All (λ y. a ≤ column y) xs
  All-le_trans column a b [] h k = tt
  All-le_trans column a b (x ∷ xs) h k = (omega arith, All-le_trans column a b xs h k.1)

  All-place :
      (column : Row → ℕ) (a : ℕ) (r : Row) (xs : List Row)
      → a ≤ column r
      → All (λ y. a ≤ column y) xs
      → All (λ y. a ≤ column y) (place column r xs)
  All-place column a r [] h k = (h, tt)
  All-place column a r (x ∷ xs) h k = elim (Bool-cases (leb (column r) (column x))) [
    | inl t ↦ rw t (h, k)
    | inr t ↦ rw t (k.0, All-place column a r xs h k.1)
  ]

  place-IsAscending :
      (column : Row → ℕ) (r : Row) (xs : List Row)
      → IsAscending column xs
      → IsAscending column (place column r xs)
  place-IsAscending column r [] h = (tt, tt)
  place-IsAscending column r (x ∷ xs) h = elim (Bool-cases (leb (column r) (column x))) [
    | inl t ↦
        let below = leb→le (column r) (column x) t in
        rw t ((below, All-le_trans column (column r) (column x) xs below h.0), h)
    | inr t ↦
        rw t
          (All-place column (column x) r xs (ground arith) h.0, place-IsAscending column r xs h.1)
  ]

  pub sorted-IsAscending :
      (column : Row → ℕ) (xs : List Row) (q : Row → Bool) → IsAscending column (sorted column xs q)
  sorted-IsAscending column [] q = tt
  sorted-IsAscending column (x ∷ xs) q = elim (Bool-cases (q x)) [
    | inl t ↦
        rw t (place-IsAscending column x (sorted column xs q) (sorted-IsAscending column xs q))
    | inr t ↦ rw t (sorted-IsAscending column xs q)
  ]
