-- ===== src/Finance/Shifts/Totals.antt =====
-- What the shifts of cashiers keep.
use elchi_backend.Prelude.{
  ℕ, ◌≡◌, ◌⊎◌, refl, sym, ap, ◌∙◌, inl, inr, Bool, true, false, ◌&&◌, none, List, [], ◌∷◌, ◌==◌,
  Option-cases, Occurs, Occurs-append, not-any-Occurs, arith,
}
use elchi_backend.Prelude.Int.{◌-ℤ◌}
use elchi_backend.Prelude.Results.{ok, err, bad_request, >>=-eq-ok, ok-injective}
use elchi_backend.Inputs.{assert_big_int_id}
use elchi_backend.Store.{Table}
use elchi_backend.Finance.Cashbox.{CashboxHistory}
use elchi_backend.Finance.Shifts.Sums.{movement}
use elchi_backend.Finance.Shifts.{closed, Shift, OpenShiftDto, is_open_of, new_shift, open_shift}

module _ (S : Table Shift Shift.key) where
  -- No user has two open shifts.
  abbrev pub HasOneOpen : S.State → Type 0
  HasOneOpen s =
      (user : ℕ) (x y : Shift)
      → Occurs x (S.rows s)
      → Occurs y (S.rows s)
      → is_open_of S user x ≡ true
      → is_open_of S user y ≡ true
      → x ≡ y

  test_same : (a b : ℕ) → (a == b) ≡ true → a ≡ b
  test_same a b h = ground arith

  and-left : (a b : Bool) → a && b ≡ true → a ≡ true
  and-left a b h = ground arith

  insert-HasOneOpen :
      (user : ℕ) (s : S.State) (n : Shift)
      → n.opened_by ≡ user
      → S.find_one s (is_open_of S user) ≡ none
      → HasOneOpen s
      → HasOneOpen (S.insert s n)
  insert-HasOneOpen user s n nu gone one u x y ox oy px py =
      both (Occurs-append (S.rows s) (n ∷ []) x (rw (S.rows-insert s n) at ox))
        (Occurs-append (S.rows s) (n ∷ []) y (rw (S.rows-insert s n) at oy))
    where
      -- An old shift and the new one are not of one user.
      apart :
          (z w : Shift)
          → Occurs z (S.rows s)
          → w ≡ n
          → is_open_of S u z ≡ true
          → is_open_of S u w ≡ true
          → z ≡ w
      apart z w oz e pz pw =
          let wu : w.opened_by ≡ u = test_same w.opened_by u (and-left _ _ pw) in
          let same : u ≡ user = sym wu ∙ ap (λ k. k.opened_by) e ∙ nu in
          (cc (
            not-any-Occurs (is_open_of S user) (S.rows s) z
                (S.find_one-none s (is_open_of S user) gone) oz,
            ap (λ k. is_open_of S k z) same,
            pz,
          ))

      both :
          Occurs x (S.rows s) ⊎ Occurs x (n ∷ []) → Occurs y (S.rows s) ⊎ Occurs y (n ∷ []) → x ≡ y
      both (inl a) (inl b) = one u x y a b px py
      both (inl a) (inr (inl e)) = apart x y a e px py
      both (inl a) (inr (inr e)) = elim e [ ]
      both (inr (inl e)) (inl b) = sym (apart y x b e py px)
      both (inr (inl e)) (inr (inl f)) = e ∙ sym f
      both (inr (inl e)) (inr (inr f)) = elim f [ ]
      both (inr (inr e)) b = elim e [ ]

  -- openShift leaves every user with one open shift at most.
  open_shift-HasOneOpen :
      (dto : OpenShiftDto) (now : ℕ) (s s' : S.State)
      → HasOneOpen s
      → open_shift S dto now s ≡ ok s'
      → HasOneOpen s'
  unfolding open_shift
  open_shift-HasOneOpen dto now s s' one h =
      let (user, _, h1) = >>=-eq-ok (assert_big_int_id dto.opened_by) _ h in
      elim (Option-cases (S.find_one s (is_open_of S user))) [
        | inr (x, found) ↦ let refused : err bad_request ≡ ok s' = rw found at h1 in cc
        | inl gone ↦
            let s'_is : S.insert s (new_shift S dto user now s) ≡ s' =
              ok-injective (rw gone at h1) in
            rw (← s'_is) (insert-HasOneOpen user s (new_shift S dto user now s) refl gone one)
      ]

  -- What a table says of a shift that has been closed, with these rows of the history.
  abbrev IsClosed : Shift → List CashboxHistory → S.State → S.State → Type 0
  IsClosed x hs s s' =
      ((y : Shift) × Occurs y (S.rows s') × (y.key ≡ x.key))
      × ((y : Shift)
          → Occurs y (S.rows s')
          → (y.key == x.key) ≡ true
          → (y.status ≡ closed)
            × (y.opened_at ≡ x.opened_at)
            × (y.total_income_cash -ℤ y.total_expense_cash ≡ movement true hs)
            × (y.total_income_card -ℤ y.total_expense_card ≡ movement false hs))
      × ((y : Shift) → Occurs y (S.rows s) → (y.key == x.key) ≡ false → Occurs y (S.rows s'))
