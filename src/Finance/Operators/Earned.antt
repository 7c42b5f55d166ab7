-- ===== src/Finance/Operators/Earned.antt =====
-- What operators have earned.
use elchi_backend.Prelude.{
  ℕ, ◌+◌, ◌*◌, ◌/◌, ◌≤◌, ◌≡◌, ◌⊎◌, refl, sym, ap, ◌∙◌, inl, inr, Bool, true, false, not, ◌&&◌,
  Option, some, List, [], ◌∷◌, ◌++◌, ◌==◌, if◌then◌else◌, map_if, Bool-cases, Occurs, Occurs-map_if,
  map_if-Occurs_image, arith,
}
use elchi_backend.Prelude.Int.{ℤ, pos, pos_part, ltb_ℤ, ◌+ℤ◌, ◌-ℤ◌, int_laws}
use elchi_backend.Prelude.Results.{Result, ok, err, bad_request, >>=-eq-ok, ok-injective}
use elchi_backend.Inputs.{IdArg, id, missing, malformed, assert_big_int_id, assert_positive_amount}
use elchi_backend.Store.{Table, find_one-some}
use elchi_backend.Finance.Operators.{
  percent, Commission, compute_commission, stored_amount, OperatorEarning, OperatorPayment,
  EarningInput, PaymentInput, commission_of, earn, updated_earning, save_earning,
  record_operator_earning, remove_operator_earning, earned, paid, create_operator_payment,
  find_operator_balance,
}

abbrev counts : ℕ → OperatorEarning → ℕ
counts u e = if (e.operator_id == u) && not e.is_deleted then e.amount else 0

-- Rows that an update leaves with what they count for leave the sum.
earned-map_if :
    (u : ℕ) (p : OperatorEarning → Bool) (f : OperatorEarning → OperatorEarning)
    (xs : List OperatorEarning)
    → ((x : OperatorEarning) → Occurs x xs → p x ≡ true → counts u (f x) ≡ counts u x)
    → earned u (map_if p f xs) ≡ earned u xs
earned-map_if u p f [] h = refl
earned-map_if u p f (x ∷ xs) h = elim (Bool-cases (p x)) [
  | inl t ↦ rw (t, h x (inl refl) t, earned-map_if u p f xs (λ y o. h y (inr o))) refl
  | inr n ↦ rw (n, earned-map_if u p f xs (λ y o. h y (inr o))) refl
]

deleted-counts : (u : ℕ) (e : OperatorEarning) → e.is_deleted ≡ true → counts u e ≡ 0
deleted-counts u e h = nothing (e.operator_id == u) e.is_deleted h
  where
    nothing : (a b : Bool) → b ≡ true → (if a && not b then e.amount else 0) ≡ 0
    nothing true b h = rw h refl
    nothing false b h = refl

module _ (E : Table OperatorEarning OperatorEarning.key) where
  -- The keys of the table are ids, and an order has one row at most.
  abbrev pub IsUnique : E.State → Type 0
  IsUnique s =
      (x y : OperatorEarning)
      → Occurs x (E.rows s)
      → Occurs y (E.rows s)
      → (x.key ≡ y.key) ⊎ (x.order_id ≡ y.order_id)
      → x ≡ y

  -- The row of an order after its removal.
  abbrev removed : OperatorEarning → OperatorEarning
  removed e = record e { is_deleted = true }

  abbrev removal : OperatorEarning → E.State → E.State
  removal e s = E.update s (λ r. r.key == e.key) (λ r. removed e)

  same_test : (a b : ℕ) → a ≡ b → (a == b) ≡ true
  same_test a b h = ground arith

  test_same : (a b : ℕ) → (a == b) ≡ true → a ≡ b
  test_same a b h = ground arith

  -- A row of the table after a removal that has the order or the key of the removed row is that row.
  removal-row :
      (e : OperatorEarning) (s : E.State) (y : OperatorEarning)
      → IsUnique s
      → Occurs e (E.rows s)
      → Occurs y (E.rows (removal e s))
      → (y.key ≡ e.key) ⊎ (y.order_id ≡ e.order_id)
      → y ≡ removed e
  removal-row e s y unique oe oy h =
      elim (Occurs-map_if (λ r. r.key == e.key) (λ r. removed e) (E.rows s) y
        (rw (E.rows-update s (λ r. r.key == e.key) (λ r. removed e)) at oy)) [
          | inl (_, _, _, g) ↦ g
          | inr (old, other) ↦
              (cc (same_test y.key e.key (ap (λ z. z.key) (unique y e old oe h)), other))
        ]

  removal-Occurs :
      (e : OperatorEarning) (s : E.State)
      → Occurs e (E.rows s)
      → Occurs (removed e) (E.rows (removal e s))
  removal-Occurs e s oe = rw (E.rows-update s (λ r. r.key == e.key) (λ r. removed e)) (
      map_if-Occurs_image (λ r. r.key == e.key) (λ r. removed e) (E.rows s) e
        (same_test e.key e.key refl) oe)

  -- A new sale of an order whose row is deleted leaves what everybody has earned.
  save_earning-deleted :
      (i : EarningInput) (operator : ℕ) (c : Option Commission) (exact : ℕ) (e : OperatorEarning)
      (s : E.State) (u : ℕ)
      → IsUnique s
      → Occurs e (E.rows s)
      → earned u (E.rows (save_earning E i e.order_id operator c exact (removal e s)))
        ≡ earned u (E.rows (removal e s))
  unfolding save_earning updated_earning
  save_earning-deleted i operator c exact e s u unique oe =
      let q : OperatorEarning → Bool = λ r. r.order_id == e.order_id in
      let (d, found) =
        find_one-some E (removal e s) q (removed e) (removal-Occurs e s oe)
          (same_test e.order_id e.order_id refl) in
      let d_is : d ≡ removed e =
        removal-row e s d unique oe (E.find_one-Occurs (removal e s) q d found)
          (inr (test_same d.order_id e.order_id (E.find_one-meets (removal e s) q d found))) in
      let found' : E.find_one (removal e s) q ≡ some (removed e) = found ∙ ap some d_is in
      rw
        (
          save_earning,
          found',
          E.rows-update (removal e s) (λ r. r.key == e.key)
              (λ r. updated_earning i operator c exact (removed e)),
        )
        (earned-map_if u (λ r. r.key == e.key) (λ r. updated_earning i operator c exact (removed e))
          (E.rows (removal e s))
          (λ x ox t.
            deleted-counts u (updated_earning i operator c exact (removed e)) refl
            ∙ sym (
                deleted-counts u x (
                  ap (λ z. z.is_deleted)
                    (removal-row e s x unique oe ox (inl (test_same x.key e.key t)))))))

  -- A recorded earning is skipped or saved.
  earn-cases :
      (fetch : ℕ → Result (Option Commission)) (i : EarningInput) (order : ℕ) (a : IdArg)
      (s s' : E.State)
      → earn E fetch i order a s ≡ ok s'
      → (s' ≡ s)
        ⊎ ((operator : ℕ) × (c : Option Commission) × (exact : ℕ) × (s'
              ≡ save_earning E i order operator c exact s))
  earn-cases fetch i order missing s s' h = inl (sym (ok-injective h))
  earn-cases fetch i order malformed s s' h = inl (sym (ok-injective h))
  earn-cases fetch i order (id operator) s s' h =
      let (c, _, h1) = >>=-eq-ok (fetch operator) _ h in
      let exact = commission_of c i.total_price in
      elim (Bool-cases (exact == 0)) [
        | inl t ↦ inl (sym (ok-injective (rw t at h1)))
        | inr n ↦ inr (operator, c, exact, sym (ok-injective (rw n at h1)))
      ]

  -- An operator earns nothing when an order that was rolled back is sold again: once the earning of
  -- an order is removed, to record it again leaves what every operator has earned, since the row
  -- that is rewritten stays deleted.
  pub remove_operator_earning-final :
      (fetch : ℕ → Result (Option Commission)) (i : EarningInput) (s s' s'' : E.State) (u : ℕ)
      (e : OperatorEarning)
      → IsUnique s
      → Occurs e (E.rows s)
      → i.order_id ≡ id e.order_id
      → remove_operator_earning E (id e.order_id) s ≡ ok s'
      → record_operator_earning E fetch i s' ≡ ok s''
      → earned u (E.rows s'') ≡ earned u (E.rows s')
  unfolding remove_operator_earning record_operator_earning assert_big_int_id
  remove_operator_earning-final fetch i s s' s'' u e unique oe hi h h' =
      let q : OperatorEarning → Bool = λ r. r.order_id == e.order_id in
      let (d, found) = find_one-some E s q e oe (same_test e.order_id e.order_id refl) in
      let d_is : d ≡ e =
        unique d e (E.find_one-Occurs s q d found) oe
          (inr (test_same d.order_id e.order_id (E.find_one-meets s q d found))) in
      let found' : E.find_one s q ≡ some e = found ∙ ap some d_is in
      let s'_is : removal e s ≡ s' = ok-injective (rw (remove_operator_earning, found') at h) in
      let recorded : earn E fetch i e.order_id i.operator_id s' ≡ ok s'' =
        rw (record_operator_earning, hi) at h' in
      elim (earn-cases fetch i e.order_id i.operator_id s' s'' recorded) [
        | inl same ↦ ap (λ z. earned u (E.rows z)) same
        | inr (operator, c, exact, saved) ↦
            ap (λ z. earned u (E.rows z)) saved
            ∙ ap (λ z. earned u (E.rows (save_earning E i e.order_id operator c exact z)))
                (sym s'_is)
            ∙ save_earning-deleted i operator c exact e s u unique oe
            ∙ ap (λ z. earned u (E.rows z)) s'_is
      ]

-- A commission in percent of at most a hundred is at most the price of the order, also when it is
-- rounded; of a price that is not positive it is nothing.
compute_commission-bound :
    (total_price v : ℤ)
    → pos_part v ≤ 10000
    → stored_amount (compute_commission (some percent) (some v) total_price) ≤ pos_part total_price
unfolding stored_amount compute_commission
compute_commission-bound total_price v h =
    rounded (pos_part total_price) (pos_part total_price * pos_part v)
      (product (pos_part total_price) (pos_part v) h)
  where
    product : (p w : ℕ) → w ≤ 10000 → p * w ≤ p * 10000
    product p w k = grind arith

    rounded : (p x : ℕ) → x ≤ p * 10000 → (x + 5000) / 10000 ≤ p
    rounded p x k = omega arith

module _ (E : Table OperatorEarning OperatorEarning.key)
    (P : Table OperatorPayment OperatorPayment.key) where
  paid-append : (u : ℕ) (xs ys : List OperatorPayment) → paid u (xs ++ ys) ≡ paid u xs +ℤ paid u ys
  paid-append u [] ys = omega int_laws
  paid-append u (x ∷ xs) ys = rw (paid-append u xs ys) (omega int_laws)

  -- A payment lowers the balance of its operator by its amount, and leaves that of all others.
  create_operator_payment-balance :
      (i : PaymentInput) (operator other : ℕ) (amount : ℤ) (s : E.State) (t t' : P.State)
      → i.operator_id ≡ id operator
      → i.amount ≡ some amount
      → create_operator_payment E P i t ≡ ok t'
      → (b : ℤ) → find_operator_balance E P (id other) s t ≡ ok b
      → find_operator_balance E P (id other) s t'
        ≡ ok (b -ℤ (if operator == other then amount else pos 0))
  unfolding create_operator_payment find_operator_balance assert_big_int_id assert_positive_amount
  create_operator_payment-balance i operator other amount s t t' hi ha h b hb =
      elim (Bool-cases (ltb_ℤ (pos 0) amount)) [
        | inr n ↦
            let refused : err bad_request ≡ ok t' =
              rw (create_operator_payment, hi, ha, assert_positive_amount, n) at h in
            cc
        | inl y ↦
            let row : OperatorPayment = record {
              key = P.next_key t;
              operator_id = operator;
              market_id = i.market_id;
              paid_by_id = i.paid_by_id;
              amount = amount;
              note = i.note;
              is_deleted = false;
            } in
            let t'_is : P.insert t row ≡ t' =
              ok-injective (rw (create_operator_payment, hi, ha, assert_positive_amount, y) at h) in
            let total : paid other (P.rows t')
                ≡ paid other (P.rows t) +ℤ (if operator == other then amount else pos 0) =
              ap (λ z. paid other (P.rows z)) (sym t'_is)
              ∙ ap (paid other) (P.rows-insert t row)
              ∙ paid-append other (P.rows t) (row ∷ [])
              ∙ ap (λ z. paid other (P.rows t) +ℤ z) (only (operator == other)) in
            ap ok (
              ap (λ z. pos (earned other (E.rows s)) -ℤ z) total
              ∙ apart _ _ _
              ∙ ap (λ z. z -ℤ (if operator == other then amount else pos 0)) (ok-injective hb))
      ]
    where
      only :
          (c : Bool)
          → (if c && true then amount else pos 0) +ℤ pos 0 ≡ (if c then amount else pos 0)
      only true = omega int_laws
      only false = omega int_laws

      apart : (x y z : ℤ) → x -ℤ (y +ℤ z) ≡ x -ℤ y -ℤ z
      apart x y z = omega int_laws
