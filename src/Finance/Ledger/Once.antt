-- ===== src/Finance/Ledger/Once.antt =====
-- An order has one entry of each source.
use elchi_backend.Prelude.{
  ℕ, ◌≡◌, refl, ap, ◌∙◌, inl, inr, true, false, ◌&&◌, some, Bool-cases, Option-cases, Occurs,
  Occurs-append_last, opt_eq, arith,
}
use elchi_backend.Prelude.Int.{ℤ, pos, eqb_ℤ}
use elchi_backend.Store.{Table, find_one-some}
use elchi_backend.Finance.Ledger.{
  FinancialSource, same_financial_source, LedgerEntry, LedgerInput, is_recorded, recorded_entry,
  next_entry, append_unless, record_financial_balance,
}

module _ (L : Table LedgerEntry LedgerEntry.key) where
  -- An entry of an order that is there already is not recorded again.
  recorded_entry-kept :
      (j : LedgerInput) (order_id : ℕ) (s : L.State) (e : LedgerEntry)
      → j.order_id ≡ some order_id
      → Occurs e (L.rows s)
      → is_recorded order_id j.source_type e ≡ true
      → record_financial_balance L j s ≡ s
  unfolding record_financial_balance recorded_entry
  recorded_entry-kept j order_id s e hj oe te =
      let (old, found) = find_one-some L s (is_recorded order_id j.source_type) e oe te in
      elim (Option-cases j.amount) [
        | inl n ↦ rw (record_financial_balance, n) refl
        | inr (a, ea) ↦ elim (Bool-cases (eqb_ℤ a (pos 0))) [
          | inl t ↦ rw (record_financial_balance, ea, t) refl
          | inr f ↦ rw (record_financial_balance, ea, f, recorded_entry, hj, found) refl
        ]
      ]

  recorded :
      (i : LedgerInput) (a : ℤ) (s : L.State)
      → i.amount ≡ some a
      → eqb_ℤ a (pos 0) ≡ false
      → record_financial_balance L i s
        ≡ append_unless L (recorded_entry L i s) (next_entry L i a s) s
  unfolding record_financial_balance
  recorded i a s ha hz = rw (record_financial_balance, ha, hz) refl

  -- After a call with an order and an amount that is not zero, the order has an entry of the source.
  recorded_entry-there :
      (i : LedgerInput) (a : ℤ) (order_id : ℕ) (s : L.State)
      → i.order_id ≡ some order_id
      → i.amount ≡ some a
      → eqb_ℤ a (pos 0) ≡ false
      → (e : LedgerEntry) × Occurs e (L.rows (record_financial_balance L i s))
        × (is_recorded order_id i.source_type e ≡ true)
  unfolding recorded_entry next_entry
  recorded_entry-there i a order_id s ho ha hz =
      let new = next_entry L i a s in
      elim (Option-cases (recorded_entry L i s)) [
        | inl n ↦ (
          new,
          rw (recorded i a s ha hz ∙ ap (λ o. append_unless L o new s) n)
              (rw (L.rows-insert s new) (Occurs-append_last (L.rows s) new)),
          rw ho (same_source order_id i.source_type),
        )
        | inr (old, n) ↦
            let found : L.find_one s (is_recorded order_id i.source_type) ≡ some old =
              rw (recorded_entry, ho) at n in
            (
              old,
              rw (recorded i a s ha hz ∙ ap (λ o. append_unless L o new s) n)
                  (L.find_one-Occurs s (is_recorded order_id i.source_type) old found),
              L.find_one-meets s (is_recorded order_id i.source_type) old found,
            )
      ]
    where
      same_source :
          (k : ℕ) (t : FinancialSource)
          → opt_eq (some k) (some k) && same_financial_source t t ≡ true
      same_source k t = ground arith

  -- An order has one entry of each source: once one is recorded, a second call for the same order and
  -- source changes nothing, whatever its amount is.
  record_financial_balance-once :
      (i j : LedgerInput) (a : ℤ) (order_id : ℕ) (s : L.State)
      → i.order_id ≡ some order_id
      → i.amount ≡ some a
      → eqb_ℤ a (pos 0) ≡ false
      → j.order_id ≡ some order_id
      → j.source_type ≡ i.source_type
      → record_financial_balance L j (record_financial_balance L i s)
        ≡ record_financial_balance L i s
  record_financial_balance-once i j a order_id s ho ha hz hj same =
      let (e, oe, te) = recorded_entry-there i a order_id s ho ha hz in
      recorded_entry-kept j order_id (record_financial_balance L i s) e hj oe (rw same te)
