-- ===== src/Finance/Ledger/Recorded.antt =====
-- The ledger as the set of the entries that orders have: which sources are recorded for an order.
use elchi_backend.Prelude.{
  ℕ, ◌≡◌, refl, sym, ap, ◌∙◌, inl, inr, Bool, true, false, not, ◌&&◌, ◌||◌, Option, none, some,
  List, [], ◌∷◌, ◌++◌, ◌==◌, any, if◌then◌else◌, opt_eq, Bool-cases, Option-cases, not-any-Occurs,
  arith,
}
use elchi_backend.Prelude.Int.{ℤ, pos, eqb_ℤ}
use elchi_backend.Store.{Table}
use elchi_backend.Finance.Ledger.{
  FinancialSource, FinancialSource_code, same_financial_source, LedgerEntry, LedgerInput,
  is_recorded, recorded_entry, next_entry, record_financial_balance,
}

-- The input is an entry of the source for the order.
abbrev pub is_counted : Option ℤ → Bool
is_counted none = false
is_counted (some a) = not (eqb_ℤ a (pos 0))

abbrev pub asks_for : ℕ → FinancialSource → LedgerInput → Bool
asks_for order_id source i =
    is_counted i.amount
    && (opt_eq i.order_id (some order_id) && same_financial_source i.source_type source)

any-append :
    (q : LedgerEntry → Bool) (xs : List LedgerEntry) (x : LedgerEntry)
    → any q (xs ++ x ∷ []) ≡ any q xs || q x
any-append q [] x = last (q x)
  where
    last : (b : Bool) → (if b then true else false) ≡ b
    last true = refl
    last false = refl
any-append q (y ∷ ys) x = more (q y) (any-append q ys x)
  where
    more :
        (b : Bool)
        → any q (ys ++ x ∷ []) ≡ any q ys || q x
        → (if b then true else any q (ys ++ x ∷ [])) ≡ (if b then true else any q ys) || q x
    more true h = refl
    more false h = h

or_false : (b : Bool) → b || false ≡ b
or_false b = ground arith

or_assoc : (a b c : Bool) → (a || b) || c ≡ a || (b || c)
or_assoc a b c = ground arith

module _ (L : Table LedgerEntry LedgerEntry.key) where
  -- The abstract view: an order has an entry of a source.
  abbrev pub has_entry : ℕ → FinancialSource → L.State → Bool
  has_entry order_id source s = any (is_recorded order_id source) (L.rows s)

  -- An entry that is found for an input is one of all orders and sources that the input is for.
  pub found-covers :
      (i : LedgerInput) (s : L.State) (old : LedgerEntry) (o : ℕ) (t : FinancialSource)
      → recorded_entry L i s ≡ some old
      → opt_eq i.order_id (some o) && same_financial_source i.source_type t ≡ true
      → has_entry o t s ≡ true
  unfolding recorded_entry
  found-covers i s old o t found asked = elim (Option-cases i.order_id) [
    | inl n ↦ let nothing : none ≡ some old = rw n at found in cc
    | inr (k, e) ↦
        let found' : L.find_one s (is_recorded k i.source_type) ≡ some old = rw e at found in
        let asked' : opt_eq (some k) (some o) && same_financial_source i.source_type t ≡ true =
          rw e at asked in
        elim (Bool-cases (has_entry o t s)) [
          | inl y ↦ y
          | inr n ↦
              (cc (
                not-any-Occurs (is_recorded o t) (L.rows s) old n
                    (L.find_one-Occurs s (is_recorded k i.source_type) old found'),
                covers old.order_id k o (FinancialSource_code old.source_type)
                    (FinancialSource_code i.source_type) (FinancialSource_code t)
                    (L.find_one-meets s (is_recorded k i.source_type) old found') asked',
              ))
        ]
  ]
    where
      covers :
          (w : Option ℕ) (k o a b c : ℕ)
          → opt_eq w (some k) && (a == b) ≡ true
          → opt_eq (some k) (some o) && (b == c) ≡ true
          → opt_eq w (some o) && (a == c) ≡ true
      covers none k o a b c h g = cc
      covers (some j) k o a b c h g = ground arith

  -- `recordFinancialBalance` adds to the set what is asked for, and nothing else.
  pub record_financial_balance-has_entry :
      (i : LedgerInput) (s : L.State) (o : ℕ) (t : FinancialSource)
      → has_entry o t (record_financial_balance L i s) ≡ has_entry o t s || asks_for o t i
  unfolding record_financial_balance next_entry
  record_financial_balance-has_entry i s o t = elim (Option-cases i.amount) [
    | inl n ↦ rw (record_financial_balance, n) (sym (or_false (has_entry o t s)))
    | inr (a, ea) ↦ elim (Bool-cases (eqb_ℤ a (pos 0))) [
      | inl z ↦ rw (record_financial_balance, ea, z) (sym (or_false (has_entry o t s)))
      | inr nz ↦ elim (Option-cases (recorded_entry L i s)) [
        | inl gone ↦
            rw (record_financial_balance, ea, nz, gone)
              (ap (any (is_recorded o t)) (L.rows-insert s (next_entry L i a s))
                ∙ any-append (is_recorded o t) (L.rows s) (next_entry L i a s))
        | inr (old, found) ↦
            rw (record_financial_balance, ea, nz, found)
              (kept (opt_eq i.order_id (some o) && same_financial_source i.source_type t)
                (has_entry o t s) (found-covers i s old o t found))
      ]
    ]
  ]
    where
      kept : (asked b : Bool) → (asked ≡ true → b ≡ true) → b ≡ b || asked
      kept true b h = rw (h refl) refl
      kept false b h = sym (or_false b)

  -- A series of calls.
  abbrev pub record_all : List LedgerInput → L.State → L.State
  record_all [] s = s
  record_all (i ∷ inputs) s = record_all inputs (record_financial_balance L i s)

  -- After a series of calls the set has what it had and what the calls ask for.
  pub record_all-has_entry :
      (inputs : List LedgerInput) (s : L.State) (o : ℕ) (t : FinancialSource)
      → has_entry o t (record_all inputs s) ≡ has_entry o t s || any (asks_for o t) inputs
  record_all-has_entry [] s o t = sym (or_false (has_entry o t s))
  record_all-has_entry (i ∷ inputs) s o t =
      record_all-has_entry inputs (record_financial_balance L i s) o t
      ∙ ap (λ b. b || any (asks_for o t) inputs) (record_financial_balance-has_entry i s o t)
      ∙ or_assoc (has_entry o t s) (asks_for o t i) (any (asks_for o t) inputs)
      ∙ ap (λ b. has_entry o t s || b) (as_if (asks_for o t i) (any (asks_for o t) inputs))
    where
      as_if : (a b : Bool) → a || b ≡ (if a then true else b)
      as_if true b = refl
      as_if false b = refl
