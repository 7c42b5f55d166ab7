-- ===== src/Finance/Ledger/Running.antt =====
-- The running balance of the ledger is the sum of its entries.
use elchi_backend.Prelude.{
  ℕ, ◌≤◌, ◌<◌, ◌≡◌, ◌⊎◌, refl, sym, ap, ◌∙◌, inl, inr, Bool, true, false, not, none, some, List, [],
  ◌∷◌, ◌++◌, leb, if◌then◌else◌, Bool-cases, Option-cases, List-cases, Occurs, Occurs-append,
  All-Occurs, arith,
}
use elchi_backend.Prelude.Int.{ℤ, pos, ◌+ℤ◌, eqb_ℤ, int_laws}
use elchi_backend.Store.{Table, IsAscending}
use elchi_backend.Finance.Ledger.{
  LedgerEntry, LedgerInput, last_of, balance_of, current_balance, recorded_entry, next_entry,
  record_financial_balance,
}

-- The amounts of the entries up to a key.
abbrev pub sum_upto : ℕ → List LedgerEntry → ℤ
sum_upto k [] = pos 0
sum_upto k (e ∷ es) = (if leb e.key k then e.amount else pos 0) +ℤ sum_upto k es

abbrev pub sum_of : List LedgerEntry → ℤ
sum_of [] = pos 0
sum_of (e ∷ es) = e.amount +ℤ sum_of es

zero_add : (a : ℤ) → pos 0 +ℤ a ≡ a
zero_add a = omega int_laws

add_zero : (a : ℤ) → a +ℤ pos 0 ≡ a
add_zero a = omega int_laws

add_assoc : (a b c : ℤ) → a +ℤ (b +ℤ c) ≡ a +ℤ b +ℤ c
add_assoc a b c = omega int_laws

sum_upto-append :
    (k : ℕ) (xs ys : List LedgerEntry) → sum_upto k (xs ++ ys) ≡ sum_upto k xs +ℤ sum_upto k ys
sum_upto-append k [] ys = sym (zero_add _)
sum_upto-append k (x ∷ xs) ys = rw (sum_upto-append k xs ys) (add_assoc _ _ _)

leb-true : (a b : ℕ) → a ≤ b → leb a b ≡ true
leb-true a b h = ground arith

leb-false : (a b : ℕ) → b < a → leb a b ≡ false
leb-false a b h = ground arith

-- Up to a key that no entry exceeds, it is the sum of all.
sum_upto-all :
    (k : ℕ) (xs : List LedgerEntry)
    → ((e : LedgerEntry) → Occurs e xs → e.key ≤ k)
    → sum_upto k xs ≡ sum_of xs
sum_upto-all k [] h = refl
sum_upto-all k (x ∷ xs) h =
    rw (leb-true x.key k (h x (inl refl)), sum_upto-all k xs (λ e o. h e (inr o))) refl

last_of-Occurs : {A : Type 0} (xs : List A) (x : A) → last_of xs ≡ some x → Occurs x xs
last_of-Occurs [] x h = cc
last_of-Occurs (y ∷ ys) x h = elim (Option-cases (last_of ys)) [
  | inl e ↦ let e' : some y ≡ some x = rw e at h in inl (cc)
  | inr (z, e) ↦ let e' : some z ≡ some x = rw e at h in inr (last_of-Occurs ys x (cc))
]

last_of-none : {A : Type 0} (xs : List A) → last_of xs ≡ none → xs ≡ []
last_of-none [] h = refl
last_of-none (y ∷ ys) h = elim (Option-cases (last_of ys)) [
  | inl e ↦ let e' : some y ≡ none = rw e at h in cc
  | inr (z, e) ↦ let e' : some z ≡ none = rw e at h in cc
]

le_of_eq : (a b : LedgerEntry) → a ≡ b → a.key ≤ b.key
le_of_eq a b h = rw h (omega arith)

last_of-greatest :
    (xs : List LedgerEntry) (x e : LedgerEntry)
    → IsAscending LedgerEntry.key xs
    → last_of xs ≡ some x
    → Occurs e xs
    → e.key ≤ x.key
last_of-greatest [] x e s h o = elim o [ ]
last_of-greatest (y ∷ ys) x e (a, s) h o = elim (Option-cases (last_of ys)) [
  | inl n ↦ let h' : some y ≡ some x = rw n at h in only (last_of-none ys n) (cc) o
  | inr (z, n) ↦
      let h' : some z ≡ some x = rw n at h in
      let h'' : last_of ys ≡ some x = (cc) in later h'' (last_of-greatest ys x e s h'') o
]
  where
    only : ys ≡ [] → y ≡ x → (e ≡ y) ⊎ Occurs e ys → e.key ≤ x.key
    only n yx (inl ey) = le_of_eq e x (ey ∙ yx)
    only n yx (inr oy) = elim (rw n at oy) [ ]

    later :
        last_of ys ≡ some x → (Occurs e ys → e.key ≤ x.key) → (e ≡ y) ⊎ Occurs e ys → e.key ≤ x.key
    later l rest (inl ey) = rw ey (All-Occurs (λ z. y.key ≤ z.key) ys x a (last_of-Occurs ys x l))
    later l rest (inr oy) = rest oy

module _ (L : Table LedgerEntry LedgerEntry.key) where
  -- Every entry stands for itself and has as its balance the sum of the entries up to it.
  abbrev pub IsRunning : L.State → Type 0
  IsRunning s =
      (e : LedgerEntry)
      → Occurs e (L.rows s)
      → (e.is_deleted ≡ false)
        × (e.balance_after ≡ sum_upto e.key (L.rows s))
        × (e.balance_after ≡ e.balance_before +ℤ e.amount)

  -- The entry with the greatest key of those that meet a condition which all meet has the sum of all
  -- as its balance.
  balance_of-last :
      (q : LedgerEntry → Bool) (s : L.State)
      → IsRunning s
      → ((e : LedgerEntry) → Occurs e (L.rows s) → q e ≡ true)
      → balance_of (last_of (L.find_by s q LedgerEntry.key)) ≡ sum_of (L.rows s)
  balance_of-last q s run all =
      let found = L.find_by s q LedgerEntry.key in
      elim (Option-cases (last_of found)) [
        | inl n ↦ rw n (sym (empty (last_of-none found n) (List-cases (L.rows s))))
        | inr (x, e) ↦
            let ox = (L.find_by-Occurs s q LedgerEntry.key x (last_of-Occurs found x e)).0 in
            rw e (
              (run x ox).1
              ∙ sum_upto-all x.key (L.rows s) (λ r o.
                last_of-greatest found x r (L.find_by-IsAscending s q LedgerEntry.key) e
                  (L.find_by-all s q LedgerEntry.key r o (all r o))))
      ]
    where
      empty :
          L.find_by s q LedgerEntry.key ≡ []
          → (L.rows s ≡ []) ⊎ ((x : LedgerEntry) × (ys : List LedgerEntry) × (L.rows s ≡ x ∷ ys))
          → sum_of (L.rows s) ≡ pos 0
      empty n (inl e) = rw e refl
      empty n (inr (x, ys, e)) =
          let ox : Occurs x (L.rows s) = rw e (inl refl) in
          elim (rw n at (L.find_by-all s q LedgerEntry.key x ox (all x ox))) [ ]

  -- The sum up to a key, after an entry is appended.
  sum_upto-insert :
      (k : ℕ) (s : L.State) (e : LedgerEntry)
      → sum_upto k (L.rows (L.insert s e))
        ≡ sum_upto k (L.rows s) +ℤ (if leb e.key k then e.amount else pos 0)
  sum_upto-insert k s e =
      ap (sum_upto k) (L.rows-insert s e)
      ∙ sum_upto-append k (L.rows s) (e ∷ [])
      ∙ ap (λ z. sum_upto k (L.rows s) +ℤ z) (add_zero _)

  insert-IsRunning :
      (i : LedgerInput) (a : ℤ) (s : L.State)
      → IsRunning s
      → IsRunning (L.insert s (next_entry L i a s))
  unfolding next_entry
  insert-IsRunning i a s run e o =
      let new = next_entry L i a s in
      elim (Occurs-append (L.rows s) (new ∷ []) e (rw (L.rows-insert s new) at o)) [
        | inl old ↦
            let (alive, total, step) = run e old in
            (
              alive,
              total
                  ∙ sym (
                      sum_upto-insert e.key s new
                      ∙ ap (λ b. sum_upto e.key (L.rows s) +ℤ (if b then a else pos 0))
                          (leb-false (L.next_key s) e.key (L.next_key-lt s e old))
                      ∙ add_zero _),
              step,
            )
        | inr (inl e') ↦ rw e' (
          refl,
          ap (λ z. z +ℤ a)
                (balance_of-last (λ x. true) s run (λ x ox. refl)
                  ∙ sym (sum_upto-all (L.next_key s) (L.rows s) (λ x ox. below x ox)))
              ∙ sym (
                  sum_upto-insert (L.next_key s) s new
                  ∙ ap (λ b. sum_upto (L.next_key s) (L.rows s) +ℤ (if b then a else pos 0))
                      (leb-true (L.next_key s) (L.next_key s) (omega arith))),
          refl,
        )
        | inr (inr none_left) ↦ elim none_left [ ]
      ]
    where
      below : (x : LedgerEntry) → Occurs x (L.rows s) → x.key ≤ L.next_key s
      below x ox = omega (arith, L.next_key-lt s x ox)

  -- `recordFinancialBalance` keeps the ledger consistent with itself, whatever is recorded: no entry
  -- is deleted, and the balance of each is the sum of the entries up to it and the balance before it
  -- with its amount.
  pub record_financial_balance-IsRunning :
      (i : LedgerInput) (s : L.State) → IsRunning s → IsRunning (record_financial_balance L i s)
  unfolding record_financial_balance
  record_financial_balance-IsRunning i s run = elim (Option-cases i.amount) [
    | inl n ↦ rw (record_financial_balance, n) run
    | inr (a, e) ↦ elim (Bool-cases (eqb_ℤ a (pos 0))) [
      | inl t ↦ rw (record_financial_balance, e, t) run
      | inr f ↦ elim (Option-cases (recorded_entry L i s)) [
        | inl n ↦ rw (record_financial_balance, e, f, n) (insert-IsRunning i a s run)
        | inr (old, n) ↦ rw (record_financial_balance, e, f, n) run
      ]
    ]
  ]

  -- The current balance, which is read off one row, is the sum of all entries of a ledger that is
  -- consistent with itself.
  pub current_balance-sum : (s : L.State) → IsRunning s → current_balance L s ≡ sum_of (L.rows s)
  unfolding current_balance
  current_balance-sum s run =
      balance_of-last (λ e. not e.is_deleted) s run (λ e o. ap not (run e o).0)
