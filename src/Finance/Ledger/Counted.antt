-- ===== src/Finance/Ledger/Counted.antt =====
-- How many entries of a source the orders have in the ledger.
use elchi_backend.Prelude.{
  ℕ, suc, ◌≡◌, refl, sym, ap, ◌∙◌, inl, inr, Bool, true, false, not, ◌&&◌, ◌||◌, none, some, List,
  [], ◌∷◌, ◌++◌, ◌==◌, any, if◌then◌else◌, opt_eq, Bool-cases, Option-cases, arith,
}
use elchi_backend.Prelude.Int.{pos, eqb_ℤ}
use elchi_backend.Store.{Table}
use elchi_backend.Finance.Ledger.{
  FinancialSource, FinancialSource_code, same_financial_source, LedgerEntry, LedgerInput,
  is_recorded, recorded_entry, next_entry, record_financial_balance,
}
use elchi_backend.Finance.Ledger.Recorded.{
  asks_for, has_entry, found-covers, record_financial_balance-has_entry, record_all,
  record_all-has_entry,
}

abbrev pub count : (LedgerEntry → Bool) → List LedgerEntry → ℕ
count q [] = 0
count q (x ∷ xs) = if q x then suc (count q xs) else count q xs

count-append :
    (q : LedgerEntry → Bool) (xs : List LedgerEntry) (x : LedgerEntry)
    → count q (xs ++ x ∷ []) ≡ (if q x then suc (count q xs) else count q xs)
count-append q [] x = refl
count-append q (y ∷ ys) x = elim (Bool-cases (q y)) [
  | inr n ↦ rw n (count-append q ys x)
  | inl t ↦
      rw (t, count-append q ys x)
        (elim (Bool-cases (q x)) [ inl u ↦ rw u refl | inr f ↦ rw f refl ])
]

count-none : (q : LedgerEntry → Bool) (xs : List LedgerEntry) → any q xs ≡ false → count q xs ≡ 0
count-none q [] h = refl
count-none q (x ∷ xs) h = elim (Bool-cases (q x)) [
  | inl t ↦ (cc (rw t at h))
  | inr n ↦ rw n (count-none q xs (rw n at h))
]

module _ (L : Table LedgerEntry LedgerEntry.key) where
  abbrev pub entries_of : ℕ → FinancialSource → L.State → ℕ
  entries_of order_id source s = count (is_recorded order_id source) (L.rows s)

  -- When nothing is found for an input, the orders and sources that it is for have no entry.
  unfound-misses :
      (i : LedgerInput) (s : L.State) (o : ℕ) (t : FinancialSource)
      → recorded_entry L i s ≡ none
      → opt_eq i.order_id (some o) && same_financial_source i.source_type t ≡ true
      → has_entry L o t s ≡ false
  unfolding recorded_entry
  unfound-misses i s o t unfound asked = elim (Option-cases i.order_id) [
    | inl n ↦ (cc (rw n at asked))
    | inr (k, e) ↦
        let (ko, same) =
          parts k o (FinancialSource_code i.source_type) (FinancialSource_code t) (rw e at asked) in
        let nothing : L.find_one s (is_recorded k i.source_type) ≡ none = rw e at unfound in
        ap
          (λ n.
            any
              (λ (x : LedgerEntry).
                opt_eq x.order_id (some o) && (FinancialSource_code x.source_type == n))
              (L.rows s))
          (sym same)
        ∙ ap (λ j. any (is_recorded j i.source_type) (L.rows s)) (sym ko)
        ∙ L.find_one-none s (is_recorded k i.source_type) nothing
  ]
    where
      parts : (k o a b : ℕ) → opt_eq (some k) (some o) && (a == b) ≡ true → (k ≡ o) × (a ≡ b)
      parts k o a b h = ground arith

  -- A call adds one entry when it asks for one that is not there, and else none.
  record_financial_balance-entries_of :
      (i : LedgerInput) (s : L.State) (o : ℕ) (t : FinancialSource)
      → entries_of o t (record_financial_balance L i s) ≡ (
          if asks_for o t i && not (has_entry L o t s)
          then suc (entries_of o t s)
          else entries_of o t s)
  unfolding record_financial_balance next_entry
  record_financial_balance-entries_of i s o t = elim (Option-cases i.amount) [
    | inl n ↦ rw (record_financial_balance, n) refl
    | inr (a, ea) ↦ elim (Bool-cases (eqb_ℤ a (pos 0))) [
      | inl z ↦ rw (record_financial_balance, ea, z) refl
      | inr nz ↦ elim (Option-cases (recorded_entry L i s)) [
        | inl gone ↦
            rw (record_financial_balance, ea, nz, gone)
              (ap (count (is_recorded o t)) (L.rows-insert s (next_entry L i a s))
                ∙ count-append (is_recorded o t) (L.rows s) (next_entry L i a s)
                ∙ added (opt_eq i.order_id (some o) && same_financial_source i.source_type t)
                    (has_entry L o t s) (suc (entries_of o t s)) (entries_of o t s)
                    (unfound-misses i s o t gone))
        | inr (old, found) ↦
            rw (record_financial_balance, ea, nz, found)
              (kept (opt_eq i.order_id (some o) && same_financial_source i.source_type t)
                (has_entry L o t s) (suc (entries_of o t s)) (entries_of o t s)
                (found-covers L i s old o t found))
      ]
    ]
  ]
    where
      added :
          (asked b : Bool) (m n : ℕ)
          → (asked ≡ true → b ≡ false)
          → (if asked then m else n) ≡ (if asked && not b then m else n)
      added true b m n h = rw (h refl) refl
      added false b m n h = refl

      kept :
          (asked b : Bool) (m n : ℕ)
          → (asked ≡ true → b ≡ true)
          → n ≡ (if asked && not b then m else n)
      kept true b m n h = rw (h refl) refl
      kept false b m n h = refl

  -- The ledger refines a set of pairs of an order and a source. After a series of calls the set has
  -- what it had and what the calls ask for, in whatever order and however often; a pair that was not
  -- in the set and is asked for has one entry, and a pair that was in the set has no more entries
  -- than before.
  pub record_all-refines :
      (inputs : List LedgerInput) (s : L.State) (o : ℕ) (t : FinancialSource)
      → (has_entry L o t (record_all L inputs s) ≡ has_entry L o t s || any (asks_for o t) inputs)
        × (entries_of o t (record_all L inputs s) ≡ (
            if has_entry L o t s
            then entries_of o t s
            else if any (asks_for o t) inputs
            then 1
            else 0))
  record_all-refines inputs s o t = (record_all-has_entry L inputs s o t, counted inputs s)
    where
      both :
          (b a rest : Bool) (n : ℕ)
          → (b ≡ false → n ≡ 0)
          → (if b || a then (if a && not b then suc n else n) else if rest then 1 else 0)
            ≡ (if b then n else if (if a then true else rest) then 1 else 0)
      both true true rest n h = refl
      both true false rest n h = refl
      both false true rest n h = ap (λ m. suc m) (h refl)
      both false false rest n h = refl

      counted :
          (inputs : List LedgerInput) (s : L.State)
          → entries_of o t (record_all L inputs s) ≡ (
              if has_entry L o t s
              then entries_of o t s
              else if any (asks_for o t) inputs
              then 1
              else 0)
      counted [] s = elim (Bool-cases (has_entry L o t s)) [
        | inl y ↦ rw y refl
        | inr n ↦ rw n (count-none (is_recorded o t) (L.rows s) n)
      ]
      counted (i ∷ inputs) s =
          counted inputs (record_financial_balance L i s)
          ∙ rw
              (
                record_financial_balance-has_entry L i s o t,
                record_financial_balance-entries_of i s o t,
              )
              (both (has_entry L o t s) (asks_for o t i) (any (asks_for o t) inputs)
                (entries_of o t s) (count-none (is_recorded o t) (L.rows s)))
