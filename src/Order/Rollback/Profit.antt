-- ===== src/Order/Rollback/Profit.antt =====
-- What the ledger of the finance service is told when a sale is rolled back.
use elchi_backend.Prelude.{
  ℕ, suc, ◌≡◌, ◌⊎◌, refl, sym, ap, ◌∙◌, inl, inr, Bool, true, false, ◌&&◌, Option, none, some, List,
  [], ◌∷◌, ◌++◌, Bool-cases, Option-cases, Occurs, Occurs-append, Occurs-append_left, All,
  All-append, Text,
}
use elchi_backend.Prelude.Int.{ℤ, pos, eqb_ℤ}
use elchi_backend.Store.{Table}
use elchi_backend.Finance.Ledger.{
  LedgerEntry, LedgerInput, FinancialSource, same_financial_source, recorded_entry, next_entry,
  record_financial_balance,
}
use elchi_backend.Finance.Ledger as Ledger
use elchi_backend.Order.Status.{OrderStatus, is_sold_state, same_status, waiting}
use elchi_backend.Order.Sale.{
  Order, FinanceEvent, cashbox_update, sell_extra_cost, sell_profit, cancel_extra_cost,
  ledger_correction, earning_record, earning_remove,
}
use elchi_backend.Order.Sale.Commit.{status_events, removal_events}
use elchi_backend.Order.Rollback.{
  RollbackTarget, to_waiting, to_cancelled, to_cancelled_sent, Reversal, Step, correct, enter,
}
use elchi_backend.Order.Rollback.Commit.{
  number_steps, rollback_steps, rollback_events, rolled_back, final_status,
}
use elchi_backend.Order.Rollback.Once.{rolled_back-status}

abbrev entry_of : FinancialSource → ℕ → ℤ → ℕ → LedgerInput
entry_of source order_id a market = record {
  amount = some a;
  source_type = source;
  order_id = some order_id;
  related_user_id = some market;
  created_by = none;
}

-- The payload of `finance.financial_balance.record`, for an order of a market.
abbrev pub ledger_input : ℕ → FinanceEvent → Option LedgerInput
ledger_input market (sell_extra_cost o a) = some (entry_of Ledger.sell_extra_cost o a market)
ledger_input market (sell_profit o a) = some (entry_of Ledger.sell_profit o a market)
ledger_input market (cancel_extra_cost o a) = some (entry_of Ledger.cancel_extra_cost o a market)
ledger_input market (ledger_correction o a) = some (entry_of Ledger.correction o a market)
ledger_input market _ = none

-- An event that would be booked as the profit of a sale.
abbrev pub is_profit : FinanceEvent → Bool
is_profit (sell_profit o a) = true
is_profit _ = false

abbrev NoProfit : FinanceEvent → Type 0
NoProfit e = is_profit e ≡ false

number_steps-NoProfit :
    (r : Reversal) (epoch : Text) (n : ℕ) (steps : List Step)
    → All NoProfit (number_steps r epoch n steps)
unfolding number_steps
number_steps-NoProfit r epoch n [] = tt
number_steps-NoProfit r epoch n (enter a ∷ steps) = (refl, number_steps-NoProfit r epoch n steps)
number_steps-NoProfit r epoch n (correct u t a o ∷ steps) =
    (refl, number_steps-NoProfit r epoch (suc n) steps)

unsold_target : (t : RollbackTarget) → is_sold_state (final_status t) ≡ false
unfolding is_sold_state
unsold_target to_waiting = refl
unsold_target to_cancelled = refl
unsold_target to_cancelled_sent = refl

removal_events-NoProfit : (o : Order) → All NoProfit (removal_events o)
removal_events-NoProfit o = elim (Option-cases o.operator_id) [
  | inl e ↦ rw e tt
  | inr (u, e) ↦ rw e (refl, tt)
]

status_events-NoProfit :
    (o : Order) (old : OrderStatus)
    → is_sold_state o.status ≡ false
    → All NoProfit (status_events o old)
unfolding status_events
status_events-NoProfit o old h =
    elim (Bool-cases (same_status o.status waiting && is_sold_state old)) [
      | inl t ↦ rw (status_events, h, t) (removal_events-NoProfit o)
      | inr n ↦ rw (status_events, h, n) tt
    ]

module _ (L : Table LedgerEntry LedgerEntry.key) where
  abbrev record_if : Option LedgerInput → L.State → L.State
  record_if none s = s
  record_if (some i) s = record_financial_balance L i s

  -- The events of an order of a market, as the ledger hears them.
  unfoldable pub hear_all : ℕ → List FinanceEvent → L.State → L.State
  hear_all market [] s = s
  hear_all market (e ∷ es) s = hear_all market es (record_if (ledger_input market e) s)

  -- What a call adds to the ledger has the source that was asked for, and nothing is lost.
  record_financial_balance-Occurs :
      (i : LedgerInput) (s : L.State) (e : LedgerEntry)
      → (Occurs e (L.rows s) → Occurs e (L.rows (record_financial_balance L i s)))
        × (Occurs e (L.rows (record_financial_balance L i s))
            → Occurs e (L.rows s) ⊎ (e.source_type ≡ i.source_type))
  unfolding record_financial_balance next_entry
  record_financial_balance-Occurs i s e = elim (Option-cases i.amount) [
    | inl n ↦ rw (record_financial_balance, n) (λ o. o, λ o. inl o)
    | inr (a, ea) ↦ elim (Bool-cases (eqb_ℤ a (pos 0))) [
      | inl t ↦ rw (record_financial_balance, ea, t) (λ o. o, λ o. inl o)
      | inr f ↦ elim (Option-cases (recorded_entry L i s)) [
        | inl n ↦
            rw (record_financial_balance, ea, f, n, L.rows-insert s (next_entry L i a s))
              (
                λ o. Occurs-append_left (L.rows s) (next_entry L i a s ∷ []) e o,
                λ o. added a (Occurs-append (L.rows s) (next_entry L i a s ∷ []) e o),
              )
        | inr (old, n) ↦ rw (record_financial_balance, ea, f, n) (λ o. o, λ o. inl o)
      ]
    ]
  ]
    where
      added :
          (a : ℤ)
          → Occurs e (L.rows s) ⊎ Occurs e (next_entry L i a s ∷ [])
          → Occurs e (L.rows s) ⊎ (e.source_type ≡ i.source_type)
      added a (inl o) = inl o
      added a (inr (inl h)) = inr (ap (λ z. z.source_type) h)
      added a (inr (inr h)) = elim h [ ]

  hear_all-profit :
      (market : ℕ) (events : List FinanceEvent) (s : L.State) (e : LedgerEntry)
      → All NoProfit events
      → e.source_type ≡ Ledger.sell_profit
      → (Occurs e (L.rows s) → Occurs e (L.rows (hear_all market events s)))
        × (Occurs e (L.rows (hear_all market events s)) → Occurs e (L.rows s))
  unfolding hear_all
  hear_all-profit market [] s e none_of p = (λ o. o, λ o. o)
  hear_all-profit market (x ∷ xs) s e (nx, rest) p =
      let (there, back) =
        hear_all-profit market xs (record_if (ledger_input market x) s) e rest p in
      let (to, from) = heard x nx in (λ o. there (to o), λ o. from (back o))
    where
      not_new :
          (i : LedgerInput)
          → same_financial_source i.source_type Ledger.sell_profit ≡ false
          → Occurs e (L.rows s) ⊎ (e.source_type ≡ i.source_type)
          → Occurs e (L.rows s)
      not_new i other (inl o) = o
      not_new i other (inr h) =
          (cc (ap (λ z. same_financial_source z Ledger.sell_profit) (sym p ∙ h), other))

      entered :
          (i : LedgerInput)
          → same_financial_source i.source_type Ledger.sell_profit ≡ false
          → (Occurs e (L.rows s) → Occurs e (L.rows (record_financial_balance L i s)))
            × (Occurs e (L.rows (record_financial_balance L i s)) → Occurs e (L.rows s))
      entered i other =
          let (kept, new) = record_financial_balance-Occurs i s e in
          (kept, λ o. not_new i other (new o))

      heard :
          (x : FinanceEvent)
          → is_profit x ≡ false
          → (Occurs e (L.rows s) → Occurs e (L.rows (record_if (ledger_input market x) s)))
            × (Occurs e (L.rows (record_if (ledger_input market x) s)) → Occurs e (L.rows s))
      heard (cashbox_update d) h = (λ o. o, λ o. o)
      heard (sell_extra_cost o a) h = entered _ refl
      heard (sell_profit o a) h = cc
      heard (cancel_extra_cost o a) h = entered _ refl
      heard (ledger_correction o a) h = entered _ refl
      heard (earning_record o u t) h = (λ o. o, λ o. o)
      heard (earning_remove k) h = (λ o. o, λ o. o)

  -- A rollback leaves the ledger with the profit of the sale: when the ledger has heard all its
  -- events, the entries of profits are those that it had before.
  rollback-keeps-profit :
      (r : Reversal) (o : Order) (market : ℕ) (epoch : Text) (s : L.State) (e : LedgerEntry)
      → e.source_type ≡ Ledger.sell_profit
      → let events = rollback_events r epoch ++ status_events (rolled_back r o) o.status in
        (Occurs e (L.rows s) → Occurs e (L.rows (hear_all market events s)))
        × (Occurs e (L.rows (hear_all market events s)) → Occurs e (L.rows s))
  unfolding rollback_events
  rollback-keeps-profit r o market epoch s e p =
      hear_all-profit market
        (number_steps r epoch 0 (rollback_steps r) ++ status_events (rolled_back r o) o.status) s e
        (All-append NoProfit (number_steps r epoch 0 (rollback_steps r))
          (status_events (rolled_back r o) o.status)
          (number_steps-NoProfit r epoch 0 (rollback_steps r))
          (status_events-NoProfit (rolled_back r o) o.status
            (ap is_sold_state (rolled_back-status r o) ∙ unsold_target r.target)))
        p
