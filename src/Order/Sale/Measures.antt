-- ===== src/Order/Sale/Measures.antt =====
-- Measures of finance events, and what the legs of a sale come to under them.
use elchi_backend.Prelude.{
  ℕ, ◌≡◌, refl, sym, ◌∙◌, inl, inr, Bool, true, false, Option, none, some, List, [], ◌∷◌, ◌++◌,
  if◌then◌else◌, Bool-cases, Option-cases, or_else, Text, arith,
}
use elchi_backend.Prelude.Int.{
  ℤ, pos, pos_part, neg_part, ◌+ℤ◌, ◌-ℤ◌, neg, ltb_ℤ, leb_ℤ, eqb_ℤ, int_laws,
}
use elchi_backend.Enums.{
  OperationType, income, expense, CashboxType, for_market, SourceType, sell, extra_cost, same_type,
}
use elchi_backend.Finance.Cashbox.{signed}
use elchi_backend.Order.Status.{waiting, is_sold_state}
use elchi_backend.Order.Sale.{
  Order, FinanceEvent, cashbox_update, sell_extra_cost, sell_profit, earning_record, Quote,
}
use elchi_backend.Order.Sale.Commit.{
  update_cashbox_balance, post_leg, relief_events, post_extra_cost, profit_events, earning_events,
  status_events, profit_snapshot,
}

abbrev pub type_is : CashboxType → Option CashboxType → Bool
type_is t none = false
type_is t (some u) = same_type u t

-- What an event moves the cashboxes of a type by, whatever its source.
abbrev pub cash_of : CashboxType → FinanceEvent → ℤ
cash_of t (cashbox_update d) =
    if type_is t d.selector.cashbox_type
    then signed d.operation_type (or_else d.amount (pos 0))
    else pos 0
cash_of t _ = pos 0

-- What an event books as the profit of a sale.
abbrev pub profit_of : FinanceEvent → ℤ
profit_of (sell_profit o a) = a
profit_of _ = pos 0

abbrev pub total_of : (FinanceEvent → ℤ) → List FinanceEvent → ℤ
total_of f [] = pos 0
total_of f (e ∷ es) = f e +ℤ total_of f es

pub zero_add : (a : ℤ) → pos 0 +ℤ a ≡ a
zero_add a = omega int_laws

pub add_zero : (a : ℤ) → a +ℤ pos 0 ≡ a
add_zero a = omega int_laws

pub add_assoc : (a b c : ℤ) → a +ℤ (b +ℤ c) ≡ a +ℤ b +ℤ c
add_assoc a b c = omega int_laws

pub total_of-append :
    (f : FinanceEvent → ℤ) (xs ys : List FinanceEvent)
    → total_of f (xs ++ ys) ≡ total_of f xs +ℤ total_of f ys
total_of-append f [] ys = sym (zero_add _)
total_of-append f (x ∷ xs) ys = rw (total_of-append f xs ys) (add_assoc _ _ _)

pub same_type_refl : (t : CashboxType) → same_type t t ≡ true
same_type_refl t = ground arith

pub update_cashbox_balance-same :
    (c : Quote) (epoch : Text) (u : ℕ) (v t : CashboxType) (a : ℤ) (o : OperationType)
    (source : SourceType)
    → same_type v t ≡ true
    → total_of (cash_of t) (update_cashbox_balance c epoch u v a o source)
      ≡ (if leb_ℤ a (pos 0) then pos 0 else signed o a)
unfolding update_cashbox_balance
update_cashbox_balance-same c epoch u v t a o source same = elim (Bool-cases (leb_ℤ a (pos 0))) [
  | inl z ↦ rw z refl
  | inr p ↦ rw (p, same) (add_zero (signed o a))
]

pub update_cashbox_balance-cash :
    (c : Quote) (epoch : Text) (u : ℕ) (t : CashboxType) (a : ℤ) (o : OperationType)
    (source : SourceType)
    → total_of (cash_of t) (update_cashbox_balance c epoch u t a o source)
      ≡ (if leb_ℤ a (pos 0) then pos 0 else signed o a)
update_cashbox_balance-cash c epoch u t a o source =
    update_cashbox_balance-same c epoch u t t a o source (same_type_refl t)

-- Nothing is posted to another type of cashbox, or as a profit.
pub update_cashbox_balance-other :
    (c : Quote) (epoch : Text) (u : ℕ) (t v : CashboxType) (a : ℤ) (o : OperationType)
    (source : SourceType)
    → same_type t v ≡ false
    → total_of (cash_of v) (update_cashbox_balance c epoch u t a o source) ≡ pos 0
unfolding update_cashbox_balance
update_cashbox_balance-other c epoch u t v a o source n = elim (Bool-cases (leb_ℤ a (pos 0))) [
  | inl z ↦ rw z refl
  | inr p ↦ rw (p, n) (add_zero (pos 0))
]

pub update_cashbox_balance-profit :
    (c : Quote) (epoch : Text) (u : ℕ) (t : CashboxType) (a : ℤ) (o : OperationType)
    (source : SourceType)
    → total_of profit_of (update_cashbox_balance c epoch u t a o source) ≡ pos 0
unfolding update_cashbox_balance
update_cashbox_balance-profit c epoch u t a o source = elim (Bool-cases (leb_ℤ a (pos 0))) [
  | inl z ↦ rw z refl
  | inr p ↦ rw p (add_zero (pos 0))
]

pub income_side :
    (x a : ℤ)
    → pos_part a ≡ pos_part x
    → ltb_ℤ (pos 0) a ≡ true
    → (leb_ℤ a (pos 0) ≡ false) × (a ≡ x)
income_side x a ha t = ground arith

pub expense_side :
    (x a b : ℤ)
    → pos_part a ≡ pos_part x
    → pos_part b ≡ neg_part x
    → ltb_ℤ (pos 0) a ≡ false
    → (if leb_ℤ b (pos 0) then pos 0 else neg b) ≡ x
unfolding neg ◌-ℤ◌
expense_side x a b ha hb t = ground arith

-- A leg whose two sides are the positive and the negative part of `x` moves its cashbox by `x`.
pub post_leg-cash :
    (c : Quote) (epoch : Text) (u : ℕ) (t : CashboxType) (x a b : ℤ)
    → pos_part a ≡ pos_part x
    → pos_part b ≡ neg_part x
    → total_of (cash_of t) (post_leg c epoch (some u) t a b) ≡ x
unfolding post_leg signed
post_leg-cash c epoch u t x a b ha hb = elim (Bool-cases (ltb_ℤ (pos 0) a)) [
  | inl i ↦
      let (p, e) = income_side x a ha i in
      rw i (update_cashbox_balance-cash c epoch u t a income sell ∙ rw p e)
  | inr z ↦
      rw z (update_cashbox_balance-cash c epoch u t b expense sell ∙ expense_side x a b ha hb z)
]

pub post_leg-other :
    (c : Quote) (epoch : Text) (o : Option ℕ) (t u : CashboxType) (a b : ℤ)
    → same_type t u ≡ false
    → total_of (cash_of u) (post_leg c epoch o t a b) ≡ pos 0
unfolding post_leg
post_leg-other c epoch none t u a b n = refl
post_leg-other c epoch (some w) t u a b n = elim (Bool-cases (ltb_ℤ (pos 0) a)) [
  | inl i ↦ rw i (update_cashbox_balance-other c epoch w t u a income sell n)
  | inr z ↦ rw z (update_cashbox_balance-other c epoch w t u b expense sell n)
]

pub post_leg-profit :
    (c : Quote) (epoch : Text) (o : Option ℕ) (t : CashboxType) (a b : ℤ)
    → total_of profit_of (post_leg c epoch o t a b) ≡ pos 0
unfolding post_leg
post_leg-profit c epoch none t a b = refl
post_leg-profit c epoch (some w) t a b = elim (Bool-cases (ltb_ℤ (pos 0) a)) [
  | inl i ↦ rw i (update_cashbox_balance-profit c epoch w t a income sell)
  | inr z ↦ rw z (update_cashbox_balance-profit c epoch w t b expense sell)
]

pub zeros : (a b : ℤ) → a ≡ pos 0 → b ≡ pos 0 → a +ℤ b ≡ pos 0
zeros a b ha hb = rw (ha, hb) (add_zero (pos 0))

-- The extra cost counts for nothing under a measure that ignores its legs and its ledger entry.
pub post_extra_cost-ignored :
    (f : FinanceEvent → ℤ) (c : Quote) (epoch : Text)
    → ((u : ℕ) (t : CashboxType)
        → total_of f (update_cashbox_balance c epoch u t c.extra_cost expense extra_cost) ≡ pos 0)
    → f (sell_extra_cost c.order.key (neg c.extra_cost)) ≡ pos 0
    → total_of f (post_extra_cost c epoch) ≡ pos 0
unfolding post_extra_cost relief_events
post_extra_cost-ignored f c epoch legs entry = elim (Bool-cases (ltb_ℤ (pos 0) c.extra_cost)) [
  | inl t ↦
      rw
        (
          t,
          total_of-append f
              (update_cashbox_balance c epoch c.order.market_id for_market c.extra_cost expense
                  extra_cost
                ++ relief_events c epoch c.expense_cashbox)
              (sell_extra_cost c.order.key (neg c.extra_cost) ∷ []),
          total_of-append f
              (update_cashbox_balance c epoch c.order.market_id for_market c.extra_cost expense
                extra_cost)
              (relief_events c epoch c.expense_cashbox),
        )
        (zeros _ _ (zeros _ _ (legs c.order.market_id for_market) (relief c.expense_cashbox))
          (zeros _ _ entry refl))
  | inr z ↦ rw z refl
]
  where
    relief : (o : Option (ℕ × CashboxType)) → total_of f (relief_events c epoch o) ≡ pos 0
    relief none = refl
    relief (some (u, t)) = legs u t

pub post_extra_cost-profit :
    (c : Quote) (epoch : Text) → total_of profit_of (post_extra_cost c epoch) ≡ pos 0
post_extra_cost-profit c epoch =
    post_extra_cost-ignored profit_of c epoch
      (λ u t. update_cashbox_balance-profit c epoch u t c.extra_cost expense extra_cost) refl

pub earning_events-ignored :
    (f : FinanceEvent → ℤ) (o : Order)
    → ((k u : ℕ) (t : ℤ) → f (earning_record k u t) ≡ pos 0)
    → total_of f (earning_events o) ≡ pos 0
earning_events-ignored f o h = elim (Option-cases o.operator_id) [
  | inl e ↦ rw e refl
  | inr (u, e) ↦ rw e (zeros _ _ (h o.key u o.total_price) refl)
]

pub profit_events-total :
    (f : FinanceEvent → ℤ) (o : Order)
    → total_of f (profit_events o) ≡ (
        if eqb_ℤ (profit_snapshot o) (pos 0)
        then pos 0
        else f (sell_profit o.key (profit_snapshot o)))
unfolding profit_events
profit_events-total f o = elim (Bool-cases (eqb_ℤ (profit_snapshot o) (pos 0))) [
  | inl z ↦ rw z refl
  | inr n ↦ rw n (add_zero _)
]

pub if_zero : (b : Bool) → (if b then pos 0 else pos 0) ≡ pos 0
if_zero b = ground arith

pub if_value : (a : ℤ) → (if eqb_ℤ a (pos 0) then pos 0 else a) ≡ a
if_value a = ground arith

pub status_events-total :
    (f : FinanceEvent → ℤ) (o : Order)
    → ((k u : ℕ) (t : ℤ) → f (earning_record k u t) ≡ pos 0)
    → is_sold_state o.status ≡ true
    → total_of f (status_events o waiting) ≡ total_of f (profit_events o)
unfolding status_events is_sold_state
status_events-total f o h hs =
    rw (hs, total_of-append f (earning_events o) (profit_events o), earning_events-ignored f o h)
      (zero_add _)
