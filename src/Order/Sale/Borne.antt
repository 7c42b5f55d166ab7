-- ===== src/Order/Sale/Borne.antt =====
-- What the extra cost of a sale comes to in the cashboxes.
use elchi_backend.Prelude.{
  ℕ, ◌≡◌, refl, sym, ◌∙◌, inl, inr, true, false, Option, none, some, [], ◌∷◌, ◌++◌, if◌then◌else◌,
  Bool-cases, Text, arith,
}
use elchi_backend.Prelude.Int.{
  ℤ, pos, ◌+ℤ◌, neg, ltb_ℤ, leb_ℤ, max_zero, ◌<ℤ◌, ◌≤ℤ◌, parts_zero, int_laws,
}
use elchi_backend.Enums.{expense, CashboxType, for_market, extra_cost, same_type}
use elchi_backend.Finance.Cashbox.{signed}
use elchi_backend.Order.Sale.{sell_extra_cost, Quote}
use elchi_backend.Order.Sale.Commit.{update_cashbox_balance, relief_events, post_extra_cost}
use elchi_backend.Order.Sale.Measures.{
  cash_of, total_of, total_of-append, update_cashbox_balance-same, update_cashbox_balance-other,
}

-- What the extra cost of a sale takes from the cashboxes of a type: the market bears it, and so does
-- the cashbox that is relieved of it, if there is one.
abbrev pub share_of_extra : CashboxType → CashboxType → ℤ → ℤ
share_of_extra v t a = if same_type v t then max_zero a else pos 0

abbrev pub relieved_of : CashboxType → Option (ℕ × CashboxType) → ℤ → ℤ
relieved_of t none a = pos 0
relieved_of t (some (u, v)) a = share_of_extra v t a

abbrev pub borne : Quote → CashboxType → ℤ
borne c t = share_of_extra for_market t c.extra_cost +ℤ relieved_of t c.expense_cashbox c.extra_cost

not_le : (a : ℤ) → ltb_ℤ (pos 0) a ≡ true → leb_ℤ a (pos 0) ≡ false
not_le a h = ground arith

lt_of_ltb : (a : ℤ) → ltb_ℤ (pos 0) a ≡ true → pos 0 <ℤ a
lt_of_ltb a h = ground arith

le_of_not_ltb : (a : ℤ) → ltb_ℤ (pos 0) a ≡ false → a ≤ℤ pos 0
le_of_not_ltb a h = ground arith

max_positive : (a : ℤ) → pos 0 <ℤ a → max_zero a ≡ a
max_positive a h = omega (int_laws, parts_zero a)

max_nothing : (a : ℤ) → a ≤ℤ pos 0 → max_zero a ≡ pos 0
max_nothing a h = omega (int_laws, parts_zero a)

neg_zero : neg (pos 0) ≡ pos 0
neg_zero = omega int_laws

extra_leg :
    (c : Quote) (epoch : Text) (u : ℕ) (v t : CashboxType)
    → ltb_ℤ (pos 0) c.extra_cost ≡ true
    → total_of (cash_of t) (update_cashbox_balance c epoch u v c.extra_cost expense extra_cost)
      ≡ neg (share_of_extra v t c.extra_cost)
unfolding signed
extra_leg c epoch u v t more = elim (Bool-cases (same_type v t)) [
  | inr n ↦
      update_cashbox_balance-other c epoch u v t c.extra_cost expense extra_cost n
      ∙ rw n (sym neg_zero)
  | inl y ↦
      update_cashbox_balance-same c epoch u v t c.extra_cost expense extra_cost y
      ∙ rw (y, not_le c.extra_cost more, max_positive c.extra_cost (lt_of_ltb c.extra_cost more))
          refl
]

share_of_nothing :
    (v t : CashboxType) (a : ℤ) → ltb_ℤ (pos 0) a ≡ false → share_of_extra v t a ≡ pos 0
share_of_nothing v t a z = elim (Bool-cases (same_type v t)) [
  | inl y ↦ rw (y, max_nothing a (le_of_not_ltb a z)) refl
  | inr n ↦ rw n refl
]

relieved_of_nothing :
    (t : CashboxType) (o : Option (ℕ × CashboxType)) (a : ℤ)
    → ltb_ℤ (pos 0) a ≡ false
    → relieved_of t o a ≡ pos 0
relieved_of_nothing t none a z = refl
relieved_of_nothing t (some (u, v)) a z = share_of_nothing v t a z

neg_zeros : pos 0 ≡ neg (pos 0 +ℤ pos 0)
neg_zeros = omega int_laws

pub post_extra_cost-cash :
    (c : Quote) (epoch : Text) (t : CashboxType)
    → total_of (cash_of t) (post_extra_cost c epoch) ≡ neg (borne c t)
unfolding post_extra_cost relief_events
post_extra_cost-cash c epoch t = elim (Bool-cases (ltb_ℤ (pos 0) c.extra_cost)) [
  | inr z ↦
      rw
        (
          z,
          share_of_nothing for_market t c.extra_cost z,
          relieved_of_nothing t c.expense_cashbox c.extra_cost z,
        )
        neg_zeros
  | inl y ↦
      rw
        (
          y,
          total_of-append (cash_of t)
              (update_cashbox_balance c epoch c.order.market_id for_market c.extra_cost expense
                  extra_cost
                ++ relief_events c epoch c.expense_cashbox)
              (sell_extra_cost c.order.key (neg c.extra_cost) ∷ []),
          total_of-append (cash_of t)
              (update_cashbox_balance c epoch c.order.market_id for_market c.extra_cost expense
                extra_cost)
              (relief_events c epoch c.expense_cashbox),
          extra_leg c epoch c.order.market_id for_market t y,
          relief y c.expense_cashbox,
        )
        (sum_up _ _)
]
  where
    sum_up : (a b : ℤ) → neg a +ℤ neg b +ℤ (pos 0 +ℤ pos 0) ≡ neg (a +ℤ b)
    sum_up a b = omega int_laws

    relief :
        ltb_ℤ (pos 0) c.extra_cost ≡ true
        → (o : Option (ℕ × CashboxType))
        → total_of (cash_of t) (relief_events c epoch o) ≡ neg (relieved_of t o c.extra_cost)
    relief y none = sym neg_zero
    relief y (some (u, v)) = extra_leg c epoch u v t y
