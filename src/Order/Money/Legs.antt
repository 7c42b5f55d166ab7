-- ===== src/Order/Money/Legs.antt =====
-- The legs of a sale add up to its total.
use elchi_backend.Prelude.{◌+◌, ◌*◌, ◌≡◌, arith, ◌≤◌, ap}
use elchi_backend.Prelude.Int.{
  ℤ, pos, negsuc, ◌+ℤ◌, ◌-ℤ◌, ◌≤ℤ◌, max_zero, neg, pos_part, neg_part, int_laws,
}
use elchi_backend.Order.Money.{
  round2, SaleShareInputs, compute_sale_legs, sale_amounts, compute_sell_profit,
}

-- An amount with two decimals, in ten-thousandths.
abbrev pub cents : ℤ → ℤ
cents (pos n) = pos (n * 100)
cents (negsuc n) = neg (pos ((n + 1) * 100))

-- Four roundings to hundreds, each off by at most 50.
round2_error :
    (a : ℤ)
    → (pos_part (round2 a) + neg_part a ≤ pos_part a + neg_part (round2 a) + 50)
      × (pos_part a + neg_part (round2 a) ≤ pos_part (round2 a) + neg_part a + 50)
unfolding round2
round2_error (pos n) = (omega arith, omega arith)
round2_error (negsuc n) = (omega int_laws, omega int_laws)

round2-cents : (a : ℤ) → round2 (cents a) ≡ cents a
unfolding round2 neg ◌-ℤ◌
round2-cents (pos n) = ap pos (omega arith)
round2-cents (negsuc n) = ground arith

sub-cents : (a b : ℤ) → cents a -ℤ cents b ≡ cents (a -ℤ b)
unfolding neg ◌-ℤ◌
sub-cents a b = ground arith

legs_sum : (t m c b : ℤ) → (t -ℤ m) +ℤ c +ℤ b +ℤ (m -ℤ c -ℤ b) ≡ t
legs_sum t m c b = omega int_laws

-- The identity on which the comment of `computeSaleLegs` insists holds of all amounts with two
-- decimals: what the market receives, what the courier and the branch keep and the profit of the
-- company add up to the total.
compute_sale_legs-conserves :
    (total market_tariff courier_share branch_share : ℤ)
    → let legs = compute_sale_legs (record {
      total = cents total;
      market_tariff = cents market_tariff;
      courier_share = cents courier_share;
      branch_share = cents branch_share;
    }) in
      legs.market_receivable +ℤ legs.courier_kept +ℤ legs.branch_kept +ℤ legs.hq_profit
      ≡ cents total
unfolding compute_sale_legs
compute_sale_legs-conserves t m c b =
    rw
      (
        sub-cents t m,
        sub-cents m c,
        sub-cents (m -ℤ c) b,
        round2-cents (t -ℤ m),
        round2-cents c,
        round2-cents b,
        round2-cents (m -ℤ c -ℤ b),
        ← sub-cents t m,
        ← sub-cents (m -ℤ c) b,
        ← sub-cents m c,
      )
      (legs_sum (cents t) (cents m) (cents c) (cents b))

-- Of amounts with more decimals the four parts add up to the total only within two hundredths of a
-- som: each rounding is off by half a hundredth at most.
pub compute_sale_legs-error :
    (i : SaleShareInputs)
    → let legs = compute_sale_legs i in
      let sum = legs.market_receivable +ℤ legs.courier_kept +ℤ legs.branch_kept +ℤ legs.hq_profit in
      (sum ≤ℤ i.total +ℤ pos 200) × (i.total ≤ℤ sum +ℤ pos 200)
unfolding compute_sale_legs
compute_sale_legs-error i =
    let e1 = round2_error (i.total -ℤ i.market_tariff) in
    let e2 = round2_error i.courier_share in
    let e3 = round2_error i.branch_share in
    let e4 = round2_error (i.market_tariff -ℤ i.courier_share -ℤ i.branch_share) in
    (omega int_laws, omega int_laws)

max_zero_diff : (a b : ℤ) → max_zero (a -ℤ b) -ℤ max_zero (b -ℤ a) ≡ a -ℤ b
unfolding max_zero ◌-ℤ◌
max_zero_diff a b = ground arith

-- What the three cashboxes are moved by: the branch is left owing what the market is owed and the
-- profit of the company, and the courier what the branch owes and the share of the branch.
sale_amounts-conserves :
    (total market_tariff courier_share branch_share : ℤ)
    → let a = sale_amounts total market_tariff courier_share branch_share in
      (a.branch_net
        ≡ (a.market_income -ℤ a.market_expense)
          +ℤ compute_sell_profit market_tariff courier_share branch_share)
      × ((a.courier_income -ℤ a.courier_expense) ≡ a.branch_net +ℤ branch_share)
unfolding sale_amounts compute_sell_profit
sale_amounts-conserves t m c b =
    (rw (max_zero_diff t m) (omega int_laws), rw (max_zero_diff t c) (omega int_laws))
