-- ===== src/Order/Sale/Conserves.antt =====
-- The events of a sale leave no money unaccounted for.
use elchi_backend.Prelude.{ℕ, ◌≡◌, refl, ◌∙◌, true, none, some, List, ◌++◌, Text, arith}
use elchi_backend.Prelude.Int.{
  ℤ, pos, pos_part, neg_part, ◌+ℤ◌, ◌-ℤ◌, neg, max_zero, eqb_ℤ, int_laws,
}
use elchi_backend.Enums.{CashboxType, for_market, for_courier, branch}
use elchi_backend.Order.Status.{waiting, is_sold_state}
use elchi_backend.Order.Money.{sale_amounts, compute_sell_profit}
use elchi_backend.Order.Sale.{Order, FinanceEvent, Quote, Plan, amounts_of}
use elchi_backend.Order.Sale.Commit.{
  post_leg, post_extra_cost, sale_events, status_events, sold_order, profit_snapshot,
}
use elchi_backend.Order.Sale.Borne.{borne, post_extra_cost-cash}
use elchi_backend.Order.Sale.Measures.{
  cash_of, profit_of, total_of, total_of-append, post_leg-cash, post_leg-other, post_leg-profit,
  post_extra_cost-profit, profit_events-total, if_zero, if_value, status_events-total,
}

-- A measure of the events of a sale is the sum of its measures of the legs and the extra cost.
sale_events-total :
    (f : FinanceEvent → ℤ) (c : Quote) (epoch : Text) (x : ℤ)
    → total_of f (post_extra_cost c epoch) ≡ x
    → total_of f (sale_events c epoch)
      ≡ total_of f (
          post_leg c epoch
            (some c.order.market_id)
            for_market
            (amounts_of c).market_income
            (amounts_of c).market_expense)
        +ℤ total_of f (
            post_leg c epoch c.courier for_courier
              (amounts_of c).courier_income
              (amounts_of c).courier_expense)
        +ℤ total_of f (
            post_leg c epoch c.branch_cashbox branch
              (amounts_of c).branch_net
              (neg (amounts_of c).branch_net))
        +ℤ x
unfolding sale_events
sale_events-total f c epoch x h =
    rw
      (
        total_of-append f
            (post_leg c epoch (some c.order.market_id) for_market (amounts_of c).market_income
                (amounts_of c).market_expense
              ++ post_leg c epoch c.courier for_courier (amounts_of c).courier_income
                  (amounts_of c).courier_expense
              ++ post_leg c epoch c.branch_cashbox branch (amounts_of c).branch_net
                  (neg (amounts_of c).branch_net))
            (post_extra_cost c epoch),
        h,
        total_of-append f
            (post_leg c epoch (some c.order.market_id) for_market (amounts_of c).market_income
                (amounts_of c).market_expense
              ++ post_leg c epoch c.courier for_courier (amounts_of c).courier_income
                  (amounts_of c).courier_expense)
            (post_leg c epoch c.branch_cashbox branch (amounts_of c).branch_net
              (neg (amounts_of c).branch_net)),
        total_of-append f
            (post_leg c epoch (some c.order.market_id) for_market (amounts_of c).market_income
              (amounts_of c).market_expense)
            (post_leg c epoch c.courier for_courier (amounts_of c).courier_income
              (amounts_of c).courier_expense),
      )
      refl

pub market_parts :
    (t m : ℤ)
    → (pos_part (max_zero (t -ℤ m)) ≡ pos_part (t -ℤ m))
      × (pos_part (max_zero (m -ℤ t)) ≡ neg_part (t -ℤ m))
unfolding max_zero ◌-ℤ◌
market_parts t m = ground arith

pub neg_part-neg : (a : ℤ) → pos_part (neg a) ≡ neg_part a
unfolding neg ◌-ℤ◌
neg_part-neg a = ground arith

three : (e a b c x y z : ℤ) → a ≡ x → b ≡ y → c ≡ z → a +ℤ b +ℤ c +ℤ e ≡ x +ℤ y +ℤ z +ℤ e
three e a b c x y z ha hb hc = rw (ha, hb, hc) refl

module _ (c : Quote) (epoch : Text) where
  market_total :
      total_of (cash_of for_market) (sale_events c epoch)
      ≡ c.order.total_price -ℤ c.market_tariff -ℤ borne c for_market
  unfolding sale_amounts
  market_total =
      sale_events-total (cash_of for_market) c epoch _ (post_extra_cost-cash c epoch for_market)
      ∙ three _ _ _ _ (c.order.total_price -ℤ c.market_tariff) (pos 0) (pos 0)
          (post_leg-cash c epoch c.order.market_id for_market
            (c.order.total_price -ℤ c.market_tariff) (amounts_of c).market_income
            (amounts_of c).market_expense ((market_parts c.order.total_price c.market_tariff).0)
            ((market_parts c.order.total_price c.market_tariff).1))
          (post_leg-other c epoch c.courier for_courier for_market (amounts_of c).courier_income
            (amounts_of c).courier_expense refl)
          (post_leg-other c epoch c.branch_cashbox branch for_market (amounts_of c).branch_net
            (neg (amounts_of c).branch_net) refl)
      ∙ omega int_laws

  branch_total :
      (b : ℕ)
      → c.branch_cashbox ≡ some b
      → total_of (cash_of branch) (sale_events c epoch)
        ≡ c.order.total_price -ℤ c.courier_share -ℤ c.branch_share -ℤ borne c branch
  unfolding sale_amounts post_leg
  branch_total b e =
      sale_events-total (cash_of branch) c epoch _ (post_extra_cost-cash c epoch branch)
      ∙ three _ _ _ _ (pos 0) (pos 0) (c.order.total_price -ℤ c.courier_share -ℤ c.branch_share)
          (post_leg-other c epoch (some c.order.market_id) for_market branch
            (amounts_of c).market_income (amounts_of c).market_expense refl)
          (post_leg-other c epoch c.courier for_courier branch (amounts_of c).courier_income
            (amounts_of c).courier_expense refl)
          (rw e (
            post_leg-cash c epoch b branch (amounts_of c).branch_net (amounts_of c).branch_net
              (neg (amounts_of c).branch_net) refl (neg_part-neg (amounts_of c).branch_net)))
      ∙ omega int_laws

  courier_total :
      (u : ℕ)
      → c.courier ≡ some u
      → total_of (cash_of for_courier) (sale_events c epoch)
        ≡ c.order.total_price -ℤ c.courier_share -ℤ borne c for_courier
  unfolding sale_amounts post_leg
  courier_total u e =
      sale_events-total (cash_of for_courier) c epoch _ (post_extra_cost-cash c epoch for_courier)
      ∙ three _ _ _ _ (pos 0) (c.order.total_price -ℤ c.courier_share) (pos 0)
          (post_leg-other c epoch (some c.order.market_id) for_market for_courier
            (amounts_of c).market_income (amounts_of c).market_expense refl)
          (rw e (
            post_leg-cash c epoch u for_courier (c.order.total_price -ℤ c.courier_share)
              (amounts_of c).courier_income (amounts_of c).courier_expense
              ((market_parts c.order.total_price c.courier_share).0)
              ((market_parts c.order.total_price c.courier_share).1)))
          (post_leg-other c epoch c.branch_cashbox branch for_courier (amounts_of c).branch_net
            (neg (amounts_of c).branch_net) refl)
      ∙ omega int_laws

  profit_total : total_of profit_of (sale_events c epoch) ≡ pos 0
  profit_total =
      sale_events-total profit_of c epoch (pos 0) (post_extra_cost-profit c epoch)
      ∙ three _ _ _ _ (pos 0) (pos 0) (pos 0)
          (post_leg-profit c epoch (some c.order.market_id) for_market (amounts_of c).market_income
            (amounts_of c).market_expense)
          (post_leg-profit c epoch c.courier for_courier (amounts_of c).courier_income
            (amounts_of c).courier_expense)
          (post_leg-profit c epoch c.branch_cashbox branch (amounts_of c).branch_net
            (neg (amounts_of c).branch_net))
      ∙ omega int_laws

-- The profit that the ledger is told of, when no earlier sale has left a tariff on the order.
sold_order-profit :
    (p : Plan) (now : ℕ) (o : Order)
    → p.quote.order.market_tariff ≡ none
    → is_sold_state p.payment.next_status ≡ true
    → total_of profit_of (status_events (sold_order p now o) waiting)
      ≡ compute_sell_profit p.quote.market_tariff p.quote.courier_share p.quote.branch_share
unfolding sold_order profit_snapshot
sold_order-profit p now o fresh done =
    status_events-total profit_of (sold_order p now o) (λ k u t. refl) done
    ∙ profit_events-total profit_of (sold_order p now o)
    ∙ if_value (profit_snapshot (sold_order p now o))
    ∙ rw (fresh, profit_snapshot) refl

no_cash :
    (p : Plan) (now : ℕ) (o : Order) (t : CashboxType)
    → is_sold_state p.payment.next_status ≡ true
    → total_of (cash_of t) (status_events (sold_order p now o) waiting) ≡ pos 0
unfolding sold_order
no_cash p now o t done =
    status_events-total (cash_of t) (sold_order p now o) (λ k u x. refl) done
    ∙ profit_events-total (cash_of t) (sold_order p now o)
    ∙ if_zero (eqb_ℤ (profit_snapshot (sold_order p now o)) (pos 0))

total_of_both :
    (f : FinanceEvent → ℤ) (xs ys : List FinanceEvent) (x y : ℤ)
    → total_of f xs ≡ x
    → total_of f ys ≡ y
    → total_of f (xs ++ ys) ≡ x +ℤ y
total_of_both f xs ys x y hx hy = rw (total_of-append f xs ys, hx, hy) refl

-- All the events of a sale that was planned and finds its order waiting.
abbrev pub all_events : Plan → Text → ℕ → Order → List FinanceEvent
all_events p epoch now o = sale_events p.quote epoch ++ status_events (sold_order p now o) waiting

-- All the cashbox movements of a sale through a courier and a branch with cashboxes conserve money,
-- when no earlier sale has left a market tariff on the order and the next status is a sold one.
-- What the extra cost takes from a cashbox set aside (the market bears it, and the cashbox that is
-- relieved of it, if there is one, bears it too), the branch cashbox moves by what the market cashbox
-- moves by and the profit that the ledger is told of, and the courier's by what the branch cashbox
-- moves by and the share that the branch keeps.
pub commit_sale-conserves :
    (p : Plan) (epoch : Text) (now : ℕ) (o : Order) (courier b : ℕ)
    → p.quote.order.market_tariff ≡ none
    → is_sold_state p.payment.next_status ≡ true
    → p.quote.courier ≡ some courier
    → p.quote.branch_cashbox ≡ some b
    → let events = all_events p epoch now o in
      (total_of (cash_of branch) events +ℤ borne p.quote branch
        ≡ total_of (cash_of for_market) events
          +ℤ borne p.quote for_market
          +ℤ total_of profit_of events)
      × (total_of (cash_of for_courier) events +ℤ borne p.quote for_courier
          ≡ total_of (cash_of branch) events +ℤ borne p.quote branch +ℤ p.quote.branch_share)
unfolding compute_sell_profit
commit_sale-conserves p epoch now o courier b fresh done hc hb =
    let c = p.quote in
    let later = status_events (sold_order p now o) waiting in
    rw
      (
        total_of_both (cash_of branch) (sale_events c epoch) later _ _ (branch_total c epoch b hb)
            (no_cash p now o branch done),
        total_of_both (cash_of for_market) (sale_events c epoch) later _ _ (market_total c epoch)
            (no_cash p now o for_market done),
        total_of_both (cash_of for_courier) (sale_events c epoch) later _ _
            (courier_total c epoch courier hc) (no_cash p now o for_courier done),
        total_of_both profit_of (sale_events c epoch) later _ _ (profit_total c epoch)
            (sold_order-profit p now o fresh done),
      )
      (omega int_laws, omega int_laws)
