-- ===== src/Order/Rollback/Cancels.antt =====
-- A rollback takes back what the sale has posted.
use elchi_backend.Prelude.{
  ℕ, ◌≡◌, refl, ap, ◌∙◌, Bool, true, false, ◌&&◌, ◌||◌, Option, none, some, [], ◌∷◌, ◌++◌, or_else,
  Text, arith,
}
use elchi_backend.Prelude.Int.{ℤ, pos, ◌+ℤ◌, ◌-ℤ◌, neg, max_zero, int_laws}
use elchi_backend.Enums.{CashboxType, for_market, for_courier, branch}
use elchi_backend.Order.Status.{OrderStatus, sold, paid, partly_paid, is_sold_state, same_status}
use elchi_backend.Order.Money.{sale_amounts}
use elchi_backend.Order.Sale.{Quote, Plan, amounts_of, Lookups, Requester, SellDto}
use elchi_backend.Order.Sale.Commit.{post_leg, post_extra_cost, sale_events, sold_order}
use elchi_backend.Order.Sale.Measures.{total_of, total_of-append}
use elchi_backend.Order.Sale.Conserves.{market_parts, neg_part-neg}
use elchi_backend.Order.Sale.Plans.{plan_sale}
use elchi_backend.Order.Sale.Once.{sale_payment-is_sold_state, plan_sale-payment}
use elchi_backend.Order.Settlement.{SettlementStatus}
use elchi_backend.Prelude.Results.{ok}
use elchi_backend.Order.Rollback.{Reversal, RollbackLookups, RollbackTarget}
use elchi_backend.Order.Rollback.Guards.{plan_rollback-eq-ok, plan_rollback-reverses}
use elchi_backend.Order.Rollback.Plans.{
  among, sold_states, cancelled_states, plan_rollback, reversal_of,
}
use elchi_backend.Order.Rollback.Commit.{
  reverse_leg, extra_steps, ledger_steps, recorded_amounts, reversed_legs, leg_steps,
  does_sale_reversal, rollback_steps, rollback_events,
}
use elchi_backend.Order.Rollback.Moves.{
  move_of, touch, touch_opt, steps_total, steps_total-append, number_steps-total, post_leg-move,
  reverse_leg-move, touch_opt-cancels,
}
use elchi_backend.Order.Rollback.Extras.{
  extra_move, post_extra_cost-move, extra_steps-move, ledger_steps-move, sum_cancels,
  extra_move-cancels,
}

-- The three legs of a sale, as moves.
abbrev three_legs : ℕ → CashboxType → ℕ → Option ℕ → Option ℕ → ℤ → ℤ → ℤ → ℤ
three_legs v s market courier b x y z =
    touch v s market for_market x +ℤ touch_opt v s courier for_courier y +ℤ touch_opt v s b branch z

sum_cancels3 :
    (a b c d e f : ℤ)
    → a +ℤ d ≡ pos 0
    → b +ℤ e ≡ pos 0
    → c +ℤ f ≡ pos 0
    → (a +ℤ b +ℤ c) +ℤ (d +ℤ e +ℤ f) ≡ pos 0
sum_cancels3 a b c d e f h k l = sum_cancels (a +ℤ b) c (d +ℤ e) f (sum_cancels a b d e h k) l

three_legs-cancels :
    (v : ℕ) (s : CashboxType) (m : ℕ) (c b : Option ℕ) (x y z : ℤ)
    → three_legs v s m c b x y z +ℤ three_legs v s m c b (neg x) (neg y) (neg z) ≡ pos 0
three_legs-cancels v s m c b x y z =
    sum_cancels3 _ _ _ _ _ _ (touch_opt-cancels v s (some m) for_market x)
      (touch_opt-cancels v s c for_courier y) (touch_opt-cancels v s b branch z)

sale_legs-move :
    (v : ℕ) (s : CashboxType) (c : Quote) (epoch : Text)
    → total_of (move_of v s) (sale_events c epoch)
      ≡ three_legs v s c.order.market_id c.courier c.branch_cashbox
          (c.order.total_price -ℤ c.market_tariff)
          (c.order.total_price -ℤ c.courier_share)
          (amounts_of c).branch_net
        +ℤ extra_move v s c.order.market_id c.expense_cashbox (neg (max_zero c.extra_cost))
unfolding sale_events sale_amounts
sale_legs-move v s c epoch =
    let a = amounts_of c in
    let (m, n) = market_parts c.order.total_price c.market_tariff in
    let (x, y) = market_parts c.order.total_price c.courier_share in
    total_of-append (move_of v s) _ (post_extra_cost c epoch)
    ∙ rw
        (
          total_of-append (move_of v s)
              (post_leg c epoch (some c.order.market_id) for_market a.market_income a.market_expense
                ++ post_leg c epoch c.courier for_courier a.courier_income a.courier_expense)
              (post_leg c epoch c.branch_cashbox branch a.branch_net (neg a.branch_net)),
          total_of-append (move_of v s)
              (post_leg c epoch (some c.order.market_id) for_market a.market_income
                a.market_expense)
              (post_leg c epoch c.courier for_courier a.courier_income a.courier_expense),
          post_leg-move v s c epoch (some c.order.market_id) for_market
              (c.order.total_price -ℤ c.market_tariff) a.market_income a.market_expense m n,
          post_leg-move v s c epoch c.courier for_courier (c.order.total_price -ℤ c.courier_share)
              a.courier_income a.courier_expense x y,
          post_leg-move v s c epoch c.branch_cashbox branch a.branch_net a.branch_net
              (neg a.branch_net) refl (neg_part-neg a.branch_net),
          post_extra_cost-move v s c epoch,
        )
        refl

reversed_legs-move :
    (v : ℕ) (s : CashboxType) (r : Reversal) (total tariff share branch_share : ℤ)
    → let a = sale_amounts total tariff share branch_share in
      steps_total v s (reversed_legs r a a.branch_net)
      ≡ three_legs v s r.order.market_id r.courier r.branch_cashbox
          (neg (total -ℤ tariff))
          (neg (total -ℤ share))
          (neg a.branch_net)
unfolding sale_amounts
reversed_legs-move v s r total tariff share branch_share =
    let a = sale_amounts total tariff share branch_share in
    let (m, w) = market_parts total tariff in
    let (x, y) = market_parts total share in
    rw
      (
        steps_total-append v s
            (reverse_leg (some r.order.market_id) for_market a.market_income a.market_expense
              ++ reverse_leg r.courier for_courier a.courier_income a.courier_expense)
            (reverse_leg r.branch_cashbox branch a.branch_net (neg a.branch_net)),
        steps_total-append v s
            (reverse_leg (some r.order.market_id) for_market a.market_income a.market_expense)
            (reverse_leg r.courier for_courier a.courier_income a.courier_expense),
        reverse_leg-move v s (some r.order.market_id) for_market (total -ℤ tariff) a.market_income
            a.market_expense m w,
        reverse_leg-move v s r.courier for_courier (total -ℤ share) a.courier_income
            a.courier_expense x y,
        reverse_leg-move v s r.branch_cashbox branch a.branch_net a.branch_net (neg a.branch_net)
            refl (neg_part-neg a.branch_net),
      )
      refl

-- The reversed legs, of the amounts that the sale had.
leg_steps-move :
    (v : ℕ) (s : CashboxType) (r : Reversal) (total tariff share branch_share : ℤ)
    → let a = sale_amounts total tariff share branch_share in
      recorded_amounts r ≡ a
      → or_else r.order.branch_cashbox_amount (recorded_amounts r).branch_net ≡ a.branch_net
      → steps_total v s (leg_steps r)
        ≡ three_legs v s r.order.market_id r.courier r.branch_cashbox
            (neg (total -ℤ tariff))
            (neg (total -ℤ share))
            (neg a.branch_net)
unfolding leg_steps
leg_steps-move v s r total tariff share branch_share e n =
    ap
      (λ a.
        steps_total v s (
          reversed_legs r a
            (or_else r.order.branch_cashbox_amount (recorded_amounts r).branch_net)))
      e
    ∙ ap
        (λ net.
          steps_total v s (reversed_legs r (sale_amounts total tariff share branch_share) net))
        n
    ∙ reversed_legs-move v s r total tariff share branch_share

sale_is_reversed :
    (r : Reversal)
    → does_sale_reversal r ≡ true
    → (among sold_states r.order.status ≡ true) × (among cancelled_states r.order.status ≡ false)
sale_is_reversed r h = states r.order.status r.is_super_admin h
  where
    states :
        (s : OrderStatus) (b : Bool)
        → among (sold ∷ paid ∷ []) s || (same_status s partly_paid && b) ≡ true
        → (among sold_states s ≡ true) × (among cancelled_states s ≡ false)
    states s b h = ground arith

rollback_steps-move :
    (v : ℕ) (s : CashboxType) (r : Reversal)
    → does_sale_reversal r ≡ true
    → steps_total v s (rollback_steps r)
      ≡ steps_total v s (leg_steps r) +ℤ steps_total v s (extra_steps r)
unfolding rollback_steps
rollback_steps-move v s r h =
    let (x, y) = sale_is_reversed r h in
    rw
      (
        x,
        y,
        h,
        steps_total-append v s (extra_steps r ++ ledger_steps r ++ leg_steps r) [],
        steps_total-append v s (extra_steps r ++ ledger_steps r) (leg_steps r),
        steps_total-append v s (extra_steps r) (ledger_steps r),
        ledger_steps-move v s r,
      )
      (rearranged (steps_total v s (extra_steps r)) (steps_total v s (leg_steps r)))
  where
    rearranged : (a b : ℤ) → a +ℤ pos 0 +ℤ b +ℤ pos 0 ≡ b +ℤ a
    rearranged a b = omega int_laws

-- The amounts on record after a sale are those of the sale.
recorded_amounts-sold :
    (p : Plan) (r : Reversal) (now : ℕ)
    → r.order ≡ sold_order p now p.quote.order
    → r.market_tariff ≡ p.quote.market_tariff
    → recorded_amounts r ≡ amounts_of p.quote
unfolding recorded_amounts sold_order
recorded_amounts-sold p r now e ht =
    ap
      (λ o.
        sale_amounts o.total_price r.market_tariff (or_else o.courier_share r.courier_tariff)
          (or_else o.branch_share (pos 0)))
      e
    ∙ ap (λ t. sale_amounts p.quote.order.total_price t p.quote.courier_share p.quote.branch_share)
        ht

recorded_net :
    (p : Plan) (r : Reversal) (now : ℕ)
    → r.order ≡ sold_order p now p.quote.order
    → or_else r.order.branch_cashbox_amount (recorded_amounts r).branch_net
      ≡ (amounts_of p.quote).branch_net
unfolding sold_order
recorded_net p r now e = ap (λ o. or_else o.branch_cashbox_amount (recorded_amounts r).branch_net) e

reversal-cancels-sale :
    (p : Plan) (r : Reversal) (now : ℕ) (epoch epoch' : Text) (v : ℕ) (s : CashboxType)
    → r.order ≡ sold_order p now p.quote.order
    → r.market_tariff ≡ p.quote.market_tariff
    → r.courier ≡ p.quote.courier
    → r.branch_cashbox ≡ p.quote.branch_cashbox
    → r.expense_cashbox ≡ p.quote.expense_cashbox
    → r.market_extra ≡ p.quote.extra_cost
    → r.actor_extra ≡ p.quote.extra_cost
    → does_sale_reversal r ≡ true
    → total_of (move_of v s) (sale_events p.quote epoch)
        +ℤ total_of (move_of v s) (rollback_events r epoch')
      ≡ pos 0
unfolding rollback_events sold_order recorded_amounts
reversal-cancels-sale p r now epoch epoch' v s e ht hc hb hx hm ha h =
    let c = p.quote in
    let total = c.order.total_price in
    rw
      (
        sale_legs-move v s c epoch,
        number_steps-total v s r epoch' 0 (rollback_steps r),
        rollback_steps-move v s r h,
        leg_steps-move v s r total c.market_tariff c.courier_share c.branch_share
            (recorded_amounts-sold p r now e ht) (recorded_net p r now e),
        extra_steps-move v s r c.extra_cost hm ha,
        hc,
        hb,
        hx,
        ap (λ o. o.market_id) e,
      )
      (sum_cancels _ _ _ _
        (three_legs-cancels v s c.order.market_id c.courier c.branch_cashbox _ _ _)
        (extra_move-cancels v s c.order.market_id c.expense_cashbox (max_zero c.extra_cost)))

planned_tariff :
    (x : RollbackLookups) (q : Requester) (p : Plan) (now : ℕ)
    (settlement : Option SettlementStatus) (target : RollbackTarget) (r : Reversal)
    → plan_rollback x q (sold_order p now p.quote.order) settlement target ≡ ok r
    → p.quote.order.market_tariff ≡ none
    → (r.order ≡ sold_order p now p.quote.order) × (r.market_tariff ≡ p.quote.market_tariff)
unfolding sold_order reversal_of
planned_tariff x q p now settlement target r h fresh =
    let (_, _, courier, market, actor, e) =
      plan_rollback-eq-ok x q (sold_order p now p.quote.order) settlement target r h in
    (
      ap (λ z. z.order) e,
      ap (λ z. z.market_tariff) e ∙ ap (λ t. or_else t p.quote.market_tariff) fresh,
    )

-- The rollback of a planned sale takes back what the sale has posted, when no earlier sale has left
-- a market tariff on the order, the rollback is planned on the order as the sale has left it, it
-- finds the courier and the cashboxes of the sale, and the latest extra costs on record are that of
-- the sale: on each cashbox, of whatever owner and type, the postings of the sale and the
-- corrections of the rollback come to nothing.
pub rollback-cancels-sale :
    (l : Lookups) (q : Requester) (dto : SellDto) (p : Plan) (now : ℕ) (x : RollbackLookups)
    (q' : Requester) (settlement : Option SettlementStatus) (target : RollbackTarget) (r : Reversal)
    (epoch epoch' : Text) (owner : ℕ) (t : CashboxType)
    → plan_sale l q p.quote.order dto ≡ ok p
    → plan_rollback x q' (sold_order p now p.quote.order) settlement target ≡ ok r
    → p.quote.order.market_tariff ≡ none
    → r.courier ≡ p.quote.courier
    → r.branch_cashbox ≡ p.quote.branch_cashbox
    → r.expense_cashbox ≡ p.quote.expense_cashbox
    → r.market_extra ≡ p.quote.extra_cost
    → r.actor_extra ≡ p.quote.extra_cost
    → total_of (move_of owner t) (sale_events p.quote epoch)
        +ℤ total_of (move_of owner t) (rollback_events r epoch')
      ≡ pos 0
unfolding sold_order is_sold_state
rollback-cancels-sale l q dto p now x q' settlement target r epoch epoch' owner t planned back fresh
      hc hb hx hm ha =
    let (e, tariff) = planned_tariff x q' p now settlement target r back fresh in
    let done =
      sale_payment-is_sold_state (amounts_of p.quote).market_income p.quote.requested
        p.quote.market_balance p.payment (plan_sale-payment l q p.quote.order dto p planned).1 in
    reversal-cancels-sale p r now epoch epoch' owner t e tariff hc hb hx hm ha (
      (plan_rollback-reverses x q' (sold_order p now p.quote.order) settlement target r back).0
      ∙ done)
