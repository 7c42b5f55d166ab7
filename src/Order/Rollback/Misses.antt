-- ===== src/Order/Rollback/Misses.antt =====
-- The role of whoever rolls back decides which cashboxes the corrections go to, whoever has sold.
use elchi_backend.Prelude.{
  ℕ, ◌≡◌, refl, ap, ◌∙◌, inl, inr, Bool, true, false, not, ◌&&◌, Option, none, some, List, [], ◌++◌,
  ◌==◌, if◌then◌else◌, Bool-cases, Option-cases, or_else, Text,
}
use elchi_backend.Prelude.Int.{ℤ, pos, neg, ltb_ℤ}
use elchi_backend.Prelude.Results.{ok}
use elchi_backend.Enums.{CashboxType, for_market, for_courier, branch, same_type}
use elchi_backend.Order.Settlement.{SettlementStatus}
use elchi_backend.Order.Sale.{Order, Requester, Lookups}
use elchi_backend.Order.Sale.Measures.{total_of, zeros}
use elchi_backend.Order.Sale.Plans.{only_if}
use elchi_backend.Order.Rollback.{RollbackTarget, RollbackLookups, Reversal, Step}
use elchi_backend.Order.Rollback.Plans.{
  among, sold_states, cancelled_states, plan_rollback, reversal_of, bearer_of,
  rolls_back_for_branch, has_courier_cashbox,
}
use elchi_backend.Order.Rollback.Guards.{plan_rollback-eq-ok}
use elchi_backend.Order.Rollback.Commit.{
  reverse_leg, market_extra_steps, actor_extra_steps, extra_steps, ledger_steps, recorded_amounts,
  leg_steps, does_sale_reversal, rollback_steps, rollback_events,
}
use elchi_backend.Order.Rollback.Moves.{
  move_of, touch, steps_total, steps_total-append, number_steps-total,
}
use elchi_backend.Order.Rollback.Extras.{
  touch_pair, market_extra_steps-move, actor_extra_steps-move, ledger_steps-move,
}

-- A leg to a cashbox of another type moves nothing.
touch-other :
    (v : ℕ) (s : CashboxType) (u : ℕ) (t : CashboxType) (a : ℤ)
    → same_type t s ≡ false
    → touch v s u t a ≡ pos 0
touch-other v s u t a h = nothing (u == v) (same_type t s) h
  where
    nothing : (b c : Bool) → c ≡ false → (if b && c then a else pos 0) ≡ pos 0
    nothing true c h = rw h refl
    nothing false c h = refl

reverse_leg-other :
    (v : ℕ) (s : CashboxType) (w : Option ℕ) (t : CashboxType) (a b : ℤ)
    → same_type t s ≡ false
    → steps_total v s (reverse_leg w t a b) ≡ pos 0
reverse_leg-other v s none t a b h = refl
reverse_leg-other v s (some u) t a b h = elim (Bool-cases (ltb_ℤ (pos 0) a)) [
  | inl i ↦ rw i (zeros _ _ (touch-other v s u t _ h) refl)
  | inr n ↦ elim (Bool-cases (ltb_ℤ (pos 0) b)) [
    | inl i ↦ rw (n, i) (zeros _ _ (touch-other v s u t _ h) refl)
    | inr m ↦ rw (n, m) refl
  ]
]

append-nothing :
    (v : ℕ) (s : CashboxType) (xs ys : List Step)
    → steps_total v s xs ≡ pos 0
    → steps_total v s ys ≡ pos 0
    → steps_total v s (xs ++ ys) ≡ pos 0
append-nothing v s xs ys hx hy = rw (steps_total-append v s xs ys) (zeros _ _ hx hy)

if-nothing :
    (v : ℕ) (s : CashboxType) (b : Bool) (xs : List Step)
    → steps_total v s xs ≡ pos 0
    → steps_total v s (if b then xs else []) ≡ pos 0
if-nothing v s true xs h = h
if-nothing v s false xs h = refl

-- A reversal without a courier's cashbox, in which no courier bears the extra cost.
rollback_steps-nothing :
    (v : ℕ) (r : Reversal)
    → r.courier ≡ none
    → ((a : ℤ) → touch_pair v for_courier r.expense_cashbox a ≡ pos 0)
    → steps_total v for_courier (rollback_steps r) ≡ pos 0
unfolding rollback_steps leg_steps
rollback_steps-nothing v r hc hx =
    append-nothing v for_courier _
      (if among cancelled_states r.order.status then extra_steps r else [])
      (append-nothing v for_courier
        (if among sold_states r.order.status then extra_steps r ++ ledger_steps r else [])
        (if does_sale_reversal r then leg_steps r else [])
        (if-nothing v for_courier (among sold_states r.order.status)
          (extra_steps r ++ ledger_steps r)
          (append-nothing v for_courier (extra_steps r) (ledger_steps r) extra
            (ledger_steps-move v for_courier r)))
        (if-nothing v for_courier (does_sale_reversal r) (leg_steps r) legs))
      (if-nothing v for_courier (among cancelled_states r.order.status) (extra_steps r) extra)
  where
    extra : steps_total v for_courier (extra_steps r) ≡ pos 0
    extra =
        append-nothing v for_courier (market_extra_steps r) (actor_extra_steps r r.expense_cashbox)
          (market_extra_steps-move v for_courier r
            ∙ touch-other v for_courier r.order.market_id for_market _ refl)
          (actor_extra_steps-move v for_courier r r.expense_cashbox ∙ hx _)

    courier_leg :
        (w : Option ℕ) (a b : ℤ)
        → w ≡ none
        → steps_total v for_courier (reverse_leg w for_courier a b) ≡ pos 0
    courier_leg w a b e = rw e refl

    legs : steps_total v for_courier (leg_steps r) ≡ pos 0
    legs =
        let a = recorded_amounts r in
        let net = or_else r.order.branch_cashbox_amount a.branch_net in
        let market =
          reverse_leg (some r.order.market_id) for_market a.market_income a.market_expense in
        let courier = reverse_leg r.courier for_courier a.courier_income a.courier_expense in
        append-nothing v for_courier (market ++ courier)
          (reverse_leg r.branch_cashbox branch net (neg net))
          (append-nothing v for_courier market courier
            (reverse_leg-other v for_courier (some r.order.market_id) for_market a.market_income
              a.market_expense refl)
            (courier_leg r.courier a.courier_income a.courier_expense hc))
          (reverse_leg-other v for_courier r.branch_cashbox branch net (neg net) refl)

branch_bearer :
    (v : ℕ) (q : Requester) (courier : ℕ) (l : Lookups) (b f : Bool) (a : ℤ)
    → f ≡ true
    → touch_pair v for_courier (bearer_of f q courier l b) a ≡ pos 0
branch_bearer v q courier l b false a t = cc
branch_bearer v q courier l b true a t = elim (Option-cases q.branch_id) [
  | inl e ↦ rw e refl
  | inr (k, e) ↦ rw e (found k (l.has_branch_cashbox k))
]
  where
    found : (k : ℕ) (c : Bool) → touch_pair v for_courier (only_if c (some (k, branch))) a ≡ pos 0
    found k true = touch-other v for_courier k branch a refl
    found k false = refl

no_courier : (f h : Bool) (c : ℕ) → f ≡ true → only_if (not f && h) (some c) ≡ none
no_courier true h c t = refl
no_courier false h c t = cc

-- The rollback of a manager who is no courier moves no courier's cashbox, although the order may
-- have been sold through a courier whose cashbox the sale has moved.
pub plan_rollback-misses-courier :
    (x : RollbackLookups) (q : Requester) (o : Order) (settlement : Option SettlementStatus)
    (target : RollbackTarget) (r : Reversal) (epoch : Text) (courier : ℕ)
    → plan_rollback x q o settlement target ≡ ok r
    → q.is_manager ≡ true
    → q.is_courier ≡ false
    → total_of (move_of courier for_courier) (rollback_events r epoch) ≡ pos 0
unfolding reversal_of rollback_events
plan_rollback-misses-courier x q o settlement target r epoch courier h m n =
    let (_, _, c, market, actor, e) = plan_rollback-eq-ok x q o settlement target r h in
    let for_branch : rolls_back_for_branch q ≡ true =
      ap (λ b. b && not q.is_courier) m ∙ ap not n in
    number_steps-total courier for_courier r epoch 0 (rollback_steps r)
    ∙ rollback_steps-nothing courier r
        (ap (λ z. z.courier) e
          ∙ no_courier (rolls_back_for_branch q) (x.sale.has_courier_cashbox c) c for_branch)
        (λ a.
          ap (λ z. touch_pair courier for_courier z.expense_cashbox a) e
          ∙ branch_bearer courier q c x.sale (has_courier_cashbox x.sale q c)
              (rolls_back_for_branch q) a for_branch)
