-- ===== src/Order/Cancel/Undo.antt =====
-- A rollback takes back the extra cost of a cancellation.
use elchi_backend.Prelude.{
  ℕ, ◌≡◌, refl, ap, ◌∙◌, inl, inr, true, false, ◌&&◌, ◌||◌, some, [], ◌∷◌, Bool-cases, Text,
}
use elchi_backend.Prelude.Int.{ℤ, pos, ◌+ℤ◌, neg, max_zero, ltb_ℤ, int_laws}
use elchi_backend.Enums.{CashboxType}
use elchi_backend.Finance.Cashbox.{signed}
use elchi_backend.Order.Status.{cancelled, sold, paid, partly_paid, same_status}
use elchi_backend.Order.Sale.{Order}
use elchi_backend.Order.Sale.Measures.{total_of}
use elchi_backend.Order.Rollback.{Reversal}
use elchi_backend.Order.Rollback.Plans.{among, sold_states, cancelled_states}
use elchi_backend.Order.Rollback.Commit.{
  does_sale_reversal, extra_steps, rollback_steps, rollback_events,
}
use elchi_backend.Order.Rollback.Moves.{move_of, steps_total, number_steps-total}
use elchi_backend.Order.Rollback.Extras.{
  extra_move, extra_move-zero, extra_move-cancels, extra_steps-move, positive, not_positive,
}
use elchi_backend.Order.Cancel.{CancelPlan, cancel_events, cancelled_order}

cancel_events-move :
    (v : ℕ) (s : CashboxType) (p : CancelPlan) (epoch : Text)
    → total_of (move_of v s) (cancel_events p epoch)
      ≡ extra_move v s p.order.market_id (some p.bearer) (neg (max_zero p.extra_cost))
unfolding cancel_events signed neg
cancel_events-move v s p epoch = elim (Bool-cases (ltb_ℤ (pos 0) p.extra_cost)) [
  | inl t ↦ rw (t, (positive p.extra_cost t).1) (shifted _ _)
  | inr n ↦
      rw (n, not_positive p.extra_cost n) (extra_move-zero v s p.order.market_id (some p.bearer))
]
  where
    shifted : (a b : ℤ) → a +ℤ (b +ℤ (pos 0 +ℤ pos 0)) ≡ a +ℤ b
    shifted a b = omega int_laws

-- The rollback of a cancelled order takes back what the cancellation has posted, when it finds the
-- extra cost and the bearer of the cancellation: on each cashbox, of whatever owner and type, the
-- expenses of the cancellation and the corrections of the rollback come to nothing.
pub rollback-cancels-cancel :
    (p : CancelPlan) (o : Order) (r : Reversal) (epoch epoch' : Text) (owner : ℕ) (t : CashboxType)
    → r.order ≡ cancelled_order p o
    → o.market_id ≡ p.order.market_id
    → r.expense_cashbox ≡ some p.bearer
    → r.market_extra ≡ p.extra_cost
    → r.actor_extra ≡ p.extra_cost
    → total_of (move_of owner t) (cancel_events p epoch)
        +ℤ total_of (move_of owner t) (rollback_events r epoch')
      ≡ pos 0
unfolding rollback_events rollback_steps cancelled_order
rollback-cancels-cancel p o r epoch epoch' owner t e hm hx he ha =
    let was : r.order.status ≡ cancelled = ap (λ z. z.status) e in
    let no_sale : among sold_states r.order.status ≡ false = ap (among sold_states) was in
    let no_legs : does_sale_reversal r ≡ false =
      ap (λ z. among (sold ∷ paid ∷ []) z || (same_status z partly_paid && r.is_super_admin)) was in
    let is : among cancelled_states r.order.status ≡ true = ap (among cancelled_states) was in
    let steps : steps_total owner t (rollback_steps r) ≡ steps_total owner t (extra_steps r) =
      rw (no_sale, no_legs, is) refl in
    rw
      (
        cancel_events-move owner t p epoch,
        number_steps-total owner t r epoch' 0 (rollback_steps r),
        steps,
        extra_steps-move owner t r p.extra_cost he ha,
        hx,
        ap (λ z. z.market_id) e ∙ hm,
      )
      (extra_move-cancels owner t p.order.market_id (some p.bearer) (max_zero p.extra_cost))
