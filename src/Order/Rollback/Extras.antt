-- ===== src/Order/Rollback/Extras.antt =====
-- The extra costs of a sale or a cancellation, and their reversal, on each cashbox.
use elchi_backend.Prelude.{
  ℕ, ◌≡◌, refl, ◌∙◌, inl, inr, true, false, Option, none, some, ◌++◌, Bool-cases, Text, arith,
}
use elchi_backend.Prelude.Int.{ℤ, pos, ◌+ℤ◌, neg, max_zero, ltb_ℤ, leb_ℤ, int_laws}
use elchi_backend.Enums.{CashboxType, for_market, expense, extra_cost}
use elchi_backend.Finance.Cashbox.{signed}
use elchi_backend.Order.Sale.{Quote}
use elchi_backend.Order.Sale.Commit.{post_extra_cost, relief_events, update_cashbox_balance}
use elchi_backend.Order.Sale.Measures.{total_of, total_of-append, add_zero}
use elchi_backend.Order.Rollback.{Reversal}
use elchi_backend.Order.Rollback.Commit.{
  market_extra_steps, actor_extra_steps, extra_steps, ledger_steps, max_ℤ,
}
use elchi_backend.Order.Rollback.Moves.{
  move_of, touch, touch-nothing, steps_total, steps_total-append, update_cashbox_balance-move,
  touch_opt-cancels,
}

abbrev pub touch_pair : ℕ → CashboxType → Option (ℕ × CashboxType) → ℤ → ℤ
touch_pair v s none a = pos 0
touch_pair v s (some (u, t)) a = touch v s u t a

-- What the extra cost of a sale moves a cashbox by.
abbrev pub extra_move : ℕ → CashboxType → ℕ → Option (ℕ × CashboxType) → ℤ → ℤ
extra_move v s market bearer a = touch v s market for_market a +ℤ touch_pair v s bearer a

pub extra_move-zero :
    (v : ℕ) (s : CashboxType) (m : ℕ) (b : Option (ℕ × CashboxType))
    → pos 0 ≡ extra_move v s m b (pos 0)
unfolding ◌+ℤ◌
extra_move-zero v s m none = ground arith
extra_move-zero v s m (some (u, t)) = ground arith

pub not_positive : (a : ℤ) → ltb_ℤ (pos 0) a ≡ false → max_zero a ≡ pos 0
unfolding max_zero
not_positive a h = ground arith

pub positive : (a : ℤ) → ltb_ℤ (pos 0) a ≡ true → (leb_ℤ a (pos 0) ≡ false) × (max_zero a ≡ a)
unfolding max_zero
positive a h = ground arith

relief-move :
    (v : ℕ) (s : CashboxType) (c : Quote) (epoch : Text) (b : Option (ℕ × CashboxType))
    → leb_ℤ c.extra_cost (pos 0) ≡ false
    → total_of (move_of v s) (relief_events c epoch b) ≡ touch_pair v s b (neg c.extra_cost)
unfolding relief_events signed
relief-move v s c epoch none h = refl
relief-move v s c epoch (some (u, t)) h =
    update_cashbox_balance-move v s c epoch u t c.extra_cost expense extra_cost ∙ rw h refl

pub post_extra_cost-move :
    (v : ℕ) (s : CashboxType) (c : Quote) (epoch : Text)
    → total_of (move_of v s) (post_extra_cost c epoch)
      ≡ extra_move v s c.order.market_id c.expense_cashbox (neg (max_zero c.extra_cost))
unfolding post_extra_cost signed neg
post_extra_cost-move v s c epoch = elim (Bool-cases (ltb_ℤ (pos 0) c.extra_cost)) [
  | inl t ↦
      let (p, e) = positive c.extra_cost t in
      let m =
        update_cashbox_balance c epoch c.order.market_id for_market c.extra_cost expense
          extra_cost in
      rw
        (
          t,
          e,
          total_of-append (move_of v s) (m ++ relief_events c epoch c.expense_cashbox) _,
          total_of-append (move_of v s) m (relief_events c epoch c.expense_cashbox),
          update_cashbox_balance-move v s c epoch c.order.market_id for_market c.extra_cost expense
              extra_cost,
          p,
          relief-move v s c epoch c.expense_cashbox p,
        )
        (rw (add_zero (pos 0)) (add_zero _))
  | inr n ↦ rw (n, not_positive c.extra_cost n) (extra_move-zero v s _ c.expense_cashbox)
]

pub market_extra_steps-move :
    (v : ℕ) (s : CashboxType) (r : Reversal)
    → steps_total v s (market_extra_steps r)
      ≡ touch v s r.order.market_id for_market (max_zero r.market_extra)
unfolding signed
market_extra_steps-move v s r = elim (Bool-cases (ltb_ℤ (pos 0) r.market_extra)) [
  | inl t ↦ rw (t, (positive r.market_extra t).1) (add_zero _)
  | inr n ↦ rw (n, not_positive r.market_extra n) (touch-nothing v s r.order.market_id for_market)
]

pub actor_extra_steps-move :
    (v : ℕ) (s : CashboxType) (r : Reversal) (w : Option (ℕ × CashboxType))
    → steps_total v s (actor_extra_steps r w) ≡ touch_pair v s w (max_zero r.actor_extra)
unfolding signed
actor_extra_steps-move v s r none = refl
actor_extra_steps-move v s r (some (u, k)) = elim (Bool-cases (ltb_ℤ (pos 0) r.actor_extra)) [
  | inl t ↦ rw (t, (positive r.actor_extra t).1) (add_zero _)
  | inr n ↦ rw (n, not_positive r.actor_extra n) (touch-nothing v s u k)
]

pub extra_steps-move :
    (v : ℕ) (s : CashboxType) (r : Reversal) (e : ℤ)
    → r.market_extra ≡ e
    → r.actor_extra ≡ e
    → steps_total v s (extra_steps r)
      ≡ extra_move v s r.order.market_id r.expense_cashbox (max_zero e)
extra_steps-move v s r e hm ha =
    steps_total-append v s (market_extra_steps r) (actor_extra_steps r r.expense_cashbox)
    ∙ rw (market_extra_steps-move v s r, actor_extra_steps-move v s r r.expense_cashbox, hm, ha)
        refl

pub ledger_steps-move :
    (v : ℕ) (s : CashboxType) (r : Reversal) → steps_total v s (ledger_steps r) ≡ pos 0
ledger_steps-move v s r = elim (Bool-cases (ltb_ℤ (pos 0) (max_ℤ r.market_extra r.actor_extra))) [
  | inl t ↦ rw t (add_zero _)
  | inr n ↦ rw n refl
]

sum_pairs : (a b c d : ℤ) → (a +ℤ b) +ℤ (c +ℤ d) ≡ (a +ℤ c) +ℤ (b +ℤ d)
sum_pairs a b c d = omega int_laws

pub sum_cancels : (a b c d : ℤ) → a +ℤ c ≡ pos 0 → b +ℤ d ≡ pos 0 → (a +ℤ b) +ℤ (c +ℤ d) ≡ pos 0
sum_cancels a b c d h k = sum_pairs a b c d ∙ rw (h, k) (add_zero (pos 0))

touch_pair-cancels :
    (v : ℕ) (s : CashboxType) (w : Option (ℕ × CashboxType)) (a : ℤ)
    → touch_pair v s w a +ℤ touch_pair v s w (neg a) ≡ pos 0
touch_pair-cancels v s none a = add_zero (pos 0)
touch_pair-cancels v s (some (u, t)) a = touch_opt-cancels v s (some u) t a

add_comm : (a b : ℤ) → a +ℤ b ≡ b +ℤ a
add_comm a b = omega int_laws

pub extra_move-cancels :
    (v : ℕ) (s : CashboxType) (m : ℕ) (w : Option (ℕ × CashboxType)) (a : ℤ)
    → extra_move v s m w (neg a) +ℤ extra_move v s m w a ≡ pos 0
extra_move-cancels v s m w a =
    sum_cancels _ _ _ _ (add_comm _ _ ∙ touch_opt-cancels v s (some m) for_market a)
      (add_comm _ _ ∙ touch_pair-cancels v s w a)
