-- ===== src/Order/Rollback/Moves.antt =====
-- What the events of a sale and of a rollback move each cashbox by.
use elchi_backend.Prelude.{
  ℕ, suc, ◌≡◌, refl, sym, ap, ◌∙◌, inl, inr, Bool, true, false, ◌&&◌, Option, none, some, List, [],
  ◌∷◌, ◌++◌, ◌==◌, if◌then◌else◌, Bool-cases, or_else, Text, arith,
}
use elchi_backend.Prelude.Int.{ℤ, pos, pos_part, neg_part, ◌+ℤ◌, ◌-ℤ◌, neg, ltb_ℤ, leb_ℤ}
use elchi_backend.Enums.{OperationType, income, expense, CashboxType, SourceType, sell, same_type}
use elchi_backend.Inputs.{IdArg, id}
use elchi_backend.Finance.Cashbox.{signed}
use elchi_backend.Order.Sale.{FinanceEvent, cashbox_update, Quote}
use elchi_backend.Order.Sale.Commit.{update_cashbox_balance, post_leg}
use elchi_backend.Order.Sale.Measures.{
  type_is, total_of, zero_add, add_zero, add_assoc, income_side, expense_side,
}
use elchi_backend.Order.Rollback.{Reversal, Step, correct, enter}
use elchi_backend.Order.Rollback.Commit.{reverse_leg, number_steps}

abbrev pub names : ℕ → IdArg → Bool
names v (id u) = u == v
names v _ = false

-- What an event moves the cashbox of user `v` and type `s` by.
abbrev pub move_of : ℕ → CashboxType → FinanceEvent → ℤ
move_of v s (cashbox_update d) =
    if names v d.selector.user_id && type_is s d.selector.cashbox_type
    then signed d.operation_type (or_else d.amount (pos 0))
    else pos 0
move_of v s _ = pos 0

-- An amount, when it goes to the cashbox that is looked at.
abbrev pub touch : ℕ → CashboxType → ℕ → CashboxType → ℤ → ℤ
touch v s u t a = if (u == v) && same_type t s then a else pos 0

abbrev pub touch_opt : ℕ → CashboxType → Option ℕ → CashboxType → ℤ → ℤ
touch_opt v s none t a = pos 0
touch_opt v s (some u) t a = touch v s u t a

abbrev pub step_move : ℕ → CashboxType → Step → ℤ
step_move v s (correct u t a o) = touch v s u t (signed o a)
step_move v s (enter a) = pos 0

abbrev pub steps_total : ℕ → CashboxType → List Step → ℤ
steps_total v s [] = pos 0
steps_total v s (x ∷ xs) = step_move v s x +ℤ steps_total v s xs

pub steps_total-append :
    (v : ℕ) (s : CashboxType) (xs ys : List Step)
    → steps_total v s (xs ++ ys) ≡ steps_total v s xs +ℤ steps_total v s ys
steps_total-append v s [] ys = sym (zero_add _)
steps_total-append v s (x ∷ xs) ys = rw (steps_total-append v s xs ys) (add_assoc _ _ _)

-- The numbers in the tokens do not matter to the amounts.
pub number_steps-total :
    (v : ℕ) (s : CashboxType) (r : Reversal) (epoch : Text) (n : ℕ) (steps : List Step)
    → total_of (move_of v s) (number_steps r epoch n steps) ≡ steps_total v s steps
unfolding number_steps
number_steps-total v s r epoch n [] = refl
number_steps-total v s r epoch n (enter a ∷ steps) =
    ap (λ z. pos 0 +ℤ z) (number_steps-total v s r epoch n steps)
number_steps-total v s r epoch n (correct u t a o ∷ steps) =
    ap (λ z. touch v s u t (signed o a) +ℤ z) (number_steps-total v s r epoch (suc n) steps)

pub update_cashbox_balance-move :
    (v : ℕ) (s : CashboxType) (c : Quote) (epoch : Text) (u : ℕ) (t : CashboxType) (a : ℤ)
    (o : OperationType) (source : SourceType)
    → total_of (move_of v s) (update_cashbox_balance c epoch u t a o source)
      ≡ touch v s u t (if leb_ℤ a (pos 0) then pos 0 else signed o a)
unfolding update_cashbox_balance
update_cashbox_balance-move v s c epoch u t a o source = elim (Bool-cases (leb_ℤ a (pos 0))) [
  | inl z ↦ rw z (sym (touch-zero ((u == v) && same_type t s)))
  | inr p ↦ rw p (add_zero _)
]
  where
    touch-zero : (b : Bool) → (if b then pos 0 else pos 0) ≡ pos 0
    touch-zero b = ground arith

-- A leg whose two sides are the positive and the negative part of `x` moves its cashbox by `x`.
pub post_leg-move :
    (v : ℕ) (s : CashboxType) (c : Quote) (epoch : Text) (w : Option ℕ) (t : CashboxType)
    (x a b : ℤ)
    → pos_part a ≡ pos_part x
    → pos_part b ≡ neg_part x
    → total_of (move_of v s) (post_leg c epoch w t a b) ≡ touch_opt v s w t x
unfolding post_leg signed
post_leg-move v s c epoch none t x a b ha hb = refl
post_leg-move v s c epoch (some u) t x a b ha hb = elim (Bool-cases (ltb_ℤ (pos 0) a)) [
  | inl i ↦
      let (p, e) = income_side x a ha i in
      rw i (update_cashbox_balance-move v s c epoch u t a income sell ∙ rw p (ap (touch v s u t) e))
  | inr z ↦ rw z (
      update_cashbox_balance-move v s c epoch u t b expense sell
      ∙ ap (touch v s u t) (expense_side x a b ha hb z))
]

reverse_income : (x a : ℤ) → pos_part a ≡ pos_part x → ltb_ℤ (pos 0) a ≡ true → neg a ≡ neg x
unfolding neg ◌-ℤ◌
reverse_income x a ha t = ground arith

reverse_expense :
    (x a b : ℤ)
    → pos_part a ≡ pos_part x
    → pos_part b ≡ neg_part x
    → ltb_ℤ (pos 0) a ≡ false
    → ltb_ℤ (pos 0) b ≡ true
    → b ≡ neg x
unfolding neg ◌-ℤ◌
reverse_expense x a b ha hb n t = ground arith

reverse_nothing :
    (x a b : ℤ)
    → pos_part a ≡ pos_part x
    → pos_part b ≡ neg_part x
    → ltb_ℤ (pos 0) a ≡ false
    → ltb_ℤ (pos 0) b ≡ false
    → pos 0 ≡ neg x
unfolding neg ◌-ℤ◌
reverse_nothing x a b ha hb n m = ground arith

pub touch-nothing :
    (v : ℕ) (s : CashboxType) (u : ℕ) (t : CashboxType) → pos 0 ≡ touch v s u t (pos 0)
touch-nothing v s u t = ground arith

-- The reverse of such a leg moves it by `-x`.
pub reverse_leg-move :
    (v : ℕ) (s : CashboxType) (w : Option ℕ) (t : CashboxType) (x a b : ℤ)
    → pos_part a ≡ pos_part x
    → pos_part b ≡ neg_part x
    → steps_total v s (reverse_leg w t a b) ≡ touch_opt v s w t (neg x)
unfolding signed
reverse_leg-move v s none t x a b ha hb = refl
reverse_leg-move v s (some u) t x a b ha hb = elim (Bool-cases (ltb_ℤ (pos 0) a)) [
  | inl i ↦ rw i (add_zero _ ∙ ap (touch v s u t) (reverse_income x a ha i))
  | inr n ↦ elim (Bool-cases (ltb_ℤ (pos 0) b)) [
    | inl i ↦ rw (n, i) (add_zero _ ∙ ap (touch v s u t) (reverse_expense x a b ha hb n i))
    | inr m ↦
        rw (n, m) (touch-nothing v s u t ∙ ap (touch v s u t) (reverse_nothing x a b ha hb n m))
  ]
]

-- A leg and its reverse come to nothing.
pub touch_opt-cancels :
    (v : ℕ) (s : CashboxType) (w : Option ℕ) (t : CashboxType) (x : ℤ)
    → touch_opt v s w t x +ℤ touch_opt v s w t (neg x) ≡ pos 0
unfolding neg ◌-ℤ◌ ◌+ℤ◌
touch_opt-cancels v s none t x = refl
touch_opt-cancels v s (some u) t x = ground arith
