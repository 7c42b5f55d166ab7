-- ===== src/Finance/Audit/Updates.antt =====
-- `updateBalance` as a whole: it keeps the audit invariants, and a redelivery changes nothing.
use elchi_backend.Prelude.{
  ℕ, ◌≡◌, sym, ap, ◌∙◌, inl, inr, Bool, Option, none, some, Bool-cases, Occurs,
}
use elchi_backend.Prelude.Int.{ℤ}
use elchi_backend.Prelude.Results.{not_found, ok, >>=-eq-ok, ok-injective, or_throw, or_throw-eq-ok}
use elchi_backend.Enums.{CashboxType}
use elchi_backend.Inputs.{
  IdArg, missing, malformed, id, assert_big_int_id, assert_positive_amount, parse_date,
}
use elchi_backend.Store.{Table}
use elchi_backend.Finance.Cashbox.{
  Cashbox, CashboxHistory, Selector, signed, has_key, belongs_to, update_balances_by_method,
  get_cashbox_by_selector, by_user_and_type,
}
use elchi_backend.Finance.Balance.{
  Books, Leg, UpdateBalanceDto, Applied, save_leg, post_leg, is_replay, apply_balance,
  update_balance,
}
use elchi_backend.Finance.Audit.Invariant.{IsSound}
use elchi_backend.Finance.Audit.Legs.{Moved, update_balances_by_method-Moved, save_leg-IsSound}

module _ (C : Table Cashbox Cashbox.key) (H : Table CashboxHistory CashboxHistory.key) where
  -- A leg that does not throw has moved the balance and was saved.
  pub post_leg-eq-ok :
      (c : Cashbox) (leg : Leg) (override : Bool) (s : Books C H) (c' : Cashbox) (s' : Books C H)
      → post_leg C H c leg override s ≡ ok (c', s')
      → Moved c (signed leg.operation_type leg.amount) c' × (s' ≡ save_leg C H c' leg s)
  unfolding post_leg
  post_leg-eq-ok c leg override s c' s' h =
      let (m, em, e) =
        >>=-eq-ok
          (update_balances_by_method c leg.amount leg.operation_type leg.payment_method override) _
          h in
      let pair = ok-injective e in
      let same : m ≡ c' = ap (λ p. p.0) pair in
      (
        rw same at (
            update_balances_by_method-Moved c leg.amount leg.operation_type leg.payment_method
              override m em),
        sym (ap (λ p. p.1) pair) ∙ ap (λ k. save_leg C H k leg s) same,
      )

  find_by_key-Occurs :
      (k : ℕ) (s : C.State) (c : Cashbox)
      → or_throw (C.find_one s (has_key k)) not_found ≡ ok c
      → Occurs c (C.rows s)
  find_by_key-Occurs k s c h = C.find_one-Occurs s (has_key k) c (or_throw-eq-ok _ not_found c h)

  by_user_and_type-Occurs :
      (u : IdArg) (t : Option CashboxType) (s : C.State) (c : Cashbox)
      → by_user_and_type C u t s ≡ ok c
      → Occurs c (C.rows s)
  unfolding by_user_and_type assert_big_int_id
  by_user_and_type-Occurs u none s c h = cc
  by_user_and_type-Occurs missing (some t) s c h = cc
  by_user_and_type-Occurs malformed (some t) s c h = cc
  by_user_and_type-Occurs (id u) (some t) s c h =
      C.find_one-Occurs s (belongs_to u t) c (or_throw-eq-ok _ not_found c h)

  by_id-Occurs :
      (i u : IdArg) (t : Option CashboxType) (s : C.State) (c : Cashbox)
      → get_cashbox_by_selector C (record { cashbox_id = i; user_id = u; cashbox_type = t }) s
        ≡ ok c
      → Occurs c (C.rows s)
  unfolding get_cashbox_by_selector assert_big_int_id
  by_id-Occurs missing u t s c h = by_user_and_type-Occurs u t s c h
  by_id-Occurs malformed u t s c h = cc
  by_id-Occurs (id k) u t s c h = find_by_key-Occurs k s c h

  -- A cashbox that a selector finds is a row of the table.
  pub get_cashbox_by_selector-Occurs :
      (q : Selector) (s : C.State) (c : Cashbox)
      → get_cashbox_by_selector C q s ≡ ok c
      → Occurs c (C.rows s)
  get_cashbox_by_selector-Occurs q s c h = by_id-Occurs q.cashbox_id q.user_id q.cashbox_type s c h

  apply_balance-IsSound :
      (c : Cashbox) (amount : ℤ) (dto : UpdateBalanceDto) (s : Books C H) (r : Applied)
      (s' : Books C H)
      → IsSound C H s
      → Occurs c (C.rows s.cashboxes)
      → apply_balance C H c amount dto s ≡ ok (r, s')
      → IsSound C H s'
  unfolding apply_balance
  apply_balance-IsSound c amount dto s r s' sound o h = elim (Bool-cases (is_replay C H c dto s)) [
    | inl again ↦ let e = ok-injective (rw again at h) in rw (sym (ap (λ p. p.1) e)) sound
    | inr first ↦
        let (date, ed, h1) = >>=-eq-ok (parse_date dto.payment_date) _ (rw first at h) in
        let (p, ep, e) = >>=-eq-ok _ _ h1 in
        let (m, saved) = post_leg-eq-ok c _ _ s p.0 p.1 ep in
        rw (sym (ap (λ q. q.1) (ok-injective e)), saved) (save_leg-IsSound C H s c p.0 _ sound o m)
  ]

  -- If it accepts a request, whose amount is a whole number of tiyin, `updateBalance` leaves every cashbox with a balance that is the signed
  -- sum of its history and the sum of its cash and card parts, if it was so before.
  pub update_balance-IsSound :
      (dto : UpdateBalanceDto) (s : Books C H) (r : Applied) (s' : Books C H)
      → IsSound C H s
      → update_balance C H dto s ≡ ok (r, s')
      → IsSound C H s'
  unfolding update_balance
  update_balance-IsSound dto s r s' sound h =
      let (amount, ea, h1) = >>=-eq-ok (assert_positive_amount dto.amount) _ h in
      let (c, ec, h2) = >>=-eq-ok (get_cashbox_by_selector C dto.selector s.cashboxes) _ h1 in
      apply_balance-IsSound c amount dto s r s' sound
        (get_cashbox_by_selector-Occurs dto.selector s.cashboxes c ec) h2
