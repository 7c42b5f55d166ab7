-- ===== src/Finance/Audit/Payments.antt =====
-- The three payments keep the audit invariants, whatever branch they take.
use elchi_backend.Prelude.{
  ℕ, ◌≡◌, sym, ap, ◌∙◌, ◌≢◌, Bool, true, false, not, ◌&&◌, Option, none, some, if◌then◌else◌,
  Occurs, or_else, Text,
}
use elchi_backend.Prelude.Int.{ℤ, ltb_ℤ}
use elchi_backend.Prelude.Results.{
  bad_request, not_found, Result, ok, >>=-eq-ok, ok-injective, or_throw, or_throw-eq-ok, guard,
}
use elchi_backend.Enums.{CashboxType, main, for_courier, for_market, branch}
use elchi_backend.Inputs.{
  IdArg, missing, malformed, id, is_missing, parse_date, assert_big_int_id, assert_positive_amount,
}
use elchi_backend.Store.{Table}
use elchi_backend.Common.Outbox.{OutboxEvent}
use elchi_backend.Finance.Cashbox.{Cashbox, CashboxHistory, belongs_to}
use elchi_backend.Finance.Balance.{Books, Leg, post_leg}
use elchi_backend.Finance.Payments.{
  Advance, PaymentDto, Paid, main_user_id, is_click_to_market, ever_belonged_to, dedup_key,
  commit_payment, Vault, find_or_create, pass_to_market, transfer_from_courier,
  payments_from_courier, transfer_from_branch, payment_from_branch_to_main, transfer_to_market,
  payments_to_market,
}
use elchi_backend.Finance.Audit.Invariant.{IsSound}
use elchi_backend.Finance.Audit.Transfers.{
  find_or_create-IsSound, find_or_create-kind, post_leg-IsSound, belongs_to-kind,
  ever_belonged_to-kind, keys-ne,
}

-- The receiver of a courier's payment is no courier's and no market's cashbox.
abbrev pub Receives : Option CashboxType → Type 0
Receives none = Unit
Receives (some t) = (t ≢ for_courier) × (t ≢ for_market)

Receives-ne :
    (o : Option CashboxType)
    → Receives o
    → (or_else o main ≢ for_courier) × (or_else o main ≢ for_market)
Receives-ne none h = ((λ e. cc), (λ e. cc))
Receives-ne (some t) h = h

not_both : {a b : CashboxType} → a ≡ main → b ≡ for_market → a ≡ b → ⊥
not_both p q e = cc

differ : {a b : CashboxType} → a ≡ main → b ≡ branch → a ≡ b → ⊥
differ p q e = cc

module _ (C : Table Cashbox Cashbox.key) (H : Table CashboxHistory CashboxHistory.key)
    (O : Table (OutboxEvent Advance) OutboxEvent.key) where
  -- Two legs in a row, on two cashboxes that are not one row.
  two_legs-IsSound :
      (a b : Cashbox) (leg next : Leg) (s : Books C H) (p q : Cashbox × Books C H)
      → IsSound C H s
      → Occurs a (C.rows s.cashboxes)
      → Occurs b (C.rows s.cashboxes)
      → b.key ≢ a.key
      → post_leg C H a leg false s ≡ ok p
      → post_leg C H b next false p.1 ≡ ok q
      → IsSound C H q.1 × Occurs q.0 (C.rows q.1.cashboxes) × (q.0.cashbox_type ≡ b.cashbox_type)
  two_legs-IsSound a b leg next s p q sound oa ob n ep eq =
      let (sp, op, kp, tp, others) = post_leg-IsSound C H O a leg false s p sound oa ep in
      let (sq, oq, kq, tq, rest) =
        post_leg-IsSound C H O b next false p.1 q sp (others b ob n) eq in
      (sq, oq, tq)

  transfer_to_market-IsSound :
      (c m : Cashbox) (market : ℕ) (amount : ℤ) (token : Text) (dto : PaymentDto) (s : Books C H)
      (t : Cashbox × Cashbox × Books C H)
      → IsSound C H s
      → Occurs c (C.rows s.cashboxes)
      → Occurs m (C.rows s.cashboxes)
      → m.key ≢ c.key
      → transfer_to_market C H O c m market amount token dto s ≡ ok t
      → IsSound C H t.2
  unfolding transfer_to_market
  transfer_to_market-IsSound c m market amount token dto s t sound oc om n h =
      let (date, ed, h1) = >>=-eq-ok (parse_date dto.payment_date) _ h in
      let (p, ep, h2) = >>=-eq-ok _ _ h1 in
      let (r, er, e) = >>=-eq-ok _ _ h2 in
      let same : r.1 ≡ t.2 = ap (λ x. x.2) (ok-injective e) in
      rw (sym same) (two_legs-IsSound c m _ _ s p r sound oc om n ep er).0

  transfer_from_branch-IsSound :
      (c : Cashbox) (branch_id : ℕ) (amount : ℤ) (token : Text) (dto : PaymentDto) (s : Books C H)
      (t : Cashbox × Cashbox × Books C H)
      → IsSound C H s
      → Occurs c (C.rows s.cashboxes)
      → c.cashbox_type ≡ branch
      → transfer_from_branch C H O c branch_id amount token dto s ≡ ok t
      → IsSound C H t.2
  unfolding transfer_from_branch
  transfer_from_branch-IsSound c branch_id amount token dto s t sound oc kind h =
      let q = ever_belonged_to main_user_id main in
      let found = find_or_create C H O q main_user_id main s in
      let (s0, o0, old) = find_or_create-IsSound C H O q main_user_id main s sound in
      let is_main =
        find_or_create-kind C H O q main_user_id main s (ever_belonged_to-kind main_user_id main) in
      let (date, ed, h1) = >>=-eq-ok (parse_date dto.payment_date) _ h in
      let (p, ep, h2) = >>=-eq-ok _ _ h1 in
      let (r, er, e) = >>=-eq-ok _ _ h2 in
      let same : r.1 ≡ t.2 = ap (λ x. x.2) (ok-injective e) in
      let apart = keys-ne C H found.1 found.0 c s0 o0 (old c oc) (λ k. differ is_main kind k) in
      rw (sym same) (two_legs-IsSound c found.0 _ _ found.1 p r s0 (old c oc) o0 apart ep er).0

  pass_to_market-IsSound :
      (c : Cashbox) (amount : ℤ) (dto : PaymentDto) (date : Option ℕ) (market_id : IdArg)
      (s : Books C H) (q : Cashbox × Books C H)
      → IsSound C H s
      → Occurs c (C.rows s.cashboxes)
      → c.cashbox_type ≢ for_market
      → pass_to_market C H O c amount dto date market_id s ≡ ok q
      → IsSound C H q.1
  unfolding pass_to_market
  pass_to_market-IsSound c amount dto date missing s q sound oc n h =
      let same : s ≡ q.1 = ap (λ x. x.1) (ok-injective h) in rw (sym same) sound
  pass_to_market-IsSound c amount dto date malformed s q sound oc n h = cc
  pass_to_market-IsSound c amount dto date (id market) s q sound oc n h =
      let find = ever_belonged_to market for_market in
      let (m, em, h1) = >>=-eq-ok (or_throw (C.find_one s.cashboxes find) not_found) _ h in
      let found = or_throw-eq-ok (C.find_one s.cashboxes find) not_found m em in
      let om = C.find_one-Occurs s.cashboxes find m found in
      let kind =
        ever_belonged_to-kind market for_market m (C.find_one-meets s.cashboxes find m found) in
      let apart = keys-ne C H s m c sound om oc (λ e. n (sym e ∙ kind)) in
      let (p, ep, h2) = >>=-eq-ok _ _ h1 in
      let (r, er, e) = >>=-eq-ok _ _ h2 in
      let same : r.1 ≡ q.1 = ap (λ x. x.1) (ok-injective e) in
      rw (sym same) (two_legs-IsSound c m _ _ s p r sound oc om apart ep er).0

  through-IsSound :
      (click_through : Bool) (r : Cashbox × Books C H) (amount : ℤ) (dto : PaymentDto)
      (date : Option ℕ) (q : Cashbox × Books C H)
      → IsSound C H r.1
      → Occurs r.0 (C.rows r.1.cashboxes)
      → r.0.cashbox_type ≢ for_market
      → (if click_through then pass_to_market C H O r.0 amount dto date dto.market_id r.1 else ok r)
        ≡ ok q
      → IsSound C H q.1
  through-IsSound true r amount dto date q sound o n h =
      pass_to_market-IsSound r.0 amount dto date dto.market_id r.1 q sound o n h
  through-IsSound false r amount dto date q sound o n h =
      let same : r.1 ≡ q.1 = ap (λ x. x.1) (ok-injective h) in rw (sym same) sound

  transfer_from_courier-IsSound :
      (c : Cashbox) (courier : ℕ) (amount : ℤ) (token : Text) (dto : PaymentDto) (s : Books C H)
      (t : Cashbox × Cashbox × Books C H)
      → IsSound C H s
      → Occurs c (C.rows s.cashboxes)
      → c.cashbox_type ≡ for_courier
      → Receives dto.receiver_cashbox_type
      → transfer_from_courier C H O c courier amount token dto s ≡ ok t
      → IsSound C H t.2
  unfolding transfer_from_courier
  transfer_from_courier-IsSound c courier amount token dto s t sound oc kind rec h =
      let u = or_else dto.receiver_user_id main_user_id in
      let k = or_else dto.receiver_cashbox_type main in
      let (no_courier, no_market) = Receives-ne dto.receiver_cashbox_type rec in
      let found = find_or_create C H O (belongs_to u k) u k s in
      let (s0, o0, old) = find_or_create-IsSound C H O (belongs_to u k) u k s sound in
      let is_k = find_or_create-kind C H O (belongs_to u k) u k s (belongs_to-kind u k) in
      let (fine, ef, h0) = >>=-eq-ok (guard (not (ltb_ℤ c.balance amount)) bad_request) _ h in
      let (date, ed, h1) = >>=-eq-ok (parse_date dto.payment_date) _ h0 in
      let (p, ep, h2) = >>=-eq-ok _ _ h1 in
      let (r, er, h3) = >>=-eq-ok _ _ h2 in
      let (q, eq, e) = >>=-eq-ok _ _ h3 in
      let same : q.1 ≡ t.2 = ap (λ x. x.2) (ok-injective e) in
      let apart =
        keys-ne C H found.1 found.0 c s0 o0 (old c oc) (λ z. no_courier (sym is_k ∙ z ∙ kind)) in
      let (sr, or, tr) = two_legs-IsSound c found.0 _ _ found.1 p r s0 (old c oc) o0 apart ep er in
      rw (sym same) (
        through-IsSound (is_click_to_market dto.payment_method) r amount dto date q sr or
          (λ z. no_market (sym is_k ∙ sym tr ∙ z)) eq)

  commit_payment-IsSound :
      (again : Bool) (transfer : Result (Cashbox × Cashbox × Books C H))
      (advance : O.State → O.State) (v : Vault C H O) (r : Paid) (v' : Vault C H O)
      → IsSound C H v.books
      → ((t : Cashbox × Cashbox × Books C H) → transfer ≡ ok t → IsSound C H t.2)
      → commit_payment C H O again transfer advance v ≡ ok (r, v')
      → IsSound C H v'.books
  unfolding commit_payment
  commit_payment-IsSound true transfer advance v r v' sound step h =
      let same : v ≡ v' = ap (λ x. x.1) (ok-injective h) in rw (sym same) sound
  commit_payment-IsSound false transfer advance v r v' sound step h =
      let (t, et, e) = >>=-eq-ok transfer _ h in
      let same : t.2 ≡ v'.books = ap (λ x. x.1.books) (ok-injective e) in rw (sym same) (step t et)

  -- What a `findOne` that did not throw has found.
  found_row :
      (s : C.State) (q : Cashbox → Bool) (c : Cashbox)
      → or_throw (C.find_one s q) not_found ≡ ok c
      → Occurs c (C.rows s) × (q c ≡ true)
  found_row s q c e =
      let found = or_throw-eq-ok (C.find_one s q) not_found c e in
      (C.find_one-Occurs s q c found, C.find_one-meets s q c found)

  -- A payment from a courier that succeeds keeps both audit invariants, with the click that goes
  -- through to a market included, unless the request names a courier's or a market's cashbox as the
  -- receiver.
  pub payments_from_courier-IsSound :
      (dto : PaymentDto) (uuid : Text) (now : ℕ) (v : Vault C H O) (r : Paid) (v' : Vault C H O)
      → IsSound C H v.books
      → Receives dto.receiver_cashbox_type
      → payments_from_courier C H O dto uuid now v ≡ ok (r, v')
      → IsSound C H v'.books
  unfolding payments_from_courier
  payments_from_courier-IsSound dto uuid now v r v' sound rec h =
      let (courier, e1, h1) = >>=-eq-ok (assert_big_int_id dto.participant) _ h in
      let (amount, e2, h2) = >>=-eq-ok (assert_positive_amount dto.amount) _ h1 in
      let (fine, e3, h3) =
        >>=-eq-ok
          (guard (not (is_click_to_market dto.payment_method && is_missing dto.market_id))
            bad_request)
          _ h2 in
      let (c, e4, h4) =
        >>=-eq-ok
          (or_throw (C.find_one v.books.cashboxes (belongs_to courier for_courier)) not_found) _
          h3 in
      let (oc, qc) = found_row v.books.cashboxes (belongs_to courier for_courier) c e4 in
      commit_payment-IsSound _ _ _ v r v' sound
        (λ t et.
          transfer_from_courier-IsSound c courier amount (dedup_key dto) dto v.books t sound oc
            (belongs_to-kind courier for_courier c qc) rec et)
        h4

  -- A payment from a branch to the main cashbox keeps both audit invariants.
  pub payment_from_branch_to_main-IsSound :
      (dto : PaymentDto) (uuid : Text) (now : ℕ) (v : Vault C H O) (r : Paid) (v' : Vault C H O)
      → IsSound C H v.books
      → payment_from_branch_to_main C H O dto uuid now v ≡ ok (r, v')
      → IsSound C H v'.books
  unfolding payment_from_branch_to_main
  payment_from_branch_to_main-IsSound dto uuid now v r v' sound h =
      let (branch_id, e1, h1) = >>=-eq-ok (assert_big_int_id dto.participant) _ h in
      let (amount, e2, h2) = >>=-eq-ok (assert_positive_amount dto.amount) _ h1 in
      let (c, e4, h4) =
        >>=-eq-ok
          (or_throw (C.find_one v.books.cashboxes (ever_belonged_to branch_id branch)) not_found) _
          h2 in
      let (oc, qc) = found_row v.books.cashboxes (ever_belonged_to branch_id branch) c e4 in
      commit_payment-IsSound _ _ _ v r v' sound
        (λ t et.
          transfer_from_branch-IsSound c branch_id amount (dedup_key dto) dto v.books t sound oc
            (ever_belonged_to-kind branch_id branch c qc) et)
        h4

  -- A payment to a market keeps both audit invariants.
  pub payments_to_market-IsSound :
      (dto : PaymentDto) (uuid : Text) (now : ℕ) (v : Vault C H O) (r : Paid) (v' : Vault C H O)
      → IsSound C H v.books
      → payments_to_market C H O dto uuid now v ≡ ok (r, v')
      → IsSound C H v'.books
  unfolding payments_to_market
  payments_to_market-IsSound dto uuid now v r v' sound h =
      let (market, e1, h1) = >>=-eq-ok (assert_big_int_id dto.participant) _ h in
      let (amount, e2, h2) = >>=-eq-ok (assert_positive_amount dto.amount) _ h1 in
      let (c, e3, h3) =
        >>=-eq-ok
          (or_throw (C.find_one v.books.cashboxes (ever_belonged_to main_user_id main)) not_found) _
          h2 in
      let (m, e4, h4) =
        >>=-eq-ok
          (or_throw (C.find_one v.books.cashboxes (ever_belonged_to market for_market)) not_found) _
          h3 in
      let (oc, qc) = found_row v.books.cashboxes (ever_belonged_to main_user_id main) c e3 in
      let (om, qm) = found_row v.books.cashboxes (ever_belonged_to market for_market) m e4 in
      let kc = ever_belonged_to-kind main_user_id main c qc in
      let km = ever_belonged_to-kind market for_market m qm in
      commit_payment-IsSound _ _ _ v r v' sound
        (λ t et.
          transfer_to_market-IsSound c m market amount (dedup_key dto) dto v.books t sound oc om
            (keys-ne C H v.books m c sound om oc (λ e. not_both kc km (sym e))) et)
        h4
