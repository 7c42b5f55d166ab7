-- ===== src/Order/Money/Payment.antt =====
-- What an accepted sale counts as paid.
use elchi_backend.Prelude.{
  ℕ, ◌≤◌, ◌≡◌, refl, ap, arith, some, ◌&&◌, false, if◌then◌else◌, min, ◌+◌, ◌-◌,
}
use elchi_backend.Prelude.Int.{ℤ, pos, negsuc, ◌+ℤ◌, ◌-ℤ◌, ◌<ℤ◌, max_zero, min_ℤ, neg, ltb_ℤ, eqb_ℤ}
use elchi_backend.Prelude.Results.{ok}
use elchi_backend.Order.Status.{OrderStatus, sold, paid, partly_paid}
use elchi_backend.Order.Money.{sale_payment}

-- The status tells how much of `net` is paid.
abbrev pub StatusFits : ℤ → ℤ → OrderStatus → Type 0
StatusFits net paid_after sold = paid_after ≡ pos 0
StatusFits net paid_after partly_paid = (pos 0 <ℤ paid_after) × (paid_after <ℤ net)
StatusFits net paid_after paid = (pos 0 <ℤ paid_after) × (paid_after ≡ net)
StatusFits net paid_after _ = ⊥

-- The debt of the market that is set off.
abbrev pub set_off : ℤ → ℕ
set_off (pos n) = 0
set_off (negsuc n) = n + 1

min-pos : (a b : ℕ) → min_ℤ (pos a) (pos b) ≡ pos (min a b)
unfolding min_ℤ
min-pos a b = ground arith

sub-pos : (a b : ℕ) → b ≤ a → pos a -ℤ pos b ≡ pos (a - b)
unfolding ◌-ℤ◌
sub-pos a b h = ground arith

add-pos : (a b : ℕ) → pos a +ℤ pos b ≡ pos (a + b)
unfolding ◌+ℤ◌
add-pos a b = ground arith

debt_of :
    (balance : ℤ) → (if ltb_ℤ balance (pos 0) then neg balance else pos 0) ≡ pos (set_off balance)
unfolding neg ◌-ℤ◌
debt_of balance = ground arith

paid_of :
    (n r d : ℕ)
    → r ≤ n
    → min_ℤ (pos n) (
        min_ℤ (max_zero (pos r)) (pos n)
        +ℤ min_ℤ (pos n -ℤ min_ℤ (max_zero (pos r)) (pos n)) (pos d))
      ≡ pos (min n (r + d))
unfolding max_zero
paid_of n r d h =
    let e : min r n ≡ r = omega arith in
    let f : min n (r + min (n - r) d) ≡ min n (r + d) = omega arith in
    rw
      (
        min-pos r n,
        e,
        sub-pos n r h,
        min-pos (n - r) d,
        add-pos r (min (n - r) d),
        min-pos n (r + min (n - r) d),
      )
      (ap pos f)

status_of :
    (n p : ℕ)
    → p ≤ n
    → StatusFits (pos n) (pos p) (
        if eqb_ℤ (pos (n - p)) (pos 0) && ltb_ℤ (pos 0) (pos p)
        then paid
        else if ltb_ℤ (pos 0) (pos p)
        then partly_paid
        else sold)
status_of n p h = ground arith

-- A sale is accepted when the requested payment is between zero and what the market is owed; then
-- the lesser of that sum and of the request with the debt of the market counts as paid, the rest
-- remains, and the order is paid, partly paid or sold as that says.
sale_payment-accepted :
    (n r : ℕ) (balance : ℤ)
    → r ≤ n
    → (status : OrderStatus) × (sale_payment (pos n) (some (pos r)) balance
        ≡ ok (record {
          paid_after = pos (min n (r + set_off balance));
          remaining = pos (n - min n (r + set_off balance));
          next_status = status;
        }))
      × StatusFits (pos n) (pos (min n (r + set_off balance))) status
unfolding sale_payment max_zero
sale_payment-accepted n r balance h =
    let p = min n (r + set_off balance) in
    let low : p ≤ n = omega arith in
    let no : ltb_ℤ (pos n) (pos r) ≡ false = ground arith in
    let nn : ltb_ℤ (pos r) (pos 0) ≡ false = ground arith in
    (
      _,
      rw (debt_of balance, paid_of n r (set_off balance) h, sub-pos n p low, no, nn) refl,
      status_of n p low,
    )
