-- ===== src/Order/Settlement/Hops.antt =====
-- The chain of a settlement, told apart from the code that walks it: which rows wait for a level,
-- and what a row is one hop further.
use elchi_backend.Prelude.{
  ℕ, ◌≡◌, refl, sym, ap, ◌∙◌, test→eq, true, false, Bool, ◌&&◌, not, Option, some, List, any, ◌==◌,
  if◌then◌else◌, opt_eq, arith,
}
use elchi_backend.Prelude.Int.{ℤ, max_zero}
use elchi_backend.Finance.Payments.{Level, courier_to_branch, branch_to_hq, hq_to_market}
use elchi_backend.Order.Settlement.{
  SettlementStatus, pending, courier_settled, branch_settled, market_settled, SettlementStatus_code,
  same_settlement, OrderSettlement, leg_amount, advanced, is_candidate,
}

-- The money of the row is with the participant of the level, who pays it on at that level.
abbrev pub Awaits : Level → ℕ → OrderSettlement → Type 0
Awaits courier_to_branch m r =
    (r.courier_id ≡ some m) × (r.status ≡ pending) × (r.is_deleted ≡ false)
Awaits branch_to_hq m r =
    (r.branch_id ≡ some m) × (r.status ≡ courier_settled) × (r.is_deleted ≡ false)
Awaits hq_to_market m r =
    (r.market_id ≡ some m) × (r.status ≡ branch_settled) × (r.is_deleted ≡ false)

-- The row with the next status of the chain, and the stamp of that hop.
abbrev pub hopped : Level → ℕ → Option ℕ → OrderSettlement → OrderSettlement
hopped courier_to_branch now by r = record r {
  status = courier_settled;
  courier_to_branch_stamp = record { at = some now; by = by };
}
hopped branch_to_hq now by r = record r {
  status = branch_settled;
  branch_to_hq_stamp = record { at = some now; by = by };
}
hopped hq_to_market now by r = record r {
  status = market_settled;
  hq_to_market_stamp = record { at = some now; by = by };
}

-- What the hop is worth: the amount of the level, and nothing if that is below zero.
abbrev pub worth : Level → OrderSettlement → ℤ
worth courier_to_branch r = max_zero r.courier_amount
worth branch_to_hq r = max_zero r.branch_amount
worth hq_to_market r = max_zero r.market_amount

pub leg_amount-worth : (level : Level) (r : OrderSettlement) → leg_amount level r ≡ worth level r
leg_amount-worth courier_to_branch r = refl
leg_amount-worth branch_to_hq r = refl
leg_amount-worth hq_to_market r = refl

pub advanced-hopped :
    (level : Level) (now : ℕ) (by : Option ℕ) (r : OrderSettlement)
    → advanced level now by r ≡ hopped level now by r
advanced-hopped courier_to_branch now by r = refl
advanced-hopped branch_to_hq now by r = refl
advanced-hopped hq_to_market now by r = refl

opt_eq-eq : (a : Option ℕ) (m : ℕ) → opt_eq a (some m) ≡ true → a ≡ some m
opt_eq-eq a m h = ground arith

abbrev status_at : ℕ → SettlementStatus
status_at n =
    if n == 0
    then pending
    else if n == 1
    then courier_settled
    else if n == 2
    then branch_settled
    else market_settled

status_at-code : (a : SettlementStatus) → status_at (SettlementStatus_code a) ≡ a
status_at-code pending = refl
status_at-code courier_settled = refl
status_at-code branch_settled = refl
status_at-code market_settled = refl

same_settlement-eq : (a b : SettlementStatus) → same_settlement a b ≡ true → a ≡ b
same_settlement-eq a b h =
    sym (status_at-code a)
    ∙ ap status_at (test→eq (SettlementStatus_code a) (SettlementStatus_code b) h)
    ∙ status_at-code b

three_true : (a b d : Bool) → a && b && not d ≡ true → (a ≡ true) × (b ≡ true) × (d ≡ false)
three_true a b d h = ground arith

pub is_candidate-Awaits :
    (level : Level) (m : ℕ) (r : OrderSettlement) → is_candidate level m r ≡ true → Awaits level m r
is_candidate-Awaits courier_to_branch m r h =
    let (a, b, d) =
      three_true (opt_eq r.courier_id (some m)) (same_settlement r.status pending) r.is_deleted h in
    (opt_eq-eq r.courier_id m a, same_settlement-eq r.status pending b, d)
is_candidate-Awaits branch_to_hq m r h =
    let (a, b, d) =
      three_true (opt_eq r.branch_id (some m)) (same_settlement r.status courier_settled)
        r.is_deleted h in
    (opt_eq-eq r.branch_id m a, same_settlement-eq r.status courier_settled b, d)
is_candidate-Awaits hq_to_market m r h =
    let (a, b, d) =
      three_true (opt_eq r.market_id (some m)) (same_settlement r.status branch_settled)
        r.is_deleted h in
    (opt_eq-eq r.market_id m a, same_settlement-eq r.status branch_settled b, d)

-- The rows with the keys of some others are a hop further, and all other rows are as they were.
abbrev pub is_among : List OrderSettlement → OrderSettlement → Bool
is_among cs r = any (λ c. r.key == c.key) cs

abbrev pub hop_of : Level → ℕ → Option ℕ → List OrderSettlement → OrderSettlement → OrderSettlement
hop_of level now by cs r = if is_among cs r then hopped level now by r else r
