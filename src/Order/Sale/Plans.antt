-- ===== src/Order/Sale/Plans.antt =====
-- What `sellOrder` does before its transaction: the caller's courier, the tariffs, the proofs and
-- the amounts of the sale.
use elchi_backend.Prelude.{
  ℕ, Bool, true, false, not, ◌&&◌, ◌||◌, Option, none, some, if◌then◌else◌, opt_eq, is_some,
  or_else,
}
use elchi_backend.Prelude.Int.{ℤ, pos, max_zero}
use elchi_backend.Prelude.Results.{
  Result, ok, err, ◌>>=◌, ◌>>◌, guard, or_throw, bad_request, not_found,
}
use elchi_backend.Enums.{CashboxType, for_courier, branch}
use elchi_backend.Order.Status.{waiting, same_status}
use elchi_backend.Order.Money.{resolve_sale_actor_share, sale_payment}
use elchi_backend.Order.Proof.{ProofCondition, enforce_operation_proof}
use elchi_backend.Order.Proof as Proof
use elchi_backend.Order.Sale.{Order, Requester, Actor, Lookups, SellDto, Quote, Plan, amounts_of}

abbrev pub first_of : Option ℕ → Option ℕ → Option ℕ
first_of none b = b
first_of (some a) b = some a

-- `resolveActorCourierId`
unfoldable pub resolve_actor_courier_id : Requester → Order → Option ℕ → Result ℕ
resolve_actor_courier_id q o post_courier =
    let resolved = first_of post_courier (first_of o.holder_courier_id o.courier_id) in
    let is_mine : Option ℕ → Bool = λ c. opt_eq c (some q.key) in
    if q.is_courier
    then if is_mine post_courier || is_mine o.holder_courier_id || is_mine o.courier_id
      then ok q.key
      else err bad_request
    else if q.is_manager
    then if is_some q.branch_id
        && (opt_eq q.branch_id o.holder_branch_id || opt_eq q.branch_id o.branch_id)
      then ok (or_else resolved q.key)
      else err bad_request
    else if q.is_super_admin
    then or_throw resolved bad_request
    else err bad_request

abbrev pub tariff_of : Bool → Actor → ℤ
tariff_of is_center a = if is_center then a.tariff_center else a.tariff_home

abbrev pub only_if : {A : Type 0} → Bool → Option A → Option A
only_if b o = if b then o else none

abbrev pub owner_of : CashboxType → Option ℕ → Option (ℕ × CashboxType)
owner_of t none = none
owner_of t (some u) = some (u, t)

-- The settlement branch when it has a cashbox.
abbrev pub branch_with_cashbox : Lookups → Option ℕ
branch_with_cashbox l = elim l.settlement_branch [
  | none ↦ none
  | some b ↦ only_if (l.has_branch_cashbox b) (some b)
]

-- What the settlement branch keeps of an order.
abbrev pub share_of : Lookups → Option ℕ → ℤ
share_of l none = pos 0
share_of l (some b) = l.branch_share b

-- The cashbox that bears the extra cost beside the market's.
abbrev pub expense_cashbox_of : Bool → Requester → ℕ → Option ℕ → Option (ℕ × CashboxType)
expense_cashbox_of true q courier none = none
expense_cashbox_of true q courier (some b) = owner_of branch q.branch_id
expense_cashbox_of false q courier b = some (courier, for_courier)

-- The part of `sellOrder` up to the payment, with the order that it has read
unfoldable pub quote_sale : Lookups → Requester → Order → SellDto → Result Quote
unfolding resolve_actor_courier_id resolve_sale_actor_share
quote_sale l q o dto = do
  guard (same_status o.status waiting) bad_request
  post ← or_throw o.post_id bad_request
  courier ← resolve_actor_courier_id q o (l.post_courier post)
  let is_manager = q.is_manager && not q.is_courier
  market ← or_throw (l.market_of o.market_id) not_found
  actor ← or_throw (if is_manager then l.user_of q.key else l.courier_of courier) not_found
  market_balance ← or_throw (l.market_balance o.market_id) not_found
  let has_courier = not is_manager && l.has_courier_cashbox courier
  guard (has_courier || is_manager) not_found
  let market_tariff = tariff_of o.is_center market
  let courier_tariff = tariff_of o.is_center actor
  let courier_share = resolve_sale_actor_share is_manager actor.compensation_mode courier_tariff
  let branch_share = share_of l l.settlement_branch
  let extra_cost = max_zero dto.extra_cost
  proof_files ←
      enforce_operation_proof l.file_exists market.expense_proof_conditions Proof.sell extra_cost
        o.total_price dto.proof_file_keys false dto.proof_file_keys_verified
  ok (record {
    order = o;
    requester = q.key;
    requested = or_else dto.paid_amount (some o.paid_amount);
    market_balance = market_balance;
    extra_cost = extra_cost;
    market_tariff = market_tariff;
    courier_tariff = courier_tariff;
    courier_share = courier_share;
    branch_share = branch_share;
    courier = only_if has_courier (some courier);
    settlement_branch = l.settlement_branch;
    branch_cashbox = branch_with_cashbox l;
    expense_cashbox = expense_cashbox_of is_manager q courier (branch_with_cashbox l);
    proof_files = proof_files;
  })

-- What `sellOrder` does before its transaction
unfoldable pub plan_sale : Lookups → Requester → Order → SellDto → Result Plan
unfolding quote_sale sale_payment
plan_sale l q o dto = do
  quote ← quote_sale l q o dto
  payment ← sale_payment (amounts_of quote).market_income quote.requested quote.market_balance
  ok (record { quote = quote; payment = payment })
