-- ===== src/Order/Settlement/Fifo.antt =====
-- The loop of `runFifoSettlement`: it settles a prefix of the candidates, oldest first, and
-- accounts for every tiyin of the sum.
use elchi_backend.Prelude.{
  ℕ, zero, suc, ◌≡◌, refl, sym, ap, ◌∙◌, inl, inr, Bool, true, false, ◌&&◌, Option, some, List, [],
  ◌∷◌, map, map_if, arith, if◌then◌else◌, Bool-cases, take, drop, ◌==◌,
}
use elchi_backend.Prelude.Int.{
  ℤ, pos, ◌+ℤ◌, ◌-ℤ◌, ◌≤ℤ◌, ◌<ℤ◌, ltb_ℤ, max_zero, int_laws, parts_zero,
}
use elchi_backend.Prelude.Results.{ok, ok-injective}
use elchi_backend.Store.{Table, IsAscending}
use elchi_backend.Finance.Payments.{Level, courier_to_branch, branch_to_hq, hq_to_market}
use elchi_backend.Order.Settlement.Hops.{
  worth, leg_amount-worth, is_among, hop_of, hopped, advanced-hopped,
}
use elchi_backend.Order.Settlement.{
  OrderSettlement, leg_amount, advanced, Outcome, fifo, is_candidate, advance_settlement,
}

-- What the candidates are worth together.
abbrev pub legs_sum : Level → List OrderSettlement → ℤ
legs_sum level [] = pos 0
legs_sum level (x ∷ xs) = worth level x +ℤ legs_sum level xs

-- The first of the candidates, if there is one, costs more than what is left.
abbrev pub TooDear : Level → List OrderSettlement → ℤ → Type 0
TooDear level [] left = Unit
TooDear level (x ∷ xs) left = left <ℤ worth level x

-- `n` candidates were settled, from the front, and paid for out of the sum; the next one, if there
-- is one, could not be paid for with what was left.
pub record PaysPrefix (level : Level) (cs : List OrderSettlement) (sum : ℤ) (ids : List ℕ)
    (allocated : ℤ) (n : ℕ) : Type 0 where
  pub oldest_first : ids ≡ map (λ r. r.order_id) (take n cs)
  pub paid : allocated ≡ legs_sum level (take n cs)
  pub afforded : allocated ≤ℤ sum
  pub stopped : TooDear level (drop n cs) (sum -ℤ allocated)

leg_nonneg : (level : Level) (x : OrderSettlement) → pos 0 ≤ℤ leg_amount level x
leg_nonneg level x = omega (int_laws)

le_of_not_lt : (a b : ℤ) → ltb_ℤ a b ≡ false → b ≤ℤ a
le_of_not_lt a b h = ground arith

lt_of_ltb : (a b : ℤ) → ltb_ℤ a b ≡ true → a <ℤ b
lt_of_ltb a b h = ground arith

minus_nothing : (sum leg : ℤ) → pos 0 ≤ℤ leg → leg ≤ℤ pos 0 → sum ≡ sum -ℤ leg
minus_nothing sum leg h k = omega int_laws

plus_nothing : (a leg : ℤ) → pos 0 ≤ℤ leg → leg ≤ℤ pos 0 → a ≡ leg +ℤ a
plus_nothing a leg h k = omega int_laws

-- A leg that is worth nothing takes nothing, so that the two branches are one.
left_lem :
    (leg sum : ℤ) → pos 0 ≤ℤ leg → (if ltb_ℤ (pos 0) leg then sum -ℤ leg else sum) ≡ sum -ℤ leg
left_lem leg sum h = elim (Bool-cases (ltb_ℤ (pos 0) leg)) [
  | inl t ↦ rw t refl
  | inr f ↦ rw f (minus_nothing sum leg h (le_of_not_lt (pos 0) leg f))
]

allocated_lem : (leg a : ℤ) → pos 0 ≤ℤ leg → (if ltb_ℤ (pos 0) leg then leg +ℤ a else a) ≡ leg +ℤ a
allocated_lem leg a h = elim (Bool-cases (ltb_ℤ (pos 0) leg)) [
  | inl t ↦ rw t refl
  | inr f ↦ rw f (plus_nothing a leg h (le_of_not_lt (pos 0) leg f))
]

and_true : (a b : Bool) → (a && b) ≡ true → a ≡ true
and_true true b h = refl
and_true false b h = cc

-- A leg that does not stop the loop fits.
fits :
    (leg sum : ℤ)
    → pos 0 ≤ℤ sum
    → (ltb_ℤ sum leg && ltb_ℤ (pos 0) leg) ≡ false
    → pos 0 ≤ℤ sum -ℤ leg
fits leg sum h go = elim (Bool-cases (ltb_ℤ sum leg)) [
  | inl over ↦ fits_free leg sum h (le_of_not_lt (pos 0) leg (rw over at go))
  | inr under ↦ fits_paid leg sum (le_of_not_lt sum leg under)
]
  where
    fits_free : (leg sum : ℤ) → pos 0 ≤ℤ sum → leg ≤ℤ pos 0 → pos 0 ≤ℤ sum -ℤ leg
    fits_free leg sum h k = omega int_laws

    fits_paid : (leg sum : ℤ) → leg ≤ℤ sum → pos 0 ≤ℤ sum -ℤ leg
    fits_paid leg sum k = omega int_laws

minus_zero : (a : ℤ) → a -ℤ pos 0 ≡ a
minus_zero a = omega int_laws

minus_sum : (sum leg a : ℤ) → sum -ℤ (leg +ℤ a) ≡ sum -ℤ leg -ℤ a
minus_sum sum leg a = omega int_laws

afford_more : (leg a sum : ℤ) → a ≤ℤ sum -ℤ leg → leg +ℤ a ≤ℤ sum
afford_more leg a sum h = omega int_laws

-- One more settled candidate at the front.
PaysPrefix-cons :
    (level : Level) (x : OrderSettlement) (xs : List OrderSettlement) (sum : ℤ) (ids : List ℕ)
    (a : ℤ) (n : ℕ)
    → PaysPrefix level xs (sum -ℤ leg_amount level x) ids a n
    → PaysPrefix level (x ∷ xs) sum (x.order_id ∷ ids) (leg_amount level x +ℤ a) (suc n)
PaysPrefix-cons level x xs sum ids a n p = record {
  oldest_first = ap (λ l. x.order_id ∷ l) p.oldest_first;
  paid = rw (leg_amount-worth level x) (ap (λ b. worth level x +ℤ b) p.paid);
  afforded = afford_more (leg_amount level x) a sum p.afforded;
  stopped = rw (minus_sum sum (leg_amount level x) a) p.stopped;
}

-- The leftover that is reported makes up the sum.
sum_up : (sum a : ℤ) → a ≤ℤ sum → a +ℤ max_zero (sum -ℤ a) ≡ sum
sum_up sum a h = omega (int_laws, parts_zero (sum -ℤ a))

same_max : (a : ℤ) → pos 0 <ℤ a → max_zero a ≡ a
same_max a h = omega (int_laws, parts_zero a)

ltb_of_lt : (a b : ℤ) → a <ℤ b → ltb_ℤ a b ≡ true
ltb_of_lt a b h = ground arith

le_of_lt : (a b : ℤ) → a <ℤ b → a ≤ℤ b
le_of_lt a b h = omega arith

-- One row after the other, a hop each
hop_of-none :
    (level : Level) (now : ℕ) (by : Option ℕ) (rows : List OrderSettlement)
    → rows ≡ map (hop_of level now by []) rows
hop_of-none level now by [] = refl
hop_of-none level now by (r ∷ rows) = ap (λ rest. r ∷ rest) (hop_of-none level now by rows)

hopped_twice :
    (level : Level) (now : ℕ) (by : Option ℕ) (r : OrderSettlement)
    → hopped level now by (hopped level now by r) ≡ hopped level now by r
hopped_twice courier_to_branch now by r = refl
hopped_twice branch_to_hq now by r = refl
hopped_twice hq_to_market now by r = refl

hop_of-hopped :
    (level : Level) (now : ℕ) (by : Option ℕ) (cs : List OrderSettlement) (r : OrderSettlement)
    → hop_of level now by cs (hopped level now by r) ≡ hopped level now by r
hop_of-hopped level now by cs r = elim (Bool-cases (is_among cs (hopped level now by r))) [
  | inl t ↦ rw t (hopped_twice level now by r)
  | inr f ↦ rw f refl
]

hop_of-cons :
    (level : Level) (now : ℕ) (by : Option ℕ) (x : OrderSettlement) (cs : List OrderSettlement)
    (r : OrderSettlement)
    → hop_of level now by cs (if r.key == x.key then advanced level now by r else r)
      ≡ hop_of level now by (x ∷ cs) r
hop_of-cons level now by x cs r = elim (Bool-cases (r.key == x.key)) [
  | inr n ↦ rw n refl
  | inl y ↦ rw y (
      ap (hop_of level now by cs) (advanced-hopped level now by r)
      ∙ hop_of-hopped level now by cs r)
]

hop_of-rows :
    (level : Level) (now : ℕ) (by : Option ℕ) (x : OrderSettlement) (cs rows : List OrderSettlement)
    → map (hop_of level now by cs) (map_if (λ r. r.key == x.key) (advanced level now by) rows)
      ≡ map (hop_of level now by (x ∷ cs)) rows
hop_of-rows level now by x cs [] = refl
hop_of-rows level now by x cs (r ∷ rows) =
    rw (hop_of-cons level now by x cs r, hop_of-rows level now by x cs rows) refl

module _ (T : Table OrderSettlement OrderSettlement.key) where
  pub fifo-PaysPrefix :
      (level : Level) (now : ℕ) (by : Option ℕ) (cs : List OrderSettlement) (sum : ℤ) (s : T.State)
      → pos 0 ≤ℤ sum
      → let done = fifo T level now by cs sum s in
        (n : ℕ) × PaysPrefix level cs sum done.settled_order_ids done.allocated n
        × (T.rows done.state ≡ map (hop_of level now by (take n cs)) (T.rows s))
  unfolding fifo
  fifo-PaysPrefix level now by [] sum s h = (
    zero,
    record { oldest_first = refl; paid = refl; afforded = h; stopped = tt },
    hop_of-none level now by (T.rows s),
  )
  fifo-PaysPrefix level now by (x ∷ xs) sum s h =
      elim (Bool-cases (ltb_ℤ sum (leg_amount level x) && ltb_ℤ (pos 0) (leg_amount level x))) [
        | inl stop ↦ (
          zero,
          rw stop (record {
            oldest_first = refl;
            paid = refl;
            afforded = h;
            stopped =
                rw (minus_zero sum, ← leg_amount-worth level x)
                  (lt_of_ltb sum (leg_amount level x) (and_true _ _ stop));
          }),
          rw stop (hop_of-none level now by (T.rows s)),
        )
        | inr go ↦
            let leg = leg_amount level x in
            let (n, p, rows) =
              fifo-PaysPrefix level now by xs (sum -ℤ leg)
                (T.update s (λ r. r.key == x.key) (advanced level now by)) (fits leg sum h go) in
            (
              suc n,
              rw
                  (
                    go,
                    left_lem leg sum (leg_nonneg level x),
                    allocated_lem leg _ (leg_nonneg level x),
                  )
                  (PaysPrefix-cons level x xs sum _ _ n p),
              rw (go, left_lem leg sum (leg_nonneg level x))
                  (rows
                    ∙ ap (map (hop_of level now by (take n xs)))
                        (T.rows-update s (λ r. r.key == x.key) (advanced level now by))
                    ∙ hop_of-rows level now by x (take n xs) (T.rows s)),
            )
      ]

  -- An advance of a positive sum, with a requester, that is applied settles a prefix of the
  -- candidates, oldest first: it returns their orders, pays for each in full, stops at the first that
  -- it cannot pay for, and reports the rest of the sum as left over. In the table after it the rows
  -- of that prefix are one hop further along the chain, with the stamp of the call, and all other
  -- rows are as they were.
  pub advance_settlement-PaysPrefix :
      (level : Level) (match_value : ℕ) (amount : ℤ) (now by : ℕ) (s : T.State)
      (done : Outcome T.State)
      → pos 0 <ℤ amount
      → advance_settlement T level (some match_value) amount now (some by) s ≡ ok done
      → let cs = T.find_by s (is_candidate level match_value) (λ r. r.created_at) in
        (n : ℕ) × IsAscending (λ (r : OrderSettlement). r.created_at) cs
        × PaysPrefix level cs amount done.settled_order_ids done.allocated n
        × (done.allocated +ℤ done.leftover ≡ amount)
        × (T.rows done.state ≡ map (hop_of level now (some by) (take n cs)) (T.rows s))
  unfolding advance_settlement
  advance_settlement-PaysPrefix level match_value amount now by s done h e =
      let cs = T.find_by s (is_candidate level match_value) (λ r. r.created_at) in
      let (n, p, rows) =
        fifo-PaysPrefix level now (some by) cs amount s (le_of_lt (pos 0) amount h) in
      let same = ok-injective (rw (same_max amount h, ltb_of_lt (pos 0) amount h) at e) in
      rw (sym same) (
        n,
        T.find_by-IsAscending s (is_candidate level match_value) (λ r. r.created_at),
        p,
        sum_up amount _ p.afforded,
        rows,
      )
