-- ===== src/Order/Settlement/Progress.antt =====
-- An advance moves rows along the chain by one hop, and never back.
use elchi_backend.Prelude.{
  ℕ, ◌≡◌, refl, sym, ap, ◌∙◌, ◌⊎◌, inl, inr, true, ◌&&◌, Option, none, some, List, [], ◌∷◌, arith,
  ◌==◌, if◌then◌else◌, Bool-cases, Occurs, Occurs-map_if, List-cases,
}
use elchi_backend.Prelude.Int.{ℤ, pos, max_zero, ◌-ℤ◌, ltb_ℤ}
use elchi_backend.Prelude.Results.{ok, ok-injective}
use elchi_backend.Store.{Table}
use elchi_backend.Finance.Payments.{Level, courier_to_branch, branch_to_hq, hq_to_market}
use elchi_backend.Order.Settlement.Hops.{Awaits, hopped, advanced-hopped, is_candidate-Awaits}
use elchi_backend.Order.Settlement.{
  OrderSettlement, leg_amount, advanced, is_candidate, Outcome, fifo, run_fifo_settlement,
  check_requester, advance_settlement,
}

advanced_twice :
    (level : Level) (now : ℕ) (by : Option ℕ) (r : OrderSettlement)
    → advanced level now by (advanced level now by r) ≡ advanced level now by r
advanced_twice courier_to_branch now by r = refl
advanced_twice branch_to_hq now by r = refl
advanced_twice hq_to_market now by r = refl

advanced-key :
    (level : Level) (now : ℕ) (by : Option ℕ) (r : OrderSettlement)
    → (advanced level now by r).key ≡ r.key
advanced-key courier_to_branch now by r = refl
advanced-key branch_to_hq now by r = refl
advanced-key hq_to_market now by r = refl

module _ (T : Table OrderSettlement OrderSettlement.key) where
  -- The primary key of the table.
  abbrev pub IsKeyed : T.State → Type 0
  IsKeyed s =
      (a b : OrderSettlement) → Occurs a (T.rows s) → Occurs b (T.rows s) → a.key ≡ b.key → a ≡ b

  -- Every row of `s` was a row of `s0`, or is a candidate of `s0` as the code advances it.
  abbrev HasAdvanced : Level → ℕ → ℕ → Option ℕ → T.State → T.State → Type 0
  HasAdvanced level match_value now by s0 s =
      (r : OrderSettlement)
      → Occurs r (T.rows s)
      → Occurs r (T.rows s0)
        ⊎ ((r0 : OrderSettlement) × Occurs r0 (T.rows s0)
            × (is_candidate level match_value r0 ≡ true)
            × (r ≡ advanced level now by r0))

  module _ (level : Level) (match_value now : ℕ) (by : Option ℕ) (s0 : T.State)
      (keyed : IsKeyed s0) where
    HasAdvanced-update :
        (s : T.State) (x : OrderSettlement)
        → Occurs x (T.rows s0)
        → is_candidate level match_value x ≡ true
        → HasAdvanced level match_value now by s0 s
        → HasAdvanced level match_value now by s0
            (T.update s (λ r. r.key == x.key) (advanced level now by))
    HasAdvanced-update s x ox cx hop r o =
        elim (Occurs-map_if (λ y. y.key == x.key) (advanced level now by) (T.rows s) r
          (rw (T.rows-update s (λ y. y.key == x.key) (advanced level now by)) at o)) [
            | inr (old, n) ↦ hop r old
            | inl (y, oy, same, e) ↦ elim (hop y oy) [
              | inl oy0 ↦
                  let z : y ≡ x = keyed y x oy0 ox (ground arith) in
                  inr (x, ox, cx, e ∙ ap (advanced level now by) z)
              | inr (r0, or0, cr0, ey) ↦
                  inr (
                    r0,
                    or0,
                    cr0,
                    e ∙ ap (advanced level now by) ey ∙ advanced_twice level now by r0,
                  )
            ]
          ]

    fifo-HasAdvanced :
        (cs : List OrderSettlement) (sum : ℤ) (s : T.State)
        → ((x : OrderSettlement)
            → Occurs x cs
            → Occurs x (T.rows s0) × (is_candidate level match_value x ≡ true))
        → HasAdvanced level match_value now by s0 s
        → HasAdvanced level match_value now by s0 (fifo T level now by cs sum s).state
    unfolding fifo
    fifo-HasAdvanced [] sum s h hop = hop
    fifo-HasAdvanced (x ∷ xs) sum s h hop =
        elim (Bool-cases (ltb_ℤ sum (leg_amount level x) && ltb_ℤ (pos 0) (leg_amount level x))) [
          | inl stop ↦ rw stop hop
          | inr go ↦
              let (ox, cx) = h x (inl refl) in
              rw go (
                fifo-HasAdvanced xs
                  (if ltb_ℤ (pos 0) (leg_amount level x) then sum -ℤ leg_amount level x else sum)
                  (T.update s (λ r. r.key == x.key) (advanced level now by)) (λ y oy. h y (inr oy))
                  (HasAdvanced-update s x ox cx hop))
        ]

    run-HasAdvanced :
        (lump_sum : ℤ)
        → HasAdvanced level match_value now by s0
            (run_fifo_settlement T level match_value now by lump_sum s0).state
    unfolding run_fifo_settlement
    run-HasAdvanced lump_sum = elim (Bool-cases (ltb_ℤ (pos 0) (max_zero lump_sum))) [
      | inl some_sum ↦ rw some_sum (
          fifo-HasAdvanced (T.find_by s0 (is_candidate level match_value) (λ r. r.created_at))
            (max_zero lump_sum) s0
            (T.find_by-Occurs s0 (is_candidate level match_value) (λ r. r.created_at))
            (λ r o. inl o))
      | inr no_sum ↦ rw no_sum (λ r o. inl o)
    ]

  -- Every row of `s` was a row of `s0`, or was waiting for the level in `s0` and is one hop further.
  abbrev pub OneHop : Level → ℕ → ℕ → Option ℕ → T.State → T.State → Type 0
  OneHop level match_value now by s0 s =
      (r : OrderSettlement)
      → Occurs r (T.rows s)
      → Occurs r (T.rows s0)
        ⊎ ((r0 : OrderSettlement) × Occurs r0 (T.rows s0)
            × Awaits level match_value r0
            × (r ≡ hopped level now by r0))

  HasAdvanced-OneHop :
      (level : Level) (match_value now : ℕ) (by : Option ℕ) (s0 s : T.State)
      → HasAdvanced level match_value now by s0 s
      → OneHop level match_value now by s0 s
  HasAdvanced-OneHop level match_value now by s0 s h r o = elim (h r o) [
    | inl old ↦ inl old
    | inr (r0, o0, c, e) ↦
        inr
          (r0, o0, is_candidate-Awaits level match_value r0 c, e ∙ advanced-hopped level now by r0)
  ]

  check_requester-state :
      (by : Option ℕ) (done d : Outcome T.State) → check_requester T by done ≡ ok d → done ≡ d
  unfolding check_requester
  check_requester-state (some by) done d h = ok-injective h
  check_requester-state none done d h = ground arith

  no_requester-no_ids :
      (a b : Outcome T.State) → check_requester T none a ≡ ok b → b.settled_order_ids ≡ []
  unfolding check_requester
  no_requester-no_ids a b e = elim (List-cases a.settled_order_ids) [
    | inl nil ↦ sym (ap (λ d. d.settled_order_ids) (ok-injective (rw nil at e)))
    | inr (x, xs, c) ↦ cc (rw c at e)
  ]

  -- In a table with a primary key, each row after an advance that is applied was there before it,
  -- or was waiting for the level (with its participant, at the status before that hop, not deleted)
  -- and is now at the next status of the chain pending, courier settled, branch settled, market
  -- settled, with the stamp of the call, and nothing else about it changed.
  pub advance_settlement-OneHop :
      (level : Level) (match_value : ℕ) (amount : ℤ) (now : ℕ) (by : Option ℕ) (s : T.State)
      (done : Outcome T.State)
      → IsKeyed s
      → advance_settlement T level (some match_value) amount now by s ≡ ok done
      → OneHop level match_value now by s done.state
  unfolding advance_settlement
  advance_settlement-OneHop level match_value amount now by s done keyed h =
      elim (Bool-cases (ltb_ℤ (pos 0) amount)) [
        | inl t ↦ rw (sym (check_requester-state by _ done (rw t at h))) (
            HasAdvanced-OneHop level match_value now by s _
              (run-HasAdvanced level match_value now by s keyed amount))
        | inr f ↦ rw (sym (ok-injective (rw f at h))) (λ r o. inl o)
      ]

  -- Without a requester no order is ever settled: the call is refused or changes nothing.
  advance_without_requester :
      (level : Level) (match_value : ℕ) (amount : ℤ) (now : ℕ) (s : T.State)
      (done : Outcome T.State)
      → advance_settlement T level (some match_value) amount now none s ≡ ok done
      → done.settled_order_ids ≡ []
  unfolding advance_settlement
  advance_without_requester level match_value amount now s done h =
      elim (Bool-cases (ltb_ℤ (pos 0) amount)) [
        | inl t ↦ no_requester-no_ids _ done (rw t at h)
        | inr f ↦ rw (sym (ok-injective (rw f at h))) refl
      ]
