-- ===== src/Finance/Audit/Creations.antt =====
-- createCashbox of FinanceServiceService, and what a new cashbox does to the invariants.
use elchi_backend.Prelude.{
  ℕ, ◌≡◌, refl, sym, ap, ◌∙◌, ◌≢◌, ◌⊎◌, inl, inr, true, none, some, or_else, List, [], ◌∷◌, arith,
  Option-cases, ◌==◌, Occurs, Occurs-append_last, Occurs-append_left, Occurs-append,
}
use elchi_backend.Prelude.Int.{pos, ◌+ℤ◌, int_laws}
use elchi_backend.Prelude.Results.{ok, >>=-eq-ok, ok-injective}
use elchi_backend.Inputs.{assert_big_int_id}
use elchi_backend.Enums.{CashboxType_code}
use elchi_backend.Store.{Table, next_key-ne, find_one-some}
use elchi_backend.Finance.Cashbox.{
  Cashbox, CashboxHistory, belongs_to, CreateCashboxDto, new_cashbox, create_cashbox,
}
use elchi_backend.Finance.Balance.{Books}
use elchi_backend.Finance.Audit.Invariant.{delta, history_sum, IsSound}

delta-foreign : (k : ℕ) (h : CashboxHistory) → h.cashbox_id ≢ k → delta k h ≡ pos 0
delta-foreign k h n = ground arith

same : (a : ℕ) → (a == a) ≡ true
same a = ground arith

nothing_twice : pos 0 +ℤ pos 0 ≡ pos 0
nothing_twice = omega int_laws

-- A cashbox that no history row names has a sum of nothing.
history_sum-none :
    (k : ℕ) (hs : List CashboxHistory)
    → ((h : CashboxHistory) → Occurs h hs → h.cashbox_id ≢ k)
    → history_sum k hs ≡ pos 0
unfolding history_sum
history_sum-none k [] n = refl
history_sum-none k (h ∷ hs) n =
    rw (history_sum-none k hs (λ g o. n g (inr o)), delta-foreign k h (n h (inl refl)))
      nothing_twice

module _ (C : Table Cashbox Cashbox.key) (H : Table CashboxHistory CashboxHistory.key) where
  abbrev with_cashbox : Cashbox → Books C H → Books C H
  with_cashbox n s = record s { cashboxes = C.insert s.cashboxes n }

  Occurs-inserted :
      (n : Cashbox) (s : Books C H) (d : Cashbox)
      → Occurs d (C.rows (with_cashbox n s).cashboxes)
      → Occurs d (C.rows s.cashboxes) ⊎ (d ≡ n)
  Occurs-inserted n s d o =
      elim (Occurs-append (C.rows s.cashboxes) (n ∷ []) d (rw (C.rows-insert s.cashboxes n) at o)) [
        | inl old ↦ inl old
        | inr (inl e) ↦ inr e
        | inr (inr z) ↦ absurd z
      ]

  -- A new cashbox with nothing in it keeps the invariants.
  pub insert-IsSound :
      (n : Cashbox) (s : Books C H)
      → n.key ≡ C.next_key s.cashboxes
      → n.balance ≡ pos 0
      → n.balance_cash ≡ pos 0
      → n.balance_card ≡ pos 0
      → IsSound C H s
      → IsSound C H (with_cashbox n s)
  insert-IsSound n s nk nb nc nd sound = record {
    split = λ d o. elim (Occurs-inserted n s d o) [
      | inl o' ↦ sound.split d o'
      | inr e ↦ rw (e, nb, nc, nd) (omega int_laws)
    ];
    booked = λ d o. elim (Occurs-inserted n s d o) [
      | inl o' ↦ sound.booked d o'
      | inr e ↦
          rw (e, nb, nk)
            (sym (
              history_sum-none (C.next_key s.cashboxes) (H.rows s.histories) (λ h oh same.
                let (c, oc, ec) = sound.entered h oh in
                next_key-ne C s.cashboxes c oc (ec ∙ same))))
    ];
    keyed = λ a b oa ob e. elim (Occurs-inserted n s a oa) [
      | inl oa' ↦ elim (Occurs-inserted n s b ob) [
        | inl ob' ↦ sound.keyed a b oa' ob' e
        | inr eb ↦ absurd (next_key-ne C s.cashboxes a oa' (e ∙ ap (λ c. c.key) eb ∙ nk))
      ]
      | inr ea ↦ elim (Occurs-inserted n s b ob) [
        | inl ob' ↦ absurd (next_key-ne C s.cashboxes b ob' (sym e ∙ ap (λ c. c.key) ea ∙ nk))
        | inr eb ↦ ea ∙ sym eb
      ]
    ];
    entered = λ h o.
        let (c, oc, ec) = sound.entered h o in
        (c, rw (C.rows-insert s.cashboxes n) (Occurs-append_left _ _ c oc), ec);
  }

  new_cashbox-belongs_to :
      (dto : CreateCashboxDto) (user : ℕ) (s : C.State)
      → belongs_to user dto.cashbox_type (new_cashbox C dto user s) ≡ true
  unfolding new_cashbox
  new_cashbox-belongs_to dto user s = rw (same user, same (CashboxType_code dto.cashbox_type)) refl

  found_again :
      (dto : CreateCashboxDto) (user : ℕ) (s : C.State) (d : Cashbox)
      → assert_big_int_id dto.user_id ≡ ok user
      → C.find_one s (belongs_to user dto.cashbox_type) ≡ some d
      → create_cashbox C dto s ≡ ok s
  unfolding create_cashbox
  found_again dto user s d eu found = rw (eu, found) refl

  -- What `create_cashbox` leaves, for an owner whose id is read.
  abbrev found_or_created : CreateCashboxDto → ℕ → C.State → C.State
  found_or_created dto user s = elim (C.find_one s (belongs_to user dto.cashbox_type)) [
    | none ↦ C.insert s (new_cashbox C dto user s)
    | some c ↦ s
  ]

  found_or_created-IsSound :
      (dto : CreateCashboxDto) (s : Books C H) (t : C.State) (user : ℕ)
      → dto.balance ≡ none
      → dto.balance_cash ≡ none
      → dto.balance_card ≡ none
      → IsSound C H s
      → assert_big_int_id dto.user_id ≡ ok user
      → found_or_created dto user s.cashboxes ≡ t
      → IsSound C H (record s { cashboxes = t }) × (create_cashbox C dto t ≡ ok t)
  unfolding new_cashbox
  found_or_created-IsSound dto s t user hb hc hd sound eu h =
      elim (Option-cases (C.find_one s.cashboxes (belongs_to user dto.cashbox_type))) [
        | inr (c, found) ↦
            let e : s.cashboxes ≡ t = rw (found_or_created, found) at h in
            (rw (← e) sound, rw (← e) (found_again dto user s.cashboxes c eu found))
        | inl gone ↦
            let n = new_cashbox C dto user s.cashboxes in
            let e : C.insert s.cashboxes n ≡ t = rw (found_or_created, gone) at h in
            let (d, found) =
              find_one-some C (C.insert s.cashboxes n) (belongs_to user dto.cashbox_type) n
                (rw (C.rows-insert s.cashboxes n) (Occurs-append_last (C.rows s.cashboxes) n))
                (new_cashbox-belongs_to dto user s.cashboxes) in
            let cash : n.balance_cash ≡ pos 0 = ap (λ o. or_else o (pos 0)) hc in
            let card : n.balance_card ≡ pos 0 = ap (λ o. or_else o (pos 0)) hd in
            let total : n.balance ≡ pos 0 = rw (hb, hc, hd) nothing_twice in
            (
              rw (← e) (insert-IsSound n s refl total cash card sound),
              rw (← e) (found_again dto user (C.insert s.cashboxes n) d eu found),
            )
      ]

  -- `createCashbox` of a cashbox without initial balances keeps both invariants of the cashbox
  -- audit, and a second call for the same owner and type is accepted and changes nothing.
  pub create_cashbox-IsSound :
      (dto : CreateCashboxDto) (s : Books C H) (t : C.State)
      → dto.balance ≡ none
      → dto.balance_cash ≡ none
      → dto.balance_card ≡ none
      → IsSound C H s
      → create_cashbox C dto s.cashboxes ≡ ok t
      → IsSound C H (record s { cashboxes = t }) × (create_cashbox C dto t ≡ ok t)
  unfolding create_cashbox
  create_cashbox-IsSound dto s t hb hc hd sound h =
      let (user, eu, h1) = >>=-eq-ok (assert_big_int_id dto.user_id) _ h in
      found_or_created-IsSound dto s t user hb hc hd sound eu (ok-injective h1)
