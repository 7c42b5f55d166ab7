-- ===== src/Finance/Audit/Legs.antt =====
-- One leg, from a loaded cashbox to its saved balance and history row, keeps the invariants.
use elchi_backend.Prelude.{
  ℕ, ◌≡◌, refl, sym, ap, ◌∙◌, ◌≢◌, ◌⊎◌, inl, inr, Bool, false, [], ◌∷◌, arith, ◌==◌, Bool-cases,
  Occurs, Occurs-map_if, map_if-Occurs, map_if-Occurs_image, Occurs-append,
}
use elchi_backend.Prelude.Int.{ℤ, pos, ◌+ℤ◌, int_laws}
use elchi_backend.Prelude.Results.{ok}
use elchi_backend.Enums.{OperationType, PaymentMethod, cash, click, click_to_market}
use elchi_backend.Store.{Table}
use elchi_backend.Finance.Cashbox.{Cashbox, CashboxHistory, signed, update_balances_by_method}
use elchi_backend.Finance.Balance.{Books, Leg, history_row, save_leg}
use elchi_backend.Finance.Audit.Invariant.{delta, history_sum, history_sum-append, IsSound}

-- What `updateBalancesByMethod` does to the cashbox when it does not throw.
pub record Moved (c : Cashbox) (change : ℤ) (c' : Cashbox) : Type 0 where
  pub same_key : c'.key ≡ c.key
  pub same_user : c'.user_id ≡ c.user_id
  pub same_kind : c'.cashbox_type ≡ c.cashbox_type
  pub kept : c'.is_deleted ≡ c.is_deleted
  pub splits : c'.balance ≡ c'.balance_cash +ℤ c'.balance_card
  pub moves : c'.balance ≡ c.balance_cash +ℤ c.balance_card +ℤ change

regroup_cash : (a b x : ℤ) → a +ℤ x +ℤ b ≡ a +ℤ b +ℤ x
regroup_cash a b x = omega int_laws

regroup_card : (a b x : ℤ) → a +ℤ (b +ℤ x) ≡ a +ℤ b +ℤ x
regroup_card a b x = omega int_laws

pub update_balances_by_method-Moved :
    (c : Cashbox) (amount : ℤ) (operation : OperationType) (method : PaymentMethod)
    (override : Bool) (c' : Cashbox)
    → update_balances_by_method c amount operation method override ≡ ok c'
    → Moved c (signed operation amount) c'
unfolding update_balances_by_method
update_balances_by_method-Moved c amount operation cash override c' h =
    ground (arith, regroup_cash c.balance_cash c.balance_card (signed operation amount))
update_balances_by_method-Moved c amount operation click override c' h =
    ground (arith, regroup_card c.balance_cash c.balance_card (signed operation amount))
update_balances_by_method-Moved c amount operation click_to_market override c' h =
    ground (arith, regroup_card c.balance_cash c.balance_card (signed operation amount))

delta-own :
    (k : ℕ) (c : Cashbox) (leg : Leg)
    → delta c.key (history_row k c leg) ≡ signed leg.operation_type leg.amount
unfolding history_row
delta-own k c leg = ground arith

delta-other :
    (k j : ℕ) (c : Cashbox) (leg : Leg)
    → (j == c.key) ≡ false
    → delta j (history_row k c leg) ≡ pos 0
unfolding history_row
delta-other k j c leg n = ground arith

add_nothing : (a : ℤ) → a ≡ a +ℤ pos 0
add_nothing a = omega int_laws

module _ (C : Table Cashbox Cashbox.key) (H : Table CashboxHistory CashboxHistory.key) where
  -- The rows of the cashbox table after a leg: the one that was moved, or one that was there.
  pub Occurs-save_leg :
      (s : Books C H) (c' : Cashbox) (leg : Leg) (d : Cashbox)
      → Occurs d (C.rows (save_leg C H c' leg s).cashboxes)
      → (d ≡ c') ⊎ (Occurs d (C.rows s.cashboxes) × ((d.key == c'.key) ≡ false))
  unfolding save_leg
  Occurs-save_leg s c' leg d o =
      elim (Occurs-map_if (λ r. r.key == c'.key) (λ r. c') (C.rows s.cashboxes) d
        (rw (C.rows-update s.cashboxes (λ r. r.key == c'.key) (λ r. c')) at o)) [
          | inl (x, ox, t, e) ↦ inl e
          | inr old ↦ inr old
        ]

  pub save_leg-Occurs :
      (s : Books C H) (c c' : Cashbox) (leg : Leg)
      → c'.key ≡ c.key
      → Occurs c (C.rows s.cashboxes)
      → Occurs c' (C.rows (save_leg C H c' leg s).cashboxes)
  unfolding save_leg
  save_leg-Occurs s c c' leg e o =
      rw (C.rows-update s.cashboxes (λ r. r.key == c'.key) (λ r. c')) (
        map_if-Occurs_image (λ r. r.key == c'.key) (λ r. c') (C.rows s.cashboxes) c (ground arith)
          o)

  pub save_leg-Occurs_other :
      (s : Books C H) (d c' : Cashbox) (leg : Leg)
      → d.key ≢ c'.key
      → Occurs d (C.rows s.cashboxes)
      → Occurs d (C.rows (save_leg C H c' leg s).cashboxes)
  unfolding save_leg
  save_leg-Occurs_other s d c' leg n o =
      rw (C.rows-update s.cashboxes (λ r. r.key == c'.key) (λ r. c'))
        (map_if-Occurs (λ r. r.key == c'.key) (λ r. c') (C.rows s.cashboxes) d (ground arith) o)

  pub history_sum-save_leg :
      (s : Books C H) (c' : Cashbox) (leg : Leg) (k : ℕ)
      → history_sum k (H.rows (save_leg C H c' leg s).histories)
        ≡ history_sum k (H.rows s.histories)
          +ℤ delta k (history_row (H.next_key s.histories) c' leg)
  unfolding save_leg
  history_sum-save_leg s c' leg k =
      rw (H.rows-insert s.histories (history_row (H.next_key s.histories) c' leg))
        (history_sum-append k (H.rows s.histories) (history_row (H.next_key s.histories) c' leg))

  module _ (s : Books C H) (c c' : Cashbox) (leg : Leg) (sound : IsSound C H s)
      (here : Occurs c (C.rows s.cashboxes))
      (m : Moved c (signed leg.operation_type leg.amount) c') where
    -- The balance that was moved agrees with the longer history.
    booked_moved : c'.balance ≡ history_sum c'.key (H.rows (save_leg C H c' leg s).histories)
    booked_moved =
        rw (history_sum-save_leg s c' leg c'.key, delta-own, m.same_key)
          (m.moves
            ∙ ap (λ b. b +ℤ signed leg.operation_type leg.amount)
                (sym (sound.split c here) ∙ sound.booked c here))

    booked_other :
        (d : Cashbox)
        → Occurs d (C.rows s.cashboxes)
        → (d.key == c'.key) ≡ false
        → d.balance ≡ history_sum d.key (H.rows (save_leg C H c' leg s).histories)
    booked_other d o n =
        rw (history_sum-save_leg s c' leg d.key, delta-other _ d.key c' leg n)
          (sound.booked d o ∙ add_nothing _)

    entered_by :
        (h : CashboxHistory)
        → (c0 : Cashbox) → Occurs c0 (C.rows s.cashboxes)
        → c0.key ≡ h.cashbox_id
        → (x : Cashbox) × Occurs x (C.rows (save_leg C H c' leg s).cashboxes)
          × (x.key ≡ h.cashbox_id)
    entered_by h c0 o e = elim (Bool-cases (c0.key == c'.key)) [
      | inl same ↦ (c', save_leg-Occurs s c c' leg m.same_key here, ground arith)
      | inr other ↦ (c0, save_leg-Occurs_other s c0 c' leg (ground arith) o, e)
    ]

    -- The history after a leg: the leg's row, or a row that was there.
    Occurs-history :
        (h : CashboxHistory)
        → Occurs h (H.rows (save_leg C H c' leg s).histories)
        → (h ≡ history_row (H.next_key s.histories) c' leg) ⊎ Occurs h (H.rows s.histories)
    unfolding save_leg
    Occurs-history h o =
        elim (Occurs-append (H.rows s.histories) (history_row (H.next_key s.histories) c' leg ∷ [])
          h (rw (H.rows-insert s.histories (history_row (H.next_key s.histories) c' leg)) at o)) [
            | inl old ↦ inr old
            | inr (inl new) ↦ inl new
            | inr (inr none_left) ↦ absurd none_left
          ]

    own_cashbox : (history_row (H.next_key s.histories) c' leg).cashbox_id ≡ c'.key
    unfolding history_row
    own_cashbox = refl

    -- A leg posted on a cashbox of the table keeps both invariants.
    pub save_leg-IsSound : IsSound C H (save_leg C H c' leg s)
    save_leg-IsSound = record {
      split = λ d o. elim (Occurs-save_leg s c' leg d o) [
        | inl e ↦ rw e m.splits
        | inr (o', n) ↦ sound.split d o'
      ];
      booked = λ d o. elim (Occurs-save_leg s c' leg d o) [
        | inl e ↦ rw e booked_moved
        | inr (o', n) ↦ booked_other d o' n
      ];
      keyed = λ a b oa ob e. elim (Occurs-save_leg s c' leg a oa) [
        | inl ea ↦ elim (Occurs-save_leg s c' leg b ob) [
          | inl eb ↦ ea ∙ sym eb
          | inr (ob', n) ↦ absurd (ground arith)
        ]
        | inr (oa', n) ↦ elim (Occurs-save_leg s c' leg b ob) [
          | inl eb ↦ absurd (ground arith)
          | inr (ob', k) ↦ sound.keyed a b oa' ob' e
        ]
      ];
      entered = λ h o. elim (Occurs-history h o) [
        | inl e ↦ (c', save_leg-Occurs s c c' leg m.same_key here, rw e (sym own_cashbox))
        | inr o' ↦ let (c0, oc, e) = sound.entered h o' in entered_by h c0 oc e
      ];
    }
