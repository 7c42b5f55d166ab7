-- ===== src/Finance/Audit/Invariant.antt =====
-- The invariants as the audit script states them, over the rows that are not deleted histories.
use elchi_backend.Prelude.{ℕ, ◌≡◌, not, ◌&&◌, List, [], ◌∷◌, ◌++◌, ◌==◌, if◌then◌else◌, Occurs}
use elchi_backend.Prelude.Int.{ℤ, pos, ◌+ℤ◌, int_laws}
use elchi_backend.Store.{Table}
use elchi_backend.Finance.Cashbox.{Cashbox, CashboxHistory, signed}
use elchi_backend.Finance.Balance.{Books}

-- The `signed` rows of the script: the delta of a history row for one cashbox.
abbrev pub delta : ℕ → CashboxHistory → ℤ
delta k h =
    if (h.cashbox_id == k) && not h.is_deleted then signed h.operation_type h.amount else pos 0

-- `COALESCE(SUM(s.delta), 0)`
unfoldable pub history_sum : ℕ → List CashboxHistory → ℤ
history_sum k [] = pos 0
history_sum k (h ∷ hs) = delta k h +ℤ history_sum k hs

pub history_sum-append :
    (k : ℕ) (hs : List CashboxHistory) (h : CashboxHistory)
    → history_sum k (hs ++ h ∷ []) ≡ history_sum k hs +ℤ delta k h
unfolding history_sum
history_sum-append k [] h = omega int_laws
history_sum-append k (g ∷ hs) h = rw (history_sum-append k hs h) (omega int_laws)

module _ (C : Table Cashbox Cashbox.key) (H : Table CashboxHistory CashboxHistory.key) where
  -- Both invariants, with the primary key and the foreign key of the history that they rest on.
  pub record IsSound (s : Books C H) : Type 0 where
    -- I2
    pub split :
        (c : Cashbox) → Occurs c (C.rows s.cashboxes) → c.balance ≡ c.balance_cash +ℤ c.balance_card
    -- I1
    pub booked :
        (c : Cashbox)
        → Occurs c (C.rows s.cashboxes)
        → c.balance ≡ history_sum c.key (H.rows s.histories)
    pub keyed :
        (a b : Cashbox)
        → Occurs a (C.rows s.cashboxes)
        → Occurs b (C.rows s.cashboxes)
        → a.key ≡ b.key
        → a ≡ b
    pub entered :
        (h : CashboxHistory)
        → Occurs h (H.rows s.histories)
        → (c : Cashbox) × Occurs c (C.rows s.cashboxes) × (c.key ≡ h.cashbox_id)
