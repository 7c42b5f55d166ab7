-- ===== src/Finance/Shifts/Sums.antt =====
-- The totals of a shift as signed sums of the rows of the history.
use elchi_backend.Prelude.{
  ◌≡◌, refl, ◌∙◌, Bool, true, false, not, ◌&&◌, List, [], ◌∷◌, if◌then◌else◌,
}
use elchi_backend.Prelude.Int.{ℤ, pos, ◌+ℤ◌, ◌-ℤ◌, int_laws}
use elchi_backend.Enums.{OperationType, income, expense}
use elchi_backend.Finance.Cashbox.{CashboxHistory, signed}
use elchi_backend.Finance.Shifts.{is_cash, is_income, counted, total_by}

-- The signed amount of a row, in cash or in another way.
abbrev pub moved : Bool → CashboxHistory → ℤ
moved true h = if is_cash h.payment_method then signed h.operation_type h.amount else pos 0
moved false h = if is_cash h.payment_method then pos 0 else signed h.operation_type h.amount

abbrev pub movement : Bool → List CashboxHistory → ℤ
movement in_cash [] = pos 0
movement in_cash (h ∷ hs) = moved in_cash h +ℤ movement in_cash hs

signed_amount :
    (o : OperationType) (a : ℤ)
    → (if is_income o then a else pos 0) -ℤ (if not (is_income o) then a else pos 0) ≡ signed o a
unfolding signed
signed_amount income a = omega int_laws
signed_amount expense a = omega int_laws

counted-moved :
    (in_cash : Bool) (h : CashboxHistory)
    → counted true in_cash h -ℤ counted false in_cash h ≡ moved in_cash h
counted-moved true h = in_cash h.operation_type (is_cash h.payment_method)
  where
    in_cash :
        (o : OperationType) (b : Bool)
        → (if is_income o && b then h.amount else pos 0)
            -ℤ (if not (is_income o) && b then h.amount else pos 0)
          ≡ (if b then signed o h.amount else pos 0)
    in_cash income true = signed_amount income h.amount
    in_cash expense true = signed_amount expense h.amount
    in_cash income false = omega int_laws
    in_cash expense false = omega int_laws
counted-moved false h = otherwise h.operation_type (is_cash h.payment_method)
  where
    otherwise :
        (o : OperationType) (b : Bool)
        → (if is_income o && not b then h.amount else pos 0)
            -ℤ (if not (is_income o) && not b then h.amount else pos 0)
          ≡ (if b then pos 0 else signed o h.amount)
    otherwise income false = signed_amount income h.amount
    otherwise expense false = signed_amount expense h.amount
    otherwise income true = omega int_laws
    otherwise expense true = omega int_laws

-- Incomes without expenses are the signed sum.
pub total_by-movement :
    (in_cash : Bool) (hs : List CashboxHistory)
    → total_by true in_cash hs -ℤ total_by false in_cash hs ≡ movement in_cash hs
unfolding total_by
total_by-movement b [] = omega int_laws
total_by-movement b (h ∷ hs) =
    apart (counted true b h) (counted false b h) (total_by true b hs) (total_by false b hs)
    ∙ rw (counted-moved b h, total_by-movement b hs) refl
  where
    apart : (a c x y : ℤ) → (a +ℤ x) -ℤ (c +ℤ y) ≡ (a -ℤ c) +ℤ (x -ℤ y)
    apart a c x y = omega int_laws
