-- ===== src/Inputs.antt =====
-- What arrives in a request before it is validated: ids and dates are texts, amounts are numbers
-- that may not be finite.
use elchi_backend.Prelude.{ℕ, Bool, true, false, Option, none, some}
use elchi_backend.Prelude.Int.{ℤ, pos, ltb_ℤ}
use elchi_backend.Prelude.Results.{bad_request, Result, ok, err}

-- A bigint id: left out or empty, a text that is not all digits, or a number.
pub data IdArg : Type 0 where
  missing malformed : IdArg
  id : ℕ → IdArg

-- A date: left out, a text that `new Date` refuses, or a point in time.
pub data DateArg : Type 0 where
  absent invalid : DateArg
  date : ℕ → DateArg

-- The falsy test `!value`.
abbrev pub is_missing : IdArg → Bool
is_missing missing = true
is_missing _ = false

-- `assertBigIntId`, with the id that it lets through.
unfoldable pub assert_big_int_id : IdArg → Result ℕ
assert_big_int_id missing = err bad_request
assert_big_int_id malformed = err bad_request
assert_big_int_id (id n) = ok n

-- `assertPositiveAmount`; `none` stands for NaN and the infinities.
unfoldable pub assert_positive_amount : Option ℤ → Result ℤ
assert_positive_amount none = err bad_request
assert_positive_amount (some a) = elim (ltb_ℤ (pos 0) a) [ true ↦ ok a | false ↦ err bad_request ]

-- `parseDate`
unfoldable pub parse_date : DateArg → Result (Option ℕ)
parse_date absent = ok none
parse_date invalid = err bad_request
parse_date (date t) = ok (some t)
