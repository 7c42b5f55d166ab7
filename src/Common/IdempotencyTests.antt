-- ===== src/Common/IdempotencyTests.antt =====
-- The theorems about idempotency keys for the sale of one order, in a table held in memory.
use elchi_backend.Prelude.{
  ℕ, suc, ◌≡◌, ◌≢◌, refl, inl, inr, none, some, List, [], ◌∷◌, Occurs, arith, Text, codes,
}
use elchi_backend.Store.{Table}
use elchi_backend.Store.Memory.{memory}
use elchi_backend.Common.Idempotency.{
  in_progress, IdempotencyKey, acquired, replied, Work, returns, try_acquire, execute_idempotent,
  Call, acquire, complete, run_calls,
}
use elchi_backend.Common.Idempotency.Leases.{
  IsUniqueName, try_acquire-exclusive, try_acquire-recovers,
}
use elchi_backend.Common.Idempotency.Executions.{execute_idempotent-once}

abbrev keys : Table (IdempotencyKey ℕ ℕ) IdempotencyKey.key
keys = memory (IdempotencyKey ℕ ℕ) IdempotencyKey.key

abbrev sale : Text
sale = codes "order.sell:1"

-- Another worker tries the key of the sale, and settles that of a cancellation.
abbrev others : List (Call ℕ ℕ)
others = acquire sale (codes "order.sell") 30000 150 ∷ complete (codes "order.cancel:2") 7 160 ∷ []

-- The key of a worker that stopped at 100.
abbrev left : IdempotencyKey ℕ ℕ
left = record {
  key = 1;
  name = sale;
  pattern = codes "order.sell";
  status = in_progress;
  response = none;
  error = none;
  created_at = 100;
  completed_at = none;
}

nothing-IsUniqueName : IsUniqueName keys sale []
nothing-IsUniqueName x y h k mx my = elim h [ ]

left-IsUniqueName : IsUniqueName keys sale (left ∷ [])
left-IsUniqueName x y (inl h) (inl k) mx my = rw (h, k) refl
left-IsUniqueName x y (inl h) (inr k) mx my = elim k [ ]
left-IsUniqueName x y (inr h) k mx my = elim h [ ]

abbrev reserved : List (IdempotencyKey ℕ ℕ)
reserved = (try_acquire keys sale (codes "order.sell") 30000 100 []).1

try_acquire-exclusive_example :
    (try_acquire keys sale (codes "order.sell") 30000 200 (run_calls keys others reserved)).0
    ≢ acquired
unfolding try_acquire
try_acquire-exclusive_example =
    try_acquire-exclusive keys sale (codes "order.sell") (codes "order.sell") 30000 30000 100 200 []
      others nothing-IsUniqueName refl (omega arith, (omega arith, tt)) (omega arith)

-- Another worker takes the key over, and a third is told to wait.
try_acquire-recovers_example :
    let after = try_acquire keys sale (codes "order.sell") 30000 40000 (left ∷ []) in
    (after.0 ≡ acquired)
    × Occurs (record left { created_at = 40000 }) after.1
    × ((try_acquire keys sale
          (codes "order.sell")
          30000
          50000
          (run_calls keys (acquire sale (codes "order.sell") 30000 45000 ∷ []) after.1)).0
        ≢ acquired)
try_acquire-recovers_example =
    try_acquire-recovers keys sale (codes "order.sell") (codes "order.sell") 30000 30000 40000 50000
      (left ∷ []) left (acquire sale (codes "order.sell") 30000 45000 ∷ []) left-IsUniqueName
      (inl refl) refl refl (omega arith) (omega arith, tt) (omega arith)

-- The handler counts how often it has run.
abbrev count : ℕ → Work ℕ ℕ × ℕ
count w = (returns (suc w), suc w)

abbrev done : List (IdempotencyKey ℕ ℕ)
done = (execute_idempotent keys count sale (codes "order.sell") 100 120 0 []).1.1

execute_idempotent-once_example :
    execute_idempotent keys count sale (codes "order.sell") 300 320 1 (run_calls keys others done)
    ≡ (replied (some 1), (1, run_calls keys others done))
unfolding try_acquire
execute_idempotent-once_example =
    execute_idempotent-once keys count count sale (codes "order.sell") (codes "order.sell") 100 120
      300 320 0 1 1 1 [] others nothing-IsUniqueName refl refl (refl, (refl, tt))
