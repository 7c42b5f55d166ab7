-- ===== src/Common/Tests.antt =====
-- The theorems about the outbox on two events, in a table held in memory.
use elchi_backend.Prelude.{
  ℕ, ◌≡◌, refl, inl, inr, true, none, List, [], ◌∷◌, arith, Occurs, All-Occurs, IsDistinct,
  IsDistinct-keyed, codes, ◌<◌,
}
use elchi_backend.Store.{Table}
use elchi_backend.Store.Memory.{memory}
use elchi_backend.Common.Outbox.{
  EventStatus, pending, published, is_pending, OutboxEvent, Delivery, send_failed,
  default_max_attempts, tick,
}
use elchi_backend.Common.Outbox.Polls.{IsBounded, tick-IsBounded, tick-Occurs}

abbrev events : Table (OutboxEvent ℕ) OutboxEvent.key
events = memory (OutboxEvent ℕ) OutboxEvent.key

abbrev event : ℕ → EventStatus → ℕ → OutboxEvent ℕ
event k status attempts = record {
  key = k;
  target = codes "ORDER";
  pattern = codes "order.settlement.advance";
  payload = k;
  request_id = codes "id";
  status = status;
  attempts = attempts;
  scheduled_at = 5;
  published_at = none;
  last_error = none;
}

-- One event has a last attempt left, the other is published.
abbrev queue : List (OutboxEvent ℕ)
queue = event 1 pending 9 ∷ event 2 published 3 ∷ []

abbrev refuse : OutboxEvent ℕ → Delivery
refuse e = send_failed (codes "down")

queue-IsBounded : IsBounded events queue
queue-IsBounded e o =
    All-Occurs
      (λ (x : OutboxEvent ℕ). is_pending x.status ≡ true → x.attempts < default_max_attempts) queue
      e ((λ p. omega arith), ((λ p. (cc p)), tt)) o

tick-IsBounded_example : IsBounded events (tick events refuse 100 10 (codes "no client") queue)
tick-IsBounded_example =
    tick-IsBounded events refuse 100 10 (codes "no client") queue queue-IsBounded

queue-IsDistinct : IsDistinct OutboxEvent.key queue
queue-IsDistinct = (((λ e. cc), tt), (tt, tt))

tick-Occurs_example :
    Occurs (event 2 published 3) (tick events refuse 100 10 (codes "no client") queue)
tick-Occurs_example =
    tick-Occurs events refuse 100 10 (codes "no client") queue (event 2 published 3)
      (IsDistinct-keyed OutboxEvent.key queue queue-IsDistinct) (inr (inl refl)) refl
