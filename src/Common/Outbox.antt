-- ===== src/Common/Outbox.antt =====
-- The transactional outbox (libs/common/src/outbox/outbox.service.ts and outbox.publisher.ts). An
-- event is written in the transaction of the business change, and a poller sends it until the
-- send succeeds or ten attempts have failed.
pub mod Polls
use elchi_backend.Prelude.{
  ℕ, ◌+◌, ◌*◌, ◌^◌, Bool, true, false, ◌&&◌, Option, none, some, List, [], ◌∷◌, min, ◌==◌, leb,
  if◌then◌else◌, or_else, Text, is_empty, take, length, filter,
}
use elchi_backend.Store.{Table}

pub data EventStatus : Type 0 where
  pending published failed : EventStatus

abbrev pub is_pending : EventStatus → Bool
is_pending pending = true
is_pending _ = false

abbrev pub is_failed : EventStatus → Bool
is_failed failed = true
is_failed _ = false

-- A row of `outbox_events`. The payload is an object with a `request_id` of its own.
pub record OutboxEvent (P : Type 0) : Type 0 where
  pub key : ℕ  -- id
  pub target : Text
  pub pattern : Text
  pub payload : P
  pub request_id : Text
  pub status : EventStatus
  pub attempts : ℕ
  pub scheduled_at : ℕ  -- milliseconds
  pub published_at : Option ℕ
  pub last_error : Option Text

-- `attachRequestId` of an object: an id that the payload carries already is kept, else it is the
-- one of the options, else a random one.
unfoldable pub attach_request_id : Option Text → Option Text → Text → Text
attach_request_id none request_id uuid = or_else request_id uuid
attach_request_id (some own) request_id uuid = if is_empty own then or_else request_id uuid else own

abbrev pub default_max_attempts : ℕ
default_max_attempts = 10

-- What one attempt to send an event came to.
pub data Delivery : Type 0 where
  no_client : Delivery
  delivered : Delivery
  send_failed : Text → Delivery

-- The delay before the next attempt.
unfoldable pub backoff : ℕ → ℕ
backoff attempts = min (2 ^ attempts * 1000) 60000

module _ {P : Type 0} (O : Table (OutboxEvent P) OutboxEvent.key) where
  -- `enqueue`
  unfoldable pub enqueue :
      Text → Text → P → Option Text → Option Text → Option ℕ → Text → ℕ → O.State → O.State
  unfolding attach_request_id
  enqueue target pattern payload own_id request_id scheduled uuid now s = O.insert s (record {
    key = O.next_key s;
    target = target;
    pattern = pattern;
    payload = payload;
    request_id = attach_request_id own_id request_id uuid;
    status = pending;
    attempts = 0;
    scheduled_at = or_else scheduled now;
    published_at = none;
    last_error = none;
  })

  -- `getDuePending`
  unfoldable pub get_due_pending : ℕ → ℕ → O.State → List (OutboxEvent P)
  get_due_pending limit now s =
      take limit
        (O.find_by s (λ e. is_pending e.status && leb e.scheduled_at now) (λ e. e.scheduled_at))

  -- `countFailed`
  unfoldable pub count_failed : O.State → ℕ
  count_failed s = length (filter (λ e. is_failed e.status) (O.rows s))

  -- `markPublished`
  unfoldable pub mark_published : ℕ → ℕ → O.State → O.State
  mark_published k now s =
      O.update s (λ e. e.key == k)
        (λ e. record e { status = published; published_at = some now; last_error = none })

  -- `markFailed`: one more attempt is counted, and the last one makes the event a poison event.
  unfoldable pub mark_failed : ℕ → Text → ℕ → ℕ → ℕ → O.State → O.State
  mark_failed k error backoff_ms max_attempts now s = elim (O.find_one s (λ e. e.key == k)) [
    | none ↦ s
    | some event ↦
        let next_attempts = event.attempts + 1 in
        if leb max_attempts next_attempts
        then O.update s (λ e. e.key == k)
            (λ e. record e { status = failed; attempts = next_attempts; last_error = some error })
        else O.update s (λ e. e.key == k)
            (λ e. record e {
              attempts = next_attempts;
              last_error = some error;
              scheduled_at = now + backoff_ms;
            })
  ]

  -- The body of the loop of `tick`, once the outcome of the send is known.
  unfoldable pub settle_delivery : OutboxEvent P → Delivery → ℕ → Text → O.State → O.State
  unfolding mark_failed mark_published backoff
  settle_delivery e no_client now error s = mark_failed e.key error 60000 default_max_attempts now s
  settle_delivery e delivered now error s = mark_published e.key now s
  settle_delivery e (send_failed m) now error s =
      mark_failed e.key m (backoff e.attempts) default_max_attempts now s

  -- The loop of `tick` over the due events, each with what its send came to.
  unfoldable pub deliver_all :
      (OutboxEvent P → Delivery) → ℕ → Text → List (OutboxEvent P) → O.State → O.State
  unfolding settle_delivery
  deliver_all send now error [] s = s
  deliver_all send now error (e ∷ es) s =
      deliver_all send now error es (settle_delivery e (send e) now error s)

  -- `tick`
  unfoldable pub tick : (OutboxEvent P → Delivery) → ℕ → ℕ → Text → O.State → O.State
  unfolding deliver_all get_due_pending
  tick send batch_size now error s = deliver_all send now error (get_due_pending batch_size now s) s
