-- ===== src/Common/Idempotency.antt =====
-- The idempotency keys of message handlers (libs/common/src/idempotency/idempotency.service.ts and
-- idempotent-execute.helper.ts). A key is reserved by an insert that the unique index on its name
-- lets through once; each call of the service is taken as one step, since a reclaim repeats in its
-- update all the conditions that it has read. Pruning is not modelled.
pub mod Leases
pub mod Executions
use elchi_backend.Prelude.{
  ℕ, ◌+◌, ◌-◌, Bool, true, false, not, ◌&&◌, Option, none, some, List, [], ◌∷◌, ltb, if◌then◌else◌,
  Text, text_eq, is_empty,
}
use elchi_backend.Store.{Table}

pub data KeyStatus : Type 0 where
  in_progress completed failed : KeyStatus

abbrev pub is_in_progress : KeyStatus → Bool
is_in_progress in_progress = true
is_in_progress _ = false

-- `IdempotencyKey`; `A` are the responses of the handlers and `F` their errors.
pub record IdempotencyKey (A F : Type 0) : Type 0 where
  pub key : ℕ  -- id
  pub name : Text  -- key
  pub pattern : Text
  pub status : KeyStatus
  pub response : Option A
  pub error : Option F
  pub created_at : ℕ
  pub completed_at : Option ℕ

-- `AcquireResult`
pub data AcquireResult (A F : Type 0) : Type 0 where
  acquired : AcquireResult A F
  cached_response : Option A → AcquireResult A F
  busy : AcquireResult A F
  cached_error : Option F → AcquireResult A F

abbrev pub default_lease_ms : ℕ
default_lease_ms = 30000

-- What a delivery comes to: the reply, or the error that is thrown; a requeued message comes back.
pub data Outcome (A F : Type 0) : Type 0 where
  replied : Option A → Outcome A F
  thrown : Option F → Outcome A F
  requeued : Outcome A F

-- What the work of a handler comes to.
pub data Work (A F : Type 0) : Type 0 where
  returns : A → Work A F
  throws : F → Work A F

module _ {A F : Type 0} (K : Table (IdempotencyKey A F) IdempotencyKey.key) where
  abbrev new_key : Text → Text → ℕ → K.State → IdempotencyKey A F
  new_key name pattern now s = record {
    key = K.next_key s;
    name = name;
    pattern = pattern;
    status = in_progress;
    response = none;
    error = none;
    created_at = now;
    completed_at = none;
  }

  -- The key is reserved anew when its lease has expired.
  unfoldable pub reclaim : Text → ℕ → ℕ → K.State → K.State
  reclaim name cutoff now s =
      K.update s (λ e. text_eq e.name name && is_in_progress e.status && ltb e.created_at cutoff)
        (λ e. record e { created_at = now })

  abbrev of_existing :
      IdempotencyKey A F → KeyStatus → Text → ℕ → ℕ → K.State → AcquireResult A F × K.State
  of_existing e completed name lease now s = (cached_response e.response, s)
  of_existing e failed name lease now s = (cached_error e.error, s)
  of_existing e in_progress name lease now s =
      if ltb e.created_at (now - lease)
      then (acquired, reclaim name (now - lease) now s)
      else (busy, s)

  -- `tryAcquire`
  unfoldable pub try_acquire : Text → Text → ℕ → ℕ → K.State → AcquireResult A F × K.State
  unfolding reclaim
  try_acquire name pattern lease now s = elim (K.find_one s (λ e. text_eq e.name name)) [
    | none ↦ (acquired, K.insert s (new_key name pattern now s))
    | some e ↦ of_existing e e.status name lease now s
  ]

  -- `markCompleted`
  unfoldable pub mark_completed : Text → A → ℕ → K.State → K.State
  mark_completed name response now s =
      K.update s (λ e. text_eq e.name name)
        (λ e. record e { status = completed; response = some response; completed_at = some now })

  -- `markFailed`
  unfoldable pub mark_failed : Text → F → ℕ → K.State → K.State
  mark_failed name error now s =
      K.update s (λ e. text_eq e.name name)
        (λ e. record e { status = failed; error = some error; completed_at = some now })

  module _ {W : Type 0} where
    abbrev finish : Text → ℕ → Work A F × W → K.State → Outcome A F × (W × K.State)
    finish name now (returns a, w) s = (replied (some a), (w, mark_completed name a now s))
    finish name now (throws f, w) s = (thrown (some f), (w, mark_failed name f now s))

    abbrev execute_acquired :
        (W → Work A F × W)
        → Text
        → ℕ
        → AcquireResult A F × K.State
        → W
        → Outcome A F × (W × K.State)
    execute_acquired handler name now (acquired, s) w = finish name now (handler w) s
    execute_acquired handler name now (cached_response a, s) w = (replied a, (w, s))
    execute_acquired handler name now (cached_error f, s) w = (thrown f, (w, s))
    execute_acquired handler name now (busy, s) w = (requeued, (w, s))

    -- `executeIdempotent`, for a request id that is not empty; `handler` changes the rest of the
    -- world, and `finished` is the time at which it is done.
    unfoldable pub execute_idempotent :
        (W → Work A F × W) → Text → Text → ℕ → ℕ → W → K.State → Outcome A F × (W × K.State)
    unfolding try_acquire mark_completed mark_failed
    execute_idempotent handler name pattern now finished w s =
        execute_acquired handler name finished (try_acquire name pattern default_lease_ms now s) w

-- A call of the service by some worker.
pub data Call (A F : Type 0) : Type 0 where
  acquire : Text → Text → ℕ → ℕ → Call A F
  complete : Text → A → ℕ → Call A F
  fail : Text → F → ℕ → Call A F

-- The time of a call.
abbrev pub time_of : {A F : Type 0} → Call A F → ℕ
time_of (acquire name pattern lease now) = now
time_of (complete name a now) = now
time_of (fail name f now) = now

module _ {A F : Type 0} (K : Table (IdempotencyKey A F) IdempotencyKey.key) where
  unfoldable pub run_call : Call A F → K.State → K.State
  unfolding try_acquire mark_completed mark_failed
  run_call (acquire name pattern lease now) s = (try_acquire K name pattern lease now s).1
  run_call (complete name a now) s = mark_completed K name a now s
  run_call (fail name f now) s = mark_failed K name f now s

  unfoldable pub run_calls : List (Call A F) → K.State → K.State
  unfolding run_call
  run_calls [] s = s
  run_calls (c ∷ cs) s = run_calls cs (run_call c s)
