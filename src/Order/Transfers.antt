-- ===== src/Order/Transfers.antt =====
-- The batches in which branches send orders to one another: sendBranchTransferBatch,
-- receiveBranchTransferBatch, receiveBranchTransferBatchOrders, cancelBranchTransferBatch and
-- cancelBranchTransferBatches of
-- apps/order-service/src/transfer-batch/branch-transfer-batch.service.ts. Tracking and custody rows
-- are lists of what is written; texts, roles, the batch history, the QR tokens and request keys of
-- new batches, and activity logs are not modelled.
pub mod Receiving
pub mod Sending
pub mod Partial
pub mod Rests
pub mod Parted
pub mod Arrivals
pub mod Kept
pub mod Closing
mod Tests
use elchi_backend.Prelude.{
  ℕ, Bool, true, false, not, ◌&&◌, ◌||◌, Option, none, some, List, [], ◌∷◌, ◌++◌, map, ◌==◌, leb,
  if◌then◌else◌, opt_eq, is_some, any, filter, length, Text, trim, is_empty,
}
use elchi_backend.Prelude.Int.{ℤ, pos, ◌+ℤ◌}
use elchi_backend.Prelude.Results.{
  Result, ok, err, ◌>>=◌, ◌>>◌, guard, or_throw, bad_request, not_found, internal,
}
use elchi_backend.Inputs.{IdArg, is_missing, missing, malformed, id}
use elchi_backend.Store.{Table}
use elchi_backend.Order.Status.{
  OrderStatus, new, on_the_road, received as order_received, same_status,
}

-- `BranchTransferDirection`
pub data TransferDirection : Type 0 where
  forward return : TransferDirection

-- `BranchTransferBatchStatus`
pub data BatchStatus : Type 0 where
  pending sent received cancelled : BatchStatus

-- `OrderHolderType`
pub data HolderType : Type 0 where
  hq branch courier market : HolderType

abbrev pub is_forward : TransferDirection → Bool
is_forward forward = true
is_forward return = false

abbrev pub is_sent : BatchStatus → Bool
is_sent sent = true
is_sent _ = false

-- Neither received nor cancelled
abbrev pub is_open : BatchStatus → Bool
is_open pending = true
is_open sent = true
is_open received = false
is_open cancelled = false

abbrev pub is_branch : Option HolderType → Bool
is_branch (some branch) = true
is_branch _ = false

-- The plate, the name and the phone number of a driver
pub record Vehicle : Type 0 where
  pub plate : Text
  pub driver : Text
  pub phone : Text

-- `BranchTransferBatch`
pub record Batch : Type 0 where
  pub key : ℕ  -- id
  pub source_branch_id : ℕ
  pub destination_branch_id : ℕ
  pub direction : TransferDirection
  pub target_region_id : ℕ
  pub status : BatchStatus
  pub order_count : ℕ
  pub total_price : ℤ
  pub vehicle : Option Vehicle
  pub sent_at : Option ℕ
  pub received_at : Option ℕ
  pub received_by_user_id : Option ℕ
  pub cancelled_at : Option ℕ
  pub is_deleted : Bool

-- `BranchTransferBatchItem`
pub record BatchItem : Type 0 where
  pub key : ℕ  -- id
  pub batch_id : ℕ
  pub order_id : ℕ
  pub snapshot_price : ℤ
  pub sent_at : Option ℕ
  pub is_deleted : Bool

-- The columns of `Order` that transfers read or write
pub record Parcel : Type 0 where
  pub key : ℕ  -- id
  pub status : OrderStatus
  pub region_id : Option ℕ
  pub branch_id : Option ℕ
  pub current_batch_id : Option ℕ
  pub holder_type : Option HolderType
  pub holder_branch_id : Option ℕ
  pub holder_courier_id : Option ℕ
  pub last_handover_at : Option ℕ
  pub last_handover_by : Option ℕ
  pub is_deleted : Bool

-- A row of the tracking of an order
pub record TrackingEvent : Type 0 where
  pub order_id : ℕ
  pub from_status : OrderStatus
  pub to_status : OrderStatus
  pub changed_by : ℕ

-- A change of custody to a branch
pub record CustodyEvent : Type 0 where
  pub order_id : ℕ
  pub from_holder_type : Option HolderType
  pub from_branch_id : Option ℕ
  pub from_courier_id : Option ℕ
  pub to_branch_id : ℕ
  pub changed_by : ℕ

-- `new Set(...)`: the first of each
abbrev pub without : ℕ → List ℕ → List ℕ
without k [] = []
without k (j ∷ js) = if j == k then without k js else j ∷ without k js

abbrev pub distinct : List ℕ → List ℕ
distinct [] = []
distinct (k ∷ ks) = k ∷ without k (distinct ks)

abbrev pub first_of {ℓ} : {A : Type ℓ} → List A → Option A
first_of [] = none
first_of (x ∷ xs) = some x

-- The driver and the car are named.
abbrev pub has_texts : Vehicle → Bool
has_texts v =
    not (is_empty (trim v.plate)) && not (is_empty (trim v.driver)) && not (is_empty (trim v.phone))

abbrev pub trimmed : Vehicle → Vehicle
trimmed v = record { plate = trim v.plate; driver = trim v.driver; phone = trim v.phone }

abbrev pub is_in : List ℕ → ℕ → Bool
is_in ks k = any (λ j. k == j) ks

-- `new Map(...)` keeps the last item of an order.
abbrev pub last_of {ℓ} : {A : Type ℓ} → List A → Option A
last_of [] = none
last_of (x ∷ xs) = if is_some (last_of xs) then last_of xs else some x

-- The number that the database reads in the id of a batch
abbrev pub batch_key : IdArg → Result ℕ
batch_key missing = err bad_request
batch_key malformed = err internal
batch_key (id k) = ok k

abbrev pub sum_prices : List BatchItem → ℤ
sum_prices [] = pos 0
sum_prices (i ∷ items) = i.snapshot_price +ℤ sum_prices items

-- A status event for each order whose status is another
abbrev pub status_changes : ℕ → OrderStatus → List Parcel → List TrackingEvent
status_changes by to [] = []
status_changes by to (o ∷ os) =
    let rest = status_changes by to os in
    if same_status o.status to
    then rest
    else record { order_id = o.key; from_status = o.status; to_status = to; changed_by = by } ∷ rest

-- The loaded orders with these keys, in the order of the keys
abbrev pub in_order : List ℕ → List Parcel → List Parcel
in_order [] os = []
in_order (k ∷ ks) os = elim (first_of (filter (λ o. o.key == k) os)) [
  | none ↦ in_order ks os
  | some o ↦ o ∷ in_order ks os
]

-- A custody event for each order that the branch does not hold yet
abbrev pub custody_changes : ℕ → ℕ → List Parcel → List CustodyEvent
custody_changes by to [] = []
custody_changes by to (o ∷ os) =
    let rest = custody_changes by to os in
    if is_branch o.holder_type
      && opt_eq o.holder_branch_id (some to)
      && not (is_some o.holder_courier_id)
    then rest
    else record {
      order_id = o.key;
      from_holder_type = o.holder_type;
      from_branch_id = o.holder_branch_id;
      from_courier_id = o.holder_courier_id;
      to_branch_id = to;
      changed_by = by;
    }
      ∷ rest

-- An order that a branch has taken over
abbrev pub handed_over : ℕ → ℕ → ℕ → Parcel → Parcel
handed_over to by now o = record o {
  current_batch_id = none;
  branch_id = some to;
  holder_type = some branch;
  holder_branch_id = some to;
  holder_courier_id = none;
  last_handover_at = some now;
  last_handover_by = some by;
}

pub record SendDto : Type 0 where
  pub batch_id : IdArg
  pub order_ids : List ℕ
  pub vehicle : Vehicle
  pub requester_id : ℕ

abbrev pub is_batch : ℕ → Batch → Bool
is_batch k b = (b.key == k) && not b.is_deleted

abbrev pub is_listed : List ℕ → Parcel → Bool
is_listed ks o = is_in ks o.key && not o.is_deleted

-- Whether an order that a batch brings stays in the region of the batch
abbrev pub is_local : Batch → Parcel → Bool
is_local b o = opt_eq o.region_id (some b.target_region_id)

module _ (T : Table Batch Batch.key) (I : Table BatchItem BatchItem.key)
    (O : Table Parcel Parcel.key) where
  -- The tables that a transfer writes, and what it has written to those of tracking and custody.
  pub record Depot : Type 0 where
    pub batches : T.State
    pub items : I.State
    pub orders : O.State
    pub tracked : List TrackingEvent
    pub handovers : List CustodyEvent

  abbrev pub items_of : ℕ → I.State → List BatchItem
  items_of k s = I.find_by s (λ i. (i.batch_id == k) && not i.is_deleted) (λ i. 0)
