-- ===== src/Branch.antt =====
-- The tree of branches: createBranch, updateBranch and deleteBranch of BranchServiceService
-- (apps/branch-service/src/branch-service.service.ts), with the checks and the loops that they call.
-- Of the entity Branch the address, the phone number, the region, the district and the manager are
-- not modelled, nor activity logs. What lies outside the service is an argument: the case
-- conversions of JavaScript and of the database, and the answer of the order service.
pub mod Creation
pub mod Changes
pub mod Forest
pub mod Levels
pub mod Rebalance
pub mod Cycles
pub mod Moves
pub mod Descents
pub mod Created
pub mod Deleted
pub mod Placed
pub mod Updated
pub mod Spellings
mod Tests
use mathlib.Core.List.{reverse}
use elchi_backend.Prelude.{
  ℕ, zero, suc, ◌+◌, Bool, true, false, not, ◌&&◌, ◌||◌, Option, none, some, List, [], ◌∷◌, ◌++◌,
  map, ◌==◌, leb, ltb, if◌then◌else◌, opt_eq, is_some, any, filter, length, Text, text_eq, trim,
  is_empty,
}
use elchi_backend.Prelude.Results.{Result, ok, err, or_throw, bad_request, not_found}
use elchi_backend.Prelude.Runs.{Run}
use elchi_backend.Store.{Table}

-- `BranchType`
pub data BranchType : Type 0 where
  hq pickup regional hybrid : BranchType

abbrev pub is_hq : BranchType → Bool
is_hq hq = true
is_hq _ = false

-- `BranchUserRole`
pub data BranchUserRole : Type 0 where
  manager registrator courier : BranchUserRole

abbrev pub is_manager : BranchUserRole → Bool
is_manager manager = true
is_manager _ = false

-- `Branch`
pub record Branch : Type 0 where
  pub key : ℕ  -- id
  pub name : Text
  pub parent_id : Option ℕ
  pub type : BranchType
  pub level : ℕ
  pub code : Option Text
  pub is_active : Bool
  pub is_deleted : Bool

-- `BranchUser`
pub record BranchUser : Type 0 where
  pub key : ℕ  -- id
  pub branch_id : ℕ
  pub user_id : ℕ
  pub role : BranchUserRole
  pub is_deleted : Bool

-- The text of a bigint id: the number that the database reads, and how it is spelled. The
-- database prints a number in spelling 0; a text like "007" is another spelling of 7.
pub record IdText : Type 0 where
  pub value : ℕ
  pub spelling : ℕ

abbrev pub printed : ℕ → IdText
printed n = record { value = n; spelling = 0 }

-- `===` on the texts of ids
abbrev pub same_text : IdText → IdText → Bool
same_text a b = (a.value == b.value) && (a.spelling == b.spelling)

-- A parent in a request: null or empty, a text that the database refuses as a bigint, or an id.
pub data ParentArg : Type 0 where
  nothing refused : ParentArg
  parent : IdText → ParentArg

-- The conversions of case: `toUpperCase` and `toLowerCase` of JavaScript, LOWER of the database.
pub record Cases : Type 0 where
  pub to_upper_case : Text → Text
  pub to_lower_case : Text → Text
  pub lower : Text → Text

-- The caller of the service; `user_id` is empty for a caller that is not known.
pub record Requester : Type 0 where
  pub is_privileged : Bool
  pub user_id : Option ℕ

-- A new branch; `type` is what parseBranchType makes of the text, none if it throws.
pub record CreateDto : Type 0 where
  pub name : Text
  pub code : Text
  pub type : Option BranchType
  pub parent_id : ParentArg

-- A change of a branch, with `none` for what is left out. `status` is what parseStatus makes of a
-- text that is not empty, none if it throws.
pub record UpdateDto : Type 0 where
  pub name : Option Text
  pub code : Option Text
  pub type : Option (Option BranchType)
  pub parent_id : Option ParentArg
  pub status : Option (Option Bool)

-- The fuel of the three loops: over the ancestors of a branch, over its descendants while levels
-- are set, and over the descendants that a manager may read.
pub record Fuel : Type 0 where
  pub up : ℕ
  pub down : ℕ
  pub scope : ℕ

-- `/^[A-Z0-9-]{2,32}$/`
abbrev pub is_code_letter : ℕ → Bool
is_code_letter c =
    if leb b'A' c && leb c b'Z' then true else if leb b'0' c && leb c b'9' then true else c == b'-'

abbrev pub is_code : Text → Bool
is_code t = leb 2 (length t) && leb (length t) 32 && not (any (λ c. not (is_code_letter c)) t)

-- `TRIM` of the database takes spaces only.
abbrev pub without_spaces : Text → Text
without_spaces [] = []
without_spaces (c ∷ t) = if c == 32 then without_spaces t else c ∷ t

abbrev pub sql_trim : Text → Text
sql_trim t = reverse (without_spaces (reverse (without_spaces t)))

abbrev pub opt_text_eq : Option Text → Text → Bool
opt_text_eq none t = false
opt_text_eq (some s) t = text_eq s t

module _ (B : Table Branch Branch.key) where
  -- `where: { id, isDeleted: false }`
  abbrev pub is_live : ℕ → Branch → Bool
  is_live k b = (b.key == k) && not b.is_deleted

  -- `where: { parent_id, isDeleted: false }`
  abbrev pub is_child : ℕ → Branch → Bool
  is_child k b = opt_eq b.parent_id (some k) && not b.is_deleted

  abbrev pub children : ℕ → B.State → List Branch
  children k s = B.find_by s (is_child k) (λ b. 0)

  -- `getBranchOrThrow`
  abbrev pub get_branch : ℕ → B.State → Result Branch
  get_branch k s = or_throw (B.find_one s (is_live k)) not_found

  -- The tests of the loop that refuse an id
  unfoldable pub is_refused : ℕ → List IdText → IdText → Bool
  is_refused branch visited current =
      same_text current (printed branch) || any (same_text current) visited

  -- The loop of ensureNotCyclicParent, over the ids that have been visited.
  unfoldable pub climb : ℕ → ℕ → List IdText → IdText → B.State → Run (Unit {0})
  unfolding is_refused
  climb zero branch visited current s = none
  climb (suc fuel) branch visited current s = elim (is_refused branch visited current) [
    | true ↦ some (err bad_request)
    | false ↦ elim (B.find_one s (is_live current.value)) [
      | none ↦ some (err not_found)
      | some b ↦ elim b.parent_id [
        | none ↦ some (ok tt)
        | some k ↦ climb fuel branch (current ∷ visited) (printed k) s
      ]
    ]
  ]

  -- `ensureNotCyclicParent`
  unfoldable pub ensure_not_cyclic_parent : ℕ → ℕ → IdText → B.State → Run (Unit {0})
  unfolding climb
  ensure_not_cyclic_parent fuel branch above s =
      if same_text (printed branch) above
      then some (err bad_request)
      else climb fuel branch [] above s

  -- `save` of a loaded row whose level has been set
  abbrev pub save_level : ℕ → ℕ → B.State → B.State
  save_level k level s = B.update s (λ b. b.key == k) (λ b. record b { level = level })

  -- The inner loop of rebalanceDescendantLevels: the loaded children get the level that is expected.
  unfoldable pub level_children : ℕ → List Branch → B.State → B.State
  level_children expected [] s = s
  level_children expected (c ∷ cs) s =
      level_children expected cs (if c.level == expected then s else save_level c.key expected s)

  -- `rebalanceDescendantLevels`, with the queue of branches and their levels
  unfoldable pub rebalance : ℕ → List (ℕ × ℕ) → B.State → Option B.State
  unfolding level_children
  rebalance fuel [] s = some s
  rebalance zero (_ ∷ queue) s = none
  rebalance (suc fuel) ((k, level) ∷ queue) s =
      let cs = children k s in
      rebalance fuel (queue ++ map (λ c. (c.key, level + 1)) cs) (level_children (level + 1) cs s)

  -- The rows that one round of a recursive query adds.
  abbrev pub joined : List ℕ → B.State → List ℕ
  joined [] s = []
  joined (k ∷ ks) s = map (λ b. b.key) (children k s) ++ joined ks s

  -- The recursive part of collectDescendantBranchIds: each round joins the table with the rows of
  -- the round before it.
  unfoldable pub descend : ℕ → List ℕ → B.State → Option (List ℕ)
  descend fuel [] s = some []
  descend zero (_ ∷ _) s = none
  descend (suc fuel) (k ∷ ks) s = elim (descend fuel (joined (k ∷ ks) s) s) [
    | none ↦ none
    | some found ↦ some ((k ∷ ks) ++ found)
  ]

  -- `collectDescendantBranchIds`
  unfoldable pub collect_descendant_branch_ids : ℕ → List ℕ → B.State → Option (List ℕ)
  unfolding descend
  collect_descendant_branch_ids fuel roots s =
      let listed = λ (b : Branch). any (λ k. b.key == k) roots && not b.is_deleted in
      descend fuel (map (λ b. b.key) (B.find_by s listed (λ b. 0))) s

  -- `save` under the unique index on codes, which counts deleted rows too
  abbrev pub is_taken : Option Text → Option ℕ → B.State → Bool
  is_taken none except s = false
  is_taken (some code) except s =
      is_some (B.find_one s (λ b. opt_text_eq b.code code && not (opt_eq (some b.key) except)))
