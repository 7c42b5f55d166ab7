-- ===== src/Branch/Creation.antt =====
-- The creation of a branch, and the checks that it shares with a change: names and codes, and the
-- place in the tree.
use elchi_backend.Prelude.{
  ℕ, ◌+◌, Bool, true, false, not, ◌&&◌, Option, none, some, if◌then◌else◌, opt_eq, is_some, Text,
  text_eq, trim, is_empty,
}
use elchi_backend.Prelude.Results.{
  Result, ok, err, ◌>>=◌, ◌>>◌, guard, or_throw, bad_request, not_found, conflict, internal,
}
use elchi_backend.Store.{Table}
use elchi_backend.Branch.{
  BranchType, is_hq, Branch, ParentArg, nothing, refused, parent, Cases, CreateDto, is_code,
  sql_trim, opt_text_eq, is_live, is_taken,
}

module _ (W : Cases) (B : Table Branch Branch.key) where
  -- `normalizeBranchCode`
  unfoldable pub normalize_branch_code : Text → Result Text
  normalize_branch_code t =
      let code = W.to_upper_case (trim t) in if is_code code then ok code else err bad_request

  -- `found && (!exceptId || found.id !== exceptId)`
  abbrev pub is_other : Option Branch → Option ℕ → Bool
  is_other none except = false
  is_other (some b) except = not (opt_eq (some b.key) except)

  -- `ensureBranchNameUnique`
  unfoldable pub ensure_branch_name_unique : Text → Option ℕ → B.State → Result (Unit {0})
  ensure_branch_name_unique name except s =
      let named = λ (b : Branch).
        text_eq (W.lower (sql_trim b.name)) (W.lower (trim name)) && not b.is_deleted in
      if is_empty (trim name)
      then ok tt
      else guard (not (is_other (B.find_one s named) except)) conflict

  -- `ensureBranchCodeUnique`
  unfoldable pub ensure_branch_code_unique : Text → Option ℕ → B.State → Result (Unit {0})
  ensure_branch_code_unique code except s =
      let coded = λ (b : Branch). opt_text_eq b.code code && not b.is_deleted in
      guard (not (is_other (B.find_one s coded) except)) conflict

  abbrev pub find_hq : B.State → Option Branch
  find_hq s = B.find_one s (λ b. is_hq b.type && not b.is_deleted)

  -- The parent and the level of a new branch, of the type HQ or another, below a parent that was
  -- asked for.
  unfoldable pub place_new : Bool → ParentArg → B.State → Result (Option ℕ × ℕ)
  place_new true nothing s = if is_some (find_hq s) then err conflict else ok (none, 0)
  place_new true refused s = err bad_request
  place_new true (parent p) s = err bad_request
  place_new false nothing s = err bad_request
  place_new false refused s = err internal
  place_new false (parent p) s = elim (B.find_one s (is_live B p.value)) [
    | none ↦ err not_found
    | some d ↦ ok (some p.value, d.level + 1)
  ]

  abbrev pub new_branch : Text → Text → BranchType → Option ℕ × ℕ → B.State → Branch
  new_branch name code type place s = record {
    key = B.next_key s;
    name = name;
    parent_id = place.0;
    type = type;
    level = place.1;
    code = some code;
    is_active = true;
    is_deleted = false;
  }

  -- `createBranch`
  unfoldable pub create_branch : CreateDto → B.State → Result B.State
  unfolding normalize_branch_code ensure_branch_name_unique ensure_branch_code_unique place_new
  create_branch dto s = do
    guard (not (is_empty (trim dto.name))) bad_request
    ensure_branch_name_unique dto.name none s
    type ← or_throw dto.type bad_request
    code ← normalize_branch_code dto.code
    ensure_branch_code_unique code none s
    place ← place_new (is_hq type) dto.parent_id s
    guard (not (is_taken B (some code) none s)) internal
    ok (B.insert s (new_branch (trim dto.name) code type place s))

  -- The name of a changed branch
  unfoldable pub next_name : Option Text → Branch → B.State → Result Text
  unfolding ensure_branch_name_unique
  next_name none b s = ok b.name
  next_name (some t) b s = do
    guard (not (is_empty (trim t))) bad_request
    (if text_eq (W.to_lower_case (trim t)) (W.to_lower_case b.name)
        then ok tt
        else ensure_branch_name_unique (trim t) (some b.key) s)
    ok (trim t)

  -- The code of a changed branch
  unfoldable pub next_code : Option Text → Branch → B.State → Result (Option Text)
  unfolding normalize_branch_code ensure_branch_code_unique
  next_code none b s = ok b.code
  next_code (some t) b s = do
    code ← normalize_branch_code t
    ensure_branch_code_unique code (some b.key) s
    ok (some code)
