-- ===== src/Branch/Changes.antt =====
-- Changes of a branch and its deletion, with the right to write that they ask for.
use elchi_backend.Prelude.{
  ℕ, ◌+◌, ltb, Bool, true, false, not, ◌&&◌, ◌||◌, Option, none, some, List, [], ◌∷◌, ◌==◌, map,
  any, filter, if◌then◌else◌, is_some, or_else,
}
use elchi_backend.Prelude.Results.{
  Result, ok, err, guard, or_throw, bad_request, forbidden, conflict, internal,
}
use elchi_backend.Prelude.Runs.{Run, ◌>>=◌, ◌>>◌, finished}
use elchi_backend.Store.{Table}
use elchi_backend.Branch.{
  is_hq, is_manager, Branch, BranchUser, IdText, printed, same_text, ParentArg, nothing, refused,
  parent, Cases, Requester, UpdateDto, Fuel, is_child, get_branch, ensure_not_cyclic_parent,
  rebalance, collect_descendant_branch_ids, is_taken,
}
use elchi_backend.Branch.Creation.{is_other, find_hq, next_name, next_code}

-- What the order service answers: it cannot be reached, it answers without data, or it counts the
-- active orders and batches of a branch.
pub data CanDelete : Type 0 where
  unreachable unknown : CanDelete
  counts : ℕ → ℕ → CanDelete

-- What deleteBranch makes of the answer
abbrev pub allows : CanDelete → Result (Unit {0})
allows unreachable = err bad_request
allows unknown = ok tt
allows (counts orders batches) = guard (not (ltb 0 orders || ltb 0 batches)) bad_request

module _ (B : Table Branch Branch.key) (U : Table BranchUser BranchUser.key) where
  -- The branches that a user manages.
  abbrev pub managed : ℕ → U.State → List ℕ
  managed user u =
      map (λ a. a.branch_id)
        (filter (λ a. is_manager a.role)
          (U.find_by u (λ a. (a.user_id == user) && not a.is_deleted) (λ a. 0)))

  abbrev pub works_in : ℕ → BranchUser → Bool
  works_in branch a = (a.branch_id == branch) && not a.is_deleted

  -- `assertCanWriteBranch`, with resolveAccessScope
  unfoldable pub assert_can_write_branch :
      ℕ → IdText → Requester → U.State → B.State → Run (Unit {0})
  unfolding collect_descendant_branch_ids
  assert_can_write_branch fuel branch r u s =
      if r.is_privileged then some (ok tt) else elim r.user_id [
        | none ↦ some (err forbidden)
        | some user ↦
            finished (collect_descendant_branch_ids B fuel (managed user u) s) >>= λ readable.
            some (guard (any (λ k. same_text branch (printed k)) (managed user u)) forbidden)
      ]

  -- `deleteBranch`
  unfoldable pub delete_branch :
      ℕ → Requester → IdText → CanDelete → U.State → B.State → Run B.State
  unfolding assert_can_write_branch
  delete_branch fuel r id answer u s = do
    assert_can_write_branch fuel id r u s
    b ← some (get_branch B id.value s)
    some (guard (not (is_some (B.find_one s (is_child B b.key)))) bad_request)
    some (guard (not (is_some (U.find_one u (works_in b.key)))) bad_request)
    some (allows answer)
    some (
        ok (
          B.update s (λ x. x.key == b.key)
            (λ x. record x { is_deleted = true; is_active = false })))

  module _ (W : Cases) where
    abbrev pub next_parent : Option ParentArg → Branch → ParentArg
    next_parent (some p) b = p
    next_parent none b = elim b.parent_id [ none ↦ nothing | some k ↦ parent (printed k) ]

    -- The parent and the level of a changed branch, of the type HQ or another
    unfoldable pub place_changed : ℕ → Bool → ParentArg → Branch → B.State → Run (Option ℕ × ℕ)
    unfolding ensure_not_cyclic_parent
    place_changed fuel true nothing b s =
        if is_other W B (find_hq W B s) (some b.key)
        then some (err conflict)
        else some (ok (none, 0))
    place_changed fuel true refused b s = some (err bad_request)
    place_changed fuel true (parent p) b s = some (err bad_request)
    place_changed fuel false nothing b s = some (err bad_request)
    place_changed fuel false refused b s = some (err internal)
    place_changed fuel false (parent p) b s = do
      ensure_not_cyclic_parent B fuel b.key p s
      d ← some (get_branch B p.value s)
      some (ok (some d.key, d.level + 1))

    -- `updateBranch`
    unfoldable pub update_branch :
        Fuel → Requester → IdText → UpdateDto → U.State → B.State → Run B.State
    unfolding assert_can_write_branch next_name next_code place_changed rebalance
    update_branch fuel r id dto u s = do
      assert_can_write_branch fuel.scope id r u s
      b ← some (get_branch B id.value s)
      name ← some (next_name W B dto.name b s)
      type ← some (or_throw (or_else dto.type (some b.type)) bad_request)
      code ← some (next_code W B dto.code b s)
      place ← place_changed fuel.up (is_hq type) (next_parent dto.parent_id b) b s
      is_active ← some (or_throw (or_else dto.status (some b.is_active)) bad_request)
      some (guard (not (is_taken B code (some b.key) s)) internal)
      finished (
          rebalance B fuel.down ((b.key, place.1) ∷ []) (
            B.update s (λ x. x.key == b.key)
              (λ x. record x {
                name = name;
                type = type;
                code = code;
                parent_id = place.0;
                level = place.1;
                is_active = is_active;
              })))
