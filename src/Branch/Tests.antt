-- ===== src/Branch/Tests.antt =====
-- The theorems about the tree of branches at the HQ with two branches in a row below it.
use elchi_backend.Prelude.{
  ℕ, ◌≡◌, ◌↔◌, refl, inl, inr, true, none, some, List, [], ◌∷◌, Occurs, arith, Text, codes, ◌==◌,
  or_else,
}
use elchi_backend.Prelude.Results.{Result, ok, ok_or}
use elchi_backend.Prelude.Texts.{trim, is_space}
use elchi_backend.Store.{Table}
use elchi_backend.Store.Memory.{memory, first}
use elchi_backend.Branch.{
  BranchType, hq, pickup, regional, Branch, BranchUser, printed, ParentArg, nothing, parent, Cases,
  Requester, CreateDto, Fuel, ensure_not_cyclic_parent, collect_descendant_branch_ids,
}
use elchi_backend.Branch.Creation.{new_branch, create_branch}
use elchi_backend.Branch.Changes.{unknown, delete_branch, update_branch}
use elchi_backend.Branch.Forest.{Lives, IsTree}
use elchi_backend.Branch.Cycles.{ensure_not_cyclic_parent-ends}
use elchi_backend.Branch.Descents.{HangsBelow, collect_descendant_branch_ids-IsBelow}
use elchi_backend.Branch.Created.{create_branch-IsTree}
use elchi_backend.Branch.Deleted.{delete_branch-IsTree}
use elchi_backend.Branch.Updated.{update_branch-IsTree}
use elchi_backend.Branch.Spellings.{new_parent, update_branch-never_ends}

abbrev branch_table : Table Branch Branch.key
branch_table = memory Branch Branch.key

abbrev user_table : Table BranchUser BranchUser.key
user_table = memory BranchUser BranchUser.key

-- Upper-case texts stay as they are.
abbrev cases : Cases
cases = record { to_upper_case = λ t. t; to_lower_case = λ t. t; lower = λ t. t }

abbrev request : Text → BranchType → ParentArg → CreateDto
request code type above = record { name = code; code = code; type = some type; parent_id = above }

nothing-IsTree : IsTree branch_table []
nothing-IsTree = record {
  hangs = record {
    keyed = λ a b oa ob e. elim oa [ ];
    above = λ c p live up. elim live.0 [ ];
    root = λ c live top. elim live.0 [ ];
    inner = λ c p live up. elim live.0 [ ];
    one_hq = λ a b la lb ha hb. elim la.0 [ ];
  };
  rooted = λ c live top. elim live.0 [ ];
  stacked = λ c d live live_d up. elim live.0 [ ];
}

abbrev head_office : CreateDto
head_office = request (codes "HQ") hq nothing

abbrev region : CreateDto
region = request (codes "REG-2") regional (parent (printed 1))

abbrev corner : CreateDto
corner = request (codes "PT-3") pickup (parent (printed 2))

abbrev one_branch : List Branch
one_branch = ok_or [] (create_branch cases branch_table head_office [])

abbrev two_branches : List Branch
two_branches = ok_or [] (create_branch cases branch_table region one_branch)

abbrev branches : List Branch
branches = ok_or [] (create_branch cases branch_table corner two_branches)

one_branch-IsTree : IsTree branch_table one_branch
unfolding create_branch trim is_space
one_branch-IsTree =
    create_branch-IsTree branch_table cases head_office [] one_branch nothing-IsTree refl

two_branches-IsTree : IsTree branch_table two_branches
unfolding create_branch trim is_space
two_branches-IsTree =
    create_branch-IsTree branch_table cases region one_branch two_branches one_branch-IsTree refl

create_branch-IsTree_example : IsTree branch_table branches
unfolding create_branch trim is_space
create_branch-IsTree_example =
    create_branch-IsTree branch_table cases corner two_branches branches two_branches-IsTree refl

branches-IsTree : IsTree branch_table branches
unfolding create_branch trim is_space
branches-IsTree =
    create_branch-IsTree branch_table cases corner two_branches branches two_branches-IsTree refl

abbrev admin : Requester
admin = record { is_privileged = true; user_id = none }

abbrev without_corner : List Branch
without_corner = ok_or [] (
    or_else (delete_branch branch_table user_table 0 admin (printed 3) unknown [] branches) (ok []))

delete_branch-IsTree_example : IsTree branch_table without_corner
unfolding delete_branch create_branch trim is_space
delete_branch-IsTree_example =
    delete_branch-IsTree branch_table user_table 0 admin (printed 3) unknown [] branches
      without_corner branches-IsTree refl

-- The corner is put under the HQ.
update_branch-IsTree_example :
    (fuel : Fuel) × (o : Result (List Branch)) × (update_branch branch_table user_table cases fuel
        admin
        (printed 3)
        (new_parent branch_table user_table cases (printed 1))
        []
        branches
      ≡ some o)
    × ((t : List Branch) → o ≡ ok t → IsTree branch_table t)
update_branch-IsTree_example =
    update_branch-IsTree branch_table cases user_table admin (printed 3)
      (new_parent branch_table user_table cases (printed 1)) [] branches branches-IsTree refl

ensure_not_cyclic_parent-ends_example :
    (o : Result (Unit {0})) × (ensure_not_cyclic_parent branch_table 5 2 (printed 3) branches
      ≡ some o)
unfolding create_branch trim is_space
ensure_not_cyclic_parent-ends_example =
    ensure_not_cyclic_parent-ends branch_table 5 2 (printed 3) branches (omega arith)

collect_descendant_branch_ids-IsBelow_example :
    (fuel : ℕ) × (found : List ℕ) × (collect_descendant_branch_ids branch_table fuel
        (2 ∷ [])
        branches
      ≡ some found)
    × ((j : ℕ)
        → Occurs j found ↔ (
            (c : Branch) × Lives branch_table c branches
            × Occurs c.key (2 ∷ [])
            × HangsBelow branch_table branches c.key j))
collect_descendant_branch_ids-IsBelow_example =
    collect_descendant_branch_ids-IsBelow branch_table (2 ∷ []) branches branches-IsTree

-- The region is put under itself, as "02".
abbrev region_row : Branch
region_row =
    or_else (first branches (λ b. b.key == 2)) (new_branch cases branch_table [] [] hq (none, 0) [])

update_branch-never_ends_example :
    update_branch branch_table user_table cases
      (record { up = 2; down = 50; scope = 0 })
      admin
      (printed 2)
      (new_parent branch_table user_table cases (record { value = 2; spelling = 1 }))
      []
      branches
    ≡ none
unfolding create_branch trim is_space
update_branch-never_ends_example =
    update_branch-never_ends branch_table user_table cases admin (printed 2)
      (record { value = 2; spelling = 1 }) region_row 1 [] branches branches-IsTree refl
      (inr (inl refl), refl) refl refl refl refl (omega arith) 50 0
