-- ===== src/Branch/Updated.antt =====
-- updateBranch ends and keeps the branches a tree, if the id of the parent in the request is spelled
-- as the database prints it.
use elchi_backend.Prelude.{
  ℕ, ◌+◌, ◌≡◌, refl, ap, inl, inr, Bool, not, Option, some, [], ◌∷◌, ◌==◌, any, length, or_else,
  Bool-cases, Option-cases, Text,
}
use elchi_backend.Prelude.Results.{
  Result, ok, err, guard, or_throw, bad_request, forbidden, not_found, internal, or_throw-eq-ok,
}
use elchi_backend.Prelude.Runs.{Run, ◌>>=◌, finished}
use elchi_backend.Store.{Table}
use elchi_backend.Branch.{
  BranchType, is_hq, Branch, BranchUser, IdText, printed, same_text, Cases, Requester, UpdateDto,
  Fuel, is_live, get_branch, rebalance, is_taken,
}
use elchi_backend.Branch.Creation.{next_name, next_code}
use elchi_backend.Branch.Changes.{
  managed, assert_can_write_branch, next_parent, place_changed, update_branch,
}
use elchi_backend.Branch.Forest.{Lives, IsTree}
use elchi_backend.Branch.Moves.{find_one-Lives, IsPlaced, moved-IsTree}
use elchi_backend.Branch.Descents.{collect_descendant_branch_ids-IsBelow}
use elchi_backend.Branch.Placed.{
  some-injective, IsPrintedIn, next_parent-IsPrinted, place_changed-ends, place_changed-IsPlaced,
}

module _ (B : Table Branch Branch.key) (W : Cases) (U : Table BranchUser BranchUser.key) where
  assert_can_write_branch-ends :
      (branch : IdText) (r : Requester) (u : U.State) (s : B.State)
      → IsTree B s
      → (fuel : ℕ) × (o : Result (Unit {0})) × (assert_can_write_branch B U fuel branch r u s
          ≡ some o)
  unfolding assert_can_write_branch
  assert_can_write_branch-ends branch r u s tree = elim (Bool-cases r.is_privileged) [
    | inl t ↦ (0, ok tt, rw t refl)
    | inr f ↦ elim (Option-cases r.user_id) [
      | inl unknown ↦ (0, err forbidden, rw (f, unknown) refl)
      | inr (user, known) ↦
          let (fuel, found, ended, _) =
            collect_descendant_branch_ids-IsBelow B (managed B U user u) s tree in
          (
            fuel,
            guard (any (λ k. same_text branch (printed k)) (managed B U user u)) forbidden,
            rw (f, known, ended) refl,
          )
    ]
  ]

  -- A run with fuel for the last loop ends, and what it leaves is a tree.
  abbrev Ends : (ℕ → Run B.State) → Type 0
  Ends run =
      (fuel : ℕ) × (o : Result B.State) × (run fuel ≡ some o)
      × ((t : B.State) → o ≡ ok t → IsTree B t)

  Ends-bind :
      {A : Type 0} (call : Run A) (o : Result A) (next : ℕ → A → Run B.State)
      → call ≡ some o
      → ((a : A) → call ≡ some (ok a) → Ends (λ fuel. next fuel a))
      → Ends (λ fuel. call >>= next fuel)
  Ends-bind call (err e) next h rest = (0, err e, rw h refl, λ t impossible. absurd (cc))
  Ends-bind call (ok a) next h rest =
      let (fuel, o, ended, keeps) = rest a h in (fuel, o, rw h ended, keeps)

  -- The last loop, after the row is saved.
  settle :
      (s : B.State) (tree : IsTree B s) (b : Branch) (live : Lives B b s) (name : Text)
      (type : BranchType) (code : Option Text) (place : Option ℕ × ℕ) (is_active : Bool)
      → IsPlaced B s b place.0 place.1 (is_hq type)
      → Ends (λ fuel. finished (
          rebalance B fuel ((b.key, place.1) ∷ []) (
            B.update s
              (λ x. x.key == b.key)
              (λ x. record x {
                name = name;
                type = type;
                code = code;
                parent_id = place.0;
                level = place.1;
                is_active = is_active;
              }))))
  settle s tree b live name type code place is_active placed =
      let (fuel, t, ended, tree') =
        moved-IsTree B s tree b live
          (λ x. record x {
            name = name;
            type = type;
            code = code;
            parent_id = place.0;
            level = place.1;
            is_active = is_active;
          })
          (λ x. refl) (λ x. refl) placed in
      (fuel, ok t, ap finished ended, λ t' same. rw (ok_same t t' same) tree')
    where
      ok_same : (x y : B.State) → ◌≡◌ {A = Result B.State} (ok x) (ok y) → y ≡ x
      ok_same x y e = cc

  got_Lives :
      (i : ℕ) (s : B.State) (b : Branch)
      → ◌≡◌ {A = Run Branch} (some (get_branch B i s)) (some (ok b))
      → Lives B b s
  got_Lives i s b got =
      (find_one-Lives B s i b
        (or_throw-eq-ok (B.find_one s (is_live B i)) not_found b (some-injective got))).0

  -- `updateBranch` ends, given fuel enough, and it keeps the branches a tree, if a parent in the
  -- request is spelled as the database prints it.
  pub update_branch-IsTree :
      (r : Requester) (i : IdText) (dto : UpdateDto) (u : U.State) (s : B.State)
      → IsTree B s
      → IsPrintedIn dto.parent_id
      → (fuel : Fuel) × (o : Result B.State) × (update_branch B U W fuel r i dto u s ≡ some o)
        × ((t : B.State) → o ≡ ok t → IsTree B t)
  unfolding update_branch
  update_branch-IsTree r i dto u s tree pr =
      let (scope, oa, asserted) = assert_can_write_branch-ends i r u s tree in
      let (down, o, ended, keeps) = run scope oa asserted in
      (record { up = length (B.rows s) + 2; down = down; scope = scope }, o, ended, keeps)
    where
      run :
          (scope : ℕ) (oa : Result (Unit {0}))
          → assert_can_write_branch B U scope i r u s ≡ some oa
          → Ends (λ down.
            update_branch B U W
              (record { up = length (B.rows s) + 2; down = down; scope = scope })
              r
              i
              dto
              u
              s)
      run scope oa asserted =
          Ends-bind (assert_can_write_branch B U scope i r u s) oa _ asserted (λ _ _.
            Ends-bind (some (get_branch B i.value s)) _ _ refl (λ b got.
              let live = got_Lives i.value s b got in
              let above = next_parent B U W dto.parent_id b in
              Ends-bind (some (next_name W B dto.name b s)) _ _ refl (λ name _.
                Ends-bind (some (or_throw (or_else dto.type (some b.type)) bad_request)) _ _ refl
                  (λ type _.
                    let (op, placed) = place_changed-ends B W U (is_hq type) above b s in
                    Ends-bind (some (next_code W B dto.code b s)) _ _ refl (λ code _.
                      Ends-bind (place_changed B U W (length (B.rows s) + 2) (is_hq type) above b s)
                        op _ placed
                        (λ place put.
                          Ends-bind
                            (some (or_throw (or_else dto.status (some b.is_active)) bad_request)) _
                            _ refl
                            (λ is_active _.
                              Ends-bind
                                (some (guard (not (is_taken B code (some b.key) s)) internal)) _ _
                                refl
                                (λ _ _. settle s tree b live name type code place is_active (
                                  place_changed-IsPlaced B W U (length (B.rows s) + 2) (is_hq type)
                                    above b s place tree live
                                    (next_parent-IsPrinted B W U dto.parent_id b pr) put)))))))))
