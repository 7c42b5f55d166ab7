-- ===== src/Branch/Deleted.antt =====
-- deleteBranch keeps the branches a tree.
use elchi_backend.Prelude.{
  test→eq, ℕ, ◌≡◌, refl, sym, ap, ◌∙◌, inl, inr, true, false, not, ◌&&◌, Option, none, some, ◌==◌,
  opt_eq, is_some, arith, Bool-cases, Occurs-map_if, map_if-Occurs, not-any-Occurs,
}
use elchi_backend.Prelude.Results.{ok, guard, bad_request, not_found, ok-injective, or_throw-eq-ok}
use elchi_backend.Prelude.Runs as Runs
use elchi_backend.Store.{Table}
use elchi_backend.Branch.{Branch, BranchUser, IdText, Requester, is_live, is_child, get_branch}
use elchi_backend.Branch.Changes.{
  CanDelete, allows, works_in, assert_can_write_branch, delete_branch,
}
use elchi_backend.Branch.Forest.{Lives, IsTree, update-HasKeys}
use elchi_backend.Branch.Moves.{find_one-Lives}

module _ (B : Table Branch Branch.key) where
  module _ (s : B.State) (tree : IsTree B s) (b : Branch) (live_b : Lives B b s)
      (childless : B.find_one s (is_child B b.key) ≡ none) where
    abbrev gone_branch : Branch → Branch
    gone_branch x = record x { is_deleted = true; is_active = false }

    abbrev deleted : B.State
    deleted = B.update s (λ x. x.key == b.key) gone_branch

    -- What lives on is as it was, and is not the deleted branch.
    deleted-row : (c : Branch) → Lives B c deleted → Lives B c s × ((c.key == b.key) ≡ false)
    deleted-row c live =
        elim (Occurs-map_if (λ x. x.key == b.key) gone_branch (B.rows s) c
          (rw (B.rows-update s (λ x. x.key == b.key) gone_branch) at live.0)) [
            | inl (x, ox, t, e) ↦ (cc (ap (λ y. y.is_deleted) e, live.1))
            | inr (old, n) ↦ ((old, live.1), n)
          ]

    Lives-deleted : (c : Branch) → Lives B c s → (c.key == b.key) ≡ false → Lives B c deleted
    Lives-deleted c live n = (
      rw (B.rows-update s (λ x. x.key == b.key) gone_branch)
          (map_if-Occurs (λ x. x.key == b.key) gone_branch (B.rows s) c n live.0),
      live.1,
    )

    child_test : (k : ℕ) → opt_eq (some k) (some k) && true ≡ true
    child_test k = ground arith

    -- No branch that lives on hangs below the deleted one.
    not_below : (c d : Branch) → Lives B c s → c.parent_id ≡ some d.key → (d.key == b.key) ≡ false
    not_below c d live up = elim (Bool-cases (d.key == b.key)) [
      | inr n ↦ n
      | inl t ↦
          let at_b : c.parent_id ≡ some b.key = up ∙ ap some (test→eq d.key b.key t) in
          let meets : is_child B b.key c ≡ true = rw (at_b, live.1) (child_test b.key) in
          (cc (
            not-any-Occurs (is_child B b.key) (B.rows s) c
                (B.find_one-none s (is_child B b.key) childless) live.0,
            meets,
          ))
    ]

    deleted-IsTree : IsTree B deleted
    deleted-IsTree = record {
      hangs = record {
        keyed =
            update-HasKeys B s (λ x. x.key == b.key) gone_branch b.key (λ x. refl) (λ x. refl)
              tree.hangs.keyed;
        above = λ c p live up.
            let old = (deleted-row c live).0 in
            let (d, live_d, kd) = tree.hangs.above c p old up in
            (d, Lives-deleted d live_d (not_below c d old (up ∙ ap some (sym kd))), kd);
        root = λ c live top. tree.hangs.root c (deleted-row c live).0 top;
        inner = λ c p live up. tree.hangs.inner c p (deleted-row c live).0 up;
        one_hq = λ c d live_c live_d hc hd.
            tree.hangs.one_hq c d (deleted-row c live_c).0 (deleted-row d live_d).0 hc hd;
      };
      rooted = λ c live top. tree.rooted c (deleted-row c live).0 top;
      stacked =
          λ c d live live_d up. tree.stacked c d (deleted-row c live).0 (deleted-row d live_d).0 up;
    }

  no_child :
      (o : Option Branch) (w : Unit {0}) → guard (not (is_some o)) bad_request ≡ ok w → o ≡ none
  no_child none w h = refl
  no_child (some c) w h = cc

  some-injective : {A : Type 0} (a b : A) → some a ≡ some b → a ≡ b
  some-injective a b h = cc

  -- `deleteBranch` keeps the branches a tree.
  pub delete_branch-IsTree :
      (U : Table BranchUser BranchUser.key) (fuel : ℕ) (r : Requester) (i : IdText)
      (answer : CanDelete) (u : U.State) (s t : B.State)
      → IsTree B s
      → delete_branch B U fuel r i answer u s ≡ some (ok t)
      → IsTree B t
  unfolding delete_branch
  delete_branch-IsTree U fuel r i answer u s t tree h =
      let (_, _, h1) = Runs.>>=-eq-ok (assert_can_write_branch B U fuel i r u s) _ h in
      let (b, got, h2) = Runs.>>=-eq-ok (some (get_branch B i.value s)) _ h1 in
      let (w, free, h3) =
        Runs.>>=-eq-ok (some (guard (not (is_some (B.find_one s (is_child B b.key)))) bad_request))
          _ h2 in
      let (_, _, h4) =
        Runs.>>=-eq-ok
          (some (guard (not (is_some (U.find_one u (works_in B U b.key)))) bad_request)) _ h3 in
      let (_, _, h5) = Runs.>>=-eq-ok (some (allows answer)) _ h4 in
      let (live, at_key) =
        find_one-Lives B s i.value b (
          or_throw-eq-ok (B.find_one s (is_live B i.value)) not_found b (some-injective _ _ got)) in
      let childless = no_child (B.find_one s (is_child B b.key)) w (some-injective _ _ free) in
      rw (← ok-injective (some-injective _ _ h5)) (deleted-IsTree s tree b live childless)
