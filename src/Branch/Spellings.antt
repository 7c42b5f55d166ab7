-- ===== src/Branch/Spellings.antt =====
-- What updateBranch does with a parent that is the branch itself, spelled in another way: the check
-- for cycles compares texts and lets it through, and the loop that sets the levels never ends.
use elchi_backend.Prelude.{
  eq→test, ℕ, zero, suc, ◌+◌, ◌<◌, ◌≡◌, ◌≢◌, refl, sym, ap, ◌∙◌, ◌⊎◌, inl, inr, true, false, none,
  some, List, [], ◌∷◌, ◌++◌, map, ◌==◌, any, arith, Option-cases, All, Occurs, Occurs-append_left,
  Occurs-append_right, map_if-Occurs_image,
}
use elchi_backend.Prelude.Results.{ok}
use elchi_backend.Prelude.Runs.{finished}
use elchi_backend.Store.{Table}
use elchi_backend.Branch.{
  Branch, BranchUser, IdText, printed, same_text, parent, Cases, Requester, UpdateDto, is_live,
  children, climb, is_refused, ensure_not_cyclic_parent, level_children, rebalance, is_taken,
}
use elchi_backend.Branch.Changes.{place_changed, assert_can_write_branch, update_branch}
use elchi_backend.Branch.Creation.{next_name, next_code}
use elchi_backend.Branch.Forest.{Lives, IsTree}
use elchi_backend.Branch.Levels.{Occurs-level_children}
use elchi_backend.Branch.Rebalance.{entry, Occurs-entries, Lives-children}
use elchi_backend.Branch.Cycles.{climb-up}
use elchi_backend.Branch.Moves.{Lives-find_one}

module _ (B : Table Branch Branch.key) where
  -- A live branch that is its own parent.
  abbrev pub IsOwnParent : ℕ → B.State → Type 0
  IsOwnParent k s = (b : Branch) × Lives B b s × (b.key ≡ k) × (b.parent_id ≡ some k)

  level_children-IsOwnParent :
      (k e : ℕ) (cs : List Branch) (s : B.State)
      → IsOwnParent k s
      → IsOwnParent k (level_children B e cs s)
  level_children-IsOwnParent k e cs s (b, live, kb, up) =
      elim (Occurs-level_children B e cs s b live.0) [
        | inl o ↦ (b, (o, live.1), kb, up)
        | inr (o, _) ↦ (record b { level = e }, (o, live.1), kb, up)
      ]

  -- With such a branch in the queue the loop runs for ever.
  rebalance-never_ends :
      (fuel k l : ℕ) (queue : List (ℕ × ℕ)) (s : B.State)
      → IsOwnParent k s
      → Occurs {A = ℕ × ℕ} (k, l) queue
      → rebalance B fuel queue s ≡ none
  unfolding rebalance
  rebalance-never_ends fuel k l [] s own o = elim o [ ]
  rebalance-never_ends zero k l (x ∷ queue) s own o = refl
  rebalance-never_ends (suc fuel) k l ((j, m) ∷ queue) s own (inr o) =
      rebalance-never_ends fuel k l (queue ++ map (entry (m + 1)) (children B j s)) _
        (level_children-IsOwnParent k (m + 1) (children B j s) s own)
        (Occurs-append_left queue _ (k, l) o)
  rebalance-never_ends (suc fuel) k l ((j, m) ∷ queue) s (b, live, kb, up) (inl e) =
      let at_j : k ≡ j = ap (λ (x : ℕ × ℕ). x.0) e in
      let child : Occurs b (children B j s) = Lives-children B j s b live (up ∙ ap some at_j) in
      let pushed : Occurs {A = ℕ × ℕ} (k, m + 1) (map (entry (m + 1)) (children B j s)) =
        rw (← kb) (Occurs-entries (m + 1) (children B j s) b child) in
      rebalance-never_ends fuel k (m + 1) (queue ++ map (entry (m + 1)) (children B j s)) _
        (level_children-IsOwnParent k (m + 1) (children B j s) s (b, live, kb, up))
        (Occurs-append_right queue (map (entry (m + 1)) (children B j s)) (k, m + 1) pushed)

  -- The ids that a climb has visited are no branch at a level or above it.
  abbrev AllLower : ℕ → List IdText → B.State → Type 0
  AllLower level visited s =
      All
        (λ (v : IdText).
          (v.spelling ≢ 0) ⊎ ((d : Branch) × Lives B d s × (d.key ≡ v.value) × (level < d.level)))
        visited

  AllLower-parent :
      (m n : ℕ) (visited : List IdText) (s : B.State)
      → m < n
      → AllLower n visited s
      → AllLower m visited s
  AllLower-parent m n [] s lt h = tt
  AllLower-parent m n (v ∷ visited) s lt (inl other, rest) =
      (inl other, AllLower-parent m n visited s lt rest)
  AllLower-parent m n (v ∷ visited) s lt (inr (d, live, kd, lower), rest) =
      (inr (d, live, kd, omega arith), AllLower-parent m n visited s lt rest)

  other_text : (k : ℕ) (v : IdText) → v.spelling ≢ 0 → same_text (printed k) v ≡ false
  other_text k v h = ground arith

  other_value : (k : ℕ) (v : IdText) → k ≢ v.value → same_text (printed k) v ≡ false
  other_value k v h = ground arith

  not_visited :
      (c : Branch) (visited : List IdText) (s : B.State)
      → IsTree B s
      → Lives B c s
      → AllLower c.level visited s
      → any (same_text (printed c.key)) visited ≡ false
  not_visited c [] s tree live h = refl
  not_visited c (v ∷ visited) s tree live (inl other, rest) =
      rw (other_text c.key v other) (not_visited c visited s tree live rest)
  not_visited c (v ∷ visited) s tree live (inr (d, live_d, kd, lower), rest) =
      let apart : c.key ≢ v.value = λ e.
        omega (
          arith,
          ap (λ (x : Branch). x.level) (tree.hangs.keyed c d live.0 live_d.0 (e ∙ sym kd)),
        ) in
      rw (other_value c.key v apart) (not_visited c visited s tree live rest)

  not-refused :
      (k : ℕ) (visited : List IdText) (current : IdText)
      → same_text current (printed k) ≡ false
      → any (same_text current) visited ≡ false
      → is_refused B k visited current ≡ false
  unfolding is_refused
  not-refused k visited current h n = rw (h, n) refl

  -- The climb from a branch above reaches the root.
  climb-root :
      (n : ℕ) (b c : Branch) (visited : List IdText) (s : B.State)
      → IsTree B s
      → Lives B b s
      → Lives B c s
      → c.level < n
      → c.level < b.level
      → AllLower c.level visited s
      → climb B n b.key visited (printed c.key) s ≡ some (ok tt)
  unfolding climb
  climb-root zero b c visited s tree live_b live lt above h = elim lt [ ]
  climb-root (suc n) b c visited s tree live_b live lt above h =
      let apart : c.key ≢ b.key =
        λ e. omega (arith, ap (λ (x : Branch). x.level) (tree.hangs.keyed c b live.0 live_b.0 e)) in
      let goes_on =
        not-refused b.key visited (printed c.key) (other_value c.key (printed b.key) apart)
          (not_visited c visited s tree live h) in
      let found = Lives-find_one B s c tree.hangs.keyed live in
      elim (Option-cases c.parent_id) [
        | inl top ↦ rw (climb, goes_on, found, top) refl
        | inr (p, up) ↦
            let (d, live_d, kd) = tree.hangs.above c p live up in
            let stacked = tree.stacked c d live live_d (up ∙ ap some (sym kd)) in
            let lower : AllLower d.level (printed c.key ∷ visited) s = (
              inr (c, live, refl, omega arith),
              AllLower-parent d.level c.level visited s (omega arith) h,
            ) in
            climb-up B n b.key p visited (printed c.key) s c goes_on found up
            ∙ rw (← kd) (
                climb-root n b d (printed c.key ∷ visited) s tree live_b live_d (omega arith)
                  (omega arith) lower)
      ]

  same_text-other : (k : ℕ) (v : IdText) → v.spelling ≢ 0 → same_text v (printed k) ≡ false
  same_text-other k v h = ground arith

  -- The check lets a branch through as its own parent, in another spelling.
  ensure_not_cyclic_parent-other :
      (b : Branch) (p : ℕ) (x : IdText) (s : B.State)
      → IsTree B s
      → Lives B b s
      → b.parent_id ≡ some p
      → x.value ≡ b.key
      → x.spelling ≢ 0
      → ensure_not_cyclic_parent B (suc b.level) b.key x s ≡ some (ok tt)
  unfolding ensure_not_cyclic_parent
  ensure_not_cyclic_parent-other b p x s tree live up xv other =
      let found : B.find_one s (is_live B x.value) ≡ some b =
        ap (λ k. B.find_one s (is_live B k)) xv ∙ Lives-find_one B s b tree.hangs.keyed live in
      let goes_on = not-refused b.key [] x (same_text-other b.key x other) refl in
      let (d, live_d, kd) = tree.hangs.above b p live up in
      let stacked = tree.stacked b d live live_d (up ∙ ap some (sym kd)) in
      rw (other_text b.key x other) (
        climb-up B b.level b.key p [] x s b goes_on found up
        ∙ rw (← kd) (
            climb-root b.level b d (x ∷ []) s tree live live_d (omega arith) (omega arith)
              (inl other, tt)))

  module _ (U : Table BranchUser BranchUser.key) (W : Cases) where
    -- A request that names only a parent.
    abbrev pub new_parent : IdText → UpdateDto
    new_parent x = record {
      name = none;
      code = none;
      type = none;
      parent_id = some (parent x);
      status = none;
    }

    -- A request of an administrator that makes a branch its own parent, with the id spelled in
    -- another way than the database prints it, is not refused: `updateBranch` never ends.
    pub update_branch-never_ends :
        (r : Requester) (i x : IdText) (b : Branch) (p : ℕ) (u : U.State) (s : B.State)
        → IsTree B s
        → r.is_privileged ≡ true
        → Lives B b s
        → i.value ≡ b.key
        → b.parent_id ≡ some p
        → is_taken B b.code (some b.key) s ≡ false
        → x.value ≡ b.key
        → x.spelling ≢ 0
        → (down scope : ℕ)
        → update_branch B U W
            (record { up = suc b.level; down = down; scope = scope })
            r
            i
            (new_parent x)
            u
            s
          ≡ none
    unfolding update_branch assert_can_write_branch next_name next_code place_changed
    update_branch-never_ends r i x b p u s tree admin live iv up free xv other down scope =
        let found_i : B.find_one s (is_live B i.value) ≡ some b =
          ap (λ k. B.find_one s (is_live B k)) iv ∙ Lives-find_one B s b tree.hangs.keyed live in
        let found_x : B.find_one s (is_live B x.value) ≡ some b =
          ap (λ k. B.find_one s (is_live B k)) xv ∙ Lives-find_one B s b tree.hangs.keyed live in
        let let_through = ensure_not_cyclic_parent-other b p x s tree live up xv other in
        let inner = tree.hangs.inner b p live up in
        let saved : Branch → Branch = λ y. record b {
          key = y.key;
          parent_id = some b.key;
          level = b.level + 1;
          is_deleted = y.is_deleted;
        } in
        let own : IsOwnParent b.key (B.update s (λ y. y.key == b.key) saved) = (
          saved b,
          (
            rw (B.rows-update s (λ y. y.key == b.key) saved) (
                map_if-Occurs_image (λ y. y.key == b.key) saved (B.rows s) b
                  (eq→test b.key b.key refl) live.0),
            live.1,
          ),
          refl,
          refl,
        ) in
        rw (admin, found_i, inner, let_through, found_x, free)
          (ap finished (
            rebalance-never_ends down b.key (b.level + 1) ((b.key, b.level + 1) ∷ []) _ own
              (inl refl)))
