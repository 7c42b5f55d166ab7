-- ===== src/Branch/Moves.antt =====
-- A branch that is moved in the tree: the rows that updateBranch saves, and then the levels that
-- rebalanceDescendantLevels sets.
use elchi_backend.Prelude.{
  test→eq, eq→test, ℕ, zero, suc, ◌+◌, ◌-◌, ◌≤◌, ◌<◌, ◌≡◌, ◌≢◌, refl, sym, ap, ◌∙◌, ◌⊎◌, inl, inr,
  Bool, true, false, not, ◌&&◌, Option, none, some, List, [], ◌∷◌, ◌==◌, max, arith, if◌then◌else◌,
  Bool-cases, Option-cases, Occurs, Occurs-map_if, map_if-Occurs, map_if-Occurs_image,
}
use elchi_backend.Store.{Table, find_one-some}
use elchi_backend.Branch.{is_hq, Branch, is_live, rebalance}
use elchi_backend.Branch.Forest.{HasKeys, Lives, Hangs, IsTree, update-HasKeys}
use elchi_backend.Branch.Rebalance.{IsSettling, rebalance_lem}
use elchi_backend.Branch.Cycles.{is_below}

-- The levels of finitely many rows have a bound.
pub level_bound : (xs : List Branch) → (n : ℕ) × ((c : Branch) → Occurs c xs → c.level ≤ n)
level_bound [] = (0, λ c o. elim o [ ])
level_bound (x ∷ xs) =
    let (n, h) = level_bound xs in
    (max x.level n, λ c o. elim o [ inl e ↦ rw e (omega arith) | inr o' ↦ (omega (arith, h c o')) ])

module _ (B : Table Branch Branch.key) where
  →is_live : (c : Branch) → c.is_deleted ≡ false → is_live B c.key c ≡ true
  →is_live c h = rw h (same c.key)
    where
      same : (k : ℕ) → (k == k) && true ≡ true
      same k = ground arith

  is_live→ : (k : ℕ) (c : Branch) → is_live B k c ≡ true → (c.key ≡ k) × (c.is_deleted ≡ false)
  is_live→ k c h = (at_key, alive c.is_deleted h)
    where
      at_key : c.key ≡ k
      at_key = ground arith

      alive : (d : Bool) → (c.key == k) && not d ≡ true → d ≡ false
      alive true h' = ground arith
      alive false h' = refl

  pub find_one-Lives :
      (s : B.State) (k : ℕ) (c : Branch)
      → B.find_one s (is_live B k) ≡ some c
      → Lives B c s × (c.key ≡ k)
  find_one-Lives s k c found =
      let (at_k, alive) = is_live→ k c (B.find_one-meets s (is_live B k) c found) in
      ((B.find_one-Occurs s (is_live B k) c found, alive), at_k)

  -- A live row is the one that its key finds.
  pub Lives-find_one :
      (s : B.State) (c : Branch)
      → HasKeys B s
      → Lives B c s
      → B.find_one s (is_live B c.key) ≡ some c
  Lives-find_one s c keyed live =
      let (d, found) = find_one-some B s (is_live B c.key) c live.0 (→is_live c live.1) in
      let (live_d, at_key) = find_one-Lives s c.key d found in
      found ∙ ap some (keyed d c live_d.0 live.0 at_key)

  -- Where a branch is put: it becomes the HQ and no other branch is, or it is put under a branch
  -- that is not below it.
  abbrev pub IsPlaced : B.State → Branch → Option ℕ → ℕ → Bool → Type 0
  IsPlaced s b o level hq =
      ((o ≡ none)
        × (level ≡ 0)
        × (hq ≡ true)
        × ((x : Branch) → Lives B x s → is_hq x.type ≡ true → x.key ≡ b.key))
      ⊎ ((p : Branch) × Lives B p s
          × (o ≡ some p.key)
          × (level ≡ p.level + 1)
          × (hq ≡ false)
          × ((n : ℕ) → is_below B n b.key s p.key ≡ false))

  module _ (s : B.State) (tree : IsTree B s) (b : Branch) (live_b : Lives B b s)
      (f : Branch → Branch) (same_key : (x : Branch) → (f x).key ≡ x.key)
      (same_life : (x : Branch) → (f x).is_deleted ≡ x.is_deleted)
      (placed : IsPlaced s b (f b).parent_id (f b).level (is_hq (f b).type)) where
    abbrev level : ℕ
    level = (f b).level

    abbrev moved : B.State
    moved = B.update s (λ x. x.key == b.key) f

    abbrev is_under : Branch → Bool
    is_under c = is_below B c.level b.key s c.key

    -- The depth of a branch after the move.
    abbrev depth_of : Option Branch → ℕ
    depth_of none = 0
    depth_of (some c) = if is_under c then c.level + level - b.level else c.level

    abbrev depth : ℕ → ℕ
    depth k = depth_of (B.find_one s (is_live B k))

    depth-Lives : (c : Branch) → Lives B c s → depth c.key ≡ depth_of (some c)
    depth-Lives c live = ap depth_of (Lives-find_one s c tree.hangs.keyed live)

    not_self : (c : Branch) → (c.key == b.key) ≡ false → c.key ≢ b.key
    not_self c n e = (cc (n, eq→test c.key b.key e))

    -- A branch other than `b` is under `b` if its parent is.
    is_under-parent :
        (c d : Branch)
        → Lives B c s
        → Lives B d s
        → c.parent_id ≡ some d.key
        → (c.key == b.key) ≡ false
        → is_under c ≡ is_under d
    is_under-parent c d live live_d up n =
        let stacked : c.level ≡ suc d.level = omega (arith, tree.stacked c d live live_d up) in
        ap (λ m. is_below B m b.key s c.key) stacked
        ∙ rw (n, Lives-find_one s c tree.hangs.keyed live, up) refl

    is_under_self : (m : ℕ) → is_below B m b.key s b.key ≡ true
    is_under_self zero = eq→test b.key b.key refl
    is_under_self (suc m) = rw (eq→test b.key b.key refl) refl

    -- What is under `b` stands no higher.
    is_under-le :
        (n : ℕ) (c : Branch) → c.level < n → Lives B c s → is_under c ≡ true → b.level ≤ c.level
    is_under-le zero c lt live under = elim lt [ ]
    is_under-le (suc m) c lt live under = elim (Bool-cases (c.key == b.key)) [
      | inl t ↦
          let same : c ≡ b = tree.hangs.keyed c b live.0 live_b.0 (test→eq c.key b.key t) in
          omega (arith, ap (λ x. x.level) same)
      | inr n ↦ elim (Option-cases c.parent_id) [
        | inl top ↦
            let at_root : is_below B 0 b.key s c.key ≡ true =
              rw (tree.rooted c live top) at under in
            (cc (at_root, n))
        | inr (p, up) ↦
            let (d, live_d, kd) = tree.hangs.above c p live up in
            let up' = up ∙ ap some (sym kd) in
            let stacked = tree.stacked c d live live_d up' in
            let higher =
              is_under-le m d (omega arith) live_d
                (sym (is_under-parent c d live live_d up' n) ∙ under) in
            omega arith
      ]
    ]

    depth_self : depth b.key ≡ level
    depth_self = depth-Lives b live_b ∙ rw (is_under_self b.level) (omega arith)

    -- The depth grows by one from a branch to the others below it.
    depth-parent :
        (c d : Branch)
        → Lives B c s
        → Lives B d s
        → c.parent_id ≡ some d.key
        → (c.key == b.key) ≡ false
        → depth c.key ≡ depth d.key + 1
    depth-parent c d live live_d up n =
        depth-Lives c live
        ∙ branches (is_under c) (is_under d) refl refl
        ∙ ap (λ k. k + 1) (sym (depth-Lives d live_d))
      where
        branches :
            (u v : Bool)
            → is_under c ≡ u
            → is_under d ≡ v
            → (if is_under c then c.level + level - b.level else c.level)
              ≡ (if is_under d then d.level + level - b.level else d.level) + 1
        branches true true hu hv =
            let stacked = tree.stacked c d live live_d up in
            let higher = is_under-le (suc d.level) d (omega arith) live_d hv in
            rw (hu, hv) (omega arith)
        branches false false hu hv = rw (hu, hv) (tree.stacked c d live live_d up)
        branches true false hu hv = (cc (is_under-parent c d live live_d up n, hu, hv))
        branches false true hu hv = (cc (is_under-parent c d live live_d up n, hu, hv))

    -- A row after the move is the changed branch, or another one as it was.
    moved-row :
        (c : Branch) → Lives B c moved → (c ≡ f b) ⊎ (Lives B c s × ((c.key == b.key) ≡ false))
    moved-row c live =
        elim (Occurs-map_if (λ x. x.key == b.key) f (B.rows s) c
          (rw (B.rows-update s (λ x. x.key == b.key) f) at live.0)) [
            | inl (x, ox, t, e) ↦
                inl (e ∙ ap f (tree.hangs.keyed x b ox live_b.0 (test→eq x.key b.key t)))
            | inr (old, n) ↦ inr ((old, live.1), n)
          ]

    moved-Lives : Lives B (f b) moved
    moved-Lives = (
      rw (B.rows-update s (λ x. x.key == b.key) f) (
          map_if-Occurs_image (λ x. x.key == b.key) f (B.rows s) b (eq→test b.key b.key refl)
            live_b.0),
      same_life b ∙ live_b.1,
    )

    Lives-moved : (c : Branch) → Lives B c s → (c.key == b.key) ≡ false → Lives B c moved
    Lives-moved c live n = (
      rw (B.rows-update s (λ x. x.key == b.key) f)
          (map_if-Occurs (λ x. x.key == b.key) f (B.rows s) c n live.0),
      live.1,
    )

    -- Every branch of before stands, perhaps changed, under its key.
    stays : (d : Branch) → Lives B d s → (e : Branch) × Lives B e moved × (e.key ≡ d.key)
    stays d live = elim (Bool-cases (d.key == b.key)) [
      | inl t ↦ (f b, moved-Lives, same_key b ∙ sym (test→eq d.key b.key t))
      | inr n ↦ (d, Lives-moved d live n, refl)
    ]

    -- And the other way round.
    stood : (d : Branch) → Lives B d moved → (e : Branch) × Lives B e s × (e.key ≡ d.key)
    stood d live = elim (moved-row d live) [
      | inl e ↦ (b, live_b, sym (same_key b) ∙ ap (λ x. x.key) (sym e))
      | inr (old, _) ↦ (d, old, refl)
    ]

    -- If the changed branch is an HQ, it is the only one.
    only_hq :
        (x : Branch)
        → Lives B x s
        → is_hq (f b).type ≡ true
        → is_hq x.type ≡ true
        → x.key ≡ (f b).key
    only_hq x live hq hx = elim placed [
      | inl (_, _, _, only) ↦ only x live hx ∙ sym (same_key b)
      | inr (_, _, _, _, no_hq, _) ↦ (cc (hq, no_hq))
    ]

    moved-Hangs : Hangs B moved
    moved-Hangs = record {
      keyed =
          update-HasKeys B s (λ x. x.key == b.key) f b.key (λ x. refl) same_key tree.hangs.keyed;
      above = λ c p live up. elim (moved-row c live) [
        | inl e ↦ elim placed [
          | inl (none_above, _, _, _) ↦ (cc (e, up, none_above))
          | inr (q, live_q, at_q, _, _, _) ↦
              let (d, live_d, kd) = stays q live_q in (d, live_d, (cc (kd, e, up, at_q)))
        ]
        | inr (old, n) ↦
            let (d, live_d, kd) = tree.hangs.above c p old up in
            let (d', live_d', kd') = stays d live_d in (d', live_d', kd' ∙ kd)
      ];
      root = λ c live top. elim (moved-row c live) [
        | inl e ↦ elim placed [
          | inl (_, _, hq, _) ↦ ap (λ x. is_hq x.type) e ∙ hq
          | inr (q, _, at_q, _, _, _) ↦ (cc (e, top, at_q))
        ]
        | inr (old, n) ↦ tree.hangs.root c old top
      ];
      inner = λ c p live up. elim (moved-row c live) [
        | inl e ↦ elim placed [
          | inl (none_above, _, _, _) ↦ (cc (e, up, none_above))
          | inr (_, _, _, _, no_hq, _) ↦ ap (λ x. is_hq x.type) e ∙ no_hq
        ]
        | inr (old, n) ↦ tree.hangs.inner c p old up
      ];
      one_hq = λ c d live_c live_d hc hd. elim (moved-row c live_c) [
        | inl ec ↦ elim (moved-row d live_d) [
          | inl ed ↦ ap (λ x. x.key) (ec ∙ sym ed)
          | inr (old_d, _) ↦
              ap (λ x. x.key) ec ∙ sym (only_hq d old_d (ap (λ x. is_hq x.type) (sym ec) ∙ hc) hd)
        ]
        | inr (old_c, _) ↦ elim (moved-row d live_d) [
          | inl ed ↦
              only_hq c old_c (ap (λ x. is_hq x.type) (sym ed) ∙ hd) hc ∙ ap (λ x. x.key) (sym ed)
          | inr (old_d, _) ↦ tree.hangs.one_hq c d old_c old_d hc hd
        ]
      ];
    }

    depth-moved : (c : Branch) → c ≡ f b → depth c.key ≡ level
    depth-moved c e = ap (λ x. depth x.key) e ∙ ap depth (same_key b) ∙ depth_self

    -- The parent of the changed branch keeps its depth, since it does not hang below the branch.
    depth-above : (p : Branch) → Lives B p s → is_under p ≡ false → depth p.key ≡ p.level
    depth-above p live n = depth-Lives p live ∙ rw n refl

    abbrev bound : ℕ
    bound = (level_bound (B.rows s)).0 + level

    depth-bound : (c : Branch) → Lives B c s → depth c.key ≤ bound
    depth-bound c live =
        rw (depth-Lives c live) (at_most (is_under c) ((level_bound (B.rows s)).1 c live.0))
      where
        at_most :
            (u : Bool)
            → c.level ≤ (level_bound (B.rows s)).0
            → (if u then c.level + level - b.level else c.level) ≤ bound
        at_most true h = omega arith
        at_most false h = omega arith

    moved-IsSettling : IsSettling B depth bound ((b.key, level) ∷ []) moved
    moved-IsSettling = record {
      hangs = moved-Hangs;
      deeper = λ c d live live_d up. elim (moved-row c live) [
        | inl e ↦ elim placed [
          | inl (none_above, _, _, _) ↦ (cc (e, up, none_above))
          | inr (p, live_p, at_p, under_p, _, apart) ↦
              let same : p.key ≡ d.key = (cc (e, up, at_p)) in
              depth-moved c e
              ∙ under_p
              ∙ ap (λ k. k + 1) (sym (depth-above p live_p (apart p.level)))
              ∙ ap (λ k. depth k + 1) same
        ]
        | inr (old, n) ↦
            let (d', live_d', kd) = stood d live_d in
            depth-parent c d' old live_d' (up ∙ ap some (sym kd)) n ∙ ap (λ k. depth k + 1) kd
      ];
      bounded = λ c live. let (d, live_d, kd) = stood c live in rw (← kd) (depth-bound d live_d);
      queued = λ x o. elim o [ inl e ↦ rw e (sym depth_self) | inr z ↦ absurd z ];
      rooted = λ c live top. elim (moved-row c live) [
        | inl e ↦ ap (λ x. x.level) e ∙ sym (depth-moved c e)
        | inr (old, n) ↦ sym (depth-root c old top n)
      ];
      grounded = λ c live top. elim (moved-row c live) [
        | inl e ↦ elim placed [
          | inl (_, zero_level, _, _) ↦ depth-moved c e ∙ zero_level
          | inr (q, _, at_q, _, _, _) ↦ (cc (e, top, at_q))
        ]
        | inr (old, n) ↦ depth-root c old top n ∙ tree.rooted c old top
      ];
      waiting = λ c p live up. elim (moved-row c live) [
        | inl e ↦ inl (ap (λ x. x.level) e ∙ sym (depth-moved c e))
        | inr (old, n) ↦ unmoved c p old up n
      ];
    }
      where
        depth-root :
            (c : Branch)
            → Lives B c s
            → c.parent_id ≡ none
            → (c.key == b.key) ≡ false
            → depth c.key ≡ c.level
        depth-root c live top n = depth-Lives c live ∙ rw (not_under) refl
          where
            not_under : is_under c ≡ false
            not_under = rw (tree.rooted c live top) n

        unmoved :
            (c : Branch) (p : ℕ)
            → Lives B c s
            → c.parent_id ≡ some p
            → (c.key == b.key) ≡ false
            → (c.level ≡ depth c.key)
              ⊎ Occurs {A = ℕ × ℕ} (p, depth p) ((b.key, level) ∷ [])
              ⊎ ((d : Branch) × Lives B d moved × (d.key ≡ p) × (d.level ≢ depth p))
        unmoved c p live up n =
            let (d, live_d, kd) = tree.hangs.above c p live up in
            let up' = up ∙ ap some (sym kd) in
            elim (Bool-cases (d.key == b.key)) [
              | inl t ↦
                  let at_b : p ≡ b.key = sym kd ∙ test→eq d.key b.key t in
                  inr (inl (inl (rw (at_b, depth_self) refl)))
              | inr nd ↦ elim (Bool-cases (d.level == depth d.key)) [
                | inl right ↦ inl (
                    tree.stacked c d live live_d up'
                    ∙ ap (λ k. k + 1) (test→eq d.level (depth d.key) right)
                    ∙ sym (depth-parent c d live live_d up' n))
                | inr wrong ↦ inr (
                    inr (
                      d,
                      Lives-moved d live_d nd,
                      kd,
                      λ same.
                          (cc (wrong, eq→test d.level (depth d.key) (same ∙ ap depth (sym kd)))),
                    ))
              ]
            ]

    -- The levels are set, and the branches form a tree again.
    pub moved-IsTree :
        (fuel : ℕ) × (t : B.State) × (rebalance B fuel ((b.key, level) ∷ []) moved ≡ some t)
        × IsTree B t
    moved-IsTree =
        let (fuel, t, ended, hangs, levels, deeper, grounded) =
          rebalance_lem B depth bound b.key level moved (omega arith) moved-IsSettling in
        (
          fuel,
          t,
          ended,
          record {
            hangs = hangs;
            rooted = λ c live top. levels c live ∙ grounded c live top;
            stacked = λ c d live live_d up.
                levels c live ∙ deeper c d live live_d up ∙ ap (λ k. k + 1) (sym (levels d live_d));
          },
        )
