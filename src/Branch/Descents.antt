-- ===== src/Branch/Descents.antt =====
-- collectDescendantBranchIds: the recursive query ends on a tree, and finds the live branches that
-- hang below its roots, the roots included.
use elchi_backend.Prelude.{
  test→eq, eq→test, ℕ, zero, suc, ◌+◌, ◌≤◌, ◌<◌, ◌≡◌, ◌↔◌, refl, sym, ap, ◌∙◌, inl, inr, Bool, true,
  false, not, ◌&&◌, some, List, [], ◌∷◌, ◌++◌, map, any, ◌==◌, arith, Occurs, Occurs-append,
  Occurs-append_left, Occurs-append_right, Bool-cases,
}
use elchi_backend.Store.{Table}
use elchi_backend.Branch.{Branch, children, joined, descend, collect_descendant_branch_ids}
use elchi_backend.Branch.Forest.{Lives, IsTree}
use elchi_backend.Branch.Rebalance.{children-Lives, Lives-children}
use elchi_backend.Branch.Moves.{level_bound}

Occurs-keys : (cs : List Branch) (c : Branch) → Occurs c cs → Occurs c.key (map (λ b. b.key) cs)
Occurs-keys [] c o = elim o [ ]
Occurs-keys (d ∷ cs) c (inl e) = inl (ap (λ x. x.key) e)
Occurs-keys (d ∷ cs) c (inr o) = inr (Occurs-keys cs c o)

keys-Occurs :
    (cs : List Branch) (k : ℕ)
    → Occurs k (map (λ b. b.key) cs)
    → (c : Branch) × Occurs c cs × (c.key ≡ k)
keys-Occurs [] k o = elim o [ ]
keys-Occurs (d ∷ cs) k (inl e) = (d, inl refl, sym e)
keys-Occurs (d ∷ cs) k (inr o) = let (c, oc, e) = keys-Occurs cs k o in (c, inr oc, e)

any-Occurs : (k : ℕ) (ks : List ℕ) → any (λ j. k == j) ks ≡ true → Occurs k ks
any-Occurs k [] h = cc
any-Occurs k (j ∷ ks) h = elim (Bool-cases (k == j)) [
  | inl t ↦ inl (test→eq k j t)
  | inr n ↦ inr (any-Occurs k ks (rw n at h))
]

Occurs-any : (k : ℕ) (ks : List ℕ) → Occurs k ks → any (λ j. k == j) ks ≡ true
Occurs-any k [] o = elim o [ ]
Occurs-any k (j ∷ ks) (inl e) = rw (eq→test k j e) refl
Occurs-any k (j ∷ ks) (inr o) = elim (Bool-cases (k == j)) [
  | inl t ↦ rw t refl
  | inr n ↦ rw n (Occurs-any k ks o)
]

module _ (B : Table Branch Branch.key) where
  -- The second branch hangs below the first, or is it.
  pub data HangsBelow (s : B.State) : ℕ → ℕ → Type 0 where
    here : (k : ℕ) → HangsBelow s k k
    under :
        {j k : ℕ} (c : Branch)
        → Lives B c s
        → c.parent_id ≡ some k
        → HangsBelow s c.key j
        → HangsBelow s k j

  -- The row that a key names.
  abbrev Names : B.State → ℕ → ℕ → Type 0
  Names s r k = (d : Branch) × Lives B d s × (d.key ≡ k) × (r ≤ d.level)

  joined-Occurs :
      (ks : List ℕ) (s : B.State) (j : ℕ)
      → Occurs j (joined B ks s)
      → (k : ℕ) × Occurs k ks × ((c : Branch) × Lives B c s × (c.parent_id ≡ some k) × (c.key ≡ j))
  joined-Occurs [] s j o = elim o [ ]
  joined-Occurs (k ∷ ks) s j o =
      elim (Occurs-append (map (λ b. b.key) (children B k s)) (joined B ks s) j o) [
        | inl now ↦
            let (c, oc, e) = keys-Occurs (children B k s) j now in
            let (live, p) = children-Lives B k s c oc in (k, inl refl, (c, live, p, e))
        | inr later ↦ let (k', ok, child) = joined-Occurs ks s j later in (k', inr ok, child)
      ]

  Occurs-joined :
      (ks : List ℕ) (s : B.State) (k : ℕ) (c : Branch)
      → Occurs k ks
      → Lives B c s
      → c.parent_id ≡ some k
      → Occurs c.key (joined B ks s)
  Occurs-joined [] s k c o live p = elim o [ ]
  Occurs-joined (x ∷ ks) s k c (inl e) live p =
      Occurs-append_left (map (λ b. b.key) (children B x s)) (joined B ks s) c.key
        (Occurs-keys (children B x s) c (Lives-children B x s c live (p ∙ ap some e)))
  Occurs-joined (x ∷ ks) s k c (inr o) live p =
      Occurs-append_right (map (λ b. b.key) (children B x s)) (joined B ks s) c.key
        (Occurs-joined ks s k c o live p)

  -- A list is what hangs below the branches of another.
  abbrev pub IsBelow : B.State → List ℕ → List ℕ → Type 0
  IsBelow s roots found =
      ((j : ℕ) → Occurs j found → (k : ℕ) × Occurs k roots × HangsBelow s k j)
      × ((k j : ℕ) → Occurs k roots → HangsBelow s k j → Occurs j found)

  joined-IsBelow :
      (ks found : List ℕ) (s : B.State)
      → IsBelow s (joined B ks s) found
      → IsBelow s ks (ks ++ found)
  joined-IsBelow ks found s (sound, complete) = (
    λ j o. elim (Occurs-append ks found j o) [
      | inl root ↦ (j, root, here j)
      | inr below ↦
          let (i, oi, h) = sound j below in
          let (k, ok, (c, live, p, e)) = joined-Occurs ks s i oi in (k, ok, under c live p (rw e h))
    ],
    λ k j o h. complete_from k j o h,
  )
    where
      complete_from : (k j : ℕ) → Occurs k ks → HangsBelow s k j → Occurs j (ks ++ found)
      complete_from k j o (here _) = Occurs-append_left ks found k o
      complete_from k j o (under c live p h) =
          Occurs-append_right ks found j (complete c.key j (Occurs-joined ks s k c o live p) h)

  descend-ends :
      (n r bound : ℕ) (ks : List ℕ) (s : B.State)
      → IsTree B s
      → ((c : Branch) → Occurs c (B.rows s) → c.level ≤ bound)
      → bound < r + n
      → ((k : ℕ) → Occurs k ks → Names s r k)
      → (fuel : ℕ) × (found : List ℕ) × (descend B fuel ks s ≡ some found) × IsBelow s ks found
  unfolding descend
  descend-ends n r bound [] s tree most lt named =
      (0, [], refl, ((λ j o. elim o [ ]), (λ k j o h. elim o [ ])))
  descend-ends zero r bound (k ∷ ks) s tree most lt named =
      let (d, live, _, le) = named k (inl refl) in absurd (omega (arith, most d live.0))
  descend-ends (suc n) r bound (k ∷ ks) s tree most lt named =
      let (fuel, found, ended, is_below) =
        descend-ends n (r + 1) bound (joined B (k ∷ ks) s) s tree most (omega arith)
          children_named in
      (
        suc fuel,
        (k ∷ ks) ++ found,
        rw (descend, ended) refl,
        joined-IsBelow (k ∷ ks) found s is_below,
      )
    where
      children_named : (j : ℕ) → Occurs j (joined B (k ∷ ks) s) → Names s (r + 1) j
      children_named j o =
          let (i, oi, (c, live, p, e)) = joined-Occurs (k ∷ ks) s j o in
          let (d, live_d, kd, le) = named i oi in
          (c, live, e, omega (arith, tree.stacked c d live live_d (p ∙ ap some (sym kd))))

  listed→ :
      (roots : List ℕ) (c : Branch)
      → any (λ k. c.key == k) roots && not c.is_deleted ≡ true
      → Occurs c.key roots × (c.is_deleted ≡ false)
  listed→ roots c h = both (any (λ k. c.key == k) roots) c.is_deleted refl refl h
    where
      both :
          (a d : Bool)
          → any (λ k. c.key == k) roots ≡ a
          → c.is_deleted ≡ d
          → a && not d ≡ true
          → Occurs c.key roots × (c.is_deleted ≡ false)
      both true false ha hd h' = (any-Occurs c.key roots ha, hd)
      both true true ha hd h' = cc
      both false d ha hd h' = cc

  -- On a tree the recursive query of `collectDescendantBranchIds` ends, and it finds the live roots
  -- and what hangs below them, and nothing else.
  pub collect_descendant_branch_ids-IsBelow :
      (roots : List ℕ) (s : B.State)
      → IsTree B s
      → (fuel : ℕ) × (found : List ℕ) × (collect_descendant_branch_ids B fuel roots s ≡ some found)
        × ((j : ℕ)
            → Occurs j found
              ↔ ((c : Branch) × Lives B c s × Occurs c.key roots × HangsBelow s c.key j))
  unfolding collect_descendant_branch_ids
  collect_descendant_branch_ids-IsBelow roots s tree =
      let listed = λ (b : Branch). any (λ k. b.key == k) roots && not b.is_deleted in
      let rows = B.find_by s listed (λ b. 0) in
      let keys = map (λ (b : Branch). b.key) rows in
      let (bound, most) = level_bound (B.rows s) in
      let (fuel, found, ended, (sound, complete)) =
        descend-ends (suc bound) 0 bound keys s tree most (omega arith) (λ k ok.
          let (c, oc, e) = keys-Occurs rows k ok in
          let (ob, t) = B.find_by-Occurs s listed (λ b. 0) c oc in
          (c, (ob, (listed→ roots c t).1), e, omega arith)) in
      (
        fuel,
        found,
        ended,
        λ j. (
          λ o.
              let (k, ok, h) = sound j o in
              let (c, oc, e) = keys-Occurs rows k ok in
              let (ob, t) = B.find_by-Occurs s listed (λ b. 0) c oc in
              let (root, alive) = listed→ roots c t in (c, (ob, alive), root, rw e h),
          λ (c, live, root, h).
              complete c.key j
                (Occurs-keys rows c (
                  B.find_by-all s listed (λ b. 0) c live.0
                    (rw (Occurs-any c.key roots root, live.1) refl)))
                h,
        ),
      )
