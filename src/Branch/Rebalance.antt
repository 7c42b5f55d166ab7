-- ===== src/Branch/Rebalance.antt =====
-- rebalanceDescendantLevels: it ends, and then every branch has the level of its depth. The depth is
-- a number for each branch that grows by one from a branch to those below it.
use elchi_backend.Prelude.{
  ℕ, zero, suc, ◌+◌, ◌≤◌, ◌<◌, ◌≡◌, ◌≢◌, refl, sym, ap, ◌∙◌, ◌⊎◌, inl, inr, Bool, true, false,
  Option, none, some, List, [], ◌∷◌, ◌++◌, map, not, ◌&&◌, opt_eq, arith, Option-cases, All,
  All-append, Occurs, Occurs-All, Occurs-append, Occurs-append_left, Occurs-append_right,
}
use mathlib.Core.List.{append_assoc, append-nil}
use elchi_backend.Store.{Table}
use elchi_backend.Branch.{Branch, is_child, children, level_children, rebalance}
use elchi_backend.Branch.Forest.{Lives, Hangs, Relevels, Relevels-Hangs}
use elchi_backend.Branch.Levels.{
  Loaded, level_children-row, Occurs-level_children, level_children-HasKeys, level_children-level,
}

is_child→ :
    (p : Option ℕ) (k : ℕ) (deleted : Bool)
    → opt_eq p (some k) && not deleted ≡ true
    → (p ≡ some k) × (deleted ≡ false)
is_child→ none k deleted h = cc
is_child→ (some a) k true h = ground arith
is_child→ (some a) k false h = ground arith

→is_child : (k : ℕ) → opt_eq (some k) (some k) && true ≡ true
→is_child k = ground arith

-- The entry of the queue for a child
abbrev pub entry : ℕ → Branch → ℕ × ℕ
entry e c = (c.key, e)

pub Occurs-entries :
    (e : ℕ) (cs : List Branch) (c : Branch) → Occurs c cs → Occurs (entry e c) (map (entry e) cs)
Occurs-entries e [] c o = elim o [ ]
Occurs-entries e (d ∷ cs) c (inl h) = inl (ap (entry e) h)
Occurs-entries e (d ∷ cs) c (inr o) = inr (Occurs-entries e cs c o)

pub entries-Occurs :
    (e : ℕ) (cs : List Branch) (x : ℕ × ℕ)
    → Occurs x (map (entry e) cs)
    → (c : Branch) × Occurs c cs × (x ≡ entry e c)
entries-Occurs e [] x o = elim o [ ]
entries-Occurs e (d ∷ cs) x (inl h) = (d, inl refl, h)
entries-Occurs e (d ∷ cs) x (inr o) = let (c, oc, h) = entries-Occurs e cs x o in (c, inr oc, h)

module _ (B : Table Branch Branch.key) where
  pub children-Lives :
      (k : ℕ) (s : B.State) (c : Branch)
      → Occurs c (children B k s)
      → Lives B c s × (c.parent_id ≡ some k)
  children-Lives k s c o =
      let (oc, t) = B.find_by-Occurs s (is_child B k) (λ b. 0) c o in
      let (p, d) = is_child→ c.parent_id k c.is_deleted t in ((oc, d), p)

  pub Lives-children :
      (k : ℕ) (s : B.State) (c : Branch)
      → Lives B c s
      → c.parent_id ≡ some k
      → Occurs c (children B k s)
  Lives-children k s c live p =
      B.find_by-all s (is_child B k) (λ b. 0) c live.0 (rw (p, live.1) (→is_child k))

  module _ (depth : ℕ → ℕ) (bound : ℕ) where
    -- What holds before each round: the entries of the queue have the right levels, and a branch
    -- with a wrong level has its parent in the queue, or a parent with a wrong level.
    pub record IsSettling (queue : List (ℕ × ℕ)) (s : B.State) : Type 0 where
      pub hangs : Hangs B s
      pub deeper :
          (c d : Branch)
          → Lives B c s
          → Lives B d s
          → c.parent_id ≡ some d.key
          → depth c.key ≡ depth d.key + 1
      pub bounded : (c : Branch) → Lives B c s → depth c.key ≤ bound
      pub queued : (x : ℕ × ℕ) → Occurs x queue → x.1 ≡ depth x.0
      pub rooted : (c : Branch) → Lives B c s → c.parent_id ≡ none → c.level ≡ depth c.key
      pub grounded : (c : Branch) → Lives B c s → c.parent_id ≡ none → depth c.key ≡ 0
      pub waiting :
          (c : Branch) (p : ℕ)
          → Lives B c s
          → c.parent_id ≡ some p
          → (c.level ≡ depth c.key)
            ⊎ Occurs (p, depth p) queue
            ⊎ ((d : Branch) × Lives B d s × (d.key ≡ p) × (d.level ≢ depth p))

    -- With nothing in the queue every level is the depth.
    settled :
        (n : ℕ) (s : B.State) (c : Branch)
        → IsSettling [] s
        → depth c.key < n
        → Lives B c s
        → c.level ≡ depth c.key
    settled zero s c w lt live = elim lt [ ]
    settled (suc n) s c w lt live = elim (Option-cases c.parent_id) [
      | inl e ↦ w.rooted c live e
      | inr (p, e) ↦ elim (w.waiting c p live e) [
        | inl right ↦ right
        | inr (inl gone) ↦ absurd gone
        | inr (inr (d, live_d, k, wrong)) ↦
            let nearer : depth d.key < n =
              omega (arith, w.deeper c d live live_d (e ∙ ap some (sym k))) in
            absurd (wrong (settled n s d w nearer live_d ∙ ap depth k))
      ]
    ]

    pub settled-level :
        (s : B.State) (c : Branch) → IsSettling [] s → Lives B c s → c.level ≡ depth c.key
    settled-level s c w live = settled (suc (depth c.key)) s c w (omega arith) live

    module _ (k l : ℕ) (queue : List (ℕ × ℕ)) (s : B.State)
        (w : IsSettling ((k, l) ∷ queue) s) where
      abbrev below : List Branch
      below = children B k s

      abbrev after : B.State
      after = level_children B (l + 1) below s

      child-depth : (c : Branch) → Occurs c below → depth c.key ≡ l + 1
      child-depth c o =
          let (live, p) = children-Lives k s c o in
          let (d, live_d, kd) = w.hangs.above c k live p in
          w.deeper c d live live_d (p ∙ ap some (sym kd))
          ∙ ap (λ n. depth n + 1) kd
          ∙ ap (λ n. n + 1) (sym (w.queued (k, l) (inl refl)))

      Named-Occurs :
          (b c : Branch) → Occurs b (B.rows s) → Occurs c below → c.key ≡ b.key → Occurs b below
      Named-Occurs b c ob oc e =
          let same : c ≡ b = w.hangs.keyed c b (children-Lives k s c oc).0.0 ob e in rw (← same) oc

      -- A branch after the round is one from before it, and if it was changed it is a child.
      origin :
          (c : Branch)
          → Lives B c after
          → (b : Branch) × Lives B b s
            × (c.key ≡ b.key)
            × (c.parent_id ≡ b.parent_id)
            × ((c ≡ b) ⊎ ((c.level ≡ l + 1) × Occurs b below))
      origin c live =
          let (b, ob, from) = level_children-row B (l + 1) below s c live.0 in
          elim from [
            | inl e ↦ (
              b,
              (ob, ap (λ x. x.is_deleted) (sym e) ∙ live.1),
              ap (λ x. x.key) e,
              ap (λ x. x.parent_id) e,
              inl e,
            )
            | inr (e, (d, od, kd)) ↦ (
              b,
              (ob, ap (λ x. x.is_deleted) (sym e) ∙ live.1),
              ap (λ x. x.key) e,
              ap (λ x. x.parent_id) e,
              inr (ap (λ x. x.level) e, Named-Occurs b d ob od kd),
            )
          ]

      after-Relevels : Relevels B s after
      after-Relevels = record {
        back = λ r o.
            let (b, ob, from) = level_children-row B (l + 1) below s r o in
            elim from [ inl e ↦ (b, b.level, ob, e) | inr (e, _) ↦ (b, l + 1, ob, e) ];
        forth = λ b o. elim (Occurs-level_children B (l + 1) below s b o) [
          | inl o' ↦ (b.level, o')
          | inr (o', _) ↦ (l + 1, o')
        ];
        keyed = level_children-HasKeys B (l + 1) below s w.hangs.keyed;
      }

      below-Loaded : Loaded B (l + 1) below s
      below-Loaded = Occurs-All _ below (λ c oc e r o h.
          ap (λ x. x.level) (w.hangs.keyed r c o (children-Lives k s c oc).0.0 h) ∙ e)

      -- A child has the right level after the round.
      child-level :
          (c b : Branch) → Lives B c after → Occurs b below → c.key ≡ b.key → c.level ≡ depth c.key
      child-level c b live ob h =
          level_children-level B (l + 1) below s b below-Loaded ob c live.0 h
          ∙ sym (child-depth b ob)
          ∙ ap depth (sym h)

      still_waiting :
          (c b : Branch) (p : ℕ)
          → Lives B c after
          → c ≡ b
          → Lives B b s
          → b.parent_id ≡ some p
          → (c.level ≡ depth c.key)
            ⊎ Occurs (p, depth p) (queue ++ map (entry (l + 1)) below)
            ⊎ ((d : Branch) × Lives B d after × (d.key ≡ p) × (d.level ≢ depth p))
      still_waiting c b p live e live_b hp = elim (w.waiting b p live_b hp) [
        | inl right ↦ inl (rw e right)
        | inr (inl (inl now)) ↦
            let pk : p ≡ k = ap (λ (x : ℕ × ℕ). x.0) now in
            inl (
              child-level c b live (Lives-children k s b live_b (hp ∙ ap some pk))
                (ap (λ x. x.key) e))
        | inr (inl (inr later)) ↦ inr (inl (Occurs-append_left queue _ (p, depth p) later))
        | inr (inr (d, live_d, kd, wrong)) ↦
            elim (Occurs-level_children B (l + 1) below s d live_d.0) [
              | inl o ↦ inr (inr (d, (o, live_d.1), kd, wrong))
              | inr (_, (x, ox, kx)) ↦
                  let od = Named-Occurs d x live_d.0 ox kx in
                  let pushed : (p, depth p) ≡ entry (l + 1) d = rw (← kd, child-depth d od) refl in
                  inr (
                    inl (
                      Occurs-append_right queue (map (entry (l + 1)) below) (p, depth p)
                        (rw pushed (Occurs-entries (l + 1) below d od))))
            ]
      ]

      round-settles : IsSettling (queue ++ map (entry (l + 1)) below) after
      round-settles = record {
        hangs = Relevels-Hangs B s after after-Relevels w.hangs;
        deeper = λ c d live live_d e.
            let (b, live_b, kb, pb, _) = origin c live in
            let (b', live_b', kb', _, _) = origin d live_d in
            ap depth kb
            ∙ w.deeper b b' live_b live_b' (sym pb ∙ e ∙ ap some kb')
            ∙ ap (λ n. depth n + 1) (sym kb');
        bounded = λ c live. let (b, live_b, kb, _, _) = origin c live in rw kb (w.bounded b live_b);
        queued = λ x o. elim (Occurs-append queue (map (entry (l + 1)) below) x o) [
          | inl old ↦ w.queued x (inr old)
          | inr new ↦
              let (c, oc, e) = entries-Occurs (l + 1) below x new in rw e (sym (child-depth c oc))
        ];
        rooted = λ c live e.
            let (b, live_b, kb, pb, from) = origin c live in
            elim from [
              | inl same ↦ rw same (w.rooted b live_b (sym pb ∙ e))
              | inr (_, ob) ↦ (cc ((children-Lives k s b ob).1, pb, e))
            ];
        grounded = λ c live e.
            let (b, live_b, kb, pb, _) = origin c live in
            ap depth kb ∙ w.grounded b live_b (sym pb ∙ e);
        waiting = λ c p live e.
            let (b, live_b, kb, pb, from) = origin c live in
            elim from [
              | inl same ↦ still_waiting c b p live same live_b (sym pb ∙ e)
              | inr (_, ob) ↦ inl (child-level c b live ob kb)
            ];
      }

    abbrev IsFrom : ℕ → List (ℕ × ℕ) → Type 0
    IsFrom r = All (λ (x : ℕ × ℕ). (r ≤ x.1) × (x.1 ≤ bound))

    pushed-IsFrom :
        (r k l : ℕ) (queue : List (ℕ × ℕ)) (s : B.State) (w : IsSettling ((k, l) ∷ queue) s)
        → r ≤ l
        → IsFrom (r + 1) (map (entry (l + 1)) (children B k s))
    pushed-IsFrom r k l queue s w le = Occurs-All _ (map (entry (l + 1)) (children B k s)) (λ x o.
        let (c, oc, e) = entries-Occurs (l + 1) (children B k s) x o in
        let at_depth : depth c.key ≡ l + 1 = child-depth k l queue s w c oc in
        let below_bound : depth c.key ≤ bound = w.bounded c (children-Lives k s c oc).0 in
        rw e ((omega arith, omega arith)))

    -- The fuel for a round for each entry of a queue.
    abbrev rounds : List (ℕ × ℕ) → ℕ → ℕ
    rounds [] fuel = fuel
    rounds (x ∷ xs) fuel = suc (rounds xs fuel)

    -- A generation: the rounds for the entries of a queue leave a queue of entries one deeper.
    generation :
        (r : ℕ) (xs ys : List (ℕ × ℕ)) (s : B.State)
        → IsSettling (xs ++ ys) s
        → IsFrom r xs
        → IsFrom (r + 1) ys
        → (next : List (ℕ × ℕ)) × (t : B.State) × IsSettling next t
          × IsFrom (r + 1) next
          × ((fuel : ℕ) → rebalance B (rounds xs fuel) (xs ++ ys) s ≡ rebalance B fuel next t)
    unfolding rebalance
    generation r [] ys s w hx hy = (ys, s, w, hy, λ fuel. refl)
    generation r ((k, l) ∷ xs) ys s w hx hy =
        let pushed = map (entry (l + 1)) (children B k s) in
        let t = after k l (xs ++ ys) s w in
        let regroup : (xs ++ ys) ++ pushed ≡ xs ++ (ys ++ pushed) = append_assoc xs ys pushed in
        let (next, u, w', h, same) =
          generation r xs (ys ++ pushed) t (rw (← regroup) (round-settles k l (xs ++ ys) s w)) hx.1
            (All-append _ ys pushed hy (pushed-IsFrom r k l (xs ++ ys) s w hx.0.0)) in
        (next, u, w', h, λ fuel. ap (λ q. rebalance B (rounds xs fuel) q t) regroup ∙ same fuel)

    -- The loop ends, whatever was in the queue, and leaves nothing to settle.
    rebalance-ends :
        (n r : ℕ) (queue : List (ℕ × ℕ)) (s : B.State)
        → bound < r + n
        → IsFrom r queue
        → IsSettling queue s
        → (fuel : ℕ) × (t : B.State) × (rebalance B fuel queue s ≡ some t) × IsSettling [] t
    unfolding rebalance
    rebalance-ends n r [] s lt h w = (0, s, refl, w)
    rebalance-ends zero r (x ∷ queue) s lt h w = absurd (omega (arith, h.0.0, h.0.1))
    rebalance-ends (suc n) r (x ∷ queue) s lt h w =
        let (next, t, w', h', same) =
          generation r (x ∷ queue) [] s (rw (append-nil (x ∷ queue)) w) h tt in
        let (fuel, u, ended, w'') = rebalance-ends n (r + 1) next t (omega arith) h' w' in
        (
          rounds (x ∷ queue) fuel,
          u,
          ap (λ q. rebalance B (rounds (x ∷ queue) fuel) q s) (sym (append-nil (x ∷ queue)))
              ∙ same fuel
              ∙ ended,
          w'',
        )

    pub rebalance_lem :
        (k l : ℕ) (s : B.State)
        → l ≤ bound
        → IsSettling ((k, l) ∷ []) s
        → (fuel : ℕ) × (t : B.State) × (rebalance B fuel ((k, l) ∷ []) s ≡ some t)
          × Hangs B t
          × ((c : Branch) → Lives B c t → c.level ≡ depth c.key)
          × ((c d : Branch)
              → Lives B c t
              → Lives B d t
              → c.parent_id ≡ some d.key
              → depth c.key ≡ depth d.key + 1)
          × ((c : Branch) → Lives B c t → c.parent_id ≡ none → depth c.key ≡ 0)
    rebalance_lem k l s le w =
        let (fuel, t, ended, w') =
          rebalance-ends (suc bound) l ((k, l) ∷ []) s (omega arith) ((omega arith, le), tt) w in
        (fuel, t, ended, w'.hangs, λ c live. settled-level t c w' live, w'.deeper, w'.grounded)
