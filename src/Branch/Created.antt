-- ===== src/Branch/Created.antt =====
-- createBranch keeps the branches a tree.
use elchi_backend.Prelude.{
  ℕ, ◌+◌, ◌≡◌, refl, sym, ap, ◌∙◌, ◌⊎◌, inl, inr, Bool, true, false, not, ◌&&◌, Option, none, some,
  [], ◌∷◌, is_empty, trim, Option-cases, Occurs, Occurs-append, Occurs-append_left, not-any-Occurs,
}
use elchi_backend.Prelude.Results.{
  ok, err, guard, or_throw, bad_request, conflict, not_found, internal, >>=-eq-ok, ok-injective,
}
use elchi_backend.Store.{Table, next_key-ne}
use elchi_backend.Branch.{
  BranchType, is_hq, Branch, ParentArg, nothing, refused, parent, Cases, CreateDto, is_live,
  is_taken,
}
use elchi_backend.Branch.Creation.{
  normalize_branch_code, ensure_branch_name_unique, ensure_branch_code_unique, place_new, find_hq,
  new_branch, create_branch,
}
use elchi_backend.Branch.Forest.{HasKeys, Lives, Hangs, IsTree}
use elchi_backend.Branch.Moves.{find_one-Lives}

module _ (B : Table Branch Branch.key) where
  -- Where a new branch is put.
  abbrev IsPlacedNew : B.State → Option ℕ → ℕ → Bool → Type 0
  IsPlacedNew s o level hq =
      ((o ≡ none) × (level ≡ 0) × (hq ≡ true) × ((x : Branch) → Lives B x s → is_hq x.type ≡ false))
      ⊎ ((p : Branch) × Lives B p s × (o ≡ some p.key) × (level ≡ p.level + 1) × (hq ≡ false))

  module _ (s : B.State) (tree : IsTree B s) (n : Branch) (new_key : n.key ≡ B.next_key s)
      (placed : IsPlacedNew s n.parent_id n.level (is_hq n.type)) where
    abbrev inserted : B.State
    inserted = B.insert s n

    inserted-row : (c : Branch) → Lives B c inserted → Lives B c s ⊎ (c ≡ n)
    inserted-row c live =
        elim (Occurs-append (B.rows s) (n ∷ []) c (rw (B.rows-insert s n) at live.0)) [
          | inl old ↦ inl (old, live.1)
          | inr (inl e) ↦ inr e
          | inr (inr z) ↦ absurd z
        ]

    Lives-inserted : (c : Branch) → Lives B c s → Lives B c inserted
    Lives-inserted c live =
        (rw (B.rows-insert s n) (Occurs-append_left (B.rows s) (n ∷ []) c live.0), live.1)

    old_key : (c d : Branch) → Occurs c (B.rows s) → d ≡ n → c.key ≡ d.key → ⊥
    old_key c d o e same = next_key-ne B s c o (same ∙ ap (λ x. x.key) e ∙ new_key)

    inserted-HasKeys : HasKeys B inserted
    inserted-HasKeys a b oa ob e =
        both (Occurs-append (B.rows s) (n ∷ []) a (rw (B.rows-insert s n) at oa))
          (Occurs-append (B.rows s) (n ∷ []) b (rw (B.rows-insert s n) at ob))
      where
        both :
            Occurs a (B.rows s) ⊎ Occurs a (n ∷ [])
            → Occurs b (B.rows s) ⊎ Occurs b (n ∷ [])
            → a ≡ b
        both (inl oa') (inl ob') = tree.hangs.keyed a b oa' ob' e
        both (inl oa') (inr (inl eb)) = absurd (old_key a b oa' eb e)
        both (inl oa') (inr (inr z)) = absurd z
        both (inr (inl ea)) (inl ob') = absurd (old_key b a ob' ea (sym e))
        both (inr (inl ea)) (inr (inl eb)) = ea ∙ sym eb
        both (inr (inl ea)) (inr (inr z)) = absurd z
        both (inr (inr z)) b' = absurd z

    -- A new HQ is the only one.
    no_hq : (x : Branch) → Lives B x s → is_hq x.type ≡ true → is_hq n.type ≡ true → ⊥
    no_hq x live hx hn = elim placed [
      | inl (_, _, _, none_yet) ↦ (cc (none_yet x live, hx))
      | inr (_, _, _, _, inner) ↦ (cc (inner, hn))
    ]

    -- The parent of an old branch is an old one.
    old_parent :
        (c d : Branch) → Lives B c s → Lives B d inserted → c.parent_id ≡ some d.key → Lives B d s
    old_parent c d live live_d up = elim (inserted-row d live_d) [
      | inl old ↦ old
      | inr e ↦
          let (d', live_d', kd) = tree.hangs.above c d.key live up in
          absurd (old_key d' d live_d'.0 e kd)
    ]

    inserted-Hangs : Hangs B inserted
    inserted-Hangs = record {
      keyed = inserted-HasKeys;
      above = λ c p live up. elim (inserted-row c live) [
        | inl old ↦
            let (d, live_d, kd) = tree.hangs.above c p old up in (d, Lives-inserted d live_d, kd)
        | inr e ↦ elim placed [
          | inl (top, _, _, _) ↦ (cc (e, up, top))
          | inr (q, live_q, at_q, _, _) ↦ (q, Lives-inserted q live_q, (cc (e, up, at_q)))
        ]
      ];
      root = λ c live top. elim (inserted-row c live) [
        | inl old ↦ tree.hangs.root c old top
        | inr e ↦ elim placed [
          | inl (_, _, hq, _) ↦ ap (λ x. is_hq x.type) e ∙ hq
          | inr (q, _, at_q, _, _) ↦ (cc (e, top, at_q))
        ]
      ];
      inner = λ c p live up. elim (inserted-row c live) [
        | inl old ↦ tree.hangs.inner c p old up
        | inr e ↦ elim placed [
          | inl (top, _, _, _) ↦ (cc (e, up, top))
          | inr (_, _, _, _, inner) ↦ ap (λ x. is_hq x.type) e ∙ inner
        ]
      ];
      one_hq = λ c d live_c live_d hc hd. elim (inserted-row c live_c) [
        | inl old_c ↦ elim (inserted-row d live_d) [
          | inl old_d ↦ tree.hangs.one_hq c d old_c old_d hc hd
          | inr ed ↦ absurd (no_hq c old_c hc (ap (λ x. is_hq x.type) (sym ed) ∙ hd))
        ]
        | inr ec ↦ elim (inserted-row d live_d) [
          | inl old_d ↦ absurd (no_hq d old_d hd (ap (λ x. is_hq x.type) (sym ec) ∙ hc))
          | inr ed ↦ ap (λ x. x.key) (ec ∙ sym ed)
        ]
      ];
    }

    new_parent : (p d : Branch) → Lives B p s → Lives B d inserted → p.key ≡ d.key → p ≡ d
    new_parent p d live live_d e = inserted-HasKeys p d (Lives-inserted p live).0 live_d.0 e

    inserted-IsTree : IsTree B inserted
    inserted-IsTree = record {
      hangs = inserted-Hangs;
      rooted = λ c live top. elim (inserted-row c live) [
        | inl old ↦ tree.rooted c old top
        | inr e ↦ elim placed [
          | inl (_, ground_level, _, _) ↦ ap (λ x. x.level) e ∙ ground_level
          | inr (q, _, at_q, _, _) ↦ (cc (e, top, at_q))
        ]
      ];
      stacked = λ c d live live_d up. elim (inserted-row c live) [
        | inl old ↦ tree.stacked c d old (old_parent c d old live_d up) up
        | inr e ↦ elim placed [
          | inl (top, _, _, _) ↦ (cc (e, up, top))
          | inr (q, live_q, at_q, under, _) ↦
              let at_d : q.key ≡ d.key = (cc (e, up, at_q)) in
              ap (λ x. x.level) e
              ∙ under
              ∙ ap (λ (x : Branch). x.level + 1) (new_parent q d live_q live_d at_d)
        ]
      ];
    }

  module _ (W : Cases) where
    place_new-IsPlaced :
        (type : BranchType) (p : ParentArg) (s : B.State) (o : Option ℕ) (level : ℕ)
        → place_new W B (is_hq type) p s ≡ ok (o, level)
        → IsPlacedNew s o level (is_hq type)
    unfolding place_new
    place_new-IsPlaced type p s o level h = by_type (is_hq type) p h
      where
        by_type :
            (hq : Bool) (a : ParentArg)
            → place_new W B hq a s ≡ ok (o, level)
            → IsPlacedNew s o level hq
        by_type true nothing h' = elim (Option-cases (find_hq W B s)) [
          | inr (x, found) ↦
              let thrown : err conflict ≡ ok (o, level) = rw found at h' in absurd (cc)
          | inl gone ↦
              let here : ok (none, 0) ≡ ok (o, level) = rw gone at h' in
              inl (
                (cc),
                (cc),
                refl,
                λ x live.
                    not_hq (is_hq x.type) x.is_deleted live.1
                      (not-any-Occurs _ (B.rows s) x (B.find_one-none s _ gone) live.0),
              )
        ]
          where
            not_hq : (a d : Bool) → d ≡ false → a && not d ≡ false → a ≡ false
            not_hq false d e f = refl
            not_hq true true e f = cc
            not_hq true false e f = cc
        by_type true refused h' = cc
        by_type true (parent q) h' = cc
        by_type false nothing h' = cc
        by_type false refused h' = cc
        by_type false (parent q) h' = elim (Option-cases (B.find_one s (is_live B q.value))) [
          | inl gone ↦
              let thrown : err not_found ≡ ok (o, level) = rw (place_new, gone) at h' in absurd (cc)
          | inr (d, found) ↦
              let here : ok (some q.value, d.level + 1) ≡ ok (o, level) =
                rw (place_new, found) at h' in
              let o_is : some q.value ≡ o = cc in
              let (live, at_key) = find_one-Lives B s q.value d found in
              inr (d, live, sym o_is ∙ ap some (sym at_key), (cc), refl)
        ]

    -- `createBranch` keeps the branches a tree.
    pub create_branch-IsTree :
        (dto : CreateDto) (s t : B.State) → IsTree B s → create_branch W B dto s ≡ ok t → IsTree B t
    unfolding create_branch
    create_branch-IsTree dto s t tree h =
        let (_, _, h1) = >>=-eq-ok (guard (not (is_empty (trim dto.name))) bad_request) _ h in
        let (_, _, h2) = >>=-eq-ok (ensure_branch_name_unique W B dto.name none s) _ h1 in
        let (type, _, h3) = >>=-eq-ok (or_throw dto.type bad_request) _ h2 in
        let (code, _, h4) = >>=-eq-ok (normalize_branch_code W B dto.code) _ h3 in
        let (_, _, h5) = >>=-eq-ok (ensure_branch_code_unique W B code none s) _ h4 in
        let (place, put, h6) = >>=-eq-ok (place_new W B (is_hq type) dto.parent_id s) _ h5 in
        let (_, _, h7) = >>=-eq-ok (guard (not (is_taken B (some code) none s)) internal) _ h6 in
        let n = new_branch W B (trim dto.name) code type place s in
        rw (← ok-injective h7) (
          inserted-IsTree s tree n refl
            (place_new-IsPlaced type dto.parent_id s place.0 place.1 put))
