-- ===== src/Branch/Placed.antt =====
-- Where updateBranch puts a branch: the place is found in finitely many steps, and it is not below
-- the branch.
use elchi_backend.Prelude.{
  ℕ, ◌+◌, ◌≡◌, refl, sym, ap, ◌∙◌, inl, inr, Bool, true, false, not, ◌&&◌, Option, none, some,
  length, opt_eq, arith, Bool-cases, Option-cases, not-any-Occurs,
}
use elchi_backend.Prelude.Results.{
  Result, ok, err, bad_request, conflict, not_found, internal, or_throw-eq-ok,
}
use elchi_backend.Prelude.Runs.{Run, >>=-eq-ok}
use elchi_backend.Store.{Table}
use elchi_backend.Branch.{
  is_hq, Branch, BranchUser, IdText, printed, ParentArg, nothing, refused, parent, Cases, is_live,
  get_branch, ensure_not_cyclic_parent,
}
use elchi_backend.Branch.Creation.{is_other, find_hq}
use elchi_backend.Branch.Changes.{next_parent, place_changed}
use elchi_backend.Branch.Forest.{Lives, IsTree}
use elchi_backend.Branch.Cycles.{ensure_not_cyclic_parent-ends, ensure_not_cyclic_parent-not-below}
use elchi_backend.Branch.Moves.{find_one-Lives, IsPlaced}

pub some-injective : {A : Type 0} {a b : A} → some a ≡ some b → a ≡ b
some-injective h = cc

-- The parent in a request is spelled as the database prints it.
abbrev pub IsPrinted : ParentArg → Type 0
IsPrinted nothing = Unit
IsPrinted refused = Unit
IsPrinted (parent p) = p.spelling ≡ 0

abbrev pub IsPrintedIn : Option ParentArg → Type 0
IsPrintedIn none = Unit
IsPrintedIn (some p) = IsPrinted p

module _ (B : Table Branch Branch.key) (W : Cases) where
  pub next_parent-IsPrinted :
      (U : Table BranchUser BranchUser.key) (a : Option ParentArg) (b : Branch)
      → IsPrintedIn a
      → IsPrinted (next_parent B U W a b)
  next_parent-IsPrinted U (some p) b h = h
  next_parent-IsPrinted U none b h = own b.parent_id
    where
      own : (o : Option ℕ) → IsPrinted (elim o [ none ↦ nothing | some k ↦ parent (printed k) ])
      own none = tt
      own (some k) = refl

  module _ (U : Table BranchUser BranchUser.key) where
    pub place_changed-ends :
        (hq : Bool) (a : ParentArg) (b : Branch) (s : B.State)
        → (o : Result (Option ℕ × ℕ)) × (place_changed B U W (length (B.rows s) + 2) hq a b s
            ≡ some o)
    unfolding place_changed
    place_changed-ends true nothing b s =
        elim (Bool-cases (is_other W B (find_hq W B s) (some b.key))) [
          | inl t ↦ (err conflict, rw t refl)
          | inr f ↦ (ok (none, 0), rw f refl)
        ]
    place_changed-ends true refused b s = (err bad_request, refl)
    place_changed-ends true (parent p) b s = (err bad_request, refl)
    place_changed-ends false nothing b s = (err bad_request, refl)
    place_changed-ends false refused b s = (err internal, refl)
    place_changed-ends false (parent p) b s =
        let (o, ended) =
          ensure_not_cyclic_parent-ends B (length (B.rows s) + 2) b.key p s (omega arith) in
        after o ended
      where
        after :
            (o : Result (Unit {0}))
            → ensure_not_cyclic_parent B (length (B.rows s) + 2) b.key p s ≡ some o
            → (o' : Result (Option ℕ × ℕ)) × (place_changed B U W
                  (length (B.rows s) + 2)
                  false
                  (parent p)
                  b
                  s
                ≡ some o')
        after (err e) ended = (err e, rw ended refl)
        after (ok w) ended = elim (Option-cases (B.find_one s (is_live B p.value))) [
          | inl gone ↦ (err not_found, rw (ended, gone) refl)
          | inr (d, found) ↦ (ok (some d.key, d.level + 1), rw (ended, found) refl)
        ]

    pub place_changed-IsPlaced :
        (fuel : ℕ) (hq : Bool) (a : ParentArg) (b : Branch) (s : B.State) (place : Option ℕ × ℕ)
        → IsTree B s
        → Lives B b s
        → IsPrinted a
        → place_changed B U W fuel hq a b s ≡ some (ok place)
        → IsPlaced B s b place.0 place.1 hq
    unfolding place_changed
    place_changed-IsPlaced fuel true refused b s place tree live pr h = cc
    place_changed-IsPlaced fuel true (parent p) b s place tree live pr h = cc
    place_changed-IsPlaced fuel false nothing b s place tree live pr h = cc
    place_changed-IsPlaced fuel false refused b s place tree live pr h = cc
    place_changed-IsPlaced fuel true nothing b s place tree live pr h =
        elim (Bool-cases (is_other W B (find_hq W B s) (some b.key))) [
          | inl t ↦ let thrown : some (err conflict) ≡ some (ok place) = rw t at h in absurd (cc)
          | inr f ↦
              let here : some (ok (none, 0)) ≡ some (ok place) = rw f at h in
              inl (
                ap (λ (x : Option ℕ × ℕ). x.0) (sym (of_ok here)),
                ap (λ (x : Option ℕ × ℕ). x.1) (sym (of_ok here)),
                refl,
                only f,
              )
        ]
      where
        of_ok :
            {x y : Option ℕ × ℕ} → ◌≡◌ {A = Run (Option ℕ × ℕ)} (some (ok x)) (some (ok y)) → x ≡ y
        of_ok e = cc

        not_hq : (a d : Bool) → d ≡ false → a && not d ≡ false → a ≡ false
        not_hq false d e f = refl
        not_hq true true e f = cc
        not_hq true false e f = cc

        hq_alive : (a d : Bool) → a && not d ≡ true → (a ≡ true) × (d ≡ false)
        hq_alive true false e = (refl, refl)
        hq_alive true true e = cc
        hq_alive false d e = cc

        same_key : (j k : ℕ) → not (opt_eq (some j) (some k)) ≡ false → j ≡ k
        same_key j k e = ground arith

        only :
            is_other W B (find_hq W B s) (some b.key) ≡ false
            → (x : Branch) → Lives B x s
            → is_hq x.type ≡ true
            → x.key ≡ b.key
        only f x live_x hx = elim (Option-cases (find_hq W B s)) [
          | inl gone ↦
              (cc (
                not_hq (is_hq x.type) x.is_deleted live_x.1
                    (not-any-Occurs _ (B.rows s) x (B.find_one-none s _ gone) live_x.0),
                hx,
              ))
          | inr (y, found) ↦
              let (hy, alive) =
                hq_alive (is_hq y.type) y.is_deleted (B.find_one-meets s _ y found) in
              tree.hangs.one_hq x y live_x (B.find_one-Occurs s _ y found, alive) hx hy
              ∙ same_key y.key b.key (rw found at f)
        ]
    place_changed-IsPlaced fuel false (parent p) b s place tree live pr h =
        let (w, free, h1) = >>=-eq-ok (ensure_not_cyclic_parent B fuel b.key p s) _ h in
        let (d, got, h2) = >>=-eq-ok (some (get_branch B p.value s)) _ h1 in
        let (live_d, at_key) =
          find_one-Lives B s p.value d
            (or_throw-eq-ok (B.find_one s (is_live B p.value)) not_found d (some-injective got)) in
        let here : (some d.key, d.level + 1) ≡ place = of_ok h2 in
        inr (
          d,
          live_d,
          ap (λ (x : Option ℕ × ℕ). x.0) (sym here),
          ap (λ (x : Option ℕ × ℕ). x.1) (sym here),
          refl,
          λ n. rw at_key (
              ensure_not_cyclic_parent-not-below B n fuel b.key p.value s {w = w}
                (rw (is_printed p pr) at free)),
        )
      where
        of_ok :
            {x y : Option ℕ × ℕ} → ◌≡◌ {A = Run (Option ℕ × ℕ)} (some (ok x)) (some (ok y)) → x ≡ y
        of_ok e = cc

        is_printed : (x : IdText) → x.spelling ≡ 0 → x ≡ printed x.value
        is_printed x e = ground arith
