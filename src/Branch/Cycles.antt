-- ===== src/Branch/Cycles.antt =====
-- ensureNotCyclicParent: its loop ends in every state of the table, also in one that has a cycle
-- already, and what it lets through has no branch as its own ancestor, if the parent's id is spelled
-- as the database prints it.
use elchi_backend.Prelude.{
  ℕ, zero, suc, ◌+◌, ◌≤◌, ◌<◌, ◌≡◌, refl, ap, ◌∙◌, inl, inr, Bool, true, false, not, none, some,
  List, [], ◌∷◌, ◌==◌, arith, any, length, if◌then◌else◌, Bool-cases, Option-cases, Occurs,
}
use elchi_backend.Prelude.Results.{Result, ok, err, bad_request, not_found}
use elchi_backend.Store.{Table}
use elchi_backend.Branch.{
  Branch, IdText, printed, same_text, is_live, climb, ensure_not_cyclic_parent, is_refused,
}

module _ {A : Type 0} where
  abbrev count : (A → Bool) → List A → ℕ
  count p [] = 0
  count p (x ∷ xs) = if p x then suc (count p xs) else count p xs

  count-le-length : (p : A → Bool) (xs : List A) → count p xs ≤ length xs
  count-le-length p [] = omega arith
  count-le-length p (x ∷ xs) = ground (arith, count-le-length p xs)

  count-le :
      (p q : A → Bool) (xs : List A) → ((x : A) → p x ≡ true → q x ≡ true) → count p xs ≤ count q xs
  count-le p q [] h = omega arith
  count-le p q (x ∷ xs) h = ground (arith, h x, count-le p q xs h)

  -- A test that is narrower, and refuses a member of the list, counts less.
  count-lt :
      (p q : A → Bool) (xs : List A) (a : A)
      → ((x : A) → p x ≡ true → q x ≡ true)
      → Occurs a xs
      → p a ≡ false
      → q a ≡ true
      → count p xs < count q xs
  count-lt p q [] a h o n y = elim o [ ]
  count-lt p q (x ∷ xs) a h (inl e) n y =
      let n' : p x ≡ false = rw (← e) n in
      let y' : q x ≡ true = rw (← e) y in ground (arith, n', y', count-le p q xs h)
  count-lt p q (x ∷ xs) a h (inr o) n y = ground (arith, h x, count-lt p q xs a h o n y)

module _ (B : Table Branch Branch.key) where
  -- The rows that a climb has not visited.
  abbrev is_unvisited : List IdText → Branch → Bool
  is_unvisited visited b = not (any (same_text (printed b.key)) visited)

  unvisited_before :
      (visited : List IdText) (current : IdText) (b : Branch)
      → is_unvisited (current ∷ visited) b ≡ true
      → is_unvisited visited b ≡ true
  unvisited_before visited current b h = ground arith

  no_longer_unvisited :
      (visited : List IdText) (b : Branch) → is_unvisited (printed b.key ∷ visited) b ≡ false
  no_longer_unvisited visited b = ground arith

  live→key : (k : ℕ) (b : Branch) → is_live B k b ≡ true → b.key ≡ k
  live→key k b h = ground arith

  not-refused :
      (branch k : ℕ) (visited : List IdText)
      → is_refused B branch visited (printed k) ≡ false
      → ((k == branch) ≡ false) × (any (same_text (printed k)) visited ≡ false)
  unfolding is_refused
  not-refused branch k visited h = ground arith

  -- A round that goes on to the parent.
  pub climb-up :
      (fuel branch p : ℕ) (visited : List IdText) (current : IdText) (s : B.State) (b : Branch)
      → is_refused B branch visited current ≡ false
      → B.find_one s (is_live B current.value) ≡ some b
      → b.parent_id ≡ some p
      → climb B (suc fuel) branch visited current s
        ≡ climb B fuel branch (current ∷ visited) (printed p) s
  unfolding climb
  climb-up fuel branch p visited current s b n found up = rw (climb, n, found, up) refl

  climb-ends :
      (fuel branch k : ℕ) (visited : List IdText) (s : B.State)
      → count (is_unvisited visited) (B.rows s) < fuel
      → (o : Result (Unit {0})) × (climb B fuel branch visited (printed k) s ≡ some o)
  unfolding climb
  climb-ends zero branch k visited s lt = elim lt [ ]
  climb-ends (suc fuel) branch k visited s lt =
      elim (Bool-cases (is_refused B branch visited (printed k))) [
        | inl t ↦ (err bad_request, rw (climb, t) refl)
        | inr n ↦ elim (Option-cases (B.find_one s (is_live B k))) [
          | inl gone ↦ (err not_found, rw (climb, n, gone) refl)
          | inr (b, found) ↦ elim (Option-cases b.parent_id) [
            | inl top ↦ (ok tt, rw (climb, n, found, top) refl)
            | inr (p, up) ↦
                let at_k = live→key k b (B.find_one-meets s (is_live B k) b found) in
                let fresh : any (same_text (printed b.key)) visited ≡ false =
                  rw at_k (not-refused branch k visited n).1 in
                let less : count (is_unvisited (printed k ∷ visited)) (B.rows s)
                    < count (is_unvisited visited) (B.rows s) =
                  count-lt (is_unvisited (printed k ∷ visited)) (is_unvisited visited) (B.rows s) b
                    (unvisited_before visited (printed k))
                    (B.find_one-Occurs s (is_live B k) b found)
                    (rw (← at_k) (no_longer_unvisited visited b)) (ap not fresh) in
                let (o, ended) = climb-ends fuel branch p (printed k ∷ visited) s (omega arith) in
                (o, climb-up fuel branch p visited (printed k) s b n found up ∙ ended)
          ]
        ]
      ]

  -- `k` is reached from a branch by so many steps up at most.
  abbrev pub is_below : ℕ → ℕ → B.State → ℕ → Bool
  is_below zero k s j = j == k
  is_below (suc n) k s j = if j == k then true else elim (B.find_one s (is_live B j)) [
    | none ↦ false
    | some b ↦ elim b.parent_id [ none ↦ false | some p ↦ is_below n k s p ]
  ]

  climb-not-below :
      (n fuel k j : ℕ) (visited : List IdText) (s : B.State) {w : Unit {0}}
      → climb B fuel k visited (printed j) s ≡ some (ok w)
      → is_below n k s j ≡ false
  unfolding climb
  climb-not-below n zero k j visited s h = cc
  climb-not-below zero (suc fuel) k j visited s {w} h =
      elim (Bool-cases (is_refused B k visited (printed j))) [
        | inl t ↦ let refused : some (err bad_request) ≡ some (ok w) = rw (climb, t) at h in cc
        | inr differs ↦ (not-refused k j visited differs).0
      ]
  climb-not-below (suc n) (suc fuel) k j visited s {w} h =
      elim (Bool-cases (is_refused B k visited (printed j))) [
        | inl t ↦ let refused : some (err bad_request) ≡ some (ok w) = rw (climb, t) at h in cc
        | inr differs ↦
            let ne = (not-refused k j visited differs).0 in
            elim (Option-cases (B.find_one s (is_live B j))) [
              | inl gone ↦ rw (ne, gone) refl
              | inr (b, found) ↦ elim (Option-cases b.parent_id) [
                | inl top ↦ rw (ne, found, top) refl
                | inr (p, up) ↦
                    let rest : climb B fuel k (printed j ∷ visited) (printed p) s ≡ some (ok w) =
                      rw (climb, differs, found, up) at h in
                    rw (ne, found, up) (climb-not-below n fuel k p (printed j ∷ visited) s rest)
              ]
            ]
      ]

  -- `ensureNotCyclicParent` ends, however the rows hang together, when it has one round more than
  -- there are rows, and another for a parent whose id is not spelled as the database prints it.
  pub ensure_not_cyclic_parent-ends :
      (fuel k : ℕ) (above : IdText) (s : B.State)
      → length (B.rows s) + 1 < fuel
      → (o : Result (Unit {0})) × (ensure_not_cyclic_parent B fuel k above s ≡ some o)
  unfolding ensure_not_cyclic_parent climb
  ensure_not_cyclic_parent-ends zero k above s lt = elim lt [ ]
  ensure_not_cyclic_parent-ends (suc fuel) k above s lt =
      elim (Bool-cases (same_text (printed k) above)) [
        | inl t ↦ (err bad_request, rw t refl)
        | inr f ↦ elim (Bool-cases (is_refused B k [] above)) [
          | inl t ↦ (err bad_request, rw (f, climb, t) refl)
          | inr n ↦ elim (Option-cases (B.find_one s (is_live B above.value))) [
            | inl gone ↦ (err not_found, rw (f, climb, n, gone) refl)
            | inr (b, found) ↦ elim (Option-cases b.parent_id) [
              | inl top ↦ (ok tt, rw (f, climb, n, found, top) refl)
              | inr (p, up) ↦
                  let enough = count-le-length (is_unvisited (above ∷ [])) (B.rows s) in
                  let (o, ended) = climb-ends fuel k p (above ∷ []) s (omega arith) in
                  (o, rw f (climb-up fuel k p [] above s b n found up ∙ ended))
            ]
          ]
        ]
      ]

  -- What it lets through does not hang below the branch.
  pub ensure_not_cyclic_parent-not-below :
      (n fuel k p : ℕ) (s : B.State) {w : Unit {0}}
      → ensure_not_cyclic_parent B fuel k (printed p) s ≡ some (ok w)
      → is_below n k s p ≡ false
  unfolding ensure_not_cyclic_parent
  ensure_not_cyclic_parent-not-below n fuel k p s {w} h =
      elim (Bool-cases (same_text (printed k) (printed p))) [
        | inl t ↦ let refused : some (err bad_request) ≡ some (ok w) = rw t at h in cc
        | inr f ↦ climb-not-below n fuel k p [] s (rw f at h)
      ]
