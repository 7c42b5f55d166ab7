-- ===== src/Branch/Forest.antt =====
-- The tree that the branches form: the invariant of the rows, and that it does not depend on levels.
use elchi_backend.Prelude.{
  test→eq, eq→test, ℕ, ◌+◌, ◌≡◌, sym, ap, ◌∙◌, ◌⊎◌, inl, inr, Bool, true, false, none, some, ◌==◌,
  Occurs, Occurs-map_if,
}
use elchi_backend.Store.{Table}
use elchi_backend.Branch.{is_hq, Branch}

module _ (B : Table Branch Branch.key) where
  abbrev pub HasKeys : B.State → Type 0
  HasKeys s = (a b : Branch) → Occurs a (B.rows s) → Occurs b (B.rows s) → a.key ≡ b.key → a ≡ b

  -- A row that is not deleted
  abbrev pub Lives : Branch → B.State → Type 0
  Lives b s = Occurs b (B.rows s) × (b.is_deleted ≡ false)

  -- The shape of the tree: every branch but one hangs below a branch, and that one is the HQ.
  pub record Hangs (s : B.State) : Type 0 where
    pub keyed : HasKeys s
    pub above :
        (c : Branch) (p : ℕ)
        → Lives c s
        → c.parent_id ≡ some p
        → (d : Branch) × Lives d s × (d.key ≡ p)
    pub root : (c : Branch) → Lives c s → c.parent_id ≡ none → is_hq c.type ≡ true
    pub inner : (c : Branch) (p : ℕ) → Lives c s → c.parent_id ≡ some p → is_hq c.type ≡ false
    pub one_hq :
        (a b : Branch)
        → Lives a s
        → Lives b s
        → is_hq a.type ≡ true
        → is_hq b.type ≡ true
        → a.key ≡ b.key

  -- The levels are the depths in the tree: that of the HQ is 0, and a branch is one below its
  -- parent. So no branch is its own ancestor.
  pub record IsTree (s : B.State) : Type 0 where
    pub hangs : Hangs s
    pub rooted : (c : Branch) → Lives c s → c.parent_id ≡ none → c.level ≡ 0
    pub stacked :
        (c d : Branch) → Lives c s → Lives d s → c.parent_id ≡ some d.key → c.level ≡ d.level + 1

  -- The rows of two states differ in their levels only.
  pub record Relevels (s t : B.State) : Type 0 where
    pub back :
        (r : Branch)
        → Occurs r (B.rows t)
        → (b : Branch) × (l : ℕ) × Occurs b (B.rows s) × (r ≡ record b { level = l })
    pub forth :
        (b : Branch) → Occurs b (B.rows s) → (l : ℕ) × Occurs (record b { level = l }) (B.rows t)
    pub keyed : HasKeys t

  pub Relevels-Hangs : (s t : B.State) → Relevels s t → Hangs s → Hangs t
  Relevels-Hangs s t r h = record {
    keyed = r.keyed;
    above = λ c p live e.
        let (b, l, o, eb) = r.back c live.0 in
        let (d, live_d, ed) =
          h.above b p (o, ap (λ x. x.is_deleted) (sym eb) ∙ live.1)
            (ap (λ x. x.parent_id) (sym eb) ∙ e) in
        let (l', o') = r.forth d live_d.0 in (record d { level = l' }, (o', live_d.1), ed);
    root = λ c live e.
        let (b, l, o, eb) = r.back c live.0 in
        ap (λ x. is_hq x.type) eb
        ∙ h.root b (o, ap (λ x. x.is_deleted) (sym eb) ∙ live.1)
            (ap (λ x. x.parent_id) (sym eb) ∙ e);
    inner = λ c p live e.
        let (b, l, o, eb) = r.back c live.0 in
        ap (λ x. is_hq x.type) eb
        ∙ h.inner b p (o, ap (λ x. x.is_deleted) (sym eb) ∙ live.1)
            (ap (λ x. x.parent_id) (sym eb) ∙ e);
    one_hq = λ c d live_c live_d hc hd.
        let (b, l, o, eb) = r.back c live_c.0 in
        let (b', l', o', eb') = r.back d live_d.0 in
        ap (λ x. x.key) eb
        ∙ h.one_hq b b' (o, ap (λ x. x.is_deleted) (sym eb) ∙ live_c.1)
            (o', ap (λ x. x.is_deleted) (sym eb') ∙ live_d.1) (ap (λ x. is_hq x.type) (sym eb) ∙ hc)
            (ap (λ x. is_hq x.type) (sym eb') ∙ hd)
        ∙ ap (λ x. x.key) (sym eb');
  }

  -- An update that keeps keys keeps rows apart.
  pub update-HasKeys :
      (s : B.State) (q : Branch → Bool) (f : Branch → Branch) (k : ℕ)
      → ((b : Branch) → q b ≡ (b.key == k))
      → ((b : Branch) → (f b).key ≡ b.key)
      → HasKeys s
      → HasKeys (B.update s q f)
  update-HasKeys s q f k picks keeps keyed a b oa ob e =
      both (Occurs-map_if q f (B.rows s) a (rw (B.rows-update s q f) at oa))
        (Occurs-map_if q f (B.rows s) b (rw (B.rows-update s q f) at ob))
    where
      Origin : Branch → Type 0
      Origin r =
          ((x : Branch) × Occurs x (B.rows s) × (q x ≡ true) × (r ≡ f x))
          ⊎ (Occurs r (B.rows s) × (q r ≡ false))

      apart : (x r : Branch) → q x ≡ true → q r ≡ false → (f x).key ≡ r.key → a ≡ b
      apart x r t n same =
          let at_k : x.key ≡ k = test→eq x.key k (sym (picks x) ∙ t) in
          (cc (n, picks r ∙ eq→test r.key k (sym same ∙ keeps x ∙ at_k)))

      both : Origin a → Origin b → a ≡ b
      both (inl (x, ox, tx, ea)) (inl (y, oy, ty, eb)) =
          let same : x.key ≡ y.key =
            test→eq x.key k (sym (picks x) ∙ tx) ∙ sym (test→eq y.key k (sym (picks y) ∙ ty)) in
          ea ∙ ap f (keyed x y ox oy same) ∙ sym eb
      both (inl (x, ox, tx, ea)) (inr (o, n)) = apart x b tx n (ap (λ r. r.key) (sym ea) ∙ e)
      both (inr (o, n)) (inl (y, oy, ty, eb)) = apart y a ty n (ap (λ r. r.key) (sym eb) ∙ sym e)
      both (inr (oa', na)) (inr (ob', nb)) = keyed a b oa' ob' e
