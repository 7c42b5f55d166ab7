-- ===== src/Branch/Levels.antt =====
-- The inner loop of rebalanceDescendantLevels: which rows it changes, and how.
use elchi_backend.Prelude.{
  test→eq, eq→test, ℕ, ◌≡◌, refl, sym, ap, ◌∙◌, ◌⊎◌, inl, inr, List, [], ◌∷◌, ◌==◌, if◌then◌else◌,
  All, Bool-cases, Occurs, Occurs-map_if, map_if-Occurs, map_if-Occurs_image,
}
use elchi_backend.Store.{Table}
use elchi_backend.Branch.{Branch, save_level, level_children}
use elchi_backend.Branch.Forest.{HasKeys, update-HasKeys}

module _ (B : Table Branch Branch.key) where
  -- A row that one of the listed branches names.
  abbrev pub Named : List Branch → Branch → Type 0
  Named cs r = (c : Branch) × Occurs c cs × (c.key ≡ r.key)

  save_level-row :
      (k e : ℕ) (s : B.State) (r : Branch)
      → Occurs r (B.rows (save_level B k e s))
      → (b : Branch) × Occurs b (B.rows s)
        × ((r ≡ b) ⊎ ((r ≡ record b { level = e }) × (b.key ≡ k)))
  save_level-row k e s r o =
      elim (Occurs-map_if (λ b. b.key == k) (λ b. record b { level = e }) (B.rows s) r
        (rw (B.rows-update s (λ b. b.key == k) (λ b. record b { level = e })) at o)) [
          | inl (b, ob, t, eb) ↦ (b, ob, inr (eb, test→eq b.key k t))
          | inr (old, n) ↦ (r, old, inl refl)
        ]

  Occurs-save_level :
      (k e : ℕ) (s : B.State) (b : Branch)
      → Occurs b (B.rows s)
      → Occurs b (B.rows (save_level B k e s))
        ⊎ (Occurs (record b { level = e }) (B.rows (save_level B k e s)) × (b.key ≡ k))
  Occurs-save_level k e s b o =
      rw (B.rows-update s (λ x. x.key == k) (λ x. record x { level = e }))
        (elim (Bool-cases (b.key == k)) [
          | inl t ↦ inr (
            map_if-Occurs_image (λ x. x.key == k) (λ x. record x { level = e }) (B.rows s) b t o,
            test→eq b.key k t,
          )
          | inr n ↦
              inl (map_if-Occurs (λ x. x.key == k) (λ x. record x { level = e }) (B.rows s) b n o)
        ])

  save_level-level :
      (k e : ℕ) (s : B.State) (r : Branch)
      → Occurs r (B.rows (save_level B k e s))
      → r.key ≡ k
      → r.level ≡ e
  save_level-level k e s r o h =
      elim (Occurs-map_if (λ b. b.key == k) (λ b. record b { level = e }) (B.rows s) r
        (rw (B.rows-update s (λ b. b.key == k) (λ b. record b { level = e })) at o)) [
          | inl (b, ob, t, eb) ↦ ap (λ x. x.level) eb
          | inr (old, n) ↦ (cc (n, eq→test r.key k h))
        ]

  -- A step of the inner loop
  abbrev stepped : ℕ → Branch → B.State → B.State
  stepped e c s = if c.level == e then s else save_level B c.key e s

  stepped-row :
      (e : ℕ) (c : Branch) (s : B.State) (r : Branch)
      → Occurs r (B.rows (stepped e c s))
      → (b : Branch) × Occurs b (B.rows s)
        × ((r ≡ b) ⊎ ((r ≡ record b { level = e }) × (b.key ≡ c.key)))
  stepped-row e c s r o = elim (Bool-cases (c.level == e)) [
    | inl t ↦ (r, rw t at o, inl refl)
    | inr n ↦ save_level-row c.key e s r (rw n at o)
  ]

  Occurs-stepped :
      (e : ℕ) (c : Branch) (s : B.State) (b : Branch)
      → Occurs b (B.rows s)
      → Occurs b (B.rows (stepped e c s))
        ⊎ (Occurs (record b { level = e }) (B.rows (stepped e c s)) × (b.key ≡ c.key))
  Occurs-stepped e c s b o = elim (Bool-cases (c.level == e)) [
    | inl t ↦ rw t (inl o)
    | inr n ↦ rw n (Occurs-save_level c.key e s b o)
  ]

  stepped-HasKeys : (e : ℕ) (c : Branch) (s : B.State) → HasKeys B s → HasKeys B (stepped e c s)
  stepped-HasKeys e c s keyed = elim (Bool-cases (c.level == e)) [
    | inl t ↦ rw t keyed
    | inr n ↦ rw n (
        update-HasKeys B s (λ b. b.key == c.key) (λ b. record b { level = e }) c.key (λ b. refl)
          (λ b. refl) keyed)
  ]

  pub level_children-row :
      (e : ℕ) (cs : List Branch) (s : B.State) (r : Branch)
      → Occurs r (B.rows (level_children B e cs s))
      → (b : Branch) × Occurs b (B.rows s) × ((r ≡ b) ⊎ ((r ≡ record b { level = e }) × Named cs b))
  unfolding level_children
  level_children-row e [] s r o = (r, o, inl refl)
  level_children-row e (c ∷ cs) s r o =
      let (m, om, from_m) = level_children-row e cs (stepped e c s) r o in
      let (b, ob, from_b) = stepped-row e c s m om in (b, ob, both b m from_m from_b)
    where
      both :
          (b m : Branch)
          → (r ≡ m) ⊎ ((r ≡ record m { level = e }) × Named cs m)
          → (m ≡ b) ⊎ ((m ≡ record b { level = e }) × (b.key ≡ c.key))
          → (r ≡ b) ⊎ ((r ≡ record b { level = e }) × Named (c ∷ cs) b)
      both b m (inl er) (inl em) = inl (er ∙ em)
      both b m (inl er) (inr (em, k)) = inr (er ∙ em, (c, inl refl, sym k))
      both b m (inr (er, (d, od, kd))) (inl em) = inr (
        er ∙ ap (λ (x : Branch). record x { level = e }) em,
        (d, inr od, kd ∙ ap (λ x. x.key) em),
      )
      both b m (inr (er, _)) (inr (em, k)) =
          inr (er ∙ ap (λ (x : Branch). record x { level = e }) em, (c, inl refl, sym k))

  pub Occurs-level_children :
      (e : ℕ) (cs : List Branch) (s : B.State) (b : Branch)
      → Occurs b (B.rows s)
      → Occurs b (B.rows (level_children B e cs s))
        ⊎ (Occurs (record b { level = e }) (B.rows (level_children B e cs s)) × Named cs b)
  unfolding level_children
  Occurs-level_children e [] s b o = inl o
  Occurs-level_children e (c ∷ cs) s b o = elim (Occurs-stepped e c s b o) [
    | inl o' ↦ elim (Occurs-level_children e cs (stepped e c s) b o') [
      | inl o'' ↦ inl o''
      | inr (o'', (d, od, kd)) ↦ inr (o'', (d, inr od, kd))
    ]
    | inr (o', k) ↦ elim (Occurs-level_children e cs (stepped e c s) (record b { level = e }) o') [
      | inl o'' ↦ inr (o'', (c, inl refl, sym k))
      | inr (o'', _) ↦ inr (o'', (c, inl refl, sym k))
    ]
  ]

  pub level_children-HasKeys :
      (e : ℕ) (cs : List Branch) (s : B.State) → HasKeys B s → HasKeys B (level_children B e cs s)
  unfolding level_children
  level_children-HasKeys e [] s keyed = keyed
  level_children-HasKeys e (c ∷ cs) s keyed =
      level_children-HasKeys e cs (stepped e c s) (stepped-HasKeys e c s keyed)

  -- A child that was loaded with the expected level has it in its row.
  abbrev pub Loaded : ℕ → List Branch → B.State → Type 0
  Loaded e cs s =
      All (λ c. c.level ≡ e → (r : Branch) → Occurs r (B.rows s) → r.key ≡ c.key → r.level ≡ e) cs

  Loaded-stepped :
      (e : ℕ) (c : Branch) (cs : List Branch) (s : B.State)
      → Loaded e cs s
      → Loaded e cs (stepped e c s)
  Loaded-stepped e c [] s h = tt
  Loaded-stepped e c (d ∷ cs) s h = (
    λ l r o k.
        let (b, ob, from) = stepped-row e c s r o in
        elim from [
          | inl er ↦ ap (λ x. x.level) er ∙ h.0 l b ob (ap (λ x. x.key) (sym er) ∙ k)
          | inr (er, _) ↦ ap (λ x. x.level) er
        ],
    Loaded-stepped e c cs s h.1,
  )

  -- What one step has set, the later ones keep.
  level_children-keeps :
      (e k : ℕ) (cs : List Branch) (s : B.State)
      → ((r : Branch) → Occurs r (B.rows s) → r.key ≡ k → r.level ≡ e)
      → (r : Branch) → Occurs r (B.rows (level_children B e cs s))
      → r.key ≡ k
      → r.level ≡ e
  level_children-keeps e k cs s h r o rk =
      let (b, ob, from) = level_children-row e cs s r o in
      elim from [
        | inl er ↦ ap (λ x. x.level) er ∙ h b ob (ap (λ x. x.key) (sym er) ∙ rk)
        | inr (er, _) ↦ ap (λ x. x.level) er
      ]

  pub level_children-level :
      (e : ℕ) (cs : List Branch) (s : B.State) (c : Branch)
      → Loaded e cs s
      → Occurs c cs
      → (r : Branch) → Occurs r (B.rows (level_children B e cs s))
      → r.key ≡ c.key
      → r.level ≡ e
  unfolding level_children
  level_children-level e [] s c h oc r o k = elim oc [ ]
  level_children-level e (d ∷ cs) s c h (inl ec) r o k =
      level_children-keeps e d.key cs (stepped e d s) first r o (k ∙ ap (λ x. x.key) ec)
    where
      first : (x : Branch) → Occurs x (B.rows (stepped e d s)) → x.key ≡ d.key → x.level ≡ e
      first x ox kx = elim (Bool-cases (d.level == e)) [
        | inl t ↦ h.0 (test→eq d.level e t) x (rw t at ox) kx
        | inr n ↦ save_level-level d.key e s x (rw n at ox) kx
      ]
  level_children-level e (d ∷ cs) s c h (inr oc) r o k =
      level_children-level e cs (stepped e d s) c (Loaded-stepped e d cs s h.1) oc r o k
