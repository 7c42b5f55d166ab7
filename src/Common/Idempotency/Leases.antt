-- ===== src/Common/Idempotency/Leases.antt =====
-- Who may run the handler of a key, however the calls of the workers interleave.
use elchi_backend.Prelude.{
  ℕ, ◌+◌, ◌-◌, ◌≤◌, ◌<◌, ◌≡◌, ◌≢◌, refl, ap, ◌∙◌, inl, inr, Bool, true, false, ◌&&◌, none, some,
  List, [], ◌∷◌, ltb, Bool-cases, Option-cases, Occurs, Occurs-append, Occurs-append_left,
  Occurs-append_last, Occurs-map_if, map_if-Occurs, map_if-Occurs_image, not-any-Occurs, All, Text,
  text_eq, text_eq_refl, arith,
}
use elchi_backend.Store.{Table, find_one-some}
use elchi_backend.Common.Idempotency.{
  KeyStatus, in_progress, completed, failed, is_in_progress, IdempotencyKey, AcquireResult,
  acquired, busy, new_key, reclaim, of_existing, try_acquire, mark_completed, mark_failed, Call,
  acquire, complete, fail, time_of, run_call, run_calls,
}

module _ {A F : Type 0} (K : Table (IdempotencyKey A F) IdempotencyKey.key) where
  abbrev still_busy : AcquireResult A F
  still_busy = busy

  -- A key is held since a time: it has rows, and each that is in progress was reserved then or later.
  abbrev pub IsHeld : Text → ℕ → K.State → Type 0
  IsHeld name t s =
      ((e : IdempotencyKey A F) × Occurs e (K.rows s) × (text_eq e.name name ≡ true))
      × ((e : IdempotencyKey A F)
          → Occurs e (K.rows s)
          → text_eq e.name name ≡ true
          → is_in_progress e.status ≡ true
          → t ≤ e.created_at)

  update-IsHeld :
      (name : Text) (t : ℕ) (s : K.State) (q : IdempotencyKey A F → Bool)
      (f : IdempotencyKey A F → IdempotencyKey A F)
      → ((e : IdempotencyKey A F) → (f e).name ≡ e.name)
      → ((e : IdempotencyKey A F) → is_in_progress (f e).status ≡ true → t ≤ (f e).created_at)
      → IsHeld name t s
      → IsHeld name t (K.update s q f)
  update-IsHeld name t s q f kept late ((e, oe, me), held) = (
    elim (Bool-cases (q e)) [
      | inl y ↦ (
        f e,
        rw (K.rows-update s q f) (map_if-Occurs_image q f (K.rows s) e y oe),
        rw (kept e) me,
      )
      | inr n ↦ (e, rw (K.rows-update s q f) (map_if-Occurs q f (K.rows s) e n oe), me)
    ],
    λ x ox mx px. elim (Occurs-map_if q f (K.rows s) x (rw (K.rows-update s q f) at ox)) [
      | inl (y, _, _, g) ↦ rw g (late y (rw g at px))
      | inr (old, _) ↦ held x old mx px
    ],
  )

  insert-IsHeld :
      (name : Text) (t : ℕ) (s : K.State) (e : IdempotencyKey A F)
      → t ≤ e.created_at
      → IsHeld name t s
      → IsHeld name t (K.insert s e)
  insert-IsHeld name t s e late ((x, ox, mx), held) = (
    (x, rw (K.rows-insert s e) (Occurs-append_left (K.rows s) (e ∷ []) x ox), mx),
    λ y oy my py. elim (Occurs-append (K.rows s) (e ∷ []) y (rw (K.rows-insert s e) at oy)) [
      | inl old ↦ held y old my py
      | inr (inl g) ↦ rw g late
      | inr (inr left) ↦ elim left [ ]
    ],
  )

  try_acquire-IsHeld :
      (name other pattern : Text) (t lease now : ℕ) (s : K.State)
      → t ≤ now
      → IsHeld name t s
      → IsHeld name t ((try_acquire K other pattern lease now s).1)
  unfolding try_acquire reclaim
  try_acquire-IsHeld name other pattern t lease now s le h =
      elim (Option-cases (K.find_one s (λ e. text_eq e.name other))) [
        | inl n ↦ rw (try_acquire, n) (insert-IsHeld name t s (new_key K other pattern now s) le h)
        | inr (e, found) ↦ rw (try_acquire, found) (existing e e.status)
      ]
    where
      existing :
          (e : IdempotencyKey A F) (st : KeyStatus)
          → IsHeld name t ((of_existing K e st other lease now s).1)
      existing e completed = h
      existing e failed = h
      existing e in_progress = elim (Bool-cases (ltb e.created_at (now - lease))) [
        | inl y ↦ rw y (
            update-IsHeld name t s
              (λ x.
                text_eq x.name other && is_in_progress x.status && ltb x.created_at (now - lease))
              (λ x. record x { created_at = now }) (λ x. refl) (λ x p. le) h)
        | inr n ↦ rw n h
      ]

  run_calls-IsHeld :
      (name : Text) (t : ℕ) (calls : List (Call A F)) (s : K.State)
      → All (λ c. t ≤ time_of c) calls
      → IsHeld name t s
      → IsHeld name t (run_calls K calls s)
  unfolding run_calls run_call mark_completed mark_failed
  run_calls-IsHeld name t [] s late h = h
  run_calls-IsHeld name t (acquire other pattern lease now ∷ cs) s (l, late) h =
      run_calls-IsHeld name t cs ((try_acquire K other pattern lease now s).1) late
        (try_acquire-IsHeld name other pattern t lease now s l h)
  run_calls-IsHeld name t (complete other a now ∷ cs) s (l, late) h =
      run_calls-IsHeld name t cs (mark_completed K other a now s) late
        (update-IsHeld name t s (λ e. text_eq e.name other) _ (λ e. refl) (λ e p. cc) h)
  run_calls-IsHeld name t (fail other f now ∷ cs) s (l, late) h =
      run_calls-IsHeld name t cs (mark_failed K other f now s) late
        (update-IsHeld name t s (λ e. text_eq e.name other) _ (λ e. refl) (λ e p. cc) h)

  -- The unique index on the name of a key.
  abbrev pub IsUniqueName : Text → K.State → Type 0
  IsUniqueName name s =
      (x y : IdempotencyKey A F)
      → Occurs x (K.rows s)
      → Occurs y (K.rows s)
      → text_eq x.name name ≡ true
      → text_eq y.name name ≡ true
      → x ≡ y

  -- Whoever acquires a key holds it from then on.
  pub acquired-IsHeld :
      (name pattern : Text) (lease now : ℕ) (s : K.State)
      → IsUniqueName name s
      → (try_acquire K name pattern lease now s).0 ≡ acquired
      → IsHeld name now ((try_acquire K name pattern lease now s).1)
  unfolding try_acquire reclaim
  acquired-IsHeld name pattern lease now s unique got =
      elim (Option-cases (K.find_one s (λ e. text_eq e.name name))) [
        | inl n ↦ rw (try_acquire, n) (inserted n)
        | inr (e, found) ↦
            rw (try_acquire, found)
              (existing e e.status refl (K.find_one-Occurs s (λ x. text_eq x.name name) e found)
                (K.find_one-meets s (λ x. text_eq x.name name) e found)
                (rw (try_acquire, found) at got))
      ]
    where
      inserted :
          K.find_one s (λ e. text_eq e.name name) ≡ none
          → IsHeld name now (K.insert s (new_key K name pattern now s))
      inserted n =
          let e = new_key K name pattern now s in
          (
            (e, rw (K.rows-insert s e) (Occurs-append_last (K.rows s) e), text_eq_refl name),
            λ y oy my py.
                elim (Occurs-append (K.rows s) (e ∷ []) y (rw (K.rows-insert s e) at oy)) [
                  | inl old ↦
                      (cc (
                        not-any-Occurs (λ x. text_eq x.name name) (K.rows s) y
                            (K.find_one-none s (λ x. text_eq x.name name) n) old,
                        my,
                      ))
                  | inr (inl g) ↦ rw g (omega arith)
                  | inr (inr left) ↦ elim left [ ]
                ],
          )

      reclaimed :
          (e : IdempotencyKey A F)
          → Occurs e (K.rows s)
          → text_eq e.name name ≡ true
          → text_eq e.name name && is_in_progress e.status && ltb e.created_at (now - lease) ≡ true
          → IsHeld name now (reclaim K name (now - lease) now s)
      reclaimed e oe me y =
          let q : IdempotencyKey A F → Bool =
            λ x. text_eq x.name name && is_in_progress x.status && ltb x.created_at (now - lease) in
          let f : IdempotencyKey A F → IdempotencyKey A F = λ x. record x { created_at = now } in
          (
            (f e, rw (K.rows-update s q f) (map_if-Occurs_image q f (K.rows s) e y oe), me),
            λ x ox mx px. elim (Occurs-map_if q f (K.rows s) x (rw (K.rows-update s q f) at ox)) [
              | inl (z, _, _, g) ↦ rw g (omega arith)
              | inr (old, n) ↦ (cc (ap q (unique x e old oe mx me), y, n))
            ],
          )

      existing :
          (e : IdempotencyKey A F) (st : KeyStatus)
          → e.status ≡ st
          → Occurs e (K.rows s)
          → text_eq e.name name ≡ true
          → (of_existing K e st name lease now s).0 ≡ acquired
          → IsHeld name now ((of_existing K e st name lease now s).1)
      existing e completed se oe me g = cc
      existing e failed se oe me g = cc
      existing e in_progress se oe me g = elim (Bool-cases (ltb e.created_at (now - lease))) [
        | inr n ↦ let no_lease : still_busy ≡ acquired = rw n at g in cc
        | inl y ↦ rw y (reclaimed e oe me (rw (me, se, y) refl))
      ]

  -- Within the lease of a held key nobody acquires it.
  held-busy :
      (name pattern : Text) (t lease now : ℕ) (s : K.State)
      → now ≤ t + lease
      → IsHeld name t s
      → (try_acquire K name pattern lease now s).0 ≢ acquired
  unfolding try_acquire
  held-busy name pattern t lease now s soon ((e, oe, me), held) got =
      let (d, found) = find_one-some K s (λ x. text_eq x.name name) e oe me in
      existing d d.status refl
        (held d (K.find_one-Occurs s (λ x. text_eq x.name name) d found)
          (K.find_one-meets s (λ x. text_eq x.name name) d found))
        (rw (try_acquire, found) at got)
    where
      not_expired : (t c lease now : ℕ) → now ≤ t + lease → t ≤ c → ltb c (now - lease) ≡ false
      not_expired t c lease now a b = ground arith

      existing :
          (e : IdempotencyKey A F) (st : KeyStatus)
          → e.status ≡ st
          → (is_in_progress e.status ≡ true → t ≤ e.created_at)
          → (of_existing K e st name lease now s).0 ≢ acquired
      existing e completed se h g = cc
      existing e failed se h g = cc
      existing e in_progress se h g =
          let fresh : ltb e.created_at (now - lease) ≡ false =
            not_expired t e.created_at lease now soon (h (ap is_in_progress se)) in
          let no_lease : still_busy ≡ acquired = rw fresh at g in cc

  -- From the time at which a worker acquires a key, no call acquires the key again as long as its own
  -- lease, counted from that time, has not run out, whatever calls the workers make in between, for
  -- this key or another, at that time or later. The lease that counts is that of the later call: one
  -- with a shorter lease than the worker's may take the key over while the worker still runs.
  pub try_acquire-exclusive :
      (name pattern pattern' : Text) (lease lease' now later : ℕ) (s : K.State)
      (calls : List (Call A F))
      → IsUniqueName name s
      → (try_acquire K name pattern lease now s).0 ≡ acquired
      → All (λ c. now ≤ time_of c) calls
      → later ≤ now + lease'
      → (try_acquire K name pattern' lease' later
          (run_calls K calls ((try_acquire K name pattern lease now s).1))).0
        ≢ acquired
  try_acquire-exclusive name pattern pattern' lease lease' now later s calls unique got after soon =
      held-busy name pattern' now lease' later
        (run_calls K calls ((try_acquire K name pattern lease now s).1)) soon
        (run_calls-IsHeld name now calls ((try_acquire K name pattern lease now s).1) after
          (acquired-IsHeld name pattern lease now s unique got))

  expired_test : (c lease now : ℕ) → c + lease < now → ltb c (now - lease) ≡ true
  expired_test c lease now h = ground arith

  -- A call that comes when the lease of a key in progress has expired reserves the key anew.
  expired-reclaims :
      (name pattern : Text) (lease now : ℕ) (s : K.State) (e : IdempotencyKey A F)
      → IsUniqueName name s
      → Occurs e (K.rows s)
      → text_eq e.name name ≡ true
      → e.status ≡ in_progress
      → e.created_at + lease < now
      → try_acquire K name pattern lease now s ≡ (acquired, reclaim K name (now - lease) now s)
  unfolding try_acquire
  expired-reclaims name pattern lease now s e unique oe me running late =
      let q : IdempotencyKey A F → Bool = λ x. text_eq x.name name in
      let (d, found) = find_one-some K s q e oe me in
      let d_is : d ≡ e =
        unique d e (K.find_one-Occurs s q d found) oe (K.find_one-meets s q d found) me in
      let found' : K.find_one s q ≡ some e = found ∙ ap some d_is in
      rw (try_acquire, found', running, expired_test e.created_at lease now late) refl

  reclaim-row :
      (name : Text) (lease now : ℕ) (s : K.State) (e : IdempotencyKey A F)
      → Occurs e (K.rows s)
      → text_eq e.name name ≡ true
      → e.status ≡ in_progress
      → e.created_at + lease < now
      → Occurs (record e { created_at = now }) (K.rows (reclaim K name (now - lease) now s))
  unfolding reclaim
  reclaim-row name lease now s e oe me running late =
      let q : IdempotencyKey A F → Bool =
        λ x. text_eq x.name name && is_in_progress x.status && ltb x.created_at (now - lease) in
      rw (K.rows-update s q (λ x. record x { created_at = now })) (
        map_if-Occurs_image q (λ x. record x { created_at = now }) (K.rows s) e
          (rw (me, running, expired_test e.created_at lease now late) refl) oe)

  -- The key of a worker that is gone is taken over, and by one call only: when the lease of a key in
  -- progress has expired, the next call acquires it, the row of the key stays in progress with the
  -- time of that call as its start, and no later call acquires it within its own lease from that
  -- time, whatever calls the workers make in between, at that time or later.
  pub try_acquire-recovers :
      (name pattern pattern' : Text) (lease lease' now later : ℕ) (s : K.State)
      (e : IdempotencyKey A F) (calls : List (Call A F))
      → IsUniqueName name s
      → Occurs e (K.rows s)
      → text_eq e.name name ≡ true
      → e.status ≡ in_progress
      → e.created_at + lease < now
      → All (λ c. now ≤ time_of c) calls
      → later ≤ now + lease'
      → let after = try_acquire K name pattern lease now s in
        (after.0 ≡ acquired)
        × Occurs (record e { created_at = now }) (K.rows after.1)
        × ((try_acquire K name pattern' lease' later (run_calls K calls after.1)).0 ≢ acquired)
  try_acquire-recovers name pattern pattern' lease lease' now later s e calls unique oe me running
        late after soon =
      let anew = expired-reclaims name pattern lease now s e unique oe me running late in
      let got : (try_acquire K name pattern lease now s).0 ≡ acquired = ap (λ r. r.0) anew in
      (
        got,
        rw anew (reclaim-row name lease now s e oe me running late),
        try_acquire-exclusive name pattern pattern' lease lease' now later s calls unique got after
            soon,
      )
