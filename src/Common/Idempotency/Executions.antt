-- ===== src/Common/Idempotency/Executions.antt =====
-- A handler that has completed is not run again.
use elchi_backend.Prelude.{
  ℕ, ◌-◌, ◌≡◌, refl, sym, ap, ◌∙◌, inl, inr, Bool, true, false, not, ◌&&◌, none, some, List, [],
  ◌∷◌, ◌==◌, ltb, Bool-cases, Option-cases, Occurs, Occurs-append, Occurs-append_left,
  Occurs-map_if, map_if-Occurs, map_if-Occurs_image, not-any-Occurs, All, Text, text_eq,
  text_eq_refl, arith,
}
use elchi_backend.Store.{Table, find_one-some}
use elchi_backend.Common.Idempotency.{
  KeyStatus, in_progress, completed, failed, is_in_progress, IdempotencyKey, AcquireResult,
  acquired, cached_response, busy, cached_error, default_lease_ms, replied, Work, returns, new_key,
  reclaim, of_existing, try_acquire, mark_completed, mark_failed, execute_acquired,
  execute_idempotent, Call, acquire, complete, fail, run_call, run_calls,
}
use elchi_backend.Common.Idempotency.Leases.{IsHeld, IsUniqueName, acquired-IsHeld}

text_eq→eq : (s t : Text) → text_eq s t ≡ true → s ≡ t
text_eq→eq [] [] h = refl
text_eq→eq [] (b ∷ t) h = cc
text_eq→eq (a ∷ s) [] h = cc
text_eq→eq (a ∷ s) (b ∷ t) h =
    let (ha, hs) = both (a == b) (text_eq s t) h in rw (code_eq a b ha, text_eq→eq s t hs) refl
  where
    both : (x y : Bool) → x && y ≡ true → (x ≡ true) × (y ≡ true)
    both x y h = ground arith

    code_eq : (x y : ℕ) → (x == y) ≡ true → x ≡ y
    code_eq x y h = ground arith

module _ {A F : Type 0} (K : Table (IdempotencyKey A F) IdempotencyKey.key) where
  -- The calls that settle another key than this, or none.
  abbrev pub spares : Text → Call A F → Bool
  spares name (acquire other pattern lease now) = true
  spares name (complete other a now) = not (text_eq other name)
  spares name (fail other f now) = not (text_eq other name)

  -- A key is completed with a response.
  abbrev pub IsCompleted : Text → A → K.State → Type 0
  IsCompleted name a s =
      ((e : IdempotencyKey A F) × Occurs e (K.rows s) × (text_eq e.name name ≡ true))
      × ((e : IdempotencyKey A F)
          → Occurs e (K.rows s)
          → text_eq e.name name ≡ true
          → (e.status ≡ completed) × (e.response ≡ some a))

  mark_completed-IsCompleted :
      (name : Text) (a : A) (t now : ℕ) (s : K.State)
      → IsHeld K name t s
      → IsCompleted name a (mark_completed K name a now s)
  unfolding mark_completed
  mark_completed-IsCompleted name a t now s ((e, oe, me), held) =
      let q : IdempotencyKey A F → Bool = λ x. text_eq x.name name in
      let f : IdempotencyKey A F → IdempotencyKey A F =
        λ x. record x { status = completed; response = some a; completed_at = some now } in
      (
        (f e, rw (K.rows-update s q f) (map_if-Occurs_image q f (K.rows s) e me oe), me),
        λ x ox mx. elim (Occurs-map_if q f (K.rows s) x (rw (K.rows-update s q f) at ox)) [
          | inl (y, _, _, g) ↦ rw g (refl, refl)
          | inr (old, n) ↦ (cc (mx, n))
        ],
      )

  -- An update of other rows that keeps all names keeps a completed key.
  update-IsCompleted :
      (name : Text) (a : A) (s : K.State) (q : IdempotencyKey A F → Bool)
      (f : IdempotencyKey A F → IdempotencyKey A F)
      → ((e : IdempotencyKey A F) → (f e).name ≡ e.name)
      → ((e : IdempotencyKey A F) → text_eq e.name name ≡ true → e.status ≡ completed → q e ≡ false)
      → IsCompleted name a s
      → IsCompleted name a (K.update s q f)
  update-IsCompleted name a s q f kept off ((e, oe, me), done) = (
    (
      e,
      rw (K.rows-update s q f) (map_if-Occurs q f (K.rows s) e (off e me (done e oe me).0) oe),
      me,
    ),
    λ x ox mx. elim (Occurs-map_if q f (K.rows s) x (rw (K.rows-update s q f) at ox)) [
      | inl (y, oy, py, g) ↦
          let my : text_eq y.name name ≡ true =
            ap (λ z. text_eq z name) (sym (kept y) ∙ ap (λ z. z.name) (sym g)) ∙ mx in
          (cc (py, off y my (done y oy my).0))
      | inr (old, n) ↦ done x old mx
    ],
  )

  insert-IsCompleted :
      (name : Text) (a : A) (s : K.State) (e : IdempotencyKey A F)
      → text_eq e.name name ≡ false
      → IsCompleted name a s
      → IsCompleted name a (K.insert s e)
  insert-IsCompleted name a s e other ((x, ox, mx), done) = (
    (x, rw (K.rows-insert s e) (Occurs-append_left (K.rows s) (e ∷ []) x ox), mx),
    λ y oy my. elim (Occurs-append (K.rows s) (e ∷ []) y (rw (K.rows-insert s e) at oy)) [
      | inl old ↦ done y old my
      | inr (inl g) ↦ (cc (ap (λ z. text_eq z.name name) g, other, my))
      | inr (inr left) ↦ elim left [ ]
    ],
  )

  try_acquire-IsCompleted :
      (name other pattern : Text) (a : A) (lease now : ℕ) (s : K.State)
      → IsCompleted name a s
      → IsCompleted name a ((try_acquire K other pattern lease now s).1)
  unfolding try_acquire reclaim
  try_acquire-IsCompleted name other pattern a lease now s h =
      elim (Option-cases (K.find_one s (λ e. text_eq e.name other))) [
        | inl n ↦
            rw (try_acquire, n)
              (insert-IsCompleted name a s (new_key K other pattern now s) (elsewhere n) h)
        | inr (e, found) ↦ rw (try_acquire, found) (existing e e.status)
      ]
    where
      elsewhere : K.find_one s (λ e. text_eq e.name other) ≡ none → text_eq other name ≡ false
      elsewhere n = elim (Bool-cases (text_eq other name)) [
        | inr f ↦ f
        | inl t ↦
            let ((e, oe, me), _) = h in
            let e_is : e.name ≡ other = text_eq→eq e.name name me ∙ sym (text_eq→eq other name t) in
            (cc (
              not-any-Occurs (λ x. text_eq x.name other) (K.rows s) e
                  (K.find_one-none s (λ x. text_eq x.name other) n) oe,
              ap (λ z. text_eq z other) e_is,
              text_eq_refl other,
            ))
      ]

      untouched :
          (b c : Bool) (st : KeyStatus) → st ≡ completed → b && is_in_progress st && c ≡ false
      untouched b c st e = rw e (off b c)
        where
          off : (x y : Bool) → x && false && y ≡ false
          off x y = ground arith

      existing :
          (e : IdempotencyKey A F) (st : KeyStatus)
          → IsCompleted name a ((of_existing K e st other lease now s).1)
      existing e completed = h
      existing e failed = h
      existing e in_progress = elim (Bool-cases (ltb e.created_at (now - lease))) [
        | inl y ↦ rw y (
            update-IsCompleted name a s
              (λ x.
                text_eq x.name other && is_in_progress x.status && ltb x.created_at (now - lease))
              (λ x. record x { created_at = now }) (λ x. refl)
              (λ x mx c.
                untouched (text_eq x.name other) (ltb x.created_at (now - lease)) x.status c)
              h)
        | inr n ↦ rw n h
      ]

  other_name :
      (name other : Text)
      → not (text_eq other name) ≡ true
      → (e : IdempotencyKey A F) → text_eq e.name name ≡ true
      → text_eq e.name other ≡ false
  other_name name other n e me = elim (Bool-cases (text_eq e.name other)) [
    | inr f ↦ f
    | inl t ↦ (cc (ap (λ z. not (text_eq z name)) (sym (text_eq→eq e.name other t)), me, n))
  ]

  run_calls-IsCompleted :
      (name : Text) (a : A) (calls : List (Call A F)) (s : K.State)
      → All (λ c. spares name c ≡ true) calls
      → IsCompleted name a s
      → IsCompleted name a (run_calls K calls s)
  unfolding run_calls run_call mark_completed mark_failed
  run_calls-IsCompleted name a [] s spared h = h
  run_calls-IsCompleted name a (acquire other pattern lease now ∷ cs) s (x, spared) h =
      run_calls-IsCompleted name a cs ((try_acquire K other pattern lease now s).1) spared
        (try_acquire-IsCompleted name other pattern a lease now s h)
  run_calls-IsCompleted name a (complete other b now ∷ cs) s (x, spared) h =
      run_calls-IsCompleted name a cs (mark_completed K other b now s) spared (
        update-IsCompleted name a s (λ e. text_eq e.name other) _ (λ e. refl)
          (λ e me c. other_name name other x e me) h)
  run_calls-IsCompleted name a (fail other f now ∷ cs) s (x, spared) h =
      run_calls-IsCompleted name a cs (mark_failed K other f now s) spared (
        update-IsCompleted name a s (λ e. text_eq e.name other) _ (λ e. refl)
          (λ e me c. other_name name other x e me) h)

  module _ {W : Type 0} where
    completed-replies :
        (handler : W → Work A F × W) (name pattern : Text) (a : A) (now finished : ℕ) (w : W)
        (s : K.State)
        → IsCompleted name a s
        → execute_idempotent K handler name pattern now finished w s ≡ (replied (some a), (w, s))
    unfolding execute_idempotent try_acquire
    completed-replies handler name pattern a now finished w s ((e, oe, me), done) =
        let q : IdempotencyKey A F → Bool = λ x. text_eq x.name name in
        let (d, found) = find_one-some K s q e oe me in
        let (st, rs) = done d (K.find_one-Occurs s q d found) (K.find_one-meets s q d found) in
        rw (execute_idempotent, try_acquire, found, st, rs) refl

    -- The first run leaves the key completed.
    first-state :
        (handler : W → Work A F × W) (name : Text) (finished : ℕ) (w w1 : W) (a : A)
        (r : AcquireResult A F × K.State)
        → r.0 ≡ acquired
        → handler w ≡ (returns a, w1)
        → (execute_acquired K handler name finished r w).1.1 ≡ mark_completed K name a finished r.1
    first-state handler name finished w w1 a (acquired, s) got work = rw work refl
    first-state handler name finished w w1 a (cached_response b, s) got work = cc
    first-state handler name finished w w1 a (busy, s) got work = cc
    first-state handler name finished w w1 a (cached_error f, s) got work = cc

    -- A handler that has returned is not run again: when a delivery has acquired its key and its
    -- handler has returned, every later delivery with the key replies what that has returned and
    -- changes nothing, whatever calls are made in between that do not settle the same key.
    pub execute_idempotent-once :
        (handler handler' : W → Work A F × W) (name pattern pattern' : Text)
        (now finished now' finished' : ℕ) (w w1 w' : W) (a : A) (s : K.State)
        (calls : List (Call A F))
        → IsUniqueName K name s
        → (try_acquire K name pattern default_lease_ms now s).0 ≡ acquired
        → handler w ≡ (returns a, w1)
        → All (λ c. spares name c ≡ true) calls
        → let s1 = (execute_idempotent K handler name pattern now finished w s).1.1 in
          let s2 = run_calls K calls s1 in
          execute_idempotent K handler' name pattern' now' finished' w' s2
          ≡ (replied (some a), (w', s2))
    unfolding execute_idempotent
    execute_idempotent-once handler handler' name pattern pattern' now finished now' finished' w w1
          w' a s calls unique got work spared =
        completed-replies handler' name pattern' a now' finished' w'
          (run_calls K calls ((execute_idempotent K handler name pattern now finished w s).1.1))
          (run_calls-IsCompleted name a calls
            ((execute_idempotent K handler name pattern now finished w s).1.1) spared
            (rw
              (first-state handler name finished w w1 a
                (try_acquire K name pattern default_lease_ms now s) got work)
              (mark_completed-IsCompleted name a now finished
                ((try_acquire K name pattern default_lease_ms now s).1)
                (acquired-IsHeld K name pattern default_lease_ms now s unique got))))
