-- ===== src/Common/Outbox/Polls.antt =====
-- What a poll of the outbox does to its events, and what it leaves alone.
use elchi_backend.Prelude.{
  ℕ, zero, suc, ◌+◌, ◌<◌, ◌≡◌, refl, inl, inr, true, false, ◌&&◌, List, [], ◌∷◌, arith, ◌==◌, leb,
  Bool-cases, Option-cases, Text, Occurs, Occurs-map_if, map_if-Occurs, take,
}
use elchi_backend.Store.{Table}
use elchi_backend.Common.Outbox.{
  is_pending, OutboxEvent, Delivery, no_client, delivered, send_failed, default_max_attempts,
  mark_failed, mark_published, backoff, settle_delivery, deliver_all, get_due_pending, tick,
}

Occurs-take : {A : Type 0} (n : ℕ) (xs : List A) (a : A) → Occurs a (take n xs) → Occurs a xs
Occurs-take zero xs a h = elim h [ ]
Occurs-take (suc n) [] a h = h
Occurs-take (suc n) (x ∷ xs) a (inl e) = inl e
Occurs-take (suc n) (x ∷ xs) a (inr h) = inr (Occurs-take n xs a h)

module _ {P : Type 0} (O : Table (OutboxEvent P) OutboxEvent.key) where
  -- The primary key of the table.
  abbrev pub IsKeyed : O.State → Type 0
  IsKeyed s =
      (a b : OutboxEvent P) → Occurs a (O.rows s) → Occurs b (O.rows s) → a.key ≡ b.key → a ≡ b

  -- Only events with attempts left are pending.
  abbrev pub IsBounded : O.State → Type 0
  IsBounded s =
      (e : OutboxEvent P)
      → Occurs e (O.rows s)
      → is_pending e.status ≡ true
      → e.attempts < default_max_attempts

  -- An update of the rows with one key that leaves none of them pending with no attempt left.
  IsBounded-update :
      (k : ℕ) (f : OutboxEvent P → OutboxEvent P) (s : O.State)
      → ((e : OutboxEvent P)
          → is_pending (f e).status ≡ true
          → (f e).attempts < default_max_attempts)
      → IsBounded s
      → IsBounded (O.update s (λ e. e.key == k) f)
  IsBounded-update k f s hf b e o p =
      elim (Occurs-map_if (λ x. x.key == k) f (O.rows s) e
        (rw (O.rows-update s (λ x. x.key == k) f) at o)) [
          | inl (x, _, _, i) ↦ rw i (hf x (rw i at p))
          | inr (old, _) ↦ b e old p
        ]

  mark_failed-IsBounded :
      (k : ℕ) (error : Text) (delay now : ℕ) (s : O.State)
      → IsBounded s
      → IsBounded (mark_failed O k error delay default_max_attempts now s)
  unfolding mark_failed
  mark_failed-IsBounded k error delay now s b =
      elim (Option-cases (O.find_one s (λ e. e.key == k))) [
        | inl gone ↦ rw (mark_failed, gone) b
        | inr (x, e) ↦ elim (Bool-cases (leb default_max_attempts (x.attempts + 1))) [
          | inl last ↦ rw (mark_failed, e, last) (IsBounded-update k _ s (λ y p. (cc p)) b)
          | inr more ↦
              let left : x.attempts + 1 < default_max_attempts = ground arith in
              rw (mark_failed, e, more) (IsBounded-update k _ s (λ y p. left) b)
        ]
      ]

  settle_delivery-IsBounded :
      (e : OutboxEvent P) (d : Delivery) (now : ℕ) (error : Text) (s : O.State)
      → IsBounded s
      → IsBounded (settle_delivery O e d now error s)
  unfolding settle_delivery mark_published
  settle_delivery-IsBounded e no_client now error s b =
      mark_failed-IsBounded e.key error 60000 now s b
  settle_delivery-IsBounded e delivered now error s b = IsBounded-update e.key _ s (λ y p. (cc p)) b
  settle_delivery-IsBounded e (send_failed m) now error s b =
      mark_failed-IsBounded e.key m (backoff e.attempts) now s b

  deliver_all-IsBounded :
      (send : OutboxEvent P → Delivery) (now : ℕ) (error : Text) (es : List (OutboxEvent P))
      (s : O.State)
      → IsBounded s
      → IsBounded (deliver_all O send now error es s)
  unfolding deliver_all
  deliver_all-IsBounded send now error [] s b = b
  deliver_all-IsBounded send now error (e ∷ es) s b =
      deliver_all-IsBounded send now error es (settle_delivery O e (send e) now error s)
        (settle_delivery-IsBounded e (send e) now error s b)

  -- An event is retried until it is delivered or ten attempts have failed: a poll leaves no event
  -- pending that has used its attempts up, whatever its sends come to, if there was none before it.
  pub tick-IsBounded :
      (send : OutboxEvent P → Delivery) (batch_size now : ℕ) (error : Text) (s : O.State)
      → IsBounded s
      → IsBounded (tick O send batch_size now error s)
  unfolding tick
  tick-IsBounded send batch_size now error s b =
      deliver_all-IsBounded send now error (get_due_pending O batch_size now s) s b

  -- An update by the key of another event leaves an event where it is.
  Occurs-update :
      (k : ℕ) (f : OutboxEvent P → OutboxEvent P) (s : O.State) (r : OutboxEvent P)
      → (r.key == k) ≡ false
      → Occurs r (O.rows s)
      → Occurs r (O.rows (O.update s (λ e. e.key == k) f))
  Occurs-update k f s r n o =
      rw (O.rows-update s (λ e. e.key == k) f) (map_if-Occurs (λ e. e.key == k) f (O.rows s) r n o)

  mark_failed-Occurs :
      (k : ℕ) (error : Text) (delay most now : ℕ) (s : O.State) (r : OutboxEvent P)
      → (r.key == k) ≡ false
      → Occurs r (O.rows s)
      → Occurs r (O.rows (mark_failed O k error delay most now s))
  unfolding mark_failed
  mark_failed-Occurs k error delay most now s r n o =
      elim (Option-cases (O.find_one s (λ e. e.key == k))) [
        | inl gone ↦ rw (mark_failed, gone) o
        | inr (x, e) ↦ elim (Bool-cases (leb most (x.attempts + 1))) [
          | inl last ↦ rw (mark_failed, e, last) (Occurs-update k _ s r n o)
          | inr more ↦ rw (mark_failed, e, more) (Occurs-update k _ s r n o)
        ]
      ]

  settle_delivery-Occurs :
      (e : OutboxEvent P) (d : Delivery) (now : ℕ) (error : Text) (s : O.State) (r : OutboxEvent P)
      → (r.key == e.key) ≡ false
      → Occurs r (O.rows s)
      → Occurs r (O.rows (settle_delivery O e d now error s))
  unfolding settle_delivery mark_published
  settle_delivery-Occurs e no_client now error s r n o =
      mark_failed-Occurs e.key error 60000 default_max_attempts now s r n o
  settle_delivery-Occurs e delivered now error s r n o = Occurs-update e.key _ s r n o
  settle_delivery-Occurs e (send_failed m) now error s r n o =
      mark_failed-Occurs e.key m (backoff e.attempts) default_max_attempts now s r n o

  deliver_all-Occurs :
      (send : OutboxEvent P → Delivery) (now : ℕ) (error : Text) (es : List (OutboxEvent P))
      (s : O.State) (r : OutboxEvent P)
      → ((e : OutboxEvent P) → Occurs e es → (r.key == e.key) ≡ false)
      → Occurs r (O.rows s)
      → Occurs r (O.rows (deliver_all O send now error es s))
  unfolding deliver_all
  deliver_all-Occurs send now error [] s r n o = o
  deliver_all-Occurs send now error (e ∷ es) s r n o =
      deliver_all-Occurs send now error es (settle_delivery O e (send e) now error s) r
        (λ x ox. n x (inr ox)) (settle_delivery-Occurs e (send e) now error s r (n e (inl refl)) o)

  -- In a table with a primary key, a poll touches due events only: an event that is published, has
  -- failed for good, or is scheduled for later is still there, unchanged, after it.
  pub tick-Occurs :
      (send : OutboxEvent P → Delivery) (batch_size now : ℕ) (error : Text) (s : O.State)
      (r : OutboxEvent P)
      → IsKeyed s
      → Occurs r (O.rows s)
      → is_pending r.status && leb r.scheduled_at now ≡ false
      → Occurs r (O.rows (tick O send batch_size now error s))
  unfolding tick get_due_pending
  tick-Occurs send batch_size now error s r keyed o later =
      deliver_all-Occurs send now error (get_due_pending O batch_size now s) s r
        (λ e due.
          let (oe, te) =
            O.find_by-Occurs s (λ x. is_pending x.status && leb x.scheduled_at now)
              (λ x. x.scheduled_at) e (Occurs-take batch_size _ e due) in
          elim (Bool-cases (r.key == e.key)) [
            | inr f ↦ f
            | inl t ↦
                let same : r ≡ e = keyed r e o oe (ground arith) in
                let now_due : true ≡ false = rw (same, te) at later in cc
          ])
        o
