-- ===== src/Order/Transfers/Kept.antt =====
-- Changes of the table of batches that leave the closed ones as they are.
use elchi_backend.Prelude.{
  test→eq, ◌≡◌, ◌∙◌, inl, inr, true, false, ◌==◌, Bool-cases, Occurs, IsKeyed, map_if-IsKeyed,
  append-IsKeyed, Occurs-append_left, map_if-Occurs,
}
use elchi_backend.Store.{Table, next_key-ne}
use elchi_backend.Order.Transfers.{Batch, is_open}

module _ (T : Table Batch Batch.key) where
  -- A state whose batches have primary keys, and in which the closed batches of another stand as
  -- they are.
  pub record Keeps (s t : T.State) : Type 0 where
    pub keyed : IsKeyed (λ b. b.key) (T.rows t)
    pub stays : (c : Batch) → Occurs c (T.rows s) → is_open c.status ≡ false → Occurs c (T.rows t)

  module _ (s : T.State) (keyed : IsKeyed (λ b. b.key) (T.rows s)) where
    pub update-Keeps :
        (b : Batch) (f : Batch → Batch)
        → Occurs b (T.rows s)
        → is_open b.status ≡ true
        → ((x : Batch) → (f x).key ≡ x.key)
        → Keeps s (T.update s (λ x. x.key == b.key) f)
    update-Keeps b f here live same = record {
      keyed =
          rw (T.rows-update s (λ x. x.key == b.key) f)
            (map_if-IsKeyed (λ x. x.key) (λ x. x.key == b.key) f (T.rows s) same keyed);
      stays = λ c there closed.
          rw (T.rows-update s (λ x. x.key == b.key) f)
            (map_if-Occurs (λ x. x.key == b.key) f (T.rows s) c (other c there closed) there);
    }
      where
        other :
            (c : Batch) → Occurs c (T.rows s) → is_open c.status ≡ false → (c.key == b.key) ≡ false
        other c there closed = elim (Bool-cases (c.key == b.key)) [
          | inr n ↦ n
          | inl t ↦ (cc (keyed c b there here (test→eq c.key b.key t), live, closed))
        ]

    pub insert-Keeps : (m : Batch) → m.key ≡ T.next_key s → Keeps s (T.insert s m)
    insert-Keeps m fresh = record {
      keyed = rw (T.rows-insert s m) (
          append-IsKeyed (λ x. x.key) (T.rows s) m (λ y o same. next_key-ne T s y o (same ∙ fresh))
            keyed);
      stays = λ c there closed. rw (T.rows-insert s m) (Occurs-append_left (T.rows s) _ c there);
    }

  pub trans-Keeps : {s t u : T.State} → Keeps s t → Keeps t u → Keeps s u
  trans-Keeps first second = record {
    keyed = second.keyed;
    stays = λ c here closed. second.stays c (first.stays c here closed) closed;
  }
