-- ===== src/Finance/Audit/Transfers.antt =====
-- The parts that the payments share: finding or creating the receiving cashbox, and posting a leg
-- on a cashbox that is still as it was loaded.
use elchi_backend.Prelude.{
  ℕ, ◌≡◌, refl, ap, ◌∙◌, ◌≢◌, ◌⊎◌, inl, inr, Bool, true, [], ◌∷◌, arith, Option-cases, Occurs,
  Occurs-append_last, Occurs-append_left, Occurs-append,
}
use elchi_backend.Prelude.Results.{ok}
use elchi_backend.Enums.{CashboxType, same_type}
use elchi_backend.Store.{Table}
use elchi_backend.Common.Outbox.{OutboxEvent}
use elchi_backend.Finance.Cashbox.{Cashbox, CashboxHistory, belongs_to}
use elchi_backend.Finance.Balance.{Books, Leg, post_leg}
use elchi_backend.Finance.Payments.{Advance, ever_belonged_to, empty_cashbox, find_or_create}
use elchi_backend.Finance.Audit.Invariant.{IsSound}
use elchi_backend.Finance.Audit.Legs.{save_leg-IsSound, save_leg-Occurs, save_leg-Occurs_other}
use elchi_backend.Finance.Audit.Updates.{post_leg-eq-ok}
use elchi_backend.Finance.Audit.Creations.{insert-IsSound}

module _ (C : Table Cashbox Cashbox.key) (H : Table CashboxHistory CashboxHistory.key)
    (O : Table (OutboxEvent Advance) OutboxEvent.key) where
  abbrev created : ℕ → CashboxType → Books C H → Cashbox
  created u t s = empty_cashbox C H O (C.next_key s.cashboxes) u t

  abbrev with_created : ℕ → CashboxType → Books C H → Books C H
  with_created u t s = record s { cashboxes = C.insert s.cashboxes (created u t s) }

  Occurs-created :
      (u : ℕ) (t : CashboxType) (s : Books C H) (d : Cashbox)
      → Occurs d (C.rows (with_created u t s).cashboxes)
      → Occurs d (C.rows s.cashboxes) ⊎ (d ≡ created u t s)
  Occurs-created u t s d o =
      elim (Occurs-append (C.rows s.cashboxes) (created u t s ∷ []) d
        (rw (C.rows-insert s.cashboxes (created u t s)) at o)) [
          | inl old ↦ inl old
          | inr (inl e) ↦ inr e
          | inr (inr z) ↦ absurd z
        ]

  created-Occurs :
      (u : ℕ) (t : CashboxType) (s : Books C H)
      → Occurs (created u t s) (C.rows (with_created u t s).cashboxes)
  created-Occurs u t s = rw (C.rows-insert s.cashboxes (created u t s)) (Occurs-append_last _ _)

  created-Occurs_old :
      (u : ℕ) (t : CashboxType) (s : Books C H) (d : Cashbox)
      → Occurs d (C.rows s.cashboxes)
      → Occurs d (C.rows (with_created u t s).cashboxes)
  created-Occurs_old u t s d o =
      rw (C.rows-insert s.cashboxes (created u t s)) (Occurs-append_left _ _ d o)

  created-IsSound :
      (u : ℕ) (t : CashboxType) (s : Books C H) → IsSound C H s → IsSound C H (with_created u t s)
  created-IsSound u t s sound = insert-IsSound C H (created u t s) s refl refl refl refl sound

  -- Finding or creating a cashbox keeps the invariants, and every row that was there.
  pub find_or_create-IsSound :
      (q : Cashbox → Bool) (u : ℕ) (t : CashboxType) (s : Books C H)
      → IsSound C H s
      → let (c, s') = find_or_create C H O q u t s in
        IsSound C H s'
        × Occurs c (C.rows s'.cashboxes)
        × ((d : Cashbox) → Occurs d (C.rows s.cashboxes) → Occurs d (C.rows s'.cashboxes))
  unfolding find_or_create
  find_or_create-IsSound q u t s sound = elim (Option-cases (C.find_one s.cashboxes q)) [
    | inl gone ↦
        rw (gone, find_or_create)
          (created-IsSound u t s sound, created-Occurs u t s, created-Occurs_old u t s)
    | inr (c, e) ↦ rw (e, find_or_create) (sound, C.find_one-Occurs s.cashboxes q c e, λ d o. o)
  ]

  pub find_or_create-kind :
      (q : Cashbox → Bool) (u : ℕ) (t : CashboxType) (s : Books C H)
      → ((c : Cashbox) → q c ≡ true → c.cashbox_type ≡ t)
      → (find_or_create C H O q u t s).0.cashbox_type ≡ t
  unfolding find_or_create
  find_or_create-kind q u t s h = elim (Option-cases (C.find_one s.cashboxes q)) [
    | inl gone ↦ rw (gone, find_or_create) refl
    | inr (c, e) ↦ rw (e, find_or_create) (h c (C.find_one-meets s.cashboxes q c e))
  ]

  -- A leg on a cashbox as it stands in the table: the invariants hold after it, and the cashbox
  -- that it returns and every other one are as they stand in the table.
  pub post_leg-IsSound :
      (c : Cashbox) (leg : Leg) (override : Bool) (s : Books C H) (p : Cashbox × Books C H)
      → IsSound C H s
      → Occurs c (C.rows s.cashboxes)
      → post_leg C H c leg override s ≡ ok p
      → IsSound C H p.1
        × Occurs p.0 (C.rows p.1.cashboxes)
        × (p.0.key ≡ c.key)
        × (p.0.cashbox_type ≡ c.cashbox_type)
        × ((d : Cashbox)
            → Occurs d (C.rows s.cashboxes)
            → d.key ≢ c.key
            → Occurs d (C.rows p.1.cashboxes))
  post_leg-IsSound c leg override s p sound o h =
      let (m, saved) = post_leg-eq-ok C H c leg override s p.0 p.1 h in
      (
        rw saved (save_leg-IsSound C H s c p.0 leg sound o m),
        rw saved (save_leg-Occurs C H s c p.0 leg m.same_key o),
        m.same_key,
        m.same_kind,
        λ d od n. rw saved (save_leg-Occurs_other C H s d p.0 leg (λ e. n (e ∙ m.same_key)) od),
      )

-- A condition on the type of a cashbox, read off the `where` clauses.
pub same_type→eq : (a b : CashboxType) → same_type a b ≡ true → a ≡ b
same_type→eq a b h = ground arith

pub belongs_to-kind :
    (u : ℕ) (t : CashboxType) (c : Cashbox) → belongs_to u t c ≡ true → c.cashbox_type ≡ t
belongs_to-kind u t c h = same_type→eq c.cashbox_type t (ground arith)

pub ever_belonged_to-kind :
    (u : ℕ) (t : CashboxType) (c : Cashbox) → ever_belonged_to u t c ≡ true → c.cashbox_type ≡ t
ever_belonged_to-kind u t c h = same_type→eq c.cashbox_type t (ground arith)

-- Two cashboxes of one table whose types differ are not one row.
pub keys-ne :
    (C : Table Cashbox Cashbox.key) (H : Table CashboxHistory CashboxHistory.key) (s : Books C H)
    (a b : Cashbox)
    → IsSound C H s
    → Occurs a (C.rows s.cashboxes)
    → Occurs b (C.rows s.cashboxes)
    → a.cashbox_type ≢ b.cashbox_type
    → a.key ≢ b.key
keys-ne C H s a b sound oa ob n e = n (ap (λ c. c.cashbox_type) (sound.keyed a b oa ob e))
