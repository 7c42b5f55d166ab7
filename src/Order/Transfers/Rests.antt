-- ===== src/Order/Transfers/Rests.antt =====
-- The orders that receiveBranchTransferBatchOrders finds in a batch, and those that it leaves.
use elchi_backend.Prelude.{
  ◌↔◌, ◌∙◌, sym, ap, eq→test, map_if-Occurs, ℕ, ◌≡◌, refl, inl, inr, Bool, true, false, not, ◌&&◌,
  List, [], ◌∷◌, ◌==◌, any, Bool-cases, Occurs, Occurs-map_if, not-any-Occurs, test→eq, arith,
}
use elchi_backend.Store.{Table}
use elchi_backend.Order.Transfers.{Batch, BatchItem, Parcel, Depot, is_in}
use elchi_backend.Order.Transfers.Sending.{ids_of}
use elchi_backend.Order.Transfers.Partial.{named_items, delete_items, rest_of}

-- The two lists name the same orders.
abbrev pub Agree : List ℕ → List ℕ → Type 0
Agree js ks = (x : ℕ) → is_in js x ≡ is_in ks x

abbrev pub AreApart : List ℕ → List ℕ → Type 0
AreApart ks rest = (x : ℕ) → is_in ks x ≡ true → is_in rest x ≡ false

Occurs-is_in : (ks : List ℕ) (k : ℕ) → Occurs k ks → is_in ks k ≡ true
Occurs-is_in ks k o = elim (Bool-cases (is_in ks k)) [
  | inl t ↦ t
  | inr n ↦ (cc (not-any-Occurs (λ j. k == j) ks k n o, eq→test k k refl))
]

is_in-Occurs : (ks : List ℕ) (k : ℕ) → is_in ks k ≡ true → Occurs k ks
is_in-Occurs [] k h = cc
is_in-Occurs (j ∷ ks) k h = elim (Bool-cases (k == j)) [
  | inl t ↦ inl (test→eq k j t)
  | inr n ↦ inr (is_in-Occurs ks k (rw n at h))
]

lives : (a d : Bool) → a && not d ≡ true → d ≡ false
lives true false h = refl
lives true true h = cc
lives false d h = cc

outside : (a d c : Bool) → a && not d ≡ true → a && (not d && c) ≡ false → c ≡ false
outside true false c h n = n
outside true true c h n = cc
outside false d c h n = cc

module _ (T : Table Batch Batch.key) (I : Table BatchItem BatchItem.key)
    (O : Table Parcel Parcel.key) where
  ids_of-Occurs :
      (is : List BatchItem) (k : ℕ)
      → Occurs k (ids_of T I O is)
      → (i : BatchItem) × Occurs i is × (i.order_id ≡ k)
  ids_of-Occurs [] k h = elim h [ ]
  ids_of-Occurs (i ∷ is) k (inl e) = (i, inl refl, sym e)
  ids_of-Occurs (i ∷ is) k (inr h) = let (j, o, e) = ids_of-Occurs is k h in (j, inr o, e)

  -- The items that are found are for the named orders.
  found-named :
      (k : ℕ) (ks : List ℕ) (s : I.State) (x : ℕ)
      → is_in (ids_of T I O (named_items T I O k ks s)) x ≡ true
      → is_in ks x ≡ true
  found-named k ks s x h =
      let (i, o, e) = ids_of-Occurs _ x (is_in-Occurs _ x h) in
      let (row, t) = I.find_by-Occurs s _ (λ j. 0) i o in
      rw e at (last_of_three (i.batch_id == k) (not i.is_deleted) (is_in ks i.order_id) t)
    where
      last_of_three : (a b c : Bool) → a && (b && c) ≡ true → c ≡ true
      last_of_three true true true h = refl
      last_of_three true true false h = cc
      last_of_three true false c h = cc
      last_of_three false b c h = cc

  pub named-Agree :
      (k : ℕ) (ks : List ℕ) (s : I.State)
      → any (λ j. not (is_in (ids_of T I O (named_items T I O k ks s)) j)) ks ≡ false
      → Agree (ids_of T I O (named_items T I O k ks s)) ks
  named-Agree k ks s none_missing x = elim (Bool-cases (is_in ks x)) [
    | inl t ↦ there (not-any-Occurs _ ks x none_missing (is_in-Occurs ks x t)) ∙ sym t
    | inr n ↦ elim (Bool-cases (is_in (ids_of T I O (named_items T I O k ks s)) x)) [
      | inl t ↦ (cc (found-named k ks s x t, n))
      | inr f ↦ f ∙ sym n
    ]
  ]
    where
      there : {b : Bool} → not b ≡ false → b ≡ true
      there {b = true} h = refl
      there {b = false} h = cc

  abbrev is_gone : Batch → List BatchItem → BatchItem → Bool
  is_gone b selected i =
      (i.batch_id == b.key) && (not i.is_deleted && is_in (ids_of T I O selected) i.order_id)

  abbrev gone_item : BatchItem → BatchItem
  gone_item i = record i { is_deleted = true }

  -- What is left in a batch when the items of some orders are deleted is for other orders.
  pub rest-AreApart :
      (b : Batch) (selected : List BatchItem) (by now : ℕ) (s : Depot T I O)
      → AreApart (ids_of T I O selected) (rest_of T I O b selected by now s)
  rest-AreApart b selected by now s x gone =
      elim (Bool-cases (is_in (rest_of T I O b selected by now s) x)) [
        | inr n ↦ n
        | inl t ↦
            let (i, o, e) = ids_of-Occurs _ x (is_in-Occurs _ x t) in
            let (row, meets) =
              I.find_by-Occurs (delete_items T I O b.key (ids_of T I O selected) s.items) _ (λ j. 0)
                i o in
            elim (Occurs-map_if (is_gone b selected) gone_item (I.rows s.items) i
              (rw (I.rows-update s.items (is_gone b selected) gone_item) at row)) [
                | inl (y, oy, py, ei) ↦
                    (cc (ap (λ z. z.is_deleted) ei, lives (i.batch_id == b.key) i.is_deleted meets))
                | inr (old, np) ↦
                    let out : is_in (ids_of T I O selected) i.order_id ≡ false =
                      outside (i.batch_id == b.key) i.is_deleted
                        (is_in (ids_of T I O selected) i.order_id) meets np in
                    (cc (ap (is_in (ids_of T I O selected)) e, out, gone))
              ]
      ]

  -- An order is left if a live item of the batch is for it, and it is not among the orders named.
  abbrev pub IsLeft : ℕ → List ℕ → I.State → ℕ → Type 0
  IsLeft k ks s x =
      (i : BatchItem) × Occurs i (I.rows s)
      × (i.batch_id ≡ k)
      × (i.is_deleted ≡ false)
      × (i.order_id ≡ x)
      × (is_in ks x ≡ false)

  rest-IsLeft :
      (b : Batch) (selected : List BatchItem) (by now : ℕ) (s : Depot T I O) (x : ℕ)
      → is_in (rest_of T I O b selected by now s) x ≡ true
      → IsLeft b.key (ids_of T I O selected) s.items x
  rest-IsLeft b selected by now s x t =
      let (i, o, e) = ids_of-Occurs _ x (is_in-Occurs _ x t) in
      let (row, meets) =
        I.find_by-Occurs (delete_items T I O b.key (ids_of T I O selected) s.items) _ (λ j. 0) i
          o in
      elim (Occurs-map_if (is_gone b selected) gone_item (I.rows s.items) i
        (rw (I.rows-update s.items (is_gone b selected) gone_item) at row)) [
          | inl (y, oy, py, ei) ↦
              (cc (ap (λ z. z.is_deleted) ei, lives (i.batch_id == b.key) i.is_deleted meets))
          | inr (old, np) ↦ (
            i,
            old,
            test→eq i.batch_id b.key (in_batch (i.batch_id == b.key) i.is_deleted meets),
            lives (i.batch_id == b.key) i.is_deleted meets,
            e,
            ap (is_in (ids_of T I O selected)) (sym e)
                ∙ outside (i.batch_id == b.key) i.is_deleted
                    (is_in (ids_of T I O selected) i.order_id) meets np,
          )
        ]
    where
      in_batch : (a d : Bool) → a && not d ≡ true → a ≡ true
      in_batch a d h = ground arith

  Occurs-ids_of :
      (is : List BatchItem) (i : BatchItem) → Occurs i is → Occurs i.order_id (ids_of T I O is)
  Occurs-ids_of [] i h = elim h [ ]
  Occurs-ids_of (j ∷ is) i (inl e) = inl (ap (λ z. z.order_id) e)
  Occurs-ids_of (j ∷ is) i (inr h) = inr (Occurs-ids_of is i h)

  IsLeft-rest :
      (b : Batch) (selected : List BatchItem) (by now : ℕ) (s : Depot T I O) (x : ℕ)
      → IsLeft b.key (ids_of T I O selected) s.items x
      → is_in (rest_of T I O b selected by now s) x ≡ true
  IsLeft-rest b selected by now s x (i, o, at_b, alive, e, other) =
      let after = delete_items T I O b.key (ids_of T I O selected) s.items in
      let kept : is_gone b selected i ≡ false =
        unpicked (i.batch_id == b.key) (not i.is_deleted) (is_in (ids_of T I O selected) i.order_id)
          (rw e other) in
      let row : Occurs i (I.rows after) =
        rw (I.rows-update s.items (is_gone b selected) gone_item)
          (map_if-Occurs (is_gone b selected) gone_item (I.rows s.items) i kept o) in
      let found =
        I.find_by-all after (λ j. (j.batch_id == b.key) && not j.is_deleted) (λ j. 0) i row
          (rw (eq→test i.batch_id b.key at_b, alive) refl) in
      Occurs-is_in (rest_of T I O b selected by now s) x (rw e at (Occurs-ids_of _ i found))
    where
      unpicked : (a d c : Bool) → c ≡ false → a && (d && c) ≡ false
      unpicked a d c h = ground arith

  -- What is left is what the items of the batch say, of the orders that are not named.
  pub rest_iff :
      (b : Batch) (selected : List BatchItem) (by now : ℕ) (s : Depot T I O) (ks : List ℕ) (x : ℕ)
      → Agree (ids_of T I O selected) ks
      → (is_in (rest_of T I O b selected by now s) x ≡ true) ↔ IsLeft b.key ks s.items x
  rest_iff b selected by now s ks x agree = (
    λ t.
        let (i, o, at_b, alive, e, other) = rest-IsLeft b selected by now s x t in
        (i, o, at_b, alive, e, sym (agree x) ∙ other),
    λ l.
        let (i, o, at_b, alive, e, other) = l in
        IsLeft-rest b selected by now s x (i, o, at_b, alive, e, agree x ∙ other),
  )
