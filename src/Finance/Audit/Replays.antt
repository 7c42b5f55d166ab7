-- ===== src/Finance/Audit/Replays.antt =====
-- A redelivery of an `updateBalance` that was applied is recognised by its history row, and moves
-- no money.
use elchi_backend.Prelude.{
  ℕ, ◌≡◌, refl, sym, ap, ◌∙◌, inl, inr, Bool, true, false, not, ◌||◌, Option, none, some, [], arith,
  Bool-cases, Occurs, is_some, or_else, is_empty, text_eq_refl, opt_eq, Occurs-append_last,
}
use elchi_backend.Prelude.Int.{ℤ}
use elchi_backend.Prelude.Results.{not_found, ok, >>=-eq-ok, ok-injective, or_throw, or_throw-eq-ok}
use elchi_backend.Enums.{CashboxType}
use elchi_backend.Inputs.{
  IdArg, missing, malformed, id, assert_big_int_id, assert_positive_amount, parse_date,
}
use elchi_backend.Store.{Table, find_one-some}
use elchi_backend.Finance.Cashbox.{
  Cashbox, CashboxHistory, Selector, signed, has_key, belongs_to, get_cashbox_by_selector,
  by_user_and_type,
}
use elchi_backend.Finance.Balance.{
  Books, UpdateBalanceDto, replayed, applied, dto_leg, same_event, history_row, save_leg, is_replay,
  apply_balance, update_balance,
}
use elchi_backend.Finance.Audit.Legs.{Moved, save_leg-Occurs}
use elchi_backend.Finance.Audit.Updates.{post_leg-eq-ok, get_cashbox_by_selector-Occurs}

-- The selector names the cashbox.
abbrev pub selects_by : IdArg → IdArg → Option CashboxType → Cashbox → Bool
selects_by (id k) u t c = has_key k c
selects_by malformed u t c = false
selects_by missing (id u) (some t) c = belongs_to u t c
selects_by missing _ _ c = false

abbrev pub selects : Selector → Cashbox → Bool
selects q c = selects_by q.cashbox_id q.user_id q.cashbox_type c

-- The request carries a source id or a token.
abbrev pub names_event : UpdateBalanceDto → Bool
names_event dto = is_some dto.source_id || not (is_empty (or_else dto.dedup_epoch []))

selects_by-Moved :
    (i u : IdArg) (t : Option CashboxType) (c c' : Cashbox)
    → c'.key ≡ c.key
    → c'.user_id ≡ c.user_id
    → c'.cashbox_type ≡ c.cashbox_type
    → c'.is_deleted ≡ c.is_deleted
    → selects_by i u t c ≡ true
    → selects_by i u t c' ≡ true
selects_by-Moved (id j) u t c c' k e f d h = ground arith
selects_by-Moved malformed u t c c' k e f d h = cc
selects_by-Moved missing (id v) (some t) c c' k e f d h = rw (e, f, d) h
selects_by-Moved missing (id v) none c c' k e f d h = cc
selects_by-Moved missing missing t c c' k e f d h = cc
selects_by-Moved missing malformed t c c' k e f d h = cc

module _ (C : Table Cashbox Cashbox.key) where
  found :
      (s : C.State) (q : Cashbox → Bool) (c : Cashbox)
      → Occurs c (C.rows s)
      → q c ≡ true
      → (d : Cashbox) × (or_throw (C.find_one s q) not_found ≡ ok d) × (q d ≡ true)
  found s q c o t =
      let (d, e) = find_one-some C s q c o t in (d, rw e refl, C.find_one-meets s q d e)

  get-selects :
      (i u : IdArg) (t : Option CashboxType) (s : C.State) (c : Cashbox)
      → get_cashbox_by_selector C (record { cashbox_id = i; user_id = u; cashbox_type = t }) s
        ≡ ok c
      → selects_by i u t c ≡ true
  unfolding get_cashbox_by_selector by_user_and_type assert_big_int_id
  get-selects missing missing none s c h = cc
  get-selects missing missing (some t) s c h = cc
  get-selects missing malformed none s c h = cc
  get-selects missing malformed (some t) s c h = cc
  get-selects missing (id u) none s c h = cc
  get-selects missing (id u) (some t) s c h =
      C.find_one-meets s (belongs_to u t) c (or_throw-eq-ok _ not_found c h)
  get-selects malformed u t s c h = cc
  get-selects (id k) u t s c h = C.find_one-meets s (has_key k) c (or_throw-eq-ok _ not_found c h)

  selects-get :
      (i u : IdArg) (t : Option CashboxType) (s : C.State) (c : Cashbox)
      → Occurs c (C.rows s)
      → selects_by i u t c ≡ true
      → (d : Cashbox) × (get_cashbox_by_selector C
            (record { cashbox_id = i; user_id = u; cashbox_type = t })
            s
          ≡ ok d)
        × (selects_by i u t d ≡ true)
  unfolding get_cashbox_by_selector by_user_and_type assert_big_int_id
  selects-get missing missing t s c o h = cc
  selects-get missing malformed t s c o h = cc
  selects-get missing (id u) none s c o h = cc
  selects-get missing (id u) (some t) s c o h = found s (belongs_to u t) c o h
  selects-get malformed u t s c o h = cc
  selects-get (id k) u t s c o h = found s (has_key k) c o h

applied-injective : {a b : Cashbox} → applied a ≡ applied b → a ≡ b
applied-injective h = cc

opt_eq_refl : (o : Option ℕ) → opt_eq o o ≡ true
opt_eq_refl none = refl
opt_eq_refl (some a) = ground arith

same_event_refl :
    (k n : ℕ) (c' : Cashbox) (dto : UpdateBalanceDto) (amount : ℤ) (date : Option ℕ)
    → n ≡ c'.key
    → same_event n dto.source_type dto.operation_type dto.source_id
        (or_else dto.dedup_epoch [])
        (history_row k c' (dto_leg dto amount date))
      ≡ true
unfolding history_row
same_event_refl k n c' dto amount date e =
    ground (arith, opt_eq_refl dto.source_id, text_eq_refl (or_else dto.dedup_epoch []))

module _ (C : Table Cashbox Cashbox.key) (H : Table CashboxHistory CashboxHistory.key) where
  is_replay-save_leg :
      (c c' : Cashbox) (dto : UpdateBalanceDto) (amount : ℤ) (date : Option ℕ) (s : Books C H)
      → c.key ≡ c'.key
      → names_event dto ≡ true
      → is_replay C H c dto (save_leg C H c' (dto_leg dto amount date) s) ≡ true
  unfolding is_replay save_leg
  is_replay-save_leg c c' dto amount date s k named =
      let row = history_row (H.next_key s.histories) c' (dto_leg dto amount date) in
      let (d, e) =
        find_one-some H (H.insert s.histories row)
          (same_event c.key dto.source_type dto.operation_type dto.source_id
            (or_else dto.dedup_epoch []))
          row (rw (H.rows-insert s.histories row) (Occurs-append_last (H.rows s.histories) row))
          (same_event_refl (H.next_key s.histories) c.key c' dto amount date k) in
      rw (named, e) refl

  apply_balance-replay :
      (c : Cashbox) (amount : ℤ) (dto : UpdateBalanceDto) (s : Books C H)
      → is_replay C H c dto s ≡ true
      → apply_balance C H c amount dto s ≡ ok (replayed, s)
  unfolding apply_balance
  apply_balance-replay c amount dto s e = rw e refl

  is_replay-saved :
      (d c' : Cashbox) (dto : UpdateBalanceDto) (amount : ℤ) (date : Option ℕ) (s s' : Books C H)
      → s' ≡ save_leg C H c' (dto_leg dto amount date) s
      → d.key ≡ c'.key
      → names_event dto ≡ true
      → is_replay C H d dto s' ≡ true
  is_replay-saved d c' dto amount date s s' saved k named =
      rw saved (is_replay-save_leg d c' dto amount date s k named)

  replay_of_found :
      (d : Cashbox) (amount : ℤ) (dto : UpdateBalanceDto) (s : Books C H)
      → assert_positive_amount dto.amount ≡ ok amount
      → get_cashbox_by_selector C dto.selector s.cashboxes ≡ ok d
      → is_replay C H d dto s ≡ true
      → update_balance C H dto s ≡ ok (replayed, s)
  unfolding update_balance
  replay_of_found d amount dto s ea ed again =
      rw (ea, ed) (apply_balance-replay d amount dto s again)

  -- What a request that was applied has done: one leg, on the cashbox that was locked.
  pub apply_balance-eq-applied :
      (c : Cashbox) (amount : ℤ) (dto : UpdateBalanceDto) (s : Books C H) (c' : Cashbox)
      (s' : Books C H)
      → apply_balance C H c amount dto s ≡ ok (applied c', s')
      → (date : Option ℕ) × Moved c (signed dto.operation_type amount) c'
        × (s' ≡ save_leg C H c' (dto_leg dto amount date) s)
  unfolding apply_balance
  apply_balance-eq-applied c amount dto s c' s' h = elim (Bool-cases (is_replay C H c dto s)) [
    | inl again ↦ (none, (cc (rw again at h)), (cc (rw again at h)))
    | inr first ↦
        let (date, ed, h1) = >>=-eq-ok (parse_date dto.payment_date) _ (rw first at h) in
        let (p, ep, e) = >>=-eq-ok _ _ h1 in
        let (m, saved) = post_leg-eq-ok C H c (dto_leg dto amount date) _ s p.0 p.1 ep in
        let same : p.0 ≡ c' = applied-injective (ap (λ q. q.0) (ok-injective e)) in
        (
          date,
          rw same at m,
          sym (ap (λ q. q.1) (ok-injective e))
              ∙ saved
              ∙ ap (λ k. save_leg C H k (dto_leg dto amount date) s) same,
        )
  ]

  -- A request that carries a source id or a token, and was applied, is recognised when it is
  -- delivered again, and nothing is moved, provided that its selector names one cashbox only.
  pub update_balance-replay :
      (dto : UpdateBalanceDto) (s : Books C H) (c' : Cashbox) (s' : Books C H)
      → names_event dto ≡ true
      → ((x y : Cashbox)
          → Occurs x (C.rows s'.cashboxes)
          → Occurs y (C.rows s'.cashboxes)
          → selects dto.selector x ≡ true
          → selects dto.selector y ≡ true
          → x.key ≡ y.key)
      → update_balance C H dto s ≡ ok (applied c', s')
      → update_balance C H dto s' ≡ ok (replayed, s')
  unfolding update_balance
  update_balance-replay dto s c' s' named unique h =
      let (amount, ea, h1) = >>=-eq-ok (assert_positive_amount dto.amount) _ h in
      let (c, ec, h2) = >>=-eq-ok (get_cashbox_by_selector C dto.selector s.cashboxes) _ h1 in
      let (date, m, saved) = apply_balance-eq-applied c amount dto s c' s' h2 in
      let q = dto.selector in
      let there : Occurs c' (C.rows s'.cashboxes) = rw saved (
        save_leg-Occurs C H s c c' (dto_leg dto amount date) m.same_key
          (get_cashbox_by_selector-Occurs C H q s.cashboxes c ec)) in
      let chosen : selects q c' ≡ true =
        selects_by-Moved q.cashbox_id q.user_id q.cashbox_type c c' m.same_key m.same_user
          m.same_kind m.kept
          (get-selects C q.cashbox_id q.user_id q.cashbox_type s.cashboxes c ec) in
      let (d, ed, chosen_d) =
        selects-get C q.cashbox_id q.user_id q.cashbox_type s'.cashboxes c' there chosen in
      let same : d.key ≡ c'.key =
        unique d c' (get_cashbox_by_selector-Occurs C H q s'.cashboxes d ed) there chosen_d
          chosen in
      replay_of_found d amount dto s' ea ed
        (is_replay-saved d c' dto amount date s s' saved same named)
