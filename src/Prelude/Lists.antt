-- ===== src/Prelude/Lists.antt =====
-- Lists under the library's names, over the native numbers, with Boolean filters and the
-- predicate that holds of every element.
use Prim.Native.Nat.{ℕ, zero, suc}
use mathlib.Core.Path.{◌≡◌, refl, sym, ap, ◌∙◌}
use mathlib.Core.Logic.{◌⊎◌, inl, inr}
use mathlib.Core.Bool.{Bool, true, false}
use mathlib.Core.List.{List, [], ◌∷◌, ◌++◌, map}
use elchi_backend.Prelude.Tests.{if◌then◌else◌, Bool-cases}

module _ {ℓ} {A : Type ℓ} where
  abbrev pub length : List A → ℕ
  length [] = 0
  length (x ∷ xs) = suc (length xs)

  abbrev pub filter : (A → Bool) → List A → List A
  filter p [] = []
  filter p (x ∷ xs) = if p x then x ∷ filter p xs else filter p xs

  -- The rows that a test picks are changed, the others stay.
  abbrev pub map_if : (A → Bool) → (A → A) → List A → List A
  map_if p f [] = []
  map_if p f (x ∷ xs) = (if p x then f x else x) ∷ map_if p f xs

  abbrev pub any : (A → Bool) → List A → Bool
  any p [] = false
  any p (x ∷ xs) = if p x then true else any p xs

  abbrev pub drop : ℕ → List A → List A
  drop zero xs = xs
  drop (suc n) [] = []
  drop (suc n) (x ∷ xs) = drop n xs

  abbrev pub take : ℕ → List A → List A
  take zero xs = []
  take (suc n) [] = []
  take (suc n) (x ∷ xs) = x ∷ take n xs

  pub List-cases : (xs : List A) → (xs ≡ []) ⊎ ((x : A) × (ys : List A) × (xs ≡ x ∷ ys))
  List-cases [] = inl refl
  List-cases (x ∷ xs) = inr (x, xs, refl)

module _ {A : Type 0} where
  -- `a` stands in the list.
  abbrev pub Occurs : A → List A → Type 0
  Occurs a [] = ⊥
  Occurs a (x ∷ xs) = (a ≡ x) ⊎ Occurs a xs

  pub Occurs-map_if :
      (p : A → Bool) (f : A → A) (xs : List A) (a : A)
      → Occurs a (map_if p f xs)
      → ((x : A) × Occurs x xs × (p x ≡ true) × (a ≡ f x)) ⊎ (Occurs a xs × (p a ≡ false))
  Occurs-map_if p f [] a h = elim h [ ]
  Occurs-map_if p f (x ∷ xs) a (inr h) = elim (Occurs-map_if p f xs a h) [
    | inl (y, o, t, e) ↦ inl (y, inr o, t, e)
    | inr (o, t) ↦ inr (inr o, t)
  ]
  Occurs-map_if p f (x ∷ xs) a (inl e) = elim (Bool-cases (p x)) [
    | inl t ↦ inl (x, inl refl, t, rw t at e)
    | inr t ↦ let e' : a ≡ x = rw t at e in inr (inl e', rw e' t)
  ]

  pub Occurs-append : (xs ys : List A) (a : A) → Occurs a (xs ++ ys) → Occurs a xs ⊎ Occurs a ys
  Occurs-append [] ys a h = inr h
  Occurs-append (x ∷ xs) ys a (inl e) = inl (inl e)
  Occurs-append (x ∷ xs) ys a (inr h) = elim (Occurs-append xs ys a h) [
    | inl o ↦ inl (inr o)
    | inr o ↦ inr o
  ]

  pub Occurs-append_left : (xs ys : List A) (a : A) → Occurs a xs → Occurs a (xs ++ ys)
  Occurs-append_left [] ys a h = elim h [ ]
  Occurs-append_left (x ∷ xs) ys a (inl e) = inl e
  Occurs-append_left (x ∷ xs) ys a (inr h) = inr (Occurs-append_left xs ys a h)

  pub Occurs-append_right : (xs ys : List A) (a : A) → Occurs a ys → Occurs a (xs ++ ys)
  Occurs-append_right [] ys a o = o
  Occurs-append_right (x ∷ xs) ys a o = inr (Occurs-append_right xs ys a o)

  pub Occurs-append_last : (xs : List A) (a : A) → Occurs a (xs ++ a ∷ [])
  Occurs-append_last [] a = inl refl
  Occurs-append_last (x ∷ xs) a = inr (Occurs-append_last xs a)

  -- A row that an update does not pick stands where it stood.
  pub map_if-Occurs :
      (p : A → Bool) (f : A → A) (xs : List A) (a : A)
      → p a ≡ false
      → Occurs a xs
      → Occurs a (map_if p f xs)
  map_if-Occurs p f [] a n h = elim h [ ]
  map_if-Occurs p f (x ∷ xs) a n (inl e) = inl (rw (← e, n) refl)
  map_if-Occurs p f (x ∷ xs) a n (inr h) = inr (map_if-Occurs p f xs a n h)

  -- A row that it picks is replaced by its image.
  pub map_if-Occurs_image :
      (p : A → Bool) (f : A → A) (xs : List A) (a : A)
      → p a ≡ true
      → Occurs a xs
      → Occurs (f a) (map_if p f xs)
  map_if-Occurs_image p f [] a n h = elim h [ ]
  map_if-Occurs_image p f (x ∷ xs) a n (inl e) = inl (rw (← e, n) refl)
  map_if-Occurs_image p f (x ∷ xs) a n (inr h) = inr (map_if-Occurs_image p f xs a n h)

  -- An update that makes of each row what a function makes of it
  pub map_if-map :
      (p : A → Bool) (f g : A → A) (xs : List A)
      → ((x : A) → Occurs x xs → (if p x then f x else x) ≡ g x)
      → map_if p f xs ≡ map g xs
  map_if-map p f g [] h = refl
  map_if-map p f g (x ∷ xs) h = rw (h x (inl refl), map_if-map p f g xs (λ y o. h y (inr o))) refl

  -- An update after a function
  pub map_if-map_after :
      (p : A → Bool) (f g h : A → A) (xs : List A)
      → ((x : A) → Occurs x xs → (if p (g x) then f (g x) else g x) ≡ h x)
      → map_if p f (map g xs) ≡ map h xs
  map_if-map_after p f g h [] e = refl
  map_if-map_after p f g h (x ∷ xs) e =
      rw (e x (inl refl), map_if-map_after p f g h xs (λ y o. e y (inr o))) refl

  pub not-any-Occurs :
      (p : A → Bool) (xs : List A) (a : A) → any p xs ≡ false → Occurs a xs → p a ≡ false
  not-any-Occurs p [] a h o = elim o [ ]
  not-any-Occurs p (x ∷ xs) a h (inl e) = elim (Bool-cases (p x)) [
    | inl t ↦ (cc (rw t at h))
    | inr t ↦ rw e t
  ]
  not-any-Occurs p (x ∷ xs) a h (inr o) = elim (Bool-cases (p x)) [
    | inl t ↦ (cc (rw t at h))
    | inr t ↦ not-any-Occurs p xs a (rw t at h) o
  ]

module _ {ℓ κ} {A : Type ℓ} where
  abbrev pub All : (A → Type κ) → List A → Type κ
  All P [] = Unit
  All P (x ∷ xs) = P x × All P xs

  pub All-append : (P : A → Type κ) (xs ys : List A) → All P xs → All P ys → All P (xs ++ ys)
  All-append P [] ys hx hy = hy
  All-append P (x ∷ xs) ys hx hy = (hx.0, All-append P xs ys hx.1 hy)

module _ {A : Type 0} where
  pub All-Occurs : (P : A → Type 0) (xs : List A) (a : A) → All P xs → Occurs a xs → P a
  All-Occurs P [] a h o = elim o [ ]
  All-Occurs P (x ∷ xs) a h (inl e) = rw e h.0
  All-Occurs P (x ∷ xs) a h (inr o) = All-Occurs P xs a h.1 o

  pub Occurs-All : (P : A → Type 0) (xs : List A) → ((a : A) → Occurs a xs → P a) → All P xs
  Occurs-All P [] h = tt
  Occurs-All P (x ∷ xs) h = (h x (inl refl), Occurs-All P xs (λ a o. h a (inr o)))

  -- Elements with the same key are the same.
  abbrev pub IsKeyed : (A → ℕ) → List A → Type 0
  IsKeyed key xs = (a b : A) → Occurs a xs → Occurs b xs → key a ≡ key b → a ≡ b

  -- An update that keeps the keys of the rows that it picks
  pub map_if-IsKeyed_picked :
      (key : A → ℕ) (p : A → Bool) (f : A → A) (xs : List A)
      → ((x : A) → Occurs x xs → p x ≡ true → key (f x) ≡ key x)
      → IsKeyed key xs
      → IsKeyed key (map_if p f xs)
  map_if-IsKeyed_picked key p f xs keeps keyed a b oa ob same = elim (Occurs-map_if p f xs a oa) [
    | inl (x, ox, px, ea) ↦ elim (Occurs-map_if p f xs b ob) [
      | inl (y, oy, py, eb) ↦
          ea
          ∙ ap f (
              keyed x y ox oy
                (sym (keeps x ox px) ∙ ap key (sym ea) ∙ same ∙ ap key eb ∙ keeps y oy py))
          ∙ sym eb
      | inr (row, pb) ↦
          (cc (keyed x b ox row (sym (keeps x ox px) ∙ ap key (sym ea) ∙ same), px, pb))
    ]
    | inr (old, pa) ↦ elim (Occurs-map_if p f xs b ob) [
      | inl (y, oy, py, eb) ↦ (cc (keyed a y old oy (same ∙ ap key eb ∙ keeps y oy py), pa, py))
      | inr (row, pb) ↦ keyed a b old row same
    ]
  ]

  pub map_if-IsKeyed :
      (key : A → ℕ) (p : A → Bool) (f : A → A) (xs : List A)
      → ((x : A) → key (f x) ≡ key x)
      → IsKeyed key xs
      → IsKeyed key (map_if p f xs)
  map_if-IsKeyed key p f xs keeps = map_if-IsKeyed_picked key p f xs (λ x o t. keeps x)

  pub append-IsKeyed :
      (key : A → ℕ) (xs : List A) (x : A)
      → ((y : A) → Occurs y xs → key y ≡ key x → ⊥)
      → IsKeyed key xs
      → IsKeyed key (xs ++ x ∷ [])
  append-IsKeyed key xs x fresh keyed a b oa ob same = elim (Occurs-append xs (x ∷ []) a oa) [
    | inl old ↦ elim (Occurs-append xs (x ∷ []) b ob) [
      | inl row ↦ keyed a b old row same
      | inr (inl e) ↦ elim (fresh a old (same ∙ ap key e)) [ ]
      | inr (inr h) ↦ elim h [ ]
    ]
    | inr (inl e) ↦ elim (Occurs-append xs (x ∷ []) b ob) [
      | inl row ↦ elim (fresh b row (sym same ∙ ap key e)) [ ]
      | inr (inl e') ↦ e ∙ sym e'
      | inr (inr h) ↦ elim h [ ]
    ]
    | inr (inr h) ↦ elim h [ ]
  ]

  -- No two elements have the same key.
  abbrev pub IsDistinct : (A → ℕ) → List A → Type 0
  IsDistinct key [] = Unit
  IsDistinct key (x ∷ xs) = All (λ y. key x ≡ key y → ⊥) xs × IsDistinct key xs

  pub IsDistinct-keyed :
      (key : A → ℕ) (xs : List A)
      → IsDistinct key xs
      → (a b : A) → Occurs a xs
      → Occurs b xs
      → key a ≡ key b
      → a ≡ b
  IsDistinct-keyed key [] d a b oa ob e = elim oa [ ]
  IsDistinct-keyed key (x ∷ xs) d a b (inl ea) (inl eb) e = ea ∙ sym eb
  IsDistinct-keyed key (x ∷ xs) d a b (inl ea) (inr ob) e =
      elim (All-Occurs _ xs b d.0 ob (ap key (sym ea) ∙ e)) [ ]
  IsDistinct-keyed key (x ∷ xs) d a b (inr oa) (inl eb) e =
      elim (All-Occurs _ xs a d.0 oa (sym (e ∙ ap key eb))) [ ]
  IsDistinct-keyed key (x ∷ xs) d a b (inr oa) (inr ob) e = IsDistinct-keyed key xs d.1 a b oa ob e
