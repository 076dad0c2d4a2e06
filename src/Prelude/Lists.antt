-- ===== src/Prelude/Lists.antt =====
-- Lists measured and indexed by native numbers, under the library's names.
use Prim.Native.Nat.{ℕ, zero, suc, ◌+◌, ◌-◌, ◌<◌, min}
use mathlib.Core.Path.{◌≡◌, refl, sym, ap, ◌∙◌}
use mathlib.Core.Bool.{Bool, true, false}
use mathlib.Core.Logic.{◌≢◌, ◌⊎◌, inl, inr}
use mathlib.Core.List.{List, [], ◌∷◌, ◌++◌, map, append-nil, append_assoc}
use mathlib.Core.Option.{Option, none, some}
use native.Mathlib.Omega.{arith}

module _ {ℓ} {A : Type ℓ} where
  abbrev pub length : List A → ℕ
  length [] = 0
  length (x ∷ xs) = suc (length xs)

  abbrev pub get_elem? : List A → ℕ → Option A
  get_elem? [] i = none
  get_elem? (x ∷ xs) zero = some x
  get_elem? (x ∷ xs) (suc i) = get_elem? xs i

  -- A write out of bounds changes nothing.
  abbrev pub set : List A → ℕ → A → List A
  set [] i v = []
  set (x ∷ xs) zero v = v ∷ xs
  set (x ∷ xs) (suc i) v = x ∷ set xs i v

  pub length-append : (xs ys : List A) → length (xs ++ ys) ≡ length xs + length ys
  length-append [] ys = omega arith
  length-append (x ∷ xs) ys = omega (arith, length-append xs ys)

module _ {ℓ} {A : Type ℓ} where
  pub length-set : (xs : List A) (i : ℕ) (v : A) → length (set xs i v) ≡ length xs
  length-set [] i v = refl
  length-set (x ∷ xs) zero v = refl
  length-set (x ∷ xs) (suc i) v = ap suc (length-set xs i v)

  pub get_elem?-set_self :
      (xs : List A) (i : ℕ) (v : A) → i < length xs → get_elem? (set xs i v) i ≡ some v
  get_elem?-set_self [] i v h = elim h [ ]
  get_elem?-set_self (x ∷ xs) zero v h = refl
  get_elem?-set_self (x ∷ xs) (suc i) v h = get_elem?-set_self xs i v (omega arith)

  pub get_elem?-set_ne :
      (xs : List A) {i j : ℕ} (v : A) → i ≢ j → get_elem? (set xs i v) j ≡ get_elem? xs j
  get_elem?-set_ne [] v h = refl
  get_elem?-set_ne (x ∷ xs) {i = zero} {j = zero} v h = absurd (h refl)
  get_elem?-set_ne (x ∷ xs) {i = zero} {j = suc j} v h = refl
  get_elem?-set_ne (x ∷ xs) {i = suc i} {j = zero} v h = refl
  get_elem?-set_ne (x ∷ xs) {i = suc i} {j = suc j} v h = get_elem?-set_ne xs v (λ e. h (ap suc e))

module _ {ℓ} {A : Type ℓ} where
  abbrev pub get_or : List A → ℕ → A → A
  get_or [] i d = d
  get_or (x ∷ xs) zero d = x
  get_or (x ∷ xs) (suc i) d = get_or xs i d

  abbrev pub take : ℕ → List A → List A
  take zero xs = []
  take (suc n) [] = []
  take (suc n) (x ∷ xs) = x ∷ take n xs

  abbrev pub drop : ℕ → List A → List A
  drop zero xs = xs
  drop (suc n) [] = []
  drop (suc n) (x ∷ xs) = drop n xs

  abbrev pub replicate : ℕ → A → List A
  replicate zero a = []
  replicate (suc n) a = a ∷ replicate n a

  pub take-append-drop : (n : ℕ) (xs : List A) → take n xs ++ drop n xs ≡ xs
  take-append-drop zero xs = refl
  take-append-drop (suc n) [] = refl
  take-append-drop (suc n) (x ∷ xs) = rw (take-append-drop n xs)

  pub length-take : (n : ℕ) (xs : List A) → length (take n xs) ≡ min n (length xs)
  length-take zero xs = omega arith
  length-take (suc n) [] = omega arith
  length-take (suc n) (x ∷ xs) = omega (arith, length-take n xs)

  pub length-drop : (n : ℕ) (xs : List A) → length (drop n xs) ≡ length xs - n
  length-drop zero xs = omega arith
  length-drop (suc n) [] = omega arith
  length-drop (suc n) (x ∷ xs) = omega (arith, length-drop n xs)

  pub length-replicate : (n : ℕ) (a : A) → length (replicate n a) ≡ n
  length-replicate zero a = refl
  length-replicate (suc n) a = ap suc (length-replicate n a)

  pub length-map {κ} : {B : Type κ} (xs : List A) (f : A → B) → length (map f xs) ≡ length xs
  length-map [] f = refl
  length-map (x ∷ xs) f = ap suc (length-map xs f)

-- Some element has the property.
abbrev pub AnyIn {ℓ} : {A : Type ℓ} → (A → Type 0) → List A → Type 0
AnyIn P [] = ⊥
AnyIn P (x ∷ xs) = P x ⊎ AnyIn P xs

module _ {ℓ} {A : Type ℓ} (P : A → Type 0) where
  pub AnyIn-append_left : (xs ys : List A) → AnyIn P xs → AnyIn P (xs ++ ys)
  AnyIn-append_left [] ys h = absurd h
  AnyIn-append_left (x ∷ xs) ys (inl h) = inl h
  AnyIn-append_left (x ∷ xs) ys (inr h) = inr (AnyIn-append_left xs ys h)

  pub AnyIn-append : (xs ys : List A) → AnyIn P (xs ++ ys) → AnyIn P xs ⊎ AnyIn P ys
  AnyIn-append [] ys h = inr h
  AnyIn-append (x ∷ xs) ys (inl h) = inl (inl h)
  AnyIn-append (x ∷ xs) ys (inr h) = elim (AnyIn-append xs ys h) [
    | inl k ↦ inl (inr k)
    | inr k ↦ inr k
  ]

-- A record `after` of what was done, from `before`: the first of `xs` are added, in their order, and
-- all of them unless the run was ended.
abbrev pub Adds {ℓ} : {A : Type ℓ} → List A → List A → List A → Bool → Type ℓ
Adds {A = A} before xs after ended =
    (ys : List A) × (zs : List A) × (xs ≡ ys ++ zs)
    × (after ≡ before ++ ys)
    × ((ended ≡ true) ⊎ (zs ≡ []))

module _ {ℓ} {A : Type ℓ} where
  pub Adds-none : (before xs : List A) → Adds before xs before true
  Adds-none before xs = ([], xs, refl, sym (append-nil before), inl refl)

  pub Adds-nil : (before : List A) → Adds before [] before false
  Adds-nil before = ([], [], refl, sym (append-nil before), inr refl)

  pub Adds-all :
      (before xs after : List A) (ended : Bool) → after ≡ before ++ xs → Adds before xs after ended
  Adds-all before xs after ended e = (xs, [], sym (append-nil xs), e, inr refl)

  pub Adds-cut :
      (before xs ys after : List A) → Adds before xs after true → Adds before (xs ++ ys) after true
  Adds-cut before xs ys after (us, vs, e, f, g) =
      (us, vs ++ ys, ap (λ l. l ++ ys) e ∙ append_assoc us vs ys, f, inl refl)

  pub Adds-trans :
      (before xs mid ys after : List A) (ended : Bool)
      → Adds before xs mid false
      → Adds mid ys after ended
      → Adds before (xs ++ ys) after ended
  Adds-trans before xs mid ys after ended (us, vs, e, f, inl g) k = cc
  Adds-trans before xs mid ys after ended (us, vs, e, f, inr g) (us', vs', e', f', g') =
      let whole : xs ≡ us = e ∙ ap (λ l. us ++ l) g ∙ append-nil us in
      (
        us ++ us',
        vs',
        ap (λ l. l ++ ys) whole ∙ ap (λ l. us ++ l) e' ∙ sym (append_assoc us us' vs'),
        f' ∙ ap (λ l. l ++ us') f ∙ append_assoc before us us',
        g',
      )
