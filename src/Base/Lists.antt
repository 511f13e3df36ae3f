-- ===== src/Base/Lists.antt =====
-- Lists measured and indexed by native numbers, and the queue operations of the waiting lines.
use Prim.Native.Nat.{ℕ, zero, suc, ◌+◌, ◌-◌, ◌<◌}
use mathlib.Core.Path.{◌≡◌, refl, ap}
use mathlib.Core.Logic.{◌⊎◌, inl, inr}
use mathlib.Core.Bool.{Bool, true, false}
use mathlib.Core.List.{List, [], ◌∷◌, ◌++◌, map}
use mathlib.Core.Option.{Option, none, some}
use native.Mathlib.Omega.{arith}
use voice_order_backend.Base.Tests.{◌==◌, if◌then◌else◌}

module _ {ℓ} {A : Type ℓ} where
  abbrev pub length : List A → ℕ
  length [] = 0
  length (x ∷ xs) = suc (length xs)

  pub length-append : (xs ys : List A) → length (xs ++ ys) ≡ length xs + length ys
  length-append [] ys = omega arith
  length-append (x ∷ xs) ys = omega (arith, length-append xs ys)

  abbrev pub get_elem? : List A → ℕ → Option A
  get_elem? [] i = none
  get_elem? (x ∷ xs) zero = some x
  get_elem? (x ∷ xs) (suc i) = get_elem? xs i

  abbrev pub take : ℕ → List A → List A
  take zero xs = []
  take (suc n) [] = []
  take (suc n) (x ∷ xs) = x ∷ take n xs

  abbrev pub drop : ℕ → List A → List A
  drop zero xs = xs
  drop (suc n) [] = []
  drop (suc n) (x ∷ xs) = drop n xs

  pub length-drop : (n : ℕ) (xs : List A) → length (drop n xs) ≡ length xs - n
  length-drop zero xs = omega arith
  length-drop (suc n) [] = omega arith
  length-drop (suc n) (x ∷ xs) = omega (arith, length-drop n xs)

  -- A write out of bounds changes nothing.
  abbrev pub set : List A → ℕ → A → List A
  set [] i v = []
  set (x ∷ xs) zero v = v ∷ xs
  set (x ∷ xs) (suc i) v = x ∷ set xs i v

  pub get_elem?-set_self :
      (xs : List A) (i : ℕ) (v w : A) → get_elem? xs i ≡ some v → get_elem? (set xs i w) i ≡ some w
  get_elem?-set_self [] i v w h = absurd (cc)
  get_elem?-set_self (x ∷ xs) zero v w h = refl
  get_elem?-set_self (x ∷ xs) (suc i) v w h = get_elem?-set_self xs i v w h

  pub get_elem?-set_ne :
      (xs : List A) (i j : ℕ) (w : A) → (i == j) ≡ false → get_elem? (set xs i w) j ≡ get_elem? xs j
  get_elem?-set_ne [] i j w h = refl
  get_elem?-set_ne (x ∷ xs) zero zero w h = absurd (ground (arith, h))
  get_elem?-set_ne (x ∷ xs) zero (suc j) w h = refl
  get_elem?-set_ne (x ∷ xs) (suc i) zero w h = refl
  get_elem?-set_ne (x ∷ xs) (suc i) (suc j) w h = get_elem?-set_ne xs i j w (ground (arith, h))

  -- Where an element of a list comes from, after a write in bounds.
  pub get_elem?-set :
      (xs : List A) (i j : ℕ) (w v t : A)
      → get_elem? xs i ≡ some w
      → get_elem? (set xs i v) j ≡ some t
      → ((i ≡ j) × (v ≡ t)) ⊎ (((i == j) ≡ false) × (get_elem? xs j ≡ some t))
  get_elem?-set [] i j w v t h k = absurd (cc)
  get_elem?-set (x ∷ xs) zero zero w v t h k = inl (refl, ground (arith, k))
  get_elem?-set (x ∷ xs) zero (suc j) w v t h k = inr (ground arith, k)
  get_elem?-set (x ∷ xs) (suc i) zero w v t h k = inr (ground arith, k)
  get_elem?-set (x ∷ xs) (suc i) (suc j) w v t h k = elim (get_elem?-set xs i j w v t h k) [
    | inl (e, q) ↦ inl (ap suc e, q)
    | inr (e, q) ↦ inr (ground (arith, e), q)
  ]

  pub get_elem?-append :
      (xs : List A) (y : A) (j : ℕ) (v : A)
      → get_elem? (xs ++ y ∷ []) j ≡ some v
      → (get_elem? xs j ≡ some v) ⊎ ((j ≡ length xs) × (v ≡ y))
  get_elem?-append [] y zero v h = inr (refl, cc)
  get_elem?-append [] y (suc j) v h = absurd (cc)
  get_elem?-append (x ∷ xs) y zero v h = inl h
  get_elem?-append (x ∷ xs) y (suc j) v h = elim (get_elem?-append xs y j v h) [
    | inl k ↦ inl k
    | inr (e, k) ↦ inr (omega arith, k)
  ]

  pub get_elem?-append_old :
      (xs : List A) (y : A) (j : ℕ) (v : A)
      → get_elem? xs j ≡ some v
      → get_elem? (xs ++ y ∷ []) j ≡ some v
  get_elem?-append_old [] y j v h = absurd (cc)
  get_elem?-append_old (x ∷ xs) y zero v h = h
  get_elem?-append_old (x ∷ xs) y (suc j) v h = get_elem?-append_old xs y j v h

  pub get_elem?-append_new : (xs : List A) (y : A) → get_elem? (xs ++ y ∷ []) (length xs) ≡ some y
  get_elem?-append_new [] y = refl
  get_elem?-append_new (x ∷ xs) y = get_elem?-append_new xs y

  pub get_elem?-lt : (xs : List A) (j : ℕ) (v : A) → get_elem? xs j ≡ some v → j < length xs
  get_elem?-lt [] j v h = absurd (cc)
  get_elem?-lt (x ∷ xs) zero v h = omega arith
  get_elem?-lt (x ∷ xs) (suc j) v h = let k = get_elem?-lt xs j v h in omega arith

  abbrev pub filter_b : (A → Bool) → List A → List A
  filter_b p [] = []
  filter_b p (x ∷ xs) = if p x then x ∷ filter_b p xs else filter_b p xs

  abbrev pub find? : (A → Bool) → List A → Option A
  find? p [] = none
  find? p (x ∷ xs) = if p x then some x else find? p xs

  abbrev pub All {κ} : (A → Type κ) → List A → Type κ
  All P [] = Unit
  All P (x ∷ xs) = P x × All P xs

abbrev pub count : ℕ → List ℕ → ℕ
count x [] = 0
count x (y ∷ ys) = (if y == x then 1 else 0) + count x ys

pub count-append : (x : ℕ) (xs ys : List ℕ) → count x (xs ++ ys) ≡ count x xs + count x ys
count-append x [] ys = omega arith
count-append x (y ∷ xs) ys = omega (arith, count-append x xs ys)

-- `indexOf` and `splice` on entries that have an identity: is the entry there, and the list without it.
module _ {ℓ} {A : Type ℓ} (id_of : A → ℕ) where
  abbrev pub has_id : ℕ → List A → Bool
  has_id i [] = false
  has_id i (x ∷ xs) = if id_of x == i then true else has_id i xs

  abbrev pub splice_out : ℕ → List A → List A
  splice_out i [] = []
  splice_out i (x ∷ xs) = if id_of x == i then xs else x ∷ splice_out i xs

  pub length-splice_out :
      (i : ℕ) (xs : List A) → has_id i xs ≡ true → length xs ≡ suc (length (splice_out i xs))
  length-splice_out i [] h = ground arith
  length-splice_out i (x ∷ xs) h = ground (arith, length-splice_out i xs)

  pub count-splice_out :
      (j i : ℕ) (xs : List A)
      → has_id i xs ≡ true
      → count j (map id_of xs) ≡ (if i == j then 1 else 0) + count j (map id_of (splice_out i xs))
  count-splice_out j i [] h = ground arith
  count-splice_out j i (x ∷ xs) h = ground (arith, count-splice_out j i xs)

  pub splice_out-absent : (i : ℕ) (xs : List A) → has_id i xs ≡ false → splice_out i xs ≡ xs
  splice_out-absent i [] h = refl
  splice_out-absent i (x ∷ xs) h = ground (arith, splice_out-absent i xs)

abbrev some_or {ℓ} : {A : Type ℓ} → A → Option A → A
some_or a none = a
some_or a (some b) = b

pub some_injective {ℓ} : {A : Type ℓ} {a b : A} → some a ≡ some b → a ≡ b
some_injective {a = a} p = ap (some_or a) p

pub List-cases {ℓ} :
    {A : Type ℓ} (l : List A) → (l ≡ []) ⊎ ((a : A) × (as' : List A) × (l ≡ a ∷ as'))
List-cases [] = inl refl
List-cases (a ∷ as') = inr (a, as', refl)
