-- ===== src/Base/Sort.antt =====
-- `Array.sort` with a comparator, which is stable: an insertion sort, and that its result is in order
-- and has the same elements.
use Prim.Native.Nat.{ℕ, zero, suc}
use mathlib.Core.Path.{◌≡◌}
use mathlib.Core.Logic.{inl, inr}
use mathlib.Core.Bool.{Bool, true, false}
use mathlib.Core.List.{List, [], ◌∷◌, Perm}
use mathlib.Core.List.Perm
use voice_order_backend.Base.Tests.{if◌then◌else◌, Bool-cases}
use voice_order_backend.Base.Lists.{take, All}

-- Each two neighbours are related.
abbrev pub InOrder {ℓ} : {A : Type ℓ} → (A → A → Type 0) → List A → Type 0
InOrder R [] = Unit
InOrder R (x ∷ []) = Unit
InOrder R (x ∷ y ∷ l) = R x y × InOrder R (y ∷ l)

pub InOrder-take {ℓ} :
    {A : Type ℓ} (R : A → A → Type 0) (n : ℕ) (l : List A) → InOrder R l → InOrder R (take n l)
InOrder-take R zero l h = tt
InOrder-take R (suc n) [] h = tt
InOrder-take R (suc zero) (x ∷ []) h = tt
InOrder-take R (suc (suc n)) (x ∷ []) h = tt
InOrder-take R (suc zero) (x ∷ y ∷ l) h = tt
InOrder-take R (suc (suc n)) (x ∷ y ∷ l) h = (h.0, InOrder-take R (suc n) (y ∷ l) h.1)

pub All-take {ℓ} : {A : Type ℓ} (P : A → Type 0) (n : ℕ) (l : List A) → All P l → All P (take n l)
All-take P zero l h = tt
All-take P (suc n) [] h = tt
All-take P (suc n) (x ∷ l) h = (h.0, All-take P n l h.1)

pub InOrder-imp {ℓ} :
    {A : Type ℓ} (R S : A → A → Type 0)
    → ((x y : A) → R x y → S x y)
    → (l : List A) → InOrder R l
    → InOrder S l
InOrder-imp R S f [] h = tt
InOrder-imp R S f (x ∷ []) h = tt
InOrder-imp R S f (x ∷ y ∷ l) h = (f x y h.0, InOrder-imp R S f (y ∷ l) h.1)

-- `before x y`: the comparator does not put `y` first.
module _ {ℓ} {A : Type ℓ} (before : A → A → Bool) where
  unfoldable pub insert_sorted : A → List A → List A
  insert_sorted x [] = x ∷ []
  insert_sorted x (y ∷ l) =
      let rest = insert_sorted x l in if before x y then x ∷ y ∷ l else y ∷ rest

  unfoldable pub sort_by : List A → List A
  sort_by [] = []
  sort_by (x ∷ l) = insert_sorted x (sort_by l)

  insert_sorted-Perm : (x : A) (l : List A) → Perm (insert_sorted x l) (x ∷ l)
  unfolding insert_sorted
  insert_sorted-Perm x [] = Perm.refl (x ∷ [])
  insert_sorted-Perm x (y ∷ l) = elim (Bool-cases (before x y)) [
    | inl b ↦ rw b (Perm.refl (x ∷ y ∷ l))
    | inr b ↦ rw b (Perm.trans (Perm.cons y (insert_sorted-Perm x l)) (Perm.swap x y l))
  ]

  pub sort_by-Perm : (l : List A) → Perm (sort_by l) l
  unfolding sort_by
  sort_by-Perm [] = Perm.refl []
  sort_by-Perm (x ∷ l) =
      Perm.trans (insert_sorted-Perm x (sort_by l)) (Perm.cons x (sort_by-Perm l))

  module _ (P : A → Type 0) where
    All-insert_sorted : (x : A) (l : List A) → P x → All P l → All P (insert_sorted x l)
    unfolding insert_sorted
    All-insert_sorted x [] p h = (p, tt)
    All-insert_sorted x (y ∷ l) p h = elim (Bool-cases (before x y)) [
      | inl b ↦ rw b (p, h)
      | inr b ↦ rw b (h.0, All-insert_sorted x l p h.1)
    ]

    pub All-sort_by : (l : List A) → All P l → All P (sort_by l)
    unfolding sort_by
    All-sort_by [] h = tt
    All-sort_by (x ∷ l) h = All-insert_sorted x (sort_by l) h.0 (All-sort_by l h.1)

    All-unsorted : (x : A) (l : List A) → All P (insert_sorted x l) → P x × All P l
    unfolding insert_sorted
    All-unsorted x [] h = h
    All-unsorted x (y ∷ l) h = elim (Bool-cases (before x y)) [
      | inl b ↦ rw b at h
      | inr b ↦
          let k : All P (y ∷ insert_sorted x l) = rw b at h in
          let (p, q) = All-unsorted x l k.1 in (p, (k.0, q))
    ]

    pub All-of_sort_by : (l : List A) → All P (sort_by l) → All P l
    unfolding sort_by
    All-of_sort_by [] h = tt
    All-of_sort_by (x ∷ l) h = let (p, q) = All-unsorted x (sort_by l) h in (p, All-of_sort_by l q)

  module _ (total : (x y : A) → before x y ≡ false → before y x ≡ true) where
    cons-insert_sorted :
        (y x : A) (l : List A)
        → before y x ≡ true
        → InOrder (λ a b. before a b ≡ true) (y ∷ l)
        → InOrder (λ a b. before a b ≡ true) (y ∷ insert_sorted x l)
    unfolding insert_sorted
    cons-insert_sorted y x [] e h = (e, tt)
    cons-insert_sorted y x (z ∷ l) e h = elim (Bool-cases (before x z)) [
      | inl c ↦ rw c (e, (c, h.1))
      | inr c ↦ rw c (h.0, cons-insert_sorted z x l (total x z c) h.1)
    ]

    insert_sorted-InOrder :
        (x : A) (l : List A)
        → InOrder (λ a b. before a b ≡ true) l
        → InOrder (λ a b. before a b ≡ true) (insert_sorted x l)
    unfolding insert_sorted
    insert_sorted-InOrder x [] h = tt
    insert_sorted-InOrder x (y ∷ l) h = elim (Bool-cases (before x y)) [
      | inl b ↦ rw b (b, h)
      | inr b ↦ rw b (cons-insert_sorted y x l (total x y b) h)
    ]

    pub sort_by-InOrder : (l : List A) → InOrder (λ a b. before a b ≡ true) (sort_by l)
    unfolding sort_by
    sort_by-InOrder [] = tt
    sort_by-InOrder (x ∷ l) = insert_sorted-InOrder x (sort_by l) (sort_by-InOrder l)
