-- ===== src/Menu/Fuzzy/Distance.antt =====
-- The table of `levenshtein` holds the edit distance (fuzzy-matcher.ts): the least number of insertions,
-- deletions and replacements of one character that turn one text into the other.
use voice_order_backend.Base.{
  refl, suc, if◌then◌else◌, [], arith, List, zero, length, ◌∷◌, ◌+◌, ◌≡◌, ◌≤◌, ℕ, ==_iff, ◌==◌, min,
  if◌then◌else◌, subst, inl, ◌⊎◌, leb, inr, sym, Bool-cases,
}
use mathlib.Core.List.{reverse, reverse_aux, reverse-reverse}

-- A way to turn one text into another in so many edits.
pub data Edits : List ℕ → List ℕ → ℕ → Type 0 where
  done : Edits [] [] zero
  keep : {a b : List ℕ} {n : ℕ} (c d : ℕ) → c ≡ d → Edits a b n → Edits (c ∷ a) (d ∷ b) n
  replace : {a b : List ℕ} {n : ℕ} (c d : ℕ) → Edits a b n → Edits (c ∷ a) (d ∷ b) (suc n)
  delete : {a b : List ℕ} {n : ℕ} (c : ℕ) → Edits a b n → Edits (c ∷ a) b (suc n)
  insert : {a b : List ℕ} {n : ℕ} (d : ℕ) → Edits a b n → Edits a (d ∷ b) (suc n)

-- The recursion on both texts.
unfoldable pub distance : List ℕ → List ℕ → ℕ
distance [] b = length b
distance (c ∷ a) [] = suc (length a)
distance (c ∷ a) (d ∷ b) =
    min (min (distance a (d ∷ b) + 1) (distance (c ∷ a) b + 1))
      (distance a b + (if c == d then 0 else 1))

pub distance-nil : (a : List ℕ) → distance a [] ≡ length a
unfolding distance
distance-nil [] = refl
distance-nil (c ∷ a) = refl

pub distance-le : {a b : List ℕ} {n : ℕ} → Edits a b n → distance a b ≤ n
unfolding distance
distance-le done = omega arith
distance-le (keep c d e s) = let h = distance-le s in ground (arith, (==_iff c d).1 e)
distance-le (replace c d s) = let h = distance-le s in ground arith
distance-le (delete {a = a} {b = []} c s) = omega (arith, distance-le s, distance-nil a)
distance-le (delete {b = d ∷ b} c s) = let h = distance-le s in ground arith
distance-le (insert {a = []} d s) = let h = distance-le s in ground arith
distance-le (insert {a = c ∷ a} d s) = let h = distance-le s in ground arith

min-cases : (x y : ℕ) → (min x y ≡ x) ⊎ (min x y ≡ y)
min-cases x y = elim (Bool-cases (leb x y)) [
  | inl h ↦ inl (ground arith)
  | inr h ↦ inr (ground arith)
]

deletes : (a : List ℕ) → Edits a [] (length a)
deletes [] = done
deletes (c ∷ a) = delete c (deletes a)

inserts : (b : List ℕ) → Edits [] b (length b)
inserts [] = done
inserts (d ∷ b) = insert d (inserts b)

-- With the same last character, or another.
last_edit :
    (c d : ℕ) (a b : List ℕ) (n : ℕ)
    → Edits a b n
    → Edits (c ∷ a) (d ∷ b) (n + (if c == d then 0 else 1))
last_edit c d a b n s = elim (Bool-cases (c == d)) [
  | inl h ↦ subst (Edits (c ∷ a) (d ∷ b)) (ground (arith, h)) (keep c d ((==_iff c d).0 h) s)
  | inr h ↦ subst (Edits (c ∷ a) (d ∷ b)) (ground (arith, h)) (replace c d s)
]

pub distance-Edits : (a b : List ℕ) → Edits a b (distance a b)
unfolding distance
distance-Edits [] b = inserts b
distance-Edits (c ∷ a) [] = deletes (c ∷ a)
distance-Edits (c ∷ a) (d ∷ b) =
    let x : ℕ = distance a (d ∷ b) + 1 in
    let y : ℕ = distance (c ∷ a) b + 1 in
    let z : ℕ = distance a b + (if c == d then 0 else 1) in
    elim (min-cases (min x y) z) [
      | inr e ↦
          subst (Edits (c ∷ a) (d ∷ b)) (sym e)
            (last_edit c d a b (distance a b) (distance-Edits a b))
      | inl e ↦ elim (min-cases x y) [
        | inl i ↦
            subst (Edits (c ∷ a) (d ∷ b)) (omega (arith, e, i))
              (delete c (distance-Edits a (d ∷ b)))
        | inr i ↦
            subst (Edits (c ∷ a) (d ∷ b)) (omega (arith, e, i))
              (insert d (distance-Edits (c ∷ a) b))
      ]
    ]

-- Edits may be made from the end as well.
Edits-reverse_aux :
    {a b : List ℕ} {n : ℕ} (us vs : List ℕ) (m : ℕ)
    → Edits a b n
    → Edits us vs m
    → Edits (reverse_aux a us) (reverse_aux b vs) (n + m)
Edits-reverse_aux us vs m done t = subst (Edits us vs) (omega arith) t
Edits-reverse_aux us vs m (keep c d e s) t = Edits-reverse_aux (c ∷ us) (d ∷ vs) m s (keep c d e t)
Edits-reverse_aux us vs m (replace {a} {b} {n} c d s) t =
    subst (Edits (reverse_aux a (c ∷ us)) (reverse_aux b (d ∷ vs))) (omega arith)
      (Edits-reverse_aux (c ∷ us) (d ∷ vs) (suc m) s (replace c d t))
Edits-reverse_aux us vs m (delete {a} {b} {n} c s) t =
    subst (Edits (reverse_aux a (c ∷ us)) (reverse_aux b vs)) (omega arith)
      (Edits-reverse_aux (c ∷ us) vs (suc m) s (delete c t))
Edits-reverse_aux us vs m (insert {a} {b} {n} d s) t =
    subst (Edits (reverse_aux a us) (reverse_aux b (d ∷ vs))) (omega arith)
      (Edits-reverse_aux us (d ∷ vs) (suc m) s (insert d t))

distance-reverse_le : (a b : List ℕ) → distance (reverse a) (reverse b) ≤ distance a b
distance-reverse_le a b =
    omega (arith, distance-le (Edits-reverse_aux [] [] 0 (distance-Edits a b) done))

pub distance-reverse : (a b : List ℕ) → distance (reverse a) (reverse b) ≡ distance a b
distance-reverse a b =
    let h = distance-reverse_le a b in
    let k = distance-reverse_le (reverse a) (reverse b) in
    let k' : distance a b ≤ distance (reverse a) (reverse b) =
      subst (λ x. distance x b ≤ distance (reverse a) (reverse b)) (reverse-reverse a)
        (subst (λ y. distance (reverse (reverse a)) y ≤ distance (reverse a) (reverse b))
          (reverse-reverse b) k) in
    omega (arith, h, k')
