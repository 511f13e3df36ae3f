-- ===== src/Menu/Fuzzy/Table.antt =====
-- The rows of the table of `levenshtein`, and the distance that its last entry is (fuzzy-matcher.ts).
use voice_order_backend.Base.{
  ◌∙◌, ◌≡◌, or_else, get_elem?, ap, subst, ◌≤◌, length, arith, ◌∷◌, List, suc, sym, some, ℕ, [],
  refl,
}
use voice_order_backend.Menu.Fuzzy.{levenshtein, rows, next_row, fill, first_row}
use voice_order_backend.Menu.Fuzzy.Distance.{
  distance, distance-nil, distance-reverse, Edits, distance-Edits, distance-le,
}
use mathlib.Core.List.{reverse, reverse_aux}

-- The entries of the row of `ra` after that of `rb`; both are prefixes from their ends.
row_after : List ℕ → List ℕ → List ℕ → List ℕ
row_after ra rb [] = []
row_after ra rb (d ∷ ds) = distance ra (d ∷ rb) ∷ row_after ra (d ∷ rb) ds

abbrev row : List ℕ → List ℕ → List ℕ
row ra b = length ra ∷ row_after ra [] b

fill-row_after :
    (c : ℕ) (ra rb ds : List ℕ)
    → fill c ds (distance ra rb) (distance (c ∷ ra) rb) (row_after ra rb ds)
      ≡ row_after (c ∷ ra) rb ds
unfolding fill row_after distance
fill-row_after c ra rb [] = refl
fill-row_after c ra rb (d ∷ ds) =
    ap (λ r. distance (c ∷ ra) (d ∷ rb) ∷ r) (fill-row_after c ra (d ∷ rb) ds)

next_row-row : (c : ℕ) (ra b : List ℕ) → next_row (suc (length ra)) c b (row ra b) ≡ row (c ∷ ra) b
unfolding next_row
next_row-row c ra b =
    ap (λ r. suc (length ra) ∷ r)
      (ap (λ x. fill c b x (suc (length ra)) (row_after ra [] b)) (sym (distance-nil ra))
        ∙ ap (λ x. fill c b (distance ra []) x (row_after ra [] b)) (sym (distance-nil (c ∷ ra)))
        ∙ fill-row_after c ra [] b)

rows-row : (ra cs b : List ℕ) → rows (suc (length ra)) cs b (row ra b) ≡ row (reverse_aux cs ra) b
unfolding rows
rows-row ra [] b = refl
rows-row ra (c ∷ cs) b =
    ap (rows (suc (suc (length ra))) cs b) (next_row-row c ra b) ∙ rows-row (c ∷ ra) cs b

first_row-row : (rb ds : List ℕ) → first_row (length rb) ds ≡ length rb ∷ row_after [] rb ds
unfolding first_row row_after distance
first_row-row rb [] = refl
first_row-row rb (d ∷ ds) = ap (λ r. length rb ∷ r) (first_row-row (d ∷ rb) ds)

row_after-last :
    (ra rb : List ℕ) (ds : List ℕ)
    → get_elem? (distance ra rb ∷ row_after ra rb ds) (length ds)
      ≡ some (distance ra (reverse_aux ds rb))
unfolding row_after
row_after-last ra rb [] = refl
row_after-last ra rb (d ∷ ds) = row_after-last ra (d ∷ rb) ds

pub levenshtein-distance : (a b : List ℕ) → levenshtein a b ≡ distance a b
unfolding levenshtein distance
levenshtein-distance [] b = refl
levenshtein-distance (c ∷ cs) [] = refl
levenshtein-distance (c ∷ cs) (d ∷ ds) =
    let a : List ℕ = c ∷ cs in
    let b : List ℕ = d ∷ ds in
    let e : rows 1 a b (first_row 0 b) ≡ row (reverse a) b =
      ap (rows 1 a b) (first_row-row [] b) ∙ rows-row [] a b in
    let r : get_elem? (row (reverse a) b) (length b) ≡ some (distance (reverse a) (reverse b)) =
      ap (λ x. get_elem? (x ∷ row_after (reverse a) [] b) (length b))
        (sym (distance-nil (reverse a)))
      ∙ row_after-last (reverse a) [] b in
    ap (λ x. or_else (get_elem? x (length b)) 0) e ∙ ap (λ x. or_else x 0) r ∙ distance-reverse a b

-- The loops over the two rows compute the least number of insertions, deletions and replacements of
-- one character that turn one text into the other: so many are enough, and no fewer are.
pub levenshtein-least :
    (a b : List ℕ) → Edits a b (levenshtein a b) × ((n : ℕ) → Edits a b n → levenshtein a b ≤ n)
levenshtein-least a b =
    let e = levenshtein-distance a b in
    (subst (Edits a b) (sym e) (distance-Edits a b), λ n s. omega (arith, e, distance-le s))
