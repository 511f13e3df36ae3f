-- ===== src/Menu/Fuzzy.antt =====
-- src/menu/fuzzy-matcher.ts: the similarity of two texts, a fraction between 0 and 1. A text is the list
-- of its UTF-16 code units; `toLowerCase` is that of
-- the letters from ASCII to Cyrillic; other letters stay as they are.
pub mod Distance
pub mod Table
pub mod Bounds
use voice_order_backend.Menu.{Score}
use voice_order_backend.Base.{
  not, ◌%◌, true, suc, if◌then◌else◌, leb, ◌+◌, min, ◌&&◌, max, length, or_else, ◌∷◌, map, is_space,
  ◌||◌, [], ltb, ◌-◌, Bool, ◌*◌, false, ◌==◌, get_elem?, List, ℕ, if◌then◌else◌,
}
use voice_order_backend.Base.Units.{trim_units}

abbrev pub score_le : Score → Score → Bool
score_le a b = leb (a.num * b.den) (b.num * a.den)

abbrev pub score_lt : Score → Score → Bool
score_lt a b = ltb (a.num * b.den) (b.num * a.den)

-- `toLowerCase`, for the letters of the Latin-1 supplement, of Latin Extended-A, of Greek and of Cyrillic.
-- Capitals that alternate with their small letters: the capital is the even one, or the odd one.
abbrev pub even_capital : ℕ → Bool
even_capital c = (leb 256 c && leb c 303) || (leb 306 c && leb c 311) || (leb 330 c && leb c 375)

abbrev pub odd_capital : ℕ → Bool
odd_capital c = (leb 313 c && leb c 328) || (leb 377 c && leb c 382)

abbrev pub by_32 : ℕ → Bool
by_32 c =
    (leb 65 c && leb c 90)
    || (leb 192 c && leb c 222 && not (c == 215))
    || (leb 913 c && leb c 939 && not (c == 930))
    || (leb 1040 c && leb c 1071)

abbrev pub by_37 : ℕ → Bool
by_37 c = leb 904 c && leb c 906

-- The capitals that follow no such rule.
abbrev pub lower_other : ℕ → ℕ
lower_other c =
    if c == 376
    then 255
    else (if c == 902
        then 940
        else (if c == 908 then 972 else (if (c == 910) || (c == 911) then c + 63 else c)))

unfoldable pub lower_unit : ℕ → ℕ
lower_unit c =
    if by_32 c
    then c + 32
    else (if by_37 c
        then c + 37
        else (if leb 1024 c && leb c 1039
            then c + 80
            else (if even_capital c && (c % 2 == 0)
                then c + 1
                else (if odd_capital c && (c % 2 == 1) then c + 1 else lower_other c))))

-- `.replace(/\s+/g, ' ')`
unfoldable pub squeeze : Bool → List ℕ → List ℕ
squeeze after_space [] = []
squeeze after_space (c ∷ cs) =
    let gap = squeeze true cs in
    let rest = squeeze false cs in
    if is_space c then (if after_space then gap else 32 ∷ gap) else c ∷ rest

unfoldable pub normalize : List ℕ → List ℕ
normalize s = trim_units (squeeze false (map lower_unit s))

-- The inner loop: the row `curr` from `j` on, given `prev[j - 1]`, `curr[j - 1]` and `prev` from `j` on.
unfoldable pub fill : ℕ → List ℕ → ℕ → ℕ → List ℕ → List ℕ
fill c [] diagonal left ups = []
fill c (d ∷ ds) diagonal left [] =
    let v = min (min 1 (left + 1)) (diagonal + (if c == d then 0 else 1)) in v ∷ fill c ds 0 v []
fill c (d ∷ ds) diagonal left (up ∷ ups) =
    let v = min (min (up + 1) (left + 1)) (diagonal + (if c == d then 0 else 1)) in
    v ∷ fill c ds up v ups

unfoldable pub next_row : ℕ → ℕ → List ℕ → List ℕ → List ℕ
next_row i c b [] = i ∷ fill c b 0 i []
next_row i c b (first ∷ ups) = i ∷ fill c b first i ups

-- The outer loop, which numbers the rows from 1.
unfoldable pub rows : ℕ → List ℕ → List ℕ → List ℕ → List ℕ
rows i [] b prev = prev
rows i (c ∷ cs) b prev = rows (suc i) cs b (next_row i c b prev)

-- `Array.from({ length: n + 1 }, (_, i) => i)`
unfoldable pub first_row : ℕ → List ℕ → List ℕ
first_row i [] = i ∷ []
first_row i (d ∷ ds) = i ∷ first_row (suc i) ds

unfoldable pub levenshtein : List ℕ → List ℕ → ℕ
levenshtein [] b = length b
levenshtein (c ∷ cs) [] = length (c ∷ cs)
levenshtein (c ∷ cs) (d ∷ ds) =
    or_else (get_elem? (rows 1 (c ∷ cs) (d ∷ ds) (first_row 0 (d ∷ ds))) (length (d ∷ ds))) 0

unfoldable pub same_units : List ℕ → List ℕ → Bool
same_units [] [] = true
same_units [] (d ∷ ds) = false
same_units (c ∷ cs) [] = false
same_units (c ∷ cs) (d ∷ ds) = (c == d) && same_units cs ds

unfoldable pub starts_with : List ℕ → List ℕ → Bool
starts_with s [] = true
starts_with [] (d ∷ ds) = false
starts_with (c ∷ cs) (d ∷ ds) = (c == d) && starts_with cs ds

unfoldable pub includes : List ℕ → List ℕ → Bool
includes [] t = starts_with [] t
includes (c ∷ cs) t = starts_with (c ∷ cs) t || includes cs t

abbrev pub none_score : Score
none_score = record { num = 0; den = 1 }

abbrev pub is_nil : List ℕ → Bool
is_nil [] = true
is_nil (c ∷ cs) = false

-- `1 - dist / maxLen`, where the distance is at most the greater length.
unfoldable pub distance_score : List ℕ → List ℕ → Score
distance_score a b =
    let longest = max (length a) (length b) in
    record { num = longest - levenshtein a b; den = longest }

unfoldable pub similarity : List ℕ → List ℕ → Score
similarity a b =
    let na = normalize a in
    let nb = normalize b in
    if is_nil na || is_nil nb
    then none_score
    else (if same_units na nb
        then record { num = 1; den = 1 }
        else (if includes na nb || includes nb na
            then record { num = 9; den = 10 }
            else distance_score na nb))
