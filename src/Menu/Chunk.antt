-- ===== src/Menu/Chunk.antt =====
-- `chunk` of src/menu/candidate-matcher.ts: a transcript split into phrases at commas and at the words
-- "and", "with" and "no".
use voice_order_backend.Base.{
  ℕ, ◌||◌, suc, ◌==◌, ◌∷◌, codes, if◌then◌else◌, false, ◌&&◌, List, zero, drop, leb, not, Bool, map,
  length, [], if◌then◌else◌,
}
use voice_order_backend.Base.Units.{push, trim_all}
use voice_order_backend.Menu.Fuzzy.{lower_unit, starts_with}

-- A character that `\b` counts as part of a word.
unfoldable pub is_word : ℕ → Bool
is_word c = (leb 48 c && leb c 57) || (leb 65 c && leb c 90) || (c == 95) || (leb 97 c && leb c 122)

unfoldable pub next_is_word : List ℕ → Bool
next_is_word [] = false
next_is_word (c ∷ cs) = is_word c

-- This word stands here, with a boundary after it.
unfoldable pub word_here : List ℕ → List ℕ → Bool
word_here w cs = starts_with (map lower_unit cs) w && not (next_is_word (drop (length w) cs))

-- How many units of `/,|\band\b|\bwith\b|\bno\b/i` stand here, given whether a word is under way.
unfoldable pub separator : Bool → List ℕ → ℕ
separator in_word [] = 0
separator in_word (c ∷ cs) =
    if c == 44
    then 1
    else (if in_word
        then 0
        else (if word_here (codes "and") (c ∷ cs)
            then 3
            else (if word_here (codes "with") (c ∷ cs)
                then 4
                else (if word_here (codes "no") (c ∷ cs) then 2 else 0))))

-- `text.split(...)`; the number is of the units of a separator that are still to be passed over.
unfoldable pub split_words : ℕ → Bool → List ℕ → List (List ℕ)
split_words skip in_word [] = [] ∷ []
split_words (suc skip) in_word (c ∷ cs) = split_words skip (is_word c) cs
split_words zero in_word (c ∷ cs) = elim (separator in_word (c ∷ cs)) [
  | zero ↦ push c (split_words 0 (is_word c) cs)
  | suc k ↦ [] ∷ split_words k (is_word c) cs
]

unfoldable pub chunk : List ℕ → List (List ℕ)
chunk text = trim_all (split_words 0 false text)
