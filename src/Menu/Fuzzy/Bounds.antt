-- ===== src/Menu/Fuzzy/Bounds.antt =====
-- How great a distance can be (fuzzy-matcher.ts).
use voice_order_backend.Base.{arith, ℕ, max, subst, length, List, ◌∷◌, ◌≤◌, []}
use voice_order_backend.Menu.Fuzzy.{levenshtein}
use voice_order_backend.Menu.Fuzzy.Distance.{Edits, replace, delete, done, insert}
use voice_order_backend.Menu.Fuzzy.Table.{levenshtein-least}

-- Replacing what both texts have, and deleting or inserting the rest.
replacements : (a b : List ℕ) → Edits a b (max (length a) (length b))
replacements [] [] = done
replacements [] (d ∷ b) = subst (Edits [] (d ∷ b)) (omega arith) (insert d (replacements [] b))
replacements (c ∷ a) [] = subst (Edits (c ∷ a) []) (omega arith) (delete c (replacements a []))
replacements (c ∷ a) (d ∷ b) =
    subst (Edits (c ∷ a) (d ∷ b)) (omega arith) (replace c d (replacements a b))

-- A distance is at most the greater length, so that the source's `1 - dist / maxLen` is not negative.
pub levenshtein-le : (a b : List ℕ) → levenshtein a b ≤ max (length a) (length b)
levenshtein-le a b = (levenshtein-least a b).1 (max (length a) (length b)) (replacements a b)
