-- ===== src/Base/Units.antt =====
-- Texts as lists of UTF-16 code units: the white space around them, and pieces of them, as
-- src/tts/segment-text.ts and src/menu/candidate-matcher.ts make them.
use Prim.Native.Nat.{ℕ}
use mathlib.Core.List.{List, [], ◌∷◌}
use voice_order_backend.Base.Tests.{if◌then◌else◌, if◌then◌else◌}
use voice_order_backend.Base.Text.{is_space}

-- `trim`
unfoldable pub trim_left : List ℕ → List ℕ
trim_left [] = []
trim_left (c ∷ cs) = let rest = trim_left cs in if is_space c then rest else c ∷ cs

unfoldable pub keep_unless_blank : ℕ → List ℕ → List ℕ
keep_unless_blank c [] = if is_space c then [] else c ∷ []
keep_unless_blank c (d ∷ ds) = c ∷ d ∷ ds

unfoldable pub trim_right : List ℕ → List ℕ
trim_right [] = []
trim_right (c ∷ cs) = keep_unless_blank c (trim_right cs)

unfoldable pub trim_units : List ℕ → List ℕ
trim_units t = trim_right (trim_left t)

-- One more unit at the front of the first piece.
unfoldable pub push : ℕ → List (List ℕ) → List (List ℕ)
push c [] = (c ∷ []) ∷ []
push c (s ∷ ss) = (c ∷ s) ∷ ss

-- `.map((s) => s.trim()).filter((s) => s.length > 0)`
unfoldable pub keep_units : List ℕ → List (List ℕ) → List (List ℕ)
keep_units [] ss = ss
keep_units (c ∷ cs) ss = (c ∷ cs) ∷ ss

unfoldable pub trim_all : List (List ℕ) → List (List ℕ)
trim_all [] = []
trim_all (s ∷ ss) = keep_units (trim_units s) (trim_all ss)
