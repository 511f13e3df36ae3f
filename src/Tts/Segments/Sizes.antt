-- ===== src/Tts/Segments/Sizes.antt =====
-- Lengths and first units of what the cuts leave (segment-text.ts).
use voice_order_backend.Tts.Segments.{last_space, cut_of}
use voice_order_backend.Base.Units.{trim_right, trim_left, keep_unless_blank, trim_units}
use voice_order_backend.Base.{
  Option-cases, suc, List, ℕ, inr, [], take, length, some, is_space, zero, ◌≤◌, arith, false, ◌∷◌,
  Bool-cases, ◌≡◌, inl,
}

length-trim_left : (t : List ℕ) → length (trim_left t) ≤ length t
unfolding trim_left
length-trim_left [] = omega arith
length-trim_left (c ∷ cs) = ground (arith, length-trim_left cs)

length-keep_unless_blank : (c : ℕ) (t : List ℕ) → length (keep_unless_blank c t) ≤ suc (length t)
unfolding keep_unless_blank
length-keep_unless_blank c [] = ground arith
length-keep_unless_blank c (d ∷ ds) = omega arith

length-trim_right : (t : List ℕ) → length (trim_right t) ≤ length t
unfolding trim_right
length-trim_right [] = omega arith
length-trim_right (c ∷ cs) =
    omega (arith, length-keep_unless_blank c (trim_right cs), length-trim_right cs)

pub length-trim_units : (t : List ℕ) → length (trim_units t) ≤ length t
unfolding trim_units
length-trim_units t = omega (arith, length-trim_right (trim_left t), length-trim_left t)

-- A text that does not start with white space.
abbrev pub StartsInked : List ℕ → Type 0
StartsInked [] = Unit {0}
StartsInked (c ∷ cs) = is_space c ≡ false

trim_left-StartsInked : (t : List ℕ) → StartsInked (trim_left t)
unfolding trim_left
trim_left-StartsInked [] = tt
trim_left-StartsInked (c ∷ cs) = elim (Bool-cases (is_space c)) [
  | inl e ↦ rw e (trim_left-StartsInked cs)
  | inr e ↦ rw e e
]

keep_unless_blank-StartsInked :
    (c : ℕ) (t : List ℕ) → is_space c ≡ false → StartsInked (keep_unless_blank c t)
unfolding keep_unless_blank
keep_unless_blank-StartsInked c [] h = rw h h
keep_unless_blank-StartsInked c (d ∷ ds) h = h

trim_right-StartsInked : (t : List ℕ) → StartsInked t → StartsInked (trim_right t)
unfolding trim_right
trim_right-StartsInked [] h = tt
trim_right-StartsInked (c ∷ cs) h = keep_unless_blank-StartsInked c (trim_right cs) h

pub trim_units-StartsInked : (t : List ℕ) → StartsInked (trim_units t)
unfolding trim_units
trim_units-StartsInked t = trim_right-StartsInked (trim_left t) (trim_left-StartsInked t)

last_space-le : (n i : ℕ) (t : List ℕ) → last_space n t ≡ some i → i ≤ n
unfolding last_space
last_space-le n i [] h = ground (arith, h)
last_space-le zero i (c ∷ cs) h = ground (arith, h)
last_space-le (suc n) i (c ∷ cs) h = elim (Option-cases (last_space n cs)) [
  | inl e ↦ ground (arith, h, e)
  | inr (j, e) ↦ let k = last_space-le n j cs e in ground (arith, h, e, k)
]

pub cut_of-bounds :
    (t : List ℕ) → (1 ≤ cut_of (last_space 160 t)) × (cut_of (last_space 160 t) ≤ 160)
unfolding cut_of
cut_of-bounds t = elim (Option-cases (last_space 160 t)) [
  | inl e ↦ rw e (omega arith, omega arith)
  | inr (i, e) ↦ let k = last_space-le 160 i t e in ground (arith, e, k)
]

pub length-take : (n : ℕ) (t : List ℕ) → length (take n t) ≤ n
length-take zero t = omega arith
length-take (suc n) [] = omega arith
length-take (suc n) (c ∷ cs) = omega (arith, length-take n cs)
