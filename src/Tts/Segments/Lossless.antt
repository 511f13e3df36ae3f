-- ===== src/Tts/Segments/Lossless.antt =====
-- No piece is too long or empty, and nothing but white space is lost (segment-text.ts).
use voice_order_backend.Tts.Segments.{in_gap, Place, split_at_marks, place_after, plain, after_mark}
use voice_order_backend.Base.Units.{
  trim_all, trim_left, trim_right, keep_unless_blank, push, trim_units, keep_units,
}
use voice_order_backend.Base.{
  ◌≡◌, arith, ◌++◌, ap, ◌∷◌, filter_b, ℕ, zero, not, take, is_space, ◌∙◌, drop, ◌++◌, sym, List,
  refl, append_assoc, suc, [],
}

-- A text without its white space.
abbrev pub ink : List ℕ → List ℕ
ink t = filter_b (λ c. not (is_space c)) t

abbrev pub ink_of_all : List (List ℕ) → List ℕ
ink_of_all [] = []
ink_of_all (s ∷ ss) = ink s ++ ink_of_all ss

pub ink-append : (s t : List ℕ) → ink (s ++ t) ≡ ink s ++ ink t
ink-append [] t = refl
ink-append (c ∷ cs) t = ground (arith, ink-append cs t)

pub ink_of_all-append :
    (ss ts : List (List ℕ)) → ink_of_all (ss ++ ts) ≡ ink_of_all ss ++ ink_of_all ts
ink_of_all-append [] ts = refl
ink_of_all-append (s ∷ ss) ts =
    ap (λ x. ink s ++ x) (ink_of_all-append ss ts)
    ∙ sym (append_assoc (ink s) (ink_of_all ss) (ink_of_all ts))

ink-trim_left : (t : List ℕ) → ink (trim_left t) ≡ ink t
unfolding trim_left
ink-trim_left [] = refl
ink-trim_left (c ∷ cs) = ground (arith, ink-trim_left cs)

ink-keep_unless_blank : (c : ℕ) (t : List ℕ) → ink (keep_unless_blank c t) ≡ ink (c ∷ t)
unfolding keep_unless_blank
ink-keep_unless_blank c [] = ground arith
ink-keep_unless_blank c (d ∷ ds) = refl

ink-trim_right : (t : List ℕ) → ink (trim_right t) ≡ ink t
unfolding trim_right
ink-trim_right [] = refl
ink-trim_right (c ∷ cs) =
    ink-keep_unless_blank c (trim_right cs) ∙ ground (arith, ink-trim_right cs)

pub ink-trim_units : (t : List ℕ) → ink (trim_units t) ≡ ink t
unfolding trim_units
ink-trim_units t = ink-trim_right (trim_left t) ∙ ink-trim_left t

ink_of_all-push :
    (c : ℕ) (ss : List (List ℕ)) → ink_of_all (push c ss) ≡ ink (c ∷ []) ++ ink_of_all ss
unfolding push
ink_of_all-push c [] = ground arith
ink_of_all-push c (s ∷ ss) = ground arith

pub ink-split_at_marks : (p : Place) (t : List ℕ) → ink_of_all (split_at_marks p t) ≡ ink t
unfolding split_at_marks
ink-split_at_marks p [] = refl
ink-split_at_marks plain (c ∷ cs) = ground (
  arith,
  ink_of_all-push c (split_at_marks (place_after c) cs),
  ink-split_at_marks (place_after c) cs,
)
ink-split_at_marks after_mark (c ∷ cs) = ground (
  arith,
  ink_of_all-push c (split_at_marks (place_after c) cs),
  ink-split_at_marks (place_after c) cs,
  ink-split_at_marks in_gap cs,
)
ink-split_at_marks in_gap (c ∷ cs) = ground (
  arith,
  ink_of_all-push c (split_at_marks (place_after c) cs),
  ink-split_at_marks (place_after c) cs,
  ink-split_at_marks in_gap cs,
)

pub ink_of_all-keep_units :
    (s : List ℕ) (ss : List (List ℕ)) → ink_of_all (keep_units s ss) ≡ ink s ++ ink_of_all ss
unfolding keep_units
ink_of_all-keep_units [] ss = refl
ink_of_all-keep_units (c ∷ cs) ss = refl

pub ink-trim_all : (ss : List (List ℕ)) → ink_of_all (trim_all ss) ≡ ink_of_all ss
unfolding trim_all
ink-trim_all [] = refl
ink-trim_all (s ∷ ss) =
    ink_of_all-keep_units (trim_units s) (trim_all ss) ∙ rw (ink-trim_units s, ink-trim_all ss) refl

pub ink-take-drop : (n : ℕ) (t : List ℕ) → ink (take n t) ++ ink (drop n t) ≡ ink t
ink-take-drop zero t = refl
ink-take-drop (suc n) [] = refl
ink-take-drop (suc n) (c ∷ cs) = ground (arith, ink-take-drop n cs)
