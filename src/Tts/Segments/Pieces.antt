-- ===== src/Tts/Segments/Pieces.antt =====
-- The pieces of a reply (segment-text.ts).
use voice_order_backend.Tts.Segments.Sizes.{
  StartsInked, length-take, trim_units-StartsInked, length-trim_units, cut_of-bounds,
}
use voice_order_backend.Tts.Segments.Lossless.{
  ink-trim_all, ink-take-drop, ink_of_all-keep_units, ink-trim_units, ink-split_at_marks,
  ink_of_all, ink_of_all-append, ink,
}
use voice_order_backend.Tts.Segments.{
  segment_text, split_at_marks, break_up, cut_of, last_space, pieces, all_pieces, plain,
}
use voice_order_backend.Base.Units.{trim_units, keep_units, trim_all}
use voice_order_backend.Base.{
  ◌∙◌, refl, leb, ◌∷◌, ◌≡◌, List, ◌++◌, append-nil, ◌≤◌, drop, zero, suc, ℕ, sym, inl, inr, ltb, [],
  take, length, arith, length-drop, Bool-cases, List-cases, ◌<◌, ap,
}

-- A piece that may be spoken.
abbrev pub IsPiece : List ℕ → Type 0
IsPiece s = (0 < length s) × (length s ≤ 160)

abbrev pub ArePieces : List (List ℕ) → Type 0
ArePieces [] = Unit {0}
ArePieces (s ∷ ss) = IsPiece s × ArePieces ss

ArePieces-append : (ss ts : List (List ℕ)) → ArePieces ss → ArePieces ts → ArePieces (ss ++ ts)
ArePieces-append [] ts h k = k
ArePieces-append (s ∷ ss) ts (a, h) k = (a, ArePieces-append ss ts h k)

trim_units-pos : (t : List ℕ) → 0 < length (ink t) → 0 < length (trim_units t)
trim_units-pos t h = elim (List-cases (trim_units t)) [
  | inl e ↦ ground (arith, e, ink-trim_units t, h)
  | inr (c, cs, e) ↦ rw e (omega arith)
]

-- The part before the cut keeps its first unit.
take-pos : (n : ℕ) (t : List ℕ) → StartsInked t → 1 ≤ n → 0 < length t → 0 < length (ink (take n t))
take-pos zero t s h k = ground (arith, h)
take-pos (suc n) [] s h k = ground (arith, k)
take-pos (suc n) (c ∷ cs) s h k = rw s (omega arith)

module _ (fuel : ℕ) (rest : List ℕ) (h : length rest ≤ fuel) where
  shorter :
      160 < length rest → length (trim_units (drop (cut_of (last_space 160 rest)) rest)) < fuel
  shorter l =
      let b = cut_of-bounds rest in
      omega (
        arith,
        b,
        l,
        h,
        length-trim_units (drop (cut_of (last_space 160 rest)) rest),
        length-drop (cut_of (last_space 160 rest)) rest,
      )

ink-break_up :
    (fuel : ℕ) (rest : List ℕ) → length rest < fuel → ink_of_all (break_up fuel rest) ≡ ink rest
unfolding break_up
ink-break_up zero rest h = ground (arith, h)
ink-break_up (suc fuel) rest h =
    let cut = cut_of (last_space 160 rest) in
    elim (Bool-cases (ltb 160 (length rest))) [
      | inr b ↦ rw b (ink_of_all-keep_units rest [] ∙ append-nil (ink rest))
      | inl b ↦
          let l : 160 < length rest = ground (arith, b) in
          let k =
            ink-break_up fuel (trim_units (drop cut rest))
              (shorter fuel rest (omega (arith, h)) l) in
          rw (b, k, ink-trim_units (take cut rest), ink-trim_units (drop cut rest))
            (ink-take-drop cut rest)
    ]

keep_units-ArePieces : (s : List ℕ) → length s ≤ 160 → ArePieces (keep_units s [])
unfolding keep_units
keep_units-ArePieces [] h = tt
keep_units-ArePieces (c ∷ cs) h = ((omega arith, h), tt)

break_up-ArePieces :
    (fuel : ℕ) (rest : List ℕ)
    → length rest < fuel
    → StartsInked rest
    → ArePieces (break_up fuel rest)
unfolding break_up
break_up-ArePieces zero rest h s = tt
break_up-ArePieces (suc fuel) rest h s =
    let cut = cut_of (last_space 160 rest) in
    elim (Bool-cases (ltb 160 (length rest))) [
      | inr b ↦ rw b (keep_units-ArePieces rest (ground (arith, b)))
      | inl b ↦
          let l : 160 < length rest = ground (arith, b) in
          let k =
            break_up-ArePieces fuel (trim_units (drop cut rest))
              (shorter fuel rest (omega (arith, h)) l) (trim_units-StartsInked (drop cut rest)) in
          let c = cut_of-bounds rest in
          rw b (
            (
              trim_units-pos (take cut rest) (take-pos cut rest s c.0 (omega (arith, l))),
              omega (arith, c.1, length-trim_units (take cut rest), length-take cut rest),
            ),
            k,
          )
    ]

-- A sentence that has been trimmed, and is not empty.
abbrev IsSentence : List ℕ → Type 0
IsSentence s = StartsInked s × (0 < length s)

abbrev AreSentences : List (List ℕ) → Type 0
AreSentences [] = Unit {0}
AreSentences (s ∷ ss) = IsSentence s × AreSentences ss

keep_units-AreSentences :
    (s : List ℕ) (ss : List (List ℕ))
    → StartsInked s
    → AreSentences ss
    → AreSentences (keep_units s ss)
unfolding keep_units
keep_units-AreSentences [] ss h k = k
keep_units-AreSentences (c ∷ cs) ss h k = ((h, omega arith), k)

trim_all-AreSentences : (ss : List (List ℕ)) → AreSentences (trim_all ss)
unfolding trim_all
trim_all-AreSentences [] = tt
trim_all-AreSentences (s ∷ ss) =
    keep_units-AreSentences (trim_units s) (trim_all ss) (trim_units-StartsInked s)
      (trim_all-AreSentences ss)

pieces-ArePieces : (s : List ℕ) → IsSentence s → ArePieces (pieces s)
unfolding pieces
pieces-ArePieces s (h, k) = elim (Bool-cases (leb (length s) 160)) [
  | inl b ↦ rw b ((k, ground (arith, b)), tt)
  | inr b ↦ rw b (break_up-ArePieces (suc (length s)) s (omega arith) h)
]

ink-pieces : (s : List ℕ) → ink_of_all (pieces s) ≡ ink s
unfolding pieces
ink-pieces s = elim (Bool-cases (leb (length s) 160)) [
  | inl b ↦ rw b (append-nil (ink s))
  | inr b ↦ rw b (ink-break_up (suc (length s)) s (omega arith))
]

all_pieces-ArePieces : (ss : List (List ℕ)) → AreSentences ss → ArePieces (all_pieces ss)
unfolding all_pieces
all_pieces-ArePieces [] h = tt
all_pieces-ArePieces (s ∷ ss) (h, k) =
    ArePieces-append (pieces s) (all_pieces ss) (pieces-ArePieces s h) (all_pieces-ArePieces ss k)

ink-all_pieces : (ss : List (List ℕ)) → ink_of_all (all_pieces ss) ≡ ink_of_all ss
unfolding all_pieces
ink-all_pieces [] = refl
ink-all_pieces (s ∷ ss) =
    ink_of_all-append (pieces s) (all_pieces ss) ∙ rw (ink-pieces s, ink-all_pieces ss) refl

-- However long a reply is, its segments, joined, are the reply up to white space, in order, and each
-- has at least one and at most 160 code units.
pub segment_text-ink :
    (t : List ℕ) → (ink_of_all (segment_text t) ≡ ink t) × ArePieces (segment_text t)
unfolding segment_text
segment_text-ink t = elim (List-cases (trim_units t)) [
  | inl e ↦ rw (e, segment_text) (rw⁻¹ (ink-trim_units t) (rw e refl), tt)
  | inr (c, cs, e) ↦
      let ss = trim_all (split_at_marks plain (c ∷ cs)) in
      rw (e, segment_text)
        (
          ink-all_pieces ss
              ∙ ink-trim_all (split_at_marks plain (c ∷ cs))
              ∙ ink-split_at_marks plain (c ∷ cs)
              ∙ ap ink (sym e)
              ∙ ink-trim_units t,
          all_pieces-ArePieces ss (trim_all-AreSentences (split_at_marks plain (c ∷ cs))),
        )
]
