-- ===== src/Ordering/State/Tidy.antt =====
-- What normalizing a transcript does to it (normalize-transcript.node.ts).
use Prim.Native.Char.{code}
use Prim.Native.String.{String}
use voice_order_backend.Base.{
  ◌≡◌, ◌⊎◌, refl, sym, ◌∙◌, ap, Bool, true, false, List, [], ◌∷◌, ℕ, codes, is_space, trim,
  trim_start, trim_end, is_empty, Bool-cases, inl, inr, if◌then◌else◌, if◌then◌else◌,
}
use voice_order_backend.Ordering.State.{collapse, normalize_transcript}

-- The characters that are not white space.
abbrev pub ink : List ℕ → List ℕ
ink [] = []
ink (c ∷ cs) = let rest = ink cs in if is_space c then rest else c ∷ rest

-- White space is single blanks; `after` says that one came just before.
abbrev pub IsTight : Bool → List ℕ → Type 0
IsTight after [] = Unit
IsTight after (c ∷ cs) =
    ((is_space c ≡ true) × (after ≡ false) × (c ≡ 32) × IsTight true cs)
    ⊎ ((is_space c ≡ false) × IsTight false cs)

collapse-IsTight : (after : Bool) (s : String) → IsTight after (codes (collapse after s))
unfolding collapse
collapse-IsTight after String.[] = tt
collapse-IsTight true (String.◌∷◌ c s) = elim (Bool-cases (is_space (code c))) [
  | inl b ↦ rw b (collapse-IsTight true s)
  | inr b ↦ rw b (inr (b, collapse-IsTight false s))
]
collapse-IsTight false (String.◌∷◌ c s) = elim (Bool-cases (is_space (code c))) [
  | inl b ↦ rw b (inl (refl, refl, refl, collapse-IsTight true s))
  | inr b ↦ rw b (inr (b, collapse-IsTight false s))
]

ink-collapse : (after : Bool) (s : String) → ink (codes (collapse after s)) ≡ ink (codes s)
unfolding collapse
ink-collapse after String.[] = refl
ink-collapse true (String.◌∷◌ c s) = elim (Bool-cases (is_space (code c))) [
  | inl b ↦ rw b (ink-collapse true s)
  | inr b ↦ rw b (rw b (ap (λ l. code c ∷ l) (ink-collapse false s)))
]
ink-collapse false (String.◌∷◌ c s) = elim (Bool-cases (is_space (code c))) [
  | inl b ↦ rw b (ink-collapse true s)
  | inr b ↦ rw b (rw b (ap (λ l. code c ∷ l) (ink-collapse false s)))
]

ink-cons : (c : ℕ) (cs : List ℕ) → is_space c ≡ false → ink (c ∷ cs) ≡ c ∷ ink cs
ink-cons c cs b = rw b refl

ink-trim_start : (s : String) → ink (codes (trim_start s)) ≡ ink (codes s)
ink-trim_start String.[] = refl
ink-trim_start (String.◌∷◌ c s) = elim (Bool-cases (is_space (code c))) [
  | inl b ↦ rw b (ink-trim_start s)
  | inr b ↦ rw b (ink-cons (code c) (codes s) b)
]

ink-is_empty : (s : String) → is_empty s ≡ true → ink (codes s) ≡ []
ink-is_empty String.[] e = refl
ink-is_empty (String.◌∷◌ c s) e = absurd (cc)

ink-trim_end : (s : String) → ink (codes (trim_end s)) ≡ ink (codes s)
ink-trim_end String.[] = refl
ink-trim_end (String.◌∷◌ c s) =
    let h = ink-trim_end s in
    elim (Bool-cases (is_space (code c))) [
      | inr b ↦ elim (Bool-cases (is_empty (trim_end s))) [
        | inl d ↦ rw (d, b) (ink-cons (code c) (codes (trim_end s)) b ∙ ap (λ l. code c ∷ l) h)
        | inr d ↦ rw (d, b) (ap (λ l. code c ∷ l) h)
      ]
      | inl b ↦ elim (Bool-cases (is_empty (trim_end s))) [
        | inl d ↦ rw (d, b) (sym (ink-is_empty (trim_end s) d) ∙ h)
        | inr d ↦ rw (d, b) h
      ]
    ]

-- The transcript as the agent gets it: the same characters other than white space, in order, and between
-- them no white space but single blanks.
pub record IsTidy (t t' : String) : Type 0 where
  pub same_ink : ink (codes t') ≡ ink (codes t)
  pub tight : IsTight false (codes t')

pub normalize_transcript-IsTidy : (t : String) → IsTidy t (normalize_transcript t)
unfolding normalize_transcript trim
normalize_transcript-IsTidy t = record {
  same_ink = ink-collapse false (trim t) ∙ ink-trim_end (trim_start t) ∙ ink-trim_start t;
  tight = collapse-IsTight false (trim t);
}
