-- ===== src/Tts/Segments.antt =====
-- src/tts/segment-text.ts: a reply split into pieces to be spoken. A text is the list of its UTF-16 code
-- units, which is what the source's lengths and positions count.
pub mod Lossless
pub mod Sizes
pub mod Pieces
mod Tests
use voice_order_backend.Base.Units.{keep_units, push, trim_all, trim_units}
use voice_order_backend.Base.{
  Option, List, length, suc, some, ◌++◌, ◌||◌, ◌∷◌, ◌==◌, ltb, drop, zero, is_space, if◌then◌else◌,
  [], none, leb, ℕ, take, if◌then◌else◌,
}

-- `/(?<=[.!?])\s+/`: where the walk through the text is.
pub data Place : Type 0 where
  plain after_mark in_gap : Place

unfoldable pub place_after : ℕ → Place
place_after c = if (c == 46) || (c == 33) || (c == 63) then after_mark else plain

-- `trimmed.split(...)`
unfoldable pub split_at_marks : Place → List ℕ → List (List ℕ)
split_at_marks p [] = [] ∷ []
split_at_marks plain (c ∷ cs) = push c (split_at_marks (place_after c) cs)
split_at_marks after_mark (c ∷ cs) =
    let gap = split_at_marks in_gap cs in
    let rest = split_at_marks (place_after c) cs in if is_space c then [] ∷ gap else push c rest
split_at_marks in_gap (c ∷ cs) =
    let gap = split_at_marks in_gap cs in
    let rest = split_at_marks (place_after c) cs in if is_space c then gap else push c rest

abbrev pub max_chars : ℕ
max_chars = 160

-- `rest.lastIndexOf(' ', n)`
unfoldable pub last_space : ℕ → List ℕ → Option ℕ
last_space n [] = none
last_space zero (c ∷ cs) = if c == 32 then some 0 else none
last_space (suc n) (c ∷ cs) = elim (last_space n cs) [
  | some i ↦ some (suc i)
  | none ↦ if c == 32 then some 0 else none
]

-- `space > 0 ? space : MAX_CHARS`
unfoldable pub cut_of : Option ℕ → ℕ
cut_of none = max_chars
cut_of (some zero) = max_chars
cut_of (some (suc i)) = suc i

-- The loop over an over-long sentence. Each round takes at least one unit off, so that the length is
-- fuel enough.
unfoldable pub break_up : ℕ → List ℕ → List (List ℕ)
break_up zero rest = []
break_up (suc fuel) rest =
    let cut = cut_of (last_space max_chars rest) in
    let more = break_up fuel (trim_units (drop cut rest)) in
    if ltb max_chars (length rest) then trim_units (take cut rest) ∷ more else keep_units rest []

-- The body of the loop over the sentences.
unfoldable pub pieces : List ℕ → List (List ℕ)
pieces s = if leb (length s) max_chars then s ∷ [] else break_up (suc (length s)) s

unfoldable pub all_pieces : List (List ℕ) → List (List ℕ)
all_pieces [] = []
all_pieces (s ∷ ss) = pieces s ++ all_pieces ss

unfoldable pub segment_text : List ℕ → List (List ℕ)
segment_text t = elim (trim_units t) [
  | [] ↦ []
  | c ∷ cs ↦ all_pieces (trim_all (split_at_marks plain (c ∷ cs)))
]
