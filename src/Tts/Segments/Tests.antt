-- ===== src/Tts/Segments/Tests.antt =====
-- Replies cut into segments (segment-text.ts).
use voice_order_backend.Tts.Segments.Pieces.{ArePieces, segment_text-ink}
use voice_order_backend.Tts.Segments.{
  all_pieces, cut_of, break_up, place_after, pieces, last_space, split_at_marks, segment_text,
}
use voice_order_backend.Base.Units.{
  keep_units, trim_all, trim_left, trim_right, push, trim_units, keep_unless_blank,
}
use voice_order_backend.Base.{length, codes, refl, zero, ◌∷◌, [], ◌≡◌, suc, List, ℕ, map}
use voice_order_backend.Tts.Segments.Lossless.{ink_of_all, ink}

segment_text-ink_example :
    (ink_of_all (segment_text (codes "It is $2.50. Anything else?"))
      ≡ ink (codes "It is $2.50. Anything else?"))
    × ArePieces (segment_text (codes "It is $2.50. Anything else?"))
segment_text-ink_example = segment_text-ink (codes "It is $2.50. Anything else?")

two_sentences :
    segment_text (codes " It is $2.50.  Yes? ") ≡ codes "It is $2.50." ∷ codes "Yes?" ∷ []
unfolding segment_text trim_units trim_right trim_left keep_unless_blank trim_all keep_units
    split_at_marks push place_after all_pieces pieces
two_sentences = refl

abbrev long : ℕ → List ℕ
long zero = []
long (suc n) = 97 ∷ long n

-- Without a space a long text is cut at 160 units.
hard_cut : map length (segment_text (long 200)) ≡ 160 ∷ 40 ∷ []
unfolding segment_text trim_units trim_right trim_left keep_unless_blank trim_all keep_units
    split_at_marks push place_after all_pieces pieces break_up last_space cut_of
hard_cut = refl
