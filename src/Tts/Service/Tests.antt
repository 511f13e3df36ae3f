-- ===== src/Tts/Service/Tests.antt =====
-- Replies spoken one over another (tts-service.ts).
use voice_order_backend.Tts.Service.Live.{IsValid}
use voice_order_backend.Tts.Service.Reach.{run-empty_service-IsValid}
use voice_order_backend.Base.{refl, put, [], get, List, same, ◌∷◌, ◌≡◌, codes}
use voice_order_backend.Tts.Segments.{segment_text, all_pieces, place_after, split_at_marks, pieces}
use voice_order_backend.Base.Units.{
  trim_right, trim_all, trim_left, keep_unless_blank, push, keep_units, trim_units,
}
use voice_order_backend.Tts.Service.{
  not_made, when_waiting, audio_chunk, begin, audio_end, next_segment, audio_start, next_seq, run,
  synthesize, makes, drop_handle, speak, step, abort_stream, leave, idle, chunk_of, made, speaks,
  on_stream, abort_current, Event, empty_service,
}

-- A reply is spoken over another, whose first segment is made after that.
abbrev barge_in : List Event
barge_in =
    speaks "s" "r1" (codes "One. Two.")
    ∷ speaks "s" "r2" (codes "Three.")
    ∷ makes 0 "a1"
    ∷ makes 1 "a2"
    ∷ []

run-empty_service-IsValid_example : IsValid (run barge_in empty_service).0
run-empty_service-IsValid_example = run-empty_service-IsValid barge_in

-- The first reply is not heard: only its start.
overspoken :
    (run barge_in empty_service).1
    ≡ audio_start "s" "r1"
      ∷ synthesize 0 (codes "One.")
      ∷ audio_start "s" "r2"
      ∷ synthesize 1 (codes "Three.")
      ∷ audio_chunk "s" "r2" 0 "a2"
      ∷ audio_end "s" "r2"
      ∷ []
unfolding run step speak begin abort_current on_stream abort_stream when_waiting made not_made
    next_segment chunk_of next_seq leave drop_handle idle get put same segment_text trim_units
    trim_right trim_left keep_unless_blank trim_all keep_units split_at_marks push place_after
    all_pieces pieces
overspoken = refl
