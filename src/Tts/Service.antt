-- ===== src/Tts/Service.antt =====
-- src/tts/tts-service.ts: the audio of one reply at a time for each session. A controller is its number,
-- and the streams, one for each controller, stay in a list after the map has dropped them. Audio is its
-- text in base 64; audio without bytes is the empty text.
pub mod Live
pub mod Reach
mod Tests
use voice_order_backend.Tts.Segments.{segment_text}
use voice_order_backend.Base.{
  get, ◌+◌, none, String, same, ◌++◌, length, some, set, List, true, delete_key, put, false,
  get_elem?, [], if◌then◌else◌, ℕ, Bool, ◌==◌, ◌∷◌, if◌then◌else◌,
}

-- A running `stream`: the segments after the one that is being made, and the next `seq`.
pub record Stream : Type 0 where
  pub session_id : String
  pub request_id : String
  pub rest : List (List ℕ)
  pub seq : ℕ
  pub aborted : Bool
  -- `synthesize` is under way.
  pub waiting : Bool

pub record Service : Type 0 where
  pub streams : List Stream
  pub inflight : List (String × ℕ)

-- The frames to the session's socket, and the calls of the provider.
pub data Frame : Type 0 where
  audio_start : String → String → Frame
  audio_chunk : String → String → ℕ → String → Frame
  audio_end : String → String → Frame
  tts_error : String → String → String → Frame
  synthesize : ℕ → List ℕ → Frame

abbrev pub empty_service : Service
empty_service = record { streams = []; inflight = [] }

unfoldable pub on_stream : ℕ → (Stream → Stream) → Service → Service
on_stream k f v = elim (get_elem? v.streams k) [
  | none ↦ v
  | some s ↦ record v { streams = set v.streams k (f s) }
]

unfoldable pub abort_stream : Stream → Stream
abort_stream s = record s { aborted = true }

-- `inflight.get(session_id)?.abort()`
unfoldable pub abort_current : String → Service → Service
abort_current session_id v = elim (get session_id v.inflight) [
  | none ↦ v
  | some k ↦ on_stream k abort_stream v
]

-- The `finally` block.
unfoldable pub drop_handle : ℕ → String → Service → Service
drop_handle k session_id v = elim (get session_id v.inflight) [
  | none ↦ v
  | some j ↦ if j == k then record v { inflight = delete_key session_id v.inflight } else v
]

unfoldable pub idle : Stream → Stream
idle s = record s { waiting = false }

-- The stream returns.
unfoldable pub leave : ℕ → Stream → Service → Service
leave k s v = drop_handle k s.session_id (on_stream k idle v)

-- `speak`, up to the first await of `stream`.
unfoldable pub begin : String → String → List ℕ → List (List ℕ) → Service → Service × List Frame
begin session_id request_id segment rest v =
    let v' = abort_current session_id v in
    let k = length v'.streams in
    (
      record {
        streams =
            v'.streams
            ++ record {
              session_id = session_id;
              request_id = request_id;
              rest = rest;
              seq = 0;
              aborted = false;
              waiting = true;
            }
              ∷ [];
        inflight = put session_id k v'.inflight;
      },
      audio_start session_id request_id ∷ synthesize k segment ∷ [],
    )

unfoldable pub speak : String → String → List ℕ → Service → Service × List Frame
speak session_id request_id t v = elim (segment_text t) [
  | [] ↦ (v, [])
  | segment ∷ rest ↦ begin session_id request_id segment rest v
]

unfoldable pub chunk_of : Stream → String → List Frame
chunk_of s audio =
    if same audio "" then [] else audio_chunk s.session_id s.request_id s.seq audio ∷ []

unfoldable pub next_seq : Stream → String → ℕ
next_seq s audio = if same audio "" then s.seq else s.seq + 1

-- The loop after a segment has been made: the next segment, or the end.
unfoldable pub next_segment : ℕ → Stream → String → List (List ℕ) → Service → Service × List Frame
next_segment k s audio [] v =
    (leave k s v, chunk_of s audio ++ audio_end s.session_id s.request_id ∷ [])
next_segment k s audio (segment ∷ rest) v = (
  on_stream k (λ x. record x { rest = rest; seq = next_seq s audio }) v,
  chunk_of s audio ++ synthesize k segment ∷ [],
)

unfoldable pub made : ℕ → Stream → String → Service → Service × List Frame
made k s audio v = if s.aborted then (leave k s v, []) else next_segment k s audio s.rest v

unfoldable pub not_made : ℕ → Stream → String → Service → Service × List Frame
not_made k s message v =
    (leave k s v, if s.aborted then [] else tts_error s.session_id s.request_id message ∷ [])

-- `cancel`
unfoldable pub cancel : String → Service → Service
cancel session_id v = elim (get session_id v.inflight) [
  | none ↦ v
  | some k ↦ record (on_stream k abort_stream v) { inflight = delete_key session_id v.inflight }
]

-- A promise of `synthesize` is settled.
unfoldable pub when_waiting :
    ℕ → (Stream → Service → Service × List Frame) → Service → Service × List Frame
when_waiting k f v = elim (get_elem? v.streams k) [
  | none ↦ (v, [])
  | some s ↦ if s.waiting then f s v else (v, [])
]

pub data Event : Type 0 where
  speaks : String → String → List ℕ → Event
  makes fails : ℕ → String → Event
  cancels : String → Event

unfoldable pub step : Event → Service → Service × List Frame
step (speaks session_id request_id t) v = speak session_id request_id t v
step (makes k audio) v = when_waiting k (λ s. made k s audio) v
step (fails k message) v = when_waiting k (λ s. not_made k s message) v
step (cancels session_id) v = (cancel session_id v, [])

unfoldable pub run : List Event → Service → Service × List Frame
run [] v = (v, [])
run (e ∷ es) v = let (v', out) = step e v in let (v'', outs) = run es v' in (v'', out ++ outs)
