-- ===== src/Voice/Session.antt =====
-- One voice session: src/voice/voice-session.ts, and what the callbacks and methods of
-- src/voice/voice-message-handler.ts do to it. Streams are numbers, and an audio chunk is its text in
-- base 64. A timer is a flag: armed or not.
pub mod Tame
use voice_order_backend.Base.{
  ℕ, Bool, true, false, not, ◌&&◌, ◌||◌, List, [], ◌∷◌, ◌++◌, map, Option, none, some, String, same,
  ltb, length, if◌then◌else◌, is_blank,
}

pub data Status : Type 0 where
  idle listening interrupted ended failed : Status

pub record Session : Type 0 where
  pub session_id : String
  pub cart_id : String
  pub pos_config_id : ℕ
  pub status : Status
  pub stream : Option ℕ
  pub final_received : Bool
  pub stopping : Bool
  pub final_timer : Bool
  pub stop_timer : Bool
  pub last_partial_text : String
  pub pending_audio : List String
  pub retired : Bool
  -- The connect of its stream is under way.
  pub connecting : Bool
  -- The flush of its stream is under way.
  pub flushing : Bool

-- What a session sends: frames to its socket, events to the bus, and calls of its stream.
pub data Out : Type 0 where
  partial_transcript final_transcript : String → String → Out
  transcript_received : String → String → String → ℕ → String → Out
  session_ended : String → String → Out
  voice_error : String → String → String → Out
  voice_stopped : String → String → Out
  send_audio : ℕ → String → Out
  flush_stream close_stream : ℕ → Out

unfoldable pub new_session : String → String → ℕ → Session
new_session session_id cart_id pos_config_id = record {
  session_id = session_id;
  cart_id = cart_id;
  pos_config_id = pos_config_id;
  status = idle;
  stream = none;
  final_received = false;
  stopping = false;
  final_timer = false;
  stop_timer = false;
  last_partial_text = "";
  pending_audio = [];
  retired = false;
  connecting = true;
  flushing = false;
}

unfoldable pub is_over : Status → Bool
is_over idle = false
is_over listening = false
is_over interrupted = true
is_over ended = true
is_over failed = true

unfoldable pub is_listening : Status → Bool
is_listening idle = false
is_listening listening = true
is_listening interrupted = false
is_listening ended = false
is_listening failed = false

unfoldable pub is_failed : Status → Bool
is_failed idle = false
is_failed listening = false
is_failed interrupted = false
is_failed ended = false
is_failed failed = true

unfoldable pub is_ended : Status → Bool
is_ended idle = false
is_ended listening = false
is_ended interrupted = false
is_ended ended = true
is_ended failed = false

-- get isTerminal
unfoldable pub is_terminal : Session → Bool
is_terminal s = s.retired || is_over s.status

unfoldable pub close_of : Option ℕ → List Out
close_of none = []
close_of (some st) = close_stream st ∷ []

unfoldable pub retire : Session → Session × List Out
retire s = if s.retired then (s, []) else (record s { retired = true }, close_of s.stream)

unfoldable pub clear_timers : Session → Session
clear_timers s = record s { final_timer = false; stop_timer = false }

-- `attachStream`, and the flush of the audio that came while it was connecting.
unfoldable pub opened : ℕ → Session → Session × List Out
opened st s =
    if s.connecting
    then (let s' = record s { connecting = false } in
        if s.retired then (s', close_stream st ∷ []) else (
          record s' { stream = some st; pending_audio = []; status = listening },
          map (send_audio st) s.pending_audio,
        ))
    else (s, [])

unfoldable pub arm_idle_stop : Session → Session
arm_idle_stop s = record s { stop_timer = is_listening s.status && not s.stopping }

unfoldable pub on_partial : String → Session → Session × List Out
on_partial text s = if is_terminal s then (s, []) else (
  if not (is_blank text) && not (same text s.last_partial_text)
      then arm_idle_stop (record s { last_partial_text = text })
      else s,
  partial_transcript s.session_id text ∷ [],
)

-- A final that the grace timer waits for ends the session.
unfoldable pub close_out : Session → Session × List Out
close_out s =
    if s.final_timer
    then (
      record s { final_timer = false; status = ended },
      session_ended s.session_id s.cart_id ∷ [],
    )
    else (s, [])

unfoldable pub on_final : String → String → Session → Session × List Out
on_final request_id text s =
    if is_terminal s
    then (s, [])
    else (let (s', out) = close_out (record s { final_received = true }) in
        (
          arm_idle_stop (record s' { last_partial_text = "" }),
          final_transcript s.session_id text
              ∷ transcript_received request_id s.session_id s.cart_id s.pos_config_id text
              ∷ out,
        ))

unfoldable pub on_error : Session → Session × List Out
on_error s =
    let s' = record s { stop_timer = false } in
    if is_terminal s' then (s', []) else (
      record s' { status = failed },
      voice_error s.session_id "stt_failed"
            "Speech recognition disconnected. Please repeat your last sentence."
          ∷ [],
    )

abbrev pub max_pending_audio_chunks : ℕ
max_pending_audio_chunks = 200

unfoldable pub buffer_audio : String → Session → Session
buffer_audio audio s =
    if ltb (length s.pending_audio) max_pending_audio_chunks
    then record s { pending_audio = s.pending_audio ++ audio ∷ [] }
    else s

unfoldable pub send_or_buffer : Option ℕ → String → Session → Session × List Out
send_or_buffer none audio s = (buffer_audio audio s, [])
send_or_buffer (some st) audio s =
    if is_listening s.status then (s, send_audio st audio ∷ []) else (buffer_audio audio s, [])

unfoldable pub audio_chunk : String → Session → Session × List Out
audio_chunk audio s =
    if s.stopping || is_terminal s then (s, []) else send_or_buffer s.stream audio s

-- `stopSession` up to the flush of the stream.
unfoldable pub begin_flush : ℕ → Session → Session × List Out
begin_flush st s =
    (record s { stopping = true; stop_timer = false; flushing = true }, flush_stream st ∷ [])

unfoldable pub stop_stream : Option ℕ → Session → Session × List Out
stop_stream none s = (s, [])
stop_stream (some st) s =
    if s.stopping || s.final_timer || is_ended s.status || is_failed s.status
    then (s, [])
    else begin_flush st s

unfoldable pub stop_session : Session → Session × List Out
stop_session s = stop_stream s.stream s

-- `stopSession` after the flush.
unfoldable pub flushed : Session → Session × List Out
flushed s =
    if s.flushing
    then (let s' = record s { flushing = false } in
        if s.final_received
        then (record s' { status = ended }, session_ended s.session_id s.cart_id ∷ [])
        else (record s' { final_timer = true }, []))
    else (s, [])

-- The grace timer fires.
unfoldable pub grace_fires : Session → Session × List Out
grace_fires s =
    if s.final_timer
    then (let s' = record s { final_timer = false } in
        if s.final_received || is_failed s.status then (s', []) else (
          record s' { status = failed },
          voice_error s.session_id "final_transcript_timeout"
                "I did not catch that. Please try again."
              ∷ [],
        ))
    else (s, [])

-- The stopped-talking timer fires; `current` says whether the registry still has this session.
unfoldable pub idle_fires : Bool → Session → Session × List Out
idle_fires current s =
    if s.stop_timer
    then (let s' = record s { stop_timer = false } in
        if current && is_listening s.status && not s.stopping
        then (let (s'', out) = stop_session s' in (s'', voice_stopped s.session_id "idle" ∷ out))
        else (s', []))
    else (s, [])

unfoldable pub interrupt : Session → Session
interrupt s = if is_listening s.status then record s { status = interrupted } else s
