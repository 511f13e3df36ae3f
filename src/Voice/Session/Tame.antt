-- ===== src/Voice/Session/Tame.antt =====
-- What no callback or method does to a session.
use voice_order_backend.Base.{
  refl, ℕ, ◌≡◌, ◌≤◌, Bool, true, false, ◌||◌, List, [], ◌∷◌, none, some, String, arith, ◌⊎◌, inl,
  inr, Option-cases, ◌==◌, length, length-append, ◌++◌,
}
use voice_order_backend.Voice.Session.{
  Session, Out, close_stream, is_terminal, close_of, retire, clear_timers, opened, arm_idle_stop,
  on_partial, on_final, close_out, on_error, audio_chunk, buffer_audio, send_or_buffer, begin_flush,
  stop_stream, stop_session, flushed, grace_fires, idle_fires, interrupt, max_pending_audio_chunks,
}

abbrev pub is_close : ℕ → Out → Bool
is_close st (close_stream c) = c == st
is_close st _ = false

-- This stream has been closed.
abbrev pub closes : ℕ → List Out → Bool
closes st [] = false
closes st (o ∷ os) = is_close st o || closes st os

pub closes-append : (st : ℕ) (a b : List Out) → closes st (a ++ b) ≡ (closes st a || closes st b)
closes-append st [] b = refl
closes-append st (o ∷ a) b = ground (arith, closes-append st a b)

pub record IsOrderly (s : Session) : Type 0 where
  -- No stream before the connect ends, and no more audio is held back than the cap.
  pub fresh : s.connecting ≡ true → s.stream ≡ none
  pub bounded : length s.pending_audio ≤ max_pending_audio_chunks

-- It stays the session of its socket, does not come back from retirement, and its stream is kept or
-- closed.
pub record IsTame (s : Session) (r : Session × List Out) : Type 0 where
  pub session_id : r.0.session_id ≡ s.session_id
  pub back : r.0.retired ≡ false → s.retired ≡ false
  pub orderly : IsOrderly s → IsOrderly r.0
  pub kept :
      IsOrderly s
      → (st : ℕ) → s.retired ≡ false
      → s.stream ≡ some st
      → ((r.0.retired ≡ false) × (r.0.stream ≡ some st)) ⊎ (closes st r.1 ≡ true)

pub retire-IsTame : (s : Session) → IsTame s (retire s)
unfolding retire close_of
retire-IsTame s = elim (Option-cases s.stream) [
  | inl e ↦ ground (arith, e)
  | inr (st, e) ↦ ground (arith, e)
]

pub opened-IsTame : (st : ℕ) (s : Session) → IsTame s (opened st s)
unfolding opened
opened-IsTame st s = ground arith

-- The stream of a connect that ends is the session's, or is closed.
pub opened-kept :
    (st : ℕ) (s : Session)
    → s.connecting ≡ true
    → (((opened st s).0.retired ≡ false) × ((opened st s).0.stream ≡ some st))
      ⊎ (closes st (opened st s).1 ≡ true)
unfolding opened
opened-kept st s c = ground (arith, c)

pub clear_timers-IsTame : (s : Session) → IsTame s (clear_timers s, [])
unfolding clear_timers
clear_timers-IsTame s = ground arith

pub interrupt-IsTame : (s : Session) → IsTame s (interrupt (clear_timers s), [])
unfolding clear_timers interrupt
interrupt-IsTame s = ground arith

pub on_partial-IsTame : (text : String) (s : Session) → IsTame s (on_partial text s)
unfolding on_partial arm_idle_stop is_terminal
on_partial-IsTame text s = ground arith

pub on_final-IsTame : (r text : String) (s : Session) → IsTame s (on_final r text s)
unfolding on_final arm_idle_stop close_out is_terminal
on_final-IsTame r text s = ground arith

pub on_error-IsTame : (s : Session) → IsTame s (on_error s)
unfolding on_error is_terminal
on_error-IsTame s = ground arith

pub audio_chunk-IsTame : (audio : String) (s : Session) → IsTame s (audio_chunk audio s)
unfolding audio_chunk send_or_buffer buffer_audio is_terminal
audio_chunk-IsTame audio s = ground (arith, length-append s.pending_audio (audio ∷ []))

pub stop_session-IsTame : (s : Session) → IsTame s (stop_session s)
unfolding stop_session stop_stream begin_flush
stop_session-IsTame s = ground arith

pub flushed-IsTame : (s : Session) → IsTame s (flushed s)
unfolding flushed
flushed-IsTame s = ground arith

pub grace_fires-IsTame : (s : Session) → IsTame s (grace_fires s)
unfolding grace_fires
grace_fires-IsTame s = ground arith

pub idle_fires-IsTame : (c : Bool) (s : Session) → IsTame s (idle_fires c s)
unfolding idle_fires stop_session stop_stream begin_flush
idle_fires-IsTame c s = ground arith
