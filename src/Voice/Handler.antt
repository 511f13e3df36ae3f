-- ===== src/Voice/Handler.antt =====
-- src/voice/voice-message-handler.ts with src/voice/voice-session-manager.ts. The sessions are objects
-- that closures keep after the registry has dropped them: a session is its place in a list that only
-- grows, and the registry maps a socket to a place.
pub mod Live
pub mod Reach
pub mod Streams
mod Tests
use voice_order_backend.Base.{
  ℕ, Bool, false, List, [], ◌∷◌, ◌++◌, none, some, String, get, put, delete_key, length, get_elem?,
  set, ◌==◌, if◌then◌else◌,
}
use voice_order_backend.Voice.Session.{
  Session, Out, voice_error, new_session, retire, clear_timers, opened, on_partial, on_final,
  on_error, audio_chunk, stop_session, flushed, grace_fires, idle_fires, interrupt,
}

pub record World : Type 0 where
  pub sessions : List Session
  pub current : List (String × ℕ)

abbrev pub empty_world : World
empty_world = record { sessions = []; current = [] }

unfoldable pub on_session : ℕ → (Session → Session × List Out) → World → World × List Out
on_session k f w = elim (get_elem? w.sessions k) [
  | none ↦ (w, [])
  | some s ↦ (record w { sessions = set w.sessions k (f s).0 }, (f s).1)
]

-- `manager.get(session.session_id) === session`
unfoldable pub is_current : ℕ → String → World → Bool
is_current k session_id w = elim (get session_id w.current) [ none ↦ false | some j ↦ j == k ]

-- manager.remove
unfoldable pub remove : String → World → World × List Out
remove session_id w = elim (get session_id w.current) [
  | none ↦ (w, [])
  | some k ↦ on_session k retire (record w { current = delete_key session_id w.current })
]

-- manager.create
unfoldable pub create : Session → World → World
create s w = record {
  sessions = w.sessions ++ s ∷ [];
  current = put s.session_id (length w.sessions) w.current;
}

-- Both timers of a socket's session are disarmed, if it has one.
unfoldable pub on_current : String → (Session → Session) → World → World
on_current session_id f w = elim (get session_id w.current) [
  | none ↦ w
  | some k ↦ (on_session k (λ s. (f s, [])) w).0
]

-- `handleStart` up to the connect of the stream.
pub handle_start : String → String → ℕ → World → World × List Out
handle_start session_id cart_id pos_config_id w =
    let (w', out) = remove session_id (on_current session_id clear_timers w) in
    (create (new_session session_id cart_id pos_config_id) w', out)

-- `retireSession`
unfoldable pub retire_session : ℕ → Session → World → World × List Out
retire_session k s w =
    if is_current k s.session_id w then remove s.session_id w else on_session k retire w

pub open_error : Bool → String → List Out
open_error busy session_id =
    (if busy
      then voice_error session_id "stt_busy"
          "We're a bit busy right now — please try again in a moment."
      else voice_error session_id "stt_failed"
          "Speech recognition is unavailable. Please try again.")
    ∷ []

unfoldable pub connected : Session → Session × List Out
connected s = (record s { connecting = false }, [])

-- The connect of a session's stream fails.
unfoldable pub fail_open : ℕ → Bool → Session → World → World × List Out
fail_open k busy s w =
    if s.connecting
    then (let (w', out) = retire_session k s (on_session k connected w).0 in
        (w', out ++ (if is_current k s.session_id w then open_error busy s.session_id else [])))
    else (w, [])

unfoldable pub open_fails : ℕ → Bool → World → World × List Out
open_fails k busy w = elim (get_elem? w.sessions k) [
  | none ↦ (w, [])
  | some s ↦ fail_open k busy s w
]

unfoldable pub on_socket : String → (Session → Session × List Out) → World → World × List Out
on_socket session_id f w = elim (get session_id w.current) [
  | none ↦ (w, [])
  | some k ↦ on_session k f w
]

-- `stream.stop()` rejects: nothing follows it.
unfoldable pub flush_failed : Session → Session × List Out
flush_failed s = (record s { flushing = false }, [])

unfoldable pub idle_timer : ℕ → World → World × List Out
idle_timer k w = elim (get_elem? w.sessions k) [
  | none ↦ (w, [])
  | some s ↦ on_session k (idle_fires (is_current k s.session_id w)) w
]

pub handle_disconnect : String → World → World × List Out
handle_disconnect session_id w =
    remove session_id (on_current session_id (λ s. interrupt (clear_timers s)) w)

pub data Event : Type 0 where
  starts : String → String → ℕ → Event
  opens : ℕ → ℕ → Event
  refuses : ℕ → Bool → Event
  hears : ℕ → String → Event
  finishes : ℕ → String → String → Event
  errs : ℕ → Event
  sends : String → String → Event
  stops : String → Event
  flushes flush_fails : ℕ → Event
  graces idles : ℕ → Event
  disconnects : String → Event

unfoldable pub step : Event → World → World × List Out
step (starts session_id cart_id pos_config_id) w = handle_start session_id cart_id pos_config_id w
step (opens k st) w = on_session k (opened st) w
step (refuses k busy) w = open_fails k busy w
step (hears k text) w = on_session k (on_partial text) w
step (finishes k request_id text) w = on_session k (on_final request_id text) w
step (errs k) w = on_session k on_error w
step (sends session_id audio) w = on_socket session_id (audio_chunk audio) w
step (stops session_id) w = on_socket session_id stop_session w
step (flushes k) w = on_session k flushed w
step (flush_fails k) w = on_session k flush_failed w
step (graces k) w = on_session k grace_fires w
step (idles k) w = idle_timer k w
step (disconnects session_id) w = handle_disconnect session_id w

unfoldable pub run : List Event → World → World × List Out
run [] w = (w, [])
run (e ∷ es) w = let (w', out) = step e w in let (w'', outs) = run es w' in (w'', out ++ outs)
