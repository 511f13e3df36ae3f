-- ===== src/Voice/Handler/Streams.antt =====
-- What a run of the handler does with streams, audio and transcripts (voice-message-handler.ts).
use voice_order_backend.Base.{
  ℕ, ◌≡◌, refl, ◌∙◌, ap, true, false, List, [], ◌∷◌, ◌++◌, append_assoc, map, some, String, get,
  length, take, get_elem?, arith, ◌⊎◌, inl, inr, ◌+◌, ◌≤◌, ◌<◌, get_elem?-set_self, append-nil, suc,
  length-append, zero,
}
use voice_order_backend.Voice.Session.{
  Session, new_session, opened, is_over, is_terminal, on_final, audio_chunk, send_or_buffer,
  buffer_audio, send_audio,
}
use voice_order_backend.Voice.Session.Tame.{closes, opened-kept, closes-append}
use voice_order_backend.Voice.Handler.{
  World, empty_world, on_session, Event, opens, finishes, step, run,
}
use voice_order_backend.Voice.Handler.Live.{IsValid, Holds, on_session-some}
use voice_order_backend.Voice.Handler.Reach.{run-Keeps, step-Keeps}

empty_world-IsValid : IsValid empty_world
empty_world-IsValid = record { live = λ k s h r. absurd (cc); orderly = λ k s h. absurd (cc) }

-- In every world that a run from the empty one reaches, a session that is not retired is the one that
-- the registry has for its socket, a session whose connect is under way has no stream, and a session
-- holds back at most 200 audio chunks.
pub run-empty_world-IsValid : (es : List Event) → IsValid (run es empty_world).0
run-empty_world-IsValid es = (run-Keeps es empty_world empty_world-IsValid).valid

reached : List Event → World
reached es = (run es empty_world).0

-- The stream of a connect that ends is the session's, or is closed.
opens-Holds :
    (k st : ℕ) (s : Session) (w : World)
    → get_elem? w.sessions k ≡ some s
    → s.connecting ≡ true
    → Holds st (on_session k (opened st) w).0.sessions
      ⊎ (closes st (on_session k (opened st) w).1 ≡ true)
opens-Holds k st s w e c = rw (on_session-some k (opened st) w s e) (elim (opened-kept st s c) [
  | inl (r, t) ↦ inl (record {
    place = k;
    session = (opened st s).0;
    there = get_elem?-set_self w.sessions k s (opened st s).0 e;
    unretired = r;
    has = t;
  })
  | inr d ↦ inr d
])

-- No stream leaks: in every reachable world, when the connect of a session ends with a stream, then
-- after any further events either a session that is not retired has this stream or the stream has
-- been closed.
pub run-opens :
    (es fs : List Event) (k st : ℕ) (s : Session)
    → get_elem? (run es empty_world).0.sessions k ≡ some s
    → s.connecting ≡ true
    → Holds st (run (opens k st ∷ fs) (run es empty_world).0).0.sessions
      ⊎ (closes st (run (opens k st ∷ fs) (run es empty_world).0).1 ≡ true)
unfolding run step
run-opens es fs k st s e c =
    let w = (run es empty_world).0 in
    let w' = (on_session k (opened st) w).0 in
    let out = (on_session k (opened st) w).1 in
    let v = (step-Keeps (opens k st) w (run-empty_world-IsValid es)).valid in
    elim (opens-Holds k st s w e c) [
      | inl h ↦ elim ((run-Keeps fs w' v).kept st h) [
        | inl h' ↦ inl h'
        | inr d ↦ inr (ground (arith, d, closes-append st out (run fs w').1))
      ]
      | inr d ↦ inr (ground (arith, d, closes-append st out (run fs w').1))
    ]

on_final-live :
    (r text : String) (s : Session) → ((on_final r text s).1 ≡ []) ⊎ (is_terminal s ≡ false)
unfolding on_final
on_final-live r text s = ground arith

-- In every reachable world, a final transcript of a session is dropped, with nothing sent and nothing
-- put on the bus, unless the session is the registry's for its socket and is neither interrupted,
-- ended nor failed.
pub step-finishes :
    (es : List Event) (k : ℕ) (request_id text : String) (s : Session)
    → get_elem? (run es empty_world).0.sessions k ≡ some s
    → ((step (finishes k request_id text) (run es empty_world).0).1 ≡ [])
      ⊎ ((get s.session_id (run es empty_world).0.current ≡ some k) × (is_over s.status ≡ false))
unfolding step is_terminal
step-finishes es k request_id text s e =
    let w = (run es empty_world).0 in
    rw (on_session-some k (on_final request_id text) w s e)
      (elim (on_final-live request_id text s) [
        | inl d ↦ inl d
        | inr d ↦
            let r : s.retired ≡ false = ground (arith, d) in
            inr ((run-empty_world-IsValid es).live k s e r, ground (arith, d))
      ])

unfoldable pub feed : List String → Session → Session
feed [] s = s
feed (a ∷ chunks) s = feed chunks (audio_chunk a s).0

-- Audio that comes while a session is connecting is held back, up to the cap.
module _ (session_id cart_id : String) (pos_config_id : ℕ) where
  holding : List String → Session
  holding p = record (new_session session_id cart_id pos_config_id) { pending_audio = p }

  chunk-held :
      (a : String) (p : List String)
      → length p < 200
      → (audio_chunk a (holding p)).0 ≡ holding (p ++ a ∷ [])
  unfolding audio_chunk holding new_session send_or_buffer buffer_audio is_terminal is_over
  chunk-held a p h = ground (arith, h)

  chunk-dropped :
      (a : String) (p : List String) → 200 ≤ length p → (audio_chunk a (holding p)).0 ≡ holding p
  unfolding audio_chunk holding new_session send_or_buffer buffer_audio is_terminal is_over
  chunk-dropped a p h = ground (arith, h)

  feed-holding :
      (chunks p : List String) (n : ℕ)
      → length p + n ≡ 200
      → feed chunks (holding p) ≡ holding (p ++ take n chunks)
  unfolding feed
  feed-holding [] p zero h = rw (append-nil p) refl
  feed-holding [] p (suc n) h = rw (append-nil p) refl
  feed-holding (a ∷ chunks) p zero h =
      rw (chunk-dropped a p (omega (arith, h))) (feed-holding chunks p zero h)
  feed-holding (a ∷ chunks) p (suc n) h = rw (chunk-held a p (omega (arith, h))) (
      feed-holding chunks (p ++ a ∷ []) n (omega (arith, h, length-append p (a ∷ [])))
      ∙ ap holding (append_assoc p (a ∷ []) (take n chunks)))

  -- Of the audio that comes while the connect of a new session is under way, the first 200 chunks are
  -- sent to the stream when it opens, in the order they came, and the rest is lost.
  pub feed-opened :
      (chunks : List String) (st : ℕ)
      → (opened st (feed chunks (new_session session_id cart_id pos_config_id))).1
        ≡ map (send_audio st) (take 200 chunks)
  unfolding opened holding new_session
  feed-opened chunks st = rw (feed-holding chunks [] 200 refl) refl
