-- ===== src/Voice/Handler/Tests.antt =====
-- The handler run on concrete events (voice-message-handler.ts).
use voice_order_backend.Base.{◌≡◌, refl, true, false, List, [], ◌∷◌, some, get, ◌⊎◌, map, same, put}
use voice_order_backend.Voice.Session.{
  Session, listening, new_session, opened, is_over, voice_error, retire, close_of, clear_timers,
  on_error, stop_session, stop_stream, begin_flush, flushed, grace_fires, is_terminal, is_ended,
  is_failed,
}
use voice_order_backend.Voice.Session.Tame.{closes}
use voice_order_backend.Voice.Handler.{
  empty_world, Event, starts, opens, errs, stops, flushes, graces, finishes, disconnects, step, run,
  on_session, handle_start, remove, create, on_current, on_socket, flushed,
}
use voice_order_backend.Voice.Handler.Live.{IsValid, Holds}
use voice_order_backend.Voice.Handler.Streams.{run-empty_world-IsValid, run-opens, step-finishes}

-- A socket starts a session and starts another over it, before the first has its stream.
abbrev restarted : List Event
restarted = starts "s" "c" 3 ∷ starts "s" "c" 3 ∷ []

run-empty_world-IsValid_example : IsValid (run (opens 0 7 ∷ restarted) empty_world).0
run-empty_world-IsValid_example = run-empty_world-IsValid (opens 0 7 ∷ restarted)

abbrev second : Session
second = new_session "s" "c" 3

-- The second connect ends with stream 8, and the socket goes.
run-opens_example :
    Holds 8 (run (opens 1 8 ∷ disconnects "s" ∷ []) (run restarted empty_world).0).0.sessions
    ⊎ (closes 8 (run (opens 1 8 ∷ disconnects "s" ∷ []) (run restarted empty_world).0).1 ≡ true)
unfolding run step handle_start remove create on_current new_session on_session get put same
run-opens_example = run-opens restarted (disconnects "s" ∷ []) 1 8 second refl refl

-- A final of the session that was started over.
step-finishes_example :
    ((step (finishes 1 "r" "two coffees") (run restarted empty_world).0).1 ≡ [])
    ⊎ ((get "s" (run restarted empty_world).0.current ≡ some 1) × (is_over second.status ≡ false))
unfolding run step handle_start remove create on_current new_session on_session get put same
step-finishes_example = step-finishes restarted 1 "r" "two coffees" second refl

-- A flush that ends after the socket has started again still leads to an error for the socket.
late_grace :
    (step
      (graces 0)
      (run
        (starts "s" "c" 3 ∷ opens 0 7 ∷ stops "s" ∷ starts "s" "c" 3 ∷ flushes 0 ∷ [])
        empty_world).0).1
    ≡ voice_error "s" "final_transcript_timeout" "I did not catch that. Please try again." ∷ []
unfolding run step handle_start remove create on_current new_session on_session opened on_socket
    stop_session stop_stream begin_flush flushed grace_fires retire close_of clear_timers get put
    same is_ended is_failed
late_grace = refl

-- A session that fails while its connect is under way listens when the stream comes.
revived :
    map (λ s. s.status) (run (starts "s" "c" 3 ∷ errs 0 ∷ opens 0 7 ∷ []) empty_world).0.sessions
    ≡ listening ∷ []
unfolding run step handle_start remove create on_current new_session on_session opened on_error
    is_terminal is_over get
revived = refl
