-- ===== src/Stt/Tests.antt =====
-- Runs of a session.
use voice_order_backend.Base.Int.{pos}
use voice_order_backend.RateLimit.Arrival.{opaque}
use voice_order_backend.Base.{
  false, refl, [], List, same, ℕ, some, ◌≡◌, none, ◌∷◌, true, trim, ◌<◌, arith,
}
use voice_order_backend.RateLimit.RetryAfter.{
  header_value, retry_after_ms, no_object, raw_header, is_429,
}
use voice_order_backend.Stt.{
  Event, Turn, run, Clocks, attached, OpenError, stop_ends, open_failed, stop_begins, has_number,
  release_lease, open_fails, penalizes, socket_closes, step, is_over_limit, turn,
}
use voice_order_backend.Stt.Finals.{run-delivers, finals_of, spoken_of}
use voice_order_backend.Stt.Sessions.{run-IsSessionAccounted, IsSessionAccounted}
use voice_order_backend.RateLimit.Limiter.{
  RateLimits, Stages, acquire, empty_lease, settle, release, reconcile,
}
use voice_order_backend.Base.Sort.{InOrder}

abbrev clocks : Clocks
clocks = record { parse_date = λ t. none; wall_now = pos 0; now_ms = 100 }

abbrev limits : RateLimits
limits = record { rpm = 5; tpm = 0; max_concurrent = 2 }

abbrev all_granted : Stages
all_granted = record { request = none; tokens = none; permit = none }

abbrev spoken : ℕ → Turn
spoken n = record {
  transcript = " two teas ";
  end_of_turn = true;
  turn_is_formatted = true;
  turn_order = n;
}

-- The unformatted end of a turn, its formatted end twice, the next turn; then the stop, and the close
-- that it brings about.
abbrev events : List Event
events =
    turn (record (spoken 0) { turn_is_formatted = false })
    ∷ turn (spoken 0)
    ∷ turn (spoken 0)
    ∷ turn (spoken 1)
    ∷ stop_begins
    ∷ socket_closes
    ∷ stop_ends
    ∷ []

run-delivers_example :
    InOrder ◌<◌ (finals_of (run limits clocks events (attached (empty_lease 0))).1)
    × ((n : ℕ)
        → has_number n (finals_of (run limits clocks events (attached (empty_lease 0))).1)
          ≡ has_number n (spoken_of events))
unfolding trim same
run-delivers_example = run-delivers limits clocks events (empty_lease 0) (omega arith)

run-IsSessionAccounted_example :
    IsSessionAccounted limits clocks events (acquire limits 0 all_granted)
run-IsSessionAccounted_example = run-IsSessionAccounted limits clocks all_granted events

-- A service that is over its limit is left alone for five seconds.
abbrev too_many_streams : OpenError
too_many_streams = record { error = opaque; code = some 4102; own = no_object; headers = no_object }

held_off :
    (run limits clocks (open_fails too_many_streams ∷ []) (attached (empty_lease 0))).1
    ≡ penalizes 5100 ∷ []
unfolding run step open_failed is_over_limit is_429 has_number release_lease settle reconcile
    release empty_lease retry_after_ms raw_header header_value
held_off = refl
