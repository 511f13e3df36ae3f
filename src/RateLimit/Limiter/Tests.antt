-- ===== src/RateLimit/Limiter/Tests.antt =====
-- Calls through concrete limits (rate-limiter.ts).
use voice_order_backend.RateLimit.TokenBucket.{Event, fires, takes, forces}
use voice_order_backend.RateLimit.TokenBucket.Flow.{spent}
use voice_order_backend.RateLimit.{deadline, no_signal}
use voice_order_backend.Base.Int.{pos}
use voice_order_backend.RateLimit.Limiter.Buckets.{
  run_both, penalized, make_buckets, on_tokens, on_requests,
}
use voice_order_backend.RateLimit.Limiter.Buckets.Penalized.{run_both-penalized}
use voice_order_backend.Base.{◌≡◌, [], some, refl, none, ◌∷◌, same, arith}
use voice_order_backend.RateLimit.Limiter.Balance.{IsAccounted}
use voice_order_backend.RateLimit.Limiter.Accounts.{acquire-IsAccounted}
use voice_order_backend.RateLimit.Arrival.{
  opaque, object, reached_provider, reached_within, is_http_status, never_arrived, has_code,
}
use voice_order_backend.RateLimit.{deadline}
use voice_order_backend.RateLimit.Limiter.{
  release, returned_request, run_limited, RateLimits, empty_lease, abandon, close, abandons,
  permit_stage, tokens_stage, acquire, returned_permit, close_of_run, settles, has_any_limit,
  reject, took_tokens, refunds, reserved_of, took_request, run_granted, Stages, took_permit,
  request_stage, returned_tokens,
}

abbrev limits : RateLimits
limits = record { rpm = 60; tpm = 1000; max_concurrent = 2 }

abbrev no_rejection : Stages
no_rejection = record { request = none; tokens = none; permit = none }

-- A call of 300 tokens that turns out to have cost 500, closed three times.
acquire-IsAccounted_example :
    IsAccounted limits
      (settles (some 500) ∷ abandons ∷ settles none ∷ [])
      (acquire limits 300 no_rejection)
acquire-IsAccounted_example =
    acquire-IsAccounted limits (settles (some 500) ∷ abandons ∷ settles none ∷ []) no_rejection 300

-- A permit that is not granted in time.
late_permit :
    (acquire limits 300 (record no_rejection { permit = some deadline })).0
    ≡ took_request ∷ took_tokens 300 ∷ returned_tokens 300 ∷ returned_request ∷ []
unfolding acquire has_any_limit request_stage tokens_stage permit_stage reject refunds empty_lease
    reserved_of
late_permit = refl

-- A call that a refused connection kept from the provider.
refused_connection :
    run_limited limits 300 no_rejection (some (object none none (some "ECONNREFUSED") opaque))
    ≡ took_request
      ∷ took_tokens 300
      ∷ took_permit
      ∷ returned_tokens 300
      ∷ returned_request
      ∷ returned_permit
      ∷ []
unfolding reached_provider reached_within never_arrived has_code is_http_status same run_limited
    run_granted close_of_run close abandon release acquire has_any_limit request_stage tokens_stage
    permit_stage reject refunds empty_lease reserved_of
refused_connection = refl

-- A request in line when a 429 holds the limiter off for five seconds, and what comes meanwhile.
abbrev queued_request : Event
queued_request = takes 7 (pos 60000) 9000 no_signal

run_both-penalized_example :
    spent
      (run_both limits
        ((100, penalized 5100)
          ∷ (200, on_requests queued_request)
          ∷ (1000, on_requests fires)
          ∷ (4000, on_tokens (forces (pos 60000)))
          ∷ [])
        (run_both limits ((50, on_requests queued_request) ∷ []) (make_buckets limits 0)).0).1
    ≡ 0
run_both-penalized_example =
    run_both-penalized limits 0 5100 100 ((50, on_requests queued_request) ∷ [])
      ((200, on_requests queued_request)
        ∷ (1000, on_requests fires)
        ∷ (4000, on_tokens (forces (pos 60000)))
        ∷ [])
      (omega arith) (omega arith, (omega arith, (omega arith, tt)))
