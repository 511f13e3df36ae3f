-- ===== src/RateLimit.antt =====
-- Rate shaping for the providers (src/ratelimit). What the parts share: why a caller is refused
-- (errors.ts), the tunables (config/constants.ts, RATE_LIMIT), and what becomes of a call to `take`
-- or `acquire`.
pub mod Arrival
pub mod Estimate
pub mod Limiter
pub mod Registry
pub mod RetryAfter
pub mod Semaphore
pub mod TokenBucket
use voice_order_backend.Base.{ℕ, Bool, true, false, List, [], ◌∷◌}

pub data RejectReason : Type 0 where
  deadline queue_full aborted : RejectReason

abbrev pub max_queued_waiters : ℕ
max_queued_waiters = 256

abbrev pub default_wait_ms : ℕ
default_wait_ms = 1000

-- The state of an `AbortSignal` argument when a call is made: none was given, or one that is or is
-- not aborted yet.
pub data Signal : Type 0 where
  no_signal live_signal aborted_signal : Signal

abbrev pub is_aborted : Signal → Bool
is_aborted aborted_signal = true
is_aborted _ = false

-- `if (signal) addEventListener(…)`.
abbrev pub listens : Signal → Bool
listens no_signal = false
listens _ = true
