-- ===== src/RateLimit/Limiter/Buckets.antt =====
-- The two buckets of a limiter, as its constructor makes them, and a penalty on both
-- (rate-limiter.ts). An event is what happens to one bucket, or a call of `penalize`.
pub mod Penalized
use voice_order_backend.Base.{
  ℕ, ◌+◌, ◌*◌, List, [], ◌∷◌, ◌++◌, Option, none, some, ltb, if◌then◌else◌, if◌then◌else◌, or_else,
}
use voice_order_backend.RateLimit.Limiter.{RateLimits, has_any_limit}
use voice_order_backend.RateLimit.TokenBucket.{TokenBucket, Settled, Event, init, step, penalize}

pub record Buckets : Type 0 where
  pub rpm : Option TokenBucket
  pub tpm : Option TokenBucket

-- One minute's budget, refilled over the minute, in sixty-thousandths of a token.
unfoldable pub bucket_of : ℕ → ℕ → Option TokenBucket
bucket_of limit now = if ltb 0 limit then some (init (60000 * limit) limit now) else none

unfoldable pub make_buckets : RateLimits → ℕ → Buckets
make_buckets l now = record { rpm = bucket_of l.rpm now; tpm = bucket_of l.tpm now }

-- `this.rpm?.penalize(untilMs)`
unfoldable pub penalize_one : ℕ → ℕ → Option TokenBucket → Option TokenBucket × List Settled
penalize_one until_ms t none = (none, [])
penalize_one until_ms t (some b) = let (b', out) = penalize until_ms t b in (some b', out)

-- `penalize`; with a limit on the calls at once alone there is no bucket to penalize.
unfoldable pub penalize_both : RateLimits → ℕ → ℕ → Buckets → Buckets × List Settled
penalize_both l until_ms t s =
    let (rpm', out) = penalize_one until_ms t s.rpm in
    let (tpm', more) = penalize_one until_ms t s.tpm in
    if has_any_limit l then (record { rpm = rpm'; tpm = tpm' }, out ++ more) else (s, [])

pub data LimiterEvent : Type 0 where
  on_requests on_tokens : Event → LimiterEvent
  penalized : ℕ → LimiterEvent

unfoldable pub step_one : ℕ → Event → Option TokenBucket → Option TokenBucket × List Settled
step_one t e none = (none, [])
step_one t e (some b) = let (b', out) = step t e b in (some b', out)

unfoldable pub step_both : RateLimits → ℕ → LimiterEvent → Buckets → Buckets × List Settled
step_both l t (on_requests e) s = let (b, out) = step_one t e s.rpm in (record s { rpm = b }, out)
step_both l t (on_tokens e) s = let (b, out) = step_one t e s.tpm in (record s { tpm = b }, out)
step_both l t (penalized until_ms) s = penalize_both l until_ms t s

unfoldable pub run_both : RateLimits → List (ℕ × LimiterEvent) → Buckets → Buckets × List Settled
run_both l [] s = (s, [])
run_both l ((t, e) ∷ es) s =
    let (s', out) = step_both l t e s in let (s'', outs) = run_both l es s' in (s'', out ++ outs)
