-- ===== src/RateLimit/Limiter.antt =====
-- src/ratelimit/rate-limiter.ts: one call through the two buckets and the semaphore. What the limiter
-- takes and gives back is the list of its `Op`s. How each stage ends, granted or rejected, is an
-- argument: that is the business of the buckets and the semaphore.
use voice_order_backend.RateLimit.Arrival.{reached_provider, Thrown}
use voice_order_backend.RateLimit.{RejectReason}
use voice_order_backend.Base.{
  [], List, Option, ◌-◌, ◌++◌, ◌&&◌, Bool, none, some, false, ◌||◌, ◌∷◌, ℕ, if◌then◌else◌, ltb,
  true, min, if◌then◌else◌,
}
pub mod Balance
pub mod Accounts
pub mod Buckets
mod Tests

-- 0 is no limit.
pub record RateLimits : Type 0 where
  pub rpm : ℕ
  pub tpm : ℕ
  pub max_concurrent : ℕ

pub data Op : Type 0 where
  took_request returned_request : Op
  took_tokens returned_tokens forced_tokens : ℕ → Op
  took_permit returned_permit : Op

-- `hasAnyLimit`
unfoldable pub has_any_limit : RateLimits → Bool
has_any_limit l = ltb 0 l.rpm || ltb 0 l.tpm || ltb 0 l.max_concurrent

-- How the stages end; the reason of a rejection.
pub record Stages : Type 0 where
  pub request : Option RejectReason
  pub tokens : Option RejectReason
  pub permit : Option RejectReason

-- What an acquire has so far; a lease, with its flag.
pub record Lease : Type 0 where
  pub reserved : ℕ
  pub request : Bool
  pub tokens : ℕ
  pub permit : Bool
  pub done : Bool

unfoldable pub empty_lease : ℕ → Lease
empty_lease reserved = record {
  reserved = reserved;
  request = false;
  tokens = 0;
  permit = false;
  done = false;
}

-- `this.tpm !== null && cost > 0 ? Math.min(cost, this.tpm.capacity) : 0`
unfoldable pub reserved_of : RateLimits → ℕ → ℕ
reserved_of l cost = if ltb 0 l.tpm && ltb 0 cost then min cost l.tpm else 0

-- What a lease gives back to the buckets.
unfoldable pub refunds : Lease → List Op
refunds h =
    (if ltb 0 h.tokens then returned_tokens h.tokens ∷ [] else [])
    ++ (if h.request then returned_request ∷ [] else [])

-- The `catch` block: what is given back, and the reason that is thrown on.
pub data Acquired : Type 0 where
  granted : Lease → Acquired
  rejected : RejectReason → Acquired

unfoldable pub reject : Lease → List Op → RejectReason → List Op × Acquired
reject h ops reason = (ops ++ refunds h, rejected reason)

unfoldable pub permit_stage : RateLimits → Stages → Lease → List Op → List Op × Acquired
permit_stage l o h ops =
    if ltb 0 l.max_concurrent
    then elim o.permit [
      | some reason ↦ reject h ops reason
      | none ↦ (ops ++ took_permit ∷ [], granted (record h { permit = true }))
    ]
    else (ops, granted h)

unfoldable pub tokens_stage : RateLimits → ℕ → Stages → Lease → List Op → List Op × Acquired
tokens_stage l cost o h ops =
    if ltb 0 l.tpm && ltb 0 cost
    then elim o.tokens [
      | some reason ↦ reject h ops reason
      | none ↦
          permit_stage l o (record h { tokens = h.reserved }) (ops ++ took_tokens h.reserved ∷ [])
    ]
    else permit_stage l o h ops

unfoldable pub request_stage : RateLimits → ℕ → Stages → Lease → List Op × Acquired
request_stage l cost o h =
    if ltb 0 l.rpm
    then elim o.request [
      | some reason ↦ reject h [] reason
      | none ↦ tokens_stage l cost o (record h { request = true }) (took_request ∷ [])
    ]
    else tokens_stage l cost o h []

-- `acquire`; NOOP_LEASE without a limit.
unfoldable pub acquire : RateLimits → ℕ → Stages → List Op × Acquired
acquire l cost o =
    if has_any_limit l
    then request_stage l cost o (empty_lease (reserved_of l cost))
    else ([], granted (empty_lease 0))

unfoldable pub release : Lease → List Op
release h = if h.permit then returned_permit ∷ [] else []

-- `actualCost - reserved`, where it is positive.
unfoldable pub reconcile : RateLimits → Lease → Option ℕ → List Op
reconcile l h none = []
reconcile l h (some actual) =
    if ltb 0 l.tpm && ltb h.reserved actual then forced_tokens (actual - h.reserved) ∷ [] else []

unfoldable pub settle : RateLimits → Option ℕ → Lease → Lease × List Op
settle l actual h =
    if h.done then (h, []) else (record h { done = true }, reconcile l h actual ++ release h)

unfoldable pub abandon : Lease → Lease × List Op
abandon h = if h.done then (h, []) else (record h { done = true }, refunds h ++ release h)

-- What the owner of a lease calls.
pub data Close : Type 0 where
  settles : Option ℕ → Close
  abandons : Close

unfoldable pub close : RateLimits → Close → Lease → Lease × List Op
close l (settles actual) h = settle l actual h
close l abandons h = abandon h

unfoldable pub close_all : RateLimits → List Close → Lease → Lease × List Op
close_all l [] h = (h, [])
close_all l (c ∷ cs) h =
    let (h', ops) = close l c h in let (h'', more) = close_all l cs h' in (h'', ops ++ more)

-- `run`: how the function ends.
unfoldable pub close_of_run : Option Thrown → Close
close_of_run none = settles none
close_of_run (some e) = if reached_provider e then settles none else abandons

unfoldable pub run_granted : RateLimits → Option Thrown → List Op × Acquired → List Op
run_granted l end (ops, rejected reason) = ops
run_granted l end (ops, granted h) = ops ++ (close l (close_of_run end) h).1

unfoldable pub run_limited : RateLimits → ℕ → Stages → Option Thrown → List Op
run_limited l cost o end = if has_any_limit l then run_granted l end (acquire l cost o) else []
