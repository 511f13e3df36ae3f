-- ===== src/RateLimit/TokenBucket.antt =====
-- src/ratelimit/token-bucket.ts: the token bucket. The source counts tokens in floats and refills
-- `elapsed / 1000 * refillPerSec` of them. Here an amount is a whole number of a fraction of a token,
-- chosen so that `rate`, the refill in a millisecond, is whole: rate-limiter.ts refills `limit / 60` a
-- second, which in units of 1/60000 of a token is `limit` units a millisecond. Instants are whole
-- milliseconds, the clock is read once in each call, and rounding of floats is not modelled.
-- Each method returns the new state and what it settles, in order. A timer is the instant at which
-- it is due. Log lines are not modelled.
pub mod Invariant
pub mod Flow
pub mod Rate
pub mod Solvent
pub mod Wakeup
pub mod Liveness
pub mod Order
pub mod Penalty
mod Tests
use voice_order_backend.Base.{
  ℕ, suc, ◌+◌, ◌-◌, ◌*◌, ◌/◌, Bool, true, false, ◌||◌, List, [], ◌∷◌, ◌++◌, Option, none, some,
  length, has_id, splice_out, ltb, leb, ◌==◌, if◌then◌else◌, min, max,
}
use voice_order_backend.Base.Int.{ℤ, pos, negsuc, ◌+ℤ◌, ◌-ℤ◌, min_ℤ, ltb_ℤ, pos_part}
use voice_order_backend.RateLimit.{
  RejectReason, deadline, queue_full, aborted, Signal, is_aborted, listens, max_queued_waiters,
}

pub record Waiter : Type 0 where
  pub id : ℕ
  pub need : ℕ
  pub started_at : ℕ
  pub deadline_timer : Option ℕ
  pub detach_abort : Bool

pub record TokenBucket : Type 0 where
  pub capacity : ℕ
  pub rate : ℕ
  pub tokens : ℤ
  pub last_refill_at : ℕ
  pub penalty_until : ℕ
  pub queue : List Waiter
  pub timer : Option ℕ
  pub warned_oversized_cost : Bool

-- `granted id need waited`: the promise of call `id` resolves with `waited`; the amount that it paid
-- is noted beside. `took n` is a `tryTake` from outside that returned true.
pub data Settled : Type 0 where
  granted : ℕ → ℕ → ℕ → Settled
  rejected : ℕ → RejectReason → Settled
  took : ℕ → Settled

abbrev pub id_of : Waiter → ℕ
id_of w = w.id

pub init : ℕ → ℕ → ℕ → TokenBucket
init capacity rate now = record {
  capacity = capacity;
  rate = rate;
  tokens = pos capacity;
  last_refill_at = now;
  penalty_until = 0;
  queue = [];
  timer = none;
  warned_oversized_cost = false;
}

-- `Math.max(0, t - lastRefillAt)` is the truncated difference; the mark never moves back.
pub refill : ℕ → TokenBucket → TokenBucket
refill t b =
    let elapsed : ℕ = t - b.last_refill_at in
    let b' = record b { last_refill_at = if ltb b.last_refill_at t then t else b.last_refill_at } in
    if elapsed == 0 || b.rate == 0
    then b'
    else record b' { tokens = min_ℤ (pos b.capacity) (b.tokens +ℤ pos (elapsed * b.rate)) }

-- get available, get queued
pub available : ℕ → TokenBucket → TokenBucket × ℤ
available t b = let b' = refill t b in (b', b'.tokens)

unfoldable pub queued : TokenBucket → ℕ
queued b = length b.queue

pub is_empty {ℓ} : {A : Type ℓ} → List A → Bool
is_empty [] = true
is_empty (x ∷ xs) = false

-- `tryTake` of an amount above zero.
pub try_pay : ℕ → ℕ → TokenBucket → TokenBucket × Bool
try_pay n t b =
    let b' = refill t b in
    if ltb t b'.penalty_until
    then (b', false)
    else if is_empty b'.queue
    then (if ltb_ℤ b'.tokens (pos n)
        then (b', false)
        else (record b' { tokens = b'.tokens -ℤ pos n }, true))
    else (b', false)

pub try_take : ℤ → ℕ → TokenBucket → TokenBucket × Bool
try_take (negsuc n) t b = (b, true)
try_take (pos n) t b = if n == 0 then (b, true) else try_pay n t b

-- A cost above the capacity is clamped, with one warning.
pub clamp : ℤ → TokenBucket → TokenBucket × ℕ
clamp cost b =
    let need : ℕ = pos_part cost in
    if leb need b.capacity
    then (b, need)
    else (record b { warned_oversized_cost = true }, b.capacity)

pub record Paid : Type 0 where
  pub tokens : ℤ
  pub queue : List Waiter
  pub settled : List Settled

-- The loop of `reschedule`: while the penalty is over and the head can be paid.
pub pay_out : ℕ → Bool → ℤ → List Waiter → Paid
pay_out t open_ tokens [] = record { tokens = tokens; queue = []; settled = [] }
pay_out t open_ tokens (head ∷ rest) =
    let paid = pay_out t open_ (tokens -ℤ pos head.need) rest in
    if open_
    then (if ltb_ℤ tokens (pos head.need)
        then record { tokens = tokens; queue = head ∷ rest; settled = [] }
        else record paid {
          settled = granted head.id head.need (t - head.started_at) ∷ paid.settled;
        })
    else record { tokens = tokens; queue = head ∷ rest; settled = [] }

-- `Math.ceil(deficit / refillPerSec * 1000)`, in milliseconds; `none` is infinity.
pub refill_wait : ℕ → ℤ → ℕ → Option ℕ
refill_wait need tokens rate =
    if ltb_ℤ tokens (pos need)
    then (if rate == 0 then none else some ((pos_part (pos need -ℤ tokens) + rate - 1) / rate))
    else some 0

-- When the one timer, for the head of the line, is due.
pub due : ℕ → ℕ → ℤ → ℕ → List Waiter → Option ℕ
due t penalty_until tokens rate [] = none
due t penalty_until tokens rate (head ∷ rest) = elim (refill_wait head.need tokens rate) [
  | none ↦ none
  | some wait ↦ some (t + max (penalty_until - t) wait)
]

pub reschedule : ℕ → TokenBucket → TokenBucket × List Settled
reschedule t b =
    let b' = refill t b in
    let paid = pay_out t (leb b'.penalty_until t) b'.tokens b'.queue in
    (
      record b' {
        tokens = paid.tokens;
        queue = paid.queue;
        timer = due t b'.penalty_until paid.tokens b'.rate paid.queue;
      },
      paid.settled,
    )

pub new_waiter : ℕ → ℕ → ℕ → Signal → ℕ → Waiter
new_waiter id need deadline_at sig t = record {
  id = id;
  need = need;
  started_at = t;
  deadline_timer = some (deadline_at - t);
  detach_abort = listens sig;
}

-- A call of `take` that was not paid at once joins the line, if that is not full.
pub wait_in_line : ℕ → ℕ → ℕ → Signal → ℕ → TokenBucket → TokenBucket × List Settled
wait_in_line id need deadline_at sig t b =
    if leb max_queued_waiters (length b.queue)
    then (b, rejected id queue_full ∷ [])
    else reschedule t (record b { queue = b.queue ++ new_waiter id need deadline_at sig t ∷ [] })

pub take : ℕ → ℤ → ℕ → Signal → ℕ → TokenBucket → TokenBucket × List Settled
take id cost deadline_at sig t b =
    let (b', need) = clamp cost b in
    if is_aborted sig
    then (b', rejected id aborted ∷ [])
    else let (b'', taken) = try_take (pos need) t b' in
      if taken then (b'', granted id need 0 ∷ []) else wait_in_line id need deadline_at sig t b''

pub force_take : ℤ → ℕ → TokenBucket → TokenBucket × List Settled
force_take (negsuc n) t b = (b, [])
force_take (pos n) t b =
    if n == 0
    then (b, [])
    else let b' = refill t b in reschedule t (record b' { tokens = b'.tokens -ℤ pos n })

pub refund : ℤ → ℕ → TokenBucket → TokenBucket × List Settled
refund (negsuc n) t b = (b, [])
refund (pos n) t b =
    if n == 0
    then (b, [])
    else let b' = refill t b in
      reschedule t (record b' { tokens = min_ℤ (pos b'.capacity) (b'.tokens +ℤ pos n) })

pub penalize : ℕ → ℕ → TokenBucket → TokenBucket × List Settled
penalize until_ms t b =
    if leb until_ms b.penalty_until
    then (b, [])
    else reschedule t (record b { penalty_until = until_ms })

-- The armed timer fires.
pub fire : ℕ → TokenBucket → TokenBucket × List Settled
fire t b = reschedule t (record b { timer = none })

-- `fail` of a waiter: its deadline timer or its abort listener fires.
pub fail : ℕ → RejectReason → ℕ → TokenBucket → TokenBucket × List Settled
fail id reason t b =
    if has_id id_of id b.queue
    then (let (b', out) = reschedule t (record b { queue = splice_out id_of id b.queue }) in
        (b', rejected id reason ∷ out))
    else (b, [])

pub data Event : Type 0 where
  tries : ℤ → Event
  takes : ℕ → ℤ → ℕ → Signal → Event
  forces refunds : ℤ → Event
  penalizes : ℕ → Event
  fires : Event
  expires aborts : ℕ → Event

-- What happens to a bucket at instant `t`.
pub step : ℕ → Event → TokenBucket → TokenBucket × List Settled
step t (tries n) b =
    let (b', taken) = try_take n t b in (b', if taken then took (pos_part n) ∷ [] else [])
step t (takes id cost deadline_at sig) b = take id cost deadline_at sig t b
step t (forces n) b = force_take n t b
step t (refunds n) b = refund n t b
step t (penalizes until_ms) b = penalize until_ms t b
step t fires b = fire t b
step t (expires id) b = fail id deadline t b
step t (aborts id) b = fail id aborted t b

pub run : List (ℕ × Event) → TokenBucket → TokenBucket × List Settled
run [] b = (b, [])
run ((t, e) ∷ es) b =
    let (b', out) = step t e b in let (b'', outs) = run es b' in (b'', out ++ outs)
