-- ===== src/RateLimit/Semaphore.antt =====
-- src/ratelimit/semaphore.ts: the FIFO counting semaphore. Each method returns the new state and
-- the promises that it settles, in order. A waiter is an object with an identity, here the number
-- of the call that made it. `makeRelease` closes over a flag of its own: the flags are a store,
-- and a `Release` is its index there. Log lines are not modelled.
pub mod Invariant
pub mod Order
pub mod Once
mod Tests
use voice_order_backend.Base.{
  ℕ, suc, ◌+◌, ◌-◌, ◌≡◌, Bool, true, false, List, [], ◌∷◌, ◌++◌, Option, none, some, length,
  get_elem?, set, has_id, splice_out, ltb, leb, if◌then◌else◌,
}
use voice_order_backend.RateLimit.{
  RejectReason, deadline, queue_full, aborted, Signal, is_aborted, listens, max_queued_waiters,
}

pub record Waiter : Type 0 where
  pub id : ℕ
  -- the delay of the armed deadline timer
  pub deadline_timer : Option ℕ
  -- a listener on the caller's signal is attached
  pub detach_abort : Bool

pub record Semaphore : Type 0 where
  pub permits : ℕ
  pub used : ℕ
  pub queue : List Waiter
  -- `released`, one for each grant so far
  pub flags : List Bool

-- How the promise of call `id` is settled.
pub data Settled : Type 0 where
  granted : ℕ → ℕ → Settled
  rejected : ℕ → RejectReason → Settled

abbrev pub id_of : Waiter → ℕ
id_of w = w.id

pub init : ℕ → Semaphore
init permits = record { permits = permits; used = 0; queue = []; flags = [] }

-- get inUse, get queued
unfoldable pub in_use : Semaphore → ℕ
in_use s = s.used

unfoldable pub queued : Semaphore → ℕ
queued s = length s.queue

-- A new closure with `released = false`; its handle is the number of closures made before.
make_release : Semaphore → Semaphore × ℕ
make_release s = (record s { flags = s.flags ++ false ∷ [] }, length s.flags)

grant : Semaphore → ℕ → Semaphore × List Settled
unfolding make_release
grant s id = let (s', handle) = make_release s in (s', granted id handle ∷ [])

-- `Math.max(0, deadlineAt - now())` is the truncated difference.
new_waiter : ℕ → ℕ → Signal → ℕ → Waiter
new_waiter id deadline_at sig now = record {
  id = id;
  deadline_timer = some (deadline_at - now);
  detach_abort = listens sig;
}

pub acquire : ℕ → ℕ → Signal → ℕ → Semaphore → Semaphore × List Settled
unfolding grant new_waiter
acquire id deadline_at sig now s =
    if is_aborted sig
    then (s, rejected id aborted ∷ [])
    else if ltb s.used s.permits
    then grant (record s { used = s.used + 1 }) id
    else if leb max_queued_waiters (length s.queue)
    then (s, rejected id queue_full ∷ [])
    else (record s { queue = s.queue ++ new_waiter id deadline_at sig now ∷ [] }, [])

-- `queue.shift()` and what follows; the permit goes to the head of the line, or to the pool.
hand_over : List Waiter → Semaphore → Semaphore × List Settled
unfolding grant
hand_over [] s = (record s { used = s.used - 1 }, [])
hand_over (next ∷ rest) s = grant (record s { queue = rest }) next.id

-- The closure of handle `h` is called: a second call changes nothing.
release_flag : Option Bool → ℕ → Semaphore → Semaphore × List Settled
unfolding hand_over
release_flag none h s = (s, [])
release_flag (some true) h s = (s, [])
release_flag (some false) h s = hand_over s.queue (record s { flags = set s.flags h true })

pub release : ℕ → Semaphore → Semaphore × List Settled
unfolding release_flag
release h s = release_flag (get_elem? s.flags h) h s

-- `fail` of a waiter: its deadline timer or its abort listener fires. `remove` disposes of both with
-- the waiter, so what fires later finds nothing.
pub fail : ℕ → RejectReason → Semaphore → Semaphore × List Settled
fail id reason s =
    if has_id id_of id s.queue
    then (record s { queue = splice_out id_of id s.queue }, rejected id reason ∷ [])
    else (s, [])

-- What can happen to a semaphore: a call, a release, a timer, a signal.
pub data Event : Type 0 where
  acquires : ℕ → ℕ → Signal → ℕ → Event
  releases expires aborts : ℕ → Event

pub step : Event → Semaphore → Semaphore × List Settled
unfolding acquire release fail
step (acquires id deadline_at sig now) s = acquire id deadline_at sig now s
step (releases h) s = release h s
step (expires id) s = fail id deadline s
step (aborts id) s = fail id aborted s

pub run : List Event → Semaphore → Semaphore × List Settled
run [] s = (s, [])
run (e ∷ es) s = let (s', out) = step e s in let (s'', outs) = run es s' in (s'', out ++ outs)
