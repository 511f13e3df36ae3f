-- ===== src/RateLimit/TokenBucket/Liveness.antt =====
-- token-bucket.ts keeps its timer armed through every event.
use mathlib.Core.Option.{Option, none}
use mathlib.Core.Bool.{Bool, true}
use native.Mathlib.Nat.{mul-zero}
use voice_order_backend.RateLimit.{max_queued_waiters, deadline, aborted, is_aborted}
use voice_order_backend.RateLimit.TokenBucket.Flow.{refill-Flow, Flow, try_take-Flow}
use voice_order_backend.RateLimit.TokenBucket.Wakeup.{
  IsArmed, refill-ArmedFor, reschedule-IsArmed, Covers, ArmedFor, refill-Covers, refill-last,
}
use voice_order_backend.RateLimit.TokenBucket.Invariant.{IsValid, clamp-IsValid, Fits}
use voice_order_backend.Base.{
  ℕ, ◌≡◌, refl, List, [], ◌∷◌, arith, ◌≤◌, ◌<◌, splice_out, Bool-cases, leb, length, inl, inr, some,
  ◌-◌, subst, ◌∙◌, ◌*◌,
}
use voice_order_backend.Base.Int.{ℤ, pos, negsuc, min_ℤ, ◌-ℤ◌, ◌+ℤ◌, ◌≤ℤ◌, int_laws}
use voice_order_backend.RateLimit.TokenBucket.{
  fires, TokenBucket, Waiter, refill, try_pay, try_take, is_empty, Event, take, clamp, penalize,
  force_take, wait_in_line, fail, refund, step, fire, RejectReason, Signal, tries, id_of, takes,
  forces, reschedule, refunds, penalizes, expires, max_queued_waiters, aborts, pay_out, Settled,
  granted,
}

refill-line :
    (t : ℕ) (b : TokenBucket) → ((refill t b).queue ≡ b.queue) × ((refill t b).timer ≡ b.timer)
unfolding refill
refill-line t b = ground arith

refill-IsArmed :
    (t : ℕ) (b : TokenBucket) → b.last_refill_at ≤ t → IsValid b → IsArmed b → IsArmed (refill t b)
refill-IsArmed t b h v a =
    simp ((refill-line t b).0, (refill-line t b).1)
      (refill-ArmedFor t b.timer b.queue b h v.payable a)

-- Paying touches no line: with somebody in it nothing is paid.
try_pay-ArmedFor :
    (n t : ℕ) (q : List Waiter) (b : TokenBucket)
    → (refill t b).queue ≡ q
    → IsArmed (refill t b)
    → IsArmed (try_pay n t b).0
unfolding try_pay is_empty
try_pay-ArmedFor n t [] b e a = ground arith
try_pay-ArmedFor n t (w ∷ q) b e a = ground arith

module _ (t : ℕ) (b : TokenBucket) (r : 0 < b.rate) (h : b.last_refill_at ≤ t) (v : IsValid b)
    (a : IsArmed b) where
  try_take-IsArmed : (n : ℤ) → IsArmed (try_take n t b).0
  unfolding try_take
  try_take-IsArmed (negsuc n) = a
  try_take-IsArmed (pos n) =
      ground (arith, try_pay-ArmedFor n t (refill t b).queue b refl (refill-IsArmed t b h v a))

  -- Whatever the parts of a method do before `reschedule`, they keep the rate and the clock.
  rescheduled-IsArmed :
      (c d : TokenBucket) {o p : ℕ}
      → Flow t b d o p
      → c.rate ≡ d.rate
      → c.last_refill_at ≡ d.last_refill_at
      → IsArmed (reschedule t c).0
  rescheduled-IsArmed c d f e k =
      reschedule-IsArmed t c (omega (arith, f.rate_kept)) (omega (arith, f.paced))

  force_take-IsArmed : (n : ℤ) → IsArmed (force_take n t b).0
  unfolding force_take
  force_take-IsArmed (negsuc n) = a
  force_take-IsArmed (pos n) =
      let d = refill t b in
      ground (
        arith,
        rescheduled-IsArmed (record d { tokens = d.tokens -ℤ pos n }) d (refill-Flow t b) refl refl,
      )

  refund-IsArmed : (n : ℤ) → IsArmed (refund n t b).0
  unfolding refund
  refund-IsArmed (negsuc n) = a
  refund-IsArmed (pos n) =
      let d = refill t b in
      let x = min_ℤ (pos d.capacity) (d.tokens +ℤ pos n) in
      ground (arith, rescheduled-IsArmed (record d { tokens = x }) d (refill-Flow t b) refl refl)

  penalize-IsArmed : (u : ℕ) → IsArmed (penalize u t b).0
  unfolding penalize
  penalize-IsArmed u = ground (arith, reschedule-IsArmed t (record b { penalty_until = u }) r h)

  fail-IsArmed : (id : ℕ) (why : RejectReason) → IsArmed (fail id why t b).0
  unfolding fail
  fail-IsArmed id why =
      ground (arith, reschedule-IsArmed t (record b { queue = splice_out id_of id b.queue }) r h)

clamp-keeps :
    (cost : ℤ) (b : TokenBucket)
    → let c = (clamp cost b).0 in
      (c.rate ≡ b.rate) × (c.last_refill_at ≡ b.last_refill_at) × (IsArmed b → IsArmed c)
unfolding clamp
clamp-keeps cost b = ground arith

wait_in_line-IsArmed :
    (id need deadline_at : ℕ) (sig : Signal) (t : ℕ) (b c : TokenBucket) {o p : ℕ}
    → 0 < c.rate
    → c.last_refill_at ≤ t
    → Flow t c b o p
    → IsArmed b
    → IsArmed (wait_in_line id need deadline_at sig t b).0
unfolding wait_in_line
wait_in_line-IsArmed id need deadline_at sig t b c r h f a =
    elim (Bool-cases (leb max_queued_waiters (length b.queue))) [
      | inl full ↦ rw full a
      | inr room ↦
          rw room (reschedule-IsArmed t _ (omega (arith, f.rate_kept)) (omega (arith, f.paced)))
    ]

take-IsArmed :
    (id : ℕ) (cost : ℤ) (deadline_at : ℕ) (sig : Signal) (t : ℕ) (b : TokenBucket)
    → 0 < b.rate
    → b.last_refill_at ≤ t
    → IsValid b
    → IsArmed b
    → IsArmed (take id cost deadline_at sig t b).0
unfolding take
take-IsArmed id cost deadline_at sig t b r h v a =
    let c = clamp cost b in
    let k = clamp-keeps cost b in
    let w = clamp-IsValid cost b v in
    let p = try_take (pos c.1) t c.0 in
    let r' : 0 < c.0.rate = omega (arith, k.0) in
    let h' : c.0.last_refill_at ≤ t = omega (arith, k.1) in
    let q = try_take-IsArmed t c.0 r' h' w.0 (k.2 a) (pos c.1) in
    let l =
      wait_in_line-IsArmed id c.1 deadline_at sig t p.0 c.0 r' h' (try_take-Flow (pos c.1) t c.0)
        q in
    elim (Bool-cases (is_aborted sig)) [
      | inl gone ↦ rw gone (k.2 a)
      | inr here ↦
          rw here (elim (Bool-cases p.1) [ inl paid ↦ rw paid q | inr unpaid ↦ rw unpaid l ])
    ]

-- While the clock moves forward and the bucket refills, every event on a valid bucket keeps its timer
-- as it should be:
-- off if nobody waits, and else due when the penalty is over and the refill covers the head's need.
pub step-IsArmed :
    (t : ℕ) (e : Event) (b : TokenBucket)
    → 0 < b.rate
    → b.last_refill_at ≤ t
    → IsValid b
    → IsArmed b
    → IsArmed (step t e b).0
unfolding step fire
step-IsArmed t (tries n) b r h v a = try_take-IsArmed t b r h v a n
step-IsArmed t (takes id cost deadline_at sig) b r h v a =
    take-IsArmed id cost deadline_at sig t b r h v a
step-IsArmed t (forces n) b r h v a = force_take-IsArmed t b r h v a n
step-IsArmed t (refunds n) b r h v a = refund-IsArmed t b r h v a n
step-IsArmed t (penalizes u) b r h v a = penalize-IsArmed t b r h v a u
step-IsArmed t fires b r h v a = reschedule-IsArmed t _ r h
step-IsArmed t (expires id) b r h v a = fail-IsArmed t b r h v a id deadline
step-IsArmed t (aborts id) b r h v a = fail-IsArmed t b r h v a id aborted

-- Once the promised instant has come, a refill lets the head be paid.
covered-pays :
    (t T need : ℕ) (b : TokenBucket)
    → b.last_refill_at ≤ t
    → T ≤ t
    → need ≤ b.capacity
    → Covers T need b
    → ((refill t b).penalty_until ≤ t) × (pos need ≤ℤ (refill t b).tokens)
covered-pays t T need b h l k c =
    let c' = refill-Covers t T need b h k c in
    let d = refill t b in
    let none_left : T - d.last_refill_at ≡ 0 = omega (arith, refill-last t b h) in
    let nothing : d.rate * (T - d.last_refill_at) ≡ 0 = rw none_left (mul-zero d.rate) in
    (omega arith, omega int_laws)

armed-head :
    (T : ℕ) (w : Waiter) (q q' : List Waiter) (timer : Option ℕ) (b : TokenBucket)
    → q' ≡ w ∷ q
    → timer ≡ some T
    → ArmedFor timer q' b
    → Covers T w.need b
armed-head T w q [] timer b e k a = ground arith
armed-head T w q (w' ∷ q') none b e k a = ground arith
armed-head T w q (w' ∷ q') (some T') b e k a = ground arith

pay_out-head :
    (t : ℕ) (o : Bool) (x : ℤ) (w : Waiter) (q q' : List Waiter)
    → o ≡ true
    → q' ≡ w ∷ q
    → pos w.need ≤ℤ x
    → (pay_out t o x q').settled
      ≡ granted w.id w.need (t - w.started_at) ∷ (pay_out t true (x -ℤ pos w.need) q).settled
unfolding pay_out
pay_out-head t o x w q q' e k h = rw (e, k) (ground arith)

-- When the timer fires, on time or late and not before the last refill, in a valid bucket whose timer
-- is as it should be, the head of the line is served.
pub fire-serves_head :
    (t T : ℕ) (b : TokenBucket) (w : Waiter) (q : List Waiter)
    → b.last_refill_at ≤ t
    → IsValid b
    → IsArmed b
    → b.queue ≡ w ∷ q
    → b.timer ≡ some T
    → T ≤ t
    → (out : List Settled) × ((step t fires b).1 ≡ granted w.id w.need (t - w.started_at) ∷ out)
unfolding step fire reschedule
fire-serves_head t T b w q h v a e k l =
    let c = record b { timer = none } in
    let fits : w.need ≤ b.capacity = (subst (Fits b.capacity) e v.payable).0 in
    let ready = covered-pays t T w.need c h l fits (armed-head T w q b.queue b.timer b e k a) in
    let d = refill t c in
    (
      (pay_out t true (d.tokens -ℤ pos w.need) q).settled,
      pay_out-head t (leb d.penalty_until t) d.tokens w q d.queue (ground (arith, ready))
          ((refill-line t c).0 ∙ e) ready.1,
    )
