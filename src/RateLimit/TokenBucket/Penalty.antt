-- ===== src/RateLimit/TokenBucket/Penalty.antt =====
-- Penalties of token-bucket.ts.
use voice_order_backend.RateLimit.Semaphore.Invariant.{held}
use voice_order_backend.Base.Int.{ℤ, pos, negsuc, pos_part, min_ℤ, ◌-ℤ◌, ◌+ℤ◌}
use voice_order_backend.Base.{
  ℕ, ◌≡◌, refl, List, arith, inl, inr, ◌≤◌, ◌<◌, true, splice_out, ◌∙◌, Bool-cases, sym, leb,
  length,
}
use voice_order_backend.RateLimit.{
  RejectReason, Signal, deadline, aborted, is_aborted, max_queued_waiters,
}
use voice_order_backend.RateLimit.TokenBucket.{
  TokenBucket, Settled, Event, tries, takes, forces, refunds, penalizes, fires, expires, aborts,
  id_of, refill, try_take, clamp, reschedule, wait_in_line, take, force_take, refund, penalize,
  fire, fail, step, ℤ,
}
use voice_order_backend.RateLimit.TokenBucket.Flow.{spent}
use voice_order_backend.RateLimit.TokenBucket.Order.{refill-line, reschedule-Serves, try_take-line}

-- No tokens are handed out, and the penalty is not shortened.
abbrev pub Holds : TokenBucket → TokenBucket × List Settled → Type 0
Holds b (c, out) = (spent out ≡ 0) × (b.penalty_until ≤ c.penalty_until)

reschedule-penalty : (t : ℕ) (b : TokenBucket) → (reschedule t b).0.penalty_until ≡ b.penalty_until
unfolding reschedule
reschedule-penalty t b = (refill-line t b).1

reschedule-Holds :
    (t : ℕ) (b c : TokenBucket)
    → t < c.penalty_until
    → b.penalty_until ≤ c.penalty_until
    → Holds b (reschedule t c)
reschedule-Holds t b c h k = (rw ((reschedule-Serves t c).1 h) refl, rw (reschedule-penalty t c) k)

-- The rest of a method after a refill.
refilled-Holds :
    (t : ℕ) (b c : TokenBucket)
    → t < b.penalty_until
    → c.penalty_until ≡ (refill t b).penalty_until
    → Holds b (reschedule t c)
refilled-Holds t b c h e =
    let same : c.penalty_until ≡ b.penalty_until = e ∙ (refill-line t b).1 in
    reschedule-Holds t b c (omega arith) (omega arith)

try_take-Holds :
    (n : ℤ) (t : ℕ) (b : TokenBucket)
    → t < b.penalty_until
    → ((try_take n t b).1 ≡ true → pos_part n ≡ 0)
      × ((try_take n t b).0.penalty_until ≡ b.penalty_until)
try_take-Holds (negsuc n) t b h = unfold try_take in (λ e. refl, refl)
try_take-Holds (pos n) t b h = grind (arith, try_take-line n t b)

wait_in_line-Holds :
    (id need deadline_at : ℕ) (sig : Signal) (t : ℕ) (b c : TokenBucket)
    → t < c.penalty_until
    → c.penalty_until ≡ b.penalty_until
    → Holds c (wait_in_line id need deadline_at sig t b)
unfolding wait_in_line
wait_in_line-Holds id need deadline_at sig t b c h e =
    elim (Bool-cases (leb max_queued_waiters (length b.queue))) [
      | inl full ↦ rw full (refl, omega arith)
      | inr room ↦ rw room (reschedule-Holds t c _ (omega arith) (omega arith))
    ]

clamp-penalty : (cost : ℤ) (b : TokenBucket) → (clamp cost b).0.penalty_until ≡ b.penalty_until
unfolding clamp
clamp-penalty cost b = ground arith

take-Holds :
    (id : ℕ) (cost : ℤ) (deadline_at : ℕ) (sig : Signal) (t : ℕ) (b : TokenBucket)
    → t < b.penalty_until
    → Holds b (take id cost deadline_at sig t b)
unfolding take
take-Holds id cost deadline_at sig t b h =
    let c = clamp cost b in
    let l = clamp-penalty cost b in
    let p = try_take (pos c.1) t c.0 in
    let m = try_take-Holds (pos c.1) t c.0 (omega arith) in
    let w = wait_in_line-Holds id c.1 deadline_at sig t p.0 b h (sym (m.1 ∙ l)) in
    elim (Bool-cases (is_aborted sig)) [
      | inl gone ↦ rw gone (refl, omega arith)
      | inr here ↦ rw here (elim (Bool-cases p.1) [
        | inl paid ↦ rw paid (omega (arith, m.0 paid), omega arith)
        | inr unpaid ↦ rw unpaid w
      ])
    ]

force_take-Holds :
    (n : ℤ) (t : ℕ) (b : TokenBucket) → t < b.penalty_until → Holds b (force_take n t b)
unfolding force_take
force_take-Holds (negsuc n) t b h = (refl, omega arith)
force_take-Holds (pos n) t b h =
    let d = refill t b in
    ground (arith, refilled-Holds t b (record d { tokens = d.tokens -ℤ pos n }) h refl)

refund-Holds : (n : ℤ) (t : ℕ) (b : TokenBucket) → t < b.penalty_until → Holds b (refund n t b)
unfolding refund
refund-Holds (negsuc n) t b h = (refl, omega arith)
refund-Holds (pos n) t b h =
    let d = refill t b in
    let x = min_ℤ (pos d.capacity) (d.tokens +ℤ pos n) in
    ground (arith, refilled-Holds t b (record d { tokens = x }) h refl)

fail-Holds :
    (id : ℕ) (r : RejectReason) (t : ℕ) (b : TokenBucket)
    → t < b.penalty_until
    → Holds b (fail id r t b)
unfolding fail
fail-Holds id r t b h =
    ground (arith, reschedule-Holds t b (record b { queue = splice_out id_of id b.queue }) h)

pub penalize-Holds : (u t : ℕ) (b : TokenBucket) → t < b.penalty_until → Holds b (penalize u t b)
unfolding penalize
penalize-Holds u t b h = ground (arith, reschedule-Holds t b (record b { penalty_until = u }))

-- A penalty that lies ahead is in force at once.
pub penalize-Floor :
    (u t : ℕ) (b : TokenBucket)
    → t < u
    → (u ≤ (penalize u t b).0.penalty_until) × (spent (penalize u t b).1 ≡ 0)
unfolding penalize
penalize-Floor u t b h =
    let c = record b { penalty_until = u } in
    let k = reschedule-Holds t c c h (omega arith) in
    elim (Bool-cases (leb u b.penalty_until)) [
      | inl held ↦ rw held (grind arith, refl)
      | inr longer ↦ rw longer (k.1, k.0)
    ]

-- While a penalty is in force no tokens are handed out, and the penalty is not shortened, whatever
-- happens.
pub step-Holds : (t : ℕ) (e : Event) (b : TokenBucket) → t < b.penalty_until → Holds b (step t e b)
unfolding step fire
step-Holds t (tries n) b h = let m = try_take-Holds n t b h in (ground (arith, m), omega arith)
step-Holds t (takes id cost deadline_at sig) b h = take-Holds id cost deadline_at sig t b h
step-Holds t (forces n) b h = force_take-Holds n t b h
step-Holds t (refunds n) b h = refund-Holds n t b h
step-Holds t (penalizes u) b h = penalize-Holds u t b h
step-Holds t fires b h = reschedule-Holds t b _ h (omega arith)
step-Holds t (expires id) b h = fail-Holds id deadline t b h
step-Holds t (aborts id) b h = fail-Holds id aborted t b h
