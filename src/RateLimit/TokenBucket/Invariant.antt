-- ===== src/RateLimit/TokenBucket/Invariant.antt =====
-- Bounds of token-bucket.ts after any history: the balance, the costs in line, the line's length.
use voice_order_backend.Base.{
  ℕ, ◌≤◌, ◌≡◌, refl, Bool, List, [], ◌∷◌, ◌++◌, arith, length, length-append, length-splice_out,
  has_id, splice_out, All, leb, Bool-cases, inl, inr, ◌-◌, ◌*◌,
}
use voice_order_backend.Base.Int.{ℤ, pos, negsuc, ◌≤ℤ◌, ◌-ℤ◌, ◌+ℤ◌, min_ℤ, min_ℤ-le, int_laws}
use voice_order_backend.RateLimit.{RejectReason, Signal, deadline, aborted, max_queued_waiters}
use voice_order_backend.RateLimit.TokenBucket.{
  TokenBucket, Waiter, Event, tries, takes, forces, refunds, penalizes, fires, expires, aborts,
  id_of, init, refill, try_pay, try_take, clamp, pay_out, reschedule, wait_in_line, take,
  force_take, refund, penalize, fire, fail, step, new_waiter,
}

abbrev pub Fits : ℕ → List Waiter → Type 0
Fits cap q = All (λ w. w.need ≤ cap) q

Fits-append : (cap : ℕ) (q r : List Waiter) → Fits cap q → Fits cap r → Fits cap (q ++ r)
Fits-append cap [] r f g = g
Fits-append cap (w ∷ q) r f g = (f.0, Fits-append cap q r f.1 g)

Fits-splice_out : (cap i : ℕ) (q : List Waiter) → Fits cap q → Fits cap (splice_out id_of i q)
Fits-splice_out cap i [] f = tt
Fits-splice_out cap i (w ∷ q) f = ground (arith, Fits-splice_out cap i q f.1)

pub record IsValid (b : TokenBucket) : Type 0 where
  pub within : b.tokens ≤ℤ pos b.capacity
  -- every cost in line can be paid from a full bucket
  pub payable : Fits b.capacity b.queue
  pub bounded : length b.queue ≤ max_queued_waiters

init-IsValid : (capacity rate now : ℕ) → IsValid (init capacity rate now)
unfolding init
init-IsValid capacity rate now = ground arith

refill-IsValid : (t : ℕ) (b : TokenBucket) → IsValid b → IsValid (refill t b)
unfolding refill
refill-IsValid t b v =
    ground (arith, min_ℤ-le (pos b.capacity) (b.tokens +ℤ pos ((t - b.last_refill_at) * b.rate)))

module _ (cap t : ℕ) (o : Bool) where
  pay_out-within : (x : ℤ) (q : List Waiter) → x ≤ℤ pos cap → (pay_out t o x q).tokens ≤ℤ pos cap
  unfolding pay_out
  pay_out-within x [] h = h
  pay_out-within x (w ∷ q) h = ground (arith, pay_out-within (x -ℤ pos w.need) q (omega int_laws))

  pay_out-Fits : (x : ℤ) (q : List Waiter) → Fits cap q → Fits cap (pay_out t o x q).queue
  unfolding pay_out
  pay_out-Fits x [] f = tt
  pay_out-Fits x (w ∷ q) f = ground (arith, pay_out-Fits (x -ℤ pos w.need) q f.1)

  length-pay_out : (x : ℤ) (q : List Waiter) → length (pay_out t o x q).queue ≤ length q
  unfolding pay_out
  length-pay_out x [] = omega arith
  length-pay_out x (w ∷ q) = ground (arith, length-pay_out (x -ℤ pos w.need) q)

reschedule-IsValid : (t : ℕ) (b : TokenBucket) → IsValid b → IsValid (reschedule t b).0
unfolding reschedule
reschedule-IsValid t b v =
    let b' = refill t b in
    let v' = refill-IsValid t b v in
    let o = leb b'.penalty_until t in
    record {
      within = pay_out-within b'.capacity t o b'.tokens b'.queue v'.within;
      payable = pay_out-Fits b'.capacity t o b'.tokens b'.queue v'.payable;
      bounded = omega (arith, length-pay_out b'.capacity t o b'.tokens b'.queue, v'.bounded);
    }

spend-le : (n : ℕ) (x : ℤ) (cap : ℕ) → x ≤ℤ pos cap → x -ℤ pos n ≤ℤ pos cap
spend-le n x cap h = omega int_laws

try_pay-IsValid : (n t : ℕ) (b : TokenBucket) → IsValid b → IsValid (try_pay n t b).0
unfolding try_pay
try_pay-IsValid n t b v =
    let v' = refill-IsValid t b v in
    ground (arith, v', spend-le n (refill t b).tokens (refill t b).capacity)

try_take-IsValid : (n : ℤ) (t : ℕ) (b : TokenBucket) → IsValid b → IsValid (try_take n t b).0
unfolding try_take
try_take-IsValid (negsuc n) t b v = v
try_take-IsValid (pos n) t b v = ground (arith, try_pay-IsValid n t b v)

-- A clamped cost can be paid, and clamping touches nothing but the warning.
pub clamp-IsValid :
    (cost : ℤ) (b : TokenBucket)
    → IsValid b
    → IsValid (clamp cost b).0 × ((clamp cost b).1 ≤ (clamp cost b).0.capacity)
unfolding clamp
clamp-IsValid cost b v = ground arith

try_take-capacity : (n : ℤ) (t : ℕ) (b : TokenBucket) → (try_take n t b).0.capacity ≡ b.capacity
unfolding try_take try_pay refill
try_take-capacity (negsuc n) t b = refl
try_take-capacity (pos n) t b = ground arith

wait_in_line-IsValid :
    (id need deadline_at : ℕ) (sig : Signal) (t : ℕ) (b : TokenBucket)
    → need ≤ b.capacity
    → IsValid b
    → IsValid (wait_in_line id need deadline_at sig t b).0
unfolding wait_in_line new_waiter
wait_in_line-IsValid id need deadline_at sig t b h v =
    let w = new_waiter id need deadline_at sig t in
    elim (Bool-cases (leb max_queued_waiters (length b.queue))) [
      | inl full ↦ rw full v
      | inr room ↦ rw room (
          reschedule-IsValid t (record b { queue = b.queue ++ w ∷ [] })
            (record {
              within = v.within;
              payable = Fits-append b.capacity b.queue (w ∷ []) v.payable (h, tt);
              bounded = ground (arith, length-append b.queue (w ∷ []));
            }))
    ]

take-IsValid :
    (id : ℕ) (cost : ℤ) (deadline_at : ℕ) (sig : Signal) (t : ℕ) (b : TokenBucket)
    → IsValid b
    → IsValid (take id cost deadline_at sig t b).0
unfolding take
take-IsValid id cost deadline_at sig t b v =
    let c = clamp cost b in
    let w = clamp-IsValid cost b v in
    let p = try_take (pos c.1) t c.0 in
    ground (
      arith,
      w,
      try_take-capacity (pos c.1) t c.0,
      try_take-IsValid (pos c.1) t c.0 w.0,
      wait_in_line-IsValid id c.1 deadline_at sig t p.0,
    )

force_take-IsValid : (n : ℤ) (t : ℕ) (b : TokenBucket) → IsValid b → IsValid (force_take n t b).0
unfolding force_take
force_take-IsValid (negsuc n) t b v = v
force_take-IsValid (pos n) t b v =
    let b' = refill t b in
    let v' = refill-IsValid t b v in
    ground (
      arith,
      reschedule-IsValid t (record b' { tokens = b'.tokens -ℤ pos n })
          (record {
            within = spend-le n b'.tokens b'.capacity v'.within;
            payable = v'.payable;
            bounded = v'.bounded;
          }),
    )

refund-IsValid : (n : ℤ) (t : ℕ) (b : TokenBucket) → IsValid b → IsValid (refund n t b).0
unfolding refund
refund-IsValid (negsuc n) t b v = v
refund-IsValid (pos n) t b v =
    let b' = refill t b in
    let v' = refill-IsValid t b v in
    let x = min_ℤ (pos b'.capacity) (b'.tokens +ℤ pos n) in
    ground (
      arith,
      reschedule-IsValid t (record b' { tokens = x })
          (record {
            within = (min_ℤ-le (pos b'.capacity) (b'.tokens +ℤ pos n)).0;
            payable = v'.payable;
            bounded = v'.bounded;
          }),
    )

fail-IsValid :
    (id : ℕ) (r : RejectReason) (t : ℕ) (b : TokenBucket) → IsValid b → IsValid (fail id r t b).0
unfolding fail
fail-IsValid id r t b v = elim (Bool-cases (has_id id_of id b.queue)) [
  | inl here ↦ rw here (
      reschedule-IsValid t _ record {
        within = v.within;
        payable = Fits-splice_out b.capacity id b.queue v.payable;
        bounded = omega (arith, v.bounded, length-splice_out id_of id b.queue here);
      })
  | inr gone ↦ rw gone v
]

penalize-IsValid : (u t : ℕ) (b : TokenBucket) → IsValid b → IsValid (penalize u t b).0
unfolding penalize
penalize-IsValid u t b v = ground (
  arith,
  reschedule-IsValid t (record b { penalty_until = u })
      (record { within = v.within; payable = v.payable; bounded = v.bounded }),
)

-- Whatever happens to a valid bucket, and at whatever reading of the clock, the balance stays within the capacity, every
-- cost in line can be paid from a full bucket, and at most `max_queued_waiters` wait.
pub step-IsValid_bucket : (t : ℕ) (e : Event) (b : TokenBucket) → IsValid b → IsValid (step t e b).0
unfolding step
step-IsValid_bucket t (tries n) b v = try_take-IsValid n t b v
step-IsValid_bucket t (takes id cost deadline_at sig) b v =
    take-IsValid id cost deadline_at sig t b v
step-IsValid_bucket t (forces n) b v = force_take-IsValid n t b v
step-IsValid_bucket t (refunds n) b v = refund-IsValid n t b v
step-IsValid_bucket t (penalizes u) b v = penalize-IsValid u t b v
step-IsValid_bucket t fires b v =
    unfold fire in
    reschedule-IsValid t _ record { within = v.within; payable = v.payable; bounded = v.bounded }
step-IsValid_bucket t (expires id) b v = fail-IsValid id deadline t b v
step-IsValid_bucket t (aborts id) b v = fail-IsValid id aborted t b v
