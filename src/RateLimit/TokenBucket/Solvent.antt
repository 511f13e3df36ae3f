-- ===== src/RateLimit/TokenBucket/Solvent.antt =====
-- Only `forceTake` puts token-bucket.ts into debt.
use voice_order_backend.Base.{
  ℕ, inl, inr, refl, ◌+◌, ◌≡◌, List, [], ◌∷◌, arith, ◌≤◌, false, Bool, All, Bool-cases, leb, ◌-◌,
  true, splice_out, ◌*◌, length, inl,
}
use voice_order_backend.Base.Int.{
  ℤ, pos, negsuc, ◌≤ℤ◌, min_ℤ, ltb_ℤ, ◌+ℤ◌, +ℤ_parts, ◌-ℤ◌, -ℤ_parts,
}
use voice_order_backend.RateLimit.{Signal, max_queued_waiters}
use voice_order_backend.RateLimit.TokenBucket.{
  TokenBucket, Waiter, Event, tries, takes, forces, refunds, penalizes, fires, expires, aborts,
  id_of, init, refill, try_pay, try_take, clamp, pay_out, reschedule, wait_in_line, take, refund,
  penalize, fire, fail, step, run,
}
use voice_order_backend.RateLimit.TokenBucket.Flow.{spent}
use voice_order_backend.RateLimit.TokenBucket.Rate.{charge, Until, charges, credits, run-init-spent}

abbrev pub IsSolvent : TokenBucket → Type 0
IsSolvent b = pos 0 ≤ℤ b.tokens

min_ℤ-nonneg : (cap : ℕ) (x : ℤ) (n : ℕ) → pos 0 ≤ℤ x → pos 0 ≤ℤ min_ℤ (pos cap) (x +ℤ pos n)
unfolding min_ℤ
min_ℤ-nonneg cap x n h = ground (arith, +ℤ_parts x (pos n))

refill-IsSolvent : (t : ℕ) (b : TokenBucket) → IsSolvent b → IsSolvent (refill t b)
unfolding refill
refill-IsSolvent t b v =
    ground (arith, min_ℤ-nonneg b.capacity b.tokens ((t - b.last_refill_at) * b.rate))

spend-nonneg : (x : ℤ) (n : ℕ) → ltb_ℤ x (pos n) ≡ false → pos 0 ≤ℤ x -ℤ pos n
spend-nonneg x n h = ground (arith, -ℤ_parts x (pos n))

pay_out-nonneg :
    (t : ℕ) (o : Bool) (x : ℤ) (q : List Waiter) → pos 0 ≤ℤ x → pos 0 ≤ℤ (pay_out t o x q).tokens
unfolding pay_out
pay_out-nonneg t o x [] h = h
pay_out-nonneg t o x (w ∷ q) h =
    ground (arith, spend-nonneg x w.need, pay_out-nonneg t o (x -ℤ pos w.need) q)

reschedule-IsSolvent : (t : ℕ) (b : TokenBucket) → IsSolvent b → IsSolvent (reschedule t b).0
unfolding reschedule
reschedule-IsSolvent t b v =
    let b' = refill t b in
    pay_out-nonneg t (leb b'.penalty_until t) b'.tokens b'.queue (refill-IsSolvent t b v)

try_take-IsSolvent : (n : ℤ) (t : ℕ) (b : TokenBucket) → IsSolvent b → IsSolvent (try_take n t b).0
unfolding try_take try_pay
try_take-IsSolvent (negsuc n) t b v = v
try_take-IsSolvent (pos n) t b v =
    ground (arith, refill-IsSolvent t b v, spend-nonneg (refill t b).tokens n)

wait_in_line-IsSolvent :
    (id need deadline_at : ℕ) (sig : Signal) (t : ℕ) (b : TokenBucket)
    → IsSolvent b
    → IsSolvent (wait_in_line id need deadline_at sig t b).0
unfolding wait_in_line
wait_in_line-IsSolvent id need deadline_at sig t b v =
    elim (Bool-cases (leb max_queued_waiters (length b.queue))) [
      | inl full ↦ rw full v
      | inr room ↦ rw room (reschedule-IsSolvent t _ v)
    ]

take-IsSolvent :
    (id : ℕ) (cost : ℤ) (deadline_at : ℕ) (sig : Signal) (t : ℕ) (b : TokenBucket)
    → IsSolvent b
    → IsSolvent (take id cost deadline_at sig t b).0
unfolding take clamp
take-IsSolvent id cost deadline_at sig t b v =
    let c = clamp cost b in
    let p = try_take (pos c.1) t c.0 in
    ground (
      arith,
      try_take-IsSolvent (pos c.1) t c.0,
      wait_in_line-IsSolvent id c.1 deadline_at sig t p.0,
    )

refund-IsSolvent : (n : ℤ) (t : ℕ) (b : TokenBucket) → IsSolvent b → IsSolvent (refund n t b).0
unfolding refund
refund-IsSolvent (negsuc n) t b v = v
refund-IsSolvent (pos n) t b v =
    let b' = refill t b in
    let c = record b' { tokens = min_ℤ (pos b'.capacity) (b'.tokens +ℤ pos n) } in
    ground (
      arith,
      reschedule-IsSolvent t c (min_ℤ-nonneg b'.capacity b'.tokens n (refill-IsSolvent t b v)),
    )

abbrev pub is_force : Event → Bool
is_force (forces n) = true
is_force _ = false

step-IsSolvent :
    (t : ℕ) (e : Event) (b : TokenBucket)
    → is_force e ≡ false
    → IsSolvent b
    → IsSolvent (step t e b).0
unfolding step fire
step-IsSolvent t (tries n) b f v = try_take-IsSolvent n t b v
step-IsSolvent t (takes id cost deadline_at sig) b f v =
    take-IsSolvent id cost deadline_at sig t b v
step-IsSolvent t (forces n) b f v = absurd (cc)
step-IsSolvent t (refunds n) b f v = refund-IsSolvent n t b v
step-IsSolvent t (penalizes u) b f v =
    unfold penalize in ground (arith, reschedule-IsSolvent t (record b { penalty_until = u }) v)
step-IsSolvent t fires b f v = reschedule-IsSolvent t _ v
step-IsSolvent t (expires id) b f v =
    unfold fail in
    ground (arith, reschedule-IsSolvent t (record b { queue = splice_out id_of id b.queue }) v)
step-IsSolvent t (aborts id) b f v =
    unfold fail in
    ground (arith, reschedule-IsSolvent t (record b { queue = splice_out id_of id b.queue }) v)

abbrev pub NoForce : List (ℕ × Event) → Type 0
NoForce es = All (λ (te : ℕ × Event). is_force te.1 ≡ false) es

run-IsSolvent :
    (es : List (ℕ × Event)) (b : TokenBucket) → NoForce es → IsSolvent b → IsSolvent (run es b).0
unfolding run
run-IsSolvent [] b n v = v
run-IsSolvent ((t, e) ∷ es) b n v = run-IsSolvent es (step t e b).0 n.1 (step-IsSolvent t e b n.0 v)

charge-zero : (e : Event) → is_force e ≡ false → charge e ≡ 0
charge-zero (forces n) f = absurd (cc)
charge-zero _ f = refl

charges-zero : (es : List (ℕ × Event)) → NoForce es → charges es ≡ 0
charges-zero [] n = refl
charges-zero ((t, e) ∷ es) n = omega (arith, charge-zero e n.0, charges-zero es n.1)

-- The rate guarantee: with no forced charge and no event after `horizon`, a new bucket hands out at
-- most its capacity, the refill of the time since it was made, and what was given back.
pub run-init-spent-le :
    (capacity rate now horizon : ℕ) (es : List (ℕ × Event))
    → now ≤ horizon
    → Until horizon es
    → NoForce es
    → spent (run es (init capacity rate now)).1 ≤ capacity + rate * (horizon - now) + credits es
unfolding init
run-init-spent-le capacity rate now horizon es h u n =
    let v = run-IsSolvent es (init capacity rate now) n (omega arith) in
    let bound = run-init-spent capacity rate now horizon es h u in
    ground (arith, v, bound, charges-zero es n)
