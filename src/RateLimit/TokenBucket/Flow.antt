-- ===== src/RateLimit/TokenBucket/Flow.antt =====
-- The balance of token-bucket.ts over the parts of its methods: what leaves, what comes back, and what
-- the refill adds meanwhile.
use native.Mathlib.Nat.{mul-add, mul_comm}
use voice_order_backend.Base.{
  ℕ, ◌+◌, ◌≤◌, ◌≡◌, refl, Bool, List, [], ◌∷◌, ◌++◌, arith, ◌∙◌, ◌*◌, ◌-◌, leb, if◌then◌else◌, max,
}
use voice_order_backend.Base.Int.{
  ℤ, pos, negsuc, pos_part, ◌≤ℤ◌, ◌-ℤ◌, ◌+ℤ◌, min_ℤ, min_ℤ-le, int_laws, +ℤ_parts,
}
use voice_order_backend.RateLimit.TokenBucket.{
  TokenBucket, Waiter, Settled, granted, rejected, took, refill, try_pay, try_take, pay_out,
  reschedule,
}

-- The amounts handed out.
abbrev pub spent : List Settled → ℕ
spent [] = 0
spent (granted id need waited ∷ out) = need + spent out
spent (rejected id r ∷ out) = spent out
spent (took n ∷ out) = n + spent out

pub spent-append : (xs ys : List Settled) → spent (xs ++ ys) ≡ spent xs + spent ys
spent-append [] ys = omega arith
spent-append (granted id need waited ∷ xs) ys = omega (arith, spent-append xs ys)
spent-append (rejected id r ∷ xs) ys = spent-append xs ys
spent-append (took n ∷ xs) ys = omega (arith, spent-append xs ys)

-- From `b` to `c` an amount `out` left the bucket and at most `back` came back, beside the refill.
pub record Flow (t : ℕ) (b c : TokenBucket) (out back : ℕ) : Type 0 where
  pub rate_kept : c.rate ≡ b.rate
  pub forward : b.last_refill_at ≤ c.last_refill_at
  pub paced : c.last_refill_at ≤ max b.last_refill_at t
  pub balance :
      c.tokens +ℤ pos out ≤ℤ b.tokens +ℤ pos (b.rate * (c.last_refill_at - b.last_refill_at) + back)

pub Flow-refl :
    {t : ℕ} (b c : TokenBucket)
    → c.tokens ≡ b.tokens
    → c.rate ≡ b.rate
    → c.last_refill_at ≡ b.last_refill_at
    → Flow t b c 0 0
Flow-refl b c e f g = record {
  rate_kept = f;
  forward = omega arith;
  paced = omega arith;
  balance = rw (e, g) (omega int_laws);
}

pub interval : (r x y z : ℕ) → x ≤ y → y ≤ z → r * (z - x) ≡ r * (y - x) + r * (z - y)
interval r x y z h k =
    let parts : z - x ≡ (y - x) + (z - y) = omega arith in rw parts (mul-add r (y - x) (z - y))

pub Flow-trans :
    {t : ℕ} {b c d : TokenBucket} {o p q r o' p' : ℕ}
    → Flow t b c o p
    → Flow t c d q r
    → o' ≡ o + q
    → p' ≡ p + r
    → Flow t b d o' p'
Flow-trans {b} {c} {d} {o} {p} {q} {r} f g e k = record {
  rate_kept = g.rate_kept ∙ f.rate_kept;
  forward = omega arith;
  paced = omega arith;
  balance =
      let split =
        interval b.rate b.last_refill_at c.last_refill_at d.last_refill_at f.forward g.forward in
      let same : c.rate * (d.last_refill_at - c.last_refill_at)
          ≡ b.rate * (d.last_refill_at - c.last_refill_at) =
        rw f.rate_kept in
      rw (e, k) (omega int_laws);
}

pub refill-Flow : (t : ℕ) (b : TokenBucket) → Flow t b (refill t b) 0 0
unfolding refill
refill-Flow t b = ground (
  arith,
  min_ℤ-le (pos b.capacity) (b.tokens +ℤ pos ((t - b.last_refill_at) * b.rate)),
  mul_comm (t - b.last_refill_at) b.rate,
  +ℤ_parts b.tokens (pos 0),
  +ℤ_parts b.tokens (pos (b.rate * (t - b.last_refill_at) + 0)),
  +ℤ_parts b.tokens (pos ((t - b.last_refill_at) * b.rate)),
  +ℤ_parts (min_ℤ (pos b.capacity) (b.tokens +ℤ pos ((t - b.last_refill_at) * b.rate))) (pos 0),
)

-- A payment of `n`, and any change to other fields.
pub pay-Flow :
    {t : ℕ} (b c : TokenBucket) (n : ℕ)
    → c.tokens ≡ b.tokens -ℤ pos n
    → c.rate ≡ b.rate
    → c.last_refill_at ≡ b.last_refill_at
    → Flow t b c n 0
pay-Flow b c n e f g = record {
  rate_kept = f;
  forward = omega arith;
  paced = omega arith;
  balance = rw (e, g) (omega int_laws);
}

sub-sub : (x : ℤ) (a b : ℕ) → x -ℤ pos a -ℤ pos b ≡ x -ℤ pos (a + b)
sub-sub x a b = omega int_laws

sub-zero : (x : ℤ) → x -ℤ pos 0 ≡ x
sub-zero x = omega int_laws

pay_out-spent :
    (t : ℕ) (o : Bool) (x : ℤ) (q : List Waiter)
    → (pay_out t o x q).tokens ≡ x -ℤ pos (spent (pay_out t o x q).settled)
unfolding pay_out
pay_out-spent t o x [] = omega int_laws
pay_out-spent t o x (w ∷ q) =
    let y = x -ℤ pos w.need in
    ground
      (arith, sub-zero x, pay_out-spent t o y q, sub-sub x w.need (spent (pay_out t o y q).settled))

pub reschedule-Flow :
    (t : ℕ) (b : TokenBucket) → Flow t b (reschedule t b).0 (spent (reschedule t b).1) 0
unfolding reschedule
reschedule-Flow t b =
    let b' = refill t b in
    let paid = pay_out-spent t (leb b'.penalty_until t) b'.tokens b'.queue in
    Flow-trans (refill-Flow t b) (pay-Flow b' _ _ paid refl refl) (omega arith) refl

-- A change that touches no token, and then `reschedule`.
pub then_reschedule-Flow :
    (t : ℕ) (b c : TokenBucket) (n m : ℕ)
    → Flow t b c n m
    → (o : ℕ) → o ≡ n + spent (reschedule t c).1
    → Flow t b (reschedule t c).0 o m
then_reschedule-Flow t b c n m f o e = Flow-trans f (reschedule-Flow t c) e (omega arith)

pub try_pay-Flow :
    (n t : ℕ) (b : TokenBucket) → Flow t b (try_pay n t b).0 (if (try_pay n t b).1 then n else 0) 0
unfolding try_pay
try_pay-Flow n t b =
    let f = refill-Flow t b in
    let b' = refill t b in
    let c = record b' { tokens = b'.tokens -ℤ pos n } in
    let paid : Flow t b c n 0 = Flow-trans f (pay-Flow b' c n refl refl refl) (omega arith) refl in
    ground (arith, f, paid)

pub try_take-Flow :
    (n : ℤ) (t : ℕ) (b : TokenBucket)
    → Flow t b (try_take n t b).0 (if (try_take n t b).1 then pos_part n else 0) 0
unfolding try_take
try_take-Flow (negsuc n) t b = Flow-refl b b refl refl refl
try_take-Flow (pos n) t b = ground (arith, try_pay-Flow n t b, Flow-refl b b refl refl refl)
