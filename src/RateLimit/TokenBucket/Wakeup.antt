-- ===== src/RateLimit/TokenBucket/Wakeup.antt =====
-- No wakeup of token-bucket.ts is lost: while somebody waits, the one timer is armed, and when it
-- fires the head of the line is paid.
use native.Mathlib.Nat.{div-add-mod, mod-lt, mul-add, mul_comm, zero-mul}
use voice_order_backend.Base.{
  refl, ℕ, ◌+◌, ◌≡◌, List, [], ◌∷◌, arith, ◌≤◌, Option, ◌<◌, none, ◌*◌, some, ◌-◌, ◌/◌, max,
}
use voice_order_backend.Base.Int.{
  ℤ, pos, ◌≤ℤ◌, min_ℤ, int_laws, ◌+ℤ◌, pos_part, ◌-ℤ◌, -ℤ_parts, +ℤ_parts,
}
use voice_order_backend.RateLimit.TokenBucket.Flow.{Flow}
use voice_order_backend.RateLimit.TokenBucket.Invariant.{Fits}
use voice_order_backend.RateLimit.TokenBucket.{
  TokenBucket, Waiter, refill, due, refill_wait, reschedule,
}

-- At `due_at` the penalty is over and the refill since the last mark covers the head's need.
abbrev pub Covers : ℕ → ℕ → TokenBucket → Type 0
Covers due_at need b =
    (b.penalty_until ≤ due_at)
    × (pos need ≤ℤ b.tokens +ℤ pos (b.rate * (due_at - b.last_refill_at)))

abbrev pub ArmedFor : Option ℕ → List Waiter → TokenBucket → Type 0
ArmedFor timer [] b = timer ≡ none
ArmedFor none (w ∷ q) b = ⊥
ArmedFor (some due_at) (w ∷ q) b = Covers due_at w.need b

abbrev pub IsArmed : TokenBucket → Type 0
IsArmed b = ArmedFor b.timer b.queue b

ceil-covers : (d r : ℕ) → 0 < r → d ≤ r * ((d + r - 1) / r)
ceil-covers d r h = omega (arith, div-add-mod (d + r - 1) r, mod-lt (d + r - 1) h)

-- A wait is found, and by its end the refill covers the need.
abbrev Waits : ℕ → ℤ → ℕ → Option ℕ → Type 0
Waits need x r none = ⊥
Waits need x r (some w) = pos need ≤ℤ x +ℤ pos (r * w)

refill_wait-Waits : (need : ℕ) (x : ℤ) (r : ℕ) → 0 < r → Waits need x r (refill_wait need x r)
unfolding refill_wait
refill_wait-Waits need x r h =
    let d = pos_part (pos need -ℤ x) in
    let q = (d + r - 1) / r in
    ground (
      arith,
      ceil-covers d r h,
      -ℤ_parts (pos need) x,
      +ℤ_parts x (pos (r * q)),
      +ℤ_parts x (pos (r * 0)),
    )

longer-covers :
    (need : ℕ) (x : ℤ) (r w v : ℕ)
    → w ≤ v
    → pos need ≤ℤ x +ℤ pos (r * w)
    → pos need ≤ℤ x +ℤ pos (r * v)
longer-covers need x r w v h c = let more : r * w ≤ r * v = grind arith in omega int_laws

-- `reschedule` leaves the timer armed for the head.
module _ (t : ℕ) (b : TokenBucket) (fresh : b.last_refill_at ≡ t) where
  elapsed-add : (v : ℕ) → t + v - b.last_refill_at ≡ v
  elapsed-add v = omega arith

  due-ArmedFor :
      (q : List Waiter) → 0 < b.rate → ArmedFor (due t b.penalty_until b.tokens b.rate q) q b
  unfolding due
  due-ArmedFor [] h = refl
  due-ArmedFor (w ∷ q) h =
      armed (refill_wait w.need b.tokens b.rate) (refill_wait-Waits w.need b.tokens b.rate h)
    where
      armed :
          (o : Option ℕ)
          → Waits w.need b.tokens b.rate o
          → ArmedFor
              (elim o [ none ↦ none | some wait ↦ some (t + max (b.penalty_until - t) wait) ])
              (w ∷ q)
              b
      armed none c = c
      armed (some v) c =
          let u = max (b.penalty_until - t) v in
          (
            omega arith,
            rw (elapsed-add u) (longer-covers w.need b.tokens b.rate v u (omega arith) c),
          )

pub refill-last : (t : ℕ) (b : TokenBucket) → b.last_refill_at ≤ t → (refill t b).last_refill_at ≡ t
unfolding refill
refill-last t b h = ground arith

refill-rate : (t : ℕ) (b : TokenBucket) → (refill t b).rate ≡ b.rate
unfolding refill
refill-rate t b = ground arith

pub reschedule-IsArmed :
    (t : ℕ) (b : TokenBucket) → 0 < b.rate → b.last_refill_at ≤ t → IsArmed (reschedule t b).0
unfolding reschedule
reschedule-IsArmed t b r h =
    due-ArmedFor t (reschedule t b).0 (refill-last t b h) (reschedule t b).0.queue
      (rw (refill-rate t b) r)

capped-covers :
    (cap need z : ℕ) (y : ℤ)
    → need ≤ cap
    → pos need ≤ℤ y +ℤ pos z
    → pos need ≤ℤ min_ℤ (pos cap) y +ℤ pos z
unfolding min_ℤ
capped-covers cap need z y h c = ground (arith, +ℤ_parts y (pos z), +ℤ_parts (pos cap) (pos z))

mul_mono : (r a b : ℕ) → a ≤ b → r * a ≤ r * b
mul_mono r a b h = grind arith

-- What is refilled by `t` and from then to `T` covers the time to `T`, early or late.
reach : (r l t T : ℕ) → l ≤ t → r * (T - l) ≤ (t - l) * r + r * (T - t)
reach r l t T h =
    let steps : T - l ≤ (t - l) + (T - t) = omega arith in
    let scaled = mul_mono r (T - l) ((t - l) + (T - t)) steps in
    omega (arith, mul-add r (t - l) (T - t), mul_comm (t - l) r)

split-covers :
    (need e z l : ℕ) (x : ℤ)
    → l ≤ e + z
    → pos need ≤ℤ x +ℤ pos l
    → pos need ≤ℤ (x +ℤ pos e) +ℤ pos z
split-covers need e z l x h c = omega int_laws

-- A refill on the way keeps the promise of the armed timer, also when the timer is late.
pub refill-Covers :
    (t T need : ℕ) (b : TokenBucket)
    → b.last_refill_at ≤ t
    → need ≤ b.capacity
    → Covers T need b
    → Covers T need (refill t b)
unfolding refill
refill-Covers t T need b h k c =
    let l = b.last_refill_at in
    let e = (t - l) * b.rate in
    let z = b.rate * (T - t) in
    let y = b.tokens +ℤ pos e in
    ground (
      arith,
      capped-covers b.capacity need z y k
          (split-covers need e z (b.rate * (T - l)) b.tokens (reach b.rate l t T h) c.1),
      zero-mul (T - l),
      zero-mul (T - t),
    )

pub refill-ArmedFor :
    (t : ℕ) (timer : Option ℕ) (q : List Waiter) (b : TokenBucket)
    → b.last_refill_at ≤ t
    → Fits b.capacity q
    → ArmedFor timer q b
    → ArmedFor timer q (refill t b)
refill-ArmedFor t timer [] b h f a = a
refill-ArmedFor t none (w ∷ q) b h f a = a
refill-ArmedFor t (some T) (w ∷ q) b h f a = refill-Covers t T w.need b h f.0 a

pub then_reschedule-IsArmed :
    {t : ℕ} {b c : TokenBucket} {o p : ℕ}
    → Flow t b c o p
    → 0 < b.rate
    → b.last_refill_at ≤ t
    → IsArmed (reschedule t c).0
then_reschedule-IsArmed {t} {b} {c} f r h =
    reschedule-IsArmed t c (rw f.rate_kept r) (omega (arith, f.paced))
