-- ===== src/RateLimit/Limiter/Buckets/Penalized.antt =====
-- A penalty on a limiter (rate-limiter.ts).
use voice_order_backend.Base.{
  ℕ, ◌≡◌, refl, List, [], ◌∷◌, ◌++◌, Option, none, some, arith, inl, inr, ◌≤◌, ◌<◌, false,
  Bool-cases, All,
}
use voice_order_backend.RateLimit.Limiter.{RateLimits, has_any_limit}
use voice_order_backend.RateLimit.TokenBucket.{TokenBucket, Settled, Event}
use voice_order_backend.RateLimit.TokenBucket.Flow.{spent, spent-append}
use voice_order_backend.RateLimit.TokenBucket.Penalty.{step-Holds, penalize-Floor, penalize-Holds}
use voice_order_backend.RateLimit.Limiter.Buckets.{
  Buckets, LimiterEvent, on_requests, on_tokens, penalized, bucket_of, make_buckets, penalize_one,
  penalize_both, step_one, step_both, run_both,
}

-- A bucket that is there grants nothing before this instant.
IsFloored : ℕ → Option TokenBucket → Type 0
IsFloored u none = Unit
IsFloored u (some b) = u ≤ b.penalty_until

abbrev IsHeld : ℕ → Buckets → Type 0
IsHeld u s = IsFloored u s.rpm × IsFloored u s.tpm

-- Nothing is handed out, and the floor stays.
abbrev Quiet : ℕ → Option TokenBucket × List Settled → Type 0
Quiet u (b, out) = IsFloored u b × (spent out ≡ 0)

-- A limiter without limits has no buckets.
abbrev IsAbsent : RateLimits → Buckets → Type 0
IsAbsent l s = has_any_limit l ≡ false → (s.rpm ≡ none) × (s.tpm ≡ none)

both_quiet : (xs ys : List Settled) → spent xs ≡ 0 → spent ys ≡ 0 → spent (xs ++ ys) ≡ 0
both_quiet xs ys h k = omega (arith, spent-append xs ys)

step_one-Quiet :
    (u t : ℕ) (e : Event) (b : Option TokenBucket)
    → t < u
    → IsFloored u b
    → Quiet u (step_one t e b)
unfolding step_one IsFloored
step_one-Quiet u t e none h f = (tt, refl)
step_one-Quiet u t e (some b) h f = let k = step-Holds t e b (omega arith) in (omega arith, k.0)

penalize_one-Quiet : (u t : ℕ) (b : Option TokenBucket) → t < u → Quiet u (penalize_one u t b)
unfolding penalize_one IsFloored
penalize_one-Quiet u t none h = (tt, refl)
penalize_one-Quiet u t (some b) h = penalize-Floor u t b h

-- A penalty on top of another.
repenalize-Quiet :
    (u v t : ℕ) (b : Option TokenBucket) → t < u → IsFloored u b → Quiet u (penalize_one v t b)
unfolding penalize_one IsFloored
repenalize-Quiet u v t none h f = (tt, refl)
repenalize-Quiet u v t (some b) h f =
    let k = penalize-Holds v t b (omega arith) in (omega arith, k.0)

penalize_both-IsHeld :
    (l : RateLimits) (u t : ℕ) (s : Buckets)
    → t < u
    → IsAbsent l s
    → IsHeld u (penalize_both l u t s).0 × (spent (penalize_both l u t s).1 ≡ 0)
unfolding penalize_both IsFloored
penalize_both-IsHeld l u t s h n =
    let a = penalize_one-Quiet u t s.rpm h in
    let b = penalize_one-Quiet u t s.tpm h in
    elim (Bool-cases (has_any_limit l)) [
      | inl limited ↦
          rw limited
            ((a.0, b.0), both_quiet (penalize_one u t s.rpm).1 (penalize_one u t s.tpm).1 a.1 b.1)
      | inr unlimited ↦ rw unlimited ((rw (n unlimited).0 tt, rw (n unlimited).1 tt), refl)
    ]

-- While it is held, a limiter hands out nothing, and stays held.
step_both-Quiet :
    (l : RateLimits) (u t : ℕ) (e : LimiterEvent) (s : Buckets)
    → t < u
    → IsHeld u s
    → IsHeld u (step_both l t e s).0 × (spent (step_both l t e s).1 ≡ 0)
unfolding step_both penalize_both
step_both-Quiet l u t (on_requests e) s h f =
    let a = step_one-Quiet u t e s.rpm h f.0 in ((a.0, f.1), a.1)
step_both-Quiet l u t (on_tokens e) s h f =
    let a = step_one-Quiet u t e s.tpm h f.1 in ((f.0, a.0), a.1)
step_both-Quiet l u t (penalized v) s h f =
    let a = repenalize-Quiet u v t s.rpm h f.0 in
    let b = repenalize-Quiet u v t s.tpm h f.1 in
    elim (Bool-cases (has_any_limit l)) [
      | inl limited ↦
          rw limited
            ((a.0, b.0), both_quiet (penalize_one v t s.rpm).1 (penalize_one v t s.tpm).1 a.1 b.1)
      | inr unlimited ↦ rw unlimited (f, refl)
    ]

run_both-Quiet :
    (l : RateLimits) (u : ℕ) (es : List (ℕ × LimiterEvent)) (s : Buckets)
    → All (λ e. e.0 < u) es
    → IsHeld u s
    → spent (run_both l es s).1 ≡ 0
unfolding run_both
run_both-Quiet l u [] s h f = refl
run_both-Quiet l u ((t, e) ∷ es) s h f =
    let a = step_both-Quiet l u t e s h.0 f in
    both_quiet (step_both l t e s).1 (run_both l es (step_both l t e s).0).1 a.1
      (run_both-Quiet l u es (step_both l t e s).0 h.1 a.0)

step_both-IsAbsent :
    (l : RateLimits) (t : ℕ) (e : LimiterEvent) (s : Buckets)
    → IsAbsent l s
    → IsAbsent l (step_both l t e s).0
unfolding step_both penalize_both step_one
step_both-IsAbsent l t (on_requests e) s n = λ off. let (a, b) = n off in (rw a refl, b)
step_both-IsAbsent l t (on_tokens e) s n = λ off. let (a, b) = n off in (a, rw b refl)
step_both-IsAbsent l t (penalized v) s n = λ off. rw off (n off)

run_both-IsAbsent :
    (l : RateLimits) (es : List (ℕ × LimiterEvent)) (s : Buckets)
    → IsAbsent l s
    → IsAbsent l (run_both l es s).0
unfolding run_both
run_both-IsAbsent l [] s n = n
run_both-IsAbsent l ((t, e) ∷ es) s n =
    run_both-IsAbsent l es (step_both l t e s).0 (step_both-IsAbsent l t e s n)

make_buckets-IsAbsent : (l : RateLimits) (now : ℕ) → IsAbsent l (make_buckets l now)
unfolding make_buckets bucket_of has_any_limit
make_buckets-IsAbsent l now = λ off. ground arith

-- After a penalty until `u` that is made before `u`, the two buckets of a limiter hand out no tokens
-- before `u`, whatever the limits, whatever happened to the limiter before, and whatever calls,
-- timers and penalties come after it.
pub run_both-penalized :
    (l : RateLimits) (now u t : ℕ) (before later : List (ℕ × LimiterEvent))
    → t < u
    → All (λ e. e.0 < u) later
    → spent (run_both l ((t, penalized u) ∷ later) (run_both l before (make_buckets l now)).0).1 ≡ 0
unfolding run_both step_both
run_both-penalized l now u t before later h k =
    let s = (run_both l before (make_buckets l now)).0 in
    let n = run_both-IsAbsent l before (make_buckets l now) (make_buckets-IsAbsent l now) in
    let a = penalize_both-IsHeld l u t s h n in
    both_quiet (penalize_both l u t s).1 (run_both l later (penalize_both l u t s).0).1 a.1
      (run_both-Quiet l u later (penalize_both l u t s).0 k a.0)
