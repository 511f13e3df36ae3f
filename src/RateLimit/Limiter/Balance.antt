-- ===== src/RateLimit/Limiter/Balance.antt =====
-- A lease is closed once, and each rejection or refund gives back what was taken (rate-limiter.ts).
use voice_order_backend.Base.{
  ◌+◌, [], or_else, arith, ltb, List, max, true, ◌≡◌, refl, if◌then◌else◌, Option, ◌∷◌, ℕ,
  if◌then◌else◌, ◌++◌, false, none, some,
}
use voice_order_backend.RateLimit.Limiter.{
  took_request, Op, took_tokens, abandons, took_permit, Close, forced_tokens, settle, close_all,
  returned_request, returned_permit, settles, RateLimits, abandon, Lease, close, returned_tokens,
  granted, rejected, Acquired, refunds, release, reconcile,
}

-- What was taken, and what was given back.
pub record Ledger : Type 0 where
  pub requests : ℕ
  pub returned_requests : ℕ
  pub tokens : ℕ
  pub returned_tokens : ℕ
  pub permits : ℕ
  pub returned_permits : ℕ

abbrev pub nothing : Ledger
nothing = record {
  requests = 0;
  returned_requests = 0;
  tokens = 0;
  returned_tokens = 0;
  permits = 0;
  returned_permits = 0;
}

abbrev enter : Op → Ledger → Ledger
enter took_request a = record a { requests = a.requests + 1 }
enter returned_request a = record a { returned_requests = a.returned_requests + 1 }
enter (took_tokens n) a = record a { tokens = a.tokens + n }
enter (forced_tokens n) a = record a { tokens = a.tokens + n }
enter (returned_tokens n) a = record a { returned_tokens = a.returned_tokens + n }
enter took_permit a = record a { permits = a.permits + 1 }
enter returned_permit a = record a { returned_permits = a.returned_permits + 1 }

abbrev pub total : List Op → Ledger
total [] = nothing
total (o ∷ os) = enter o (total os)

-- All that was taken was given back.
abbrev pub IsEven : Ledger → Type 0
IsEven a =
    (a.returned_requests ≡ a.requests)
    × (a.returned_tokens ≡ a.tokens)
    × (a.returned_permits ≡ a.permits)

-- The permit was given back, and the reservation stands: of the tokens at least the actual cost.
abbrev pub IsCharged : RateLimits → ℕ → Option ℕ → Ledger → Type 0
IsCharged l reserved actual a =
    (a.returned_requests ≡ 0)
    × (a.returned_tokens ≡ 0)
    × (a.returned_permits ≡ a.permits)
    × (a.tokens ≡ (if ltb 0 l.tpm then max reserved (or_else actual 0) else 0))

-- What the first call on the lease decides, for any calls after it.
abbrev pub IsClosedBy : RateLimits → ℕ → List Close → Ledger → Type 0
IsClosedBy l reserved [] a =
    (a.returned_requests ≡ 0) × (a.returned_tokens ≡ 0) × (a.returned_permits ≡ 0)
IsClosedBy l reserved (settles actual ∷ cs) a = IsCharged l reserved actual a
IsClosedBy l reserved (abandons ∷ cs) a = IsEven a

module _ (l : RateLimits) where
  -- A lease that was closed stays as it is.
  pub closed : (cs : List Close) (h : Lease) → h.done ≡ true → (close_all l cs h).1 ≡ []
  unfolding close_all close settle abandon
  closed [] h d = refl
  closed (settles actual ∷ cs) h d = ground (arith, d, closed cs h d)
  closed (abandons ∷ cs) h d = ground (arith, d, closed cs h d)

  -- A rejected call, and a granted one with the calls on its lease.
  abbrev pub IsAccounted : List Close → List Op × Acquired → Type 0
  IsAccounted cs (ops, rejected reason) = IsEven (total ops)
  IsAccounted cs (ops, granted h) = IsClosedBy l h.reserved cs (total (ops ++ (close_all l cs h).1))

-- The ledger of two lists of operations.
abbrev IsSum : Ledger → Ledger → Ledger → Type 0
IsSum a b c =
    (c.requests ≡ a.requests + b.requests)
    × (c.returned_requests ≡ a.returned_requests + b.returned_requests)
    × (c.tokens ≡ a.tokens + b.tokens)
    × (c.returned_tokens ≡ a.returned_tokens + b.returned_tokens)
    × (c.permits ≡ a.permits + b.permits)
    × (c.returned_permits ≡ a.returned_permits + b.returned_permits)

pub total-IsSum : (xs ys : List Op) → IsSum (total xs) (total ys) (total (xs ++ ys))
total-IsSum [] ys = ground arith
total-IsSum (took_request ∷ xs) ys = ground (arith, total-IsSum xs ys)
total-IsSum (returned_request ∷ xs) ys = ground (arith, total-IsSum xs ys)
total-IsSum (took_tokens n ∷ xs) ys = ground (arith, total-IsSum xs ys)
total-IsSum (returned_tokens n ∷ xs) ys = ground (arith, total-IsSum xs ys)
total-IsSum (forced_tokens n ∷ xs) ys = ground (arith, total-IsSum xs ys)
total-IsSum (took_permit ∷ xs) ys = ground (arith, total-IsSum xs ys)
total-IsSum (returned_permit ∷ xs) ys = ground (arith, total-IsSum xs ys)

-- What an open lease stands for.
pub record IsHeld (h : Lease) (a : Ledger) : Type 0 where
  pub open_ : h.done ≡ false
  pub requests : a.requests ≡ (if h.request then 1 else 0)
  pub tokens : a.tokens ≡ h.tokens
  pub permits : a.permits ≡ (if h.permit then 1 else 0)
  pub kept : (a.returned_requests ≡ 0) × (a.returned_tokens ≡ 0) × (a.returned_permits ≡ 0)

module _ (l : RateLimits) (h : Lease) (ops : List Op) (k : IsHeld h (total ops)) where
  -- Giving everything back, the permit included.
  pub abandon-IsEven : IsEven (total (ops ++ (refunds h ++ release h)))
  unfolding refunds release
  abandon-IsEven =
      ground
        (arith, total-IsSum ops (refunds h ++ release h), k.requests, k.tokens, k.permits, k.kept)

  pub reject-IsEven : h.permit ≡ false → IsEven (total (ops ++ refunds h))
  unfolding refunds
  reject-IsEven p =
      ground (arith, total-IsSum ops (refunds h), k.requests, k.tokens, k.permits, k.kept, p)

  pub settle-IsCharged :
      (actual : Option ℕ)
      → h.tokens ≡ h.reserved
      → (ltb 0 l.tpm ≡ false → h.reserved ≡ 0)
      → IsCharged l h.reserved actual (total (ops ++ (reconcile l h actual ++ release h)))
  unfolding reconcile release
  settle-IsCharged none t z =
      ground (arith, total-IsSum ops (release h), k.requests, k.tokens, k.permits, k.kept, t, z)
  settle-IsCharged (some n) t z = ground (
    arith,
    total-IsSum ops (reconcile l h (some n) ++ release h),
    k.requests,
    k.tokens,
    k.permits,
    k.kept,
    t,
    z,
  )
