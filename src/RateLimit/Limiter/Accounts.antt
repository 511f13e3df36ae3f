-- ===== src/RateLimit/Limiter/Accounts.antt =====
-- The whole way of a call through the limiter, on every branch (rate-limiter.ts).
use voice_order_backend.RateLimit.Limiter.Balance.{
  IsAccounted, total, IsHeld, total-IsSum, settle-IsCharged, reject-IsEven, closed, abandon-IsEven,
}
use voice_order_backend.Base.{
  inr, Option-cases, ℕ, ltb, refl, Bool-cases, ◌&&◌, false, true, [], arith, ◌≡◌, ◌∷◌, ◌++◌, List,
  inl, append-nil,
}
use voice_order_backend.RateLimit.Limiter.{
  took_permit, abandon, Lease, reserved_of, request_stage, took_request, Stages, reconcile, settles,
  Close, granted, Op, has_any_limit, permit_stage, took_tokens, abandons, empty_lease, close,
  close_all, RateLimits, acquire, settle, reject, tokens_stage, release, refunds,
}

module _ (l : RateLimits) (h : Lease) (ops : List Op) (k : IsHeld h (total ops)) where
  lease-IsAccounted :
      (cs : List Close)
      → h.tokens ≡ h.reserved
      → (ltb 0 l.tpm ≡ false → h.reserved ≡ 0)
      → IsAccounted l cs (ops, granted h)
  unfolding close_all close settle abandon reconcile release refunds
  lease-IsAccounted [] t z = rw (append-nil ops) k.kept
  lease-IsAccounted (settles actual ∷ cs) t z =
      rw
        (
          k.open_,
          closed l cs (record h { done = true }) refl,
          append-nil (reconcile l h actual ++ release h),
        )
        (settle-IsCharged l h ops k actual t z)
  lease-IsAccounted (abandons ∷ cs) t z =
      rw (k.open_, closed l cs (record h { done = true }) refl, append-nil (refunds h ++ release h))
        (abandon-IsEven l h ops k)

module _ (l : RateLimits) (cs : List Close) where
  module _ (o : Stages) where
    permit_stage-IsAccounted :
        (h : Lease) (ops : List Op)
        → IsHeld h (total ops)
        → h.permit ≡ false
        → h.tokens ≡ h.reserved
        → (ltb 0 l.tpm ≡ false → h.reserved ≡ 0)
        → IsAccounted l cs (permit_stage l o h ops)
    unfolding permit_stage reject
    permit_stage-IsAccounted h ops k p t z = elim (Bool-cases (ltb 0 l.max_concurrent)) [
      | inr b ↦ rw (b, permit_stage) (lease-IsAccounted l h ops k cs t z)
      | inl b ↦ elim (Option-cases o.permit) [
        | inr (r, e) ↦ rw (b, e, permit_stage) (reject-IsEven l h ops k p)
        | inl e ↦
            rw (b, e, permit_stage)
              (lease-IsAccounted l (record h { permit = true }) (ops ++ took_permit ∷ [])
                (record {
                  open_ = k.open_;
                  requests = ground (arith, total-IsSum ops (took_permit ∷ []), k.requests);
                  tokens = ground (arith, total-IsSum ops (took_permit ∷ []), k.tokens);
                  permits = ground (arith, total-IsSum ops (took_permit ∷ []), k.permits, p);
                  kept = ground (arith, total-IsSum ops (took_permit ∷ []), k.kept);
                })
                cs t z)
      ]
    ]

    tokens_stage-IsAccounted :
        (cost : ℕ) (h : Lease) (ops : List Op)
        → IsHeld h (total ops)
        → h.permit ≡ false
        → h.tokens ≡ 0
        → ((ltb 0 l.tpm && ltb 0 cost) ≡ false → h.reserved ≡ 0)
        → IsAccounted l cs (tokens_stage l cost o h ops)
    unfolding tokens_stage reject
    tokens_stage-IsAccounted cost h ops k p t z = elim (Bool-cases (ltb 0 l.tpm && ltb 0 cost)) [
      | inr b ↦
          rw (b, tokens_stage)
            (permit_stage-IsAccounted h ops k p (ground (arith, t, z, b)) (λ q. z b))
      | inl b ↦ elim (Option-cases o.tokens) [
        | inr (r, e) ↦ rw (b, e, tokens_stage) (reject-IsEven l h ops k p)
        | inl e ↦
            rw (b, e, tokens_stage)
              (permit_stage-IsAccounted (record h { tokens = h.reserved })
                (ops ++ took_tokens h.reserved ∷ [])
                (record {
                  open_ = k.open_;
                  requests =
                      ground (arith, total-IsSum ops (took_tokens h.reserved ∷ []), k.requests);
                  tokens =
                      ground (arith, total-IsSum ops (took_tokens h.reserved ∷ []), k.tokens, t);
                  permits =
                      ground (arith, total-IsSum ops (took_tokens h.reserved ∷ []), k.permits);
                  kept = ground (arith, total-IsSum ops (took_tokens h.reserved ∷ []), k.kept);
                })
                p refl (λ q. ground (arith, q, b)))
      ]
    ]

    request_stage-IsAccounted :
        (cost : ℕ) → IsAccounted l cs (request_stage l cost o (empty_lease (reserved_of l cost)))
    unfolding request_stage reject empty_lease reserved_of refunds
    request_stage-IsAccounted cost = elim (Bool-cases (ltb 0 l.rpm)) [
      | inr b ↦
          rw (b, request_stage)
            (tokens_stage-IsAccounted cost (empty_lease (reserved_of l cost)) [] (ground arith) refl
              refl (λ q. ground (arith, q)))
      | inl b ↦ elim (Option-cases o.request) [
        | inr (r, e) ↦ rw (b, e, request_stage) (ground arith)
        | inl e ↦
            rw (b, e, request_stage)
              (tokens_stage-IsAccounted cost
                (record (empty_lease (reserved_of l cost)) { request = true }) (took_request ∷ [])
                (ground arith) refl refl (λ q. ground (arith, q)))
      ]
    ]

    -- Whatever the limits, the cost, and how each stage ends: a call that is rejected has given back all
    -- that it took; a lease gives nothing back before it is closed; the first call on it decides, and the
    -- later ones do nothing: abandoned, all is given back; settled, the permit is given back, the
    -- request stays counted, and the tokens charged are the larger of the reservation and the actual
    -- cost.
    pub acquire-IsAccounted : (cost : ℕ) → IsAccounted l cs (acquire l cost o)
    unfolding acquire has_any_limit empty_lease
    acquire-IsAccounted cost = elim (Bool-cases (has_any_limit l)) [
      | inl b ↦ rw (b, acquire) (request_stage-IsAccounted cost)
      | inr b ↦
          rw (b, acquire)
            (lease-IsAccounted l (empty_lease 0) [] (ground arith) cs refl (λ q. refl))
    ]
