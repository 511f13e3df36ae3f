-- ===== src/Llm/Client/Accounts.antt =====
-- What a call of the model leaves of the quota (openai-compatible-provider.ts).
use voice_order_backend.Base.{
  ℕ, Bool, ◌++◌, arith, ◌≤◌, some, ◌≡◌, none, true, ◌+◌, ◌∷◌, List, Option, [], false, inl, subst,
  Bool-cases, refl, append-nil, inr,
}
use voice_order_backend.Llm.Client.{
  ClientConfig, Runtime, Response, Completion, CallError, Called, call_model, request, close_failed,
  penalty_of, usage_of, total_of, created, call_failed, refused, thrown, answered,
}
use voice_order_backend.RateLimit.Limiter.{
  RateLimits, Stages, Lease, Op, Acquired, acquire, settle, close_all, close, Close, settles,
  abandons, rejected, granted, reserved_of, request_stage, tokens_stage, permit_stage, reject,
  empty_lease, has_any_limit, took_request, took_tokens,
}
use voice_order_backend.RateLimit.Limiter.Balance.{IsEven, IsCharged, IsAccounted, total, Ledger}
use voice_order_backend.RateLimit.Limiter.Accounts.{acquire-IsAccounted}
use voice_order_backend.RateLimit.Arrival.{reached_provider, Thrown}
use voice_order_backend.RateLimit.RetryAfter.{is_429, max_penalty_ms}
use voice_order_backend.RateLimit.RetryAfter.Clamped.{retry_after_ms-IsClamped}

-- The reservation of a lease is the cost, at most the capacity.
abbrev Reserves : ℕ → List Op × Acquired → Type 0
Reserves n (ops, rejected reason) = Unit
Reserves n (ops, granted h) = h.reserved ≡ n

module _ (l : RateLimits) (o : Stages) where
  permit_stage-Reserves : (h : Lease) (ops : List Op) → Reserves h.reserved (permit_stage l o h ops)
  unfolding permit_stage reject
  permit_stage-Reserves h ops = ground arith

  tokens_stage-Reserves :
      (cost : ℕ) (h : Lease) (ops : List Op) → Reserves h.reserved (tokens_stage l cost o h ops)
  unfolding tokens_stage reject
  tokens_stage-Reserves cost h ops = ground (
    arith,
    permit_stage-Reserves h ops,
    permit_stage-Reserves (record h { tokens = h.reserved }) (ops ++ took_tokens h.reserved ∷ []),
  )

  acquire-Reserves : (cost : ℕ) → Reserves (reserved_of l cost) (acquire l cost o)
  unfolding acquire request_stage reject empty_lease has_any_limit reserved_of
  acquire-Reserves cost =
      let h = empty_lease (reserved_of l cost) in
      ground (
        arith,
        tokens_stage-Reserves cost h [],
        tokens_stage-Reserves cost (record h { request = true }) (took_request ∷ []),
      )

-- A failed call counts exactly if it may have reached the provider.
abbrev pub Counts : Bool → RateLimits → ℕ → Ledger → Type 0
Counts true l reserved a = IsCharged l reserved none a
Counts false l reserved a = IsEven a

-- The limiter is penalized after a 429 and only then, for a minute at most.
abbrev pub Penalizes : Runtime → Thrown → Option ℕ → Type 0
Penalizes r e none = is_429 e ≡ false
Penalizes r e (some until) =
    (is_429 e ≡ true) × (r.now_ms ≤ until) × (until ≤ r.now_ms + max_penalty_ms)

abbrev pub IsSettled : {A : Type 0} → RateLimits → ℕ → Runtime → Response → Called A → Type 0
IsSettled l reserved r response c = elim c.ending [
  | refused reason ↦ IsEven (total c.ops) × (c.penalty ≡ none)
  | thrown e ↦ Counts (reached_provider e) l reserved (total c.ops) × Penalizes r e c.penalty
  | answered a ↦ elim response [
    | call_failed e ↦ ⊥
    | created completion ↦
        IsCharged l reserved (total_of (usage_of completion.usage)) (total c.ops)
        × (c.penalty ≡ none)
  ]
]

penalty_of-Penalizes : (r : Runtime) (e : CallError) → Penalizes r e.error (penalty_of r e)
unfolding penalty_of
penalty_of-Penalizes r e = elim (Bool-cases (is_429 e.error)) [
  | inr b ↦ rw b b
  | inl b ↦
      let m = (retry_after_ms-IsClamped r.parse_date r.wall_now e.own e.headers).0 in
      rw b (b, omega arith, omega (arith, m))
]

module _ (l : RateLimits) (h : Lease) where
  close_all-one : (c : Close) → (close_all l (c ∷ []) h).1 ≡ (close l c h).1
  unfolding close_all
  close_all-one c = append-nil (close l c h).1

  -- The one call that `request` makes on the lease.
  close_failed-Counts :
      (ops : List Op) (e : Thrown)
      → ((cs : List Close) → IsAccounted l cs (ops, granted h))
      → Counts (reached_provider e) l h.reserved (total (ops ++ (close_failed l e h).1))
  unfolding close_failed close
  close_failed-Counts ops e k = elim (Bool-cases (reached_provider e)) [
    | inl b ↦ rw b (
        subst (λ x. IsCharged l h.reserved none (total (ops ++ x))) (close_all-one (settles none))
          (k (settles none ∷ [])))
    | inr b ↦
        rw b (subst (λ x. IsEven (total (ops ++ x))) (close_all-one abandons) (k (abandons ∷ [])))
  ]

  settle-IsCharged :
      (ops : List Op) (actual : Option ℕ)
      → ((cs : List Close) → IsAccounted l cs (ops, granted h))
      → IsCharged l h.reserved actual (total (ops ++ (settle l actual h).1))
  unfolding close
  settle-IsCharged ops actual k =
      subst (λ x. IsCharged l h.reserved actual (total (ops ++ x))) (close_all-one (settles actual))
        (k (settles actual ∷ []))

request-IsSettled :
    {A : Type 0} (cfg : ClientConfig) (r : Runtime) (response : Response) (read : Completion → A)
    (reserved : ℕ) (a : List Op × Acquired)
    → ((cs : List Close) → IsAccounted cfg.limits cs a)
    → Reserves reserved a
    → IsSettled cfg.limits reserved r response (request cfg r response read a)
unfolding request
request-IsSettled cfg r (created completion) read reserved (ops, rejected reason) k q = (k [], refl)
request-IsSettled cfg r (call_failed e) read reserved (ops, rejected reason) k q = (k [], refl)
request-IsSettled cfg r (created completion) read reserved (ops, granted h) k q = (
  subst
      (λ n.
        IsCharged cfg.limits n (total_of (usage_of completion.usage))
          (total (ops ++ (settle cfg.limits (total_of (usage_of completion.usage)) h).1)))
      q (settle-IsCharged cfg.limits h ops (total_of (usage_of completion.usage)) k),
  refl,
)
request-IsSettled cfg r (call_failed e) read reserved (ops, granted h) k q = (
  subst
      (λ n.
        Counts (reached_provider e.error) cfg.limits n
          (total (ops ++ (close_failed cfg.limits e.error h).1)))
      q (close_failed-Counts cfg.limits h ops e.error k),
  penalty_of-Penalizes r e,
)

module _ {A : Type 0} (cfg : ClientConfig) (r : Runtime) (response : Response)
    (read : Completion → A) where
  -- Whatever the limits, the way its stages end and the answer of the service: a call that the limiter
  -- refuses leaves the quota as it was. One that throws is counted, with its reservation, exactly if it
  -- may have reached the provider, and else leaves the quota as it was; one that is answered is counted
  -- with the larger of its reservation and its actual tokens. The permit is given back in every case,
  -- and the limiter is penalized after a 429 only, for a minute at most.
  pub call_model-IsSettled :
      (o : Stages) (cost : ℕ)
      → IsSettled cfg.limits
          (reserved_of cfg.limits cost)
          r
          response
          (call_model cfg r o response cost read)
  unfolding call_model
  call_model-IsSettled o cost =
      request-IsSettled cfg r response read (reserved_of cfg.limits cost)
        (acquire cfg.limits cost o) (λ cs. acquire-IsAccounted cfg.limits cs o cost)
        (acquire-Reserves cfg.limits o cost)
