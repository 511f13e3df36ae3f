-- ===== src/RateLimit/Registry/Apart.antt =====
-- A write to the registry keeps its limiters apart (registry.ts).
use voice_order_backend.Base.{
  get, some, get-put_ne, put, Bool-cases, ◌≡◌, String, ◌⊎◌, ◌∙◌, get-put_self, ap, inr, refl, ℕ,
  some_injective, Option, ◌<◌, sym, same, none, same→eq, false, inl, subst, ◌≤◌, if◌then◌else◌,
  arith, if◌then◌else◌,
}
use voice_order_backend.RateLimit.Registry.{
  Registry, Entry, Limiter, QuotaKey, identity_of, new_limiter, limiter, no_limit,
}
use voice_order_backend.RateLimit.Limiter.{RateLimits, has_any_limit}

-- The number of a limiter that limits something.
abbrev pub serial : Limiter → Option ℕ
serial no_limit = none
serial (limiter n name) = some n

-- Every limiter has a number below the next, and one identity.
pub record IsApart (r : Registry) : Type 0 where
  pub below :
      (id : String) (e : Entry) (n : ℕ)
      → get id r.limiters ≡ some e
      → serial e.limiter ≡ some n
      → n < r.next
  pub one_identity :
      (id other : String) (e f : Entry) (n : ℕ)
      → get id r.limiters ≡ some e
      → get other r.limiters ≡ some f
      → serial e.limiter ≡ some n
      → serial f.limiter ≡ some n
      → id ≡ other

-- An entry stays, with its limiter and its limits.
pub record Stays (r s : Registry) : Type 0 where
  pub entry :
      (id : String) (e : Entry)
      → get id r.limiters ≡ some e
      → (f : Entry) × (get id s.limiters ≡ some f) × (f.limiter ≡ e.limiter) × (f.limits ≡ e.limits)

pub Stays-refl : (r : Registry) → Stays r r
Stays-refl r = record { entry = λ id e g. (e, g, refl, refl) }

pub Stays-trans : (r s t : Registry) → Stays r s → Stays s t → Stays r t
Stays-trans r s t p q = record {
  entry = λ id e g.
      let (f, g', a, b) = p.entry id e g in
      let (k, g'', c, d) = q.entry id f g' in (k, g'', c ∙ a, d ∙ b);
}

module _ (key : QuotaKey) (limits : RateLimits) (r : Registry) (h : IsApart r) where
  -- An entry after a write is the new one, or an old one under another identity.
  after_put :
      (v e : Entry) (id : String)
      → get id (put (identity_of key) v r.limiters) ≡ some e
      → ((identity_of key ≡ id) × (v ≡ e))
        ⊎ ((same (identity_of key) id ≡ false) × (get id r.limiters ≡ some e))
  after_put v e id g = elim (Bool-cases (same (identity_of key) id)) [
    | inl b ↦
        let p = same→eq (identity_of key) id b in
        inl (
          p,
          some_injective (
              sym (get-put_self (identity_of key) v r.limiters)
              ∙ ap (λ x. get x (put (identity_of key) v r.limiters)) p
              ∙ g),
        )
    | inr b ↦ inr (b, sym (get-put_ne (identity_of key) id v r.limiters b) ∙ g)
  ]

  pub put-Stays :
      (v : Entry) (next : ℕ)
      → ((e : Entry)
          → get (identity_of key) r.limiters ≡ some e
          → (v.limiter ≡ e.limiter) × (v.limits ≡ e.limits))
      → Stays r (record { limiters = put (identity_of key) v r.limiters; next = next })
  put-Stays v next k = record {
    entry = λ id e g. elim (Bool-cases (same (identity_of key) id)) [
      | inl b ↦
          let p = same→eq (identity_of key) id b in
          let (x, y) = k e (ap (λ z. get z r.limiters) p ∙ g) in
          (
            v,
            ap (λ z. get z (put (identity_of key) v r.limiters)) (sym p)
                ∙ get-put_self (identity_of key) v r.limiters,
            x,
            y,
          )
      | inr b ↦ (e, get-put_ne (identity_of key) id v r.limiters b ∙ g, refl, refl)
    ];
  }

  pub put-IsApart :
      (v : Entry) (next : ℕ)
      → r.next ≤ next
      → ((n : ℕ) → serial v.limiter ≡ some n → n < next)
      → ((other : String) (f : Entry) (n : ℕ)
          → get other r.limiters ≡ some f
          → serial v.limiter ≡ some n
          → serial f.limiter ≡ some n
          → identity_of key ≡ other)
      → IsApart (record { limiters = put (identity_of key) v r.limiters; next = next })
  put-IsApart v next b n-next apart = record {
    below = λ id e n g s. elim (after_put v e id g) [
      | inl (p, q) ↦ n-next n (ap (λ x. serial x.limiter) q ∙ s)
      | inr (d, g') ↦ let k = h.below id e n g' s in omega (arith, k, b)
    ];
    one_identity = λ id other e f n g k s t. elim (after_put v e id g) [
      | inl (p, q) ↦ elim (after_put v f other k) [
        | inl (p', q') ↦ sym p ∙ p'
        | inr (d, k') ↦ sym p ∙ apart other f n k' (ap (λ x. serial x.limiter) q ∙ s) t
      ]
      | inr (d, g') ↦ elim (after_put v f other k) [
        | inl (p', q') ↦ sym (apart id e n g' (ap (λ x. serial x.limiter) q' ∙ t) s) ∙ p'
        | inr (d', k') ↦ h.one_identity id other e f n g' k' s t
      ]
    ];
  }

  pub new_limiter-serial : (n : ℕ) → serial (new_limiter key limits r) ≡ some n → n ≡ r.next
  unfolding new_limiter
  new_limiter-serial n s = elim (Bool-cases (has_any_limit limits)) [
    | inl b ↦
        some_injective
          (sym (subst (λ x. serial (if x then limiter r.next key.name else no_limit) ≡ some n) b s))
    | inr b ↦
        absurd
          (cc (subst (λ x. serial (if x then limiter r.next key.name else no_limit) ≡ some n) b s))
  ]
