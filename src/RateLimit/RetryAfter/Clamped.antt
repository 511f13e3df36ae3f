-- ===== src/RateLimit/RetryAfter/Clamped.antt =====
-- How short and how long a hold-off can be (retry-after.ts).
use voice_order_backend.Base.Int.{◌-ℤ◌, ◌≤ℤ◌, pos, ℤ, negsuc}
use voice_order_backend.Base.{
  same, false, true, Bool-cases, refl, arith, some, ◌≤◌, inl, ◌≡◌, inr, Option, trim, Option-cases,
  String, ◌↔◌, subst, some_injective, none, sym, ◌∙◌, ap,
}
use voice_order_backend.RateLimit.RetryAfter.{
  delay_ms, has_date_prefix, zoned, retry_after_ms, raw_header, wait_of, clamp_ms, max_penalty_ms,
  HeaderSource,
}

-- A text, without white space around it, that asks for no wait: a number of seconds that is rounded to no
-- milliseconds, or what begins with the name of a weekday and is read as a date that is over.
pub data AsksNoWait (parse_date : String → Option ℤ) (now : ℤ) (text : String) : Type 0 where
  no_seconds : delay_ms text ≡ some 0 → AsksNoWait parse_date now text
  date_over :
      delay_ms text ≡ none
      → has_date_prefix text ≡ true
      → (at : ℤ) → parse_date (zoned text) ≡ some at
      → (at -ℤ now) ≤ℤ pos 0
      → AsksNoWait parse_date now text

-- The header is there, is not empty, and asks for no wait.
pub record SaysNow (parse_date : String → Option ℤ) (now : ℤ) (source headers : HeaderSource)
    : Type 0 where
  pub raw : String
  pub sent : raw_header source headers ≡ some raw
  pub filled : same (trim raw) "" ≡ false
  pub asks : AsksNoWait parse_date now (trim raw)

-- The reading of a wait is a wait that is over exactly for such texts.
over-AsksNoWait :
    (parse_date : String → Option ℤ) (now ms : ℤ) (text : String)
    → wait_of parse_date now text ≡ some ms
    → ms ≤ℤ pos 0
    → (same text "" ≡ false) × AsksNoWait parse_date now text
unfolding wait_of
over-AsksNoWait parse_date now ms text w o = elim (Bool-cases (same text "")) [
  | inl b ↦ absurd (ground (arith, w, b))
  | inr b ↦ elim (Option-cases (delay_ms text)) [
    | inr (n, e) ↦
        let q : pos n ≡ ms = some_injective (sym (rw (b, e) refl) ∙ w) in
        (b, no_seconds (e ∙ ap (λ k. some k) (omega (arith, subst (λ m. m ≤ℤ pos 0) (sym q) o))))
    | inl e ↦ elim (Bool-cases (has_date_prefix text)) [
      | inr d ↦ absurd (ground (arith, w, b, e, d))
      | inl d ↦ elim (Option-cases (parse_date (zoned text))) [
        | inl z ↦ absurd (ground (arith, w, b, e, d, z))
        | inr (at, z) ↦
            let q : (at -ℤ now) ≡ ms = some_injective (sym (rw (b, e, d, z) refl) ∙ w) in
            (b, date_over e d at z (subst (λ m. m ≤ℤ pos 0) (sym q) o))
      ]
    ]
  ]
]

AsksNoWait-over :
    (parse_date : String → Option ℤ) (now : ℤ) (text : String)
    → same text "" ≡ false
    → AsksNoWait parse_date now text
    → (ms : ℤ) × (wait_of parse_date now text ≡ some ms) × (ms ≤ℤ pos 0)
unfolding wait_of
AsksNoWait-over parse_date now text b (no_seconds e) = (pos 0, rw (b, e) refl, omega arith)
AsksNoWait-over parse_date now text b (date_over e d at z o) = (at -ℤ now, rw (b, e, d, z) refl, o)

module _ (parse_date : String → Option ℤ) (now : ℤ) (source headers : HeaderSource) (raw : String)
    (sent : raw_header source headers ≡ some raw) where
  same_raw : (s : SaysNow parse_date now source headers) → s.raw ≡ raw
  same_raw s = some_injective (sym s.sent ∙ sent)

  unread : wait_of parse_date now (trim raw) ≡ none → SaysNow parse_date now source headers → ⊥
  unread w s =
      let (ms, e, o) = AsksNoWait-over parse_date now (trim s.raw) s.filled s.asks in
      cc (e, ap (λ r. wait_of parse_date now (trim r)) (same_raw s), w)

  said :
      (ms : ℤ)
      → wait_of parse_date now (trim raw) ≡ some ms
      → SaysNow parse_date now source headers
      → ms ≤ℤ pos 0
  said ms w s =
      let (n, e, o) = AsksNoWait-over parse_date now (trim s.raw) s.filled s.asks in
      subst (λ m. m ≤ℤ pos 0)
        (some_injective (sym e ∙ ap (λ r. wait_of parse_date now (trim r)) (same_raw s) ∙ w)) o

clamp_ms_bound : (ms : ℤ) → clamp_ms ms ≤ max_penalty_ms
unfolding clamp_ms
clamp_ms_bound ms = omega arith

clamp_ms-zero : (ms : ℤ) → (clamp_ms ms ≡ 0) ↔ (ms ≤ℤ pos 0)
unfolding clamp_ms
clamp_ms-zero (pos n) = (λ e. omega (arith, e), λ h. omega (arith, h))
clamp_ms-zero (negsuc n) = (λ e. omega arith, λ h. omega arith)

-- Whatever the headers of a failure say, and whatever `Date.parse` makes of it, the hold-off is at
-- most a minute; and there is none at all exactly if the header is there, is not blank, and is either a
-- decimal number of seconds that is rounded to no milliseconds, as `0` or `0.0004`, or no such number
-- but a text that begins with the name of a weekday and that `Date.parse` reads as an instant not
-- after now. So a header that is missing, blank or of any other form leaves a hold-off.
pub retry_after_ms-IsClamped :
    (parse_date : String → Option ℤ) (now : ℤ) (source headers : HeaderSource)
    → (retry_after_ms parse_date now source headers ≤ max_penalty_ms)
      × ((retry_after_ms parse_date now source headers ≡ 0) ↔ SaysNow parse_date now source headers)
unfolding retry_after_ms
retry_after_ms-IsClamped parse_date now source headers =
    elim (Option-cases (raw_header source headers)) [
      | inl e ↦
          rw (e, retry_after_ms)
            (omega arith, (λ z. absurd (omega (arith, z)), λ s. absurd (cc (s.sent, e))))
      | inr (raw, e) ↦ elim (Option-cases (wait_of parse_date now (trim raw))) [
        | inl w ↦
            rw (e, retry_after_ms, w)
              (
                omega arith,
                (
                  λ z. absurd (omega (arith, z)),
                  λ s. absurd (unread parse_date now source headers raw e w s),
                ),
              )
        | inr (ms, w) ↦
            rw (e, retry_after_ms, w)
              (
                clamp_ms_bound ms,
                (
                  λ z.
                      let a =
                        over-AsksNoWait parse_date now ms (trim raw) w ((clamp_ms-zero ms).0 z) in
                      record { raw = raw; sent = e; filled = a.0; asks = a.1 },
                  λ s. (clamp_ms-zero ms).1 (said parse_date now source headers raw e ms w s),
                ),
              )
      ]
    ]
