-- ===== src/RateLimit/TokenBucket/Rate.antt =====
-- What token-bucket.ts is for: how much it can hand out in a given time.
use voice_order_backend.Base.{
  ℕ, ◌+◌, ◌≤◌, refl, List, [], ◌∷◌, arith, length, has_id, ◌*◌, ◌-◌, leb, Bool-cases, inl, ◌==◌,
  inr, All,
}
use voice_order_backend.Base.Int.{ℤ, pos, negsuc, pos_part, ◌-ℤ◌, ◌+ℤ◌, min_ℤ, int_laws, neg_part}
use voice_order_backend.RateLimit.{
  is_aborted, max_queued_waiters, RejectReason, Signal, deadline, aborted,
}
use voice_order_backend.RateLimit.TokenBucket.Flow.{
  Flow, spent, spent-append, Flow-refl, Flow-trans, refill-Flow, pay-Flow, interval,
  then_reschedule-Flow, try_take-Flow,
}
use voice_order_backend.RateLimit.TokenBucket.{
  TokenBucket, Event, tries, takes, forces, refunds, penalizes, fires, expires, aborts, id_of,
  refill, try_take, clamp, wait_in_line, take, force_take, refund, penalize, fire, fail, step, run,
  init,
}

-- The amounts charged by `forceTake` and given back by `refund`.
abbrev pub charge : Event → ℕ
charge (forces n) = pos_part n
charge _ = 0

abbrev pub credit : Event → ℕ
credit (refunds n) = pos_part n
credit _ = 0

clamp-Flow : {t : ℕ} (cost : ℤ) (b : TokenBucket) → Flow t b (clamp cost b).0 0 0
unfolding clamp
clamp-Flow cost b = Flow-refl b _ (ground arith) (ground arith) (ground arith)

wait_in_line-Flow :
    (id need deadline_at : ℕ) (sig : Signal) (t : ℕ) (b : TokenBucket)
    → let r = wait_in_line id need deadline_at sig t b in Flow t b r.0 (spent r.1) 0
unfolding wait_in_line
wait_in_line-Flow id need deadline_at sig t b =
    elim (Bool-cases (leb max_queued_waiters (length b.queue))) [
      | inl full ↦ rw full (Flow-refl b b refl refl refl)
      | inr room ↦
          rw room (then_reschedule-Flow t b _ 0 0 (Flow-refl b _ refl refl refl) _ (omega arith))
    ]

take-Flow :
    (id : ℕ) (cost : ℤ) (deadline_at : ℕ) (sig : Signal) (t : ℕ) (b : TokenBucket)
    → let r = take id cost deadline_at sig t b in Flow t b r.0 (spent r.1) 0
unfolding take
take-Flow id cost deadline_at sig t b =
    let c = clamp cost b in
    let f = clamp-Flow cost b in
    let p = try_take (pos c.1) t c.0 in
    let g = try_take-Flow (pos c.1) t c.0 in
    let w = wait_in_line id c.1 deadline_at sig t p.0 in
    let h = wait_in_line-Flow id c.1 deadline_at sig t p.0 in
    elim (Bool-cases (is_aborted sig)) [
      | inl gone ↦ rw gone f
      | inr here ↦ rw here (elim (Bool-cases p.1) [
        | inl paid ↦ rw paid (Flow-trans f (rw paid at g) (omega arith) refl)
        | inr unpaid ↦
            let fg : Flow t b p.0 0 0 = Flow-trans f (rw unpaid at g) refl refl in
            rw unpaid (Flow-trans fg h (omega arith) refl)
      ])
    ]

force_take-Flow :
    (n : ℤ) (t : ℕ) (b : TokenBucket)
    → let r = force_take n t b in Flow t b r.0 (spent r.1 + pos_part n) 0
unfolding force_take
force_take-Flow (negsuc n) t b = Flow-refl b b refl refl refl
force_take-Flow (pos n) t b =
    let b' = refill t b in
    let c = record b' { tokens = b'.tokens -ℤ pos n } in
    let f : Flow t b c n 0 =
      Flow-trans (refill-Flow t b) (pay-Flow b' c n refl refl refl) (omega arith) refl in
    elim (Bool-cases (n == 0)) [
      | inl z ↦ rw z (
          Flow-trans (Flow-refl b b refl refl refl) (Flow-refl b b refl refl refl) (ground arith)
            refl)
      | inr nz ↦ rw nz (then_reschedule-Flow t b c n 0 f _ (omega arith))
    ]

-- What a refund adds is at most its amount.
credit-Flow :
    {t : ℕ} (n : ℕ) (b : TokenBucket)
    → Flow t b (record b { tokens = min_ℤ (pos b.capacity) (b.tokens +ℤ pos n) }) 0 n
credit-Flow n b = record {
  rate_kept = refl;
  forward = omega arith;
  paced = omega arith;
  balance = omega int_laws;
}

Flow-weaken : {t : ℕ} {b c : TokenBucket} {o p p' : ℕ} → Flow t b c o p → p ≤ p' → Flow t b c o p'
Flow-weaken {b} {c} {o} {p} {p'} f h = record {
  rate_kept = f.rate_kept;
  forward = f.forward;
  paced = f.paced;
  balance = omega int_laws;
}

refund-Flow :
    (n : ℤ) (t : ℕ) (b : TokenBucket)
    → let r = refund n t b in Flow t b r.0 (spent r.1) (pos_part n)
unfolding refund
refund-Flow (negsuc n) t b = Flow-refl b b refl refl refl
refund-Flow (pos n) t b =
    let b' = refill t b in
    let c = record b' { tokens = min_ℤ (pos b'.capacity) (b'.tokens +ℤ pos n) } in
    let f : Flow t b c 0 n = Flow-trans (refill-Flow t b) (credit-Flow n b') refl (omega arith) in
    elim (Bool-cases (n == 0)) [
      | inl z ↦ rw z (Flow-weaken (Flow-refl b b refl refl refl) (omega arith))
      | inr nz ↦ rw nz (then_reschedule-Flow t b c 0 n f _ (omega arith))
    ]

penalize-Flow : (u t : ℕ) (b : TokenBucket) → let r = penalize u t b in Flow t b r.0 (spent r.1) 0
unfolding penalize
penalize-Flow u t b = elim (Bool-cases (leb u b.penalty_until)) [
  | inl shorter ↦ rw shorter (Flow-refl b b refl refl refl)
  | inr longer ↦
      rw longer (then_reschedule-Flow t b _ 0 0 (Flow-refl b _ refl refl refl) _ (omega arith))
]

fail-Flow :
    (id : ℕ) (r : RejectReason) (t : ℕ) (b : TokenBucket)
    → let s = fail id r t b in Flow t b s.0 (spent s.1) 0
unfolding fail
fail-Flow id r t b = elim (Bool-cases (has_id id_of id b.queue)) [
  | inl here ↦
      rw here (then_reschedule-Flow t b _ 0 0 (Flow-refl b _ refl refl refl) _ (omega arith))
  | inr gone ↦ rw gone (Flow-refl b b refl refl refl)
]

step-Flow :
    (t : ℕ) (e : Event) (b : TokenBucket)
    → Flow t b (step t e b).0 (spent (step t e b).1 + charge e) (credit e)
unfolding step fire
step-Flow t (tries n) b =
    Flow-trans (try_take-Flow n t b) (Flow-refl _ _ refl refl refl) (ground arith) refl
step-Flow t (takes id cost deadline_at sig) b =
    Flow-trans (take-Flow id cost deadline_at sig t b) (Flow-refl _ _ refl refl refl) refl refl
step-Flow t (forces n) b = force_take-Flow n t b
step-Flow t (refunds n) b =
    Flow-trans (refund-Flow n t b) (Flow-refl _ _ refl refl refl) refl (omega arith)
step-Flow t (penalizes u) b =
    Flow-trans (penalize-Flow u t b) (Flow-refl _ _ refl refl refl) refl refl
step-Flow t fires b = then_reschedule-Flow t b _ 0 0 (Flow-refl b _ refl refl refl) _ (omega arith)
step-Flow t (expires id) b =
    Flow-trans (fail-Flow id deadline t b) (Flow-refl _ _ refl refl refl) refl refl
step-Flow t (aborts id) b =
    Flow-trans (fail-Flow id aborted t b) (Flow-refl _ _ refl refl refl) refl refl

abbrev pub charges : List (ℕ × Event) → ℕ
charges [] = 0
charges ((t, e) ∷ es) = charge e + charges es

abbrev pub credits : List (ℕ × Event) → ℕ
credits [] = 0
credits ((t, e) ∷ es) = credit e + credits es

-- No event is later than `horizon`.
abbrev pub Until : ℕ → List (ℕ × Event) → Type 0
Until horizon es = All (λ (te : ℕ × Event). te.0 ≤ horizon) es

Flow-late : {t u : ℕ} {b c : TokenBucket} {o p : ℕ} → Flow t b c o p → t ≤ u → Flow u b c o p
Flow-late f h = record {
  rate_kept = f.rate_kept;
  forward = f.forward;
  paced = omega arith;
  balance = f.balance;
}

run-Flow :
    (u : ℕ) (es : List (ℕ × Event)) (b : TokenBucket)
    → Until u es
    → Flow u b (run es b).0 (spent (run es b).1 + charges es) (credits es)
unfolding run
run-Flow u [] b h = Flow-refl b b refl refl refl
run-Flow u ((t, e) ∷ es) b h =
    let c = (step t e b).0 in
    Flow-trans (Flow-late (step-Flow t e b) h.0) (run-Flow u es c h.1)
      (omega (arith, spent-append (step t e b).1 (run es c).1)) refl

-- With no event after `horizon`, a new bucket has handed out and been charged at most its capacity, the refill since
-- it was made, what was given back, and the debt that it ends with.
pub run-init-spent :
    (capacity rate now horizon : ℕ) (es : List (ℕ × Event))
    → now ≤ horizon
    → Until horizon es
    → let r = run es (init capacity rate now) in
      spent r.1 + charges es ≤ capacity + rate * (horizon - now) + credits es + neg_part r.0.tokens
unfolding init
run-init-spent capacity rate now horizon es h u =
    let b = init capacity rate now in
    let r = run es b in
    let f = run-Flow horizon es b u in
    omega
      (int_laws, interval rate now r.0.last_refill_at horizon f.forward (omega (arith, f.paced)))
