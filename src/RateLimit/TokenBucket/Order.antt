-- ===== src/RateLimit/TokenBucket/Order.antt =====
-- First come, first served in token-bucket.ts.
use voice_order_backend.RateLimit.{Signal, max_queued_waiters, is_aborted}
use voice_order_backend.Base.Int.{ℤ, ◌-ℤ◌, pos, pos_part}
use voice_order_backend.Base.{
  refl, ℕ, ◌≡◌, List, [], ◌∷◌, arith, map, Bool, ◌<◌, ◌++◌, leb, false, true, ◌⊎◌, length,
  Bool-cases, inl, ◌∙◌, inr, sym, map-append, subst,
}
use voice_order_backend.RateLimit.TokenBucket.{
  TokenBucket, Waiter, Settled, granted, rejected, took, id_of, refill, pay_out, reschedule, ℤ,
  wait_in_line, try_take, try_pay, is_empty, Signal, take, clamp, new_waiter,
}

abbrev pub line : TokenBucket → List ℕ
line b = map id_of b.queue

abbrev pub served : List Settled → List ℕ
served [] = []
served (granted id need waited ∷ out) = id ∷ served out
served (rejected id r ∷ out) = served out
served (took n ∷ out) = served out

abbrev pub refused : List Settled → List ℕ
refused [] = []
refused (granted id need waited ∷ out) = refused out
refused (rejected id r ∷ out) = id ∷ refused out
refused (took n ∷ out) = refused out

-- The callers that `ids` lists are served from the front, and the rest wait.
abbrev pub Serves : List ℕ → TokenBucket × List Settled → Type 0
Serves ids (b, out) = (refused out ≡ []) × (served out ++ line b ≡ ids)

pay_out-order :
    (t : ℕ) (o : Bool) (x : ℤ) (q : List Waiter)
    → (served (pay_out t o x q).settled ++ map id_of (pay_out t o x q).queue ≡ map id_of q)
      × (refused (pay_out t o x q).settled ≡ [])
      × (o ≡ false → (pay_out t o x q).settled ≡ [])
unfolding pay_out
pay_out-order t o x [] = ground arith
pay_out-order t o x (w ∷ q) = ground (arith, pay_out-order t o (x -ℤ pos w.need) q)

pub refill-line :
    (t : ℕ) (b : TokenBucket)
    → ((refill t b).queue ≡ b.queue) × ((refill t b).penalty_until ≡ b.penalty_until)
unfolding refill
refill-line t b = ground arith

pub reschedule-Serves :
    (t : ℕ) (b : TokenBucket)
    → Serves (line b) (reschedule t b) × (t < b.penalty_until → (reschedule t b).1 ≡ [])
unfolding reschedule
reschedule-Serves t b =
    let d = refill t b in
    ground (arith, refill-line t b, pay_out-order t (leb d.penalty_until t) d.tokens d.queue)

is_empty-nil : (q : List Waiter) → is_empty q ≡ true → q ≡ []
unfolding is_empty
is_empty-nil [] e = refl
is_empty-nil (w ∷ q) e = ground arith

-- A payment on the spot leaves the line alone; it is made only to an empty line, and not under a
-- penalty.
try_pay-line :
    (n t : ℕ) (b : TokenBucket)
    → let r = try_pay n t b in
      (line r.0 ≡ line b)
      × (r.0.penalty_until ≡ b.penalty_until)
      × (r.1 ≡ true → line b ≡ [])
      × (t < b.penalty_until → r.1 ≡ false)
unfolding try_pay
try_pay-line n t b = ground (arith, refill-line t b, is_empty-nil (refill t b).queue)

pub try_take-line :
    (n t : ℕ) (b : TokenBucket)
    → let r = try_take (pos n) t b in
      (line r.0 ≡ line b)
      × (r.0.penalty_until ≡ b.penalty_until)
      × (0 < n → r.1 ≡ true → line b ≡ [])
      × (0 < n → t < b.penalty_until → r.1 ≡ false)
unfolding try_take
try_take-line n t b = ground (arith, try_pay-line n t b)

-- The caller of `take` is refused and leaves the line as it was, or joins at its end.
abbrev pub Joins : ℕ → List ℕ → TokenBucket × List Settled → Type 0
Joins id ids (b, out) =
    ((refused out ≡ id ∷ []) × (served out ≡ []) × (line b ≡ ids))
    ⊎ Serves (ids ++ id ∷ []) (b, out)

wait_in_line-Joins :
    (id need deadline_at : ℕ) (sig : Signal) (t : ℕ) (b : TokenBucket)
    → Joins id (line b) (wait_in_line id need deadline_at sig t b)
unfolding wait_in_line new_waiter
wait_in_line-Joins id need deadline_at sig t b =
    let w = new_waiter id need deadline_at sig t in
    let c = record b { queue = b.queue ++ w ∷ [] } in
    let (none_refused, order) = (reschedule-Serves t c).0 in
    elim (Bool-cases (leb max_queued_waiters (length b.queue))) [
      | inl full ↦ rw full (inl (refl, refl, refl))
      | inr room ↦ rw room (inr (none_refused, order ∙ map-append id_of b.queue (w ∷ [])))
    ]

clamp-line :
    (cost : ℤ) (b : TokenBucket)
    → 0 < pos_part cost
    → 0 < b.capacity
    → (line (clamp cost b).0 ≡ line b) × (0 < (clamp cost b).1)
unfolding clamp
clamp-line cost b h k = ground arith

-- First come, first served, with a capacity above zero: a call that asks for more than nothing is
-- refused, or joins the line at its end; those served are taken from the front of the line, and all
-- others keep their places.
pub take-Joins :
    (id : ℕ) (cost : ℤ) (deadline_at : ℕ) (sig : Signal) (t : ℕ) (b : TokenBucket)
    → 0 < pos_part cost
    → 0 < b.capacity
    → Joins id (line b) (take id cost deadline_at sig t b)
unfolding take
take-Joins id cost deadline_at sig t b h k =
    let c = clamp cost b in
    let l = clamp-line cost b h k in
    let p = try_take (pos c.1) t c.0 in
    let m = try_take-line c.1 t c.0 in
    let w = wait_in_line-Joins id c.1 deadline_at sig t p.0 in
    let same : line p.0 ≡ line b = m.0 ∙ l.0 in
    elim (Bool-cases (is_aborted sig)) [
      | inl gone ↦ rw gone (inl (refl, refl, l.0))
      | inr here ↦ rw here (elim (Bool-cases p.1) [
        | inl paid ↦
            let empty : line b ≡ [] = sym l.0 ∙ m.2 l.1 paid in
            rw paid (inr (refl, rw (same, empty)))
        | inr unpaid ↦
            rw unpaid
              (subst (λ ids. Joins id ids (wait_in_line id c.1 deadline_at sig t p.0)) same w)
      ])
    ]
