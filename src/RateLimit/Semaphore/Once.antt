-- ===== src/RateLimit/Semaphore/Once.antt =====
-- Every promise that semaphore.ts hands out is settled once.
use voice_order_backend.Base.{
  ℕ, ◌+◌, ◌≡◌, refl, Bool, true, false, List, [], ◌∷◌, ◌++◌, Option, none, some, arith, map-append,
  count, count-append, get_elem?, count-splice_out,
}
use voice_order_backend.RateLimit.{RejectReason, Signal, deadline, aborted}
use voice_order_backend.RateLimit.Semaphore.{
  Semaphore, Waiter, Settled, granted, rejected, Event, acquires, releases, expires, aborts, id_of,
  new_waiter, acquire, release_flag, release, fail, step, run, init,
}
use voice_order_backend.RateLimit.Semaphore.Order.{line}

abbrev pub arrivals : List Event → List ℕ
arrivals [] = []
arrivals (acquires id _ _ _ ∷ es) = id ∷ arrivals es
arrivals (releases h ∷ es) = arrivals es
arrivals (expires i ∷ es) = arrivals es
arrivals (aborts i ∷ es) = arrivals es

abbrev pub settled_ids : List Settled → List ℕ
settled_ids [] = []
settled_ids (granted id h ∷ out) = id ∷ settled_ids out
settled_ids (rejected id r ∷ out) = id ∷ settled_ids out

settled_ids-append :
    (xs ys : List Settled) → settled_ids (xs ++ ys) ≡ settled_ids xs ++ settled_ids ys
settled_ids-append [] ys = refl
settled_ids-append (granted id h ∷ xs) ys = rw (settled_ids-append xs ys)
settled_ids-append (rejected id r ∷ xs) ys = rw (settled_ids-append xs ys)

-- Nobody is lost or settled twice: what is settled and what is in line add up.
abbrev Balanced : List ℕ → Semaphore → Semaphore × List Settled → Type 0
Balanced new s (s', out) =
    (x : ℕ) → count x (settled_ids out) + count x (line s') ≡ count x (line s) + count x new

acquire-Balanced :
    (id deadline_at : ℕ) (sig : Signal) (now : ℕ) (s : Semaphore)
    → Balanced (id ∷ []) s (acquire id deadline_at sig now s)
unfolding acquire
acquire-Balanced id deadline_at sig now s x = ground (
  arith,
  map-append id_of s.queue (new_waiter id deadline_at sig now ∷ []),
  count-append x (line s) (id ∷ []),
)

release_flag-Balanced :
    (f : Option Bool) (h : ℕ) (s : Semaphore) (q : List Waiter)
    → s.queue ≡ q
    → Balanced [] s (release_flag f h s)
unfolding release_flag
release_flag-Balanced none h s q eq x = ground arith
release_flag-Balanced (some true) h s q eq x = ground arith
release_flag-Balanced (some false) h s q eq x = ground arith

fail-Balanced : (id : ℕ) (r : RejectReason) (s : Semaphore) → Balanced [] s (fail id r s)
unfolding fail
fail-Balanced id r s x = ground (arith, count-splice_out id_of x id s.queue)

step-Balanced : (e : Event) (s : Semaphore) → Balanced (arrivals (e ∷ [])) s (step e s)
unfolding step release
step-Balanced (acquires id deadline_at sig now) s = acquire-Balanced id deadline_at sig now s
step-Balanced (releases h) s = release_flag-Balanced (get_elem? s.flags h) h s s.queue refl
step-Balanced (expires id) s = fail-Balanced id deadline s
step-Balanced (aborts id) s = fail-Balanced id aborted s

count-arrivals :
    (x : ℕ) (e : Event) (es : List Event)
    → count x (arrivals (e ∷ es)) ≡ count x (arrivals (e ∷ [])) + count x (arrivals es)
count-arrivals x (acquires _ _ _ _) es = omega arith
count-arrivals x (releases _) es = omega arith
count-arrivals x (expires _) es = omega arith
count-arrivals x (aborts _) es = omega arith

run-Balanced : (es : List Event) (s : Semaphore) → Balanced (arrivals es) s (run es s)
unfolding run
run-Balanced [] s x = omega arith
run-Balanced (e ∷ es) s x = rw (settled_ids-append (step e s).1 (run es (step e s).0).1) (
    omega (
      arith,
      count-arrivals x e es,
      step-Balanced e s x,
      run-Balanced es (step e s).0 x,
      count-append x (settled_ids (step e s).1) (settled_ids (run es (step e s).0).1),
    ))

-- Over any history of a new semaphore, the promises settled for a call and its place in line add up
-- to the calls made in its name: a call made once is settled once, or still waits.
pub run-init-once :
    (permits : ℕ) (es : List Event) (x : ℕ)
    → count x (settled_ids (run es (init permits)).1) + count x (line (run es (init permits)).0)
      ≡ count x (arrivals es)
unfolding init
run-init-once permits es x = omega (arith, run-Balanced es (init permits) x)
