-- ===== src/RateLimit/Semaphore/Invariant.antt =====
-- The permits of semaphore.ts are accounted for after any history.
use voice_order_backend.Base.{
  ℕ, zero, suc, ◌+◌, ◌≤◌, ◌≡◌, refl, ◌⊎◌, Bool, true, false, List, [], ◌∷◌, ◌++◌, Option, none,
  some, arith, length, length-append, get_elem?, set, length-splice_out, ◌≢◌,
}
use voice_order_backend.RateLimit.{RejectReason, deadline, aborted, Signal, max_queued_waiters}
use voice_order_backend.RateLimit.Semaphore.{
  Semaphore, Waiter, Event, acquires, releases, expires, aborts, id_of, init, new_waiter, acquire,
  release_flag, release, fail, step, run,
}

-- The closures that have not been called yet.
abbrev pub held : List Bool → ℕ
held [] = 0
held (true ∷ fs) = held fs
held (false ∷ fs) = suc (held fs)

held-append : (xs ys : List Bool) → held (xs ++ ys) ≡ held xs + held ys
held-append [] ys = omega arith
held-append (true ∷ xs) ys = held-append xs ys
held-append (false ∷ xs) ys = omega (arith, held-append xs ys)

held-set :
    (fs : List Bool) (h : ℕ) → get_elem? fs h ≡ some false → held fs ≡ suc (held (set fs h true))
held-set [] h e = ground arith
held-set (f ∷ fs) zero e = ground arith
held-set (true ∷ fs) (suc h) e = held-set fs h e
held-set (false ∷ fs) (suc h) e = omega (arith, held-set fs h e)

pub record IsValid (s : Semaphore) : Type 0 where
  -- one outstanding closure for each permit in use
  pub accounted : held s.flags ≡ s.used
  pub within : s.used ≤ s.permits
  -- nobody waits while a permit is free
  pub conserving : (s.queue ≡ []) ⊎ (s.used ≡ s.permits)
  pub bounded : length s.queue ≤ max_queued_waiters

init-IsValid : (permits : ℕ) → IsValid (init permits)
unfolding init
init-IsValid permits = ground arith

acquire-IsValid :
    (id deadline_at : ℕ) (sig : Signal) (now : ℕ) (s : Semaphore)
    → IsValid s
    → IsValid (acquire id deadline_at sig now s).0
unfolding acquire
acquire-IsValid id deadline_at sig now s v = ground (
  arith,
  held-append s.flags (false ∷ []),
  length-append s.queue (new_waiter id deadline_at sig now ∷ []),
)

release_flag-IsValid :
    (f : Option Bool) (h : ℕ) (q : List Waiter) (s : Semaphore)
    → get_elem? s.flags h ≡ f
    → s.queue ≡ q
    → IsValid s
    → IsValid (release_flag f h s).0
unfolding release_flag
release_flag-IsValid f h q s e eq v =
    ground (arith, held-set s.flags h, held-append (set s.flags h true) (false ∷ []))

fail-IsValid : (id : ℕ) (r : RejectReason) (s : Semaphore) → IsValid s → IsValid (fail id r s).0
unfolding fail
fail-IsValid id r s v = ground (arith, length-splice_out id_of id s.queue)

-- Every call, release, timer and abort keeps a valid semaphore valid: the permits in use are the closures
-- not yet called, they never exceed the pool, and a caller waits only while all permits are in use.
pub step-IsValid : (e : Event) (s : Semaphore) → IsValid s → IsValid (step e s).0
unfolding step release
step-IsValid (acquires id deadline_at sig now) s v = acquire-IsValid id deadline_at sig now s v
step-IsValid (releases h) s v = release_flag-IsValid (get_elem? s.flags h) h s.queue s refl refl v
step-IsValid (expires id) s v = fail-IsValid id deadline s v
step-IsValid (aborts id) s v = fail-IsValid id aborted s v

run-IsValid : (es : List Event) (s : Semaphore) → IsValid s → IsValid (run es s).0
unfolding run
run-IsValid [] s v = v
run-IsValid (e ∷ es) s v = run-IsValid es (step e s).0 (step-IsValid e s v)

-- After any history of a new semaphore the permits in use are the closures not yet called, they do
-- not exceed the pool, a caller waits only while all permits are in use, and at most
-- `max_queued_waiters` wait.
pub run-init-IsValid : (permits : ℕ) (es : List Event) → IsValid (run es (init permits)).0
run-init-IsValid permits es = run-IsValid es (init permits) (init-IsValid permits)

get_elem?-set_self :
    (fs : List Bool) (h : ℕ) → get_elem? fs h ≡ some false → get_elem? (set fs h true) h ≡ some true
get_elem?-set_self [] h e = ground arith
get_elem?-set_self (f ∷ fs) zero e = refl
get_elem?-set_self (f ∷ fs) (suc h) e = get_elem?-set_self fs h e

get_elem?-append :
    (fs gs : List Bool) (h : ℕ) (f : Bool)
    → get_elem? fs h ≡ some f
    → get_elem? (fs ++ gs) h ≡ some f
get_elem?-append [] gs h f e = ground arith
get_elem?-append (x ∷ fs) gs zero f e = e
get_elem?-append (x ∷ fs) gs (suc h) f e = get_elem?-append fs gs h f e

-- A closure that has been called stays called.
spent_flag :
    (f : Option Bool) (h : ℕ) (q : List Waiter) (s : Semaphore)
    → get_elem? s.flags h ≡ f
    → s.queue ≡ q
    → f ≢ none
    → get_elem? (release_flag f h s).0.flags h ≡ some true
unfolding release_flag
spent_flag none h q s e eq n = absurd (n refl)
spent_flag (some true) h q s e eq n = e
spent_flag (some false) h q s e eq n =
    ground (
      arith,
      get_elem?-set_self s.flags h,
      get_elem?-append (set s.flags h true) (false ∷ []) h true,
    )

release_spent : (h : ℕ) (s : Semaphore) → get_elem? s.flags h ≡ some true → release h s ≡ (s, [])
unfolding release
release_spent h s e = rw e

-- Calling a release closure that was handed out a second time changes nothing and settles nothing, whatever the first
-- call did with the permit.
pub release-release :
    (h : ℕ) (s : Semaphore)
    → get_elem? s.flags h ≢ none
    → release h (release h s).0 ≡ ((release h s).0, [])
unfolding release
release-release h s n =
    release_spent h (release h s).0 (spent_flag (get_elem? s.flags h) h s.queue s refl refl n)
