-- ===== src/RateLimit/Semaphore/Order.antt =====
-- First come, first served in semaphore.ts, and every call settled once.
use Prim.Native.Nat.{min}
use voice_order_backend.Base.{
  ℕ, ◌≡◌, refl, ◌⊎◌, Bool, true, false, List, [], ◌∷◌, ◌++◌, map, Option, none, some, arith,
  map-append, get_elem?, has_id, splice_out, if◌then◌else◌, length, splice_out-absent,
}
use voice_order_backend.RateLimit.{RejectReason, deadline, aborted, Signal}
use voice_order_backend.RateLimit.Semaphore.{
  Semaphore, Waiter, Settled, granted, rejected, Event, acquires, releases, expires, aborts, id_of,
  new_waiter, acquire, release_flag, release, fail, step,
}
use voice_order_backend.RateLimit.Semaphore.Invariant.{IsValid}

-- The calls in line, oldest first.
abbrev pub line : Semaphore → List ℕ
line s = map id_of s.queue

abbrev pub served : List Settled → List ℕ
served [] = []
served (granted id h ∷ out) = id ∷ served out
served (rejected id r ∷ out) = served out

abbrev pub refused : List Settled → List ℕ
refused [] = []
refused (granted id h ∷ out) = refused out
refused (rejected id r ∷ out) = id ∷ refused out

-- A caller that gives up leaves the line, and all others keep their places.
abbrev pub GaveUp : ℕ → Semaphore → Semaphore × List Settled → Type 0
GaveUp id s (s', out) =
    (served out ≡ [])
    × (refused out ≡ (if has_id id_of id s.queue then id ∷ [] else []))
    × (line s' ≡ map id_of (splice_out id_of id s.queue))

-- Those served, then those who wait, are the line before and the caller that arrives, in that order.
abbrev pub InOrder : Event → Semaphore → Semaphore × List Settled → Type 0
InOrder (acquires id _ _ _) s (s', out) =
    ((refused out ≡ []) × (served out ++ line s' ≡ line s ++ id ∷ []))
    ⊎ ((refused out ≡ id ∷ []) × (served out ≡ []) × (line s' ≡ line s))
InOrder (releases h) s (s', out) =
    (refused out ≡ [])
    × (served out ++ line s' ≡ line s)
    × (get_elem? s.flags h ≡ some false → length (served out) ≡ min 1 (length (line s)))
InOrder (expires id) s r = GaveUp id s r
InOrder (aborts id) s r = GaveUp id s r

acquire-InOrder :
    (id deadline_at : ℕ) (sig : Signal) (now : ℕ) (s : Semaphore)
    → IsValid s
    → InOrder (acquires id deadline_at sig now) s (acquire id deadline_at sig now s)
unfolding acquire
acquire-InOrder id deadline_at sig now s v =
    ground (arith, map-append id_of s.queue (new_waiter id deadline_at sig now ∷ []))

release_flag-InOrder :
    (f : Option Bool) (h : ℕ) (q : List Waiter) (s : Semaphore)
    → get_elem? s.flags h ≡ f
    → s.queue ≡ q
    → InOrder (releases h) s (release_flag f h s)
unfolding release_flag
release_flag-InOrder none h q s e eq = ground arith
release_flag-InOrder (some true) h q s e eq = ground arith
release_flag-InOrder (some false) h q s e eq = ground arith

fail-GaveUp : (id : ℕ) (r : RejectReason) (s : Semaphore) → GaveUp id s (fail id r s)
unfolding fail
fail-GaveUp id r s = ground (arith, splice_out-absent id_of id s.queue)

-- First come, first served, whatever happens to a valid semaphore: no caller that arrives is served before one in line,
-- a live release serves the oldest in line, and only a caller that gives up leaves its place.
pub step-InOrder : (e : Event) (s : Semaphore) → IsValid s → InOrder e s (step e s)
unfolding step release
step-InOrder (acquires id deadline_at sig now) s v = acquire-InOrder id deadline_at sig now s v
step-InOrder (releases h) s v = release_flag-InOrder (get_elem? s.flags h) h s.queue s refl refl
step-InOrder (expires id) s v = fail-GaveUp id deadline s
step-InOrder (aborts id) s v = fail-GaveUp id aborted s
