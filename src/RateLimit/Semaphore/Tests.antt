-- ===== src/RateLimit/Semaphore/Tests.antt =====
-- Runs of semaphore.ts and the theorems at concrete inputs.
use voice_order_backend.Base.{◌+◌, ◌≡◌, refl, List, [], ◌∷◌, count}
use voice_order_backend.RateLimit.{no_signal, live_signal, deadline}
use voice_order_backend.RateLimit.Semaphore.{
  Semaphore, granted, rejected, Event, acquires, releases, expires, init, step, run,
}
use voice_order_backend.RateLimit.Semaphore.Invariant.{IsValid, run-init-IsValid}
use voice_order_backend.RateLimit.Semaphore.Order.{line}
use voice_order_backend.RateLimit.Semaphore.Once.{run-init-once, settled_ids}

-- One permit: call 10 has it, 11 and 12 wait, 11 gives up, and 12 is handed the permit.
abbrev contended : List Event
contended =
    acquires 10 100 no_signal 0
    ∷ acquires 11 100 live_signal 0
    ∷ acquires 12 100 no_signal 1
    ∷ expires 11
    ∷ releases 0
    ∷ releases 0
    ∷ []

contended-run : (run contended (init 1)).1 ≡ granted 10 0 ∷ rejected 11 deadline ∷ granted 12 1 ∷ []
unfolding run step init
contended-run = refl

run-init-IsValid_example : IsValid (run contended (init 1)).0
run-init-IsValid_example = run-init-IsValid 1 contended

abbrev busy : Semaphore
unfolding run step init
busy = (run (acquires 10 100 no_signal 0 ∷ acquires 11 100 live_signal 0 ∷ []) (init 1)).0

busy-IsValid : IsValid busy
unfolding run step init
busy-IsValid = run-init-IsValid 1 (acquires 10 100 no_signal 0 ∷ acquires 11 100 live_signal 0 ∷ [])

run-init-once_example :
    count 12 (settled_ids (run contended (init 1)).1) + count 12 (line (run contended (init 1)).0)
    ≡ 1
run-init-once_example = run-init-once 1 contended 12
