-- ===== src/Lock/Tests.antt =====
-- Runs of the lock.
use voice_order_backend.Base.{
  delete_key, true, map, false, ◌↔◌, ◌∷◌, ◌≡◌, [], refl, get, put, same, List, some, Bool,
}
use voice_order_backend.Lock.Fifo.{run-empty_lock-Fifo, EarlierSettled}
use voice_order_backend.Lock.{
  Call, prev_settled, step, run, Event, empty_lock, runs, starts, on_call, settles, cleans, clean,
  settle, run_call, start, clean_call,
}

-- Two calls for a cart and one for another: the first has run, the second waits.
abbrev busy : List Event
busy =
    runs "cart-1"
    ∷ runs "cart-1"
    ∷ runs "cart-2"
    ∷ starts 1
    ∷ starts 2
    ∷ starts 0
    ∷ settles 0
    ∷ cleans 0
    ∷ []

abbrev second : Call
second = record { key = "cart-1"; prev = some 0; started = false; settled = false }

in_order :
    map {B = Bool × Bool} (λ c. (c.started, c.settled)) (run busy empty_lock).calls
    ≡ (true, true) ∷ (false, false) ∷ (true, false) ∷ []
unfolding run step run_call on_call start settle clean_call clean prev_settled get put same
    delete_key
in_order = refl

-- The first call is not the last of its key, so that the tail stays.
tails_kept : (run busy empty_lock).tails ≡ ("cart-1", 1) ∷ ("cart-2", 2) ∷ []
unfolding run step run_call on_call start settle clean_call clean prev_settled get put same
    delete_key
tails_kept = refl

run-empty_lock-Fifo_example :
    ((start (run busy empty_lock) second).started ≡ true)
    ↔ EarlierSettled (run busy empty_lock).calls 1 second
unfolding run step run_call on_call start settle clean_call clean prev_settled get put same
    delete_key
run-empty_lock-Fifo_example = run-empty_lock-Fifo busy 1 second refl
