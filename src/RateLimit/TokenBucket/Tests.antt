-- ===== src/RateLimit/TokenBucket/Tests.antt =====
-- Runs of token-bucket.ts and the theorems at concrete inputs: ten units, two more a millisecond.
use voice_order_backend.Base.{
  ℕ, ◌+◌, ◌≡◌, refl, List, [], ◌∷◌, some, arith, ◌≤◌, none, false, ◌*◌, ◌-◌,
}
use voice_order_backend.Base.Int.{pos, ◌+ℤ◌, ◌-ℤ◌, min_ℤ}
use voice_order_backend.RateLimit.{no_signal, live_signal, deadline}
use voice_order_backend.RateLimit.TokenBucket.{
  TokenBucket, Settled, granted, rejected, Event, takes, fires, expires, init, step, run, take,
  try_take, try_pay, refill, clamp, wait_in_line, new_waiter, reschedule, pay_out, due, refill_wait,
  is_empty, fail, fire,
}
use voice_order_backend.RateLimit.TokenBucket.Invariant.{IsValid}
use voice_order_backend.RateLimit.TokenBucket.Flow.{spent}
use voice_order_backend.RateLimit.TokenBucket.Solvent.{run-init-spent-le}
use voice_order_backend.RateLimit.TokenBucket.Liveness.{step-IsArmed, fire-serves_head}
use voice_order_backend.RateLimit.TokenBucket.Wakeup.{IsArmed}

-- Call 1 is paid at once, 2 waits, 3 waits behind it though it is cheap, 3 gives up.
abbrev contended : List (ℕ × Event)
contended =
    (0, takes 1 (pos 8) 100 no_signal)
    ∷ (0, takes 2 (pos 6) 100 no_signal)
    ∷ (0, takes 3 (pos 1) 100 live_signal)
    ∷ (1, expires 3)
    ∷ (2, fires)
    ∷ []

abbrev fresh : TokenBucket
fresh = record {
  capacity = 10;
  rate = 2;
  tokens = pos 10;
  last_refill_at = 0;
  penalty_until = 0;
  queue = [];
  timer = none;
  warned_oversized_cost = false;
}

contended-run :
    (run contended (init 10 2 0)).1 ≡ granted 1 8 0 ∷ rejected 3 deadline ∷ granted 2 6 2 ∷ []
unfolding run step init take try_take try_pay refill clamp wait_in_line new_waiter reschedule
    pay_out due refill_wait fail fire is_empty ◌+ℤ◌ ◌-ℤ◌ min_ℤ
contended-run = refl

-- Call 2 waits for 6 units with 2 on hand: the timer is due at 2.
abbrev waiting : TokenBucket
waiting = record fresh {
  tokens = pos 2;
  queue =
      record { id = 2; need = 6; started_at = 0; deadline_timer = some 100; detach_abort = false }
      ∷ [];
  timer = some 2;
}

waiting-run : (take 2 (pos 6) 100 no_signal 0 (record fresh { tokens = pos 2 })).0 ≡ waiting
unfolding take try_take try_pay refill clamp wait_in_line new_waiter reschedule pay_out due
    refill_wait is_empty ◌+ℤ◌ ◌-ℤ◌ min_ℤ
waiting-run = refl

waiting-IsValid : IsValid waiting
waiting-IsValid = omega arith

waiting-IsArmed : IsArmed waiting
unfolding ◌+ℤ◌
waiting-IsArmed = omega arith

run-init-spent-le_example : spent (run contended (init 10 2 0)).1 ≤ 10 + 2 * (2 - 0) + 0
run-init-spent-le_example =
    run-init-spent-le 10 2 0 2 contended (omega arith) (omega arith)
      (refl, (refl, (refl, (refl, (refl, tt)))))

step-IsArmed_example : IsArmed (step 1 (expires 2) waiting).0
step-IsArmed_example =
    step-IsArmed 1 (expires 2) waiting (omega arith) (omega arith) waiting-IsValid waiting-IsArmed

fire-serves_head_example : (out : List Settled) × ((step 3 fires waiting).1 ≡ granted 2 6 3 ∷ out)
fire-serves_head_example =
    fire-serves_head 3 2 waiting
      (record { id = 2; need = 6; started_at = 0; deadline_timer = some 100; detach_abort = false })
      [] (omega arith) waiting-IsValid waiting-IsArmed refl refl (omega arith)
