-- ===== src/Cart/Quote/Rounding.antt =====
-- `toCents` of src/cart/apply-quote.ts.
use voice_order_backend.Base.{refl, ℕ, zero, suc, ◌+◌, ◌*◌, ◌≤◌, ◌<◌, arith, ◌≡◌, ◌/◌}
use voice_order_backend.Base.Int.{ℤ, pos, negsuc, pos_part, neg_part}
use voice_order_backend.Cart.Quote.{to_cents, minus}

minus_parts : (n : ℕ) → (pos_part (minus n) ≡ 0) × (neg_part (minus n) ≡ n)
unfolding minus
minus_parts zero = (refl, refl)
minus_parts (suc n) = (refl, refl)

-- The cents are the nearest to the amount, and of two that are as near the greater: an amount, in
-- ten-thousandths of a cent, is at most half a cent below and less than half a cent above them.
pub to_cents-nearest :
    (x : ℤ)
    → let r = to_cents x in
      (10000 * pos_part r + neg_part x ≤ pos_part x + 10000 * neg_part r + 5000)
      × (pos_part x + 10000 * neg_part r < 10000 * pos_part r + neg_part x + 5000)
unfolding to_cents
to_cents-nearest (pos n) = (omega arith, omega arith)
to_cents-nearest (negsuc n) =
    let (p, q) = minus_parts ((n + 5000) / 10000) in (omega arith, omega arith)
