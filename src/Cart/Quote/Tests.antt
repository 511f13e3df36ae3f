-- ===== src/Cart/Quote/Tests.antt =====
-- Rounding at a concrete amount: -2.345 is -234 cents, since halves go up.
use voice_order_backend.Base.{◌≡◌, refl}
use voice_order_backend.Base.Int.{negsuc}
use voice_order_backend.Cart.Quote.{to_cents, minus}

half_cent : to_cents (negsuc 2344999) ≡ negsuc 233
unfolding to_cents minus
half_cent = refl
