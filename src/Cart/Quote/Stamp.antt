-- ===== src/Cart/Quote/Stamp.antt =====
-- What src/odoo/apply-quote.ts keeps of the cart.
use voice_order_backend.Base.{◌≡◌, inl, inr, Bool-cases, returned, arith, ◌==◌}
use voice_order_backend.Cart.{Cart}
use voice_order_backend.Cart.Quote.{QuoteResponse, apply_quote_to_cart}
use voice_order_backend.Cart.Applier.Soundness.{Keeps}

pub apply_quote_to_cart-Keeps :
    (c c' : Cart) (q : QuoteResponse) → apply_quote_to_cart c q ≡ returned c' → Keeps c c'
unfolding apply_quote_to_cart
apply_quote_to_cart-Keeps c c' q e = elim (Bool-cases (q.decimal_places == 2)) [
  | inl t ↦ ground (arith, e, t)
  | inr f ↦ ground (arith, e, f)
]
