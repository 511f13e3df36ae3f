-- ===== src/Cart/Quote.antt =====
-- What the cart sends to the point of sale and takes from its quote (src/cart/apply-quote.ts,
-- cart-to-quote-request.ts, cart-to-insert-request.ts, and the shapes of src/odoo/quote-request.ts and
-- insert-cart-request.ts). An amount of money is a decimal in the source. Here it is a whole number of
-- millionths of the currency's unit, and `Math.round(amount * 100)` rounds to a ten-thousandth of that
-- count, halves upwards.
pub mod Stamp
pub mod Rounding
mod Tests
use voice_order_backend.Base.{
  ℕ, zero, suc, ◌+◌, ◌/◌, List, [], ◌∷◌, map, Option, none, some, String, Attempt, returned, threw,
  same, ◌==◌, if◌then◌else◌, or_else,
}
use voice_order_backend.Base.Int.{ℤ, pos, negsuc}
use voice_order_backend.Cart.{CartModifier, CartLine, Cart}

pub record RequestLine : Type 0 where
  pub line_id : String
  pub product_tmpl_id : ℕ
  pub quantity : ℕ
  pub ptav_ids : Option (List ℕ)

pub record InsertCartRequest : Type 0 where
  pub cart_id : String
  pub pos_config_id : ℕ
  pub items : List RequestLine
  pub table_id : Option ℕ

-- `preset_id` is never sent.
pub record QuoteRequest : Type 0 where
  pub pos_config_id : ℕ
  pub items : List RequestLine

-- The fields that the cart reads; a subtotal that is no number is `none`.
pub record QuoteLine : Type 0 where
  pub line_id : String
  pub price_subtotal : Option ℤ

-- `lines` is `none` if it is no array.
pub record QuoteResponse : Type 0 where
  pub decimal_places : ℕ
  pub lines : Option (List QuoteLine)
  pub amount_subtotal : ℤ
  pub amount_tax : ℤ
  pub amount_total : ℤ

-- The number of ptavs decides whether the field is sent.
ptav_ids_of : List CartModifier → Option (List ℕ)
ptav_ids_of [] = none
ptav_ids_of (m ∷ ms) = some (map (λ x. x.ptav_id) (m ∷ ms))

request_line : CartLine → RequestLine
request_line line = record {
  line_id = line.line_id;
  product_tmpl_id = line.product_tmpl_id;
  quantity = line.quantity;
  ptav_ids = ptav_ids_of line.modifiers;
}

pub to_insert_cart_request : Cart → InsertCartRequest
to_insert_cart_request cart = record {
  cart_id = cart.cart_id;
  pos_config_id = cart.pos_config_id;
  items = map request_line cart.items;
  table_id = cart.table_id;
}

pub to_quote_request : Cart → QuoteRequest
to_quote_request cart = record {
  pos_config_id = cart.pos_config_id;
  items = map request_line cart.items;
}

minus : ℕ → ℤ
minus zero = pos 0
minus (suc n) = negsuc n

-- A half is rounded up: -0.5 to 0, 0.5 to 1.
pub to_cents : ℤ → ℤ
unfolding minus
to_cents (pos n) = pos ((n + 5000) / 10000)
to_cents (negsuc n) = minus ((n + 5000) / 10000)

-- `subtotalByLine.get(id)`: the last line with this id whose subtotal is a number.
pub subtotal_by_line : String → List QuoteLine → Option ℤ
subtotal_by_line id [] = none
subtotal_by_line id (l ∷ ls) = elim (subtotal_by_line id ls) [
  | some s ↦ some s
  | none ↦ if same l.line_id id then l.price_subtotal else none
]

stamp_line : List QuoteLine → CartLine → CartLine
stamp_line quote_lines line = elim (subtotal_by_line line.line_id quote_lines) [
  | none ↦ line
  | some s ↦ record line { price_cents = to_cents s }
]

pub apply_quote_to_cart : Cart → QuoteResponse → Attempt Cart
apply_quote_to_cart cart quote =
    if quote.decimal_places == 2
    then returned (record cart {
      items = map (stamp_line (or_else quote.lines [])) cart.items;
      subtotal_cents = to_cents quote.amount_subtotal;
      tax_cents = to_cents quote.amount_tax;
      total_cents = to_cents quote.amount_total;
    })
    else threw
