-- ===== src/Cart/Applier/Pricing.antt =====
-- The totals of cart-operation-applier.ts.
use voice_order_backend.Base.{◌≡◌, refl, List, [], ◌∷◌, map, String, ◌∙◌}
use voice_order_backend.Base.Int.{ℤ, pos, ◌+ℤ◌, int_laws}
use voice_order_backend.Menu.{MenuItem}
use voice_order_backend.Cart.{Cart, CartLine}
use voice_order_backend.Cart.Applier.{sum_prices, price_line, priced_by}

-- The sum of the line prices, stated by itself.
abbrev pub total_of : List CartLine → ℤ
total_of [] = pos 0
total_of (l ∷ ls) = l.price_cents +ℤ total_of ls

sum_prices-eq : (acc : ℤ) (ls : List CartLine) → sum_prices acc ls ≡ acc +ℤ total_of ls
unfolding sum_prices
sum_prices-eq acc [] = omega int_laws
sum_prices-eq acc (l ∷ ls) = sum_prices-eq (acc +ℤ l.price_cents) ls ∙ omega int_laws

-- The subtotal is the sum of the lines, there is no tax yet, and the total is the subtotal.
pub record IsPriced (c : Cart) : Type 0 where
  pub subtotal : c.subtotal_cents ≡ total_of c.items
  pub tax : c.tax_cents ≡ pos 0
  pub total : c.total_cents ≡ c.subtotal_cents

pub priced_by-IsPriced :
    (now : String) (c : Cart) (items : List CartLine) (ms : List MenuItem)
    → IsPriced (priced_by now c items ms)
unfolding priced_by
priced_by-IsPriced now c items ms = record {
  subtotal = sum_prices-eq (pos 0) (map (price_line ms) items) ∙ omega int_laws;
  tax = refl;
  total = refl;
}
