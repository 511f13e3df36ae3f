-- ===== src/Cart/Applier/Tests.antt =====
-- A run of cart-operation-applier.ts: two large teas put into an empty cart, and the theorems at it.
use voice_order_backend.Base.{
  ◌≡◌, refl, [], ◌∷◌, none, some, returned, same, get, ◌==◌, arith, Bool, if◌then◌else◌,
}
use voice_order_backend.Base.Int.{pos, ◌+ℤ◌, ◌*ℤ◌}
use voice_order_backend.Menu.{MenuLookup, MenuItem, display_name}
use voice_order_backend.Contracts.{CartOperation, add_item}
use voice_order_backend.Cart.{Cart, CartLine, empty_cart}
use voice_order_backend.Cart.Applier.{
  apply_operation, apply_add_item, ok, append_item, resolve_modifiers, modifier_by_key, new_line,
  to_cart_modifier, priced, priced_by, price_line, unit_price, sum_extras, sum_prices, last_price,
  base_prices, extra_prices, has_line,
}
use voice_order_backend.Cart.Applier.Soundness.{IsSound, Keeps, apply_operation-IsSound}
use voice_order_backend.Cart.Applier.Pricing.{IsPriced}

abbrev pub tea : MenuItem
tea = record {
  product_tmpl_id = 7;
  menu_item_key = "tea";
  names = ("en_US", "Tea") ∷ [];
  base_price_cents = pos 300;
  available = Bool.true;
  modifiers =
      record {
        modifier_key = "large";
        ptav_id = 1;
        name = "Large";
        names = none;
        price_extra_cents = pos 50;
        group_key = none;
        group_name = none;
        required = none;
      }
      ∷ [];
}

abbrev pub tea_menu : MenuLookup
tea_menu = record {
  resolve_item_key = λ p k. returned (if same k "tea" then some tea else none);
  find_by_tmpl_id = λ p n. returned (if n == 7 then some tea else none);
  get_items = λ p ids. returned (tea ∷ []);
}

abbrev pub empty : Cart
empty = empty_cart "c1" 1 (some "d1") none "12:00"

abbrev pub order_teas : CartOperation
order_teas = add_item "tea" 2 ("large" ∷ [])

abbrev pub tea_line : CartLine
tea_line = record {
  line_id = "l0";
  product_tmpl_id = 7;
  product_id = none;
  name = "Tea";
  names = ("en_US", "Tea") ∷ [];
  quantity = 2;
  modifiers = record { ptav_id = 1; name = "Large"; names = none } ∷ [];
  price_cents = pos 700;
}

abbrev pub tea_cart : Cart
tea_cart = record {
  cart_id = "c1";
  pos_config_id = 1;
  device_id = some "d1";
  table_id = none;
  version = 0;
  items = tea_line ∷ [];
  subtotal_cents = pos 700;
  tax_cents = pos 0;
  total_cents = pos 700;
  last_updated = "12:01";
  confirmed_at = none;
  pos_order_id = none;
}

pub tea_run : apply_operation tea_menu 1 "12:01" empty "l0" order_teas ≡ returned (ok tea_cart)
unfolding apply_operation apply_add_item append_item resolve_modifiers modifier_by_key new_line
    to_cart_modifier priced priced_by price_line unit_price sum_extras sum_prices last_price
    base_prices extra_prices display_name empty_cart ◌+ℤ◌ ◌*ℤ◌ get same
tea_run = refl

empty-IsSound : IsSound empty.items
unfolding empty_cart
empty-IsSound = record { distinct = tt; positive = tt }

apply_operation-IsSound_example : Keeps empty tea_cart × IsPriced tea_cart × IsSound tea_cart.items
unfolding has_line empty_cart
apply_operation-IsSound_example =
    apply_operation-IsSound tea_menu 1 "12:01" empty "l0" order_teas tea_cart (omega arith) refl
      empty-IsSound tea_run
