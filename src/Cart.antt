-- ===== src/Cart.antt =====
-- The cart module (src/cart): its data (cart-types.ts). Instants are the texts that `toISOString`
-- gives; identities that are texts in the source are texts here.
pub mod Applier
pub mod Quote
pub mod Store
pub mod Controller
use voice_order_backend.Base.{ℕ, List, [], Option, none, some, String}
use voice_order_backend.Base.Int.{ℤ, pos}
use voice_order_backend.Menu.{Names}

pub record CartModifier : Type 0 where
  pub ptav_id : ℕ
  pub name : String
  pub names : Option Names

pub record CartLine : Type 0 where
  pub line_id : String
  pub product_tmpl_id : ℕ
  pub product_id : Option ℕ
  pub name : String
  pub names : Names
  pub quantity : ℕ
  pub modifiers : List CartModifier
  pub price_cents : ℤ

pub record Cart : Type 0 where
  pub cart_id : String
  pub pos_config_id : ℕ
  pub device_id : Option String
  pub table_id : Option ℕ
  pub version : ℕ
  pub items : List CartLine
  pub subtotal_cents : ℤ
  pub tax_cents : ℤ
  pub total_cents : ℤ
  pub last_updated : String
  pub confirmed_at : Option String
  pub pos_order_id : Option ℕ

unfoldable pub empty_cart : String → ℕ → Option String → Option ℕ → String → Cart
empty_cart cart_id pos_config_id device_id table_id now = record {
  cart_id = cart_id;
  pos_config_id = pos_config_id;
  device_id = device_id;
  table_id = table_id;
  version = 0;
  items = [];
  subtotal_cents = pos 0;
  tax_cents = pos 0;
  total_cents = pos 0;
  last_updated = now;
  confirmed_at = none;
  pos_order_id = none;
}

-- `CartRejectedError`: a business rule that is surfaced to the customer.
pub record CartRejected : Type 0 where
  pub reason : String
  pub message : String
