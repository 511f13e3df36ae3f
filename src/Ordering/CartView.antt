-- ===== src/Ordering/CartView.antt =====
-- The cart as the agent sees it: src/ordering/nodes/load-cart.node.ts.
use Prim.Native.Char.{nul}
use voice_order_backend.Ordering.Required.{LineView, ModOption}
use voice_order_backend.Cart.{CartModifier, Cart, CartLine}
use voice_order_backend.Menu.{MenuItem, Names, CandidateModifier, display_name}
use voice_order_backend.Base.Int.{pos, ℤ}
use voice_order_backend.Base.{
  ◌%◌, ◌∷◌, String, false, List, ltb, ◌/◌, some, map, [], Option, ℕ, char_or, find?, if◌then◌else◌,
  suc, str_append, Bool, ◌∷◌, none, ◌==◌, ◌||◌, zero, if◌then◌else◌,
}

pub record CartModifierView : Type 0 where
  pub modifier_key : String
  pub name : String
  pub price_extra_cents : ℤ
  pub group_key : Option String
  pub group_name : Option String
  pub required : Option Bool

pub record CartLineView : Type 0 where
  pub line_id : String
  pub menu_item_key : String
  pub name : String
  pub quantity : ℕ
  pub base_price_cents : ℤ
  pub modifiers : List CartModifierView
  pub available_modifiers : List CartModifierView

pub record CartView : Type 0 where
  pub cart_id : String
  pub pos_config_id : ℕ
  pub version : ℕ
  pub items : List CartLineView

pub to_modifier_view : CandidateModifier → CartModifierView
to_modifier_view m = record {
  modifier_key = m.modifier_key;
  name = m.name;
  price_extra_cents = m.price_extra_cents;
  group_key = m.group_key;
  group_name = m.group_name;
  required = m.required;
}

-- `String(n)`, one digit for each unit of fuel. A number has fewer digits than its successor.
digits : ℕ → ℕ → String
digits zero n = ""
digits (suc fuel) n =
    let rest = digits fuel (n / 10) in
    let last = String.◌∷◌ (char_or nul "0123456789" (n % 10)) "" in
    if ltb n 10 then last else str_append rest last

pub decimal : ℕ → String
unfolding digits
decimal n = digits (suc n) n

has_id : ℕ → List ℕ → Bool
has_id x [] = false
has_id x (y ∷ ys) = (x == y) || has_id x ys

-- `[...new Set(cart.items.map((l) => l.product_tmpl_id))]`; `seen` are those before.
pub distinct_ids : List ℕ → List CartLine → List ℕ
unfolding has_id
distinct_ids seen [] = []
distinct_ids seen (l ∷ ls) =
    let rest = distinct_ids seen ls in
    let fresh = distinct_ids (l.product_tmpl_id ∷ seen) ls in
    if has_id l.product_tmpl_id seen then rest else l.product_tmpl_id ∷ fresh

-- `byTmpl.get(id)`: the last of the items with this id.
pub by_tmpl : ℕ → List MenuItem → Option MenuItem
by_tmpl id [] = none
by_tmpl id (i ∷ items) = elim (by_tmpl id items) [
  | some j ↦ some j
  | none ↦ if i.product_tmpl_id == id then some i else none
]

-- The options that a line has and that the menu knows.
pub attached : List CandidateModifier → List CartModifier → List CartModifierView
attached avail [] = []
attached avail (m ∷ ms) = elim (find? (λ a. a.ptav_id == m.ptav_id) avail) [
  | none ↦ attached avail ms
  | some a ↦ to_modifier_view a ∷ attached avail ms
]

modifiers_of : Option MenuItem → List CandidateModifier
modifiers_of none = []
modifiers_of (some i) = i.modifiers

key_or_id : Option MenuItem → ℕ → String
key_or_id none id = decimal id
key_or_id (some i) id = i.menu_item_key

names_of : Option MenuItem → Option Names
names_of none = none
names_of (some i) = some i.names

price_of : Option MenuItem → ℤ
price_of none = pos 0
price_of (some i) = i.base_price_cents

pub line_view_of : Option MenuItem → CartLine → CartLineView
unfolding modifiers_of key_or_id names_of price_of
line_view_of item l = record {
  line_id = l.line_id;
  menu_item_key = key_or_id item l.product_tmpl_id;
  name = display_name (names_of item) (key_or_id item l.product_tmpl_id);
  quantity = l.quantity;
  base_price_cents = price_of item;
  modifiers = attached (modifiers_of item) l.modifiers;
  available_modifiers = map to_modifier_view (modifiers_of item);
}

-- `buildCartView`, once the menu has been read.
unfoldable pub cart_view_of : List MenuItem → Cart → CartView
cart_view_of items c = record {
  cart_id = c.cart_id;
  pos_config_id = c.pos_config_id;
  version = c.version;
  items = map (λ l. line_view_of (by_tmpl l.product_tmpl_id items) l) c.items;
}

-- What the check of the required groups reads of a line.
option_view : CartModifierView → ModOption
option_view m = record {
  modifier_key = m.modifier_key;
  name = m.name;
  group_key = m.group_key;
  group_name = m.group_name;
  required = m.required;
}

line_option_view : CartLineView → LineView
unfolding option_view
line_option_view l = record {
  line_id = l.line_id;
  name = l.name;
  modifiers = map option_view l.modifiers;
  available_modifiers = map option_view l.available_modifiers;
}

pub line_views : CartView → List LineView
unfolding line_option_view
line_views v = map line_option_view v.items
