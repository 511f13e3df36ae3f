-- ===== src/Cart/Applier.antt =====
-- src/cart/cart-operation-applier.ts: one operation on a cart, and src/cart/cart-validator.ts, its dry
-- run. The line id that `newLineId` makes and the instant that `nowIso` reads are arguments. The
-- lookups are not assumed to agree with one another.
pub mod Tests
pub mod Pricing
pub mod Edits
pub mod Soundness
pub mod Frame
use voice_order_backend.Base.{
  ℕ, zero, suc, ◌+◌, Bool, true, false, not, List, [], ◌∷◌, ◌++◌, map, Option, none, some, String,
  Attempt, returned, threw, ◌>>=◌, or_else, filter_b, find?, same, ◌==◌, if◌then◌else◌, str_append,
}
use voice_order_backend.Base.Int.{ℤ, pos, ◌+ℤ◌, ◌*ℤ◌}
use voice_order_backend.Menu.{Names, CandidateModifier, MenuItem, MenuLookup, display_name}
use voice_order_backend.Contracts.{
  CartOperation, add_item, remove_item, update_quantity, add_modifier, remove_modifier,
}
use voice_order_backend.Cart.{CartModifier, CartLine, Cart, CartRejected}

-- `Result<Cart, CartRejectedError>`
pub data Applied : Type 0 where
  ok : Cart → Applied
  err : CartRejected → Applied

pub to_cart_modifier : CandidateModifier → CartModifier
to_cart_modifier m = record { ptav_id = m.ptav_id; name = m.name; names = m.names }

-- `new Set`, in order of first occurrence.
remember : ℕ → List ℕ → List ℕ
remember n [] = n ∷ []
remember n (m ∷ ms) = if m == n then m ∷ ms else m ∷ remember n ms

pub distinct : List ℕ → List ℕ → List ℕ
distinct seen [] = seen
distinct seen (n ∷ ns) = distinct (remember n seen) ns

-- `new Map(pairs).get(k)`: the last pair with this key.
pub last_price : ℕ → List (ℕ × ℤ) → Option ℤ
last_price k [] = none
last_price k ((j, v) ∷ ps) = elim (last_price k ps) [
  | some w ↦ some w
  | none ↦ if j == k then some v else none
]

base_prices : List MenuItem → List (ℕ × ℤ)
base_prices items = map (λ i. (i.product_tmpl_id, i.base_price_cents)) items

extra_prices : List MenuItem → List (ℕ × ℤ)
extra_prices [] = []
extra_prices (i ∷ items) =
    map (λ m. (m.ptav_id, m.price_extra_cents)) i.modifiers ++ extra_prices items

sum_extras : List (ℕ × ℤ) → ℤ → List CartModifier → ℤ
sum_extras extras acc [] = acc
sum_extras extras acc (m ∷ ms) =
    sum_extras extras (acc +ℤ or_else (last_price m.ptav_id extras) (pos 0)) ms

-- The price of one unit of a line, by the menu items read.
pub unit_price : List MenuItem → CartLine → ℤ
unit_price menu_items line =
    or_else (last_price line.product_tmpl_id (base_prices menu_items)) (pos 0)
    +ℤ sum_extras (extra_prices menu_items) (pos 0) line.modifiers

pub price_line : List MenuItem → CartLine → CartLine
price_line menu_items line = record line {
  price_cents = unit_price menu_items line *ℤ pos line.quantity;
}

pub sum_prices : ℤ → List CartLine → ℤ
sum_prices acc [] = acc
sum_prices acc (line ∷ lines) = sum_prices (acc +ℤ line.price_cents) lines

-- The cart with these lines, priced by the menu items read.
pub priced_by : String → Cart → List CartLine → List MenuItem → Cart
priced_by now cart items menu_items =
    let priced_items = map (price_line menu_items) items in
    let subtotal = sum_prices (pos 0) priced_items in
    record cart {
      items = priced_items;
      subtotal_cents = subtotal;
      tax_cents = pos 0;
      total_cents = subtotal;
      last_updated = now;
    }

pub tmpl_ids : List CartLine → List ℕ
tmpl_ids items = distinct [] (map (λ l. l.product_tmpl_id) items)

pub priced : MenuLookup → ℕ → String → Cart → List CartLine → Attempt Applied
priced menu pos_id now cart items = do
  menu_items ← menu.get_items pos_id (tmpl_ids items)
  returned (ok (priced_by now cart items menu_items))

pub reject : String → String → Attempt Applied
reject reason message = returned (err (record { reason = reason; message = message }))

pub line_gone : Attempt Applied
line_gone = reject "line_gone" "That item is no longer in your cart."

pub modifier_by_key : String → List CandidateModifier → Option CandidateModifier
modifier_by_key key mods = find? (λ m. same m.modifier_key key) mods

-- The modifiers of a new line; `none` if the item does not offer one of them.
pub resolve_modifiers : List CandidateModifier → List String → Option (List CartModifier)
resolve_modifiers offered [] = some []
resolve_modifiers offered (key ∷ keys) = elim (modifier_by_key key offered) [
  | none ↦ none
  | some m ↦ elim (resolve_modifiers offered keys) [
    | none ↦ none
    | some ms ↦ some (to_cart_modifier m ∷ ms)
  ]
]

pub new_line : String → MenuItem → ℕ → List CartModifier → CartLine
new_line line_id item quantity modifiers = record {
  line_id = line_id;
  product_tmpl_id = item.product_tmpl_id;
  product_id = none;
  name = display_name (some item.names) item.menu_item_key;
  names = item.names;
  quantity = quantity;
  modifiers = modifiers;
  price_cents = pos 0;
}

pub has_line : String → List CartLine → Bool
has_line line_id [] = false
has_line line_id (l ∷ ls) = if same l.line_id line_id then true else has_line line_id ls

-- `items.map((l) => (l.line_id === line_id ? f(l) : l))`
pub update_line : String → (CartLine → CartLine) → List CartLine → List CartLine
update_line line_id f items = map (λ l. if same l.line_id line_id then f l else l) items

pub has_ptav : ℕ → List CartModifier → Bool
has_ptav p [] = false
has_ptav p (m ∷ ms) = if m.ptav_id == p then true else has_ptav p ms

pub with_modifier : CandidateModifier → List CartModifier → List CartModifier
with_modifier mod_ ms = if has_ptav mod_.ptav_id ms then ms else ms ++ to_cart_modifier mod_ ∷ []

pub without_modifier : CandidateModifier → List CartModifier → List CartModifier
without_modifier mod_ ms = filter_b (λ m. not (m.ptav_id == mod_.ptav_id)) ms

module _ (menu : MenuLookup) (pos_id : ℕ) (now : String) (cart : Cart) where
  pub append_item : String → MenuItem → ℕ → Option (List CartModifier) → Attempt Applied
  append_item line_id item quantity none = reject "invalid_modifier" (
      str_append (display_name (some item.names) item.menu_item_key)
        " does not support that option.")
  append_item line_id item quantity (some modifiers) =
      priced menu pos_id now cart (cart.items ++ new_line line_id item quantity modifiers ∷ [])

  pub apply_add_item : String → ℕ → List String → Option MenuItem → Attempt Applied
  apply_add_item line_id quantity keys none =
      reject "unavailable_item" "That item is not available."
  apply_add_item line_id quantity keys (some item) =
      if item.available
      then append_item line_id item quantity (resolve_modifiers item.modifiers keys)
      else reject "unavailable_item" "That item is not available."

  -- The last part of an edit of a line's modifiers.
  pub apply_modifier_edit :
      (CandidateModifier → List CartModifier → List CartModifier)
      → String
      → CartLine
      → Option CandidateModifier
      → Attempt Applied
  apply_modifier_edit edit target line none =
      reject "invalid_modifier" "That option is not valid for this item."
  apply_modifier_edit edit target line (some m) =
      priced menu pos_id now cart
        (update_line target (λ l. record l { modifiers = edit m line.modifiers }) cart.items)

  pub apply_to_line :
      (CandidateModifier → List CartModifier → List CartModifier)
      → String
      → String
      → Option CartLine
      → Attempt Applied
  apply_to_line edit target key none = line_gone
  apply_to_line edit target key (some line) = do
    menu_item ← menu.find_by_tmpl_id pos_id line.product_tmpl_id
    apply_modifier_edit edit target line
        (elim menu_item [ none ↦ none | some i ↦ modifier_by_key key i.modifiers ])

  pub apply_operation : String → CartOperation → Attempt Applied
  apply_operation line_id (add_item key quantity keys) = do
    item ← menu.resolve_item_key pos_id key
    apply_add_item line_id quantity keys item
  apply_operation line_id (remove_item target) =
      if has_line target cart.items
      then priced menu pos_id now cart (filter_b (λ l. not (same l.line_id target)) cart.items)
      else line_gone
  apply_operation line_id (update_quantity target quantity) =
      if has_line target cart.items
      then (if quantity == 0
          then reject "invalid_quantity" "Quantity must be at least 1."
          else priced menu pos_id now cart
              (update_line target (λ l. record l { quantity = quantity }) cart.items))
      else line_gone
  apply_operation line_id (add_modifier target key) =
      apply_to_line with_modifier target key (find? (λ l. same l.line_id target) cart.items)
  apply_operation line_id (remove_modifier target key) =
      apply_to_line without_modifier target key (find? (λ l. same l.line_id target) cart.items)

  -- cart-validator.ts: `none` is `ok(undefined)`.
  pub validate_operation : String → CartOperation → Attempt (Option CartRejected)
  validate_operation line_id op = do
    r ← apply_operation line_id op
    returned (elim r [ ok _ ↦ none | err e ↦ some e ])
