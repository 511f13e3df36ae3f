-- ===== src/Cart/Applier/Edits.antt =====
-- What an operation of cart-operation-applier.ts means, as a relation between the lines before and
-- after, and what each refusal means; the code refines both.
use voice_order_backend.Base.{
  >>=-eq-returned, ℕ, zero, suc, ◌<◌, ◌≡◌, refl, true, not, List, [], ◌∷◌, ◌++◌, Option, none, some,
  String, returned, filter_b, find?, same, arith, inl, inr, Bool-cases, Option-cases,
}
use voice_order_backend.Menu.{CandidateModifier, MenuItem, MenuLookup}
use voice_order_backend.Contracts.{
  CartOperation, add_item, remove_item, update_quantity, add_modifier, remove_modifier,
}
use voice_order_backend.Cart.{CartModifier, CartLine, Cart}
use voice_order_backend.Cart.Applier.{
  to_cart_modifier, tmpl_ids, ok, priced, priced_by, reject, line_gone, modifier_by_key,
  resolve_modifiers, new_line, has_line, update_line, with_modifier, without_modifier, append_item,
  apply_add_item, apply_modifier_edit, apply_to_line, apply_operation,
}

-- Each key, in order, has an option on offer, of which the line keeps what it needs.
pub data Chosen (offered : List CandidateModifier) : List String → List CartModifier → Type 0 where
  no_keys : Chosen offered [] []
  next_key :
      {key : String} {keys : List String} {ms : List CartModifier} (m : CandidateModifier)
      → modifier_by_key key offered ≡ some m
      → Chosen offered keys ms
      → Chosen offered
          (key ∷ keys)
          (record { ptav_id = m.ptav_id; name = m.name; names = m.names } ∷ ms)

resolve_modifiers-Chosen :
    (offered : List CandidateModifier) (keys : List String) (ms : List CartModifier)
    → resolve_modifiers offered keys ≡ some ms
    → Chosen offered keys ms
unfolding resolve_modifiers to_cart_modifier
resolve_modifiers-Chosen offered [] ms e = let p : ms ≡ [] = cc in rw p no_keys
resolve_modifiers-Chosen offered (key ∷ keys) ms e =
    elim (Option-cases (modifier_by_key key offered)) [
      | inl gone ↦ absurd (ground (arith, gone, e))
      | inr (m, found) ↦ elim (Option-cases (resolve_modifiers offered keys)) [
        | inl gone ↦ absurd (ground (arith, found, gone, e))
        | inr (rest, r) ↦
            let p : ms ≡ to_cart_modifier m ∷ rest = ground (arith, found, r, e) in
            rw p (next_key m found (resolve_modifiers-Chosen offered keys rest r))
      ]
    ]

module _ (menu : MenuLookup) (pos_id : ℕ) (line_id : String) where
  -- The option of this key on the menu item of this line.
  pub record Offers (line : CartLine) (key : String) (m : CandidateModifier) : Type 0 where
    pub item : MenuItem
    pub read : menu.find_by_tmpl_id pos_id line.product_tmpl_id ≡ returned (some item)
    pub offered : modifier_by_key key item.modifiers ≡ some m

  pub data Edits (items : List CartLine) : CartOperation → List CartLine → Type 0 where
    added :
        {key : String} {quantity : ℕ} {keys : List String} (item : MenuItem)
        (ms : List CartModifier)
        → menu.resolve_item_key pos_id key ≡ returned (some item)
        → item.available ≡ true
        → Chosen item.modifiers keys ms
        → Edits items (add_item key quantity keys) (items ++ new_line line_id item quantity ms ∷ [])
    removed :
        {target : String}
        → has_line target items ≡ true
        → Edits items (remove_item target) (filter_b (λ l. not (same l.line_id target)) items)
    updated :
        {target : String} {quantity : ℕ}
        → has_line target items ≡ true
        → 0 < quantity
        → Edits items
            (update_quantity target quantity)
            (update_line target (λ l. record l { quantity = quantity }) items)
    extended :
        {target key : String} (line : CartLine) (m : CandidateModifier)
        → find? (λ l. same l.line_id target) items ≡ some line
        → Offers line key m
        → Edits items (add_modifier target key) (
            update_line target (λ l. record l { modifiers = with_modifier m line.modifiers }) items)
    reduced :
        {target key : String} (line : CartLine) (m : CandidateModifier)
        → find? (λ l. same l.line_id target) items ≡ some line
        → Offers line key m
        → Edits items (remove_modifier target key) (
            update_line target
              (λ l. record l { modifiers = without_modifier m line.modifiers })
              items)

-- A cart that comes back has the edited lines, priced by what the menu answers for their items.
abbrev pub Result : MenuLookup → ℕ → String → String → Cart → CartOperation → Cart → Type 0
Result menu pos_id now line_id cart op c =
    (items : List CartLine) × (menu_items : List MenuItem) × Edits menu pos_id line_id cart.items op
      items
    × (menu.get_items pos_id (tmpl_ids items) ≡ returned menu_items)
    × (c ≡ priced_by now cart items menu_items)

module _ (menu : MenuLookup) (pos_id : ℕ) (now : String) (cart : Cart) where
  priced-ok :
      (items : List CartLine) (c : Cart)
      → priced menu pos_id now cart items ≡ returned (ok c)
      → (menu_items : List MenuItem) × (menu.get_items pos_id (tmpl_ids items)
          ≡ returned menu_items)
        × (c ≡ priced_by now cart items menu_items)
  unfolding priced
  priced-ok items c e =
      let (ms, read, returns) = >>=-eq-returned (menu.get_items pos_id (tmpl_ids items)) _ e in
      (ms, read, cc)

  -- The lines are the edited ones: what is left is how they are priced.
  edited :
      (line_id : String) (op : CartOperation) (items : List CartLine) (c : Cart)
      → Edits menu pos_id line_id cart.items op items
      → priced menu pos_id now cart items ≡ returned (ok c)
      → Result menu pos_id now line_id cart op c
  edited line_id op items c d e =
      let (ms, read, priced_lem) = priced-ok items c e in (items, ms, d, read, priced_lem)

  add-ok :
      (line_id key : String) (quantity : ℕ) (keys : List String) (o : Option MenuItem) (c : Cart)
      → menu.resolve_item_key pos_id key ≡ returned o
      → apply_add_item menu pos_id now cart line_id quantity keys o ≡ returned (ok c)
      → Result menu pos_id now line_id cart (add_item key quantity keys) c
  unfolding apply_add_item append_item reject
  add-ok line_id key quantity keys none c r e = absurd (cc)
  add-ok line_id key quantity keys (some item) c r e = elim (Bool-cases item.available) [
    | inl here ↦ elim (Option-cases (resolve_modifiers item.modifiers keys)) [
      | inl missing ↦ absurd (ground arith)
      | inr (ms, found) ↦
          edited line_id _ (cart.items ++ new_line line_id item quantity ms ∷ []) c
            (added item ms r here (resolve_modifiers-Chosen item.modifiers keys ms found))
            (ground arith)
    ]
    | inr gone ↦ absurd (ground arith)
  ]

  modifier-ok :
      (edit : CandidateModifier → List CartModifier → List CartModifier) (op : CartOperation)
      (line_id target key : String) (o : Option CartLine) (c : Cart)
      → ((line : CartLine) (m : CandidateModifier)
          → o ≡ some line
          → Offers menu pos_id line_id line key m
          → Edits menu pos_id line_id cart.items op
              (update_line target (λ l. record l { modifiers = edit m line.modifiers }) cart.items))
      → apply_to_line menu pos_id now cart edit target key o ≡ returned (ok c)
      → Result menu pos_id now line_id cart op c
  unfolding apply_to_line apply_modifier_edit reject line_gone
  modifier-ok edit op line_id target key none c k e = absurd (cc)
  modifier-ok edit op line_id target key (some line) c k e =
      let (o, read, rest) =
        >>=-eq-returned (menu.find_by_tmpl_id pos_id line.product_tmpl_id) _ e in
      found o read rest
    where
      found :
          (o : Option MenuItem)
          → menu.find_by_tmpl_id pos_id line.product_tmpl_id ≡ returned o
          → apply_modifier_edit menu pos_id now cart edit target line
              (elim o [ none ↦ none | some i ↦ modifier_by_key key i.modifiers ])
            ≡ returned (ok c)
          → Result menu pos_id now line_id cart op c
      found none read rest = absurd (cc)
      found (some item) read rest = elim (Option-cases (modifier_by_key key item.modifiers)) [
        | inl missing ↦ absurd (ground arith)
        | inr (m, offered) ↦
            edited line_id op _ c
              (k line m refl (record { item = item; read = read; offered = offered }))
              (ground arith)
      ]

  pub apply_operation-Result :
      (line_id : String) (op : CartOperation) (c : Cart)
      → apply_operation menu pos_id now cart line_id op ≡ returned (ok c)
      → Result menu pos_id now line_id cart op c
  unfolding apply_operation line_gone reject
  apply_operation-Result line_id (add_item key quantity keys) c e =
      let (o, r, rest) = >>=-eq-returned (menu.resolve_item_key pos_id key) _ e in
      add-ok line_id key quantity keys o c r rest
  apply_operation-Result line_id (remove_item target) c e =
      elim (Bool-cases (has_line target cart.items)) [
        | inl here ↦ edited line_id _ _ c (removed here) (ground arith)
        | inr gone ↦ absurd (ground arith)
      ]
  apply_operation-Result line_id (update_quantity target zero) c e = absurd (ground arith)
  apply_operation-Result line_id (update_quantity target (suc n)) c e =
      elim (Bool-cases (has_line target cart.items)) [
        | inl here ↦ edited line_id _ _ c (updated here (omega arith)) (ground arith)
        | inr gone ↦ absurd (ground arith)
      ]
  apply_operation-Result line_id (add_modifier target key) c e =
      modifier-ok with_modifier _ line_id target key _ c (λ line m f o. extended line m f o) e
  apply_operation-Result line_id (remove_modifier target key) c e =
      modifier-ok without_modifier _ line_id target key _ c (λ line m f o. reduced line m f o) e
