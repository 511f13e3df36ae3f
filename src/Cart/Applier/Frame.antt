-- ===== src/Cart/Applier/Frame.antt =====
-- The lines that an operation of cart-operation-applier.ts does not name, and when it is refused.
use voice_order_backend.Base.{
  ℕ, ◌≡◌, refl, false, not, List, [], ◌∷◌, ◌++◌, Option, none, some, String, returned, filter_b,
  find?, same, same→eq, arith, map, ap, ◌∙◌,
}
use voice_order_backend.Menu.{MenuItem, MenuLookup}
use voice_order_backend.Contracts.{
  CartOperation, add_item, remove_item, update_quantity, add_modifier, remove_modifier,
}
use voice_order_backend.Cart.{CartLine, Cart}
use voice_order_backend.Cart.Applier.{
  ok, priced_by, price_line, new_line, update_line, apply_operation,
}
use voice_order_backend.Cart.Applier.Edits.{
  Edits, added, removed, updated, extended, reduced, apply_operation-Result,
}

abbrev pub line_of : String → List CartLine → Option CartLine
line_of i ls = find? (λ l. same l.line_id i) ls

-- The line that an operation makes or names.
abbrev pub named : String → CartOperation → String
named line_id (add_item _ _ _) = line_id
named line_id (remove_item target) = target
named line_id (update_quantity target _) = target
named line_id (add_modifier target _) = target
named line_id (remove_modifier target _) = target

abbrev pub repriced : List MenuItem → Option CartLine → Option CartLine
repriced ms none = none
repriced ms (some l) = some (price_line ms l)

line_of-append :
    (i : String) (l : CartLine) (ls : List CartLine)
    → same l.line_id i ≡ false
    → line_of i (ls ++ l ∷ []) ≡ line_of i ls
line_of-append i l [] h = ground arith
line_of-append i l (x ∷ ls) h = ground (arith, line_of-append i l ls h)

line_of-filter :
    (i target : String) (ls : List CartLine)
    → same target i ≡ false
    → line_of i (filter_b (λ l. not (same l.line_id target)) ls) ≡ line_of i ls
line_of-filter i target [] h = refl
line_of-filter i target (l ∷ ls) h =
    ground (arith, same→eq l.line_id target, line_of-filter i target ls h)

line_of-update :
    (i target : String) (f : CartLine → CartLine) (ls : List CartLine)
    → ((l : CartLine) → (f l).line_id ≡ l.line_id)
    → same target i ≡ false
    → line_of i (update_line target f ls) ≡ line_of i ls
unfolding update_line
line_of-update i target f [] k h = refl
line_of-update i target f (l ∷ ls) k h =
    ground (arith, k l, same→eq l.line_id target, line_of-update i target f ls k h)

line_of-price :
    (ms : List MenuItem) (i : String) (ls : List CartLine)
    → line_of i (map (price_line ms) ls) ≡ repriced ms (line_of i ls)
unfolding price_line
line_of-price ms i [] = refl
line_of-price ms i (l ∷ ls) = ground (arith, line_of-price ms i ls)

Edits-others :
    (menu : MenuLookup) (pos_id : ℕ) (line_id : String) (items items' : List CartLine)
    (op : CartOperation)
    → Edits menu pos_id line_id items op items'
    → (i : String) → same (named line_id op) i ≡ false
    → line_of i items' ≡ line_of i items
unfolding new_line
Edits-others menu pos_id line_id items items' op (added item ms r a m) i h =
    line_of-append i _ items h
Edits-others menu pos_id line_id items items' op (removed p) i h = line_of-filter i _ items h
Edits-others menu pos_id line_id items items' op (updated p q) i h =
    line_of-update i _ _ items (λ l. refl) h
Edits-others menu pos_id line_id items items' op (extended line m f o) i h =
    line_of-update i _ _ items (λ l. refl) h
Edits-others menu pos_id line_id items items' op (reduced line m f o) i h =
    line_of-update i _ _ items (λ l. refl) h

-- Every line but the one that the operation makes or names stays as it was, but for its price, which
-- is taken afresh from one read of the menu.
pub apply_operation-others :
    (menu : MenuLookup) (pos_id : ℕ) (now : String) (cart : Cart) (line_id : String)
    (op : CartOperation) (c : Cart)
    → apply_operation menu pos_id now cart line_id op ≡ returned (ok c)
    → (ms : List MenuItem) × ((i : String)
        → same (named line_id op) i ≡ false
        → line_of i c.items ≡ repriced ms (line_of i cart.items))
unfolding priced_by
apply_operation-others menu pos_id now cart line_id op c e =
    let (items, ms, d, read, p) = apply_operation-Result menu pos_id now cart line_id op c e in
    (
      ms,
      λ i h.
          ap (λ (x : Cart). line_of i x.items) p
          ∙ line_of-price ms i items
          ∙ ap (repriced ms) (Edits-others menu pos_id line_id cart.items items op d i h),
    )
