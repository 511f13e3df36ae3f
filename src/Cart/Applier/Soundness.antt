-- ===== src/Cart/Applier/Soundness.antt =====
-- What cart-operation-applier.ts keeps of a cart: its identity, distinct lines, positive quantities,
-- and the lines that an operation does not name.
use voice_order_backend.Cart.Applier.Pricing.{IsPriced, priced_by-IsPriced}
use voice_order_backend.Base.{
  ℕ, ◌<◌, ◌≡◌, refl, Bool, true, false, List, [], ◌∷◌, ◌++◌, String, filter_b, same, arith, All,
  map, same_comm, if◌then◌else◌, returned,
}
use voice_order_backend.Menu.{MenuLookup, MenuItem}
use voice_order_backend.Contracts.{CartOperation, HasQuantity}
use voice_order_backend.Cart.{CartLine, Cart}
use voice_order_backend.Cart.Applier.{
  new_line, has_line, update_line, priced_by, apply_operation, MenuItem, price_line, ok,
}
use voice_order_backend.Cart.Applier.Edits.{
  Edits, added, removed, updated, extended, reduced, apply_operation-Result,
}

abbrev pub Distinct : List CartLine → Type 0
Distinct [] = Unit {0}
Distinct (l ∷ ls) = (has_line l.line_id ls ≡ false) × Distinct ls

abbrev pub Positive : List CartLine → Type 0
Positive ls = All (λ l. 0 < l.quantity) ls

-- A change of the lines one by one, which keeps their ids.
module _ (f : CartLine → CartLine) (keeps : (l : CartLine) → (f l).line_id ≡ l.line_id) where
  has_line-map : (i : String) (ls : List CartLine) → has_line i (map f ls) ≡ has_line i ls
  unfolding has_line
  has_line-map i [] = refl
  has_line-map i (l ∷ ls) = rw (keeps l, has_line-map i ls)

  Distinct-map : (ls : List CartLine) → Distinct ls → Distinct (map f ls)
  Distinct-map [] d = tt
  Distinct-map (l ∷ ls) d = (rw (keeps l, has_line-map l.line_id ls) d.0, Distinct-map ls d.1)

Positive-map :
    (f : CartLine → CartLine) (ls : List CartLine)
    → ((l : CartLine) → 0 < l.quantity → 0 < (f l).quantity)
    → Positive ls
    → Positive (map f ls)
Positive-map f [] k p = tt
Positive-map f (l ∷ ls) k p = (k l p.0, Positive-map f ls k p.1)

has_line-append :
    (i : String) (l : CartLine) (ls : List CartLine)
    → has_line i (ls ++ l ∷ []) ≡ (if has_line i ls then true else same l.line_id i)
unfolding has_line
has_line-append i l [] = ground arith
has_line-append i l (x ∷ ls) = ground (arith, has_line-append i l ls)

Distinct-append :
    (l : CartLine) (ls : List CartLine)
    → has_line l.line_id ls ≡ false
    → Distinct ls
    → Distinct (ls ++ l ∷ [])
unfolding has_line
Distinct-append l [] h d = (refl, tt)
Distinct-append l (x ∷ ls) h d = (
  ground (arith, has_line-append x.line_id l ls, same_comm l.line_id x.line_id),
  Distinct-append l ls (ground arith) d.1,
)

Positive-append :
    (l : CartLine) (ls : List CartLine) → 0 < l.quantity → Positive ls → Positive (ls ++ l ∷ [])
Positive-append l [] h p = (h, tt)
Positive-append l (x ∷ ls) h p = (p.0, Positive-append l ls h p.1)

has_line-filter :
    (i : String) (q : CartLine → Bool) (ls : List CartLine)
    → has_line i ls ≡ false
    → has_line i (filter_b q ls) ≡ false
unfolding has_line
has_line-filter i q [] h = h
has_line-filter i q (l ∷ ls) h = ground (arith, has_line-filter i q ls)

Distinct-filter :
    (q : CartLine → Bool) (ls : List CartLine) → Distinct ls → Distinct (filter_b q ls)
Distinct-filter q [] d = tt
Distinct-filter q (l ∷ ls) d =
    ground (arith, has_line-filter l.line_id q ls d.0, Distinct-filter q ls d.1)

Positive-filter :
    (q : CartLine → Bool) (ls : List CartLine) → Positive ls → Positive (filter_b q ls)
Positive-filter q [] p = tt
Positive-filter q (l ∷ ls) p = ground (arith, Positive-filter q ls p.1)

pub record IsSound (ls : List CartLine) : Type 0 where
  pub distinct : Distinct ls
  pub positive : Positive ls

update_line-IsSound :
    (target : String) (f : CartLine → CartLine) (ls : List CartLine)
    → ((l : CartLine) → (f l).line_id ≡ l.line_id)
    → ((l : CartLine) → 0 < l.quantity → 0 < (f l).quantity)
    → IsSound ls
    → IsSound (update_line target f ls)
unfolding update_line
update_line-IsSound target f ls k q s = record {
  distinct =
      Distinct-map (λ l. if same l.line_id target then f l else l) (λ l. ground (arith, k l)) ls
        s.distinct;
  positive =
      Positive-map (λ l. if same l.line_id target then f l else l) ls (λ l h. ground (arith, q l h))
        s.positive;
}

Edits-IsSound :
    (menu : MenuLookup) (pos_id : ℕ) (line_id : String) (items items' : List CartLine)
    (op : CartOperation)
    → Edits menu pos_id line_id items op items'
    → HasQuantity op
    → has_line line_id items ≡ false
    → IsSound items
    → IsSound items'
unfolding new_line
Edits-IsSound menu pos_id line_id items items' op (added item ms r a m) q fresh s = record {
  distinct = Distinct-append _ items fresh s.distinct;
  positive = Positive-append _ items q s.positive;
}
Edits-IsSound menu pos_id line_id items items' op (removed h) q fresh s = record {
  distinct = Distinct-filter _ items s.distinct;
  positive = Positive-filter _ items s.positive;
}
Edits-IsSound menu pos_id line_id items items' op (updated h p) q fresh s =
    update_line-IsSound _ _ items (λ l. refl) (λ l h. p) s
Edits-IsSound menu pos_id line_id items items' op (extended line m f o) q fresh s =
    update_line-IsSound _ _ items (λ l. refl) (λ l h. h) s
Edits-IsSound menu pos_id line_id items items' op (reduced line m f o) q fresh s =
    update_line-IsSound _ _ items (λ l. refl) (λ l h. h) s

-- The new cart is the old one but for its lines and prices.
pub record Keeps (before after : Cart) : Type 0 where
  pub cart_id : after.cart_id ≡ before.cart_id
  pub pos_config_id : after.pos_config_id ≡ before.pos_config_id
  pub device_id : after.device_id ≡ before.device_id
  pub table_id : after.table_id ≡ before.table_id
  pub version : after.version ≡ before.version
  pub confirmed_at : after.confirmed_at ≡ before.confirmed_at
  pub pos_order_id : after.pos_order_id ≡ before.pos_order_id

pub priced_by-Keeps :
    (now : String) (c : Cart) (items : List CartLine) (ms : List MenuItem)
    → Keeps c (priced_by now c items ms)
unfolding priced_by
priced_by-Keeps now c items ms = ground arith

priced_by-IsSound :
    (now : String) (c : Cart) (items : List CartLine) (ms : List MenuItem)
    → IsSound items
    → IsSound (priced_by now c items ms).items
unfolding priced_by price_line
priced_by-IsSound now c items ms s = record {
  distinct = Distinct-map (price_line ms) (λ l. refl) items s.distinct;
  positive = Positive-map (price_line ms) items (λ l h. h) s.positive;
}

-- An operation that succeeds on a sound cart keeps the cart's identity, version and confirmation,
-- prices it, and leaves its line ids distinct and its quantities positive, if the operation's
-- quantity is positive and the id for a new line is not in the cart.
pub apply_operation-IsSound :
    (menu : MenuLookup) (pos_id : ℕ) (now : String) (cart : Cart) (line_id : String)
    (op : CartOperation) (c : Cart)
    → HasQuantity op
    → has_line line_id cart.items ≡ false
    → IsSound cart.items
    → apply_operation menu pos_id now cart line_id op ≡ returned (ok c)
    → Keeps cart c × IsPriced c × IsSound c.items
apply_operation-IsSound menu pos_id now cart line_id op c q fresh s e =
    let (items, ms, d, read, p) = apply_operation-Result menu pos_id now cart line_id op c e in
    (
      rw p (priced_by-Keeps now cart items ms),
      rw p (priced_by-IsPriced now cart items ms),
      rw p (
          priced_by-IsSound now cart items ms
            (Edits-IsSound menu pos_id line_id cart.items items op d q fresh s)),
    )
