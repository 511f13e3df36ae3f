-- ===== src/Cart/Store.antt =====
-- The durable state of the cart module: the carts (src/redis/cart-cache.ts, `InMemoryCartCache`), the
-- ledger of processed requests and the device index (src/cart/cart-repository.ts,
-- `InMemoryCartRepository`, which shares the cache). A call can fail, and then it writes nothing:
-- `Faults` says which calls do. The Redis repository writes the same three maps in one script, and lets
-- the entries of the ledger and of the index expire: `expire` is the end of an entry of the ledger.
pub mod Tests
pub mod Laws
use voice_order_backend.Base.{
  Bool, List, [], ◌∷◌, Option, none, some, String, Attempt, returned, threw, same, get, put,
  delete_key, is_some, if◌then◌else◌, or_else,
}
use voice_order_backend.Cart.{Cart}

pub data Ledger : Type 0 where
  applied rejected duplicate superseded : Ledger

pub record Store : Type 0 where
  pub carts : List (String × Cart)
  pub processed : List (String × Ledger)
  pub by_device : List (String × List String)

pub record Faults : Type 0 where
  pub was_processed_fails : Bool
  pub get_fails : Bool
  pub mark_fails : Bool
  pub commit_fails : Bool
  pub set_fails : Bool

abbrev pub empty_store : Store
empty_store = record { carts = []; processed = []; by_device = [] }

unfoldable pub guarded {ℓ} : {A : Type ℓ} → Bool → A → Attempt A
guarded fails a = if fails then threw else returned a

-- CartCache.get, set
unfoldable pub get_cart : Faults → String → Store → Attempt (Option Cart)
get_cart f cart_id s = guarded f.get_fails (get cart_id s.carts)

unfoldable pub write_cart : Cart → Store → Store
write_cart cart s = record s { carts = put cart.cart_id cart s.carts }

unfoldable pub set_cart : Faults → Cart → Store → Attempt Store
set_cart f cart s = guarded f.set_fails (write_cart cart s)

pub was_processed : Faults → String → Store → Attempt Bool
was_processed f request_id s = guarded f.was_processed_fails (is_some (get request_id s.processed))

pub mark : String → Ledger → Store → Store
mark request_id outcome s = record s { processed = put request_id outcome s.processed }

pub mark_processed : Faults → String → Ledger → Store → Attempt Store
mark_processed f request_id outcome s = guarded f.mark_fails (mark request_id outcome s)

-- The entry of a request has outlived `ttlSeconds`.
unfoldable pub expire : String → Store → Store
expire request_id s = record s { processed = delete_key request_id s.processed }

-- `Set.add`
unfoldable pub add_member : String → List String → List String
add_member x [] = x ∷ []
add_member x (y ∷ ys) = if same y x then y ∷ ys else y ∷ add_member x ys

unfoldable pub index_device : Option String → String → Store → Store
index_device none cart_id s = s
index_device (some device) cart_id s = record s {
  by_device = put device (add_member cart_id (or_else (get device s.by_device) [])) s.by_device;
}

unfoldable pub index : Cart → Store → Store
index cart s = index_device cart.device_id cart.cart_id s

pub commit_applied : Faults → Cart → String → Store → Attempt Store
commit_applied f cart request_id s =
    guarded f.commit_fails (mark request_id applied (index cart (write_cart cart s)))

unfoldable pub commit_created : Faults → Cart → Store → Attempt Store
commit_created f cart s = guarded f.commit_fails (index cart (write_cart cart s))

confirmed_carts : List String → List (String × Cart) → List Cart
confirmed_carts [] carts = []
confirmed_carts (id ∷ ids) carts =
    let rest = confirmed_carts ids carts in
    elim (get id carts) [
      | none ↦ rest
      | some cart ↦ if is_some cart.confirmed_at then cart ∷ rest else rest
    ]

pub get_orders_by_device : String → Store → List Cart
get_orders_by_device device s = confirmed_carts (or_else (get device s.by_device) []) s.carts
