-- ===== src/Cart/Controller.antt =====
-- src/cart/cart-controller.ts, the one writer of cart state. A method runs under the cart's lock, so
-- each is one step on the store. It returns the store and the events that it emits, in order.
pub mod Tests
pub mod Idempotency
pub mod Batches
pub mod Confirmation
pub mod Confirming
pub mod History
use voice_order_backend.Base.{
  ℕ, suc, ◌+◌, Bool, true, false, List, [], ◌∷◌, ◌++◌, map, Option, none, some, String, Attempt,
  returned, threw, ◌>>=◌, is_some, or_else, ltb, if◌then◌else◌,
}
use voice_order_backend.Menu.{MenuLookup}
use voice_order_backend.Contracts.{CartOperation, OrderProposal}
use voice_order_backend.Cart.{Cart, CartRejected, empty_cart}
use voice_order_backend.Cart.Applier.{Applied, ok, err, apply_operation}
use voice_order_backend.Cart.Quote.{
  QuoteRequest, QuoteResponse, InsertCartRequest, to_quote_request, to_insert_cart_request,
  apply_quote_to_cart,
}
use voice_order_backend.Cart.Store.{
  Store, Faults, rejected, get_cart, set_cart, was_processed, mark_processed, commit_applied,
  commit_created,
}

-- What the controller does not implement: the menu, the point of sale, fresh line ids, the clock,
-- and which calls of the store fail.
pub record Env : Type 0 where
  pub menu : MenuLookup
  pub quote : QuoteRequest → Attempt QuoteResponse
  pub insert_cart : InsertCartRequest → Attempt ℕ
  pub new_line_id : ℕ → String
  pub now : String
  pub faults : Faults

pub record CartUpdated : Type 0 where
  pub cart_id : String
  pub pos_config_id : ℕ
  pub version : ℕ
  pub cart : Cart
  pub request_id : String

pub record OperationRejected : Type 0 where
  pub cart_id : String
  pub request_id : String
  pub reason : String
  pub message : String
  pub operation : Option CartOperation
  pub session_id : Option String

pub data BusEvent : Type 0 where
  cart_updated : CartUpdated → BusEvent
  operation_rejected : OperationRejected → BusEvent

pub record Rejection : Type 0 where
  pub op : CartOperation
  pub error : CartRejected

-- The loop over the operations: the cart so far, how many were applied, what was rejected.
pub record Batch : Type 0 where
  pub cart : Cart
  pub applied : ℕ
  pub rejections : List Rejection

after_operation : CartOperation → Batch → Applied → Batch
after_operation op b (ok cart) = record b { cart = cart; applied = b.applied + 1 }
after_operation op b (err e) = record b {
  rejections = b.rejections ++ record { op = op; error = e } ∷ [];
}

pub apply_all : Env → ℕ → ℕ → List CartOperation → Batch → Attempt Batch
apply_all env pos_id n [] b = returned b
apply_all env pos_id n (op ∷ ops) b = do
  r ← apply_operation env.menu pos_id env.now b.cart (env.new_line_id n) op
  apply_all env pos_id (suc n) ops (after_operation op b r)

-- What the locked part of `applyProposal` leaves: the store, the cart to announce, the rejections.
pub record Done : Type 0 where
  pub store : Store
  pub updated : Option Cart
  pub rejections : List Rejection

pub confirmed_rejection : CartOperation → Rejection
confirmed_rejection op = record {
  op = op;
  error = record {
    reason = "cart_confirmed";
    message = "That order has already been sent to the kitchen. Please ask a server for changes.";
  };
}

-- The quote is best effort: without it the local prices stand.
pub quoted : Env → Cart → Cart
quoted env cart = elim (env.quote (to_quote_request cart)) [
  | threw ↦ cart
  | returned q ↦ elim (apply_quote_to_cart cart q) [ threw ↦ cart | returned c ↦ c ]
]

pub commit_cart : Env → OrderProposal → Store → List Rejection → Cart → Attempt Done
commit_cart env p s rejections cart = commit_applied env.faults cart p.request_id s >>= λ s'.
    returned (record { store = s'; updated = some cart; rejections = rejections })

pub mark_rejected : Env → OrderProposal → Store → List Rejection → Attempt Done
mark_rejected env p s rejections = mark_processed env.faults p.request_id rejected s >>= λ s'.
    returned (record { store = s'; updated = none; rejections = rejections })

pub commit_batch : Env → OrderProposal → Store → Batch → Attempt Done
commit_batch env p s b =
    if ltb 0 b.applied
    then commit_cart env p s b.rejections
        (quoted env (record b.cart { version = b.cart.version + 1 }))
    else mark_rejected env p s b.rejections

pub start : Cart → Batch
start cart = record { cart = cart; applied = 0; rejections = [] }

pub apply_to_cart : Env → OrderProposal → Store → Cart → Attempt Done
apply_to_cart env p s cart =
    if is_some cart.confirmed_at
    then mark_rejected env p s (map confirmed_rejection p.operations)
    else (apply_all env p.pos_config_id 0 p.operations (start cart) >>= commit_batch env p s)

pub load_and_apply : Env → OrderProposal → Store → Attempt Done
load_and_apply env p s = do
  found ← get_cart env.faults p.cart_id s
  apply_to_cart env p s (or_else found (empty_cart p.cart_id p.pos_config_id none none env.now))

-- The body of the `try`.
pub try_proposal : Env → OrderProposal → Store → Attempt Done
try_proposal env p s = do
  seen ← was_processed env.faults p.request_id s
  if seen
      then returned (record { store = s; updated = none; rejections = [] })
      else load_and_apply env p s

pub rejection_event : OrderProposal → Option String → Rejection → BusEvent
rejection_event p session r = operation_rejected (record {
  cart_id = p.cart_id;
  request_id = p.request_id;
  reason = r.error.reason;
  message = r.error.message;
  operation = some r.op;
  session_id = session;
})

update_event : OrderProposal → Option Cart → List BusEvent
update_event p none = []
update_event p (some cart) =
    cart_updated (record {
      cart_id = cart.cart_id;
      pos_config_id = cart.pos_config_id;
      version = cart.version;
      cart = cart;
      request_id = p.request_id;
    })
    ∷ []

pub failure_event : OrderProposal → Option String → BusEvent
failure_event p session = operation_rejected (record {
  cart_id = p.cart_id;
  request_id = p.request_id;
  reason = "internal_error";
  message = "Sorry, something went wrong. Please try again.";
  operation = none;
  session_id = session;
})

-- The `catch`, and what is emitted after the `try`.
pub conclude : OrderProposal → Option String → Store → Attempt Done → Store × List BusEvent
unfolding rejection_event update_event failure_event
conclude p session s threw = (s, failure_event p session ∷ [])
conclude p session s (returned d) =
    (d.store, update_event p d.updated ++ map (rejection_event p session) d.rejections)

pub apply_proposal : Env → OrderProposal → Option String → Store → Store × List BusEvent
apply_proposal env p session s = conclude p session s (try_proposal env p s)

-- `client.connected`
pub record ClientConnected : Type 0 where
  pub cart_id : String
  pub pos_config_id : ℕ
  pub device_id : String
  pub table_id : Option ℕ

pub create_cart : Env → ClientConnected → Option Cart → Store → Attempt Store
create_cart env e (some cart) s = returned s
create_cart env e none s =
    commit_created env.faults
      (empty_cart e.cart_id e.pos_config_id (some e.device_id) e.table_id env.now) s

pub ensure_cart : Env → ClientConnected → Store → Attempt Store
ensure_cart env e s = do found ← get_cart env.faults e.cart_id s; create_cart env e found s

-- How `confirm` ends: with the id of the point of sale's order, or an error.
pub data Confirmed : Type 0 where
  order_id : ℕ → Confirmed
  not_found failed : Confirmed

-- The orders sent to the point of sale are listed beside the store.
pub insert_order : Env → Cart → Store → Store × Confirmed × List InsertCartRequest
insert_order env cart s =
    let request = to_insert_cart_request cart in
    elim (env.insert_cart request) [
      | threw ↦ (s, failed, request ∷ [])
      | returned id ↦
          elim (set_cart env.faults
            (record cart { confirmed_at = some env.now; pos_order_id = some id }) s) [
              | threw ↦ (s, failed, request ∷ [])
              | returned s' ↦ (s', order_id id, request ∷ [])
            ]
    ]

-- `cart.confirmed_at && cart.pos_order_id !== undefined`
pub stored_order : Option String → Option ℕ → Option ℕ
stored_order none id = none
stored_order (some at) id = id

pub confirm_cart : Env → Option Cart → Store → Store × Confirmed × List InsertCartRequest
unfolding insert_order stored_order
confirm_cart env none s = (s, not_found, [])
confirm_cart env (some cart) s = elim (stored_order cart.confirmed_at cart.pos_order_id) [
  | some id ↦ (s, order_id id, [])
  | none ↦ insert_order env cart s
]

pub confirm : Env → String → Store → Store × Confirmed × List InsertCartRequest
unfolding confirm_cart
confirm env cart_id s = elim (get_cart env.faults cart_id s) [
  | threw ↦ (s, failed, [])
  | returned found ↦ confirm_cart env found s
]
