-- ===== src/Cart/Controller/Tests.antt =====
-- Runs of cart-controller.ts and the theorems at them: a request for two large teas.
use voice_order_backend.Base.{
  List, ◌≡◌, refl, [], ◌∷◌, some, none, returned, threw, get, ◌+◌, ◌⊎◌, same, put,
}
use voice_order_backend.Contracts.{OrderProposal}
use voice_order_backend.Cart.{Cart, empty_cart}
use voice_order_backend.Cart.Store.{
  Store, empty_store, get_cart, set_cart, write_cart, guarded, index, index_device, add_member,
  commit_created,
}
use voice_order_backend.Cart.Applier.Tests.{tea_menu, empty, order_teas, tea_cart, tea_run}
use voice_order_backend.Cart.Store.Tests.{no_faults, next_cart, tea_store, commit_run}
use voice_order_backend.Cart.Controller.{
  confirm, confirm_cart, insert_order, stored_order, order_id, ClientConnected, Env, Done, Batch,
  start, apply_all, after_operation, apply_to_cart, commit_batch, commit_cart, quoted,
  apply_proposal, failure_event, set_cart, ensure_cart, create_cart,
}
use voice_order_backend.Cart.Controller.Confirmation.{confirmed-apply_proposal, updates}
use voice_order_backend.Cart.Controller.Batches.{apply_to_cart-announces}
use voice_order_backend.Cart.Controller.History.Once.{apply_proposal-once, confirm-once}
use voice_order_backend.Cart.Controller.History.{
  CartEvent, handle_events, handle_event, stored_or, connects, confirms, ledger_expires,
}

abbrev shop : Env
shop = record {
  menu = tea_menu;
  quote = λ q. threw;
  insert_cart = λ r. returned 41;
  new_line_id = λ n. "l0";
  now = "12:01";
  faults = no_faults;
}

abbrev proposal : OrderProposal
proposal = record {
  request_id = "r1";
  cart_id = "c1";
  pos_config_id = 1;
  base_version = 0;
  operations = order_teas ∷ [];
}

abbrev batch : Batch
batch = record { cart = tea_cart; applied = 1; rejections = [] }

loop_run : apply_all shop 1 0 (order_teas ∷ []) (start empty) ≡ returned batch
unfolding apply_all after_operation start
loop_run = rw tea_run refl

abbrev done : Done
done = record { store = tea_store; updated = some next_cart; rejections = [] }

apply_run : apply_to_cart shop proposal empty_store empty ≡ returned done
unfolding apply_to_cart commit_batch commit_cart quoted empty_cart
apply_run = rw loop_run (rw commit_run refl)

apply_to_cart-announces_example :
    (get "c1" tea_store.carts ≡ some next_cart)
    × (next_cart.cart_id ≡ empty.cart_id)
    × (next_cart.version ≡ empty.version + 1)
apply_to_cart-announces_example =
    apply_to_cart-announces shop proposal empty_store done empty next_cart apply_run refl

-- The same request id comes again from another session, with other operations.
abbrev retry : OrderProposal
retry = record proposal { operations = [] }

abbrev joined : ClientConnected
joined = record { cart_id = "c1"; pos_config_id = 1; device_id = "d2"; table_id = some 4 }

-- A client joins, and the entry of another request expires.
abbrev meanwhile : List CartEvent
meanwhile = connects shop joined ∷ ledger_expires "r0" ∷ confirms shop "c1" ∷ []

apply_proposal-once_example :
    (apply_proposal shop proposal none (handle_events [] empty_store)
      ≡ (handle_events [] empty_store, failure_event proposal none ∷ []))
    ⊎ (apply_proposal shop retry (some "s2") (
          handle_events meanwhile
            (apply_proposal shop proposal none (handle_events [] empty_store)).0)
        ≡ (
          handle_events meanwhile
              (apply_proposal shop proposal none (handle_events [] empty_store)).0,
          [],
        ))
unfolding same
apply_proposal-once_example =
    apply_proposal-once shop shop proposal retry none (some "s2") [] meanwhile refl refl
      (tt, (refl, (tt, tt)))

abbrev sent : Cart
sent = record next_cart { confirmed_at = some "12:02"; pos_order_id = some 41 }

abbrev sent_store : Store
sent_store = record tea_store { carts = ("c1", sent) ∷ [] }

confirmed-apply_proposal_example :
    ((apply_proposal shop proposal none sent_store).0.carts ≡ sent_store.carts)
    × (updates (apply_proposal shop proposal none sent_store).1 ≡ [])
unfolding get same
confirmed-apply_proposal_example =
    confirmed-apply_proposal shop proposal none sent_store sent refl refl

-- The first confirmation sends the order, of which the point of sale makes number 41.
first_confirm : (confirm shop "c1" tea_store).1 ≡ order_id 41
unfolding confirm confirm_cart insert_order stored_order get_cart set_cart write_cart guarded get
    put same
first_confirm = refl

-- A client connects, and its cart is made.
abbrev opened : List CartEvent
opened = connects shop joined ∷ []

sends_order : (confirm shop "c1" (handle_events opened empty_store)).1 ≡ order_id 41
unfolding handle_events handle_event stored_or ensure_cart create_cart commit_created index
    index_device add_member write_cart get_cart set_cart guarded get put same empty_cart confirm
    confirm_cart insert_order stored_order
sends_order = refl

confirm-once_example :
    confirm shop "c1"
      (handle_events meanwhile (confirm shop "c1" (handle_events opened empty_store)).0)
    ≡ (
      handle_events meanwhile (confirm shop "c1" (handle_events opened empty_store)).0,
      order_id 41,
      [],
    )
confirm-once_example = confirm-once shop shop "c1" 41 opened meanwhile refl sends_order
