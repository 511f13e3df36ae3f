-- ===== src/Cart/Controller/History.antt =====
-- What happens to the carts over time (cart-controller.ts): its methods, one after the other and each with
-- the menu, the point of sale and the failures of that moment, and the expiry of entries of the ledger
-- (cart-repository.ts).
pub mod Written
pub mod Once
use voice_order_backend.Base.{List, [], ◌∷◌, Option, String, Attempt, returned, threw}
use voice_order_backend.Contracts.{OrderProposal}
use voice_order_backend.Cart.Store.{Store, expire}
use voice_order_backend.Cart.Controller.{Env, ClientConnected, apply_proposal, confirm, ensure_cart}

pub data CartEvent : Type 0 where
  proposes : Env → OrderProposal → Option String → CartEvent
  confirms : Env → String → CartEvent
  connects : Env → ClientConnected → CartEvent
  ledger_expires : String → CartEvent

-- A call that throws has written nothing.
unfoldable pub stored_or : Store → Attempt Store → Store
stored_or s threw = s
stored_or s (returned s') = s'

unfoldable pub handle_event : CartEvent → Store → Store
handle_event (proposes env p session) s = (apply_proposal env p session s).0
handle_event (confirms env id) s = (confirm env id s).0
handle_event (connects env e) s = stored_or s (ensure_cart env e s)
handle_event (ledger_expires request_id) s = expire request_id s

unfoldable pub handle_events : List CartEvent → Store → Store
handle_events [] s = s
handle_events (e ∷ es) s = handle_events es (handle_event e s)
