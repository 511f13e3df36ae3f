-- ===== src/Cart/Controller/History/Once.antt =====
-- Through any history: a request is applied once, and an order is sent once (cart-controller.ts).
use voice_order_backend.Base.{
  ◌≡◌, refl, ◌∙◌, ap, true, false, List, [], ◌∷◌, Option, none, some, String, is_some, get,
  get-delete_key_ne, same, same→eq, inl, inr, Bool-cases, ◌⊎◌, ℕ, All,
}
use voice_order_backend.Cart.Quote.{InsertCartRequest}
use voice_order_backend.Contracts.{OrderProposal}
use voice_order_backend.Cart.Store.{Store, empty_store, expire}
use voice_order_backend.Cart.Store.Laws.{IsRecorded}
use voice_order_backend.Cart.Controller.{
  Env, ClientConnected, apply_proposal, failure_event, confirm, order_id, Confirmed, stored_order,
  ensure_cart,
}
use voice_order_backend.Cart.Controller.Idempotency.{
  apply_proposal-IsRecorded, recorded-apply_proposal,
}
use voice_order_backend.Cart.Controller.Confirmation.{confirmed-apply_proposal}
use voice_order_backend.Cart.Controller.Confirming.{
  IsSent, confirm-IsSent, stored-confirm, unread-confirm, unread-ensure_cart, found-ensure_cart,
}
use voice_order_backend.Cart.Controller.History.{
  CartEvent, proposes, confirms, connects, ledger_expires, stored_or, handle_event, handle_events,
}
use voice_order_backend.Cart.Controller.History.Written.{
  IsKeyed, IsWritten, written-IsKeyed, written-others, written-IsRecorded, apply_proposal-IsWritten,
  confirm-IsWritten, connects-IsWritten,
}

-- The event is not the end of this request's entry in the ledger.
abbrev pub Retains : String → CartEvent → Type 0
Retains r (ledger_expires q) = same q r ≡ false
Retains r e = Unit {0}

expire-IsRecorded :
    (q r : String) (s : Store) → same q r ≡ false → IsRecorded r s → IsRecorded r (expire q s)
unfolding expire
expire-IsRecorded q r s d h = ap is_some (get-delete_key_ne q r s.processed d) ∙ h

handle_event-IsKeyed : (e : CartEvent) (s : Store) → IsKeyed s → IsKeyed (handle_event e s)
unfolding handle_event expire
handle_event-IsKeyed (proposes env p session) s h =
    written-IsKeyed p.cart_id s (apply_proposal env p session s).0
      (apply_proposal-IsWritten env p session s h) h
handle_event-IsKeyed (confirms env id) s h =
    written-IsKeyed id s (confirm env id s).0 (confirm-IsWritten env id s h) h
handle_event-IsKeyed (connects env e) s h =
    written-IsKeyed e.cart_id s (stored_or s (ensure_cart env e s)) (connects-IsWritten env e s) h
handle_event-IsKeyed (ledger_expires q) s h = h

handle_event-IsRecorded :
    (r : String) (e : CartEvent) (s : Store)
    → IsKeyed s
    → Retains r e
    → IsRecorded r s
    → IsRecorded r (handle_event e s)
unfolding handle_event
handle_event-IsRecorded r (proposes env p session) s h k i =
    written-IsRecorded p.cart_id s (apply_proposal env p session s).0
      (apply_proposal-IsWritten env p session s h) r i
handle_event-IsRecorded r (confirms env id) s h k i =
    written-IsRecorded id s (confirm env id s).0 (confirm-IsWritten env id s h) r i
handle_event-IsRecorded r (connects env e) s h k i =
    written-IsRecorded e.cart_id s (stored_or s (ensure_cart env e s)) (connects-IsWritten env e s)
      r i
handle_event-IsRecorded r (ledger_expires q) s h k i = expire-IsRecorded q r s k i

handle_events-IsKeyed : (es : List CartEvent) (s : Store) → IsKeyed s → IsKeyed (handle_events es s)
unfolding handle_events
handle_events-IsKeyed [] s h = h
handle_events-IsKeyed (e ∷ es) s h =
    handle_events-IsKeyed es (handle_event e s) (handle_event-IsKeyed e s h)

handle_events-IsRecorded :
    (r : String) (es : List CartEvent) (s : Store)
    → IsKeyed s
    → All (Retains r) es
    → IsRecorded r s
    → IsRecorded r (handle_events es s)
unfolding handle_events
handle_events-IsRecorded r [] s h k i = i
handle_events-IsRecorded r (e ∷ es) s h k i =
    handle_events-IsRecorded r es (handle_event e s) (handle_event-IsKeyed e s h) k.1
      (handle_event-IsRecorded r e s h k.0 i)

empty_store-IsKeyed : IsKeyed empty_store
unfolding get
empty_store-IsKeyed id c g = absurd (cc)

-- A request is applied once while the ledger remembers it. In every store that a history leads to: after an
-- attempt to apply a proposal, either the attempt failed, and then it left the store as it was and
-- emitted `internal_error` alone, or, after any further proposals, confirmations, connections and
-- expiries of other requests, a proposal with the same request id, from whatever client and with
-- whatever operations, changes nothing and emits nothing, if the ledger can be read. When its own entry
-- has expired, nothing is said.
pub apply_proposal-once :
    (env env' : Env) (p p' : OrderProposal) (session session' : Option String)
    (before later : List CartEvent)
    → p'.request_id ≡ p.request_id
    → env'.faults.was_processed_fails ≡ false
    → All (Retains p.request_id) later
    → (let s = handle_events before empty_store in
        let t = handle_events later (apply_proposal env p session s).0 in
        (apply_proposal env p session s ≡ (s, failure_event p session ∷ []))
        ⊎ (apply_proposal env' p' session' t ≡ (t, [])))
unfolding apply_proposal handle_event
apply_proposal-once env env' p p' session session' before later e f k =
    let s = handle_events before empty_store in
    let s' = (apply_proposal env p session s).0 in
    let keyed = handle_events-IsKeyed before empty_store empty_store-IsKeyed in
    elim (apply_proposal-IsRecorded env p session s) [
      | inl i ↦
          let j =
            handle_events-IsRecorded p.request_id later s'
              (handle_event-IsKeyed (proposes env p session) s keyed) k i in
          inr (recorded-apply_proposal env' p' session' (handle_events later s') (rw e j) f)
      | inr t ↦ inl t
    ]

-- A sent order stays as it is.
stored_order-confirmed :
    (at : Option String) (id : Option ℕ) (i : ℕ) → stored_order at id ≡ some i → is_some at ≡ true
unfolding stored_order
stored_order-confirmed none id i e = absurd (cc)
stored_order-confirmed (some at) id i e = refl

-- A cart under another id is not touched; under its own id, the carts stay as they are.
kept_or_same :
    (id key : String) (i : ℕ) (s s' : Store)
    → IsWritten key s s'
    → (key ≡ id → s'.carts ≡ s.carts)
    → IsSent id i s
    → IsSent id i s'
kept_or_same id key i s s' w own (c, g, k) = elim (Bool-cases (same key id)) [
  | inl t ↦ (c, ap (get id) (own (same→eq key id t)) ∙ g, k)
  | inr t ↦ (c, written-others key s s' w id t ∙ g, k)
]

proposes-stays :
    (env : Env) (p : OrderProposal) (session : Option String) (id : String) (i : ℕ) (s : Store)
    → IsSent id i s
    → p.cart_id ≡ id
    → (apply_proposal env p session s).0.carts ≡ s.carts
proposes-stays env p session id i s (c, g, k) e =
    (confirmed-apply_proposal env p session s c (ap (λ x. get x s.carts) e ∙ g)
      (stored_order-confirmed c.confirmed_at c.pos_order_id i k)).0

confirms-stays :
    (env : Env) (key id : String) (i : ℕ) (s : Store)
    → IsSent id i s
    → key ≡ id
    → (confirm env key s).0.carts ≡ s.carts
unfolding confirm
confirms-stays env key id i s (c, g, k) e = elim (Bool-cases env.faults.get_fails) [
  | inl b ↦
      ap (λ (x : Store × Confirmed × List InsertCartRequest). x.0.carts)
        (unread-confirm env key s b)
  | inr b ↦
      ap (λ (x : Store × Confirmed × List InsertCartRequest). x.0.carts)
        (stored-confirm env key s c i b (ap (λ x. get x s.carts) e ∙ g) k)
]

connects-stays :
    (env : Env) (e : ClientConnected) (id : String) (i : ℕ) (s : Store)
    → IsSent id i s
    → e.cart_id ≡ id
    → (stored_or s (ensure_cart env e s)).carts ≡ s.carts
unfolding stored_or
connects-stays env e id i s (c, g, k) q = elim (Bool-cases env.faults.get_fails) [
  | inl b ↦ ap (λ x. (stored_or s x).carts) (unread-ensure_cart env e s b)
  | inr b ↦
      ap (λ x. (stored_or s x).carts)
        (found-ensure_cart env e c s b (ap (λ x. get x s.carts) q ∙ g))
]

handle_event-IsSent :
    (id : String) (i : ℕ) (e : CartEvent) (s : Store)
    → IsKeyed s
    → IsSent id i s
    → IsSent id i (handle_event e s)
unfolding handle_event expire
handle_event-IsSent id i (proposes env p session) s h k =
    kept_or_same id p.cart_id i s (apply_proposal env p session s).0
      (apply_proposal-IsWritten env p session s h) (proposes-stays env p session id i s k) k
handle_event-IsSent id i (confirms env key) s h k =
    kept_or_same id key i s (confirm env key s).0 (confirm-IsWritten env key s h)
      (confirms-stays env key id i s k) k
handle_event-IsSent id i (connects env e) s h k =
    kept_or_same id e.cart_id i s (stored_or s (ensure_cart env e s)) (connects-IsWritten env e s)
      (connects-stays env e id i s k) k
handle_event-IsSent id i (ledger_expires q) s h k = k

handle_events-IsSent :
    (id : String) (i : ℕ) (es : List CartEvent) (s : Store)
    → IsKeyed s
    → IsSent id i s
    → IsSent id i (handle_events es s)
unfolding handle_events
handle_events-IsSent id i [] s h k = k
handle_events-IsSent id i (e ∷ es) s h k =
    handle_events-IsSent id i es (handle_event e s) (handle_event-IsKeyed e s h)
      (handle_event-IsSent id i e s h k)

-- In every store that a history leads to: when a confirmation of a cart has ended with an order, then
-- after any further proposals, confirmations, connections and expiries of the ledger, for this cart or
-- others and whatever fails in them, a confirmation gives the same order's id, sends nothing and changes
-- nothing, if the cart can be read. A confirmation whose write failed has not ended with an order, and
-- the next one sends it again.
pub confirm-once :
    (env env' : Env) (id : String) (i : ℕ) (before later : List CartEvent)
    → env'.faults.get_fails ≡ false
    → (confirm env id (handle_events before empty_store)).1 ≡ order_id i
    → (let t = handle_events later (confirm env id (handle_events before empty_store)).0 in
        confirm env' id t ≡ (t, order_id i, []))
unfolding confirm handle_event
confirm-once env env' id i before later f e =
    let s = handle_events before empty_store in
    let s' = (confirm env id s).0 in
    let keyed = handle_events-IsKeyed before empty_store empty_store-IsKeyed in
    let sent = confirm-IsSent env id s i (keyed id) e in
    let (c, g, k) =
      handle_events-IsSent id i later s' (handle_event-IsKeyed (confirms env id) s keyed) sent in
    stored-confirm env' id (handle_events later s') c i f g k
