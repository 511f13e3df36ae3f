-- ===== src/Cart/Controller/Confirming.antt =====
-- `confirm` and `ensureCart` of cart-controller.ts: an order is sent once, an identity is set once.
use voice_order_backend.Base.{
  ℕ, ◌≡◌, refl, sym, false, List, [], ◌∷◌, Option, none, some, String, returned, threw, true, get,
  get-put_self, arith, inl, inr, Option-cases, ◌∙◌, ap,
}
use voice_order_backend.Cart.{Cart}
use voice_order_backend.Cart.Store.{Store, get_cart, set_cart, guarded}
use voice_order_backend.Cart.Quote.{InsertCartRequest, to_insert_cart_request}
use voice_order_backend.Cart.Store.Laws.{get_cart-works, get_cart-returned, set_cart-returned}
use voice_order_backend.Cart.Controller.{
  Env, Confirmed, order_id, not_found, failed, insert_order, stored_order, confirm_cart, confirm,
  ClientConnected, create_cart, ensure_cart,
}
use voice_order_backend.Cart.Controller.Idempotency.{Attempt-cases}

-- A cart whose order is known is answered from the store.
pub stored-confirm :
    (env : Env) (id : String) (s : Store) (c : Cart) (i : ℕ)
    → env.faults.get_fails ≡ false
    → get id s.carts ≡ some c
    → stored_order c.confirmed_at c.pos_order_id ≡ some i
    → confirm env id s ≡ (s, order_id i, [])
unfolding confirm confirm_cart
stored-confirm env id s c i f g k =
    rw (get_cart-works env.faults s s id f, confirm) (rw g (rw (k, confirm_cart) refl))

-- A store that cannot be read is left as it is.
pub unread-confirm :
    (env : Env) (id : String) (s : Store)
    → env.faults.get_fails ≡ true
    → confirm env id s ≡ (s, failed, [])
unfolding confirm get_cart guarded
unread-confirm env id s b = rw b refl

pub unread-ensure_cart :
    (env : Env) (e : ClientConnected) (s : Store)
    → env.faults.get_fails ≡ true
    → ensure_cart env e s ≡ threw
unfolding ensure_cart get_cart guarded
unread-ensure_cart env e s b = rw b refl

-- What a confirmation that ends with an order leaves in the store.
abbrev pub IsSent : String → ℕ → Store → Type 0
IsSent id i s =
    (c : Cart) × (get id s.carts ≡ some c) × (stored_order c.confirmed_at c.pos_order_id ≡ some i)

module _ (env : Env) (id : String) (s : Store) (i : ℕ) where
  insert_order-IsSent :
      (c : Cart)
      → c.cart_id ≡ id
      → (insert_order env c s).1 ≡ order_id i
      → IsSent id i (insert_order env c s).0
  unfolding insert_order stored_order
  insert_order-IsSent c k e = elim (Attempt-cases (env.insert_cart (to_insert_cart_request c))) [
    | inr t ↦ absurd (ground (arith, t, e))
    | inl (j, t) ↦
        let c' = record c { confirmed_at = some env.now; pos_order_id = some j } in
        elim (Attempt-cases (set_cart env.faults c' s)) [
          | inr u ↦ absurd (ground (arith, t, u, e))
          | inl (s', u) ↦
              let w = set_cart-returned env.faults s s' c' u in
              let same_id : j ≡ i = ground (arith, t, u, e) in
              let p : insert_order env c s ≡ (s', order_id j, to_insert_cart_request c ∷ []) =
                ground (arith, t, u) in
              rw p (
                c',
                rw w (rw (sym k) (get-put_self c.cart_id c' s.carts)),
                ap (λ n. some n) same_id,
              )
        ]
  ]

  confirm_cart-IsSent :
      (c : Cart)
      → c.cart_id ≡ id
      → get id s.carts ≡ some c
      → (confirm_cart env (some c) s).1 ≡ order_id i
      → IsSent id i (confirm_cart env (some c) s).0
  unfolding confirm_cart
  confirm_cart-IsSent c k g e = elim (Option-cases (stored_order c.confirmed_at c.pos_order_id)) [
    | inl t ↦
        let p : confirm_cart env (some c) s ≡ insert_order env c s = rw (t, confirm_cart) refl in
        rw p (
          insert_order-IsSent c k
            (ap (λ (x : Store × Confirmed × List InsertCartRequest). x.1) (sym p) ∙ e))
    | inr (j, t) ↦
        let p : confirm_cart env (some c) s ≡ (s, order_id j, []) = rw (t, confirm_cart) refl in
        let same_id : j ≡ i = ground (arith, p, e) in rw p (c, g, t ∙ ap (λ n. some n) same_id)
  ]

  pub confirm-IsSent :
      ((c : Cart) → get id s.carts ≡ some c → c.cart_id ≡ id)
      → (confirm env id s).1 ≡ order_id i
      → IsSent id i (confirm env id s).0
  unfolding confirm confirm_cart
  confirm-IsSent keyed e = elim (Attempt-cases (get_cart env.faults id s)) [
    | inr t ↦ absurd (ground (arith, t, e))
    | inl (none, t) ↦ absurd (
        let p : confirm env id s ≡ (s, not_found, []) = rw (t, confirm) refl in
        ground (arith, p, e))
    | inl (some c, t) ↦
        let g = sym (get_cart-returned env.faults s s id (some c) t) in
        let p : confirm env id s ≡ confirm_cart env (some c) s = rw (t, confirm) refl in
        rw p (
          confirm_cart-IsSent c (keyed c g) g
            (ap (λ (x : Store × Confirmed × List InsertCartRequest). x.1) (sym p) ∙ e))
  ]

create_cart-found :
    (env : Env) (e : ClientConnected) (o : Option Cart) (c : Cart) (s : Store)
    → o ≡ some c
    → create_cart env e o s ≡ returned s
unfolding create_cart
create_cart-found env e o c s k = rw k refl

-- A cart's identity is set once: a client that connects to a cart that the store holds, whatever
-- device and table it names, leaves the store as it was, if the cart can be read.
pub found-ensure_cart :
    (env : Env) (e : ClientConnected) (c : Cart) (s : Store)
    → env.faults.get_fails ≡ false
    → get e.cart_id s.carts ≡ some c
    → ensure_cart env e s ≡ returned s
unfolding ensure_cart
found-ensure_cart env e c s f g =
    rw (get_cart-works env.faults s s e.cart_id f, ensure_cart)
      (create_cart-found env e (get e.cart_id s.carts) c s g)
