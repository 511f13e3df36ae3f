-- ===== src/Cart/Controller/Confirmation.antt =====
-- A confirmed cart (cart-controller.ts).
use voice_order_backend.Base.{
  ◌≡◌, refl, true, List, [], ◌∷◌, Option, none, some, String, returned, >>=-eq-returned, is_some,
  get, arith, inl, inr, Bool-cases, map,
}
use voice_order_backend.Contracts.{OrderProposal}
use voice_order_backend.Cart.{Cart}
use voice_order_backend.Cart.Store.{Store, get_cart, was_processed}
use voice_order_backend.Cart.Store.Laws.{get_cart-returned}
use voice_order_backend.Cart.Controller.{
  Env, Done, load_and_apply, apply_to_cart, try_proposal, conclude, apply_proposal, BusEvent,
  cart_updated, operation_rejected, rejection_event, update_event, failure_event,
  confirmed_rejection, Rejection,
}
use voice_order_backend.Cart.Controller.Idempotency.{Attempt-cases, mark_rejected-returned}

-- The carts that a list of events announces.
pub updates : List BusEvent → List Cart
updates [] = []
updates (cart_updated u ∷ es) = u.cart ∷ updates es
updates (operation_rejected r ∷ es) = updates es

updates-rejections :
    (p : OrderProposal) (session : Option String) (rs : List Rejection)
    → updates (map (rejection_event p session) rs) ≡ []
unfolding updates rejection_event
updates-rejections p session [] = refl
updates-rejections p session (r ∷ rs) = updates-rejections p session rs

module _ (env : Env) (p : OrderProposal) (s : Store) (d : Done) where
  confirmed-apply_to_cart :
      (c : Cart)
      → is_some c.confirmed_at ≡ true
      → apply_to_cart env p s c ≡ returned d
      → (d.store.carts ≡ s.carts) × (d.updated ≡ none)
  unfolding apply_to_cart
  confirmed-apply_to_cart c t e =
      let k =
        mark_rejected-returned env p s d (map confirmed_rejection p.operations)
          (ground (arith, e, t)) in
      (k.1, k.2)

  confirmed-load_and_apply :
      (c : Cart)
      → get p.cart_id s.carts ≡ some c
      → is_some c.confirmed_at ≡ true
      → load_and_apply env p s ≡ returned d
      → (d.store.carts ≡ s.carts) × (d.updated ≡ none)
  unfolding load_and_apply
  confirmed-load_and_apply c g t e =
      let (o, w, r) = >>=-eq-returned (get_cart env.faults p.cart_id s) _ e in
      let h = get_cart-returned env.faults s s p.cart_id o w in
      let k : o ≡ some c = cc in confirmed-apply_to_cart c t (ground (arith, r, k))

  confirmed-try_proposal :
      (c : Cart)
      → get p.cart_id s.carts ≡ some c
      → is_some c.confirmed_at ≡ true
      → try_proposal env p s ≡ returned d
      → (d.store.carts ≡ s.carts) × (d.updated ≡ none)
  unfolding try_proposal
  confirmed-try_proposal c g t e =
      let (seen, w, r) = >>=-eq-returned (was_processed env.faults p.request_id s) _ e in
      elim (Bool-cases seen) [
        | inl b ↦
            let u : (d.store ≡ s) × (d.updated ≡ none) = ground (arith, r, b) in (rw u.0 refl, u.1)
        | inr b ↦ confirmed-load_and_apply c g t (ground (arith, r, b))
      ]

-- A proposal for a cart that the store holds as confirmed changes no cart and announces none,
-- whichever calls of the store fail.
pub confirmed-apply_proposal :
    (env : Env) (p : OrderProposal) (session : Option String) (s : Store) (c : Cart)
    → get p.cart_id s.carts ≡ some c
    → is_some c.confirmed_at ≡ true
    → ((apply_proposal env p session s).0.carts ≡ s.carts)
      × (updates (apply_proposal env p session s).1 ≡ [])
unfolding apply_proposal conclude update_event failure_event updates
confirmed-apply_proposal env p session s c g t = elim (Attempt-cases (try_proposal env p s)) [
  | inl (d, e) ↦
      let k = confirmed-try_proposal env p s d c g t e in
      rw e (k.0, rw k.1 (updates-rejections p session d.rejections))
  | inr e ↦ rw e (refl, refl)
]
