-- ===== src/Cart/Controller/History/Written.antt =====
-- What one event writes: at most one cart, under the id that the event names, and at most one entry of the
-- ledger (cart-controller.ts, cart-repository.ts).
use voice_order_backend.Base.{
  ◌≡◌, refl, sym, ◌∙◌, ap, true, false, List, Option, none, some, String, returned, ◌>>=◌,
  >>=-eq-returned, is_some, get, put, get-put_self, get-put_ne, same, same→eq, arith, inl, inr,
  Bool-cases, Option-cases, ltb, map, ◌+◌, ◌⊎◌, or_else, subst, some_injective,
}
use voice_order_backend.Contracts.{OrderProposal}
use voice_order_backend.Cart.{Cart, empty_cart}
use voice_order_backend.Cart.Quote.{to_insert_cart_request}
use voice_order_backend.Cart.Store.{
  Store, Ledger, applied, rejected, get_cart, set_cart, was_processed, mark_processed,
  commit_applied, commit_created,
}
use voice_order_backend.Cart.Store.Laws.{
  IsRecorded, get_cart-returned, mark_processed-returned, mark_processed-ledger,
  commit_applied-returned, commit_applied-ledger, commit_created-returned, set_cart-returned,
  set_cart-ledger,
}
use voice_order_backend.Cart.Controller.{
  Env, Done, Rejection, ClientConnected, quoted, commit_batch, commit_cart, mark_rejected,
  load_and_apply, apply_all, confirmed_rejection, start, apply_to_cart, try_proposal, conclude,
  apply_proposal, insert_order, stored_order, confirm_cart, confirm, create_cart, ensure_cart,
}
use voice_order_backend.Cart.Controller.Idempotency.{Attempt-cases}
use voice_order_backend.Cart.Controller.Batches.{bumped-Keeps, apply_all-Keeps}
use voice_order_backend.Cart.Controller.History.{stored_or}

-- Each cart is stored under its own id.
abbrev pub IsKeyed : Store → Type 0
IsKeyed s = (id : String) (c : Cart) → get id s.carts ≡ some c → c.cart_id ≡ id

-- At most one cart is written, under this id, and at most one entry is added to the ledger.
pub record IsWritten (id : String) (s s' : Store) : Type 0 where
  pub carts :
      (s'.carts ≡ s.carts) ⊎ ((c : Cart) × (c.cart_id ≡ id) × (s'.carts ≡ put c.cart_id c s.carts))
  pub ledger :
      (s'.processed ≡ s.processed)
      ⊎ ((r : String) × (o : Ledger) × (s'.processed ≡ put r o s.processed))

IsWritten-refl : (id : String) (s : Store) → IsWritten id s s
IsWritten-refl id s = record { carts = inl refl; ledger = inl refl }

module _ (env : Env) (p : OrderProposal) (s : Store) (d : Done) where
  mark_rejected-IsWritten :
      (rs : List Rejection) → mark_rejected env p s rs ≡ returned d → IsWritten p.cart_id s d.store
  unfolding mark_rejected
  mark_rejected-IsWritten rs e =
      let (s', w, r) = >>=-eq-returned (mark_processed env.faults p.request_id rejected s) _ e in
      let k = mark_processed-returned env.faults s s' p.request_id rejected w in
      let l = mark_processed-ledger env.faults s s' p.request_id rejected w in
      let u : d.store ≡ s' = cc in
      rw u (record { carts = inl k.1; ledger = inr (p.request_id, rejected, l) })

  commit_cart-IsWritten :
      (rs : List Rejection) (c : Cart)
      → c.cart_id ≡ p.cart_id
      → commit_cart env p s rs c ≡ returned d
      → IsWritten p.cart_id s d.store
  unfolding commit_cart
  commit_cart-IsWritten rs c h e =
      let (s', w, r) = >>=-eq-returned (commit_applied env.faults c p.request_id s) _ e in
      let k = commit_applied-returned env.faults s s' c p.request_id w in
      let l = commit_applied-ledger env.faults s s' c p.request_id w in
      let u : d.store ≡ s' = cc in
      rw u (record { carts = inr (c, h, k.1); ledger = inr (p.request_id, applied, l) })

  apply_to_cart-IsWritten :
      (cart : Cart)
      → cart.cart_id ≡ p.cart_id
      → apply_to_cart env p s cart ≡ returned d
      → IsWritten p.cart_id s d.store
  unfolding apply_to_cart commit_batch start
  apply_to_cart-IsWritten cart h e = elim (Bool-cases (is_some cart.confirmed_at)) [
    | inl t ↦ mark_rejected-IsWritten (map confirmed_rejection p.operations) (ground (arith, e, t))
    | inr t ↦
        let all = apply_all env p.pos_config_id 0 p.operations (start cart) in
        let step : (all >>= commit_batch env p s) ≡ returned d = ground (arith, e, t) in
        let (b, w, r) = >>=-eq-returned all (commit_batch env p s) step in
        let k = apply_all-Keeps env p.pos_config_id 0 p.operations (start cart) b w in
        let c = quoted env (record b.cart { version = b.cart.version + 1 }) in
        let same_id = (bumped-Keeps env p s d cart cart b k).0 in
        elim (Bool-cases (ltb 0 b.applied)) [
          | inl z ↦ commit_cart-IsWritten b.rejections c (same_id ∙ h) (ground (arith, r, z))
          | inr z ↦ mark_rejected-IsWritten b.rejections (ground (arith, r, z))
        ]
  ]

  loaded :
      (o : Option Cart)
      → IsKeyed s
      → o ≡ get p.cart_id s.carts
      → (or_else o (empty_cart p.cart_id p.pos_config_id none none env.now)).cart_id ≡ p.cart_id
  unfolding empty_cart
  loaded none h e = refl
  loaded (some c) h e = h p.cart_id c (sym e)

  pub try_proposal-IsWritten :
      IsKeyed s → try_proposal env p s ≡ returned d → IsWritten p.cart_id s d.store
  unfolding try_proposal load_and_apply
  try_proposal-IsWritten h e =
      let (seen, w, r) = >>=-eq-returned (was_processed env.faults p.request_id s) _ e in
      elim (Bool-cases seen) [
        | inl t ↦ let u : d.store ≡ s = ground (arith, r, t) in rw u (IsWritten-refl p.cart_id s)
        | inr t ↦
            let l : load_and_apply env p s ≡ returned d = ground (arith, r, t) in
            let (o, g, k) = >>=-eq-returned (get_cart env.faults p.cart_id s) _ l in
            apply_to_cart-IsWritten _ (loaded o h (get_cart-returned env.faults s s p.cart_id o g))
              k
      ]

pub apply_proposal-IsWritten :
    (env : Env) (p : OrderProposal) (session : Option String) (s : Store)
    → IsKeyed s
    → IsWritten p.cart_id s (apply_proposal env p session s).0
unfolding apply_proposal conclude
apply_proposal-IsWritten env p session s h = elim (Attempt-cases (try_proposal env p s)) [
  | inl (d, e) ↦ rw e (try_proposal-IsWritten env p s d h e)
  | inr e ↦ rw e (IsWritten-refl p.cart_id s)
]

insert_order-IsWritten :
    (env : Env) (c : Cart) (s : Store) → IsWritten c.cart_id s (insert_order env c s).0
unfolding insert_order
insert_order-IsWritten env c s = elim (Attempt-cases (env.insert_cart (to_insert_cart_request c))) [
  | inr t ↦ rw (t, insert_order) (IsWritten-refl c.cart_id s)
  | inl (j, t) ↦
      let c' = record c { confirmed_at = some env.now; pos_order_id = some j } in
      elim (Attempt-cases (set_cart env.faults c' s)) [
        | inr u ↦ rw (t, insert_order, u) (IsWritten-refl c.cart_id s)
        | inl (s', u) ↦
            rw (t, insert_order, u)
              (record {
                carts = inr (c', refl, set_cart-returned env.faults s s' c' u);
                ledger = inl (set_cart-ledger env.faults s s' c' u);
              })
      ]
]

pub confirm-IsWritten :
    (env : Env) (id : String) (s : Store) → IsKeyed s → IsWritten id s (confirm env id s).0
unfolding confirm confirm_cart
confirm-IsWritten env id s h = elim (Attempt-cases (get_cart env.faults id s)) [
  | inr t ↦ rw (t, confirm) (IsWritten-refl id s)
  | inl (none, t) ↦ rw (t, confirm) (IsWritten-refl id s)
  | inl (some c, t) ↦
      let k = h id c (sym (get_cart-returned env.faults s s id (some c) t)) in
      elim (Option-cases (stored_order c.confirmed_at c.pos_order_id)) [
        | inl u ↦
            rw (t, confirm, u, confirm_cart)
              (subst (λ x. IsWritten x s (insert_order env c s).0) k
                (insert_order-IsWritten env c s))
        | inr (j, u) ↦ rw (t, confirm, u, confirm_cart) (IsWritten-refl id s)
      ]
]

create_cart-IsWritten :
    (env : Env) (e : ClientConnected) (o : Option Cart) (s : Store)
    → IsWritten e.cart_id s (stored_or s (create_cart env e o s))
unfolding create_cart stored_or empty_cart
create_cart-IsWritten env e (some c) s = IsWritten-refl e.cart_id s
create_cart-IsWritten env e none s =
    let c = empty_cart e.cart_id e.pos_config_id (some e.device_id) e.table_id env.now in
    elim (Attempt-cases (commit_created env.faults c s)) [
      | inr t ↦ rw t (IsWritten-refl e.cart_id s)
      | inl (s', t) ↦
          let k = commit_created-returned env.faults s s' c t in
          rw t (record { carts = inr (c, refl, k.1); ledger = inl k.0 })
    ]

pub connects-IsWritten :
    (env : Env) (e : ClientConnected) (s : Store)
    → IsWritten e.cart_id s (stored_or s (ensure_cart env e s))
unfolding ensure_cart stored_or
connects-IsWritten env e s = elim (Attempt-cases (get_cart env.faults e.cart_id s)) [
  | inr t ↦ rw t (IsWritten-refl e.cart_id s)
  | inl (o, t) ↦ rw t (create_cart-IsWritten env e o s)
]

-- What a write leaves as it was, and what it keeps.
module _ (id : String) (s s' : Store) (w : IsWritten id s s') where
  pub written-IsKeyed : IsKeyed s → IsKeyed s'
  written-IsKeyed h key c g = elim w.carts [
    | inl e ↦ h key c (sym (ap (get key) e) ∙ g)
    | inr (b, k, e) ↦ elim (Bool-cases (same b.cart_id key)) [
      | inr t ↦ h key c (sym (get-put_ne b.cart_id key b s.carts t) ∙ sym (ap (get key) e) ∙ g)
      | inl t ↦
          let q = same→eq b.cart_id key t in
          let r : b ≡ c = some_injective (
            sym (get-put_self b.cart_id b s.carts)
            ∙ ap (λ x. get x (put b.cart_id b s.carts)) q
            ∙ sym (ap (get key) e)
            ∙ g) in
          sym (ap (λ x. x.cart_id) r) ∙ q
    ]
  ]

  pub written-others : (key : String) → same id key ≡ false → get key s'.carts ≡ get key s.carts
  written-others key t = elim w.carts [
    | inl e ↦ ap (get key) e
    | inr (b, k, e) ↦
        ap (get key) e ∙ get-put_ne b.cart_id key b s.carts (ap (λ x. same x key) k ∙ t)
  ]

  pub written-IsRecorded : (q : String) → IsRecorded q s → IsRecorded q s'
  written-IsRecorded q h = elim w.ledger [
    | inl e ↦ ap (λ x. is_some (get q x)) e ∙ h
    | inr (r, o, e) ↦ ap (λ x. is_some (get q x)) e ∙ recorded_put r o
  ]
    where
      recorded_put : (r : String) (o : Ledger) → is_some (get q (put r o s.processed)) ≡ true
      recorded_put r o = elim (Bool-cases (same r q)) [
        | inr t ↦ ap is_some (get-put_ne r q o s.processed t) ∙ h
        | inl t ↦
            ap (λ x. is_some (get x (put r o s.processed))) (sym (same→eq r q t))
            ∙ ap is_some (get-put_self r o s.processed)
      ]
