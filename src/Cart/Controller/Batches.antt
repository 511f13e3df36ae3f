-- ===== src/Cart/Controller/Batches.antt =====
-- The loop over a proposal's operations and what is committed (cart-controller.ts).
use voice_order_backend.Base.{
  ℕ, suc, ◌+◌, ◌≡◌, refl, List, [], ◌∷◌, ◌++◌, some, ltb, sym, ap, ◌∙◌, get-put_self, returned,
  ◌>>=◌, >>=-eq-returned, is_some, get, arith, inl, inr, Bool-cases, map, length,
}
use voice_order_backend.Contracts.{OrderProposal, CartOperation}
use voice_order_backend.Cart.Store.{Store}
use voice_order_backend.Cart.{Cart}
use voice_order_backend.Cart.Applier.{Applied, ok, err, apply_operation}
use voice_order_backend.Cart.Controller.{
  Env, Done, quoted, commit_batch, apply_to_cart, start, confirmed_rejection, Batch, Rejection,
  after_operation, apply_all,
}
use voice_order_backend.Cart.Controller.Idempotency.{
  Attempt-cases, commit_cart-returned, mark_rejected-returned,
}
use voice_order_backend.Cart.Quote.{to_quote_request, apply_quote_to_cart}
use voice_order_backend.Cart.Quote.Stamp.{apply_quote_to_cart-Keeps}
use voice_order_backend.Cart.Applier.Edits.{apply_operation-Result}
use voice_order_backend.Cart.Applier.Soundness.{Keeps, priced_by-Keeps}

-- How many operations have been dealt with.
abbrev pub handled : Batch → ℕ
handled b = b.applied + length b.rejections

length-append_one : (xs : List Rejection) (x : Rejection) → length (xs ++ x ∷ []) ≡ length xs + 1
length-append_one [] x = refl
length-append_one (y ∷ xs) x = let h = length-append_one xs x in omega arith

after_operation-handled :
    (op : CartOperation) (b : Batch) (r : Applied)
    → handled (after_operation op b r) ≡ handled b + 1
unfolding after_operation
after_operation-handled op b (ok c) = omega arith
after_operation-handled op b (err e) =
    rw (length-append_one b.rejections (record { op = op; error = e })) (omega arith)

-- No operation is lost: when the loop ends, every operation has been applied or rejected.
pub apply_all-handled :
    (env : Env) (pos_id n : ℕ) (ops : List CartOperation) (b d : Batch)
    → apply_all env pos_id n ops b ≡ returned d
    → handled d ≡ handled b + length ops
unfolding apply_all
apply_all-handled env pos_id n [] b d e = let k : b ≡ d = cc in rw k (omega arith)
apply_all-handled env pos_id n (op ∷ ops) b d e =
    let (r, w, k) =
      >>=-eq-returned (apply_operation env.menu pos_id env.now b.cart (env.new_line_id n) op) _ e in
    let h = apply_all-handled env pos_id (suc n) ops (after_operation op b r) d k in
    let j = after_operation-handled op b r in omega arith

Keeps-trans : (a b c : Cart) → Keeps a b → Keeps b c → Keeps a c
Keeps-trans a b c h k = ground (
  arith, h.cart_id, k.cart_id, h.pos_config_id, k.pos_config_id, h.device_id, k.device_id,
  h.table_id, k.table_id, h.version, k.version, h.confirmed_at, k.confirmed_at, h.pos_order_id,
  k.pos_order_id,
)

Keeps-refl : (a : Cart) → Keeps a a
Keeps-refl a = ground arith

apply_operation-Keeps :
    (env : Env) (pos_id n : ℕ) (c : Cart) (op : CartOperation) (c' : Cart)
    → apply_operation env.menu pos_id env.now c (env.new_line_id n) op ≡ returned (ok c')
    → Keeps c c'
apply_operation-Keeps env pos_id n c op c' e =
    let (items, ms, d, read, p) =
      apply_operation-Result env.menu pos_id env.now c (env.new_line_id n) op c' e in
    rw p (priced_by-Keeps env.now c items ms)

after_operation-Keeps :
    (env : Env) (pos_id n : ℕ) (op : CartOperation) (b : Batch) (r : Applied)
    → apply_operation env.menu pos_id env.now b.cart (env.new_line_id n) op ≡ returned r
    → Keeps b.cart (after_operation op b r).cart
unfolding after_operation
after_operation-Keeps env pos_id n op b (ok c) e = apply_operation-Keeps env pos_id n b.cart op c e
after_operation-Keeps env pos_id n op b (err x) e = Keeps-refl b.cart

-- The loop changes neither the cart's identity nor its version nor its confirmation.
pub apply_all-Keeps :
    (env : Env) (pos_id n : ℕ) (ops : List CartOperation) (b d : Batch)
    → apply_all env pos_id n ops b ≡ returned d
    → Keeps b.cart d.cart
unfolding apply_all
apply_all-Keeps env pos_id n [] b d e = let k : b ≡ d = cc in rw k (Keeps-refl d.cart)
apply_all-Keeps env pos_id n (op ∷ ops) b d e =
    let (r, w, k) =
      >>=-eq-returned (apply_operation env.menu pos_id env.now b.cart (env.new_line_id n) op) _ e in
    Keeps-trans b.cart (after_operation op b r).cart d.cart
      (after_operation-Keeps env pos_id n op b r w)
      (apply_all-Keeps env pos_id (suc n) ops (after_operation op b r) d k)

quoted-Keeps : (env : Env) (c : Cart) → Keeps c (quoted env c)
unfolding quoted
quoted-Keeps env c = elim (Attempt-cases (env.quote (to_quote_request c))) [
  | inl (q, e) ↦ elim (Attempt-cases (apply_quote_to_cart c q)) [
    | inl (c', f) ↦ rw (e, quoted) (rw f (apply_quote_to_cart-Keeps c c' q f))
    | inr f ↦ rw (e, quoted) (rw f (Keeps-refl c))
  ]
  | inr e ↦ rw (e, quoted) (Keeps-refl c)
]

-- The cart announced is the one stored, and it is the next version of the same cart.
Announced : Cart → Done → Cart → Type 0
Announced cart d c =
    (get c.cart_id d.store.carts ≡ some c)
    × (c.cart_id ≡ cart.cart_id)
    × (c.version ≡ cart.version + 1)

module _ (env : Env) (p : OrderProposal) (s : Store) (d : Done) (cart c : Cart) where
  pub bumped-Keeps :
      (b : Batch)
      → Keeps cart b.cart
      → let q = quoted env (record b.cart { version = b.cart.version + 1 }) in
        (q.cart_id ≡ cart.cart_id) × (q.version ≡ cart.version + 1)
  bumped-Keeps b k =
      let h = quoted-Keeps env (record b.cart { version = b.cart.version + 1 }) in
      (h.cart_id ∙ k.cart_id, h.version ∙ ap (λ v. v + 1) k.version)

  commit_batch-announces :
      (b : Batch)
      → Keeps cart b.cart
      → commit_batch env p s b ≡ returned d
      → d.updated ≡ some c
      → Announced cart d c
  unfolding commit_batch Announced
  commit_batch-announces b k e u =
      let q = quoted env (record b.cart { version = b.cart.version + 1 }) in
      elim (Bool-cases (ltb 0 b.applied)) [
        | inl t ↦
            let h = commit_cart-returned env p s d b.rejections q (ground (arith, e, t)) in
            let j = bumped-Keeps b k in
            let same_cart : q ≡ c = cc in
            rw (sym same_cart) (rw h.1 (get-put_self q.cart_id q s.carts), j.0, j.1)
        | inr t ↦ let h = mark_rejected-returned env p s d b.rejections (ground (arith, e, t)) in cc
      ]

  -- When a proposal changes a cart, the cart announced is the one stored under its id, it is the
  -- same cart, and its version is one more.
  pub apply_to_cart-announces :
      apply_to_cart env p s cart ≡ returned d
      → d.updated ≡ some c
      → (get c.cart_id d.store.carts ≡ some c)
        × (c.cart_id ≡ cart.cart_id)
        × (c.version ≡ cart.version + 1)
  unfolding apply_to_cart Announced start
  apply_to_cart-announces e u = elim (Bool-cases (is_some cart.confirmed_at)) [
    | inl t ↦
        let h =
          mark_rejected-returned env p s d (map confirmed_rejection p.operations)
            (ground (arith, e, t)) in
        cc
    | inr t ↦
        let all = apply_all env p.pos_config_id 0 p.operations (start cart) in
        let step : (all >>= commit_batch env p s) ≡ returned d = ground (arith, e, t) in
        let (b, w, r) = >>=-eq-returned all (commit_batch env p s) step in
        commit_batch-announces b
          (apply_all-Keeps env p.pos_config_id 0 p.operations (start cart) b w) r u
  ]
