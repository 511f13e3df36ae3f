-- ===== src/Cart/Controller/Idempotency.antt =====
-- A request is applied once, and a failure leaves no trace (cart-controller.ts).
use voice_order_backend.Base.{
  ◌≡◌, refl, true, false, List, [], ◌∷◌, Option, none, some, String, returned, threw, ◌>>=◌,
  >>=-eq-returned, is_some, get, put, arith, inl, inr, Bool-cases, ltb, Attempt, map, ◌+◌, ◌⊎◌,
}
use voice_order_backend.Contracts.{OrderProposal}
use voice_order_backend.Cart.{Cart}
use voice_order_backend.Cart.Store.{
  Store, rejected, get_cart, was_processed, mark_processed, commit_applied,
}
use voice_order_backend.Cart.Store.Laws.{
  IsRecorded, was_processed-works, was_processed-returned, mark_processed-returned,
  commit_applied-returned,
}
use voice_order_backend.Cart.Controller.{
  Env, Done, Batch, quoted, commit_batch, commit_cart, mark_rejected, load_and_apply, apply_all,
  confirmed_rejection, start, update_event, apply_to_cart, try_proposal, conclude, apply_proposal,
  failure_event, Rejection,
}

pub Attempt-cases {ℓ} : {A : Type ℓ} (m : Attempt A) → ((d : A) × (m ≡ returned d)) ⊎ (m ≡ threw)
Attempt-cases (returned a) = inl (a, refl)
Attempt-cases threw = inr refl

module _ (env : Env) (p : OrderProposal) (s : Store) (d : Done) where
  pub commit_cart-returned :
      (rs : List Rejection) (c : Cart)
      → commit_cart env p s rs c ≡ returned d
      → IsRecorded p.request_id d.store
        × (d.store.carts ≡ put c.cart_id c s.carts)
        × (d.updated ≡ some c)
        × (d.rejections ≡ rs)
  unfolding commit_cart
  commit_cart-returned rs c e =
      let (s', w, r) = >>=-eq-returned (commit_applied env.faults c p.request_id s) _ e in
      let (k, l) = commit_applied-returned env.faults s s' c p.request_id w in
      let u : d.store ≡ s' = cc in
      let v : d.updated ≡ some c = cc in let x : d.rejections ≡ rs = cc in (rw u k, rw u l, v, x)

  pub mark_rejected-returned :
      (rs : List Rejection)
      → mark_rejected env p s rs ≡ returned d
      → IsRecorded p.request_id d.store
        × (d.store.carts ≡ s.carts)
        × (d.updated ≡ none)
        × (d.rejections ≡ rs)
  unfolding mark_rejected
  mark_rejected-returned rs e =
      let (s', w, r) = >>=-eq-returned (mark_processed env.faults p.request_id rejected s) _ e in
      let (k, l) = mark_processed-returned env.faults s s' p.request_id rejected w in
      let u : d.store ≡ s' = cc in
      let v : d.updated ≡ none = cc in let x : d.rejections ≡ rs = cc in (rw u k, rw u l, v, x)

  commit_batch-IsRecorded :
      (b : Batch) → commit_batch env p s b ≡ returned d → IsRecorded p.request_id d.store
  unfolding commit_batch
  commit_batch-IsRecorded b e =
      let c = quoted env (record b.cart { version = b.cart.version + 1 }) in
      elim (Bool-cases (ltb 0 b.applied)) [
        | inl t ↦ (commit_cart-returned b.rejections c (ground (arith, e, t))).0
        | inr t ↦ (mark_rejected-returned b.rejections (ground (arith, e, t))).0
      ]

  apply_to_cart-IsRecorded :
      (c : Cart) → apply_to_cart env p s c ≡ returned d → IsRecorded p.request_id d.store
  unfolding apply_to_cart
  apply_to_cart-IsRecorded c e = elim (Bool-cases (is_some c.confirmed_at)) [
    | inl t ↦
        (mark_rejected-returned (map confirmed_rejection p.operations) (ground (arith, e, t))).0
    | inr t ↦
        let all = apply_all env p.pos_config_id 0 p.operations (start c) in
        let step : (all >>= commit_batch env p s) ≡ returned d = ground (arith, e, t) in
        let (b, w, r) = >>=-eq-returned all (commit_batch env p s) step in
        commit_batch-IsRecorded b r
  ]

  load_and_apply-IsRecorded : load_and_apply env p s ≡ returned d → IsRecorded p.request_id d.store
  unfolding load_and_apply
  load_and_apply-IsRecorded e =
      let (o, w, r) = >>=-eq-returned (get_cart env.faults p.cart_id s) _ e in
      apply_to_cart-IsRecorded _ r

  pub try_proposal-IsRecorded : try_proposal env p s ≡ returned d → IsRecorded p.request_id d.store
  unfolding try_proposal
  try_proposal-IsRecorded e =
      let (seen, w, r) = >>=-eq-returned (was_processed env.faults p.request_id s) _ e in
      let k = was_processed-returned env.faults s s p.request_id seen w in
      elim (Bool-cases seen) [
        | inl t ↦
            let u : d.store ≡ s = ground (arith, r, t) in
            let v : is_some (get p.request_id s.processed) ≡ true = ground (arith, k, t) in rw u v
        | inr t ↦ load_and_apply-IsRecorded (ground (arith, r, t))
      ]

module _ (env : Env) (p : OrderProposal) (session : Option String) where
  recorded-try_proposal :
      (s : Store)
      → IsRecorded p.request_id s
      → env.faults.was_processed_fails ≡ false
      → try_proposal env p s ≡ returned (record { store = s; updated = none; rejections = [] })
  unfolding try_proposal
  recorded-try_proposal s k e = rw (was_processed-works env.faults s s p.request_id e) (rw k refl)

  -- A proposal whose request the ledger has changes nothing and emits nothing.
  pub recorded-apply_proposal :
      (s : Store)
      → IsRecorded p.request_id s
      → env.faults.was_processed_fails ≡ false
      → apply_proposal env p session s ≡ (s, [])
  unfolding apply_proposal conclude update_event
  recorded-apply_proposal s k e = rw (recorded-try_proposal s k e) refl

  pub apply_proposal-IsRecorded :
      (s : Store)
      → IsRecorded p.request_id (apply_proposal env p session s).0
        ⊎ (apply_proposal env p session s ≡ (s, failure_event p session ∷ []))
  unfolding apply_proposal conclude
  apply_proposal-IsRecorded s = elim (Attempt-cases (try_proposal env p s)) [
    | inl (d, e) ↦ inl (rw e (try_proposal-IsRecorded env p s d e))
    | inr e ↦ inr (rw e refl)
  ]
