-- ===== src/Cart/Store/Laws.antt =====
-- What a call of the store that succeeds has done (src/cart/cart-repository.ts,
-- src/redis/cart-cache.ts).
use voice_order_backend.Base.{
  ◌≡◌, refl, Bool, true, false, Option, none, some, String, returned, is_some, get, put,
  get-put_self, ap,
}
use voice_order_backend.Cart.{Cart}
use voice_order_backend.Cart.Store.{
  Store, Faults, Ledger, applied, get_cart, set_cart, was_processed, mark, mark_processed,
  write_cart, index, commit_applied, commit_created, guarded, index_device,
}

-- The ledger has this request.
abbrev pub IsRecorded : String → Store → Type 0
IsRecorded r s = is_some (get r s.processed) ≡ true

guarded-returned {ℓ} : {A : Type ℓ} (b : Bool) (a a' : A) → guarded b a ≡ returned a' → a' ≡ a
unfolding guarded
guarded-returned true a a' e = cc
guarded-returned false a a' e = cc

index_device-keeps :
    (d : Option String) (id : String) (s : Store)
    → ((index_device d id s).processed ≡ s.processed) × ((index_device d id s).carts ≡ s.carts)
unfolding index_device
index_device-keeps none id s = (refl, refl)
index_device-keeps (some d) id s = (refl, refl)

module _ (f : Faults) (s s' : Store) where
  pub get_cart-returned :
      (id : String) (o : Option Cart) → get_cart f id s ≡ returned o → o ≡ get id s.carts
  unfolding get_cart
  get_cart-returned id o e = guarded-returned f.get_fails _ o e

  pub was_processed-returned :
      (r : String) (b : Bool) → was_processed f r s ≡ returned b → b ≡ is_some (get r s.processed)
  unfolding was_processed
  was_processed-returned r b e = guarded-returned f.was_processed_fails _ b e

  pub get_cart-works :
      (id : String) → f.get_fails ≡ false → get_cart f id s ≡ returned (get id s.carts)
  unfolding get_cart guarded
  get_cart-works id e = rw e refl

  pub was_processed-works :
      (r : String)
      → f.was_processed_fails ≡ false
      → was_processed f r s ≡ returned (is_some (get r s.processed))
  unfolding was_processed guarded
  was_processed-works r e = rw e refl

  pub mark_processed-returned :
      (r : String) (o : Ledger)
      → mark_processed f r o s ≡ returned s'
      → IsRecorded r s' × (s'.carts ≡ s.carts)
  unfolding mark_processed mark
  mark_processed-returned r o e =
      let p = guarded-returned f.mark_fails (mark r o s) s' e in
      (rw p (rw (get-put_self r o s.processed) refl), rw p refl)

  pub commit_applied-returned :
      (c : Cart) (r : String)
      → commit_applied f c r s ≡ returned s'
      → IsRecorded r s' × (s'.carts ≡ put c.cart_id c s.carts)
  unfolding commit_applied mark index write_cart
  commit_applied-returned c r e =
      let t = index c (write_cart c s) in
      let p = guarded-returned f.commit_fails (mark r applied t) s' e in
      (
        rw p (rw (get-put_self r applied t.processed) refl),
        rw p (index_device-keeps c.device_id c.cart_id (write_cart c s)).1,
      )

  pub commit_created-returned :
      (c : Cart)
      → commit_created f c s ≡ returned s'
      → (s'.processed ≡ s.processed) × (s'.carts ≡ put c.cart_id c s.carts)
  unfolding commit_created index write_cart
  commit_created-returned c e =
      let k = index_device-keeps c.device_id c.cart_id (write_cart c s) in
      let p = guarded-returned f.commit_fails (index c (write_cart c s)) s' e in
      (rw p k.0, rw p k.1)

  pub set_cart-returned :
      (c : Cart) → set_cart f c s ≡ returned s' → s'.carts ≡ put c.cart_id c s.carts
  unfolding set_cart write_cart
  set_cart-returned c e = let p = guarded-returned f.set_fails (write_cart c s) s' e in rw p refl

  pub mark_processed-ledger :
      (r : String) (o : Ledger)
      → mark_processed f r o s ≡ returned s'
      → s'.processed ≡ put r o s.processed
  unfolding mark_processed mark
  mark_processed-ledger r o e = rw (guarded-returned f.mark_fails (mark r o s) s' e) refl

  pub commit_applied-ledger :
      (c : Cart) (r : String)
      → commit_applied f c r s ≡ returned s'
      → s'.processed ≡ put r applied s.processed
  unfolding commit_applied mark index write_cart
  commit_applied-ledger c r e =
      let t = index c (write_cart c s) in
      let p = guarded-returned f.commit_fails (mark r applied t) s' e in
      rw p (ap (put r applied) (index_device-keeps c.device_id c.cart_id (write_cart c s)).0)

  pub set_cart-ledger : (c : Cart) → set_cart f c s ≡ returned s' → s'.processed ≡ s.processed
  unfolding set_cart write_cart
  set_cart-ledger c e = rw (guarded-returned f.set_fails (write_cart c s) s' e) refl
