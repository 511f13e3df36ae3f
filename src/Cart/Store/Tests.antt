-- ===== src/Cart/Store/Tests.antt =====
-- A run of cart-repository.ts: the first commit of a cart.
use voice_order_backend.Base.{◌≡◌, refl, [], ◌∷◌, false, returned, get, put}
use voice_order_backend.Cart.{Cart}
use voice_order_backend.Cart.Store.{
  Store, Faults, empty_store, guarded, commit_applied, applied, mark, index, index_device,
  write_cart, add_member,
}
use voice_order_backend.Cart.Applier.Tests.{tea_cart}

abbrev pub no_faults : Faults
no_faults = record {
  was_processed_fails = false;
  get_fails = false;
  mark_fails = false;
  commit_fails = false;
  set_fails = false;
}

abbrev pub next_cart : Cart
next_cart = record tea_cart { version = 1 }

abbrev pub tea_store : Store
tea_store = record {
  carts = ("c1", next_cart) ∷ [];
  processed = ("r1", applied) ∷ [];
  by_device = ("d1", "c1" ∷ []) ∷ [];
}

pub commit_run : commit_applied no_faults next_cart "r1" empty_store ≡ returned tea_store
unfolding commit_applied guarded mark index index_device write_cart add_member get put
commit_run = refl
