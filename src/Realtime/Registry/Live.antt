-- ===== src/Realtime/Registry/Live.antt =====
-- client-registry.ts against the list of live connections.
use voice_order_backend.Base.{
  ◌≡◌, refl, sym, ◌∙◌, ap, Bool, true, false, not, List, [], ◌∷◌, ◌++◌, append-nil, String, same,
  get, get-put_self, get-put_ne, same→eq, filter_b, or_else, if◌then◌else◌, arith, Bool-cases,
  Option-cases, inl, inr, get-delete_key, get-delete_key_ne,
}
use voice_order_backend.Realtime.Registry.{
  Connection, same_connection, Registry, empty_registry, has_connection, insert_connection,
  delete_connection, get_by_cart, add, put_or_delete, remove, Event, connects, closes, step, run,
}

-- The connections that are open, oldest first.
abbrev pub live : List Event → List Connection → List Connection
live [] cs = cs
live (connects c ∷ es) cs = live es (insert_connection c cs)
live (closes c ∷ es) cs = live es (delete_connection c cs)

abbrev pub on_cart : String → List Connection → List Connection
on_cart cart cs = filter_b (λ c. same c.cart_id cart) cs

get-put_or_delete :
    (k : String) (cs : List Connection) (m : List (String × List Connection))
    → or_else (get k (put_or_delete k cs m)) [] ≡ cs
unfolding put_or_delete
get-put_or_delete k [] m = rw (get-delete_key k m) refl
get-put_or_delete k (c ∷ cs) m = rw (get-put_self k (c ∷ cs) m) refl

get-put_or_delete_ne :
    (k j : String) (cs : List Connection) (m : List (String × List Connection))
    → same k j ≡ false
    → get j (put_or_delete k cs m) ≡ get j m
unfolding put_or_delete
get-put_or_delete_ne k j [] m h = get-delete_key_ne k j m h
get-put_or_delete_ne k j (c ∷ cs) m h = get-put_ne k j (c ∷ cs) m h

get_by_cart-empty : (cart : String) → get_by_cart cart empty_registry ≡ []
unfolding get_by_cart get
get_by_cart-empty cart = refl

get_by_cart-add :
    (c : Connection) (r : Registry) (cart : String)
    → get_by_cart cart (add c r) ≡ (
        if same c.cart_id cart
        then insert_connection c (get_by_cart cart r)
        else get_by_cart cart r)
unfolding get_by_cart add
get_by_cart-add c r cart = elim (Bool-cases (same c.cart_id cart)) [
  | inl t ↦
      let p = same→eq c.cart_id cart t in
      rw t (
        rw (sym p) (
          rw
            (get-put_self c.cart_id (insert_connection c (or_else (get c.cart_id r.by_cart) []))
              r.by_cart)
            refl))
  | inr t ↦ rw t (
      rw
        (get-put_ne c.cart_id cart (insert_connection c (or_else (get c.cart_id r.by_cart) []))
          r.by_cart t)
        refl)
]

get_by_cart-remove :
    (c : Connection) (r : Registry) (cart : String)
    → get_by_cart cart (remove c r) ≡ (
        if same c.cart_id cart
        then delete_connection c (get_by_cart cart r)
        else get_by_cart cart r)
unfolding get_by_cart remove delete_connection
get_by_cart-remove c r cart = elim (Option-cases (get c.cart_id r.by_cart)) [
  | inl n ↦
      let q : (remove c r).by_cart ≡ r.by_cart = rw (n, remove) refl in
      ap (λ (m : List (String × List Connection)). or_else (get cart m) []) q
      ∙ elim (Bool-cases (same c.cart_id cart)) [
        | inl t ↦ rw t (rw (sym (same→eq c.cart_id cart t)) (rw n refl))
        | inr t ↦ rw t refl
      ]
  | inr (set, n) ↦
      let rest = delete_connection c set in
      let q : (remove c r).by_cart ≡ put_or_delete c.cart_id rest r.by_cart = rw (n, remove) refl in
      ap (λ (m : List (String × List Connection)). or_else (get cart m) []) q
      ∙ elim (Bool-cases (same c.cart_id cart)) [
        | inl t ↦ rw t (
            rw (sym (same→eq c.cart_id cart t)) (rw n (get-put_or_delete c.cart_id rest r.by_cart)))
        | inr t ↦ rw t (rw (get-put_or_delete_ne c.cart_id cart rest r.by_cart t) refl)
      ]
]

same_connection-cart :
    (d c : Connection) → same_connection d c ≡ true → same d.cart_id c.cart_id ≡ true
unfolding same_connection
same_connection-cart d c h = ground (arith, h)

has_connection-on_cart :
    (c : Connection) (cart : String) (cs : List Connection)
    → same c.cart_id cart ≡ true
    → has_connection c (on_cart cart cs) ≡ has_connection c cs
unfolding has_connection
has_connection-on_cart c cart [] h = refl
has_connection-on_cart c cart (d ∷ cs) h = elim (Bool-cases (same_connection d c)) [
  | inl t ↦
      let p = same→eq d.cart_id c.cart_id (same_connection-cart d c t) in
      let q : same d.cart_id cart ≡ true = rw p h in rw q (rw t refl)
  | inr t ↦ elim (Bool-cases (same d.cart_id cart)) [
    | inl u ↦ rw u (rw t (has_connection-on_cart c cart cs h))
    | inr u ↦ rw u (rw t (has_connection-on_cart c cart cs h))
  ]
]

on_cart-append :
    (cart : String) (xs ys : List Connection)
    → on_cart cart (xs ++ ys) ≡ on_cart cart xs ++ on_cart cart ys
on_cart-append cart [] ys = refl
on_cart-append cart (x ∷ xs) ys = elim (Bool-cases (same x.cart_id cart)) [
  | inl t ↦ rw t (rw (on_cart-append cart xs ys) refl)
  | inr t ↦ rw t (on_cart-append cart xs ys)
]

on_cart-insert :
    (c : Connection) (cart : String) (cs : List Connection)
    → on_cart cart (insert_connection c cs)
      ≡ (if same c.cart_id cart then insert_connection c (on_cart cart cs) else on_cart cart cs)
unfolding insert_connection
on_cart-insert c cart cs = elim (Bool-cases (has_connection c cs)) [
  | inl h ↦ elim (Bool-cases (same c.cart_id cart)) [
    | inl t ↦
        let k : has_connection c (on_cart cart cs) ≡ true =
          has_connection-on_cart c cart cs t ∙ h in
        rw h (rw t (rw k refl))
    | inr t ↦ rw h (rw t refl)
  ]
  | inr h ↦ elim (Bool-cases (same c.cart_id cart)) [
    | inl t ↦
        let k : has_connection c (on_cart cart cs) ≡ false =
          has_connection-on_cart c cart cs t ∙ h in
        let one : on_cart cart (c ∷ []) ≡ c ∷ [] = rw t refl in
        rw h (
          rw t (
            rw k (
              on_cart-append cart cs (c ∷ [])
              ∙ ap (λ (x : List Connection). on_cart cart cs ++ x) one)))
    | inr t ↦
        let one : on_cart cart (c ∷ []) ≡ [] = rw t refl in
        rw h (
          rw t (
            on_cart-append cart cs (c ∷ [])
            ∙ ap (λ (x : List Connection). on_cart cart cs ++ x) one
            ∙ append-nil (on_cart cart cs)))
  ]
]

filter_b_comm {ℓ} :
    {A : Type ℓ} (p q : A → Bool) (xs : List A)
    → filter_b p (filter_b q xs) ≡ filter_b q (filter_b p xs)
filter_b_comm p q [] = refl
filter_b_comm p q (x ∷ xs) = elim (Bool-cases (p x)) [
  | inl t ↦ elim (Bool-cases (q x)) [
    | inl u ↦ rw u (rw t (rw u (rw (filter_b_comm p q xs) refl)))
    | inr u ↦ rw u (rw t (rw u (filter_b_comm p q xs)))
  ]
  | inr t ↦ elim (Bool-cases (q x)) [
    | inl u ↦ rw u (rw t (filter_b_comm p q xs))
    | inr u ↦ rw u (rw t (filter_b_comm p q xs))
  ]
]

on_cart-delete_ne :
    (c : Connection) (cart : String) (cs : List Connection)
    → same c.cart_id cart ≡ false
    → on_cart cart (delete_connection c cs) ≡ on_cart cart cs
unfolding delete_connection
on_cart-delete_ne c cart [] h = refl
on_cart-delete_ne c cart (d ∷ cs) h = elim (Bool-cases (same_connection d c)) [
  | inl t ↦
      let p = same→eq d.cart_id c.cart_id (same_connection-cart d c t) in
      let q : same d.cart_id cart ≡ false = rw p h in rw t (rw q (on_cart-delete_ne c cart cs h))
  | inr t ↦ elim (Bool-cases (same d.cart_id cart)) [
    | inl u ↦ rw t (rw u (rw (on_cart-delete_ne c cart cs h) refl))
    | inr u ↦ rw t (rw u (on_cart-delete_ne c cart cs h))
  ]
]

on_cart-delete :
    (c : Connection) (cart : String) (cs : List Connection)
    → on_cart cart (delete_connection c cs)
      ≡ (if same c.cart_id cart then delete_connection c (on_cart cart cs) else on_cart cart cs)
unfolding delete_connection
on_cart-delete c cart cs = elim (Bool-cases (same c.cart_id cart)) [
  | inl t ↦ rw t (filter_b_comm (λ d. same d.cart_id cart) (λ d. not (same_connection d c)) cs)
  | inr t ↦ rw t (on_cart-delete_ne c cart cs t)
]

run-live :
    (es : List Event) (r : Registry) (cs : List Connection)
    → ((cart : String) → get_by_cart cart r ≡ on_cart cart cs)
    → (cart : String) → get_by_cart cart (run es r) ≡ on_cart cart (live es cs)
unfolding run step
run-live [] r cs h cart = h cart
run-live (connects c ∷ es) r cs h cart =
    run-live es (add c r) (insert_connection c cs)
      (λ k.
        get_by_cart-add c r k
        ∙ ap (λ (x : List Connection). if same c.cart_id k then insert_connection c x else x) (h k)
        ∙ sym (on_cart-insert c k cs))
      cart
run-live (closes c ∷ es) r cs h cart =
    run-live es (remove c r) (delete_connection c cs)
      (λ k.
        get_by_cart-remove c r k
        ∙ ap (λ (x : List Connection). if same c.cart_id k then delete_connection c x else x) (h k)
        ∙ sym (on_cart-delete c k cs))
      cart

-- After any history of sockets that connect and close, also when a new socket of a cart connects
-- before the old one's close fires, a cart's connections are those open on it, oldest first.
pub run-empty-live :
    (es : List Event) (cart : String)
    → get_by_cart cart (run es empty_registry) ≡ on_cart cart (live es [])
run-empty-live es cart = run-live es empty_registry [] (λ k. get_by_cart-empty k) cart
