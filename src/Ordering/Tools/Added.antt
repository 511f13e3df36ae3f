-- ===== src/Ordering/Tools/Added.antt =====
-- The items that an accepted batch adds (run-tools.ts, required-modifiers.ts).
use voice_order_backend.Base.{
  ◌≡◌, refl, true, false, List, [], ◌∷◌, map, Option, none, some, String, same, get, get_elem?,
  arith, Bool-cases, inl, inr, ℕ, zero, suc, returned, threw, Attempt, same→eq, eq→same, ap, ◌∙◌,
}
use voice_order_backend.Menu.{MenuItem}
use voice_order_backend.Contracts.{
  CartOperation, add_item, remove_item, update_quantity, add_modifier, remove_modifier,
}
use voice_order_backend.Ordering.Mentioned.{distinct_keys, has_key}
use voice_order_backend.Ordering.Required.{to_option, chosen}
use voice_order_backend.Ordering.Required.Exactly.{requires, find_violations-added}
use voice_order_backend.Ordering.Tools.{
  Tooling, Turn, add_item_keys, resolved_keys, items_by_key, violations_of,
}

-- Each item that the operations add, and that is on the menu and for sale, has exactly one option of each
-- group that it requires.
pub record AddsOne (t : Tooling) (pos_config_id : ℕ) (ops : List CartOperation) : Type 0 where
  pub one :
      (n : ℕ) (key : String) (quantity : ℕ) (keys : List String) (item : MenuItem) (g : String)
      → get_elem? ops n ≡ some (add_item key quantity keys)
      → t.resolve_item_key pos_config_id key ≡ returned (some item)
      → item.available ≡ true
      → requires g (map to_option item.modifiers) ≡ true
      → chosen g (map to_option item.modifiers) keys ≡ 1

distinct_keys-has :
    (seen ks : List String) (k : String)
    → has_key k ks ≡ true
    → has_key k seen ≡ false
    → has_key k (distinct_keys seen ks) ≡ true
unfolding distinct_keys has_key
distinct_keys-has seen [] k h u = absurd (cc)
distinct_keys-has seen (x ∷ ks) k h u = elim (Bool-cases (same x k)) [
  | inl b ↦
      let fresh : has_key x seen ≡ false = ap (λ y. has_key y seen) (same→eq x k b) ∙ u in
      rw fresh (rw b refl)
  | inr b ↦
      let rest : has_key k ks ≡ true = ground (arith, h, b) in
      elim (Bool-cases (has_key x seen)) [
        | inl c ↦ rw c (distinct_keys-has seen ks k rest u)
        | inr c ↦ rw c (rw b (distinct_keys-has (x ∷ seen) ks k rest (rw b u)))
      ]
]

add_item_keys-has :
    (ops : List CartOperation) (n : ℕ) (key : String) (quantity : ℕ) (keys : List String)
    → get_elem? ops n ≡ some (add_item key quantity keys)
    → has_key key (add_item_keys ops) ≡ true
unfolding add_item_keys has_key
add_item_keys-has [] n key quantity keys e = absurd (cc)
add_item_keys-has (add_item a b c ∷ ops) zero key quantity keys e =
    let p : a ≡ key = cc in rw (eq→same a key p) refl
add_item_keys-has (remove_item a ∷ ops) zero key quantity keys e = absurd (cc)
add_item_keys-has (update_quantity a b ∷ ops) zero key quantity keys e = absurd (cc)
add_item_keys-has (add_modifier a b ∷ ops) zero key quantity keys e = absurd (cc)
add_item_keys-has (remove_modifier a b ∷ ops) zero key quantity keys e = absurd (cc)
add_item_keys-has (add_item a b c ∷ ops) (suc n) key quantity keys e =
    let h = add_item_keys-has ops n key quantity keys e in ground (arith, h)
add_item_keys-has (remove_item a ∷ ops) (suc n) key quantity keys e =
    add_item_keys-has ops n key quantity keys e
add_item_keys-has (update_quantity a b ∷ ops) (suc n) key quantity keys e =
    add_item_keys-has ops n key quantity keys e
add_item_keys-has (add_modifier a b ∷ ops) (suc n) key quantity keys e =
    add_item_keys-has ops n key quantity keys e
add_item_keys-has (remove_modifier a b ∷ ops) (suc n) key quantity keys e =
    add_item_keys-has ops n key quantity keys e

module _ (t : Tooling) (p : ℕ) (key : String) (item : MenuItem)
    (r : t.resolve_item_key p key ≡ returned (some item)) where
  -- A key that is not the one in question leaves what is found as it is.
  skip_other :
      (x : String) (keys : List String) (a : Attempt (Option MenuItem))
      → t.resolve_item_key p x ≡ a
      → same x key ≡ false
      → get key (resolved_keys t p (x ∷ keys)) ≡ get key (resolved_keys t p keys)
  unfolding resolved_keys get
  skip_other x keys threw e b = rw (e, resolved_keys) refl
  skip_other x keys (returned none) e b = rw (e, resolved_keys) refl
  skip_other x keys (returned (some i)) e b = rw (e, resolved_keys) (rw b refl)

  resolved_keys-get :
      (keys : List String) → has_key key keys ≡ true → get key (resolved_keys t p keys) ≡ some item
  unfolding resolved_keys has_key get
  resolved_keys-get [] h = absurd (cc)
  resolved_keys-get (x ∷ keys) h = elim (Bool-cases (same x key)) [
    | inl b ↦
        let e : t.resolve_item_key p x ≡ returned (some item) =
          ap (t.resolve_item_key p) (same→eq x key b) ∙ r in
        rw (e, resolved_keys) (rw b refl)
    | inr b ↦
        skip_other x keys (t.resolve_item_key p x) refl b
        ∙ resolved_keys-get keys (ground (arith, h, b))
  ]

pub violations_of-AddsOne :
    (t : Tooling) (s : Turn) (ops : List CartOperation)
    → violations_of t s ops ≡ []
    → AddsOne t s.pos_config_id ops
unfolding violations_of items_by_key
violations_of-AddsOne t s ops e = record {
  one = λ n key quantity keys item g k r a q.
      let h = add_item_keys-has ops n key quantity keys k in
      let found =
        resolved_keys-get t s.pos_config_id key item r (distinct_keys [] (add_item_keys ops))
          (distinct_keys-has [] (add_item_keys ops) key h (unfold has_key in refl)) in
      find_violations-added ops s.cart_view (items_by_key t s.pos_config_id ops) n key quantity keys
        item g e k found a q;
}
