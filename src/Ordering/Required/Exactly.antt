-- ===== src/Ordering/Required/Exactly.antt =====
-- The items that a batch adds, when required-modifiers.ts passes it.
use voice_order_backend.Base.{
  subst, ℕ, zero, suc, ◌≡◌, refl, Bool, true, false, ◌&&◌, List, [], ◌∷◌, ◌++◌, map, Option, none,
  some, String, same, get, get_elem?, arith, Bool-cases, Option-cases, sym, ◌≢◌, inl, inr, same→eq,
  same_refl, if◌then◌else◌, ◌≢◌,
}
use voice_order_backend.Menu.{MenuItem, display_name}
use voice_order_backend.Contracts.{
  CartOperation, add_item, remove_item, update_quantity, add_modifier, remove_modifier,
}
use voice_order_backend.Ordering.Required.{
  ModOption, Violation, LineView, member, insert, in_group, is_required, add_group, required_groups,
  chosen, judged, check_groups, check_exactly_one, to_option, check_item, add_violations,
  edit_violations, has_violation, without_repeats, find_violations,
}

-- Some option says that this group is required.
abbrev pub requires : String → List ModOption → Bool
requires g [] = false
requires g (o ∷ os) = if in_group g o && is_required o then true else requires g os

member-append :
    (g x : String) (gs : List String) → member g gs ≡ true → member g (gs ++ x ∷ []) ≡ true
unfolding member
member-append g x [] h = absurd (cc)
member-append g x (y ∷ gs) h = elim (Bool-cases (same y g)) [
  | inl t ↦ rw t refl
  | inr t ↦ ground (arith, h, t, member-append g x gs)
]

member-append_self : (g : String) (gs : List String) → member g (gs ++ g ∷ []) ≡ true
unfolding member
member-append_self g [] = rw (same_refl g) refl
member-append_self g (y ∷ gs) = elim (Bool-cases (same y g)) [
  | inl t ↦ rw t refl
  | inr t ↦ rw t (member-append_self g gs)
]

member-insert :
    (g x : String) (gs : List String) → member g gs ≡ true → member g (insert x gs) ≡ true
unfolding insert
member-insert g x gs h = elim (Bool-cases (member x gs)) [
  | inl t ↦ rw t h
  | inr t ↦ rw t (member-append g x gs h)
]

member-insert_self : (g : String) (gs : List String) → member g (insert g gs) ≡ true
unfolding insert
member-insert_self g gs = elim (Bool-cases (member g gs)) [
  | inl t ↦ rw (t, insert) t
  | inr t ↦ rw (t, insert) (member-append_self g gs)
]

member-add_group :
    (g : String) (o : ModOption) (gs : List String)
    → member g gs ≡ true
    → member g (add_group o gs) ≡ true
unfolding add_group
member-add_group g o gs h = elim (Option-cases o.group_key) [
  | inl t ↦ ground (arith, h, t)
  | inr (x, t) ↦ ground (arith, h, t, member-insert g x gs h)
]

add_group-member :
    (g : String) (o : ModOption) (gs : List String)
    → in_group g o ≡ true
    → is_required o ≡ true
    → member g (add_group o gs) ≡ true
unfolding add_group in_group
add_group-member g o gs i r = elim (Option-cases o.group_key) [
  | inl t ↦ absurd (ground (arith, i, t))
  | inr (x, t) ↦
      let k : same x g ≡ true = ground (arith, i, t) in
      let p = same→eq x g k in
      let q : o.group_key ≡ some g = rw (sym p) t in ground (arith, q, r, member-insert_self g gs)
]

member-required_groups :
    (g : String) (os : List ModOption) (gs : List String)
    → member g gs ≡ true
    → member g (required_groups gs os) ≡ true
unfolding required_groups
member-required_groups g [] gs h = h
member-required_groups g (o ∷ os) gs h =
    member-required_groups g os (add_group o gs) (member-add_group g o gs h)

requires-member :
    (g : String) (os : List ModOption) (gs : List String)
    → requires g os ≡ true
    → member g (required_groups gs os) ≡ true
unfolding required_groups
requires-member g [] gs h = absurd (cc)
requires-member g (o ∷ os) gs h = elim (Bool-cases (in_group g o && is_required o)) [
  | inl t ↦
      member-required_groups g os (add_group o gs)
        (add_group-member g o gs (ground (arith, t)) (ground (arith, t)))
  | inr t ↦ requires-member g os (add_group o gs) (ground (arith, h, t))
]

check_groups-one :
    (keys : List String) (os : List ModOption) (label : String) (only : Option (List String))
    (gs : List String) (g : String)
    → check_groups keys os label only gs ≡ []
    → member g gs ≡ true
    → judged only g ≡ true
    → chosen g os keys ≡ 1
unfolding check_groups member
check_groups-one keys os label only [] g e m j = absurd (cc)
check_groups-one keys os label only (h ∷ gs) g e m j = elim (Bool-cases (same h g)) [
  | inl t ↦ let p = same→eq h g t in ground (arith, e, p, j)
  | inr t ↦ check_groups-one keys os label only gs g (ground (arith, e)) (ground (arith, m, t)) j
]

pub check_exactly_one-one :
    (keys : List String) (os : List ModOption) (label : String) (only : Option (List String))
    (g : String)
    → check_exactly_one keys os label only ≡ []
    → requires g os ≡ true
    → judged only g ≡ true
    → chosen g os keys ≡ 1
unfolding check_exactly_one
check_exactly_one-one keys os label only g e r j =
    check_groups-one keys os label only (required_groups [] os) g e (requires-member g os [] r) j

-- Repeats are dropped, not everything.
without_repeats-seen :
    (v : Violation) (seen vs : List Violation) → without_repeats (v ∷ seen) vs ≢ []
unfolding without_repeats
without_repeats-seen v seen [] e = absurd (cc)
without_repeats-seen v seen (w ∷ vs) e = elim (Bool-cases (has_violation w (v ∷ seen))) [
  | inl t ↦ without_repeats-seen v seen vs (ground (arith, e, t))
  | inr t ↦ without_repeats-seen v (seen ++ w ∷ []) vs (ground (arith, e, t))
]

without_repeats-[] : (vs : List Violation) → without_repeats [] vs ≡ [] → vs ≡ []
unfolding without_repeats has_violation
without_repeats-[] [] e = refl
without_repeats-[] (v ∷ vs) e = absurd (without_repeats-seen v [] vs e)

append-[] {ℓ} : {A : Type ℓ} (xs ys : List A) → xs ++ ys ≡ [] → (xs ≡ []) × (ys ≡ [])
append-[] [] ys e = (refl, e)
append-[] (x ∷ xs) ys e = absurd (cc)

module _ (items : List (String × MenuItem)) where
  add_violations-item :
      (ops : List CartOperation) (n : ℕ) (key : String) (quantity : ℕ) (keys : List String)
      → add_violations items ops ≡ []
      → get_elem? ops n ≡ some (add_item key quantity keys)
      → check_item (get key items) keys ≡ []
  unfolding add_violations
  add_violations-item [] n key quantity keys e k = absurd (cc)
  add_violations-item (add_item a b c ∷ ops) zero key quantity keys e k =
      let h = append-[] (check_item (get a items) c) (add_violations items ops) e in
      let p : a ≡ key = cc in
      let q : c ≡ keys = cc in
      subst (λ (x : List String). check_item (get key items) x ≡ []) q
        (subst (λ x. check_item (get x items) c ≡ []) p h.0)
  add_violations-item (remove_item a ∷ ops) zero key quantity keys e k = absurd (cc)
  add_violations-item (update_quantity a b ∷ ops) zero key quantity keys e k = absurd (cc)
  add_violations-item (add_modifier a b ∷ ops) zero key quantity keys e k = absurd (cc)
  add_violations-item (remove_modifier a b ∷ ops) zero key quantity keys e k = absurd (cc)
  add_violations-item (add_item a b c ∷ ops) (suc n) key quantity keys e k =
      let h = append-[] (check_item (get a items) c) (add_violations items ops) e in
      add_violations-item ops n key quantity keys h.1 k
  add_violations-item (remove_item a ∷ ops) (suc n) key quantity keys e k =
      add_violations-item ops n key quantity keys e k
  add_violations-item (update_quantity a b ∷ ops) (suc n) key quantity keys e k =
      add_violations-item ops n key quantity keys e k
  add_violations-item (add_modifier a b ∷ ops) (suc n) key quantity keys e k =
      add_violations-item ops n key quantity keys e k
  add_violations-item (remove_modifier a b ∷ ops) (suc n) key quantity keys e k =
      add_violations-item ops n key quantity keys e k

pub find_violations-added :
    (ops : List CartOperation) (view : Option (List LineView)) (items : List (String × MenuItem))
    (n : ℕ) (key : String) (quantity : ℕ) (keys : List String) (item : MenuItem) (g : String)
    → find_violations ops view items ≡ []
    → get_elem? ops n ≡ some (add_item key quantity keys)
    → get key items ≡ some item
    → item.available ≡ true
    → requires g (map to_option item.modifiers) ≡ true
    → chosen g (map to_option item.modifiers) keys ≡ 1
unfolding find_violations check_item judged
find_violations-added ops view items n key quantity keys item g e k i a r =
    let h =
      append-[] (add_violations items ops) (edit_violations view ops)
        (without_repeats-[] (add_violations items ops ++ edit_violations view ops) e) in
    let c = add_violations-item items ops n key quantity keys h.0 k in
    let d : check_item (some item) keys ≡ [] = subst (λ x. check_item x keys ≡ []) i c in
    check_exactly_one-one keys (map to_option item.modifiers)
      (display_name (some item.names) item.menu_item_key) none g (ground (arith, d, a)) r refl
