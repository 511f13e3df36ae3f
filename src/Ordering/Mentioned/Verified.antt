-- ===== src/Ordering/Mentioned/Verified.antt =====
-- What mentioned-items.ts lets through: the first items shown, in the order named.
use voice_order_backend.Base.{
  Option, Bool-cases, ◌↔◌, ℕ, zero, suc, ◌+◌, ◌≤◌, ◌≡◌, refl, sym, ◌∙◌, ap, true, false, List, [],
  ◌∷◌, ◌++◌, none, some, String, get, length, length-append, ltb, arith, Option-cases, inl, inr,
  append_assoc, append-nil,
}
use voice_order_backend.Ordering.Mentioned.{
  Mention, mentioned, lookup, has_key, inherited_keys, MentionedItem, max_mentioned_items,
  distinct_keys, resolve_keys, resolve_mentioned_items,
}

abbrev pub first {ℓ} : {A : Type ℓ} → ℕ → List A → List A
first zero xs = []
first (suc n) [] = []
first (suc n) (x ∷ xs) = x ∷ first n xs

-- What is found under these keys, in order.
abbrev pub shown : List (String × MentionedItem) → List String → List Mention
shown known [] = []
shown known (k ∷ ks) =
    let rest = shown known ks in elim (lookup k known) [ none ↦ rest | some i ↦ i ∷ rest ]

resolve_keys-eq :
    (known : List (String × MentionedItem)) (acc : List Mention) (ks : List String) (room : ℕ)
    → length acc + room ≡ max_mentioned_items
    → resolve_keys known acc ks ≡ acc ++ first room (shown known ks)
unfolding resolve_keys
resolve_keys-eq known acc [] zero h = sym (append-nil acc)
resolve_keys-eq known acc [] (suc room) h = sym (append-nil acc)
resolve_keys-eq known acc (k ∷ ks) zero h = elim (Option-cases (lookup k known)) [
  | inl t ↦ rw (t, resolve_keys) (resolve_keys-eq known acc ks zero h)
  | inr (i, t) ↦
      let full : ltb (length acc) max_mentioned_items ≡ false = ground (arith, h) in
      rw (t, resolve_keys) (rw full (resolve_keys-eq known acc ks zero h))
]
resolve_keys-eq known acc (k ∷ ks) (suc room) h = elim (Option-cases (lookup k known)) [
  | inl t ↦
      let skip : shown known (k ∷ ks) ≡ shown known ks = rw (t, shown) refl in
      let step : resolve_keys known acc (k ∷ ks) ≡ resolve_keys known acc ks =
        rw (t, resolve_keys) refl in
      step
      ∙ resolve_keys-eq known acc ks (suc room) h
      ∙ ap (λ (x : List Mention). acc ++ first (suc room) x) (sym skip)
  | inr (i, t) ↦
      let keep : shown known (k ∷ ks) ≡ i ∷ shown known ks = rw (t, shown) refl in
      let free : ltb (length acc) max_mentioned_items ≡ true = ground (arith, h) in
      let l = length-append acc (i ∷ []) in
      let step : resolve_keys known acc (k ∷ ks) ≡ resolve_keys known (acc ++ i ∷ []) ks =
        rw (t, resolve_keys) (rw free refl) in
      step
      ∙ resolve_keys-eq known (acc ++ i ∷ []) ks room (omega (arith, l, h))
      ∙ append_assoc acc (i ∷ []) (first room (shown known ks))
      ∙ ap (λ (x : List Mention). acc ++ first (suc room) x) (sym keep)
]

length-first {ℓ} : {A : Type ℓ} (n : ℕ) (xs : List A) → length (first n xs) ≤ n
length-first zero xs = omega arith
length-first (suc n) [] = omega arith
length-first (suc n) (x ∷ xs) = let h = length-first n xs in omega arith

-- What a key finds: the item that the agent was shown under it, or, where it was shown none, what every
-- object inherits under this name.
pub record IsFound (known : List (String × MentionedItem)) (key : String) (m : Option Mention)
    : Type 0 where
  pub own : (item : MentionedItem) → (m ≡ some (mentioned item)) ↔ (get key known ≡ some item)
  pub nothing : (m ≡ none) ↔ ((get key known ≡ none) × (has_key key inherited_keys ≡ false))

lookup-IsFound :
    (known : List (String × MentionedItem)) (key : String) → IsFound known key (lookup key known)
unfolding lookup
lookup-IsFound known key = elim (Option-cases (get key known)) [
  | inr (i, e) ↦
      rw (e, lookup)
        (record {
          own = λ item. (λ h. cc, λ h. cc);
          nothing = (λ h. absurd (cc), λ h. absurd (cc (h.0)));
        })
  | inl e ↦ elim (Bool-cases (has_key key inherited_keys)) [
    | inl b ↦
        rw (e, lookup, b)
          (record {
            own = λ item. (λ h. absurd (cc), λ h. absurd (cc));
            nothing = (λ h. absurd (cc), λ h. absurd (cc (h.1)));
          })
    | inr b ↦
        rw (e, lookup, b)
          (record {
            own = λ item. (λ h. absurd (cc), λ h. absurd (cc));
            nothing = (λ h. (e, b), λ h. refl);
          })
  ]
]

-- What is let through is the first eight, in the order named and each named key once, of what the keys
-- find: a key finds the item that the agent was shown under it, and one that it was not shown finds
-- nothing, unless it is the name of a property that every object inherits.
pub resolve_mentioned_items-eq :
    (keys : List String) (known : List (String × MentionedItem))
    → (resolve_mentioned_items keys known
        ≡ first max_mentioned_items (shown known (distinct_keys [] keys)))
      × (length (resolve_mentioned_items keys known) ≤ max_mentioned_items)
      × ((key : String) → IsFound known key (lookup key known))
unfolding resolve_mentioned_items
resolve_mentioned_items-eq keys known =
    let e = resolve_keys-eq known [] (distinct_keys [] keys) max_mentioned_items refl in
    (
      e,
      rw e (length-first max_mentioned_items (shown known (distinct_keys [] keys))),
      lookup-IsFound known,
    )
