-- ===== src/Lock/Joining.antt =====
-- A new call keeps the order of the lock (`run` of async-lock.ts).
use voice_order_backend.Lock.Growth.{prev_settled-some}
use voice_order_backend.Base.{
  ℕ, get, refl, arith, Option, none, List, inr, Bool-cases, some, ◌∙◌, true, ◌≡◌, get_elem?, inl,
  sym, ap, ◌≤◌, same, some_injective, subst, false, same→eq, get_elem?-append_new, get-put_ne, ◌<◌,
  put, get_elem?-append, get_elem?-append_old, ◌++◌, length, get-put_self, get_elem?-lt,
  length-append, String, [], ◌∷◌,
}
use voice_order_backend.Lock.Exclusive.{IsOrdered, prev_settled-call, IsBefore}
use voice_order_backend.Lock.{Lock, Call, prev_settled, run_call}

-- A new call stands behind the tail of its key, and is the tail.
module _ (key : String) (l : Lock) (h : IsOrdered l) where
  abbrev new_call : Call
  new_call = record { key = key; prev = get key l.tails; started = false; settled = false }

  abbrev longer : List Call
  longer = l.calls ++ new_call ∷ []

  longer-prev_settled :
      (p : Option ℕ) → prev_settled l.calls p ≡ true → prev_settled longer p ≡ true
  unfolding prev_settled
  longer-prev_settled none e = refl
  longer-prev_settled (some p) e =
      let (w, i, s) = prev_settled-some l.calls p e in
      prev_settled-call longer p w (get_elem?-append_old l.calls new_call p w i) ∙ s

  -- The tail of the key is a call before the new one.
  tail_before :
      (p : ℕ)
      → get key l.tails ≡ some p
      → (p < length l.calls) × ((w : Call) × (get_elem? longer p ≡ some w) × (w.key ≡ key))
  tail_before p g =
      let (w, i, r) = h.tail_in key p g in
      (get_elem?-lt l.calls p w i, (w, get_elem?-append_old l.calls new_call p w i, r))

  new-IsBefore :
      (j : ℕ) (e : Call)
      → get_elem? l.calls j ≡ some e
      → e.key ≡ key
      → IsBefore longer (length l.calls) new_call j e
  new-IsBefore j e q r = elim (Bool-cases e.settled) [
    | inl s ↦ inl s
    | inr s ↦
        let (m, t, o) = h.tail j e q s in
        let g : get key l.tails ≡ some m = ap (λ x. get x l.tails) (sym r) ∙ t in
        let (b, w) = tail_before m g in inr (m, g, o, b, w)
  ]

  longer-IsBefore :
      (k j : ℕ) (c e : Call)
      → get_elem? longer k ≡ some c
      → get_elem? longer j ≡ some e
      → j < k
      → e.key ≡ c.key
      → IsBefore longer k c j e
  longer-IsBefore k j c e i q o r = elim (get_elem?-append l.calls new_call j e q) [
    | inr (y, z) ↦
        absurd
          (omega (arith, o, y, get_elem?-lt longer k c i, length-append l.calls (new_call ∷ [])))
    | inl q' ↦ elim (get_elem?-append l.calls new_call k c i) [
      | inr (y, z) ↦
          subst (λ n. IsBefore longer n c j e) (sym y)
            (subst (λ d. IsBefore longer (length l.calls) d j e) (sym z)
              (new-IsBefore j e q' (r ∙ ap (λ d. d.key) z)))
      | inl i' ↦ elim (h.before k j c e i' q' o r) [
        | inl s ↦ inl s
        | inr (p, v, x, y, (w, z, t)) ↦
            inr (p, v, x, y, (w, get_elem?-append_old l.calls new_call p w z, t))
      ]
    ]
  ]

  longer-behind :
      (k : ℕ) (c : Call) (p : ℕ)
      → get_elem? longer k ≡ some c
      → c.prev ≡ some p
      → (p < k) × ((w : Call) × (get_elem? longer p ≡ some w) × (w.key ≡ c.key))
  longer-behind k c p i v = elim (get_elem?-append l.calls new_call k c i) [
    | inl i' ↦
        let (y, (w, z, t)) = h.behind k c p i' v in
        (y, (w, get_elem?-append_old l.calls new_call p w z, t))
    | inr (y, z) ↦
        let (b, (w, x, t)) = tail_before p (sym (ap (λ d. d.prev) z) ∙ v) in
        (omega (arith, y, b), (w, x, t ∙ sym (ap (λ d. d.key) z)))
  ]

  longer-tail :
      (k : ℕ) (c : Call)
      → get_elem? longer k ≡ some c
      → c.settled ≡ false
      → (m : ℕ) × (get c.key (put key (length l.calls) l.tails) ≡ some m) × (k ≤ m)
  longer-tail k c i s = elim (get_elem?-append l.calls new_call k c i) [
    | inr (y, z) ↦ (
      length l.calls,
      ap (λ d. get d.key (put key (length l.calls) l.tails)) z
          ∙ get-put_self key (length l.calls) l.tails,
      omega (arith, y),
    )
    | inl i' ↦ elim (Bool-cases (same key c.key)) [
      | inl x ↦ (
        length l.calls,
        ap (λ v. get v (put key (length l.calls) l.tails)) (sym (same→eq key c.key x))
            ∙ get-put_self key (length l.calls) l.tails,
        omega (arith, get_elem?-lt l.calls k c i'),
      )
      | inr x ↦
          let (m, t, o) = h.tail k c i' s in
          (m, get-put_ne key c.key (length l.calls) l.tails x ∙ t, o)
    ]
  ]

  longer-tail_in :
      (other : String) (m : ℕ)
      → get other (put key (length l.calls) l.tails) ≡ some m
      → (w : Call) × (get_elem? longer m ≡ some w) × (w.key ≡ other)
  longer-tail_in other m t = elim (Bool-cases (same key other)) [
    | inl x ↦
        let y : key ≡ other = same→eq key other x in
        let z : length l.calls ≡ m = some_injective (
          sym (get-put_self key (length l.calls) l.tails)
          ∙ ap (λ v. get v (put key (length l.calls) l.tails)) y
          ∙ t) in
        (new_call, ap (get_elem? longer) (sym z) ∙ get_elem?-append_new l.calls new_call, y)
    | inr x ↦
        let (w, i, r) =
          h.tail_in other m (sym (get-put_ne key other (length l.calls) l.tails x) ∙ t) in
        (w, get_elem?-append_old l.calls new_call m w i, r)
  ]

  pub run_call-IsOrdered : IsOrdered (run_call key l)
  unfolding run_call
  run_call-IsOrdered = record {
    before = longer-IsBefore;
    behind = longer-behind;
    waited = λ k c i s. elim (get_elem?-append l.calls new_call k c i) [
      | inl i' ↦ longer-prev_settled c.prev (h.waited k c i' s)
      | inr (y, z) ↦ absurd (cc (ap (λ d. d.started) z, s))
    ];
    was_started = λ k c i s. elim (get_elem?-append l.calls new_call k c i) [
      | inl i' ↦ h.was_started k c i' s
      | inr (y, z) ↦ absurd (cc (ap (λ d. d.settled) z, s))
    ];
    tail = longer-tail;
    tail_in = longer-tail_in;
  }
