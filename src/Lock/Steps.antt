-- ===== src/Lock/Steps.antt =====
-- A call that starts, settles or cleans up keeps the order of the lock (async-lock.ts).
use voice_order_backend.Lock.Growth.{Grows, Advances, Grows-IsOrdered}
use voice_order_backend.Base.{
  ℕ, get, refl, arith, inr, Bool-cases, some, ◌∙◌, true, ◌≡◌, get_elem?, inl, Option-cases, sym, ap,
  get-delete_key, ==_iff, ◌≤◌, delete_key, get_elem?-set_ne, same, get_elem?-set, some_injective,
  get-delete_key_ne, ◌&&◌, subst, set, false, ◌==◌, same→eq, get_elem?-set_self,
}
use voice_order_backend.Lock.Exclusive.{IsOrdered, earlier-settled}
use voice_order_backend.Lock.{Lock, Call, clean, start, settle, on_call}

module _ (l : Lock) (h : IsOrdered l) where
  same_call : (k : ℕ) (c : Call) → get_elem? l.calls k ≡ some c → Advances l.calls c c
  same_call k c e = record {
    key = refl;
    prev = refl;
    kept = λ s. s;
    waited = h.waited k c e;
    was_started = h.was_started k c e;
  }

  set-Grows :
      (k : ℕ) (c d : Call)
      → get_elem? l.calls k ≡ some c
      → Advances l.calls c d
      → Grows l.calls (set l.calls k d)
  set-Grows k c d e a = record {
    on = λ j w i. elim (Bool-cases (k == j)) [
      | inl b ↦
          let p : k ≡ j = (==_iff k j).0 b in
          let q : c ≡ w = some_injective (sym e ∙ ap (get_elem? l.calls) p ∙ i) in
          (
            d,
            ap (get_elem? (set l.calls k d)) (sym p) ∙ get_elem?-set_self l.calls k c d e,
            subst (λ x. Advances l.calls x d) q a,
          )
      | inr b ↦ (w, get_elem?-set_ne l.calls k j d b ∙ i, same_call j w i)
    ];
    back = λ j t i. elim (get_elem?-set l.calls k j c d t e i) [
      | inl (p, q) ↦ (c, ap (get_elem? l.calls) (sym p) ∙ e, subst (λ x. Advances l.calls c x) q a)
      | inr (b, i') ↦ (t, i', same_call j t i')
    ];
  }

  pub start-Advances :
      (k : ℕ) (c : Call) → get_elem? l.calls k ≡ some c → Advances l.calls c (start l c)
  unfolding start
  start-Advances k c e = record {
    key = refl;
    prev = refl;
    kept = λ s. s;
    waited = λ s. elim (Bool-cases c.started) [
      | inl b ↦ h.waited k c e b
      | inr b ↦ ground (arith, b, s)
    ];
    was_started = λ s. ground (arith, h.was_started k c e s);
  }

  pub settle-Advances :
      (k : ℕ) (c : Call) → get_elem? l.calls k ≡ some c → Advances l.calls c (settle c)
  unfolding settle
  settle-Advances k c e = record {
    key = refl;
    prev = refl;
    kept = λ s. ground (arith, s);
    waited = h.waited k c e;
    was_started = λ s. elim (Bool-cases c.settled) [
      | inl b ↦ h.was_started k c e b
      | inr b ↦ ground (arith, b, s)
    ];
  }

  pub on_call-IsOrdered :
      (k : ℕ) (f : Call → Call)
      → ((c : Call) → get_elem? l.calls k ≡ some c → Advances l.calls c (f c))
      → IsOrdered (on_call k f l)
  unfolding on_call
  on_call-IsOrdered k f a = elim (Option-cases (get_elem? l.calls k)) [
    | inl e ↦ rw (e, on_call) h
    | inr (c, e) ↦
        rw (e, on_call) (Grows-IsOrdered l (set l.calls k (f c)) h (set-Grows k c (f c) e (a c e)))
  ]

  -- No call that has not settled stands before one with its key that has.
  not_after :
      (k : ℕ) (c : Call) (j : ℕ) (d : Call)
      → get_elem? l.calls k ≡ some c
      → get_elem? l.calls j ≡ some d
      → c.settled ≡ true
      → d.settled ≡ false
      → d.key ≡ c.key
      → j ≤ k
      → ⊥
  not_after k c j d e i s u y r = elim (Bool-cases (j == k)) [
    | inl b ↦
        let q : d ≡ c = some_injective (sym i ∙ ap (get_elem? l.calls) ((==_iff j k).0 b) ∙ e) in
        cc (ap (λ x. x.settled) q, s, u)
    | inr b ↦ cc (
      earlier-settled l h k k j c d (omega arith) e i (ground (arith, b, r)) y
          (h.was_started k c e s),
      u,
    )
  ]

  -- The tail of a key is deleted once its last call has settled: all of its calls have then.
  dropped :
      (k : ℕ) (c : Call) (m : ℕ)
      → get_elem? l.calls k ≡ some c
      → get c.key l.tails ≡ some m
      → (m == k) ≡ true
      → c.settled ≡ true
      → IsOrdered (record l { tails = delete_key c.key l.tails })
  dropped k c m e g b s = record {
    before = h.before;
    behind = h.behind;
    waited = h.waited;
    was_started = h.was_started;
    tail = λ j d i u.
        let (n, t, o) = h.tail j d i u in
        elim (Bool-cases (same c.key d.key)) [
          | inr x ↦ (n, get-delete_key_ne c.key d.key l.tails x ∙ t, o)
          | inl x ↦
              let y : c.key ≡ d.key = same→eq c.key d.key x in
              let z : m ≡ n = some_injective (sym g ∙ ap (λ v. get v l.tails) y ∙ t) in
              let r : j ≤ k = omega (arith, z, o, (==_iff m k).0 b) in
              absurd (not_after k c j d e i s u (sym y) r)
        ];
    tail_in = λ key n t. elim (Bool-cases (same c.key key)) [
      | inr x ↦ h.tail_in key n (sym (get-delete_key_ne c.key key l.tails x) ∙ t)
      | inl x ↦
          let y : c.key ≡ key = same→eq c.key key x in
          absurd
            (cc (get-delete_key c.key l.tails, ap (λ v. get v (delete_key c.key l.tails)) y, t))
    ];
  }

  pub clean-IsOrdered : (k : ℕ) (c : Call) → get_elem? l.calls k ≡ some c → IsOrdered (clean k l c)
  unfolding clean
  clean-IsOrdered k c e = elim (Option-cases (get c.key l.tails)) [
    | inl g ↦ rw (g, clean) h
    | inr (m, g) ↦
        rw (g, clean)
          (elim (Bool-cases ((m == k) && c.settled)) [
            | inr b ↦ rw b h
            | inl b ↦ rw b (dropped k c m e g (ground (arith, b)) (ground (arith, b)))
          ])
  ]
