-- ===== src/Lock/Growth.antt =====
-- The lock stays in order while its calls go on (async-lock.ts).
use voice_order_backend.Base.{
  ℕ, get, refl, arith, Option, none, List, inr, Bool-cases, some, ◌∙◌, true, ◌≡◌, get_elem?, inl,
  Option-cases, sym, ap,
}
use voice_order_backend.Lock.Exclusive.{IsOrdered, prev_settled-call}
use voice_order_backend.Lock.{Lock, Call, prev_settled}

-- A call that a step has changed, or has left as it was.
pub record Advances (l : List Call) (c d : Call) : Type 0 where
  pub key : d.key ≡ c.key
  pub prev : d.prev ≡ c.prev
  pub kept : c.settled ≡ true → d.settled ≡ true
  pub waited : d.started ≡ true → prev_settled l c.prev ≡ true
  pub was_started : d.settled ≡ true → d.started ≡ true

-- The calls of one list are those of the other, further on.
pub record Grows (l m : List Call) : Type 0 where
  pub on :
      (j : ℕ) (c : Call)
      → get_elem? l j ≡ some c
      → (d : Call) × (get_elem? m j ≡ some d) × Advances l c d
  pub back :
      (j : ℕ) (d : Call)
      → get_elem? m j ≡ some d
      → (c : Call) × (get_elem? l j ≡ some c) × Advances l c d

pub prev_settled-some :
    (l : List Call) (p : ℕ)
    → prev_settled l (some p) ≡ true
    → (w : Call) × (get_elem? l p ≡ some w) × (w.settled ≡ true)
unfolding prev_settled
prev_settled-some l p h = elim (Option-cases (get_elem? l p)) [
  | inl e ↦ absurd (ground (arith, e, h))
  | inr (w, e) ↦ (w, e, sym (prev_settled-call l p w e) ∙ h)
]

pub Grows-prev_settled :
    (l m : List Call)
    → Grows l m
    → (p : Option ℕ) → prev_settled l p ≡ true
    → prev_settled m p ≡ true
unfolding prev_settled
Grows-prev_settled l m g none h = refl
Grows-prev_settled l m g (some p) h =
    let (w, e, s) = prev_settled-some l p h in
    let (d, i, a) = g.on p w e in prev_settled-call m p d i ∙ a.kept s

pub Grows-IsOrdered :
    (l : Lock) (m : List Call) → IsOrdered l → Grows l.calls m → IsOrdered (record l { calls = m })
Grows-IsOrdered l m h g = record {
  before = λ k j c e i q o r.
      let (c', i', a) = g.back k c i in
      let (e', q', b) = g.back j e q in
      elim (h.before k j c' e' i' q' o (sym b.key ∙ r ∙ a.key)) [
        | inl s ↦ inl (b.kept s)
        | inr (p, v, x, y, (w, z, t)) ↦
            let (w', z', u) = g.on p w z in
            inr (p, a.prev ∙ v, x, y, (w', z', u.key ∙ t ∙ sym a.key))
      ];
  behind = λ k c p i v.
      let (c', i', a) = g.back k c i in
      let (y, (w, z, t)) = h.behind k c' p i' (sym a.prev ∙ v) in
      let (w', z', u) = g.on p w z in (y, (w', z', u.key ∙ t ∙ sym a.key));
  waited = λ k c i s.
      let (c', i', a) = g.back k c i in
      ap (prev_settled m) a.prev ∙ Grows-prev_settled l.calls m g c'.prev (a.waited s);
  was_started = λ k c i s. let (c', i', a) = g.back k c i in a.was_started s;
  tail = λ k c i s.
      let (c', i', a) = g.back k c i in
      elim (Bool-cases c'.settled) [
        | inl b ↦ absurd (cc (a.kept b, s))
        | inr b ↦ let (n, t, o) = h.tail k c' i' b in (n, ap (λ x. get x l.tails) a.key ∙ t, o)
      ];
  tail_in = λ key n t.
      let (w, z, x) = h.tail_in key n t in let (w', z', u) = g.on n w z in (w', z', u.key ∙ x);
}
