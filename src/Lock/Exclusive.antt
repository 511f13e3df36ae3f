-- ===== src/Lock/Exclusive.antt =====
-- A call starts only when every earlier call with its key has settled (async-lock.ts).
use voice_order_backend.Lock.{Lock, Call, prev_settled}
use voice_order_backend.Base.{
  String, inl, arith, ◌<◌, ℕ, get_elem?, ◌∙◌, get, ==_iff, ◌⊎◌, ◌≤◌, refl, suc, Bool-cases, true,
  some_injective, zero, some, ◌==◌, ◌≡◌, ap, sym, false, List, inr,
}

-- An earlier call with the same key has settled, or is not after the call that this one waits for.
abbrev pub IsBefore : List Call → ℕ → Call → ℕ → Call → Type 0
IsBefore l k c j e =
    (e.settled ≡ true)
    ⊎ ((p : ℕ) × (c.prev ≡ some p)
        × (j ≤ p)
        × (p < k)
        × ((w : Call) × (get_elem? l p ≡ some w) × (w.key ≡ c.key)))

pub record IsOrdered (l : Lock) : Type 0 where
  pub before :
      (k j : ℕ) (c e : Call)
      → get_elem? l.calls k ≡ some c
      → get_elem? l.calls j ≡ some e
      → j < k
      → e.key ≡ c.key
      → IsBefore l.calls k c j e
  pub behind :
      (k : ℕ) (c : Call) (p : ℕ)
      → get_elem? l.calls k ≡ some c
      → c.prev ≡ some p
      → (p < k) × ((w : Call) × (get_elem? l.calls p ≡ some w) × (w.key ≡ c.key))
  pub waited :
      (k : ℕ) (c : Call)
      → get_elem? l.calls k ≡ some c
      → c.started ≡ true
      → prev_settled l.calls c.prev ≡ true
  pub was_started :
      (k : ℕ) (c : Call) → get_elem? l.calls k ≡ some c → c.settled ≡ true → c.started ≡ true
  pub tail :
      (k : ℕ) (c : Call)
      → get_elem? l.calls k ≡ some c
      → c.settled ≡ false
      → (m : ℕ) × (get c.key l.tails ≡ some m) × (k ≤ m)
  pub tail_in :
      (key : String) (m : ℕ)
      → get key l.tails ≡ some m
      → (w : Call) × (get_elem? l.calls m ≡ some w) × (w.key ≡ key)

pub prev_settled-call :
    (l : List Call) (p : ℕ) (w : Call)
    → get_elem? l p ≡ some w
    → prev_settled l (some p) ≡ w.settled
unfolding prev_settled
prev_settled-call l p w e = rw (e, prev_settled) refl

module _ (l : Lock) (h : IsOrdered l) where
  -- By induction on a bound of the number of the later call.
  pub earlier-settled :
      (n k j : ℕ) (c e : Call)
      → k ≤ n
      → get_elem? l.calls k ≡ some c
      → get_elem? l.calls j ≡ some e
      → j < k
      → e.key ≡ c.key
      → c.started ≡ true
      → e.settled ≡ true
  earlier-settled zero k j c e b i q o r s = absurd (omega (arith, b, o))
  earlier-settled (suc n) k j c e b i q o r s = elim (h.before k j c e i q o r) [
    | inl d ↦ d
    | inr (p, v, a, x, (w, y, z)) ↦
        let d : w.settled ≡ true =
          sym (prev_settled-call l.calls p w y)
          ∙ ap (prev_settled l.calls) (sym v)
          ∙ h.waited k c i s in
        elim (Bool-cases (j == p)) [
          | inl g ↦
              let t : w ≡ e =
                some_injective (sym y ∙ ap (get_elem? l.calls) (sym ((==_iff j p).0 g)) ∙ q) in
              ap (λ u. u.settled) (sym t) ∙ d
          | inr g ↦
              earlier-settled n p j w e (omega (arith, b, x)) y q (ground (arith, a, g)) (r ∙ sym z)
                (h.was_started p w y d)
        ]
  ]
