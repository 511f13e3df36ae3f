-- ===== src/Lock/Fifo.antt =====
-- A call may start exactly when the calls of its key before it have settled (async-lock.ts).
use voice_order_backend.Lock.Joining.{run_call-IsOrdered}
use voice_order_backend.Lock.Steps.{
  start-Advances, settle-Advances, on_call-IsOrdered, clean-IsOrdered,
}
use voice_order_backend.Base.{
  true, Bool-cases, get_elem?, get, ◌<◌, ==_iff, Option, none, ap, some_injective, ◌==◌, sym, ◌∙◌,
  ℕ, ◌∷◌, refl, some, inl, [], List, arith, Option-cases, inr, ◌≡◌, ◌↔◌,
}
use voice_order_backend.Lock.Exclusive.{IsOrdered, earlier-settled, prev_settled-call}
use voice_order_backend.Lock.{
  Lock, Call, prev_settled, step, run, Event, empty_lock, settles, clean_call, settle, start,
  cleans, runs, starts,
}

step-IsOrdered : (e : Event) (l : Lock) → IsOrdered l → IsOrdered (step e l)
unfolding step clean_call
step-IsOrdered (runs key) l h = run_call-IsOrdered key l h
step-IsOrdered (starts k) l h = on_call-IsOrdered l h k (start l) (start-Advances l h k)
step-IsOrdered (settles k) l h = on_call-IsOrdered l h k settle (settle-Advances l h k)
step-IsOrdered (cleans k) l h = elim (Option-cases (get_elem? l.calls k)) [
  | inl e ↦ rw (e, clean_call) h
  | inr (c, e) ↦ rw (e, clean_call) (clean-IsOrdered l h k c e)
]

run-IsOrdered : (es : List Event) (l : Lock) → IsOrdered l → IsOrdered (run es l)
unfolding run
run-IsOrdered [] l h = h
run-IsOrdered (e ∷ es) l h = run-IsOrdered es (step e l) (step-IsOrdered e l h)

empty_lock-IsOrdered : IsOrdered empty_lock
unfolding get
empty_lock-IsOrdered = record {
  before = λ k j c e i. absurd (cc i);
  behind = λ k c p i. absurd (cc i);
  waited = λ k c i. absurd (cc i);
  was_started = λ k c i. absurd (cc i);
  tail = λ k c i. absurd (cc i);
  tail_in = λ key m t. absurd (cc t);
}

-- Every call before this one that has its key has settled.
abbrev pub EarlierSettled : List Call → ℕ → Call → Type 0
EarlierSettled l k c =
    (j : ℕ) (e : Call) → get_elem? l j ≡ some e → j < k → e.key ≡ c.key → e.settled ≡ true

may_start :
    (l : Lock) (k : ℕ) (c : Call)
    → IsOrdered l
    → get_elem? l.calls k ≡ some c
    → EarlierSettled l.calls k c
    → (p : Option ℕ) → c.prev ≡ p
    → prev_settled l.calls p ≡ true
unfolding prev_settled
may_start l k c h i s none v = refl
may_start l k c h i s (some p) v =
    let (y, (w, z, t)) = h.behind k c p i v in prev_settled-call l.calls p w z ∙ s p w z y t

-- A call that is let start only once the one it waits for has settled is after all of its key.
waits_for_all :
    (l : Lock) (k : ℕ) (c : Call)
    → IsOrdered l
    → get_elem? l.calls k ≡ some c
    → prev_settled l.calls c.prev ≡ true
    → EarlierSettled l.calls k c
waits_for_all l k c h i s j e q o r = elim (h.before k j c e i q o r) [
  | inl d ↦ d
  | inr (p, v, x, y, (w, z, t)) ↦
      let d : w.settled ≡ true =
        sym (prev_settled-call l.calls p w z) ∙ ap (prev_settled l.calls) (sym v) ∙ s in
      elim (Bool-cases (j == p)) [
        | inl b ↦
            let u : w ≡ e =
              some_injective (sym z ∙ ap (get_elem? l.calls) (sym ((==_iff j p).0 b)) ∙ q) in
            ap (λ n. n.settled) (sym u) ∙ d
        | inr b ↦
            earlier-settled l h p p j w e (omega arith) z q (ground (arith, x, b)) (r ∙ sym t)
              (h.was_started p w z d)
      ]
]

-- Whatever calls are made, and in whatever order they start, settle and clean up: the function of a
-- call has started, or is started when its turn is given, exactly when every earlier call with its
-- key has settled. So no two functions of a key run at once, calls of a key run in the order of
-- arrival, and none waits for a call of another key.
pub run-empty_lock-Fifo :
    (es : List Event) (k : ℕ) (c : Call)
    → get_elem? (run es empty_lock).calls k ≡ some c
    → ((start (run es empty_lock) c).started ≡ true) ↔ EarlierSettled (run es empty_lock).calls k c
unfolding start
run-empty_lock-Fifo es k c i =
    let l = run es empty_lock in
    let h = run-IsOrdered es empty_lock empty_lock-IsOrdered in
    (
      λ s. elim (Bool-cases c.started) [
        | inl b ↦ λ j e q o r. earlier-settled l h k k j c e (omega arith) i q o r b
        | inr b ↦ waits_for_all l k c h i (ground (arith, b, s))
      ],
      λ s. ground (arith, may_start l k c h i s c.prev refl),
    )
