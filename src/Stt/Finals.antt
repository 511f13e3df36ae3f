-- ===== src/Stt/Finals.antt =====
-- Each turn has one final transcript at most (assemblyai-stt-provider.ts).
use voice_order_backend.Base.{
  ℕ, ◌∙◌, ap, ◌&&◌, map, Option, [], List, none, arith, some, ◌++◌, ◌∷◌, ◌≡◌, true, refl, Bool, inr,
  inl, if◌then◌else◌, false, append-nil, Bool-cases, same, trim, not, if◌then◌else◌, ◌<◌, ◌≤◌,
  ==_iff, ◌==◌, sym, ◌||◌, subst,
}
use voice_order_backend.Stt.{
  Socket, Event, Out, Turn, run, step, Clocks, OpenError, attached, is_over_limit, is_turn, on_turn,
  release_lease, on_socket_error, on_socket_close, close_stream, open_failed, has_number,
  stop_begins, socket_closes, penalizes, limiter, errors, drop_socket, closes, on_final,
  flush_socket, on_error, stop_ends, open_fails, turn, on_partial,
}
use voice_order_backend.RateLimit.Limiter.{Lease, Op, RateLimits, settle, abandon}
use voice_order_backend.Base.Sort.{InOrder}

-- The turns of the finals that were delivered.
abbrev pub finals_of : List Out → List ℕ
finals_of [] = []
finals_of (on_final n text ∷ os) = n ∷ finals_of os
finals_of (limiter o ∷ os) = finals_of os
finals_of (on_partial text ∷ os) = finals_of os
finals_of (on_error ∷ os) = finals_of os
finals_of (drop_socket ∷ os) = finals_of os
finals_of (flush_socket ∷ os) = finals_of os
finals_of (penalizes n ∷ os) = finals_of os

-- It is formatted, at its end, and says something.
abbrev pub is_spoken : Turn → Bool
is_spoken t = t.end_of_turn && t.turn_is_formatted && not (same (trim t.transcript) "")

abbrev pub spoken_of : List Event → List ℕ
spoken_of [] = []
spoken_of (turn t ∷ es) = if is_spoken t then t.turn_order ∷ spoken_of es else spoken_of es
spoken_of (errors ∷ es) = spoken_of es
spoken_of (socket_closes ∷ es) = spoken_of es
spoken_of (stop_begins ∷ es) = spoken_of es
spoken_of (stop_ends ∷ es) = spoken_of es
spoken_of (closes ∷ es) = spoken_of es
spoken_of (open_fails e ∷ es) = spoken_of es

finals_of-append : (a b : List Out) → finals_of (a ++ b) ≡ finals_of a ++ finals_of b
finals_of-append [] b = refl
finals_of-append (on_final n text ∷ a) b = ap (λ l. n ∷ l) (finals_of-append a b)
finals_of-append (limiter o ∷ a) b = finals_of-append a b
finals_of-append (on_partial text ∷ a) b = finals_of-append a b
finals_of-append (on_error ∷ a) b = finals_of-append a b
finals_of-append (drop_socket ∷ a) b = finals_of-append a b
finals_of-append (flush_socket ∷ a) b = finals_of-append a b
finals_of-append (penalizes n ∷ a) b = finals_of-append a b

finals_of-limiter : (ops : List Op) → finals_of (map limiter ops) ≡ []
finals_of-limiter [] = refl
finals_of-limiter (o ∷ ops) = finals_of-limiter ops

-- A turn of the number that was just delivered is passed over.
squash : Option ℕ → List ℕ → List ℕ
squash last [] = []
squash last (n ∷ ns) =
    let rest = squash last ns in
    let more = squash (some n) ns in if is_turn last n then rest else n ∷ more

abbrev Silent : Socket → Socket × List Out → Type 0
Silent s r = (r.0.last_final_turn ≡ s.last_final_turn) × (finals_of r.1 ≡ [])

module _ (l : RateLimits) (c : Clocks) where
  released-finals :
      (s : Socket) (outs : List Out)
      → finals_of outs ≡ []
      → finals_of ((release_lease l s).1 ++ outs) ≡ []
  unfolding release_lease
  released-finals s outs e =
      finals_of-append (release_lease l s).1 outs
      ∙ ap (λ x. finals_of (release_lease l s).1 ++ x) e
      ∙ append-nil (finals_of (release_lease l s).1)
      ∙ finals_of-limiter (settle l none s.lease).1

  quiet_if : (b : Bool) → finals_of (if b then on_error ∷ [] else []) ≡ []
  quiet_if true = refl
  quiet_if false = refl

  open_failed-Silent : (e : OpenError) (s : Socket) → Silent s (open_failed l c e s)
  unfolding open_failed release_lease
  open_failed-Silent e s = elim (Bool-cases (is_over_limit e)) [
    | inl b ↦ rw b (refl, released-finals s (penalizes _ ∷ []) refl)
    | inr b ↦ rw b (refl, finals_of-limiter (abandon s.lease).1)
  ]

  -- The number that a turn leaves behind, and what it delivers.
  on_turn-spoken :
      (t : Turn) (s : Socket)
      → (is_spoken t && not (is_turn s.last_final_turn t.turn_order)) ≡ true
      → ((on_turn t s).0.last_final_turn ≡ some t.turn_order)
        × (finals_of (on_turn t s).1 ≡ t.turn_order ∷ [])
  unfolding on_turn
  on_turn-spoken t s h = ground (arith, h)

  on_turn-Silent :
      (t : Turn) (s : Socket)
      → (is_spoken t && not (is_turn s.last_final_turn t.turn_order)) ≡ false
      → Silent s (on_turn t s)
  unfolding on_turn
  on_turn-Silent t s h = ground (arith, h)

  quiet :
      (s : Socket) (r : Socket × List Out) (es : List Event)
      → Silent s r
      → finals_of (run l c es r.0).1 ≡ squash r.0.last_final_turn (spoken_of es)
      → finals_of (r.1 ++ (run l c es r.0).1) ≡ squash s.last_final_turn (spoken_of es)
  quiet s r es (p, q) ih =
      finals_of-append r.1 (run l c es r.0).1
      ∙ ap (λ x. x ++ finals_of (run l c es r.0).1) q
      ∙ ih
      ∙ ap (λ x. squash x (spoken_of es)) p

  after_turn :
      (t : Turn) (s : Socket) (es : List Event)
      → finals_of (run l c es (on_turn t s).0).1
        ≡ squash (on_turn t s).0.last_final_turn (spoken_of es)
      → finals_of ((on_turn t s).1 ++ (run l c es (on_turn t s).0).1)
        ≡ squash s.last_final_turn (spoken_of (turn t ∷ es))
  unfolding squash
  after_turn t s es ih =
      elim (Bool-cases (is_spoken t && not (is_turn s.last_final_turn t.turn_order))) [
        | inl b ↦
            let (p, q) = on_turn-spoken t s b in
            let d : is_spoken t ≡ true = ground (arith, b) in
            let u : is_turn s.last_final_turn t.turn_order ≡ false = ground (arith, b) in
            finals_of-append (on_turn t s).1 (run l c es (on_turn t s).0).1
            ∙ ap (λ x. x ++ finals_of (run l c es (on_turn t s).0).1) q
            ∙ ap (λ x. t.turn_order ∷ x) (ih ∙ ap (λ x. squash x (spoken_of es)) p)
            ∙ sym (rw (d, squash, u) refl)
        | inr b ↦
            quiet s (on_turn t s) es (on_turn-Silent t s b) ih ∙ elim (Bool-cases (is_spoken t)) [
              | inr d ↦ rw d refl
              | inl d ↦
                  let u : is_turn s.last_final_turn t.turn_order ≡ true = ground (arith, b, d) in
                  sym (rw (d, squash, u) refl)
            ]
      ]

  run-squash :
      (es : List Event) (s : Socket)
      → finals_of (run l c es s).1 ≡ squash s.last_final_turn (spoken_of es)
  unfolding run squash step on_socket_error on_socket_close close_stream release_lease
  run-squash [] s = refl
  run-squash (turn t ∷ es) s = after_turn t s es (run-squash es (on_turn t s).0)
  run-squash (errors ∷ es) s =
      quiet s (step l c errors s) es (refl, released-finals s (drop_socket ∷ on_error ∷ []) refl)
        (run-squash es (step l c errors s).0)
  run-squash (socket_closes ∷ es) s =
      quiet s (step l c socket_closes s) es
        (
          refl,
          released-finals s
              (if not s.final_delivered && not s.self_closing then on_error ∷ [] else [])
              (quiet_if (not s.final_delivered && not s.self_closing)),
        )
        (run-squash es (step l c socket_closes s).0)
  run-squash (stop_begins ∷ es) s = run-squash es (step l c stop_begins s).0
  run-squash (stop_ends ∷ es) s =
      quiet s (step l c stop_ends s) es (refl, finals_of-limiter (settle l none s.lease).1)
        (run-squash es (step l c stop_ends s).0)
  run-squash (closes ∷ es) s =
      quiet s (step l c closes s) es (refl, finals_of-limiter (settle l none s.lease).1)
        (run-squash es (step l c closes s).0)
  run-squash (open_fails e ∷ es) s =
      quiet s (open_failed l c e s) es (open_failed-Silent e s)
        (run-squash es (open_failed l c e s).0)

squash_after-InOrder :
    (m : ℕ) (ns : List ℕ) → InOrder ◌≤◌ (m ∷ ns) → InOrder ◌<◌ (m ∷ squash (some m) ns)
unfolding squash
squash_after-InOrder m [] h = tt
squash_after-InOrder m (n ∷ []) h = elim (Bool-cases (m == n)) [
  | inl b ↦ rw b tt
  | inr b ↦ rw b (ground (arith, b, h.0), tt)
]
squash_after-InOrder m (n ∷ k ∷ ns) h = elim (Bool-cases (m == n)) [
  | inl b ↦ rw b (squash_after-InOrder m (k ∷ ns) (omega (arith, h.0, h.1.0), h.1.1))
  | inr b ↦ rw b (ground (arith, b, h.0), squash_after-InOrder n (k ∷ ns) h.1)
]

squash_after-has :
    (x m : ℕ) (ns : List ℕ) → has_number x (m ∷ squash (some m) ns) ≡ has_number x (m ∷ ns)
unfolding squash has_number
squash_after-has x m [] = refl
squash_after-has x m (n ∷ ns) = elim (Bool-cases (m == n)) [
  | inl b ↦ rw b (squash_after-has x m ns ∙ ground (arith, ap (λ k. k == x) ((==_iff m n).0 b)))
  | inr b ↦ rw b (ap (λ r. (m == x) || r) (squash_after-has x n ns))
]

squash-InOrder : (ns : List ℕ) → InOrder ◌≤◌ ns → InOrder ◌<◌ (squash none ns)
unfolding squash
squash-InOrder [] h = tt
squash-InOrder (n ∷ ns) h = squash_after-InOrder n ns h

squash-has : (x : ℕ) (ns : List ℕ) → has_number x (squash none ns) ≡ has_number x ns
unfolding squash
squash-has x [] = refl
squash-has x (n ∷ ns) = squash_after-has x n ns

-- Where the numbers of the turns do not fall, whatever else happens in between: the final transcripts
-- are delivered in strictly rising order, so that a turn has one at most; and the turns that have one
-- are exactly those that came to an end, formatted and not blank.
pub run-delivers :
    (l : RateLimits) (c : Clocks) (es : List Event) (h : Lease)
    → InOrder ◌≤◌ (spoken_of es)
    → InOrder ◌<◌ (finals_of (run l c es (attached h)).1)
      × ((n : ℕ)
          → has_number n (finals_of (run l c es (attached h)).1) ≡ has_number n (spoken_of es))
run-delivers l c es h o =
    let e = run-squash l c es (attached h) in
    (
      subst (InOrder ◌<◌) (sym e) (squash-InOrder (spoken_of es) o),
      λ n. ap (has_number n) e ∙ squash-has n (spoken_of es),
    )
