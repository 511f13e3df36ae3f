-- ===== src/Stt/Sessions.antt =====
-- The reservation of a session is given back once, however it ends (assemblyai-stt-provider.ts).
use voice_order_backend.Base.{
  ◌++◌, sym, ◌∙◌, refl, ap, none, map, Bool-cases, subst, ◌≡◌, if◌then◌else◌, false, append-nil,
  inl, true, inr, ◌&&◌, append_assoc, Bool, [], not, arith, List, ◌∷◌, if◌then◌else◌,
}
use voice_order_backend.Stt.{
  Socket, Event, Out, run, step, Clocks, OpenError, attached, is_over_limit, on_turn, release_lease,
  on_socket_error, on_socket_close, close_stream, open_failed, penalizes, turn, on_error, limiter,
  drop_socket, on_final, on_partial, open_fails, flush_socket, Turn, stop_ends, closes,
  socket_closes, errors, stop_begins,
}
use voice_order_backend.RateLimit.Limiter.{
  Lease, Op, RateLimits, Stages, Acquired, Close, settle, abandon, close_all, acquire, granted,
  rejected, settles, abandons, close,
}
use voice_order_backend.RateLimit.Limiter.Balance.{IsAccounted, IsEven, IsClosedBy, total}
use voice_order_backend.RateLimit.Limiter.Accounts.{acquire-IsAccounted}

-- What a session does to the limiter.
abbrev pub ops_of : List Out → List Op
ops_of [] = []
ops_of (limiter o ∷ os) = o ∷ ops_of os
ops_of (on_partial text ∷ os) = ops_of os
ops_of (on_final n text ∷ os) = ops_of os
ops_of (on_error ∷ os) = ops_of os
ops_of (drop_socket ∷ os) = ops_of os
ops_of (flush_socket ∷ os) = ops_of os
ops_of (penalizes n ∷ os) = ops_of os

-- How an event closes the lease: an open that fails for another reason than the quota gives all back.
abbrev pub close_of : Event → List Close
close_of (turn t) = []
close_of errors = settles none ∷ []
close_of socket_closes = settles none ∷ []
close_of stop_begins = []
close_of stop_ends = settles none ∷ []
close_of closes = settles none ∷ []
close_of (open_fails e) = if is_over_limit e then settles none ∷ [] else abandons ∷ []

abbrev pub closes_of : List Event → List Close
closes_of [] = []
closes_of (e ∷ es) = close_of e ++ closes_of es

ops_of-append : (a b : List Out) → ops_of (a ++ b) ≡ ops_of a ++ ops_of b
ops_of-append [] b = refl
ops_of-append (limiter o ∷ a) b = ap (λ l. o ∷ l) (ops_of-append a b)
ops_of-append (on_partial text ∷ a) b = ops_of-append a b
ops_of-append (on_final n text ∷ a) b = ops_of-append a b
ops_of-append (on_error ∷ a) b = ops_of-append a b
ops_of-append (drop_socket ∷ a) b = ops_of-append a b
ops_of-append (flush_socket ∷ a) b = ops_of-append a b
ops_of-append (penalizes n ∷ a) b = ops_of-append a b

ops_of-limiter : (ops : List Op) → ops_of (map limiter ops) ≡ ops
ops_of-limiter [] = refl
ops_of-limiter (o ∷ ops) = ap (λ l. o ∷ l) (ops_of-limiter ops)

-- A step closes the lease as said, and does nothing else to the limiter.
abbrev Closes : RateLimits → List Close → Socket → Socket × List Out → Type 0
Closes l cs s r =
    (r.0.lease ≡ (close_all l cs s.lease).0) × (ops_of r.1 ≡ (close_all l cs s.lease).1)

close_all-append :
    (l : RateLimits) (as' bs : List Close) (h : Lease)
    → ((close_all l (as' ++ bs) h).0 ≡ (close_all l bs (close_all l as' h).0).0)
      × ((close_all l (as' ++ bs) h).1
          ≡ (close_all l as' h).1 ++ (close_all l bs (close_all l as' h).0).1)
unfolding close_all
close_all-append l [] bs h = (refl, refl)
close_all-append l (a ∷ as') bs h =
    let (p, q) = close_all-append l as' bs (close l a h).0 in
    (
      p,
      ap (λ x. (close l a h).1 ++ x) q
          ∙ sym (
              append_assoc (close l a h).1 (close_all l as' (close l a h).0).1
                (close_all l bs (close_all l as' (close l a h).0).0).1),
    )

module _ (l : RateLimits) (c : Clocks) where
  release_lease-Closes : (s : Socket) → Closes l (settles none ∷ []) s (release_lease l s)
  unfolding release_lease close_all close
  release_lease-Closes s =
      (refl, ops_of-limiter (settle l none s.lease).1 ∙ sym (append-nil (settle l none s.lease).1))

  -- More calls of the handlers and of the socket after it.
  released-Closes :
      (s : Socket) (outs : List Out)
      → ops_of outs ≡ []
      → ops_of ((release_lease l s).1 ++ outs) ≡ (close_all l (settles none ∷ []) s.lease).1
  released-Closes s outs e =
      ops_of-append (release_lease l s).1 outs
      ∙ ap (λ x. ops_of (release_lease l s).1 ++ x) e
      ∙ append-nil (ops_of (release_lease l s).1)
      ∙ (release_lease-Closes s).1

  error_if : (b : Bool) → ops_of (if b then on_error ∷ [] else []) ≡ []
  error_if true = refl
  error_if false = refl

  on_turn-Closes : (t : Turn) (s : Socket) → Closes l [] s (on_turn t s)
  unfolding on_turn close_all
  on_turn-Closes t s = ground arith

  open_failed-Closes :
      (e : OpenError) (s : Socket) → Closes l (close_of (open_fails e)) s (open_failed l c e s)
  unfolding open_failed close_all close
  open_failed-Closes e s = elim (Bool-cases (is_over_limit e)) [
    | inl b ↦ rw b ((release_lease-Closes s).0, released-Closes s (penalizes _ ∷ []) refl)
    | inr b ↦ rw b (refl, ops_of-limiter (abandon s.lease).1 ∙ sym (append-nil (abandon s.lease).1))
  ]

  step-Closes : (e : Event) (s : Socket) → Closes l (close_of e) s (step l c e s)
  unfolding step on_socket_error on_socket_close close_stream close_all
  step-Closes (turn t) s = on_turn-Closes t s
  step-Closes errors s =
      ((release_lease-Closes s).0, released-Closes s (drop_socket ∷ on_error ∷ []) refl)
  step-Closes socket_closes s = (
    (release_lease-Closes s).0,
    released-Closes s (if not s.final_delivered && not s.self_closing then on_error ∷ [] else [])
        (error_if (not s.final_delivered && not s.self_closing)),
  )
  step-Closes stop_begins s = (refl, refl)
  step-Closes stop_ends s = release_lease-Closes s
  step-Closes closes s = release_lease-Closes s
  step-Closes (open_fails e) s = open_failed-Closes e s

  run-Closes : (es : List Event) (s : Socket) → Closes l (closes_of es) s (run l c es s)
  unfolding run close_all
  run-Closes [] s = (refl, refl)
  run-Closes (e ∷ es) s =
      let (p, q) = step-Closes e s in
      let (p', q') = run-Closes es (step l c e s).0 in
      let (a, b) = close_all-append l (close_of e) (closes_of es) s.lease in
      let h = (step l c e s).0.lease in
      (
        p' ∙ ap (λ x. (close_all l (closes_of es) x).0) p ∙ sym a,
        ops_of-append (step l c e s).1 (run l c es (step l c e s).0).1
            ∙ ap (λ x. x ++ ops_of (run l c es (step l c e s).0).1) q
            ∙ ap (λ x. (close_all l (close_of e) s.lease).1 ++ x)
                (q' ∙ ap (λ x. (close_all l (closes_of es) x).1) p)
            ∙ sym b,
      )

-- The acquire of a session, and all that happens to it.
abbrev pub IsSessionAccounted : RateLimits → Clocks → List Event → List Op × Acquired → Type 0
IsSessionAccounted l c es (ops, rejected reason) = IsEven (total ops)
IsSessionAccounted l c es (ops, granted h) =
    IsClosedBy l h.reserved (closes_of es) (total (ops ++ ops_of (run l c es (attached h)).1))

accounted :
    (l : RateLimits) (c : Clocks) (es : List Event) (a : List Op × Acquired)
    → IsAccounted l (closes_of es) a
    → IsSessionAccounted l c es a
accounted l c es (ops, rejected reason) k = k
accounted l c es (ops, granted h) k =
    subst (λ x. IsClosedBy l h.reserved (closes_of es) (total (ops ++ x)))
      (sym (run-Closes l c es (attached h)).1) k

-- Whatever the socket fires and the session's methods are called in whatever order, and however often:
-- the reservation is settled or given back by the first of them that ends the session, and the later
-- ones change nothing. An end gives the permit back and leaves the session counted; an open that fails
-- for another reason than the quota gives everything back. Until then nothing is given back, and a
-- session that the limiter refuses leaves the quota as it was.
pub run-IsSessionAccounted :
    (l : RateLimits) (c : Clocks) (o : Stages) (es : List Event)
    → IsSessionAccounted l c es (acquire l 0 o)
run-IsSessionAccounted l c o es =
    accounted l c es (acquire l 0 o) (acquire-IsAccounted l (closes_of es) o 0)
