-- ===== src/Tts/Service/Reach.antt =====
-- Every step keeps the map of streams right (tts-service.ts).
use voice_order_backend.Tts.Segments.{segment_text}
use voice_order_backend.Tts.Service.Live.{
  delete-IsValid, none-IsFree, IsValid, write-IsFree, append-IsValid,
}
use voice_order_backend.Tts.Service.{
  abort_stream, speak, idle, abort_current, cancel, drop_handle, begin, Service, on_stream, leave,
  Stream, empty_service, Frame, makes, step, cancels, speaks, not_made, when_waiting, run, fails,
  made, Event, next_seq, next_segment, chunk_of,
}
use voice_order_backend.Base.{
  ◌∙◌, get_elem?-set_ne, refl, get_elem?-set_self, Option-cases, ap, sym, String, arith, Bool-cases,
  List, get, ◌≡◌, some, ℕ, inl, set, ==_iff, true, inr, get_elem?-set, ◌==◌, List-cases, get_elem?,
  some_injective, [], ◌∷◌, false, if◌then◌else◌, Bool,
}

on_stream-some :
    (k : ℕ) (f : Stream → Stream) (v : Service) (s : Stream)
    → get_elem? v.streams k ≡ some s
    → on_stream k f v ≡ record v { streams = set v.streams k (f s) }
unfolding on_stream
on_stream-some k f v s e = rw (e, on_stream) refl

speak-IsValid :
    (session_id request_id : String) (t : List ℕ) (v : Service)
    → IsValid v
    → IsValid (speak session_id request_id t v).0
unfolding speak begin abort_current abort_stream
speak-IsValid session_id request_id t v h = elim (List-cases (segment_text t)) [
  | inl e ↦ rw (e, speak) h
  | inr (segment, rest, e) ↦
      rw (e, speak)
        (elim (Option-cases (get session_id v.inflight)) [
          | inl g ↦
              rw (g, abort_current)
                (append-IsValid session_id v.streams v.inflight (none-IsFree v h session_id g) _
                  refl refl refl)
          | inr (k, g) ↦
              let p = h.held session_id k g in
              rw (g, abort_current, on_stream-some k abort_stream v p.stream p.there)
                (append-IsValid session_id (set v.streams k (abort_stream p.stream)) v.inflight
                  (write-IsFree v h session_id k p.stream (abort_stream p.stream) g p.there
                    (ground arith))
                  _ refl refl refl)
        ])
]

cancel-IsValid : (session_id : String) (v : Service) → IsValid v → IsValid (cancel session_id v)
unfolding cancel abort_stream
cancel-IsValid session_id v h = elim (Option-cases (get session_id v.inflight)) [
  | inl g ↦ rw (g, cancel) h
  | inr (k, g) ↦
      let p = h.held session_id k g in
      rw (g, cancel, on_stream-some k abort_stream v p.stream p.there)
        (delete-IsValid session_id (set v.streams k (abort_stream p.stream)) v.inflight
          (write-IsFree v h session_id k p.stream (abort_stream p.stream) g p.there (ground arith)))
]

module _ (k : ℕ) (s : Stream) (v : Service) (e : get_elem? v.streams k ≡ some s)
    (w : s.waiting ≡ true) (h : IsValid v) where
  -- A stream that was aborted goes idle.
  aborted-idle : s.aborted ≡ true → IsValid (record v { streams = set v.streams k (idle s) })
  unfolding idle
  aborted-idle a = record {
    live = λ j t i u b. elim (get_elem?-set v.streams k j s (idle s) t e i) [
      | inl (p, q) ↦ ground (arith, ap (λ x. x.waiting) q, u)
      | inr (c, i') ↦ h.live j t i' u b
    ];
    held = λ other j g.
        let p = h.held other j g in
        elim (Bool-cases (k == j)) [
          | inl c ↦
              let r : s ≡ p.stream =
                some_injective (sym e ∙ ap (get_elem? v.streams) ((==_iff k j).0 c) ∙ p.there) in
              ground (arith, ap (λ x. x.aborted) r, a, p.unaborted)
          | inr c ↦ record {
            stream = p.stream;
            there = get_elem?-set_ne v.streams k j (idle s) c ∙ p.there;
            ours = p.ours;
            going = p.going;
            unaborted = p.unaborted;
          }
        ];
  }

  -- An aborted stream is in the map no more.
  others_handle :
      (j : ℕ) → s.aborted ≡ true → get s.session_id v.inflight ≡ some j → (j == k) ≡ false
  others_handle j a g = elim (Bool-cases (j == k)) [
    | inr b ↦ b
    | inl b ↦
        let p = h.held s.session_id j g in
        let r : p.stream ≡ s =
          some_injective (sym p.there ∙ ap (get_elem? v.streams) ((==_iff j k).0 b) ∙ e) in
        ground (arith, ap (λ x. x.aborted) r, a, p.unaborted)
  ]

  leave-IsValid : IsValid (leave k s v)
  unfolding leave drop_handle idle
  leave-IsValid = elim (Bool-cases s.aborted) [
    | inr a ↦
        let g = h.live k s e w a in
        rw (on_stream-some k idle v s e, g, drop_handle, (==_iff k k).1 refl)
          (rw (on_stream-some k idle v s e) (
            delete-IsValid s.session_id (set v.streams k (idle s)) v.inflight
              (write-IsFree v h s.session_id k s (idle s) g e (ground arith))))
    | inl a ↦ elim (Option-cases (get s.session_id v.inflight)) [
      | inl g ↦
          rw (on_stream-some k idle v s e, g, drop_handle)
            (rw (on_stream-some k idle v s e) (aborted-idle a))
      | inr (j, g) ↦
          rw (on_stream-some k idle v s e, g, drop_handle, others_handle j a g)
            (rw (on_stream-some k idle v s e) (aborted-idle a))
    ]
  ]

  -- A stream goes on with its next segment.
  next-IsValid :
      (f : Stream → Stream)
      → ((f s).session_id ≡ s.session_id)
      → ((f s).waiting ≡ s.waiting)
      → ((f s).aborted ≡ s.aborted)
      → IsValid (on_stream k f v)
  next-IsValid f p q r = rw (on_stream-some k f v s e) (record {
    live = λ j t i u b. elim (get_elem?-set v.streams k j s (f s) t e i) [
      | inl (c, d) ↦
          rw⁻¹ (c, d) (rw p (h.live k s e w (ground (arith, r, ap (λ x. x.aborted) d, b))))
      | inr (c, i') ↦ h.live j t i' u b
    ];
    held = λ other j g.
        let z = h.held other j g in
        elim (Bool-cases (k == j)) [
          | inl c ↦
              let l : k ≡ j = (==_iff k j).0 c in
              let o : s ≡ z.stream =
                some_injective (sym e ∙ ap (get_elem? v.streams) l ∙ z.there) in
              record {
                stream = f s;
                there = rw⁻¹ l (get_elem?-set_self v.streams k s (f s) e);
                ours = p ∙ ap (λ x. x.session_id) o ∙ z.ours;
                going = q ∙ w;
                unaborted = r ∙ ap (λ x. x.aborted) o ∙ z.unaborted;
              }
          | inr c ↦ record {
            stream = z.stream;
            there = get_elem?-set_ne v.streams k j (f s) c ∙ z.there;
            ours = z.ours;
            going = z.going;
            unaborted = z.unaborted;
          }
        ];
  })

  next_segment-IsValid :
      (audio : String) (rest : List (List ℕ)) → IsValid (next_segment k s audio rest v).0
  unfolding next_segment
  next_segment-IsValid audio [] = leave-IsValid
  next_segment-IsValid audio (segment ∷ rest) =
      next-IsValid (λ x. record x { rest = rest; seq = next_seq s audio }) refl refl refl

  made-IsValid : (audio : String) → IsValid (made k s audio v).0
  unfolding made leave next_segment chunk_of next_seq
  made-IsValid audio = elim (Bool-cases s.aborted) [
    | inl a ↦ rw (a, made) leave-IsValid
    | inr a ↦ rw (a, made) (next_segment-IsValid audio s.rest)
  ]

  not_made-IsValid : (message : String) → IsValid (not_made k s message v).0
  unfolding not_made
  not_made-IsValid message = leave-IsValid

if-IsValid :
    (b : Bool) (x y : Service × List Frame)
    → (b ≡ true → IsValid x.0)
    → IsValid y.0
    → IsValid (if b then x else y).0
if-IsValid true x y h i = h refl
if-IsValid false x y h i = i

when_waiting-IsValid :
    (k : ℕ) (f : Stream → Service → Service × List Frame) (v : Service)
    → IsValid v
    → ((s : Stream) → get_elem? v.streams k ≡ some s → s.waiting ≡ true → IsValid (f s v).0)
    → IsValid (when_waiting k f v).0
unfolding when_waiting
when_waiting-IsValid k f v h g = elim (Option-cases (get_elem? v.streams k)) [
  | inl e ↦ rw (e, when_waiting) h
  | inr (s, e) ↦ rw (e, when_waiting) (if-IsValid s.waiting (f s v) (v, []) (g s e) h)
]

pub step-IsValid_service : (e : Event) (v : Service) → IsValid v → IsValid (step e v).0
unfolding step
step-IsValid_service (speaks session_id request_id t) v h =
    speak-IsValid session_id request_id t v h
step-IsValid_service (makes k audio) v h =
    when_waiting-IsValid k (λ s. made k s audio) v h (λ s e w. made-IsValid k s v e w h audio)
step-IsValid_service (fails k message) v h =
    when_waiting-IsValid k (λ s. not_made k s message) v h
      (λ s e w. not_made-IsValid k s v e w h message)
step-IsValid_service (cancels session_id) v h = cancel-IsValid session_id v h

empty_service-IsValid : IsValid empty_service
unfolding get
empty_service-IsValid = record {
  live = λ k s e w a. absurd (cc);
  held = λ i k e. ground (arith, e);
}

run-IsValid_service : (es : List Event) (v : Service) → IsValid v → IsValid (run es v).0
unfolding run
run-IsValid_service [] v h = h
run-IsValid_service (e ∷ es) v h = run-IsValid_service es (step e v).0 (step-IsValid_service e v h)

-- In every state that a run reaches, the map of a session has a stream exactly if that stream is still
-- being made and has not been aborted. So at most one stream of a session may still send, and no handle
-- of a stream that has ended stays behind.
pub run-empty_service-IsValid : (es : List Event) → IsValid (run es empty_service).0
run-empty_service-IsValid es = run-IsValid_service es empty_service empty_service-IsValid
