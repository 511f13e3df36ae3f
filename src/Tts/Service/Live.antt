-- ===== src/Tts/Service/Live.antt =====
-- The map has the one stream of a session that may still send (tts-service.ts).
use voice_order_backend.Tts.Service.{Service, Stream}
use voice_order_backend.Base.{
  same, set, Bool-cases, put, none, String, inr, some_injective, arith, get_elem?-set, same→eq,
  length, not, false, get, List, inl, ◌∷◌, ℕ, ap, ◌++◌, true, ◌&&◌, get_elem?-append,
  get-delete_key, ==_iff, ◌≡◌, get-put_self, [], get-put_ne, get-delete_key_ne, get_elem?, some,
  ◌∙◌, sym, delete_key, get_elem?-append_new, eq→same, get_elem?-set_ne, get_elem?-append_old, ◌==◌,
}

-- This stream is being made, for this session, and has not been aborted.
pub record Speaks (session_id : String) (k : ℕ) (l : List Stream) : Type 0 where
  pub stream : Stream
  pub there : get_elem? l k ≡ some stream
  pub ours : stream.session_id ≡ session_id
  pub going : stream.waiting ≡ true
  pub unaborted : stream.aborted ≡ false

pub record IsValid (v : Service) : Type 0 where
  pub live :
      (k : ℕ) (s : Stream)
      → get_elem? v.streams k ≡ some s
      → s.waiting ≡ true
      → s.aborted ≡ false
      → get s.session_id v.inflight ≡ some k
  pub held :
      (session_id : String) (k : ℕ)
      → get session_id v.inflight ≡ some k
      → Speaks session_id k v.streams

-- No stream of this session may send, and every other session is as it should be.
pub record IsFree (session_id : String) (l : List Stream) (m : List (String × ℕ)) : Type 0 where
  pub live :
      (k : ℕ) (s : Stream)
      → get_elem? l k ≡ some s
      → s.waiting ≡ true
      → s.aborted ≡ false
      → (same session_id s.session_id ≡ false) × (get s.session_id m ≡ some k)
  pub held :
      (other : String) (k : ℕ)
      → same session_id other ≡ false
      → get other m ≡ some k
      → Speaks other k l

module _ (v : Service) (h : IsValid v) (session_id : String) where
  pub none-IsFree : get session_id v.inflight ≡ none → IsFree session_id v.streams v.inflight
  none-IsFree g = record {
    live = λ k s e w a. elim (Bool-cases (same session_id s.session_id)) [
      | inl c ↦ ground (
        arith,
        g,
        ap (λ x. get x v.inflight) (same→eq session_id s.session_id c),
        h.live k s e w a,
      )
      | inr c ↦ (c, h.live k s e w a)
    ];
    held = λ other k c e. h.held other k e;
  }

  -- Two sessions have two streams.
  apart :
      (k j : ℕ) (s : Stream) (other : String)
      → get session_id v.inflight ≡ some k
      → get_elem? v.streams k ≡ some s
      → same session_id other ≡ false
      → Speaks other j v.streams
      → (k == j) ≡ false
  apart k j s other g e c p = elim (Bool-cases (k == j)) [
    | inr b ↦ b
    | inl b ↦
        let q = h.held session_id k g in
        let i : k ≡ j = (==_iff k j).0 b in
        let r : q.stream ≡ p.stream =
          some_injective (sym q.there ∙ ap (get_elem? v.streams) i ∙ p.there) in
        ground (arith, c, eq→same session_id other (sym q.ours ∙ ap (λ x. x.session_id) r ∙ p.ours))
  ]

  -- The session's stream is stopped.
  pub write-IsFree :
      (k : ℕ) (s t : Stream)
      → get session_id v.inflight ≡ some k
      → get_elem? v.streams k ≡ some s
      → (t.waiting && not t.aborted) ≡ false
      → IsFree session_id (set v.streams k t) v.inflight
  write-IsFree k s t g e q = record {
    live = λ j u i w a. elim (get_elem?-set v.streams k j s t u e i) [
      | inl (p, r) ↦ ground (arith, q, ap (λ x. x.waiting) r, ap (λ x. x.aborted) r, w, a)
      | inr (b, i') ↦
          let l = h.live j u i' w a in
          elim (Bool-cases (same session_id u.session_id)) [
            | inl c ↦
                let p : k ≡ j =
                  some_injective
                    (sym g ∙ ap (λ x. get x v.inflight) (same→eq session_id u.session_id c) ∙ l) in
                ground (arith, b, (==_iff k j).1 p)
            | inr c ↦ (c, l)
          ]
    ];
    held = λ other j c i.
        let p = h.held other j i in
        let b : (k == j) ≡ false = apart k j s other g e c p in
        record {
          stream = p.stream;
          there = get_elem?-set_ne v.streams k j t b ∙ p.there;
          ours = p.ours;
          going = p.going;
          unaborted = p.unaborted;
        };
  }

module _ (session_id : String) (l : List Stream) (m : List (String × ℕ))
    (h : IsFree session_id l m) where
  pub delete-IsValid : IsValid (record { streams = l; inflight = delete_key session_id m })
  delete-IsValid = record {
    live = λ k s e w a.
        let (c, g) = h.live k s e w a in get-delete_key_ne session_id s.session_id m c ∙ g;
    held = λ other k g. elim (Bool-cases (same session_id other)) [
      | inl c ↦ ground (
        arith,
        g,
        get-delete_key session_id m,
        ap (λ x. get x (delete_key session_id m)) (same→eq session_id other c),
      )
      | inr c ↦ h.held other k c (sym (get-delete_key_ne session_id other m c) ∙ g)
    ];
  }

  pub append-IsValid :
      (s : Stream)
      → s.session_id ≡ session_id
      → s.waiting ≡ true
      → s.aborted ≡ false
      → IsValid (record { streams = l ++ s ∷ []; inflight = put session_id (length l) m })
  append-IsValid s o w a = record {
    live = λ k t e u b. elim (get_elem?-append l s k t e) [
      | inl e' ↦
          let (c, g) = h.live k t e' u b in get-put_ne session_id t.session_id (length l) m c ∙ g
      | inr (p, q) ↦ rw (p, ap (λ x. x.session_id) q, o) (get-put_self session_id (length l) m)
    ];
    held = λ other k g. elim (Bool-cases (same session_id other)) [
      | inl c ↦
          let p = same→eq session_id other c in
          let q : length l ≡ k = some_injective (
            sym (get-put_self session_id (length l) m)
            ∙ ap (λ x. get x (put session_id (length l) m)) p
            ∙ g) in
          record {
            stream = s;
            there = ap (get_elem? (l ++ s ∷ [])) (sym q) ∙ get_elem?-append_new l s;
            ours = o ∙ p;
            going = w;
            unaborted = a;
          }
      | inr c ↦
          let p = h.held other k c (sym (get-put_ne session_id other (length l) m c) ∙ g) in
          record {
            stream = p.stream;
            there = get_elem?-append_old l s k p.stream p.there;
            ours = p.ours;
            going = p.going;
            unaborted = p.unaborted;
          }
    ];
  }
