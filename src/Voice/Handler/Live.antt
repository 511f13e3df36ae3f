-- ===== src/Voice/Handler/Live.antt =====
-- The registry has every session that is not retired (voice-message-handler.ts,
-- voice-session-manager.ts).
use voice_order_backend.Base.{
  ℕ, ◌≡◌, refl, sym, ◌∙◌, ap, true, false, List, [], ◌++◌, none, some, String, get, delete_key,
  same, same→eq, get-delete_key, get-delete_key_ne, get_elem?, set, get_elem?-set_self,
  get_elem?-set_ne, arith, ◌⊎◌, inl, inr, Option-cases, Bool-cases, ◌==◌, ==_iff, some_injective,
}
use voice_order_backend.Voice.Session.{Session, Out, retire}
use voice_order_backend.Voice.Session.Tame.{IsOrderly, IsTame, closes, retire-IsTame, closes-append}
use voice_order_backend.Voice.Handler.{World, on_session, remove}

pub record IsValid (w : World) : Type 0 where
  -- At most one session of a socket is not retired: the one that the registry has.
  pub live :
      (k : ℕ) (s : Session)
      → get_elem? w.sessions k ≡ some s
      → s.retired ≡ false
      → get s.session_id w.current ≡ some k
  pub orderly : (k : ℕ) (s : Session) → get_elem? w.sessions k ≡ some s → IsOrderly s

-- A session that is not retired has this stream.
pub record Holds (st : ℕ) (l : List Session) : Type 0 where
  pub place : ℕ
  pub session : Session
  pub there : get_elem? l place ≡ some session
  pub unretired : session.retired ≡ false
  pub has : session.stream ≡ some st

abbrev AllOrderly : List Session → Type 0
AllOrderly l = (k : ℕ) (s : Session) → get_elem? l k ≡ some s → IsOrderly s

pub record Keeps (w : World) (r : World × List Out) : Type 0 where
  pub valid : IsValid r.0
  pub kept : (st : ℕ) → Holds st w.sessions → Holds st r.0.sessions ⊎ (closes st r.1 ≡ true)

pub Keeps-trans :
    (w w' w'' : World) (a b : List Out)
    → Keeps w (w', a)
    → Keeps w' (w'', b)
    → Keeps w (w'', a ++ b)
Keeps-trans w w' w'' a b h i = record {
  valid = i.valid;
  kept = λ st q. elim (h.kept st q) [
    | inl q' ↦ elim (i.kept st q') [
      | inl q'' ↦ inl q''
      | inr c ↦ inr (ground (arith, closes-append st a b))
    ]
    | inr c ↦ inr (ground (arith, closes-append st a b))
  ];
}

on_session-current :
    (k : ℕ) (f : Session → Session × List Out) (w : World)
    → (on_session k f w).0.current ≡ w.current
unfolding on_session
on_session-current k f w = elim (Option-cases (get_elem? w.sessions k)) [
  | inl e ↦ ground (arith, e)
  | inr (s, e) ↦ ground (arith, e)
]

-- A write of one session: every other stays, and that one is the result.
module _ (k : ℕ) (f : Session → Session × List Out) (w : World) where
  pub on_session-some :
      (s : Session)
      → get_elem? w.sessions k ≡ some s
      → on_session k f w ≡ (record w { sessions = set w.sessions k (f s).0 }, (f s).1)
  unfolding on_session
  on_session-some s e = rw (e, on_session) refl

  on_session-none : get_elem? w.sessions k ≡ none → on_session k f w ≡ (w, [])
  unfolding on_session
  on_session-none e = rw (e, on_session) refl

  -- Where a session of the result comes from.
  written :
      (s : Session)
      → get_elem? w.sessions k ≡ some s
      → (j : ℕ) (t : Session) → get_elem? (set w.sessions k (f s).0) j ≡ some t
      → ((j ≡ k) × (t ≡ (f s).0)) ⊎ (((k == j) ≡ false) × (get_elem? w.sessions j ≡ some t))
  written s e j t h = elim (Bool-cases (k == j)) [
    | inl b ↦
        let p = (==_iff k j).0 b in
        let q = get_elem?-set_self w.sessions k s (f s).0 e in inl (sym p, cc)
    | inr b ↦ inr (b, sym (get_elem?-set_ne w.sessions k j (f s).0 b) ∙ h)
  ]

  module _ (tame : (s : Session) → IsTame s (f s)) where
    on_session-IsValid : IsValid w → IsValid (on_session k f w).0
    on_session-IsValid v = elim (Option-cases (get_elem? w.sessions k)) [
      | inl e ↦ rw (on_session-none e) v
      | inr (s, e) ↦ rw (on_session-some s e) (record {
        live = λ j t h r. elim (written s e j t h) [
          | inl (p, q) ↦
              let r' = sym (ap (λ x. x.retired) q) ∙ r in
              let l = v.live k s e ((tame s).back r') in
              rw (p, ap (λ x. x.session_id) q, (tame s).session_id) l
          | inr (b, o) ↦ v.live j t o r
        ];
        orderly = λ j t h. elim (written s e j t h) [
          | inl (p, q) ↦ rw q ((tame s).orderly (v.orderly k s e))
          | inr (b, o) ↦ v.orderly j t o
        ];
      })
    ]

    on_session-kept :
        AllOrderly w.sessions
        → (st : ℕ) → Holds st w.sessions
        → Holds st (on_session k f w).0.sessions ⊎ (closes st (on_session k f w).1 ≡ true)
    on_session-kept v st h = elim (Option-cases (get_elem? w.sessions k)) [
      | inl e ↦ rw (on_session-none e) (inl h)
      | inr (s, e) ↦ rw (on_session-some s e) (elim (Bool-cases (k == h.place)) [
        | inl b ↦
            let p = (==_iff k h.place).0 b in
            let q : s ≡ h.session =
              some_injective (sym e ∙ ap (get_elem? w.sessions) p ∙ h.there) in
            elim ((tame s).kept (v k s e) st (ap (λ x. x.retired) q ∙ h.unretired)
              (ap (λ x. x.stream) q ∙ h.has)) [
                | inl (r, t) ↦ inl (record {
                  place = k;
                  session = (f s).0;
                  there = get_elem?-set_self w.sessions k s (f s).0 e;
                  unretired = r;
                  has = t;
                })
                | inr c ↦ inr c
              ]
        | inr b ↦ inl (record {
          place = h.place;
          session = h.session;
          there = get_elem?-set_ne w.sessions k h.place (f s).0 b ∙ h.there;
          unretired = h.unretired;
          has = h.has;
        })
      ])
    ]

    pub on_session-Keeps : IsValid w → Keeps w (on_session k f w)
    on_session-Keeps v = record { valid = on_session-IsValid v; kept = on_session-kept v.orderly }

-- The session that the registry drops is retired.
module _ (session_id : String) (w : World) (v : IsValid w) where
  module _ (k : ℕ) (g : get session_id w.current ≡ some k) where
    dropped : World
    dropped = record w { current = delete_key session_id w.current }

    -- Any other session that is not retired is another socket's.
    others :
        (j : ℕ) (t : Session)
        → (k == j) ≡ false
        → get_elem? w.sessions j ≡ some t
        → t.retired ≡ false
        → get t.session_id (delete_key session_id w.current) ≡ some j
    others j t b h r = elim (Bool-cases (same session_id t.session_id)) [
      | inl c ↦
          let p = same→eq session_id t.session_id c in
          let q : k ≡ j = some_injective (sym g ∙ ap (λ x. get x w.current) p ∙ v.live j t h r) in
          ground (arith, (==_iff k j).1 q)
      | inr c ↦ get-delete_key_ne session_id t.session_id w.current c ∙ v.live j t h r
    ]

    retired : (s : Session) → (retire s).0.retired ≡ true
    unfolding retire
    retired s = ground arith

    dropped-IsValid : IsValid (on_session k retire dropped).0
    unfolding dropped
    dropped-IsValid = elim (Option-cases (get_elem? w.sessions k)) [
      | inl e ↦ rw (on_session-none k retire dropped e) (record {
        live = λ j t h r. elim (Bool-cases (k == j)) [
          | inl b ↦ ground (arith, sym e ∙ ap (get_elem? w.sessions) ((==_iff k j).0 b) ∙ h)
          | inr b ↦ others j t b h r
        ];
        orderly = v.orderly;
      })
      | inr (s, e) ↦ rw (on_session-some k retire dropped s e) (record {
        live = λ j t h r. elim (written k retire dropped s e j t h) [
          | inl (p, q) ↦ ground (arith, retired s, ap (λ x. x.retired) q, r)
          | inr (b, o) ↦ others j t b o r
        ];
        orderly = λ j t h. elim (written k retire dropped s e j t h) [
          | inl (p, q) ↦ rw q ((retire-IsTame s).orderly (v.orderly k s e))
          | inr (b, o) ↦ v.orderly j t o
        ];
      })
    ]

  pub remove-Keeps : Keeps w (remove session_id w)
  unfolding remove dropped
  remove-Keeps = elim (Option-cases (get session_id w.current)) [
    | inl g ↦ rw (g, remove) (record { valid = v; kept = λ st q. inl q })
    | inr (k, g) ↦
        rw (g, remove)
          (record {
            valid = dropped-IsValid k g;
            kept = on_session-kept k retire (dropped k g) retire-IsTame v.orderly;
          })
  ]

pub remove-gone :
    (session_id : String) (w : World) → get session_id (remove session_id w).0.current ≡ none
unfolding remove
remove-gone session_id w = elim (Option-cases (get session_id w.current)) [
  | inl g ↦ rw (g, remove) g
  | inr (k, g) ↦ rw (g, remove, on_session-current) (get-delete_key session_id w.current)
]
