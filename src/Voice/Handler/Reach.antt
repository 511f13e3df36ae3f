-- ===== src/Voice/Handler/Reach.antt =====
-- The steps, and the worlds that they reach (voice-message-handler.ts).
use voice_order_backend.Base.{
  ℕ, ◌≡◌, refl, sym, ◌∙◌, ap, Bool, true, false, List, [], ◌∷◌, ◌++◌, append-nil, none, String, get,
  same, same→eq, get-put_self, get-put_ne, length, get_elem?, get_elem?-append,
  get_elem?-append_old, arith, inl, inr, Option-cases, Bool-cases, if◌then◌else◌,
}
use voice_order_backend.Voice.Session.{
  Session, Out, new_session, opened, clear_timers, interrupt, on_partial, on_final, retire,
  idle_fires, on_error, audio_chunk, stop_session, grace_fires, flushed,
}
use voice_order_backend.Voice.Session.Tame.{
  IsOrderly, IsTame, closes, clear_timers-IsTame, interrupt-IsTame, retire-IsTame, closes-append,
  idle_fires-IsTame, opened-IsTame, on_partial-IsTame, on_final-IsTame, on_error-IsTame,
  audio_chunk-IsTame, stop_session-IsTame, grace_fires-IsTame, flushed-IsTame,
}
use voice_order_backend.Voice.Handler.{
  World, on_session, is_current, remove, create, on_current, handle_start, retire_session,
  connected, fail_open, open_fails, on_socket, flush_failed, idle_timer, handle_disconnect, Event,
  step, run, starts, opens, open_error, refuses, hears, finishes, errs, sends, stops, flushes,
  flush_fails, disconnects, idles, graces,
}
use voice_order_backend.Voice.Handler.Live.{
  IsValid, Keeps, Keeps-trans, on_session-Keeps, remove-Keeps, remove-gone,
}

-- Nothing changes.
pub Keeps-refl : (w : World) → IsValid w → Keeps w (w, [])
Keeps-refl w v = record { valid = v; kept = λ st q. inl q }

on_session-silent :
    (k : ℕ) (f : Session → Session) (w : World) → (on_session k (λ s. (f s, [])) w).1 ≡ []
unfolding on_session
on_session-silent k f w = elim (Option-cases (get_elem? w.sessions k)) [
  | inl e ↦ rw (e, on_session) refl
  | inr (s, e) ↦ rw (e, on_session) refl
]

Keeps-if :
    (b : Bool) (w : World) (x y : World × List Out)
    → Keeps w x
    → Keeps w y
    → Keeps w (if b then x else y)
Keeps-if true w x y h i = h
Keeps-if false w x y h i = i

on_current-Keeps :
    (session_id : String) (f : Session → Session) (w : World)
    → ((s : Session) → IsTame s (f s, []))
    → IsValid w
    → Keeps w (on_current session_id f w, [])
unfolding on_current
on_current-Keeps session_id f w tame v = elim (Option-cases (get session_id w.current)) [
  | inl g ↦ rw (g, on_current) (Keeps-refl w v)
  | inr (k, g) ↦
      let h = on_session-Keeps k (λ s. (f s, [])) w tame v in
      rw (g, on_current)
        (record {
          valid = h.valid;
          kept = λ st q. elim (h.kept st q) [
            | inl q' ↦ inl q'
            | inr c ↦ inr (sym (ap (closes st) (on_session-silent k f w)) ∙ c)
          ];
        })
]

on_socket-Keeps :
    (session_id : String) (f : Session → Session × List Out) (w : World)
    → ((s : Session) → IsTame s (f s))
    → IsValid w
    → Keeps w (on_socket session_id f w)
unfolding on_socket
on_socket-Keeps session_id f w tame v = elim (Option-cases (get session_id w.current)) [
  | inl g ↦ rw (g, on_socket) (Keeps-refl w v)
  | inr (k, g) ↦ rw (g, on_socket) (on_session-Keeps k f w tame v)
]

-- A session is added where the socket has none.
module _ (s : Session) (w : World) (g : get s.session_id w.current ≡ none) (o : IsOrderly s)
    (v : IsValid w) where
  create-Keeps : Keeps w (create s w, [])
  unfolding create
  create-Keeps = record {
    valid = record {
      live = λ j t h r. elim (get_elem?-append w.sessions s j t h) [
        | inl q ↦
            let l = v.live j t q r in
            elim (Bool-cases (same s.session_id t.session_id)) [
              | inl c ↦
                  ground (arith, ap (λ x. get x w.current) (same→eq s.session_id t.session_id c))
              | inr c ↦ get-put_ne s.session_id t.session_id (length w.sessions) w.current c ∙ l
            ]
        | inr (p, q) ↦
            rw (p, ap (λ x. x.session_id) q)
              (get-put_self s.session_id (length w.sessions) w.current)
      ];
      orderly = λ j t h. elim (get_elem?-append w.sessions s j t h) [
        | inl q ↦ v.orderly j t q
        | inr (p, q) ↦ rw q o
      ];
    };
    kept = λ st q. inl (record {
      place = q.place;
      session = q.session;
      there = get_elem?-append_old w.sessions s q.place q.session q.there;
      unretired = q.unretired;
      has = q.has;
    });
  }

new_session-IsOrderly :
    (session_id cart_id : String) (pos_config_id : ℕ)
    → IsOrderly (new_session session_id cart_id pos_config_id)
unfolding new_session
new_session-IsOrderly session_id cart_id pos_config_id = ground arith

connected-IsTame : (s : Session) → IsTame s (connected s)
unfolding connected
connected-IsTame s = ground arith

flush_failed-IsTame : (s : Session) → IsTame s (flush_failed s)
unfolding flush_failed
flush_failed-IsTame s = ground arith

pub handle_start-Keeps :
    (session_id cart_id : String) (pos_config_id : ℕ) (w : World)
    → IsValid w
    → Keeps w (handle_start session_id cart_id pos_config_id w)
unfolding handle_start new_session
handle_start-Keeps session_id cart_id pos_config_id w v =
    let a = on_current-Keeps session_id clear_timers w clear_timers-IsTame v in
    let w' = on_current session_id clear_timers w in
    let b = remove-Keeps session_id w' a.valid in
    let w'' = (remove session_id w').0 in
    let s = new_session session_id cart_id pos_config_id in
    let c =
      create-Keeps s w'' (remove-gone session_id w')
        (new_session-IsOrderly session_id cart_id pos_config_id) b.valid in
    rw (sym (append-nil (remove session_id w').1)) (
      Keeps-trans w w' (create s w'') [] ((remove session_id w').1 ++ []) a
        (Keeps-trans w' w'' (create s w'') (remove session_id w').1 [] b c))

pub handle_disconnect-Keeps :
    (session_id : String) (w : World) → IsValid w → Keeps w (handle_disconnect session_id w)
unfolding handle_disconnect
handle_disconnect-Keeps session_id w v =
    let f : Session → Session = λ s. interrupt (clear_timers s) in
    let a = on_current-Keeps session_id f w interrupt-IsTame v in
    Keeps-trans w (on_current session_id f w) (remove session_id (on_current session_id f w)).0 []
      (remove session_id (on_current session_id f w)).1 a
      (remove-Keeps session_id (on_current session_id f w) a.valid)

retire_session-Keeps :
    (k : ℕ) (s : Session) (w : World) → IsValid w → Keeps w (retire_session k s w)
unfolding retire_session
retire_session-Keeps k s w v = elim (Bool-cases (is_current k s.session_id w)) [
  | inl c ↦ rw c (remove-Keeps s.session_id w v)
  | inr c ↦ rw c (on_session-Keeps k retire w retire-IsTame v)
]

fail_open-Keeps :
    (k : ℕ) (busy : Bool) (s : Session) (w : World) → IsValid w → Keeps w (fail_open k busy s w)
unfolding fail_open connected
fail_open-Keeps k busy s w v =
    let a = on_session-Keeps k connected w connected-IsTame v in
    let w' = (on_session k connected w).0 in
    let r = retire_session k s w' in
    let b = retire_session-Keeps k s w' a.valid in
    let out : List Out = if is_current k s.session_id w then open_error busy s.session_id else [] in
    Keeps-if s.connecting w (r.0, r.1 ++ out) (w, [])
      (record {
        valid = b.valid;
        kept = λ st q. elim (a.kept st q) [
          | inl q' ↦ elim (b.kept st q') [
            | inl q'' ↦ inl q''
            | inr d ↦ inr (ground (arith, d, closes-append st r.1 out))
          ]
          | inr d ↦ ground (arith, ap (closes st) (on_session-silent k (λ x. (connected x).0) w), d)
        ];
      })
      (Keeps-refl w v)

open_fails-Keeps : (k : ℕ) (busy : Bool) (w : World) → IsValid w → Keeps w (open_fails k busy w)
unfolding open_fails
open_fails-Keeps k busy w v = elim (Option-cases (get_elem? w.sessions k)) [
  | inl e ↦ rw (e, open_fails) (Keeps-refl w v)
  | inr (s, e) ↦ rw (e, open_fails) (fail_open-Keeps k busy s w v)
]

idle_timer-Keeps : (k : ℕ) (w : World) → IsValid w → Keeps w (idle_timer k w)
unfolding idle_timer
idle_timer-Keeps k w v = elim (Option-cases (get_elem? w.sessions k)) [
  | inl e ↦ rw (e, idle_timer) (Keeps-refl w v)
  | inr (s, e) ↦
      rw (e, idle_timer)
        (on_session-Keeps k (idle_fires (is_current k s.session_id w)) w
          (idle_fires-IsTame (is_current k s.session_id w)) v)
]

pub step-Keeps : (e : Event) (w : World) → IsValid w → Keeps w (step e w)
unfolding step
step-Keeps (starts session_id cart_id pos_config_id) w v =
    handle_start-Keeps session_id cart_id pos_config_id w v
step-Keeps (opens k st) w v = on_session-Keeps k (opened st) w (opened-IsTame st) v
step-Keeps (refuses k busy) w v = open_fails-Keeps k busy w v
step-Keeps (hears k text) w v = on_session-Keeps k (on_partial text) w (on_partial-IsTame text) v
step-Keeps (finishes k request_id text) w v =
    on_session-Keeps k (on_final request_id text) w (on_final-IsTame request_id text) v
step-Keeps (errs k) w v = on_session-Keeps k on_error w on_error-IsTame v
step-Keeps (sends session_id audio) w v =
    on_socket-Keeps session_id (audio_chunk audio) w (audio_chunk-IsTame audio) v
step-Keeps (stops session_id) w v = on_socket-Keeps session_id stop_session w stop_session-IsTame v
step-Keeps (flushes k) w v = on_session-Keeps k flushed w flushed-IsTame v
step-Keeps (flush_fails k) w v = on_session-Keeps k flush_failed w flush_failed-IsTame v
step-Keeps (graces k) w v = on_session-Keeps k grace_fires w grace_fires-IsTame v
step-Keeps (idles k) w v = idle_timer-Keeps k w v
step-Keeps (disconnects session_id) w v = handle_disconnect-Keeps session_id w v

pub run-Keeps : (es : List Event) (w : World) → IsValid w → Keeps w (run es w)
unfolding run
run-Keeps [] w v = Keeps-refl w v
run-Keeps (e ∷ es) w v =
    let a = step-Keeps e w v in
    let b = run-Keeps es (step e w).0 a.valid in
    Keeps-trans w (step e w).0 (run es (step e w).0).0 (step e w).1 (run es (step e w).0).1 a b
