-- ===== src/Ordering/Service/Turns.antt =====
-- Turns of one cart, one after another, and turns that break (order-understanding-service.ts).
use voice_order_backend.Ordering.Graph.Remembers.{invoke-broken, invoke-IsRecorded}
use voice_order_backend.Ordering.State.{
  HistoryTurn, newest, normalize_transcript, Services, OrderState,
}
use voice_order_backend.Ordering.Tools.{Failure, Kind, rate_limit_timeout, bug_shaped, other_error}
use voice_order_backend.Base.{
  ◌++◌, inl, arith, List, refl, length, String, ℕ, [], ◌-◌, ◌≡◌, ◌∷◌, inr, ◌≤◌, length-drop, ◌≢◌,
  ◌↔◌, sym,
}
use voice_order_backend.Ordering.Graph.{broken, Outcome, out_of_steps, finished, invoke}
use voice_order_backend.Ordering.Service.{
  state_after, with_input, FinalTranscript, session_failed, handle_final_transcript, reason_of,
  Emitted, dispatch, result_of,
}

newest-length : (n : ℕ) (turns : List HistoryTurn) → length (newest n turns) ≤ n
unfolding newest
newest-length n turns = omega (arith, length-drop (length turns - n) turns)

-- One turn keeps the history within its cap.
state_after-history :
    (d : Services) (s : OrderState) (out : Outcome)
    → invoke d s ≡ out
    → length s.history ≤ 6
    → length (state_after s out).history ≤ 6
unfolding state_after newest
state_after-history d s (finished s') q h = elim (invoke-IsRecorded d s s' q).history [
  | inl (j, e) ↦ rw e h
  | inr e ↦ rw e (
      newest-length 6 (
        s.history
        ++ record { customer_text = normalize_transcript s.customer_text; agent_reply = s'.reply }
          ∷ []))
]
state_after-history d s (broken s' f) q h = rw (invoke-broken d s s' f q) h
state_after-history d s out_of_steps q h = h

-- The same for a turn that starts from the state before it with a transcript.
started-history :
    (d : Services) (e : FinalTranscript) (s : OrderState) (out : Outcome)
    → invoke d (with_input e s) ≡ out
    → length s.history ≤ 6
    → length (state_after s out).history ≤ 6
unfolding state_after with_input
started-history d e s (finished s') q h = state_after-history d (with_input e s) (finished s') q h
started-history d e s (broken s' f) q h = state_after-history d (with_input e s) (broken s' f) q h
started-history d e s out_of_steps q h = h

-- The turns of one cart, each with the services as they are then, and all that they put on the bus.
unfoldable pub handle_turns :
    String → List (Services × FinalTranscript) → OrderState → OrderState × List Emitted
handle_turns tts_language [] s = (s, [])
handle_turns tts_language ((d, e) ∷ turns) s =
    let (s', out) = handle_final_transcript d tts_language e s in
    let (s'', outs) = handle_turns tts_language turns s' in (s'', out ++ outs)

handle_turns-le :
    (tts_language : String) (turns : List (Services × FinalTranscript)) (s : OrderState)
    → length s.history ≤ 6
    → length (handle_turns tts_language turns s).0.history ≤ 6
unfolding handle_turns handle_final_transcript with_input
handle_turns-le tts_language [] s h = h
handle_turns-le tts_language ((d, e) ∷ turns) s h =
    let out = invoke d (with_input e s) in
    handle_turns-le tts_language turns (state_after s out) (started-history d e s out refl h)

-- However many turns a cart has, whatever the model, the menu and the cart cache answer in each, its
-- history never has more than six entries.
pub handle_turns-history :
    (tts_language : String) (turns : List (Services × FinalTranscript)) (s : OrderState)
    → s.history ≡ []
    → length (handle_turns tts_language turns s).0.history ≤ 6
handle_turns-history tts_language turns s h =
    handle_turns-le tts_language turns s (rw h (omega arith))

-- The reason that a failure of this kind is reported with.
pub record IsReason (k : Kind) (reason : String) : Type 0 where
  pub rate_limit : (k ≡ rate_limit_timeout) ↔ (reason ≡ "llm_rate_limited")
  pub other : (k ≢ rate_limit_timeout) ↔ (reason ≡ "order_parse_failed")

abbrev parse_failed : String
parse_failed = "order_parse_failed"

limited_or_parse : parse_failed ≢ "llm_rate_limited"
limited_or_parse e = cc

reason_of-IsReason : (f : Failure) (k : Kind) → f.kind ≡ k → IsReason k (reason_of f)
unfolding reason_of
reason_of-IsReason f rate_limit_timeout e =
    rw (e, reason_of)
      (record {
        rate_limit = (λ h. refl, λ h. refl);
        other = (λ h. absurd (h refl), λ h. absurd (limited_or_parse (sym h)));
      })
reason_of-IsReason f bug_shaped e =
    rw (e, reason_of)
      (record {
        rate_limit = (λ h. absurd (cc), λ h. absurd (limited_or_parse h));
        other = (λ h. refl, λ h k. cc);
      })
reason_of-IsReason f other_error e =
    rw (e, reason_of)
      (record {
        rate_limit = (λ h. absurd (cc), λ h. absurd (limited_or_parse h));
        other = (λ h. refl, λ h k. cc);
      })

-- A turn in which a node throws puts exactly one failure on the bus, for its session and its cart, and
-- leaves the history as it was. The failure names the rate limit exactly if what the node threw is the
-- limiter's own error, and else a failed parse.
pub handle-broken :
    (d : Services) (tts_language : String) (e : FinalTranscript) (s s' : OrderState) (f : Failure)
    → invoke d (with_input e s) ≡ broken s' f
    → (reason : String) × ((handle_final_transcript d tts_language e s).1
        ≡ session_failed e.session_id e.cart_id reason ∷ [])
      × IsReason f.kind reason
      × ((handle_final_transcript d tts_language e s).0.history ≡ s.history)
unfolding handle_final_transcript dispatch result_of state_after with_input
handle-broken d tts_language e s s' f h = (
  reason_of f,
  rw h refl,
  reason_of-IsReason f f.kind refl,
  rw h (invoke-broken d (with_input e s) s' f h),
)
