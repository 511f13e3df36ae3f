-- ===== src/Ordering/Service.antt =====
-- A final transcript handled: src/ordering/order-understanding-service.ts with `interpret` of
-- src/ordering/order-graph.ts. The checkpointer hands each turn of a cart the state that the turn
-- before it left. Turns of one cart do not overlap.
use voice_order_backend.Ordering.Mentioned.{Mention}
use voice_order_backend.Ordering.State.{junk, OrderState, service, Services}
use voice_order_backend.Contracts.{OrderProposal, CartOperation}
use voice_order_backend.Base.{[], ◌∷◌, some, ℕ, Option, String, none, or_else, List}
use voice_order_backend.Ordering.Graph.{invoke, out_of_steps, Outcome, finished, broken}
use voice_order_backend.Ordering.Tools.{bug_shaped, Failure, rate_limit_timeout, other_error}
pub mod Emits
pub mod Turns
mod Tests

pub data GraphTurnResult : Type 0 where
  complete :
      List CartOperation
      → ℕ
      → Option String
      → Option String
      → Option (List Mention)
      → GraphTurnResult
  spoke : String → Option String → Option (List Mention) → GraphTurnResult
  was_junk : GraphTurnResult
  fail : String → GraphTurnResult

-- `length > 0 ? { mentioned_items } : {}`
unfoldable pub some_items : List Mention → Option (List Mention)
some_items [] = none
some_items (i ∷ items) = some (i ∷ items)

unfoldable pub interpret_output : List CartOperation → OrderState → GraphTurnResult
interpret_output ops s = elim s.reply [
  | none ↦ complete ops s.base_version none none none
  | some t ↦ complete ops s.base_version (some t) s.reply_language (some_items s.mentioned_items)
]

unfoldable pub interpret_reply : OrderState → GraphTurnResult
interpret_reply s = elim s.reply [
  | none ↦ fail "agent_no_terminal"
  | some t ↦ spoke t s.reply_language (some_items s.mentioned_items)
]

unfoldable pub interpret_service : OrderState → GraphTurnResult
interpret_service s = elim s.failure_reason [
  | some reason ↦ fail reason
  | none ↦ elim s.output [ some ops ↦ interpret_output ops s | none ↦ interpret_reply s ]
]

unfoldable pub interpret : OrderState → GraphTurnResult
interpret s = elim s.intent [ junk ↦ was_junk | service ↦ interpret_service s ]

pub record FinalTranscript : Type 0 where
  pub request_id : String
  pub session_id : String
  pub cart_id : String
  pub pos_config_id : ℕ
  pub spoken_text : String

-- The channels that a turn's input writes.
unfoldable pub with_input : FinalTranscript → OrderState → OrderState
with_input e s = record s {
  customer_text = e.spoken_text;
  cart_id = e.cart_id;
  pos_config_id = e.pos_config_id;
}

unfoldable pub reason_of : Failure → String
reason_of f = elim f.kind [
  | rate_limit_timeout ↦ "llm_rate_limited"
  | bug_shaped ↦ "order_parse_failed"
  | other_error ↦ "order_parse_failed"
]

-- `runTurn`: the library's error at the limit is caught like any other.
unfoldable pub result_of : Outcome → GraphTurnResult
result_of (finished s) = interpret s
result_of (broken s f) = fail (reason_of f)
result_of out_of_steps = fail "order_parse_failed"

-- What the checkpointer has after the turn.
unfoldable pub state_after : OrderState → Outcome → OrderState
state_after s (finished s') = s'
state_after s (broken s' f) = s'
state_after s out_of_steps = s

pub data Emitted : Type 0 where
  order_reply : FinalTranscript → String → String → Option (List Mention) → Emitted
  operations_proposed : String → OrderProposal → Emitted
  session_failed : String → String → String → Emitted

-- `speak`; the default language is TTS_LANGUAGE.
unfoldable pub speak_out :
    String → FinalTranscript → String → Option String → Option (List Mention) → Emitted
speak_out tts_language e reply language items =
    order_reply e reply (or_else language tts_language) items

unfoldable pub propose : FinalTranscript → ℕ → List CartOperation → Emitted
propose e base_version ops = operations_proposed e.session_id (record {
  request_id = e.request_id;
  cart_id = e.cart_id;
  pos_config_id = e.pos_config_id;
  base_version = base_version;
  operations = ops;
})

unfoldable pub dispatch : String → FinalTranscript → GraphTurnResult → List Emitted
dispatch tts_language e was_junk = []
dispatch tts_language e (fail reason) = session_failed e.session_id e.cart_id reason ∷ []
dispatch tts_language e (spoke reply language items) =
    speak_out tts_language e reply language items ∷ []
dispatch tts_language e (complete ops base_version none language items) =
    propose e base_version ops ∷ []
dispatch tts_language e (complete ops base_version (some reply) language items) =
    propose e base_version ops ∷ speak_out tts_language e reply language items ∷ []

unfoldable pub handle_final_transcript :
    Services → String → FinalTranscript → OrderState → OrderState × List Emitted
handle_final_transcript d tts_language e s =
    let out = invoke d (with_input e s) in
    (state_after s out, dispatch tts_language e (result_of out))
