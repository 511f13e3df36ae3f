-- ===== src/Ordering/Service/Tests.antt =====
-- Turns on concrete answers of the model, the tools and the cart cache (order-understanding-service.ts,
-- build-graph.ts, run-tools.ts).
use voice_order_backend.Menu.{CandidateItem}
use voice_order_backend.Ordering.CartView.{cart_view_of}
use voice_order_backend.Ordering.Reply.{
  null, read_spoken, normalize_lang_code, parse_spoken_reply, parse_agent_reply, property,
  parse_mentioned_item_keys, spoken_as_is, silent, usable,
}
use voice_order_backend.RateLimit.Arrival.{opaque}
use voice_order_backend.Ordering.State.Tidy.{IsTidy}
use voice_order_backend.Ordering.Graph.Remembers.{IsRecorded, invoke-remembers}
use voice_order_backend.Base.Int.{pos}
use voice_order_backend.Ordering.Graph.{
  run_from, invoke, out_of_steps, start_batch, normalize_node, classify_node, load_cart_node,
  intent_route, then_to, agent_node, visit, counted, answered, speak, take_answer, write_batch,
  after_agent, tools_node, conversation, seen_lines, after_tools, finalize_node,
}
use voice_order_backend.Ordering.State.{
  service, ChatResult, normalize_transcript, Services, OrderState, classify_intent, was_spoken_to,
  last_calls, merge_history, newest,
}
use voice_order_backend.Ordering.Usage.{zero_turn_usage}
use voice_order_backend.Ordering.Service.Turns.{IsReason, handle-broken}
use voice_order_backend.Contracts.{CartOperation, add_item}
use voice_order_backend.Ordering.Tools.{
  run_tool_call, run_search, bug_shaped, io_within, parsed, ToolCall, user, AgentMessage, refused,
  ok, err, execute_tool_call, Tooling, rate_limit_timeout, is_retriable, Failure, Result, only,
  failed_call, project,
}
use voice_order_backend.Ordering.Graph.Ends.{invoke-ends}
use voice_order_backend.Base.{
  [], ◌≡◌, ◌∷◌, refl, List, none, some, threw, ℕ, returned, String, ◌==◌, if◌then◌else◌,
  if◌then◌else◌, same, put, trim, is_blank, arith,
}
use voice_order_backend.Ordering.Service.{
  with_input, handle_final_transcript, FinalTranscript, session_failed, state_after, dispatch,
  result_of, interpret, interpret_service,
}
use voice_order_backend.Ordering.Batch.{run_calls, merged, merge, add_result}

abbrev latte : CandidateItem
latte = record {
  score = none;
  available_modifiers = [];
  menu_item_key = "latte";
  product_tmpl_id = 4;
  name = "Latte";
  names = none;
  base_price_cents = pos 450;
  popularity = none;
}

-- A menu with a latte, and schemas that take every search and read one operation.
abbrev tooling_with : List CartOperation → Tooling
tooling_with ops = record {
  search_menu = λ p a. ok (latte ∷ []);
  resolve_item_key = λ p k. returned none;
  search_args = λ j. parsed (record {
    query = some "latte";
    by_popularity = none;
    max_price_cents = none;
    min_price_cents = none;
    limit = none;
  });
  operations_schema = λ j. parsed ops;
}

abbrev answer : List ToolCall → ChatResult
answer calls = record { content = none; tool_calls = calls; usage = none }

abbrev call_of : String → ToolCall
call_of name = record { id = "1"; name = name; arguments = null; raw = none }

-- The model searches, and then proposes.
abbrev chat_once : ℕ → List AgentMessage → Result ChatResult
chat_once n ms = ok (answer (call_of (if n == 1 then "search_menu" else "propose_cart") ∷ []))

abbrev services_with : (ℕ → List AgentMessage → Result ChatResult) → Services
services_with chat = record {
  recursion_limit = 25;
  classifier = λ t. threw;
  label = λ t. none;
  cached_cart = λ c. ok none;
  now = "2026-01-01";
  get_items = λ p ids. ok [];
  seed = λ t v h. user t ∷ [];
  chat = chat;
  tooling = λ n i. tooling_with (add_item "latte" 1 [] ∷ []);
  parse_json = λ t. none;
}

abbrev blank : OrderState
blank = record {
  customer_text = "";
  cart_id = "";
  pos_config_id = 0;
  intent = service;
  cart_view = none;
  base_version = 0;
  history = [];
  output = none;
  reply = none;
  reply_language = none;
  agent_messages = [];
  agent_steps = 0;
  search_results = [];
  mentioned_items = [];
  token_usage = zero_turn_usage;
  failure_reason = none;
}

abbrev transcript : FinalTranscript
transcript = record {
  request_id = "r";
  session_id = "s";
  cart_id = "c";
  pos_config_id = 3;
  spoken_text = " one  latte";
}

abbrev started : OrderState
started = with_input transcript blank

invoke-ends_example : ¬ (invoke (services_with chat_once) started ≡ out_of_steps)
invoke-ends_example = invoke-ends (services_with chat_once) started (omega arith)

-- A model that asks for tools without end: the turn fails at its ninth step.
abbrev chat_on : ℕ → List AgentMessage → Result ChatResult
chat_on n ms = ok (answer (call_of "search_menu" ∷ []))

abbrev ended_state : OrderState
ended_state = state_after started (invoke (services_with chat_on) started)

invoke-remembers_example :
    (text : String) × IsTidy " one  latte" text × IsRecorded [] text 3 ended_state
unfolding state_after invoke run_from visit then_to intent_route classify_node was_spoken_to
    normalize_node with_input classify_intent load_cart_node agent_node after_agent take_answer
    answered last_calls conversation tools_node put same is_blank trim add_result merge merged
    run_calls cart_view_of after_tools counted finalize_node seen_lines speak start_batch
    write_batch normalize_lang_code parse_agent_reply parse_mentioned_item_keys parse_spoken_reply
    property read_spoken silent spoken_as_is usable merge_history newest normalize_transcript
    execute_tool_call failed_call io_within is_retriable only project run_search run_tool_call
invoke-remembers_example = invoke-remembers (services_with chat_on) started ended_state refl

-- A model that is saturated.
abbrev saturated : Failure
saturated = record { kind = rate_limit_timeout; detail = opaque; message = "timeout" }

abbrev broken_state : OrderState
broken_state = state_after started (invoke (services_with (λ n ms. err saturated)) started)

handle-broken_example :
    (reason : String) × ((handle_final_transcript
        (services_with (λ n ms. err saturated))
        "en"
        transcript
        blank).1
      ≡ session_failed "s" "c" reason ∷ [])
    × IsReason rate_limit_timeout reason
    × ((handle_final_transcript
          (services_with (λ n ms. err saturated))
          "en"
          transcript
          blank).0.history
        ≡ [])
unfolding state_after invoke run_from visit then_to intent_route classify_node was_spoken_to
    normalize_node with_input classify_intent load_cart_node agent_node
handle-broken_example =
    handle-broken (services_with (λ n ms. err saturated)) "en" transcript blank broken_state
      saturated refl

-- A search that runs into a bug.
abbrev broken_search : Tooling
broken_search = record {
  search_menu = λ p a. err (record { kind = bug_shaped; detail = opaque; message = "undefined" });
  resolve_item_key = λ p k. returned none;
  search_args = λ j. parsed (record {
    query = none;
    by_popularity = none;
    max_price_cents = none;
    min_price_cents = none;
    limit = none;
  });
  operations_schema = λ j. refused "";
}

-- The events of such a turn.
looped :
    (handle_final_transcript (services_with chat_on) "en" transcript blank).1
    ≡ session_failed "s" "c" "agent_step_limit" ∷ []
unfolding handle_final_transcript invoke state_after dispatch result_of interpret interpret_service
    run_from visit then_to intent_route classify_node was_spoken_to normalize_node with_input
    classify_intent load_cart_node agent_node after_agent take_answer answered last_calls
    conversation tools_node put same is_blank trim add_result merge merged run_calls cart_view_of
    after_tools counted finalize_node seen_lines speak start_batch write_batch normalize_lang_code
    parse_agent_reply parse_mentioned_item_keys parse_spoken_reply property read_spoken silent
    spoken_as_is usable merge_history newest normalize_transcript execute_tool_call failed_call
    io_within is_retriable only project run_search run_tool_call
looped = refl
