-- ===== src/Ordering/Graph.antt =====
-- One turn of the ordering agent: the nodes and edges of src/ordering/graph/build-graph.ts.
use voice_order_backend.Ordering.Required.{LineView}
use voice_order_backend.Ordering.Mentioned.{resolve_mentioned_items}
use voice_order_backend.Ordering.Batch.{Batch, or_keep, run_calls}
use voice_order_backend.Ordering.Reply.{parse_spoken_reply, AgentReply}
use voice_order_backend.Cart.{empty_cart, Cart}
use voice_order_backend.Ordering.Usage.{TurnUsage, zero_turn_usage, add_usage, LlmUsage}
use voice_order_backend.Ordering.CartView.{CartView, distinct_ids, line_views, cart_view_of}
use voice_order_backend.Ordering.State.{
  classify_intent, merge_history, max_history_turns, junk, ChatResult, max_agent_steps, Services,
  OrderState, service, last_calls, Intent, was_spoken_to, normalize_transcript,
}
use voice_order_backend.Ordering.Tools.{ok, err, AgentMessage, assistant, Failure, Result, Turn}
use voice_order_backend.Base.{
  none, is_some, ◌||◌, ◌++◌, ◌∷◌, [], Option, if◌then◌else◌, some, ◌+◌, or_else, ltb, suc, ℕ, zero,
  List, if◌then◌else◌,
}
pub mod Nodes
pub mod Ends
pub mod Decides
pub mod Endings
pub mod Remembers

pub data Node : Type 0 where
  normalize classify load_cart agent tools finalize : Node

unfoldable pub normalize_node : OrderState → OrderState
normalize_node s = record s {
  customer_text = normalize_transcript s.customer_text;
  output = none;
  reply = none;
  reply_language = none;
  agent_messages = [];
  agent_steps = 0;
  search_results = [];
  mentioned_items = [];
  token_usage = zero_turn_usage;
  failure_reason = none;
}

unfoldable pub classify_node : Services → OrderState → OrderState
classify_node d s = record s {
  intent = if was_spoken_to s.history then service else classify_intent d s.customer_text;
}

-- `loadCart`: the cached cart, or an empty one.
pub cart_or_empty : Services → OrderState → Option Cart → Cart
cart_or_empty d s (some c) = c
cart_or_empty d s none = empty_cart s.cart_id s.pos_config_id none none d.now

unfoldable pub load_cart_node : Services → OrderState → Result OrderState
load_cart_node d s = elim (d.cached_cart s.cart_id) [
  | err e ↦ err e
  | ok cached ↦
      let c = cart_or_empty d s cached in
      elim (d.get_items c.pos_config_id (distinct_ids [] c.items)) [
        | err e ↦ err e
        | ok items ↦
            ok (record s { cart_view = some (cart_view_of items c); base_version = c.version })
      ]
]

unfoldable pub counted : TurnUsage → Option LlmUsage → TurnUsage
counted total none = total
counted total (some u) = add_usage total u

-- `s.agent_messages.length === 0 ? seedMessages(s) : s.agent_messages`
unfoldable pub conversation : Services → OrderState → List AgentMessage
conversation d s = elim s.agent_messages [
  | [] ↦ d.seed s.customer_text s.cart_view s.history
  | m ∷ ms ↦ m ∷ ms
]

-- What every answer of the model writes.
unfoldable pub answered : List AgentMessage → ChatResult → OrderState → OrderState
answered messages res s = record s {
  agent_messages = messages ++ assistant res.content res.tool_calls ∷ [];
  agent_steps = s.agent_steps + 1;
  token_usage = counted s.token_usage res.usage;
}

-- An answer without tool calls ends the turn.
unfoldable pub speak : AgentReply → OrderState → OrderState
speak r s = elim r.reply [
  | none ↦ record s { failure_reason = some "agent_no_terminal" }
  | some t ↦ record s {
    reply = some t;
    reply_language = or_keep r.language s.reply_language;
    mentioned_items = resolve_mentioned_items r.mentioned_items s.search_results;
  }
]

unfoldable pub take_answer : Services → List AgentMessage → ChatResult → OrderState → OrderState
take_answer d messages res s = elim res.tool_calls [
  | [] ↦ speak (parse_spoken_reply d.parse_json res.content) (answered messages res s)
  | c ∷ cs ↦ answered messages res s
]

unfoldable pub agent_node : Services → OrderState → Result OrderState
agent_node d s =
    if ltb max_agent_steps (s.agent_steps + 1)
    then ok (record s { failure_reason = some "agent_step_limit" })
    else (let messages = conversation d s in
        elim (d.chat (s.agent_steps + 1) messages) [
          | err e ↦ err e
          | ok res ↦ ok (take_answer d messages res s)
        ])

-- The patch of `runTools`.
unfoldable pub write_batch : OrderState → Batch → OrderState
write_batch s b = record s {
  agent_messages = s.agent_messages ++ b.messages;
  output = b.output;
  reply = or_keep b.reply s.reply;
  reply_language = or_keep b.reply_language s.reply_language;
  search_results = or_else b.search_results s.search_results;
  mentioned_items = or_else b.mentioned_items s.mentioned_items;
}

unfoldable pub start_batch : OrderState → Batch
start_batch s = record {
  messages = [];
  output = s.output;
  reply = none;
  reply_language = none;
  search_results = none;
  mentioned_items = none;
}

-- The lines of the turn's cart.
unfoldable pub seen_lines : Option CartView → Option (List LineView)
seen_lines none = none
seen_lines (some v) = some (line_views v)

-- What the tools read of the state.
abbrev pub turn_of : OrderState → Turn
turn_of s = record { pos_config_id = s.pos_config_id; cart_view = seen_lines s.cart_view }

unfoldable pub tools_node : Services → OrderState → Result OrderState
tools_node d s =
    elim (run_calls (d.tooling s.agent_steps) (turn_of s) s.search_results 0
      (last_calls s.agent_messages) (start_batch s)) [ err e ↦ err e | ok b ↦ ok (write_batch s b) ]

unfoldable pub finalize_node : OrderState → OrderState
finalize_node s = record s {
  history =
      merge_history s.history
        (record { customer_text = s.customer_text; agent_reply = s.reply } ∷ []) max_history_turns;
}

-- INTENT_ROUTE; `none` is END.
unfoldable pub intent_route : Intent → Option Node
intent_route service = some load_cart
intent_route junk = none

unfoldable pub after_agent : OrderState → Option Node
after_agent s =
    if is_some s.failure_reason || is_some s.reply
    then some finalize
    else elim (last_calls s.agent_messages) [ [] ↦ some finalize | c ∷ cs ↦ some tools ]

unfoldable pub after_tools : OrderState → Option Node
after_tools s = if is_some s.output then some finalize else some agent

-- What a node wrote, and the edge that leaves it.
unfoldable pub then_to :
    Result OrderState → (OrderState → Option Node) → Result (OrderState × Option Node)
then_to (err e) edge = err e
then_to (ok s) edge = ok (s, edge s)

unfoldable pub visit : Services → Node → OrderState → Result (OrderState × Option Node)
visit d normalize s = ok (normalize_node s, some classify)
visit d classify s = then_to (ok (classify_node d s)) (λ s'. intent_route s'.intent)
visit d load_cart s = then_to (load_cart_node d s) (λ s'. some agent)
visit d agent s = then_to (agent_node d s) after_agent
visit d tools s = then_to (tools_node d s) after_tools
visit d finalize s = ok (finalize_node s, none)

-- A run of the graph: the state at its end, or the state that the last finished node left and what the
-- next one threw, or the limit on the number of nodes.
pub data Outcome : Type 0 where
  finished : OrderState → Outcome
  broken : OrderState → Failure → Outcome
  out_of_steps : Outcome

unfoldable pub run_from : Services → ℕ → Node → OrderState → Outcome
run_from d zero n s = out_of_steps
run_from d (suc limit) n s = elim (visit d n s) [
  | err e ↦ broken s e
  | ok (s', none) ↦ finished s'
  | ok (s', some n') ↦ run_from d limit n' s'
]

unfoldable pub invoke : Services → OrderState → Outcome
invoke d s = run_from d d.recursion_limit normalize s
