-- ===== src/Ordering/Graph/Decides.antt =====
-- How a turn ends: with a proposal that passed the checks, with a reply, or with a reason
-- (build-graph.ts).
use voice_order_backend.Ordering.Reply.{parse_spoken_reply, AgentReply}
use voice_order_backend.Ordering.Batch.Checked.{IsChecked}
use voice_order_backend.Ordering.CartView.{CartView, cart_view_of}
use voice_order_backend.Ordering.State.{
  junk, OrderState, Services, service, last_calls, ChatResult, Intent,
}
use voice_order_backend.Ordering.Graph.Nodes.{load_cart_node-cases, last_calls-append}
use voice_order_backend.Contracts.{CartOperation}
use voice_order_backend.Ordering.Tools.{ok, AgentMessage, assistant, ToolCall}
use voice_order_backend.Base.{
  some, inr, none, Option, arith, true, inl, refl, ◌≡◌, ◌||◌, is_some, ◌⊎◌, ℕ, List, List-cases,
  Option-cases, ◌∷◌, ◌∙◌,
}
use voice_order_backend.Ordering.Graph.{
  load_cart, turn_of, Node, tools, normalize, classify_node, classify, finalize, normalize_node,
  agent, load_cart_node, intent_route, answered, take_answer, speak, after_agent,
}

-- Nothing has ended the turn.
pub record IsOpen (s : OrderState) : Type 0 where
  pub failure : s.failure_reason ≡ none
  pub reply : s.reply ≡ none
  pub output : s.output ≡ none

-- The version that the turn hands on is that of the cart that it saw.
pub record IsLoaded (s : OrderState) : Type 0 where
  pub routed : s.intent ≡ service
  pub view : CartView
  pub there : s.cart_view ≡ some view
  pub version : view.version ≡ s.base_version

-- The turn has ended, in one way, and a proposal has passed the checks against the cart of the turn.
pub record IsDecided (d : Services) (s : OrderState) : Type 0 where
  pub ended : (is_some s.failure_reason || is_some s.reply || is_some s.output) ≡ true
  pub failed : is_some s.failure_reason ≡ true → (s.reply ≡ none) × (s.output ≡ none)
  pub checked :
      (ops : List CartOperation)
      → s.output ≡ some ops
      → (n : ℕ) × (i : ℕ) × IsChecked (d.tooling n i) (turn_of s) ops

abbrev pub IsAt : Services → Node → OrderState → Type 0
IsAt d normalize s = Unit {0}
IsAt d classify s = IsOpen s
IsAt d load_cart s = IsOpen s × (s.intent ≡ service)
IsAt d agent s = IsOpen s × IsLoaded s
IsAt d tools s = IsOpen s × IsLoaded s
IsAt d finalize s = IsDecided d s × IsLoaded s

-- A turn that is over.
abbrev pub IsOver : Services → OrderState → Type 0
IsOver d s = (IsOpen s × (s.intent ≡ junk)) ⊎ (IsDecided d s × IsLoaded s)

abbrev pub IsAfter : Services → Option Node → OrderState → Type 0
IsAfter d none s = IsOver d s
IsAfter d (some n) s = IsAt d n s

module _ (d : Services) (s : OrderState) where
  pub normalize-IsOpen : IsOpen (normalize_node s)
  unfolding normalize_node
  normalize-IsOpen = ground arith

  pub route-IsAfter : (i : Intent) → s.intent ≡ i → IsOpen s → IsAfter d (intent_route i) s
  unfolding intent_route
  route-IsAfter service e o = (o, e)
  route-IsAfter junk e o = inl (o, e)

  pub load_cart-IsAt :
      (s' : OrderState) → IsAt d load_cart s → load_cart_node d s ≡ ok s' → IsAt d agent s'
  unfolding cart_view_of
  load_cart-IsAt s' (o, r) h =
      let (items, c, q) = load_cart_node-cases d s s' h in
      rw q (
        record { failure = o.failure; reply = o.reply; output = o.output },
        record { routed = r; view = cart_view_of items c; there = refl; version = refl },
      )

  speak-IsDecided : (r : AgentReply) → IsOpen s → IsDecided d (speak r s)
  unfolding speak
  speak-IsDecided r o = elim (Option-cases r.reply) [
    | inl e ↦
        rw (e, speak)
          (record {
            ended = refl;
            failed = λ q. (o.reply, o.output);
            checked = λ ops p. ground (arith, o.output, p);
          })
    | inr (t, e) ↦
        rw (e, speak)
          (record {
            ended = ground (arith);
            failed = λ q. ground (arith, o.failure, q);
            checked = λ ops p. ground (arith, o.output, p);
          })
  ]

  speak-after : (r : AgentReply) → after_agent (speak r s) ≡ some finalize
  unfolding speak after_agent
  speak-after r = ground arith

  speak-IsLoaded : (r : AgentReply) → IsLoaded s → IsLoaded (speak r s)
  unfolding speak
  speak-IsLoaded r l = elim (Option-cases r.reply) [
    | inl e ↦
        rw (e, speak)
          (record { routed = l.routed; view = l.view; there = l.there; version = l.version })
    | inr (t, e) ↦
        rw (e, speak)
          (record { routed = l.routed; view = l.view; there = l.there; version = l.version })
  ]

  pub give_up-IsAfter :
      IsAt d agent s
      → IsAfter d
          (after_agent (record s { failure_reason = some "agent_step_limit" }))
          (record s { failure_reason = some "agent_step_limit" })
  unfolding after_agent
  give_up-IsAfter (o, l) = (
    record {
      ended = refl;
      failed = λ q. (o.reply, o.output);
      checked = λ ops p. ground (arith, o.output, p);
    },
    record { routed = l.routed; view = l.view; there = l.there; version = l.version },
  )

  pub classify-IsOpen : IsOpen s → IsOpen (classify_node d s)
  unfolding classify_node
  classify-IsOpen o = record { failure = o.failure; reply = o.reply; output = o.output }

module _ (d : Services) (s : OrderState) (messages : List AgentMessage) (res : ChatResult) where
  answered-IsAt : IsAt d agent s → IsAt d tools (answered messages res s)
  unfolding answered
  answered-IsAt (o, l) = (
    record { failure = o.failure; reply = o.reply; output = o.output },
    record { routed = l.routed; view = l.view; there = l.there; version = l.version },
  )

  answered-calls : last_calls (answered messages res s).agent_messages ≡ res.tool_calls
  unfolding answered
  answered-calls = last_calls-append messages (assistant res.content res.tool_calls)

  asks_for_tools :
      (c : ToolCall) (cs : List ToolCall)
      → IsOpen (answered messages res s)
      → last_calls (answered messages res s).agent_messages ≡ c ∷ cs
      → after_agent (answered messages res s) ≡ some tools
  unfolding after_agent
  asks_for_tools c cs o e = ground (arith, o.failure, o.reply, e)

  pub take_answer-IsAfter :
      IsAt d agent s
      → IsAfter d (after_agent (take_answer d messages res s)) (take_answer d messages res s)
  unfolding take_answer
  take_answer-IsAfter h =
      let s' = answered messages res s in
      let r = parse_spoken_reply d.parse_json res.content in
      let h' = answered-IsAt h in
      elim (List-cases res.tool_calls) [
        | inl e ↦
            rw (e, take_answer, speak-after d s' r)
              (speak-IsDecided d s' r h'.0, speak-IsLoaded d s' r h'.1)
        | inr (c, cs, e) ↦
            let q : after_agent s' ≡ some tools = asks_for_tools c cs h'.0 (answered-calls ∙ e) in
            rw (e, take_answer, q) h'
      ]
