-- ===== src/Ordering/Graph/Nodes.antt =====
-- What the nodes of a turn write, on every branch (build-graph.ts).
use voice_order_backend.Menu.{MenuItem}
use voice_order_backend.Ordering.Batch.{Batch, run_calls}
use voice_order_backend.Ordering.CartView.{distinct_ids, cart_view_of}
use voice_order_backend.Cart.{Cart}
use voice_order_backend.Ordering.Tools.{Result, AgentMessage, ok, err, Result-cases, ok_injective}
use voice_order_backend.Base.{
  List, ◌<◌, ◌∷◌, [], some, ltb, inl, ◌⊎◌, Bool-cases, refl, ◌≤◌, ◌++◌, inr, ◌+◌, sym, ap, ◌≡◌,
  Option, ◌∙◌, arith,
}
use voice_order_backend.Ordering.State.{Services, calls_of, OrderState, last_calls, ChatResult}
use voice_order_backend.Ordering.Graph.{
  conversation, agent_node, Node, take_answer, then_to, start_batch, tools_node, cart_or_empty,
  answered, load_cart_node, write_batch, speak, turn_of,
}

pub then_to-eq-ok :
    (r : Result OrderState) (edge : OrderState → Option Node) (s : OrderState) (o : Option Node)
    → then_to r edge ≡ ok (s, o)
    → (r ≡ ok s) × (edge s ≡ o)
unfolding then_to
then_to-eq-ok (err e) edge s o h = absurd (cc)
then_to-eq-ok (ok t) edge s o h =
    let p = ok_injective h in
    let q : t ≡ s = ap (λ x. x.0) p in (ap ok q, ap edge (sym q) ∙ ap (λ x. x.1) p)

pub last_calls-append :
    (ms : List AgentMessage) (m : AgentMessage) → last_calls (ms ++ m ∷ []) ≡ calls_of m
unfolding last_calls
last_calls-append [] m = refl
last_calls-append (a ∷ []) m = refl
last_calls-append (a ∷ b ∷ ms) m = last_calls-append (b ∷ ms) m

module _ (d : Services) (s : OrderState) where
  -- The agent gives up, or takes the model's answer.
  pub agent_node-cases :
      (s' : OrderState)
      → agent_node d s ≡ ok s'
      → ((8 ≤ s.agent_steps) × (s' ≡ record s { failure_reason = some "agent_step_limit" }))
        ⊎ ((s.agent_steps < 8)
            × ((res : ChatResult) × (s' ≡ take_answer d (conversation d s) res s)))
  unfolding agent_node
  agent_node-cases s' h = elim (Bool-cases (ltb 8 (s.agent_steps + 1))) [
    | inl b ↦ inl (ground (arith, b), ground (arith, b, h))
    | inr b ↦ elim (Result-cases (d.chat (s.agent_steps + 1) (conversation d s))) [
      | inl (e, q) ↦ ground (arith, b, h, q)
      | inr (res, q) ↦ inr (ground (arith, b), (res, ground (arith, b, h, q)))
    ]
  ]

  pub tools_node-cases :
      (s' : OrderState)
      → tools_node d s ≡ ok s'
      → (b : Batch) × (run_calls
            (d.tooling s.agent_steps)
            (turn_of s)
            s.search_results
            0
            (last_calls s.agent_messages)
            (start_batch s)
          ≡ ok b)
        × (s' ≡ write_batch s b)
  unfolding tools_node
  tools_node-cases s' h =
      elim (Result-cases (
        run_calls (d.tooling s.agent_steps) (turn_of s) s.search_results 0
          (last_calls s.agent_messages) (start_batch s))) [
            | inl (e, q) ↦ ground (arith, h, q)
            | inr (b, q) ↦ (b, q, ground (arith, h, q))
          ]

  pub load_cart_node-cases :
      (s' : OrderState)
      → load_cart_node d s ≡ ok s'
      → (items : List MenuItem) × (c : Cart) × (s'
          ≡ record s { cart_view = some (cart_view_of items c); base_version = c.version })
  unfolding load_cart_node
  load_cart_node-cases s' h = elim (Result-cases (d.cached_cart s.cart_id)) [
    | inl (e, q) ↦ ground (arith, h, q)
    | inr (cached, q) ↦
        let c = cart_or_empty d s cached in
        elim (Result-cases (d.get_items c.pos_config_id (distinct_ids [] c.items))) [
          | inl (e, q') ↦ ground (arith, h, q, q')
          | inr (items, q') ↦ (items, c, ground (arith, h, q, q'))
        ]
  ]

  -- What an answer of the model leaves as it was.
  pub take_answer-keeps :
      (messages : List AgentMessage) (res : ChatResult)
      → ((take_answer d messages res s).agent_steps ≡ s.agent_steps + 1)
        × ((take_answer d messages res s).cart_view ≡ s.cart_view)
        × ((take_answer d messages res s).base_version ≡ s.base_version)
        × ((take_answer d messages res s).output ≡ s.output)
        × ((take_answer d messages res s).history ≡ s.history)
  unfolding take_answer answered speak
  take_answer-keeps messages res = ground arith
