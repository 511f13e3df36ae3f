-- ===== src/Ordering/Graph/Ends.antt =====
-- A turn ends before the recursion limit (build-graph.ts).
use voice_order_backend.Ordering.Tools.{ok, ok_injective, Result-cases}
use voice_order_backend.Ordering.State.{OrderState, Services}
use voice_order_backend.Ordering.Graph.Nodes.{
  take_answer-keeps, agent_node-cases, tools_node-cases, load_cart_node-cases, then_to-eq-ok,
}
use voice_order_backend.Ordering.Graph.{
  run_from, Node, visit, agent_node, out_of_steps, conversation, normalize_node, write_batch, agent,
  tools_node, normalize, after_agent, classify, classify_node, intent_route, finalize, tools,
  after_tools, load_cart, load_cart_node, invoke,
}
use voice_order_backend.Base.{
  ◌+◌, Option-cases, inl, ◌≡◌, some, arith, ◌≤◌, zero, inr, suc, ℕ, ◌-◌, ◌<◌, ◌*◌,
}

-- How many nodes a turn may still visit, this one included.
abbrev pub needs : Node → OrderState → ℕ
needs normalize s = 21
needs classify s = 2 * (8 - s.agent_steps) + 4
needs load_cart s = 2 * (8 - s.agent_steps) + 3
needs agent s = 2 * (8 - s.agent_steps) + 2
needs tools s = 2 * (8 - s.agent_steps) + 3
needs finalize s = 1

module _ (d : Services) where
  -- The next node needs less.
  visit-needs :
      (n n' : Node) (s s' : OrderState) → visit d n s ≡ ok (s', some n') → needs n' s' < needs n s
  unfolding visit normalize_node classify_node intent_route after_agent after_tools write_batch
  visit-needs normalize n' s s' h = ground (arith, ok_injective h)
  visit-needs classify n' s s' h =
      ground
        (arith, then_to-eq-ok (ok (classify_node d s)) (λ t. intent_route t.intent) s' (some n') h)
  visit-needs load_cart n' s s' h =
      let (a, b) = then_to-eq-ok (load_cart_node d s) (λ t. some agent) s' (some n') h in
      let (items, c, q) = load_cart_node-cases d s s' a in ground (arith, b, q)
  visit-needs agent n' s s' h =
      let (a, b) = then_to-eq-ok (agent_node d s) after_agent s' (some n') h in
      elim (agent_node-cases d s s' a) [
        | inl (k, q) ↦ ground (arith, b, k, q)
        | inr (k, (res, q)) ↦ ground (arith, b, k, q, take_answer-keeps d s (conversation d s) res)
      ]
  visit-needs tools n' s s' h =
      let (a, b) = then_to-eq-ok (tools_node d s) after_tools s' (some n') h in
      let (c, p, q) = tools_node-cases d s s' a in ground (arith, b, q)
  visit-needs finalize n' s s' h = ground (arith, ok_injective h)

  needs-pos : (n : Node) (s : OrderState) → 1 ≤ needs n s
  needs-pos normalize s = omega arith
  needs-pos classify s = omega arith
  needs-pos load_cart s = omega arith
  needs-pos agent s = omega arith
  needs-pos tools s = omega arith
  needs-pos finalize s = omega arith

  pub run_from-ends :
      (limit : ℕ) (n : Node) (s : OrderState)
      → needs n s ≤ limit
      → ¬ (run_from d limit n s ≡ out_of_steps)
  unfolding run_from
  run_from-ends zero n s h e = ground (arith, needs-pos n s)
  run_from-ends (suc limit) n s h e = elim (Result-cases (visit d n s)) [
    | inl (f, q) ↦ ground (arith, e, q)
    | inr ((s', o), q) ↦ elim (Option-cases o) [
      | inl p ↦ ground (arith, e, q, p)
      | inr (n', p) ↦
          let q' : visit d n s ≡ ok (s', some n') = rw⁻¹ p q in
          run_from-ends limit n' s' (omega (arith, visit-needs n n' s s' q', h))
            (ground (arith, e, q'))
    ]
  ]

  -- Where the graph library allows at least 21 nodes, a turn ends before that limit, whatever the
  -- model, the tools, the cart cache and the menu answer: it visits at most 21 nodes.
  pub invoke-ends : (s : OrderState) → 21 ≤ d.recursion_limit → ¬ (invoke d s ≡ out_of_steps)
  unfolding invoke
  invoke-ends s h = run_from-ends d.recursion_limit normalize s h
