-- ===== src/Ordering/Graph/Remembers.antt =====
-- What a turn adds to the history (build-graph.ts, state.ts).
use voice_order_backend.Ordering.Tools.{ok_injective, AgentMessage, ok, Failure, Result-cases}
use voice_order_backend.Ordering.State.Tidy.{IsTidy, normalize_transcript-IsTidy}
use voice_order_backend.Ordering.State.{
  HistoryTurn, OrderState, merge_history, newest, last_calls, normalize_transcript, ChatResult,
  junk, service, Services, Intent,
}
use voice_order_backend.Base.{
  drop, length, ◌-◌, ◌++◌, subst, some, ◌∙◌, [], List-cases, String, List, ◌⊎◌, ◌≡◌, none, ℕ,
  Bool-cases, ◌∷◌, inl, sym, ◌||◌, arith, is_some, Option, inr, refl, zero, Option-cases, suc,
}
use voice_order_backend.Ordering.Graph.Nodes.{
  load_cart_node-cases, agent_node-cases, then_to-eq-ok, tools_node-cases,
}
use voice_order_backend.Ordering.Graph.{
  agent, speak, tools_node, answered, load_cart, visit, agent_node, load_cart_node, normalize_node,
  tools, Node, classify, after_agent, finalize, after_tools, conversation, normalize, intent_route,
  finalize_node, write_batch, classify_node, take_answer, finished, Outcome, invoke, out_of_steps,
  broken, run_from,
}

-- What stays as it was up to the last node: the history, the transcript as it was normalized, the
-- configuration.
pub record IsKept (h : List HistoryTurn) (t : String) (p : ℕ) (s : OrderState) : Type 0 where
  pub history : s.history ≡ h
  pub text : s.customer_text ≡ t
  pub pos_config_id : s.pos_config_id ≡ p

abbrev IsKeptAt : List HistoryTurn → String → ℕ → Node → OrderState → Type 0
IsKeptAt h t p normalize s =
    (s.history ≡ h) × (normalize_transcript s.customer_text ≡ t) × (s.pos_config_id ≡ p)
IsKeptAt h t p n s = IsKept h t p s

-- The last six of these entries.
abbrev pub last_six : List HistoryTurn → List HistoryTurn
last_six turns = drop (length turns - 6) turns

-- The entry of the turn is appended, or the turn was junk.
pub record IsRecorded (h : List HistoryTurn) (t : String) (p : ℕ) (s : OrderState) : Type 0 where
  pub history :
      ((s.intent ≡ junk) × (s.history ≡ h))
      ⊎ (s.history ≡ last_six (h ++ record { customer_text = t; agent_reply = s.reply } ∷ []))
  pub pos_config_id : s.pos_config_id ≡ p

abbrev IsLater : Node → Type 0
IsLater normalize = ⊥
IsLater n = Unit {0}

module _ (d : Services) (h : List HistoryTurn) (t : String) (p : ℕ) where
  abbrev IsKeptAfter : Option Node → OrderState → Type 0
  IsKeptAfter none s = IsRecorded h t p s
  IsKeptAfter (some n) s = IsKept h t p s × IsLater n

  classify-IsKept : (s : OrderState) → IsKept h t p s → IsKept h t p (classify_node d s)
  unfolding classify_node
  classify-IsKept s k = record {
    history = k.history;
    text = k.text;
    pos_config_id = k.pos_config_id;
  }

  load_cart-IsKept :
      (s s' : OrderState) → load_cart_node d s ≡ ok s' → IsKept h t p s → IsKept h t p s'
  load_cart-IsKept s s' e k =
      let (items, c, q) = load_cart_node-cases d s s' e in
      rw q (record { history = k.history; text = k.text; pos_config_id = k.pos_config_id })

  take_answer-IsKept :
      (messages : List AgentMessage) (res : ChatResult) (s : OrderState)
      → IsKept h t p s
      → IsKept h t p (take_answer d messages res s)
  unfolding take_answer answered speak
  take_answer-IsKept messages res s k = ground (arith, k.history, k.text, k.pos_config_id)

  agent-IsKept : (s s' : OrderState) → agent_node d s ≡ ok s' → IsKept h t p s → IsKept h t p s'
  agent-IsKept s s' e k = elim (agent_node-cases d s s' e) [
    | inl (b, q) ↦
        rw q (record { history = k.history; text = k.text; pos_config_id = k.pos_config_id })
    | inr (b, (res, q)) ↦ rw q (take_answer-IsKept (conversation d s) res s k)
  ]

  tools-IsKept : (s s' : OrderState) → tools_node d s ≡ ok s' → IsKept h t p s → IsKept h t p s'
  unfolding write_batch
  tools-IsKept s s' e k =
      let (b, r, q) = tools_node-cases d s s' e in
      rw q (record { history = k.history; text = k.text; pos_config_id = k.pos_config_id })

  -- The edges out of the nodes in the middle of a turn: to END only from a junk label.
  to-some :
      (s : OrderState) (n : Node) (o : Option Node)
      → some n ≡ o
      → IsLater n
      → IsKept h t p s
      → IsKeptAfter o s
  to-some s n o e l k = subst (λ x. IsKeptAfter x s) e (k, l)

  route-IsKeptAfter :
      (s : OrderState) (i : Intent) → s.intent ≡ i → IsKept h t p s → IsKeptAfter (intent_route i) s
  unfolding intent_route
  route-IsKeptAfter s service e k = (k, tt)
  route-IsKeptAfter s junk e k = record {
    history = inl (e, k.history);
    pos_config_id = k.pos_config_id;
  }

  after_agent-some : (s : OrderState) → (n : Node) × (after_agent s ≡ some n) × IsLater n
  unfolding after_agent
  after_agent-some s = elim (Bool-cases (is_some s.failure_reason || is_some s.reply)) [
    | inl b ↦ (finalize, rw b refl, tt)
    | inr b ↦ elim (List-cases (last_calls s.agent_messages)) [
      | inl q ↦ (finalize, ground (arith, b, q), tt)
      | inr (c, cs, q) ↦ (tools, ground (arith, b, q), tt)
    ]
  ]

  after_tools-some : (s : OrderState) → (n : Node) × (after_tools s ≡ some n) × IsLater n
  unfolding after_tools
  after_tools-some s = elim (Bool-cases (is_some s.output)) [
    | inl b ↦ (finalize, rw b refl, tt)
    | inr b ↦ (agent, rw b refl, tt)
  ]

  visit-IsKeptAfter :
      (n : Node) (s s' : OrderState) (o : Option Node)
      → IsKeptAt h t p n s
      → visit d n s ≡ ok (s', o)
      → IsKeptAfter o s'
  unfolding visit normalize_node finalize_node merge_history newest
  visit-IsKeptAfter normalize s s' o k e =
      let q : (normalize_node s, some classify) ≡ (s', o) = ok_injective e in
      subst (λ x. IsKeptAfter x.1 x.0) q
        (record { history = k.0; text = k.1; pos_config_id = k.2 }, tt)
  visit-IsKeptAfter classify s s' o k e =
      let (a, b) = then_to-eq-ok (ok (classify_node d s)) (λ x. intent_route x.intent) s' o e in
      let q : classify_node d s ≡ s' = ok_injective a in
      rw⁻¹ b (route-IsKeptAfter s' s'.intent refl (subst (IsKept h t p) q (classify-IsKept s k)))
  visit-IsKeptAfter load_cart s s' o k e =
      let (a, b) = then_to-eq-ok (load_cart_node d s) (λ x. some agent) s' o e in
      to-some s' agent o b tt (load_cart-IsKept s s' a k)
  visit-IsKeptAfter agent s s' o k e =
      let (a, b) = then_to-eq-ok (agent_node d s) after_agent s' o e in
      let (n, q, l) = after_agent-some s' in to-some s' n o (sym q ∙ b) l (agent-IsKept s s' a k)
  visit-IsKeptAfter tools s s' o k e =
      let (a, b) = then_to-eq-ok (tools_node d s) after_tools s' o e in
      let (n, q, l) = after_tools-some s' in to-some s' n o (sym q ∙ b) l (tools-IsKept s s' a k)
  visit-IsKeptAfter finalize s s' o k e =
      let q : (finalize_node s, none) ≡ (s', o) = ok_injective e in
      subst (λ x. IsKeptAfter x.1 x.0) q
        (record { history = inr (rw (k.history, k.text) refl); pos_config_id = k.pos_config_id })

  later : (n : Node) (s : OrderState) → IsKept h t p s → IsLater n → IsKeptAt h t p n s
  later normalize s k l = absurd l
  later classify s k l = k
  later load_cart s k l = k
  later agent s k l = k
  later tools s k l = k
  later finalize s k l = k

  at-history : (n : Node) (s : OrderState) → IsKeptAt h t p n s → s.history ≡ h
  at-history normalize s k = k.0
  at-history classify s k = k.history
  at-history load_cart s k = k.history
  at-history agent s k = k.history
  at-history tools s k = k.history
  at-history finalize s k = k.history

  abbrev IsRemembered : Outcome → Type 0
  IsRemembered (finished s) = IsRecorded h t p s
  IsRemembered (broken s f) = s.history ≡ h
  IsRemembered out_of_steps = Unit {0}

  run_from-IsRemembered :
      (limit : ℕ) (n : Node) (s : OrderState)
      → IsKeptAt h t p n s
      → IsRemembered (run_from d limit n s)
  unfolding run_from
  run_from-IsRemembered zero n s k = tt
  run_from-IsRemembered (suc limit) n s k = elim (Result-cases (visit d n s)) [
    | inl (f, q) ↦ rw (q, run_from) (at-history n s k)
    | inr ((s', o), q) ↦
        let v = visit-IsKeptAfter n s s' o k q in
        elim (Option-cases o) [
          | inl e ↦ rw (q, run_from, e) (subst (λ x. IsKeptAfter x s') e v)
          | inr (n', e) ↦
              let v' = subst (λ x. IsKeptAfter x s') e v in
              rw (q, run_from, e) (run_from-IsRemembered limit n' s' (later n' s' v'.0 v'.1))
        ]
  ]

module _ (d : Services) (s s' : OrderState) where
  pub invoke-IsRecorded :
      invoke d s ≡ finished s'
      → IsRecorded s.history (normalize_transcript s.customer_text) s.pos_config_id s'
  unfolding invoke
  invoke-IsRecorded e =
      subst (IsRemembered d s.history (normalize_transcript s.customer_text) s.pos_config_id) e (
        run_from-IsRemembered d s.history (normalize_transcript s.customer_text) s.pos_config_id
          d.recursion_limit normalize s (refl, refl, refl))

  -- A turn that runs to its end either was labelled junk, and its history is as it was, or it appends
  -- one entry, and its history is the last six entries of what this makes. The entry is the reply that
  -- the turn spoke, if it spoke, with the text of its transcript: the same characters other than white
  -- space, in order, and between them no white space but single blanks. The turn keeps its
  -- configuration.
  pub invoke-remembers :
      invoke d s ≡ finished s'
      → (text : String) × IsTidy s.customer_text text × IsRecorded s.history text s.pos_config_id s'
  invoke-remembers e = (
    normalize_transcript s.customer_text,
    normalize_transcript-IsTidy s.customer_text,
    invoke-IsRecorded e,
  )

  -- A turn in which a node throws leaves the history as it was.
  pub invoke-broken : (f : Failure) → invoke d s ≡ broken s' f → s'.history ≡ s.history
  unfolding invoke
  invoke-broken f e =
      subst (IsRemembered d s.history (normalize_transcript s.customer_text) s.pos_config_id) e (
        run_from-IsRemembered d s.history (normalize_transcript s.customer_text) s.pos_config_id
          d.recursion_limit normalize s (refl, refl, refl))
