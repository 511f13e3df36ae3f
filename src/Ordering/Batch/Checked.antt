-- ===== src/Ordering/Batch/Checked.antt =====
-- The proposal that a batch of tool calls leaves has passed the checks (run-tools.ts).
use voice_order_backend.Ordering.Batch.{add_result, Batch, run_calls}
use voice_order_backend.Ordering.Mentioned.{MentionedItem}
use voice_order_backend.Ordering.Reply.{property, Json}
use voice_order_backend.Contracts.{CartOperation}
use voice_order_backend.Base.{
  length, true, inl, is_some, ◌<◌, some, List-cases, ◌∷◌, inr, Option, [], List, arith, ◌≡◌,
  some_injective, same, refl, String, Option-cases, subst, Bool-cases, ℕ, suc,
}
use voice_order_backend.Ordering.Tools.Added.{AddsOne, violations_of-AddsOne}
use voice_order_backend.Ordering.Tools.{
  Result-cases, invalid_operations, only, Tooling, no_operations, violated, Content, Turn,
  violations_of, parsed, check_proposal, run_propose, ok, run_search, Parsed-cases, ToolExecResult,
  accept, execute_tool_call, failed_call, Failure, ToolCall, ok_injective, unknown_tool,
  run_tool_call,
}

-- The operations come from the schema, there are some, they pass the check of the required groups, and what
-- they add has one option of each.
pub record IsChecked (t : Tooling) (s : Turn) (ops : List CartOperation) : Type 0 where
  pub arguments : Option Json
  pub valid : t.operations_schema arguments ≡ parsed ops
  pub nonempty : 0 < length ops
  pub clean : violations_of t s ops ≡ []
  pub one_option : AddsOne t s.pos_config_id ops

pub record IsSound (t : Tooling) (s : Turn) (r : ToolExecResult) : Type 0 where
  pub checked : (ops : List CartOperation) → r.output ≡ some ops → IsChecked t s ops
  pub spoken : is_some r.reply ≡ true → is_some r.output ≡ true

module _ (t : Tooling) (s : Turn) where
  only-IsSound : (c : Content) → IsSound t s (only c)
  unfolding only
  only-IsSound c = ground arith

  check_proposal-IsSound :
      (arguments : Json) (ops : List CartOperation)
      → t.operations_schema (property "operations" arguments) ≡ parsed ops
      → IsSound t s (check_proposal t s arguments ops)
  unfolding check_proposal accept
  check_proposal-IsSound arguments [] h = only-IsSound no_operations
  check_proposal-IsSound arguments (o ∷ ops) h = elim (List-cases (violations_of t s (o ∷ ops))) [
    | inl e ↦
        rw (e, check_proposal)
          (record {
            checked = λ ops' p.
                let q : (o ∷ ops) ≡ ops' = some_injective p in
                subst (IsChecked t s) q (record {
                  arguments = property "operations" arguments;
                  valid = h;
                  nonempty = omega arith;
                  clean = e;
                  one_option = violations_of-AddsOne t s (o ∷ ops) e;
                });
            spoken = λ q. refl;
          })
    | inr (v, vs, e) ↦ rw (e, check_proposal) (only-IsSound (violated (v ∷ vs)))
  ]

  run_propose-IsSound : (arguments : Json) → IsSound t s (run_propose t s arguments)
  unfolding run_propose
  run_propose-IsSound arguments =
      elim (Parsed-cases (t.operations_schema (property "operations" arguments))) [
        | inl (m, e) ↦ rw (e, run_propose) (only-IsSound (invalid_operations m))
        | inr (ops, e) ↦ rw (e, run_propose) (check_proposal-IsSound arguments ops e)
      ]

  run_search-IsSound :
      (arguments : Json) (r : ToolExecResult) → run_search t s arguments ≡ ok r → IsSound t s r
  unfolding run_search only
  run_search-IsSound arguments r h = elim (Parsed-cases (t.search_args arguments)) [
    | inl (m, e) ↦ ground (arith, e, h)
    | inr (a, e) ↦ elim (Result-cases (t.search_menu s.pos_config_id a)) [
      | inl (f, q) ↦ ground (arith, e, q, h)
      | inr (items, q) ↦ ground (arith, e, q, h)
    ]
  ]

  run_tool_call-IsSound :
      (call : ToolCall) (r : ToolExecResult) → run_tool_call t s call ≡ ok r → IsSound t s r
  unfolding run_tool_call
  run_tool_call-IsSound call r h = elim (Bool-cases (same call.name "search_menu")) [
    | inl b ↦ run_search-IsSound call.arguments r (ground (arith, b, h))
    | inr b ↦ elim (Bool-cases (same call.name "propose_cart")) [
      | inl b' ↦
          let q : run_propose t s call.arguments ≡ r = ground (arith, b, b', h) in
          subst (IsSound t s) q (run_propose-IsSound call.arguments)
      | inr b' ↦
          let q : only (unknown_tool call.name) ≡ r = ground (arith, b, b', h) in
          subst (IsSound t s) q (only-IsSound (unknown_tool call.name))
    ]
  ]

  failed_call-IsSound : (name : String) (e : Failure) → IsSound t s (failed_call name e)
  unfolding failed_call only
  failed_call-IsSound name e = ground arith

  pub execute_tool_call-IsSound :
      (call : ToolCall) (r : ToolExecResult) → execute_tool_call t s call ≡ ok r → IsSound t s r
  unfolding execute_tool_call
  execute_tool_call-IsSound call r h = elim (Result-cases (run_tool_call t s call)) [
    | inl (e, q) ↦
        let p : failed_call call.name e ≡ r = ground (arith, h, q) in
        subst (IsSound t s) p (failed_call-IsSound call.name e)
    | inr (r', q) ↦ run_tool_call-IsSound call r (ground (arith, h, q))
  ]

-- A batch whose proposal, if it has one, passed the checks of some call, and that speaks only with one.
pub record IsSoundBatch (t : ℕ → Tooling) (s : Turn) (b : Batch) : Type 0 where
  pub checked : (ops : List CartOperation) → b.output ≡ some ops → (i : ℕ) × IsChecked (t i) s ops
  pub spoken : is_some b.reply ≡ true → is_some b.output ≡ true

module _ (t : ℕ → Tooling) (s : Turn) (known : List (String × MentionedItem)) where
  add_result-IsSoundBatch :
      (i : ℕ) (id : String) (b : Batch) (r : ToolExecResult)
      → IsSound (t i) s r
      → IsSoundBatch t s b
      → IsSoundBatch t s (add_result known id b r)
  unfolding add_result
  add_result-IsSoundBatch i id b r h v = record {
    checked = λ ops p. elim (Option-cases r.output) [
      | inl e ↦ v.checked ops (ground (arith, e, p))
      | inr (o, e) ↦ (i, h.checked ops (ground (arith, e, p)))
    ];
    spoken = λ p. ground (arith, h.spoken, v.spoken, p);
  }

  pub run_calls-IsSoundBatch :
      (i : ℕ) (calls : List ToolCall) (b b' : Batch)
      → run_calls t s known i calls b ≡ ok b'
      → IsSoundBatch t s b
      → IsSoundBatch t s b'
  unfolding run_calls
  run_calls-IsSoundBatch i [] b b' h v = subst (IsSoundBatch t s) (ok_injective h) v
  run_calls-IsSoundBatch i (call ∷ calls) b b' h v =
      elim (Result-cases (execute_tool_call (t i) s call)) [
        | inl (e, q) ↦ ground (arith, h, q)
        | inr (r, q) ↦
            run_calls-IsSoundBatch (suc i) calls (add_result known call.id b r) b'
              (ground (arith, h, q))
              (add_result-IsSoundBatch i call.id b r (execute_tool_call-IsSound (t i) s call r q) v)
      ]
