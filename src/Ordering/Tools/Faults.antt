-- ===== src/Ordering/Tools/Faults.antt =====
-- Which errors of a tool call leave the turn (run-tools.ts).
use voice_order_backend.Ordering.Batch.{run_calls, add_result, Batch}
use voice_order_backend.Ordering.Mentioned.{MentionedItem}
use voice_order_backend.Base.{
  suc, String, inl, ◌∷◌, false, arith, List, inr, ◌≡◌, ℕ, [], subst, Bool-cases,
}
use voice_order_backend.Ordering.Tools.{
  is_retriable, Tooling, Failure, Result-cases, execute_tool_call, err, io_within, Turn, bug_shaped,
  ToolCall, run_tool_call,
}

not_retriable :
    (f : Failure) → is_retriable f ≡ false → (f.kind ≡ bug_shaped) × (io_within 5 f.detail ≡ false)
unfolding is_retriable
not_retriable f h = ground (arith, h)

execute_tool_call-err :
    (t : Tooling) (s : Turn) (call : ToolCall) (f : Failure)
    → execute_tool_call t s call ≡ err f
    → (f.kind ≡ bug_shaped) × (io_within 5 f.detail ≡ false)
unfolding execute_tool_call
execute_tool_call-err t s call f h = elim (Result-cases (run_tool_call t s call)) [
  | inr (r, q) ↦ ground (arith, h, q)
  | inl (g, q) ↦ elim (Bool-cases (is_retriable g)) [
    | inl b ↦ ground (arith, h, q, b)
    | inr b ↦
        let p : g ≡ f = ground (arith, h, q, b) in
        subst (λ x. (x.kind ≡ bug_shaped) × (io_within 5 x.detail ≡ false)) p (not_retriable g b)
  ]
]

-- A batch of tool calls throws only on a programming error: one of the error types that name one, and
-- with no status and no error code within five levels of its causes. Every other error of a tool
-- becomes an answer to the agent.
pub run_calls-err :
    (t : ℕ → Tooling) (s : Turn) (known : List (String × MentionedItem)) (i : ℕ)
    (calls : List ToolCall) (b : Batch) (e : Failure)
    → run_calls t s known i calls b ≡ err e
    → (e.kind ≡ bug_shaped) × (io_within 5 e.detail ≡ false)
unfolding run_calls
run_calls-err t s known i [] b e h = ground (arith, h)
run_calls-err t s known i (call ∷ calls) b e h =
    elim (Result-cases (execute_tool_call (t i) s call)) [
      | inl (f, q) ↦
          let p : f ≡ e = ground (arith, h, q) in
          subst (λ x. (x.kind ≡ bug_shaped) × (io_within 5 x.detail ≡ false)) p
            (execute_tool_call-err (t i) s call f q)
      | inr (r, q) ↦
          run_calls-err t s known (suc i) calls (add_result known call.id b r) e
            (ground (arith, h, q))
    ]
