-- ===== src/Ordering/Batch.antt =====
-- The `tools` node: the loop of `runTools` (src/ordering/tools/run-tools.ts) over the tool calls of one
-- reply of the agent.
-- What the calls of a batch have written so far.
pub mod Checked
use voice_order_backend.Contracts.{CartOperation}
use voice_order_backend.Ordering.Mentioned.{resolve_mentioned_items, MentionedItem, Mention}
use voice_order_backend.Base.{◌++◌, Option, ◌∷◌, put, List, String, ℕ, suc, [], or_else, none, some}
use voice_order_backend.Ordering.Tools.{
  tool, AgentMessage, Turn, execute_tool_call, ok, Result, err, Tooling, ToolCall, ToolExecResult,
}

pub record Batch : Type 0 where
  pub messages : List AgentMessage
  pub output : Option (List CartOperation)
  pub reply : Option String
  pub reply_language : Option String
  pub search_results : Option (List (String × MentionedItem))
  pub mentioned_items : Option (List Mention)

-- A new value, if there is one.
abbrev pub or_keep {ℓ} : {A : Type ℓ} → Option A → Option A → Option A
or_keep (some a) b = some a
or_keep none b = b

-- `{ ...known, ...found }`
unfoldable pub merge :
    List (String × MentionedItem) → List (String × MentionedItem) → List (String × MentionedItem)
merge known [] = known
merge known ((k, i) ∷ found) = merge (put k i known) found

unfoldable pub merged :
    List (String × MentionedItem) → Batch → ToolExecResult → Option (List (String × MentionedItem))
merged known b r = elim r.search_results [
  | none ↦ b.search_results
  | some found ↦ some (merge (or_else b.search_results known) found)
]

-- The body of the loop over the calls; `known` is what the turn had found before.
unfoldable pub add_result : List (String × MentionedItem) → String → Batch → ToolExecResult → Batch
add_result known id b r =
    let results = merged known b r in
    record {
      messages = b.messages ++ tool id r.content ∷ [];
      output = or_keep r.output b.output;
      reply = or_keep r.reply b.reply;
      reply_language = or_keep r.reply_language b.reply_language;
      search_results = results;
      mentioned_items = elim r.mentioned_item_keys [
        | none ↦ b.mentioned_items
        | some keys ↦ some (resolve_mentioned_items keys (or_else results known))
      ];
    }

-- The loop. The menu may change between two calls: `t i` is what the call with the number i finds.
unfoldable pub run_calls :
    (ℕ → Tooling) → Turn → List (String × MentionedItem) → ℕ → List ToolCall → Batch → Result Batch
run_calls t s known i [] b = ok b
run_calls t s known i (call ∷ calls) b = elim (execute_tool_call (t i) s call) [
  | err e ↦ err e
  | ok r ↦ run_calls t s known (suc i) calls (add_result known call.id b r)
]
