-- ===== src/Ordering/Tools.antt =====
-- The tool calls of one reply of the agent: src/ordering/tools/run-tools.ts, with the messages and tool
-- calls of src/llm/llm-provider.ts. Schema validation is a library's (zod): its two parsers are
-- arguments. What a tool answers to the agent is a text made of the parts that are kept here. Log lines
-- are left out.
pub mod Faults
pub mod Added
use voice_order_backend.Menu.{MenuItem, CandidateItem}
use voice_order_backend.Ordering.Reply.{property, parse_agent_reply, Json, AgentReply}
use voice_order_backend.Ordering.Required.{find_violations, LineView, Violation}
use voice_order_backend.Contracts.{add_item, CartOperation}
use voice_order_backend.Base.{
  same, none, ◌||◌, [], Option, ◌∷◌, true, String, ℕ, if◌then◌else◌, Bool, suc, List, threw, zero,
  put, returned, false, some, Attempt, is_some, if◌then◌else◌, inl, ◌⊎◌, ap, refl, inr, ◌≡◌,
}
use voice_order_backend.RateLimit.Arrival.{Thrown, opaque, max_cause_depth, object}
use voice_order_backend.Ordering.Mentioned.{distinct_keys, to_mentioned_item, MentionedItem}

-- Why a call threw: a `RateLimitTimeoutError`, one of BUG_SHAPED, or any other error, and what its
-- fields are.
pub data Kind : Type 0 where
  rate_limit_timeout bug_shaped other_error : Kind

pub record Failure : Type 0 where
  pub kind : Kind
  pub detail : Thrown
  pub message : String

pub data Result {ℓ} (A : Type ℓ) : Type ℓ where
  ok : A → Result A
  err : Failure → Result A

-- A tool call as the provider sends it, with the fields that only the provider reads.
pub record RawCall : Type 0 where
  pub id : String
  pub is_function : Bool
  pub name : String
  pub arguments : String
  pub other : Json

pub record ToolCall : Type 0 where
  pub id : String
  pub name : String
  pub arguments : Json
  pub raw : Option RawCall

-- What a tool answers to the agent.
pub data Content : Type 0 where
  results_found : List CandidateItem → Content
  accepted : Content
  invalid_arguments invalid_operations : String → Content
  no_operations : Content
  violated : List Violation → Content
  unknown_tool : String → Content
  at_capacity : String → Content
  tool_failed : String → String → Content

pub data AgentMessage : Type 0 where
  system user : String → AgentMessage
  assistant : Option String → List ToolCall → AgentMessage
  tool : String → Content → AgentMessage

-- A schema's `safeParse`.
pub data Parsed (A : Type 0) : Type 0 where
  parsed : A → Parsed A
  refused : String → Parsed A

pub record SearchArgs : Type 0 where
  pub query : Option String
  pub by_popularity : Option Bool
  pub max_price_cents : Option ℕ
  pub min_price_cents : Option ℕ
  pub limit : Option ℕ

-- What the tools use of the menu, and the two schemas.
pub record Tooling : Type 0 where
  pub search_menu : ℕ → SearchArgs → Result (List CandidateItem)
  pub resolve_item_key : ℕ → String → Attempt (Option MenuItem)
  pub search_args : Json → Parsed SearchArgs
  pub operations_schema : Option Json → Parsed (List CartOperation)

pub record ToolExecResult : Type 0 where
  pub content : Content
  pub output : Option (List CartOperation)
  pub reply : Option String
  pub reply_language : Option String
  pub search_results : Option (List (String × MentionedItem))
  pub mentioned_item_keys : Option (List String)

unfoldable pub only : Content → ToolExecResult
only content = record {
  content = content;
  output = none;
  reply = none;
  reply_language = none;
  search_results = none;
  mentioned_item_keys = none;
}

-- The part of the turn's state that the tools read.
pub record Turn : Type 0 where
  pub pos_config_id : ℕ
  pub cart_view : Option (List LineView)

-- `new Set(operations.filter(...).map(...))`
add_item_keys : List CartOperation → List String
add_item_keys [] = []
add_item_keys (add_item key quantity modifiers ∷ ops) = key ∷ add_item_keys ops
add_item_keys (_ ∷ ops) = add_item_keys ops

-- A read that throws, like one that misses, leaves the key out.
resolved_keys : Tooling → ℕ → List String → List (String × MenuItem)
resolved_keys t pos_config_id [] = []
resolved_keys t pos_config_id (key ∷ keys) =
    let rest = resolved_keys t pos_config_id keys in
    elim (t.resolve_item_key pos_config_id key) [
      | threw ↦ rest
      | returned o ↦ elim o [ none ↦ rest | some item ↦ (key, item) ∷ rest ]
    ]

unfoldable pub items_by_key : Tooling → ℕ → List CartOperation → List (String × MenuItem)
unfolding add_item_keys resolved_keys
items_by_key t pos_config_id ops =
    resolved_keys t pos_config_id (distinct_keys [] (add_item_keys ops))

-- `findViolations`
unfoldable pub violations_of : Tooling → Turn → List CartOperation → List Violation
violations_of t s ops = find_violations ops s.cart_view (items_by_key t s.pos_config_id ops)

-- `hasIoEvidence`, with the number of levels that it may still look at.
unfoldable pub io_within : ℕ → Thrown → Bool
io_within zero e = false
io_within (suc depth) opaque = false
io_within (suc depth) (object status status_code code cause) =
    let rest = io_within depth cause in
    is_some status || is_some status_code || is_some code || rest

unfoldable pub is_retriable : Failure → Bool
is_retriable e = elim e.kind [
  | rate_limit_timeout ↦ true
  | other_error ↦ true
  | bug_shaped ↦ io_within max_cause_depth e.detail
]

-- `for (const item of set.items) search_results[item.menu_item_key] = toMentionedItem(item)`
unfoldable pub project :
    List CandidateItem → List (String × MentionedItem) → List (String × MentionedItem)
project [] known = known
project (c ∷ cs) known = project cs (put c.menu_item_key (to_mentioned_item c) known)

unfoldable pub run_search : Tooling → Turn → Json → Result ToolExecResult
run_search t s arguments = elim (t.search_args arguments) [
  | refused e ↦ ok (only (invalid_arguments e))
  | parsed args ↦ elim (t.search_menu s.pos_config_id args) [
    | err e ↦ err e
    | ok items ↦
        ok (record (only (results_found items)) { search_results = some (project items []) })
  ]
]

-- A proposal that passed every check, with the reply that came with it.
unfoldable pub accept : AgentReply → List CartOperation → ToolExecResult
accept r ops = record {
  content = accepted;
  output = some ops;
  reply = r.reply;
  reply_language = r.language;
  search_results = none;
  mentioned_item_keys = elim r.reply [ none ↦ none | some t ↦ some r.mentioned_items ];
}

unfoldable pub check_proposal : Tooling → Turn → Json → List CartOperation → ToolExecResult
check_proposal t s arguments [] = only no_operations
check_proposal t s arguments (o ∷ ops) = elim (violations_of t s (o ∷ ops)) [
  | [] ↦ accept (parse_agent_reply arguments) (o ∷ ops)
  | v ∷ vs ↦ only (violated (v ∷ vs))
]

unfoldable pub run_propose : Tooling → Turn → Json → ToolExecResult
run_propose t s arguments = elim (t.operations_schema (property "operations" arguments)) [
  | refused e ↦ only (invalid_operations e)
  | parsed ops ↦ check_proposal t s arguments ops
]

unfoldable pub run_tool_call : Tooling → Turn → ToolCall → Result ToolExecResult
run_tool_call t s call =
    if same call.name "search_menu"
    then run_search t s call.arguments
    else if same call.name "propose_cart"
    then ok (run_propose t s call.arguments)
    else ok (only (unknown_tool call.name))

unfoldable pub failed_call : String → Failure → ToolExecResult
failed_call name e = elim e.kind [
  | rate_limit_timeout ↦ only (at_capacity name)
  | bug_shaped ↦ only (tool_failed name e.message)
  | other_error ↦ only (tool_failed name e.message)
]

unfoldable pub execute_tool_call : Tooling → Turn → ToolCall → Result ToolExecResult
execute_tool_call t s call = elim (run_tool_call t s call) [
  | ok r ↦ ok r
  | err e ↦ if is_retriable e then ok (failed_call call.name e) else err e
]

pub Result-cases {ℓ} :
    {A : Type ℓ} (r : Result A) → ((e : Failure) × (r ≡ err e)) ⊎ ((a : A) × (r ≡ ok a))
Result-cases (err e) = inl (e, refl)
Result-cases (ok a) = inr (a, refl)

abbrev result_or {ℓ} : {A : Type ℓ} → A → Result A → A
result_or a (err e) = a
result_or a (ok b) = b

pub ok_injective {ℓ} : {A : Type ℓ} {a b : A} → ok a ≡ ok b → a ≡ b
ok_injective {a = a} p = ap (result_or a) p

pub Parsed-cases :
    {A : Type 0} (p : Parsed A) → ((m : String) × (p ≡ refused m)) ⊎ ((a : A) × (p ≡ parsed a))
Parsed-cases (refused m) = inl (m, refl)
Parsed-cases (parsed a) = inr (a, refl)
