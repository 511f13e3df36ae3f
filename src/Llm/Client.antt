-- ===== src/Llm/Client.antt =====
-- src/llm/openai-compatible-provider.ts: a call of the model through the limiter. What the service
-- answers, and how the stages of the limiter end, are arguments; log lines are left out. `JSON.parse`,
-- `JSON.stringify`, `Date.parse` and the clocks are arguments as well.
pub mod Accounts
pub mod Replay
mod Tests
use voice_order_backend.Base.Int.{ℤ}
use voice_order_backend.Base.{
  map, Option, none, same, ℕ, ◌+◌, ◌∷◌, [], ◌++◌, filter_b, List, or_else, String, some,
  if◌then◌else◌, if◌then◌else◌,
}
use voice_order_backend.Ordering.Tools.{
  AgentMessage, ToolCall, RawCall, Content, tool, system, user, assistant,
}
use voice_order_backend.Ordering.Usage.{LlmUsage}
use voice_order_backend.Ordering.Reply.{Json, object, no_fields}
use voice_order_backend.Ordering.State.{ChatResult}
use voice_order_backend.RateLimit.{RejectReason}
use voice_order_backend.RateLimit.Arrival.{Thrown, reached_provider}
use voice_order_backend.RateLimit.Estimate.{Lengths, estimate_messages, estimate_tools}
use voice_order_backend.RateLimit.Limiter.{
  RateLimits, Stages, Lease, Op, Acquired, acquire, settle, abandon, has_any_limit, granted,
  rejected,
}
use voice_order_backend.RateLimit.RetryAfter.{HeaderSource, is_429, retry_after_ms}

-- `LlmClientConfig`, as far as a call uses it, with the limits of its limiter.
pub record ClientConfig : Type 0 where
  pub limits : RateLimits
  pub max_output_tokens_est : ℕ

-- The `usage` of a response. Each count may be missing, and the cached tokens stand in one of two
-- places.
pub record RawUsage : Type 0 where
  pub prompt_tokens : Option ℕ
  pub completion_tokens : Option ℕ
  pub total_tokens : Option ℕ
  pub cached_details : Option ℕ
  pub total_cached_tokens : Option ℕ

pub record RawMessage : Type 0 where
  pub content : Option String
  pub tool_calls : List RawCall

-- A response, with the message of its first choice.
pub record Completion : Type 0 where
  pub message : Option RawMessage
  pub usage : Option RawUsage

-- What was thrown, and where its headers are.
pub record CallError : Type 0 where
  pub error : Thrown
  pub own : HeaderSource
  pub headers : HeaderSource

pub data Response : Type 0 where
  created : Completion → Response
  call_failed : CallError → Response

-- The runtime: the wall clock for dates, and the monotonic clock of the limiter.
pub record Runtime : Type 0 where
  pub lengths : Lengths
  pub parse_json : String → Option Json
  pub stringify : Json → String
  pub parse_date : String → Option ℤ
  pub wall_now : ℤ
  pub now_ms : ℕ

-- `usageOf`
unfoldable pub cached_of : RawUsage → Option ℕ
cached_of u = elim u.cached_details [ some n ↦ some n | none ↦ u.total_cached_tokens ]

unfoldable pub usage_of : Option RawUsage → Option LlmUsage
usage_of none = none
usage_of (some u) = some (record {
  prompt_tokens = or_else u.prompt_tokens 0;
  completion_tokens = or_else u.completion_tokens 0;
  total_tokens = or_else u.total_tokens 0;
  cached_tokens = cached_of u;
})

-- `usage?.totalTokens`
unfoldable pub total_of : Option LlmUsage → Option ℕ
total_of none = none
total_of (some u) = some u.total_tokens

unfoldable pub reserve : ClientConfig → Lengths → List AgentMessage → List ℕ → ℕ
reserve cfg n messages specs =
    if has_any_limit cfg.limits
    then estimate_messages n messages + estimate_tools specs + cfg.max_output_tokens_est
    else 0

-- How a call ends: refused by the limiter, thrown by the service, or answered.
pub data Ending (A : Type 0) : Type 0 where
  refused : RejectReason → Ending A
  thrown : Thrown → Ending A
  answered : A → Ending A

-- What a call does: the operations on the limiter, until when it penalizes it, and how it ends.
pub record Called (A : Type 0) : Type 0 where
  pub ops : List Op
  pub penalty : Option ℕ
  pub ending : Ending A

-- `onCallFailed`
unfoldable pub penalty_of : Runtime → CallError → Option ℕ
penalty_of r e =
    if is_429 e.error
    then some (r.now_ms + retry_after_ms r.parse_date r.wall_now e.own e.headers)
    else none

unfoldable pub close_failed : RateLimits → Thrown → Lease → Lease × List Op
close_failed l e h = if reached_provider e then settle l none h else abandon h

module _ {A : Type 0} where
  -- After the acquire: the request, and what becomes of the lease.
  unfoldable pub request :
      ClientConfig → Runtime → Response → (Completion → A) → List Op × Acquired → Called A
  request cfg r response read (ops, rejected reason) = record {
    ops = ops;
    penalty = none;
    ending = refused reason;
  }
  request cfg r (call_failed e) read (ops, granted h) = record {
    ops = ops ++ (close_failed cfg.limits e.error h).1;
    penalty = penalty_of r e;
    ending = thrown e.error;
  }
  request cfg r (created c) read (ops, granted h) = record {
    ops = ops ++ (settle cfg.limits (total_of (usage_of c.usage)) h).1;
    penalty = none;
    ending = answered (read c);
  }

  unfoldable pub call_model :
      ClientConfig → Runtime → Stages → Response → ℕ → (Completion → A) → Called A
  call_model cfg r o response cost read = request cfg r response read (acquire cfg.limits cost o)

-- `res.choices[0]?.message?.content ?? ''`
unfoldable pub content_of : Completion → String
content_of c = elim c.message [ none ↦ "" | some m ↦ or_else m.content "" ]

unfoldable pub complete :
    ClientConfig → Runtime → Stages → Response → String → String → Called String
complete cfg r o response system_text user_text =
    call_model cfg r o response
      (reserve cfg r.lengths (system system_text ∷ user user_text ∷ []) []) content_of

-- Malformed arguments are read as `{}`, and so are empty ones.
unfoldable pub parse_tool_call : (String → Option Json) → RawCall → ToolCall
parse_tool_call parse_json tc = record {
  id = tc.id;
  name = tc.name;
  arguments =
      or_else (parse_json (if same tc.arguments "" then "{}" else tc.arguments)) (object no_fields);
  raw = some tc;
}

unfoldable pub calls_of : Completion → List RawCall
calls_of c = elim c.message [ none ↦ [] | some m ↦ filter_b (λ tc. tc.is_function) m.tool_calls ]

-- An empty text is no text.
unfoldable pub text_of : Completion → Option String
text_of c = if same (content_of c) "" then none else some (content_of c)

unfoldable pub chat_result : (String → Option Json) → Completion → ChatResult
chat_result parse_json c = record {
  content = text_of c;
  tool_calls = map (parse_tool_call parse_json) (calls_of c);
  usage = usage_of c.usage;
}

unfoldable pub chat :
    ClientConfig → Runtime → Stages → Response → List AgentMessage → List ℕ → Called ChatResult
chat cfg r o response messages specs =
    call_model cfg r o response (reserve cfg r.lengths messages specs) (chat_result r.parse_json)

-- A message as it is sent.
pub data WireCall : Type 0 where
  replayed : RawCall → WireCall
  rebuilt : String → String → String → WireCall

pub data WireMessage : Type 0 where
  wire_system wire_user : String → WireMessage
  wire_tool : String → Content → WireMessage
  wire_assistant : Option String → List WireCall → WireMessage

unfoldable pub wire_call : (Json → String) → ToolCall → WireCall
wire_call stringify tc = elim tc.raw [
  | some raw ↦ replayed raw
  | none ↦ rebuilt tc.id tc.name (stringify tc.arguments)
]

unfoldable pub to_openai_message : (Json → String) → AgentMessage → WireMessage
to_openai_message stringify (system text) = wire_system text
to_openai_message stringify (user text) = wire_user text
to_openai_message stringify (tool id content) = wire_tool id content
to_openai_message stringify (assistant content calls) =
    wire_assistant content (map (wire_call stringify) calls)
