-- ===== src/RateLimit/Estimate.antt =====
-- src/ratelimit/estimate-tokens.ts: an estimate of the tokens of a request, from the lengths of its texts.
-- The length of what `JSON.stringify` writes, and of the text that a tool answered, are arguments.
use voice_order_backend.Base.{length, utf16, ◌+◌, ◌/◌, String, ◌-◌, ◌∷◌, List, some, none, [], ℕ}
use voice_order_backend.Ordering.Tools.{
  AgentMessage, ToolCall, Content, tool, user, assistant, system,
}

abbrev pub chars_per_token : ℕ
chars_per_token = 4

abbrev pub message_envelope_tokens : ℕ
message_envelope_tokens = 3

-- `Math.ceil(chars / charsPerToken)`
unfoldable pub tokens_for_chars : ℕ → ℕ
tokens_for_chars chars = (chars + (chars_per_token - 1)) / chars_per_token

pub record Lengths : Type 0 where
  pub of_calls : List ToolCall → ℕ
  pub of_content : Content → ℕ

abbrev pub text_length : String → ℕ
text_length s = length (utf16 s)

abbrev pub calls_length : Lengths → List ToolCall → ℕ
calls_length n [] = 0
calls_length n (c ∷ cs) = n.of_calls (c ∷ cs)

-- An assistant message without tool calls has no such field.
unfoldable pub message_chars : Lengths → AgentMessage → ℕ
message_chars n (system text) = text_length text
message_chars n (user text) = text_length text
message_chars n (assistant none calls) = calls_length n calls
message_chars n (assistant (some text) calls) = text_length text + calls_length n calls
message_chars n (tool id content) = n.of_content content + text_length id

unfoldable pub estimate_messages : Lengths → List AgentMessage → ℕ
estimate_messages n [] = 0
estimate_messages n (m ∷ ms) =
    message_envelope_tokens + tokens_for_chars (message_chars n m) + estimate_messages n ms

-- The tools, by the lengths of their texts.
unfoldable pub estimate_tools : List ℕ → ℕ
estimate_tools [] = 0
estimate_tools (chars ∷ rest) = tokens_for_chars chars + estimate_tools rest
