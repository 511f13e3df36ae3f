-- ===== src/Ordering/State.antt =====
-- What a turn of the ordering agent keeps and uses: the channels of src/ordering/graph/state.ts, the
-- classifier of src/ordering/nodes/classify-intent.node.ts and normalize-transcript.node.ts beside it.
-- The model, the cart cache, the menu and the prompts are arguments, and so is what the classifier's
-- answer reads as (`JSON.parse` and the schema of its label).
pub mod Tidy
use Prim.Native.Char.{code}
use voice_order_backend.Contracts.{CartOperation}
use voice_order_backend.Cart.{Cart}
use voice_order_backend.Ordering.Reply.{Json}
use voice_order_backend.Ordering.Tools.{AgentMessage, assistant, ToolCall, Tooling, Result}
use voice_order_backend.Menu.{MenuItem}
use voice_order_backend.Ordering.Mentioned.{MentionedItem, Mention}
use voice_order_backend.Ordering.Usage.{TurnUsage, LlmUsage}
use voice_order_backend.Ordering.CartView.{CartView}
use voice_order_backend.Base.{
  is_some, returned, String, trim, ◌++◌, ◌∷◌, [], Option, if◌then◌else◌, length, is_space, threw,
  or_else, ◌∷◌, Attempt, ℕ, true, false, Bool, ◌-◌, drop, List, str_append, if◌then◌else◌,
}

pub data Intent : Type 0 where
  service junk : Intent

pub record HistoryTurn : Type 0 where
  pub customer_text : String
  pub agent_reply : Option String

pub record OrderState : Type 0 where
  pub customer_text : String
  pub cart_id : String
  pub pos_config_id : ℕ
  pub intent : Intent
  pub cart_view : Option CartView
  pub base_version : ℕ
  pub history : List HistoryTurn
  pub output : Option (List CartOperation)
  pub reply : Option String
  pub reply_language : Option String
  pub agent_messages : List AgentMessage
  pub agent_steps : ℕ
  pub search_results : List (String × MentionedItem)
  pub mentioned_items : List Mention
  pub token_usage : TurnUsage
  pub failure_reason : Option String

pub record ChatResult : Type 0 where
  pub content : Option String
  pub tool_calls : List ToolCall
  pub usage : Option LlmUsage

-- What a turn uses. `chat n` is the answer to the turn's call n of the model, and `tooling n i` is what
-- the call i of the tools that it asks for finds. The graph library stops a turn that visits more nodes
-- than `recursion_limit`.
pub record Services : Type 0 where
  pub recursion_limit : ℕ
  pub classifier : String → Attempt String
  pub label : String → Option Intent
  pub cached_cart : String → Result (Option Cart)
  pub now : String
  pub get_items : ℕ → List ℕ → Result (List MenuItem)
  pub seed : String → Option CartView → List HistoryTurn → List AgentMessage
  pub chat : ℕ → List AgentMessage → Result ChatResult
  pub tooling : ℕ → ℕ → Tooling
  pub parse_json : String → Option Json

-- `text.trim().replace(/\s+/g, ' ')`; `after` says whether white space came just before.
collapse : Bool → String → String
collapse after String.[] = ""
collapse after (String.◌∷◌ c s) =
    let rest = collapse false s in
    let spaced = collapse true s in
    if is_space (code c)
    then (if after then spaced else String.◌∷◌ " " spaced)
    else String.◌∷◌ c rest

unfoldable pub normalize_transcript : String → String
unfolding collapse
normalize_transcript t = collapse false (trim t)

abbrev pub max_history_turns : ℕ
max_history_turns = 6

-- `slice(-cap)`
unfoldable pub newest : ℕ → List HistoryTurn → List HistoryTurn
newest cap turns = drop (length turns - cap) turns

unfoldable pub merge_history : List HistoryTurn → List HistoryTurn → ℕ → List HistoryTurn
merge_history prev next cap = newest cap (prev ++ next)

abbrev pub max_agent_steps : ℕ
max_agent_steps = 8

-- `classifyIntent`
unfoldable pub classify_intent : Services → String → Intent
classify_intent d t = elim (d.classifier t) [
  | threw ↦ service
  | returned raw ↦ or_else (d.label raw) service
]

-- `s.history.at(-1)?.agent_reply !== undefined`
unfoldable pub was_spoken_to : List HistoryTurn → Bool
was_spoken_to [] = false
was_spoken_to (h ∷ []) = is_some h.agent_reply
was_spoken_to (h ∷ h' ∷ hs) = was_spoken_to (h' ∷ hs)

-- `lastAssistantHasToolCalls`, and the calls that `runTools` reads from the last message.
abbrev pub calls_of : AgentMessage → List ToolCall
calls_of (assistant content calls) = calls
calls_of _ = []

unfoldable pub last_calls : List AgentMessage → List ToolCall
last_calls [] = []
last_calls (m ∷ []) = calls_of m
last_calls (m ∷ m' ∷ ms) = last_calls (m' ∷ ms)
