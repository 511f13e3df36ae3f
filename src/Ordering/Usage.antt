-- ===== src/Ordering/Usage.antt =====
-- Token counts: src/llm/usage.ts.
use voice_order_backend.Base.{
  Option, Bool, if◌then◌else◌, ℕ, or_else, false, ◌+◌, is_some, ◌||◌, if◌then◌else◌,
}

pub record LlmUsage : Type 0 where
  pub prompt_tokens : ℕ
  pub completion_tokens : ℕ
  pub total_tokens : ℕ
  pub cached_tokens : Option ℕ

pub record TurnUsage : Type 0 where
  pub prompt_tokens : ℕ
  pub completion_tokens : ℕ
  pub total_tokens : ℕ
  pub cached_tokens : ℕ
  pub cache_prompt_tokens : ℕ
  pub cache_reported : Bool
  pub calls : ℕ

abbrev pub zero_turn_usage : TurnUsage
zero_turn_usage = record {
  prompt_tokens = 0;
  completion_tokens = 0;
  total_tokens = 0;
  cached_tokens = 0;
  cache_prompt_tokens = 0;
  cache_reported = false;
  calls = 0;
}

unfoldable pub add_usage : TurnUsage → LlmUsage → TurnUsage
add_usage p n = record {
  prompt_tokens = p.prompt_tokens + n.prompt_tokens;
  completion_tokens = p.completion_tokens + n.completion_tokens;
  total_tokens = p.total_tokens + n.total_tokens;
  cached_tokens = p.cached_tokens + or_else n.cached_tokens 0;
  cache_prompt_tokens =
      p.cache_prompt_tokens + (if is_some n.cached_tokens then n.prompt_tokens else 0);
  cache_reported = p.cache_reported || is_some n.cached_tokens;
  calls = p.calls + 1;
}
