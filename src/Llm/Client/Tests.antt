-- ===== src/Llm/Client/Tests.antt =====
-- Calls of the model.
use voice_order_backend.Base.Int.{pos}
use voice_order_backend.Base.{refl, map, ◌≤◌, [], ◌↔◌, some, ◌≡◌, none, ◌∷◌, true}
use voice_order_backend.Llm.Client.{
  ClientConfig, Runtime, Completion, CallError, call_model, chat_result, calls_of, text_of,
  to_openai_message, replayed, wire_assistant, content_of, call_failed,
}
use voice_order_backend.Llm.Client.Accounts.{call_model-IsSettled, IsSettled}
use voice_order_backend.Llm.Client.Replay.{chat_result-replayed}
use voice_order_backend.Ordering.Tools.{RawCall, assistant}
use voice_order_backend.Ordering.Reply.{null}
use voice_order_backend.RateLimit.Estimate.{Lengths}
use voice_order_backend.RateLimit.Limiter.{Stages, reserved_of}
use voice_order_backend.RateLimit.Arrival.{opaque, object}
use voice_order_backend.RateLimit.RetryAfter.{
  retry_after_ms, delay_ms, no_object, fields, max_penalty_ms, decimal, thousandths, all_digits,
  value_of,
}
use voice_order_backend.RateLimit.RetryAfter.Clamped.{retry_after_ms-IsClamped, SaysNow}

abbrev lengths : Lengths
lengths = record { of_calls = λ cs. 0; of_content = λ c. 0 }

abbrev runtime : Runtime
runtime = record {
  lengths = lengths;
  parse_json = λ t. none;
  stringify = λ j. "";
  parse_date = λ t. none;
  wall_now = pos 0;
  now_ms = 1000;
}

abbrev config : ClientConfig
config = record {
  limits = record { rpm = 10; tpm = 1000; max_concurrent = 1 };
  max_output_tokens_est = 50;
}

abbrev all_granted : Stages
all_granted = record { request = none; tokens = none; permit = none }

abbrev search_call : RawCall
search_call = record {
  id = "1";
  is_function = true;
  name = "search_menu";
  arguments = "{";
  other = null;
}

abbrev completion : Completion
completion = record {
  message = some (record { content = none; tool_calls = search_call ∷ [] });
  usage = some (record {
    prompt_tokens = some 400;
    completion_tokens = some 20;
    total_tokens = some 420;
    cached_details = none;
    total_cached_tokens = none;
  });
}

-- A 429 that says to come back in two seconds and a half.
abbrev told_to_wait : CallError
told_to_wait = record {
  error = object (some 429) none none opaque;
  own = no_object;
  headers = fields (("Retry-After", some "2.5") ∷ []);
}

call_model-IsSettled_example :
    IsSettled config.limits
      (reserved_of config.limits 300)
      runtime
      (call_failed told_to_wait)
      (call_model config runtime all_granted (call_failed told_to_wait) 300 content_of)
call_model-IsSettled_example =
    call_model-IsSettled config runtime (call_failed told_to_wait) content_of all_granted 300

chat_result-replayed_example :
    to_openai_message runtime.stringify (
      assistant
        (chat_result runtime.parse_json completion).content
        (chat_result runtime.parse_json completion).tool_calls)
    ≡ wire_assistant (text_of completion) (map replayed (calls_of completion))
chat_result-replayed_example = chat_result-replayed runtime.parse_json runtime.stringify completion

-- The call for the menu is sent back as it came.
sent_back : map replayed (calls_of completion) ≡ replayed search_call ∷ []
unfolding calls_of
sent_back = refl

retry_after_ms-IsClamped_example :
    (retry_after_ms runtime.parse_date (pos 0) no_object told_to_wait.headers ≤ max_penalty_ms)
    × ((retry_after_ms runtime.parse_date (pos 0) no_object told_to_wait.headers ≡ 0)
        ↔ SaysNow runtime.parse_date (pos 0) no_object told_to_wait.headers)
retry_after_ms-IsClamped_example =
    retry_after_ms-IsClamped runtime.parse_date (pos 0) no_object told_to_wait.headers

two_and_a_half : delay_ms "2.5" ≡ some 2500
unfolding delay_ms decimal all_digits value_of thousandths
two_and_a_half = refl

rounded : delay_ms "0.0005" ≡ some 1
unfolding delay_ms decimal all_digits value_of thousandths
rounded = refl

not_a_number : delay_ms "-5" ≡ none
unfolding delay_ms decimal all_digits
not_a_number = refl
