-- ===== src/Llm/Client/Replay.antt =====
-- Tool calls come back to the service as it sent them (openai-compatible-provider.ts).
use voice_order_backend.Base.{map, [], Option, ◌≡◌, ◌∷◌, refl, String, ap, List}
use voice_order_backend.Llm.Client.{
  Completion, chat_result, calls_of, parse_tool_call, to_openai_message, wire_call, wire_assistant,
  replayed, text_of,
}
use voice_order_backend.Ordering.Tools.{RawCall, assistant}
use voice_order_backend.Ordering.Reply.{Json}

calls-replayed :
    (parse_json : String → Option Json) (stringify : Json → String) (calls : List RawCall)
    → map (wire_call stringify) (map (parse_tool_call parse_json) calls) ≡ map replayed calls
unfolding wire_call parse_tool_call
calls-replayed parse_json stringify [] = refl
calls-replayed parse_json stringify (c ∷ cs) =
    ap (λ l. replayed c ∷ l) (calls-replayed parse_json stringify cs)

-- The assistant's turn that a response was read as, put into the messages of the next request, carries
-- the function calls of the response as they came, every field of them, in their order, whatever
-- `JSON.parse` makes of their arguments.
pub chat_result-replayed :
    (parse_json : String → Option Json) (stringify : Json → String) (c : Completion)
    → to_openai_message stringify
        (assistant (chat_result parse_json c).content (chat_result parse_json c).tool_calls)
      ≡ wire_assistant (text_of c) (map replayed (calls_of c))
unfolding to_openai_message chat_result
chat_result-replayed parse_json stringify c =
    ap (wire_assistant (text_of c)) (calls-replayed parse_json stringify (calls_of c))
