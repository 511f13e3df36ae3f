-- ===== src/Ordering/Reply/Tests.antt =====
-- Replies read from concrete texts (parse-agent-reply.ts).
use voice_order_backend.Base.{Option, refl, some, ◌≡◌, String, none, is_blank, same, trim}
use voice_order_backend.Ordering.Reply.{
  Json, normalize_lang_code, unfenced, parse_spoken_reply, braces, read_spoken, spoken_as_is,
  string, is_lang_code, trimmed_text,
}

lower_language : normalize_lang_code (some (string " zh-TW ")) ≡ some "zh-tw"
unfolding normalize_lang_code is_lang_code trimmed_text trim
lower_language = refl

bad_language : normalize_lang_code (some (string "Chinese")) ≡ none
unfolding normalize_lang_code is_lang_code trimmed_text trim
bad_language = refl

fenced : unfenced "```json\n{} ```" ≡ "{}"
unfolding unfenced same trim
fenced = refl

span : braces "Sure! {a} b} c" ≡ some "{a} b}"
unfolding braces
span = refl

-- An empty fence is spoken as an empty text.
empty_fence :
    (parse : String → Option Json) → parse_spoken_reply parse (some "``````") ≡ spoken_as_is ""
unfolding parse_spoken_reply read_spoken spoken_as_is is_blank braces unfenced trim same
empty_fence parse = refl
