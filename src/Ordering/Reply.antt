-- ===== src/Ordering/Reply.antt =====
-- What the agent says: src/ordering/graph/parse-agent-reply.ts. `JSON.parse` and `JSON.stringify` are
-- the language's: the parser is an argument of the code that uses it.
use Prim.Native.Char.{code}
use voice_order_backend.Base.{
  same, String, List, Option, true, ℕ, suc, ◌&&◌, leb, length, ◌||◌, none, if◌then◌else◌, Bool,
  ◌==◌, some, ◌∷◌, ◌∷◌, [], map, ◌++◌, if◌then◌else◌, trim, to_lower_case, codes, is_blank,
}
mod Tests

mutual
  pub data Json : Type 0 where
    null : Json
    boolean : Bool → Json
    number string : String → Json
    array : Values → Json
    object : Fields → Json

  pub data Values : Type 0 where
    no_values : Values
    value : Json → Values → Values

  pub data Fields : Type 0 where
    no_fields : Fields
    field : String → Json → Fields → Fields

-- A property that is not there is undefined.
pub field_of : String → Fields → Option Json
field_of key no_fields = none
field_of key (field k v fs) = if same k key then some v else field_of key fs

-- `obj[key]`; what is not an object has none of the properties that are read.
unfoldable pub property : String → Json → Option Json
property key (object fs) = field_of key fs
property key _ = none

pub record AgentReply : Type 0 where
  pub reply : Option String
  pub language : Option String
  pub mentioned_items : List String

unfoldable pub silent : AgentReply
silent = record { reply = none; language = none; mentioned_items = [] }

unfoldable pub spoken_as_is : String → AgentReply
spoken_as_is t = record { reply = some t; language = none; mentioned_items = [] }

is_letter : ℕ → Bool
is_letter c = (leb 65 c && leb c 90) || (leb 97 c && leb c 122)

-- How many letters a text starts with, and what follows them.
letters : List ℕ → ℕ × List ℕ
letters [] = (0, [])
letters (c ∷ cs) = let (n, rest) = letters cs in if is_letter c then (suc n, rest) else (0, c ∷ cs)

-- `([-_][a-z]{2,4})?$`
is_region : List ℕ → Bool
is_region [] = true
is_region (c ∷ cs) =
    let (n, rest) = letters cs in
    ((c == 45) || (c == 95)) && leb 2 n && leb n 4 && (length rest == 0)

-- LANG_RE
pub is_lang_code : List ℕ → Bool
unfolding letters is_letter is_region
is_lang_code cs = let (n, rest) = letters cs in leb 2 n && leb n 3 && is_region rest

-- `typeof raw === 'string' ? raw.trim() : ''`
pub trimmed_text : Option Json → String
trimmed_text (some (string t)) = trim t
trimmed_text _ = ""

unfoldable pub normalize_lang_code : Option Json → Option String
normalize_lang_code raw =
    let lang = trimmed_text raw in
    if is_lang_code (codes lang) then some (to_lower_case lang) else none

-- The filter of parseMentionedItemKeys keeps what is a text and not blank.
pub key_of : Json → List String
key_of (string t) = if is_blank t then [] else trim t ∷ []
key_of _ = []

pub keys_of : Values → List String
keys_of no_values = []
keys_of (value v vs) = key_of v ++ keys_of vs

unfoldable pub parse_mentioned_item_keys : Option Json → List String
parse_mentioned_item_keys (some (array vs)) = keys_of vs
parse_mentioned_item_keys _ = []

-- `typeof obj.reply === 'string' && obj.reply.trim() ? obj.reply : null`
unfoldable pub usable : Option Json → Option String
usable (some (string t)) = if is_blank t then none else some t
usable _ = none

unfoldable pub parse_agent_reply : Json → AgentReply
parse_agent_reply obj = elim (usable (property "reply" obj)) [
  | none ↦ silent
  | some reply ↦ record {
    reply = some reply;
    language = normalize_lang_code (property "language" obj);
    mentioned_items = parse_mentioned_item_keys (property "mentioned_items" obj);
  }
]

-- The fence: three back quotes, perhaps the word json, and three back quotes at the end.
after_ticks : String → Option String
after_ticks (String.◌∷◌ a (String.◌∷◌ b (String.◌∷◌ c s))) =
    if (code a == 96) && (code b == 96) && (code c == 96) then some s else none
after_ticks _ = none

after_json : String → String
after_json (String.◌∷◌ a (String.◌∷◌ b (String.◌∷◌ c (String.◌∷◌ d s)))) =
    if same (to_lower_case (String.◌∷◌ a (String.◌∷◌ b (String.◌∷◌ c (String.◌∷◌ d ""))))) "json"
    then s
    else String.◌∷◌ a (String.◌∷◌ b (String.◌∷◌ c (String.◌∷◌ d s)))
after_json s = s

before_ticks : String → Option String
before_ticks String.[] = none
before_ticks (String.◌∷◌ c s) =
    let rest = before_ticks s in
    if same (String.◌∷◌ c s) "```"
    then some ""
    else elim rest [ none ↦ none | some t ↦ some (String.◌∷◌ c t) ]

-- The text in the fence, or the text itself.
pub unfenced : String → String
unfolding after_ticks after_json before_ticks
unfenced t = elim (after_ticks t) [
  | none ↦ t
  | some s ↦ elim (before_ticks (after_json s)) [ none ↦ t | some u ↦ trim u ]
]

-- From the first opening brace.
from_open : String → Option String
from_open String.[] = none
from_open (String.◌∷◌ c s) =
    let rest = from_open s in if code c == 123 then some (String.◌∷◌ c s) else rest

-- Up to the last closing brace.
up_to_close : String → Option String
up_to_close String.[] = none
up_to_close (String.◌∷◌ c s) = elim (up_to_close s) [
  | some t ↦ some (String.◌∷◌ c t)
  | none ↦ if code c == 125 then some (String.◌∷◌ c "") else none
]

-- `text.slice(open, close + 1)`, where the last closing brace comes after the first opening one.
pub braces : String → Option String
unfolding from_open up_to_close
braces t = elim (from_open t) [ none ↦ none | some s ↦ up_to_close s ]

unfoldable pub read_spoken : (String → Option Json) → String → AgentReply
read_spoken parse t = elim (braces t) [
  | none ↦ spoken_as_is t
  | some span ↦ elim (parse span) [ none ↦ spoken_as_is t | some obj ↦ parse_agent_reply obj ]
]

unfoldable pub parse_spoken_reply : (String → Option Json) → Option String → AgentReply
parse_spoken_reply parse none = silent
parse_spoken_reply parse (some raw) =
    if is_blank raw then silent else read_spoken parse (unfenced (trim raw))
