-- ===== src/RateLimit/RetryAfter.antt =====
-- src/ratelimit/retry-after.ts: how long to hold off after a 429. `Date.parse` and the wall clock are
-- arguments; instants are whole milliseconds. A decimal number is read exactly, where the source goes
-- through floating point.
pub mod Clamped
use voice_order_backend.Base.Int.{pos, pos_part, ◌-ℤ◌, ℤ}
use voice_order_backend.Base.{
  codes, Bool, leb, ◌==◌, ◌*◌, ◌+◌, ◌||◌, if◌then◌else◌, [], none, ◌++◌, List, to_lower_case, min,
  not, some, Option, false, trim, ℕ, String, same, str_append, ◌∷◌, ◌-◌, true, length, ◌&&◌,
  if◌then◌else◌,
}
use voice_order_backend.RateLimit.Arrival.{Thrown, object, opaque}

abbrev pub penalty_429_ms : ℕ
penalty_429_ms = 5000

abbrev pub max_penalty_ms : ℕ
max_penalty_ms = 60000

-- What headers are read off: an object with a `get` of its own, or a record of fields, whose value is
-- kept where it is a text; or something else.
pub data HeaderSource : Type 0 where
  no_object : HeaderSource
  getter : (String → Option String) → HeaderSource
  fields : List (String × Option String) → HeaderSource

unfoldable pub field_value : String → List (String × Option String) → Option String
field_value wanted [] = none
field_value wanted ((k, none) ∷ rest) = field_value wanted rest
field_value wanted ((k, some v) ∷ rest) =
    if same (to_lower_case k) wanted then some v else field_value wanted rest

unfoldable pub header_value : HeaderSource → String → Option String
header_value no_object name = none
header_value (getter f) name = f name
header_value (fields l) name = field_value (to_lower_case name) l

abbrev pub is_429_status : Option ℕ → Bool
is_429_status none = false
is_429_status (some v) = v == 429

unfoldable pub is_429 : Thrown → Bool
is_429 opaque = false
is_429 (object status status_code code cause) = is_429_status status || is_429_status status_code

abbrev pub is_digit : ℕ → Bool
is_digit c = leb 48 c && leb c 57

abbrev pub is_letter : ℕ → Bool
is_letter c = (leb 65 c && leb c 90) || (leb 97 c && leb c 122)

unfoldable pub all_digits : List ℕ → Bool
all_digits [] = true
all_digits (c ∷ cs) = is_digit c && all_digits cs

-- `/^\d+(\.\d+)?$/`: the digits before the point, and those after it.
pub data Place : Type 0 where
  at_start in_whole : Place

unfoldable pub decimal : Place → List ℕ → List ℕ → Option (List ℕ × List ℕ)
decimal at_start whole [] = none
decimal in_whole whole [] = some (whole, [])
decimal at_start whole (c ∷ cs) =
    let rest = decimal in_whole (whole ++ c ∷ []) cs in if is_digit c then rest else none
decimal in_whole whole (c ∷ cs) =
    let rest = decimal in_whole (whole ++ c ∷ []) cs in
    if is_digit c
    then rest
    else (if (c == 46) && not (length cs == 0) && all_digits cs then some (whole, cs) else none)

unfoldable pub value_of : ℕ → List ℕ → ℕ
value_of acc [] = acc
value_of acc (c ∷ cs) = value_of (10 * acc + (c - 48)) cs

-- `Math.round(x * 1000)`: three digits after the point, and one more if the next is 5 at least.
unfoldable pub thousandths : List ℕ → ℕ
thousandths (a ∷ b ∷ c ∷ d ∷ rest) = value_of 0 (a ∷ b ∷ c ∷ []) + (if leb 53 d then 1 else 0)
thousandths (a ∷ b ∷ c ∷ []) = value_of 0 (a ∷ b ∷ c ∷ [])
thousandths (a ∷ b ∷ []) = 10 * value_of 0 (a ∷ b ∷ [])
thousandths (a ∷ []) = 100 * value_of 0 (a ∷ [])
thousandths [] = 0

unfoldable pub delay_ms : String → Option ℕ
delay_ms text = elim (decimal at_start [] (codes text)) [
  | none ↦ none
  | some (whole, part) ↦ some (1000 * value_of 0 whole + thousandths part)
]

-- A pattern, character by character.
pub data Kind : Type 0 where
  letter digit : Kind
  exactly : ℕ → Kind

unfoldable pub is_kind : Kind → ℕ → Bool
is_kind letter c = is_letter c
is_kind digit c = is_digit c
is_kind (exactly d) c = c == d

unfoldable pub fits : List Kind → List ℕ → Bool
fits [] [] = true
fits [] (c ∷ cs) = false
fits (k ∷ ks) [] = false
fits (k ∷ ks) (c ∷ cs) = is_kind k c && fits ks cs

abbrev pub three_letters : List Kind
three_letters = letter ∷ letter ∷ letter ∷ []

abbrev pub clock_and_year : List Kind
clock_and_year =
    exactly 32
    ∷ digit
    ∷ digit
    ∷ exactly 58
    ∷ digit
    ∷ digit
    ∷ exactly 58
    ∷ digit
    ∷ digit
    ∷ exactly 32
    ∷ digit
    ∷ digit
    ∷ digit
    ∷ digit
    ∷ []

-- `Sun Nov  6 08:49:37 1994`, given what stands between the month and the time.
abbrev pub asctime_with : List Kind → List Kind
asctime_with day = three_letters ++ exactly 32 ∷ (three_letters ++ day ++ clock_and_year)

unfoldable pub is_asctime : List ℕ → Bool
is_asctime cs =
    fits (asctime_with (exactly 32 ∷ digit ∷ [])) cs
    || fits (asctime_with (exactly 32 ∷ digit ∷ digit ∷ [])) cs
    || fits (asctime_with (exactly 32 ∷ exactly 32 ∷ digit ∷ [])) cs
    || fits (asctime_with (exactly 32 ∷ exactly 32 ∷ digit ∷ digit ∷ [])) cs

unfoldable pub has_prefix : List ℕ → List ℕ → Bool
has_prefix [] cs = true
has_prefix (p ∷ ps) [] = false
has_prefix (p ∷ ps) (c ∷ cs) = (p == c) && has_prefix ps cs

unfoldable pub any_prefix : List String → List ℕ → Bool
any_prefix [] cs = false
any_prefix (w ∷ ws) cs = has_prefix (codes w) cs || any_prefix ws cs

unfoldable pub has_date_prefix : String → Bool
has_date_prefix text =
    any_prefix ("mon" ∷ "tue" ∷ "wed" ∷ "thu" ∷ "fri" ∷ "sat" ∷ "sun" ∷ [])
      (codes (to_lower_case text))

unfoldable pub clamp_ms : ℤ → ℕ
clamp_ms ms = min max_penalty_ms (pos_part ms)

-- The text that `Date.parse` is given.
unfoldable pub zoned : String → String
zoned text = if is_asctime (codes text) then str_append text " GMT" else text

-- What the trimmed value of the header says: a wait, in milliseconds, or nothing usable.
unfoldable pub wait_of : (String → Option ℤ) → ℤ → String → Option ℤ
wait_of parse_date now text = if same text "" then none else elim (delay_ms text) [
  | some ms ↦ some (pos ms)
  | none ↦
      if has_date_prefix text
      then elim (parse_date (zoned text)) [ none ↦ none | some at ↦ some (at -ℤ now) ]
      else none
]

-- `headerValue(source) ?? headerValue(source.headers)`
unfoldable pub raw_header : HeaderSource → HeaderSource → Option String
raw_header source headers = elim (header_value source "retry-after") [
  | some v ↦ some v
  | none ↦ header_value headers "retry-after"
]

unfoldable pub retry_after_ms : (String → Option ℤ) → ℤ → HeaderSource → HeaderSource → ℕ
retry_after_ms parse_date now source headers = elim (raw_header source headers) [
  | none ↦ penalty_429_ms
  | some raw ↦ elim (wait_of parse_date now (trim raw)) [
    | none ↦ penalty_429_ms
    | some ms ↦ clamp_ms ms
  ]
]
