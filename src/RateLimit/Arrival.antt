-- ===== src/RateLimit/Arrival.antt =====
-- src/ratelimit/arrival.ts: did a failed call reach the provider? What is thrown is an object, with
-- the fields that are read and only as far as they have the type that is tested (a number for a
-- status, a text for a code), or something else.
mod Tests
use voice_order_backend.Base.{
  ℕ, zero, suc, Bool, true, false, ◌&&◌, ◌||◌, List, [], ◌∷◌, Option, none, some, String, leb, ltb,
  same, if◌then◌else◌,
}

pub data Thrown : Type 0 where
  opaque : Thrown
  object : Option ℕ → Option ℕ → Option String → Thrown → Thrown

abbrev pub never_arrived_codes : List String
never_arrived_codes =
    "ECONNREFUSED" ∷ "ENOTFOUND" ∷ "EAI_AGAIN" ∷ "EHOSTUNREACH" ∷ "ENETUNREACH"
    ∷ "ERR_SOCKET_CONNECTION_TIMEOUT" ∷ "rate_limited" ∷ []

abbrev pub max_cause_depth : ℕ
max_cause_depth = 5

-- `Set.has`
unfoldable pub has_code : String → List String → Bool
has_code code [] = false
has_code code (c ∷ cs) = same c code || has_code code cs

unfoldable pub is_http_status : Option ℕ → Bool
is_http_status none = false
is_http_status (some v) = leb 100 v && ltb v 600

unfoldable pub never_arrived : Option String → Bool
never_arrived none = false
never_arrived (some code) = has_code code never_arrived_codes

-- The loop over the chain of causes, with the number of levels that it may still look at.
unfoldable pub reached_within : ℕ → Thrown → Bool
reached_within zero e = true
reached_within (suc depth) opaque = true
reached_within (suc depth) (object status status_code code cause) =
    let rest = reached_within depth cause in
    if is_http_status status || is_http_status status_code
    then true
    else if never_arrived code
    then false
    else rest

unfoldable pub reached_provider : Thrown → Bool
reached_provider e = reached_within max_cause_depth e
