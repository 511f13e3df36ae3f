-- ===== src/RateLimit/Registry/Tests.antt =====
-- Two language models with one account, and a third.
use voice_order_backend.Base.{
  [], get, none, refl, ◌↔◌, ℕ, List, true, put, some, String, false, same, ◌∷◌, ◌≡◌,
}
use voice_order_backend.RateLimit.Registry.{
  QuotaKey, Request, identity_of, get_all, empty_registry, limiter, join_limiter, same_limits,
  new_limiter, add_limiter, get_limiter, reset,
}
use voice_order_backend.RateLimit.Registry.Shared.{get_all-shares, quota_text}
use voice_order_backend.RateLimit.Limiter.{RateLimits, has_any_limit}

abbrev key_of : String → String → QuotaKey
key_of name api_key = record {
  name = name;
  provider = "openai-compatible";
  base_url = none;
  api_key = some api_key;
  model = some "m";
}

abbrev capped : ℕ → RateLimits
capped n = record { rpm = n; tpm = 0; max_concurrent = 0 }

abbrev parser : Request
parser = record { key = key_of "llm" "k"; limits = capped 10 }

abbrev classifier : Request
classifier = record { key = key_of "intent-llm" "k"; limits = capped 20 }

abbrev other : Request
other = record { key = key_of "llm" "j"; limits = capped 10 }

abbrev sites : List Request
sites = parser ∷ classifier ∷ other ∷ []

-- The second limits are not the first: the conflict is reported, and the first are kept.
resolved :
    (get_all sites empty_registry).1
    ≡ record { limiter = limiter 0 "llm"; conflict = false }
      ∷ record { limiter = limiter 0 "llm"; conflict = true }
      ∷ record { limiter = limiter 1 "llm"; conflict = false }
      ∷ []
unfolding get_all get_limiter join_limiter add_limiter new_limiter identity_of same_limits
    has_any_limit get put same
resolved = refl

-- After a reset, the same call site gets a limiter of its own again.
made_again :
    (get_limiter parser.key parser.limits
      (reset (get_limiter parser.key parser.limits empty_registry).0)).1
    ≡ record { limiter = limiter 1 "llm"; conflict = false }
unfolding reset get_limiter join_limiter add_limiter new_limiter identity_of same_limits
    has_any_limit get put same
made_again = refl

get_all-shares_example :
    (limiter 0 "llm" ≡ limiter 0 "llm") ↔ (quota_text parser.key ≡ quota_text classifier.key)
unfolding get_all get_limiter join_limiter add_limiter new_limiter identity_of same_limits
    has_any_limit get put same
get_all-shares_example =
    get_all-shares sites 0 1 parser classifier
      (record { limiter = limiter 0 "llm"; conflict = false })
      (record { limiter = limiter 0 "llm"; conflict = true }) 0 refl refl refl refl refl
