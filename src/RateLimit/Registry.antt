-- ===== src/RateLimit/Registry.antt =====
-- src/ratelimit/registry.ts: one limiter for each quota. A limiter is the shared one that limits nothing,
-- or a number of its own with the name of the call site that it was made for.
pub mod Apart
pub mod Shared
mod Tests
use voice_order_backend.Base.{
  ◌==◌, get, some, ◌++◌, put, ◌&&◌, String, str_append, List, true, or_else, ℕ, [], Option, not,
  none, ◌∷◌, ◌+◌, false, Bool, if◌then◌else◌, if◌then◌else◌,
}
use voice_order_backend.RateLimit.Limiter.{RateLimits, has_any_limit}

pub record QuotaKey : Type 0 where
  pub name : String
  pub provider : String
  pub base_url : Option String
  pub api_key : Option String
  pub model : Option String

unfoldable pub identity_of : QuotaKey → String
identity_of key = str_append key.provider (
    str_append "|" (
      str_append (or_else key.base_url "") (
        str_append "|"
          (str_append (or_else key.api_key "") (str_append "|" (or_else key.model ""))))))

pub data Limiter : Type 0 where
  no_limit : Limiter
  limiter : ℕ → String → Limiter

pub record Entry : Type 0 where
  pub limiter : Limiter
  pub limits : RateLimits
  pub call_sites : List String

-- The map, and the number of the next limiter.
pub record Registry : Type 0 where
  pub limiters : List (String × Entry)
  pub next : ℕ

abbrev pub empty_registry : Registry
empty_registry = record { limiters = []; next = 0 }

unfoldable pub same_limits : RateLimits → RateLimits → Bool
same_limits a b = (a.rpm == b.rpm) && (a.tpm == b.tpm) && (a.max_concurrent == b.max_concurrent)

-- The limiter that a call site gets, and whether the conflict of its limits is reported.
pub record Got : Type 0 where
  pub limiter : Limiter
  pub conflict : Bool

unfoldable pub new_limiter : QuotaKey → RateLimits → Registry → Limiter
new_limiter key limits r = if has_any_limit limits then limiter r.next key.name else no_limit

unfoldable pub add_limiter : QuotaKey → RateLimits → Registry → Registry × Got
add_limiter key limits r =
    let fresh = new_limiter key limits r in
    (
      record {
        limiters =
            put (identity_of key)
              (record { limiter = fresh; limits = limits; call_sites = key.name ∷ [] }) r.limiters;
        next = r.next + 1;
      },
      record { limiter = fresh; conflict = false },
    )

unfoldable pub join_limiter : QuotaKey → RateLimits → Entry → Registry → Registry × Got
join_limiter key limits e r = (
  record r {
    limiters =
        put (identity_of key) (record e { call_sites = e.call_sites ++ key.name ∷ [] }) r.limiters;
  },
  record { limiter = e.limiter; conflict = not (same_limits e.limits limits) },
)

-- `get`
unfoldable pub get_limiter : QuotaKey → RateLimits → Registry → Registry × Got
get_limiter key limits r = elim (get (identity_of key) r.limiters) [
  | some e ↦ join_limiter key limits e r
  | none ↦ add_limiter key limits r
]

pub record LimiterReport : Type 0 where
  pub limiter : Limiter
  pub call_sites : List String
  pub limits : RateLimits
  pub shaped : Bool

abbrev pub is_shaped : Limiter → Bool
is_shaped no_limit = false
is_shaped (limiter n name) = true

unfoldable pub describe : List (String × Entry) → List LimiterReport
describe [] = []
describe ((id, e) ∷ es) =
    record {
      limiter = e.limiter;
      call_sites = e.call_sites;
      limits = e.limits;
      shaped = is_shaped e.limiter;
    }
    ∷ describe es

-- `reset`, which the tests call. A limiter that was made before keeps its number.
unfoldable pub reset : Registry → Registry
reset r = record r { limiters = [] }

-- The call sites register one after the other.
pub record Request : Type 0 where
  pub key : QuotaKey
  pub limits : RateLimits

unfoldable pub get_all : List Request → Registry → Registry × List Got
get_all [] r = (r, [])
get_all (q ∷ qs) r =
    let (r', got) = get_limiter q.key q.limits r in
    let (r'', gots) = get_all qs r' in (r'', got ∷ gots)
