-- ===== src/Menu.antt =====
-- Menu items as the cart and the ordering agent see them (src/menu/menu-types.ts), the lookups that
-- the cart needs (`MenuLookup` of src/menu/menu-service.ts), and the name to show
-- (src/shared/display-name.ts). Money is in cents and may be negative: an option can be a discount.
pub mod Fuzzy
pub mod Chunk
pub mod Matcher
pub mod Search
use voice_order_backend.Base.{
  ℕ, Bool, List, [], ◌∷◌, Option, none, some, String, Attempt, or_else, get,
}
use voice_order_backend.Base.Int.{ℤ}

abbrev pub Names : Type 0
Names = List (String × String)

pub record CandidateModifier : Type 0 where
  pub modifier_key : String
  pub ptav_id : ℕ
  pub name : String
  pub names : Option Names
  pub price_extra_cents : ℤ
  pub group_key : Option String
  pub group_name : Option String
  pub required : Option Bool

pub data PopularityTier : Type 0 where
  top popular : PopularityTier

-- A fraction of two natural numbers.
pub record Score : Type 0 where
  pub num : ℕ
  pub den : ℕ

pub record CandidateItem : Type 0 where
  pub menu_item_key : String
  pub product_tmpl_id : ℕ
  pub name : String
  pub names : Option Names
  pub score : Option Score
  pub base_price_cents : ℤ
  pub available_modifiers : List CandidateModifier
  pub popularity : Option PopularityTier

pub record MenuItem : Type 0 where
  pub product_tmpl_id : ℕ
  pub menu_item_key : String
  pub names : Names
  pub base_price_cents : ℤ
  pub available : Bool
  pub modifiers : List CandidateModifier

-- The menu store is read at request time, and a read can fail.
pub record MenuLookup : Type 0 where
  pub resolve_item_key : ℕ → String → Attempt (Option MenuItem)
  pub find_by_tmpl_id : ℕ → ℕ → Attempt (Option MenuItem)
  pub get_items : ℕ → List ℕ → Attempt (List MenuItem)

first_value : Names → Option String
first_value [] = none
first_value ((_, v) ∷ _) = some v

-- `names.en_US ?? Object.values(names)[0] ?? fallback`, for names that are there.
unfoldable pub display_name : Option Names → String → String
unfolding first_value
display_name none fallback = fallback
display_name (some names) fallback = elim (get "en_US" names) [
  | some n ↦ n
  | none ↦ or_else (first_value names) fallback
]
