-- ===== src/Ordering/Mentioned.antt =====
-- src/ordering/mentioned-items.ts: the items that the agent names, looked up among those that it was
-- shown in this turn. What is dropped is only logged.
pub mod Verified
mod Tests
use voice_order_backend.Base.{
  ℕ, ◌+◌, Bool, true, false, List, [], ◌∷◌, ◌++◌, Option, none, some, String, same, get, length,
  ltb, if◌then◌else◌,
}
use voice_order_backend.Base.Int.{ℤ}
use voice_order_backend.Menu.{Names, PopularityTier, CandidateItem}

pub record MentionedItem : Type 0 where
  pub menu_item_key : String
  pub product_tmpl_id : ℕ
  pub name : String
  pub names : Option Names
  pub base_price_cents : ℤ
  pub popularity : Option PopularityTier

-- A map without entries is not sent.
pub some_names : Option Names → Option Names
some_names none = none
some_names (some []) = none
some_names (some (n ∷ ns)) = some (n ∷ ns)

pub to_mentioned_item : CandidateItem → MentionedItem
to_mentioned_item c = record {
  menu_item_key = c.menu_item_key;
  product_tmpl_id = c.product_tmpl_id;
  name = c.name;
  names = some_names c.names;
  base_price_cents = c.base_price_cents;
  popularity = c.popularity;
}

abbrev pub max_mentioned_items : ℕ
max_mentioned_items = 8

unfoldable pub has_key : String → List String → Bool
has_key x [] = false
has_key x (y ∷ ys) = if same y x then true else has_key x ys

-- `new Set(keys)`, in order of first occurrence; `seen` are the keys before.
unfoldable pub distinct_keys : List String → List String → List String
distinct_keys seen [] = []
distinct_keys seen (k ∷ ks) =
    let rest = distinct_keys seen ks in
    let fresh = distinct_keys (k ∷ seen) ks in if has_key k seen then rest else k ∷ fresh

-- What `known[key]` gives: an item that is there, or what every object inherits under this name.
pub data Mention : Type 0 where
  mentioned : MentionedItem → Mention
  inherited : String → Mention

-- The properties of `Object.prototype`.
abbrev pub inherited_keys : List String
inherited_keys =
    "constructor" ∷ "__defineGetter__" ∷ "__defineSetter__" ∷ "hasOwnProperty" ∷ "__lookupGetter__"
    ∷ "__lookupSetter__" ∷ "isPrototypeOf" ∷ "propertyIsEnumerable" ∷ "toString" ∷ "valueOf"
    ∷ "__proto__" ∷ "toLocaleString" ∷ []

-- `known[key]` on a plain object.
pub lookup : String → List (String × MentionedItem) → Option Mention
lookup key known = elim (get key known) [
  | some item ↦ some (mentioned item)
  | none ↦ if has_key key inherited_keys then some (inherited key) else none
]

-- The loop: `resolved` is what was found so far.
pub resolve_keys : List (String × MentionedItem) → List Mention → List String → List Mention
resolve_keys known resolved [] = resolved
resolve_keys known resolved (k ∷ ks) = elim (lookup k known) [
  | none ↦ resolve_keys known resolved ks
  | some item ↦
      resolve_keys known
        (if ltb (length resolved) max_mentioned_items then resolved ++ item ∷ [] else resolved) ks
]

pub resolve_mentioned_items : List String → List (String × MentionedItem) → List Mention
resolve_mentioned_items keys known = resolve_keys known [] (distinct_keys [] keys)
