-- ===== src/Ordering/Mentioned/Tests.antt =====
-- A run of mentioned-items.ts: tea twice, and a key that was never shown.
use voice_order_backend.Menu.{CandidateItem}
use voice_order_backend.Base.{◌≡◌, refl, ◌≤◌, [], ◌∷◌, List, String, none, some, get, same, length}
use voice_order_backend.Base.Int.{pos}
use voice_order_backend.Ordering.Mentioned.{
  mentioned, inherited, lookup, MentionedItem, to_mentioned_item, some_names, max_mentioned_items,
  distinct_keys, has_key, resolve_keys, resolve_mentioned_items,
}
use voice_order_backend.Ordering.Mentioned.Verified.{
  IsFound, first, shown, resolve_mentioned_items-eq,
}

abbrev candidate : CandidateItem
candidate = record {
  score = none;
  available_modifiers = [];
  menu_item_key = "tea";
  product_tmpl_id = 7;
  name = "Tea";
  names = some [];
  base_price_cents = pos 300;
  popularity = none;
}

abbrev mentioned_tea : MentionedItem
mentioned_tea = record {
  menu_item_key = "tea";
  product_tmpl_id = 7;
  name = "Tea";
  names = none;
  base_price_cents = pos 300;
  popularity = none;
}

projected : to_mentioned_item candidate ≡ mentioned_tea
unfolding to_mentioned_item some_names
projected = refl

abbrev results : List (String × MentionedItem)
results = ("tea", mentioned_tea) ∷ []

abbrev named : List String
named = "tea" ∷ "soup" ∷ "tea" ∷ []

named_once : resolve_mentioned_items named results ≡ mentioned mentioned_tea ∷ []
unfolding resolve_mentioned_items resolve_keys distinct_keys has_key lookup get same
named_once = refl

-- A name that every object has is let through although nothing was shown under it.
named_inherited :
    resolve_mentioned_items ("toString" ∷ "soup" ∷ []) results ≡ inherited "toString" ∷ []
unfolding resolve_mentioned_items resolve_keys distinct_keys has_key lookup get same
named_inherited = refl

resolve_mentioned_items-eq_example :
    (resolve_mentioned_items named results
      ≡ first max_mentioned_items (shown results (distinct_keys [] named)))
    × (length (resolve_mentioned_items named results) ≤ max_mentioned_items)
    × ((key : String) → IsFound results key (lookup key results))
resolve_mentioned_items-eq_example = resolve_mentioned_items-eq named results
