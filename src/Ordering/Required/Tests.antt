-- ===== src/Ordering/Required/Tests.antt =====
-- Runs of required-modifiers.ts on an item that comes in one of two sizes.
use voice_order_backend.Base.{
  ◌≡◌, refl, [], ◌∷◌, some, none, true, false, String, List, same, get, put,
}
use voice_order_backend.Base.Int.{pos}
use voice_order_backend.Menu.{MenuItem, CandidateModifier, display_name}
use voice_order_backend.Contracts.{add_item, add_modifier, remove_modifier, CartOperation}
use voice_order_backend.Ordering.Required.{
  LineView, LineState, find_violations, add_violations, edit_violations, check_item,
  check_exactly_one, check_groups, required_groups, add_group, insert, member, is_required,
  in_group, group_of, group_name_of, option_names, chosen, judged, to_option, simulate,
  simulate_one, on_line, state_of, fresh_state, choose, unchoose, touch, without_repeats,
  has_violation,
}

abbrev size : String → CandidateModifier
size name = record {
  modifier_key = name;
  ptav_id = 1;
  name = name;
  names = none;
  price_extra_cents = pos 0;
  group_key = some "g1";
  group_name = some "Size";
  required = some true;
}

abbrev noodles : MenuItem
noodles = record {
  product_tmpl_id = 9;
  menu_item_key = "noodles";
  names = ("en_US", "Noodles") ∷ [];
  base_price_cents = pos 900;
  available = true;
  modifiers = size "small" ∷ size "large" ∷ [];
}

abbrev menu_items : List (String × MenuItem)
menu_items = ("noodles", noodles) ∷ []

abbrev line : LineView
line = record {
  line_id = "l0";
  name = "Noodles";
  modifiers = to_option (size "small") ∷ [];
  available_modifiers = to_option (size "small") ∷ to_option (size "large") ∷ [];
}

-- One more bowl, and the one in the cart is changed from small to large.
abbrev swap : List CartOperation
swap =
    add_item "noodles" 1 ("small" ∷ [])
    ∷ remove_modifier "l0" "small"
    ∷ add_modifier "l0" "large"
    ∷ []

abbrev swapped : LineState
swapped = record {
  options = line.available_modifiers;
  label = "Noodles";
  keys = "large" ∷ [];
  touched_groups = "g1" ∷ [];
  removed = false;
}

swap-simulate : get "l0" (simulate (line ∷ []) swap []) ≡ some swapped
unfolding simulate simulate_one on_line state_of fresh_state choose unchoose touch insert member get
    put same to_option
swap-simulate = refl

-- A bowl of no size.
missing_size :
    find_violations (add_item "noodles" 1 [] ∷ []) none menu_items
    ≡ record {
      label = "Noodles";
      group_name = "Size";
      options = "small" ∷ "large" ∷ [];
      selected = 0;
    }
      ∷ []
unfolding find_violations add_violations edit_violations check_item check_exactly_one check_groups
    required_groups add_group insert member is_required in_group group_of group_name_of option_names
    chosen judged to_option without_repeats has_violation get same display_name
missing_size = refl
