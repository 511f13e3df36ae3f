-- ===== src/Menu/Search/Tests.antt =====
-- Runs of the matcher and of the search.
use voice_order_backend.Base.Int.{pos}
use voice_order_backend.Base.{
  inl, true, subst, [], arith, false, ◌≡◌, none, ℕ, some, ◌∷◌, refl, length, All, returned, ◌≤◌,
  List, utf16,
}
use voice_order_backend.Base.Sort.{sort_by, insert_sorted}
use voice_order_backend.Base.Units.{
  trim_units, keep_units, trim_right, trim_all, keep_unless_blank, push, trim_left,
}
use voice_order_backend.Menu.{CandidateItem, MenuItem, top}
use voice_order_backend.Menu.Fuzzy.{
  same_units, squeeze, levenshtein, similarity, normalize, rows, lower_unit, starts_with, first_row,
  next_row, fill,
}
use voice_order_backend.Menu.Fuzzy.Distance.{Edits}
use voice_order_backend.Menu.Fuzzy.Table.{levenshtein-least}
use voice_order_backend.Menu.Chunk.{chunk, next_is_word, split_words, word_here, separator, is_word}
use voice_order_backend.Menu.Matcher.{
  MenuStore, EmbeddingService, MatchOptions, ids_of, within_price, to_candidate, get_number,
}
use voice_order_backend.Menu.Search.{
  search_menu, MenuSearchOptions, limit_of, price_of, pool, wants_popularity, browse,
  popular_search, query_of, rank_from, tier_of, by_sales, with_tier, ranked_ids, browsed,
}
use voice_order_backend.Menu.Search.Sales.{search_menu-IsBestSelling, IsBestSelling, whole_menu}
use voice_order_backend.Menu.Search.Answers.{search_menu-IsOffered}
use voice_order_backend.Menu.Search.Within.{IsOffered}

-- An accented letter is made lower case as well.
accented : similarity (utf16 "CAFÉ") (utf16 "café") ≡ record { num = 1; den = 1 }
unfolding similarity normalize squeeze lower_unit trim_units trim_left trim_right keep_unless_blank
    same_units
accented = refl

-- A character outside the basic plane is two units.
two_units : utf16 "𝄞" ≡ 55348 ∷ 56606 ∷ []
two_units = refl

-- One letter fewer at the front, one more at the end.
two_edits : levenshtein (utf16 "flaw") (utf16 "lawn") ≡ 2
unfolding levenshtein rows next_row fill first_row
two_edits = refl

levenshtein-least_example :
    Edits (utf16 "cat") (utf16 "cart") (levenshtein (utf16 "cat") (utf16 "cart"))
    × ((n : ℕ)
        → Edits (utf16 "cat") (utf16 "cart") n
        → levenshtein (utf16 "cat") (utf16 "cart") ≤ n)
levenshtein-least_example = levenshtein-least (utf16 "cat") (utf16 "cart")

phrases :
    chunk (utf16 "a burger, no onion and tea") ≡ utf16 "a burger" ∷ utf16 "onion" ∷ utf16 "tea" ∷ []
unfolding chunk split_words separator word_here next_is_word is_word push trim_all trim_units
    trim_left trim_right keep_units keep_unless_blank starts_with lower_unit
phrases = refl

abbrev tea : MenuItem
tea = record {
  product_tmpl_id = 1;
  menu_item_key = "tea";
  names = ("en_US", "Tea") ∷ [];
  base_price_cents = pos 250;
  available = true;
  modifiers = [];
}

abbrev cake : MenuItem
cake = record tea {
  product_tmpl_id = 2;
  menu_item_key = "cake";
  names = ("en_US", "Cake") ∷ [];
  base_price_cents = pos 400;
}

abbrev stale : MenuItem
stale = record tea { product_tmpl_id = 3; menu_item_key = "stale"; available = false }

abbrev small_menu : MenuStore ℕ
small_menu = record {
  knn_search = λ p vs k. returned [];
  lexical_search = λ p ps. returned [];
  get_items = λ p ids. returned [];
  all_items = λ p. returned (tea ∷ cake ∷ stale ∷ []);
  popularity = λ p days. returned ((2, 30) ∷ []);
}

abbrev stub : EmbeddingService ℕ
stub = record { dimensions = 0; embed_batch = λ ps. returned []; is_empty = λ v. true }

abbrev browse_all : MenuSearchOptions
browse_all = record {
  query = none;
  sort = none;
  max_price_cents = none;
  min_price_cents = none;
  limit = none;
}

abbrev any_price : MatchOptions
any_price = record { limit = none; min_price_cents = none; max_price_cents = none }

-- The cake was sold, the tea was not.
abbrev shown : List CandidateItem
shown = record (to_candidate cake) { popularity = some top } ∷ to_candidate tea ∷ []

cake_first : search_menu small_menu stub 1 browse_all ≡ returned shown
unfolding search_menu wants_popularity query_of popular_search pool browse browsed within_price
    by_sales ranked_ids rank_from with_tier tier_of limit_of ids_of get_number sort_by insert_sorted
    price_of to_candidate
cake_first = refl

search_menu-IsBestSelling_example :
    (l : List CandidateItem) × (search_menu small_menu stub 1 browse_all ≡ returned l)
    × IsBestSelling
        ((2, 30) ∷ [])
        (limit_of browse_all)
        (to_candidate tea ∷ to_candidate cake ∷ [])
        l
unfolding wants_popularity query_of pool browse browsed within_price price_of
search_menu-IsBestSelling_example =
    search_menu-IsBestSelling small_menu stub 1 browse_all ((2, 30) ∷ [])
      (to_candidate tea ∷ to_candidate cake ∷ []) refl refl
      (whole_menu (tea ∷ cake ∷ stale ∷ []) (inl refl) refl)

-- An item of the small menu.
abbrev IsListed : MenuItem → Type 0
IsListed i = i.product_tmpl_id ≤ 3

All-IsListed : (l : List MenuItem) → small_menu.all_items 1 ≡ returned l → All IsListed l
All-IsListed l e = let q : tea ∷ cake ∷ stale ∷ [] ≡ l = cc in subst (All IsListed) q (omega arith)

got-IsListed :
    (ids : List ℕ) (l : List MenuItem) → small_menu.get_items 1 ids ≡ returned l → All IsListed l
got-IsListed ids l e = let q : [] ≡ l = cc in subst (All IsListed) q tt

search_menu-IsOffered_example :
    All (IsOffered IsListed (price_of browse_all none)) shown
    × (length shown ≤ limit_of browse_all)
    × (limit_of browse_all ≤ 8)
search_menu-IsOffered_example =
    search_menu-IsOffered small_menu stub 1 IsListed All-IsListed got-IsListed browse_all shown
      cake_first
