-- ===== src/Menu/Search.antt =====
-- `searchMenu` of src/menu/menu-service.ts: relevance search, price filter and order by popularity, for
-- the ordering agent. The quantities sold that the store returns are the entries of a map, so that
-- their keys are distinct.
pub mod Sales
pub mod Within
pub mod Answers
mod Tests
use voice_order_backend.Base.Int.{ℤ}
use voice_order_backend.Base.{
  ◌>>=◌, suc, Attempt, take, List, returned, true, [], ℕ, Option, if◌then◌else◌, ◌&&◌, leb, none,
  Bool, map, some, same, utf16, not, or_else, length, ◌+◌, min, ◌==◌, ◌∷◌, is_some, String,
  filter_b, if◌then◌else◌,
}
use voice_order_backend.Menu.{CandidateItem, MenuItem, PopularityTier, popular, top}
use voice_order_backend.Menu.Matcher.{
  MenuStore, EmbeddingService, MatchOptions, Limit, max_candidates_to_llm, within_price,
  to_candidate, get_number, ids_of, match_text, uncut, at_most, rank,
}
use voice_order_backend.Base.Sort.{sort_by}

pub data SearchSort : Type 0 where
  by_relevance by_popularity : SearchSort

pub record MenuSearchOptions : Type 0 where
  pub query : Option String
  pub sort : Option SearchSort
  pub max_price_cents : Option ℤ
  pub min_price_cents : Option ℤ
  pub limit : Option ℕ

abbrev pub window_days : ℕ
window_days = 90

abbrev pub top_rank : ℕ
top_rank = 5

abbrev pub popular_rank : ℕ
popular_rank = 20

unfoldable pub tier_of : Option ℕ → Option PopularityTier
tier_of none = none
tier_of (some rank) =
    if leb rank top_rank then some top else (if leb rank popular_rank then some popular else none)

-- `qtySold.get(k) ?? 0`
abbrev pub sold_of : List (ℕ × ℕ) → ℕ → ℕ
sold_of qty_sold k = or_else (get_number k qty_sold) 0

abbrev pub sells_no_less : List (ℕ × ℕ) → ℕ → ℕ → Bool
sells_no_less qty_sold a b = leb (sold_of qty_sold b) (sold_of qty_sold a)

unfoldable pub ranked_ids : List (ℕ × ℕ) → List ℕ
ranked_ids qty_sold = sort_by (sells_no_less qty_sold) (ids_of qty_sold)

-- `rankOf.get(k)`; the first rank is 1.
unfoldable pub rank_from : ℕ → List ℕ → ℕ → Option ℕ
rank_from i [] k = none
rank_from i (t ∷ ts) k = if t == k then some i else rank_from (suc i) ts k

abbrev pub rank_of : List ℕ → ℕ → Option ℕ
rank_of ranked k = rank_from 1 ranked k

unfoldable pub with_tier : List ℕ → CandidateItem → CandidateItem
with_tier ranked c = elim (tier_of (rank_of ranked c.product_tmpl_id)) [
  | none ↦ c
  | some tier ↦ record c { popularity = some tier }
]

-- `rankOf.get(k) ?? unranked`
abbrev pub place_of : List ℕ → CandidateItem → ℕ
place_of ranked c = or_else (rank_of ranked c.product_tmpl_id) (length ranked + 1)

abbrev pub ranks_no_later : List ℕ → CandidateItem → CandidateItem → Bool
ranks_no_later ranked a b = leb (place_of ranked a) (place_of ranked b)

unfoldable pub by_sales : List (ℕ × ℕ) → List CandidateItem → List CandidateItem
by_sales qty_sold items =
    let ranked = ranked_ids qty_sold in
    sort_by (ranks_no_later ranked) (map (with_tier ranked) items)

unfoldable pub limit_of : MenuSearchOptions → ℕ
limit_of opts = min (or_else opts.limit max_candidates_to_llm) max_candidates_to_llm

-- A query that is there and not empty.
unfoldable pub query_of : MenuSearchOptions → Option String
query_of opts = elim opts.query [ none ↦ none | some q ↦ if same q "" then none else some q ]

unfoldable pub wants_popularity : MenuSearchOptions → Bool
wants_popularity opts = elim opts.sort [
  | some by_popularity ↦ true
  | _ ↦ not (is_some (query_of opts))
]

unfoldable pub price_of : MenuSearchOptions → Option Limit → MatchOptions
price_of opts limit = record {
  limit = limit;
  min_price_cents = opts.min_price_cents;
  max_price_cents = opts.max_price_cents;
}

unfoldable pub browsed : MatchOptions → List MenuItem → List CandidateItem
browsed price items =
    map to_candidate (filter_b (λ i. i.available && within_price i.base_price_cents price) items)

module _ {V : Type 0} (store : MenuStore V) (embedder : EmbeddingService V) (pos : ℕ) where
  unfoldable pub browse : MatchOptions → Attempt (List CandidateItem)
  browse price = do items ← store.all_items pos; returned (browsed price items)

  -- What is ordered by popularity: the relevant items, not cut, or the whole menu.
  unfoldable pub pool : MenuSearchOptions → Attempt (List CandidateItem)
  pool opts = elim (query_of opts) [
    | some q ↦ match_text store embedder pos (utf16 q) (price_of opts (some uncut))
    | none ↦ browse (price_of opts none)
  ]

  unfoldable pub popular_search : MenuSearchOptions → Attempt (List CandidateItem)
  popular_search opts = do
    qty_sold ← store.popularity pos window_days
    items ← pool opts
    returned (take (limit_of opts) (by_sales qty_sold items))

  unfoldable pub search_menu : MenuSearchOptions → Attempt (List CandidateItem)
  search_menu opts =
      if wants_popularity opts
      then popular_search opts
      else match_text store embedder pos (utf16 (or_else opts.query ""))
          (price_of opts (some (at_most (limit_of opts))))
