-- ===== src/Menu/Matcher.antt =====
-- src/menu/candidate-matcher.ts and src/menu/modifier-matcher.ts: the ranking of menu items against the
-- phrases of a transcript. The store and the embeddings are arguments; a vector is of any type.
-- Fractions are exact where the source computes in floating point.
use voice_order_backend.Menu.Chunk.{chunk}
use voice_order_backend.Base.Int.{ℤ, ltb_ℤ}
use voice_order_backend.Base.{
  map, Option, if◌then◌else◌, Attempt, ℕ, not, ◌>>=◌, take, none, [], utf16, Bool, ◌+◌, ◌==◌,
  filter_b, ◌++◌, true, ◌∷◌, or_else, ◌*◌, List, returned, some, ◌&&◌, if◌then◌else◌,
}
use voice_order_backend.Menu.{
  Score, CandidateItem, CandidateModifier, MenuItem, Names, display_name,
}
use voice_order_backend.Menu.Fuzzy.{similarity, score_lt, score_le, none_score, lower_unit}
use voice_order_backend.Base.Sort.{sort_by}

-- `MenuStore` of src/menu/menu-store.ts, as far as the matcher and the search use it.
pub record MenuStore (V : Type 0) : Type 0 where
  pub knn_search : ℕ → List V → ℕ → Attempt (List (ℕ × Score))
  pub lexical_search : ℕ → List (List ℕ) → Attempt (List ℕ)
  pub get_items : ℕ → List ℕ → Attempt (List MenuItem)
  pub all_items : ℕ → Attempt (List MenuItem)
  pub popularity : ℕ → ℕ → Attempt (List (ℕ × ℕ))

pub record EmbeddingService (V : Type 0) : Type 0 where
  pub dimensions : ℕ
  pub embed_batch : List (List ℕ) → Attempt (List V)
  pub is_empty : V → Bool

-- `Infinity` is the limit that cuts nothing.
pub data Limit : Type 0 where
  at_most : ℕ → Limit
  uncut : Limit

pub record MatchOptions : Type 0 where
  pub limit : Option Limit
  pub min_price_cents : Option ℤ
  pub max_price_cents : Option ℤ

abbrev pub max_candidates_to_llm : ℕ
max_candidates_to_llm = 8

abbrev pub knn_k : ℕ
knn_k = 24

unfoldable pub within_price : ℤ → MatchOptions → Bool
within_price price opts =
    elim opts.min_price_cents [ none ↦ true | some low ↦ not (ltb_ℤ price low) ]
    && elim opts.max_price_cents [ none ↦ true | some high ↦ not (ltb_ℤ high price) ]

unfoldable pub to_candidate : MenuItem → CandidateItem
to_candidate item = record {
  menu_item_key = item.menu_item_key;
  product_tmpl_id = item.product_tmpl_id;
  name = display_name (some item.names) item.menu_item_key;
  names = some item.names;
  score = none;
  base_price_cents = item.base_price_cents;
  available_modifiers = item.modifiers;
  popularity = none;
}

-- `if (s > best) best = s`
abbrev pub better : Score → Score → Score
better best s = if score_lt best s then s else best

-- The best similarity of a phrase to one of these names.
unfoldable pub best_name : List ℕ → List (List ℕ) → Score → Score
best_name phrase [] best = best
best_name phrase (name ∷ names) best = best_name phrase names (better best (similarity phrase name))

unfoldable pub best_phrase : List (List ℕ) → List (List ℕ) → Score → Score
best_phrase [] names best = best
best_phrase (phrase ∷ phrases) names best = best_phrase phrases names (best_name phrase names best)

-- `modifierMatchScore`, with its threshold of 0.6.
unfoldable pub modifier_match_score : List (List ℕ) → List CandidateModifier → Score
modifier_match_score phrases modifiers =
    let best = best_phrase phrases (map (λ m. utf16 m.name) modifiers) none_score in
    if score_le (record { num = 6; den = 10 }) best then best else none_score

unfoldable pub lower_names : Names → List (List ℕ)
lower_names [] = []
lower_names ((lang, name) ∷ names) = map lower_unit (utf16 name) ∷ lower_names names

-- 0.55 emb + 0.35 fuzzy + 0.1 mod
unfoldable pub weigh : Score → Score → Score → Score
weigh emb fuzzy mods = record {
  num =
      55 * emb.num * fuzzy.den * mods.den
      + 35 * fuzzy.num * emb.den * mods.den
      + 10 * mods.num * emb.den * fuzzy.den;
  den = 100 * emb.den * fuzzy.den * mods.den;
}

abbrev pub score_threshold : Score
score_threshold = record { num = 15; den = 100 }

pub record Scored : Type 0 where
  pub item : CandidateItem
  pub score : Score

unfoldable pub relevance : (MenuItem → Score) → List (List ℕ) → MenuItem → Score
relevance emb_of phrases item =
    weigh (emb_of item) (best_phrase phrases (lower_names item.names) none_score)
      (modifier_match_score phrases item.modifiers)

unfoldable pub scored : (MenuItem → Score) → List (List ℕ) → MenuItem → Scored
scored emb_of phrases item =
    let score = relevance emb_of phrases item in
    record { item = record (to_candidate item) { score = some score }; score = score }

-- None of the three `continue`s of the loop is taken.
unfoldable pub passes : (MenuItem → Score) → List (List ℕ) → MatchOptions → MenuItem → Bool
passes emb_of phrases opts item =
    item.available
    && within_price item.base_price_cents opts
    && not (score_lt (relevance emb_of phrases item) score_threshold)

unfoldable pub score_all :
    (MenuItem → Score) → List (List ℕ) → MatchOptions → List MenuItem → List Scored
score_all emb_of phrases opts [] = []
score_all emb_of phrases opts (item ∷ items) =
    let rest = score_all emb_of phrases opts items in
    if passes emb_of phrases opts item then scored emb_of phrases item ∷ rest else rest

abbrev pub not_worse : Scored → Scored → Bool
not_worse a b = score_le b.score a.score

unfoldable pub cut {ℓ} : {A : Type ℓ} → Limit → List A → List A
cut (at_most n) l = take n l
cut uncut l = l

unfoldable pub rank :
    List MenuItem → List (List ℕ) → (MenuItem → Score) → MatchOptions → List CandidateItem
rank items phrases emb_of opts =
    map (λ s. s.item)
      (cut (or_else opts.limit (at_most max_candidates_to_llm))
        (sort_by not_worse (score_all emb_of phrases opts items)))

-- `map.get(k)`
unfoldable pub get_number {ℓ} : {A : Type ℓ} → ℕ → List (ℕ × A) → Option A
get_number k [] = none
get_number k ((j, a) ∷ m) = if j == k then some a else get_number k m

unfoldable pub keep_new : ℕ → List ℕ → List ℕ
keep_new k [] = k ∷ []
keep_new k (j ∷ js) = let rest = keep_new k js in if j == k then j ∷ js else j ∷ rest

-- `new Set([...a, ...b])`
unfoldable pub union_ids : List ℕ → List ℕ → List ℕ
union_ids known [] = known
union_ids known (k ∷ ks) = union_ids (keep_new k known) ks

unfoldable pub ids_of {ℓ} : {A : Type ℓ} → List (ℕ × A) → List ℕ
ids_of [] = []
ids_of ((k, a) ∷ m) = k ∷ ids_of m

module _ {V : Type 0} (store : MenuStore V) (embedder : EmbeddingService V) (pos : ℕ) where
  unfoldable pub fuzzy_scan : List (List ℕ) → MatchOptions → Attempt (List CandidateItem)
  fuzzy_scan phrases opts = do
    items ← store.all_items pos
    returned (rank items phrases (λ item. none_score) opts)

  unfoldable pub hybrid :
      List (List ℕ) → MatchOptions → List (ℕ × Score) → List ℕ → Attempt (List CandidateItem)
  hybrid phrases opts sims [] = fuzzy_scan phrases opts
  hybrid phrases opts sims (id ∷ ids) = do
    items ← store.get_items pos (id ∷ ids)
    returned (
        rank items phrases (λ item. or_else (get_number item.product_tmpl_id sims) none_score) opts)

  unfoldable pub retrieve : List (List ℕ) → MatchOptions → List V → Attempt (List CandidateItem)
  retrieve phrases opts [] = fuzzy_scan phrases opts
  retrieve phrases opts (v ∷ vs) = do
    sims ← store.knn_search pos (v ∷ vs) knn_k
    lex_ids ← store.lexical_search pos phrases
    hybrid phrases opts sims (union_ids [] (ids_of sims ++ lex_ids))

  unfoldable pub match_phrases : List (List ℕ) → MatchOptions → Attempt (List CandidateItem)
  match_phrases [] opts = returned []
  match_phrases (p ∷ ps) opts =
      if embedder.dimensions == 0
      then fuzzy_scan (p ∷ ps) opts
      else (embedder.embed_batch (p ∷ ps) >>= λ vs.
          retrieve (p ∷ ps) opts (filter_b (λ v. not (embedder.is_empty v)) vs))

  unfoldable pub match_text : List ℕ → MatchOptions → Attempt (List CandidateItem)
  match_text text opts = match_phrases (chunk (map lower_unit text)) opts
