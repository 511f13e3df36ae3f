-- ===== src/Menu/Search/Answers.antt =====
-- Every answer of a search, on each of its paths (menu-service.ts, candidate-matcher.ts).
use voice_order_backend.Menu.Chunk.{chunk}
use voice_order_backend.Menu.Fuzzy.{lower_unit}
use voice_order_backend.Menu.{CandidateItem, MenuItem, Score}
use voice_order_backend.Menu.Matcher.{
  MenuStore, EmbeddingService, MatchOptions, Limit, within_price, rank, cut, fuzzy_scan, hybrid,
  retrieve, match_phrases, match_text, max_candidates_to_llm, score_all, not_worse, ids_of,
  union_ids, at_most, uncut, knn_k,
}
use voice_order_backend.Menu.Search.{
  by_sales, browsed, browse, pool, popular_search, search_menu, MenuSearchOptions, price_of,
  limit_of, wants_popularity, query_of, window_days,
}
use voice_order_backend.Menu.Search.Within.{
  IsOffered, rank-IsOffered, browsed-IsOffered, by_sales-IsOffered,
}
use native.Mathlib.Nat.{min-le_right}
use voice_order_backend.Base.Sort.{sort_by, All-take}
use voice_order_backend.Base.{
  >>=-eq-returned, ap, ◌≡◌, not, Bool-cases, sym, inl, or_else, All, length, suc, map, ◌≤◌, zero,
  ◌∷◌, inr, returned, ℕ, take, List, arith, subst, none, ◌++◌, filter_b, Option-cases, refl, ◌==◌,
  [], some, Option, utf16,
}

length-take_le : {A : Type 0} (n : ℕ) (l : List A) → length (take n l) ≤ n
length-take_le zero l = omega arith
length-take_le (suc n) [] = omega arith
length-take_le (suc n) (x ∷ l) = let h = length-take_le n l in omega arith

length-map : {A B : Type 0} (f : A → B) (l : List A) → length (map f l) ≡ length l
length-map f [] = refl
length-map f (x ∷ l) = ap suc (length-map f l)

abbrev Fits : Limit → ℕ → Type 0
Fits (at_most n) k = k ≤ n
Fits uncut k = Unit

cut-Fits : {A : Type 0} (n : Limit) (l : List A) → Fits n (length (cut n l))
unfolding cut
cut-Fits (at_most n) l = length-take_le n l
cut-Fits uncut l = tt

rank-Fits :
    (items : List MenuItem) (phrases : List (List ℕ)) (emb_of : MenuItem → Score)
    (opts : MatchOptions)
    → Fits
        (or_else opts.limit (at_most max_candidates_to_llm))
        (length (rank items phrases emb_of opts))
unfolding rank
rank-Fits items phrases emb_of opts =
    let n = or_else opts.limit (at_most max_candidates_to_llm) in
    let l = sort_by not_worse (score_all emb_of phrases opts items) in
    subst (Fits n) (sym (length-map (λ s. s.item) (cut n l))) (cut-Fits n l)

Fits-zero : (n : Limit) → Fits n 0
Fits-zero (at_most n) = omega arith
Fits-zero uncut = tt

module _ {V : Type 0} (store : MenuStore V) (embedder : EmbeddingService V) (pos : ℕ)
    (Q : MenuItem → Type 0)
    (all_on_menu : (l : List MenuItem) → store.all_items pos ≡ returned l → All Q l)
    (got_on_menu : (ids : List ℕ) (l : List MenuItem)
      → store.get_items pos ids ≡ returned l
      → All Q l) where
  abbrev Answer : MatchOptions → List CandidateItem → Type 0
  Answer opts l =
      All (IsOffered Q opts) l
      × Fits (or_else opts.limit (at_most max_candidates_to_llm)) (length l)

  rank-Answer :
      (items : List MenuItem) (phrases : List (List ℕ)) (emb_of : MenuItem → Score)
      (opts : MatchOptions) (l : List CandidateItem)
      → All Q items
      → returned (rank items phrases emb_of opts) ≡ returned l
      → Answer opts l
  rank-Answer items phrases emb_of opts l h e =
      let q : rank items phrases emb_of opts ≡ l = cc in
      subst (Answer opts) q
        (rank-IsOffered Q items phrases emb_of opts h, rank-Fits items phrases emb_of opts)

  fuzzy_scan-Answer :
      (phrases : List (List ℕ)) (opts : MatchOptions) (l : List CandidateItem)
      → fuzzy_scan store embedder pos phrases opts ≡ returned l
      → Answer opts l
  unfolding fuzzy_scan
  fuzzy_scan-Answer phrases opts l e =
      let (items, i, r) = >>=-eq-returned (store.all_items pos) _ e in
      rank-Answer items phrases _ opts l (all_on_menu items i) r

  hybrid-Answer :
      (phrases : List (List ℕ)) (opts : MatchOptions) (sims : List (ℕ × Score)) (ids : List ℕ)
      (l : List CandidateItem)
      → hybrid store embedder pos phrases opts sims ids ≡ returned l
      → Answer opts l
  unfolding hybrid
  hybrid-Answer phrases opts sims [] l e = fuzzy_scan-Answer phrases opts l e
  hybrid-Answer phrases opts sims (id ∷ ids) l e =
      let (items, i, r) = >>=-eq-returned (store.get_items pos (id ∷ ids)) _ e in
      rank-Answer items phrases _ opts l (got_on_menu (id ∷ ids) items i) r

  retrieve-Answer :
      (phrases : List (List ℕ)) (opts : MatchOptions) (vs : List V) (l : List CandidateItem)
      → retrieve store embedder pos phrases opts vs ≡ returned l
      → Answer opts l
  unfolding retrieve
  retrieve-Answer phrases opts [] l e = fuzzy_scan-Answer phrases opts l e
  retrieve-Answer phrases opts (v ∷ vs) l e =
      let (sims, i, r) = >>=-eq-returned (store.knn_search pos (v ∷ vs) knn_k) _ e in
      let (ids, j, t) = >>=-eq-returned (store.lexical_search pos phrases) _ r in
      hybrid-Answer phrases opts sims (union_ids [] (ids_of sims ++ ids)) l t

  match_phrases-Answer :
      (phrases : List (List ℕ)) (opts : MatchOptions) (l : List CandidateItem)
      → match_phrases store embedder pos phrases opts ≡ returned l
      → Answer opts l
  unfolding match_phrases
  match_phrases-Answer [] opts l e =
      let q : [] ≡ l = cc in
      subst (Answer opts) q (tt, Fits-zero (or_else opts.limit (at_most max_candidates_to_llm)))
  match_phrases-Answer (p ∷ ps) opts l e = elim (Bool-cases (embedder.dimensions == 0)) [
    | inl b ↦ fuzzy_scan-Answer (p ∷ ps) opts l (rw b at e)
    | inr b ↦
        let (vs, i, r) = >>=-eq-returned (embedder.embed_batch (p ∷ ps)) _ (rw b at e) in
        retrieve-Answer (p ∷ ps) opts (filter_b (λ v. not (embedder.is_empty v)) vs) l r
  ]

  -- The window does not depend on the limit.
  reprice :
      (opts : MenuSearchOptions) (m n : Option Limit) (l : List CandidateItem)
      → All (IsOffered Q (price_of opts m)) l
      → All (IsOffered Q (price_of opts n)) l
  unfolding within_price price_of
  reprice opts m n [] h = tt
  reprice opts m n (c ∷ l) (k, h) = (
    record {
      item = k.item;
      on_menu = k.on_menu;
      is_available = k.is_available;
      in_window = k.in_window;
      key = k.key;
      tmpl = k.tmpl;
      price = k.price;
    },
    reprice opts m n l h,
  )

  pool-IsOffered :
      (opts : MenuSearchOptions) (l : List CandidateItem)
      → pool store embedder pos opts ≡ returned l
      → All (IsOffered Q (price_of opts none)) l
  unfolding pool browse match_text
  pool-IsOffered opts l e = elim (Option-cases (query_of opts)) [
    | inl q ↦
        let (items, i, r) = >>=-eq-returned (store.all_items pos) _ (rw (q, pool) at e) in
        let t : browsed (price_of opts none) items ≡ l = cc in
        subst (All (IsOffered Q (price_of opts none))) t
          (browsed-IsOffered Q (price_of opts none) items (all_on_menu items i))
    | inr (s, q) ↦
        reprice opts (some uncut) none l
          (match_phrases-Answer (chunk (map lower_unit (utf16 s))) (price_of opts (some uncut)) l
            (rw (q, pool) at e)).0
  ]

  popular_search-Answer :
      (opts : MenuSearchOptions) (l : List CandidateItem)
      → popular_search store embedder pos opts ≡ returned l
      → All (IsOffered Q (price_of opts none)) l × (length l ≤ limit_of opts)
  unfolding popular_search
  popular_search-Answer opts l e =
      let (qty, i, r) = >>=-eq-returned (store.popularity pos window_days) _ e in
      let (items, j, t) = >>=-eq-returned (pool store embedder pos opts) _ r in
      let q : take (limit_of opts) (by_sales qty items) ≡ l = cc in
      (
        subst (All (IsOffered Q (price_of opts none))) q (
            All-take (IsOffered Q (price_of opts none)) (limit_of opts) (by_sales qty items)
              (by_sales-IsOffered Q (price_of opts none) qty items (pool-IsOffered opts items j))),
        subst (λ x. length x ≤ limit_of opts) q
            (length-take_le (limit_of opts) (by_sales qty items)),
      )

  -- A search that answers, by relevance or by popularity, through the embeddings or without them,
  -- returns only items that the store's menu of the point of sale has, that are available and whose
  -- price lies within the bounds asked for, and no more of them than asked for, nor than eight.
  pub search_menu-IsOffered :
      (opts : MenuSearchOptions) (l : List CandidateItem)
      → search_menu store embedder pos opts ≡ returned l
      → All (IsOffered Q (price_of opts none)) l
        × (length l ≤ limit_of opts)
        × (limit_of opts ≤ max_candidates_to_llm)
  unfolding search_menu match_text limit_of price_of
  search_menu-IsOffered opts l e = elim (Bool-cases (wants_popularity opts)) [
    | inl b ↦
        let (h, k) = popular_search-Answer opts l (rw b at e) in
        (h, k, min-le_right (or_else opts.limit max_candidates_to_llm) max_candidates_to_llm)
    | inr b ↦
        let limit : Option Limit = some (at_most (limit_of opts)) in
        let (h, k) =
          match_phrases-Answer (chunk (map lower_unit (utf16 (or_else opts.query ""))))
            (price_of opts limit) l (rw b at e) in
        (
          reprice opts limit none l h,
          k,
          min-le_right (or_else opts.limit max_candidates_to_llm) max_candidates_to_llm,
        )
  ]
