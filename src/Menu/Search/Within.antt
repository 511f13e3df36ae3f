-- ===== src/Menu/Search/Within.antt =====
-- What any search returns (menu-service.ts, candidate-matcher.ts).
use voice_order_backend.Base.{
  map, refl, Option-cases, Bool-cases, [], ℕ, inr, List, true, All, ◌≡◌, ◌∷◌, arith, ◌&&◌, inl,
  or_else,
}
use voice_order_backend.Menu.{CandidateItem, MenuItem, Score}
use voice_order_backend.Menu.Matcher.{
  MatchOptions, Limit, within_price, to_candidate, rank, cut, score_all, scored, passes, not_worse,
  max_candidates_to_llm, uncut, at_most,
}
use voice_order_backend.Menu.Search.{
  by_sales, browsed, with_tier, tier_of, rank_of, ranked_ids, ranks_no_later,
}
use voice_order_backend.Base.Sort.{sort_by, All-sort_by, All-take}

-- It is an available item of the menu, at its price, which is in the window.
pub record IsOffered (Q : MenuItem → Type 0) (opts : MatchOptions) (c : CandidateItem)
    : Type 0 where
  pub item : MenuItem
  pub on_menu : Q item
  pub is_available : item.available ≡ true
  pub in_window : within_price item.base_price_cents opts ≡ true
  pub key : c.menu_item_key ≡ item.menu_item_key
  pub tmpl : c.product_tmpl_id ≡ item.product_tmpl_id
  pub price : c.base_price_cents ≡ item.base_price_cents

All-map :
    {A B : Type 0} (f : A → B) (P : A → Type 0) (R : B → Type 0)
    → ((a : A) → P a → R (f a))
    → (l : List A) → All P l
    → All R (map f l)
All-map f P R g [] h = tt
All-map f P R g (a ∷ l) h = (g a h.0, All-map f P R g l h.1)

module _ (Q : MenuItem → Type 0) where
  score_all-IsOffered :
      (emb_of : MenuItem → Score) (phrases : List (List ℕ)) (opts : MatchOptions)
      (items : List MenuItem)
      → All Q items
      → All (λ s. IsOffered Q opts s.item) (score_all emb_of phrases opts items)
  unfolding score_all passes scored to_candidate
  score_all-IsOffered emb_of phrases opts [] h = tt
  score_all-IsOffered emb_of phrases opts (item ∷ items) h =
      elim (Bool-cases (passes emb_of phrases opts item)) [
        | inr b ↦ rw b (score_all-IsOffered emb_of phrases opts items h.1)
        | inl b ↦ rw b (
          record {
            item = item;
            on_menu = h.0;
            is_available = ground (arith, b);
            in_window = ground (arith, b);
            key = refl;
            tmpl = refl;
            price = refl;
          },
          score_all-IsOffered emb_of phrases opts items h.1,
        )
      ]

  cut-All : {A : Type 0} (P : A → Type 0) (n : Limit) (l : List A) → All P l → All P (cut n l)
  unfolding cut
  cut-All P (at_most n) l h = All-take P n l h
  cut-All P uncut l h = h

  pub rank-IsOffered :
      (items : List MenuItem) (phrases : List (List ℕ)) (emb_of : MenuItem → Score)
      (opts : MatchOptions)
      → All Q items
      → All (IsOffered Q opts) (rank items phrases emb_of opts)
  unfolding rank
  rank-IsOffered items phrases emb_of opts h =
      All-map (λ s. s.item) (λ s. IsOffered Q opts s.item) (IsOffered Q opts) (λ s k. k)
        (cut (or_else opts.limit (at_most max_candidates_to_llm))
          (sort_by not_worse (score_all emb_of phrases opts items)))
        (cut-All (λ s. IsOffered Q opts s.item) (or_else opts.limit (at_most max_candidates_to_llm))
          (sort_by not_worse (score_all emb_of phrases opts items))
          (All-sort_by not_worse (λ s. IsOffered Q opts s.item)
            (score_all emb_of phrases opts items)
            (score_all-IsOffered emb_of phrases opts items h)))

  pub browsed-IsOffered :
      (opts : MatchOptions) (items : List MenuItem)
      → All Q items
      → All (IsOffered Q opts) (browsed opts items)
  unfolding browsed to_candidate
  browsed-IsOffered opts [] h = tt
  browsed-IsOffered opts (item ∷ items) h =
      elim (Bool-cases (item.available && within_price item.base_price_cents opts)) [
        | inr b ↦ rw b (browsed-IsOffered opts items h.1)
        | inl b ↦ rw b (
          record {
            item = item;
            on_menu = h.0;
            is_available = ground (arith, b);
            in_window = ground (arith, b);
            key = refl;
            tmpl = refl;
            price = refl;
          },
          browsed-IsOffered opts items h.1,
        )
      ]

  with_tier-IsOffered :
      (ranked : List ℕ) (opts : MatchOptions) (c : CandidateItem)
      → IsOffered Q opts c
      → IsOffered Q opts (with_tier ranked c)
  unfolding with_tier
  with_tier-IsOffered ranked opts c h =
      elim (Option-cases (tier_of (rank_of ranked c.product_tmpl_id))) [
        | inl e ↦ rw (e, with_tier) h
        | inr (t, e) ↦
            rw (e, with_tier)
              (record {
                item = h.item;
                on_menu = h.on_menu;
                is_available = h.is_available;
                in_window = h.in_window;
                key = h.key;
                tmpl = h.tmpl;
                price = h.price;
              })
      ]

  pub by_sales-IsOffered :
      (opts : MatchOptions) (qty : List (ℕ × ℕ)) (items : List CandidateItem)
      → All (IsOffered Q opts) items
      → All (IsOffered Q opts) (by_sales qty items)
  unfolding by_sales
  by_sales-IsOffered opts qty items h =
      let r = ranked_ids qty in
      All-sort_by (ranks_no_later r) (IsOffered Q opts) (map (with_tier r) items) (
        All-map (with_tier r) (IsOffered Q opts) (IsOffered Q opts)
          (λ c k. with_tier-IsOffered r opts c k) items h)
