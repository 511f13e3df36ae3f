-- ===== src/Menu/Search/Sales.antt =====
-- A search by popularity puts what sells most first (menu-service.ts).
use voice_order_backend.Base.{
  utf16, same, String, filter_b, ◌&&◌, ◌⊎◌, ap, ◌≤◌, length, [], inl, some_injective, ◌∙◌, ◌==◌,
  ◌≡◌, suc, subst, true, List, Bool-cases, ◌<◌, arith, zero, ◌+◌, ==_iff, inr, ◌∷◌, get_elem?, some,
  ◌-◌, sym, ℕ, map, Option-cases, or_else, take, All, none, returned, false, refl,
}
use voice_order_backend.Menu.{CandidateItem, MenuItem}
use voice_order_backend.Menu.Matcher.{
  MatchOptions, match_text, uncut, to_candidate, within_price, MenuStore, EmbeddingService,
  get_number, ids_of,
}
use voice_order_backend.Menu.Search.{
  by_sales, rank_from, rank_of, ranked_ids, sold_of, sells_no_less, ranks_no_later, with_tier,
  limit_of, pool, query_of, browse, browsed, price_of, popular_search, search_menu, window_days,
  wants_popularity, MenuSearchOptions,
}
use voice_order_backend.Base.Sort.{
  InOrder, sort_by-InOrder, sort_by-Perm, InOrder-imp, All-of_sort_by,
}
use mathlib.Core.List.{Perm}

-- Where a number is in a list, by its rank.
rank_from-found :
    (i : ℕ) (l : List ℕ) (k r : ℕ)
    → rank_from i l k ≡ some r
    → (i ≤ r) × (r < i + length l) × (get_elem? l (r - i) ≡ some k)
unfolding rank_from
rank_from-found i [] k r h = absurd (cc)
rank_from-found i (t ∷ l) k r h = elim (Bool-cases (t == k)) [
  | inl e ↦
      let q : i ≡ r = ground (arith, e, h) in
      (omega (arith, q), omega (arith, q), ground (arith, q, (==_iff t k).0 e))
  | inr e ↦
      let (a, b, c) = rank_from-found (suc i) l k r (ground (arith, e, h)) in
      (
        omega (arith, a),
        omega (arith, b),
        (let q : suc (r - suc i) ≡ r - i = omega (arith, a) in
            subst (λ n. get_elem? (t ∷ l) n ≡ some k) q c),
      )
]

-- In a list in order of sales, what stands later sells no more.
module _ (qty : List (ℕ × ℕ)) where
  head-sells :
      (x : ℕ) (l : List ℕ) (j k : ℕ)
      → InOrder (λ a b. sells_no_less qty a b ≡ true) (x ∷ l)
      → get_elem? l j ≡ some k
      → sold_of qty k ≤ sold_of qty x
  head-sells x [] j k h e = absurd (cc)
  head-sells x (y ∷ l) zero k h e =
      let q : y ≡ k = some_injective e in
      let r : sold_of qty y ≤ sold_of qty x = ground (arith, h.0) in
      subst (λ n. sold_of qty n ≤ sold_of qty x) q r
  head-sells x (y ∷ l) (suc j) k h e =
      let r : sold_of qty y ≤ sold_of qty x = ground (arith, h.0) in
      omega (arith, r, head-sells y l j k h.1 e)

  InOrder-sells :
      (l : List ℕ) (i j a b : ℕ)
      → InOrder (λ a b. sells_no_less qty a b ≡ true) l
      → get_elem? l i ≡ some a
      → get_elem? l j ≡ some b
      → i ≤ j
      → sold_of qty b ≤ sold_of qty a
  InOrder-sells [] i j a b h p q o = absurd (cc)
  InOrder-sells (x ∷ l) zero zero a b h p q o =
      let e : a ≡ b = some_injective (sym p ∙ q) in omega (arith, ap (sold_of qty) e)
  InOrder-sells (x ∷ l) zero (suc j) a b h p q o =
      subst (λ n. sold_of qty b ≤ sold_of qty n) (some_injective p) (head-sells x l j b h q)
  InOrder-sells (x ∷ l) (suc i) zero a b h p q o = absurd (omega (arith, o))
  InOrder-sells (x ∷ []) (suc i) (suc j) a b h p q o = absurd (cc)
  InOrder-sells (x ∷ y ∷ l) (suc i) (suc j) a b h p q o =
      InOrder-sells (y ∷ l) i j a b h.1 p q (omega (arith, o))

abbrev IsOther : ℕ → ℕ → Type 0
IsOther k t = (t == k) ≡ false

rank_from-none : (i : ℕ) (l : List ℕ) (k : ℕ) → rank_from i l k ≡ none → All (IsOther k) l
unfolding rank_from
rank_from-none i [] k h = tt
rank_from-none i (t ∷ l) k h = elim (Bool-cases (t == k)) [
  | inl e ↦ absurd (ground (arith, e, h))
  | inr e ↦ (e, rank_from-none (suc i) l k (ground (arith, e, h)))
]

unsold : (qty : List (ℕ × ℕ)) (k : ℕ) → All (IsOther k) (ids_of qty) → sold_of qty k ≡ 0
unfolding ids_of get_number
unsold [] k h = refl
unsold ((j, v) ∷ m) k h = rw h.0 (unsold m k h.1)

module _ (qty : List (ℕ × ℕ)) where
  abbrev ranked : List ℕ
  ranked = ranked_ids qty

  ranked-InOrder : InOrder (λ a b. sells_no_less qty a b ≡ true) ranked
  unfolding ranked_ids
  ranked-InOrder = sort_by-InOrder (sells_no_less qty) (λ x y h. ground (arith, h)) (ids_of qty)

  unranked-unsold : (k : ℕ) → rank_of ranked k ≡ none → sold_of qty k ≡ 0
  unfolding ranked_ids
  unranked-unsold k h =
      unsold qty k
        (All-of_sort_by (sells_no_less qty) (IsOther k) (ids_of qty) (rank_from-none 1 ranked k h))

  place-sells :
      (a b : ℕ)
      → or_else (rank_of ranked a) (length ranked + 1)
        ≤ or_else (rank_of ranked b) (length ranked + 1)
      → sold_of qty b ≤ sold_of qty a
  place-sells a b o = elim (Option-cases (rank_of ranked b)) [
    | inl e ↦ omega (arith, unranked-unsold b e)
    | inr (r, e) ↦
        let (b1, b2, b3) = rank_from-found 1 ranked b r e in
        elim (Option-cases (rank_of ranked a)) [
          | inl i ↦ absurd (ground (arith, e, i, o, b2))
          | inr (q, i) ↦
              let (a1, a2, a3) = rank_from-found 1 ranked a q i in
              InOrder-sells qty ranked (q - 1) (r - 1) a b ranked-InOrder a3 b3
                (ground (arith, e, i, o))
        ]
  ]

-- The first so many of the items in order of units sold, each with its tier.
pub record IsBestSelling (qty : List (ℕ × ℕ)) (n : ℕ) (items result : List CandidateItem)
    : Type 0 where
  pub sorted : List CandidateItem
  pub same_items : Perm sorted (map (with_tier (ranked_ids qty)) items)
  pub in_order :
      InOrder (λ a b. sold_of qty b.product_tmpl_id ≤ sold_of qty a.product_tmpl_id) sorted
  pub first_ones : result ≡ take n sorted

by_sales-IsBestSelling :
    (qty : List (ℕ × ℕ)) (n : ℕ) (items : List CandidateItem)
    → IsBestSelling qty n items (take n (by_sales qty items))
unfolding by_sales
by_sales-IsBestSelling qty n items =
    let r = ranked_ids qty in
    record {
      sorted = by_sales qty items;
      same_items = sort_by-Perm (ranks_no_later r) (map (with_tier r) items);
      in_order =
          InOrder-imp (λ a b. ranks_no_later r a b ≡ true)
            (λ a b. sold_of qty b.product_tmpl_id ≤ sold_of qty a.product_tmpl_id)
            (λ a b h. place-sells qty a.product_tmpl_id b.product_tmpl_id (ground (arith, h)))
            (by_sales qty items)
            (sort_by-InOrder (ranks_no_later r) (λ x y h. ground (arith, h))
              (map (with_tier r) items));
      first_ones = refl;
    }

-- The price bounds of a search, and no limit.
abbrev pub uncut_within : MenuSearchOptions → MatchOptions
uncut_within opts = record {
  limit = some uncut;
  min_price_cents = opts.min_price_cents;
  max_price_cents = opts.max_price_cents;
}

-- The items in question: with a query, all that the matcher finds for it when nothing is cut off, within
-- the price bounds; without one, all items of the menu that are available and within them.
pub data InQuestion {V : Type 0} (store : MenuStore V) (embedder : EmbeddingService V) (pos : ℕ)
    (opts : MenuSearchOptions) : List CandidateItem → Type 0 where
  relevant :
      {items : List CandidateItem} (q : String)
      → opts.query ≡ some q
      → same q "" ≡ false
      → match_text store embedder pos (utf16 q) (uncut_within opts) ≡ returned items
      → InQuestion store embedder pos opts items
  whole_menu :
      (menu : List MenuItem)
      → (opts.query ≡ none) ⊎ (opts.query ≡ some "")
      → store.all_items pos ≡ returned menu
      → InQuestion store embedder pos opts (
          map to_candidate (
            filter_b
              (λ i. i.available && within_price i.base_price_cents (uncut_within opts))
              menu))

query_of-some :
    (opts : MenuSearchOptions) (q : String)
    → opts.query ≡ some q
    → same q "" ≡ false
    → query_of opts ≡ some q
unfolding query_of
query_of-some opts q e b = ground (arith, e, b)

query_of-none :
    (opts : MenuSearchOptions) → (opts.query ≡ none) ⊎ (opts.query ≡ some "") → query_of opts ≡ none
unfolding query_of same
query_of-none opts (inl e) = ground (arith, e)
query_of-none opts (inr e) = ground (arith, e)

pool-InQuestion :
    {V : Type 0} (store : MenuStore V) (embedder : EmbeddingService V) (pos : ℕ)
    (opts : MenuSearchOptions) (items : List CandidateItem)
    → InQuestion store embedder pos opts items
    → pool store embedder pos opts ≡ returned items
unfolding pool browse browsed price_of within_price
pool-InQuestion store embedder pos opts items (relevant q e b m) =
    rw (query_of-some opts q e b, pool) m
pool-InQuestion store embedder pos opts items (whole_menu menu e m) =
    rw (query_of-none opts e, pool) (rw m refl)

-- A search by popularity, which every search without a query is, returns the first of the items in
-- question in order of the units sold in the window, those not sold last, as many as the limit, which
-- is at most eight. The items in question are not cut off before: they are all that the matcher finds
-- for the query within the price bounds, or all of the menu that are available and within them.
pub search_menu-IsBestSelling :
    {V : Type 0} (store : MenuStore V) (embedder : EmbeddingService V) (pos : ℕ)
    (opts : MenuSearchOptions) (qty : List (ℕ × ℕ)) (items : List CandidateItem)
    → wants_popularity opts ≡ true
    → store.popularity pos window_days ≡ returned qty
    → InQuestion store embedder pos opts items
    → (l : List CandidateItem) × (search_menu store embedder pos opts ≡ returned l)
      × IsBestSelling qty (limit_of opts) items l
unfolding search_menu popular_search
search_menu-IsBestSelling store embedder pos opts qty items w p i = (
  take (limit_of opts) (by_sales qty items),
  rw (w, p, pool-InQuestion store embedder pos opts items i) refl,
  by_sales-IsBestSelling qty (limit_of opts) items,
)
