-- ===== src/RateLimit/Registry/Shared.antt =====
-- Which call sites share a limiter (registry.ts).
use voice_order_backend.RateLimit.Registry.Apart.{
  serial, Stays-trans, Stays, IsApart, put-Stays, new_limiter-serial, Stays-refl, put-IsApart,
}
use voice_order_backend.Base.{
  str_append, String, or_else, get, some, ◌≡◌, ◌∙◌, get-put_self, ap, inr, refl, ℕ, some_injective,
  sym, inl, subst, Option-cases, [], ◌++◌, arith, ◌+◌, ◌∷◌, zero, suc, get_elem?, ◌↔◌, List,
}
use voice_order_backend.RateLimit.Registry.{
  Registry, Entry, Limiter, QuotaKey, Got, identity_of, new_limiter, add_limiter, join_limiter,
  get_limiter, get_all, empty_registry, Request,
}
use voice_order_backend.RateLimit.Limiter.{RateLimits}

-- What a call site gets is in the registry from then on.
pub record IsFiled (r : Registry) (key : QuotaKey) (l : Limiter) : Type 0 where
  pub entry : Entry
  pub there : get (identity_of key) r.limiters ≡ some entry
  pub same_limiter : entry.limiter ≡ l

Stays-IsFiled :
    (r s : Registry) (key : QuotaKey) (l : Limiter) → Stays r s → IsFiled r key l → IsFiled s key l
Stays-IsFiled r s key l p f =
    let (e, g, a, b) = p.entry (identity_of key) f.entry f.there in
    record { entry = e; there = g; same_limiter = a ∙ f.same_limiter }

pub record IsGot (key : QuotaKey) (r : Registry) (a : Registry × Got) : Type 0 where
  pub apart : IsApart a.0
  pub stays : Stays r a.0
  pub filed : IsFiled a.0 key a.1.limiter

get_limiter-IsGot :
    (key : QuotaKey) (limits : RateLimits) (r : Registry)
    → IsApart r
    → IsGot key r (get_limiter key limits r)
unfolding get_limiter join_limiter add_limiter
get_limiter-IsGot key limits r h = elim (Option-cases (get (identity_of key) r.limiters)) [
  | inr (e, g) ↦
      let v : Entry = record e { call_sites = e.call_sites ++ key.name ∷ [] } in
      rw (g, get_limiter)
        (record {
          apart =
              put-IsApart key limits r h v r.next (omega arith)
                (λ n s. h.below (identity_of key) e n g s)
                (λ other f n k s t. h.one_identity (identity_of key) other e f n g k s t);
          stays = put-Stays key limits r h v r.next (λ f k.
              let q : e ≡ f = some_injective (sym g ∙ k) in
              (ap (λ x. x.limiter) q, ap (λ x. x.limits) q));
          filed = record {
            entry = v;
            there = get-put_self (identity_of key) v r.limiters;
            same_limiter = refl;
          };
        })
  | inl g ↦
      let made = new_limiter key limits r in
      let v : Entry = record { limiter = made; limits = limits; call_sites = key.name ∷ [] } in
      rw (g, get_limiter)
        (record {
          apart =
              put-IsApart key limits r h v (r.next + 1) (omega arith)
                (λ n s. omega (arith, new_limiter-serial key limits r h n s))
                (λ other f n k s t.
                  absurd
                    (omega (arith, new_limiter-serial key limits r h n s, h.below other f n k t)));
          stays = put-Stays key limits r h v (r.next + 1) (λ f k. absurd (cc (g, k)));
          filed = record {
            entry = v;
            there = get-put_self (identity_of key) v r.limiters;
            same_limiter = refl;
          };
        })
]

pub record AllFiled (qs : List Request) (r : Registry) (a : Registry × List Got) : Type 0 where
  pub apart : IsApart a.0
  pub stays : Stays r a.0
  pub filed :
      (i : ℕ) (q : Request) (got : Got)
      → get_elem? qs i ≡ some q
      → get_elem? a.1 i ≡ some got
      → IsFiled a.0 q.key got.limiter

IsFiled-at :
    (q : Request) (qs : List Request) (s : Registry) (one : Got)
    → IsFiled s q.key one.limiter
    → AllFiled qs s (get_all qs s)
    → (i : ℕ) (p : Request) (got : Got) → get_elem? (q ∷ qs) i ≡ some p
    → get_elem? (one ∷ (get_all qs s).1) i ≡ some got
    → IsFiled (get_all qs s).0 p.key got.limiter
IsFiled-at q qs s one f all zero p got e g =
    subst (λ x. IsFiled (get_all qs s).0 x.key got.limiter) (some_injective e)
      (subst (λ x. IsFiled (get_all qs s).0 q.key x.limiter) (some_injective g)
        (Stays-IsFiled s (get_all qs s).0 q.key one.limiter all.stays f))
IsFiled-at q qs s one f all (suc i) p got e g = all.filed i p got e g

get_all-AllFiled : (qs : List Request) (r : Registry) → IsApart r → AllFiled qs r (get_all qs r)
unfolding get_all
get_all-AllFiled [] r h = record {
  apart = h;
  stays = Stays-refl r;
  filed = λ i q got e g. absurd (cc e);
}
get_all-AllFiled (q ∷ qs) r h =
    let one = get_limiter-IsGot q.key q.limits r h in
    let s = (get_limiter q.key q.limits r).0 in
    let all = get_all-AllFiled qs s one.apart in
    record {
      apart = all.apart;
      stays = Stays-trans r s (get_all qs s).0 one.stays all.stays;
      filed = λ i p got e g.
          IsFiled-at q qs s (get_limiter q.key q.limits r).1 one.filed all i p got e g;
    }

empty_registry-IsApart : IsApart empty_registry
unfolding get
empty_registry-IsApart = record {
  below = λ id e n g s. absurd (cc g);
  one_identity = λ id other e f n g k s t. absurd (cc g);
}

-- What the provider meters against, as one text: the provider, the base URL, the key and the model, each
-- after a bar. The name is not part of it.
abbrev pub quota_text : QuotaKey → String
quota_text key = str_append key.provider (
    str_append "|" (
      str_append (or_else key.base_url "") (
        str_append "|"
          (str_append (or_else key.api_key "") (str_append "|" (or_else key.model ""))))))

identity_of-eq : (key : QuotaKey) → identity_of key ≡ quota_text key
unfolding identity_of
identity_of-eq key = refl

-- Whatever the call sites and their limits, in the order in which they register: one whose limiter
-- limits anything shares it with exactly those whose provider, base URL, key and model, joined by bars
-- and read as empty where they are missing, make the same text; the name does not matter. Parts that
-- have a bar in them may make one text out of two different quadruples.
pub get_all-shares :
    (qs : List Request) (i j : ℕ) (p q : Request) (a b : Got) (n : ℕ)
    → get_elem? qs i ≡ some p
    → get_elem? (get_all qs empty_registry).1 i ≡ some a
    → get_elem? qs j ≡ some q
    → get_elem? (get_all qs empty_registry).1 j ≡ some b
    → serial a.limiter ≡ some n
    → (a.limiter ≡ b.limiter) ↔ (quota_text p.key ≡ quota_text q.key)
get_all-shares qs i j p q a b n e g k m s =
    let all = get_all-AllFiled qs empty_registry empty_registry-IsApart in
    let x = all.filed i p a e g in
    let y = all.filed j q b k m in
    (
      λ t.
          sym (identity_of-eq p.key)
          ∙ all.apart.one_identity (identity_of p.key) (identity_of q.key) x.entry y.entry n x.there
              y.there (ap serial x.same_limiter ∙ s)
              (ap serial y.same_limiter ∙ ap serial (sym t) ∙ s)
          ∙ identity_of-eq q.key,
      λ t.
          let u : x.entry ≡ y.entry = some_injective (
            sym x.there
            ∙ ap (λ z. get z (get_all qs empty_registry).0.limiters)
                (identity_of-eq p.key ∙ t ∙ sym (identity_of-eq q.key))
            ∙ y.there) in
          sym x.same_limiter ∙ ap (λ z. z.limiter) u ∙ y.same_limiter,
    )
