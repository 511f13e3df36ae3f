-- ===== src/Base/Keys.antt =====
-- Text keys, and maps built from lists of pairs as `new Map(pairs)` does: a later pair wins.
use Prim.Native.String.{String}
use mathlib.Core.Path.{◌≡◌, refl}
use mathlib.Core.Bool.{Bool, true, false}
use mathlib.Core.List.{List, [], ◌∷◌}
use mathlib.Core.Option.{Option, none, some}
use native.Mathlib.Omega.{arith}
use text.Mathlib.Text.{◌==◌ as str_eq}
use text.Mathlib.TextEquality.{eq_iff}
use voice_order_backend.Base.Tests.{if◌then◌else◌}

-- `===` on texts. It stays shut, so that proofs split on it as on any Boolean.
unfoldable pub same : String → String → Bool
same a b = str_eq a b

pub same_refl : (a : String) → same a a ≡ true
unfolding same
same_refl a = (eq_iff a a).1 refl

pub same→eq : (a b : String) → same a b ≡ true → a ≡ b
unfolding same
same→eq a b e = (eq_iff a b).0 e

pub eq→same : (a b : String) → a ≡ b → same a b ≡ true
unfolding same
eq→same a b e = (eq_iff a b).1 e

-- A map with text keys, as an association list with one entry for a key.
module _ {ℓ} {V : Type ℓ} where
  unfoldable pub get : String → List (String × V) → Option V
  get k [] = none
  get k ((j, v) ∷ m) = if same j k then some v else get k m

  unfoldable pub put : String → V → List (String × V) → List (String × V)
  put k v [] = (k, v) ∷ []
  put k v ((j, w) ∷ m) = if same j k then (k, v) ∷ m else (j, w) ∷ put k v m

  pub get-put_self : (k : String) (v : V) (m : List (String × V)) → get k (put k v m) ≡ some v
  unfolding get put
  get-put_self k v [] = ground (arith, same_refl k)
  get-put_self k v ((j, w) ∷ m) = ground (arith, same_refl k, get-put_self k v m)

  pub get-put_ne :
      (k j : String) (v : V) (m : List (String × V))
      → same k j ≡ false
      → get j (put k v m) ≡ get j m
  unfolding get put
  get-put_ne k j v [] h = ground arith
  get-put_ne k j v ((i, w) ∷ m) h = ground (arith, same→eq i k, get-put_ne k j v m h)

  -- `Map.delete`
  unfoldable pub delete_key : String → List (String × V) → List (String × V)
  delete_key k [] = []
  delete_key k ((j, v) ∷ m) = let rest = delete_key k m in if same j k then rest else (j, v) ∷ rest

  pub get-delete_key : (k : String) (m : List (String × V)) → get k (delete_key k m) ≡ none
  unfolding get delete_key
  get-delete_key k [] = refl
  get-delete_key k ((j, v) ∷ m) = ground (arith, get-delete_key k m)

  pub get-delete_key_ne :
      (k j : String) (m : List (String × V)) → same k j ≡ false → get j (delete_key k m) ≡ get j m
  unfolding get delete_key
  get-delete_key_ne k j [] h = refl
  get-delete_key_ne k j ((i, v) ∷ m) h = ground (arith, same→eq i k, get-delete_key_ne k j m h)

pub same_comm : (a b : String) → same a b ≡ same b a
same_comm a b = ground (arith, same→eq a b, same→eq b a, eq→same a b, eq→same b a)
