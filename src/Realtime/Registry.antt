-- ===== src/Realtime/Registry.antt =====
-- src/realtime/client-registry.ts. A connection is an object: its identity is a number, and the fields
-- that the registry reads never change, so that two connections are the same object if identity and
-- cart agree.
pub mod Live
mod Tests
use voice_order_backend.Base.{
  ℕ, Bool, true, false, not, ◌&&◌, List, [], ◌∷◌, ◌++◌, Option, none, some, String, same, get, put,
  delete_key, filter_b, or_else, if◌then◌else◌, ◌==◌,
}

pub record Connection : Type 0 where
  pub id : ℕ
  pub session_id : String
  pub cart_id : String

unfoldable pub same_connection : Connection → Connection → Bool
same_connection a b = a.id == b.id && same a.cart_id b.cart_id

pub record Registry : Type 0 where
  pub by_session : List (String × Connection)
  pub by_cart : List (String × List Connection)

abbrev pub empty_registry : Registry
empty_registry = record { by_session = []; by_cart = [] }

-- `Set.has`, `Set.add`, `Set.delete`
pub has_connection : Connection → List Connection → Bool
has_connection c [] = false
has_connection c (d ∷ ds) = if same_connection d c then true else has_connection c ds

pub insert_connection : Connection → List Connection → List Connection
insert_connection c ds = if has_connection c ds then ds else ds ++ c ∷ []

pub delete_connection : Connection → List Connection → List Connection
delete_connection c ds = filter_b (λ d. not (same_connection d c)) ds

pub get_by_session : String → Registry → Option Connection
get_by_session session_id r = get session_id r.by_session

pub get_by_cart : String → Registry → List Connection
get_by_cart cart_id r = or_else (get cart_id r.by_cart) []

pub add : Connection → Registry → Registry
add conn r = record {
  by_session = put conn.session_id conn r.by_session;
  by_cart =
      put conn.cart_id (insert_connection conn (or_else (get conn.cart_id r.by_cart) [])) r.by_cart;
}

pub put_or_delete :
    String → List Connection → List (String × List Connection) → List (String × List Connection)
put_or_delete k [] m = delete_key k m
put_or_delete k (c ∷ cs) m = put k (c ∷ cs) m

pub remove : Connection → Registry → Registry
remove conn r = record {
  by_session = delete_key conn.session_id r.by_session;
  by_cart = elim (get conn.cart_id r.by_cart) [
    | none ↦ r.by_cart
    | some set ↦ put_or_delete conn.cart_id (delete_connection conn set) r.by_cart
  ];
}

-- What happens to a registry.
pub data Event : Type 0 where
  connects closes : Connection → Event

pub step : Event → Registry → Registry
step (connects c) r = add c r
step (closes c) r = remove c r

pub run : List Event → Registry → Registry
run [] r = r
run (e ∷ es) r = run es (step e r)
