-- ===== src/Realtime/Registry/Tests.antt =====
-- A reconnect: the new socket is there before the old one closes.
use voice_order_backend.Base.{◌≡◌, refl, [], ◌∷◌, List, same, get, put}
use voice_order_backend.Realtime.Registry.{
  Connection, same_connection, empty_registry, Event, connects, closes, get_by_cart, run, step, add,
  remove, put_or_delete, insert_connection, delete_connection, has_connection,
}
use voice_order_backend.Realtime.Registry.Live.{live, on_cart, run-empty-live}

abbrev old_socket : Connection
old_socket = record { id = 0; session_id = "s1"; cart_id = "c1" }

abbrev new_socket : Connection
new_socket = record { id = 1; session_id = "s2"; cart_id = "c1" }

abbrev reconnect : List Event
reconnect = connects old_socket ∷ connects new_socket ∷ closes old_socket ∷ []

reconnected : get_by_cart "c1" (run reconnect empty_registry) ≡ new_socket ∷ []
unfolding get_by_cart run step add remove put_or_delete insert_connection delete_connection
    has_connection same_connection get put same
reconnected = refl

run-empty-live_example :
    get_by_cart "c1" (run reconnect empty_registry) ≡ on_cart "c1" (live reconnect [])
run-empty-live_example = run-empty-live reconnect "c1"
