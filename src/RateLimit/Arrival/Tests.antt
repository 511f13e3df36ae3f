-- ===== src/RateLimit/Arrival/Tests.antt =====
-- A failed fetch: its cause is a refused connection.
use voice_order_backend.Base.{◌≡◌, refl, false, none, some, same}
use voice_order_backend.RateLimit.Arrival.{
  Thrown, opaque, object, reached_provider, reached_within, never_arrived, has_code, is_http_status,
}

abbrev refused_fetch : Thrown
refused_fetch = object none none none (object none none (some "ECONNREFUSED") opaque)

refused_fetch-reached : reached_provider refused_fetch ≡ false
unfolding reached_provider reached_within never_arrived has_code is_http_status same
refused_fetch-reached = refl
