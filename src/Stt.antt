-- ===== src/Stt.antt =====
-- src/stt/assemblyai-stt-provider.ts: one streaming session and the reservation that it holds. The
-- socket is the events that it fires; a call of a method is an event as well, and `stop` is two, since
-- it waits for the flush. The audio, which is only passed on, is left out.
pub mod Finals
pub mod Sessions
mod Tests
use voice_order_backend.Base.Int.{ℤ}
use voice_order_backend.Base.{
  map, ◌++◌, some, ℕ, ◌==◌, [], List, not, none, Bool, ◌&&◌, trim, ◌||◌, Option, ◌∷◌, false, same,
  ◌+◌, true, if◌then◌else◌, String, if◌then◌else◌,
}
use voice_order_backend.RateLimit.Arrival.{Thrown}
use voice_order_backend.RateLimit.Limiter.{Lease, Op, RateLimits, settle, abandon}
use voice_order_backend.RateLimit.RetryAfter.{HeaderSource, is_429, retry_after_ms}

abbrev pub over_limit_close_codes : List ℕ
over_limit_close_codes = 4029 ∷ 4102 ∷ 3009 ∷ []

-- What an open can be refused with: the error, its close code if that is a number, and where its
-- headers are.
pub record OpenError : Type 0 where
  pub error : Thrown
  pub code : Option ℕ
  pub own : HeaderSource
  pub headers : HeaderSource

unfoldable pub has_number : ℕ → List ℕ → Bool
has_number n [] = false
has_number n (m ∷ ms) = (m == n) || has_number n ms

unfoldable pub is_over_limit : OpenError → Bool
is_over_limit e =
    is_429 e.error
    || elim e.code [ none ↦ false | some code ↦ has_number code over_limit_close_codes ]

pub record Turn : Type 0 where
  pub transcript : String
  pub end_of_turn : Bool
  pub turn_is_formatted : Bool
  pub turn_order : ℕ

-- The variables of `attach`; no final turn yet is the source's -1.
pub record Socket : Type 0 where
  pub lease : Lease
  pub final_delivered : Bool
  pub last_final_turn : Option ℕ
  pub self_closing : Bool

pub data Event : Type 0 where
  turn : Turn → Event
  errors socket_closes : Event
  stop_begins stop_ends closes : Event
  open_fails : OpenError → Event

-- What the session does: the handlers that it calls, with the number of the turn of a final, and what it
-- does to its socket and to the limiter.
pub data Out : Type 0 where
  on_partial : String → Out
  on_final : ℕ → String → Out
  on_error : Out
  drop_socket flush_socket : Out
  limiter : Op → Out
  penalizes : ℕ → Out

abbrev pub attached : Lease → Socket
attached h = record {
  lease = h;
  final_delivered = false;
  last_final_turn = none;
  self_closing = false;
}

abbrev pub is_turn : Option ℕ → ℕ → Bool
is_turn none n = false
is_turn (some m) n = m == n

-- The `turn` listener.
unfoldable pub on_turn : Turn → Socket → Socket × List Out
on_turn t s =
    let text = trim t.transcript in
    if not t.end_of_turn
    then (s, if same text "" then [] else on_partial text ∷ [])
    else (if not t.turn_is_formatted || is_turn s.last_final_turn t.turn_order || same text ""
        then (s, [])
        else (
          record s { last_final_turn = some t.turn_order; final_delivered = true },
          on_final t.turn_order text ∷ [],
        ))

-- `lease.settle()`
unfoldable pub release_lease : RateLimits → Socket → Socket × List Out
release_lease l s =
    let (h, ops) = settle l none s.lease in (record s { lease = h }, map limiter ops)

unfoldable pub on_socket_error : RateLimits → Socket → Socket × List Out
on_socket_error l s =
    let (s', outs) = release_lease l s in
    (record s' { self_closing = true }, outs ++ drop_socket ∷ on_error ∷ [])

unfoldable pub on_socket_close : RateLimits → Socket → Socket × List Out
on_socket_close l s =
    let (s', outs) = release_lease l s in
    (s', outs ++ (if not s.final_delivered && not s.self_closing then on_error ∷ [] else []))

unfoldable pub close_stream : RateLimits → Socket → Socket × List Out
close_stream l s =
    let (s', outs) = release_lease l s in (record s' { self_closing = true }, drop_socket ∷ outs)

-- The clocks of the process, and `Date.parse`.
pub record Clocks : Type 0 where
  pub parse_date : String → Option ℤ
  pub wall_now : ℤ
  pub now_ms : ℕ

-- The `catch` of `openStream`.
unfoldable pub open_failed : RateLimits → Clocks → OpenError → Socket → Socket × List Out
open_failed l c e s =
    if is_over_limit e
    then (let (s', outs) = release_lease l s in
        (
          s',
          outs
              ++ penalizes (c.now_ms + retry_after_ms c.parse_date c.wall_now e.own e.headers) ∷ [],
        ))
    else (let (h, ops) = abandon s.lease in (record s { lease = h }, map limiter ops))

unfoldable pub step : RateLimits → Clocks → Event → Socket → Socket × List Out
step l c (turn t) s = on_turn t s
step l c errors s = on_socket_error l s
step l c socket_closes s = on_socket_close l s
step l c stop_begins s = (record s { self_closing = true }, flush_socket ∷ [])
step l c stop_ends s = release_lease l s
step l c closes s = close_stream l s
step l c (open_fails e) s = open_failed l c e s

unfoldable pub run : RateLimits → Clocks → List Event → Socket → Socket × List Out
run l c [] s = (s, [])
run l c (e ∷ es) s =
    let (s', outs) = step l c e s in let (s'', more) = run l c es s' in (s'', outs ++ more)
