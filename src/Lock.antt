-- ===== src/Lock.antt =====
-- src/shared/async-lock.ts: one call at a time for each key, in the order of arrival. It is the lock of a
-- cart, and the queue of its turns (src/ordering/cart-turn-queue.ts). A call is its number, and its
-- promises are two flags: its function was started, and it has settled.
use voice_order_backend.Base.{
  String, if◌then◌else◌, ℕ, put, delete_key, ◌∷◌, get_elem?, [], ◌++◌, Option, get, true, false,
  none, ◌||◌, set, some, ◌&&◌, length, ◌==◌, Bool, List, if◌then◌else◌,
}
pub mod Exclusive
pub mod Growth
pub mod Joining
pub mod Steps
mod Tests
pub mod Fifo

pub record Call : Type 0 where
  pub key : String
  -- The call before it that it waits for.
  pub prev : Option ℕ
  pub started : Bool
  pub settled : Bool

pub record Lock : Type 0 where
  pub calls : List Call
  pub tails : List (String × ℕ)

abbrev pub empty_lock : Lock
empty_lock = record { calls = []; tails = [] }

-- `run`: `prev.then(fn, fn)`, and the new tail.
unfoldable pub run_call : String → Lock → Lock
run_call key l = record {
  calls =
      l.calls
      ++ record { key = key; prev = get key l.tails; started = false; settled = false } ∷ [];
  tails = put key (length l.calls) l.tails;
}

-- The promise that a call waits for has settled.
unfoldable pub prev_settled : List Call → Option ℕ → Bool
prev_settled calls none = true
prev_settled calls (some p) = elim (get_elem? calls p) [ none ↦ false | some c ↦ c.settled ]

unfoldable pub start : Lock → Call → Call
start l c = record c { started = c.started || prev_settled l.calls c.prev }

-- The function has returned or thrown: `prev.then(fn, fn)` does not tell them apart.
unfoldable pub settle : Call → Call
settle c = record c { settled = c.settled || c.started }

unfoldable pub on_call : ℕ → (Call → Call) → Lock → Lock
on_call k f l = elim (get_elem? l.calls k) [
  | none ↦ l
  | some c ↦ record l { calls = set l.calls k (f c) }
]

-- `if (this.tails.get(key) === settled) this.tails.delete(key)`
unfoldable pub clean : ℕ → Lock → Call → Lock
clean k l c = elim (get c.key l.tails) [
  | none ↦ l
  | some m ↦ if (m == k) && c.settled then record l { tails = delete_key c.key l.tails } else l
]

unfoldable pub clean_call : ℕ → Lock → Lock
clean_call k l = elim (get_elem? l.calls k) [ none ↦ l | some c ↦ clean k l c ]

pub data Event : Type 0 where
  runs : String → Event
  starts settles cleans : ℕ → Event

unfoldable pub step : Event → Lock → Lock
step (runs key) l = run_call key l
step (starts k) l = on_call k (start l) l
step (settles k) l = on_call k settle l
step (cleans k) l = clean_call k l

unfoldable pub run : List Event → Lock → Lock
run [] l = l
run (e ∷ es) l = run es (step e l)
