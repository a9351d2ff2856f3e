-- ===== src/Dashboard/Subscribers.antt =====
-- web_mode.go: the subscribers to updates. A channel has a buffer of one patch; it is known by a number,
-- which `make` takes from a counter. The mutex makes each call one step; only a reader may come between
-- the selects of a push.
pub mod Latest
use copilot_token_cost.Prelude.{
  ℕ, suc, Bool, true, false, Option, none, some, List, [], ◌∷◌, Bytes, ◌==◌, bytes_eq, nat_eq,
  if◌then◌else◌,
}
use copilot_token_cost.Prelude.Maps.{Map, lookup, insert, delete, is_some}

pub record Subscribers : Type 0 where
  -- the next channel
  pub next : ℕ
  pub buffers : Map ℕ (Option Bytes)

abbrev pub no_subscribers : Subscribers
no_subscribers = record { next = 0; buffers = [] }

-- A push to a buffer: the first select; then, where the buffer was full, what the reader leaves of it, the
-- second select, which takes what there is, and the third. A buffer that is empty takes the patch.
abbrev pub sent : Bytes → Option Bytes → Option Bytes
sent patch none = some patch
sent patch (some held) = some held

abbrev pub after_reader : Bool → Option Bytes → Option Bytes
after_reader reads buffer = if reads then none else buffer

abbrev pub received : Option Bytes → Option Bytes
received buffer = none

unfoldable pub push_latest_update : Bool → Bytes → Option Bytes → Option Bytes
push_latest_update reads patch none = sent patch none
push_latest_update reads patch (some held) = sent patch (received (after_reader reads (some held)))

unfoldable pub push_all : (ℕ → Bool) → Bytes → Map ℕ (Option Bytes) → Map ℕ (Option Bytes)
push_all reads patch [] = []
push_all reads patch ((ch, buffer) ∷ rest) =
    (ch, push_latest_update (reads ch) patch buffer) ∷ push_all reads patch rest

-- `reads` is which readers come in between.
unfoldable pub broadcast : (ℕ → Bool) → Bytes → Subscribers → Subscribers
broadcast reads patch s =
    if patch == [] then s else record s { buffers = push_all reads patch s.buffers }

unfoldable pub subscribe : Subscribers → Subscribers
subscribe s = record { next = suc s.next; buffers = insert s.next none s.buffers }

-- The function that `subscribe` returns.
unfoldable pub unsubscribe : ℕ → Subscribers → Subscribers
unsubscribe ch s =
    if is_some (lookup ch s.buffers) then record s { buffers = delete ch s.buffers } else s

unfoldable pub close_subscribers : Subscribers → Subscribers
close_subscribers s = record s { buffers = [] }

-- A reader of a channel that is open.
abbrev pub read_from : ℕ → Subscribers → Option (Option Bytes) → Subscribers
read_from ch s none = s
read_from ch s (some buffer) = record s { buffers = insert ch none s.buffers }

pub data Event : Type 0 where
  subscribed : Event
  unsubscribed : ℕ → Event
  broadcasted : (ℕ → Bool) → Bytes → Event
  read_by : ℕ → Event
  closed : Event

unfoldable pub step : Event → Subscribers → Subscribers
step subscribed s = subscribe s
step (unsubscribed ch) s = unsubscribe ch s
step (broadcasted reads patch) s = broadcast reads patch s
step (read_by ch) s = read_from ch s (lookup ch s.buffers)
step closed s = close_subscribers s

-- The last event comes first.
unfoldable pub after_events : List Event → Subscribers
after_events [] = no_subscribers
after_events (e ∷ earlier) = step e (after_events earlier)
