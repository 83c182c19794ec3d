-- ===== src/Socket/Lifecycle.antt =====
-- socket.go: Connect, Close, markDisconnected and the end of heartbeatLoop. A connection is its
-- `done` channel. The functions of the source are compositions of the steps that other goroutines
-- can come between, which Socket/Interleaved takes apart. The callbacks are taken to be set.
use mezon_sdk_go.Prelude.{
  ℕ, suc, Bool, true, false, not, List, [], ◌∷◌, ◌++◌, Option, none, some, ◌==◌, if◌then◌else◌,
  nat_eq, Bytes, codes,
}
use mezon_sdk_go.Errors.{Error}

-- What the user sees of the life of the socket: `down done reason` is a call of OnDisconnect.
pub data Notice : Type 0 where
  down : ℕ → Bytes → Notice
  dial_failed : Error → Notice
  heartbeat_lost : Notice

-- `done` is the current connection's channel, `closed` the channels that are closed, `fresh` the
-- next channel that is made; `has_close_done` is false until the first Connect.
pub record Life : Type 0 where
  pub has_close_done : Bool
  pub connected : Bool
  pub done : ℕ
  pub closed : List ℕ
  pub fresh : ℕ
  pub notices : List Notice

-- `closeDone` closes a channel once.
unfoldable pub is_closed : ℕ → List ℕ → Bool
is_closed c [] = false
is_closed c (x ∷ closed) = if x == c then true else is_closed c closed

unfoldable pub close_once : ℕ → List ℕ → List ℕ
close_once c closed = if is_closed c closed then closed else c ∷ closed

-- What is read under writeMu: `closeDone`, or nil.
unfoldable pub close_done : Life → Option ℕ
close_done s = if s.has_close_done then some s.done else none

-- `if closeDone != nil { closeDone() }`
unfoldable pub call_close_done : Option ℕ → Life → Life
call_close_done none s = s
call_close_done (some c) s = record s { closed = close_once c s.closed }

-- NewDefaultSocket makes channel 0.
unfoldable pub new_life : Life
new_life = record {
  has_close_done = false;
  connected = false;
  done = 0;
  closed = [];
  fresh = 1;
  notices = [];
}

unfoldable pub notify : Notice → Life → Life
notify notice s = record s { notices = s.notices ++ (notice ∷ []) }

-- The writes of Connect under writeMu.
unfoldable pub publish : Life → Life
publish s = record s { has_close_done = true; done = s.fresh; fresh = suc s.fresh }

-- connected.Store
unfoldable pub store_connected : Bool → Life → Life
store_connected b s = record s { connected = b }

-- Connect, with what dialling gives: an error, or a connection.
unfoldable pub connect : Option Error → Life → Life
connect (some e) s = if s.connected then s else notify (dial_failed e) s
connect none s = if s.connected then s else store_connected true (publish s)

unfoldable pub close : Life → Life
close s = let off = store_connected false s in call_close_done (close_done off) off

-- markDisconnected past its comparison: `shuts` is the `closeDone` that it has read.
unfoldable pub swap_connected : Option ℕ → ℕ → Bytes → Life → Life
swap_connected shuts done reason s =
    if not s.connected
    then s
    else notify (down done reason) (call_close_done shuts (store_connected false s))

-- markDisconnected, from a loop of the connection `done`.
unfoldable pub mark_disconnected : ℕ → Bytes → Life → Life
mark_disconnected done reason s =
    if not (s.done == done) then s else swap_connected (close_done s) done reason s

-- heartbeatLoop after a ping that failed.
unfoldable pub heartbeat_failed : ℕ → Bytes → Life → Life
heartbeat_failed done reason s =
    if is_closed done s.closed
    then s
    else mark_disconnected done (codes "heartbeat timeout: " ++ reason) (notify heartbeat_lost s)

-- A call that runs to its end before another starts.
pub data Act : Type 0 where
  act_connect : Option Error → Act
  act_close : Act
  act_read_failed act_heartbeat_failed : ℕ → Bytes → Act

unfoldable pub act : Act → Life → Life
act (act_connect dialled) s = connect dialled s
act act_close s = close s
act (act_read_failed done reason) s = mark_disconnected done reason s
act (act_heartbeat_failed done reason) s = heartbeat_failed done reason s
