-- ===== src/Socket/Whole.antt =====
-- socket.go: Connect, Close, markDisconnected and heartbeatLoop, each run to its end with no step of
-- another goroutine in between.
use mezon_sdk_go.Prelude.{◌≡◌, List, [], ◌∷◌, none, some, arith}
use mezon_sdk_go.Socket.Lifecycle.{
  Life, Act, act_connect, act_close, act_read_failed, act_heartbeat_failed, act, connect, close,
  notify, publish, store_connected, swap_connected, mark_disconnected, heartbeat_failed,
}
use mezon_sdk_go.Socket.Interleaved.{
  Field, Move, calls_connect, calls_close, read_fails, ping_fails, proceeds, progress, put_back,
  proceed, begin, move, moves,
}

abbrev alone : Life → Field
alone s = record { life = s; tasks = [] }

-- The call of an act.
abbrev pub call_of : Act → Move
call_of (act_connect dialled) = calls_connect dialled
call_of act_close = calls_close
call_of (act_read_failed done reason) = read_fails done reason
call_of (act_heartbeat_failed done reason) = ping_fails done reason

abbrev five_steps : List Move
five_steps = proceeds 0 ∷ proceeds 0 ∷ proceeds 0 ∷ proceeds 0 ∷ proceeds 0 ∷ []

-- A call that no step of another comes between, which takes at most five steps, does what the whole
-- function does.
moves-alone : (a : Act) (s : Life) → moves (call_of a ∷ five_steps) (alone s) ≡ alone (act a s)
unfolding moves move begin proceed progress put_back act connect close mark_disconnected
    swap_connected heartbeat_failed notify publish store_connected
moves-alone (act_connect none) s = ground arith
moves-alone (act_connect (some e)) s = ground arith
moves-alone act_close s = ground arith
moves-alone (act_read_failed done reason) s = ground arith
moves-alone (act_heartbeat_failed done reason) s = ground arith
