-- ===== src/Socket/Interleaved.antt =====
-- socket.go: Connect, Close, markDisconnected and heartbeatLoop, taken apart into the steps between
-- which other goroutines run. A task is a call that has begun, at the step that it does next.
use mezon_sdk_go.Prelude.{
  ℕ, zero, suc, true, false, not, List, [], ◌∷◌, ◌++◌, Option, none, some, ◌==◌, if◌then◌else◌,
  nat_eq, Bytes, codes,
}
use mezon_sdk_go.Errors.{Error}
use mezon_sdk_go.Socket.Lifecycle.{
  down, dial_failed, heartbeat_lost, Life, is_closed, close_done, call_close_done, new_life, notify,
  publish, store_connected,
}

-- Of Connect: past IsOpen, with what dialling gives, and past the writes under writeMu. Of Close:
-- past Store, and past reading closeDone. Of heartbeatLoop: past the select on `done`. Of
-- markDisconnected: before its comparison, past it, past Swap, and past closeDone.
pub data Task : Type 0 where
  dialling : Option Error → Task
  published closing : Task
  shutting : Option ℕ → Task
  losing marking : ℕ → Bytes → Task
  swapping tearing : Option ℕ → ℕ → Bytes → Task
  reporting : ℕ → Bytes → Task

-- The next step of a task, and what is left of it.
unfoldable pub progress : Task → Life → Life × Option Task
progress (dialling (some e)) s = (notify (dial_failed e) s, none)
progress (dialling none) s = (publish s, some published)
progress published s = (store_connected true s, none)
progress closing s = (s, some (shutting (close_done s)))
progress (shutting shuts) s = (call_close_done shuts s, none)
progress (losing done reason) s =
    (notify heartbeat_lost s, some (marking done (codes "heartbeat timeout: " ++ reason)))
progress (marking done reason) s =
    (s, if not (s.done == done) then none else some (swapping (close_done s) done reason))
progress (swapping shuts done reason) s =
    (store_connected false s, if not s.connected then none else some (tearing shuts done reason))
progress (tearing shuts done reason) s = (call_close_done shuts s, some (reporting done reason))
progress (reporting done reason) s = (notify (down done reason) s, none)

-- The life of the socket, and the tasks.
pub record Field : Type 0 where
  pub life : Life
  pub tasks : List Task

unfoldable pub new_field : Field
new_field = record { life = new_life; tasks = [] }

-- A call begins, or the task at an index does its next step.
pub data Move : Type 0 where
  calls_connect : Option Error → Move
  calls_close : Move
  read_fails ping_fails : ℕ → Bytes → Move
  proceeds : ℕ → Move

unfoldable pub put_back : Option Task → List Task → List Task
put_back none tasks = tasks
put_back (some t) tasks = t ∷ tasks

unfoldable pub proceed : ℕ → List Task → Life → Life × List Task
proceed i [] s = (s, [])
proceed zero (t ∷ tasks) s = let r = progress t s in (r.0, put_back r.1 tasks)
proceed (suc i) (t ∷ tasks) s = let r = proceed i tasks s in (r.0, t ∷ r.1)

unfoldable pub begin : Task → Field → Field
begin t f = record f { tasks = t ∷ f.tasks }

unfoldable pub move : Move → Field → Field
move (calls_connect dialled) f = if f.life.connected then f else begin (dialling dialled) f
move calls_close f = begin closing (record f { life = store_connected false f.life })
move (read_fails done reason) f = begin (marking done reason) f
move (ping_fails done reason) f =
    if is_closed done f.life.closed then f else begin (losing done reason) f
move (proceeds i) f = let r = proceed i f.tasks f.life in record { life = r.0; tasks = r.1 }

unfoldable pub moves : List Move → Field → Field
moves [] f = f
moves (m ∷ rest) f = moves rest (move m f)
