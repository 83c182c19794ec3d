-- ===== src/Socket/Disconnect.antt =====
-- socket.go, markDisconnected: how often OnDisconnect is called, whatever the goroutines
-- interleave.
use mezon_sdk_go.Prelude.{
  ℕ, zero, suc, ◌+◌, ◌≤◌, ◌≡◌, refl, true, false, List, [], ◌∷◌, ◌++◌, Option, none, some, arith,
  if◌then◌else◌, nat_eq, Bool,
}
use mezon_sdk_go.Socket.Lifecycle.{
  Notice, down, dial_failed, heartbeat_lost, Life, call_close_done, new_life, notify, publish,
  store_connected,
}
use mezon_sdk_go.Socket.Interleaved.{
  Task, dialling, published, closing, shutting, losing, marking, swapping, tearing, reporting,
  progress, Field, new_field, Move, calls_connect, calls_close, read_fails, ping_fails, proceeds,
  put_back, proceed, begin, move, moves,
}

-- The calls of OnDisconnect.
abbrev pub downs : List Notice → ℕ
downs [] = 0
downs (down x reason ∷ notices) = suc (downs notices)
downs (dial_failed e ∷ notices) = downs notices
downs (heartbeat_lost ∷ notices) = downs notices

downs-append : (xs ys : List Notice) → downs (xs ++ ys) ≡ downs xs + downs ys
downs-append [] ys = omega arith
downs-append (down x reason ∷ xs) ys = omega (arith, downs-append xs ys)
downs-append (dial_failed e ∷ xs) ys = downs-append xs ys
downs-append (heartbeat_lost ∷ xs) ys = downs-append xs ys

abbrev up : Bool → ℕ
up true = 1
up false = 0

-- A connection that is published and not stored as up, or taken down and not reported.
abbrev held : Task → ℕ
held published = 1
held (tearing shuts done reason) = 1
held (reporting done reason) = 1
held (dialling dialled) = 0
held closing = 0
held (shutting shuts) = 0
held (losing done reason) = 0
held (marking done reason) = 0
held (swapping shuts done reason) = 0

abbrev held_in : List Task → ℕ
held_in [] = 0
held_in (t ∷ tasks) = held t + held_in tasks

held_in-put_back :
    (o : Option Task) (tasks : List Task)
    → held_in (put_back o tasks) ≡ held_in (put_back o []) + held_in tasks
unfolding put_back
held_in-put_back none tasks = omega arith
held_in-put_back (some t) tasks = omega arith

-- A step makes the reports, made and to come, and the connection that is up no more than by the
-- connections it makes.
abbrev Pays : Life → ℕ → Life → ℕ → Type 0
Pays s before t after =
    downs t.notices + up t.connected + after + s.fresh
    ≤ downs s.notices + up s.connected + before + t.fresh

pub call_close_done-same :
    (shuts : Option ℕ) (s : Life)
    → let t = call_close_done shuts s in
      (t.notices ≡ s.notices)
      × (t.connected ≡ s.connected)
      × (t.fresh ≡ s.fresh)
      × (t.done ≡ s.done)
unfolding call_close_done
call_close_done-same none s = (refl, refl, refl, refl)
call_close_done-same (some c) s = (refl, refl, refl, refl)

progress-Pays :
    (t : Task) (s : Life) → let r = progress t s in Pays s (held t) r.0 (held_in (put_back r.1 []))
unfolding progress notify publish store_connected put_back
progress-Pays (dialling (some e)) s = omega (arith, downs-append s.notices (dial_failed e ∷ []))
progress-Pays (dialling none) s = omega arith
progress-Pays published s = ground arith
progress-Pays closing s = omega arith
progress-Pays (shutting shuts) s = ground (arith, call_close_done-same shuts s)
progress-Pays (losing done reason) s = omega (arith, downs-append s.notices (heartbeat_lost ∷ []))
progress-Pays (marking done reason) s = ground arith
progress-Pays (swapping shuts done reason) s = ground arith
progress-Pays (tearing shuts done reason) s = ground (arith, call_close_done-same shuts s)
progress-Pays (reporting done reason) s =
    omega (arith, downs-append s.notices (down done reason ∷ []))

proceed-Pays :
    (i : ℕ) (tasks : List Task) (s : Life)
    → let r = proceed i tasks s in Pays s (held_in tasks) r.0 (held_in r.1)
unfolding proceed
proceed-Pays i [] s = omega arith
proceed-Pays zero (t ∷ tasks) s =
    omega (arith, progress-Pays t s, held_in-put_back (progress t s).1 tasks)
proceed-Pays (suc i) (t ∷ tasks) s = omega (arith, proceed-Pays i tasks s)

move-Pays :
    (m : Move) (f : Field)
    → let g = move m f in Pays f.life (held_in f.tasks) g.life (held_in g.tasks)
unfolding move begin store_connected
move-Pays (calls_connect dialled) f = ground arith
move-Pays calls_close f = ground arith
move-Pays (read_fails done reason) f = omega arith
move-Pays (ping_fails done reason) f = ground arith
move-Pays (proceeds i) f = proceed-Pays i f.tasks f.life

moves-Pays :
    (steps : List Move) (f : Field)
    → let g = moves steps f in Pays f.life (held_in f.tasks) g.life (held_in g.tasks)
unfolding moves
moves-Pays [] f = omega arith
moves-Pays (m ∷ steps) f = omega (arith, move-Pays m f, moves-Pays steps (move m f))

-- However the steps of users' calls, read loops and heartbeat loops of old and new connections
-- interleave, from the new socket on OnDisconnect is called at most as often as connections have
-- been made by Connect, and less often than that while one is up.
pub moves-downs :
    (steps : List Move)
    → let f = moves steps new_field in
      downs f.life.notices + (if f.life.connected then 1 else 0) + 1 ≤ f.life.fresh
unfolding new_field new_life
moves-downs steps = ground (arith, moves-Pays steps new_field)
