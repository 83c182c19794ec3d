-- ===== src/Socket/Stale.antt =====
-- socket.go: connections that a later one has replaced, and the loops that are left of them.
use mezon_sdk_go.Prelude.{
  ℕ, zero, suc, ◌+◌, ◌<◌, ◌≡◌, ◌≢◌, refl, ◌∙◌, true, false, List, [], ◌∷◌, ◌++◌, Option, none, some,
  arith, ◌==◌, if◌then◌else◌, nat_eq, Bytes,
}
use mezon_sdk_go.Socket.Lifecycle.{
  Notice, down, dial_failed, heartbeat_lost, Life, is_closed, close_once, close_done,
  call_close_done, notify, publish, store_connected,
}
use mezon_sdk_go.Socket.Interleaved.{
  Task, dialling, published, closing, shutting, losing, marking, swapping, tearing, reporting,
  progress, Field, Move, calls_connect, calls_close, read_fails, ping_fails, proceeds, put_back,
  proceed, begin, move, moves,
}
use mezon_sdk_go.Socket.Disconnect.{call_close_done-same}

-- The calls of OnDisconnect for the connection `c`.
abbrev pub downs_of : ℕ → List Notice → ℕ
downs_of c [] = 0
downs_of c (down x reason ∷ notices) = (if x == c then 1 else 0) + downs_of c notices
downs_of c (dial_failed e ∷ notices) = downs_of c notices
downs_of c (heartbeat_lost ∷ notices) = downs_of c notices

downs_of-append :
    (c : ℕ) (xs ys : List Notice) → downs_of c (xs ++ ys) ≡ downs_of c xs + downs_of c ys
downs_of-append c [] ys = omega arith
downs_of-append c (down x reason ∷ xs) ys = omega (arith, downs_of-append c xs ys)
downs_of-append c (dial_failed e ∷ xs) ys = downs_of-append c xs ys
downs_of-append c (heartbeat_lost ∷ xs) ys = downs_of-append c xs ys

-- A later Connect has replaced the connection `c`.
abbrev pub IsReplaced : ℕ → Life → Type 0
IsReplaced c s = (c < s.fresh) × (s.done < s.fresh) × (s.done ≢ c)

-- No loop of `c` is past the comparison of markDisconnected.
abbrev pub claims : ℕ → Task → ℕ
claims c (swapping shuts done reason) = if done == c then 1 else 0
claims c (tearing shuts done reason) = if done == c then 1 else 0
claims c (reporting done reason) = if done == c then 1 else 0
claims c published = 0
claims c (dialling dialled) = 0
claims c closing = 0
claims c (shutting shuts) = 0
claims c (losing done reason) = 0
claims c (marking done reason) = 0

abbrev pub claims_in : ℕ → List Task → ℕ
claims_in c [] = 0
claims_in c (t ∷ tasks) = claims c t + claims_in c tasks

claims_in-put_back :
    (c : ℕ) (o : Option Task) (tasks : List Task)
    → claims_in c (put_back o tasks) ≡ claims_in c (put_back o []) + claims_in c tasks
unfolding put_back
claims_in-put_back c none tasks = omega arith
claims_in-put_back c (some t) tasks = omega arith

-- The step leaves `c` replaced and unclaimed, and reports nothing of it.
abbrev Quiet : ℕ → Life → Life → ℕ → Type 0
Quiet c s t after = IsReplaced c t × (after ≡ 0) × (downs_of c t.notices ≡ downs_of c s.notices)

progress-Quiet :
    (c : ℕ) (t : Task) (s : Life)
    → IsReplaced c s
    → claims c t ≡ 0
    → let r = progress t s in Quiet c s r.0 (claims_in c (put_back r.1 []))
unfolding progress notify publish store_connected put_back
progress-Quiet c (dialling (some e)) s h free =
    ground (arith, downs_of-append c s.notices (dial_failed e ∷ []))
progress-Quiet c (dialling none) s h free = ground arith
progress-Quiet c published s h free = ground arith
progress-Quiet c closing s h free = ground arith
progress-Quiet c (shutting shuts) s h free = ground (arith, call_close_done-same shuts s)
progress-Quiet c (losing done reason) s h free =
    ground (arith, downs_of-append c s.notices (heartbeat_lost ∷ []))
progress-Quiet c (marking done reason) s h free = ground arith
progress-Quiet c (swapping shuts done reason) s h free = ground arith
progress-Quiet c (tearing shuts done reason) s h free = ground (arith, call_close_done-same shuts s)
progress-Quiet c (reporting done reason) s h free =
    ground (arith, downs_of-append c s.notices (down done reason ∷ []))

proceed-Quiet :
    (c i : ℕ) (tasks : List Task) (s : Life)
    → IsReplaced c s
    → claims_in c tasks ≡ 0
    → let r = proceed i tasks s in Quiet c s r.0 (claims_in c r.1)
unfolding proceed
proceed-Quiet c i [] s h free = (h, refl, refl)
proceed-Quiet c zero (t ∷ tasks) s h free =
    let q = progress-Quiet c t s h (omega (arith, free)) in
    (q.0, omega (arith, free, q.1, claims_in-put_back c (progress t s).1 tasks), q.2)
proceed-Quiet c (suc i) (t ∷ tasks) s h free =
    let q = proceed-Quiet c i tasks s h (omega (arith, free)) in
    (q.0, omega (arith, free, q.1), q.2)

move-Quiet :
    (c : ℕ) (m : Move) (f : Field)
    → IsReplaced c f.life
    → claims_in c f.tasks ≡ 0
    → let g = move m f in Quiet c f.life g.life (claims_in c g.tasks)
unfolding move begin store_connected
move-Quiet c (calls_connect dialled) f h free = ground arith
move-Quiet c calls_close f h free = (h, omega (arith, free), refl)
move-Quiet c (read_fails done reason) f h free = (h, omega (arith, free), refl)
move-Quiet c (ping_fails done reason) f h free = ground arith
move-Quiet c (proceeds i) f h free = proceed-Quiet c i f.tasks f.life h free

-- Once a later Connect has replaced a connection, and no loop of it is between the comparison of
-- markDisconnected and its end, OnDisconnect is never called for it any more, whatever its stale
-- loops and the users still do and however their steps interleave.
pub moves-silent :
    (c : ℕ) (steps : List Move) (f : Field)
    → IsReplaced c f.life
    → claims_in c f.tasks ≡ 0
    → downs_of c (moves steps f).life.notices ≡ downs_of c f.life.notices
unfolding moves
moves-silent c [] f replaced free = refl
moves-silent c (m ∷ steps) f replaced free =
    let q = move-Quiet c m f replaced free in moves-silent c steps (move m f) q.0 q.1 ∙ q.2

-- The comparison and the Swap are two steps: a read loop that has passed the comparison takes down
-- the next connection when Close and a whole Connect run in between. The socket is then not
-- connected, with OnDisconnect called for the old connection, but the new one's `done` is not
-- closed.
pub moves-stale :
    (reason : Bytes) (s : Life)
    → s.connected ≡ true
    → s.has_close_done ≡ true
    → is_closed s.done s.closed ≡ false
    → is_closed s.fresh s.closed ≡ false
    → s.done < s.fresh
    → let steps =
        read_fails s.done reason
        ∷ proceeds 0
        ∷ calls_close
        ∷ proceeds 0
        ∷ proceeds 0
        ∷ calls_connect none
        ∷ proceeds 0
        ∷ proceeds 0
        ∷ proceeds 0
        ∷ proceeds 0
        ∷ proceeds 0
        ∷ [] in
      let f = moves steps (record { life = s; tasks = [] }) in
      (f.life.connected ≡ false)
      × (f.life.done ≡ s.fresh)
      × (is_closed s.fresh f.life.closed ≡ false)
      × (f.life.notices ≡ s.notices ++ (down s.done reason ∷ []))
      × (f.tasks ≡ [])
unfolding moves move begin proceed progress put_back publish store_connected notify close_done
    call_close_done close_once is_closed
moves-stale reason s live made open_yet unused old = ground arith
