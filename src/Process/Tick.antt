-- ===== src/Process/Tick.antt =====
-- mi_so_completo/src/process.c: get_best_process and the loops of process_tick.
use sistema_operativo.Prelude.{
  ℕ, zero, suc, ◌+◌, ◌-◌, ◌%◌, ◌^◌, ◌&&◌, Option, none, some, List, [], ◌∷◌, map, set, ltb, leb,
  ◌==◌, if◌then◌else◌, ℤ, pos, negsuc,
}
use sistema_operativo.Process.Types.{
  max_processes, Process, Procs, slot, put_slot, is_running, is_ready, is_sleeping, is_zombie,
  empty, running, ready,
}
use sistema_operativo.Process.Table.{not_positive}

-- The least priority below `best` of a READY process.
unfoldable pub best_priority : ℕ → List Process → ℕ
best_priority best [] = best
best_priority best (p ∷ ps) =
    best_priority (if is_ready p.state && ltb p.priority best then p.priority else best) ps

-- The second loop, `n` rounds from `step` on.
unfoldable pub next_in_turn : ℕ → ℕ → ℕ → Procs → Option ℕ
next_in_turn zero step best s = none
next_in_turn (suc n) step best s =
    let pid = (s.last_rr_pid + step) % max_processes in
    let rest = next_in_turn n (step + 1) best s in
    if is_ready (slot s pid).state && (slot s pid).priority == best then some pid else rest

abbrev take_turn : Option ℕ → Procs → ℕ × Procs
take_turn none s = (s.current_pid, s)
take_turn (some pid) s = (pid, record s { last_rr_pid = pid })

unfoldable pub get_best_process : Procs → ℕ × Procs
get_best_process s =
    let best = best_priority 10 s.process_table in
    if best == 10 then (s.current_pid, s) else take_turn (next_in_turn max_processes 1 best s) s

-- sleep_ticks--, in 32 bits: one tick before the least `int` is the largest.
abbrev pub tick_down : ℤ → ℤ
tick_down (pos zero) = negsuc 0
tick_down (pos (suc n)) = pos n
tick_down (negsuc n) = if n == 2 ^ 31 - 1 then pos (2 ^ 31 - 1) else negsuc (suc n)

-- The three loops of process_tick.
abbrev pub wake : Process → Process
wake p =
    if is_sleeping p.state
    then if not_positive (tick_down p.sleep_ticks)
      then record p { sleep_ticks = tick_down p.sleep_ticks; state = ready; wait_ticks = 0 }
      else record p { sleep_ticks = tick_down p.sleep_ticks }
    else p

abbrev pub reap : Process → Process
reap p = if is_zombie p.state then record p { state = empty; pid = negsuc 0; wait_ticks = 0 } else p

abbrev pub age : Process → Process
age p =
    if is_ready p.state
    then if leb 50 (p.wait_ticks + 1)
      then record p { wait_ticks = 0; priority = p.priority - 1 }
      else record p { wait_ticks = p.wait_ticks + 1 }
    else p

-- A loop from index 1 on.
abbrev pub map_tail : (Process → Process) → List Process → List Process
map_tail f [] = []
map_tail f (p ∷ ps) = p ∷ map f ps

-- The last part of process_tick, every tenth tick. The index is never the -1 of the test.
unfoldable pub demote : Procs → Procs
demote s =
    if is_running (slot s s.current_pid).state
    then put_slot s s.current_pid (record (slot s s.current_pid) { state = ready })
    else s

unfoldable pub dispatch : ℕ → Procs → Procs
dispatch next s =
    if is_ready (slot s next).state
    then record s {
      current_pid = next;
      process_table = set s.process_table next (record (slot s next) {
        state = running;
        cpu_time = (slot s next).cpu_time + 1;
        wait_ticks = 0;
      });
    }
    else s

unfoldable pub reschedule : Procs → Procs
unfolding demote dispatch
reschedule s = let (next, s') = get_best_process (demote s) in dispatch next s'

-- What process_tick does after it has counted the tick and called server_tick.
unfoldable pub tick_loops : Procs → Procs
tick_loops s = record s { process_table = map_tail age (map_tail reap (map wake s.process_table)) }

unfoldable pub tick_processes : Procs → Procs
unfolding tick_loops reschedule
tick_processes s = let s' = tick_loops s in if s'.timer_ticks % 10 == 0 then reschedule s' else s'
