-- ===== src/Interrupts/Exhaustion.antt =====
-- What becomes of create_process of process.c once `next_pid` is at the end of the table.
use sistema_operativo.Prelude.{ℕ, ◌+◌, ◌≤◌, ◌≡◌, refl, List, [], ◌∷◌, arith, leb, ℤ, negsuc, true}
use sistema_operativo.Utils.{CStr, str}
use sistema_operativo.Console.{text}
use sistema_operativo.Process.Types.{Procs, max_processes}
use sistema_operativo.Process.Table.{create_process, kill_process, sleep_process}
use sistema_operativo.Process.Tick.{
  tick_processes, demote, get_best_process, tick_loops, reschedule,
}
use sistema_operativo.Interrupts.Context.{run_user_process}
use sistema_operativo.Interrupts.Histories.{
  Event, ticks, creates, kills, suspends, enters, handle, handle_all,
}

get_best_process-next_pid : (s : Procs) → (get_best_process s).1.next_pid ≡ s.next_pid
unfolding get_best_process
get_best_process-next_pid s = ground arith

reschedule-next_pid : (s : Procs) → (reschedule s).next_pid ≡ s.next_pid
unfolding reschedule
reschedule-next_pid s = ground (arith, get_best_process-next_pid (demote s))

tick_processes-next_pid : (s : Procs) → (tick_processes s).next_pid ≡ s.next_pid
unfolding tick_processes
tick_processes-next_pid s = ground (arith, reschedule-next_pid (tick_loops s))

kill_process-next_pid : (pid : ℤ) (s : Procs) → (kill_process pid s).0.next_pid ≡ s.next_pid
unfolding kill_process
kill_process-next_pid pid s = ground arith

sleep_process-next_pid :
    (pid seconds : ℤ) (s : Procs) → (sleep_process pid seconds s).0.next_pid ≡ s.next_pid
unfolding sleep_process
sleep_process-next_pid pid seconds s = ground arith

demote-next_pid : (s : Procs) → (demote s).next_pid ≡ s.next_pid
unfolding demote
demote-next_pid s = ground arith

run_user_process-next_pid : (pid : ℤ) (s : Procs) → (run_user_process pid s).0.next_pid ≡ s.next_pid
unfolding run_user_process
run_user_process-next_pid pid s = ground (arith, demote-next_pid s)

create_process-next_pid :
    (entry size : ℕ) (name : CStr) (s : Procs)
    → s.next_pid ≤ (create_process entry name size s).1.next_pid
unfolding create_process
create_process-next_pid entry size name s = ground arith

handle-next_pid : (entry : ℕ) (e : Event) (s : Procs) → s.next_pid ≤ (handle entry e s).next_pid
unfolding handle
handle-next_pid entry ticks s =
    omega (arith, tick_processes-next_pid (record s { timer_ticks = s.timer_ticks + 1 }))
handle-next_pid entry (creates name size) s = create_process-next_pid entry size name s
handle-next_pid entry (kills pid) s = omega (arith, kill_process-next_pid pid s)
handle-next_pid entry (suspends pid seconds) s = omega (arith, sleep_process-next_pid pid seconds s)
handle-next_pid entry (enters pid) s = omega (arith, run_user_process-next_pid pid s)

handle_all-next_pid :
    (entry : ℕ) (es : List Event) (s : Procs) → s.next_pid ≤ (handle_all entry es s).next_pid
unfolding handle_all
handle_all-next_pid entry [] s = omega arith
handle_all-next_pid entry (e ∷ es) s =
    omega (arith, handle-next_pid entry e s, handle_all-next_pid entry es (handle entry e s))

-- Once the pids are given out no process can be created any more: whatever ticks, kills and other
-- events follow, though they end every process, a creation fails and changes nothing.
pub create_process-exhausted :
    (entry size : ℕ) (name : CStr) (es : List Event) (s : Procs)
    → max_processes ≤ s.next_pid
    → create_process entry name size (handle_all entry es s)
      ≡ (negsuc 0, handle_all entry es s, text (str "Error: tabla de procesos llena\n") 0x0C ∷ [])
unfolding create_process
create_process-exhausted entry size name es s h =
    let full : leb max_processes (handle_all entry es s).next_pid ≡ true =
      ground (arith, handle_all-next_pid entry es s) in
    rw full refl
