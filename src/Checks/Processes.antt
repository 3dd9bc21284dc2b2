-- ===== src/Checks/Processes.antt =====
-- mi_so_completo/src/process.c on concrete tables.
use sistema_operativo.Prelude.{◌+◌, ◌≡◌, refl, List, [], ◌∷◌, pos, negsuc, arith, ◌*◌, replicate}
use sistema_operativo.Utils.{str}
use sistema_operativo.Console.{text}
use sistema_operativo.Interrupts.Exhaustion.{create_process-exhausted}
use sistema_operativo.Process.Types.{Procs, slot, running, ready, sleeping, zero_process}
use sistema_operativo.Process.Table.{
  init_process_table, create_process, kill_process, sleep_process,
}
use sistema_operativo.Process.Sleep.{tick_all, IsAwake, sleep_process-wakes}
use sistema_operativo.Process.Tick.{
  reschedule, demote, get_best_process, best_priority, tick_processes,
}
use sistema_operativo.Process.Invariant.{create_process-Inv}
use sistema_operativo.Process.Fairness.{RunsWithin, ready-RunsWithin}
use sistema_operativo.Process.Slots.{Inv}
use sistema_operativo.Process.Best.{IsBest}
use sistema_operativo.Process.Scheduler.{reschedule-IsBest}
use sistema_operativo.Interrupts.Histories.{
  boot, boot-Inv, Event, ticks, creates, kills, suspends, enters, handle, handle_all,
}
use sistema_operativo.Interrupts.Context.{run_user_process}

abbrev fresh_table : Procs
fresh_table = init_process_table boot

reschedule-IsBest_example :
    let t = reschedule fresh_table in
    Inv t
    × ((slot t t.current_pid).state ≡ running)
    × IsBest (demote fresh_table) t.current_pid
    × ((slot t t.current_pid).cpu_time ≡ (slot (demote fresh_table) t.current_pid).cpu_time + 1)
reschedule-IsBest_example = reschedule-IsBest fresh_table boot-Inv

abbrev script : List Event
script =
    creates (b'a' ∷ []) 4096
    ∷ creates (b'b' ∷ []) 4096
    ∷ suspends (pos 1) (pos 2)
    ∷ enters (pos 2)
    ∷ ticks
    ∷ kills (pos 1)
    ∷ ticks
    ∷ kills (pos 0)
    ∷ []

script_runs : (handle_all 0x9000 script fresh_table).current_pid ≡ 2
unfolding handle_all handle init_process_table create_process kill_process sleep_process
    tick_processes run_user_process get_best_process best_priority
script_runs = refl

-- Nine processes have been created.
abbrev used_up : Procs
used_up = record fresh_table { next_pid = 10 }

create_process-exhausted_example :
    create_process 0x9000 (b'a' ∷ []) 4096 (handle_all 0x9000 script used_up) ≡ (
      negsuc 0,
      handle_all 0x9000 script used_up,
      text (str "Error: tabla de procesos llena\n") 0x0C ∷ [],
    )
create_process-exhausted_example =
    create_process-exhausted 0x9000 4096 (b'a' ∷ []) script used_up (omega arith)

-- The kernel runs and process 1 is ready.
abbrev two_processes : Procs
two_processes = record boot {
  process_table =
      record zero_process { state = running }
      ∷ record zero_process { pid = pos 1; state = ready }
      ∷ replicate 8 zero_process;
}

sleep_process-wakes_example :
    let t = (sleep_process (pos 1) (pos 2) two_processes).0 in
    ((slot (tick_all 199 t) 1).state ≡ sleeping) × IsAwake (slot (tick_all (2 * 100) t) 1)
sleep_process-wakes_example =
    sleep_process-wakes 1 2 199 two_processes (omega arith) (omega arith) (λ e. cc) (omega arith)
      (omega arith) (omega arith)

-- One process waits to run for the first time.
abbrev waiting : Procs
waiting = (create_process 0x9000 (b'a' ∷ []) 4096 fresh_table).1

waiting_ready : (slot waiting 1).state ≡ ready
unfolding create_process init_process_table
waiting_ready = refl

ready-RunsWithin_example : RunsWithin 550 waiting 1
ready-RunsWithin_example =
    ready-RunsWithin waiting 1 (create_process-Inv 0x9000 (b'a' ∷ []) 4096 fresh_table boot-Inv)
      (omega arith) (omega arith) waiting_ready
