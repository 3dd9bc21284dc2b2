-- ===== src/Interrupts/Histories.antt =====
-- The process table after any sequence of operations from the start of the system.
use sistema_operativo.Prelude.{
  ℕ, zero, suc, ◌+◌, ◌<◌, ◌≡◌, ◌≢◌, refl, not, ◌||◌, List, [], ◌∷◌, get_or, map, replicate, arith,
  if_ind, ℤ, pos, negsuc, Option,
}
use sistema_operativo.Utils.{CStr}
use sistema_operativo.Console.{Output}
use sistema_operativo.Process.Types.{Procs, slot, zero_process, running, empty, max_processes}
use sistema_operativo.Process.Table.{
  init_process_table, create_process, kill_process, sleep_process, clear_slot,
}
use sistema_operativo.Process.Tick.{tick_processes, demote}
use sistema_operativo.Process.Slots.{Inv, SlotOk}
use sistema_operativo.Process.Invariant.{
  create_process-Inv, kill_process-Inv, sleep_process-Inv, timer-Inv,
}
use sistema_operativo.Process.Scheduler.{
  tick_processes-Inv, demote-Inv, demote-NoneRuns, demote-in_use, elect-Inv,
}
use sistema_operativo.Interrupts.Context.{run_user_process, cannot_run, is_user, enter}

-- The globals as the loader leaves them.
abbrev pub boot : Procs
boot = record {
  process_table = replicate max_processes zero_process;
  current_pid = 0;
  next_pid = 1;
  timer_ticks = 0;
  last_rr_pid = 0;
}

cleared_state :
    (n i : ℕ) → (get_or (map clear_slot (replicate n zero_process)) i zero_process).state ≡ empty
cleared_state zero i = refl
cleared_state (suc n) zero = refl
cleared_state (suc n) (suc i) = cleared_state n i

cleared_priority :
    (n i : ℕ) → (get_or (map clear_slot (replicate n zero_process)) i zero_process).priority ≡ 0
cleared_priority zero i = refl
cleared_priority (suc n) zero = refl
cleared_priority (suc n) (suc i) = cleared_priority n i

boot-SlotOk : (i : ℕ) → SlotOk 0 1 i (slot (init_process_table boot) i)
unfolding init_process_table
boot-SlotOk zero = record {
  prio = omega arith;
  named = λ _. refl;
  unique = λ _. refl;
  fresh = λ h. absurd (omega arith);
  kernel = λ _. tt;
}
boot-SlotOk (suc i) =
    let e = cleared_state 9 i in
    let z = cleared_priority 9 i in
    record {
      prio = omega arith;
      named = λ h. absurd (h e);
      unique = λ h. absurd (cc);
      fresh = λ _. e;
      kernel = λ h. absurd (omega arith);
    }

-- After init_process_table the table is well formed: only the kernel is in use, and it runs.
pub boot-Inv : Inv (init_process_table boot)
boot-Inv =
    unfold init_process_table in
    record {
      size = refl;
      current_in = omega arith;
      next_in = omega arith;
      next_pos = omega arith;
      turn_in = omega arith;
      slots = λ i h. boot-SlotOk i;
    }

enter-Inv :
    (pid : ℕ) (s : Procs)
    → Inv s
    → pid < max_processes
    → pid ≢ 0
    → (slot s pid).state ≢ empty
    → Inv (enter pid (demote s))
enter-Inv pid s v h nz used =
    elect-Inv (demote s) pid (demote s).last_rr_pid
      (record (slot (demote s) pid) { state = running }) w (demote-NoneRuns s v) h w.turn_in
      (let ok = w.slots pid h in ground (arith, ok, demote-in_use s pid v used))
  where
    w : Inv (demote s)
    w = demote-Inv s v

abbrev InvOf : Procs × List Output × Option (ℕ × ℕ) → Type 0
InvOf r = Inv r.0

-- Entering user mode keeps the table well formed.
pub run_user_process-Inv : (pid : ℤ) (s : Procs) → Inv s → Inv (run_user_process pid s).0
unfolding run_user_process
run_user_process-Inv (negsuc n) s v = v
run_user_process-Inv (pos n) s v =
    if_ind InvOf (cannot_run (pos n) s) (λ _. v)
      λ e.
        if_ind InvOf (not (is_user (slot s n).mode) || not (slot s n).context.valid) (λ _. v)
          λ _. enter-Inv n s v (ground arith) (ground arith) (ground arith)

-- What the timer and the commands of the shell ask of the process table.
pub data Event : Type 0 where
  ticks : Event
  creates : CStr → ℕ → Event
  kills : ℤ → Event
  suspends : ℤ → ℤ → Event
  enters : ℤ → Event

-- `entry` is the address of user_program.
unfoldable pub handle : ℕ → Event → Procs → Procs
handle entry ticks s = tick_processes (record s { timer_ticks = s.timer_ticks + 1 })
handle entry (creates name size) s = (create_process entry name size s).1
handle entry (kills pid) s = (kill_process pid s).0
handle entry (suspends pid seconds) s = (sleep_process pid seconds s).0
handle entry (enters pid) s = (run_user_process pid s).0

unfoldable pub handle_all : ℕ → List Event → Procs → Procs
handle_all entry [] s = s
handle_all entry (e ∷ es) s = handle_all entry es (handle entry e s)

handle-Inv : (entry : ℕ) (e : Event) (s : Procs) → Inv s → Inv (handle entry e s)
unfolding handle
handle-Inv entry ticks s v = tick_processes-Inv _ (timer-Inv s (s.timer_ticks + 1) v)
handle-Inv entry (creates name size) s v = create_process-Inv entry name size s v
handle-Inv entry (kills pid) s v = kill_process-Inv pid s v
handle-Inv entry (suspends pid seconds) s v = sleep_process-Inv pid seconds s v
handle-Inv entry (enters pid) s v = run_user_process-Inv pid s v

handle_all-Inv : (entry : ℕ) (es : List Event) (s : Procs) → Inv s → Inv (handle_all entry es s)
unfolding handle_all
handle_all-Inv entry [] s v = v
handle_all-Inv entry (e ∷ es) s v =
    handle_all-Inv entry es (handle entry e s) (handle-Inv entry e s v)

-- From the start of the system, whatever ticks, creations, kills, suspensions and entries into user
-- mode follow, in whatever order and with whatever arguments, the process table stays well formed.
pub history-Inv :
    (entry : ℕ) (es : List Event) → Inv (handle_all entry es (init_process_table boot))
history-Inv entry es = handle_all-Inv entry es (init_process_table boot) boot-Inv
