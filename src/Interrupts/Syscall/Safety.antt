-- ===== src/Interrupts/Syscall/Safety.antt =====
-- The system calls of interrupts.c, but SYS_READ and SYS_WAIT, and the process table.
use sistema_operativo.Prelude.{
  List, ℕ, ◌+◌, ◌<◌, ◌≡◌, ◌≢◌, false, not, ◌&&◌, none, some, arith, ltb, leb, ◌==◌, pos, to_int,
  if_ind, ==_iff,
}
use sistema_operativo.Utils.{CStr}
use sistema_operativo.Process.Types.{Procs, slot, put_slot, empty, ready, is_empty, max_processes}
use sistema_operativo.Process.Table.{index, create_process}
use sistema_operativo.Process.Slots.{Inv, put_slot-Inv}
use sistema_operativo.Process.Invariant.{
  create_process-Inv, kill_process-Inv, sleep_process-Inv, timer-Inv,
}
use sistema_operativo.Process.Scheduler.{tick_processes-Inv}
use sistema_operativo.Interrupts.Types.{Machine, process_tick}
use sistema_operativo.Interrupts.Syscall.{
  Return, current, user_ptr_ok, max_write, sys_write, sys_setprio, sys_getprio, sys_fork, adopt,
  sys_yield, sys_exit, sys_sleep, syscall_handler,
}

-- The call returns, and the table is well formed after it.
abbrev pub ReturnsInv : Return → Type 0
ReturnsInv none = ⊥
ReturnsInv (some r) = Inv r.1.procs

-- process_tick keeps the table well formed.
pub process_tick-Inv : (m : Machine) → Inv m.procs → Inv (process_tick m).0.procs
unfolding process_tick
process_tick-Inv m v = tick_processes-Inv _ (timer-Inv m.procs (m.procs.timer_ticks + 1) v)

sys_setprio-Inv : (arg1 arg2 : ℕ) (m : Machine) → Inv m.procs → ReturnsInv (sys_setprio arg1 arg2 m)
unfolding sys_setprio
sys_setprio-Inv arg1 arg2 m v =
    if_ind ReturnsInv
      (ltb arg1 max_processes && (not (is_empty (slot m.procs arg1).state) && leb arg2 9))
      (λ e.
        let h : arg1 < max_processes = ground arith in
        put_slot-Inv m.procs arg1 _ v h (let ok = v.slots arg1 h in ground (arith, ok)))
      λ _. v

sys_getprio-Inv : (arg1 : ℕ) (m : Machine) → Inv m.procs → ReturnsInv (sys_getprio arg1 m)
unfolding sys_getprio
sys_getprio-Inv arg1 m v =
    if_ind ReturnsInv (ltb arg1 max_processes && not (is_empty (slot m.procs arg1).state)) (λ _. v)
      λ _. v

sys_write-Inv : (arg1 arg2 : ℕ) (m : Machine) → Inv m.procs → ReturnsInv (sys_write arg1 arg2 m)
unfolding sys_write
sys_write-Inv arg1 arg2 m v =
    if_ind ReturnsInv (user_ptr_ok arg1 (max_write arg2) m.procs) (λ _. v) λ _. v

sys_yield-Inv :
    (m : Machine) → Inv m.procs → (current m.procs).state ≢ empty → ReturnsInv (sys_yield m)
unfolding sys_yield
sys_yield-Inv m v alive =
    process_tick-Inv
      (record m {
        procs = put_slot m.procs m.procs.current_pid (record (current m.procs) { state = ready });
      })
      (put_slot-Inv m.procs m.procs.current_pid _ v v.current_in
        (let ok = v.slots m.procs.current_pid v.current_in in ground (arith, ok)))

adopt-Inv : (child : ℕ) (s : Procs) → Inv s → child < max_processes → Inv (adopt child s)
adopt-Inv child s v h = put_slot-Inv s child _ v h (let ok = v.slots child h in ground (arith, ok))

created_inside :
    (entry : ℕ) (name : CStr) (size : ℕ) (s : Procs)
    → leb max_processes s.next_pid ≡ false
    → index (create_process entry name size s).0 < max_processes
unfolding create_process
created_inside entry name size s e = rw e (ground arith)

sys_fork-Inv : (entry : ℕ) (m : Machine) → Inv m.procs → ReturnsInv (sys_fork entry m)
unfolding sys_fork
sys_fork-Inv entry m v =
    if_ind ReturnsInv (leb max_processes m.procs.next_pid) (λ _. v)
      λ e.
        adopt-Inv _ _ (create_process-Inv entry (current m.procs).name 0x2000 m.procs v)
          (created_inside entry (current m.procs).name 0x2000 m.procs e)

sys_exit-Inv : (m : Machine) → Inv m.procs → ReturnsInv (sys_exit m)
unfolding sys_exit
sys_exit-Inv m v = kill_process-Inv (pos m.procs.current_pid) m.procs v

sys_sleep-Inv : (arg1 : ℕ) (m : Machine) → Inv m.procs → ReturnsInv (sys_sleep arg1 m)
unfolding sys_sleep
sys_sleep-Inv arg1 m v = sleep_process-Inv (pos m.procs.current_pid) (to_int arg1) m.procs v

-- From a well-formed table, every system call but SYS_READ and SYS_WAIT returns, whatever its
-- number and arguments, and keeps the process table well formed, if the caller's slot is in use.
pub syscall_handler-ReturnsInv :
    (entry fuel : ℕ) (codes : List ℕ) (num arg1 arg2 : ℕ) (m : Machine)
    → Inv m.procs
    → (current m.procs).state ≢ empty
    → num ≢ 8
    → num ≢ 10
    → ReturnsInv (syscall_handler entry fuel codes num arg1 arg2 m)
unfolding syscall_handler
syscall_handler-ReturnsInv entry fuel codes num arg1 arg2 m v alive no_read no_wait =
    if_ind ReturnsInv (num == 1) (λ _. sys_exit-Inv m v)
      λ _.
        if_ind ReturnsInv (num == 2) (λ _. v)
          λ _.
            if_ind ReturnsInv (num == 3) (λ _. v)
              λ _.
                if_ind ReturnsInv (num == 4) (λ _. sys_sleep-Inv arg1 m v)
                  λ _.
                    if_ind ReturnsInv (num == 5) (λ _. sys_setprio-Inv arg1 arg2 m v)
                      λ _.
                        if_ind ReturnsInv (num == 6) (λ _. sys_getprio-Inv arg1 m v)
                          λ _.
                            if_ind ReturnsInv (num == 7) (λ _. sys_write-Inv arg1 arg2 m v)
                              λ _.
                                if_ind ReturnsInv (num == 8)
                                  (λ e. absurd (no_read ((==_iff num 8).0 e)))
                                  λ _.
                                    if_ind ReturnsInv (num == 9) (λ _. sys_fork-Inv entry m v)
                                      λ _.
                                        if_ind ReturnsInv (num == 10)
                                          (λ e. absurd (no_wait ((==_iff num 10).0 e)))
                                          λ _.
                                            if_ind ReturnsInv (num == 11)
                                              (λ _. sys_yield-Inv m v alive)
                                              λ _. if_ind ReturnsInv (num == 12) (λ _. v) λ _. v
