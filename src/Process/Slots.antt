-- ===== src/Process/Slots.antt =====
-- The well-formedness of the process table, and what it takes to keep it at one slot.
use native.Mathlib.Decide.{ℕ_discrete}
use sistema_operativo.Prelude.{
  ℕ, ◌≤◌, ◌<◌, ◌≡◌, ◌≢◌, ◌∙◌, length, arith, pos, length-set, get_or-set_self, get_or-set_ne, subst,
}
use sistema_operativo.Process.Types.{
  Process, Procs, ProcState, empty, running, ready, slot, put_slot, max_processes, zero_process,
}
use sistema_operativo.Process.Tick.{wake, reap, age}

-- The states of a process that can be scheduled at any time.
abbrev pub IsLive : ProcState → Type 0
IsLive running = Unit
IsLive ready = Unit
IsLive _ = ⊥

-- What holds of the process in slot `i`.
pub record SlotOk (current next i : ℕ) (p : Process) : Type 0 where
  pub prio : p.priority ≤ 9
  pub named : p.state ≢ empty → p.pid ≡ pos i
  pub unique : p.state ≡ running → i ≡ current
  pub fresh : next ≤ i → p.state ≡ empty
  pub kernel : i ≡ 0 → IsLive p.state

-- The table has its ten slots; every index is inside it; a priority is at most 9; a process in use
-- has its slot's number; only the current process may run; the slots that were never given out are
-- empty; and the kernel, process 0, is running or ready.
pub record Inv (s : Procs) : Type 0 where
  pub size : length s.process_table ≡ max_processes
  pub current_in : s.current_pid < max_processes
  pub next_in : s.next_pid ≤ max_processes
  pub next_pos : 0 < s.next_pid
  pub turn_in : s.last_rr_pid < max_processes
  pub slots : (i : ℕ) → i < max_processes → SlotOk s.current_pid s.next_pid i (slot s i)

-- A slot may be written with any process that fits there.
pub put_slot-Inv :
    (s : Procs) (i : ℕ) (p : Process)
    → Inv s
    → i < max_processes
    → SlotOk s.current_pid s.next_pid i p
    → Inv (put_slot s i p)
put_slot-Inv s i p v h ok = record {
  size = length-set s.process_table i p ∙ v.size;
  current_in = v.current_in;
  next_in = v.next_in;
  next_pos = v.next_pos;
  turn_in = v.turn_in;
  slots = λ j k. elim (ℕ_discrete i j) [
    | yes e ↦
        subst (λ m. SlotOk s.current_pid s.next_pid m (slot (put_slot s i p) m)) e
          (rw (get_or-set_self s.process_table i p zero_process (omega (arith, v.size))) ok)
    | no ne ↦ rw (get_or-set_ne s.process_table i j p zero_process ne) (v.slots j k)
  ];
}

module _ {current next i : ℕ} (p : Process) (ok : SlotOk current next i p) where
  pub wake-SlotOk : SlotOk current next i (wake p)
  wake-SlotOk = ground arith

  pub reap-SlotOk : i ≢ 0 → SlotOk current next i (reap p)
  reap-SlotOk h = ground arith

  pub age-SlotOk : SlotOk current next i (age p)
  age-SlotOk = ground arith
