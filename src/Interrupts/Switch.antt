-- ===== src/Interrupts/Switch.antt =====
-- The registers and the saved contexts in the timer interrupt of interrupts.c.
use native.Mathlib.Decide.{ℕ_discrete}
use sistema_operativo.Prelude.{
  ℕ, ◌+◌, ◌<◌, ◌≡◌, ◌≢◌, ◌∙◌, true, false, leb, ◌==◌, ==_iff, arith, if◌then◌else◌, get_or-set_self,
  get_or-set_ne, Bool-cases, inl, inr,
}
use sistema_operativo.Process.Types.{Procs, slot, zero_process, empty, max_processes, UserContext}
use sistema_operativo.Process.Slots.{Inv}
use sistema_operativo.Process.Contexts.{tick_processes-SameContexts}
use sistema_operativo.Interrupts.Types.{Regs, Machine, process_tick}
use sistema_operativo.Interrupts.Context.{
  saved_context, loaded_regs, save_context_from_regs, load_context_to_regs, timer_irq_dispatch,
  irq0_stub,
}

differs : (i j : ℕ) → i ≢ j → (i == j) ≡ false
differs i j ne = ground arith

-- The state in which the tick finds the table: the registers saved.
abbrev saved : Regs → Machine → Machine
saved r m = record m { procs = save_context_from_regs m.procs.current_pid r m.procs }

save_context_self :
    (r : Regs) (s : Procs)
    → Inv s
    → (slot s s.current_pid).state ≢ empty
    → (slot (save_context_from_regs s.current_pid r s) s.current_pid).context
      ≡ saved_context r (slot s s.current_pid).context
unfolding save_context_from_regs
save_context_self r s v alive = ground (
  arith,
  v.current_in,
  get_or-set_self s.process_table s.current_pid
      (record (slot s s.current_pid) { context = saved_context r (slot s s.current_pid).context })
      zero_process (omega (arith, v.size, v.current_in)),
)

save_context-ne :
    (r : Regs) (s : Procs) (i : ℕ)
    → i ≢ s.current_pid
    → (slot (save_context_from_regs s.current_pid r s) i).context ≡ (slot s i).context
unfolding save_context_from_regs
save_context-ne r s i h = ground (
  arith,
  get_or-set_ne s.process_table s.current_pid i
      (record (slot s s.current_pid) { context = saved_context r (slot s s.current_pid).context })
      zero_process,
)

context-process_tick :
    (m : Machine) (i : ℕ) → (slot (process_tick m).0.procs i).context ≡ (slot m.procs i).context
unfolding process_tick
context-process_tick m i =
    tick_processes-SameContexts (record (m.procs) { timer_ticks = m.procs.timer_ticks + 1 }) i

-- From a well-formed table whose current process is in use, the timer interrupt stores each of the eight
-- general registers in the field of its name in the context of that process and marks the context valid.
-- It leaves the other fields of that context, the instruction pointer too, and every other context as
-- they were.
pub timer_irq_saves :
    (r : Regs) (m : Machine) (i : ℕ)
    → Inv m.procs
    → (slot m.procs m.procs.current_pid).state ≢ empty
    → (slot (timer_irq_dispatch r m).1.procs i).context ≡ (
        if i == m.procs.current_pid
        then record {
          edi = r.edi;
          esi = r.esi;
          ebp = r.ebp;
          esp = r.esp;
          ebx = r.ebx;
          edx = r.edx;
          ecx = r.ecx;
          eax = r.eax;
          eip = (slot m.procs i).context.eip;
          cs = (slot m.procs i).context.cs;
          ss = (slot m.procs i).context.ss;
          eflags = (slot m.procs i).context.eflags;
          valid = true;
        }
        else (slot m.procs i).context)
unfolding timer_irq_dispatch
timer_irq_saves r m i v alive = elim (ℕ_discrete i m.procs.current_pid) [
  | yes e ↦
      rw ((==_iff i m.procs.current_pid).1 e, e)
        (context-process_tick (saved r m) m.procs.current_pid ∙ save_context_self r m.procs v alive)
  | no ne ↦
      rw (differs i m.procs.current_pid ne)
        (context-process_tick (saved r m) i ∙ save_context-ne r m.procs i ne)
]

load_lem :
    (pid : ℕ) (s : Procs) (r : Regs) (c : UserContext)
    → pid < max_processes
    → (slot s pid).context ≡ c
    → c.valid ≡ true
    → load_context_to_regs pid s r ≡ loaded_regs c
unfolding load_context_to_regs
load_lem pid s r c h e valid =
    let outside : leb max_processes pid ≡ false = ground arith in rw (outside, e, valid)

-- The frame that timer_irq_dispatch leaves.
timer_irq_dispatch_lem :
    (r : Regs) (m : Machine)
    → (timer_irq_dispatch r m).1.procs.current_pid < max_processes
    → (slot m.procs (timer_irq_dispatch r m).1.procs.current_pid).context.valid ≡ true
    → let next = (timer_irq_dispatch r m).1.procs.current_pid in
      (timer_irq_dispatch r m).0
      ≡ (if next == m.procs.current_pid then r else loaded_regs (slot m.procs next).context)
unfolding timer_irq_dispatch
timer_irq_dispatch_lem r m h valid =
    elim (ℕ_discrete (process_tick (saved r m)).0.procs.current_pid m.procs.current_pid) [
      | yes e ↦
          let t = (==_iff (process_tick (saved r m)).0.procs.current_pid m.procs.current_pid).1 e in
          rw t
      | no ne ↦ rw (differs (process_tick (saved r m)).0.procs.current_pid m.procs.current_pid ne) (
          load_lem (process_tick (saved r m)).0.procs.current_pid (process_tick (saved r m)).0.procs
            r _ h
            (context-process_tick (saved r m) (process_tick (saved r m)).0.procs.current_pid
              ∙ save_context-ne r m.procs (process_tick (saved r m)).0.procs.current_pid ne)
            valid)
    ]

-- The timer interrupt returns with the registers that it came with if the process goes on; if it
-- switches to a process with a valid context, it returns with each general register as it is saved
-- there, but for esp: that is still the one it came with.
pub timer_irq_loads :
    (r : Regs) (m : Machine)
    → (irq0_stub r m).1.procs.current_pid < max_processes
    → (slot m.procs (irq0_stub r m).1.procs.current_pid).context.valid ≡ true
    → let next = (irq0_stub r m).1.procs.current_pid in
      (irq0_stub r m).0 ≡ (
        if next == m.procs.current_pid then r else record {
          edi = (slot m.procs next).context.edi;
          esi = (slot m.procs next).context.esi;
          ebp = (slot m.procs next).context.ebp;
          esp = r.esp;
          ebx = (slot m.procs next).context.ebx;
          edx = (slot m.procs next).context.edx;
          ecx = (slot m.procs next).context.ecx;
          eax = (slot m.procs next).context.eax;
        })
unfolding irq0_stub
timer_irq_loads r m h valid =
    let next = (timer_irq_dispatch r m).1.procs.current_pid in
    rw (timer_irq_dispatch_lem r m h valid)
      (elim (Bool-cases (next == m.procs.current_pid)) [ inl t ↦ rw t | inr f ↦ rw f ])
