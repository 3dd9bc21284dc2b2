-- ===== src/Interrupts/Context.antt =====
-- save_context_from_regs and load_context_to_regs of mi_so_completo/src/process.c, and
-- timer_irq_dispatch, irq0_stub and run_user_process of mi_so_completo/src/interrupts.c.
use sistema_operativo.Prelude.{
  ℕ, Bool, true, false, not, ◌||◌, Option, none, some, List, [], ◌∷◌, leb, ◌==◌, if◌then◌else◌, ℤ,
  pos, negsuc,
}
use sistema_operativo.Utils.{str}
use sistema_operativo.Console.{Output, text}
use sistema_operativo.Process.Types.{
  Mode, kernel_mode, user_mode, running, UserContext, Procs, max_processes, slot, put_slot,
  is_empty,
}
use sistema_operativo.Process.Table.{index}
use sistema_operativo.Process.Tick.{demote}
use sistema_operativo.Interrupts.Types.{Regs, Machine, process_tick}

abbrev pub saved_context : Regs → UserContext → UserContext
saved_context r c = record c {
  edi = r.edi;
  esi = r.esi;
  ebp = r.ebp;
  esp = r.esp;
  ebx = r.ebx;
  edx = r.edx;
  ecx = r.ecx;
  eax = r.eax;
  valid = true;
}

unfoldable pub save_context_from_regs : ℕ → Regs → Procs → Procs
save_context_from_regs pid r s =
    if leb max_processes pid || is_empty (slot s pid).state
    then s
    else put_slot s pid (record (slot s pid) { context = saved_context r (slot s pid).context })

abbrev pub loaded_regs : UserContext → Regs
loaded_regs c = record {
  edi = c.edi;
  esi = c.esi;
  ebp = c.ebp;
  esp = c.esp;
  ebx = c.ebx;
  edx = c.edx;
  ecx = c.ecx;
  eax = c.eax;
}

unfoldable pub load_context_to_regs : ℕ → Procs → Regs → Regs
load_context_to_regs pid s r =
    if leb max_processes pid || not (slot s pid).context.valid
    then r
    else loaded_regs (slot s pid).context

-- The first result is the register frame that it leaves on the stack.
unfoldable pub timer_irq_dispatch : Regs → Machine → Regs × Machine × List Output
timer_irq_dispatch r m =
    let previous = m.procs.current_pid in
    let (m', out) = process_tick (record m { procs = save_context_from_regs previous r m.procs }) in
    (
      if m'.procs.current_pid == previous
          then r
          else load_context_to_regs m'.procs.current_pid m'.procs r,
      m',
      out,
    )

-- `popa` takes the general registers from the frame, but passes over its esp.
abbrev pub popa : Regs → Regs → Regs
popa frame r = record frame { esp = r.esp }

-- With the state and the output come the registers with which the interrupted code, or the one switched
-- to, goes on: `r` are those of `pusha`.
unfoldable pub irq0_stub : Regs → Machine → Regs × Machine × List Output
irq0_stub r m = let (frame, m', out) = timer_irq_dispatch r m in (popa frame r, m', out)

abbrev pub is_user : Mode → Bool
is_user user_mode = true
is_user kernel_mode = false

-- pid <= 0 || pid >= MAX_PROCESSES || process_table[pid].state == PROC_EMPTY
abbrev pub cannot_run : ℤ → Procs → Bool
cannot_run (pos pid) s = pid == 0 || (leb max_processes pid || is_empty (slot s pid).state)
cannot_run (negsuc n) s = true

abbrev pub enter : ℕ → Procs → Procs
enter pid s =
    put_slot (record s { current_pid = pid }) pid (record (slot s pid) { state = running })

-- With the new state and the output comes the entry point and the stack that enter_user_mode jumps
-- to; `none` is a return to the caller.
unfoldable pub run_user_process : ℤ → Procs → Procs × List Output × Option (ℕ × ℕ)
run_user_process pid s =
    let p = slot s (index pid) in
    if cannot_run pid s
    then (s, text (str "Error: proceso no existe\n") 0x0C ∷ [], none)
    else if not (is_user p.mode) || not p.context.valid
    then (s, text (str "Error: proceso usuario invalido\n") 0x0C ∷ [], none)
    else let s' = enter (index pid) (demote s) in
      let q = slot s' (index pid) in (s', [], some (q.context.eip, q.context.esp))
