-- ===== src/Checks/Handlers.antt =====
-- mi_so_completo/src/interrupts.c on concrete states.
use sistema_operativo.Prelude.{
  ℕ, ◌≡◌, ◌≢◌, ◌↔◌, refl, true, false, some, none, [], ◌∷◌, arith, replicate, pos, ◌==◌,
  if◌then◌else◌,
}
use sistema_operativo.Process.Types.{
  Procs, Process, slot, running, ready, empty, zombie, zero_process, user_mode,
}
use sistema_operativo.Process.Table.{init_process_table, create_process, kill_process}
use sistema_operativo.Process.Slots.{Inv}
use sistema_operativo.Process.Invariant.{create_process-Inv}
use sistema_operativo.Utils.{str}
use sistema_operativo.Servers.Types.{Servers, viewer}
use sistema_operativo.Console.{glyph}
use sistema_operativo.Keyboard.{Keyboard}
use sistema_operativo.Keyboard.Ring.{IsValid, contents}
use sistema_operativo.Interrupts.Syscall.Read.{sys_read-waiting}
use sistema_operativo.Interrupts.Gates.{setup_idt}
use sistema_operativo.Interrupts.Int80.{int80_stub, int80_stub-halts}
use sistema_operativo.Interrupts.Types.{Regs, Machine, process_tick}
use sistema_operativo.Process.Tick.{tick_processes, get_best_process, best_priority, next_in_turn}
use sistema_operativo.Interrupts.Context.{
  saved_context, timer_irq_dispatch, irq0_stub, save_context_from_regs,
}
use sistema_operativo.Interrupts.Switch.{timer_irq_saves, timer_irq_loads}
use sistema_operativo.Interrupts.Histories.{boot, boot-Inv}
use sistema_operativo.Interrupts.Syscall.{
  user_ptr_ok, current, sys_wait, sys_read, store, syscall_handler,
}
use sistema_operativo.Interrupts.Syscall.Memory.{LiesIn, user_ptr_ok_iff}
use sistema_operativo.Interrupts.Syscall.Wait.{sys_wait-diverges, sys_wait-kill_process}
use sistema_operativo.Interrupts.Syscall.Safety.{ReturnsInv, syscall_handler-ReturnsInv}

abbrev no_servers : Servers
no_servers = record {
  table = [];
  volumes = [];
  audit_logs = [];
  current_role = viewer;
  session_authenticated = false;
}

abbrev no_keys : Keyboard
no_keys = record { buffer = replicate 128 0; head = 0; tail = 0; pending = false }

abbrev pub with_procs : Procs → Machine
with_procs s = record { procs = s; servers = no_servers; keyboard = no_keys; memory = λ a. 0 }

abbrev started : Machine
started = with_procs (init_process_table boot)

abbrev pub some_regs : Regs
some_regs = record { edi = 1; esi = 2; ebp = 3; esp = 4; ebx = 5; edx = 6; ecx = 7; eax = 8 }

-- Process 1 runs and process 2, in the state `st`, is its child.
abbrev pub family : Process → Procs
family child = record {
  process_table =
      record zero_process { state = ready }
      ∷ record zero_process {
        pid = pos 1;
        state = running;
        mode = user_mode;
        memory_start = 0x10000;
        memory_size = 0x1000;
      }
      ∷ child
      ∷ replicate 7 zero_process;
  current_pid = 1;
  next_pid = 3;
  timer_ticks = 0;
  last_rr_pid = 0;
}

abbrev pub living : Process
living = record zero_process { pid = pos 2; state = ready; parent_pid = pos 1 }

abbrev ended : Process
ended = record zero_process { pid = pos 2; state = zombie; parent_pid = pos 1; exit_code = pos 0 }

user_ptr_ok_iff_example :
    (user_ptr_ok 0x10ff0 16 (family living) ≡ true) ↔ LiesIn 0x10ff0 16 (current (family living))
user_ptr_ok_iff_example =
    user_ptr_ok_iff 0x10ff0 16 (family living) (omega arith) (omega arith) (omega arith)

sys_wait-diverges_example : sys_wait 1000 2 (with_procs (family living)) ≡ none
sys_wait-diverges_example = sys_wait-diverges 1000 2 (with_procs (family living)) refl refl

-- The kernel with one process, its child.
abbrev parent : Procs
parent = (create_process 0x9000 (str "p") 4096 (init_process_table boot)).1

parent-Inv : Inv parent
parent-Inv = create_process-Inv 0x9000 (str "p") 4096 (init_process_table boot) boot-Inv

child_alive : (slot parent 1).state ≢ empty
child_alive = unfold create_process init_process_table in (λ e. cc)

sys_wait-kill_process_example :
    (t : Procs) × (sys_wait 1 1 (with_procs (kill_process (pos 1) parent).0)
      ≡ some (0, with_procs t, []))
    × ((i : ℕ)
        → slot t i ≡ (
            if i == 1
            then record (slot parent 1) { exit_code = pos 0; state = empty }
            else slot parent i))
    × Inv t
sys_wait-kill_process_example =
    sys_wait-kill_process 0 1 (with_procs parent) parent-Inv (omega arith) (omega arith) child_alive
      (unfold create_process init_process_table in refl)

kernel_alive : (current started.procs).state ≢ empty
kernel_alive = unfold init_process_table in (λ e. cc)

syscall_handler-ReturnsInv_example : ReturnsInv (syscall_handler 0x9000 5 [] 9 0 0 started)
syscall_handler-ReturnsInv_example =
    syscall_handler-ReturnsInv 0x9000 5 [] 9 0 0 started boot-Inv kernel_alive (omega arith)
      (omega arith)

timer_irq_saves_example : (slot (timer_irq_dispatch some_regs started).1.procs 0).context ≡ (
    if 0 == started.procs.current_pid
    then record {
      edi = 1;
      esi = 2;
      ebp = 3;
      esp = 4;
      ebx = 5;
      edx = 6;
      ecx = 7;
      eax = 8;
      eip = (slot started.procs 0).context.eip;
      cs = (slot started.procs 0).context.cs;
      ss = (slot started.procs 0).context.ss;
      eflags = (slot started.procs 0).context.eflags;
      valid = true;
    }
    else (slot started.procs 0).context)
timer_irq_saves_example = timer_irq_saves some_regs started 0 boot-Inv kernel_alive

-- The tenth tick comes while process 1 runs and process 2 waits with a saved context.
abbrev other_regs : Regs
other_regs = record {
  edi = 11;
  esi = 12;
  ebp = 13;
  esp = 14;
  ebx = 15;
  edx = 16;
  ecx = 17;
  eax = 18;
}

abbrev switching : Machine
switching =
    with_procs
      (record (family (record living { context = saved_context other_regs zero_process.context })) {
        timer_ticks = 9;
        last_rr_pid = 1;
      })

switching_lem : (timer_irq_dispatch some_regs switching).1.procs.current_pid ≡ 2
unfolding timer_irq_dispatch process_tick tick_processes get_best_process best_priority next_in_turn
    save_context_from_regs
switching_lem = refl

irq0_stub_lem : (irq0_stub some_regs switching).1.procs.current_pid ≡ 2
unfolding irq0_stub
irq0_stub_lem = switching_lem

timer_irq_loads_example : (irq0_stub some_regs switching).0 ≡ (
    if 2 == 1
    then some_regs
    else record { edi = 11; esi = 12; ebp = 13; esp = 4; ebx = 15; edx = 16; ecx = 17; eax = 18 })
timer_irq_loads_example =
    rw irq0_stub_lem at
      (timer_irq_loads some_regs switching (omega (arith, irq0_stub_lem)) (rw irq0_stub_lem))

-- The keys a and b wait, or none.
abbrev keyed : Machine
keyed = record (with_procs (family living)) {
  keyboard = record { buffer = b'a' ∷ b'b' ∷ replicate 126 0; head = 2; tail = 0; pending = true };
}

keyed-IsValid : IsValid keyed.keyboard
keyed-IsValid = record { size = refl; head_in = omega arith; tail_in = omega arith }

idle-IsValid : IsValid no_keys
idle-IsValid = record { size = refl; head_in = omega arith; tail_in = omega arith }

buffer_ok : user_ptr_ok 0x10ff0 16 (family living) ≡ true
unfolding user_ptr_ok
buffer_ok = refl

sys_read-waiting_example :
    (k : Keyboard) × (sys_read (30 ∷ []) 0x10ff0 16 keyed
      ≡ some (
        1,
        record keyed { keyboard = k; memory = store keyed.memory 0x10ff0 b'a' },
        glyph b'a' 0x0F ∷ [],
      ))
    × IsValid k
    × (contents k ≡ b'b' ∷ [])
sys_read-waiting_example =
    sys_read-waiting (30 ∷ []) 0x10ff0 16 keyed b'a' (b'b' ∷ []) buffer_ok keyed-IsValid refl

int80_stub-halts_example :
    int80_stub
      (setup_idt (λ st. 0x2000) 0x8000).gates
      0x9000
      5
      (30 ∷ 31 ∷ [])
      (record some_regs { eax = 8; ebx = 0x10ff0; ecx = 16 })
      (with_procs (family living))
    ≡ none
int80_stub-halts_example =
    int80_stub-halts (λ st. 0x2000) 0x8000 0x9000 5 (30 ∷ 31 ∷ [])
      (record some_regs { eax = 8; ebx = 0x10ff0; ecx = 16 }) (with_procs (family living)) refl refl
      buffer_ok idle-IsValid refl
