-- ===== src/Process/Types.antt =====
-- mi_so_completo/include/common.h and the globals of mi_so_completo/src/process.c.
-- `current_pid`, `next_pid` and `last_rr_pid` are indices of the table; `timer_ticks` and `cpu_time`
-- only grow, from 0, and the model holds while they are below 2 ^ 31 (248 days of ticks).
-- A priority is set to a number from 0 to 9 and lowered only above 0, so that it is a number, and
-- `wait_ticks` goes from 0 to 50.
use sistema_operativo.Prelude.{ℕ, Bool, true, false, List, [], get_or, set, ℤ, pos}
use sistema_operativo.Utils.{CStr}

abbrev pub max_processes : ℕ
max_processes = 10

-- KERNEL_MODE, USER_MODE
pub data Mode : Type 0 where
  kernel_mode user_mode : Mode

-- PROC_EMPTY … PROC_ZOMBIE
pub data ProcState : Type 0 where
  empty running ready blocked sleeping zombie : ProcState

pub record UserContext : Type 0 where
  pub eax : ℕ
  pub ebx : ℕ
  pub ecx : ℕ
  pub edx : ℕ
  pub esi : ℕ
  pub edi : ℕ
  pub ebp : ℕ
  pub eip : ℕ
  pub esp : ℕ
  pub cs : ℕ
  pub ss : ℕ
  pub eflags : ℕ
  pub valid : Bool

pub record Process : Type 0 where
  pub pid : ℤ
  pub name : CStr
  pub state : ProcState
  pub priority : ℕ
  pub memory_start : ℕ
  pub memory_size : ℕ
  pub mode : Mode
  pub context : UserContext
  pub sleep_ticks : ℤ
  pub cpu_time : ℕ
  pub wait_ticks : ℕ
  pub parent_pid : ℤ
  pub exit_code : ℤ

-- The globals of process.c.
pub record Procs : Type 0 where
  pub process_table : List Process
  pub current_pid : ℕ
  pub next_pid : ℕ
  pub timer_ticks : ℕ
  pub last_rr_pid : ℕ

abbrev pub zero_context : UserContext
zero_context = record {
  eax = 0;
  ebx = 0;
  ecx = 0;
  edx = 0;
  esi = 0;
  edi = 0;
  ebp = 0;
  eip = 0;
  esp = 0;
  cs = 0;
  ss = 0;
  eflags = 0;
  valid = false;
}

-- A slot of the table as the loader leaves it: zero bytes.
abbrev pub zero_process : Process
zero_process = record {
  pid = pos 0;
  name = [];
  state = empty;
  priority = 0;
  memory_start = 0;
  memory_size = 0;
  mode = kernel_mode;
  context = zero_context;
  sleep_ticks = pos 0;
  cpu_time = 0;
  wait_ticks = 0;
  parent_pid = pos 0;
  exit_code = pos 0;
}

-- process_table[i]
abbrev pub slot : Procs → ℕ → Process
slot s i = get_or s.process_table i zero_process

abbrev pub put_slot : Procs → ℕ → Process → Procs
put_slot s i p = record s { process_table = set s.process_table i p }

abbrev pub is_empty : ProcState → Bool
is_empty empty = true
is_empty _ = false

abbrev pub is_running : ProcState → Bool
is_running running = true
is_running _ = false

abbrev pub is_ready : ProcState → Bool
is_ready ready = true
is_ready _ = false

abbrev pub is_sleeping : ProcState → Bool
is_sleeping sleeping = true
is_sleeping _ = false

abbrev pub is_zombie : ProcState → Bool
is_zombie zombie = true
is_zombie _ = false
