-- ===== src/Process/Table.antt =====
-- mi_so_completo/src/process.c: creating, killing and suspending processes.
use sistema_operativo.Prelude.{
  ℕ, zero, suc, ◌+◌, ◌-◌, ◌*◌, ◌%◌, Bool, true, false, ◌||◌, List, [], ◌∷◌, map, get_or, set, leb,
  ◌==◌, if◌then◌else◌, ℤ, pos, negsuc, to_int, uint_mod,
}
use sistema_operativo.Utils.{CStr, str, copied}
use sistema_operativo.Console.{Output, text}
use sistema_operativo.Process.Types.{
  max_processes, UserContext, Process, Procs, zero_process, slot, put_slot, is_empty, kernel_mode,
  user_mode, empty, running, ready, sleeping, zombie,
}

-- The first loop of init_process_table.
abbrev pub clear_slot : Process → Process
clear_slot p = record p {
  pid = negsuc 0;
  state = empty;
  wait_ticks = 0;
  parent_pid = negsuc 0;
  exit_code = pos 0;
}

abbrev pub kernel_process : Process → Process
kernel_process p = record p {
  pid = pos 0;
  state = running;
  priority = 1;
  memory_start = 0x1000;
  memory_size = 0x7000;
  mode = kernel_mode;
  sleep_ticks = pos 0;
  cpu_time = 0;
  wait_ticks = 0;
  parent_pid = negsuc 0;
  exit_code = pos 0;
  context = record (p.context) { valid = true; cs = 0x08; ss = 0x10; eflags = 0x202 };
  name = copied (str "kernel") 32;
}

unfoldable pub init_process_table : Procs → Procs
init_process_table s =
    let cleared = map clear_slot s.process_table in
    record s { process_table = set cleared 0 (kernel_process (get_or cleared 0 zero_process)) }

-- for (i = 1; i < pid; i++) base += memory_size, over the slots from 1 on
unfoldable pub sum_sizes : ℕ → ℕ → List Process → ℕ
sum_sizes zero base ps = base
sum_sizes (suc n) base [] = base
sum_sizes (suc n) base (p ∷ ps) = sum_sizes n ((base + p.memory_size) % uint_mod) ps

unfoldable pub tail : List Process → List Process
tail [] = []
tail (p ∷ ps) = ps

unfoldable pub memory_base : Procs → ℕ → ℕ
unfolding sum_sizes tail
memory_base s pid = sum_sizes (pid - 1) 0x10000 (tail s.process_table)

-- The context of a new process; `entry` is the address of user_program, which the linker chooses.
abbrev pub fresh_context : ℕ → ℕ → ℕ → UserContext
fresh_context entry base mem_size = record {
  eax = 0;
  ebx = 0;
  ecx = 0;
  edx = 0;
  esi = 0;
  edi = 0;
  ebp = 0;
  eip = entry;
  esp = (base + mem_size + uint_mod - 4) % uint_mod;
  cs = 0x1B;
  ss = 0x23;
  eflags = 0x202;
  valid = true;
}

abbrev pub fresh_process : ℕ → Procs → CStr → ℕ → Process → Process
fresh_process entry s name mem_size p =
    let base = memory_base s s.next_pid in
    record p {
      pid = pos s.next_pid;
      state = ready;
      priority = 5;
      memory_size = mem_size;
      mode = user_mode;
      sleep_ticks = pos 0;
      cpu_time = 0;
      wait_ticks = 0;
      parent_pid = pos s.current_pid;
      exit_code = pos 0;
      memory_start = base;
      context = fresh_context entry base mem_size;
      name = copied name 32;
    }

-- The result is the new pid, or -1.
unfoldable pub create_process : ℕ → CStr → ℕ → Procs → ℤ × Procs × List Output
create_process entry name mem_size s =
    if leb max_processes s.next_pid
    then (negsuc 0, s, text (str "Error: tabla de procesos llena\n") 0x0C ∷ [])
    else (
      pos s.next_pid,
      record s {
        process_table =
            set s.process_table s.next_pid
              (fresh_process entry s name mem_size (slot s s.next_pid));
        next_pid = s.next_pid + 1;
      },
      [],
    )

-- pid < 0 || pid >= MAX_PROCESSES || process_table[pid].state == PROC_EMPTY
abbrev pub no_such_process : ℤ → Procs → Bool
no_such_process (pos pid) s = leb max_processes pid || is_empty (slot s pid).state
no_such_process (negsuc n) s = true

-- The index of a pid that passed that test.
abbrev pub index : ℤ → ℕ
index (pos n) = n
index (negsuc n) = 0

unfoldable pub kill_process : ℤ → Procs → Procs × List Output
kill_process pid s =
    if no_such_process pid s
    then (s, text (str "Error: proceso no existe\n") 0x0C ∷ [])
    else if index pid == 0
    then (s, text (str "Error: no se puede matar el kernel\n") 0x0C ∷ [])
    else (
      put_slot s (index pid) (record (slot s (index pid)) { exit_code = pos 0; state = zombie }),
      [],
    )

-- seconds <= 0
abbrev pub not_positive : ℤ → Bool
not_positive (pos zero) = true
not_positive (pos (suc n)) = false
not_positive (negsuc n) = true

-- seconds * 100 in 32 bits, for seconds > 0
abbrev pub to_ticks : ℤ → ℤ
to_ticks seconds = to_int ((index seconds * 100) % uint_mod)

unfoldable pub sleep_process : ℤ → ℤ → Procs → Procs × List Output
sleep_process pid seconds s =
    if no_such_process pid s
    then (s, text (str "Error: proceso no existe\n") 0x0C ∷ [])
    else if index pid == 0
    then (s, text (str "Error: no se puede suspender el kernel\n") 0x0C ∷ [])
    else if not_positive seconds
    then (s, text (str "Error: segundos debe ser mayor a 0\n") 0x0C ∷ [])
    else (
      put_slot s (index pid)
          (record (slot s (index pid)) { state = sleeping; sleep_ticks = to_ticks seconds }),
      [],
    )
