-- ===== src/Shell/Listings.antt =====
-- The listings of execute_command in mi_so_completo/src/shell.c that read the process table.
use sistema_operativo.Prelude.{
  ℕ, ◌+◌, ◌-◌, ◌/◌, ◌%◌, Bool, true, false, List, [], ◌∷◌, ◌++◌, replicate, ltb, if◌then◌else◌, not,
  ℤ, pos, negsuc, uint_mod,
}
use sistema_operativo.Utils.{CStr, str, utf8, int_to_str, strlen}
use sistema_operativo.Console.{Output, text}
use sistema_operativo.Process.Types.{
  Process, Procs, ProcState, empty, running, ready, blocked, sleeping, zombie, max_processes, slot,
  is_empty, is_running, is_ready, is_sleeping, is_zombie,
}
use sistema_operativo.Process.Table.{index, no_such_process}

-- if (test) print_string(" ", 0x0F);
abbrev pub space_if : Bool → List Output
space_if true = text (str " ") 0x0F ∷ []
space_if false = []

-- for (j = from; j < to; j++) print_string(" ", 0x0F);
abbrev pub pad : ℕ → ℕ → List Output
pad from to = replicate (to - from) (text (str " ") 0x0F)

-- value < 10
abbrev pub below_ten : ℤ → Bool
below_ten (pos n) = ltb n 10
below_ten (negsuc n) = true

abbrev pub state_name : ProcState → Output
state_name running = text (str "RUN    ") 0x0A
state_name ready = text (str "READY  ") 0x0B
state_name sleeping = text (str "SLEEP  ") 0x0E
state_name zombie = text (str "ZOMBIE ") 0x0C
state_name blocked = text (str "?      ") 0x0F
state_name empty = text (str "?      ") 0x0F

unfoldable pub ps_row : Process → List Output
ps_row p =
    text (str "  ") 0x0F ∷ []
    ++ space_if (below_ten p.pid)
    ++ text (int_to_str p.pid) 0x0F ∷ text (str " ") 0x0F ∷ text p.name 0x0F ∷ []
    ++ pad (strlen p.name) 16
    ++ text (str " ") 0x0F ∷ state_name p.state ∷ []
    ++ space_if (ltb p.priority 10)
    ++ text (int_to_str (pos p.priority)) 0x0F ∷ text (str "    ") 0x0F ∷ []
    ++ space_if (below_ten p.parent_pid)
    ++ text (int_to_str p.parent_pid) 0x0F ∷ text (str "     ") 0x0F ∷ []
    ++ text (int_to_str (pos (p.memory_size / 1024))) 0x0F ∷ text (str "K\n") 0x0F ∷ []

unfoldable pub top_row : Process → List Output
top_row p =
    let kb = p.memory_size / 1024 in
    space_if (below_ten p.pid)
    ++ text (int_to_str p.pid) 0x0F ∷ text (str "  ") 0x0F ∷ text p.name 0x0F ∷ []
    ++ pad (strlen p.name) 14
    ++ state_name p.state ∷ []
    ++ space_if (ltb p.priority 10)
    ++ text (int_to_str (pos p.priority)) 0x0F ∷ text (str "  ") 0x0F ∷ []
    ++ space_if (ltb kb 100)
    ++ space_if (ltb kb 10)
    ++ text (int_to_str (pos kb)) 0x0F ∷ text (str "  ") 0x0F ∷ []
    ++ space_if (ltb p.cpu_time 10)
    ++ text (int_to_str (pos p.cpu_time)) 0x0F ∷ text (str "  ") 0x0F ∷ []
    ++ space_if (below_ten p.parent_pid)
    ++ text (int_to_str p.parent_pid) 0x0F ∷ text (str "\n") 0x0F ∷ []

-- The rows of the slots in use.
pub rows : (Process → List Output) → List Process → List Output
rows row [] = []
rows row (p ∷ ps) = let rest = rows row ps in if is_empty p.state then rest else row p ++ rest

unfoldable pub command_ps : Procs → List Output
unfolding rows ps_row
command_ps s =
    text (str "\n") 0x0F
    ∷ text (str "  PID NOMBRE           ESTADO  PRIO   PADRE  MEM\n") 0x0E
    ∷ text (str "  --- -----------      ------- ----   -----  ----\n") 0x0E
    ∷ (rows ps_row s.process_table ++ (text (str "\n") 0x0F ∷ []))

unfoldable pub command_top : Procs → List Output
unfolding rows top_row
command_top s =
    text (str "\n") 0x0F
    ∷ text (str "===== MONITOR DE PROCESOS (TOP) ====\n") 0x0E
    ∷ text (str "PID  NAME          STATE   PRIO MEM(K) CPU  PPID\n") 0x0E
    ∷ text (str "--- -------------- ------- ---- ------ ---- ----\n") 0x0E
    ∷ (rows top_row s.process_table
        ++ (text (str "=====================================\n") 0x0E ∷ text (str "\n") 0x0F ∷ []))

-- The sum of the sizes of the slots in use, in 32 bits.
unfoldable pub used_memory : ℕ → List Process → ℕ
used_memory used [] = used
used_memory used (p ∷ ps) =
    used_memory (if is_empty p.state then used else (used + p.memory_size) % uint_mod) ps

unfoldable pub command_memory : Procs → List Output
command_memory s =
    text (str "Usado: ") 0x0B
    ∷ text (int_to_str (pos (used_memory 0 s.process_table / 1024))) 0x0B
    ∷ text (str " KB\n") 0x0B
    ∷ []

unfoldable pub command_uptime : Procs → List Output
command_uptime s =
    text (str "Uptime: ") 0x0E
    ∷ text (int_to_str (pos (s.timer_ticks / 100))) 0x0E
    ∷ text (str " s\n") 0x0E
    ∷ []

unfoldable pub command_getppid : ℤ → Procs → List Output
command_getppid pid s =
    if no_such_process pid s
    then text (str "Error: proceso no existe\n") 0x0C ∷ []
    else text (str "PID ") 0x0F
      ∷ text (int_to_str pid) 0x0F
      ∷ text (str " -> Padre: ") 0x0F
      ∷ text (int_to_str (slot s (index pid)).parent_pid) 0x0F
      ∷ text (str "\n") 0x0F
      ∷ []

-- How many slots pass a test.
unfoldable pub count_state : (ProcState → Bool) → ℕ → List Process → ℕ
count_state test count [] = count
count_state test count (p ∷ ps) = count_state test (if test p.state then count + 1 else count) ps

-- One of the four lines that count the processes of a state.
abbrev pub count_row : CStr → (ProcState → Bool) → Procs → List Output
count_row title test s =
    let buf = int_to_str (pos (count_state test 0 s.process_table)) in
    text title 0x0F ∷ text buf 0x0F ∷ (pad (11 + strlen buf) 38 ++ (text (utf8 "║\n") 0x0F ∷ []))

unfoldable pub uptime_row : Procs → List Output
uptime_row s =
    let buf = int_to_str (pos (s.timer_ticks / 100)) in
    text (utf8 "║ Uptime (segundos): ") 0x0F
    ∷ text buf 0x0F
    ∷ text (str " s") 0x0F
    ∷ (pad (3 + strlen buf) 38 ++ (text (utf8 "║\n") 0x0F ∷ []))

-- `buf` holds the number of slots when the line is padded.
unfoldable pub active_row : Procs → List Output
active_row s =
    let buf = int_to_str (pos max_processes) in
    text (utf8 "║ Procesos activos: ") 0x0F
    ∷ text (int_to_str (pos (count_state (λ st. not (is_empty st)) 0 s.process_table))) 0x0F
    ∷ text (str " / ") 0x0F
    ∷ text buf 0x0F
    ∷ (pad (18 + strlen buf + strlen buf + 3) 38 ++ (text (utf8 "║\n") 0x0F ∷ []))

unfoldable pub command_stats : Procs → List Output
unfolding uptime_row active_row
command_stats s =
    text (str "\n") 0x0F
      ∷ text (utf8 "╔════════════════════════════════════════╗\n") 0x0D
      ∷ text (utf8 "║   ESTADISTICAS DEL SISTEMA OPERATIVO   ║\n") 0x0D
      ∷ text (utf8 "╠════════════════════════════════════════╣\n") 0x0D
      ∷ []
    ++ uptime_row s
    ++ active_row s
    ++ text (utf8 "╠════════════════════════════════════════╣\n") 0x0D
      ∷ text (utf8 "║ Estado de Procesos:                    ║\n") 0x0D
      ∷ []
    ++ count_row (utf8 "║   RUNNING: ") is_running s
    ++ count_row (utf8 "║   READY:   ") is_ready s
    ++ count_row (utf8 "║   SLEEP:   ") is_sleeping s
    ++ count_row (utf8 "║   ZOMBIE:  ") is_zombie s
    ++ text (utf8 "╚════════════════════════════════════════╝\n") 0x0D ∷ text (str "\n") 0x0F ∷ []
