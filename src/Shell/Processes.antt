-- ===== src/Shell/Processes.antt =====
-- The commands of execute_command in mi_so_completo/src/shell.c that change the process table.
use sistema_operativo.Prelude.{
  ℕ, ◌+◌, ◌%◌, Bool, false, ◌&&◌, not, List, [], ◌∷◌, ◌++◌, ltb, leb, if◌then◌else◌, ℤ, pos, negsuc,
  to_int, to_uint, uint_mod, is_negative,
}
use sistema_operativo.Utils.{CStr, str, int_to_str}
use sistema_operativo.Console.{Output, text}
use sistema_operativo.Process.Types.{Procs, empty, ready, max_processes, slot, put_slot, is_zombie}
use sistema_operativo.Process.Table.{index, create_process, sleep_process, no_such_process}
use sistema_operativo.Shell.Args.{first_number, second_number}

-- The message of `exec` and `fork` on the new process.
abbrev pub created : CStr → ℤ → List Output
created message pid = text message 0x0A ∷ text (int_to_str pid) 0x0A ∷ text (str "\n") 0x0A ∷ []

-- `entry` is the address of user_program.
unfoldable pub command_exec : ℕ → CStr → Procs → Procs × List Output
command_exec entry name s =
    let (pid, s', out) = create_process entry name 4096 s in
    (s', out ++ (if is_negative pid then [] else created (str "Proceso creado PID ") pid))

unfoldable pub command_fork : ℕ → Procs → Procs × List Output
command_fork entry s =
    let (child, s', out) = create_process entry (str "hijo") 0x2000 s in
    (
      s',
      out
          ++ (if is_negative child
              then text (str "Error: no se pudo crear proceso\n") 0x0C ∷ []
              else created (str "Proceso hijo creado: PID ") child),
    )

unfoldable pub command_sleep : CStr → Procs → Procs × List Output
command_sleep args s = sleep_process (first_number args) (second_number args) s

-- prio >= 0 && prio <= 9
abbrev pub is_priority : ℤ → Bool
is_priority (pos n) = leb n 9
is_priority (negsuc n) = false

unfoldable pub command_priority : CStr → Procs → Procs × List Output
command_priority args s =
    let pid = first_number args in
    let prio = second_number args in
    if not (no_such_process pid s) && is_priority prio
    then (
      put_slot s (index pid) (record (slot s (index pid)) { priority = index prio }),
      text (str "Prioridad actualizada\n") 0x0A ∷ [],
    )
    else (s, text (str "Error: argumentos invalidos\n") 0x0C ∷ [])

-- pid > 0 && pid < MAX_PROCESSES
abbrev pub is_waitable : ℤ → Bool
is_waitable (pos n) = ltb 0 n && ltb n max_processes
is_waitable (negsuc n) = false

-- The loop reads the state up to 1000 times and changes only its counter; here a command is one
-- step, so that the state is the same each time.
unfoldable pub command_wait : ℤ → Procs → Procs × List Output
command_wait pid s =
    let begun =
      text (str "Esperando a proceso ") 0x0B
      ∷ text (int_to_str pid) 0x0B
      ∷ text (str "...\n") 0x0B
      ∷ [] in
    if is_waitable pid
    then if is_zombie (slot s (index pid)).state
      then (
        put_slot s (index pid) (record (slot s (index pid)) { state = empty }),
        begun ++ (text (str "Proceso terminado\n") 0x0A ∷ []),
      )
      else (s, begun ++ (text (str "Timeout esperando proceso\n") 0x0C ∷ []))
    else (s, text (str "Error: PID invalido\n") 0x0C ∷ [])

unfoldable pub command_yield : Procs → Procs × List Output
command_yield s = (
  put_slot s s.current_pid (record (slot s s.current_pid) { state = ready }),
  text (str "Cediendo CPU...\n") 0x0F ∷ [],
)

-- a + b in 32 bits
unfoldable pub command_add : CStr → List Output
command_add args =
    let sum = to_int ((to_uint (first_number args) + to_uint (second_number args)) % uint_mod) in
    text (int_to_str sum) 0x0E ∷ text (str "\n") 0x0E ∷ []
