-- ===== src/Checks/Commands.antt =====
-- mi_so_completo/src/shell.c and mi_so_completo/src/kernel.c on concrete lines.
use sistema_operativo.Prelude.{pos, ◌≢◌, ◌++◌}
use sistema_operativo.Utils.{int_to_str}
use sistema_operativo.Console.{text}
use sistema_operativo.Process.Types.{slot, put_slot, running, empty}
use sistema_operativo.Shell.Execute.{with_procs}
use sistema_operativo.Shell.Arguments.{command_priority_lem}
use sistema_operativo.Prelude.{
  ◌≡◌, refl, Bool, not, Option, true, false, none, some, [], ◌∷◌, arith, replicate, or_else,
}
use sistema_operativo.Utils.{str, streq, starts_with}
use sistema_operativo.Keyboard.{Keyboard}
use sistema_operativo.Keyboard.Ring.{IsValid, contents}
use sistema_operativo.Process.Table.{init_process_table}
use sistema_operativo.Servers.Types.{admin}
use sistema_operativo.Interrupts.Types.{Machine}
use sistema_operativo.Interrupts.Histories.{boot, boot-Inv}
use sistema_operativo.Shell.Execute.{Setting, Reaction, execute_command, process_command}
use sistema_operativo.Shell.Safety.{ReactsInv, execute_command-ReactsInv}
use sistema_operativo.Shell.Access.{ReactsLocked, execute_command-ReactsLocked}
use sistema_operativo.Shell.Processes.{command_exec, command_fork}
use sistema_operativo.Shell.Args.{first_number, skip_word}
use sistema_operativo.Process.Table.{create_process, memory_base}
use sistema_operativo.Process.Tick.{demote}
use sistema_operativo.Interrupts.Context.{run_user_process}
use sistema_operativo.Utils.{parse_number, skip_spaces, copied}
use sistema_operativo.Kernel.{round}
use sistema_operativo.Kernel.Rounds.{prompted, round-typed}
use sistema_operativo.Kernel.Inputs.{carry_out, respond, Running, carry_out_all, line}
use sistema_operativo.Checks.Sessions.{by_role}
use sistema_operativo.Checks.Arrays.{loader_servers}
use sistema_operativo.Checks.Lines.{ab, typed_line, typed_line-IsValid}

-- After the set-up of the processes, with one server and no session.
abbrev setting : Setting
setting = record {
  entry = 0x9000;
  fuel = 10;
  stack = replicate 80 0;
  codes = [];
  machine = record {
    procs = init_process_table boot;
    servers = by_role false admin;
    keyboard = typed_line;
    memory = λ a. 0;
  };
}

not_yield : streq (str "priority 0 3") (str "yield") ≡ false
unfolding str streq
not_yield = refl

not_read : streq (str "priority 0 3") (str "read") ≡ false
unfolding str streq
not_read = refl

execute_command-ReactsInv_example : ReactsInv (execute_command (str "priority 0 3") setting)
execute_command-ReactsInv_example =
    execute_command-ReactsInv (str "priority 0 3") setting boot-Inv
      (λ (e : streq (str "priority 0 3") (str "yield") ≡ true). absurd (cc (e, not_yield))) not_read

not_login : starts_with (str "server fs rm w d p") (str "login ") ≡ false
unfolding str starts_with
not_login = refl

execute_command-ReactsLocked_example :
    ReactsLocked setting.machine.servers (execute_command (str "server fs rm w d p") setting)
execute_command-ReactsLocked_example =
    execute_command-ReactsLocked (str "server fs rm w d p") setting refl not_login

round-typed_example :
    (k : Keyboard) × (round 5 setting
      ≡ or_else
          (execute_command ab
            (record setting { machine = record (setting.machine) { keyboard = k } }))
          none
          (λ (x : Reaction). some (record x { out = prompted ab x.out })))
    × IsValid k
    × (contents k ≡ b'c' ∷ [])
round-typed_example =
    round-typed ab (b'c' ∷ []) 5 setting (omega arith, omega arith, (omega arith, omega arith, tt))
      (omega arith) typed_line-IsValid refl (omega arith)

abbrev loader : Machine
loader = record (setting.machine) { procs = boot; servers = loader_servers }

-- A process that is created and then run: the shell is left.
abbrev user_run : Option Running
user_run =
    carry_out_all setting (line (str "exec p") ∷ line (str "runu 1") ∷ line (str "fork") ∷ [])
      (record { machine = setting.machine; at_shell = true })

abbrev left_shell : Option Running → Bool
left_shell none = false
left_shell (some x) = not x.at_shell

user_run_lem : left_shell user_run ≡ true
unfolding carry_out_all carry_out respond execute_command process_command command_exec
    create_process run_user_process demote memory_base init_process_table str streq starts_with
    first_number parse_number skip_spaces skip_word copied command_fork
user_run_lem = refl

kernel_used : (slot (init_process_table boot) 0).state ≢ empty
unfolding init_process_table
kernel_used = λ (e : running ≡ empty). absurd (cc (e))

command_priority_lem_example :
    execute_command (str "priority " ++ (int_to_str (pos 0) ++ (b' ' ∷ int_to_str (pos 7)))) setting
    ≡ with_procs setting (
      put_slot
          (init_process_table boot)
          0
          (record (slot (init_process_table boot) 0) { priority = 7 }),
      text (str "Prioridad actualizada\n") 0x0A ∷ [],
    )
command_priority_lem_example =
    command_priority_lem 0 7 setting (omega arith) kernel_used (omega arith)
