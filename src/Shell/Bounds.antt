-- ===== src/Shell/Bounds.antt =====
-- The lines of the shell and the bounds of servers.c.
use sistema_operativo.Utils.{CStr}
use sistema_operativo.Servers.Bounds.{
  ServersFit, command, login, logout, requests, operate, operate-Fits,
}
use sistema_operativo.Shell.Execute.{Setting, execute_command}
use sistema_operativo.Shell.Effects.{Holds, execute_command-Holds}

pub execute_command-ServersFit :
    (line : CStr) (e : Setting)
    → ServersFit e.machine.servers
    → Holds ServersFit (execute_command line e)
execute_command-ServersFit line e h =
    let s = e.machine.servers in
    execute_command-Holds ServersFit e h (λ c. unfold operate in operate-Fits (command c) s h)
      (λ n. unfold operate in operate-Fits (requests n) s h)
      (unfold operate in operate-Fits logout s h) line
      (λ _ role pass. unfold operate in operate-Fits (login role pass) s h)
