-- ===== src/Interrupts/Types.antt =====
-- The state that the handlers of mi_so_completo/src/interrupts.c share.
use sistema_operativo.Prelude.{ℕ, ◌+◌, List}
use sistema_operativo.Console.{Output}
use sistema_operativo.Process.Types.{Procs}
use sistema_operativo.Process.Tick.{tick_processes}
use sistema_operativo.Servers.Types.{Servers}
use sistema_operativo.Servers.Tick.{server_tick}
use sistema_operativo.Keyboard.{Keyboard}

-- The general registers in the order in which `pusha` leaves them on the stack.
pub record Regs : Type 0 where
  pub edi : ℕ
  pub esi : ℕ
  pub ebp : ℕ
  pub esp : ℕ
  pub ebx : ℕ
  pub edx : ℕ
  pub ecx : ℕ
  pub eax : ℕ

-- The globals of the kernel, and the bytes of the memory by address.
pub record Machine : Type 0 where
  pub procs : Procs
  pub servers : Servers
  pub keyboard : Keyboard
  pub memory : ℕ → ℕ

-- process_tick: count the tick, call server_tick, and go on with the process table.
unfoldable pub process_tick : Machine → Machine × List Output
process_tick m =
    let ticks = m.procs.timer_ticks + 1 in
    let (servers, out) = server_tick ticks m.servers in
    (
      record m {
        procs = tick_processes (record (m.procs) { timer_ticks = ticks });
        servers = servers;
      },
      out,
    )
