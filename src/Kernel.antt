-- ===== src/Kernel.antt =====
-- kernel_main of mi_so_completo/src/kernel.c: the set-up, and a round of its endless loop.
pub mod Rounds
pub mod Inputs
use sistema_operativo.Prelude.{ℕ, Option, none, some, List, [], ◌∷◌, ◌++◌, or_else}
use sistema_operativo.Utils.{CStr, str}
use sistema_operativo.Console.{Output, text, clear}
use sistema_operativo.Process.Table.{init_process_table}
use sistema_operativo.Servers.Lifecycle.{init_server_manager}
use sistema_operativo.Servers.Setup.{init_server_filesystem}
use sistema_operativo.Interrupts.Types.{Machine}
use sistema_operativo.Interrupts.Gates.{Stub, Idt, setup_idt}
use sistema_operativo.Shell.{shell_read_line}
use sistema_operativo.Shell.Execute.{Setting, Reaction, execute_command}

abbrev pub rule : CStr
rule = str "======================================\n"

abbrev pub banner : List Output
banner =
    clear
    ∷ text rule 0x0B
    ∷ text (str "   Mi SO v3.3 - Arquitectura Modular\n") 0x0A
    ∷ text (str "   Kernel + Shell + IRQ + Procesos\n") 0x0A
    ∷ text rule 0x0B
    ∷ text (str "   Modo: Protegido 32-bit + Ring 3\n") 0x0E
    ∷ text (str "   Plataforma: i386\n") 0x0E
    ∷ text (rule ++ str "\n") 0x0B
    ∷ []

abbrev pub loaded : List Output
loaded =
    text (str "Subsistemas cargados:\n") 0x0E
    ∷ text (str "  > VGA / Consola\n") 0x0E
    ∷ text (str "  > Scheduler + Context Switch\n") 0x0E
    ∷ text (str "  > IDT + PIC + IRQ0/IRQ1 + INT 0x80\n") 0x0E
    ∷ text (str "  > Shell modular\n") 0x0E
    ∷ text (str "  > Server manager simulado\n\n") 0x0E
    ∷ text (str "Escribe 'help' para ver comandos\n\n") 0x0F
    ∷ []

-- Up to the loop, from the globals that the loader leaves. `address` and `base` are those of setup_idt.
unfoldable pub set_up : (Stub → ℕ) → ℕ → Machine → Machine × Idt × List Output
set_up address base m =
    let (servers, out) = init_server_manager m.servers in
    (
      record m { procs = init_process_table m.procs; servers = init_server_filesystem servers },
      setup_idt address base,
      banner ++ out ++ loaded,
    )

-- One round of the loop. `fuel` bounds the keys of the line.
unfoldable pub round : ℕ → Setting → Option Reaction
round fuel e = or_else (shell_read_line fuel e.codes e.machine.keyboard) none λ r.
    let e' = record e { codes = r.2; machine = record (e.machine) { keyboard = r.1 } } in
    or_else (execute_command r.0 e') none
      λ x. some (record x { out = text (str "> ") 0x0E ∷ (r.3 ++ x.out) })
