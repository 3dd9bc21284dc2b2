-- ===== src/Shell/Help.antt =====
-- The fixed texts of execute_command in mi_so_completo/src/shell.c.
use sistema_operativo.Prelude.{List, [], ◌∷◌}
use sistema_operativo.Utils.{str, utf8}
use sistema_operativo.Console.{Output, text}

unfoldable pub command_help : List Output
command_help =
    text (str "\n") 0x0F
    ∷ text (utf8 "═══════════════════════════════════════════════════════════\n") 0x0E
    ∷ text (str "       MANUAL DEL SISTEMA OPERATIVO v3.3 MODULAR\n") 0x0E
    ∷ text (utf8 "═══════════════════════════════════════════════════════════\n") 0x0E
    ∷ text (str "\n[SYSCALLS NUEVAS]\n") 0x0A
    ∷ text (str "  getppid PID  - Ver PID del proceso padre\n") 0x0F
    ∷ text (str "  fork         - Crear nuevo proceso hijo\n") 0x0F
    ∷ text (str "  wait PID     - Esperar a que proceso termine\n") 0x0F
    ∷ text (str "  yield        - Ceder CPU voluntariamente\n") 0x0F
    ∷ text (str "  read         - Leer entrada del teclado\n") 0x0F
    ∷ text (utf8 "  stats        - Ver estadísticas del SO\n") 0x0F
    ∷ text (str "\n[MONITOREO]\n") 0x0A
    ∷ text (str "  ps           - Listar procesos activos\n") 0x0F
    ∷ text (str "  top          - Monitor detallado de procesos\n") 0x0F
    ∷ text (str "  memory       - Ver uso de memoria\n") 0x0F
    ∷ text (str "  uptime       - Ver tiempo de actividad\n") 0x0F
    ∷ text (str "\n[PROCESOS]\n") 0x0A
    ∷ text (str "  exec NAME    - Crear proceso usuario\n") 0x0F
    ∷ text (str "  runu PID     - Ejecutar proceso en Ring 3\n") 0x0F
    ∷ text (str "  kill PID     - Terminar proceso\n") 0x0F
    ∷ text (str "  sleep PID S  - Dormir proceso S segundos\n") 0x0F
    ∷ text (str "  priority P P - Cambiar prioridad (0-9)\n") 0x0F
    ∷ text (str "\n[SISTEMA]\n") 0x0A
    ∷ text (str "  clear        - Limpiar pantalla\n") 0x0F
    ∷ text (utf8 "  about        - Información del SO\n") 0x0F
    ∷ text (str "  help         - Este mensaje\n") 0x0F
    ∷ text (str "  help syscalls- Listar syscalls disponibles\n") 0x0F
    ∷ text (str "\n[HERRAMIENTAS]\n") 0x0A
    ∷ text (utf8 "  add X Y      - Sumar dos números\n") 0x0F
    ∷ text (str "  echo TEXTO   - Imprimir texto\n") 0x0F
    ∷ text (utf8 "\n═══════════════════════════════════════════════════════════\n") 0x0E
    ∷ text (str "\n") 0x0F
    ∷ []

unfoldable pub command_help_syscalls : List Output
command_help_syscalls =
    text (str "Syscalls disponibles:\n") 0x0A
    ∷ text (str "  1  SYS_EXIT(code)        - Terminar proceso\n") 0x0A
    ∷ text (str "  2  SYS_GETPID()          - Obtener PID actual\n") 0x0A
    ∷ text (utf8 "  3  SYS_GETMEM()          - Obtener tamaño memoria\n") 0x0A
    ∷ text (str "  4  SYS_SLEEP(seconds)    - Dormir proceso\n") 0x0A
    ∷ text (str "  5  SYS_SETPRIO(pid, p)   - Cambiar prioridad\n") 0x0A
    ∷ text (str "  6  SYS_GETPRIO(pid)      - Obtener prioridad\n") 0x0A
    ∷ text (str "  7  SYS_WRITE(buf, len)   - Escribir a pantalla\n") 0x0A
    ∷ text (str "  8  SYS_READ(buf, len)    - Leer teclado\n") 0x0A
    ∷ text (str "  9  SYS_FORK()            - Crear proceso hijo\n") 0x0A
    ∷ text (str "  10 SYS_WAIT(pid)         - Esperar proceso\n") 0x0A
    ∷ text (str "  11 SYS_YIELD()           - Ceder CPU\n") 0x0A
    ∷ text (str "  12 SYS_GETPPID()         - Obtener PID padre\n") 0x0A
    ∷ []

unfoldable pub command_about : List Output
command_about =
    text (str "Mi SO v3.3 modular\n") 0x0D
    ∷ text (str "Con syscalls avanzadas: fork, wait, yield, read, getppid\n") 0x0D
    ∷ []
