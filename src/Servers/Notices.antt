-- ===== src/Servers/Notices.antt =====
-- The fixed texts of mi_so_completo/src/servers.c.
use sistema_operativo.Prelude.{List, [], ◌∷◌}
use sistema_operativo.Utils.{str}
use sistema_operativo.Console.{Output, text}

unfoldable pub command_apache_vhosts : List Output
command_apache_vhosts =
    text (str "VIRTUAL HOSTS SIMULADOS:\n") 0x0B
    ∷ text (str " - localhost -> /www\n") 0x0F
    ∷ text (str " - example.com -> /www/example\n") 0x0F
    ∷ []

unfoldable pub command_principales : List Output
command_principales =
    text (str "Sistema: help cmd clear about uptime memory whoami login logout\n") 0x0F
    ∷ text (str "Procesos: ps top exec runu kill sleep priority\n") 0x0F
    ∷ text (str "Servidores: list status start stop restart backup restore audit\n") 0x0F
    ∷ text (str "FS: dirs mkdir touch ls write cat rm rmdir chmod\n") 0x0F
    ∷ []
