-- ===== src/Interrupts/Syscall/Read.antt =====
-- SYS_READ of interrupts.c with a key waiting.
use sistema_operativo.Prelude.{ℕ, ◌≡◌, refl, true, some, List, [], ◌∷◌}
use sistema_operativo.Console.{glyph}
use sistema_operativo.Keyboard.{Keyboard}
use sistema_operativo.Keyboard.Ring.{IsValid, contents}
use sistema_operativo.Keyboard.Keys.{get_key-waiting}
use sistema_operativo.Interrupts.Types.{Machine}
use sistema_operativo.Interrupts.Syscall.{user_ptr_ok, sys_read, store}

-- With a buffer of the caller's memory and a key that waits, SYS_READ stores the oldest key in its
-- first byte, echoes it, returns 1 and leaves the other keys in order.
pub sys_read-waiting :
    (codes : List ℕ) (arg1 arg2 : ℕ) (m : Machine) (c : ℕ) (cs : List ℕ)
    → user_ptr_ok arg1 arg2 m.procs ≡ true
    → IsValid m.keyboard
    → contents m.keyboard ≡ c ∷ cs
    → (k : Keyboard) × (sys_read codes arg1 arg2 m
        ≡ some (1, record m { keyboard = k; memory = store m.memory arg1 c }, glyph c 0x0F ∷ []))
      × IsValid k
      × (contents k ≡ cs)
unfolding sys_read
sys_read-waiting codes arg1 arg2 m c cs ok v e =
    let (k, g, w, r) = get_key-waiting codes m.keyboard c cs v e in (k, rw (ok, g) refl, w, r)
