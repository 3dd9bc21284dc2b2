-- ===== src/Interrupts/User.antt =====
-- user_program of mi_so_completo/src/interrupts.c, the code of every user process: what it puts on its
-- stack, its two system calls and what they print.
use sistema_operativo.Prelude.{
  ℕ, suc, ◌+◌, ◌-◌, ◌/◌, ◌%◌, ◌≤◌, ◌<◌, ◌≡◌, refl, true, Option, none, some, List, [], ◌∷◌, ◌++◌,
  or_else, pos, uint_mod, arith,
}
use sistema_operativo.Console.{Output, glyph}
use sistema_operativo.Process.Table.{kill_process}
use sistema_operativo.Interrupts.Types.{Regs, Machine}
use sistema_operativo.Interrupts.Context.{is_user}
use sistema_operativo.Interrupts.Syscall.{
  current, store, syscall_from_regs, syscall_handler, sys_write, sys_exit, write_chars, user_ptr_ok,
}

-- The stack pointer and the memory.
abbrev pub Stack : Type 0
Stack = ℕ × (ℕ → ℕ)

-- The four bytes of a word, the least first.
abbrev pub store_word : (ℕ → ℕ) → ℕ → ℕ → ℕ → ℕ
store_word memory p v =
    store
      (store (store (store memory p (v % 256)) (p + 1) (v / 256 % 256)) (p + 2) (v / 65536 % 256))
      (p + 3) (v / 16777216 % 256)

-- A push of 32-bit code takes four bytes.
unfoldable pub push : ℕ → Stack → Stack
push v (esp, memory) = let top = (esp + uint_mod - 4) % uint_mod in (top, store_word memory top v)

-- The eight pushes.
unfoldable pub push_message : Stack → Stack
push_message s =
    push b'M' (push b'i' (push b' ' (push b'S' (push b'O' (push b'!' (push b'\n' (push 0 s)))))))

-- From the entry to the endless loop. `r` has the registers at the entry; `entry`, `fuel` and `codes` are
-- those of syscall_handler.
unfoldable pub user_program : ℕ → ℕ → List ℕ → Regs → Machine → Option (Machine × List Output)
user_program entry fuel codes r m =
    let (top, memory) = push_message (r.esp, m.memory) in
    let writes = record r { esp = top; ebx = top; ecx = 8; eax = 7 } in
    or_else (syscall_from_regs entry fuel codes writes (record m { memory = memory })) none λ x.
      let exits = record (x.0) { esp = (top + 32) % uint_mod; eax = 1; ebx = 0 } in
      or_else (syscall_from_regs entry fuel codes exits x.1) none λ y. some (y.1, x.2 ++ y.2)

top-push_message :
    (esp : ℕ) (memory : ℕ → ℕ)
    → 32 ≤ esp
    → esp < uint_mod
    → (push_message (esp, memory)).0 ≡ esp - 32
unfolding push_message push
top-push_message esp memory a b = omega arith

store_word-first : (memory : ℕ → ℕ) (p v : ℕ) → store_word memory p v p ≡ v % 256
store_word-first memory p v = ground arith

store_word-second : (memory : ℕ → ℕ) (p v : ℕ) → store_word memory p v (p + 1) ≡ v / 256 % 256
store_word-second memory p v = ground arith

-- The word pushed last is at the stack pointer.
pushed : (v : ℕ) (s : Stack) → (push v s).1 (push v s).0 ≡ v % 256
unfolding push
pushed v s = store_word-first s.1 ((s.0 + uint_mod - 4) % uint_mod) v

pushed_next : (v : ℕ) (s : Stack) → (push v s).1 ((push v s).0 + 1) ≡ v / 256 % 256
unfolding push
pushed_next v s = store_word-second s.1 ((s.0 + uint_mod - 4) % uint_mod) v

abbrev before_last : Stack → Stack
before_last s = push b'i' (push b' ' (push b'S' (push b'O' (push b'!' (push b'\n' (push 0 s))))))

-- The string that ebx points to ends after its first byte.
message-starts : (s : Stack) → let t = push_message s in (t.1 t.0 ≡ b'M') × (t.1 (t.0 + 1) ≡ 0)
unfolding push_message
message-starts s = (pushed b'M' (before_last s), pushed_next b'M' (before_last s))

write_chars-first :
    (n p : ℕ) (memory : ℕ → ℕ)
    → memory p ≡ b'M'
    → memory (p + 1) ≡ 0
    → write_chars (suc (suc n)) p memory ≡ glyph b'M' 0x0F ∷ []
unfolding write_chars
write_chars-first n p memory a b = rw a (rw b refl)

message-writes :
    (s : Stack) → write_chars 8 (push_message s).0 (push_message s).1 ≡ glyph b'M' 0x0F ∷ []
message-writes s =
    let (a, b) = message-starts s in write_chars-first 6 (push_message s).0 (push_message s).1 a b

-- A user process whose stack has 32 bytes in its memory prints one character, `M`, whatever it was to
-- print: each of its pushes takes four bytes, three of them 0. Then it ends.
pub user_program-prints :
    (entry fuel : ℕ) (codes : List ℕ) (r : Regs) (m : Machine)
    → 32 ≤ r.esp
    → r.esp < uint_mod
    → is_user (current m.procs).mode ≡ true
    → user_ptr_ok (r.esp - 32) 8 m.procs ≡ true
    → let (procs, out) = kill_process (pos m.procs.current_pid) m.procs in
      user_program entry fuel codes r m
      ≡ some (
        record m { procs = procs; memory = (push_message (r.esp, m.memory)).1 },
        glyph b'M' 0x0F ∷ out,
      )
unfolding user_program syscall_from_regs syscall_handler sys_write sys_exit
user_program-prints entry fuel codes r m a b user ok =
    let ok' : user_ptr_ok (push_message (r.esp, m.memory)).0 8 m.procs ≡ true =
      rw (top-push_message r.esp m.memory a b) ok in
    rw user (rw ok' (rw (message-writes (r.esp, m.memory)) (rw user refl)))
