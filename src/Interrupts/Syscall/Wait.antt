-- ===== src/Interrupts/Syscall/Wait.antt =====
-- SYS_WAIT of interrupts.c: for a child that is alive, and for one that is over.
use native.Mathlib.Decide.{ℕ_discrete}
use sistema_operativo.Prelude.{
  ℕ, zero, suc, ◌<◌, ◌≢◌, ◌∙◌, sym, arith, length, length-set, get_or-set_self, get_or-set_ne,
  ==_iff, lt→ltb, ap, if◌then◌else◌, ◌≡◌, refl, true, false, none, some, List, [], ◌∷◌, ◌==◌, ℤ,
  pos, to_int, to_uint, if_ind, get_or, set,
}
use sistema_operativo.Console.{Output}
use sistema_operativo.Process.Types.{
  Process, Procs, slot, put_slot, zero_process, zombie, empty, max_processes,
}
use sistema_operativo.Process.Slots.{Inv, put_slot-Inv}
use sistema_operativo.Process.Invariant.{kill_process-Inv}
use sistema_operativo.Process.Table.{
  index, kill_process, sleep_process, no_such_process, not_positive,
}
use sistema_operativo.Interrupts.Types.{Machine}
use sistema_operativo.Interrupts.Syscall.{is_over, is_child, wait_child, sys_wait, release, failure}

-- A write of a process that is not over ends none.
set-over :
    (ps : List Process) (i child : ℕ) (p : Process)
    → is_over p ≡ false
    → is_over (get_or ps child zero_process) ≡ false
    → is_over (get_or (set ps i p) child zero_process) ≡ false
set-over [] i child p h k = k
set-over (q ∷ ps) zero zero p h k = h
set-over (q ∷ ps) zero (suc child) p h k = k
set-over (q ∷ ps) (suc i) zero p h k = k
set-over (q ∷ ps) (suc i) (suc child) p h k = set-over ps i child p h k

abbrev IsNotOver : ℕ → Procs × List Output → Type 0
IsNotOver child r = is_over (slot r.0 child) ≡ false

sleep_process-over :
    (pid : ℕ) (seconds : ℤ) (s : Procs) (child : ℕ)
    → is_over (slot s child) ≡ false
    → IsNotOver child (sleep_process (pos pid) seconds s)
unfolding sleep_process
sleep_process-over pid seconds s child h =
    if_ind (IsNotOver child) (no_such_process (pos pid) s) (λ _. h)
      λ _.
        if_ind (IsNotOver child) (pid == 0) (λ _. h)
          λ _.
            if_ind (IsNotOver child) (not_positive seconds) (λ _. h)
              λ _. set-over s.process_table pid child _ refl h

wait_child-diverges :
    (fuel child : ℕ) (s : Procs) → is_over (slot s child) ≡ false → wait_child fuel child s ≡ none
unfolding wait_child
wait_child-diverges zero child s h = refl
wait_child-diverges (suc fuel) child s h = rw (
  h,
  wait_child-diverges fuel child (sleep_process (pos s.current_pid) (pos 1) s).0
      (sleep_process-over s.current_pid (pos 1) s child h),
)

-- SYS_WAIT for a child that is still alive never returns, however long it runs: its loop changes
-- only the caller, and nothing else runs while interrupts are off.
pub sys_wait-diverges :
    (fuel arg1 : ℕ) (m : Machine)
    → is_child (to_int arg1) m.procs ≡ true
    → is_over (slot m.procs (index (to_int arg1))) ≡ false
    → sys_wait fuel arg1 m ≡ none
unfolding sys_wait
sys_wait-diverges fuel arg1 m c h = rw (c, wait_child-diverges fuel (index (to_int arg1)) m.procs h)

sys_wait-over :
    (fuel arg1 : ℕ) (m : Machine)
    → is_child (to_int arg1) m.procs ≡ true
    → is_over (slot m.procs (index (to_int arg1))) ≡ true
    → sys_wait (suc fuel) arg1 m
      ≡ some (
        to_uint (slot m.procs (index (to_int arg1))).exit_code,
        record m { procs = release (index (to_int arg1)) m.procs },
        [],
      )
unfolding sys_wait wait_child
sys_wait-over fuel arg1 m c h = rw (c, h)

pub sys_wait-stranger :
    (fuel arg1 : ℕ) (m : Machine)
    → is_child (to_int arg1) m.procs ≡ false
    → sys_wait fuel arg1 m ≡ some (failure, m, [])
unfolding sys_wait
sys_wait-stranger fuel arg1 m c = rw c

sys_wait-child :
    (fuel child : ℕ) (m : Machine)
    → 0 < child
    → child < max_processes
    → is_over (slot m.procs child) ≡ true
    → (slot m.procs child).parent_pid ≡ pos m.procs.current_pid
    → sys_wait (suc fuel) child m
      ≡ some
          (to_uint (slot m.procs child).exit_code, record m { procs = release child m.procs }, [])
sys_wait-child fuel zero m h k over parent = absurd (omega arith)
sys_wait-child fuel (suc n) m h k over parent =
    let cast : to_int (suc n) ≡ pos (suc n) = ground arith in
    let mine : is_child (pos (suc n)) m.procs ≡ true =
      rw (lt→ltb (suc n) max_processes k, parent)
        ((==_iff m.procs.current_pid m.procs.current_pid).1 refl) in
    rw cast at (sys_wait-over fuel (suc n) m (rw cast mine) (rw cast over))

kill_process_lem :
    (child : ℕ) (s : Procs)
    → 0 < child
    → child < max_processes
    → (slot s child).state ≢ empty
    → (kill_process (pos child) s).0
      ≡ put_slot s child (record (slot s child) { exit_code = pos 0; state = zombie })
unfolding kill_process
kill_process_lem child s h k alive = ground arith

-- What two writes of one slot leave in the slots.
slot-written :
    (s : Procs) (child i : ℕ) (p q : Process)
    → child < length s.process_table
    → slot (put_slot (put_slot s child p) child q) i ≡ (if i == child then q else slot s i)
slot-written s child i p q h = elim (ℕ_discrete i child) [
  | yes e ↦
      rw ((==_iff i child).1 e, e)
        (get_or-set_self (set s.process_table child p) child q zero_process
          (omega (arith, h, length-set s.process_table child p)))
  | no ne ↦
      let t : (i == child) ≡ false = ground arith in
      rw t (
        get_or-set_ne (set s.process_table child p) child i q zero_process (λ e. ne (sym e))
        ∙ get_or-set_ne s.process_table child i p zero_process (λ e. ne (sym e)))
]

-- From a well-formed table, when a child of the current process is killed and that process waits for it,
-- SYS_WAIT returns 0 in the first round. The child's slot is free then, all else in it but the exit code
-- as it was, so is every other slot, and the table is well formed.
pub sys_wait-kill_process :
    (fuel child : ℕ) (m : Machine)
    → Inv m.procs
    → 0 < child
    → child < max_processes
    → (slot m.procs child).state ≢ empty
    → (slot m.procs child).parent_pid ≡ pos m.procs.current_pid
    → let killed = (kill_process (pos child) m.procs).0 in
      (t : Procs) × (sys_wait (suc fuel) child (record m { procs = killed })
        ≡ some (0, record m { procs = t }, []))
      × ((i : ℕ)
          → slot t i ≡ (
              if i == child
              then record (slot m.procs child) { exit_code = pos 0; state = empty }
              else slot m.procs i))
      × Inv t
sys_wait-kill_process fuel child m v h k alive parent =
    let s = m.procs in
    let dead : Process = record (slot s child) { exit_code = pos 0; state = zombie } in
    let room : child < length s.process_table = omega (arith, k, v.size) in
    let killed = kill_process_lem child s h k alive in
    let here : slot (put_slot s child dead) child ≡ dead =
      get_or-set_self s.process_table child dead zero_process room in
    let w : Inv (put_slot s child dead) = rw killed at (kill_process-Inv (pos child) s v) in
    let gone : Process = record dead { state = empty } in
    rw killed (
      put_slot (put_slot s child dead) child gone,
      sys_wait-child fuel child (record m { procs = put_slot s child dead }) h k (ap is_over here)
            (ap (λ (p : Process). p.parent_pid) here ∙ parent)
          ∙ rw here refl,
      λ i. slot-written s child i dead gone room,
      put_slot-Inv (put_slot s child dead) child gone w k
          (let ok = v.slots child k in ground (arith, ok)),
    )
