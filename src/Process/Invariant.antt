-- ===== src/Process/Invariant.antt =====
-- The operations of process.c and the well-formedness of the process table.
use sistema_operativo.Prelude.{
  ℕ, zero, suc, ◌+◌, ◌<◌, ◌≡◌, ◌≢◌, refl, sym, ◌∙◌, ap, List, [], ◌∷◌, map, length, get_or, arith,
  ℤ, pos, negsuc, length-map, get_or-map, subst, leb, ◌==◌, if_ind,
}
use sistema_operativo.Utils.{CStr}
use sistema_operativo.Console.{Output}
use sistema_operativo.Process.Types.{Process, Procs, slot, max_processes, zero_process}
use sistema_operativo.Process.Table.{
  create_process, kill_process, sleep_process, no_such_process, not_positive,
}
use sistema_operativo.Process.Tick.{wake, reap, age, map_tail, tick_loops}
use sistema_operativo.Process.Slots.{
  SlotOk, Inv, put_slot-Inv, wake-SlotOk, reap-SlotOk, age-SlotOk,
}

-- What a loop from index 1 on does to slot `i`.
abbrev at_tail : (Process → Process) → ℕ → Process → Process
at_tail f zero p = p
at_tail f (suc i) p = f p

slot-map_tail :
    (f : Process → Process) (ps : List Process) (i : ℕ)
    → f zero_process ≡ zero_process
    → get_or (map_tail f ps) i zero_process ≡ at_tail f i (get_or ps i zero_process)
slot-map_tail f [] zero e = refl
slot-map_tail f [] (suc i) e = sym e
slot-map_tail f (p ∷ ps) zero e = refl
slot-map_tail f (p ∷ ps) (suc i) e =
    subst (λ d. get_or (map f ps) i d ≡ f (get_or ps i zero_process)) e
      (get_or-map f ps i zero_process)

length-map_tail : (f : Process → Process) (ps : List Process) → length (map_tail f ps) ≡ length ps
length-map_tail f [] = refl
length-map_tail f (p ∷ ps) = ap suc (length-map f ps)

-- A loop over all slots, or over all but the first, keeps what it keeps at each slot.
module _ (f : Process → Process) (f_zero : f zero_process ≡ zero_process) (s : Procs) where
  map-Inv :
      ((i : ℕ) (p : Process)
        → SlotOk s.current_pid s.next_pid i p
        → SlotOk s.current_pid s.next_pid i (f p))
      → Inv s
      → Inv (record s { process_table = map f s.process_table })
  map-Inv keep v = record {
    size = length-map f s.process_table ∙ v.size;
    current_in = v.current_in;
    next_in = v.next_in;
    next_pos = v.next_pos;
    turn_in = v.turn_in;
    slots = λ i h.
        rw
          (subst (λ d. get_or (map f s.process_table) i d ≡ f (slot s i)) f_zero
            (get_or-map f s.process_table i zero_process))
          (keep i (slot s i) (v.slots i h));
  }

  at_tail-SlotOk :
      ((i : ℕ) (p : Process)
        → i ≢ 0
        → SlotOk s.current_pid s.next_pid i p
        → SlotOk s.current_pid s.next_pid i (f p))
      → (i : ℕ) (p : Process) → SlotOk s.current_pid s.next_pid i p
      → SlotOk s.current_pid s.next_pid i (at_tail f i p)
  at_tail-SlotOk keep zero p ok = ok
  at_tail-SlotOk keep (suc i) p ok = keep (suc i) p (omega arith) ok

  map_tail-Inv :
      ((i : ℕ) (p : Process)
        → i ≢ 0
        → SlotOk s.current_pid s.next_pid i p
        → SlotOk s.current_pid s.next_pid i (f p))
      → Inv s
      → Inv (record s { process_table = map_tail f s.process_table })
  map_tail-Inv keep v = record {
    size = length-map_tail f s.process_table ∙ v.size;
    current_in = v.current_in;
    next_in = v.next_in;
    next_pos = v.next_pos;
    turn_in = v.turn_in;
    slots = λ i h.
        rw (slot-map_tail f s.process_table i f_zero)
          (at_tail-SlotOk keep i (slot s i) (v.slots i h));
  }

pub tick_loops-Inv : (s : Procs) → Inv s → Inv (tick_loops s)
unfolding tick_loops
tick_loops-Inv s v =
    map_tail-Inv age refl _ (λ i p _. age-SlotOk p)
      (map_tail-Inv reap refl _ (λ i p ne ok. reap-SlotOk p ok ne)
        (map-Inv wake refl s (λ i p. wake-SlotOk p) v))

-- A slot more may be given out.
next_pid-Inv :
    (s : Procs) → s.next_pid < max_processes → Inv s → Inv (record s { next_pid = s.next_pid + 1 })
next_pid-Inv s h v = record {
  size = v.size;
  current_in = v.current_in;
  next_in = omega (arith, h);
  next_pos = omega arith;
  turn_in = v.turn_in;
  slots = λ i k. let ok = v.slots i k in ground (arith, ok);
}

-- A new process takes the next slot, and the table stays well formed.
pub create_process-Inv :
    (entry : ℕ) (name : CStr) (mem_size : ℕ) (s : Procs)
    → Inv s
    → Inv (create_process entry name mem_size s).1
unfolding create_process
create_process-Inv entry name mem_size s v =
    if_ind (λ (r : ℤ × Procs × List Output). Inv r.1) (leb max_processes s.next_pid) (λ _. v)
      λ e.
        put_slot-Inv (record s { next_pid = s.next_pid + 1 }) s.next_pid _
          (next_pid-Inv s (ground arith) v) (ground arith) (ground (arith, v.next_pos))

abbrev InvOf : Procs × List Output → Type 0
InvOf r = Inv r.0

pub kill_process-Inv : (pid : ℤ) (s : Procs) → Inv s → Inv (kill_process pid s).0
unfolding kill_process
kill_process-Inv (negsuc n) s v = v
kill_process-Inv (pos n) s v =
    if_ind InvOf (no_such_process (pos n) s) (λ _. v)
      λ e.
        if_ind InvOf (n == 0) (λ _. v)
          λ ne.
            let h : n < max_processes = ground arith in
            put_slot-Inv s n _ v h (let ok = v.slots n h in ground (arith, ok))

pub sleep_process-Inv : (pid seconds : ℤ) (s : Procs) → Inv s → Inv (sleep_process pid seconds s).0
unfolding sleep_process
sleep_process-Inv (negsuc n) seconds s v = v
sleep_process-Inv (pos n) seconds s v =
    if_ind InvOf (no_such_process (pos n) s) (λ _. v)
      λ e.
        if_ind InvOf (n == 0) (λ _. v)
          λ ne.
            if_ind InvOf (not_positive seconds) (λ _. v)
              λ _.
                let h : n < max_processes = ground arith in
                put_slot-Inv s n _ v h (let ok = v.slots n h in ground (arith, ok))

-- At boot the globals are zero but for `next_pid`; the table is well formed once it is initialised.

-- Counting ticks does not touch the table.
pub timer-Inv : (s : Procs) (n : ℕ) → Inv s → Inv (record s { timer_ticks = n })
timer-Inv s n v = record {
  size = v.size;
  current_in = v.current_in;
  next_in = v.next_in;
  next_pos = v.next_pos;
  turn_in = v.turn_in;
  slots = v.slots;
}
