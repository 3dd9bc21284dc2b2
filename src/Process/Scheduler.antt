-- ===== src/Process/Scheduler.antt =====
-- The scheduling step of process_tick.
use native.Mathlib.Decide.{ℕ_discrete}
use sistema_operativo.Prelude.{
  ℕ, ◌+◌, ◌%◌, ◌<◌, ◌≡◌, ◌≢◌, refl, set, arith, ◌==◌, if_ind, get_or-set_self, get_or-set_ne, sym,
  ap,
}
use sistema_operativo.Process.Types.{
  Process, Procs, empty, running, ready, slot, max_processes, zero_process, is_running,
}
use sistema_operativo.Process.Tick.{demote, dispatch, reschedule, tick_loops, tick_processes}
use sistema_operativo.Process.Slots.{SlotOk, Inv, put_slot-Inv}
use sistema_operativo.Process.Invariant.{tick_loops-Inv}
use sistema_operativo.Process.Best.{IsBest, get_best_process-IsBest}

-- No process runs.
abbrev pub NoneRuns : Procs → Type 0
NoneRuns s = (i : ℕ) → i < max_processes → (slot s i).state ≢ running

pub demote-Inv : (s : Procs) → Inv s → Inv (demote s)
unfolding demote
demote-Inv s v =
    if_ind Inv (is_running (slot s s.current_pid).state)
      (λ r.
        put_slot-Inv s s.current_pid _ v v.current_in
          (let ok = v.slots s.current_pid v.current_in in ground (arith, ok)))
      λ _. v

slot-demote_self : (s : Procs) → Inv s → (slot (demote s) s.current_pid).state ≢ running
unfolding demote
slot-demote_self s v e = ground (
  arith,
  get_or-set_self s.process_table s.current_pid (record (slot s s.current_pid) { state = ready })
      zero_process (omega (arith, v.size, v.current_in)),
)

pub slot-demote_ne : (s : Procs) (i : ℕ) → s.current_pid ≢ i → slot (demote s) i ≡ slot s i
unfolding demote
slot-demote_ne s i h = ground (
  arith,
  get_or-set_ne s.process_table s.current_pid i (record (slot s s.current_pid) { state = ready })
      zero_process h,
)

-- After the current process is set back to READY, none runs.
pub demote-NoneRuns : (s : Procs) → Inv s → NoneRuns (demote s)
demote-NoneRuns s v i h = elim (ℕ_discrete s.current_pid i) [
  | yes e ↦ rw (← e) (slot-demote_self s v)
  | no ne ↦ rw (slot-demote_ne s i ne) (λ r. ne (sym ((v.slots i h).unique r)))
]

-- Where none runs, any process may become the current one and run.
pub elect-Inv :
    (s : Procs) (next turn : ℕ) (p : Process)
    → Inv s
    → NoneRuns s
    → next < max_processes
    → turn < max_processes
    → SlotOk next s.next_pid next p
    → Inv (record s {
      current_pid = next;
      process_table = set s.process_table next p;
      last_rr_pid = turn;
    })
elect-Inv s next turn p v none h t ok =
    put_slot-Inv (record s { current_pid = next; last_rr_pid = turn }) next p
      (record {
        size = v.size;
        current_in = h;
        next_in = v.next_in;
        next_pos = v.next_pos;
        turn_in = t;
        slots = λ i k. let old = v.slots i k in ground (arith, old, none i k);
      })
      h ok

-- The kernel is READY once the current process is set back.
kernel-ready : (s : Procs) → Inv s → (slot (demote s) 0).state ≡ ready
kernel-ready s v =
    let ok = (demote-Inv s v).slots 0 (omega arith) in
    ground (arith, ok.kernel refl, demote-NoneRuns s v 0 (omega arith))

-- The process that get_best_process finds is dispatched.
dispatch-ready :
    (next : ℕ) (s : Procs)
    → (slot s next).state ≡ ready
    → dispatch next s ≡ record s {
      current_pid = next;
      process_table = set s.process_table next (record (slot s next) {
        state = running;
        cpu_time = (slot s next).cpu_time + 1;
        wait_ticks = 0;
      });
    }
unfolding dispatch
dispatch-ready next s h = rw h

-- The state after rescheduling to `pid`.
abbrev pub elected : Procs → ℕ → Procs
elected s pid = record s {
  current_pid = pid;
  last_rr_pid = pid;
  process_table = set s.process_table pid (record (slot s pid) {
    state = running;
    cpu_time = (slot s pid).cpu_time + 1;
    wait_ticks = 0;
  });
}

pub reschedule-elected :
    (s : Procs) (v : Inv s)
    → (pid : ℕ) × (reschedule s ≡ elected (demote s) pid) × IsBest (demote s) pid
unfolding reschedule
reschedule-elected s v =
    let (pid, e, b) =
      get_best_process-IsBest (demote s) 0 (demote-Inv s v) (omega arith) (kernel-ready s v) in
    (pid, rw e (dispatch-ready pid (record (demote s) { last_rr_pid = pid }) b.can_run), b)

elected-Inv : (s : Procs) (pid : ℕ) → Inv s → NoneRuns s → IsBest s pid → Inv (elected s pid)
elected-Inv s pid v none b =
    elect-Inv s pid pid _ v none b.inside b.inside
      (let ok = v.slots pid b.inside in ground (arith, ok, b.can_run))

-- From a well-formed table the rescheduling always finds a process to run: the table stays well
-- formed, and the new current process is the one that runs, was the best to choose (READY, of the
-- least priority number, first in turn) once the old one was set back, and got one more turn of
-- processor time.
pub reschedule-IsBest :
    (s : Procs)
    → Inv s
    → let t = reschedule s in
      Inv t
      × ((slot t t.current_pid).state ≡ running)
      × IsBest (demote s) t.current_pid
      × ((slot t t.current_pid).cpu_time ≡ (slot (demote s) t.current_pid).cpu_time + 1)
reschedule-IsBest s v =
    let (pid, e, b) = reschedule-elected s v in
    let w = demote-Inv s v in
    rw e (
      elected-Inv (demote s) pid w (demote-NoneRuns s v) b,
      ap (λ (p : Process). p.state) (at_pid pid b),
      b,
      ap (λ (p : Process). p.cpu_time) (at_pid pid b),
    )
  where
    at_pid :
        (pid : ℕ)
        → IsBest (demote s) pid
        → slot (elected (demote s) pid) pid ≡ record (slot (demote s) pid) {
          state = running;
          cpu_time = (slot (demote s) pid).cpu_time + 1;
          wait_ticks = 0;
        }
    at_pid pid b =
        get_or-set_self (demote s).process_table pid _ zero_process
          (omega (arith, (demote-Inv s v).size, b.inside))

-- Every tick keeps the table well formed.
pub tick_processes-Inv : (s : Procs) → Inv s → Inv (tick_processes s)
unfolding tick_processes
tick_processes-Inv s v =
    if_ind Inv ((tick_loops s).timer_ticks % 10 == 0)
      (λ _. (reschedule-IsBest (tick_loops s) (tick_loops-Inv s v)).0) λ _. tick_loops-Inv s v

-- Setting the current process back takes no process out of use.
pub demote-in_use :
    (s : Procs) (i : ℕ) → Inv s → (slot s i).state ≢ empty → (slot (demote s) i).state ≢ empty
demote-in_use s i v h = elim (ℕ_discrete s.current_pid i) [
  | yes e ↦ rw (← e) (self (rw (← e) at h))
  | no ne ↦ rw (slot-demote_ne s i ne) h
]
  where
    self : (slot s s.current_pid).state ≢ empty → (slot (demote s) s.current_pid).state ≢ empty
    self k z =
        unfold demote in
        ground (
          arith,
          k,
          get_or-set_self s.process_table s.current_pid
              (record (slot s s.current_pid) { state = ready }) zero_process
              (omega (arith, v.size, v.current_in)),
        )
