-- ===== src/Process/Sleep.antt =====
-- How long a process sleeps in process.c.
use native.Mathlib.Decide.{dec_lt}
use sistema_operativo.Prelude.{
  length, get_or-set_self, get_or-length_le, false, ℕ, zero, suc, ◌+◌, ◌*◌, ◌<◌, ◌∙◌, ap, subst,
  ◌%◌, ◌≡◌, ◌≢◌, refl, ◌⊎◌, inl, inr, true, List, [], ◌∷◌, map, get_or, set, arith, ◌==◌, if_ind,
  pos, sym, ◌-◌, ◌≤◌,
}
use sistema_operativo.Process.Types.{
  Process, Procs, slot, zero_process, is_ready, is_running, empty, sleeping, ready, running,
  max_processes,
}
use sistema_operativo.Process.Table.{sleep_process, no_such_process, not_positive, to_ticks}
use sistema_operativo.Process.Tick.{
  wake, reap, age, map_tail, tick_loops, demote, dispatch, get_best_process, reschedule,
  tick_processes,
}

pub at_map :
    (P : Process → Type 0) (f : Process → Process) (ps : List Process) (i : ℕ)
    → (get_or ps i zero_process).state ≢ empty
    → P (f (get_or ps i zero_process))
    → P (get_or (map f ps) i zero_process)
at_map P f [] i used h = absurd (used refl)
at_map P f (p ∷ ps) zero used h = h
at_map P f (p ∷ ps) (suc i) used h = at_map P f ps i used h

pub at_map_tail :
    (P : Process → Type 0) (f : Process → Process) (ps : List Process) (i : ℕ)
    → (get_or ps i zero_process).state ≢ empty
    → P (get_or ps i zero_process)
    → P (f (get_or ps i zero_process))
    → P (get_or (map_tail f ps) i zero_process)
at_map_tail P f [] i used k h = absurd (used refl)
at_map_tail P f (p ∷ ps) zero used k h = k
at_map_tail P f (p ∷ ps) (suc i) used k h = at_map P f ps i used h

at_set :
    (P : Process → Type 0) (ps : List Process) (i j : ℕ) (p : Process)
    → (i ≡ j → P p)
    → P (get_or ps j zero_process)
    → P (get_or (set ps i p) j zero_process)
at_set P [] i j p h k = k
at_set P (q ∷ ps) zero zero p h k = h refl
at_set P (q ∷ ps) zero (suc j) p h k = k
at_set P (q ∷ ps) (suc i) zero p h k = k
at_set P (q ∷ ps) (suc i) (suc j) p h k = at_set P ps i j p (λ e. h (ground arith)) k

-- The process sleeps, `n` ticks yet.
abbrev pub Sleeps : ℕ → Process → Type 0
Sleeps n p = (p.state ≡ sleeping) × (p.sleep_ticks ≡ pos n)

-- The process is ready or runs.
abbrev pub IsAwake : Process → Type 0
IsAwake p = (p.state ≡ ready) ⊎ (p.state ≡ running)

module _ (P : Process → Type 0) (s : Procs) (j : ℕ) (h : P (slot s j)) where
  at_demote :
      (is_running (slot s j).state ≡ true → P (record (slot s j) { state = ready }))
      → P (slot (demote s) j)
  unfolding demote
  at_demote k =
      if_ind (λ (t : Procs). P (slot t j)) (is_running (slot s s.current_pid).state)
        (λ r. at_set P s.process_table s.current_pid j _ (λ e. rw e (k (rw e at r))) h) λ _. h

  at_dispatch :
      (next : ℕ)
      → (is_ready (slot s j).state ≡ true
          → P (record (slot s j) {
            state = running;
            cpu_time = (slot s j).cpu_time + 1;
            wait_ticks = 0;
          }))
      → P (slot (dispatch next s) j)
  unfolding dispatch
  at_dispatch next k =
      if_ind (λ (t : Procs). P (slot t j)) (is_ready (slot s next).state)
        (λ r. at_set P s.process_table next j _ (λ e. rw e (k (rw e at r))) h) λ _. h

  at_get_best_process : P (slot (get_best_process s).1 j)
  at_get_best_process = rw same h
    where
      same : slot (get_best_process s).1 j ≡ slot s j
      same = unfold get_best_process in ground arith

reschedule-Sleeps :
    (n : ℕ) (s : Procs) (j : ℕ) → Sleeps n (slot s j) → Sleeps n (slot (reschedule s) j)
unfolding reschedule
reschedule-Sleeps n s j h =
    let d = at_demote (Sleeps n) s j h (λ r. ground (arith, h.0)) in
    let b = at_get_best_process (Sleeps n) (demote s) j d in
    at_dispatch (Sleeps n) (get_best_process (demote s)).1 j b (get_best_process (demote s)).0
      (λ r. ground (arith, b.0))

reschedule-IsAwake : (s : Procs) (j : ℕ) → IsAwake (slot s j) → IsAwake (slot (reschedule s) j)
unfolding reschedule
reschedule-IsAwake s j h =
    at_dispatch IsAwake (get_best_process (demote s)).1 j
      (at_get_best_process IsAwake (demote s) j (at_demote IsAwake s j h (λ r. inl refl)))
      (get_best_process (demote s)).0 (λ r. inr refl)

tick_loops-Sleeps :
    (n : ℕ) (s : Procs) (j : ℕ)
    → Sleeps (suc (suc n)) (slot s j)
    → Sleeps (suc n) (slot (tick_loops s) j)
unfolding tick_loops
tick_loops-Sleeps n s j h =
    let w : Sleeps (suc n) (get_or (map wake s.process_table) j zero_process) =
      at_map (Sleeps (suc n)) wake s.process_table j (λ e. ground (arith, h.0))
        (rw (h.0, h.1) (refl, refl)) in
    let r : Sleeps (suc n) (get_or (map_tail reap (map wake s.process_table)) j zero_process) =
      at_map_tail (Sleeps (suc n)) reap (map wake s.process_table) j (λ e. ground (arith, w.0)) w
        (rw (w.0) w) in
    at_map_tail (Sleeps (suc n)) age (map_tail reap (map wake s.process_table)) j
      (λ e. ground (arith, r.0)) r (rw (r.0) r)

abbrev IsReady : Process → Type 0
IsReady p = p.state ≡ ready

tick_loops-wakes : (s : Procs) (j : ℕ) → Sleeps 1 (slot s j) → IsReady (slot (tick_loops s) j)
unfolding tick_loops
tick_loops-wakes s j h =
    let w : IsReady (get_or (map wake s.process_table) j zero_process) =
      at_map IsReady wake s.process_table j (λ e. ground (arith, h.0)) (rw (h.0, h.1) refl) in
    let r : IsReady (get_or (map_tail reap (map wake s.process_table)) j zero_process) =
      at_map_tail IsReady reap (map wake s.process_table) j (λ e. ground (arith, w)) w (rw w w) in
    at_map_tail IsReady age (map_tail reap (map wake s.process_table)) j (λ e. ground (arith, r)) r
      (ground (arith, r))

tick_processes-Sleeps :
    (n : ℕ) (s : Procs) (j : ℕ)
    → Sleeps (suc (suc n)) (slot s j)
    → Sleeps (suc n) (slot (tick_processes s) j)
unfolding tick_processes
tick_processes-Sleeps n s j h =
    let k = tick_loops-Sleeps n s j h in
    if_ind (λ (t : Procs). Sleeps (suc n) (slot t j)) ((tick_loops s).timer_ticks % 10 == 0)
      (λ _. reschedule-Sleeps (suc n) (tick_loops s) j k) (λ _. k)

tick_processes-wakes :
    (s : Procs) (j : ℕ) → Sleeps 1 (slot s j) → IsAwake (slot (tick_processes s) j)
unfolding tick_processes
tick_processes-wakes s j h =
    let k = tick_loops-wakes s j h in
    if_ind (λ (t : Procs). IsAwake (slot t j)) ((tick_loops s).timer_ticks % 10 == 0)
      (λ _. reschedule-IsAwake (tick_loops s) j (inl k)) (λ _. inl k)

-- `n` ticks of the timer.
unfoldable pub tick_all : ℕ → Procs → Procs
tick_all zero s = s
tick_all (suc n) s = tick_all n (tick_processes (record s { timer_ticks = s.timer_ticks + 1 }))

tick_all-Sleeps :
    (k m : ℕ) (s : Procs) (j : ℕ)
    → Sleeps (suc (k + m)) (slot s j)
    → Sleeps (suc m) (slot (tick_all k s) j)
unfolding tick_all
tick_all-Sleeps zero m s j h = (h.0, h.1 ∙ ap pos (omega arith))
tick_all-Sleeps (suc k) m s j h =
    let t : Procs = record s { timer_ticks = s.timer_ticks + 1 } in
    tick_all-Sleeps k m (tick_processes t) j
      (tick_processes-Sleeps (k + m) t j (h.0, h.1 ∙ ap pos (omega arith)))

tick_all-wakes :
    (n : ℕ) (s : Procs) (j : ℕ) → Sleeps (suc n) (slot s j) → IsAwake (slot (tick_all (suc n) s) j)
unfolding tick_all
tick_all-wakes zero s j h = tick_processes-wakes (record s { timer_ticks = s.timer_ticks + 1 }) j h
tick_all-wakes (suc n) s j h =
    let t : Procs = record s { timer_ticks = s.timer_ticks + 1 } in
    tick_all-wakes n (tick_processes t) j (tick_processes-Sleeps n t j h)

not_positive_pos : (n : ℕ) → 0 < n → not_positive (pos n) ≡ false
not_positive_pos zero h = absurd (omega arith)
not_positive_pos (suc n) h = refl

to_ticks_small : (seconds : ℕ) → seconds ≤ 21474836 → to_ticks (pos seconds) ≡ pos (seconds * 100)
to_ticks_small seconds h = ground arith

used_inside : (s : Procs) (i : ℕ) → (slot s i).state ≢ empty → i < length s.process_table
used_inside s i used = elim (dec_lt i (length s.process_table)) [
  | yes h ↦ h
  | no h ↦ absurd (used (rw (get_or-length_le s.process_table i zero_process (omega arith)) refl))
]

sleep_process-Sleeps :
    (pid seconds : ℕ) (s : Procs)
    → pid < max_processes
    → pid ≢ 0
    → (slot s pid).state ≢ empty
    → 0 < seconds
    → seconds ≤ 21474836
    → Sleeps (seconds * 100) (slot (sleep_process (pos pid) (pos seconds) s).0 pid)
unfolding sleep_process
sleep_process-Sleeps pid seconds s inside nz used lo hi =
    let exists : no_such_process (pos pid) s ≡ false = ground (arith, used) in
    let not_kernel : (pid == 0) ≡ false = ground arith in
    let later : not_positive (pos seconds) ≡ false = not_positive_pos seconds lo in
    rw
      (
        exists,
        not_kernel,
        later,
        get_or-set_self s.process_table pid
            (record (slot s pid) { state = sleeping; sleep_ticks = to_ticks (pos seconds) })
            zero_process (used_inside s pid used),
      )
      (refl, to_ticks_small seconds hi)

-- A process in use, other than the kernel, that is put to sleep for 1 to 21474836 seconds sleeps
-- through the first `k` ticks if they are fewer than a hundred to the second, and is ready or runs
-- after a hundred to the second.
pub sleep_process-wakes :
    (pid seconds k : ℕ) (s : Procs)
    → pid < max_processes
    → pid ≢ 0
    → (slot s pid).state ≢ empty
    → 0 < seconds
    → seconds ≤ 21474836
    → k < seconds * 100
    → let t = (sleep_process (pos pid) (pos seconds) s).0 in
      ((slot (tick_all k t) pid).state ≡ sleeping) × IsAwake (slot (tick_all (seconds * 100) t) pid)
sleep_process-wakes pid seconds k s inside nz used lo hi before =
    let t = (sleep_process (pos pid) (pos seconds) s).0 in
    let h = sleep_process-Sleeps pid seconds s inside nz used lo hi in
    let left : seconds * 100 ≡ suc (k + (seconds * 100 - suc k)) = omega arith in
    let all : seconds * 100 ≡ suc (seconds * 100 - 1) = omega arith in
    (
      (tick_all-Sleeps k (seconds * 100 - suc k) t pid (h.0, h.1 ∙ ap pos left)).0,
      subst (λ n. IsAwake (slot (tick_all n t) pid)) (sym all)
          (tick_all-wakes (seconds * 100 - 1) t pid (h.0, h.1 ∙ ap pos all)),
    )
