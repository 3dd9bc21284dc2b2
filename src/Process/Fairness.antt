-- ===== src/Process/Fairness.antt =====
-- How long a READY process of process.c waits for the processor.
use sistema_operativo.Prelude.{
  ℕ, zero, suc, ◌+◌, ◌-◌, ◌*◌, ◌%◌, ◌≤◌, ◌<◌, ◌≡◌, ◌≢◌, refl, ◌⊎◌, inl, inr, List, [], ◌∷◌, map,
  get_or, arith, ◌==◌, true, false, if_ind, subst,
}
use sistema_operativo.Process.Types.{
  Process, Procs, slot, zero_process, ready, running, empty, max_processes,
}
use sistema_operativo.Process.Tick.{wake, reap, age, map_tail, tick_loops, tick_processes}
use sistema_operativo.Process.Slots.{Inv}
use sistema_operativo.Process.Best.{steps_to, turn-steps_to}
use sistema_operativo.Process.Invariant.{tick_loops-Inv, timer-Inv}
use sistema_operativo.Process.Scheduler.{tick_processes-Inv}
use sistema_operativo.Process.Turns.{reschedule-Nears}
use sistema_operativo.Process.Sleep.{at_map, at_map_tail, tick_all}

-- The process waits, and has priority 0 after at most `n` ticks.
abbrev Waits : ℕ → Process → Type 0
Waits n p = (p.state ≡ ready) × (p.priority * 50 + (49 - p.wait_ticks) ≤ 49 + n)

at_tail_suc :
    (P : Process → Type 0) (f : Process → Process) (ps : List Process) (i : ℕ)
    → (get_or ps (suc i) zero_process).state ≢ empty
    → P (f (get_or ps (suc i) zero_process))
    → P (get_or (map_tail f ps) (suc i) zero_process)
at_tail_suc P f [] i used h = absurd (used refl)
at_tail_suc P f (p ∷ ps) i used h = at_map P f ps i used h

-- What the first two loops leave of a process that waits: all of it.
woken :
    (n : ℕ) (s : Procs) (j : ℕ)
    → Waits n (slot s j)
    → Waits n (get_or (map_tail reap (map wake s.process_table)) j zero_process)
woken n s j h =
    let w : Waits n (get_or (map wake s.process_table) j zero_process) =
      at_map (Waits n) wake s.process_table j (λ e. ground (arith, h.0)) (rw (h.0) h) in
    at_map_tail (Waits n) reap (map wake s.process_table) j (λ e. ground (arith, w.0)) w
      (rw (w.0) w)

age-Waits : (n : ℕ) (p : Process) → Waits (suc n) p → Waits n (age p)
age-Waits n p h = ground (arith, h.0, h.1)

age-Waits_0 : (p : Process) → Waits 0 p → Waits 0 (age p)
age-Waits_0 p h = ground (arith, h.0, h.1)

tick_loops-Waits :
    (n : ℕ) (s : Procs) (j : ℕ) → 0 < j → Waits (suc n) (slot s j) → Waits n (slot (tick_loops s) j)
unfolding tick_loops
tick_loops-Waits n s zero pos h = absurd (omega arith)
tick_loops-Waits n s (suc j) pos h =
    let w = woken (suc n) s (suc j) h in
    at_tail_suc (Waits n) age (map_tail reap (map wake s.process_table)) j
      (λ e. ground (arith, w.0)) (age-Waits n _ w)

tick_loops-Waits_0 : (s : Procs) (j : ℕ) → Waits 0 (slot s j) → Waits 0 (slot (tick_loops s) j)
unfolding tick_loops
tick_loops-Waits_0 s j h =
    let w = woken 0 s j h in
    at_map_tail (Waits 0) age (map_tail reap (map wake s.process_table)) j
      (λ e. ground (arith, w.0)) w (age-Waits_0 _ w)

abbrev next_tick : Procs → Procs
next_tick s = tick_processes (record s { timer_ticks = s.timer_ticks + 1 })

abbrev Runs : Procs → ℕ → Type 0
Runs s j = (slot s j).state ≡ running

tick-Waits :
    (n : ℕ) (s : Procs) (j : ℕ)
    → Inv s
    → 0 < j
    → j < max_processes
    → Waits (suc n) (slot s j)
    → Runs (next_tick s) j ⊎ Waits n (slot (next_tick s) j)
unfolding tick_processes
tick-Waits n s j v pos h w =
    let t : Procs = record s { timer_ticks = s.timer_ticks + 1 } in
    let k = tick_loops-Waits n t j pos w in
    if_ind (λ (u : Procs). Runs u j ⊎ Waits n (slot u j)) ((tick_loops t).timer_ticks % 10 == 0)
      (λ _.
        elim (reschedule-Nears (tick_loops t) j
          (tick_loops-Inv t (timer-Inv s (s.timer_ticks + 1) v)) h (k.0)) [
            | inl r ↦ inl r
            | inr (same, _, _) ↦ inr (rw same k)
          ])
      (λ _. inr k)

-- With priority 0: its turn comes after at most `m` ticks.
abbrev Closes : ℕ → Procs → ℕ → Type 0
Closes m s j = Waits 0 (slot s j) × (10 * steps_to s j ≤ m + s.timer_ticks % 10)

due_left :
    (t m a b : ℕ)
    → 10 * a ≤ suc m + t % 10
    → ((t + 1) % 10 == 0) ≡ true
    → b < a
    → 10 * b ≤ m + (t + 1) % 10
due_left t m a b h e lt = ground arith

left_over :
    (t m a : ℕ) → 10 * a ≤ suc m + t % 10 → ((t + 1) % 10 == 0) ≡ false → 10 * a ≤ m + (t + 1) % 10
left_over t m a h e = ground arith

last_rr_pid-tick_loops : (s : Procs) → (tick_loops s).last_rr_pid ≡ s.last_rr_pid
unfolding tick_loops
last_rr_pid-tick_loops s = refl

tick-Closes :
    (m : ℕ) (s : Procs) (j : ℕ)
    → Inv s
    → j < max_processes
    → Closes (suc m) s j
    → Runs (next_tick s) j ⊎ Closes m (next_tick s) j
unfolding tick_processes
tick-Closes m s j v h c =
    let t : Procs = record s { timer_ticks = s.timer_ticks + 1 } in
    let k = tick_loops-Waits_0 t j c.0 in
    if_ind (λ (u : Procs). Runs u j ⊎ Closes m u j) ((tick_loops t).timer_ticks % 10 == 0)
      (λ due.
        elim (reschedule-Nears (tick_loops t) j
          (tick_loops-Inv t (timer-Inv s (s.timer_ticks + 1) v)) h (k.0)) [
            | inl r ↦ inl r
            | inr (same, timer, near) ↦ inr (
              rw same k,
              rw timer (
                  due_left (s.timer_ticks) m (steps_to s j) _ c.1 due
                    (rw (last_rr_pid-tick_loops t) at (near (omega (arith, k.1))))),
            )
          ])
      (λ not_due.
        inr
          (k, rw (last_rr_pid-tick_loops t) (left_over s.timer_ticks m (steps_to s j) c.1 not_due)))

-- It runs after one of the next `n` ticks.
abbrev pub RunsWithin : ℕ → Procs → ℕ → Type 0
RunsWithin n s j = (k : ℕ) × (0 < k) × (k ≤ n) × Runs (tick_all k s) j

within_next : (n : ℕ) (s : Procs) (j : ℕ) → Runs (next_tick s) j → RunsWithin (suc n) s j
within_next n s j r = (1, omega arith, omega arith, unfold tick_all in r)

within_later : (n : ℕ) (s : Procs) (j : ℕ) → RunsWithin n (next_tick s) j → RunsWithin (suc n) s j
within_later n s j (k, _, le, r) = (suc k, omega arith, omega arith, unfold tick_all in r)

next_tick-Inv : (s : Procs) → Inv s → Inv (next_tick s)
next_tick-Inv s v = tick_processes-Inv _ (timer-Inv s (s.timer_ticks + 1) v)

Closes-RunsWithin :
    (m : ℕ) (s : Procs) (j : ℕ) → Inv s → j < max_processes → Closes m s j → RunsWithin m s j
Closes-RunsWithin zero s j v h c =
    let (_, lo, _) = turn-steps_to s j v.turn_in h in absurd (omega (arith, lo, c.1))
Closes-RunsWithin (suc m) s j v h c = elim (tick-Closes m s j v h c) [
  | inl r ↦ within_next m s j r
  | inr c' ↦ within_later m s j (Closes-RunsWithin m (next_tick s) j (next_tick-Inv s v) h c')
]

-- With priority 0 the process runs within a hundred ticks.
Waits-RunsWithin_zero :
    (s : Procs) (j : ℕ) → Inv s → j < max_processes → Waits 0 (slot s j) → RunsWithin 100 s j
Waits-RunsWithin_zero s j v h w =
    let (_, _, hi) = turn-steps_to s j v.turn_in h in
    Closes-RunsWithin 100 s j v h (w, omega (arith, hi))

Waits-RunsWithin :
    (n : ℕ) (s : Procs) (j : ℕ)
    → Inv s
    → 0 < j
    → j < max_processes
    → Waits n (slot s j)
    → RunsWithin (n + 100) s j
Waits-RunsWithin zero s j v pos h w = Waits-RunsWithin_zero s j v h w
Waits-RunsWithin (suc n) s j v pos h w =
    let more : suc (n + 100) ≡ suc n + 100 = omega arith in
    subst (λ b. RunsWithin b s j) more
      (elim (tick-Waits n s j v pos h w) [
        | inl r ↦ within_next (n + 100) s j r
        | inr w' ↦
            within_later (n + 100) s j
              (Waits-RunsWithin n (next_tick s) j (next_tick-Inv s v) pos h w')
      ])

-- No process starves while only the timer ticks: in a well-formed table a READY process other than
-- the kernel runs after one of the next 550 ticks, whatever the priorities are.
pub ready-RunsWithin :
    (s : Procs) (j : ℕ)
    → Inv s
    → 0 < j
    → j < max_processes
    → (slot s j).state ≡ ready
    → RunsWithin 550 s j
ready-RunsWithin s j v pos h r =
    Waits-RunsWithin 450 s j v pos h (r, omega (arith, (v.slots j h).prio))
