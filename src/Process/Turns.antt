-- ===== src/Process/Turns.antt =====
-- What rescheduling does to a process of process.c that is READY.
use native.Mathlib.Decide.{ℕ_discrete, dec_lt}
use sistema_operativo.Prelude.{
  ℕ, ◌+◌, ◌<◌, ◌≡◌, ◌≢◌, refl, ◌∙◌, ap, length, sym, ◌⊎◌, inl, inr, get_or-set_self, get_or-set_ne,
  arith, subst,
}
use sistema_operativo.Process.Types.{Procs, slot, zero_process, ready, running, max_processes}
use sistema_operativo.Process.Tick.{demote, reschedule}
use sistema_operativo.Process.Slots.{Inv}
use sistema_operativo.Process.Best.{IsBest, turn, steps_to, turn-steps_to}
use sistema_operativo.Process.Scheduler.{demote-Inv, slot-demote_ne, elected, reschedule-elected}

-- Setting the current process back does not touch a READY one.
slot-demote_ready : (s : Procs) (j : ℕ) → (slot s j).state ≡ ready → slot (demote s) j ≡ slot s j
slot-demote_ready s j h = elim (ℕ_discrete s.current_pid j) [
  | yes e ↦ unfold demote in ground (arith, e, h)
  | no ne ↦ slot-demote_ne s j ne
]

-- After rescheduling the process runs, or it is as it was and its turn is nearer, if nobody had a
-- lower priority number than 0.
abbrev pub Nears : Procs → ℕ → Procs → Type 0
Nears s j t =
    (slot t j ≡ slot s j)
    × (t.timer_ticks ≡ s.timer_ticks)
    × ((slot s j).priority ≡ 0 → steps_to t j < steps_to s j)

shorter :
    (s : Procs) (j d pid : ℕ)
    → s.last_rr_pid < max_processes
    → j < max_processes
    → 0 < d
    → d < steps_to s j
    → pid ≡ turn s d
    → steps_to (record s { last_rr_pid = pid }) j < steps_to s j
shorter s j d pid l h p lt e = ground arith

nearer :
    (s : Procs) (j pid : ℕ)
    → s.last_rr_pid < max_processes
    → j < max_processes
    → (slot s j).state ≡ ready
    → (slot s j).priority ≡ 0
    → IsBest s pid
    → pid ≢ j
    → steps_to (record s { last_rr_pid = pid }) j < steps_to s j
nearer s j pid l h r z b ne =
    let (at, lo, hi) = turn-steps_to s j l h in
    let zero_best : (slot s pid).priority ≡ 0 = omega (arith, b.least j r, z) in
    let d : b.distance < steps_to s j = elim (dec_lt (steps_to s j) b.distance) [
      | yes lt ↦ absurd (b.first (steps_to s j) lo lt (rw at (r, z ∙ sym zero_best)))
      | no nlt ↦ elim (ℕ_discrete b.distance (steps_to s j)) [
        | yes e ↦ absurd (ne (b.in_turn ∙ ap (turn s) e ∙ at))
        | no other ↦ omega (arith, nlt, other)
      ]
    ] in
    shorter s j b.distance pid l h b.forward d b.in_turn

last_rr_pid-demote : (s : Procs) → (demote s).last_rr_pid ≡ s.last_rr_pid
unfolding demote
last_rr_pid-demote s = ground arith

timer_ticks-demote : (s : Procs) → (demote s).timer_ticks ≡ s.timer_ticks
unfolding demote
timer_ticks-demote s = ground arith

elected-runs :
    (s : Procs) (pid : ℕ)
    → pid < length s.process_table
    → (slot (elected s pid) pid).state ≡ running
elected-runs s pid h =
    rw
      (get_or-set_self s.process_table pid
        (record (slot s pid) {
          state = running;
          cpu_time = (slot s pid).cpu_time + 1;
          wait_ticks = 0;
        })
        zero_process h)
      refl

pub reschedule-Nears :
    (s : Procs) (j : ℕ)
    → Inv s
    → j < max_processes
    → (slot s j).state ≡ ready
    → ((slot (reschedule s) j).state ≡ running) ⊎ Nears s j (reschedule s)
reschedule-Nears s j v h r =
    let (pid, e, b) = reschedule-elected s v in
    let same = slot-demote_ready s j r in
    elim (ℕ_discrete pid j) [
      | yes i ↦ inl (
          rw e (
            subst (λ x. (slot (elected (demote s) pid) x).state ≡ running) i
              (elected-runs (demote s) pid (omega (arith, (demote-Inv s v).size, b.inside)))))
      | no ne ↦ inr (
          rw e (
            get_or-set_ne (demote s).process_table pid j _ zero_process ne ∙ same,
            timer_ticks-demote s,
            λ z.
                rw (last_rr_pid-demote s) at
                  (nearer (demote s) j pid (demote-Inv s v).turn_in h (rw same r) (rw same z) b ne),
          ))
    ]
