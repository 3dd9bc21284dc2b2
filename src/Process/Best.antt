-- ===== src/Process/Best.antt =====
-- The choice of get_best_process of process.c.
use native.Mathlib.Decide.{ℕ_discrete}
use sistema_operativo.Prelude.{
  ℕ, zero, suc, ◌+◌, ◌-◌, ◌%◌, ◌≤◌, ◌<◌, ◌≡◌, refl, ◌⊎◌, ◌↔◌, List, [], ◌∷◌, length, get_or, arith,
  Bool, true, false, ◌&&◌, ◌==◌, if◌then◌else◌, ltb, Bool-cases, inl, inr, some,
}
use sistema_operativo.Process.Types.{
  Process, Procs, ready, slot, max_processes, zero_process, is_ready,
}
use sistema_operativo.Process.Tick.{best_priority, next_in_turn, get_best_process}
use sistema_operativo.Process.Slots.{Inv}

-- Slot `i` holds a READY process of priority `best`.
abbrev pub Matches : Procs → ℕ → ℕ → Type 0
Matches s best i = ((slot s i).state ≡ ready) × ((slot s i).priority ≡ best)

best_priority-le : (best : ℕ) (ps : List Process) → best_priority best ps ≤ best
unfolding best_priority
best_priority-le best [] = omega arith
best_priority-le best (p ∷ ps) =
    ground (arith, best_priority-le best ps, best_priority-le p.priority ps)

best_priority-least :
    (best : ℕ) (ps : List Process) (i : ℕ)
    → (get_or ps i zero_process).state ≡ ready
    → best_priority best ps ≤ (get_or ps i zero_process).priority
unfolding best_priority
best_priority-least best [] i h = cc
best_priority-least best (p ∷ ps) zero h =
    ground (arith, best_priority-le best ps, best_priority-le p.priority ps)
best_priority-least best (p ∷ ps) (suc i) h =
    best_priority-least (if is_ready p.state && ltb p.priority best then p.priority else best) ps i
      h

best_priority-found :
    (best : ℕ) (ps : List Process)
    → (best_priority best ps ≡ best)
      ⊎ ((i : ℕ) × (i < length ps)
          × ((get_or ps i zero_process).state ≡ ready)
          × ((get_or ps i zero_process).priority ≡ best_priority best ps))
unfolding best_priority
best_priority-found best [] = inl refl
best_priority-found best (p ∷ ps) =
    found_or (
      best_priority-found (if is_ready p.state && ltb p.priority best then p.priority else best) ps)
  where
    found_or :
        (best_priority (if is_ready p.state && ltb p.priority best then p.priority else best) ps
            ≡ (if is_ready p.state && ltb p.priority best then p.priority else best))
          ⊎ ((i : ℕ) × (i < length ps)
              × ((get_or ps i zero_process).state ≡ ready)
              × ((get_or ps i zero_process).priority
                  ≡ best_priority
                      (if is_ready p.state && ltb p.priority best then p.priority else best)
                      ps))
        → (best_priority best (p ∷ ps) ≡ best)
          ⊎ ((i : ℕ) × (i < length (p ∷ ps))
              × ((get_or (p ∷ ps) i zero_process).state ≡ ready)
              × ((get_or (p ∷ ps) i zero_process).priority ≡ best_priority best (p ∷ ps)))
    found_or (inr (i, a, b, c)) = inr (suc i, omega arith, b, c)
    found_or (inl e) = elim (Bool-cases (is_ready p.state && ltb p.priority best)) [
      | inl t ↦ inr (zero, omega arith, ground arith, ground arith)
      | inr f ↦ inl (ground arith)
    ]

matches_iff :
    (s : Procs) (best i : ℕ)
    → ((is_ready (slot s i).state && ((slot s i).priority == best)) ≡ true) ↔ Matches s best i
matches_iff s best i = ground arith

-- The slot that is `d` steps after the last one that had its turn.
abbrev pub turn : Procs → ℕ → ℕ
turn s d = (s.last_rr_pid + d) % max_processes

-- The first match from `step` on is `d` steps away.
record FirstMatch (s : Procs) (best step pid : ℕ) : Type 0 where
  d : ℕ
  from_step : step ≤ d
  at_turn : pid ≡ turn s d
  found : Matches s best pid
  first : (k : ℕ) → step ≤ k → k < d → ¬ Matches s best (turn s k)

FirstMatch-here :
    (s : Procs) (best step : ℕ)
    → Matches s best (turn s step)
    → FirstMatch s best step (turn s step)
FirstMatch-here s best step h = record {
  d = step;
  from_step = omega arith;
  at_turn = refl;
  found = h;
  first = λ k a b. absurd (omega arith);
}

FirstMatch-later :
    (s : Procs) (best step pid : ℕ)
    → ¬ Matches s best (turn s step)
    → FirstMatch s best (step + 1) pid
    → FirstMatch s best step pid
FirstMatch-later s best step pid no_match m = record {
  d = m.d;
  from_step = omega (arith, m.from_step);
  at_turn = m.at_turn;
  found = m.found;
  first = λ k a b. elim (ℕ_discrete k step) [
    | yes e ↦ rw e no_match
    | no ne ↦ m.first k (omega arith) b
  ];
}

-- What the loop finds in `n` rounds from `step` on.
abbrev Finds : Procs → ℕ → ℕ → ℕ → Type 0
Finds s best n step =
    (pid : ℕ) × (next_in_turn n step best s ≡ some pid) × FirstMatch s best step pid

-- The test of one round.
abbrev test : Procs → ℕ → ℕ → Bool
test s best i = is_ready (slot s i).state && ((slot s i).priority == best)

Finds-here :
    (s : Procs) (best n step : ℕ) → test s best (turn s step) ≡ true → Finds s best (suc n) step
unfolding next_in_turn
Finds-here s best n step t =
    (turn s step, rw t, FirstMatch-here s best step ((matches_iff s best (turn s step)).0 t))

Finds-later :
    (s : Procs) (best n step : ℕ)
    → test s best (turn s step) ≡ false
    → Finds s best n (step + 1)
    → Finds s best (suc n) step
unfolding next_in_turn
Finds-later s best n step f (pid, e, m) = (
  pid,
  rw f e,
  FirstMatch-later s best step pid (λ h. ground (arith, (matches_iff s best (turn s step)).1 h)) m,
)

-- Where a match is at most `n` steps ahead, the loop finds the first one.
next_in_turn-Finds :
    (n step best : ℕ) (s : Procs) (k : ℕ)
    → step ≤ k
    → k < step + n
    → Matches s best (turn s k)
    → Finds s best n step
next_in_turn-Finds zero step best s k a b m = absurd (omega arith)
next_in_turn-Finds (suc n) step best s k a b m = elim (Bool-cases (test s best (turn s step))) [
  | inl t ↦ Finds-here s best n step t
  | inr f ↦ elim (ℕ_discrete k step) [
    | yes e ↦ absurd (ground (arith, (matches_iff s best (turn s step)).1 (rw e at m)))
    | no ne ↦
        Finds-later s best n step f
          (next_in_turn-Finds n (step + 1) best s k (omega arith) (omega arith) m)
  ]
]

-- The process is READY, no READY process has a lower priority number, and of those with the same
-- number it is the first in turn after the last one chosen.
pub record IsBest (s : Procs) (pid : ℕ) : Type 0 where
  pub inside : pid < max_processes
  pub can_run : (slot s pid).state ≡ ready
  pub least : (i : ℕ) → (slot s i).state ≡ ready → (slot s pid).priority ≤ (slot s i).priority
  pub distance : ℕ
  pub forward : 0 < distance
  pub in_turn : pid ≡ turn s distance
  pub first : (k : ℕ) → 0 < k → k < distance → ¬ Matches s (slot s pid).priority (turn s k)

-- How many steps after the last turn slot `i` has its turn.
abbrev pub steps_to : Procs → ℕ → ℕ
steps_to s i = if ltb s.last_rr_pid i then i - s.last_rr_pid else i + max_processes - s.last_rr_pid

pub turn-steps_to :
    (s : Procs) (i : ℕ)
    → s.last_rr_pid < max_processes
    → i < max_processes
    → (turn s (steps_to s i) ≡ i) × (1 ≤ steps_to s i) × (steps_to s i < 1 + max_processes)
turn-steps_to s i a b = ground arith

module _ (s : Procs) (i : ℕ) (v : Inv s) (h : i < max_processes)
    (r : (slot s i).state ≡ ready) where
  abbrev best : ℕ
  best = best_priority 10 s.process_table

  best-lt : best < 10
  best-lt = omega (arith, best_priority-least 10 s.process_table i r, (v.slots i h).prio)

  found_lem : (j : ℕ) × (j < max_processes) × Matches s best j
  found_lem = elim (best_priority-found 10 s.process_table) [
    | inl e ↦ absurd (omega (arith, best-lt))
    | inr (j, a, b, c) ↦ (j, omega (arith, v.size), (b, c))
  ]

  finds : Finds s best max_processes 1
  finds =
      let (j, a, m) = found_lem in
      let (e, lo, hi) = turn-steps_to s j v.turn_in a in
      next_in_turn-Finds max_processes 1 best s (steps_to s j) lo hi (rw e m)

  -- What the loop finds is the best process: its priority is the least one.
  FirstMatch-IsBest : (pid : ℕ) → FirstMatch s best 1 pid → IsBest s pid
  FirstMatch-IsBest pid m = record {
    inside = omega (arith, m.at_turn);
    can_run = m.found.0;
    least = λ j q. omega (arith, m.found.1, best_priority-least 10 s.process_table j q);
    distance = m.d;
    forward = omega (arith, m.from_step);
    in_turn = m.at_turn;
    first = λ k a b. rw (m.found.1) (m.first k a b);
  }

  -- If some process is READY, `get_best_process` returns one that is READY, of least priority
  -- number and first in turn, and notes its turn.
  pub get_best_process-IsBest :
      (pid : ℕ) × (get_best_process s ≡ (pid, record s { last_rr_pid = pid })) × IsBest s pid
  unfolding get_best_process
  get_best_process-IsBest =
      let (pid, e, m) = finds in (pid, ground (arith, e, best-lt), FirstMatch-IsBest pid m)
