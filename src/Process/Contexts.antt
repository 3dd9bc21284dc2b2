-- ===== src/Process/Contexts.antt =====
-- The scheduler of process.c and the saved contexts.
use sistema_operativo.Prelude.{
  ℕ, zero, suc, ◌%◌, ◌≡◌, refl, ◌∙◌, List, [], ◌∷◌, map, get_or, set, arith, ◌==◌, if_ind,
}
use sistema_operativo.Process.Types.{
  Process, Procs, UserContext, slot, zero_process, is_ready, is_running,
}
use sistema_operativo.Process.Tick.{
  wake, reap, age, map_tail, tick_loops, demote, dispatch, get_best_process, reschedule,
  tick_processes,
}

abbrev context_at : List Process → ℕ → UserContext
context_at ps i = (get_or ps i zero_process).context

context-map :
    (f : Process → Process) (ps : List Process) (i : ℕ)
    → ((p : Process) → (f p).context ≡ p.context)
    → context_at (map f ps) i ≡ context_at ps i
context-map f [] i h = refl
context-map f (p ∷ ps) zero h = h p
context-map f (p ∷ ps) (suc i) h = context-map f ps i h

context-map_tail :
    (f : Process → Process) (ps : List Process) (i : ℕ)
    → ((p : Process) → (f p).context ≡ p.context)
    → context_at (map_tail f ps) i ≡ context_at ps i
context-map_tail f [] i h = refl
context-map_tail f (p ∷ ps) zero h = refl
context-map_tail f (p ∷ ps) (suc i) h = context-map f ps i h

context-set :
    (ps : List Process) (i j : ℕ) (p : Process)
    → p.context ≡ context_at ps i
    → context_at (set ps i p) j ≡ context_at ps j
context-set [] i j p h = refl
context-set (q ∷ ps) zero zero p h = h
context-set (q ∷ ps) zero (suc j) p h = refl
context-set (q ∷ ps) (suc i) zero p h = refl
context-set (q ∷ ps) (suc i) (suc j) p h = context-set ps i j p h

context-tick_loops : (s : Procs) (i : ℕ) → (slot (tick_loops s) i).context ≡ (slot s i).context
unfolding tick_loops
context-tick_loops s i =
    context-map_tail age _ i (λ p. ground arith)
    ∙ context-map_tail reap _ i (λ p. ground arith)
    ∙ context-map wake s.process_table i (λ p. ground arith)

-- `s` and `t` have the same saved contexts.
abbrev pub SameContexts : Procs → Procs → Type 0
SameContexts s t = (i : ℕ) → (slot t i).context ≡ (slot s i).context

context-demote : (s : Procs) → SameContexts s (demote s)
unfolding demote
context-demote s i =
    if_ind (λ (t : Procs). (slot t i).context ≡ (slot s i).context)
      (is_running (slot s s.current_pid).state)
      (λ _. context-set s.process_table s.current_pid i _ refl) λ _. refl

context-dispatch : (next : ℕ) (s : Procs) → SameContexts s (dispatch next s)
unfolding dispatch
context-dispatch next s i =
    if_ind (λ (t : Procs). (slot t i).context ≡ (slot s i).context) (is_ready (slot s next).state)
      (λ _. context-set s.process_table next i _ refl) λ _. refl

context-get_best_process : (s : Procs) → SameContexts s (get_best_process s).1
unfolding get_best_process
context-get_best_process s i = ground arith

context-reschedule : (s : Procs) → SameContexts s (reschedule s)
unfolding reschedule
context-reschedule s i =
    context-dispatch (get_best_process (demote s)).0 (get_best_process (demote s)).1 i
    ∙ context-get_best_process (demote s) i
    ∙ context-demote s i

-- A tick changes no saved context.
pub tick_processes-SameContexts : (s : Procs) → SameContexts s (tick_processes s)
unfolding tick_processes
tick_processes-SameContexts s i =
    if_ind (λ (t : Procs). (slot t i).context ≡ (slot s i).context)
      ((tick_loops s).timer_ticks % 10 == 0)
      (λ _. context-reschedule (tick_loops s) i ∙ context-tick_loops s i)
      λ _. context-tick_loops s i
