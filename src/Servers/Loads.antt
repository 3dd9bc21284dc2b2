-- ===== src/Servers/Loads.antt =====
-- The simulated load of server_tick in servers.c.
use sistema_operativo.Prelude.{
  ℕ, zero, suc, ◌+◌, ◌%◌, ◌≤◌, ◌<◌, ◌≡◌, refl, ◌∙◌, ◌⊎◌, inl, inr, true, false, List, [], ◌∷◌,
  length, get_or, arith, if◌then◌else◌, Bool-cases, ==_iff, ap,
}
use sistema_operativo.Utils.{CStr, str, streq}
use sistema_operativo.Servers.Types.{ServerService, Servers, service, no_service}
use sistema_operativo.Servers.Audit.{append_log}
use sistema_operativo.Servers.Tick.{
  next_load, tick_service, tick_from, serves_request, request_log, server_tick,
}

-- What one tick may make of a server: nothing of one that is stopped, and of one that runs only
-- another load, from 3 to 64.
abbrev pub IsTicked : ServerService → ServerService → Type 0
IsTicked x y =
    ((x.active ≡ false) × (y ≡ x))
    ⊎ ((x.active ≡ true)
        × (3 ≤ y.cpu_load)
        × (y.cpu_load < 65)
        × (y ≡ record x { cpu_load = y.cpu_load }))

next_load_bounds : (i load : ℕ) → (3 ≤ next_load i load) × (next_load i load < 60)
next_load_bounds i load = ground arith

tick_service-IsTicked : (i : ℕ) (x : ServerService) → IsTicked x (tick_service i x)
unfolding tick_service
tick_service-IsTicked i x =
    let (lo, hi) = next_load_bounds i x.cpu_load in
    elim (Bool-cases x.active) [
      | inl a ↦ elim (Bool-cases (streq x.name (str "apache"))) [
        | inl b ↦ rw (a, b) (inr (refl, omega (arith, lo, hi), omega (arith, lo, hi), refl))
        | inr b ↦ rw (a, b) (inr (refl, lo, omega (arith, hi), refl))
      ]
      | inr a ↦ rw a (inl (refl, refl))
    ]

tick_from_at :
    (t i : ℕ) (xs : List ServerService) (logs : List CStr) (k : ℕ)
    → k < length xs
    → get_or (tick_from t i xs logs).0 k no_service ≡ tick_service (i + k) (get_or xs k no_service)
unfolding tick_from
tick_from_at t i [] logs k h = absurd (omega arith)
tick_from_at t i (x ∷ xs) logs zero h = ap (λ j. tick_service j x) (omega arith)
tick_from_at t i (x ∷ xs) logs (suc k) h =
    tick_from_at t (i + 1) xs (if serves_request x then append_log (request_log t) logs else logs) k
      (omega arith)
    ∙ ap (λ j. tick_service j (get_or xs k no_service)) (omega arith)

-- At every hundredth tick each server that runs gets a load from 3 to 64 and keeps all else, and
-- each that is stopped stays as it is.
pub server_tick-IsTicked :
    (ticks : ℕ) (s : Servers) (i : ℕ)
    → ticks % 100 ≡ 0
    → i < length s.table
    → IsTicked (service s i) (service (server_tick ticks s).0 i)
unfolding server_tick
server_tick-IsTicked ticks s i h k =
    rw ((==_iff (ticks % 100) 0).1 h, tick_from_at ticks 0 s.table s.audit_logs i k)
      (tick_service-IsTicked (0 + i) (service s i))
