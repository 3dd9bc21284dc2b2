-- ===== src/Servers/Kept.antt =====
-- The commands of servers.c against the session, the names of the servers and the snapshots.
use native.Mathlib.Decide.{ℕ_discrete}
use sistema_operativo.Prelude.{
  ℕ, ◌<◌, ◌≡◌, refl, ◌∙◌, false, List, [], ◌∷◌, get_or, write_at, get_or-write_at_self,
  get_or-write_at_ne, length, subst,
}
use sistema_operativo.Utils.{CStr, streq}
use sistema_operativo.Servers.Types.{
  ServerService, Volume, Servers, no_service, no_volume, volume, put_volume,
}
use sistema_operativo.Servers.Audit.{add_audit_log}
use sistema_operativo.Servers.Lookup.{find_server, find_from}
use sistema_operativo.Servers.Command.{Command, run, run_all, is_backup}
use sistema_operativo.Servers.Fits.{Change-snapshot}
use sistema_operativo.Servers.Search.{find_from-write_at}
use sistema_operativo.Servers.Steps.{Step, refused, served, stored, saved, run-Step}

-- The session, the names of the servers and the snapshots are as they were.
pub record Kept (s t : Servers) : Type 0 where
  pub role : t.current_role ≡ s.current_role
  pub session : t.session_authenticated ≡ s.session_authenticated
  pub names : (name : CStr) → find_server name t.table ≡ find_server name s.table
  pub snapshots : (i : ℕ) → (volume t i).snapshot ≡ (volume s i).snapshot

pub Kept-refl : (s : Servers) → Kept s s
Kept-refl s = record { role = refl; session = refl; names = λ n. refl; snapshots = λ i. refl }

pub Kept-trans : {s t u : Servers} → Kept s t → Kept t u → Kept s u
Kept-trans a b = record {
  role = b.role ∙ a.role;
  session = b.session ∙ a.session;
  names = λ n. b.names n ∙ a.names n;
  snapshots = λ i. b.snapshots i ∙ a.snapshots i;
}

-- A search by name does not see what a named entry holds beside its name.
find_from-name :
    (name : CStr) (k i : ℕ) (x : ServerService) (xs : List ServerService)
    → i < length xs
    → x.name ≡ (get_or xs i no_service).name
    → find_from (λ (y : ServerService). streq y.name name) k (write_at xs i x no_service)
      ≡ find_from (λ (y : ServerService). streq y.name name) k xs
find_from-name name k i x xs room e =
    find_from-write_at (λ (y : ServerService). streq y.name name) no_service k i x xs room (rw e)

snapshot-put_volume :
    (s : Servers) (i j : ℕ) (v : Volume)
    → v.snapshot ≡ (volume s i).snapshot
    → (volume (put_volume i v s) j).snapshot ≡ (volume s j).snapshot
snapshot-put_volume s i j v e = elim (ℕ_discrete i j) [
  | yes q ↦
      subst (λ n. (volume (put_volume i v s) n).snapshot ≡ (volume s n).snapshot) q
        (rw (get_or-write_at_self s.volumes i v no_volume) e)
  | no ne ↦ rw (get_or-write_at_ne s.volumes i j v no_volume ne)
]

Step-Kept : {s t : Servers} → Step false s t → Kept s t
unfolding add_audit_log find_server
Step-Kept {s} refused = Kept-refl s
Step-Kept {s} (served i x entry room e) = record {
  role = refl;
  session = refl;
  names = λ n. find_from-name n 0 i x s.table room e;
  snapshots = λ i. refl;
}
Step-Kept {s} (stored i v entry room e) = record {
  role = refl;
  session = refl;
  names = λ n. refl;
  snapshots = λ j. snapshot-put_volume s i j v (Change-snapshot e);
}
Step-Kept (saved i entry room e) = cc

abbrev pub NoBackup : List Command → Type 0
NoBackup [] = Unit
NoBackup (c ∷ cs) = (is_backup c ≡ false) × NoBackup cs

-- Commands other than backups keep the session, the names of the servers and every snapshot.
pub run_all-Kept : (cs : List Command) (s : Servers) → NoBackup cs → Kept s (run_all cs s)
unfolding run_all
run_all-Kept [] s h = Kept-refl s
run_all-Kept (c ∷ cs) s h =
    Kept-trans (Step-Kept (rw h.0 at (run-Step c s))) (run_all-Kept cs (run c s).0 h.1)
