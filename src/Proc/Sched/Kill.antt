-- ===== src/Proc/Sched/Kill.antt =====
-- kill of lab page tables/kernel/proc.c.
use lab_utilities.Base.{
  ℕ, zero, suc, ◌+◌, ◌≡◌, ◌≢◌, refl, ◌∷◌, Option, none, some, ◌==◌, if◌then◌else◌, inl, inr,
  Bool-cases, ==_refl, ==_ne,
}
use lab_utilities.Layout.{Layout}
use lab_utilities.Machine.{ok, acquired, released, proc_lock}
use lab_utilities.Vm.Map.{Status, done, failed}
use lab_utilities.Proc.{sleeping, runnable, Proc, World, update, is_state}
use lab_utilities.Proc.Sched.{kill_loop, kill}

-- The first place from `i` on, among `n`, whose process has the pid.
unfoldable pub find_pid : (ℕ → Proc) → ℕ → ℕ → ℕ → Option ℕ
find_pid procs pid zero i = none
find_pid procs pid (suc n) i = if (procs i).pid == pid then some i else find_pid procs pid n (i + 1)

-- What kill makes of a table: the process found is marked, and made runnable if it sleeps.
abbrev pub marked : Proc → Proc
marked p = record p { killed = 1; state = if is_state p.state sleeping then runnable else p.state }

abbrev pub Killed : World → Option ℕ → Status → World → Type 0
Killed w none r v = (r ≡ failed) × (v.procs ≡ w.procs)
Killed w (some i) r v =
    (r ≡ done) × (v.procs i ≡ marked (w.procs i)) × ((j : ℕ) → i ≢ j → v.procs j ≡ w.procs j)

kill_loop-Killed :
    (pid n i : ℕ) (w : World)
    → (r : Status) × (v : World) × (kill_loop pid n i w ≡ ok r v)
      × Killed w (find_pid w.procs pid n i) r v
      × (v.machine.mem ≡ w.machine.mem)
unfolding kill_loop find_pid update
kill_loop-Killed pid zero i w = (failed, w, refl, (refl, refl), refl)
kill_loop-Killed pid (suc n) i w = elim (Bool-cases ((w.procs i).pid == pid)) [
  | inl hit ↦ (
    done,
    record w {
      machine = record w.machine {
        trace = released (proc_lock i) ∷ acquired (proc_lock i) ∷ w.machine.trace;
      };
      procs = update w.procs i marked;
    },
    rw hit,
    rw hit (refl, rw (==_refl i), λ j ne. rw (==_ne i j ne)),
    refl,
  )
  | inr miss ↦
      let (r, v, run, k, same) = kill_loop-Killed pid n (i + 1) (record w {
        machine = record w.machine {
          trace = released (proc_lock i) ∷ acquired (proc_lock i) ∷ w.machine.trace;
        };
      }) in
      (r, v, rw miss run, rw miss k, same)
]

-- kill always returns: 0 with exactly the first process of that pid marked and woken, or -1 with
-- the table as it was when there is none.
pub kill-Killed :
    (l : Layout) (pid : ℕ) (w : World)
    → (r : Status) × (v : World) × (kill l pid w ≡ ok r v)
      × Killed w (find_pid w.procs pid l.nproc 0) r v
      × (v.machine.mem ≡ w.machine.mem)
unfolding kill
kill-Killed l pid w = kill_loop-Killed pid l.nproc 0 w
