-- ===== src/Proc/Pids/Reach.antt =====
-- The processes of kernel/proc.c over any sequence of the operations on the table.
use lab_utilities.Base.{ℕ, ◌+◌, ◌^◌, ◌<◌, ◌≡◌, ◌≢◌, refl, ◌∙◌, Option}
use lab_utilities.Layout.{Layout}
use lab_utilities.Machine.{ok, Lock}
use lab_utilities.Vm.Map.{Status}
use lab_utilities.Proc.{World, update, runnable, running}
use lab_utilities.Proc.Alloc.{Lab}
use lab_utilities.Proc.Alloc.PageTables
use lab_utilities.Proc.Alloc.SystemCalls
use lab_utilities.Proc.Alloc.Traps
use lab_utilities.Proc.Sched.{sleep, yield, wakeup, kill}
use lab_utilities.Proc.Life.{Wait, fork, exit, wait, wait_round}
use lab_utilities.Proc.Pids.{DistinctPids, SamePids, Post-ok, DistinctPids-moves, DistinctPids-same}
use lab_utilities.Proc.Pids.Frees.{HasDistinctPids}
use lab_utilities.Proc.Pids.Labs.{IsLab, PageTables-IsLab, SystemCalls-IsLab, Traps-IsLab}
use lab_utilities.Proc.Pids.Life.{exit-keeps, fork-keeps, wait_round-keeps, wait-keeps}
use lab_utilities.Proc.Pids.Steps.{wakeup-keeps, kill-keeps, sleep-keeps, yield-keeps}

-- One operation on the table, up to where it returns or gives up the CPU; the scheduler's switch to a
-- process; or code that changes no id and no state. Process `i`, where it exits, waits, sleeps or
-- yields, is one that runs.
pub data Step (lab : Lab) (l : Layout) : World → World → Type 0 where
  forks : (i : ℕ) (w v : World) (r : Option ℕ) → fork lab l i w ≡ ok r v → Step lab l w v
  exits :
      (i status c : ℕ) (w v : World)
      → (w.procs i).state ≡ running
      → exit l i status w ≡ ok c v
      → Step lab l w v
  waits :
      (i addr : ℕ) (w v : World) (r : Wait)
      → (w.procs i).state ≡ running
      → wait lab l i addr w ≡ ok r v
      → Step lab l w v
  waits_on :
      (i addr : ℕ) (w v : World) (r : Wait)
      → (w.procs i).state ≡ running
      → wait_round lab l i addr w ≡ ok r v
      → Step lab l w v
  kills : (pid : ℕ) (w v : World) (r : Status) → kill l pid w ≡ ok r v → Step lab l w v
  wakes : (chan : ℕ) (w v : World) → wakeup l chan w ≡ ok tt v → Step lab l w v
  sleeps :
      (i chan c : ℕ) (lk : Lock) (w v : World)
      → (w.procs i).state ≡ running
      → sleep i chan lk w ≡ ok c v
      → Step lab l w v
  yields :
      (i c : ℕ) (w v : World) → (w.procs i).state ≡ running → yield i w ≡ ok c v → Step lab l w v
  switches :
      (i : ℕ) (w : World)
      → (w.procs i).state ≡ runnable
      → Step lab l w (record w { procs = update w.procs i (λ q. record q { state = running }) })
  elsewhere :
      (w v : World)
      → ((j : ℕ) → (v.procs j).pid ≡ (w.procs j).pid)
      → ((j : ℕ) → (v.procs j).state ≡ (w.procs j).state)
      → v.nextpid ≡ w.nextpid
      → Step lab l w v

pub data Reach (lab : Lab) (l : Layout) (s : World) : World → Type 0 where
  here : Reach lab l s s
  next : {t u : World} → Reach lab l s t → Step lab l t u → Reach lab l s u

-- A fork finds the next id below its bound, so that it does not wrap around.
abbrev pub Fits : {lab : Lab} {l : Layout} {w v : World} → Step lab l w v → Type 0
Fits (forks i w v r e) = w.nextpid + 1 < 2 ^ 32
Fits _ = Unit {0}

abbrev pub NoWrap : {lab : Lab} {l : Layout} {s t : World} → Reach lab l s t → Type 0
NoWrap here = Unit {0}
NoWrap (next r step) = NoWrap r × Fits step

running_named :
    (i : ℕ) (w : World)
    → (w.procs i).state ≡ running
    → DistinctPids w.procs w.nextpid
    → (w.procs i).pid ≢ 0
running_named i w live d = d.named i (λ z. cc (live, z))

Step-DistinctPids :
    {lab : Lab} {l : Layout} {w v : World}
    → IsLab l lab
    → (step : Step lab l w v) → Fits step
    → DistinctPids w.procs w.nextpid
    → DistinctPids v.procs v.nextpid
Step-DistinctPids {lab} {l} is (forks i w v r e) h d =
    Post-ok HasDistinctPids (fork lab l i w) r v (fork-keeps lab l i w is d h) e
Step-DistinctPids {lab} {l} is (exits i status c w v live e) h d =
    Post-ok HasDistinctPids (exit l i status w) c v
      (exit-keeps l i status w (running_named i w live d) d) e
Step-DistinctPids {lab} {l} is (waits i addr w v r live e) h d =
    Post-ok HasDistinctPids (wait lab l i addr w) r v
      (wait-keeps lab l i addr w is (running_named i w live d) d) e
Step-DistinctPids {lab} {l} is (waits_on i addr w v r live e) h d =
    Post-ok HasDistinctPids (wait_round lab l i addr w) r v
      (wait_round-keeps lab l i addr w is (running_named i w live d) d) e
Step-DistinctPids {lab} {l} is (kills pid w v r e) h d =
    Post-ok HasDistinctPids (kill l pid w) r v (kill-keeps l pid w d) e
Step-DistinctPids {lab} {l} is (wakes chan w v e) h d =
    (Post-ok (SamePids w) (wakeup l chan w) tt v (wakeup-keeps l chan w d) e).0
Step-DistinctPids {lab} {l} is (sleeps i chan c lk w v live e) h d =
    Post-ok HasDistinctPids (sleep i chan lk w) c v
      (sleep-keeps i chan lk w (running_named i w live d) d) e
Step-DistinctPids {lab} {l} is (yields i c w v live e) h d =
    Post-ok HasDistinctPids (yield i w) c v (yield-keeps i w (running_named i w live d) d) e
Step-DistinctPids {lab} {l} is (switches i w ready) h d =
    DistinctPids-moves w.procs i w.nextpid (λ q. record q { state = running }) (λ q. refl)
      (d.named i (λ z. cc (ready, z))) d
Step-DistinctPids {lab} {l} is (elsewhere w v ids states k) h d =
    rw k (DistinctPids-same w.procs v.procs w.nextpid ids (λ j live z. live (states j ∙ z)) d)

-- The three versions of kernel/proc.c.
pub data Version : Type 0 where
  page_tables : Version
  system_calls : Version
  traps : Version

abbrev pub lab_of : Version → Lab
lab_of page_tables = PageTables.page_tables
lab_of system_calls = SystemCalls.system_calls
lab_of traps = Traps.traps

lab_of-IsLab : (version : Version) (l : Layout) → IsLab l (lab_of version)
lab_of-IsLab page_tables l = PageTables-IsLab l
lab_of-IsLab system_calls l = SystemCalls-IsLab l
lab_of-IsLab traps l = Traps-IsLab l

kept :
    {lab : Lab} {l : Layout} {w v : World}
    → IsLab l lab
    → (r : Reach lab l w v) → NoWrap r
    → DistinctPids w.procs w.nextpid
    → DistinctPids v.procs v.nextpid
kept is here fits d = d
kept is (next r s) fits d = Step-DistinctPids is s fits.1 (kept is r fits.0 d)

-- From a table in which each entry in use has an id of its own, below the next one, as after boot, every
-- sequence of these steps, by any running processes and in any order, in which no fork finds the
-- next id at its bound, leads to such a table: every process in use has an id, which is not 0, and no
-- two have the same, in each of the three versions.
pub Reach-DistinctPids :
    (version : Version) (l : Layout) {w v : World}
    → (r : Reach (lab_of version) l w v) → NoWrap r
    → DistinctPids w.procs w.nextpid
    → DistinctPids v.procs v.nextpid
Reach-DistinctPids version l r fits d = kept (lab_of-IsLab version l) r fits d
