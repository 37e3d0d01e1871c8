-- ===== src/Examples/Pids.antt =====
-- The process ids over a few steps: the first process goes to sleep and is then killed.
use lab_utilities.Base.{◌≡◌, ◌==◌, refl, arith, [], ◌∷◌, if◌then◌else◌}
use lab_utilities.Machine.{ok, acquired, released, proc_lock, tickslock}
use lab_utilities.Vm.Map.{done}
use lab_utilities.Proc.{World, update, unused, sleeping}
use lab_utilities.Proc.Sched.{sleep, sched, kill, kill_loop, kill_proc}
use lab_utilities.Proc.Pids.{DistinctPids}
use lab_utilities.Proc.Pids.Reach.{
  Version, lab_of, sleeps, kills, Reach, here, next, Reach-DistinctPids,
}
use lab_utilities.Examples.{sample, booted, shell}

-- Entry 0 with id 1, the others not in use.
abbrev first_alone : World
first_alone = record booted {
  procs = λ k. if k == 0 then shell else record shell { pid = 0; state = unused };
}

first_alone-DistinctPids : DistinctPids first_alone.procs first_alone.nextpid
first_alone-DistinctPids = record {
  positive = omega arith;
  named = λ j used z. ground arith;
  below = λ j used. ground arith;
  distinct = λ j k used e. ground arith;
}

abbrev dozing : World
dozing = record first_alone {
  machine = record first_alone.machine { trace = released tickslock ∷ acquired (proc_lock 0) ∷ [] };
  procs = update first_alone.procs 0 (λ p. record p { chan = 300; state = sleeping });
}

dozes : sleep 0 300 tickslock first_alone ≡ ok 0 dozing
unfolding sleep sched update
dozes = refl

abbrev struck : World
struck = record dozing {
  machine = record dozing.machine {
    trace = released (proc_lock 0) ∷ acquired (proc_lock 0) ∷ dozing.machine.trace;
  };
  procs = update dozing.procs 0 kill_proc;
}

strikes : kill sample 1 dozing ≡ ok done struck
unfolding kill kill_loop update
strikes = refl

abbrev two_steps : Reach (lab_of Version.page_tables) sample first_alone struck
two_steps =
    next (next here (sleeps 0 300 0 tickslock first_alone dozing refl dozes))
      (kills 1 dozing struck done strikes)

Reach-DistinctPids_example : DistinctPids struck.procs struck.nextpid
Reach-DistinctPids_example =
    Reach-DistinctPids Version.page_tables sample two_steps ((tt, tt), tt) first_alone-DistinctPids
