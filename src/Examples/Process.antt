-- ===== src/Examples/Process.antt =====
-- The theorems on processes, system calls, traps and printing.
use lab_utilities.Base.{
  ℕ, ◌+◌, ◌^◌, ◌%◌, ◌==◌, ◌≡◌, ◌<◌, inl, refl, true, [], ◌∷◌, none, some, arith, length,
  if◌then◌else◌,
}
use lab_utilities.Memory.{move, load, load64, store64}
use lab_utilities.Machine.{ok, Cmd, acquired, released, proc_lock, tickslock}
use lab_utilities.Vm.Map.{Status, failed}
use lab_utilities.Proc.{Proc, World, runnable, sleeping, update}
use lab_utilities.Proc.Sched.{wakeup, sleep, sched, kill}
use lab_utilities.Proc.Sched.Wakeup.{sleep-wakeup}
use lab_utilities.Proc.Sched.Kill.{kill-Killed, Killed, find_pid}
use lab_utilities.Proc.Access.{getnprcs}
use lab_utilities.Proc.Count.{in_use, getnprcs-length}
use lab_utilities.Syscall.{
  dispatch, call_handler, fetchaddr, syscall, Table, lookup_handler, tf_arg, tf_a7,
}
use lab_utilities.Syscall.Dispatch.{fetchaddr-refuses}
use lab_utilities.Proc.Life.{trapframe_size, tf_epc}
use lab_utilities.Trap.{alarm_tick, sys_sigreturn}
use lab_utilities.Trap.Alarm.{alarm_restores, Handling}
use lab_utilities.Examples.{sample, booted, shell, zeroed}

-- A process that has gone to sleep on channel 300 while it held tickslock.
abbrev asleep : World
asleep = record booted {
  machine = record booted.machine { trace = released tickslock ∷ acquired (proc_lock 0) ∷ [] };
  procs = update booted.procs 0 (λ p. record p { chan = 300; state = sleeping });
}

falls_asleep : sleep 0 300 tickslock booted ≡ ok 0 asleep
unfolding sleep sched update
falls_asleep = refl

sleep-wakeup_example :
    (t : World) × (wakeup sample 300 asleep ≡ ok tt t) × ((t.procs 0).state ≡ runnable)
sleep-wakeup_example =
    sleep-wakeup sample 0 300 0 tickslock booted asleep asleep (omega arith) falls_asleep refl refl

kill-Killed_example :
    (r : Status) × (v : World) × (kill sample 1 booted ≡ ok r v)
    × Killed booted (find_pid booted.procs 1 3 0) r v
    × (v.machine.mem ≡ zeroed)
kill-Killed_example = kill-Killed sample 1 booted

-- Each process gives up the CPU at once and goes to sleep; the second version differs where a process
-- is not the current one.
abbrev dozes : ℕ → Cmd World (Unit {0})
dozes i w = ok tt (record w { procs = update w.procs i (λ q. record q { state = sleeping }) })

abbrev resets : ℕ → Cmd World (Unit {0})
resets i w =
    ok tt
      (record w { current = some i; procs = update w.procs i (λ q. record q { state = sleeping }) })

-- Every process can run, and none does.
abbrev waiting : World
waiting = record booted { procs = λ k. record shell { state = runnable }; current = none }

fetchaddr-refuses_example : fetchaddr 0 4090 0 booted ≡ ok failed booted
fetchaddr-refuses_example =
    fetchaddr-refuses 0 4090 0 booted (omega arith) (omega arith) (omega arith)

-- The world after the timer interrupt that calls the handler.
abbrev interrupted : World
interrupted = record booted {
  machine = record booted.machine {
    mem = store64 (move zeroed 8192 4096 trapframe_size) (4096 + tf_epc) 64;
  };
  procs =
      update (update booted.procs 0 (λ p. record p { ticks = (p.ticks + 1) % 2 ^ 32 })) 0
        (λ q. record q { hfl = 1 });
}

interrupts : alarm_tick 0 booted ≡ ok tt interrupted
unfolding alarm_tick update
interrupts = refl

handles : Handling 0 booted interrupted interrupted
unfolding update
handles = record { trapframe = refl; trapframesv = refl; kept = λ x h. refl }

alarm_restores_example :
    (a : ℕ) × (t : World) × (sys_sigreturn 0 interrupted ≡ ok a t)
    × ((x : ℕ) → x < trapframe_size → t.machine.mem (4096 + x) ≡ zeroed (4096 + x))
    × (a ≡ load64 zeroed (4096 + tf_arg 0))
    × ((t.procs 0).hfl ≡ 0)
alarm_restores_example =
    alarm_restores 0 booted interrupted interrupted refl (inl (omega arith)) interrupts handles

-- A call of number 1, which returns 7.
abbrev calling : World
calling = record booted {
  machine = record booted.machine { mem = λ x. if x == 4264 then 1 else 0 };
}

abbrev seven : Cmd World ℕ
seven w = ok 7 w

abbrev sevens : Table
sevens = record { handler = λ n. some seven; name = λ n. []; proc_name = λ n. n; locking = true }

finds : lookup_handler sevens (load64 calling.machine.mem (4096 + tf_a7) % 2 ^ 32) ≡ some seven
unfolding lookup_handler load
finds = refl

calls :
    syscall sevens 0 calling
    ≡ ok tt (record calling {
      machine = record calling.machine { mem = store64 calling.machine.mem (4096 + tf_arg 0) 7 };
    })
unfolding syscall dispatch call_handler load
calls = rw finds refl

getnprcs-length_example : getnprcs sample booted ≡ ok (length (in_use booted.procs 3 0)) booted
getnprcs-length_example = getnprcs-length sample booted
