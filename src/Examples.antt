-- ===== src/Examples.antt =====
-- The theorems on a concrete machine: four pages of physical memory, all bytes zero, of which the
-- kernel holds page 0.
mod Memory
mod Copy
mod Process
mod Life
mod Find
mod Pids
mod Programs
mod Owners
mod Spaces
mod Bare
use lab_utilities.Base.{
  ◌==◌, if◌then◌else◌, ℕ, Bool, true, false, List, [], ◌∷◌, Option, none, some, arith, ◌*◌, ◌+◌,
  ◌<◌,
}
use lab_utilities.Memory.{Mem}
use lab_utilities.Layout.{Layout, IsLayout}
use lab_utilities.Kalloc.FreeList.{IsPage}
use lab_utilities.Machine.{Machine, ok}
use lab_utilities.Proc.{Proc, runnable, running, unused, Context, Cpu, World}

abbrev pub sample : Layout
sample = record {
  end = 4096;
  phystop = 16384;
  etext = 0;
  trampoline_text = 0;
  uart0 = 0;
  virtio0 = 0;
  plic = 0;
  kernbase = 0;
  trampoline = 0x3ffffff000;
  trapframe = 0x3fffffe000;
  usyscall = 0x3fffffd000;
  kstack = λ i. 0x3fffffc000;
  nproc = 3;
  nofile = 16;
  usyscall_pid = 0;
  proc_addr = λ i. 100 + i;
  xstate_addr = λ i. 200 + i;
  ticks_addr = 300;
  bitmask_addr = 400;
  sysinfo_addr = 500;
  sysinfo_freemem = 0;
  sysinfo_nproc = 8;
  sysinfo_size = 16;
  initcode_addr = 600;
  forkret = 700;
  usertrap = 800;
  uservec = 900;
  userret = 1000;
  kernelvec = 1100;
  uart0_irq = 10;
  virtio0_irq = 1;
  strlen = λ m a. 0;
  safestrcpy = λ dst src n. src;
  root_inode = 1;
  filedup = λ f. f;
  idup = λ f. f;
}

pub sample-IsLayout : IsLayout sample
sample-IsLayout = record {
  above_null = omega arith;
  whole_pages = omega arith;
  small = omega arith;
  counted = omega arith;
}

-- The bounds of an xv6 machine with 128 MB of memory at KERNBASE.
abbrev machine_size : Layout
machine_size = record sample { end = 0x80022000; kernbase = 0x80000000; phystop = 0x88000000 }

machine_size-IsLayout : IsLayout machine_size
machine_size-IsLayout = record {
  above_null = omega arith;
  whole_pages = omega arith;
  small = omega arith;
  counted = omega arith;
}

last_page : IsPage machine_size 0x87fff000
last_page = (omega arith, omega arith, omega arith)

abbrev pub zeroed : Mem
zeroed x = 0

-- before kinit, and with page 1 as the only free page
abbrev pub unbooted : Machine
unbooted = record { mem = zeroed; freelist = 0; trace = [] }

abbrev pub one_free : Machine
one_free = record { mem = zeroed; freelist = 4096; trace = [] }

-- A page table at 20480, over the tables at 24576 and 28672, that maps page 0 of a user to page 2.
abbrev pub page_table : Mem
page_table x =
    if x == 20480
    then 1
    else if x == 20481
    then 24
    else if x == 24576
    then 1
    else if x == 24577
    then 28
    else if x == 28672
    then 23
    else if x == 28673
    then 8
    else 0

abbrev pub one_mapped : Machine
one_mapped = record { mem = page_table; freelist = 4096; trace = [] }

abbrev pub shell : Proc
shell = record {
  state = running;
  chan = 0;
  killed = 0;
  xstate = 0;
  pid = 1;
  parent = none;
  kstack = 0;
  sz = 4096;
  pagetable = 8192;
  trapframe = 4096;
  context = record { ra = 0; sp = 0; saved = [] };
  ofile = [];
  cwd = 1;
  name = [];
  usysro = 0;
  mask = 0;
  ticks = 1;
  ainterv = 2;
  handler = 64;
  trapframesv = 8192;
  hfl = 0;
}

abbrev pub booted : World
booted = record {
  machine = unbooted;
  procs = λ i. shell;
  nextpid = 2;
  initproc = some 0;
  current = none;
  cpu = record { holding = true; noff = 1; intr = false; intena = 0 };
  first = false;
  clock = 0;
}
