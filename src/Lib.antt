-- ===== src/Lib.antt =====
-- The kernel changes and user programs of the operating-system labs ("lab page tables", "lab system
-- calls", "lab traps", "lab utilities"): an xv6 kernel for RISC-V with a page allocator, Sv39 page
-- tables, a process table with a scheduler, system calls, traps and formatted output.
--
-- How the parts fit together, and which file models which (paths from the repository's root):
--
-- Memory is the byte-addressed memory, Machine the state below the process table: memory, the head of
-- the free list, and a trace of the calls of code that is elsewhere (spin locks, console, file system,
-- device drivers, control registers). A command ends with a result, with a panic, or out of fuel.
-- Layout holds the constants of memlayout.h, param.h and the linker script and what other code returns;
-- it is an argument, since those files are not part of the repository. IsLayout is what the allocator
-- needs of it, which xv6's layout has: pages from 0x80000000 on, PHYSTOP at 0x88000000.
--
-- Riscv: lab page tables/kernel/riscv.h (rounding, page-table entries, satp).
-- Kalloc: lab system calls/kernel/kalloc.c. Its free list is threaded through the free pages; Chain
--   reads it as a list of pages.
-- Vm: lab page tables/kernel/vm.c. Walk (walk, walkaddr), Map (mappages, kvmmap, uvmunmap), Space (the
--   uvm functions), Copy (copyout, copyin, copyinstr), Kernel (kvmmake, kvminit, kvminithart), Print
--   (vmprint). Tables come from Kalloc and stand in the same memory. translate reads a table as a
--   function from addresses. Spaces has all address spaces together: each page of memory has a role, and
--   the page tables say a function from roots and virtual addresses to entries, which the operations
--   change at the pages they are for. Its modules follow the calls: Walk, Map, Unmap, Alloc, Dealloc,
--   Copied, Destroy (freewalk); Size says which memory a space of a size holds, and Proc.Life.Growing relates it to the
--   size that a process has.
-- Printf: lab traps/kernel/printf.c, with panic and backtrace; text is a list of bytes, and each
--   consputc is an event.
-- Proc: kernel/proc.c and proc.h, of lab page tables where the labs agree; fork, trace, getnprcs and
--   sysinf are those of lab system calls. A process is an index into the table; Alloc, Life, Sched and
--   Access hold its operations. allocproc and freeproc differ in the three labs: Alloc has a module for
--   each, and the record Lab, which userinit, fork and wait take; Pids.Labs.IsLab states what they rely
--   on in such a record. A function that gives up the CPU is two commands: up to swtch (yield, sleep),
--   and from it on (yield_resume, sleep_resume). Pids.Reach takes the operations as the steps of a
--   relation on the table.
-- Syscall: lab system calls/kernel/syscall.c and sysproc.c. The table of handlers is an argument.
-- Trap: lab traps/kernel/trap.c, and sys_sigalarm, sys_sigreturn and sys_sleep (with its backtrace) of
--   lab traps/kernel/sysproc.c.
-- Primes: lab utilities/primes.c, the pipeline of filter processes, each as a function of the messages
--   it reads.
-- Pingpong: lab utilities/pingpong.c, its two processes as lists of calls that take turns in any order,
--   over pipes of which Queues.IsPipes says what is relied on.
-- Find: lab utilities/find.c over what the file system answers.
-- Xargs: lab utilities/xargs.c as a function of its input, with a list of the writes past the end of an
--   array.
-- Tools: lab utilities/sleep.c and lab system calls/user/trace.c.
--
-- Numbers: a uint64 is a natural number, its operations are reduced modulo 2 ^ 64 where they may wrap;
-- an int is its 32-bit pattern. Loops whose bound is not a count take fuel: freerange and getbytes one
-- round more than there are pages below PHYSTOP, copyout, copyin and copyinstr one round more than
-- bytes, mappages the number of pages, uvmunmap one more, uvmalloc and uvmcopy
-- two more than whole pages, freewalk the three levels of a table, printint 32, backtrace one round more than a
-- page has bytes; find takes the depth of its calls. Where the loop's end is proved below, the proof
-- shows that the fuel is enough.
--
-- Not modelled: spin locks and interrupts themselves (only their order in the trace), the file system,
-- the console and assembly code; the test programs sysinfotest.c and call.c; calls of fork in
-- primes.c that fail, and what writes past the end of an array do to other memory.
mod Base
pub mod Memory
pub mod Riscv
pub mod Machine
pub mod Layout
pub mod Kalloc
pub mod Vm
pub mod Printf
pub mod Proc
pub mod Syscall
pub mod Trap
pub mod Primes
pub mod Find
pub mod Pingpong
pub mod Xargs
pub mod Tools
mod Examples
