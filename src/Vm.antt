-- ===== src/Vm.antt =====
-- lab page tables/kernel/vm.c: Sv39 page tables, kept in physical memory, and the address spaces
-- made of them. `Vm.Walk` descends a table, `Vm.Map` adds and removes mappings, `Vm.Space` builds,
-- grows, copies and frees address spaces, `Vm.Copy` moves bytes between kernel and user memory,
-- `Vm.Kernel` makes the kernel's own table, and `Vm.Print` prints a table.
pub mod Walk
pub mod Map
pub mod Space
pub mod Copy
pub mod Spaces
pub mod Kernel
pub mod Print
