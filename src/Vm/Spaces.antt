-- ===== src/Vm/Spaces.antt =====
-- The address spaces of the kernel's page allocator and of lab page tables/kernel/vm.c, all together:
-- which page of physical memory serves what, and what the page tables say.
pub mod Same
pub mod Link
pub mod Write
pub mod Grow
pub mod NewTable
pub mod Walk
pub mod Place
pub mod Leaf
pub mod Range
pub mod Rows
pub mod Map
pub mod Release
pub mod Gone
pub mod Unmap
pub mod Take
pub mod Below
pub mod Clearing
pub mod Rounds
pub mod Freewalk
pub mod Destroy
pub mod Size
pub mod Dealloc
pub mod Extend
pub mod OnePage
pub mod Restore
pub mod Step
pub mod Alloc
pub mod CopyRounds
pub mod Copied
use lab_utilities.Base.{
  ℕ, zero, suc, ◌+◌, ◌*◌, ◌<◌, ◌≡◌, ◌≢◌, true, List, [], ◌∷◌, has, length, ◌==◌, if◌then◌else◌,
}
use lab_utilities.Memory.{Mem, load64}
use lab_utilities.Riscv.{px, pte_v, flag_set, pte2pa}
use lab_utilities.Layout.{Layout}
use lab_utilities.Machine.{Machine}
use lab_utilities.Kalloc.FreeList.{IsPage, Chain}

-- What a page serves as: it is free; a page table of the space with the root `r`, reached from there
-- by the indices of `path`, the last one first; a page of memory in that space, with its number; or
-- none of these.
pub data Role : Type 0 where
  free : Role
  table : (r : ℕ) (path : List ℕ) → Role
  frame : (r number : ℕ) → Role
  other : Role

-- how far a table is from the root
abbrev pub role_depth : Role → ℕ
role_depth (table r path) = length path
role_depth role = 0

abbrev pub Roles : Type 0
Roles = ℕ → Role

abbrev pub set_role : Roles → ℕ → Role → Roles
set_role own q role p = if q == p then role else own p

-- an entry of the page table at `t`
abbrev pub entry_in : Mem → ℕ → ℕ → ℕ
entry_in m t i = load64 m (t + 8 * i)

-- The entry for `va` below the table `t` of a level, or 0 where a table on the way is missing.
unfoldable pub view : Mem → ℕ → ℕ → ℕ → ℕ
view m zero t va = entry_in m t (px 0 va)
view m (suc k) t va =
    let e = entry_in m t (px (suc k) va) in
    let below = view m k (pte2pa e) va in if flag_set pte_v e then below else 0

-- The level-0 table for `va` below the table `t` of a level, or 0.
unfoldable pub bottom : Mem → ℕ → ℕ → ℕ → ℕ
bottom m zero t va = t
bottom m (suc k) t va =
    let e = entry_in m t (px (suc k) va) in
    let below = bottom m k (pte2pa e) va in if flag_set pte_v e then below else 0

-- The path to it, in front of the path to `t`.
abbrev pub route : ℕ → ℕ → List ℕ → List ℕ
route zero va path = path
route (suc k) va path = route k va (px (suc k) va ∷ path)

-- An address space as a function from virtual addresses to entries.
abbrev pub space : Mem → ℕ → ℕ → ℕ
space m r va = view m 2 r va

-- The tables below the table `t` of a level have the roles that their place gives them.
abbrev pub Under : Roles → Mem → ℕ → ℕ → List ℕ → ℕ → Type 0
Under own m zero r path t = Unit {0}
Under own m (suc k) r path t =
    (i : ℕ)
    → i < 512
    → flag_set pte_v (entry_in m t i) ≡ true
    → (own (pte2pa (entry_in m t i)) ≡ table r (i ∷ path))
      × Under own m k r (i ∷ path) (pte2pa (entry_in m t i))

-- The pages of physical memory: those of the free list are free, and the tables of every address
-- space have their roles, so that no two spaces share a table and no table is used twice.
pub record Pages (l : Layout) (s : Machine) (own : Roles) (ps : List ℕ) : Type 0 where
  pub chain : Chain l s.mem s.freelist ps
  pub free : (p : ℕ) → has p ps ≡ true → own p ≡ free
  pub pages : (p : ℕ) → own p ≢ other → IsPage l p
  pub spaces : (r : ℕ) → own r ≡ table r [] → Under own s.mem 2 r [] r
