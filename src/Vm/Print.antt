-- ===== src/Vm/Print.antt =====
-- lab page tables/kernel/vm.c: vmprint and dfs.
use lab_utilities.Base.{
  ℕ, zero, suc, ◌+◌, ◌*◌, Bool, ◌&&◌, bit_or, bit_and, List, [], ◌∷◌, ◌==◌, if◌then◌else◌,
}
use lab_utilities.Riscv.{pte_v, pte_r, pte_w, pte_x, flag_set, pte2pa}
use lab_utilities.Machine.{Machine, Cmd, pure, diverge, ◌>>=◌, ◌>>◌, read64}
use lab_utilities.Printf.{int, ptr, printf}

abbrev dots : List ℕ
dots = b'.' ∷ b'.' ∷ []

abbrev more_dots : List ℕ
more_dots = b' ' ∷ b'.' ∷ b'.' ∷ []

abbrev entry_format : List ℕ
entry_format =
    b'%' ∷ b'd' ∷ b':' ∷ b' ' ∷ b'p' ∷ b't' ∷ b'e' ∷ b' ' ∷ b'%' ∷ b'p' ∷ b' ' ∷ b'p' ∷ b'a' ∷ b' '
    ∷ b'%' ∷ b'p' ∷ 10 ∷ []

abbrev table_format : List ℕ
table_format =
    b'p' ∷ b'a' ∷ b'g' ∷ b'e' ∷ b' ' ∷ b't' ∷ b'a' ∷ b'b' ∷ b'l' ∷ b'e' ∷ b' ' ∷ b'%' ∷ b'p' ∷ 10
    ∷ []

-- an entry that points to a lower-level page table
abbrev pub is_pointer : ℕ → Bool
is_pointer pte = flag_set pte_v pte && (bit_and pte (bit_or (bit_or pte_r pte_w) pte_x) == 0)

-- The loop that prints " .." for each level.
unfoldable pub print_dots : Bool → ℕ → Cmd Machine (Unit {0})
print_dots locking zero = pure tt
print_dots locking (suc level) = do printf locking more_dots []; print_dots locking level

-- The line for the entry in place `i`.
unfoldable pub print_entry : Bool → (level i pte : ℕ) → Cmd Machine (Unit {0})
print_entry locking level i pte = do
  printf locking dots []
  print_dots locking level
  printf locking entry_format (int i ∷ ptr pte ∷ ptr (pte2pa pte) ∷ [])

-- The loop of dfs over the `n` entries from place `i` on, with the recursive call given.
unfoldable pub dfs_loop :
    Bool → (ℕ → ℕ → Cmd Machine (Unit {0})) → (n pagetable level i : ℕ) → Cmd Machine (Unit {0})
dfs_loop locking child zero pagetable level i = pure tt
dfs_loop locking child (suc n) pagetable level i = do
  pte ← read64 (pagetable + 8 * i)
  (if is_pointer pte
      then (do print_entry locking level i pte; child (pte2pa pte) (level + 1))
      else if flag_set pte_v pte
      then print_entry locking level i pte
      else pure tt)
  dfs_loop locking child n pagetable level (i + 1)

-- dfs with a bound on its depth.
unfoldable pub dfs : Bool → (depth pagetable level : ℕ) → Cmd Machine (Unit {0})
dfs locking zero pagetable level = diverge
dfs locking (suc depth) pagetable level =
    dfs_loop locking (λ child next. dfs locking depth child next) 512 pagetable level 0

-- vmprint: Sv39 has three levels of tables.
unfoldable pub vmprint : Bool → ℕ → Cmd Machine (Unit {0})
unfolding dfs dfs_loop
vmprint locking pagetable = do
  printf locking table_format (ptr pagetable ∷ [])
  dfs locking 3 pagetable 0
