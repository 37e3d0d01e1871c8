-- ===== src/Proc/Life/Growing.antt =====
-- growproc of kernel/proc.c: the size of a process and the memory that its address space holds.
use lab_utilities.Base.{
  ℕ, ◌+◌, ◌-◌, ◌*◌, ◌%◌, ◌^◌, ◌<◌, ◌≤◌, ◌≡◌, ◌≢◌, ◌⊎◌, inl, inr, refl, sym, true, leb, ltb, arith,
  Bool-cases, List, [], if◌then◌else◌, ==_ne, ==_refl, ℕ_discrete, min, ltb→lt, lt→ltb, le→ltb,
}
use lab_utilities.Riscv.{u64, maxva, pte_w, sign_extend}
use lab_utilities.Layout.{Layout, IsLayout}
use lab_utilities.Machine.{Machine, ok}
use lab_utilities.Vm.Map.{Status, done, failed}
use lab_utilities.Vm.Space.{uvmalloc, uvmdealloc}
use lab_utilities.Vm.Walk.Link.{page_of}
use lab_utilities.Vm.Spaces.{table, frame, Roles, space, Pages}
use lab_utilities.Vm.Spaces.Grow.{holds_data}
use lab_utilities.Vm.Spaces.Place.{number}
use lab_utilities.Vm.Spaces.Size.{Holds}
use lab_utilities.Vm.Spaces.Dealloc.{pages_of, sign_extend_small, uvmdealloc-Shrunk}
use lab_utilities.Vm.Spaces.Alloc.{uvmalloc-Grew}
use lab_utilities.Proc.{World, update}
use lab_utilities.Proc.Life.{growproc}

-- The size after growproc(n) of `sz` bytes, with `n` an int in its 32-bit pattern: a negative `n` of
-- more than `sz` changes nothing.
abbrev pub resized : ℕ → ℕ → ℕ
resized sz n =
    if ltb n (2 ^ 31) then sz + n else if leb (2 ^ 32 - n) sz then sz - (2 ^ 32 - n) else sz

-- The world with another machine, and another size of process `i`.
abbrev pub with_size : World → ℕ → Machine → ℕ → World
with_size w i m size = record w {
  machine = m;
  procs = update w.procs i (λ q. record q { sz = size });
}

-- What growproc leaves of the address spaces: the size `size` is the one that the space of the
-- process holds, and below it nothing has changed, nor has any other space, and each page of data but
-- those that the process has given up serves as before and holds the same bytes.
pub record Sized (l : Layout) (s : Machine) (own : Roles) (pt sz size top : ℕ) (t : Machine)
    : Type 0 where
  pub after : Roles
  pub left : List ℕ
  pub pages : Pages l t after left
  pub tables : (x r : ℕ) (path : List ℕ) → own x ≡ table r path → after x ≡ table r path
  pub holds : Holds t after pt (pages_of size) top
  pub spaces :
      (r vb : ℕ)
      → own r ≡ table r []
      → vb < maxva
      → (r ≢ pt) ⊎ (number vb < min (pages_of sz) (pages_of size))
      → space t.mem r vb ≡ space s.mem r vb
  pub roles :
      (x : ℕ)
      → holds_data (own x) ≡ true
      → ((k : ℕ) → min (pages_of sz) (pages_of size) ≤ k → own x ≢ frame pt k)
      → after x ≡ own x
  pub bytes :
      (x : ℕ)
      → holds_data (own (page_of x)) ≡ true
      → ((k : ℕ) → min (pages_of sz) (pages_of size) ≤ k → own (page_of x) ≢ frame pt k)
      → t.mem x ≡ s.mem x

-- What growproc leaves: the process has the size that its space holds, every other process is as it was.
pub record Resized (l : Layout) (w : World) (own : Roles) (i n top : ℕ) (result : Status)
    (t : World) : Type 0 where
  pub sized :
      Sized l w.machine own ((w.procs i).pagetable) ((w.procs i).sz) ((t.procs i).sz) top t.machine
  pub same_table : (t.procs i).pagetable ≡ (w.procs i).pagetable
  pub others : (j : ℕ) → j ≢ i → t.procs j ≡ w.procs j
  pub outcome :
      ((result ≡ done) × ((t.procs i).sz ≡ resized ((w.procs i).sz) n))
      ⊎ ((result ≡ failed) × ((t.procs i).sz ≡ (w.procs i).sz))

module _ (l : Layout) (w : World) (i n : ℕ) where
  grown :
      (newsz size : ℕ) (m : Machine)
      → n ≢ 0
      → n < 2 ^ 31
      → u64 ((w.procs i).sz + sign_extend n) ≡ newsz
      → uvmalloc l ((w.procs i).pagetable) ((w.procs i).sz) newsz pte_w w.machine ≡ ok size m
      → size ≢ 0
      → growproc l i n w ≡ ok done (with_size w i m size)
  unfolding growproc
  grown newsz size m some_bytes small e run ne =
      rw (==_ne n 0 some_bytes, lt→ltb n (2 ^ 31) small, e, run, ==_ne size 0 ne) refl

  not_grown :
      (newsz : ℕ) (m : Machine)
      → n ≢ 0
      → n < 2 ^ 31
      → u64 ((w.procs i).sz + sign_extend n) ≡ newsz
      → uvmalloc l ((w.procs i).pagetable) ((w.procs i).sz) newsz pte_w w.machine ≡ ok 0 m
      → growproc l i n w ≡ ok failed (record w { machine = m })
  unfolding growproc
  not_grown newsz m some_bytes small e run =
      rw (==_ne n 0 some_bytes, lt→ltb n (2 ^ 31) small, e, run) refl

  shrunk :
      (newsz size : ℕ) (m : Machine)
      → 2 ^ 31 ≤ n
      → u64 ((w.procs i).sz + sign_extend n) ≡ newsz
      → uvmdealloc l ((w.procs i).pagetable) ((w.procs i).sz) newsz w.machine ≡ ok size m
      → growproc l i n w ≡ ok done (with_size w i m size)
  unfolding growproc
  shrunk newsz size m negative e run =
      rw (==_ne n 0 (omega (arith, negative)), le→ltb n (2 ^ 31) negative, e, run) refl

  Resized-with_size :
      (own : Roles) (top size : ℕ) (m : Machine)
      → size ≡ resized ((w.procs i).sz) n
      → Sized l w.machine own ((w.procs i).pagetable) ((w.procs i).sz) size top m
      → Resized l w own i n top done (with_size w i m size)
  unfolding update
  Resized-with_size own top size m e k = record {
    sized = rw (==_refl i) k;
    same_table = rw (==_refl i) refl;
    others = λ j ne. rw (==_ne i j (λ z. ne (sym z))) refl;
    outcome = inl (refl, rw (==_refl i) e);
  }

-- the two signs of an int
resized-positive : (sz n : ℕ) → n < 2 ^ 31 → sz + n ≡ resized sz n
resized-positive sz n small = rw (lt→ltb n (2 ^ 31) small) refl

min-resized :
    (sz n : ℕ)
    → 2 ^ 31 ≤ n
    → n < 2 ^ 32
    → sz < 2 ^ 39
    → min sz (u64 (sz + sign_extend n)) ≡ resized sz n
min-resized sz n negative int low =
    let whole : n % 2 ^ 32 ≡ n = omega (arith, int) in
    rw (whole, le→ltb n (2 ^ 31) negative)
      (elim (Bool-cases (leb (2 ^ 32 - n) sz)) [
        | inl more ↦
            let enough : 2 ^ 32 - n ≤ sz = ground arith in rw more (omega (arith, enough, int, low))
        | inr less ↦
            let few : sz < 2 ^ 32 - n = ground arith in rw less (omega (arith, few, int, low))
      ])

module _ {l : Layout} (is : IsLayout l) (i n top : ℕ) (w : World) (own : Roles) (ps : List ℕ)
    (fits : top * 4096 ≤ maxva) (int : n < 2 ^ 32) (low : (w.procs i).sz ≤ top * 4096)
    (p : Pages l w.machine own ps)
    (root : own ((w.procs i).pagetable) ≡ table ((w.procs i).pagetable) [])
    (h : Holds w.machine own ((w.procs i).pagetable) (pages_of ((w.procs i).sz)) top) where
  abbrev pt : ℕ
  pt = (w.procs i).pagetable

  abbrev sz : ℕ
  sz = (w.procs i).sz

  abbrev Returns : Type 0
  Returns =
      (result : Status) × (t : World) × (growproc l i n w ≡ ok result t)
      × Resized l w own i n top result t

  Returns-positive : n ≢ 0 → n < 2 ^ 31 → sz + n ≤ top * 4096 → Returns
  Returns-positive some_bytes small room =
      let (m, ends) =
        uvmalloc-Grew is pt sz (sz + n) pte_w top w.machine own ps (omega arith) (omega arith) fits
          room (omega arith) p root h in
      let same = sign_extend_small n small in
      let next : u64 (sz + sign_extend n) ≡ sz + n = rw same (omega (arith, room, fits)) in
      elim ends [
        | inl (run, g) ↦ (
          done,
          with_size w i m (sz + n),
          grown l w i n (sz + n) (sz + n) m some_bytes small next run (omega (arith, some_bytes)),
          Resized-with_size l w i n own top (sz + n) m (resized-positive sz n small) (record {
            after = g.after;
            left = g.left;
            pages = g.pages;
            tables = g.tables;
            holds = g.holds;
            spaces = λ r vb e below apart.
                g.spaces r vb e below
                  (elim apart [ inl a ↦ inl a | inr b ↦ inr (inl (omega (arith, b))) ]);
            roles = λ x d away. g.roles x d;
            bytes = λ x d away. g.bytes x d;
          }),
        )
        | inr (run, g, _) ↦ (
          failed,
          record w { machine = m },
          not_grown l w i n (sz + n) m some_bytes small next run,
          record {
            sized = record {
              after = g.after;
              left = g.left;
              pages = g.pages;
              tables = g.tables;
              holds = g.holds;
              spaces = λ r vb e below apart.
                  g.spaces r vb e below
                    (elim apart [ inl a ↦ inl a | inr b ↦ inr (inl (omega (arith, b))) ]);
              roles = λ x d away. g.roles x d;
              bytes = λ x d away. g.bytes x d;
            };
            same_table = refl;
            others = λ j ne. refl;
            outcome = inr (refl, refl);
          },
        )
      ]

  Returns-negative : 2 ^ 31 ≤ n → Returns
  Returns-negative negative =
      let newsz : ℕ = u64 (sz + sign_extend n) in
      let (m, run, k) = uvmdealloc-Shrunk is pt sz newsz top w.machine own ps fits low p root h in
      let size : min sz newsz ≡ resized sz n =
        min-resized sz n negative int (omega (arith, low, fits)) in
      (
        done,
        with_size w i m (min sz newsz),
        shrunk l w i n newsz (min sz newsz) m negative refl run,
        Resized-with_size l w i n own top (min sz newsz) m size (record {
          after = k.after;
          left = k.left;
          pages = k.pages;
          tables = k.tables;
          holds = k.holds;
          spaces = λ r vb e below apart.
              k.spaces r vb e below
                (elim apart [ inl a ↦ inl a | inr b ↦ inr (inl (omega (arith, b))) ]);
          roles = λ x d away. k.roles x d (λ j high. away j (omega (arith, high)));
          bytes = λ x d away. k.bytes x d (λ j high. away j (omega (arith, high)));
        }),
      )

  Returns-nothing : n ≡ 0 → Returns
  unfolding growproc
  Returns-nothing none =
      let same : resized sz n ≡ sz = rw none (omega arith) in
      (
        done,
        w,
        rw none refl,
        record {
          sized = record {
            after = own;
            left = ps;
            pages = p;
            tables = λ x r path e. e;
            holds = h;
            spaces = λ r vb e below apart. refl;
            roles = λ x d away. refl;
            bytes = λ x d away. refl;
          };
          same_table = refl;
          others = λ j ne. refl;
          outcome = inl (refl, sym same);
        },
      )

  -- growproc(n), where the process has the size that its space holds and the new size is within the
  -- range, returns and leaves a process that has the size that its space holds, each page of memory
  -- with one purpose, and every other space and every page below both sizes as before; every page of
  -- data that is not one of those given up keeps its purpose and its bytes. It is done, and
  -- the size has grown by n, or shrunk by -n unless that is more than all, or it has failed, and the
  -- size is the same.
  pub growproc-Resized : resized sz n ≤ top * 4096 → Returns
  growproc-Resized room = elim (ℕ_discrete n 0) [
    | yes none ↦ Returns-nothing none
    | no some_bytes ↦ elim (Bool-cases (ltb n (2 ^ 31))) [
      | inl small ↦
          let positive = ltb→lt n (2 ^ 31) small in
          Returns-positive some_bytes positive (rw (resized-positive sz n positive) room)
      | inr large ↦ Returns-negative (ground arith)
    ]
  ]
