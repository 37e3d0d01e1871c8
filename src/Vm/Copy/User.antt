-- ===== src/Vm/Copy/User.antt =====
-- The memory of a user as its addresses see it, for copyout and copyin of lab page tables/kernel/vm.c.
use lab_utilities.Base.{
  ℕ, ◌+◌, ◌-◌, ◌%◌, ◌≤◌, ◌<◌, ◌≡◌, ◌≢◌, sym, ap, ◌∙◌, true, false, ◌&&◌, leb, ltb, if◌then◌else◌,
  arith, List, has, ==_ne, lt→leb, ℕ_discrete,
}
use lab_utilities.Memory.{Mem, load64, move}
use lab_utilities.Memory.Laws.{move-SameOutside}
use lab_utilities.Riscv.{maxva, pte_v, pte_u, pte_w, flag_set, pte2pa}
use lab_utilities.Riscv.Entries.{pte2pa-aligned}
use lab_utilities.Vm.Walk.Descent.{descend, translate}
use lab_utilities.Vm.Walk.Link.{page_of, Clear}
use lab_utilities.Vm.Walk.Frame.{SameOff, load-SameOff, descend-SameOff, descend-Clear}

-- the byte that stands at an address of the user
abbrev pub user : Mem → ℕ → ℕ → ℕ
user m pt va = m (translate m pt (page_of va) + va % 4096)

abbrev pub entry : Mem → ℕ → ℕ → ℕ
entry m pt a = load64 m (descend m 2 pt a)

-- The page at `a` is mapped for the user, to one of the pages `ps`, which hold no page table.
pub record IsUserPage (m : Mem) (pt : ℕ) (ps : List ℕ) (a : ℕ) : Type 0 where
  pub clear : Clear m 2 pt a ps
  pub there : descend m 2 pt a ≢ 0
  pub valid : flag_set pte_v (entry m pt a) ≡ true
  pub user : flag_set pte_u (entry m pt a) ≡ true
  pub owned : has (pte2pa (entry m pt a)) ps ≡ true

pub translate-IsUserPage :
    (m : Mem) (pt a : ℕ) (ps : List ℕ)
    → a < maxva
    → IsUserPage m pt ps a
    → translate m pt a ≡ pte2pa (entry m pt a)
unfolding translate
translate-IsUserPage m pt a ps low p =
    rw (lt→leb maxva a low, ==_ne (descend m 2 pt a) 0 p.there, p.valid, p.user)

module _ (m g : Mem) (pt a : ℕ) (ps : List ℕ) (same : SameOff ps m g)
    (p : IsUserPage m pt ps a) where
  pub entry-SameOff : entry g pt a ≡ entry m pt a
  entry-SameOff =
      let (down, _) = descend-SameOff 2 pt a ps m g same p.clear in
      let (out, al) = descend-Clear 2 pt a ps m p.clear p.there in
      rw down (load-SameOff m g (descend m 2 pt a) ps same al out)

  pub IsUserPage-SameOff : IsUserPage g pt ps a
  IsUserPage-SameOff =
      let (down, clear) = descend-SameOff 2 pt a ps m g same p.clear in
      record {
        clear = clear;
        there = rw down p.there;
        valid = rw entry-SameOff p.valid;
        user = rw entry-SameOff p.user;
        owned = rw entry-SameOff p.owned;
      }

  pub translate-SameOff : a < maxva → translate g pt a ≡ translate m pt a
  translate-SameOff low =
      translate-IsUserPage g pt a ps low IsUserPage-SameOff
      ∙ ap pte2pa entry-SameOff
      ∙ sym (translate-IsUserPage m pt a ps low p)

-- The addresses from `lo` to `hi` are mapped for the user, page by page and to different pages.
pub record IsSpace (pt lo hi : ℕ) (ps : List ℕ) (m : Mem) : Type 0 where
  pub mapped : (a : ℕ) → a % 4096 ≡ 0 → lo ≤ a → a < hi → IsUserPage m pt ps a
  pub apart :
      (a b : ℕ)
      → a % 4096 ≡ 0
      → b % 4096 ≡ 0
      → lo ≤ a
      → a < hi
      → lo ≤ b
      → b < hi
      → translate m pt a ≡ translate m pt b
      → a ≡ b

-- ... and for writing
abbrev pub IsWritable : ℕ → ℕ → ℕ → Mem → Type 0
IsWritable pt lo hi m =
    (a : ℕ) → a % 4096 ≡ 0 → lo ≤ a → a < hi → flag_set pte_w (entry m pt a) ≡ true

-- A byte of the page `frame`, or of another page, after `n` bytes have been moved into `frame` from
-- its offset `o` on.
moved_here :
    (m : Mem) (frame a o src n va : ℕ)
    → page_of va ≡ a
    → o + n ≤ 4096
    → move m (frame + o) src n (frame + va % 4096) ≡ (
        if leb (a + o) va && ltb va (a + o + n)
        then m (src + (va - (a + o)))
        else m (frame + va % 4096))
unfolding move
moved_here m frame a o src n va e fits =
    let index : frame + va % 4096 - (frame + o) ≡ va - (a + o) = omega arith in
    rw index (ground arith)

moved_apart :
    (m : Mem) (frame other a o src n va : ℕ)
    → frame % 4096 ≡ 0
    → other % 4096 ≡ 0
    → frame ≢ other
    → page_of va ≢ a
    → a % 4096 ≡ 0
    → o + n ≤ 4096
    → move m (frame + o) src n (other + va % 4096) ≡ (
        if leb (a + o) va && ltb va (a + o + n)
        then m (src + (va - (a + o)))
        else m (other + va % 4096))
unfolding move
moved_apart m frame other a o src n va fal oal ne nva al fits =
    let away : (leb (frame + o) (other + va % 4096) && ltb (other + va % 4096) (frame + o + n))
        ≡ false =
      ground arith in
    let off : (leb (a + o) va && ltb va (a + o + n)) ≡ false = ground arith in rw (away, off)

module _ (pt lo hi : ℕ) (ps : List ℕ) (m : Mem) (bound : hi ≤ maxva)
    (space : IsSpace pt lo hi ps m) where
  pub frame-aligned :
      (a : ℕ)
      → a % 4096 ≡ 0
      → lo ≤ a
      → a < hi
      → (translate m pt a % 4096 ≡ 0) × (has (translate m pt a) ps ≡ true)
  frame-aligned a al low high =
      let p = space.mapped a al low high in
      let e = translate-IsUserPage m pt a ps (omega arith) p in
      (rw e (pte2pa-aligned (entry m pt a)), rw e p.owned)

  module _ (g : Mem) (same : SameOff ps m g) where
    pub IsSpace-SameOff : IsSpace pt lo hi ps g
    IsSpace-SameOff = record {
      mapped = λ a al low high. IsUserPage-SameOff m g pt a ps same (space.mapped a al low high);
      apart = λ a b ala alb loa hia lob hib e. space.apart a b ala alb loa hia lob hib (
          sym (translate-SameOff m g pt a ps same (space.mapped a ala loa hia) (omega arith))
          ∙ e
          ∙ translate-SameOff m g pt b ps same (space.mapped b alb lob hib) (omega arith));
    }

    pub IsWritable-SameOff : IsWritable pt lo hi m → IsWritable pt lo hi g
    IsWritable-SameOff h a al low high =
        rw (entry-SameOff m g pt a ps same (space.mapped a al low high)) (h a al low high)

  -- Bytes moved into one page of the user.
  module _ (a o src n : ℕ) (al : a % 4096 ≡ 0) (low : lo ≤ a) (high : a < hi)
      (fits : o + n ≤ 4096) where
    abbrev moved : Mem
    moved = move m (translate m pt a + o) src n

    pub move-SameOff : SameOff ps m moved
    move-SameOff x out =
        let (frame_al, owned) = frame-aligned a al low high in
        let e : page_of x ≢ translate m pt a =
          λ h. absurd (cc (ap (λ (y : ℕ). has y ps) h, owned, out)) in
        move-SameOutside m (translate m pt a + o) src n x (omega arith)

    pub user-move :
        (va : ℕ)
        → lo ≤ page_of va
        → va < hi
        → user moved pt va ≡ (
            if leb (a + o) va && ltb va (a + o + n) then m (src + (va - (a + o))) else user m pt va)
    user-move va l h =
        let (frame_al, owned) = frame-aligned a al low high in
        let (frame_al', owned') = frame-aligned (page_of va) (omega arith) l (omega arith) in
        let still : translate moved pt (page_of va) ≡ translate m pt (page_of va) =
          translate-SameOff m moved pt (page_of va) ps move-SameOff
            (space.mapped (page_of va) (omega arith) l (omega arith)) (omega arith) in
        rw still (elim (ℕ_discrete (page_of va) a) [
          | yes e ↦ rw e (moved_here m (translate m pt a) a o src n va e fits)
          | no ne ↦
              moved_apart m (translate m pt a) (translate m pt (page_of va)) a o src n va frame_al
                frame_al'
                (λ e.
                  ne (sym (space.apart a (page_of va) al (omega arith) low high l (omega arith) e)))
                ne al fits
        ])
