-- ===== src/Vm/Spaces/Clearing.antt =====
-- What the calls and rounds of freewalk of vm.c leave of the tables of a space and of everything else.
use lab_utilities.Base.{
  ℕ, ◌+◌, ◌*◌, ◌%◌, ◌<◌, ◌≡◌, ◌≢◌, ◌⊎◌, inl, inr, sym, ap, subst, ◌∙◌, Bool-cases, true, false,
  arith, List, [], ◌∷◌, has, ==_ne, ==_refl, ℕ_discrete,
}
use lab_utilities.Memory.{Mem, store64}
use lab_utilities.Memory.Laws.{load-Agree, store-SameOutside}
use lab_utilities.Layout.{Layout, IsLayout}
use lab_utilities.Machine.{Machine}
use lab_utilities.Kalloc.FreeList.{IsPage, Chain, Chain-frame, Frees}
use lab_utilities.Vm.Walk.Link.{page_of}
use lab_utilities.Vm.Spaces.{free, table, other, Roles, set_role, entry_in, Under}
use lab_utilities.Vm.Spaces.Same.{entry-SameOutside, entry-store_other}
use lab_utilities.Vm.Spaces.Below.{Under-KeepsOn}

-- The pages of physical memory, while the space `r` is taken apart: what is known of the others.
pub record Rest (l : Layout) (s : Machine) (own : Roles) (ps : List ℕ) (r : ℕ) : Type 0 where
  pub chain : Chain l s.mem s.freelist ps
  pub free : (p : ℕ) → has p ps ≡ true → own p ≡ free
  pub pages : (p : ℕ) → own p ≢ other → IsPage l p
  pub spaces : (r' : ℕ) → r' ≢ r → own r' ≡ table r' [] → Under own s.mem 2 r' [] r'

-- Some tables of the space `r` have been put on the free list `ps`: all that `gone` names, and only
-- those with a path in `part`. All bytes are kept of the pages in use that `keep` names.
pub record Clears (l : Layout) (s : Machine) (own : Roles) (ps : List ℕ) (r : ℕ)
    (part : List ℕ → Type 0) (keep gone : ℕ → Type 0) (t : Machine) : Type 0 where
  pub after : Roles
  pub left : List ℕ
  pub rest : Rest l t after left r
  pub roles :
      (y : ℕ)
      → (after y ≡ own y) ⊎ ((after y ≡ free) × ((p : List ℕ) × (own y ≡ table r p) × part p))
  pub bytes : (a : ℕ) → after (page_of a) ≢ free → keep (page_of a) → t.mem a ≡ s.mem a
  pub more : (y : ℕ) → has y ps ≡ true → has y left ≡ true
  pub freed : (y : ℕ) → gone y → has y left ≡ true

pub entry-bytes :
    (m g : Mem) (x j : ℕ)
    → x % 4096 ≡ 0
    → j < 512
    → ((a : ℕ) → page_of a ≡ x → g a ≡ m a)
    → entry_in g x j ≡ entry_in m x j
entry-bytes m g x j al low same =
    load-Agree m g 8 (x + 8 * j) (λ a p q. same a (omega (arith, al, low, p, q)))

pub table-path : (r r' : ℕ) (p q : List ℕ) → table r p ≡ table r' q → p ≡ q
table-path r r' p q e = cc e

pub table-root : (r r' : ℕ) (p q : List ℕ) → table r p ≡ table r' q → r ≡ r'
table-root r r' p q e = cc e

-- The spaces with another root.
abbrev pub Others : ℕ → ℕ → List ℕ → Type 0
Others r r' path = r' ≢ r

module _ {l : Layout} (is : IsLayout l) (s : Machine) (own : Roles) (ps : List ℕ) (r x : ℕ)
    (path : List ℕ) (p : Rest l s own ps r) (role : own x ≡ table r path) where
  pub x-IsPage : IsPage l x
  x-IsPage = p.pages x (λ z. cc (z, role))

  pub x-unlisted : has x ps ≡ false
  x-unlisted = elim (Bool-cases (has x ps)) [
    | inl there ↦ absurd (cc (p.free x there, role))
    | inr gone ↦ gone
  ]

  -- A table with another root is another page.
  apart : (y r' : ℕ) (q : List ℕ) → r' ≢ r → own y ≡ table r' q → y ≢ x
  apart y r' q ne e z = ne (table-root r' r q path (sym e ∙ ap own z ∙ role))

  -- An entry of the table `x` cleared.
  module _ (i : ℕ) (low : i < 512) where
    abbrev pub entry_cleared : Machine
    entry_cleared = record s { mem = store64 s.mem (x + 8 * i) 0 }

    pub Rest-entry : Rest l entry_cleared own ps r
    Rest-entry = record {
      chain =
          Chain-frame is s.mem entry_cleared.mem x s.freelist ps x-IsPage.0 x-unlisted
            (λ a h. store-SameOutside 8 (x + 8 * i) 0 s.mem a (omega (arith, low, x-IsPage, h)))
            p.chain;
      free = p.free;
      pages = p.pages;
      spaces = λ r' ne e.
          Under-KeepsOn (Others r) own own s.mem entry_cleared.mem
            (record {
              closed = λ r'' j path' h. h;
              roles = λ y r'' q h e'. e';
              entries = λ y j r'' q h e' low'.
                  entry-store_other s.mem x i y j 0 x-IsPage.0 (p.pages y (λ z. cc (z, e'))).0 low
                    low' (inl (apart y r'' q h e'));
            })
            2 r' [] r' ne e (p.spaces r' ne e);
    }

  -- The table `x` freed.
  module _ (t : Machine) (f : Frees is s x ps t) where
    abbrev pub own_freed : Roles
    own_freed = set_role own x free

    pub kept_role : (y : ℕ) → x ≢ y → own_freed y ≡ own y
    kept_role y ne = rw (==_ne x y ne)

    pub freed_role : own_freed x ≡ free
    freed_role = rw (==_refl x)

    pub Rest-freed : Rest l t own_freed (x ∷ ps) r
    Rest-freed = record {
      chain = f.chain;
      free = λ y h. elim (ℕ_discrete x y) [
        | yes here ↦ ap own_freed (sym here) ∙ freed_role
        | no away ↦ kept_role y away ∙ p.free y (ground arith)
      ];
      pages = λ y h. elim (ℕ_discrete x y) [
        | yes here ↦ subst (λ (z : ℕ). IsPage l z) here x-IsPage
        | no away ↦ p.pages y (λ e. h (kept_role y away ∙ e))
      ];
      spaces = λ r' ne e. elim (ℕ_discrete x r') [
        | yes here ↦ absurd (cc (ap own_freed here, freed_role, e))
        | no away ↦
            let e0 : own r' ≡ table r' [] = sym (kept_role r' away) ∙ e in
            Under-KeepsOn (Others r) own own_freed s.mem t.mem
              (record {
                closed = λ r'' j path' h. h;
                roles = λ y r'' q h e'. kept_role y (λ z. apart y r'' q h e' (sym z)) ∙ e';
                entries = λ y j r'' q h e' low'.
                    entry-SameOutside s.mem t.mem x y j f.same x-IsPage.0
                      (p.pages y (λ z. cc (z, e'))).0 (apart y r'' q h e') low';
              })
              2 r' [] r' ne e0 (p.spaces r' ne e0)
      ];
    }
