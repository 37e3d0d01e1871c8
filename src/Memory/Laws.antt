-- ===== src/Memory/Laws.antt =====
-- What a write to memory changes and what it leaves alone.
use native.Mathlib.Nat.{pow-suc}
use lab_utilities.Base.{ℕ, zero, suc, ◌+◌, ◌-◌, ◌/◌, ◌%◌, ◌^◌, ◌≤◌, ◌<◌, ◌≡◌, refl, ◌⊎◌, arith, ◌∙◌}
use lab_utilities.Memory.{Mem, update, load, store, fill, move, load64, store64}

-- Two memories hold the same bytes in the `n` places from `a` on.
abbrev pub Agree : ℕ → ℕ → Mem → Mem → Type 0
Agree a n m g = (x : ℕ) → a ≤ x → x < a + n → g x ≡ m x

-- Two memories hold the same bytes everywhere but in the `n` places from `a` on.
abbrev pub SameOutside : ℕ → ℕ → Mem → Mem → Type 0
SameOutside a n m g = (x : ℕ) → (x < a) ⊎ (a + n ≤ x) → g x ≡ m x

-- all bytes are below 256
abbrev pub IsBytes : Mem → Type 0
IsBytes m = (x : ℕ) → m x < 256

pub load-Agree : (m g : Mem) (n a : ℕ) → Agree a n m g → load g a n ≡ load m a n
unfolding load
load-Agree m g zero a h = refl
load-Agree m g (suc n) a h = omega (
  arith,
  h a (omega arith) (omega arith),
  load-Agree m g n (a + 1) (λ x p q. h x (omega arith) (omega arith)),
)

pub store-SameOutside : (n a v : ℕ) (m : Mem) → SameOutside a n m (store m a n v)
unfolding store update
store-SameOutside zero a v m x h = refl
store-SameOutside (suc n) a v m x h =
    store-SameOutside n (a + 1) (v / 256) (update m a (v % 256)) x (omega arith) ∙ ground arith

pub load-store_self : (n a v : ℕ) (m : Mem) → v < 256 ^ n → load (store m a n v) a n ≡ v
unfolding load store update
load-store_self zero a v m h = omega arith
load-store_self (suc n) a v m h = ground (
  arith,
  store-SameOutside n (a + 1) (v / 256) (update m a (v % 256)) a,
  pow-suc 256 n,
  load-store_self n (a + 1) (v / 256) (update m a (v % 256)) (omega (arith, pow-suc 256 n)),
)

pub load64-store64_self : (m : Mem) (a v : ℕ) → v < 2 ^ 64 → load64 (store64 m a v) a ≡ v
load64-store64_self m a v h = load-store_self 8 a v m (omega arith)

-- A value apart from the bytes written is unchanged.
pub load-store_apart :
    (m : Mem) (a k b n v : ℕ) → (a + k ≤ b) ⊎ (b + n ≤ a) → load (store m b n v) a k ≡ load m a k
load-store_apart m a k b n v h =
    load-Agree m (store m b n v) k a (λ x p q. store-SameOutside n b v m x (omega arith))

pub fill-SameOutside : (m : Mem) (a c n : ℕ) → SameOutside a n m (fill m a c n)
unfolding fill
fill-SameOutside m a c n x h = ground arith

pub move-SameOutside : (m : Mem) (dst src n : ℕ) → SameOutside dst n m (move m dst src n)
unfolding move
move-SameOutside m dst src n x h = ground arith

pub load-SameOutside :
    (m g : Mem) (a k b n : ℕ)
    → SameOutside b n m g
    → (a + k ≤ b) ⊎ (b + n ≤ a)
    → load g a k ≡ load m a k
load-SameOutside m g a k b n same h = load-Agree m g k a (λ x p q. same x (omega arith))

pub load-fill_zero : (n a b k : ℕ) (m : Mem) → b ≤ a → a + n ≤ b + k → load (fill m b 0 k) a n ≡ 0
unfolding load fill
load-fill_zero zero a b k m p q = refl
load-fill_zero (suc n) a b k m p q =
    ground (arith, load-fill_zero n (a + 1) b k m (omega arith) (omega arith))

pub store-IsBytes : (n a v : ℕ) (m : Mem) → IsBytes m → IsBytes (store m a n v)
unfolding store update
store-IsBytes zero a v m h = h
store-IsBytes (suc n) a v m h =
    store-IsBytes n (a + 1) (v / 256) (update m a (v % 256)) (λ x. ground (arith, h x))

pub fill-IsBytes : (m : Mem) (a c n : ℕ) → IsBytes m → IsBytes (fill m a c n)
unfolding fill
fill-IsBytes m a c n h x = ground (arith, h x)

pub move-IsBytes : (m : Mem) (d s n : ℕ) → IsBytes m → IsBytes (move m d s n)
unfolding move
move-IsBytes m d s n h x = ground (arith, h x, h (s + (x - d)))

pub load-lt : (n a : ℕ) (m : Mem) → IsBytes m → load m a n < 256 ^ n
unfolding load
load-lt zero a m h = omega arith
load-lt (suc n) a m h = omega (arith, h a, load-lt n (a + 1) m h, pow-suc 256 n)

pub fill-inside : (m : Mem) (a c n x : ℕ) → a ≤ x → x < a + n → fill m a c n x ≡ c % 256
unfolding fill
fill-inside m a c n x p q = ground arith

pub move-inside : (m : Mem) (dst src n i : ℕ) → i < n → move m dst src n (dst + i) ≡ m (src + i)
unfolding move
move-inside m dst src n i h = let e : dst + i - dst ≡ i = omega arith in rw e (ground arith)
