-- ===== src/Types/Bytes.antt =====
-- Members of a union in memory, byte by byte (ctyps.c): what is stored is read back, and bytes beside it
-- stay as they are.
use rtems_hzb_cexpsh.Base.{
  ℕ, zero, suc, ◌+◌, ◌/◌, ◌^◌, ◌<◌, ◌≤◌, ◌≡◌, ◌⊎◌, Bool, true, false, refl, arith,
}
use rtems_hzb_cexpsh.Types.Cells.{
  Cells, put_byte, store, store_little, store_big, load, load_little, load_big,
}

load_little-below :
    (k a b n : ℕ) (m : Cells) → b < a → load_little k (put_byte m b n) a ≡ load_little k m a
unfolding load_little
load_little-below zero a b n m h = refl
load_little-below (suc k) a b n m h =
    ground (arith, h, load_little-below k (a + 1) b n m (omega (arith, h)))

load_big-above :
    (k a b n : ℕ) (m : Cells) → a + k ≤ b → load_big k (put_byte m b n) a ≡ load_big k m a
unfolding load_big
load_big-above zero a b n m h = refl
load_big-above (suc k) a b n m h = ground (arith, h, load_big-above k a b n m (omega (arith, h)))

load-store_little :
    (k a n : ℕ) (m : Cells) → n < 256 ^ k → load_little k (store_little k m a n) a ≡ n
unfolding load_little store_little
load-store_little zero a n m h = omega (arith, h)
load-store_little (suc k) a n m h =
    let rest = store_little k m (a + 1) (n / 256) in
    let same = load_little-below k (a + 1) a n rest (omega arith) in
    let high = load-store_little k (a + 1) (n / 256) m (omega (arith, h)) in
    rw (same, high) (ground arith)

load-store_big : (k a n : ℕ) (m : Cells) → n < 256 ^ k → load_big k (store_big k m a n) a ≡ n
unfolding load_big store_big
load-store_big zero a n m h = omega (arith, h)
load-store_big (suc k) a n m h =
    let rest = store_big k m a (n / 256) in
    let same = load_big-above k a (a + k) n rest (omega arith) in
    let high = load-store_big k a (n / 256) m (omega (arith, h)) in rw (same, high) (ground arith)

pub load-store :
    (big : Bool) (k a n : ℕ) (m : Cells) → n < 256 ^ k → load big k (store big k m a n) a ≡ n
unfolding load store
load-store true k a n m h = load-store_big k a n m h
load-store false k a n m h = load-store_little k a n m h

little-beside : (k a n x : ℕ) (m : Cells) → (x < a) ⊎ (a + k ≤ x) → store_little k m a n x ≡ m x
unfolding store_little
little-beside zero a n x m h = refl
little-beside (suc k) a n x m h = ground (arith, h, little-beside k (a + 1) (n / 256) x m)

big-beside : (k a n x : ℕ) (m : Cells) → (x < a) ⊎ (a + k ≤ x) → store_big k m a n x ≡ m x
unfolding store_big
big-beside zero a n x m h = refl
big-beside (suc k) a n x m h = ground (arith, h, big-beside k a (n / 256) x m)

pub store-beside :
    (big : Bool) (k a n x : ℕ) (m : Cells) → (x < a) ⊎ (a + k ≤ x) → store big k m a n x ≡ m x
unfolding store
store-beside true k a n x m h = big-beside k a n x m h
store-beside false k a n x m h = little-beside k a n x m h
