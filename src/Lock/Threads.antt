-- ===== src/Lock/Threads.antt =====
-- Threads that use a lock of cexplock.h, interleaved in any order.
use rtems_hzb_cexpsh.Base.{ℕ, suc, ◌+◌, ◌<◌, ◌≡◌, some, List, length, get_or, set, replicate}
use rtems_hzb_cexpsh.Lock.{
  Kernel, RwLock, enters, naps, rw_lock_init, read_lock, read_unlock, write_test, wake,
  write_unlock,
}

-- Where a thread is: outside of `cexpWriteLock`, before the mutex there, or at the event.
pub data Place : Type 0 where
  outside : Place
  knocking : Place
  napping : Place

-- A thread with the number of read locks that it holds.
pub record Thread : Type 0 where
  pub reads : ℕ
  pub place : Place

abbrev pub idle : Thread
idle = record { reads = 0; place = outside }

-- A reader does not ask for the write lock, as the comment in cexplock.h demands; the writer may read.
pub data Move (k : Kernel) (t : ℕ) (l : RwLock k) (a : Thread) : RwLock k → Thread → Type 0 where
  reads :
      {l' : RwLock k}
      → a.place ≡ outside
      → read_lock k t l ≡ some l'
      → Move k t l a l' (record a { reads = a.reads + 1 })
  unreads :
      {l' : RwLock k} (r : ℕ)
      → a.place ≡ outside
      → a.reads ≡ suc r
      → read_unlock k t l ≡ some l'
      → Move k t l a l' (record a { reads = r })
  knocks : a.place ≡ outside → a.reads ≡ 0 → Move k t l a l (record a { place = knocking })
  takes :
      {l' : RwLock k}
      → a.place ≡ knocking
      → write_test k t l ≡ some (enters l')
      → Move k t l a l' (record a { place = outside })
  dozes :
      {l' : RwLock k}
      → a.place ≡ knocking
      → write_test k t l ≡ some (naps l')
      → Move k t l a l' (record a { place = napping })
  wakes :
      {l' : RwLock k}
      → a.place ≡ napping
      → wake k l ≡ some l'
      → Move k t l a l' (record a { place = knocking })
  leaves : a.place ≡ outside → k.owner l.mutex ≡ some t → Move k t l a (write_unlock k t l) a

pub record System (k : Kernel) : Type 0 where
  pub lock : RwLock k
  pub threads : List Thread

abbrev pub thread : List Thread → ℕ → Thread
thread ts t = get_or ts t idle

pub data Step (k : Kernel) (s : System k) : System k → Type 0 where
  pick :
      (t : ℕ) {l : RwLock k} {a : Thread}
      → t < length s.threads
      → Move k t s.lock (thread s.threads t) l a
      → Step k s (record { lock = l; threads = set s.threads t a })

-- The states that `n` threads reach with a new lock.
pub data Reach (k : Kernel) (n : ℕ) : System k → Type 0 where
  start : Reach k n (record { lock = rw_lock_init k; threads = replicate n idle })
  later : {s s' : System k} → Reach k n s → Step k s s' → Reach k n s'
