-- ===== src/Lock/Tests.antt =====
-- Runs of threads on the lock of cexplock.h, and each theorem about it at one of them.
use rtems_hzb_cexpsh.Base.{
  [], ◌∷◌, ℕ, zero, suc, ◌≡◌, ◌≢◌, ◌⊎◌, inl, refl, Bool, true, false, ◌==◌, if◌then◌else◌, Option,
  none, some, arith,
}
use rtems_hzb_cexpsh.Lock.{Kernel, IsKernel, rw_lock_init, read_lock, read_unlock, write_test, wake}
use rtems_hzb_cexpsh.Lock.Total.{total}
use rtems_hzb_cexpsh.Lock.Threads.{
  idle, outside, System, Step, Reach, thread, reads, unreads, knocks, takes, dozes, wakes, pick,
  start, later, napping,
}
use rtems_hzb_cexpsh.Lock.Exclusion.{reads_of, writer_excludes}
use rtems_hzb_cexpsh.Lock.Wakeup.{last_reader-writer}

-- A mutex that its owner may obtain again, with the number of times.
data Nesting : Type 0 where
  free : Nesting
  held : ℕ → ℕ → Nesting

abbrev owner_of : Nesting → Option ℕ
owner_of free = none
owner_of (held t n) = some t

abbrev obtained : ℕ → Nesting → Option Nesting
obtained t free = some (held t 0)
obtained t (held u n) = if t == u then some (held u (suc n)) else none

abbrev released : ℕ → Nesting → Nesting
released t free = free
released t (held u zero) = if t == u then free else held u 0
released t (held u (suc n)) = if t == u then held u n else held u (suc n)

abbrev waited : Bool → Option Bool
waited true = some false
waited false = none

abbrev simple : Kernel
simple = record {
  Mutex = Nesting;
  Event = Bool;
  unlocked = free;
  owner = owner_of;
  obtain = obtained;
  release = released;
  unsent = false;
  pending = λ e. e;
  send = λ e. true;
  wait = waited;
}

obtained-when :
    (t : ℕ) (m : Nesting)
    → (owner_of m ≡ none) ⊎ (owner_of m ≡ some t)
    → (m' : Nesting) × (obtained t m ≡ some m')
obtained-when t free o = (held t 0, refl)
obtained-when t (held u n) o = (held u (suc n), ground arith)

obtained-gives :
    (t : ℕ) (m m' : Nesting)
    → obtained t m ≡ some m'
    → ((owner_of m ≡ none) ⊎ (owner_of m ≡ some t)) × (owner_of m' ≡ some t) × (released t m' ≡ m)
obtained-gives t free m' e = ground arith
obtained-gives t (held u n) m' e = ground arith

released-owner :
    (t : ℕ) (m : Nesting)
    → owner_of m ≡ some t
    → (owner_of (released t m) ≡ none) ⊎ (owner_of (released t m) ≡ some t)
released-owner t free e = inl refl
released-owner t (held u zero) e = ground arith
released-owner t (held u (suc n)) e = ground arith

waited-when : (e : Bool) → e ≡ true → (e' : Bool) × (waited e ≡ some e')
waited-when true p = (false, refl)
waited-when false p = absurd (ground arith)

waited-gives : (e e' : Bool) → waited e ≡ some e' → (e ≡ true) × (e' ≡ false)
waited-gives true e' p = ground arith
waited-gives false e' p = absurd (ground arith)

simple-IsKernel : IsKernel simple
simple-IsKernel = record {
  unlocked_free = refl;
  obtain_when = obtained-when;
  obtain_gives = obtained-gives;
  release_owner = released-owner;
  unsent_pending = refl;
  send_pending = λ e. refl;
  wait_when = waited-when;
  wait_gives = waited-gives;
}

-- One thread reads and the two others ask for the write lock and nap.
abbrev contended : System simple
contended = record {
  lock = record { mutex = free; readers = 1; nap = false; sleeping_writers = 2 };
  threads =
      record { reads = 1; place = outside }
      ∷ record { reads = 0; place = napping }
      ∷ record { reads = 0; place = napping }
      ∷ [];
}

contended-Reach : Reach simple 3 contended
unfolding rw_lock_init read_lock write_test
contended-Reach =
    later
      (later
        (later
          (later (later start (pick 0 (omega arith) (reads refl refl)))
            (pick 1 (omega arith) (knocks refl refl)))
          (pick 1 (omega arith) (dozes refl refl)))
        (pick 2 (omega arith) (knocks refl refl)))
      (pick 2 (omega arith) (dozes refl refl))

-- The reader leaves, and the first of the two wakes and takes the lock; it reads as well.
abbrev taken : System simple
taken = record {
  lock = record { mutex = held 1 0; readers = 0; nap = false; sleeping_writers = 1 };
  threads = idle ∷ idle ∷ record { reads = 0; place = napping } ∷ [];
}

taken-Reach : Reach simple 3 taken
unfolding read_unlock wake write_test
taken-Reach =
    later
      (later (later contended-Reach (pick 0 (omega arith) (unreads 0 refl refl refl)))
        (pick 1 (omega arith) (wakes refl refl)))
      (pick 1 (omega arith) (takes refl refl))

abbrev taken_reading : System simple
taken_reading = record {
  lock = record { mutex = held 1 0; readers = 1; nap = false; sleeping_writers = 1 };
  threads =
      idle ∷ record { reads = 1; place = outside } ∷ record { reads = 0; place = napping } ∷ [];
}

taken_reading-Reach : Reach simple 3 taken_reading
unfolding read_lock
taken_reading-Reach = later taken-Reach (pick 1 (omega arith) (reads refl refl))

writer_excludes_example :
    ((t : ℕ)
      → owner_of (held 1 0) ≡ some t
      → (1 ≡ (thread taken_reading.threads t).reads)
        × ((u : ℕ) → t ≢ u → (thread taken_reading.threads u).reads ≡ 0))
    × (1 ≡ total reads_of taken_reading.threads)
unfolding contended-Reach taken-Reach taken_reading-Reach
writer_excludes_example = writer_excludes simple simple-IsKernel 3 taken_reading-Reach (omega arith)

last_reader-writer_example :
    (s1 s2 s3 : System simple) × Step simple contended s1
    × Step simple s1 s2
    × Step simple s2 s3
    × (s1.lock.readers ≡ 0)
    × (owner_of s3.lock.mutex ≡ some 2)
last_reader-writer_example =
    last_reader-writer simple simple-IsKernel 0 2 contended-Reach (omega arith) (omega arith) refl
      refl refl refl refl (omega arith)
