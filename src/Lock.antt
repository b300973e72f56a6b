-- ===== src/Lock.antt =====
-- cexplock.h: the lock for many readers or one writer, made of a mutex and an event. The mutex and the
-- event are the operating system's, a parameter with what the code relies on; the mutex may be obtained
-- again by its owner, the event is a binary semaphore. Each operation is a step: what stands between
-- obtaining and releasing the mutex is done by its owner alone.
pub mod Threads
pub mod Total
pub mod Effect
pub mod Exclusion
pub mod Wakeup
pub mod Tests
use rtems_hzb_cexpsh.Base.{
  ℕ, ◌+◌, ◌-◌, ◌%◌, ◌^◌, ◌≡◌, ◌⊎◌, Bool, true, false, not, ◌&&◌, ◌==◌, if◌then◌else◌, Option, none,
  some,
}

-- `CexpLock` and `CexpEvent`: `obtain` and `wait` answer nothing while they block. The numbers are threads.
pub record Kernel : Type 1 where
  pub Mutex : Type 0
  pub Event : Type 0
  pub unlocked : Mutex
  pub owner : Mutex → Option ℕ
  pub obtain : ℕ → Mutex → Option Mutex
  pub release : ℕ → Mutex → Mutex
  pub unsent : Event
  pub pending : Event → Bool
  pub send : Event → Event
  pub wait : Event → Option Event

-- What the semaphores of the system promise.
pub record IsKernel (k : Kernel) : Type 0 where
  pub unlocked_free : k.owner k.unlocked ≡ none
  pub obtain_when :
      (t : ℕ) (m : k.Mutex)
      → (k.owner m ≡ none) ⊎ (k.owner m ≡ some t)
      → (m' : k.Mutex) × (k.obtain t m ≡ some m')
  pub obtain_gives :
      (t : ℕ) (m m' : k.Mutex)
      → k.obtain t m ≡ some m'
      → ((k.owner m ≡ none) ⊎ (k.owner m ≡ some t)) × (k.owner m' ≡ some t) × (k.release t m' ≡ m)
  pub release_owner :
      (t : ℕ) (m : k.Mutex)
      → k.owner m ≡ some t
      → (k.owner (k.release t m) ≡ none) ⊎ (k.owner (k.release t m) ≡ some t)
  pub unsent_pending : k.pending k.unsent ≡ false
  pub send_pending : (e : k.Event) → k.pending (k.send e) ≡ true
  pub wait_when : (e : k.Event) → k.pending e ≡ true → (e' : k.Event) × (k.wait e ≡ some e')
  pub wait_gives :
      (e e' : k.Event) → k.wait e ≡ some e' → (k.pending e ≡ true) × (k.pending e' ≡ false)

-- `unsigned`
abbrev pub word : ℕ
word = 2 ^ 32

-- `CexpRWLockRec`
pub record RwLock (k : Kernel) : Type 0 where
  pub mutex : k.Mutex
  pub readers : ℕ
  pub nap : k.Event
  pub sleeping_writers : ℕ

-- What a round of the loop of `cexpWriteLock` ends with: the lock, or a nap to take.
pub data Entry (k : Kernel) : Type 0 where
  enters : RwLock k → Entry k
  naps : RwLock k → Entry k

module _ (k : Kernel) where
  -- `cexpRWLockInit`
  unfoldable pub rw_lock_init : RwLock k
  rw_lock_init = record { mutex = k.unlocked; readers = 0; nap = k.unsent; sleeping_writers = 0 }

  -- `cexpReadLock`
  unfoldable pub read_lock : ℕ → RwLock k → Option (RwLock k)
  read_lock t l = elim (k.obtain t l.mutex) [
    | none ↦ none
    | some m ↦ some (record l { mutex = k.release t m; readers = (l.readers + 1) % word })
  ]

  -- `cexpReadUnlock`
  unfoldable pub read_unlock : ℕ → RwLock k → Option (RwLock k)
  read_unlock t l =
      let readers = (l.readers + word - 1) % word in
      elim (k.obtain t l.mutex) [
        | none ↦ none
        | some m ↦
            if readers == 0 && not (l.sleeping_writers == 0)
            then some (record {
              mutex = k.release t m;
              readers = readers;
              nap = k.send l.nap;
              sleeping_writers = l.sleeping_writers - 1;
            })
            else some (record l { mutex = k.release t m; readers = readers })
      ]

  -- `cexpWriteLock` from where it obtains the mutex: the test of its loop.
  unfoldable pub write_test : ℕ → RwLock k → Option (Entry k)
  write_test t l = elim (k.obtain t l.mutex) [
    | none ↦ none
    | some m ↦
        if l.readers == 0
        then some (enters (record l { mutex = m }))
        else some (
            naps (record l {
              mutex = k.release t m;
              sleeping_writers = (l.sleeping_writers + 1) % word;
            }))
  ]

  -- The `cexpEventWait` of `cexpWriteLock`.
  unfoldable pub wake : RwLock k → Option (RwLock k)
  wake l = elim (k.wait l.nap) [ none ↦ none | some e ↦ some (record l { nap = e }) ]

  -- `cexpWriteUnlock`
  unfoldable pub write_unlock : ℕ → RwLock k → RwLock k
  write_unlock t l = record l { mutex = k.release t l.mutex }
