-- ===== src/Lock/Effect.antt =====
-- What each operation of cexplock.h leaves, for semaphores that keep their promises.
use rtems_hzb_cexpsh.Base.{
  ℕ, ◌+◌, ◌-◌, ◌%◌, ◌≡◌, ◌⊎◌, inl, inr, true, false, not, ◌&&◌, ◌==◌, if◌then◌else◌, none, some,
  Option-cases, arith,
}
use rtems_hzb_cexpsh.Lock.{
  Kernel, IsKernel, RwLock, enters, naps, read_lock, read_unlock, write_test, wake, word,
}

module _ (k : Kernel) (real : IsKernel k) where
  -- Nobody has the mutex, or the thread itself.
  abbrev pub Allowed : ℕ → RwLock k → Type 0
  Allowed t l = (k.owner l.mutex ≡ none) ⊎ (k.owner l.mutex ≡ some t)

  pub read_lock-gives :
      (t : ℕ) (l l' : RwLock k)
      → read_lock k t l ≡ some l'
      → Allowed t l × (l' ≡ record l { readers = (l.readers + 1) % word })
  unfolding read_lock
  read_lock-gives t l l' h = elim (Option-cases (k.obtain t l.mutex)) [
    | inl e ↦ ground (arith, e)
    | inr (m, e) ↦ ground (arith, e, real.obtain_gives t l.mutex m e)
  ]

  pub read_unlock-gives :
      (t : ℕ) (l l' : RwLock k)
      → read_unlock k t l ≡ some l'
      → Allowed t l
        × (l' ≡ (
            if (l.readers + word - 1) % word == 0 && not (l.sleeping_writers == 0)
            then record l {
              readers = (l.readers + word - 1) % word;
              nap = k.send l.nap;
              sleeping_writers = l.sleeping_writers - 1;
            }
            else record l { readers = (l.readers + word - 1) % word }))
  unfolding read_unlock
  read_unlock-gives t l l' h = elim (Option-cases (k.obtain t l.mutex)) [
    | inl e ↦ ground (arith, e)
    | inr (m, e) ↦ ground (arith, e, real.obtain_gives t l.mutex m e)
  ]

  pub write_test-enters :
      (t : ℕ) (l l' : RwLock k)
      → write_test k t l ≡ some (enters l')
      → Allowed t l
        × (l.readers ≡ 0)
        × (k.owner l'.mutex ≡ some t)
        × (l' ≡ record l { mutex = l'.mutex })
  unfolding write_test
  write_test-enters t l l' h = elim (Option-cases (k.obtain t l.mutex)) [
    | inl e ↦ ground (arith, e)
    | inr (m, e) ↦ ground (arith, e, real.obtain_gives t l.mutex m e)
  ]

  pub write_test-naps :
      (t : ℕ) (l l' : RwLock k)
      → write_test k t l ≡ some (naps l')
      → l' ≡ record l { sleeping_writers = (l.sleeping_writers + 1) % word }
  unfolding write_test
  write_test-naps t l l' h = elim (Option-cases (k.obtain t l.mutex)) [
    | inl e ↦ ground (arith, e)
    | inr (m, e) ↦ ground (arith, e, real.obtain_gives t l.mutex m e)
  ]

  pub wake-gives :
      (l l' : RwLock k)
      → wake k l ≡ some l'
      → (k.pending l.nap ≡ true) × (k.pending l'.nap ≡ false) × (l' ≡ record l { nap = l'.nap })
  unfolding wake
  wake-gives l l' h = elim (Option-cases (k.wait l.nap)) [
    | inl e ↦ ground (arith, e)
    | inr (n, e) ↦ ground (arith, e, real.wait_gives l.nap n e)
  ]
