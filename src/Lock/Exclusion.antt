-- ===== src/Lock/Exclusion.antt =====
-- The lock of cexplock.h excludes: the invariant that every step of the threads keeps.
use rtems_hzb_cexpsh.Base.{
  ℕ, zero, suc, ◌+◌, ◌<◌, ◌≤◌, ◌≡◌, ◌≢◌, ◌⊎◌, inl, inr, refl, sym, ap, Bool, false, ◌==◌,
  if◌then◌else◌, some, Bool-cases, ==_iff, arith, ◌∙◌, length, set, length-set, replicate,
  length-replicate,
}
use rtems_hzb_cexpsh.Lock.{Kernel, IsKernel, RwLock, rw_lock_init, write_unlock, word}
use rtems_hzb_cexpsh.Lock.Total.{
  total, total-set, total-one, total-two, get_or-set_self, get_or-set_ne,
}
use rtems_hzb_cexpsh.Lock.Threads.{
  Thread, Move, System, Reach, thread, idle, reads, unreads, knocks, takes, dozes, wakes, leaves,
  pick, start, later, outside, knocking, napping,
}
use rtems_hzb_cexpsh.Lock.Effect.{
  Allowed, read_lock-gives, read_unlock-gives, write_test-enters, write_test-naps, wake-gives,
}

abbrev pub reads_of : Thread → ℕ
reads_of a = a.reads

abbrev pub asleep : Thread → ℕ
asleep a = elim a.place [ napping ↦ 1 | _ ↦ 0 ]

abbrev pub signal : Bool → ℕ
signal b = if b then 1 else 0

-- The counters against the threads, and what the owner of the mutex may rely on.
pub record IsExclusive (k : Kernel) (n : ℕ) (s : System k) : Type 0 where
  pub size : length s.threads ≡ n
  pub count : s.lock.readers ≡ total reads_of s.threads
  pub bound : s.lock.readers < word
  pub alone :
      (t : ℕ)
      → k.owner s.lock.mutex ≡ some t
      → total reads_of s.threads ≡ reads_of (thread s.threads t)
  pub sleepers : s.lock.sleeping_writers + signal (k.pending s.lock.nap) ≤ total asleep s.threads

total-idle : (f : Thread → ℕ) (n : ℕ) → f idle ≡ 0 → total f (replicate n idle) ≡ 0
total-idle f zero z = refl
total-idle f (suc n) z = omega (arith, z, total-idle f n z)

module _ (k : Kernel) (real : IsKernel k) (n : ℕ) where
  init-IsExclusive : IsExclusive k n (record { lock = rw_lock_init k; threads = replicate n idle })
  unfolding rw_lock_init
  init-IsExclusive = record {
    size = length-replicate n idle;
    count = sym (total-idle reads_of n refl);
    bound = omega arith;
    alone = λ t e. ground (arith, real.unlocked_free);
    sleepers = ground (arith, real.unsent_pending);
  }

  module _ (s : System k) (inv : IsExclusive k n s) (t : ℕ) (here : t < length s.threads) where
    -- The invariant after the thread `t` becomes `a`, from what changes in the counters.
    becomes :
        (l : RwLock k) (a : Thread)
        → l.readers + reads_of (thread s.threads t) ≡ s.lock.readers + reads_of a
        → l.readers < word
        → ((u : ℕ)
            → k.owner l.mutex ≡ some u
            → ((u ≡ t) × (total reads_of s.threads ≡ reads_of (thread s.threads t)))
              ⊎ ((k.owner s.lock.mutex ≡ some u) × (reads_of a ≡ reads_of (thread s.threads t))))
        → l.sleeping_writers + signal (k.pending l.nap) + asleep (thread s.threads t)
          ≤ s.lock.sleeping_writers + signal (k.pending s.lock.nap) + asleep a
        → IsExclusive k n (record { lock = l; threads = set s.threads t a })
    becomes l a c b o z = record {
      size = length-set s.threads t a ∙ inv.size;
      count = omega (arith, inv.count, total-set reads_of s.threads t a idle here);
      bound = b;
      alone = λ u e. elim (o u e) [
        | inl (same, only) ↦ changed u same only
        | inr (old, kept) ↦ elim (Bool-cases (t == u)) [
          | inl same ↦ changed u (sym ((==_iff t u).0 same)) (
              inv.alone u old ∙ ap (λ i. reads_of (thread s.threads i)) (sym ((==_iff t u).0 same)))
          | inr other ↦ elsewhere u other old kept
        ]
      ];
      sleepers = omega (arith, inv.sleepers, total-set asleep s.threads t a idle here);
    }
      where
        changed :
            (u : ℕ)
            → u ≡ t
            → total reads_of s.threads ≡ reads_of (thread s.threads t)
            → total reads_of (set s.threads t a) ≡ reads_of (thread (set s.threads t a) u)
        changed u same only =
            rw (same, get_or-set_self s.threads t a idle here)
              (omega (arith, only, total-set reads_of s.threads t a idle here))

        elsewhere :
            (u : ℕ)
            → (t == u) ≡ false
            → k.owner s.lock.mutex ≡ some u
            → reads_of a ≡ reads_of (thread s.threads t)
            → total reads_of (set s.threads t a) ≡ reads_of (thread (set s.threads t a) u)
        elsewhere u other old kept =
            rw (get_or-set_ne s.threads t u a idle (λ e. ground arith))
              (omega (arith, kept, inv.alone u old, total-set reads_of s.threads t a idle here))

    -- Whoever has the mutex after the thread `t` could obtain it and gave it back.
    given_back :
        (l : RwLock k) (a : Thread)
        → Allowed k real t s.lock
        → l.mutex ≡ s.lock.mutex
        → (u : ℕ) → k.owner l.mutex ≡ some u
        → ((u ≡ t) × (total reads_of s.threads ≡ reads_of (thread s.threads t)))
          ⊎ ((k.owner s.lock.mutex ≡ some u) × (reads_of a ≡ reads_of (thread s.threads t)))
    given_back l a free same u e = ground (arith, same, e, free, inv.alone t, inv.alone u)

    move-IsExclusive :
        {l : RwLock k} {a : Thread}
        → Move k t s.lock (thread s.threads t) l a
        → total reads_of (set s.threads t a) < word
        → IsExclusive k n (record { lock = l; threads = set s.threads t a })
    unfolding write_unlock
    move-IsExclusive {l} (reads p h) few =
        let (free, after) = read_lock-gives k real t s.lock l h in
        let a : Thread = record (thread s.threads t) { reads = (thread s.threads t).reads + 1 } in
        let small : s.lock.readers + 1 < word =
          omega (arith, few, inv.count, total-set reads_of s.threads t a idle here) in
        becomes l a (ground (arith, after, small)) (ground (arith, after, small))
          (given_back l a free (ap (λ l. l.mutex) after)) (ground (arith, after))
    move-IsExclusive {l} (unreads r p e h) few =
        let (free, after) = read_unlock-gives k real t s.lock l h in
        let a : Thread = record (thread s.threads t) { reads = r } in
        let one = total-one reads_of s.threads t idle refl in
        becomes l a (ground (arith, after, e, one, inv.count, inv.bound))
          (ground (arith, after, e, one, inv.count, inv.bound))
          (given_back l a free (ground (arith, after)))
          (ground (arith, after, real.send_pending s.lock.nap))
    move-IsExclusive (knocks p e) few =
        becomes s.lock (record (thread s.threads t) { place = knocking }) refl inv.bound
          (λ u o. inr (o, refl)) (ground (arith, p))
    move-IsExclusive {l} (takes p h) few =
        let after = write_test-enters k real t s.lock l h in
        becomes l (record (thread s.threads t) { place = outside }) (ground (arith, after.3))
          (ground (arith, after.3))
          (λ u o.
            ground
              (arith, o, after.1, after.2, inv.count, total-one reads_of s.threads t idle refl))
          (ground (arith, after.3, p))
    move-IsExclusive {l} (dozes p h) few =
        let after = write_test-naps k real t s.lock l h in
        becomes l (record (thread s.threads t) { place = napping }) (ground (arith, after))
          (ground (arith, after, inv.bound)) (λ u o. ground (arith, after, o))
          (ground (arith, after, p))
    move-IsExclusive {l} (wakes p h) few =
        let after = wake-gives k real s.lock l h in
        becomes l (record (thread s.threads t) { place = knocking }) (ground (arith, after.2))
          (ground (arith, after.2, inv.bound)) (λ u o. ground (arith, after.2, o))
          (ground (arith, after, p))
    move-IsExclusive (leaves p h) few =
        becomes (write_unlock k t s.lock) (thread s.threads t) refl inv.bound
          (λ u o. ground (arith, o, h, real.release_owner t s.lock.mutex h, inv.alone t h))
          (omega arith)

  -- At no time on the way do the threads hold 2 ^ 32 read locks together.
  abbrev pub AreFew : {s : System k} → Reach k n s → Type 0
  AreFew start = Unit
  AreFew (later {s' = s'} r st) = AreFew r × (total reads_of s'.threads < word)

  pub Reach-IsExclusive : {s : System k} (r : Reach k n s) → AreFew r → IsExclusive k n s
  Reach-IsExclusive start few = init-IsExclusive
  Reach-IsExclusive (later {s} r (pick t here m)) few =
      move-IsExclusive s (Reach-IsExclusive r few.0) t here m few.1

  -- The threads stay as many.
  pub Reach-size : {s : System k} → Reach k n s → length s.threads ≡ n
  Reach-size start = length-replicate n idle
  Reach-size (later {s} r (pick t {a} here m)) = length-set s.threads t a ∙ Reach-size r

  -- Threads that ask for the write lock only while they hold no read lock, and that never held 2 ^ 32
  -- read locks together: while a thread has the write lock, which is the mutex, no other thread holds a
  -- read lock, and the lock counts no readers but the thread's own; at any time the lock, whose counter
  -- wraps round, counts the read locks of all threads.
  pub writer_excludes :
      {s : System k} (r : Reach k n s)
      → AreFew r
      → ((t : ℕ)
          → k.owner s.lock.mutex ≡ some t
          → (s.lock.readers ≡ (thread s.threads t).reads)
            × ((u : ℕ) → t ≢ u → (thread s.threads u).reads ≡ 0))
        × (s.lock.readers ≡ total reads_of s.threads)
  writer_excludes {s} r few =
      let inv = Reach-IsExclusive r few in
      (
        (λ t own. (
          inv.count ∙ inv.alone t own,
          λ u other.
              omega (arith, inv.alone t own, total-two reads_of s.threads t u idle refl other),
        )),
        inv.count,
      )

  -- In any state that the threads reach, no more writers are counted as asleep, the one that is woken
  -- but has not run yet included, than threads wait at the event.
  pub sleeping_writers-bounded :
      {s : System k} (r : Reach k n s)
      → AreFew r
      → s.lock.sleeping_writers + signal (k.pending s.lock.nap) ≤ total asleep s.threads
  sleeping_writers-bounded r few = (Reach-IsExclusive r few).sleepers
