-- ===== src/Lock/Wakeup.antt =====
-- Who wakes the writers that wait for the lock of cexplock.h.
use rtems_hzb_cexpsh.Base.{
  ℕ, ◌-◌, ◌<◌, ◌≤◌, ◌≡◌, inl, inr, refl, sym, ap, true, false, ◌==◌, Bool-cases, ==_iff, none, some,
  arith, ◌∙◌, length, set, length-set,
}
use rtems_hzb_cexpsh.Lock.{
  Kernel, IsKernel, RwLock, enters, read_unlock, write_test, wake, write_unlock,
}
use rtems_hzb_cexpsh.Lock.Total.{total-one, get_or-set_self, get_or-set_ne}
use rtems_hzb_cexpsh.Lock.Threads.{
  Thread, Move, System, Step, Reach, thread, idle, reads, unreads, knocks, takes, dozes, wakes,
  leaves, pick, outside, knocking, napping,
}
use rtems_hzb_cexpsh.Lock.Effect.{read_lock-gives, write_test-enters, write_test-naps, wake-gives}
use rtems_hzb_cexpsh.Lock.Exclusion.{reads_of, AreFew, Reach-IsExclusive, Reach-size}

module _ (k : Kernel) (real : IsKernel k) where
  -- With the mutex free, the last reader leaves, and the event is sent.
  read_unlock-sends :
      (t : ℕ) (l : RwLock k)
      → k.owner l.mutex ≡ none
      → l.readers ≡ 1
      → 1 ≤ l.sleeping_writers
      → (l' : RwLock k) × (read_unlock k t l ≡ some l')
        × (l'.mutex ≡ l.mutex)
        × (l'.readers ≡ 0)
        × (k.pending l'.nap ≡ true)
  unfolding read_unlock
  read_unlock-sends t l free one some_sleep =
      let (m, e) = real.obtain_when t l.mutex (inl free) in
      let (old, own, back) = real.obtain_gives t l.mutex m e in
      (
        record l { readers = 0; nap = k.send l.nap; sleeping_writers = l.sleeping_writers - 1 },
        ground (arith, e, back, one),
        refl,
        refl,
        real.send_pending l.nap,
      )

  wake-when :
      (l : RwLock k)
      → k.pending l.nap ≡ true
      → (e : k.Event) × (wake k l ≡ some (record l { nap = e }))
  unfolding wake
  wake-when l p = let (n, e) = real.wait_when l.nap p in (n, ground (arith, e))

  write_test-when :
      (t : ℕ) (l : RwLock k)
      → k.owner l.mutex ≡ none
      → l.readers ≡ 0
      → (m : k.Mutex) × (write_test k t l ≡ some (enters (record l { mutex = m })))
        × (k.owner m ≡ some t)
  unfolding write_test
  write_test-when t l free zero_readers =
      let (m, e) = real.obtain_when t l.mutex (inl free) in
      (m, ground (arith, e, zero_readers), (real.obtain_gives t l.mutex m e).1)

  -- Nobody reads: what a move leaves of the event, and of a thread that naps.
  move-silent :
      {t : ℕ} {l l' : RwLock k} {a a' : Thread}
      → Move k t l a l' a'
      → a.reads ≡ 0
      → k.pending l.nap ≡ false
      → (k.pending l'.nap ≡ false) × (a.place ≡ napping → a'.place ≡ napping)
  unfolding write_unlock
  move-silent {t} {l} {l'} (reads p h) z q =
      let (free, after) = read_lock-gives k real t l l' h in ground (arith, after, q)
  move-silent (unreads r p e h) z q = absurd (ground (arith, e, z))
  move-silent (knocks p e) z q = (q, λ n. ground (arith, p, n))
  move-silent {t} {l} {l'} (takes p h) z q =
      let after = write_test-enters k real t l l' h in ground (arith, after.3, q, p)
  move-silent {t} {l} {l'} (dozes p h) z q =
      let after = write_test-naps k real t l l' h in ground (arith, after, q, p)
  move-silent {l} {l'} (wakes p h) z q =
      let after = wake-gives k real l l' h in absurd (ground (arith, after.0, q))
  move-silent (leaves p h) z q = (q, λ n. n)

  -- While nobody holds a read lock and the event is not sent, no step of any thread wakes a writer that
  -- waits at the event: the writer that leaves does not wake the next one.
  pub writer_wakes_nobody :
      {n : ℕ} {s s' : System k} (u : ℕ) (r : Reach k n s)
      → AreFew k real n r
      → Step k s s'
      → s.lock.readers ≡ 0
      → k.pending s.lock.nap ≡ false
      → (thread s.threads u).place ≡ napping
      → (k.pending s'.lock.nap ≡ false) × ((thread s'.threads u).place ≡ napping)
  writer_wakes_nobody {n} {s} u r few (pick t {l} {a} here m) nobody unsent asleep =
      let inv = Reach-IsExclusive k real n r few in
      let none_held : reads_of (thread s.threads t) ≡ 0 =
        omega (arith, inv.count, nobody, total-one reads_of s.threads t idle refl) in
      let (still, stays) = move-silent m none_held unsent in
      (
        still,
        elim (Bool-cases (t == u)) [
          | inl same ↦
              let e = (==_iff t u).0 same in
              ap (λ i. (thread (set s.threads t a) i).place) (sym e)
              ∙ ap (λ b. b.place) (get_or-set_self s.threads t a idle here)
              ∙ stays (ap (λ i. (thread s.threads i).place) e ∙ asleep)
          | inr other ↦
              ap (λ b. b.place) (get_or-set_ne s.threads t u a idle (λ e. ground (arith, other, e)))
              ∙ asleep
        ],
      )

  -- When a reader leaves a lock that nobody owns as the last one, and a writer sleeps and is counted,
  -- then that writer can wake, finds no reader, and has the write lock, in two steps more.
  pub last_reader-writer :
      {n : ℕ} {s : System k} (t u : ℕ)
      → Reach k n s
      → t < n
      → u < n
      → k.owner s.lock.mutex ≡ none
      → s.lock.readers ≡ 1
      → (thread s.threads t).place ≡ outside
      → (thread s.threads t).reads ≡ 1
      → (thread s.threads u).place ≡ napping
      → 1 ≤ s.lock.sleeping_writers
      → (s1 s2 s3 : System k) × Step k s s1
        × Step k s1 s2
        × Step k s2 s3
        × (s1.lock.readers ≡ 0)
        × (k.owner s3.lock.mutex ≡ some u)
  last_reader-writer {n} {s} t u r t_here u_here free one out reader asleep counted =
      let size = Reach-size k real n r in
      let (l1, left, same, nobody, sent) = read_unlock-sends t s.lock free one counted in
      let (e, woken) = wake-when l1 sent in
      let l2 : RwLock k = record l1 { nap = e } in
      let (m, taken, own) = write_test-when u l2 (ap k.owner same ∙ free) nobody in
      let ts = set s.threads t (record (thread s.threads t) { reads = 0 }) in
      let ts' = set ts u (record (thread ts u) { place = knocking }) in
      let here1 : u < length ts =
        omega (
          arith,
          u_here,
          size,
          length-set s.threads t (record (thread s.threads t) { reads = 0 }),
        ) in
      (
        record { lock = l1; threads = ts },
        record { lock = l2; threads = ts' },
        record {
          lock = record l2 { mutex = m };
          threads = set ts' u (record (thread ts' u) { place = outside });
        },
        pick t (omega (arith, t_here, size)) (unreads 0 out reader left),
        pick u here1 (
            wakes
              (ap (λ b. b.place)
                  (get_or-set_ne s.threads t u (record (thread s.threads t) { reads = 0 }) idle
                    (λ i. ground (arith, out, asleep, i)))
                ∙ asleep)
              woken),
        pick u (omega (arith, here1, length-set ts u (record (thread ts u) { place = knocking }))) (
            takes
              (ap (λ b. b.place)
                (get_or-set_self ts u (record (thread ts u) { place = knocking }) idle here1))
              taken),
        nobody,
        own,
      )
