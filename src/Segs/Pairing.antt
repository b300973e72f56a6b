-- ===== src/Segs/Pairing.antt =====
-- What `cexpSegsAlloc` takes `cexpSegsDelete` gives back: as often as an address was handed out before
-- the one it is handed out after the other, also where the allocation stops in the middle.
use rtems_hzb_cexpsh.Base.{
  ℕ, ◌+◌, ◌≤◌, ◌<◌, ◌≡◌, ◌≢◌, refl, Bool, true, false, some, List, [], ◌∷◌, All, ◌==◌,
  if◌then◌else◌, arith, Option-cases, inl, inr, subst,
}
use rtems_hzb_cexpsh.Segs.{
  Segment, Memory, Chunks, Kind, unmanaged, region, allocat, release, give_back, segs_alloc,
  segs_delete,
}

abbrev pub one_if : Bool → ℕ
one_if true = 1
one_if false = 0

-- How often an address is handed out.
pub count : ℕ → Chunks → ℕ
count a [] = 0
count a (c ∷ cs) = one_if (c == a) + count a cs

-- Whether a segment holds the chunk at that address, which is no null pointer.
abbrev pub held_by : ℕ → Segment → ℕ
held_by a s = if s.chunk == 0 then 0 else one_if (s.chunk == a)

pub held : ℕ → List Segment → ℕ
held a [] = 0
held a (s ∷ ss) = held_by a s + held a ss

-- The memory behaves, where `inside` tells the addresses of the region: no chunk is at the null address,
-- the region gives its own addresses only, and takes back an address of its own that is handed out.
pub record IsSound (m : Memory) (inside : ℕ → Bool) : Type 0 where
  pub nonnull : (k : Kind) (n : ℕ) (cs : Chunks) (a : ℕ) → m.pick k n cs ≡ some a → a ≢ 0
  pub own : (n : ℕ) (cs : Chunks) (a : ℕ) → m.pick region n cs ≡ some a → inside a ≡ true
  pub accepts : (a : ℕ) (cs : Chunks) → inside a ≡ true → 0 < count a cs → m.takes_back a cs ≡ true

count-give_back :
    (a c : ℕ) (cs : Chunks)
    → 0 < count c cs
    → count a (give_back c cs) + one_if (c == a) ≡ count a cs
unfolding count give_back
count-give_back a c [] h = absurd (omega arith)
count-give_back a c (d ∷ cs) h = ground (arith, count-give_back a c cs)

-- A segment as `cexpSegsCreate` and `cexpSegsInit` leave it holds nothing.
abbrev pub IsFresh : Segment → Type 0
IsFresh s = s.chunk ≡ 0

-- No segment but a managed one holds a chunk, and one from the region holds an address of it.
abbrev pub IsOwned : (ℕ → Bool) → Segment → Type 0
IsOwned inside s =
    (s.kind ≡ unmanaged → s.chunk ≡ 0) × (s.kind ≡ region → s.chunk ≢ 0 → inside s.chunk ≡ true)

module _ (m : Memory) (inside : ℕ → Bool) (sound : IsSound m inside) where
  count-allocat :
      (a : ℕ) (s : Segment) (cs : Chunks)
      → IsFresh s
      → count a (allocat m s cs).2 ≡ held_by a (allocat m s cs).1 + count a cs
  unfolding allocat count
  count-allocat a s cs f = elim (Option-cases (m.pick s.kind s.size cs)) [
    | inl e ↦ ground arith
    | inr (b, e) ↦ ground (arith, sound.nonnull s.kind s.size cs b e)
  ]

  allocat-IsOwned : (s : Segment) (cs : Chunks) → IsFresh s → IsOwned inside (allocat m s cs).1
  unfolding allocat
  allocat-IsOwned s cs f = elim (Option-cases (m.pick s.kind s.size cs)) [
    | inl e ↦ ground arith
    | inr (b, e) ↦ ground (arith, region_own s cs b e)
  ]
    where
      region_own :
          (s : Segment) (cs : Chunks) (b : ℕ)
          → m.pick s.kind s.size cs ≡ some b
          → s.kind ≡ region
          → inside b ≡ true
      region_own s cs b e is = sound.own s.size cs b (subst (λ k. m.pick k s.size cs ≡ some b) is e)

  count-release :
      (a : ℕ) (s : Segment) (cs : Chunks)
      → IsOwned inside s
      → held_by s.chunk s ≤ count s.chunk cs
      → count a (release m s cs).1 + held_by a s ≡ count a cs
  unfolding release
  count-release a s cs o h = ground (arith, count-give_back a s.chunk cs, sound.accepts s.chunk cs)

  held-fresh : (a : ℕ) (ss : List Segment) → All IsFresh ss → held a ss ≡ 0
  unfolding held
  held-fresh a [] f = refl
  held-fresh a (s ∷ ss) f = ground (arith, held-fresh a ss f.1)

  IsOwned-fresh : (ss : List Segment) → All IsFresh ss → All (IsOwned inside) ss
  IsOwned-fresh [] f = tt
  IsOwned-fresh (s ∷ ss) f = (((λ _. f.0), λ _ d. absurd (d f.0)), IsOwned-fresh ss f.1)

  count-segs_alloc :
      (a : ℕ) (ss : List Segment) (cs : Chunks)
      → All IsFresh ss
      → count a (segs_alloc m ss cs).2 ≡ held a (segs_alloc m ss cs).1 + count a cs
  unfolding segs_alloc held
  count-segs_alloc a [] cs f = omega arith
  count-segs_alloc a (s ∷ ss) cs f = ground (
    arith,
    count-allocat a s cs f.0,
    held-fresh a ss f.1,
    count-segs_alloc a ss (allocat m s cs).2 f.1,
  )

  segs_alloc-IsOwned :
      (ss : List Segment) (cs : Chunks)
      → All IsFresh ss
      → All (IsOwned inside) (segs_alloc m ss cs).1
  unfolding segs_alloc
  segs_alloc-IsOwned [] cs f = tt
  segs_alloc-IsOwned (s ∷ ss) cs f = ground (
    arith,
    allocat-IsOwned s cs f.0,
    IsOwned-fresh ss f.1,
    segs_alloc-IsOwned ss (allocat m s cs).2 f.1,
  )

  count-segs_delete :
      (a : ℕ) (ss : List Segment) (cs : Chunks)
      → All (IsOwned inside) ss
      → ((b : ℕ) → held b ss ≤ count b cs)
      → count a (segs_delete m ss cs) + held a ss ≡ count a cs
  unfolding segs_delete held
  count-segs_delete a [] cs o h = omega arith
  count-segs_delete a (s ∷ ss) cs o h = omega (
    arith,
    count-release a s cs o.0 (omega (arith, h s.chunk)),
    count-segs_delete a ss (release m s cs).1 o.1
        (λ b. omega (arith, h b, count-release b s cs o.0 (omega (arith, h s.chunk)))),
  )

  -- Segments that start out with null chunks, over memory that hands out no null pointer and a region
  -- that gives addresses of its own and takes these back while they are handed out: when they were
  -- allocated, all of them or those before the first failure, and deleted, every address is handed out
  -- as often as before.
  pub segs_delete-segs_alloc :
      (a : ℕ) (ss : List Segment) (cs : Chunks)
      → All IsFresh ss
      → count a (segs_delete m (segs_alloc m ss cs).1 (segs_alloc m ss cs).2) ≡ count a cs
  segs_delete-segs_alloc a ss cs f = omega (
    arith,
    count-segs_alloc a ss cs f,
    count-segs_delete a (segs_alloc m ss cs).1 (segs_alloc m ss cs).2 (segs_alloc-IsOwned ss cs f)
        (λ b. omega (arith, count-segs_alloc b ss cs f)),
  )
