-- ===== src/Segs.antt =====
-- cexpsegs.c, cexpsegs-dflt.c and cexpsegs-powerpc-rtems.c: the memory segments of a module, the
-- routines that allocate and release them, and the region for text below 32 MB. The array of segments
-- ends with a null name; here it is a list. Addresses and sizes are 32-bit numbers.
pub mod Pairing
pub mod Region
pub mod Tests
use rtems_hzb_cexpsh.Base.{
  ℕ, suc, ◌+◌, ◌-◌, ◌*◌, ◌%◌, ◌^◌, Bool, true, false, ◌&&◌, not, Option, none, some, List, [], ◌∷◌,
  ltb, ◌==◌, if◌then◌else◌,
}

-- The pairs of routines that a segment can be given: `malloc_allocat` with `malloc_release`,
-- `region_allocat` with `region_release`, or none.
pub data Kind : Type 0 where
  malloced : Kind
  region : Kind
  unmanaged : Kind

-- `CexpSegmentRec`: `kind` stands for `allocat` and `release`, `pvt` for the region's id.
pub record Segment : Type 0 where
  pub chunk : ℕ
  pub size : ℕ
  pub attributes : ℕ
  pub name : List ℕ
  pub kind : Kind
  pub pvt : ℕ

-- The chunks that are handed out, of the C heap and of the region alike.
abbrev pub Chunks : Type 0
Chunks = List ℕ

-- What the C heap and the RTEMS region manager decide: the address of a new chunk, if they have one,
-- and whether the region takes a chunk back.
pub record Memory : Type 0 where
  pub pick : Kind → ℕ → Chunks → Option ℕ
  pub takes_back : ℕ → Chunks → Bool

-- `free` and `rtems_region_return_segment`; a null pointer is passed over.
pub give_back : ℕ → Chunks → Chunks
give_back a [] = []
give_back a (c ∷ cs) = let rest = give_back a cs in if c == a then cs else c ∷ rest

-- `malloc` and `rtems_region_get_segment` into `s->chunk`; what a failing region call leaves in
-- `chunk` is what was there.
obtain : Memory → Segment → ℕ → Chunks → Bool × Segment × Chunks
obtain m s failed cs = elim (m.pick s.kind s.size cs) [
  | some a ↦ (true, record s { chunk = a }, a ∷ cs)
  | none ↦ (false, record s { chunk = failed }, cs)
]

-- `malloc_allocat` and `region_allocat`: the flag is whether the result is 0.
unfoldable pub allocat : Memory → Segment → Chunks → Bool × Segment × Chunks
unfolding obtain
allocat m s cs = if s.size == 0 then (true, record s { chunk = 0 }, cs) else elim s.kind [
  | malloced ↦ obtain m s 0 cs
  | region ↦ obtain m s s.chunk cs
  | unmanaged ↦ (false, s, cs)
]

-- `malloc_release` and `region_release`.
unfoldable pub release : Memory → Segment → Chunks → Segment × Chunks
unfolding give_back
release m s cs =
    let freed = if s.chunk == 0 then cs else give_back s.chunk cs in
    elim s.kind [
      | malloced ↦ (record s { chunk = 0; size = 0 }, freed)
      | region ↦
          if s.chunk == 0
          then (record s { size = 0 }, cs)
          else if m.takes_back s.chunk cs
          then (record s { chunk = 0; size = 0 }, freed)
          else (s, cs)
      | unmanaged ↦ (s, cs)
    ]

is_managed : Kind → Bool
is_managed unmanaged = false
is_managed _ = true

-- `cexpSegsAlloc`: it stops at the first segment that has no routine or whose routine fails.
unfoldable pub segs_alloc : Memory → List Segment → Chunks → Bool × List Segment × Chunks
unfolding allocat is_managed
segs_alloc m [] cs = (true, [], cs)
segs_alloc m (s ∷ ss) cs =
    let (ok, s', cs') = allocat m s cs in
    let (done, ss', end) = segs_alloc m ss cs' in
    if not (is_managed s.kind)
    then (false, s ∷ ss, cs)
    else if ok
    then (done, s' ∷ ss', end)
    else (false, s' ∷ ss, cs')

-- The loop of `cexpSegsDelete`; the array itself goes with it.
unfoldable pub segs_delete : Memory → List Segment → Chunks → Chunks
unfolding release
segs_delete m [] cs = cs
segs_delete m (s ∷ ss) cs = segs_delete m ss (release m s cs).1

-- `SEG_ATTR_EXEC`, `SEG_ATTR_RO`
abbrev pub seg_attr_exec : ℕ
seg_attr_exec = 1

abbrev pub seg_attr_ro : ℕ
seg_attr_ro = 2

-- `cexpSegsCreate`, one slot of it.
abbrev pub blank_segment : Segment
blank_segment = record { chunk = 0; size = 0; attributes = 0; name = []; kind = unmanaged; pvt = 0 }

-- `cexpSegsInit` of cexpsegs-dflt.c: one segment ".all".
unfoldable pub segs_init_dflt : List Segment
segs_init_dflt =
    record blank_segment {
      attributes = seg_attr_exec;
      name = b'.' ∷ b'a' ∷ b'l' ∷ b'l' ∷ [];
      kind = malloced;
    }
    ∷ []

abbrev pub limit_32m : ℕ
limit_32m = 0x02000000

abbrev pub word : ℕ
word = 2 ^ 32

-- Where the region for text lies: its unaligned start and size after the checks against 32 MB.
-- `base` and `size` are `cexpTextRegion` and `cexpTextRegionSize`, `from` and `to` the addresses
-- `_cexpTextRegionStart` and `_cexpTextRegionEnd` that serve where the size is 0.
unfoldable pub text_bounds : ℕ → ℕ → ℕ → ℕ → ℕ × ℕ
text_bounds base size from to =
    let gap = (to + word - from) % word in
    let size' = if size == 0 then gap else size in
    let start = if size == 0 then (if gap == 0 then limit_32m else from) else base in
    if not (ltb start limit_32m)
    then (start, 0)
    else if ltb limit_32m ((start + size') % word)
    then (start, limit_32m - start)
    else (start, size')

-- `x & ~(align - 1)` for a power of two.
abbrev pub align_down : ℕ → ℕ → ℕ
align_down align x = x - x % align

-- What `cexpSegsInit` hands to `rtems_region_create`: the aligned start and the size.
unfoldable pub text_region : ℕ → ℕ → ℕ → ℕ × ℕ
text_region align start_unaligned size =
    let start = align_down align ((start_unaligned + align - 1) % word) in
    let slack = (start + word - start_unaligned) % word in
    (start, align_down align ((size + word - slack) % word))

-- `cexpSegsInit` of cexpsegs-powerpc-rtems.c from there on: ".text" from the region if that has more
-- than 1000 bytes, ".data" from the C heap.
unfoldable pub segs_init_powerpc : ℕ → ℕ → List Segment
segs_init_powerpc region_size region_id =
    record blank_segment {
      attributes = seg_attr_exec + seg_attr_ro;
      name = b'.' ∷ b't' ∷ b'e' ∷ b'x' ∷ b't' ∷ [];
      kind = if ltb 1000 region_size then region else malloced;
      pvt = if ltb 1000 region_size then region_id else 0;
    }
    ∷ record blank_segment { name = b'.' ∷ b'd' ∷ b'a' ∷ b't' ∷ b'a' ∷ []; kind = malloced }
    ∷ []
