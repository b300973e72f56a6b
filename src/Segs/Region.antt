-- ===== src/Segs/Region.antt =====
-- The region for text that cexpsegs-powerpc-rtems.c sets up: it is aligned, inside the memory that was
-- set apart for it, and below 32 MB, so that a branch reaches every text.
use rtems_hzb_cexpsh.Base.{ℕ, ◌+◌, ◌-◌, ◌%◌, ◌^◌, ◌≤◌, ◌<◌, ◌≡◌, ◌⊎◌, arith}
use rtems_hzb_cexpsh.Segs.{text_bounds, text_region, limit_32m, word}

-- Whatever the application provides, of 32-bit addresses and a size with which the memory does not
-- run over the end of the address space: the size that is left is 0, or the memory lies below 32 MB.
pub text_bounds_below :
    (base size from to : ℕ)
    → base + size < word
    → from ≤ to
    → to < word
    → ((text_bounds base size from to).1 ≡ 0)
      ⊎ ((text_bounds base size from to).0 + (text_bounds base size from to).1 ≤ limit_32m)
unfolding text_bounds
text_bounds_below base size from to h p q = ground arith

-- With the CPU's alignment of 8 and a size of at least 8 the region is aligned and lies within the
-- memory set apart.
pub text_region_within :
    (start size : ℕ)
    → 8 ≤ size
    → start + size ≤ limit_32m
    → let r = text_region 8 start size in
      (r.0 % 8 ≡ 0) × (r.1 % 8 ≡ 0) × (start ≤ r.0) × (r.0 + r.1 ≤ start + size)
unfolding text_region
text_region_within start size h p = (omega arith, omega arith, omega arith, omega arith)

-- A size smaller than the step to the next aligned address is not kept: the subtraction wraps, and the
-- region that is asked for has nearly the whole address space.
pub text_region_wraps :
    (start size : ℕ)
    → start < limit_32m
    → 0 < start % 8
    → size < 8 - start % 8
    → 2 ^ 32 - 8 ≤ (text_region 8 start size).1
unfolding text_region
text_region_wraps start size h p q = omega arith
