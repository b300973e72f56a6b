-- ===== src/Link/Align.antt =====
-- The alignment of addresses in bfdstuff.c.
use native.Mathlib.Nat.{div-mul-le_self, lt-div-mul-add, mul-mod_left}
use rtems_hzb_cexpsh.Base.{ℕ, zero, suc, ◌+◌, ◌-◌, ◌/◌, ◌%◌, ◌^◌, ◌≤◌, ◌<◌, ◌≡◌, arith}
use rtems_hzb_cexpsh.Link.{align_power}

pub two_pow_pos : (a : ℕ) → 0 < 2 ^ a
two_pow_pos zero = omega arith
two_pow_pos (suc a) = omega (arith, two_pow_pos a)

-- The address is at or above the one that is aligned, by less than the alignment, and a multiple of it.
pub align_power-bounds :
    (v a : ℕ)
    → (v ≤ align_power v a) × (align_power v a ≤ v + (2 ^ a - 1)) × (align_power v a % 2 ^ a ≡ 0)
align_power-bounds v a =
    let pos = two_pow_pos a in
    (
      omega (arith, pos, lt-div-mul-add {a = v + 2 ^ a - 1} pos),
      omega (arith, pos, div-mul-le_self (v + 2 ^ a - 1) (2 ^ a)),
      mul-mod_left ((v + 2 ^ a - 1) / 2 ^ a) (2 ^ a),
    )
