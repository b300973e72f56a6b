-- ===== src/Types/Arithmetic.antt =====
-- The operators of ctyps.c on integers and pointers, against arithmetic modulo the range of the type.
use rtems_hzb_cexpsh.Base.{
  ℕ, ◌+◌, ◌-◌, ◌*◌, ◌/◌, ◌%◌, ◌^◌, ◌<◌, ◌≡◌, refl, true, false, ltb, ◌==◌, if◌then◌else◌, arith, ap,
  ◌∙◌, Bool-cases, inl, inr,
}
use native.Mathlib.Nat.{div-le_self, mod-lt, mod-eq_of_lt}
use rtems_hzb_cexpsh.Types.{
  invalid_scalar_op, TypedVal, Fpu, ok, type_cast, convert, t_ulong, type_scalarq,
}
use rtems_hzb_cexpsh.Types.Known.{
  Scalar, scalar, scalar_code, scalar_range, value, uchar, ushort, uint, ulong,
}
use rtems_hzb_cexpsh.Types.Casting.{type_cast_implicit}
use rtems_hzb_cexpsh.Types.Ops.{
  Outcome, returns, fails, undefined, word, Arith, number, no_number, no_operator, ulong_op,
  store_result, binop, o_add, o_sub, o_mul, o_div, o_mod,
}

range_small : (s : Scalar) (n : ℕ) → n < scalar_range s → ltb n (2 ^ 32) ≡ true
range_small uchar n h = ground arith
range_small ushort n h = ground arith
range_small uint n h = ground arith
range_small ulong n h = ground arith

-- The casts that `binop` makes of operands and of its result.
pub scalar-ulong :
    (fpu : Fpu) (s : Scalar) (n : ℕ)
    → n < scalar_range s
    → type_cast fpu (value (scalar s) n) t_ulong false ≡ ok (value (scalar ulong) n)
scalar-ulong fpu s n h = type_cast_implicit fpu (scalar s) ulong n h ∙ rw (range_small s n h) refl

pub ulong-scalar :
    (fpu : Fpu) (s : Scalar) (n : ℕ)
    → type_cast fpu (value (scalar ulong) n) (scalar_code s) true
      ≡ ok (value (scalar s) (n % scalar_range s))
unfolding type_cast convert
ulong-scalar fpu uchar n = ground arith
ulong-scalar fpu ushort n = ground arith
ulong-scalar fpu uint n = ground arith
ulong-scalar fpu ulong n = ground arith

pub scalar_code-scalarq : (s : Scalar) → type_scalarq (scalar_code s) ≡ true
scalar_code-scalarq uchar = refl
scalar_code-scalarq ushort = refl
scalar_code-scalarq uint = refl
scalar_code-scalarq ulong = refl

-- What `binop` computes for two integers of one type: the operator on `unsigned long`, cut down to the
-- range of the type.
cut : Scalar → Arith → TypedVal → Outcome
cut s (number n) y = returns (value (scalar s) (n % scalar_range s))
cut s no_operator y = fails invalid_scalar_op (record y { type = t_ulong })
cut s no_number y = undefined

store_result-cut :
    (fpu : Fpu) (y : TypedVal) (s : Scalar) (r : Arith)
    → store_result fpu y (scalar_code s) r ≡ cut s r y
unfolding store_result cut
store_result-cut fpu y s (number n) = rw (ulong-scalar fpu s n) refl
store_result-cut fpu y s no_operator = refl
store_result-cut fpu y s no_number = refl

binop-cut :
    (fpu : Fpu) (y : TypedVal) (s : Scalar) (a b op : ℕ)
    → a < scalar_range s
    → b < scalar_range s
    → binop fpu y (value (scalar s) a) (value (scalar s) b) op ≡ cut s (ulong_op op a b) y
unfolding binop
binop-cut fpu y s a b op p q =
    rw (scalar_code-scalarq s, scalar-ulong fpu s a p, scalar-ulong fpu s b q)
      (store_result-cut fpu y s (ulong_op op a b))

-- Sums, differences and products of two integers of one type are those modulo the range of the type,
-- although they are computed as `unsigned long`.
pub binop_modular :
    (fpu : Fpu) (y : TypedVal) (s : Scalar) (a b : ℕ)
    → a < scalar_range s
    → b < scalar_range s
    → (binop fpu y (value (scalar s) a) (value (scalar s) b) o_add
        ≡ returns (value (scalar s) ((a + b) % scalar_range s)))
      × (binop fpu y (value (scalar s) a) (value (scalar s) b) o_sub
          ≡ returns (value (scalar s) ((a + scalar_range s - b) % scalar_range s)))
      × (binop fpu y (value (scalar s) a) (value (scalar s) b) o_mul
          ≡ returns (value (scalar s) (a * b % scalar_range s)))
unfolding ulong_op cut
binop_modular fpu y s a b p q = (
  binop-cut fpu y s a b o_add p q ∙ ap (λ n. returns (value (scalar s) n)) (sum s p q),
  binop-cut fpu y s a b o_sub p q ∙ ap (λ n. returns (value (scalar s) n)) (difference s p q),
  binop-cut fpu y s a b o_mul p q ∙ ap (λ n. returns (value (scalar s) n)) (product s),
)
  where
    sum :
        (s : Scalar)
        → a < scalar_range s
        → b < scalar_range s
        → (a + b) % word % scalar_range s ≡ (a + b) % scalar_range s
    sum uchar h k = omega arith
    sum ushort h k = omega arith
    sum uint h k = omega arith
    sum ulong h k = omega arith

    difference :
        (s : Scalar)
        → a < scalar_range s
        → b < scalar_range s
        → (a + word - b) % word % scalar_range s ≡ (a + scalar_range s - b) % scalar_range s
    difference uchar h k = omega arith
    difference ushort h k = omega arith
    difference uint h k = omega arith
    difference ulong h k = omega arith

    product : (s : Scalar) → a * b % word % scalar_range s ≡ a * b % scalar_range s
    product uchar = omega arith
    product ushort = omega arith
    product uint = omega arith
    product ulong = omega arith

-- A quotient and a remainder are those of the numbers, and with the divisor 0 what C does is undefined.
pub binop_division :
    (fpu : Fpu) (y : TypedVal) (s : Scalar) (a b : ℕ)
    → a < scalar_range s
    → b < scalar_range s
    → (binop fpu y (value (scalar s) a) (value (scalar s) b) o_div
        ≡ (if b == 0 then undefined else returns (value (scalar s) (a / b))))
      × (binop fpu y (value (scalar s) a) (value (scalar s) b) o_mod
          ≡ (if b == 0 then undefined else returns (value (scalar s) (a % b))))
unfolding ulong_op cut
binop_division fpu y s a b p q = elim (Bool-cases (b == 0)) [
  | inl zero_ ↦ (
    binop-cut fpu y s a b o_div p q ∙ rw zero_ refl,
    binop-cut fpu y s a b o_mod p q ∙ rw zero_ refl,
  )
  | inr other ↦
      let small : a / b < scalar_range s = omega (arith, div-le_self a b) in
      let rest : a % b < b = mod-lt a (ground arith) in
      let low : a % b < scalar_range s = omega arith in
      (
        binop-cut fpu y s a b o_div p q ∙ rw (other, mod-eq_of_lt small) refl,
        binop-cut fpu y s a b o_mod p q ∙ rw (other, mod-eq_of_lt low) refl,
      )
]
