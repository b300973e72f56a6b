-- ===== src/Types/Casting.antt =====
-- What `cexpTypeCast` and `cexpTypePromote` do to integers and pointers.
use rtems_hzb_cexpsh.Base.{
  ℕ, ◌%◌, ◌^◌, ◌<◌, ◌≡◌, refl, Bool, true, false, ltb, if◌then◌else◌, arith, Option-cases, inl, inr,
  ◌⊎◌,
}
use rtems_hzb_cexpsh.Types.{
  TypedVal, Fpu, Message, Result, from_indx, to_indx, ok, err, would_truncate, type_cast,
  type_promote, fits, convert, t_float,
}
use rtems_hzb_cexpsh.Types.Known.{
  Scalar, Pointer, Integral, scalar, pointer, scalar_code, scalar_range, code, bound_of, value,
  pointer_code-ptrq, uchar, ushort, uint, ulong, void_p, uchar_p, ushort_p, uint_p, ulong_p,
  float_p, double_p, func_p, dfunc_p,
}
use rtems_hzb_cexpsh.Types.Ops.{binop_asserts}

-- An implicit cast of an integer or a pointer to an integer type succeeds exactly if the number is in the
-- range of the type, and then keeps it.
pub type_cast_implicit :
    (fpu : Fpu) (k : Integral) (s : Scalar) (n : ℕ)
    → n < bound_of k
    → type_cast fpu (value k n) (scalar_code s) false
      ≡ (if ltb n (scalar_range s) then ok (value (scalar s) n) else err would_truncate)
unfolding type_cast convert fits
type_cast_implicit fpu (scalar uchar) uchar n h = ground arith
type_cast_implicit fpu (scalar uchar) ushort n h = ground arith
type_cast_implicit fpu (scalar uchar) uint n h = ground arith
type_cast_implicit fpu (scalar uchar) ulong n h = ground arith
type_cast_implicit fpu (scalar ushort) uchar n h = ground arith
type_cast_implicit fpu (scalar ushort) ushort n h = ground arith
type_cast_implicit fpu (scalar ushort) uint n h = ground arith
type_cast_implicit fpu (scalar ushort) ulong n h = ground arith
type_cast_implicit fpu (scalar uint) uchar n h = ground arith
type_cast_implicit fpu (scalar uint) ushort n h = ground arith
type_cast_implicit fpu (scalar uint) uint n h = ground arith
type_cast_implicit fpu (scalar uint) ulong n h = ground arith
type_cast_implicit fpu (scalar ulong) uchar n h = ground arith
type_cast_implicit fpu (scalar ulong) ushort n h = ground arith
type_cast_implicit fpu (scalar ulong) uint n h = ground arith
type_cast_implicit fpu (scalar ulong) ulong n h = ground arith
type_cast_implicit fpu (pointer p) uchar n h = rw (pointer_code-ptrq p) (ground arith)
type_cast_implicit fpu (pointer p) ushort n h = rw (pointer_code-ptrq p) (ground arith)
type_cast_implicit fpu (pointer p) uint n h = rw (pointer_code-ptrq p) (ground arith)
type_cast_implicit fpu (pointer p) ulong n h = rw (pointer_code-ptrq p) (ground arith)

-- An explicit cast never fails, and keeps the number modulo the range of the type.
pub type_cast_explicit :
    (fpu : Fpu) (k t : Integral) (n : ℕ)
    → n < bound_of k
    → type_cast fpu (value k n) (code t) true ≡ ok (value t (n % bound_of t))
unfolding type_cast convert
type_cast_explicit fpu (scalar uchar) (scalar uchar) n h = ground arith
type_cast_explicit fpu (scalar uchar) (scalar ushort) n h = ground arith
type_cast_explicit fpu (scalar uchar) (scalar uint) n h = ground arith
type_cast_explicit fpu (scalar uchar) (scalar ulong) n h = ground arith
type_cast_explicit fpu (scalar ushort) (scalar uchar) n h = ground arith
type_cast_explicit fpu (scalar ushort) (scalar ushort) n h = ground arith
type_cast_explicit fpu (scalar ushort) (scalar uint) n h = ground arith
type_cast_explicit fpu (scalar ushort) (scalar ulong) n h = ground arith
type_cast_explicit fpu (scalar uint) (scalar uchar) n h = ground arith
type_cast_explicit fpu (scalar uint) (scalar ushort) n h = ground arith
type_cast_explicit fpu (scalar uint) (scalar uint) n h = ground arith
type_cast_explicit fpu (scalar uint) (scalar ulong) n h = ground arith
type_cast_explicit fpu (scalar ulong) (scalar uchar) n h = ground arith
type_cast_explicit fpu (scalar ulong) (scalar ushort) n h = ground arith
type_cast_explicit fpu (scalar ulong) (scalar uint) n h = ground arith
type_cast_explicit fpu (scalar ulong) (scalar ulong) n h = ground arith
type_cast_explicit fpu (pointer p) (scalar uchar) n h = rw (pointer_code-ptrq p) (ground arith)
type_cast_explicit fpu (pointer p) (scalar ushort) n h = rw (pointer_code-ptrq p) (ground arith)
type_cast_explicit fpu (pointer p) (scalar uint) n h = rw (pointer_code-ptrq p) (ground arith)
type_cast_explicit fpu (pointer p) (scalar ulong) n h = rw (pointer_code-ptrq p) (ground arith)
type_cast_explicit fpu (scalar uchar) (pointer p) n h = rw (pointer_code-ptrq p) (ground arith)
type_cast_explicit fpu (scalar ushort) (pointer p) n h = rw (pointer_code-ptrq p) (ground arith)
type_cast_explicit fpu (scalar uint) (pointer p) n h = rw (pointer_code-ptrq p) (ground arith)
type_cast_explicit fpu (scalar ulong) (pointer p) n h = rw (pointer_code-ptrq p) (ground arith)
type_cast_explicit fpu (pointer p) (pointer q) n h =
    rw (pointer_code-ptrq p, pointer_code-ptrq q) (ground arith)

pub type_cast-type :
    (fpu : Fpu) (v v' : TypedVal) (t : ℕ) (force : Bool)
    → type_cast fpu v t force ≡ ok v'
    → v'.type ≡ t
unfolding type_cast
type_cast-type fpu v v' t force e =
    elim (Option-cases (convert fpu (from_indx v.type) (to_indx v.type t) v.tv)) [
      | inl n ↦ ground arith
      | inr (x, s) ↦ ground arith
    ]

pub Result-cases :
    {A : Type 0} (r : Result A) → ((v : A) × (r ≡ ok v)) ⊎ ((m : Message) × (r ≡ err m))
Result-cases (ok v) = inl (v, refl)
Result-cases (err m) = inr (m, refl)

-- When `cexpTypePromote` succeeds the two values have one type, which is no pointer: what `binop` asserts.
pub type_promote_asserts :
    (fpu : Fpu) (a b a' b' : TypedVal)
    → type_promote fpu a b ≡ ok (a', b')
    → binop_asserts a' b' ≡ true
unfolding type_promote
type_promote_asserts fpu a b a' b' e = elim (Result-cases (type_cast fpu a b.type false)) [
  | inl (v, x) ↦ elim (Result-cases (type_cast fpu b a.type false)) [
    | inl (w, y) ↦
        ground (arith, type_cast-type fpu a v b.type false x, type_cast-type fpu b w a.type false y)
    | inr (m, y) ↦ ground (arith, type_cast-type fpu a v b.type false x)
  ]
  | inr (m, x) ↦ elim (Result-cases (type_cast fpu b a.type false)) [
    | inl (w, y) ↦ ground (arith, type_cast-type fpu b w a.type false y)
    | inr (n, y) ↦ ground arith
  ]
]

-- A pointer passes for 0 when it is cast to a `float` implicitly, so the cast succeeds whatever the
-- address, also where the `float` has fewer digits.
pub type_cast_pointer_float :
    (fpu : Fpu) (p : Pointer) (n : ℕ)
    → type_cast fpu (value (pointer p) n) t_float false
      ≡ ok (record { tv = fpu.f_of (n % 2 ^ 32); type = t_float })
unfolding type_cast convert fits
type_cast_pointer_float fpu void_p n = refl
type_cast_pointer_float fpu uchar_p n = refl
type_cast_pointer_float fpu ushort_p n = refl
type_cast_pointer_float fpu uint_p n = refl
type_cast_pointer_float fpu ulong_p n = refl
type_cast_pointer_float fpu float_p n = refl
type_cast_pointer_float fpu double_p n = refl
type_cast_pointer_float fpu func_p n = refl
type_cast_pointer_float fpu dfunc_p n = refl
