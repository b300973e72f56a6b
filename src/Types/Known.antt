-- ===== src/Types/Known.antt =====
-- The types of `CexpType` one by one, to be split on, and the range of each type's integers.
use rtems_hzb_cexpsh.Base.{ℕ, ◌^◌, ◌≡◌, refl, true}
use rtems_hzb_cexpsh.Types.{
  TypedVal, type_ptrq, t_void_p, t_uchar, t_uchar_p, t_ushort, t_ushort_p, t_uint, t_uint_p,
  t_ulong, t_ulong_p, t_float_p, t_double_p, t_func_p, t_dfunc_p,
}

-- The unsigned integers.
pub data Scalar : Type 0 where
  uchar : Scalar
  ushort : Scalar
  uint : Scalar
  ulong : Scalar

abbrev pub scalar_code : Scalar → ℕ
scalar_code uchar = t_uchar
scalar_code ushort = t_ushort
scalar_code uint = t_uint
scalar_code ulong = t_ulong

abbrev pub scalar_range : Scalar → ℕ
scalar_range uchar = 2 ^ 8
scalar_range ushort = 2 ^ 16
scalar_range uint = 2 ^ 32
scalar_range ulong = 2 ^ 32

-- The pointers with the size of what they point to.
pub data Pointer : Type 0 where
  void_p : Pointer
  uchar_p : Pointer
  ushort_p : Pointer
  uint_p : Pointer
  ulong_p : Pointer
  float_p : Pointer
  double_p : Pointer
  func_p : Pointer
  dfunc_p : Pointer

abbrev pub pointer_code : Pointer → ℕ
pointer_code void_p = t_void_p
pointer_code uchar_p = t_uchar_p
pointer_code ushort_p = t_ushort_p
pointer_code uint_p = t_uint_p
pointer_code ulong_p = t_ulong_p
pointer_code float_p = t_float_p
pointer_code double_p = t_double_p
pointer_code func_p = t_func_p
pointer_code dfunc_p = t_dfunc_p

abbrev pub element_size : Pointer → ℕ
element_size void_p = 1
element_size uchar_p = 1
element_size ushort_p = 2
element_size uint_p = 4
element_size ulong_p = 4
element_size float_p = 4
element_size double_p = 8
element_size func_p = 4
element_size dfunc_p = 8

-- What holds an integer: a scalar or a pointer.
pub data Integral : Type 0 where
  scalar : Scalar → Integral
  pointer : Pointer → Integral

abbrev pub code : Integral → ℕ
code (scalar s) = scalar_code s
code (pointer p) = pointer_code p

abbrev pub bound_of : Integral → ℕ
bound_of (scalar s) = scalar_range s
bound_of (pointer p) = 2 ^ 32

abbrev pub value : Integral → ℕ → TypedVal
value k n = record { tv = n; type = code k }

pub pointer_code-ptrq : (p : Pointer) → type_ptrq (pointer_code p) ≡ true
pointer_code-ptrq void_p = refl
pointer_code-ptrq uchar_p = refl
pointer_code-ptrq ushort_p = refl
pointer_code-ptrq uint_p = refl
pointer_code-ptrq ulong_p = refl
pointer_code-ptrq float_p = refl
pointer_code-ptrq double_p = refl
pointer_code-ptrq func_p = refl
pointer_code-ptrq dfunc_p = refl
