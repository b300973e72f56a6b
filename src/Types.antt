-- ===== src/Types.antt =====
-- ctyps.h and ctyps.c: the types of the interpreter, and the casts between typed values. The sizes are
-- those of the 32-bit processors that the program is for: `int`, `long`, pointers and `float` have 4
-- bytes, `double` has 8. A value is the number that the bytes of its union's member form, the member
-- being that of the value's type. Floating point is a parameter.
pub mod Known
pub mod Casting
pub mod Arithmetic
pub mod Pointers
pub mod Tests
pub mod Ops
pub mod Cells
pub mod Bytes
pub mod Calling
pub mod Call
use rtems_hzb_cexpsh.Base.{
  ℕ, ◌+◌, ◌*◌, ◌/◌, ◌%◌, ◌^◌, Bool, true, false, not, ◌&&◌, ltb, leb, ◌==◌, if◌then◌else◌, Option,
  none, some,
}

-- `CexpType`
abbrev pub t_void : ℕ
t_void = 0

abbrev pub t_void_p : ℕ
t_void_p = 0 + 0x100 + 1

abbrev pub t_uchar : ℕ
t_uchar = 2 + 0x100

abbrev pub t_uchar_p : ℕ
t_uchar_p = 2 + 0x100 + 1

abbrev pub t_ushort : ℕ
t_ushort = 4 + 0x200

abbrev pub t_ushort_p : ℕ
t_ushort_p = 4 + 0x200 + 1

abbrev pub t_uint : ℕ
t_uint = 6 + 0x400

abbrev pub t_uint_p : ℕ
t_uint_p = 6 + 0x400 + 1

abbrev pub t_ulong : ℕ
t_ulong = 8 + 0x400

abbrev pub t_ulong_p : ℕ
t_ulong_p = 8 + 0x400 + 1

abbrev pub t_float : ℕ
t_float = 10 + 0x400

abbrev pub t_float_p : ℕ
t_float_p = 10 + 0x400 + 1

abbrev pub t_double : ℕ
t_double = 12 + 0x800

abbrev pub t_double_p : ℕ
t_double_p = 12 + 0x800 + 1

-- `TULong | CEXP_FUN_BIT | CEXP_PTR_BIT`, and with `TDouble`
abbrev pub t_func_p : ℕ
t_func_p = t_ulong + 0x40 + 1

abbrev pub t_dfunc_p : ℕ
t_dfunc_p = t_double + 0x40 + 1

-- `CEXP_TYPE_PTRQ`, `CEXP_TYPE_INDX`, `CEXP_TYPE_FUNQ`
abbrev pub type_ptrq : ℕ → Bool
type_ptrq t = t % 2 == 1

abbrev pub type_indx : ℕ → ℕ
type_indx t = t % 0x20 / 2

abbrev pub type_funq : ℕ → Bool
type_funq t = t / 0x40 % 2 == 1

-- `CEXP_TYPE_SCALARQ`, `CEXP_TYPE_FPQ`
abbrev pub type_scalarq : ℕ → Bool
type_scalarq t =
    not (type_ptrq t)
    && leb (type_indx t_uchar) (type_indx t)
    && leb (type_indx t) (type_indx t_ulong)

abbrev pub type_fpq : ℕ → Bool
type_fpq t = not (type_ptrq t) && leb (type_indx t_float) (type_indx t)

-- `CEXP_BASE_TYPE_SIZE`, `CEXP_TYPE_SIZE`
abbrev pub base_type_size : ℕ → ℕ
base_type_size t = t / 0x100 % 0x100

abbrev pub type_size : ℕ → ℕ
type_size t = if type_ptrq t then 4 else base_type_size t

-- `CEXP_TYPE_PTR2BASE` clears two bits, `CEXP_TYPE_BASE2PTR` sets one.
abbrev pub type_ptr2base : ℕ → ℕ
type_ptr2base t = t / 0x80 * 0x80 + t % 0x40 / 2 * 2

abbrev pub type_base2ptr : ℕ → ℕ
type_base2ptr t = t / 2 * 2 + 1

-- `CexpTypedValRec`
pub record TypedVal : Type 0 where
  pub tv : ℕ
  pub type : ℕ

-- What the compiler and the processor do with floating point numbers, as bit patterns: conversions from
-- and to integers below a bound, between the two formats, arithmetic and comparison by the operator's
-- number, negation, and whether a number is not zero.
pub record Fpu : Type 0 where
  pub f_of : ℕ → ℕ
  pub d_of : ℕ → ℕ
  pub f_to : ℕ → ℕ → ℕ
  pub d_to : ℕ → ℕ → ℕ
  pub d_of_f : ℕ → ℕ
  pub f_of_d : ℕ → ℕ
  pub f_op : ℕ → ℕ → ℕ → ℕ
  pub d_op : ℕ → ℕ → ℕ → ℕ
  pub d_cmp : ℕ → ℕ → ℕ → Bool
  pub f_neg : ℕ → ℕ
  pub d_neg : ℕ → ℕ
  pub f_true : ℕ → Bool
  pub d_true : ℕ → Bool

-- The messages.
pub data Message : Type 0 where
  target_too_small : Message
  would_truncate : Message
  forbidden_cast : Message
  null_pointer : Message
  invalid_deref : Message
  address_of_pointer : Message
  pointers_with_floats : Message
  unknown_comparison : Message
  invalid_scalar_op : Message
  invalid_float_op : Message
  invalid_double_op : Message
  pointer_mismatch : Message
  invalid_pointers_op : Message
  misaligned_pointers : Message
  cannot_subtract_pointer : Message
  invalid_increment : Message
  invalid_left_hand : Message
  invalid_neg : Message
  invalid_complement : Message
  unknown_unary : Message
  refuse_promote : Message
  void_value : Message
  unknown_type : Message
  need_function : Message
  null_function : Message
  too_many_args : Message

pub data Result (A : Type 0) : Type 0 where
  ok : A → Result A
  err : Message → Result A

-- What one more than the numbers that a member of that index holds is; the index 0 is the pointer's.
abbrev pub range : ℕ → ℕ
range i = if i == 1 then 2 ^ 8 else if i == 2 then 2 ^ 16 else 2 ^ 32

-- The converters, by row and column of `ctab`; those from floating point to a pointer are null.
unfoldable pub convert : Fpu → ℕ → ℕ → ℕ → Option ℕ
convert fpu from to n =
    if leb from 4
    then (if leb to 4
        then some (n % range from % range to)
        else if to == 5
        then some (fpu.f_of (n % range from))
        else some (fpu.d_of (n % range from)))
    else if to == 0
    then none
    else if from == 5
    then (if leb to 4
        then some (fpu.f_to (range to) n)
        else if to == 5
        then some n
        else some (fpu.d_of_f n))
    else (if leb to 4
        then some (fpu.d_to (range to) n)
        else if to == 5
        then some (fpu.f_of_d n)
        else some n)

-- What `fits` compares: the pointer, or the integer of the type.
abbrev pub number_of : TypedVal → ℕ
number_of v =
    if type_ptrq v.type
    then v.tv
    else if v.type == t_uchar
    then v.tv % 2 ^ 8
    else if v.type == t_ushort
    then v.tv % 2 ^ 16
    else if v.type == t_uint
    then v.tv
    else if v.type == t_ulong
    then v.tv
    else 0

-- The part of `fits` for a smaller type.
abbrev pub fits_size : TypedVal → ℕ → Bool
fits_size v t =
    if ltb (type_size t) (type_size v.type)
    then (if v.type == t_float
        then false
        else if v.type == t_double
        then false
        else ltb (number_of v) (2 ^ (8 * type_size t)))
    else true

-- `fits`: of the integers, only those of type `TULong` and `TUInt` count as too big for a `TFloat`.
unfoldable pub fits : TypedVal → ℕ → Bool
fits v t =
    if type_fpq t && not (type_fpq v.type)
    then (if t == t_float
        then ltb (if v.type == t_ulong then v.tv else if v.type == t_uint then v.tv else 0) (2 ^ 24)
        else fits_size v t)
    else if not (type_fpq t) && type_fpq v.type
    then false
    else fits_size v t

-- The row and the column of `ctab`.
abbrev pub from_indx : ℕ → ℕ
from_indx t = if type_ptrq t then type_indx t_void_p else type_indx t

abbrev pub to_indx : ℕ → ℕ → ℕ
to_indx from t =
    if type_ptrq from then type_indx t else if type_ptrq t then type_indx t_void_p else type_indx t

-- `cexpTypeCast`; with `force` for `CNV_FORCE`. On an error the value is as before.
unfoldable pub type_cast : Fpu → TypedVal → ℕ → Bool → Result TypedVal
unfolding convert fits
type_cast fpu v t force =
    if type_ptrq v.type && type_ptrq t
    then (if not force && ltb (base_type_size v.type) (base_type_size t)
        then err target_too_small
        else ok (record v { type = t }))
    else elim (convert fpu (from_indx v.type) (to_indx v.type t) v.tv) [
      | none ↦ err forbidden_cast
      | some n ↦
          if not force && not (fits v t)
          then err would_truncate
          else ok (record { tv = n; type = t })
    ]

-- `cexpTypePromote`: the two values, one of them cast to the type of the other.
unfoldable pub type_promote : Fpu → TypedVal → TypedVal → Result (TypedVal × TypedVal)
unfolding type_cast
type_promote fpu a b =
    let cast_a = elim (type_cast fpu a b.type false) as (λ _. Result (TypedVal × TypedVal)) [
      | ok a' ↦ ok (a', b)
      | err m ↦ err m
    ] in
    let cast_b = elim (type_cast fpu b a.type false) as (λ _. Result (TypedVal × TypedVal)) [
      | ok b' ↦ ok (a, b')
      | err m ↦ err m
    ] in
    if type_ptrq a.type
    then err refuse_promote
    else if type_ptrq b.type
    then err refuse_promote
    else if type_fpq a.type
    then (if type_fpq b.type
        then (if ltb (base_type_size b.type) (base_type_size a.type) then cast_b else cast_a)
        else cast_b)
    else if type_fpq b.type
    then cast_a
    else if ltb (base_type_size b.type) (base_type_size a.type)
    then cast_b
    else cast_a

-- `cexpTVTrueQ`; a type that is none of these meets an assertion.
unfoldable pub true_q : Fpu → TypedVal → Option ℕ
true_q fpu v =
    if type_ptrq v.type
    then some (if v.tv == 0 then 0 else 1)
    else if v.type == t_float
    then some (if fpu.f_true v.tv then 1 else 0)
    else if v.type == t_double
    then some (if fpu.d_true v.tv then 1 else 0)
    else if type_scalarq v.type
    then some (number_of v)
    else none

-- `cexpTypeGuessFromSize`
unfoldable pub type_guess_from_size : ℕ → ℕ
type_guess_from_size s =
    if base_type_size t_uchar_p == s
    then t_uchar
    else if base_type_size t_ushort_p == s
    then t_ushort
    else if base_type_size t_ulong_p == s
    then t_ulong
    else if base_type_size t_uint_p == s
    then t_uint
    else if base_type_size t_double_p == s
    then t_double
    else if base_type_size t_float_p == s
    then t_float
    else t_void
