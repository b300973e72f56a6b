-- ===== src/Types/Ops.antt =====
-- The operators of ctyps.c. Each leaves its result in `y`, which it may have changed when it fails. What C
-- leaves undefined (a division by zero, a shift by the width or more) has no result.
use rtems_hzb_cexpsh.Base.{
  ℕ, ◌+◌, ◌-◌, ◌*◌, ◌/◌, ◌%◌, ◌^◌, Bool, true, false, not, ◌&&◌, ◌||◌, ltb, leb, ◌==◌,
  if◌then◌else◌, Option, none, some,
}
use Prim.Native.Nat.{bit_and, bit_or, bit_xor}
use rtems_hzb_cexpsh.Types.{
  TypedVal, Fpu, Message, Result, ok, err, type_cast, type_promote, type_ptrq, type_fpq,
  type_scalarq, base_type_size, t_uchar, t_ushort, t_uint, t_ulong, t_float, t_double,
  pointers_with_floats, unknown_comparison, invalid_scalar_op, invalid_float_op, invalid_double_op,
  pointer_mismatch, invalid_pointers_op, misaligned_pointers, cannot_subtract_pointer,
  invalid_increment, invalid_neg, invalid_complement, unknown_unary,
}

-- `CexpBinOp`
abbrev pub o_lt : ℕ
o_lt = 5

abbrev pub o_le : ℕ
o_le = 6

abbrev pub o_eq : ℕ
o_eq = 7

abbrev pub o_ne : ℕ
o_ne = 8

abbrev pub o_ge : ℕ
o_ge = 9

abbrev pub o_gt : ℕ
o_gt = 10

abbrev pub o_add : ℕ
o_add = 11

abbrev pub o_sub : ℕ
o_sub = 12

abbrev pub o_mul : ℕ
o_mul = 13

abbrev pub o_div : ℕ
o_div = 14

abbrev pub o_mod : ℕ
o_mod = 15

abbrev pub o_shl : ℕ
o_shl = 16

abbrev pub o_shr : ℕ
o_shr = 17

abbrev pub o_and : ℕ
o_and = 18

abbrev pub o_xor : ℕ
o_xor = 19

abbrev pub o_or : ℕ
o_or = 20

-- `CexpUnOp`
abbrev pub o_neg : ℕ
o_neg = 0

abbrev pub o_cpl : ℕ
o_cpl = 1

pub data Outcome : Type 0 where
  returns : TypedVal → Outcome
  fails : Message → TypedVal → Outcome
  undefined : Outcome

abbrev pub word : ℕ
word = 2 ^ 32

-- The operators on `unsigned long`.
pub data Arith : Type 0 where
  number : ℕ → Arith
  no_operator : Arith
  no_number : Arith

unfoldable pub ulong_op : ℕ → ℕ → ℕ → Arith
ulong_op op a b =
    if op == o_add
    then number ((a + b) % word)
    else if op == o_sub
    then number ((a + word - b) % word)
    else if op == o_mul
    then number (a * b % word)
    else if op == o_div
    then (if b == 0 then no_number else number (a / b))
    else if op == o_mod
    then (if b == 0 then no_number else number (a % b))
    else if op == o_shl
    then (if ltb b 32 then number (a * 2 ^ b % word) else no_number)
    else if op == o_shr
    then (if ltb b 32 then number (a / 2 ^ b) else no_number)
    else if op == o_and
    then number (bit_and a b)
    else if op == o_xor
    then number (bit_xor a b)
    else if op == o_or
    then number (bit_or a b)
    else no_operator

abbrev truth : Bool → ℕ
truth b = if b then 1 else 0

unfoldable pub ulong_compare : ℕ → ℕ → ℕ → Option ℕ
ulong_compare op a b =
    if op == o_lt
    then some (truth (ltb a b))
    else if op == o_le
    then some (truth (leb a b))
    else if op == o_eq
    then some (truth (a == b))
    else if op == o_ne
    then some (truth (not (a == b)))
    else if op == o_ge
    then some (truth (leb b a))
    else if op == o_gt
    then some (truth (ltb b a))
    else none

-- Whether it is one of the comparisons.
abbrev pub is_comparison : ℕ → Bool
is_comparison op = leb o_lt op && leb op o_gt

-- `compare`
unfoldable pub compare_op : Fpu → TypedVal → TypedVal → TypedVal → ℕ → Outcome
unfolding ulong_compare
compare_op fpu y x1 x2 op =
    let f = type_fpq x1.type || type_fpq x2.type in
    let common = if f then t_double else t_ulong in
    let y' = record y { type = t_ulong } in
    if f && (type_ptrq x1.type || type_ptrq x2.type)
    then fails pointers_with_floats y
    else elim (type_cast fpu x1 common false) [
      | err m ↦ fails m y'
      | ok a ↦ elim (type_cast fpu x2 common false) [
        | err m ↦ fails m y'
        | ok b ↦
            if f
            then (if is_comparison op
                then returns (record { tv = truth (fpu.d_cmp op a.tv b.tv); type = t_ulong })
                else fails unknown_comparison y')
            else elim (ulong_compare op a.tv b.tv) [
              | none ↦ fails unknown_comparison y'
              | some n ↦ returns (record { tv = n; type = t_ulong })
            ]
      ]
    ]

-- The cast of a result, in `y` itself.
abbrev into : Result TypedVal → TypedVal → Outcome
into (ok v) y = returns v
into (err m) y = fails m y

abbrev float_op : (ℕ → ℕ → ℕ → ℕ) → Message → TypedVal → ℕ → ℕ → ℕ → Outcome
float_op calc m y op a b =
    if leb o_add op && leb op o_div then returns (record y { tv = calc op a b }) else fails m y

-- What `binop` asserts: two values of one type, which is no pointer.
abbrev pub binop_asserts : TypedVal → TypedVal → Bool
binop_asserts x1 x2 = x1.type == x2.type && not (type_ptrq x1.type)

-- The result on `unsigned long` is stored in `y` and cast to the type of the operands.
unfoldable pub store_result : Fpu → TypedVal → ℕ → Arith → Outcome
store_result fpu y res (number n) =
    let r : TypedVal = record { tv = n; type = t_ulong } in into (type_cast fpu r res true) r
store_result fpu y res no_operator = fails invalid_scalar_op (record y { type = t_ulong })
store_result fpu y res no_number = undefined

-- `binop`
unfoldable pub binop : Fpu → TypedVal → TypedVal → TypedVal → ℕ → Outcome
unfolding ulong_op store_result
binop fpu y x1 x2 op =
    let y'' = record y { type = x1.type } in
    if type_scalarq x1.type
    then elim (type_cast fpu x1 t_ulong false) [
      | err m ↦ fails m y
      | ok a ↦ elim (type_cast fpu x2 t_ulong false) [
        | err m ↦ fails m y
        | ok b ↦ store_result fpu y x1.type (ulong_op op a.tv b.tv)
      ]
    ]
    else if x1.type == t_float
    then float_op fpu.f_op invalid_float_op y'' op x1.tv x2.tv
    else if x1.type == t_double
    then float_op fpu.d_op invalid_double_op y'' op x1.tv x2.tv
    else returns y''

-- The difference of two pointers.
unfoldable pub pointer_diff : TypedVal → TypedVal → TypedVal → ℕ → Outcome
pointer_diff y x1 x2 op =
    let diff = (x1.tv + word - x2.tv) % word in
    let s = base_type_size x1.type in
    let y' = record y { type = t_ulong } in
    if not (x1.type == x2.type)
    then fails pointer_mismatch y
    else if not (op == o_sub)
    then fails invalid_pointers_op y
    else if s == 0
    then undefined
    else if not (diff % s == 0)
    then fails misaligned_pointers y'
    else returns (record { tv = diff / s; type = t_ulong })

-- The sum of a pointer and an increment, or the difference.
unfoldable pub pointer_step : Fpu → TypedVal → TypedVal → TypedVal → ℕ → Outcome
pointer_step fpu y ptr inc op =
    if ltb o_sub op then fails invalid_increment y else elim (type_cast fpu inc t_ulong false) [
      | err m ↦ fails invalid_increment y
      | ok v ↦
          let step = v.tv * base_type_size ptr.type % word in
          if op == o_sub
          then returns (record { tv = (ptr.tv + word - step) % word; type = ptr.type })
          else returns (record { tv = (ptr.tv + step) % word; type = ptr.type })
    ]

-- `cexpTVBinOp`
unfoldable pub tv_bin_op : Fpu → TypedVal → TypedVal → TypedVal → ℕ → Outcome
unfolding compare_op binop pointer_diff pointer_step
tv_bin_op fpu y x1 x2 op =
    if ltb op o_add
    then compare_op fpu y x1 x2 op
    else if type_ptrq x1.type
    then (if type_ptrq x2.type then pointer_diff y x1 x2 op else pointer_step fpu y x1 x2 op)
    else if type_ptrq x2.type
    then (if op == o_sub then fails cannot_subtract_pointer y else pointer_step fpu y x2 x1 op)
    else elim (type_promote fpu x1 x2) [ err m ↦ fails m y | ok (v, w) ↦ binop fpu y v w op ]

-- Minus a number of `m` values.
abbrev negated : ℕ → ℕ → ℕ
negated m n = (m - n % m) % m

-- `cexpTVUnOp`
unfoldable pub tv_un_op : Fpu → TypedVal → TypedVal → ℕ → Outcome
tv_un_op fpu y x op =
    let y' = record y { type = x.type } in
    if op == o_neg
    then (if x.type == t_uchar
        then returns (record x { tv = negated (2 ^ 8) x.tv })
        else if x.type == t_ushort
        then returns (record x { tv = negated (2 ^ 16) x.tv })
        else if x.type == t_uint
        then returns (record x { tv = negated word x.tv })
        else if x.type == t_ulong
        then returns (record x { tv = negated word x.tv })
        else if x.type == t_float
        then returns (record x { tv = fpu.f_neg x.tv })
        else if x.type == t_double
        then returns (record x { tv = fpu.d_neg x.tv })
        else fails invalid_neg y')
    else if op == o_cpl
    then (if not (type_scalarq x.type)
        then fails invalid_complement y'
        else elim (type_cast fpu x t_ulong false) [
          | err m ↦ fails m x
          | ok v ↦
              let r : TypedVal = record v { tv = word - 1 - v.tv } in
              into (type_cast fpu r x.type true) r
        ])
    else fails unknown_unary y'
