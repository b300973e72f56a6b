-- ===== src/Types/Cells.antt =====
-- Typed addresses of ctyps.c: what stands in memory behind an address of a union, read, written and
-- pointed to. Memory is a function from addresses to bytes; `big` tells whether the most significant byte of
-- a member comes first.
use rtems_hzb_cexpsh.Base.{ℕ, zero, suc, ◌+◌, ◌*◌, ◌/◌, ◌%◌, Bool, false, ◌||◌, ◌==◌, if◌then◌else◌}
use rtems_hzb_cexpsh.Types.{
  TypedVal, Fpu, Result, ok, err, type_cast, type_ptrq, type_ptr2base, type_base2ptr, t_void,
  t_uchar, t_uchar_p, t_ushort, t_ushort_p, t_uint, t_uint_p, t_ulong, t_ulong_p, t_float,
  t_float_p, t_double, t_double_p, null_pointer, invalid_deref, address_of_pointer,
  invalid_left_hand, void_value, unknown_type,
}

-- `CexpTypedAddrRec`
pub record TypedAddr : Type 0 where
  pub ptv : ℕ
  pub type : ℕ

abbrev pub Cells : Type 0
Cells = ℕ → ℕ

-- How many bytes the member of the type has.
abbrev pub member_size : ℕ → ℕ
member_size t =
    if t == t_uchar then 1 else if t == t_ushort then 2 else if t == t_double then 8 else 4

-- Whether the type is one of the numbers.
abbrev pub is_number : ℕ → Bool
is_number t =
    t == t_uchar || t == t_ushort || t == t_uint || t == t_ulong || t == t_float || t == t_double

abbrev pub put_byte : Cells → ℕ → ℕ → Cells
put_byte m a n x = if x == a then n % 256 else m x

-- The bytes of a member, written in either order.
unfoldable pub store_little : ℕ → Cells → ℕ → ℕ → Cells
store_little zero m a n = m
store_little (suc k) m a n = put_byte (store_little k m (a + 1) (n / 256)) a n

unfoldable pub store_big : ℕ → Cells → ℕ → ℕ → Cells
store_big zero m a n = m
store_big (suc k) m a n = put_byte (store_big k m a (n / 256)) (a + k) n

unfoldable pub store : Bool → ℕ → Cells → ℕ → ℕ → Cells
unfolding store_little store_big
store big k m a n = if big then store_big k m a n else store_little k m a n

-- And read.
unfoldable pub load_little : ℕ → Cells → ℕ → ℕ
load_little zero m a = 0
load_little (suc k) m a = m a % 256 + 256 * load_little k m (a + 1)

unfoldable pub load_big : ℕ → Cells → ℕ → ℕ
load_big zero m a = 0
load_big (suc k) m a = 256 * load_big k m a + m (a + k) % 256

unfoldable pub load : Bool → ℕ → Cells → ℕ → ℕ
unfolding load_little load_big
load big k m a = if big then load_big k m a else load_little k m a

-- `cexpTVAssign`: the memory after it.
unfoldable pub tv_assign : Bool → Fpu → Cells → TypedAddr → TypedVal → Result Cells
unfolding store
tv_assign big fpu m y x = elim (type_cast fpu x y.type false) [
  | err e ↦ err e
  | ok xx ↦
      if is_number y.type || type_ptrq y.type
      then ok (store big (member_size y.type) m y.ptv xx.tv)
      else err invalid_left_hand
]

-- `cexpTA2TV`
unfoldable pub ta_to_tv : Bool → Cells → TypedAddr → Result TypedVal
unfolding load
ta_to_tv big m a =
    if a.ptv == 0
    then err null_pointer
    else if a.type == t_void
    then err void_value
    else if is_number a.type || type_ptrq a.type
    then ok (record { tv = load big (member_size a.type) m a.ptv; type = a.type })
    else err unknown_type

-- `cexpTVPtr`
unfoldable pub tv_ptr : TypedAddr → Result TypedVal
tv_ptr a =
    if type_ptrq a.type
    then err address_of_pointer
    else ok (record { tv = a.ptv; type = type_base2ptr a.type })

-- `cexpTVPtrDeref`
unfoldable pub tv_ptr_deref : Bool → Cells → TypedVal → Result TypedVal
unfolding load
tv_ptr_deref big m from =
    let t = type_ptr2base from.type in
    if from.tv == 0
    then err null_pointer
    else if from.type == t_uchar_p
        || from.type == t_ushort_p
        || from.type == t_uint_p
        || from.type == t_ulong_p
        || from.type == t_float_p
        || from.type == t_double_p
    then ok (record { tv = load big (member_size t) m from.tv; type = t })
    else err invalid_deref
