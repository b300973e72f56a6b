-- ===== src/Types/Call.antt =====
-- `cexpTVFnCall` of ctyps.c, the portable one: the arguments, and the index of the routine in the jump
-- table that calls with their kinds. The call itself is a parameter.
use rtems_hzb_cexpsh.Base.{
  ℕ, zero, suc, ◌+◌, ◌-◌, ◌*◌, ◌/◌, ◌%◌, ◌^◌, Bool, false, not, ◌&&◌, ◌==◌, ltb, if◌then◌else◌,
  List, [], ◌∷◌, ◌++◌, length, replicate,
}
use rtems_hzb_cexpsh.Types.{
  TypedVal, Fpu, Result, ok, err, type_cast, type_fpq, type_funq, type_ptr2base, t_ulong, t_double,
  need_function, null_function, too_many_args,
}

-- `MAXARGS`, and `MAXBITS` of gentab.c
abbrev pub max_args : ℕ
max_args = 10

abbrev pub max_bits : ℕ
max_bits = 5

-- The arguments as they are cast, and `fpargs`: a bit for each, the last argument's the lowest.
pub record Args : Type 0 where
  pub args : List TypedVal
  pub fpargs : ℕ

-- The loop over the arguments.
unfoldable pub collect : Fpu → List TypedVal → Args → Result Args
collect fpu [] a = ok a
collect fpu (v ∷ vs) a =
    let fp = type_fpq v.type in
    let rest = λ (v' : TypedVal).
      collect fpu vs
        (record { args = a.args ++ v' ∷ []; fpargs = a.fpargs * 2 + (if fp then 1 else 0) }) in
    if ltb (length a.args) max_args
    then elim (type_cast fpu v (if fp then t_double else t_ulong) false) [
      | err m ↦ err m
      | ok v' ↦ rest v'
    ]
    else err too_many_args

abbrev pub zero_arg : TypedVal
zero_arg = record { tv = 0; type = t_ulong }

-- `fpargs <<= 1` for each argument that is added.
unfoldable pub shift_left : ℕ → ℕ → ℕ
shift_left zero n = n
shift_left (suc k) n = shift_left k (n * 2)

-- The padding with zeroes.
unfoldable pub pad : Args → Args
unfolding shift_left
pad a =
    let missing = (if a.fpargs == 0 then max_args else max_bits) - length a.args in
    record { args = a.args ++ replicate missing zero_arg; fpargs = shift_left missing a.fpargs }

-- `cexpTVFnCall` up to the call: `call` has the address, the index in the jump table and the arguments.
unfoldable pub tv_fn_call : Fpu → (ℕ → Args → ℕ) → TypedVal → List TypedVal → Result TypedVal
unfolding collect pad
tv_fn_call fpu call fn vs =
    if not (type_funq fn.type)
    then err need_function
    else if fn.tv == 0
    then err null_function
    else elim (collect fpu vs (record { args = []; fpargs = 0 })) [
      | err m ↦ err m
      | ok a ↦
          if not (a.fpargs == 0) && ltb max_bits (length a.args)
          then err too_many_args
          else ok (record { tv = call fn.tv (pad a); type = type_ptr2base fn.type })
    ]

-- The members that the wrapper of gentab.c for an index passes its arguments in: `true` for `double`.
unfoldable pub kinds_from : ℕ → ℕ → List Bool
kinds_from zero mask = []
kinds_from (suc k) mask = (mask / 2 ^ k % 2 == 1) ∷ kinds_from k mask

unfoldable pub call_kinds : ℕ → List Bool
unfolding kinds_from
call_kinds mask = kinds_from max_bits mask
