-- ===== src/Types/Tests.antt =====
-- Runs of the code of ctyps.c, and each theorem about it at an input.
use rtems_hzb_cexpsh.Base.{
  ℕ, ◌+◌, ◌-◌, ◌*◌, ◌%◌, ◌<◌, ◌≤◌, ◌≡◌, ◌⊎◌, refl, true, false, ltb, if◌then◌else◌, List, [], ◌∷◌,
  ◌++◌, length, replicate, arith,
}
use rtems_hzb_cexpsh.Types.{
  TypedVal, Fpu, ok, err, would_truncate, type_cast, type_promote, convert, fits, t_void, t_double,
  t_func_p, t_ulong, type_ptr2base,
}
use rtems_hzb_cexpsh.Types.Known.{
  scalar, pointer, scalar_code, scalar_range, value, uchar, ushort, ulong, double_p,
}
use rtems_hzb_cexpsh.Types.Casting.{type_cast_implicit, type_promote_asserts}
use rtems_hzb_cexpsh.Types.Ops.{returns, binop, binop_asserts, tv_bin_op, o_add, o_sub, o_mul}
use rtems_hzb_cexpsh.Types.Arithmetic.{binop_modular}
use rtems_hzb_cexpsh.Types.Pointers.{pointer_add_sub, tv_assign-ta_to_tv, variable}
use rtems_hzb_cexpsh.Types.Cells.{Cells, tv_assign, ta_to_tv}
use rtems_hzb_cexpsh.Types.Call.{Args, tv_fn_call, zero_arg}
use rtems_hzb_cexpsh.Types.Calling.{AreCast, IsPassed, tv_fn_call-IsPassed}

-- A processor whose floating point numbers are integers.
abbrev fpu : Fpu
fpu = record {
  f_of = λ n. n;
  d_of = λ n. n;
  f_to = λ r n. n % r;
  d_to = λ r n. n % r;
  d_of_f = λ n. n;
  f_of_d = λ n. n;
  f_op = λ o a b. a + b;
  d_op = λ o a b. a + b;
  d_cmp = λ o a b. ltb a b;
  f_neg = λ n. n;
  d_neg = λ n. n;
  f_true = λ n. true;
  d_true = λ n. true;
}

abbrev nothing : TypedVal
nothing = record { tv = 0; type = t_void }

type_cast_implicit_example :
    type_cast fpu (value (scalar ulong) 300) (scalar_code uchar) false
    ≡ (if ltb 300 (scalar_range uchar) then ok (value (scalar uchar) 300) else err would_truncate)
type_cast_implicit_example = type_cast_implicit fpu (scalar ulong) uchar 300 (omega arith)

type_promote_asserts_example :
    binop_asserts (value (scalar ulong) 7) (value (scalar ulong) 9) ≡ true
unfolding type_promote type_cast convert fits
type_promote_asserts_example =
    type_promote_asserts fpu (value (scalar uchar) 7) (value (scalar ulong) 9)
      (value (scalar ulong) 7) (value (scalar ulong) 9) refl

binop_modular_example :
    (binop fpu nothing (value (scalar uchar) 200) (value (scalar uchar) 100) o_add
      ≡ returns (value (scalar uchar) ((200 + 100) % scalar_range uchar)))
    × (binop fpu nothing (value (scalar uchar) 200) (value (scalar uchar) 100) o_sub
        ≡ returns (value (scalar uchar) ((200 + scalar_range uchar - 100) % scalar_range uchar)))
    × (binop fpu nothing (value (scalar uchar) 200) (value (scalar uchar) 100) o_mul
        ≡ returns (value (scalar uchar) (200 * 100 % scalar_range uchar)))
binop_modular_example = binop_modular fpu nothing uchar 200 100 (omega arith) (omega arith)

pointer_add_sub_example :
    (q : TypedVal) × (tv_bin_op fpu nothing
        (value (pointer double_p) 0xfffffff0)
        (value (scalar ulong) 3)
        o_add
      ≡ returns q)
    × (tv_bin_op fpu nothing q (value (pointer double_p) 0xfffffff0) o_sub
        ≡ returns (value (scalar ulong) 3))
pointer_add_sub_example =
    pointer_add_sub fpu nothing nothing double_p 0xfffffff0 3 (omega arith) (omega arith)

abbrev cells : Cells
cells a = 1

tv_assign-ta_to_tv_example :
    (7700 < scalar_range ushort
      → (m' : Cells) × (tv_assign true fpu cells (variable 64 ushort) (value (scalar ulong) 7700)
          ≡ ok m')
        × (ta_to_tv true m' (variable 64 ushort) ≡ ok (value (scalar ushort) 7700))
        × ((x : ℕ) → (x < 64) ⊎ (64 + 2 ≤ x) → m' x ≡ cells x))
    × (scalar_range ushort ≤ 7700
        → tv_assign true fpu cells (variable 64 ushort) (value (scalar ulong) 7700)
          ≡ err would_truncate)
tv_assign-ta_to_tv_example =
    tv_assign-ta_to_tv true fpu cells 64 (scalar ulong) ushort 7700 (λ e. omega arith) (omega arith)

abbrev void_address : ℕ → TypedVal
void_address a = record { tv = a; type = 1 }

-- A function at 4096 that returns how many arguments it has.
abbrev call : ℕ → Args → ℕ
call f a = length a.args

abbrev function : TypedVal
function = record { tv = 4096; type = t_func_p }

abbrev five : TypedVal
five = record { tv = 5; type = t_ulong }

abbrev mixed : List TypedVal
mixed = value (scalar uchar) 1 ∷ record { tv = 2; type = t_double } ∷ []

tv_fn_call-IsPassed_example :
    (a : Args) × (ws : List TypedVal) × (zeros : ℕ) × (five
      ≡ record { tv = call 4096 a; type = type_ptr2base t_func_p })
    × AreCast fpu mixed ws
    × (a.args ≡ ws ++ replicate zeros zero_arg)
    × IsPassed a
unfolding tv_fn_call type_cast convert fits
tv_fn_call-IsPassed_example = tv_fn_call-IsPassed fpu call function five mixed refl
