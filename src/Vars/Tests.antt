-- ===== src/Vars/Tests.antt =====
-- Runs of the operations of vars.c, and each theorem about them at an input.
use rtems_hzb_cexpsh.Base.{ℕ, ◌≡◌, refl, true, some, List, [], ◌∷◌, strcmp}
use rtems_hzb_cexpsh.Vars.{Store, var, intern, add_str, var_lookup, var_delete, new_var}
use rtems_hzb_cexpsh.Vars.Laws.{
  IsValid, Created, Deleted, var_or_new, var_lookup-Created, var_delete-Deleted,
}

abbrev a_name : List ℕ
a_name = b'a' ∷ []

abbrev b_name : List ℕ
b_name = b'b' ∷ []

-- One variable `b` whose name is interned.
abbrev one_var : Store
one_var = record { vars = new_var b_name ∷ []; strs = b_name ∷ []; walking = 0; depth = 0 }

one_var-IsValid : IsValid one_var
one_var-IsValid = record { vars_ascend = (tt, tt); strs_ascend = (tt, tt); idle = refl }

abbrev two_vars : Store
two_vars = record {
  vars = new_var a_name ∷ new_var b_name ∷ [];
  strs = a_name ∷ b_name ∷ [];
  walking = 0;
  depth = 0;
}

creates_in_order : var_lookup true true a_name true one_var ≡ some (var (new_var a_name), two_vars)
unfolding var_lookup intern add_str strcmp
creates_in_order = refl

deletes : var_delete a_name two_vars ≡ (true, record one_var { strs = two_vars.strs })
unfolding var_delete strcmp
deletes = refl

var_lookup-Created_example :
    (st' : Store) × (var_lookup true true a_name true one_var
      ≡ some (var (var_or_new a_name one_var), st'))
    × Created a_name one_var st'
    × (st'.depth ≡ 0)
unfolding strcmp
var_lookup-Created_example = var_lookup-Created a_name one_var one_var-IsValid refl

var_delete-Deleted_example : Deleted b_name one_var (var_delete b_name one_var)
var_delete-Deleted_example = var_delete-Deleted b_name one_var one_var-IsValid
