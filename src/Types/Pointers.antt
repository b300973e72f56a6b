-- ===== src/Types/Pointers.antt =====
-- Pointer arithmetic, negation and complement, and values in memory, of ctyps.c.
use rtems_hzb_cexpsh.Base.{
  ℕ, ◌+◌, ◌-◌, ◌*◌, ◌%◌, ◌^◌, ◌<◌, ◌≤◌, ◌≡◌, ◌≢◌, ◌⊎◌, refl, Bool, true, false, ltb, if◌then◌else◌,
  arith, ◌||◌, ap, sym, ◌∙◌, subst,
}
use rtems_hzb_cexpsh.Types.{
  TypedVal, Fpu, ok, err, would_truncate, invalid_left_hand, type_cast, t_void, base_type_size,
  type_ptrq,
}
use rtems_hzb_cexpsh.Types.Known.{
  Scalar, Pointer, Integral, scalar, pointer, scalar_code, scalar_range, pointer_code, element_size,
  bound_of, value, pointer_code-ptrq, uchar, ushort, uint, ulong, void_p, uchar_p, ushort_p, uint_p,
  ulong_p, float_p, double_p, func_p, dfunc_p,
}
use rtems_hzb_cexpsh.Types.Casting.{type_cast_implicit}
use rtems_hzb_cexpsh.Types.Arithmetic.{scalar-ulong, ulong-scalar}
use rtems_hzb_cexpsh.Types.Ops.{
  returns, undefined, word, pointer_diff, tv_bin_op, tv_un_op, o_add, o_sub, o_neg, o_cpl,
}
use rtems_hzb_cexpsh.Types.Cells.{
  TypedAddr, Cells, store, load, tv_ptr, tv_assign, ta_to_tv, is_number, member_size,
}
use rtems_hzb_cexpsh.Types.Bytes.{load-store, store-beside}

-- The pointer at an address that is `n` elements further on.
abbrev advanced : Pointer → ℕ → ℕ → TypedVal
advanced p a n = value (pointer p) ((a + n * element_size p) % word)

element_size-base : (p : Pointer) → base_type_size (pointer_code p) ≡ element_size p
element_size-base void_p = refl
element_size-base uchar_p = refl
element_size-base ushort_p = refl
element_size-base uint_p = refl
element_size-base ulong_p = refl
element_size-base float_p = refl
element_size-base double_p = refl
element_size-base func_p = refl
element_size-base dfunc_p = refl

element_size-ne-zero : (p : Pointer) → element_size p ≢ 0
element_size-ne-zero void_p = λ e. omega arith
element_size-ne-zero uchar_p = λ e. omega arith
element_size-ne-zero ushort_p = λ e. omega arith
element_size-ne-zero uint_p = λ e. omega arith
element_size-ne-zero ulong_p = λ e. omega arith
element_size-ne-zero float_p = λ e. omega arith
element_size-ne-zero double_p = λ e. omega arith
element_size-ne-zero func_p = λ e. omega arith
element_size-ne-zero dfunc_p = λ e. omega arith

few_elements : (p : Pointer) (n : ℕ) → n * element_size p < word → n < 2 ^ 32
few_elements void_p n h = omega arith
few_elements uchar_p n h = omega arith
few_elements ushort_p n h = omega arith
few_elements uint_p n h = omega arith
few_elements ulong_p n h = omega arith
few_elements float_p n h = omega arith
few_elements double_p n h = omega arith
few_elements func_p n h = omega arith
few_elements dfunc_p n h = omega arith

pointer_diff-advanced :
    (z : TypedVal) (p : Pointer) (a n : ℕ)
    → a < word
    → n * element_size p < word
    → pointer_diff z (advanced p a n) (value (pointer p) a) o_sub ≡ returns (value (scalar ulong) n)
unfolding pointer_diff
pointer_diff-advanced z void_p a n h k = ground arith
pointer_diff-advanced z uchar_p a n h k = ground arith
pointer_diff-advanced z ushort_p a n h k = ground arith
pointer_diff-advanced z uint_p a n h k = ground arith
pointer_diff-advanced z ulong_p a n h k = ground arith
pointer_diff-advanced z float_p a n h k = ground arith
pointer_diff-advanced z double_p a n h k = ground arith
pointer_diff-advanced z func_p a n h k = ground arith
pointer_diff-advanced z dfunc_p a n h k = ground arith

pointer_step-advanced :
    (fpu : Fpu) (y : TypedVal) (p : Pointer) (a n : ℕ)
    → n < 2 ^ 32
    → tv_bin_op fpu y (value (pointer p) a) (value (scalar ulong) n) o_add
      ≡ returns (advanced p a n)
unfolding tv_bin_op
pointer_step-advanced fpu y p a n few =
    let sum : (a + n * element_size p % word) % word ≡ (a + n * element_size p) % word =
      omega arith in
    rw (pointer_code-ptrq p, scalar-ulong fpu ulong n few, element_size-base p)
      (ap (λ t. returns (value (pointer p) t)) sum)

-- A pointer to which a number of elements is added gives the number back when the first pointer is
-- subtracted, if the elements all together have less than 2 ^ 32 bytes.
pub pointer_add_sub :
    (fpu : Fpu) (y z : TypedVal) (p : Pointer) (a n : ℕ)
    → a < word
    → n * element_size p < word
    → (q : TypedVal) × (tv_bin_op fpu y (value (pointer p) a) (value (scalar ulong) n) o_add
        ≡ returns q)
      × (tv_bin_op fpu z q (value (pointer p) a) o_sub ≡ returns (value (scalar ulong) n))
unfolding tv_bin_op
pointer_add_sub fpu y z p a n small fits = (
  advanced p a n,
  pointer_step-advanced fpu y p a n (few_elements p n fits),
  rw (pointer_code-ptrq p) (pointer_diff-advanced z p a n small fits),
)

-- Minus a number is its complement plus one, and each of the two operators undoes itself.
pub neg-cpl :
    (fpu : Fpu) (y z : TypedVal) (s : Scalar) (n : ℕ)
    → n < scalar_range s
    → (a b : TypedVal) × (tv_un_op fpu y (value (scalar s) n) o_neg ≡ returns a)
      × (tv_un_op fpu y (value (scalar s) n) o_cpl ≡ returns b)
      × (a ≡ value (scalar s) ((b.tv + 1) % scalar_range s))
      × (tv_un_op fpu z a o_neg ≡ returns (value (scalar s) n))
      × (tv_un_op fpu z b o_cpl ≡ returns (value (scalar s) n))
unfolding tv_un_op
neg-cpl fpu y z uchar n h = (
  value (scalar uchar) ((2 ^ 8 - n % 2 ^ 8) % (2 ^ 8)),
  value (scalar uchar) (2 ^ 8 - 1 - n),
  ground arith,
  ground (arith, scalar-ulong fpu uchar n, ulong-scalar fpu uchar (word - 1 - n)),
  ground arith,
  ground arith,
  ground (
    arith,
    scalar-ulong fpu uchar (2 ^ 8 - 1 - n),
    ulong-scalar fpu uchar (word - 1 - (2 ^ 8 - 1 - n)),
  ),
)
neg-cpl fpu y z ushort n h = (
  value (scalar ushort) ((2 ^ 16 - n % 2 ^ 16) % (2 ^ 16)),
  value (scalar ushort) (2 ^ 16 - 1 - n),
  ground arith,
  ground (arith, scalar-ulong fpu ushort n, ulong-scalar fpu ushort (word - 1 - n)),
  ground arith,
  ground arith,
  ground (
    arith,
    scalar-ulong fpu ushort (2 ^ 16 - 1 - n),
    ulong-scalar fpu ushort (word - 1 - (2 ^ 16 - 1 - n)),
  ),
)
neg-cpl fpu y z uint n h = (
  value (scalar uint) ((2 ^ 32 - n % 2 ^ 32) % (2 ^ 32)),
  value (scalar uint) (2 ^ 32 - 1 - n),
  ground arith,
  ground (arith, scalar-ulong fpu uint n, ulong-scalar fpu uint (word - 1 - n)),
  ground arith,
  ground arith,
  ground (
    arith,
    scalar-ulong fpu uint (2 ^ 32 - 1 - n),
    ulong-scalar fpu uint (word - 1 - (2 ^ 32 - 1 - n)),
  ),
)
neg-cpl fpu y z ulong n h = (
  value (scalar ulong) ((2 ^ 32 - n % 2 ^ 32) % (2 ^ 32)),
  value (scalar ulong) (2 ^ 32 - 1 - n),
  ground arith,
  ground (arith, scalar-ulong fpu ulong n, ulong-scalar fpu ulong (word - 1 - n)),
  ground arith,
  ground arith,
  ground (
    arith,
    scalar-ulong fpu ulong (2 ^ 32 - 1 - n),
    ulong-scalar fpu ulong (word - 1 - (2 ^ 32 - 1 - n)),
  ),
)

lt→ltb : (a b : ℕ) → a < b → ltb a b ≡ true
lt→ltb a b h = ground arith

le→ltb : (a b : ℕ) → a ≤ b → ltb b a ≡ false
le→ltb a b h = ground arith

abbrev pub variable : ℕ → Scalar → TypedAddr
variable a s = record { ptv = a; type = scalar_code s }

-- How many bytes a variable of the type has.
abbrev pub scalar_size : Scalar → ℕ
scalar_size s = member_size (scalar_code s)

variable_written :
    (big : Bool) (s : Scalar) (m : Cells) (a n : ℕ)
    → (if is_number (scalar_code s) || type_ptrq (scalar_code s)
        then ok (store big (scalar_size s) m a n)
        else err invalid_left_hand)
      ≡ ok (store big (scalar_size s) m a n)
variable_written big uchar m a n = refl
variable_written big ushort m a n = refl
variable_written big uint m a n = refl
variable_written big ulong m a n = refl

size_range : (s : Scalar) → 256 ^ scalar_size s ≡ scalar_range s
size_range uchar = refl
size_range ushort = refl
size_range uint = refl
size_range ulong = refl

variable_loaded :
    (big : Bool) (s : Scalar) (m : Cells) (a : ℕ)
    → a ≢ 0
    → ta_to_tv big m (variable a s) ≡ ok (value (scalar s) (load big (scalar_size s) m a))
unfolding ta_to_tv
variable_loaded big uchar m a real = ground arith
variable_loaded big ushort m a real = ground arith
variable_loaded big uint m a real = ground arith
variable_loaded big ulong m a real = ground arith

variable_read :
    (big : Bool) (s : Scalar) (m : Cells) (a n : ℕ)
    → a ≢ 0
    → n < scalar_range s
    → ta_to_tv big (store big (scalar_size s) m a n) (variable a s) ≡ ok (value (scalar s) n)
variable_read big s m a n real h =
    variable_loaded big s (store big (scalar_size s) m a n) a real
    ∙ ap (λ v. ok (value (scalar s) v))
        (load-store big (scalar_size s) a n m (subst (λ r. n < r) (sym (size_range s)) h))

-- With either order of bytes, an integer or a pointer that is in the range of a variable's integer type is
-- assigned to it and read back, and no byte changes but those of the variable; one that is not in the
-- range is refused.
pub tv_assign-ta_to_tv :
    (big : Bool) (fpu : Fpu) (m : Cells) (a : ℕ) (k : Integral) (s : Scalar) (n : ℕ)
    → a ≢ 0
    → n < bound_of k
    → (n < scalar_range s
        → (m' : Cells) × (tv_assign big fpu m (variable a s) (value k n) ≡ ok m')
          × (ta_to_tv big m' (variable a s) ≡ ok (value (scalar s) n))
          × ((x : ℕ) → (x < a) ⊎ (a + scalar_size s ≤ x) → m' x ≡ m x))
      × (scalar_range s ≤ n → tv_assign big fpu m (variable a s) (value k n) ≡ err would_truncate)
unfolding tv_assign
tv_assign-ta_to_tv big fpu m a k s n real h = (
  λ small. (
    store big (scalar_size s) m a n,
    rw (cast, lt→ltb n (scalar_range s) small, tv_assign) (variable_written big s m a n),
    variable_read big s m a n real small,
    λ x beside. store-beside big (scalar_size s) a n x m beside,
  ),
  λ big. rw (cast, le→ltb (scalar_range s) n big, tv_assign) refl,
)
  where
    cast :
        type_cast fpu (value k n) (scalar_code s) false
        ≡ (if ltb n (scalar_range s) then ok (value (scalar s) n) else err would_truncate)
    cast = type_cast_implicit fpu k s n h

-- The address of a variable of no type is no `void *`: the size of what it points to is 0, and the
-- difference of two such addresses divides by it.
pub tv_ptr_void :
    (fpu : Fpu) (y p q : TypedVal) (a b : ℕ)
    → tv_ptr (record { ptv = a; type = t_void }) ≡ ok p
    → tv_ptr (record { ptv = b; type = t_void }) ≡ ok q
    → tv_bin_op fpu y p q o_sub ≡ undefined
unfolding tv_ptr tv_bin_op
tv_ptr_void fpu y p q a b e f = ground arith
