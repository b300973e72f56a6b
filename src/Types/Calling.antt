-- ===== src/Types/Calling.antt =====
-- The index into the jump table that `cexpTVFnCall` builds says which arguments are floating point.
use rtems_hzb_cexpsh.Base.{
  ℕ, zero, suc, ◌+◌, ◌-◌, ◌*◌, ◌<◌, ◌≤◌, ◌≡◌, ◌≢◌, refl, Bool, false, not, ◌&&◌, ltb, ◌==◌,
  if◌then◌else◌, List, [], ◌∷◌, ◌++◌, map, length, replicate, length-append, length-replicate,
  arith, ap, ◌∙◌, sym, Bool-cases, inl, inr, ◌⊎◌, All, All-append, subst,
}
use mathlib.Core.List.{map-append}
use rtems_hzb_cexpsh.Types.{
  TypedVal, Fpu, type_funq, ok, type_cast, type_fpq, type_ptr2base, t_double, t_ulong,
}
use rtems_hzb_cexpsh.Types.Casting.{type_cast-type, Result-cases}
use rtems_hzb_cexpsh.Types.Call.{
  Args, collect, pad, shift_left, zero_arg, tv_fn_call, call_kinds, max_args, max_bits,
}

abbrev pub is_fp : TypedVal → Bool
is_fp v = type_fpq v.type

abbrev bit : Bool → ℕ
bit b = if b then 1 else 0

-- The number of a list of bits, the highest first.
number_of : List Bool → ℕ → ℕ
number_of [] n = n
number_of (b ∷ bs) n = number_of bs (n * 2 + bit b)

number_of-snoc :
    (bs : List Bool) (b : Bool) (n : ℕ) → number_of (bs ++ b ∷ []) n ≡ number_of bs n * 2 + bit b
unfolding number_of
number_of-snoc [] b n = refl
number_of-snoc (c ∷ bs) b n = number_of-snoc bs b (n * 2 + bit c)

number_of-zeros : (k n : ℕ) → number_of (replicate k false) n ≡ shift_left k n
unfolding number_of shift_left
number_of-zeros zero n = refl
number_of-zeros (suc k) n =
    ap (number_of (replicate k false)) (omega arith) ∙ number_of-zeros k (n * 2)

number_of-append :
    (bs cs : List Bool) (n : ℕ) → number_of (bs ++ cs) n ≡ number_of cs (number_of bs n)
unfolding number_of
number_of-append [] cs n = refl
number_of-append (b ∷ bs) cs n = number_of-append bs cs (n * 2 + bit b)

number_of-zero : (bs : List Bool) (n : ℕ) → number_of bs n ≡ 0 → (n ≡ 0) × All (λ b. b ≡ false) bs
unfolding number_of
number_of-zero [] n h = (h, tt)
number_of-zero (b ∷ bs) n h =
    let (e, a) = number_of-zero bs (n * 2 + bit b) h in (ground arith, (ground arith, a))

-- Five bits are the kinds of their number.
kinds_number_of : (bs : List Bool) → length bs ≡ 5 → call_kinds (number_of bs 0) ≡ bs
unfolding call_kinds number_of
kinds_number_of (a ∷ b ∷ c ∷ d ∷ e ∷ []) h = ground arith
kinds_number_of bs h = absurd (omega arith)

-- The arguments and the index agree.
record IsCounted (a : Args) : Type 0 where
  counted : a.fpargs ≡ number_of (map is_fp a.args) 0
  few : length a.args ≤ max_args

abbrev push : Args → TypedVal → Bool → Args
push a v fp = record { args = a.args ++ v ∷ []; fpargs = a.fpargs * 2 + (if fp then 1 else 0) }

push-IsCounted :
    (a : Args) (v : TypedVal)
    → IsCounted a
    → length a.args < max_args
    → IsCounted (push a v (is_fp v))
push-IsCounted a v c room = record {
  counted =
      ap (λ n. n * 2 + bit (is_fp v)) c.counted
      ∙ sym (number_of-snoc (map is_fp a.args) (is_fp v) 0)
      ∙ ap (λ bs. number_of bs 0) (sym (map-append is_fp a.args (v ∷ [])));
  few = omega (arith, length-append a.args (v ∷ []));
}

-- The type to which an argument is cast is of its kind.
cast-kind :
    (fpu : Fpu) (v v' : TypedVal)
    → type_cast fpu v (if type_fpq v.type then t_double else t_ulong) false ≡ ok v'
    → is_fp v' ≡ is_fp v
cast-kind fpu v v' e =
    let t = type_cast-type fpu v v' (if type_fpq v.type then t_double else t_ulong) false e in
    elim (Bool-cases (type_fpq v.type)) [
      | inl fp ↦ ap type_fpq t ∙ rw fp refl
      | inr no_fp ↦ ap type_fpq t ∙ rw no_fp refl
    ]

abbrev no_args : Args
no_args = record { args = []; fpargs = 0 }

-- Each argument as the cast to the type of its kind gives it, in their order.
abbrev pub AreCast : Fpu → List TypedVal → List TypedVal → Type 0
AreCast fpu [] [] = Unit
AreCast fpu [] (w ∷ ws) = ⊥
AreCast fpu (v ∷ vs) [] = ⊥
AreCast fpu (v ∷ vs) (w ∷ ws) =
    (type_cast fpu v (if type_fpq v.type then t_double else t_ulong) false ≡ ok w)
    × AreCast fpu vs ws

snoc_assoc :
    (xs : List TypedVal) (v : TypedVal) (ws : List TypedVal) → (xs ++ v ∷ []) ++ ws ≡ xs ++ v ∷ ws
snoc_assoc [] v ws = refl
snoc_assoc (x ∷ xs) v ws = ap (λ l. x ∷ l) (snoc_assoc xs v ws)

append_nil : (xs : List TypedVal) → xs ++ [] ≡ xs
append_nil [] = refl
append_nil (x ∷ xs) = ap (λ l. x ∷ l) (append_nil xs)

ok_eq : {a b : Args} → ok a ≡ ok b → a ≡ b
ok_eq e = cc e

collect-IsCounted :
    (fpu : Fpu) (vs : List TypedVal) (a b : Args)
    → IsCounted a
    → collect fpu vs a ≡ ok b
    → IsCounted b
unfolding collect
collect-IsCounted fpu [] a b c e = subst IsCounted (ok_eq e) c
collect-IsCounted fpu (v ∷ vs) a b c e = elim (Bool-cases (ltb (length a.args) max_args)) [
  | inr full ↦ absurd (cc (rw full at e))
  | inl room ↦
      elim (Result-cases (type_cast fpu v (if type_fpq v.type then t_double else t_ulong) false)) [
        | inl (v', cast) ↦
            collect-IsCounted fpu vs (push a v' (type_fpq v.type)) b
              (subst (λ k. IsCounted (push a v' k)) (cast-kind fpu v v' cast)
                (push-IsCounted a v' c (ground arith)))
              (rw (room, cast) at e)
        | inr (m, cast) ↦ absurd (cc (rw (room, cast) at e))
      ]
]

-- What the loop collects is the casts of the arguments.
collect-AreCast :
    (fpu : Fpu) (vs : List TypedVal) (a b : Args)
    → collect fpu vs a ≡ ok b
    → (ws : List TypedVal) × AreCast fpu vs ws × (b.args ≡ a.args ++ ws)
unfolding collect
collect-AreCast fpu [] a b e =
    ([], tt, ap (λ (c : Args). c.args) (sym (ok_eq e)) ∙ sym (append_nil a.args))
collect-AreCast fpu (v ∷ vs) a b e = elim (Bool-cases (ltb (length a.args) max_args)) [
  | inr full ↦ absurd (cc (rw full at e))
  | inl room ↦
      elim (Result-cases (type_cast fpu v (if type_fpq v.type then t_double else t_ulong) false)) [
        | inl (v', cast) ↦
            let (ws, are, all) =
              collect-AreCast fpu vs (push a v' (type_fpq v.type)) b (rw (room, cast) at e) in
            (v' ∷ ws, (cast, are), all ∙ snoc_assoc a.args v' ws)
        | inr (m, cast) ↦ absurd (cc (rw (room, cast) at e))
      ]
]

-- The arguments that reach the call: with a floating point argument among them there are five, each
-- passed in the member of its kind; with none there are ten, all integers.
abbrev pub IsPassed : Args → Type 0
IsPassed a =
    ((a.fpargs ≢ 0) × (length a.args ≡ max_bits) × (call_kinds a.fpargs ≡ map is_fp a.args))
    ⊎ ((a.fpargs ≡ 0) × (length a.args ≡ max_args) × All (λ v. is_fp v ≡ false) a.args)

shift_left-ne-zero : (k n : ℕ) → n ≢ 0 → shift_left k n ≢ 0
unfolding shift_left
shift_left-ne-zero zero n h = h
shift_left-ne-zero (suc k) n h = shift_left-ne-zero k (n * 2) (λ e. h (omega arith))

shift_left-zero : (k : ℕ) → shift_left k 0 ≡ 0
unfolding shift_left
shift_left-zero zero = refl
shift_left-zero (suc k) = shift_left-zero k

kinds-replicate : (k : ℕ) → map is_fp (replicate k zero_arg) ≡ replicate k false
kinds-replicate zero = refl
kinds-replicate (suc k) = ap (λ bs. false ∷ bs) (kinds-replicate k)

-- The padded arguments.
abbrev padded : List TypedVal → ℕ → List TypedVal
padded vs k = vs ++ replicate k zero_arg

length-padded :
    (vs : List TypedVal) (n : ℕ) → length vs ≤ n → length (padded vs (n - length vs)) ≡ n
length-padded vs n h = omega (
  arith,
  length-append vs (replicate (n - length vs) zero_arg),
  length-replicate (n - length vs) zero_arg,
)

kinds-padded :
    (vs : List TypedVal)
    → length vs ≤ max_bits
    → call_kinds (shift_left (max_bits - length vs) (number_of (map is_fp vs) 0))
      ≡ map is_fp (padded vs (max_bits - length vs))
kinds-padded vs h =
    let k = max_bits - length vs in
    let all : map is_fp (padded vs k) ≡ map is_fp vs ++ replicate k false =
      map-append is_fp vs (replicate k zero_arg)
      ∙ ap (λ bs. map is_fp vs ++ bs) (kinds-replicate k) in
    let number : shift_left k (number_of (map is_fp vs) 0) ≡ number_of (map is_fp (padded vs k)) 0 =
      sym (number_of-zeros k (number_of (map is_fp vs) 0))
      ∙ sym (number_of-append (map is_fp vs) (replicate k false) 0)
      ∙ ap (λ bs. number_of bs 0) (sym all) in
    ap call_kinds number
    ∙ kinds_number_of (map is_fp (padded vs k))
        (length-kinds (padded vs k) ∙ length-padded vs max_bits h)
  where
    length-kinds : (ws : List TypedVal) → length (map is_fp ws) ≡ length ws
    length-kinds [] = refl
    length-kinds (w ∷ ws) = ap suc (length-kinds ws)

All-kinds :
    (vs : List TypedVal) → All (λ b. b ≡ false) (map is_fp vs) → All (λ v. is_fp v ≡ false) vs
All-kinds [] a = tt
All-kinds (v ∷ vs) a = (a.0, All-kinds vs a.1)

All-zeros : (k : ℕ) → All (λ v. is_fp v ≡ false) (replicate k zero_arg)
All-zeros zero = tt
All-zeros (suc k) = (refl, All-zeros k)

pad-IsPassed :
    (a : Args)
    → IsCounted a
    → (not (a.fpargs == 0) && ltb max_bits (length a.args)) ≡ false
    → IsPassed (pad a)
unfolding pad
pad-IsPassed a c h = elim (Bool-cases (a.fpargs == 0)) [
  | inl none_fp ↦
      let e : a.fpargs ≡ 0 = ground arith in
      let zeros = number_of-zero (map is_fp a.args) 0 (sym c.counted ∙ e) in
      inr (
        rw none_fp (
          ap (shift_left (max_args - length a.args)) e ∙ shift_left-zero (max_args - length a.args),
          length-padded a.args max_args c.few,
          All-append (λ v. is_fp v ≡ false) a.args (replicate (max_args - length a.args) zero_arg)
              (All-kinds a.args zeros.1) (All-zeros (max_args - length a.args)),
        ))
  | inr some_fp ↦
      let short : length a.args ≤ max_bits = ground arith in
      inl (
        rw some_fp (
          shift_left-ne-zero (max_bits - length a.args) a.fpargs (ground arith),
          length-padded a.args max_bits short,
          ap (λ n. call_kinds (shift_left (max_bits - length a.args) n)) c.counted
              ∙ kinds-padded a.args short,
        ))
]

no_args-IsCounted : IsCounted no_args
unfolding number_of
no_args-IsCounted = record { counted = refl; few = omega arith }

result_eq : {a b : TypedVal} → ok a ≡ ok b → a ≡ b
result_eq e = cc e

-- When `cexpTVFnCall` succeeds it has called the function, with the arguments given, each cast to the
-- type of its kind and in their order, and zeros behind them: five arguments each passed in the member
-- of its kind if one of them is floating point, and otherwise ten integers.
pub tv_fn_call-IsPassed :
    (fpu : Fpu) (call : ℕ → Args → ℕ) (fn r : TypedVal) (vs : List TypedVal)
    → tv_fn_call fpu call fn vs ≡ ok r
    → (a : Args) × (ws : List TypedVal) × (zeros : ℕ) × (r
        ≡ record { tv = call fn.tv a; type = type_ptr2base fn.type })
      × AreCast fpu vs ws
      × (a.args ≡ ws ++ replicate zeros zero_arg)
      × IsPassed a
unfolding tv_fn_call pad
tv_fn_call-IsPassed fpu call fn r vs e = elim (Bool-cases (type_funq fn.type)) [
  | inr no_fun ↦ absurd (cc (rw no_fun at e))
  | inl fun ↦ elim (Bool-cases (fn.tv == 0)) [
    | inl null ↦ absurd (cc (rw (fun, null) at e))
    | inr real ↦ elim (Result-cases (collect fpu vs no_args)) [
      | inr (m, fails) ↦ absurd (cc (rw (fun, real, fails) at e))
      | inl (a, done) ↦ elim (Bool-cases (not (a.fpargs == 0) && ltb max_bits (length a.args))) [
        | inl many ↦ absurd (cc (rw (fun, real, done, many) at e))
        | inr fine ↦
            let (ws, are, all) = collect-AreCast fpu vs no_args a done in
            let zeros = (if a.fpargs == 0 then max_args else max_bits) - length a.args in
            (
              pad a,
              ws,
              zeros,
              result_eq (sym (rw (fun, real, done, fine) at e)),
              are,
              ap (λ l. l ++ replicate zeros zero_arg) all,
              pad-IsPassed a (collect-IsCounted fpu vs no_args a no_args-IsCounted done) fine,
            )
      ]
    ]
  ]
]
