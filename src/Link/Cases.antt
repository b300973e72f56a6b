-- ===== src/Link/Cases.antt =====
-- The cases of `resolve_syms` of bfdstuff.c: what each makes of a symbol when it adds no error.
use Prim.Native.Nat.{bit_and}
use rtems_hzb_cexpsh.Base.{
  ℕ, ◌-◌, ◌≤◌, ◌<◌, ◌≡◌, refl, ◌≢◌, ◌⊎◌, Bool, true, false, not, ◌&&◌, ◌||◌, ◌==◌, Option, none,
  some, List, [], ◌∷◌, str_eq, All, Bool-cases, Option-cases, inl, inr, arith,
}
use rtems_hzb_cexpsh.Syms.{Sym, sym_tbl_lookup}
use rtems_hzb_cexpsh.Modules.Bitmap.{
  Bitmap, IsBitmap, bitmap_tst, max_num_modules, tst-set, bitmap_set-IsBitmap,
}
use rtems_hzb_cexpsh.Modules.Record.{Module}
use rtems_hzb_cexpsh.Modules.Lookup.{sym_lookup}
use rtems_hzb_cexpsh.Link.Resolve.{
  Home, undefined, common, absolute, in_file, Asym, Notes, Names, align_of, count_ctor_dtor,
  take_callback, as_int, asym_from, refer, new_common, add_new_common, resolve_undefined,
  resolve_common, resolve_defined, resolve_case,
}

pub sym_lookup-id :
    (name : List ℕ) (ms : List Module) (m : Module) (s : Sym)
    → All (λ m. m.id < max_num_modules) ms
    → sym_lookup name ms ≡ some (m, s)
    → m.id < max_num_modules
unfolding sym_lookup
sym_lookup-id name [] m s ids h = absurd (ground (arith, h))
sym_lookup-id name (x ∷ xs) m s ids h = elim (Option-cases (sym_tbl_lookup name x.symtbl)) [
  | inl e ↦ sym_lookup-id name xs m s ids.1 (ground (arith, e, h))
  | inr (y, e) ↦ ground (arith, e, h, ids.0)
]

-- The modules that are noted are noted still.
abbrev pub Keeps : Bitmap → Bitmap → Type 0
Keeps b b' = (j : ℕ) → bitmap_tst b j ≡ true → bitmap_tst b' j ≡ true

-- A common symbol is new, or gives way to one of a module, which is noted, that is as large, both sizes
-- taken as `int`, and aligned.
abbrev pub IsMerged : Bitmap → Option (Module × Sym) → Asym → Asym → Type 0
IsMerged depend none sp sp' = sp' ≡ new_common sp
IsMerged depend (some (m, ts)) sp sp' =
    (sp' ≡ asym_from ts)
    × (as_int sp.size ≤ as_int ts.size)
    × (bit_and ts.addr (align_of sp - 1) ≡ 0)
    × (bitmap_tst depend m.id ≡ true)

-- A defined symbol is new, or it is weak and gives way to the one of a module, which is noted.
abbrev pub IsSingle : Bitmap → Option (Module × Sym) → Asym → Asym → Type 0
IsSingle depend none sp sp' = sp' ≡ record sp { keep = true }
IsSingle depend (some (m, ts)) sp sp' =
    (sp.weak ≡ true) × (sp' ≡ asym_from ts) × (bitmap_tst depend m.id ≡ true)

-- An undefined symbol that a module has is left for the relocation; of the others a function with a value
-- is kept, a weak one becomes a new common, and the rest is left, too.
abbrev pub IsLeft : Option (Module × Sym) → Asym → Asym → Type 0
IsLeft (some hit) sp sp' = sp' ≡ sp
IsLeft none sp sp' =
    ((sp.value ≢ 0) × (sp.function ≡ true) × (sp' ≡ record sp { keep = true }))
    ⊎ (((sp.value ≡ 0) ⊎ (sp.function ≡ false)) × (sp.weak ≡ true) × (sp' ≡ new_common sp))
    ⊎ (((sp.value ≡ 0) ⊎ (sp.function ≡ false)) × (sp.weak ≡ false) × (sp' ≡ sp))

-- A symbol that is neither local nor a thread's own, by its section and what the lookup finds.
abbrev pub IsAt : Home → Bitmap → Option (Module × Sym) → Asym → Asym → Type 0
IsAt undefined depend hit sp sp' = IsLeft hit sp sp'
IsAt common depend hit sp sp' = IsMerged depend hit sp sp'
IsAt absolute depend hit sp sp' = IsSingle depend hit sp sp'
IsAt (in_file alloc) depend hit sp sp' = IsSingle depend hit sp sp'

-- What a case does to the errors and the notes: it adds errors, and drops no module.
abbrev pub Grows : Notes → Notes → Type 0
Grows n n' = (n.errs ≤ n'.errs) × IsBitmap n'.depend × Keeps n.depend n'.depend

module _ (n : Notes) (real : IsBitmap n.depend) (i : ℕ) (sp : Asym) where
  refer-Grows : (m : Module) → m.id < max_num_modules → Grows n (refer m n)
  unfolding refer
  refer-Grows m id = (
    omega arith,
    bitmap_set-IsBitmap n.depend m.id real id,
    λ j h. ground (arith, h, tst-set n.depend m.id real id j),
  )

  refer-tst : (m : Module) → m.id < max_num_modules → bitmap_tst (refer m n).depend m.id ≡ true
  unfolding refer
  refer-tst m id = ground (arith, tst-set n.depend m.id real id m.id)

  resolve_undefined-Grows : (hit : Option (Module × Sym)) → Grows n (resolve_undefined hit i sp n).1
  unfolding resolve_undefined add_new_common
  resolve_undefined-Grows (some hit) = (omega arith, real, λ j h. h)
  resolve_undefined-Grows none = ground (arith, real)

  resolve_undefined-IsLeft :
      (hit : Option (Module × Sym)) → IsLeft hit sp (resolve_undefined hit i sp n).0
  unfolding resolve_undefined
  resolve_undefined-IsLeft (some hit) = refl
  resolve_undefined-IsLeft none = elim (Bool-cases (not (sp.value == 0) && sp.function)) [
    | inl own ↦ rw own (inl (ground (arith, own), ground (arith, own), refl))
    | inr other ↦ elim (Bool-cases sp.weak) [
      | inl weak ↦ rw (other, weak) (inr (inl (ground (arith, other), refl, refl)))
      | inr strong ↦ rw (other, strong) (inr (inr (ground (arith, other), refl, refl)))
    ]
  ]

  resolve_common-IsMerged :
      (hit : Option (Module × Sym))
      → ((m : Module) (s : Sym) → hit ≡ some (m, s) → m.id < max_num_modules)
      → Grows n (resolve_common hit i sp n).1
        × ((resolve_common hit i sp n).1.errs ≡ n.errs
            → IsMerged (resolve_common hit i sp n).1.depend hit sp (resolve_common hit i sp n).0)
  unfolding resolve_common add_new_common refer
  resolve_common-IsMerged none ids = ((omega arith, real, λ j h. h), λ same. refl)
  resolve_common-IsMerged (some (m, ts)) ids =
      let id = ids m ts refl in
      let (le, bits, kept) = refer-Grows m id in
      (
        (omega arith, bits, kept),
        λ same. (refl, ground (arith, same), ground (arith, same), refer-tst m id),
      )

  resolve_defined-IsSingle :
      (hit : Option (Module × Sym))
      → ((m : Module) (s : Sym) → hit ≡ some (m, s) → m.id < max_num_modules)
      → Grows n (resolve_defined hit i sp n).1
        × ((resolve_defined hit i sp n).1.errs ≡ n.errs
            → IsSingle (resolve_defined hit i sp n).1.depend hit sp (resolve_defined hit i sp n).0)
  unfolding resolve_defined refer
  resolve_defined-IsSingle none ids = ((omega arith, real, λ j h. h), λ same. refl)
  resolve_defined-IsSingle (some (m, ts)) ids =
      let id = ids m ts refl in
      let (le, bits, kept) = refer-Grows m id in
      elim (Bool-cases sp.weak) [
        | inl weak ↦ rw (weak) ((omega arith, bits, kept), λ same. (refl, refl, refer-tst m id))
        | inr strong ↦
            rw (strong) ((omega arith, real, λ j h. h), λ same. absurd (omega (arith, same)))
      ]

pub resolve_case-IsAt :
    (home : Home) (hit : Option (Module × Sym)) (i : ℕ) (sp : Asym) (n : Notes)
    → IsBitmap n.depend
    → ((m : Module) (s : Sym) → hit ≡ some (m, s) → m.id < max_num_modules)
    → Grows n (resolve_case home hit i sp n).1
      × ((resolve_case home hit i sp n).1.errs ≡ n.errs
          → IsAt home
              (resolve_case home hit i sp n).1.depend
              hit
              sp
              (resolve_case home hit i sp n).0)
unfolding resolve_case
resolve_case-IsAt undefined hit i sp n real ids =
    (resolve_undefined-Grows n real i sp hit, λ same. resolve_undefined-IsLeft n real i sp hit)
resolve_case-IsAt common hit i sp n real ids = resolve_common-IsMerged n real i sp hit ids
resolve_case-IsAt absolute hit i sp n real ids = resolve_defined-IsSingle n real i sp hit ids
resolve_case-IsAt (in_file alloc) hit i sp n real ids = resolve_defined-IsSingle n real i sp hit ids

-- A module that is noted later keeps what holds of a symbol.
pub IsAt-Keeps :
    (home : Home) (b b' : Bitmap) (hit : Option (Module × Sym)) (sp sp' : Asym)
    → Keeps b b'
    → IsAt home b hit sp sp'
    → IsAt home b' hit sp sp'
IsAt-Keeps undefined b b' hit sp sp' keeps at = at
IsAt-Keeps common b b' none sp sp' keeps at = at
IsAt-Keeps common b b' (some (m, ts)) sp sp' keeps (e, large, even, bit) =
    (e, large, even, keeps m.id bit)
IsAt-Keeps absolute b b' none sp sp' keeps at = at
IsAt-Keeps absolute b b' (some (m, ts)) sp sp' keeps (weak, e, bit) = (weak, e, keeps m.id bit)
IsAt-Keeps (in_file alloc) b b' none sp sp' keeps at = at
IsAt-Keeps (in_file alloc) b b' (some (m, ts)) sp sp' keeps (weak, e, bit) =
    (weak, e, keeps m.id bit)

-- A local symbol, one of the two callbacks, or a symbol that each thread has its own of.
abbrev pub set_aside : Names → Asym → Bool
set_aside names sp =
    sp.local
    || str_eq sp.name names.initializer
    || str_eq sp.name names.finalizer
    || sp.thread_local

pub take_callback-home :
    (names : Names) (i : ℕ) (sp : Asym) (n : Notes)
    → ((take_callback names i sp n).0.local ≡ false → (take_callback names i sp n).0 ≡ sp)
      × ((take_callback names i sp n).0.local ≡ true → set_aside names sp ≡ true)
      × (n.errs ≤ (take_callback names i sp n).1.errs)
      × ((take_callback names i sp n).1.depend ≡ n.depend)
unfolding take_callback
take_callback-home names i sp n = elim (Bool-cases (str_eq sp.name names.initializer)) [
  | inl ini ↦ ground (arith, ini)
  | inr not_ini ↦ ground (arith, not_ini)
]

pub count_ctor_dtor-same :
    (letter : Option ℕ) (n : Notes)
    → ((count_ctor_dtor letter n).errs ≡ n.errs) × ((count_ctor_dtor letter n).depend ≡ n.depend)
unfolding count_ctor_dtor
count_ctor_dtor-same none n = (refl, refl)
count_ctor_dtor-same (some l) n = ground arith
