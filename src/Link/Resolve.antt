-- ===== src/Link/Resolve.antt =====
-- `resolve_syms` of bfdstuff.c: the symbols of an object file against those of the loaded modules. The
-- messages are left out; a slot of the symbol table is named by its index.
use Prim.Native.Nat.{bit_and}
use rtems_hzb_cexpsh.Base.{
  ℕ, suc, ◌+◌, ◌-◌, ◌%◌, ◌^◌, Bool, true, false, not, ◌&&◌, ltb, ◌==◌, if◌then◌else◌, Option, none,
  some, List, [], ◌∷◌, ◌++◌, str_eq,
}
use rtems_hzb_cexpsh.Syms.{Sym}
use rtems_hzb_cexpsh.Modules.Bitmap.{Bitmap, bitmap_set}
use rtems_hzb_cexpsh.Modules.Record.{Module}
use rtems_hzb_cexpsh.Modules.Lookup.{sym_lookup}

-- The section of a symbol: one of the special ones, or one of the file, allocated or not.
pub data Home : Type 0 where
  undefined : Home
  common : Home
  absolute : Home
  in_file : Bool → Home

-- An `asymbol` with the flags that are looked at.
pub record Asym : Type 0 where
  pub name : List ℕ
  pub value : ℕ
  pub size : ℕ
  pub home : Home
  pub local : Bool
  pub global : Bool
  pub section_sym : Bool
  pub thread_local : Bool
  pub function : Bool
  pub weak : Bool
  pub keep : Bool
  pub old_common : Bool

-- `elf_get_align`
abbrev pub align_of : Asym → ℕ
align_of sp = elim sp.home [ common ↦ (if sp.value == 0 then 1 else sp.value) | _ ↦ 1 ]

-- What the linker notes: the slots of new commons, the errors, the numbers of constructors and
-- destructors, the slots of the two callbacks, and the modules that are referred to.
pub record Notes : Type 0 where
  pub new_commons : List ℕ
  pub errs : ℕ
  pub ctors : ℕ
  pub dtors : ℕ
  pub ini : Option ℕ
  pub fini : Option ℕ
  pub depend : Bitmap

-- `isCtorDtor`, from the letter before the tail of a name that matches the pattern.
unfoldable pub count_ctor_dtor : Option ℕ → Notes → Notes
count_ctor_dtor none n = n
count_ctor_dtor (some letter) n =
    if letter == b'I'
    then record n { ctors = n.ctors + 1 }
    else if letter == b'D'
    then record n { dtors = n.dtors + 1 }
    else n

-- `CEXPMOD_INITIALIZER_SYM` and `CEXPMOD_FINALIZER_SYM` are the two names.
pub record Names : Type 0 where
  pub initializer : List ℕ
  pub finalizer : List ℕ

-- The callbacks: the symbol is made local; a second one is an error.
unfoldable pub take_callback : Names → ℕ → Asym → Notes → Asym × Notes
take_callback names i sp n =
    let marked : Asym = record sp { local = true } in
    let bad : Notes = record n { errs = n.errs + 1 } in
    if str_eq sp.name names.initializer
    then (marked, elim n.ini [ some j ↦ bad | none ↦ record n { ini = some i } ])
    else if str_eq sp.name names.finalizer
    then (marked, elim n.fini [ some j ↦ bad | none ↦ record n { fini = some i } ])
    else (sp, n)

-- The name symbols of allocated sections are kept.
unfoldable pub keep_section : Asym → Asym
keep_section sp = elim sp.home [
  | in_file alloc ↦ if sp.section_sym && alloc then record sp { keep = true } else sp
  | _ ↦ sp
]

-- `asymFromCexpSym`: the symbol, and the module is noted.
abbrev pub asym_from : Sym → Asym
asym_from ts = record {
  name = ts.name;
  value = ts.addr;
  size = 0;
  home = absolute;
  local = false;
  global = true;
  section_sym = false;
  thread_local = false;
  function = false;
  weak = false;
  keep = false;
  old_common = false;
}

unfoldable pub refer : Module → Notes → Notes
refer m n = record n { depend = bitmap_set n.depend m.id }

-- `add_new_common`
abbrev pub new_common : Asym → Asym
new_common sp = record sp { keep = true; old_common = true }

unfoldable pub add_new_common : ℕ → Notes → Notes
add_new_common i n = record n { new_commons = n.new_commons ++ i ∷ [] }

-- The order of two words as `int`.
abbrev pub as_int : ℕ → ℕ
as_int x = (x + 2 ^ 31) % 2 ^ 32

-- The errors of a common symbol that exists: it is too small, or not aligned enough. The sizes are
-- compared as `int`.
abbrev pub common_errs : Sym → Asym → ℕ
common_errs ts sp =
    (if ltb (as_int ts.size) (as_int sp.size) then 1 else 0)
    + (if bit_and ts.addr (align_of sp - 1) == 0 then 0 else 1)

-- The three cases for a symbol that is global or undefined.
unfoldable pub resolve_undefined : Option (Module × Sym) → ℕ → Asym → Notes → Asym × Notes
unfolding add_new_common
resolve_undefined (some hit) i sp n = (sp, n)
resolve_undefined none i sp n =
    if not (sp.value == 0) && sp.function
    then (record sp { keep = true }, n)
    else if sp.weak
    then (new_common sp, add_new_common i n)
    else (sp, n)

unfoldable pub resolve_common : Option (Module × Sym) → ℕ → Asym → Notes → Asym × Notes
unfolding refer add_new_common
resolve_common (some (m, ts)) i sp n =
    (asym_from ts, refer m (record n { errs = n.errs + common_errs ts sp }))
resolve_common none i sp n = (new_common sp, add_new_common i n)

unfoldable pub resolve_defined : Option (Module × Sym) → ℕ → Asym → Notes → Asym × Notes
unfolding refer
resolve_defined (some (m, ts)) i sp n =
    if sp.weak then (asym_from ts, refer m n) else (sp, record n { errs = n.errs + 1 })
resolve_defined none i sp n = (record sp { keep = true }, n)

unfoldable pub resolve_case : Home → Option (Module × Sym) → ℕ → Asym → Notes → Asym × Notes
unfolding resolve_undefined resolve_common resolve_defined
resolve_case undefined hit i sp n = resolve_undefined hit i sp n
resolve_case common hit i sp n = resolve_common hit i sp n
resolve_case absolute hit i sp n = resolve_defined hit i sp n
resolve_case (in_file alloc) hit i sp n = resolve_defined hit i sp n

unfoldable pub resolve_global : List Module → ℕ → Asym → Notes → Asym × Notes
unfolding resolve_case
resolve_global ms i sp n = resolve_case sp.home (sym_lookup sp.name ms) i sp n

-- A round of the loop after the callbacks.
unfoldable pub after_callbacks : List Module → ℕ → Asym → Notes → Asym × Notes
unfolding keep_section resolve_global
after_callbacks ms i sp n =
    if sp.local
    then (keep_section sp, n)
    else if sp.thread_local
    then (sp, n)
    else resolve_global ms i sp n

-- A round of the loop; `letter` is what `isCtorDtor` finds in a name.
unfoldable pub resolve_sym :
    List Module → Names → (List ℕ → Option ℕ) → ℕ → Asym → Notes → Asym × Notes
unfolding count_ctor_dtor take_callback after_callbacks
resolve_sym ms names letter i sp n =
    let (sp', n') = take_callback names i sp (count_ctor_dtor (letter sp.name) n) in
    after_callbacks ms i sp' n'

-- The loop, from an index on.
unfoldable pub resolve_loop :
    List Module → Names → (List ℕ → Option ℕ) → ℕ → List Asym → Notes → List Asym × Notes
unfolding resolve_sym
resolve_loop ms names letter i [] n = ([], n)
resolve_loop ms names letter i (sp ∷ sps) n =
    let (sp', n') = resolve_sym ms names letter i sp n in
    let (sps', n'') = resolve_loop ms names letter (suc i) sps n' in (sp' ∷ sps', n'')
