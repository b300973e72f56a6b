-- ===== src/Link/ResolveTests.antt =====
-- A run of the resolution of symbols of bfdstuff.c.
use rtems_hzb_cexpsh.Base.{
  ℕ, ◌≡◌, ◌≤◌, ◌+◌, refl, Bool, true, false, Option, none, some, All, get_elem?, List, [], ◌∷◌,
  arith, strcmp,
}
use rtems_hzb_cexpsh.Syms.{Sym, no_sym, empty_tbl, sym_tbl_lookup, namecomp}
use rtems_hzb_cexpsh.Modules.Bitmap.{no_bits, no_bits-IsBitmap, bitmap_set, bitmap_tst}
use rtems_hzb_cexpsh.Modules.Record.{Module, blank_module}
use rtems_hzb_cexpsh.Modules.Lookup.{sym_lookup}
use rtems_hzb_cexpsh.Link.Resolve.{
  Asym, Notes, Names, Home, in_file, common, undefined, asym_from, resolve_loop, resolve_sym,
}
use rtems_hzb_cexpsh.Elf.Reloc.{word_at, perform_relocation}
use rtems_hzb_cexpsh.Link.Relocs.{Reloc, Setting, Work, reloc_loop}
use rtems_hzb_cexpsh.Link.Bound.{IsServed, reloc_loop-IsServed}
use rtems_hzb_cexpsh.Link.Cases.{Keeps}
use rtems_hzb_cexpsh.Link.Commons.{
  IsStacked, space, align_pwr, align_pwr_loop, make_new_commons, make_new_commons-IsStacked,
}
use rtems_hzb_cexpsh.Link.Resolved.{AllResolved, resolve_loop-AllResolved}

abbrev a_at : Sym
a_at = record no_sym { name = b'a' ∷ []; addr = 64; size = 8 }

-- A module with the identifier 3 that has the symbol `a`.
abbrev with_a : List Module
with_a = record (blank_module 1) { id = 3; symtbl = record empty_tbl { syms = a_at ∷ [] } } ∷ []

abbrev asym : List ℕ → Home → Bool → Asym
asym name home weak = record {
  name = name;
  value = 4;
  size = 8;
  home = home;
  local = false;
  global = true;
  section_sym = false;
  thread_local = false;
  function = false;
  weak = weak;
  keep = false;
  old_common = false;
}

-- A weak `a`, a common `a`, and a new `b`.
abbrev file : List Asym
file =
    asym (b'a' ∷ []) (in_file true) true
    ∷ asym (b'a' ∷ []) common false
    ∷ asym (b'b' ∷ []) (in_file true) false
    ∷ []

abbrev names : Names
names = record { initializer = b'i' ∷ []; finalizer = b'f' ∷ [] }

abbrev no_notes : Notes
no_notes = record {
  new_commons = [];
  errs = 0;
  ctors = 0;
  dtors = 0;
  ini = none;
  fini = none;
  depend = no_bits;
}

abbrev no_letter : List ℕ → Option ℕ
no_letter name = none

resolve_loop-AllResolved_example :
    (0 ≤ (resolve_loop with_a names no_letter 0 file no_notes).1.errs)
    × Keeps no_bits (resolve_loop with_a names no_letter 0 file no_notes).1.depend
    × ((resolve_loop with_a names no_letter 0 file no_notes).1.errs ≡ 0
        → AllResolved with_a names no_letter
            (resolve_loop with_a names no_letter 0 file no_notes).1.depend
            file
            (resolve_loop with_a names no_letter 0 file no_notes).0)
resolve_loop-AllResolved_example =
    resolve_loop-AllResolved with_a names no_letter (omega arith, tt) 0 file no_notes
      no_bits-IsBitmap

-- The run ends without an error, and notes the module.
run :
    ((resolve_loop with_a names no_letter 0 file no_notes).1.errs ≡ 0)
    × (bitmap_tst (resolve_loop with_a names no_letter 0 file no_notes).1.depend 3 ≡ true)
unfolding resolve_loop resolve_sym sym_lookup sym_tbl_lookup namecomp bitmap_set bitmap_tst strcmp
run = (refl, refl)

abbrev commons : List Asym
commons = asym (b'a' ∷ []) common false ∷ asym (b'b' ∷ []) common false ∷ []

make_new_commons-IsStacked_example :
    (sps' : List Asym) × (size : ℕ) × (make_new_commons commons 0 ≡ some (sps', size))
    × IsStacked 0 32 commons sps'
    × (0 ≤ size)
    × (size ≤ 0 + space commons)
unfolding align_pwr align_pwr_loop
make_new_commons-IsStacked_example =
    make_new_commons-IsStacked commons 0 32 (omega arith, (omega arith, tt)) (omega arith)
      (omega arith)

-- A section that refers to an `a` that is not in the file.
abbrev setting : Setting
setting = record {
  mods = with_a;
  is_dso_handle = λ m ts. false;
  cxa_finalize = false;
  module_addr = 1;
  sect_vma = λ sp. 0;
  sect = record {
    name = b't' ∷ [];
    code = true;
    alloc = true;
    link_once = false;
    size = 16;
    align = 2;
    vma = 8192;
  };
}

abbrev entries : List Reloc
entries = record { sym = 0; type = 1; offset = 4; addend = 2 } ∷ []

abbrev work : Work
work = record {
  st = asym (b'a' ∷ []) undefined false ∷ [];
  depend = no_bits;
  errors = 0;
  mem = λ a. 0;
}

run_bound :
    (get_elem? (reloc_loop setting entries work).st 0 ≡ some (asym_from a_at))
    × (bitmap_tst (reloc_loop setting entries work).depend 3 ≡ true)
    × (word_at (reloc_loop setting entries work).mem 8196 ≡ 66)
unfolding reloc_loop sym_lookup sym_tbl_lookup namecomp strcmp perform_relocation bitmap_set
    bitmap_tst
run_bound = (refl, refl, refl)

reloc_loop-IsServed_example : All (IsServed setting work (reloc_loop setting entries work)) entries
unfolding reloc_loop sym_lookup sym_tbl_lookup namecomp strcmp perform_relocation
reloc_loop-IsServed_example =
    reloc_loop-IsServed setting (omega arith, tt) entries work no_bits-IsBitmap refl
