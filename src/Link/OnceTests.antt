-- ===== src/Link/OnceTests.antt =====
-- Runs of the elimination of link-once sections and of the constructors' order, and each theorem about
-- them at an input.
use rtems_hzb_cexpsh.Base.{
  ℕ, ◌+◌, ◌≡◌, ◌≤◌, ◌<◌, Bool, true, false, ◌==◌, if◌then◌else◌, none, some, List, [], ◌∷◌, str_eq,
  strcmp, refl, arith, map, length, Bool-cases, inl, inr, sym, subst,
}
use rtems_hzb_cexpsh.Elf.Reloc.{word_at, perform_relocation}
use rtems_hzb_cexpsh.Link.{Section}
use rtems_hzb_cexpsh.Link.Relocs.{Reloc, Setting, Work, s_reloc}
use rtems_hzb_cexpsh.Link.Relocated.{s_reloc-Outside}
use rtems_hzb_cexpsh.Link.Groups.{Members, link_group, eliminate_all}
use rtems_hzb_cexpsh.Link.Discard.{IsCleared, dropped, AreRings, IsRing, eliminate_all-IsCleared}
use rtems_hzb_cexpsh.Link.Rings.{IsChained, link_group-IsRing}
use rtems_hzb_cexpsh.Link.Resolve.{Asym, Notes, Names, in_file, resolve_loop}
use rtems_hzb_cexpsh.Link.Order.{
  IsOrder, ctors_of, dtors_of, letter_of, resolve_loop-build_ctors_dtors,
}
use rtems_hzb_cexpsh.Link.Ctors.{Pattern, ctor_cmp, is_ctor_dtor, build_ctors_dtors}
use rtems_hzb_cexpsh.Link.InsertionSort.{insertion_sort, insertion_sort-IsQsort}

-- A pattern that names "_I." and "_D." match.
abbrev ends : Pattern
ends [] = none
ends (c ∷ cs) = if c == b'_' then some 3 else none

abbrev symbol : List ℕ → ℕ → Asym
symbol name value = record {
  name = name;
  value = value;
  size = 0;
  home = in_file true;
  local = true;
  global = false;
  section_sym = false;
  thread_local = false;
  function = true;
  weak = false;
  keep = false;
  old_common = false;
}

-- Two constructors, the later with the lower priority, and a destructor with none.
abbrev symbols : List Asym
symbols =
    symbol (b'_' ∷ b'I' ∷ b'.' ∷ b'9' ∷ []) 64
    ∷ symbol (b'_' ∷ b'D' ∷ b'.' ∷ b'x' ∷ []) 32
    ∷ symbol (b'_' ∷ b'I' ∷ b'.' ∷ b'2' ∷ []) 96
    ∷ []

abbrev nothing : Notes
nothing = record {
  new_commons = [];
  errs = 0;
  ctors = 0;
  dtors = 0;
  ini = none;
  fini = none;
  depend = [];
}

abbrev callbacks : Names
callbacks = record { initializer = b'i' ∷ []; finalizer = b'f' ∷ [] }

abbrev resolved : List Asym × Notes
resolved = resolve_loop [] callbacks (letter_of ends) 0 symbols nothing

run_ctors :
    build_ctors_dtors ends insertion_sort (λ sp. 4096) 2 1 symbols
    ≡ some (4192 ∷ 4160 ∷ [], 4128 ∷ [])
unfolding build_ctors_dtors insertion_sort ctor_cmp
run_ctors = refl

resolve_loop-build_ctors_dtors_example :
    (cs ds : List ℕ) × (build_ctors_dtors ends insertion_sort
        (λ sp. 4096)
        resolved.1.ctors
        resolved.1.dtors
        resolved.0
      ≡ some (cs, ds))
    × IsOrder (λ sp. 4096) (λ a b. a.pri ≤ b.pri) (ctors_of ends resolved.0) cs
    × IsOrder (λ sp. 4096) (λ a b. b.pri ≤ a.pri) (dtors_of ends resolved.0) ds
unfolding resolve_loop strcmp is_ctor_dtor
resolve_loop-build_ctors_dtors_example =
    resolve_loop-build_ctors_dtors ends insertion_sort (λ sp. 4096) insertion_sort-IsQsort []
      callbacks symbols resolved.0 nothing resolved.1 refl refl refl refl
      (omega arith, ((λ e. omega (arith, e)), tt), (omega arith, tt, tt)) (omega arith, tt, tt)

-- A file with an ordinary section 1 and a group in section 2 of sections 3 and 4.
abbrev section : List ℕ → Bool → Section
section name once = record {
  name = name;
  code = false;
  alloc = true;
  link_once = once;
  size = 16;
  align = 2;
  vma = 0;
}

abbrev file : Members
file i =
    if i == 2
    then record { sect = section (b'g' ∷ []) true; group = true; grp_next = some 3 }
    else if i == 3
    then record { sect = section (b't' ∷ []) false; group = false; grp_next = some 4 }
    else if i == 4
    then record { sect = section (b'd' ∷ []) false; group = false; grp_next = some 2 }
    else record { sect = section (b'o' ∷ []) false; group = false; grp_next = none }

abbrev members : ℕ → List ℕ
members i = if i == 2 then 3 ∷ 4 ∷ [] else []

abbrev has_g : List ℕ → Bool
has_g name = str_eq name (b'g' ∷ [])

rings : AreRings has_g members file 4 5
rings j h g = elim (Bool-cases (j == 2)) [
  | inl e ↦
      let two : j ≡ 2 = ground (arith, e) in
      subst (λ i. (length (members i) + 1 < 4) × IsRing file i (members i)) (sym two)
        (omega arith, (refl, (refl, (refl, tt)), (refl, (refl, refl))))
  | inr e ↦ absurd (ground (arith, e, g))
]

eliminate_all-IsCleared_example :
    (ms' : Members) × (eliminate_all has_g 4 5 file ≡ some ms')
    × IsCleared (dropped has_g members file 5) file ms'
eliminate_all-IsCleared_example = eliminate_all-IsCleared has_g members file 4 5 rings

run_dropped :
    map (dropped has_g members file 5) (1 ∷ 2 ∷ 3 ∷ 4 ∷ []) ≡ false ∷ true ∷ true ∷ true ∷ []
unfolding strcmp
run_dropped = refl

link_group-IsRing_example :
    (ms' : Members) × (link_group 5 2 2 (3 ∷ 4 ∷ []) file ≡ some ms')
    × IsRing ms' 2 (3 ∷ 4 ∷ [])
    × IsChained file ms' 2 (3 ∷ 4 ∷ []) 2
link_group-IsRing_example =
    link_group-IsRing 5 2 (3 ∷ 4 ∷ []) file refl (refl, (refl, tt))
      ((omega arith, omega arith), ((omega arith, omega arith), tt))

-- A section of 16 bytes, and the relocation of its second word by a symbol of the file.
abbrev setting : Setting
setting = record {
  mods = [];
  is_dso_handle = λ m ts. false;
  cxa_finalize = false;
  module_addr = 1;
  sect_vma = λ sp. 4096;
  sect = record (section (b't' ∷ []) false) { vma = 8192 };
}

abbrev entries : List Reloc
entries = record { sym = 0; type = 1; offset = 4; addend = 2 } ∷ []

abbrev work : Work
work = record { st = symbols; depend = []; errors = 0; mem = λ a. 0 }

run_reloc : word_at (s_reloc setting (some entries) work).mem 8196 ≡ 4162
unfolding s_reloc perform_relocation
run_reloc = refl

s_reloc-Outside_example : (s_reloc setting (some entries) work).mem 8208 ≡ 0
s_reloc-Outside_example =
    s_reloc-Outside setting entries work (omega arith, (omega arith, tt)) 8208 (inr (omega arith))
