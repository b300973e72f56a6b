-- ===== src/Modules/Load.antt =====
-- `cexpModuleLoad` and `addDependencies` of cexpmod.c. What reads an object file or the built-in
-- symbol table and fills a new module in is an interface here, with the contract that cexpmodP.h
-- states for `cexpLoadFile`; so is the entry of help texts in a symbol table.
use rtems_hzb_cexpsh.Base.{
  ℕ, ◌≡◌, inl, inr, ◌≢◌, Bool, true, false, ◌||◌, not, Option, none, some, List, [], ◌∷◌, ◌++◌,
  ◌==◌, if◌then◌else◌, map, str_eq, strcmp_refl, arith, ap,
}
use rtems_hzb_cexpsh.Syms.{SymTbl}
use rtems_hzb_cexpsh.Segs.{Memory, Chunks}
use rtems_hzb_cexpsh.Modules.Bitmap.{bitmap_set, bitmap_tst}
use rtems_hzb_cexpsh.Modules.Record.{Module, State, blank_module, say, run_all, run_one, In}
use rtems_hzb_cexpsh.Modules.Ids.{id_alloc}
use rtems_hzb_cexpsh.Modules.Unload.{module_free}

-- `cexpLoadFile` on a file, `cexpLoadBuiltinSymtab` without one: whether it succeeds, the module as it
-- leaves it, and the memory; and what the help tables of a module do to its symbols.
pub record Loader : Type 0 where
  pub load : Option (List ℕ) → Module → List Module → Chunks → Bool × Module × Chunks
  pub add_help : SymTbl → SymTbl

-- What `cexpModuleLoad` relies on: the module that was filled in kept the identifier, name and
-- dependents that it came with, and it needs loaded modules only; and the record stays where it is.
pub record IsFilled (n : Module) (ms : List Module) (m : Module) : Type 0 where
  pub same_id : m.id ≡ n.id
  pub same_name : m.name ≡ n.name
  pub same_dependents : m.neededby ≡ n.neededby
  pub needs_loaded : (j : ℕ) → bitmap_tst m.needs j ≡ true → (a : Module) × In a ms × (a.id ≡ j)

pub record IsLoader (ld : Loader) : Type 0 where
  pub fills :
      (file : Option (List ℕ)) (n : Module) (ms : List Module) (cs : Chunks)
      → (ld.load file n ms cs).0 ≡ true
      → IsFilled n ms (ld.load file n ms cs).1
  pub same_addr :
      (file : Option (List ℕ)) (n : Module) (ms : List Module) (cs : Chunks)
      → (ld.load file n ms cs).1.addr ≡ n.addr

-- `strrchr(filename, '/')` and one further.
unfoldable pub after_slash : List ℕ → Option (List ℕ)
after_slash [] = none
after_slash (c ∷ cs) = elim (after_slash cs) [
  | some r ↦ some r
  | none ↦ if c == b'/' then some cs else none
]

-- "SYSTEM-BUILTIN"
abbrev pub system_builtin : List ℕ
system_builtin =
    b'S' ∷ b'Y' ∷ b'S' ∷ b'T' ∷ b'E' ∷ b'M' ∷ b'-' ∷ b'B' ∷ b'U' ∷ b'I' ∷ b'L' ∷ b'T' ∷ b'I' ∷ b'N'
    ∷ []

-- The name given, or the last part of the file's name, or that of the built-in symbols.
unfoldable pub module_name : Option (List ℕ) → Option (List ℕ) → List ℕ
unfolding after_slash
module_name file (some name) = name
module_name none none = system_builtin
module_name (some f) none = elim (after_slash f) [ some base ↦ base | none ↦ f ]

-- The loop that looks for a module of that name.
unfoldable pub has_name : List ℕ → List Module → Bool
has_name name [] = false
has_name name (m ∷ ms) = str_eq m.name name || has_name name ms

-- `addDependencies`, for one module of the list.
abbrev pub add_dependent : Module → Module → Module
add_dependent n m =
    if bitmap_tst n.needs m.id then record m { neededby = bitmap_set m.neededby n.id } else m

-- From the help tables on, where nothing fails any more.
unfoldable pub chain : Loader → Module → State → Option ℕ × State
unfolding run_all
chain ld m st =
    let helped = record m { symtbl = ld.add_help m.symtbl } in
    let built = record helped { ctors = [] } in
    let called = say (run_all m.ctors ++ run_one m.ini) st in
    (some m.addr, record called { mods = map (add_dependent built) called.mods ++ built ∷ [] })

-- `cexpModuleLoad`: the handle, or null. `room` is what `malloc` gives for the record, and `name_mem`
-- whether it succeeds for the name.
unfoldable pub module_load :
    Memory → Loader → Option ℕ → Bool → Option (List ℕ) → Option (List ℕ) → State → Option ℕ × State
unfolding module_name has_name chain
module_load mem ld room name_mem file given st =
    let name = module_name file given in
    elim room [
      | none ↦ (none, st)
      | some addr ↦
          if has_name name st.mods
          then (none, module_free mem (blank_module addr) st)
          else elim (id_alloc st.mods st.last_id) [
            | none ↦ (none, module_free mem (blank_module addr) st)
            | some i ↦
                let st' = record st { last_id = i } in
                let blank = record (blank_module addr) { id = i } in
                let named = record blank { name = name } in
                let (ok, m, cs) = ld.load file named st'.mods st'.chunks in
                if not name_mem
                then (none, module_free mem blank st')
                else if ok
                then chain ld m (record st' { chunks = cs })
                else (none, module_free mem m (record st' { chunks = cs }))
          ]
    ]

pub has_name-In :
    (name : List ℕ) (m : Module) (ms : List Module)
    → has_name name ms ≡ false
    → In m ms
    → m.name ≢ name
unfolding has_name
has_name-In name m [] h i = elim i [ ]
has_name-In name m (x ∷ xs) h (inl e) =
    λ q. ground (arith, ap (λ (y : Module). y.name) e, strcmp_refl name)
has_name-In name m (x ∷ xs) h (inr i) = has_name-In name m xs (ground arith) i
