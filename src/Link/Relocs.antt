-- ===== src/Link/Relocs.antt =====
-- `s_reloc` of bfdstuff.c: the relocations of one section. The contents of the section are in memory
-- already, and the entries are read; an entry is the index of its symbol, its type, offset and addend.
use rtems_hzb_cexpsh.Base.{
  ℕ, ◌+◌, Bool, true, false, not, if◌then◌else◌, Option, none, some, List, [], ◌∷◌, get_elem?, set,
}
use rtems_hzb_cexpsh.Syms.{Sym}
use rtems_hzb_cexpsh.Modules.Record.{Module}
use rtems_hzb_cexpsh.Modules.Lookup.{sym_lookup}
use rtems_hzb_cexpsh.Modules.Bitmap.{Bitmap, bitmap_set}
use rtems_hzb_cexpsh.Elf.Reloc.{Bytes, Status, Site, reloc_ok, perform_relocation}
use rtems_hzb_cexpsh.Link.{Section}
use rtems_hzb_cexpsh.Link.Resolve.{Asym, Home, undefined, in_file, asym_from}
use rtems_hzb_cexpsh.Link.Ctors.{asymbol_value}

-- `pmbfd_arelent`
pub record Reloc : Type 0 where
  pub sym : ℕ
  pub type : ℕ
  pub offset : ℕ
  pub addend : ℕ

-- What does not change: the loaded modules, `my__dso_handle` as its module and address, whether there is
-- `my__cxa_finalize`, the address of the new module, the addresses of the symbols' sections, and the
-- section that is relocated.
pub record Setting : Type 0 where
  pub mods : List Module
  pub is_dso_handle : Module → Sym → Bool
  pub cxa_finalize : Bool
  pub module_addr : ℕ
  pub sect_vma : Asym → ℕ
  pub sect : Section

-- What changes: the symbols, the modules that are referred to, the errors, and the memory.
pub record Work : Type 0 where
  pub st : List Asym
  pub depend : Bitmap
  pub errors : ℕ
  pub mem : Bytes

abbrev pub one_error : Work → Work
one_error w = record w { errors = w.errors + 1 }

-- The symbol for `__dso_handle`, at the address of the new module.
abbrev pub dso_symbol : ℕ → Sym → Asym
dso_symbol addr ts = record (asym_from ts) { value = addr; local = true; global = false }

abbrev pub is_ok : Status → Bool
is_ok reloc_ok = true
is_ok _ = false

-- What the entry, the symbol and the section say.
abbrev pub site_of : Setting → Reloc → Asym → Site
site_of g r sp = record {
  type = r.type;
  is_und = elim sp.home [ undefined ↦ true | _ ↦ false ];
  value = asymbol_value g.sect_vma sp;
  addend = r.addend;
  vma = g.sect.vma;
  offset = r.offset;
  size = g.sect.size;
}

unfoldable pub note_result : Status × Bytes → Work → Work
note_result done w =
    if is_ok done.0 then record w { mem = done.1 } else one_error (record w { mem = done.1 })

module _ (g : Setting) where
  -- The entry is carried out with that symbol.
  unfoldable pub perform : Reloc → Asym → Work → Work
  unfolding note_result
  perform r sp w = note_result (perform_relocation (site_of g r sp) w.mem) w

  -- An undefined symbol is looked up, and its slot of the symbol table replaced.
  unfoldable pub reloc_undefined : Option (Module × Sym) → ℕ → Reloc → Work → Work
  unfolding perform
  reloc_undefined none i r w = one_error w
  reloc_undefined (some (m, ts)) i r w =
      if g.is_dso_handle m ts
      then if g.cxa_finalize
        then perform r (dso_symbol g.module_addr ts)
            (record w { st = set w.st i (dso_symbol g.module_addr ts) })
        else one_error w
      else perform r (asym_from ts)
          (record w { st = set w.st i (asym_from ts); depend = bitmap_set w.depend m.id })

  -- By the section of the symbol; that of a link-once section that was dropped is skipped.
  unfoldable pub reloc_home : Home → ℕ → Asym → Reloc → Work → Work
  unfolding reloc_undefined
  reloc_home undefined i sp r w = reloc_undefined (sym_lookup sp.name g.mods) i r w
  reloc_home (in_file false) i sp r w = w
  reloc_home _ i sp r w = perform r sp w

  -- A round of the loop. `pmbfd_reloc_get_sym_idx` answers -1 for an index behind the symbols.
  unfoldable pub reloc_one : Reloc → Work → Work
  unfolding reloc_home
  reloc_one r w = elim (get_elem? w.st r.sym) [
    | none ↦ one_error w
    | some sp ↦ reloc_home sp.home r.sym sp r w
  ]

  -- The loop.
  unfoldable pub reloc_loop : List Reloc → Work → Work
  unfolding reloc_one
  reloc_loop [] w = w
  reloc_loop (r ∷ rs) w = reloc_loop rs (reloc_one r w)

  -- `s_reloc`, for a section whose entries were read, or could not be.
  unfoldable pub s_reloc : Option (List Reloc) → Work → Work
  unfolding reloc_loop
  s_reloc relocs w =
      if not g.sect.alloc then w else elim relocs [ none ↦ one_error w | some rs ↦ reloc_loop rs w ]
