-- ===== src/Link/Relocated.antt =====
-- Where `s_reloc` of bfdstuff.c writes.
use rtems_hzb_cexpsh.Base.{
  ℕ, ◌+◌, ◌%◌, ◌≡◌, ◌≤◌, ◌<◌, ◌⊎◌, inl, inr, Bool, true, false, ltb, not, ◌&&◌, ◌==◌, if◌then◌else◌,
  Option, none, some, List, [], ◌∷◌, get_elem?, set, All, arith, refl, ap, ◌∙◌,
}
use rtems_hzb_cexpsh.Segs.{word}
use rtems_hzb_cexpsh.Syms.{Sym}
use rtems_hzb_cexpsh.Modules.Record.{Module}
use rtems_hzb_cexpsh.Modules.Lookup.{sym_lookup}
use rtems_hzb_cexpsh.Modules.Bitmap.{bitmap_set}
use rtems_hzb_cexpsh.Elf.Reloc.{
  Bytes, Status, Site, reloc_ok, perform_relocation, patch, put_half, put_word, field_size, pc_of,
  value_of, r_ppc_none, is_24, is_supported, alignment, limit, out_of_limit, notsupported,
  outofrange, other, overflow,
}
use rtems_hzb_cexpsh.Link.Resolve.{Asym, Home, undefined, in_file, absolute, common, asym_from}
use rtems_hzb_cexpsh.Link.Relocs.{
  Reloc, Setting, Work, one_error, dso_symbol, site_of, note_result, perform, reloc_undefined,
  reloc_home, reloc_one, reloc_loop, s_reloc,
}

patch_apart :
    (s : Site) (mem : Bytes) (pc val a : ℕ)
    → (a < pc) ⊎ (pc + field_size s.type ≤ a)
    → patch s mem pc val a ≡ mem a
unfolding patch put_word put_half
patch_apart s mem pc val a out = ground (arith, out)

-- The guards one after the other: memory stays, or all of them were passed.
abbrev outcome : Bool → Bool → Bool → Bool → Bool → Bool → Bool → Bytes → Bytes → Status × Bytes
outcome none_type und unsupported range align over odd mem new =
    if none_type
    then (reloc_ok, mem)
    else if und
    then (Status.undefined, mem)
    else if unsupported
    then (notsupported, mem)
    else if range
    then (outofrange, mem)
    else if align
    then (other, mem)
    else if over
    then (overflow, mem)
    else if odd
    then (other, mem)
    else (reloc_ok, new)

guards :
    (n u s r l o d : Bool) (mem new : Bytes)
    → ((outcome n u s r l o d mem new).1 ≡ mem)
      ⊎ ((r ≡ false) × ((outcome n u s r l o d mem new).1 ≡ new))
guards true u s r l o d mem new = inl refl
guards false true s r l o d mem new = inl refl
guards false false true r l o d mem new = inl refl
guards false false false true l o d mem new = inl refl
guards false false false false true o d mem new = inl refl
guards false false false false false true d mem new = inl refl
guards false false false false false false true mem new = inl refl
guards false false false false false false false mem new = inr (refl, refl)

not_below : (a b : ℕ) → ltb a b ≡ false → b ≤ a
not_below a b h = ground (arith, h)

-- What is written, if anything, and that the check against the size was passed.
perform-cases :
    (s : Site) (mem : Bytes)
    → ((perform_relocation s mem).1 ≡ mem)
      ⊎ (((s.offset + field_size s.type) % word ≤ s.size)
          × ((perform_relocation s mem).1 ≡ patch s mem (pc_of s) (value_of s)))
unfolding perform_relocation
perform-cases s mem =
    elim (guards (s.type == r_ppc_none) s.is_und (not (is_supported s.type))
      (ltb s.size ((s.offset + field_size s.type) % word)) (not (pc_of s % alignment s.type == 0))
      (not (limit s.type == 0) && out_of_limit (limit s.type) (value_of s))
      (is_24 s.type && not (value_of s % 4 == 0)) mem (patch s mem (pc_of s) (value_of s))) [
        | inl e ↦ inl e
        | inr (within, e) ↦ inr (not_below s.size ((s.offset + field_size s.type) % word) within, e)
      ]

field_size-bound : (type : ℕ) → (2 ≤ field_size type) × (field_size type ≤ 4)
field_size-bound type = ground arith

perform-Outside :
    (s : Site) (mem : Bytes)
    → s.vma + s.size ≤ word
    → s.offset + 4 < word
    → (a : ℕ) → (a < s.vma) ⊎ (s.vma + s.size ≤ a)
    → (perform_relocation s mem).1 a ≡ mem a
perform-Outside s mem fits off a out = elim (perform-cases s mem) [
  | inl e ↦ ap (λ (m : Bytes). m a) e
  | inr (within, e) ↦
      ap (λ (m : Bytes). m a) e
      ∙ patch_apart s mem (pc_of s) (value_of s) a
          (apart (field_size s.type) (field_size-bound s.type).0 (field_size-bound s.type).1 within)
]
  where
    apart :
        (fs : ℕ)
        → 2 ≤ fs
        → fs ≤ 4
        → (s.offset + fs) % word ≤ s.size
        → (a < pc_of s) ⊎ (pc_of s + fs ≤ a)
    apart fs lo hi within = ground (arith, lo, hi, within, fits, off, out)

note-mem : (done : Status × Bytes) (w : Work) → (note_result done w).mem ≡ done.1
unfolding note_result
note-mem done w = ground arith

module _ (g : Setting) where
  -- The section is in memory, and the entries' offsets do not run over the end of the address space.
  abbrev pub FitsMemory : List Reloc → Type 0
  FitsMemory rs = (g.sect.vma + g.sect.size ≤ word) × All (λ r. r.offset + 4 < word) rs

  -- Memory that differs inside the section only.
  abbrev pub Outside : Work → Work → Type 0
  Outside w w' = (a : ℕ) → (a < g.sect.vma) ⊎ (g.sect.vma + g.sect.size ≤ a) → w'.mem a ≡ w.mem a

  work-Outside :
      (r : Reloc) (sp : Asym) (w : Work)
      → g.sect.vma + g.sect.size ≤ word
      → r.offset + 4 < word
      → Outside w (perform g r sp w)
  unfolding perform
  work-Outside r sp w fits off a out =
      ap (λ (m : Bytes). m a) (note-mem (perform_relocation (site_of g r sp) w.mem) w)
      ∙ perform-Outside (site_of g r sp) w.mem fits off a out

  if-Outside :
      (b : Bool) (w x y : Work) → Outside w x → Outside w y → Outside w (if b then x else y)
  if-Outside true w x y p q = p
  if-Outside false w x y p q = q

  found-Outside :
      (hit : Option (Module × Sym)) (i : ℕ) (r : Reloc) (w : Work)
      → g.sect.vma + g.sect.size ≤ word
      → r.offset + 4 < word
      → Outside w (reloc_undefined g hit i r w)
  unfolding reloc_undefined
  found-Outside none i r w fits off = λ a out. refl
  found-Outside (some (m, ts)) i r w fits off =
      let dso = dso_symbol g.module_addr ts in
      let with_dso : Work = record w { st = set w.st i dso } in
      let with_sym : Work = record w {
        st = set w.st i (asym_from ts);
        depend = bitmap_set w.depend m.id;
      } in
      if-Outside (g.is_dso_handle m ts) w
        (if g.cxa_finalize then perform g r dso with_dso else one_error w)
        (perform g r (asym_from ts) with_sym)
        (if-Outside g.cxa_finalize w (perform g r dso with_dso) (one_error w)
          (work-Outside r dso with_dso fits off) (λ a out. refl))
        (work-Outside r (asym_from ts) with_sym fits off)

  home-Outside :
      (home : Home) (i : ℕ) (sp : Asym) (r : Reloc) (w : Work)
      → g.sect.vma + g.sect.size ≤ word
      → r.offset + 4 < word
      → Outside w (reloc_home g home i sp r w)
  unfolding reloc_home
  home-Outside undefined i sp r w fits off =
      found-Outside (sym_lookup sp.name g.mods) i r w fits off
  home-Outside (in_file false) i sp r w fits off = λ a out. refl
  home-Outside (in_file true) i sp r w fits off = work-Outside r sp w fits off
  home-Outside common i sp r w fits off = work-Outside r sp w fits off
  home-Outside absolute i sp r w fits off = work-Outside r sp w fits off

  -- A round on the entry's slot of the symbol table.
  slot-Outside :
      (o : Option Asym) (r : Reloc) (w : Work)
      → g.sect.vma + g.sect.size ≤ word
      → r.offset + 4 < word
      → Outside w (elim o [ none ↦ one_error w | some sp ↦ reloc_home g sp.home r.sym sp r w ])
  slot-Outside none r w fits off = λ a out. refl
  slot-Outside (some sp) r w fits off = home-Outside sp.home r.sym sp r w fits off

  loop-Outside : (rs : List Reloc) (w : Work) → FitsMemory rs → Outside w (reloc_loop g rs w)
  unfolding reloc_loop reloc_one
  loop-Outside [] w f a out = refl
  loop-Outside (r ∷ rs) w f a out =
      loop-Outside rs (reloc_one g r w) (f.0, f.1.1) a out
      ∙ slot-Outside (get_elem? w.st r.sym) r w f.0 f.1.0 a out

  -- Relocating a section writes nowhere but into that section, whatever its entries say and whether or
  -- not they fail, where the section lies within the address space and no entry's offset is among the
  -- last four of it.
  pub s_reloc-Outside :
      (rs : List Reloc) (w : Work) → FitsMemory rs → Outside w (s_reloc g (some rs) w)
  unfolding s_reloc
  s_reloc-Outside rs w f =
      if-Outside (not g.sect.alloc) w w (reloc_loop g rs w) (λ a out. refl) (loop-Outside rs w f)
