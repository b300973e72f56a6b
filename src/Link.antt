-- ===== src/Link.antt =====
-- bfdstuff.c: where the linker puts the sections of an object file. The sections that are allocated are
-- counted into the memory segments, and placed there once the segments have memory. A segment is
-- named by its index in the array; its size and its working counter are words of 32 bits.
pub mod Align
pub mod Counting
pub mod Discard
pub mod Groups
pub mod Rings
pub mod Layout
pub mod Relocs
pub mod Relocated
pub mod Resolve
pub mod Bound
pub mod Rounds
pub mod Cases
pub mod Commons
pub mod Ctors
pub mod InsertionSort
pub mod OnceTests
pub mod Order
pub mod Resolved
pub mod ResolveTests
pub mod Tests
use rtems_hzb_cexpsh.Base.{
  ℕ, suc, ◌+◌, ◌-◌, ◌*◌, ◌/◌, ◌%◌, ◌^◌, Bool, true, false, not, ◌&&◌, ◌||◌, ltb, ◌==◌,
  if◌then◌else◌, Option, none, some, List, [], ◌∷◌, str_eq,
}

abbrev pub word : ℕ
word = 2 ^ 32

-- An `asection`, as far as it is used: the name, the flags `SEC_CODE`, `SEC_ALLOC` and `SEC_LINK_ONCE`,
-- the size, the alignment as a power of 2, and the address.
pub record Section : Type 0 where
  pub name : List ℕ
  pub code : Bool
  pub alloc : Bool
  pub link_once : Bool
  pub size : ℕ
  pub align : ℕ
  pub vma : ℕ

-- `cexpSegsMatch` of cexpsegs-dflt.c, and of cexpsegs-powerpc-rtems.c.
abbrev pub segs_match_dflt : Section → ℕ
segs_match_dflt s = 0

abbrev pub segs_match_powerpc : Section → ℕ
segs_match_powerpc s = if s.code then 0 else 1

-- `align_power` of pmbfd.h
abbrev pub align_power : ℕ → ℕ → ℕ
align_power addr align = (addr + 2 ^ align - 1) / 2 ^ align * 2 ^ align

-- `EH_SECTION_NAME`, `FIXUP_SECTION_NAME`, `GOT_SECTION_NAME` and `GOT2_SECTION_NAME`
abbrev pub eh_section_name : List ℕ
eh_section_name = b'.' ∷ b'e' ∷ b'h' ∷ b'_' ∷ b'f' ∷ b'r' ∷ b'a' ∷ b'm' ∷ b'e' ∷ []

abbrev pub fixup_section_name : List ℕ
fixup_section_name = b'.' ∷ b'f' ∷ b'i' ∷ b'x' ∷ b'u' ∷ b'p' ∷ []

abbrev pub got_section_name : List ℕ
got_section_name = b'.' ∷ b'g' ∷ b'o' ∷ b't' ∷ []

abbrev pub got2_section_name : List ℕ
got2_section_name = b'.' ∷ b'g' ∷ b'o' ∷ b't' ∷ b'2' ∷ []

-- Whether it is a section that gets a terminating 0, `sizeof(long)` more bytes.
unfoldable pub is_eh : Section → Bool
is_eh s = s.alloc && not s.link_once && str_eq s.name eh_section_name

-- Whether it is a section that must not be there.
unfoldable pub is_dangerous : Section → Bool
unfolding is_eh
is_dangerous s =
    s.alloc
    && not s.link_once
    && not (is_eh s)
    && not (s.size == 0)
    && (str_eq s.name fixup_section_name
        || str_eq s.name got_section_name
        || str_eq s.name got2_section_name)

-- The sizes of the segments, the index of `eh_section`, and the errors.
pub record Count : Type 0 where
  pub sizes : ℕ → ℕ
  pub eh_section : Option ℕ
  pub errors : ℕ

abbrev pub update : (ℕ → ℕ) → ℕ → ℕ → ℕ → ℕ
update f g n x = if x == g then n else f x

-- `s_nsects`: a section of no size is not allocated.
unfoldable pub s_nsects : Section → Section
s_nsects s = if s.size == 0 then record s { alloc = false } else s

module _ (match : Section → ℕ) where
  -- `s_count`, for the section with that index.
  unfoldable pub s_count : ℕ → Section → Count → Count
  unfolding is_eh is_dangerous
  s_count i s c =
      let g = match s in
      let extra = if is_eh s then 4 else 0 in
      if s.alloc
      then record {
        sizes = update c.sizes g ((c.sizes g + (2 ^ s.align - 1) + s.size + extra) % word);
        eh_section = if is_eh s then some i else c.eh_section;
        errors = if is_dangerous s then c.errors + 1 else c.errors;
      }
      else c

  -- `bfd_map_over_sections` with `s_count`, from an index on.
  unfoldable pub count_sections : ℕ → List Section → Count → Count
  unfolding s_count
  count_sections i [] c = c
  count_sections i (s ∷ ss) c = count_sections (suc i) ss (s_count i s c)

  -- Whether that index is the one of `eh_section`.
  abbrev pub at_eh : Option ℕ → ℕ → Bool
  at_eh none i = false
  at_eh (some e) i = e == i

  -- The working counters of the segments and the errors.
  pub record Place : Type 0 where
    pub vmacalc : ℕ → ℕ
    pub errors : ℕ

  -- `s_setvma`, for the section with that index: the section with its address, and the counters.
  unfoldable pub s_setvma : Option ℕ → ℕ → Section → Place → Section × Place
  s_setvma eh i s p =
      let g = match s in
      let vma = align_power (p.vmacalc g) s.align % word in
      let extra = if at_eh eh i then 4 else 0 in
      if not s.alloc
      then (s, p)
      else if s.size == 0
      then (s, p)
      else if p.vmacalc g == word - 1
      then (s, record p { errors = p.errors + 1 })
      else (
        record s { vma = vma },
        record p { vmacalc = update p.vmacalc g ((vma + s.size + extra) % word) },
      )

  -- `bfd_map_over_sections` with `s_setvma`.
  unfoldable pub place_sections : Option ℕ → ℕ → List Section → Place → List Section × Place
  unfolding s_setvma
  place_sections eh i [] p = ([], p)
  place_sections eh i (s ∷ ss) p =
      let (s', p') = s_setvma eh i s p in
      let (ss', p'') = place_sections eh (suc i) ss p' in (s' ∷ ss', p'')

  -- `cexpLoadFile` up to the allocation of the segments.
  unfoldable pub count_all : List Section → Count
  unfolding count_sections
  count_all ss = count_sections 0 ss (record { sizes = λ g. 0; eh_section = none; errors = 0 })

  -- The part of `cexpLoadFile` that lays out the sections in segments whose memory is at `chunks`.
  unfoldable pub lay_out : List Section → (ℕ → ℕ) → List Section × Place
  unfolding count_all place_sections
  lay_out ss chunks =
      let c = count_all ss in
      place_sections c.eh_section 0 ss
        (record { vmacalc = λ g. if chunks g == 0 then word - 1 else chunks g; errors = 0 })
