-- ===== src/Elf/Reloc.antt =====
-- pmbfd/bfd-reloc-powerpc.c: `pmbfd_perform_relocation`. A 32-bit variable is a number below 2 ^ 32,
-- a signed one in two's complement (so `>>` of a signed value keeps its low 16 bits as here). Memory
-- is a function from 32-bit addresses to bytes; the processor is big-endian.
use rtems_hzb_cexpsh.Base.{
  ℕ, ◌+◌, ◌-◌, ◌*◌, ◌/◌, ◌%◌, ◌^◌, Bool, not, ◌&&◌, ◌||◌, ltb, leb, ◌==◌, if◌then◌else◌,
}
use rtems_hzb_cexpsh.Segs.{word}

-- `bfd_reloc_status_type`
pub data Status : Type 0 where
  reloc_ok : Status
  undefined : Status
  notsupported : Status
  outofrange : Status
  other : Status
  overflow : Status

-- The types of the relocations that the code supports.
abbrev pub r_ppc_none : ℕ
r_ppc_none = 0

abbrev pub r_ppc_addr32 : ℕ
r_ppc_addr32 = 1

abbrev pub r_ppc_addr24 : ℕ
r_ppc_addr24 = 2

abbrev pub r_ppc_addr16_lo : ℕ
r_ppc_addr16_lo = 4

abbrev pub r_ppc_addr16_hi : ℕ
r_ppc_addr16_hi = 5

abbrev pub r_ppc_addr16_ha : ℕ
r_ppc_addr16_ha = 6

abbrev pub r_ppc_rel24 : ℕ
r_ppc_rel24 = 10

abbrev pub r_ppc_rel32 : ℕ
r_ppc_rel32 = 26

-- What the entry, its symbol and the section say.
pub record Site : Type 0 where
  pub type : ℕ
  pub is_und : Bool
  pub value : ℕ
  pub addend : ℕ
  pub vma : ℕ
  pub offset : ℕ
  pub size : ℕ

abbrev pub Bytes : Type 0
Bytes = ℕ → ℕ

-- `memcpy` of a `int16_t` and of a `int32_t` from and to memory.
abbrev pub half_at : Bytes → ℕ → ℕ
half_at mem a = mem a * 256 + mem (a + 1)

abbrev pub word_at : Bytes → ℕ → ℕ
word_at mem a = half_at mem a * 2 ^ 16 + half_at mem (a + 2)

unfoldable pub put_half : Bytes → ℕ → ℕ → Bytes
put_half mem a v x = if x == a then v / 256 % 256 else if x == a + 1 then v % 256 else mem x

unfoldable pub put_word : Bytes → ℕ → ℕ → Bytes
unfolding put_half
put_word mem a v = put_half (put_half mem a (v / 2 ^ 16)) (a + 2) (v % 2 ^ 16)

-- `lim` as its distance from 0, which is 0 where there is none; `lim >>= 1` for the relative branch.
abbrev pub limit : ℕ → ℕ
limit type = if type == r_ppc_addr24 then 2 ^ 26 else if type == r_ppc_rel24 then 2 ^ 25 else 0

abbrev pub is_16 : ℕ → Bool
is_16 type = type == r_ppc_addr16_ha || type == r_ppc_addr16_hi || type == r_ppc_addr16_lo

abbrev pub is_24 : ℕ → Bool
is_24 type = type == r_ppc_addr24 || type == r_ppc_rel24

-- `sz` and `algn`
abbrev pub field_size : ℕ → ℕ
field_size type = if is_16 type then 2 else 4

abbrev pub alignment : ℕ → ℕ
alignment type = if is_16 type then 2 else if type == r_ppc_addr32 then 1 else 4

abbrev pub is_supported : ℕ → Bool
is_supported type = is_16 type || is_24 type || type == r_ppc_rel32 || type == r_ppc_addr32

-- `val < lim || val > -lim - 1` of the signed value.
abbrev pub out_of_limit : ℕ → ℕ → Bool
out_of_limit b val = if ltb val (2 ^ 31) then leb b val else ltb val (word - b)

-- `(oval & ~msk) | (val & msk)` for the mask 0x03fffffc.
abbrev pub branch_field : ℕ → ℕ → ℕ
branch_field oval val = oval / 2 ^ 26 * 2 ^ 26 + val % 2 ^ 26 / 4 * 4 + oval % 4

-- The second `switch`: the carry from the low half, and the shift.
unfoldable pub upper_half : ℕ → ℕ → ℕ
upper_half type val =
    if type == r_ppc_addr16_ha
    then (if leb 0x8000 (val % 2 ^ 16) then val + 0x10000 else val) % word / 2 ^ 16
    else if type == r_ppc_addr16_hi
    then val / 2 ^ 16
    else val

-- What is written, from the value and the old contents.
unfoldable pub patch : Site → Bytes → ℕ → ℕ → Bytes
unfolding put_half put_word upper_half
patch s mem pc val =
    if is_16 s.type
    then put_half mem pc (upper_half s.type val % 2 ^ 16)
    else if is_24 s.type
    then put_word mem pc (branch_field (word_at mem pc) val)
    else put_word mem pc val

-- `pc`, and the value once the position is taken off.
abbrev pub pc_of : Site → ℕ
pc_of s = (s.vma + s.offset) % word

abbrev pub value_of : Site → ℕ
value_of s =
    let val = (s.value + s.addend) % word in
    if s.type == r_ppc_rel24 || s.type == r_ppc_rel32 then (val + word - pc_of s) % word else val

-- `pmbfd_perform_relocation`
unfoldable pub perform_relocation : Site → Bytes → Status × Bytes
unfolding patch
perform_relocation s mem =
    if s.type == r_ppc_none
    then (reloc_ok, mem)
    else if s.is_und
    then (undefined, mem)
    else if not (is_supported s.type)
    then (notsupported, mem)
    else if ltb s.size ((s.offset + field_size s.type) % word)
    then (outofrange, mem)
    else if not (pc_of s % alignment s.type == 0)
    then (other, mem)
    else if not (limit s.type == 0) && out_of_limit (limit s.type) (value_of s)
    then (overflow, mem)
    else if is_24 s.type && not (value_of s % 4 == 0)
    then (other, mem)
    else (reloc_ok, patch s mem (pc_of s) (value_of s))
