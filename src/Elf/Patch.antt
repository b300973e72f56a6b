-- ===== src/Elf/Patch.antt =====
-- What a relocation leaves at its place: the halves that the two instructions of an address put
-- together again, and the displacement of a branch.
use rtems_hzb_cexpsh.Base.{
  ℕ, ◌+◌, ◌-◌, ◌*◌, ◌/◌, ◌%◌, ◌^◌, ◌<◌, ◌≤◌, ◌≡◌, ◌≢◌, refl, true, false, ltb, ◌==◌, if◌then◌else◌,
  arith, ap, ◌∙◌,
}
use rtems_hzb_cexpsh.Segs.{word}
use rtems_hzb_cexpsh.Elf.Reloc.{
  Site, reloc_ok, Bytes, half_at, word_at, put_half, put_word, patch, pc_of, value_of,
  perform_relocation, upper_half, r_ppc_addr16_ha, r_ppc_addr16_lo, r_ppc_rel24, r_ppc_none,
  r_ppc_addr32, branch_field, limit, out_of_limit, is_24, is_16,
}

-- A relocation that does not succeed leaves the memory alone.
pub relocation-fails :
    (s : Site) (mem : Bytes)
    → (perform_relocation s mem).0 ≢ reloc_ok
    → (perform_relocation s mem).1 ≡ mem
unfolding perform_relocation
relocation-fails s mem bad = ground arith

half_at-put_half : (mem : Bytes) (a v : ℕ) → v < 2 ^ 16 → half_at (put_half mem a v) a ≡ v
unfolding put_half
half_at-put_half mem a v h = ground arith

word_at-put_word : (mem : Bytes) (a v : ℕ) → v < 2 ^ 32 → word_at (put_word mem a v) a ≡ v
unfolding put_word put_half
word_at-put_word mem a v h = ground arith

-- The low half as the `addi` instruction extends it.
abbrev pub sign_extended : ℕ → ℕ
sign_extended l = if ltb l (2 ^ 15) then l else l + word - 2 ^ 16

-- The upper and the lower half that the code forms of one address add up to it again, the lower one
-- taken as signed.
halves :
    (v : ℕ)
    → v < 2 ^ 32
    → (upper_half r_ppc_addr16_ha v % 2 ^ 16 * 2 ^ 16
          + sign_extended (upper_half r_ppc_addr16_lo v % 2 ^ 16))
        % word
      ≡ v
unfolding upper_half
halves v h = ground arith

-- What success means: the place was patched, and the checks were passed.
relocation-ok :
    (s : Site) (mem : Bytes)
    → (s.type == r_ppc_none) ≡ false
    → (perform_relocation s mem).0 ≡ reloc_ok
    → ((perform_relocation s mem).1 ≡ patch s mem (pc_of s) (value_of s))
      × ((limit s.type == 0) ≡ false → out_of_limit (limit s.type) (value_of s) ≡ false)
      × (is_24 s.type ≡ true → value_of s % 4 ≡ 0)
unfolding perform_relocation
relocation-ok s mem real ok = ground arith

patch-half :
    (s : Site) (mem : Bytes) (pc val : ℕ)
    → is_16 s.type ≡ true
    → half_at (patch s mem pc val) pc ≡ upper_half s.type val % 2 ^ 16
unfolding patch
patch-half s mem pc val h =
    rw h (half_at-put_half mem pc (upper_half s.type val % 2 ^ 16) (omega arith))

half_left :
    (s : Site) (mem : Bytes)
    → (s.type == r_ppc_none) ≡ false
    → is_16 s.type ≡ true
    → (perform_relocation s mem).0 ≡ reloc_ok
    → half_at (perform_relocation s mem).1 (pc_of s) ≡ upper_half s.type (value_of s) % 2 ^ 16
half_left s mem real h ok =
    ap (λ (b : Bytes). half_at b (pc_of s)) (relocation-ok s mem real ok).0
    ∙ patch-half s mem (pc_of s) (value_of s) h

-- Two relocations that succeed, of one address, by its adjusted upper half and by its lower half: the
-- halves they leave at their places add up to the address, the lower one taken as signed.
pub relocation-halves :
    (hi lo : Site) (m n : Bytes)
    → hi.type ≡ r_ppc_addr16_ha
    → lo.type ≡ r_ppc_addr16_lo
    → (hi.value + hi.addend) % word ≡ (lo.value + lo.addend) % word
    → (perform_relocation hi m).0 ≡ reloc_ok
    → (perform_relocation lo n).0 ≡ reloc_ok
    → (half_at (perform_relocation hi m).1 (pc_of hi) * 2 ^ 16
          + sign_extended (half_at (perform_relocation lo n).1 (pc_of lo)))
        % word
      ≡ (hi.value + hi.addend) % word
relocation-halves hi lo m n th tl same okh okl =
    let upper = half_left hi m (rw th refl) (rw th refl) okh in
    let lower = half_left lo n (rw tl refl) (rw tl refl) okl in
    rw (upper, lower, th, tl, ← same) (halves ((hi.value + hi.addend) % word) (omega arith))

-- A relative branch is 26 bits wide, with its two low bits zero.
abbrev pub displacement : ℕ → ℕ
displacement insn = let d = insn % 2 ^ 26 / 4 * 4 in if ltb d (2 ^ 25) then d else d + word - 2 ^ 26

branch_field-small : (oval val : ℕ) → oval < 2 ^ 32 → branch_field oval val < 2 ^ 32
branch_field-small oval val h = omega arith

patch-branch :
    (s : Site) (mem : Bytes) (pc val : ℕ)
    → s.type ≡ r_ppc_rel24
    → ((a : ℕ) → mem a < 256)
    → word_at (patch s mem pc val) pc ≡ branch_field (word_at mem pc) val
unfolding patch
patch-branch s mem pc val t bytes =
    let small : word_at mem pc < 2 ^ 32 =
      omega (arith, bytes pc, bytes (pc + 1), bytes (pc + 2), bytes (pc + 2 + 1)) in
    rw t (
      word_at-put_word mem pc (branch_field (word_at mem pc) val)
        (branch_field-small (word_at mem pc) val small))

-- The displacement of a value that passed the checks is the value.
branch_field-displacement :
    (oval val target pc : ℕ)
    → pc < 2 ^ 32
    → val ≡ (target + word - pc) % word
    → target < 2 ^ 32
    → val % 4 ≡ 0
    → out_of_limit (2 ^ 25) val ≡ false
    → (pc + displacement (branch_field oval val)) % word ≡ target
branch_field-displacement oval val target pc p e t a o = ground arith

limit-rel24 :
    (type val : ℕ)
    → type ≡ r_ppc_rel24
    → ((limit type == 0) ≡ false → out_of_limit (limit type) val ≡ false)
    → out_of_limit (2 ^ 25) val ≡ false
limit-rel24 type val t fits = (rw t at fits) refl

-- A relative branch whose relocation succeeds reaches the address: with the displacement that is left in
-- the instruction it is the place plus that, and the instruction's other bits are as they were.
pub relocation-branch :
    (s : Site) (mem : Bytes)
    → s.type ≡ r_ppc_rel24
    → ((a : ℕ) → mem a < 256)
    → (perform_relocation s mem).0 ≡ reloc_ok
    → ((pc_of s + displacement (word_at (perform_relocation s mem).1 (pc_of s))) % word
        ≡ (s.value + s.addend) % word)
      × (word_at (perform_relocation s mem).1 (pc_of s) / 2 ^ 26 ≡ word_at mem (pc_of s) / 2 ^ 26)
      × (word_at (perform_relocation s mem).1 (pc_of s) % 4 ≡ word_at mem (pc_of s) % 4)
relocation-branch s mem t bytes ok =
    let (done, fits, aligned) = relocation-ok s mem (rw t refl) ok in
    let here =
      ap (λ (b : Bytes). word_at b (pc_of s)) done
      ∙ patch-branch s mem (pc_of s) (value_of s) t bytes in
    rw here (
      branch_field-displacement (word_at mem (pc_of s)) (value_of s) ((s.value + s.addend) % word)
          (pc_of s) (omega arith) (rw t refl) (omega arith) (aligned (rw t refl))
          (limit-rel24 s.type (value_of s) t fits),
      omega arith,
      omega arith,
    )

-- The sum of offset and width is not kept from running over: an entry with the last offset of the
-- address space passes the check for the range, and the word before the section is overwritten.
pub relocation-wraps :
    (s : Site) (mem : Bytes)
    → s.type ≡ r_ppc_addr32
    → s.is_und ≡ false
    → s.offset ≡ 2 ^ 32 - 4
    → 4 ≤ s.vma
    → s.vma < 2 ^ 32
    → perform_relocation s mem ≡ (reloc_ok, put_word mem (s.vma - 4) ((s.value + s.addend) % word))
unfolding perform_relocation patch put_word
relocation-wraps s mem t und o low high =
    let at : (s.vma + (2 ^ 32 - 4)) % word ≡ s.vma - 4 = omega arith in
    rw (t, und, o, at) (ground arith)
