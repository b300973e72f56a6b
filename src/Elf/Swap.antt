-- ===== src/Elf/Swap.antt =====
-- The byte swaps of pmbfd/pmelfP.h, and the numbers that a processor of either byte order keeps in
-- memory: `lsb` is what `iamlsb` answers on it.
use rtems_hzb_cexpsh.Base.{
  ℕ, zero, suc, ◌+◌, ◌*◌, ◌/◌, ◌%◌, ◌^◌, ◌<◌, ◌≡◌, Bool, true, false, List, ◌∷◌, get_or,
  if◌then◌else◌, arith, ap, not, ◌∙◌,
}
use native.Mathlib.Nat.{add_comm}

-- `elf_swab`, `elf_swah` (which is `elf_swap32` of a variable) and `elf_swap64`. The parts that are
-- joined by `|` have no bit in common.
unfoldable pub elf_swab : ℕ → ℕ
elf_swab v = v / 2 ^ 8 + v * 2 ^ 8 % 2 ^ 16

unfoldable pub elf_swah : ℕ → ℕ
unfolding elf_swab
elf_swah v = elf_swab (v / 2 ^ 16) + elf_swab (v % 2 ^ 16) * 2 ^ 16

unfoldable pub elf_swap64 : ℕ → ℕ
unfolding elf_swah
elf_swap64 v = elf_swah (v % 2 ^ 32) * 2 ^ 32 + elf_swah (v / 2 ^ 32)

-- A 16-bit, a 32-bit and a 64-bit number at an offset of some bytes, and its bytes.
abbrev pub byte_at : List ℕ → ℕ → ℕ
byte_at bs o = get_or bs o 0

unfoldable pub half_at : Bool → List ℕ → ℕ → ℕ
half_at lsb bs o =
    if lsb
    then byte_at bs o + byte_at bs (o + 1) * 2 ^ 8
    else byte_at bs o * 2 ^ 8 + byte_at bs (o + 1)

unfoldable pub word_at : Bool → List ℕ → ℕ → ℕ
unfolding half_at
word_at lsb bs o =
    if lsb
    then half_at lsb bs o + half_at lsb bs (o + 2) * 2 ^ 16
    else half_at lsb bs o * 2 ^ 16 + half_at lsb bs (o + 2)

unfoldable pub xword_at : Bool → List ℕ → ℕ → ℕ
unfolding word_at
xword_at lsb bs o =
    if lsb
    then word_at lsb bs o + word_at lsb bs (o + 4) * 2 ^ 32
    else word_at lsb bs o * 2 ^ 32 + word_at lsb bs (o + 4)

unfoldable pub put_half : Bool → ℕ → List ℕ → List ℕ
put_half lsb v rest = if lsb then v % 2 ^ 8 ∷ v / 2 ^ 8 ∷ rest else v / 2 ^ 8 ∷ v % 2 ^ 8 ∷ rest

unfoldable pub put_word : Bool → ℕ → List ℕ → List ℕ
unfolding put_half
put_word lsb v rest =
    if lsb
    then put_half lsb (v % 2 ^ 16) (put_half lsb (v / 2 ^ 16) rest)
    else put_half lsb (v / 2 ^ 16) (put_half lsb (v % 2 ^ 16) rest)

unfoldable pub put_xword : Bool → ℕ → List ℕ → List ℕ
unfolding put_word
put_xword lsb v rest =
    if lsb
    then put_word lsb (v % 2 ^ 32) (put_word lsb (v / 2 ^ 32) rest)
    else put_word lsb (v / 2 ^ 32) (put_word lsb (v % 2 ^ 32) rest)

-- The bytes of a swapped number are those that the other kind of processor has.
pub put_half-swab :
    (lsb : Bool) (v : ℕ) (rest : List ℕ)
    → v < 2 ^ 16
    → put_half lsb (elf_swab v) rest ≡ put_half (not lsb) v rest
unfolding elf_swab put_half
put_half-swab true v rest h = ground arith
put_half-swab false v rest h = ground arith

pub put_word-swah :
    (lsb : Bool) (v : ℕ) (rest : List ℕ)
    → v < 2 ^ 32
    → put_word lsb (elf_swah v) rest ≡ put_word (not lsb) v rest
unfolding elf_swah put_word elf_swab put_half
put_word-swah true v rest h = ground arith
put_word-swah false v rest h = ground arith

elf_swap64-low : (v : ℕ) → v < 2 ^ 64 → elf_swap64 v % 2 ^ 32 ≡ elf_swah (v / 2 ^ 32)
unfolding elf_swap64 elf_swah elf_swab
elf_swap64-low v h = omega arith

elf_swap64-high : (v : ℕ) → v < 2 ^ 64 → elf_swap64 v / 2 ^ 32 ≡ elf_swah (v % 2 ^ 32)
unfolding elf_swap64 elf_swah elf_swab
elf_swap64-high v h = omega arith

pub put_xword-swap64 :
    (lsb : Bool) (v : ℕ) (rest : List ℕ)
    → v < 2 ^ 64
    → put_xword lsb (elf_swap64 v) rest ≡ put_xword (not lsb) v rest
unfolding put_xword
put_xword-swap64 true v rest h =
    ap (λ x. put_word true x (put_word true (elf_swap64 v / 2 ^ 32) rest)) (elf_swap64-low v h)
    ∙ ap (λ x. put_word true (elf_swah (v / 2 ^ 32)) (put_word true x rest)) (elf_swap64-high v h)
    ∙ ap (put_word true (elf_swah (v / 2 ^ 32)))
        (put_word-swah true (v % 2 ^ 32) rest (omega arith))
    ∙ put_word-swah true (v / 2 ^ 32) (put_word false (v % 2 ^ 32) rest) (omega arith)
put_xword-swap64 false v rest h =
    ap (λ x. put_word false x (put_word false (elf_swap64 v % 2 ^ 32) rest)) (elf_swap64-high v h)
    ∙ ap (λ x. put_word false (elf_swah (v % 2 ^ 32)) (put_word false x rest)) (elf_swap64-low v h)
    ∙ ap (put_word false (elf_swah (v % 2 ^ 32)))
        (put_word-swah false (v / 2 ^ 32) rest (omega arith))
    ∙ put_word-swah false (v % 2 ^ 32) (put_word true (v / 2 ^ 32) rest) (omega arith)

-- Swapping what one kind of processor reads gives what the other kind reads.
pub record AreBytes (bs : List ℕ) : Type 0 where
  pub small : (o : ℕ) → byte_at bs o < 256

pub swab-half_at :
    (lsb : Bool) (bs : List ℕ) (o : ℕ)
    → AreBytes bs
    → elf_swab (half_at lsb bs o) ≡ half_at (not lsb) bs o
unfolding elf_swab half_at
swab-half_at true bs o h = omega (arith, h.small o, h.small (o + 1))
swab-half_at false bs o h = omega (arith, h.small o, h.small (o + 1))

pub swah-word_at :
    (lsb : Bool) (bs : List ℕ) (o : ℕ)
    → AreBytes bs
    → elf_swah (word_at lsb bs o) ≡ word_at (not lsb) bs o
unfolding elf_swah elf_swab word_at half_at
swah-word_at true bs o h =
    omega (arith, h.small o, h.small (o + 1), h.small (o + 2), h.small (o + 2 + 1))
swah-word_at false bs o h =
    omega (arith, h.small o, h.small (o + 1), h.small (o + 2), h.small (o + 2 + 1))

word_at-small : (lsb : Bool) (bs : List ℕ) (o : ℕ) → AreBytes bs → word_at lsb bs o < 2 ^ 32
unfolding word_at half_at
word_at-small true bs o h =
    omega (arith, h.small o, h.small (o + 1), h.small (o + 2), h.small (o + 2 + 1))
word_at-small false bs o h =
    omega (arith, h.small o, h.small (o + 1), h.small (o + 2), h.small (o + 2 + 1))

elf_swap64-parts :
    (a b : ℕ) → a < 2 ^ 32 → elf_swap64 (a + b * 2 ^ 32) ≡ elf_swah a * 2 ^ 32 + elf_swah b
unfolding elf_swap64
elf_swap64-parts a b h =
    let low : (a + b * 2 ^ 32) % 2 ^ 32 ≡ a = omega arith in
    let high : (a + b * 2 ^ 32) / 2 ^ 32 ≡ b = omega arith in
    ap (λ x. elf_swah x * 2 ^ 32 + elf_swah ((a + b * 2 ^ 32) / 2 ^ 32)) low
    ∙ ap (λ x. elf_swah a * 2 ^ 32 + elf_swah x) high

pub swap64-xword_at :
    (lsb : Bool) (bs : List ℕ) (o : ℕ)
    → AreBytes bs
    → elf_swap64 (xword_at lsb bs o) ≡ xword_at (not lsb) bs o
unfolding xword_at
swap64-xword_at true bs o h =
    elf_swap64-parts (word_at true bs o) (word_at true bs (o + 4)) (word_at-small true bs o h)
    ∙ ap (λ x. x * 2 ^ 32 + elf_swah (word_at true bs (o + 4))) (swah-word_at true bs o h)
    ∙ ap (λ x. word_at false bs o * 2 ^ 32 + x) (swah-word_at true bs (o + 4) h)
swap64-xword_at false bs o h =
    ap elf_swap64 (add_comm (word_at false bs o * 2 ^ 32) (word_at false bs (o + 4)))
    ∙ elf_swap64-parts (word_at false bs (o + 4)) (word_at false bs o)
        (word_at-small false bs (o + 4) h)
    ∙ ap (λ x. x * 2 ^ 32 + elf_swah (word_at false bs o)) (swah-word_at false bs (o + 4) h)
    ∙ ap (λ x. word_at true bs (o + 4) * 2 ^ 32 + x) (swah-word_at false bs o h)
    ∙ add_comm (word_at true bs (o + 4) * 2 ^ 32) (word_at true bs o)

pub cons-AreBytes : (b : ℕ) (bs : List ℕ) → b < 2 ^ 8 → AreBytes bs → AreBytes (b ∷ bs)
cons-AreBytes b bs h r = record { small = small }
  where
    small : (o : ℕ) → byte_at (b ∷ bs) o < 256
    small zero = h
    small (suc o) = r.small o

pub put_half-AreBytes :
    (lsb : Bool) (v : ℕ) (bs : List ℕ) → v < 2 ^ 16 → AreBytes bs → AreBytes (put_half lsb v bs)
unfolding put_half
put_half-AreBytes true v bs h r =
    cons-AreBytes _ _ (omega arith) (cons-AreBytes _ _ (omega arith) r)
put_half-AreBytes false v bs h r =
    cons-AreBytes _ _ (omega arith) (cons-AreBytes _ _ (omega arith) r)

pub put_word-AreBytes :
    (lsb : Bool) (v : ℕ) (bs : List ℕ) → v < 2 ^ 32 → AreBytes bs → AreBytes (put_word lsb v bs)
unfolding put_word
put_word-AreBytes true v bs h r =
    put_half-AreBytes true _ _ (omega arith) (put_half-AreBytes true _ _ (omega arith) r)
put_word-AreBytes false v bs h r =
    put_half-AreBytes false _ _ (omega arith) (put_half-AreBytes false _ _ (omega arith) r)

pub put_xword-AreBytes :
    (lsb : Bool) (v : ℕ) (bs : List ℕ) → v < 2 ^ 64 → AreBytes bs → AreBytes (put_xword lsb v bs)
unfolding put_xword
put_xword-AreBytes true v bs h r =
    put_word-AreBytes true _ _ (omega arith) (put_word-AreBytes true _ _ (omega arith) r)
put_xword-AreBytes false v bs h r =
    put_word-AreBytes false _ _ (omega arith) (put_word-AreBytes false _ _ (omega arith) r)

-- Whether the processor's order is not that of the file, so that `needswap` is on.
abbrev pub differs : Bool → Bool → Bool
differs lsb file = if lsb then not file else file
