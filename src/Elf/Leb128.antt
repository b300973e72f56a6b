-- ===== src/Elf/Leb128.antt =====
-- pmbfd/guleb128.c: unsigned numbers in LEB128.
use rtems_hzb_cexpsh.Base.{
  ℕ, zero, suc, ◌+◌, ◌*◌, ◌/◌, ◌%◌, ◌≤◌, ◌<◌, ◌≡◌, Option, some, none, List, [], ◌∷◌, ◌++◌, length,
  ltb, leb, if◌then◌else◌, arith, Bool-cases, inl, inr, ap, ◌∙◌,
}
use rtems_hzb_cexpsh.Segs.{word}

-- The loop of `pmelf_guleb128` at byte `n`: the bytes left stand for the check of `n` against `sz`, and
-- `scale` is 2 to the shift. The shifted bits are distinct, so `|=` adds; bits that leave the 32-bit
-- variable are lost. The result is the number and `n`; none stands for -1, and for a shift by 32 or more,
-- which C leaves undefined: nothing is said of what the code does then.
unfoldable pub guleb128_loop : List ℕ → ℕ → ℕ → ℕ → Option (ℕ × ℕ)
guleb128_loop [] rval scale n = none
guleb128_loop (v ∷ bs) rval scale n =
    let rval' = (rval + v % 128 * scale) % word in
    let rest = guleb128_loop bs rval' (scale * 128) (n + 1) in
    if leb word scale then none else if leb 128 v then rest else some (rval', n + 1)

-- `pmelf_guleb128`
unfoldable pub guleb128 : List ℕ → Option (ℕ × ℕ)
unfolding guleb128_loop
guleb128 bs = guleb128_loop bs 0 1 0

-- The encoding in LEB128, by its definition.
unfoldable pub uleb128 : ℕ → ℕ → List ℕ
uleb128 zero x = []
uleb128 (suc fuel) x =
    let rest = uleb128 fuel (x / 128) in if ltb x 128 then x ∷ [] else (x % 128 + 128) ∷ rest

split : (q r s : ℕ) → (q * 128 + r) * s ≡ r * s + q * (s * 128)
split q r s = omega arith

le_times : (q y : ℕ) → 1 ≤ q → y ≤ q * y
le_times zero y h = absurd (omega (arith, h))
le_times (suc q) y h = omega arith

-- Where a byte follows, its bits still fit.
room :
    (x scale : ℕ)
    → 128 ≤ x
    → x * scale < word
    → (x / 128 * (scale * 128) < word) × (scale * 128 < word)
room x scale big fits =
    let e : x ≡ x / 128 * 128 + x % 128 = omega arith in
    let g : x * scale ≡ x % 128 * scale + x / 128 * (scale * 128) =
      ap (λ y. y * scale) e ∙ split (x / 128) (x % 128) scale in
    let h = le_times (x / 128) (scale * 128) (omega (arith, big)) in
    (omega (arith, g, fits), omega (arith, g, fits, h))

step :
    (x rval scale : ℕ)
    → ((rval + (x % 128 + 128) % 128 * scale) % word + x / 128 * (scale * 128)) % word
      ≡ (rval + x * scale) % word
step x rval scale =
    let e : x ≡ x / 128 * 128 + x % 128 = omega arith in
    let f : (x % 128 + 128) % 128 ≡ x % 128 = omega arith in
    let g : x * scale ≡ x % 128 * scale + x / 128 * (scale * 128) =
      ap (λ y. y * scale) e ∙ split (x / 128) (x % 128) scale in
    rw f (omega (arith, g))

loop-uleb128 :
    (fuel x rval scale n : ℕ) (tail : List ℕ)
    → x < fuel
    → scale < word
    → x * scale < word
    → guleb128_loop (uleb128 fuel x ++ tail) rval scale n
      ≡ some ((rval + x * scale) % word, n + length (uleb128 fuel x))
unfolding guleb128_loop uleb128
loop-uleb128 zero x rval scale n tail h low fits = absurd (omega arith)
loop-uleb128 (suc fuel) x rval scale n tail h low fits = elim (Bool-cases (ltb x 128)) [
  | inl last ↦ ground (arith)
  | inr more ↦ ground (
    arith,
    room x scale,
    loop-uleb128 fuel (x / 128) ((rval + (x % 128 + 128) % 128 * scale) % word) (scale * 128)
        (n + 1) tail,
    step x rval scale,
  )
]

-- Decoding the encoding of a number of 32 bits, whatever follows it, gives the number, and takes as many
-- bytes as the encoding has.
pub guleb128-uleb128 :
    (x : ℕ) (tail : List ℕ)
    → x < word
    → guleb128 (uleb128 (suc x) x ++ tail) ≡ some (x, length (uleb128 (suc x) x))
unfolding guleb128
guleb128-uleb128 x tail h =
    loop-uleb128 (suc x) x 0 1 0 tail (omega arith) (omega arith) (omega (arith, h))
    ∙ ground (arith, h)
