-- ===== src/Link/Commons.antt =====
-- `make_new_commons` of bfdstuff.c: the common symbols that the object file adds, one behind the other in
-- a section of their own. A failure to make the section is left out.
use rtems_hzb_cexpsh.Base.{
  ℕ, zero, suc, ◌+◌, ◌-◌, ◌*◌, ◌%◌, ◌^◌, ◌≤◌, ◌<◌, ◌≡◌, refl, true, ltb, if◌then◌else◌, Option,
  none, some, List, [], ◌∷◌, arith, All, subst, sym, ap, ◌∙◌, Bool-cases, inl, inr,
}
use rtems_hzb_cexpsh.Link.{align_power, word}
use rtems_hzb_cexpsh.Link.Align.{align_power-bounds, two_pow_pos}
use rtems_hzb_cexpsh.Link.Resolve.{Asym, common, in_file, align_of}

-- The loop of `elf_get_align_pwr` over `tst` and `rval`; none where it does not end within the fuel.
unfoldable pub align_pwr_loop : ℕ → ℕ → ℕ → ℕ → Option ℕ
align_pwr_loop zero align tst rval = none
align_pwr_loop (suc fuel) align tst rval =
    let rest = align_pwr_loop fuel align (tst * 2 % word) (suc rval) in
    if ltb tst align then rest else some rval

-- `elf_get_align_pwr`: an alignment of at most 2 ^ 31 needs 32 rounds; with a larger one `tst` is 0
-- after them and stays so, and the loop does not end.
unfoldable pub align_pwr : Asym → Option ℕ
unfolding align_pwr_loop
align_pwr sp = align_pwr_loop 32 (align_of sp) 1 0

-- `bfd_asymbol_value`: of a common symbol its size.
abbrev pub value_of : Asym → ℕ
value_of sp = elim sp.home [ common ↦ sp.size | _ ↦ sp.value ]

-- The new symbol at that address before the others.
abbrev pub placed : Asym → ℕ → Option (List Asym × ℕ) → Option (List Asym × ℕ)
placed sp at none = none
placed sp at (some r) = some (record sp { value = at; size = 0; home = in_file true } ∷ r.0, r.1)

-- The new symbols and the size of their section; none where an alignment keeps the loop going.
unfoldable pub make_new_commons : List Asym → ℕ → Option (List Asym × ℕ)
make_new_commons [] val = some ([], val)
make_new_commons (sp ∷ sps) val = elim (align_pwr sp) [
  | none ↦ none
  | some p ↦
      let at = align_power val p % word in
      placed sp at (make_new_commons sps ((at + value_of sp) % word))
]

pow_mono : (a b : ℕ) → a ≤ b → 2 ^ a ≤ 2 ^ b
pow_mono zero b h = omega (arith, two_pow_pos b)
pow_mono (suc a) zero h = absurd (omega (arith, h))
pow_mono (suc a) (suc b) h = omega (arith, pow_mono a b)

-- The loop ends within its rounds at a power of 2 that is not below the alignment.
align_pwr_loop-ends :
    (fuel align rval : ℕ)
    → align ≤ 2 ^ (rval + fuel)
    → rval + fuel ≤ 31
    → (r : ℕ) × (align_pwr_loop (suc fuel) align (2 ^ rval) rval ≡ some r) × (align ≤ 2 ^ r)
unfolding align_pwr_loop
align_pwr_loop-ends zero align rval enough few =
    let done : align ≤ 2 ^ rval = subst (λ x. align ≤ 2 ^ x) (omega arith) enough in
    (rval, ground (arith, done), done)
align_pwr_loop-ends (suc fuel) align rval enough few = elim (Bool-cases (ltb (2 ^ rval) align)) [
  | inl more ↦
      let next : 2 ^ rval * 2 % word ≡ 2 ^ suc rval =
        omega (arith, pow_mono rval 30 (omega (arith, few))) in
      let (r, ends, large) =
        align_pwr_loop-ends fuel align (suc rval) (subst (λ x. align ≤ 2 ^ x) (omega arith) enough)
          (omega (arith, few)) in
      (r, rw (align_pwr_loop, more, next) ends, large)
  | inr done ↦ (rval, rw done refl, ground (arith, done))
]

-- The power that the loop ends with.
abbrev pub power_of : Asym → ℕ
power_of sp = elim (align_pwr sp) [ none ↦ 0 | some p ↦ p ]

-- What a symbol takes at most.
abbrev pub space : List Asym → ℕ
space [] = 0
space (sp ∷ sps) = 2 ^ power_of sp - 1 + value_of sp + space sps

-- The new symbols are in their order from `lo` to `hi`, with the values of the old ones between them,
-- each at a multiple of its alignment rounded up to a power of 2.
abbrev pub IsStacked : ℕ → ℕ → List Asym → List Asym → Type 0
IsStacked lo hi [] sps' = (sps' ≡ []) × (lo ≤ hi)
IsStacked lo hi (sp ∷ sps) [] = ◌≡◌ {A = ℕ} 0 1
IsStacked lo hi (sp ∷ sps) (sp' ∷ sps') =
    (lo ≤ sp'.value)
    × (sp'.value % 2 ^ power_of sp ≡ 0)
    × (align_of sp ≤ 2 ^ power_of sp)
    × IsStacked (sp'.value + value_of sp) hi sps sps'

align_pwr-ends :
    (sp : Asym) → align_of sp ≤ 2 ^ 31 → (r : ℕ) × (align_pwr sp ≡ some r) × (align_of sp ≤ 2 ^ r)
unfolding align_pwr
align_pwr-ends sp small = align_pwr_loop-ends 31 (align_of sp) 0 small (omega arith)

align_pwr-power :
    (sp : Asym)
    → align_of sp ≤ 2 ^ 31
    → (align_pwr sp ≡ some (power_of sp)) × (align_of sp ≤ 2 ^ power_of sp)
align_pwr-power sp small =
    let (r, ends, large) = align_pwr-ends sp small in
    let same : power_of sp ≡ r = ap (λ o. elim o [ none ↦ 0 | some p ↦ p ]) ends in
    (ends ∙ ap some (sym same), subst (λ p. align_of sp ≤ 2 ^ p) (sym same) large)

-- When the alignments are at most 2 ^ 31 and the symbols with what their alignment may cost fit below
-- `hi` from `val` on, the placement ends and stacks the new commons between the two in their order: none
-- is over another, each is at a multiple of a power of 2 that is not below its alignment, and the section
-- is no larger than that.
pub make_new_commons-IsStacked :
    (sps : List Asym) (val hi : ℕ)
    → All (λ sp. align_of sp ≤ 2 ^ 31) sps
    → val + space sps ≤ hi
    → hi < word
    → (sps' : List Asym) × (size : ℕ) × (make_new_commons sps val ≡ some (sps', size))
      × IsStacked val hi sps sps'
      × (val ≤ size)
      × (size ≤ val + space sps)
unfolding make_new_commons
make_new_commons-IsStacked [] val hi aligns room small =
    ([], val, refl, (refl, omega (arith, room)), omega arith, omega arith)
make_new_commons-IsStacked (sp ∷ sps) val hi aligns room small =
    let (up, bound, even) = align_power-bounds val (power_of sp) in
    let (ends, large) = align_pwr-power sp aligns.0 in
    let at = align_power val (power_of sp) in
    let after : Option ℕ → Option (List Asym × ℕ) = λ o. elim o [
      | none ↦ none
      | some p ↦
          let x = align_power val p % word in
          placed sp x (make_new_commons sps ((x + value_of sp) % word))
    ] in
    let fits : at % word ≡ at = omega (arith, up, bound, room, small) in
    let next : (at + value_of sp) % word ≡ at + value_of sp =
      omega (arith, up, bound, room, small) in
    let (sps', size, run, rest, low, high) =
      make_new_commons-IsStacked sps (at + value_of sp) hi aligns.1 (omega (arith, bound, room))
        small in
    (
      record sp { value = at; size = 0; home = in_file true } ∷ sps',
      size,
      ap after ends
          ∙ ap (λ x. placed sp x (make_new_commons sps ((x + value_of sp) % word))) fits
          ∙ ap (λ x. placed sp at (make_new_commons sps x)) next
          ∙ ap (placed sp at) run,
      (up, even, large, rest),
      omega (arith, up, low),
      omega (arith, bound, high),
    )
