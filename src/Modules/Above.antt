-- ===== src/Modules/Above.antt =====
-- `cexpSymLkAddrIdx` of cexpmod.c with no margin, for an address below the symbols of its module.
use rtems_hzb_cexpsh.Base.{
  ℕ, zero, suc, ◌+◌, ◌^◌, ◌≤◌, ◌<◌, ◌≡◌, refl, inl, inr, true, ◌||◌, ltb, leb, none, some, [], ◌∷◌,
  length, arith, Bool-cases,
}
use rtems_hzb_cexpsh.Syms.{nentries, lk_addr_idx}
use rtems_hzb_cexpsh.Syms.Address.{IsSorted, lk_addr_idx-IsClosest}
use rtems_hzb_cexpsh.Modules.Record.{Module}
use rtems_hzb_cexpsh.Modules.Addresses.{
  Slot, gaddr, addr_in_module, low_loop, high_loop, scan_addresses, range_loop, sym_lk_addr_range,
  sym_lk_addr_idx, shift_high,
}

low_loop-above :
    (addr : ℕ) (m : Module) (s : Slot) → addr < gaddr m 0 → low_loop addr 0 m 1 (s ∷ []) ≡ s ∷ []
unfolding low_loop
low_loop-above addr m s above = ground (arith, above)

high_loop-above :
    (fuel addr : ℕ) (m : Module) (i j : ℕ)
    → 1 ≤ i
    → 1 ≤ j
    → addr < gaddr m j
    → (k : ℕ) × (high_loop fuel addr 0 m i (some (m, j) ∷ []) ≡ some (m, k) ∷ [])
      × (1 ≤ k)
      × (addr < gaddr m k)
unfolding high_loop shift_high
high_loop-above zero addr m i j le le' above = (j, refl, le', above)
high_loop-above (suc fuel) addr m i j le le' above = elim (Bool-cases (ltb i (nentries m.symtbl))) [
  | inl more ↦ elim (Bool-cases (leb (gaddr m i) addr || ltb (gaddr m j) (gaddr m i))) [
    | inl stop ↦ (j, rw (more, stop) refl, le', above)
    | inr go ↦
        let over : addr < gaddr m i = ground (arith, go) in
        let (k, e, le'', over') = high_loop-above fuel addr m (i + 1) i (omega arith) le over in
        (k, rw (more, go) e, le'', over')
  ]
  | inr done ↦ (j, rw (done) refl, le', above)
]

high_loop-first :
    (n addr : ℕ) (m : Module)
    → 1 < n
    → 1 < nentries m.symtbl
    → addr < gaddr m 1
    → gaddr m 1 < 2 ^ 32
    → (k : ℕ) × (high_loop n addr 0 m 1 (none ∷ []) ≡ some (m, k) ∷ [])
      × (1 ≤ k)
      × (addr < gaddr m k)
unfolding high_loop shift_high
high_loop-first zero addr m fuel two over small = absurd (omega arith)
high_loop-first (suc n) addr m fuel two over small =
    let (k, e, le, over') = high_loop-above n addr m 2 1 (omega arith) (omega arith) over in
    (k, ground (arith, e, two, over, small), le, over')

closest-zero :
    (addr : ℕ) (m : Module)
    → IsSorted m.symtbl.aindex
    → length m.symtbl.aindex ≡ nentries m.symtbl
    → 0 < nentries m.symtbl
    → addr < gaddr m 0
    → lk_addr_idx addr m.symtbl ≡ 0
closest-zero addr m sorted covers one above =
    let c = lk_addr_idx addr m.symtbl in
    let (inside, low, high) = lk_addr_idx-IsClosest addr m.symtbl sorted covers one in
    elim (Bool-cases (ltb 0 c)) [
      | inl pos ↦
          let below = low (ground (arith, pos)) in
          absurd (omega (arith, below, above, sorted 0 c (omega arith) inside))
      | inr at_0 ↦ ground (arith, at_0)
    ]

sym_lk_addr_idx-first :
    (addr : ℕ) (m : Module) (k : ℕ)
    → addr_in_module addr true m ≡ true
    → addr < gaddr m 0
    → lk_addr_idx addr m.symtbl ≡ 0
    → high_loop (nentries m.symtbl) addr 0 m 1 (none ∷ []) ≡ some (m, k) ∷ []
    → sym_lk_addr_idx addr 0 (m ∷ []) ≡ some (m, k)
unfolding sym_lk_addr_idx sym_lk_addr_range range_loop scan_addresses
sym_lk_addr_idx-first addr m k within above first e =
    rw (within, first, low_loop-above addr m none above, e) refl

-- An address in a segment of the only module, whose symbols, two or more, are all above it in 32 bits:
-- `cexpSymLkAddrIdx` with no margin answers with a symbol above the address, though one below is what
-- it looks for, and with another than the first, which is the nearest.
pub sym_lk_addr_idx_above :
    (addr : ℕ) (m : Module)
    → addr_in_module addr true m ≡ true
    → IsSorted m.symtbl.aindex
    → length m.symtbl.aindex ≡ nentries m.symtbl
    → 1 < nentries m.symtbl
    → addr < gaddr m 0
    → gaddr m 1 < 2 ^ 32
    → (i : ℕ) × (sym_lk_addr_idx addr 0 (m ∷ []) ≡ some (m, i)) × (1 ≤ i) × (addr < gaddr m i)
sym_lk_addr_idx_above addr m within sorted covers two above small =
    let (i, e, le, over) =
      high_loop-first (nentries m.symtbl) addr m two two
        (omega (arith, above, sorted 0 1 (omega arith) (omega (arith, two, covers)))) small in
    (
      i,
      sym_lk_addr_idx-first addr m i within above
          (closest-zero addr m sorted covers (omega (arith, two)) above) e,
      le,
      over,
    )
