-- ===== src/Modules/Nearest.antt =====
-- The search for the symbol of an address, `cexpSymLkAddrIdx` of cexpmod.c with no margin.
use rtems_hzb_cexpsh.Base.{
  ℕ, zero, suc, ◌≤◌, ◌<◌, ◌≡◌, refl, sym, ap, subst, ◌∙◌, ◌⊎◌, inl, inr, Bool, true, false, ltb,
  if◌then◌else◌, none, some, List, [], ◌∷◌, length, get_or, All, arith, Bool-cases,
}
use rtems_hzb_cexpsh.Syms.{nentries, lk_addr_idx}
use rtems_hzb_cexpsh.Syms.Address.{IsSorted, lk_addr_idx-IsClosest}
use rtems_hzb_cexpsh.Modules.Record.{Module}
use rtems_hzb_cexpsh.Modules.Addresses.{
  Slot, gaddr, addr_in_module, low_loop, high_loop, scan_addresses, range_loop, sym_lk_addr_range,
  sym_lk_addr_idx, lim_low, shift_low,
}

-- The table of a module has an index by addresses, and the first of these is not above `addr`.
pub record IsIndexed (addr : ℕ) (m : Module) : Type 0 where
  pub sorted : IsSorted m.symtbl.aindex
  pub covers : length m.symtbl.aindex ≡ nentries m.symtbl
  pub some_entry : 0 < nentries m.symtbl
  pub first_below : gaddr m 0 ≤ addr

-- A slot after the entries of a module from `i` down: as before, or an entry at the address of `i`.
abbrev Improved : Module → ℕ → Slot → Slot → Type 0
Improved m i s s' =
    ((s' ≡ s) × (gaddr m i < lim_low s))
    ⊎ ((j : ℕ) × (s' ≡ some (m, j)) × (j ≤ i) × (gaddr m j ≡ gaddr m i) × (lim_low s ≤ gaddr m i))

low_loop-step :
    (addr : ℕ) (m : Module) (i : ℕ) (s : Slot)
    → gaddr m i ≤ addr
    → low_loop addr 0 m (suc i) (s ∷ [])
      ≡ (if ltb (gaddr m i) (lim_low s) then s ∷ [] else low_loop addr 0 m i (some (m, i) ∷ []))
unfolding low_loop shift_low
low_loop-step addr m i s below = ground arith

-- The entries below an entry that was just put in: it stays, or one at the same address replaces it.
low_loop-same :
    (addr : ℕ) (m : Module) (i : ℕ)
    → IsSorted m.symtbl.aindex
    → i < length m.symtbl.aindex
    → gaddr m i ≤ addr
    → (j : ℕ) × (low_loop addr 0 m i (some (m, i) ∷ []) ≡ some (m, j) ∷ [])
      × (j ≤ i)
      × (gaddr m j ≡ gaddr m i)
unfolding low_loop
low_loop-same addr m zero sorted here below = (0, refl, omega arith, refl)
low_loop-same addr m (suc i) sorted here below =
    let lower = sorted i (suc i) (omega arith) here in
    let step = low_loop-step addr m i (some (m, suc i)) (omega (arith, lower, below)) in
    let (j, e, le, same) =
      low_loop-same addr m i sorted (omega arith) (omega (arith, lower, below)) in
    elim (Bool-cases (ltb (gaddr m i) (gaddr m (suc i)))) [
      | inl less ↦ (suc i, step ∙ rw (less) refl, omega arith, refl)
      | inr not_less ↦
          (j, step ∙ rw (not_less) e, omega arith, ground (arith, same, lower, not_less))
    ]

low_loop-Improved :
    (addr : ℕ) (m : Module) (i : ℕ) (s : Slot)
    → IsSorted m.symtbl.aindex
    → i < length m.symtbl.aindex
    → gaddr m i ≤ addr
    → (s' : Slot) × (low_loop addr 0 m (suc i) (s ∷ []) ≡ s' ∷ []) × Improved m i s s'
low_loop-Improved addr m i s sorted here below =
    let step = low_loop-step addr m i s below in
    let (j, e, le, same) = low_loop-same addr m i sorted here below in
    elim (Bool-cases (ltb (gaddr m i) (lim_low s))) [
      | inl less ↦ (s, step ∙ rw (less) refl, inl (refl, ground (arith, less)))
      | inr not_less ↦
          (some (m, j), step ∙ rw (not_less) e, inr (j, refl, le, same, ground (arith, not_less)))
    ]

-- With a slot that is not above the address, the entries above it change nothing.
high_loop-same :
    (fuel addr : ℕ) (m m' : Module) (i j : ℕ)
    → gaddr m' j ≤ addr
    → high_loop fuel addr 0 m i (some (m', j) ∷ []) ≡ some (m', j) ∷ []
unfolding high_loop
high_loop-same zero addr m m' i j below = refl
high_loop-same (suc fuel) addr m m' i j below = ground (arith, below)

abbrev In : Module → List Module → Type 0
In m [] = ◌≡◌ {A = ℕ} 0 1
In m (x ∷ xs) = (m ≡ x) ⊎ In m xs

-- The slot holds the highest entry that is not above the address, among those of the modules.
abbrev pub IsNearest : ℕ → List Module → Slot → Type 0
IsNearest addr ms none = ms ≡ []
IsNearest addr ms (some (m, i)) =
    In m ms
    × (i < nentries m.symtbl)
    × (gaddr m i ≤ addr)
    × All (λ x. (j : ℕ) → j < nentries x.symtbl → gaddr x j ≤ addr → gaddr x j ≤ gaddr m i) ms

-- The entry that `cexpSymTblLkAddrIdx` finds is the highest one that is not above the address.
closest-Highest :
    (addr : ℕ) (m : Module)
    → IsIndexed addr m
    → (lk_addr_idx addr m.symtbl < nentries m.symtbl)
      × (gaddr m (lk_addr_idx addr m.symtbl) ≤ addr)
      × ((j : ℕ)
          → j < nentries m.symtbl
          → gaddr m j ≤ addr
          → gaddr m j ≤ gaddr m (lk_addr_idx addr m.symtbl))
closest-Highest addr m ix =
    let c = lk_addr_idx addr m.symtbl in
    let (inside, low, high) =
      lk_addr_idx-IsClosest addr m.symtbl ix.sorted ix.covers ix.some_entry in
    (
      omega (arith, inside, ix.covers),
      elim (Bool-cases (ltb 0 c)) [
        | inl pos ↦ low (ground (arith, pos))
        | inr at_0 ↦
            let e : c ≡ 0 = ground (arith, at_0) in
            subst (λ i. gaddr m i ≤ addr) (sym e) ix.first_below
      ],
      λ j here below. elim (Bool-cases (ltb c j)) [
        | inl above ↦ absurd (ground (arith, above, high j, ix.covers, here, below))
        | inr under ↦ ix.sorted j c (ground (arith, under)) inside
      ],
    )

abbrev AllBelow : ℕ → ℕ → List Module → Type 0
AllBelow addr n ms =
    All (λ x. (j : ℕ) → j < nentries x.symtbl → gaddr x j ≤ addr → gaddr x j ≤ n) ms

AllBelow-le : (addr n n' : ℕ) (ms : List Module) → n ≤ n' → AllBelow addr n ms → AllBelow addr n' ms
AllBelow-le addr n n' [] le a = tt
AllBelow-le addr n n' (x ∷ xs) le a =
    (λ j here below. omega (arith, le, a.0 j here below), AllBelow-le addr n n' xs le a.1)

IsNearest-AllBelow :
    (addr n : ℕ) (ms : List Module) (s : Slot)
    → IsNearest addr ms s
    → lim_low s ≤ n
    → AllBelow addr n ms
IsNearest-AllBelow addr n ms none near le = subst (AllBelow addr n) (sym near) tt
IsNearest-AllBelow addr n ms (some (m, i)) near le = AllBelow-le addr (gaddr m i) n ms le near.3

-- A slot above the entries of a module stays.
higher_kept :
    (addr : ℕ) (m : Module) (ms : List Module) (s : Slot)
    → IsNearest addr ms s
    → gaddr m (lk_addr_idx addr m.symtbl) < lim_low s
    → ((j : ℕ)
        → j < nentries m.symtbl
        → gaddr m j ≤ addr
        → gaddr m j ≤ gaddr m (lk_addr_idx addr m.symtbl))
    → low_loop addr 0 m (suc (lk_addr_idx addr m.symtbl)) (s ∷ []) ≡ s ∷ []
    → (s' : Slot) × (scan_addresses addr 0 m (s ∷ []) ≡ s' ∷ []) × IsNearest addr (m ∷ ms) s'
unfolding scan_addresses
higher_kept addr m ms none near less top e = absurd (omega (arith, less))
higher_kept addr m ms (some (k, i)) (has, inside, below, all) less top e = (
  some (k, i),
  rw (e) (high_loop-same (nentries m.symtbl) addr m k (suc (lk_addr_idx addr m.symtbl)) i below),
  (inr has, inside, below, ((λ j here low. omega (arith, less, top j here low)), all)),
)

scan_addresses-IsNearest :
    (addr : ℕ) (m : Module) (ms : List Module) (s : Slot)
    → IsIndexed addr m
    → IsNearest addr ms s
    → (s' : Slot) × (scan_addresses addr 0 m (s ∷ []) ≡ s' ∷ []) × IsNearest addr (m ∷ ms) s'
unfolding scan_addresses
scan_addresses-IsNearest addr m ms s ix near =
    let c = lk_addr_idx addr m.symtbl in
    let (inside, below, top) = closest-Highest addr m ix in
    let (s', e, how) =
      low_loop-Improved addr m c s ix.sorted (omega (arith, inside, ix.covers)) below in
    elim how [
      | inl (same, less) ↦ higher_kept addr m ms s near less top (e ∙ ap (λ x. x ∷ []) same)
      | inr (j, at_j, le, level, lim) ↦ (
        some (m, j),
        rw (e, at_j)
            (high_loop-same (nentries m.symtbl) addr m m (suc c) j (omega (arith, level, below))),
        (
          inl refl,
          omega (arith, le, inside),
          omega (arith, level, below),
          (
            (λ i here low. omega (arith, level, top i here low)),
            IsNearest-AllBelow addr (gaddr m j) ms s near (omega (arith, level, lim)),
          ),
        ),
      )
    ]

-- The modules of a list that the address is in, the last one first, before some others.
abbrev pub covering : ℕ → Bool → List Module → List Module → List Module
covering addr system [] acc = acc
covering addr system (m ∷ ms) acc =
    covering addr false ms (if addr_in_module addr system m then m ∷ acc else acc)

covering-All :
    (addr : ℕ) (system : Bool) (ms acc : List Module)
    → All (IsIndexed addr) (covering addr system ms acc)
    → All (IsIndexed addr) acc
covering-All addr system [] acc ix = ix
covering-All addr system (m ∷ ms) acc ix = elim (Bool-cases (addr_in_module addr system m)) [
  | inl within ↦
      (covering-All addr false ms (m ∷ acc) (
        subst (λ b. All (IsIndexed addr) (covering addr false ms (if b then m ∷ acc else acc)))
          within ix)).1
  | inr beyond ↦ covering-All addr false ms acc (
      subst (λ b. All (IsIndexed addr) (covering addr false ms (if b then m ∷ acc else acc))) beyond
        ix)
]

range_loop-IsNearest :
    (addr : ℕ) (system : Bool) (ms acc : List Module) (s : Slot)
    → All (IsIndexed addr) (covering addr system ms acc)
    → IsNearest addr acc s
    → (s' : Slot) × (range_loop addr 0 system ms (s ∷ []) ≡ s' ∷ [])
      × IsNearest addr (covering addr system ms acc) s'
unfolding range_loop
range_loop-IsNearest addr system [] acc s ix near = (s, refl, near)
range_loop-IsNearest addr system (m ∷ ms) acc s ix near =
    elim (Bool-cases (addr_in_module addr system m)) [
      | inl within ↦
          let ix' =
            subst (λ b. All (IsIndexed addr) (covering addr false ms (if b then m ∷ acc else acc)))
              within ix in
          let (s', e, near') =
            scan_addresses-IsNearest addr m acc s (covering-All addr false ms (m ∷ acc) ix').0
              near in
          rw (within, e) (range_loop-IsNearest addr false ms (m ∷ acc) s' ix' near')
      | inr beyond ↦ rw (beyond) (
          range_loop-IsNearest addr false ms acc s
            (subst (λ b. All (IsIndexed addr) (covering addr false ms (if b then m ∷ acc else acc)))
              beyond ix)
            near)
    ]

-- Let each module that the address is in have an index sorted by addresses of which the first is not
-- above the address. Then `cexpSymLkAddrIdx` with no margin answers with the highest symbol, among
-- those of all these modules, that is not above the address, and with no symbol only if the address is
-- in no module.
pub sym_lk_addr_idx-IsNearest :
    (addr : ℕ) (ms : List Module)
    → All (IsIndexed addr) (covering addr true ms [])
    → IsNearest addr (covering addr true ms []) (sym_lk_addr_idx addr 0 ms)
unfolding sym_lk_addr_idx sym_lk_addr_range
sym_lk_addr_idx-IsNearest addr ms ix =
    let (s, e, near) = range_loop-IsNearest addr true ms [] none ix refl in
    subst (λ ar. IsNearest addr (covering addr true ms []) (get_or ar 0 none)) (sym e) near
