-- ===== src/Modules/Addresses.antt =====
-- `cexpSymLkAddrRange` and `cexpSymLkAddrIdx` of cexpmod.c: the symbols around an address, in all
-- modules that the address is in. An index beyond a table has no address; the code never uses one.
use rtems_hzb_cexpsh.Base.{
  ℕ, zero, suc, ◌+◌, ◌-◌, ◌*◌, ◌^◌, Bool, true, false, ◌&&◌, ◌||◌, ltb, leb, ◌==◌, if◌then◌else◌,
  Option, none, some, List, [], ◌∷◌, get_or, set, replicate,
}
use rtems_hzb_cexpsh.Syms.{addr_at, nentries, lk_addr_idx}
use rtems_hzb_cexpsh.Segs.{Segment}
use rtems_hzb_cexpsh.Modules.Record.{Module}

-- `CexpSymAIdxRec`; without a module it is nothing.
abbrev pub Slot : Type 0
Slot = Option (Module × ℕ)

-- `gaddr`
abbrev pub gaddr : Module → ℕ → ℕ
gaddr m i = addr_at m.symtbl.aindex i

-- One of the segments that have memory covers the address.
unfoldable pub in_segs : ℕ → List Segment → Bool
in_segs addr [] = false
in_segs addr (s ∷ ss) =
    let rest = in_segs addr ss in
    if s.chunk == 0
    then rest
    else if leb s.chunk addr && ltb addr (s.chunk + s.size)
    then true
    else rest

-- `addrInModule`; `system` is whether it is the first module.
unfoldable pub addr_in_module : ℕ → Bool → Module → Bool
unfolding in_segs
addr_in_module addr system m =
    if in_segs addr m.segs
    then true
    else system && leb (gaddr m 0) addr && leb addr (gaddr m (nentries m.symtbl - 1))

-- `! ar[j].mod || tstaddr > gaddr(&ar[j])`, and with `<`.
abbrev pub gives_way_low : ℕ → Slot → Bool
gives_way_low tst none = true
gives_way_low tst (some (m, i)) = ltb (gaddr m i) tst

abbrev pub gives_way_high : ℕ → Slot → Bool
gives_way_high tst none = true
gives_way_high tst (some (m, i)) = ltb tst (gaddr m i)

-- The loops that move entries down from `j` on, and up from `j` on; they end with where there is room.
unfoldable pub shift_low : ℕ → ℕ → ℕ → ℕ → List Slot → List Slot × ℕ
shift_low zero margin tst j ar = (ar, j - 1)
shift_low (suc fuel) margin tst j ar =
    let rest = shift_low fuel margin tst (j + 1) (set ar (j - 1) (get_or ar j none)) in
    if leb j margin && gives_way_low tst (get_or ar j none) then rest else (ar, j - 1)

unfoldable pub shift_high : ℕ → ℕ → ℕ → ℕ → List Slot → List Slot × ℕ
shift_high zero margin tst j ar = (ar, j)
shift_high (suc fuel) margin tst j ar =
    let rest = shift_high fuel margin tst (j - 1) (set ar j (get_or ar (j - 1) none)) in
    if ltb margin (j - 1) && gives_way_high tst (get_or ar (j - 1) none) then rest else (ar, j)

abbrev put : List Slot × ℕ → Slot → List Slot
put (ar, j) s = set ar j s

-- `limaddr` in the two loops.
abbrev pub lim_low : Slot → ℕ
lim_low none = 0
lim_low (some (m, i)) = gaddr m i

abbrev pub lim_high : Slot → ℕ
lim_high none = 2 ^ 32 - 1
lim_high (some (m, i)) = gaddr m i

-- The entries of a module from the closest one down: `i + 1` of them are left to look at.
unfoldable pub low_loop : ℕ → ℕ → Module → ℕ → List Slot → List Slot
unfolding shift_low
low_loop addr margin m zero ar = ar
low_loop addr margin m (suc i) ar =
    let tst = gaddr m i in
    let more = low_loop addr margin m i (put (shift_low margin margin tst 1 ar) (some (m, i))) in
    if ltb addr tst || ltb tst (lim_low (get_or ar 0 none)) then ar else more

-- The entries from `i` up.
unfoldable pub high_loop : ℕ → ℕ → ℕ → Module → ℕ → List Slot → List Slot
unfolding shift_high
high_loop zero addr margin m i ar = ar
high_loop (suc fuel) addr margin m i ar =
    let tst = gaddr m i in
    let top = 2 * margin in
    let more =
      high_loop fuel addr margin m (i + 1)
        (put (shift_high margin margin tst top ar) (some (m, i))) in
    if ltb i (nentries m.symtbl)
    then (if leb tst addr || ltb (lim_high (get_or ar top none)) tst then ar else more)
    else ar

-- What one module that the address is in adds.
unfoldable pub scan_addresses : ℕ → ℕ → Module → List Slot → List Slot
unfolding low_loop high_loop
scan_addresses addr margin m ar =
    let closest = lk_addr_idx addr m.symtbl in
    high_loop (nentries m.symtbl) addr margin m (suc closest)
      (low_loop addr margin m (suc closest) ar)

-- The loop over the modules; only the first of the list is the system module.
unfoldable pub range_loop : ℕ → ℕ → Bool → List Module → List Slot → List Slot
unfolding scan_addresses addr_in_module
range_loop addr margin system [] ar = ar
range_loop addr margin system (m ∷ ms) ar =
    let here = scan_addresses addr margin m ar in
    range_loop addr margin false ms (if addr_in_module addr system m then here else ar)

-- `cexpSymLkAddrRange`
unfoldable pub sym_lk_addr_range : ℕ → ℕ → List Module → List Slot
unfolding range_loop
sym_lk_addr_range addr margin ms = range_loop addr margin true ms (replicate (2 * margin + 1) none)

-- `cexpSymLkAddrIdx` without the print.
unfoldable pub sym_lk_addr_idx : ℕ → ℕ → List Module → Slot
unfolding sym_lk_addr_range
sym_lk_addr_idx addr margin ms = get_or (sym_lk_addr_range addr margin ms) margin none
