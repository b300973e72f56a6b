-- ===== src/Syms.antt =====
-- cexpsyms.c with cexpsyms.h and cexpsymsP.h: symbols, their tables, the comparison of names and of
-- addresses, and the searches. Names are byte strings without the NUL, addresses and sizes numbers.
pub mod Build
pub mod Names
pub mod Address
pub mod Lookup
pub mod Unique
pub mod Capacity
pub mod Tests
use rtems_hzb_cexpsh.Base.{
  ℕ, zero, suc, ◌+◌, ◌-◌, ◌/◌, Bool, true, false, Option, none, some, List, [], ◌∷◌, ◌++◌, Ordering,
  compare, ltb, ◌==◌, if◌then◌else◌, length, get_elem?,
}

-- `CexpSymRec`; `addr` and `type` are the fields of its `value`, and `help` a pointer, 0 for none.
pub record Sym : Type 0 where
  pub name : List ℕ
  pub addr : ℕ
  pub type : ℕ
  pub size : ℕ
  pub flags : ℕ
  pub help : ℕ

-- `CexpSymTblRec`. `syms` holds the `nentries` entries, `rest` the stale slots between these and the
-- slot `last` that ends the array with a null name; `slots` is how many the array has, 0 if the
-- pointer is null. `strtbl` lists the lengths of the string blocks. `aindex` points to entries.
pub record SymTbl : Type 0 where
  pub syms : List Sym
  pub rest : List Sym
  pub last : Sym
  pub slots : ℕ
  pub size : ℕ
  pub strtbl : List ℕ
  pub aindex : List Sym

abbrev pub nentries : SymTbl → ℕ
nentries t = length t.syms

abbrev pub no_sym : Sym
no_sym = record { name = []; addr = 0; type = 0; size = 0; flags = 0; help = 0 }

-- `calloc(1, sizeof(*rval))`
abbrev pub empty_tbl : SymTbl
empty_tbl = record {
  syms = [];
  rest = [];
  last = no_sym;
  slots = 0;
  size = 0;
  strtbl = [];
  aindex = [];
}

-- `LINKER_VERSION_SEPARATOR`
abbrev pub version_separator : ℕ
version_separator = b'@'

-- `_cexp_namecomp` on the two names. The bytes of a name are nonzero, so a key that outlasts the
-- other name compares above it.
unfoldable pub namecomp : List ℕ → List ℕ → Ordering
namecomp [] [] = Ordering.eq
namecomp [] (c ∷ cs) = if c == version_separator then Ordering.eq else Ordering.lt
namecomp (k ∷ ks) [] = Ordering.gt
namecomp (k ∷ ks) (c ∷ cs) =
    let rest = namecomp ks cs in
    elim (compare k c) [
      | Ordering.eq ↦ rest
      | Ordering.lt ↦ Ordering.lt
      | Ordering.gt ↦ Ordering.gt
    ]

-- `_cexp_addrcomp`
unfoldable pub addrcomp : Sym → Sym → Ordering
addrcomp a b =
    if ltb b.addr a.addr
    then Ordering.gt
    else if ltb a.addr b.addr
    then Ordering.lt
    else Ordering.eq

-- `bsearch` of the C library over `xs[l..u)`: the middle element is compared, and the half that can
-- hold the key is searched on. The fuel is above the width.
unfoldable pub bsearch : ℕ → (Sym → Ordering) → List Sym → ℕ → ℕ → Option Sym
bsearch zero cmp xs l u = none
bsearch (suc fuel) cmp xs l u =
    let mid = (l + u) / 2 in
    let below = bsearch fuel cmp xs l mid in
    let above = bsearch fuel cmp xs (mid + 1) u in
    if ltb l u
    then elim (get_elem? xs mid) [
      | none ↦ none
      | some s ↦ elim (cmp s) [ Ordering.eq ↦ some s | Ordering.lt ↦ below | Ordering.gt ↦ above ]
    ]
    else none

-- `cexpSymTblLookup`
unfoldable pub sym_tbl_lookup : List ℕ → SymTbl → Option Sym
unfolding bsearch
sym_tbl_lookup name t =
    bsearch (suc (length t.syms)) (λ s. namecomp name s.name) t.syms 0 (length t.syms)

abbrev pub addr_at : List Sym → ℕ → ℕ
addr_at xs i = elim (get_elem? xs i) [ some s ↦ s.addr | none ↦ 0 ]

-- The loop of `cexpSymTblLkAddrIdx`; `mid` is rounded up.
unfoldable pub lk_addr_loop : ℕ → ℕ → List Sym → ℕ → ℕ → ℕ
lk_addr_loop zero addr xs lo hi = lo
lk_addr_loop (suc fuel) addr xs lo hi =
    let mid = (lo + hi + 1) / 2 in
    let left = lk_addr_loop fuel addr xs lo (mid - 1) in
    let right = lk_addr_loop fuel addr xs mid hi in
    if ltb lo hi then (if ltb addr (addr_at xs mid) then left else right) else lo

-- `cexpSymTblLkAddrIdx` without the print. With no entry the C `hi` is -1, here 0: either way the
-- loop does not run.
unfoldable pub lk_addr_idx : ℕ → SymTbl → ℕ
unfolding lk_addr_loop
lk_addr_idx addr t = lk_addr_loop (length t.syms) addr t.aindex 0 (length t.syms - 1)

-- `cexpSymTblLkAddr`
unfoldable pub lk_addr : ℕ → SymTbl → Option Sym
unfolding lk_addr_idx
lk_addr addr t = get_elem? t.aindex (lk_addr_idx addr t)

-- The loop of `_cexpSymTblLookupRegex` over the slots from the start symbol on, for a compiled
-- expression `matches`: the symbol found last, what is left of `*pmax`, and whether the loop stopped
-- before the null name.
regex_loop : (List ℕ → Bool) → List Sym → ℕ → Option Sym → Option Sym × ℕ × Bool
regex_loop matches [] max found = (found, max, false)
regex_loop matches (s ∷ ss) max found =
    let hit = regex_loop matches ss (max - 1) (some s) in
    let miss = regex_loop matches ss max found in
    if max == 0 then (found, max, true) else if matches s.name then hit else miss

-- `_cexpSymTblLookupRegex` from the first symbol: the result and the new `*pmax`. Where the slots run
-- out the result is null, whatever was found.
unfoldable pub lookup_regex : (List ℕ → Bool) → SymTbl → ℕ → Option Sym × ℕ
unfolding regex_loop
lookup_regex matches t max =
    let (found, left, stopped) = regex_loop matches (t.syms ++ t.rest) max none in
    (if stopped then found else none, left)
