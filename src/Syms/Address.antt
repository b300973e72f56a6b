-- ===== src/Syms/Address.antt =====
-- The search by address: the index sorted by addresses, and what `cexpSymTblLkAddrIdx` finds in it.
use rtems_hzb_cexpsh.Base.{
  ℕ, zero, suc, ◌+◌, ◌-◌, ◌/◌, ◌≤◌, ◌<◌, ◌≡◌, List, length, arith, Bool-cases, inl, inr, ltb,
}
use rtems_hzb_cexpsh.Syms.{SymTbl, Sym, nentries, addr_at, lk_addr_loop, lk_addr_idx}

-- Ascending addresses.
abbrev pub IsSorted : List Sym → Type 0
IsSorted xs = (i j : ℕ) → i ≤ j → j < length xs → addr_at xs i ≤ addr_at xs j

-- `r` is the highest index whose symbol is not above `addr`, or 0 where the first one is above.
abbrev pub IsClosest : ℕ → List Sym → ℕ → Type 0
IsClosest addr xs r =
    (r < length xs)
    × ((0 < r) → addr_at xs r ≤ addr)
    × ((i : ℕ) → r < i → i < length xs → addr < addr_at xs i)

lk_addr_loop-IsClosest :
    (fuel addr : ℕ) (xs : List Sym) (lo hi : ℕ)
    → IsSorted xs
    → lo ≤ hi
    → hi < length xs
    → hi - lo < suc fuel
    → ((0 < lo) → addr_at xs lo ≤ addr)
    → ((i : ℕ) → hi < i → i < length xs → addr < addr_at xs i)
    → IsClosest addr xs (lk_addr_loop fuel addr xs lo hi)
unfolding lk_addr_loop
lk_addr_loop-IsClosest zero addr xs lo hi sorted le fits few low high =
    (omega arith, low, λ i p q. high i (omega arith) q)
lk_addr_loop-IsClosest (suc fuel) addr xs lo hi sorted le fits few low high =
    elim (Bool-cases (ltb lo hi)) [
      | inl more ↦ rw more (elim (Bool-cases (ltb addr (addr_at xs ((lo + hi + 1) / 2)))) [
        | inl above ↦ rw above (
            lk_addr_loop-IsClosest fuel addr xs lo ((lo + hi + 1) / 2 - 1) sorted (ground arith)
              (ground arith) (ground arith) low
              (λ i p q. ground (arith, sorted ((lo + hi + 1) / 2) i)))
        | inr below ↦ rw below (
            lk_addr_loop-IsClosest fuel addr xs ((lo + hi + 1) / 2) hi sorted (ground arith) fits
              (ground arith) (λ _. ground arith) high)
      ])
      | inr done ↦ rw done (omega arith, low, λ i p q. high i (ground arith) q)
    ]

-- On an index that is sorted by addresses and covers the table, which has an entry, the search ends
-- within its fuel at the highest entry that is not above the address, or at entry 0 if all are above.
pub lk_addr_idx-IsClosest :
    (addr : ℕ) (t : SymTbl)
    → IsSorted t.aindex
    → length t.aindex ≡ nentries t
    → 0 < nentries t
    → IsClosest addr t.aindex (lk_addr_idx addr t)
unfolding lk_addr_idx
lk_addr_idx-IsClosest addr t sorted same some_ =
    lk_addr_loop-IsClosest (nentries t) addr t.aindex 0 (nentries t - 1) sorted (omega arith)
      (omega arith) (omega arith) (λ h. absurd (omega arith)) (λ i p q. absurd (omega arith))

-- Two such entries are one: the search result is determined by the address and the index.
pub IsClosest-unique :
    (addr : ℕ) (xs : List Sym) (r s : ℕ) → IsClosest addr xs r → IsClosest addr xs s → r ≡ s
IsClosest-unique addr xs r s p q = ground (arith, p.2 s, q.2 r)
