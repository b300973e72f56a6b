-- ===== src/Modules/AddressTests.antt =====
-- Runs of the search for the symbol of an address through all modules.
use rtems_hzb_cexpsh.Base.{ℕ, zero, suc, ◌≤◌, refl, List, [], ◌∷◌, arith}
use rtems_hzb_cexpsh.Syms.{Sym, SymTbl, no_sym, empty_tbl}
use rtems_hzb_cexpsh.Syms.Address.{IsSorted}
use rtems_hzb_cexpsh.Segs.{malloced}
use rtems_hzb_cexpsh.Modules.Record.{Module, blank_module}
use rtems_hzb_cexpsh.Modules.Addresses.{sym_lk_addr_idx, addr_in_module, in_segs}
use rtems_hzb_cexpsh.Modules.Nearest.{IsNearest, sym_lk_addr_idx-IsNearest}

abbrev at : ℕ → Sym
at a = record no_sym { addr = a }

abbrev two : ℕ → ℕ → List Sym
two a b = at a ∷ at b ∷ []

abbrev table : ℕ → ℕ → SymTbl
table a b = record empty_tbl { syms = two a b; aindex = two a b }

-- A module with symbols at two addresses, and the 64 bytes from 64 on as its only segment.
abbrev loaded : ℕ → ℕ → Module
loaded a b = record (blank_module 1) {
  symtbl = table a b;
  segs =
      record { chunk = 64; size = 64; attributes = 0; name = b't' ∷ []; kind = malloced; pvt = 0 }
      ∷ [];
}

two-IsSorted : (a b : ℕ) → a ≤ b → IsSorted (two a b)
two-IsSorted a b le zero zero p q = omega arith
two-IsSorted a b le zero (suc zero) p q = le
two-IsSorted a b le zero (suc (suc j)) p q = absurd (omega arith)
two-IsSorted a b le (suc zero) zero p q = absurd (omega arith)
two-IsSorted a b le (suc zero) (suc zero) p q = omega arith
two-IsSorted a b le (suc i) (suc (suc j)) p q = absurd (omega arith)
two-IsSorted a b le (suc (suc i)) zero p q = absurd (omega arith)
two-IsSorted a b le (suc (suc i)) (suc zero) p q = absurd (omega arith)

sym_lk_addr_idx-IsNearest_example :
    IsNearest 90 (loaded 64 80 ∷ []) (sym_lk_addr_idx 90 0 (loaded 64 80 ∷ []))
unfolding addr_in_module in_segs
sym_lk_addr_idx-IsNearest_example = sym_lk_addr_idx-IsNearest 90 (loaded 64 80 ∷ []) (
  record {
    sorted = two-IsSorted 64 80 (omega arith);
    covers = refl;
    some_entry = omega arith;
    first_below = omega arith;
  },
  tt,
)
