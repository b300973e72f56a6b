-- ===== src/Syms/Tests.antt =====
-- Runs of the code of cexpsyms.c, and each theorem about it at an input.
use rtems_hzb_cexpsh.Base.{
  ℕ, suc, ◌<◌, ◌≡◌, ◌≢◌, zero, refl, true, Option, none, some, List, [], ◌∷◌, All, Ordering, arith,
  strcmp,
}
use rtems_hzb_cexpsh.Syms.{
  Sym, SymTbl, no_sym, empty_tbl, namecomp, sym_tbl_lookup, lk_addr_idx, lookup_regex,
}
use rtems_hzb_cexpsh.Syms.Build.{unique}
use rtems_hzb_cexpsh.Syms.Address.{IsSorted, IsClosest, lk_addr_idx-IsClosest}
use rtems_hzb_cexpsh.Syms.Lookup.{IsNamed, name_at, Finds, sym_tbl_lookup-Finds}
use rtems_hzb_cexpsh.Syms.Unique.{Distinct, Kept, unique-Distinct, unique-Kept}

abbrev sym_a : Sym
sym_a = record no_sym { name = b'a' ∷ []; addr = 16 }

abbrev sym_b : Sym
sym_b = record no_sym { name = b'b' ∷ []; addr = 32 }

-- "b@1", which matches the key "b"
abbrev sym_b1 : Sym
sym_b1 = record no_sym { name = b'b' ∷ b'@' ∷ b'1' ∷ []; addr = 32 }

abbrev small_tbl : SymTbl
small_tbl = record empty_tbl {
  syms = sym_a ∷ sym_b ∷ [];
  slots = 3;
  size = 2;
  aindex = sym_a ∷ sym_b ∷ [];
}

lookup_runs : sym_tbl_lookup (b'b' ∷ []) small_tbl ≡ some sym_b
unfolding sym_tbl_lookup namecomp
lookup_runs = refl

address_runs : lk_addr_idx 40 small_tbl ≡ 1
unfolding lk_addr_idx
address_runs = refl

-- A match that uses up the limit at the very last entry is lost.
regex_loses : lookup_regex (λ _. true) small_tbl 2 ≡ (none, 0)
unfolding lookup_regex
regex_loses = refl

-- A duplicate inside the table goes, one at its end leaves the marker.
unique_runs : unique (sym_b ∷ sym_b1 ∷ sym_a ∷ []) no_sym ≡ some (sym_b ∷ sym_a ∷ [])
unfolding unique namecomp
unique_runs = refl

small_tbl-IsSorted : IsSorted small_tbl.aindex
small_tbl-IsSorted zero zero p q = omega arith
small_tbl-IsSorted zero (suc zero) p q = omega arith
small_tbl-IsSorted (suc zero) (suc zero) p q = omega arith
small_tbl-IsSorted (suc i) zero p q = absurd (omega arith)
small_tbl-IsSorted i (suc (suc j)) p q = absurd (omega arith)
small_tbl-IsSorted (suc (suc i)) (suc zero) p q = absurd (omega arith)

lk_addr_idx-IsClosest_example : IsClosest 40 small_tbl.aindex (lk_addr_idx 40 small_tbl)
lk_addr_idx-IsClosest_example =
    lk_addr_idx-IsClosest 40 small_tbl small_tbl-IsSorted refl (omega arith)

small_tbl-IsNamed : IsNamed small_tbl.syms
unfolding strcmp
small_tbl-IsNamed = record { plain = plain; ascends = ascends }
  where
    plain : (i : ℕ) → i < 2 → All (λ c. ◌≢◌ {A = ℕ} c 64) (name_at small_tbl.syms i)
    plain zero h = (omega arith, tt)
    plain (suc zero) h = (omega arith, tt)
    plain (suc (suc i)) h = absurd (omega arith)

    ascends :
        (i j : ℕ)
        → i < j
        → j < 2
        → strcmp (name_at small_tbl.syms i) (name_at small_tbl.syms j) ≡ Ordering.lt
    ascends zero zero p q = absurd (omega arith)
    ascends zero (suc zero) p q = refl
    ascends (suc i) (suc zero) p q = absurd (omega arith)
    ascends (suc i) zero p q = absurd (omega arith)
    ascends i (suc (suc j)) p q = absurd (omega arith)

sym_tbl_lookup-Finds_example :
    Finds (b'b' ∷ []) small_tbl.syms (sym_tbl_lookup (b'b' ∷ []) small_tbl)
sym_tbl_lookup-Finds_example = sym_tbl_lookup-Finds (b'b' ∷ []) small_tbl small_tbl-IsNamed

abbrev inner_dup : List Sym
inner_dup = sym_b ∷ sym_b1 ∷ sym_a ∷ []

unique-Distinct_example : Distinct (sym_b ∷ sym_a ∷ [])
unique-Distinct_example = unique-Distinct inner_dup no_sym (sym_b ∷ sym_a ∷ []) unique_runs

unique-Kept_example : All (λ s. Kept s (sym_b ∷ sym_a ∷ [])) inner_dup
unique-Kept_example = unique-Kept inner_dup no_sym (sym_b ∷ sym_a ∷ []) unique_runs

-- External symbols that are their names, the empty ones left out.
abbrev keep_named : List ℕ → Option (List ℕ)
keep_named [] = none
keep_named (c ∷ cs) = some (c ∷ cs)

abbrev keep_sym : List ℕ → Sym → Sym
keep_sym e s = s

abbrev grown_tbl : SymTbl
grown_tbl = record empty_tbl {
  syms = record no_sym { name = b'a' ∷ [] } ∷ [];
  last = record no_sym { name = [] };
  slots = 2;
  size = 1;
  strtbl = 2 ∷ [];
}
