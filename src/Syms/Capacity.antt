-- ===== src/Syms/Capacity.antt =====
-- The two passes of `cexpAddSymTbl`: what is counted is what is copied, and the copy and the null
-- name behind it stay within the array that the count asked for.
use rtems_hzb_cexpsh.Base.{
  ℕ, ◌+◌, ◌≤◌, ◌<◌, ◌≡◌, ◌≢◌, refl, Bool, Option, none, List, [], ◌∷◌, All, length, length-append,
  arith,
}
use rtems_hzb_cexpsh.Syms.{Sym, SymTbl, nentries, empty_tbl}
use rtems_hzb_cexpsh.Syms.Build.{added, null_write, count_syms, copy_syms, add_sym_tbl}

-- The array has a slot for each entry and one more, unless it is the caller's or there is none.
pub record IsRoomy (t : SymTbl) : Type 0 where
  pub unallocated : t.slots ≡ 0 → (nentries t ≡ 0) × (t.size ≡ 0)
  pub allocated : t.size ≢ 0 → (t.slots ≡ t.size + 1) × (nentries t ≤ t.size)

module _ {E : Type 0} (filter : E → Option (List ℕ)) (assign : E → Sym → Sym) where
  -- The pass that counts and the pass that copies agree on the number of symbols and of characters.
  pub count_syms-copy_syms :
      (es : List E)
      → (length (copy_syms filter assign es).0 ≡ (count_syms filter assign es).0)
        × ((copy_syms filter assign es).1 ≡ (count_syms filter assign es).1)
  unfolding count_syms copy_syms
  count_syms-copy_syms [] = (refl, refl)
  count_syms-copy_syms (e ∷ es) = ground (arith, count_syms-copy_syms es)

  -- From a table with room, `cexpAddSymTbl` that succeeds makes a table with room, in whose array the
  -- entries and the null name behind them have their slots.
  pub add_sym_tbl-IsRoomy :
      (mem_syms mem_chars copy : Bool) (t t' : SymTbl) (es : List E)
      → IsRoomy t
      → add_sym_tbl filter assign mem_syms mem_chars copy t es ≡ added t'
      → IsRoomy t' × (nentries t' < t'.slots)
  unfolding add_sym_tbl
  add_sym_tbl-IsRoomy mem_syms mem_chars copy t t' es r h = ground (
    arith,
    count_syms-copy_syms es,
    length-append t.syms (copy_syms filter assign es).0,
    r.unallocated,
    r.allocated,
  )

  -- Every symbol is left out.
  count_syms-nothing :
      (es : List E) → All (λ e. filter e ≡ none) es → count_syms filter assign es ≡ (0, 0)
  unfolding count_syms
  count_syms-nothing [] a = refl
  count_syms-nothing (e ∷ es) a = ground (arith, count_syms-nothing es a.1)

  -- Where a new table is asked for and the filter lets no symbol pass, no array is allocated and the
  -- null name is written through a null pointer.
  pub add_sym_tbl-null_write :
      (mem_syms mem_chars copy : Bool) (es : List E)
      → All (λ e. filter e ≡ none) es
      → add_sym_tbl filter assign mem_syms mem_chars copy empty_tbl es ≡ null_write
  unfolding add_sym_tbl
  add_sym_tbl-null_write mem_syms mem_chars copy es a = ground (arith, count_syms-nothing es a)
