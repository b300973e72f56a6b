-- ===== src/Syms/Build.antt =====
-- The construction of a symbol table: adding external symbols, sorting, dropping duplicates, and the
-- index by address. `qsort` of the C library, whose order of equal elements is not specified, is a
-- parameter.
use rtems_hzb_cexpsh.Base.{
  ℕ, suc, ◌+◌, ◌-◌, Bool, true, false, ◌&&◌, Option, none, some, List, [], ◌∷◌, ◌++◌, Ordering, ltb,
  ◌==◌, if◌then◌else◌, length, drop, not,
}
use rtems_hzb_cexpsh.Syms.{Sym, SymTbl, nentries, no_sym, namecomp, addrcomp}

-- The marker that `cexpSortSymTbl` puts behind the entries: "+%2W".
abbrev pub marker_name : List ℕ
marker_name = b'+' ∷ b'%' ∷ b'2' ∷ b'W' ∷ []

abbrev pub marker : Sym → Sym
marker last = record last { name = marker_name }

-- Two entries of one name, the first as the key.
abbrev pub matches : Sym → Sym → Bool
matches a b = elim (namecomp a.name b.name) [ Ordering.eq ↦ true | _ ↦ false ]

abbrev pub cons_some : Sym → Option (List Sym) → Option (List Sym)
cons_some x none = none
cons_some x (some ys) = some (x ∷ ys)

-- The two loops of `cexpSortSymTbl` that keep one entry of each name. `cur` is `syms[to]`, the list
-- holds `syms[fr]` up to the last entry, `end` is the marked slot behind it; the result holds what
-- is written from `syms[to + 1]` on. The writes never overtake the reads, so the list of what is
-- still to be read is the original one. The inner loop has no bound of its own: it passes the
-- marker, and reads on behind the array (`none`), if the marker matches.
unfoldable mutual
  pub unique_loop : Sym → List Sym → Sym → Option (List Sym)
  unique_loop cur [] end = some []
  unique_loop cur (x ∷ xs) end =
      let keep = cons_some x (unique_loop x xs end) in
      let skip = skip_loop cur xs end in if matches cur x then skip else keep

  pub skip_loop : Sym → List Sym → Sym → Option (List Sym)
  skip_loop cur [] end = if matches cur end then none else some (end ∷ [])
  skip_loop cur (x ∷ xs) end =
      let keep = cons_some x (unique_loop x xs end) in
      let skip = skip_loop cur xs end in if matches cur x then skip else keep

-- All that `cexpSortSymTbl` does behind the sort, on the sorted entries: the entries that are left.
unfoldable pub unique : List Sym → Sym → Option (List Sym)
unfolding unique_loop skip_loop
unique [] last = some []
unique (x ∷ xs) last = cons_some x (unique_loop x xs (marker last))

-- `qsort` on symbols.
abbrev pub Sort : Type 0
Sort = (Sym → Sym → Ordering) → List Sym → List Sym

-- `cexpSortSymTbl`: the slots behind the entries that are left keep what they held; `none` where the
-- loop reads behind the array.
unfoldable pub sort_sym_tbl : Sort → SymTbl → Option SymTbl
unfolding unique
sort_sym_tbl qsort t =
    let sorted = qsort (λ a b. namecomp a.name b.name) t.syms in
    if nentries t == 0 then some t else elim (unique sorted t.last) [
      | none ↦ none
      | some out ↦ some (record t { syms = out; rest = drop (length out) sorted ++ t.rest })
    ]

-- `cexpIndexSymTbl`: `mem` says whether `realloc` succeeds. `none` is the result -1.
unfoldable pub index_sym_tbl : Sort → Bool → SymTbl → Option SymTbl
index_sym_tbl qsort mem t =
    if not (nentries t == 0) && not mem
    then none
    else some (record t { aindex = qsort addrcomp t.syms })

-- The ways `cexpAddSymTbl` ends: with a table, with the null pointer, or with a write through a null
-- pointer.
pub data AddResult : Type 0 where
  added : SymTbl → AddResult
  failed : AddResult
  null_write : AddResult

-- External symbols of a type `E`, with the callbacks `filter` and `assign`.
module _ {E : Type 0} (filter : E → Option (List ℕ)) (assign : E → Sym → Sym) where
  -- The counting loop: `nDstSyms` and, where names are copied, `nDstChars`.
  unfoldable pub count_syms : List E → ℕ × ℕ
  count_syms [] = (0, 0)
  count_syms (e ∷ es) =
      let (n, chars) = count_syms es in
      elim (filter e) [ none ↦ (n, chars) | some name ↦ (suc n, length name + 1 + chars) ]

  -- The copying loop: the entries that it writes, and how far `dst` has moved.
  unfoldable pub copy_syms : List E → List Sym × ℕ
  copy_syms [] = ([], 0)
  copy_syms (e ∷ es) =
      let (out, chars) = copy_syms es in
      elim (filter e) [
        | none ↦ (out, chars)
        | some name ↦ (assign e (record no_sym { name = name }) ∷ out, length name + 1 + chars)
      ]

  -- `cexpAddSymTbl` with both callbacks: `copy` is off under `CEXP_SYMTBL_FLAG_NO_STRCPY`, and
  -- `mem_syms` and `mem_chars` say whether the allocations of the slots and of the block of
  -- characters succeed.
  unfoldable pub add_sym_tbl : Bool → Bool → Bool → SymTbl → List E → AddResult
  unfolding count_syms copy_syms
  add_sym_tbl mem_syms mem_chars copy t es =
      let n = (count_syms es).0 in
      let chars = if copy then (count_syms es).1 else 0 in
      let grow = ltb (t.size - nentries t) n in
      let size = if grow then nentries t + n else t.size in
      let slots = if grow then nentries t + n + 1 else t.slots in
      let strtbl = if chars == 0 then t.strtbl else chars ∷ t.strtbl in
      if not (t.slots == 0) && t.size == 0
      then failed
      else if grow && not mem_syms
      then failed
      else if not (chars == 0) && not mem_chars
      then failed
      else if slots == 0
      then null_write
      else added (record t {
        syms = t.syms ++ (copy_syms es).0;
        rest = [];
        last = record no_sym { name = [] };
        slots = slots;
        size = size;
        strtbl = strtbl;
      })

-- `cexpAddSymTbl` without callbacks: the list becomes the table, whose array is the caller's.
unfoldable pub add_sym_list : SymTbl → List Sym → Sym → AddResult
add_sym_list t syms last =
    if t.slots == 0
    then added (record t { syms = syms; last = last; slots = length syms + 1 })
    else failed
