-- ===== src/Modules/Lookup.antt =====
-- The searches of cexpmod.c through all modules: `cexpSymLookup`, `cexpModIterate`,
-- `cexpModuleFindByName`, and the loop of `_cexpSymLookupRegex`.
use rtems_hzb_cexpsh.Base.{
  ℕ, zero, suc, ◌-◌, ◌≡◌, ◌≢◌, refl, sym, subst, ap, ◌⊎◌, inl, inr, Bool, true, false, Option, none,
  some, List, [], ◌∷◌, ◌++◌, length, All, ◌==◌, if◌then◌else◌, arith, Bool-cases, Option-cases,
}
use mathlib.Core.List.{append_assoc}
use rtems_hzb_cexpsh.Syms.{Sym, sym_tbl_lookup}
use rtems_hzb_cexpsh.Syms.Lookup.{Finds, IsNamed, sym_tbl_lookup-Finds}
use rtems_hzb_cexpsh.Modules.Record.{Module, DistinctBy}
use rtems_hzb_cexpsh.Modules.Unload.{handle, mod_is_stale}

-- `cexpSymLookup`: the symbol, and the module that it is from.
unfoldable pub sym_lookup : List ℕ → List Module → Option (Module × Sym)
sym_lookup name [] = none
sym_lookup name (m ∷ ms) = elim (sym_tbl_lookup name m.symtbl) [
  | some s ↦ some (m, s)
  | none ↦ sym_lookup name ms
]

-- What follows the module with that handle, for `mod->next`.
unfoldable pub next_of : ℕ → List Module → ℕ
next_of h [] = 0
next_of h (m ∷ []) = 0
next_of h (m ∷ n ∷ ms) = let rest = next_of h (n ∷ ms) in if m.addr == h then n.addr else rest

-- The module with that handle, for its callback.
unfoldable pub only : ℕ → List Module → List Module
only h [] = []
only h (m ∷ ms) = let rest = only h ms in if m.addr == h then m ∷ [] else rest

-- `cexpModIterate`: the modules that the callback is called for, and the handle that it returns.
unfoldable pub mod_iterate : ℕ → List Module → List Module × ℕ
unfolding mod_is_stale next_of only
mod_iterate h ms =
    if h == 0 then (ms, 0) else if mod_is_stale h ms then ([], 0) else (only h ms, next_of h ms)

-- A caller's loop that asks for one module at a time until it gets null.
unfoldable pub iterate_until_null : ℕ → ℕ → List Module → List Module
iterate_until_null zero h ms = []
iterate_until_null (suc fuel) h ms =
    let (seen, next) = mod_iterate h ms in
    let rest = iterate_until_null fuel next ms in if next == 0 then seen else seen ++ rest

-- The loop of `cexpModuleFindByName`: what it prints, and the module found first.
unfoldable pub find_by_name :
    (List ℕ → Bool) → Bool → List Module → Option Module → List Module × Option Module
find_by_name matches quiet [] found = ([], found)
find_by_name matches quiet (m ∷ ms) found =
    let first : Option Module = elim found [ some f ↦ some f | none ↦ some m ] in
    let hit = find_by_name matches quiet ms first in
    let miss = find_by_name matches quiet ms found in
    if matches m.name then (if quiet then ([], first) else (m ∷ hit.0, hit.1)) else miss

-- One module in `_cexpSymLookupRegex`: the symbol at which the search ends, or what is left of the
-- limit.
pub data Scan : Type 0 where
  stopped : Sym → Scan
  over : ℕ → Scan

-- The loop over the slots of a module. `mfound` is whether the module had a hit before; the first hit
-- takes two off the limit. The limit is not negative: where the C one drops below 0, it is 0 here.
unfoldable pub scan_module : (List ℕ → Bool) → List Sym → ℕ → Bool → Scan
scan_module matches [] max mfound = over max
scan_module matches (s ∷ ss) max mfound =
    let left = if mfound then max - 1 else max - 1 - 1 in
    let hit = scan_module matches ss left true in
    let miss = scan_module matches ss max mfound in
    if max == 0
    then over max
    else if matches s.name
    then (if left == 0 then stopped s else hit)
    else miss

-- The loop over the modules.
unfoldable pub sym_lookup_regex : (List ℕ → Bool) → ℕ → List Module → Option (Module × Sym)
unfolding scan_module
sym_lookup_regex matches max [] = none
sym_lookup_regex matches max (m ∷ ms) =
    elim (scan_module matches (m.symtbl.syms ++ m.symtbl.rest) max false) [
      | stopped s ↦ some (m, s)
      | over left ↦ sym_lookup_regex matches left ms
    ]

-- All tables are in order, as `cexpSymTblLookup` needs them.
abbrev pub AreNamed : List Module → Type 0
AreNamed ms = All (λ m. IsNamed m.symtbl.syms) ms

-- What a lookup through all modules may answer: nothing if no table has the name, or else the entry of
-- the first module whose table has it.
abbrev pub FindsFirst : List ℕ → List Module → Option (Module × Sym) → Type 0
FindsFirst name ms none = All (λ m. Finds name m.symtbl.syms none) ms
FindsFirst name ms (some hit) =
    (before after : List Module) × (ms ≡ before ++ hit.0 ∷ after)
    × All (λ m. Finds name m.symtbl.syms none) before
    × Finds name hit.0.symtbl.syms (some hit.1)

FindsFirst-skip :
    (name : List ℕ) (m : Module) (ms : List Module) (r : Option (Module × Sym))
    → Finds name m.symtbl.syms none
    → FindsFirst name ms r
    → FindsFirst name (m ∷ ms) r
FindsFirst-skip name m ms none f a = (f, a)
FindsFirst-skip name m ms (some hit) f (before, after, e, a, b) =
    (m ∷ before, after, ap (λ x. m ∷ x) e, (f, a), b)

-- `cexpSymLookup` answers with the symbol of that name in the first module, in the order of loading,
-- whose table has it, and with null only if no table has it; the tables being sorted by names that
-- carry no version.
pub sym_lookup-FindsFirst :
    (name : List ℕ) (ms : List Module) → AreNamed ms → FindsFirst name ms (sym_lookup name ms)
unfolding sym_lookup
sym_lookup-FindsFirst name [] n = tt
sym_lookup-FindsFirst name (m ∷ ms) n = elim (Option-cases (sym_tbl_lookup name m.symtbl)) [
  | inl e ↦
      rw (e, FindsFirst)
        (FindsFirst-skip name m ms (sym_lookup name ms)
          (subst (Finds name m.symtbl.syms) e (sym_tbl_lookup-Finds name m.symtbl n.0))
          (sym_lookup-FindsFirst name ms n.1))
  | inr (s, e) ↦
      rw (e, FindsFirst)
        (
          [],
          ms,
          refl,
          tt,
          subst (Finds name m.symtbl.syms) e (sym_tbl_lookup-Finds name m.symtbl n.0),
        )
]

abbrev head_handle : List Module → ℕ
head_handle [] = 0
head_handle (m ∷ ms) = m.addr

next_of-here : (x : Module) (xs : List Module) → next_of x.addr (x ∷ xs) ≡ head_handle xs
unfolding next_of
next_of-here x [] = refl
next_of-here x (y ∷ ys) = ground arith

-- The walk at a module `x` with other modules before it.
module _ (x : Module) (xs : List Module) where
  abbrev Others : List Module → Type 0
  Others pre = All (λ y. y.addr ≢ x.addr) pre

  stale-at : (pre : List Module) → mod_is_stale x.addr (pre ++ x ∷ xs) ≡ false
  unfolding mod_is_stale
  stale-at [] = ground arith
  stale-at (p ∷ pre) = ground (arith, stale-at pre)

  only-at : (pre : List Module) → Others pre → only x.addr (pre ++ x ∷ xs) ≡ x ∷ []
  unfolding only
  only-at [] o = ground arith
  only-at (p ∷ pre) o = ground (arith, only-at pre o.1, o.0)

  next_of-at : (pre : List Module) → Others pre → next_of x.addr (pre ++ x ∷ xs) ≡ head_handle xs
  unfolding next_of
  next_of-at [] o = next_of-here x xs
  next_of-at (p ∷ []) o = ground (arith, next_of-at [] tt, o.0)
  next_of-at (p ∷ q ∷ pre) o = ground (arith, next_of-at (q ∷ pre) o.1, o.0)

  mod_iterate-at :
      (pre : List Module)
      → Others pre
      → x.addr ≢ 0
      → mod_iterate x.addr (pre ++ x ∷ xs) ≡ (x ∷ [], head_handle xs)
  unfolding mod_iterate
  mod_iterate-at pre o real = ground (arith, stale-at pre, only-at pre o, next_of-at pre o)

  Distinct-Others : (pre : List Module) → DistinctBy handle (pre ++ x ∷ xs) → Others pre
  Distinct-Others [] d = tt
  Distinct-Others (p ∷ pre) d = (last_of pre d.0, Distinct-Others pre d.1)
    where
      last_of : (ys : List Module) → All (λ y. p.addr ≢ y.addr) (ys ++ x ∷ xs) → p.addr ≢ x.addr
      last_of [] a = a.0
      last_of (y ∷ ys) a = last_of ys a.1

iterate-suffix :
    (pre : List Module) (x : Module) (xs : List Module)
    → DistinctBy handle (pre ++ x ∷ xs)
    → All (λ y. y.addr ≢ 0) (x ∷ xs)
    → iterate_until_null (length (x ∷ xs)) x.addr (pre ++ x ∷ xs) ≡ x ∷ xs
unfolding iterate_until_null
iterate-suffix pre x [] d real =
    ground (arith, mod_iterate-at x [] pre (Distinct-Others x [] pre d) real.0)
iterate-suffix pre x (y ∷ ys) d real =
    let e : (pre ++ x ∷ []) ++ y ∷ ys ≡ pre ++ x ∷ y ∷ ys = append_assoc pre (x ∷ []) (y ∷ ys) in
    let again =
      subst (λ all. iterate_until_null (length (y ∷ ys)) y.addr all ≡ y ∷ ys) e
        (iterate-suffix (pre ++ x ∷ []) y ys (subst (DistinctBy handle) (sym e) d) real.1) in
    ground (
      arith,
      mod_iterate-at x (y ∷ ys) pre (Distinct-Others x (y ∷ ys) pre d) real.0,
      real.1.0,
      again,
    )

-- Asked for one module after the other, starting at the head, `cexpModIterate` shows each module once,
-- in the order of the list, and answers null at the end; handles are distinct and not null.
pub mod_iterate_in_order :
    (m : Module) (ms : List Module)
    → DistinctBy handle (m ∷ ms)
    → All (λ x. x.addr ≢ 0) (m ∷ ms)
    → iterate_until_null (length (m ∷ ms)) m.addr (m ∷ ms) ≡ m ∷ ms
mod_iterate_in_order m ms d real = iterate-suffix [] m ms d real

-- With either limit a module's first match ends the search.
scan-two :
    (matches : List ℕ → Bool) (ss : List Sym)
    → ((s : Sym) × (scan_module matches ss 2 false ≡ stopped s)
        × (scan_module matches ss 1 false ≡ stopped s))
      ⊎ ((scan_module matches ss 2 false ≡ over 2) × (scan_module matches ss 1 false ≡ over 1))
unfolding scan_module
scan-two matches [] = inr (refl, refl)
scan-two matches (s ∷ ss) = elim (Bool-cases (matches s.name)) [
  | inl hit ↦ inl (s, rw hit refl, rw hit refl)
  | inr miss ↦ rw miss (scan-two matches ss)
]

-- The limits 1 and 2 give the same answer: a search for the second match ends at the first.
pub sym_lookup_regex_two :
    (matches : List ℕ → Bool) (ms : List Module)
    → sym_lookup_regex matches 2 ms ≡ sym_lookup_regex matches 1 ms
unfolding sym_lookup_regex
sym_lookup_regex_two matches [] = refl
sym_lookup_regex_two matches (m ∷ ms) = elim (scan-two matches (m.symtbl.syms ++ m.symtbl.rest)) [
  | inl (s, two, one) ↦ ground (arith)
  | inr (two, one) ↦ ground (arith, sym_lookup_regex_two matches ms)
]
