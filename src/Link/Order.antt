-- ===== src/Link/Order.antt =====
-- The order in which constructors and destructors are called (bfdstuff.c).
use rtems_hzb_cexpsh.Base.{
  ℕ, suc, ◌+◌, ◌^◌, ◌≡◌, ◌≢◌, ◌≤◌, ◌<◌, All, true, ◌&&◌, ltb, ◌==◌, if◌then◌else◌, Option, none,
  some, List, [], ◌∷◌, ◌++◌, ◌-◌, drop, length, map, arith, refl, sym, ap, ◌∙◌, length-append,
}
use mathlib.Core.List.{Perm, Pairwise, reverse, reverse_perm, Pairwise-reverse}
use mathlib.Core.List.Perm
use native.Mathlib.Bridge.{le_prop}
use rtems_hzb_cexpsh.Link.Resolve.{
  Asym, Home, Names, Notes, count_ctor_dtor, take_callback, after_callbacks, resolve_global,
  resolve_case, resolve_undefined, resolve_common, resolve_defined, refer, add_new_common,
  resolve_loop, resolve_sym,
}
use rtems_hzb_cexpsh.Syms.{Sym}
use rtems_hzb_cexpsh.Modules.Record.{Module}
use rtems_hzb_cexpsh.Modules.Lookup.{sym_lookup}
use rtems_hzb_cexpsh.Link.Ctors.{
  Pattern, CtorKind, ctor, dtor, neither, is_ctor_dtor, CtorSym, Qsort, IsQsort, AreRanked, Ranks,
  Says, ctor_cmp, asymbol_value, collect_ctors, build_ctors_dtors, note_ctor, first, kind_by,
}

-- The constructors among some symbols, and the destructors, in the order of the symbols.
abbrev pub one_ctor : CtorKind → Asym → List CtorSym → List CtorSym
one_ctor (ctor p) sp rest = record { sym = sp; pri = p } ∷ rest
one_ctor (dtor p) sp rest = rest
one_ctor neither sp rest = rest

abbrev pub one_dtor : CtorKind → Asym → List CtorSym → List CtorSym
one_dtor (ctor p) sp rest = rest
one_dtor (dtor p) sp rest = record { sym = sp; pri = p } ∷ rest
one_dtor neither sp rest = rest

abbrev pub ctors_of : Pattern → List Asym → List CtorSym
ctors_of ends [] = []
ctors_of ends (sp ∷ sps) = one_ctor (is_ctor_dtor ends sp.name) sp (ctors_of ends sps)

abbrev pub dtors_of : Pattern → List Asym → List CtorSym
dtors_of ends [] = []
dtors_of ends (sp ∷ sps) = one_dtor (is_ctor_dtor ends sp.name) sp (dtors_of ends sps)

-- An order of calls: all of the symbols, each once, at their addresses, and in that order.
pub record IsOrder (vma : Asym → ℕ) (R : CtorSym → CtorSym → Type 0) (found : List CtorSym)
    (calls : List ℕ) : Type 0 where
  pub order : List CtorSym
  pub all : Perm order found
  pub ordered : Pairwise R order
  pub calls_are : calls ≡ map (λ c. asymbol_value vma c.sym) order

-- Priorities that differ, and are no negative `int`.
abbrev pub AreApart : List CtorSym → Type 0
AreApart [] = Unit
AreApart (c ∷ cs) = (c.pri < 2 ^ 31) × All (λ d. c.pri ≢ d.pri) cs × AreApart cs

ctor_cmp-Says :
    (a b : ℕ) (c d : CtorSym)
    → c.pri < 2 ^ 31
    → d.pri < 2 ^ 31
    → c.pri ≢ d.pri
    → Says c.pri d.pri (ctor_cmp a b c d)
unfolding ctor_cmp
ctor_cmp-Says a b c d h k differ = record {
  below = λ lt. ground arith;
  above = λ lt. ground arith;
  level = λ e. absurd (differ e);
}

ctor_cmp-Ranks :
    (c : CtorSym) (cs : List CtorSym)
    → c.pri < 2 ^ 31
    → All (λ d. c.pri ≢ d.pri) cs
    → AreApart cs
    → All (Ranks ctor_cmp (λ x. x.pri) c) cs
ctor_cmp-Ranks c [] h differ apart = tt
ctor_cmp-Ranks c (d ∷ cs) h differ apart = (
  (λ a b. (
    ctor_cmp-Says a b c d h apart.0 differ.0,
    ctor_cmp-Says b a d c apart.0 h (λ e. differ.0 (sym e)),
  )),
  ctor_cmp-Ranks c cs h differ.1 apart.2,
)

-- For those, `ctor_cmp` is a comparator as `qsort` demands it.
apart-AreRanked : (cs : List CtorSym) → AreApart cs → AreRanked ctor_cmp (λ x. x.pri) cs
apart-AreRanked [] apart = tt
apart-AreRanked (c ∷ cs) apart =
    (ctor_cmp-Ranks c cs apart.0 apart.1 apart.2, apart-AreRanked cs apart.2)

snoc_assoc :
    (xs : List CtorSym) (c : CtorSym) (zs : List CtorSym) → (xs ++ c ∷ []) ++ zs ≡ xs ++ c ∷ zs
snoc_assoc [] c zs = refl
snoc_assoc (x ∷ xs) c zs = ap (λ l. x ∷ l) (snoc_assoc xs c zs)

append_nil : (xs : List CtorSym) → xs ++ [] ≡ xs
append_nil [] = refl
append_nil (x ∷ xs) = ap (λ l. x ∷ l) (append_nil xs)

module _ (ends : Pattern) (qsort : Qsort) (vma : Asym → ℕ) where
  abbrev Collects : ℕ → ℕ → List Asym → Type 0
  Collects n m st =
      (cs ds : List CtorSym)
      → length cs + length (ctors_of ends st) ≤ n
      → length ds + length (dtors_of ends st) ≤ m
      → collect_ctors ends qsort vma n m st cs ds
        ≡ some (cs ++ ctors_of ends st, ds ++ dtors_of ends st)

  -- A round of that kind and the rest of the loop.
  abbrev round :
      ℕ
      → ℕ
      → List Asym
      → Option (List CtorSym × List CtorSym)
      → Option (List CtorSym × List CtorSym)
  round n m sps none = none
  round n m sps (some r) = collect_ctors ends qsort vma n m sps r.0 r.1

  round-all :
      (n m : ℕ) (kind : CtorKind) (sp : Asym) (sps : List Asym) (cs ds : List CtorSym)
      → Collects n m sps
      → length cs + length (one_ctor kind sp (ctors_of ends sps)) ≤ n
      → length ds + length (one_dtor kind sp (dtors_of ends sps)) ≤ m
      → round n m sps (note_ctor n m kind sp cs ds)
        ≡ some
            (cs ++ one_ctor kind sp (ctors_of ends sps), ds ++ one_dtor kind sp (dtors_of ends sps))
  unfolding note_ctor
  round-all n m neither sp sps cs ds ih h k = ih cs ds h k
  round-all n m (ctor p) sp sps cs ds ih h k =
      let c : CtorSym = record { sym = sp; pri = p } in
      let more = ih (cs ++ c ∷ []) ds (omega (arith, h, length-append cs (c ∷ []))) k in
      let room : ltb (length cs) n ≡ true = ground (arith, h) in
      ap (λ b. round n m sps (if b then some (cs ++ c ∷ [], ds) else none)) room
      ∙ more
      ∙ ap (λ (l : List CtorSym). some (l, ds ++ dtors_of ends sps))
          (snoc_assoc cs c (ctors_of ends sps))
  round-all n m (dtor p) sp sps cs ds ih h k =
      let c : CtorSym = record { sym = sp; pri = p } in
      let more = ih cs (ds ++ c ∷ []) h (omega (arith, k, length-append ds (c ∷ []))) in
      let room : ltb (length ds) m ≡ true = ground (arith, k) in
      ap (λ b. round n m sps (if b then some (cs, ds ++ c ∷ []) else none)) room
      ∙ more
      ∙ ap (λ (l : List CtorSym). some (cs ++ ctors_of ends sps, l))
          (snoc_assoc ds c (dtors_of ends sps))

  collect-all : (n m : ℕ) (st : List Asym) → Collects n m st
  unfolding collect_ctors
  collect-all n m [] cs ds h k =
      ap (λ (l : List CtorSym). some (l, ds)) (sym (append_nil cs))
      ∙ ap (λ (l : List CtorSym). some (cs ++ [], l)) (sym (append_nil ds))
  collect-all n m (sp ∷ sps) cs ds h k =
      round-all n m (is_ctor_dtor ends sp.name) sp sps cs ds (collect-all n m sps) h k

  -- With the numbers of constructors and destructors that were counted, and priorities that differ, no
  -- assertion fails, and the
  -- module gets a list of all constructors by rising priority and one of all destructors by falling
  -- priority.
  pub build_ctors_dtors-IsOrder :
      IsQsort qsort
      → (st : List Asym) (n m : ℕ) → n ≡ length (ctors_of ends st)
      → m ≡ length (dtors_of ends st)
      → AreApart (ctors_of ends st)
      → AreApart (dtors_of ends st)
      → (cs ds : List ℕ) × (build_ctors_dtors ends qsort vma n m st ≡ some (cs, ds))
        × IsOrder vma (λ a b. a.pri ≤ b.pri) (ctors_of ends st) cs
        × IsOrder vma (λ a b. b.pri ≤ a.pri) (dtors_of ends st) ds
  unfolding build_ctors_dtors
  build_ctors_dtors-IsOrder q st n m h k apart_c apart_d =
      let ctors = ctors_of ends st in
      let dtors = dtors_of ends st in
      let sorted_ctors = q.sorts ctor_cmp (λ c. c.pri) ctors (apart-AreRanked ctors apart_c) in
      let sorted_dtors = q.sorts ctor_cmp (λ c. c.pri) dtors (apart-AreRanked dtors apart_d) in
      let e : collect_ctors ends qsort vma n m st [] [] ≡ some (ctors, dtors) =
        collect-all n m st [] [] (omega (arith, h)) (omega (arith, k)) in
      let calls = map (λ (c : CtorSym). asymbol_value vma c.sym) in
      let closed : Option (List CtorSym × List CtorSym) → Option (List ℕ × List ℕ) = λ o. elim o [
        | none ↦ none
        | some r ↦
            if length r.0 == n && length r.1 == m
            then some (calls (qsort ctor_cmp r.0), calls (reverse (qsort ctor_cmp r.1)))
            else none
      ] in
      let right : (length ctors == n && length dtors == m) ≡ true = ground (arith, h, k) in
      (
        calls (qsort ctor_cmp ctors),
        calls (reverse (qsort ctor_cmp dtors)),
        ap closed e
            ∙ ap
                (λ b.
                  if b
                  then some (calls (qsort ctor_cmp ctors), calls (reverse (qsort ctor_cmp dtors)))
                  else none)
                right,
        record {
          order = qsort ctor_cmp ctors;
          all = sorted_ctors.0;
          ordered = sorted_ctors.1;
          calls_are = refl;
        },
        record {
          order = reverse (qsort ctor_cmp dtors);
          all = Perm.trans (reverse_perm (qsort ctor_cmp dtors)) sorted_dtors.0;
          ordered =
              (Pairwise-reverse {R = λ (a b : CtorSym). b.pri ≤ a.pri} (λ a b. le_prop)).1
                sorted_dtors.1;
          calls_are = refl;
        },
      )

-- The letter that `resolve_syms` counts by.
abbrev pub letter_of : Pattern → List ℕ → Option ℕ
letter_of ends name = elim (ends name) [ none ↦ none | some tail ↦ first (drop (tail - 2) name) ]

-- Notes with the same numbers of constructors and destructors.
abbrev SameCounts : Notes → Notes → Type 0
SameCounts n n' = (n'.ctors ≡ n.ctors) × (n'.dtors ≡ n.dtors)

callback_counts :
    (names : Names) (i : ℕ) (sp : Asym) (n : Notes) → SameCounts n (take_callback names i sp n).1
unfolding take_callback
callback_counts names i sp n = ground arith

global_counts :
    (home : Home) (hit : Option (Module × Sym)) (i : ℕ) (sp : Asym) (n : Notes)
    → SameCounts n (resolve_case home hit i sp n).1
unfolding resolve_case resolve_undefined resolve_common resolve_defined refer add_new_common
global_counts home hit i sp n = ground arith

after_counts :
    (ms : List Module) (i : ℕ) (sp : Asym) (n : Notes) → SameCounts n (after_callbacks ms i sp n).1
unfolding after_callbacks resolve_global
after_counts ms i sp n = ground (arith, global_counts sp.home (sym_lookup sp.name ms) i sp n)

letter_counts :
    (ends : Pattern) (sp : Asym) (cs ds : List CtorSym) (n : Notes)
    → let n' = count_ctor_dtor (letter_of ends sp.name) n in
      let k = is_ctor_dtor ends sp.name in
      (n'.ctors + length cs ≡ n.ctors + length (one_ctor k sp cs))
      × (n'.dtors + length ds ≡ n.dtors + length (one_dtor k sp ds))
unfolding count_ctor_dtor is_ctor_dtor kind_by
letter_counts ends sp cs ds n = ground arith

-- What the first pass counts is how many there are.
counts :
    (ms : List Module) (names : Names) (ends : Pattern) (i : ℕ) (sps : List Asym) (n : Notes)
    → let n' = (resolve_loop ms names (letter_of ends) i sps n).1 in
      (n'.ctors ≡ n.ctors + length (ctors_of ends sps))
      × (n'.dtors ≡ n.dtors + length (dtors_of ends sps))
unfolding resolve_loop resolve_sym
counts ms names ends i [] n = (omega arith, omega arith)
counts ms names ends i (sp ∷ sps) n =
    let n1 = count_ctor_dtor (letter_of ends sp.name) n in
    let t = take_callback names i sp n1 in
    let u = after_callbacks ms i t.0 t.1 in
    let a = callback_counts names i sp n1 in
    let b = after_counts ms i t.0 t.1 in
    let ih = counts ms names ends (suc i) sps u.1 in
    let c = letter_counts ends sp (ctors_of ends sps) (dtors_of ends sps) n in
    (omega (arith, a.0, b.0, ih.0, c.0), omega (arith, a.1, b.1, ih.1, c.1))

one_more :
    (kind : CtorKind) (x y : Asym) (cs cs' ds ds' : List CtorSym)
    → length cs ≡ length cs'
    → length ds ≡ length ds'
    → (length (one_ctor kind x cs) ≡ length (one_ctor kind y cs'))
      × (length (one_dtor kind x ds) ≡ length (one_dtor kind y ds'))
one_more (ctor p) x y cs cs' ds ds' h k = (ap suc h, k)
one_more (dtor p) x y cs cs' ds ds' h k = (h, ap suc k)
one_more neither x y cs cs' ds ds' h k = (h, k)

same_numbers :
    (ends : Pattern) (st sps : List Asym)
    → map (λ (sp : Asym). sp.name) st ≡ map (λ (sp : Asym). sp.name) sps
    → (length (ctors_of ends st) ≡ length (ctors_of ends sps))
      × (length (dtors_of ends st) ≡ length (dtors_of ends sps))
same_numbers ends [] [] h = (refl, refl)
same_numbers ends [] (sp ∷ sps) h = absurd (ground (arith, h))
same_numbers ends (x ∷ st) [] h = absurd (ground (arith, h))
same_numbers ends (x ∷ st) (sp ∷ sps) h =
    let name : x.name ≡ sp.name = ground (arith, h) in
    let ih = same_numbers ends st sps (ground (arith, h)) in
    let cs = ctors_of ends st in
    let ds = dtors_of ends st in
    let both =
      one_more (is_ctor_dtor ends sp.name) x sp cs (ctors_of ends sps) ds (dtors_of ends sps) ih.0
        ih.1 in
    let as_name = λ (l : List ℕ). is_ctor_dtor ends l in
    (
      ap (λ l. length (one_ctor (as_name l) x cs)) name ∙ both.0,
      ap (λ l. length (one_dtor (as_name l) x ds)) name ∙ both.1,
    )

-- After the symbols of a file were resolved, each under its name, where no two constructors have one
-- priority, no two destructors either, and the priorities are no negative `int`: the lists of the
-- constructors and destructors are built with no assertion failing, all constructors by rising priority,
-- all destructors by falling priority.
pub resolve_loop-build_ctors_dtors :
    (ends : Pattern) (qsort : Qsort) (vma : Asym → ℕ)
    → IsQsort qsort
    → (ms : List Module) (names : Names) (sps st : List Asym) (n n' : Notes) → n.ctors ≡ 0
    → n.dtors ≡ 0
    → resolve_loop ms names (letter_of ends) 0 sps n ≡ (st, n')
    → map (λ (sp : Asym). sp.name) st ≡ map (λ (sp : Asym). sp.name) sps
    → AreApart (ctors_of ends st)
    → AreApart (dtors_of ends st)
    → (cs ds : List ℕ) × (build_ctors_dtors ends qsort vma n'.ctors n'.dtors st ≡ some (cs, ds))
      × IsOrder vma (λ a b. a.pri ≤ b.pri) (ctors_of ends st) cs
      × IsOrder vma (λ a b. b.pri ≤ a.pri) (dtors_of ends st) ds
resolve_loop-build_ctors_dtors ends qsort vma q ms names sps st n n' zc zd e same apart_c apart_d =
    let c = counts ms names ends 0 sps n in
    let after : (resolve_loop ms names (letter_of ends) 0 sps n).1 ≡ n' = ap (λ r. r.1) e in
    let nc : n'.ctors ≡ n.ctors + length (ctors_of ends sps) =
      sym (ap (λ (m : Notes). m.ctors) after) ∙ c.0 in
    let nd : n'.dtors ≡ n.dtors + length (dtors_of ends sps) =
      sym (ap (λ (m : Notes). m.dtors) after) ∙ c.1 in
    let s = same_numbers ends st sps same in
    build_ctors_dtors-IsOrder ends qsort vma q st n'.ctors n'.dtors (omega (arith, nc, zc, s.0))
      (omega (arith, nd, zd, s.1)) apart_c apart_d
