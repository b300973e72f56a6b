-- ===== src/Link/InsertionSort.antt =====
-- A `qsort` for runs of bfdstuff.c: a sort by insertion that keeps the promises of the C library.
use rtems_hzb_cexpsh.Base.{
  ℕ, ◌≡◌, ◌≤◌, Bool, true, false, leb, ◌==◌, ◌||◌, ◌^◌, All, if◌then◌else◌, List, [], ◌∷◌, arith,
  Bool-cases, inl, inr, sym, subst,
}
use mathlib.Core.List.{
  Perm, Pairwise, Mem, eq-or-mem_of_mem-cons, not-mem-nil, rel_of_Pairwise-cons,
}
use mathlib.Core.List.Perm
use mathlib.Core.List.Pairwise
use mathlib.Core.Logic.{∥∥₁_elim}
use native.Mathlib.Bridge.{le_prop}
use rtems_hzb_cexpsh.Link.Ctors.{CtorSym, Qsort, IsQsort, Comparator, Ranks, AreRanked}

-- A sort by insertion, which asks for the places 0 and 1.
abbrev comes_first : ℕ → Bool
comes_first answer = answer == 0 || leb (2 ^ 31) answer

insert : Comparator → CtorSym → List CtorSym → List CtorSym
insert cmp c [] = c ∷ []
insert cmp c (x ∷ xs) =
    let rest = insert cmp c xs in if comes_first (cmp 0 1 c x) then c ∷ x ∷ xs else x ∷ rest

unfoldable pub insertion_sort : Qsort
unfolding insert
insertion_sort cmp [] = []
insertion_sort cmp (c ∷ cs) = insert cmp c (insertion_sort cmp cs)

-- A bound on all elements, from one on the first and one on the others.
bound_cons :
    (key : CtorSym → ℕ) (p : ℕ) (x a : CtorSym) (xs : List CtorSym)
    → p ≤ key x
    → ((b : CtorSym) → Mem b xs → p ≤ key b)
    → Mem a (x ∷ xs)
    → p ≤ key a
bound_cons key p x a xs h k m =
    ∥∥₁_elim (eq-or-mem_of_mem-cons m) le_prop
      λ o. elim o [ inl e ↦ subst (λ (b : CtorSym). p ≤ key b) (sym e) h | inr n ↦ k a n ]

module _ (cmp : Comparator) (key : CtorSym → ℕ) where
  abbrev IsRising : List CtorSym → Type 0
  IsRising = Pairwise (λ (a b : CtorSym). key a ≤ key b)

  insert-Perm : (c : CtorSym) (l : List CtorSym) → Perm (insert cmp c l) (c ∷ l)
  unfolding insert
  insert-Perm c [] = Perm.rfl
  insert-Perm c (x ∷ xs) = elim (Bool-cases (comes_first (cmp 0 1 c x))) [
    | inl e ↦ rw (e) Perm.rfl
    | inr e ↦ rw (e) (Perm.trans (Perm.cons x (insert-Perm c xs)) (Perm.swap c x xs))
  ]

  insertion_sort-Perm : (l : List CtorSym) → Perm (insertion_sort cmp l) l
  unfolding insertion_sort
  insertion_sort-Perm [] = Perm.rfl
  insertion_sort-Perm (c ∷ cs) =
      Perm.trans (insert-Perm c (insertion_sort cmp cs)) (Perm.cons c (insertion_sort-Perm cs))

  first-le :
      (c x : CtorSym)
      → Ranks cmp key c x
      → ((comes_first (cmp 0 1 c x) ≡ true → key c ≤ key x)
          × (comes_first (cmp 0 1 c x) ≡ false → key x ≤ key c))
  first-le c x r =
      let s = (r 0 1).0 in
      (
        λ h. elim (Bool-cases (leb (key c) (key x))) [
          | inl le ↦ ground (arith, le)
          | inr gt ↦ absurd (ground (arith, h, s.above (ground (arith, gt))))
        ],
        λ h. elim (Bool-cases (leb (key x) (key c))) [
          | inl le ↦ ground (arith, le)
          | inr gt ↦ absurd (ground (arith, h, s.below (ground (arith, gt))))
        ],
      )

  insert-IsRising :
      (c : CtorSym) (l : List CtorSym)
      → All (Ranks cmp key c) l
      → IsRising l
      → IsRising (insert cmp c l)
  unfolding insert
  insert-IsRising c [] ranks r = Pairwise.cons (λ a m. absurd (not-mem-nil m)) Pairwise.nil
  insert-IsRising c (x ∷ xs) ranks r = elim (Bool-cases (comes_first (cmp 0 1 c x))) [
    | inl e ↦
        let low = (first-le c x ranks.0).0 e in
        rw (e) (
          Pairwise.cons
            (λ a m.
              bound_cons key (key c) x a xs low
                (λ b k. omega (arith, low, rel_of_Pairwise-cons r k)) m)
            r)
    | inr e ↦
        let high = (first-le c x ranks.0).1 e in
        rw (e) (
          Pairwise.cons
            (λ a m.
              bound_cons key (key x) c a xs high (λ b k. rel_of_Pairwise-cons r k)
                ((Perm.mem_iff (insert-Perm c xs)).0 m))
            (insert-IsRising c xs ranks.1 (Pairwise.of_cons r)))
  ]

  insert-All :
      (P : CtorSym → Type 0) (c : CtorSym) (l : List CtorSym)
      → P c
      → All P l
      → All P (insert cmp c l)
  unfolding insert
  insert-All P c [] p a = (p, tt)
  insert-All P c (x ∷ xs) p a = elim (Bool-cases (comes_first (cmp 0 1 c x))) [
    | inl e ↦ rw (e) (p, (a.0, a.1))
    | inr e ↦ rw (e) (a.0, insert-All P c xs p a.1)
  ]

  insertion_sort-All :
      (P : CtorSym → Type 0) (l : List CtorSym) → All P l → All P (insertion_sort cmp l)
  unfolding insertion_sort
  insertion_sort-All P [] a = tt
  insertion_sort-All P (c ∷ cs) a =
      insert-All P c (insertion_sort cmp cs) a.0 (insertion_sort-All P cs a.1)

  insertion_sort-IsRising :
      (l : List CtorSym) → AreRanked cmp key l → IsRising (insertion_sort cmp l)
  unfolding insertion_sort
  insertion_sort-IsRising [] ranked = Pairwise.nil
  insertion_sort-IsRising (c ∷ cs) ranked =
      insert-IsRising c (insertion_sort cmp cs) (insertion_sort-All (Ranks cmp key c) cs ranked.0)
        (insertion_sort-IsRising cs ranked.1)

pub insertion_sort-IsQsort : IsQsort insertion_sort
insertion_sort-IsQsort = record {
  sorts =
      λ cmp key l ranked. (insertion_sort-Perm cmp key l, insertion_sort-IsRising cmp key l ranked);
}
