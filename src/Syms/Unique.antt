-- ===== src/Syms/Unique.antt =====
-- The loops of `cexpSortSymTbl` that drop duplicates: what is left, and what happens at the end of
-- the table.
use rtems_hzb_cexpsh.Base.{
  subst, ◌≡◌, refl, ◌⊎◌, inl, inr, true, false, Option, none, some, List, [], ◌∷◌, ◌++◌, All,
  Bool-cases,
}
use rtems_hzb_cexpsh.Syms.{Sym}
use rtems_hzb_cexpsh.Syms.Build.{cons_some, marker, matches, unique, unique_loop, skip_loop}

-- No two neighbours match, from `x` on.
abbrev pub Chain : Sym → List Sym → Type 0
Chain x [] = Unit
Chain x (y ∷ ys) = (matches x y ≡ false) × Chain y ys

abbrev pub Distinct : List Sym → Type 0
Distinct [] = Unit
Distinct (x ∷ xs) = Chain x xs

abbrev IfSome : (List Sym → Type 0) → Option (List Sym) → Type 0
IfSome P none = Unit
IfSome P (some out) = P out

cons_some-Chain :
    (cur x : Sym) (r : Option (List Sym))
    → matches cur x ≡ false
    → IfSome (Chain x) r
    → IfSome (Chain cur) (cons_some x r)
cons_some-Chain cur x none m h = tt
cons_some-Chain cur x (some ys) m h = (m, h)

-- Both loops at once: the results from `cur` on have no neighbours that match.
loops-Chain :
    (cur : Sym) (xs : List Sym) (end : Sym)
    → IfSome (Chain cur) (unique_loop cur xs end) × IfSome (Chain cur) (skip_loop cur xs end)
unfolding unique_loop skip_loop
loops-Chain cur [] end = elim (Bool-cases (matches cur end)) [
  | inl m ↦ (tt, rw m tt)
  | inr m ↦ (tt, rw m (m, tt))
]
loops-Chain cur (x ∷ xs) end = elim (Bool-cases (matches cur x)) [
  | inl m ↦ rw m ((loops-Chain cur xs end).1, (loops-Chain cur xs end).1)
  | inr m ↦
      let kept : IfSome (Chain cur) (cons_some x (unique_loop x xs end)) =
        cons_some-Chain cur x (unique_loop x xs end) m (loops-Chain x xs end).0 in
      rw m (kept, kept)
]

unique-IfSome : (xs : List Sym) (last : Sym) → IfSome Distinct (unique xs last)
unfolding unique
unique-IfSome [] last = tt
unique-IfSome (x ∷ xs) last =
    step (unique_loop x xs (marker last)) (loops-Chain x xs (marker last)).0
  where
    step : (r : Option (List Sym)) → IfSome (Chain x) r → IfSome Distinct (cons_some x r)
    step none h = tt
    step (some ys) h = h

-- Whatever table the loops of `cexpSortSymTbl` leave, no two neighbours in it match.
pub unique-Distinct :
    (xs : List Sym) (last : Sym) (out : List Sym) → unique xs last ≡ some out → Distinct out
unique-Distinct xs last out h = subst (IfSome Distinct) h (unique-IfSome xs last)

-- The symbol, or one that matches it, is in the list.
abbrev pub Kept : Sym → List Sym → Type 0
Kept s [] = ⊥
Kept s (t ∷ ts) = (t ≡ s) ⊎ ((matches t s ≡ true) ⊎ Kept s ts)

abbrev AllKept : Sym → List Sym → List Sym → Type 0
AllKept cur xs out = All (λ s. Kept s (cur ∷ out)) xs

AllKept-cons : (cur x : Sym) (xs out : List Sym) → AllKept x xs out → AllKept cur xs (x ∷ out)
AllKept-cons cur x [] out a = tt
AllKept-cons cur x (y ∷ ys) out a = (inr (inr a.0), AllKept-cons cur x ys out a.1)

cons_some-AllKept :
    (cur x : Sym) (xs : List Sym) (r : Option (List Sym))
    → IfSome (AllKept x xs) r
    → IfSome (AllKept cur (x ∷ xs)) (cons_some x r)
cons_some-AllKept cur x xs none h = tt
cons_some-AllKept cur x xs (some out) h = (inr (inr (inl refl)), AllKept-cons cur x xs out h)

skip-AllKept :
    (cur x : Sym) (xs : List Sym) (r : Option (List Sym))
    → matches cur x ≡ true
    → IfSome (AllKept cur xs) r
    → IfSome (AllKept cur (x ∷ xs)) r
skip-AllKept cur x xs none m h = tt
skip-AllKept cur x xs (some out) m h = (inr (inl m), h)

loops-AllKept :
    (cur : Sym) (xs : List Sym) (end : Sym)
    → IfSome (AllKept cur xs) (unique_loop cur xs end)
      × IfSome (AllKept cur xs) (skip_loop cur xs end)
unfolding unique_loop skip_loop
loops-AllKept cur [] end = elim (Bool-cases (matches cur end)) [
  | inl m ↦ (tt, rw m tt)
  | inr m ↦ (tt, rw m tt)
]
loops-AllKept cur (x ∷ xs) end = elim (Bool-cases (matches cur x)) [
  | inl m ↦
      let kept : IfSome (AllKept cur (x ∷ xs)) (skip_loop cur xs end) =
        skip-AllKept cur x xs (skip_loop cur xs end) m (loops-AllKept cur xs end).1 in
      rw m (kept, kept)
  | inr m ↦
      let kept : IfSome (AllKept cur (x ∷ xs)) (cons_some x (unique_loop x xs end)) =
        cons_some-AllKept cur x xs (unique_loop x xs end) (loops-AllKept x xs end).0 in
      rw m (kept, kept)
]

unique-IfSome-Kept :
    (xs : List Sym) (last : Sym) → IfSome (λ out. All (λ s. Kept s out) xs) (unique xs last)
unfolding unique
unique-IfSome-Kept [] last = tt
unique-IfSome-Kept (x ∷ xs) last =
    step (unique_loop x xs (marker last)) (loops-AllKept x xs (marker last)).0
  where
    step :
        (r : Option (List Sym))
        → IfSome (AllKept x xs) r
        → IfSome (λ out. All (λ s. Kept s out) (x ∷ xs)) (cons_some x r)
    step none h = tt
    step (some ys) h = (inl refl, h)

-- No name is lost: every entry that was sorted in, or one that matches it, is in the table that the
-- loops of `cexpSortSymTbl` leave.
pub unique-Kept :
    (xs : List Sym) (last : Sym) (out : List Sym)
    → unique xs last ≡ some out
    → All (λ s. Kept s out) xs
unique-Kept xs last out h =
    subst (IfSome (λ out. All (λ s. Kept s out) xs)) h (unique-IfSome-Kept xs last)

-- No entry takes the marker for a duplicate of itself.
abbrev pub MarkerIsForeign : List Sym → Sym → Type 0
MarkerIsForeign xs last = All (λ s. matches s (marker last) ≡ false) xs

loops_total :
    (cur : Sym) (xs : List Sym) (end : Sym)
    → matches cur end ≡ false
    → All (λ s. matches s end ≡ false) xs
    → ((out : List Sym) × (unique_loop cur xs end ≡ some out))
      × ((out : List Sym) × (skip_loop cur xs end ≡ some out))
unfolding unique_loop skip_loop
loops_total cur [] end m a = (([], refl), (end ∷ [], rw m))
loops_total cur (x ∷ xs) end m a = elim (Bool-cases (matches cur x)) [
  | inl e ↦ rw e ((loops_total cur xs end m a.1).1, (loops_total cur xs end m a.1).1)
  | inr e ↦
      let (out, h) = (loops_total x xs end a.0 a.1).0 in
      rw (e, h) ((x ∷ out, refl), (x ∷ out, refl))
]

-- Where no entry matches the marker, the loops stay within the array: they end with a table.
pub unique_total :
    (xs : List Sym) (last : Sym)
    → MarkerIsForeign xs last
    → (out : List Sym) × (unique xs last ≡ some out)
unfolding unique
unique_total [] last a = ([], refl)
unique_total (x ∷ xs) last a =
    let (out, h) = (loops_total x xs (marker last) a.0 a.1).0 in (x ∷ out, rw h)

skip_to_end :
    (cur : Sym) (xs : List Sym) (end : Sym)
    → matches cur end ≡ false
    → All (λ s. matches cur s ≡ true) xs
    → skip_loop cur xs end ≡ some (end ∷ [])
unfolding skip_loop
skip_to_end cur [] end m a = rw m
skip_to_end cur (x ∷ xs) end m a = rw a.0 (skip_to_end cur xs end m a.1)

unique_loop-marker :
    (cur : Sym) (pre : List Sym) (l d : Sym) (dups : List Sym) (end : Sym)
    → Chain cur (pre ++ l ∷ [])
    → All (λ s. matches l s ≡ true) (d ∷ dups)
    → matches l end ≡ false
    → unique_loop cur (pre ++ l ∷ d ∷ dups) end ≡ some (pre ++ l ∷ end ∷ [])
unfolding unique_loop
unique_loop-marker cur [] l d dups end c a m = rw (c.0, a.0, skip_to_end l dups end m a.1)
unique_loop-marker cur (p ∷ pre) l d dups end c a m =
    rw (c.0, unique_loop-marker p pre l d dups end c.1 a m)

-- A table whose last entries `d ∷ dups`, one at least, all repeat the entry `l` before them, and whose
-- entries up to `l` are distinct, is left with the marker as an entry of its own behind `l`.
pub unique-marker :
    (x : Sym) (pre : List Sym) (l d : Sym) (dups : List Sym) (last : Sym)
    → Chain x (pre ++ l ∷ [])
    → All (λ s. matches l s ≡ true) (d ∷ dups)
    → matches l (marker last) ≡ false
    → unique (x ∷ pre ++ l ∷ d ∷ dups) last ≡ some (x ∷ pre ++ l ∷ marker last ∷ [])
unfolding unique
unique-marker x pre l d dups last c a m = rw (unique_loop-marker x pre l d dups (marker last) c a m)
