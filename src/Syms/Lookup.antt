-- ===== src/Syms/Lookup.antt =====
-- The search by name: `bsearch` over a table that is partitioned by the key, and `cexpSymTblLookup`
-- over a table that is sorted by name.
use rtems_hzb_cexpsh.Base.{
  ℕ, zero, suc, ◌+◌, ◌-◌, ◌/◌, ◌≤◌, ◌<◌, ◌≡◌, ◌≢◌, ◌⊎◌, refl, dec_lt, sym, subst, ◌∙◌, List, [],
  ◌∷◌, length, arith, Bool-cases, Ordering-cases, inl, inr, ltb, Option, some, none, get_elem?,
  Ordering, All, strcmp, strcmp_trans, strcmp-eq, strcmp_flip, strcmp_flip_gt, strcmp_refl,
}
use rtems_hzb_cexpsh.Syms.{
  SymTbl, Sym, nentries, namecomp, version_separator, bsearch, sym_tbl_lookup,
}

abbrev pub order_at : (Sym → Ordering) → List Sym → ℕ → Ordering
order_at cmp xs i = elim (get_elem? xs i) [ some s ↦ cmp s | none ↦ Ordering.lt ]

-- What the C standard asks of the array: first the elements below the key, then those that match,
-- then those above.
abbrev pub IsPartitioned : (Sym → Ordering) → List Sym → Type 0
IsPartitioned cmp xs =
    (i j : ℕ)
    → i ≤ j
    → j < length xs
    → (order_at cmp xs i ≡ Ordering.lt → order_at cmp xs j ≡ Ordering.lt)
      × (order_at cmp xs j ≡ Ordering.gt → order_at cmp xs i ≡ Ordering.gt)

get_elem?-lt : (xs : List Sym) (i : ℕ) → i < length xs → (s : Sym) × (get_elem? xs i ≡ some s)
get_elem?-lt [] i h = absurd (omega arith)
get_elem?-lt (x ∷ xs) zero h = (x, refl)
get_elem?-lt (x ∷ xs) (suc i) h = get_elem?-lt xs i (omega arith)

-- A hit is an element in the range that matches, and a miss means that none in the range does.
abbrev pub IsAnswer : (Sym → Ordering) → List Sym → ℕ → ℕ → Option Sym → Type 0
IsAnswer cmp xs l u none = (i : ℕ) → l ≤ i → i < u → order_at cmp xs i ≢ Ordering.eq
IsAnswer cmp xs l u (some s) =
    (cmp s ≡ Ordering.eq) × ((i : ℕ) × (l ≤ i) × (i < u) × (get_elem? xs i ≡ some s))

order_at_of :
    (cmp : Sym → Ordering) (xs : List Sym) (i : ℕ) (s : Sym) {o : Ordering}
    → get_elem? xs i ≡ some s
    → cmp s ≡ o
    → order_at cmp xs i ≡ o
order_at_of cmp xs i s e f = rw (e, order_at) f

module _ (cmp : Sym → Ordering) (xs : List Sym) where
  past_mid :
      (i mid : ℕ) (s : Sym)
      → IsPartitioned cmp xs
      → get_elem? xs mid ≡ some s
      → cmp s ≡ Ordering.lt
      → mid ≤ i
      → i < length xs
      → order_at cmp xs i ≢ Ordering.eq
  past_mid i mid s part at below p q e = cc ((part mid i p q).0 (order_at_of cmp xs mid s at below))

  before_mid :
      (i mid : ℕ) (s : Sym)
      → IsPartitioned cmp xs
      → get_elem? xs mid ≡ some s
      → cmp s ≡ Ordering.gt
      → i ≤ mid
      → mid < length xs
      → order_at cmp xs i ≢ Ordering.eq
  before_mid i mid s part at above p q e =
      cc ((part i mid p q).1 (order_at_of cmp xs mid s at above))

  widen :
      (l u l' u' : ℕ) (r : Option Sym)
      → l ≤ l'
      → u' ≤ u
      → ((i : ℕ) → l ≤ i → i < u → (i < l') ⊎ (u' ≤ i) → order_at cmp xs i ≢ Ordering.eq)
      → IsAnswer cmp xs l' u' r
      → IsAnswer cmp xs l u r
  widen l u l' u' none p q out h = λ i a b e. elim (dec_lt i l') [
    | yes low ↦ out i a b (inl low) e
    | no c ↦ elim (dec_lt i u') [
      | yes d ↦ h i (omega arith) d e
      | no high ↦ out i a b (inr (omega arith)) e
    ]
  ]
  widen l u l' u' (some s) p q out (m, (i, a, b, e)) = (m, (i, omega arith, omega arith, e))

  bsearch-IsAnswer :
      (fuel l u : ℕ)
      → IsPartitioned cmp xs
      → u ≤ length xs
      → u - l < fuel
      → IsAnswer cmp xs l u (bsearch fuel cmp xs l u)
  unfolding bsearch
  bsearch-IsAnswer zero l u part fits few = absurd (omega arith)
  bsearch-IsAnswer (suc fuel) l u part fits few = elim (Bool-cases (ltb l u)) [
    | inr empty ↦ rw empty (λ i p q. absurd (ground arith))
    | inl more ↦
        let mid : ℕ = (l + u) / 2 in
        let (s, at) = get_elem?-lt xs ((l + u) / 2) (ground arith) in
        rw more (
          rw at (elim (Ordering-cases (cmp s)) [
            | inl hit ↦ rw hit (hit, ((l + u) / 2, ground arith, ground arith, at))
            | inr (inl below) ↦ rw below (
                widen l u l mid (bsearch fuel cmp xs l mid) (omega arith) (ground arith)
                  (λ i p q out. past_mid i mid s part at below (omega arith) (omega arith))
                  (bsearch-IsAnswer fuel l mid part (ground arith) (ground arith)))
            | inr (inr above) ↦ rw above (
                widen l u (mid + 1) u (bsearch fuel cmp xs (mid + 1) u) (ground arith) (omega arith)
                  (λ i p q out. before_mid i mid s part at above (omega arith) (ground arith))
                  (bsearch-IsAnswer fuel (mid + 1) u part fits (ground arith)))
          ]))
  ]

-- A name that carries no version.
abbrev pub IsPlain : List ℕ → Type 0
IsPlain = All (λ c. c ≢ version_separator)

abbrev pub name_at : List Sym → ℕ → List ℕ
name_at xs i = elim (get_elem? xs i) [ some s ↦ s.name | none ↦ [] ]

namecomp-strcmp : (key name : List ℕ) → IsPlain name → namecomp key name ≡ strcmp key name
unfolding namecomp strcmp
namecomp-strcmp [] [] h = refl
namecomp-strcmp [] (c ∷ cs) h = ground arith
namecomp-strcmp (k ∷ ks) [] h = refl
namecomp-strcmp (k ∷ ks) (c ∷ cs) h = ground (arith, namecomp-strcmp ks cs h.1)

-- The table after sorting, where no name carries a version: strictly ascending names.
pub record IsNamed (xs : List Sym) : Type 0 where
  pub plain : (i : ℕ) → i < length xs → IsPlain (name_at xs i)
  pub ascends :
      (i j : ℕ) → i < j → j < length xs → strcmp (name_at xs i) (name_at xs j) ≡ Ordering.lt

abbrev pub by_name : List ℕ → Sym → Ordering
by_name name s = namecomp name s.name

order_at-strcmp :
    (name : List ℕ) (xs : List Sym) (i : ℕ)
    → IsNamed xs
    → i < length xs
    → order_at (by_name name) xs i ≡ strcmp name (name_at xs i)
order_at-strcmp name xs i n h =
    let (s, at) = get_elem?-lt xs i h in
    rw (at, order_at, name_at) (namecomp-strcmp name s.name (rw (at, name_at) at (n.plain i h)))

IsNamed-IsPartitioned :
    (name : List ℕ) (xs : List Sym) → IsNamed xs → IsPartitioned (by_name name) xs
IsNamed-IsPartitioned name xs n i j p q = elim (dec_lt i j) [
  | yes before ↦ ground (
    arith,
    order_at-strcmp name xs i n,
    order_at-strcmp name xs j n,
    n.ascends i j,
    strcmp_trans name (name_at xs i) (name_at xs j),
    strcmp_trans (name_at xs i) (name_at xs j) name,
    strcmp_flip_gt name (name_at xs j),
    strcmp_flip (name_at xs i) name,
  )
  | no other ↦
      let e : i ≡ j = omega arith in
      (
        subst (λ k. order_at (by_name name) xs k ≡ Ordering.lt) e,
        subst (λ k. order_at (by_name name) xs k ≡ Ordering.gt) (sym e),
      )
]

-- What a lookup by name may answer: an entry of exactly that name, or nothing if there is none.
abbrev pub Finds : List ℕ → List Sym → Option Sym → Type 0
Finds name xs none = (i : ℕ) → i < length xs → name_at xs i ≢ name
Finds name xs (some s) = (s.name ≡ name) × ((i : ℕ) × (i < length xs) × (get_elem? xs i ≡ some s))

name_at_of : (xs : List Sym) (i : ℕ) (s : Sym) → get_elem? xs i ≡ some s → name_at xs i ≡ s.name
name_at_of xs i s e = rw (e, name_at)

IsAnswer-Finds :
    (name : List ℕ) (xs : List Sym) (r : Option Sym)
    → IsNamed xs
    → IsAnswer (by_name name) xs 0 (length xs) r
    → Finds name xs r
IsAnswer-Finds name xs none n h =
    λ i q e. h i (omega arith) q (ground (arith, order_at-strcmp name xs i n, strcmp_refl name))
IsAnswer-Finds name xs (some s) n (m, (i, a, b, at)) =
    (sym (strcmp-eq name s.name (sym (namecomp-strcmp name s.name plain) ∙ m)), (i, b, at))
  where
    plain : IsPlain s.name
    plain = subst IsPlain (name_at_of xs i s at) (n.plain i b)

-- `cexpSymTblLookup` on a table that is sorted by name and where no name carries a version finds the
-- symbol of exactly that name if there is one, and answers null otherwise.
pub sym_tbl_lookup-Finds :
    (name : List ℕ) (t : SymTbl) → IsNamed t.syms → Finds name t.syms (sym_tbl_lookup name t)
unfolding sym_tbl_lookup
sym_tbl_lookup-Finds name t n =
    IsAnswer-Finds name t.syms (bsearch (suc (nentries t)) (by_name name) t.syms 0 (nentries t)) n (
      bsearch-IsAnswer (by_name name) t.syms (suc (nentries t)) 0 (nentries t)
        (IsNamed-IsPartitioned name t.syms n) (omega arith) (omega arith))
