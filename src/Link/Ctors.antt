-- ===== src/Link/Ctors.antt =====
-- `isCtorDtor` and `buildCtorsDtors` of bfdstuff.c: the static constructors and destructors of a module.
-- The pattern is compiled by the regular expression library: where a match of it ends in a name. `qsort`
-- is a parameter; `ctor_cmp` orders elements of one priority by where they stand in the array, which
-- is not an order that `qsort` may rely on, so nothing is said of lists with such elements.
use rtems_hzb_cexpsh.Base.{
  ℕ, ◌+◌, ◌*◌, ◌-◌, ◌%◌, ◌^◌, ◌≤◌, ◌<◌, ◌≡◌, Bool, not, ◌&&◌, ltb, leb, ◌==◌, if◌then◌else◌, Option,
  none, some, List, [], ◌∷◌, ◌++◌, length, drop, map, All,
}
use mathlib.Core.List.{Perm, Pairwise, reverse}
use rtems_hzb_cexpsh.Link.Resolve.{Asym, common}
use rtems_hzb_cexpsh.Link.{word}

abbrev pub Pattern : Type 0
Pattern = List ℕ → Option ℕ

-- `INIT_PRIO_NONE`
abbrev pub init_prio_none : ℕ
init_prio_none = 1000000

abbrev pub is_digit : ℕ → Bool
is_digit c = leb b'0' c && leb c b'9'

-- `atoi` of the C library, on a string that begins with a digit.
unfoldable pub atoi : ℕ → List ℕ → ℕ
atoi n [] = n
atoi n (c ∷ cs) = let more = atoi (n * 10 + (c - b'0')) cs in if is_digit c then more else n

unfoldable pub priority : List ℕ → ℕ
unfolding atoi
priority [] = init_prio_none
priority (c ∷ cs) = if is_digit c then atoi 0 (c ∷ cs) else init_prio_none

pub data CtorKind : Type 0 where
  ctor : ℕ → CtorKind
  dtor : ℕ → CtorKind
  neither : CtorKind

-- By the letter two before the end of the match.
unfoldable pub kind_by : Option ℕ → ℕ → CtorKind
kind_by none pri = neither
kind_by (some letter) pri =
    if letter == b'I' then ctor pri else if letter == b'D' then dtor pri else neither

abbrev pub first : List ℕ → Option ℕ
first [] = none
first (c ∷ cs) = some c

-- `isCtorDtor`, with the priority; a match of the pattern is longer than two bytes.
unfoldable pub is_ctor_dtor : Pattern → List ℕ → CtorKind
unfolding kind_by priority
is_ctor_dtor ends name = elim (ends name) [
  | none ↦ neither
  | some tail ↦ kind_by (first (drop (tail - 2) name)) (priority (drop tail name))
]

-- `bfd_asymbol_value`, where `vma` gives the address of the section of a symbol.
abbrev pub asymbol_value : (Asym → ℕ) → Asym → ℕ
asymbol_value vma sp = elim sp.home [ common ↦ sp.size | _ ↦ (vma sp + sp.value) % word ]

-- `CtorSymRec`
pub record CtorSym : Type 0 where
  pub sym : Asym
  pub pri : ℕ

-- A comparator, of two elements at two places of the array: an `int`, as a word.
abbrev pub Comparator : Type 0
Comparator = ℕ → ℕ → CtorSym → CtorSym → ℕ

-- `ctor_cmp`
unfoldable pub ctor_cmp : Comparator
ctor_cmp a b sa sb =
    let diff = (sa.pri + word - sb.pri) % word in
    if not (diff == 0) then diff else (a + word - b) % word

-- The sign of an answer is that of the difference of two keys.
pub record Says (p q answer : ℕ) : Type 0 where
  pub below : p < q → 2 ^ 31 ≤ answer
  pub above : q < p → (0 < answer) × (answer < 2 ^ 31)
  pub level : p ≡ q → answer ≡ 0

-- A comparator orders two elements by a key, in either direction and wherever they stand.
abbrev pub Ranks : Comparator → (CtorSym → ℕ) → CtorSym → CtorSym → Type 0
Ranks cmp key x y =
    (a b : ℕ) → Says (key x) (key y) (cmp a b x y) × Says (key y) (key x) (cmp b a y x)

-- And so all elements of a list: what the C standard demands of a comparator.
abbrev pub AreRanked : Comparator → (CtorSym → ℕ) → List CtorSym → Type 0
AreRanked cmp key [] = Unit
AreRanked cmp key (x ∷ xs) = All (Ranks cmp key x) xs × AreRanked cmp key xs

abbrev pub Qsort : Type 0
Qsort = Comparator → List CtorSym → List CtorSym

-- What `qsort` promises for such a comparator.
pub record IsQsort (qsort : Qsort) : Type 0 where
  pub sorts :
      (cmp : Comparator) (key : CtorSym → ℕ) (l : List CtorSym)
      → AreRanked cmp key l
      → Perm (qsort cmp l) l × Pairwise (λ a b. key a ≤ key b) (qsort cmp l)

-- A round of the loop over the symbols, with what it has found so far; none where an assertion fails.
unfoldable pub note_ctor :
    ℕ → ℕ → CtorKind → Asym → List CtorSym → List CtorSym → Option (List CtorSym × List CtorSym)
note_ctor n_ctors n_dtors neither sp cs ds = some (cs, ds)
note_ctor n_ctors n_dtors (ctor p) sp cs ds =
    if ltb (length cs) n_ctors then some (cs ++ record { sym = sp; pri = p } ∷ [], ds) else none
note_ctor n_ctors n_dtors (dtor p) sp cs ds =
    if ltb (length ds) n_dtors then some (cs, ds ++ record { sym = sp; pri = p } ∷ []) else none

module _ (ends : Pattern) (qsort : Qsort) (vma : Asym → ℕ) where
  -- The loop.
  unfoldable pub collect_ctors :
      ℕ → ℕ → List Asym → List CtorSym → List CtorSym → Option (List CtorSym × List CtorSym)
  unfolding is_ctor_dtor note_ctor
  collect_ctors n_ctors n_dtors [] cs ds = some (cs, ds)
  collect_ctors n_ctors n_dtors (sp ∷ sps) cs ds =
      elim (note_ctor n_ctors n_dtors (is_ctor_dtor ends sp.name) sp cs ds) [
        | none ↦ none
        | some r ↦ collect_ctors n_ctors n_dtors sps r.0 r.1
      ]

  -- `buildCtorsDtors`: the two lists of addresses, the destructors' in inverse order.
  unfoldable pub build_ctors_dtors : ℕ → ℕ → List Asym → Option (List ℕ × List ℕ)
  unfolding collect_ctors
  build_ctors_dtors n_ctors n_dtors st = elim (collect_ctors n_ctors n_dtors st [] []) [
    | none ↦ none
    | some r ↦
        let calls = map (λ (c : CtorSym). asymbol_value vma c.sym) in
        if length r.0 == n_ctors && length r.1 == n_dtors
        then some (calls (qsort ctor_cmp r.0), calls (reverse (qsort ctor_cmp r.1)))
        else none
  ]
