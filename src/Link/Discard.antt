-- ===== src/Link/Discard.antt =====
-- Which sections are left after link-once sections were eliminated (bfdstuff.c, pmbfd/bfd.c).
use rtems_hzb_cexpsh.Base.{
  ℕ, zero, suc, ◌+◌, ◌≡◌, ◌<◌, Bool, true, false, not, ◌&&◌, ◌||◌, ◌==◌, if◌then◌else◌, Option,
  none, some, List, [], ◌∷◌, ◌++◌, length, arith, refl, sym, ap, subst, ◌∙◌, Bool-cases, inl, inr,
  length-append,
}
use rtems_hzb_cexpsh.Link.Groups.{
  Members, discard, discard_ring, discard_group, is_again, eliminate_linkonce, eliminate_all,
}

abbrev pub is_in : ℕ → List ℕ → Bool
is_in i [] = false
is_in i (x ∷ xs) = i == x || is_in i xs

abbrev pub Distinct : List ℕ → Type 0
Distinct [] = Unit
Distinct (x ∷ xs) = (is_in x xs ≡ false) × Distinct xs

-- From one section the chain goes through those sections to a last one.
abbrev pub IsPath : Members → ℕ → List ℕ → ℕ → Type 0
IsPath ms s [] e = (ms s).grp_next ≡ some e
IsPath ms s (g ∷ gs) e = ((ms s).grp_next ≡ some g) × IsPath ms g gs e

-- The ring of a group: the section of the group, its members, and back.
abbrev pub IsRing : Members → ℕ → List ℕ → Type 0
IsRing ms idx gs = (is_in idx gs ≡ false) × Distinct gs × IsPath ms idx gs idx

-- Two states of the sections that differ in `SEC_ALLOC` only, cleared where a test holds.
pub record IsCleared (test : ℕ → Bool) (ms ms' : Members) : Type 0 where
  pub alloc : (i : ℕ) → (ms' i).sect.alloc ≡ ((ms i).sect.alloc && not (test i))
  pub grp_next : (i : ℕ) → (ms' i).grp_next ≡ (ms i).grp_next
  pub group : (i : ℕ) → (ms' i).group ≡ (ms i).group
  pub link_once : (i : ℕ) → (ms' i).sect.link_once ≡ (ms i).sect.link_once
  pub name : (i : ℕ) → (ms' i).sect.name ≡ (ms i).sect.name

discard-IsCleared : (s : ℕ) (ms : Members) → IsCleared (λ i. i == s) ms (discard s ms)
discard-IsCleared s ms = record {
  alloc = λ i. ground arith;
  grp_next = λ i. ground arith;
  group = λ i. ground arith;
  link_once = λ i. ground arith;
  name = λ i. ground arith;
}

IsCleared-refl : (ms : Members) → IsCleared (λ i. false) ms ms
IsCleared-refl ms = record {
  alloc = λ i. ground arith;
  grp_next = λ i. refl;
  group = λ i. refl;
  link_once = λ i. refl;
  name = λ i. refl;
}

IsCleared-trans :
    (p q : ℕ → Bool) (ms ms' ms'' : Members)
    → IsCleared p ms ms'
    → IsCleared q ms' ms''
    → IsCleared (λ i. p i || q i) ms ms''
IsCleared-trans p q ms ms' ms'' a b = record {
  alloc = λ i. ground (arith, a.alloc i, b.alloc i);
  grp_next = λ i. b.grp_next i ∙ a.grp_next i;
  group = λ i. b.group i ∙ a.group i;
  link_once = λ i. b.link_once i ∙ a.link_once i;
  name = λ i. b.name i ∙ a.name i;
}

IsCleared-same :
    (p q : ℕ → Bool) (ms ms' : Members)
    → ((i : ℕ) → p i ≡ q i)
    → IsCleared p ms ms'
    → IsCleared q ms ms'
IsCleared-same p q ms ms' e a = record {
  alloc = λ i. a.alloc i ∙ ap (λ b. (ms i).sect.alloc && not b) (e i);
  grp_next = a.grp_next;
  group = a.group;
  link_once = a.link_once;
  name = a.name;
}

IsPath-kept :
    (ms ms' : Members)
    → ((i : ℕ) → (ms' i).grp_next ≡ (ms i).grp_next)
    → (s : ℕ) (gs : List ℕ) (e : ℕ) → IsPath ms s gs e
    → IsPath ms' s gs e
IsPath-kept ms ms' k s [] e p = k s ∙ p
IsPath-kept ms ms' k s (g ∷ gs) e p = (k s ∙ p.0, IsPath-kept ms ms' k g gs e p.1)

IsPath-on :
    (ms : Members) (s : ℕ) (gs : List ℕ) (e f : ℕ)
    → IsPath ms s gs e
    → (ms e).grp_next ≡ some f
    → IsPath ms s (gs ++ e ∷ []) f
IsPath-on ms s [] e f p h = (p, h)
IsPath-on ms s (g ∷ gs) e f p h = (p.0, IsPath-on ms g gs e f p.1 h)

same : (n : ℕ) → (n == n) ≡ true
same n = ground arith

ring_step :
    (fuel frst s n : ℕ) (ms : Members)
    → (ms s).grp_next ≡ some n
    → discard_ring (suc fuel) frst s ms
      ≡ (if n == frst then some (discard s ms) else discard_ring fuel frst n (discard s ms))
unfolding discard_ring
ring_step fuel frst s n ms h =
    let next : ℕ → Option Members =
      λ m. if m == frst then some (discard s ms) else discard_ring fuel frst m (discard s ms) in
    subst (λ o. elim o [ none ↦ none | some m ↦ next m ] ≡ next n) (sym h) refl

-- Walking from a section along a path that leads back to the first clears all of it.
ring-IsCleared :
    (fuel frst s : ℕ) (gs : List ℕ) (ms : Members)
    → length gs < fuel
    → is_in frst gs ≡ false
    → IsPath ms s gs frst
    → (ms' : Members) × (discard_ring fuel frst s ms ≡ some ms')
      × IsCleared (λ i. is_in i (s ∷ gs)) ms ms'
unfolding discard_ring
ring-IsCleared zero frst s gs ms h d p = absurd (omega (arith, h))
ring-IsCleared (suc fuel) frst s [] ms h d p = (
  discard s ms,
  ring_step fuel frst s frst ms p ∙ chosen,
  IsCleared-same (λ i. i == s) (λ i. is_in i (s ∷ [])) ms (discard s ms) (λ i. ground arith)
      (discard-IsCleared s ms),
)
  where
    chosen :
        (if frst == frst then some (discard s ms) else discard_ring fuel frst frst (discard s ms))
        ≡ some (discard s ms)
    chosen = rw (same frst) refl
ring-IsCleared (suc fuel) frst s (g ∷ gs) ms h d p =
    let one = discard-IsCleared s ms in
    let path = IsPath-kept ms (discard s ms) one.grp_next g gs frst p.1 in
    let other : (g == frst) ≡ false = ground (arith, d) in
    let (ms', e, c) =
      ring-IsCleared fuel frst g gs (discard s ms) (omega arith) (ground (arith, d)) path in
    (
      ms',
      ring_step fuel frst s g ms p.0
          ∙ ap (λ b. if b then some (discard s ms) else discard_ring fuel frst g (discard s ms))
              other
          ∙ e,
      IsCleared-trans (λ i. i == s) (λ i. is_in i (g ∷ gs)) ms (discard s ms) ms' one c,
    )

in-append : (i : ℕ) (xs : List ℕ) (y : ℕ) → is_in i (xs ++ y ∷ []) ≡ (i == y || is_in i xs)
in-append i [] y = refl
in-append i (x ∷ xs) y = ground (arith, in-append i xs y)

-- A whole group, from the section that the group's section points to.
group-IsCleared :
    (fuel idx : ℕ) (gs : List ℕ) (ms : Members)
    → length gs + 1 < fuel
    → IsRing ms idx gs
    → (ms' : Members) × (discard_group fuel (ms idx).grp_next ms ≡ some ms')
      × IsCleared (λ i. is_in i (idx ∷ gs)) ms ms'
unfolding discard_group
group-IsCleared fuel idx [] ms h r =
    let (ms', e, c) = ring-IsCleared fuel idx idx [] ms (omega arith) refl r.2 in
    (ms', ap (λ o. discard_group fuel o ms) r.2 ∙ e, c)
group-IsCleared fuel idx (g ∷ gs) ms h r =
    let longer : length (gs ++ idx ∷ []) < fuel = omega (arith, length-append gs (idx ∷ [])) in
    let fresh : is_in g (gs ++ idx ∷ []) ≡ false = ground (arith, r.0, r.1, in-append g gs idx) in
    let (ms', e, c) =
      ring-IsCleared fuel g g (gs ++ idx ∷ []) ms longer fresh
        (IsPath-on ms g gs idx g r.2.1 r.2.0) in
    (
      ms',
      ap (λ o. discard_group fuel o ms) r.2.0 ∙ e,
      IsCleared-same (λ i. is_in i (g ∷ gs ++ idx ∷ [])) (λ i. is_in i (idx ∷ g ∷ gs)) ms ms'
          (λ i. ground (arith, in-append i gs idx)) c,
    )

module _ (is_loaded : List ℕ → Bool) (members : ℕ → List ℕ) (ms : Members) where
  -- Whether the section with index `j` makes that with index `i` be discarded.
  abbrev pub drops : ℕ → ℕ → Bool
  drops j i = is_again is_loaded (ms j).sect && (i == j || (ms j).group && is_in i (members j))

  -- Whether one of the first sections does.
  abbrev pub dropped : ℕ → ℕ → Bool
  dropped zero i = false
  dropped (suc n) i = dropped n i || drops n i

  -- Every group among the first sections is a ring of less than so many.
  abbrev pub AreRings : ℕ → ℕ → Type 0
  AreRings fuel n =
      (j : ℕ)
      → j < n
      → (ms j).group ≡ true
      → (length (members j) + 1 < fuel) × IsRing ms j (members j)

  IsRing-kept :
      (ms' : Members)
      → ((i : ℕ) → (ms' i).grp_next ≡ (ms i).grp_next)
      → (j : ℕ) (gs : List ℕ) → IsRing ms j gs
      → IsRing ms' j gs
  IsRing-kept ms' k j gs r = (r.0, r.1, IsPath-kept ms ms' k j gs j r.2)

  chosen : Bool → Bool → Option Members → Members → Members → Option Members
  chosen again group whole alone now =
      if again then (if group then whole else some alone) else some now

  eliminate_chosen :
      (fuel n : ℕ) (test : ℕ → Bool) (now : Members) (again group : Bool)
      → IsCleared test ms now
      → is_again is_loaded (ms n).sect ≡ again
      → (ms n).group ≡ group
      → eliminate_linkonce is_loaded fuel n now
        ≡ chosen again group
            (discard_group fuel (now n).grp_next (discard n now))
            (discard n now)
            now
  unfolding eliminate_linkonce chosen
  eliminate_chosen fuel n test now again group c a g =
      let there : is_again is_loaded (now n).sect ≡ again =
        ground (arith, a, c.link_once n, c.name n) in
      let whole = discard_group fuel (now n).grp_next (discard n now) in
      ap (λ b. chosen b (now n).group whole (discard n now) now) there
      ∙ ap (λ b. chosen again b whole (discard n now) now) (c.group n ∙ g)

  eliminate_step :
      (fuel n : ℕ) (test : ℕ → Bool) (now : Members)
      → IsCleared test ms now
      → AreRings fuel (suc n)
      → (ms' : Members) × (eliminate_linkonce is_loaded fuel n now ≡ some ms')
        × IsCleared (λ i. drops n i) now ms'
  unfolding chosen
  eliminate_step fuel n test now c rings =
      let one = discard-IsCleared n now in
      elim (Bool-cases (is_again is_loaded (ms n).sect)) [
        | inr new ↦ (
          now,
          eliminate_chosen fuel n test now false (ms n).group c new refl,
          IsCleared-same (λ i. false) (λ i. drops n i) now now (λ i. ground (arith, new))
              (IsCleared-refl now),
        )
        | inl again ↦ elim (Bool-cases (ms n).group) [
          | inr alone ↦ (
            discard n now,
            eliminate_chosen fuel n test now true false c again alone,
            IsCleared-same (λ i. i == n) (λ i. drops n i) now (discard n now)
                (λ i. ground (arith, again, alone)) one,
          )
          | inl group ↦
              let (short, ring) = rings n (omega arith) group in
              let there =
                IsRing-kept (discard n now) (λ i. one.grp_next i ∙ c.grp_next i) n (members n)
                  ring in
              let (ms', e, d) = group-IsCleared fuel n (members n) (discard n now) short there in
              (
                ms',
                eliminate_chosen fuel n test now true true c again group
                    ∙ ap (λ o. discard_group fuel o (discard n now)) (sym (one.grp_next n))
                    ∙ e,
                IsCleared-same (λ i. i == n || is_in i (n ∷ members n)) (λ i. drops n i) now ms'
                    (λ i. ground (arith, again, group))
                    (IsCleared-trans (λ i. i == n) (λ i. is_in i (n ∷ members n)) now
                      (discard n now) ms' one d),
              )
        ]
      ]

  -- Where every group among the first sections is a ring of less sections than there is fuel, all
  -- loops over groups end, and what is left allocated of the file is what was allocated before, but
  -- for the link-once sections whose name is loaded already and the members of their groups.
  pub eliminate_all-IsCleared :
      (fuel n : ℕ)
      → AreRings fuel n
      → (ms' : Members) × (eliminate_all is_loaded fuel n ms ≡ some ms')
        × IsCleared (dropped n) ms ms'
  unfolding eliminate_all
  eliminate_all-IsCleared fuel zero rings = (ms, refl, IsCleared-refl ms)
  eliminate_all-IsCleared fuel (suc n) rings =
      let (now, e, c) = eliminate_all-IsCleared fuel n (λ j h. rings j (omega arith)) in
      let (ms', f, d) = eliminate_step fuel n (dropped n) now c rings in
      (
        ms',
        ap (λ o. elim o [ none ↦ none | some m ↦ eliminate_linkonce is_loaded fuel n m ]) e ∙ f,
        IsCleared-trans (dropped n) (drops n) ms now ms' c d,
      )
