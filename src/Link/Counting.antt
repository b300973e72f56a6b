-- ===== src/Link/Counting.antt =====
-- What bfdstuff.c counts for a segment: the size, and the section that gets a terminating 0.
use rtems_hzb_cexpsh.Base.{
  ℕ, suc, ◌+◌, ◌-◌, ◌^◌, ◌≤◌, ◌<◌, ◌≡◌, true, false, ◌&&◌, ◌==◌, if◌then◌else◌, Option, List, [],
  ◌∷◌, arith,
}
use rtems_hzb_cexpsh.Link.{Section, word, is_eh, Count, at_eh, s_count, count_sections}

module _ (match : Section → ℕ) where
  -- What a section takes of a segment at most.
  abbrev pub share : ℕ → Section → ℕ
  share g s =
      if s.alloc && (match s == g) then 2 ^ s.align - 1 + s.size + (if is_eh s then 4 else 0) else 0

  abbrev pub needed : ℕ → List Section → ℕ
  needed g [] = 0
  needed g (s ∷ ss) = share g s + needed g ss

  s_count-sizes :
      (i g : ℕ) (s : Section) (c : Count)
      → c.sizes g + share g s < word
      → (s_count match i s c).sizes g ≡ c.sizes g + share g s
  unfolding s_count
  s_count-sizes i g s c small = ground (arith, small)

  pub count_sections-needed :
      (i g : ℕ) (ss : List Section) (c : Count)
      → c.sizes g + needed g ss < word
      → (count_sections match i ss c).sizes g ≡ c.sizes g + needed g ss
  unfolding count_sections
  count_sections-needed i g [] c small = omega arith
  count_sections-needed i g (s ∷ ss) c small =
      let one = s_count-sizes i g s c (omega (arith, small)) in
      omega (
        arith,
        one,
        count_sections-needed (suc i) g ss (s_count match i s c) (omega (arith, one, small)),
      )

  -- Only sections that need the extra bytes have the index of `eh_section`.
  abbrev pub EhAgrees : Option ℕ → ℕ → List Section → Type 0
  EhAgrees eh i [] = Unit
  EhAgrees eh i (s ∷ ss) =
      (at_eh match eh i ≡ true → is_eh s && s.alloc ≡ true) × EhAgrees eh (suc i) ss

  -- No index from `i` on is that of `eh_section` yet.
  abbrev IsOlder : Option ℕ → ℕ → Type 0
  IsOlder eh i = (j : ℕ) → i ≤ j → at_eh match eh j ≡ false

  s_count-IsOlder :
      (i : ℕ) (s : Section) (c : Count)
      → IsOlder c.eh_section i
      → IsOlder (s_count match i s c).eh_section (suc i)
  unfolding s_count
  s_count-IsOlder i s c old j le = ground (arith, old j (omega (arith, le)), le)

  -- What is counted later leaves the earlier indices alone.
  count_sections-earlier :
      (i k : ℕ) (ss : List Section) (c : Count)
      → k < i
      → at_eh match (count_sections match i ss c).eh_section k ≡ true
      → at_eh match c.eh_section k ≡ true
  unfolding count_sections s_count
  count_sections-earlier i k [] c le h = h
  count_sections-earlier i k (s ∷ ss) c le h =
      ground
        (arith, count_sections-earlier (suc i) k ss (s_count match i s c) (omega (arith, le)) h, le)

  pub count_sections-EhAgrees :
      (i : ℕ) (ss : List Section) (c : Count)
      → IsOlder c.eh_section i
      → EhAgrees (count_sections match i ss c).eh_section i ss
  unfolding count_sections s_count
  count_sections-EhAgrees i [] c old = tt
  count_sections-EhAgrees i (s ∷ ss) c old = (
    (λ h. ground (
      arith,
      old i (omega arith),
      count_sections-earlier (suc i) i ss (s_count match i s c) (omega arith) h,
    )),
    count_sections-EhAgrees (suc i) ss (s_count match i s c) (s_count-IsOlder i s c old),
  )
