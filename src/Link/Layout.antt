-- ===== src/Link/Layout.antt =====
-- The counted size of a segment is enough for the sections that bfdstuff.c places in it.
use rtems_hzb_cexpsh.Base.{
  ℕ, suc, ◌+◌, ◌-◌, ◌%◌, ◌^◌, ◌≤◌, ◌<◌, ◌≡◌, ◌⊎◌, inl, inr, refl, sym, subst, Bool, true, false,
  not, ◌&&◌, ◌==◌, if◌then◌else◌, Option, none, List, [], ◌∷◌, Bool-cases, ◌∙◌, arith,
}
use rtems_hzb_cexpsh.Link.{
  Section, word, align_power, is_eh, Count, Place, at_eh, s_setvma, place_sections, count_all,
  lay_out,
}
use rtems_hzb_cexpsh.Link.Align.{align_power-bounds}
use rtems_hzb_cexpsh.Link.Counting.{
  share, needed, EhAgrees, count_sections-needed, count_sections-EhAgrees,
}

module _ (match : Section → ℕ) where
  abbrev pub loaded : ℕ → Section → Bool
  loaded g s = s.alloc && (match s == g) && not (s.size == 0)

  -- The sections of a segment that have a size, one behind the other from `lo` to `hi`, each aligned.
  abbrev pub Placed : ℕ → ℕ → ℕ → List Section → Type 0
  Placed g lo hi [] = lo ≤ hi
  Placed g lo hi (s ∷ ss) =
      if loaded g s
      then (lo ≤ s.vma) × (s.vma % 2 ^ s.align ≡ 0) × Placed g (s.vma + s.size) hi ss
      else Placed g lo hi ss

  Placed-here :
      (g lo hi : ℕ) (s : Section) (ss : List Section)
      → loaded g s ≡ true
      → lo ≤ s.vma
      → s.vma % 2 ^ s.align ≡ 0
      → Placed g (s.vma + s.size) hi ss
      → Placed g lo hi (s ∷ ss)
  Placed-here g lo hi s ss here le even rest =
      subst
        (λ b.
          if b
          then (lo ≤ s.vma) × (s.vma % 2 ^ s.align ≡ 0) × Placed g (s.vma + s.size) hi ss
          else Placed g lo hi ss)
        (sym here) (le, even, rest)

  Placed-other :
      (g lo hi : ℕ) (s : Section) (ss : List Section)
      → loaded g s ≡ false
      → Placed g lo hi ss
      → Placed g lo hi (s ∷ ss)
  Placed-other g lo hi s ss other rest =
      subst
        (λ b.
          if b
          then (lo ≤ s.vma) × (s.vma % 2 ^ s.align ≡ 0) × Placed g (s.vma + s.size) hi ss
          else Placed g lo hi ss)
        (sym other) rest

  Placed-lower :
      (g lo lo' hi : ℕ) (ss : List Section) → lo ≤ lo' → Placed g lo' hi ss → Placed g lo hi ss
  Placed-lower g lo lo' hi [] le p = omega (arith, le, p)
  Placed-lower g lo lo' hi (s ∷ ss) le p =
      let Out : Bool → Type 0 = λ b.
        if b
        then (lo' ≤ s.vma) × (s.vma % 2 ^ s.align ≡ 0) × Placed g (s.vma + s.size) hi ss
        else Placed g lo' hi ss in
      elim (Bool-cases (loaded g s)) [
        | inl here ↦
            let (above, even, rest) = subst Out here p in
            Placed-here g lo hi s ss here (omega (arith, le, above)) even rest
        | inr other ↦
            Placed-other g lo hi s ss other (Placed-lower g lo lo' hi ss le (subst Out other p))
      ]

  module _ (blind : (s : Section) (v : ℕ) → match (record s { vma = v }) ≡ match s) where
    -- What a section of another segment, or of none, does to a segment.
    s_setvma-other :
        (eh : Option ℕ) (i g : ℕ) (s : Section) (p : Place match)
        → loaded g s ≡ false
        → ((s_setvma match eh i s p).1.vmacalc g ≡ p.vmacalc g)
          × (loaded g (s_setvma match eh i s p).0 ≡ false)
    unfolding s_setvma
    s_setvma-other eh i g s p other =
        ground (arith, other, blind s (align_power (p.vmacalc (match s)) s.align % word))

    -- What a section does to its segment, while that has room.
    s_setvma-here :
        (eh : Option ℕ) (i g hi : ℕ) (s : Section) (p : Place match)
        → (at_eh match eh i ≡ true → is_eh s && s.alloc ≡ true)
        → loaded g s ≡ true
        → p.vmacalc g + share match g s ≤ hi
        → hi < word - 1
        → (loaded g (s_setvma match eh i s p).0 ≡ true)
          × ((s_setvma match eh i s p).0.vma ≡ align_power (p.vmacalc g) s.align)
          × ((s_setvma match eh i s p).0.align ≡ s.align)
          × ((s_setvma match eh i s p).0.size ≡ s.size)
          × (align_power (p.vmacalc g) s.align + s.size ≤ (s_setvma match eh i s p).1.vmacalc g)
          × ((s_setvma match eh i s p).1.vmacalc g ≤ p.vmacalc g + share match g s)
    unfolding s_setvma
    s_setvma-here eh i g hi s p agrees here room small = ground (
      arith,
      here,
      agrees,
      room,
      small,
      align_power-bounds (p.vmacalc g) s.align,
      blind s (align_power (p.vmacalc (match s)) s.align % word),
    )

    place_sections-Placed :
        (eh : Option ℕ) (i g hi : ℕ) (ss : List Section) (p : Place match)
        → EhAgrees match eh i ss
        → p.vmacalc g + needed match g ss ≤ hi
        → hi < word - 1
        → Placed g (p.vmacalc g) hi (place_sections match eh i ss p).0
    unfolding place_sections
    place_sections-Placed eh i g hi [] p agrees room small = omega (arith, room)
    place_sections-Placed eh i g hi (s ∷ ss) p agrees room small =
        let s' = (s_setvma match eh i s p).0 in
        let p' = (s_setvma match eh i s p).1 in
        elim (Bool-cases (loaded g s)) [
          | inl here ↦
              let (still, at, aligned, same, over, under) =
                s_setvma-here eh i g hi s p agrees.0 here (omega (arith, room)) small in
              let (up, bound, even) = align_power-bounds (p.vmacalc g) s.align in
              Placed-here g (p.vmacalc g) hi s' (place_sections match eh (suc i) ss p').0 still
                (omega (arith, at, up)) (rw (at, aligned) even)
                (Placed-lower g (s'.vma + s'.size) (p'.vmacalc g) hi
                  (place_sections match eh (suc i) ss p').0 (omega (arith, at, same, over))
                  (place_sections-Placed eh (suc i) g hi ss p' agrees.1 (omega (arith, room, under))
                    small))
          | inr other ↦
              let (same, still) = s_setvma-other eh i g s p other in
              Placed-other g (p.vmacalc g) hi s' (place_sections match eh (suc i) ss p').0 still (
                subst (λ v. Placed g v hi (place_sections match eh (suc i) ss p').0) same
                  (place_sections-Placed eh (suc i) g hi ss p' agrees.1 (omega (arith, room, same))
                    small))
        ]

    -- Nothing is needed of a segment, or it has room for what is.
    abbrev HasRoom : List Section → Place match → Type 0
    HasRoom ss p = (g : ℕ) → (needed match g ss ≡ 0) ⊎ (p.vmacalc g + needed match g ss < word - 1)

    s_setvma-HasRoom :
        (eh : Option ℕ) (i : ℕ) (s : Section) (ss : List Section) (p : Place match)
        → (at_eh match eh i ≡ true → is_eh s && s.alloc ≡ true)
        → HasRoom (s ∷ ss) p
        → HasRoom ss (s_setvma match eh i s p).1
    s_setvma-HasRoom eh i s ss p agrees room g = elim (room g) [
      | inl none_needed ↦ inl (omega (arith, none_needed))
      | inr fits ↦ elim (Bool-cases (loaded g s)) [
        | inl here ↦
            let (still, at, aligned, same, over, under) =
              s_setvma-here eh i g (p.vmacalc g + share match g s) s p agrees here (omega arith)
                (omega (arith, fits)) in
            inr (omega (arith, fits, under))
        | inr other ↦
            let (same, still) = s_setvma-other eh i g s p other in inr (omega (arith, fits, same))
      ]
    ]

    s_setvma-errors :
        (eh : Option ℕ) (i : ℕ) (s : Section) (ss : List Section) (p : Place match)
        → HasRoom (s ∷ ss) p
        → (s_setvma match eh i s p).1.errors ≡ p.errors
    unfolding s_setvma
    s_setvma-errors eh i s ss p room = ground (arith, room (match s))

    place_sections-errors :
        (eh : Option ℕ) (i : ℕ) (ss : List Section) (p : Place match)
        → EhAgrees match eh i ss
        → HasRoom ss p
        → (place_sections match eh i ss p).1.errors ≡ p.errors
    unfolding place_sections
    place_sections-errors eh i [] p agrees room = refl
    place_sections-errors eh i (s ∷ ss) p agrees room =
        place_sections-errors eh (suc i) ss (s_setvma match eh i s p).1 agrees.1
          (s_setvma-HasRoom eh i s ss p agrees.0 room)
        ∙ s_setvma-errors eh i s ss p room

    -- Take a segment whose memory is at a nonzero address and has the counted size, all below the last
    -- address, where the size that its sections need is below the width of a word, and a choice of
    -- segments that does not look at a section's address. Then the counted size is the one needed, and the
    -- sections of the segment that have a size lie in its memory in their order, none over another, each
    -- at a multiple of its alignment.
    pub lay_out-Placed :
        (ss : List Section) (chunks : ℕ → ℕ) (g : ℕ)
        → needed match g ss < word
        → 0 < chunks g
        → chunks g + (count_all match ss).sizes g < word - 1
        → ((count_all match ss).sizes g ≡ needed match g ss)
          × Placed g
              (chunks g)
              (chunks g + (count_all match ss).sizes g)
              (lay_out match ss chunks).0
    unfolding lay_out count_all
    lay_out-Placed ss chunks g fits memory small =
        let c0 : Count = record { sizes = λ g. 0; eh_section = none; errors = 0 } in
        let size = count_sections-needed match 0 g ss c0 (omega (arith, fits)) in
        let p0 : Place match = record {
          vmacalc = λ g. if chunks g == 0 then word - 1 else chunks g;
          errors = 0;
        } in
        let start : p0.vmacalc g ≡ chunks g = ground (arith, memory) in
        (
          omega (arith, size),
          subst
              (λ v.
                Placed g v (chunks g + (count_all match ss).sizes g)
                  (place_sections match (count_all match ss).eh_section 0 ss p0).0)
              start
              (place_sections-Placed (count_all match ss).eh_section 0 g
                (chunks g + (count_all match ss).sizes g) ss p0
                (count_sections-EhAgrees match 0 ss c0 (λ j le. refl)) (omega (arith, start, size))
                small),
        )

    -- If every segment either is not needed or has the memory that is counted for it below the last
    -- address, then no section finds its segment without memory: the layout reports no error.
    pub lay_out-errors :
        (ss : List Section) (chunks : ℕ → ℕ)
        → ((g : ℕ)
            → (needed match g ss ≡ 0)
              ⊎ ((0 < chunks g) × (chunks g + needed match g ss < word - 1)))
        → (lay_out match ss chunks).1.errors ≡ 0
    unfolding lay_out count_all
    lay_out-errors ss chunks room =
        let c0 : Count = record { sizes = λ g. 0; eh_section = none; errors = 0 } in
        let p0 : Place match = record {
          vmacalc = λ g. if chunks g == 0 then word - 1 else chunks g;
          errors = 0;
        } in
        place_sections-errors (count_all match ss).eh_section 0 ss p0
          (count_sections-EhAgrees match 0 ss c0 (λ j le. refl))
          (λ g. elim (room g) [
            | inl e ↦ inl e
            | inr (memory, fits) ↦ inr (ground (arith, memory, fits))
          ])
