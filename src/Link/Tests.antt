-- ===== src/Link/Tests.antt =====
-- Runs of the layout of bfdstuff.c, and its theorems at them.
use rtems_hzb_cexpsh.Base.{ℕ, ◌+◌, ◌≡◌, refl, Bool, true, false, List, [], ◌∷◌, map, arith, strcmp}
use rtems_hzb_cexpsh.Link.{
  Section, segs_match_powerpc, eh_section_name, is_eh, is_dangerous, s_count, count_sections,
  count_all, s_setvma, place_sections, lay_out,
}
use rtems_hzb_cexpsh.Link.Layout.{Placed, lay_out-Placed}

abbrev section : List ℕ → Bool → ℕ → ℕ → Section
section name code size align = record {
  name = name;
  code = code;
  alloc = true;
  link_once = false;
  size = size;
  align = align;
  vma = 0;
}

-- Code, data that is not a multiple of its neighbour's alignment, and a table that is ended with a 0.
abbrev sections : List Section
sections =
    section (b't' ∷ []) true 10 2
    ∷ section (b'd' ∷ []) false 5 0
    ∷ section eh_section_name false 8 2
    ∷ section (b'b' ∷ []) false 3 4
    ∷ []

abbrev chunks : ℕ → ℕ
chunks g = 4098

vmas :
    map (λ s. s.vma) (lay_out segs_match_powerpc sections chunks).0 ≡ 4100 ∷ 4098 ∷ 4104 ∷ 4128 ∷ []
unfolding lay_out count_all count_sections place_sections s_count s_setvma is_eh is_dangerous strcmp
vmas = refl

lay_out-Placed_example :
    ((count_all segs_match_powerpc sections).sizes 1 ≡ 38)
    × Placed segs_match_powerpc 1 4098
        (4098 + (count_all segs_match_powerpc sections).sizes 1)
        (lay_out segs_match_powerpc sections chunks).0
unfolding count_all count_sections s_count is_eh is_dangerous strcmp
lay_out-Placed_example =
    lay_out-Placed segs_match_powerpc (λ s v. refl) sections chunks 1 (omega arith) (omega arith)
      (omega arith)
