-- ===== src/Link/Rings.antt =====
-- The groups of sections that bfd.c of pmbfd chains.
use rtems_hzb_cexpsh.Base.{
  ℕ, ◌≡◌, ◌<◌, false, ◌||◌, leb, ◌==◌, if◌then◌else◌, none, some, List, [], ◌∷◌, All, arith, refl,
  ap, ◌∙◌,
}
use rtems_hzb_cexpsh.Link.Groups.{Members, change, link_group}
use rtems_hzb_cexpsh.Link.Discard.{is_in, Distinct, IsPath, IsRing}

-- What chaining leaves: the path, and all other sections, and of each section all but its successor.
pub record IsChained (ms ms' : Members) (s : ℕ) (gs : List ℕ) (e : ℕ) : Type 0 where
  pub path : IsPath ms' s gs e
  pub others : (i : ℕ) → is_in i (s ∷ gs) ≡ false → ms' i ≡ ms i
  pub same_sect : (i : ℕ) → (ms' i).sect ≡ (ms i).sect
  pub same_group : (i : ℕ) → (ms' i).group ≡ (ms i).group

chained :
    (nshdrs idx s : ℕ) (gs : List ℕ) (ms : Members)
    → is_in s gs ≡ false
    → Distinct gs
    → All (λ g. (0 < g) × (g < nshdrs)) gs
    → (ms' : Members) × (link_group nshdrs idx s gs ms ≡ some ms') × IsChained ms ms' s gs idx
unfolding link_group
chained nshdrs idx s [] ms d k b = (
  change ms s (record (ms s) { grp_next = some idx }),
  refl,
  record {
    path = ground arith;
    others = λ i h. ground (arith, h);
    same_sect = λ i. ground arith;
    same_group = λ i. ground arith;
  },
)
chained nshdrs idx s (g ∷ gs) ms d k b =
    let mid = change ms s (record (ms s) { grp_next = some g }) in
    let (ms', e, c) = chained nshdrs idx g gs mid k.0 k.1 b.1 in
    let inside : (g == 0 || leb nshdrs g) ≡ false = ground (arith, b.0) in
    let mid_s : (mid s).grp_next ≡ some g = ground arith in
    let kept : (ms' s).grp_next ≡ (mid s).grp_next = ap (λ m. m.grp_next) (c.others s d) in
    (
      ms',
      ap (λ t. if t then none else link_group nshdrs idx g gs mid) inside ∙ e,
      record {
        path = (kept ∙ mid_s, c.path);
        others = λ i h. c.others i (ground (arith, h)) ∙ ground (arith, h);
        same_sect = λ i. c.same_sect i ∙ ground arith;
        same_group = λ i. c.same_group i ∙ ground arith;
      },
    )

-- Chaining a group whose members differ from each other and from the section of the group, and are
-- sections of the file, succeeds and makes a ring of them; no other section changes, and of these only
-- their successor.
pub link_group-IsRing :
    (nshdrs idx : ℕ) (gs : List ℕ) (ms : Members)
    → is_in idx gs ≡ false
    → Distinct gs
    → All (λ g. (0 < g) × (g < nshdrs)) gs
    → (ms' : Members) × (link_group nshdrs idx idx gs ms ≡ some ms')
      × IsRing ms' idx gs
      × IsChained ms ms' idx gs idx
link_group-IsRing nshdrs idx gs ms d k b =
    let (ms', e, c) = chained nshdrs idx idx gs ms d k b in (ms', e, (d, k, c.path), c)
