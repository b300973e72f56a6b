-- ===== src/Link/Groups.antt =====
-- Sections that are to be linked once: `s_eliminate_linkonce` of bfdstuff.c, and how bfd.c of pmbfd
-- chains the sections of a group. A section is named by the index of its header.
use rtems_hzb_cexpsh.Base.{
  ℕ, zero, suc, Bool, false, ◌&&◌, ◌||◌, leb, ◌==◌, if◌then◌else◌, Option, none, some, List, [],
  ◌∷◌,
}
use rtems_hzb_cexpsh.Link.{Section}

-- An `asection` with what belongs to groups: the flag `SEC_GROUP`, and `grp_next`, none for `GRP_NULL`.
pub record Member : Type 0 where
  pub sect : Section
  pub group : Bool
  pub grp_next : Option ℕ

-- The sections of a file, by their index.
abbrev pub Members : Type 0
Members = ℕ → Member

abbrev pub change : Members → ℕ → Member → Members
change ms at m i = if i == at then m else ms i

-- The loop over the members of a group, from one section on, up to the closing of the ring; none where
-- a member's index is out of bounds.
unfoldable pub link_group : ℕ → ℕ → ℕ → List ℕ → Members → Option Members
link_group nshdrs idx s [] ms = some (change ms s (record (ms s) { grp_next = some idx }))
link_group nshdrs idx s (g ∷ gs) ms =
    let rest = link_group nshdrs idx g gs (change ms s (record (ms s) { grp_next = some g })) in
    if g == 0 || leb nshdrs g then none else rest

-- Clearing `SEC_ALLOC`.
abbrev pub discard : ℕ → Members → Members
discard s ms = change ms s (record (ms s) { sect = record (ms s).sect { alloc = false } })

-- The loop over a group, from a member on; none where the fuel does not do. `GRP_NULL` is the index of
-- the undefined section, which is its own successor, so from there the loop does not come to its end.
unfoldable pub discard_ring : ℕ → ℕ → ℕ → Members → Option Members
discard_ring zero frst s ms = none
discard_ring (suc fuel) frst s ms = elim (ms s).grp_next [
  | none ↦ none
  | some n ↦
      let rest = discard_ring fuel frst n (discard s ms) in
      if n == frst then some (discard s ms) else rest
]

-- From the undefined section, whose flags are left out here, the loop comes back to it at once.
unfoldable pub discard_group : ℕ → Option ℕ → Members → Option Members
unfolding discard_ring
discard_group fuel none ms = some ms
discard_group fuel (some frst) ms = discard_ring fuel frst frst ms

-- Whether the section is linked once and its name is among the symbols that are loaded already.
abbrev pub is_again : (List ℕ → Bool) → Section → Bool
is_again is_loaded s = s.link_once && is_loaded s.name

-- `s_eliminate_linkonce`
unfoldable pub eliminate_linkonce : (List ℕ → Bool) → ℕ → ℕ → Members → Option Members
unfolding discard_group
eliminate_linkonce is_loaded fuel i ms =
    let whole = discard_group fuel (ms i).grp_next (discard i ms) in
    if is_again is_loaded (ms i).sect
    then if (ms i).group then whole else some (discard i ms)
    else some ms

-- `bfd_map_over_sections` with it, for so many sections.
unfoldable pub eliminate_all : (List ℕ → Bool) → ℕ → ℕ → Members → Option Members
unfolding eliminate_linkonce
eliminate_all is_loaded fuel zero ms = some ms
eliminate_all is_loaded fuel (suc n) ms = elim (eliminate_all is_loaded fuel n ms) [
  | none ↦ none
  | some ms' ↦ eliminate_linkonce is_loaded fuel n ms'
]
