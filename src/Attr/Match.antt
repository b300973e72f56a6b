-- ===== src/Attr/Match.antt =====
-- `pmelf_ppc_file_attributes_match` of pmbfd/att-gnu-powerpc.c and, of attpbfasmatch.c,
-- `pmelf_pub_file_attributes_match_compat`: whether they give 0.
use rtems_hzb_cexpsh.Base.{
  ℕ, zero, suc, ◌^◌, Bool, true, false, not, ◌&&◌, ◌||◌, ltb, ◌==◌, if◌then◌else◌, Option, none,
  some, List, [], ◌∷◌, str_eq,
}
use rtems_hzb_cexpsh.Attr.{
  Att, Value, Table, get_tag_val, tag_compat, tag_fp, tag_vector, tag_struct_return, gnu,
}

-- `gnu_ppc_unknown`: a tag that is negative as an `int` counts as known.
unfoldable pub gnu_ppc_unknown : ℕ → Bool
gnu_ppc_unknown tag =
    not (tag == tag_compat || tag == tag_fp || tag == tag_vector || tag == tag_struct_return)
    && ltb tag (2 ^ 31)

-- The loops of `filter_gnu_ppc_unknown`, over the tags below a bound and over the list.
unfoldable pub unknown_below : ℕ → (ℕ → ℕ) → Bool
unfolding gnu_ppc_unknown
unknown_below zero map = false
unknown_below (suc n) map = unknown_below n map || not (map n == 0) && gnu_ppc_unknown n

unfoldable pub unknown_in : List Att → Bool
unfolding gnu_ppc_unknown
unknown_in [] = false
unknown_in (x ∷ xs) = gnu_ppc_unknown x.tag || unknown_in xs

-- `filter_gnu_ppc_unknown`: whether it finds an unknown tag.
unfoldable pub filter_gnu_ppc_unknown : Table → Bool
unfolding unknown_below unknown_in
filter_gnu_ppc_unknown t = unknown_below (suc t.pv.max_tag) t.map || unknown_in t.lst

-- `find_compat`: the list from the first such element on.
unfoldable pub find_compat : List Att → List Att
find_compat [] = []
find_compat (x ∷ xs) = if x.tag == tag_compat then x ∷ xs else find_compat xs

-- Whether a string is there and is "gnu".
abbrev pub is_gnu : Option (List ℕ) → Bool
is_gnu none = false
is_gnu (some s) = str_eq gnu s

-- `filter_nongnu`: whether it does not give -1.
unfoldable pub filter_nongnu : List Att → Bool
filter_nongnu [] = true
filter_nongnu (x ∷ xs) =
    let rest = filter_nongnu xs in
    if not (x.tag == tag_compat)
    then true
    else if ltb 0 x.val.i && not (is_gnu x.val.s)
    then false
    else rest

-- The inner loop of `filter_gt1`: whether it finds the flag.
unfoldable pub has_flag : ℕ → List Att → Bool
has_flag flg [] = false
has_flag flg (x ∷ xs) =
    let rest = has_flag flg xs in
    if not (x.tag == tag_compat) then false else if flg == x.val.i then true else rest

-- `filter_gt1`: whether it gives 0.
unfoldable pub filter_gt1 : List Att → List Att → Bool
unfolding has_flag
filter_gt1 [] bs = true
filter_gt1 (x ∷ xs) bs =
    let rest = filter_gt1 xs bs in
    if not (x.tag == tag_compat)
    then true
    else if ltb 1 x.val.i && not (has_flag x.val.i bs)
    then false
    else rest

-- `pmelf_pub_file_attributes_match_compat`
unfoldable pub match_compat : Table → Table → Bool
unfolding find_compat filter_nongnu filter_gt1
match_compat a b =
    let xs = find_compat a.lst in
    let ys = find_compat b.lst in
    filter_nongnu xs && filter_nongnu ys && filter_gt1 xs ys && filter_gt1 ys xs

-- The values of one tag: in neither table, or in both and equal where none is 0. A value above the
-- highest that is known brings a message only.
unfoldable pub values_agree : Option Value → Option Value → Bool
values_agree none none = true
values_agree none (some vb) = false
values_agree (some va) none = false
values_agree (some va) (some vb) = va.i == vb.i || va.i == 0 || vb.i == 0

-- The loop over `gnu_ppc_atts`.
unfoldable pub match_tags : List ℕ → Table → Table → Bool
unfolding values_agree get_tag_val
match_tags [] a b = true
match_tags (tag ∷ tags) a b =
    values_agree (get_tag_val a tag) (get_tag_val b tag) && match_tags tags a b

-- `pmelf_ppc_file_attributes_match`, whose callers pass tables.
unfoldable pub ppc_match : Table → Table → Bool
unfolding filter_gnu_ppc_unknown match_tags match_compat
ppc_match a b =
    not (filter_gnu_ppc_unknown a)
    && not (filter_gnu_ppc_unknown b)
    && match_tags (tag_fp ∷ tag_vector ∷ tag_struct_return ∷ []) a b
    && match_compat a b
