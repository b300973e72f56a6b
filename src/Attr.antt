-- ===== src/Attr.antt =====
-- pmbfd/attrP.h, attset.c and att-gnu-powerpc.c: the attributes of an object file that describe its ABI.
-- A vendor names the type of each tag; a table holds the values of one vendor's attributes, those of
-- small tags in an array that `map` indexes and the others in a list. The messages are left out.
pub mod Parse
pub mod Sets
pub mod Match
pub mod Verdict
pub mod Symmetry
pub mod Insertion
pub mod Endless
pub mod Kept
pub mod Written
pub mod Turn
pub mod Holds
pub mod Within
pub mod Tests
use rtems_hzb_cexpsh.Base.{
  ℕ, ◌+◌, Bool, true, false, not, ◌&&◌, ◌||◌, leb, ◌==◌, if◌then◌else◌, Option, none, some, List,
  [], ◌∷◌,
}

-- `Pmelf_pub_attribute_t`
pub data TagType : Type 0 where
  unknown : TagType
  no_value : TagType
  num : TagType
  str : TagType
  both : TagType

-- `Pmelf_pub_attribute`: a number, and a string or null.
pub record Value : Type 0 where
  pub i : ℕ
  pub s : Option (List ℕ)

-- An element of `Pmelf_attribute_list`.
pub record Att : Type 0 where
  pub tag : ℕ
  pub val : Value

-- `Pmelf_attribute_vendor`, with its address. It reads with `pmelf_pub_file_attributes_read`, as every
-- vendor of the source does; how it matches is `Matcher` of Attr/Sets.
pub record Vendor : Type 0 where
  pub addr : ℕ
  pub name : List ℕ
  pub tag_type : ℕ → TagType
  pub max_tag : ℕ

-- `Pmelf_attribute_tbl`; `room` is how many elements were allocated for `vals`.
pub record Table : Type 0 where
  pub pv : Vendor
  pub vals : ℕ → Value
  pub room : ℕ
  pub avail : ℕ
  pub idx : ℕ
  pub lst : List Att
  pub map : ℕ → ℕ

abbrev pub tag_compat : ℕ
tag_compat = 32

-- Whether the value of that tag belongs into the array.
unfoldable pub in_array : Vendor → ℕ → Bool
in_array pv tag = leb tag pv.max_tag && not (tag == tag_compat)

abbrev pub no_val : Value
no_val = record { i = 0; s = none }

-- A new table, as `pmelf_read_attribute_set` makes it.
abbrev pub new_table : Vendor → Table
new_table pv = record {
  pv = pv;
  vals = λ i. no_val;
  room = 0;
  avail = 0;
  idx = 1;
  lst = [];
  map = λ tag. 0;
}

-- The loop of `pmelf_attribute_get_tag_val` over the list.
unfoldable pub find_att : ℕ → List Att → Option Value
find_att tag [] = none
find_att tag (x ∷ xs) = if x.tag == tag then some x.val else find_att tag xs

-- `pmelf_attribute_get_tag_val`
unfoldable pub get_tag_val : Table → ℕ → Option Value
unfolding in_array find_att
get_tag_val t tag =
    if in_array t.pv tag && not (t.map tag == 0)
    then some (t.vals (t.map tag))
    else find_att tag t.lst

-- `Tag_GNU_Power_ABI_FP`, `Tag_GNU_Power_ABI_Vector` and `Tag_GNU_Power_ABI_Struct_Return`
abbrev pub tag_fp : ℕ
tag_fp = 4

abbrev pub tag_vector : ℕ
tag_vector = 8

abbrev pub tag_struct_return : ℕ
tag_struct_return = 12

-- `pmelf_ppc_attribute_tag_t`
unfoldable pub ppc_attribute_tag_t : ℕ → TagType
ppc_attribute_tag_t tag =
    if tag == tag_compat
    then both
    else if tag == tag_fp || tag == tag_vector || tag == tag_struct_return
    then num
    else unknown

-- "gnu"
abbrev pub gnu : List ℕ
gnu = b'g' ∷ b'n' ∷ b'u' ∷ []

-- `pmelf_attributes_vendor_gnu_ppc`, at that address.
abbrev pub vendor_gnu_ppc : ℕ → Vendor
unfolding ppc_attribute_tag_t
vendor_gnu_ppc a = record { addr = a; name = gnu; tag_type = ppc_attribute_tag_t; max_tag = 10 }
