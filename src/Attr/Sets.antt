-- ===== src/Attr/Sets.antt =====
-- Attribute sets, of pmbfd/attset.c and getwrd.c: reading one, the vendors that are known, and matching
-- two. Offsets and lengths are words of 32 bits; `lsb` says how the processor keeps a word.
use Prim.Native.Nat.{bit_or}
use rtems_hzb_cexpsh.Base.{
  ℕ, zero, suc, ◌+◌, ◌-◌, ◌%◌, ◌^◌, Bool, true, false, not, ◌&&◌, ltb, leb, ◌==◌, if◌then◌else◌,
  Option, none, some, List, [], ◌∷◌, ◌++◌, length, take, drop, str_eq,
}
use rtems_hzb_cexpsh.Segs.{word}
use rtems_hzb_cexpsh.Elf.Swap.{word_at, elf_swah}
use rtems_hzb_cexpsh.Elf.Leb128.{guleb128}
use rtems_hzb_cexpsh.Attr.{Vendor, Table, new_table}
use rtems_hzb_cexpsh.Attr.Parse.{Outcome, done, failed, outside, out_of_fuel, read_atts, read_str}

abbrev pub max_vendors : ℕ
max_vendors = 5

-- `pmelf_getword`
unfoldable pub getword : Bool → Bool → List ℕ → Option ℕ
unfolding word_at elf_swah
getword lsb needswap bs =
    if ltb (length bs) 4
    then none
    else some (if needswap then elf_swah (word_at lsb bs 0) else word_at lsb bs 0)

-- The search for the handler of a vendor.
unfoldable pub find_vendor : List ℕ → List Vendor → Option Vendor
find_vendor name [] = none
find_vendor name (pv ∷ pvs) = if str_eq pv.name name then some pv else find_vendor name pvs

-- The slots of a set are taken from the first on: the list of the tables. The table of the vendor is
-- filled on, or a new one in the next of so many slots.
unfoldable pub with_table : (Table → Outcome Table) → Vendor → ℕ → List Table → Outcome (List Table)
with_table read pv zero ts = failed
with_table read pv (suc slots) [] = elim (read (new_table pv)) [
  | done t ↦ done (t ∷ [])
  | failed ↦ failed
  | outside ↦ outside
  | out_of_fuel ↦ out_of_fuel
]
with_table read pv (suc slots) (t ∷ ts) =
    if t.pv.addr == pv.addr
    then elim (read t) [
      | done t' ↦ done (t' ∷ ts)
      | failed ↦ failed
      | outside ↦ outside
      | out_of_fuel ↦ out_of_fuel
    ]
    else elim (with_table read pv slots ts) [
      | done ts' ↦ done (t ∷ ts')
      | failed ↦ failed
      | outside ↦ outside
      | out_of_fuel ↦ out_of_fuel
    ]

-- `Tag_File`. A size that is negative as an `int` fails in the first `pmelf_guleb128`.
unfoldable pub read_sub :
    ℕ → List Vendor → List ℕ → ℕ → ℕ → List ℕ → List Table → Outcome (List Table)
unfolding find_vendor with_table read_atts
read_sub fuel known name tag sublen bytes ts =
    if not (tag == 1) then failed else elim (find_vendor name known) [
      | none ↦ failed
      | some pv ↦
          with_table
            (λ t. if leb (2 ^ 31) sublen then failed else read_atts fuel (take sublen bytes) t) pv
            max_vendors ts
    ]

-- What one turn of the loop reads before the attributes: the length of the subsection, the name of
-- the vendor, the tag, the length of what follows that, and where that begins.
pub record Header : Type 0 where
  pub len : ℕ
  pub vendor : List ℕ
  pub tag : ℕ
  pub sublen : ℕ
  pub start : ℕ

unfoldable pub read_header : Bool → Bool → List ℕ → ℕ → Option Header
unfolding getword read_str guleb128
read_header lsb needswap b nbeg =
    let from = λ (n : ℕ). drop n b in
    if not (word_first (from nbeg) == b'A')
    then none
    else elim (getword lsb needswap (from (nbeg + 1))) [
      | none ↦ none
      | some len ↦
          if ltb (length b) ((nbeg + len + 1) % word)
          then none
          else elim (read_str (from (nbeg + 5))) [
            | none ↦ none
            | some q ↦
                (let n = length b - length q.1 in
                  elim (guleb128 (from n)) [
                    | none ↦ none
                    | some r ↦ elim (getword lsb needswap (from (n + r.1))) [
                      | none ↦ none
                      | some sublen ↦ some (record {
                        len = len;
                        vendor = q.0;
                        tag = r.0;
                        sublen = (sublen + word - (4 + r.1) % word) % word;
                        start = n + r.1 + 4;
                      })
                    ]
                  ])
          ]
    ]
  where
    word_first : List ℕ → ℕ
    word_first [] = 0
    word_first (v ∷ vs) = v

-- The loop of `pmelf_read_attribute_set` from offset `n` on. The length of what is read is not
-- compared with the end of the section: `after` are the bytes that follow that in memory.
unfoldable pub read_set :
    ℕ → Bool → Bool → List Vendor → List ℕ → List ℕ → ℕ → List Table → Outcome (List Table)
unfolding read_header read_sub
read_set zero lsb needswap known b after n ts = if ltb n (length b) then out_of_fuel else done ts
read_set (suc fuel) lsb needswap known b after n ts =
    if not (ltb n (length b)) then done ts else elim (read_header lsb needswap b n) [
      | none ↦ failed
      | some h ↦ elim (read_sub fuel known h.vendor h.tag h.sublen (drop h.start (b ++ after)) ts) [
        | done ts' ↦ read_set fuel lsb needswap known b after ((n + h.len + 1) % word) ts'
        | failed ↦ failed
        | outside ↦ outside
        | out_of_fuel ↦ out_of_fuel
      ]
    ]

-- `pmelf_read_attribute_set`: none where no vendor is registered.
unfoldable pub read_attribute_set :
    ℕ → Bool → Bool → List Vendor → List ℕ → List ℕ → Outcome (List Table)
unfolding read_set
read_attribute_set fuel lsb needswap [] b after = failed
read_attribute_set fuel lsb needswap (pv ∷ pvs) b after =
    read_set fuel lsb needswap (pv ∷ pvs) b after 0 []

-- `pmelf_attributes_vendor_register`: whether it registers the vendor, and the vendors known.
unfoldable pub vendor_register : Vendor → List Vendor → Bool × List Vendor
unfolding find_vendor
vendor_register pv known = elim (find_vendor pv.name known) [
  | some x ↦ (false, known)
  | none ↦ (true, pv ∷ known)
]

-- `vidx`, counted from an index on.
unfoldable pub vidx : ℕ → ℕ → List Vendor → Option ℕ
vidx a i [] = none
vidx a i (pv ∷ pvs) = if pv.addr == a then some i else vidx a (suc i) pvs

-- `vset`, from a value on: none for -1. There are less than 31 vendors.
unfoldable pub vset : List Vendor → ℕ → List Table → Option ℕ
unfolding vidx
vset known rval [] = some rval
vset known rval (t ∷ ts) = elim (vidx t.pv.addr 0 known) [
  | none ↦ none
  | some j ↦ vset known (bit_or rval (2 ^ j)) ts
]

-- How the vendor at an address matches, if it has a handler: whether `file_attributes_match` gives 0.
abbrev pub Matcher : Type 0
Matcher = ℕ → Option (Table → Table → Bool)

module _ (matcher : Matcher) where
  -- The inner loop, for a table of the first set. None where a vendor has no handler.
  unfoldable pub match_one : Table → List Table → Bool → Option Bool
  match_one a [] ok = some ok
  match_one a (b ∷ bs) ok =
      if a.pv.addr == b.pv.addr
      then elim (matcher a.pv.addr) [ none ↦ none | some match ↦ match_one a bs (ok && match a b) ]
      else match_one a bs ok

  -- The outer loop; `rval |=` keeps whether all were 0.
  unfoldable pub match_all : List Table → List Table → Bool → Option Bool
  unfolding match_one
  match_all [] bs ok = some ok
  match_all (a ∷ rest) bs ok = elim (match_one a bs ok) [
    | none ↦ none
    | some ok' ↦ match_all rest bs ok'
  ]

  -- `pmelf_match_attribute_set`: whether it gives 0.
  unfoldable pub match_attribute_set :
      List Vendor → Option (List Table) → Option (List Table) → Bool
  unfolding vset match_all
  match_attribute_set known none none = true
  match_attribute_set known none (some b) = false
  match_attribute_set known (some a) none = false
  match_attribute_set known (some a) (some b) = elim (vset known 0 a) [
    | none ↦ false
    | some va ↦ elim (vset known 0 b) [
      | none ↦ false
      | some vb ↦
          if va == vb then elim (match_all a b true) [ none ↦ false | some ok ↦ ok ] else false
    ]
  ]
