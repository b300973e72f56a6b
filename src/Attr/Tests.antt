-- ===== src/Attr/Tests.antt =====
-- Runs of the attribute code of pmbfd/, and each theorem about it at an input.
use rtems_hzb_cexpsh.Base.{
  ℕ, ◌≡◌, ◌↔◌, ◌<◌, refl, Bool, true, false, Option, some, none, List, [], ◌∷◌, ◌++◌, arith, ◌==◌,
  if◌then◌else◌, sym, subst, strcmp, Bool-cases, inl, inr,
}
use rtems_hzb_cexpsh.Segs.{word}
use rtems_hzb_cexpsh.Elf.Leb128.{uleb128}
use rtems_hzb_cexpsh.Attr.{
  Value, Att, Table, TagType, new_table, vendor_gnu_ppc, get_tag_val, tag_fp, tag_vector, gnu,
  ppc_attribute_tag_t, in_array,
}
use rtems_hzb_cexpsh.Attr.Parse.{Outcome, done, failed, outside, out_of_fuel, read_atts}
use rtems_hzb_cexpsh.Attr.Sets.{read_attribute_set, match_attribute_set, Matcher}
use rtems_hzb_cexpsh.Attr.Match.{ppc_match}
use rtems_hzb_cexpsh.Attr.Verdict.{ppc_match-Compatible, Compatible, IsGrouped}
use rtems_hzb_cexpsh.Attr.Symmetry.{match_attribute_set-symmetric, ppc_match-symmetric, IsSymmetric}
use rtems_hzb_cexpsh.Attr.Holds.{read_atts-Holds, Holds, AreFit}
use rtems_hzb_cexpsh.Attr.Written.{put_atts, Fits}
use rtems_hzb_cexpsh.Attr.Endless.{read_atts-endless, compat_att}

abbrev num_value : ℕ → Value
num_value n = record { i = n; s = none }

-- Hard floating point, and a vector ABI.
abbrev hard : List Att
hard =
    record { tag = tag_fp; val = num_value 1 } ∷ record { tag = tag_vector; val = num_value 2 } ∷ []

abbrev gnu_value : ℕ → Value
gnu_value n = record { i = n; s = some gnu }

abbrev outcome : Outcome Table → Table
outcome (done t) = t
outcome failed = new_table (vendor_gnu_ppc 1)
outcome outside = new_table (vendor_gnu_ppc 1)
outcome out_of_fuel = new_table (vendor_gnu_ppc 1)

abbrev table_of : List Att → Table
table_of atts =
    outcome (read_atts 9 (put_atts (vendor_gnu_ppc 1) atts) (new_table (vendor_gnu_ppc 1)))

-- A section of two attributes of "gnu", most significant byte first.
abbrev section : List ℕ
section = b'A' ∷ 0 ∷ 0 ∷ 0 ∷ 17 ∷ b'g' ∷ b'n' ∷ b'u' ∷ 0 ∷ 1 ∷ 0 ∷ 0 ∷ 0 ∷ 9 ∷ 4 ∷ 1 ∷ 8 ∷ 2 ∷ []

abbrev first_value : Outcome (List Table) → ℕ → Option Value
first_value (done (t ∷ ts)) tag = get_tag_val t tag
first_value (done []) tag = none
first_value failed tag = none
first_value outside tag = none
first_value out_of_fuel tag = none

run_section :
    first_value (read_attribute_set 9 false false (vendor_gnu_ppc 1 ∷ []) section []) tag_vector
    ≡ some (num_value 2)
unfolding read_attribute_set get_tag_val vendor_gnu_ppc ppc_attribute_tag_t strcmp
run_section = refl

run_hard : get_tag_val (table_of hard) tag_fp ≡ some (num_value 1)
unfolding get_tag_val read_atts vendor_gnu_ppc ppc_attribute_tag_t uleb128
run_hard = refl

hard-AreFit : AreFit (vendor_gnu_ppc 1) hard
unfolding vendor_gnu_ppc ppc_attribute_tag_t
hard-AreFit = (
  omega arith,
  (omega arith, refl),
  ((λ e. ground (arith, e)), tt),
  (omega arith, (omega arith, refl), tt, tt),
)

read_atts-Holds_example :
    (t : Table) × (read_atts 3 (put_atts (vendor_gnu_ppc 1) hard) (new_table (vendor_gnu_ppc 1))
      ≡ done t)
    × Holds hard (new_table (vendor_gnu_ppc 1)) t
unfolding in_array vendor_gnu_ppc
read_atts-Holds_example =
    read_atts-Holds (vendor_gnu_ppc 1) hard hard-AreFit (omega arith) (omega arith)

gnu-Fits : (n : ℕ) → n < word → Fits TagType.both (gnu_value n)
gnu-Fits n h =
    (h, ((λ e. ground (arith, e)), ((λ e. ground (arith, e)), ((λ e. ground (arith, e)), tt))))

read_atts-endless_example :
    read_atts 100
      (put_atts (vendor_gnu_ppc 1) (
        hard
        ++ compat_att (gnu_value 1) ∷ compat_att (gnu_value 2) ∷ compat_att (gnu_value 3) ∷ []))
      (new_table (vendor_gnu_ppc 1))
    ≡ out_of_fuel
unfolding in_array vendor_gnu_ppc
read_atts-endless_example =
    read_atts-endless (vendor_gnu_ppc 1) 100 hard (gnu_value 1) (gnu_value 2) (gnu_value 3) []
      hard-AreFit ((λ e. ground (arith, e)), ((λ e. ground (arith, e)), tt)) (omega arith)
      (omega arith) (omega arith) (gnu-Fits 1 (omega arith)) (gnu-Fits 2 (omega arith))
      (gnu-Fits 3 (omega arith))

abbrev compats_of : ℕ → Table
compats_of n = table_of (compat_att (gnu_value 1) ∷ compat_att (gnu_value n) ∷ [])

ppc_match-Compatible_example :
    (ppc_match (compats_of 2) (compats_of 3) ≡ true) ↔ Compatible (compats_of 2) (compats_of 3)
unfolding ppc_match IsGrouped read_atts uleb128 vendor_gnu_ppc
ppc_match-Compatible_example =
    ppc_match-Compatible (compats_of 2) (compats_of 3) (omega arith) (omega arith) refl refl

-- The flag 3 is in one of the two only.
run_flags : ppc_match (compats_of 2) (compats_of 3) ≡ false
unfolding ppc_match read_atts uleb128 vendor_gnu_ppc strcmp
run_flags = refl

abbrev ppc_matcher : Matcher
ppc_matcher at = if at == 1 then some ppc_match else none

some-injective : (f g : Table → Table → Bool) → some f ≡ some g → f ≡ g
some-injective f g e = ground (arith, e)

ppc_matcher-IsSymmetric : IsSymmetric ppc_matcher
ppc_matcher-IsSymmetric at f h a b = elim (Bool-cases (at == 1)) [
  | inl e ↦
      let same : ppc_match ≡ f = some-injective ppc_match f (rw (sym h, ppc_matcher, e) refl) in
      subst (λ (g : Table → Table → Bool). g a b ≡ g b a) same (ppc_match-symmetric a b)
  | inr e ↦ absurd (ground (arith, h, e))
]

match_attribute_set-symmetric_example :
    match_attribute_set ppc_matcher
      (vendor_gnu_ppc 1 ∷ [])
      (some (table_of hard ∷ []))
      (some (compats_of 2 ∷ []))
    ≡ match_attribute_set ppc_matcher
        (vendor_gnu_ppc 1 ∷ [])
        (some (compats_of 2 ∷ []))
        (some (table_of hard ∷ []))
match_attribute_set-symmetric_example =
    match_attribute_set-symmetric ppc_matcher ppc_matcher-IsSymmetric (vendor_gnu_ppc 1 ∷ [])
      (some (table_of hard ∷ [])) (some (compats_of 2 ∷ []))
