-- ===== src/Attr/Written.antt =====
-- The bytes of attributes by the rules of pmbfd/attrP.h, and how the parts of
-- `pmelf_pub_file_attributes_read` read them.
use rtems_hzb_cexpsh.Base.{
  ℕ, suc, ◌≡◌, ◌≢◌, ◌<◌, Option, none, some, List, [], ◌∷◌, ◌++◌, arith, refl, sym, subst,
  Option-cases, inl, inr, All, length, drop,
}
use rtems_hzb_cexpsh.Segs.{word}
use rtems_hzb_cexpsh.Elf.Leb128.{uleb128, guleb128-uleb128}
use rtems_hzb_cexpsh.Attr.{Att, Value, Vendor, TagType}
use rtems_hzb_cexpsh.Attr.Parse.{read_num, read_str, read_value, type_of}

-- A number in LEB128, and a string with its 0.
abbrev pub put_num : ℕ → List ℕ → List ℕ
put_num x rest = uleb128 (suc x) x ++ rest

abbrev pub put_str : List ℕ → List ℕ → List ℕ
put_str s rest = s ++ 0 ∷ rest

-- A string, where there is one.
abbrev pub text : Option (List ℕ) → List ℕ
text none = []
text (some s) = s

-- The values of an attribute of that type, and the whole of it.
abbrev pub put_value : TagType → Value → List ℕ → List ℕ
put_value TagType.num v rest = put_num v.i rest
put_value TagType.str v rest = put_str (text v.s) rest
put_value TagType.both v rest = put_num v.i (put_str (text v.s) rest)
put_value TagType.no_value v rest = rest
put_value TagType.unknown v rest = rest

abbrev pub put_atts : Vendor → List Att → List ℕ
put_atts pv [] = []
put_atts pv (a ∷ as') = put_num a.tag (put_value (type_of pv a.tag) a.val (put_atts pv as'))

abbrev pub IsText : Option (List ℕ) → Type 0
IsText none = ⊥
IsText (some s) = All (λ c. c ≢ 0) s

-- A value of that type, as the routine gives it.
abbrev pub Fits : TagType → Value → Type 0
Fits TagType.num v = (v.i < word) × (v.s ≡ none)
Fits TagType.str v = (v.i ≡ 0) × IsText v.s
Fits TagType.both v = (v.i < word) × IsText v.s
Fits TagType.no_value v = ⊥
Fits TagType.unknown v = ⊥

drop-append : (xs ys : List ℕ) → drop (length xs) (xs ++ ys) ≡ ys
drop-append [] ys = refl
drop-append (x ∷ xs) ys = drop-append xs ys

pub read_num-put : (x : ℕ) (rest : List ℕ) → x < word → read_num (put_num x rest) ≡ some (x, rest)
unfolding read_num
read_num-put x rest h =
    rw (read_num, guleb128-uleb128 x rest h, drop-append (uleb128 (suc x) x) rest) refl

pub read_str-put :
    (s rest : List ℕ) → All (λ c. c ≢ 0) s → read_str (put_str s rest) ≡ some (s, rest)
unfolding read_str
read_str-put [] rest h = refl
read_str-put (c ∷ cs) rest h = ground (arith, read_str-put cs rest h.1, h.0)

text_of :
    (v : Value) (rest : List ℕ)
    → v.i ≡ 0
    → IsText v.s
    → read_value TagType.str (put_str (text v.s) rest) ≡ some (v, rest)
unfolding read_value
text_of v rest z t = elim (Option-cases v.s) [
  | inl e ↦ absurd (subst IsText e t)
  | inr (s, e) ↦
      let r = read_str-put s rest (subst IsText e t) in
      subst (λ o. read_value TagType.str (put_str (text o) rest) ≡ some (v, rest)) (sym e)
        (ground (arith, r, z, e))
]

both_of :
    (v : Value) (rest : List ℕ)
    → v.i < word
    → IsText v.s
    → read_value TagType.both (put_num v.i (put_str (text v.s) rest)) ≡ some (v, rest)
unfolding read_value
both_of v rest z t = elim (Option-cases v.s) [
  | inl e ↦ absurd (subst IsText e t)
  | inr (s, e) ↦
      let r = read_str-put s rest (subst IsText e t) in
      let n = read_num-put v.i (put_str s rest) z in
      subst (λ o. read_value TagType.both (put_num v.i (put_str (text o) rest)) ≡ some (v, rest))
        (sym e) (ground (arith, r, n, e))
]

pub read_value-put :
    (ty : TagType) (v : Value) (rest : List ℕ)
    → Fits ty v
    → read_value ty (put_value ty v rest) ≡ some (v, rest)
unfolding read_value
read_value-put TagType.num v rest f =
    rw (read_value, read_num-put v.i rest f.0) (ground (arith, f.1))
read_value-put TagType.str v rest f = text_of v rest f.0 f.1
read_value-put TagType.both v rest f = both_of v rest f.0 f.1
read_value-put TagType.no_value v rest f = absurd f
read_value-put TagType.unknown v rest f = absurd f
