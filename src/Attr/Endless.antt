-- ===== src/Attr/Endless.antt =====
-- Three `Tag_Compat` attributes in one object file (pmbfd/attpbfasread.c).
use rtems_hzb_cexpsh.Base.{
  ℕ, zero, suc, ◌+◌, ◌≡◌, ◌≢◌, ◌<◌, ◌≤◌, ◌==◌, false, none, some, List, [], ◌∷◌, ◌++◌, All, length,
  arith, refl, sym, subst, ◌∙◌,
}
use rtems_hzb_cexpsh.Segs.{word}
use rtems_hzb_cexpsh.Attr.{
  Att, Value, Table, Vendor, TagType, in_array, new_table, tag_compat, get_tag_val, find_att,
}
use rtems_hzb_cexpsh.Attr.Parse.{
  done, out_of_fuel, append_att, read_atts, read_att, read_num, store, is_defined, by_type, finish,
  grow, chunk,
}
use rtems_hzb_cexpsh.Attr.Insertion.{
  append_att-insert_before, append_att-endless, insert_before, count, HasPair,
}
use rtems_hzb_cexpsh.Attr.Holds.{AreFit, reads_into_new}
use rtems_hzb_cexpsh.Attr.Turn.{by_type-put, read_atts-put, num-cons, arrays, count-none}
use rtems_hzb_cexpsh.Attr.Written.{put_num, put_atts, put_value, Fits, read_value-put, read_num-put}

abbrev pub compat_att : Value → Att
compat_att v = record { tag = tag_compat; val = v }

not_in_array : (pv : Vendor) → in_array pv tag_compat ≡ false
unfolding in_array
not_in_array pv = ground arith

no_growth : (t : Table) → grow tag_compat t ≡ t
unfolding grow
no_growth t = ground (arith, not_in_array t.pv)

undefined : (t : Table) → is_defined t tag_compat ≡ false
unfolding is_defined
undefined t = ground (arith, not_in_array t.pv)

store-compat :
    (fuel : ℕ) (v : Value) (t : Table) (l : List Att)
    → append_att fuel (compat_att v) t.lst ≡ done l
    → store fuel (compat_att v) t ≡ done (record t { lst = l })
unfolding store
store-compat fuel v t l h = ground (arith, h, not_in_array t.pv)

store-compat_endless :
    (fuel : ℕ) (v : Value) (t : Table)
    → append_att fuel (compat_att v) t.lst ≡ out_of_fuel
    → store fuel (compat_att v) t ≡ out_of_fuel
unfolding store
store-compat_endless fuel v t h = ground (arith, h, not_in_array t.pv)

read_att-compat :
    (fuel : ℕ) (v : Value) (rest : List ℕ) (t : Table) (l : List Att)
    → Fits TagType.both v
    → append_att fuel (compat_att v) t.lst ≡ done l
    → read_att fuel tag_compat (put_value TagType.both v rest) t ≡ done (record t { lst = l }, rest)
unfolding read_att
read_att-compat fuel v rest t l f h =
    let s : by_type TagType.both fuel tag_compat (put_value TagType.both v rest) t
        ≡ done (record t { lst = l }, rest) =
      by_type-put TagType.both fuel (compat_att v) rest t (record t { lst = l }) f
        (store-compat fuel v t l h) in
    rw (read_att, no_growth t, undefined t) s

read_att-compat_endless :
    (fuel : ℕ) (v : Value) (rest : List ℕ) (t : Table)
    → Fits TagType.both v
    → append_att fuel (compat_att v) t.lst ≡ out_of_fuel
    → read_att fuel tag_compat (put_value TagType.both v rest) t ≡ out_of_fuel
unfolding read_att by_type finish
read_att-compat_endless fuel v rest t f h =
    let r = read_value-put TagType.both v rest f in
    rw (read_att, no_growth t, undefined t, by_type, r)
      (ground (arith, store-compat_endless fuel v t h))

read_atts-put_endless :
    (fuel x : ℕ) (rest : List ℕ) (t : Table)
    → x < word
    → read_att fuel x rest t ≡ out_of_fuel
    → read_atts (suc fuel) (put_num x rest) t ≡ out_of_fuel
unfolding read_atts
read_atts-put_endless fuel x rest t h e =
    let (b, bs, c) = num-cons x rest in
    let n : read_num (b ∷ bs) ≡ some (x, rest) =
      subst (λ l. read_num l ≡ some (x, rest)) c (read_num-put x rest h) in
    subst (λ l. read_atts (suc fuel) l t ≡ out_of_fuel) (sym c) (ground (arith, n, e))

-- Two elements that were linked in one after the other are neighbours.
HasPair-cons :
    (tag : ℕ) (x : Att) (l : List Att) → x.tag ≢ tag → HasPair tag l → HasPair tag (x ∷ l)
HasPair-cons tag x [] d h = absurd h
HasPair-cons tag x (y ∷ ys) d h = ground (arith, d, h)

compat-HasPair :
    (a b : Value) (l : List Att)
    → count tag_compat l ≡ 0
    → HasPair tag_compat (insert_before (compat_att b) (insert_before (compat_att a) l))
compat-HasPair a b [] h = refl
compat-HasPair a b (x ∷ xs) h =
    let other : (x.tag == tag_compat) ≡ false = ground (arith, h) in
    let rest : count tag_compat xs ≡ 0 = ground (arith, h) in
    rw (other, other)
      (HasPair-cons tag_compat x (insert_before (compat_att b) (insert_before (compat_att a) xs))
        (ground (arith, other)) (compat-HasPair a b xs rest))

count-compat :
    (a : Value) (l : List Att)
    → count tag_compat l ≡ 0
    → count tag_compat (insert_before (compat_att a) l) ≡ 1
count-compat a [] h = refl
count-compat a (x ∷ xs) h = ground (arith, h, count-compat a xs)

three_compats :
    (pv : Vendor) (fuel : ℕ) (a b c : Value) (more : List Att) (t : Table)
    → count tag_compat t.lst ≡ 0
    → Fits TagType.both a
    → Fits TagType.both b
    → Fits TagType.both c
    → read_atts
        (suc (suc (suc fuel)))
        (put_atts pv (compat_att a ∷ compat_att b ∷ compat_att c ∷ more))
        t
      ≡ out_of_fuel
unfolding read_atts
three_compats pv fuel a b c more t none_yet fa fb fc =
    let rest3 = put_atts pv more in
    let bytes3 = put_value TagType.both c rest3 in
    let rest2 = put_num tag_compat bytes3 in
    let bytes2 = put_value TagType.both b rest2 in
    let rest1 = put_num tag_compat bytes2 in
    let one = insert_before (compat_att a) t.lst in
    let two = insert_before (compat_att b) one in
    let u : List Att → Table = λ l. record t { lst = l } in
    let low : tag_compat < word = omega arith in
    read_atts-put (suc (suc fuel)) tag_compat (put_value TagType.both a rest1) rest1 t (u one) low (
      read_att-compat (suc (suc fuel)) a rest1 t one fa
        (append_att-insert_before (suc fuel) (compat_att a) t.lst (omega (arith, none_yet))))
    ∙ read_atts-put (suc fuel) tag_compat bytes2 rest2 (u one) (u two) low (
        read_att-compat (suc fuel) b rest2 (u one) two fb (
          append_att-insert_before fuel (compat_att b) one
            (omega (arith, count-compat a t.lst none_yet))))
    ∙ read_atts-put_endless fuel tag_compat bytes3 (u two) low (
        read_att-compat_endless fuel c rest3 (u two) fc
          (append_att-endless fuel (compat_att c) two (compat-HasPair a b t.lst none_yet)))

three_left :
    (pv : Vendor) (left : ℕ) (a b c : Value) (more : List Att) (t : Table)
    → 3 ≤ left
    → count tag_compat t.lst ≡ 0
    → Fits TagType.both a
    → Fits TagType.both b
    → Fits TagType.both c
    → read_atts left (put_atts pv (compat_att a ∷ compat_att b ∷ compat_att c ∷ more)) t
      ≡ out_of_fuel
three_left pv zero a b c more t h = absurd (omega (arith, h))
three_left pv (suc zero) a b c more t h = absurd (omega (arith, h))
three_left pv (suc (suc zero)) a b c more t h = absurd (omega (arith, h))
three_left pv (suc (suc (suc fuel))) a b c more t h = three_compats pv fuel a b c more t

listed-none :
    (pv : Vendor) (t : Table)
    → get_tag_val t tag_compat ≡ get_tag_val (new_table pv) tag_compat
    → find_att tag_compat t.lst ≡ none
unfolding get_tag_val find_att
listed-none pv t h = ground (arith, h, not_in_array t.pv, not_in_array pv)

-- An object file is not read to the end where its attributes are three `Tag_Compat` attributes and
-- whatever follows, behind less than 255 others, of other tags that differ, which the array has room for,
-- all with values that fit the vendor's types: from the third on, the loop that looks for the last of
-- them does not return, with whatever fuel lets it be reached.
pub read_atts-endless :
    (pv : Vendor) (fuel : ℕ) (others : List Att) (a b c : Value) (more : List Att)
    → AreFit pv others
    → All (λ x. x.tag ≢ tag_compat) others
    → length others < 255
    → arrays pv others ≤ chunk pv
    → length others + 3 ≤ fuel
    → Fits TagType.both a
    → Fits TagType.both b
    → Fits TagType.both c
    → read_atts fuel
        (put_atts pv (others ++ compat_att a ∷ compat_att b ∷ compat_att c ∷ more))
        (new_table pv)
      ≡ out_of_fuel
read_atts-endless pv fuel others a b c more fit differ few small enough fa fb fc =
    let (t, left, turns, e, holds) =
      reads_into_new pv fuel others (compat_att a ∷ compat_att b ∷ compat_att c ∷ more) fit few
        small (omega (arith, enough)) in
    let none_yet =
      count-none tag_compat t.lst (listed-none pv t (holds.others tag_compat differ)) in
    e ∙ three_left pv left a b c more t (omega (arith, turns, enough)) none_yet fa fb fc
