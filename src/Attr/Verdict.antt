-- ===== src/Attr/Verdict.antt =====
-- When two tables of PowerPC attributes are compatible (pmbfd/att-gnu-powerpc.c, attpbfasmatch.c).
use rtems_hzb_cexpsh.Base.{
  ℕ, zero, suc, ◌^◌, ◌≤◌, ◌<◌, ◌≡◌, ◌≢◌, ◌↔◌, ◌⊎◌, inl, inr, Bool, true, false, not, ◌&&◌, ◌==◌,
  if◌then◌else◌, Option, none, some, List, [], ◌∷◌, All, str_eq, arith, refl, strcmp-eq,
  strcmp_refl, sym, subst,
}
use rtems_hzb_cexpsh.Attr.{
  Att, Value, Table, get_tag_val, tag_compat, tag_fp, tag_vector, tag_struct_return, gnu,
}
use rtems_hzb_cexpsh.Attr.Match.{
  gnu_ppc_unknown, unknown_below, unknown_in, filter_gnu_ppc_unknown, find_compat, is_gnu,
  filter_nongnu, has_flag, filter_gt1, match_compat, values_agree, match_tags, ppc_match,
}

-- The tags that the PowerPC handler knows.
abbrev pub Known : ℕ → Type 0
Known tag = (tag ≡ 32) ⊎ (tag ≡ 4) ⊎ (tag ≡ 8) ⊎ (tag ≡ 12)

abbrev pub AllKnown : Table → Type 0
AllKnown t =
    ((tag : ℕ) → tag ≤ t.pv.max_tag → t.map tag ≢ 0 → Known tag) × All (λ x. Known x.tag) t.lst

-- No tag that the table can hold is negative as an `int`.
abbrev pub AllLow : Table → Type 0
AllLow t = (t.pv.max_tag < 2 ^ 31) × All (λ x. x.tag < 2 ^ 31) t.lst

-- Two values of one tag, if there: 0 goes with every value.
abbrev pub Agree : Option Value → Option Value → Type 0
Agree none none = Unit
Agree none (some vb) = ⊥
Agree (some va) none = ⊥
Agree (some va) (some vb) = (va.i ≡ vb.i) ⊎ (va.i ≡ 0) ⊎ (vb.i ≡ 0)

-- All `Tag_Compat` values of a list, and those of its first run of them.
abbrev pub compats : List Att → List Value
compats [] = []
compats (x ∷ xs) = if x.tag == tag_compat then x.val ∷ compats xs else compats xs

abbrev pub run : List Att → List Value
run [] = []
run (x ∷ xs) = if x.tag == tag_compat then x.val ∷ run xs else []

-- The `Tag_Compat` values stand together.
unfoldable pub IsGrouped : List Att → Type 0
unfolding find_compat
IsGrouped l = run (find_compat l) ≡ compats l

-- A value asks for no toolchain but "gnu".
abbrev pub IsGnu : Value → Type 0
IsGnu v = 0 < v.i → v.s ≡ some gnu

abbrev pub HasFlag : ℕ → List Value → Type 0
HasFlag flg [] = ⊥
HasFlag flg (v ∷ vs) = (flg ≡ v.i) ⊎ HasFlag flg vs

-- The flags above 1 of the first are flags of the second.
abbrev pub IsCovered : List Value → List Value → Type 0
IsCovered vs ws = All (λ v. 1 < v.i → HasFlag v.i ws) vs

pub record Compatible (a b : Table) : Type 0 where
  pub known_a : AllKnown a
  pub known_b : AllKnown b
  pub fp : Agree (get_tag_val a tag_fp) (get_tag_val b tag_fp)
  pub vector : Agree (get_tag_val a tag_vector) (get_tag_val b tag_vector)
  pub struct_return : Agree (get_tag_val a tag_struct_return) (get_tag_val b tag_struct_return)
  pub gnu_a : All IsGnu (compats a.lst)
  pub gnu_b : All IsGnu (compats b.lst)
  pub covered_a : IsCovered (compats a.lst) (compats b.lst)
  pub covered_b : IsCovered (compats b.lst) (compats a.lst)

pub unknown-Known : (tag : ℕ) → tag < 2 ^ 31 → (gnu_ppc_unknown tag ≡ false) ↔ Known tag
unfolding gnu_ppc_unknown
unknown-Known tag low = ground arith

le-cases : (a b : ℕ) → a ≤ b → (a < b) ⊎ (a ≡ b)
le-cases a b h = ground arith

below-Known :
    (n : ℕ) (f : ℕ → ℕ)
    → n ≤ 2 ^ 31
    → (unknown_below n f ≡ false) ↔ ((tag : ℕ) → tag < n → f tag ≢ 0 → Known tag)
unfolding unknown_below
below-Known zero f low = ground arith
below-Known (suc n) f low =
    let ih = below-Known n f (omega (arith, low)) in
    let now = unknown-Known n (omega (arith, low)) in
    (
      (λ e tag h d. elim (le-cases tag n (omega arith)) [
        | inl lt ↦ ih.0 (ground (arith, e)) tag lt d
        | inr at ↦ subst Known (sym at) (now.0 (ground (arith, e, at, d)))
      ]),
      λ k. ground (arith, ih.1 (λ tag h d. k tag (omega arith) d), now.1, k n),
    )

in-Known :
    (l : List Att) → All (λ x. x.tag < 2 ^ 31) l → (unknown_in l ≡ false) ↔ All (λ x. Known x.tag) l
unfolding unknown_in
in-Known [] low = ground arith
in-Known (x ∷ xs) low = ground (arith, in-Known xs low.1, unknown-Known x.tag low.0)

tag-Agree : (u v : Option Value) → (values_agree u v ≡ true) ↔ Agree u v
unfolding values_agree
tag-Agree none none = ground arith
tag-Agree none (some v) = ground arith
tag-Agree (some u) none = ground arith
tag-Agree (some u) (some v) = ground arith

str_eq_iff : (a b : List ℕ) → (str_eq a b ≡ true) ↔ (a ≡ b)
str_eq_iff a b = (
  (λ h. strcmp-eq a b (ground (arith, h))),
  (λ e. subst (λ c. str_eq a c ≡ true) e (rw (str_eq, strcmp_refl a) refl)),
)

tags-Agree :
    (tags : List ℕ) (a b : Table)
    → (match_tags tags a b ≡ true) ↔ All (λ tag. Agree (get_tag_val a tag) (get_tag_val b tag)) tags
unfolding match_tags
tags-Agree [] a b = ground arith
tags-Agree (tag ∷ tags) a b =
    ground (arith, tags-Agree tags a b, tag-Agree (get_tag_val a tag) (get_tag_val b tag))

gnu-IsGnu : (o : Option (List ℕ)) → (is_gnu o ≡ true) ↔ (o ≡ some gnu)
gnu-IsGnu none = ground arith
gnu-IsGnu (some s) = ground (arith, str_eq_iff gnu s)

nongnu-run : (l : List Att) → (filter_nongnu l ≡ true) ↔ All IsGnu (run l)
unfolding filter_nongnu
nongnu-run [] = ground arith
nongnu-run (x ∷ xs) = ground (arith, nongnu-run xs, gnu-IsGnu x.val.s)

flag-run : (flg : ℕ) (l : List Att) → (has_flag flg l ≡ true) ↔ HasFlag flg (run l)
unfolding has_flag
flag-run flg [] = ground arith
flag-run flg (x ∷ xs) = ground (arith, flag-run flg xs)

gt1-run : (l m : List Att) → (filter_gt1 l m ≡ true) ↔ IsCovered (run l) (run m)
unfolding filter_gt1
gt1-run [] m = ground arith
gt1-run (x ∷ xs) m = ground (arith, gt1-run xs m, flag-run x.val.i m)

nongnu-compats :
    (l : List Att) → IsGrouped l → (filter_nongnu (find_compat l) ≡ true) ↔ All IsGnu (compats l)
unfolding IsGrouped
nongnu-compats l g =
    subst (λ vs. (filter_nongnu (find_compat l) ≡ true) ↔ All IsGnu vs) g
      (nongnu-run (find_compat l))

gt1-compats :
    (l m : List Att)
    → IsGrouped l
    → IsGrouped m
    → (filter_gt1 (find_compat l) (find_compat m) ≡ true) ↔ IsCovered (compats l) (compats m)
unfolding IsGrouped
gt1-compats l m g h =
    let C = λ (vs ws : List Value).
      (filter_gt1 (find_compat l) (find_compat m) ≡ true) ↔ IsCovered vs ws in
    subst (λ vs. C vs (compats m)) g
      (subst (C (run (find_compat l))) h (gt1-run (find_compat l) (find_compat m)))

known-AllKnown : (t : Table) → AllLow t → (filter_gnu_ppc_unknown t ≡ false) ↔ AllKnown t
unfolding filter_gnu_ppc_unknown
known-AllKnown t low =
    let below = below-Known (suc t.pv.max_tag) t.map (omega (arith, low.0)) in
    let inside = in-Known t.lst low.1 in
    (
      (λ e.
          ((λ tag h. below.0 (ground (arith, e)) tag (omega arith)), inside.0 (ground (arith, e)))),
      λ k. ground (arith, below.1 (λ tag h. k.0 tag (omega arith)), inside.1 k.1),
    )

record Four (k l m n : Bool) : Type 0 where
  one : k ≡ true
  two : l ≡ true
  three : m ≡ true
  rest : n ≡ true

four : (k l m n : Bool) → k && l && m && n ≡ true → Four k l m n
four k l m n e = record {
  one = ground (arith, e);
  two = ground (arith, e);
  three = ground (arith, e);
  rest = ground (arith, e);
}

from_not : {b : Bool} → not b ≡ true → b ≡ false
from_not {b = b} e = ground (arith, e)

-- Two tables of PowerPC attributes with tags below 2 ^ 31, whose `Tag_Compat` attributes stand
-- together, match exactly where all their tags are known, each of the three values of the ABI is in both or in neither and is the
-- same or 0 in one, no other toolchain than "gnu" is asked for, and each has the other's flags above 1.
pub ppc_match-Compatible :
    (a b : Table)
    → AllLow a
    → AllLow b
    → IsGrouped a.lst
    → IsGrouped b.lst
    → (ppc_match a b ≡ true) ↔ Compatible a b
unfolding ppc_match match_compat
ppc_match-Compatible a b low_a low_b g h =
    let l = find_compat a.lst in
    let m = find_compat b.lst in
    let ka = known-AllKnown a low_a in
    let kb = known-AllKnown b low_b in
    let tags = tags-Agree (tag_fp ∷ tag_vector ∷ tag_struct_return ∷ []) a b in
    let ga = nongnu-compats a.lst g in
    let gb = nongnu-compats b.lst h in
    let ca = gt1-compats a.lst b.lst g h in
    let cb = gt1-compats b.lst a.lst h g in
    (
      (λ e.
          let p =
            four (not (filter_gnu_ppc_unknown a)) (not (filter_gnu_ppc_unknown b))
              (match_tags (tag_fp ∷ tag_vector ∷ tag_struct_return ∷ []) a b) (match_compat a b)
              e in
          let t = tags.0 p.three in
          let c =
            four (filter_nongnu l) (filter_nongnu m) (filter_gt1 l m) (filter_gt1 m l) p.rest in
          record {
            known_a = ka.0 (from_not p.one);
            known_b = kb.0 (from_not p.two);
            fp = t.0;
            vector = t.1.0;
            struct_return = t.1.1.0;
            gnu_a = ga.0 c.one;
            gnu_b = gb.0 c.two;
            covered_a = ca.0 c.three;
            covered_b = cb.0 c.rest;
          }),
      λ c.
          rw
            (
              ka.1 c.known_a,
              kb.1 c.known_b,
              tags.1 (c.fp, (c.vector, (c.struct_return, tt))),
              ga.1 c.gnu_a,
              gb.1 c.gnu_b,
              ca.1 c.covered_a,
              cb.1 c.covered_b,
            )
            refl,
    )
