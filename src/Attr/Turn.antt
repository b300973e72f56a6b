-- ===== src/Attr/Turn.antt =====
-- One turn of `pmelf_pub_file_attributes_read` of pmbfd/attpbfasread.c over an attribute that was written
-- by the rules, on a table that has room for it.
use rtems_hzb_cexpsh.Base.{
  ℕ, suc, ◌+◌, ◌≡◌, ◌≢◌, ◌≤◌, ◌<◌, ◌%◌, Bool, true, false, if◌then◌else◌, none, some, List, [], ◌∷◌,
  ◌++◌, ◌/◌, ltb, arith, refl, ap, sym, subst, Bool-cases, inl, inr, ◌∙◌,
}
use rtems_hzb_cexpsh.Segs.{word}
use rtems_hzb_cexpsh.Elf.Leb128.{uleb128}
use rtems_hzb_cexpsh.Attr.{Att, Table, Vendor, TagType, in_array, get_tag_val, find_att}
use rtems_hzb_cexpsh.Attr.Parse.{
  done, read_atts, read_att, read_num, store, grow, chunk, is_defined, type_of, finish, by_type,
}
use rtems_hzb_cexpsh.Attr.Insertion.{append_att-insert_before, count, find-insert_before}
use rtems_hzb_cexpsh.Attr.Kept.{grow-same, arrayed, listed}
use rtems_hzb_cexpsh.Attr.Written.{put_num, put_value, Fits, read_num-put, read_value-put}

-- How many of some attributes go into the array.
abbrev pub one_if : Bool → ℕ
one_if b = if b then 1 else 0

abbrev pub arrays : Vendor → List Att → ℕ
arrays pv [] = 0
arrays pv (a ∷ as') = one_if (in_array pv a.tag) + arrays pv as'

-- A table of that vendor with space in its indices for `n` values, and for `k` values in the array, which
-- may have to be made.
pub record IsReady (pv : Vendor) (n k : ℕ) (t : Table) : Type 0 where
  pub vendor : t.pv ≡ pv
  pub some_idx : 1 ≤ t.idx
  pub space : t.idx + n < 256
  pub below : (tag : ℕ) → t.map tag < t.idx
  pub fresh : t.avail ≡ 0 → (t.idx ≡ 1) × (k ≤ chunk pv)
  pub roomy : t.avail ≢ 0 → t.idx + k ≤ t.room

-- What storing an attribute does to a table.
pub record IsStored (pv : Vendor) (n k : ℕ) (a : Att) (t t' : Table) : Type 0 where
  pub ready : IsReady pv n k t'
  pub found : get_tag_val t' a.tag ≡ some a.val
  pub others : (tag : ℕ) → tag ≢ a.tag → get_tag_val t' tag ≡ get_tag_val t tag

pub count-none : (tag : ℕ) (l : List Att) → find_att tag l ≡ none → count tag l ≡ 0
unfolding find_att
count-none tag [] h = refl
count-none tag (x ∷ xs) h = ground (arith, h, count-none tag xs)

arrayed-IsStored :
    (pv : Vendor) (n k : ℕ) (a : Att) (t : Table)
    → in_array t.pv a.tag ≡ true
    → t.avail ≢ 0
    → IsReady pv (suc n) (suc k) t
    → IsStored pv n k a t (arrayed a t)
unfolding get_tag_val
arrayed-IsStored pv n k a t h some_room r = record {
  ready = record {
    vendor = r.vendor;
    some_idx = ground (arith, r.some_idx, r.space);
    space = ground (arith, r.space);
    below = λ tag. ground (arith, r.space, r.below tag);
    fresh = λ e. absurd (some_room e);
    roomy = λ e. omega (arith, r.space, r.roomy e);
  };
  found = ground (arith, h, r.some_idx);
  others = λ tag d. ground (arith, d, r.below tag);
}

listed-IsStored :
    (pv : Vendor) (n k : ℕ) (a : Att) (t : Table)
    → in_array t.pv a.tag ≡ false
    → IsReady pv (suc n) k t
    → IsStored pv n k a t (listed a t)
unfolding get_tag_val
listed-IsStored pv n k a t h r = record {
  ready = record {
    vendor = r.vendor;
    some_idx = r.some_idx;
    space = ground (arith, r.space);
    below = r.below;
    fresh = r.fresh;
    roomy = r.roomy;
  };
  found = ground (arith, h, find-insert_before a.tag a t.lst);
  others = λ tag d. ground (arith, d, find-insert_before tag a t.lst);
}

store-IsStored :
    (pv : Vendor) (n k fuel : ℕ) (a : Att) (t : Table)
    → IsReady pv (suc n) (one_if (in_array t.pv a.tag) + k) t
    → (in_array t.pv a.tag ≡ true → t.avail ≢ 0)
    → get_tag_val t a.tag ≡ none
    → (t' : Table) × (store (suc fuel) a t ≡ done t') × IsStored pv n k a t t'
unfolding store get_tag_val
store-IsStored pv n k fuel a t r room h = elim (Bool-cases (in_array t.pv a.tag)) [
  | inl e ↦
      let one : one_if (in_array t.pv a.tag) + k ≡ suc k = ground (arith, e) in
      let ready = subst (λ j. IsReady pv (suc n) j t) one r in
      let free : t.idx < t.room = omega (arith, ready.roomy (room e)) in
      (arrayed a t, ground (arith, e, free), arrayed-IsStored pv n k a t e (room e) ready)
  | inr e ↦
      let none_there : find_att a.tag t.lst ≡ none = ground (arith, e, h) in
      let free : count a.tag t.lst < 2 = omega (arith, count-none a.tag t.lst none_there) in
      let one : one_if (in_array t.pv a.tag) + k ≡ k = ground (arith, e) in
      (
        listed a t,
        ground (arith, e, append_att-insert_before fuel a t.lst free),
        listed-IsStored pv n k a t e (subst (λ j. IsReady pv (suc n) j t) one r),
      )
]

chunk-small : (pv : Vendor) → chunk pv ≤ 30
chunk-small pv = ground arith

grow-fresh :
    (pv : Vendor) (n k tag : ℕ) (t : Table)
    → IsReady pv n k t
    → (grow tag t).avail ≡ 0
    → ((grow tag t).idx ≡ 1) × (k ≤ chunk pv)
unfolding grow
grow-fresh pv n k tag t r e =
    let same : chunk t.pv ≡ chunk pv = ap chunk r.vendor in
    ground (arith, e, r.fresh, same, chunk-small pv)

grow-roomy :
    (pv : Vendor) (n k tag : ℕ) (t : Table)
    → IsReady pv n k t
    → (grow tag t).avail ≢ 0
    → (grow tag t).idx + k ≤ (grow tag t).room
unfolding grow
grow-roomy pv n k tag t r e =
    let same : chunk t.pv ≡ chunk pv = ap chunk r.vendor in
    ground (arith, e, r.fresh, r.roomy, same)

-- After it grew for a tag of the array, the array has room.
grow-avail :
    (pv : Vendor) (n k tag : ℕ) (t : Table)
    → IsReady pv n k t
    → 1 ≤ k
    → in_array t.pv tag ≡ true
    → (grow tag t).avail ≢ 0
unfolding grow
grow-avail pv n k tag t r h inside =
    let same : chunk t.pv ≡ chunk pv = ap chunk r.vendor in
    λ e. absurd (ground (arith, e, h, inside, r.fresh, same, chunk-small pv))

grow-IsReady :
    (pv : Vendor) (n k tag : ℕ) (t : Table) → IsReady pv n k t → IsReady pv n k (grow tag t)
grow-IsReady pv n k tag t r =
    let s = grow-same tag t in
    record {
      vendor = s.0 ∙ r.vendor;
      some_idx = ground (arith, s.3, r.some_idx);
      space = ground (arith, s.3, r.space);
      below = λ x.
          let m : (grow tag t).map x ≡ t.map x = ap (λ (f : ℕ → ℕ). f x) s.2 in
          omega (arith, m, s.3, r.below x);
      fresh = grow-fresh pv n k tag t r;
      roomy = grow-roomy pv n k tag t r;
    }

grow-get : (tag x : ℕ) (t : Table) → get_tag_val (grow tag t) x ≡ get_tag_val t x
unfolding grow get_tag_val
grow-get tag x t = ground arith

pub by_type-put :
    (ty : TagType) (fuel : ℕ) (a : Att) (rest : List ℕ) (t t' : Table)
    → Fits ty a.val
    → store fuel a t ≡ done t'
    → by_type ty fuel a.tag (put_value ty a.val rest) t ≡ done (t', rest)
unfolding by_type finish
by_type-put TagType.num fuel a rest t t' f s =
    rw (by_type, read_value-put TagType.num a.val rest f) (ground (arith, s))
by_type-put TagType.str fuel a rest t t' f s =
    rw (by_type, read_value-put TagType.str a.val rest f) (ground (arith, s))
by_type-put TagType.both fuel a rest t t' f s =
    rw (by_type, read_value-put TagType.both a.val rest f) (ground (arith, s))
by_type-put TagType.no_value fuel a rest t t' f s = absurd f
by_type-put TagType.unknown fuel a rest t t' f s = absurd f

undefined : (tag : ℕ) (t : Table) → get_tag_val t tag ≡ none → is_defined t tag ≡ false
unfolding is_defined get_tag_val
undefined tag t h = ground (arith, h)

-- One turn of the loop after the tag.
pub turn :
    (pv : Vendor) (n k fuel : ℕ) (a : Att) (rest : List ℕ) (t : Table)
    → Fits (type_of pv a.tag) a.val
    → IsReady pv (suc n) (one_if (in_array pv a.tag) + k) t
    → get_tag_val t a.tag ≡ none
    → (t' : Table) × (read_att (suc fuel) a.tag (put_value (type_of pv a.tag) a.val rest) t
        ≡ done (t', rest))
      × IsStored pv n k a t t'
unfolding read_att
turn pv n k fuel a rest t f r h =
    let g = grow a.tag t in
    let need = one_if (in_array pv a.tag) + k in
    let ready = grow-IsReady pv (suc n) need a.tag t r in
    let here = λ (h : in_array g.pv a.tag ≡ true).
      let inside : in_array pv a.tag ≡ true = subst (λ v. in_array v a.tag ≡ true) ready.vendor h in
      grow-avail pv (suc n) need a.tag t r (ground (arith, inside))
        (subst (λ v. in_array v a.tag ≡ true) (sym r.vendor) inside) in
    let typed_ready =
      subst (λ v. IsReady pv (suc n) (one_if (in_array v a.tag) + k) g) (sym ready.vendor) ready in
    let free : get_tag_val g a.tag ≡ none = grow-get a.tag a.tag t ∙ h in
    let (t', s, k) = store-IsStored pv n k fuel a g typed_ready here free in
    let ty = type_of pv a.tag in
    let same : type_of g.pv a.tag ≡ ty = ap (λ v. type_of v a.tag) ready.vendor in
    let typed : by_type ty (suc fuel) a.tag (put_value ty a.val rest) g ≡ done (t', rest) =
      by_type-put ty (suc fuel) a rest g t' f s in
    (
      t',
      rw (read_att, undefined a.tag g free, same) typed,
      record {
        ready = k.ready;
        found = k.found;
        others = λ tag d. k.others tag d ∙ grow-get a.tag tag t;
      },
    )

pub num-cons : (x : ℕ) (rest : List ℕ) → (b : ℕ) × (bs : List ℕ) × (put_num x rest ≡ b ∷ bs)
unfolding uleb128
num-cons x rest = elim (Bool-cases (ltb x 128)) [
  | inl e ↦ (x, rest, ground (arith, e))
  | inr e ↦ (x % 128 + 128, uleb128 x (x / 128) ++ rest, ground (arith, e))
]

pub read_atts-put :
    (fuel x : ℕ) (rest buf : List ℕ) (t t' : Table)
    → x < word
    → read_att fuel x rest t ≡ done (t', buf)
    → read_atts (suc fuel) (put_num x rest) t ≡ read_atts fuel buf t'
unfolding read_atts
read_atts-put fuel x rest buf t t' h e =
    let (b, bs, c) = num-cons x rest in
    let n : read_num (b ∷ bs) ≡ some (x, rest) =
      subst (λ l. read_num l ≡ some (x, rest)) c (read_num-put x rest h) in
    subst (λ l. read_atts (suc fuel) l t ≡ read_atts fuel buf t') (sym c) (ground (arith, n, e))
