-- ===== src/Attr/Holds.antt =====
-- Attributes written by the rules of pmbfd/attrP.h and read back by `pmelf_pub_file_attributes_read`.
use rtems_hzb_cexpsh.Base.{
  ℕ, zero, suc, ◌+◌, ◌≡◌, ◌≢◌, ◌≤◌, ◌<◌, none, some, List, [], ◌∷◌, ◌++◌, arith, refl, ap, sym,
  subst, All, length, ◌∙◌,
}
use rtems_hzb_cexpsh.Segs.{word}
use rtems_hzb_cexpsh.Attr.{Att, Table, Vendor, new_table, get_tag_val}
use rtems_hzb_cexpsh.Attr.Parse.{done, read_atts, chunk, type_of}
use rtems_hzb_cexpsh.Attr.Written.{put_value, put_atts, Fits}
use rtems_hzb_cexpsh.Attr.Turn.{arrays, IsReady, turn, read_atts-put}

-- Attributes of tags that differ, each fitting its type.
abbrev pub AreFit : Vendor → List Att → Type 0
AreFit pv [] = Unit
AreFit pv (a ∷ rest) =
    (a.tag < word) × Fits (type_of pv a.tag) a.val × All (λ b. b.tag ≢ a.tag) rest × AreFit pv rest

-- A table that holds those attributes, and of other tags what another table holds.
pub record Holds (atts : List Att) (t t' : Table) : Type 0 where
  pub has : All (λ a. get_tag_val t' a.tag ≡ some a.val) atts
  pub others : (tag : ℕ) → All (λ a. a.tag ≢ tag) atts → get_tag_val t' tag ≡ get_tag_val t tag

abbrev AreFree : Table → List Att → Type 0
AreFree t atts = All (λ a. get_tag_val t a.tag ≡ none) atts

still_free :
    (t t' : Table) (tag : ℕ) (atts : List Att)
    → ((x : ℕ) → x ≢ tag → get_tag_val t' x ≡ get_tag_val t x)
    → All (λ b. b.tag ≢ tag) atts
    → AreFree t atts
    → AreFree t' atts
still_free t t' tag [] k d f = tt
still_free t t' tag (a ∷ atts) k d f = (k a.tag d.0 ∙ f.0, still_free t t' tag atts k d.1 f.1)

-- Some attributes are read in so many turns, and what is behind them in those that are left.
fills :
    (pv : Vendor) (fuel : ℕ) (atts post : List Att) (t : Table)
    → length atts < fuel
    → AreFit pv atts
    → AreFree t atts
    → IsReady pv (length atts) (arrays pv atts) t
    → (t' : Table) × (left : ℕ) × (left + length atts ≡ fuel)
      × (read_atts fuel (put_atts pv (atts ++ post)) t ≡ read_atts left (put_atts pv post) t')
      × Holds atts t t'
unfolding read_atts
fills pv fuel [] post t h fit free ready =
    (t, fuel, omega arith, refl, record { has = tt; others = λ tag d. refl })
fills pv zero (a ∷ atts) post t h fit free ready = absurd (omega (arith, h))
fills pv (suc zero) (a ∷ atts) post t h fit free ready = absurd (omega (arith, h))
fills pv (suc (suc fuel)) (a ∷ atts) post t h fit free ready =
    let bytes = put_atts pv (atts ++ post) in
    let (u, e, k) = turn pv (length atts) (arrays pv atts) fuel a bytes t fit.1 ready free.0 in
    let free' = still_free t u a.tag atts k.others fit.2 free.1 in
    let (t', left, turns, f, q) =
      fills pv (suc fuel) atts post u (omega (arith, h)) fit.3 free' k.ready in
    (
      t',
      left,
      omega (arith, turns),
      read_atts-put (suc fuel) a.tag (put_value (type_of pv a.tag) a.val bytes) bytes t u fit.0 e
          ∙ f,
      record {
        has = (q.others a.tag fit.2 ∙ k.found, q.has);
        others = λ tag d. q.others tag d.1 ∙ k.others tag (λ z. d.0 (sym z));
      },
    )

-- Attributes that the array of a new table has room for.
pub reads_into_new :
    (pv : Vendor) (fuel : ℕ) (atts post : List Att)
    → AreFit pv atts
    → length atts < 255
    → arrays pv atts ≤ chunk pv
    → length atts < fuel
    → (t : Table) × (left : ℕ) × (left + length atts ≡ fuel)
      × (read_atts fuel (put_atts pv (atts ++ post)) (new_table pv)
          ≡ read_atts left (put_atts pv post) t)
      × Holds atts (new_table pv) t
unfolding get_tag_val
reads_into_new pv fuel atts post fit few small enough =
    let ready : IsReady pv (length atts) (arrays pv atts) (new_table pv) = record {
      vendor = refl;
      some_idx = omega arith;
      space = omega (arith, few);
      below = λ tag. omega arith;
      fresh = λ e. (refl, small);
      roomy = λ e. absurd (e refl);
    } in
    fills pv fuel atts post (new_table pv) enough fit (new_free atts) ready
  where
    new_free : (l : List Att) → All (λ a. get_tag_val (new_table pv) a.tag ≡ none) l
    new_free [] = tt
    new_free (a ∷ l) = (ground arith, new_free l)

append_nil : (l : List Att) → l ++ [] ≡ l
append_nil [] = refl
append_nil (x ∷ l) = ap (λ m. x ∷ m) (append_nil l)

-- Reading the bytes of less than 255 attributes, of tags that differ and with values that fit the
-- vendor's types, into a new table succeeds with as many turns and one, where no more of them belong into
-- the array than it gets elements when it is first allocated; it gives a table in which each tag has its
-- value and no other tag has one.
pub read_atts-Holds :
    (pv : Vendor) (atts : List Att)
    → AreFit pv atts
    → length atts < 255
    → arrays pv atts ≤ chunk pv
    → (t : Table) × (read_atts (suc (length atts)) (put_atts pv atts) (new_table pv) ≡ done t)
      × Holds atts (new_table pv) t
unfolding read_atts
read_atts-Holds pv atts fit few small =
    let (t, left, turns, e, holds) =
      reads_into_new pv (suc (length atts)) atts [] fit few small (omega arith) in
    (
      t,
      subst (λ l. read_atts (suc (length atts)) (put_atts pv l) (new_table pv) ≡ done t)
          (append_nil atts) e,
      holds,
    )
