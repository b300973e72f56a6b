-- ===== src/Attr/Kept.antt =====
-- What a turn of `pmelf_pub_file_attributes_read` of pmbfd/attpbfasread.c does to a table, and what all
-- turns keep.
use rtems_hzb_cexpsh.Base.{
  ◌⊎◌, ◌%◌, ℕ, zero, suc, ◌+◌, ◌≡◌, ◌≢◌, true, false, Option, none, some, List, [], ◌∷◌, arith,
  refl, sym, subst, Option-cases, Bool-cases, inl, inr,
}
use rtems_hzb_cexpsh.Attr.{Att, Value, Table, TagType, in_array}
use rtems_hzb_cexpsh.Attr.Parse.{
  Outcome, done, failed, outside, out_of_fuel, append_att, read_atts, read_att, read_num,
  read_value, finish, by_type, store, grow, put, is_defined, type_of,
}
use rtems_hzb_cexpsh.Attr.Verdict.{IsGrouped}
use rtems_hzb_cexpsh.Attr.Insertion.{append_att-done, insert_before, insert_before-IsGrouped}

-- A predicate on tables that growing and storing keep, the latter where the tag has a type with
-- values and has no value in the array.
pub record IsKept (P : Table → Type 0) : Type 0 where
  pub grown : (tag : ℕ) (t : Table) → P t → P (grow tag t)
  pub stored :
      (fuel : ℕ) (a : Att) (t t' : Table)
      → is_defined (grow a.tag t) a.tag ≡ false
      → type_of (grow a.tag t).pv a.tag ≢ TagType.unknown
      → store fuel a (grow a.tag t) ≡ done t'
      → P t
      → P t'

pub Outcome-cases {ℓ} :
    {A : Type ℓ} (o : Outcome A)
    → ((a : A) × (o ≡ done a)) ⊎ ((o ≡ failed) ⊎ ((o ≡ outside) ⊎ (o ≡ out_of_fuel)))
Outcome-cases (done a) = inl (a, refl)
Outcome-cases failed = inr (inl refl)
Outcome-cases outside = inr (inr (inl refl))
Outcome-cases out_of_fuel = inr (inr (inr refl))

finish-none : (fuel tag : ℕ) (t : Table) (q : Table × List ℕ) → ¬ (finish fuel tag t none ≡ done q)
unfolding finish
finish-none fuel tag t q h = ground (arith, h)

finish-done :
    (fuel tag : ℕ) (t : Table) (o : Option (Value × List ℕ)) (q : Table × List ℕ)
    → finish fuel tag t o ≡ done q
    → (v : Value) × (store fuel (record { tag = tag; val = v }) t ≡ done q.0)
unfolding finish
finish-done fuel tag t none q h = absurd (ground (arith, h))
finish-done fuel tag t (some r) q h = (r.0, ground (arith, h))

by_type-done :
    (ty : TagType) (fuel tag : ℕ) (buf : List ℕ) (t : Table) (q : Table × List ℕ)
    → by_type ty fuel tag buf t ≡ done q
    → (q.0 ≡ t)
      ⊎ ((ty ≢ TagType.unknown)
          × ((v : Value) × (store fuel (record { tag = tag; val = v }) t ≡ done q.0)))
unfolding by_type read_value
by_type-done TagType.unknown fuel tag buf t q h = absurd (finish-none fuel tag t q h)
by_type-done TagType.no_value fuel tag buf t q h = inl (ground (arith, h))
by_type-done TagType.num fuel tag buf t q h =
    inr ((λ e. ground (arith, e)), finish-done fuel tag t (read_value TagType.num buf) q h)
by_type-done TagType.str fuel tag buf t q h =
    inr ((λ e. ground (arith, e)), finish-done fuel tag t (read_value TagType.str buf) q h)
by_type-done TagType.both fuel tag buf t q h =
    inr ((λ e. ground (arith, e)), finish-done fuel tag t (read_value TagType.both buf) q h)

module _ {P : Table → Type 0} (k : IsKept P) where
  pub read_att-kept :
      (fuel tag : ℕ) (buf : List ℕ) (t : Table) (q : Table × List ℕ)
      → read_att fuel tag buf t ≡ done q
      → P t
      → P q.0
  unfolding read_att
  read_att-kept fuel tag buf t q h p = elim (Bool-cases (is_defined (grow tag t) tag)) [
    | inl e ↦ absurd (ground (arith, e, h))
    | inr e ↦
        elim (by_type-done (type_of (grow tag t).pv tag) fuel tag buf (grow tag t) q
          (ground (arith, e, h))) [
            | inl same ↦ subst P (sym same) (k.grown tag t p)
            | inr (known, (v, f)) ↦ k.stored fuel (record { tag = tag; val = v }) t q.0 e known f p
          ]
  ]

  pub read_atts-kept :
      (fuel : ℕ) (buf : List ℕ) (t t' : Table) → read_atts fuel buf t ≡ done t' → P t → P t'
  unfolding read_atts
  read_atts-kept fuel [] t t' h p = ground (arith, h, p)
  read_atts-kept zero (b ∷ bs) t t' h p = ground (arith, h)
  read_atts-kept (suc fuel) (b ∷ bs) t t' h p = elim (Option-cases (read_num (b ∷ bs))) [
    | inl e ↦ absurd (ground (arith, h, e))
    | inr (r, e) ↦ elim (Outcome-cases (read_att fuel r.0 r.1 t)) [
      | inr (inl n) ↦ absurd (ground (arith, h, e, n))
      | inr (inr (inl n)) ↦ absurd (ground (arith, h, e, n))
      | inr (inr (inr n)) ↦ absurd (ground (arith, h, e, n))
      | inl (q, f) ↦
          read_atts-kept fuel q.1 q.0 t' (ground (arith, h, e, f))
            (read_att-kept fuel r.0 r.1 t q f p)
    ]
  ]

-- The table after a value went into the array, and after one went into the list.
abbrev pub arrayed : Att → Table → Table
arrayed a t = record t {
  map = put t.map a.tag t.idx;
  vals = put t.vals t.idx a.val;
  idx = (t.idx + 1) % 256;
}

abbrev pub listed : Att → Table → Table
listed a t = record t { lst = insert_before a t.lst }

pub store-done :
    (fuel : ℕ) (a : Att) (t t' : Table)
    → store fuel a t ≡ done t'
    → ((in_array t.pv a.tag ≡ true) × (t' ≡ arrayed a t))
      ⊎ ((in_array t.pv a.tag ≡ false) × (t' ≡ listed a t))
unfolding store
store-done fuel a t t' h = elim (Bool-cases (in_array t.pv a.tag)) [
  | inl e ↦ inl (e, ground (arith, e, h))
  | inr e ↦ elim (Outcome-cases (append_att fuel a t.lst)) [
    | inl (l, f) ↦ inr (e, ground (arith, e, f, h, append_att-done fuel a t.lst l f))
    | inr (inl f) ↦ absurd (ground (arith, e, f, h))
    | inr (inr (inl f)) ↦ absurd (ground (arith, e, f, h))
    | inr (inr (inr f)) ↦ absurd (ground (arith, e, f, h))
  ]
]

-- Growing changes nothing but `room` and `avail`.
pub grow-same :
    (tag : ℕ) (t : Table)
    → ((grow tag t).pv ≡ t.pv)
      × ((grow tag t).lst ≡ t.lst)
      × ((grow tag t).map ≡ t.map)
      × ((grow tag t).idx ≡ t.idx)
      × ((grow tag t).vals ≡ t.vals)
unfolding grow
grow-same tag t = ground arith

IsGrouped-kept : IsKept (λ t. IsGrouped t.lst)
IsGrouped-kept = record {
  grown = λ tag t p. subst IsGrouped (sym (grow-same tag t).1) p;
  stored = λ fuel a t t' u v h p.
      let g = grow a.tag t in
      let q = subst IsGrouped (sym (grow-same a.tag t).1) p in
      elim (store-done fuel a g t' h) [
        | inl (_, e) ↦ subst (λ x. IsGrouped x.lst) (sym e) q
        | inr (_, e) ↦ subst (λ x. IsGrouped x.lst) (sym e) (insert_before-IsGrouped a g.lst q)
      ];
}

-- The `Tag_Compat` values of a table stand together, as they do in a new one.
pub read_atts-IsGrouped :
    (fuel : ℕ) (buf : List ℕ) (t t' : Table)
    → read_atts fuel buf t ≡ done t'
    → IsGrouped t.lst
    → IsGrouped t'.lst
read_atts-IsGrouped = read_atts-kept IsGrouped-kept
