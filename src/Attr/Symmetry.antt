-- ===== src/Attr/Symmetry.antt =====
-- Matching attribute sets does not depend on which comes first (pmbfd/attset.c).
use rtems_hzb_cexpsh.Base.{
  ℕ, ◌≡◌, ◌↔◌, Bool, true, false, not, ◌&&◌, ◌==◌, Option, none, some, List, [], ◌∷◌, All,
  Bool-cases, Option-cases, inl, inr, arith, refl, sym, subst, ap, ◌∙◌,
}
use rtems_hzb_cexpsh.Attr.{Table, Vendor, tag_fp, tag_vector, tag_struct_return}
use rtems_hzb_cexpsh.Attr.Sets.{Matcher, match_one, match_all, match_attribute_set}
use rtems_hzb_cexpsh.Attr.Match.{
  ppc_match, match_compat, match_tags, values_agree, filter_gnu_ppc_unknown, find_compat,
  filter_nongnu, filter_gt1,
}

-- What two tables owe each other: those of one vendor match by its handler.
abbrev pub Matches : Matcher → Table → Table → Type 0
Matches matcher a b =
    a.pv.addr ≡ b.pv.addr
    → (f : Table → Table → Bool) × (matcher a.pv.addr ≡ some f) × (f a b ≡ true)

abbrev pub IsSymmetric : Matcher → Type 0
IsSymmetric matcher =
    (at : ℕ) (f : Table → Table → Bool) → matcher at ≡ some f → (a b : Table) → f a b ≡ f b a

abbrev pub AllMatch : Matcher → List Table → List Table → Type 0
AllMatch matcher xs ys = All (λ a. All (Matches matcher a) ys) xs

abbrev verdict : Option Bool → Bool
verdict none = false
verdict (some ok) = ok

module _ (matcher : Matcher) where
  one-Matches :
      (a : Table) (bs : List Table) (ok : Bool)
      → (match_one matcher a bs ok ≡ some true) ↔ ((ok ≡ true) × All (Matches matcher a) bs)
  unfolding match_one
  one-Matches a [] ok = ground arith
  one-Matches a (b ∷ bs) ok = elim (Bool-cases (a.pv.addr == b.pv.addr)) [
    | inr other ↦ ground (arith, other, one-Matches a bs ok)
    | inl same ↦ elim (Option-cases (matcher a.pv.addr)) [
      | inl lacks ↦
          rw (same, lacks)
            (
              (λ e. absurd (ground (arith, e))),
              λ p. absurd (ground (arith, lacks, (p.1.0 (ground (arith, same))).1)),
            )
      | inr (f, has) ↦
          rw (same, has)
            (
              (λ e.
                  let r = (one-Matches a bs (ok && f a b)).0 e in
                  (ground (arith, r.0), ((λ h. (f, refl, ground (arith, r.0))), r.1))),
              λ p.
                  (one-Matches a bs (ok && f a b)).1
                    (ground (arith, p.0, has, p.1.0 (ground (arith, same))), p.1.1),
            )
    ]
  ]

  all-Matches :
      (xs ys : List Table) (ok : Bool)
      → (match_all matcher xs ys ok ≡ some true) ↔ ((ok ≡ true) × AllMatch matcher xs ys)
  unfolding match_all
  all-Matches [] ys ok = ground arith
  all-Matches (a ∷ xs) ys ok = elim (Option-cases (match_one matcher a ys ok)) [
    | inl lacks ↦
        rw (match_all, lacks)
          (
            (λ e. absurd (ground (arith, e))),
            λ p. absurd (ground (arith, lacks, (one-Matches a ys ok).1 (p.0, p.1.0))),
          )
    | inr (k, is) ↦
        rw (match_all, is)
          (
            (λ e.
                let r = (all-Matches xs ys k).0 e in
                let q = (one-Matches a ys ok).0 (is ∙ ap some r.0) in (q.0, (q.1, r.1))),
            λ p.
                (all-Matches xs ys k).1
                  (ground (arith, is, (one-Matches a ys ok).1 (p.0, p.1.0)), p.1.1),
          )
  ]

  Matches-flip : IsSymmetric matcher → (a b : Table) → Matches matcher a b → Matches matcher b a
  Matches-flip s a b h same =
      let (f, has, ok) = h (sym same) in
      let there = subst (λ x. matcher x ≡ some f) (sym same) has in
      (f, there, sym (s a.pv.addr f has a b) ∙ ok)

  cons-All :
      (a : Table) (xs ys : List Table)
      → All (λ y. Matches matcher y a) ys
      → AllMatch matcher ys xs
      → AllMatch matcher ys (a ∷ xs)
  cons-All a xs [] p q = tt
  cons-All a xs (y ∷ ys) p q = ((p.0, q.0), cons-All a xs ys p.1 q.1)

  nil-All : (ys : List Table) → AllMatch matcher ys []
  nil-All [] = tt
  nil-All (y ∷ ys) = (tt, nil-All ys)

  flip-All :
      IsSymmetric matcher
      → (a : Table) (ys : List Table) → All (Matches matcher a) ys
      → All (λ y. Matches matcher y a) ys
  flip-All s a [] p = tt
  flip-All s a (y ∷ ys) p = (Matches-flip s a y p.0, flip-All s a ys p.1)

  swap-All :
      IsSymmetric matcher → (xs ys : List Table) → AllMatch matcher xs ys → AllMatch matcher ys xs
  swap-All s [] ys p = nil-All ys
  swap-All s (a ∷ xs) ys p = cons-All a xs ys (flip-All s a ys p.0) (swap-All s xs ys p.1)

  ok-All :
      (xs ys : List Table)
      → (verdict (match_all matcher xs ys true) ≡ true) ↔ AllMatch matcher xs ys
  ok-All xs ys = ground (arith, all-Matches xs ys true)

  set_forward :
      IsSymmetric matcher
      → (known : List Vendor) (a b : Option (List Table))
      → match_attribute_set matcher known a b ≡ true
      → match_attribute_set matcher known b a ≡ true
  unfolding match_attribute_set
  set_forward s known none none h = refl
  set_forward s known none (some b) h = h
  set_forward s known (some a) none h = h
  set_forward s known (some a) (some b) h =
      let flip : verdict (match_all matcher a b true) ≡ true
          → verdict (match_all matcher b a true) ≡ true =
        λ k. (ok-All b a).1 (swap-All s a b ((ok-All a b).0 k)) in
      ground (arith, h, flip)

  -- Whether two attribute sets match, tables of any vendors in them, does not depend on their order,
  -- where the handler of each vendor does not depend on it.
  pub match_attribute_set-symmetric :
      IsSymmetric matcher
      → (known : List Vendor) (a b : Option (List Table))
      → match_attribute_set matcher known a b ≡ match_attribute_set matcher known b a
  match_attribute_set-symmetric s known a b =
      ground (arith, set_forward s known a b, set_forward s known b a)

tags_flip : (tags : List ℕ) (a b : Table) → match_tags tags a b ≡ match_tags tags b a
unfolding match_tags values_agree
tags_flip [] a b = refl
tags_flip (tag ∷ tags) a b = ground (arith, tags_flip tags a b)

and_flip : (k l m n : Bool) → k && l && m && n ≡ l && k && n && m
and_flip k l m n = ground arith

compat_flip : (a b : Table) → match_compat a b ≡ match_compat b a
unfolding match_compat
compat_flip a b =
    let l = find_compat a.lst in
    let m = find_compat b.lst in
    and_flip (filter_nongnu l) (filter_nongnu m) (filter_gt1 l m) (filter_gt1 m l)

-- The PowerPC handler does not depend on the order of the tables.
pub ppc_match-symmetric : (a b : Table) → ppc_match a b ≡ ppc_match b a
unfolding ppc_match
ppc_match-symmetric a b =
    let k = filter_gnu_ppc_unknown a in
    let l = filter_gnu_ppc_unknown b in
    let tags = tag_fp ∷ tag_vector ∷ tag_struct_return ∷ [] in
    rw (tags_flip tags a b, compat_flip a b)
      (ands (not k) (not l) (match_tags tags b a) (match_compat b a))
  where
    ands : (k l m n : Bool) → k && l && m && n ≡ l && k && m && n
    ands k l m n = ground arith
