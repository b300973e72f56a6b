-- ===== src/Modules/Linking.antt =====
-- What the end of `cexpModuleLoad` does to the dependencies: the new module is noted with the modules
-- that it needs, and goes to the end of the list.
use rtems_hzb_cexpsh.Base.{
  ℕ, ◌≡◌, ◌⊎◌, inl, inr, ◌≢◌, ◌<◌, true, false, List, [], ◌∷◌, ◌++◌, All-append, map, arith, ◌∙◌,
  ap, sym, same_index, Bool-cases, ◌&&◌, false≢true, if◌then◌else◌,
}
use rtems_hzb_cexpsh.Modules.Bitmap.{
  IsBitmap, bitmap_tst, tst-set, no_bits, no_bits-tst, no_bits-IsBitmap, bitmap_set-IsBitmap,
  max_num_modules,
}
use rtems_hzb_cexpsh.Modules.Record.{
  Module, In, All-In, DistinctBy, DistinctBy-map, DistinctBy-snoc, In-map, map-In, In-snoc,
  snoc-old, snoc-new,
}
use rtems_hzb_cexpsh.Modules.Unload.{handle}
use rtems_hzb_cexpsh.Modules.Load.{add_dependent}
use rtems_hzb_cexpsh.Modules.Deps.{IsConsistent, ident, named, All-map-In}

-- A module that can join the list: its identifier, handle and name are not in use, nobody needs it
-- yet, and it needs modules of the list only.
pub record CanJoin (n : Module) (ms : List Module) : Type 0 where
  pub id_small : n.id < max_num_modules
  pub id_free : (x : Module) → In x ms → x.id ≢ n.id
  pub handle_free : (x : Module) → In x ms → x.addr ≢ n.addr
  pub name_free : (x : Module) → In x ms → x.name ≢ n.name
  pub no_dependents : n.neededby ≡ no_bits
  pub needs_loaded : (j : ℕ) → bitmap_tst n.needs j ≡ true → (a : Module) × In a ms × (a.id ≡ j)

abbrev pub joined : Module → List Module → List Module
joined n ms = map (add_dependent n) ms ++ n ∷ []

module _ (n x : Module) where
  -- `addDependencies` touches no field but one.
  same_id : (add_dependent n x).id ≡ x.id
  same_id = ground arith

  same_handle : (add_dependent n x).addr ≡ x.addr
  same_handle = ground arith

  same_name : (add_dependent n x).name ≡ x.name
  same_name = ground arith

  same_needs : (add_dependent n x).needs ≡ x.needs
  same_needs = ground arith

  module _ (small : n.id < max_num_modules) (shape : IsBitmap x.neededby) where
    add_dependent-IsBitmap : IsBitmap (add_dependent n x).neededby
    add_dependent-IsBitmap = elim (Bool-cases (bitmap_tst n.needs x.id)) [
      | inl up ↦ rw up (bitmap_set-IsBitmap x.neededby n.id shape small)
      | inr down ↦ rw down shape
    ]

    tst-add :
        (j : ℕ)
        → bitmap_tst (add_dependent n x).neededby j
          ≡ (if bitmap_tst n.needs x.id && same_index n.id j then true else bitmap_tst x.neededby j)
    tst-add j = ground (arith, tst-set x.neededby n.id shape small j)

module _ (n : Module) (ms : List Module) (v : IsConsistent ms) (c : CanJoin n ms) where
  shape_of : (x : Module) → In x ms → IsBitmap x.neededby
  shape_of x i = All-In (λ m. IsBitmap m.neededby) x ms v.shapes i

  joined-In :
      (a : Module)
      → In a (joined n ms)
      → ((x : Module) × In x ms × (a ≡ add_dependent n x)) ⊎ (a ≡ n)
  joined-In a i = elim (In-snoc a n (map (add_dependent n) ms) i) [
    | inl j ↦ inl (In-map (add_dependent n) a ms j)
    | inr e ↦ inr e
  ]

  old-joined : (x : Module) → In x ms → In (add_dependent n x) (joined n ms)
  old-joined x i = snoc-old _ n _ (map-In (add_dependent n) x ms i)

  -- The identifier of the new module is raised in no bitmap yet.
  not_known : (x : Module) → In x ms → bitmap_tst x.neededby n.id ≡ false
  not_known x i = elim (Bool-cases (bitmap_tst x.neededby n.id)) [
    | inl up ↦ let (b, j, e) = v.known x n.id i up in absurd (c.id_free b j e)
    | inr down ↦ down
  ]

  not_needed : (x : Module) → In x ms → bitmap_tst x.needs n.id ≡ false
  not_needed x i = elim (Bool-cases (bitmap_tst x.needs n.id)) [
    | inl up ↦ let (b, j, e) = v.closed x n.id i up in absurd (c.id_free b j e)
    | inr down ↦ down
  ]

  not_self : bitmap_tst n.needs n.id ≡ false
  not_self = elim (Bool-cases (bitmap_tst n.needs n.id)) [
    | inl up ↦ let (b, j, e) = c.needs_loaded n.id up in absurd (c.id_free b j e)
    | inr down ↦ down
  ]

  no_bits_up : (j : ℕ) → bitmap_tst n.neededby j ≡ false
  no_bits_up j = rw c.no_dependents (no_bits-tst j)

  dual_old :
      (x y : Module)
      → In x ms
      → In y ms
      → bitmap_tst (add_dependent n x).neededby (add_dependent n y).id
        ≡ bitmap_tst (add_dependent n y).needs (add_dependent n x).id
  dual_old x y i j =
      rw (same_id n y, same_id n x, same_needs n y)
        (ground (arith, tst-add n x c.id_small (shape_of x i) y.id, c.id_free y j, v.dual x y i j))

  dual_new :
      (x : Module)
      → In x ms
      → bitmap_tst (add_dependent n x).neededby n.id ≡ bitmap_tst n.needs (add_dependent n x).id
  dual_new x i =
      rw (same_id n x) (ground (arith, tst-add n x c.id_small (shape_of x i) n.id, not_known x i))

  joined-dual :
      (a b : Module)
      → ((x : Module) × In x ms × (a ≡ add_dependent n x)) ⊎ (a ≡ n)
      → ((y : Module) × In y ms × (b ≡ add_dependent n y)) ⊎ (b ≡ n)
      → bitmap_tst a.neededby b.id ≡ bitmap_tst b.needs a.id
  joined-dual a b (inl (x, i, e)) (inl (y, j, f)) = rw (e, f) (dual_old x y i j)
  joined-dual a b (inl (x, i, e)) (inr f) = rw (e, f) (dual_new x i)
  joined-dual a b (inr e) (inl (y, j, f)) =
      rw (e, f)
        (no_bits_up _ ∙ sym (ap (λ bm. bitmap_tst bm n.id) (same_needs n y) ∙ not_needed y j))
  joined-dual a b (inr e) (inr f) = rw (e, f) (no_bits_up n.id ∙ sym not_self)

  find_old :
      (j : ℕ) → (a : Module) × In a ms × (a.id ≡ j) → (a : Module) × In a (joined n ms) × (a.id ≡ j)
  find_old j (a, i, e) = (add_dependent n a, old-joined a i, same_id n a ∙ e)

  joined-closed :
      (b : Module) (j : ℕ)
      → ((y : Module) × In y ms × (b ≡ add_dependent n y)) ⊎ (b ≡ n)
      → bitmap_tst b.needs j ≡ true
      → (a : Module) × In a (joined n ms) × (a.id ≡ j)
  joined-closed b j (inl (y, i, e)) h = find_old j (
      v.closed y j i (
        sym (
          ap (λ (m : Module). bitmap_tst m.needs j) e ∙ ap (λ bm. bitmap_tst bm j) (same_needs n y))
        ∙ h))
  joined-closed b j (inr e) h =
      find_old j (c.needs_loaded j (sym (ap (λ (m : Module). bitmap_tst m.needs j) e) ∙ h))

  raised :
      (x : Module) (j : ℕ)
      → In x ms
      → bitmap_tst (add_dependent n x).neededby j ≡ true
      → (n.id ≡ j) ⊎ (bitmap_tst x.neededby j ≡ true)
  raised x j i h = ground (arith, tst-add n x c.id_small (shape_of x i) j)

  joined-DistinctBy {ℓ} :
      {A : Type ℓ} (f : Module → A)
      → ((x : Module) → f (add_dependent n x) ≡ f x)
      → ((x : Module) → In x ms → f x ≢ f n)
      → DistinctBy f ms
      → DistinctBy f (joined n ms)
  joined-DistinctBy f same new d =
      DistinctBy-snoc f _ n (DistinctBy-map (add_dependent n) f ms same d) λ y i e.
        let (x, j, q) = In-map (add_dependent n) y ms i in new x j (sym (same x) ∙ ap f (sym q) ∙ e)

  joined-known :
      (a : Module) (j : ℕ)
      → ((x : Module) × In x ms × (a ≡ add_dependent n x)) ⊎ (a ≡ n)
      → bitmap_tst a.neededby j ≡ true
      → (b : Module) × In b (joined n ms) × (b.id ≡ j)
  joined-known a j (inl (x, i, e)) h =
      elim (raised x j i (sym (ap (λ (m : Module). bitmap_tst m.neededby j) e) ∙ h)) [
        | inl new ↦ (n, snoc-new n _, new)
        | inr old ↦ find_old j (v.known x j i old)
      ]
  joined-known a j (inr e) h =
      absurd
        (false≢true (sym (no_bits_up j) ∙ sym (ap (λ (m : Module). bitmap_tst m.neededby j) e) ∙ h))

  -- The list is consistent with the new module.
  pub joined-IsConsistent : IsConsistent (joined n ms)
  joined-IsConsistent = record {
    small =
        All-append (λ m. m.id < max_num_modules) (map (add_dependent n) ms) (n ∷ [])
          (All-map-In (add_dependent n) (λ m. m.id < max_num_modules) ms
            (λ x i p. rw (same_id n x) p) v.small)
          (c.id_small, tt);
    ids = joined-DistinctBy ident (same_id n) c.id_free v.ids;
    handles = joined-DistinctBy handle (same_handle n) c.handle_free v.handles;
    names = joined-DistinctBy named (same_name n) c.name_free v.names;
    shapes =
        All-append (λ m. IsBitmap m.neededby) (map (add_dependent n) ms) (n ∷ [])
          (All-map-In (add_dependent n) (λ m. IsBitmap m.neededby) ms
            (λ x i p. add_dependent-IsBitmap n x c.id_small p) v.shapes)
          (rw c.no_dependents no_bits-IsBitmap, tt);
    dual = λ a b i j. joined-dual a b (joined-In a i) (joined-In b j);
    closed = λ b j i h. joined-closed b j (joined-In b i) h;
    known = λ a j i h. joined-known a j (joined-In a i) h;
  }
