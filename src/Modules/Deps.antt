-- ===== src/Modules/Deps.antt =====
-- The dependencies between loaded modules, which the bitmaps `needs` and `neededby` record from both
-- ends: loading and unloading keep them consistent, and no module goes that another one needs.
use rtems_hzb_cexpsh.Base.{
  ℕ, ◌≡◌, refl, inl, inr, ◌≢◌, ◌<◌, true, false, List, [], ◌∷◌, All, map, arith, ◌∙◌, ap, sym,
  same_index,
}
use rtems_hzb_cexpsh.Modules.Bitmap.{
  IsBitmap, bitmap_tst, bitmap_nonzero, tst-clr, bitmap_nonzero-tst, bitmap_clr-IsBitmap,
  max_num_modules,
}
use rtems_hzb_cexpsh.Modules.Record.{
  Module, In, All-In, DistinctBy, DistinctBy-eq, In-map, map-In, DistinctBy-map,
}
use rtems_hzb_cexpsh.Modules.Ids.{SmallIds}
use rtems_hzb_cexpsh.Modules.Unload.{
  handle, unlink, unlink-In, unlink_gone, unlink_kept, unlink-All, unlink-DistinctBy, is_system,
  drop_dependent,
}

abbrev pub ident : Module → ℕ
ident m = m.id

abbrev pub named : Module → List ℕ
named m = m.name

-- Identifiers, handles and names occur once each; each module's `neededby` is the other end of the
-- modules' `needs`; and both speak of loaded modules only.
pub record IsConsistent (ms : List Module) : Type 0 where
  pub small : SmallIds ms
  pub ids : DistinctBy ident ms
  pub handles : DistinctBy handle ms
  pub names : DistinctBy named ms
  pub shapes : All (λ m. IsBitmap m.neededby) ms
  pub dual :
      (a b : Module) → In a ms → In b ms → bitmap_tst a.neededby b.id ≡ bitmap_tst b.needs a.id
  pub closed :
      (b : Module) (j : ℕ)
      → In b ms
      → bitmap_tst b.needs j ≡ true
      → (a : Module) × In a ms × (a.id ≡ j)
  pub known :
      (a : Module) (j : ℕ)
      → In a ms
      → bitmap_tst a.neededby j ≡ true
      → (b : Module) × In b ms × (b.id ≡ j)

-- The list that an unload of `t` leaves.
abbrev pub without : Module → List Module → List Module
without t ms = unlink t.addr (map (drop_dependent t.id) ms)

is_system-map :
    (h id : ℕ) (ms : List Module) → is_system h (map (drop_dependent id) ms) ≡ is_system h ms
unfolding is_system
is_system-map h id [] = refl
is_system-map h id (m ∷ ms) = refl

pub All-map-In {ℓ} :
    (g : Module → Module) (P : Module → Type ℓ) (ms : List Module)
    → ((x : Module) → In x ms → P x → P (g x))
    → All P ms
    → All P (map g ms)
All-map-In g P [] keep a = tt
All-map-In g P (x ∷ xs) keep a =
    (keep x (inl refl) a.0, All-map-In g P xs (λ y i. keep y (inr i)) a.1)

module _ (t : Module) (ms : List Module) (v : IsConsistent ms) (here : In t ms) where
  -- Another module has another identifier.
  id-ne : (x : Module) → In x ms → x.addr ≢ t.addr → x.id ≢ t.id
  id-ne x i ne e = ne (ap handle (DistinctBy-eq ident ms x t v.ids i here e))

  tst-drop :
      (x : Module) (j : ℕ)
      → In x ms
      → bitmap_tst (drop_dependent t.id x).neededby j
        ≡ elim (same_index t.id j) [ true ↦ false | false ↦ bitmap_tst x.neededby j ]
  tst-drop x j i =
      tst-clr x.neededby t.id (All-In (λ m. IsBitmap m.neededby) x ms v.shapes i)
        (All-In (λ m. m.id < max_num_modules) t ms v.small here) j

  drop_tst :
      (x : Module) (j : ℕ)
      → In x ms
      → bitmap_tst (drop_dependent t.id x).neededby j ≡ true
      → (bitmap_tst x.neededby j ≡ true) × (t.id ≢ j)
  drop_tst x j i h = ground (arith, tst-drop x j i)

  other-ne : (y : Module) (j : ℕ) → In y ms → y.id ≡ j → t.id ≢ j → y.addr ≢ t.addr
  other-ne y j i e ne q = ne (ap ident (sym (DistinctBy-eq handle ms y t v.handles i here q)) ∙ e)

  module _ (tail : is_system t.addr ms ≡ false) where
    -- What is left comes from another module, and every other module is left.
    pub without-In :
        (m : Module)
        → In m (without t ms)
        → (x : Module) × In x ms × (x.addr ≢ t.addr) × (m ≡ drop_dependent t.id x)
    without-In m i =
        let (x, j, e) = In-map (drop_dependent t.id) m ms (unlink-In t.addr m _ i) in
        (x, j, (λ q. gone (ap handle e ∙ q)), e)
      where
        gone : m.addr ≢ t.addr
        gone =
            unlink_gone t.addr m (map (drop_dependent t.id) ms)
              (DistinctBy-map (drop_dependent t.id) handle ms (λ x. refl) v.handles)
              (is_system-map t.addr t.id ms ∙ tail) i

    pub In-without :
        (x : Module) → In x ms → x.addr ≢ t.addr → In (drop_dependent t.id x) (without t ms)
    In-without x i ne = unlink_kept t.addr _ _ (map-In (drop_dependent t.id) x ms i) ne

    -- A field that the change leaves alone holds what it held.
    without-All {ℓ} :
        (P : Module → Type ℓ)
        → ((x : Module) → In x ms → P x → P (drop_dependent t.id x))
        → All P ms
        → All P (without t ms)
    without-All P keep a =
        unlink-All P t.addr (map (drop_dependent t.id) ms)
          (All-map-In (drop_dependent t.id) P ms keep a)

    without-DistinctBy {ℓ} :
        {A : Type ℓ} (f : Module → A)
        → ((x : Module) → f (drop_dependent t.id x) ≡ f x)
        → DistinctBy f ms
        → DistinctBy f (without t ms)
    without-DistinctBy f same d =
        unlink-DistinctBy f t.addr _ (DistinctBy-map (drop_dependent t.id) f ms same d)

    dual_left :
        (x y : Module)
        → In x ms
        → In y ms
        → y.addr ≢ t.addr
        → bitmap_tst (drop_dependent t.id x).neededby y.id ≡ bitmap_tst y.needs x.id
    dual_left x y i j ne = ground (arith, tst-drop x y.id i, id-ne y j ne, v.dual x y i j)

    module _ (free : bitmap_nonzero t.neededby ≡ false) where
      -- Nobody needs the module that goes.
      pub not_needed : (b : Module) → In b ms → bitmap_tst b.needs t.id ≡ false
      not_needed b i = sym (v.dual t b here i) ∙ bitmap_nonzero-tst t.neededby b.id free

      needed-ne :
          (x y : Module) (j : ℕ)
          → In x ms
          → In y ms
          → x.id ≡ j
          → bitmap_tst y.needs j ≡ true
          → x.addr ≢ t.addr
      needed-ne x y j i k e h q =
          let same : t.id ≡ j =
            ap ident (sym (DistinctBy-eq handle ms x t v.handles i here q)) ∙ e in
          cc (not_needed y k, ap (bitmap_tst y.needs) same)

      pub without-IsConsistent : IsConsistent (without t ms)
      without-IsConsistent = record {
        small = without-All (λ m. m.id < max_num_modules) (λ x i p. p) v.small;
        ids = without-DistinctBy ident (λ x. refl) v.ids;
        handles = without-DistinctBy handle (λ x. refl) v.handles;
        names = without-DistinctBy named (λ x. refl) v.names;
        shapes =
            without-All (λ m. IsBitmap m.neededby)
              (λ x i p.
                bitmap_clr-IsBitmap x.neededby t.id p
                  (All-In (λ m. m.id < max_num_modules) t ms v.small here))
              v.shapes;
        dual = λ a b i j.
            let (x, xi, xn, xe) = without-In a i in
            let (y, yi, yn, ye) = without-In b j in rw (xe, ye) (dual_left x y xi yi yn);
        closed = λ b j i h.
            let (y, yi, yn, ye) = without-In b i in
            let (x, xi, xe) =
              v.closed y j yi (ap (λ (m : Module). bitmap_tst m.needs j) (sym ye) ∙ h) in
            (
              drop_dependent t.id x,
              In-without x xi (
                  needed-ne x y j xi yi xe
                    (ap (λ (m : Module). bitmap_tst m.needs j) (sym ye) ∙ h)),
              xe,
            );
        known = λ a j i h.
            let (x, xi, xn, xe) = without-In a i in
            let (up, ne) =
              drop_tst x j xi (ap (λ (m : Module). bitmap_tst m.neededby j) (sym xe) ∙ h) in
            let (y, yi, ye) = v.known x j xi up in
            (drop_dependent t.id y, In-without y yi (other-ne y j yi ye ne), ye);
      }
