-- ===== src/Link/Bound.antt =====
-- To what `s_reloc` of bfdstuff.c has bound the undefined symbols when it reports no error.
use rtems_hzb_cexpsh.Base.{
  ℕ, zero, suc, ◌≡◌, ◌≢◌, ◌<◌, inl, inr, true, false, ◌==◌, if◌then◌else◌, Option, none, some, List,
  [], ◌∷◌, get_elem?, set, length, All, arith, refl, sym, ap, subst, ◌∙◌, Bool-cases, Option-cases,
}
use rtems_hzb_cexpsh.Syms.{Sym}
use rtems_hzb_cexpsh.Modules.Record.{Module}
use rtems_hzb_cexpsh.Modules.Lookup.{sym_lookup}
use rtems_hzb_cexpsh.Modules.Bitmap.{
  IsBitmap, bitmap_set, max_num_modules, tst-set, bitmap_set-IsBitmap,
}
use rtems_hzb_cexpsh.Link.Resolve.{Asym, Home, undefined, in_file, absolute, common, asym_from}
use rtems_hzb_cexpsh.Link.Cases.{sym_lookup-id}
use rtems_hzb_cexpsh.Link.Relocs.{
  Reloc, Setting, Work, one_error, dso_symbol, perform, reloc_undefined, reloc_home, reloc_one,
  reloc_loop,
}
use rtems_hzb_cexpsh.Link.Rounds.{
  IsLater, IsLater-refl, IsLater-trans, IsBound-later, perform-IsLater, IsRound, perform-st,
  error-IsRound, new-IsRound, if-IsRound, IsBound,
}

module _ (g : Setting) where
  -- What an entry's symbol is bound to in the end, where it was undefined.
  abbrev pub IsServed : Work → Work → Reloc → Type 0
  IsServed w w' r =
      (sp : Asym)
      → get_elem? w.st r.sym ≡ some sp
      → sp.home ≡ undefined
      → IsBound g sp.name r.sym w'

  module _ (ids : All (λ m. m.id < max_num_modules) g.mods) where
    found-IsRound :
        (hit : Option (Module × Sym)) (i : ℕ) (sp : Asym) (r : Reloc) (w : Work)
        → get_elem? w.st i ≡ some sp
        → sp.home ≡ undefined
        → i < length w.st
        → IsBitmap w.depend
        → sym_lookup sp.name g.mods ≡ hit
        → IsRound g i sp w (reloc_undefined g hit i r w)
    unfolding reloc_undefined
    found-IsRound none i sp r w h u lt v look = error-IsRound g i sp w v
    found-IsRound (some (m, ts)) i sp r w h u lt v look =
        let dso = dso_symbol g.module_addr ts in
        let id = sym_lookup-id sp.name g.mods m ts ids look in
        let depend = bitmap_set w.depend m.id in
        let with_dso : Work = record w { st = set w.st i dso } in
        let with_sym : Work = record w { st = set w.st i (asym_from ts); depend = depend } in
        let set_m = tst-set w.depend m.id v id in
        if-IsRound g (g.is_dso_handle m ts) i sp w
          (if g.cxa_finalize then perform g r dso with_dso else one_error w)
          (perform g r (asym_from ts) with_sym)
          (λ d.
            if-IsRound g g.cxa_finalize i sp w (perform g r dso with_dso) (one_error w)
              (λ f.
                new-IsRound g i sp dso r w w.depend h u lt v (λ k t. t) m ts look (inl (d, refl)))
              (λ f. error-IsRound g i sp w v))
          (λ d.
            new-IsRound g i sp (asym_from ts) r w depend h u lt
              (bitmap_set-IsBitmap w.depend m.id v id) (λ k t. ground (arith, t, set_m k)) m ts look
              (inr (d, refl, ground (arith, set_m m.id))))

    plain-IsRound :
        (i : ℕ) (sp : Asym) (r : Reloc) (w : Work)
        → IsBitmap w.depend
        → sp.home ≢ undefined
        → IsRound g i sp w (perform g r sp w)
    plain-IsRound i sp r w v d = record {
      later = perform-IsLater g r sp w v;
      others = λ j e. ap (λ l. get_elem? l j) (perform-st g r sp w);
      binds = λ e u. absurd (d u);
    }

    home-IsRound :
        (home : Home) (i : ℕ) (sp : Asym) (r : Reloc) (w : Work)
        → sp.home ≡ home
        → get_elem? w.st i ≡ some sp
        → i < length w.st
        → IsBitmap w.depend
        → IsRound g i sp w (reloc_home g home i sp r w)
    unfolding reloc_home
    home-IsRound undefined i sp r w is h lt v =
        found-IsRound (sym_lookup sp.name g.mods) i sp r w h is lt v refl
    home-IsRound (in_file false) i sp r w is h lt v = record {
      later = IsLater-refl w v;
      others = λ j e. refl;
      binds = λ e u. absurd (ground (arith, is, u));
    }
    home-IsRound (in_file true) i sp r w is h lt v =
        plain-IsRound i sp r w v (λ u. ground (arith, is, u))
    home-IsRound common i sp r w is h lt v = plain-IsRound i sp r w v (λ u. ground (arith, is, u))
    home-IsRound absolute i sp r w is h lt v = plain-IsRound i sp r w v (λ u. ground (arith, is, u))

    inside : (l : List Asym) (i : ℕ) (sp : Asym) → get_elem? l i ≡ some sp → i < length l
    inside [] i sp h = absurd (ground (arith, h))
    inside (x ∷ xs) zero sp h = omega arith
    inside (x ∷ xs) (suc i) sp h = omega (arith, inside xs i sp h)

    one-IsRound :
        (r : Reloc) (sp : Asym) (w : Work)
        → get_elem? w.st r.sym ≡ some sp
        → IsBitmap w.depend
        → IsRound g r.sym sp w (reloc_one g r w)
    unfolding reloc_one
    one-IsRound r sp w h v =
        let go : Option Asym → Work =
          λ o. elim o [ none ↦ one_error w | some q ↦ reloc_home g q.home r.sym q r w ] in
        subst (λ o. IsRound g r.sym sp w (go o)) (sym h)
          (home-IsRound sp.home r.sym sp r w refl h (inside w.st r.sym sp h) v)

    -- A round whatever its slot.
    any_round :
        (r : Reloc) (w : Work)
        → IsBitmap w.depend
        → IsLater w (reloc_one g r w)
          × ((j : ℕ) → r.sym ≢ j → get_elem? (reloc_one g r w).st j ≡ get_elem? w.st j)
    unfolding reloc_one
    any_round r w v = elim (Option-cases (get_elem? w.st r.sym)) [
      | inr (sp, h) ↦ ((one-IsRound r sp w h v).later, (one-IsRound r sp w h v).others)
      | inl h ↦
          let go : Option Asym → Work =
            λ o. elim o [ none ↦ one_error w | some q ↦ reloc_home g q.home r.sym q r w ] in
          subst
            (λ o.
              IsLater w (go o) × ((j : ℕ) → r.sym ≢ j → get_elem? (go o).st j ≡ get_elem? w.st j))
            (sym h)
            (
              record { errors = omega arith; real = v; bits = λ k t. t; slots = λ j q e d. e },
              (λ j d. refl),
            )
    ]

    loop-IsLater : (rs : List Reloc) (w : Work) → IsBitmap w.depend → IsLater w (reloc_loop g rs w)
    unfolding reloc_loop
    loop-IsLater [] w v = IsLater-refl w v
    loop-IsLater (r ∷ rs) w v =
        let one = (any_round r w v).0 in
        IsLater-trans w (reloc_one g r w) (reloc_loop g rs (reloc_one g r w)) one
          (loop-IsLater rs (reloc_one g r w) one.real)

    serve :
        (r q : Reloc) (w w' : Work)
        → IsBitmap w.depend
        → (reloc_one g r w).errors ≡ w.errors
        → IsLater (reloc_one g r w) w'
        → IsServed (reloc_one g r w) w' q
        → IsServed w w' q
    serve r q w w' v e later more sp h u = elim (Bool-cases (r.sym == q.sym)) [
      | inl same ↦
          let at : r.sym ≡ q.sym = ground (arith, same) in
          let round = one-IsRound r sp w (ap (get_elem? w.st) at ∙ h) v in
          subst (λ i. IsBound g sp.name i w') at
            (IsBound-later g sp.name r.sym (reloc_one g r w) w' later (round.binds e u))
      | inr other ↦ more sp ((any_round r w v).1 q.sym (λ z. ground (arith, other, z)) ∙ h) u
    ]

    -- Where the loop over the entries of a section reports no new error, each undefined symbol that an
    -- entry names was found in a loaded module and stands in its slot, and that module is noted as
    -- needed; or it is the handle of a module, which stands for the new one.
    pub reloc_loop-IsServed :
        (rs : List Reloc) (w : Work)
        → IsBitmap w.depend
        → (reloc_loop g rs w).errors ≡ w.errors
        → All (IsServed w (reloc_loop g rs w)) rs
    unfolding reloc_loop
    reloc_loop-IsServed [] w v e = tt
    reloc_loop-IsServed (r ∷ rs) w v e =
        let w1 = reloc_one g r w in
        let w' = reloc_loop g rs w1 in
        let first = (any_round r w v).0 in
        let rest = loop-IsLater rs w1 first.real in
        let none_first : w1.errors ≡ w.errors = omega (arith, e, first.errors, rest.errors) in
        let none_rest : w'.errors ≡ w1.errors = omega (arith, e, none_first) in
        (
          head r w w' v none_first rest,
          all_served r rs w w' v none_first rest (reloc_loop-IsServed rs w1 first.real none_rest),
        )
      where
        head :
            (r : Reloc) (w w' : Work)
            → IsBitmap w.depend
            → (reloc_one g r w).errors ≡ w.errors
            → IsLater (reloc_one g r w) w'
            → IsServed w w' r
        head r w w' v e later sp h u =
            IsBound-later g sp.name r.sym (reloc_one g r w) w' later
              ((one-IsRound r sp w h v).binds e u)

        all_served :
            (r : Reloc) (rs : List Reloc) (w w' : Work)
            → IsBitmap w.depend
            → (reloc_one g r w).errors ≡ w.errors
            → IsLater (reloc_one g r w) w'
            → All (IsServed (reloc_one g r w) w') rs
            → All (IsServed w w') rs
        all_served r [] w w' v e later a = tt
        all_served r (q ∷ qs) w w' v e later a =
            (serve r q w w' v e later a.0, all_served r qs w w' v e later a.1)
