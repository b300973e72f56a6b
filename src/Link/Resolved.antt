-- ===== src/Link/Resolved.antt =====
-- What `resolve_syms` of bfdstuff.c has made sure of when it reports no error.
use rtems_hzb_cexpsh.Base.{
  ℕ, suc, ◌≤◌, ◌<◌, ◌≡◌, sym, ap, subst, ◌∙◌, true, false, if◌then◌else◌, Option, List, [], ◌∷◌,
  All, Bool-cases, inl, inr, arith,
}
use rtems_hzb_cexpsh.Modules.Bitmap.{Bitmap, IsBitmap, bitmap_tst, max_num_modules}
use rtems_hzb_cexpsh.Modules.Record.{Module}
use rtems_hzb_cexpsh.Modules.Lookup.{sym_lookup}
use rtems_hzb_cexpsh.Link.Resolve.{
  Asym, Notes, Names, count_ctor_dtor, take_callback, keep_section, resolve_case, resolve_global,
  after_callbacks, resolve_sym, resolve_loop,
}
use rtems_hzb_cexpsh.Link.Cases.{
  sym_lookup-id, Keeps, Grows, IsAt, set_aside, resolve_case-IsAt, IsAt-Keeps, take_callback-home,
  count_ctor_dtor-same,
}

module _ (ms : List Module) (names : Names) (letter : List ℕ → Option ℕ) where
  -- A symbol of the file and what stands in its slot in the end.
  abbrev pub IsResolved : Bitmap → Asym → Asym → Type 0
  IsResolved depend sp sp' =
      set_aside names sp ≡ false → IsAt sp.home depend (sym_lookup sp.name ms) sp sp'

  abbrev pub AllResolved : Bitmap → List Asym → List Asym → Type 0
  AllResolved depend [] [] = Unit
  AllResolved depend [] (sp' ∷ sps') = ◌≡◌ {A = ℕ} 0 1
  AllResolved depend (sp ∷ sps) [] = ◌≡◌ {A = ℕ} 0 1
  AllResolved depend (sp ∷ sps) (sp' ∷ sps') =
      IsResolved depend sp sp' × AllResolved depend sps sps'

  module _ (ids : All (λ m. m.id < max_num_modules) ms) where
    after_callbacks-global :
        (i : ℕ) (sp : Asym) (n : Notes)
        → sp.local ≡ false
        → sp.thread_local ≡ false
        → resolve_case sp.home (sym_lookup sp.name ms) i sp n ≡ after_callbacks ms i sp n
    unfolding after_callbacks resolve_global
    after_callbacks-global i sp n other shared = sym (
        ap
          (λ b.
            if b
            then (keep_section sp, n)
            else if sp.thread_local
            then (sp, n)
            else resolve_global ms i sp n)
          other
        ∙ ap (λ b. if b then (sp, n) else resolve_global ms i sp n) shared)

    after_callbacks-IsAt :
        (i : ℕ) (sp : Asym) (n : Notes)
        → IsBitmap n.depend
        → Grows n (after_callbacks ms i sp n).1
          × ((after_callbacks ms i sp n).1.errs ≡ n.errs
              → sp.local ≡ false
              → sp.thread_local ≡ false
              → IsAt sp.home
                  (after_callbacks ms i sp n).1.depend
                  (sym_lookup sp.name ms)
                  sp
                  (after_callbacks ms i sp n).0)
    unfolding after_callbacks resolve_global
    after_callbacks-IsAt i sp n real =
        let (grows, at) =
          resolve_case-IsAt sp.home (sym_lookup sp.name ms) i sp n real
            (λ m s h. sym_lookup-id sp.name ms m s ids h) in
        elim (Bool-cases sp.local) [
          | inl local ↦
              rw (local) ((omega arith, real, λ j h. h), λ e l o. absurd (ground (arith, l)))
          | inr other ↦ elim (Bool-cases sp.thread_local) [
            | inl own ↦
                rw (other, own) ((omega arith, real, λ j h. h), λ e l o. absurd (ground (arith, o)))
            | inr shared ↦
                subst
                  (λ out.
                    Grows n out.1
                    × (out.1.errs ≡ n.errs
                        → sp.local ≡ false
                        → sp.thread_local ≡ false
                        → IsAt sp.home out.1.depend (sym_lookup sp.name ms) sp out.0))
                  (after_callbacks-global i sp n other shared) (grows, λ e l o. at e)
          ]
        ]

    resolve_sym-IsResolved :
        (i : ℕ) (sp : Asym) (n : Notes)
        → IsBitmap n.depend
        → Grows n (resolve_sym ms names letter i sp n).1
          × ((resolve_sym ms names letter i sp n).1.errs ≡ n.errs
              → IsResolved
                  (resolve_sym ms names letter i sp n).1.depend
                  sp
                  (resolve_sym ms names letter i sp n).0)
    unfolding resolve_sym
    resolve_sym-IsResolved i sp n real =
        let n1 = count_ctor_dtor (letter sp.name) n in
        let (errs1, bits1) = count_ctor_dtor-same (letter sp.name) n in
        let (same, aside, errs2, bits2) = take_callback-home names i sp n1 in
        let sp2 = (take_callback names i sp n1).0 in
        let n2 = (take_callback names i sp n1).1 in
        let bits : n2.depend ≡ n.depend = bits2 ∙ bits1 in
        let ((le, real3, keeps), at) =
          after_callbacks-IsAt i sp2 n2 (subst IsBitmap (sym bits) real) in
        (
          (
            omega (arith, errs1, errs2, le),
            real3,
            λ j h. keeps j (subst (λ b. bitmap_tst b j ≡ true) (sym bits) h),
          ),
          λ e home.
              let plain : sp2.local ≡ false = elim (Bool-cases sp2.local) [
                | inl local ↦ absurd (ground (arith, aside local, home))
                | inr other ↦ other
              ] in
              let kept = same plain in
              subst
                (λ x.
                  IsAt x.home (after_callbacks ms i sp2 n2).1.depend (sym_lookup x.name ms) x
                    (after_callbacks ms i sp2 n2).0)
                kept
                (at (omega (arith, errs1, errs2, le, e)) plain
                  (ap (λ x. x.thread_local) kept ∙ ground (arith, home))),
        )

    -- When the loop of `resolve_syms` ends with as many errors as it began with, on an object file and
    -- modules whose identifiers are in range, then for every symbol that is neither local, nor a callback,
    -- nor a thread's own: a defined one is in no module and kept, or is weak and replaced by the module's
    -- symbol; a common one is in no module and becomes a new common, or is replaced by a module's symbol
    -- that is aligned for it and of no smaller size, the sizes taken as `int`; an undefined one that a
    -- module has is unchanged, and of the others a function with a value is kept, a weak one becomes a
    -- new common, and the rest is unchanged; and each module that a replacement is from is noted in the
    -- end.
    pub resolve_loop-AllResolved :
        (i : ℕ) (sps : List Asym) (n : Notes)
        → IsBitmap n.depend
        → (n.errs ≤ (resolve_loop ms names letter i sps n).1.errs)
          × Keeps n.depend (resolve_loop ms names letter i sps n).1.depend
          × ((resolve_loop ms names letter i sps n).1.errs ≡ n.errs
              → AllResolved
                  (resolve_loop ms names letter i sps n).1.depend
                  sps
                  (resolve_loop ms names letter i sps n).0)
    unfolding resolve_loop
    resolve_loop-AllResolved i [] n real = (omega arith, λ j h. h, λ e. tt)
    resolve_loop-AllResolved i (sp ∷ sps) n real =
        let sp' = (resolve_sym ms names letter i sp n).0 in
        let n' = (resolve_sym ms names letter i sp n).1 in
        let ((le, real', keeps), one) = resolve_sym-IsResolved i sp n real in
        let (le', keeps', rest) = resolve_loop-AllResolved (suc i) sps n' real' in
        (
          omega (arith, le, le'),
          (λ j h. keeps' j (keeps j h)),
          λ e. (
            λ home.
                IsAt-Keeps sp.home n'.depend (resolve_loop ms names letter (suc i) sps n').1.depend
                  (sym_lookup sp.name ms) sp sp' keeps' (one (omega (arith, le, le', e)) home),
            rest (omega (arith, le, le', e)),
          ),
        )
