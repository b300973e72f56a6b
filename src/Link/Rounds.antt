-- ===== src/Link/Rounds.antt =====
-- What a round of the loop in `s_reloc` of bfdstuff.c does to symbols, notes and errors.
use rtems_hzb_cexpsh.Base.{
  ℕ, ◌≡◌, ◌≢◌, ◌≤◌, ◌<◌, ◌⊎◌, inl, inr, Bool, true, false, if◌then◌else◌, some, List, get_elem?,
  set, length, arith, refl, sym, ap, subst, ◌∙◌, get_elem?-set_self, get_elem?-set_ne,
}
use rtems_hzb_cexpsh.Syms.{Sym}
use rtems_hzb_cexpsh.Modules.Record.{Module}
use rtems_hzb_cexpsh.Modules.Lookup.{sym_lookup}
use rtems_hzb_cexpsh.Modules.Bitmap.{Bitmap, IsBitmap, bitmap_tst}
use rtems_hzb_cexpsh.Elf.Reloc.{Status, Bytes, perform_relocation}
use rtems_hzb_cexpsh.Link.Resolve.{Asym, undefined, asym_from}
use rtems_hzb_cexpsh.Link.Relocs.{
  Reloc, Setting, Work, one_error, dso_symbol, site_of, note_result, perform,
}

-- What no round undoes: the errors, the modules that were noted, and the symbols that are defined.
pub record IsLater (w w' : Work) : Type 0 where
  pub errors : w.errors ≤ w'.errors
  pub real : IsBitmap w'.depend
  pub bits : (k : ℕ) → bitmap_tst w.depend k ≡ true → bitmap_tst w'.depend k ≡ true
  pub slots :
      (i : ℕ) (sp : Asym)
      → get_elem? w.st i ≡ some sp
      → sp.home ≢ undefined
      → get_elem? w'.st i ≡ some sp

pub IsLater-refl : (w : Work) → IsBitmap w.depend → IsLater w w
IsLater-refl w v = record { errors = omega arith; real = v; bits = λ k h. h; slots = λ i sp h d. h }

pub IsLater-trans : (u v w : Work) → IsLater u v → IsLater v w → IsLater u w
IsLater-trans u v w a b = record {
  errors = omega (arith, a.errors, b.errors);
  real = b.real;
  bits = λ k h. b.bits k (a.bits k h);
  slots = λ i sp h d. b.slots i sp (a.slots i sp h d) d;
}

pub note_result-same :
    (done : Status × Bytes) (w : Work)
    → ((note_result done w).st ≡ w.st)
      × ((note_result done w).depend ≡ w.depend)
      × (w.errors ≤ (note_result done w).errors)
unfolding note_result
note_result-same done w = ground arith

module _ (g : Setting) where
  -- The symbol of that name was found in a loaded module: it stands in the slot and the module is noted,
  -- or it is the handle that stands for the new module.
  pub record IsBound (name : List ℕ) (i : ℕ) (w : Work) : Type 0 where
    pub owner : Module
    pub found : Sym
    pub looked_up : sym_lookup name g.mods ≡ some (owner, found)
    pub bound :
        ((g.is_dso_handle owner found ≡ true)
          × (get_elem? w.st i ≡ some (dso_symbol g.module_addr found)))
        ⊎ ((g.is_dso_handle owner found ≡ false)
            × (get_elem? w.st i ≡ some (asym_from found))
            × (bitmap_tst w.depend owner.id ≡ true))

  pub IsBound-later :
      (name : List ℕ) (i : ℕ) (w w' : Work) → IsLater w w' → IsBound name i w → IsBound name i w'
  IsBound-later name i w w' l b = record {
    owner = b.owner;
    found = b.found;
    looked_up = b.looked_up;
    bound = elim b.bound [
      | inl (d, e) ↦
          inl (d, l.slots i (dso_symbol g.module_addr b.found) e (λ z. ground (arith, z)))
      | inr (d, e, t) ↦
          inr (d, l.slots i (asym_from b.found) e (λ z. ground (arith, z)), l.bits b.owner.id t)
    ];
  }

  pub perform-IsLater :
      (r : Reloc) (sp : Asym) (w : Work) → IsBitmap w.depend → IsLater w (perform g r sp w)
  unfolding perform
  perform-IsLater r sp w v =
      let (st, depend, errors) = note_result-same (perform_relocation (site_of g r sp) w.mem) w in
      record {
        errors = errors;
        real = subst IsBitmap (sym depend) v;
        bits = λ k h. ap (λ d. bitmap_tst d k) depend ∙ h;
        slots = λ i sp h d. ap (λ l. get_elem? l i) st ∙ h;
      }

  -- Putting a symbol into the slot of an undefined one, and noting a module or none.
  pub slot-IsLater :
      (i : ℕ) (sp new : Asym) (w : Work) (depend : Bitmap)
      → get_elem? w.st i ≡ some sp
      → sp.home ≡ undefined
      → IsBitmap depend
      → ((k : ℕ) → bitmap_tst w.depend k ≡ true → bitmap_tst depend k ≡ true)
      → IsLater w (record w { st = set w.st i new; depend = depend })
  slot-IsLater i sp new w depend h u v keeps = record {
    errors = omega arith;
    real = v;
    bits = keeps;
    slots = λ j q e d.
        get_elem?-set_ne w.st new (λ z.
          let same : some sp ≡ some q = sym h ∙ ap (get_elem? w.st) z ∙ e in
          d (ground (arith, same, u)))
        ∙ e;
  }

  -- A round on slot `i` with its entry: nothing is undone, no other slot changes, and without a new error
  -- an undefined symbol is bound.
  pub record IsRound (i : ℕ) (sp : Asym) (w w' : Work) : Type 0 where
    pub later : IsLater w w'
    pub others : (j : ℕ) → i ≢ j → get_elem? w'.st j ≡ get_elem? w.st j
    pub binds : w'.errors ≡ w.errors → sp.home ≡ undefined → IsBound sp.name i w'

  pub perform-st : (r : Reloc) (sp : Asym) (w : Work) → (perform g r sp w).st ≡ w.st
  unfolding perform
  perform-st r sp w = (note_result-same (perform_relocation (site_of g r sp) w.mem) w).0

  pub perform-depend : (r : Reloc) (sp : Asym) (w : Work) → (perform g r sp w).depend ≡ w.depend
  unfolding perform
  perform-depend r sp w = (note_result-same (perform_relocation (site_of g r sp) w.mem) w).1

  -- A round that only adds an error.
  pub error-IsRound :
      (i : ℕ) (sp : Asym) (w : Work) → IsBitmap w.depend → IsRound i sp w (one_error w)
  error-IsRound i sp w v = record {
    later = record { errors = omega arith; real = v; bits = λ k h. h; slots = λ j q h d. h };
    others = λ j d. refl;
    binds = λ e u. absurd (omega (arith, e));
  }

  -- A round that carries the entry out with a new symbol in the slot.
  pub new-IsRound :
      (i : ℕ) (sp new : Asym) (r : Reloc) (w : Work) (depend : Bitmap)
      → get_elem? w.st i ≡ some sp
      → sp.home ≡ undefined
      → i < length w.st
      → IsBitmap depend
      → ((k : ℕ) → bitmap_tst w.depend k ≡ true → bitmap_tst depend k ≡ true)
      → (m : Module) (ts : Sym) → sym_lookup sp.name g.mods ≡ some (m, ts)
      → ((g.is_dso_handle m ts ≡ true) × (new ≡ dso_symbol g.module_addr ts))
        ⊎ ((g.is_dso_handle m ts ≡ false) × (new ≡ asym_from ts) × (bitmap_tst depend m.id ≡ true))
      → IsRound i sp w (perform g r new (record w { st = set w.st i new; depend = depend }))
  new-IsRound i sp new r w depend h u lt v keeps m ts look which =
      let mid : Work = record w { st = set w.st i new; depend = depend } in
      let there : get_elem? (perform g r new mid).st i ≡ some new =
        ap (λ l. get_elem? l i) (perform-st r new mid) ∙ get_elem?-set_self w.st i new lt in
      record {
        later =
            IsLater-trans w mid (perform g r new mid) (slot-IsLater i sp new w depend h u v keeps)
              (perform-IsLater r new mid v);
        others =
            λ j d. ap (λ l. get_elem? l j) (perform-st r new mid) ∙ get_elem?-set_ne w.st new d;
        binds = λ e z. record {
          owner = m;
          found = ts;
          looked_up = look;
          bound = elim which [
            | inl (b, e) ↦ inl (b, there ∙ ap some e)
            | inr (b, e, t) ↦
                inr
                  (b, there ∙ ap some e, ap (λ d. bitmap_tst d m.id) (perform-depend r new mid) ∙ t)
          ];
        };
      }

  pub if-IsRound :
      (b : Bool) (i : ℕ) (sp : Asym) (w x y : Work)
      → (b ≡ true → IsRound i sp w x)
      → (b ≡ false → IsRound i sp w y)
      → IsRound i sp w (if b then x else y)
  if-IsRound true i sp w x y p q = p refl
  if-IsRound false i sp w x y p q = q refl
