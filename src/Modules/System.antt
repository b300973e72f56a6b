-- ===== src/Modules/System.antt =====
-- `cexpModuleUnload` on the whole state: what it keeps, what it refuses, and in which order it calls
-- the routines of the module and gives its memory back.
use rtems_hzb_cexpsh.Base.{
  ℕ, ◌≡◌, refl, ◌⊎◌, inl, inr, ◌≢◌, ◌<◌, Bool, true, false, some, List, [], ◌∷◌, ◌++◌, arith, ◌∙◌,
  ap, sym, subst, Bool-cases, Option-cases, ◌==◌,
}
use mathlib.Core.List.{append_assoc}
use rtems_hzb_cexpsh.Segs.{Memory}
use rtems_hzb_cexpsh.Modules.Bitmap.{
  bitmap_tst, bitmap_nonzero, bitmap_nonzero-tst, bitmap_nonzero_some, max_num_modules,
}
use rtems_hzb_cexpsh.Modules.Record.{
  Module, State, freed, read, say, run_all, run_one, In, All-In, DistinctBy, DistinctBy-eq,
}
use rtems_hzb_cexpsh.Modules.Unload.{
  handle, predecessor, predecessor-In, is_system, take_out, module_unload, module_free, Outcome,
  drop_dependent, Refusal, unloaded, refused, still_needed, wipe,
}
use rtems_hzb_cexpsh.Modules.Deps.{
  IsConsistent, without, without-In, In-without, without-IsConsistent,
}

-- The list is consistent, and the static `id` is an identifier.
pub record IsValid (st : State) : Type 0 where
  pub consistent : IsConsistent st.mods
  pub cursor : st.last_id < max_num_modules

module _ (mem : Memory) (t : Module) (st : State) where
  take_out-mods : (take_out mem t st).mods ≡ without t st.mods
  unfolding take_out module_free
  take_out-mods = refl

  take_out-last_id : (take_out mem t st).last_id ≡ st.last_id
  unfolding take_out module_free
  take_out-last_id = refl

-- What a successful unload comes from and what it does.
unload-inv :
    (mem : Memory) (verdict : ℕ → Bool) (h : ℕ) (st after : State)
    → module_unload mem verdict h st ≡ (unloaded, after)
    → (p t : Module) × (predecessor h st.mods ≡ some (p, t))
      × (is_system h st.mods ≡ false)
      × (bitmap_nonzero t.neededby ≡ false)
      × (after ≡ take_out mem t (say (run_one t.fini) st))
unfolding module_unload
unload-inv mem verdict h st after e = elim (Option-cases (predecessor h st.mods)) [
  | inl gone ↦ absurd (ground arith)
  | inr (pt, found) ↦ (pt.0, pt.1, found, ground (arith), ground (arith), ground (arith))
]

-- The state after a call is as valid as the one before.
pub IsValid-like :
    (st st' : State) → st'.mods ≡ st.mods → st'.last_id ≡ st.last_id → IsValid st → IsValid st'
IsValid-like st st' e f v = record {
  consistent = subst IsConsistent (sym e) v.consistent;
  cursor = subst (λ i. i < max_num_modules) (sym f) v.cursor;
}

refused_state :
    (mem : Memory) (verdict : ℕ → Bool) (h : ℕ) (st : State) (r : Refusal)
    → (module_unload mem verdict h st).0 ≡ refused r
    → ((module_unload mem verdict h st).1.mods ≡ st.mods)
      × ((module_unload mem verdict h st).1.last_id ≡ st.last_id)
      × ((module_unload mem verdict h st).1.chunks ≡ st.chunks)
unfolding module_unload
refused_state mem verdict h st r e = elim (Option-cases (predecessor h st.mods)) [
  | inl gone ↦ ground arith
  | inr (pt, found) ↦ ground arith
]

take_out-IsValid :
    (mem : Memory) (h : ℕ) (st : State) (p t : Module)
    → predecessor h st.mods ≡ some (p, t)
    → is_system h st.mods ≡ false
    → bitmap_nonzero t.neededby ≡ false
    → IsValid st
    → IsValid (take_out mem t (say (run_one t.fini) st))
take_out-IsValid mem h st p t found tail free v =
    let (here, same) = predecessor-In h st.mods p t found in
    IsValid-like (record st { mods = without t st.mods }) _
      (take_out-mods mem t (say (run_one t.fini) st))
      (take_out-last_id mem t (say (run_one t.fini) st))
      (record {
        consistent =
            without-IsConsistent t st.mods v.consistent here
              (ap (λ a. is_system a st.mods) same ∙ tail) free;
        cursor = v.cursor;
      })

Outcome-cases : (o : Outcome) → (o ≡ unloaded) ⊎ ((r : Refusal) × (o ≡ refused r))
Outcome-cases unloaded = inl refl
Outcome-cases (refused r) = inr (r, refl)

-- Whatever handle `cexpModuleUnload` is given and whatever the finalizer answers, the state it leaves
-- is valid when the one before was.
pub module_unload-IsValid :
    (mem : Memory) (verdict : ℕ → Bool) (h : ℕ) (st : State)
    → IsValid st
    → IsValid (module_unload mem verdict h st).1
module_unload-IsValid mem verdict h st v = elim (Outcome-cases (module_unload mem verdict h st).0) [
  | inl ok ↦
      let (p, t, found, tail, free, e) =
        unload-inv mem verdict h st (module_unload mem verdict h st).1 (cc) in
      subst IsValid (sym e) (take_out-IsValid mem h st p t found tail free v)
  | inr (r, e) ↦
      let (same, id, cs) = refused_state mem verdict h st r e in IsValid-like st _ same id v
]

-- `predecessor` finds every module but the head.
predecessor-finds :
    (t : Module) (ms : List Module)
    → DistinctBy handle ms
    → In t ms
    → is_system t.addr ms ≡ false
    → (p : Module) × (predecessor t.addr ms ≡ some (p, t))
unfolding predecessor is_system
predecessor-finds t [] d i tail = elim i [ ]
predecessor-finds t (p ∷ ms) d (inl e) tail = absurd (ground (arith, ap handle e))
predecessor-finds t (p ∷ []) d (inr i) tail = elim i [ ]
predecessor-finds t (p ∷ q ∷ ms) d (inr i) tail = elim (Bool-cases (q.addr == t.addr)) [
  | inl hit ↦
      let same = DistinctBy-eq handle (q ∷ ms) q t d.1 (inl refl) i (ground arith) in
      (p, rw hit (ap (λ x. some (p, x)) same))
  | inr miss ↦ let (p', e) = predecessor-finds t (q ∷ ms) d.1 i miss in (p', rw miss e)
]

module _ (mem : Memory) (verdict : ℕ → Bool) (st : State) (v : IsValid st) (t : Module)
    (here : In t st.mods) (tail : is_system t.addr st.mods ≡ false) (real : t.addr ≢ 0) where
  -- In a valid state a module, other than the system module, that a loaded module needs is not unloaded, and nothing changes: no finalizer, destructor
  -- or cleanup routine is called.
  pub module_unload_needed :
      (b : Module)
      → In b st.mods
      → bitmap_tst b.needs t.id ≡ true
      → module_unload mem verdict t.addr st ≡ (refused still_needed, st)
  unfolding module_unload
  module_unload_needed b i need =
      let (p, found) = predecessor-finds t st.mods v.consistent.handles here tail in
      let dual = v.consistent.dual t b here i in
      elim (Bool-cases (bitmap_nonzero t.neededby)) [
        | inl up ↦ ground arith
        | inr down ↦ absurd (cc (bitmap_nonzero-tst t.neededby b.id down, dual, need))
      ]

  nobody-nonzero :
      ((b : Module) → In b st.mods → bitmap_tst b.needs t.id ≡ false)
      → bitmap_nonzero t.neededby ≡ false
  nobody-nonzero nobody = elim (Bool-cases (bitmap_nonzero t.neededby)) [
    | inl up ↦
        let (j, small, at) =
          bitmap_nonzero_some t.neededby (All-In _ t st.mods v.consistent.shapes here) up in
        let (b, i, e) = v.consistent.known t j here at in
        absurd (cc (v.consistent.dual t b here i, nobody b i, at, ap (bitmap_tst t.neededby) e))
    | inr down ↦ down
  ]

  -- Then the whole call is its last part.
  module_unload_runs :
      bitmap_nonzero t.neededby ≡ false
      → (t.fini ≡ 0) ⊎ (verdict t.fini ≡ false)
      → module_unload mem verdict t.addr st ≡ (unloaded, take_out mem t (say (run_one t.fini) st))
  unfolding module_unload
  module_unload_runs free agrees =
      let (p, found) = predecessor-finds t st.mods v.consistent.handles here tail in ground arith

  -- In a valid state, the unload of a module other than the system module that no loaded module needs and
  -- whose finalizer, if any, agrees succeeds: the finalizer, the destructors in their order and the
  -- cleanup routine are called, then the segments are wiped, then the record is freed, and read once
  -- more; no module has the handle afterwards, and every other one is in the list, with the module
  -- struck from its dependents.
  pub module_unload-effect :
      ((b : Module) → In b st.mods → bitmap_tst b.needs t.id ≡ false)
      → (t.fini ≡ 0) ⊎ (verdict t.fini ≡ false)
      → ((module_unload mem verdict t.addr st).0 ≡ unloaded)
        × ((module_unload mem verdict t.addr st).1.log
            ≡ st.log
              ++ run_one t.fini
              ++ run_all t.dtors
              ++ run_one t.cleanup
              ++ wipe t.segs
              ++ freed t.addr ∷ read t.addr ∷ [])
        × ((m : Module) → In m (module_unload mem verdict t.addr st).1.mods → m.addr ≢ t.addr)
        × ((m : Module)
            → In m st.mods
            → m.addr ≢ t.addr
            → In (drop_dependent t.id m) (module_unload mem verdict t.addr st).1.mods)
  unfolding take_out module_free
  module_unload-effect nobody agrees =
      let free = nobody-nonzero nobody in
      let e = module_unload_runs free agrees in
      rw e (
        refl,
        simp append_assoc,
        (λ m i q.
            let (x, j, ne, e') = without-In t st.mods v.consistent here tail m i in
            ne (sym (ap handle e') ∙ q)),
        λ m i ne. In-without t st.mods v.consistent here tail m i ne,
      )
