-- ===== src/Modules/Loading.antt =====
-- `cexpModuleLoad` on the whole state: what it keeps, when it fails, and in which order it calls the
-- routines of the new module.
use rtems_hzb_cexpsh.Base.{
  ℕ, ◌≡◌, refl, ◌⊎◌, inl, inr, ◌≢◌, ◌<◌, Bool, true, false, Option, none, some, List, [], ◌∷◌, ◌++◌,
  map, arith, ◌∙◌, ap, sym, subst, Bool-cases, Option-cases,
}
use rtems_hzb_cexpsh.Segs.{Memory, Chunks}
use rtems_hzb_cexpsh.Modules.Bitmap.{max_num_modules}
use rtems_hzb_cexpsh.Modules.Record.{Module, State, freed, read, run_all, run_one, In, blank_module}
use rtems_hzb_cexpsh.Modules.Ids.{id_alloc, id_alloc-Allocates, Allocates, has_id-In}
use rtems_hzb_cexpsh.Modules.Unload.{module_free}
use rtems_hzb_cexpsh.Modules.Load.{
  Loader, IsLoader, IsFilled, module_load, module_name, chain, has_name, has_name-In, add_dependent,
}
use rtems_hzb_cexpsh.Modules.Linking.{CanJoin, joined-IsConsistent}
use rtems_hzb_cexpsh.Modules.System.{IsValid}

-- The module that the reader is given to fill in.
abbrev pub fresh_module : ℕ → ℕ → List ℕ → Module
fresh_module addr i name =
    let blank = record (blank_module addr) { id = i } in record blank { name = name }

-- The module as it joins the list: with its help texts, and its constructors used up.
abbrev pub built_module : Loader → Module → Module
built_module ld m =
    let helped = record m { symtbl = ld.add_help m.symtbl } in record helped { ctors = [] }

module _ (mem : Memory) (ld : Loader) (addr : ℕ) (name_mem : Bool) (file given : Option (List ℕ))
    (st : State) where
  abbrev result : Option ℕ × State
  result = module_load mem ld (some addr) name_mem file given st

  -- What a call that gives a handle has done, for the identifier and the module as read.
  record Loads : Type 0 where
    i : ℕ
    id_found : id_alloc st.mods st.last_id ≡ some i
    name_free : has_name (module_name file given) st.mods ≡ false
    read_ok :
        (ld.load file (fresh_module addr i (module_name file given)) st.mods st.chunks).0 ≡ true
    all : result ≡ (
        let (ok, m, cs) =
          ld.load file (fresh_module addr i (module_name file given)) st.mods st.chunks in
        chain ld m (record st { last_id = i; chunks = cs }))

  -- What a call that gives none has done.
  record Fails : Type 0 where
    i : ℕ
    m : Module
    cs : Chunks
    cursor : (i ≡ st.last_id) ⊎ (id_alloc st.mods st.last_id ≡ some i)
    place : (m.addr ≡ addr)
    all : result ≡ (none, module_free mem m (record st { last_id = i; chunks = cs }))

  load_cases : IsLoader ld → Loads ⊎ Fails
  unfolding module_load
  load_cases good = elim (Bool-cases (has_name (module_name file given) st.mods)) [
    | inl taken ↦ inr (record {
      i = st.last_id;
      m = blank_module addr;
      cs = st.chunks;
      cursor = inl refl;
      place = refl;
      all = rw taken refl;
    })
    | inr free ↦ elim (Option-cases (id_alloc st.mods st.last_id)) [
      | inl full ↦ inr (record {
        i = st.last_id;
        m = blank_module addr;
        cs = st.chunks;
        cursor = inl refl;
        place = refl;
        all = rw (free, full) refl;
      })
      | inr (i, e) ↦ after_id free i e
    ]
  ]
    where
      after_id :
          has_name (module_name file given) st.mods ≡ false
          → (i : ℕ) → id_alloc st.mods st.last_id ≡ some i
          → Loads ⊎ Fails
      after_id free i e =
          let n = fresh_module addr i (module_name file given) in
          let (ok, m, cs) = ld.load file n st.mods st.chunks in
          elim (Bool-cases name_mem) [
            | inr lacks ↦ inr (record {
              i = i;
              m = record (blank_module addr) { id = i };
              cs = st.chunks;
              cursor = inr e;
              place = refl;
              all = rw (free, e, lacks) refl;
            })
            | inl got ↦ elim (Bool-cases ok) [
              | inl fine ↦ inl (record {
                i = i;
                id_found = e;
                name_free = free;
                read_ok = fine;
                all = rw (free, e, got, fine) refl;
              })
              | inr bad ↦ inr (record {
                i = i;
                m = m;
                cs = cs;
                cursor = inr e;
                place = good.same_addr file n st.mods st.chunks;
                all = rw (free, e, got, bad) refl;
              })
            ]
          ]

  module _ (v : IsValid st) (good : IsLoader ld)
      (unused : (x : Module) → In x st.mods → x.addr ≢ addr) where
    allocated :
        (i : ℕ) → id_alloc st.mods st.last_id ≡ some i → Allocates st.mods st.last_id (some i)
    allocated i e =
        subst (Allocates st.mods st.last_id) e
          (id_alloc-Allocates st.mods st.last_id v.consistent.small v.cursor)

    -- The new module, as it joins the list, can join it.
    built-CanJoin :
        (i : ℕ) (m : Module)
        → id_alloc st.mods st.last_id ≡ some i
        → has_name (module_name file given) st.mods ≡ false
        → m.addr ≡ addr
        → IsFilled (fresh_module addr i (module_name file given)) st.mods m
        → CanJoin (built_module ld m) st.mods
    built-CanJoin i m e free place f =
        let a = allocated i e in
        record {
          id_small = subst (λ j. j < max_num_modules) (sym f.same_id) a.0;
          id_free = λ x j q. has_id-In i x st.mods a.2 j (q ∙ f.same_id);
          handle_free = λ x j q. unused x j (q ∙ place);
          name_free =
              λ x j q. has_name-In (module_name file given) x st.mods free j (q ∙ f.same_name);
          no_dependents = f.same_dependents;
          needs_loaded = f.needs_loaded;
        }

    chain-IsValid :
        (i : ℕ) (m : Module) (cs : Chunks)
        → i < max_num_modules
        → CanJoin (built_module ld m) st.mods
        → IsValid (chain ld m (record st { last_id = i; chunks = cs })).1
    unfolding chain
    chain-IsValid i m cs small can = record {
      consistent = joined-IsConsistent (built_module ld m) st.mods v.consistent can;
      cursor = small;
    }

    freed-IsValid :
        (i : ℕ) (m : Module) (cs : Chunks)
        → i < max_num_modules
        → IsValid (module_free mem m (record st { last_id = i; chunks = cs }))
    unfolding module_free
    freed-IsValid i m cs small = record { consistent = v.consistent; cursor = small }

    -- With a valid state, a reader that keeps its contract, and a record at an address that no loaded
    -- module has, the state that `cexpModuleLoad` leaves is valid again, whether it succeeds or fails.
    pub module_load-IsValid : IsValid (module_load mem ld (some addr) name_mem file given st).1
    module_load-IsValid = elim (load_cases good) [
      | inl s ↦
          let n = fresh_module addr s.i (module_name file given) in
          let (ok, m, cs) = ld.load file n st.mods st.chunks in
          subst (λ (r : Option ℕ × State). IsValid r.1) (sym s.all)
            (chain-IsValid s.i m cs (allocated s.i s.id_found).0 (
              built-CanJoin s.i m s.id_found s.name_free (good.same_addr file n st.mods st.chunks)
                (good.fills file n st.mods st.chunks s.read_ok)))
      | inr s ↦
          subst (λ (r : Option ℕ × State). IsValid r.1) (sym s.all)
            (freed-IsValid s.i s.m s.cs (elim s.cursor [
              | inl e ↦ subst (λ j. j < max_num_modules) (sym e) v.cursor
              | inr e ↦ (allocated s.i e).0
            ]))
    ]

  module _ (good : IsLoader ld) where
    -- A load that gives no handle leaves the list of modules as it was, and no routine was called: the
    -- record of the new module was freed, and then read once more.
    pub module_load-fails :
        (module_load mem ld (some addr) name_mem file given st).0 ≡ none
        → ((module_load mem ld (some addr) name_mem file given st).1.mods ≡ st.mods)
          × ((module_load mem ld (some addr) name_mem file given st).1.log
              ≡ st.log ++ freed addr ∷ read addr ∷ [])
    unfolding chain module_free
    module_load-fails e = elim (load_cases good) [
      | inl s ↦
          let q : some
                (ld.load file (fresh_module addr s.i (module_name file given)) st.mods
                  st.chunks).1.addr
              ≡ none =
            sym (ap (λ (r : Option ℕ × State). r.0) s.all) ∙ e in
          absurd (cc q)
      | inr s ↦ rw s.all (refl, ap (λ a. st.log ++ freed a ∷ read a ∷ []) s.place)
    ]

    -- With a reader that keeps its contract, a load that gives a handle gives that of the new module, as
    -- the reader left it when it was given an identifier that `idAlloc` gave and the name asked for: the
    -- reader succeeded, the constructors that it found ran in their order, then the initialization that
    -- it found, nothing else was called, and the module is the last of the list, noted with each module
    -- that it needs.
    pub module_load-effect :
        (h : ℕ)
        → (module_load mem ld (some addr) name_mem file given st).0 ≡ some h
        → (i : ℕ) × (m : Module) × (h ≡ addr)
          × (id_alloc st.mods st.last_id ≡ some i)
          × (ld.load file (fresh_module addr i (module_name file given)) st.mods st.chunks
              ≡ (true, m, (module_load mem ld (some addr) name_mem file given st).1.chunks))
          × IsFilled (fresh_module addr i (module_name file given)) st.mods m
          × ((module_load mem ld (some addr) name_mem file given st).1.log
              ≡ st.log ++ (run_all m.ctors ++ run_one m.ini))
          × ((module_load mem ld (some addr) name_mem file given st).1.mods
              ≡ map (add_dependent (built_module ld m)) st.mods ++ built_module ld m ∷ [])
    unfolding chain
    module_load-effect h e = elim (load_cases good) [
      | inl s ↦
          let n = fresh_module addr s.i (module_name file given) in
          let (ok, m, cs) = ld.load file n st.mods st.chunks in
          (
            s.i,
            m,
            handle_is m.addr (sym (ap (λ (r : Option ℕ × State). r.0) s.all) ∙ e)
                ∙ good.same_addr file n st.mods st.chunks,
            s.id_found,
            rw s.all (ap (λ (b : Bool). (b, m, cs)) s.read_ok),
            good.fills file n st.mods st.chunks s.read_ok,
            rw s.all refl,
            rw s.all refl,
          )
      | inr s ↦
          let q : none ≡ some h = sym (ap (λ (r : Option ℕ × State). r.0) s.all) ∙ e in
          absurd (cc q)
    ]
      where
        handle_is : (a : ℕ) → some a ≡ some h → h ≡ a
        handle_is a q = ground (arith, q)
