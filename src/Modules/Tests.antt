-- ===== src/Modules/Tests.antt =====
-- Runs of the modules of cexpmod.c at concrete states: a system module and one that needs it.
use rtems_hzb_cexpsh.Base.{
  ℕ, zero, suc, ◌≤◌, get_or, ◌≡◌, refl, inl, inr, ◌≢◌, ◌<◌, true, false, none, some, List, [], ◌∷◌,
  ◌++◌, arith, ap, Bool-cases, ltb, strcmp, if◌then◌else◌, map,
}
use rtems_hzb_cexpsh.Segs.{Memory}
use rtems_hzb_cexpsh.Modules.Bitmap.{
  Bitmap, bitmap_set, bitmap_tst, tst-set, no_bits, no_bits-tst, no_bits-IsBitmap,
}
use rtems_hzb_cexpsh.Modules.Record.{Module, State, run_all, run_one, In, freed, read, blank_module}
use rtems_hzb_cexpsh.Modules.Ids.{
  mark_used, id_loop, id_alloc, id_alloc-Allocates, Allocates, has_id, SmallIds,
}
use rtems_hzb_cexpsh.Modules.Unload.{
  module_unload, is_system, refused, unloaded, still_needed, wipe, drop_dependent,
}
use rtems_hzb_cexpsh.Modules.Load.{
  Loader, IsLoader, IsFilled, module_load, module_name, has_name, chain, add_dependent,
}
use rtems_hzb_cexpsh.Modules.System.{
  IsValid, module_unload-IsValid, module_unload_needed, module_unload-effect,
}
use rtems_hzb_cexpsh.Modules.Loading.{
  module_load-IsValid, module_load-effect, fresh_module, built_module,
}

-- A heap that has room at 4096.
abbrev heap : Memory
heap = record { pick = λ k n cs. some 4096; takes_back = λ a cs. true }

-- The bit of the list's last module.
abbrev last_bit : List Module → Bitmap
last_bit [] = no_bits
last_bit (m ∷ []) = if ltb m.id 256 then bitmap_set no_bits m.id else no_bits
last_bit (m ∷ n ∷ ms) = last_bit (n ∷ ms)

-- A reader whose modules need the last one of the list and have two constructors and a destructor.
abbrev reader : Loader
reader = record {
  load = λ file n ms cs.
      (true, record n { needs = last_bit ms; ctors = 7 ∷ 8 ∷ []; dtors = 9 ∷ [] }, cs);
  add_help = λ t. t;
}

last_bit-tst :
    (ms : List Module) (j : ℕ)
    → bitmap_tst (last_bit ms) j ≡ true
    → (a : Module) × In a ms × (a.id ≡ j)
last_bit-tst [] j h = absurd (cc (no_bits-tst j, h))
last_bit-tst (m ∷ []) j h = elim (Bool-cases (ltb m.id 256)) [
  | inl small ↦ (
    m,
    inl refl,
    ground (arith, h, tst-set no_bits m.id no_bits-IsBitmap (ground arith) j, no_bits-tst j),
  )
  | inr big ↦ ground (arith, h, no_bits-tst j)
]
last_bit-tst (m ∷ n ∷ ms) j h = let (a, i, e) = last_bit-tst (n ∷ ms) j h in (a, inr i, e)

reader-IsLoader : IsLoader reader
reader-IsLoader = record {
  fills = λ file n ms cs ok. record {
    same_id = refl;
    same_name = refl;
    same_dependents = refl;
    needs_loaded = last_bit-tst ms;
  };
  same_addr = λ file n ms cs. refl;
}

abbrev no_modules : State
no_modules = record { mods = []; last_id = 255; chunks = []; log = [] }

no_modules-IsValid : IsValid no_modules
no_modules-IsValid = record {
  consistent = record {
    small = tt;
    ids = tt;
    handles = tt;
    names = tt;
    shapes = tt;
    dual = λ a b i j. elim i [ ];
    closed = λ b j i h. elim i [ ];
    known = λ a j i h. elim i [ ];
  };
  cursor = omega arith;
}

-- The system module alone, with handle 100.
abbrev system_state : State
system_state = (module_load heap reader (some 100) true none none no_modules).1

system_state-IsValid : IsValid system_state
system_state-IsValid =
    module_load-IsValid heap reader 100 true none none no_modules no_modules-IsValid reader-IsLoader
      (λ x i. elim i [ ])

-- What the first load leaves in the list.
system_ids : map (λ (m : Module). m.id) system_state.mods ≡ 0 ∷ []
unfolding module_load id_alloc id_loop mark_used bitmap_tst bitmap_set module_name has_name chain
    strcmp
system_ids = refl

-- And a module that needs it, with handle 200.
abbrev two_state : State
two_state = (module_load heap reader (some 200) true (some (b'a' ∷ [])) none system_state).1

not_200 : (x : Module) → In x system_state.mods → x.addr ≢ 200
unfolding module_load id_alloc id_loop mark_used bitmap_tst bitmap_set module_name has_name chain
    strcmp
not_200 x (inr i) = elim i [ ]
not_200 x (inl e) = λ q. ground (arith, ap (λ (m : Module). m.addr) e, q)

module_load-IsValid_example : IsValid two_state
module_load-IsValid_example =
    module_load-IsValid heap reader 200 true (some (b'a' ∷ [])) none system_state
      system_state-IsValid reader-IsLoader not_200

two_ids : map (λ (m : Module). m.id) two_state.mods ≡ 0 ∷ 1 ∷ []
unfolding module_load id_alloc id_loop mark_used bitmap_tst bitmap_set module_name has_name chain
    strcmp
two_ids = refl

-- And a third one, with handle 300.
abbrev three_state : State
three_state = (module_load heap reader (some 300) true (some (b'b' ∷ [])) none two_state).1

not_300 : (x : Module) → In x two_state.mods → x.addr ≢ 300
unfolding module_load id_alloc id_loop mark_used bitmap_tst bitmap_set module_name has_name chain
    strcmp
not_300 x (inl e) = λ q. ground (arith, ap (λ (m : Module). m.addr) e, q)
not_300 x (inr (inl e)) = λ q. ground (arith, ap (λ (m : Module). m.addr) e, q)
not_300 x (inr (inr i)) = elim i [ ]

three_state-IsValid : IsValid three_state
three_state-IsValid =
    module_load-IsValid heap reader 300 true (some (b'b' ∷ [])) none two_state
      module_load-IsValid_example reader-IsLoader not_300

abbrev nth : ℕ → Module
nth k = get_or three_state.mods k (blank_module 0)

module_unload-IsValid_example : IsValid (module_unload heap (λ f. false) 300 three_state).1
module_unload-IsValid_example =
    module_unload-IsValid heap (λ f. false) 300 three_state three_state-IsValid

-- The second module is needed by the third.
module_unload_needed_example :
    module_unload heap (λ f. false) (nth 1).addr three_state ≡ (refused still_needed, three_state)
unfolding module_load id_alloc id_loop mark_used bitmap_tst bitmap_set module_name has_name chain
    strcmp is_system
module_unload_needed_example =
    module_unload_needed heap (λ f. false) three_state three_state-IsValid (nth 1) (inr (inl refl))
      refl (λ q. ground (arith, q)) (nth 2) (inr (inr (inl refl))) refl

not_needed_third : (b : Module) → In b three_state.mods → bitmap_tst b.needs (nth 2).id ≡ false
unfolding module_load id_alloc id_loop mark_used bitmap_tst bitmap_set module_name has_name chain
    strcmp
not_needed_third b (inl e) = ap (λ (m : Module). bitmap_tst m.needs 2) e
not_needed_third b (inr (inl e)) = ap (λ (m : Module). bitmap_tst m.needs 2) e
not_needed_third b (inr (inr (inl e))) = ap (λ (m : Module). bitmap_tst m.needs 2) e
not_needed_third b (inr (inr (inr i))) = elim i [ ]

module_unload-effect_example :
    ((module_unload heap (λ f. false) (nth 2).addr three_state).0 ≡ unloaded)
    × ((module_unload heap (λ f. false) (nth 2).addr three_state).1.log
        ≡ three_state.log
          ++ run_one (nth 2).fini
          ++ run_all (nth 2).dtors
          ++ run_one (nth 2).cleanup
          ++ wipe (nth 2).segs
          ++ freed (nth 2).addr ∷ read (nth 2).addr ∷ [])
    × ((m : Module)
        → In m (module_unload heap (λ f. false) (nth 2).addr three_state).1.mods
        → m.addr ≢ (nth 2).addr)
    × ((m : Module)
        → In m three_state.mods
        → m.addr ≢ (nth 2).addr
        → In
            (drop_dependent (nth 2).id m)
            (module_unload heap (λ f. false) (nth 2).addr three_state).1.mods)
unfolding module_load id_alloc id_loop mark_used bitmap_tst bitmap_set module_name has_name chain
    strcmp is_system
module_unload-effect_example =
    module_unload-effect heap (λ f. false) three_state three_state-IsValid (nth 2)
      (inr (inr (inl refl))) refl (λ q. ground (arith, q)) not_needed_third (inl refl)

abbrev third_handle : ℕ
third_handle = 300

module_load-effect_example :
    (i : ℕ) × (m : Module) × (third_handle ≡ third_handle)
    × (id_alloc two_state.mods two_state.last_id ≡ some i)
    × (reader.load
          (some (b'b' ∷ []))
          (fresh_module 300 i (module_name (some (b'b' ∷ [])) none))
          two_state.mods
          two_state.chunks
        ≡ (true, m, three_state.chunks))
    × IsFilled (fresh_module 300 i (module_name (some (b'b' ∷ [])) none)) two_state.mods m
    × (three_state.log ≡ two_state.log ++ (run_all m.ctors ++ run_one m.ini))
    × (three_state.mods
        ≡ map (add_dependent (built_module reader m)) two_state.mods ++ built_module reader m ∷ [])
unfolding module_load id_alloc id_loop mark_used bitmap_tst bitmap_set module_name has_name chain
    strcmp
module_load-effect_example =
    module_load-effect heap reader 300 true (some (b'b' ∷ [])) none two_state reader-IsLoader 300
      refl

id_alloc-Allocates_example :
    Allocates two_state.mods two_state.last_id (id_alloc two_state.mods two_state.last_id)
id_alloc-Allocates_example =
    id_alloc-Allocates two_state.mods two_state.last_id module_load-IsValid_example.consistent.small
      module_load-IsValid_example.cursor

-- Modules with the identifiers below `n`.
abbrev upto : ℕ → List Module
upto zero = []
upto (suc n) = record (blank_module n) { id = n } ∷ upto n

has_id-upto : (n j : ℕ) → j < n → has_id j (upto n) ≡ true
unfolding has_id
has_id-upto zero j h = absurd (omega arith)
has_id-upto (suc n) j h = ground (arith, has_id-upto n j)

upto-SmallIds : (n : ℕ) → n ≤ 256 → SmallIds (upto n)
upto-SmallIds zero h = tt
upto-SmallIds (suc n) h = (omega arith, upto-SmallIds n (omega arith))
