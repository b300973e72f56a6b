-- ===== src/Modules/Unload.antt =====
-- `cexpModuleUnload`, `cexpModuleFree`, `predecessor` and `modIsStale` of cexpmod.c.
use rtems_hzb_cexpsh.Base.{
  ℕ, ◌≡◌, inl, inr, ◌≢◌, Bool, true, false, ◌&&◌, not, Option, none, some, List, [], ◌∷◌, ◌++◌, All,
  ◌==◌, if◌then◌else◌, map, arith, ap, Bool-cases,
}
use rtems_hzb_cexpsh.Segs.{Segment, Memory, segs_delete}
use rtems_hzb_cexpsh.Modules.Bitmap.{bitmap_clr, bitmap_nonzero}
use rtems_hzb_cexpsh.Modules.Record.{
  Module, State, Event, wiped, freed, read, say, run_all, run_one, In, All-In, DistinctBy,
}

-- `predecessor`: the module before the one with that handle, and that module; the head has none.
unfoldable pub predecessor : ℕ → List Module → Option (Module × Module)
predecessor h [] = none
predecessor h (p ∷ []) = none
predecessor h (p ∷ q ∷ ms) =
    let rest = predecessor h (q ∷ ms) in if q.addr == h then some (p, q) else rest

-- `pred->next = mod->next`.
unfoldable pub unlink : ℕ → List Module → List Module
unlink h [] = []
unlink h (p ∷ []) = p ∷ []
unlink h (p ∷ q ∷ ms) = let rest = p ∷ unlink h (q ∷ ms) in if q.addr == h then p ∷ ms else rest

-- `modIsStale`: the walk from the head finds no such handle.
unfoldable pub mod_is_stale : ℕ → List Module → Bool
mod_is_stale h [] = true
mod_is_stale h (m ∷ ms) = let rest = mod_is_stale h ms in if m.addr == h then false else rest

-- Whether the handle is that of the system module, the head of the list.
unfoldable pub is_system : ℕ → List Module → Bool
is_system h [] = false
is_system h (m ∷ ms) = m.addr == h

-- "remove from dependency bitmaps"
abbrev pub drop_dependent : ℕ → Module → Module
drop_dependent id m = record m { neededby = bitmap_clr m.neededby id }

-- The segments that hold memory are overwritten with zeros.
unfoldable pub wipe : List Segment → List Event
wipe [] = []
wipe (s ∷ ss) = let rest = wipe ss in if s.chunk == 0 then rest else wiped s.chunk s.size ∷ rest

-- `cexpModuleFree`: the segments go back, the record is freed, and is read once more for its
-- attributes.
unfoldable pub module_free : Memory → Module → State → State
unfolding segs_delete
module_free mem m st =
    say (freed m.addr ∷ read m.addr ∷ []) (record st { chunks = segs_delete mem m.segs st.chunks })

pub data Refusal : Type 0 where
  system_module : Refusal
  bad_handle : Refusal
  still_needed : Refusal
  finalizer : Refusal

pub data Outcome : Type 0 where
  unloaded : Outcome
  refused : Refusal → Outcome

-- The part of `cexpModuleUnload` behind the checks, for the module and its handle.
unfoldable pub take_out : Memory → Module → State → State
unfolding run_all unlink wipe module_free
take_out mem target st =
    let cleared = record st { mods = map (drop_dependent target.id) st.mods } in
    let called = say (run_all target.dtors ++ run_one target.cleanup) cleared in
    let removed = record called { mods = unlink target.addr called.mods } in
    module_free mem target (say (wipe target.segs) removed)

-- `cexpModuleUnload`. `verdict` is what a finalizer answers, by its address: `true` for nonzero, which
-- rejects the unload.
unfoldable pub module_unload : Memory → (ℕ → Bool) → ℕ → State → Outcome × State
unfolding predecessor is_system
module_unload mem verdict h st =
    if not (h == 0) && is_system h st.mods
    then (refused system_module, st)
    else if h == 0
    then (refused bad_handle, st)
    else elim (predecessor h st.mods) [
      | none ↦ (refused bad_handle, st)
      | some (pred, target) ↦
          let asked = say (run_one target.fini) st in
          if bitmap_nonzero target.neededby
          then (refused still_needed, st)
          else if not (target.fini == 0) && verdict target.fini
          then (refused finalizer, asked)
          else (unloaded, take_out mem target asked)
    ]

abbrev pub handle : Module → ℕ
handle m = m.addr

pub predecessor-In :
    (h : ℕ) (ms : List Module) (p m : Module)
    → predecessor h ms ≡ some (p, m)
    → In m ms × (m.addr ≡ h)
unfolding predecessor
predecessor-In h [] p m e = absurd (cc)
predecessor-In h (x ∷ []) p m e = absurd (cc)
predecessor-In h (x ∷ q ∷ ms) p m e = elim (Bool-cases (q.addr == h)) [
  | inl hit ↦ (inr (inl (ground arith)), ground arith)
  | inr miss ↦ let (i, same) = predecessor-In h (q ∷ ms) p m (ground arith) in (inr i, same)
]

pub unlink-In : (h : ℕ) (m : Module) (ms : List Module) → In m (unlink h ms) → In m ms
unfolding unlink
unlink-In h m [] i = i
unlink-In h m (p ∷ []) i = i
unlink-In h m (p ∷ q ∷ ms) i = elim (Bool-cases (q.addr == h)) [
  | inl hit ↦ skip (rw hit at i)
  | inr miss ↦ step (rw miss at i) (unlink-In h m (q ∷ ms))
]
  where
    skip : In m (p ∷ ms) → In m (p ∷ q ∷ ms)
    skip (inl e) = inl e
    skip (inr j) = inr (inr j)

    step :
        In m (p ∷ unlink h (q ∷ ms))
        → (In m (unlink h (q ∷ ms)) → In m (q ∷ ms))
        → In m (p ∷ q ∷ ms)
    step (inl e) f = inl e
    step (inr j) f = inr (f j)

-- In a list of distinct handles whose head has another one, nothing with the handle is left.
pub unlink_gone :
    (h : ℕ) (m : Module) (ms : List Module)
    → DistinctBy handle ms
    → is_system h ms ≡ false
    → In m (unlink h ms)
    → m.addr ≢ h
unfolding unlink is_system
unlink_gone h m [] d s i = elim i [ ]
unlink_gone h m (p ∷ []) d s (inl e) = λ q. ground (arith, ap handle e)
unlink_gone h m (p ∷ []) d s (inr i) = elim i [ ]
unlink_gone h m (p ∷ q ∷ ms) d s i = elim (Bool-cases (q.addr == h)) [
  | inl hit ↦ skip hit (rw hit at i)
  | inr miss ↦ step (rw miss at i) (unlink_gone h m (q ∷ ms) d.1 miss)
]
  where
    skip : (q.addr == h) ≡ true → In m (p ∷ ms) → m.addr ≢ h
    skip hit (inl e) = λ z. ground (arith, ap handle e)
    skip hit (inr j) = λ z. All-In (λ y. q.addr ≢ y.addr) m ms d.1.0 j (ground arith)

    step : In m (p ∷ unlink h (q ∷ ms)) → (In m (unlink h (q ∷ ms)) → m.addr ≢ h) → m.addr ≢ h
    step (inl e) f = λ z. ground (arith, ap handle e)
    step (inr j) f = f j

-- All others stay.
pub unlink_kept :
    (h : ℕ) (m : Module) (ms : List Module) → In m ms → m.addr ≢ h → In m (unlink h ms)
unfolding unlink
unlink_kept h m [] i ne = i
unlink_kept h m (p ∷ []) i ne = i
unlink_kept h m (p ∷ q ∷ ms) i ne = elim (Bool-cases (q.addr == h)) [
  | inl hit ↦ rw hit (skip hit i)
  | inr miss ↦ rw miss (step i (λ j. unlink_kept h m (q ∷ ms) j ne))
]
  where
    skip : (q.addr == h) ≡ true → In m (p ∷ q ∷ ms) → In m (p ∷ ms)
    skip hit (inl e) = inl e
    skip hit (inr (inl e)) = absurd (ground (arith, ap handle e))
    skip hit (inr (inr j)) = inr j

    step :
        In m (p ∷ q ∷ ms)
        → (In m (q ∷ ms) → In m (unlink h (q ∷ ms)))
        → In m (p ∷ unlink h (q ∷ ms))
    step (inl e) f = inl e
    step (inr j) f = inr (f j)

pub unlink-All {ℓ} :
    (P : Module → Type ℓ) (h : ℕ) (ms : List Module) → All P ms → All P (unlink h ms)
unfolding unlink
unlink-All P h [] a = a
unlink-All P h (p ∷ []) a = a
unlink-All P h (p ∷ q ∷ ms) a = elim (Bool-cases (q.addr == h)) [
  | inl hit ↦ rw hit (a.0, a.1.1)
  | inr miss ↦ rw miss (a.0, unlink-All P h (q ∷ ms) a.1)
]

pub unlink-DistinctBy {ℓ} :
    {A : Type ℓ} (f : Module → A) (h : ℕ) (ms : List Module)
    → DistinctBy f ms
    → DistinctBy f (unlink h ms)
unfolding unlink
unlink-DistinctBy f h [] d = d
unlink-DistinctBy f h (p ∷ []) d = d
unlink-DistinctBy f h (p ∷ q ∷ ms) d = elim (Bool-cases (q.addr == h)) [
  | inl hit ↦ rw hit (d.0.1, d.1.1)
  | inr miss ↦
      rw miss (unlink-All (λ y. f p ≢ f y) h (q ∷ ms) d.0, unlink-DistinctBy f h (q ∷ ms) d.1)
]
