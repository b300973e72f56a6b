-- ===== src/Modules/Ids.antt =====
-- `idAlloc`: the next identifier that no module of the list uses, searched for round from the one that
-- was given out last.
use rtems_hzb_cexpsh.Base.{
  ℕ, zero, suc, ◌+◌, ◌-◌, ◌%◌, ◌<◌, ◌≡◌, ◌≢◌, refl, inl, inr, Bool, true, false, ◌||◌, Option, none,
  some, List, [], ◌∷◌, All, ◌==◌, if◌then◌else◌, arith, Bool-cases, ℕ_discrete, subst, Option-cases,
  ap, same_index,
}
use rtems_hzb_cexpsh.Modules.Bitmap.{
  Bitmap, bitmap_set, bitmap_tst, no_bits, max_num_modules, IsBitmap, bitmap_set-IsBitmap, tst-set,
  no_bits-IsBitmap, no_bits-tst,
}
use rtems_hzb_cexpsh.Modules.Record.{Module, In}

-- The loop that marks all used identifiers.
unfoldable pub mark_used : List Module → Bitmap → Bitmap
mark_used [] used = used
mark_used (m ∷ ms) used = mark_used ms (bitmap_set used m.id)

-- The `do` loop. Of the fuel 256 rounds are enough: the search comes round to `id`.
unfoldable pub id_loop : ℕ → ℕ → ℕ → Bitmap → Option ℕ
id_loop zero id at used = none
id_loop (suc fuel) id at used =
    let new_id = (at + 1) % max_num_modules in
    let rest = id_loop fuel id new_id used in
    if new_id == id then none else if bitmap_tst used new_id then rest else some new_id

-- `idAlloc` on the list and the static `id`: the new identifier, which is the new `id` too.
unfoldable pub id_alloc : List Module → ℕ → Option ℕ
unfolding mark_used id_loop
id_alloc mods id = id_loop max_num_modules id id (mark_used mods no_bits)

-- Whether a module of the list has the identifier.
unfoldable pub has_id : ℕ → List Module → Bool
has_id j [] = false
has_id j (m ∷ ms) = same_index m.id j || has_id j ms

abbrev pub SmallIds : List Module → Type 0
SmallIds = All (λ m. m.id < max_num_modules)

tst-mark_used :
    (ms : List Module) (used : Bitmap) (j : ℕ)
    → SmallIds ms
    → IsBitmap used
    → bitmap_tst (mark_used ms used) j ≡ (has_id j ms || bitmap_tst used j)
unfolding mark_used has_id
tst-mark_used [] used j s v = refl
tst-mark_used (m ∷ ms) used j s v = ground (
  arith,
  tst-mark_used ms (bitmap_set used m.id) j s.1 (bitmap_set-IsBitmap used m.id v s.0),
  tst-set used m.id v s.0 j,
)

-- How far it is from `a` up to `b`, round the end.
abbrev ahead : ℕ → ℕ → ℕ
ahead a b = (b + max_num_modules - a - 1) % max_num_modules

-- The search ends at the first identifier that is not used, or comes round to `id`.
abbrev Search : Bitmap → ℕ → ℕ → Option ℕ → Type 0
Search used id at none =
    (j : ℕ) → j < max_num_modules → ahead at j < ahead at id → bitmap_tst used j ≡ true
Search used id at (some i) = (i < max_num_modules) × (i ≢ id) × (bitmap_tst used i ≡ false)

further :
    (used : Bitmap) (id at : ℕ) (r : Option ℕ)
    → id < max_num_modules
    → at < max_num_modules
    → (at + 1) % max_num_modules ≢ id
    → bitmap_tst used ((at + 1) % max_num_modules) ≡ true
    → Search used id ((at + 1) % max_num_modules) r
    → Search used id at r
further used id at none p q other taken h = λ j small lt.
    elim (ℕ_discrete ((at + 1) % max_num_modules) j) [
      | yes e ↦ subst (λ k. bitmap_tst used k ≡ true) e taken
      | no ne ↦ h j small (omega arith)
    ]
further used id at (some i) p q other taken h = h

id_loop-Search :
    (fuel id at : ℕ) (used : Bitmap)
    → id < max_num_modules
    → at < max_num_modules
    → ahead at id < fuel
    → Search used id at (id_loop fuel id at used)
unfolding id_loop
id_loop-Search zero id at used p q few = absurd (omega arith)
id_loop-Search (suc fuel) id at used p q few =
    elim (Bool-cases (((at + 1) % max_num_modules) == id)) [
      | inl round ↦ rw round (λ j small lt. absurd (ground arith))
      | inr other ↦ rw other (elim (Bool-cases (bitmap_tst used ((at + 1) % max_num_modules))) [
        | inl taken ↦ rw taken (
            further used id at (id_loop fuel id ((at + 1) % max_num_modules) used) p q
              (ground arith) taken
              (id_loop-Search fuel id ((at + 1) % max_num_modules) used p (omega arith)
                (ground arith)))
        | inr free ↦ rw free (omega arith, ground arith, free)
      ])
    ]

-- What `idAlloc` may answer: an identifier in range that no module uses, other than the one that was
-- given out last, or nothing if all others are in use.
abbrev pub Allocates : List Module → ℕ → Option ℕ → Type 0
Allocates mods last none = (j : ℕ) → j < max_num_modules → j ≢ last → has_id j mods ≡ true
Allocates mods last (some i) = (i < max_num_modules) × (i ≢ last) × (has_id i mods ≡ false)

Search-Allocates :
    (mods : List Module) (last : ℕ) (r : Option ℕ)
    → SmallIds mods
    → last < max_num_modules
    → Search (mark_used mods no_bits) last last r
    → Allocates mods last r
Search-Allocates mods last none s p h = λ j small ne.
    ground (arith, h j, tst-mark_used mods no_bits j s no_bits-IsBitmap, no_bits-tst j)
Search-Allocates mods last (some i) s p h =
    (h.0, h.1, ground (arith, h.2, tst-mark_used mods no_bits i s no_bits-IsBitmap, no_bits-tst i))

-- `idAlloc` on a list with identifiers in range: it hands out an identifier in range that no module
-- of the list uses and that is not the one handed out last, and fails exactly if all but that are used.
pub id_alloc-Allocates :
    (mods : List Module) (last : ℕ)
    → SmallIds mods
    → last < max_num_modules
    → Allocates mods last (id_alloc mods last)
unfolding id_alloc
id_alloc-Allocates mods last s p =
    Search-Allocates mods last (id_loop max_num_modules last last (mark_used mods no_bits)) s p
      (id_loop-Search max_num_modules last last (mark_used mods no_bits) p p (omega arith))

-- So the identifier given out last is not found again: with all others in use the allocation fails,
-- whether the module that had it is still loaded or not.
pub id_alloc_skips_last :
    (mods : List Module) (last : ℕ)
    → SmallIds mods
    → last < max_num_modules
    → ((j : ℕ) → j < max_num_modules → j ≢ last → has_id j mods ≡ true)
    → id_alloc mods last ≡ none
id_alloc_skips_last mods last s p full = elim (Option-cases (id_alloc mods last)) [
  | inl e ↦ e
  | inr (i, e) ↦
      let a : Allocates mods last (some i) =
        subst (Allocates mods last) e (id_alloc-Allocates mods last s p) in
      absurd (ground (arith, full i, a.0, a.1, a.2))
]

pub has_id-In : (j : ℕ) (m : Module) (ms : List Module) → has_id j ms ≡ false → In m ms → m.id ≢ j
unfolding has_id
has_id-In j m [] h i = elim i [ ]
has_id-In j m (x ∷ xs) h (inl e) = λ q. ground (arith, ap (λ (y : Module). y.id) e)
has_id-In j m (x ∷ xs) h (inr i) = has_id-In j m xs (ground arith) i
