-- ===== src/Modules/Record.antt =====
-- `CexpModuleRec` and the list of modules that `cexpSystemModule` heads. A handle is the address of a
-- module's record; a function pointer is a number, 0 for null. What the code lets others see while
-- it runs (calls of a module's routines, memory that is wiped or freed) is a log, the latest last.
use rtems_hzb_cexpsh.Base.{
  ℕ, ◌≡◌, refl, ◌⊎◌, inl, inr, ◌≢◌, List, [], ◌∷◌, ◌++◌, All, ◌==◌, if◌then◌else◌, map, sym, subst,
  ◌∙◌, ap,
}
use rtems_hzb_cexpsh.Syms.{SymTbl, empty_tbl}
use rtems_hzb_cexpsh.Segs.{Segment, Chunks}
use rtems_hzb_cexpsh.Modules.Bitmap.{Bitmap, no_bits}

pub record Module : Type 0 where
  pub addr : ℕ
  pub name : List ℕ
  pub text_vma : ℕ
  pub symtbl : SymTbl
  pub id : ℕ
  pub segs : List Segment
  pub neededby : Bitmap
  pub needs : Bitmap
  pub ctors : List ℕ
  pub dtors : List ℕ
  pub cleanup : ℕ
  pub ini : ℕ
  pub fini : ℕ
  pub attributes : ℕ

-- `malloc` and `memset` of `cexpModuleLoad`.
abbrev pub blank_module : ℕ → Module
blank_module addr = record {
  addr = addr;
  name = [];
  text_vma = 0;
  symtbl = empty_tbl;
  id = 0;
  segs = [];
  neededby = no_bits;
  needs = no_bits;
  ctors = [];
  dtors = [];
  cleanup = 0;
  ini = 0;
  fini = 0;
  attributes = 0;
}

pub data Event : Type 0 where
  ran : ℕ → Event
  wiped : ℕ → ℕ → Event
  freed : ℕ → Event
  read : ℕ → Event

-- The list, the static `id` of `idAlloc`, the chunks of memory that are handed out, and the log.
pub record State : Type 0 where
  pub mods : List Module
  pub last_id : ℕ
  pub chunks : Chunks
  pub log : List Event

abbrev pub say : List Event → State → State
say es st = record st { log = st.log ++ es }

-- The calls of the routines of a list, the null pointers left out.
unfoldable pub run_all : List ℕ → List Event
run_all [] = []
run_all (f ∷ fs) = let rest = run_all fs in if f == 0 then rest else ran f ∷ rest

-- A call through one pointer, if it is not null.
abbrev pub run_one : ℕ → List Event
run_one f = if f == 0 then [] else ran f ∷ []

-- Membership as a sum, to be taken apart.
abbrev pub In : Module → List Module → Type 0
In m [] = ⊥
In m (x ∷ xs) = (m ≡ x) ⊎ In m xs

-- No two entries agree on `f`.
abbrev pub DistinctBy {ℓ} : {A : Type ℓ} → (Module → A) → List Module → Type ℓ
DistinctBy f [] = Unit
DistinctBy f (x ∷ xs) = All (λ y. f x ≢ f y) xs × DistinctBy f xs

pub All-In {ℓ} : (P : Module → Type ℓ) (m : Module) (ms : List Module) → All P ms → In m ms → P m
All-In P m [] a i = elim i [ ]
All-In P m (x ∷ xs) a (inl e) = subst P (sym e) a.0
All-In P m (x ∷ xs) a (inr i) = All-In P m xs a.1 i

pub DistinctBy-eq {ℓ} :
    {A : Type ℓ} (f : Module → A) (ms : List Module) (a b : Module)
    → DistinctBy f ms
    → In a ms
    → In b ms
    → f a ≡ f b
    → a ≡ b
DistinctBy-eq f [] a b d i j e = elim i [ ]
DistinctBy-eq f (x ∷ xs) a b d (inl p) (inl q) e = p ∙ sym q
DistinctBy-eq f (x ∷ xs) a b d (inl p) (inr j) e = absurd (All-In _ b xs d.0 j (ap f (sym p) ∙ e))
DistinctBy-eq f (x ∷ xs) a b d (inr i) (inl q) e =
    absurd (All-In _ a xs d.0 i (ap f (sym q) ∙ sym e))
DistinctBy-eq f (x ∷ xs) a b d (inr i) (inr j) e = DistinctBy-eq f xs a b d.1 i j e

-- A change of every entry that leaves `f` alone.
module _ (g : Module → Module) where
  pub In-map :
      (m : Module) (ms : List Module) → In m (map g ms) → (x : Module) × In x ms × (m ≡ g x)
  In-map m [] i = elim i [ ]
  In-map m (x ∷ xs) (inl e) = (x, inl refl, e)
  In-map m (x ∷ xs) (inr i) = let (y, j, e) = In-map m xs i in (y, inr j, e)

  pub map-In : (m : Module) (ms : List Module) → In m ms → In (g m) (map g ms)
  map-In m [] i = elim i [ ]
  map-In m (x ∷ xs) (inl e) = inl (ap g e)
  map-In m (x ∷ xs) (inr i) = inr (map-In m xs i)

  All-map {ℓ} :
      (P Q : Module → Type ℓ) (ms : List Module)
      → ((x : Module) → P x → Q (g x))
      → All P ms
      → All Q (map g ms)
  All-map P Q [] h a = tt
  All-map P Q (x ∷ xs) h a = (h x a.0, All-map P Q xs h a.1)

  pub DistinctBy-map {ℓ} :
      {A : Type ℓ} (f : Module → A) (ms : List Module)
      → ((x : Module) → f (g x) ≡ f x)
      → DistinctBy f ms
      → DistinctBy f (map g ms)
  DistinctBy-map f [] same d = tt
  DistinctBy-map f (x ∷ xs) same d =
      (All-map _ _ xs (λ y n e. n (sym (same x) ∙ e ∙ same y)) d.0, DistinctBy-map f xs same d.1)

-- An entry at the end.
pub DistinctBy-snoc {ℓ} :
    {A : Type ℓ} (f : Module → A) (ms : List Module) (n : Module)
    → DistinctBy f ms
    → ((x : Module) → In x ms → f x ≢ f n)
    → DistinctBy f (ms ++ n ∷ [])
DistinctBy-snoc f [] n d h = (tt, tt)
DistinctBy-snoc f (x ∷ xs) n d h =
    (All-snoc xs d.0, DistinctBy-snoc f xs n d.1 (λ y i. h y (inr i)))
  where
    All-snoc : (ys : List Module) → All (λ y. f x ≢ f y) ys → All (λ y. f x ≢ f y) (ys ++ n ∷ [])
    All-snoc [] a = (h x (inl refl), tt)
    All-snoc (y ∷ ys) a = (a.0, All-snoc ys a.1)

pub In-snoc : (m n : Module) (ms : List Module) → In m (ms ++ n ∷ []) → In m ms ⊎ (m ≡ n)
In-snoc m n [] (inl e) = inr e
In-snoc m n [] (inr i) = elim i [ ]
In-snoc m n (x ∷ xs) (inl e) = inl (inl e)
In-snoc m n (x ∷ xs) (inr i) = elim (In-snoc m n xs i) [ inl j ↦ inl (inr j) | inr e ↦ inr e ]

pub snoc-old : (m n : Module) (ms : List Module) → In m ms → In m (ms ++ n ∷ [])
snoc-old m n [] i = elim i [ ]
snoc-old m n (x ∷ xs) (inl e) = inl e
snoc-old m n (x ∷ xs) (inr i) = inr (snoc-old m n xs i)

pub snoc-new : (n : Module) (ms : List Module) → In n (ms ++ n ∷ [])
snoc-new n [] = inl refl
snoc-new n (x ∷ xs) = inr (snoc-new n xs)
