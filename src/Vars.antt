-- ===== src/Vars.antt =====
-- vars.c: user variables and interned strings, each a singly linked list that is kept in ascending
-- order of names behind a static head. `List` below is such a list from the head's successor on, and
-- the pointer `succ` that the search hands back is the number of elements before it. The C
-- `assert(!walking)` aborts: `none`. The lock is a count of how often the caller holds it (it nests).
pub mod Order
pub mod Laws
pub mod Tests
use rtems_hzb_cexpsh.Base.{
  ℕ, suc, ◌+◌, ◌-◌, Bool, true, false, ◌&&◌, Option, none, some, List, [], ◌∷◌, Ordering, strcmp,
  str_eq, ◌==◌, if◌then◌else◌, zero,
}

-- The walk of `lhrFindN_LOCK` from the head: go on while the element compares below.
module _ {A : Type 0} (comp : A → Ordering) where
  pub lhr_find : List A → ℕ × Option A
  lhr_find [] = (0, none)
  lhr_find (v ∷ vs) = elim (comp v) [
    | Ordering.lt ↦ let rest = lhr_find vs in (suc (rest.0), rest.1)
    | Ordering.eq ↦ (0, some v)
    | Ordering.gt ↦ (0, none)
  ]

-- The relinking of `lhrAdd`: `el` goes behind the first `i` elements.
pub insert_at : {A : Type 0} → ℕ → A → List A → List A
insert_at zero el xs = el ∷ xs
insert_at (suc i) el [] = el ∷ []
insert_at (suc i) el (x ∷ xs) = x ∷ insert_at i el xs

-- `p->p = v->head.p`: the element behind the first `i` is taken out.
pub remove_at : {A : Type 0} → ℕ → List A → List A
remove_at i [] = []
remove_at zero (x ∷ xs) = xs
remove_at (suc i) (x ∷ xs) = x ∷ remove_at i xs

-- `CexpVarRec`: the symbol's name, type, size and flags, and the value that it points to.
pub record Var : Type 0 where
  pub name : List ℕ
  pub type : ℕ
  pub value : ℕ
  pub size : ℕ
  pub flags : ℕ

pub record Store : Type 0 where
  pub vars : List Var
  pub strs : List (List ℕ)
  pub walking : ℕ
  pub depth : ℕ

abbrev pub lock : Store → Store
lock st = record st { depth = st.depth + 1 }

abbrev pub unlock : Store → Store
unlock st = record st { depth = st.depth - 1 }

abbrev pub varcomp : List ℕ → Var → Ordering
varcomp name v = strcmp v.name name

abbrev pub strcomp : List ℕ → List ℕ → Ordering
strcomp name s = strcmp s name

-- `strFindN_LOCK` and `findN_LOCK`, both without the lock.
abbrev pub str_find : List ℕ → List (List ℕ) → ℕ × Option (List ℕ)
str_find name = lhr_find (strcomp name)

abbrev pub find_var : List ℕ → List Var → ℕ × Option Var
find_var name = lhr_find (varcomp name)

-- `lhrAdd` on either list. It locks and unlocks, so the count is as before.
pub add_str : ℕ → List ℕ → Store → Option Store
add_str q s st =
    if (lock st).walking == 0
    then some (unlock (record (lock st) { strs = insert_at q s st.strs }))
    else none

pub add_var : ℕ → Var → Store → Option Store
add_var where_ n st =
    if (lock st).walking == 0
    then some (unlock (record (lock st) { vars = insert_at where_ n st.vars }))
    else none

infixl 5 ◌>>=◌
abbrev pub ◌>>=◌ : {A B : Type 0} → Option A → (A → Option B) → Option B
none >>= f = none
some a >>= f = f a

abbrev t_void : ℕ
t_void = 0

-- The new variable: type `TVoid`, a zero value, its size `sizeof(CexpValU)`.
abbrev pub new_var : List ℕ → Var
new_var t = record { name = t; type = t_void; value = 0; size = 8; flags = 0 }

-- The name is interned unless it is already, under the second lock.
pub intern : List ℕ → Store → Option (List ℕ × Store)
unfolding lhr_find add_str
intern name st =
    let found = str_find name st.strs in
    elim (found.1) [
      | some t ↦ some (t, unlock (lock st))
      | none ↦ do st' ← add_str (found.0) name (lock st); some (name, unlock st')
    ]

-- What a lookup hands out: the parser's last result, a variable of the list, or the null pointer.
pub data Found : Type 0 where
  last_result : Found
  var : Var → Found
  nothing : Found

-- "ans"
abbrev pub last_result_name : List ℕ
last_result_name = b'a' ∷ b'n' ∷ b's' ∷ []

-- `cexpVarLookup`. `n_ok` and `s_ok` say whether the two `calloc` calls succeed.
unfoldable pub var_lookup : Bool → Bool → List ℕ → Bool → Store → Option (Found × Store)
unfolding lhr_find add_var insert_at
var_lookup n_ok s_ok name creat st =
    let found = find_var name st.vars in
    if str_eq name last_result_name then some (last_result, st) else elim (found.1) [
      | some v ↦ some (var v, unlock (lock st))
      | none ↦
          if creat && (n_ok && s_ok)
          then (do
            (t, st') ← intern name (lock st)
            st'' ← add_var (found.0) (new_var t) st'
            some (var (new_var t), unlock st''))
          else some (nothing, unlock (lock st))
    ]

-- `cexpStrLookup`: `s_ok` says whether `malloc` succeeds.
unfoldable pub str_lookup : Bool → List ℕ → Bool → Store → Option (Option (List ℕ) × Store)
unfolding lhr_find add_str insert_at
str_lookup s_ok name creat st =
    let found = str_find name st.strs in
    elim (found.1) [
      | some t ↦ some (some t, unlock (lock st))
      | none ↦
          if creat && s_ok
          then (do st' ← add_str (found.0) name (lock st); some (some name, unlock st'))
          else some (none, unlock (lock st))
    ]

-- `cexpVarDelete`; `true` is its nonzero result.
unfoldable pub var_delete : List ℕ → Store → Bool × Store
unfolding lhr_find remove_at
var_delete name st =
    let found = find_var name st.vars in
    elim (found.1) [
      | some v ↦ (true, unlock (record (lock st) { vars = remove_at (found.0) st.vars }))
      | none ↦ (false, unlock (lock st))
    ]

-- `cexpVarsFlush`.
unfoldable pub vars_flush : Store → Store
vars_flush st = unlock (record (lock st) { vars = [] })

-- The loop of `cexpVarWalk`: the first nonzero answer of the walker ends it.
walk_loop : (Var → ℕ) → List Var → ℕ
walk_loop walker [] = 0
walk_loop walker (v ∷ vs) =
    let rest = walk_loop walker vs in if walker v == 0 then rest else walker v

-- `cexpVarWalk` with a walker that leaves the store alone: `walking` is raised for its time.
unfoldable pub var_walk : (Var → ℕ) → Store → ℕ × Store
unfolding walk_loop
var_walk walker st =
    let raised = record (lock st) { walking = st.walking + 1 } in
    (walk_loop walker raised.vars, unlock (record raised { walking = raised.walking - 1 }))
