-- ===== src/Vars/Laws.antt =====
-- The operations of vars.c as operations on a finite map from names to variables, and what they keep.
use rtems_hzb_cexpsh.Base.{
  ℕ, ◌≡◌, refl, Bool, true, false, Option, none, some, List, str_eq, strcmp-eq, if◌then◌else◌,
  arith, Option-cases, inl, inr, ◌≢◌, sym, ◌∙◌, ◌↔◌,
}
use rtems_hzb_cexpsh.Vars.{
  Store, Var, var, nothing, insert_at, remove_at, intern, add_str, add_var, var_lookup, str_lookup,
  var_delete, new_var, last_result_name, find_var, str_find, lock, unlock,
}
use rtems_hzb_cexpsh.Vars.Order.{
  Ascending, assoc, lhr_find-assoc, insert_at-Ascending, remove_at-Ascending, assoc-insert_at,
  assoc-remove_at, assoc-key,
}

abbrev pub var_name : Var → List ℕ
var_name v = v.name

abbrev pub itself : List ℕ → List ℕ
itself s = s

-- The variable of that name, and whether a string is interned, by a plain search.
abbrev pub var_at : List ℕ → Store → Option Var
var_at name st = assoc var_name name st.vars

abbrev pub str_at : List ℕ → Store → Option (List ℕ)
str_at s st = assoc itself s st.strs

-- Both lists are strictly ascending (so no name occurs twice), and nobody holds the lock or walks.
pub record IsValid (st : Store) : Type 0 where
  pub vars_ascend : Ascending var_name st.vars
  pub strs_ascend : Ascending itself st.strs
  pub idle : st.walking ≡ 0

find_var-at : (name : List ℕ) (st : Store) → IsValid st → (find_var name st.vars).1 ≡ var_at name st
find_var-at name st v = lhr_find-assoc var_name name st.vars v.vars_ascend

str_find-at : (s : List ℕ) (st : Store) → IsValid st → (str_find s st.strs).1 ≡ str_at s st
str_find-at s st v = lhr_find-assoc itself s st.strs v.strs_ascend

-- The store in which a string, or a variable, was put where the search ended.
abbrev with_str : List ℕ → Store → Store
with_str s st =
    unlock (unlock (record (lock (lock st)) { strs = insert_at (str_find s st.strs).0 s st.strs }))

-- The search ended in `st`; the string table may have changed since, in `st'`.
abbrev with_var : List ℕ → Store → Store → Store
with_var name st st' = unlock (
    unlock
      (record (lock st') { vars = insert_at (find_var name st.vars).0 (new_var name) st'.vars }))

-- What interning a string does: the string is there afterwards and nothing else is new.
abbrev pub Interned : List ℕ → Store → Store → Type 0
Interned s st st' =
    IsValid st'
    × ((t : List ℕ) → str_at t st' ≡ (if str_eq s t then some s else str_at t st))
    × (st'.vars ≡ st.vars)

str_at_same :
    (s t : List ℕ) (st : Store)
    → str_at s st ≡ some s
    → str_at t st ≡ (if str_eq s t then some s else str_at t st)
str_at_same s t st h = ground (arith, strcmp-eq s t)

str_found :
    (s t : List ℕ) (st : Store)
    → IsValid st
    → (str_find s st.strs).1 ≡ some t
    → (t ≡ s) × (str_at s st ≡ some s)
str_found s t st v e = ground (arith, str_find-at s st v, assoc-key itself s t st.strs)

unlocked-Interned :
    (s : List ℕ) (st : Store) → IsValid st → str_at s st ≡ some s → Interned s st (unlock (lock st))
unlocked-Interned s st v h = (
  record { vars_ascend = v.vars_ascend; strs_ascend = v.strs_ascend; idle = v.idle },
  λ t. str_at_same s t st h,
  refl,
)

with_str-Interned :
    (s : List ℕ) (st : Store)
    → IsValid st
    → (str_find s st.strs).1 ≡ none
    → Interned s st (with_str s st)
with_str-Interned s st v e = (
  record {
    vars_ascend = v.vars_ascend;
    strs_ascend = insert_at-Ascending itself s st.strs v.strs_ascend e;
    idle = v.idle;
  },
  λ t. assoc-insert_at itself s t st.strs e,
  refl,
)

intern-Interned :
    (s : List ℕ) (st : Store)
    → IsValid st
    → (st' : Store) × (intern s st ≡ some (s, st')) × Interned s st st' × (st'.depth ≡ st.depth)
unfolding intern add_str
intern-Interned s st v = elim (Option-cases (str_find s st.strs).1) [
  | inr (t, e) ↦ (
    unlock (lock st),
    ground (arith, str_found s t st v e),
    unlocked-Interned s st v (str_found s t st v e).1,
    omega arith,
  )
  | inl e ↦ (with_str s st, ground arith, with_str-Interned s st v e, omega arith)
]

-- `cexpStrLookup` that creates, on a store that is valid, with memory at hand: it returns the string,
-- which is interned afterwards; every other string is interned as before, no variable changes, the
-- lock is given back, and the store stays valid. So a string is never stored twice.
pub str_lookup-Interned :
    (s : List ℕ) (st : Store)
    → IsValid st
    → (st' : Store) × (str_lookup true s true st ≡ some (some s, st'))
      × Interned s st st'
      × (st'.depth ≡ st.depth)
unfolding str_lookup add_str
str_lookup-Interned s st v = elim (Option-cases (str_find s st.strs).1) [
  | inr (t, e) ↦ (
    unlock (lock st),
    ground (arith, str_found s t st v e),
    unlocked-Interned s st v (str_found s t st v e).1,
    omega arith,
  )
  | inl e ↦ (with_str s st, ground arith, with_str-Interned s st v e, omega arith)
]

-- The variable that a creating lookup hands out: the one there, or a new one of that name.
abbrev pub var_or_new : List ℕ → Store → Var
var_or_new name st = elim (var_at name st) [ some v ↦ v | none ↦ new_var name ]

-- What a creating lookup does to the variables.
abbrev pub Created : List ℕ → Store → Store → Type 0
Created name st st' =
    IsValid st'
    × ((j : List ℕ)
        → var_at j st' ≡ (if str_eq name j then some (var_or_new name st) else var_at j st))

var_at_same :
    (name j : List ℕ) (st : Store) (v : Var)
    → var_at name st ≡ some v
    → var_at j st ≡ (if str_eq name j then some (var_or_new name st) else var_at j st)
var_at_same name j st v h = ground (arith, strcmp-eq name j)

with_var-Created :
    (name : List ℕ) (st st' : Store)
    → IsValid st
    → IsValid st'
    → st'.vars ≡ st.vars
    → (find_var name st.vars).1 ≡ none
    → Created name st (with_var name st st')
with_var-Created name st st' v v' same e = (
  record {
    vars_ascend = rw same (insert_at-Ascending var_name (new_var name) st.vars v.vars_ascend e);
    strs_ascend = v'.strs_ascend;
    idle = v'.idle;
  },
  λ j. ground (arith, assoc-insert_at var_name (new_var name) j st.vars, find_var-at name st v),
)

unlocked-Created :
    (name : List ℕ) (st : Store) (w : Var)
    → IsValid st
    → var_at name st ≡ some w
    → Created name st (unlock (lock st))
unlocked-Created name st w v h = (
  record { vars_ascend = v.vars_ascend; strs_ascend = v.strs_ascend; idle = v.idle },
  λ j. var_at_same name j st w h,
)

-- `cexpVarLookup` that creates, on a valid store, with memory at hand and a name other than that of
-- the last result: it hands out the variable of that name, a new one if there was none, and this is
-- found under the name afterwards; every other name finds what it found before, the lock is given
-- back, and the store stays valid.
pub var_lookup-Created :
    (name : List ℕ) (st : Store)
    → IsValid st
    → str_eq name last_result_name ≡ false
    → (st' : Store) × (var_lookup true true name true st ≡ some (var (var_or_new name st), st'))
      × Created name st st'
      × (st'.depth ≡ st.depth)
unfolding var_lookup add_var
var_lookup-Created name st v other = elim (Option-cases (find_var name st.vars).1) [
  | inr (w, e) ↦ (
    unlock (lock st),
    ground (arith, find_var-at name st v),
    unlocked-Created name st w v (sym (find_var-at name st v) ∙ e),
    omega arith,
  )
  | inl e ↦
      let locked : IsValid (lock st) = record {
        vars_ascend = v.vars_ascend;
        strs_ascend = v.strs_ascend;
        idle = v.idle;
      } in
      let (st', found, kept, deep) = intern-Interned name (lock st) locked in
      (
        with_var name st st',
        ground (arith, find_var-at name st v, found, kept.0.idle),
        with_var-Created name st st' v kept.0 kept.2 e,
        omega (arith, deep),
      )
]

-- `cexpVarLookup` that does not create, with a name other than that of the last result: it hands out
-- the variable of that name or the null pointer, and the store is as before.
pub var_lookup_only :
    (name : List ℕ) (st : Store)
    → IsValid st
    → str_eq name last_result_name ≡ false
    → (st' : Store) × (var_lookup true true name false st
        ≡ some (elim (var_at name st) [ some v ↦ var v | none ↦ nothing ], st'))
      × (st'.vars ≡ st.vars)
      × (st'.strs ≡ st.strs)
      × (st'.depth ≡ st.depth)
unfolding var_lookup
var_lookup_only name st v other =
    (unlock (lock st), ground (arith, find_var-at name st v), refl, refl, omega arith)

-- What a deletion answers and leaves behind.
abbrev pub Deleted : List ℕ → Store → Bool × Store → Type 0
Deleted name st (answer, st') =
    ((answer ≡ true) ↔ (var_at name st ≢ none))
    × IsValid st'
    × ((j : List ℕ) → var_at j st' ≡ (if str_eq name j then none else var_at j st))
    × (st'.strs ≡ st.strs)
    × (st'.depth ≡ st.depth)

-- `cexpVarDelete` on a valid store: the answer is nonzero exactly if there was such a variable; after
-- it the name finds nothing, every other name finds what it found before, no string is given up,
-- the lock is given back, and the store stays valid.
pub var_delete-Deleted :
    (name : List ℕ) (st : Store) → IsValid st → Deleted name st (var_delete name st)
unfolding var_delete
var_delete-Deleted name st v = elim (Option-cases (find_var name st.vars).1) [
  | inr (w, e) ↦
      let step : var_delete name st ≡ (
        true,
        unlock (record (lock st) { vars = remove_at (find_var name st.vars).0 st.vars }),
      ) =
        ground arith in
      rw step (
        ground (arith, find_var-at name st v),
        record {
          vars_ascend =
              remove_at-Ascending var_name (find_var name st.vars).0 st.vars v.vars_ascend;
          strs_ascend = v.strs_ascend;
          idle = v.idle;
        },
        (λ j. assoc-remove_at var_name name j w st.vars v.vars_ascend e),
        refl,
        omega arith,
      )
  | inl e ↦
      let step : var_delete name st ≡ (false, unlock (lock st)) = ground arith in
      rw step (
        ground (arith, find_var-at name st v),
        record { vars_ascend = v.vars_ascend; strs_ascend = v.strs_ascend; idle = v.idle },
        (λ j. ground (arith, find_var-at name st v, strcmp-eq name j)),
        refl,
        omega arith,
      )
]

-- While a walk is under way, a lookup that would have to create a variable, its name interned or not,
-- runs into the assertion.
pub var_lookup-walking :
    (name : List ℕ) (st : Store)
    → st.walking ≢ 0
    → str_eq name last_result_name ≡ false
    → (find_var name st.vars).1 ≡ none
    → var_lookup true true name true st ≡ none
unfolding var_lookup add_var intern add_str
var_lookup-walking name st w other e = ground arith
