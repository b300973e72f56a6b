-- ===== src/Modules/LookupTests.antt =====
-- Runs of the searches through all modules.
use rtems_hzb_cexpsh.Base.{ℕ, zero, suc, ◌≢◌, ◌<◌, List, [], ◌∷◌, All, arith}
use rtems_hzb_cexpsh.Syms.{Sym, no_sym, empty_tbl}
use rtems_hzb_cexpsh.Syms.Lookup.{IsNamed, name_at}
use rtems_hzb_cexpsh.Modules.Record.{Module, blank_module}
use rtems_hzb_cexpsh.Modules.Lookup.{FindsFirst, sym_lookup, sym_lookup-FindsFirst}

abbrev sym_at : ℕ → Sym
sym_at a = record no_sym { name = b'a' ∷ []; addr = a }

abbrev mod_at : ℕ → Module
mod_at a = record (blank_module a) { symtbl = record empty_tbl { syms = sym_at a ∷ [] } }

one-IsNamed : (a : ℕ) → IsNamed (sym_at a ∷ [])
one-IsNamed a = record { plain = plain; ascends = λ i j p q. absurd (omega arith) }
  where
    plain : (i : ℕ) → i < 1 → All (λ c. ◌≢◌ {A = ℕ} c 64) (name_at (sym_at a ∷ []) i)
    plain zero h = (omega arith, tt)
    plain (suc i) h = absurd (omega arith)

abbrev three : List Module
three = mod_at 1 ∷ mod_at 2 ∷ mod_at 3 ∷ []

sym_lookup-FindsFirst_example : FindsFirst (b'a' ∷ []) three (sym_lookup (b'a' ∷ []) three)
sym_lookup-FindsFirst_example =
    sym_lookup-FindsFirst (b'a' ∷ []) three (one-IsNamed 1, (one-IsNamed 2, (one-IsNamed 3, tt)))
