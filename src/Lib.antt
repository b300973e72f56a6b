-- ===== src/Lib.antt =====
-- Cexp, a command line interpreter for RTEMS with a loader of object modules, as far as it is modelled
-- here: the variables of the user, the symbol tables, the memory segments of modules, the list of
-- loaded modules, the part of the ELF access library that reads, writes and relocates, the typed values
-- of the interpreter, the lock for readers and a writer of the list of modules, the part of the
-- linker that places sections and resolves symbols, and the attributes by which it compares ABIs.
--
-- How the parts interact: a module (cexpmod.c) owns a symbol table (cexpsyms.c) and memory segments
-- (cexpsegs.c); loading reads an object file, which fills these in, relocates its contents (pmbfd/) and
-- notes which other modules it needs; a search for a name or an address goes through the tables of all
-- modules in the order of the list. The interpreter looks up a name in the modules and then among the
-- variables (vars.c); what it computes with what it finds are typed values (ctyps.c).
--
-- Which file models what:
--   Base       shared names, Boolean tests, lists measured by native numbers, C strings and strcmp
--   Vars       vars.c: lhrFindN_LOCK, lhrAdd, cexpVarLookup, cexpStrLookup, cexpVarDelete,
--              cexpVarsFlush, cexpVarWalk; a list is kept from its head's successor on
--   Syms       cexpsyms.c: _cexp_namecomp, cexpSymTblLookup, _cexpSymTblLookupRegex,
--              cexpSymTblLkAddrIdx; Syms/Build has cexpSortSymTbl, cexpAddSymTbl, cexpIndexSymTbl
--   Segs       cexpsegs.c, cexpsegs-dflt.c, cexpsegs-powerpc-rtems.c
--   Modules    cexpmod.c: Bitmap and Record the data of cexpmodP.h, Ids idAlloc, Load cexpModuleLoad,
--              Unload cexpModuleUnload, Lookup the searches, Addresses cexpSymLkAddrRange with Nearest
--              and Above the theorems on it; Deps, Linking, System and Loading the
--              dependencies and the whole state
--   Elf        pmbfd/: Reloc bfd-reloc-powerpc.c, Leb128 guleb128.c, Stream mstrm.c, Swap the byte
--              swaps of pmelfP.h, Symbol and Symbol64 getsym.c and putsym.c, Section and Section64
--              getshdr.c and putshdr.c
--   Types      ctyps.h and ctyps.c: casts, cexpTypePromote, cexpTypeGuessFromSize; Types/Ops the
--              operators, Cells cexpTVAssign, cexpTA2TV, cexpTVPtr, cexpTVPtrDeref, Call cexpTVFnCall
--              with the kinds of arguments of gentab.c; Casting, Arithmetic, Bytes, Pointers and
--              Calling have the theorems
--   Lock       cexplock.h: cexpReadLock, cexpReadUnlock, cexpWriteLock, cexpWriteUnlock; Threads the
--              threads that use it, Effect what each operation leaves, Exclusion and Wakeup theorems
--   Attr       pmbfd/attrP.h: Parse attpbfasread.c, Sets attset.c and pmelf_getword, Match
--              att-gnu-powerpc.c and attpbfasmatch.c; Kept what reading does to a table, Written the
--              bytes it reads, Turn one attribute of them, Insertion the list of a table; Verdict,
--              Symmetry, Holds, Within and Endless have the theorems
--   Link       bfdstuff.c: s_count and s_setvma, Counting and Layout with the theorems on them;
--              Link/Resolve resolve_syms, Cases and Resolved with its theorems,
--              Commons make_new_commons; Groups s_eliminate_linkonce and the groups of pmbfd/bfd.c, with
--              Discard and Rings for the theorems; Ctors isCtorDtor, ctor_cmp and buildCtorsDtors,
--              Order theirs, InsertionSort a qsort for their runs;
--              Relocs s_reloc, Relocated where it writes, Rounds and Bound to what it binds symbols
--
-- State is passed on explicitly. A null pointer is 0 or `none`, an address is a number, a 32-bit
-- variable a number below 2 ^ 32. The log in the state of Modules lists what others can see while a
-- module is loaded or unloaded: the calls of its routines, and memory that is wiped, freed or read.
-- The lock of vars.c is a count; cexpmod.c's calls of its lock are left out, so each operation there is
-- one step, and the lock itself is modelled in Lock.
--
-- Parameters: the C heap and the RTEMS regions (Memory in Segs), `qsort` (Sort in Syms/Build, Qsort in
-- Link/Ctors, which is given the comparator), the match of the pattern of constructors, the
-- reader of object files (Loader in Modules/Load, with the contract that cexpmodP.h states for
-- cexpLoadFile), the answer of a module's finalizer, compiled regular expressions, the callbacks of
-- cexpAddSymTbl, floating point (Fpu in Types), the call of a function, the semaphores of the system
-- (Kernel in Lock). `bsearch` is the search that the C standard describes.
--
-- Fuel: reading attributes gets one turn more than there are attributes to read, but for the loop that
-- never ends, which is shown to use up any fuel; `bsearch` and the search by address get more fuel than
-- the range is wide and halve it each time; `idAlloc` gets 256 rounds, after which the search has come
-- round; the encoder that the LEB128 decoder is compared with gets one round more than the number;
-- `elf_get_align_pwr` gets 32 rounds, as many as an alignment of 2 ^ 31 needs, and does not end with a
-- larger one; the walk round a group gets two more rounds than it has members. The theorems on them show
-- a result for this fuel.
--
-- What C leaves undefined has no result: a shift by the width of a word in the LEB128 decoder, as an input
-- that ends too early, and a write outside the array of attributes, as an outcome of its own.
--
-- Not modelled: the rest of bfdstuff.c (its own symbol table, cexpLoadFile as a whole) and elfsyms.c,
-- both behind the interface above, the printing and freeing of attributes, the parser and its
-- terminal, the call of ctyps.c that fills the registers of a PowerPC, the dumping and help routines,
-- the host tools and the glue to RTEMS, libtecla and the disassembler.
pub mod Attr
pub mod Base
pub mod Vars
pub mod Syms
pub mod Segs
pub mod Modules
pub mod Elf
pub mod Types
pub mod Lock
pub mod Link
