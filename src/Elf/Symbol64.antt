-- ===== src/Elf/Symbol64.antt =====
-- pmbfd/getsym.c and pmbfd/putsym.c: symbols of a 64-bit file.
use rtems_hzb_cexpsh.Base.{
  ℕ, ◌+◌, ◌^◌, ◌<◌, ◌≡◌, refl, Bool, true, false, not, Option, some, none, List, [], ◌∷◌, ◌++◌,
  length, if◌then◌else◌, arith, ap, sym, subst, ◌∙◌,
}
use rtems_hzb_cexpsh.Elf.Stream.{MemStream, mrd, Out, write, some_eq, reads}
use rtems_hzb_cexpsh.Elf.Swap.{
  elf_swab, elf_swah, elf_swap64, byte_at, half_at, word_at, xword_at, put_half, put_word,
  put_xword, put_half-swab, put_word-swah, put_xword-swap64, AreBytes, swab-half_at, swah-word_at,
  swap64-xword_at, cons-AreBytes, put_half-AreBytes, put_word-AreBytes, put_xword-AreBytes, differs,
}

-- `Elf64_Sym`
pub record Sym64 : Type 0 where
  pub st_name : ℕ
  pub st_info : ℕ
  pub st_other : ℕ
  pub st_shndx : ℕ
  pub st_value : ℕ
  pub st_size : ℕ

-- The fields hold numbers of their widths.
pub record IsSym64 (s : Sym64) : Type 0 where
  pub st_name_small : s.st_name < 2 ^ 32
  pub st_info_small : s.st_info < 2 ^ 8
  pub st_other_small : s.st_other < 2 ^ 8
  pub st_shndx_small : s.st_shndx < 2 ^ 16
  pub st_value_small : s.st_value < 2 ^ 64
  pub st_size_small : s.st_size < 2 ^ 64

-- The swaps of each field, in a copy.
abbrev pub swap_sym64 : Sym64 → Sym64
swap_sym64 s = record s {
  st_name = elf_swah s.st_name;
  st_shndx = elf_swab s.st_shndx;
  st_value = elf_swap64 s.st_value;
  st_size = elf_swap64 s.st_size;
}

-- The structure in memory, as it is copied from and to a stream.
unfoldable pub store_sym64 : Bool → Sym64 → List ℕ → List ℕ
store_sym64 lsb s rest = put_word lsb s.st_name (
    s.st_info
    ∷ s.st_other
    ∷ put_half lsb s.st_shndx (put_xword lsb s.st_value (put_xword lsb s.st_size rest)))

unfoldable pub load_sym64 : Bool → List ℕ → Sym64
load_sym64 lsb bs = record {
  st_name = word_at lsb bs 0;
  st_info = byte_at bs 4;
  st_other = byte_at bs 5;
  st_shndx = half_at lsb bs 6;
  st_value = xword_at lsb bs 8;
  st_size = xword_at lsb bs 16;
}

-- `pmelf_getsym64`
unfoldable pub getsym64 : Bool → Bool → MemStream → Option (Sym64 × MemStream)
unfolding load_sym64
getsym64 lsb needswap s = elim (mrd 24 1 s) [
  | none ↦ none
  | some (bs, s') ↦ let x = load_sym64 lsb bs in some (if needswap then swap_sym64 x else x, s')
]

-- `pmelf_putsym64`
unfoldable pub putsym64 : Bool → Bool → Out → Sym64 → Bool × Out
unfolding store_sym64
putsym64 lsb needswap out x =
    let x' = if needswap then swap_sym64 x else x in write (store_sym64 lsb x' []) out

load_sym64-store_sym64 :
    (file : Bool) (s : Sym64) (rest : List ℕ)
    → IsSym64 s
    → load_sym64 file (store_sym64 file s rest) ≡ s
unfolding load_sym64 store_sym64 half_at word_at xword_at put_half put_word put_xword
load_sym64-store_sym64 true s rest v = ground arith
load_sym64-store_sym64 false s rest v = ground arith

store_sym64-swap :
    (lsb : Bool) (s : Sym64) (rest : List ℕ)
    → IsSym64 s
    → store_sym64 lsb (swap_sym64 s) rest ≡ store_sym64 (not lsb) s rest
unfolding store_sym64
store_sym64-swap lsb s rest v =
    rw
      (
        put_xword-swap64 lsb s.st_size rest v.st_size_small,
        put_xword-swap64 lsb s.st_value (put_xword (not lsb) s.st_size rest) v.st_value_small,
        put_half-swab lsb s.st_shndx
            (put_xword (not lsb) s.st_value (put_xword (not lsb) s.st_size rest)) v.st_shndx_small,
        put_word-swah lsb s.st_name
            (s.st_info
              ∷ s.st_other
              ∷ put_half (not lsb) s.st_shndx
                  (put_xword (not lsb) s.st_value (put_xword (not lsb) s.st_size rest)))
            v.st_name_small,
      )
      refl

swap-load_sym64 :
    (lsb : Bool) (bs : List ℕ)
    → AreBytes bs
    → swap_sym64 (load_sym64 lsb bs) ≡ load_sym64 (not lsb) bs
unfolding load_sym64
swap-load_sym64 lsb bs h =
    rw
      (
        swah-word_at lsb bs 0 h,
        swab-half_at lsb bs 6 h,
        swap64-xword_at lsb bs 8 h,
        swap64-xword_at lsb bs 16 h,
      )
      refl

store_sym64-AreBytes :
    (lsb : Bool) (s : Sym64) (rest : List ℕ)
    → IsSym64 s
    → AreBytes rest
    → AreBytes (store_sym64 lsb s rest)
unfolding store_sym64
store_sym64-AreBytes lsb s rest v r = put_word-AreBytes lsb _ _ v.st_name_small (
    cons-AreBytes _ _ v.st_info_small (
      cons-AreBytes _ _ v.st_other_small (
        put_half-AreBytes lsb _ _ v.st_shndx_small (
          put_xword-AreBytes lsb _ _ v.st_value_small
            (put_xword-AreBytes lsb _ _ v.st_size_small r)))))

length-store_sym64 :
    (lsb : Bool) (s : Sym64) (rest : List ℕ) → length (store_sym64 lsb s rest) ≡ 24 + length rest
unfolding store_sym64 put_half put_word put_xword
length-store_sym64 true s rest = omega arith
length-store_sym64 false s rest = omega arith

-- The bytes behind the structure are as they were.
store_sym64-append :
    (lsb : Bool) (s : Sym64) (rest : List ℕ) → store_sym64 lsb s [] ++ rest ≡ store_sym64 lsb s rest
unfolding store_sym64 put_half put_word put_xword
store_sym64-append true s rest = refl
store_sym64-append false s rest = refl

-- Whatever the order of the processor, the bytes written are in the order of the file.
putsym64-file :
    (lsb file : Bool) (out : List ℕ) (s : Sym64)
    → IsSym64 s
    → putsym64 lsb (differs lsb file) (some out) s ≡ (true, some (out ++ store_sym64 file s []))
unfolding putsym64
putsym64-file true true out s v = refl
putsym64-file true false out s v = rw (store_sym64-swap true s [] v) refl
putsym64-file false true out s v = rw (store_sym64-swap false s [] v) refl
putsym64-file false false out s v = refl

-- And what is read is what the bytes say in the order of the file.
getsym64-file :
    (lsb file : Bool) (s s' : MemStream) (bs : List ℕ)
    → mrd 24 1 s ≡ some (bs, s')
    → AreBytes bs
    → getsym64 lsb (differs lsb file) s ≡ some (load_sym64 file bs, s')
unfolding getsym64
getsym64-file true true s s' bs e h = rw (e, getsym64) refl
getsym64-file true false s s' bs e h = rw (e, getsym64, swap-load_sym64 true bs h) refl
getsym64-file false true s s' bs e h = rw (e, getsym64, swap-load_sym64 false bs h) refl
getsym64-file false false s s' bs e h = rw (e, getsym64) refl

-- A structure that one processor writes to a stream, behind what the stream holds, is read back by
-- another one at that place, whatever the byte orders of the two, if each takes that of the file into
-- account; the reader is then behind the structure.
pub getsym64-putsym64 :
    (a b file : Bool) (before after written : List ℕ) (x : Sym64)
    → IsSym64 x
    → AreBytes after
    → putsym64 a (differs a file) (some before) x ≡ (true, some written)
    → getsym64 b (differs b file) (record { buf = written ++ after; pos = length before })
      ≡ some (x, record { buf = written ++ after; pos = length before + 24 })
getsym64-putsym64 a b file before after written x v r put =
    let e : before ++ store_sym64 file x [] ≡ written =
      some_eq (ap (λ (p : Bool × Out). p.1) (sym (putsym64-file a file before x v) ∙ put)) in
    subst
      (λ w.
        getsym64 b (differs b file) (record { buf = w ++ after; pos = length before })
        ≡ some (x, record { buf = w ++ after; pos = length before + 24 }))
      e
      (getsym64-file b file _ _ (store_sym64 file x after)
          (reads before (store_sym64 file x []) after 24 (length-store_sym64 file x [])
            ∙ ap
                (λ w. some (
                  w,
                  record {
                    buf = (before ++ store_sym64 file x []) ++ after;
                    pos = length before + 24;
                  },
                ))
                (store_sym64-append file x after))
          (store_sym64-AreBytes file x after v r)
        ∙ ap
            (λ y. some (
              y,
              record { buf = (before ++ store_sym64 file x []) ++ after; pos = length before + 24 },
            ))
            (load_sym64-store_sym64 file x after v))
