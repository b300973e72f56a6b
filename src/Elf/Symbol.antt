-- ===== src/Elf/Symbol.antt =====
-- pmbfd/getsym.c and pmbfd/putsym.c: symbols of a 32-bit file.
use rtems_hzb_cexpsh.Base.{
  ℕ, ◌+◌, ◌^◌, ◌<◌, ◌≡◌, refl, Bool, true, false, not, Option, some, none, List, [], ◌∷◌, ◌++◌,
  length, if◌then◌else◌, arith, ap, sym, subst, ◌∙◌,
}
use rtems_hzb_cexpsh.Elf.Stream.{MemStream, mrd, Out, write, some_eq, reads}
use rtems_hzb_cexpsh.Elf.Swap.{
  elf_swab, elf_swah, byte_at, half_at, word_at, put_half, put_word, put_half-swab, put_word-swah,
  AreBytes, swab-half_at, swah-word_at, cons-AreBytes, put_half-AreBytes, put_word-AreBytes,
  differs,
}

-- `Elf32_Sym`
pub record Sym32 : Type 0 where
  pub st_name : ℕ
  pub st_value : ℕ
  pub st_size : ℕ
  pub st_info : ℕ
  pub st_other : ℕ
  pub st_shndx : ℕ

-- The fields hold numbers of their widths.
pub record IsSym32 (s : Sym32) : Type 0 where
  pub st_name_small : s.st_name < 2 ^ 32
  pub st_value_small : s.st_value < 2 ^ 32
  pub st_size_small : s.st_size < 2 ^ 32
  pub st_info_small : s.st_info < 2 ^ 8
  pub st_other_small : s.st_other < 2 ^ 8
  pub st_shndx_small : s.st_shndx < 2 ^ 16

-- The swaps of each field, in a copy.
abbrev pub swap_sym32 : Sym32 → Sym32
swap_sym32 s = record s {
  st_name = elf_swah s.st_name;
  st_value = elf_swah s.st_value;
  st_size = elf_swah s.st_size;
  st_shndx = elf_swab s.st_shndx;
}

-- The structure in memory, as it is copied from and to a stream.
unfoldable pub store_sym32 : Bool → Sym32 → List ℕ → List ℕ
store_sym32 lsb s rest = put_word lsb s.st_name (
    put_word lsb s.st_value
      (put_word lsb s.st_size (s.st_info ∷ s.st_other ∷ put_half lsb s.st_shndx rest)))

unfoldable pub load_sym32 : Bool → List ℕ → Sym32
load_sym32 lsb bs = record {
  st_name = word_at lsb bs 0;
  st_value = word_at lsb bs 4;
  st_size = word_at lsb bs 8;
  st_info = byte_at bs 12;
  st_other = byte_at bs 13;
  st_shndx = half_at lsb bs 14;
}

-- `pmelf_getsym32`
unfoldable pub getsym32 : Bool → Bool → MemStream → Option (Sym32 × MemStream)
unfolding load_sym32
getsym32 lsb needswap s = elim (mrd 16 1 s) [
  | none ↦ none
  | some (bs, s') ↦ let x = load_sym32 lsb bs in some (if needswap then swap_sym32 x else x, s')
]

-- `pmelf_putsym32`
unfoldable pub putsym32 : Bool → Bool → Out → Sym32 → Bool × Out
unfolding store_sym32
putsym32 lsb needswap out x =
    let x' = if needswap then swap_sym32 x else x in write (store_sym32 lsb x' []) out

load_sym32-store_sym32 :
    (file : Bool) (s : Sym32) (rest : List ℕ)
    → IsSym32 s
    → load_sym32 file (store_sym32 file s rest) ≡ s
unfolding load_sym32 store_sym32 half_at word_at put_half put_word
load_sym32-store_sym32 true s rest v = ground arith
load_sym32-store_sym32 false s rest v = ground arith

store_sym32-swap :
    (lsb : Bool) (s : Sym32) (rest : List ℕ)
    → IsSym32 s
    → store_sym32 lsb (swap_sym32 s) rest ≡ store_sym32 (not lsb) s rest
unfolding store_sym32
store_sym32-swap lsb s rest v =
    rw
      (
        put_half-swab lsb s.st_shndx rest v.st_shndx_small,
        put_word-swah lsb s.st_size (s.st_info ∷ s.st_other ∷ put_half (not lsb) s.st_shndx rest)
            v.st_size_small,
        put_word-swah lsb s.st_value
            (put_word (not lsb) s.st_size
              (s.st_info ∷ s.st_other ∷ put_half (not lsb) s.st_shndx rest))
            v.st_value_small,
        put_word-swah lsb s.st_name
            (put_word (not lsb) s.st_value (
              put_word (not lsb) s.st_size
                (s.st_info ∷ s.st_other ∷ put_half (not lsb) s.st_shndx rest)))
            v.st_name_small,
      )
      refl

swap-load_sym32 :
    (lsb : Bool) (bs : List ℕ)
    → AreBytes bs
    → swap_sym32 (load_sym32 lsb bs) ≡ load_sym32 (not lsb) bs
unfolding load_sym32
swap-load_sym32 lsb bs h =
    rw
      (
        swah-word_at lsb bs 0 h,
        swah-word_at lsb bs 4 h,
        swah-word_at lsb bs 8 h,
        swab-half_at lsb bs 14 h,
      )
      refl

store_sym32-AreBytes :
    (lsb : Bool) (s : Sym32) (rest : List ℕ)
    → IsSym32 s
    → AreBytes rest
    → AreBytes (store_sym32 lsb s rest)
unfolding store_sym32
store_sym32-AreBytes lsb s rest v r = put_word-AreBytes lsb _ _ v.st_name_small (
    put_word-AreBytes lsb _ _ v.st_value_small (
      put_word-AreBytes lsb _ _ v.st_size_small (
        cons-AreBytes _ _ v.st_info_small
          (cons-AreBytes _ _ v.st_other_small (put_half-AreBytes lsb _ _ v.st_shndx_small r)))))

length-store_sym32 :
    (lsb : Bool) (s : Sym32) (rest : List ℕ) → length (store_sym32 lsb s rest) ≡ 16 + length rest
unfolding store_sym32 put_half put_word
length-store_sym32 true s rest = omega arith
length-store_sym32 false s rest = omega arith

-- The bytes behind the structure are as they were.
store_sym32-append :
    (lsb : Bool) (s : Sym32) (rest : List ℕ) → store_sym32 lsb s [] ++ rest ≡ store_sym32 lsb s rest
unfolding store_sym32 put_half put_word
store_sym32-append true s rest = refl
store_sym32-append false s rest = refl

-- Whatever the order of the processor, the bytes written are in the order of the file.
putsym32-file :
    (lsb file : Bool) (out : List ℕ) (s : Sym32)
    → IsSym32 s
    → putsym32 lsb (differs lsb file) (some out) s ≡ (true, some (out ++ store_sym32 file s []))
unfolding putsym32
putsym32-file true true out s v = refl
putsym32-file true false out s v = rw (store_sym32-swap true s [] v) refl
putsym32-file false true out s v = rw (store_sym32-swap false s [] v) refl
putsym32-file false false out s v = refl

-- And what is read is what the bytes say in the order of the file.
getsym32-file :
    (lsb file : Bool) (s s' : MemStream) (bs : List ℕ)
    → mrd 16 1 s ≡ some (bs, s')
    → AreBytes bs
    → getsym32 lsb (differs lsb file) s ≡ some (load_sym32 file bs, s')
unfolding getsym32
getsym32-file true true s s' bs e h = rw (e, getsym32) refl
getsym32-file true false s s' bs e h = rw (e, getsym32, swap-load_sym32 true bs h) refl
getsym32-file false true s s' bs e h = rw (e, getsym32, swap-load_sym32 false bs h) refl
getsym32-file false false s s' bs e h = rw (e, getsym32) refl

-- A structure that one processor writes to a stream, behind what the stream holds, is read back by
-- another one at that place, whatever the byte orders of the two, if each takes that of the file into
-- account; the reader is then behind the structure.
pub getsym32-putsym32 :
    (a b file : Bool) (before after written : List ℕ) (x : Sym32)
    → IsSym32 x
    → AreBytes after
    → putsym32 a (differs a file) (some before) x ≡ (true, some written)
    → getsym32 b (differs b file) (record { buf = written ++ after; pos = length before })
      ≡ some (x, record { buf = written ++ after; pos = length before + 16 })
getsym32-putsym32 a b file before after written x v r put =
    let e : before ++ store_sym32 file x [] ≡ written =
      some_eq (ap (λ (p : Bool × Out). p.1) (sym (putsym32-file a file before x v) ∙ put)) in
    subst
      (λ w.
        getsym32 b (differs b file) (record { buf = w ++ after; pos = length before })
        ≡ some (x, record { buf = w ++ after; pos = length before + 16 }))
      e
      (getsym32-file b file _ _ (store_sym32 file x after)
          (reads before (store_sym32 file x []) after 16 (length-store_sym32 file x [])
            ∙ ap
                (λ w. some (
                  w,
                  record {
                    buf = (before ++ store_sym32 file x []) ++ after;
                    pos = length before + 16;
                  },
                ))
                (store_sym32-append file x after))
          (store_sym32-AreBytes file x after v r)
        ∙ ap
            (λ y. some (
              y,
              record { buf = (before ++ store_sym32 file x []) ++ after; pos = length before + 16 },
            ))
            (load_sym32-store_sym32 file x after v))
