-- ===== src/Elf/Section64.antt =====
-- pmbfd/getshdr.c and pmbfd/putshdr.c: section headers of a 64-bit file.
use rtems_hzb_cexpsh.Base.{
  ℕ, ◌+◌, ◌^◌, ◌<◌, ◌≡◌, refl, Bool, true, false, not, Option, some, none, List, [], ◌++◌, length,
  if◌then◌else◌, arith, ap, sym, subst, ◌∙◌,
}
use rtems_hzb_cexpsh.Elf.Stream.{MemStream, mrd, Out, write, some_eq, reads}
use rtems_hzb_cexpsh.Elf.Swap.{
  elf_swah, elf_swap64, half_at, word_at, xword_at, put_half, put_word, put_xword, put_word-swah,
  put_xword-swap64, AreBytes, swah-word_at, swap64-xword_at, put_word-AreBytes, put_xword-AreBytes,
  differs,
}

-- `Elf64_Shdr`
pub record Shdr64 : Type 0 where
  pub sh_name : ℕ
  pub sh_type : ℕ
  pub sh_flags : ℕ
  pub sh_addr : ℕ
  pub sh_offset : ℕ
  pub sh_size : ℕ
  pub sh_link : ℕ
  pub sh_info : ℕ
  pub sh_addralign : ℕ
  pub sh_entsize : ℕ

-- The fields hold numbers of their widths.
pub record IsShdr64 (s : Shdr64) : Type 0 where
  pub sh_name_small : s.sh_name < 2 ^ 32
  pub sh_type_small : s.sh_type < 2 ^ 32
  pub sh_flags_small : s.sh_flags < 2 ^ 64
  pub sh_addr_small : s.sh_addr < 2 ^ 64
  pub sh_offset_small : s.sh_offset < 2 ^ 64
  pub sh_size_small : s.sh_size < 2 ^ 64
  pub sh_link_small : s.sh_link < 2 ^ 32
  pub sh_info_small : s.sh_info < 2 ^ 32
  pub sh_addralign_small : s.sh_addralign < 2 ^ 64
  pub sh_entsize_small : s.sh_entsize < 2 ^ 64

-- The swaps of each field, in a copy.
abbrev pub swap_shdr64 : Shdr64 → Shdr64
swap_shdr64 s = record s {
  sh_name = elf_swah s.sh_name;
  sh_type = elf_swah s.sh_type;
  sh_flags = elf_swap64 s.sh_flags;
  sh_addr = elf_swap64 s.sh_addr;
  sh_offset = elf_swap64 s.sh_offset;
  sh_size = elf_swap64 s.sh_size;
  sh_link = elf_swah s.sh_link;
  sh_info = elf_swah s.sh_info;
  sh_addralign = elf_swap64 s.sh_addralign;
  sh_entsize = elf_swap64 s.sh_entsize;
}

-- The structure in memory, as it is copied from and to a stream.
unfoldable pub store_shdr64 : Bool → Shdr64 → List ℕ → List ℕ
store_shdr64 lsb s rest = put_word lsb s.sh_name (
    put_word lsb s.sh_type (
      put_xword lsb s.sh_flags (
        put_xword lsb s.sh_addr (
          put_xword lsb s.sh_offset (
            put_xword lsb s.sh_size (
              put_word lsb s.sh_link (
                put_word lsb s.sh_info
                  (put_xword lsb s.sh_addralign (put_xword lsb s.sh_entsize rest)))))))))

unfoldable pub load_shdr64 : Bool → List ℕ → Shdr64
load_shdr64 lsb bs = record {
  sh_name = word_at lsb bs 0;
  sh_type = word_at lsb bs 4;
  sh_flags = xword_at lsb bs 8;
  sh_addr = xword_at lsb bs 16;
  sh_offset = xword_at lsb bs 24;
  sh_size = xword_at lsb bs 32;
  sh_link = word_at lsb bs 40;
  sh_info = word_at lsb bs 44;
  sh_addralign = xword_at lsb bs 48;
  sh_entsize = xword_at lsb bs 56;
}

-- `pmelf_getshdr64`
unfoldable pub getshdr64 : Bool → Bool → MemStream → Option (Shdr64 × MemStream)
unfolding load_shdr64
getshdr64 lsb needswap s = elim (mrd 64 1 s) [
  | none ↦ none
  | some (bs, s') ↦ let x = load_shdr64 lsb bs in some (if needswap then swap_shdr64 x else x, s')
]

-- `pmelf_putshdr64`
unfoldable pub putshdr64 : Bool → Bool → Out → Shdr64 → Bool × Out
unfolding store_shdr64
putshdr64 lsb needswap out x =
    let x' = if needswap then swap_shdr64 x else x in write (store_shdr64 lsb x' []) out

load_shdr64-store_shdr64 :
    (file : Bool) (s : Shdr64) (rest : List ℕ)
    → IsShdr64 s
    → load_shdr64 file (store_shdr64 file s rest) ≡ s
unfolding load_shdr64 store_shdr64 word_at xword_at half_at put_word put_xword put_half
load_shdr64-store_shdr64 true s rest v = ground arith
load_shdr64-store_shdr64 false s rest v = ground arith

store_shdr64-swap :
    (lsb : Bool) (s : Shdr64) (rest : List ℕ)
    → IsShdr64 s
    → store_shdr64 lsb (swap_shdr64 s) rest ≡ store_shdr64 (not lsb) s rest
unfolding store_shdr64
store_shdr64-swap lsb s rest v =
    rw
      (
        put_xword-swap64 lsb s.sh_entsize rest v.sh_entsize_small,
        put_xword-swap64 lsb s.sh_addralign (put_xword (not lsb) s.sh_entsize rest)
            v.sh_addralign_small,
        put_word-swah lsb s.sh_info
            (put_xword (not lsb) s.sh_addralign (put_xword (not lsb) s.sh_entsize rest))
            v.sh_info_small,
        put_word-swah lsb s.sh_link
            (put_word (not lsb) s.sh_info
              (put_xword (not lsb) s.sh_addralign (put_xword (not lsb) s.sh_entsize rest)))
            v.sh_link_small,
        put_xword-swap64 lsb s.sh_size
            (put_word (not lsb) s.sh_link (
              put_word (not lsb) s.sh_info
                (put_xword (not lsb) s.sh_addralign (put_xword (not lsb) s.sh_entsize rest))))
            v.sh_size_small,
        put_xword-swap64 lsb s.sh_offset
            (put_xword (not lsb) s.sh_size (
              put_word (not lsb) s.sh_link (
                put_word (not lsb) s.sh_info
                  (put_xword (not lsb) s.sh_addralign (put_xword (not lsb) s.sh_entsize rest)))))
            v.sh_offset_small,
        put_xword-swap64 lsb s.sh_addr
            (put_xword (not lsb) s.sh_offset (
              put_xword (not lsb) s.sh_size (
                put_word (not lsb) s.sh_link (
                  put_word (not lsb) s.sh_info
                    (put_xword (not lsb) s.sh_addralign (put_xword (not lsb) s.sh_entsize rest))))))
            v.sh_addr_small,
        put_xword-swap64 lsb s.sh_flags
            (put_xword (not lsb) s.sh_addr (
              put_xword (not lsb) s.sh_offset (
                put_xword (not lsb) s.sh_size (
                  put_word (not lsb) s.sh_link (
                    put_word (not lsb) s.sh_info (
                      put_xword (not lsb) s.sh_addralign
                        (put_xword (not lsb) s.sh_entsize rest)))))))
            v.sh_flags_small,
        put_word-swah lsb s.sh_type
            (put_xword (not lsb) s.sh_flags (
              put_xword (not lsb) s.sh_addr (
                put_xword (not lsb) s.sh_offset (
                  put_xword (not lsb) s.sh_size (
                    put_word (not lsb) s.sh_link (
                      put_word (not lsb) s.sh_info (
                        put_xword (not lsb) s.sh_addralign
                          (put_xword (not lsb) s.sh_entsize rest))))))))
            v.sh_type_small,
        put_word-swah lsb s.sh_name
            (put_word (not lsb) s.sh_type (
              put_xword (not lsb) s.sh_flags (
                put_xword (not lsb) s.sh_addr (
                  put_xword (not lsb) s.sh_offset (
                    put_xword (not lsb) s.sh_size (
                      put_word (not lsb) s.sh_link (
                        put_word (not lsb) s.sh_info (
                          put_xword (not lsb) s.sh_addralign
                            (put_xword (not lsb) s.sh_entsize rest)))))))))
            v.sh_name_small,
      )
      refl

swap-load_shdr64 :
    (lsb : Bool) (bs : List ℕ)
    → AreBytes bs
    → swap_shdr64 (load_shdr64 lsb bs) ≡ load_shdr64 (not lsb) bs
unfolding load_shdr64
swap-load_shdr64 lsb bs h =
    rw
      (
        swah-word_at lsb bs 0 h,
        swah-word_at lsb bs 4 h,
        swap64-xword_at lsb bs 8 h,
        swap64-xword_at lsb bs 16 h,
        swap64-xword_at lsb bs 24 h,
        swap64-xword_at lsb bs 32 h,
        swah-word_at lsb bs 40 h,
        swah-word_at lsb bs 44 h,
        swap64-xword_at lsb bs 48 h,
        swap64-xword_at lsb bs 56 h,
      )
      refl

store_shdr64-AreBytes :
    (lsb : Bool) (s : Shdr64) (rest : List ℕ)
    → IsShdr64 s
    → AreBytes rest
    → AreBytes (store_shdr64 lsb s rest)
unfolding store_shdr64
store_shdr64-AreBytes lsb s rest v r = put_word-AreBytes lsb _ _ v.sh_name_small (
    put_word-AreBytes lsb _ _ v.sh_type_small (
      put_xword-AreBytes lsb _ _ v.sh_flags_small (
        put_xword-AreBytes lsb _ _ v.sh_addr_small (
          put_xword-AreBytes lsb _ _ v.sh_offset_small (
            put_xword-AreBytes lsb _ _ v.sh_size_small (
              put_word-AreBytes lsb _ _ v.sh_link_small (
                put_word-AreBytes lsb _ _ v.sh_info_small (
                  put_xword-AreBytes lsb _ _ v.sh_addralign_small
                    (put_xword-AreBytes lsb _ _ v.sh_entsize_small r)))))))))

length-store_shdr64 :
    (lsb : Bool) (s : Shdr64) (rest : List ℕ) → length (store_shdr64 lsb s rest) ≡ 64 + length rest
unfolding store_shdr64 put_word put_xword put_half
length-store_shdr64 true s rest = omega arith
length-store_shdr64 false s rest = omega arith

-- The bytes behind the structure are as they were.
store_shdr64-append :
    (lsb : Bool) (s : Shdr64) (rest : List ℕ)
    → store_shdr64 lsb s [] ++ rest ≡ store_shdr64 lsb s rest
unfolding store_shdr64 put_word put_xword put_half
store_shdr64-append true s rest = refl
store_shdr64-append false s rest = refl

-- Whatever the order of the processor, the bytes written are in the order of the file.
putshdr64-file :
    (lsb file : Bool) (out : List ℕ) (s : Shdr64)
    → IsShdr64 s
    → putshdr64 lsb (differs lsb file) (some out) s ≡ (true, some (out ++ store_shdr64 file s []))
unfolding putshdr64
putshdr64-file true true out s v = refl
putshdr64-file true false out s v = rw (store_shdr64-swap true s [] v) refl
putshdr64-file false true out s v = rw (store_shdr64-swap false s [] v) refl
putshdr64-file false false out s v = refl

-- And what is read is what the bytes say in the order of the file.
getshdr64-file :
    (lsb file : Bool) (s s' : MemStream) (bs : List ℕ)
    → mrd 64 1 s ≡ some (bs, s')
    → AreBytes bs
    → getshdr64 lsb (differs lsb file) s ≡ some (load_shdr64 file bs, s')
unfolding getshdr64
getshdr64-file true true s s' bs e h = rw (e, getshdr64) refl
getshdr64-file true false s s' bs e h = rw (e, getshdr64, swap-load_shdr64 true bs h) refl
getshdr64-file false true s s' bs e h = rw (e, getshdr64, swap-load_shdr64 false bs h) refl
getshdr64-file false false s s' bs e h = rw (e, getshdr64) refl

-- A structure that one processor writes to a stream, behind what the stream holds, is read back by
-- another one at that place, whatever the byte orders of the two, if each takes that of the file into
-- account; the reader is then behind the structure.
pub getshdr64-putshdr64 :
    (a b file : Bool) (before after written : List ℕ) (x : Shdr64)
    → IsShdr64 x
    → AreBytes after
    → putshdr64 a (differs a file) (some before) x ≡ (true, some written)
    → getshdr64 b (differs b file) (record { buf = written ++ after; pos = length before })
      ≡ some (x, record { buf = written ++ after; pos = length before + 64 })
getshdr64-putshdr64 a b file before after written x v r put =
    let e : before ++ store_shdr64 file x [] ≡ written =
      some_eq (ap (λ (p : Bool × Out). p.1) (sym (putshdr64-file a file before x v) ∙ put)) in
    subst
      (λ w.
        getshdr64 b (differs b file) (record { buf = w ++ after; pos = length before })
        ≡ some (x, record { buf = w ++ after; pos = length before + 64 }))
      e
      (getshdr64-file b file _ _ (store_shdr64 file x after)
          (reads before (store_shdr64 file x []) after 64 (length-store_shdr64 file x [])
            ∙ ap
                (λ w. some (
                  w,
                  record {
                    buf = (before ++ store_shdr64 file x []) ++ after;
                    pos = length before + 64;
                  },
                ))
                (store_shdr64-append file x after))
          (store_shdr64-AreBytes file x after v r)
        ∙ ap
            (λ y. some (
              y,
              record {
                buf = (before ++ store_shdr64 file x []) ++ after;
                pos = length before + 64;
              },
            ))
            (load_shdr64-store_shdr64 file x after v))
