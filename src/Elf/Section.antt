-- ===== src/Elf/Section.antt =====
-- pmbfd/getshdr.c and pmbfd/putshdr.c: section headers of a 32-bit file.
use rtems_hzb_cexpsh.Base.{
  ℕ, ◌+◌, ◌^◌, ◌<◌, ◌≡◌, refl, Bool, true, false, not, Option, some, none, List, [], ◌++◌, length,
  if◌then◌else◌, arith, ap, sym, subst, ◌∙◌,
}
use rtems_hzb_cexpsh.Elf.Stream.{MemStream, mrd, Out, write, some_eq, reads}
use rtems_hzb_cexpsh.Elf.Swap.{
  elf_swah, half_at, word_at, put_half, put_word, put_word-swah, AreBytes, swah-word_at,
  put_word-AreBytes, differs,
}

-- `Elf32_Shdr`
pub record Shdr32 : Type 0 where
  pub sh_name : ℕ
  pub sh_type : ℕ
  pub sh_flags : ℕ
  pub sh_addr : ℕ
  pub sh_offset : ℕ
  pub sh_size : ℕ
  pub sh_link : ℕ
  pub sh_info : ℕ
  pub sh_addralign : ℕ
  pub sh_entsize : ℕ

-- The fields hold numbers of their widths.
pub record IsShdr32 (s : Shdr32) : Type 0 where
  pub sh_name_small : s.sh_name < 2 ^ 32
  pub sh_type_small : s.sh_type < 2 ^ 32
  pub sh_flags_small : s.sh_flags < 2 ^ 32
  pub sh_addr_small : s.sh_addr < 2 ^ 32
  pub sh_offset_small : s.sh_offset < 2 ^ 32
  pub sh_size_small : s.sh_size < 2 ^ 32
  pub sh_link_small : s.sh_link < 2 ^ 32
  pub sh_info_small : s.sh_info < 2 ^ 32
  pub sh_addralign_small : s.sh_addralign < 2 ^ 32
  pub sh_entsize_small : s.sh_entsize < 2 ^ 32

-- The swaps of each field, in a copy.
abbrev pub swap_shdr32 : Shdr32 → Shdr32
swap_shdr32 s = record s {
  sh_name = elf_swah s.sh_name;
  sh_type = elf_swah s.sh_type;
  sh_flags = elf_swah s.sh_flags;
  sh_addr = elf_swah s.sh_addr;
  sh_offset = elf_swah s.sh_offset;
  sh_size = elf_swah s.sh_size;
  sh_link = elf_swah s.sh_link;
  sh_info = elf_swah s.sh_info;
  sh_addralign = elf_swah s.sh_addralign;
  sh_entsize = elf_swah s.sh_entsize;
}

-- The structure in memory, as it is copied from and to a stream.
unfoldable pub store_shdr32 : Bool → Shdr32 → List ℕ → List ℕ
store_shdr32 lsb s rest = put_word lsb s.sh_name (
    put_word lsb s.sh_type (
      put_word lsb s.sh_flags (
        put_word lsb s.sh_addr (
          put_word lsb s.sh_offset (
            put_word lsb s.sh_size (
              put_word lsb s.sh_link (
                put_word lsb s.sh_info
                  (put_word lsb s.sh_addralign (put_word lsb s.sh_entsize rest)))))))))

unfoldable pub load_shdr32 : Bool → List ℕ → Shdr32
load_shdr32 lsb bs = record {
  sh_name = word_at lsb bs 0;
  sh_type = word_at lsb bs 4;
  sh_flags = word_at lsb bs 8;
  sh_addr = word_at lsb bs 12;
  sh_offset = word_at lsb bs 16;
  sh_size = word_at lsb bs 20;
  sh_link = word_at lsb bs 24;
  sh_info = word_at lsb bs 28;
  sh_addralign = word_at lsb bs 32;
  sh_entsize = word_at lsb bs 36;
}

-- `pmelf_getshdr32`
unfoldable pub getshdr32 : Bool → Bool → MemStream → Option (Shdr32 × MemStream)
unfolding load_shdr32
getshdr32 lsb needswap s = elim (mrd 40 1 s) [
  | none ↦ none
  | some (bs, s') ↦ let x = load_shdr32 lsb bs in some (if needswap then swap_shdr32 x else x, s')
]

-- `pmelf_putshdr32`
unfoldable pub putshdr32 : Bool → Bool → Out → Shdr32 → Bool × Out
unfolding store_shdr32
putshdr32 lsb needswap out x =
    let x' = if needswap then swap_shdr32 x else x in write (store_shdr32 lsb x' []) out

load_shdr32-store_shdr32 :
    (file : Bool) (s : Shdr32) (rest : List ℕ)
    → IsShdr32 s
    → load_shdr32 file (store_shdr32 file s rest) ≡ s
unfolding load_shdr32 store_shdr32 word_at half_at put_word put_half
load_shdr32-store_shdr32 true s rest v = ground arith
load_shdr32-store_shdr32 false s rest v = ground arith

store_shdr32-swap :
    (lsb : Bool) (s : Shdr32) (rest : List ℕ)
    → IsShdr32 s
    → store_shdr32 lsb (swap_shdr32 s) rest ≡ store_shdr32 (not lsb) s rest
unfolding store_shdr32
store_shdr32-swap lsb s rest v =
    rw
      (
        put_word-swah lsb s.sh_entsize rest v.sh_entsize_small,
        put_word-swah lsb s.sh_addralign (put_word (not lsb) s.sh_entsize rest)
            v.sh_addralign_small,
        put_word-swah lsb s.sh_info
            (put_word (not lsb) s.sh_addralign (put_word (not lsb) s.sh_entsize rest))
            v.sh_info_small,
        put_word-swah lsb s.sh_link
            (put_word (not lsb) s.sh_info
              (put_word (not lsb) s.sh_addralign (put_word (not lsb) s.sh_entsize rest)))
            v.sh_link_small,
        put_word-swah lsb s.sh_size
            (put_word (not lsb) s.sh_link (
              put_word (not lsb) s.sh_info
                (put_word (not lsb) s.sh_addralign (put_word (not lsb) s.sh_entsize rest))))
            v.sh_size_small,
        put_word-swah lsb s.sh_offset
            (put_word (not lsb) s.sh_size (
              put_word (not lsb) s.sh_link (
                put_word (not lsb) s.sh_info
                  (put_word (not lsb) s.sh_addralign (put_word (not lsb) s.sh_entsize rest)))))
            v.sh_offset_small,
        put_word-swah lsb s.sh_addr
            (put_word (not lsb) s.sh_offset (
              put_word (not lsb) s.sh_size (
                put_word (not lsb) s.sh_link (
                  put_word (not lsb) s.sh_info
                    (put_word (not lsb) s.sh_addralign (put_word (not lsb) s.sh_entsize rest))))))
            v.sh_addr_small,
        put_word-swah lsb s.sh_flags
            (put_word (not lsb) s.sh_addr (
              put_word (not lsb) s.sh_offset (
                put_word (not lsb) s.sh_size (
                  put_word (not lsb) s.sh_link (
                    put_word (not lsb) s.sh_info (
                      put_word (not lsb) s.sh_addralign (put_word (not lsb) s.sh_entsize rest)))))))
            v.sh_flags_small,
        put_word-swah lsb s.sh_type
            (put_word (not lsb) s.sh_flags (
              put_word (not lsb) s.sh_addr (
                put_word (not lsb) s.sh_offset (
                  put_word (not lsb) s.sh_size (
                    put_word (not lsb) s.sh_link (
                      put_word (not lsb) s.sh_info (
                        put_word (not lsb) s.sh_addralign
                          (put_word (not lsb) s.sh_entsize rest))))))))
            v.sh_type_small,
        put_word-swah lsb s.sh_name
            (put_word (not lsb) s.sh_type (
              put_word (not lsb) s.sh_flags (
                put_word (not lsb) s.sh_addr (
                  put_word (not lsb) s.sh_offset (
                    put_word (not lsb) s.sh_size (
                      put_word (not lsb) s.sh_link (
                        put_word (not lsb) s.sh_info (
                          put_word (not lsb) s.sh_addralign
                            (put_word (not lsb) s.sh_entsize rest)))))))))
            v.sh_name_small,
      )
      refl

swap-load_shdr32 :
    (lsb : Bool) (bs : List ℕ)
    → AreBytes bs
    → swap_shdr32 (load_shdr32 lsb bs) ≡ load_shdr32 (not lsb) bs
unfolding load_shdr32
swap-load_shdr32 lsb bs h =
    rw
      (
        swah-word_at lsb bs 0 h,
        swah-word_at lsb bs 4 h,
        swah-word_at lsb bs 8 h,
        swah-word_at lsb bs 12 h,
        swah-word_at lsb bs 16 h,
        swah-word_at lsb bs 20 h,
        swah-word_at lsb bs 24 h,
        swah-word_at lsb bs 28 h,
        swah-word_at lsb bs 32 h,
        swah-word_at lsb bs 36 h,
      )
      refl

store_shdr32-AreBytes :
    (lsb : Bool) (s : Shdr32) (rest : List ℕ)
    → IsShdr32 s
    → AreBytes rest
    → AreBytes (store_shdr32 lsb s rest)
unfolding store_shdr32
store_shdr32-AreBytes lsb s rest v r = put_word-AreBytes lsb _ _ v.sh_name_small (
    put_word-AreBytes lsb _ _ v.sh_type_small (
      put_word-AreBytes lsb _ _ v.sh_flags_small (
        put_word-AreBytes lsb _ _ v.sh_addr_small (
          put_word-AreBytes lsb _ _ v.sh_offset_small (
            put_word-AreBytes lsb _ _ v.sh_size_small (
              put_word-AreBytes lsb _ _ v.sh_link_small (
                put_word-AreBytes lsb _ _ v.sh_info_small (
                  put_word-AreBytes lsb _ _ v.sh_addralign_small
                    (put_word-AreBytes lsb _ _ v.sh_entsize_small r)))))))))

length-store_shdr32 :
    (lsb : Bool) (s : Shdr32) (rest : List ℕ) → length (store_shdr32 lsb s rest) ≡ 40 + length rest
unfolding store_shdr32 put_word put_half
length-store_shdr32 true s rest = omega arith
length-store_shdr32 false s rest = omega arith

-- The bytes behind the structure are as they were.
store_shdr32-append :
    (lsb : Bool) (s : Shdr32) (rest : List ℕ)
    → store_shdr32 lsb s [] ++ rest ≡ store_shdr32 lsb s rest
unfolding store_shdr32 put_word put_half
store_shdr32-append true s rest = refl
store_shdr32-append false s rest = refl

-- Whatever the order of the processor, the bytes written are in the order of the file.
putshdr32-file :
    (lsb file : Bool) (out : List ℕ) (s : Shdr32)
    → IsShdr32 s
    → putshdr32 lsb (differs lsb file) (some out) s ≡ (true, some (out ++ store_shdr32 file s []))
unfolding putshdr32
putshdr32-file true true out s v = refl
putshdr32-file true false out s v = rw (store_shdr32-swap true s [] v) refl
putshdr32-file false true out s v = rw (store_shdr32-swap false s [] v) refl
putshdr32-file false false out s v = refl

-- And what is read is what the bytes say in the order of the file.
getshdr32-file :
    (lsb file : Bool) (s s' : MemStream) (bs : List ℕ)
    → mrd 40 1 s ≡ some (bs, s')
    → AreBytes bs
    → getshdr32 lsb (differs lsb file) s ≡ some (load_shdr32 file bs, s')
unfolding getshdr32
getshdr32-file true true s s' bs e h = rw (e, getshdr32) refl
getshdr32-file true false s s' bs e h = rw (e, getshdr32, swap-load_shdr32 true bs h) refl
getshdr32-file false true s s' bs e h = rw (e, getshdr32, swap-load_shdr32 false bs h) refl
getshdr32-file false false s s' bs e h = rw (e, getshdr32) refl

-- A structure that one processor writes to a stream, behind what the stream holds, is read back by
-- another one at that place, whatever the byte orders of the two, if each takes that of the file into
-- account; the reader is then behind the structure.
pub getshdr32-putshdr32 :
    (a b file : Bool) (before after written : List ℕ) (x : Shdr32)
    → IsShdr32 x
    → AreBytes after
    → putshdr32 a (differs a file) (some before) x ≡ (true, some written)
    → getshdr32 b (differs b file) (record { buf = written ++ after; pos = length before })
      ≡ some (x, record { buf = written ++ after; pos = length before + 40 })
getshdr32-putshdr32 a b file before after written x v r put =
    let e : before ++ store_shdr32 file x [] ≡ written =
      some_eq (ap (λ (p : Bool × Out). p.1) (sym (putshdr32-file a file before x v) ∙ put)) in
    subst
      (λ w.
        getshdr32 b (differs b file) (record { buf = w ++ after; pos = length before })
        ≡ some (x, record { buf = w ++ after; pos = length before + 40 }))
      e
      (getshdr32-file b file _ _ (store_shdr32 file x after)
          (reads before (store_shdr32 file x []) after 40 (length-store_shdr32 file x [])
            ∙ ap
                (λ w. some (
                  w,
                  record {
                    buf = (before ++ store_shdr32 file x []) ++ after;
                    pos = length before + 40;
                  },
                ))
                (store_shdr32-append file x after))
          (store_shdr32-AreBytes file x after v r)
        ∙ ap
            (λ y. some (
              y,
              record {
                buf = (before ++ store_shdr32 file x []) ++ after;
                pos = length before + 40;
              },
            ))
            (load_shdr32-store_shdr32 file x after v))
