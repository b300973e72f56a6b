-- ===== src/Elf/Tests.antt =====
-- Runs of the code of pmbfd/, and each theorem about it at an input.
use rtems_hzb_cexpsh.Base.{
  ℕ, suc, ◌+◌, ◌*◌, ◌/◌, ◌%◌, ◌^◌, ◌≡◌, refl, true, false, some, [], ◌∷◌, ◌++◌, length, arith,
}
use rtems_hzb_cexpsh.Segs.{word}
use rtems_hzb_cexpsh.Elf.Reloc.{
  Site, Bytes, half_at, word_at, perform_relocation, r_ppc_addr16_ha, r_ppc_addr16_lo, r_ppc_rel24,
}
use rtems_hzb_cexpsh.Elf.Patch.{relocation-halves, relocation-branch, sign_extended, displacement}
use rtems_hzb_cexpsh.Elf.Leb128.{guleb128, uleb128, guleb128-uleb128}
use rtems_hzb_cexpsh.Elf.Swap.{AreBytes}
use rtems_hzb_cexpsh.Elf.Symbol.{Sym32, IsSym32, store_sym32, getsym32, putsym32, getsym32-putsym32}
use rtems_hzb_cexpsh.Elf.Symbol64.{Sym64, IsSym64}
use rtems_hzb_cexpsh.Elf.Section.{Shdr32, IsShdr32}
use rtems_hzb_cexpsh.Elf.Section64.{Shdr64, IsShdr64}

abbrev site : ℕ → Site
site type = record {
  type = type;
  is_und = false;
  value = 0x128000;
  addend = 4;
  vma = 0x100000;
  offset = 8;
  size = 64;
}

abbrev memory : Bytes
memory a = 0x48

relocation-halves_example :
    (half_at (perform_relocation (site r_ppc_addr16_ha) memory).1 0x100008 * 2 ^ 16
        + sign_extended (half_at (perform_relocation (site r_ppc_addr16_lo) memory).1 0x100008))
      % word
    ≡ 0x128004
unfolding perform_relocation
relocation-halves_example =
    relocation-halves (site r_ppc_addr16_ha) (site r_ppc_addr16_lo) memory memory refl refl refl
      refl refl

relocation-branch_example :
    ((0x100008 + displacement (word_at (perform_relocation (site r_ppc_rel24) memory).1 0x100008))
        % word
      ≡ 0x128004)
    × (word_at (perform_relocation (site r_ppc_rel24) memory).1 0x100008 / 2 ^ 26
        ≡ word_at memory 0x100008 / 2 ^ 26)
    × (word_at (perform_relocation (site r_ppc_rel24) memory).1 0x100008 % 4
        ≡ word_at memory 0x100008 % 4)
unfolding perform_relocation
relocation-branch_example = relocation-branch (site r_ppc_rel24) memory refl (λ a. omega arith) refl

guleb128-uleb128_example :
    guleb128 (uleb128 (suc 300) 300 ++ 1 ∷ []) ≡ some (300, length (uleb128 (suc 300) 300))
guleb128-uleb128_example = guleb128-uleb128 300 (1 ∷ []) (omega arith)

no_more : AreBytes []
no_more = record { small = λ o. omega arith }

abbrev sym32_test : Sym32
sym32_test = record {
  st_name = 258;
  st_value = 259;
  st_size = 260;
  st_info = 4;
  st_other = 5;
  st_shndx = 263;
}

sym32_test-IsSym32 : IsSym32 sym32_test
sym32_test-IsSym32 = record {
  st_name_small = omega arith;
  st_value_small = omega arith;
  st_size_small = omega arith;
  st_info_small = omega arith;
  st_other_small = omega arith;
  st_shndx_small = omega arith;
}

-- From a big-endian processor to a little-endian one, in a big-endian file.
getsym32-putsym32_example :
    getsym32 true true (record { buf = (7 ∷ store_sym32 false sym32_test []) ++ []; pos = 1 })
    ≡ some (sym32_test, record { buf = (7 ∷ store_sym32 false sym32_test []) ++ []; pos = 17 })
unfolding putsym32 store_sym32
getsym32-putsym32_example =
    getsym32-putsym32 false true false (7 ∷ []) [] (7 ∷ store_sym32 false sym32_test []) sym32_test
      sym32_test-IsSym32 no_more refl

abbrev sym64_test : Sym64
sym64_test = record {
  st_name = 258;
  st_info = 2;
  st_other = 3;
  st_shndx = 261;
  st_value = 262;
  st_size = 263;
}

sym64_test-IsSym64 : IsSym64 sym64_test
sym64_test-IsSym64 = record {
  st_name_small = omega arith;
  st_info_small = omega arith;
  st_other_small = omega arith;
  st_shndx_small = omega arith;
  st_value_small = omega arith;
  st_size_small = omega arith;
}

abbrev shdr32_test : Shdr32
shdr32_test = record {
  sh_name = 258;
  sh_type = 259;
  sh_flags = 260;
  sh_addr = 261;
  sh_offset = 262;
  sh_size = 263;
  sh_link = 264;
  sh_info = 265;
  sh_addralign = 266;
  sh_entsize = 267;
}

shdr32_test-IsShdr32 : IsShdr32 shdr32_test
shdr32_test-IsShdr32 = record {
  sh_name_small = omega arith;
  sh_type_small = omega arith;
  sh_flags_small = omega arith;
  sh_addr_small = omega arith;
  sh_offset_small = omega arith;
  sh_size_small = omega arith;
  sh_link_small = omega arith;
  sh_info_small = omega arith;
  sh_addralign_small = omega arith;
  sh_entsize_small = omega arith;
}

abbrev shdr64_test : Shdr64
shdr64_test = record {
  sh_name = 258;
  sh_type = 259;
  sh_flags = 260;
  sh_addr = 261;
  sh_offset = 262;
  sh_size = 263;
  sh_link = 264;
  sh_info = 265;
  sh_addralign = 266;
  sh_entsize = 267;
}

shdr64_test-IsShdr64 : IsShdr64 shdr64_test
shdr64_test-IsShdr64 = record {
  sh_name_small = omega arith;
  sh_type_small = omega arith;
  sh_flags_small = omega arith;
  sh_addr_small = omega arith;
  sh_offset_small = omega arith;
  sh_size_small = omega arith;
  sh_link_small = omega arith;
  sh_info_small = omega arith;
  sh_addralign_small = omega arith;
  sh_entsize_small = omega arith;
}
