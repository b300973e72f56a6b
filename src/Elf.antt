-- ===== src/Elf.antt =====
-- pmbfd/, the library that reads ELF files: relocations for the PowerPC, LEB128 numbers, streams of
-- bytes, and the reading and writing of structures in either byte order.
pub mod Reloc
pub mod Patch
pub mod Leb128
pub mod Stream
pub mod Swap
pub mod Symbol
pub mod Symbol64
pub mod Section
pub mod Section64
pub mod Tests
