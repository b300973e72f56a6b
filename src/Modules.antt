-- ===== src/Modules.antt =====
-- cexpmod.c with cexpmodP.h: the list of loaded modules, their identifiers and dependencies, loading
-- and unloading, and the searches through all modules.
pub mod Bitmap
pub mod Record
pub mod Lookup
pub mod Addresses
pub mod Nearest
pub mod Above
pub mod AddressTests
pub mod Ids
pub mod Unload
pub mod Load
pub mod Deps
pub mod Linking
pub mod System
pub mod Loading
pub mod Tests
pub mod LookupTests
