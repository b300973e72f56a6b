-- ===== src/Attr/Within.antt =====
-- Where `pmelf_pub_file_attributes_read` of pmbfd/attpbfasread.c writes, for the vendor of the PowerPC.
use rtems_hzb_cexpsh.Base.{◌%◌, ℕ, ◌+◌, ◌≡◌, ◌≢◌, ◌<◌, ◌==◌, if◌then◌else◌}
use rtems_hzb_cexpsh.Attr.{Table, vendor_gnu_ppc}
use rtems_hzb_cexpsh.Attr.Parse.{chunk}

-- A table of the PowerPC vendor at that address: the indices in `map`, and the room of the array.
pub record IsWithin (at : ℕ) (t : Table) : Type 0 where
  pub vendor : t.pv ≡ vendor_gnu_ppc at
  pub others : (tag : ℕ) → tag ≢ 4 → tag ≢ 8 → t.map tag ≡ 0
  pub taken : t.idx ≡ 1 + (if t.map 4 == 0 then 0 else 1) + (if t.map 8 == 0 then 0 else 1)
  pub below : (tag : ℕ) → t.map tag < t.idx
  pub start : t.avail ≡ 0 → t.idx ≡ 1
  pub roomy : t.avail ≢ 0 → t.room ≡ 11

abbrev enlarged : Table → Table
enlarged t = record t { room = t.idx + chunk t.pv; avail = (t.avail + chunk t.pv) % 256 }
