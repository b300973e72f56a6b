-- ===== src/Segs/Tests.antt =====
-- Runs of the code of the cexpsegs files, and each theorem about it at an input.
use rtems_hzb_cexpsh.Base.{ℕ, ◌≡◌, ◌≢◌, refl, true, false, none, some, List, [], ◌∷◌, ◌==◌, arith}
use rtems_hzb_cexpsh.Segs.{
  Segment, Memory, Chunks, Kind, malloced, region, unmanaged, segs_alloc, segs_delete,
  segs_init_powerpc,
}
use rtems_hzb_cexpsh.Segs.Pairing.{IsSound, count, segs_delete-segs_alloc}

-- One chunk of the C heap at 64 or one of the region at 32; a second one cannot be had. The region takes
-- back its own address only.
abbrev tight : Memory
tight = record {
  pick = λ k n cs. elim cs [ [] ↦ elim k [ region ↦ some 32 | _ ↦ some 64 ] | c ∷ _ ↦ none ];
  takes_back = λ a cs. a == 32;
}

tight-IsSound : IsSound tight (λ a. a == 32)
tight-IsSound = record { nonnull = never; own = own; accepts = λ a cs is out. is }
  where
    never : (k : Kind) (n : ℕ) (cs : Chunks) (a : ℕ) → tight.pick k n cs ≡ some a → a ≢ 0
    never malloced n [] a e = ground arith
    never region n [] a e = ground arith
    never unmanaged n [] a e = ground arith
    never k n (c ∷ cs) a e = cc

    own : (n : ℕ) (cs : Chunks) (a : ℕ) → tight.pick region n cs ≡ some a → (a == 32) ≡ true
    own n [] a e = ground arith
    own n (c ∷ cs) a e = cc

abbrev two_segs : List Segment
two_segs =
    record { chunk = 0; size = 8; attributes = 0; name = b'a' ∷ []; kind = region; pvt = 0 }
    ∷ record { chunk = 0; size = 9; attributes = 0; name = b'b' ∷ []; kind = malloced; pvt = 0 }
    ∷ []

alloc_stops : (segs_alloc tight two_segs []).0 ≡ false
unfolding segs_alloc
alloc_stops = refl

powerpc_is_fresh : (segs_alloc tight (segs_init_powerpc 4096 7) []).0 ≡ true
unfolding segs_alloc segs_init_powerpc
powerpc_is_fresh = refl

segs_delete-segs_alloc_example :
    count 32 (segs_delete tight (segs_alloc tight two_segs []).1 (segs_alloc tight two_segs []).2)
    ≡ count 32 []
segs_delete-segs_alloc_example =
    segs_delete-segs_alloc tight (λ a. a == 32) tight-IsSound 32 two_segs [] (refl, (refl, tt))
