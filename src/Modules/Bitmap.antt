-- ===== src/Modules/Bitmap.antt =====
-- The bitmaps of cexpmodP.h: `BITMAP_DEPTH` words of 2 ^ `LD_WORDLEN` = 32 bits, one bit for each
-- module identifier. A word is the list of its bits, the lowest first, so that `1 << k` is bit `k`.
use rtems_hzb_cexpsh.Base.{
  ℕ, zero, suc, ◌+◌, ◌*◌, ◌/◌, ◌%◌, ◌<◌, ◌≡◌, refl, Bool, true, false, ◌||◌, List, [], ◌∷◌, All,
  length, set, get_or, get_or-set, length-set, All-set, All-get_or, replicate, Bool-cases, inl, inr,
  ◌∙◌, same_index, arith,
}

-- `MAX_NUM_MODULES`, `1 << LD_WORDLEN`, `BITMAP_DEPTH`
abbrev pub max_num_modules : ℕ
max_num_modules = 256

abbrev pub word_bits : ℕ
word_bits = 32

abbrev pub bitmap_depth : ℕ
bitmap_depth = max_num_modules / word_bits

abbrev pub BitmapWord : Type 0
BitmapWord = List Bool

abbrev pub Bitmap : Type 0
Bitmap = List BitmapWord

-- `BITMAP_DECLARE` with every byte zero.
abbrev pub no_bits : Bitmap
no_bits = replicate bitmap_depth (replicate word_bits false)

abbrev word_at : Bitmap → ℕ → BitmapWord
word_at bm bitno = get_or bm (bitno / word_bits) []

abbrev put : Bool → Bitmap → ℕ → Bitmap
put b bm bitno = set bm (bitno / word_bits) (set (word_at bm bitno) (bitno % word_bits) b)

-- `BITMAP_SET`, `BITMAP_CLR` and `BITMAP_TST`
unfoldable pub bitmap_set : Bitmap → ℕ → Bitmap
bitmap_set bm bitno = put true bm bitno

unfoldable pub bitmap_clr : Bitmap → ℕ → Bitmap
bitmap_clr bm bitno = put false bm bitno

unfoldable pub bitmap_tst : Bitmap → ℕ → Bool
bitmap_tst bm bitno = get_or (word_at bm bitno) (bitno % word_bits) false

-- The loop `for (i = 0; i < BITMAP_DEPTH; i++) if (bm[i])`: a word with a bit is not zero.
unfoldable pub word_nonzero : BitmapWord → Bool
word_nonzero [] = false
word_nonzero (b ∷ bs) = b || word_nonzero bs

unfoldable pub bitmap_nonzero : Bitmap → Bool
unfolding word_nonzero
bitmap_nonzero [] = false
bitmap_nonzero (w ∷ ws) = word_nonzero w || bitmap_nonzero ws

-- The shape of the C array.
pub record IsBitmap (bm : Bitmap) : Type 0 where
  pub depth : length bm ≡ bitmap_depth
  pub words : All (λ (w : BitmapWord). length w ≡ word_bits) bm

pub no_bits-IsBitmap : IsBitmap no_bits
no_bits-IsBitmap = record {
  depth = refl;
  words = (refl, (refl, (refl, (refl, (refl, (refl, (refl, (refl, tt))))))));
}

length-word :
    (bm : Bitmap) (i : ℕ) → IsBitmap bm → i < max_num_modules → length (word_at bm i) ≡ word_bits
length-word bm i v h =
    All-get_or (λ (w : BitmapWord). length w ≡ word_bits) bm (i / word_bits) [] v.words
      (omega (arith, v.depth))

put-IsBitmap :
    (b : Bool) (bm : Bitmap) (i : ℕ) → i < max_num_modules → IsBitmap bm → IsBitmap (put b bm i)
put-IsBitmap b bm i h v = record {
  depth = length-set bm (i / word_bits) (set (word_at bm i) (i % word_bits) b) ∙ v.depth;
  words =
      All-set (λ (w : BitmapWord). length w ≡ word_bits) bm (i / word_bits)
        (set (word_at bm i) (i % word_bits) b) v.words
        (length-set (word_at bm i) (i % word_bits) b ∙ length-word bm i v h);
}

tst-put :
    (b : Bool) (bm : Bitmap) (i j : ℕ)
    → IsBitmap bm
    → i < max_num_modules
    → bitmap_tst (put b bm i) j ≡ elim (same_index i j) [ true ↦ b | false ↦ bitmap_tst bm j ]
unfolding bitmap_tst
tst-put b bm i j v h = ground (
  arith,
  get_or-set bm (i / word_bits) (j / word_bits) (set (word_at bm i) (i % word_bits) b) [],
  get_or-set (word_at bm i) (i % word_bits) (j % word_bits) b false,
  v.depth,
  All-get_or (λ (w : BitmapWord). length w ≡ word_bits) bm (i / word_bits) [] v.words,
)

module _ (bm : Bitmap) (i : ℕ) (v : IsBitmap bm) (h : i < max_num_modules) where
  pub bitmap_set-IsBitmap : IsBitmap (bitmap_set bm i)
  unfolding bitmap_set
  bitmap_set-IsBitmap = put-IsBitmap true bm i h v

  pub bitmap_clr-IsBitmap : IsBitmap (bitmap_clr bm i)
  unfolding bitmap_clr
  bitmap_clr-IsBitmap = put-IsBitmap false bm i h v

  -- `BITMAP_SET` raises its own bit and no other.
  pub tst-set :
      (j : ℕ)
      → bitmap_tst (bitmap_set bm i) j
        ≡ elim (same_index i j) [ true ↦ true | false ↦ bitmap_tst bm j ]
  unfolding bitmap_set
  tst-set j = tst-put true bm i j v h

  -- `BITMAP_CLR` drops its own bit and no other.
  pub tst-clr :
      (j : ℕ)
      → bitmap_tst (bitmap_clr bm i) j
        ≡ elim (same_index i j) [ true ↦ false | false ↦ bitmap_tst bm j ]
  unfolding bitmap_clr
  tst-clr j = tst-put false bm i j v h

word_nonzero-false : (w : BitmapWord) (k : ℕ) → word_nonzero w ≡ false → get_or w k false ≡ false
unfolding word_nonzero
word_nonzero-false [] k h = refl
word_nonzero-false (b ∷ bs) zero h = ground arith
word_nonzero-false (b ∷ bs) (suc k) h = ground (arith, word_nonzero-false bs k)

bitmap_nonzero_word :
    (bm : Bitmap) (i k : ℕ) → bitmap_nonzero bm ≡ false → get_or (get_or bm i []) k false ≡ false
unfolding bitmap_nonzero
bitmap_nonzero_word [] i k h = refl
bitmap_nonzero_word (w ∷ ws) zero k h = ground (arith, word_nonzero-false w k)
bitmap_nonzero_word (w ∷ ws) (suc i) k h = ground (arith, bitmap_nonzero_word ws i k)

-- The loop over the words finds none that is not zero only if no bit is up.
pub bitmap_nonzero-tst : (bm : Bitmap) (j : ℕ) → bitmap_nonzero bm ≡ false → bitmap_tst bm j ≡ false
unfolding bitmap_tst
bitmap_nonzero-tst bm j h = bitmap_nonzero_word bm (j / word_bits) (j % word_bits) h

word_nonzero-true :
    (w : BitmapWord) → word_nonzero w ≡ true → (k : ℕ) × (k < length w) × (get_or w k false ≡ true)
unfolding word_nonzero
word_nonzero-true [] h = absurd (cc)
word_nonzero-true (true ∷ bs) h = (0, omega arith, refl)
word_nonzero-true (false ∷ bs) h =
    let (k, lt, e) = word_nonzero-true bs h in (suc k, omega arith, e)

bitmap_nonzero_bit :
    (bm : Bitmap)
    → All (λ (w : BitmapWord). length w ≡ word_bits) bm
    → bitmap_nonzero bm ≡ true
    → (i k : ℕ) × (i < length bm) × (k < word_bits) × (get_or (get_or bm i []) k false ≡ true)
unfolding bitmap_nonzero
bitmap_nonzero_bit [] a h = absurd (cc)
bitmap_nonzero_bit (w ∷ ws) a h = elim (Bool-cases (word_nonzero w)) [
  | inl up ↦ let (k, lt, e) = word_nonzero-true w up in (0, k, omega arith, omega (arith, a.0), e)
  | inr down ↦
      let (i, k, lt, small, e) = bitmap_nonzero_bit ws a.1 (ground arith) in
      (suc i, k, omega arith, small, e)
]

-- And it finds one only if a bit is up.
pub bitmap_nonzero_some :
    (bm : Bitmap)
    → IsBitmap bm
    → bitmap_nonzero bm ≡ true
    → (j : ℕ) × (j < max_num_modules) × (bitmap_tst bm j ≡ true)
unfolding bitmap_tst
bitmap_nonzero_some bm v h =
    let (i, k, lt, small, e) = bitmap_nonzero_bit bm v.words h in
    (i * 32 + k, omega (arith, v.depth), at i k small e)
  where
    at :
        (i k : ℕ)
        → k < 32
        → get_or (get_or bm i []) k false ≡ true
        → get_or (get_or bm ((i * 32 + k) / 32) []) ((i * 32 + k) % 32) false ≡ true
    at i k small e =
        let q : (i * 32 + k) / 32 ≡ i = omega arith in
        let r : (i * 32 + k) % 32 ≡ k = omega arith in rw (q, r) e

pub no_bits-tst : (j : ℕ) → bitmap_tst no_bits j ≡ false
unfolding bitmap_nonzero
no_bits-tst j = bitmap_nonzero-tst no_bits j refl
