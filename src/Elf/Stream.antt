-- ===== src/Elf/Stream.antt =====
-- pmbfd/mstrm.c: a stream over bytes in memory.
use rtems_hzb_cexpsh.Base.{
  ℕ, ◌+◌, ◌*◌, ◌≤◌, ◌≡◌, refl, Bool, true, false, Option, some, none, List, [], ◌∷◌, ◌++◌, length,
  drop, ltb, leb, if◌then◌else◌, not, arith, ap, ◌∙◌, length-append,
}
use mathlib.Core.List.{append_assoc}

-- `Elf_Memstream`; `len` is the length of the buffer.
pub record MemStream : Type 0 where
  pub buf : List ℕ
  pub pos : ℕ

-- `mrd`: what it copies from is the buffer from the position on.
unfoldable pub mrd : ℕ → ℕ → MemStream → Option (List ℕ × MemStream)
mrd size nelms s =
    if ltb (length s.buf) (s.pos + size * nelms)
    then none
    else some (drop s.pos s.buf, record s { pos = s.pos + size * nelms })

-- `mseek` for `SEEK_SET` (`set` is off for the others): whether it succeeds, and the stream.
unfoldable pub mseek : Bool → ℕ → MemStream → Bool × MemStream
mseek set offset s =
    if not set
    then (false, s)
    else if leb (length s.buf) offset
    then (false, s)
    else (true, record s { pos = offset })

-- `mtell`
abbrev pub mtell : MemStream → ℕ
mtell s = s.pos

-- `pmelf_memstrm` where memory is at hand.
unfoldable pub memstrm : List ℕ → Option MemStream
memstrm buf = if ltb (length buf) 1 then none else some (record { buf = buf; pos = 0 })

-- The position is inside the buffer or at its end.
abbrev pub IsInside : MemStream → Type 0
IsInside s = s.pos ≤ length s.buf

-- A read that succeeds leaves the position inside and the buffer alone, and moves the place that the
-- stream tells on by what was read.
pub mrd-IsInside :
    (size nelms : ℕ) (s s' : MemStream) (b : List ℕ)
    → mrd size nelms s ≡ some (b, s')
    → IsInside s' × (mtell s' ≡ mtell s + size * nelms) × (s'.buf ≡ s.buf)
unfolding mrd
mrd-IsInside size nelms s s' b e = ground arith

-- What a stream that is written holds, if it has a routine to write. What is written goes to its end.
abbrev pub Out : Type 0
Out = Option (List ℕ)

-- `s->write && 1 == SWRITE(...)`
abbrev pub write : List ℕ → Out → Bool × Out
write bs none = (false, none)
write bs (some out) = (true, some (out ++ bs))

pub drop-length : (pre rest : List ℕ) → drop (length pre) (pre ++ rest) ≡ rest
drop-length [] rest = refl
drop-length (x ∷ pre) rest = drop-length pre rest

pub some_eq {ℓ} : {A : Type ℓ} {x y : A} → some x ≡ some y → x ≡ y
some_eq e = cc e

-- A read of what is in the middle of a buffer.
pub reads :
    (before bs after : List ℕ) (n : ℕ)
    → length bs ≡ n
    → mrd n 1 (record { buf = (before ++ bs) ++ after; pos = length before })
      ≡ some (bs ++ after, record { buf = (before ++ bs) ++ after; pos = length before + n })
unfolding mrd
reads before bs after n e =
    let here : drop (length before) ((before ++ bs) ++ after) ≡ bs ++ after =
      ap (drop (length before)) (append_assoc before bs after) ∙ drop-length before (bs ++ after) in
    let len : length ((before ++ bs) ++ after) ≡ length before + (n + length after) =
      length-append (before ++ bs) after ∙ omega (arith, length-append before bs) in
    ground (arith, here, len)
