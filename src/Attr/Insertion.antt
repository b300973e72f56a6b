-- ===== src/Attr/Insertion.antt =====
-- How the list of a table grows (pmbfd/attpbfasread.c): where there is one instance of a tag, another
-- one is linked in before it, and where there are two, the loop that looks for the last does not end.
use rtems_hzb_cexpsh.Base.{
  ℕ, zero, suc, ◌≡◌, ◌≢◌, ◌==◌, if◌then◌else◌, some, List, [], ◌∷◌, arith, refl, ◌<◌, ◌⊎◌, inl, inr,
}
use rtems_hzb_cexpsh.Attr.{Att, find_att, tag_compat}
use rtems_hzb_cexpsh.Attr.Parse.{
  done, out_of_fuel, append_att, seek_last, link_here, link_at, keep_head,
}
use rtems_hzb_cexpsh.Attr.Verdict.{IsGrouped, compats, run}
use rtems_hzb_cexpsh.Attr.Match.{find_compat}

-- How many elements have that tag.
abbrev pub count : ℕ → List Att → ℕ
count tag [] = 0
count tag (x ∷ xs) = if x.tag == tag then suc (count tag xs) else count tag xs

-- Two elements with that tag, the first ones, are neighbours.
abbrev pub HasPair : ℕ → List Att → Type 0
HasPair tag [] = ⊥
HasPair tag (x ∷ []) = ⊥
HasPair tag (x ∷ y ∷ ys) = if x.tag == tag then y.tag ≡ tag else HasPair tag (y ∷ ys)

-- The new element before the first with its tag, or at the end.
abbrev pub insert_before : Att → List Att → List Att
insert_before el [] = el ∷ []
insert_before el (x ∷ xs) = if x.tag == el.tag then el ∷ x ∷ xs else x ∷ insert_before el xs

seek_stays :
    (fuel tag pp : ℕ) (y : Att) (ys : List Att)
    → y.tag ≡ tag
    → seek_last fuel tag pp (y ∷ ys) ≡ out_of_fuel
unfolding seek_last
seek_stays zero tag pp y ys h = refl
seek_stays (suc fuel) tag pp y ys h = ground (arith, seek_stays fuel tag 1 y ys h)

-- Where the list has two neighbours with the tag already, the loop does not end, with whatever fuel.
pub append_att-endless :
    (fuel : ℕ) (el : Att) (l : List Att) → HasPair el.tag l → append_att fuel el l ≡ out_of_fuel
unfolding append_att keep_head link_here
append_att-endless fuel el [] h = absurd h
append_att-endless fuel el (x ∷ []) h = absurd h
append_att-endless fuel el (x ∷ y ∷ ys) h =
    ground (arith, append_att-endless fuel el (y ∷ ys), seek_stays fuel el.tag 0 y ys)

-- With at most one element of the tag, the new one goes before that.
pub append_att-insert_before :
    (fuel : ℕ) (el : Att) (l : List Att)
    → count el.tag l < 2
    → append_att (suc fuel) el l ≡ done (insert_before el l)
unfolding append_att keep_head link_here link_at seek_last
append_att-insert_before fuel el [] h = refl
append_att-insert_before fuel el (x ∷ []) h = ground arith
append_att-insert_before fuel el (x ∷ y ∷ ys) h =
    ground (arith, append_att-insert_before fuel el (y ∷ ys))

-- What a search finds after that.
pub find-insert_before :
    (tag : ℕ) (el : Att) (l : List Att)
    → find_att tag (insert_before el l) ≡ (if el.tag == tag then some el.val else find_att tag l)
unfolding find_att
find-insert_before tag el [] = ground arith
find-insert_before tag el (x ∷ xs) = ground (arith, find-insert_before tag el xs)

seek-cases :
    (fuel tag : ℕ) (l : List Att)
    → (seek_last fuel tag 0 l ≡ out_of_fuel) ⊎ (seek_last fuel tag 0 l ≡ done 0)
unfolding seek_last
seek-cases zero tag l = inl refl
seek-cases (suc fuel) tag [] = inr refl
seek-cases (suc fuel) tag (y ∷ ys) = ground (arith, seek_stays fuel tag 1 y ys)

pub append-cases :
    (fuel : ℕ) (el : Att) (l : List Att)
    → (append_att fuel el l ≡ out_of_fuel) ⊎ (append_att fuel el l ≡ done (insert_before el l))
unfolding append_att keep_head link_here link_at
append-cases fuel el [] = inr refl
append-cases fuel el (x ∷ xs) = ground (arith, seek-cases fuel el.tag xs, append-cases fuel el xs)

-- A list that the loop returns is that one.
pub append_att-done :
    (fuel : ℕ) (el : Att) (l l' : List Att)
    → append_att fuel el l ≡ done l'
    → l' ≡ insert_before el l
append_att-done fuel el l l' h = ground (arith, h, append-cases fuel el l)

run-other : (el : Att) (l : List Att) → el.tag ≢ tag_compat → run (insert_before el l) ≡ run l
run-other el [] d = ground (arith, d)
run-other el (x ∷ xs) d = ground (arith, d, run-other el xs d)

compats-insert :
    (el : Att) (l : List Att)
    → compats (insert_before el l)
      ≡ (if el.tag == tag_compat then el.val ∷ compats l else compats l)
compats-insert el [] = ground arith
compats-insert el (x ∷ xs) = ground (arith, compats-insert el xs)

find-run-insert :
    (el : Att) (l : List Att)
    → run (find_compat (insert_before el l))
      ≡ (if el.tag == tag_compat then el.val ∷ run (find_compat l) else run (find_compat l))
unfolding find_compat
find-run-insert el [] = ground arith
find-run-insert el (x ∷ xs) = ground (arith, find-run-insert el xs, run-other el xs)

pub insert_before-IsGrouped :
    (el : Att) (l : List Att) → IsGrouped l → IsGrouped (insert_before el l)
unfolding IsGrouped
insert_before-IsGrouped el l g = ground (arith, g, compats-insert el l, find-run-insert el l)
