-- ===== src/Attr/Parse.antt =====
-- `pmelf_pub_file_attributes_read` of pmbfd/attpbfasread.c. The buffer is the list of its bytes, and
-- `malloc` gives what it is asked for. At the end of the buffer the loop over a string reads one byte
-- more, and the routine returns -1 whatever that byte is: after a 0 there, `size` is the highest
-- word, which is negative as the `int` that `pmelf_guleb128` takes.
use rtems_hzb_cexpsh.Base.{
  ℕ, zero, suc, ◌+◌, ◌%◌, Bool, not, ◌&&◌, ltb, ◌==◌, if◌then◌else◌, Option, none, some, List, [],
  ◌∷◌, drop,
}
use rtems_hzb_cexpsh.Elf.Leb128.{guleb128}
use rtems_hzb_cexpsh.Attr.{Att, Value, Table, TagType, Vendor, in_array, tag_compat}

-- How a routine ends: with a result, with -1, with a write outside the array, after which nothing is said
-- of it, or not within the fuel.
pub data Outcome {ℓ} (A : Type ℓ) : Type ℓ where
  done : A → Outcome A
  failed : Outcome A
  outside : Outcome A
  out_of_fuel : Outcome A

abbrev pub put {ℓ} : {A : Type ℓ} → (ℕ → A) → ℕ → A → ℕ → A
put f at v i = if i == at then v else f i

-- The inner loop, which is to step behind the last instance of `tag`. What `pn` points to is not
-- changed by it; `pp` stands for how far it is behind the instance found, and is returned.
unfoldable pub seek_last : ℕ → ℕ → ℕ → List Att → Outcome ℕ
seek_last zero tag pp pn = out_of_fuel
seek_last (suc fuel) tag pp [] = done pp
seek_last (suc fuel) tag pp (y ∷ ys) =
    let more = seek_last fuel tag 1 (y ∷ ys) in if y.tag == tag then more else done pp

-- The new element where `pp` points to, behind so many elements.
unfoldable pub link_at : ℕ → Att → List Att → List Att
link_at zero el xs = el ∷ xs
link_at (suc n) el [] = el ∷ []
link_at (suc n) el (x ∷ xs) = x ∷ link_at n el xs

unfoldable pub link_here : Att → List Att → Outcome ℕ → Outcome (List Att)
unfolding link_at
link_here el xs (done pp) = done (link_at pp el xs)
link_here el xs failed = failed
link_here el xs outside = outside
link_here el xs out_of_fuel = out_of_fuel

unfoldable pub keep_head : Att → Outcome (List Att) → Outcome (List Att)
keep_head x (done xs) = done (x ∷ xs)
keep_head x failed = failed
keep_head x outside = outside
keep_head x out_of_fuel = out_of_fuel

-- The loop that links a new element into the list.
unfoldable pub append_att : ℕ → Att → List Att → Outcome (List Att)
unfolding seek_last link_here keep_head
append_att fuel el [] = done (el ∷ [])
append_att fuel el (x ∷ xs) =
    if x.tag == el.tag
    then link_here el (x ∷ xs) (seek_last fuel el.tag 0 xs)
    else keep_head x (append_att fuel el xs)

-- `csz`: how many elements are added to the array.
abbrev pub chunk : Vendor → ℕ
chunk pv = if ltb 30 pv.max_tag then 30 else pv.max_tag

-- The array grows where the tag belongs into it and `avail` is 0; `avail` is not counted down.
unfoldable pub grow : ℕ → Table → Table
unfolding in_array
grow tag t =
    let csz = chunk t.pv in
    if t.avail == 0 && in_array t.pv tag
    then record t { room = t.idx + csz; avail = (t.avail + csz) % 256 }
    else t

-- The end of a turn: the attribute into the list or into the array.
unfoldable pub store : ℕ → Att → Table → Outcome Table
unfolding in_array append_att
store fuel a t =
    if in_array t.pv a.tag
    then if ltb t.idx t.room
      then done (record t {
        map = put t.map a.tag t.idx;
        vals = put t.vals t.idx a.val;
        idx = (t.idx + 1) % 256;
      })
      else outside
    else elim (append_att fuel a t.lst) [
      | done l ↦ done (record t { lst = l })
      | failed ↦ failed
      | outside ↦ outside
      | out_of_fuel ↦ out_of_fuel
    ]

-- The loop over a string: the string without its 0, and the bytes after that.
unfoldable pub read_str : List ℕ → Option (List ℕ × List ℕ)
read_str [] = none
read_str (c ∷ cs) =
    if c == 0
    then some ([], cs)
    else elim (read_str cs) [ some r ↦ some (c ∷ r.0, r.1) | none ↦ none ]

-- A number, and the bytes after that.
unfoldable pub read_num : List ℕ → Option (ℕ × List ℕ)
unfolding guleb128
read_num buf = elim (guleb128 buf) [ some r ↦ some (r.0, drop r.1 buf) | none ↦ none ]

-- The type that is expected.
abbrev pub type_of : Vendor → ℕ → TagType
type_of pv tag = if tag == tag_compat then TagType.both else pv.tag_type tag

-- The values after a tag, of the types that have some.
unfoldable pub read_value : TagType → List ℕ → Option (Value × List ℕ)
unfolding read_num read_str
read_value TagType.num buf = elim (read_num buf) [
  | some r ↦ some (record { i = r.0; s = none }, r.1)
  | none ↦ none
]
read_value TagType.both buf = elim (read_num buf) [
  | some r ↦ elim (read_str r.1) [
    | some q ↦ some (record { i = r.0; s = some q.0 }, q.1)
    | none ↦ none
  ]
  | none ↦ none
]
read_value TagType.str buf = elim (read_str buf) [
  | some q ↦ some (record { i = 0; s = some q.0 }, q.1)
  | none ↦ none
]
read_value TagType.no_value buf = none
read_value TagType.unknown buf = none

-- The tag has its value in the array already.
unfoldable pub is_defined : Table → ℕ → Bool
unfolding in_array
is_defined t tag = in_array t.pv tag && not (t.map tag == 0)

-- The turn from the values on, which were read or not.
unfoldable pub finish : ℕ → ℕ → Table → Option (Value × List ℕ) → Outcome (Table × List ℕ)
unfolding store
finish fuel tag t none = failed
finish fuel tag t (some r) = elim (store fuel (record { tag = tag; val = r.0 }) t) [
  | done t' ↦ done (t', r.1)
  | failed ↦ failed
  | outside ↦ outside
  | out_of_fuel ↦ out_of_fuel
]

-- The `switch` over the type and what follows: a tag of no value is skipped.
unfoldable pub by_type : TagType → ℕ → ℕ → List ℕ → Table → Outcome (Table × List ℕ)
unfolding read_value finish
by_type TagType.no_value fuel tag buf t = done (t, buf)
by_type ty fuel tag buf t = finish fuel tag t (read_value ty buf)

-- The body of the loop, after the tag: the table, and the bytes left.
unfoldable pub read_att : ℕ → ℕ → List ℕ → Table → Outcome (Table × List ℕ)
unfolding grow by_type is_defined
read_att fuel tag buf t =
    let g = grow tag t in
    if is_defined g tag then failed else by_type (type_of g.pv tag) fuel tag buf g

-- `pmelf_pub_file_attributes_read`
unfoldable pub read_atts : ℕ → List ℕ → Table → Outcome Table
unfolding read_num read_att
read_atts fuel [] t = done t
read_atts zero (b ∷ bs) t = out_of_fuel
read_atts (suc fuel) (b ∷ bs) t = elim (read_num (b ∷ bs)) [
  | none ↦ failed
  | some r ↦ elim (read_att fuel r.0 r.1 t) [
    | done q ↦ read_atts fuel q.1 q.0
    | failed ↦ failed
    | outside ↦ outside
    | out_of_fuel ↦ out_of_fuel
  ]
]
