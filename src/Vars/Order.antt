-- ===== src/Vars/Order.antt =====
-- The ordered lists behind vars.c: what the search finds, and what insertion and removal at the place
-- that it reports do, against a plain search of the whole list.
use rtems_hzb_cexpsh.Base.{
  ℕ, zero, suc, ◌≡◌, refl, Option, none, some, List, [], ◌∷◌, All, Ordering, strcmp, str_eq,
  strcmp_refl, strcmp-eq, strcmp_flip, strcmp_flip_gt, strcmp_trans, if◌then◌else◌, arith,
}
use rtems_hzb_cexpsh.Vars.{lhr_find, insert_at, remove_at}

module _ {A : Type 0} (key : A → List ℕ) where
  abbrev pub Above : List ℕ → List A → Type 0
  Above k = All (λ y. strcmp k (key y) ≡ Ordering.lt)

  abbrev pub Ascending : List A → Type 0
  Ascending [] = Unit
  Ascending (x ∷ xs) = Above (key x) xs × Ascending xs

  -- The list seen as a finite map: a plain search that knows nothing of the order.
  pub assoc : List ℕ → List A → Option A
  assoc k [] = none
  assoc k (x ∷ xs) = if str_eq (key x) k then some x else assoc k xs

  abbrev pub walk : List ℕ → List A → ℕ × Option A
  walk k = lhr_find (λ v. strcmp (key v) k)

  Above-trans : (j k : List ℕ) (xs : List A) → strcmp j k ≡ Ordering.lt → Above k xs → Above j xs
  Above-trans j k [] h a = tt
  Above-trans j k (x ∷ xs) h a = (strcmp_trans j k (key x) h a.0, Above-trans j k xs h a.1)

  assoc-Above : (k : List ℕ) (xs : List A) → Above k xs → assoc k xs ≡ none
  unfolding assoc
  assoc-Above k [] a = refl
  assoc-Above k (x ∷ xs) a = ground (arith, assoc-Above k xs, strcmp_flip k (key x))

  -- On an ordered list the early end of the walk misses nothing.
  pub lhr_find-assoc : (k : List ℕ) (xs : List A) → Ascending xs → (walk k xs).1 ≡ assoc k xs
  unfolding lhr_find assoc
  lhr_find-assoc k [] a = refl
  lhr_find-assoc k (x ∷ xs) a = ground (
    arith,
    lhr_find-assoc k xs,
    strcmp_flip_gt (key x) k,
    Above-trans k (key x) xs,
    assoc-Above k xs,
  )

  Above-insert_at :
      (j : List ℕ) (i : ℕ) (n : A) (xs : List A)
      → strcmp j (key n) ≡ Ordering.lt
      → Above j xs
      → Above j (insert_at i n xs)
  unfolding insert_at
  Above-insert_at j zero n xs h a = (h, a)
  Above-insert_at j (suc i) n [] h a = (h, tt)
  Above-insert_at j (suc i) n (x ∷ xs) h a = (a.0, Above-insert_at j i n xs h a.1)

  Above-remove_at : (j : List ℕ) (i : ℕ) (xs : List A) → Above j xs → Above j (remove_at i xs)
  unfolding remove_at
  Above-remove_at j i [] a = tt
  Above-remove_at j zero (x ∷ xs) a = a.1
  Above-remove_at j (suc i) (x ∷ xs) a = (a.0, Above-remove_at j i xs a.1)

  pub insert_at-Ascending :
      (n : A) (xs : List A)
      → Ascending xs
      → (walk (key n) xs).1 ≡ none
      → Ascending (insert_at (walk (key n) xs).0 n xs)
  unfolding lhr_find insert_at
  insert_at-Ascending n [] a h = (tt, tt)
  insert_at-Ascending n (x ∷ xs) a h = ground (
    arith,
    insert_at-Ascending n xs,
    strcmp_flip_gt (key x) (key n),
    Above-trans (key n) (key x) xs,
    Above-insert_at (key x) (walk (key n) xs).0 n xs,
  )

  pub remove_at-Ascending : (i : ℕ) (xs : List A) → Ascending xs → Ascending (remove_at i xs)
  unfolding remove_at
  remove_at-Ascending i [] a = tt
  remove_at-Ascending zero (x ∷ xs) a = a.1
  remove_at-Ascending (suc i) (x ∷ xs) a =
      (Above-remove_at (key x) i xs a.0, remove_at-Ascending i xs a.1)

  -- An insertion where the search ended adds one entry to the map.
  pub assoc-insert_at :
      (n : A) (j : List ℕ) (xs : List A)
      → (walk (key n) xs).1 ≡ none
      → assoc j (insert_at (walk (key n) xs).0 n xs)
        ≡ (if str_eq (key n) j then some n else assoc j xs)
  unfolding lhr_find insert_at assoc
  assoc-insert_at n j [] h = refl
  assoc-insert_at n j (x ∷ xs) h =
      ground (
        arith,
        assoc-insert_at n j xs,
        strcmp-eq (key x) j,
        strcmp-eq (key n) j,
        strcmp_refl (key n),
      )

  -- A removal where the search ended takes one entry out.
  pub assoc-remove_at :
      (k j : List ℕ) (v : A) (xs : List A)
      → Ascending xs
      → (walk k xs).1 ≡ some v
      → assoc j (remove_at (walk k xs).0 xs) ≡ (if str_eq k j then none else assoc j xs)
  unfolding lhr_find remove_at assoc
  assoc-remove_at k j v [] a h = cc
  assoc-remove_at k j v (x ∷ xs) a h = ground (
    arith,
    assoc-remove_at k j v xs,
    strcmp-eq (key x) k,
    strcmp-eq (key x) j,
    strcmp-eq k j,
    strcmp_refl k,
    assoc-Above k xs,
  )

  pub assoc-key : (k : List ℕ) (v : A) (xs : List A) → assoc k xs ≡ some v → key v ≡ k
  unfolding assoc
  assoc-key k v [] h = cc
  assoc-key k v (x ∷ xs) h = ground (arith, assoc-key k v xs, strcmp-eq (key x) k)
