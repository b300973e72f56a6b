-- ===== src/Syms/Names.antt =====
-- What `_cexp_namecomp` decides: a key matches its own name and every version of it.
use rtems_hzb_cexpsh.Base.{ℕ, ◌≡◌, refl, ◌⊎◌, inl, inr, ◌↔◌, List, [], ◌∷◌, ◌++◌, Ordering, arith}
use rtems_hzb_cexpsh.Syms.{namecomp, version_separator}

-- `name`, or `name@version`.
abbrev pub IsVersionOf : List ℕ → List ℕ → Type 0
IsVersionOf key name = (name ≡ key) ⊎ ((v : List ℕ) × (name ≡ key ++ version_separator ∷ v))

namecomp-version : (key v : List ℕ) → namecomp key (key ++ version_separator ∷ v) ≡ Ordering.eq
unfolding namecomp
namecomp-version [] v = refl
namecomp-version (k ∷ ks) v = ground (arith, namecomp-version ks v)

pub namecomp_refl : (key : List ℕ) → namecomp key key ≡ Ordering.eq
unfolding namecomp
namecomp_refl [] = refl
namecomp_refl (k ∷ ks) = ground (arith, namecomp_refl ks)

IsVersionOf-cons :
    (k c : ℕ) (ks cs : List ℕ) → c ≡ k → IsVersionOf ks cs → IsVersionOf (k ∷ ks) (c ∷ cs)
IsVersionOf-cons k c ks cs e (inl f) = inl (cc)
IsVersionOf-cons k c ks cs e (inr (v, f)) = inr (v, cc)

namecomp_tail :
    (k c : ℕ) (ks cs : List ℕ)
    → namecomp (k ∷ ks) (c ∷ cs) ≡ Ordering.eq
    → (c ≡ k) × (namecomp ks cs ≡ Ordering.eq)
unfolding namecomp
namecomp_tail k c ks cs h = ground arith

namecomp_sound : (key name : List ℕ) → namecomp key name ≡ Ordering.eq → IsVersionOf key name
unfolding namecomp
namecomp_sound [] [] h = inl refl
namecomp_sound [] (c ∷ cs) h = inr (cs, ground arith)
namecomp_sound (k ∷ ks) [] h = cc
namecomp_sound (k ∷ ks) (c ∷ cs) h =
    let (e, rest) = namecomp_tail k c ks cs h in
    IsVersionOf-cons k c ks cs e (namecomp_sound ks cs rest)

-- The comparison answers 0 exactly if the other name is the key or the key with a version.
pub namecomp-eq_iff : (key name : List ℕ) → (namecomp key name ≡ Ordering.eq) ↔ IsVersionOf key name
namecomp-eq_iff key name = (namecomp_sound key name, back)
  where
    back : IsVersionOf key name → namecomp key name ≡ Ordering.eq
    back (inl e) = rw e (namecomp_refl key)
    back (inr (v, e)) = rw e (namecomp-version key v)

-- So the comparison is no order where versions occur: a name and a version of it compare equal one
-- way round and different the other way round.
pub namecomp_asymmetric :
    (key v : List ℕ)
    → (namecomp key (key ++ version_separator ∷ v) ≡ Ordering.eq)
      × (namecomp (key ++ version_separator ∷ v) key ≡ Ordering.gt)
unfolding namecomp
namecomp_asymmetric key v = (namecomp-version key v, longer key)
  where
    longer : (ks : List ℕ) → namecomp (ks ++ version_separator ∷ v) ks ≡ Ordering.gt
    longer [] = refl
    longer (k ∷ ks) = ground (arith, longer ks)
