-- ===== src/Lock/Total.antt =====
-- Sums over the threads that share a lock of cexplock.h.
use rtems_hzb_cexpsh.Base.{
  ℕ, zero, suc, ◌+◌, ◌≤◌, ◌<◌, ◌≡◌, ◌≢◌, refl, List, [], ◌∷◌, length, get_or, set, ap, arith,
}

module _ {ℓ} {A : Type ℓ} where
  abbrev pub total : (A → ℕ) → List A → ℕ
  total f [] = 0
  total f (x ∷ xs) = f x + total f xs

  pub total-set :
      (f : A → ℕ) (xs : List A) (i : ℕ) (v d : A)
      → i < length xs
      → total f (set xs i v) + f (get_or xs i d) ≡ total f xs + f v
  total-set f [] i v d h = absurd (omega arith)
  total-set f (x ∷ xs) zero v d h = omega arith
  total-set f (x ∷ xs) (suc i) v d h = omega (arith, total-set f xs i v d (omega arith))

  pub total-one :
      (f : A → ℕ) (xs : List A) (i : ℕ) (d : A) → f d ≡ 0 → f (get_or xs i d) ≤ total f xs
  total-one f [] i d z = omega arith
  total-one f (x ∷ xs) zero d z = omega arith
  total-one f (x ∷ xs) (suc i) d z = omega (arith, total-one f xs i d z)

  pub total-two :
      (f : A → ℕ) (xs : List A) (i j : ℕ) (d : A)
      → f d ≡ 0
      → i ≢ j
      → f (get_or xs i d) + f (get_or xs j d) ≤ total f xs
  total-two f [] i j d z h = omega arith
  total-two f (x ∷ xs) zero zero d z h = absurd (h refl)
  total-two f (x ∷ xs) zero (suc j) d z h = omega (arith, total-one f xs j d z)
  total-two f (x ∷ xs) (suc i) zero d z h = omega (arith, total-one f xs i d z)
  total-two f (x ∷ xs) (suc i) (suc j) d z h =
      omega (arith, total-two f xs i j d z (λ e. h (ap suc e)))

module _ {ℓ} {A : Type ℓ} where
  pub get_or-set_self :
      (xs : List A) (i : ℕ) (v d : A) → i < length xs → get_or (set xs i v) i d ≡ v
  get_or-set_self [] i v d h = absurd (omega arith)
  get_or-set_self (x ∷ xs) zero v d h = refl
  get_or-set_self (x ∷ xs) (suc i) v d h = get_or-set_self xs i v d (omega arith)

  pub get_or-set_ne :
      (xs : List A) (i j : ℕ) (v d : A) → i ≢ j → get_or (set xs i v) j d ≡ get_or xs j d
  get_or-set_ne [] i j v d h = refl
  get_or-set_ne (x ∷ xs) zero zero v d h = absurd (h refl)
  get_or-set_ne (x ∷ xs) zero (suc j) v d h = refl
  get_or-set_ne (x ∷ xs) (suc i) zero v d h = refl
  get_or-set_ne (x ∷ xs) (suc i) (suc j) v d h = get_or-set_ne xs i j v d (λ e. h (ap suc e))
