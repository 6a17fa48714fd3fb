-- ===== src/Base/Lists.antt =====
-- Arrays as lists with native indices, and predicates on all their elements.
use Prim.Native.Nat.{ℕ, zero, suc, ◌+◌, ◌<◌, min}
use mathlib.Core.Path.{◌≡◌, refl, ap}
use mathlib.Core.Logic.{◌≢◌}
use mathlib.Core.List.{List, [], ◌∷◌, ◌++◌}
use mathlib.Core.Option.{Option, none, some}
use native.Mathlib.Omega.{arith}

module _ {ℓ} {A : Type ℓ} where
  abbrev pub length : List A → ℕ
  length [] = 0
  length (x ∷ xs) = suc (length xs)

  abbrev pub get_elem? : List A → ℕ → Option A
  get_elem? [] i = none
  get_elem? (x ∷ xs) zero = some x
  get_elem? (x ∷ xs) (suc i) = get_elem? xs i

  abbrev pub get_or : List A → ℕ → A → A
  get_or [] i d = d
  get_or (x ∷ xs) zero d = x
  get_or (x ∷ xs) (suc i) d = get_or xs i d

  abbrev pub set : List A → ℕ → A → List A
  set [] i v = []
  set (x ∷ xs) zero v = v ∷ xs
  set (x ∷ xs) (suc i) v = x ∷ set xs i v

  abbrev pub take : ℕ → List A → List A
  take zero xs = []
  take (suc n) [] = []
  take (suc n) (x ∷ xs) = x ∷ take n xs

  abbrev pub drop : ℕ → List A → List A
  drop zero xs = xs
  drop (suc n) [] = []
  drop (suc n) (x ∷ xs) = drop n xs

  abbrev pub replicate : ℕ → A → List A
  replicate zero a = []
  replicate (suc n) a = a ∷ replicate n a

  pub length-append : (xs ys : List A) → length (xs ++ ys) ≡ length xs + length ys
  length-append [] ys = omega arith
  length-append (x ∷ xs) ys = omega (arith, length-append xs ys)

  pub length-set : (xs : List A) (i : ℕ) (v : A) → length (set xs i v) ≡ length xs
  length-set [] i v = refl
  length-set (x ∷ xs) zero v = refl
  length-set (x ∷ xs) (suc i) v = ap suc (length-set xs i v)

  pub length-replicate : (n : ℕ) (a : A) → length (replicate n a) ≡ n
  length-replicate zero a = refl
  length-replicate (suc n) a = ap suc (length-replicate n a)

  pub length-take : (n : ℕ) (xs : List A) → length (take n xs) ≡ min n (length xs)
  length-take zero xs = omega arith
  length-take (suc n) [] = omega arith
  length-take (suc n) (x ∷ xs) = omega (arith, length-take n xs)

  pub get_or-set_self :
      (xs : List A) (i : ℕ) (v d : A) → i < length xs → get_or (set xs i v) i d ≡ v
  get_or-set_self [] i v d h = absurd (omega arith)
  get_or-set_self (x ∷ xs) zero v d h = refl
  get_or-set_self (x ∷ xs) (suc i) v d h = get_or-set_self xs i v d (omega arith)

  pub get_or-set_ne :
      (xs : List A) (i j : ℕ) (v d : A) → i ≢ j → get_or (set xs i v) j d ≡ get_or xs j d
  get_or-set_ne [] i j v d h = refl
  get_or-set_ne (x ∷ xs) zero zero v d h = absurd (h refl)
  get_or-set_ne (x ∷ xs) zero (suc j) v d h = refl
  get_or-set_ne (x ∷ xs) (suc i) zero v d h = refl
  get_or-set_ne (x ∷ xs) (suc i) (suc j) v d h = get_or-set_ne xs i j v d (λ e. h (ap suc e))

  pub set-set : (xs : List A) (i : ℕ) (v w : A) → set (set xs i v) i w ≡ set xs i w
  set-set [] i v w = refl
  set-set (x ∷ xs) zero v w = refl
  set-set (x ∷ xs) (suc i) v w = ap (λ r. x ∷ r) (set-set xs i v w)

  pub set-get_or : (xs : List A) (i : ℕ) (d : A) → set xs i (get_or xs i d) ≡ xs
  set-get_or [] i d = refl
  set-get_or (x ∷ xs) zero d = refl
  set-get_or (x ∷ xs) (suc i) d = ap (λ r. x ∷ r) (set-get_or xs i d)

  pub take-length : (xs : List A) → take (length xs) xs ≡ xs
  take-length [] = refl
  take-length (x ∷ xs) = ap (λ r. x ∷ r) (take-length xs)

module _ {ℓ κ} {A : Type ℓ} (P : A → Type κ) where
  abbrev pub All : List A → Type κ
  All [] = Unit
  All (x ∷ xs) = P x × All xs

  pub All-set : (xs : List A) (i : ℕ) (v : A) → All xs → P v → All (set xs i v)
  All-set [] i v h p = tt
  All-set (x ∷ xs) zero v h p = (p, h.1)
  All-set (x ∷ xs) (suc i) v h p = (h.0, All-set xs i v h.1 p)

  pub All-get_or : (xs : List A) (i : ℕ) (d : A) → All xs → P d → P (get_or xs i d)
  All-get_or [] i d h p = p
  All-get_or (x ∷ xs) zero d h p = h.0
  All-get_or (x ∷ xs) (suc i) d h p = All-get_or xs i d h.1 p

  pub All-replicate : (n : ℕ) (a : A) → P a → All (replicate n a)
  All-replicate zero a p = tt
  All-replicate (suc n) a p = (p, All-replicate n a p)
