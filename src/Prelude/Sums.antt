-- ===== src/Prelude/Sums.antt =====
-- Sums over lists: how often something stands in a list of slots, and how much work is left.
use ai_fs.Prelude.Lists.{replicate, length, get_elem?, set}
use Prim.Native.Nat.{ℕ, zero, suc, ◌+◌, ◌≤◌, ◌<◌}
use mathlib.Core.Path.{◌≡◌, refl}
use mathlib.Core.List.{List, [], ◌∷◌, ◌++◌}
use mathlib.Core.Option.{some}
use native.Mathlib.Omega.{arith}
use native.Mathlib.Decide.{dec_lt}

module _ {A : Type 0} (f : A → ℕ) where
  abbrev pub sum : List A → ℕ
  sum [] = 0
  sum (x ∷ xs) = f x + sum xs

  pub sum-append : (xs ys : List A) → sum (xs ++ ys) ≡ sum xs + sum ys
  sum-append [] ys = omega arith
  sum-append (x ∷ xs) ys = omega (arith, sum-append xs ys)

  -- A write in place takes the old value out and puts the new one in.
  pub sum-set :
      (xs : List A) (k : ℕ) (old new : A)
      → get_elem? xs k ≡ some old
      → sum (set xs k new) + f old ≡ sum xs + f new
  sum-set [] k old new h = ground arith
  sum-set (x ∷ xs) zero old new h = ground arith
  sum-set (x ∷ xs) (suc k) old new h = omega (arith, sum-set xs k old new h)

  -- A sum that is not 0 has a part that is not 0.
  pub sum-pos :
      (xs : List A) → 0 < sum xs → (k : ℕ) × ((x : A) × (get_elem? xs k ≡ some x) × (0 < f x))
  sum-pos [] h = absurd (omega arith)
  sum-pos (x ∷ xs) h = elim (dec_lt 0 (f x)) [
    | yes p ↦ (0, (x, refl, p))
    | no p ↦ let (k, (y, e, q)) = sum-pos xs (omega arith) in (suc k, (y, e, q))
  ]

  pub sum_none : (xs : List A) → ((x : A) → f x ≡ 0) → sum xs ≡ 0
  sum_none [] h = refl
  sum_none (x ∷ xs) h = omega (arith, h x, sum_none xs h)

  pub sum-replicate : (n : ℕ) (a : A) → f a ≡ 0 → sum (replicate n a) ≡ 0
  sum-replicate zero a h = refl
  sum-replicate (suc n) a h = omega (arith, sum-replicate n a h)

  pub sum-le-length : (xs : List A) → ((x : A) → f x ≤ 1) → sum xs ≤ length xs
  sum-le-length [] h = omega arith
  sum-le-length (x ∷ xs) h = omega (arith, h x, sum-le-length xs h)

pub sum-le : {A : Type 0} (f g : A → ℕ) (xs : List A) → ((x : A) → f x ≤ g x) → sum f xs ≤ sum g xs
sum-le f g [] h = omega arith
sum-le f g (x ∷ xs) h = omega (arith, h x, sum-le f g xs h)
