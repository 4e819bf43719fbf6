-- ===== src/Prelude/Texts.antt =====
-- Texts as lists of numbers, and back: what a concrete encoding of texts needs.
use Prim.Native.Nat.{Ordering, compare}
use Prim.Native.Char.{Char, char, code, IsLt}
use Prim.Native.String as Text
use ai_fs.Prelude.{ℕ, ◌≡◌, refl, String, Option, none, some, List, [], ◌∷◌, arith}

-- The clauses of the built-in module, by which a number is a character.
abbrev Both : Ordering → Ordering → Type 0
Both Ordering.lt o = IsLt o
Both Ordering.eq _ = ⊥
Both Ordering.gt _ = ⊥

abbrev Scalar : Ordering → Ordering → Ordering → Type 0
Scalar Ordering.lt _ _ = Unit
Scalar Ordering.eq o p = Both o p
Scalar Ordering.gt o p = Both o p

lt? : (o : Ordering) → Option (IsLt o)
lt? Ordering.lt = some tt
lt? Ordering.eq = none
lt? Ordering.gt = none

both? : (o p : Ordering) → Option (Both o p)
both? Ordering.lt p = lt? p
both? Ordering.eq _ = none
both? Ordering.gt _ = none

scalar? : (o p q : Ordering) → Option (Scalar o p q)
scalar? Ordering.lt _ _ = some tt
scalar? Ordering.eq p q = both? p q
scalar? Ordering.gt p q = both? p q

lt?-some : (o : Ordering) (x : IsLt o) → lt? o ≡ some x
unfolding lt?
lt?-some Ordering.lt x = refl
lt?-some Ordering.eq x = absurd x
lt?-some Ordering.gt x = absurd x

both?-some : (o p : Ordering) (x : Both o p) → both? o p ≡ some x
unfolding both?
both?-some Ordering.lt p x = lt?-some p x
both?-some Ordering.eq p x = absurd x
both?-some Ordering.gt p x = absurd x

scalar?-some : (o p q : Ordering) (x : Scalar o p q) → scalar? o p q ≡ some x
unfolding scalar?
scalar?-some Ordering.lt p q x = refl
scalar?-some Ordering.eq p q x = both?-some p q x
scalar?-some Ordering.gt p q x = both?-some p q x

pub to_char : ℕ → Option Char
to_char n = elim (scalar? (compare n 55296) (compare 57343 n) (compare n 1114112)) [
  | none ↦ none
  | some p ↦ some (char n p)
]

to_char-code : (c : Char) → to_char (code c) ≡ some c
unfolding to_char
to_char-code (char n p) =
    ground (arith, scalar?-some (compare n 55296) (compare 57343 n) (compare n 1114112) p)

pub codes : String → List ℕ
codes Text.[] = []
codes (Text.◌∷◌ c s) = code c ∷ codes s

pub to_text : List ℕ → Option String
to_text [] = some Text.[]
to_text (n ∷ ns) = elim (to_char n) [
  | none ↦ none
  | some c ↦ elim (to_text ns) [ none ↦ none | some s ↦ some (Text.◌∷◌ c s) ]
]

pub to_text-codes : (s : String) → to_text (codes s) ≡ some s
unfolding to_text codes
to_text-codes Text.[] = refl
to_text-codes (Text.◌∷◌ c s) = ground (arith, to_char-code c, to_text-codes s)
