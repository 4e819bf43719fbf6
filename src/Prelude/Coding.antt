-- ===== src/Prelude/Coding.antt =====
-- Encodings of data as lists of numbers that can be read back from the front of a longer list.
use mathlib.Core.List.{append_assoc}
use ai_fs.Prelude.{
  ℕ, zero, suc, ◌≡◌, refl, String, Option, none, some, List, [], ◌∷◌, ◌++◌, length, ◌>>=◌,
}
use ai_fs.Prelude.Texts.{codes, to_text, to_text-codes}

pub record Coding (A : Type 0) : Type 0 where
  pub put : A → List ℕ
  pub get : List ℕ → Option (A × List ℕ)
  pub get-put : (a : A) (rest : List ℕ) → get (put a ++ rest) ≡ some (a, rest)

get_number : List ℕ → Option (ℕ × List ℕ)
get_number [] = none
get_number (n ∷ rest) = some (n, rest)

get_number-put : (n : ℕ) (rest : List ℕ) → get_number ((n ∷ []) ++ rest) ≡ some (n, rest)
unfolding get_number
get_number-put n rest = refl

pub numbers : Coding ℕ
numbers = record { put = λ n. n ∷ []; get = get_number; get-put = get_number-put }

module _ {A : Type 0} {B : Type 0} (a : Coding A) (b : Coding B) where
  put_pair : A × B → List ℕ
  put_pair (x, y) = a.put x ++ b.put y

  get_pair : List ℕ → Option ((A × B) × List ℕ)
  get_pair ns = do (x, ms) ← a.get ns; (y, rest) ← b.get ms; some ((x, y), rest)

  get_pair-put : (p : A × B) (rest : List ℕ) → get_pair (put_pair p ++ rest) ≡ some (p, rest)
  unfolding get_pair put_pair
  get_pair-put (x, y) rest =
      rw (append_assoc (a.put x) (b.put y) rest, a.get-put x (b.put y ++ rest), b.get-put y rest)
        refl

  pub pairs : Coding (A × B)
  pairs = record { put = put_pair; get = get_pair; get-put = get_pair-put }

module _ {A : Type 0} (a : Coding A) where
  put_all : List A → List ℕ
  put_all [] = []
  put_all (x ∷ xs) = a.put x ++ put_all xs

  get_all : ℕ → List ℕ → Option (List A × List ℕ)
  get_all zero ns = some ([], ns)
  get_all (suc k) ns = do (x, ms) ← a.get ns; (xs, rest) ← get_all k ms; some (x ∷ xs, rest)

  get_all-put :
      (xs : List A) (rest : List ℕ) → get_all (length xs) (put_all xs ++ rest) ≡ some (xs, rest)
  unfolding get_all put_all
  get_all-put [] rest = refl
  get_all-put (x ∷ xs) rest =
      rw
        (
          append_assoc (a.put x) (put_all xs) rest,
          a.get-put x (put_all xs ++ rest),
          get_all-put xs rest,
        )
        refl

  get_list : List ℕ → Option (List A × List ℕ)
  get_list [] = none
  get_list (k ∷ ns) = get_all k ns

  get_list-put :
      (xs : List A) (rest : List ℕ) → get_list ((length xs ∷ put_all xs) ++ rest) ≡ some (xs, rest)
  unfolding get_list
  get_list-put xs rest = get_all-put xs rest

  pub lists : Coding (List A)
  lists = record { put = λ xs. length xs ∷ put_all xs; get = get_list; get-put = get_list-put }

-- Data of `B` by way of `A`.
module _ {A : Type 0} {B : Type 0} (a : Coding A) (to : B → A) (back : A → Option B)
    (back-to : (b : B) → back (to b) ≡ some b) where
  get_by : List ℕ → Option (B × List ℕ)
  get_by ns = do (x, rest) ← a.get ns; b ← back x; some (b, rest)

  get_by-put : (b : B) (rest : List ℕ) → get_by (a.put (to b) ++ rest) ≡ some (b, rest)
  unfolding get_by
  get_by-put b rest = rw (a.get-put (to b) rest, back-to b) refl

  pub by_way : Coding B
  by_way = record { put = λ b. a.put (to b); get = get_by; get-put = get_by-put }

pub texts : Coding String
texts = by_way (lists numbers) codes to_text to_text-codes

option_list : {A : Type 0} → Option A → List A
option_list none = []
option_list (some a) = a ∷ []

list_option : {A : Type 0} → List A → Option (Option A)
list_option [] = some none
list_option (a ∷ _) = some (some a)

list_option-option_list : {A : Type 0} (o : Option A) → list_option (option_list o) ≡ some o
unfolding list_option option_list
list_option-option_list none = refl
list_option-option_list (some a) = refl

pub options : {A : Type 0} → Coding A → Coding (Option A)
options a = by_way (lists a) option_list list_option list_option-option_list
