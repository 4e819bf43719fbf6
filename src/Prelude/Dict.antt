-- ===== src/Prelude/Dict.antt =====
-- Go maps as association lists: a key stands at most once. Keys are compared by an instance.
use Prim.Native.Nat.{ℕ}
use Prim.Native.String.{String}
use mathlib.Core.Path.{◌≡◌, refl}
use mathlib.Core.Logic.{◌↔◌}
use mathlib.Core.Bool.{Bool, true}
use mathlib.Core.Option.{Option, none, some}
use mathlib.Core.List.{List, [], ◌∷◌}
use native.Mathlib.Omega.{arith}
use text.Mathlib.Text.{◌==◌ as str_eq}
use text.Mathlib.TextEquality.{eq_iff}
use ai_fs.Prelude.Tests.{if◌then◌else◌, ◌==◌ as nat_beq, ==_iff}

-- The types of keys, which Go compares by `==`.
pub record Key {ℓ} (K : Type ℓ) : Type ℓ where
  pub is_key : K → K → Bool
  pub same_key : (j k : K) → (is_key j k ≡ true) ↔ (j ≡ k)

instance abbrev pub string_eq : Key String
string_eq = record { is_key = str_eq; same_key = eq_iff }

instance abbrev pub nat_eq : Key ℕ
nat_eq = record { is_key = nat_beq; same_key = ==_iff }

infix 50 ◌==◌
abbrev pub ◌==◌ {ℓ} : {K : Type ℓ} ⦃key : Key K⦄ → K → K → Bool
◌==◌ ⦃key⦄ j k = key.is_key j k

pub ==_refl {ℓ} : {K : Type ℓ} ⦃key : Key K⦄ → (k : K) → (k == k) ≡ true
==_refl ⦃key⦄ k = (key.same_key k k).1 refl

abbrev pub Dict {ℓ κ} : Type ℓ → Type κ → Type (ℓ ⊔ κ)
Dict K V = List (K × V)

module _ {ℓ κ} {K : Type ℓ} {V : Type κ} ⦃key : Key K⦄ where
  -- `v, ok := m[k]`
  unfoldable pub lookup : K → Dict K V → Option V
  lookup k [] = none
  lookup k ((k', found) ∷ rest) = if k' == k then some found else lookup k rest

  -- `delete(m, k)`
  unfoldable pub delete : K → Dict K V → Dict K V
  delete k [] = []
  delete k ((k', v) ∷ rest) =
      let cleared = delete k rest in if k' == k then cleared else (k', v) ∷ cleared

  -- `m[k] = v`
  unfoldable pub insert : K → V → Dict K V → Dict K V
  insert k v [] = (k, v) ∷ []
  insert k v ((k', old) ∷ rest) = if k' == k then (k, v) ∷ rest else (k', old) ∷ insert k v rest

  pub lookup-insert :
      (k asked : K) (v : V) (m : Dict K V)
      → lookup asked (insert k v m) ≡ (if k == asked then some v else lookup asked m)
  unfolding lookup insert
  lookup-insert k asked v [] = refl
  lookup-insert k asked v ((k', old) ∷ rest) = ground (
    arith,
    key.same_key k asked,
    key.same_key k' k,
    key.same_key k' asked,
    lookup-insert k asked v rest,
  )

  pub lookup-delete :
      (k j : K) (m : Dict K V) → lookup j (delete k m) ≡ (if k == j then none else lookup j m)
  unfolding lookup delete
  lookup-delete k j [] = ground arith
  lookup-delete k j ((i, w) ∷ m) =
      ground (arith, key.same_key k j, key.same_key i k, key.same_key i j, lookup-delete k j m)

  pub lookup-insert_self : (k : K) (v : V) (m : Dict K V) → lookup k (insert k v m) ≡ some v
  lookup-insert_self k v m = rw (lookup-insert, ==_refl k)

  pub lookup-delete_self : (k : K) (m : Dict K V) → lookup k (delete k m) ≡ none
  lookup-delete_self k m = rw (lookup-delete, ==_refl k)

pub ruleset dict_laws = (lookup-insert, lookup-delete)
