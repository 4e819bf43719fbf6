-- ===== src/Kvraft/LegalTests.antt =====
-- A history of two keys.
use ai_fs.Prelude.{String, ◌≡◌, refl, inl, inr, some, List, [], ◌∷◌, map, Among, arith, Bool-cases}
use ai_fs.Prelude.Dict.{Dict, ◌==◌, string_eq, lookup}
use ai_fs.Models.Kv.{init, partition}
use ai_fs.Kvraft.Common.{Op}
use ai_fs.Kvraft.Legal.{Served, IsLegal, history, model_accepts_service}

abbrev put_a : Op
put_a = record { op = "Put"; key = "a"; value = "x"; seq_id = 1; client_id = 1 }

abbrev append_b : Op
append_b = record { op = "Append"; key = "b"; value = "y"; seq_id = 2; client_id = 1 }

abbrev get_a : Op
get_a = record { op = "Get"; key = "a"; value = ""; seq_id = 3; client_id = 1 }

abbrev cmds : List Op
cmds = put_a ∷ append_b ∷ get_a ∷ []

abbrev keys : Dict String (List Served) → List String
keys m = map (λ p. p.0) m

-- The keys come in order here.
abbrev in_order : List String → List String
in_order ks = ks

keys_hold :
    (m : Dict String (List Served)) (k : String) (vs : List Served)
    → lookup k m ≡ some vs
    → Among k (keys m)
unfolding lookup
keys_hold [] k vs h = ground arith
keys_hold ((k', found) ∷ m) k vs h = elim (Bool-cases (k' == k)) [
  | inl same ↦ inl ((string_eq.same_key k' k).0 same)
  | inr other ↦ inr (keys_hold m k vs (rw other at h))
]

model_accepts_service_example :
    ((part : List Served)
      → Among part (partition (λ v. v.0) keys in_order (history cmds []))
      → IsLegal init part)
    × ((v : Served)
        → Among v (history cmds [])
        → (part : List Served) × Among part (partition (λ v. v.0) keys in_order (history cmds []))
          × Among v part)
model_accepts_service_example =
    model_accepts_service keys in_order keys_hold (λ ks k m. m) cmds
      (inr (inl refl), (inr (inr refl), (inl refl, tt)))
