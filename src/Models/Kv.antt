-- ===== src/Models/Kv.antt =====
-- models/kv.go: the sequential model of one key, to which the histories of the service are held.
-- An operation of a history is of the checker's own; only its input and its output are read.
use Prim.Native.String.{◌++◌ as concat}
use ai_fs.Prelude.{ℕ, String, Bool, true, if◌then◌else◌, none, some, List, [], ◌∷◌, ◌++◌, map}
use ai_fs.Prelude.Dict.{◌==◌, nat_eq, Dict, string_eq, lookup, insert}

-- `op` is 0 for a get, 1 for a put, 2 for an append.
pub record KvInput : Type 0 where
  pub op : ℕ
  pub key : String
  pub value : String

pub record KvOutput : Type 0 where
  pub value : String

abbrev pub init : String
init = ""

unfoldable pub step : (state : String) → KvInput → KvOutput → Bool × String
step state inp out =
    if inp.op == 0
    then (out.value == state, state)
    else if inp.op == 1
    then (true, inp.value)
    else (true, concat state inp.value)

-- `format` is `fmt.Sprintf`, of a format and its arguments.
unfoldable pub describe_operation :
    (format : String → List String → String) → KvInput → KvOutput → String
describe_operation format inp out =
    if inp.op == 0
    then format "get('%s') -> '%s'" (inp.key ∷ out.value ∷ [])
    else if inp.op == 1
    then format "put('%s', '%s')" (inp.key ∷ inp.value ∷ [])
    else if inp.op == 2
    then format "append('%s', '%s')" (inp.key ∷ inp.value ∷ [])
    else "<invalid>"

module _ {O : Type 0} (input : O → KvInput) where
  -- `m[key]`, where a missing key has the empty slice.
  abbrev pub part_at : String → Dict String (List O) → List O
  part_at key m = elim (lookup key m) [ none ↦ [] | some vs ↦ vs ]

  -- The first loop: the operations of each key, in their order.
  unfoldable pub by_key : List O → Dict String (List O) → Dict String (List O)
  by_key [] m = m
  by_key (v ∷ history) m =
      let key = (input v).key in by_key history (insert key (part_at key m ++ (v ∷ [])) m)

  -- `range_keys` is Go's order of a map's keys, and `sort_strings` is `sort.Strings`.
  unfoldable pub partition :
      (range_keys : Dict String (List O) → List String) (sort_strings : List String → List String)
      → List O
      → List (List O)
  unfolding by_key
  partition range_keys sort_strings history =
      let m = by_key history [] in map (λ k. part_at k m) (sort_strings (range_keys m))
