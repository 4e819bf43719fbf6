-- ===== src/Kvraft/Spec.antt =====
-- What the service promises of its store: a map from keys to texts, whatever its representation.
use Prim.Native.String.{◌++◌ as concat}
use ai_fs.Prelude.{
  String, ◌≡◌, refl, if◌then◌else◌, Option, none, some, Bool-cases, inl, inr, arith,
}
use ai_fs.Prelude.Dict.{◌==◌, string_eq, lookup, lookup-insert, lookup-delete}
use ai_fs.Kvraft.Common.{Op, OpReply, no_reply, ok, err_no_key, Store}
use ai_fs.Kvraft.StateMachine.{apply_to_state_machine}

abbrev pub View : Type 0
View = String → Option String

abbrev pub view : Store → View
view store key = lookup key store

abbrev pub assign : String → Option String → View → View
assign key v m j = if key == j then v else m j

-- A missing key reads as the empty text.
abbrev pub text_of : Option String → String
text_of none = ""
text_of (some v) = v

-- The operations of the service, and no others.
abbrev pub spec_view : Op → View → View
spec_view cmd m =
    if cmd.op == "Get"
    then m
    else if cmd.op == "Put"
    then assign cmd.key (some cmd.value) m
    else if cmd.op == "Append"
    then assign cmd.key (some (concat (text_of (m cmd.key)) cmd.value)) m
    else if cmd.op == "Delete"
    then assign cmd.key none m
    else m

abbrev pub spec_reply : Op → View → OpReply
spec_reply cmd m =
    if cmd.op == "Get"
    then (elim (m cmd.key) [
      | none ↦ record { err = err_no_key; value = "" }
      | some v ↦ record { err = ok; value = v }
    ])
    else if cmd.op == "Put"
    then record { err = ok; value = "" }
    else if cmd.op == "Append"
    then record { err = ok; value = "" }
    else if cmd.op == "Delete"
    then record { err = ok; value = "" }
    else no_reply

-- The state machine refines the map: at every key the store after a command is what the map
-- says, and the reply is the map's.
pub state_machine_refines :
    (cmd : Op) (store : Store) (j : String)
    → (view (apply_to_state_machine cmd store).0 j ≡ spec_view cmd (view store) j)
      × ((apply_to_state_machine cmd store).1 ≡ spec_reply cmd (view store))
unfolding apply_to_state_machine
state_machine_refines cmd store j = elim (Bool-cases (cmd.op == "Get")) [
  | inl get ↦ rw get (refl, ground arith)
  | inr get ↦ elim (Bool-cases (cmd.op == "Put")) [
    | inl put ↦ ground (arith, lookup-insert cmd.key j cmd.value store)
    | inr put ↦ elim (Bool-cases (cmd.op == "Append")) [
      | inl append ↦
          ground (
            arith,
            lookup-insert cmd.key j (concat (text_of (lookup cmd.key store)) cmd.value) store,
          )
      | inr append ↦ ground (arith, lookup-delete cmd.key j store)
    ]
  ]
]
