-- ===== src/Kvraft/StateMachine.antt =====
-- kvraft/server.go: the handlers of the state machine, and the application of one command.
use Prim.Native.String.{◌++◌ as concat}
use ai_fs.Prelude.{ℕ, String, leb, if◌then◌else◌, Option, none, some}
use ai_fs.Prelude.Dict.{◌==◌, string_eq, nat_eq, lookup, insert, delete}
use ai_fs.Kvraft.Common.{Op, OpReply, no_reply, ok, err_no_key, Store, Records, Tables}

unfoldable pub get_handler : Op → Store → Store × OpReply
get_handler cmd store = (
  store,
  elim (lookup cmd.key store) [
    | some val ↦ record { err = ok; value = val }
    | none ↦ record { err = err_no_key; value = "" }
  ],
)

unfoldable pub put_handler : Op → Store → Store × OpReply
put_handler cmd store = (insert cmd.key cmd.value store, record { err = ok; value = "" })

unfoldable pub delete_handler : Op → Store → Store × OpReply
delete_handler cmd store = (delete cmd.key store, record { err = ok; value = "" })

-- A missing key reads as the empty text.
unfoldable pub text_at : String → Store → String
text_at key store = elim (lookup key store) [ none ↦ "" | some v ↦ v ]

unfoldable pub append_handler : Op → Store → Store × OpReply
unfolding text_at
append_handler cmd store = (
  insert cmd.key (concat (text_at cmd.key store) cmd.value) store,
  record { err = ok; value = "" },
)

unfoldable pub apply_to_state_machine : Op → Store → Store × OpReply
unfolding get_handler put_handler append_handler delete_handler
apply_to_state_machine cmd store =
    if cmd.op == "Get"
    then get_handler cmd store
    else if cmd.op == "Put"
    then put_handler cmd store
    else if cmd.op == "Append"
    then append_handler cmd store
    else if cmd.op == "Delete"
    then delete_handler cmd store
    else (store, no_reply)

-- `record, ok := kv.recordMap[id]; ok && record.LastSeqId >= seq`
unfoldable pub recorded : (client_id seq_id : ℕ) → Records → Option OpReply
recorded client_id seq_id records = elim (lookup client_id records) [
  | none ↦ none
  | some r ↦ if leb seq_id r.last_seq_id then some r.last_reply else none
]

-- The part of `applier` between the look at `recordMap` and its update.
unfoldable pub apply_command : Op → Tables → Tables × OpReply
unfolding recorded
apply_command cmd t =
    let (store, reply) : Store × OpReply = elim (recorded cmd.client_id cmd.seq_id t.record_map) [
      | some r ↦ (t.kv_store, r)
      | none ↦ apply_to_state_machine cmd t.kv_store
    ] in
    (
      record {
        kv_store = store;
        record_map =
            insert cmd.client_id (record { last_seq_id = cmd.seq_id; last_reply = reply })
              t.record_map;
      },
      reply,
    )
