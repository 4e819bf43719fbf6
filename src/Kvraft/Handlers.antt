-- ===== src/Kvraft/Handlers.antt =====
-- kvraft/server.go: the RPC handlers `Get`, `PutAppend` and `Delete`, in the parts between which
-- they release the lock, and `waitApplied`.
use ai_fs.Prelude.{ℕ, String, Bool, not, ◌||◌, if◌then◌else◌, Option, none, some}
use ai_fs.Prelude.Dict.{◌==◌, nat_eq, string_eq, insert, delete}
use ai_fs.Raft.State.{Raft, Codec, Persistent, is_leader}
use ai_fs.Raft.Replication
use ai_fs.Kvraft.Common.{Err, ok, err_wrong_leader, err_time_out, Op, OpReply, no_reply, KvServer}
use ai_fs.Kvraft.StateMachine.{recorded}

pub record GetArgs : Type 0 where
  pub key : String
  pub seq_id : ℕ
  pub client_id : ℕ

pub record PutAppendArgs : Type 0 where
  pub key : String
  pub value : String
  pub op : String
  pub seq_id : ℕ
  pub client_id : ℕ

pub record DeleteArgs : Type 0 where
  pub key : String
  pub seq_id : ℕ
  pub client_id : ℕ

-- `GetReply`; the replies of the other two have no `value`, which stays empty here.
pub record Reply : Type 0 where
  pub err : Err
  pub value : String
  pub leader_id : ℕ

abbrev pub zero_reply : Reply
zero_reply = record { err = ""; value = ""; leader_id = 0 }

-- How the first part of a handler ends.
pub data Begun : Type 0 where
  killed : Begun
  known : OpReply → Begun  -- the answer stands in `recordMap`
  not_leader : (leader_id : ℕ) → Begun
  waiting : (index start_term : ℕ) → Begun

unfoldable pub get_command : GetArgs → Op
get_command a = record {
  op = "Get";
  key = a.key;
  value = "";
  seq_id = a.seq_id;
  client_id = a.client_id;
}

unfoldable pub put_append_command : PutAppendArgs → Op
put_append_command a = record {
  op = a.op;
  key = a.key;
  value = a.value;
  seq_id = a.seq_id;
  client_id = a.client_id;
}

unfoldable pub delete_command : DeleteArgs → Op
delete_command a = record {
  op = "Delete";
  key = a.key;
  value = "";
  seq_id = a.seq_id;
  client_id = a.client_id;
}

-- The first part, up to `Start`, which the three handlers share.
unfoldable pub begin : Codec (Persistent Op) → Op → KvServer → KvServer × Begun
unfolding recorded
begin codec command kv =
    if kv.dead
    then (kv, killed)
    else elim (recorded command.client_id command.seq_id kv.record_map) [
      | some reply ↦ (kv, known reply)
      | none ↦
          let (rf, started) = Replication.start codec (some command) kv.rf in
          elim started [
            | none ↦ (kv, not_leader kv.leader_id)
            | some (index, start_term) ↦ (record kv { rf = rf }, waiting index start_term)
          ]
    ]

-- The first part of `waitApplied`: the channel for the reply.
unfoldable pub register : (index : ℕ) → KvServer → KvServer
register index kv = record kv { notify_chans = insert index none kv.notify_chans }

-- The `select` of `waitApplied`: what came first is `some` reply, or `none` for the time-out.
unfoldable pub wait_applied : (start_term : ℕ) → Option OpReply → Raft Op → OpReply × Err
wait_applied start_term none rf = (no_reply, err_time_out)
wait_applied start_term (some reply) rf =
    if not (is_leader rf) || not (rf.curr_term == start_term)
    then (reply, err_wrong_leader)
    else (reply, ok)

-- The last part, with what `waitApplied` returned. `with_value` tells `Get` from the others.
unfoldable pub finish :
    (with_value : Bool) (index : ℕ) → OpReply × Err → KvServer → KvServer × Reply
finish with_value index (reply, err) kv =
    let kv' : KvServer = record kv { notify_chans = delete index kv.notify_chans } in
    if err == ok
    then (
      record kv' { leader_id = kv.me },
      record zero_reply { err = reply.err; value = (if with_value then reply.value else "") },
    )
    else (kv', record zero_reply { err = err })

-- The reply of a handler that does not wait.
unfoldable pub early_reply : (with_value : Bool) → Begun → Option Reply
early_reply with_value killed = some zero_reply
early_reply with_value (known r) =
    some (record zero_reply { err = r.err; value = (if with_value then r.value else "") })
early_reply with_value (not_leader id) =
    some (record zero_reply { err = err_wrong_leader; leader_id = id })
early_reply with_value (waiting _ _) = none
