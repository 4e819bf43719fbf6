-- ===== src/Kvraft/Common.antt =====
-- kvraft/common.go and the types of kvraft/server.go: errors, commands, replies and records.
use ai_fs.Prelude.{ℕ, String, Bool, Option}
use ai_fs.Prelude.Dict.{Dict}
use ai_fs.Raft.State.{Raft}

-- `type Err string`, with its constants.
abbrev pub Err : Type 0
Err = String

abbrev pub ok : Err
ok = "OK"

abbrev pub err_no_key : Err
err_no_key = "ErrNoKey"

abbrev pub err_wrong_leader : Err
err_wrong_leader = "ErrWrongLeader"

abbrev pub err_time_out : Err
err_time_out = "ErrTimeOut"

abbrev pub err_bad_request : Err
err_bad_request = "ErrBadRequest"

-- A command. `op` is the field `Type`.
pub record Op : Type 0 where
  pub op : String
  pub key : String
  pub value : String
  pub seq_id : ℕ
  pub client_id : ℕ

pub record OpReply : Type 0 where
  pub err : Err
  pub value : String

-- `OpReply{}`
abbrev pub no_reply : OpReply
no_reply = record { err = ""; value = "" }

pub record LastOpRecord : Type 0 where
  pub last_seq_id : ℕ
  pub last_reply : OpReply

abbrev pub Store : Type 0
Store = Dict String String

abbrev pub Records : Type 0
Records = Dict ℕ LastOpRecord

-- What a snapshot holds.
pub record Tables : Type 0 where
  pub kv_store : Store
  pub record_map : Records

-- `max_raft_state` is `none` for -1. A channel of `notify_chans` has room for one reply: it holds
-- `none` until the reply is sent.
pub record KvServer : Type 0 where
  pub me : ℕ
  pub rf : Raft Op
  pub notify_chans : Dict ℕ (Option OpReply)
  pub dead : Bool
  pub max_raft_state : Option ℕ
  pub commit_index : ℕ
  pub leader_id : ℕ
  pub kv_store : Store
  pub record_map : Records
  pub http_seq : ℕ
