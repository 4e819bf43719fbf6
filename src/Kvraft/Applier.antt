-- ===== src/Kvraft/Applier.antt =====
-- kvraft/server.go: `applier`, `restoreSnapshot`, `StartKVServer` and `Kill`.
use ai_fs.Prelude.{
  ℕ, ltb, if◌then◌else◌, false, true, Option, none, some, List, [], ◌∷◌, length, ◌>>=◌,
}
use ai_fs.Prelude.Dict.{Dict, nat_eq, lookup, insert}
use ai_fs.Raft.Persister.{Bytes, Persister, raft_state_size, read_snapshot}
use ai_fs.Raft.State.{Codec, Persistent, ApplyMsg, command_msg, snapshot_msg}
use ai_fs.Raft.Snapshots.{snapshot}
use ai_fs.Raft.Lifetime
use ai_fs.Kvraft.Common.{Op, OpReply, err_wrong_leader, Tables, KvServer}
use ai_fs.Kvraft.StateMachine.{apply_command}

abbrev pub tables : KvServer → Tables
tables kv = record { kv_store = kv.kv_store; record_map = kv.record_map }

abbrev pub with_tables : Tables → KvServer → KvServer
with_tables t kv = record kv { kv_store = t.kv_store; record_map = t.record_map }

-- The reply goes to the handler that waits at `idx`, if there is one. A channel that is full
-- blocks the applier: `none`.
unfoldable pub notify : ℕ → OpReply → KvServer → Option KvServer
notify idx reply kv = elim (lookup idx kv.notify_chans) [
  | none ↦ some kv
  | some ch ↦ elim ch [
    | none ↦ some (record kv { notify_chans = insert idx (some reply) kv.notify_chans })
    | some _ ↦ none
  ]
]

-- The channels that a send with a `default` finds full stay; the others get their reply and go.
unfoldable pub full_chans : Dict ℕ (Option OpReply) → Dict ℕ (Option OpReply)
full_chans [] = []
full_chans ((idx, none) ∷ chans) = full_chans chans
full_chans ((idx, some r) ∷ chans) = (idx, some r) ∷ full_chans chans

-- The indexes whose handlers are told `ErrWrongLeader`.
unfoldable pub open_chans : Dict ℕ (Option OpReply) → List ℕ
open_chans [] = []
open_chans ((idx, none) ∷ chans) = idx ∷ open_chans chans
open_chans ((idx, some r) ∷ chans) = open_chans chans

abbrev pub wrong_leader_reply : OpReply
wrong_leader_reply = record { err = err_wrong_leader; value = "" }

-- `raft_codec` encodes the state of the peer, `codec` a snapshot.
module _ (raft_codec : Codec (Persistent Op)) (codec : Codec Tables) where
  -- The snapshot is taken when the saved state has outgrown its limit.
  unfoldable pub take_snapshot : KvServer → Option KvServer
  unfolding raft_state_size
  take_snapshot kv = elim kv.max_raft_state [
    | none ↦ some kv
    | some limit ↦
        if ltb limit (raft_state_size kv.rf.persister)
        then (do
          rf ← snapshot raft_codec kv.commit_index (codec.encode (tables kv)) kv.rf
          some (record kv { rf = rf }))
        else some kv
  ]

  -- A message with a command. A nil command is a panic of the type assertion. The code releases the
  -- lock around `rf.Snapshot`; here nothing comes between.
  unfoldable pub handle_command : Option Op → (idx : ℕ) → KvServer → Option KvServer
  handle_command none idx kv = none
  handle_command (some cmd) idx kv = do
    let (t, reply) = apply_command cmd (tables kv)
    kv' ← take_snapshot (with_tables t (record kv { commit_index = idx }))
    notify idx reply kv'

  -- Bytes that do not decode change nothing.
  unfoldable pub restore_snapshot : Bytes → KvServer → KvServer
  restore_snapshot bytes kv = elim (codec.decode bytes) [ none ↦ kv | some t ↦ with_tables t kv ]

  -- A message with a snapshot; the indexes whose handlers are woken come back beside the server.
  unfoldable pub handle_snapshot : Bytes → (index : ℕ) → KvServer → KvServer × List ℕ
  unfolding full_chans open_chans
  handle_snapshot bytes index kv =
      if ltb kv.commit_index index
      then (
        record (restore_snapshot bytes (record kv { commit_index = index })) {
          notify_chans = full_chans kv.notify_chans;
        },
        open_chans kv.notify_chans,
      )
      else (kv, [])

  -- The loop of `applier`, over the messages of the channel.
  unfoldable pub applier : List (ApplyMsg Op) → KvServer → Option KvServer
  applier [] kv = some kv
  applier (command_msg command idx ∷ msgs) kv = do
    kv' ← handle_command command idx kv
    applier msgs kv'
  applier (snapshot_msg bytes term index ∷ msgs) kv =
      applier msgs (handle_snapshot bytes index kv).0

  unfoldable pub start_kv_server :
      (now servers me : ℕ) → Persister → (max_raft_state : Option ℕ) → KvServer
  unfolding read_snapshot
  start_kv_server now servers me persister max_raft_state =
      let kv : KvServer = record {
        me = me;
        rf = Lifetime.make raft_codec now servers me persister;
        notify_chans = [];
        dead = false;
        max_raft_state = max_raft_state;
        commit_index = 0;
        leader_id = 0;
        kv_store = [];
        record_map = [];
        http_seq = 0;
      } in
      if ltb 0 (length (read_snapshot persister))
      then restore_snapshot (read_snapshot persister) kv
      else kv

unfoldable pub kill : KvServer → KvServer
kill kv = record kv { dead = true; rf = Lifetime.kill kv.rf }
