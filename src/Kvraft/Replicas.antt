-- ===== src/Kvraft/Replicas.antt =====
-- Servers that apply the same log hold the same tables, by commands or by a snapshot.
use ai_fs.Prelude.{
  ℕ, ◌<◌, ◌≡◌, refl, sym, ap, ◌∙◌, inl, inr, none, some, Option-cases, List, [], ◌∷◌, arith,
}
use ai_fs.Raft.Persister.{Bytes}
use ai_fs.Raft.State.{Codec, Persistent, ApplyMsg, command_msg, snapshot_msg}
use ai_fs.Kvraft.Common.{Op, OpReply, Tables, KvServer}
use ai_fs.Kvraft.StateMachine.{apply_command}
use ai_fs.Kvraft.Applier.{
  tables, with_tables, notify, take_snapshot, handle_command, restore_snapshot, handle_snapshot,
  applier,
}

-- Two servers that have applied as far, with the same tables; all else may differ.
pub record Agree (a b : KvServer) : Type 0 where
  pub tables_eq : tables a ≡ tables b
  pub index_eq : a.commit_index ≡ b.commit_index

-- The tables and the index stay.
record Keeps (a b : KvServer) : Type 0 where
  tables_eq : tables b ≡ tables a
  index_eq : b.commit_index ≡ a.commit_index

notify-Keeps :
    (idx : ℕ) (reply : OpReply) (a b : KvServer) → notify idx reply a ≡ some b → Keeps a b
unfolding notify
notify-Keeps idx reply a b h = ground arith

module _ (raft_codec : Codec (Persistent Op)) (codec : Codec Tables) where
  take_snapshot-Keeps : (a b : KvServer) → take_snapshot raft_codec codec a ≡ some b → Keeps a b
  unfolding take_snapshot
  take_snapshot-Keeps a b h = ground arith

  -- A command changes the tables as `apply_command` says, whatever else the server does.
  pub tables-handle_command :
      (cmd : Op) (idx : ℕ) (kv kv' : KvServer)
      → handle_command raft_codec codec (some cmd) idx kv ≡ some kv'
      → (tables kv' ≡ (apply_command cmd (tables kv)).0) × (kv'.commit_index ≡ idx)
  unfolding handle_command
  tables-handle_command cmd idx kv kv' h =
      let (t, reply) = apply_command cmd (tables kv) in
      let mid = with_tables t (record kv { commit_index = idx }) in
      elim (Option-cases (take_snapshot raft_codec codec mid)) [
        | inl e ↦ ground arith
        | inr (s, e) ↦ ground (arith, take_snapshot-Keeps mid s e, notify-Keeps idx reply s kv')
      ]

  nil_command : (idx : ℕ) (kv : KvServer) → handle_command raft_codec codec none idx kv ≡ none
  unfolding handle_command
  nil_command idx kv = refl

  handle_command-Agree :
      (cmd : Op) (idx : ℕ) (a a' b b' : KvServer)
      → Agree a b
      → handle_command raft_codec codec (some cmd) idx a ≡ some a'
      → handle_command raft_codec codec (some cmd) idx b ≡ some b'
      → Agree a' b'
  handle_command-Agree cmd idx a a' b b' g h k =
      let (ta, ia) = tables-handle_command cmd idx a a' h in
      let (tb, ib) = tables-handle_command cmd idx b b' k in
      record {
        tables_eq = ta ∙ ap (λ t. (apply_command cmd t).0) g.tables_eq ∙ sym tb;
        index_eq = ia ∙ sym ib;
      }

  handle_snapshot-Agree :
      (bytes : Bytes) (index : ℕ) (a b : KvServer)
      → Agree a b
      → Agree
          (handle_snapshot raft_codec codec bytes index a).0
          (handle_snapshot raft_codec codec bytes index b).0
  unfolding handle_snapshot restore_snapshot
  handle_snapshot-Agree bytes index a b g = ground arith

  -- Two servers that agree and are given the same messages, commands and snapshots, agree again,
  -- if neither stops.
  pub applier-Agree :
      (msgs : List (ApplyMsg Op)) (a a' b b' : KvServer)
      → Agree a b
      → applier raft_codec codec msgs a ≡ some a'
      → applier raft_codec codec msgs b ≡ some b'
      → Agree a' b'
  unfolding applier
  applier-Agree [] a a' b b' g h k = ground arith
  applier-Agree (command_msg none idx ∷ msgs) a a' b b' g h k = ground (arith, nil_command idx a)
  applier-Agree (command_msg (some cmd) idx ∷ msgs) a a' b b' g h k =
      elim (Option-cases (handle_command raft_codec codec (some cmd) idx a)) [
        | inl e ↦ ground arith
        | inr (s, e) ↦ elim (Option-cases (handle_command raft_codec codec (some cmd) idx b)) [
          | inl f ↦ ground arith
          | inr (t, f) ↦
              applier-Agree msgs s a' t b' (handle_command-Agree cmd idx a s b t g e f)
                (ground arith) (ground arith)
        ]
      ]
  applier-Agree (snapshot_msg bytes term index ∷ msgs) a a' b b' g h k =
      applier-Agree msgs _ a' _ b' (handle_snapshot-Agree bytes index a b g) h k

  restored-Agree :
      (a b : KvServer)
      → b.commit_index < a.commit_index
      → Agree a (handle_snapshot raft_codec codec (codec.encode (tables a)) a.commit_index b).0
  unfolding handle_snapshot restore_snapshot
  restored-Agree a b h = ground (arith, codec.decode-encode (tables a))

  -- A server that is behind and is given another one's snapshot in place of the log up to there,
  -- and then the same messages, ends with the other one's tables, if neither stops.
  pub snapshot_catches_up :
      (term : ℕ) (msgs : List (ApplyMsg Op)) (a a' b b' : KvServer)
      → b.commit_index < a.commit_index
      → applier raft_codec codec msgs a ≡ some a'
      → applier raft_codec codec
          (snapshot_msg (codec.encode (tables a)) term a.commit_index ∷ msgs)
          b
        ≡ some b'
      → tables b' ≡ tables a'
  unfolding applier
  snapshot_catches_up term msgs a a' b b' lt h k =
      sym (applier-Agree msgs a a' _ b' (restored-Agree a b lt) h k).tables_eq
