-- ===== src/Kvraft/Requests.antt =====
-- One request, from the handler that takes it to the reply.
use ai_fs.Prelude.{
  ℕ, ◌+◌, ◌≡◌, refl, ◌⊎◌, Bool, true, false, ◌&&◌, if◌then◌else◌, Bool-cases, inl, inr, Option,
  none, some, Option-cases, [], ◌∷◌, get_elem?-append_right, arith,
}
use ai_fs.Prelude.Dict.{◌==◌, nat_eq, string_eq, lookup, lookup-insert_self, lookup-delete_self}
use ai_fs.Raft.State.{Raft, Codec, Persistent, is_leader, log_at, last_logical_index}
use ai_fs.Raft.Replication
use ai_fs.Raft.Valid.{IsValid, nonempty}
use ai_fs.Kvraft.Common.{Op, OpReply, Tables, KvServer, Err, ok, err_wrong_leader, err_time_out}
use ai_fs.Kvraft.StateMachine.{recorded, apply_command}
use ai_fs.Kvraft.Applier.{tables, with_tables, notify, take_snapshot, handle_command}
use ai_fs.Kvraft.Handlers.{
  known, not_leader, waiting, zero_reply, begin, register, wait_applied, finish,
}

finish_closes :
    (with_value : Bool) (idx : ℕ) (answer : OpReply × Err) (kv : KvServer)
    → lookup idx (finish with_value idx answer kv).0.notify_chans ≡ none
unfolding finish
finish_closes with_value idx (reply, err) kv = elim (Bool-cases (err == ok)) [
  | inl e ↦ rw e (lookup-delete_self idx kv.notify_chans)
  | inr e ↦ rw e (lookup-delete_self idx kv.notify_chans)
]

module _ (raft_codec : Codec (Persistent Op)) where
  start_appends :
      (cmd : Op) (rf : Raft Op)
      → IsValid rf
      → is_leader rf ≡ true
      → ((Replication.start raft_codec (some cmd) rf).1
          ≡ some (last_logical_index rf + 1, rf.curr_term))
        × (log_at (last_logical_index rf + 1) (Replication.start raft_codec (some cmd) rf).0
            ≡ some (record { term = rf.curr_term; command = some cmd }))
  unfolding Replication.start log_at last_logical_index
  start_appends cmd rf v h = ground (
    arith,
    nonempty rf v,
    get_elem?-append_right rf.logs (record { term = rf.curr_term; command = some cmd } ∷ []) 0,
  )

  start_refused :
      (cmd : Op) (rf : Raft Op)
      → is_leader rf ≡ false
      → (Replication.start raft_codec (some cmd) rf).1 ≡ none
  unfolding Replication.start
  start_refused cmd rf h = ground arith

  -- A live server takes a request in one of three ways. A number that the client's record covers is
  -- answered from the record; a number that it does not cover is refused by a server that is no
  -- leader; in both cases nothing changes. At a leader, the command of such a number stands in the
  -- log, in the current term, at the index that the handler waits for.
  pub begin_cases :
      (cmd : Op) (kv : KvServer)
      → kv.dead ≡ false
      → IsValid kv.rf
      → ((r : OpReply) × (recorded cmd.client_id cmd.seq_id kv.record_map ≡ some r)
          × (begin raft_codec cmd kv ≡ (kv, known r)))
        ⊎ (((recorded cmd.client_id cmd.seq_id kv.record_map ≡ none)
              × (is_leader kv.rf ≡ false)
              × (begin raft_codec cmd kv ≡ (kv, not_leader kv.leader_id)))
            ⊎ ((recorded cmd.client_id cmd.seq_id kv.record_map ≡ none)
                × (is_leader kv.rf ≡ true)
                × ((begin raft_codec cmd kv).1
                    ≡ waiting (last_logical_index kv.rf + 1) kv.rf.curr_term)
                × (log_at (last_logical_index kv.rf + 1) (begin raft_codec cmd kv).0.rf
                    ≡ some (record { term = kv.rf.curr_term; command = some cmd }))
                × (tables (begin raft_codec cmd kv).0 ≡ tables kv)))
  unfolding begin
  begin_cases cmd kv up v = elim (Option-cases (recorded cmd.client_id cmd.seq_id kv.record_map)) [
    | inr (r, e) ↦ inl (r, e, ground arith)
    | inl e ↦ elim (Bool-cases (is_leader kv.rf)) [
      | inl l ↦
          let (p, q) = start_appends cmd kv.rf v l in
          inr (inr (e, l, ground arith, ground arith, ground arith))
      | inr l ↦ let p = start_refused cmd kv.rf l in inr (inl (e, l, ground arith))
    ]
  ]

  module _ (codec : Codec Tables) where
    notify_fills :
        (idx : ℕ) (reply : OpReply) (kv kv' : KvServer)
        → lookup idx kv.notify_chans ≡ some none
        → notify idx reply kv ≡ some kv'
        → lookup idx kv'.notify_chans ≡ some (some reply)
    unfolding notify
    notify_fills idx reply kv kv' e h =
        ground (arith, lookup-insert_self idx (some reply) kv.notify_chans)

    take_snapshot-notify_chans :
        (a b : KvServer)
        → take_snapshot raft_codec codec a ≡ some b
        → b.notify_chans ≡ a.notify_chans
    unfolding take_snapshot
    take_snapshot-notify_chans a b h = ground arith

    -- The applier hands the reply of a command to the handler that waits at its index.
    handle_command_notifies :
        (cmd : Op) (idx : ℕ) (kv kv' : KvServer)
        → lookup idx kv.notify_chans ≡ some none
        → handle_command raft_codec codec (some cmd) idx kv ≡ some kv'
        → lookup idx kv'.notify_chans ≡ some (some (apply_command cmd (tables kv)).1)
    unfolding handle_command
    handle_command_notifies cmd idx kv kv' e h =
        let (t, reply) = apply_command cmd (tables kv) in
        let mid = with_tables t (record kv { commit_index = idx }) in
        elim (Option-cases (take_snapshot raft_codec codec mid)) [
          | inl f ↦ ground arith
          | inr (s, f) ↦
              ground (arith, take_snapshot-notify_chans mid s f, notify_fills idx reply s kv')
        ]

    -- A handler registers for index `idx`, and the applier then takes command `cmd` from there. The
    -- reply of the state machine lies in the handler's channel. If the peer still leads its term,
    -- the handler passes that reply on; else it answers with ErrWrongLeader, and with ErrTimeOut if
    -- it stops waiting. Whichever it is, its channel is gone.
    pub request_served :
        (cmd : Op) (idx term : ℕ) (with_value : Bool) (rf : Raft Op) (kv kv' : KvServer)
        → handle_command raft_codec codec (some cmd) idx (register idx kv) ≡ some kv'
        → (lookup idx kv'.notify_chans ≡ some (some (apply_command cmd (tables kv)).1))
          × ((finish with_value idx
                (wait_applied term (some (apply_command cmd (tables kv)).1) rf)
                kv').1
              ≡ (if is_leader rf && rf.curr_term == term
                  then record zero_reply {
                    err = (apply_command cmd (tables kv)).1.err;
                    value = (if with_value then (apply_command cmd (tables kv)).1.value else "");
                  }
                  else record zero_reply { err = err_wrong_leader }))
          × ((finish with_value idx (wait_applied term none rf) kv').1
              ≡ record zero_reply { err = err_time_out })
          × ((o : Option OpReply)
              → lookup idx (finish with_value idx (wait_applied term o rf) kv').0.notify_chans
                ≡ none)
    unfolding finish wait_applied register
    request_served cmd idx term with_value rf kv kv' h = (
      handle_command_notifies cmd idx (register idx kv) kv'
          (lookup-insert_self idx none kv.notify_chans) h,
      elim (Bool-cases (is_leader rf)) [
        | inl l ↦ elim (Bool-cases (rf.curr_term == term)) [ inl t ↦ rw (l, t) | inr t ↦ rw (l, t) ]
        | inr l ↦ rw l
      ],
      refl,
      λ o. finish_closes with_value idx (wait_applied term o rf) kv',
    )
