-- ===== src/Kvraft/Channels.antt =====
-- The channels on which the handlers wait: the applier never finds the one that it needs full.
use ai_fs.Prelude.{
  ltb, ℕ, ◌≤◌, ◌<◌, ◌≡◌, ◌≢◌, sym, ◌∙◌, ap, subst, ◌⊎◌, inl, inr, Bool, true, false, Bool-cases,
  Option, Option-cases, none, some, [], ◌∷◌, arith, Among,
}
use ai_fs.Prelude.Dict.{Dict, ◌==◌, nat_eq, lookup, insert, delete}
use ai_fs.Raft.Persister.{Bytes, Persister}
use ai_fs.Raft.State.{Raft, Codec, Persistent}
use ai_fs.Kvraft.Common.{Op, OpReply, Err, Tables, KvServer}
use ai_fs.Kvraft.StateMachine.{apply_command}
use ai_fs.Kvraft.Handlers.{register, finish}
use ai_fs.Kvraft.Applier.{
  tables, with_tables, notify, full_chans, take_snapshot, handle_command, restore_snapshot,
  handle_snapshot, start_kv_server,
}

abbrev Chans : Type 0
Chans = Dict ℕ (Option OpReply)

-- A channel that holds a reply is one of an index that has been applied.
abbrev pub FullBelow : (bound : ℕ) → Chans → Type 0
FullBelow bound chans = (idx : ℕ) (reply : OpReply) → Among (idx, some reply) chans → idx ≤ bound

lookup-Among :
    (idx : ℕ) (ch : Option OpReply) (chans : Chans)
    → lookup idx chans ≡ some ch
    → Among (idx, ch) chans
unfolding lookup
lookup-Among idx ch [] e = ground arith
lookup-Among idx ch ((k, c) ∷ chans) e = elim (Bool-cases (k == idx)) [
  | inl t ↦ inl (ground arith)
  | inr f ↦ inr (lookup-Among idx ch chans (ground arith))
]

insert_hit :
    (k : ℕ) (c : Option OpReply) (j : ℕ) (d : Option OpReply) (chans : Chans)
    → (j == k) ≡ true
    → insert k c ((j, d) ∷ chans) ≡ (k, c) ∷ chans
unfolding insert
insert_hit k c j d chans t = ground arith

insert_miss :
    (k : ℕ) (c : Option OpReply) (j : ℕ) (d : Option OpReply) (chans : Chans)
    → (j == k) ≡ false
    → insert k c ((j, d) ∷ chans) ≡ (j, d) ∷ insert k c chans
unfolding insert
insert_miss k c j d chans f = ground arith

delete_hit :
    (k j : ℕ) (d : Option OpReply) (chans : Chans)
    → (j == k) ≡ true
    → delete k ((j, d) ∷ chans) ≡ delete k chans
unfolding delete
delete_hit k j d chans t = ground arith

delete_miss :
    (k j : ℕ) (d : Option OpReply) (chans : Chans)
    → (j == k) ≡ false
    → delete k ((j, d) ∷ chans) ≡ (j, d) ∷ delete k chans
unfolding delete
delete_miss k j d chans f = ground arith

Among-insert :
    (k : ℕ) (c : Option OpReply) (x : ℕ × Option OpReply) (chans : Chans)
    → Among x (insert k c chans)
    → ((k, c) ≡ x) ⊎ Among x chans
unfolding insert
Among-insert k c x [] (inl e) = inl e
Among-insert k c x [] (inr m) = absurd m
Among-insert k c x ((j, d) ∷ chans) m = elim (Bool-cases (j == k)) [
  | inl t ↦ elim (subst (Among x) (insert_hit k c j d chans t) m) [
    | inl e ↦ inl e
    | inr n ↦ inr (inr n)
  ]
  | inr f ↦ elim (subst (Among x) (insert_miss k c j d chans f) m) [
    | inl e ↦ inr (inl e)
    | inr n ↦ elim (Among-insert k c x chans n) [ inl e ↦ inl e | inr o ↦ inr (inr o) ]
  ]
]

Among-delete :
    (k : ℕ) (x : ℕ × Option OpReply) (chans : Chans) → Among x (delete k chans) → Among x chans
unfolding delete
Among-delete k x [] m = m
Among-delete k x ((j, d) ∷ chans) m = elim (Bool-cases (j == k)) [
  | inl t ↦ inr (Among-delete k x chans (subst (Among x) (delete_hit k j d chans t) m))
  | inr f ↦ elim (subst (Among x) (delete_miss k j d chans f) m) [
    | inl e ↦ inl e
    | inr n ↦ inr (Among-delete k x chans n)
  ]
]

Among-full_chans :
    (x : ℕ × Option OpReply) (chans : Chans) → Among x (full_chans chans) → Among x chans
unfolding full_chans
Among-full_chans x [] m = m
Among-full_chans x ((j, none) ∷ chans) m = inr (Among-full_chans x chans m)
Among-full_chans x ((j, some r) ∷ chans) (inl e) = inl e
Among-full_chans x ((j, some r) ∷ chans) (inr m) = inr (Among-full_chans x chans m)

-- A server and the goroutines around it: the applier, the handlers and the Raft peer.
module _ (raft_codec : Codec (Persistent Op)) (codec : Codec Tables) where
  pub data Step (kv kv' : KvServer) : Type 0 where
    -- Raft hands over commands at rising indexes.
    applies :
        (cmd : Op) (idx : ℕ)
        → kv.commit_index < idx
        → handle_command raft_codec codec (some cmd) idx kv ≡ some kv'
        → Step kv kv'
    restores :
        (bytes : Bytes) (index : ℕ)
        → kv' ≡ (handle_snapshot raft_codec codec bytes index kv).0
        → Step kv kv'
    registers : (index : ℕ) → kv' ≡ register index kv → Step kv kv'
    finishes :
        (with_value : Bool) (index : ℕ) (result : OpReply × Err)
        → kv' ≡ (finish with_value index result kv).0
        → Step kv kv'
    raft_moves : (rf : Raft Op) → kv' ≡ record kv { rf = rf } → Step kv kv'

  pub data Run (kv : KvServer) : KvServer → Type 0 where
    here : Run kv kv
    then_step : {a b : KvServer} → Run kv a → Step a b → Run kv b

  abbrev Below : KvServer → Type 0
  Below kv = FullBelow kv.commit_index kv.notify_chans

  notify-Below :
      (idx : ℕ) (reply : OpReply) (kv kv' : KvServer)
      → kv.commit_index ≡ idx
      → Below kv
      → notify idx reply kv ≡ some kv'
      → Below kv'
  unfolding notify
  notify-Below idx reply kv kv' at v h = elim (Option-cases (lookup idx kv.notify_chans)) [
    | inl nobody ↦ let q : kv ≡ kv' = ground arith in subst Below q v
    | inr (some full, e) ↦ ground arith
    | inr (none, e) ↦
        let chans = insert idx (some reply) kv.notify_chans in
        let q : record kv { notify_chans = chans } ≡ kv' = ground arith in
        subst Below q (λ j r m. elim (Among-insert idx (some reply) (j, some r) kv.notify_chans m) [
          | inl new ↦ omega (arith, at, ap (λ x. x.0) new)
          | inr old ↦ v j r old
        ])
  ]

  take_snapshot_same :
      (kv kv' : KvServer)
      → take_snapshot raft_codec codec kv ≡ some kv'
      → (kv'.commit_index ≡ kv.commit_index) × (kv'.notify_chans ≡ kv.notify_chans)
  unfolding take_snapshot
  take_snapshot_same kv kv' h = ground arith

  abbrev pub applied : Op → ℕ → KvServer → KvServer
  applied cmd idx kv =
      with_tables (apply_command cmd (tables kv)).0 (record kv { commit_index = idx })

  raised : (a b : ℕ) (chans : Chans) → a ≤ b → FullBelow a chans → FullBelow b chans
  raised a b chans le v j r m = omega (arith, v j r m)

  handle_command-Below :
      (cmd : Op) (idx : ℕ) (kv kv' : KvServer)
      → kv.commit_index < idx
      → Below kv
      → handle_command raft_codec codec (some cmd) idx kv ≡ some kv'
      → Below kv'
  unfolding handle_command
  handle_command-Below cmd idx kv kv' lt v h =
      elim (Option-cases (take_snapshot raft_codec codec (applied cmd idx kv))) [
        | inl stuck ↦ ground arith
        | inr (taken, e) ↦
            let (index, chans) = take_snapshot_same (applied cmd idx kv) taken e in
            let sent : notify idx (apply_command cmd (tables kv)).1 taken ≡ some kv' =
              ground arith in
            let below : Below taken =
              subst (λ m. FullBelow taken.commit_index m) (sym chans)
                (raised kv.commit_index taken.commit_index kv.notify_chans (omega (arith, index))
                  v) in
            notify-Below idx (apply_command cmd (tables kv)).1 taken kv' index below sent
      ]

  handle_snapshot_cases :
      (bytes : Bytes) (index : ℕ) (kv : KvServer)
      → ((handle_snapshot raft_codec codec bytes index kv).0 ≡ kv)
        ⊎ ((kv.commit_index ≤ (handle_snapshot raft_codec codec bytes index kv).0.commit_index)
            × ((handle_snapshot raft_codec codec bytes index kv).0.notify_chans
                ≡ full_chans kv.notify_chans))
  unfolding handle_snapshot restore_snapshot
  handle_snapshot_cases bytes index kv = elim (Bool-cases (ltb kv.commit_index index)) [
    | inl newer ↦ inr (ground arith, ground arith)
    | inr older ↦ inl (ground arith)
  ]

  handle_snapshot-Below :
      (bytes : Bytes) (index : ℕ) (kv : KvServer)
      → Below kv
      → Below (handle_snapshot raft_codec codec bytes index kv).0
  handle_snapshot-Below bytes index kv v = elim (handle_snapshot_cases bytes index kv) [
    | inl same ↦ subst Below (sym same) v
    | inr (le, chans) ↦
        let kv' = (handle_snapshot raft_codec codec bytes index kv).0 in
        subst (FullBelow kv'.commit_index) (sym chans)
          (λ j r m. omega (arith, le, v j r (Among-full_chans (j, some r) kv.notify_chans m)))
  ]

  finish_same :
      (with_value : Bool) (index : ℕ) (result : OpReply × Err) (kv : KvServer)
      → ((finish with_value index result kv).0.commit_index ≡ kv.commit_index)
        × ((finish with_value index result kv).0.notify_chans ≡ delete index kv.notify_chans)
  unfolding finish
  finish_same with_value index result kv = ground arith

  Step-Below : (kv kv' : KvServer) → Step kv kv' → Below kv → Below kv'
  unfolding register
  Step-Below kv kv' (applies cmd idx lt h) v = handle_command-Below cmd idx kv kv' lt v h
  Step-Below kv kv' (restores bytes index q) v =
      subst Below (sym q) (handle_snapshot-Below bytes index kv v)
  Step-Below kv kv' (registers index q) v = subst Below (sym q) (λ j r m.
      elim (Among-insert index none (j, some r) kv.notify_chans m) [
        | inl new ↦ ground (arith, ap (λ x. x.1) new)
        | inr old ↦ v j r old
      ])
  Step-Below kv kv' (finishes with_value index result q) v =
      let (same, chans) = finish_same with_value index result kv in
      let after = (finish with_value index result kv).0 in
      subst Below (sym q) (
        subst (FullBelow after.commit_index) (sym chans)
          (λ j r m. omega (arith, same, v j r (Among-delete index (j, some r) kv.notify_chans m))))
  Step-Below kv kv' (raft_moves rf q) v = subst Below (sym q) v

  started_without :
      (now servers me : ℕ) (persister : Persister) (max_raft_state : Option ℕ)
      → (start_kv_server raft_codec codec now servers me persister max_raft_state).notify_chans ≡ []
  unfolding start_kv_server restore_snapshot
  started_without now servers me persister max_raft_state = ground arith

  Run-Below : {a b : KvServer} → Run a b → a.notify_chans ≡ [] → Below b
  Run-Below {a} here empty = subst (FullBelow a.commit_index) (sym empty) (λ j r m. absurd m)
  Run-Below (then_step {a = before} {b = after} run step) empty =
      Step-Below before after step (Run-Below run empty)

  blocked :
      (idx : ℕ) (reply : OpReply) (kv : KvServer)
      → notify idx reply kv ≡ none
      → (r : OpReply) × (lookup idx kv.notify_chans ≡ some (some r))
  unfolding notify
  blocked idx reply kv h = elim (Option-cases (lookup idx kv.notify_chans)) [
    | inl nobody ↦ ground arith
    | inr (none, e) ↦ ground arith
    | inr (some r, e) ↦ (r, e)
  ]

  -- A server that started with a persister, after any steps of its applier, of its handlers and of
  -- its Raft peer: where Raft hands over a command at an index beyond all before, and the snapshot
  -- that may be due does not panic, the applier sends its reply without being blocked by a full
  -- channel, and goes on.
  pub applier_never_blocks :
      (now servers me : ℕ) (persister : Persister) (max_raft_state : Option ℕ) (kv taken : KvServer)
      (cmd : Op) (idx : ℕ)
      → Run (start_kv_server raft_codec codec now servers me persister max_raft_state) kv
      → kv.commit_index < idx
      → take_snapshot raft_codec codec (applied cmd idx kv) ≡ some taken
      → handle_command raft_codec codec (some cmd) idx kv ≢ none
  unfolding handle_command
  applier_never_blocks now servers me persister max_raft_state kv taken cmd idx run lt e = λ stuck.
      let (index, chans) = take_snapshot_same (applied cmd idx kv) taken e in
      let reply = (apply_command cmd (tables kv)).1 in
      let none_sent : notify idx reply taken ≡ none = ground arith in
      let (r, full) = blocked idx reply taken none_sent in
      let there = ap (lookup idx) (sym chans) ∙ full in
      let below =
        Run-Below run (started_without now servers me persister max_raft_state) idx r
          (lookup-Among idx (some r) kv.notify_chans there) in
      omega arith
