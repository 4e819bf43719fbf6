-- ===== src/Raft/Replication.antt =====
-- raft/raft.go: the leader's side of replication: `Start`, the requests of `makeAppendEntry` and
-- `sendInstallSnapshotToPeers`, the handling of their replies, and `commitIndexUpdate`.
use ai_fs.Prelude.{
  ℕ, zero, suc, ◌+◌, ◌-◌, ◌/◌, max, not, ◌&&◌, ◌||◌, Option, none, some, List, [], ◌∷◌, ◌++◌, drop,
  length, get_elem?, set, ltb, leb, ◌==◌, if◌then◌else◌, ◌>>=◌,
}
use ai_fs.Raft.Persister.{read_snapshot}
use ai_fs.Raft.State.{
  LogEntry, Raft, follower, Codec, Persistent, is_leader, get_physical_index, get_logical_index,
  last_logical_index, log_at, persist,
}
use ai_fs.Raft.AppendEntries.{AppendEntriesArgs, AppendEntriesReply}
use ai_fs.Raft.Snapshots.{InstallSnapshotArgs}

-- What a goroutine of `makeAppendEntry` sends to its peer.
pub data Outgoing (C : Type 0) : Type 0 where
  send_entries : AppendEntriesArgs C → Outgoing C
  send_snapshot : Outgoing C  -- it goes on in `sendInstallSnapshotToPeers`

module _ {C : Type 0} where
  -- `rf.logs[physical:]` panics beyond the end.
  unfoldable pub entries_from : ℕ → Raft C → Option (List (LogEntry C))
  entries_from physical rf =
      if ltb (length rf.logs) physical then none else some (drop physical rf.logs)

  unfoldable pub make_append_entry : (peer : ℕ) → Raft C → Option (Outgoing C)
  unfolding entries_from get_physical_index
  make_append_entry peer rf = do
    next ← get_elem? rf.next_index peer
    if leb next rf.last_included_index then some send_snapshot else (do
      entries ← entries_from (get_physical_index next rf) rf
      prev ← get_elem? rf.logs (get_physical_index next rf - 1)
      some (
          send_entries (record {
            term = rf.curr_term;
            leader_id = rf.me;
            prev_log_index = next - 1;
            prev_log_term = prev.term;
            entries = entries;
            leader_commit = rf.commit_index;
          })))

  unfoldable pub make_install_args : Raft C → InstallSnapshotArgs
  unfolding read_snapshot
  make_install_args rf = record {
    term = rf.curr_term;
    leader_id = rf.me;
    last_included_index = rf.last_included_index;
    last_included_term = rf.last_included_term;
    snapshot = read_snapshot rf.persister;
  }

  -- The peers below `left` that hold index `n`, and this one.
  unfoldable pub count_matches : Raft C → (n left : ℕ) → Option ℕ
  count_matches rf n zero = some 1
  count_matches rf n (suc peer) = do
    count ← count_matches rf n peer
    matched ← get_elem? rf.match_index peer
    some (if not (peer == rf.me) && leb n matched then count + 1 else count)

  -- The loop of `commitIndexUpdate`, where `n` is `commitIndex + left`.
  unfoldable pub commit_loop : Raft C → (left : ℕ) → Option (Raft C)
  commit_loop rf zero = some rf
  commit_loop rf (suc left) = do
    let n = rf.commit_index + suc left
    let rest = commit_loop rf left
    entry ← log_at n rf
    count ← count_matches rf n rf.peers
    if entry.term == rf.curr_term && ltb (rf.peers / 2) count
        then some (record rf { commit_index = n })
        else rest

  unfoldable pub commit_index_update : Raft C → Option (Raft C)
  commit_index_update rf = commit_loop rf (last_logical_index rf - rf.commit_index)

  -- The last entry of a term, from physical index `left - 1` down.
  unfoldable pub last_of_term : List (LogEntry C) → (term left : ℕ) → Option (Option ℕ)
  last_of_term logs term zero = some none
  last_of_term logs term (suc i) = do
    let rest = last_of_term logs term i
    entry ← get_elem? logs i
    if entry.term == term then some (some i) else rest

  -- `nextIndex[peer]`, which is then raised to 1 if it is 0.
  unfoldable pub set_next : (peer next : ℕ) → Raft C → Raft C
  set_next peer next rf = record rf {
    next_index = set rf.next_index peer (if ltb next 1 then 1 else next);
  }

  -- The peer holds all entries up to `matched`.
  unfoldable pub note_match : (peer matched : ℕ) → Raft C → Raft C
  note_match peer matched rf = record rf {
    match_index = set rf.match_index peer matched;
    next_index = set rf.next_index peer (matched + 1);
  }

  -- The branch of a peer that took the entries, up to index `upto`.
  unfoldable pub acknowledge : (peer upto : ℕ) → Raft C → Option (Raft C)
  acknowledge peer upto rf = do
    matched ← get_elem? rf.match_index peer
    commit_index_update (note_match peer (max upto matched) rf)

  -- Behind the last entry of the conflicting term, or at the conflict index if there is none.
  unfoldable pub aim_next : (peer conflict_index : ℕ) → Option ℕ → Raft C → Raft C
  unfolding set_next get_logical_index
  aim_next peer conflict_index none rf = set_next peer conflict_index rf
  aim_next peer conflict_index (some i) rf = set_next peer (get_logical_index i rf + 1) rf

  -- The branch of a peer whose log differs. Below the snapshot it goes on in
  -- `sendInstallSnapshotToPeers`.
  unfoldable pub back_up : (peer : ℕ) → AppendEntriesReply → Raft C → Option (Raft C)
  back_up peer reply rf = elim reply.conflict_term [
    | none ↦ some (set_next peer reply.conflict_index rf)
    | some term ↦ if ltb reply.conflict_index rf.last_included_index then some rf else (do
      found ← last_of_term rf.logs term (length rf.logs)
      some (aim_next peer reply.conflict_index found rf))
  ]

module _ {C : Type 0} (codec : Codec (Persistent C)) where
  -- `Start`: the index and the term of the command, if this peer is the leader.
  unfoldable pub start : Option C → Raft C → Raft C × Option (ℕ × ℕ)
  unfolding is_leader persist
  start command rf =
      if is_leader rf
      then (
        persist codec (record rf {
          logs = rf.logs ++ (record { term = rf.curr_term; command = command } ∷ []);
        }),
        some (last_logical_index rf + 1, rf.curr_term),
      )
      else (rf, none)

  -- A higher term in a reply ends the leadership.
  unfoldable pub step_down : (now term : ℕ) → Raft C → Raft C
  unfolding persist
  step_down now term rf =
      let rf' = persist codec (record rf { curr_term = term; voted_for = none }) in
      record rf' { state = follower; timer = now }

  -- The reply of a peer to `args`, in `makeAppendEntry`.
  unfoldable pub append_reply :
      (now peer : ℕ) → AppendEntriesArgs C → AppendEntriesReply → Raft C → Option (Raft C)
  unfolding step_down is_leader
  append_reply now peer args reply rf =
      if not (rf.curr_term == args.term)
      then some rf
      else if ltb rf.curr_term reply.term
      then some (step_down now reply.term rf)
      else if not (is_leader rf)
      then some rf
      else if reply.success
      then acknowledge peer (args.prev_log_index + length args.entries) rf
      else back_up peer reply rf

  -- The reply of a peer to a snapshot: its term.
  unfoldable pub install_reply :
      (now peer : ℕ) → InstallSnapshotArgs → (reply_term : ℕ) → Raft C → Option (Raft C)
  unfolding step_down is_leader
  install_reply now peer args reply_term rf =
      if ltb rf.curr_term reply_term
      then some (step_down now reply_term rf)
      else if not (is_leader rf) || not (rf.curr_term == args.term)
      then some rf
      else (do
        matched ← get_elem? rf.match_index peer
        next ← get_elem? rf.next_index peer
        let matched' = max args.last_included_index matched
        some (record rf {
          match_index = set rf.match_index peer matched';
          next_index = set rf.next_index peer (max (matched' + 1) next);
        }))
