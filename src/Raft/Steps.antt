-- ===== src/Raft/Steps.antt =====
-- The steps of one peer: each part of its code that runs under the lock, with whatever arguments
-- and replies come in, and a crash with a restart from the persister.
use ai_fs.Prelude.{ℕ, ◌≤◌, ◌<◌, ◌≡◌, sym, subst, Bool, Option, some}
use ai_fs.Raft.Persister.{Bytes}
use ai_fs.Raft.State.{Raft, Codec, Persistent}
use ai_fs.Raft.RequestVote.{RequestVoteArgs, RequestVoteReply, request_vote}
use ai_fs.Raft.AppendEntries.{AppendEntriesArgs, AppendEntriesReply, append_entries}
use ai_fs.Raft.Snapshots.{InstallSnapshotArgs, snapshot, install_snapshot}
use ai_fs.Raft.Election.{start_election, become_leader, observe_term}
use ai_fs.Raft.Replication.{start, append_reply, install_reply}
use ai_fs.Raft.Lifetime.{make, kill, apply_one}
use ai_fs.Raft.Keeps.{
  Keeps, request_vote-Keeps, append_entries-Keeps, install_snapshot-Keeps, snapshot-Keeps,
  start-Keeps, start_election-Keeps, become_leader-Keeps, observe_term-Keeps, append_reply-Keeps,
  install_reply-Keeps, apply_one-Keeps, kill-Keeps,
}

module _ {C : Type 0} (codec : Codec (Persistent C)) where
  -- A step of a peer that is up.
  pub data Live (rf rf' : Raft C) : Type 0 where
    asked_for_vote :
        (now : ℕ) (args : RequestVoteArgs) (reply : RequestVoteReply)
        → request_vote codec now args rf ≡ some (rf', reply)
        → Live rf rf'
    sent_entries :
        (now : ℕ) (args : AppendEntriesArgs C) (reply : AppendEntriesReply)
        → append_entries codec now args rf ≡ some (rf', reply)
        → Live rf rf'
    sent_snapshot :
        (now : ℕ) (args : InstallSnapshotArgs)
        → rf' ≡ (install_snapshot codec now args rf).0
        → Live rf rf'
    -- The service takes snapshots of committed entries that it has applied.
    took_snapshot :
        (index : ℕ) (snap : Bytes)
        → index ≤ rf.last_applied
        → index ≤ rf.commit_index
        → snapshot codec index snap rf ≡ some rf'
        → Live rf rf'
    started : (command : Option C) → rf' ≡ (start codec command rf).0 → Live rf rf'
    stood :
        (now : ℕ) (args : RequestVoteArgs)
        → start_election codec now rf ≡ some (rf', args)
        → Live rf rf'
    won : (election_term : ℕ) → rf' ≡ become_leader election_term rf → Live rf rf'
    saw_term : (term : ℕ) → rf' ≡ observe_term codec term rf → Live rf rf'
    heard_append :
        (now peer : ℕ) (args : AppendEntriesArgs C) (reply : AppendEntriesReply)
        → peer < rf.peers
        → append_reply codec now peer args reply rf ≡ some rf'
        → Live rf rf'
    heard_install :
        (now peer : ℕ) (args : InstallSnapshotArgs) (reply_term : ℕ)
        → peer < rf.peers
        → install_reply codec now peer args reply_term rf ≡ some rf'
        → Live rf rf'
    applied : (again : Bool) → apply_one rf ≡ some (rf', again) → Live rf rf'
    killed : rf' ≡ kill rf → Live rf rf'

  pub data Step (rf rf' : Raft C) : Type 0 where
    live : Live rf rf' → Step rf rf'
    -- A new peer at the same place, which has the old one's persister.
    restarted : (now : ℕ) → rf' ≡ make codec now rf.peers rf.me rf.persister → Step rf rf'

  pub data Steps (rf : Raft C) : Raft C → Type 0 where
    here : Steps rf rf
    then_step : {s t : Raft C} → Steps rf s → Step s t → Steps rf t

  equal-Keeps : {rf s t : Raft C} → t ≡ s → Keeps codec rf s → Keeps codec rf t
  equal-Keeps {rf} e k = subst (λ x. Keeps codec rf x) (sym e) k

  pub Live-Keeps : {rf rf' : Raft C} → Live rf rf' → Keeps codec rf rf'
  Live-Keeps {rf} {rf'} (asked_for_vote now args reply e) =
      request_vote-Keeps codec now args reply rf rf' e
  Live-Keeps {rf} {rf'} (sent_entries now args reply e) =
      append_entries-Keeps codec now args reply rf rf' e
  Live-Keeps {rf} (sent_snapshot now args e) =
      equal-Keeps e (install_snapshot-Keeps codec now args rf)
  Live-Keeps {rf} {rf'} (took_snapshot index snap _ _ e) = snapshot-Keeps codec index snap rf rf' e
  Live-Keeps {rf} (started command e) = equal-Keeps e (start-Keeps codec command rf)
  Live-Keeps {rf} {rf'} (stood now args e) = start_election-Keeps codec now args rf rf' e
  Live-Keeps {rf} (won term e) = equal-Keeps e (become_leader-Keeps codec term rf)
  Live-Keeps {rf} (saw_term term e) = equal-Keeps e (observe_term-Keeps codec term rf)
  Live-Keeps {rf} {rf'} (heard_append now peer args reply _ e) =
      append_reply-Keeps codec now peer args reply rf rf' e
  Live-Keeps {rf} {rf'} (heard_install now peer args term _ e) =
      install_reply-Keeps codec now peer args term rf rf' e
  Live-Keeps {rf} {rf'} (applied again e) = apply_one-Keeps codec again rf rf' e
  Live-Keeps {rf} (killed e) = equal-Keeps e (kill-Keeps codec rf)
