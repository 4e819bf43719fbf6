-- ===== src/Raft/Network.antt =====
-- raft/raft.go: the cluster with the messages of `makeAppendEntry`. A request may be delivered late,
-- more than once, or never. A goroutine of `makeAppendEntry` does not look whether its peer still
-- leads, and so any peer may send. Requests for votes are as in the cluster, and snapshots may
-- bring anything.
use ai_fs.Prelude.{ℕ, zero, suc, ◌+◌, ◌<◌, ◌≡◌, Option, some, List, [], ◌∷◌, Among}
use ai_fs.Raft.State.{LogEntry, Raft, leader, Codec, Persistent, last_logical_index}
use ai_fs.Raft.AppendEntries.{AppendEntriesArgs, AppendEntriesReply, append_entries}
use ai_fs.Raft.Replication.{send_entries, make_append_entry, start}
use ai_fs.Raft.Steps.{Live}
use ai_fs.Raft.Cluster.{Cluster, put, Move, acts, IsOther, new_cluster}
pub mod Chain
pub mod Chains
pub mod Handlers
pub mod Orderly
pub mod Turns
pub mod Logged
pub mod Kept
pub mod Matching
pub mod Sample
mod Tests

-- An entry that a leader has put into its log by `Start`, behind an entry of term `prev_term`.
pub record Creation (C : Type 0) : Type 0 where
  pub index : ℕ
  pub term : ℕ
  pub command : Option C
  pub prev_term : ℕ
  pub by : ℕ

-- `sent` are the requests with entries, of which each may still arrive; `created` records all
-- entries that ever were.
pub record Network (C : Type 0) : Type 0 where
  pub cluster : Cluster C
  pub sent : List (AppendEntriesArgs C)
  pub created : List (Creation C)

module _ {C : Type 0} where
  abbrev pub last_term_from : ℕ → List (LogEntry C) → ℕ
  last_term_from t [] = t
  last_term_from t (entry ∷ entries) = last_term_from entry.term entries

  -- The term of the last entry.
  abbrev pub last_term : List (LogEntry C) → ℕ
  last_term logs = last_term_from 0 logs

  -- What `Start` adds at peer `i`.
  abbrev pub creation : (i : ℕ) → Option C → Raft C → Creation C
  creation i command rf = record {
    index = last_logical_index rf + 1;
    term = rf.curr_term;
    command = command;
    prev_term = last_term rf.logs;
    by = i;
  }

module _ {C : Type 0} {codec : Codec (Persistent C)} where
  -- The steps of one peer that neither take entries of a message nor create one.
  abbrev pub IsQuiet : {rf rf' : Raft C} → Live codec rf rf' → Type 0
  IsQuiet (Live.sent_entries _ _ _ _) = ⊥
  IsQuiet (Live.started _ _) = ⊥
  IsQuiet _ = Unit {0}

  abbrev pub IsQuietMove : {n : ℕ} {s s' : Cluster C} → Move codec n s s' → Type 0
  IsQuietMove (acts _ _ l _ _ _) = IsQuiet l
  IsQuietMove _ = Unit {0}

module _ {C : Type 0} (codec : Codec (Persistent C)) (n : ℕ) where
  pub data Deed (s s' : Network C) : Type 0 where
    moves :
        (c : Cluster C) (m : Move codec n s.cluster c)
        → IsQuietMove m
        → s' ≡ record s { cluster = c }
        → Deed s s'
    sends :
        (i peer : ℕ) (args : AppendEntriesArgs C)
        → i < n
        → make_append_entry peer (s.cluster.peer i) ≡ some (send_entries args)
        → s' ≡ record s { sent = args ∷ s.sent }
        → Deed s s'
    delivers :
        (i now : ℕ) (args : AppendEntriesArgs C) (reply : AppendEntriesReply) (rf : Raft C)
        → i < n
        → Among args s.sent
        → append_entries codec now args (s.cluster.peer i) ≡ some (rf, reply)
        → s' ≡ record s { cluster = record s.cluster { peer = put i rf s.cluster.peer } }
        → Deed s s'
    starts :
        (i : ℕ) (command : Option C)
        → i < n
        → (s.cluster.peer i).state ≡ leader
        → s' ≡ record s {
          cluster = record s.cluster {
            peer = put i (start codec command (s.cluster.peer i)).0 s.cluster.peer;
          };
          created = creation i command (s.cluster.peer i) ∷ s.created;
        }
        → Deed s s'

  pub data History (s : Network C) : Network C → Type 0 where
    here : History s s
    then_deed : {t u : Network C} → History s t → Deed t u → History s u

  abbrev pub new_network : (now : ℕ) → Network C
  new_network now = record { cluster = new_cluster codec n now; sent = []; created = [] }
