-- ===== src/Raft/Network/Sample.antt =====
-- An entry goes from the leader of the example to another peer, and is committed at both.
use ai_fs.Prelude.{◌≡◌, refl, true, some, none, [], ◌∷◌, arith, inl}
use ai_fs.Raft.State.{
  Codec, Persistent, follower, LogEntry, Raft, log_at, last_logical_index, persist,
  get_physical_index, is_leader,
}
use ai_fs.Raft.AppendEntries.{
  AppendEntriesArgs, AppendEntriesReply, append_entries, check_prev, match_prev, sync_logs, follow,
  advance_commit,
}
use ai_fs.Raft.Replication.{
  start, make_append_entry, send_entries, entries_from, append_reply, acknowledge, note_match,
  commit_index_update, commit_loop, count_matches,
}
use ai_fs.Raft.Steps.{Live}
use ai_fs.Raft.Cluster.{put, acts}
use ai_fs.Raft.Cluster.Sample.{voter, leading, first, second, third, fourth, s0, s1, s2, s3, s4}
use ai_fs.Raft.Network.{Network, creation, moves, sends, delivers, starts, History, here, then_deed}

module _ {C : Type 0} (codec : Codec (Persistent C)) (command : C) where
  abbrev pub entry : LogEntry C
  entry = record { term = 1; command = some command }

  abbrev pub grown : Raft C
  grown = record (leading codec) {
    logs = record { term = 0; command = none } ∷ entry ∷ [];
    persister = record {
      raftstate = codec.encode (record {
        curr_term = 1;
        voted_for = some 0;
        logs = record { term = 0; command = none } ∷ entry ∷ [];
        last_included_index = 0;
        last_included_term = 0;
      });
      snapshot = [];
    };
  }

  begun : (start codec (some command) (leading codec)).0 ≡ grown
  unfolding start persist
  begun = refl

  abbrev sending : AppendEntriesArgs C
  sending = record {
    term = 1;
    leader_id = 0;
    prev_log_index = 0;
    prev_log_term = 0;
    entries = entry ∷ [];
    leader_commit = 0;
  }

  abbrev success : AppendEntriesReply
  success = record { term = 0; success = true; conflict_index = 0; conflict_term = some 0 }

  -- Peer 1 with the entry.
  abbrev pub taker : Raft C
  taker = record grown { me = 1; state = follower; timer = 6; next_index = 0 ∷ 0 ∷ 0 ∷ [] }

  sent_lem : make_append_entry 1 grown ≡ some (send_entries sending)
  unfolding make_append_entry entries_from get_physical_index
  sent_lem = refl

  taken : append_entries codec 6 sending (voter codec) ≡ some (taker, success)
  unfolding append_entries follow check_prev match_prev sync_logs advance_commit persist log_at
      get_physical_index last_logical_index
  taken = refl

  -- The leader once it has the reply.
  abbrev pub committing : Raft C
  committing = record grown {
    commit_index = 1;
    match_index = 0 ∷ 1 ∷ 0 ∷ [];
    next_index = 0 ∷ 2 ∷ 1 ∷ [];
  }

  replied : append_reply codec 7 1 sending success grown ≡ some committing
  unfolding append_reply is_leader acknowledge note_match commit_index_update commit_loop
      count_matches log_at get_physical_index last_logical_index
  replied = refl

  abbrev beating : AppendEntriesArgs C
  beating = record {
    term = 1;
    leader_id = 0;
    prev_log_index = 1;
    prev_log_term = 1;
    entries = [];
    leader_commit = 1;
  }

  beat_lem : make_append_entry 1 committing ≡ some (send_entries beating)
  unfolding make_append_entry entries_from get_physical_index
  beat_lem = refl

  abbrev pub informed : Raft C
  informed = record taker { timer = 8; commit_index = 1 }

  learned : append_entries codec 8 beating taker ≡ some (informed, success)
  unfolding append_entries follow check_prev match_prev sync_logs advance_commit persist log_at
      get_physical_index last_logical_index
  learned = refl

  abbrev n0 : Network C
  n0 = record { cluster = s0 codec; sent = []; created = [] }

  abbrev n4 : Network C
  n4 = record { cluster = s4 codec; sent = []; created = [] }

  -- The leader has the command in its log.
  abbrev n5 : Network C
  n5 = record {
    cluster = record (s4 codec) { peer = put 0 grown (s4 codec).peer };
    sent = [];
    created = creation 0 (some command) (leading codec) ∷ [];
  }

  abbrev n6 : Network C
  n6 = record n5 { sent = sending ∷ [] }

  abbrev pub n7 : Network C
  n7 = record n6 { cluster = record n6.cluster { peer = put 1 taker n6.cluster.peer } }

  abbrev n8 : Network C
  n8 = record n7 { cluster = record n7.cluster { peer = put 0 committing n7.cluster.peer } }

  abbrev n9 : Network C
  n9 = record n8 { sent = beating ∷ n8.sent }

  -- Both hold the entry, and know that it is committed.
  abbrev pub n10 : Network C
  n10 = record n9 { cluster = record n9.cluster { peer = put 1 informed n9.cluster.peer } }

  elected_deed : History codec 3 n0 n4
  elected_deed =
      then_deed
        (then_deed
          (then_deed (then_deed here (moves (s1 codec) (first codec) tt refl))
            (moves (s2 codec) (second codec) tt refl))
          (moves (s3 codec) (third codec) tt refl))
        (moves (s4 codec) (fourth codec) tt refl)

  pub delivery : History codec 3 n0 n7
  delivery =
      then_deed {t = n6}
        (then_deed {t = n5}
          (then_deed {t = n4} elected_deed
            (starts 0 (some command) (omega arith) refl (rw begun refl)))
          (sends 0 1 sending (omega arith) sent_lem refl))
        (delivers 1 6 sending _ taker (omega arith) (inl refl) taken refl)

  pub commitment : History codec 3 n0 n10
  commitment =
      then_deed {t = n9}
        (then_deed {t = n8}
          (then_deed {t = n7} delivery (
            moves n8.cluster
              (acts 0 committing (Live.heard_append 7 1 sending success (omega arith) replied)
                (omega arith) tt refl)
              tt refl))
          (sends 0 1 beating (omega arith) beat_lem refl))
        (delivers 1 8 beating _ informed (omega arith) (inl refl) learned refl)
