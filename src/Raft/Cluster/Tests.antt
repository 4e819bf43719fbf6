-- ===== src/Raft/Cluster/Tests.antt =====
-- An election in a cluster of three has one leader.
use ai_fs.Prelude.{ℕ, ◌≡◌, refl, arith}
use ai_fs.Raft.Plain.{plain}
use ai_fs.Raft.Cluster.Safety.{one_leader_per_term}
use ai_fs.Raft.Cluster.Sample.{s4, election}

one_leader_per_term_example : ◌≡◌ {A = ℕ} 0 0
one_leader_per_term_example =
    one_leader_per_term plain 3 0 (s4 plain) (election plain) 0 0 (omega arith) (omega arith) refl
      refl refl
