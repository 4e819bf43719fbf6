-- ===== src/Raft/Network/Tests.antt =====
-- The logs of the example match.
use ai_fs.Prelude.{◌≡◌, refl, some, arith}
use ai_fs.Raft.Plain.{plain}
use ai_fs.Raft.State.{log_at, get_physical_index}
use ai_fs.Raft.Network.Sample.{entry, grown, taker, n7, delivery}
use ai_fs.Raft.Network.Matching.{logs_match}

held :
    (log_at 1 (grown plain 7) ≡ some (entry plain 7))
    × (log_at 1 (taker plain 7) ≡ some (entry plain 7))
unfolding log_at get_physical_index
held = (refl, refl)

logs_match_example : log_at 1 (grown plain 7) ≡ log_at 1 (taker plain 7)
logs_match_example =
    logs_match plain 3 0 (n7 plain 7) (delivery plain 7) 0 1 1 1 (entry plain 7) (entry plain 7)
      (omega arith) (omega arith) held.0 held.1 refl (omega arith) (omega arith) (omega arith)
