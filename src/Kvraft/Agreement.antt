-- ===== src/Kvraft/Agreement.antt =====
-- From the logs of a cluster to the tables of its servers.
use mathlib.Core.Option.{some-injective}
use mathlib.Core.List.{append_cancel_left}
use ai_fs.Prelude.{
  ℕ, ◌+◌, ◌≤◌, ◌<◌, ◌≡◌, refl, sym, ap, ◌∙◌, subst, some, List, [], ◌∷◌, ◌++◌, length, Returns,
  arith,
}
use ai_fs.Raft.State.{
  LogEntry, Raft, Codec, Persistent, ApplyMsg, command_msg, snapshot_msg, log_at,
}
use ai_fs.Raft.Lifetime.{send_apply_msg}
use ai_fs.Raft.Valid.{IsValid}
use ai_fs.Raft.Delivery.{InOrder, Delivers, sends_in_order}
use ai_fs.Raft.Network.{Network, History, new_network}
use ai_fs.Raft.Network.Kept.{History-IsLogged}
use ai_fs.Raft.Network.Matching.{logs_match}
use ai_fs.Kvraft.Common.{Op, Tables, KvServer}
use ai_fs.Kvraft.Applier.{applier}
use ai_fs.Kvraft.Replicas.{Agree, applier-Agree}

module _ {C : Type 0} where
  -- Commands of logs that hold the same entries are the same messages.
  InOrder-same :
      (f g : Raft C) (l : ℕ) (ms ns : List (ApplyMsg C))
      → InOrder f l ms
      → InOrder g l ns
      → length ms ≡ length ns
      → ((k : ℕ) → l ≤ k → k < l + length ms → log_at k f ≡ log_at k g)
      → ms ≡ ns
  InOrder-same f g l [] [] x y len same = refl
  InOrder-same f g l [] (n ∷ ns) x y len same = ground arith
  InOrder-same f g l (m ∷ ms) [] x y len same = ground arith
  InOrder-same f g l (snapshot_msg _ _ _ ∷ ms) (n ∷ ns) x y len same = absurd x
  InOrder-same f g l (command_msg c at ∷ ms) (snapshot_msg _ _ _ ∷ ns) x y len same = absurd y
  InOrder-same f g l (command_msg c at ∷ ms) (command_msg d here ∷ ns) (p, (a, ea, ca), x)
        (q, (b, eb, cb), y) len same =
      let entry : a ≡ b = some-injective a b (sym ea ∙ same l (omega arith) (omega arith) ∙ eb) in
      let head : command_msg c at ≡ command_msg d here = ground arith in
      let rest =
        InOrder-same f g (l + 1) ms ns x y (omega arith)
          (λ k h h'. same k (omega arith) (omega arith)) in
      ap (λ z. z ∷ ms) head ∙ ap (λ zs. command_msg d here ∷ zs) rest

  -- Whatever of the channel the loop has added is what it delivers.
  delivered_all :
      (fuel : ℕ) (rf rf' : Raft C) (ms : List (ApplyMsg C))
      → IsValid rf
      → rf.commit_index < rf.last_applied + fuel
      → send_apply_msg fuel rf ≡ some rf'
      → rf'.apply_ch ≡ rf.apply_ch ++ ms
      → InOrder rf (rf.last_applied + 1) ms × (rf'.last_applied ≡ rf.last_applied + length ms)
  delivered_all fuel rf rf' ms v enough run added =
      let d : Delivers rf rf' =
        subst (Returns (Delivers rf)) run (sends_in_order fuel rf v enough) in
      let same = append_cancel_left rf.apply_ch d.sent ms (sym d.channel ∙ added) in
      (
        subst (InOrder rf (rf.last_applied + 1)) same d.order,
        d.applied ∙ ap (λ xs. rf.last_applied + length xs) same,
      )

module _ (raft_codec : Codec (Persistent Op)) (codec : Codec Tables) (n : ℕ) where
  -- In a cluster that has come from empty persisters by any elections, crashes, snapshots and
  -- deliveries of requests for entries: if two peers that have applied equally far hand over
  -- commands up to the same index, and their logs have entries of the same term there, then they
  -- hand over the same messages, and servers that agreed before them agree when they have applied
  -- them, if neither stops.
  pub servers-Agree :
      (now : ℕ) (s : Network Op)
      → History raft_codec n (new_network raft_codec n now) s
      → (i j fuel_i fuel_j : ℕ) (rf_i rf_j : Raft Op) (last_i last_j : LogEntry Op)
        (msgs_i msgs_j : List (ApplyMsg Op)) (a a' b b' : KvServer)
      → i < n
      → j < n
      → (s.cluster.peer i).last_applied ≡ (s.cluster.peer j).last_applied
      → (s.cluster.peer i).commit_index < (s.cluster.peer i).last_applied + fuel_i
      → (s.cluster.peer j).commit_index < (s.cluster.peer j).last_applied + fuel_j
      → send_apply_msg fuel_i (s.cluster.peer i) ≡ some rf_i
      → send_apply_msg fuel_j (s.cluster.peer j) ≡ some rf_j
      → rf_i.apply_ch ≡ (s.cluster.peer i).apply_ch ++ msgs_i
      → rf_j.apply_ch ≡ (s.cluster.peer j).apply_ch ++ msgs_j
      → rf_i.last_applied ≡ rf_j.last_applied
      → log_at rf_i.last_applied (s.cluster.peer i) ≡ some last_i
      → log_at rf_i.last_applied (s.cluster.peer j) ≡ some last_j
      → last_i.term ≡ last_j.term
      → Agree a b
      → applier raft_codec codec msgs_i a ≡ some a'
      → applier raft_codec codec msgs_j b ≡ some b'
      → (msgs_i ≡ msgs_j) × Agree a' b'
  servers-Agree now s past i j fuel_i fuel_j rf_i rf_j last_i last_j msgs_i msgs_j a a' b b' hi hj
        start enough_i enough_j run_i run_j added_i added_j end at_i at_j term agree apply_i
        apply_j =
      let v = History-IsLogged raft_codec n now s past in
      let valid_i = (v.fit i hi).valid in
      let valid_j = (v.fit j hj).valid in
      let (order_i, upto_i) =
        delivered_all fuel_i (s.cluster.peer i) rf_i msgs_i valid_i enough_i run_i added_i in
      let (order_j, upto_j) =
        delivered_all fuel_j (s.cluster.peer j) rf_j msgs_j valid_j enough_j run_j added_j in
      let low_i = valid_i.included_applied in
      let low_j = valid_j.included_applied in
      let same =
        InOrder-same (s.cluster.peer i) (s.cluster.peer j) ((s.cluster.peer i).last_applied + 1)
          msgs_i msgs_j order_i
          (subst (λ l. InOrder (s.cluster.peer j) (l + 1) msgs_j) (sym start) order_j) (omega arith)
          (λ k low high.
            logs_match raft_codec n now s past i j rf_i.last_applied k last_i last_j hi hj at_i at_j
              term (omega arith) (omega arith) (omega arith)) in
      (
        same,
        applier-Agree raft_codec codec msgs_i a a' b b' agree apply_i
            (subst (λ ms. applier raft_codec codec ms b ≡ some b') (sym same) apply_j),
      )
