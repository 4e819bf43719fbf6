-- ===== src/Raft/Network/Handlers.antt =====
-- Every operation of a peer leaves its log a chain.
use ai_fs.Prelude.{
  ℕ, suc, ◌+◌, ◌-◌, ◌<◌, ◌≡◌, sym, subst, inl, inr, Bool-cases, ltb, leb, ◌==◌, Option,
  Option-cases, none, some, List, [], ◌∷◌, ◌++◌, drop, length, get_elem?, arith,
}
use ai_fs.Raft.Persister.{Bytes}
use ai_fs.Raft.State.{
  LogEntry, Raft, Codec, Persistent, log_at, last_logical_index, get_physical_index, persist,
  is_leader,
}
use ai_fs.Raft.AppendEntries.{
  AppendEntriesArgs, AppendEntriesReply, sync_logs, match_prev, check_prev, follow, append_entries,
  advance_commit,
}
use ai_fs.Raft.Snapshots.{
  InstallSnapshotArgs, find_split, split_logs, snapshot, install, install_snapshot,
}
use ai_fs.Raft.Replication.{start, make_append_entry, send_entries, entries_from}
use ai_fs.Raft.Logs.{InLog}
use ai_fs.Raft.Logs.Accepted.{InLog-of_prev}
use ai_fs.Raft.Valid.{IsValid}
use ai_fs.Raft.Network.{Creation, last_term}
use ai_fs.Raft.Network.Chain.{Chain}
use ai_fs.Raft.Network.Chains.{
  Linked, sync_logs-Linked, IsLinked-append, linked-drop-to, log_at_physical, find_split_lem,
  trimmed, SameLog, SameLog-Linked,
}

module _ {C : Type 0} (made : List (Creation C)) (codec : Codec (Persistent C)) where
  written-SameLog :
      (commit : ℕ) (rf : Raft C) → SameLog made rf (advance_commit commit (persist codec rf))
  unfolding advance_commit persist
  written-SameLog commit rf = ground arith

  follow-SameLog :
      (now leader_id term : ℕ) (rf : Raft C) → SameLog made rf (follow codec now leader_id term rf)
  unfolding follow
  follow-SameLog now leader_id term rf = ground arith

  match_prev-Linked :
      (args : AppendEntriesArgs C) (prev : LogEntry C) (reply : AppendEntriesReply)
      (rf rf' : Raft C)
      → Linked made rf
      → InLog (args.prev_log_index + 1) rf
      → log_at args.prev_log_index rf ≡ some prev
      → Chain made args.prev_log_index args.prev_log_term args.entries
      → match_prev codec args rf prev ≡ some (rf', reply)
      → Linked made rf'
  unfolding match_prev
  match_prev-Linked args prev reply rf rf' h at e c s =
      elim (Bool-cases (args.prev_log_term == prev.term)) [
        | inl same ↦ elim (Option-cases (sync_logs (args.prev_log_index + 1) args.entries rf)) [
          | inl stuck ↦ ground arith
          | inr (synced, done) ↦
              let q : advance_commit args.leader_commit (persist codec synced) ≡ rf' =
                ground arith in
              let t : args.prev_log_term ≡ prev.term = ground arith in
              let linked =
                sync_logs-Linked made args.prev_log_index args.entries rf synced prev h at e
                  (subst (λ x. Chain made args.prev_log_index x args.entries) t c) done in
              subst (Linked made) q
                (SameLog-Linked made synced _ (written-SameLog args.leader_commit synced) linked)
        ]
        | inr other ↦ let q : rf ≡ rf' = ground arith in subst (Linked made) q h
      ]

  -- Entries of a message whose entries follow its previous one.
  pub append_entries-Linked :
      (now : ℕ) (args : AppendEntriesArgs C) (reply : AppendEntriesReply) (rf rf' : Raft C)
      → IsValid rf
      → Linked made rf
      → Chain made args.prev_log_index args.prev_log_term args.entries
      → append_entries codec now args rf ≡ some (rf', reply)
      → Linked made rf'
  unfolding append_entries check_prev
  append_entries-Linked now args reply rf rf' v h c s =
      elim (Bool-cases (ltb args.term rf.curr_term)) [
        | inl old ↦ let q : rf ≡ rf' = ground arith in subst (Linked made) q h
        | inr new ↦
            let followed = follow codec now args.leader_id args.term rf in
            let kept =
              SameLog-Linked made rf followed (follow-SameLog now args.leader_id args.term rf) h in
            elim (Option-cases (log_at args.prev_log_index followed)) [
              | inl outside ↦ let q : followed ≡ rf' = ground arith in subst (Linked made) q kept
              | inr (prev, e) ↦
                  let at = InLog-of_prev codec now args rf prev v e in
                  elim (Bool-cases (ltb (last_logical_index followed) args.prev_log_index)) [
                    | inl beyond ↦
                        let q : followed ≡ rf' = ground arith in subst (Linked made) q kept
                    | inr inside ↦
                        elim (Bool-cases (ltb args.prev_log_index followed.last_included_index)) [
                          | inl below ↦
                              let q : followed ≡ rf' = ground arith in subst (Linked made) q kept
                          | inr above ↦
                              match_prev-Linked args prev reply followed rf' kept at e c
                                (ground arith)
                        ]
                  ]
            ]
      ]

  pub start-Linked :
      (command : Option C) (rf : Raft C)
      → Linked made rf
      → 0 < length rf.logs
      → Chain made
          (last_logical_index rf)
          (last_term rf.logs)
          (record { term = rf.curr_term; command = command } ∷ [])
      → Linked made (start codec command rf).0
  unfolding start last_logical_index
  start-Linked command rf h pos c = elim (Bool-cases (is_leader rf)) [
    | inr follows ↦
        let q : rf ≡ (start codec command rf).0 = ground arith in subst (Linked made) q h
    | inl leads ↦
        let more : List (LogEntry C) = record { term = rf.curr_term; command = command } ∷ [] in
        let grown : Raft C = record rf { logs = rf.logs ++ more } in
        SameLog-Linked made grown (start codec command rf).0 (ground arith) (
          IsLinked-append made rf.last_included_index rf.logs more h pos
            (subst (λ x. Chain made x (last_term rf.logs) more) (omega arith) c))
  ]

  pub snapshot-Linked :
      (index : ℕ) (snap : Bytes) (rf rf' : Raft C)
      → Linked made rf
      → snapshot codec index snap rf ≡ some rf'
      → Linked made rf'
  unfolding snapshot get_physical_index
  snapshot-Linked index snap rf rf' h s = elim (Bool-cases (leb index rf.last_included_index)) [
    | inl old ↦ let q : rf ≡ rf' = ground arith in subst (Linked made) q h
    | inr new ↦ elim (Option-cases (log_at index rf)) [
      | inl outside ↦ ground arith
      | inr (e, found) ↦
          let k = rf.last_included_index in
          let (low, g) = log_at_physical made index rf e found in
          let behind =
            linked-drop-to made k (index - k) index (index + 1 - k) rf.logs e h g (omega arith)
              (omega arith) in
          elim (Bool-cases (ltb (index - k + 1) (length rf.logs))) [
            | inl more ↦
                SameLog-Linked made (trimmed made index e.term (drop (index + 1 - k) rf.logs) rf)
                  rf' (ground arith) behind
            | inr last ↦ SameLog-Linked made (trimmed made index e.term [] rf) rf' (ground arith) tt
          ]
    ]
  ]

  install-Linked :
      (args : InstallSnapshotArgs) (rf : Raft C)
      → Linked made rf
      → Linked made (install codec args rf)
  unfolding install split_logs
  install-Linked args rf h =
      let index = args.last_included_index in
      let term = args.last_included_term in
      elim (Option-cases (find_split rf index term 0 rf.logs none)) [
        | inl nowhere ↦
            SameLog-Linked made (trimmed made index term [] rf) (install codec args rf)
              (ground arith) tt
        | inr (i, found) ↦ elim (find_split_lem made rf index term 0 rf.logs none i found) [
          | inl before ↦ ground arith
          | inr (d, (e, g, at, there, same)) ↦
              SameLog-Linked made (trimmed made index term (drop (suc i) rf.logs) rf)
                (install codec args rf) (ground arith)
                (subst (λ t. Chain made index t (drop (suc i) rf.logs)) same
                  (linked-drop-to made rf.last_included_index d index (suc i) rf.logs e h g
                    (omega arith) (omega arith)))
        ]
      ]

  pub install_snapshot-Linked :
      (now : ℕ) (args : InstallSnapshotArgs) (rf : Raft C)
      → Linked made rf
      → Linked made (install_snapshot codec now args rf).0
  unfolding install_snapshot
  install_snapshot-Linked now args rf h = elim (Bool-cases (ltb args.term rf.curr_term)) [
    | inl old ↦
        let q : rf ≡ (install_snapshot codec now args rf).0 = ground arith in
        subst (Linked made) q h
    | inr new ↦
        let followed = follow codec now args.leader_id args.term rf in
        let kept =
          SameLog-Linked made rf followed (follow-SameLog now args.leader_id args.term rf) h in
        elim (Bool-cases (leb args.last_included_index followed.last_included_index)) [
          | inl known ↦
              let q : followed ≡ (install_snapshot codec now args rf).0 = ground arith in
              subst (Linked made) q kept
          | inr later ↦
              let q : install codec args followed ≡ (install_snapshot codec now args rf).0 =
                ground arith in
              subst (Linked made) q (install-Linked args followed kept)
        ]
  ]

  -- What a goroutine of `makeAppendEntry` sends follows the previous entry that it names.
  pub sent-Chain :
      (peer : ℕ) (rf : Raft C) (args : AppendEntriesArgs C)
      → Linked made rf
      → make_append_entry peer rf ≡ some (send_entries args)
      → Chain made args.prev_log_index args.prev_log_term args.entries
  unfolding make_append_entry entries_from get_physical_index
  sent-Chain peer rf args h s = elim (Option-cases (get_elem? rf.next_index peer)) [
    | inl absent ↦ ground arith
    | inr (next, e) ↦
        let k = rf.last_included_index in
        elim (Bool-cases (leb next k)) [
          | inl old ↦ ground arith
          | inr new ↦
              let above : k < next = ground arith in
              elim (Option-cases (get_elem? rf.logs (next - k - 1))) [
                | inl outside ↦ ground arith
                | inr (prev, g) ↦
                    let q : args ≡ record {
                      term = rf.curr_term;
                      leader_id = rf.me;
                      prev_log_index = next - 1;
                      prev_log_term = prev.term;
                      entries = drop (next - k) rf.logs;
                      leader_commit = rf.commit_index;
                    } =
                      ground arith in
                    subst (λ x. Chain made x.prev_log_index x.prev_log_term x.entries) (sym q)
                      (linked-drop-to made k (next - k - 1) (next - 1) (next - k) rf.logs prev h g
                        (omega arith) (omega arith))
              ]
        ]
  ]
