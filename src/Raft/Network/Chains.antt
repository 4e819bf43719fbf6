-- ===== src/Raft/Network/Chains.antt =====
-- A log that is cut, extended or trimmed stays a chain.
use mathlib.Core.Option.{some-injective}
use ai_fs.Prelude.{
  ℕ, suc, ◌+◌, ◌-◌, ◌≤◌, ◌<◌, ◌≡◌, refl, sym, subst, ◌⊎◌, inl, inr, Bool-cases, ◌==◌, ◌&&◌, Option,
  some, List, [], ◌∷◌, ◌++◌, take, take-length, drop, length, get_elem?, arith,
}
use ai_fs.Raft.State.{LogEntry, Raft, log_at}
use ai_fs.Raft.AppendEntries.{sync_logs}
use ai_fs.Raft.Snapshots.{base_entry, find_split}
use ai_fs.Raft.Logs.{InLog, sync_logs_cases, cut_at}
use ai_fs.Raft.Network.{Creation, last_term}
use ai_fs.Raft.Network.Chain.{
  Chain, IsLinked, Chain-cut, Chain-drop, TermBehind-of_get_elem?, TermBehind-last,
}

module _ {C : Type 0} (made : List (Creation C)) where
  abbrev pub Linked : Raft C → Type 0
  Linked rf = IsLinked made rf.last_included_index rf.logs

  -- A log is cut behind an entry, and others follow that.
  IsLinked-cut :
      (k m : ℕ) (logs : List (LogEntry C)) (entry : LogEntry C) (more : List (LogEntry C))
      → IsLinked made k logs
      → get_elem? logs m ≡ some entry
      → Chain made (k + m) entry.term more
      → IsLinked made k (take (m + 1) logs ++ more)
  IsLinked-cut k m [] entry more h e c = ground arith
  IsLinked-cut k m (base ∷ entries) entry more h e c =
      let next : suc m ≡ m + 1 = omega arith in
      subst (λ x. IsLinked made k (take x (base ∷ entries) ++ more)) next
        (Chain-cut made k base.term entries m entry.term more h
          (TermBehind-of_get_elem? base entries m entry e) c)

  -- The part of a log behind an entry.
  linked-drop :
      (k m : ℕ) (logs : List (LogEntry C)) (entry : LogEntry C)
      → IsLinked made k logs
      → get_elem? logs m ≡ some entry
      → Chain made (k + m) entry.term (drop (m + 1) logs)
  linked-drop k m [] entry h e = ground arith
  linked-drop k m (base ∷ entries) entry h e =
      let next : suc m ≡ m + 1 = omega arith in
      subst (λ x. Chain made (k + m) entry.term (drop x (base ∷ entries))) next
        (Chain-drop made k base.term entries m entry.term h
          (TermBehind-of_get_elem? base entries m entry e))

  pub log_at_physical :
      (i : ℕ) (rf : Raft C) (entry : LogEntry C)
      → log_at i rf ≡ some entry
      → (rf.last_included_index ≤ i) × (get_elem? rf.logs (i - rf.last_included_index) ≡ some entry)
  unfolding log_at
  log_at_physical i rf entry h = ground arith

  cut_at-Linked :
      (curr : ℕ) (entries : List (LogEntry C)) (rf : Raft C) (prev : LogEntry C)
      → Linked rf
      → log_at curr rf ≡ some prev
      → Chain made curr prev.term entries
      → Linked (cut_at (curr + 1) entries rf)
  cut_at-Linked curr entries rf prev h e c =
      let (low, g) = log_at_physical curr rf prev e in
      let k = rf.last_included_index in
      subst (λ x. IsLinked made k (take x rf.logs ++ entries)) (omega arith)
        (IsLinked-cut k (curr - k) rf.logs prev entries h g
          (subst (λ x. Chain made x prev.term entries) (omega arith) c))

  -- The loop over the entries, which follow the entry at `curr`.
  pub sync_logs-Linked :
      (curr : ℕ) (entries : List (LogEntry C)) (rf rf' : Raft C) (prev : LogEntry C)
      → Linked rf
      → InLog (curr + 1) rf
      → log_at curr rf ≡ some prev
      → Chain made curr prev.term entries
      → sync_logs (curr + 1) entries rf ≡ some rf'
      → Linked rf'
  unfolding sync_logs
  sync_logs-Linked curr [] rf rf' prev h at e c s = subst Linked (some-injective rf rf' s) h
  sync_logs-Linked curr (entry ∷ entries) rf rf' prev h at e (l, c) s =
      elim (sync_logs_cases (curr + 1) entry entries rf rf' at s) [
        | inl ((mine, found, same), s', at') ↦
            sync_logs-Linked (curr + 1) entries rf rf' mine h at' found
              (subst (λ t. Chain made (curr + 1) t entries) (sym same) c) s'
        | inr cut ↦ subst Linked (sym cut) (cut_at-Linked curr (entry ∷ entries) rf prev h e (l, c))
      ]

  pub IsLinked-append :
      (k : ℕ) (logs more : List (LogEntry C))
      → IsLinked made k logs
      → 0 < length logs
      → Chain made (k + (length logs - 1)) (last_term logs) more
      → IsLinked made k (logs ++ more)
  IsLinked-append k [] more h pos c = absurd (omega arith)
  IsLinked-append k (base ∷ entries) more h pos c =
      subst (λ xs. Chain made k base.term (xs ++ more)) (take-length entries)
        (Chain-cut made k base.term entries (length entries) (last_term (base ∷ entries)) more h
          (TermBehind-last base.term entries)
          (subst (λ x. Chain made x (last_term (base ∷ entries)) more) (omega arith) c))

  pub linked-drop-to :
      (k m index d : ℕ) (logs : List (LogEntry C)) (entry : LogEntry C)
      → IsLinked made k logs
      → get_elem? logs m ≡ some entry
      → k + m ≡ index
      → m + 1 ≡ d
      → Chain made index entry.term (drop d logs)
  linked-drop-to k m index d logs entry h g at next =
      subst (λ x. Chain made x entry.term (drop d logs)) at
        (subst (λ x. Chain made (k + m) entry.term (drop x logs)) next
          (linked-drop k m logs entry h g))

  -- What `find_split` finds is the entry that the snapshot covers last.
  pub find_split_lem :
      (rf : Raft C) (index term i : ℕ) (entries : List (LogEntry C)) (found : Option ℕ) (j : ℕ)
      → find_split rf index term i entries found ≡ some j
      → (found ≡ some j)
        ⊎ ((d : ℕ) × ((e : LogEntry C) × (get_elem? entries d ≡ some e)
              × (j ≡ i + d)
              × (j + rf.last_included_index ≡ index)
              × (e.term ≡ term)))
  unfolding find_split
  find_split_lem rf index term i [] found j h = inl h
  find_split_lem rf index term i (entry ∷ entries) found j h =
      elim (Bool-cases (i + rf.last_included_index == index && entry.term == term)) [
        | inl hit ↦ elim (find_split_lem rf index term (i + 1) entries (some i) j (ground arith)) [
          | inl here ↦ inr (0, (entry, refl, ground arith, ground arith, ground arith))
          | inr (d, (e, g, at, index_eq, term_eq)) ↦
              inr (suc d, (e, g, omega arith, index_eq, term_eq))
        ]
        | inr miss ↦ elim (find_split_lem rf index term (i + 1) entries found j (ground arith)) [
          | inl before ↦ inl before
          | inr (d, (e, g, at, index_eq, term_eq)) ↦
              inr (suc d, (e, g, omega arith, index_eq, term_eq))
        ]
      ]

  abbrev pub trimmed : (index term : ℕ) → List (LogEntry C) → Raft C → Raft C
  trimmed index term later rf = record rf {
    logs = base_entry term ∷ later;
    last_included_index = index;
  }

  -- The log and its beginning stay.
  pub record SameLog (rf rf' : Raft C) : Type 0 where
    pub logs : rf'.logs ≡ rf.logs
    pub start : rf'.last_included_index ≡ rf.last_included_index

  pub SameLog-Linked : (rf rf' : Raft C) → SameLog rf rf' → Linked rf → Linked rf'
  SameLog-Linked rf rf' same h =
      subst (λ x. IsLinked made rf'.last_included_index x) (sym same.logs)
        (subst (λ x. IsLinked made x rf.logs) (sym same.start) h)
