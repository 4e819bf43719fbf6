-- ===== src/Raft/Logs.antt =====
-- What `AppendEntries` does to the log of the peer that takes the entries.
pub mod Accepted
pub mod Known
pub mod Taken
use mathlib.Core.Option.{some-injective}
use ai_fs.Prelude.{
  take-length, ◌⊎◌, ℕ, zero, suc, ◌+◌, ◌-◌, ◌≤◌, ◌<◌, ◌≡◌, ◌∙◌, refl, sym, ap, subst, some, List,
  [], ◌∷◌, ◌++◌, take, length, get_elem?, get_elem?-append_left, get_elem?-append_right,
  get_elem?-take, length-take, arith, leb, ltb, ◌==◌, Bool-cases, Option-cases, inl, inr,
}
use ai_fs.Raft.State.{Raft, LogEntry, log_at, last_logical_index}
use ai_fs.Raft.AppendEntries.{sync_logs}

module _ {C : Type 0} where
  -- The log has an entry of term `t` at index `i`.
  abbrev pub TermAt : (i t : ℕ) → Raft C → Type 0
  TermAt i t rf = (entry : LogEntry C) × (log_at i rf ≡ some entry) × (entry.term ≡ t)

  -- Cutting the log at physical index `k` and appending keeps the entries before it.
  log_at-cut :
      (i k : ℕ) (entries : List (LogEntry C)) (rf : Raft C)
      → i < rf.last_included_index + k
      → k ≤ length rf.logs
      → log_at i (record rf { logs = take k rf.logs ++ entries }) ≡ log_at i rf
  unfolding log_at
  log_at-cut i k entries rf h m = elim (Bool-cases (ltb i rf.last_included_index)) [
    | inl below ↦ ground arith
    | inr above ↦ ground (
      arith,
      get_elem?-append_left (take k rf.logs) entries (i - rf.last_included_index),
      get_elem?-take k rf.logs (i - rf.last_included_index),
      length-take k rf.logs,
    )
  ]

  -- The new entries follow the cut.
  log_at-cut_new :
      (k j : ℕ) (entries : List (LogEntry C)) (rf : Raft C)
      → k ≤ length rf.logs
      → log_at (rf.last_included_index + k + j) (record rf { logs = take k rf.logs ++ entries })
        ≡ get_elem? entries j
  unfolding log_at
  log_at-cut_new k j entries rf h =
      ground (arith, get_elem?-append_right (take k rf.logs) entries j, length-take k rf.logs)

  -- How the log goes on from the index `curr` when an entry differs or the log ends there.
  abbrev pub cut_at : ℕ → List (LogEntry C) → Raft C → Raft C
  cut_at curr entries rf = record rf {
    logs = take (curr - rf.last_included_index) rf.logs ++ entries;
  }

  -- `curr` is behind the first entry, and at most one behind the last.
  pub record InLog (curr : ℕ) (rf : Raft C) : Type 0 where
    pub behind : rf.last_included_index < curr
    pub within : curr ≤ last_logical_index rf + 1
    pub nonempty : 0 < length rf.logs

  at_end :
      (curr : ℕ) (rf : Raft C)
      → InLog curr rf
      → last_logical_index rf < curr
      → curr - rf.last_included_index ≡ length rf.logs
  unfolding last_logical_index
  at_end curr rf at h = omega arith

  -- One round of the loop: the first entry matches and the loop goes on, or the log is cut.
  pub sync_logs_cases :
      (curr : ℕ) (entry : LogEntry C) (entries : List (LogEntry C)) (rf rf' : Raft C)
      → InLog curr rf
      → sync_logs curr (entry ∷ entries) rf ≡ some rf'
      → (TermAt curr entry.term rf
          × (sync_logs (curr + 1) entries rf ≡ some rf')
          × InLog (curr + 1) rf)
        ⊎ (rf' ≡ cut_at curr (entry ∷ entries) rf)
  unfolding sync_logs
  sync_logs_cases curr entry entries rf rf' at h =
      elim (Bool-cases (leb curr (last_logical_index rf))) [
        | inl inside ↦ elim (Option-cases (log_at curr rf)) [
          | inl e ↦ ground arith
          | inr (mine, e) ↦ elim (Bool-cases (mine.term == entry.term)) [
            | inl same ↦ inl ((mine, e, ground arith), ground arith, ground arith)
            | inr other ↦ inr (ground arith)
          ]
        ]
        | inr outside ↦ inr (rw (at_end curr rf at (ground arith), take-length) (ground arith))
      ]

  pub cut_fits :
      (curr : ℕ) (rf : Raft C)
      → InLog curr rf
      → (curr - rf.last_included_index ≤ length rf.logs)
        × (rf.last_included_index + (curr - rf.last_included_index) ≡ curr)
  unfolding last_logical_index
  cut_fits curr rf at = omega arith

  -- Nothing before `curr` changes.
  pub sync_logs_before :
      (curr : ℕ) (entries : List (LogEntry C)) (rf rf' : Raft C) (i : ℕ)
      → InLog curr rf
      → i < curr
      → sync_logs curr entries rf ≡ some rf'
      → log_at i rf' ≡ log_at i rf
  unfolding sync_logs
  sync_logs_before curr [] rf rf' i at h e = ap (log_at i) (sym (some-injective rf rf' e))
  sync_logs_before curr (entry ∷ entries) rf rf' i at h e =
      elim (sync_logs_cases curr entry entries rf rf' at e) [
        | inl (m, e', at') ↦ sync_logs_before (curr + 1) entries rf rf' i at' (omega arith) e'
        | inr e' ↦ rw e' (
            log_at-cut i (curr - rf.last_included_index) (entry ∷ entries) rf
              (omega (arith, cut_fits curr rf at)) (cut_fits curr rf at).0)
      ]

  cut_terms :
      (curr j : ℕ) (entries : List (LogEntry C)) (rf : Raft C) (e : LogEntry C)
      → InLog curr rf
      → get_elem? entries j ≡ some e
      → TermAt (curr + j) e.term (cut_at curr entries rf)
  cut_terms curr j entries rf e at g =
      let (h, k) = cut_fits curr rf at in
      (
        e,
        subst (λ i. log_at (i + j) (cut_at curr entries rf) ≡ some e) k
            (log_at-cut_new (curr - rf.last_included_index) j entries rf h ∙ g),
        refl,
      )

  -- From `curr` on the log has the terms of the entries.
  pub sync_logs_terms :
      (curr : ℕ) (entries : List (LogEntry C)) (rf rf' : Raft C) (j : ℕ) (e : LogEntry C)
      → InLog curr rf
      → sync_logs curr entries rf ≡ some rf'
      → get_elem? entries j ≡ some e
      → TermAt (curr + j) e.term rf'
  sync_logs_terms curr [] rf rf' j e at h g = ground arith
  sync_logs_terms curr (entry ∷ entries) rf rf' zero e at h g =
      elim (sync_logs_cases curr entry entries rf rf' at h) [
        | inl ((x, p, q), h', at') ↦ (
          x,
          subst (λ i. log_at i rf' ≡ some x) (omega arith)
              (sync_logs_before (curr + 1) entries rf rf' curr at' (omega arith) h' ∙ p),
          ground arith,
        )
        | inr h' ↦ rw h' (cut_terms curr zero (entry ∷ entries) rf e at g)
      ]
  sync_logs_terms curr (entry ∷ entries) rf rf' (suc j) e at h g =
      elim (sync_logs_cases curr entry entries rf rf' at h) [
        | inl (m, h', at') ↦
            subst (λ i. TermAt i e.term rf') (omega arith)
              (sync_logs_terms (curr + 1) entries rf rf' j e at' h' g)
        | inr h' ↦ rw h' (cut_terms curr (suc j) (entry ∷ entries) rf e at g)
      ]

  -- Entries that the log has already are taken, and nothing is cut.
  pub sync_logs_known :
      (curr : ℕ) (entries : List (LogEntry C)) (rf : Raft C)
      → ((j : ℕ) (e : LogEntry C)
          → get_elem? entries j ≡ some e
          → (curr + j ≤ last_logical_index rf) × TermAt (curr + j) e.term rf)
      → sync_logs curr entries rf ≡ some rf
  unfolding sync_logs
  sync_logs_known curr [] rf known = refl
  sync_logs_known curr (entry ∷ entries) rf known =
      let (inside, (x, p, q)) = first (known 0 entry refl) in
      let rest = sync_logs_known (curr + 1) entries rf (λ j e g. later j e (known (suc j) e g)) in
      ground arith
    where
      first :
          (curr + 0 ≤ last_logical_index rf) × TermAt (curr + 0) entry.term rf
          → (curr ≤ last_logical_index rf) × TermAt curr entry.term rf
      first h = subst (λ i. (i ≤ last_logical_index rf) × TermAt i entry.term rf) (omega arith) h

      later :
          (j : ℕ) (e : LogEntry C)
          → (curr + suc j ≤ last_logical_index rf) × TermAt (curr + suc j) e.term rf
          → (curr + 1 + j ≤ last_logical_index rf) × TermAt (curr + 1 + j) e.term rf
      later j e h = subst (λ i. (i ≤ last_logical_index rf) × TermAt i e.term rf) (omega arith) h
