-- ===== src/Raft/Network/Chain.antt =====
-- Logs as chains: each entry was created behind an entry of the term of the one before it.
use ai_fs.Prelude.{
  ℕ, zero, suc, ◌+◌, ◌≡◌, refl, sym, subst, inr, some, List, [], ◌∷◌, ◌++◌, take, drop, length,
  get_elem?, Among, arith,
}
use ai_fs.Raft.State.{LogEntry}
use ai_fs.Raft.Network.{Creation, last_term_from}

module _ {C : Type 0} where
  abbrev pub IsCreated : List (Creation C) → (index : ℕ) → LogEntry C → (prev_term : ℕ) → Type 0
  IsCreated made index entry prev_term =
      (by : ℕ) × Among
        (record {
          index = index;
          term = entry.term;
          command = entry.command;
          prev_term = prev_term;
          by = by;
        })
        made

  -- The entries follow an entry at index `k` of term `t`.
  abbrev pub Chain : List (Creation C) → (k t : ℕ) → List (LogEntry C) → Type 0
  Chain made k t [] = Unit {0}
  Chain made k t (entry ∷ entries) =
      IsCreated made (k + 1) entry t × Chain made (k + 1) entry.term entries

  -- A log whose first entry stands for index `k`.
  abbrev pub IsLinked : List (Creation C) → (k : ℕ) → List (LogEntry C) → Type 0
  IsLinked made k [] = Unit {0}
  IsLinked made k (base ∷ entries) = Chain made k base.term entries

  -- At `m` places behind an entry of term `t` there is one of term `q`.
  abbrev pub TermBehind : (t : ℕ) → List (LogEntry C) → (m q : ℕ) → Type 0
  TermBehind t entries zero q = t ≡ q
  TermBehind t [] (suc m) q = ⊥
  TermBehind t (entry ∷ entries) (suc m) q = TermBehind entry.term entries m q

  pub Chain-grows :
      (made : List (Creation C)) (c : Creation C) (k t : ℕ) (entries : List (LogEntry C))
      → Chain made k t entries
      → Chain (c ∷ made) k t entries
  Chain-grows made c k t [] h = tt
  Chain-grows made c k t (entry ∷ entries) ((by, m), h) =
      ((by, inr m), Chain-grows made c (k + 1) entry.term entries h)

  -- A chain is cut behind an entry, and others follow that.
  pub Chain-cut :
      (made : List (Creation C)) (k t : ℕ) (entries : List (LogEntry C)) (m q : ℕ)
      (more : List (LogEntry C))
      → Chain made k t entries
      → TermBehind t entries m q
      → Chain made (k + m) q more
      → Chain made k t (take m entries ++ more)
  Chain-cut made k t entries zero q more h b c =
      subst (λ x. Chain made x t more) (omega arith)
        (subst (λ x. Chain made (k + 0) x more) (sym b) c)
  Chain-cut made k t [] (suc m) q more h b c = absurd b
  Chain-cut made k t (entry ∷ entries) (suc m) q more (l, h) b c = (
    l,
    Chain-cut made (k + 1) entry.term entries m q more h b
        (subst (λ x. Chain made x q more) (omega arith) c),
  )

  pub Chain-drop :
      (made : List (Creation C)) (k t : ℕ) (entries : List (LogEntry C)) (m q : ℕ)
      → Chain made k t entries
      → TermBehind t entries m q
      → Chain made (k + m) q (drop m entries)
  Chain-drop made k t entries zero q h b =
      subst (λ x. Chain made x q entries) (omega arith) (subst (λ x. Chain made k x entries) b h)
  Chain-drop made k t [] (suc m) q h b = absurd b
  Chain-drop made k t (entry ∷ entries) (suc m) q (l, h) b =
      subst (λ x. Chain made x q (drop m entries)) (omega arith)
        (Chain-drop made (k + 1) entry.term entries m q h b)

  pub TermBehind-of_get_elem? :
      (base : LogEntry C) (entries : List (LogEntry C)) (m : ℕ) (entry : LogEntry C)
      → get_elem? (base ∷ entries) m ≡ some entry
      → TermBehind base.term entries m entry.term
  TermBehind-of_get_elem? base entries zero entry e = ground arith
  TermBehind-of_get_elem? base [] (suc m) entry e = ground arith
  TermBehind-of_get_elem? base (x ∷ entries) (suc m) entry e =
      TermBehind-of_get_elem? x entries m entry e

  pub TermBehind-last :
      (t : ℕ) (entries : List (LogEntry C))
      → TermBehind t entries (length entries) (last_term_from t entries)
  TermBehind-last t [] = refl
  TermBehind-last t (entry ∷ entries) = TermBehind-last entry.term entries

  -- The entry at `m + 1` places behind index `k` was created behind the one before it.
  pub Chain-at :
      (made : List (Creation C)) (k : ℕ) (base : LogEntry C) (entries : List (LogEntry C)) (m : ℕ)
      (prev entry : LogEntry C)
      → Chain made k base.term entries
      → get_elem? (base ∷ entries) m ≡ some prev
      → get_elem? entries m ≡ some entry
      → IsCreated made (k + m + 1) entry prev.term
  Chain-at made k base [] m prev entry h p e = ground arith
  Chain-at made k base (x ∷ entries) zero prev entry (l, h) p e =
      let same : x ≡ entry = cc in
      let first : base ≡ prev = cc in
      subst (λ i. IsCreated made i entry prev.term) (omega arith)
        (subst (λ y. IsCreated made (k + 1) y prev.term) same
          (subst (λ y. IsCreated made (k + 1) x y.term) first l))
  Chain-at made k base (x ∷ entries) (suc m) prev entry (l, h) p e =
      subst (λ i. IsCreated made i entry prev.term) (omega arith)
        (Chain-at made (k + 1) x entries m prev entry h p e)
