-- ===== src/Raft/Quorum.antt =====
-- Sets of peers, and that two majorities have a peer in common. Used for commits and for votes.
use ai_fs.Prelude.{
  ℕ, zero, suc, ◌+◌, ◌≤◌, ◌<◌, ◌≡◌, refl, List, [], ◌∷◌, length, arith, subst, ◌⊎◌, inl, inr,
  ℕ_discrete,
}

-- Peers below `bound`, all with `P`, each once: the highest comes first.
abbrev pub Peers : (P : ℕ → Type 0) (bound : ℕ) → List ℕ → Type 0
Peers P bound [] = Unit {0}
Peers P bound (p ∷ ps) = (p < bound) × P p × Peers P p ps

-- More than half of `n`, as the code tests it: `votes > n / 2`.
abbrev pub IsMajority : (n votes : ℕ) → Type 0
IsMajority n votes = n < votes + votes

-- The highest peer below `suc n` is in the set, or all of the set is below `n`.
pub Peers-top :
    (P : ℕ → Type 0) (n : ℕ) (ps : List ℕ)
    → Peers P (suc n) ps
    → (P n × ((rest : List ℕ) × Peers P n rest × (length ps ≡ suc (length rest)))) ⊎ Peers P n ps
Peers-top P n [] s = inr tt
Peers-top P n (p ∷ ps) (lt, x, s) = elim (ℕ_discrete p n) [
  | yes e ↦ inl (subst P e x, (ps, subst (λ b. Peers P b ps) e s, refl))
  | no e ↦ inr (omega arith, x, s)
]

-- Two sets that are together larger than the number of peers share one.
pub Peers-meet :
    (P Q : ℕ → Type 0) (n : ℕ) (ps qs : List ℕ)
    → Peers P n ps
    → Peers Q n qs
    → n < length ps + length qs
    → (p : ℕ) × (p < n) × P p × Q p
Peers-meet P Q zero [] [] s t h = absurd (omega arith)
Peers-meet P Q zero [] (q ∷ qs) s t h = absurd (omega (arith, t.0))
Peers-meet P Q zero (p ∷ ps) qs s t h = absurd (omega (arith, s.0))
Peers-meet P Q (suc n) ps qs s t h = elim (Peers-top P n ps s) [
  | inl (x, (rest, s', e)) ↦ elim (Peers-top Q n qs t) [
    | inl (y, _) ↦ (n, omega arith, x, y)
    | inr t' ↦ widen (Peers-meet P Q n rest qs s' t' (omega arith))
  ]
  | inr s' ↦ elim (Peers-top Q n qs t) [
    | inl (y, (rest, t', e)) ↦ widen (Peers-meet P Q n ps rest s' t' (omega arith))
    | inr t' ↦ widen (Peers-meet P Q n ps qs s' t' (omega arith))
  ]
]
  where
    widen : (p : ℕ) × (p < n) × P p × Q p → (p : ℕ) × (p < suc n) × P p × Q p
    widen (p, lt, x, y) = (p, omega arith, x, y)

pub Peers-widen : (P : ℕ → Type 0) (b c : ℕ) (ps : List ℕ) → b ≤ c → Peers P b ps → Peers P c ps
Peers-widen P b c [] h s = tt
Peers-widen P b c (p ∷ ps) h (lt, x, s) = (omega arith, x, s)
