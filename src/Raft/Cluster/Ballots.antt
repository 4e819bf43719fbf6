-- ===== src/Raft/Cluster/Ballots.antt =====
-- Counting the votes of an election.
use ai_fs.Prelude.{
  ℕ, zero, suc, ◌+◌, ◌≤◌, ◌<◌, ◌≡◌, refl, Bool, true, false, if◌then◌else◌, ◌==◌, ==_iff, List, [],
  ◌∷◌, length, Among, arith, Bool-cases, inl, inr,
}
use ai_fs.Raft.Quorum.{Peers, IsMajority, Peers-widen}
use ai_fs.Raft.Cluster.{Ballot, put}

-- How many peers below `n` have voted.
abbrev pub count : (n : ℕ) → (ℕ → Bool) → ℕ
count zero got = 0
count (suc p) got = (if got p then 1 else 0) + count p got

pub count-Peers :
    (n : ℕ) (got : ℕ → Bool)
    → (ps : List ℕ) × Peers (λ p. got p ≡ true) n ps × (length ps ≡ count n got)
count-Peers zero got = ([], tt, refl)
count-Peers (suc n) got =
    let (ps, s, l) = count-Peers n got in
    elim (Bool-cases (got n)) [
      | inl e ↦ (n ∷ ps, (omega arith, e, s), ground arith)
      | inr e ↦ (ps, Peers-widen (λ p. got p ≡ true) n (suc n) ps (omega arith) s, ground arith)
    ]

count-put_above : (n p : ℕ) (got : ℕ → Bool) → n ≤ p → count n (put p true got) ≡ count n got
count-put_above zero p got h = refl
count-put_above (suc n) p got h = ground (arith, count-put_above n p got, ==_iff n p)

-- One more peer has voted.
pub count-put :
    (n p : ℕ) (got : ℕ → Bool) → p < n → got p ≡ false → count n (put p true got) ≡ count n got + 1
count-put zero p got h e = absurd (omega arith)
count-put (suc n) p got h e = elim (Bool-cases (n == p)) [
  | inl same ↦ ground (arith, count-put_above n p got, ==_iff n p)
  | inr other ↦ ground (arith, count-put n p got, ==_iff n p)
]

pub count_none : (n : ℕ) → count n (λ _. false) ≡ 0
count_none zero = refl
count_none (suc n) = omega (arith, count_none n)

pub Peers-map :
    (P Q : ℕ → Type 0) (n : ℕ) (ps : List ℕ) → ((p : ℕ) → P p → Q p) → Peers P n ps → Peers Q n ps
Peers-map P Q n [] f s = tt
Peers-map P Q n (p ∷ ps) f (lt, x, s) = (lt, f p x, Peers-map P Q p ps f s)

abbrev pub HasVote : List Ballot → (term candidate voter : ℕ) → Type 0
HasVote ballots term candidate voter =
    Among (record { voter = voter; term = term; candidate = candidate }) ballots

-- More than half of the `n` peers voted for the candidate in the term.
abbrev pub HasMajority : (n : ℕ) → List Ballot → (term candidate : ℕ) → Type 0
HasMajority n ballots term candidate =
    (ps : List ℕ) × Peers (HasVote ballots term candidate) n ps × IsMajority n (length ps)

abbrev pub Grows : List Ballot → List Ballot → Type 0
Grows bs bs' = (b : Ballot) → Among b bs → Among b bs'

pub Grows-HasMajority :
    (n : ℕ) (bs bs' : List Ballot) (term candidate : ℕ)
    → Grows bs bs'
    → HasMajority n bs term candidate
    → HasMajority n bs' term candidate
Grows-HasMajority n bs bs' term candidate g (ps, s, m) =
    (ps, Peers-map (HasVote bs term candidate) (HasVote bs' term candidate) n ps (λ p. g _) s, m)
