-- ===== src/Raft/Network/Matching.antt =====
-- Logs that hold an entry of the same term at one index are the same up to it.
use ai_fs.Prelude.{
  ℕ, zero, suc, ◌+◌, ◌-◌, ◌≤◌, ◌<◌, ◌≡◌, refl, sym, ap, ◌∙◌, subst, some, List, [], ◌∷◌, get_elem?,
  get_elem?_total, lt-length_of_get_elem?, arith,
}
use ai_fs.Raft.State.{LogEntry, Raft, Codec, Persistent, log_at, get_physical_index}
use ai_fs.Raft.Network.{Creation, Network, History, new_network}
use ai_fs.Raft.Network.Chain.{IsCreated, IsLinked, Chain-at}
use ai_fs.Raft.Network.Chains.{Linked, log_at_physical}
use ai_fs.Raft.Network.Logged.{IsLogged}
use ai_fs.Raft.Network.Kept.{History-IsLogged}

module _ {C : Type 0} (made : List (Creation C)) where
  linked-at :
      (k d : ℕ) (logs : List (LogEntry C)) (entry : LogEntry C)
      → IsLinked made k logs
      → get_elem? logs (suc d) ≡ some entry
      → (prev : LogEntry C) × ((get_elem? logs d ≡ some prev)
          × IsCreated made (k + d + 1) entry prev.term)
  linked-at k d [] entry h e = ground arith
  linked-at k d (base ∷ entries) entry h e =
      let (prev, p) =
        get_elem?_total (base ∷ entries) d
          (omega (arith, lt-length_of_get_elem? entries d entry e)) in
      (prev, (p, Chain-at made k base entries d prev entry h p e))

  -- An entry behind the beginning of the log was created behind the one before it.
  log_at-IsCreated :
      (m : ℕ) (rf : Raft C) (entry : LogEntry C)
      → Linked made rf
      → rf.last_included_index < m + 1
      → log_at (m + 1) rf ≡ some entry
      → (prev : LogEntry C) × ((log_at m rf ≡ some prev) × IsCreated made (m + 1) entry prev.term)
  unfolding log_at get_physical_index
  log_at-IsCreated m rf entry h low e =
      let k = rf.last_included_index in
      let (_, g) = log_at_physical made (m + 1) rf entry e in
      let next : m + 1 - k ≡ suc (m - k) = omega arith in
      let (prev, (p, c)) =
        linked-at k (m - k) rf.logs entry h
          (subst (λ x. get_elem? rf.logs x ≡ some entry) next g) in
      (prev, (ground arith, subst (λ x. IsCreated made x entry prev.term) (omega arith) c))

module _ {C : Type 0} (codec : Codec (Persistent C)) (n : ℕ) where
  created_once :
      (s : Network C) (m p q : ℕ) (a b : LogEntry C)
      → IsLogged codec n s
      → IsCreated s.created m a p
      → IsCreated s.created m b q
      → a.term ≡ b.term
      → (a ≡ b) × (p ≡ q)
  created_once s m p q a b v (i, x) (j, y) t =
      let (command, prev) = v.unique _ _ x y refl t in (ground arith, prev)

  -- By induction on how far the index lies below the entries of the same term.
  logged-match :
      (s : Network C) (i j d k : ℕ) (a b : LogEntry C)
      → IsLogged codec n s
      → i < n
      → j < n
      → log_at (k + d + 1) (s.cluster.peer i) ≡ some a
      → log_at (k + d + 1) (s.cluster.peer j) ≡ some b
      → a.term ≡ b.term
      → (s.cluster.peer i).last_included_index < k + 1
      → (s.cluster.peer j).last_included_index < k + 1
      → log_at (k + 1) (s.cluster.peer i) ≡ log_at (k + 1) (s.cluster.peer j)
  logged-match s i j zero k a b v hi hj ea eb t li lj =
      let rfi = s.cluster.peer i in
      let rfj = s.cluster.peer j in
      let at : k + 0 + 1 ≡ k + 1 = omega arith in
      let fa = subst (λ x. log_at x rfi ≡ some a) at ea in
      let fb = subst (λ x. log_at x rfj ≡ some b) at eb in
      let (p, (_, ca)) = log_at-IsCreated s.created k rfi a (v.fit i hi).linked li fa in
      let (q, (_, cb)) = log_at-IsCreated s.created k rfj b (v.fit j hj).linked lj fb in
      fa ∙ ap some (created_once s (k + 1) p.term q.term a b v ca cb t).0 ∙ sym fb
  logged-match s i j (suc d) k a b v hi hj ea eb t li lj =
      let rfi = s.cluster.peer i in
      let rfj = s.cluster.peer j in
      let at : k + suc d + 1 ≡ k + d + 1 + 1 = omega arith in
      let (p, (ep, ca)) =
        log_at-IsCreated s.created (k + d + 1) rfi a (v.fit i hi).linked (omega arith)
          (subst (λ x. log_at x rfi ≡ some a) at ea) in
      let (q, (eq, cb)) =
        log_at-IsCreated s.created (k + d + 1) rfj b (v.fit j hj).linked (omega arith)
          (subst (λ x. log_at x rfj ≡ some b) at eb) in
      let same = (created_once s (k + d + 1 + 1) p.term q.term a b v ca cb t).1 in
      logged-match s i j d k p q v hi hj ep eq same li lj

  -- After any elections, crashes, snapshots, and any delivery of requests for entries, late, more
  -- than once or never: if the logs of two peers hold entries of the same term at index `m`, they
  -- hold the same entry at each index up to `m` that lies behind the beginning of both logs.
  pub logs_match :
      (now : ℕ) (s : Network C)
      → History codec n (new_network codec n now) s
      → (i j m k : ℕ) (a b : LogEntry C) → i < n
      → j < n
      → log_at m (s.cluster.peer i) ≡ some a
      → log_at m (s.cluster.peer j) ≡ some b
      → a.term ≡ b.term
      → k ≤ m
      → (s.cluster.peer i).last_included_index < k
      → (s.cluster.peer j).last_included_index < k
      → log_at k (s.cluster.peer i) ≡ log_at k (s.cluster.peer j)
  logs_match now s past i j m zero a b hi hj ea eb t le li lj = absurd (omega arith)
  logs_match now s past i j m (suc k) a b hi hj ea eb t le li lj =
      let at : m ≡ k + (m - (k + 1)) + 1 = omega arith in
      subst (λ x. log_at x (s.cluster.peer i) ≡ log_at x (s.cluster.peer j)) (omega arith)
        (logged-match s i j (m - (k + 1)) k a b (History-IsLogged codec n now s past) hi hj
          (subst (λ x. log_at x (s.cluster.peer i) ≡ some a) at ea)
          (subst (λ x. log_at x (s.cluster.peer j) ≡ some b) at eb) t (omega arith) (omega arith))
