-- ===== src/Raft/Network/Kept.antt =====
-- Every deed of the cluster and its messages keeps the invariant.
use ai_fs.Prelude.{
  ℕ, ◌+◌, ◌≤◌, ◌<◌, ◌≡◌, refl, sym, ap, ◌∙◌, subst, inl, inr, ==_iff, Option, List, [], ◌∷◌, Among,
  length, length-append, none, arith,
}
use ai_fs.Raft.Persister.{make_persister}
use ai_fs.Raft.State.{LogEntry, Raft, leader, Codec, Persistent, last_logical_index}
use ai_fs.Raft.AppendEntries.{AppendEntriesArgs}
use ai_fs.Raft.Replication.{start}
use ai_fs.Raft.Lifetime.{make}
use ai_fs.Raft.Steps.{Live}
use ai_fs.Raft.Quorum.{Peers-meet}
use ai_fs.Raft.Cluster.{Cluster, put, acts}
use ai_fs.Raft.Cluster.Ballots.{HasVote, HasMajority}
use ai_fs.Raft.Cluster.Sound.{IsSound}
use ai_fs.Raft.Cluster.Safety.{Move-IsSound, new_cluster-IsSound}
use ai_fs.Raft.Valid.{nonempty}
use ai_fs.Raft.Durability.{make_recovers}
use ai_fs.Raft.Valid.Runs.{made-IsValid}
use ai_fs.Raft.Steps
use ai_fs.Raft.Network.{
  Creation, Network, creation, Deed, moves, sends, delivers, starts, History, here, then_deed,
  new_network,
}
use ai_fs.Raft.Network.Chain.{Chain, IsLinked, Chain-grows}
use ai_fs.Raft.Network.Handlers.{append_entries-Linked, start-Linked, sent-Chain}
use ai_fs.Raft.Network.Turns.{IsFit, Live-Goes}
use ai_fs.Raft.Network.Logged.{IsOwned, Goes-IsOwned, IsLogged, PeersGo, put-Goes, quiet_move-Goes}

module _ {C : Type 0} where
  IsFit-grows :
      (made : List (Creation C)) (c : Creation C) (rf : Raft C)
      → IsFit made rf
      → IsFit (c ∷ made) rf
  IsFit-grows made c rf f = record {
    valid = f.valid;
    linked = go rf.last_included_index rf.logs f.linked;
  }
    where
      go : (k : ℕ) (logs : List (LogEntry C)) → IsLinked made k logs → IsLinked (c ∷ made) k logs
      go k [] h = tt
      go k (base ∷ entries) h = Chain-grows made c k base.term entries h

module _ {C : Type 0} (codec : Codec (Persistent C)) (n : ℕ) where
  -- A deed that creates no entry.
  going-IsLogged :
      (s : Network C) (c : Cluster C) (sent : List (AppendEntriesArgs C))
      → IsLogged codec n s
      → IsSound codec n c
      → PeersGo codec n s.created s.cluster c
      → ((args : AppendEntriesArgs C)
          → Among args sent
          → Chain s.created args.prev_log_index args.prev_log_term args.entries)
      → IsLogged codec n (record s { cluster = c; sent = sent })
  going-IsLogged s c sent v sound (grows, goes) chains = record {
    sound = sound;
    fit = λ i h. (goes i h).fit;
    messages = chains;
    owned = λ x m.
        let o = v.owned x m in Goes-IsOwned n s.created s.cluster c x grows (goes x.by o.inside) o;
    unique = v.unique;
  }

  sends-IsLogged :
      (s : Network C) (args : AppendEntriesArgs C)
      → IsLogged codec n s
      → Chain s.created args.prev_log_index args.prev_log_term args.entries
      → IsLogged codec n (record s { sent = args ∷ s.sent })
  sends-IsLogged s args v c = record {
    sound = v.sound;
    fit = v.fit;
    messages = λ x m. elim m [
      | inl same ↦ subst (λ y. Chain s.created y.prev_log_index y.prev_log_term y.entries) same c
      | inr old ↦ v.messages x old
    ];
    owned = v.owned;
    unique = v.unique;
  }

  start_lem :
      (command : Option C) (rf : Raft C)
      → 0 < length rf.logs
      → rf.state ≡ leader
      → ((start codec command rf).0.state ≡ leader)
        × ((start codec command rf).0.curr_term ≡ rf.curr_term)
        × (last_logical_index rf + 1 ≤ last_logical_index (start codec command rf).0)
  unfolding start last_logical_index
  start_lem command rf pos l =
      ground (arith, length-append rf.logs (record { term = rf.curr_term; command = command } ∷ []))

  -- No entry of a leader's term stands beyond its log.
  beyond_none :
      (s : Network C) (i : ℕ) (c : Creation C)
      → IsLogged codec n s
      → i < n
      → (s.cluster.peer i).state ≡ leader
      → Among c s.created
      → c.term ≡ (s.cluster.peer i).curr_term
      → c.index ≤ last_logical_index (s.cluster.peer i)
  beyond_none s i c v h l m t =
      let o = v.owned c m in
      let (ps, sp, mp) = o.chosen in
      let (qs, sq, mq) =
        subst (λ x. HasMajority n s.cluster.ballots x i) (sym t) (v.sound.led i h l) in
      let (p, _, vc, vi) =
        Peers-meet (HasVote s.cluster.ballots c.term c.by) (HasVote s.cluster.ballots c.term i) n ps
          qs sp sq (omega arith) in
      let same : c.by ≡ i = v.sound.once _ _ vc vi refl refl in
      let at : s.cluster.peer c.by ≡ s.cluster.peer i = ap s.cluster.peer same in
      subst (λ rf. c.index ≤ last_logical_index rf) at
        (o.leads (t ∙ ap (λ rf. rf.curr_term) (sym at)) (ap (λ rf. rf.state) at ∙ l))

  module _ (s : Network C) (i : ℕ) (command : Option C) where
    abbrev after : Network C
    after = record s {
      cluster = record s.cluster {
        peer = put i (start codec command (s.cluster.peer i)).0 s.cluster.peer;
      };
      created = creation i command (s.cluster.peer i) ∷ s.created;
    }

    starts-go : IsLogged codec n s → i < n → PeersGo codec n after.created s.cluster after.cluster
    starts-go v h =
        let rf = s.cluster.peer i in
        let fit = λ (j : ℕ) (g : j < n).
          IsFit-grows s.created (creation i command rf) (s.cluster.peer j) (v.fit j g) in
        (
          λ b m. m,
          put-Goes codec n after.created i _ s.cluster.peer fit (λ g.
              Live-Goes codec after.created (Live.started command refl) (fit i g) (
                start-Linked after.created codec command rf (fit i g).linked
                  (nonempty rf (v.fit i h).valid) ((i, inl refl), tt))),
        )

    new-IsOwned :
        IsLogged codec n s
        → i < n
        → (s.cluster.peer i).state ≡ leader
        → IsOwned n after.cluster (creation i command (s.cluster.peer i))
    new-IsOwned v h l =
        let rf = s.cluster.peer i in
        let (led, term, more) = start_lem command rf (nonempty rf (v.fit i h).valid) l in
        let at : after.cluster.peer i ≡ (start codec command rf).0 = ground (arith, ==_iff i i) in
        record {
          inside = h;
          chosen = v.sound.led i h l;
          reached = subst (λ x. rf.curr_term ≤ x.curr_term) (sym at) (omega arith);
          stands = λ t e. ground (arith, at);
          leads =
              λ t e. subst (λ x. last_logical_index rf + 1 ≤ last_logical_index x) (sym at) more;
        }

    starts-IsLogged :
        IsLogged codec n s → i < n → (s.cluster.peer i).state ≡ leader → IsLogged codec n after
    starts-IsLogged v h l =
        let new = creation i command (s.cluster.peer i) in
        let (grows, goes) = starts-go v h in
        record {
          sound =
              Move-IsSound codec n s.cluster after.cluster v.sound
                (acts i _ (Live.started command refl) h tt refl);
          fit = λ j g. (goes j g).fit;
          messages = λ args m.
              Chain-grows s.created new args.prev_log_index args.prev_log_term args.entries
                (v.messages args m);
          owned = λ c m. elim m [
            | inl same ↦ subst (IsOwned n after.cluster) same (new-IsOwned v h l)
            | inr old ↦
                let o = v.owned c old in
                Goes-IsOwned n after.created s.cluster after.cluster c grows (goes c.by o.inside) o
          ];
          unique = λ a b ma mb e t. elim ma [
            | inl na ↦ elim mb [
              | inl nb ↦ ground arith
              | inr ob ↦ absurd (ground (arith, beyond_none s i b v h l ob))
            ]
            | inr oa ↦ elim mb [
              | inl nb ↦ absurd (ground (arith, beyond_none s i a v h l oa))
              | inr ob ↦ v.unique a b oa ob e t
            ]
          ];
        }

  Deed-IsLogged : (s s' : Network C) → IsLogged codec n s → Deed codec n s s' → IsLogged codec n s'
  Deed-IsLogged s s' v (moves c m q same) = subst (IsLogged codec n) (sym same) (
      going-IsLogged s c s.sent v (Move-IsSound codec n s.cluster c v.sound m)
        (quiet_move-Goes codec n s.created s.cluster c m q v.sound v.fit) v.messages)
  Deed-IsLogged s s' v (sends i peer args h e same) = subst (IsLogged codec n) (sym same) (
      sends-IsLogged s args v
        (sent-Chain s.created codec peer (s.cluster.peer i) args (v.fit i h).linked e))
  Deed-IsLogged s s' v (delivers i now args reply rf h m e same) =
      let l : Live codec (s.cluster.peer i) rf = Live.sent_entries now args reply e in
      let linked =
        append_entries-Linked s.created codec now args reply (s.cluster.peer i) rf (v.fit i h).valid
          (v.fit i h).linked (v.messages args m) e in
      let c : Cluster C = record s.cluster { peer = put i rf s.cluster.peer } in
      subst (IsLogged codec n) (sym same) (
        going-IsLogged s c s.sent v
          (Move-IsSound codec n s.cluster c v.sound (acts i rf l h tt refl))
          (
            λ b x. x,
            put-Goes codec n s.created i rf s.cluster.peer v.fit
                (λ g. Live-Goes codec s.created l (v.fit i g) linked),
          )
          v.messages)
  Deed-IsLogged s s' v (starts i command h l same) =
      subst (IsLogged codec n) (sym same) (starts-IsLogged s i command v h l)

  make_logs :
      (now i : ℕ)
      → (make codec now n i make_persister).logs ≡ record { term = 0; command = none } ∷ []
  unfolding make_persister
  make_logs now i = ap (λ p. p.logs) (make_recovers codec now n i make_persister)

  new_network-IsLogged : (now : ℕ) → IsLogged codec n (new_network codec n now)
  new_network-IsLogged now = record {
    sound = new_cluster-IsSound codec n now;
    fit = λ i h. record {
      valid = made-IsValid codec now n i (make codec now n i make_persister) Steps.here;
      linked =
          subst (IsLinked [] (make codec now n i make_persister).last_included_index)
            (sym (make_logs now i)) tt;
    };
    messages = λ args m. absurd m;
    owned = λ c m. absurd m;
    unique = λ a b m. absurd m;
  }

  pub History-IsLogged :
      (now : ℕ) (s : Network C) → History codec n (new_network codec n now) s → IsLogged codec n s
  History-IsLogged now s here = new_network-IsLogged now
  History-IsLogged now s (then_deed {t} past deed) =
      Deed-IsLogged t s (History-IsLogged now t past) deed
