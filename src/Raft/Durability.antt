-- ===== src/Raft/Durability.antt =====
-- The persister of a peer always holds what `Make` needs to bring the peer back.
use ai_fs.Prelude.{ℕ, ◌≡◌, refl, ◌∙◌, sym, subst, none, some, [], ◌∷◌, arith}
use ai_fs.Raft.Persister.{Bytes, Persister, make_persister}
use ai_fs.Raft.State.{Raft, Codec, Persistent, persistent, read_persist}
use ai_fs.Raft.Lifetime.{make, fresh_raft}
use ai_fs.Raft.Keeps.{Keeps}
use ai_fs.Raft.Steps.{Live-Keeps, live, restarted, Steps, here, then_step}

-- The persistent state of a peer that has saved nothing.
abbrev pub unsaved : (C : Type 0) → Persistent C
unsaved C = record {
  curr_term = 0;
  voted_for = none;
  logs = record { term = 0; command = none } ∷ [];
  last_included_index = 0;
  last_included_term = 0;
}

module _ {C : Type 0} (codec : Codec (Persistent C)) where
  -- What the saved bytes stand for.
  abbrev pub recovered : Bytes → Persistent C
  recovered [] = unsaved C
  recovered (b ∷ bs) = elim (codec.decode (b ∷ bs)) [ none ↦ unsaved C | some p ↦ p ]

  abbrev pub IsDurable : Raft C → Type 0
  IsDurable rf = recovered rf.persister.raftstate ≡ persistent rf

  recovered-encode_of : (p : Persistent C) (bs : Bytes) → codec.encode p ≡ bs → recovered bs ≡ p
  recovered-encode_of p [] e = absurd (codec.encode-ne-nil p e)
  recovered-encode_of p (b ∷ bs) e = ground (arith, codec.decode-encode p)

  pub read_persist-recovered :
      (now peers me : ℕ) (ps : Persister) (bs : Bytes)
      → persistent (read_persist codec bs (fresh_raft now peers me ps)) ≡ recovered bs
  unfolding read_persist fresh_raft
  read_persist-recovered now peers me ps [] = refl
  read_persist-recovered now peers me ps (b ∷ bs) = ground arith

  read_persist-persister :
      (bs : Bytes) (rf : Raft C) → (read_persist codec bs rf).persister ≡ rf.persister
  unfolding read_persist
  read_persist-persister [] rf = refl
  read_persist-persister (b ∷ bs) rf = ground arith

  module _ (now peers me : ℕ) (ps : Persister) where
    -- `Make` brings back what the saved bytes stand for, and starts at the end of the snapshot.
    pub make_recovers : persistent (make codec now peers me ps) ≡ recovered ps.raftstate
    unfolding make
    make_recovers = ground (arith, read_persist-recovered now peers me ps ps.raftstate)

    make-persister : (make codec now peers me ps).persister ≡ ps
    unfolding make fresh_raft
    make-persister =
        ground (arith, read_persist-persister ps.raftstate (fresh_raft now peers me ps))

    pub make-IsDurable : IsDurable (make codec now peers me ps)
    make-IsDurable = rw make-persister (sym make_recovers)

  pub Keeps-IsDurable : (rf rf' : Raft C) → Keeps codec rf rf' → IsDurable rf → IsDurable rf'
  Keeps-IsDurable rf rf' k d =
      ground (arith, k.saved, recovered-encode_of (persistent rf') rf'.persister.raftstate)

  pub Steps-IsDurable : {rf rf' : Raft C} → Steps codec rf rf' → IsDurable rf → IsDurable rf'
  Steps-IsDurable here d = d
  Steps-IsDurable {rf'} (then_step {s} steps (live l)) d =
      Keeps-IsDurable s rf' (Live-Keeps codec l) (Steps-IsDurable steps d)
  Steps-IsDurable (then_step {s} steps (restarted now e)) d =
      subst IsDurable (sym e) (make-IsDurable now s.peers s.me s.persister)

  -- Whatever a peer has done since it was first made, with crashes on the way, a restart from its
  -- persister brings back its term, its vote, its log and the place where its log begins.
  pub restart_recovers :
      (start_time now peers me : ℕ) (rf : Raft C)
      → Steps codec (make codec start_time peers me make_persister) rf
      → persistent (make codec now rf.peers rf.me rf.persister) ≡ persistent rf
  restart_recovers start_time now peers me rf steps =
      make_recovers now rf.peers rf.me rf.persister
      ∙ Steps-IsDurable steps (make-IsDurable start_time peers me make_persister)
