-- ===== src/Raft/Delivery.antt =====
-- What `sendApplyMsg` hands to the service.
use ai_fs.Prelude.{
  ℕ, zero, suc, ◌+◌, ◌≤◌, ◌<◌, ◌≡◌, ◌⊎◌, inl, inr, refl, ◌∙◌, sym, ap, true, false, Option, some,
  none, List, [], ◌∷◌, ◌++◌, length, arith, ltb, Bool-cases, Returns,
}
use mathlib.Core.List.{append-nil, append_assoc}
use ai_fs.Raft.State.{
  Raft, LogEntry, ApplyMsg, command_msg, snapshot_msg, log_at, last_logical_index,
}
use ai_fs.Raft.Lifetime.{apply_one, send_apply_msg}
use ai_fs.Raft.Valid.{IsValid, log_at_total}

module _ {C : Type 0} where
  -- The commands of the log from index `i` on, each with its index.
  abbrev pub InOrder : Raft C → ℕ → List (ApplyMsg C) → Type 0
  InOrder rf i [] = Unit {0}
  InOrder rf i (command_msg c at ∷ ms) =
      (at ≡ i)
      × ((entry : LogEntry C) × (log_at i rf ≡ some entry) × (entry.command ≡ c))
      × InOrder rf (i + 1) ms
  InOrder rf i (snapshot_msg _ _ _ ∷ ms) = ⊥

  -- `sent` are the messages of a run from `rf` to `rf'`, which has nothing left to send.
  pub record Delivers (rf rf' : Raft C) : Type 0 where
    pub sent : List (ApplyMsg C)
    pub channel : rf'.apply_ch ≡ rf.apply_ch ++ sent
    pub order : InOrder rf (rf.last_applied + 1) sent
    pub applied : rf'.last_applied ≡ rf.last_applied + length sent
    pub done : (rf.commit_index ≤ rf'.last_applied) ⊎ (last_logical_index rf ≤ rf'.last_applied)
    pub committed : (sent ≡ []) ⊎ (rf'.last_applied ≤ rf.commit_index)
    pub rest : rf' ≡ record rf { last_applied = rf'.last_applied; apply_ch = rf'.apply_ch }

  abbrev delivered : Raft C → LogEntry C → Raft C
  delivered rf entry = record rf {
    last_applied = rf.last_applied + 1;
    apply_ch = rf.apply_ch ++ (command_msg entry.command (rf.last_applied + 1) ∷ []);
  }

  -- A round stops for good, or sends the next entry.
  apply_one_cases :
      (rf : Raft C)
      → IsValid rf
      → ((apply_one rf ≡ some (rf, false))
          × ((rf.commit_index ≤ rf.last_applied) ⊎ (last_logical_index rf ≤ rf.last_applied)))
        ⊎ ((entry : LogEntry C) × (log_at (rf.last_applied + 1) rf ≡ some entry)
            × (apply_one rf ≡ some (delivered rf entry, true))
            × (rf.last_applied < rf.commit_index))
  unfolding apply_one
  apply_one_cases rf v = elim (Bool-cases (ltb rf.last_applied rf.commit_index)) [
    | inl more ↦ elim (Bool-cases (ltb (last_logical_index rf) (rf.last_applied + 1))) [
      | inl short ↦ inl (ground arith, inr (ground arith))
      | inr long ↦
          let (e, p) = log_at_total (rf.last_applied + 1) rf v (omega arith) (ground arith) in
          inr (e, p, ground arith, ground arith)
    ]
    | inr none_left ↦ inl (ground arith, inl (ground arith))
  ]

  InOrder-delivered :
      (rf : Raft C) (entry : LogEntry C) (i : ℕ) (ms : List (ApplyMsg C))
      → InOrder (delivered rf entry) i ms
      → InOrder rf i ms
  unfolding log_at
  InOrder-delivered rf entry i [] s = tt
  InOrder-delivered rf entry i (command_msg c at ∷ ms) (e, x, s) =
      (e, x, InOrder-delivered rf entry (i + 1) ms s)
  InOrder-delivered rf entry i (snapshot_msg _ _ _ ∷ ms) s = s

  delivered-IsValid : (rf : Raft C) (entry : LogEntry C) → IsValid rf → IsValid (delivered rf entry)
  delivered-IsValid rf entry v = ground arith

  committed-delivered :
      (rf rf' : Raft C) (entry : LogEntry C)
      → rf.last_applied < rf.commit_index
      → Delivers (delivered rf entry) rf'
      → rf'.last_applied ≤ rf.commit_index
  committed-delivered rf rf' entry more d = elim d.committed [
    | inl e ↦ omega (arith, more, d.applied, ap length e)
    | inr k ↦ k
  ]

  Delivers-delivered :
      (rf rf' : Raft C) (entry : LogEntry C)
      → rf.last_applied < rf.commit_index
      → log_at (rf.last_applied + 1) rf ≡ some entry
      → Delivers (delivered rf entry) rf'
      → Delivers rf rf'
  unfolding last_logical_index
  Delivers-delivered rf rf' entry more p d = record {
    sent = command_msg entry.command (rf.last_applied + 1) ∷ d.sent;
    channel = d.channel ∙ append_assoc rf.apply_ch _ d.sent;
    order = (
      refl,
      (entry, p, refl),
      InOrder-delivered rf entry (rf.last_applied + 1 + 1) d.sent d.order,
    );
    applied = omega (arith, d.applied);
    done = d.done;
    committed = inr (committed-delivered rf rf' entry more d);
    rest = ground (arith, d.rest);
  }

  Delivers-nothing :
      (rf : Raft C)
      → (rf.commit_index ≤ rf.last_applied) ⊎ (last_logical_index rf ≤ rf.last_applied)
      → Delivers rf rf
  Delivers-nothing rf stop = record {
    sent = [];
    channel = sym (append-nil rf.apply_ch);
    order = tt;
    applied = omega arith;
    done = stop;
    committed = inl refl;
    rest = refl;
  }

  Returns-delivered :
      (rf : Raft C) (entry : LogEntry C) (m : Option (Raft C))
      → rf.last_applied < rf.commit_index
      → log_at (rf.last_applied + 1) rf ≡ some entry
      → Returns (Delivers (delivered rf entry)) m
      → Returns (Delivers rf) m
  Returns-delivered rf entry none more p d = d
  Returns-delivered rf entry (some rf') more p d = Delivers-delivered rf rf' entry more p d

  pub sends_in_order :
      (fuel : ℕ) (rf : Raft C)
      → IsValid rf
      → rf.commit_index < rf.last_applied + fuel
      → Returns (Delivers rf) (send_apply_msg fuel rf)
  unfolding send_apply_msg
  sends_in_order zero rf v h = Delivers-nothing rf (inl (omega arith))
  sends_in_order (suc fuel) rf v h = elim (apply_one_cases rf v) [
    | inl (e, stop) ↦ rw (e, send_apply_msg, Returns) (Delivers-nothing rf stop)
    | inr (entry, p, e, more) ↦
        rw (e, send_apply_msg, Returns)
          (Returns-delivered rf entry (send_apply_msg fuel (delivered rf entry)) more p
            (sends_in_order fuel (delivered rf entry) (delivered-IsValid rf entry v) (omega arith)))
  ]
