-- ===== src/Raft/Network/Turns.antt =====
-- What one peer does to its log and its role when it takes any step.
use ai_fs.Prelude.{ℕ, ◌≤◌, ◌≡◌, sym, ap, ◌∙◌, subst, List, arith}
use ai_fs.Raft.State.{Raft, Codec, Persistent}
use ai_fs.Raft.Lifetime.{make}
use ai_fs.Raft.Steps.{
  Live, asked_for_vote, sent_entries, sent_snapshot, took_snapshot, started, stood, won, saw_term,
  heard_append, heard_install, applied, killed, Live-Keeps,
}
use ai_fs.Raft.Valid.{IsValid}
use ai_fs.Raft.Valid.Runs.{Live-IsValid, make-IsValid}
use ai_fs.Raft.Durability.{IsDurable, make_recovers}
use ai_fs.Raft.Network.{Creation, IsQuiet}
use ai_fs.Raft.Network.Chains.{Linked, SameLog-Linked}
use ai_fs.Raft.Network.Handlers.{snapshot-Linked, install_snapshot-Linked}
use ai_fs.Raft.Network.Orderly.{
  Orderly, IsCalm, IsCalm-Orderly, request_vote-IsCalm, start_election-IsCalm, become_leader-IsCalm,
  observe_term-IsCalm, append_reply-IsCalm, install_reply-IsCalm, apply_one-IsCalm, kill-IsCalm,
  start-Orderly, snapshot-Orderly, install_snapshot-Orderly, append_entries-Orderly, make-Orderly,
}

module _ {C : Type 0} (made : List (Creation C)) where
  pub record IsFit (rf : Raft C) : Type 0 where
    pub valid : IsValid rf
    pub linked : Linked made rf

  -- A peer goes from one state to a fit one.
  pub record Goes (rf rf' : Raft C) : Type 0 where
    pub term : rf.curr_term ≤ rf'.curr_term
    pub order : Orderly rf rf'
    pub fit : IsFit rf'

  IsCalm-Linked : (rf rf' : Raft C) → IsCalm rf rf' → Linked made rf → Linked made rf'
  IsCalm-Linked rf rf' c = SameLog-Linked made rf rf' (record { logs = c.logs; start = c.start })

module _ {C : Type 0} (codec : Codec (Persistent C)) where
  equal-Orderly : {rf s t : Raft C} → t ≡ s → Orderly rf s → Orderly rf t
  equal-Orderly {rf} e o = subst (λ x. Orderly rf x) (sym e) o

  equal-IsCalm : {rf s t : Raft C} → t ≡ s → IsCalm rf s → IsCalm rf t
  equal-IsCalm {rf} e o = subst (λ x. IsCalm rf x) (sym e) o

  pub Live-Orderly : {rf rf' : Raft C} → Live codec rf rf' → Orderly rf rf'
  Live-Orderly {rf} {rf'} (asked_for_vote now args reply e) =
      IsCalm-Orderly rf rf' (request_vote-IsCalm codec now args reply rf rf' e)
  Live-Orderly {rf} {rf'} (sent_entries now args reply e) =
      append_entries-Orderly codec now args reply rf rf' e
  Live-Orderly {rf} (sent_snapshot now args e) =
      equal-Orderly e (install_snapshot-Orderly codec now args rf)
  Live-Orderly {rf} {rf'} (took_snapshot index snap _ _ e) =
      snapshot-Orderly codec index snap rf rf' e
  Live-Orderly {rf} (started command e) = equal-Orderly e (start-Orderly codec command rf)
  Live-Orderly {rf} {rf'} (stood now args e) =
      IsCalm-Orderly rf rf' (start_election-IsCalm codec now args rf rf' e)
  Live-Orderly {rf} {rf'} (won term e) =
      IsCalm-Orderly rf rf' (equal-IsCalm e (become_leader-IsCalm codec term rf))
  Live-Orderly {rf} {rf'} (saw_term term e) =
      IsCalm-Orderly rf rf' (equal-IsCalm e (observe_term-IsCalm codec term rf))
  Live-Orderly {rf} {rf'} (heard_append now peer args reply _ e) =
      IsCalm-Orderly rf rf' (append_reply-IsCalm codec now peer args reply rf rf' e)
  Live-Orderly {rf} {rf'} (heard_install now peer args term _ e) =
      IsCalm-Orderly rf rf' (install_reply-IsCalm codec now peer args term rf rf' e)
  Live-Orderly {rf} {rf'} (applied again e) =
      IsCalm-Orderly rf rf' (apply_one-IsCalm codec again rf rf' e)
  Live-Orderly {rf} {rf'} (killed e) = IsCalm-Orderly rf rf' (equal-IsCalm e (kill-IsCalm codec rf))

  module _ (made : List (Creation C)) where
    quiet-Linked :
        {rf rf' : Raft C} (l : Live codec rf rf') → IsQuiet l → Linked made rf → Linked made rf'
    quiet-Linked {rf} {rf'} (asked_for_vote now args reply e) q h =
        IsCalm-Linked made rf rf' (request_vote-IsCalm codec now args reply rf rf' e) h
    quiet-Linked (sent_entries now args reply e) q h = absurd q
    quiet-Linked {rf} (sent_snapshot now args e) q h =
        subst (Linked made) (sym e) (install_snapshot-Linked made codec now args rf h)
    quiet-Linked {rf} {rf'} (took_snapshot index snap _ _ e) q h =
        snapshot-Linked made codec index snap rf rf' h e
    quiet-Linked (started command e) q h = absurd q
    quiet-Linked {rf} {rf'} (stood now args e) q h =
        IsCalm-Linked made rf rf' (start_election-IsCalm codec now args rf rf' e) h
    quiet-Linked {rf} {rf'} (won term e) q h =
        IsCalm-Linked made rf rf' (equal-IsCalm e (become_leader-IsCalm codec term rf)) h
    quiet-Linked {rf} {rf'} (saw_term term e) q h =
        IsCalm-Linked made rf rf' (equal-IsCalm e (observe_term-IsCalm codec term rf)) h
    quiet-Linked {rf} {rf'} (heard_append now peer args reply _ e) q h =
        IsCalm-Linked made rf rf' (append_reply-IsCalm codec now peer args reply rf rf' e) h
    quiet-Linked {rf} {rf'} (heard_install now peer args term _ e) q h =
        IsCalm-Linked made rf rf' (install_reply-IsCalm codec now peer args term rf rf' e) h
    quiet-Linked {rf} {rf'} (applied again e) q h =
        IsCalm-Linked made rf rf' (apply_one-IsCalm codec again rf rf' e) h
    quiet-Linked {rf} {rf'} (killed e) q h =
        IsCalm-Linked made rf rf' (equal-IsCalm e (kill-IsCalm codec rf)) h

    pub Live-Goes :
        {rf rf' : Raft C} → Live codec rf rf' → IsFit made rf → Linked made rf' → Goes made rf rf'
    Live-Goes {rf} {rf'} l f linked = record {
      term = (Live-Keeps codec l).term;
      order = Live-Orderly l;
      fit = record { valid = Live-IsValid codec f.valid l; linked = linked };
    }

    pub quiet-Goes :
        {rf rf' : Raft C} (l : Live codec rf rf') → IsQuiet l → IsFit made rf → Goes made rf rf'
    quiet-Goes l q f = Live-Goes l f (quiet-Linked l q f.linked)

    -- A crash and a restart from the persister.
    pub crash-Goes :
        (now : ℕ) (rf : Raft C)
        → IsDurable codec rf
        → IsFit made rf
        → Goes made rf (make codec now rf.peers rf.me rf.persister)
    crash-Goes now rf d f =
        let rf' = make codec now rf.peers rf.me rf.persister in
        let same = make_recovers codec now rf.peers rf.me rf.persister ∙ d in
        record {
          term = omega (arith, ap (λ p. p.curr_term) same);
          order = make-Orderly codec now rf.peers rf.me rf.persister rf;
          fit = record {
            valid = make-IsValid codec now rf.peers rf.me rf.persister (rw d f.valid.base);
            linked =
                SameLog-Linked made rf rf'
                  (record {
                    logs = ap (λ p. p.logs) same;
                    start = ap (λ p. p.last_included_index) same;
                  })
                  f.linked;
          };
        }
