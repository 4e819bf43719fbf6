-- ===== src/Kvraft/Once.antt =====
-- Duplicate commands in the log, and the record of each client's last command.
use ai_fs.Prelude.{
  ℕ, ◌≤◌, ◌<◌, ◌≡◌, refl, inl, inr, leb, if◌then◌else◌, Bool, true, false, Bool-cases, Option, none,
  some, Option-cases, List, [], ◌∷◌, arith, ==_iff, subst, fun_ext, ap, ◌∙◌,
}
use ai_fs.Prelude.Dict.{◌==◌, nat_eq, string_eq, lookup, lookup-insert}
use ai_fs.Kvraft.Common.{Op, Store, Tables}
use ai_fs.Kvraft.StateMachine.{apply_to_state_machine, apply_command, recorded}

-- The commands of a log, one after the other.
unfoldable pub apply_all : List Op → Tables → Tables
apply_all [] t = t
apply_all (cmd ∷ cmds) t = apply_all cmds (apply_command cmd t).0

-- The same without any record of clients.
unfoldable pub run_all : List Op → Store → Store
run_all [] store = store
run_all (cmd ∷ cmds) store = run_all cmds (apply_to_state_machine cmd store).0

-- The highest number seen of each client.
abbrev pub Seen : Type 0
Seen = ℕ → Option ℕ

abbrev pub note : Op → Seen → Seen
note cmd seen i = if cmd.client_id == i then some cmd.seq_id else seen i

abbrev pub is_seen : Op → Seen → Bool
is_seen cmd seen = elim (seen cmd.client_id) [ none ↦ false | some n ↦ leb cmd.seq_id n ]

-- The commands whose number is new, each client's once.
pub once : List Op → Seen → List Op
once [] seen = []
once (cmd ∷ cmds) seen =
    let dropped = once cmds seen in
    let kept = cmd ∷ once cmds (note cmd seen) in if is_seen cmd seen then dropped else kept

-- A client's numbers do not fall along the log.
abbrev pub InSequence : List Op → Seen → Type 0
InSequence [] seen = Unit {0}
InSequence (cmd ∷ cmds) seen =
    ((n : ℕ) → seen cmd.client_id ≡ some n → n ≤ cmd.seq_id) × InSequence cmds (note cmd seen)

abbrev pub last_seen : Tables → Seen
last_seen t i = elim (lookup i t.record_map) [ none ↦ none | some r ↦ some r.last_seq_id ]

-- The record of a client after a command is the command's.
last_seen-apply :
    (cmd : Op) (t : Tables) (i : ℕ) → last_seen (apply_command cmd t).0 i ≡ note cmd (last_seen t) i
unfolding apply_command
last_seen-apply cmd t i = ground (
  arith,
  lookup-insert cmd.client_id i
      (record { last_seq_id = cmd.seq_id; last_reply = (apply_command cmd t).1 }) t.record_map,
)

apply_seen :
    (cmd : Op) (t : Tables)
    → is_seen cmd (last_seen t) ≡ true
    → (apply_command cmd t).0.kv_store ≡ t.kv_store
unfolding apply_command
apply_seen cmd t h = ground arith

apply_new :
    (cmd : Op) (t : Tables)
    → is_seen cmd (last_seen t) ≡ false
    → (apply_command cmd t).0.kv_store ≡ (apply_to_state_machine cmd t.kv_store).0
unfolding apply_command
apply_new cmd t h = ground arith

-- `seen` speaks of the records of `t`.
abbrev Tracks : Seen → Tables → Type 0
Tracks seen t = (i : ℕ) → last_seen t i ≡ seen i

Tracks-apply :
    (cmd : Op) (seen : Seen) (t : Tables)
    → Tracks seen t
    → Tracks (note cmd seen) (apply_command cmd t).0
Tracks-apply cmd seen t h i = ground (arith, last_seen-apply cmd t i, h i)

-- A number that is seen and does not fall below the last one is the last one.
note_same :
    (cmd : Op) (seen : Seen)
    → is_seen cmd seen ≡ true
    → ((n : ℕ) → seen cmd.client_id ≡ some n → n ≤ cmd.seq_id)
    → (i : ℕ) → note cmd seen i ≡ seen i
note_same cmd seen s le i = elim (Option-cases (seen cmd.client_id)) [
  | inl e ↦ ground arith
  | inr (n, e) ↦ ground (arith, le n e, ==_iff cmd.client_id i)
]

-- If no client's numbers fall along the log, from what the records say at its beginning, then
-- applying the log, duplicates and all, leaves the store that the commands with new numbers leave,
-- each run once and with no record of clients.
pub exactly_once :
    (cmds : List Op) (seen : Seen) (t : Tables)
    → ((i : ℕ) → last_seen t i ≡ seen i)
    → InSequence cmds seen
    → (apply_all cmds t).kv_store ≡ run_all (once cmds seen) t.kv_store
unfolding apply_all run_all once
exactly_once [] seen t h s = refl
exactly_once (cmd ∷ cmds) seen t h (le, s) = elim (Bool-cases (is_seen cmd seen)) [
  | inl old ↦
      let same = fun_ext (note_same cmd seen old le) in
      let rest =
        exactly_once cmds seen (apply_command cmd t).0
          (subst (λ f. Tracks f (apply_command cmd t).0) same (Tracks-apply cmd seen t h))
          (subst (InSequence cmds) same s) in
      rw old
        (rest ∙ ap (run_all (once cmds seen)) (apply_seen cmd t (ground (arith, h cmd.client_id))))
  | inr new ↦
      let rest =
        exactly_once cmds (note cmd seen) (apply_command cmd t).0 (Tracks-apply cmd seen t h) s in
      rw new (
        rest
        ∙ ap (run_all (once cmds (note cmd seen)))
            (apply_new cmd t (ground (arith, h cmd.client_id))))
]

-- A duplicate with a number below its client's last one takes the record back to that number, so
-- that the last command, if it comes again, is run again.
pub stale_duplicate_forgets :
    (old last : Op) (t : Tables)
    → old.client_id ≡ last.client_id
    → old.seq_id < last.seq_id
    → last_seen t last.client_id ≡ some last.seq_id
    → (apply_all (old ∷ last ∷ []) t).kv_store ≡ (apply_to_state_machine last t.kv_store).0
unfolding apply_all
stale_duplicate_forgets old last t c lt h =
    let t' = (apply_command old t).0 in
    let unchanged = apply_seen old t (ground arith) in
    let back = last_seen-apply old t last.client_id in
    apply_new last t' (ground (arith, ==_iff old.client_id last.client_id))
    ∙ ap (λ store. (apply_to_state_machine last store).0) unchanged

reply_lost :
    (early late : Op) (t : Tables)
    → early.client_id ≡ late.client_id
    → early.seq_id < late.seq_id
    → is_seen late (last_seen t) ≡ false
    → (apply_command early (apply_command late t).0).1 ≡ (apply_to_state_machine late t.kv_store).1
unfolding apply_command recorded
reply_lost early late t c lt new = ground (
  arith,
  ==_iff late.client_id early.client_id,
  lookup-insert late.client_id early.client_id
      (record { last_seq_id = late.seq_id; last_reply = (apply_command late t).1 }) t.record_map,
)

pub overtaken_command_lost :
    (early late : Op) (t : Tables)
    → early.client_id ≡ late.client_id
    → early.seq_id < late.seq_id
    → is_seen late (last_seen t) ≡ false
    → ((apply_all (late ∷ early ∷ []) t).kv_store ≡ (apply_to_state_machine late t.kv_store).0)
      × ((apply_command early (apply_command late t).0).1
          ≡ (apply_to_state_machine late t.kv_store).1)
unfolding apply_all
overtaken_command_lost early late t c lt new =
    let t' = (apply_command late t).0 in
    let noted = last_seen-apply late t early.client_id in
    let same = ==_iff late.client_id early.client_id in
    let seen : is_seen early (last_seen t') ≡ true = ground arith in
    (apply_seen early t' seen ∙ apply_new late t new, reply_lost early late t c lt new)
